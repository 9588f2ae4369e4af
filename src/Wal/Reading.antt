-- ===== src/Wal/Reading.antt =====
-- What a reader gets for a page: the last frame of its part of the log, or nothing, in which case the page is in the database
-- file.
use native.Mathlib.Decide.{ℕ_discrete}
use cub_db.Common.{true}
use cub_db.Common.{ℕ, ◌+◌, ◌%◌, ◌^◌, ◌<◌, ◌≡◌, ◌⊎◌, inl, inr, refl, ap, ◌∙◌, arith}
use cub_db.Common.{Bool, false, Option, none, some, eq→beq, ne→beq_false, le→ltb_false}
use cub_db.Bytes.{Bytes}
use cub_db.Pager.{Status}
use cub_db.HashIndex.Lookup.{IsValid, Last, lookup-Last}
use cub_db.Wal.{Disk, view, frame_offset, frame_hdr_size}
use cub_db.Wal.Connection.{
  Connection, read, read_found, read_frame, minval, read_answer, ignores_log,
}

module _ {F : Type 0} (disk : Disk F) (region : ℕ → Bool → Status × Bool)
    (mappable : (n : ℕ) → region n false ≡ (Status.ok, true)) where
  -- Where the page of a frame starts in the log file.
  abbrev pub page_start : Connection → ℕ → ℕ
  page_start c frame = (frame_offset frame c.wal.page_size + frame_hdr_size) % 2 ^ 64

  -- The bytes of the frame's page, or nothing where there is no such frame.
  abbrev pub Gives : F → Connection → ℕ → Option Bytes → Type 0
  Gives f c out page =
      ((out ≡ 0) × (page ≡ none))
      ⊎ ((0 < out)
          × ((bytes : Bytes) × (page ≡ some bytes)
              × ((i : ℕ) → i < c.wal.page_size → bytes i ≡ disk.contents f (page_start c out + i))))

  read_frame_ok :
      (f : F) (c : Connection) (frame : ℕ)
      → (disk.read_exact f (page_start c frame) c.wal.page_size).0 ≡ Status.ok
      → read_frame disk region f c frame c.wal.page_size
        ≡ (Status.ok, some (disk.read_exact f (page_start c frame) c.wal.page_size).1)
  unfolding read_frame minval read_answer
  read_frame_ok f c frame answered =
      let size : minval c.wal.page_size c.wal.page_size ≡ c.wal.page_size =
        rw (minval, le→ltb_false c.wal.page_size c.wal.page_size (omega arith)) refl in
      ap (λ (t : ℕ). read_answer (disk.read_exact f (page_start c frame) t)) size
      ∙ rw (read_answer, answered) refl

  -- With a lock on a read mark other than 0, on a valid index whose groups can be mapped and a file whose reads succeed, read
  -- gives the page of the last frame between the reader's first and last that holds it, and nothing when no frame does.
  pub read-Last :
      (f : F) (c : Connection) (page_id : ℕ)
      → IsValid (view c.wal)
      → c.wal.hdr.max_frame + 34 < 2 ^ 32
      → ignores_log disk region c ≡ false
      → ((at n : ℕ) → (disk.read_exact f at n).0 ≡ Status.ok)
      → (out : ℕ) × (page : Option Bytes) × (c' : Connection) × (read disk region f c page_id
            c.wal.page_size
          ≡ (Status.ok, page, c'))
        × Last region mappable (view c.wal) page_id c.min_frame out
        × Gives f c out page
  unfolding read read_found
  read-Last f c page_id valid small uses answered =
      let (out, ix, run, last) =
        lookup-Last region mappable (view c.wal) page_id c.min_frame valid small in
      let c' = record c { wal = record (c.wal) { index = ix } } in
      let got = disk.read_exact f (page_start c out) c.wal.page_size in
      elim (ℕ_discrete c.wal.hdr.max_frame 0) [
        | yes z ↦ (
          0,
          none,
          c,
          rw (read, uses, eq→beq c.wal.hdr.max_frame 0 z) refl,
          inl (refl, λ v holds. omega (arith, holds.0, holds.2)),
          inl (refl, refl),
        )
        | no s ↦
            let start : read disk region f c page_id c.wal.page_size
                ≡ read_found disk region f c c.wal.page_size (Status.ok, out, ix) =
              rw (read, uses, ne→beq_false c.wal.hdr.max_frame 0 s)
                (ap (read_found disk region f c c.wal.page_size) run) in
            elim (ℕ_discrete out 0) [
              | yes none' ↦ (
                out,
                none,
                c',
                start ∙ rw (read_found, eq→beq out 0 none') refl,
                last,
                inl (none', refl),
              )
              | no frame ↦ (
                out,
                some got.1,
                c',
                start
                    ∙ rw
                        (
                          read_found,
                          ne→beq_false out 0 frame,
                          read_frame_ok f c' out (answered _ _),
                        )
                        refl,
                last,
                inr (
                  omega arith,
                  (
                    got.1,
                    refl,
                    disk.read_exact-ok f (page_start c out) c.wal.page_size (answered _ _),
                  ),
                ),
              )
            ]
      ]
