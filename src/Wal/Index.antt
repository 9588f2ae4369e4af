-- ===== src/Wal/Index.antt =====
-- recover_index as a whole: from the log's header to the state that other connections see.
use cub_db.Common.{true}
use cub_db.Common.{
  ℕ, zero, suc, ◌+◌, ◌-◌, ◌/◌, ◌%◌, ◌^◌, ◌≤◌, ◌<◌, ◌≡◌, ◌⊎◌, inl, inr, refl, sym, ap, ◌∙◌, arith,
}
use cub_db.Common.{Bool, false, ltb, ◌==◌, ◌&&◌, if◌then◌else◌, eq→beq, lt→ltb}
use cub_db.Bytes.{Bytes, get_u32}
use cub_db.Pager.{Status}
use cub_db.HashIndex.{HashIndex, index_group_number, group_base, lookup}
use cub_db.HashIndex.Lookup.{IsValid, page_of, lookup-Last}
use cub_db.Wal.{
  Wal, CkptInfo, Disk, view, set_frame_cksum, empty_hdr, compute_checksum, frame_offset, wal_magic,
  wal_version,
}
use cub_db.Wal.Recovery.{
  readmark_not_used, recover_groups, recover_log, recover_readmarks, recover_finish,
  recover_outcome, recover_index, write_index_header,
}
use cub_db.Wal.Prefix.{chain_at, last_commit, last_commit_le, Recovers, IsValid-below}
use cub_db.Wal.Recovered.{Prefix, recover_groups_lem, frames}

-- The state in which the frames are read, from the header's bytes.
abbrev pub started : Wal → Bytes → Wal
started w header =
    set_frame_cksum
      (record w {
        page_size = get_u32 header 8;
        ckpt_number = get_u32 header 12;
        hdr = record empty_hdr { salt = (get_u32 header 16, get_u32 header 20) };
      })
      (compute_checksum header 0 24 (0, 0))

-- A header that recover_index accepts.
pub record IsHeader (header : Bytes) : Type 0 where
  pub magic : get_u32 header 0 ≡ wal_magic
  pub version : get_u32 header 4 ≡ wal_version
  pub sum0 : (compute_checksum header 0 24 (0, 0)).0 ≡ get_u32 header 24
  pub sum1 : (compute_checksum header 0 24 (0, 0)).1 ≡ get_u32 header 28

abbrev pub last_frame : Wal → Bytes → ℕ → ℕ
last_frame w header file_size = (file_size - 32) / (24 + get_u32 header 8) % 2 ^ 32

-- The state after recovery: the frames up to the last commit, shown to other connections. The checksum chain starts at
-- zero.
pub record Recovered (log : ℕ → Bytes) (count : ℕ) (w : Wal) : Type 0 where
  pub max_frame : w.hdr.max_frame ≡ last_commit log count
  pub page_count :
      0 < last_commit log count → w.hdr.page_count ≡ get_u32 (log (last_commit log count)) 4
  pub valid : IsValid (view w)
  pub pages : (v : ℕ) → 0 < v → v ≤ last_commit log count → page_of w.index v ≡ get_u32 (log v) 0
  pub frame_cksum : w.hdr.frame_cksum ≡ (0, 0)
  pub shown0 : w.live0 ≡ w.hdr
  pub shown1 : w.live1 ≡ w.hdr
  pub backfill : w.info.backfill ≡ 0

module _ {F : Type 0} (disk : Disk F) (region : ℕ → Bool → Status × Bool)
    (mappable : (n : ℕ) (extend : Bool) → region n extend ≡ (Status.ok, true))
    (lock_exclusive : ℕ → ℕ → Status) (granted : (r n : ℕ) → lock_exclusive r n ≡ Status.ok) where
  recover_readmarks_lem :
      (count : ℕ) (w : Wal) (i : ℕ)
      → (info : CkptInfo) × (recover_readmarks disk region lock_exclusive count w i
          ≡ (Status.ok, record w { info = info }))
        × (info.backfill ≡ w.info.backfill)
  unfolding recover_readmarks
  recover_readmarks_lem zero w i = (w.info, refl, refl)
  recover_readmarks_lem (suc count) w i =
      let mark = if (i == 1) && ltb 0 w.hdr.max_frame then w.hdr.max_frame else readmark_not_used in
      let info : CkptInfo = record (w.info) {
        readmark = λ j. if j == i then mark else w.info.readmark j;
      } in
      let (info', run, same) = recover_readmarks_lem count (record w { info = info }) (i + 1) in
      (info', rw (recover_readmarks, granted (i + 3) 1) run, same)

  recover_finish-Recovered :
      (start : Wal) (log : ℕ → Bytes) (count : ℕ) (w : Wal) (saved : ℕ × ℕ)
      → Recovers start log count w saved
      → count + 35 < 2 ^ 32
      → (w' : Wal) × (recover_finish disk region lock_exclusive w saved ≡ (Status.ok, w'))
        × Recovered log count w'
  unfolding recover_finish write_index_header
  recover_finish-Recovered start log count w saved r small =
      let sized : Wal = record w {
        hdr = record (w.hdr) { page_size = w.page_size % 2 ^ 16; frame_cksum = saved };
      } in
      let shown = write_index_header sized in
      let info : CkptInfo = record {
        backfill = 0;
        readmark = λ j. if j == 0 then 0 else shown.info.readmark j;
      } in
      let (info', run, same) = recover_readmarks_lem 4 (record shown { info = info }) 1 in
      (
        record shown { info = info' },
        run,
        record {
          max_frame = r.max_frame;
          page_count = r.page_count;
          valid = rw (r.max_frame) (
              IsValid-below (record (w.index) { max_frame = count }) (last_commit log count)
                (last_commit_le log count) (omega arith) r.valid);
          pages = λ v pos h. r.pages v pos (omega (arith, last_commit_le log count));
          frame_cksum = r.saved_cksum;
          shown0 = refl;
          shown1 = refl;
          backfill = same;
        },
      )

  first_base : group_base 0 ≡ 0
  unfolding group_base
  first_base = refl

  -- No frame has been read yet.
  Recovers-start :
      (w : Wal) (header : Bytes) (log : ℕ → Bytes)
      → IsValid (record (w.index) { max_frame = 0 })
      → Recovers (started w header) log 0 (started w header) (0, 0)
  unfolding last_commit
  Recovers-start w header log valid = record {
    salt = refl;
    page_size = refl;
    max_frame = refl;
    page_count = λ pos. absurd (omega arith);
    cksum = refl;
    saved_cksum = refl;
    valid = valid;
    current = inr refl;
    pages = λ v pos h. absurd (omega arith);
  }

  recover_log_eq :
      (f : F) (w : Wal) (file_size : ℕ) (header : Bytes)
      → IsHeader header
      → recover_log disk region lock_exclusive f (record w { hdr = empty_hdr }) file_size header
        ≡ recover_groups disk region lock_exclusive
            (suc (index_group_number (last_frame w header file_size)))
            f
            (started w header)
            (0, 0)
            (last_frame w header file_size)
            0
  unfolding recover_log
  recover_log_eq f w file_size header good =
      rw
        (
          recover_log,
          eq→beq _ _ good.magic,
          eq→beq _ _ good.version,
          eq→beq _ _ good.sum0,
          eq→beq _ _ good.sum1,
        )
        refl

  pub recover_index-Recovered :
      (f : F) (w : Wal) (ckpt_lock : Bool) (file_size count : ℕ)
      → disk.get_size f ≡ (Status.ok, file_size)
      → 32 < file_size
      → (disk.read_exact f 0 32).0 ≡ Status.ok
      → IsHeader (disk.read_exact f 0 32).1
      → last_frame w (disk.read_exact f 0 32).1 file_size + 35 < 2 ^ 32
      → ((n : ℕ)
          → n < last_frame w (disk.read_exact f 0 32).1 file_size
          → (disk.read_exact f
              (frame_offset (suc n) (get_u32 (disk.read_exact f 0 32).1 8))
              (24 + get_u32 (disk.read_exact f 0 32).1 8)).0
            ≡ Status.ok)
      → Prefix disk region mappable lock_exclusive f
          (started w (disk.read_exact f 0 32).1)
          (compute_checksum (disk.read_exact f 0 32).1 0 24 (0, 0))
          (last_frame w (disk.read_exact f 0 32).1 file_size)
          count
      → IsValid (record (w.index) { max_frame = 0 })
      → (w' : Wal) × (recover_index disk region lock_exclusive f w ckpt_lock ≡ (Status.ok, w'))
        × Recovered
            (frames disk region mappable lock_exclusive f (started w (disk.read_exact f 0 32).1))
            count
            w'
  unfolding recover_index recover_outcome chain_at
  recover_index-Recovered f w ckpt_lock file_size count size some_frames read header small reads
        prefix valid =
      let head = (disk.read_exact f 0 32).1 in
      let start = started w head in
      let last = last_frame w head file_size in
      let sums = compute_checksum head 0 24 (0, 0) in
      let log = frames disk region mappable lock_exclusive f start in
      let begun : Recovers start log (group_base 0) start (0, 0) =
        rw first_base (Recovers-start w head log valid) in
      let loops =
        recover_groups_lem disk region mappable lock_exclusive f start sums last count prefix small
          reads (index_group_number last) 0 start (0, 0) (omega arith) (omega (arith, first_base))
          begun (rw first_base refl) in
      let finish = recover_outcome disk region lock_exclusive in
      let few : count + 35 < 2 ^ 32 = omega (arith, prefix.within) in
      let run : recover_index disk region lock_exclusive f w ckpt_lock
          ≡ finish (
              recover_groups disk region lock_exclusive (suc (index_group_number last)) f start
                (0, 0) last 0) =
        rw
          (
            recover_index,
            granted (if ckpt_lock then 2 else 1) (3 - (if ckpt_lock then 2 else 1)),
            ap (λ (t : Status × ℕ). t.0) size,
            ap (λ (t : Status × ℕ). t.1) size,
            lt→ltb 32 file_size some_frames,
            read,
            ap (λ (t : Status × ℕ). t.1) size,
          )
          (ap finish (recover_log_eq f w file_size head header)) in
      elim loops [
        | inl (reached, runs) ↦
            let same : last ≡ count = omega (arith, prefix.within) in
            let (w', ended, done) =
              recover_finish-Recovered start log count runs.wal runs.saved
                (rw (sym same) (runs.recovers)) few in
            (w', run ∙ ap finish (runs.outcome) ∙ ended, done)
        | inr stops ↦
            let (w', ended, done) =
              recover_finish-Recovered start log count stops.wal stops.saved (stops.recovers) few in
            (w', run ∙ ap finish (stops.outcome) ∙ ended, done)
      ]

-- The last frame up to the last commit that holds the page, or 0 when there is none.
abbrev pub LastCommitted : (ℕ → Bytes) → ℕ → ℕ → ℕ → Type 0
LastCommitted log count key out =
    ((out ≡ 0) × ((v : ℕ) → 0 < v → v ≤ last_commit log count → get_u32 (log v) 0 ≡ key → ⊥))
    ⊎ ((0 < out)
        × (out ≤ last_commit log count)
        × (get_u32 (log out) 0 ≡ key)
        × ((v : ℕ) → 0 < v → v ≤ last_commit log count → get_u32 (log v) 0 ≡ key → v ≤ out))

-- In a recovered state, looking a page up gives the last frame up to the last commit of the log that holds the page, or 0
-- when there is none.
pub lookup-Recovered :
    (region : ℕ → Bool → Status × Bool) (log : ℕ → Bytes) (count key : ℕ) (w : Wal)
    → ((n : ℕ) → region n false ≡ (Status.ok, true))
    → Recovered log count w
    → count + 35 < 2 ^ 32
    → (out : ℕ) × (ix : HashIndex) × (lookup region (view w) key 0 ≡ (Status.ok, out, ix))
      × LastCommitted log count key out
lookup-Recovered region log count key w mappable r small =
    let low = last_commit_le log count in
    let (out, ix, run, answer) =
      lookup-Last region mappable (view w) key 0 r.valid (omega (arith, r.max_frame)) in
    let top : w.hdr.max_frame ≡ last_commit log count = r.max_frame in
    let up : (v : ℕ) → v ≤ last_commit log count → v ≤ w.hdr.max_frame =
      λ v h. omega (arith, top) in
    (
      out,
      ix,
      run,
      elim answer [
        | inl (z, none') ↦
            inl (z, λ v pos h page. none' v (pos, omega arith, up v h, r.pages v pos h ∙ page))
        | inr ((pos, _, high, page), last) ↦
            let high' : out ≤ last_commit log count = omega (arith, top) in
            inr (
              pos,
              high',
              sym (r.pages out pos high') ∙ page,
              λ v pos' h page'. last v (pos', omega arith, up v h, r.pages v pos' h ∙ page'),
            )
      ],
    )
