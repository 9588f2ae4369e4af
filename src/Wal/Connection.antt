-- ===== src/Wal/Connection.antt =====
-- src/wal.cpp: a connection to the log with its locks, and what it does under them.
use cub_db.Common.{ℕ, zero, suc, ◌+◌, ◌-◌, ◌%◌, ◌^◌, ltb, leb, ◌==◌, ◌&&◌, ◌||◌, if◌then◌else◌}
use cub_db.Common.{Bool, true, false, Option, none, some, List, [], ◌∷◌}
use cub_db.Bytes.{Bytes}
use cub_db.Pager.{Status}
use cub_db.HashIndex.{HashIndex, lookup, fetch, cleanup, reader_count}
use cub_db.Wal.{Wal, IndexHdr, CkptInfo, Disk, view, frame_offset, frame_hdr_size}
use cub_db.Wal.Recovery.{write_index_header, readmark_not_used}

-- The rest of `WalImpl`. `reader_lock` is none for -1.
pub record Connection : Type 0 where
  pub wal : Wal
  pub min_frame : ℕ
  pub callback_arg : ℕ
  pub reader_lock : Option ℕ
  pub writer_lock : Bool
  pub ckpt_lock : Bool

-- `0 == memcmp(&h1, &h2, sizeof(HashIndexHdr))`
unfoldable pub hdr_equal : IndexHdr → IndexHdr → Bool
hdr_equal h1 h2 =
    (h1.version == h2.version)
    && ((h1.unused == h2.unused)
        && ((h1.change == h2.change)
            && ((h1.is_init == h2.is_init)
                && ((h1.page_size == h2.page_size)
                    && ((h1.max_frame == h2.max_frame)
                        && ((h1.page_count == h2.page_count)
                            && ((h1.frame_cksum.0 == h2.frame_cksum.0)
                                && ((h1.frame_cksum.1 == h2.frame_cksum.1)
                                    && ((h1.salt.0 == h2.salt.0)
                                        && ((h1.salt.1 == h2.salt.1)
                                            && ((h1.cksum.0 == h2.cksum.0)
                                                && (h1.cksum.1 == h2.cksum.1))))))))))))

-- The pages of the frames from `frame` on, so many of them: what `hook` is called with.
unfoldable pub abandoned : ℕ → HashIndex → ℕ → List ℕ
abandoned zero ix frame = []
abandoned (suc count) ix frame = fetch ix frame ∷ abandoned count ix (suc frame)

unfoldable pub rollback : Connection → List ℕ × Connection
rollback c =
    let w = record (c.wal) { hdr = c.wal.live0 } in
    let pages = abandoned (c.wal.hdr.max_frame - w.hdr.max_frame) (view w) (w.hdr.max_frame + 1) in
    let cleaned = record w { index = cleanup (view w) } in
    (pages, record c { wal = if c.wal.hdr.max_frame == w.hdr.max_frame then w else cleaned })

unfoldable pub start_write : (ℕ → ℕ → Status) → Connection → Status × Connection
start_write lock_exclusive c = if c.writer_lock then (Status.ok, c) else elim (lock_exclusive 0 1) [
  | Status.ok ↦
      if hdr_equal c.wal.hdr c.wal.live0
      then (Status.ok, record c { writer_lock = true })
      else (Status.busy, c)
  | failed ↦ (failed, c)
]

unfoldable pub finish_write : Connection → Connection
finish_write c =
    if c.writer_lock
    then record c { writer_lock = false; wal = record (c.wal) { redo_cksum = 0 } }
    else c

unfoldable pub finish_read : Connection → Connection
finish_read c = record (finish_write c) { reader_lock = none }

unfoldable pub callback : Connection → ℕ × Connection
callback c = (c.callback_arg, record c { callback_arg = 0 })

unfoldable pub db_size : Connection → ℕ
db_size c = elim c.reader_lock [ none ↦ 0 | some i ↦ c.wal.hdr.page_count ]

unfoldable pub restart_header : Wal → ℕ → Wal
restart_header w salt1 =
    let restarted : Wal = record w {
      ckpt_number = (w.ckpt_number + 1) % 2 ^ 32;
      hdr = record (w.hdr) { max_frame = 0; salt = ((w.hdr.salt.0 + 1) % 2 ^ 32, salt1) };
    } in
    let shown = write_index_header restarted in
    let info : CkptInfo = record {
      backfill = 0;
      readmark = λ j.
          if j == 1
          then 0
          else if leb 2 j && ltb j reader_count
          then readmark_not_used
          else w.info.readmark j;
    } in
    record shown { info = info }

unfoldable pub minval : ℕ → ℕ → ℕ
minval a b = if ltb a b then a else b

-- The buffer is passed on when it has been filled.
unfoldable pub read_answer : Status × Bytes → Status × Option Bytes
read_answer got = elim got.0 [ Status.ok ↦ (Status.ok, some got.1) | failed ↦ (failed, none) ]

module _ {F : Type 0} (disk : Disk F) (region : ℕ → Bool → Status × Bool) where
  -- `ignores_log` is the case of the lock on read mark 0.
  unfoldable pub ignores_log : Connection → Bool
  ignores_log c = elim c.reader_lock [ some zero ↦ true | _ ↦ false ]

  unfoldable pub read_frame : F → Connection → ℕ → ℕ → Status × Option Bytes
  read_frame f c frame page_size = read_answer (
      disk.read_exact f ((frame_offset frame page_size + frame_hdr_size) % 2 ^ 64)
        (minval page_size c.wal.page_size))

  -- Once the index has been searched. The page is none where the source's pointer is null.
  unfoldable pub read_found :
      F → Connection → ℕ → Status × ℕ × HashIndex → Status × Option Bytes × Connection
  read_found f c page_size found =
      let c' = record c { wal = record (c.wal) { index = found.2 } } in
      let (status', page) = read_frame f c' found.1 page_size in
      elim found.0 [
        | Status.ok ↦ if found.1 == 0 then (Status.ok, none, c') else (status', page, c')
        | failed ↦ (failed, none, c')
      ]

  unfoldable pub read : F → Connection → ℕ → ℕ → Status × Option Bytes × Connection
  read f c page_id page_size =
      let rest = read_found f c page_size (lookup region (view c.wal) page_id c.min_frame) in
      if ignores_log c || (c.wal.hdr.max_frame == 0) then (Status.ok, none, c) else rest
