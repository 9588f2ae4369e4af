-- ===== src/Wal/Reader.antt =====
-- src/wal.cpp: how a reader finds the header of the index, chooses a read mark and starts to read.
use cub_db.Common.{ℕ, zero, suc, ◌+◌, ◌-◌, ◌%◌, ◌^◌, ltb, leb, ◌==◌, ◌&&◌, ◌||◌, if◌then◌else◌}
use cub_db.Common.{Bool, true, false, Option, none, some}
use cub_db.Pager.{Status}
use cub_db.HashIndex.{map_group, reader_count}
use cub_db.Wal.{Wal, IndexHdr, CkptInfo, Disk, view, compute_checksum, wal_version}
use cub_db.Wal.Recovery.{hdr_bytes, recover_index}
use cub_db.Wal.Connection.{Connection, hdr_equal}

-- A status, or the one that asks for another try.
pub data Attempt : Type 0 where
  done : Status → Attempt
  retry : Attempt

-- `if (s.is_ok()) ... else return s`
unfoldable pub if_ok : {A : Type 0} → Status → A → (Status → A) → A
if_ok Status.ok a other = a
if_ok failed a other = other failed

-- `if (s.is_ok()) ... else if (s.is_busy()) ... else return s`
unfoldable pub if_free : {A : Type 0} → Status → A → A → (Status → A) → A
if_free Status.ok a busy other = a
if_free Status.busy a busy other = busy
if_free failed a busy other = other failed

-- What the files and the other connections do during one try: the log file, the answers for the regions of shared memory
-- and for the locks (`recovery_lock` has those that recover_index asks for; apart from it, one try asks for a lock in one way
-- at most once), and what others have made of the shared headers and marks when this connection looks at them, at each
-- numbered point of the try. They differ from try to try.
pub record World (F : Type 0) : Type 0 where
  pub log : F
  pub region : ℕ → Bool → Status × Bool
  pub lock_shared : ℕ → Status
  pub lock_exclusive : ℕ → ℕ → Status
  pub recovery_lock : ℕ → ℕ → Status
  pub others : ℕ → Wal → IndexHdr × IndexHdr × CkptInfo

-- The shared memory at a point of the try.
abbrev pub seen : {F : Type 0} → World F → ℕ → Wal → Wal
seen world point w =
    let (live0, live1, info) = world.others point w in
    record w { live0 = live0; live1 = live1; info = info }

-- The greatest read mark that is not past `max_frame`, and its index, from mark `i` on, so many of them.
unfoldable pub find_readmark : ℕ → (ℕ → ℕ) → ℕ → ℕ → ℕ → ℕ → ℕ × ℕ
find_readmark zero readmark max_frame i max_readmark max_index = (max_readmark, max_index)
find_readmark (suc count) readmark max_frame i max_readmark max_index =
    let mark = readmark i in
    let better = leb max_readmark mark && leb mark max_frame in
    find_readmark count readmark max_frame (i + 1) (if better then mark else max_readmark)
      (if better then i else max_index)

module _ {F : Type 0} (disk : Disk F) (world : World F) where
  -- Whether the header could be read, and whether it differs from the local one. The two copies are read at two points.
  unfoldable pub try_index_header : ℕ → Connection → Bool × Bool × Connection
  try_index_header point c =
      let first = seen world point c.wal in
      let second = seen world (point + 1) first in
      let h1 = first.live0 in
      let cksum = compute_checksum (hdr_bytes h1) 0 40 (0, 0) in
      let sums = (cksum.0 == h1.cksum.0) && (cksum.1 == h1.cksum.1) in
      let init = if h1.is_init == 0 then false else true in
      let same = hdr_equal c.wal.hdr h1 in
      let changed = if same then false else true in
      let hdr = if same then c.wal.hdr else h1 in
      if hdr_equal h1 second.live1 && (init && sums)
      then (
        true,
        changed,
        record c { wal = record second { hdr = hdr; page_size = hdr.page_size } },
      )
      else (false, false, record c { wal = second })

  -- The part that has the write lock.
  unfoldable pub read_index_locked : Connection → Status × Bool × Connection
  read_index_locked c =
      let (status, ix) = map_group world.region (view c.wal) 0 true in
      let c' = record c { wal = record (c.wal) { index = ix } } in
      let (success, changed, c'') = try_index_header 2 c' in
      let (recovered, wal') =
        recover_index disk world.region world.recovery_lock world.log c''.wal c.ckpt_lock in
      let version_ok = c''.wal.hdr.version == wal_version in
      elim status [
        | Status.ok ↦
            if success
            then ((if version_ok then Status.ok else Status.not_supported), changed, c'')
            else (recovered, true, record c'' { wal = wal' })
        | failed ↦ (failed, false, c')
      ]

  -- The first reading of the header, which wants the first group mapped.
  unfoldable pub first_index_header : Connection → Bool × Bool × Connection
  first_index_header c =
      let tried = try_index_header 0 c in if c.wal.index.mapped 0 then tried else (false, false, c)

  unfoldable pub read_index_header : Connection → Status × Bool × Connection
  read_index_header c =
      let (status, ix) = map_group world.region (view c.wal) 0 c.writer_lock in
      let c' = record c { wal = record (c.wal) { index = ix } } in
      let (success, changed, c'') = first_index_header c' in
      let version_ok = c''.wal.hdr.version == wal_version in
      let locked = read_index_locked c'' in
      elim status [
        | Status.ok ↦
            if success
            then ((if version_ok then Status.ok else Status.not_supported), changed, c'')
            else if c.writer_lock
            then locked
            else elim (world.lock_exclusive 0 1) [
              | Status.ok ↦ locked
              | failed ↦ (failed, false, c'')
            ]
        | failed ↦ (failed, false, c')
      ]

  -- Raising a mark to `max_frame`: the first one whose lock is free.
  unfoldable pub raise_readmark : ℕ → Wal → ℕ → ℕ × ℕ → Status × (ℕ × ℕ) × Wal
  raise_readmark zero w i found = (Status.ok, found, w)
  raise_readmark (suc count) w i found =
      let max_frame = w.hdr.max_frame in
      let w' = seen world (20 + i) w in
      let info : CkptInfo = record (w'.info) {
        readmark = λ j. if j == i then max_frame else w'.info.readmark j;
      } in
      let rest = raise_readmark count w' (i + 1) found in
      if_free (world.lock_exclusive (i + 3) 1)
        (Status.ok, (max_frame, i), record w' { info = info }) rest (λ failed. (failed, found, w'))

  -- The last part, with the read mark that was found. What is loaded once the lock is held is loaded at one point.
  unfoldable pub lock_readmark : Connection → ℕ × ℕ → Attempt × Connection
  lock_readmark c found =
      let w = seen world 6 c.wal in
      let started = record c {
        wal = w;
        min_frame = (w.info.backfill + 1) % 2 ^ 32;
        reader_lock = some found.1;
      } in
      let kept = (w.info.readmark found.1 == found.0) && hdr_equal w.live0 c.wal.hdr in
      if found.1 == 0
      then (retry, c)
      else if_free (world.lock_shared (found.1 + 3))
          (if kept
            then (done Status.ok, started)
            else (retry, record c { wal = w; min_frame = started.min_frame }))
          (retry, c) (λ failed. (done failed, c))

  unfoldable pub use_readmark : Connection → Attempt × Connection
  use_readmark c =
      let marks : ℕ → ℕ = λ i. (seen world (10 + i) c.wal).info.readmark i in
      let found = find_readmark (reader_count - 1) marks c.wal.hdr.max_frame 1 0 0 in
      let (status, raised, w) = raise_readmark (reader_count - 1) c.wal 1 found in
      let rest = lock_readmark (record c { wal = w }) raised in
      if ltb found.0 c.wal.hdr.max_frame || (found.1 == 0)
      then if_ok status rest (λ failed. (done failed, record c { wal = w }))
      else lock_readmark c found

  -- The part for a log that has been written back, or is empty.
  unfoldable pub ignore_log : Connection → Attempt × Connection
  ignore_log c =
      let w = seen world 5 c.wal in
      if_free (world.lock_shared 3)
        (if hdr_equal w.live0 c.wal.hdr
          then (done Status.ok, record c { wal = w; reader_lock = some 0 })
          else (retry, record c { wal = w }))
        (use_readmark c) (λ failed. (done failed, c))

  -- What follows from a header that could not be read.
  unfoldable pub header_failed : Status → Connection → Attempt
  header_failed s c =
      let again = if_ok (world.lock_shared 2) retry (λ failed. done failed) in
      if_free s (done Status.ok) (if c.wal.index.mapped 0 then again else retry)
        (λ failed. done failed)

  unfoldable pub try_reader : Bool → ℕ → Connection → Attempt × Connection
  try_reader use_wal tries c =
      let (status, changed, c') = read_index_header c in
      let c'' = record c' { wal = seen world 4 c'.wal } in
      let rest =
        if c''.wal.info.backfill == c''.wal.hdr.max_frame
        then ignore_log c''
        else use_readmark c'' in
      if ltb 100 tries
      then (done Status.io_error, c)
      else if use_wal
      then use_readmark c
      else if_ok status rest (λ failed. (header_failed failed c', c'))

module _ {F : Type 0} (disk : Disk F) (worlds : ℕ → World F) where
  -- Rounds are the tries that are left. Each try meets its own world.
  unfoldable pub start_read_loop : ℕ → ℕ → Connection → Option (Status × Connection)
  start_read_loop zero tries c = none
  start_read_loop (suc rounds) tries c =
      let (attempt, c') = try_reader disk (worlds tries) false tries c in
      let rest = start_read_loop rounds (tries + 1) c' in
      elim attempt [ done status ↦ some (status, c') | retry ↦ rest ]

  -- The try numbered 101 is the last. The flag `changed` is left out.
  unfoldable pub start_read : Connection → Option (Status × Connection)
  start_read c = start_read_loop 102 0 c
