-- ===== src/Wal/Recovery.antt =====
-- src/wal.cpp, recover_index: the index is made again from the frames of the log file.
use cub_db.Common.{ℕ, zero, suc, ◌+◌, ◌-◌, ◌*◌, ◌/◌, ◌%◌, ◌^◌, ltb, ◌==◌, ◌&&◌, if◌then◌else◌}
use cub_db.Common.{Bool, Option, none, some}
use cub_db.Bytes.{Bytes, get_u32, put_u16, put_u32}
use cub_db.Pager.{Status}
use cub_db.HashIndex.{
  HashIndex, n_index_keys, n_index_keys0, index_group_number, assign, reader_count,
}
use cub_db.Wal.{
  Wal, IndexHdr, FrameHdr, CkptInfo, Disk, empty_hdr, view, set_frame_cksum, compute_checksum,
}
use cub_db.Wal.{decode_frame, frame_offset, frame_hdr_size, wal_hdr_size, wal_magic, wal_version}

abbrev pub readmark_not_used : ℕ
readmark_not_used = 2 ^ 32 - 1

-- The bytes of `m_hdr` up to its own checksum.
unfoldable pub hdr_bytes : IndexHdr → Bytes
hdr_bytes hdr =
    let counted = put_u32 (put_u32 (put_u32 (λ i. 0) 0 hdr.version) 4 hdr.unused) 8 hdr.change in
    let sized = put_u16 (put_u16 counted 12 hdr.is_init) 14 hdr.page_size in
    let framed = put_u32 (put_u32 sized 16 hdr.max_frame) 20 hdr.page_count in
    let chained = put_u32 (put_u32 framed 24 hdr.frame_cksum.0) 28 hdr.frame_cksum.1 in
    put_u32 (put_u32 chained 32 hdr.salt.0) 36 hdr.salt.1

unfoldable pub write_index_header : Wal → Wal
write_index_header w =
    let hdr : IndexHdr = record (w.hdr) { is_init = 1; version = wal_version } in
    let hdr' : IndexHdr = record hdr { cksum = compute_checksum (hdr_bytes hdr) 0 40 (0, 0) } in
    record w { hdr = hdr'; live0 = hdr'; live1 = hdr' }

-- How an iteration of the loops ends: with the local `frame_cksum`, and a status where it leaves the loops.
pub data Outcome : Type 0 where
  running : Wal → ℕ × ℕ → Outcome
  stopped : Status → Wal → ℕ × ℕ → Outcome

-- What is done for a commit frame.
unfoldable pub recover_commit : Wal → ℕ × ℕ → FrameHdr → ℕ → Outcome
recover_commit w frame_cksum hdr n_frame =
    let committed = record w {
      hdr = record (w.hdr) {
        max_frame = n_frame;
        page_count = hdr.db_size;
        page_size = w.page_size % 2 ^ 16;
      };
    } in
    if hdr.db_size == 0 then running w frame_cksum else running committed w.hdr.cksum

-- The rest is skipped once the loops have been left.
unfoldable pub go_on : Outcome → (Wal → ℕ × ℕ → Outcome) → Outcome
go_on (running w frame_cksum) rest = rest w frame_cksum
go_on (stopped status w frame_cksum) rest = stopped status w frame_cksum

abbrev pub first_of_group : ℕ → ℕ
first_of_group n_group =
    (1 + (if n_group == 0 then 0 else n_index_keys0 + (n_group - 1) * n_index_keys)) % 2 ^ 32

abbrev pub last_of_group : ℕ → ℕ → ℕ
last_of_group last_frame n_group =
    let last = (n_index_keys0 + n_group * n_index_keys) % 2 ^ 32 in
    if ltb last last_frame then last else last_frame

module _ {F : Type 0} (disk : Disk F) (region : ℕ → Bool → Status × Bool)
    (lock_exclusive : ℕ → ℕ → Status) where
  -- An iteration of the inner loop, once `assign` has answered.
  unfoldable pub recover_assigned : Wal → ℕ × ℕ → FrameHdr → ℕ → Status × HashIndex → Outcome
  recover_assigned w frame_cksum hdr n_frame assigned =
      let w' = record w { index = assigned.1 } in
      elim assigned.0 [
        | Status.ok ↦ recover_commit w' frame_cksum hdr n_frame
        | failed ↦ stopped failed w' frame_cksum
      ]

  -- Once the frame has been decoded.
  unfoldable pub recover_decoded : ℕ × ℕ → ℕ → Option FrameHdr × Wal → Outcome
  recover_decoded frame_cksum n_frame decoded = elim decoded.0 [
    | none ↦ stopped Status.ok decoded.1 frame_cksum
    | some hdr ↦
        recover_assigned decoded.1 frame_cksum hdr n_frame
          (assign region (view decoded.1) hdr.pgno n_frame)
  ]

  -- Once the frame has been read.
  unfoldable pub recover_read : Wal → ℕ × ℕ → ℕ → Status × Bytes → Outcome
  recover_read w frame_cksum n_frame got = elim got.0 [
    | Status.ok ↦ recover_decoded frame_cksum n_frame (decode_frame w got.1)
    | failed ↦ stopped failed w frame_cksum
  ]

  unfoldable pub recover_frame : F → Wal → ℕ × ℕ → ℕ → Outcome
  recover_frame f w frame_cksum n_frame =
      recover_read w frame_cksum n_frame
        (disk.read_exact f (frame_offset n_frame w.page_size) (frame_hdr_size + w.page_size))

  -- The inner loop, over so many frames.
  unfoldable pub recover_group : ℕ → F → Wal → ℕ × ℕ → ℕ → Outcome
  recover_group zero f w frame_cksum n_frame = running w frame_cksum
  recover_group (suc count) f w frame_cksum n_frame =
      go_on (recover_frame f w frame_cksum n_frame)
        (λ w' frame_cksum'. recover_group count f w' frame_cksum' (suc n_frame))

  -- The outer loop, over so many groups.
  unfoldable pub recover_groups : ℕ → F → Wal → ℕ × ℕ → ℕ → ℕ → Outcome
  recover_groups zero f w frame_cksum last_frame n_group = running w frame_cksum
  recover_groups (suc count) f w frame_cksum last_frame n_group =
      let first = first_of_group n_group in
      let last = last_of_group last_frame n_group in
      go_on (recover_group (suc last - first) f w frame_cksum first)
        (λ w' frame_cksum'. recover_groups count f w' frame_cksum' last_frame (suc n_group))

  -- The part between reading the header and the label `cleanup`.
  unfoldable pub recover_log : F → Wal → ℕ → Bytes → Outcome
  recover_log f w file_size header =
      let cksum = compute_checksum header 0 (wal_hdr_size - 8) (0, 0) in
      let salted = record w {
        page_size = get_u32 header 8;
        ckpt_number = get_u32 header 12;
        hdr = record (w.hdr) { salt = (get_u32 header 16, get_u32 header 20) };
      } in
      let started = set_frame_cksum salted cksum in
      let last_frame = (file_size - wal_hdr_size) / (frame_hdr_size + started.page_size) % 2 ^ 32 in
      if get_u32 header 0 == wal_magic
      then if (cksum.0 == get_u32 header 24) && (cksum.1 == get_u32 header 28)
        then if get_u32 header 4 == wal_version
          then recover_groups (suc (index_group_number last_frame)) f started (0, 0) last_frame 0
          else stopped Status.invalid_argument started (0, 0)
        else stopped Status.ok started (0, 0)
      else stopped Status.corruption w (0, 0)

  -- The readers' marks from `i` on, so many of them.
  unfoldable pub recover_readmarks : ℕ → Wal → ℕ → Status × Wal
  recover_readmarks zero w i = (Status.ok, w)
  recover_readmarks (suc count) w i =
      let mark = if (i == 1) && ltb 0 w.hdr.max_frame then w.hdr.max_frame else readmark_not_used in
      let info : CkptInfo = record (w.info) {
        readmark = λ j. if j == i then mark else w.info.readmark j;
      } in
      let skipped = recover_readmarks count w (i + 1) in
      let stored = recover_readmarks count (record w { info = info }) (i + 1) in
      elim (lock_exclusive (i + 3) 1) [
        | Status.ok ↦ stored
        | Status.busy ↦ if count == 0 then (Status.busy, w) else skipped
        | failed ↦ (failed, w)
      ]

  -- From the label `cleanup` on, when the status is still good.
  unfoldable pub recover_finish : Wal → ℕ × ℕ → Status × Wal
  recover_finish w frame_cksum =
      let sized : Wal = record w {
        hdr = record (w.hdr) { page_size = w.page_size % 2 ^ 16; frame_cksum = frame_cksum };
      } in
      let shown = write_index_header sized in
      let info : CkptInfo = record {
        backfill = 0;
        readmark = λ j. if j == 0 then 0 else shown.info.readmark j;
      } in
      recover_readmarks (reader_count - 1) (record shown { info = info }) 1

  unfoldable pub recover_outcome : Outcome → Status × Wal
  recover_outcome (running w frame_cksum) = recover_finish w frame_cksum
  recover_outcome (stopped Status.ok w frame_cksum) = recover_finish w frame_cksum
  recover_outcome (stopped failed w frame_cksum) = (failed, w)

  -- `ckpt_lock` is `m_ckpt_lock`: the caller has the checkpoint lock already.
  unfoldable pub recover_index : F → Wal → Bool → Status × Wal
  recover_index f w ckpt_lock =
      let lock = if ckpt_lock then 2 else 1 in
      let cleared = record w { hdr = empty_hdr } in
      let (status, file_size) = disk.get_size f in
      let (status', header) = disk.read_exact f 0 wal_hdr_size in
      elim (lock_exclusive lock (3 - lock)) [
        | Status.ok ↦ elim status [
          | Status.ok ↦
              if ltb wal_hdr_size file_size
              then elim status' [
                | Status.ok ↦ recover_outcome (recover_log f cleared file_size header)
                | failed ↦ (failed, cleared)
              ]
              else recover_finish cleared (0, 0)
          | failed ↦ (failed, cleared)
        ]
        | failed ↦ (failed, w)
      ]
