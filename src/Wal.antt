-- ===== src/Wal.antt =====
-- src/wal.cpp and src/wal_internal.h: the write-ahead log. This file has its state, the frames of the log file, and the
-- checksums that chain them.
pub mod Checksum
pub mod Frames
pub mod RoundTrip
pub mod Recovery
pub mod Prefix
pub mod Recovered
pub mod Index
pub mod Connection
pub mod Headers
pub mod Rollback
pub mod Reading
pub mod Reader
pub mod StartRead
use cub_db.Common.{
  ℕ, zero, suc, ◌+◌, ◌-◌, ◌*◌, ◌/◌, ◌%◌, ◌^◌, ◌≤◌, ◌<◌, ◌≡◌, ltb, leb, ◌==◌, ◌&&◌, if◌then◌else◌,
}
use cub_db.Common.{Bool, true, false, Option, none, some}
use cub_db.Bytes.{Bytes, get_u32, put_u32, fill, copy}
use cub_db.Pager.{Status, and_then}
use cub_db.HashIndex.{HashIndex}
use cub_db.Node.{sub32}

-- `HashIndexHdr`. The arrays of two are pairs.
pub record IndexHdr : Type 0 where
  pub version : ℕ
  pub unused : ℕ
  pub change : ℕ
  pub is_init : ℕ
  pub page_size : ℕ
  pub max_frame : ℕ
  pub page_count : ℕ
  pub frame_cksum : ℕ × ℕ
  pub salt : ℕ × ℕ
  pub cksum : ℕ × ℕ

abbrev pub empty_hdr : IndexHdr
empty_hdr = record {
  version = 0;
  unused = 0;
  change = 0;
  is_init = 0;
  page_size = 0;
  max_frame = 0;
  page_count = 0;
  frame_cksum = (0, 0);
  salt = (0, 0);
  cksum = (0, 0);
}

-- `CkptInfo`, without the bytes that are never read.
pub record CkptInfo : Type 0 where
  pub backfill : ℕ
  pub readmark : ℕ → ℕ

-- `WalImpl` with what stands in shared memory: the two copies of the header, and `info`. The `max_frame` inside `index`
-- is not used: the source's index points at `m_hdr`, and `view` puts it there before each call.
pub record Wal : Type 0 where
  pub hdr : IndexHdr
  pub index : HashIndex
  pub live0 : IndexHdr
  pub live1 : IndexHdr
  pub info : CkptInfo
  pub page_size : ℕ
  pub ckpt_number : ℕ
  pub redo_cksum : ℕ

abbrev pub view : Wal → HashIndex
view w = record (w.index) { max_frame = w.hdr.max_frame }

abbrev pub set_frame_cksum : Wal → ℕ × ℕ → Wal
set_frame_cksum w c = record w { hdr = record (w.hdr) { frame_cksum = c } }

-- `File` of include/calicodb/env.h as the log uses it. A read or a write that reports success has read or written all.
pub record Disk (F : Type 0) : Type 0 where
  pub contents : F → Bytes
  pub get_size : F → Status × ℕ
  pub read_exact : F → ℕ → ℕ → Status × Bytes
  pub write : F → ℕ → Bytes → ℕ → ℕ → Status × F
  pub read_exact-ok :
      (f : F) (at n : ℕ)
      → (read_exact f at n).0 ≡ Status.ok
      → (i : ℕ) → i < n
      → (read_exact f at n).1 i ≡ contents f (at + i)
  pub write-ok :
      (f : F) (at : ℕ) (m : Bytes) (from n : ℕ)
      → (write f at m from n).0 ≡ Status.ok
      → (i : ℕ) → contents (write f at m from n).1 i ≡ copy (contents f) at m from n i

abbrev pub wal_hdr_size : ℕ
wal_hdr_size = 32

abbrev pub wal_magic : ℕ
wal_magic = 1559861749

abbrev pub wal_version : ℕ
wal_version = 1

-- `WalFrameHdr::kSize`.
abbrev pub frame_hdr_size : ℕ
frame_hdr_size = 24

-- `WalFrameHdr`.
pub record FrameHdr : Type 0 where
  pub pgno : ℕ
  pub db_size : ℕ

-- The words are read in the order of the machine's bytes, here little-endian.
unfoldable pub checksum_words : ℕ → Bytes → ℕ → ℕ × ℕ → ℕ × ℕ
checksum_words zero m p sums = sums
checksum_words (suc rounds) m p sums =
    let s1 = (sums.0 + (get_u32 m p + sums.1)) % 2 ^ 32 in
    let s2 = (sums.1 + (get_u32 m (p + 4) + s1)) % 2 ^ 32 in
    checksum_words rounds m (p + 8) (s1, s2)

-- One round at least, and one for each further pair of words.
unfoldable pub compute_checksum : Bytes → ℕ → ℕ → ℕ × ℕ → ℕ × ℕ
compute_checksum m p size initial = checksum_words (suc ((size / 4 - 1) / 2)) m p initial

-- In 64 bits, after `frame - 1` in 32.
unfoldable pub frame_offset : ℕ → ℕ → ℕ
frame_offset frame page_size =
    (wal_hdr_size + sub32 frame 1 * (frame_hdr_size + page_size)) % 2 ^ 64

-- The page stands at `at` in `page`.
unfoldable pub encode_frame : Wal → FrameHdr → Bytes → ℕ → Bytes → Wal × Bytes
encode_frame w hdr page at out =
    let named = put_u32 (put_u32 out 0 hdr.pgno) 4 hdr.db_size in
    let salted = put_u32 (put_u32 named 8 w.hdr.salt.0) 12 w.hdr.salt.1 in
    let first = compute_checksum salted 0 8 w.hdr.frame_cksum in
    let cksum = compute_checksum page at w.page_size first in
    if w.redo_cksum == 0
    then (set_frame_cksum w cksum, put_u32 (put_u32 salted 16 cksum.0) 20 cksum.1)
    else (w, fill named 8 0 16)

unfoldable pub decode_frame : Wal → Bytes → Option FrameHdr × Wal
decode_frame w frame =
    let first = compute_checksum frame 0 8 w.hdr.frame_cksum in
    let cksum = compute_checksum frame frame_hdr_size w.page_size first in
    let w' = set_frame_cksum w cksum in
    let salted = (get_u32 frame 8 == w.hdr.salt.0) && (get_u32 frame 12 == w.hdr.salt.1) in
    let matches = (cksum.0 == get_u32 frame 16) && (cksum.1 == get_u32 frame 20) in
    if salted
    then if get_u32 frame 0 == 0
      then (none, w)
      else if matches
      then (some (record { pgno = get_u32 frame 0; db_size = get_u32 frame 4 }), w')
      else (none, w')
    else (none, w)

module _ {F : Type 0} (disk : Disk F) where
  -- `frame` is what stands in the local array before.
  unfoldable pub write_frame : F → Wal → FrameHdr → Bytes → ℕ → Bytes → Status × Wal × F
  write_frame f w hdr page offset frame =
      let (w', out) = encode_frame w hdr page 0 frame in
      let (status, f') = disk.write f offset out 0 frame_hdr_size in
      let (status', f'') = disk.write f' (offset + frame_hdr_size) page 0 w.page_size in
      and_then status w' f' (status', w', f'')

  -- `uninitialised` is the buffer as it was allocated.
  unfoldable pub rewrite_frames : ℕ → F → Wal → ℕ → Bytes → Status × Wal × F
  rewrite_frames zero f w redo buffer = (Status.ok, w, f)
  rewrite_frames (suc rounds) f w redo buffer =
      let offset = frame_offset redo w.page_size in
      let (status, frame) = disk.read_exact f offset (frame_hdr_size + w.page_size) in
      let hdr : FrameHdr = record { pgno = get_u32 frame 0; db_size = get_u32 frame 4 } in
      let (w', out) = encode_frame w hdr frame frame_hdr_size buffer in
      let (status', f') = disk.write f offset out 0 frame_hdr_size in
      let rest = rewrite_frames rounds f' w' (redo + 1) out in
      and_then status w f (and_then status' w' f' rest)

  -- The checksum that is read from the file is in `cksum_buffer`; `frame` is a buffer as it was allocated.
  unfoldable pub rewrite_checksums : F → Wal → ℕ → Bytes → Bytes → Status × Wal × F
  rewrite_checksums f w end frame buffer =
      let offset =
        if ltb 1 w.redo_cksum then frame_offset (sub32 w.redo_cksum 1) w.page_size + 16 else 24 in
      let (status, cksum_buffer) = disk.read_exact f offset 8 in
      let started = set_frame_cksum w (get_u32 frame 0, get_u32 frame 4) in
      let cleared = record started { redo_cksum = 0 } in
      and_then status w f (rewrite_frames (end - w.redo_cksum) f cleared w.redo_cksum buffer)
