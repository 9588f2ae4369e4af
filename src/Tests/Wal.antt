-- ===== src/Tests/Wal.antt =====
-- The write-ahead log on a concrete file: a header and one commit frame, with room for a second frame.
use cub_db.Common.{ℕ, ◌+◌, ◌≡◌, refl, sym, ap, arith}
use cub_db.Common.{true, false, Option, none, some}
use cub_db.Bytes.{Bytes, get_u32, put_u32, copy, write}
use cub_db.Pager.{Status, and_then}
use cub_db.HashIndex.{HashIndex, lookup}
use cub_db.Tests.HashIndex.{empty_index, empty_index-IsValid, always, always_ok}
use cub_db.Wal.{
  Wal, FrameHdr, Disk, empty_hdr, view, set_frame_cksum, compute_checksum, checksum_words,
  encode_frame, decode_frame, write_frame, frame_offset,
}
use cub_db.Wal.Frames.{Encodes, InStep, IsFrame}
use cub_db.Wal.Recovery.{recover_index}
use cub_db.Wal.Prefix.{chain_at}
use cub_db.Wal.Recovered.{Prefix, frames}
use cub_db.Wal.Index.{
  started, IsHeader, last_frame, Recovered, LastCommitted, recover_index-Recovered,
  lookup-Recovered,
}
use cub_db.Wal.RoundTrip.{decode_frame-write_frame, decode_frame-once}

-- A disk that never fails, with a file of 96 bytes.
abbrev pub memory : Disk Bytes
memory = record {
  contents = λ m. m;
  get_size = λ m. (Status.ok, 96);
  read_exact = λ m at n. (Status.ok, (λ i. m (at + i)));
  write = λ m at s from n. (Status.ok, copy m at s from n);
  read_exact-ok = λ m at n h i q. refl;
  write-ok = λ m at s from n h i. refl;
}

abbrev blank : Bytes
blank = λ i. 0

abbrev log_start : Bytes
log_start = put_u32 (put_u32 (put_u32 (put_u32 (put_u32 blank 0 1559861749) 4 1) 8 8) 16 77) 20 78

abbrev pub start_sums : ℕ × ℕ
start_sums = (3504341545, 3888959584)

sums_run : compute_checksum log_start 0 24 (0, 0) ≡ start_sums
unfolding compute_checksum checksum_words get_u32 put_u32 write
sums_run = refl

abbrev log_header : Bytes
log_header = put_u32 (put_u32 log_start 24 3504341545) 28 3888959584

abbrev pub writer : Wal
writer = record {
  hdr = record empty_hdr { salt = (77, 78); frame_cksum = start_sums };
  index = empty_index;
  live0 = empty_hdr;
  live1 = empty_hdr;
  info = record { backfill = 0; readmark = λ j. 0 };
  page_size = 8;
  ckpt_number = 0;
  redo_cksum = 0;
}

-- Page 7, as the last page of a transaction on a database of 5 pages.
abbrev commit_hdr : FrameHdr
commit_hdr = record { pgno = 7; db_size = 5 }

abbrev pub some_page : Bytes
some_page = λ i. 3

abbrev log_file : Bytes
log_file = (write_frame memory log_header writer commit_hdr some_page 32 blank).2

writer-Encodes : Encodes writer commit_hdr 0
writer-Encodes = record {
  size = refl;
  redo = refl;
  positive = omega arith;
  pgno = omega arith;
  db_size = omega arith;
  salt = (omega arith, omega arith);
  cksum = (omega arith, omega arith);
}

writer-InStep : InStep writer writer
writer-InStep = record { salt = refl; frame_cksum = refl; page_size = refl }

write_frame-ok : (write_frame memory log_header writer commit_hdr some_page 32 blank).0 ≡ Status.ok
unfolding write_frame and_then
write_frame-ok = refl

decode_frame-write_frame_example : decode_frame writer (λ i. log_file (32 + i)) ≡ (
  some commit_hdr,
  set_frame_cksum writer
      (write_frame memory log_header writer commit_hdr some_page 32 blank).1.hdr.frame_cksum,
)
decode_frame-write_frame_example =
    decode_frame-write_frame memory log_header writer writer commit_hdr 0 some_page 32 blank
      writer-Encodes writer-InStep write_frame-ok refl

decode_frame-once_example :
    (decode_frame (set_frame_cksum writer (0, 0)) (λ i. log_file (32 + i))).0 ≡ none
decode_frame-once_example =
    decode_frame-once writer (λ i. log_file (32 + i)) commit_hdr (0, 0) (omega arith, omega arith)
      (omega arith, omega arith)
      (ap (λ (t : Option FrameHdr × Wal). t.0) decode_frame-write_frame_example)
      (λ e. omega (arith, ap (λ (t : ℕ × ℕ). t.0) e))

log_bytes-IsHeader : IsHeader (λ i. log_file (0 + i))
unfolding compute_checksum checksum_words get_u32 put_u32 write write_frame and_then copy
    encode_frame
log_bytes-IsHeader = record { magic = refl; version = refl; sum0 = refl; sum1 = refl }

abbrev log_bytes : Bytes
log_bytes = λ i. log_file (0 + i)

abbrev pub no_lock : ℕ → ℕ → Status
no_lock r n = Status.ok

log_last : last_frame writer log_bytes 96 ≡ 2
unfolding get_u32 put_u32 write write_frame and_then copy encode_frame
log_last = refl

abbrev log_frames : ℕ → Bytes
log_frames = frames memory always always_ok no_lock log_file (started writer log_bytes)

first-IsFrame :
    IsFrame (started writer log_bytes) (compute_checksum log_bytes 0 24 (0, 0)) (log_frames 1)
unfolding compute_checksum checksum_words get_u32 put_u32 write write_frame and_then copy
    encode_frame frame_offset
first-IsFrame = record {
  salt0 = refl;
  salt1 = refl;
  positive = omega arith;
  sum0 = refl;
  sum1 = refl;
}

-- The bytes behind the first frame have no salt.
second_salt : (get_u32 (log_frames 2) 8 ≡ 0) × ((started writer log_bytes).hdr.salt.0 ≡ 77)
unfolding get_u32 put_u32 write write_frame and_then copy encode_frame frame_offset
second_salt = (refl, refl)

log-Prefix :
    Prefix memory always always_ok no_lock log_file
      (started writer log_bytes)
      (compute_checksum log_bytes 0 24 (0, 0))
      (last_frame writer log_bytes 96)
      1
unfolding chain_at
log-Prefix = record {
  within = omega (arith, log_last);
  good = λ n h. let first : 0 ≡ n = omega arith in rw (sym first) first-IsFrame;
  bad = λ h good. let (none', given) = second_salt in omega (arith, good.salt0, none', given);
}

recover_index-Recovered_example :
    (w' : Wal) × (recover_index memory always no_lock log_file writer false ≡ (Status.ok, w'))
    × Recovered log_frames 1 w'
recover_index-Recovered_example =
    recover_index-Recovered memory always always_ok no_lock (λ r n. refl) log_file writer false 96 1
      refl (omega arith) refl log_bytes-IsHeader (omega (arith, log_last)) (λ n h. refl) log-Prefix
      empty_index-IsValid

recovered_run :
    (w' : Wal) × (recover_index memory always no_lock log_file writer true ≡ (Status.ok, w'))
    × Recovered log_frames 1 w'
recovered_run =
    recover_index-Recovered memory always always_ok no_lock (λ r n. refl) log_file writer true 96 1
      refl (omega arith) refl log_bytes-IsHeader (omega (arith, log_last)) (λ n h. refl) log-Prefix
      empty_index-IsValid

lookup-Recovered_example :
    (out : ℕ) × (ix : HashIndex) × (lookup always (view (recovered_run.0)) 7 0
      ≡ (Status.ok, out, ix))
    × LastCommitted log_frames 1 7 out
lookup-Recovered_example =
    lookup-Recovered always log_frames 1 7 (recovered_run.0) (λ n. refl) (recovered_run.2)
      (omega arith)
