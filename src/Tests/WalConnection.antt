-- ===== src/Tests/WalConnection.antt =====
-- Connections that have written a frame to the log and not committed it.
use cub_db.Common.{ℕ, ◌≡◌, ◌≢◌, ◌⊎◌, inr, refl, arith}
use cub_db.Common.{true, false, Option, none, some, leb, if◌then◌else◌}
use cub_db.Bytes.{Bytes, get_u32, put_u32, put_u16, write}
use cub_db.Pager.{Status}
use cub_db.HashIndex.{HashIndex, index_group_number, map_group, assign}
use cub_db.HashIndex.Assign.{Assigned, assign-Assigned}
use cub_db.HashIndex.Lookup.{IsValid, Last}
use cub_db.Tests.HashIndex.{one_frame, first_run, always, always_ok}
use cub_db.Tests.Wal.{memory, writer, some_page, no_lock}
use cub_db.Wal.{view, empty_hdr, compute_checksum, checksum_words}
use cub_db.Wal.Connection.{Connection, rollback, start_write, finish_write, read, ignores_log}
use cub_db.Wal.Connection.{hdr_equal}
use cub_db.Wal.Recovery.{write_index_header, hdr_bytes}
use cub_db.Wal.Reader.{
  World, start_read, start_read_loop, try_reader, read_index_header, first_index_header,
  read_index_locked, try_index_header, use_readmark, find_readmark, raise_readmark, lock_readmark,
  header_failed, if_ok, if_free,
}
use cub_db.Wal.StartRead.{Reads, start_read-Reads}
use cub_db.Wal.Rollback.{shows, RolledBack, rollback-RolledBack, start_write-rollback}
use cub_db.Wal.Reading.{Gives, read-Last}

abbrev connection : Connection
connection = record {
  wal = record writer {
    index = record one_frame { num_groups = 3 };
    hdr = record (writer.hdr) { max_frame = 1 };
  };
  min_frame = 1;
  callback_arg = 0;
  reader_lock = some 1;
  writer_lock = true;
  ckpt_lock = false;
}

connection-IsValid : IsValid (view connection.wal)
connection-IsValid = record {
  counts = first_run.2.valid.counts;
  filled = first_run.2.valid.filled;
  within = first_run.2.valid.within;
  full = first_run.2.valid.full;
  reaches = first_run.2.valid.reaches;
}

-- The first frame is committed, and page 9 is in a second one, which is not.
two_run :
    (ix' : HashIndex) × (assign always one_frame 9 2 ≡ (Status.ok, ix'))
    × Assigned one_frame 1 9 ix'
two_run =
    assign-Assigned always always_ok one_frame 1 9 first_run.2.valid (omega arith) (omega arith)
      (inr refl)

abbrev two_frames : Connection
two_frames = record connection {
  wal = record (connection.wal) {
    index = record (two_run.0) { num_groups = 3 };
    hdr = record (writer.hdr) { max_frame = 2 };
    live0 = record empty_hdr { max_frame = 1 };
  };
}

two_frames-IsValid : IsValid (view two_frames.wal)
two_frames-IsValid = record {
  counts = two_run.2.valid.counts;
  filled = two_run.2.valid.filled;
  within = two_run.2.valid.within;
  full = two_run.2.valid.full;
  reaches = two_run.2.valid.reaches;
}

rollback-RolledBack_example : RolledBack two_frames (rollback two_frames).0 (rollback two_frames).1
unfolding index_group_number
rollback-RolledBack_example =
    rollback-RolledBack two_frames two_frames-IsValid (omega arith) (omega arith) (omega arith)

start_write-rollback_example :
    (connection.wal.hdr ≡ connection.wal.live0)
      × (start_write no_lock (shows connection.wal.hdr (finish_write (rollback connection).1)) ≡ (
        Status.ok,
        record (shows connection.wal.hdr (finish_write (rollback connection).1)) {
          writer_lock = true;
        },
      ))
    ⊎ (connection.wal.hdr ≢ connection.wal.live0)
      × (start_write no_lock (shows connection.wal.hdr (finish_write (rollback connection).1))
          ≡ (Status.busy, shows connection.wal.hdr (finish_write (rollback connection).1)))
      × ((finish_write (rollback connection).1).writer_lock ≡ false)
start_write-rollback_example = start_write-rollback no_lock connection connection.wal.hdr refl

connection-uses_log : ignores_log memory always connection ≡ false
unfolding ignores_log
connection-uses_log = refl

read-Last_example :
    (out : ℕ) × (page : Option Bytes) × (c' : Connection) × (read memory always some_page connection
        7 8
      ≡ (Status.ok, page, c'))
    × Last always (λ n. refl) (view connection.wal) 7 1 out
    × Gives memory always (λ n. refl) some_page connection out page
read-Last_example =
    read-Last memory always (λ n. refl) some_page connection 7 connection-IsValid (omega arith)
      connection-uses_log (λ at n. refl)

-- A connection that has not mapped the index of a log with one committed frame.
abbrev idle : Connection
idle = record connection {
  wal =
      write_index_header
        (record (connection.wal) { index = record one_frame { mapped = λ j. false } });
  reader_lock = none;
  writer_lock = false;
}

abbrev lock_of : ℕ → ℕ → Status
lock_of tries r = if leb tries 1 then Status.busy else Status.ok

-- In the first try the region is not there yet, and in the first two no lock can be had.
abbrev worlds : ℕ → World (ℕ → ℕ)
worlds tries = record {
  log = some_page;
  region = λ n extend. (Status.ok, leb 1 tries);
  lock_shared = lock_of tries;
  lock_exclusive = λ r n. lock_of tries r;
  recovery_lock = λ r n. lock_of tries r;
  others = λ point w. (w.live0, w.live1, w.info);
}

start_read-Reads_example :
    (s : Status) × (c' : Connection) × (start_read memory worlds idle ≡ some (s, c'))
    × ((s ≢ Status.ok) ⊎ Reads c')
start_read-Reads_example = start_read-Reads memory worlds idle

-- The connection gets read mark 1 in the third try.
abbrev outcome : Option (Status × Connection) → Option (Status × Option ℕ × ℕ)
outcome none = none
outcome (some (s, c)) = some (s, c.reader_lock, c.wal.info.readmark 1)

start_read-log : outcome (start_read memory worlds idle) ≡ some (Status.ok, some 1, 1)
unfolding write_index_header start_read start_read_loop try_reader read_index_header
    first_index_header read_index_locked try_index_header use_readmark find_readmark raise_readmark
    lock_readmark header_failed if_ok if_free hdr_equal hdr_bytes map_group compute_checksum
    checksum_words get_u32 put_u32 write put_u16
start_read-log = refl
