-- ===== src/Pager/Lifetime.antt =====
-- src/pager.cpp: the opening and the closing of a pager.
use cub_db.Common.{ℕ, ◌+◌, ◌-◌, ◌/◌, Bool, true, false, [], Option, none, some, if◌then◌else◌}
use cub_db.Pager.{Status}
use cub_db.Pager.State.{k_open, Pager, Storage, on_ok, then_ok}
use cub_db.Bufmgr.Cache
use cub_db.Pager.Transaction.{on_storage, set_page_size, open_wal, finish}

-- `Bufmgr::Bufmgr` and `PageTable::PageTable`, with no reference yet.
unfoldable pub empty_bufmgr : ℕ → Cache.Bufmgr
empty_bufmgr min_buffers = record {
  ref_at = λ a. Cache.init (λ i. 0);
  fresh = 1;
  table = record { capacity = 0; length = 0; table = λ i. [] };
  in_use = [];
  lru = [];
  extra = [];
  root = 0;
  min_buffers = min_buffers;
  num_buffers = 0;
  refsum = 0;
  cache_hits = 0;
  cache_misses = 0;
}

module _ {W : Type 0} where
  -- `Pager::Pager`, with or without a log of the caller's.
  unfoldable pub new_pager : W → Bool → ℕ → ℕ → Pager W
  new_pager w has_wal page_size cache_size = record {
    mode = k_open;
    status = Status.ok;
    bufmgr = empty_bufmgr ((cache_size + page_size - 1) / page_size);
    dirtylist = [];
    has_wal = has_wal;
    page_size = 0;
    page_count = 0;
    saved_page_count = 0;
    refresh = true;
    storage = w;
  }

  unfoldable pub some_pager : Status × Pager W → Status × Option (Pager W)
  some_pager (s, p) = on_ok s (Status.ok, some p) (s, none)

  unfoldable pub open_pager : Storage W → W → Bool → ℕ → ℕ → Status × Option (Pager W)
  open_pager st w has_wal page_size cache_size =
      let opened = set_page_size st (new_pager w has_wal page_size cache_size) page_size in
      if st.granted w 4 then some_pager opened else (Status.aborted, none)

module _ {W : Type 0} (st : Storage W) where
  -- Once the exclusive lock has been asked for: a busy file has other connections, which keep the log.
  unfoldable pub close_locked : Status → Pager W → Status × Pager W
  close_locked Status.ok p =
      let (s, w) = st.wal_close p.storage p.page_size in (s, record p { storage = w })
  close_locked Status.busy p = (Status.ok, p)
  close_locked failed p = (failed, p)

  unfoldable pub lock_and_close : Pager W → Status × Pager W
  lock_and_close p =
      let (s, w) = st.file_lock p.storage in
      if p.has_wal then close_locked s (record p { storage = w }) else (Status.ok, p)

  -- A log that is there belongs to a persistent database.
  unfoldable pub close_wal : Pager W → Status × Pager W
  close_wal p =
      let found = if st.wal_exists p.storage then open_wal st p else (Status.ok, p) in
      let opened = if p.has_wal then (Status.ok, p) else found in
      let (s, q) = then_ok opened lock_and_close in (s, record q { has_wal = false })

  -- Without the message to the logger.
  unfoldable pub close : Pager W → Pager W
  close p = let (s, q) = close_wal (finish st p) in on_storage st st.file_unlock q
