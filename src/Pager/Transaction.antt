-- ===== src/Pager/Transaction.antt =====
-- src/pager.cpp: the transactions of the pager, from `lock_reader` to `finish`, and its checkpoints.
use cub_db.Common.{
  ℕ, ◌+◌, ◌-◌, ◌/◌, ◌%◌, ◌^◌, ltb, leb, ◌==◌, Bool, true, false, List, [], ◌∷◌, if◌then◌else◌,
}
use cub_db.Pager.{Status}
use cub_db.Pager.State.{
  k_open, k_read, k_write, k_dirty, k_error, Pager, Storage, on_ok, then_ok, at_least, has_mode,
  ref_at, set_status, dirtylist_add, set_bufmgr, set_page, mark_dirty, purge_pages, undo_all,
  initialize_root, flush_loop, sorted_pages,
}
use cub_db.Pager.Buffers.{read_page}
use cub_db.Bufmgr.Cache
use cub_db.Header.{Checked, check_db_support}
use cub_db.Header.FileHdr

-- The statuses of `FileHdr::check_db_support`.
unfoldable pub checked_status : Checked → Status
checked_status Checked.ok = Status.ok
checked_status Checked.invalid_argument = Status.invalid_argument
checked_status other = Status.corruption

module _ {W : Type 0} (st : Storage W) where
  unfoldable pub on_storage : (W → W) → Pager W → Pager W
  on_storage f p = record p { storage = f p.storage }

  -- `set_page_size` asks for its scratch memory first, then for what the buffer manager needs.
  unfoldable pub set_page_size : Pager W → ℕ → Status × Pager W
  set_page_size p value =
      let granted = st.granted p.storage in
      let (done, b) =
        Cache.reallocate (λ i. granted (i + 1)) (st.backing p.storage) p.bufmgr value in
      if granted 0
      then if done
        then (Status.ok, record (set_bufmgr p b) { page_size = value })
        else (Status.aborted, set_bufmgr p b)
      else (Status.aborted, p)

  unfoldable pub get_page_count : Pager W → Status × ℕ
  get_page_count p =
      let known = if p.has_wal then st.wal_db_size p.storage else 0 in
      let (s, size) = st.file_size p.storage in
      if known == 0
      then on_ok s (Status.ok, (size + p.page_size - 1) / p.page_size % 2 ^ 32) (s, 0)
      else (Status.ok, known)

  unfoldable pub set_count : Status × ℕ → Pager W → Status × Pager W
  set_count r p = (r.0, record p { page_count = r.1 })

  -- Without the number of bytes read.
  unfoldable pub read_root : Pager W → Status × Pager W
  read_root p = let (s, size, q) = read_page st p p.bufmgr.root in (s, q)

  unfoldable pub header_page_size : Pager W → ℕ
  header_page_size p = FileHdr.get_page_size (ref_at p p.bufmgr.root).page

  unfoldable pub adopt_page_size : Pager W → Status × Pager W
  adopt_page_size p =
      let resized = then_ok (set_page_size p (header_page_size p)) read_root in
      if p.page_size == header_page_size p then (Status.ok, p) else resized

  unfoldable pub use_header : ℕ → Pager W → Status × Pager W
  use_header read_size p =
      let s = checked_status (check_db_support (ref_at p p.bufmgr.root).page) in
      let counted = then_ok (s, p) λ q. set_count (get_page_count q) q in
      let short = if ltb 0 read_size then Status.corruption else Status.ok in
      if leb FileHdr.size read_size then then_ok counted adopt_page_size else (short, p)

  unfoldable pub settle_refresh : Status × Pager W → Status × Pager W
  settle_refresh (s, p) = (s, record p { refresh = on_ok s false true })

  unfoldable pub refresh_state : Pager W → Status × Pager W
  refresh_state p =
      let begun = record p { refresh = true } in
      let (s, size, q) = read_page st begun p.bufmgr.root in
      on_ok s (settle_refresh (use_header size q)) (s, q)

  unfoldable pub roll_back : Pager W → Pager W
  roll_back p =
      let (pages, w) = st.wal_rollback p.storage in
      let undone = undo_all pages (record p { storage = w }) in
      if has_mode p k_dirty then undone else p

  unfoldable pub finish_writer : Pager W → Pager W
  finish_writer p =
      let purged =
        purge_pages (on_storage st.wal_finish_write (roll_back p)) (has_mode p k_error) in
      if at_least p k_write then record purged { page_count = purged.saved_page_count } else p

  unfoldable pub finish : Pager W → Pager W
  finish p =
      let written = finish_writer p in
      let shrunk =
        if at_least p k_read
        then set_bufmgr written (Cache.shrink_to_fit written.bufmgr)
        else written in
      let unlocked = if p.has_wal then on_storage st.wal_finish_read shrunk else shrunk in
      record unlocked { status = Status.ok; mode = k_open }

  unfoldable pub enter_read : Status × Pager W → Status × Pager W
  enter_read (s, p) = on_ok s (Status.ok, record p { mode = k_read }) (s, finish p)

  unfoldable pub lock_reader_impl : Pager W → Bool → Status × Pager W
  lock_reader_impl p refresh =
      let purged = if refresh then purge_pages p true else p in
      enter_read (if purged.refresh then refresh_state purged else (Status.ok, purged))

  unfoldable pub open_wal : Pager W → Status × Pager W
  open_wal p =
      let (s, w) = st.wal_open p.storage in
      (s, record p { has_wal = on_ok s true false; storage = w })

  unfoldable pub open_wal_if_present : Pager W → Status × Pager W
  open_wal_if_present p = if st.wal_exists p.storage then open_wal p else (Status.ok, p)

  -- The result of `start_read` is whether anything has changed.
  unfoldable pub start_read : Pager W → Status × Bool × Pager W
  start_read p =
      let (s, changed, w) = st.wal_start_read p.storage in
      if p.has_wal then (s, changed, record p { storage = w }) else (Status.ok, false, p)

  unfoldable pub lock_changed : Bool × Pager W → Status × Bool × Pager W
  lock_changed (changed, p) = let (s, q) = lock_reader_impl p changed in (s, changed, q)

  unfoldable pub lock_reader : Pager W → Status × Bool × Pager W
  lock_reader p =
      let finished : Status × Pager W = (Status.ok, on_storage st.wal_finish_read p) in
      let opened = if p.has_wal then finished else open_wal_if_present p in
      let (s, changed, q) = start_read opened.1 in
      on_ok opened.0 (on_ok s (lock_changed (changed, q)) (s, changed, q))
        (opened.0, false, opened.1)

  unfoldable pub lock_again : Pager W → Status × Pager W
  lock_again p = let (s, changed, q) = lock_reader p in (s, q)

  unfoldable pub start_write : Pager W → Status × Pager W
  start_write p = let (s, w) = st.wal_start_write p.storage in (s, record p { storage = w })

  unfoldable pub enter_write : Pager W → ℕ → Pager W
  enter_write p page_count =
      let q = record p { mode = k_write; page_count = page_count; saved_page_count = page_count } in
      if page_count == 0 then initialize_root q else q

  unfoldable pub count_pages : Pager W → Status × Pager W
  count_pages p =
      let (s, page_count) = get_page_count p in on_ok s (Status.ok, enter_write p page_count) (s, p)

  unfoldable pub begin_writer : Pager W → Status × Pager W
  begin_writer p =
      let opened = if p.has_wal then (Status.ok, p) else then_ok (open_wal p) lock_again in
      if has_mode p k_read then then_ok (then_ok opened start_write) count_pages else (Status.ok, p)

  -- The list is taken from the pages before their flags are cleared.
  unfoldable pub flush_dirty_pages : Pager W → Status × Pager W
  flush_dirty_pages p =
      let cleared = flush_loop p.dirtylist p in
      let (s, w) =
        st.wal_write cleared.storage (sorted_pages cleared) cleared.page_size cleared.page_count in
      (s, record cleared { dirtylist = []; storage = w })

  unfoldable pub put_page_count : Pager W → Pager W
  put_page_count p =
      let root = p.bufmgr.root in
      let q = mark_dirty p root in
      let stored = set_page q root (FileHdr.put_page_count (ref_at q root).page p.page_count) in
      if p.page_count == p.saved_page_count then p else stored

  unfoldable pub add_frame : List ℕ → Pager W → Pager W
  add_frame [] p = dirtylist_add p p.bufmgr.root
  add_frame (a ∷ l) p = p

  unfoldable pub require_dirty : Pager W → Pager W
  require_dirty p = add_frame p.dirtylist p

  unfoldable pub end_commit : Status × Pager W → Status × Pager W
  end_commit (s, p) =
      on_ok s (Status.ok, record p { saved_page_count = p.page_count; mode = k_write })
        (s, set_status p s)

  unfoldable pub commit : Pager W → Status × Pager W
  commit p =
      let committed = end_commit (flush_dirty_pages (require_dirty (put_page_count p))) in
      on_ok p.status (if has_mode p k_dirty then committed else (Status.ok, p)) (p.status, p)

  -- `mode` is 0 for `kCheckpointPassive`, which does not wait.
  unfoldable pub run_checkpoint : ℕ → Pager W → Status × Pager W
  run_checkpoint mode p =
      let (s, w) = st.wal_checkpoint p.storage mode p.page_size (ltb 0 mode) in
      if p.has_wal then (s, record p { storage = w }) else (Status.ok, p)

  unfoldable pub checkpoint : Pager W → ℕ → Status × Pager W
  checkpoint p mode =
      let created = then_ok (lock_again p) λ q. (Status.ok, finish q) in
      then_ok (if p.has_wal then (Status.ok, p) else created) (run_checkpoint mode)

  unfoldable pub auto_checkpoint : Pager W → ℕ → Status × Pager W
  auto_checkpoint p frame_limit =
      let (frames, w) = st.wal_callback p.storage in
      let q = record p { storage = w } in
      if p.has_wal
      then if ltb frame_limit frames then checkpoint q 1 else (Status.ok, q)
      else (Status.ok, p)

module _ {W : Type 0} where
  unfoldable pub pager_read : {A : Type 0} → Pager W → A → (Pager W → Status × A) → Status × A
  pager_read p a operation = if p.page_count == 0 then (Status.invalid_argument, a) else operation p

  unfoldable pub pager_write : Pager W → (Pager W → Status × Pager W) → Status × Pager W
  pager_write p operation =
      let (s, q) = operation p in
      let r = on_ok s (Status.ok, q) (s, set_status q s) in
      if at_least p k_write then on_ok p.status r (p.status, p) else (Status.not_supported, p)
