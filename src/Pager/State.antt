-- ===== src/Pager/State.antt =====
-- src/pager.h and src/pager.cpp: the state of the pager, its pages and their buffers. The log, the file and the
-- allocator are behind `Storage`.
use cub_db.Common.{
  ℕ, zero, suc, ◌+◌, ◌-◌, leb, ◌==◌, ◌&&◌, ◌||◌, Bool, true, false, List, [], ◌∷◌, Option, none,
  some, map, if◌then◌else◌,
}
use cub_db.Bytes.{Bytes}
use cub_db.Pager.{Status}
use cub_db.Bufmgr.Dirtylist.{DirtyHdr, sort}
use cub_db.Bufmgr.Cache.{Bufmgr, PageRef}
use cub_db.Bufmgr.Cache
use cub_db.Header.{make_supported_db}

pub data Mode : Type 0 where
  k_open k_read k_write k_dirty k_error : Mode

-- The order of the enumeration.
unfoldable pub rank : Mode → ℕ
rank k_open = 0
rank k_read = 1
rank k_write = 2
rank k_dirty = 3
rank k_error = 4

unfoldable pub dirty_mode : Mode → Mode
dirty_mode k_write = k_dirty
dirty_mode other = other

unfoldable pub is_ok : Status → Bool
is_ok Status.ok = true
is_ok failed = false

-- What the pager calls. `wal_open` is `Wal::open` on the log that `open_wal` makes or is given, and `wal_start_read`
-- answers when `busy_wait` is done with it. `granted` has the answers to the allocations of a call.
pub record Storage (W : Type 0) : Type 0 where
  pub wal_exists : W → Bool
  pub wal_open : W → Status × W
  pub wal_read : W → ℕ → ℕ → Status × Option Bytes × W
  pub wal_write : W → List (ℕ × Bytes) → ℕ → ℕ → Status × W
  pub wal_start_read : W → Status × Bool × W
  pub wal_start_write : W → Status × W
  pub wal_finish_read : W → W
  pub wal_finish_write : W → W
  pub wal_rollback : W → List ℕ × W
  pub wal_db_size : W → ℕ
  pub wal_callback : W → ℕ × W
  pub wal_checkpoint : W → ℕ → ℕ → Bool → Status × W
  pub file_read : W → ℕ → ℕ → Status × Bytes × ℕ × W
  pub file_size : W → Status × ℕ
  pub wal_close : W → ℕ → Status × W
  pub file_lock : W → Status × W
  pub file_unlock : W → W
  pub granted : W → ℕ → Bool
  pub backing : W → ℕ → Bytes

pub record Pager (W : Type 0) : Type 0 where
  pub mode : Mode
  pub status : Status
  pub bufmgr : Bufmgr
  pub dirtylist : List ℕ
  pub has_wal : Bool
  pub page_size : ℕ
  pub page_count : ℕ
  pub saved_page_count : ℕ
  pub refresh : Bool
  pub storage : W

unfoldable pub on_ok : {A : Type 0} → Status → A → A → A
on_ok Status.ok a b = a
on_ok failed a b = b

-- `if (s.is_ok()) s = ...` on a status with what came with it.
unfoldable pub then_ok : {A : Type 0} → Status × A → (A → Status × A) → Status × A
then_ok r k = on_ok r.0 (k r.1) r

unfoldable pub is_fatal : Status → Bool
is_fatal Status.io_error = true
is_fatal Status.corruption = true
is_fatal Status.aborted = true
is_fatal other = false

module _ {W : Type 0} where
  abbrev pub at_least : Pager W → Mode → Bool
  at_least p m = leb (rank m) (rank p.mode)

  abbrev pub has_mode : Pager W → Mode → Bool
  has_mode p m = rank p.mode == rank m

  abbrev pub ref_at : Pager W → ℕ → PageRef
  ref_at p a = p.bufmgr.ref_at a

  unfoldable pub set_status : Pager W → Status → Pager W
  set_status p e =
      if is_ok p.status && (at_least p k_write && is_fatal e)
      then record p { status = e; mode = k_error }
      else p

  -- `Dirtylist::add` and `Dirtylist::remove`, which keep the flag of the reference as well.
  unfoldable pub set_dirty : Pager W → ℕ → Bool → Pager W
  set_dirty p a flag = record p {
    bufmgr = Cache.set_ref p.bufmgr a (record (ref_at p a) { dirty = flag });
  }

  unfoldable pub dirtylist_add : Pager W → ℕ → Pager W
  dirtylist_add p a = record (set_dirty p a true) { dirtylist = a ∷ p.dirtylist }

  unfoldable pub dirtylist_remove : Pager W → ℕ → Pager W
  dirtylist_remove p a = record (set_dirty p a false) { dirtylist = Cache.without a p.dirtylist }

  unfoldable pub set_bufmgr : Pager W → Bufmgr → Pager W
  set_bufmgr p b = record p { bufmgr = b }

  unfoldable pub remove_dirty : Pager W → ℕ → Pager W
  remove_dirty p a = if (ref_at p a).dirty then dirtylist_remove p a else p

  unfoldable pub purge_page : Pager W → ℕ → Pager W
  purge_page p a = let p' = remove_dirty p a in set_bufmgr p' (Cache.erase p'.bufmgr a)

  -- The loop of `purge_pages`, over the entries of the dirty list.
  unfoldable pub purge_dirty : List ℕ → Pager W → Pager W
  purge_dirty [] p = p
  purge_dirty (a ∷ l) p =
      let is_root = (ref_at p a).page_id == 1 in
      purge_dirty l (purge_page (record p { refresh = is_root || p.refresh }) a)

  unfoldable pub purge_pages : Pager W → Bool → Pager W
  purge_pages p purge_all =
      let p' = purge_dirty p.dirtylist p in
      if purge_all then record (set_bufmgr p' (Cache.purge p'.bufmgr)) { refresh = true } else p'

  -- A page that has been read into the buffer of a reference.
  unfoldable pub set_page : Pager W → ℕ → Bytes → Pager W
  set_page p a page = set_bufmgr p (Cache.set_ref p.bufmgr a (record (ref_at p a) { page = page }))

  unfoldable pub set_page_id : Pager W → ℕ → ℕ → Pager W
  set_page_id p a page_id =
      set_bufmgr p (Cache.set_ref p.bufmgr a (record (ref_at p a) { page_id = page_id }))

  unfoldable pub register_page : Pager W → ℕ → Pager W
  register_page p a = set_bufmgr p (Cache.register_page p.bufmgr a)

  unfoldable pub mark_dirty : Pager W → ℕ → Pager W
  mark_dirty p a =
      let added = dirtylist_add p a in
      let p' = record added { mode = dirty_mode p.mode } in
      if (ref_at p a).dirty then p else if (ref_at p a).cached then p' else register_page p' a

  unfoldable pub move_page : Pager W → ℕ → ℕ → Pager W
  move_page p a destination =
      let moved = set_page_id (set_bufmgr p (Cache.erase p.bufmgr a)) a destination in
      if (ref_at p a).dirty then register_page moved a else mark_dirty moved a

  unfoldable pub purge_found : Pager W → Option ℕ → Pager W
  purge_found p none = p
  purge_found p (some a) = purge_page p a

  -- `undo_callback`, and what `Wal::rollback` does with it.
  unfoldable pub undo_callback : Pager W → ℕ → Pager W
  undo_callback p page_id =
      let purged = purge_found p (Cache.query p.bufmgr page_id) in
      if page_id == 1 then p else purged

  unfoldable pub undo_all : List ℕ → Pager W → Pager W
  undo_all [] p = p
  undo_all (page_id ∷ l) p = undo_all l (undo_callback p page_id)

  -- The loop of `set_page_count`, from the index `i` on and so many times.
  unfoldable pub truncate_loop : ℕ → ℕ → Pager W → Pager W
  truncate_loop zero i p = p
  truncate_loop (suc count) i p =
      truncate_loop count (i + 1) (purge_found p (Cache.query p.bufmgr (i + 1)))

  unfoldable pub set_page_count : Pager W → ℕ → Pager W
  set_page_count p page_count =
      let p' = truncate_loop (p.page_count - page_count) page_count p in
      record p' { page_count = page_count }

  unfoldable pub initialize_root : Pager W → Pager W
  initialize_root p =
      let root = p.bufmgr.root in
      let p' = mark_dirty (record p { page_count = 1 }) root in
      set_page p' root (make_supported_db (ref_at p' root).page p'.page_size)

  -- The loop of `flush_dirty_pages`.
  unfoldable pub flush_loop : List ℕ → Pager W → Pager W
  flush_loop [] p = p
  flush_loop (a ∷ l) p =
      let in_bounds = leb (ref_at p a).page_id p.page_count in
      flush_loop l (if in_bounds then set_dirty p a false else dirtylist_remove p a)

  unfoldable pub dirty_hdr : Pager W → ℕ → DirtyHdr
  dirty_hdr p a = record { page_id = (ref_at p a).page_id; page_ref = a }

  unfoldable pub wal_page : Pager W → DirtyHdr → ℕ × Bytes
  wal_page p h = (h.page_id, (ref_at p h.page_ref).page)

  -- The pages that `WalPagesImpl` goes through, in the order of their page IDs.
  unfoldable pub sorted_pages : Pager W → List (ℕ × Bytes)
  sorted_pages p = elim (sort (map (dirty_hdr p) p.dirtylist)) [
    | none ↦ []
    | some entries ↦ map (wal_page p) entries
  ]
