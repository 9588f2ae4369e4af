-- ===== src/Pager/Buffers.antt =====
-- src/pager.cpp: the pages of a transaction: reading them, finding a buffer for them, and letting go of them.
use cub_db.Common.{
  ℕ, ◌+◌, ◌-◌, ◌*◌, ◌^◌, ltb, ◌==◌, ◌&&◌, ◌||◌, Bool, true, false, [], ◌∷◌, Option, none, some,
  if◌then◌else◌,
}
use cub_db.Bytes.{Bytes, fill}
use cub_db.Pager.{Status, ReleaseAction, discard, no_cache, keep}
use cub_db.Pager.State.{
  rank, Pager, Storage, on_ok, then_ok, ref_at, set_status, dirtylist_remove, set_bufmgr, set_page,
  set_page_id, register_page, mark_dirty, wal_page, dirty_hdr,
}
use cub_db.Bufmgr.Cache

-- `action < kKeep` is the test for the other two.
unfoldable pub erases : ReleaseAction → Bool → Bool
erases discard is_dirty = true
erases no_cache true = false
erases no_cache false = true
erases keep is_dirty = false

-- No memory, a failed write of the victim, or the page that is free to be used.
abbrev pub Result : Type 0 → Type 0 → Type 0
Result A W = Status × A × Pager W

module _ {W : Type 0} where
  unfoldable pub release_unused : Pager W → ℕ → ReleaseAction → Pager W
  release_unused p a action =
      let removed = dirtylist_remove p a in
      let p' = if (ref_at p a).dirty then removed else p in
      if ((ref_at p a).refs == 0) && erases action (ref_at p a).dirty
      then set_bufmgr p' (Cache.erase p'.bufmgr a)
      else p

  unfoldable pub release : Pager W → Option ℕ → ReleaseAction → Pager W
  release p none action = p
  release p (some a) action =
      let unreferenced = set_bufmgr p (Cache.unref p.bufmgr a) in
      if (ref_at p a).page_id == 1 then p else release_unused unreferenced a action

  unfoldable pub add_ref : Pager W → ℕ → Pager W
  add_ref p a = set_bufmgr p (Cache.ref p.bufmgr a)

  unfoldable pub erase_cached : Pager W → ℕ → Pager W
  erase_cached p a = if (ref_at p a).cached then set_bufmgr p (Cache.erase p.bufmgr a) else p

  -- After a read: its status, the bytes read, and the pager.
  unfoldable pub read_failed : Pager W → ℕ → Status → Pager W
  read_failed p a e =
      let erased = set_bufmgr p (Cache.erase p.bufmgr a) in
      if ltb 1 (rank p.mode) then set_status erased e else erased

module _ {W : Type 0} (st : Storage W) where
  unfoldable pub read_page_from_file : Pager W → ℕ → Result ℕ W
  read_page_from_file p a =
      let offset = ((ref_at p a).page_id - 1) * p.page_size in
      let (s, bytes, size, w) = st.file_read p.storage offset p.page_size in
      let p' = record p { storage = w } in
      on_ok s (Status.ok, size, set_page p' a (fill bytes size 0 (p.page_size - size))) (s, 0, p')

  unfoldable pub wal_answer : Pager W → ℕ → Status × Option Bytes × W → Result ℕ W
  wal_answer p a (s, some page, w) =
      on_ok s (Status.ok, p.page_size, set_page (record p { storage = w }) a page)
        (s, 0, record p { storage = w })
  wal_answer p a (s, none, w) =
      on_ok s (read_page_from_file (record p { storage = w }) a) (s, 0, record p { storage = w })

  unfoldable pub read_page : Pager W → ℕ → Result ℕ W
  read_page p a =
      let unknown : Status × Option Bytes × W = (Status.ok, none, p.storage) in
      let got =
        if p.has_wal then st.wal_read p.storage (ref_at p a).page_id p.page_size else unknown in
      let (s, size, p') = wal_answer p a got in on_ok s (s, size, p') (s, 0, read_failed p' a s)

  unfoldable pub victim_or : Option ℕ → Pager W → Result (Option ℕ) W → Result (Option ℕ) W
  victim_or none p allocated = allocated
  victim_or (some victim) p allocated = (Status.ok, some victim, p)

  unfoldable pub next_buffer : Pager W → Result (Option ℕ) W
  next_buffer p =
      let (a, b) = Cache.allocate p.bufmgr (st.backing p.storage 0) in
      let allocated : Result (Option ℕ) W = (Status.ok, some a, set_bufmgr p b) in
      victim_or (Cache.next_victim p.bufmgr) p
        (if st.granted p.storage 0 then allocated else (Status.aborted, none, p))

  -- The page count is 0, for a write that is not part of a commit.
  unfoldable pub write_victim : Pager W → ℕ → Status × Pager W
  write_victim p a =
      let page = wal_page p (dirty_hdr p a) in
      let (s, w) = st.wal_write p.storage (page ∷ []) p.page_size 0 in
      let p' = record p { storage = w } in
      on_ok s (Status.ok, dirtylist_remove p' a) (s, set_status p' s)

  unfoldable pub evict : Option ℕ → Pager W → Status × Pager W
  evict none p = (Status.aborted, p)
  evict (some a) p =
      let written = write_victim p a in
      let r = if (ref_at p a).dirty then written else (Status.ok, p) in
      then_ok r λ q. (Status.ok, erase_cached q a)

  unfoldable pub ensure_available_buffer : Pager W → Status × Pager W
  ensure_available_buffer p = let (s, victim, q) = next_buffer p in on_ok s (evict victim q) (s, q)

  -- The buffer at the end of the list, with `refs` counted, and cleared if it has never held a page.
  unfoldable pub use_buffer : Option ℕ → Pager W → Status × Option ℕ × Pager W
  use_buffer none p = (Status.aborted, none, p)
  use_buffer (some a) p =
      let q = add_ref p a in
      let cleared = set_page q a (fill (ref_at q a).page 0 0 p.page_size) in
      (Status.ok, some a, if (ref_at q a).page_id == 0 then cleared else q)

  unfoldable pub get_unused_page : Pager W → Status × Option ℕ × Pager W
  get_unused_page p =
      let (s, q) = ensure_available_buffer p in
      on_ok s (use_buffer (Cache.next_victim q.bufmgr) q) (s, none, q)

  abbrev pub max_page_count : ℕ
  max_page_count = 2 ^ 32 - 1

  unfoldable pub set_new_page : ℕ → Option ℕ → Pager W → Pager W
  set_new_page page_id none p = p
  set_new_page page_id (some a) p =
      let registered = register_page (set_page_id p a page_id) a in
      mark_dirty (record registered { page_count = page_id }) a

  unfoldable pub allocate : Pager W → Status × Option ℕ × Pager W
  allocate p =
      let (s, page, q) = get_unused_page p in
      if p.page_count == max_page_count
      then (Status.not_supported, none, p)
      else on_ok s (Status.ok, page, set_new_page (p.page_count + 1) page q) (s, none, q)

  -- The page is read into the buffer at the end of the list.
  unfoldable pub load : Option ℕ → ℕ → Pager W → Status × Option ℕ × Pager W
  load none page_id p = (Status.aborted, none, p)
  load (some a) page_id p =
      let (s, size, q) = read_page (register_page (set_page_id p a page_id) a) a in
      on_ok s (Status.ok, some a, add_ref q a) (s, none, q)

  unfoldable pub fetch : ℕ → Option ℕ × Cache.Bufmgr → Pager W → Status × Option ℕ × Pager W
  fetch page_id (some a, b) p = (Status.ok, some a, add_ref (set_bufmgr p b) a)
  fetch page_id (none, b) p =
      let (s, q) = ensure_available_buffer (set_bufmgr p b) in
      on_ok s (load (Cache.next_victim q.bufmgr) page_id q) (s, none, q)

  unfoldable pub acquire : Pager W → ℕ → Status × Option ℕ × Pager W
  acquire p page_id =
      let fetched = fetch page_id (Cache.lookup p.bufmgr page_id) p in
      if (page_id == 0) || ltb p.page_count page_id
      then (Status.corruption, none, p)
      else if page_id == 1
      then (Status.ok, some p.bufmgr.root, p)
      else fetched
