-- ===== src/Tests/PointerMap.antt =====
-- The pointer map at concrete inputs, with pages of 512 bytes, on the program's pager.
use cub_db.Common.{ℕ, ◌+◌, ◌≤◌, ◌≡◌, refl, arith, true, false, [], ◌∷◌, ◌==◌, if◌then◌else◌}
use cub_db.Bytes.{get_u32}
use cub_db.Bytes.Laws.{Apart}
use cub_db.Pager.{Status, Pages}
use cub_db.Pager.State.{Pager, k_write}
use cub_db.Bufmgr.Cache.{Bufmgr}
use cub_db.Pager.Calls.{pager_pages}
use cub_db.Tests.Pager.{storage}
use cub_db.Bufmgr.Cache
use cub_db.Bufmgr.PageTable
use cub_db.Pager.State
use cub_db.Pager.Buffers
use cub_db.PointerMap.{
  Entry, lookup, is_map, entry_offset, read_entry, write_entry, update_entry, decode_entry,
  store_entry,
}
use cub_db.PointerMap.Layout.{lookup_lem, entry_offset_within}
use cub_db.PointerMap.Entries.{read_entry-write_entry, write_entry_frame, left, acquired}

abbrev tree_root : Entry
tree_root = record { back_ptr = 7; kind = 1 }

abbrev pages : Pages (Pager ℕ)
pages = pager_pages storage

-- A writer on a database of 9 pages, with page 2 in the cache, and its state after entry 9 has been written.
abbrev buffers : Bufmgr
buffers = record {
  ref_at = λ a. record { page = λ i. 0; page_id = a; refs = 0; cached = a == 2; dirty = false };
  fresh = 4;
  table = record { capacity = 4; length = 1; table = λ i. if i == 2 then 2 ∷ [] else [] };
  in_use = [];
  lru = 2 ∷ 3 ∷ [];
  extra = [];
  root = 1;
  min_buffers = 3;
  num_buffers = 3;
  refsum = 0;
  cache_hits = 0;
  cache_misses = 0;
}

abbrev blank : Pager ℕ
blank = record {
  mode = k_write;
  status = Status.ok;
  bufmgr = buffers;
  dirtylist = [];
  has_wal = true;
  page_size = 512;
  page_count = 9;
  saved_page_count = 9;
  refresh = false;
  storage = 3;
}

abbrev stored : Pager ℕ
stored = (write_entry pages blank 9 tree_root Status.ok).1

lookup_pages :
    (lookup 1 512 ≡ 0) × (lookup 104 512 ≡ 2) × (lookup 105 512 ≡ 105) × (lookup 300 512 ≡ 208)
unfolding lookup
lookup_pages = (refl, refl, refl, refl)

lookup_lem_example :
    (is_map (lookup 104 512) 512 ≡ true)
    × (lookup 104 512 ≤ 104)
    × ((other : ℕ) → other ≤ 104 → is_map other 512 ≡ true → other ≤ lookup 104 512)
lookup_lem_example = lookup_lem 104 512 (omega arith)

entry_offset_within_example :
    (entry_offset 2 104 + 5 ≤ 512) × Apart (entry_offset 2 104) 5 (entry_offset 2 3) 5
unfolding lookup
entry_offset_within_example =
    entry_offset_within 104 3 512 (omega arith) (omega arith) (omega arith) (omega arith) refl
      (omega arith) (omega arith)

map_granted : (pages.acquire blank 2).0 ≡ Status.ok
unfolding pager_pages Buffers.acquire Buffers.fetch Cache.lookup Cache.query PageTable.lookup
    PageTable.first PageTable.find_pointer PageTable.bucket
map_granted = refl

stored_page_size : stored.page_size ≡ blank.page_size
unfolding write_entry lookup pager_pages Buffers.acquire Buffers.fetch Cache.lookup Cache.query
    PageTable.lookup PageTable.first PageTable.find_pointer PageTable.bucket Buffers.release
    update_entry decode_entry get_u32 Buffers.add_ref State.set_bufmgr Cache.ref Cache.set_ref
    Cache.touch Cache.unlink Cache.unref Cache.without Buffers.erases Buffers.release_unused
    State.dirtylist_add State.dirty_mode State.mark_dirty State.on_ok State.rank State.register_page
    State.set_dirty State.set_page entry_offset store_entry
stored_page_size = refl

map_granted_again : (pages.acquire stored 2).0 ≡ Status.ok
unfolding write_entry lookup pager_pages Buffers.acquire Buffers.fetch Cache.lookup Cache.query
    PageTable.lookup PageTable.first PageTable.find_pointer PageTable.bucket Buffers.release
    update_entry decode_entry get_u32 Buffers.add_ref State.set_bufmgr Cache.ref Cache.set_ref
    Cache.touch Cache.unlink Cache.unref Cache.without Buffers.erases Buffers.release_unused
    State.dirtylist_add State.dirty_mode State.mark_dirty State.on_ok State.rank State.register_page
    State.set_dirty State.set_page entry_offset store_entry
map_granted_again = refl

map_left : pages.page (pages.acquire stored 2).1 2 ≡ left pages blank 9 tree_root 2
unfolding write_entry lookup pager_pages Buffers.acquire Buffers.fetch Cache.lookup Cache.query
    PageTable.lookup PageTable.first PageTable.find_pointer PageTable.bucket Buffers.release
    update_entry decode_entry get_u32 Buffers.add_ref State.set_bufmgr Cache.ref Cache.set_ref
    Cache.touch Cache.unlink Cache.unref Cache.without Buffers.erases Buffers.release_unused
    State.dirtylist_add State.dirty_mode State.mark_dirty State.on_ok State.rank State.register_page
    State.set_dirty State.set_page entry_offset store_entry
map_left = refl

read_entry-write_entry_example :
    ((write_entry pages blank 9 tree_root Status.ok).0 ≡ Status.ok)
    × ((read_entry pages stored 9 tree_root).0 ≡ Status.ok)
    × ((read_entry pages stored 9 tree_root).1 ≡ tree_root)
unfolding lookup pager_pages
read_entry-write_entry_example =
    read_entry-write_entry pages blank stored 9 tree_root tree_root (omega arith) (omega arith)
      (omega arith) map_granted stored_page_size map_granted_again map_left

write_entry_frame_example :
    decode_entry (left pages blank 9 tree_root (lookup 10 512)) (entry_offset (lookup 10 512) 10)
    ≡ decode_entry (acquired pages blank 9 (lookup 10 512)) (entry_offset (lookup 10 512) 10)
unfolding lookup pager_pages
write_entry_frame_example =
    write_entry_frame pages blank 9 10 tree_root (omega arith) (omega arith) (omega arith)
      (omega arith) (omega arith) (omega arith) (omega arith) map_granted
