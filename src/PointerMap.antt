-- ===== src/PointerMap.antt =====
-- src/pointer_map.h and src/pointer_map.cpp: the back pointers of pages, kept in the pointer map pages.
pub mod Layout
pub mod Entries
use cub_db.Common.{
  ℕ, ◌+◌, ◌-◌, ◌*◌, ◌/◌, ◌%◌, Bool, true, false, ltb, leb, ◌==◌, ◌&&◌, ◌||◌, if◌then◌else◌,
}
use cub_db.Bytes.{Bytes, write, get_u32, put_u32}
use cub_db.Node.{sub32}
use cub_db.Pager.{Status, Pages, keep}

abbrev pub first_map_page : ℕ
first_map_page = 2

-- `PageType` has a byte: any byte can be read from a page.
abbrev pub invalid_page : ℕ
invalid_page = 0

abbrev pub page_type_count : ℕ
page_type_count = 6

-- `sizeof(char) + sizeof(uint32_t)`.
abbrev pub entry_size : ℕ
entry_size = 5

pub record Entry : Type 0 where
  pub back_ptr : ℕ
  pub kind : ℕ

unfoldable pub entry_offset : ℕ → ℕ → ℕ
entry_offset map_id page_id = sub32 (sub32 page_id map_id) 1 * entry_size

unfoldable pub decode_entry : Bytes → ℕ → Entry
decode_entry m offset = record { back_ptr = get_u32 m (offset + 1); kind = m offset % 256 }

unfoldable pub store_entry : Bytes → ℕ → Entry → Bytes
store_entry m offset entry = put_u32 (write m offset (entry.kind % 256)) (offset + 1) entry.back_ptr

-- `PointerMap::lookup`.
unfoldable pub lookup : ℕ → ℕ → ℕ
lookup page_id page_size =
    let len = page_size / entry_size + 1 in
    let idx = (page_id - first_map_page) / len in
    if ltb page_id first_map_page then 0 else idx * len + first_map_page

unfoldable pub is_map : ℕ → ℕ → Bool
is_map page_id page_size = lookup page_id page_size == page_id

-- `map_id.is_null() || page_id <= map_id`, the test of both operations.
abbrev pub has_no_entry : ℕ → ℕ → Bool
has_no_entry map_id page_id = (map_id == 0) || leb page_id map_id

module _ {S : Type 0} (pager : Pages S) where
  -- The status, `entry_out` after the call from its value before it, and the state.
  unfoldable pub read_entry : S → ℕ → Entry → Status × Entry × S
  read_entry s page_id entry_out =
      let map_id = lookup page_id (pager.page_size s) in
      let offset = entry_offset map_id page_id in
      if has_no_entry map_id page_id
      then (Status.corruption, entry_out, s)
      else let (status, s1) = pager.acquire s map_id in
        elim status [
          | Status.ok ↦
              let entry = decode_entry (pager.page s1 map_id) offset in
              let s2 = pager.release s1 map_id keep in
              if (entry.kind == invalid_page) || leb page_type_count entry.kind
              then (Status.corruption, entry, s2)
              else (Status.ok, entry, s2)
          | failed ↦ (failed, entry_out, s1)
        ]

  -- The page is written only when the stored entry is another one.
  unfoldable pub update_entry : S → ℕ → ℕ → Entry → S
  update_entry s map_id offset entry =
      let m = pager.page s map_id in
      let old = decode_entry m offset in
      if (entry.back_ptr == old.back_ptr) && (entry.kind == old.kind)
      then s
      else pager.write (pager.mark_dirty s map_id) map_id (store_entry m offset entry)

  unfoldable pub write_entry : S → ℕ → Entry → Status → Status × S
  write_entry s page_id entry Status.ok =
      let map_id = lookup page_id (pager.page_size s) in
      let offset = entry_offset map_id page_id in
      if has_no_entry map_id page_id
      then (Status.corruption, s)
      else let (status, s1) = pager.acquire s map_id in
        elim status [
          | Status.ok ↦ (Status.ok, pager.release (update_entry s1 map_id offset entry) map_id keep)
          | failed ↦ (failed, s1)
        ]
  write_entry s page_id entry failed = (failed, s)
