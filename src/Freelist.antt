-- ===== src/Freelist.antt =====
-- src/freelist.h and src/freelist.cpp: the list of the pages that are not in use. A trunk page has the next trunk's ID, a
-- count, and the IDs of that many leaf pages. A page reference goes by its page ID; the pager's calls are the record `Pages`,
-- and the root is page 1.

pub mod References
use cub_db.Common.{
  ℕ, zero, suc, ◌+◌, ◌-◌, ◌*◌, ◌/◌, ◌%◌, ◌^◌, ltb, leb, ◌==◌, ◌&&◌, ◌||◌, Bool, true, false, Option,
  none, some, if◌then◌else◌,
}
use cub_db.Bytes.{Bytes, get_u32, put_u32, copy}
use cub_db.Pager.{Status, Pages, ReleaseAction, keep, discard}
use cub_db.Pager.State.{on_ok}
use cub_db.PointerMap.{Entry, first_map_page, read_entry, write_entry}
use cub_db.Header.FileHdr.{
  freelist_head_offset, get_freelist_head, put_freelist_head, get_freelist_length,
  put_freelist_length,
}

-- `kFreelistPage` of internal.h.
abbrev pub freelist_page : ℕ
freelist_page = 5

unfoldable pub capacity : ℕ → ℕ
capacity page_size = (page_size - 2 * 4) / 4

unfoldable pub leaf_ptr : ℕ → ℕ
leaf_ptr index = (index + 2) * 4

unfoldable pub get_leaf_id : Bytes → ℕ → ℕ
get_leaf_id m index = get_u32 m (leaf_ptr index)

unfoldable pub put_leaf_id : Bytes → ℕ → ℕ → Bytes
put_leaf_id m index value = put_u32 m (leaf_ptr index) value

unfoldable pub get_leaf_count : Bytes → ℕ
get_leaf_count m = get_u32 m 4

unfoldable pub put_leaf_count : Bytes → ℕ → Bytes
put_leaf_count m value = put_u32 m 4 value

unfoldable pub abs_distance : ℕ → ℕ → ℕ
abs_distance a b = (a - b) + (b - a)

-- The search for the leaf that is closest to `nearby`, from the index `i` on and so many times.
unfoldable pub closest_loop : ℕ → Bytes → ℕ → ℕ → ℕ → ℕ → ℕ
closest_loop zero m nearby i closest smallest = closest
closest_loop (suc count) m nearby i closest smallest =
    let dist = abs_distance (get_leaf_id m i) nearby in
    let nearer = closest_loop count m nearby (i + 1) i dist in
    let rest = closest_loop count m nearby (i + 1) closest smallest in
    if ltb dist smallest then nearer else rest

unfoldable pub closest_leaf : Bytes → ℕ → ℕ → ℕ
closest_leaf m nearby leaf_count =
    if nearby == 0
    then 0
    else closest_loop (leaf_count - 1) m nearby 1 0 (abs_distance (get_leaf_id m 0) nearby)

abbrev not : Bool → Bool
not true = false
not false = true

pub data RemoveType : Type 0 where
  remove_any remove_exact : RemoveType

module _ {S : Type 0} (pager : Pages S) (page_count : S → ℕ) where
  -- `pager.release` on a reference that can be null.
  unfoldable pub release_ref : S → Option ℕ → ReleaseAction → S
  release_ref s none action = s
  release_ref s (some id) action = pager.release s id action

  unfoldable pub count_page : S → S
  count_page s =
      let s' = pager.mark_dirty s 1 in
      let root = pager.page s' 1 in
      pager.write s' 1 (put_freelist_length root ((get_freelist_length root + 1) % 2 ^ 32))

  -- The label `cleanup` of `add`.
  unfoldable pub add_cleanup : Option ℕ → Option ℕ → Status × S → Status × S
  add_cleanup trunk page (status, s) =
      (status, release_ref (release_ref (on_ok status (count_page s) s) trunk keep) page discard)

  unfoldable pub add_leaf : S → ℕ → ℕ → Status × S
  add_leaf s trunk page_id =
      let s1 = pager.mark_dirty s trunk in
      let m = pager.page s1 trunk in
      let n = get_leaf_count m in
      let s2 = pager.write s1 trunk (put_leaf_id (put_leaf_count m (n + 1)) n page_id) in
      write_entry pager s2 page_id (record { back_ptr = 0; kind = freelist_page }) Status.ok

  unfoldable pub add_trunk : S → ℕ → ℕ → Status × S
  add_trunk s free_head page_id =
      let s1 = pager.mark_dirty s 1 in
      let s2 = pager.write s1 1 (put_freelist_head (pager.page s1 1) page_id) in
      let s3 = pager.mark_dirty s2 page_id in
      let blank = put_leaf_count (put_u32 (pager.page s3 page_id) 0 free_head) 0 in
      let s4 = pager.release (pager.write s3 page_id blank) page_id keep in
      write_entry pager s4 page_id (record { back_ptr = 0; kind = freelist_page }) Status.ok

  unfoldable pub add_to_trunk : S → ℕ → ℕ → Status × S
  add_to_trunk s trunk page_id =
      let n = get_leaf_count (pager.page s trunk) in
      let trunk_capacity = capacity (pager.page_size s) in
      if ltb n trunk_capacity
      then add_cleanup (some trunk) (some page_id) (add_leaf s trunk page_id)
      else if ltb trunk_capacity n
      then add_cleanup (some trunk) (some page_id) (Status.corruption, s)
      else add_cleanup (some trunk) none (add_trunk s trunk page_id)

  unfoldable pub add : S → ℕ → Status × S
  add s page_id =
      let free_head = get_freelist_head (pager.page s 1) in
      let (status, s') = pager.acquire s free_head in
      if leb page_id first_map_page || ltb (page_count s) page_id
      then (Status.corruption, pager.release s page_id keep)
      else if ltb (page_count s) free_head
      then add_cleanup none (some page_id) (Status.corruption, s)
      else if free_head == 0
      then add_cleanup none none (add_trunk s free_head page_id)
      else on_ok status (add_to_trunk s' free_head page_id)
          (add_cleanup none (some page_id) (status, s'))

  -- What `remove` has when it jumps to `cleanup`: its status, `page_out`, and the two references left to release.
  unfoldable pub remove_cleanup :
      Option ℕ → Option ℕ → Status × Option ℕ × S → Status × Option ℕ × S
  remove_cleanup trunk prev_trunk (status, page_out, s) =
      (status, page_out, release_ref (release_ref s trunk keep) prev_trunk keep)

  -- The link to `trunk`, in the previous trunk or the header, is replaced.
  unfoldable pub relink : S → Option ℕ → ℕ → S
  relink s none next = pager.write s 1 (put_freelist_head (pager.page s 1) next)
  relink s (some prev) next =
      let s' = pager.mark_dirty s prev in pager.write s' prev (put_u32 (pager.page s' prev) 0 next)

  -- The first leaf takes the place of its trunk, with the other leaves.
  unfoldable pub promote_leaf : S → ℕ → ℕ → S
  promote_leaf s trunk new_id =
      let s1 = pager.mark_dirty s new_id in
      let old = pager.page s1 trunk in
      let leaf_count = get_leaf_count old in
      let linked = put_u32 (pager.page s1 new_id) 0 (get_u32 old 0) in
      let counted = put_leaf_count linked (leaf_count - 1) in
      let filled = copy counted (leaf_ptr 0) old (leaf_ptr 1) ((leaf_count - 1) * 4) in
      pager.release (pager.write s1 new_id filled) new_id keep

  -- `nearby` is the trunk itself.
  unfoldable pub remove_trunk : S → ℕ → Option ℕ → Status × Option ℕ × S
  remove_trunk s trunk prev_trunk =
      let s1 = pager.mark_dirty s trunk in
      let m = pager.page s1 trunk in
      let new_id = get_leaf_id m 0 in
      let (status, s2) = pager.acquire s1 new_id in
      if get_leaf_count m == 0
      then remove_cleanup none prev_trunk
          (Status.ok, some trunk, relink s1 prev_trunk (get_u32 m 0))
      else if ltb (page_count s) new_id
      then remove_cleanup (some trunk) prev_trunk (Status.corruption, some trunk, s1)
      else on_ok status
          (remove_cleanup none prev_trunk
            (Status.ok, some trunk, relink (promote_leaf s2 trunk new_id) prev_trunk new_id))
          (remove_cleanup (some trunk) prev_trunk (status, some trunk, s2))

  unfoldable pub take_leaf : S → ℕ → ℕ → Option ℕ → Status × Option ℕ × S
  take_leaf s trunk closest prev_trunk =
      let s1 = pager.mark_dirty s trunk in
      let m = pager.page s1 trunk in
      let page_id = get_leaf_id m closest in
      let last = get_leaf_count m - 1 in
      let moved = if ltb closest last then put_leaf_id m closest (get_leaf_id m last) else m in
      let s2 = pager.write s1 trunk (put_leaf_count moved last) in
      let (status, s3) = pager.acquire s2 page_id in
      let (status', page_out, s4) : Status × Option ℕ × S =
        on_ok status (Status.ok, some page_id, pager.mark_dirty s3 page_id) (status, none, s3) in
      (status', page_out, pager.release (release_ref s4 prev_trunk keep) trunk keep)

  unfoldable pub trunk_link : S → Option ℕ → ℕ
  trunk_link s none = get_freelist_head (pager.page s 1)
  trunk_link s (some prev) = get_u32 (pager.page s prev) 0

  -- One iteration of the loop, once the trunk has been acquired; `again` is the next one.
  unfoldable pub visit_trunk :
      S → Bool → ℕ → ℕ → ℕ → Option ℕ → (S → Status × Option ℕ × S) → Status × Option ℕ × S
  visit_trunk s search_list nearby max_page trunk prev_trunk again =
      let m = pager.page s trunk in
      let leaf_count = get_leaf_count m in
      let closest = closest_leaf m nearby leaf_count in
      let page_id = get_leaf_id m closest in
      let dirty = pager.mark_dirty s trunk in
      let rest = again (release_ref s prev_trunk keep) in
      if (leaf_count == 0) && not search_list
      then remove_cleanup none prev_trunk
          (Status.ok, some trunk, relink dirty none (get_u32 (pager.page dirty trunk) 0))
      else if ltb (capacity (pager.page_size s)) leaf_count
      then remove_cleanup (some trunk) prev_trunk (Status.corruption, none, s)
      else if search_list && (nearby == trunk)
      then remove_trunk s trunk prev_trunk
      else if leaf_count == 0
      then rest
      else if ltb page_id first_map_page || ltb max_page page_id
      then remove_cleanup (some trunk) prev_trunk (Status.corruption, none, s)
      else if search_list && not (page_id == nearby)
      then rest
      else take_leaf s trunk closest prev_trunk

  -- The loop, with the number of attempts that are left.
  unfoldable pub remove_loop : ℕ → Bool → ℕ → ℕ → Option ℕ → S → Status × Option ℕ × S
  remove_loop zero search_list nearby max_page prev_trunk s =
      remove_cleanup none prev_trunk (Status.corruption, none, s)
  remove_loop (suc attempts) search_list nearby max_page prev_trunk s =
      let trunk = trunk_link s prev_trunk in
      let (status, s') = pager.acquire s trunk in
      let visited =
        visit_trunk s' search_list nearby max_page trunk prev_trunk
          λ s2. remove_loop attempts search_list nearby max_page (some trunk) s2 in
      if ltb max_page trunk
      then remove_cleanup none prev_trunk (Status.corruption, none, s)
      else on_ok status visited (remove_cleanup none prev_trunk (status, none, s'))

  unfoldable pub remove_counted : S → Bool → ℕ → Status × Option ℕ × S
  remove_counted s search_list nearby =
      let free_count = get_freelist_length (pager.page s 1) in
      let s1 = pager.mark_dirty s 1 in
      let s2 = pager.write s1 1 (put_freelist_length (pager.page s1 1) (free_count - 1)) in
      remove_loop (free_count + 1) search_list nearby (page_count s) none s2

  unfoldable pub find_nearby : S → ℕ → Status × Option ℕ × S
  find_nearby s nearby =
      let (status, entry, s') = read_entry pager s nearby (record { back_ptr = 0; kind = 0 }) in
      on_ok status (remove_counted s' (entry.kind == freelist_page) nearby) (status, none, s')

  unfoldable pub is_exact : RemoveType → Bool
  is_exact remove_any = false
  is_exact remove_exact = true

  unfoldable pub remove : S → RemoveType → ℕ → Status × Option ℕ × S
  remove s kind nearby =
      let free_count = get_freelist_length (pager.page s 1) in
      if leb (page_count s) free_count
      then (Status.corruption, none, s)
      else if free_count == 0
      then (Status.ok, none, s)
      else if is_exact kind && leb nearby (page_count s)
      then find_nearby s nearby
      else remove_counted s false nearby
