-- ===== src/Freelist/References.antt =====
-- The references to pages that the freelist takes from the pager and gives back.
use cub_db.Common.{
  ℕ, zero, suc, ◌+◌, ◌-◌, ◌≡◌, refl, sym, ap, ◌∙◌, arith, ltb, leb, ◌==◌, ◌&&◌, ◌||◌, subst, Bool,
  true, false, Option, none, some, if◌then◌else◌, if_lem,
}
use cub_db.Bytes.{get_u32}
use cub_db.Pager.{Status, Pages, ReleaseAction, keep}
use cub_db.Pager.State.{on_ok, is_ok}
use cub_db.Pager.Committing.{on_ok_lem}
use cub_db.Pager.Errors.{failed-not_ok}
use cub_db.PointerMap.{
  Entry, first_map_page, read_entry, write_entry, update_entry, lookup, entry_offset, decode_entry,
  store_entry, has_no_entry, invalid_page, page_type_count,
}
use cub_db.Freelist.{
  freelist_page, capacity, closest_leaf, get_leaf_id, get_leaf_count, put_leaf_id, put_leaf_count,
  release_ref, count_page, add_cleanup, add_leaf, add_trunk, add_to_trunk, add, remove_cleanup,
  relink, promote_leaf, remove_trunk, take_leaf, visit_trunk, remove_loop, remove_counted,
  find_nearby, is_exact, RemoveType, remove, not, trunk_link,
}
use cub_db.Header.FileHdr.{get_freelist_head, get_freelist_length}

-- One reference, if it is to the page.
abbrev pub units : ℕ → ℕ → ℕ
units page id = if id == page then 1 else 0

abbrev pub ref_units : ℕ → Option ℕ → ℕ
ref_units page none = 0
ref_units page (some id) = units page id

-- A pager with a book of the references that its callers hold, by page: one more for a call of `acquire` that succeeds, and
-- one less for a call of `release`.
abbrev pub counted : {S : Type 0} → Pages S → Pages (S × (ℕ → ℕ))
counted pager = record {
  page_size = λ s. pager.page_size s.0;
  page = λ s. pager.page s.0;
  acquire = λ s id.
      let (status, t) = pager.acquire s.0 id in
      (status, (t, λ page. on_ok status (s.1 page + units page id) (s.1 page)));
  mark_dirty = λ s id. (pager.mark_dirty s.0 id, s.1);
  release = λ s id action. (pager.release s.0 id action, λ page. s.1 page - units page id);
  write = λ s id m. (pager.write s.0 id m, s.1);
}

-- `held` is the number of references to `page`, which the calls change.
module _ {S : Type 0} (pager : Pages S) (page_count : S → ℕ) (page : ℕ) (held : S → ℕ)
    (held-acquire : (s : S) (id : ℕ)
      → held (pager.acquire s id).1
        ≡ on_ok (pager.acquire s id).0 (held s + units page id) (held s))
    (held-release : (s : S) (id : ℕ) (action : ReleaseAction)
      → held (pager.release s id action) ≡ held s - units page id)
    (held-mark_dirty : (s : S) (id : ℕ) → held (pager.mark_dirty s id) ≡ held s)
    (held-write : (s : S) (id : ℕ) (m : ℕ → ℕ) → held (pager.write s id m) ≡ held s) where
  release_ref-held :
      (s : S) (o : Option ℕ) (action : ReleaseAction)
      → held (release_ref pager page_count s o action) ≡ held s - ref_units page o
  unfolding release_ref
  release_ref-held s none action = omega arith
  release_ref-held s (some id) action = held-release s id action

  acquired :
      (s : S) (id : ℕ)
      → (pager.acquire s id).0 ≡ Status.ok
      → held (pager.acquire s id).1 ≡ held s + units page id
  unfolding on_ok
  acquired s id e = held-acquire s id ∙ ap (λ t. on_ok t (held s + units page id) (held s)) e

  not_acquired :
      (s : S) (id : ℕ) → is_ok (pager.acquire s id).0 ≡ false → held (pager.acquire s id).1 ≡ held s
  not_acquired s id f = held-acquire s id ∙ failed-not_ok _ f (held s + units page id) (held s)

  update_entry-held :
      (s : S) (map_id offset : ℕ) (entry : Entry)
      → held (update_entry pager s map_id offset entry) ≡ held s
  unfolding update_entry
  update_entry-held s map_id offset entry =
      let m = pager.page s map_id in
      let old = decode_entry m offset in
      let stored = store_entry m offset entry in
      if_lem (λ t. held t ≡ held s) ((entry.back_ptr == old.back_ptr) && (entry.kind == old.kind)) s
        (pager.write (pager.mark_dirty s map_id) map_id stored) (λ _. refl)
        (λ _. held-write _ map_id stored ∙ held-mark_dirty s map_id)

  -- A page that is acquired, written and released again.
  borrow-held :
      (s s1 s2 : S) (id : ℕ) (status : Status)
      → held s1 ≡ on_ok status (held s + units page id) (held s)
      → held s2 ≡ held s1
      → held
          (elim status as (λ _. Status × S) [
            | Status.ok ↦ (Status.ok, pager.release s2 id keep)
            | failed ↦ (failed, s1)
          ]).1
        ≡ held s
  unfolding on_ok
  borrow-held s s1 s2 id Status.ok h g = let r = held-release s2 id keep in omega arith
  borrow-held s s1 s2 id failed h g = h

  write_entry-held :
      (s : S) (page_id : ℕ) (entry : Entry)
      → held (write_entry pager s page_id entry Status.ok).1 ≡ held s
  unfolding write_entry
  write_entry-held s page_id entry =
      let map_id = lookup page_id (pager.page_size s) in
      let (status, s1) = pager.acquire s map_id in
      if_lem (λ (r : Status × S). held r.1 ≡ held s) (has_no_entry map_id page_id) _ _ (λ _. refl)
        (λ _.
          borrow-held s s1 _ map_id status (held-acquire s map_id)
            (update_entry-held s1 map_id _ entry))

  count_page-held : (s : S) → held (count_page pager page_count s) ≡ held s
  unfolding count_page
  count_page-held s = held-write _ 1 _ ∙ held-mark_dirty s 1

  add_cleanup-held :
      (trunk last : Option ℕ) (r : Status × S)
      → held (add_cleanup pager page_count trunk last r).1
        ≡ held r.1 - ref_units page trunk - ref_units page last
  unfolding add_cleanup
  add_cleanup-held trunk last (status, s) =
      let counted = on_ok status (count_page pager page_count s) s in
      let e : held counted ≡ held s =
        on_ok_lem (λ t. held t ≡ held s) status _ s (λ _. count_page-held s) (λ _. refl) in
      release_ref-held _ last _
      ∙ ap (λ n. n - ref_units page last)
          (release_ref-held counted trunk _ ∙ ap (λ n. n - ref_units page trunk) e)

  add_leaf-held :
      (s : S) (trunk page_id : ℕ) → held (add_leaf pager page_count s trunk page_id).1 ≡ held s
  unfolding add_leaf
  add_leaf-held s trunk page_id =
      write_entry-held _ page_id _ ∙ held-write _ trunk _ ∙ held-mark_dirty s trunk

  add_trunk-held :
      (s : S) (head page_id : ℕ)
      → held (add_trunk pager page_count s head page_id).1 ≡ held s - units page page_id
  unfolding add_trunk
  add_trunk-held s head page_id =
      write_entry-held _ page_id _
      ∙ held-release _ page_id _
      ∙ ap (λ n. n - units page page_id)
          (held-write _ page_id _
            ∙ held-mark_dirty _ page_id
            ∙ held-write _ 1 _
            ∙ held-mark_dirty s 1)

  add_to_trunk-held :
      (s : S) (trunk page_id : ℕ)
      → held (add_to_trunk pager page_count s trunk page_id).1
        ≡ held s - units page trunk - units page page_id
  unfolding add_to_trunk
  add_to_trunk-held s trunk page_id =
      let n = get_leaf_count (pager.page s trunk) in
      let trunk_capacity = capacity (pager.page_size s) in
      let Gives : Status × S → Type 0 =
        λ r. held r.1 ≡ held s - units page trunk - units page page_id in
      if_lem Gives (ltb n trunk_capacity) _ _
        (λ _.
          add_cleanup-held (some trunk) (some page_id) _
          ∙ ap (λ h. h - units page trunk - units page page_id) (add_leaf-held s trunk page_id))
        (λ _.
          if_lem Gives (ltb trunk_capacity n) _ _
            (λ _. add_cleanup-held (some trunk) (some page_id) (Status.corruption, s))
            (λ _.
              add_cleanup-held (some trunk) none _
              ∙ (let e = add_trunk-held s trunk page_id in omega arith)))

  add-held :
      (s : S) (page_id : ℕ) → held (add pager page_count s page_id).1 ≡ held s - units page page_id
  unfolding add
  add-held s page_id =
      let free_head = get_freelist_head (pager.page s 1) in
      let (status, s') = pager.acquire s free_head in
      let Gives : Status × S → Type 0 = λ r. held r.1 ≡ held s - units page page_id in
      if_lem Gives (leb page_id first_map_page || ltb (page_count s) page_id) _ _
        (λ _. held-release s page_id _)
        (λ _.
          if_lem Gives (ltb (page_count s) free_head) _ _
            (λ _. add_cleanup-held none (some page_id) (Status.corruption, s) ∙ omega arith)
            (λ _.
              if_lem Gives (free_head == 0) _ _
                (λ _.
                  add_cleanup-held none none _
                  ∙ (let e = add_trunk-held s free_head page_id in omega arith))
                (λ _.
                  on_ok_lem Gives status _ _
                    (λ e.
                      add_to_trunk-held s' free_head page_id
                      ∙ (let a = acquired s free_head e in omega arith))
                    (λ f.
                      add_cleanup-held none (some page_id) (status, s')
                      ∙ (let a = not_acquired s free_head f in omega arith)))))

  -- What a removal does with the references: one more for the page that it gives, and none when it fails.
  abbrev Gives : ℕ → Status × Option ℕ × S → Type 0
  Gives n r = held r.2 ≡ on_ok r.0 (n + ref_units page r.1) n

  remove_cleanup-held :
      (trunk prev : Option ℕ) (r : Status × Option ℕ × S)
      → held (remove_cleanup pager page_count trunk prev r).2
        ≡ held r.2 - ref_units page trunk - ref_units page prev
  unfolding remove_cleanup
  remove_cleanup-held trunk prev (status, out, s) =
      release_ref-held _ prev _ ∙ ap (λ n. n - ref_units page prev) (release_ref-held s trunk _)

  relink-held :
      (s : S) (prev : Option ℕ) (next : ℕ) → held (relink pager page_count s prev next) ≡ held s
  unfolding relink
  relink-held s none next = held-write s 1 _
  relink-held s (some prev) next = held-write _ prev _ ∙ held-mark_dirty s prev

  promote_leaf-held :
      (s : S) (trunk new_id : ℕ)
      → held (promote_leaf pager page_count s trunk new_id) ≡ held s - units page new_id
  unfolding promote_leaf
  promote_leaf-held s trunk new_id =
      held-release _ new_id _
      ∙ ap (λ n. n - units page new_id) (held-write _ new_id _ ∙ held-mark_dirty s new_id)

  -- The trunk and the one before it are held beside `n` references.
  remove_trunk-held :
      (s : S) (trunk : ℕ) (prev : Option ℕ) (n : ℕ)
      → held s ≡ n + units page trunk + ref_units page prev
      → Gives n (remove_trunk pager page_count s trunk prev)
  unfolding remove_trunk remove_cleanup on_ok
  remove_trunk-held s trunk prev n h =
      let s1 = pager.mark_dirty s trunk in
      let d = held-mark_dirty s trunk in
      let m = pager.page s1 trunk in
      let new_id = get_leaf_id m 0 in
      let (status, s2) = pager.acquire s1 new_id in
      if_lem (Gives n) (get_leaf_count m == 0) _ _
        (λ _.
          remove_cleanup-held none prev (Status.ok, some trunk, _)
          ∙ (let r = relink-held s1 prev (get_u32 m 0) in omega arith))
        (λ _.
          if_lem (Gives n) (ltb (page_count s) new_id) _ _
            (λ _.
              remove_cleanup-held (some trunk) prev (Status.corruption, some trunk, s1)
              ∙ omega arith)
            (λ _.
              on_ok_lem (Gives n) status _ _
                (λ e.
                  remove_cleanup-held none prev (Status.ok, some trunk, _)
                  ∙ (let r =
                        relink-held (promote_leaf pager page_count s2 trunk new_id) prev new_id in
                      let q = promote_leaf-held s2 trunk new_id in
                      let a = acquired s1 new_id e in omega arith))
                (λ f.
                  remove_cleanup-held (some trunk) prev (status, some trunk, s2)
                  ∙ (let a = not_acquired s1 new_id f in omega arith)
                  ∙ sym (failed-not_ok status f (n + units page trunk) n))))

  take_leaf-held :
      (s : S) (trunk closest : ℕ) (prev : Option ℕ) (n : ℕ)
      → held s ≡ n + units page trunk + ref_units page prev
      → Gives n (take_leaf pager page_count s trunk closest prev)
  unfolding take_leaf on_ok
  take_leaf-held s trunk closest prev n h =
      let s1 = pager.mark_dirty s trunk in
      let m = pager.page s1 trunk in
      let last = get_leaf_count m - 1 in
      let moved = if ltb closest last then put_leaf_id m closest (get_leaf_id m last) else m in
      let s2 = pager.write s1 trunk (put_leaf_count moved last) in
      let d = held-write s1 trunk (put_leaf_count moved last) ∙ held-mark_dirty s trunk in
      let page_id = get_leaf_id m closest in
      let status = (pager.acquire s2 page_id).0 in
      let s3 = (pager.acquire s2 page_id).1 in
      let taken : Status × Option ℕ × S =
        on_ok status (Status.ok, some page_id, pager.mark_dirty s3 page_id) (status, none, s3) in
      -- With the trunk and the one before it still held.
      let Taken : Status × Option ℕ × S → Type 0 = λ r.
        held r.2 ≡ on_ok r.0 (n + ref_units page r.1) n + units page trunk + ref_units page prev in
      let v : Taken taken =
        on_ok_lem Taken status _ _
          (λ e. let a = acquired s2 page_id e in let k = held-mark_dirty s3 page_id in omega arith)
          (λ f.
            let a = not_acquired s2 page_id f in
            let o = failed-not_ok status f (n + 0) n in omega arith) in
      held-release _ trunk _ ∙ (let r = release_ref-held taken.2 prev keep in omega arith)

  visit_trunk-held :
      (s : S) (search_list : Bool) (nearby max_page trunk : ℕ) (prev : Option ℕ)
      (again : S → Status × Option ℕ × S) (n : ℕ)
      → held s ≡ n + units page trunk + ref_units page prev
      → ((t : S) → held t ≡ n + units page trunk → Gives n (again t))
      → Gives n (visit_trunk pager page_count s search_list nearby max_page trunk prev again)
  unfolding visit_trunk on_ok remove_cleanup
  visit_trunk-held s search_list nearby max_page trunk prev again n h g =
      let m = pager.page s trunk in
      let leaf_count = get_leaf_count m in
      let closest = closest_leaf m nearby leaf_count in
      let page_id = get_leaf_id m closest in
      let dirty = pager.mark_dirty s trunk in
      let next : Gives n (again (release_ref pager page_count s prev keep)) =
        g _ (release_ref-held s prev _ ∙ omega arith) in
      let spoilt : Gives n
          (remove_cleanup pager page_count (some trunk) prev (Status.corruption, none, s)) =
        remove_cleanup-held (some trunk) prev (Status.corruption, none, s) ∙ omega arith in
      if_lem (Gives n) ((leaf_count == 0) && not search_list) _ _
        (λ _.
          remove_cleanup-held none prev (Status.ok, some trunk, _)
          ∙ (let r = relink-held dirty none (get_u32 (pager.page dirty trunk) 0) in
              let k = held-mark_dirty s trunk in omega arith))
        (λ _.
          if_lem (Gives n) (ltb (capacity (pager.page_size s)) leaf_count) _ _ (λ _. spoilt)
            (λ _.
              if_lem (Gives n) (search_list && (nearby == trunk)) _ _
                (λ _. remove_trunk-held s trunk prev n h)
                (λ _.
                  if_lem (Gives n) (leaf_count == 0) _ _ (λ _. next)
                    (λ _.
                      if_lem (Gives n) (ltb page_id first_map_page || ltb max_page page_id) _ _
                        (λ _. spoilt)
                        (λ _.
                          if_lem (Gives n) (search_list && not (page_id == nearby)) _ _ (λ _. next)
                            (λ _. take_leaf-held s trunk closest prev n h))))))

  remove_loop-held :
      (attempts : ℕ) (search_list : Bool) (nearby max_page : ℕ) (prev : Option ℕ) (s : S) (n : ℕ)
      → held s ≡ n + ref_units page prev
      → Gives n (remove_loop pager page_count attempts search_list nearby max_page prev s)
  unfolding remove_loop on_ok remove_cleanup
  remove_loop-held zero search_list nearby max_page prev s n h =
      remove_cleanup-held none prev (Status.corruption, none, s) ∙ omega arith
  remove_loop-held (suc attempts) search_list nearby max_page prev s n h =
      let trunk = trunk_link pager page_count s prev in
      let (status, s') = pager.acquire s trunk in
      if_lem (Gives n) (ltb max_page trunk) _ _
        (λ _. remove_cleanup-held none prev (Status.corruption, none, s) ∙ omega arith)
        (λ _.
          on_ok_lem (Gives n) status _ _
            (λ e.
              visit_trunk-held s' search_list nearby max_page trunk prev _ n
                (let a = acquired s trunk e in omega arith)
                (λ t k. remove_loop-held attempts search_list nearby max_page (some trunk) t n k))
            (λ f.
              remove_cleanup-held none prev (status, none, s')
              ∙ (let a = not_acquired s trunk f in omega arith)
              ∙ sym (failed-not_ok status f (n + 0) n)))

  remove_counted-held :
      (s : S) (search_list : Bool) (nearby : ℕ)
      → Gives (held s) (remove_counted pager page_count s search_list nearby)
  unfolding remove_counted
  remove_counted-held s search_list nearby =
      remove_loop-held _ search_list nearby (page_count s) none _ (held s)
        (held-write _ 1 _ ∙ held-mark_dirty s 1 ∙ omega arith)

  -- The statuses and entries that `read_entry` can give for the page it has read.
  read-held :
      (s s1 : S) (id : ℕ) (status : Status) (spoilt : Bool) (entry entry_out : Entry)
      → held s1 ≡ on_ok status (held s + units page id) (held s)
      → held
          (elim status as (λ _. Status × Entry × S) [
            | Status.ok ↦
                if spoilt
                then (Status.corruption, entry, pager.release s1 id keep)
                else (Status.ok, entry, pager.release s1 id keep)
            | failed ↦ (failed, entry_out, s1)
          ]).2
        ≡ held s
  unfolding on_ok
  read-held s s1 id Status.ok true entry entry_out h =
      let r = held-release s1 id keep in omega arith
  read-held s s1 id Status.ok false entry entry_out h =
      let r = held-release s1 id keep in omega arith
  read-held s s1 id failed spoilt entry entry_out h = h

  read_entry-held :
      (s : S) (page_id : ℕ) (entry_out : Entry)
      → held (read_entry pager s page_id entry_out).2 ≡ held s
  unfolding read_entry
  read_entry-held s page_id entry_out =
      let map_id = lookup page_id (pager.page_size s) in
      let (status, s1) = pager.acquire s map_id in
      let entry = decode_entry (pager.page s1 map_id) (entry_offset map_id page_id) in
      if_lem (λ (r : Status × Entry × S). held r.2 ≡ held s) (has_no_entry map_id page_id) _ _
        (λ _. refl)
        (λ _.
          read-held s s1 map_id status
            ((entry.kind == invalid_page) || leb page_type_count entry.kind) entry entry_out
            (held-acquire s map_id))

  find_nearby-held : (s : S) (nearby : ℕ) → Gives (held s) (find_nearby pager page_count s nearby)
  unfolding find_nearby
  find_nearby-held s nearby =
      let blank : Entry = record { back_ptr = 0; kind = 0 } in
      let status = (read_entry pager s nearby blank).0 in
      let s' = (read_entry pager s nearby blank).2 in
      let listed = (read_entry pager s nearby blank).1.kind == freelist_page in
      let e : held s' ≡ held s = read_entry-held s nearby blank in
      on_ok_lem (Gives (held s)) status _ _
        (λ _.
          subst (λ n. Gives n (remove_counted pager page_count s' listed nearby)) e
            (remove_counted-held s' listed nearby))
        (λ f. e ∙ sym (failed-not_ok status f (held s + 0) (held s)))

  remove-held :
      (s : S) (kind : RemoveType) (nearby : ℕ)
      → held (remove pager page_count s kind nearby).2
        ≡ on_ok
            (remove pager page_count s kind nearby).0
            (held s + ref_units page (remove pager page_count s kind nearby).1)
            (held s)
  unfolding remove on_ok
  remove-held s kind nearby =
      let free_count = get_freelist_length (pager.page s 1) in
      let none_left : Gives (held s) (Status.ok, none, s) = omega arith in
      if_lem (Gives (held s)) (leb (page_count s) free_count) _ _ (λ _. refl)
        (λ _.
          if_lem (Gives (held s)) (free_count == 0) _ _ (λ _. none_left)
            (λ _.
              if_lem (Gives (held s)) (is_exact pager page_count kind && leb nearby (page_count s))
                _ _ (λ _. find_nearby-held s nearby) (λ _. remove_counted-held s false nearby)))

-- Whatever the pager does, by the calls of `acquire` that succeed and of `release`, for each page: adding a page, on every
-- path and errors included, gives back the one reference to it that the caller has held, and each one that has been taken
-- on the way; removing gives back each reference that it has taken but one to the page that it gives, when it succeeds with
-- one.
pub add-remove :
    {S : Type 0} (pager : Pages S) (page_count : S → ℕ) (page : ℕ)
    → ((s : S × (ℕ → ℕ)) (page_id : ℕ)
        → (add (counted pager) (λ t. page_count t.0) s page_id).1.1 page
          ≡ s.1 page - units page page_id)
      × ((s : S × (ℕ → ℕ)) (kind : RemoveType) (nearby : ℕ)
          → (remove (counted pager) (λ t. page_count t.0) s kind nearby).2.1 page
            ≡ on_ok
                (remove (counted pager) (λ t. page_count t.0) s kind nearby).0
                (s.1 page
                  + ref_units page (remove (counted pager) (λ t. page_count t.0) s kind nearby).1)
                (s.1 page))
add-remove pager page_count page = (
  add-held (counted pager) (λ t. page_count t.0) page (λ t. t.1 page) (λ s id. refl)
      (λ s id action. refl) (λ s id. refl) (λ s id m. refl),
  remove-held (counted pager) (λ t. page_count t.0) page (λ t. t.1 page) (λ s id. refl)
      (λ s id action. refl) (λ s id. refl) (λ s id m. refl),
)
