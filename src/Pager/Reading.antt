-- ===== src/Pager/Reading.antt =====
-- What the reading of pages, and the finding of buffers for them, keep of the pager's state.
use cub_db.Common.{
  ℕ, ◌<◌, ◌≡◌, sym, ◌∙◌, ltb, ◌==◌, ◌||◌, arith, Bool, true, [], ◌∷◌, Option, none, some,
  if◌then◌else◌, if_lem,
}
use cub_db.Bytes.{Bytes}
use cub_db.Pager.{Status}
use cub_db.Pager.State.{
  k_write, rank, Pager, at_least, ref_at, set_status, set_dirty, dirtylist_remove, set_bufmgr,
  set_page, set_page_id, register_page, Storage, wal_page, dirty_hdr,
}
use cub_db.Bufmgr.Cache.{Bufmgr, without}
use cub_db.Bufmgr.Cache
use cub_db.Bufmgr.Known.{ref-Known, allocate-Known, allocate-fresh, next_victim-Known, lookup-Known}
use cub_db.Bufmgr.Bounds.{OptionBelow}
use cub_db.Bufmgr.Flags.{flag, erase-Keeps, ref-Keeps, lookup-Keeps, allocate-flag}
use cub_db.Pager.Invariant.{
  IsValid, fresh, erase-IsValid, set_bufmgr-IsValid, dirtylist_remove-IsValid, set_status-IsValid,
}
use cub_db.Pager.Writing.{
  register_page-IsValid, register_page-fresh, set_page-IsValid, set_page_id-IsValid,
  mark_dirty-IsValid,
}
use cub_db.Pager.Committing.{on_ok_lem}
use cub_db.Pager.Buffers.{
  Result, add_ref, erase_cached, read_failed, read_page_from_file, wal_answer, read_page, victim_or,
  next_buffer, write_victim, evict, ensure_available_buffer, use_buffer, get_unused_page,
  max_page_count, set_new_page, allocate, load, fetch, acquire,
}
use cub_db.Pager.Releasing.{
  then_ok_lem, OptionBelow-eq, suc-le, set_status-fresh, set_status-at_least, OptionHas,
}

-- A valid state with a writer or without one, as `writes` says.
module _ {W : Type 0} (writes : Bool) where
  abbrev pub Kept : Pager W → Type 0
  Kept p = IsValid p × (at_least p k_write ≡ writes)

  -- Such a state in which `a` is a reference.
  abbrev pub Has : ℕ → Pager W → Type 0
  Has a p = Kept p × (a < fresh p)

  pub set_status-Has : (p : Pager W) (a : ℕ) (e : Status) → Has a p → Has a (set_status p e)
  set_status-Has p a e ((h, w), lt) =
      let f = set_status-fresh p e in
      ((set_status-IsValid p e h, set_status-at_least p e ∙ w), omega arith)

  read_failed-Has : (p : Pager W) (a : ℕ) (e : Status) → Has a p → Has a (read_failed p a e)
  unfolding read_failed set_bufmgr
  read_failed-Has p a e ((h, w), lt) =
      let erased = set_bufmgr p (Cache.erase p.bufmgr a) in
      let v : IsValid erased = erase-IsValid p a lt h in
      let f = (erase-Keeps p.bufmgr a).1 in
      let g : Has a erased = ((v, w), omega arith) in
      if_lem (Has a) (ltb 1 (rank p.mode)) (set_status erased e) erased
        (λ _. set_status-Has erased a e g) (λ _. g)

  set_page-Has : (p : Pager W) (a : ℕ) (page : Bytes) → Has a p → Has a (set_page p a page)
  unfolding set_page set_bufmgr Cache.set_ref
  set_page-Has p a page ((h, w), lt) = ((set_page-IsValid p a page h, w), lt)

  add_ref-Has : (p : Pager W) (a : ℕ) → Has a p → Has a (add_ref p a)
  unfolding add_ref set_bufmgr
  add_ref-Has p a ((h, w), lt) =
      let v = set_bufmgr-IsValid p _ (ref-Keeps p.bufmgr a) (ref-Known p.bufmgr a h.known) h in
      let f = (ref-Keeps p.bufmgr a).1 in ((v, w), omega arith)

  erase_cached-Kept : (p : Pager W) (a : ℕ) → Has a p → Kept (erase_cached p a)
  unfolding erase_cached set_bufmgr
  erase_cached-Kept p a ((h, w), lt) =
      if_lem Kept (ref_at p a).cached _ p (λ _. (erase-IsValid p a lt h, w)) (λ _. (h, w))

  dirtylist_remove-Has : (p : Pager W) (a : ℕ) → Has a p → Has a (dirtylist_remove p a)
  unfolding dirtylist_remove set_dirty Cache.set_ref
  dirtylist_remove-Has p a ((h, w), lt) = ((dirtylist_remove-IsValid p a h, w), lt)

  register_page-Has :
      (p : Pager W) (a page_id : ℕ) → Has a p → Has a (register_page (set_page_id p a page_id) a)
  unfolding register_page set_page_id set_bufmgr Cache.set_ref
  register_page-Has p a page_id ((h, w), lt) =
      let q = set_page_id p a page_id in
      let v = register_page-IsValid q a lt (set_page_id-IsValid p a page_id h) in
      let f = register_page-fresh q a in ((v, w), omega arith)

  module _ (st : Storage W) where
    abbrev Read : {A : Type 0} → ℕ → Result A W → Type 0
    Read a r = Has a r.2

    read_page_from_file-Has : (p : Pager W) (a : ℕ) → Has a p → Read a (read_page_from_file st p a)
    unfolding read_page_from_file
    read_page_from_file-Has p a h = on_ok_lem (Read a) _ _ _ (λ _. set_page-Has _ a _ h) (λ _. h)

    wal_answer-Has :
        (p : Pager W) (a : ℕ) (got : Status × Option Bytes × W)
        → Has a p
        → Read a (wal_answer st p a got)
    unfolding wal_answer
    wal_answer-Has p a (s, some page, w) h =
        on_ok_lem (Read a) s _ _ (λ _. set_page-Has (record p { storage = w }) a page h) (λ _. h)
    wal_answer-Has p a (s, none, w) h =
        on_ok_lem (Read a) s _ _ (λ _. read_page_from_file-Has (record p { storage = w }) a h)
          (λ _. h)

    pub read_page-Has : (p : Pager W) (a : ℕ) → Has a p → Read a (read_page st p a)
    unfolding read_page
    read_page-Has p a h =
        let v = wal_answer-Has p a _ h in
        on_ok_lem (Read a) _ _ _ (λ _. v) (λ _. read_failed-Has _ a _ v)

    abbrev pub Buffer : Result (Option ℕ) W → Type 0
    Buffer r = Kept r.2 × OptionHas r.1 r.2

    allocated-IsValid :
        (p : Pager W)
        → IsValid p
        → IsValid (set_bufmgr p (Cache.allocate p.bufmgr (st.backing p.storage 0)).1)
    unfolding set_bufmgr Cache.allocate Cache.add_buffer
    allocated-IsValid p h =
        let page = st.backing p.storage 0 in
        let b = (Cache.allocate p.bufmgr page).1 in
        let f : (x : ℕ) → flag b x ≡ flag p.bufmgr x =
          λ x. allocate-flag p.bufmgr page x (h.unused (fresh p) (omega arith)) in
        record {
          reported = h.reported;
          clean = h.clean;
          flags = λ x. f x ∙ h.flags x;
          unused = λ x le. f x ∙ h.unused x (suc-le (fresh p) x le);
          known = allocate-Known p.bufmgr page h.known;
        }

    victim_or-Buffer :
        (o : Option ℕ) (p : Pager W) (r : Result (Option ℕ) W)
        → Kept p
        → OptionHas o p
        → Buffer r
        → Buffer (victim_or st o p r)
    unfolding victim_or
    victim_or-Buffer none p r h lt g = g
    victim_or-Buffer (some a) p r h lt g = (h, lt)

    next_buffer-Buffer : (p : Pager W) → Kept p → Buffer (next_buffer st p)
    unfolding next_buffer set_bufmgr
    next_buffer-Buffer p (h, w) =
        let e = allocate-fresh p.bufmgr (st.backing p.storage 0) in
        victim_or-Buffer (Cache.next_victim p.bufmgr) p _ (h, w)
          (next_victim-Known p.bufmgr h.known)
          (if_lem Buffer (st.granted p.storage 0) _ _
            (λ _. ((allocated-IsValid p h, w), omega arith)) (λ _. ((h, w), tt)))

    write_victim-Has : (p : Pager W) (a : ℕ) → Has a p → Has a (write_victim st p a).1
    unfolding write_victim
    write_victim-Has p a h =
        let page = wal_page p (dirty_hdr p a) in
        let w = (st.wal_write p.storage (page ∷ []) p.page_size 0).1 in
        let p' = record p { storage = w } in
        on_ok_lem (λ (r : Status × Pager W). Has a r.1) _ _ _ (λ _. dirtylist_remove-Has p' a h)
          (λ _. set_status-Has p' a _ h)

    evict-Kept : (o : Option ℕ) (p : Pager W) → Kept p → OptionHas o p → Kept (evict st o p).1
    unfolding evict
    evict-Kept none p h lt = h
    evict-Kept (some a) p h lt =
        let Good : Status × Pager W → Type 0 = λ r. Has a r.1 in
        let written = write_victim st p a in
        let v : Has a (if (ref_at p a).dirty then written else (Status.ok, p)).1 =
          if_lem Good (ref_at p a).dirty written (Status.ok, p) (λ _. write_victim-Has p a (h, lt))
            (λ _. (h, lt)) in
        then_ok_lem Kept _ _ (erase_cached-Kept _ a v) v.0

    pub ensure_available_buffer-Kept :
        (p : Pager W) → Kept p → Kept (ensure_available_buffer st p).1
    unfolding ensure_available_buffer
    ensure_available_buffer-Kept p h =
        let (v, lt) = next_buffer-Buffer p h in
        on_ok_lem (λ (r : Status × Pager W). Kept r.1) _ _ _ (λ _. evict-Kept _ _ v lt) (λ _. v)

    abbrev Given : Status × Option ℕ × Pager W → Type 0
    Given r = Kept r.2 × OptionHas r.1 r.2

    load-Given :
        (o : Option ℕ) (page_id : ℕ) (p : Pager W)
        → Kept p
        → OptionHas o p
        → Given (load st o page_id p)
    unfolding load
    load-Given none page_id p h lt = (h, tt)
    load-Given (some a) page_id p h lt =
        let v = read_page-Has _ a (register_page-Has p a page_id (h, lt)) in
        on_ok_lem Given _ _ _ (λ _. add_ref-Has _ a v) (λ _. (v.0, tt))

    fetch-Given :
        (page_id : ℕ) (found : Option ℕ × Bufmgr) (p : Pager W)
        → Kept (set_bufmgr p found.1)
        → OptionBelow found.1.fresh found.0
        → Given (fetch st page_id found p)
    unfolding fetch set_bufmgr
    fetch-Given page_id (some a, b) p h lt = add_ref-Has _ a (h, lt)
    fetch-Given page_id (none, b) p h lt =
        let v = ensure_available_buffer-Kept (set_bufmgr p b) h in
        on_ok_lem Given _ _ _ (λ _. load-Given _ page_id _ v (next_victim-Known _ v.0.known))
          (λ _. (v, tt))

    pub acquire-Given : (p : Pager W) (page_id : ℕ) → Kept p → Given (acquire st p page_id)
    unfolding acquire set_bufmgr
    acquire-Given p page_id (h, w) =
        let b = p.bufmgr in
        let (k, lt) = lookup-Known b page_id h.known in
        let e = lookup-Keeps b page_id in
        let v : IsValid (set_bufmgr p (Cache.lookup b page_id).1) = set_bufmgr-IsValid p _ e k h in
        if_lem Given ((page_id == 0) || ltb p.page_count page_id) _ _ (λ _. ((h, w), tt))
          (λ _.
            if_lem Given (page_id == 1) _ _ (λ _. ((h, w), h.known.root))
              (λ _.
                fetch-Given page_id (Cache.lookup b page_id) p (v, w)
                  (OptionBelow-eq b.fresh _ _ (sym e.1) lt)))

    use_buffer-Given :
        (o : Option ℕ) (p : Pager W) → Kept p → OptionHas o p → Given (use_buffer st o p)
    unfolding use_buffer
    use_buffer-Given none p h lt = (h, tt)
    use_buffer-Given (some a) p h lt =
        let v = add_ref-Has p a (h, lt) in
        if_lem (Has a) ((ref_at (add_ref p a) a).page_id == 0) _ _ (λ _. set_page-Has _ a _ v)
          (λ _. v)

    pub get_unused_page-Given : (p : Pager W) → Kept p → Given (get_unused_page st p)
    unfolding get_unused_page
    get_unused_page-Given p h =
        let v = ensure_available_buffer-Kept p h in
        on_ok_lem Given _ _ _ (λ _. use_buffer-Given _ _ v (next_victim-Known _ v.0.known))
          (λ _. (v, tt))

module _ {W : Type 0} (st : Storage W) where
  set_new_page-IsValid :
      (page_id : ℕ) (o : Option ℕ) (p : Pager W)
      → Kept true p
      → OptionHas o p
      → IsValid (set_new_page st page_id o p)
  unfolding set_new_page set_page_id register_page set_bufmgr Cache.set_ref
  set_new_page-IsValid page_id none p h lt = h.0
  set_new_page-IsValid page_id (some a) p h lt =
      let ((v, w), lt') = register_page-Has true p a page_id (h, lt) in
      mark_dirty-IsValid _ a w lt' v

  pub allocate-IsValid :
      (p : Pager W) → IsValid p → at_least p k_write ≡ true → IsValid (allocate st p).2
  unfolding allocate
  allocate-IsValid p h w =
      let Good : Status × Option ℕ × Pager W → Type 0 = λ r. IsValid r.2 in
      let (v, lt) = get_unused_page-Given true st p (h, w) in
      if_lem Good (p.page_count == max_page_count st) _ _ (λ _. h)
        (λ _. on_ok_lem Good _ _ _ (λ _. set_new_page-IsValid _ _ _ v lt) (λ _. v.0))
