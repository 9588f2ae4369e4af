-- ===== src/Pager/Invariant.antt =====
-- The state that `Pager::assert_state` checks, with the flags of the dirty pages: what the operations on pages keep.
use cub_db.Common.{
  ℕ, zero, suc, ◌+◌, ◌-◌, ◌≤◌, ◌<◌, ◌≡◌, refl, sym, ap, ◌∙◌, ltb, leb, ◌==◌, ◌&&◌, ◌||◌, arith,
  Bool, true, false, List, [], ◌∷◌, Option, none, some, if◌then◌else◌, Bool-cases, inl, inr, if_lem,
  and-true, ltb→lt,
}
use cub_db.Pager.{Status}
use cub_db.Pager.State.{
  Mode, k_write, k_dirty, k_error, rank, is_ok, Pager, is_fatal, at_least, ref_at, set_status,
  set_dirty, dirtylist_add, dirtylist_remove, set_bufmgr, remove_dirty, purge_page, purge_found,
  undo_callback, undo_all, truncate_loop, set_page_count,
}
use cub_db.Bufmgr.Cache.{Bufmgr, without}
use cub_db.Bufmgr.Cache
use cub_db.Bufmgr.Known.{Known, set_ref-Known, erase-Known, query-Known}
use cub_db.Bufmgr.Bounds.{OptionBelow}
use cub_db.Bufmgr.Flags.{flag, Keeps, erase-Keeps}

abbrev pub mem : ℕ → List ℕ → Bool
mem a [] = false
mem a (x ∷ l) = (x == a) || mem a l

abbrev pub is_error : Mode → Bool
is_error k_error = true
is_error other = false

abbrev pub not : Bool → Bool
not true = false
not false = true

-- There is an error exactly in the error mode, and without unwritten changes nothing is dirty. The list of dirty pages
-- holds the references with the flag, and nothing has an address that has not been given out.
pub record Valid (m : Mode) (s : Status) (l : List ℕ) (b : Bufmgr) : Type 0 where
  pub reported : is_ok s ≡ not (is_error m)
  pub clean : leb (rank k_dirty) (rank m) ≡ false → l ≡ []
  pub flags : (a : ℕ) → flag b a ≡ mem a l
  pub unused : (a : ℕ) → b.fresh ≤ a → flag b a ≡ false
  pub known : Known b

abbrev pub IsValid : {W : Type 0} → Pager W → Type 0
IsValid p = Valid p.mode p.status p.dirtylist p.bufmgr

pub Valid-Keeps :
    (m : Mode) (s : Status) (l : List ℕ) (b b' : Bufmgr)
    → Keeps b b'
    → Known b'
    → Valid m s l b
    → Valid m s l b'
Valid-Keeps m s l b b' (f, e) k h = record {
  reported = h.reported;
  clean = h.clean;
  flags = λ a. f a ∙ h.flags a;
  unused = λ a le. f a ∙ h.unused a (omega arith);
  known = k;
}

pub not_and : (c d e : Bool) → (not c && (not d && e)) ≡ (not (d || c) && e)
not_and true true e = refl
not_and true false e = refl
not_and false true e = refl
not_and false false e = refl

pub mem-without : (x a : ℕ) (l : List ℕ) → mem x (without a l) ≡ (not (a == x) && mem x l)
unfolding without
mem-without x a [] = ground arith
mem-without x a (y ∷ l) = let ih = mem-without x a l in ground arith

pub fatal-is_ok : (e : Status) → is_fatal e ≡ true → is_ok e ≡ false
unfolding is_fatal is_ok
fatal-is_ok Status.ok h = absurd (cc h)
fatal-is_ok Status.invalid_argument h = refl
fatal-is_ok Status.io_error h = refl
fatal-is_ok Status.not_supported h = refl
fatal-is_ok Status.corruption h = refl
fatal-is_ok Status.not_found h = refl
fatal-is_ok Status.busy h = refl
fatal-is_ok Status.aborted h = refl

module _ {W : Type 0} where
  abbrev pub fresh : Pager W → ℕ
  fresh p = p.bufmgr.fresh

  -- A buffer manager that keeps the flags.
  pub set_bufmgr-IsValid :
      (p : Pager W) (b : Bufmgr) → Keeps p.bufmgr b → Known b → IsValid p → IsValid (set_bufmgr p b)
  unfolding set_bufmgr
  set_bufmgr-IsValid p b k g h = Valid-Keeps p.mode p.status p.dirtylist p.bufmgr b k g h

  pub if-IsValid : (t : Bool) (p q : Pager W) → IsValid p → IsValid q → IsValid (if t then p else q)
  if-IsValid true p q h g = h
  if-IsValid false p q h g = g

  pub set_status-IsValid : (p : Pager W) (e : Status) → IsValid p → IsValid (set_status p e)
  unfolding set_status is_ok is_fatal rank
  set_status-IsValid p e h =
      let p' = record p { status = e; mode = k_error } in
      if_lem IsValid (is_ok p.status && (at_least p k_write && is_fatal e)) p' p
        (λ t. record {
          reported = fatal-is_ok e (and-true _ _ (and-true _ _ t).1).1;
          clean = λ c. absurd (cc c);
          flags = h.flags;
          unused = h.unused;
          known = h.known;
        })
        (λ _. h)

  pub dirtylist_remove-IsValid : (p : Pager W) (a : ℕ) → IsValid p → IsValid (dirtylist_remove p a)
  unfolding dirtylist_remove set_dirty Cache.set_ref without
  dirtylist_remove-IsValid p a h = record {
    reported = h.reported;
    clean = λ e. ap (without a) (h.clean e);
    flags = λ x. let f = h.flags x in let g = mem-without x a p.dirtylist in ground arith;
    unused = λ x le. let f = h.unused x le in ground arith;
    known = set_ref-Known p.bufmgr a _ h.known;
  }

  pub dirtylist_add-Valid :
      (p : Pager W) (a : ℕ) (m : Mode)
      → a < fresh p
      → IsValid p
      → is_error m ≡ is_error p.mode
      → leb (rank k_dirty) (rank m) ≡ true
      → Valid m p.status (dirtylist_add p a).dirtylist (dirtylist_add p a).bufmgr
  unfolding dirtylist_add set_dirty Cache.set_ref
  dirtylist_add-Valid p a m lt h e at = record {
    reported = h.reported ∙ ap not (sym e);
    clean = λ c. absurd (cc (c, at));
    flags = λ x. let f = h.flags x in ground arith;
    unused = λ x le. let f = h.unused x le in ground arith;
    known = set_ref-Known p.bufmgr a _ h.known;
  }

  remove_dirty-IsValid : (p : Pager W) (a : ℕ) → IsValid p → IsValid (remove_dirty p a)
  unfolding remove_dirty
  remove_dirty-IsValid p a h =
      if-IsValid (ref_at p a).dirty (dirtylist_remove p a) p (dirtylist_remove-IsValid p a h) h

  pub erase-IsValid :
      (p : Pager W) (a : ℕ)
      → a < fresh p
      → IsValid p
      → IsValid (set_bufmgr p (Cache.erase p.bufmgr a))
  erase-IsValid p a lt h =
      set_bufmgr-IsValid p _ (erase-Keeps p.bufmgr a) (erase-Known p.bufmgr a h.known lt) h

  remove_dirty-fresh : (p : Pager W) (a : ℕ) → fresh (remove_dirty p a) ≡ fresh p
  unfolding remove_dirty dirtylist_remove set_dirty Cache.set_ref
  remove_dirty-fresh p a =
      if_lem (λ q. fresh q ≡ fresh p) (ref_at p a).dirty (dirtylist_remove p a) p (λ _. refl)
        (λ _. refl)

  pub purge_page-IsValid :
      (p : Pager W) (a : ℕ) → a < fresh p → IsValid p → IsValid (purge_page p a)
  unfolding purge_page
  purge_page-IsValid p a lt h =
      let e = remove_dirty-fresh p a in
      erase-IsValid (remove_dirty p a) a (omega arith) (remove_dirty-IsValid p a h)

  pub purge_page-fresh : (p : Pager W) (a : ℕ) → fresh (purge_page p a) ≡ fresh p
  unfolding purge_page set_bufmgr
  purge_page-fresh p a = (erase-Keeps (remove_dirty p a).bufmgr a).1 ∙ remove_dirty-fresh p a

  -- What is in the list is known.
  pub mem-fresh : (p : Pager W) (a : ℕ) → IsValid p → mem a p.dirtylist ≡ true → a < fresh p
  mem-fresh p a h e = elim (Bool-cases (ltb a (fresh p))) [
    | inl t ↦ ltb→lt a (fresh p) t
    | inr f ↦ absurd (cc (h.unused a (ground arith), h.flags a, e))
  ]

  purge_found-IsValid :
      (p : Pager W) (o : Option ℕ) → OptionBelow (fresh p) o → IsValid p → IsValid (purge_found p o)
  unfolding purge_found
  purge_found-IsValid p none lt h = h
  purge_found-IsValid p (some a) lt h = purge_page-IsValid p a lt h

  undo_callback-IsValid :
      (p : Pager W) (page_id : ℕ) → IsValid p → IsValid (undo_callback p page_id)
  unfolding undo_callback
  undo_callback-IsValid p page_id h =
      if-IsValid (page_id == 1) p _ h
        (purge_found-IsValid p _ (query-Known p.bufmgr page_id h.known) h)

  pub undo_all-IsValid : (l : List ℕ) (p : Pager W) → IsValid p → IsValid (undo_all l p)
  unfolding undo_all
  undo_all-IsValid [] p h = h
  undo_all-IsValid (a ∷ l) p h = undo_all-IsValid l _ (undo_callback-IsValid p a h)

  truncate_loop-IsValid :
      (count i : ℕ) (p : Pager W) → IsValid p → IsValid (truncate_loop count i p)
  unfolding truncate_loop
  truncate_loop-IsValid zero i p h = h
  truncate_loop-IsValid (suc count) i p h =
      truncate_loop-IsValid count (i + 1) _
        (purge_found-IsValid p _ (query-Known p.bufmgr (i + 1) h.known) h)

  pub set_page_count-IsValid :
      (p : Pager W) (page_count : ℕ) → IsValid p → IsValid (set_page_count p page_count)
  unfolding set_page_count
  set_page_count-IsValid p page_count h =
      truncate_loop-IsValid (p.page_count - page_count) page_count p h
