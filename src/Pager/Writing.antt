-- ===== src/Pager/Writing.antt =====
-- What the operations that change pages keep of the pager's state.
use cub_db.Common.{ℕ, ◌<◌, ◌≡◌, refl, ap, leb, arith, true, if_lem}
use cub_db.Bytes.{Bytes}
use cub_db.Pager.State.{
  Mode, k_open, k_read, k_write, k_dirty, k_error, rank, Pager, at_least, ref_at, set_dirty,
  dirtylist_add, set_bufmgr, dirty_mode, set_page, set_page_id, register_page, mark_dirty,
  move_page, initialize_root,
}
use cub_db.Bufmgr.Cache.{Bufmgr, without}
use cub_db.Bufmgr.Cache
use cub_db.Bufmgr.Known.{set_ref-Known, register_page-Known}
use cub_db.Bufmgr.Flags.{set_ref-Keeps, register_page-Keeps, erase-Keeps}
use cub_db.Pager.Invariant.{
  is_error, IsValid, fresh, if-IsValid, erase-IsValid, set_bufmgr-IsValid, dirtylist_add-Valid,
}

pub dirty_mode-is_error : (m : Mode) → is_error (dirty_mode m) ≡ is_error m
unfolding dirty_mode
dirty_mode-is_error k_open = refl
dirty_mode-is_error k_read = refl
dirty_mode-is_error k_write = refl
dirty_mode-is_error k_dirty = refl
dirty_mode-is_error k_error = refl

dirty_mode-le :
    (m : Mode)
    → leb (rank k_write) (rank m) ≡ true
    → leb (rank k_dirty) (rank (dirty_mode m)) ≡ true
unfolding dirty_mode rank
dirty_mode-le k_open h = absurd (cc h)
dirty_mode-le k_read h = absurd (cc h)
dirty_mode-le k_write h = refl
dirty_mode-le k_dirty h = refl
dirty_mode-le k_error h = refl

module _ {W : Type 0} where
  pub register_page-IsValid :
      (p : Pager W) (a : ℕ) → a < fresh p → IsValid p → IsValid (register_page p a)
  unfolding register_page
  register_page-IsValid p a lt h =
      set_bufmgr-IsValid p _ (register_page-Keeps p.bufmgr a)
        (register_page-Known p.bufmgr a h.known lt) h

  pub register_page-fresh : (p : Pager W) (a : ℕ) → fresh (register_page p a) ≡ fresh p
  unfolding register_page set_bufmgr
  register_page-fresh p a = (register_page-Keeps p.bufmgr a).1

  pub set_page-IsValid :
      (p : Pager W) (a : ℕ) (page : Bytes) → IsValid p → IsValid (set_page p a page)
  unfolding set_page
  set_page-IsValid p a page h =
      set_bufmgr-IsValid p _ (set_ref-Keeps p.bufmgr a _ refl) (set_ref-Known p.bufmgr a _ h.known)
        h

  pub set_page_id-IsValid :
      (p : Pager W) (a page_id : ℕ) → IsValid p → IsValid (set_page_id p a page_id)
  unfolding set_page_id
  set_page_id-IsValid p a page_id h =
      set_bufmgr-IsValid p _ (set_ref-Keeps p.bufmgr a _ refl) (set_ref-Known p.bufmgr a _ h.known)
        h

  pub set_page_id-fresh : (p : Pager W) (a page_id : ℕ) → fresh (set_page_id p a page_id) ≡ fresh p
  unfolding set_page_id set_bufmgr Cache.set_ref
  set_page_id-fresh p a page_id = refl

  pub mark_dirty-IsValid :
      (p : Pager W) (a : ℕ)
      → at_least p k_write ≡ true
      → a < fresh p
      → IsValid p
      → IsValid (mark_dirty p a)
  unfolding mark_dirty dirtylist_add set_dirty Cache.set_ref
  mark_dirty-IsValid p a w lt h =
      let p' = record (dirtylist_add p a) { mode = dirty_mode p.mode } in
      let v : IsValid p' =
        dirtylist_add-Valid p a (dirty_mode p.mode) lt h (dirty_mode-is_error p.mode)
          (dirty_mode-le p.mode w) in
      if-IsValid (ref_at p a).dirty p _ h
        (if-IsValid (ref_at p a).cached p' _ v (register_page-IsValid p' a lt v))

  pub mark_dirty-mode : (p : Pager W) (a : ℕ) → p.mode ≡ k_dirty → (mark_dirty p a).mode ≡ k_dirty
  unfolding mark_dirty dirtylist_add set_dirty register_page set_bufmgr dirty_mode
  mark_dirty-mode p a e =
      let IsDirty : Pager W → Type 0 = λ q. q.mode ≡ k_dirty in
      let marked = ap dirty_mode e in
      if_lem IsDirty (ref_at p a).dirty p _ (λ _. e)
        (λ _. if_lem IsDirty (ref_at p a).cached _ _ (λ _. marked) (λ _. marked))

  pub mark_dirty-fresh : (p : Pager W) (a : ℕ) → fresh (mark_dirty p a) ≡ fresh p
  unfolding mark_dirty dirtylist_add set_dirty Cache.set_ref
  mark_dirty-fresh p a =
      let Same : Pager W → Type 0 = λ q. fresh q ≡ fresh p in
      let p' = record (dirtylist_add p a) { mode = dirty_mode p.mode } in
      if_lem Same (ref_at p a).dirty p _ (λ _. refl)
        (λ _. if_lem Same (ref_at p a).cached p' _ (λ _. refl) (λ _. register_page-fresh p' a))

  pub move_page-IsValid :
      (p : Pager W) (a destination : ℕ)
      → at_least p k_write ≡ true
      → a < fresh p
      → IsValid p
      → IsValid (move_page p a destination)
  unfolding move_page set_page_id set_bufmgr
  move_page-IsValid p a destination w lt h =
      let erased = set_bufmgr p (Cache.erase p.bufmgr a) in
      let moved = set_page_id erased a destination in
      let v = set_page_id-IsValid erased a destination (erase-IsValid p a lt h) in
      let e = set_page_id-fresh erased a destination in
      let f = (erase-Keeps p.bufmgr a).1 in
      let lt' : a < fresh moved = omega arith in
      if-IsValid (ref_at p a).dirty (register_page moved a) _ (register_page-IsValid moved a lt' v)
        (mark_dirty-IsValid moved a w lt' v)

  pub initialize_root-IsValid :
      (p : Pager W) → at_least p k_write ≡ true → IsValid p → IsValid (initialize_root p)
  unfolding initialize_root
  initialize_root-IsValid p w h =
      set_page-IsValid _ _ _
        (mark_dirty-IsValid (record p { page_count = 1 }) p.bufmgr.root w h.known.root h)
