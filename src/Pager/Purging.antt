-- ===== src/Pager/Purging.antt =====
-- The loops of the pager over its dirty pages leave none.
use cub_db.Common.{
  ℕ, ◌<◌, ◌≡◌, refl, sym, ap, ◌∙◌, leb, ◌==◌, ◌&&◌, ◌||◌, arith, Bool, true, false, List, [], ◌∷◌,
  if◌then◌else◌, Bool-cases, inl, inr, if_lem, beq→eq,
}
use cub_db.Pager.State.{
  Pager, ref_at, set_dirty, dirtylist_remove, set_bufmgr, remove_dirty, purge_page, purge_dirty,
  purge_pages, flush_loop,
}
use cub_db.Bufmgr.Cache.{Bufmgr, without}
use cub_db.Bufmgr.Cache
use cub_db.Bufmgr.Known.{Known, set_ref-Known, purge-Known}
use cub_db.Bufmgr.Flags.{flag, AllClean, purge-AllClean}
use cub_db.Pager.Invariant.{
  mem, not, IsValid, fresh, mem-without, not_and, mem-fresh, purge_page-IsValid, purge_page-fresh,
}

not_and_or : (c d e : Bool) → (not c && (not (d || false) && e)) ≡ (not (d || c) && e)
not_and_or true true e = refl
not_and_or true false e = refl
not_and_or false true e = refl
not_and_or false false e = refl

pub not_and_self : (c : Bool) → (not c && c) ≡ false
not_and_self true = refl
not_and_self false = refl

no_mem : (l : List ℕ) → ((x : ℕ) → mem x l ≡ false) → l ≡ []
no_mem [] h = refl
no_mem (a ∷ l) h = let e = h a in absurd (ground arith)

module _ {W : Type 0} where
  purge_page-mem :
      (p : Pager W) (a x : ℕ)
      → IsValid p
      → mem x (purge_page p a).dirtylist ≡ (not (a == x) && mem x p.dirtylist)
  unfolding purge_page remove_dirty set_bufmgr dirtylist_remove
  purge_page-mem p a x h =
      if_lem (λ q. mem x q.dirtylist ≡ (not (a == x) && mem x p.dirtylist)) (ref_at p a).dirty
        (dirtylist_remove p a) p (λ t. mem-without x a p.dirtylist) (λ f. not_mem p a x h f)
    where
      not_mem :
          (p : Pager W) (a x : ℕ)
          → IsValid p
          → flag p.bufmgr a ≡ false
          → mem x p.dirtylist ≡ (not (a == x) && mem x p.dirtylist)
      not_mem p a x h f =
          let g = h.flags a in
          elim (Bool-cases (a == x)) [
            | inl t ↦ rw t (ap (λ y. mem y p.dirtylist) (sym (beq→eq a x t)) ∙ sym g ∙ f)
            | inr t ↦ rw t refl
          ]

  purge_dirty-IsValid :
      (l : List ℕ) (p : Pager W)
      → ((x : ℕ) → mem x l ≡ true → x < fresh p)
      → IsValid p
      → IsValid (purge_dirty l p)
        × ((x : ℕ) → mem x (purge_dirty l p).dirtylist ≡ (not (mem x l) && mem x p.dirtylist))
  unfolding purge_dirty
  purge_dirty-IsValid [] p k h = (h, λ x. refl)
  purge_dirty-IsValid (a ∷ l) p k h =
      let p' = record p { refresh = ((ref_at p a).page_id == 1) || p.refresh } in
      let v = purge_page-IsValid p' a (k a (ground arith)) h in
      let e = purge_page-fresh p' a in
      let (v', m) =
        purge_dirty-IsValid l (purge_page p' a)
          (λ x t. let j = k x (ground arith) in omega (arith, e)) v in
      (
        v',
        λ x.
            m x
            ∙ ap (λ t. not (mem x l) && t) (purge_page-mem p' a x h)
            ∙ not_and (mem x l) (a == x) (mem x p.dirtylist),
      )

  purge_dirty-empty :
      (p : Pager W)
      → IsValid p
      → IsValid (purge_dirty p.dirtylist p) × ((purge_dirty p.dirtylist p).dirtylist ≡ [])
  purge_dirty-empty p h =
      let (v, m) = purge_dirty-IsValid p.dirtylist p (λ x t. mem-fresh p x h t) h in
      (v, no_mem _ (λ x. m x ∙ not_and_self (mem x p.dirtylist)))

  -- Nothing is dirty after the purge of pages.
  pub purge_pages-IsValid :
      (p : Pager W) (purge_all : Bool)
      → IsValid p
      → IsValid (purge_pages p purge_all) × ((purge_pages p purge_all).dirtylist ≡ [])
  unfolding purge_pages set_bufmgr
  purge_pages-IsValid p false h = purge_dirty-empty p h
  purge_pages-IsValid p true h =
      let (v, e) = purge_dirty-empty p h in
      let q = purge_dirty p.dirtylist p in
      let c : AllClean q.bufmgr = λ a. v.flags a ∙ ap (mem a) e in
      let d = purge-AllClean q.bufmgr c in
      (
        record {
          reported = v.reported;
          clean = v.clean;
          flags = λ a. d a ∙ sym (ap (mem a) e);
          unused = λ a le. d a;
          known = purge-Known q.bufmgr v.known;
        },
        e,
      )

  -- What `flush_dirty_pages` clears, on the entries of `l`.
  abbrev Flushed : List ℕ → Pager W → Pager W → Type 0
  Flushed l p q =
      ((x : ℕ) → flag q.bufmgr x ≡ (not (mem x l) && flag p.bufmgr x))
      × (fresh q ≡ fresh p)
      × (Known p.bufmgr → Known q.bufmgr)
      × (q.mode ≡ p.mode)
      × (q.status ≡ p.status)

  flush_step :
      (t : Bool) (p : Pager W) (a : ℕ)
      → Flushed (a ∷ []) p (if t then set_dirty p a false else dirtylist_remove p a)
  unfolding set_dirty dirtylist_remove Cache.set_ref
  flush_step true p a = (λ x. ground arith, refl, λ k. set_ref-Known p.bufmgr a _ k, refl, refl)
  flush_step false p a = (λ x. ground arith, refl, λ k. set_ref-Known p.bufmgr a _ k, refl, refl)

  pub flush_loop-Flushed : (l : List ℕ) (p : Pager W) → Flushed l p (flush_loop l p)
  unfolding flush_loop
  flush_loop-Flushed [] p = (λ x. refl, refl, λ k. k, refl, refl)
  flush_loop-Flushed (a ∷ l) p =
      let t = leb (ref_at p a).page_id p.page_count in
      let (f, e, k, m, s) = flush_step t p a in
      let (f', e', k', m', s') =
        flush_loop-Flushed l (if t then set_dirty p a false else dirtylist_remove p a) in
      (
        λ x.
            f' x
            ∙ ap (λ y. not (mem x l) && y) (f x)
            ∙ not_and_or (mem x l) (a == x) (flag p.bufmgr x),
        e' ∙ e,
        λ g. k' (k g),
        m' ∙ m,
        s' ∙ s,
      )

  purge_page-mode : (p : Pager W) (a : ℕ) → (purge_page p a).mode ≡ p.mode
  unfolding purge_page remove_dirty dirtylist_remove set_dirty set_bufmgr
  purge_page-mode p a =
      if_lem (λ (q : Pager W). q.mode ≡ p.mode) (ref_at p a).dirty (dirtylist_remove p a) p
        (λ _. refl) (λ _. refl)

  purge_dirty-mode : (l : List ℕ) (p : Pager W) → (purge_dirty l p).mode ≡ p.mode
  unfolding purge_dirty
  purge_dirty-mode [] p = refl
  purge_dirty-mode (a ∷ l) p = purge_dirty-mode l _ ∙ purge_page-mode _ a

  pub purge_pages-mode : (p : Pager W) (purge_all : Bool) → (purge_pages p purge_all).mode ≡ p.mode
  unfolding purge_pages set_bufmgr
  purge_pages-mode p false = purge_dirty-mode p.dirtylist p
  purge_pages-mode p true = purge_dirty-mode p.dirtylist p

  purge_page-saved : (p : Pager W) (a : ℕ) → (purge_page p a).saved_page_count ≡ p.saved_page_count
  unfolding purge_page remove_dirty dirtylist_remove set_dirty set_bufmgr
  purge_page-saved p a =
      if_lem (λ (q : Pager W). q.saved_page_count ≡ p.saved_page_count) (ref_at p a).dirty
        (dirtylist_remove p a) p (λ _. refl) (λ _. refl)

  purge_dirty-saved :
      (l : List ℕ) (p : Pager W) → (purge_dirty l p).saved_page_count ≡ p.saved_page_count
  unfolding purge_dirty
  purge_dirty-saved [] p = refl
  purge_dirty-saved (a ∷ l) p = purge_dirty-saved l _ ∙ purge_page-saved _ a

  pub purge_pages-saved :
      (p : Pager W) (purge_all : Bool)
      → (purge_pages p purge_all).saved_page_count ≡ p.saved_page_count
  unfolding purge_pages set_bufmgr
  purge_pages-saved p false = purge_dirty-saved p.dirtylist p
  purge_pages-saved p true = purge_dirty-saved p.dirtylist p
