-- ===== src/Pager/Releasing.antt =====
-- What the recording of errors and the release of pages keep of the pager's state.
use cub_db.Common.{
  ℕ, ◌+◌, ◌≤◌, ◌<◌, ◌≡◌, refl, sym, ◌==◌, ◌&&◌, arith, Option, none, some, if◌then◌else◌, if_lem,
  and-true,
}
use cub_db.Pager.{Status}
use cub_db.Pager.State.{
  k_write, rank, is_ok, Pager, is_fatal, at_least, ref_at, set_status, set_dirty, dirtylist_remove,
  set_bufmgr, then_ok,
}
use cub_db.Bufmgr.Cache.{Bufmgr, without}
use cub_db.Bufmgr.Cache
use cub_db.Bufmgr.Known.{unref-Known}
use cub_db.Bufmgr.Bounds.{OptionBelow}
use cub_db.Bufmgr.Flags.{unref-Keeps}
use cub_db.Pager.Invariant.{
  IsValid, fresh, if-IsValid, erase-IsValid, set_bufmgr-IsValid, dirtylist_remove-IsValid,
}
use cub_db.Pager.Committing.{on_ok_lem}
use cub_db.Pager.{ReleaseAction}
use cub_db.Pager.Buffers.{erases, release_unused, release}

-- A property of the state after `then_ok`, if it holds before and after the second step.
pub then_ok_lem :
    {A : Type 0} (P : A → Type 0) (r : Status × A) (k : A → Status × A)
    → P (k r.1).1
    → P r.1
    → P (then_ok r k).1
unfolding then_ok
then_ok_lem {A} P r k h g = on_ok_lem (λ (q : Status × A). P q.1) r.0 (k r.1) r (λ _. h) (λ _. g)

pub OptionBelow-eq : (n m : ℕ) (o : Option ℕ) → n ≡ m → OptionBelow n o → OptionBelow m o
OptionBelow-eq n m none e h = tt
OptionBelow-eq n m (some a) e h = omega arith

-- The bound of an addition.
pub suc-le : (n x : ℕ) → n + 1 ≤ x → n ≤ x
suc-le n x h = omega arith

module _ {W : Type 0} where
  pub set_status-fresh : (p : Pager W) (e : Status) → fresh (set_status p e) ≡ fresh p
  unfolding set_status
  set_status-fresh p e =
      if_lem (λ (q : Pager W). fresh q ≡ fresh p)
        (is_ok p.status && (at_least p k_write && is_fatal e)) _ p (λ _. refl) (λ _. refl)

  -- An error is kept by a writer only, and does not end it.
  pub set_status-at_least :
      (p : Pager W) (e : Status) → at_least (set_status p e) k_write ≡ at_least p k_write
  unfolding set_status rank
  set_status-at_least p e =
      if_lem (λ (q : Pager W). at_least q k_write ≡ at_least p k_write)
        (is_ok p.status && (at_least p k_write && is_fatal e)) _ p
        (λ t.
          let ok_rest = and-true (is_ok p.status) (at_least p k_write && is_fatal e) t in
          sym (and-true (at_least p k_write) (is_fatal e) ok_rest.1).0)
        (λ _. refl)

  -- The references of a caller are those that it has been given.
  abbrev pub OptionHas : Option ℕ → Pager W → Type 0
  OptionHas o p = OptionBelow (fresh p) o

  dirtylist_remove-fresh : (p : Pager W) (a : ℕ) → fresh (dirtylist_remove p a) ≡ fresh p
  unfolding dirtylist_remove set_dirty Cache.set_ref
  dirtylist_remove-fresh p a = refl

  release_unused-IsValid :
      (p : Pager W) (a : ℕ) (action : ReleaseAction)
      → IsValid p
      → a < fresh p
      → IsValid (release_unused p a action)
  unfolding release_unused
  release_unused-IsValid p a action h lt =
      let removed = dirtylist_remove p a in
      let p' = if (ref_at p a).dirty then removed else p in
      let e = dirtylist_remove-fresh p a in
      let (v, lt') =
        if_lem (λ (q : Pager W). IsValid q × (a < fresh q)) (ref_at p a).dirty removed p
          (λ _. (dirtylist_remove-IsValid p a h, omega arith)) (λ _. (h, lt)) in
      if-IsValid (((ref_at p a).refs == 0) && erases action (ref_at p a).dirty) _ p
        (erase-IsValid p' a lt' v) h

  pub release-IsValid :
      (p : Pager W) (o : Option ℕ) (action : ReleaseAction)
      → OptionHas o p
      → IsValid p
      → IsValid (release p o action)
  unfolding release set_bufmgr
  release-IsValid p none action lt h = h
  release-IsValid p (some a) action lt h =
      let v =
        set_bufmgr-IsValid p _ (unref-Keeps p.bufmgr a) (unref-Known p.bufmgr a h.known lt) h in
      let e = (unref-Keeps p.bufmgr a).1 in
      if-IsValid ((ref_at p a).page_id == 1) p _ h
        (release_unused-IsValid _ a action v (omega arith))
