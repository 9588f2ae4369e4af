-- ===== src/Pager/Errors.antt =====
-- The errors of a transaction: what an error in a write leaves behind, and what the end of the transaction clears.
use cub_db.Common.{◌≡◌, refl, sym, ap, ◌∙◌, leb, ◌&&◌, Bool, true, false, if_lem}
use cub_db.Pager.{Status}
use cub_db.Pager.State.{
  Mode, k_open, k_read, k_write, k_dirty, k_error, rank, is_ok, Pager, is_fatal, at_least,
  set_status, Storage, on_ok, has_mode,
}
use cub_db.Pager.Invariant.{not, is_error, IsValid, fatal-is_ok}
use cub_db.Pager.Committing.{on_ok_lem, flushed-Writes, has_mode-k_dirty}
use cub_db.Pager.Transaction.{finish, commit, end_commit, pager_write}

is_error-k_error : (m : Mode) → is_error m ≡ true → m ≡ k_error
is_error-k_error k_open h = absurd (cc h)
is_error-k_error k_read h = absurd (cc h)
is_error-k_error k_write h = absurd (cc h)
is_error-k_error k_dirty h = absurd (cc h)
is_error-k_error k_error h = refl

not-false : (b : Bool) → not b ≡ false → b ≡ true
not-false true h = refl
not-false false h = sym h

true-and : (a b : Bool) → a ≡ true → b ≡ true → (a && b) ≡ true
true-and true b h g = g
true-and false b h g = h

pub failed-not_ok : (s : Status) → is_ok s ≡ false → {A : Type 0} (a b : A) → on_ok s a b ≡ b
unfolding is_ok on_ok
failed-not_ok Status.ok h a b = absurd (cc h)
failed-not_ok Status.invalid_argument h a b = refl
failed-not_ok Status.io_error h a b = refl
failed-not_ok Status.not_supported h a b = refl
failed-not_ok Status.corruption h a b = refl
failed-not_ok Status.not_found h a b = refl
failed-not_ok Status.busy h a b = refl
failed-not_ok Status.aborted h a b = refl

module _ {W : Type 0} (st : Storage W) where
  -- The error `s` has been recorded.
  abbrev Stopped : Status → Pager W → Type 0
  Stopped s p = (p.mode ≡ k_error) × (p.status ≡ s)

  set_status-Stopped :
      (p : Pager W) (s : Status)
      → is_ok p.status ≡ true
      → at_least p k_write ≡ true
      → is_fatal s ≡ true
      → Stopped s (set_status p s)
  unfolding set_status
  set_status-Stopped p s o w f =
      if_lem (Stopped s) (is_ok p.status && (at_least p k_write && is_fatal s)) _ p
        (λ _. (refl, refl)) (λ t. absurd (cc (t, true-and _ _ o (true-and _ _ w f))))

  -- A pager in the error mode.
  stopped-commit : (p : Pager W) → is_ok p.status ≡ false → commit st p ≡ (p.status, p)
  unfolding commit
  stopped-commit p h = failed-not_ok p.status h _ (p.status, p)

  stopped-pager_write :
      (p : Pager W) (operation : Pager W → Status × Pager W)
      → is_ok p.status ≡ false
      → p.mode ≡ k_error
      → pager_write p operation ≡ (p.status, p)
  unfolding pager_write rank
  stopped-pager_write p operation h e =
      if_lem (λ (r : Status × Pager W). r ≡ (p.status, p)) (at_least p k_write) _ _
        (λ _. failed-not_ok p.status h _ (p.status, p))
        (λ t. absurd (cc (t, ap (λ m. leb (rank k_write) (rank m)) e)))

  commit-Stopped :
      (p : Pager W)
      → IsValid p
      → is_fatal (commit st p).0 ≡ true
      → Stopped (commit st p).0 (commit st p).1
  unfolding commit end_commit rank is_fatal
  commit-Stopped p h =
      let Fails : Status × Pager W → Type 0 = λ r. is_fatal r.0 ≡ true → Stopped r.0 r.1 in
      on_ok_lem Fails p.status _ _
        (λ _.
          if_lem Fails (has_mode p k_dirty) _ _
            (λ t.
              let ((v, m), e) = flushed-Writes st p (h, has_mode-k_dirty st p.mode t) in
              on_ok_lem Fails _ _ _ (λ _ f. absurd (cc f))
                (λ _ f.
                  set_status-Stopped _ _ (v.reported ∙ ap (λ y. not (is_error y)) m)
                    (ap (λ y. leb (rank k_write) (rank y)) m) f))
            (λ _ f. absurd (cc f)))
        (λ o _. (is_error-k_error p.mode (not-false _ (sym h.reported ∙ o)), refl))

  -- After a fatal error in a commit of a valid pager, one of input or output, of corruption or an abort, the pager is
  -- stopped: the error stays its status, another commit and every write report it again and change nothing, and the end
  -- of the transaction clears it.
  pub commit-fatal :
      (p : Pager W)
      → IsValid p
      → is_fatal (commit st p).0 ≡ true
      → ((commit st p).1.mode ≡ k_error)
        × ((commit st p).1.status ≡ (commit st p).0)
        × (commit st (commit st p).1 ≡ commit st p)
        × ((operation : Pager W → Status × Pager W)
            → pager_write (commit st p).1 operation ≡ commit st p)
        × ((finish st (commit st p).1).mode ≡ k_open)
        × ((finish st (commit st p).1).status ≡ Status.ok)
  unfolding finish
  commit-fatal p h f =
      let (m, e) = commit-Stopped p h f in
      let q = (commit st p).1 in
      let o : is_ok q.status ≡ false = ap is_ok e ∙ fatal-is_ok (commit st p).0 f in
      let same : (q.status, q) ≡ commit st p = ap (λ s. (s, q)) e in
      (m, e, stopped-commit q o ∙ same, λ op. stopped-pager_write q op o m ∙ same, refl, refl)
