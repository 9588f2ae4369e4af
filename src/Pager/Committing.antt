-- ===== src/Pager/Committing.antt =====
-- What a commit and the end of a transaction keep of the pager's state.
use cub_db.Common.{
  ℕ, ◌≡◌, refl, sym, ap, ◌∙◌, leb, ◌==◌, ◌&&◌, arith, true, false, List, [], ◌∷◌, if_lem,
}
use cub_db.Pager.{Status}
use cub_db.Pager.State.{
  Mode, k_open, k_read, k_write, k_dirty, k_error, rank, is_ok, Pager, at_least, set_dirty,
  dirtylist_add, set_bufmgr, set_page, mark_dirty, flush_loop, Storage, on_ok, has_mode,
}
use cub_db.Bufmgr.Cache.{Bufmgr, without}
use cub_db.Bufmgr.Cache
use cub_db.Bufmgr.Known.{shrink_to_fit-Known}
use cub_db.Bufmgr.Flags.{AllClean, shrink_to_fit-Keeps}
use cub_db.Pager.Invariant.{
  mem, not, is_error, IsValid, set_bufmgr-IsValid, dirtylist_add-Valid, undo_all-IsValid,
  set_status-IsValid,
}
use cub_db.Pager.Purging.{not_and_self, purge_pages-IsValid, flush_loop-Flushed}
use cub_db.Pager.Writing.{set_page-IsValid, mark_dirty-IsValid, mark_dirty-mode}
use cub_db.Pager.Transaction.{
  on_storage, roll_back, finish_writer, finish, flush_dirty_pages, put_page_count, add_frame,
  require_dirty, end_commit, commit,
}

-- A property of both ways that `on_ok` can go.
pub on_ok_lem :
    {A : Type 0} (P : A → Type 0) (s : Status) (a b : A)
    → (s ≡ Status.ok → P a)
    → (is_ok s ≡ false → P b)
    → P (on_ok s a b)
unfolding on_ok is_ok
on_ok_lem P Status.ok a b h g = h refl
on_ok_lem P failed a b h g = g refl

module _ {W : Type 0} (st : Storage W) where
  abbrev pub Writes : Pager W → Type 0
  Writes p = IsValid p × (p.mode ≡ k_dirty)

  put_page_count-Writes : (p : Pager W) → Writes p → Writes (put_page_count st p)
  unfolding put_page_count set_page set_bufmgr rank
  put_page_count-Writes p (h, e) =
      let root = p.bufmgr.root in
      let q = mark_dirty p root in
      let v = mark_dirty-IsValid p root (ap (λ m. leb (rank k_write) (rank m)) e) h.known.root h in
      let m = mark_dirty-mode p root e in
      if_lem Writes (p.page_count == p.saved_page_count) p _ (λ _. (h, e))
        (λ _. (set_page-IsValid q root _ v, m))

  flush_dirty_pages-Writes : (p : Pager W) → Writes p → Writes (flush_dirty_pages st p).1
  unfolding flush_dirty_pages
  flush_dirty_pages-Writes p (h, e) =
      let (f, n, k, m, s) = flush_loop-Flushed p.dirtylist p in
      let off : AllClean (flush_loop p.dirtylist p).bufmgr = λ x.
        f x
        ∙ ap (λ y. not (mem x p.dirtylist) && y) (h.flags x)
        ∙ not_and_self (mem x p.dirtylist) in
      (
        record {
          reported = ap is_ok s ∙ h.reported ∙ ap (λ y. not (is_error y)) (sym m);
          clean = λ _. refl;
          flags = off;
          unused = λ x _. off x;
          known = k h.known;
        },
        m ∙ e,
      )

  pub roll_back-IsValid : (p : Pager W) → IsValid p → IsValid (roll_back st p)
  unfolding roll_back
  roll_back-IsValid p h =
      if_lem IsValid (has_mode p k_dirty) _ p
        (λ _. undo_all-IsValid (st.wal_rollback p.storage).0 _ h) (λ _. h)

  add_frame-Writes : (l : List ℕ) (p : Pager W) → Writes p → Writes (add_frame st l p)
  unfolding add_frame dirtylist_add set_dirty rank
  add_frame-Writes [] p (h, e) =
      let le = ap (λ m. leb (rank k_dirty) (rank m)) e in
      (dirtylist_add-Valid p p.bufmgr.root p.mode h.known.root h refl le, e)
  add_frame-Writes (a ∷ l) p h = h

  end_commit-IsValid :
      (s : Status) (p : Pager W) → Writes p → p.dirtylist ≡ [] → IsValid (end_commit st (s, p)).1
  unfolding end_commit is_ok
  end_commit-IsValid s p (h, e) n =
      on_ok_lem (λ (r : Status × Pager W). IsValid r.1) s _ _
        (λ t. record {
          reported = h.reported ∙ ap (λ m. not (is_error m)) e;
          clean = λ _. n;
          flags = h.flags;
          unused = h.unused;
          known = h.known;
        })
        (λ f. set_status-IsValid p s h)

  pub has_mode-k_dirty : (m : Mode) → (rank m == rank k_dirty) ≡ true → m ≡ k_dirty
  unfolding rank
  has_mode-k_dirty k_open t = absurd (cc t)
  has_mode-k_dirty k_read t = absurd (cc t)
  has_mode-k_dirty k_write t = absurd (cc t)
  has_mode-k_dirty k_dirty t = refl
  has_mode-k_dirty k_error t = absurd (cc t)

  -- What a commit writes the pages of.
  pub flushed-Writes :
      (p : Pager W)
      → Writes p
      → Writes (flush_dirty_pages st (require_dirty st (put_page_count st p))).1
        × ((flush_dirty_pages st (require_dirty st (put_page_count st p))).1.dirtylist ≡ [])
  unfolding require_dirty flush_dirty_pages
  flushed-Writes p h =
      let framed = add_frame-Writes (put_page_count st p).dirtylist _ (put_page_count-Writes p h) in
      (flush_dirty_pages-Writes _ framed, refl)

  pub commit-IsValid : (p : Pager W) → IsValid p → IsValid (commit st p).1
  unfolding commit
  commit-IsValid p h =
      let Good : Status × Pager W → Type 0 = λ r. IsValid r.1 in
      on_ok_lem Good p.status _ _
        (λ _.
          if_lem Good (has_mode p k_dirty) _ _
            (λ t.
              let (v, e) = flushed-Writes p (h, has_mode-k_dirty p.mode t) in
              end_commit-IsValid _ _ v e)
            (λ _. h))
        (λ _. h)

  -- Without changes to write, nothing is dirty.
  pub clean-dirtylist : (p : Pager W) → at_least p k_write ≡ false → IsValid p → p.dirtylist ≡ []
  unfolding rank
  clean-dirtylist p w h = h.clean (ground arith)

  finish_writer-IsValid :
      (p : Pager W)
      → IsValid p
      → IsValid (finish_writer st p) × ((finish_writer st p).dirtylist ≡ [])
  unfolding finish_writer on_storage
  finish_writer-IsValid p h =
      if_lem (λ q. IsValid q × (q.dirtylist ≡ [])) (at_least p k_write) _ p
        (λ _. purge_pages-IsValid _ _ (roll_back-IsValid p h)) (λ f. (h, clean-dirtylist p f h))

  -- At the end of a transaction nothing is dirty, and no error is left.
  pub finish-IsValid : (p : Pager W) → IsValid p → IsValid (finish st p)
  unfolding finish on_storage set_bufmgr is_ok
  finish-IsValid p h =
      let written = finish_writer st p in
      let (v, e) = finish_writer-IsValid p h in
      let shrunk = set_bufmgr written (Cache.shrink_to_fit written.bufmgr) in
      let Empty : Pager W → Type 0 = λ q. IsValid q × (q.dirtylist ≡ []) in
      let (v', e') =
        if_lem Empty (at_least p k_read) shrunk written
          (λ _. (
            set_bufmgr-IsValid written _ (shrink_to_fit-Keeps written.bufmgr)
                (shrink_to_fit-Known written.bufmgr v.known) v,
            e,
          ))
          (λ _. (v, e)) in
      let (v'', e'') = if_lem Empty p.has_wal _ _ (λ _. (v', e')) (λ _. (v', e')) in
      record {
        reported = refl;
        clean = λ _. e'';
        flags = v''.flags;
        unused = v''.unused;
        known = v''.known;
      }
