-- ===== src/Pager/Forgetting.antt =====
-- What is left of a transaction that has failed once it has ended.
use cub_db.Common.{
  ℕ, ◌≡◌, refl, ap, ◌∙◌, leb, ◌==◌, Bool, true, false, List, [], ◌∷◌, none, if◌then◌else◌, if_lem,
  subst,
}
use cub_db.Pager.State.{
  k_read, k_write, k_dirty, k_error, rank, Pager, at_least, set_bufmgr, purge_pages, Storage,
  has_mode,
}
use cub_db.Bufmgr.Cache.{
  Bufmgr, without, query, shrink_one, shrink_loop, shrink_to_fit, free_buffers, reset_flags, purge,
}
use cub_db.Bufmgr.Cache
use cub_db.Pager.Invariant.{IsValid}
use cub_db.Pager.Committing.{roll_back-IsValid}
use cub_db.Pager.Purging.{purge_pages-IsValid, purge_pages-saved}
use cub_db.Pager.Transaction.{on_storage, finish, finish_writer, roll_back}
use cub_db.Bufmgr.PageTable

-- No page is in the table.
abbrev NonePages : Bufmgr → Type 0
NonePages b = (i : ℕ) → b.table.table i ≡ []

query-none : (b : Bufmgr) (page_id : ℕ) → NonePages b → query b page_id ≡ none
unfolding query PageTable.lookup PageTable.find_pointer PageTable.first
query-none b page_id h = rw (h (PageTable.bucket b.table page_id)) refl

remove-empty :
    (of : ℕ → ℕ) (t : PageTable.PageTable) (k : ℕ)
    → ((i : ℕ) → t.table i ≡ [])
    → PageTable.remove of t k ≡ t
unfolding PageTable.remove PageTable.find_pointer PageTable.unlink_first
remove-empty of t k h = rw (h (PageTable.bucket t k)) refl

shrink_loop-NonePages : (l : List ℕ) (b : Bufmgr) → NonePages b → NonePages (shrink_loop l b)
unfolding shrink_loop shrink_one
shrink_loop-NonePages [] b h = h
shrink_loop-NonePages (a ∷ l) b h = shrink_loop-NonePages l _ (λ i.
    if_lem (λ (t : PageTable.PageTable). t.table i ≡ []) (b.ref_at a).cached
      (PageTable.remove (Cache.key b) b.table (Cache.key b a)) b.table
      (λ _. ap (λ t. t.table i) (remove-empty _ b.table _ h) ∙ h i) (λ _. h i))

purge-NonePages : (b : Bufmgr) → NonePages (purge b)
unfolding purge PageTable.clear
purge-NonePages b i = refl

module _ {W : Type 0} (st : Storage W) where
  -- Nothing is left of a transaction that began with `n` pages.
  abbrev Forgotten : ℕ → Pager W → Type 0
  Forgotten n p = (p.page_count ≡ n) × (p.refresh ≡ true) × (p.dirtylist ≡ []) × NonePages p.bufmgr

  purge_all-forgets :
      (p : Pager W) (all : Bool)
      → IsValid p
      → all ≡ true
      → Forgotten p.saved_page_count
          (record (purge_pages p all) { page_count = (purge_pages p all).saved_page_count })
  unfolding purge_pages set_bufmgr
  purge_all-forgets p false h e = absurd (cc e)
  purge_all-forgets p true h e =
      (purge_pages-saved p true, refl, (purge_pages-IsValid p true h).1, purge-NonePages _)

  -- Pages are undone only where there are unwritten changes.
  roll_back-error : (p : Pager W) → p.mode ≡ k_error → roll_back st p ≡ p
  unfolding roll_back rank
  roll_back-error p e =
      if_lem (λ (q : Pager W). q ≡ p) (has_mode p k_dirty) _ p
        (λ t. absurd (cc (t, ap (λ m. rank m == rank k_dirty) e))) (λ _. refl)

  finish_writer-forgets :
      (p : Pager W)
      → IsValid p
      → p.mode ≡ k_error
      → Forgotten p.saved_page_count (finish_writer st p)
  unfolding finish_writer on_storage rank
  finish_writer-forgets p h e =
      let rolled = on_storage st st.wal_finish_write (roll_back st p) in
      let purged = purge_pages rolled (has_mode p k_error) in
      let counted = record purged { page_count = purged.saved_page_count } in
      if_lem (Forgotten p.saved_page_count) (at_least p k_write) _ p
        (λ _.
          subst (λ n. Forgotten n counted)
            (ap (λ (q : Pager W). q.saved_page_count) (roll_back-error p e))
            (purge_all-forgets _ (has_mode p k_error) (roll_back-IsValid st p h)
              (ap (λ m. rank m == rank k_error) e)))
        (λ t. absurd (cc (t, ap (λ m. leb (rank k_write) (rank m)) e)))

  finish-Forgotten :
      (p : Pager W) → IsValid p → p.mode ≡ k_error → Forgotten p.saved_page_count (finish st p)
  unfolding finish set_bufmgr on_storage shrink_to_fit
  finish-Forgotten p h e =
      let n = p.saved_page_count in
      let written = finish_writer st p in
      let (c, r, l, t) = finish_writer-forgets p h e in
      let shrunk = set_bufmgr written (shrink_to_fit written.bufmgr) in
      let v : Forgotten n (if at_least p k_read then shrunk else written) =
        if_lem (Forgotten n) (at_least p k_read) shrunk written
          (λ _. (c, r, l, shrink_loop-NonePages written.bufmgr.extra written.bufmgr t))
          (λ _. (c, r, l, t)) in
      if_lem (Forgotten n) p.has_wal _ _ (λ _. v) (λ _. v)

  -- In a valid pager in the error mode, the end of the transaction forgets it: the page count is the one that was saved
  -- last, no page is dirty and none is found in the cache, and the root is read again by the next transaction.
  pub finish-forgets :
      (p : Pager W)
      → IsValid p
      → p.mode ≡ k_error
      → ((finish st p).page_count ≡ p.saved_page_count)
        × ((finish st p).refresh ≡ true)
        × ((finish st p).dirtylist ≡ [])
        × ((page_id : ℕ) → query (finish st p).bufmgr page_id ≡ none)
  finish-forgets p h e =
      let (c, r, l, t) = finish-Forgotten p h e in
      (c, r, l, λ page_id. query-none (finish st p).bufmgr page_id t)
