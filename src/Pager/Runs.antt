-- ===== src/Pager/Runs.antt =====
-- The states that calls of the pager reach, from one that has been opened on.
use cub_db.Common.{
  ℕ, ◌<◌, ◌≡◌, refl, arith, Bool, true, false, Option, none, some, if_lem, subst, if◌then◌else◌,
}
use cub_db.Bytes.{Bytes}
use cub_db.Pager.{Status}
use cub_db.Pager.State.{
  k_write, rank, is_ok, Pager, at_least, set_status, set_page, mark_dirty, move_page,
  set_page_count, Storage,
}
use cub_db.Bufmgr.Cache.{Bufmgr, without}
use cub_db.Bufmgr.Cache
use cub_db.Pager.Invariant.{IsValid, fresh, set_status-IsValid, set_page_count-IsValid}
use cub_db.Pager.Writing.{set_page-IsValid, mark_dirty-IsValid, move_page-IsValid}
use cub_db.Pager.Committing.{on_ok_lem, finish-IsValid, commit-IsValid}
use cub_db.Pager.{ReleaseAction}
use cub_db.Pager.Buffers.{release, get_unused_page, allocate, acquire}
use cub_db.Pager.Transaction.{
  finish, lock_reader, begin_writer, checkpoint, auto_checkpoint, commit, on_storage, open_wal,
}
use cub_db.Pager.Locking.{
  set_page_size-Idle, lock_reader-Idle, begin_writer-IsValid, checkpoint-Idle, auto_checkpoint-Idle,
}
use cub_db.Pager.Releasing.{then_ok_lem, release-IsValid, OptionHas}
use cub_db.Pager.Lifetime.{
  empty_bufmgr, new_pager, some_pager, open_pager, close_locked, lock_and_close, close_wal, close,
}
use cub_db.Pager.Reading.{acquire-Given, get_unused_page-Given, allocate-IsValid}

module _ {W : Type 0} (st : Storage W) where
  -- A call, with what its assertions demand of the mode, on references that the pager has made. A caller may write into a
  -- page, and other connections change what is stored.
  pub data Step (p : Pager W) : Pager W → Type 0 where
    locks : at_least p k_write ≡ false → Step p (lock_reader st p).2
    begins : Step p (begin_writer st p).1
    commits : Step p (commit st p).1
    finishes : Step p (finish st p)
    acquires : (page_id : ℕ) → Step p (acquire st p page_id).2
    allocates : at_least p k_write ≡ true → Step p (allocate st p).2
    takes_unused : Step p (get_unused_page st p).2
    releases : (o : Option ℕ) (action : ReleaseAction) → OptionHas o p → Step p (release p o action)
    marks : (a : ℕ) → at_least p k_write ≡ true → a < fresh p → Step p (mark_dirty p a)
    moves :
        (a destination : ℕ)
        → at_least p k_write ≡ true
        → a < fresh p
        → Step p (move_page p a destination)
    truncates : (page_count : ℕ) → Step p (set_page_count p page_count)
    reports : (e : Status) → Step p (set_status p e)
    checkpoints : (mode : ℕ) → at_least p k_write ≡ false → Step p (checkpoint st p mode).1
    auto_checkpoints :
        (frame_limit : ℕ) → at_least p k_write ≡ false → Step p (auto_checkpoint st p frame_limit).1
    closes : Step p (close st p)
    writes : (a : ℕ) (page : Bytes) → Step p (set_page p a page)
    others : (w : W) → Step p (record p { storage = w })

  pub data Reachable : Pager W → Type 0 where
    opened :
        (w : W) (has_wal : Bool) (page_size cache_size : ℕ) (p : Pager W)
        → open_pager st w has_wal page_size cache_size ≡ (Status.ok, some p)
        → Reachable p
    steps : (p q : Pager W) → Reachable p → Step p q → Reachable q

  new_pager-IsValid :
      (w : W) (has_wal : Bool) (page_size cache_size : ℕ)
      → IsValid (new_pager w has_wal page_size cache_size)
  unfolding new_pager empty_bufmgr rank is_ok Cache.init
  new_pager-IsValid w has_wal page_size cache_size = record {
    reported = refl;
    clean = λ _. refl;
    flags = λ a. refl;
    unused = λ a _. refl;
    known = record { root = omega arith; lru = tt; table = λ i. tt };
  }

  abbrev Opened : Status × Option (Pager W) → Type 0
  Opened (s, none) = Unit {0}
  Opened (s, some p) = IsValid p

  some_pager-Opened : (r : Status × Pager W) → IsValid r.1 → Opened (some_pager r)
  unfolding some_pager
  some_pager-Opened (s, p) h = on_ok_lem Opened s _ _ (λ _. h) (λ _. tt)

  open_pager-Opened :
      (w : W) (has_wal : Bool) (page_size cache_size : ℕ)
      → Opened (open_pager st w has_wal page_size cache_size)
  unfolding open_pager rank new_pager
  open_pager-Opened w has_wal page_size cache_size =
      let v = new_pager-IsValid w has_wal page_size cache_size in
      if_lem Opened (st.granted w 4) _ _
        (λ _. some_pager-Opened _ (set_page_size-Idle st _ page_size (v, refl)).0) (λ _. tt)

  close_locked-IsValid : (s : Status) (p : Pager W) → IsValid p → IsValid (close_locked st s p).1
  unfolding close_locked
  close_locked-IsValid Status.ok p h = h
  close_locked-IsValid Status.busy p h = h
  close_locked-IsValid failed p h = h

  lock_and_close-IsValid : (p : Pager W) → IsValid p → IsValid (lock_and_close st p).1
  unfolding lock_and_close
  lock_and_close-IsValid p h =
      if_lem (λ (r : Status × Pager W). IsValid r.1) p.has_wal _ _ (λ _. close_locked-IsValid _ _ h)
        (λ _. h)

  close-IsValid : (p : Pager W) → IsValid p → IsValid (close st p)
  unfolding close close_wal on_storage open_wal
  close-IsValid p h =
      let q = finish st p in
      let Valids : Status × Pager W → Type 0 = λ r. IsValid r.1 in
      let v : IsValid q = finish-IsValid st p h in
      let found : Status × Pager W =
        if st.wal_exists q.storage then open_wal st q else (Status.ok, q) in
      let opened : Status × Pager W = if q.has_wal then (Status.ok, q) else found in
      let w : Valids opened =
        if_lem Valids q.has_wal _ found (λ _. v)
          (λ _. if_lem Valids (st.wal_exists q.storage) _ _ (λ _. v) (λ _. v)) in
      then_ok_lem IsValid opened (lock_and_close st) (lock_and_close-IsValid _ w) w

  Step-IsValid : (p q : Pager W) → Step p q → IsValid p → IsValid q
  Step-IsValid p _ (locks w) h = (lock_reader-Idle st p (h, w)).0
  Step-IsValid p _ begins h = begin_writer-IsValid st p h
  Step-IsValid p _ commits h = commit-IsValid st p h
  Step-IsValid p _ finishes h = finish-IsValid st p h
  Step-IsValid p _ (acquires page_id) h = (acquire-Given _ st p page_id (h, refl)).0.0
  Step-IsValid p _ (allocates w) h = allocate-IsValid st p h w
  Step-IsValid p _ takes_unused h = (get_unused_page-Given _ st p (h, refl)).0.0
  Step-IsValid p _ (releases o action lt) h = release-IsValid p o action lt h
  Step-IsValid p _ (marks a w lt) h = mark_dirty-IsValid p a w lt h
  Step-IsValid p _ (moves a destination w lt) h = move_page-IsValid p a destination w lt h
  Step-IsValid p _ (truncates page_count) h = set_page_count-IsValid p page_count h
  Step-IsValid p _ (reports e) h = set_status-IsValid p e h
  Step-IsValid p _ (checkpoints mode w) h = (checkpoint-Idle st p mode (h, w)).0
  Step-IsValid p _ (auto_checkpoints limit w) h = (auto_checkpoint-Idle st p limit (h, w)).0
  Step-IsValid p _ closes h = close-IsValid p h
  Step-IsValid p _ (writes a page) h = set_page-IsValid p a page h
  Step-IsValid p _ (others w) h = h

  -- Every state that calls of the pager reach from an opened one, in the modes that they assert and on references that
  -- have been made, is valid: it has an error exactly in the error mode, only with changes to write is anything dirty, the
  -- dirty list holds the references with the flag, and the root, the list of pages to evict and the table hold references
  -- that have been made.
  pub Reachable-IsValid : (p : Pager W) → Reachable p → IsValid p
  Reachable-IsValid p (opened w has_wal page_size cache_size _ e) =
      subst Opened e (open_pager-Opened w has_wal page_size cache_size)
  Reachable-IsValid p (steps q _ r s) = Step-IsValid q p s (Reachable-IsValid q r)
