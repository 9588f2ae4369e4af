-- ===== src/Tests/Pager.antt =====
-- Examples of the pager: a database of 512-byte pages with a cache of 3 buffers. The log holds what it is asked to for
-- as many writes as the number that it is made of, and fails from then on.
use cub_db.Common.{ℕ, ◌+◌, ◌-◌, ◌≡◌, refl, true, false, [], none, some, ◌==◌, if◌then◌else◌}
use cub_db.Pager.{Status}
use cub_db.Pager.State.{
  set_bufmgr, on_ok, purge_pages, purge_dirty, Mode, k_open, k_read, k_write, k_dirty, k_error,
  Pager, Storage, mark_dirty, at_least, rank, is_fatal,
}
use cub_db.Pager.Buffers.{allocate, release, acquire}
use cub_db.Pager.Transaction.{
  lock_reader_impl, enter_read, set_page_size, lock_reader, begin_writer, commit, finish,
  pager_write,
}
use cub_db.Pager.Lifetime
use cub_db.Pager.Lifetime.{empty_bufmgr, some_pager, new_pager, open_pager}
use cub_db.Pager.Invariant.{IsValid}
use cub_db.Pager.Runs.{Reachable, Reachable-IsValid, opened, steps, locks, begins, commits}
use cub_db.Pager.Errors.{commit-fatal}
use cub_db.Pager.Forgetting.{finish-forgets}
use cub_db.Bufmgr.Cache.{query, init}
use cub_db.Bufmgr.Cache
use cub_db.Pager.State
use cub_db.Pager.Buffers
use cub_db.Pager.Transaction
use cub_db.Bufmgr.PageTable
use cub_db.Bufmgr.PageTable.{PageTable, lookup, insert, remove, clear}
use cub_db.Bufmgr.Lookups.{AllDistinct, table-lookup}

abbrev log_of : ℕ → Storage ℕ
log_of n = record {
  wal_exists = λ w. false;
  wal_open = λ w. (Status.ok, w);
  wal_read = λ w page_id page_size. (Status.ok, none, w);
  wal_write =
      λ w pages page_size page_count. if w == 0 then (Status.io_error, w) else (Status.ok, w - 1);
  wal_start_read = λ w. (Status.ok, true, w);
  wal_start_write = λ w. (Status.ok, w);
  wal_finish_read = λ w. w;
  wal_finish_write = λ w. w;
  wal_rollback = λ w. ([], w);
  wal_db_size = λ w. 0;
  wal_callback = λ w. (0, w);
  wal_checkpoint = λ w mode page_size waits. (Status.ok, w);
  file_read = λ w offset size. (Status.ok, λ i. 0, 0, w);
  file_size = λ w. (Status.ok, 0);
  wal_close = λ w page_size. (Status.ok, w);
  file_lock = λ w. (Status.ok, w);
  file_unlock = λ w. w;
  granted = λ w i. true;
  backing = λ w a i. 0;
}

abbrev pub storage : Storage ℕ
storage = log_of 0

abbrev fresh_pager : ℕ → Pager ℕ
fresh_pager w = (set_page_size storage (new_pager w false 512 1024) 512).1

abbrev reader : ℕ → Pager ℕ
reader w = (lock_reader storage (fresh_pager w)).2

abbrev writer : ℕ → Pager ℕ
writer w = (begin_writer storage (reader w)).1

fresh_pager_opens : open_pager storage 0 false 512 1024 ≡ (Status.ok, some (fresh_pager 0))
unfolding open_pager set_page_size new_pager empty_bufmgr Cache.reallocate Cache.free_buffers
    Cache.shrink_to_fit Cache.shrink_loop Cache.add_buffers Cache.add_buffer Cache.reserve_root
    Cache.set_ref Cache.unlink Cache.without Cache.init PageTable.allocate_table
    PageTable.capacity_loop some_pager on_ok set_bufmgr
fresh_pager_opens = refl

fresh_mode : (w : ℕ) → at_least (fresh_pager w) k_write ≡ false
unfolding State.rank State.set_bufmgr Transaction.set_page_size Lifetime.empty_bufmgr
    Lifetime.new_pager Cache.shrink_loop Cache.shrink_to_fit Cache.free_buffers Cache.reallocate
fresh_mode w = refl

reader-Reachable :
    (w : ℕ)
    → open_pager storage w false 512 1024 ≡ (Status.ok, some (fresh_pager w))
    → Reachable storage (reader w)
reader-Reachable w e = steps _ _ (opened w false 512 1024 (fresh_pager w) e) (locks (fresh_mode w))

writer-Reachable : Reachable storage (writer 0)
writer-Reachable = steps _ _ (reader-Reachable 0 fresh_pager_opens) begins

abbrev stopped : Pager ℕ
stopped = (commit storage (writer 0)).1

stopped-Reachable : Reachable storage stopped
stopped-Reachable = steps _ _ writer-Reachable commits

Reachable-IsValid_example : IsValid stopped
Reachable-IsValid_example = Reachable-IsValid storage stopped stopped-Reachable

commit_fails : is_fatal (commit storage (writer 0)).0 ≡ true
unfolding State.rank State.dirty_mode State.is_ok State.on_ok State.then_ok State.is_fatal
    State.set_status State.set_dirty State.dirtylist_add State.set_bufmgr State.purge_dirty
    State.purge_pages State.set_page State.mark_dirty State.initialize_root State.flush_loop
    Buffers.read_page_from_file Buffers.wal_answer Transaction.on_storage Transaction.set_page_size
    Transaction.get_page_count Transaction.read_root Transaction.use_header
    Transaction.settle_refresh Transaction.refresh_state Transaction.enter_read
    Transaction.lock_reader_impl Transaction.open_wal Transaction.open_wal_if_present
    Transaction.start_read Transaction.lock_changed Transaction.lock_reader Transaction.start_write
    Transaction.enter_write Transaction.count_pages Transaction.begin_writer
    Transaction.flush_dirty_pages Transaction.put_page_count Transaction.add_frame
    Transaction.require_dirty Transaction.end_commit Transaction.commit Lifetime.empty_bufmgr
    Lifetime.new_pager Cache.init Cache.set_ref Cache.without Cache.unlink Cache.add_buffer
    Cache.reset_flags Cache.purge Cache.shrink_loop Cache.shrink_to_fit Cache.free_buffers
    Cache.add_buffers Cache.reserve_root Cache.reallocate PageTable.capacity_loop
    PageTable.allocate_table PageTable.clear Buffers.read_page Transaction.lock_again
    State.register_page Cache.register_page
commit_fails = refl

commit-fatal_example :
    (stopped.mode ≡ k_error)
    × (stopped.status ≡ (commit storage (writer 0)).0)
    × (commit storage stopped ≡ commit storage (writer 0))
    × ((operation : Pager ℕ → Status × Pager ℕ)
        → pager_write stopped operation ≡ commit storage (writer 0))
    × ((finish storage stopped).mode ≡ k_open)
    × ((finish storage stopped).status ≡ Status.ok)
commit-fatal_example =
    commit-fatal storage (writer 0) (Reachable-IsValid storage (writer 0) writer-Reachable)
      commit_fails

finish-forgets_example :
    ((finish storage stopped).page_count ≡ stopped.saved_page_count)
    × ((finish storage stopped).refresh ≡ true)
    × ((finish storage stopped).dirtylist ≡ [])
    × ((page_id : ℕ) → query (finish storage stopped).bufmgr page_id ≡ none)
finish-forgets_example =
    finish-forgets storage stopped (Reachable-IsValid storage stopped stopped-Reachable)
      (commit-fatal storage (writer 0) (Reachable-IsValid storage (writer 0) writer-Reachable)
        commit_fails).0

-- A table of two buckets, with the page with the ID 5 at address 3.
abbrev key_of : ℕ → ℕ
key_of a = a + 2

abbrev no_pages : PageTable
no_pages = record { capacity = 2; length = 0; table = λ i. [] }

abbrev one_page : PageTable
one_page = insert key_of no_pages 3

one_page-AllDistinct : AllDistinct key_of one_page
unfolding lookup PageTable.first PageTable.find_pointer
one_page-AllDistinct = ((table-lookup key_of no_pages (λ i. tt)).0 3 refl).0

table-lookup_example :
    ((a : ℕ)
      → lookup key_of one_page (key_of a) ≡ none
      → AllDistinct key_of (insert key_of one_page a)
        × ((j : ℕ)
            → lookup key_of (insert key_of one_page a) j
              ≡ (if key_of a == j then some a else lookup key_of one_page j)))
    × ((k : ℕ)
        → AllDistinct key_of (remove key_of one_page k)
          × ((j : ℕ)
              → lookup key_of (remove key_of one_page k) j
                ≡ (if k == j then none else lookup key_of one_page j)))
    × ((j : ℕ) → lookup key_of (clear one_page) j ≡ none)
table-lookup_example = table-lookup key_of one_page one_page-AllDistinct
