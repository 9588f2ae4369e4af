-- ===== src/Pager/Locking.antt =====
-- What the starts of transactions keep of the pager's state.
use cub_db.Common.{
  ℕ, ◌+◌, ◌≡◌, refl, sym, ap, ◌∙◌, ltb, leb, ◌==◌, arith, Bool, true, false, if◌then◌else◌, if_lem,
}
use cub_db.Pager.{Status}
use cub_db.Pager.State.{
  Mode, k_open, k_read, k_write, k_dirty, k_error, rank, is_ok, Pager, at_least, ref_at, set_bufmgr,
  purge_pages, Storage, then_ok, has_mode,
}
use cub_db.Bufmgr.Cache.{Bufmgr, without}
use cub_db.Bufmgr.Cache
use cub_db.Bufmgr.Flags.{AllClean, reallocate-AllClean}
use cub_db.Pager.Invariant.{mem, not, is_error, IsValid}
use cub_db.Pager.Committing.{on_ok_lem, clean-dirtylist, finish-IsValid}
use cub_db.Header.{check_db_support}
use cub_db.Header.FileHdr
use cub_db.Pager.Reading.{Kept, read_page-Has}
use cub_db.Pager.Releasing.{then_ok_lem}
use cub_db.Pager.Writing.{initialize_root-IsValid}
use cub_db.Pager.Purging.{purge_pages-IsValid, purge_pages-mode}
use cub_db.Bufmgr.Known.{reallocate-Known}
use cub_db.Pager.Transaction.{
  on_storage, set_page_size, get_page_count, set_count, read_root, header_page_size,
  adopt_page_size, use_header, settle_refresh, refresh_state, finish, enter_read, lock_reader_impl,
  open_wal, open_wal_if_present, start_read, lock_changed, lock_reader, lock_again, start_write,
  enter_write, count_pages, begin_writer, run_checkpoint, checkpoint, auto_checkpoint,
  checked_status,
}

reader-is_error : (m : Mode) → leb (rank k_write) (rank m) ≡ false → is_error m ≡ false
unfolding rank
reader-is_error k_open w = refl
reader-is_error k_read w = refl
reader-is_error k_write w = absurd (cc w)
reader-is_error k_dirty w = absurd (cc w)
reader-is_error k_error w = absurd (cc w)

module _ {W : Type 0} (st : Storage W) where
  finish-at_least : (p : Pager W) → at_least (finish st p) k_write ≡ false
  unfolding finish rank
  finish-at_least p = refl

  -- A valid state without a writer.
  abbrev pub Idle : Pager W → Type 0
  Idle = Kept false

  abbrev Good : Status × Pager W → Type 0
  Good r = Idle r.1

  AllClean-Idle : (p : Pager W) → Idle p → AllClean p.bufmgr
  AllClean-Idle p (h, w) a = h.flags a ∙ ap (mem a) (clean-dirtylist st p w h)

  pub set_page_size-Idle : (p : Pager W) (value : ℕ) → Idle p → Good (set_page_size st p value)
  unfolding set_page_size set_bufmgr
  set_page_size-Idle p value (h, w) =
      let off = AllClean-Idle p (h, w) in
      let granted = st.granted p.storage in
      let backing = st.backing p.storage in
      let b = (Cache.reallocate (λ i. granted (i + 1)) backing p.bufmgr value).1 in
      let c = reallocate-AllClean (λ i. granted (i + 1)) backing p.bufmgr value off in
      let k = reallocate-Known (λ i. granted (i + 1)) backing p.bufmgr value h.known in
      let n = clean-dirtylist st p w h in
      let v : IsValid (record p { bufmgr = b }) = record {
        reported = h.reported;
        clean = h.clean;
        flags = λ a. c a ∙ sym (ap (mem a) n);
        unused = λ a _. c a;
        known = k;
      } in
      if_lem Good (granted 0) _ _ (λ _. if_lem Good _ _ _ (λ _. (v, w)) (λ _. (v, w))) (λ _. (h, w))

  read_root-Idle : (p : Pager W) → Idle p → Good (read_root st p)
  unfolding read_root
  read_root-Idle p h = (read_page-Has false st p p.bufmgr.root (h, h.0.known.root)).0

  adopt_page_size-Idle : (p : Pager W) → Idle p → Good (adopt_page_size st p)
  unfolding adopt_page_size
  adopt_page_size-Idle p h =
      let v = set_page_size-Idle p (header_page_size st p) h in
      if_lem Good (p.page_size == header_page_size st p) _ _ (λ _. h)
        (λ _. then_ok_lem Idle _ _ (read_root-Idle _ v) v)

  use_header-Idle : (size : ℕ) (p : Pager W) → Idle p → Good (use_header st size p)
  unfolding use_header set_count
  use_header-Idle size p h =
      let counted =
        then_ok (checked_status (check_db_support (ref_at p p.bufmgr.root).page), p)
          λ q. set_count st (get_page_count st q) q in
      let v : Good counted = then_ok_lem Idle _ _ h h in
      if_lem Good (leb FileHdr.size size) _ _
        (λ _. then_ok_lem Idle counted (adopt_page_size st) (adopt_page_size-Idle _ v) v) (λ _. h)

  refresh_state-Idle : (p : Pager W) → Idle p → Good (refresh_state st p)
  unfolding refresh_state settle_refresh
  refresh_state-Idle p h =
      let ((v, w), lt) =
        read_page-Has false st (record p { refresh = true }) p.bufmgr.root (h, h.0.known.root) in
      on_ok_lem Good _ _ _ (λ _. use_header-Idle _ _ (v, w)) (λ _. (v, w))

  enter_read-Idle : (s : Status) (p : Pager W) → Idle p → Good (enter_read st (s, p))
  unfolding enter_read rank is_ok
  enter_read-Idle s p (h, w) =
      on_ok_lem Good s _ _
        (λ _. (
          record {
            reported = h.reported ∙ ap not (reader-is_error p.mode w);
            clean = λ _. clean-dirtylist st p w h;
            flags = h.flags;
            unused = h.unused;
            known = h.known;
          },
          refl,
        ))
        (λ _. (finish-IsValid st p h, finish-at_least p))

  lock_reader_impl-Idle :
      (p : Pager W) (refresh : Bool) → Idle p → Good (lock_reader_impl st p refresh)
  unfolding lock_reader_impl
  lock_reader_impl-Idle p refresh h =
      let purged = if refresh then purge_pages p true else p in
      let v : Idle purged =
        if_lem Idle refresh _ p
          (λ _. (
            (purge_pages-IsValid p true h.0).0,
            ap (λ m. leb (rank k_write) (rank m)) (purge_pages-mode p true) ∙ h.1,
          ))
          (λ _. h) in
      let entered : (r : Status × Pager W) → Good r → Good (enter_read st r) =
        λ r g. enter_read-Idle r.0 r.1 g in
      entered _ (if_lem Good purged.refresh _ _ (λ _. refresh_state-Idle purged v) (λ _. v))

  open_wal_if_present-Idle : (p : Pager W) → Idle p → Good (open_wal_if_present st p)
  unfolding open_wal_if_present open_wal
  open_wal_if_present-Idle p h = if_lem Good (st.wal_exists p.storage) _ _ (λ _. h) (λ _. h)

  abbrev Third : Status × Bool × Pager W → Type 0
  Third r = Idle r.2

  start_read-Idle : (p : Pager W) → Idle p → Third (start_read st p)
  unfolding start_read
  start_read-Idle p h = if_lem Third p.has_wal _ _ (λ _. h) (λ _. h)

  lock_changed-Idle : (changed : Bool) (p : Pager W) → Idle p → Third (lock_changed st (changed, p))
  unfolding lock_changed
  lock_changed-Idle changed p h = lock_reader_impl-Idle p changed h

  pub lock_reader-Idle : (p : Pager W) → Idle p → Third (lock_reader st p)
  unfolding lock_reader on_storage
  lock_reader-Idle p h =
      let finished : Status × Pager W = (Status.ok, on_storage st st.wal_finish_read p) in
      let opened = if p.has_wal then finished else open_wal_if_present st p in
      let v : Good opened =
        if_lem Good p.has_wal finished _ (λ _. h) (λ _. open_wal_if_present-Idle p h) in
      let v' = start_read-Idle opened.1 v in
      on_ok_lem Third opened.0 _ _
        (λ _. on_ok_lem Third _ _ _ (λ _. lock_changed-Idle _ _ v') (λ _. v')) (λ _. v)

  abbrev Valids : Status × Pager W → Type 0
  Valids r = IsValid r.1

  enter_write-IsValid :
      (p : Pager W) (page_count : ℕ) → Idle p → IsValid (enter_write st p page_count)
  unfolding enter_write rank
  enter_write-IsValid p page_count (h, w) =
      let q = record p { mode = k_write; page_count = page_count; saved_page_count = page_count } in
      let v : IsValid q = record {
        reported = h.reported ∙ ap not (reader-is_error p.mode w);
        clean = λ _. clean-dirtylist st p w h;
        flags = h.flags;
        unused = h.unused;
        known = h.known;
      } in
      if_lem IsValid (page_count == 0) _ q (λ _. initialize_root-IsValid q refl v) (λ _. v)

  count_pages-IsValid : (p : Pager W) → Idle p → Valids (count_pages st p)
  unfolding count_pages
  count_pages-IsValid p h = on_ok_lem Valids _ _ _ (λ _. enter_write-IsValid p _ h) (λ _. h.0)

  lock_again-Idle : (p : Pager W) → Idle p → Good (lock_again st p)
  unfolding lock_again
  lock_again-Idle p h = lock_reader-Idle p h

  open_wal-Idle : (p : Pager W) → Idle p → Good (open_wal st p)
  unfolding open_wal
  open_wal-Idle p h = h

  start_write-Idle : (p : Pager W) → Idle p → Good (start_write st p)
  unfolding start_write
  start_write-Idle p h = h

  pub begin_writer-IsValid : (p : Pager W) → IsValid p → Valids (begin_writer st p)
  unfolding begin_writer rank
  begin_writer-IsValid p h =
      let begun = then_ok (open_wal st p) (lock_again st) in
      let opened : Status × Pager W = if p.has_wal then (Status.ok, p) else begun in
      if_lem Valids (has_mode p k_read) _ _
        (λ t.
          let i : Idle p = (h, ground arith) in
          let v : Good opened =
            if_lem Good p.has_wal _ begun (λ _. i)
              (λ _.
                then_ok_lem Idle _ _ (lock_again-Idle _ (open_wal-Idle p i)) (open_wal-Idle p i)) in
          let v' : Good (then_ok opened (start_write st)) =
            then_ok_lem Idle opened (start_write st) (start_write-Idle _ v) v in
          then_ok_lem IsValid _ (count_pages st) (count_pages-IsValid _ v') v'.0)
        (λ _. h)

  run_checkpoint-Idle : (mode : ℕ) (p : Pager W) → Idle p → Good (run_checkpoint st mode p)
  unfolding run_checkpoint
  run_checkpoint-Idle mode p h = if_lem Good p.has_wal _ _ (λ _. h) (λ _. h)

  pub checkpoint-Idle : (p : Pager W) (mode : ℕ) → Idle p → Good (checkpoint st p mode)
  unfolding checkpoint
  checkpoint-Idle p mode h =
      let created = then_ok (lock_again st p) λ q. (Status.ok, finish st q) in
      let locked = lock_again-Idle p h in
      let v : Good created =
        then_ok_lem Idle (lock_again st p) _ (finish-IsValid st _ locked.0, finish-at_least _)
          locked in
      let opened : Status × Pager W = if p.has_wal then (Status.ok, p) else created in
      let v' : Good opened = if_lem Good p.has_wal _ created (λ _. h) (λ _. v) in
      then_ok_lem Idle opened (run_checkpoint st mode) (run_checkpoint-Idle mode _ v') v'

  pub auto_checkpoint-Idle :
      (p : Pager W) (frame_limit : ℕ) → Idle p → Good (auto_checkpoint st p frame_limit)
  unfolding auto_checkpoint
  auto_checkpoint-Idle p frame_limit h =
      let (frames, w) = st.wal_callback p.storage in
      let q = record p { storage = w } in
      let checked = checkpoint st q 1 in
      let v : Good (if ltb frame_limit frames then checked else (Status.ok, q)) =
        if_lem Good (ltb frame_limit frames) checked _ (λ _. checkpoint-Idle q 1 h) (λ _. h) in
      if_lem Good p.has_wal _ _ (λ _. v) (λ _. h)
