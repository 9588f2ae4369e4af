-- ===== src/Wal/StartRead.antt =====
-- What holds of a connection that has started to read, and that starting to read ends.
use cub_db.Common.{
  ℕ, zero, suc, ◌+◌, ◌%◌, ◌^◌, ◌≤◌, ◌<◌, ◌≡◌, ◌≢◌, ◌⊎◌, inl, inr, refl, ap, ◌∙◌, arith,
}
use cub_db.Common.{Bool, false, Option, some, ltb, leb, ◌==◌, ◌&&◌, ◌||◌, beq→eq, if_lem, and-true}
use cub_db.Pager.{Status}
use cub_db.Wal.{Wal, IndexHdr, Disk}
use cub_db.Wal.Headers.{hdr_equal_eq}
use cub_db.Wal.Connection.{Connection, hdr_equal}
use cub_db.Wal.Reader.{
  Attempt, done, retry, if_ok, if_free, read_index_header, find_readmark, raise_readmark, World,
  seen,
}
use cub_db.Wal.Reader.{
  lock_readmark, use_readmark, ignore_log, header_failed, try_reader, start_read_loop, start_read,
}

-- A property of all the ways that `if_ok` and `if_free` can go.
if_ok_lem :
    {A : Type 0} (P : A → Type 0) (s : Status) (a : A) (other : Status → A)
    → P a
    → ((t : Status) → t ≢ Status.ok → P (other t))
    → P (if_ok s a other)
unfolding if_ok
if_ok_lem P Status.ok a other h g = h
if_ok_lem P failed a other h g = g failed (λ e. cc e)

if_free_lem :
    {A : Type 0} (P : A → Type 0) (s : Status) (a busy : A) (other : Status → A)
    → (s ≡ Status.ok → P a)
    → P busy
    → ((t : Status) → t ≢ Status.ok → P (other t))
    → P (if_free s a busy other)
unfolding if_free
if_free_lem P Status.ok a busy other h b g = h refl
if_free_lem P Status.busy a busy other h b g = b
if_free_lem P failed a busy other h b g = g failed (λ e. cc e)

-- A reader that ignores the log, or one that reads the log up to its last frame and holds a mark that is not past it. Its
-- header is the one that other connections see.
pub data Reads (c : Connection) : Type 0 where
  from_database : c.reader_lock ≡ some 0 → c.wal.live0 ≡ c.wal.hdr → Reads c
  from_log :
      (i : ℕ)
      → c.reader_lock ≡ some i
      → 0 < i
      → c.wal.info.readmark i ≤ c.wal.hdr.max_frame
      → c.min_frame ≡ (c.wal.info.backfill + 1) % 2 ^ 32
      → c.wal.live0 ≡ c.wal.hdr
      → Reads c

Attempt-cases : (a : Attempt) → ((s : Status) × (a ≡ done s)) ⊎ (a ≡ retry)
Attempt-cases (done s) = inl (s, refl)
Attempt-cases retry = inr refl

ok_or : (P : Type 0) (s : Status) → (s ≡ Status.ok → P) → (s ≢ Status.ok) ⊎ P
ok_or P Status.ok h = inr (h refl)
ok_or P failed h = inl (λ e. cc e)

-- Success means that the connection reads.
abbrev Good : Attempt × Connection → Type 0
Good r = r.0 ≡ done Status.ok → Reads r.1

Good-failed : (t : Status) (c : Connection) → t ≢ Status.ok → Good (done t, c)
Good-failed t c h e = absurd (h (cc e))

Good-retry : (c : Connection) → Good (retry, c)
Good-retry c e = absurd (cc e)

find_readmark_le :
    (count : ℕ) (readmark : ℕ → ℕ) (max_frame i mark index : ℕ)
    → mark ≤ max_frame
    → (find_readmark count readmark max_frame i mark index).0 ≤ max_frame
unfolding find_readmark
find_readmark_le zero readmark max_frame i mark index h = h
find_readmark_le (suc count) readmark max_frame i mark index h =
    find_readmark_le count readmark max_frame (i + 1) _ _ (
      if_lem (λ (t : ℕ). t ≤ max_frame) (leb mark (readmark i) && leb (readmark i) max_frame)
        (readmark i) mark (λ e. ground arith) (λ e. h))

module _ {F : Type 0} (disk : Disk F) (world : World F) where
  -- What the raising of a mark keeps.
  abbrev Marked : Wal → Status × (ℕ × ℕ) × Wal → Type 0
  Marked w r = (r.1.0 ≤ w.hdr.max_frame) × (r.2.hdr ≡ w.hdr)

  raise_readmark-Marked :
      (count : ℕ) (w : Wal) (i : ℕ) (found : ℕ × ℕ)
      → found.0 ≤ w.hdr.max_frame
      → Marked w (raise_readmark disk world count w i found)
  unfolding raise_readmark
  raise_readmark-Marked zero w i found h = (h, refl)
  raise_readmark-Marked (suc count) w i found h =
      if_free_lem (Marked w) (world.lock_exclusive (i + 3) 1) _ _ _ (λ free. (omega arith, refl))
        (raise_readmark-Marked count (seen world (20 + i) w) (i + 1) found h) (λ t e. (h, refl))

  lock_readmark-Good :
      (c : Connection) (found : ℕ × ℕ)
      → found.0 ≤ c.wal.hdr.max_frame
      → Good (lock_readmark disk world c found)
  unfolding lock_readmark
  lock_readmark-Good c found h =
      let w = seen world 6 c.wal in
      if_lem Good (found.1 == 0) _ _ (λ z. Good-retry c)
        (λ nonzero.
          if_free_lem Good (world.lock_shared (found.1 + 3)) _ _ _
            (λ free.
              if_lem Good ((w.info.readmark found.1 == found.0) && hdr_equal w.live0 c.wal.hdr) _ _
                (λ kept e.
                  let (mark, same) =
                    and-true (w.info.readmark found.1 == found.0) (hdr_equal w.live0 c.wal.hdr)
                      kept in
                  let mark' : w.info.readmark found.1 ≡ found.0 =
                    beq→eq (w.info.readmark found.1) found.0 mark in
                  let low : w.info.readmark found.1 ≤ c.wal.hdr.max_frame = omega arith in
                  from_log found.1 refl (ground (arith, nonzero)) low refl
                    (hdr_equal_eq w.live0 c.wal.hdr same))
                (λ moved. Good-retry _))
            (Good-retry c) (λ t e. Good-failed t c e))

  use_readmark-Good : (c : Connection) → Good (use_readmark disk world c)
  unfolding use_readmark
  use_readmark-Good c =
      let marks : ℕ → ℕ = λ i. (seen world (10 + i) c.wal).info.readmark i in
      let found = find_readmark 4 marks c.wal.hdr.max_frame 1 0 0 in
      let low : found.0 ≤ c.wal.hdr.max_frame =
        find_readmark_le 4 marks c.wal.hdr.max_frame 1 0 0 (omega arith) in
      let raised = raise_readmark disk world 4 c.wal 1 found in
      let (low', same) = raise_readmark-Marked 4 c.wal 1 found low in
      if_lem Good (ltb found.0 c.wal.hdr.max_frame || (found.1 == 0)) _ _
        (λ raise.
          if_ok_lem Good raised.0 _ _
            (lock_readmark-Good (record c { wal = raised.2 }) raised.1
              (omega (arith, ap (λ (t : IndexHdr). t.max_frame) same)))
            (λ t e. Good-failed t _ e))
        (λ stay. lock_readmark-Good c found low)

  ignore_log-Good : (c : Connection) → Good (ignore_log disk world c)
  unfolding ignore_log
  ignore_log-Good c =
      let w = seen world 5 c.wal in
      if_free_lem Good (world.lock_shared 3) _ _ _
        (λ free.
          if_lem Good (hdr_equal w.live0 c.wal.hdr) _ _
            (λ same e. from_database refl (hdr_equal_eq w.live0 c.wal.hdr same))
            (λ moved. Good-retry _))
        (use_readmark-Good c) (λ t e. Good-failed t c e)

  header_failed-Good :
      (s : Status) (c : Connection) → s ≢ Status.ok → Good (header_failed disk world s c, c)
  unfolding header_failed
  header_failed-Good s c bad =
      if_free_lem (λ (t : Attempt). Good (t, c)) s _ _ _ (λ ok'. absurd (bad ok'))
        (if_lem (λ (t : Attempt). Good (t, c)) (c.wal.index.mapped 0) _ _
          (λ m.
            if_ok_lem (λ (t : Attempt). Good (t, c)) (world.lock_shared 2) _ _ (Good-retry c)
              (λ t e. Good-failed t c e))
          (λ m. Good-retry c))
        (λ t e. Good-failed t c e)

  -- A try that succeeds leaves a connection that reads.
  pub try_reader-Reads :
      (use_wal : Bool) (tries : ℕ) (c : Connection)
      → (try_reader disk world use_wal tries c).0 ≡ done Status.ok
      → Reads (try_reader disk world use_wal tries c).1
  unfolding try_reader
  try_reader-Reads use_wal tries c =
      let r = read_index_header disk world c in
      let c' : Connection = record (r.2) { wal = seen world 4 r.2.wal } in
      if_lem Good (ltb 100 tries) _ _ (λ many. Good-failed Status.io_error c (λ e. cc e))
        (λ few.
          if_lem Good use_wal _ _ (λ wal. use_readmark-Good c)
            (λ any.
              if_ok_lem Good r.0 _ _
                (if_lem Good (c'.wal.info.backfill == c'.wal.hdr.max_frame) _ _
                  (λ z. ignore_log-Good c') (λ z. use_readmark-Good c'))
                (λ t e. header_failed-Good t r.2 e)))

  try_reader-last : (c : Connection) → (try_reader disk world false 101 c).0 ≡ done Status.io_error
  unfolding try_reader
  try_reader-last c = refl

module _ {F : Type 0} (disk : Disk F) (worlds : ℕ → World F) where
  -- What a loop that ends well leaves.
  Ends : Option (Status × Connection) → Type 0
  Ends r = (s : Status) × (c : Connection) × (r ≡ some (s, c)) × (s ≡ Status.ok → Reads c)

  start_read_loop-done :
      (rounds tries : ℕ) (c : Connection) (s : Status)
      → (try_reader disk (worlds tries) false tries c).0 ≡ done s
      → Ends (start_read_loop disk worlds (suc rounds) tries c)
  unfolding start_read_loop Ends
  start_read_loop-done rounds tries c s e =
      let r = try_reader disk (worlds tries) false tries c in
      (
        s,
        r.1,
        rw (start_read_loop, e) refl,
        λ ok'.
            try_reader-Reads disk (worlds tries) false tries c
              (e ∙ ap (λ (t : Status). done t) ok'),
      )

  start_read_loop-Ends :
      (rounds tries : ℕ) (c : Connection)
      → rounds + tries ≡ 101
      → Ends (start_read_loop disk worlds (suc rounds) tries c)
  unfolding start_read_loop
  start_read_loop-Ends zero tries c sum =
      let last : tries ≡ 101 = omega arith in
      start_read_loop-done 0 tries c Status.io_error (rw last (try_reader-last disk (worlds 101) c))
  start_read_loop-Ends (suc rounds) tries c sum =
      let r = try_reader disk (worlds tries) false tries c in
      elim (Attempt-cases r.0) [
        | inl (s, e) ↦ start_read_loop-done (suc rounds) tries c s e
        | inr e ↦
            rw (start_read_loop, e) (start_read_loop-Ends rounds (tries + 1) r.1 (omega arith))
      ]

  -- Starting to read ends within 102 tries, whatever the files, the locks and the other connections do in each of them. When
  -- it succeeds, the connection ignores the log, or it holds a read mark other than 0 that is not past its last frame and
  -- has its first frame behind the backfill; its header is then the first one in shared memory.
  pub start_read-Reads :
      (c : Connection)
      → (s : Status) × (c' : Connection) × (start_read disk worlds c ≡ some (s, c'))
        × ((s ≢ Status.ok) ⊎ Reads c')
  unfolding start_read Ends
  start_read-Reads c =
      let (s, c', run, reads) = start_read_loop-Ends 101 0 c refl in
      (s, c', run, ok_or (Reads c') s reads)
