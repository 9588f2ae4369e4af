-- ===== src/Wal/Rollback.antt =====
-- The rollback of src/wal.cpp with its cleanup of the index, and the next start of a write after it.
use native.Mathlib.Decide.{ℕ_discrete}
use cub_db.Common.{
  ℕ, zero, suc, ◌+◌, ◌-◌, ◌^◌, ◌≤◌, ◌<◌, ◌≡◌, ◌≢◌, inl, inr, refl, sym, ap, ◌∙◌, arith,
}
use cub_db.Common.{
  true, false, Bool, ◌⊎◌, List, [], ◌∷◌, ◌==◌, if◌then◌else◌, Bool-cases, eq→beq, ne→beq_false,
}
use cub_db.Pager.{Status}
use cub_db.HashIndex.{
  HashIndex, Group, index_group_number, group_base, cleanup, cleanup_group, set_group,
}
use cub_db.HashIndex.Build.{Filled}
use cub_db.HashIndex.Groups.{index_group_number_lem}
use cub_db.HashIndex.Lookup.{IsValid, page_of, fetch-page_of}
use cub_db.HashIndex.Assign.{
  cleanup_lem, cleanup_group-Filled, cleanup_group_keys, set_group_self, set_group_other,
}
use cub_db.Wal.{IndexHdr, view}
use cub_db.Wal.Prefix.{IsValid-below, group_number_mono}
use cub_db.Wal.Headers.{hdr_equal_refl, hdr_equal_eq}
use cub_db.Wal.Connection.{Connection, rollback, abandoned, start_write, finish_write, hdr_equal}

-- Nothing of the group of the last frame stands behind that frame.
abbrev pub IsExact : (ix : HashIndex) → IsValid ix → Type 0
IsExact ix valid =
    (0 < ix.max_frame)
    → valid.counts (index_group_number ix.max_frame) + group_base (index_group_number ix.max_frame)
      ≡ ix.max_frame

-- What `cleanup` achieves on an index that has more entries than its last frame says.
record Cleaned (ix ix' : HashIndex) : Type 0 where
  valid : IsValid (record ix' { max_frame = ix.max_frame })
  exact : IsExact (record ix' { max_frame = ix.max_frame }) valid
  kept : (v : ℕ) → 0 < v → v ≤ ix.max_frame → page_of ix' v ≡ page_of ix v

module _ (ix : HashIndex) (small : ix.max_frame + 34 < 2 ^ 32) (valid : IsValid ix) where
  abbrev top : ℕ
  top = index_group_number ix.max_frame

  abbrev rest : ℕ
  rest = ix.max_frame - group_base top

  abbrev cleared : HashIndex
  cleared = set_group ix top (cleanup_group (ix.groups top) rest)

  counts' : ℕ → ℕ
  counts' j = if j == top then rest else valid.counts j

  counts'-top : counts' top ≡ rest
  unfolding counts'
  counts'-top = rw (eq→beq top top refl) refl

  counts'_other : (j : ℕ) → j ≢ top → counts' j ≡ valid.counts j
  unfolding counts'
  counts'_other j h = rw (ne→beq_false j top h) refl

  cleared-Filled : (n : ℕ) → n ≤ top → Filled (cleared.groups n) (counts' n)
  cleared-Filled n h = elim (ℕ_discrete n top) [
    | yes same ↦
        rw (same, counts'-top, set_group_self ix top (cleanup_group (ix.groups top) rest))
          (cleanup_group-Filled (ix.groups top) (valid.counts top) rest
            (omega (arith, valid.reaches)) (valid.filled top (omega arith)))
    | no other ↦
        rw
          (
            counts'_other n other,
            set_group_other ix top n (cleanup_group (ix.groups top) rest) other,
          )
          (valid.filled n h)
  ]

  cleared-IsValid : 0 < ix.max_frame → IsValid (record cleared { max_frame = ix.max_frame })
  cleared-IsValid pos = record {
    counts = counts';
    filled = cleared-Filled;
    within = λ n h. elim (ℕ_discrete n top) [
      | yes same ↦
          rw (same, counts'-top) (omega (arith, valid.reaches, valid.within top (omega arith)))
      | no other ↦ rw (counts'_other n other) (valid.within n h)
    ];
    full = λ n h. counts'_other n (omega arith) ∙ valid.full n h;
    reaches =
        rw counts'-top (omega (arith, (index_group_number_lem ix.max_frame pos (omega arith)).0));
  }

  cleared-exact :
      (pos : 0 < ix.max_frame) → (cleared-IsValid pos).counts top + group_base top ≡ ix.max_frame
  unfolding cleared-IsValid
  cleared-exact pos =
      omega (arith, counts'-top, (index_group_number_lem ix.max_frame pos (omega arith)).0)

  cleared-kept : (v : ℕ) → 0 < v → v ≤ ix.max_frame → page_of cleared v ≡ page_of ix v
  cleared-kept v pos h = elim (ℕ_discrete (index_group_number v) top) [
    | no other ↦
        ap (λ (t : Group). t.keys (v - group_base (index_group_number v) - 1))
          (set_group_other ix top (index_group_number v) (cleanup_group (ix.groups top) rest) other)
    | yes same ↦
        let above = (index_group_number_lem v pos (omega arith)).0 in
        let inside : v - group_base top - 1 < rest = omega (arith, ap group_base same) in
        rw (page_of, same, set_group_self ix top (cleanup_group (ix.groups top) rest))
          (cleanup_group_keys (ix.groups top) rest (v - group_base top - 1) inside)
  ]

  cleanup-Cleaned : Cleaned ix (cleanup ix)
  unfolding cleanup cleared-IsValid
  cleanup-Cleaned = elim (ℕ_discrete ix.max_frame 0) [
    | yes z ↦
        let run : cleanup ix ≡ ix = rw (cleanup, eq→beq ix.max_frame 0 z) refl in
        rw run
          (record { valid = valid; exact = λ pos. absurd (omega arith); kept = λ v pos h. refl })
    | no s ↦ rw (cleanup_lem ix top rest s refl refl) (record {
      valid = cleared-IsValid (omega arith);
      exact = λ pos. cleared-exact (omega arith);
      kept = cleared-kept;
    })
  ]

-- The pages of the frames from `frame` on.
unfoldable pub pages_from : ℕ → (ℕ → ℕ) → ℕ → List ℕ
pages_from zero page frame = []
pages_from (suc count) page frame = page frame ∷ pages_from count page (suc frame)

abandoned-pages_from :
    (count frame : ℕ) (ix : HashIndex)
    → 0 < frame
    → frame + count + 34 < 2 ^ 32
    → index_group_number (frame + count - 1) < ix.num_groups
    → abandoned count ix frame ≡ pages_from count (page_of ix) frame
unfolding abandoned pages_from
abandoned-pages_from zero frame ix pos small mapped = refl
abandoned-pages_from (suc count) frame ix pos small mapped =
    let low = group_number_mono frame (frame + suc count - 1) (omega arith) (omega arith) in
    let same : frame + suc count - 1 ≡ suc frame + count - 1 = omega arith in
    let mapped' : index_group_number (suc frame + count - 1) < ix.num_groups =
      omega (arith, ap index_group_number same) in
    rw (abandoned, fetch-page_of ix frame pos (omega arith) (omega arith))
      (ap (λ (t : List ℕ). page_of ix frame ∷ t)
        (abandoned-pages_from count (suc frame) ix (omega arith) (omega arith) mapped'))

-- After a rollback: the committed header, a valid index with the committed frames as they were, the abandoned pages for the
-- caller, and, if frames have been abandoned and a frame is committed, no entry behind the last one in its group.
pub record RolledBack (c : Connection) (called : List ℕ) (c' : Connection) : Type 0 where
  pub hdr : c'.wal.hdr ≡ c.wal.live0
  pub valid : IsValid (view c'.wal)
  pub exact : c'.wal.hdr.max_frame < c.wal.hdr.max_frame → IsExact (view c'.wal) valid
  pub kept :
      (v : ℕ) → 0 < v → v ≤ c'.wal.hdr.max_frame → page_of c'.wal.index v ≡ page_of c.wal.index v
  pub pages :
      called
      ≡ pages_from
          (c.wal.hdr.max_frame - c.wal.live0.max_frame)
          (page_of c.wal.index)
          (c.wal.live0.max_frame + 1)

-- On a valid index that reaches past the committed frames, with the groups mapped, rollback gives the pages of the frames
-- since the last commit, in order, and leaves the committed header and a valid index in which the committed frames are as
-- they were. When frames have been abandoned and the committed last frame is not 0, no entry stands behind that frame in
-- the frame's own group.
pub rollback-RolledBack :
    (c : Connection)
    → IsValid (view c.wal)
    → c.wal.hdr.max_frame + 35 < 2 ^ 32
    → c.wal.live0.max_frame ≤ c.wal.hdr.max_frame
    → index_group_number c.wal.hdr.max_frame < c.wal.index.num_groups
    → RolledBack c (rollback c).0 (rollback c).1
unfolding rollback
rollback-RolledBack c valid small low mapped =
    let w = record (c.wal) { hdr = c.wal.live0 } in
    let valid' : IsValid (view w) =
      IsValid-below (view c.wal) c.wal.live0.max_frame low (omega arith) valid in
    let count = c.wal.hdr.max_frame - c.wal.live0.max_frame in
    let last : c.wal.live0.max_frame + 1 + count - 1 ≡ c.wal.hdr.max_frame = omega arith in
    let listed : abandoned count (view w) (c.wal.live0.max_frame + 1)
        ≡ pages_from count (page_of c.wal.index) (c.wal.live0.max_frame + 1) =
      abandoned-pages_from count (c.wal.live0.max_frame + 1) (view w) (omega arith) (omega arith)
        (omega (arith, ap index_group_number last)) in
    elim (ℕ_discrete c.wal.hdr.max_frame c.wal.live0.max_frame) [
      | yes same ↦ rw (eq→beq c.wal.hdr.max_frame c.wal.live0.max_frame same) (record {
        hdr = refl;
        valid = valid';
        exact = λ less. absurd (omega arith);
        kept = λ v pos h. refl;
        pages = listed;
      })
      | no other ↦
          let cleaned = cleanup-Cleaned (view w) (omega arith) valid' in
          rw (ne→beq_false c.wal.hdr.max_frame c.wal.live0.max_frame other) (record {
            hdr = refl;
            valid = cleaned.valid;
            exact = λ less. cleaned.exact;
            kept = cleaned.kept;
            pages = listed;
          })
    ]

finished :
    (c : Connection)
    → ((finish_write (rollback c).1).writer_lock ≡ false)
      × ((finish_write (rollback c).1).wal.hdr ≡ c.wal.live0)
unfolding finish_write rollback
finished c =
    let moved = c.wal.hdr.max_frame == c.wal.live0.max_frame in
    elim (Bool-cases c.writer_lock) [
      | inl t ↦ elim (Bool-cases moved) [
        | inl m ↦ rw (finish_write, t, m) (refl, refl)
        | inr m ↦ rw (finish_write, t, m) (refl, refl)
      ]
      | inr t ↦ elim (Bool-cases moved) [
        | inl m ↦ rw (finish_write, t, m) (refl, refl)
        | inr m ↦ rw (finish_write, t, m) (refl, refl)
      ]
    ]

not_both : (b : Bool) → b ≡ true → b ≡ false → ⊥
not_both b t f = cc

-- The connection once others have left `hdr` as the first header in shared memory.
abbrev pub shows : IndexHdr → Connection → Connection
shows hdr c = record c { wal = record (c.wal) { live0 = hdr } }

start_write_ok :
    (lock_exclusive : ℕ → ℕ → Status) (c : Connection)
    → lock_exclusive 0 1 ≡ Status.ok
    → c.writer_lock ≡ false
    → hdr_equal c.wal.hdr c.wal.live0 ≡ true
    → start_write lock_exclusive c ≡ (Status.ok, record c { writer_lock = true })
unfolding start_write
start_write_ok lock_exclusive c granted free equal = rw (start_write, free, granted, equal) refl

start_write_busy :
    (lock_exclusive : ℕ → ℕ → Status) (c : Connection)
    → lock_exclusive 0 1 ≡ Status.ok
    → c.writer_lock ≡ false
    → hdr_equal c.wal.hdr c.wal.live0 ≡ false
    → start_write lock_exclusive c ≡ (Status.busy, c)
unfolding start_write
start_write_busy lock_exclusive c granted free differ = simp (start_write, free, granted, differ)

-- After a rollback and the end of its write, others may commit. When the write lock is then granted, the connection writes
-- again if the shared header is still the one it has rolled back to; if it is another one, the call is busy, and leaves the
-- connection as it was, without the lock.
pub start_write-rollback :
    (lock_exclusive : ℕ → ℕ → Status) (c : Connection) (hdr : IndexHdr)
    → lock_exclusive 0 1 ≡ Status.ok
    → (hdr ≡ c.wal.live0)
        × (start_write lock_exclusive (shows hdr (finish_write (rollback c).1))
            ≡ (Status.ok, record (shows hdr (finish_write (rollback c).1)) { writer_lock = true }))
      ⊎ (hdr ≢ c.wal.live0)
        × (start_write lock_exclusive (shows hdr (finish_write (rollback c).1))
            ≡ (Status.busy, shows hdr (finish_write (rollback c).1)))
        × ((finish_write (rollback c).1).writer_lock ≡ false)
start_write-rollback lock_exclusive c hdr granted =
    let (free, local) = finished c in
    let c' = shows hdr (finish_write (rollback c).1) in
    elim (Bool-cases (hdr_equal c.wal.live0 hdr)) [
      | inl same ↦ inl (
        sym (hdr_equal_eq c.wal.live0 hdr same),
        start_write_ok lock_exclusive c' granted free (rw local same),
      )
      | inr differ ↦ inr (
        λ e. not_both (hdr_equal c.wal.live0 hdr) (rw e (hdr_equal_refl c.wal.live0)) differ,
        start_write_busy lock_exclusive c' granted free (rw local differ),
        free,
      )
    ]
