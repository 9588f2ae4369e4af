-- ===== src/HashIndex/Assign.antt =====
-- `assign` of the next frame keeps the index valid, and adds the frame.
use native.Mathlib.Decide.{ℕ_discrete, dec_lt}
use cub_db.Common.{
  ℕ, suc, ◌+◌, ◌-◌, ◌%◌, ◌^◌, ◌≤◌, ◌<◌, ◌≡◌, ◌≢◌, ◌⊎◌, inl, inr, refl, sym, ap, ◌∙◌, arith,
}
use cub_db.Common.{
  Bool, true, false, some, ltb, lt→ltb, le→ltb_false, ◌==◌, if◌then◌else◌, eq→beq, ne→beq_false,
}
use cub_db.Pager.{Status}
use cub_db.HashIndex.{
  HashIndex, Group, index_group_number, group_base, key_capacity, index_hash, store,
}
use cub_db.HashIndex.{
  map_group, prepare_group, assign_mapped, assign, find_slot, cleanup, cleanup_group, clear_group,
  set_group,
}
use cub_db.HashIndex.Groups.{index_group_number_lem}
use cub_db.HashIndex.Build.{
  Filled, Placed-zero, Placed-FirstFree, Placed-step, Placed-keys, store_self, store_ne, ahead,
}
use cub_db.HashIndex.Cleanup.{Placed-keep}
use cub_db.HashIndex.Lookup.{
  IsValid, page_of, group_number_eq, group_number-frame, groups_apart, first_group, map_group_kept,
  lookup-Last, max_group, capacity_eq,
}
use cub_db.HashIndex.{lookup}
use cub_db.Node.{sub32}

-- `assign` once the group is clear past the entries before.
insert_entry : Group → ℕ → ℕ → ℕ → Group
insert_entry group key slot relative = record {
  keys = store group.keys (relative - 1) key;
  hash = store group.hash slot (relative % 2 ^ 16);
}

find_slot-Filled :
    (group : Group) (n key : ℕ)
    → Filled group n
    → n < 4096
    → 0 < key
    → (slot : ℕ) × (find_slot (suc n) group.hash (index_hash key) ≡ some slot)
      × Filled (insert_entry group key slot (suc n)) (suc n)
unfolding insert_entry
find_slot-Filled group n key f few pos =
    let keys' = store group.keys n key in
    let new : keys' n ≡ key = store_self group.keys n key n refl in
    let old : (e : ℕ) → e < n → keys' e ≡ group.keys e =
      λ e q. store_ne group.keys n key e (omega arith) in
    let placed = Placed-keys group.keys keys' n group.hash old f.placed in
    let (i, near, first) = Placed-FirstFree keys' n group.hash placed (keys' n) (omega arith) in
    let slot = ahead (index_hash (keys' n)) first.steps in
    let back : suc n - 1 ≡ n = omega arith in
    let word : suc n % 2 ^ 16 ≡ suc n = omega arith in
    let next =
      Placed-step keys' n group.hash placed i first.steps (omega arith) first.near near first.free
        first.before in
    (
      slot,
      sym (ap (λ (t : ℕ). find_slot (suc n) group.hash (index_hash t)) new) ∙ first.found,
      record {
        placed = rw (back, word) next;
        nonzero = λ e q. rw back (elim (ℕ_discrete e n) [
          | yes same ↦ omega (arith, ap keys' same)
          | no other ↦ omega (arith, old e (omega arith), f.nonzero e (omega arith))
        ]);
        clean =
            λ e q. rw back (store_ne group.keys n key e (omega arith) ∙ f.clean e (omega arith));
      },
    )

clear_group-Filled : Filled clear_group 0
clear_group-Filled = record {
  placed = Placed-zero (λ i. 0);
  nonzero = λ e q. absurd (omega arith);
  clean = λ e q. refl;
}

pub cleanup_group-Filled :
    (group : Group) (n m : ℕ) → m ≤ n → Filled group n → Filled (cleanup_group group m) m
unfolding cleanup_group
cleanup_group-Filled group n m h f =
    let same : (e : ℕ) → e < m → (if ltb e m then group.keys e else 0) ≡ group.keys e =
      λ e q. rw (lt→ltb e m q) refl in
    record {
      placed = Placed-keys group.keys _ m _ same (Placed-keep group.keys n m group.hash h f.placed);
      nonzero = λ e q. rw (same e q) (f.nonzero e (omega arith));
      clean = λ e q. rw (le→ltb_false e m q) refl;
    }

pub cleanup_group_keys :
    (group : Group) (m e : ℕ) → e < m → (cleanup_group group m).keys e ≡ group.keys e
unfolding cleanup_group
cleanup_group_keys group m e q = rw (lt→ltb e m q) refl

pub set_group_self : (ix : HashIndex) (n : ℕ) (g : Group) → (set_group ix n g).groups n ≡ g
set_group_self ix n g = rw (eq→beq n n refl) refl

pub set_group_other :
    (ix : HashIndex) (n j : ℕ) (g : Group) → j ≢ n → (set_group ix n g).groups j ≡ ix.groups j
set_group_other ix n j g h = rw (ne→beq_false j n h) refl

pub cleanup_lem :
    (ix : HashIndex) (n m : ℕ)
    → ix.max_frame ≢ 0
    → index_group_number ix.max_frame ≡ n
    → ix.max_frame - group_base n ≡ m
    → cleanup ix ≡ set_group ix n (cleanup_group (ix.groups n) m)
unfolding cleanup
cleanup_lem ix n m some' same rest =
    rw (cleanup, ne→beq_false ix.max_frame 0 some', same, rest) refl

-- The group `n` is ready for the entry after the first `m`; nothing else is another one.
record Ready (ix : HashIndex) (n m : ℕ) (ix' : HashIndex) : Type 0 where
  filled : Filled (ix'.groups n) m
  others : (j : ℕ) → j ≢ n → ix'.groups j ≡ ix.groups j
  kept : (e : ℕ) → e < m → (ix'.groups n).keys e ≡ (ix.groups n).keys e

prepare_first : (ix : HashIndex) (n : ℕ) → Ready ix n 0 (prepare_group ix n 1)
unfolding prepare_group
prepare_first ix n =
    let self = set_group_self ix n clear_group in
    let run : prepare_group ix n 1 ≡ set_group ix n clear_group = rw (prepare_group, self) refl in
    rw run (record {
      filled = rw self clear_group-Filled;
      others = λ j h. set_group_other ix n j clear_group h;
      kept = λ e q. absurd (omega arith);
    })

prepare_next :
    (ix : HashIndex) (n m count : ℕ)
    → 0 < m
    → m ≤ count
    → Filled (ix.groups n) count
    → (count ≡ m) ⊎ ((index_group_number ix.max_frame ≡ n) × (ix.max_frame ≡ m + group_base n))
    → Ready ix n m (prepare_group ix n (suc m))
unfolding prepare_group
prepare_next ix n m count pos low f current =
    let back : suc m - 1 ≡ m = omega arith in
    let more : (suc m == 1) ≡ false = ne→beq_false (suc m) 1 (omega arith) in
    elim (ℕ_discrete ((ix.groups n).keys m) 0) [
      | yes free ↦
          let exact : count ≡ m = elim (ℕ_discrete count m) [
            | yes e ↦ e
            | no e ↦ absurd (omega (arith, f.nonzero m (omega arith)))
          ] in
          rw (prepare_group, more, back, eq→beq ((ix.groups n).keys m) 0 free)
            (record { filled = rw (sym exact) f; others = λ j h. refl; kept = λ e q. refl })
      | no taken ↦ elim current [
        | inl exact ↦ absurd (taken (f.clean m (omega arith)))
        | inr (same, frame) ↦
            let g = cleanup_group (ix.groups n) m in
            let self = set_group_self ix n g in
            let run = cleanup_lem ix n m (omega arith) same (omega arith) in
            let filled = cleanup_group-Filled (ix.groups n) count m low f in
            rw (prepare_group, more, back, ne→beq_false ((ix.groups n).keys m) 0 taken, run)
              (record {
                filled = rw self filled;
                others = λ j h. set_group_other ix n j g h;
                kept = λ e q. rw self (cleanup_group_keys (ix.groups n) m e q);
              })
      ]
    ]

-- The entry after the first `m` is put into its group.
record Inserted (ix : HashIndex) (n m key : ℕ) (ix' : HashIndex) : Type 0 where
  filled : Filled (ix'.groups n) (suc m)
  others : (j : ℕ) → j ≢ n → ix'.groups j ≡ ix.groups j
  kept : (e : ℕ) → e < m → (ix'.groups n).keys e ≡ (ix.groups n).keys e
  added : (ix'.groups n).keys m ≡ key

assign_mapped-Inserted :
    (ix : HashIndex) (n m key : ℕ)
    → Ready ix n m (prepare_group ix n (suc m))
    → m < 4096
    → 0 < key
    → (ix' : HashIndex) × (assign_mapped ix n key (suc m) ≡ (Status.ok, ix'))
      × Inserted ix n m key ix'
unfolding assign_mapped insert_entry
assign_mapped-Inserted ix n m key ready few pos =
    let ix2 = prepare_group ix n (suc m) in
    let (slot, run, filled) = find_slot-Filled (ix2.groups n) m key ready.filled few pos in
    let g = insert_entry (ix2.groups n) key slot (suc m) in
    let self = set_group_self ix2 n g in
    let back : suc m - 1 ≡ m = omega arith in
    (
      set_group ix2 n g,
      rw (assign_mapped, run) refl,
      record {
        filled = rw self filled;
        others = λ j h. set_group_other ix2 n j g h ∙ ready.others j h;
        kept = λ e q.
            rw (self, insert_entry, back)
              (store_ne (ix2.groups n).keys m key e (omega arith) ∙ ready.kept e q);
        added = rw (self, insert_entry, back) (store_self (ix2.groups n).keys m key m refl);
      },
    )

module _ (ix : HashIndex) (last : ℕ) (valid : IsValid (record ix { max_frame = last }))
    (small : last + 35 < 2 ^ 32) where
  abbrev group_of_next : ℕ
  group_of_next = index_group_number (suc last)

  abbrev before : ℕ
  before = last - group_base group_of_next

  next_bounds : (group_base group_of_next ≤ last) × (before < key_capacity group_of_next)
  next_bounds =
      let (above, below) = index_group_number_lem (suc last) (omega arith) (omega arith) in
      (omega arith, omega arith)

  next_lt : group_of_next < max_group
  next_lt = omega (arith, group_number_eq (suc last) (omega arith) (omega arith))

  group_of_last : 0 < before → index_group_number last ≡ group_of_next
  group_of_last h =
      let (low, room) = next_bounds in
      let here : suc (before - 1) + group_base group_of_next ≡ last = omega arith in
      sym (ap index_group_number here)
      ∙ group_number-frame group_of_next (before - 1) next_lt (omega arith) (omega arith)

  groups_step :
      (index_group_number last ≤ group_of_next) × (group_of_next ≤ suc (index_group_number last))
  groups_step =
      let next = group_number_eq (suc last) (omega arith) (omega arith) in
      elim (ℕ_discrete last 0) [
        | yes z ↦ omega (arith, first_group, ap index_group_number z)
        | no s ↦ omega (arith, group_number_eq last (omega arith) (omega arith))
      ]

  full_before : (j : ℕ) → j < group_of_next → valid.counts j ≡ key_capacity j
  full_before j h = elim (dec_lt j (index_group_number last)) [
    | yes q ↦ valid.full j q
    | no q ↦
        let (low, high) = groups_step in
        let same : j ≡ index_group_number last = omega arith in
        omega (
          arith,
          valid.reaches,
          valid.within j (omega arith),
          next_bounds,
          groups_apart j group_of_next h next_lt,
          ap group_base same,
          ap valid.counts same,
        )
  ]

  -- The group of the next frame is made ready for it.
  prepare-Ready :
      (valid.counts (index_group_number last) + group_base (index_group_number last) ≡ last)
        ⊎ (ix.max_frame ≡ last)
      → (ix' : HashIndex) → ix'.groups ≡ ix.groups
      → ix'.max_frame ≡ ix.max_frame
      → Ready ix' group_of_next before (prepare_group ix' group_of_next (suc before))
  prepare-Ready current ix' groups' frame' = elim (ℕ_discrete before 0) [
    | yes z ↦ rw z (prepare_first ix' group_of_next)
    | no s ↦
        let same = group_of_last (omega arith) in
        let count = valid.counts group_of_next in
        let group' : ix'.groups group_of_next ≡ ix.groups group_of_next =
          ap (λ (t : ℕ → Group). t group_of_next) groups' in
        let filled : Filled (ix'.groups group_of_next) count =
          rw group' (valid.filled group_of_next (omega arith)) in
        let enough : before ≤ count =
          omega (arith, valid.reaches, next_bounds, ap valid.counts same, ap group_base same) in
        prepare_next ix' group_of_next before count (omega arith) enough filled (elim current [
          | inl exact ↦
              inl (omega (arith, exact, next_bounds, ap valid.counts same, ap group_base same))
          | inr frame ↦
              let frame'' : ix'.max_frame ≡ last = frame' ∙ frame in
              inr (ap index_group_number frame'' ∙ same, omega (arith, next_bounds))
        ])
  ]

  counts' : ℕ → ℕ
  counts' j = if j == group_of_next then suc before else valid.counts j

  counts'_new : counts' group_of_next ≡ suc before
  unfolding counts'
  counts'_new = rw (eq→beq group_of_next group_of_next refl) refl

  counts'_old : (j : ℕ) → j ≢ group_of_next → counts' j ≡ valid.counts j
  unfolding counts'
  counts'_old j h = rw (ne→beq_false j group_of_next h) refl

  Inserted-IsValid :
      (ix' : HashIndex) (key : ℕ)
      → Inserted ix group_of_next before key ix'
      → IsValid (record ix' { max_frame = suc last })
  Inserted-IsValid ix' key ins = record {
    counts = counts';
    filled = λ j h. elim (ℕ_discrete j group_of_next) [
      | yes same ↦ rw (same, counts'_new) ins.filled
      | no other ↦
          rw (counts'_old j other, ins.others j other) (valid.filled j (omega (arith, groups_step)))
    ];
    within = λ j h. elim (ℕ_discrete j group_of_next) [
      | yes same ↦ rw (same, counts'_new) (omega (arith, next_bounds))
      | no other ↦ rw (counts'_old j other) (valid.within j (omega (arith, groups_step)))
    ];
    full = λ j h. counts'_old j (omega arith) ∙ full_before j h;
    reaches = rw counts'_new (omega (arith, next_bounds));
  }

  Inserted-exact :
      (ix' : HashIndex) (key : ℕ) (ins : Inserted ix group_of_next before key ix')
      → (Inserted-IsValid ix' key ins).counts group_of_next + group_base group_of_next ≡ suc last
  unfolding Inserted-IsValid
  Inserted-exact ix' key ins = omega (arith, counts'_new, next_bounds)

-- What `assign` of `key` to the frame after `last` leaves: all frames as they were, the new one with its page, and nothing
-- behind it.
pub record Assigned (ix : HashIndex) (last key : ℕ) (ix' : HashIndex) : Type 0 where
  pub valid : IsValid (record ix' { max_frame = suc last })
  pub exact :
      valid.counts (index_group_number (suc last)) + group_base (index_group_number (suc last))
      ≡ suc last
  pub added : page_of ix' (suc last) ≡ key
  pub kept : (v : ℕ) → 0 < v → v ≤ last → page_of ix' v ≡ page_of ix v

module _ (region : ℕ → Bool → Status × Bool)
    (mappable : (n : ℕ) (extend : Bool) → region n extend ≡ (Status.ok, true)) where
  -- On an index that is valid up to the frame `last`, which is the last frame of the header unless nothing stands behind
  -- it, `assign` to the next frame succeeds, keeps the index valid and changes no other frame.
  pub assign-Assigned :
      (ix : HashIndex) (last key : ℕ) (valid : IsValid (record ix { max_frame = last }))
      → last + 35 < 2 ^ 32
      → 0 < key
      → (valid.counts (index_group_number last) + group_base (index_group_number last) ≡ last)
        ⊎ (ix.max_frame ≡ last)
      → (ix' : HashIndex) × (assign region ix key (suc last) ≡ (Status.ok, ix'))
        × Assigned ix last key ix'
  unfolding assign
  assign-Assigned ix last key valid small pos current =
      let n = index_group_number (suc last) in
      let m = last - group_base n in
      let (low, room) = next_bounds ix last valid small in
      let few : m < 4096 = ground (arith, capacity_eq n) in
      let (ok', groups', frame') = map_group_kept region ix n true (mappable n true) in
      let ix1 = (map_group region ix n true).1 in
      let ready = prepare-Ready ix last valid small current ix1 groups' frame' in
      let (ix', run, ins) = assign_mapped-Inserted ix1 n m key ready few pos in
      let relative : sub32 (suc last) (group_base n) ≡ suc m = omega arith in
      let at_group : (j : ℕ) → ix1.groups j ≡ ix.groups j =
        λ j. ap (λ (t : ℕ → Group). t j) groups' in
      let ins' : Inserted ix n m key ix' = record {
        filled = ins.filled;
        others = λ j h. ins.others j h ∙ at_group j;
        kept = λ e q. ins.kept e q ∙ ap (λ (t : Group). t.keys e) (at_group n);
        added = ins.added;
      } in
      let back : suc last - group_base n - 1 ≡ m = omega arith in
      (
        ix',
        rw (assign, ok', relative) run,
        record {
          valid = Inserted-IsValid ix last valid small ix' key ins';
          exact = Inserted-exact ix last valid small ix' key ins';
          added = rw (page_of, back) ins'.added;
          kept = λ v q r. elim (ℕ_discrete (index_group_number v) n) [
            | no other ↦
                ap (λ (t : Group). t.keys (v - group_base (index_group_number v) - 1))
                  (ins'.others (index_group_number v) other)
            | yes same ↦
                let above = (index_group_number_lem v q (omega arith)).0 in
                let inside : v - group_base n - 1 < m = omega (arith, ap group_base same) in
                rw (page_of, same) (ins'.kept (v - group_base n - 1) inside)
          ];
        },
      )

  -- A page that has just been assigned is found at its new frame, from every lower end up to it.
  pub lookup-assign :
      (ix : HashIndex) (last key lower : ℕ) (valid : IsValid (record ix { max_frame = last }))
      → last + 35 < 2 ^ 32
      → 0 < key
      → (valid.counts (index_group_number last) + group_base (index_group_number last) ≡ last)
        ⊎ (ix.max_frame ≡ last)
      → lower ≤ suc last
      → (ix' ix'' : HashIndex) × (assign region ix key (suc last) ≡ (Status.ok, ix'))
        × (lookup region (record ix' { max_frame = suc last }) key lower
            ≡ (Status.ok, suc last, ix''))
  lookup-assign ix last key lower valid small pos current low =
      let (ix', run, assigned) = assign-Assigned ix last key valid small pos current in
      let ix1 = record ix' { max_frame = suc last } in
      let (out, ix'', found, answer) =
        lookup-Last region (λ n. mappable n false) ix1 key lower assigned.valid (omega arith) in
      let exact : out ≡ suc last = elim answer [
        | inl (z, none') ↦ absurd (none' (suc last) (omega arith, low, omega arith, assigned.added))
        | inr (holds, after) ↦
            omega (arith, holds.2, after (suc last) (omega arith, low, omega arith, assigned.added))
      ] in
      let answer_at = λ (t : ℕ). let r : Status × ℕ × HashIndex = (Status.ok, t, ix'') in r in
      (ix', ix'', run, found ∙ ap answer_at exact)
