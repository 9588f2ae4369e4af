-- ===== src/HashIndex/Search.antt =====
-- What the search in one group finds.
use native.Mathlib.Decide.{ℕ_discrete, dec_lt}
use cub_db.Common.{
  ℕ, zero, suc, ◌+◌, ◌-◌, ◌≤◌, ◌<◌, ◌≡◌, ◌≢◌, ◌⊎◌, inl, inr, refl, sym, ap, ◌∙◌, arith,
}
use cub_db.Common.{
  Bool, true, false, leb, ◌&&◌, ◌==◌, if◌then◌else◌, Bool-cases, eq→beq, ne→beq_false,
}
use cub_db.HashIndex.{Group, index_hash, next_index_hash, search_group}
use cub_db.HashIndex.Groups.{next_index_hash_lem, index_hash_lt}
use cub_db.HashIndex.Build.{Placed, Placed-free, ahead}

-- The test of `lookup` for a frame.
abbrev wanted : ℕ → ℕ → ℕ → ℕ → ℕ → Bool
wanted absolute lower upper found_key key =
    leb absolute upper && (leb lower absolute && (found_key == key))

wanted-true :
    (absolute lower upper found_key key : ℕ)
    → wanted absolute lower upper found_key key ≡ true
    → (absolute ≤ upper) × (lower ≤ absolute) × (found_key ≡ key)
wanted-true absolute lower upper found_key key h = ground arith

wanted-false :
    (absolute lower upper found_key key : ℕ)
    → wanted absolute lower upper found_key key ≡ false
    → absolute ≤ upper
    → lower ≤ absolute
    → found_key ≡ key
    → ⊥
wanted-false absolute lower upper found_key key h p q r = ground arith

-- The entry is one of the first `n`, has the key, and its frame lies in the range.
abbrev pub Fits : (ℕ → ℕ) → ℕ → ℕ → ℕ → ℕ → ℕ → ℕ → Type 0
Fits keys n base key lower upper e =
    (e < n) × (keys e ≡ key) × (lower ≤ suc e + base) × (suc e + base ≤ upper)

-- The frame of the last such entry, or 0 when there is none.
abbrev pub Latest : (ℕ → ℕ) → ℕ → ℕ → ℕ → ℕ → ℕ → ℕ → Type 0
Latest keys n base key lower upper out =
    ((out ≡ 0) × ((e : ℕ) → Fits keys n base key lower upper e → ⊥))
    ⊎ ((e : ℕ) × Fits keys n base key lower upper e
        × (out ≡ suc e + base)
        × ((e' : ℕ) → Fits keys n base key lower upper e' → e' ≤ e))

module _ (group : Group) (n base key lower upper : ℕ) (p : Placed group.keys n group.hash) where
  abbrev FitsHere : ℕ → Type 0
  FitsHere e = Fits group.keys n base key lower upper e

  abbrev at : ℕ → ℕ
  at i = ahead (index_hash key) i

  -- The last of those that the search has passed, after `i` steps.
  abbrev Passed : ℕ → ℕ → Type 0
  Passed i out =
      ((out ≡ 0) × ((e : ℕ) → FitsHere e → i ≤ p.steps e))
      ⊎ ((e : ℕ) × FitsHere e
          × (out ≡ suc e + base)
          × ((e' : ℕ) → FitsHere e' → p.steps e' < i → e' ≤ e))

  -- An entry with the key stands where the search comes.
  comes_by : (e : ℕ) → FitsHere e → group.hash (at (p.steps e)) ≡ suc e
  comes_by e f = rw (sym f.1) (p.place e f.0)

  at_lt : (i : ℕ) → at i < 8192
  at_lt i = omega arith

  at_injective : (i j : ℕ) → i < 8192 → j < 8192 → at i ≡ at j → i ≡ j
  at_injective i j h k e = omega (arith, index_hash_lt key)

  -- Every entry with the key stands before the first free slot.
  all-Passed :
      (i out : ℕ)
      → group.hash (at i) ≡ 0
      → Passed i out
      → Latest group.keys n base key lower upper out
  all-Passed i out free passed =
      let before : (e : ℕ) → FitsHere e → p.steps e < i = λ e f. elim (dec_lt (p.steps e) i) [
        | yes q ↦ q
        | no q ↦ elim (ℕ_discrete (p.steps e) i) [
          | yes same ↦ absurd (omega (arith, ap (λ (t : ℕ). group.hash (at t)) same, comes_by e f))
          | no other ↦
              let used = (p.path e i f.0 (omega arith)).0 in
              let same : group.hash (ahead (index_hash (group.keys e)) i) ≡ 0 = rw (f.1) free in
              absurd (omega arith)
        ]
      ] in
      elim passed [
        | inl (e, none') ↦ inl (e, λ e' f. omega (arith, before e' f, none' e' f))
        | inr (e, fits, same, last) ↦ inr (e, fits, same, λ e' f. last e' f (before e' f))
      ]

  -- One step over the entry `e`.
  step_Passed :
      (i out e : ℕ)
      → i < 8192
      → group.hash (at i) ≡ suc e
      → Passed i out
      → Passed
          (suc i)
          (if wanted (suc e + base) lower upper (group.keys e) key then suc e + base else out)
  step_Passed i out e low here passed =
      let (old, stands) = p.home (at i) e (at_lt i) here in
      -- An entry that fits and stands here is this one.
      let only : (e' : ℕ) → FitsHere e' → p.steps e' ≡ i → e' ≡ e =
        λ e' f q. omega (arith, comes_by e' f, ap (λ (t : ℕ). group.hash (at t)) q) in
      elim (Bool-cases (wanted (suc e + base) lower upper (group.keys e) key)) [
        | inl w ↦
            let (q, r, same) = wanted-true (suc e + base) lower upper (group.keys e) key w in
            let fits : FitsHere e = (old, same, r, q) in
            let steps : p.steps e ≡ i =
              at_injective (p.steps e) i (p.steps_lt e old) low
                (sym (ap (λ (t : ℕ). ahead (index_hash t) (p.steps e)) same) ∙ stands) in
            rw w (
              inr (
                e,
                fits,
                refl,
                λ e' f h. elim (ℕ_discrete (p.steps e') i) [
                  | yes q' ↦ omega (arith, only e' f q')
                  | no q' ↦
                      let low' = (p.path e (p.steps e') old (omega arith)).1 in
                      let there : group.hash (ahead (index_hash (group.keys e)) (p.steps e'))
                          ≡ suc e' =
                        rw same (comes_by e' f) in
                      omega arith
                ],
              ))
        | inr w ↦
            let other : (e' : ℕ) → FitsHere e' → p.steps e' ≢ i = λ e' f q.
              let same = only e' f q in
              wanted-false (suc e + base) lower upper (group.keys e) key w (omega arith)
                (omega arith) (rw (sym same) f.1) in
            rw w (elim passed [
              | inl (z, none') ↦ inl (z, λ e' f. omega (arith, none' e' f, other e' f))
              | inr (e', fits, same, last) ↦
                  inr (e', fits, same, λ e'' f h. last e'' f (omega (arith, other e'' f)))
            ])
      ]

  search_step :
      (c key_hash out e : ℕ)
      → group.hash key_hash ≡ suc e
      → search_group (suc c) group base key lower upper key_hash out
        ≡ search_group c group base key lower upper
            (next_index_hash key_hash)
            (if wanted (suc e + base) lower upper (group.keys e) key then suc e + base else out)
  unfolding search_group
  search_step c key_hash out e h =
      let back : suc e - 1 ≡ e = omega arith in
      rw (search_group, h, back, ne→beq_false (suc e) 0 (omega arith)) refl

  search_from :
      (collisions i out j : ℕ)
      → i ≤ j
      → j ≤ i + collisions
      → j < 8192
      → group.hash (at j) ≡ 0
      → Passed i out
      → (out' : ℕ) × (search_group collisions group base key lower upper (at i) out ≡ (true, out'))
        × Latest group.keys n base key lower upper out'
  unfolding search_group
  search_from zero i out j h k low free passed =
      let same : i ≡ j = omega arith in
      let free' : group.hash (at i) ≡ 0 = rw same free in
      (
        out,
        rw (search_group, eq→beq (group.hash (at i)) 0 free') refl,
        all-Passed i out free' passed,
      )
  search_from (suc c) i out j h k low free passed = elim (ℕ_discrete (group.hash (at i)) 0) [
    | yes free' ↦ (
      out,
      rw (search_group, eq→beq (group.hash (at i)) 0 free') refl,
      all-Passed i out free' passed,
    )
    | no taken ↦
        let e = group.hash (at i) - 1 in
        let here : group.hash (at i) ≡ suc e = omega arith in
        let far : i ≢ j = λ q. taken (ap (λ (t : ℕ). group.hash (at t)) q ∙ free) in
        let next : next_index_hash (at i) ≡ at (suc i) =
          omega (arith, next_index_hash_lem (at i)) in
        let out1 =
          if wanted (suc e + base) lower upper (group.keys e) key then suc e + base else out in
        let (out', run, latest) =
          search_from c (suc i) out1 j (omega arith) (omega arith) low free
            (step_Passed i out e (omega arith) here passed) in
        (
          out',
          search_step c (at i) out e here
              ∙ ap (λ (t : ℕ). search_group c group base key lower upper t out1) next
              ∙ run,
          latest,
        )
  ]

  -- In a group with fewer entries than slots the search ends at a free slot, with the last entry that fits.
  pub search_group-Latest :
      n < 8192
      → (out : ℕ) × (search_group 8192 group base key lower upper (index_hash key) 0 ≡ (true, out))
        × Latest group.keys n base key lower upper out
  search_group-Latest few =
      let (j, low, free) = Placed-free group.keys n group.hash key p few in
      let start : at 0 ≡ index_hash key = omega (arith, index_hash_lt key) in
      let (out, run, latest) =
        search_from 8192 0 0 j (omega arith) (omega arith) low free
          (inl (refl, λ e f. omega arith)) in
      (
        out,
        ap (λ (t : ℕ). search_group 8192 group base key lower upper t 0) (sym start) ∙ run,
        latest,
      )
