-- ===== src/HashIndex/Build.antt =====
-- The table of a group as its entries are put in, one after the other.
use native.Mathlib.Decide.{ℕ_discrete}
use native.Mathlib.Nat.{zero-add, suc-add}
use cub_db.Common.{ℕ, zero, suc, ◌+◌, ◌-◌, ◌%◌, ◌≤◌, ◌<◌, ◌≡◌, ◌≢◌, refl, sym, ap, ◌∙◌, arith}
use cub_db.Common.{Option, some, ltb, lt→ltb, ◌==◌, if◌then◌else◌, eq→beq, ne→beq_false}
use cub_db.HashIndex.{Group, index_hash, next_index_hash, find_slot, store}
use cub_db.HashIndex.Groups.{next_index_hash_lem, index_hash_lt}

pub store_self : (f : ℕ → ℕ) (i v j : ℕ) → j ≡ i → store f i v j ≡ v
store_self f i v j e = rw (eq→beq j i e) refl

pub store_ne : (f : ℕ → ℕ) (i v j : ℕ) → j ≢ i → store f i v j ≡ f j
store_ne f i v j n = rw (ne→beq_false j i n) refl

-- The slot after so many steps.
abbrev pub ahead : ℕ → ℕ → ℕ
ahead slot i = (slot + i) % 8192

-- How many of the next slots are in use.
unfoldable pub used : (ℕ → ℕ) → ℕ → ℕ → ℕ
used hash slot zero = 0
used hash slot (suc k) = used hash slot k + (if hash (ahead slot k) == 0 then 0 else 1)

free_slot :
    (hash : ℕ → ℕ) (slot k : ℕ)
    → used hash slot k < k
    → (i : ℕ) × (i < k) × (hash (ahead slot i) ≡ 0)
unfolding used
free_slot hash slot zero h = absurd (omega arith)
free_slot hash slot (suc k) h = elim (ℕ_discrete (hash (ahead slot k)) 0) [
  | yes e ↦ (k, omega arith, e)
  | no n ↦ let (i, p, q) = free_slot hash slot k (ground arith) in (i, omega arith, q)
]

-- The first slot can be counted apart.
used_first :
    (hash : ℕ → ℕ) (slot k : ℕ)
    → used hash slot (suc k)
      ≡ (if hash (ahead slot 0) == 0 then 0 else 1) + used hash (ahead slot 1) k
unfolding used
used_first hash slot zero = omega arith
used_first hash slot (suc k) =
    let e : ahead (ahead slot 1) k ≡ ahead slot (suc k) = omega arith in
    let ih = used_first hash slot k in rw e (omega (arith, ih))

-- All slots around, from wherever they are counted.
used_around :
    (hash : ℕ → ℕ) (slot k : ℕ) → k ≡ 8192 → slot < 8192 → used hash slot k ≡ used hash 0 k
unfolding used
used_around hash zero k e h = refl
used_around hash (suc slot) k e h =
    let next : ahead slot 1 ≡ suc slot = omega arith in
    let round : ahead slot k ≡ ahead slot 0 = omega arith in
    let step = used_first hash slot k in
    let last : used hash slot (suc k)
        ≡ used hash slot k + (if hash (ahead slot 0) == 0 then 0 else 1) =
      rw (used, round) refl in
    let moved : used hash (ahead slot 1) k ≡ used hash slot k = omega (arith, step, last) in
    rw (sym next) (moved ∙ used_around hash slot k e (omega arith))

pub used-store :
    (hash : ℕ → ℕ) (slot v k : ℕ)
    → k ≤ 8192
    → 0 < v
    → hash slot ≡ 0
    → used (store hash slot v) 0 k ≡ used hash 0 k + (if ltb slot k then 1 else 0)
unfolding used
used-store hash slot v zero h pos free = ground arith
used-store hash slot v (suc k) h pos free =
    let e : ahead 0 k ≡ k = omega arith in
    rw e (ground (arith, used-store hash slot v k (omega arith) pos free))

-- Where `find_slot` ends when one of the slots that it comes to is free.
pub record FirstFree (hash : ℕ → ℕ) (slot i : ℕ) (out : Option ℕ) : Type 0 where
  pub steps : ℕ
  pub near : steps ≤ i
  pub found : out ≡ some (ahead slot steps)
  pub free : hash (ahead slot steps) ≡ 0
  pub before : (j : ℕ) → j < steps → 0 < hash (ahead slot j)

module _ (hash : ℕ → ℕ) (slot : ℕ) (h : slot < 8192) where
  FirstFree-here :
      (i : ℕ) (out : Option ℕ) → hash slot ≡ 0 → out ≡ some slot → FirstFree hash slot i out
  FirstFree-here i out free e =
      let same : ahead slot 0 ≡ slot = omega arith in
      record {
        steps = 0;
        near = omega arith;
        found = rw same e;
        free = rw same free;
        before = λ j p. absurd (omega arith);
      }

  FirstFree-next :
      (i : ℕ) (out : Option ℕ)
      → hash slot ≢ 0
      → FirstFree hash (next_index_hash slot) i out
      → FirstFree hash slot (suc i) out
  FirstFree-next i out taken f =
      let step : (j : ℕ) → ahead (next_index_hash slot) j ≡ ahead slot (suc j) =
        λ j. omega (arith, next_index_hash_lem slot) in
      let same : ahead slot 0 ≡ slot = omega arith in
      record {
        steps = suc f.steps;
        near = omega (arith, f.near);
        found = f.found ∙ ap (λ (t : ℕ). some t) (step f.steps);
        free = ap hash (sym (step f.steps)) ∙ f.free;
        before = λ j p. elim (ℕ_discrete j 0) [
          | yes e ↦ rw (e, same) (omega arith)
          | no n ↦
              let back : ahead slot j ≡ ahead (next_index_hash slot) (j - 1) =
                omega (arith, step (j - 1)) in
              rw back (f.before (j - 1) (omega arith))
        ];
      }

pub find_slot-FirstFree :
    (collisions : ℕ) (hash : ℕ → ℕ) (slot i : ℕ)
    → slot < 8192
    → i ≤ collisions
    → hash (ahead slot i) ≡ 0
    → FirstFree hash slot i (find_slot collisions hash slot)
unfolding find_slot
find_slot-FirstFree zero hash slot i h k e =
    let same : ahead slot i ≡ slot = omega arith in
    let free : hash slot ≡ 0 = ap hash (sym same) ∙ e in
    FirstFree-here hash slot h i _ free (rw (eq→beq (hash slot) 0 free) refl)
find_slot-FirstFree (suc c) hash slot i h k e = elim (ℕ_discrete (hash slot) 0) [
  | yes free ↦ FirstFree-here hash slot h i _ free (rw (find_slot, eq→beq (hash slot) 0 free) refl)
  | no taken ↦ elim (ℕ_discrete i 0) [
    | yes none' ↦
        let same : ahead slot i ≡ slot = omega arith in absurd (taken (ap hash (sym same) ∙ e))
    | no some' ↦
        let next = next_index_hash slot in
        let small : next < 8192 = omega (arith, next_index_hash_lem slot) in
        let same : ahead next (i - 1) ≡ ahead slot i = omega (arith, next_index_hash_lem slot) in
        let count : suc (i - 1) ≡ i = omega arith in
        let rest = find_slot-FirstFree c hash next (i - 1) small (omega arith) (ap hash same ∙ e) in
        rw (find_slot, ne→beq_false (hash slot) 0 taken)
          (rw (sym count) (FirstFree-next hash slot h (i - 1) _ taken rest))
  ]
]

-- A table in which each of the first entries stands at the first slot that was free for it.
pub record Placed (keys : ℕ → ℕ) (n : ℕ) (hash : ℕ → ℕ) : Type 0 where
  pub steps : ℕ → ℕ
  pub steps_lt : (e : ℕ) → e < n → steps e < 8192
  pub place : (e : ℕ) → e < n → hash (ahead (index_hash (keys e)) (steps e)) ≡ suc e
  pub path :
      (e i : ℕ)
      → e < n
      → i < steps e
      → (0 < hash (ahead (index_hash (keys e)) i)) × (hash (ahead (index_hash (keys e)) i) ≤ e)
  pub home :
      (s e : ℕ) → s < 8192 → hash s ≡ suc e → (e < n) × (ahead (index_hash (keys e)) (steps e) ≡ s)
  pub count : (k : ℕ) → k ≡ 8192 → used hash 0 k ≡ n

used-zero : (k : ℕ) → used (λ s. 0) 0 k ≡ 0
unfolding used
used-zero zero = refl
used-zero (suc k) = omega (arith, used-zero k)

pub Placed-zero : (keys : ℕ → ℕ) → Placed keys 0 (λ s. 0)
Placed-zero keys = record {
  steps = λ e. 0;
  steps_lt = λ e p. absurd (omega arith);
  place = λ e p. absurd (omega arith);
  path = λ e i p q. absurd (omega arith);
  home = λ s e p q. absurd (omega arith);
  count = λ k e. used-zero k;
}

used_more : (hash : ℕ → ℕ) (slot k d : ℕ) → used hash slot k ≤ used hash slot (d + k)
unfolding used
used_more hash slot k zero = rw zero-add (omega arith)
used_more hash slot k (suc d) = rw suc-add (ground (arith, used_more hash slot k d))

module _ (keys : ℕ → ℕ) (n : ℕ) (hash : ℕ → ℕ) (p : Placed keys n hash) where
  -- There is room for the next entry, within the collisions that `assign` allows.
  pub Placed-FirstFree :
      (key : ℕ)
      → n < 8191
      → (i : ℕ) × (i ≤ n)
        × FirstFree hash (index_hash key) i (find_slot (suc n) hash (index_hash key))
  Placed-FirstFree key room =
      let slot = index_hash key in
      let low : slot < 8192 = index_hash_lt key in
      let total : used hash slot 8192 ≡ n =
        used_around hash slot 8192 refl low ∙ p.count 8192 refl in
      let few : used hash slot (suc n) ≤ n =
        let d : 8191 - n + suc n ≡ 8192 = omega arith in
        let more : used hash slot (suc n) ≤ used hash slot 8192 =
          rw (sym d) (used_more hash slot (suc n) (8191 - n)) in
        omega arith in
      let (i, near, free) = free_slot hash slot (suc n) (omega arith) in
      (i, omega arith, find_slot-FirstFree (suc n) hash slot i low (omega arith) free)

  -- The next entry goes to the first free slot.
  module _ (i steps : ℕ) (few : n < 8191) (near : steps ≤ i) (i-le : i ≤ n)
      (free : hash (ahead (index_hash (keys n)) steps) ≡ 0)
      (before : (j : ℕ) → j < steps → 0 < hash (ahead (index_hash (keys n)) j)) where
    abbrev slot : ℕ
    slot = ahead (index_hash (keys n)) steps

    abbrev hash' : ℕ → ℕ
    hash' = store hash slot (suc n)

    abbrev steps' : ℕ → ℕ
    steps' e = if e == n then steps else p.steps e

    steps'_old : (e : ℕ) → e < n → steps' e ≡ p.steps e
    steps'_old e q = rw (ne→beq_false e n (omega arith)) refl

    steps'_new : (e : ℕ) → e ≡ n → steps' e ≡ steps
    steps'_new e q = rw (eq→beq e n q) refl

    -- Slots in use stay as they are.
    hash'_used : (s : ℕ) → 0 < hash s → hash' s ≡ hash s
    hash'_used s q = store_ne hash slot (suc n) s (λ e. absurd (omega (arith, ap hash e ∙ free)))

    used_bound : (s : ℕ) → s < 8192 → hash s ≤ n
    used_bound s q = elim (ℕ_discrete (hash s) 0) [
      | yes z ↦ omega arith
      | no z ↦ omega (arith, p.home s (hash s - 1) q (omega arith))
    ]

    pub Placed-step : Placed keys (suc n) hash'
    Placed-step = record {
      steps = steps';
      steps_lt = λ e q. elim (ℕ_discrete e n) [
        | yes same ↦ rw (steps'_new e same) (omega arith)
        | no other ↦ rw (steps'_old e (omega arith)) (p.steps_lt e (omega arith))
      ];
      place = λ e q. elim (ℕ_discrete e n) [
        | yes same ↦ rw (steps'_new e same) (rw same (store_self hash slot (suc n) slot refl))
        | no other ↦
            let old = p.place e (omega arith) in
            rw (steps'_old e (omega arith)) (hash'_used _ (omega arith) ∙ old)
      ];
      path = λ e j q r. elim (ℕ_discrete e n) [
        | yes same ↦
            let used' = before j (omega (arith, steps'_new e same)) in
            rw same (rw (hash'_used _ used') (used', used_bound _ (omega arith)))
        | no other ↦
            let (used', low) =
              p.path e j (omega arith) (omega (arith, steps'_old e (omega arith))) in
            rw (hash'_used _ used') (used', low)
      ];
      home = λ s e q r. elim (ℕ_discrete s slot) [
        | yes here ↦
            let same : e ≡ n = omega (arith, store_self hash slot (suc n) s here) in
            (omega arith, rw (steps'_new e same) (rw same (sym here)))
        | no away ↦
            let (old, there) = p.home s e q (sym (store_ne hash slot (suc n) s away) ∙ r) in
            (omega arith, rw (steps'_old e old) there)
      ];
      count = λ k q.
          used-store hash slot (suc n) k (omega arith) (omega arith) free
          ∙ rw (lt→ltb slot k (omega arith)) (omega (arith, p.count k q));
    }

-- Only the keys of the entries matter.
pub Placed-keys :
    (keys keys' : ℕ → ℕ) (n : ℕ) (hash : ℕ → ℕ)
    → ((e : ℕ) → e < n → keys' e ≡ keys e)
    → Placed keys n hash
    → Placed keys' n hash
Placed-keys keys keys' n hash same p = record {
  steps = p.steps;
  steps_lt = p.steps_lt;
  place = λ e q. rw (same e q) (p.place e q);
  path = λ e i q r. rw (same e q) (p.path e i q r);
  home = λ s e q r. let (old, there) = p.home s e q r in (old, rw (same e old) there);
  count = p.count;
}

-- With fewer entries than slots, a search comes to a free slot.
pub Placed-free :
    (keys : ℕ → ℕ) (n : ℕ) (hash : ℕ → ℕ) (key : ℕ)
    → Placed keys n hash
    → n < 8192
    → (j : ℕ) × (j < 8192) × (hash (ahead (index_hash key) j) ≡ 0)
Placed-free keys n hash key p few = free_slot hash (index_hash key) 8192 (
    omega
      (arith, used_around hash (index_hash key) 8192 refl (index_hash_lt key), p.count 8192 refl))

-- A group with so many entries, and nothing behind them; the page IDs are not null.
pub record Filled (group : Group) (n : ℕ) : Type 0 where
  pub placed : Placed group.keys n group.hash
  pub nonzero : (e : ℕ) → e < n → 0 < group.keys e
  pub clean : (e : ℕ) → n ≤ e → group.keys e ≡ 0
