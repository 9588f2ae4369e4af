-- ===== src/Slice/Order.antt =====
-- The comparison is the lexicographic order, and a separator lies between the keys it separates.
use native.Mathlib.Decide.{dec_lt}
use cub_db.Common.{
  ℕ, zero, suc, ◌+◌, ◌<◌, ◌≡◌, ◌⊎◌, ◌↔◌, inl, inr, refl, sym, ap, ◌∙◌, arith, ltb, if◌then◌else◌,
  lt→ltb, le→ltb_false,
}
use cub_db.Common.{List, [], ◌∷◌, ◌++◌, some, length}
use cub_db.Slice.{
  Sign, negative, null, positive, memcmp, compare, truncate_loop, prefix, truncate_suffix,
}

-- The lexicographic order of byte strings.
pub data Before : List ℕ → List ℕ → Type 0 where
  shorter : (v : ℕ) (rhs : List ℕ) → Before [] (v ∷ rhs)
  smaller : (u v : ℕ) (lhs rhs : List ℕ) → u < v → Before (u ∷ lhs) (v ∷ rhs)
  later : (u : ℕ) (lhs rhs : List ℕ) → Before lhs rhs → Before (u ∷ lhs) (u ∷ rhs)

Sign-cases : (s : Sign) → (s ≡ negative) ⊎ ((s ≡ null) ⊎ (s ≡ positive))
Sign-cases negative = inl refl
Sign-cases null = inr (inl refl)
Sign-cases positive = inr (inr refl)

ltb-suc : (a b : ℕ) → ltb (suc a) (suc b) ≡ ltb a b
ltb-suc a b = ground arith

least_suc :
    (a b : ℕ) → (if ltb (suc a) (suc b) then suc a else suc b) ≡ suc (if ltb a b then a else b)
least_suc a b = ground arith

compare_step :
    (u v : ℕ) (lhs rhs : List ℕ)
    → compare (u ∷ lhs) (v ∷ rhs)
      ≡ (if ltb u v then negative else if ltb v u then positive else compare lhs rhs)
unfolding compare memcmp
compare_step u v lhs rhs =
    let a = length lhs in
    let b = length rhs in
    let least = least_suc a b in
    elim (dec_lt u v) [
      | yes h ↦ rw (compare, least, lt→ltb u v h) refl
      | no h ↦ elim (dec_lt v u) [
        | yes g ↦ rw (compare, least, le→ltb_false u v (omega arith), lt→ltb v u g) refl
        | no g ↦
            let first = le→ltb_false u v (omega arith) in
            let second = le→ltb_false v u (omega arith) in
            elim (Sign-cases (memcmp lhs rhs (if ltb a b then a else b))) [
              | inl m ↦ rw (compare, least, first, second, m) refl
              | inr (inl m) ↦ rw (compare, least, first, second, m, ltb-suc a b, ltb-suc b a) refl
              | inr (inr m) ↦ rw (compare, least, first, second, m) refl
            ]
      ]
    ]

compare_less : (u v : ℕ) (lhs rhs : List ℕ) → u < v → compare (u ∷ lhs) (v ∷ rhs) ≡ negative
compare_less u v lhs rhs h = rw (compare_step, lt→ltb u v h) refl

compare_more : (u v : ℕ) (lhs rhs : List ℕ) → v < u → compare (u ∷ lhs) (v ∷ rhs) ≡ positive
compare_more u v lhs rhs h = rw (compare_step, le→ltb_false u v (omega arith), lt→ltb v u h) refl

compare_same : (u : ℕ) (lhs rhs : List ℕ) → compare (u ∷ lhs) (u ∷ rhs) ≡ compare lhs rhs
compare_same u lhs rhs = rw (compare_step, le→ltb_false u u (omega arith)) refl

compare_empty : (v : ℕ) (rhs : List ℕ) → compare [] (v ∷ rhs) ≡ negative
unfolding compare memcmp
compare_empty v rhs =
    let less = lt→ltb 0 (suc (length rhs)) (omega arith) in rw (compare, less, less) refl

compare_onto_empty : (u : ℕ) (lhs : List ℕ) → compare (u ∷ lhs) [] ≡ positive
unfolding compare memcmp
compare_onto_empty u lhs =
    let more = le→ltb_false (suc (length lhs)) 0 (omega arith) in
    rw (compare, more, lt→ltb 0 (suc (length lhs)) (omega arith), more) refl

compare_empties : compare [] [] ≡ null
unfolding compare memcmp
compare_empties = refl

-- `compare` is negative exactly for a slice that comes before the other in lexicographic order.
pub compare-Before : (lhs rhs : List ℕ) → (compare lhs rhs ≡ negative) ↔ Before lhs rhs
compare-Before lhs rhs = (from lhs rhs, to lhs rhs)
  where
    from : (lhs rhs : List ℕ) → compare lhs rhs ≡ negative → Before lhs rhs
    from [] [] h = absurd (cc (h, compare_empties))
    from (u ∷ lhs) [] h = absurd (cc (h, compare_onto_empty u lhs))
    from [] (v ∷ rhs) h = shorter v rhs
    from (u ∷ lhs) (v ∷ rhs) h = elim (dec_lt u v) [
      | yes less ↦ smaller u v lhs rhs less
      | no some' ↦ elim (dec_lt v u) [
        | yes more ↦ absurd (cc (h, compare_more u v lhs rhs more))
        | no same ↦
            let equal : v ≡ u = omega arith in
            let rest : compare lhs rhs ≡ negative =
              sym (compare_same u lhs rhs)
              ∙ ap (λ (t : ℕ). compare (u ∷ lhs) (t ∷ rhs)) (sym equal)
              ∙ h in
            rw equal (later u lhs rhs (from lhs rhs rest))
      ]
    ]

    to : (lhs rhs : List ℕ) → Before lhs rhs → compare lhs rhs ≡ negative
    to _ _ (shorter v rhs) = compare_empty v rhs
    to _ _ (smaller u v lhs rhs h) = compare_less u v lhs rhs h
    to _ _ (later u lhs rhs h) = compare_same u lhs rhs ∙ to lhs rhs h

truncate_loop_lem :
    (lhs rhs : List ℕ) (k : ℕ)
    → Before lhs rhs
    → (n : ℕ) × (truncate_loop lhs rhs k ≡ some (k + n))
      × (n < length rhs)
      × Before lhs (prefix rhs (n + 1))
unfolding truncate_loop prefix
truncate_loop_lem _ _ k (shorter v rhs) =
    let here : k ≡ k + 0 = omega arith in
    (0, ap (λ (t : ℕ). some t) here, omega arith, shorter v [])
truncate_loop_lem _ _ k (smaller u v lhs rhs h) =
    let here : k ≡ k + 0 = omega arith in
    (0, rw (lt→ltb u v h) (ap (λ (t : ℕ). some t) here), omega arith, smaller u v lhs [] h)
truncate_loop_lem _ _ k (later u lhs rhs h) =
    let (n, run, room, before) = truncate_loop_lem lhs rhs (k + 1) h in
    let there : k + 1 + n ≡ k + suc n = omega arith in
    let length' : suc n + 1 ≡ suc (n + 1) = omega arith in
    (
      suc n,
      rw (le→ltb_false u u (omega arith)) (run ∙ ap (λ (t : ℕ). some t) there),
      omega arith,
      rw length' (later u lhs (prefix rhs (n + 1)) before),
    )

prefix_append : (bytes : List ℕ) (size : ℕ) → (rest : List ℕ) × (prefix bytes size ++ rest ≡ bytes)
unfolding prefix
prefix_append bytes zero = (bytes, refl)
prefix_append [] (suc size) = ([], refl)
prefix_append (b ∷ bytes) (suc size) =
    let (rest, same) = prefix_append bytes size in (rest, ap (λ (t : List ℕ). b ∷ t) same)

-- For two slices in order, truncate_suffix succeeds with a slice that comes after the first and is a start of the second.
pub truncate_suffix-Before :
    (lhs rhs : List ℕ)
    → compare lhs rhs ≡ negative
    → (p : List ℕ) × (rest : List ℕ) × (truncate_suffix lhs rhs ≡ some p)
      × (compare lhs p ≡ negative)
      × (p ++ rest ≡ rhs)
unfolding truncate_suffix
truncate_suffix-Before lhs rhs h =
    let (n, run, room, before) = truncate_loop_lem lhs rhs 0 ((compare-Before lhs rhs).0 h) in
    let zero_add : 0 + n ≡ n = omega arith in
    let size : (if ltb (n + 1) (length rhs) then n + 1 else length rhs) ≡ n + 1 = ground arith in
    let (rest, same) = prefix_append rhs (n + 1) in
    (
      prefix rhs (n + 1),
      rest,
      rw (run, zero_add, size) refl,
      (compare-Before lhs (prefix rhs (n + 1))).1 before,
      same,
    )
