-- ===== src/Bufmgr/Sort.antt =====
-- `Dirtylist::sort` sorts the pages by their IDs.
use native.Mathlib.Decide.{dec_lt}
use cub_db.Common.{
  ℕ, zero, suc, ◌+◌, ◌*◌, ◌^◌, ◌≤◌, ◌<◌, ◌≡◌, ◌⊎◌, inl, inr, refl, arith, Bool, true, List, [], ◌∷◌,
  Option, some, All, length, if◌then◌else◌, lt→ltb, le→ltb_false,
}
use cub_db.Bufmgr.Dirtylist.{
  DirtyHdr, merge_loop, dirtylist_merge, place, fill_buckets, collect, sort, no_buckets,
  sort_buckets,
}

-- In the order of the page IDs.
abbrev pub Sorted : List DirtyHdr → Type 0
Sorted [] = Unit
Sorted (x ∷ xs) = All (λ (y : DirtyHdr). x.page_id ≤ y.page_id) xs × Sorted xs

-- How many entries of the list pass the test.
abbrev pub count : (DirtyHdr → Bool) → List DirtyHdr → ℕ
count p [] = 0
count p (x ∷ xs) = (if p x then 1 else 0) + count p xs

merge_loop_left :
    (x y : DirtyHdr) (xs ys : List DirtyHdr)
    → x.page_id < y.page_id
    → merge_loop (x ∷ xs) (y ∷ ys) ≡ x ∷ merge_loop xs (y ∷ ys)
unfolding merge_loop
merge_loop_left x y xs ys h = rw (merge_loop, lt→ltb x.page_id y.page_id h) refl

merge_loop_right :
    (x y : DirtyHdr) (xs ys : List DirtyHdr)
    → y.page_id ≤ x.page_id
    → merge_loop (x ∷ xs) (y ∷ ys) ≡ y ∷ merge_loop (x ∷ xs) ys
unfolding merge_loop
merge_loop_right x y xs ys h = rw (merge_loop, le→ltb_false x.page_id y.page_id h) refl

count-merge_loop :
    (p : DirtyHdr → Bool) (xs ys : List DirtyHdr)
    → count p (merge_loop xs ys) ≡ count p xs + count p ys
unfolding merge_loop
count-merge_loop p [] ys = omega arith
count-merge_loop p (x ∷ xs) [] = omega arith
count-merge_loop p (x ∷ xs) (y ∷ ys) = elim (dec_lt x.page_id y.page_id) [
  | yes h ↦ rw (merge_loop_left x y xs ys h) (omega (arith, count-merge_loop p xs (y ∷ ys)))
  | no h ↦
      rw (merge_loop_right x y xs ys (omega arith)) (omega (arith, count-merge_loop p (x ∷ xs) ys))
]

All-merge_loop {κ} :
    (P : DirtyHdr → Type κ) (xs ys : List DirtyHdr) → All P xs → All P ys → All P (merge_loop xs ys)
unfolding merge_loop
All-merge_loop P [] ys hx hy = hy
All-merge_loop P (x ∷ xs) [] hx hy = hx
All-merge_loop P (x ∷ xs) (y ∷ ys) hx hy = elim (dec_lt x.page_id y.page_id) [
  | yes h ↦ rw (merge_loop_left x y xs ys h) (hx.0, All-merge_loop P xs (y ∷ ys) hx.1 hy)
  | no h ↦
      rw (merge_loop_right x y xs ys (omega arith)) (hy.0, All-merge_loop P (x ∷ xs) ys hx hy.1)
]

All-le :
    (a b : ℕ) (xs : List DirtyHdr)
    → a ≤ b
    → All (λ (y : DirtyHdr). b ≤ y.page_id) xs
    → All (λ (y : DirtyHdr). a ≤ y.page_id) xs
All-le a b [] h k = tt
All-le a b (x ∷ xs) h k = (omega (arith, k.0), All-le a b xs h k.1)

merge_loop-Sorted : (xs ys : List DirtyHdr) → Sorted xs → Sorted ys → Sorted (merge_loop xs ys)
unfolding merge_loop
merge_loop-Sorted [] ys hx hy = hy
merge_loop-Sorted (x ∷ xs) [] hx hy = hx
merge_loop-Sorted (x ∷ xs) (y ∷ ys) hx hy = elim (dec_lt x.page_id y.page_id) [
  | yes h ↦ rw (merge_loop_left x y xs ys h) (
    All-merge_loop _ xs (y ∷ ys) hx.0
        (omega arith, All-le x.page_id y.page_id ys (omega arith) hy.0),
    merge_loop-Sorted xs (y ∷ ys) hx.1 hy,
  )
  | no h ↦ rw (merge_loop_right x y xs ys (omega arith)) (
    All-merge_loop _ (x ∷ xs) ys (omega arith, All-le y.page_id x.page_id xs (omega arith) hx.0)
        hy.0,
    merge_loop-Sorted (x ∷ xs) ys hx hy.1,
  )
]

abbrev every : DirtyHdr → Bool
every x = true

count-every : (xs : List DirtyHdr) → count every xs ≡ length xs
count-every [] = refl
count-every (x ∷ xs) = omega (arith, count-every xs)

-- The buckets: each is empty or holds twice as many sorted entries as the one before.
abbrev Buckets : ℕ → List (List DirtyHdr) → Type 0
Buckets s [] = Unit
Buckets s (b ∷ arr) = ((b ≡ []) ⊎ (count every b ≡ s)) × Sorted b × Buckets (2 * s) arr

abbrev tally : (DirtyHdr → Bool) → List (List DirtyHdr) → ℕ
tally p [] = 0
tally p (b ∷ arr) = count p b + tally p arr

-- The entries that so many buckets take before the last one is reached, and one.
abbrev room : ℕ → ℕ → ℕ
room s zero = 0
room s (suc zero) = s
room s (suc (suc k)) = room (2 * s) (suc k)

-- The run `out` puts the entries of `ptr` into the buckets.
record Placed (s : ℕ) (arr : List (List DirtyHdr)) (ptr : List DirtyHdr)
    (out : Option (List (List DirtyHdr))) : Type 0 where
  arr' : List (List DirtyHdr)
  run : out ≡ some arr'
  buckets : Buckets s arr'
  same_length : length arr' ≡ length arr
  tallies : (p : DirtyHdr → Bool) → tally p arr' ≡ tally p arr + count p ptr

dirtylist_merge-some :
    (b : DirtyHdr) (bs ptr : List DirtyHdr)
    → 0 < count every ptr
    → dirtylist_merge (b ∷ bs) ptr ≡ some (merge_loop (b ∷ bs) ptr)
unfolding dirtylist_merge
dirtylist_merge-some b bs [] h = absurd (omega arith)
dirtylist_merge-some b bs (p ∷ ps) h = refl

place-Placed :
    (s : ℕ) (arr : List (List DirtyHdr)) (ptr : List DirtyHdr)
    → 0 < s
    → count every ptr ≡ s
    → Sorted ptr
    → Buckets s arr
    → tally every arr + s < room s (length arr)
    → Placed s arr ptr (place arr ptr)
unfolding place
place-Placed s [] ptr pos size sorted bs space = absurd (omega arith)
place-Placed s (b ∷ []) ptr pos size sorted bs space = absurd (omega arith)
place-Placed s ([] ∷ next ∷ arr) ptr pos size sorted bs space = record {
  arr' = ptr ∷ next ∷ arr;
  run = refl;
  buckets = (inr size, sorted, bs.2);
  same_length = refl;
  tallies = λ q. omega arith;
}
place-Placed s ((b ∷ b') ∷ next ∷ arr) ptr pos size sorted (full, sorted', bs) space =
    let here : count every (b ∷ b') ≡ s = elim full [ inl e ↦ absurd (cc) | inr e ↦ e ] in
    let ptr' = merge_loop (b ∷ b') ptr in
    let size' : count every ptr' ≡ 2 * s = omega (arith, count-merge_loop every (b ∷ b') ptr) in
    let rest =
      place-Placed (2 * s) (next ∷ arr) ptr' (omega arith) size'
        (merge_loop-Sorted (b ∷ b') ptr sorted' sorted) bs (omega arith) in
    record {
      arr' = [] ∷ rest.arr';
      run = rw (dirtylist_merge-some b b' ptr (omega arith), rest.run) refl;
      buckets = (inl refl, tt, rest.buckets);
      same_length = omega (arith, rest.same_length);
      tallies = λ q. omega (arith, rest.tallies q, count-merge_loop q (b ∷ b') ptr);
    }

record Filled (arr : List (List DirtyHdr)) (entries : List DirtyHdr)
    (out : Option (List (List DirtyHdr))) : Type 0 where
  arr' : List (List DirtyHdr)
  run : out ≡ some arr'
  buckets : Buckets 1 arr'
  tallies : (p : DirtyHdr → Bool) → tally p arr' ≡ tally p arr + count p entries

fill_buckets-Filled :
    (entries : List DirtyHdr) (arr : List (List DirtyHdr))
    → Buckets 1 arr
    → tally every arr + length entries < room 1 (length arr)
    → Filled arr entries (fill_buckets entries arr)
unfolding fill_buckets
fill_buckets-Filled [] arr bs space = record {
  arr' = arr;
  run = refl;
  buckets = bs;
  tallies = λ q. omega arith;
}
fill_buckets-Filled (x ∷ xs) arr bs space =
    let first = place-Placed 1 arr (x ∷ []) (omega arith) refl (tt, tt) bs (omega arith) in
    let space' : tally every first.arr' + length xs < room 1 (length first.arr') =
      rw first.same_length (omega (arith, first.tallies every)) in
    let rest = fill_buckets-Filled xs first.arr' first.buckets space' in
    record {
      arr' = rest.arr';
      run = rw first.run rest.run;
      buckets = rest.buckets;
      tallies = λ q. omega (arith, rest.tallies q, first.tallies q);
    }

-- A sorted list with so many entries that pass each test.
record Collected (amount : (DirtyHdr → Bool) → ℕ) (out : Option (List DirtyHdr)) : Type 0 where
  sorted : List DirtyHdr
  run : out ≡ some sorted
  in_order : Sorted sorted
  counts : (p : DirtyHdr → Bool) → count p sorted ≡ amount p

collect-Collected :
    (s : ℕ) (ptr : List DirtyHdr) (arr : List (List DirtyHdr))
    → Sorted ptr
    → Buckets s arr
    → Collected (λ q. count q ptr + tally q arr) (collect ptr arr)
unfolding collect dirtylist_merge
collect-Collected s ptr [] sorted bs = record {
  sorted = ptr;
  run = refl;
  in_order = sorted;
  counts = λ q. omega arith;
}
collect-Collected s ptr ([] ∷ arr) sorted (e, sorted', bs) =
    let rest = collect-Collected (2 * s) ptr arr sorted bs in
    record {
      sorted = rest.sorted;
      run = rest.run;
      in_order = rest.in_order;
      counts = λ q. omega (arith, rest.counts q);
    }
collect-Collected s [] ((b ∷ b') ∷ arr) sorted (e, sorted', bs) =
    let rest = collect-Collected (2 * s) (b ∷ b') arr sorted' bs in
    record {
      sorted = rest.sorted;
      run = rest.run;
      in_order = rest.in_order;
      counts = λ q. omega (arith, rest.counts q);
    }
collect-Collected s (p ∷ ps) ((b ∷ b') ∷ arr) sorted (e, sorted', bs) =
    let rest =
      collect-Collected (2 * s) (merge_loop (p ∷ ps) (b ∷ b')) arr
        (merge_loop-Sorted (p ∷ ps) (b ∷ b') sorted sorted') bs in
    record {
      sorted = rest.sorted;
      run = rest.run;
      in_order = rest.in_order;
      counts = λ q. omega (arith, rest.counts q, count-merge_loop q (p ∷ ps) (b ∷ b'));
    }

tally-no_buckets : (p : DirtyHdr → Bool) (n : ℕ) → tally p (no_buckets n) ≡ 0
tally-no_buckets p zero = refl
tally-no_buckets p (suc n) = omega (arith, tally-no_buckets p n)

no_buckets-Buckets : (n s : ℕ) → Buckets s (no_buckets n)
no_buckets-Buckets zero s = tt
no_buckets-Buckets (suc n) s = (inl refl, tt, no_buckets-Buckets n (2 * s))

-- Of fewer than 2 ^ 31 entries, `sort` makes a list in the order of the page IDs that has the same entries, each
-- as often; it never merges with an empty list.
pub sort-Sorted :
    (entries : List DirtyHdr)
    → length entries < 2 ^ 31
    → (out : List DirtyHdr) × (sort entries ≡ some out)
      × Sorted out
      × ((p : DirtyHdr → Bool) → count p out ≡ count p entries)
unfolding sort
sort-Sorted entries few =
    let filled =
      fill_buckets-Filled entries (no_buckets sort_buckets) (no_buckets-Buckets sort_buckets 1)
        (omega (arith, tally-no_buckets every sort_buckets)) in
    let collected = collect-Collected 1 [] filled.arr' tt filled.buckets in
    (
      collected.sorted,
      rw filled.run collected.run,
      collected.in_order,
      λ q. omega (arith, collected.counts q, filled.tallies q, tally-no_buckets q sort_buckets),
    )
