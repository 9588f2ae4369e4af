-- ===== src/Bufmgr/Bounds.antt =====
-- Lists and tables of addresses below a bound.
use cub_db.Common.{
  ℕ, ◌≤◌, ◌<◌, ◌==◌, arith, Bool, true, false, List, [], ◌∷◌, ◌++◌, Option, none, some,
  if◌then◌else◌, All,
}
use cub_db.Bufmgr.PageTable.{
  PageTable, find_pointer, first, bucket, set_bucket, unlink_first, insert, remove,
}
use cub_db.Bufmgr.Cache.{without, last}

abbrev pub Below : ℕ → List ℕ → Type 0
Below n l = All (λ a. a < n) l

-- A found address satisfies the bound.
abbrev pub OptionBelow : ℕ → Option ℕ → Type 0
OptionBelow n none = Unit {0}
OptionBelow n (some a) = a < n

pub Below-append : (n : ℕ) (xs ys : List ℕ) → Below n xs → Below n ys → Below n (xs ++ ys)
Below-append n [] ys h g = g
Below-append n (x ∷ xs) ys (hx, h) g = (hx, Below-append n xs ys h g)

pub Below-le : (n m : ℕ) (l : List ℕ) → n ≤ m → Below n l → Below m l
Below-le n m [] le h = tt
Below-le n m (x ∷ l) le (hx, h) = (omega arith, Below-le n m l le h)

pub Below-if :
    (n : ℕ) (t : Bool) (xs ys : List ℕ) → Below n xs → Below n ys → Below n (if t then xs else ys)
Below-if n true xs ys h g = h
Below-if n false xs ys h g = g

pub Below-without : (n a : ℕ) (l : List ℕ) → Below n l → Below n (without a l)
unfolding without
Below-without n a [] h = tt
Below-without n a (x ∷ l) (hx, h) =
    let rest = Below-without n a l h in Below-if n (x == a) _ _ rest (hx, rest)

pub Below-last : (n : ℕ) (l : List ℕ) → Below n l → OptionBelow n (last l)
unfolding last
Below-last n [] h = tt
Below-last n (x ∷ []) h = h.0
Below-last n (x ∷ y ∷ l) h = Below-last n (y ∷ l) h.1

pub Below-first : (n : ℕ) (l : List ℕ) → Below n l → OptionBelow n (first l)
unfolding first
Below-first n [] h = tt
Below-first n (x ∷ l) h = h.0

-- The two parts of a chain.
abbrev pub Parts : ℕ → List ℕ × List ℕ → Type 0
Parts n p = Below n p.0 × Below n p.1

if-Parts :
    (n : ℕ) (t : Bool) (p q : List ℕ × List ℕ)
    → Parts n p
    → Parts n q
    → Parts n (if t then p else q)
if-Parts n true p q h g = h
if-Parts n false p q h g = g

pub find_pointer-Parts :
    (n : ℕ) (of : ℕ → ℕ) (l : List ℕ) (k : ℕ) → Below n l → Parts n (find_pointer of l k)
unfolding find_pointer
find_pointer-Parts n of [] k h = (tt, tt)
find_pointer-Parts n of (a ∷ l) k h =
    let rest = find_pointer-Parts n of l k h.1 in
    if-Parts n (of a == k) _ _ (tt, h) ((h.0, rest.0), rest.1)

abbrev pub TableBelow : ℕ → PageTable → Type 0
TableBelow n t = (i : ℕ) → Below n (t.table i)

set_bucket-TableBelow :
    (n : ℕ) (t : PageTable) (i : ℕ) (chain : List ℕ)
    → TableBelow n t
    → Below n chain
    → TableBelow n (set_bucket t i chain)
unfolding set_bucket
set_bucket-TableBelow n t i chain h g j = Below-if n (j == i) chain _ g (h j)

pub insert-TableBelow :
    (n : ℕ) (of : ℕ → ℕ) (t : PageTable) (a : ℕ)
    → TableBelow n t
    → a < n
    → TableBelow n (insert of t a)
unfolding insert
insert-TableBelow n of t a h lt =
    set_bucket-TableBelow n t _ _ h (
      Below-append n _ (a ∷ []) (find_pointer-Parts n of _ (of a) (h (bucket t (of a)))).0 (lt, tt))

pub unlink_first-TableBelow :
    (n : ℕ) (t : PageTable) (i : ℕ) (p : List ℕ × List ℕ)
    → TableBelow n t
    → Parts n p
    → TableBelow n (unlink_first t i p)
unfolding unlink_first
unlink_first-TableBelow n t i (xs, []) h g = h
unlink_first-TableBelow n t i (xs, a ∷ ys) h g =
    set_bucket-TableBelow n t i (xs ++ ys) h (Below-append n xs ys g.0 g.1.1)

pub remove-TableBelow :
    (n : ℕ) (of : ℕ → ℕ) (t : PageTable) (k : ℕ) → TableBelow n t → TableBelow n (remove of t k)
unfolding remove
remove-TableBelow n of t k h =
    unlink_first-TableBelow n t _ _ h (find_pointer-Parts n of _ k (h (bucket t k)))
