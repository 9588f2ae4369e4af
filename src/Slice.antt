-- ===== src/Slice.antt =====
-- include/calicodb/slice.h and src/tree.h: the order of byte strings, and the separators that the tree makes of keys. A
-- slice is the list of its bytes.
pub mod Order
use cub_db.Common.{
  ℕ, zero, suc, ◌+◌, ltb, if◌then◌else◌, List, [], ◌∷◌, Option, none, some, length, ◌>>=◌,
}

-- The sign of an `int`.
pub data Sign : Type 0 where
  negative null positive : Sign

-- Of the first `n` bytes, which both have.
unfoldable pub memcmp : List ℕ → List ℕ → ℕ → Sign
memcmp lhs rhs zero = null
memcmp [] rhs (suc n) = null
memcmp (u ∷ lhs) [] (suc n) = null
memcmp (u ∷ lhs) (v ∷ rhs) (suc n) =
    let rest = memcmp lhs rhs n in if ltb u v then negative else if ltb v u then positive else rest

-- `Slice::compare`.
unfoldable pub compare : List ℕ → List ℕ → Sign
compare lhs rhs =
    let min_length = if ltb (length lhs) (length rhs) then length lhs else length rhs in
    elim (memcmp lhs rhs min_length) [
      | null ↦
          if ltb (length lhs) (length rhs)
          then negative
          else if ltb (length rhs) (length lhs)
          then positive
          else null
      | r ↦ r
    ]

-- The loop of `truncate_suffix`: where it stops, or none for -1.
unfoldable pub truncate_loop : List ℕ → List ℕ → ℕ → Option ℕ
truncate_loop [] rhs n = some n
truncate_loop (u ∷ lhs) [] n = some n
truncate_loop (u ∷ lhs) (v ∷ rhs) n =
    let rest = truncate_loop lhs rhs (n + 1) in
    if ltb u v then some n else if ltb v u then none else rest

-- `range(0, size)`
unfoldable pub prefix : List ℕ → ℕ → List ℕ
prefix bytes zero = []
prefix [] (suc size) = []
prefix (b ∷ bytes) (suc size) = b ∷ prefix bytes size

unfoldable pub truncate_suffix : List ℕ → List ℕ → Option (List ℕ)
truncate_suffix lhs rhs = do
  n ← truncate_loop lhs rhs 0
  some (prefix rhs (if ltb (n + 1) (length rhs) then n + 1 else length rhs))
