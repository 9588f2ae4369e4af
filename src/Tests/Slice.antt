-- ===== src/Tests/Slice.antt =====
-- Keys and their separators.
use cub_db.Common.{ℕ, ◌≡◌, ◌↔◌, refl, List, [], ◌∷◌, ◌++◌, some}
use cub_db.Slice.{negative, memcmp, compare, truncate_loop, prefix, truncate_suffix}
use cub_db.Slice.Order.{Before, compare-Before, truncate_suffix-Before}

abbrev apple : List ℕ
apple = 97 ∷ 112 ∷ 112 ∷ 108 ∷ 101 ∷ []

abbrev avocado : List ℕ
avocado = 97 ∷ 118 ∷ 111 ∷ 99 ∷ 97 ∷ 100 ∷ 111 ∷ []

two_bytes : truncate_suffix apple avocado ≡ some (97 ∷ 118 ∷ [])
unfolding truncate_suffix truncate_loop prefix
two_bytes = refl

apple-avocado : compare apple avocado ≡ negative
unfolding compare memcmp
apple-avocado = refl

compare-Before_example : (compare apple avocado ≡ negative) ↔ Before apple avocado
compare-Before_example = compare-Before apple avocado

truncate_suffix-Before_example :
    (p : List ℕ) × (rest : List ℕ) × (truncate_suffix apple avocado ≡ some p)
    × (compare apple p ≡ negative)
    × (p ++ rest ≡ avocado)
truncate_suffix-Before_example = truncate_suffix-Before apple avocado apple-avocado
