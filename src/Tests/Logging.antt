-- ===== src/Tests/Logging.antt =====
-- The parsing of numbers at concrete inputs.
use cub_db.Common.{ℕ, ◌≡◌, refl, true, false, List, [], ◌∷◌, ◌==◌, leb, if◌then◌else◌, length}
use cub_db.Logging.{max_uint64, consume_loop, consume_decimal_number}
use cub_db.Logging.Decimal.{leading_digits, after_digits, number_from, consume_decimal_number_lem}

-- "407x".
abbrev text : List ℕ
text = 52 ∷ 48 ∷ 55 ∷ 120 ∷ []

consume_decimal_number-text : consume_decimal_number text 5 ≡ (true, 120 ∷ [], 407)
unfolding consume_decimal_number consume_loop
consume_decimal_number-text = refl

consume_decimal_number_lem_example : consume_decimal_number text 5 ≡ (
    if leb (number_from 0 (leading_digits text)) max_uint64
    then (
      (if length (leading_digits text) == 0 then false else true),
      after_digits text,
      number_from 0 (leading_digits text),
    )
    else (false, text, 5))
consume_decimal_number_lem_example = consume_decimal_number_lem text 5
