-- ===== src/Logging/Decimal.antt =====
-- consume_decimal_number of src/logging.cpp against the digits from 48 to 57.
use cub_db.Common.{
  ℕ, ◌+◌, ◌-◌, ◌*◌, ◌≤◌, ◌<◌, ◌≡◌, inl, inr, ◌∙◌, refl, sym, ap, ◌==◌, arith, Bool, true, false,
  ◌&&◌,
}
use cub_db.Common.{
  List, [], ◌∷◌, ◌++◌, none, some, leb, if◌then◌else◌, Bool-cases, le→leb, lt→leb_false,
}
use cub_db.Common.{length, length-append}
use cub_db.Logging.{max_uint64, ends_number, overflows, consume_loop, consume_decimal_number}

abbrev pub is_digit : ℕ → Bool
is_digit ch = leb 48 ch && leb ch 57

-- The digits at the start.
abbrev pub leading_digits : List ℕ → List ℕ
leading_digits [] = []
leading_digits (ch ∷ rest) = let more = leading_digits rest in if is_digit ch then ch ∷ more else []

abbrev pub after_digits : List ℕ → List ℕ
after_digits [] = []
after_digits (ch ∷ rest) = let more = after_digits rest in if is_digit ch then more else ch ∷ rest

-- The number that `value` becomes when digits are written behind it.
abbrev pub number_from : ℕ → List ℕ → ℕ
number_from value [] = value
number_from value (ch ∷ rest) = number_from (value * 10 + (ch - 48)) rest

digit : (ch : ℕ) → ends_number ch ≡ false → is_digit ch ≡ true
digit ch h = ground arith

no_digit : (ch : ℕ) → ends_number ch ≡ true → is_digit ch ≡ false
no_digit ch h = ground arith

number_from_le : (value : ℕ) (ds : List ℕ) → value ≤ number_from value ds
number_from_le value [] = omega arith
number_from_le value (d ∷ ds) = omega (arith, number_from_le (value * 10 + (d - 48)) ds)

digit_fits :
    (value ch : ℕ)
    → ends_number ch ≡ false
    → overflows value ch ≡ false
    → value * 10 + (ch - 48) ≤ max_uint64
digit_fits value ch h k = ground arith

digit_exceeds :
    (value ch : ℕ)
    → ends_number ch ≡ false
    → overflows value ch ≡ true
    → max_uint64 < value * 10 + (ch - 48)
digit_exceeds value ch h k = ground arith

consume_loop_lem :
    (value : ℕ) (input : List ℕ)
    → value ≤ max_uint64
    → consume_loop value input ≡ (
        if leb (number_from value (leading_digits input)) max_uint64
        then some (number_from value (leading_digits input), after_digits input)
        else none)
unfolding consume_loop
consume_loop_lem value [] h = rw (le→leb value max_uint64 h) refl
consume_loop_lem value (ch ∷ rest) h = elim (Bool-cases (ends_number ch)) [
  | inl e ↦ rw (consume_loop, e, no_digit ch e, le→leb value max_uint64 h) refl
  | inr e ↦ elim (Bool-cases (overflows value ch)) [
    | inl o ↦
        let large : max_uint64 < number_from (value * 10 + (ch - 48)) (leading_digits rest) =
          omega (
            arith,
            number_from_le (value * 10 + (ch - 48)) (leading_digits rest),
            digit_exceeds value ch e o,
          ) in
        rw (consume_loop, e, digit ch e, o, lt→leb_false _ max_uint64 large) refl
    | inr o ↦
        rw (consume_loop, e, digit ch e, o)
          (consume_loop_lem (value * 10 + (ch - 48)) rest (digit_fits value ch e o))
  ]
]

sum_eq : (a b : ℕ) → ((a + b) == b) ≡ (a == 0)
sum_eq a b = ground arith

append_digits : (input : List ℕ) → leading_digits input ++ after_digits input ≡ input
append_digits [] = refl
append_digits (ch ∷ rest) = elim (Bool-cases (is_digit ch)) [
  | inr e ↦ rw e refl
  | inl e ↦ rw e (ap (λ (t : List ℕ). ch ∷ t) (append_digits rest))
]

-- The call reads all leading digits, the characters from 48 to 57, and gives their number, unless it exceeds the 64 bits: then it reports failure and
-- changes nothing. It reports success when there is a digit.
pub consume_decimal_number_lem :
    (input : List ℕ) (val : ℕ)
    → consume_decimal_number input val ≡ (
        if leb (number_from 0 (leading_digits input)) max_uint64
        then (
          (if length (leading_digits input) == 0 then false else true),
          after_digits input,
          number_from 0 (leading_digits input),
        )
        else (false, input, val))
unfolding consume_decimal_number
consume_decimal_number_lem input val =
    let n = number_from 0 (leading_digits input) in
    let sizes : length input ≡ length (leading_digits input) + length (after_digits input) =
      ap length (sym (append_digits input))
      ∙ length-append (leading_digits input) (after_digits input) in
    let same : (length input == length (after_digits input))
        ≡ (length (leading_digits input) == 0) =
      rw sizes (sum_eq _ _) in
    let run = consume_loop_lem 0 input (omega arith) in
    elim (Bool-cases (leb n max_uint64)) [
      | inl few ↦ rw (consume_decimal_number, run, few, same) refl
      | inr many ↦ rw (consume_decimal_number, run, many) refl
    ]
