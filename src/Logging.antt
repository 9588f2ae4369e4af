-- ===== src/Logging.antt =====
-- src/logging.cpp: the parsing of decimal numbers.
pub mod Decimal
use cub_db.Common.{
  ℕ, ◌+◌, ◌-◌, ◌*◌, Bool, true, false, List, [], ◌∷◌, Option, none, some, ltb, ◌==◌, ◌&&◌, ◌||◌,
}
use cub_db.Common.{if◌then◌else◌, length}

-- `UINT64_MAX`.
abbrev pub max_uint64 : ℕ
max_uint64 = 18446744073709551615

-- `ch` is no digit: below '0' or above '9'.
abbrev pub ends_number : ℕ → Bool
ends_number ch = ltb ch 48 || ltb 57 ch

-- The next digit does not fit: 1844674407370955161 is the bound without its last digit, and 53 is '5', that digit.
abbrev pub overflows : ℕ → ℕ → Bool
overflows value ch = ltb 1844674407370955161 value || ((value == 1844674407370955161) && ltb 53 ch)

-- The loop: the value and the bytes from `current` on, or `none` for the return in the loop.
unfoldable pub consume_loop : ℕ → List ℕ → Option (ℕ × List ℕ)
consume_loop value [] = some (value, [])
consume_loop value (ch ∷ rest) =
    let more = consume_loop (value * 10 + (ch - 48)) rest in
    if ends_number ch then some (value, ch ∷ rest) else if overflows value ch then none else more

-- The result, and what the call leaves in `in` and in `*val`.
unfoldable pub consume_decimal_number : List ℕ → ℕ → Bool × List ℕ × ℕ
consume_decimal_number input val = elim (consume_loop 0 input) [
  | none ↦ (false, input, val)
  | some (value, rest) ↦ ((if length input == length rest then false else true), rest, value)
]
