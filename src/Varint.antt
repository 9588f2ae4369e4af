-- ===== src/Varint.antt =====
-- src/encoding.h: variable-length 32-bit integers, seven bits to a byte.
pub mod Groups
pub mod RoundTrip
use mathlib.Core.Logic.{dite}
use mathlib.Core.WellFounded.{Acc, WellFounded}
use native.Mathlib.Decide.{dec_le}
use cub_db.Common.{ℕ, zero, suc, ◌+◌, ◌*◌, ◌/◌, ◌%◌, ◌^◌, ◌≤◌, ◌<◌, ◌&&◌, bit_and, bit_or, arith}
use cub_db.Common.{List, [], ◌∷◌, Option, none, some, ltb, leb, ◌==◌, if◌then◌else◌}
use cub_db.Bytes.{Bytes, write}

acc_below : (k n : ℕ) → n < k → Acc ◌<◌ n
acc_below zero n h = elim h [ ]
acc_below (suc k) n h = Acc.intro n (λ m hm. acc_below k m (omega arith))

unfoldable pub lt_wf : WellFounded ◌<◌
unfolding acc_below
lt_wf = record { apply = λ n. acc_below (suc n) n (omega arith) }

pub shift_shrinks : (v : ℕ) → 128 ≤ v → v / 2 ^ 7 < v
shift_shrinks v h = omega arith

-- `while (value >= 0x80) { value >>= 7; ++length; }`
length_loop : (value : ℕ) → ℕ → Acc ◌<◌ value → ℕ
length_loop value length (Acc.intro _ smaller) =
    dite (dec_le 128 value)
      (λ h. length_loop (value / 2 ^ 7) (length + 1) (smaller _ (shift_shrinks value h)))
      (λ _. length)

unfoldable pub varint_length : ℕ → ℕ
unfolding length_loop lt_wf dec_le
varint_length value = length_loop value 1 (lt_wf.apply value)

-- A row of `*ptr++ = b`, with the pointer after it.
unfoldable pub emit : Bytes → ℕ → List ℕ → Bytes × ℕ
emit m ptr [] = (m, ptr)
emit m ptr (b ∷ bs) = emit (write m ptr b) (ptr + 1) bs

-- The bytes that each branch of `encode_varint` stores; `(uint8_t)(x | B)` is `bit_or x 128 % 256`.
unfoldable pub varint_bytes : ℕ → List ℕ
varint_bytes v =
    if ltb v (2 ^ 7)
    then (v % 256) ∷ []
    else if ltb v (2 ^ 14)
    then (bit_or v 128 % 256) ∷ (v / 2 ^ 7 % 256) ∷ []
    else if ltb v (2 ^ 21)
    then (bit_or v 128 % 256) ∷ (bit_or (v / 2 ^ 7) 128 % 256) ∷ (v / 2 ^ 14 % 256) ∷ []
    else if ltb v (2 ^ 28)
    then (bit_or v 128 % 256)
      ∷ (bit_or (v / 2 ^ 7) 128 % 256)
      ∷ (bit_or (v / 2 ^ 14) 128 % 256)
      ∷ (v / 2 ^ 21 % 256)
      ∷ []
    else (bit_or v 128 % 256)
      ∷ (bit_or (v / 2 ^ 7) 128 % 256)
      ∷ (bit_or (v / 2 ^ 14) 128 % 256)
      ∷ (bit_or (v / 2 ^ 21) 128 % 256)
      ∷ (v / 2 ^ 28 % 256)
      ∷ []

unfoldable pub encode_varint : Bytes → ℕ → ℕ → Bytes × ℕ
encode_varint m dst v = emit m dst (varint_bytes v)

-- The shift passes 28 in the sixth round, so the loop leaves by its own test within six rounds.
-- `x << shift` on a `uint32_t` is `x * 2 ^ shift % 2 ^ 32`; `none` is the null pointer.
unfoldable pub decode_loop : ℕ → Bytes → ℕ → ℕ → ℕ → ℕ → Option (ℕ × ℕ)
decode_loop zero m p limit shift result = none
decode_loop (suc rounds) m p limit shift result =
    let byte = m p in
    let more =
      decode_loop rounds m (p + 1) limit (shift + 7)
        (bit_or result (bit_and byte 127 * 2 ^ shift % 2 ^ 32)) in
    let last = some (bit_or result (byte * 2 ^ shift % 2 ^ 32), p + 1) in
    if leb shift 28 && ltb p limit then if bit_and byte 128 == 0 then last else more else none

-- The value, and the pointer past it.
unfoldable pub decode_varint : Bytes → ℕ → ℕ → Option (ℕ × ℕ)
decode_varint m p limit = decode_loop 6 m p limit 0 0
