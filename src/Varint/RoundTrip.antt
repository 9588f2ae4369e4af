-- ===== src/Varint/RoundTrip.antt =====
-- `decode_varint` reads what `encode_varint` wrote, and stays within its limits.
use native.Mathlib.Decide.{dec_lt}
use native.Mathlib.Numerals.{towards_suc}
use cub_db.Common.{
  sym, ℕ, zero, suc, ◌+◌, ◌-◌, ◌*◌, ◌/◌, ◌%◌, ◌^◌, ◌≤◌, ◌<◌, ◌≡◌, ◌∙◌, ap, refl, arith,
}
use cub_db.Common.{length, Option, some, inl, inr, bit_or, bit_and}
use cub_db.Common.{◌∷◌, []}
use cub_db.Common.Bits.{bit_or-shift, bit_and-mask, bit_and_top}
use cub_db.Bytes.{Bytes}
use cub_db.Bytes.Laws.{Outside}
use cub_db.Varint.{emit, decode_loop, decode_varint, encode_varint, varint_length, varint_bytes}
use cub_db.Varint.Groups.{groups, groups-small, groups-large, varint_bytes-groups}
use cub_db.Varint.Groups.{
  varint_length-groups, length-groups, Holds, emit-Holds, emit_end, emit_before, emit_after,
}

shift_or :
    (shift result x : ℕ)
    → result < 2 ^ shift
    → result + x * 2 ^ shift < 2 ^ 32
    → bit_or result (x * 2 ^ shift % 2 ^ 32) ≡ result + x * 2 ^ shift
shift_or shift result x h fits =
    let e : x * 2 ^ shift % 2 ^ 32 ≡ x * 2 ^ shift = omega arith in
    rw (e, bit_or-shift shift result x h)

-- One round on a last byte, and on a byte with the top bit set over the group `g`.
last_byte :
    (rounds : ℕ) (m : Bytes) (p limit shift result b : ℕ)
    → m p ≡ b
    → b < 128
    → shift ≤ 28
    → p < limit
    → result < 2 ^ shift
    → result + b * 2 ^ shift < 2 ^ 32
    → decode_loop (suc rounds) m p limit shift result ≡ some (result + b * 2 ^ shift, p + 1)
unfolding decode_loop
last_byte rounds m p limit shift result b e hb hs hp hr fits =
    ground (arith, bit_and_top b, shift_or shift result b)

inner_byte :
    (rounds : ℕ) (m : Bytes) (p limit shift result g : ℕ)
    → m p ≡ g + 128
    → g < 128
    → shift ≤ 28
    → p < limit
    → result < 2 ^ shift
    → result + g * 2 ^ shift < 2 ^ 32
    → decode_loop (suc rounds) m p limit shift result
      ≡ decode_loop rounds m (p + 1) limit (shift + 7) (result + g * 2 ^ shift)
unfolding decode_loop
inner_byte rounds m p limit shift result g e hg hs hp hr fits = ground (
  arith,
  bit_and_top (g + 128),
  bit_and-mask 7 (g + 128) 127 (omega arith),
  shift_or shift result g,
)

power_above : (k : ℕ) → 2 ^ (k + 7) ≡ 2 ^ k * 128
power_above k = simp towards_suc (omega arith)

regroup : (q r p : ℕ) → (q * 128 + r) * p ≡ r * p + q * (p * 128)
regroup q r p = grind arith

-- The seven lowest bits of `v` and the others, all of them moved up by `k` bits.
group_and_rest : (v k : ℕ) → v * 2 ^ k ≡ v % 128 * 2 ^ k + v / 128 * 2 ^ (k + 7)
group_and_rest v k =
    let parts : v ≡ v / 128 * 128 + v % 128 = omega arith in
    ap (λ (t : ℕ). t * 2 ^ k) parts
    ∙ regroup (v / 128) (v % 128) (2 ^ k)
    ∙ ap (λ (t : ℕ). v % 128 * 2 ^ k + v / 128 * t) (sym (power_above k))

low_group : (g s result : ℕ) → g < 128 → result < 2 ^ s → result + g * 2 ^ s < 2 ^ (s + 7)
low_group g s result h k = omega (arith, power_above s, bound)
  where
    bound : g * 2 ^ s ≤ 127 * 2 ^ s
    bound = grind arith

-- What the loop makes of the groups of `w`, at `p`, with `result` read so far.
abbrev Reads : ℕ → ℕ → ℕ → ℕ → ℕ → ℕ → ℕ → Bytes → Type 0
Reads k rounds w shift result p limit m =
    decode_loop rounds m p limit shift result
    ≡ some (result + w * 2 ^ shift, p + length (groups k w))

last_group :
    (k rounds w shift result p limit : ℕ) (m : Bytes)
    → w < 128
    → shift ≤ 28
    → result < 2 ^ shift
    → result + w * 2 ^ shift < 2 ^ 32
    → Holds m p (groups k w)
    → p + length (groups k w) ≤ limit
    → Reads k (suc rounds) w shift result p limit m
last_group k rounds w shift result p limit m hw hs hr fits held room =
    let g : groups k w ≡ w ∷ [] = groups-small k w hw in
    let byte : Holds m p (w ∷ []) = rw g at held in
    let bound : p < limit = omega (arith, length-groups k w) in
    rw g (last_byte rounds m p limit shift result w byte.0 hw hs bound hr fits)

some_pair : {a b c d : ℕ} → a ≡ b → c ≡ d → ◌≡◌ {A = Option (ℕ × ℕ)} (some (a, c)) (some (b, d))
some_pair e f = cc

decode_loop-groups :
    (k rounds w shift result p limit : ℕ) (m : Bytes)
    → k < rounds
    → shift + 7 * k ≤ 28
    → w < 128 ^ suc k
    → result < 2 ^ shift
    → result + w * 2 ^ shift < 2 ^ 32
    → Holds m p (groups k w)
    → p + length (groups k w) ≤ limit
    → Reads k rounds w shift result p limit m
decode_loop-groups k zero w shift result p limit m hk hs hw hr fits held room = absurd (omega arith)
decode_loop-groups zero (suc rounds) w shift result p limit m hk hs hw hr fits held room =
    last_group zero rounds w shift result p limit m (omega arith) (omega arith) hr fits held room
decode_loop-groups (suc k) (suc rounds) w shift result p limit m hk hs hw hr fits held room =
    elim (dec_lt w 128) [
      | yes small ↦
          last_group (suc k) rounds w shift result p limit m small (omega arith) hr fits held room
      | no large ↦
          let g : groups (suc k) w ≡ (w % 128 + 128) ∷ groups k (w / 128) =
            groups-large k w (omega arith) in
          let bytes : Holds m p ((w % 128 + 128) ∷ groups k (w / 128)) = rw g at held in
          let fits' : result + w % 128 * 2 ^ shift < 2 ^ 32 =
            omega (arith, group_and_rest w shift) in
          let next : Reads k rounds (w / 128) (shift + 7) (result + w % 128 * 2 ^ shift) (p + 1)
              limit m =
            decode_loop-groups k rounds (w / 128) (shift + 7) (result + w % 128 * 2 ^ shift) (p + 1)
              limit m (omega arith) (omega arith) (omega arith)
              (low_group (w % 128) shift result (omega arith) hr)
              (omega (arith, group_and_rest w shift)) bytes.1 (omega (arith, ap length g)) in
          rw g (
            inner_byte rounds m p limit shift result (w % 128) bytes.0 (omega arith) (omega arith)
              (omega (arith, length-groups (suc k) w)) hr fits'
            ∙ next
            ∙ some_pair (omega (arith, group_and_rest w shift)) (omega arith))
    ]

-- What `encode_varint` wrote is decoded to the same number, and both leave the same end pointer.
pub decode_varint-encode_varint :
    (m : Bytes) (p v limit : ℕ)
    → v < 2 ^ 32
    → (encode_varint m p v).1 ≤ limit
    → decode_varint (encode_varint m p v).0 p limit ≡ some (v, (encode_varint m p v).1)
unfolding decode_varint encode_varint
decode_varint-encode_varint m p v limit hv room =
    let e : varint_bytes v ≡ groups 4 v = varint_bytes-groups v hv in
    let ends : (emit m p (groups 4 v)).1 ≡ p + length (groups 4 v) = emit_end (groups 4 v) m p in
    let room' : (emit m p (groups 4 v)).1 ≤ limit = rw e at room in
    rw (e, ends)
      (decode_loop-groups 4 6 v 0 0 p limit _ (omega arith) (omega arith) (omega arith)
          (omega arith) (omega arith) (emit-Holds (groups 4 v) m p) (omega arith)
        ∙ some_pair (omega arith) refl)

-- `varint_length` is the number of bytes that `encode_varint` writes, between 1 and 5.
pub encode_varint_end :
    (m : Bytes) (p v : ℕ)
    → v < 2 ^ 32
    → ((encode_varint m p v).1 ≡ p + varint_length v)
      × (1 ≤ varint_length v)
      × (varint_length v ≤ 5)
unfolding encode_varint
encode_varint_end m p v hv =
    let (lo, hi) = length-groups 4 v in
    rw (varint_bytes-groups v hv, varint_length-groups v hv) (emit_end (groups 4 v) m p, lo, hi)

-- It writes nothing outside these bytes.
pub encode_varint-Outside :
    (m : Bytes) (p v j : ℕ)
    → v < 2 ^ 32
    → Outside p (varint_length v) j
    → (encode_varint m p v).0 j ≡ m j
unfolding encode_varint
encode_varint-Outside m p v j hv (inl h) = emit_before (varint_bytes v) m p j h
encode_varint-Outside m p v j hv (inr h) =
    emit_after (varint_bytes v) m p j
      (omega (arith, varint_length-groups v hv, ap length (varint_bytes-groups v hv)))

pub decode_loop_within :
    (rounds : ℕ) (m : Bytes) (p limit shift result value q : ℕ)
    → decode_loop rounds m p limit shift result ≡ some (value, q)
    → (p < q) × (q ≤ limit) × (q ≤ p + rounds) × (shift + 7 * (q - p) ≤ 35)
unfolding decode_loop
decode_loop_within zero m p limit shift result value q e = cc
decode_loop_within (suc rounds) m p limit shift result value q e = ground (
  arith,
  decode_loop_within rounds m (p + 1) limit (shift + 7)
      (bit_or result (bit_and (m p) 127 * 2 ^ shift % 2 ^ 32)) value q,
)

-- On any input, decoding takes 1 to 5 bytes and none at or past the limit.
pub decode_varint_within :
    (m : Bytes) (p limit value q : ℕ)
    → decode_varint m p limit ≡ some (value, q)
    → (p < q) × (q ≤ limit) × (q ≤ p + 5)
unfolding decode_varint
decode_varint_within m p limit value q e =
    let w = decode_loop_within 6 m p limit 0 0 value q e in (w.0, w.1, omega arith)
