-- ===== src/Bytes/Laws.antt =====
-- Fixed-width integers in memory: what a read sees after a write, at the same and at other places.
use cub_db.Common.{ℕ, ◌+◌, ◌-◌, ◌*◌, ◌/◌, ◌%◌, ◌^◌, ◌≤◌, ◌<◌, ◌≡◌, ◌≢◌, ◌⊎◌, ◌∙◌, refl, ap, arith}
use cub_db.Common.Bits.{bit_or-shift}
use cub_db.Bytes.{Bytes, AreBytes, write, copy}
use cub_db.Bytes.{get_u16, get_u32, get_u64, put_u16, put_u32, put_u64}

-- `j` lies outside the `n` bytes from `p` on.
abbrev pub Outside : ℕ → ℕ → ℕ → Type 0
Outside p n j = (j < p) ⊎ (p + n ≤ j)

-- The `n` bytes from `p` on and the `k` bytes from `q` on have none in common.
abbrev pub Apart : ℕ → ℕ → ℕ → ℕ → Type 0
Apart p n q k = (q + k ≤ p) ⊎ (p + n ≤ q)

pub write_self : (m : Bytes) (i v : ℕ) → write m i v i ≡ v
unfolding write
write_self m i v = ground arith

pub write_ne : (m : Bytes) (i v j : ℕ) → j ≢ i → write m i v j ≡ m j
unfolding write
write_ne m i v j h = ground arith

pub put_u16-Outside : (m : Bytes) (p v j : ℕ) → Outside p 2 j → put_u16 m p v j ≡ m j
unfolding put_u16 write
put_u16-Outside m p v j h = ground arith

pub put_u32-Outside : (m : Bytes) (p v j : ℕ) → Outside p 4 j → put_u32 m p v j ≡ m j
unfolding put_u32 write
put_u32-Outside m p v j h = ground arith

pub get_u16_lem :
    (m : Bytes) (p a b : ℕ)
    → m p ≡ a
    → m (p + 1) ≡ b
    → a < 256
    → b < 256
    → get_u16 m p ≡ a + b * 256
unfolding get_u16
get_u16_lem m p a b ea eb ha hb = rw (ea, eb, bit_or-shift 8 a b ha) (omega arith)

pub get_u32_lem :
    (m : Bytes) (p a b c d : ℕ)
    → m p ≡ a
    → m (p + 1) ≡ b
    → m (p + 2) ≡ c
    → m (p + 3) ≡ d
    → a < 256
    → b < 256
    → c < 256
    → get_u32 m p ≡ a + b * 2 ^ 8 + c * 2 ^ 16 + d * 2 ^ 24
unfolding get_u32
get_u32_lem m p a b c d ea eb ec ed ha hb hc =
    rw
      (
        ea,
        eb,
        ec,
        ed,
        bit_or-shift 8 a b ha,
        bit_or-shift 16 (a + b * 2 ^ 8) c (omega arith),
        bit_or-shift 24 (a + b * 2 ^ 8 + c * 2 ^ 16) d (omega arith),
      )
      refl

put_u16_bytes :
    (m : Bytes) (p v : ℕ) → (put_u16 m p v p ≡ v % 256) × (put_u16 m p v (p + 1) ≡ v / 2 ^ 8 % 256)
unfolding put_u16 write
put_u16_bytes m p v = ground arith

-- A 16-bit read gives back what was written, cut to 16 bits.
pub get_u16-put_u16 : (m : Bytes) (p v : ℕ) → get_u16 (put_u16 m p v) p ≡ v % 2 ^ 16
get_u16-put_u16 m p v =
    let (e, f) = put_u16_bytes m p v in
    get_u16_lem (put_u16 m p v) p _ _ e f (omega arith) (omega arith) ∙ omega arith

put_u32_bytes :
    (m : Bytes) (p v : ℕ)
    → (put_u32 m p v p ≡ v % 256)
      × (put_u32 m p v (p + 1) ≡ v / 2 ^ 8 % 256)
      × (put_u32 m p v (p + 2) ≡ v / 2 ^ 16 % 256)
      × (put_u32 m p v (p + 3) ≡ v / 2 ^ 24 % 256)
unfolding put_u32 write
put_u32_bytes m p v = ground arith

-- A 32-bit read gives back what was written, cut to 32 bits.
pub get_u32-put_u32 : (m : Bytes) (p v : ℕ) → get_u32 (put_u32 m p v) p ≡ v % 2 ^ 32
get_u32-put_u32 m p v =
    let (e, f, g, h) = put_u32_bytes m p v in
    get_u32_lem (put_u32 m p v) p _ _ _ _ e f g h (omega arith) (omega arith) (omega arith)
    ∙ omega arith

pub get_u16_congr :
    (m n : Bytes) (p : ℕ) → m p ≡ n p → m (p + 1) ≡ n (p + 1) → get_u16 m p ≡ get_u16 n p
unfolding get_u16
get_u16_congr m n p e f = rw (e, f)

-- The two bytes may have moved.
pub get_u16_move :
    (m n : Bytes) (p q : ℕ) → m p ≡ n q → m (p + 1) ≡ n (q + 1) → get_u16 m p ≡ get_u16 n q
unfolding get_u16
get_u16_move m n p q e f = rw (e, f)

pub get_u32_move :
    (m n : Bytes) (p q : ℕ)
    → m p ≡ n q
    → m (p + 1) ≡ n (q + 1)
    → m (p + 2) ≡ n (q + 2)
    → m (p + 3) ≡ n (q + 3)
    → get_u32 m p ≡ get_u32 n q
unfolding get_u32
get_u32_move m n p q e f g h = rw (e, f, g, h) refl

pub get_u32_congr :
    (m n : Bytes) (p : ℕ)
    → m p ≡ n p
    → m (p + 1) ≡ n (p + 1)
    → m (p + 2) ≡ n (p + 2)
    → m (p + 3) ≡ n (p + 3)
    → get_u32 m p ≡ get_u32 n p
unfolding get_u32
get_u32_congr m n p e f g h = rw (e, f, g, h)

-- A write leaves the reads at places that it does not touch.
pub get_u16-put_u16-Apart :
    (m : Bytes) (p v q : ℕ) → Apart p 2 q 2 → get_u16 (put_u16 m p v) q ≡ get_u16 m q
get_u16-put_u16-Apart m p v q h =
    get_u16_congr _ m q (put_u16-Outside m p v q (omega arith))
      (put_u16-Outside m p v (q + 1) (omega arith))

pub get_u16-put_u32-Apart :
    (m : Bytes) (p v q : ℕ) → Apart p 4 q 2 → get_u16 (put_u32 m p v) q ≡ get_u16 m q
get_u16-put_u32-Apart m p v q h =
    get_u16_congr _ m q (put_u32-Outside m p v q (omega arith))
      (put_u32-Outside m p v (q + 1) (omega arith))

pub get_u32-put_u16-Apart :
    (m : Bytes) (p v q : ℕ) → Apart p 2 q 4 → get_u32 (put_u16 m p v) q ≡ get_u32 m q
get_u32-put_u16-Apart m p v q h =
    get_u32_congr _ m q (put_u16-Outside m p v q (omega arith))
      (put_u16-Outside m p v (q + 1) (omega arith)) (put_u16-Outside m p v (q + 2) (omega arith))
      (put_u16-Outside m p v (q + 3) (omega arith))

pub get_u32-put_u32-Apart :
    (m : Bytes) (p v q : ℕ) → Apart p 4 q 4 → get_u32 (put_u32 m p v) q ≡ get_u32 m q
get_u32-put_u32-Apart m p v q h =
    get_u32_congr _ m q (put_u32-Outside m p v q (omega arith))
      (put_u32-Outside m p v (q + 1) (omega arith)) (put_u32-Outside m p v (q + 2) (omega arith))
      (put_u32-Outside m p v (q + 3) (omega arith))

pub get_u16_lt : (m : Bytes) (p : ℕ) → get_u16 m p < 2 ^ 16
unfolding get_u16
get_u16_lt m p = omega arith

pub get_u32_lt : (m : Bytes) (p : ℕ) → AreBytes m → get_u32 m p < 2 ^ 32
get_u32_lt m p h = omega (
  arith,
  get_u32_lem m p _ _ _ _ refl refl refl refl (h p) (h (p + 1)) (h (p + 2)),
  h p,
  h (p + 1),
  h (p + 2),
  h (p + 3),
)

put_u64_bytes :
    (m : Bytes) (p v : ℕ)
    → (put_u64 m p v p ≡ v % 256)
      × (put_u64 m p v (p + 1) ≡ v / 2 ^ 8 % 256)
      × (put_u64 m p v (p + 2) ≡ v / 2 ^ 16 % 256)
      × (put_u64 m p v (p + 3) ≡ v / 2 ^ 24 % 256)
      × (put_u64 m p v (p + 4) ≡ v / 2 ^ 32 % 256)
      × (put_u64 m p v (p + 5) ≡ v / 2 ^ 40 % 256)
      × (put_u64 m p v (p + 6) ≡ v / 2 ^ 48 % 256)
      × (put_u64 m p v (p + 7) ≡ v / 2 ^ 56 % 256)
unfolding put_u64 put_u32 write
put_u64_bytes m p v = ground arith

get_u64_lem :
    (m : Bytes) (p low e f g h : ℕ)
    → get_u32 m p ≡ low
    → m (p + 4) ≡ e
    → m (p + 5) ≡ f
    → m (p + 6) ≡ g
    → m (p + 7) ≡ h
    → low < 2 ^ 32
    → e < 256
    → f < 256
    → g < 256
    → get_u64 m p ≡ low + e * 2 ^ 32 + f * 2 ^ 40 + g * 2 ^ 48 + h * 2 ^ 56
unfolding get_u64
get_u64_lem m p low e f g h el ee ef eg eh hl he hf hg =
    rw
      (
        el,
        ee,
        ef,
        eg,
        eh,
        bit_or-shift 32 low e hl,
        bit_or-shift 40 (low + e * 2 ^ 32) f (omega arith),
        bit_or-shift 48 (low + e * 2 ^ 32 + f * 2 ^ 40) g (omega arith),
        bit_or-shift 56 (low + e * 2 ^ 32 + f * 2 ^ 40 + g * 2 ^ 48) h (omega arith),
      )
      refl

-- A 64-bit read gives back what was written, cut to 64 bits.
pub get_u64-put_u64 : (m : Bytes) (p v : ℕ) → get_u64 (put_u64 m p v) p ≡ v % 2 ^ 64
get_u64-put_u64 m p v =
    let (a, b, c, d, e, f, g, h) = put_u64_bytes m p v in
    let low : get_u32 (put_u64 m p v) p ≡ v % 2 ^ 32 =
      get_u32_lem (put_u64 m p v) p _ _ _ _ a b c d (omega arith) (omega arith) (omega arith)
      ∙ omega arith in
    get_u64_lem (put_u64 m p v) p _ _ _ _ _ low e f g h (omega arith) (omega arith) (omega arith)
      (omega arith)
    ∙ omega arith

pub copy-Outside : (d s : Bytes) (to from n j : ℕ) → Outside to n j → copy d to s from n j ≡ d j
unfolding copy
copy-Outside d s to from n j h = ground arith

pub copy_inside :
    (d s : Bytes) (to from n i j : ℕ) → j ≡ to + i → i < n → copy d to s from n j ≡ s (from + i)
unfolding copy
copy_inside d s to from n i j e h =
    let k : from + (j - to) ≡ from + i = omega arith in ground (arith, ap s k)
