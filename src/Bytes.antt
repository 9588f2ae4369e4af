-- ===== src/Bytes.antt =====
-- src/encoding.h, fixed-width integers, and the memory that the rest reads and writes. A buffer is a
-- function from offsets to byte values; a pointer is an offset into it.
pub mod Laws
use cub_db.Common.{ℕ, ◌+◌, ◌-◌, ◌*◌, ◌/◌, ◌%◌, ◌^◌, ◌<◌, ◌&&◌, bit_or}
use cub_db.Common.{ltb, leb, ◌==◌, if◌then◌else◌}

abbrev pub Bytes : Type 0
Bytes = ℕ → ℕ

abbrev pub IsByte : ℕ → Type 0
IsByte b = b < 256

abbrev pub AreBytes : Bytes → Type 0
AreBytes m = (i : ℕ) → m i < 256

-- `p[i] = v` for a byte `v`.
unfoldable pub write : Bytes → ℕ → ℕ → Bytes
write m i v j = if j == i then v else m j

-- `memcpy(d + to, s + from, n)`. `memmove` inside one buffer is `copy m to m from n`, since `s` is
-- the buffer as it was before the call.
unfoldable pub copy : Bytes → ℕ → Bytes → ℕ → ℕ → Bytes
copy d to s from n j = if leb to j && ltb j (to + n) then s (from + (j - to)) else d j

-- `memset(d + to, v, n)`.
unfoldable pub fill : Bytes → ℕ → ℕ → ℕ → Bytes
fill d to v n j = if leb to j && ltb j (to + n) then v else d j

unfoldable pub get_u16 : Bytes → ℕ → ℕ
get_u16 m p = bit_or (m p) (m (p + 1) * 2 ^ 8) % 2 ^ 16

unfoldable pub get_u32 : Bytes → ℕ → ℕ
get_u32 m p =
    bit_or (bit_or (bit_or (m p) (m (p + 1) * 2 ^ 8)) (m (p + 2) * 2 ^ 16)) (m (p + 3) * 2 ^ 24)

unfoldable pub get_u64 : Bytes → ℕ → ℕ
get_u64 m p =
    let low : ℕ = get_u32 m p in
    bit_or
      (bit_or (bit_or (bit_or low (m (p + 4) * 2 ^ 32)) (m (p + 5) * 2 ^ 40)) (m (p + 6) * 2 ^ 48))
      (m (p + 7) * 2 ^ 56)

unfoldable pub put_u16 : Bytes → ℕ → ℕ → Bytes
put_u16 m p v = write (write m p (v % 256)) (p + 1) (v / 2 ^ 8 % 256)

unfoldable pub put_u32 : Bytes → ℕ → ℕ → Bytes
put_u32 m p v =
    write (write (write (write m p (v % 256)) (p + 1) (v / 2 ^ 8 % 256)) (p + 2) (v / 2 ^ 16 % 256))
      (p + 3) (v / 2 ^ 24 % 256)

unfoldable pub put_u64 : Bytes → ℕ → ℕ → Bytes
put_u64 m p v =
    let low : Bytes = put_u32 m p v in
    write
      (write (write (write low (p + 4) (v / 2 ^ 32 % 256)) (p + 5) (v / 2 ^ 40 % 256)) (p + 6)
        (v / 2 ^ 48 % 256))
      (p + 7) (v / 2 ^ 56 % 256)
