-- ===== src/Node/Chain.antt =====
-- The free blocks of a page as a list: what a well-formed list of blocks is in memory.
use cub_db.Common.{ℕ, ◌+◌, ◌≤◌, ◌<◌, ◌≡◌, ◌∙◌, ◌⊎◌, inl, arith, List, [], ◌∷◌, ◌++◌}
use cub_db.Bytes.{Bytes, get_u16}
use cub_db.Bytes.Laws.{get_u16_congr}

-- The offset of a free block and its size.
abbrev pub Block : Type 0
Block = ℕ × ℕ

-- The blocks from the pointer `ofs` on, in order: each starts at or behind `lo`, which is four bytes past the end of the
-- one before, has its header and its body on the page, and names the next one.
abbrev pub Chain : Bytes → ℕ → ℕ → ℕ → List Block → Type 0
Chain m total lo ofs [] = ofs ≡ 0
Chain m total lo ofs ((b, len) ∷ rest) =
    (ofs ≡ b)
    × (0 < b)
    × (lo ≤ b)
    × (b + 4 ≤ total)
    × (get_u16 m (b + 2) ≡ len)
    × (b + len ≤ total)
    × Chain m total (b + len + 4) (get_u16 m b) rest

-- The same for the first blocks of a chain: the rest starts at the pointer `end`, at or behind `lo'`.
abbrev pub Segment : Bytes → ℕ → ℕ → ℕ → List Block → ℕ → ℕ → Type 0
Segment m total lo ofs [] lo' end = (ofs ≡ end) × (lo ≡ lo')
Segment m total lo ofs ((b, len) ∷ rest) lo' end =
    (ofs ≡ b)
    × (0 < b)
    × (lo ≤ b)
    × (b + 4 ≤ total)
    × (get_u16 m (b + 2) ≡ len)
    × (b + len ≤ total)
    × Segment m total (b + len + 4) (get_u16 m b) rest lo' end

-- The bytes in free blocks.
abbrev pub free_bytes : List Block → ℕ
free_bytes [] = 0
free_bytes ((b, len) ∷ rest) = len + free_bytes rest

pub free_bytes-append : (xs ys : List Block) → free_bytes (xs ++ ys) ≡ free_bytes xs + free_bytes ys
free_bytes-append [] ys = omega arith
free_bytes-append ((b, len) ∷ xs) ys = omega (arith, free_bytes-append xs ys)

-- Two pages hold the same bytes from `lo` on, up to `hi`.
abbrev pub Agree : Bytes → Bytes → ℕ → ℕ → Type 0
Agree m m' lo hi = (j : ℕ) → lo ≤ j → j < hi → m' j ≡ m j

pub Segment-le :
    (m : Bytes) (total : ℕ) (bs : List Block) (lo ofs lo' end : ℕ)
    → Segment m total lo ofs bs lo' end
    → lo ≤ lo'
Segment-le m total [] lo ofs lo' end s = omega arith
Segment-le m total ((b, len) ∷ bs) lo ofs lo' end s =
    omega (arith, Segment-le m total bs (b + len + 4) (get_u16 m b) lo' end s.6)

pub Segment-append :
    (m : Bytes) (total : ℕ) (xs ys : List Block) (lo ofs lo' end : ℕ)
    → Segment m total lo ofs xs lo' end
    → Chain m total lo' end ys
    → Chain m total lo ofs (xs ++ ys)
Segment-append m total [] ys lo ofs lo' end (e, f) c = rw (e, f) c
Segment-append m total ((b, len) ∷ xs) ys lo ofs lo' end (e, pos, l, room, size, body, rest) c = (
  e,
  pos,
  l,
  room,
  size,
  body,
  Segment-append m total xs ys (b + len + 4) (get_u16 m b) lo' end rest c,
)

-- A chain may start later, up to its first block.
pub Chain-lower :
    (m : Bytes) (total : ℕ) (bs : List Block) (lo lo' ofs : ℕ)
    → Chain m total lo ofs bs
    → (ofs ≡ 0) ⊎ (lo' ≤ ofs)
    → Chain m total lo' ofs bs
Chain-lower m total [] lo lo' ofs c h = c
Chain-lower m total ((b, len) ∷ bs) lo lo' ofs (e, pos, l, room, size, body, rest) h =
    (e, pos, omega arith, room, size, body, rest)

module _ (m m' : Bytes) (total : ℕ) where
  pub Chain-Agree :
      (bs : List Block) (lo ofs : ℕ)
      → Agree m m' lo total
      → Chain m total lo ofs bs
      → Chain m' total lo ofs bs
  Chain-Agree [] lo ofs a c = c
  Chain-Agree ((b, len) ∷ bs) lo ofs a (e, pos, l, room, size, body, rest) =
      let next : get_u16 m' b ≡ get_u16 m b =
        get_u16_congr m' m b (a b l (omega arith)) (a (b + 1) (omega arith) (omega arith)) in
      let size' : get_u16 m' (b + 2) ≡ get_u16 m (b + 2) =
        get_u16_congr m' m (b + 2) (a (b + 2) (omega arith) (omega arith))
          (a (b + 2 + 1) (omega arith) (omega arith)) in
      let rest' : Chain m' total (b + len + 4) (get_u16 m b) bs =
        Chain-Agree bs (b + len + 4) (get_u16 m b) (λ j p q. a j (omega arith) q) rest in
      (e, pos, l, room, size' ∙ size, body, rw next rest')

  pub Segment-Agree :
      (bs : List Block) (lo ofs lo' end : ℕ)
      → Agree m m' lo lo'
      → Segment m total lo ofs bs lo' end
      → Segment m' total lo ofs bs lo' end
  Segment-Agree [] lo ofs lo' end a s = s
  Segment-Agree ((b, len) ∷ bs) lo ofs lo' end a (e, pos, l, room, size, body, rest) =
      let far : b + len + 4 ≤ lo' =
        Segment-le m total bs (b + len + 4) (get_u16 m b) lo' end rest in
      let next : get_u16 m' b ≡ get_u16 m b =
        get_u16_congr m' m b (a b l (omega arith)) (a (b + 1) (omega arith) (omega arith)) in
      let size' : get_u16 m' (b + 2) ≡ get_u16 m (b + 2) =
        get_u16_congr m' m (b + 2) (a (b + 2) (omega arith) (omega arith))
          (a (b + 2 + 1) (omega arith) (omega arith)) in
      let rest' : Segment m' total (b + len + 4) (get_u16 m b) bs lo' end =
        Segment-Agree bs (b + len + 4) (get_u16 m b) lo' end (λ j p q. a j (omega arith) q) rest in
      (e, pos, l, room, size' ∙ size, body, rw next rest')

pub Chain-weaken :
    (m : Bytes) (total : ℕ) (bs : List Block) (lo lo' ofs : ℕ)
    → lo' ≤ lo
    → Chain m total lo ofs bs
    → Chain m total lo' ofs bs
Chain-weaken m total [] lo lo' ofs h c = c
Chain-weaken m total ((b, len) ∷ bs) lo lo' ofs h (e, pos, l, room, size, body, rest) =
    (e, pos, omega arith, room, size, body, rest)

-- The region of `n` bytes at `r` lies in one of the blocks.
abbrev pub Inside : ℕ → ℕ → List Block → Type 0
Inside r n [] = ⊥
Inside r n ((b, len) ∷ bs) = ((b ≤ r) × (r + n ≤ b + len)) ⊎ Inside r n bs

-- The region has no byte in any of the blocks.
abbrev pub ApartFrom : ℕ → ℕ → List Block → Type 0
ApartFrom r n [] = Unit
ApartFrom r n ((b, len) ∷ bs) = ((r + n ≤ b) ⊎ (b + len ≤ r)) × ApartFrom r n bs

pub Chain-ApartFrom :
    (m : Bytes) (total : ℕ) (bs : List Block) (lo ofs r n : ℕ)
    → Chain m total lo ofs bs
    → r + n ≤ lo
    → ApartFrom r n bs
Chain-ApartFrom m total [] lo ofs r n c h = tt
Chain-ApartFrom m total ((b, len) ∷ bs) lo ofs r n (e, pos, l, room, size, body, rest) h = (
  inl (omega arith),
  Chain-ApartFrom m total bs (b + len + 4) (get_u16 m b) r n rest (omega arith),
)
