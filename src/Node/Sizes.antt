-- ===== src/Node/Sizes.antt =====
-- `freelist_size` decides whether the free blocks form a chain, and adds up their sizes.
use cub_db.Common.{ℕ, zero, suc, ◌+◌, ◌*◌, ◌%◌, ◌^◌, ◌≤◌, ◌<◌, ◌≡◌, ◌∙◌, ap, refl, arith}
use cub_db.Common.{◌⊎◌, inr, ◌↔◌, length, List, [], ◌∷◌, some}
use cub_db.Bytes.{Bytes, get_u16}
use cub_db.Bytes.Laws.{get_u16_lt}
use cub_db.Header.NodeHdr
use cub_db.Node.{freelist_size_loop, freelist_size, sub32}
use cub_db.Node.Chain.{Block, Chain, free_bytes}

-- A `size` from the loop belongs to a chain.
loop-Chain :
    (fuel : ℕ) (m : Bytes) (total prev_end ofs acc size : ℕ)
    → total ≤ 32768
    → freelist_size_loop fuel m total prev_end ofs acc ≡ some size
    → (bs : List Block) × Chain m total ((prev_end + 4) % 2 ^ 32) ofs bs
      × (acc + free_bytes bs ≡ size)
unfolding freelist_size_loop
loop-Chain zero m total prev_end ofs acc size ht e = cc
loop-Chain (suc fuel) m total prev_end zero acc size ht e = ([], refl, ground arith)
loop-Chain (suc fuel) m total prev_end (suc ofs) acc size ht e =
    let head : (prev_end + 4) % 2 ^ 32 ≤ suc ofs = ground arith in
    let room : suc ofs + 4 ≤ total = ground arith in
    let body : suc ofs + get_u16 m (suc ofs + 2) ≤ total = ground arith in
    let rest : freelist_size_loop fuel m total (suc ofs + get_u16 m (suc ofs + 2))
          (get_u16 m (suc ofs)) (acc + get_u16 m (suc ofs + 2))
        ≡ some size =
      ground arith in
    let (bs, c, sum) =
      loop-Chain fuel m total (suc ofs + get_u16 m (suc ofs + 2)) (get_u16 m (suc ofs))
        (acc + get_u16 m (suc ofs + 2)) size ht rest in
    let same : (suc ofs + get_u16 m (suc ofs + 2) + 4) % 2 ^ 32
        ≡ suc ofs + get_u16 m (suc ofs + 2) + 4 =
      omega arith in
    (
      (suc ofs, get_u16 m (suc ofs + 2)) ∷ bs,
      (refl, omega arith, head, room, refl, body, rw same at c),
      omega arith,
    )

-- Enough fuel and a chain give its size.
Chain-loop :
    (bs : List Block) (fuel : ℕ) (m : Bytes) (total prev_end ofs acc : ℕ)
    → total ≤ 32768
    → Chain m total ((prev_end + 4) % 2 ^ 32) ofs bs
    → length bs < fuel
    → freelist_size_loop fuel m total prev_end ofs acc ≡ some (acc + free_bytes bs)
unfolding freelist_size_loop
Chain-loop bs zero m total prev_end ofs acc ht c h = absurd (omega arith)
Chain-loop [] (suc fuel) m total prev_end ofs acc ht c h = ground arith
Chain-loop ((b, len) ∷ bs) (suc fuel) m total prev_end ofs acc ht
      (e, pos, l, room, size, body, rest) h =
    let same : (b + len + 4) % 2 ^ 32 ≡ b + len + 4 = omega arith in
    ground (
      arith,
      Chain-loop bs fuel m total (b + len) (get_u16 m b) (acc + len) ht (rw same rest)
          (omega arith),
    )

pub Chain-length :
    (m : Bytes) (total : ℕ) (bs : List Block) (lo ofs : ℕ)
    → Chain m total lo ofs bs
    → (4 * length bs + lo ≤ total + 4) ⊎ (length bs ≡ 0)
Chain-length m total [] lo ofs c = inr refl
Chain-length m total ((b, len) ∷ bs) lo ofs (e, pos, l, room, size, body, rest) =
    omega (arith, Chain-length m total bs (b + len + 4) (get_u16 m b) rest)

-- `freelist_size` returns `size`, and not -1, exactly when the free blocks form a chain from the start of the cell
-- area on, of `size` bytes in all. (So it always ends, and its fuel suffices.)
pub freelist_size_iff :
    (m : Bytes) (h total size : ℕ)
    → total ≤ 32768
    → (freelist_size m h total ≡ some size) ↔ (
        (bs : List Block) × Chain m total
          (NodeHdr.get_cell_start m h)
          (NodeHdr.get_free_start m h)
          bs
        × (free_bytes bs ≡ size))
unfolding freelist_size
freelist_size_iff m h total size ht = (sound, complete)
  where
    start : ℕ
    start = sub32 (NodeHdr.get_cell_start m h) 4

    bound : NodeHdr.get_cell_start m h < 2 ^ 16
    bound = get_u16_lt m (h + 3)

    back : (start + 4) % 2 ^ 32 ≡ NodeHdr.get_cell_start m h
    back = omega (arith, bound)

    sound :
        freelist_size_loop (total + 2) m total start (NodeHdr.get_free_start m h) 0 ≡ some size
        → (bs : List Block) × Chain m total
            (NodeHdr.get_cell_start m h)
            (NodeHdr.get_free_start m h)
            bs
          × (free_bytes bs ≡ size)
    sound e =
        let (bs, c, sum) = loop-Chain (total + 2) m total start _ 0 size ht e in
        (bs, rw back at c, omega arith)

    complete :
        (bs : List Block) × Chain m total
            (NodeHdr.get_cell_start m h)
            (NodeHdr.get_free_start m h)
            bs
          × (free_bytes bs ≡ size)
        → freelist_size_loop (total + 2) m total start (NodeHdr.get_free_start m h) 0 ≡ some size
    complete (bs, c, e) =
        Chain-loop bs (total + 2) m total start (NodeHdr.get_free_start m h) 0 ht (rw back c)
          (omega (arith, Chain-length m total bs _ _ c))
        ∙ ap some (omega arith)
