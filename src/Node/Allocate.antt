-- ===== src/Node/Allocate.antt =====
-- `allocate_from_freelist` on a chain of free blocks.
use cub_db.Common.{ℕ, zero, suc, ◌+◌, ◌-◌, ◌%◌, ◌^◌, ◌≤◌, ◌<◌, ◌≡◌, ◌≢◌, ◌⊎◌, inl, inr, ◌∙◌, ap}
use cub_db.Common.{refl, arith, All, List, [], ◌∷◌, length, Option, some, Bool-cases}
use cub_db.Common.{
  ◌==◌, if◌then◌else◌, lt→ltb, le→ltb_false, ne→beq_false, le→leb, lt→leb_false, sym,
}
use cub_db.Bytes.{Bytes, write, get_u16, put_u16}
use cub_db.Bytes.Laws.{
  Outside, get_u16_lt, get_u16-put_u16, get_u16_congr, get_u16-put_u16-Apart, put_u16-Outside,
}
use cub_db.Bytes.Laws.{write_ne, write_self}
use native.Mathlib.Decide.{dec_le, dec_lt}
use cub_db.Header.NodeHdr
use cub_db.Node.{Node, hdr, allocate_from_freelist, take_free_space, freelist_search, sub32}
use cub_db.Node.Chain.{
  Block, Chain, Agree, free_bytes, Chain-Agree, Chain-weaken, Inside, ApartFrom, Chain-ApartFrom,
}

-- Where the pointer to the block behind `prev` is stored: in `prev`, or in the node header for the first block.
abbrev pub cell : ℕ → ℕ → ℕ
cell h prev = if prev == 0 then h + 5 else prev

-- A region of `needed` bytes at `r` was taken from the blocks `bs`, which start at or behind `lo` and
-- which the pointer behind `prev` leads to; `m'` is the page afterwards.
pub record Taken (m : Bytes) (h total lo prev : ℕ) (bs : List Block) (needed r : ℕ) (m' : Bytes)
    : Type 0 where
  pub left : List Block
  pub lost : ℕ
  pub lost_small : lost < 4
  pub chain : Chain m' total lo (get_u16 m' (cell h prev)) left
  pub bytes : free_bytes bs ≡ free_bytes left + needed + lost
  pub frags : m' (h + 7) ≡ (m (h + 7) + lost) % 256
  pub inside : Inside r needed bs
  pub above : lo ≤ r
  pub apart : ApartFrom r needed left
  pub frame : (j : ℕ) → j < lo → j ≢ h + 7 → Outside (cell h prev) 2 j → m' j ≡ m j

-- The pointer cell lies below `lo`, and off the count of fragments.
abbrev pub CellFits : ℕ → ℕ → ℕ → Type 0
CellFits h lo prev = (h + 8 ≤ lo) × (cell h prev + 2 ≤ lo) × Outside (cell h prev) 2 (h + 7)

module _ (m : Bytes) (h total lo prev b len needed : ℕ) (rest : List Block)
    (fits : CellFits h lo prev) (byte : m (h + 7) < 256) (small : total ≤ 32768)
    (enough : needed ≤ len) (c : Chain m total lo (get_u16 m (cell h prev)) ((b, len) ∷ rest)) where
  leftover : sub32 (get_u16 m (b + 2)) needed ≡ len - needed
  leftover = let (e, pos, l, room, size, body, tail) = c in rw size (omega arith)

  start : (b + (len - needed)) % 2 ^ 32 ≡ b + (len - needed)
  start = let (e, pos, l, room, size, body, tail) = c in omega arith

  abbrev shrunk : Bytes
  shrunk = put_u16 m (b + 2) ((len - needed) % 2 ^ 16)

  take_shrinks : 4 ≤ len - needed → take_free_space m h prev b needed ≡ (b + (len - needed), shrunk)
  unfolding take_free_space
  take_shrinks l = rw (leftover, start, le→ltb_false (len - needed) 4 l)

  abbrev unlinked : Bytes
  unlinked =
      put_u16 (write m (h + 7) ((m (h + 7) + (len - needed)) % 256)) (cell h prev)
        (get_u16 m b % 2 ^ 16)

  take_unlinks :
      len - needed < 4 → take_free_space m h prev b needed ≡ (b + (len - needed), unlinked)
  unfolding take_free_space
  take_unlinks l =
      rw (leftover, start, lt→ltb (len - needed) 4 l)
        (elim (Bool-cases (prev == 0)) [ inl first ↦ rw first | inr later ↦ rw later ])

  shrunk-Taken :
      4 ≤ len - needed
      → Taken m h total lo prev ((b, len) ∷ rest) needed (b + (len - needed)) shrunk
  shrunk-Taken l =
      let (e, pos, low, room, size, body, tail) = c in
      let behind : Agree m shrunk (b + len + 4) total =
        λ j p q. put_u16-Outside m (b + 2) _ j (inr (omega arith)) in
      let tail' : Chain shrunk total (b + len + 4) (get_u16 m b) rest =
        Chain-Agree m shrunk total rest _ _ behind tail in
      let next : get_u16 shrunk b ≡ get_u16 m b =
        get_u16-put_u16-Apart m (b + 2) _ b (inl (omega arith)) in
      let size' : get_u16 shrunk (b + 2) ≡ len - needed =
        get_u16-put_u16 m (b + 2) _ ∙ omega arith in
      let cell' : get_u16 shrunk (cell h prev) ≡ get_u16 m (cell h prev) =
        get_u16-put_u16-Apart m (b + 2) _ (cell h prev) (inl (omega arith)) in
      let here : Chain shrunk total lo b ((b, len - needed) ∷ rest) = (
        refl,
        pos,
        low,
        room,
        size',
        omega arith,
        rw next (
            Chain-weaken shrunk total rest (b + len + 4) (b + (len - needed) + 4) _ (omega arith)
              tail'),
      ) in
      record {
        left = (b, len - needed) ∷ rest;
        lost = 0;
        lost_small = omega arith;
        chain = rw (cell', e) here;
        bytes = omega arith;
        frags = put_u16-Outside m (b + 2) _ (h + 7) (inl (omega arith)) ∙ omega arith;
        inside = inl (omega arith, omega arith);
        above = omega arith;
        apart = (inr (omega arith), Chain-ApartFrom m total rest _ _ _ _ tail (omega arith));
        frame = λ j p q o. put_u16-Outside m (b + 2) _ j (inl (omega arith));
      }

  unlinked-Taken :
      len - needed < 4
      → Taken m h total lo prev ((b, len) ∷ rest) needed (b + (len - needed)) unlinked
  unlinked-Taken l =
      let (e, pos, low, room, size, body, tail) = c in
      let counted : Bytes = write m (h + 7) ((m (h + 7) + (len - needed)) % 256) in
      let behind : Agree m unlinked (b + len + 4) total = λ j p q.
        put_u16-Outside counted (cell h prev) _ j (inr (omega arith))
        ∙ write_ne m (h + 7) _ j (omega arith) in
      let tail' : Chain unlinked total (b + len + 4) (get_u16 m b) rest =
        Chain-Agree m unlinked total rest _ _ behind tail in
      let cell' : get_u16 unlinked (cell h prev) ≡ get_u16 m b =
        get_u16-put_u16 counted (cell h prev) _ ∙ omega (arith, get_u16_lt m b) in
      record {
        left = rest;
        lost = len - needed;
        lost_small = l;
        chain = rw cell' (Chain-weaken unlinked total rest (b + len + 4) lo _ (omega arith) tail');
        bytes = omega arith;
        frags = put_u16-Outside counted (cell h prev) _ (h + 7) fits.2 ∙ write_self m (h + 7) _;
        inside = inl (omega arith, omega arith);
        above = omega arith;
        apart = Chain-ApartFrom m total rest _ _ _ _ tail (omega arith);
        frame = λ j p q o. put_u16-Outside counted (cell h prev) _ j o ∙ write_ne m (h + 7) _ j q;
      }

cell_pos : (h b : ℕ) → 0 < b → cell h b ≡ b
cell_pos h b pos = ground arith

-- A block that is too small is passed over.
skip-Taken :
    (m : Bytes) (h total lo prev b len needed r : ℕ) (rest : List Block) (m' : Bytes)
    → CellFits h lo prev
    → Chain m total lo (get_u16 m (cell h prev)) ((b, len) ∷ rest)
    → Taken m h total (b + len + 4) b rest needed r m'
    → Taken m h total lo prev ((b, len) ∷ rest) needed r m'
skip-Taken m h total lo prev b len needed r rest m' fits (e, pos, low, room, size, body, tail) t =
    let same : (j : ℕ) → j < b + len + 4 → j ≢ h + 7 → Outside b 2 j → m' j ≡ m j =
      λ j p q o. t.frame j p q (rw (cell_pos h b pos) o) in
    let cell' : get_u16 m' (cell h prev) ≡ get_u16 m (cell h prev) =
      get_u16_congr m' m (cell h prev)
        (same (cell h prev) (omega arith) (omega arith) (omega arith))
        (same (cell h prev + 1) (omega arith) (omega arith) (omega arith)) in
    let size' : get_u16 m' (b + 2) ≡ get_u16 m (b + 2) =
      get_u16_congr m' m (b + 2) (same (b + 2) (omega arith) (omega arith) (omega arith))
        (same (b + 2 + 1) (omega arith) (omega arith) (omega arith)) in
    let tail' : Chain m' total (b + len + 4) (get_u16 m' b) t.left =
      rw (cell_pos h b pos) at t.chain in
    record {
      left = (b, len) ∷ t.left;
      lost = t.lost;
      lost_small = t.lost_small;
      chain = rw (cell', e) (refl, pos, low, room, size' ∙ size, body, tail');
      bytes = omega (arith, t.bytes);
      frags = t.frags;
      inside = inr t.inside;
      above = omega (arith, t.above);
      apart = (inr (omega (arith, t.above)), t.apart);
      frame = λ j p q o. same j (omega arith) q (omega arith);
    }

-- What a search over the blocks `bs` returns: no region and the page as it was, where every block is too small, or a
-- region that was taken.
pub data Found (m : Bytes) (h total lo prev : ℕ) (bs : List Block) (needed : ℕ)
    (out : Option (ℕ × Bytes)) : Type 0 where
  full :
      out ≡ some (0, m)
      → All (λ (block : Block). block.1 < needed) bs
      → Found m h total lo prev bs needed out
  taken :
      (r : ℕ) (m' : Bytes)
      → out ≡ some (r, m')
      → Taken m h total lo prev bs needed r m'
      → Found m h total lo prev bs needed out

search-Found :
    (bs : List Block) (fuel : ℕ) (m : Bytes) (h total lo prev ofs needed : ℕ)
    → CellFits h lo prev
    → m (h + 7) < 256
    → total ≤ 32768
    → ofs ≡ get_u16 m (cell h prev)
    → Chain m total lo ofs bs
    → length bs < fuel
    → Found m h total lo prev bs needed (freelist_search fuel m h prev ofs needed)
search-Found bs zero m h total lo prev ofs needed fits byte small at c enough = absurd (omega arith)
search-Found [] (suc fuel) m h total lo prev ofs needed fits byte small at c enough =
    unfold freelist_search in Found.full (ground arith) tt
search-Found ((b, len) ∷ rest) (suc fuel) m h total lo prev ofs needed fits byte small at c enough =
    let (e, pos, low, room, size, body, tail) = c in
    let c' : Chain m total lo (get_u16 m (cell h prev)) ((b, len) ∷ rest) = rw (← at) c in
    elim (dec_le needed len) [
      | yes fit ↦
          let step : freelist_search (suc fuel) m h prev ofs needed
              ≡ some (take_free_space m h prev b needed) =
            unfold freelist_search in
            rw (e, size, ne→beq_false b 0 (omega arith), le→leb needed len fit) in
          elim (dec_lt (len - needed) 4) [
            | yes l ↦
                Found.taken _ _
                  (step
                    ∙ ap some
                        (take_unlinks m h total lo prev b len needed rest fits byte small fit c' l))
                  (unlinked-Taken m h total lo prev b len needed rest fits byte small fit c' l)
            | no l ↦
                Found.taken _ _
                  (step
                    ∙ ap some (
                        take_shrinks m h total lo prev b len needed rest fits byte small fit c'
                          (omega arith)))
                  (shrunk-Taken m h total lo prev b len needed rest fits byte small fit c'
                    (omega arith))
          ]
      | no short ↦
          let step : freelist_search (suc fuel) m h prev ofs needed
              ≡ freelist_search fuel m h b (get_u16 m b) needed =
            unfold freelist_search in
            rw (e, size, ne→beq_false b 0 (omega arith), lt→leb_false needed len (omega arith)) in
          let fits' : CellFits h (b + len + 4) b = rw (cell_pos h b pos) (omega arith) in
          elim (search-Found rest fuel m h total (b + len + 4) b (get_u16 m b) needed fits' byte
            small (ap (get_u16 m) (sym (cell_pos h b pos))) tail (omega arith)) [
              | full out short_rest ↦ Found.full (step ∙ out) (omega arith, short_rest)
              | taken r m' out t ↦
                  Found.taken r m' (step ∙ out)
                    (skip-Taken m h total lo prev b len needed r rest m' fits c' t)
            ]
    ]

-- On a page whose free blocks form a chain behind the node header, `allocate_from_freelist` ends. It returns 0
-- and leaves the page alone where every free block is smaller than what is needed. Otherwise the region that it returns lies inside
-- one of the free blocks and in none of those that are left; these form a chain again, and the bytes that they lost are
-- the region's and at most three more, which the fragment count went up by.
pub allocate_from_freelist_lem :
    (n : Node) (bs : List Block) (fuel needed : ℕ)
    → n.page (hdr n + 7) < 256
    → n.total_space ≤ 32768
    → hdr n + 8 ≤ NodeHdr.get_cell_start n.page (hdr n)
    → Chain n.page n.total_space
        (NodeHdr.get_cell_start n.page (hdr n))
        (NodeHdr.get_free_start n.page (hdr n))
        bs
    → length bs < fuel
    → (allocate_from_freelist fuel n needed ≡ some (0, n))
        × All (λ (block : Block). block.1 < needed) bs
      ⊎ ((r : ℕ) × (m' : Bytes) × (allocate_from_freelist fuel n needed
            ≡ some (r, record n { page = m' }))
          × Taken n.page
              (hdr n)
              n.total_space
              (NodeHdr.get_cell_start n.page (hdr n))
              0
              bs
              needed
              r
              m')
unfolding allocate_from_freelist
allocate_from_freelist_lem n bs fuel needed byte small behind c enough =
    elim (search-Found bs fuel n.page (hdr n) n.total_space (NodeHdr.get_cell_start n.page (hdr n))
      0 (NodeHdr.get_free_start n.page (hdr n)) needed (omega arith) byte small refl c enough) [
        | full out short ↦ inl (rw (out, allocate_from_freelist) refl, short)
        | taken r m' out t ↦ inr (r, m', rw (out, allocate_from_freelist) refl, t)
      ]
