-- ===== src/PointerMap/Layout.antt =====
-- Where the entries of the pointer map stand.
use native.Mathlib.Decide.{dec_lt}
use native.Mathlib.Nat.{
  div-mul-le_self, lt-div-mul-add, mul-div_cancel, le-div_iff_mul-le, mul-le-mul_right,
}
use cub_db.Common.{
  ℕ, ◌+◌, ◌-◌, ◌*◌, ◌/◌, ◌^◌, ◌≤◌, ◌<◌, ◌≡◌, ◌≢◌, ◌∙◌, sym, ap, arith, true, eq→beq, beq→eq,
}
use cub_db.Common.{le→ltb_false, refl}
use cub_db.Bytes.Laws.{Apart}
use cub_db.PointerMap.{lookup, is_map, entry_offset, entry_size}

-- The pages from a map page on up to the next one.
abbrev span : ℕ → ℕ
span page_size = page_size / entry_size + 1

lookup_mul :
    (p page_size : ℕ) → 2 ≤ p → lookup p page_size ≡ (p - 2) / span page_size * span page_size + 2
unfolding lookup
lookup_mul p page_size h = rw (le→ltb_false p 2 h) refl

pub lookup_bounds :
    (p page_size : ℕ)
    → 2 ≤ p
    → (2 ≤ lookup p page_size) × (lookup p page_size ≤ p) × (p ≤ lookup p page_size + page_size / 5)
lookup_bounds p page_size h =
    let low = div-mul-le_self (p - 2) (span page_size) in
    let high : p - 2 < (p - 2) / span page_size * span page_size + span page_size =
      lt-div-mul-add (omega arith) in
    rw (lookup_mul p page_size h) (omega arith, omega arith, omega arith)

lookup-Map : (p page_size : ℕ) → 2 ≤ p → is_map (lookup p page_size) page_size ≡ true
unfolding is_map
lookup-Map p page_size h =
    let q = (p - 2) / span page_size in
    let m = lookup p page_size in
    let e : m - 2 ≡ q * span page_size = omega (arith, lookup_mul p page_size h) in
    let again : (m - 2) / span page_size ≡ q =
      ap (λ (t : ℕ). t / span page_size) e ∙ mul-div_cancel q (omega arith) in
    eq→beq (lookup m page_size) m (
      lookup_mul m page_size (lookup_bounds p page_size h).0
      ∙ ap (λ (t : ℕ). t * span page_size + 2) again
      ∙ omega (arith, lookup_mul p page_size h))

lookup_greatest :
    (p page_size other : ℕ)
    → 2 ≤ p
    → other ≤ p
    → is_map other page_size ≡ true
    → other ≤ lookup p page_size
unfolding is_map
lookup_greatest p page_size other h k map = elim (dec_lt other 2) [
  | yes few ↦ omega (arith, (lookup_bounds p page_size h).0)
  | no some' ↦
      let q = (other - 2) / span page_size in
      let same : q * span page_size + 2 ≡ other =
        sym (lookup_mul other page_size (omega arith))
        ∙ beq→eq (lookup other page_size) other map in
      let q-le : q ≤ (p - 2) / span page_size =
        (le-div_iff_mul-le {k = span page_size} {x = q} {y = p - 2} (omega arith)).1
          (omega arith) in
      omega (arith, mul-le-mul_right (span page_size) q-le, lookup_mul p page_size h)
]

-- For a page from the first map page on, `lookup` is the greatest map page at or below it.
pub lookup_lem :
    (p page_size : ℕ)
    → 2 ≤ p
    → (is_map (lookup p page_size) page_size ≡ true)
      × (lookup p page_size ≤ p)
      × ((other : ℕ) → other ≤ p → is_map other page_size ≡ true → other ≤ lookup p page_size)
lookup_lem p page_size h = (
  lookup-Map p page_size h,
  (lookup_bounds p page_size h).1,
  λ other k map. lookup_greatest p page_size other h k map,
)

pub entry_offset_lem :
    (map_id p : ℕ) → map_id < p → p < 2 ^ 32 → entry_offset map_id p ≡ (p - map_id - 1) * 5
unfolding entry_offset
entry_offset_lem map_id p h small = omega arith

-- The entry of a page that is no map page lies within its map page, and apart from the entry of each other page with
-- the same map page.
pub entry_offset_within :
    (p other page_size : ℕ)
    → p < 2 ^ 32
    → other < 2 ^ 32
    → p ≢ other
    → lookup p page_size < p
    → lookup other page_size ≡ lookup p page_size
    → lookup p page_size < other
    → 2 ≤ p
    → (entry_offset (lookup p page_size) p + entry_size ≤ page_size)
      × Apart
          (entry_offset (lookup p page_size) p)
          entry_size
          (entry_offset (lookup p page_size) other)
          entry_size
entry_offset_within p other page_size small small' differ entry same entry' h =
    let map_id = lookup p page_size in
    let e = entry_offset_lem map_id p entry small in
    let e' = entry_offset_lem map_id other entry' small' in
    (omega (arith, lookup_bounds p page_size h), omega arith)
