-- ===== src/Node/Slots.antt =====
-- The indirection vector is a sequence of slots: inserting and removing one shifts those behind it.
use cub_db.Common.{
  ℕ, ◌+◌, ◌-◌, ◌*◌, ◌%◌, ◌^◌, ◌≤◌, ◌<◌, ◌≡◌, ◌∙◌, ap, inl, inr, arith, ltb, ◌==◌, if◌then◌else◌,
}
use cub_db.Common.{lt→ltb, le→ltb_false, eq→beq, ne→beq_false}
use native.Mathlib.Decide.{dec_lt, ℕ_discrete}
use cub_db.Bytes.{Bytes, copy, get_u16, put_u16}
use cub_db.Bytes.Laws.{
  Apart, get_u16_move, get_u16_lt, get_u16_congr, get_u16-put_u16, get_u16-put_u16-Apart,
  put_u16-Outside, copy-Outside, copy_inside,
}
use cub_db.Node.{Node, hdr, cell_count, ivec_offset, sub32, insert_ivec_slot, remove_ivec_slot}

-- The slot as stored, without the mask that `get_ivec_slot` applies.
abbrev pub raw_slot : Node → ℕ → ℕ
raw_slot n index = get_u16 n.page (ivec_offset n + index * 2)

copy_u16 :
    (d s : Bytes) (to from n i j : ℕ)
    → j ≡ to + i
    → i + 2 ≤ n
    → get_u16 (copy d to s from n) j ≡ get_u16 s (from + i)
copy_u16 d s to from n i j e h =
    get_u16_move _ s j (from + i) (copy_inside d s to from n i j e (omega arith)) (
      copy_inside d s to from n (i + 1) (j + 1) (omega arith) (omega arith)
      ∙ ap s (add-assoc' from i))
  where
    add-assoc' : (a b : ℕ) → a + (b + 1) ≡ a + b + 1
    add-assoc' a b = omega arith

copy_u16-Outside :
    (d s : Bytes) (to from n j : ℕ) → Apart to n j 2 → get_u16 (copy d to s from n) j ≡ get_u16 d j
copy_u16-Outside d s to from n j h =
    get_u16_congr _ d j (copy-Outside d s to from n j (omega arith))
      (copy-Outside d s to from n (j + 1) (omega arith))

-- The bytes after an insertion or a removal, for a header at `h`, a vector of `c` slots at `iv`.
module _ (m : Bytes) (h iv c index slot count : ℕ) (apart : h + 8 ≤ iv) where
  abbrev inserted : Bytes
  inserted =
      let offset = iv + index * 2 in
      put_u16 (put_u16 (copy m (offset + 2) m offset ((c - index) * 2)) offset slot) (h + 1) count

  inserted_u16 :
      (j : ℕ)
      → index ≤ c
      → j ≤ c
      → (j < index → get_u16 inserted (iv + j * 2) ≡ get_u16 m (iv + j * 2))
        × (j ≡ index → get_u16 inserted (iv + j * 2) ≡ slot % 2 ^ 16)
        × (index < j → get_u16 inserted (iv + j * 2) ≡ get_u16 m (iv + (j - 1) * 2))
  inserted_u16 j hi hj = (below, at, above)
    where
      step :
          get_u16 inserted (iv + j * 2)
          ≡ get_u16
              (put_u16
                (copy m (iv + index * 2 + 2) m (iv + index * 2) ((c - index) * 2))
                (iv + index * 2)
                slot)
              (iv + j * 2)
      step = get_u16-put_u16-Apart _ (h + 1) count (iv + j * 2) (inr (omega arith))

      below : j < index → get_u16 inserted (iv + j * 2) ≡ get_u16 m (iv + j * 2)
      below l =
          step
          ∙ get_u16-put_u16-Apart _ (iv + index * 2) slot (iv + j * 2) (inl (omega arith))
          ∙ copy_u16-Outside m m _ _ _ _ (inl (omega arith))

      at : j ≡ index → get_u16 inserted (iv + j * 2) ≡ slot % 2 ^ 16
      at e = step ∙ rw e (get_u16-put_u16 _ (iv + index * 2) slot)

      above : index < j → get_u16 inserted (iv + j * 2) ≡ get_u16 m (iv + (j - 1) * 2)
      above l =
          step
          ∙ get_u16-put_u16-Apart _ (iv + index * 2) slot (iv + j * 2) (inr (omega arith))
          ∙ copy_u16 m m (iv + index * 2 + 2) (iv + index * 2) ((c - index) * 2)
              ((j - index - 1) * 2) (iv + j * 2) (omega arith) (omega arith)
          ∙ ap (get_u16 m) (omega arith)

  abbrev removed : Bytes
  removed =
      let offset = iv + index * 2 in
      put_u16 (copy m offset m (offset + 2) ((c - index) * 2)) (h + 1) count

  removed_u16 :
      (j : ℕ)
      → index < c
      → j + 1 < c
      → (j < index → get_u16 removed (iv + j * 2) ≡ get_u16 m (iv + j * 2))
        × (index ≤ j → get_u16 removed (iv + j * 2) ≡ get_u16 m (iv + (j + 1) * 2))
  removed_u16 j hi hj = (below, above)
    where
      step :
          get_u16 removed (iv + j * 2)
          ≡ get_u16 (copy m (iv + index * 2) m (iv + index * 2 + 2) ((c - index) * 2)) (iv + j * 2)
      step = get_u16-put_u16-Apart _ (h + 1) count (iv + j * 2) (inr (omega arith))

      below : j < index → get_u16 removed (iv + j * 2) ≡ get_u16 m (iv + j * 2)
      below l = step ∙ copy_u16-Outside m m _ _ _ _ (inl (omega arith))

      above : index ≤ j → get_u16 removed (iv + j * 2) ≡ get_u16 m (iv + (j + 1) * 2)
      above l =
          step
          ∙ copy_u16 m m (iv + index * 2) (iv + index * 2 + 2) ((c - index) * 2) ((j - index) * 2)
              (iv + j * 2) (omega arith) (omega arith)
          ∙ ap (get_u16 m) (omega arith)

  inserted_type : inserted h ≡ m h
  inserted_type =
      put_u16-Outside _ (h + 1) count h (inl (omega arith))
      ∙ put_u16-Outside _ (iv + index * 2) slot h (inl (omega arith))
      ∙ copy-Outside m m _ _ _ h (inl (omega arith))

  removed_type : removed h ≡ m h
  removed_type =
      put_u16-Outside _ (h + 1) count h (inl (omega arith))
      ∙ copy-Outside m m _ _ _ h (inl (omega arith))

ivec_offset-apart : (n : Node) → hdr n + 8 ≤ ivec_offset n
ivec_offset-apart n = ground arith

module _ (n : Node) (index : ℕ) where
  ivec_offset-insert : (slot : ℕ) → ivec_offset (insert_ivec_slot n index slot) ≡ ivec_offset n
  unfolding insert_ivec_slot
  ivec_offset-insert slot = rw (
      inserted_type n.page (hdr n) (ivec_offset n) (cell_count n) index (slot % 2 ^ 16)
        ((cell_count n + 1) % 2 ^ 16) (ivec_offset-apart n))

  ivec_offset-remove : ivec_offset (remove_ivec_slot n index) ≡ ivec_offset n
  unfolding remove_ivec_slot
  ivec_offset-remove = rw (
      removed_type n.page (hdr n) (ivec_offset n) (cell_count n) index 0
        (sub32 (cell_count n) 1 % 2 ^ 16) (ivec_offset-apart n))

  -- Inserting a slot at an index up to the count counts one more, if that fits 16 bits; it keeps the slots below the index, stores
  -- the slot (cut to 16 bits) at the index, and moves the others up by one.
  pub insert_ivec_slot_lem :
      (slot j : ℕ)
      → index ≤ cell_count n
      → cell_count n + 1 < 2 ^ 16
      → j ≤ cell_count n
      → (cell_count (insert_ivec_slot n index slot) ≡ cell_count n + 1)
        × (raw_slot (insert_ivec_slot n index slot) j ≡ (
            if ltb j index
            then raw_slot n j
            else if j == index
            then slot % 2 ^ 16
            else raw_slot n (j - 1)))
  unfolding insert_ivec_slot
  insert_ivec_slot_lem slot j hi hc hj =
      let (below, at, above) =
        inserted_u16 n.page (hdr n) (ivec_offset n) (cell_count n) index (slot % 2 ^ 16)
          ((cell_count n + 1) % 2 ^ 16) (ivec_offset-apart n) j hi hj in
      rw (ivec_offset-insert slot) (
        get_u16-put_u16 _ _ _ ∙ omega arith,
        elim (dec_lt j index) [
          | yes l ↦ rw (lt→ltb j index l) (below l)
          | no l ↦ rw (le→ltb_false j index (omega arith)) (elim (ℕ_discrete j index) [
            | yes e ↦ rw (eq→beq j index e) (at e ∙ omega arith)
            | no e ↦ rw (ne→beq_false j index e) (above (omega arith))
          ])
        ],
      )

  -- Removing a slot counts one less, keeps the slots below it, and moves the others down by one.
  pub remove_ivec_slot_lem :
      (j : ℕ)
      → index < cell_count n
      → j + 1 < cell_count n
      → (cell_count (remove_ivec_slot n index) + 1 ≡ cell_count n)
        × (raw_slot (remove_ivec_slot n index) j
            ≡ (if ltb j index then raw_slot n j else raw_slot n (j + 1)))
  unfolding remove_ivec_slot
  remove_ivec_slot_lem j hi hj =
      let (below, above) =
        removed_u16 n.page (hdr n) (ivec_offset n) (cell_count n) index 0
          (sub32 (cell_count n) 1 % 2 ^ 16) (ivec_offset-apart n) j hi hj in
      let moved : Bytes =
        copy n.page (ivec_offset n + index * 2) n.page (ivec_offset n + index * 2 + 2)
          ((cell_count n - index) * 2) in
      let count = sub32 (cell_count n) 1 % 2 ^ 16 in
      rw ivec_offset-remove (
        omega (arith, get_u16_lt n.page (hdr n + 1), get_u16-put_u16 moved (hdr n + 1) count),
        elim (dec_lt j index) [
          | yes l ↦ rw (lt→ltb j index l) (below l)
          | no l ↦ rw (le→ltb_false j index (omega arith)) (above (omega arith))
        ],
      )
