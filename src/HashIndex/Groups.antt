-- ===== src/HashIndex/Groups.antt =====
-- The groups part the frames, and a search comes to every slot.
use native.Mathlib.Decide.{ℕ_discrete}
use cub_db.Common.{
  ℕ, zero, suc, ◌+◌, ◌-◌, ◌*◌, ◌/◌, ◌%◌, ◌^◌, ◌≤◌, ◌<◌, ◌≡◌, ◌∙◌, refl, arith, eq→beq, ne→beq_false,
}
use cub_db.Common.Bits.{bit_and-mask}
use cub_db.HashIndex.{
  index_group_number, index_hash, next_index_hash, group_base, key_capacity, probe,
}
use cub_db.HashIndex.{n_index_hashes}

-- A frame number lies in the range of its group: past the base, and not past as many keys as the group takes.
pub index_group_number_lem :
    (value : ℕ)
    → 0 < value
    → value + 34 < 2 ^ 32
    → (group_base (index_group_number value) < value)
      × (value ≤ group_base (index_group_number value) + key_capacity (index_group_number value))
unfolding index_group_number group_base key_capacity
index_group_number_lem value pos small =
    let n = index_group_number value in
    let e : n ≡ (value + 33) / 4096 = omega arith in
    elim (ℕ_discrete n 0) [
      | yes none' ↦ rw (group_base, key_capacity, eq→beq n 0 none') (omega arith, omega arith)
      | no some' ↦ rw (group_base, key_capacity, ne→beq_false n 0 some') (omega arith, omega arith)
    ]

pub next_index_hash_lem : (hash : ℕ) → next_index_hash hash ≡ (hash + 1) % 8192
unfolding next_index_hash
next_index_hash_lem hash = bit_and-mask 13 (hash + 1) 8191 refl

pub index_hash_lt : (key : ℕ) → index_hash key < n_index_hashes
unfolding index_hash
index_hash_lt key = rw (bit_and-mask 13 (key * 383 % 2 ^ 32) 8191 refl) (omega arith)

probe_lem : (n hash : ℕ) → hash < 8192 → probe n hash ≡ (hash + n) % 8192
unfolding probe
probe_lem zero hash h = omega arith
probe_lem (suc n) hash h =
    probe_lem n (next_index_hash hash) (omega (arith, next_index_hash_lem hash))
    ∙ omega (arith, next_index_hash_lem hash)

-- From the hash of any key, every slot of a group is reached before the number of collisions is the number of slots.
pub probe-index_hash :
    (key slot : ℕ)
    → slot < n_index_hashes
    → (n : ℕ) × (n < n_index_hashes) × (probe n (index_hash key) ≡ slot)
probe-index_hash key slot h =
    let low = index_hash_lt key in
    let n = (slot + 8192 - index_hash key) % 8192 in
    (n, omega arith, probe_lem n (index_hash key) low ∙ omega arith)
