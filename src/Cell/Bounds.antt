-- ===== src/Cell/Bounds.antt =====
-- How much of a payload stands in the node.
use cub_db.Common.{ℕ, ◌+◌, ◌^◌, ◌≤◌, ◌<◌, ◌≡◌, ◌⊎◌, arith, if◌then◌else◌, Bool, true, false}
use cub_db.Cell.{Payload, compute_local_size, describe_leaf_payload}

-- What a description says of a payload with `root` further bytes in the node: what fits stands there whole, and of
-- what does not fit, as much as the part before the value has, but not less than `min_local` or more than `max_local`.
pub record Describes (key_size value_size root min_local max_local : ℕ) (p : Payload) : Type 0 where
  pub bound : root + p.local_key_size + p.local_value_size ≤ max_local
  pub key : p.local_key_size ≤ key_size
  pub value : p.local_value_size ≤ value_size
  pub key_first : p.local_key_size < key_size → p.local_value_size ≡ 0
  pub cut : max_local < root + key_size → root + p.local_key_size + p.local_value_size ≡ max_local
  pub at_key :
      max_local < root + key_size + value_size
      → min_local ≤ root + key_size
      → root + key_size ≤ max_local
      → (p.local_key_size ≡ key_size) × (p.local_value_size ≡ 0)
  pub least :
      max_local < root + key_size + value_size
      → root + key_size ≤ min_local
      → root + p.local_key_size + p.local_value_size ≡ min_local
  pub whole :
      ((p.overflow_id_size ≡ 0)
        × (p.local_key_size ≡ key_size)
        × (p.local_value_size ≡ value_size)
        × (root + key_size + value_size ≤ max_local))
      ⊎ ((p.overflow_id_size ≡ 4) × (max_local < root + key_size + value_size))

-- For a value size, a greater bound and a key size plus 4 below 2 ^ 31, and local bounds from 4 on in order, a leaf cell's
-- payload (a bucket's has its 4 bytes of root ID in place of the value) stands in the node whole if it fits in `max_local`.
-- Else it has an overflow ID, and it takes `max_local` bytes if the part before the value is longer, the bytes of that part
-- alone if they are from `min_local` on, and else `min_local` bytes; the key comes before the value.
pub describe_leaf_payload-Describes :
    (key_size value_size min_local max_local : ℕ) (is_bucket : Bool)
    → key_size + 4 < 2 ^ 31
    → value_size < 2 ^ 31
    → 4 ≤ min_local
    → min_local ≤ max_local
    → max_local < 2 ^ 31
    → Describes key_size
        (if is_bucket then 0 else value_size)
        (if is_bucket then 4 else 0)
        min_local
        max_local
        (describe_leaf_payload key_size value_size is_bucket min_local max_local)
unfolding describe_leaf_payload compute_local_size
describe_leaf_payload-Describes key_size value_size min_local max_local false hk hv low order high =
    record {
      bound = ground arith;
      key = ground arith;
      value = ground arith;
      key_first = λ less. ground arith;
      cut = λ long. ground arith;
      at_key = λ over low' high'. ground arith;
      least = λ over low'. ground arith;
      whole = ground arith;
    }
describe_leaf_payload-Describes key_size value_size min_local max_local true hk hv low order high =
    record {
      bound = ground arith;
      key = ground arith;
      value = ground arith;
      key_first = λ less. ground arith;
      cut = λ long. ground arith;
      at_key = λ over low' high'. ground arith;
      least = λ over low'. ground arith;
      whole = ground arith;
    }
