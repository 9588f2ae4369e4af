-- ===== src/Tests/HashIndex.antt =====
-- The hash index at concrete frames and keys.
use cub_db.Common.{true}
use cub_db.Common.{ℕ, ◌+◌, ◌≤◌, ◌<◌, ◌≡◌, refl, arith}
use cub_db.HashIndex.{
  index_group_number, index_hash, group_base, key_capacity, probe, n_index_hashes,
}
use cub_db.Common.{Bool, false, inr}
use cub_db.Pager.{Status}
use cub_db.HashIndex.{HashIndex, assign, lookup, fetch}
use cub_db.HashIndex.Build.{Filled, Placed-zero}
use cub_db.HashIndex.Lookup.{IsValid, Last, lookup-Last, fetch-page_of, page_of}
use cub_db.HashIndex.Assign.{Assigned, assign-Assigned, lookup-assign}
use cub_db.HashIndex.Groups.{index_group_number_lem, probe-index_hash}

group_edges : (index_group_number 4062 ≡ 0) × (index_group_number 4063 ≡ 1) × (group_base 1 ≡ 4062)
unfolding index_group_number group_base
group_edges = (refl, refl, refl)

index_group_number_lem_example :
    (group_base (index_group_number 9000) < 9000)
    × (9000 ≤ group_base (index_group_number 9000) + key_capacity (index_group_number 9000))
index_group_number_lem_example = index_group_number_lem 9000 (omega arith) (omega arith)

probe-index_hash_example : (n : ℕ) × (n < n_index_hashes) × (probe n (index_hash 77) ≡ 12)
probe-index_hash_example = probe-index_hash 77 12 (omega arith)

abbrev pub always : ℕ → Bool → Status × Bool
always n extend = (Status.ok, true)

pub always_ok : (n : ℕ) (extend : Bool) → always n extend ≡ (Status.ok, true)
always_ok n extend = refl

abbrev pub empty_index : HashIndex
empty_index = record {
  max_frame = 0;
  num_groups = 0;
  mapped = λ n. false;
  groups = λ n. record { keys = λ i. 0; hash = λ s. 0 };
}

empty_index-Filled : (n : ℕ) → Filled (empty_index.groups n) 0
empty_index-Filled n = record {
  placed = Placed-zero (λ i. 0);
  nonzero = λ e q. absurd (omega arith);
  clean = λ e q. refl;
}

pub empty_index-IsValid : IsValid empty_index
unfolding index_group_number
empty_index-IsValid = record {
  counts = λ n. 0;
  filled = λ n h. empty_index-Filled n;
  within = λ n h. omega arith;
  full = λ n h. absurd (omega arith);
  reaches = omega arith;
}

-- Page 7 is written to the first frame and page 9 to the second.
pub first_run :
    (ix' : HashIndex) × (assign always empty_index 7 1 ≡ (Status.ok, ix'))
    × Assigned empty_index 0 7 ix'
first_run =
    assign-Assigned always always_ok empty_index 0 7 empty_index-IsValid (omega arith) (omega arith)
      (inr refl)

abbrev pub one_frame : HashIndex
one_frame = record (first_run.0) { max_frame = 1 }

lookup-Last_example :
    (out : ℕ) × (ix1 : HashIndex) × (lookup always one_frame 7 0 ≡ (Status.ok, out, ix1))
    × Last always (λ n. refl) one_frame 7 0 out
lookup-Last_example = lookup-Last always (λ n. refl) one_frame 7 0 first_run.2.valid (omega arith)

assign-Assigned_example :
    (ix' : HashIndex) × (assign always one_frame 9 2 ≡ (Status.ok, ix'))
    × Assigned one_frame 1 9 ix'
assign-Assigned_example =
    assign-Assigned always always_ok one_frame 1 9 first_run.2.valid (omega arith) (omega arith)
      (inr refl)

lookup-assign_example :
    (ix' ix'' : HashIndex) × (assign always one_frame 9 2 ≡ (Status.ok, ix'))
    × (lookup always (record ix' { max_frame = 2 }) 9 1 ≡ (Status.ok, 2, ix''))
lookup-assign_example =
    lookup-assign always always_ok one_frame 1 9 1 first_run.2.valid (omega arith) (omega arith)
      (inr refl) (omega arith)

fetch-page_of_example :
    fetch (record one_frame { num_groups = 3 }) 4070
    ≡ page_of (record one_frame { num_groups = 3 }) 4070
unfolding index_group_number
fetch-page_of_example =
    fetch-page_of (record one_frame { num_groups = 3 }) 4070 (omega arith) (omega arith)
      (omega arith)
