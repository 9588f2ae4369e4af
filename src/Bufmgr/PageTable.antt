-- ===== src/Bufmgr/PageTable.antt =====
-- src/bufmgr.h and src/bufmgr.cpp: `Bufmgr::PageTable`, the hash table of the cached pages. A page reference goes
-- by its address; `key` is what the references at those addresses hold. The entries of a bucket, linked by
-- `next_hash`, are a list.
use cub_db.Common.{
  ℕ, zero, suc, ◌+◌, ◌-◌, ◌*◌, ◌%◌, ◌^◌, bit_and, ltb, ◌==◌, if◌then◌else◌, List, [], ◌∷◌, ◌++◌,
  Option, none, some,
}

pub record PageTable : Type 0 where
  pub capacity : ℕ
  pub length : ℕ
  pub table : ℕ → List ℕ

-- The loop of `allocate`, on fuel.
unfoldable pub capacity_loop : ℕ → ℕ → ℕ → ℕ
capacity_loop zero capacity min_buffers = capacity
capacity_loop (suc fuel) capacity min_buffers =
    let rest = capacity_loop fuel (capacity * 2 % 2 ^ 32) min_buffers in
    if ltb capacity min_buffers then rest else capacity

-- It is called once, on a table without a capacity.
unfoldable pub allocate_table : PageTable → ℕ → PageTable
allocate_table t min_buffers = record t {
  capacity = capacity_loop min_buffers 4 min_buffers;
  table = λ i. [];
}

unfoldable pub clear : PageTable → PageTable
clear t = record t { table = λ i. [] }

-- The entries whose links the loop follows, and the list that the slot it returns points to.
unfoldable pub find_pointer : (ℕ → ℕ) → List ℕ → ℕ → List ℕ × List ℕ
find_pointer key [] k = ([], [])
find_pointer key (a ∷ chain) k =
    let rest = find_pointer key chain k in
    if key a == k then ([], a ∷ chain) else (a ∷ rest.0, rest.1)

unfoldable pub first : List ℕ → Option ℕ
first [] = none
first (a ∷ l) = some a

unfoldable pub bucket : PageTable → ℕ → ℕ
bucket t k = bit_and k (t.capacity - 1)

unfoldable pub lookup : (ℕ → ℕ) → PageTable → ℕ → Option ℕ
lookup key t k = first (find_pointer key (t.table (bucket t k)) k).1

unfoldable pub set_bucket : PageTable → ℕ → List ℕ → PageTable
set_bucket t i chain = record t { table = λ j. if j == i then chain else t.table j }

unfoldable pub insert : (ℕ → ℕ) → PageTable → ℕ → PageTable
insert key t ref =
    let i = bucket t (key ref) in
    let passed = (find_pointer key (t.table i) (key ref)).0 in
    record (set_bucket t i (passed ++ ref ∷ [])) { length = (t.length + 1) % 2 ^ 32 }

unfoldable pub unlink_first : PageTable → ℕ → List ℕ × List ℕ → PageTable
unlink_first t i (passed, []) = t
unlink_first t i (passed, a ∷ rest) = record (set_bucket t i (passed ++ rest)) {
  length = (t.length + (2 ^ 32 - 1)) % 2 ^ 32;
}

unfoldable pub remove : (ℕ → ℕ) → PageTable → ℕ → PageTable
remove key t k = let i = bucket t k in unlink_first t i (find_pointer key (t.table i) k)
