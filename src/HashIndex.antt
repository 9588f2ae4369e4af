-- ===== src/HashIndex.antt =====
-- src/wal.cpp: the hash index of the write-ahead log. Frames fall into groups, and each group has a table of the pages
-- that its frames hold, with linear probing.
pub mod Groups
pub mod Build
pub mod Search
pub mod Cleanup
pub mod Lookup
pub mod Assign
use cub_db.Common.{
  ℕ, zero, suc, ◌+◌, ◌-◌, ◌*◌, ◌/◌, ◌%◌, ◌^◌, bit_and, ltb, leb, ◌==◌, ◌&&◌, ◌||◌, if◌then◌else◌,
}
use cub_db.Common.{Bool, true, false, Option, none, some}
use cub_db.Pager.{Status}
use cub_db.Node.{sub32}

-- `kReaderCount` and `kIndexHdrSize`, from the fields of HashIndexHdr and CkptInfo; a file has 8 shared locks.
abbrev pub reader_count : ℕ
reader_count = 8 - 3

abbrev pub index_hdr_size : ℕ
index_hdr_size = 48 * 2 + (4 + reader_count * 4 + 8 + 4 + 4)

abbrev pub n_index_hashes : ℕ
n_index_hashes = 8192

abbrev pub n_index_keys : ℕ
n_index_keys = 4096

abbrev pub n_index_keys0 : ℕ
n_index_keys0 = n_index_keys - index_hdr_size / 4

-- Every step wraps as `uint32_t` does.
unfoldable pub index_group_number : ℕ → ℕ
index_group_number value =
    sub32 ((sub32 value 1 + n_index_keys) % 2 ^ 32) n_index_keys0 / n_index_keys

-- `Hash` has 16 bits.
unfoldable pub index_hash : ℕ → ℕ
index_hash key = bit_and (key * 383 % 2 ^ 32) (n_index_hashes - 1) % 2 ^ 16

unfoldable pub next_index_hash : ℕ → ℕ
next_index_hash hash = bit_and (hash + 1) (n_index_hashes - 1)

-- `HashGroup::base`.
unfoldable pub group_base : ℕ → ℕ
group_base group_number =
    if group_number == 0
    then 0
    else (n_index_keys0 + n_index_keys * (group_number - 1) % 2 ^ 32) % 2 ^ 32

-- `key_capacity` of `assign`.
unfoldable pub key_capacity : ℕ → ℕ
key_capacity group_number = if group_number == 0 then n_index_keys0 else n_index_keys

-- The slot that a search has reached after so many collisions.
unfoldable pub probe : ℕ → ℕ → ℕ
probe zero hash = hash
probe (suc n) hash = probe n (next_index_hash hash)

-- `HashGroup`: the arrays, whatever the address. Their elements are 32 and 16 bits wide.
pub record Group : Type 0 where
  pub keys : ℕ → ℕ
  pub hash : ℕ → ℕ

-- `max_frame` is that of `m_hdr`, and `mapped` says which of `m_groups` are not null.
pub record HashIndex : Type 0 where
  pub max_frame : ℕ
  pub num_groups : ℕ
  pub mapped : ℕ → Bool
  pub groups : ℕ → Group

abbrev pub store : (ℕ → ℕ) → ℕ → ℕ → ℕ → ℕ
store f i v j = if j == i then v else f j

-- The loop of `lookup` over the slots of one group: whether it ended at an unused slot, and `out` after it.
unfoldable pub search_group : ℕ → Group → ℕ → ℕ → ℕ → ℕ → ℕ → ℕ → Bool × ℕ
search_group zero group base key lower upper key_hash out = ((group.hash key_hash == 0), out)
search_group (suc collisions) group base key lower upper key_hash out =
    let relative = group.hash key_hash in
    let absolute = relative + base in
    let found = leb absolute upper && (leb lower absolute && (group.keys (relative - 1) == key)) in
    let rest =
      search_group collisions group base key lower upper (next_index_hash key_hash)
        (if found then absolute else out) in
    if relative == 0 then (true, out) else rest

-- The loop of `assign`, to the first unused slot.
unfoldable pub find_slot : ℕ → (ℕ → ℕ) → ℕ → Option ℕ
find_slot zero hash key_hash = if hash key_hash == 0 then some key_hash else none
find_slot (suc collisions) hash key_hash =
    let rest = find_slot collisions hash (next_index_hash key_hash) in
    if hash key_hash == 0 then some key_hash else rest

-- The entries past `max_hash` are cleared.
unfoldable pub cleanup_group : Group → ℕ → Group
cleanup_group group max_hash = record {
  keys = λ i. if ltb i max_hash then group.keys i else 0;
  hash = λ s. if ltb max_hash (group.hash s) then 0 else group.hash s;
}

abbrev pub clear_group : Group
clear_group = record { keys = λ i. 0; hash = λ s. 0 }

abbrev pub set_group : HashIndex → ℕ → Group → HashIndex
set_group ix n group = record ix { groups = λ j. if j == n then group else ix.groups j }

unfoldable pub cleanup : HashIndex → HashIndex
cleanup ix =
    let n = index_group_number ix.max_frame in
    let cleared = cleanup_group (ix.groups n) (ix.max_frame - group_base n) in
    if ix.max_frame == 0 then ix else set_group ix n cleared

unfoldable pub fetch : HashIndex → ℕ → ℕ
fetch ix value =
    let n = index_group_number value in
    let group = ix.groups n in
    if leb ix.num_groups n
    then 0
    else if group_base n == 0
    then group.keys (value - 1)
    else group.keys (sub32 (sub32 value n_index_keys0) 1 % n_index_keys)

-- `assign` once the group is mapped. The group is cleared before its first entry, and otherwise when something stands
-- where the entry goes.
unfoldable pub prepare_group : HashIndex → ℕ → ℕ → HashIndex
prepare_group ix n relative =
    let ix1 = if relative == 1 then set_group ix n clear_group else ix in
    if (ix1.groups n).keys (relative - 1) == 0 then ix1 else cleanup ix1

unfoldable pub assign_mapped : HashIndex → ℕ → ℕ → ℕ → Status × HashIndex
assign_mapped ix n key relative =
    let ix2 = prepare_group ix n relative in
    let group = ix2.groups n in
    elim (find_slot relative group.hash (index_hash key)) [
      | none ↦ (Status.corruption, ix2)
      | some key_hash ↦ (
        Status.ok,
        set_group ix2 n (record {
          keys = store group.keys (relative - 1) key;
          hash = store group.hash key_hash (relative % 2 ^ 16);
        }),
      )
    ]

-- `region` is what the file's shared memory, or the allocation in its place, answers: a status, and whether there is an
-- address (the file succeeds without one when it is not to extend itself). `mapped` is false for a null pointer, and a group
-- is only to be looked into when it is mapped.
module _ (region : ℕ → Bool → Status × Bool) where
  unfoldable pub map_group : HashIndex → ℕ → Bool → Status × HashIndex
  map_group ix n extend =
      let grown = record ix { num_groups = if leb ix.num_groups n then n + 1 else ix.num_groups } in
      let (status, address) = region n extend in
      let mapped' = record grown { mapped = λ j. if j == n then address else ix.mapped j } in
      if ix.mapped n
      then (Status.ok, grown)
      else elim status [ Status.ok ↦ (Status.ok, mapped') | failed ↦ (failed, grown) ]

  -- One round of the loop over the groups.
  unfoldable pub lookup_group : HashIndex → ℕ → ℕ → ℕ → Status × ℕ × HashIndex
  lookup_group ix n key lower =
      let (status, ix') = map_group ix n false in
      elim status [
        | Status.ok ↦
            let (ended, out) =
              search_group n_index_hashes (ix'.groups n) (group_base n) key lower ix.max_frame
                (index_hash key) 0 in
            ((if ended then Status.ok else Status.corruption), out, ix')
        | failed ↦ (failed, 0, ix')
      ]

  -- The groups from `n` down to `min_group_number`.
  unfoldable pub lookup_groups : ℕ → HashIndex → ℕ → ℕ → ℕ → Status × ℕ × HashIndex
  lookup_groups zero ix min_group_number key lower = lookup_group ix 0 key lower
  lookup_groups (suc n) ix min_group_number key lower =
      let (status, out, ix') = lookup_group ix (suc n) key lower in
      let rest = lookup_groups n ix' min_group_number key lower in
      elim status [
        | Status.ok ↦
            if (if out == 0 then false else true) || leb (suc n) min_group_number
            then (Status.ok, out, ix')
            else rest
        | failed ↦ (failed, out, ix')
      ]

  unfoldable pub lookup : HashIndex → ℕ → ℕ → Status × ℕ × HashIndex
  lookup ix key lower =
      let lower' = if lower == 0 then 1 else lower in
      if ix.max_frame == 0
      then (Status.ok, 0, ix)
      else lookup_groups (index_group_number ix.max_frame) ix (index_group_number lower') key lower'

  unfoldable pub assign : HashIndex → ℕ → ℕ → Status × HashIndex
  assign ix key value =
      let n = index_group_number value in
      let (status, ix') = map_group ix n true in
      elim status [
        | Status.ok ↦ assign_mapped ix' n key (sub32 value (group_base n))
        | failed ↦ (failed, ix')
      ]
