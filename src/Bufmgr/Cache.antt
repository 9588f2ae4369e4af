-- ===== src/Bufmgr/Cache.antt =====
-- src/page.h and src/bufmgr.cpp: the page references with their flags, and the lists and the table that the buffer
-- manager keeps them in. Address 0 is the null pointer, and addresses are not used again. A list linked by
-- `next_entry` is a list of addresses from the head on.
use cub_db.Common.{
  ℕ, zero, suc, ◌+◌, ◌-◌, ◌%◌, ◌^◌, ltb, ◌==◌, ◌&&◌, if◌then◌else◌, Bool, true, false, List, [],
  ◌∷◌, ◌++◌, Option, none, some,
}
use cub_db.Bytes.{Bytes, fill}
use cub_db.Bufmgr.PageTable.{PageTable, allocate_table}
use cub_db.Bufmgr.PageTable

-- `flag` as the two bits that are used.
pub record PageRef : Type 0 where
  pub page : Bytes
  pub page_id : ℕ
  pub refs : ℕ
  pub cached : Bool
  pub dirty : Bool

pub record Bufmgr : Type 0 where
  pub ref_at : ℕ → PageRef
  pub fresh : ℕ
  pub table : PageTable
  pub in_use : List ℕ
  pub lru : List ℕ
  pub extra : List ℕ
  pub root : ℕ
  pub min_buffers : ℕ
  pub num_buffers : ℕ
  pub refsum : ℕ
  pub cache_hits : ℕ
  pub cache_misses : ℕ

-- `PageRef::init`, on a page with the bytes `page`.
unfoldable pub init : Bytes → PageRef
init page = record { page = page; page_id = 0; refs = 0; cached = false; dirty = false }

unfoldable pub set_ref : Bufmgr → ℕ → PageRef → Bufmgr
set_ref b a r = record b { ref_at = λ x. if x == a then r else b.ref_at x }

abbrev pub key : Bufmgr → ℕ → ℕ
key b a = (b.ref_at a).page_id

-- `IntrusiveList::remove`: an address is in one list at most.
unfoldable pub without : ℕ → List ℕ → List ℕ
without a [] = []
without a (x ∷ l) = let rest = without a l in if x == a then rest else x ∷ rest

unfoldable pub unlink : Bufmgr → ℕ → Bufmgr
unlink b a = record b { in_use = without a b.in_use; lru = without a b.lru }

unfoldable pub query : Bufmgr → ℕ → Option ℕ
query b page_id = PageTable.lookup (key b) b.table page_id

-- Make an unreferenced page the most recently used one.
unfoldable pub touch : Bufmgr → ℕ → Bufmgr
touch b a =
    let moved = unlink b a in
    if (b.ref_at a).refs == 0 then record moved { lru = a ∷ moved.lru } else b

unfoldable pub lookup : Bufmgr → ℕ → Option ℕ × Bufmgr
lookup b page_id = elim (query b page_id) [
  | none ↦ (none, record b { cache_misses = b.cache_misses + 1 })
  | some a ↦ (some a, touch (record b { cache_hits = b.cache_hits + 1 }) a)
]

unfoldable pub last : List ℕ → Option ℕ
last [] = none
last (a ∷ []) = some a
last (a ∷ x ∷ l) = last (x ∷ l)

unfoldable pub next_victim : Bufmgr → Option ℕ
next_victim b = last b.lru

-- A new reference, with a page of the bytes `page`, at the end of the list.
unfoldable pub add_buffer : Bytes → Bufmgr → Bufmgr
add_buffer page b = record (set_ref b b.fresh (init page)) {
  fresh = b.fresh + 1;
  lru = b.lru ++ b.fresh ∷ [];
}

unfoldable pub allocate : Bufmgr → Bytes → ℕ × Bufmgr
allocate b page = (
  b.fresh,
  record (add_buffer page b) { extra = b.fresh ∷ b.extra; num_buffers = b.num_buffers + 1 },
)

unfoldable pub register_page : Bufmgr → ℕ → Bufmgr
register_page b a =
    let r = b.ref_at a in
    if ltb 1 r.page_id
    then record (set_ref b a (record r { cached = true })) {
      table = PageTable.insert (key b) b.table a;
    }
    else b

unfoldable pub uncache : Bufmgr → ℕ → Bufmgr
uncache b a =
    let r = b.ref_at a in
    if r.cached
    then record (set_ref b a (record r { cached = false })) {
      table = PageTable.remove (key b) b.table r.page_id;
    }
    else b

unfoldable pub erase : Bufmgr → ℕ → Bufmgr
erase b a =
    let b' = unlink (uncache b a) a in
    if ltb 1 (b.ref_at a).page_id then record b' { lru = b'.lru ++ a ∷ [] } else b

-- The loop of `purge`.
unfoldable pub reset_flags : List ℕ → Bufmgr → Bufmgr
reset_flags [] b = b
reset_flags (a ∷ l) b =
    reset_flags l (set_ref b a (record (b.ref_at a) { cached = false; dirty = false }))

unfoldable pub purge : Bufmgr → Bufmgr
purge b = record (reset_flags b.lru b) { table = PageTable.clear b.table }

unfoldable pub ref : Bufmgr → ℕ → Bufmgr
ref b a =
    let refs' = ((b.ref_at a).refs + 1) % 2 ^ 16 in
    let b' = record (set_ref b a (record (b.ref_at a) { refs = refs' })) {
      refsum = (b.refsum + 1) % 2 ^ 64;
    } in
    let moved = unlink b' a in if refs' == 1 then record moved { in_use = a ∷ moved.in_use } else b'

unfoldable pub unref : Bufmgr → ℕ → Bufmgr
unref b a =
    let refs' = ((b.ref_at a).refs + (2 ^ 16 - 1)) % 2 ^ 16 in
    let b' = record (set_ref b a (record (b.ref_at a) { refs = refs' })) {
      refsum = (b.refsum + (2 ^ 64 - 1)) % 2 ^ 64;
    } in
    let moved = unlink b' a in if refs' == 0 then record moved { lru = a ∷ moved.lru } else b'

unfoldable pub shrink_one : Bufmgr → ℕ → Bufmgr
shrink_one b a =
    let removed = PageTable.remove (key b) b.table (key b a) in
    let b' = unlink (record b { num_buffers = b.num_buffers - 1 }) a in
    record b' { table = if (b.ref_at a).cached then removed else b.table }

unfoldable pub shrink_loop : List ℕ → Bufmgr → Bufmgr
shrink_loop [] b = b
shrink_loop (a ∷ l) b = shrink_loop l (shrink_one b a)

unfoldable pub shrink_to_fit : Bufmgr → Bufmgr
shrink_to_fit b = record (shrink_loop b.extra b) { extra = [] }

unfoldable pub free_buffers : Bufmgr → Bufmgr
free_buffers b = record (shrink_to_fit b) { in_use = []; lru = []; num_buffers = 0; root = 0 }

-- The loop of `reallocate`, so many times.
unfoldable pub add_buffers : ℕ → (ℕ → Bytes) → Bufmgr → Bufmgr
add_buffers zero backing b = b
add_buffers (suc count) backing b = add_buffers count backing (add_buffer (backing b.fresh) b)

-- The root page takes the first buffer.
unfoldable pub reserve_root : Bufmgr → ℕ → ℕ → Bufmgr
reserve_root b a page_size =
    let r = b.ref_at a in
    let b' = set_ref b a (record r { page_id = 1; page = fill r.page 0 0 page_size }) in
    record (unlink b' a) { root = a }

-- `granted` has the answers to the allocations, of which there are three. The result is true for 0.
unfoldable pub reallocate : (ℕ → Bool) → (ℕ → Bytes) → Bufmgr → ℕ → Bool × Bufmgr
reallocate granted backing b page_size =
    let freed = free_buffers b in
    let has_table = if freed.table.capacity == 0 then granted 2 else true in
    let table' =
      if freed.table.capacity == 0 then allocate_table freed.table b.min_buffers else freed.table in
    let filled = add_buffers (b.min_buffers + 1) backing (record freed { table = table' }) in
    let counted = record filled { num_buffers = b.min_buffers } in
    if granted 0 && (granted 1 && has_table)
    then (true, reserve_root counted b.fresh page_size)
    else (false, freed)
