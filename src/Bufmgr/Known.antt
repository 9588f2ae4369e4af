-- ===== src/Bufmgr/Known.antt =====
-- The addresses that the buffer manager keeps are those of references that it has made: what its operations keep
-- of that.
use cub_db.Common.{
  ℕ, zero, suc, ◌+◌, ◌-◌, ◌%◌, ◌^◌, ◌<◌, ◌≡◌, refl, ltb, ◌==◌, arith, Bool, true, false, List, [],
  ◌∷◌, ◌++◌, Option, none, some, if◌then◌else◌,
}
use cub_db.Bytes.{Bytes}
use cub_db.Bufmgr.PageTable.{
  PageTable, find_pointer, first, bucket, set_bucket, unlink_first, insert, remove, clear,
  allocate_table,
}
use cub_db.Bufmgr.PageTable
use cub_db.Bufmgr.Flags
use cub_db.Bufmgr.Cache.{
  Bufmgr, PageRef, key, set_ref, unlink, next_victim, touch, query, lookup, allocate, register_page,
  uncache, erase, reset_flags, purge, ref, unref, shrink_one, shrink_loop, shrink_to_fit,
  free_buffers, add_buffer, add_buffers, reserve_root, reallocate,
}
use cub_db.Bufmgr.Bounds.{
  Below, OptionBelow, Below-append, Below-le, Below-without, Below-last, Below-first,
  find_pointer-Parts, TableBelow, insert-TableBelow, remove-TableBelow,
}

pub record Known (b : Bufmgr) : Type 0 where
  pub root : b.root < b.fresh
  pub lru : Below b.fresh b.lru
  pub table : (i : ℕ) → Below b.fresh (b.table.table i)

pub query-Known : (b : Bufmgr) (page_id : ℕ) → Known b → OptionBelow b.fresh (query b page_id)
unfolding query PageTable.lookup
query-Known b page_id h =
    Below-first b.fresh _
      (find_pointer-Parts b.fresh (key b) _ page_id (h.table (bucket b.table page_id))).1

pub next_victim-Known : (b : Bufmgr) → Known b → OptionBelow b.fresh (next_victim b)
unfolding next_victim
next_victim-Known b h = Below-last b.fresh b.lru h.lru

if-Known : (t : Bool) (b c : Bufmgr) → Known b → Known c → Known (if t then b else c)
if-Known true b c h g = h
if-Known false b c h g = g

-- An address moves within the lists.
moved_lru :
    (b : Bufmgr) (a : ℕ)
    → Known b
    → a < b.fresh
    → Known (record (unlink b a) { lru = a ∷ (unlink b a).lru })
unfolding unlink
moved_lru b a h lt = record {
  root = h.root;
  lru = (lt, Below-without b.fresh a b.lru h.lru);
  table = h.table;
}

unlink-Known : (b : Bufmgr) (a : ℕ) → Known b → Known (unlink b a)
unfolding unlink
unlink-Known b a h = record {
  root = h.root;
  lru = Below-without b.fresh a b.lru h.lru;
  table = h.table;
}

-- Everything but the references and the counts stays.
pub set_ref-Known : (b : Bufmgr) (a : ℕ) (r : PageRef) → Known b → Known (set_ref b a r)
unfolding set_ref
set_ref-Known b a r h = record { root = h.root; lru = h.lru; table = h.table }

touch-Known : (b : Bufmgr) (a : ℕ) → Known b → a < b.fresh → Known (touch b a)
unfolding touch
touch-Known b a h lt = if-Known _ _ b (moved_lru b a h lt) h

pub lookup-Known :
    (b : Bufmgr) (page_id : ℕ)
    → Known b
    → Known (lookup b page_id).1 × OptionBelow b.fresh (lookup b page_id).0
unfolding lookup
lookup-Known b page_id h =
    (elim (query b page_id)
        as (λ o.
          OptionBelow b.fresh o
          → Known
              (elim o as (λ _. Option ℕ × Bufmgr) [
                | none ↦ (none, record b { cache_misses = b.cache_misses + 1 })
                | some a ↦ (some a, touch (record b { cache_hits = b.cache_hits + 1 }) a)
              ]).1
            × OptionBelow b.fresh
                (elim o as (λ _. Option ℕ × Bufmgr) [
                  | none ↦ (none, record b { cache_misses = b.cache_misses + 1 })
                  | some a ↦ (some a, touch (record b { cache_hits = b.cache_hits + 1 }) a)
                ]).0) [
                  | none ↦ λ _. (record { root = h.root; lru = h.lru; table = h.table }, tt)
                  | some a ↦ λ lt. (
                    touch-Known (record b { cache_hits = b.cache_hits + 1 }) a
                        (record { root = h.root; lru = h.lru; table = h.table }) lt,
                    lt,
                  )
                ])
      (query-Known b page_id h)

pub register_page-Known : (b : Bufmgr) (a : ℕ) → Known b → a < b.fresh → Known (register_page b a)
unfolding register_page set_ref
register_page-Known b a h lt =
    let r = b.ref_at a in
    let b' = record (set_ref b a (record r { cached = true })) {
      table = insert (key b) b.table a;
    } in
    if-Known (ltb 1 r.page_id) b' b
      (record {
        root = h.root;
        lru = h.lru;
        table = insert-TableBelow b.fresh (key b) b.table a h.table lt;
      })
      h

uncache-Known : (b : Bufmgr) (a : ℕ) → Known b → Known (uncache b a)
unfolding uncache set_ref
uncache-Known b a h =
    let r = b.ref_at a in
    let b' = record (set_ref b a (record r { cached = false })) {
      table = remove (key b) b.table r.page_id;
    } in
    if-Known r.cached b' b
      (record {
        root = h.root;
        lru = h.lru;
        table = remove-TableBelow b.fresh (key b) b.table r.page_id h.table;
      })
      h

uncache-fresh : (b : Bufmgr) (a : ℕ) → (uncache b a).fresh ≡ b.fresh
unfolding uncache set_ref
uncache-fresh b a =
    elim (b.ref_at a).cached
      as (λ t.
        (if t
          then record (set_ref b a (record (b.ref_at a) { cached = false })) {
            table = remove (key b) b.table (b.ref_at a).page_id;
          }
          else b).fresh
        ≡ b.fresh) [ true ↦ refl | false ↦ refl ]

-- An address joins the end of the list.
joined_lru :
    (b : Bufmgr) (a : ℕ) → Known b → a < b.fresh → Known (record b { lru = b.lru ++ a ∷ [] })
joined_lru b a h lt = record {
  root = h.root;
  lru = Below-append b.fresh b.lru (a ∷ []) h.lru (lt, tt);
  table = h.table;
}

pub erase-Known : (b : Bufmgr) (a : ℕ) → Known b → a < b.fresh → Known (erase b a)
unfolding erase unlink
erase-Known b a h lt =
    let b' = unlink (uncache b a) a in
    if-Known (ltb 1 (b.ref_at a).page_id) (record b' { lru = b'.lru ++ a ∷ [] }) b
      (joined_lru b' a (unlink-Known (uncache b a) a (uncache-Known b a h))
        (let e = uncache-fresh b a in omega arith))
      h

reset_flags-Known : (l : List ℕ) (b : Bufmgr) → Known b → Known (reset_flags l b)
unfolding reset_flags
reset_flags-Known [] b h = h
reset_flags-Known (a ∷ l) b h = reset_flags-Known l _ (set_ref-Known b a _ h)

pub purge-Known : (b : Bufmgr) → Known b → Known (purge b)
unfolding purge clear
purge-Known b h =
    let g = reset_flags-Known b.lru b h in record { root = g.root; lru = g.lru; table = λ i. tt }

pub ref-Known : (b : Bufmgr) (a : ℕ) → Known b → Known (ref b a)
unfolding ref set_ref
ref-Known b a h =
    let refs' = ((b.ref_at a).refs + 1) % 2 ^ 16 in
    let b' = record (set_ref b a (record (b.ref_at a) { refs = refs' })) {
      refsum = (b.refsum + 1) % 2 ^ 64;
    } in
    let moved = unlink b' a in
    let g : Known b' = record { root = h.root; lru = h.lru; table = h.table } in
    let k = unlink-Known b' a g in
    if-Known (refs' == 1) (record moved { in_use = a ∷ moved.in_use }) b'
      (record { root = k.root; lru = k.lru; table = k.table }) g

pub unref-Known : (b : Bufmgr) (a : ℕ) → Known b → a < b.fresh → Known (unref b a)
unfolding unref set_ref
unref-Known b a h lt =
    let refs' = ((b.ref_at a).refs + (2 ^ 16 - 1)) % 2 ^ 16 in
    let b' = record (set_ref b a (record (b.ref_at a) { refs = refs' })) {
      refsum = (b.refsum + (2 ^ 64 - 1)) % 2 ^ 64;
    } in
    let moved = unlink b' a in
    let g : Known b' = record { root = h.root; lru = h.lru; table = h.table } in
    if-Known (refs' == 0) (record moved { lru = a ∷ moved.lru }) b' (moved_lru b' a g lt) g

Below-table :
    (n : ℕ) (c : Bool) (t u : PageTable) (i : ℕ)
    → TableBelow n t
    → TableBelow n u
    → Below n ((if c then t else u).table i)
Below-table n true t u i h g = h i
Below-table n false t u i h g = g i

shrink_loop-Known : (l : List ℕ) (b : Bufmgr) → Known b → Known (shrink_loop l b)
unfolding shrink_loop shrink_one unlink
shrink_loop-Known [] b h = h
shrink_loop-Known (a ∷ l) b h = shrink_loop-Known l (shrink_one b a) (record {
  root = h.root;
  lru = Below-without b.fresh a b.lru h.lru;
  table = λ i.
      Below-table b.fresh (b.ref_at a).cached _ _ i
        (remove-TableBelow b.fresh (key b) b.table (key b a) h.table) h.table;
})

pub shrink_to_fit-Known : (b : Bufmgr) → Known b → Known (shrink_to_fit b)
unfolding shrink_to_fit
shrink_to_fit-Known b h =
    let g = shrink_loop-Known b.extra b h in record { root = g.root; lru = g.lru; table = g.table }

add_buffer-Known : (page : Bytes) (b : Bufmgr) → Known b → Known (add_buffer page b)
unfolding add_buffer set_ref
add_buffer-Known page b h = record {
  root = let e = h.root in omega arith;
  lru =
      Below-append (b.fresh + 1) b.lru (b.fresh ∷ []) (Below-le b.fresh _ b.lru (omega arith) h.lru)
        (omega arith, tt);
  table = λ i. Below-le b.fresh _ _ (omega arith) (h.table i);
}

pub allocate-Known : (b : Bufmgr) (page : Bytes) → Known b → Known (allocate b page).1
unfolding allocate
allocate-Known b page h =
    let g = add_buffer-Known page b h in record { root = g.root; lru = g.lru; table = g.table }

pub allocate-fresh :
    (b : Bufmgr) (page : Bytes) → (allocate b page).1.fresh ≡ (allocate b page).0 + 1
unfolding allocate add_buffer
allocate-fresh b page = refl

add_buffers-Known :
    (count : ℕ) (backing : ℕ → Bytes) (b : Bufmgr) → Known b → Known (add_buffers count backing b)
unfolding add_buffers
add_buffers-Known zero backing b h = h
add_buffers-Known (suc count) backing b h =
    add_buffers-Known count backing _ (add_buffer-Known (backing b.fresh) b h)

add_buffers-fresh :
    (count : ℕ) (backing : ℕ → Bytes) (b : Bufmgr)
    → (add_buffers count backing b).fresh ≡ b.fresh + count
unfolding add_buffers add_buffer
add_buffers-fresh zero backing b = omega arith
add_buffers-fresh (suc count) backing b =
    let e = add_buffers-fresh count backing (add_buffer (backing b.fresh) b) in omega (arith, e)

shrink_to_fit-fresh : (b : Bufmgr) → (shrink_to_fit b).fresh ≡ b.fresh
shrink_to_fit-fresh b = (Flags.shrink_to_fit-Keeps b).1

free_buffers-fresh : (b : Bufmgr) → (free_buffers b).fresh ≡ b.fresh
unfolding free_buffers
free_buffers-fresh b = shrink_to_fit-fresh b

if-Known-pair :
    (t : Bool) (r q : Bool × Bufmgr) → Known r.1 → Known q.1 → Known (if t then r else q).1
if-Known-pair true r q h g = h
if-Known-pair false r q h g = g

free_buffers-Known : (b : Bufmgr) → Known b → Known (free_buffers b)
unfolding free_buffers
free_buffers-Known b h =
    let k = shrink_to_fit-Known b h in
    let e = shrink_to_fit-fresh b in
    let g = h.root in record { root = omega arith; lru = tt; table = k.table }

reserve_root-Known :
    (b : Bufmgr) (a page_size : ℕ) → Known b → a < b.fresh → Known (reserve_root b a page_size)
unfolding reserve_root set_ref unlink
reserve_root-Known b a page_size h lt = record {
  root = lt;
  lru = Below-without b.fresh a b.lru h.lru;
  table = h.table;
}

-- The root is the first of the buffers, so it is one of them.
pub reallocate-Known :
    (granted : ℕ → Bool) (backing : ℕ → Bytes) (b : Bufmgr) (page_size : ℕ)
    → Known b
    → Known (reallocate granted backing b page_size).1
unfolding reallocate allocate_table
reallocate-Known granted backing b page_size h =
    let freed = free_buffers b in
    let k : Known freed = free_buffers-Known b h in
    let table' =
      if freed.table.capacity == 0 then allocate_table freed.table b.min_buffers else freed.table in
    let tabled = record freed { table = table' } in
    let tabled-Known : Known tabled = record {
      root = k.root;
      lru = k.lru;
      table = λ i.
          Below-table freed.fresh (freed.table.capacity == 0) _ freed.table i (λ j. tt) k.table;
    } in
    let filled = add_buffers (b.min_buffers + 1) backing tabled in
    let e = add_buffers-fresh (b.min_buffers + 1) backing tabled in
    let g = add_buffers-Known (b.min_buffers + 1) backing tabled tabled-Known in
    let counted = record filled { num_buffers = b.min_buffers } in
    let counted-Known : Known counted = record { root = g.root; lru = g.lru; table = g.table } in
    let fresh = free_buffers-fresh b in
    if-Known-pair _ _ (false, freed)
      (reserve_root-Known counted b.fresh page_size counted-Known (omega arith)) k
