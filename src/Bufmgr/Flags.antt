-- ===== src/Bufmgr/Flags.antt =====
-- What the operations of the buffer manager do to the flags of dirty pages, which belong to the dirty list.
use cub_db.Common.{
  ℕ, zero, suc, ◌+◌, ◌≡◌, refl, ◌∙◌, ltb, ◌==◌, arith, Bool, true, false, List, [], ◌∷◌, Option,
  none, some, if◌then◌else◌,
}
use cub_db.Bytes.{Bytes}
use cub_db.Bufmgr.Cache.{
  Bufmgr, PageRef, init, set_ref, unlink, touch, query, lookup, allocate, register_page, uncache,
  erase, reset_flags, purge, ref, unref, shrink_one, shrink_loop, shrink_to_fit, free_buffers,
  add_buffer, add_buffers, reserve_root, reallocate,
}

abbrev pub flag : Bufmgr → ℕ → Bool
flag b a = (b.ref_at a).dirty

abbrev pub Keeps : Bufmgr → Bufmgr → Type 0
Keeps b b' = ((a : ℕ) → flag b' a ≡ flag b a) × (b'.fresh ≡ b.fresh)

pub Keeps-refl : (b : Bufmgr) → Keeps b b
Keeps-refl b = (λ a. refl, refl)

pub Keeps-trans : (b c d : Bufmgr) → Keeps b c → Keeps c d → Keeps b d
Keeps-trans b c d (f, e) (g, i) = (λ a. g a ∙ f a, i ∙ e)

-- A reference that is written with the flag it had.
pub set_ref-Keeps :
    (b : Bufmgr) (a : ℕ) (r : PageRef) → r.dirty ≡ flag b a → Keeps b (set_ref b a r)
unfolding set_ref
set_ref-Keeps b a r h = (λ x. ground arith, refl)

Keeps-if : (b c d : Bufmgr) (t : Bool) → Keeps b c → Keeps b d → Keeps b (if t then c else d)
Keeps-if b c d true h g = h
Keeps-if b c d false h g = g

touch-Keeps : (b : Bufmgr) (a : ℕ) → Keeps b (touch b a)
unfolding touch unlink
touch-Keeps b a = Keeps-if b _ _ ((b.ref_at a).refs == 0) (Keeps-refl b) (Keeps-refl b)

pub lookup-Keeps : (b : Bufmgr) (page_id : ℕ) → Keeps b (lookup b page_id).1
unfolding lookup
lookup-Keeps b page_id =
    elim (query b page_id)
      as (λ o.
        Keeps b
          (elim o as (λ _. Option ℕ × Bufmgr) [
            | none ↦ (none, record b { cache_misses = b.cache_misses + 1 })
            | some a ↦ (some a, touch (record b { cache_hits = b.cache_hits + 1 }) a)
          ]).1) [
            | none ↦ Keeps-refl b
            | some a ↦ touch-Keeps (record b { cache_hits = b.cache_hits + 1 }) a
          ]

pub register_page-Keeps : (b : Bufmgr) (a : ℕ) → Keeps b (register_page b a)
unfolding register_page
register_page-Keeps b a =
    Keeps-if b _ _ (ltb 1 (b.ref_at a).page_id)
      (set_ref-Keeps b a (record (b.ref_at a) { cached = true }) refl) (Keeps-refl b)

uncache-Keeps : (b : Bufmgr) (a : ℕ) → Keeps b (uncache b a)
unfolding uncache
uncache-Keeps b a =
    Keeps-if b _ _ (b.ref_at a).cached
      (set_ref-Keeps b a (record (b.ref_at a) { cached = false }) refl) (Keeps-refl b)

pub erase-Keeps : (b : Bufmgr) (a : ℕ) → Keeps b (erase b a)
unfolding erase unlink
erase-Keeps b a = Keeps-if b _ _ (ltb 1 (b.ref_at a).page_id) (uncache-Keeps b a) (Keeps-refl b)

pub ref-Keeps : (b : Bufmgr) (a : ℕ) → Keeps b (ref b a)
unfolding ref unlink
ref-Keeps b a = Keeps-if b _ _ _ (set_ref-Keeps b a _ refl) (set_ref-Keeps b a _ refl)

pub unref-Keeps : (b : Bufmgr) (a : ℕ) → Keeps b (unref b a)
unfolding unref unlink
unref-Keeps b a = Keeps-if b _ _ _ (set_ref-Keeps b a _ refl) (set_ref-Keeps b a _ refl)

shrink_loop-Keeps : (l : List ℕ) (b : Bufmgr) → Keeps b (shrink_loop l b)
unfolding shrink_loop shrink_one unlink
shrink_loop-Keeps [] b = Keeps-refl b
shrink_loop-Keeps (a ∷ l) b = shrink_loop-Keeps l (shrink_one b a)

pub shrink_to_fit-Keeps : (b : Bufmgr) → Keeps b (shrink_to_fit b)
unfolding shrink_to_fit
shrink_to_fit-Keeps b = shrink_loop-Keeps b.extra b

-- Nothing is dirty.
abbrev pub AllClean : Bufmgr → Type 0
AllClean b = (a : ℕ) → flag b a ≡ false

set_ref-AllClean :
    (b : Bufmgr) (a : ℕ) (r : PageRef) → r.dirty ≡ false → AllClean b → AllClean (set_ref b a r)
unfolding set_ref
set_ref-AllClean b a r e h x = let hx = h x in ground arith

reset_flags-AllClean : (l : List ℕ) (b : Bufmgr) → AllClean b → AllClean (reset_flags l b)
unfolding reset_flags
reset_flags-AllClean [] b h = h
reset_flags-AllClean (a ∷ l) b h = reset_flags-AllClean l _ (set_ref-AllClean b a _ refl h)

pub purge-AllClean : (b : Bufmgr) → AllClean b → AllClean (purge b)
unfolding purge
purge-AllClean b h = reset_flags-AllClean b.lru b h

pub allocate-flag :
    (b : Bufmgr) (page : Bytes) (x : ℕ)
    → flag b b.fresh ≡ false
    → flag (allocate b page).1 x ≡ flag b x
unfolding allocate add_buffer set_ref init
allocate-flag b page x h = ground arith

add_buffers-AllClean :
    (count : ℕ) (backing : ℕ → Bytes) (b : Bufmgr)
    → AllClean b
    → AllClean (add_buffers count backing b)
unfolding add_buffers add_buffer init
add_buffers-AllClean zero backing b h = h
add_buffers-AllClean (suc count) backing b h =
    add_buffers-AllClean count backing _
      (set_ref-AllClean b b.fresh (init (backing b.fresh)) refl h)

if-AllClean :
    (t : Bool) (r q : Bool × Bufmgr) → AllClean r.1 → AllClean q.1 → AllClean (if t then r else q).1
if-AllClean true r q h g = h
if-AllClean false r q h g = g

shrink_to_fit-AllClean : (b : Bufmgr) → AllClean b → AllClean (shrink_to_fit b)
shrink_to_fit-AllClean b h a = (shrink_to_fit-Keeps b).0 a ∙ h a

reserve_root-AllClean :
    (b : Bufmgr) (a page_size : ℕ) → AllClean b → AllClean (reserve_root b a page_size)
unfolding reserve_root unlink
reserve_root-AllClean b a page_size h = set_ref-AllClean b a _ (h a) h

pub reallocate-AllClean :
    (granted : ℕ → Bool) (backing : ℕ → Bytes) (b : Bufmgr) (page_size : ℕ)
    → AllClean b
    → AllClean (reallocate granted backing b page_size).1
unfolding reallocate free_buffers
reallocate-AllClean granted backing b page_size h =
    let freed = shrink_to_fit-AllClean b h in
    if-AllClean _ _ _
      (reserve_root-AllClean _ b.fresh page_size
        (add_buffers-AllClean (b.min_buffers + 1) backing _ freed))
      freed
