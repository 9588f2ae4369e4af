-- ===== src/PointerMap/Entries.antt =====
-- Entries read back after they are written.
use native.Mathlib.Decide.{ℕ_discrete}
use cub_db.Common.{ℕ, ◌+◌, ◌%◌, ◌^◌, ◌≤◌, ◌<◌, ◌≡◌, ◌≢◌, ◌⊎◌, inl, inr, ◌∙◌, refl, sym, ap, arith}
use cub_db.Common.{
  Bool, true, false, ◌==◌, ◌&&◌, Bool-cases, lt→leb_false, ne→beq_false, eq→beq, beq→eq,
}
use cub_db.Common.{List, [], ◌∷◌, if◌then◌else◌}
use cub_db.Bytes.{Bytes, write}
use cub_db.Bytes.Laws.{Apart, write_self, write_ne, put_u32-Outside, get_u32-put_u32, get_u32_congr}
use cub_db.Bytes.Laws.{get_u32-put_u32-Apart}
use cub_db.Pager.{Status, Pages}
use cub_db.PointerMap.{Entry, lookup, entry_offset, decode_entry, store_entry, update_entry}
use cub_db.PointerMap.{read_entry, write_entry}
use cub_db.PointerMap.Layout.{entry_offset_within, lookup_bounds}

-- An entry that the pointer map can hold.
abbrev pub IsValid : Entry → Type 0
IsValid e = (e.back_ptr < 2 ^ 32) × (0 < e.kind) × (e.kind < 6)

entry_eq :
    (e : Entry) (a b : ℕ) → a ≡ e.back_ptr → b ≡ e.kind → record { back_ptr = a; kind = b } ≡ e
entry_eq e a b h k = rw (h, k) refl

decode_entry-store_entry :
    (m : Bytes) (offset : ℕ) (e : Entry)
    → IsValid e
    → decode_entry (store_entry m offset e) offset ≡ e
unfolding decode_entry store_entry
decode_entry-store_entry m offset e (b, pos, k) =
    let typed = write m offset (e.kind % 256) in
    entry_eq e _ _ (get_u32-put_u32 typed (offset + 1) e.back_ptr ∙ omega arith) (
      ap (λ (t : ℕ). t % 256)
        (put_u32-Outside typed (offset + 1) e.back_ptr offset (omega arith) ∙ write_self m offset _)
      ∙ omega arith)

decode_entry-store_entry-Apart :
    (m : Bytes) (offset other : ℕ) (e : Entry)
    → Apart offset 5 other 5
    → decode_entry (store_entry m offset e) other ≡ decode_entry m other
unfolding decode_entry store_entry
decode_entry-store_entry-Apart m offset other e h =
    let typed = write m offset (e.kind % 256) in
    let kept : (j : ℕ) → j ≢ offset → typed j ≡ m j = λ j n. write_ne m offset _ j n in
    entry_eq (decode_entry m other) _ _
      (get_u32-put_u32-Apart typed (offset + 1) e.back_ptr (other + 1) (omega arith)
        ∙ get_u32_congr typed m (other + 1) (kept _ (omega arith)) (kept _ (omega arith))
            (kept _ (omega arith)) (kept _ (omega arith)))
      (ap (λ (t : ℕ). t % 256)
        (put_u32-Outside typed (offset + 1) e.back_ptr other (omega arith)
          ∙ kept other (omega arith)))

and_true : (a b : Bool) → (a && b) ≡ true → (a ≡ true) × (b ≡ true)
and_true true b h = (refl, h)
and_true false b h = absurd (cc)

-- A pager with a list of what its callers write, the last write first.
abbrev pub logged : {S : Type 0} → Pages S → Pages (S × List (ℕ × Bytes))
logged pager = record {
  page_size = λ s. pager.page_size s.0;
  page = λ s. pager.page s.0;
  acquire = λ s id. let (status, t) = pager.acquire s.0 id in (status, (t, s.1));
  mark_dirty = λ s id. (pager.mark_dirty s.0 id, s.1);
  release = λ s id action. (pager.release s.0 id action, s.1);
  write = λ s id m. (pager.write s.0 id m, (id, m) ∷ s.1);
}

-- The pages after the writes of the list, from the pages before them.
abbrev pub written : List (ℕ × Bytes) → (ℕ → Bytes) → ℕ → Bytes
written [] before id = before id
written ((at, m) ∷ earlier) before id =
    let rest = written earlier before id in if at == id then m else rest

module _ {S : Type 0} (pager : Pages S) where
  -- The page that `write_entry` gets, and what it makes of the pages.
  abbrev pub acquired : S → ℕ → ℕ → Bytes
  acquired s p = pager.page (pager.acquire s (lookup p (pager.page_size s))).1

  abbrev pub left : S → ℕ → Entry → ℕ → Bytes
  left s p e = written (write_entry (logged pager) (s, []) p e Status.ok).1.1 (acquired s p)

  -- The pages after the entry is updated: the map page alone may be another one.
  update_entry-page :
      (s : S) (map_id offset : ℕ) (e : Entry)
      → (decode_entry (pager.page s map_id) offset ≡ e)
          × ((update_entry (logged pager) (s, []) map_id offset e).1 ≡ [])
        ⊎ ((update_entry (logged pager) (s, []) map_id offset e).1
            ≡ (map_id, store_entry (pager.page s map_id) offset e) ∷ [])
  unfolding update_entry
  update_entry-page s map_id offset e =
      let old = decode_entry (pager.page s map_id) offset in
      elim (Bool-cases ((e.back_ptr == old.back_ptr) && (e.kind == old.kind))) [
        | inl same ↦
            let (b, k) = and_true (e.back_ptr == old.back_ptr) (e.kind == old.kind) same in
            inl (
              entry_eq e _ _ (sym (beq→eq _ _ b)) (sym (beq→eq _ _ k)),
              rw (update_entry, same) refl,
            )
        | inr differ ↦ inr (rw (update_entry, differ) refl)
      ]

  module _ (s : S) (p : ℕ) (e : Entry) (h : 2 ≤ p) (entry : lookup p (pager.page_size s) < p)
      (granted : (pager.acquire s (lookup p (pager.page_size s))).0 ≡ Status.ok) where
    abbrev map_id : ℕ
    map_id = lookup p (pager.page_size s)

    abbrev updated : List (ℕ × Bytes)
    updated =
        (update_entry (logged pager) ((pager.acquire s map_id).1, []) map_id (entry_offset map_id p)
          e).1

    left_run : left s p e ≡ written updated (acquired s p)
    unfolding write_entry
    left_run =
        rw
          (
            write_entry,
            ne→beq_false map_id 0 (omega (arith, lookup_bounds p (pager.page_size s) h)),
            lt→leb_false p map_id entry,
            granted,
          )
          refl

    write_entry-ok : (write_entry pager s p e Status.ok).0 ≡ Status.ok
    unfolding write_entry
    write_entry-ok =
        rw
          (
            write_entry,
            ne→beq_false map_id 0 (omega (arith, lookup_bounds p (pager.page_size s) h)),
            lt→leb_false p map_id entry,
            granted,
          )
          refl

    -- The new entry, and the entry of another page.
    left-stored : IsValid e → decode_entry (left s p e map_id) (entry_offset map_id p) ≡ e
    left-stored valid =
        rw left_run
          (elim (update_entry-page (pager.acquire s map_id).1 map_id (entry_offset map_id p) e) [
            | inl (same, none_written) ↦ rw none_written same
            | inr one ↦
                rw (one, eq→beq map_id map_id refl)
                  (decode_entry-store_entry (acquired s p map_id) (entry_offset map_id p) e valid)
          ])

    left_kept :
        (map_id' offset' : ℕ)
        → (map_id' ≢ map_id) ⊎ Apart (entry_offset map_id p) 5 offset' 5
        → decode_entry (left s p e map_id') offset' ≡ decode_entry (acquired s p map_id') offset'
    left_kept map_id' offset' apart =
        rw left_run
          (elim (update_entry-page (pager.acquire s map_id).1 map_id (entry_offset map_id p) e) [
            | inl (same, none_written) ↦ rw none_written refl
            | inr one ↦ elim (ℕ_discrete map_id' map_id) [
              | no n ↦ rw (one, ne→beq_false map_id map_id' (λ e'. n (sym e'))) refl
              | yes e' ↦ elim apart [
                | inl n ↦ absurd (n e')
                | inr distant ↦
                    rw (one, e', eq→beq map_id map_id refl)
                      (decode_entry-store_entry-Apart (acquired s p map_id) (entry_offset map_id p)
                        offset' e distant)
              ]
            ]
          ])

  read_entry_run :
      (t : S) (p : ℕ) (e out : Entry)
      → IsValid e
      → 2 ≤ p
      → lookup p (pager.page_size t) < p
      → (pager.acquire t (lookup p (pager.page_size t))).0 ≡ Status.ok
      → decode_entry
          (pager.page
            (pager.acquire t (lookup p (pager.page_size t))).1
            (lookup p (pager.page_size t)))
          (entry_offset (lookup p (pager.page_size t)) p)
        ≡ e
      → ((read_entry pager t p out).0 ≡ Status.ok) × ((read_entry pager t p out).1 ≡ e)
  unfolding read_entry
  read_entry_run t p e out valid h entry granted stored =
      let map_id = lookup p (pager.page_size t) in
      rw
        (
          read_entry,
          ne→beq_false map_id 0 (omega (arith, lookup_bounds p (pager.page_size t) h)),
          lt→leb_false p map_id entry,
          granted,
          stored,
          ne→beq_false e.kind 0 (omega arith),
          lt→leb_false 6 e.kind (omega arith),
        )
        (refl, refl)

  -- For a page that has an entry and an entry with a valid type, on any pager, when the map page can be acquired: `write_entry` succeeds, and
  -- a `read_entry` in any state with the same page size that acquires the map page with the bytes that the write has left
  -- there succeeds and
  -- gives the entry that was written.
  pub read_entry-write_entry :
      (s t : S) (p : ℕ) (e out : Entry)
      → IsValid e
      → 2 ≤ p
      → lookup p (pager.page_size s) < p
      → (pager.acquire s (lookup p (pager.page_size s))).0 ≡ Status.ok
      → pager.page_size t ≡ pager.page_size s
      → (pager.acquire t (lookup p (pager.page_size s))).0 ≡ Status.ok
      → pager.page (pager.acquire t (lookup p (pager.page_size s))).1 (lookup p (pager.page_size s))
        ≡ left s p e (lookup p (pager.page_size s))
      → ((write_entry pager s p e Status.ok).0 ≡ Status.ok)
        × ((read_entry pager t p out).0 ≡ Status.ok)
        × ((read_entry pager t p out).1 ≡ e)
  read_entry-write_entry s t p e out valid h entry granted same granted' page =
      let stored = left-stored s p e h entry granted valid in
      let (status, read) =
        read_entry_run t p e out valid h (rw same entry) (rw same granted')
          (rw (same, page) stored) in
      (write_entry-ok s p e h entry granted, status, read)

  -- On any pager, a `write_entry` whose map page can be acquired leaves the entry of each other page that has one as it was:
  -- the pages as acquired, with what the call has written, hold the same entry. Page IDs are below 2 ^ 32.
  pub write_entry_frame :
      (s : S) (p q : ℕ) (e : Entry)
      → 2 ≤ p
      → 2 ≤ q
      → p < 2 ^ 32
      → q < 2 ^ 32
      → p ≢ q
      → lookup p (pager.page_size s) < p
      → lookup q (pager.page_size s) < q
      → (pager.acquire s (lookup p (pager.page_size s))).0 ≡ Status.ok
      → decode_entry
          (left s p e (lookup q (pager.page_size s)))
          (entry_offset (lookup q (pager.page_size s)) q)
        ≡ decode_entry
            (acquired s p (lookup q (pager.page_size s)))
            (entry_offset (lookup q (pager.page_size s)) q)
  write_entry_frame s p q e h h' small small' differ entry entry' granted =
      let page_size = pager.page_size s in
      let map_id = lookup p page_size in
      let apart : (lookup q page_size ≢ map_id)
          ⊎ Apart (entry_offset map_id p) 5 (entry_offset (lookup q page_size) q) 5 =
        elim (ℕ_discrete (lookup q page_size) map_id) [
          | no n ↦ inl n
          | yes e' ↦ inr (
              rw e'
                (entry_offset_within p q page_size small small' differ entry e' (omega arith) h).1)
        ] in
      left_kept s p e h entry granted (lookup q page_size) (entry_offset (lookup q page_size) q)
        apart
