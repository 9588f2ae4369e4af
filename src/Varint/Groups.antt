-- ===== src/Varint/Groups.antt =====
-- The bytes of a varint as a recursion on its groups of seven bits.
use mathlib.Core.WellFounded.{Acc}
use cub_db.Common.{ℕ, zero, suc, ◌+◌, ◌/◌, ◌%◌, ◌^◌, ◌≤◌, ◌<◌, ◌≡◌, ◌∙◌, refl, arith}
use cub_db.Common.{List, [], ◌∷◌, length, ltb, if◌then◌else◌}
use cub_db.Common.Bits.{bit_or_top}
use cub_db.Bytes.{Bytes, write}
use cub_db.Bytes.Laws.{write_self, write_ne}
use cub_db.Varint.{length_loop, varint_length, varint_bytes, emit, lt_wf}

-- The groups of `v`, lowest first, for `v` below 128 ^ (k + 1).
pub groups : ℕ → ℕ → List ℕ
groups zero v = v ∷ []
groups (suc k) v =
    let rest = groups k (v / 128) in if ltb v 128 then v ∷ [] else (v % 128 + 128) ∷ rest

pub groups-small : (k v : ℕ) → v < 128 → groups k v ≡ v ∷ []
unfolding groups
groups-small zero v h = refl
groups-small (suc k) v h = ground arith

pub groups-large : (k v : ℕ) → 128 ≤ v → groups (suc k) v ≡ (v % 128 + 128) ∷ groups k (v / 128)
unfolding groups
groups-large k v h = ground arith

pub varint_bytes-groups : (v : ℕ) → v < 2 ^ 32 → varint_bytes v ≡ groups 4 v
unfolding varint_bytes groups
varint_bytes-groups v h =
    ground (
      arith,
      bit_or_top v,
      bit_or_top (v / 2 ^ 7),
      bit_or_top (v / 2 ^ 14),
      bit_or_top (v / 2 ^ 21),
    )

length_loop-groups :
    (k v n : ℕ) (w : Acc ◌<◌ v) → v < 128 ^ suc k → length_loop v n w + 1 ≡ n + length (groups k v)
unfolding length_loop groups
length_loop-groups zero v n (Acc.intro _ smaller) h = ground arith
length_loop-groups (suc k) v n (Acc.intro _ smaller) h =
    grind
      (arith, λ (w : Acc ◌<◌ (v / 2 ^ 7)). length_loop-groups k (v / 2 ^ 7) (n + 1) w (omega arith))

pub varint_length-groups : (v : ℕ) → v < 2 ^ 32 → varint_length v ≡ length (groups 4 v)
unfolding varint_length
varint_length-groups v h = omega (arith, length_loop-groups 4 v 1 (lt_wf.apply v))

pub length-groups : (k v : ℕ) → (1 ≤ length (groups k v)) × (length (groups k v) ≤ k + 1)
unfolding groups
length-groups zero v = omega arith
length-groups (suc k) v = ground (arith, length-groups k (v / 128))

-- The bytes stand in `m` from `p` on.
abbrev pub Holds : Bytes → ℕ → List ℕ → Type 0
Holds m p [] = Unit
Holds m p (b ∷ bs) = (m p ≡ b) × Holds m (p + 1) bs

pub emit_before : (bs : List ℕ) (m : Bytes) (p j : ℕ) → j < p → (emit m p bs).0 j ≡ m j
unfolding emit
emit_before [] m p j h = refl
emit_before (b ∷ bs) m p j h =
    emit_before bs (write m p b) (p + 1) j (omega arith) ∙ write_ne m p b j (omega arith)

pub emit_end : (bs : List ℕ) (m : Bytes) (p : ℕ) → (emit m p bs).1 ≡ p + length bs
unfolding emit
emit_end [] m p = omega arith
emit_end (b ∷ bs) m p = omega (arith, emit_end bs (write m p b) (p + 1))

pub emit-Holds : (bs : List ℕ) (m : Bytes) (p : ℕ) → Holds (emit m p bs).0 p bs
unfolding emit
emit-Holds [] m p = tt
emit-Holds (b ∷ bs) m p = (
  emit_before bs (write m p b) (p + 1) p (omega arith) ∙ write_self m p b,
  emit-Holds bs (write m p b) (p + 1),
)

pub emit_after : (bs : List ℕ) (m : Bytes) (p j : ℕ) → p + length bs ≤ j → (emit m p bs).0 j ≡ m j
unfolding emit
emit_after [] m p j h = refl
emit_after (b ∷ bs) m p j h =
    emit_after bs (write m p b) (p + 1) j (omega arith) ∙ write_ne m p b j (omega arith)
