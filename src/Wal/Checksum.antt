-- ===== src/Wal/Checksum.antt =====
-- The checksum depends on the bytes alone, and tells its initial values apart.
use cub_db.Common.{ℕ, zero, suc, ◌+◌, ◌-◌, ◌*◌, ◌/◌, ◌%◌, ◌^◌, ◌<◌, ◌≡◌, refl, sym, ap, ◌∙◌, arith}
use cub_db.Bytes.{Bytes, get_u32}
use cub_db.Bytes.Laws.{get_u32_move}
use cub_db.Wal.{checksum_words, compute_checksum}

-- Two sums of 32 bits.
abbrev pub IsSum : ℕ × ℕ → Type 0
IsSum c = (c.0 < 2 ^ 32) × (c.1 < 2 ^ 32)

checksum_words_congr :
    (n : ℕ) (m m' : Bytes) (p p' : ℕ) (sums : ℕ × ℕ)
    → ((i : ℕ) → i < n * 8 → m (p + i) ≡ m' (p' + i))
    → checksum_words n m p sums ≡ checksum_words n m' p' sums
unfolding checksum_words
checksum_words_congr zero m m' p p' sums h = refl
checksum_words_congr (suc n) m m' p p' sums h =
    let at : (k : ℕ) → k < suc n * 8 → (x y : ℕ) → x ≡ p + k → y ≡ p' + k → m x ≡ m' y =
      λ k q x y e f. rw (e, f) (h k q) in
    let word : (x y k : ℕ)
        → k + 3 < suc n * 8
        → x ≡ p + k
        → y ≡ p' + k
        → get_u32 m x ≡ get_u32 m' y =
      λ x y k q e f.
        get_u32_move m m' x y (at k (omega arith) x y e f)
          (at (k + 1) (omega arith) (x + 1) (y + 1) (omega arith) (omega arith))
          (at (k + 2) (omega arith) (x + 2) (y + 2) (omega arith) (omega arith))
          (at (k + 3) q (x + 3) (y + 3) (omega arith) (omega arith)) in
    let low = word p p' 0 (omega arith) (omega arith) (omega arith) in
    let high = word (p + 4) (p' + 4) 4 (omega arith) refl refl in
    rw (checksum_words, low, high)
      (checksum_words_congr n m m' (p + 8) (p' + 8) _
        (λ i q. at (8 + i) (omega arith) (p + 8 + i) (p' + 8 + i) (omega arith) (omega arith)))

checksum_words-IsSum :
    (n : ℕ) (m : Bytes) (p : ℕ) (sums : ℕ × ℕ) → IsSum sums → IsSum (checksum_words n m p sums)
unfolding checksum_words
checksum_words-IsSum zero m p sums h = h
checksum_words-IsSum (suc n) m p sums h =
    checksum_words-IsSum n m (p + 8) _ (omega arith, omega arith)

cancel : (x y w : ℕ) → x < 2 ^ 32 → y < 2 ^ 32 → (x + w) % 2 ^ 32 ≡ (y + w) % 2 ^ 32 → x ≡ y
cancel x y w hx hy e = omega arith

checksum_words-injective :
    (n : ℕ) (m : Bytes) (p : ℕ) (a b : ℕ × ℕ)
    → IsSum a
    → IsSum b
    → checksum_words n m p a ≡ checksum_words n m p b
    → (a.0 ≡ b.0) × (a.1 ≡ b.1)
unfolding checksum_words
checksum_words-injective zero m p a b ha hb e =
    (ap (λ (t : ℕ × ℕ). t.0) e, ap (λ (t : ℕ × ℕ). t.1) e)
checksum_words-injective (suc n) m p a b ha hb e =
    let v = get_u32 m p in
    let w = get_u32 m (p + 4) in
    let (first, second) =
      checksum_words-injective n m (p + 8) _ _ (omega arith, omega arith) (omega arith, omega arith)
        e in
    let same : a.1 ≡ b.1 =
      cancel a.1 b.1 (w + (a.0 + (v + a.1)) % 2 ^ 32) ha.1 hb.1
        (second ∙ ap (λ (t : ℕ). (b.1 + (w + t)) % 2 ^ 32) (sym first)) in
    (
      cancel a.0 b.0 (v + a.1) ha.0 hb.0
          (first ∙ ap (λ (t : ℕ). (b.0 + (v + t)) % 2 ^ 32) (sym same)),
      same,
    )

pub compute_checksum_congr :
    (m m' : Bytes) (p p' words : ℕ) (sums : ℕ × ℕ)
    → ((i : ℕ) → i < suc words * 8 → m (p + i) ≡ m' (p' + i))
    → compute_checksum m p (suc words * 8) sums ≡ compute_checksum m' p' (suc words * 8) sums
unfolding compute_checksum
compute_checksum_congr m m' p p' words sums h =
    let rounds : suc ((suc words * 8 / 4 - 1) / 2) ≡ suc words = omega arith in
    rw rounds (checksum_words_congr (suc words) m m' p p' sums h)

pub compute_checksum-injective :
    (m : Bytes) (p size : ℕ) (a b : ℕ × ℕ)
    → IsSum a
    → IsSum b
    → compute_checksum m p size a ≡ compute_checksum m p size b
    → a ≡ b
unfolding compute_checksum
compute_checksum-injective m p size a b ha hb e =
    let (first, second) = checksum_words-injective (suc ((size / 4 - 1) / 2)) m p a b ha hb e in
    ap (λ (t : ℕ). let c : ℕ × ℕ = (t, a.1) in c) first
    ∙ ap (λ (t : ℕ). let c : ℕ × ℕ = (b.0, t) in c) second

pub compute_checksum-IsSum :
    (m : Bytes) (p size : ℕ) (c : ℕ × ℕ) → IsSum c → IsSum (compute_checksum m p size c)
unfolding compute_checksum
compute_checksum-IsSum m p size c h = checksum_words-IsSum (suc ((size / 4 - 1) / 2)) m p c h
