-- ===== src/HashIndex/Cleanup.antt =====
-- A table stays well formed when its last entries are cleared.
use native.Mathlib.Decide.{ℕ_discrete, dec_lt}
use cub_db.Common.{ℕ, zero, suc, ◌+◌, ◌-◌, ◌≤◌, ◌<◌, ◌≡◌, ◌≢◌, refl, sym, ◌∙◌, arith}
use cub_db.Common.{ltb, lt→ltb, le→ltb_false, if◌then◌else◌}
use cub_db.HashIndex.{index_hash, store}
use cub_db.HashIndex.Build.{Placed, used, ahead, used-store, store_self, store_ne}

-- Entries past the first `m` are cleared.
abbrev pub keep : ℕ → (ℕ → ℕ) → ℕ → ℕ
keep m hash s = if ltb m (hash s) then 0 else hash s

keep_low : (m : ℕ) (hash : ℕ → ℕ) (s : ℕ) → hash s ≤ m → keep m hash s ≡ hash s
keep_low m hash s h = rw (le→ltb_false m (hash s) h) refl

keep_high : (m : ℕ) (hash : ℕ → ℕ) (s : ℕ) → m < hash s → keep m hash s ≡ 0
keep_high m hash s h = rw (lt→ltb m (hash s) h) refl

keep_twice : (m n : ℕ) (hash : ℕ → ℕ) (s : ℕ) → m ≤ n → keep m hash s ≡ keep m (keep n hash) s
keep_twice m n hash s h = ground arith

used_congr :
    (hash hash' : ℕ → ℕ) (slot k : ℕ)
    → ((s : ℕ) → s < 8192 → hash' s ≡ hash s)
    → used hash' slot k ≡ used hash slot k
unfolding used
used_congr hash hash' slot zero same = refl
used_congr hash hash' slot (suc k) same =
    rw (used_congr hash hash' slot k same, same (ahead slot k) (omega arith)) refl

pub Placed-hash :
    (keys : ℕ → ℕ) (n : ℕ) (hash hash' : ℕ → ℕ)
    → ((s : ℕ) → s < 8192 → hash' s ≡ hash s)
    → Placed keys n hash
    → Placed keys n hash'
Placed-hash keys n hash hash' same p =
    let at : (slot i : ℕ) → hash' (ahead slot i) ≡ hash (ahead slot i) =
      λ slot i. same _ (omega arith) in
    record {
      steps = p.steps;
      steps_lt = p.steps_lt;
      place = λ e q. at _ _ ∙ p.place e q;
      path = λ e i q r. rw (at (index_hash (keys e)) i) (p.path e i q r);
      home = λ s e q r. p.home s e q (sym (same s q) ∙ r);
      count = λ k q. used_congr hash hash' 0 k same ∙ p.count k q;
    }

pub Placed-bound :
    (keys : ℕ → ℕ) (n : ℕ) (hash : ℕ → ℕ) (s : ℕ) → Placed keys n hash → s < 8192 → hash s ≤ n
Placed-bound keys n hash s p q = elim (ℕ_discrete (hash s) 0) [
  | yes z ↦ omega arith
  | no z ↦ omega (arith, p.home s (hash s - 1) q (omega arith))
]

one_more : (a b m : ℕ) → a < b → m + (if ltb a b then 1 else 0) ≡ m + 1
one_more a b m h = ground arith

module _ (keys : ℕ → ℕ) (n : ℕ) (hash : ℕ → ℕ) (p : Placed keys (suc n) hash) where
  -- The slot of the last entry.
  abbrev last_slot : ℕ
  last_slot = ahead (index_hash (keys n)) (p.steps n)

  keep-store : (s : ℕ) → s < 8192 → hash s ≡ store (keep n hash) last_slot (suc n) s
  keep-store s q = elim (ℕ_discrete s last_slot) [
    | yes here ↦
        rw (here) (
          p.place n (omega arith) ∙ sym (store_self (keep n hash) last_slot (suc n) last_slot refl))
    | no away ↦
        let other : hash s ≢ suc n = λ e. away (sym (p.home s n q e).1) in
        sym (
          store_ne (keep n hash) last_slot (suc n) s away
          ∙ keep_low n hash s (omega (arith, Placed-bound keys (suc n) hash s p q)))
  ]

  drop_last : Placed keys n (keep n hash)
  drop_last = record {
    steps = p.steps;
    steps_lt = λ e q. p.steps_lt e (omega arith);
    place = λ e q.
        let old = p.place e (omega arith) in
        keep_low n hash (ahead (index_hash (keys e)) (p.steps e)) (omega arith) ∙ old;
    path = λ e i q r.
        let old = p.path e i (omega arith) r in
        rw (keep_low n hash (ahead (index_hash (keys e)) i) (omega arith)) old;
    home = λ s e q r. elim (dec_lt n (hash s)) [
      | yes high ↦ absurd (omega (arith, keep_high n hash s high))
      | no low ↦
          let same : hash s ≡ suc e = sym (keep_low n hash s (omega arith)) ∙ r in
          (omega arith, (p.home s e q same).1)
    ];
    count = λ k q.
        let there : keep n hash last_slot ≡ 0 =
          keep_high n hash last_slot (omega (arith, p.place n (omega arith))) in
        omega (
          arith,
          p.count k q,
          used_congr (store (keep n hash) last_slot (suc n)) hash 0 k keep-store,
          used-store (keep n hash) last_slot (suc n) k (omega arith) (omega arith) there,
          one_more last_slot k (used (keep n hash) 0 k) (omega arith),
        );
  }

-- The first `m` entries stay.
pub Placed-keep :
    (keys : ℕ → ℕ) (n m : ℕ) (hash : ℕ → ℕ)
    → m ≤ n
    → Placed keys n hash
    → Placed keys m (keep m hash)
Placed-keep keys zero m hash h p =
    let none' : m ≡ 0 = omega arith in
    rw none' (
      Placed-hash keys 0 hash (keep 0 hash)
        (λ s q. keep_low 0 hash s (omega (arith, Placed-bound keys 0 hash s p q))) p)
Placed-keep keys (suc n) m hash h p = elim (ℕ_discrete m (suc n)) [
  | yes same ↦ rw same (
      Placed-hash keys (suc n) hash (keep (suc n) hash)
        (λ s q. keep_low (suc n) hash s (Placed-bound keys (suc n) hash s p q)) p)
  | no fewer ↦
      let rest = Placed-keep keys n m (keep n hash) (omega arith) (drop_last keys n hash p) in
      Placed-hash keys m (keep m (keep n hash)) (keep m hash)
        (λ s q. keep_twice m n hash s (omega arith)) rest
]
