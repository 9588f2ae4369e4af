-- ===== src/Bufmgr/Lookups.antt =====
-- The table of the cached pages is a finite map from page IDs to references.
use cub_db.Common.{
  ℕ, ◌-◌, ◌≡◌, refl, sym, ap, ◌∙◌, ◌==◌, arith, if◌then◌else◌, true, false, List, [], ◌∷◌, ◌++◌,
  Option, none, some, Bool-cases, inl, inr, if_lem, beq→eq, eq→beq, subst, bit_and, append-nil,
}
use cub_db.Bufmgr.PageTable.{
  PageTable, clear, find_pointer, first, bucket, lookup, set_bucket, insert, unlink_first, remove,
}

module _ (key : ℕ → ℕ) where
  abbrev find : ℕ → List ℕ → Option ℕ
  find k chain = first (find_pointer key chain k).1

  find_pointer-hit :
      (k x : ℕ) (l : List ℕ) → (key x == k) ≡ true → find_pointer key (x ∷ l) k ≡ ([], x ∷ l)
  unfolding find_pointer
  find_pointer-hit k x l e = rw e refl

  find_pointer-miss :
      (k x : ℕ) (l : List ℕ)
      → (key x == k) ≡ false
      → find_pointer key (x ∷ l) k ≡ (x ∷ (find_pointer key l k).0, (find_pointer key l k).1)
  unfolding find_pointer
  find_pointer-miss k x l e = rw e refl

  find-hit : (k x : ℕ) (l : List ℕ) → (key x == k) ≡ true → find k (x ∷ l) ≡ some x
  unfolding first
  find-hit k x l e = ap (λ r. first r.1) (find_pointer-hit k x l e)

  find-miss : (k x : ℕ) (l : List ℕ) → (key x == k) ≡ false → find k (x ∷ l) ≡ find k l
  find-miss k x l e = ap (λ r. first r.1) (find_pointer-miss k x l e)

  -- No two entries have one key.
  abbrev Distinct : List ℕ → Type 0
  Distinct [] = Unit {0}
  Distinct (x ∷ l) = (find (key x) l ≡ none) × Distinct l

  -- An entry that is not at the head, since its key is missing.
  miss : (k x : ℕ) (l : List ℕ) → find k (x ∷ l) ≡ none → (key x == k) ≡ false
  miss k x l h = elim (Bool-cases (key x == k)) [
    | inl e ↦ absurd (cc (h, find-hit k x l e))
    | inr e ↦ e
  ]

  find-append :
      (j a : ℕ) (l : List ℕ)
      → find (key a) l ≡ none
      → find j (l ++ a ∷ []) ≡ (if key a == j then some a else find j l)
  unfolding find_pointer first
  find-append j a [] h = ground arith
  find-append j a (x ∷ l) h =
      let e = miss (key a) x l h in
      let ih = find-append j a l (sym (find-miss (key a) x l e) ∙ h) in
      elim (Bool-cases (key x == j)) [
        | inl f ↦
            let g : (key a == j) ≡ false = ground arith in
            rw (find-hit j x _ f, find-hit j x l f, g) refl
        | inr f ↦ rw (find-miss j x _ f, find-miss j x l f) ih
      ]

  find_pointer-none : (k : ℕ) (l : List ℕ) → find k l ≡ none → find_pointer key l k ≡ (l, [])
  unfolding find_pointer first
  find_pointer-none k [] h = refl
  find_pointer-none k (x ∷ l) h =
      let e = miss k x l h in
      let ih = find_pointer-none k l (sym (find-miss k x l e) ∙ h) in
      find_pointer-miss k x l e ∙ ap (λ r. (x ∷ r.0, r.1)) ih

  append-Distinct :
      (a : ℕ) (l : List ℕ) → find (key a) l ≡ none → Distinct l → Distinct (l ++ a ∷ [])
  unfolding find_pointer first
  append-Distinct a [] h d = (refl, tt)
  append-Distinct a (x ∷ l) h (n, d) =
      let e = miss (key a) x l h in
      let h' = sym (find-miss (key a) x l e) ∙ h in
      let g : (key a == key x) ≡ false = ground arith in
      (find-append (key x) a l h' ∙ (rw g n), append-Distinct a l h' d)

  -- The chain that a removal leaves.
  abbrev left : List ℕ × List ℕ → List ℕ
  left (passed, []) = passed
  left (passed, a ∷ rest) = passed ++ rest

  left-cons : (x : ℕ) (p : List ℕ × List ℕ) → left (x ∷ p.0, p.1) ≡ x ∷ left p
  left-cons x (passed, []) = refl
  left-cons x (passed, a ∷ rest) = refl

  left-hit : (k x : ℕ) (l : List ℕ) → (key x == k) ≡ true → left (find_pointer key (x ∷ l) k) ≡ l
  left-hit k x l e = ap left (find_pointer-hit k x l e)

  left-miss :
      (k x : ℕ) (l : List ℕ)
      → (key x == k) ≡ false
      → left (find_pointer key (x ∷ l) k) ≡ x ∷ left (find_pointer key l k)
  left-miss k x l e = ap left (find_pointer-miss k x l e) ∙ left-cons x (find_pointer key l k)

  find-hit_left :
      (j k x : ℕ) (l : List ℕ)
      → find (key x) l ≡ none
      → (key x == k) ≡ true
      → find j l ≡ (if k == j then none else find j (x ∷ l))
  find-hit_left j k x l n e = elim (Bool-cases (k == j)) [
    | inl g ↦ rw g (subst (λ y. find y l ≡ none) (beq→eq (key x) k e ∙ beq→eq k j g) n)
    | inr g ↦ let f : (key x == j) ≡ false = ground arith in rw g (sym (find-miss j x l f))
  ]

  find-left :
      (j k : ℕ) (l : List ℕ)
      → Distinct l
      → find j (left (find_pointer key l k)) ≡ (if k == j then none else find j l)
  unfolding find_pointer first
  find-left j k [] d =
      if_lem (λ (r : Option ℕ). none ≡ r) (k == j) none none (λ _. refl) (λ _. refl)
  find-left j k (x ∷ l) (n, d) =
      elim (Bool-cases (key x == k))
        as (λ _.
          find j (left (find_pointer key (x ∷ l) k)) ≡ (if k == j then none else find j (x ∷ l))) [
            | inl e ↦ ap (find j) (left-hit k x l e) ∙ find-hit_left j k x l n e
            | inr e ↦
                ap (find j) (left-miss k x l e)
                ∙ elim (Bool-cases (key x == j))
                    as (λ _.
                      find j (x ∷ left (find_pointer key l k))
                      ≡ (if k == j then none else find j (x ∷ l))) [
                        | inl f ↦
                            let g : (k == j) ≡ false = ground arith in
                            find-hit j x _ f ∙ rw g (sym (find-hit j x l f))
                        | inr f ↦
                            find-miss j x _ f
                            ∙ find-left j k l d
                            ∙ ap (λ (r : Option ℕ). if k == j then none else r)
                                (sym (find-miss j x l f))
                      ]
          ]

  left-Distinct : (k : ℕ) (l : List ℕ) → Distinct l → Distinct (left (find_pointer key l k))
  unfolding find_pointer first
  left-Distinct k [] d = tt
  left-Distinct k (x ∷ l) (n, d) = elim (Bool-cases (key x == k)) [
    | inl e ↦ subst Distinct (sym (left-hit k x l e)) d
    | inr e ↦ subst Distinct (sym (left-miss k x l e)) (
      find-left (key x) k l d
          ∙ if_lem (λ (r : Option ℕ). r ≡ none) (k == key x) none _ (λ _. refl) (λ _. n),
      left-Distinct k l d,
    )
  ]

  -- No bucket has two entries with one key.
  abbrev pub AllDistinct : PageTable → Type 0
  AllDistinct t = (i : ℕ) → Distinct (t.table i)

  other : (j k n : ℕ) → (bit_and j n == bit_and k n) ≡ false → (k == j) ≡ false
  other j k n e = elim (Bool-cases (k == j)) [
    | inl g ↦
        absurd
          (cc (e, eq→beq (bit_and j n) (bit_and k n) (ap (λ i. bit_and i n) (sym (beq→eq k j g)))))
    | inr g ↦ g
  ]

  -- The bucket of `i`, once that of `k` has become `chain`.
  find-set_bucket :
      (t u : PageTable) (k j : ℕ) (chain : List ℕ) (r : Option ℕ)
      → u.capacity ≡ t.capacity
      → ((i : ℕ) → u.table i ≡ (if i == bucket t k then chain else t.table i))
      → find j chain ≡ (if k == j then r else find j (t.table (bucket t k)))
      → lookup key u j ≡ (if k == j then r else lookup key t j)
  unfolding lookup bucket
  find-set_bucket t u k j chain r c f h =
      let same : u.table (bit_and j (u.capacity - 1))
          ≡ (if bucket t j == bucket t k then chain else t.table (bucket t j)) =
        ap (λ n. u.table (bit_and j (n - 1))) c ∙ f (bucket t j) in
      ap (find j) same
      ∙ elim (Bool-cases (bucket t j == bucket t k))
          as (λ _.
            find j (if bucket t j == bucket t k then chain else t.table (bucket t j))
            ≡ (if k == j then r else find j (t.table (bucket t j)))) [
              | inl e ↦
                  rw e (h ∙ ap (λ i. if k == j then r else find j (t.table i)) (sym (beq→eq _ _ e)))
              | inr e ↦ let g : (k == j) ≡ false = other j k (t.capacity - 1) e in rw (e, g) refl
            ]

  find_pointer-parts :
      (k : ℕ) (l : List ℕ) → (find_pointer key l k).0 ++ (find_pointer key l k).1 ≡ l
  unfolding find_pointer
  find_pointer-parts k [] = refl
  find_pointer-parts k (x ∷ l) =
      if_lem (λ (p : List ℕ × List ℕ). p.0 ++ p.1 ≡ x ∷ l) (key x == k) ([], x ∷ l) _ (λ _. refl)
        (λ _. ap (λ r. x ∷ r) (find_pointer-parts k l))

  unlink_first-table :
      (t : PageTable) (i j : ℕ) (p : List ℕ × List ℕ)
      → p.0 ++ p.1 ≡ t.table i
      → (unlink_first t i p).table j ≡ (if j == i then left p else t.table j)
  unfolding unlink_first set_bucket
  unlink_first-table t i j (passed, []) h = elim (Bool-cases (j == i)) [
    | inl e ↦ rw e (ap t.table (beq→eq j i e) ∙ sym h ∙ append-nil passed)
    | inr e ↦ rw e refl
  ]
  unlink_first-table t i j (passed, a ∷ rest) h = refl

  unlink_first-capacity :
      (t : PageTable) (i : ℕ) (p : List ℕ × List ℕ) → (unlink_first t i p).capacity ≡ t.capacity
  unfolding unlink_first set_bucket
  unlink_first-capacity t i (passed, []) = refl
  unlink_first-capacity t i (passed, a ∷ rest) = refl

  insert-lookup :
      (t : PageTable) (a : ℕ)
      → AllDistinct t
      → lookup key t (key a) ≡ none
      → AllDistinct (insert key t a)
        × ((j : ℕ)
            → lookup key (insert key t a) j ≡ (if key a == j then some a else lookup key t j))
  unfolding insert set_bucket lookup bucket
  insert-lookup t a d h =
      let l = t.table (bit_and (key a) (t.capacity - 1)) in
      let e = ap (λ (p : List ℕ × List ℕ). p.0 ++ a ∷ []) (find_pointer-none (key a) l h) in
      let chain = (find_pointer key l (key a)).0 ++ a ∷ [] in
      (
        λ i.
            if_lem Distinct (i == bucket t (key a)) chain _
              (λ _. subst Distinct (sym e) (append-Distinct a l h (d (bucket t (key a)))))
              (λ _. d i),
        λ j.
            find-set_bucket t (insert key t a) (key a) j chain (some a) refl (λ i. refl)
              (ap (find j) e ∙ find-append j a l h),
      )

  remove-lookup :
      (t : PageTable) (k : ℕ)
      → AllDistinct t
      → AllDistinct (remove key t k)
        × ((j : ℕ) → lookup key (remove key t k) j ≡ (if k == j then none else lookup key t j))
  unfolding remove
  remove-lookup t k d =
      let l = t.table (bucket t k) in
      let p = find_pointer key l k in
      let f = λ (i : ℕ). unlink_first-table t (bucket t k) i p (find_pointer-parts k l) in
      (
        λ i.
            subst Distinct (sym (f i))
              (if_lem Distinct (i == bucket t k) _ _ (λ _. left-Distinct k l (d _)) (λ _. d i)),
        λ j.
            find-set_bucket t _ k j (left p) none (unlink_first-capacity t (bucket t k) p) f
              (find-left j k l (d _)),
      )

  -- The table is a finite map, where no bucket has a key twice. Inserting a reference whose key is missing adds it and keeps
  -- what is found for the other keys, removing a key takes it away and keeps the others, both keep the keys of a bucket
  -- distinct, and nothing is found in a table that has been cleared.
  pub table-lookup :
      (t : PageTable)
      → AllDistinct t
      → ((a : ℕ)
          → lookup key t (key a) ≡ none
          → AllDistinct (insert key t a)
            × ((j : ℕ)
                → lookup key (insert key t a) j ≡ (if key a == j then some a else lookup key t j)))
        × ((k : ℕ)
            → AllDistinct (remove key t k)
              × ((j : ℕ)
                  → lookup key (remove key t k) j ≡ (if k == j then none else lookup key t j)))
        × ((j : ℕ) → lookup key (clear t) j ≡ none)
  unfolding lookup clear find_pointer first
  table-lookup t d = (λ a h. insert-lookup t a d h, λ k. remove-lookup t k d, λ j. refl)
