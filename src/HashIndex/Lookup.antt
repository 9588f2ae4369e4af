-- ===== src/HashIndex/Lookup.antt =====
-- What `lookup` finds: the last frame with a page, over all groups.
use native.Mathlib.Decide.{ℕ_discrete, dec_le}
use cub_db.Common.{
  ℕ, zero, suc, ◌+◌, ◌-◌, ◌*◌, ◌/◌, ◌%◌, ◌^◌, ◌≤◌, ◌<◌, ◌≡◌, ◌⊎◌, inl, inr, refl, sym, ap, ◌∙◌,
  arith,
}
use cub_db.Common.{
  Bool, true, false, leb, ◌||◌, ◌==◌, if◌then◌else◌, Bool-cases, eq→beq, ne→beq_false, le→leb,
  lt→leb_false,
}
use cub_db.Pager.{Status}
use cub_db.Node.{sub32}
use cub_db.HashIndex.{
  HashIndex, Group, index_group_number, group_base, key_capacity, map_group, lookup_group,
}
use cub_db.HashIndex.{lookup_groups, lookup, fetch}
use cub_db.HashIndex.Groups.{index_group_number_lem}
use cub_db.HashIndex.Build.{Filled}
use cub_db.HashIndex.Search.{Fits, Latest, search_group-Latest}

-- The groups that frames below the bound of `index_group_number_lem` fall into.
abbrev pub max_group : ℕ
max_group = 2 ^ 20

pub group_number_eq : (v : ℕ) → 0 < v → v + 34 < 2 ^ 32 → index_group_number v ≡ (v + 33) / 4096
unfolding index_group_number
group_number_eq v pos small = omega arith

pub base_eq : (n : ℕ) → n < max_group → group_base n ≡ (if n == 0 then 0 else n * 4096 - 34)
unfolding group_base
base_eq n h = ground arith

pub capacity_eq : (n : ℕ) → key_capacity n ≡ (if n == 0 then 4062 else 4096)
unfolding key_capacity
capacity_eq n = refl

pub groups_apart : (k n : ℕ) → k < n → n < max_group → group_base k + key_capacity k ≤ group_base n
groups_apart k n h low = ground (arith, base_eq k (omega arith), base_eq n low, capacity_eq k)

-- The frame of an entry falls into the group of the entry.
pub group_number-frame :
    (n e : ℕ)
    → n < max_group
    → e < key_capacity n
    → suc e + group_base n + 34 < 2 ^ 32
    → index_group_number (suc e + group_base n) ≡ n
group_number-frame n e h low small =
    group_number_eq (suc e + group_base n) (omega arith) small ∙ elim (ℕ_discrete n 0) [
      | yes z ↦ ground (arith, base_eq n h, capacity_eq n)
      | no s ↦ ground (arith, base_eq n h, capacity_eq n)
    ]

pub first_group : index_group_number 0 ≡ 0
unfolding index_group_number
first_group = refl

-- The page that a frame holds.
abbrev pub page_of : HashIndex → ℕ → ℕ
page_of ix v = (ix.groups (index_group_number v)).keys (v - group_base (index_group_number v) - 1)

-- All groups up to that of the last frame hold their frames, and the last may hold more.
pub record IsValid (ix : HashIndex) : Type 0 where
  pub counts : ℕ → ℕ
  pub filled : (n : ℕ) → n ≤ index_group_number ix.max_frame → Filled (ix.groups n) (counts n)
  pub within : (n : ℕ) → n ≤ index_group_number ix.max_frame → counts n ≤ key_capacity n
  pub full : (n : ℕ) → n < index_group_number ix.max_frame → counts n ≡ key_capacity n
  pub reaches :
      ix.max_frame
      ≤ group_base (index_group_number ix.max_frame) + counts (index_group_number ix.max_frame)

-- Mapping a group changes no group and not the last frame.
pub map_group_kept :
    (region : ℕ → Bool → Status × Bool) (ix : HashIndex) (n : ℕ) (extend : Bool)
    → region n extend ≡ (Status.ok, true)
    → ((map_group region ix n extend).0 ≡ Status.ok)
      × ((map_group region ix n extend).1.groups ≡ ix.groups)
      × ((map_group region ix n extend).1.max_frame ≡ ix.max_frame)
unfolding map_group
map_group_kept region ix n extend mappable = elim (Bool-cases (ix.mapped n)) [
  | inl m ↦ rw (map_group, m) (refl, refl, refl)
  | inr m ↦ rw (map_group, m, mappable) (refl, refl, refl)
]

module _ (region : ℕ → Bool → Status × Bool)
    (mappable : (n : ℕ) → region n false ≡ (Status.ok, true)) where
  -- The frame is in the range, and holds the page.
  abbrev Holds : HashIndex → ℕ → ℕ → ℕ → Type 0
  Holds ix key lower v = (0 < v) × (lower ≤ v) × (v ≤ ix.max_frame) × (page_of ix v ≡ key)

  -- The last such frame of the groups up to `n`, or 0 when there is none.
  abbrev LastUpTo : ℕ → HashIndex → ℕ → ℕ → ℕ → Type 0
  LastUpTo n ix key lower out =
      ((out ≡ 0) × ((v : ℕ) → Holds ix key lower v → index_group_number v ≤ n → ⊥))
      ⊎ (Holds ix key lower out
          × ((v : ℕ) → Holds ix key lower v → index_group_number v ≤ n → v ≤ out))

  -- The state that a round of the loop leaves.
  record Same (ix ix' : HashIndex) : Type 0 where
    groups : ix'.groups ≡ ix.groups
    max_frame : ix'.max_frame ≡ ix.max_frame

  module _ (ix : HashIndex) (valid : IsValid ix) (small : ix.max_frame + 34 < 2 ^ 32)
      (key lower : ℕ) where
    -- Frames and entries of one group.
    frame_entry :
        (n v : ℕ)
        → n ≤ index_group_number ix.max_frame
        → Holds ix key lower v
        → index_group_number v ≡ n
        → (e : ℕ) × (v ≡ suc e + group_base n) × (e < valid.counts n) × ((ix.groups n).keys e ≡ key)
    frame_entry n v h (pos, low, high, page) same =
        let (above, below) = index_group_number_lem v pos (omega arith) in
        let e = v - group_base n - 1 in
        let eq : v ≡ suc e + group_base n = rw (sym same) (omega arith) in
        let room : e < valid.counts n = elim (ℕ_discrete n (index_group_number ix.max_frame)) [
          | yes last ↦ omega (arith, valid.reaches, ap group_base last, ap valid.counts last)
          | no inner ↦
              omega (arith, valid.full n (omega arith), ap group_base same, ap key_capacity same)
        ] in
        (e, eq, room, rw (sym same) page)

    top_lt : index_group_number ix.max_frame < max_group
    top_lt = elim (ℕ_discrete ix.max_frame 0) [
      | yes z ↦ rw (z, first_group) (omega arith)
      | no s ↦ omega (arith, group_number_eq ix.max_frame (omega arith) small)
    ]

    entry_frame :
        (n e : ℕ)
        → n ≤ index_group_number ix.max_frame
        → Fits (ix.groups n).keys (valid.counts n) (group_base n) key lower ix.max_frame e
        → Holds ix key lower (suc e + group_base n)
          × (index_group_number (suc e + group_base n) ≡ n)
    entry_frame n e h (room, page, low, high) =
        let same =
          group_number-frame n e (omega (arith, top_lt)) (omega (arith, valid.within n h))
            (omega arith) in
        let back : suc e + group_base n - group_base n - 1 ≡ e = omega arith in
        ((omega arith, low, high, rw (page_of, same, back) page), same)

    -- The round for group `n`.
    lookup_group-Latest :
        (ix0 : HashIndex) (n : ℕ)
        → Same ix ix0
        → n ≤ index_group_number ix.max_frame
        → (out : ℕ) × (ix1 : HashIndex) × (lookup_group region ix0 n key lower
            ≡ (Status.ok, out, ix1))
          × Same ix ix1
          × Latest (ix.groups n).keys (valid.counts n) (group_base n) key lower ix.max_frame out
    unfolding lookup_group
    lookup_group-Latest ix0 n same h =
        let (ok', groups', frame') = map_group_kept region ix0 n false (mappable n) in
        let ix1 = (map_group region ix0 n false).1 in
        let few : valid.counts n < 8192 = ground (arith, valid.within n h, capacity_eq n) in
        let (out, run, latest) =
          search_group-Latest (ix.groups n) (valid.counts n) (group_base n) key lower ix.max_frame
            ((valid.filled n h).placed) few in
        let group' : ix1.groups n ≡ ix.groups n =
          ap (λ (t : ℕ → Group). t n) (groups' ∙ same.groups) in
        (
          out,
          ix1,
          rw (lookup_group, ok', group', same.max_frame, run) refl,
          record { groups = groups' ∙ same.groups; max_frame = frame' ∙ same.max_frame },
          latest,
        )

    in_group :
        (n v : ℕ)
        → n ≤ index_group_number ix.max_frame
        → Holds ix key lower v
        → index_group_number v < n
        → v ≤ group_base n
    in_group n v h (pos, low, high, page) below = omega (
      arith,
      index_group_number_lem v pos (omega arith),
      groups_apart (index_group_number v) n below (omega (arith, top_lt)),
    )

    -- An entry of group `n` comes after all frames of the groups below.
    found-LastUpTo :
        (n e : ℕ)
        → n ≤ index_group_number ix.max_frame
        → Fits (ix.groups n).keys (valid.counts n) (group_base n) key lower ix.max_frame e
        → ((e' : ℕ)
            → Fits (ix.groups n).keys (valid.counts n) (group_base n) key lower ix.max_frame e'
            → e' ≤ e)
        → LastUpTo n ix key lower (suc e + group_base n)
    found-LastUpTo n e h fits last = inr (
      (entry_frame n e h fits).0,
      λ v holds up. elim (ℕ_discrete (index_group_number v) n) [
        | yes same ↦
            let (e', eq, room, page) = frame_entry n v h holds same in
            let (pos, low, high, page') = holds in
            omega (arith, last e' (room, page, omega arith, omega arith))
        | no other ↦ omega (arith, in_group n v h holds (omega arith))
      ],
    )

    none-in_group :
        (n : ℕ)
        → n ≤ index_group_number ix.max_frame
        → ((e : ℕ)
            → Fits (ix.groups n).keys (valid.counts n) (group_base n) key lower ix.max_frame e
            → ⊥)
        → (v : ℕ) → Holds ix key lower v
        → index_group_number v ≡ n
        → ⊥
    none-in_group n h none' v holds same =
        let (e, eq, room, page) = frame_entry n v h holds same in
        let (pos, low, high, page') = holds in none' e (room, page, omega arith, omega arith)

    -- No frame in the range is in a group below that of the lower end.
    group_number-lower :
        (v : ℕ) → 0 < lower → Holds ix key lower v → index_group_number lower ≤ index_group_number v
    group_number-lower v positive (pos, low, high, page) =
        omega
          (arith, group_number_eq v pos (omega arith), group_number_eq lower positive (omega arith))

    abbrev Answers : ℕ → Status × ℕ × HashIndex → Type 0
    Answers n r =
        (out : ℕ) × (ix1 : HashIndex) × (r ≡ (Status.ok, out, ix1)) × LastUpTo n ix key lower out

    lookup_groups_step :
        (n : ℕ) (ix0 ix1 : HashIndex) (minimum out : ℕ)
        → lookup_group region ix0 (suc n) key lower ≡ (Status.ok, out, ix1)
        → lookup_groups region (suc n) ix0 minimum key lower ≡ (
            if (if out == 0 then false else true) || leb (suc n) minimum
            then (Status.ok, out, ix1)
            else lookup_groups region n ix1 minimum key lower)
    unfolding lookup_groups
    lookup_groups_step n ix0 ix1 minimum out run = rw (lookup_groups, run) (rw run refl)

    lookup_groups-Answers :
        (n : ℕ) (ix0 : HashIndex)
        → 0 < lower
        → Same ix ix0
        → n ≤ index_group_number ix.max_frame
        → Answers n (lookup_groups region n ix0 (index_group_number lower) key lower)
    unfolding lookup_groups
    lookup_groups-Answers zero ix0 positive same h =
        let (out, ix1, run, same', latest) = lookup_group-Latest ix0 0 same h in
        (
          out,
          ix1,
          run,
          elim latest [
            | inl (z, none') ↦ inl (z, λ v holds up. none-in_group 0 h none' v holds (omega arith))
            | inr (e, fits, eq, last) ↦ rw eq (found-LastUpTo 0 e h fits last)
          ],
        )
    lookup_groups-Answers (suc n) ix0 positive same h =
        let (out, ix1, run, same', latest) = lookup_group-Latest ix0 (suc n) same h in
        elim latest [
          | inr (e, fits, eq, last) ↦ (
            out,
            ix1,
            lookup_groups_step n ix0 ix1 _ out run ∙ rw (ne→beq_false out 0 (omega arith)) refl,
            rw eq (found-LastUpTo (suc n) e h fits last),
          )
          | inl (z, none') ↦ elim (dec_le (suc n) (index_group_number lower)) [
            | yes stop ↦ (
              out,
              ix1,
              lookup_groups_step n ix0 ix1 _ out run
                  ∙ rw (eq→beq out 0 z, le→leb (suc n) (index_group_number lower) stop) refl,
              inl (
                z,
                λ v holds up.
                    none-in_group (suc n) h none' v holds
                      (omega (arith, group_number-lower v positive holds)),
              ),
            )
            | no on ↦
                let (out', ix2, run', answer) =
                  lookup_groups-Answers n ix1 positive same' (omega arith) in
                (
                  out',
                  ix2,
                  lookup_groups_step n ix0 ix1 _ out run
                      ∙ rw
                          (
                            eq→beq out 0 z,
                            lt→leb_false (suc n) (index_group_number lower) (omega arith),
                          )
                          run',
                  elim answer [
                    | inl (z', none'') ↦ inl (
                      z',
                      λ v holds up. elim (ℕ_discrete (index_group_number v) (suc n)) [
                        | yes here ↦ none-in_group (suc n) h none' v holds here
                        | no below ↦ none'' v holds (omega arith)
                      ],
                    )
                    | inr (found, last) ↦ inr (
                      found,
                      λ v holds up. elim (ℕ_discrete (index_group_number v) (suc n)) [
                        | yes here ↦ absurd (none-in_group (suc n) h none' v holds here)
                        | no below ↦ last v holds (omega arith)
                      ],
                    )
                  ],
                )
          ]
        ]

  -- The last frame from `lower` on, up to the last frame of the index, that holds the page; or 0 when there is none.
  abbrev pub Last : HashIndex → ℕ → ℕ → ℕ → Type 0
  Last ix key lower out =
      ((out ≡ 0) × ((v : ℕ) → Holds ix key lower v → ⊥))
      ⊎ (Holds ix key lower out × ((v : ℕ) → Holds ix key lower v → v ≤ out))

  -- On a valid index whose groups can be mapped, `lookup` succeeds with the last frame from `lower` on that holds the page,
  -- or 0 when no frame does.
  pub lookup-Last :
      (ix : HashIndex) (key lower : ℕ)
      → IsValid ix
      → ix.max_frame + 34 < 2 ^ 32
      → (out : ℕ) × (ix1 : HashIndex) × (lookup region ix key lower ≡ (Status.ok, out, ix1))
        × Last ix key lower out
  unfolding lookup
  lookup-Last ix key lower valid small = elim (ℕ_discrete ix.max_frame 0) [
    | yes z ↦ (0, ix, rw (eq→beq ix.max_frame 0 z) refl, inl (refl, λ v h. omega arith))
    | no some' ↦
        let lower' = if lower == 0 then 1 else lower in
        let from : (v : ℕ) → Holds ix key lower v → Holds ix key lower' v = λ v h. ground arith in
        let back : (v : ℕ) → Holds ix key lower' v → Holds ix key lower v = λ v h. ground arith in
        let (out, ix1, run, answer) =
          lookup_groups-Answers ix valid small key lower' (index_group_number ix.max_frame) ix
            (ground arith) (record { groups = refl; max_frame = refl }) (omega arith) in
        let up : (v : ℕ)
            → Holds ix key lower v
            → index_group_number v ≤ index_group_number ix.max_frame =
          λ v h. omega (
            arith,
            group_number_eq v h.0 (omega arith),
            group_number_eq ix.max_frame (omega arith) small,
          ) in
        (
          out,
          ix1,
          rw (ne→beq_false ix.max_frame 0 some') run,
          elim answer [
            | inl (z, none') ↦ inl (z, λ v h. none' v (from v h) (up v h))
            | inr (found, last) ↦ inr (back out found, λ v h. last v (from v h) (up v h))
          ],
        )
  ]

-- For a frame of a group that is mapped, `fetch` gives the page that the frame holds.
pub fetch-page_of :
    (ix : HashIndex) (v : ℕ)
    → 0 < v
    → v + 34 < 2 ^ 32
    → index_group_number v < ix.num_groups
    → fetch ix v ≡ page_of ix v
unfolding fetch
fetch-page_of ix v pos small mapped =
    let n = index_group_number v in
    let low : n < max_group = omega (arith, group_number_eq v pos small) in
    let (above, below) = index_group_number_lem v pos small in
    elim (ℕ_discrete n 0) [
      | yes z ↦
          let base : group_base n ≡ 0 = ground (arith, base_eq n low) in
          let flat : v - 1 ≡ v - group_base n - 1 = omega arith in
          rw (fetch, lt→leb_false ix.num_groups n mapped, base) (ap (ix.groups n).keys flat)
      | no s ↦
          let base : group_base n ≡ n * 4096 - 34 = ground (arith, base_eq n low) in
          let size : key_capacity n ≡ 4096 = ground (arith, capacity_eq n) in
          let place : sub32 (sub32 v 4062) 1 % 4096 ≡ v - group_base n - 1 = omega arith in
          rw
            (
              fetch,
              lt→leb_false ix.num_groups n mapped,
              ne→beq_false (group_base n) 0 (omega arith),
            )
            (ap (ix.groups n).keys place)
    ]
