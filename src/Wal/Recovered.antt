-- ===== src/Wal/Recovered.antt =====
-- What recover_index makes of a log: the frames of the longest prefix that decodes, up to its last commit.
use native.Mathlib.Decide.{ℕ_discrete, dec_lt}
use cub_db.Common.{true}
use cub_db.Common.{
  ℕ, zero, suc, ◌+◌, ◌-◌, ◌^◌, ◌≤◌, ◌<◌, ◌≡◌, ◌⊎◌, inl, inr, refl, sym, ap, ◌∙◌, arith,
}
use cub_db.Common.{Bool}
use cub_db.Bytes.{Bytes}
use cub_db.Pager.{Status}
use cub_db.HashIndex.{index_group_number, group_base}
use cub_db.HashIndex.Lookup.{group_number_eq, first_group, base_eq, max_group}
use cub_db.Wal.{Wal, Disk, set_frame_cksum, frame_offset}
use cub_db.Wal.Frames.{IsFrame, IsFrame-same, decode_frame-none}
use cub_db.Wal.Recovery.{
  Outcome, running, stopped, recover_frame, recover_read, recover_decoded, go_on, recover_group,
  recover_groups, first_of_group, last_of_group,
}
use cub_db.Wal.Prefix.{
  chain_at, Recovers, Recovers-set_frame_cksum, recover_frame-Recovers, frames_of,
}

-- The bounds of the loops, in terms of the groups' bases.
first_of_group_eq : (g : ℕ) → g < max_group → first_of_group g ≡ suc (group_base g)
first_of_group_eq g low = ground (arith, base_eq g low)

base_le : (g : ℕ) → suc g < max_group → group_base g ≤ group_base (suc g)
base_le g low = ground (arith, base_eq g (omega arith), base_eq (suc g) low)

base_lt :
    (last g : ℕ)
    → last + 35 < 2 ^ 32
    → g < index_group_number last
    → (group_base (suc g) < last)
      × (last_of_group last g ≡ group_base (suc g))
      × (suc g < max_group)
base_lt last g small h = elim (ℕ_discrete last 0) [
  | yes z ↦ absurd (omega (arith, first_group, ap index_group_number z))
  | no s ↦
      let top = group_number_eq last (omega arith) (omega arith) in
      let low : suc g < max_group = omega arith in
      let base = base_eq (suc g) low in (ground arith, ground arith, low)
]

last_of_group_top :
    (last : ℕ)
    → last + 35 < 2 ^ 32
    → (last_of_group last (index_group_number last) ≡ last) × (index_group_number last < max_group)
last_of_group_top last small = elim (ℕ_discrete last 0) [
  | yes z ↦ rw (z, first_group) (refl, omega arith)
  | no s ↦ let top = group_number_eq last (omega arith) (omega arith) in (ground arith, omega arith)
]

module _ {F : Type 0} (disk : Disk F) (region : ℕ → Bool → Status × Bool)
    (mappable : (n : ℕ) (extend : Bool) → region n extend ≡ (Status.ok, true))
    (lock_exclusive : ℕ → ℕ → Status) (f : F) (start : Wal) where
  abbrev pub frames : ℕ → Bytes
  frames = frames_of disk region mappable lock_exclusive f start

  -- `count` frames of the log decode, and the next one does not.
  pub record Prefix (sums : ℕ × ℕ) (last count : ℕ) : Type 0 where
    pub within : count ≤ last
    pub good : (n : ℕ) → n < count → IsFrame start (chain_at start frames sums n) (frames (suc n))
    pub bad :
        count < last → IsFrame start (chain_at start frames sums count) (frames (suc count)) → ⊥

  module _ (sums : ℕ × ℕ) (last count : ℕ) (prefix : Prefix sums last count)
      (small : last + 35 < 2 ^ 32)
      (reads : (n : ℕ)
        → n < last
        → (disk.read_exact f (frame_offset (suc n) start.page_size) (24 + start.page_size)).0
          ≡ Status.ok) where
    -- The loops have read `n` frames and go on.
    pub record Runs (n : ℕ) (o : Outcome) : Type 0 where
      pub wal : Wal
      pub saved : ℕ × ℕ
      pub outcome : o ≡ running wal saved
      pub recovers : Recovers start frames n wal saved
      pub chain : wal.hdr.frame_cksum ≡ chain_at start frames sums n

    -- They have met a frame that does not decode.
    pub record Stops (o : Outcome) : Type 0 where
      pub wal : Wal
      pub saved : ℕ × ℕ
      pub outcome : o ≡ stopped Status.ok wal saved
      pub recovers : Recovers start frames count wal saved

    recover_frame-Runs :
        (n : ℕ) (w : Wal) (saved : ℕ × ℕ)
        → n < count
        → Recovers start frames n w saved
        → w.hdr.frame_cksum ≡ chain_at start frames sums n
        → Runs (suc n) (recover_frame disk region lock_exclusive f w saved (suc n))
    unfolding chain_at
    recover_frame-Runs n w saved h r chain =
        let (w', saved', run, r', next) =
          recover_frame-Recovers disk region mappable lock_exclusive f start n w saved
            (reads n (omega (arith, prefix.within))) (omega (arith, prefix.within))
            (IsFrame-same start start (chain_at start frames sums n) w.hdr.frame_cksum
              (frames (suc n)) refl refl (sym chain) (prefix.good n h))
            r in
        record {
          wal = w';
          saved = saved';
          outcome = run;
          recovers = r';
          chain = next ∙ rw chain refl;
        }

    recover_frame-Stops :
        (w : Wal) (saved : ℕ × ℕ)
        → count < last
        → Recovers start frames count w saved
        → w.hdr.frame_cksum ≡ chain_at start frames sums count
        → Stops (recover_frame disk region lock_exclusive f w saved (suc count))
    unfolding recover_frame recover_read recover_decoded
    recover_frame-Stops w saved h r chain =
        let frame = frames (suc count) in
        let bad' : IsFrame w w.hdr.frame_cksum frame → ⊥ = λ good. prefix.bad h (
          IsFrame-same w start w.hdr.frame_cksum (chain_at start frames sums count) frame r.salt
            r.page_size chain good) in
        let (c, run) = decode_frame-none w frame bad' in
        let answer =
          disk.read_exact f (frame_offset (suc count) start.page_size) (24 + start.page_size) in
        let got : disk.read_exact f (frame_offset (suc count) w.page_size) (24 + w.page_size)
            ≡ (Status.ok, frame) =
          ap (λ (t : ℕ). disk.read_exact f (frame_offset (suc count) t) (24 + t)) r.page_size
          ∙ ap (λ (t : Status). let a : Status × Bytes = (t, answer.1) in a) (reads count h) in
        record {
          wal = set_frame_cksum w c;
          saved = saved;
          outcome =
              ap (recover_read disk region lock_exclusive w saved (suc count)) got
              ∙ ap (recover_decoded disk region lock_exclusive saved (suc count)) run;
          recovers = Recovers-set_frame_cksum start frames count w saved c r;
        }

    -- What the loops come to by frame `m`.
    abbrev pub Reaches : ℕ → Outcome → Type 0
    Reaches m o = ((m ≤ count) × Runs m o) ⊎ Stops o

    go_on-Runs :
        (m : ℕ) (o : Outcome) (w : Wal) (saved : ℕ × ℕ) (rest : Wal → ℕ × ℕ → Outcome)
        → o ≡ running w saved
        → Reaches m (rest w saved)
        → Reaches m (go_on o rest)
    unfolding go_on
    go_on-Runs m o w saved rest e h = rw e h

    go_on-Stops : (o : Outcome) (rest : Wal → ℕ × ℕ → Outcome) → Stops o → Stops (go_on o rest)
    unfolding go_on
    go_on-Stops o rest s = record {
      wal = s.wal;
      saved = s.saved;
      outcome = rw (s.outcome) refl;
      recovers = s.recovers;
    }

    -- So many rounds of the inner loop, from frame `n + 1` to frame `m`.
    recover_group_lem :
        (rounds n m : ℕ) (w : Wal) (saved : ℕ × ℕ)
        → n + rounds ≡ m
        → m ≤ last
        → n ≤ count
        → Recovers start frames n w saved
        → w.hdr.frame_cksum ≡ chain_at start frames sums n
        → Reaches m (recover_group disk region lock_exclusive rounds f w saved (suc n))
    unfolding recover_group
    recover_group_lem zero n m w saved sum high low r chain =
        let same : n ≡ m = omega arith in
        inl (
          omega arith,
          rw (sym same)
              (record { wal = w; saved = saved; outcome = refl; recovers = r; chain = chain }),
        )
    recover_group_lem (suc rounds) n m w saved sum high low r chain = elim (dec_lt n count) [
      | yes h ↦
          let one = recover_frame-Runs n w saved h r chain in
          go_on-Runs m _ one.wal one.saved _ one.outcome (
            recover_group_lem rounds (suc n) m one.wal one.saved (omega arith) high (omega arith)
              one.recovers one.chain)
      | no h ↦
          let here : n ≡ count = omega arith in
          let stop =
            recover_frame-Stops w saved (omega arith) (rw (sym here) r) (rw (sym here) chain) in
          inr (go_on-Stops _ _ (rw here stop))
    ]

    pub recover_groups_lem :
        (rounds g : ℕ) (w : Wal) (saved : ℕ × ℕ)
        → g + rounds ≡ index_group_number last
        → group_base g ≤ count
        → Recovers start frames (group_base g) w saved
        → w.hdr.frame_cksum ≡ chain_at start frames sums (group_base g)
        → Reaches last (recover_groups disk region lock_exclusive (suc rounds) f w saved last g)
    unfolding recover_groups
    recover_groups_lem zero g w saved sum low r chain =
        let here : g ≡ index_group_number last = omega arith in
        let (top, few) = last_of_group_top last small in
        let first = first_of_group_eq g (omega arith) in
        let bound : last_of_group last g ≡ last = rw here top in
        let inner =
          recover_group_lem (last - group_base g) (group_base g) last w saved
            (omega (arith, prefix.within)) (omega arith) low r chain in
        let rounds' : suc (last_of_group last g) - first_of_group g ≡ last - group_base g =
          omega arith in
        let inner' : Reaches last (
            recover_group disk region lock_exclusive (suc (last_of_group last g) - first_of_group g)
              f w saved (first_of_group g)) =
          rw (rounds', first) inner in
        elim inner' [
          | inl (reached, runs) ↦ go_on-Runs last _ runs.wal runs.saved _ runs.outcome (
              inl (
                reached,
                record {
                  wal = runs.wal;
                  saved = runs.saved;
                  outcome = refl;
                  recovers = runs.recovers;
                  chain = runs.chain;
                },
              ))
          | inr stops ↦ inr (go_on-Stops _ _ stops)
        ]
    recover_groups_lem (suc rounds) g w saved sum low r chain =
        let (inside, bound, few) = base_lt last g small (omega arith) in
        let first = first_of_group_eq g (omega arith) in
        let inner =
          recover_group_lem (group_base (suc g) - group_base g) (group_base g) (group_base (suc g))
            w saved (omega (arith, base_le g few)) (omega arith) low r chain in
        let rounds' : suc (last_of_group last g) - first_of_group g
            ≡ group_base (suc g) - group_base g =
          omega arith in
        let inner' : Reaches (group_base (suc g)) (
            recover_group disk region lock_exclusive (suc (last_of_group last g) - first_of_group g)
              f w saved (first_of_group g)) =
          rw (rounds', first) inner in
        let step : group_base g ≤ group_base (suc g) = base_le g few in
        elim inner' [
          | inl (reached, runs) ↦ go_on-Runs last _ runs.wal runs.saved _ runs.outcome (
              recover_groups_lem rounds (suc g) runs.wal runs.saved (omega arith) reached
                runs.recovers runs.chain)
          | inr stops ↦ inr (go_on-Stops _ _ stops)
        ]
