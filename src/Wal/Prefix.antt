-- ===== src/Wal/Prefix.antt =====
-- The log as a sequence of frames: its checksum chain, its last commit, and one iteration of recover_index.
use native.Mathlib.Decide.{ℕ_discrete}
use cub_db.Common.{true}
use cub_db.Common.{ℕ, zero, suc, ◌+◌, ◌%◌, ◌^◌, ◌≤◌, ◌<◌, ◌≡◌, ◌⊎◌, inl, refl, sym, ap, ◌∙◌, arith}
use cub_db.Common.{Bool, ◌==◌, if◌then◌else◌, eq→beq, ne→beq_false}
use cub_db.Bytes.{Bytes, get_u32}
use cub_db.Pager.{Status}
use cub_db.HashIndex.{HashIndex, index_group_number, group_base}
use cub_db.HashIndex.Groups.{index_group_number_lem}
use cub_db.HashIndex.Lookup.{IsValid, page_of, group_number_eq, first_group}
use cub_db.HashIndex.Assign.{Assigned, assign-Assigned}
use cub_db.Wal.{Wal, Disk, view, set_frame_cksum, frame_offset}
use cub_db.Wal.Frames.{IsFrame, IsFrame-same, chain_next, frame_hdr, decode_frame-IsFrame}
use cub_db.Wal.Recovery.{
  running, recover_frame, recover_read, recover_decoded, recover_assigned, recover_commit,
}

-- A valid index stays valid for fewer frames.
pub group_number_mono :
    (v w : ℕ) → v ≤ w → w + 34 < 2 ^ 32 → index_group_number v ≤ index_group_number w
group_number_mono v w h small = elim (ℕ_discrete v 0) [
  | yes z ↦ omega (arith, first_group, ap index_group_number z)
  | no s ↦
      omega (
        arith,
        group_number_eq v (omega arith) (omega arith),
        group_number_eq w (omega arith) small,
      )
]

pub IsValid-below :
    (ix : HashIndex) (v : ℕ)
    → v ≤ ix.max_frame
    → ix.max_frame + 34 < 2 ^ 32
    → IsValid ix
    → IsValid (record ix { max_frame = v })
IsValid-below ix v h small valid =
    let up = group_number_mono v ix.max_frame h small in
    record {
      counts = valid.counts;
      filled = λ n q. valid.filled n (omega arith);
      within = λ n q. valid.within n (omega arith);
      full = λ n q. valid.full n (omega arith);
      reaches = elim (ℕ_discrete v 0) [
        | yes z ↦ omega (arith, z)
        | no s ↦ elim (ℕ_discrete (index_group_number v) (index_group_number ix.max_frame)) [
          | yes same ↦ omega (arith, valid.reaches, ap group_base same, ap valid.counts same)
          | no below ↦ omega (
            arith,
            valid.full (index_group_number v) (omega arith),
            index_group_number_lem v (omega arith) (omega arith),
          )
        ]
      ];
    }

-- The sums after the first `n` frames, from `start` on.
unfoldable pub chain_at : Wal → (ℕ → Bytes) → ℕ × ℕ → ℕ → ℕ × ℕ
chain_at w frames start zero = start
chain_at w frames start (suc n) = chain_next w (frames (suc n)) (chain_at w frames start n)

-- The last commit frame of the first `n` frames, or 0.
unfoldable pub last_commit : (ℕ → Bytes) → ℕ → ℕ
last_commit frames zero = 0
last_commit frames (suc n) =
    let before = last_commit frames n in if get_u32 (frames (suc n)) 4 == 0 then before else suc n

pub last_commit_le : (frames : ℕ → Bytes) (n : ℕ) → last_commit frames n ≤ n
unfolding last_commit
last_commit_le frames zero = omega arith
last_commit_le frames (suc n) = ground (arith, last_commit_le frames n)

-- What the first `n` frames of the log come to. The sums that recover_index keeps for a commit stay zero.
pub record Recovers (start : Wal) (frames : ℕ → Bytes) (n : ℕ) (w : Wal) (saved : ℕ × ℕ)
    : Type 0 where
  pub salt : w.hdr.salt ≡ start.hdr.salt
  pub page_size : w.page_size ≡ start.page_size
  pub max_frame : w.hdr.max_frame ≡ last_commit frames n
  pub page_count :
      0 < last_commit frames n → w.hdr.page_count ≡ get_u32 (frames (last_commit frames n)) 4
  pub cksum : w.hdr.cksum ≡ (0, 0)
  pub saved_cksum : saved ≡ (0, 0)
  pub valid : IsValid (record (w.index) { max_frame = n })
  pub current :
      (valid.counts (index_group_number n) + group_base (index_group_number n) ≡ n)
      ⊎ (w.hdr.max_frame ≡ n)
  pub pages : (v : ℕ) → 0 < v → v ≤ n → page_of w.index v ≡ get_u32 (frames v) 0

-- The same with other sums.
pub Recovers-set_frame_cksum :
    (start : Wal) (frames : ℕ → Bytes) (n : ℕ) (w : Wal) (saved c : ℕ × ℕ)
    → Recovers start frames n w saved
    → Recovers start frames n (set_frame_cksum w c) saved
Recovers-set_frame_cksum start frames n w saved c r = record {
  salt = r.salt;
  page_size = r.page_size;
  max_frame = r.max_frame;
  page_count = r.page_count;
  cksum = r.cksum;
  saved_cksum = r.saved_cksum;
  valid = r.valid;
  current = r.current;
  pages = r.pages;
}

module _ {F : Type 0} (disk : Disk F) (region : ℕ → Bool → Status × Bool)
    (mappable : (n : ℕ) (extend : Bool) → region n extend ≡ (Status.ok, true))
    (lock_exclusive : ℕ → ℕ → Status) (f : F) (start : Wal) where
  -- The frames as the disk gives them.
  abbrev pub frames_of : ℕ → Bytes
  frames_of n = (disk.read_exact f (frame_offset n start.page_size) (24 + start.page_size)).1

  -- The index after the next frame, before it is known whether the frame is a commit.
  recover_commit-Recovers :
      (n : ℕ) (w : Wal) (saved c : ℕ × ℕ) (ix' : HashIndex)
      → Recovers start frames_of n w saved
      → Assigned (view w) n (get_u32 (frames_of (suc n)) 0) ix'
      → (w' : Wal) × (saved' : ℕ × ℕ) × (recover_commit
            (record (set_frame_cksum w c) { index = ix' })
            saved
            (frame_hdr (frames_of (suc n)))
            (suc n)
          ≡ running w' saved')
        × Recovers start frames_of (suc n) w' saved'
        × (w'.hdr.frame_cksum ≡ c)
  unfolding recover_commit last_commit
  recover_commit-Recovers n w saved c ix' r assigned =
      let pages : (v : ℕ) → 0 < v → v ≤ suc n → page_of ix' v ≡ get_u32 (frames_of v) 0 = λ v pos h.
        elim (ℕ_discrete v (suc n)) [
          | yes same ↦ rw same assigned.added
          | no other ↦ assigned.kept v pos (omega arith) ∙ r.pages v pos (omega arith)
        ] in
      elim (ℕ_discrete (get_u32 (frames_of (suc n)) 4) 0) [
        | yes z ↦
            let test = eq→beq (get_u32 (frames_of (suc n)) 4) 0 z in
            let same : last_commit frames_of (suc n) ≡ last_commit frames_of n =
              rw (last_commit, test) refl in
            (
              record (set_frame_cksum w c) { index = ix' },
              saved,
              rw (recover_commit, test) refl,
              record {
                salt = r.salt;
                page_size = r.page_size;
                max_frame = r.max_frame ∙ sym same;
                page_count = λ pos. rw same (r.page_count (omega (arith, same)));
                cksum = r.cksum;
                saved_cksum = r.saved_cksum;
                valid = assigned.valid;
                current = inl assigned.exact;
                pages = pages;
              },
              refl,
            )
        | no s ↦
            let test = ne→beq_false (get_u32 (frames_of (suc n)) 4) 0 s in
            let same : last_commit frames_of (suc n) ≡ suc n = rw (last_commit, test) refl in
            let w2 = record (set_frame_cksum w c) { index = ix' } in
            (
              record w2 {
                hdr = record (w2.hdr) {
                  max_frame = suc n;
                  page_count = get_u32 (frames_of (suc n)) 4;
                  page_size = w2.page_size % 2 ^ 16;
                };
              },
              w.hdr.cksum,
              rw (recover_commit, test) refl,
              record {
                salt = r.salt;
                page_size = r.page_size;
                max_frame = sym same;
                page_count = λ pos. rw same refl;
                cksum = r.cksum;
                saved_cksum = r.cksum;
                valid = assigned.valid;
                current = inl assigned.exact;
                pages = pages;
              },
              refl,
            )
      ]

  pub recover_frame-Recovers :
      (n : ℕ) (w : Wal) (saved : ℕ × ℕ)
      → (disk.read_exact f (frame_offset (suc n) start.page_size) (24 + start.page_size)).0
        ≡ Status.ok
      → n + 35 < 2 ^ 32
      → IsFrame start w.hdr.frame_cksum (frames_of (suc n))
      → Recovers start frames_of n w saved
      → (w' : Wal) × (saved' : ℕ × ℕ) × (recover_frame disk region lock_exclusive f w saved (suc n)
          ≡ running w' saved')
        × Recovers start frames_of (suc n) w' saved'
        × (w'.hdr.frame_cksum ≡ chain_next start (frames_of (suc n)) w.hdr.frame_cksum)
  unfolding recover_frame recover_read recover_decoded recover_assigned
  recover_frame-Recovers n w saved read small good r =
      let frame = frames_of (suc n) in
      let good' =
        IsFrame-same start w w.hdr.frame_cksum w.hdr.frame_cksum frame (sym r.salt)
          (sym r.page_size) refl good in
      let c = chain_next w frame w.hdr.frame_cksum in
      let answer =
        disk.read_exact f (frame_offset (suc n) start.page_size) (24 + start.page_size) in
      let got : disk.read_exact f (frame_offset (suc n) w.page_size) (24 + w.page_size)
          ≡ (Status.ok, frame) =
        ap (λ (t : ℕ). disk.read_exact f (frame_offset (suc n) t) (24 + t)) r.page_size
        ∙ ap (λ (t : Status). let a : Status × Bytes = (t, answer.1) in a) read in
      let decoded = decode_frame-IsFrame w frame good' in
      let key = get_u32 frame 0 in
      let (ix', run, assigned) =
        assign-Assigned region mappable (view w) n key r.valid small good.positive r.current in
      let (w', saved', commit, next, sums) = recover_commit-Recovers n w saved c ix' r assigned in
      (
        w',
        saved',
        ap (recover_read disk region lock_exclusive w saved (suc n)) got
            ∙ ap (recover_decoded disk region lock_exclusive saved (suc n)) decoded
            ∙ ap
                (recover_assigned disk region lock_exclusive (set_frame_cksum w c) saved
                  (frame_hdr frame) (suc n))
                run
            ∙ commit,
        next,
        sums ∙ rw r.page_size refl,
      )
