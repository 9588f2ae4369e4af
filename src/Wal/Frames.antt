-- ===== src/Wal/Frames.antt =====
-- A frame is decoded as it was encoded, by a reader that stands at the same place of the checksum chain, and by no other.
use native.Mathlib.Decide.{ℕ_discrete}
use cub_db.Common.{ℕ, suc, ◌+◌, ◌*◌, ◌%◌, ◌^◌, ◌<◌, ◌≡◌, ◌⊎◌, inl, inr, refl, sym, ap, ◌∙◌, arith}
use cub_db.Common.{none, some, eq→beq, ne→beq_false}
use cub_db.Bytes.{Bytes, get_u32, put_u32}
use cub_db.Bytes.Laws.{get_u32_move, get_u32-put_u32, get_u32-put_u32-Apart, put_u32-Outside}
use cub_db.Wal.{Wal, FrameHdr, set_frame_cksum, compute_checksum, encode_frame, decode_frame}
use cub_db.Wal.Checksum.{IsSum, compute_checksum-IsSum, compute_checksum_congr}

-- A reader with the writer's salt and page size, and at its place of the chain.
pub record InStep (w r : Wal) : Type 0 where
  pub salt : r.hdr.salt ≡ w.hdr.salt
  pub frame_cksum : r.hdr.frame_cksum ≡ w.hdr.frame_cksum
  pub page_size : r.page_size ≡ w.page_size

-- What a frame can hold, and a log that is written in order.
pub record Encodes (w : Wal) (hdr : FrameHdr) (words : ℕ) : Type 0 where
  pub size : w.page_size ≡ suc words * 8
  pub redo : w.redo_cksum ≡ 0
  pub positive : 0 < hdr.pgno
  pub pgno : hdr.pgno < 2 ^ 32
  pub db_size : hdr.db_size < 2 ^ 32
  pub salt : IsSum w.hdr.salt
  pub cksum : IsSum w.hdr.frame_cksum

put_six : Bytes → ℕ → ℕ → ℕ × ℕ → ℕ × ℕ → Bytes
put_six m a b c d =
    put_u32 (put_u32 (put_u32 (put_u32 (put_u32 (put_u32 m 0 a) 4 b) 8 c.0) 12 c.1) 16 d.0) 20 d.1

put_six_first : (m : Bytes) (a b : ℕ) (c d : ℕ × ℕ) → get_u32 (put_six m a b c d) 0 ≡ a % 2 ^ 32
unfolding put_six
put_six_first m a b c d =
    get_u32-put_u32-Apart _ 20 d.1 0 (omega arith)
    ∙ get_u32-put_u32-Apart _ 16 d.0 0 (omega arith)
    ∙ get_u32-put_u32-Apart _ 12 c.1 0 (omega arith)
    ∙ get_u32-put_u32-Apart _ 8 c.0 0 (omega arith)
    ∙ get_u32-put_u32-Apart _ 4 b 0 (omega arith)
    ∙ get_u32-put_u32 m 0 a

put_six_second : (m : Bytes) (a b : ℕ) (c d : ℕ × ℕ) → get_u32 (put_six m a b c d) 4 ≡ b % 2 ^ 32
unfolding put_six
put_six_second m a b c d =
    get_u32-put_u32-Apart _ 20 d.1 4 (omega arith)
    ∙ get_u32-put_u32-Apart _ 16 d.0 4 (omega arith)
    ∙ get_u32-put_u32-Apart _ 12 c.1 4 (omega arith)
    ∙ get_u32-put_u32-Apart _ 8 c.0 4 (omega arith)
    ∙ get_u32-put_u32 _ 4 b

put_six_salt :
    (m : Bytes) (a b : ℕ) (c d : ℕ × ℕ)
    → (get_u32 (put_six m a b c d) 8 ≡ c.0 % 2 ^ 32)
      × (get_u32 (put_six m a b c d) 12 ≡ c.1 % 2 ^ 32)
unfolding put_six
put_six_salt m a b c d = (
  get_u32-put_u32-Apart _ 20 d.1 8 (omega arith)
      ∙ get_u32-put_u32-Apart _ 16 d.0 8 (omega arith)
      ∙ get_u32-put_u32-Apart _ 12 c.1 8 (omega arith)
      ∙ get_u32-put_u32 _ 8 c.0,
  get_u32-put_u32-Apart _ 20 d.1 12 (omega arith)
      ∙ get_u32-put_u32-Apart _ 16 d.0 12 (omega arith)
      ∙ get_u32-put_u32 _ 12 c.1,
)

put_six_cksum :
    (m : Bytes) (a b : ℕ) (c d : ℕ × ℕ)
    → (get_u32 (put_six m a b c d) 16 ≡ d.0 % 2 ^ 32)
      × (get_u32 (put_six m a b c d) 20 ≡ d.1 % 2 ^ 32)
unfolding put_six
put_six_cksum m a b c d = (
  get_u32-put_u32-Apart _ 20 d.1 16 (omega arith) ∙ get_u32-put_u32 _ 16 d.0,
  get_u32-put_u32 _ 20 d.1,
)

-- The bytes that are summed first are there before the checksum is.
put_six_low :
    (m : Bytes) (a b : ℕ) (c d : ℕ × ℕ) (i : ℕ)
    → i < 8
    → put_six m a b c d i ≡ put_u32 (put_u32 (put_u32 (put_u32 m 0 a) 4 b) 8 c.0) 12 c.1 i
unfolding put_six
put_six_low m a b c d i h =
    put_u32-Outside _ 20 d.1 i (omega arith) ∙ put_u32-Outside _ 16 d.0 i (omega arith)

-- The sums after a frame.
abbrev pub chain_next : Wal → Bytes → ℕ × ℕ → ℕ × ℕ
chain_next w frame c = compute_checksum frame 24 w.page_size (compute_checksum frame 0 8 c)

-- `frame` has the bytes of an encoded frame, and the page behind them.
abbrev pub Written : Bytes → Bytes → Bytes → ℕ → ℕ → Type 0
Written frame out page at size =
    ((i : ℕ) → i < 24 → frame i ≡ out i) × ((i : ℕ) → i < size → frame (24 + i) ≡ page (at + i))

-- A frame that decodes after the sums `c`.
pub record IsFrame (w : Wal) (c : ℕ × ℕ) (frame : Bytes) : Type 0 where
  pub salt0 : get_u32 frame 8 ≡ w.hdr.salt.0
  pub salt1 : get_u32 frame 12 ≡ w.hdr.salt.1
  pub positive : 0 < get_u32 frame 0
  pub sum0 : (chain_next w frame c).0 ≡ get_u32 frame 16
  pub sum1 : (chain_next w frame c).1 ≡ get_u32 frame 20

-- The salt, the page size and the sums decide.
pub IsFrame-same :
    (w w' : Wal) (c c' : ℕ × ℕ) (frame : Bytes)
    → w.hdr.salt ≡ w'.hdr.salt
    → w.page_size ≡ w'.page_size
    → c ≡ c'
    → IsFrame w c frame
    → IsFrame w' c' frame
IsFrame-same w w' c c' frame salt size sums good =
    let chain : chain_next w' frame c' ≡ chain_next w frame c = rw (size, sums) refl in
    record {
      salt0 = good.salt0 ∙ ap (λ (t : ℕ × ℕ). t.0) salt;
      salt1 = good.salt1 ∙ ap (λ (t : ℕ × ℕ). t.1) salt;
      positive = good.positive;
      sum0 = ap (λ (t : ℕ × ℕ). t.0) chain ∙ good.sum0;
      sum1 = ap (λ (t : ℕ × ℕ). t.1) chain ∙ good.sum1;
    }

abbrev pub frame_hdr : Bytes → FrameHdr
frame_hdr frame = record { pgno = get_u32 frame 0; db_size = get_u32 frame 4 }

pub decode_frame-IsFrame :
    (r : Wal) (frame : Bytes)
    → IsFrame r r.hdr.frame_cksum frame
    → decode_frame r frame
      ≡ (some (frame_hdr frame), set_frame_cksum r (chain_next r frame r.hdr.frame_cksum))
unfolding decode_frame
decode_frame-IsFrame r frame ok' =
    rw
      (
        decode_frame,
        eq→beq _ _ ok'.salt0,
        eq→beq _ _ ok'.salt1,
        ne→beq_false (get_u32 frame 0) 0 (omega (arith, ok'.positive)),
        eq→beq _ _ ok'.sum0,
        eq→beq _ _ ok'.sum1,
      )
      refl

-- Decoding changes the sums alone.
pub decode_frame-cases :
    (r : Wal) (frame : Bytes)
    → IsFrame r r.hdr.frame_cksum frame
      ⊎ ((c : ℕ × ℕ) × (decode_frame r frame ≡ (none, set_frame_cksum r c)))
unfolding decode_frame
decode_frame-cases r frame =
    let c = chain_next r frame r.hdr.frame_cksum in
    elim (ℕ_discrete (get_u32 frame 8) r.hdr.salt.0) [
      | no h ↦ inr (r.hdr.frame_cksum, rw (decode_frame, ne→beq_false _ _ h) refl)
      | yes salt0 ↦ elim (ℕ_discrete (get_u32 frame 12) r.hdr.salt.1) [
        | no h ↦
            inr (r.hdr.frame_cksum, rw (decode_frame, eq→beq _ _ salt0, ne→beq_false _ _ h) refl)
        | yes salt1 ↦ elim (ℕ_discrete (get_u32 frame 0) 0) [
          | yes z ↦ inr (
            r.hdr.frame_cksum,
            rw (decode_frame, eq→beq _ _ salt0, eq→beq _ _ salt1, eq→beq (get_u32 frame 0) 0 z)
                refl,
          )
          | no p ↦ elim (ℕ_discrete c.0 (get_u32 frame 16)) [
            | no h ↦ inr (
              c,
              rw
                  (
                    decode_frame,
                    eq→beq _ _ salt0,
                    eq→beq _ _ salt1,
                    ne→beq_false (get_u32 frame 0) 0 p,
                    ne→beq_false _ _ h,
                  )
                  refl,
            )
            | yes sum0 ↦ elim (ℕ_discrete c.1 (get_u32 frame 20)) [
              | no h ↦ inr (
                c,
                rw
                    (
                      decode_frame,
                      eq→beq _ _ salt0,
                      eq→beq _ _ salt1,
                      ne→beq_false (get_u32 frame 0) 0 p,
                      eq→beq _ _ sum0,
                      ne→beq_false _ _ h,
                    )
                    refl,
              )
              | yes sum1 ↦ inl (record {
                salt0 = salt0;
                salt1 = salt1;
                positive = omega arith;
                sum0 = sum0;
                sum1 = sum1;
              })
            ]
          ]
        ]
      ]
    ]

pub decode_frame-none :
    (r : Wal) (frame : Bytes)
    → (IsFrame r r.hdr.frame_cksum frame → ⊥)
    → (c : ℕ × ℕ) × (decode_frame r frame ≡ (none, set_frame_cksum r c))
decode_frame-none r frame bad = elim (decode_frame-cases r frame) [
  | inl good ↦ absurd (bad good)
  | inr failed ↦ failed
]

-- What is known of a frame whose bytes were encoded.
encode_frame-IsFrame :
    (w : Wal) (hdr : FrameHdr) (words : ℕ) (page : Bytes) (at : ℕ) (out frame : Bytes)
    → Encodes w hdr words
    → Written frame (encode_frame w hdr page at out).1 page at w.page_size
    → IsFrame w w.hdr.frame_cksum frame
      × (get_u32 frame 0 ≡ hdr.pgno)
      × (get_u32 frame 4 ≡ hdr.db_size)
      × (chain_next w frame w.hdr.frame_cksum ≡ (encode_frame w hdr page at out).0.hdr.frame_cksum)
unfolding encode_frame put_six
encode_frame-IsFrame w hdr words page at out frame enc (head, body) =
    let salted =
      put_u32 (put_u32 (put_u32 (put_u32 out 0 hdr.pgno) 4 hdr.db_size) 8 w.hdr.salt.0) 12
        w.hdr.salt.1 in
    let first = compute_checksum salted 0 8 w.hdr.frame_cksum in
    let cksum = compute_checksum page at w.page_size first in
    let sent = put_six out hdr.pgno hdr.db_size w.hdr.salt cksum in
    let encoded : encode_frame w hdr page at out ≡ (set_frame_cksum w cksum, sent) =
      rw (encode_frame, enc.redo) refl in
    let head' : (i : ℕ) → i < 24 → frame i ≡ sent i =
      λ i h. head i h ∙ ap (λ (t : Wal × Bytes). t.1 i) encoded in
    let word : (q : ℕ) → q + 3 < 24 → get_u32 frame q ≡ get_u32 sent q = λ q h.
      get_u32_move frame sent q q (head' q (omega arith)) (head' (q + 1) (omega arith))
        (head' (q + 2) (omega arith)) (head' (q + 3) h) in
    let first' : compute_checksum frame 0 8 w.hdr.frame_cksum ≡ first =
      compute_checksum_congr frame salted 0 0 0 w.hdr.frame_cksum (λ i h.
        let same : 0 + i ≡ i = omega arith in
        rw same (
          head' i (omega arith)
          ∙ put_six_low out hdr.pgno hdr.db_size w.hdr.salt cksum i (omega arith))) in
    let second' : compute_checksum frame 24 w.page_size first ≡ cksum = rw enc.size (
      compute_checksum_congr frame page 24 at words first
        (λ i h. body i (omega (arith, enc.size)))) in
    let chain : chain_next w frame w.hdr.frame_cksum ≡ cksum = rw first' second' in
    let sums : IsSum cksum =
      compute_checksum-IsSum page at w.page_size first
        (compute_checksum-IsSum salted 0 8 w.hdr.frame_cksum enc.cksum) in
    let pgno : get_u32 frame 0 ≡ hdr.pgno =
      word 0 (omega arith)
      ∙ put_six_first out hdr.pgno hdr.db_size w.hdr.salt cksum
      ∙ omega (arith, enc.pgno) in
    let db_size : get_u32 frame 4 ≡ hdr.db_size =
      word 4 (omega arith)
      ∙ put_six_second out hdr.pgno hdr.db_size w.hdr.salt cksum
      ∙ omega (arith, enc.db_size) in
    let (salt0, salt1) = put_six_salt out hdr.pgno hdr.db_size w.hdr.salt cksum in
    let (sum0, sum1) = put_six_cksum out hdr.pgno hdr.db_size w.hdr.salt cksum in
    (
      record {
        salt0 = word 8 (omega arith) ∙ salt0 ∙ omega (arith, enc.salt);
        salt1 = word 12 (omega arith) ∙ salt1 ∙ omega (arith, enc.salt);
        positive = omega (arith, pgno, enc.positive);
        sum0 = ap (λ (t : ℕ × ℕ). t.0) chain ∙ omega (arith, sums, word 16 (omega arith) ∙ sum0);
        sum1 = ap (λ (t : ℕ × ℕ). t.1) chain ∙ omega (arith, sums, word 20 (omega arith) ∙ sum1);
      },
      pgno,
      db_size,
      chain ∙ sym (ap (λ (t : Wal × Bytes). t.0.hdr.frame_cksum) encoded),
    )

pub decode_frame-encode_frame :
    (w r : Wal) (hdr : FrameHdr) (words : ℕ) (page : Bytes) (at : ℕ) (out frame : Bytes)
    → Encodes w hdr words
    → InStep w r
    → Written frame (encode_frame w hdr page at out).1 page at w.page_size
    → decode_frame r frame
      ≡ (some hdr, set_frame_cksum r (encode_frame w hdr page at out).0.hdr.frame_cksum)
decode_frame-encode_frame w r hdr words page at out frame enc step written =
    let (is_frame, pgno, db_size, chain) =
      encode_frame-IsFrame w hdr words page at out frame enc written in
    let chain' : chain_next r frame r.hdr.frame_cksum ≡ chain_next w frame w.hdr.frame_cksum =
      rw (step.frame_cksum, step.page_size) refl in
    let ready =
      IsFrame-same w r w.hdr.frame_cksum r.hdr.frame_cksum frame (sym step.salt)
        (sym step.page_size) (sym step.frame_cksum) is_frame in
    let hdr' : frame_hdr frame ≡ hdr = rw (pgno, db_size) refl in
    decode_frame-IsFrame r frame ready ∙ rw (chain', chain, hdr') refl
