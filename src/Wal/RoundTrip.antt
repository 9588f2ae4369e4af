-- ===== src/Wal/RoundTrip.antt =====
-- Frames on the disk: what was written is decoded after a read, and at one place of the checksum chain alone.
use cub_db.Common.{ℕ, ◌+◌, ◌<◌, ◌≡◌, ◌≢◌, inl, inr, refl, sym, ap, ◌∙◌, arith}
use cub_db.Common.{Option, none, some}
use cub_db.Bytes.{Bytes, copy}
use cub_db.Bytes.Laws.{copy_inside, copy-Outside}
use cub_db.Pager.{Status, and_then, and_then-ok}
use cub_db.Wal.{Wal, FrameHdr, Disk, set_frame_cksum, encode_frame, decode_frame, write_frame}
use cub_db.Wal.Checksum.{IsSum, compute_checksum-injective, compute_checksum-IsSum}
use cub_db.Wal.Frames.{
  InStep, Encodes, IsFrame, IsFrame-same, chain_next, decode_frame-encode_frame, decode_frame-cases,
  decode_frame-none,
}

-- At one place of the chain at most, the sums after a frame are the stored ones.
pub IsFrame-chain :
    (w : Wal) (a b : ℕ × ℕ) (frame : Bytes)
    → IsSum a
    → IsSum b
    → IsFrame w a frame
    → IsFrame w b frame
    → a ≡ b
IsFrame-chain w a b frame ha hb fa fb =
    let same0 : (chain_next w frame a).0 ≡ (chain_next w frame b).0 = fa.sum0 ∙ sym fb.sum0 in
    let same1 : (chain_next w frame a).1 ≡ (chain_next w frame b).1 = fa.sum1 ∙ sym fb.sum1 in
    let same : chain_next w frame a ≡ chain_next w frame b =
      ap (λ (t : ℕ). let c : ℕ × ℕ = (t, (chain_next w frame a).1) in c) same0
      ∙ ap (λ (t : ℕ). let c : ℕ × ℕ = ((chain_next w frame b).0, t) in c) same1 in
    compute_checksum-injective frame 0 8 a b ha hb (
      compute_checksum-injective frame 24 w.page_size _ _ (compute_checksum-IsSum frame 0 8 a ha)
        (compute_checksum-IsSum frame 0 8 b hb) same)

-- A frame that decodes does not decode from any other place of the chain, with the same salt and page size.
pub decode_frame-once :
    (r : Wal) (frame : Bytes) (hdr : FrameHdr) (c : ℕ × ℕ)
    → IsSum r.hdr.frame_cksum
    → IsSum c
    → (decode_frame r frame).0 ≡ some hdr
    → r.hdr.frame_cksum ≢ c
    → (decode_frame (set_frame_cksum r c) frame).0 ≡ none
decode_frame-once r frame hdr c hr hc found other = elim (decode_frame-cases r frame) [
  | inr (d, failed) ↦ absurd (cc (found, ap (λ (t : Option FrameHdr × Wal). t.0) failed))
  | inl good ↦
      let bad : IsFrame (set_frame_cksum r c) c frame → ⊥ = λ good'. other (
        IsFrame-chain r r.hdr.frame_cksum c frame hr hc good
          (IsFrame-same (set_frame_cksum r c) r c c frame refl refl refl good')) in
      ap (λ (t : Option FrameHdr × Wal). t.0) (decode_frame-none (set_frame_cksum r c) frame bad).1
]

module _ {F : Type 0} (disk : Disk F) where
  -- A frame that write_frame has written and that is then read in full decodes to the header that was written, and leaves
  -- the reader at the writer's place of the chain.
  pub decode_frame-write_frame :
      (f : F) (w r : Wal) (hdr : FrameHdr) (words : ℕ) (page : Bytes) (offset : ℕ) (frame : Bytes)
      → Encodes w hdr words
      → InStep w r
      → (write_frame disk f w hdr page offset frame).0 ≡ Status.ok
      → (disk.read_exact (write_frame disk f w hdr page offset frame).2 offset (24 + w.page_size)).0
        ≡ Status.ok
      → decode_frame r
          (disk.read_exact
            (write_frame disk f w hdr page offset frame).2
            offset
            (24 + w.page_size)).1
        ≡ (
          some hdr,
          set_frame_cksum r (write_frame disk f w hdr page offset frame).1.hdr.frame_cksum,
        )
  unfolding write_frame and_then
  decode_frame-write_frame f w r hdr words page offset frame enc step written read =
      let (w', out) = encode_frame w hdr page 0 frame in
      let r1 = disk.write f offset out 0 24 in
      let r2 = disk.write r1.1 (offset + 24) page 0 w.page_size in
      let (ok1, ok2) = and_then-ok r1.0 w' r1.1 (r2.0, w', r2.1) written in
      let run : write_frame disk f w hdr page offset frame ≡ (Status.ok, w', r2.1) =
        rw (write_frame, ok1, ok2) refl in
      let read' : (disk.read_exact r2.1 offset (24 + w.page_size)).0 ≡ Status.ok =
        sym (ap (λ (t : Status × Wal × F). (disk.read_exact t.2 offset (24 + w.page_size)).0) run)
        ∙ read in
      let got = (disk.read_exact r2.1 offset (24 + w.page_size)).1 in
      let at : (i : ℕ) → i < 24 + w.page_size → got i ≡ disk.contents r2.1 (offset + i) =
        disk.read_exact-ok r2.1 offset (24 + w.page_size) read' in
      let second : (i : ℕ)
          → disk.contents r2.1 i ≡ copy (disk.contents r1.1) (offset + 24) page 0 w.page_size i =
        disk.write-ok r1.1 (offset + 24) page 0 w.page_size ok2 in
      let first : (i : ℕ) → disk.contents r1.1 i ≡ copy (disk.contents f) offset out 0 24 i =
        disk.write-ok f offset out 0 24 ok1 in
      let start : (i : ℕ) → out (0 + i) ≡ out i =
        λ i. let same : 0 + i ≡ i = omega arith in ap out same in
      let head : (i : ℕ) → i < 24 → got i ≡ out i = λ i h.
        at i (omega arith)
        ∙ second (offset + i)
        ∙ copy-Outside _ page (offset + 24) 0 w.page_size (offset + i) (omega arith)
        ∙ first (offset + i)
        ∙ copy_inside _ out offset 0 24 i (offset + i) (omega arith) h
        ∙ start i in
      let body : (i : ℕ) → i < w.page_size → got (24 + i) ≡ page (0 + i) = λ i h.
        at (24 + i) (omega arith)
        ∙ second (offset + (24 + i))
        ∙ copy_inside _ page (offset + 24) 0 w.page_size i (offset + (24 + i)) (omega arith) h in
      let after_run =
        ap (λ (t : Status × Wal × F). (disk.read_exact t.2 offset (24 + w.page_size)).1) run in
      ap (decode_frame r) after_run
      ∙ decode_frame-encode_frame w r hdr words page 0 frame got enc step (head, body)
      ∙ ap
          (λ (t : Status × Wal × F).
            let d : Option FrameHdr × Wal = (some hdr, set_frame_cksum r t.1.hdr.frame_cksum) in d)
          (sym run)
