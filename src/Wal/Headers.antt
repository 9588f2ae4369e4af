-- ===== src/Wal/Headers.antt =====
-- The comparison of index headers in src/wal.cpp is equality.
use cub_db.Common.{ℕ, ◌≡◌, refl, ◌==◌, true, beq→eq, eq→beq, and-true}
use cub_db.Wal.{IndexHdr}
use cub_db.Wal.Connection.{hdr_equal}

pub hdr_equal_refl : (h : IndexHdr) → hdr_equal h h ≡ true
unfolding hdr_equal
hdr_equal_refl h =
    rw
      (
        hdr_equal,
        eq→beq h.version h.version refl,
        eq→beq h.unused h.unused refl,
        eq→beq h.change h.change refl,
        eq→beq h.is_init h.is_init refl,
        eq→beq h.page_size h.page_size refl,
        eq→beq h.max_frame h.max_frame refl,
        eq→beq h.page_count h.page_count refl,
        eq→beq h.frame_cksum.0 h.frame_cksum.0 refl,
        eq→beq h.frame_cksum.1 h.frame_cksum.1 refl,
        eq→beq h.salt.0 h.salt.0 refl,
        eq→beq h.salt.1 h.salt.1 refl,
        eq→beq h.cksum.0 h.cksum.0 refl,
        eq→beq h.cksum.1 h.cksum.1 refl,
      )
      refl

pair_eq : (p q : ℕ × ℕ) → p.0 ≡ q.0 → p.1 ≡ q.1 → p ≡ q
pair_eq (a, b) (c, d) e f = rw (e, f) refl

hdr_eq :
    (g h : IndexHdr)
    → g.version ≡ h.version
    → g.unused ≡ h.unused
    → g.change ≡ h.change
    → g.is_init ≡ h.is_init
    → g.page_size ≡ h.page_size
    → g.max_frame ≡ h.max_frame
    → g.page_count ≡ h.page_count
    → g.frame_cksum ≡ h.frame_cksum
    → g.salt ≡ h.salt
    → g.cksum ≡ h.cksum
    → g ≡ h
hdr_eq g h e1 e2 e3 e4 e5 e6 e7 e8 e9 e10 = λ i. record {
  version = e1 i;
  unused = e2 i;
  change = e3 i;
  is_init = e4 i;
  page_size = e5 i;
  max_frame = e6 i;
  page_count = e7 i;
  frame_cksum = e8 i;
  salt = e9 i;
  cksum = e10 i;
}

pub hdr_equal_eq : (g h : IndexHdr) → hdr_equal g h ≡ true → g ≡ h
unfolding hdr_equal
hdr_equal_eq g h e =
    let (e1, r1) = and-true (g.version == h.version) _ e in
    let (e2, r2) = and-true (g.unused == h.unused) _ r1 in
    let (e3, r3) = and-true (g.change == h.change) _ r2 in
    let (e4, r4) = and-true (g.is_init == h.is_init) _ r3 in
    let (e5, r5) = and-true (g.page_size == h.page_size) _ r4 in
    let (e6, r6) = and-true (g.max_frame == h.max_frame) _ r5 in
    let (e7, r7) = and-true (g.page_count == h.page_count) _ r6 in
    let (e8, r8) = and-true (g.frame_cksum.0 == h.frame_cksum.0) _ r7 in
    let (e9, r9) = and-true (g.frame_cksum.1 == h.frame_cksum.1) _ r8 in
    let (e10, r10) = and-true (g.salt.0 == h.salt.0) _ r9 in
    let (e11, r11) = and-true (g.salt.1 == h.salt.1) _ r10 in
    let (e12, e13) = and-true (g.cksum.0 == h.cksum.0) _ r11 in
    hdr_eq g h (beq→eq _ _ e1) (beq→eq _ _ e2) (beq→eq _ _ e3) (beq→eq _ _ e4) (beq→eq _ _ e5)
      (beq→eq _ _ e6) (beq→eq _ _ e7) (pair_eq _ _ (beq→eq _ _ e8) (beq→eq _ _ e9))
      (pair_eq _ _ (beq→eq _ _ e10) (beq→eq _ _ e11))
      (pair_eq _ _ (beq→eq _ _ e12) (beq→eq _ _ e13))
