-- ===== src/Header/Checks.antt =====
-- The page sizes that are accepted, and that a new database is supported.
use native.Mathlib.Nat.{pow-suc}
use native.Mathlib.Decide.{ℕ_discrete}
use cub_db.Common.{ℕ, zero, suc, ◌+◌, ◌-◌, ◌*◌, ◌/◌, ◌%◌, ◌^◌, ◌≤◌, ◌<◌, ◌≡◌, ◌∙◌, ◌↔◌, refl, arith}
use cub_db.Common.{bit_and, true}
use cub_db.Common.Bits.{bit_and_step, bit_and-zero}
use cub_db.Bytes.{Bytes, write, put_u16, put_u32, get_u16}
use cub_db.Bytes.Laws.{get_u16_lem, get_u32_lem}
use cub_db.Header.{
  ok, check_page_size, check_db_support, make_supported_db, bytes_equal, version_exceeds,
}
use cub_db.Header.FileHdr
use cub_db.Header.NodeHdr

bit_and_self_fuel : (n a : ℕ) → a ≤ n → bit_and a a ≡ a
bit_and_self_fuel n zero h = bit_and-zero 0
bit_and_self_fuel zero (suc a) h = absurd (omega arith)
bit_and_self_fuel (suc n) (suc a) h =
    omega (arith, bit_and_step (suc a) (suc a), bit_and_self_fuel n (suc a / 2) (omega arith))

bit_and_self : (a : ℕ) → bit_and a a ≡ a
bit_and_self a = bit_and_self_fuel a a (omega arith)

-- Subtracting one flips the digits up to the lowest one that is set.
bit_and_pred_even : (m : ℕ) → 0 < m → bit_and (m * 2) (m * 2 - 1) ≡ bit_and m (m - 1) * 2
bit_and_pred_even m h =
    let e : m * 2 / 2 ≡ m = omega arith in
    let f : (m * 2 - 1) / 2 ≡ m - 1 = omega arith in
    bit_and_step (m * 2) (m * 2 - 1) ∙ rw (e, f) (omega arith)

bit_and_pred_odd : (m : ℕ) → bit_and (m * 2 + 1) (m * 2 + 1 - 1) ≡ m * 2
bit_and_pred_odd m =
    let e : (m * 2 + 1) / 2 ≡ m = omega arith in
    let f : (m * 2 + 1 - 1) / 2 ≡ m = omega arith in
    bit_and_step (m * 2 + 1) (m * 2 + 1 - 1) ∙ rw (e, f, bit_and_self) (omega arith)

pow_pos : (k : ℕ) → 0 < 2 ^ k
pow_pos zero = omega arith
pow_pos (suc k) = rw pow-suc (omega (arith, pow_pos k))

bit_and_pred_pow : (k : ℕ) → bit_and (2 ^ k) (2 ^ k - 1) ≡ 0
bit_and_pred_pow zero = bit_and-zero 1
bit_and_pred_pow (suc k) =
    rw pow-suc (omega (arith, bit_and_pred_even (2 ^ k) (pow_pos k), bit_and_pred_pow k))

pow_of_bit_and_pred :
    (fuel n : ℕ) → n ≤ fuel → 0 < n → bit_and n (n - 1) ≡ 0 → (k : ℕ) × (n ≡ 2 ^ k)
pow_of_bit_and_pred zero n h pos e = absurd (omega arith)
pow_of_bit_and_pred (suc fuel) n h pos e = elim (ℕ_discrete (n % 2) 0) [
  | yes even ↦
      let m : n ≡ n / 2 * 2 = omega arith in
      let e' : bit_and (n / 2 * 2) (n / 2 * 2 - 1) ≡ 0 = rw (← m) e in
      let below : bit_and (n / 2) (n / 2 - 1) ≡ 0 =
        omega (arith, bit_and_pred_even (n / 2) (omega arith)) in
      let (k, half) = pow_of_bit_and_pred fuel (n / 2) (omega arith) (omega arith) below in
      (suc k, rw pow-suc (omega arith))
  | no odd ↦
      let m : n ≡ n / 2 * 2 + 1 = omega arith in
      let e' : bit_and (n / 2 * 2 + 1) (n / 2 * 2 + 1 - 1) ≡ 0 = rw (← m) e in
      (0, omega (arith, bit_and_pred_odd (n / 2)))
]

-- `check_page_size` accepts exactly the powers of two from 512 to 32768.
pub check_page_size_iff :
    (n : ℕ) → (check_page_size n ≡ ok) ↔ ((512 ≤ n) × (n ≤ 32768) × ((k : ℕ) × (n ≡ 2 ^ k)))
unfolding check_page_size
check_page_size_iff n = (accepted, accepts)
  where
    accepted : check_page_size n ≡ ok → (512 ≤ n) × (n ≤ 32768) × ((k : ℕ) × (n ≡ 2 ^ k))
    accepted e =
        let lo : 512 ≤ n = ground arith in
        let hi : n ≤ 32768 = ground arith in
        let bits : bit_and n (n - 1) ≡ 0 = ground arith in
        (lo, hi, pow_of_bit_and_pred n n (omega arith) (omega arith) bits)

    accepts : (512 ≤ n) × (n ≤ 32768) × ((k : ℕ) × (n ≡ 2 ^ k)) → check_page_size n ≡ ok
    accepts (lo, hi, (k, e)) =
        let bits : bit_and n (n - 1) ≡ 0 = rw e (bit_and_pred_pow k) in ground arith

page_size_small : (n : ℕ) → check_page_size n ≡ ok → n < 2 ^ 16
unfolding check_page_size
page_size_small n h = ground arith

get_u16_cut :
    (m : Bytes) (p n : ℕ)
    → m p ≡ n % 2 ^ 32 % 2 ^ 16 % 256
    → m (p + 1) ≡ n % 2 ^ 32 % 2 ^ 16 / 2 ^ 8 % 256
    → n < 2 ^ 16
    → get_u16 m p ≡ n
get_u16_cut m p n e f h = get_u16_lem m p _ _ e f (omega arith) (omega arith) ∙ omega arith

module _ (m : Bytes) (n : ℕ) where
  made_format : bytes_equal (make_supported_db m n) 0 FileHdr.fmt_string ≡ true
  unfolding make_supported_db bytes_equal put_u32 put_u16 write
  made_format = refl

  made_version : make_supported_db m n FileHdr.fmt_version_offset ≡ 1
  unfolding make_supported_db put_u32 put_u16 write
  made_version = refl

  made_page_count : FileHdr.get_page_count (make_supported_db m n) ≡ 1
  unfolding make_supported_db put_u32 put_u16 write
  made_page_count =
      get_u32_lem (make_supported_db m n) 18 1 0 0 0 refl refl refl refl (omega arith) (omega arith)
        (omega arith)

  made_largest_root : FileHdr.get_largest_root (make_supported_db m n) ≡ 1
  unfolding make_supported_db put_u32 put_u16 write
  made_largest_root =
      get_u32_lem (make_supported_db m n) 30 1 0 0 0 refl refl refl refl (omega arith) (omega arith)
        (omega arith)

  made_page_size : n < 2 ^ 16 → FileHdr.get_page_size (make_supported_db m n) ≡ n
  unfolding make_supported_db put_u32 put_u16 write
  made_page_size h = get_u16_cut (make_supported_db m n) 34 n refl refl h

  made_cell_start : n < 2 ^ 16 → NodeHdr.get_cell_start (make_supported_db m n) FileHdr.size ≡ n
  unfolding make_supported_db put_u32 put_u16 write
  made_cell_start h = get_u16_cut (make_supported_db m n) 67 n refl refl h

  made_type : NodeHdr.get_type (make_supported_db m n) FileHdr.size ≡ NodeHdr.Kind.external
  unfolding make_supported_db NodeHdr.get_type put_u32 put_u16 write
  made_type = refl

-- A database that `make_supported_db` initialises with an accepted page size, in any buffer, passes
-- `check_db_support`. Its header has one page, largest root 1 and that page size, and its node header says an external
-- node whose cell area starts at the end of the page.
pub check_db_support-make_supported_db :
    (m : Bytes) (n : ℕ)
    → check_page_size n ≡ ok
    → (check_db_support (make_supported_db m n) ≡ ok)
      × (FileHdr.get_page_count (make_supported_db m n) ≡ 1)
      × (FileHdr.get_largest_root (make_supported_db m n) ≡ 1)
      × (FileHdr.get_page_size (make_supported_db m n) ≡ n)
      × (NodeHdr.get_type (make_supported_db m n) FileHdr.size ≡ NodeHdr.Kind.external)
      × (NodeHdr.get_cell_start (make_supported_db m n) FileHdr.size ≡ n)
check_db_support-make_supported_db m n h =
    let small = page_size_small n h in
    (
      supported,
      made_page_count m n,
      made_largest_root m n,
      made_page_size m n small,
      made_type m n,
      made_cell_start m n small,
    )
  where
    supported : check_db_support (make_supported_db m n) ≡ ok
    supported =
        unfold check_db_support version_exceeds in
        rw (made_format m n, made_version m n, made_page_size m n (page_size_small n h)) h
