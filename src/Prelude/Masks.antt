-- ===== src/Prelude/Masks.antt =====
-- Masks, single bits and sums of fields.
use Prim.Native.Nat.{ℕ, zero, suc, ◌+◌, ◌*◌, ◌/◌, ◌%◌, ◌^◌, ◌≤◌, ◌<◌, ◌-◌, max}
use Prim.Native.Nat.{bit_and, bit_or, bit_xor}
use mathlib.Core.Path.{◌≡◌, refl, ap, ap₂}
use native.Mathlib.Nat.{pow-suc, one-le-pow, mod-lt, div-add-mod'}
use native.Mathlib.Omega.{arith}
use osmo_fl2k.Prelude.Bits.{
  bit_and-halves, bit_or-halves, bit_xor-halves, bit_or_fields, bit_and_fields, zero-bit_or,
  bit_or-zero, bit_and-zero,
}

half_mask : (p m : ℕ) → 1 ≤ p → m ≡ p * 2 → (m - 1) / 2 ≡ p - 1
half_mask p m h e = omega arith

all_ones : (k r : ℕ) → r < 2 ^ k → bit_and r (2 ^ k - 1) ≡ r
all_ones zero r h = rw bit_and-zero (omega arith)
all_ones (suc k) r h =
    rw
      (
        bit_and-halves r (2 ^ suc k - 1),
        half_mask (2 ^ k) (2 ^ suc k) (one-le-pow k 2 (omega arith)) (pow-suc 2 k),
        all_ones k (r / 2) (omega (arith, pow-suc 2 k)),
      )
      (omega (arith, pow-suc 2 k, one-le-pow k 2 (omega arith)))

-- A mask of `k` ones is the remainder by `2 ^ k`.
pub bit_and_mask : (k a : ℕ) → bit_and a (2 ^ k - 1) ≡ a % 2 ^ k
bit_and_mask k a =
    let p : 0 < 2 ^ k = one-le-pow k 2 (omega arith) in
    let r : a % 2 ^ k < 2 ^ k = mod-lt a p in
    let l : a / 2 ^ k * 2 ^ k + a % 2 ^ k ≡ a = div-add-mod' a (2 ^ k) in
    let m : 0 * 2 ^ k + (2 ^ k - 1) ≡ 2 ^ k - 1 = omega arith in
    let e = bit_and_fields k (a / 2 ^ k) (a % 2 ^ k) 0 (2 ^ k - 1) r (omega arith) in
    omega (
      arith,
      ap₂ bit_and l m,
      e,
      bit_and-zero (a / 2 ^ k),
      ap (λ t. t * 2 ^ k) (bit_and-zero (a / 2 ^ k)),
      all_ones k (a % 2 ^ k) r,
    )

-- `(q << k) | r` is a sum where `r` fits `k` bits.
pub bit_or_sum : (k q r : ℕ) → r < 2 ^ k → bit_or (q * 2 ^ k) r ≡ q * 2 ^ k + r
bit_or_sum k q r h =
    let m : q * 2 ^ k + 0 ≡ q * 2 ^ k = omega arith in
    let n : 0 * 2 ^ k + r ≡ r = omega arith in
    let p : 0 < 2 ^ k = one-le-pow k 2 (omega arith) in
    omega (
      arith,
      ap₂ bit_or m n,
      bit_or_fields k q 0 0 r p h,
      ap (λ t. t * 2 ^ k) (bit_or-zero q),
      zero-bit_or r,
    )

-- A single bit.
pub bit_and_bit : (k a : ℕ) → bit_and a (2 ^ k) ≡ a / 2 ^ k % 2 * 2 ^ k
bit_and_bit k a =
    let p : 0 < 2 ^ k = one-le-pow k 2 (omega arith) in
    let r : a % 2 ^ k < 2 ^ k = mod-lt a p in
    let l : a / 2 ^ k * 2 ^ k + a % 2 ^ k ≡ a = div-add-mod' a (2 ^ k) in
    let m : 1 * 2 ^ k + 0 ≡ 2 ^ k = omega arith in
    omega (
      arith,
      ap₂ bit_and l m,
      bit_and_fields k (a / 2 ^ k) (a % 2 ^ k) 1 0 r p,
      bit_and-zero (a % 2 ^ k),
      ap (λ t. t * 2 ^ k) (bit_and_mask 1 (a / 2 ^ k)),
    )

-- Exclusive or stays below a power of two.
pub bit_xor-lt : (k a b : ℕ) → a < 2 ^ k → b < 2 ^ k → bit_xor a b < 2 ^ k
bit_xor-lt zero zero zero p q = omega arith
bit_xor-lt zero zero (suc b) p q = absurd (omega arith)
bit_xor-lt zero (suc a) b p q = absurd (omega arith)
bit_xor-lt (suc k) a b p q =
    let ih =
      bit_xor-lt k (a / 2) (b / 2) (omega (arith, pow-suc 2 k)) (omega (arith, pow-suc 2 k)) in
    omega (arith, ih, bit_xor-halves a b, pow-suc 2 k)

pub bit_or_ones : (k a : ℕ) → a < 2 ^ k → bit_or a (2 ^ k - 1) ≡ 2 ^ k - 1
bit_or_ones zero a h = let e : a ≡ 0 = omega arith in rw e refl
bit_or_ones (suc k) a h =
    let p : 1 ≤ 2 ^ k = one-le-pow k 2 (omega arith) in
    let s = pow-suc 2 k in
    let m = half_mask (2 ^ k) (2 ^ suc k) p (omega arith) in
    let ih = bit_or_ones k (a / 2) (omega arith) in
    let odd : (2 ^ suc k - 1) % 2 ≡ 1 = omega arith in
    let top : max (a % 2) 1 ≡ 1 = omega arith in
    rw (bit_or-halves a (2 ^ suc k - 1), m, ih, odd, top) (omega arith)
