-- ===== src/Rds/Crc.antt =====
-- The bits of a block, and its checkword as the remainder of a division of polynomials with
-- coefficients modulo 2.
use osmo_fl2k.Prelude.{
  ℕ, zero, suc, ◌+◌, ◌*◌, ◌/◌, ◌%◌, ◌^◌, ◌<◌, List, [], ◌∷◌, ◌++◌, ◌==◌, if◌then◌else◌, ◌≡◌, refl,
  ap, arith, bit_xor, bit_xor_fields, bit_xor-halves, bit_xor-zero, bit_xor-lt, bit_and_bit,
}
use osmo_fl2k.Rds.{shl16, flag, emit}

-- x^10 + x^8 + x^7 + x^5 + x^4 + x^3 + 1
abbrev pub generator : ℕ
generator = 0x5b9

-- A polynomial, given by its coefficients from the highest on, times the generator: Horner's rule,
-- from `acc` on. Exclusive or is the sum.
unfoldable pub times_generator : ℕ → List ℕ → ℕ
times_generator acc [] = acc
times_generator acc (q ∷ qs) =
    times_generator (bit_xor (acc * 2) (if q == 0 then 0 else generator)) qs

-- The number that bits stand for, from the highest on, behind those of `acc`.
abbrev pub value : ℕ → List ℕ → ℕ
value acc [] = acc
value acc (b ∷ bs) = value (acc * 2 + b) bs

pub value-append : (acc : ℕ) (xs ys : List ℕ) → value acc (xs ++ ys) ≡ value (value acc xs) ys
value-append acc [] ys = refl
value-append acc (x ∷ xs) ys = value-append (acc * 2 + x) xs ys

-- `n` doublings
abbrev doubled : ℕ → ℕ → ℕ
doubled zero v = v
doubled (suc n) v = doubled n (2 * v)

pub flag_15 : (w : ℕ) → flag w (2 ^ 15) ≡ w / 2 ^ 15 % 2
flag_15 w = ground (arith, bit_and_bit 15 w)

flag_9 : (w : ℕ) → flag w (2 ^ 9) ≡ w / 2 ^ 9 % 2
flag_9 w = ground (arith, bit_and_bit 9 w)

-- The highest `n` of 16 bits, and those of the lower 10.
pub value-emit_16 :
    (n acc w : ℕ)
    → w < 2 ^ 16
    → value acc (emit (2 ^ 15) n w) ≡ doubled n (acc * 2 ^ 16 + w) / 2 ^ 16
unfolding emit
value-emit_16 zero acc w h = omega arith
value-emit_16 (suc n) acc w h =
    let ih = value-emit_16 n (acc * 2 + w / 2 ^ 15 % 2) (shl16 w) (omega arith) in
    let same : (acc * 2 + w / 2 ^ 15 % 2) * 2 ^ 16 + shl16 w ≡ 2 * (acc * 2 ^ 16 + w) =
      omega arith in
    rw (flag_15 w, ih, same) refl

pub value-emit_10 :
    (n acc w : ℕ) → value acc (emit (2 ^ 9) n w) ≡ doubled n (acc * 2 ^ 10 + w % 2 ^ 10) / 2 ^ 10
unfolding emit
value-emit_10 zero acc w = omega arith
value-emit_10 (suc n) acc w =
    let ih = value-emit_10 n (acc * 2 + w / 2 ^ 9 % 2) (shl16 w) in
    let same : (acc * 2 + w / 2 ^ 9 % 2) * 2 ^ 10 + shl16 w % 2 ^ 10
        ≡ 2 * (acc * 2 ^ 10 + w % 2 ^ 10) =
      omega arith in
    rw (flag_9 w, ih, same) refl

-- The sum with a bit changes the lowest bit alone.
pub low_xor : (m x y : ℕ) → x < 2 → y < 2 → bit_xor (2 * m + x) y ≡ 2 * m + (x + y) % 2
low_xor m x y hx hy =
    let a : (2 * m + x) / 2 ≡ m = omega arith in
    let b : y / 2 ≡ 0 = omega arith in
    rw (bit_xor-halves (2 * m + x) y, a, b, bit_xor-zero m) (omega arith)

pub bits_xor : (x y : ℕ) → x < 2 → y < 2 → bit_xor x y ≡ (x + y) % 2
bits_xor x y hx hy =
    let e : 2 * 0 + x ≡ x = omega arith in
    omega (arith, ap (λ t. bit_xor t y) e, low_xor 0 x y hx hy)

-- The lower ten bits of a sum with `y`.
pub xor_low : (x y : ℕ) → y < 2 ^ 10 → bit_xor x y % 2 ^ 10 ≡ bit_xor (x % 2 ^ 10) y
xor_low x y h =
    let split : x / 2 ^ 10 * 2 ^ 10 + x % 2 ^ 10 ≡ x = omega arith in
    let zero' : 0 * 2 ^ 10 + y ≡ y = omega arith in
    let e = bit_xor_fields 10 (x / 2 ^ 10) (x % 2 ^ 10) 0 y (omega arith) h in
    let small = bit_xor-lt 10 (x % 2 ^ 10) y (omega arith) h in
    omega (
      arith,
      ap (λ t. bit_xor t y) split,
      ap (bit_xor (x / 2 ^ 10 * 2 ^ 10 + x % 2 ^ 10)) zero',
      e,
      small,
    )
