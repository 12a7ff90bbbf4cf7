-- ===== src/Rds/Check.antt =====
-- `crc` against the generator polynomial, and the bits of a block with its checkword.
use osmo_fl2k.Prelude.{
  ℕ, zero, suc, ◌+◌, ◌*◌, ◌/◌, ◌%◌, ◌^◌, ◌<◌, List, [], ◌∷◌, ◌==◌, if◌then◌else◌, ◌≡◌, ◌≢◌, refl,
  ap, arith, bit_and, bit_xor, bit_xor_fields, bit_xor-zero, bit_and_mask, ℕ_discrete,
}
use osmo_fl2k.Rds.{poly, shl16, flag, crc_from, crc, emit, emit_block}
use osmo_fl2k.Rds.Crc.{
  generator, times_generator, value, value-append, flag_15, bits_xor, low_xor, xor_low,
  value-emit_16, value-emit_10,
}

-- The test of a round of `crc`.
abbrev taken : ℕ → ℕ → ℕ
taken block c = bit_xor (bit_and (c / 2 ^ 9) 1) (flag block (2 ^ 15))

abbrev next_crc : ℕ → ℕ → ℕ
next_crc block c = if taken block c == 0 then shl16 c else bit_xor (shl16 c) poly

-- The quotient: one coefficient for each round.
quotient : ℕ → ℕ → ℕ → List ℕ
quotient zero block c = []
quotient (suc left) block c = taken block c ∷ quotient left (shl16 block) (next_crc block c)

taken_eq : (block c : ℕ) → taken block c ≡ (c / 2 ^ 9 + block / 2 ^ 15) % 2
taken_eq block c =
    let m = bit_and_mask 1 (c / 2 ^ 9) in
    let b = flag_15 block in
    rw (m, b)
      (omega (arith, bits_xor (c / 2 ^ 9 % 2) (block / 2 ^ 15 % 2) (omega arith) (omega arith)))

-- A round adds the shifted generator exactly if that makes the remainder short again.
round_plain :
    (acc block c : ℕ)
    → taken block c ≡ 0
    → bit_xor ((acc * 2 ^ 10 + c % 2 ^ 10) * 2) 0
      ≡ (acc * 2 + block / 2 ^ 15 % 2) * 2 ^ 10 + shl16 c % 2 ^ 10
round_plain acc block c t =
    omega (arith, taken_eq block c, bit_xor-zero ((acc * 2 ^ 10 + c % 2 ^ 10) * 2))

round_sum :
    (acc block c : ℕ)
    → taken block c ≡ 1
    → bit_xor ((acc * 2 ^ 10 + c % 2 ^ 10) * 2) generator
      ≡ (acc * 2 + block / 2 ^ 15 % 2) * 2 ^ 10 + bit_xor (shl16 c) poly % 2 ^ 10
round_sum acc block c t =
    let msb : ℕ = c / 2 ^ 9 % 2 in
    let low : ℕ = shl16 c % 2 ^ 10 in
    let split : (2 * acc + msb) * 2 ^ 10 + low ≡ (acc * 2 ^ 10 + c % 2 ^ 10) * 2 = omega arith in
    let fields = bit_xor_fields 10 (2 * acc + msb) low 1 poly (omega arith) (omega arith) in
    let top = low_xor acc msb 1 (omega arith) (omega arith) in
    omega (
      arith,
      ap (λ s. bit_xor s generator) split,
      fields,
      top,
      taken_eq block c,
      xor_low (shl16 c) poly (omega arith),
    )

taken-zero_one : (block c : ℕ) → taken block c ≢ 0 → taken block c ≡ 1
taken-zero_one block c n = omega (arith, taken_eq block c)

crc_from-quotient :
    (left acc block c : ℕ)
    → times_generator (acc * 2 ^ 10 + c % 2 ^ 10) (quotient left block c)
      ≡ value acc (emit (2 ^ 15) left block) * 2 ^ 10 + crc_from left block c % 2 ^ 10
unfolding times_generator quotient emit crc_from
crc_from-quotient zero acc block c = refl
crc_from-quotient (suc left) acc block c =
    let acc' : ℕ = acc * 2 + block / 2 ^ 15 % 2 in
    elim (ℕ_discrete (taken block c) 0) [
      | yes p ↦
          let ih = crc_from-quotient left acc' (shl16 block) (shl16 c) in
          rw (p, round_plain acc block c p, flag_15 block) ih
      | no n ↦
          let p = taken-zero_one block c n in
          let ih = crc_from-quotient left acc' (shl16 block) (bit_xor (shl16 c) poly) in
          rw (p, round_sum acc block c p, flag_15 block) ih
    ]

block_bits : (block : ℕ) → block < 2 ^ 16 → value 0 (emit (2 ^ 15) 16 block) ≡ block
block_bits block h = omega (arith, value-emit_16 16 0 block h)

-- The bits of a block of 16 bits and its checkword: the bits of the block, then the lower 10 bits
-- of the checkword with the offset word added.
pub value-emit_block :
    (block offset : ℕ)
    → block < 2 ^ 16
    → value 0 (emit_block block offset) ≡ block * 2 ^ 10 + bit_xor (crc block) offset % 2 ^ 10
unfolding emit_block
value-emit_block block offset h = omega (
  arith,
  value-append 0 (emit (2 ^ 15) 16 block) (emit (2 ^ 9) 10 (bit_xor (crc block) offset)),
  ap (λ t. value t (emit (2 ^ 9) 10 (bit_xor (crc block) offset))) (block_bits block h),
  value-emit_10 10 block (bit_xor (crc block) offset),
)

-- A block of 16 bits with its checkword, its offset word of 10 bits taken off, is divisible by the
-- generator polynomial.
pub emit_block_divisible :
    (block offset : ℕ)
    → block < 2 ^ 16
    → offset < 2 ^ 10
    → (qs : List ℕ) × (bit_xor (times_generator 0 qs) offset ≡ value 0 (emit_block block offset))
unfolding crc
emit_block_divisible block offset h l =
    let qs = quotient 16 block 0 in
    let e : times_generator 0 qs ≡ block * 2 ^ 10 + crc block % 2 ^ 10 =
      omega (arith, crc_from-quotient 16 0 block 0, block_bits block h) in
    let zero' : 0 * 2 ^ 10 + offset ≡ offset = omega arith in
    (
      qs,
      omega (
        arith,
        ap (λ t. bit_xor t offset) e,
        ap (bit_xor (block * 2 ^ 10 + crc block % 2 ^ 10)) zero',
        bit_xor_fields 10 block (crc block % 2 ^ 10) 0 offset (omega arith) l,
        bit_xor-zero block,
        xor_low (crc block) offset l,
        value-emit_block block offset h,
      ),
    )
