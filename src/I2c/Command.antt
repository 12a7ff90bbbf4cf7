-- ===== src/I2c/Command.antt =====
-- The command words of the I2C bus, field by field.
use osmo_fl2k.Prelude.{
  ℕ, zero, suc, ◌+◌, ◌-◌, ◌*◌, ◌/◌, ◌%◌, ◌^◌, ◌<◌, ◌≡◌, refl, ap, arith, bit_and, bit_or,
  bit_and_mask, bit_and_fields, bit_or_fields, bit_or_sum, bit_and-zero, bit_or-zero, zero-bit_or,
}
use osmo_fl2k.I2c.{read_command, write_command}

-- The mask keeps the bits 18 to 29.
kept_bits : (reg : ℕ) → bit_and reg 0x3ffc0000 ≡ reg / 2 ^ 18 % 2 ^ 12 * 2 ^ 18
kept_bits reg =
    let split : reg / 2 ^ 18 * 2 ^ 18 + reg % 2 ^ 18 ≡ reg = omega arith in
    let e =
      bit_and_fields 18 (reg / 2 ^ 18) (reg % 2 ^ 18) (2 ^ 12 - 1) 0 (omega arith) (omega arith) in
    omega (
      arith,
      ap (λ t. bit_and t 0x3ffc0000) split,
      e,
      bit_and_mask 12 (reg / 2 ^ 18),
      bit_and-zero (reg % 2 ^ 18),
    )

or_one : (t : ℕ) → t < 4 → bit_or t 1 ≡ t / 2 * 2 + 1
or_one zero h = refl
or_one (suc zero) h = refl
or_one (suc (suc zero)) h = refl
or_one (suc (suc (suc zero))) h = refl
or_one (suc (suc (suc (suc t)))) h = absurd (omega arith)

-- The kept bits with the start bit 28 set, above `low`.
start_bit :
    (m low : ℕ)
    → m < 2 ^ 12
    → low < 2 ^ 18
    → bit_or (m * 2 ^ 18) (2 ^ 28 + low)
      ≡ ((m / 2 ^ 11 * 2 + 1) * 2 ^ 10 + m % 2 ^ 10) * 2 ^ 18 + low
start_bit m low h l =
    let hi = bit_or_fields 18 m 0 (2 ^ 10) low (omega arith) l in
    let split : m / 2 ^ 10 * 2 ^ 10 + m % 2 ^ 10 ≡ m = omega arith in
    let mid = bit_or_fields 10 (m / 2 ^ 10) (m % 2 ^ 10) 1 0 (omega arith) (omega arith) in
    let one : bit_or m (2 ^ 10) ≡ (m / 2 ^ 11 * 2 + 1) * 2 ^ 10 + m % 2 ^ 10 = omega (
      arith,
      ap (λ t. bit_or t (2 ^ 10)) split,
      mid,
      or_one (m / 2 ^ 10) (omega arith),
      bit_or-zero (m % 2 ^ 10),
    ) in
    let left : m * 2 ^ 18 + 0 ≡ m * 2 ^ 18 = omega arith in
    omega (arith, ap (λ t. bit_or t (2 ^ 28 + low)) left, hi, one, zero-bit_or low)

-- The fields of a command word: what the device is asked, and what stays of the register.
pub record Command (reg i2c_addr reg_addr is_read word : ℕ) : Type 0 where
  pub address : word % 2 ^ 7 ≡ i2c_addr % 2 ^ 7
  pub direction : word / 2 ^ 7 % 2 ≡ is_read
  pub register : word / 2 ^ 8 % 2 ^ 8 ≡ reg_addr
  pub cleared : word / 2 ^ 16 % 2 ^ 2 ≡ 0
  pub kept : word / 2 ^ 18 % 2 ^ 10 ≡ reg / 2 ^ 18 % 2 ^ 10
  pub start : word / 2 ^ 28 % 2 ≡ 1
  pub kept_too : word / 2 ^ 29 % 2 ≡ reg / 2 ^ 29 % 2
  pub no_repeat : word / 2 ^ 30 ≡ 0

start_address : (ra : ℕ) → ra < 2 ^ 8 → bit_or (1 * 2 ^ 28) (ra * 2 ^ 8) ≡ (2 ^ 20 + ra) * 2 ^ 8
start_address ra h = omega (arith, bit_or_sum 28 1 (ra * 2 ^ 8) (omega arith))

module _ (reg i2c_addr reg_addr : ℕ) (small : reg_addr < 2 ^ 8) where
  read_low :
      bit_or (bit_or (bit_or (1 * 2 ^ 28) (reg_addr * 2 ^ 8)) (1 * 2 ^ 7)) (bit_and i2c_addr 0x7f)
      ≡ 2 ^ 28 + (reg_addr * 2 ^ 8 + 2 ^ 7 + i2c_addr % 2 ^ 7)
  read_low =
      let m : (2 ^ 20 + reg_addr) * 2 ^ 8 + 1 * 2 ^ 7 ≡ ((2 ^ 20 + reg_addr) * 2 + 1) * 2 ^ 7 =
        omega arith in
      rw
        (
          start_address reg_addr small,
          bit_or_sum 8 (2 ^ 20 + reg_addr) (1 * 2 ^ 7) (omega arith),
          bit_and_mask 7 i2c_addr,
          m,
          bit_or_sum 7 ((2 ^ 20 + reg_addr) * 2 + 1) (i2c_addr % 2 ^ 7) (omega arith),
        )
        (omega arith)

  write_low :
      bit_or (bit_or (1 * 2 ^ 28) (reg_addr * 2 ^ 8)) (bit_and i2c_addr 0x7f)
      ≡ 2 ^ 28 + (reg_addr * 2 ^ 8 + i2c_addr % 2 ^ 7)
  write_low =
      rw
        (
          start_address reg_addr small,
          bit_and_mask 7 i2c_addr,
          bit_or_sum 8 (2 ^ 20 + reg_addr) (i2c_addr % 2 ^ 7) (omega arith),
        )
        (omega arith)

  sum_of_fields :
      (low : ℕ)
      → low < 2 ^ 16
      → bit_or (bit_and reg 0x3ffc0000) (2 ^ 28 + low)
        ≡ ((reg / 2 ^ 29 % 2 * 2 + 1) * 2 ^ 10 + reg / 2 ^ 18 % 2 ^ 10) * 2 ^ 18 + low
  sum_of_fields low l =
      rw (kept_bits reg, start_bit (reg / 2 ^ 18 % 2 ^ 12) low (omega arith) (omega arith))
        (omega arith)

  -- For a register address of 8 bits, a command word to read names the slave and its register, sets
  -- the start bit 28, clears the bits 16 and 17, the repetition bit 30 and the completion bit 31,
  -- and keeps the bits 18 to 27 and 29 of the register.
  pub read_command-Command : Command reg i2c_addr reg_addr 1 (read_command reg i2c_addr reg_addr)
  unfolding read_command
  read_command-Command =
      let low = reg_addr * 2 ^ 8 + 2 ^ 7 + i2c_addr % 2 ^ 7 in
      rw (read_low, sum_of_fields low (omega arith)) (omega arith)

  -- For a register address of 8 bits, a command word to write does the same with the direction bit
  -- 7 clear.
  pub write_command-Command : Command reg i2c_addr reg_addr 0 (write_command reg i2c_addr reg_addr)
  unfolding write_command
  write_command-Command =
      let low = reg_addr * 2 ^ 8 + i2c_addr % 2 ^ 7 in
      rw (write_low, sum_of_fields low (omega arith)) (omega arith)
