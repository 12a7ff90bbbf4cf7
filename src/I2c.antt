-- ===== src/I2c.antt =====
-- src/libosmo-fl2k.c, `fl2k_i2c_read` and `fl2k_i2c_write`: the adapter's I2C bus, driven through the
-- registers 0x8020, 0x8024 and 0x8028. The waits of 10 ms have no effect on the state.
pub mod Command
pub mod Poll
pub mod Results
pub mod Commanded
pub mod Answers
use osmo_fl2k.Prelude.{
  ℕ, zero, suc, ◌*◌, ◌^◌, ◌≡◌, Option, none, some, Bool, true, false, not, ◌==◌, if◌then◌else◌, ℤ,
  pos, negsuc, is_negative, bit_and, bit_or,
}
use osmo_fl2k.Device.{success, error_invalid_param, error_not_found, error_timeout}
use osmo_fl2k.Registers.{Bytes, Bus, read_reg, write_reg}

-- `reg & 0x3ffc0000`, then the command with (1 << 7) for a read.
unfoldable pub read_command : ℕ → ℕ → ℕ → ℕ
read_command reg i2c_addr reg_addr =
    bit_or (bit_and reg 0x3ffc0000)
      (bit_or (bit_or (bit_or (1 * 2 ^ 28) (reg_addr * 2 ^ 8)) (1 * 2 ^ 7)) (bit_and i2c_addr 0x7f))

unfoldable pub write_command : ℕ → ℕ → ℕ → ℕ
write_command reg i2c_addr reg_addr =
    bit_or (bit_and reg 0x3ffc0000)
      (bit_or (bit_or (1 * 2 ^ 28) (reg_addr * 2 ^ 8)) (bit_and i2c_addr 0x7f))

-- `reg & (1 << 31)`: the operation is complete.
abbrev pub is_complete : ℕ → Bool
is_complete reg = not (bit_and reg (1 * 2 ^ 31) == 0)

-- `reg & (0x0f << 24)`: the slave did not respond, or not to all bytes.
abbrev pub has_errors : ℕ → Bool
has_errors reg = not (bit_and reg (0x0f * 2 ^ 24) == 0)

-- How the polling ends: a read fails, the register shows completion, or neither in time.
pub data Polled : Type 0 where
  failed : ℤ → Polled
  complete : ℕ → Polled
  timed_out : Polled

module _ {S : Type 0} (bus : Bus S) where
  -- `for (i = 0; i < 10; i++)`, for `left` rounds.
  unfoldable pub poll : ℕ → S → Polled × S
  poll zero s = (timed_out, s)
  poll (suc left) s =
      let (r, reg, s') = read_reg bus s 0x8020 in
      let rest = poll left s' in
      if is_negative r then (failed r, s') else if is_complete reg then (complete reg, s') else rest

  -- From the read of register 0x8020 to the end of the polling, the same in both functions; the
  -- command is made from the register's contents.
  unfoldable pub run_command : (ℕ → ℕ) → S → Polled × S
  run_command command s =
      let (r, reg, s1) = read_reg bus s 0x8020 in
      let (q, s2) = write_reg bus s1 0x8020 (command reg) in
      let rest = poll 10 s2 in
      if is_negative r then (failed r, s1) else if is_negative q then (failed q, s2) else rest

  -- What follows the polling in `fl2k_i2c_read`: its result, the bytes read if the last transfer is made, and the
  -- device.
  unfoldable pub read_result : Polled × S → ℤ × Option Bytes × S
  read_result (failed r, s) = (r, none, s)
  read_result (timed_out, s) = (error_timeout, none, s)
  read_result (complete reg, s) =
      let (r, d, s') = bus.control_in s 0x8024 in
      if has_errors reg then (error_not_found, none, s) else (r, some d, s')

  -- `fl2k_i2c_read` on a device handle
  unfoldable pub read_dev : S → ℕ → ℕ → ℤ × Option Bytes × S
  read_dev s i2c_addr reg_addr =
      read_result (run_command (λ reg. read_command reg i2c_addr reg_addr) s)

  -- What follows the polling in `fl2k_i2c_write`.
  unfoldable pub write_result : Polled × S → ℤ × S
  write_result (failed r, s) = (r, s)
  write_result (timed_out, s) = (error_timeout, s)
  write_result (complete reg, s) = (if has_errors reg then error_not_found else success, s)

  -- `fl2k_i2c_write` on a device handle
  unfoldable pub write_dev : S → ℕ → ℕ → Bytes → ℤ × S
  write_dev s i2c_addr reg_addr input =
      let (r, s1) = bus.control_out s 0x8028 input in
      let rest = write_result (run_command (λ reg. write_command reg i2c_addr reg_addr) s1) in
      if is_negative r then (r, s1) else rest

  -- The two functions; `none` is a NULL handle.
  unfoldable pub i2c_read : Option S → ℕ → ℕ → ℤ × Option Bytes
  i2c_read none i2c_addr reg_addr = (error_invalid_param, none)
  i2c_read (some s) i2c_addr reg_addr = let (r, d, _) = read_dev s i2c_addr reg_addr in (r, d)

  unfoldable pub i2c_write : Option S → ℕ → ℕ → Bytes → ℤ
  i2c_write none i2c_addr reg_addr input = error_invalid_param
  i2c_write (some s) i2c_addr reg_addr input = (write_dev s i2c_addr reg_addr input).0
