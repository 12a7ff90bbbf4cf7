-- ===== src/I2c/Results.antt =====
-- What the two I2C functions return.
use osmo_fl2k.Prelude.{ℕ, ◌<◌, some, true, false, ◌≡◌, refl, ◌≢◌, ◌⊎◌, arith, ℤ, pos, is_negative}
use osmo_fl2k.Device.{success}
use osmo_fl2k.Registers.{Bytes, Bus, read_reg, write_reg}
use osmo_fl2k.I2c.{
  Polled, failed, complete, timed_out, is_complete, has_errors, poll, run_command, read_dev,
  write_dev, read_result, write_result, read_command, write_command, i2c_read, i2c_write,
}
use osmo_fl2k.I2c.Poll.{Outcome, ends, times_out, poll-Outcome, after}

-- libusb reports a number of bytes or a negative error, and these transfers are of four bytes.
abbrev pub IsWhole : ℤ → Type 0
IsWhole r = (r ≡ pos 4) ⊎ (is_negative r ≡ true)

module _ {S : Type 0} (bus : Bus S) where
  -- A polling that fails does so with a negative result.
  failed-poll : (n : ℕ) (s : S) (r : ℤ) → (poll bus n s).0 ≡ failed r → is_negative r ≡ true
  failed-poll n s r h = by_outcome (poll-Outcome bus n s)
    where
      by_outcome : Outcome bus n s (poll bus n s) → is_negative r ≡ true
      by_outcome (ends k l f e out) = ground (arith, out)
      by_outcome (times_out f out) = absurd (ground (arith, out))

  failed-run_command :
      (command : ℕ → ℕ) (s : S) (r : ℤ)
      → (run_command bus command s).0 ≡ failed r
      → is_negative r ≡ true
  unfolding run_command
  failed-run_command command s r h =
      let (q, reg, s1) = read_reg bus s 0x8020 in
      ground (arith, failed-poll 10 (write_reg bus s1 0x8020 (command reg)).1 r)

  -- `fl2k_i2c_read` never returns FL2K_SUCCESS, if libusb transfers all four bytes or fails: after a
  -- read that succeeds the result is the number of bytes.
  pub i2c_read-ne-success :
      (s : S) (i2c_addr reg_addr : ℕ)
      → ((t : S) → IsWhole (bus.control_in t 0x8024).0)
      → (i2c_read bus (some s) i2c_addr reg_addr).0 ≢ success
  unfolding i2c_read read_dev read_result
  i2c_read-ne-success s i2c_addr reg_addr whole =
      by_run (run_command bus (λ reg. read_command reg i2c_addr reg_addr) s) refl
    where
      by_run :
          (p : Polled × S)
          → run_command bus (λ reg. read_command reg i2c_addr reg_addr) s ≡ p
          → (i2c_read bus (some s) i2c_addr reg_addr).0 ≢ success
      by_run (failed r, s') e h =
          ground (arith, failed-run_command (λ reg. read_command reg i2c_addr reg_addr) s r)
      by_run (timed_out, s') e h = ground arith
      by_run (complete reg, s') e h = ground (arith, whole s')

  completed_by :
      (n : ℕ) (s : S) (reg : ℕ)
      → (poll bus n s).0 ≡ complete reg
      → (k : ℕ) × (k < n)
        × ((read_reg bus (after bus k s) 0x8020).1 ≡ reg)
        × (is_complete reg ≡ true)
  completed_by n s reg h = by_outcome (poll-Outcome bus n s)
    where
      by_outcome :
          Outcome bus n s (poll bus n s)
          → (k : ℕ) × (k < n)
            × ((read_reg bus (after bus k s) 0x8020).1 ≡ reg)
            × (is_complete reg ≡ true)
      by_outcome (ends k l f e out) =
          let seen : (read_reg bus (after bus k s) 0x8020).1 ≡ reg = ground (arith, out) in
          (k, l, seen, ground (arith, out, e, seen))
      by_outcome (times_out f out) = absurd (ground (arith, out))

  -- The states of the bus in a write: after the data, after the register is read, and after the
  -- command is sent.
  abbrev data_step : S → Bytes → ℤ × S
  data_step s input = bus.control_out s 0x8028 input

  abbrev look_step : S → Bytes → ℤ × ℕ × S
  look_step s input = read_reg bus (data_step s input).1 0x8020

  abbrev command_step : S → Bytes → ℕ → ℕ → ℤ × S
  command_step s input i2c_addr reg_addr =
      write_reg bus (look_step s input).2 0x8020
        (write_command (look_step s input).1 i2c_addr reg_addr)

  -- A write that returns FL2K_SUCCESS has sent the data, read the register and sent the command
  -- without an error, and one of ten reads showed the operation complete with no error bit.
  pub i2c_write-success :
      (s : S) (i2c_addr reg_addr : ℕ) (input : Bytes)
      → i2c_write bus (some s) i2c_addr reg_addr input ≡ success
      → (is_negative (data_step s input).0 ≡ false)
        × (is_negative (look_step s input).0 ≡ false)
        × (is_negative (command_step s input i2c_addr reg_addr).0 ≡ false)
        × (k reg : ℕ) × (k < 10)
        × ((read_reg bus (after bus k (command_step s input i2c_addr reg_addr).1) 0x8020).1 ≡ reg)
        × (is_complete reg ≡ true)
        × (has_errors reg ≡ false)
  unfolding i2c_write write_dev write_result run_command
  i2c_write-success s i2c_addr reg_addr input h = by_poll (poll bus 10 s3).0 refl
    where
      s3 : S
      s3 = (command_step s input i2c_addr reg_addr).1

      by_poll :
          (p : Polled)
          → (poll bus 10 s3).0 ≡ p
          → (is_negative (data_step s input).0 ≡ false)
            × (is_negative (look_step s input).0 ≡ false)
            × (is_negative (command_step s input i2c_addr reg_addr).0 ≡ false)
            × (k reg : ℕ) × (k < 10)
            × ((read_reg bus (after bus k s3) 0x8020).1 ≡ reg)
            × (is_complete reg ≡ true)
            × (has_errors reg ≡ false)
      by_poll (failed r) e = absurd (ground (arith, failed-poll 10 s3 r))
      by_poll timed_out e = absurd (ground arith)
      by_poll (complete reg) e =
          let (k, l, seen, done) = completed_by 10 s3 reg e in
          (ground arith, ground arith, ground arith, k, reg, l, seen, done, ground arith)
