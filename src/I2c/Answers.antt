-- ===== src/I2c/Answers.antt =====
-- src/libosmo-fl2k.c: calls of `fl2k_i2c_read` and `fl2k_i2c_write`, from the first transfer to the last.
use osmo_fl2k.Prelude.{
  ℕ, ◌^◌, ◌<◌, Option, none, some, true, false, ◌≡◌, refl, inl, inr, ℤ, is_negative, Bool-cases,
}
use osmo_fl2k.Device.{success}
use osmo_fl2k.Registers.{Bytes, Bus}
use osmo_fl2k.I2c.{
  read_dev, write_dev, read_result, write_result, read_command, write_command, i2c_read, i2c_write,
}
use osmo_fl2k.I2c.Command.{Command, read_command-Command, write_command-Command}
use osmo_fl2k.I2c.Commanded.{looked, Answer, run_command-Answer}

module _ {S : Type 0} (bus : Bus S) where
  -- The bytes of the transfer that ends a read.
  abbrev pub read_data : S → ℤ × Option Bytes
  read_data s = let (r, d, _) = bus.control_in s 0x8024 in (r, some d)

  read_dev-Answer :
      (s : S) (i2c_addr reg_addr : ℕ)
      → Answer bus
          (λ reg. read_command reg i2c_addr reg_addr)
          s
          (λ r. (r, none))
          read_data
          (i2c_read bus (some s) i2c_addr reg_addr)
  unfolding i2c_read read_dev read_result
  read_dev-Answer s i2c_addr reg_addr =
      run_command-Answer bus (λ reg. read_command reg i2c_addr reg_addr) s (λ r. (r, none))
        read_data (λ p. let (r, d, _) = read_result bus p in (r, d))
        (record {
          of_failed = λ r s'. refl;
          of_timed_out = λ s'. refl;
          of_errors = λ reg s' h. rw h refl;
          of_none = λ reg s' h. rw h refl;
        })

  -- The transfer of the data, which comes first in a write.
  abbrev sent : S → Bytes → ℤ × S
  sent s input = bus.control_out s 0x8028 input

  write_dev-Answer :
      (s : S) (i2c_addr reg_addr : ℕ) (input : Bytes)
      → is_negative (sent s input).0 ≡ false
      → Answer bus
          (λ reg. write_command reg i2c_addr reg_addr)
          (sent s input).1
          (λ r. r)
          (λ s'. success)
          (i2c_write bus (some s) i2c_addr reg_addr input)
  unfolding i2c_write write_dev write_result
  write_dev-Answer s i2c_addr reg_addr input a =
      rw (i2c_write, write_dev, a)
        (run_command-Answer bus (λ reg. write_command reg i2c_addr reg_addr) (sent s input).1
          (λ r. r) (λ s'. success) (λ p. (write_result bus p).0)
          (record {
            of_failed = λ r s'. refl;
            of_timed_out = λ s'. refl;
            of_errors = λ reg s' h. rw h refl;
            of_none = λ reg s' h. rw h refl;
          }))

  write_dev-unsent :
      (s : S) (i2c_addr reg_addr : ℕ) (input : Bytes)
      → is_negative (sent s input).0 ≡ true
      → i2c_write bus (some s) i2c_addr reg_addr input ≡ (sent s input).0
  unfolding i2c_write write_dev
  write_dev-unsent s i2c_addr reg_addr input a = rw (i2c_write, write_dev, a) refl

  -- A write, whose data may not arrive.
  pub data Written (s : S) (i2c_addr reg_addr : ℕ) (input : Bytes) (out : ℤ) : Type 0 where
    unsent :
        is_negative (sent s input).0 ≡ true
        → out ≡ (sent s input).0
        → Written s i2c_addr reg_addr input out
    sends :
        is_negative (sent s input).0 ≡ false
        → Command
            (looked bus (sent s input).1).1
            i2c_addr
            reg_addr
            0
            (write_command (looked bus (sent s input).1).1 i2c_addr reg_addr)
        → Answer bus
            (λ reg. write_command reg i2c_addr reg_addr)
            (sent s input).1
            (λ r. r)
            (λ s'. success)
            out
        → Written s i2c_addr reg_addr input out

  -- What `fl2k_i2c_read` and `fl2k_i2c_write` return, for a register address of 8 bits. The write sends its data
  -- first, and returns the result if that fails. Then both read the register and send a command word, made from its
  -- contents, that names the slave, its register and the direction, and return the result of what fails of these. Else
  -- the first of ten replies that fails or shows the operation complete decides: they return the result of a reply
  -- that fails, FL2K_ERROR_NOT_FOUND for one with an error bit, and for one without it the read returns the result
  -- and the bytes of the transfer that follows, the write FL2K_SUCCESS. If no reply of the ten does, they return
  -- FL2K_ERROR_TIMEOUT. The read gives no bytes in the other cases.
  pub i2c-Answer :
      (s : S) (i2c_addr reg_addr : ℕ) (input : Bytes)
      → reg_addr < 2 ^ 8
      → Command
          (looked bus s).1
          i2c_addr
          reg_addr
          1
          (read_command (looked bus s).1 i2c_addr reg_addr)
        × Answer bus
            (λ reg. read_command reg i2c_addr reg_addr)
            s
            (λ r. (r, none))
            read_data
            (i2c_read bus (some s) i2c_addr reg_addr)
        × Written s i2c_addr reg_addr input (i2c_write bus (some s) i2c_addr reg_addr input)
  i2c-Answer s i2c_addr reg_addr input small = (
    read_command-Command (looked bus s).1 i2c_addr reg_addr small,
    read_dev-Answer s i2c_addr reg_addr,
    elim (Bool-cases (is_negative (sent s input).0)) [
      | inl a ↦ unsent a (write_dev-unsent s i2c_addr reg_addr input a)
      | inr a ↦
          sends a (write_command-Command (looked bus (sent s input).1).1 i2c_addr reg_addr small)
            (write_dev-Answer s i2c_addr reg_addr input a)
    ],
  )
