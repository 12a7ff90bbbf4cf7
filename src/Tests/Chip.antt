-- ===== src/Tests/Chip.antt =====
-- The registers and the I2C bus of src/libosmo-fl2k.c on a device that completes at the third look.
use osmo_fl2k.Prelude.{ℕ, ◌+◌, ◌==◌, some, none, arith, ◌≡◌, refl, pos, if◌then◌else◌}
use osmo_fl2k.Device.{success}
use osmo_fl2k.Registers.{Bytes, Bus, decode, read_reg, write_reg}
use osmo_fl2k.I2c.{
  poll, run_command, read_dev, write_dev, read_result, write_result, i2c_read, i2c_write,
  read_command,
}
use osmo_fl2k.I2c.Command.{Command}
use osmo_fl2k.I2c.Commanded.{looked, Answer}
use osmo_fl2k.I2c.Answers.{read_data, Written, i2c-Answer}

abbrev pub zero_bytes : Bytes
zero_bytes = record { b0 = 0; b1 = 0; b2 = 0; b3 = 0 }

abbrev pub done_bytes : Bytes
done_bytes = record { b0 = 0; b1 = 0; b2 = 0; b3 = 128 }

-- A device that counts the transfers made, and shows completion from the fifth on.
abbrev pub device : Bus ℕ
device = record {
  control_in = λ n reg. (pos 4, if n == 4 then done_bytes else zero_bytes, n + 1);
  control_out = λ n reg bytes. (pos 4, n + 1);
}

abbrev edid : Bytes
edid = record { b0 = 0x12; b1 = 0x34; b2 = 0x56; b3 = 0x78 }

poll_ends : (poll device 10 2).1 ≡ 5
unfolding poll read_reg decode
poll_ends = refl

write_succeeds : i2c_write device (some 0) 0x50 0x10 edid ≡ success
unfolding i2c_write write_dev write_result run_command poll read_reg write_reg decode
write_succeeds = refl

read_returns_four : i2c_read device (some 1) 0x50 0x10 ≡ (pos 4, some zero_bytes)
unfolding i2c_read read_dev read_result run_command poll read_reg write_reg decode
read_returns_four = refl

i2c-Answer_example :
    Command (looked device 1).1 0x50 0x10 1 (read_command (looked device 1).1 0x50 0x10)
    × Answer device
        (λ reg. read_command reg 0x50 0x10)
        1
        (λ r. (r, none))
        (read_data device)
        (i2c_read device (some 1) 0x50 0x10)
    × Written device 1 0x50 0x10 edid (i2c_write device (some 1) 0x50 0x10 edid)
i2c-Answer_example = i2c-Answer device 1 0x50 0x10 edid (omega arith)
