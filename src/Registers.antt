-- ===== src/Registers.antt =====
-- src/libosmo-fl2k.c, `fl2k_read_reg`, `fl2k_write_reg` and `fl2k_init_device`: 32-bit registers over
-- USB control transfers. libusb is a parameter.
pub mod Codec
use osmo_fl2k.Prelude.{ℕ, ◌*◌, ◌/◌, ◌^◌, ◌≡◌, List, [], ◌∷◌, Option, none, some, ℤ, bit_and, bit_or}
use osmo_fl2k.Device.{success, error_invalid_param}

-- Four bytes, lowest first.
pub record Bytes : Type 0 where
  pub b0 : ℕ
  pub b1 : ℕ
  pub b2 : ℕ
  pub b3 : ℕ

-- `libusb_control_transfer` on a device in state `S`: what it returns, and, for a transfer from the
-- device, the contents of the caller's buffer afterwards.
pub record Bus (S : Type 0) : Type 0 where
  pub control_in : S → ℕ → ℤ × Bytes × S
  pub control_out : S → ℕ → Bytes → ℤ × S

-- `(data[3] << 24) | (data[2] << 16) | (data[1] << 8) | data[0]`
unfoldable pub decode : Bytes → ℕ
decode d = bit_or (bit_or (bit_or (d.b3 * 2 ^ 24) (d.b2 * 2 ^ 16)) (d.b1 * 2 ^ 8)) d.b0

-- The bytes that `fl2k_write_reg` sends.
unfoldable pub encode : ℕ → Bytes
encode val = record {
  b0 = bit_and val 0xff;
  b1 = bit_and (val / 2 ^ 8) 0xff;
  b2 = bit_and (val / 2 ^ 16) 0xff;
  b3 = bit_and (val / 2 ^ 24) 0xff;
}

module _ {S : Type 0} (bus : Bus S) where
  -- `fl2k_read_reg`: its result and `*val`. A short read is only reported on stderr.
  unfoldable pub read_reg : S → ℕ → ℤ × ℕ × S
  read_reg s reg = let (r, d, s') = bus.control_in s reg in (r, decode d, s')

  unfoldable pub write_reg : S → ℕ → ℕ → ℤ × S
  write_reg s reg val = bus.control_out s reg (encode val)

  -- Calls of `fl2k_write_reg` in a row, their results unused.
  unfoldable pub write_all : S → List (ℕ × ℕ) → S
  write_all s [] = s
  write_all s ((reg, val) ∷ rest) = write_all (write_reg s reg val).1 rest

-- The registers that `fl2k_init_device` writes, in its order.
abbrev pub init_writes : List (ℕ × ℕ)
init_writes =
    (0x8020, 0xdf0000cc)
    ∷ (0x802c, 0x00416f3f)
    ∷ (0x8048, 0x7ffb8004)
    ∷ (0x803c, 0xd701004d)
    ∷ (0x8004, 0x0000031c)
    ∷ (0x8004, 0x0010039d)
    ∷ (0x8008, 0x07800898)
    ∷ (0x801c, 0x00000000)
    ∷ (0x0070, 0x04186085)
    ∷ (0x8008, 0xfeff0780)
    ∷ (0x800c, 0x0000f001)
    ∷ (0x8010, 0x0400042a)
    ∷ (0x8014, 0x0010002d)
    ∷ (0x8004, 0x00000002)
    ∷ []

-- `fl2k_init_device` on a device handle
unfoldable pub init_device : {S : Type 0} → Bus S → S → ℤ × S
init_device bus s = (success, write_all bus s init_writes)

-- `fl2k_deinit_device`; `none` is NULL.
unfoldable pub deinit_device : {S : Type 0} → Option S → ℤ
deinit_device none = error_invalid_param
deinit_device (some s) = success
