-- ===== src/Registers/Codec.antt =====
-- The byte order of a register.
use osmo_fl2k.Prelude.{ℕ, ◌+◌, ◌*◌, ◌/◌, ◌%◌, ◌^◌, ◌<◌, ◌≡◌, arith, bit_and_mask, bit_or_sum}
use osmo_fl2k.Registers.{Bytes, encode, decode}

pub record IsBytes (d : Bytes) : Type 0 where
  pub l0 : d.b0 < 2 ^ 8
  pub l1 : d.b1 < 2 ^ 8
  pub l2 : d.b2 < 2 ^ 8
  pub l3 : d.b3 < 2 ^ 8

-- A register is the sum of its bytes.
pub decode_sum :
    (d : Bytes) → IsBytes d → decode d ≡ d.b3 * 2 ^ 24 + d.b2 * 2 ^ 16 + d.b1 * 2 ^ 8 + d.b0
unfolding decode
decode_sum d v =
    let top = bit_or_sum 24 d.b3 (d.b2 * 2 ^ 16) (omega (arith, v)) in
    let m : d.b3 * 2 ^ 24 + d.b2 * 2 ^ 16 ≡ (d.b3 * 2 ^ 8 + d.b2) * 2 ^ 16 = omega arith in
    let mid = bit_or_sum 16 (d.b3 * 2 ^ 8 + d.b2) (d.b1 * 2 ^ 8) (omega (arith, v)) in
    let n : (d.b3 * 2 ^ 8 + d.b2) * 2 ^ 16 + d.b1 * 2 ^ 8
        ≡ (d.b3 * 2 ^ 16 + d.b2 * 2 ^ 8 + d.b1) * 2 ^ 8 =
      omega arith in
    let low = bit_or_sum 8 (d.b3 * 2 ^ 16 + d.b2 * 2 ^ 8 + d.b1) d.b0 (omega (arith, v)) in
    rw (top, m, mid, n, low) (omega arith)

encode_digits :
    (val : ℕ)
    → ((encode val).b0 ≡ val % 2 ^ 8)
      × ((encode val).b1 ≡ val / 2 ^ 8 % 2 ^ 8)
      × ((encode val).b2 ≡ val / 2 ^ 16 % 2 ^ 8)
      × ((encode val).b3 ≡ val / 2 ^ 24 % 2 ^ 8)
unfolding encode
encode_digits val = (
  bit_and_mask 8 val,
  bit_and_mask 8 (val / 2 ^ 8),
  bit_and_mask 8 (val / 2 ^ 16),
  bit_and_mask 8 (val / 2 ^ 24),
)

pub encode-IsBytes : (val : ℕ) → IsBytes (encode val)
encode-IsBytes val = omega (arith, encode_digits val)

-- A value of 32 bits that is encoded into four bytes is decoded from them again.
pub decode-encode : (val : ℕ) → val < 2 ^ 32 → decode (encode val) ≡ val
decode-encode val h = omega (arith, decode_sum (encode val) (encode-IsBytes val), encode_digits val)

-- Four numbers below 256 that are decoded to a value are encoded from it again.
pub encode-decode : (d : Bytes) → IsBytes d → encode (decode d) ≡ d
encode-decode d v = ground (arith, decode_sum d v, encode_digits (decode d))
