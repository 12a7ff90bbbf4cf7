-- ===== src/SampleRate/Fields.antt =====
-- The fields of the PLL register.
use osmo_fl2k.Prelude.{ℕ, ◌+◌, ◌*◌, ◌/◌, ◌^◌, ◌<◌, ◌≡◌, arith, bit_and_mask, bit_or_sum}
use osmo_fl2k.SampleRate.{pll_of_reg, reg_of}

reg_of_sum :
    (mult div frac : ℕ)
    → div < 64
    → frac < 16
    → reg_of mult div frac ≡ mult * 2 ^ 20 + frac * 2 ^ 16 + 0x6100 + div
unfolding reg_of
reg_of_sum mult div frac d f =
    let a = bit_or_sum 20 mult (frac * 2 ^ 16) (omega arith) in
    let a' : mult * 2 ^ 20 + frac * 2 ^ 16 ≡ (mult * 16 + frac) * 2 ^ 16 = omega arith in
    let b = bit_or_sum 16 (mult * 16 + frac) (0x60 * 2 ^ 8) (omega arith) in
    let b' : (mult * 16 + frac) * 2 ^ 16 + 0x60 * 2 ^ 8
        ≡ (mult * 2 ^ 7 + frac * 2 ^ 3 + 3) * 2 ^ 13 =
      omega arith in
    let c = bit_or_sum 13 (mult * 2 ^ 7 + frac * 2 ^ 3 + 3) (1 * 2 ^ 8) (omega arith) in
    let c' : (mult * 2 ^ 7 + frac * 2 ^ 3 + 3) * 2 ^ 13 + 1 * 2 ^ 8
        ≡ (mult * 2 ^ 12 + frac * 2 ^ 8 + 0x61) * 2 ^ 8 =
      omega arith in
    let e = bit_or_sum 8 (mult * 2 ^ 12 + frac * 2 ^ 8 + 0x61) div (omega arith) in
    rw (a, a', b, b', c, c', e) (omega arith)

-- `fl2k_reg_to_freq` reads from the register the settings that `fl2k_set_sample_rate` put there, with an output
-- divider of 1, if each of them fits its field.
pub pll_of_reg-reg_of :
    (mult div frac : ℕ)
    → mult < 16
    → div < 64
    → frac < 16
    → pll_of_reg (reg_of mult div frac)
      ≡ record { div = div; out_div = 1; frac = frac; mult = mult }
unfolding pll_of_reg
pll_of_reg-reg_of mult div frac m d f =
    let reg = reg_of mult div frac in
    let sum = reg_of_sum mult div frac d f in
    let a = bit_and_mask 6 reg in
    let b = bit_and_mask 4 (reg / 2 ^ 8) in
    let c = bit_and_mask 4 (reg / 2 ^ 16) in
    let e = bit_and_mask 4 (reg / 2 ^ 20) in ground (arith, sum, a, b, c, e)
