-- ===== src/SampleRate.antt =====
-- src/libosmo-fl2k.c, `fl2k_reg_to_freq`, `fl2k_set_sample_rate` and `fl2k_get_sample_rate`: the search
-- for the setting of the PLL whose clock is the closest one. C's floating-point numbers are a
-- parameter, and so is libusb.
pub mod Closest
pub mod Fields
use osmo_fl2k.Prelude.{
  ℕ, zero, suc, ◌+◌, ◌-◌, ◌*◌, ◌/◌, ◌%◌, ◌^◌, Option, none, some, Bool, if◌then◌else◌, ℤ, bit_and,
  bit_or,
}
use osmo_fl2k.Device.{error_invalid_param}
use osmo_fl2k.Registers.{Bus, write_reg}

-- The operations on `float` and `double` that the code uses.
pub record Floats : Type 1 where
  pub Float : Type 0
  pub Double : Type 0
  pub float_of_int : ℕ → Float
  pub float_of_double : Double → Float
  pub float_mul : Float → Float → Float
  pub float_div : Float → Float → Float
  pub float_abs : Float → Float
  pub double_of_int : ℕ → Double
  pub double_of_float : Float → Double
  pub double_add : Double → Double → Double
  pub double_sub : Double → Double → Double
  pub double_mul : Double → Double → Double
  pub double_div : Double → Double → Double
  pub double_lt : Double → Double → Bool
  pub u32_of_double : Double → ℕ

-- The settings in a register: `div`, `out_div`, `frac` and `mult` of `fl2k_reg_to_freq`.
pub record Pll : Type 0 where
  pub div : ℕ
  pub out_div : ℕ
  pub frac : ℕ
  pub mult : ℕ

unfoldable pub pll_of_reg : ℕ → Pll
pll_of_reg reg = record {
  div = bit_and reg 0x3f;
  out_div = bit_and (reg / 2 ^ 8) 0xf;
  frac = bit_and (reg / 2 ^ 16) 0xf;
  mult = bit_and (reg / 2 ^ 20) 0xf;
}

-- `(mult << 20) | (frac << 16) | (0x60 << 8) | (out_div << 8) | div`, with `out_div` 1
unfoldable pub reg_of : ℕ → ℕ → ℕ → ℕ
reg_of mult div frac =
    bit_or (bit_or (bit_or (bit_or (mult * 2 ^ 20) (frac * 2 ^ 16)) (0x60 * 2 ^ 8)) (1 * 2 ^ 8)) div

abbrev pub pll_clock : ℕ
pll_clock = 160000000

module _ (fl : Floats) where
  open fl use {
    Double, float_of_int, float_of_double, float_mul, float_div, float_abs, double_of_int,
    double_of_float, double_add, double_sub, double_mul, double_div, double_lt, u32_of_double,
  }

  unfoldable pub clock_of : Pll → Double
  clock_of p =
      let sample_clock = double_of_int (pll_clock * p.mult % 2 ^ 32 / p.div) in
      let offs_div =
        double_of_float
          (float_mul (float_div (float_of_int pll_clock) (float_of_int 5)) (float_of_int p.mult)) in
      let offset =
        double_mul (double_div sample_clock (double_div offs_div (double_of_int 2)))
          (double_of_float (float_of_int 1000000)) in
      double_div (double_add sample_clock (double_of_int (u32_of_double offset * p.frac % 2 ^ 32)))
        (double_of_int p.out_div)

  unfoldable pub reg_to_freq : ℕ → Double
  reg_to_freq reg = clock_of (pll_of_reg reg)

  -- `fabsf(error)`
  unfoldable pub error_of : ℕ → ℕ → Double
  error_of target reg =
      double_of_float
        (float_abs (float_of_double (double_sub (reg_to_freq reg) (double_of_int target))))

  -- `result_reg` and `last_error`
  pub record Best : Type 0 where
    pub result_reg : ℕ
    pub last_error : Double

  unfoldable pub consider : ℕ → ℕ → Best → Best
  consider target reg b =
      if double_lt (error_of target reg) b.last_error
      then record { result_reg = reg; last_error = error_of target reg }
      else b

  -- `for (frac = 1; frac <= 15; frac++)`, with `left` rounds left
  unfoldable pub frac_loop : ℕ → ℕ → ℕ → ℕ → Best → Best
  frac_loop target mult div zero b = b
  frac_loop target mult div (suc left) b =
      frac_loop target mult div left (consider target (reg_of mult div (15 - left)) b)

  -- `for (div = 63; div > 1; div--)`, with `left` rounds left
  unfoldable pub div_loop : ℕ → ℕ → ℕ → Best → Best
  div_loop target mult zero b = b
  div_loop target mult (suc left) b =
      div_loop target mult left (frac_loop target mult (left + 2) 15 b)

  -- `for (mult = 6; mult >= 3; mult--)`, with `left` rounds left
  unfoldable pub mult_loop : ℕ → ℕ → Best → Best
  mult_loop target zero b = b
  mult_loop target (suc left) b = mult_loop target left (div_loop target (left + 3) 62 b)

  -- The search; `start` is `1e20f`.
  unfoldable pub search : Double → ℕ → Best
  search start target = mult_loop target 4 (record { result_reg = 0; last_error = start })

  -- The device's `rate`, behind the call, with what the write of the register does; `none` is a
  -- device that is NULL.
  unfoldable pub set_sample_rate :
      {S : Type 0} → Bus S → Double → Option S → ℕ → ℤ × Option (S × Double)
  set_sample_rate bus start none target = (error_invalid_param, none)
  set_sample_rate bus start (some s) target =
      let reg = (search start target).result_reg in
      let (r, s') = write_reg bus s 0x802c reg in (r, some (s', reg_to_freq reg))

  abbrev pub get_sample_rate : Option Double → ℕ
  get_sample_rate none = 0
  get_sample_rate (some rate) = u32_of_double rate
