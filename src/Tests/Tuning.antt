-- ===== src/Tests/Tuning.antt =====
-- The sample rate of src/libosmo-fl2k.c, with numbers in place of floating-point ones.
use osmo_fl2k.Prelude.{ℕ, ◌+◌, ◌-◌, ◌*◌, ◌/◌, ◌%◌, ◌^◌, true, ltb, ◌≡◌, refl, arith}
use osmo_fl2k.SampleRate.{Floats, pll_of_reg, reg_of, clock_of, reg_to_freq, error_of, search}
use osmo_fl2k.SampleRate.Closest.{Tried, Ordered, Chosen, NotLess, search-Closest}

-- Numbers that are rounded down.
abbrev pub whole : Floats
whole = record {
  Float = ℕ;
  Double = ℕ;
  float_of_int = λ n. n;
  float_of_double = λ n. n;
  float_mul = λ a b. a * b;
  float_div = λ a b. a / b;
  float_abs = λ a. a;
  double_of_int = λ n. n;
  double_of_float = λ n. n;
  double_add = λ a b. a + b;
  double_sub = λ a b. a - b;
  double_mul = λ a b. a * b;
  double_div = λ a b. a / b;
  double_lt = ltb;
  u32_of_double = λ n. n % 2 ^ 32;
}

whole-Ordered : Ordered whole
whole-Ordered = record { strict = λ a b e. ground arith; below = λ a b c e e'. ground arith }

abbrev target : ℕ
target = 15000000

near : ltb (error_of whole target (reg_of 6 63 1)) (10 ^ 20) ≡ true
unfolding error_of reg_to_freq clock_of pll_of_reg reg_of
near = refl

search-Closest_example :
    Chosen whole whole-Ordered target (search whole (10 ^ 20) target)
    × ((mult div frac : ℕ)
        → Tried mult div frac
        → NotLess whole whole-Ordered target
            (error_of whole target (reg_of mult div frac))
            (search whole (10 ^ 20) target))
search-Closest_example = search-Closest whole whole-Ordered target (10 ^ 20) near
