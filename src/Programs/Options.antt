-- ===== src/Programs/Options.antt =====
-- src/fl2k_fm.c: what the tests of the options leave.
use native.Mathlib.Nat.{div-lt_iff_lt-mul}
use osmo_fl2k.Prelude.{
  ℕ, ◌+◌, ◌*◌, ◌/◌, ◌^◌, ◌≤◌, ◌<◌, some, true, false, ◌==◌, is_negative, ◌≡◌, refl, ap, sym, ◌∙◌,
  arith, ◌⊎◌, inl, inr, Bool-cases, Option-cases,
}
use osmo_fl2k.Device.{buf_len}
use osmo_fl2k.Programs.Fm.{
  FmOptions, rds_modulator_rate, check_rds, check_stereo, check_fm, carrier_per_signal,
}

check_rds-rate :
    (o o' : FmOptions)
    → check_rds o ≡ some o'
    → (o'.rds_flag ≡ o.rds_flag)
      × (o'.stereo_flag ≡ o.stereo_flag)
      × (o.rds_flag ≡ true → o'.input_freq ≡ rds_modulator_rate)
check_rds-rate o o' h = (ground arith, ground arith, ground arith)

check_stereo-rate :
    (o o' : FmOptions)
    → check_stereo o ≡ some o'
    → (o ≡ o') × (o.stereo_flag ≡ true → rds_modulator_rate / 2 ≤ o'.input_freq)
check_stereo-rate o o' h = (ground arith, ground arith)

check_fm-rate :
    (o o' : FmOptions)
    → check_fm o ≡ some o'
    → (o'.rds_flag ≡ o.rds_flag)
      × (o'.stereo_flag ≡ o.stereo_flag)
      × (o.rds_flag ≡ true → o'.input_freq ≡ rds_modulator_rate)
      × (o.stereo_flag ≡ true → rds_modulator_rate / 2 ≤ o'.input_freq)
unfolding check_fm
check_fm-rate o o' h = elim (Bool-cases (is_negative o.dev_index)) [
  | inl e ↦ absurd (ground (arith, e, h))
  | inr e ↦ elim (Option-cases (check_rds o)) [
    | inl n ↦ absurd (ground (arith, e, n, h))
    | inr (o1, r) ↦
        let checked : check_stereo o1 ≡ some o' = ground (arith, e, r, h) in
        let (same, stereo) = check_stereo-rate o1 o' checked in
        let (rds_flag, stereo_flag, rate) = check_rds-rate o o1 r in
        (
          ap (λ (p : FmOptions). p.rds_flag) (sym same) ∙ rds_flag,
          ap (λ (p : FmOptions). p.stereo_flag) (sym same) ∙ stereo_flag,
          λ is_rds. ap (λ (p : FmOptions). p.input_freq) (sym same) ∙ rate is_rds,
          λ is_stereo. stereo (stereo_flag ∙ is_stereo),
        )
  ]
]

-- The quotient of a `uint32_t` by a rate for stereo or more.
quotient_fits : (actual f : ℕ) → actual < 2 ^ 32 → 114000 ≤ f → actual / f ≤ buf_len
quotient_fits actual f h l =
    let some_rate : 0 < f = omega (arith, l) in
    let below : actual < (buf_len + 1) * f = omega (arith, h, l) in
    let quotient : actual / f < buf_len + 1 = (div-lt_iff_lt-mul some_rate).1 below in
    omega (arith, quotient)

-- With RDS the tests of the options let pass a rate of 228 kHz only, which is set if no other one is given, with stereo
-- none below 114 kHz. So with either of them the number of carrier samples for a signal sample is well defined
-- and at most the length of a buffer, whatever rate the device has: what the worker needs to lose no sample.
pub check_fm-fits :
    (o o' : FmOptions) (actual : ℕ)
    → check_fm o ≡ some o'
    → actual < 2 ^ 32
    → (o.rds_flag ≡ true) ⊎ (o.stereo_flag ≡ true)
    → (o.rds_flag ≡ true → o'.input_freq ≡ rds_modulator_rate)
      × (rds_modulator_rate / 2 ≤ o'.input_freq)
      × ((n : ℕ) × (carrier_per_signal actual o'.input_freq ≡ some n) × (n ≤ buf_len))
unfolding carrier_per_signal
check_fm-fits o o' actual h small flags =
    let (_, _, rate, stereo) = check_fm-rate o o' h in
    let high : rds_modulator_rate / 2 ≤ o'.input_freq = elim flags [
      | inl e ↦ omega (arith, rate e)
      | inr e ↦ stereo e
    ] in
    let some_rate : (o'.input_freq == 0) ≡ false = ground arith in
    (
      rate,
      high,
      (
        actual / o'.input_freq,
        rw (carrier_per_signal, some_rate) refl,
        quotient_fits actual o'.input_freq small high,
      ),
    )
