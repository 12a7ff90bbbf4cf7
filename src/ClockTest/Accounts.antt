-- ===== src/ClockTest/Accounts.antt =====
-- What the totals of `ppm_test` stand for.
use mathlib.Core.Path.{subst}
use osmo_fl2k.Prelude.{
  ℕ, ◌+◌, ◌-◌, ◌*◌, ◌%◌, ◌^◌, ◌≤◌, ◌<◌, List, [], ◌∷◌, Option, some, none, true, false, ltb, ◌==◌,
  ◌>>=◌, ◌≡◌, refl, sym, arith, inl, inr, Bool-cases,
}
use osmo_fl2k.ClockTest.{
  Time, init_dump, init_run, Ppm, Report, sub64, add64, measure, ppm_at, ppm_test,
}

abbrev pub nanos : Time → ℕ
nanos t = t.tv_sec * 1000000000 + t.tv_nsec

-- A time of a clock that starts near 0.
pub record IsTime (t : Time) : Type 0 where
  pub nsec : t.tv_nsec < 1000000000
  pub soon : t.tv_sec < 2 ^ 32

-- While it runs: `count` samples came since the time `start`; those of the last report are in the totals, with the time
-- that they took.
pub record Accounts (start : Time) (count : ℕ) (s : Ppm) : Type 0 where
  pub runs : s.ppm_init ≡ init_run
  pub samples : s.nsamples_total + s.nsamples ≡ count
  pub times : s.interval_total + nanos start ≡ nanos s.ppm_recent
  pub recent : IsTime s.ppm_recent

-- The interval of a report is the time since the last one, also when its nanoseconds are fewer.
interval_spent :
    (now recent : Time)
    → IsTime now
    → IsTime recent
    → nanos recent ≤ nanos now
    → add64
          (sub64 now.tv_sec recent.tv_sec * 1000000000 % 2 ^ 64)
          (sub64 now.tv_nsec recent.tv_nsec)
        + nanos recent
      ≡ nanos now
interval_spent now recent t r later =
    let forth : recent.tv_sec ≤ now.tv_sec = omega (arith, t, r) in
    let seconds : sub64 now.tv_sec recent.tv_sec ≡ now.tv_sec - recent.tv_sec =
      omega (arith, t, r) in
    let whole : sub64 now.tv_sec recent.tv_sec * 1000000000 % 2 ^ 64
        ≡ (now.tv_sec - recent.tv_sec) * 1000000000 =
      omega (arith, t, r, seconds) in
    omega (arith, t, r, whole)

-- The interval of a report is not 0, since at least a second has passed.
interval_nonzero :
    (ppm_duration : ℕ) (now recent : Time)
    → 0 < ppm_duration
    → IsTime now
    → IsTime recent
    → nanos recent ≤ nanos now
    → ltb (sub64 now.tv_sec recent.tv_sec) ppm_duration ≡ false
    → (add64
          (sub64 now.tv_sec recent.tv_sec * 1000000000 % 2 ^ 64)
          (sub64 now.tv_nsec recent.tv_nsec)
        == 0)
      ≡ false
interval_nonzero ppm_duration now recent more t r later e =
    let spent = interval_spent now recent t r later in
    let forth : recent.tv_sec ≤ now.tv_sec = omega (arith, t, r) in
    let seconds : sub64 now.tv_sec recent.tv_sec ≡ now.tv_sec - recent.tv_sec =
      omega (arith, t, r) in
    let passed : recent.tv_sec < now.tv_sec = ground (arith, seconds, e) in
    let after : nanos recent < nanos now = omega (arith, t, r) in by_value _ spent after
  where
    by_value : (n : ℕ) → n + nanos recent ≡ nanos now → nanos recent < nanos now → (n == 0) ≡ false
    by_value n h l = ground arith

-- A call returns, and its account is kept.
pub record Accounted (start : Time) (count : ℕ) (r : Option (Ppm × Option Report)) : Type 0 where
  pub s' : Ppm
  pub report : Option Report
  pub returns : r ≡ some (s', report)
  pub accounts : Accounts start count s'

measure-Accounts :
    (ppm_duration len count : ℕ) (start now : Time) (s : Ppm)
    → 0 < ppm_duration
    → Accounts start count s
    → IsTime now
    → nanos s.ppm_recent ≤ nanos now
    → count + len < 2 ^ 64
    → Accounted start (count + len) (measure ppm_duration len now s)
unfolding measure
measure-Accounts ppm_duration len count start now s more a t later few =
    let seconds = sub64 now.tv_sec s.ppm_recent.tv_sec in
    let spent = interval_spent now s.ppm_recent t a.recent later in
    let interval = add64 (seconds * 1000000000 % 2 ^ 64) (sub64 now.tv_nsec s.ppm_recent.tv_nsec) in
    elim (Bool-cases (ltb seconds ppm_duration)) [
      | inl e ↦
          rw (measure, e)
            (record {
              s' = record s { nsamples = add64 s.nsamples len };
              report = none;
              returns = refl;
              accounts = record {
                runs = a.runs;
                samples = omega (arith, a);
                times = a.times;
                recent = a.recent;
              };
            })
      | inr e ↦
          let whole : (interval == 0) ≡ false =
            interval_nonzero ppm_duration now s.ppm_recent more t a.recent later e in
          rw (measure, e, whole)
            (record {
              s' = _;
              report = _;
              returns = refl;
              accounts = record {
                runs = a.runs;
                samples = omega (arith, a);
                times = omega (arith, spent, a.times);
                recent = t;
              };
            })
    ]

-- While it runs with a `ppm_duration` above 0, and the clock does not go back, `ppm_test` returns, and loses no sample and
-- no time: those since the start are in its totals and in the count since the last report; for times below 2 ^ 32
-- seconds, and less than 2 ^ 64 samples.
pub ppm_test-Accounts :
    (ppm_duration len count : ℕ) (start now : Time) (s : Ppm)
    → 0 < ppm_duration
    → Accounts start count s
    → IsTime now
    → nanos s.ppm_recent ≤ nanos now
    → count + len < 2 ^ 64
    → Accounted start (count + len) (ppm_test ppm_duration len now s)
unfolding ppm_test ppm_at
ppm_test-Accounts ppm_duration len count start now s more a t later few =
    subst (λ i. Accounted start (count + len) (ppm_at i ppm_duration len now s)) (sym a.runs)
      (measure-Accounts ppm_duration len count start now s more a t later few)

-- Calls of `ppm_test` at these times.
unfoldable pub ppm_tests : ℕ → ℕ → List Time → Ppm → Option Ppm
ppm_tests ppm_duration len [] s = some s
ppm_tests ppm_duration len (now ∷ later) s =
    ppm_test ppm_duration len now s >>= λ r. ppm_tests ppm_duration len later r.0

abbrev pub AllAfter : ℕ → List Time → Type 0
AllAfter sec [] = Unit
AllAfter sec (now ∷ later) = (sec < now.tv_sec) × AllAfter sec later

-- While the first samples are to be thrown out, the measurement never starts if no call comes before the end of that
-- time: calls at any times behind it change nothing.
pub ppm_tests_stuck :
    (ppm_duration len : ℕ) (times : List Time) (s : Ppm)
    → s.ppm_init ≡ init_dump
    → AllAfter s.ppm_recent.tv_sec times
    → ppm_tests ppm_duration len times s ≡ some s
unfolding ppm_tests ppm_test ppm_at
ppm_tests_stuck ppm_duration len [] s e after = refl
ppm_tests_stuck ppm_duration len (now ∷ later) s e after =
    let late : ltb s.ppm_recent.tv_sec now.tv_sec ≡ true = ground (arith, after.0) in
    let dumps : ppm_at init_dump ppm_duration len now s ≡ some (s, none) = rw (ppm_at, late) refl in
    let same : ppm_test ppm_duration len now s ≡ some (s, none) =
      subst (λ i. ppm_at i ppm_duration len now s ≡ some (s, none)) (sym e) dumps in
    rw (ppm_tests, same) (ppm_tests_stuck ppm_duration len later s e after.1)
