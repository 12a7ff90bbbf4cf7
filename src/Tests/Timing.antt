-- ===== src/Tests/Timing.antt =====
-- The clock test of src/fl2k_test.c.
use osmo_fl2k.Prelude.{ℕ, ◌+◌, refl, arith}
use osmo_fl2k.ClockTest.{Time, init_dump, init_run, Ppm, ppm_test}
use osmo_fl2k.ClockTest.Accounts.{Accounts, Accounted, ppm_test-Accounts}

abbrev at : ℕ → ℕ → Time
at sec nsec = record { tv_sec = sec; tv_nsec = nsec }

abbrev running : Ppm
running = record {
  nsamples = 3;
  nsamples_total = 4;
  interval_total = 10000000000;
  ppm_recent = at 17 900000000;
  ppm_init = init_run;
}

running-Accounts : Accounts (at 7 900000000) 7 running
running-Accounts = record {
  runs = refl;
  samples = refl;
  times = refl;
  recent = record { nsec = omega arith; soon = omega arith };
}

ppm_test-Accounts_example :
    Accounted (at 7 900000000) (7 + 5) (ppm_test 10 5 (at 28 100000000) running)
ppm_test-Accounts_example =
    ppm_test-Accounts 10 5 7 (at 7 900000000) (at 28 100000000) running (omega arith)
      running-Accounts (record { nsec = omega arith; soon = omega arith }) (omega arith)
      (omega arith)

abbrev dumping : Ppm
dumping = record running { ppm_init = init_dump }
