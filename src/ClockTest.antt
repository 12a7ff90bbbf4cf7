-- ===== src/ClockTest.antt =====
-- src/fl2k_test.c, `ppm_test` and `fl2k_callback`: how fast the adapter takes samples, against the clock of the
-- computer. The clock is an argument, and a report is the numbers that it is made from.
pub mod Accounts
use osmo_fl2k.Prelude.{
  ℕ, ◌+◌, ◌-◌, ◌*◌, ◌%◌, ◌^◌, List, Option, none, some, Bool, true, false, ltb, if◌then◌else◌, ◌==◌,
  ◌>>=◌,
}
use osmo_fl2k.Device.{buf_len}
use osmo_fl2k.Worker.{DataInfo}

-- `struct time_generic`, as far as the code computes with it.
pub record Time : Type 0 where
  pub tv_sec : ℕ
  pub tv_nsec : ℕ

-- PPM_INIT_NO, PPM_INIT_DUMP, PPM_INIT_RUN
pub data PpmInit : Type 0 where
  init_no init_dump init_run : PpmInit

-- The static variables of `ppm_test`; `interval` is set before each use.
pub record Ppm : Type 0 where
  pub nsamples : ℕ
  pub nsamples_total : ℕ
  pub interval_total : ℕ
  pub ppm_recent : Time
  pub ppm_init : PpmInit

-- What `printf` gets: samples and nanoseconds, since the last report and in total.
pub record Report : Type 0 where
  pub samples : ℕ
  pub interval : ℕ
  pub samples_total : ℕ
  pub total : ℕ

-- PPM_DUMP_TIME
abbrev pub ppm_dump_time : ℕ
ppm_dump_time = 1

-- A difference and a sum of 64-bit words.
abbrev pub sub64 : ℕ → ℕ → ℕ
sub64 a b = (a + 2 ^ 64 - b) % 2 ^ 64

abbrev pub add64 : ℕ → ℕ → ℕ
add64 a b = (a + b) % 2 ^ 64

-- The part of `ppm_test` for PPM_INIT_RUN, with the variable `ppm_duration` that the option -p sets; `none` is the
-- division by an interval of 0.
unfoldable pub measure : ℕ → ℕ → Time → Ppm → Option (Ppm × Option Report)
measure ppm_duration len now s =
    let nsamples = add64 s.nsamples len in
    let seconds = sub64 now.tv_sec s.ppm_recent.tv_sec in
    let interval = add64 (seconds * 1000000000 % 2 ^ 64) (sub64 now.tv_nsec s.ppm_recent.tv_nsec) in
    let samples_total = add64 s.nsamples_total nsamples in
    let total = add64 s.interval_total interval in
    if ltb seconds ppm_duration
    then some (record s { nsamples = nsamples }, none)
    else if interval == 0
    then none
    else some (
      record s {
        nsamples = 0;
        nsamples_total = samples_total;
        interval_total = total;
        ppm_recent = now;
      },
      some (record {
        samples = nsamples;
        interval = interval;
        samples_total = samples_total;
        total = total;
      }),
    )

-- What `ppm_test` does in each state.
unfoldable pub ppm_at : PpmInit → ℕ → ℕ → Time → Ppm → Option (Ppm × Option Report)
ppm_at init_no ppm_duration len now s = some (
  record s {
    ppm_recent = record s.ppm_recent { tv_sec = now.tv_sec + ppm_dump_time };
    ppm_init = init_dump;
  },
  none,
)
ppm_at init_dump ppm_duration len now s =
    if ltb s.ppm_recent.tv_sec now.tv_sec
    then some (s, none)
    else some (record s { ppm_recent = now; ppm_init = init_run }, none)
ppm_at init_run ppm_duration len now s = measure ppm_duration len now s

unfoldable pub ppm_test : ℕ → ℕ → Time → Ppm → Option (Ppm × Option Report)
ppm_test ppm_duration len now s = ppm_at s.ppm_init ppm_duration len now s

-- The global variables that the callback changes.
pub record ClockTest : Type 0 where
  pub do_exit : Bool
  pub cb_cnt : ℕ
  pub ppm : Ppm

-- `fl2k_callback`, with what it leaves in the `fl2k_data_info_t`, and a report; `none` is a division by 0.
unfoldable pub test_callback :
    ℕ → List ℕ → Time → DataInfo → ClockTest → Option (ClockTest × DataInfo × Option Report)
test_callback ppm_duration buffer now info t =
    let measured : Option (ClockTest × DataInfo × Option Report) = do
      (ppm, report) ← ppm_test ppm_duration buf_len now t.ppm
      some (record t { ppm = ppm }, info, report)
    in if info.device_error
      then some (record t { do_exit = true }, info, none)
      else if ltb 20 t.cb_cnt
      then measured
      else some (record t { cb_cnt = t.cb_cnt + 1 }, record info { r_buf = some buffer }, none)
