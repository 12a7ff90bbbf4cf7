-- ===== src/Programs/Test.antt =====
-- `main` of src/fl2k_test.c.
use osmo_fl2k.Prelude.{
  ℕ, zero, suc, ◌/◌, List, [], ◌∷◌, ◌++◌, Option, none, some, if◌then◌else◌, pos,
}
use osmo_fl2k.Device.{buf_len, Dev}
use osmo_fl2k.Programs.{
  allocates, frees, opens, closes, Ended, returns, exits, waits, World, wait_exit, close_returns,
  start_calls,
}

pub data TestOption : Type 0 where
  device rate duration : ℕ → TestOption
  no_duration : TestOption
  help other : TestOption

pub record TestOptions : Type 0 where
  pub dev_index : ℕ
  pub samp_rate : ℕ
  pub ppm_duration : ℕ

-- The loop over the options; `none` is the exit of `usage`.
unfoldable pub parse_test : List TestOption → TestOptions → Option TestOptions
parse_test [] o = some o
parse_test (device n ∷ rest) o = parse_test rest (record o { dev_index = n })
parse_test (rate n ∷ rest) o = parse_test rest (record o { samp_rate = n })
parse_test (duration n ∷ rest) o = parse_test rest (record o { ppm_duration = n })
parse_test (no_duration ∷ rest) o = parse_test rest o
parse_test (help ∷ rest) o = none
parse_test (other ∷ rest) o = none

abbrev pub test_defaults : TestOptions
test_defaults = record { dev_index = 0; samp_rate = 100000000; ppm_duration = 10 }

-- The loop that fills the buffer, two bytes in a round.
unfoldable pub rect_signal : ℕ → List ℕ
rect_signal zero = []
rect_signal (suc n) = 0x00 ∷ 0xff ∷ rect_signal n

unfoldable pub test_buffer : List ℕ
unfolding rect_signal
test_buffer = rect_signal (buf_len / 2)

-- Where there is memory and a device. The label `exit` is behind the loop that waits.
abbrev pub test_streams : World → Dev → Ended
test_streams w dev =
    let before = allocates ∷ opens ∷ start_calls w dev 0 in
    let closed =
      if close_returns w (some dev)
      then returns (pos 0) (before ++ closes ∷ frees ∷ [])
      else waits before in
    if wait_exit w.do_exit then closed else waits before

-- Without memory it goes to `exit`, where `fl2k_close` and `free` get NULL.
unfoldable pub test_main : World → List TestOption → Ended
unfolding parse_test
test_main w options = elim (parse_test options test_defaults) [
  | none ↦ exits (pos 1)
  | some o ↦
      let with_memory : Ended = elim w.device [
        | none ↦ exits (pos 1)
        | some dev ↦ test_streams w dev
      ] in
      if w.memory
      then with_memory
      else if close_returns w none
      then returns (pos 0) []
      else waits []
]
