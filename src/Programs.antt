-- ===== src/Programs.antt =====
-- The `main` functions of src/fl2k_file.c, src/fl2k_tcp.c, src/fl2k_fm.c and src/fl2k_test.c: what
-- they meet, what they call in order, and how they end. `getopt` is a parameter: a command line is the
-- options that it gives, with the numbers that `atoi` and `atof` read. A number of `uint32_t` that is
-- kept in an `int` is its bit pattern.
pub mod File
pub mod Tcp
pub mod Test
pub mod Fm
pub mod Ending
pub mod Held
pub mod Tidy
pub mod Signal
pub mod Options
use osmo_fl2k.Prelude.{
  ℕ, List, [], ◌∷◌, ◌++◌, Option, none, some, Bool, true, false, if◌then◌else◌, is_none, not, ℤ,
}
use osmo_fl2k.Device.{AsyncStatus, Dev}
use osmo_fl2k.Transfers.{stop_tx}
use osmo_fl2k.Start.{Env, start_tx}
use osmo_fl2k.Opening.{close_device}

-- What a program acquires and gives back, and what it asks of the library. `closes_zero` closes descriptor 0.
pub data Call : Type 0 where
  allocates frees opens_file closes_file opens sets_rate closes opens_socket closes_zero : Call
  starts : ℤ → Call

-- A program returns from `main`, or calls `exit`, or divides by zero, or it still waits.
pub data Ended : Type 0 where
  returns : ℤ → List Call → Ended
  exits : ℤ → Ended
  crashes : Ended
  waits : List Call → Ended

-- What a program meets: whether there is memory and the file; the device that `fl2k_open` gives, if it does;
-- what `fl2k_start_tx` meets; `do_exit` and the state of the stream as they are seen in turn in the
-- loop that waits for the end, and in `fl2k_close`, with the device's `dev_lost`.
pub record World : Type 0 where
  pub memory : Bool
  pub file : Bool
  pub device : Option Dev
  pub env : Env
  pub do_exit : List Bool
  pub dev_lost : Bool
  pub seen : List AsyncStatus

-- `while (!do_exit) sleep_ms(500);`: whether it ends.
unfoldable pub wait_exit : List Bool → Bool
wait_exit [] = false
wait_exit (do_exit ∷ later) = let rest = wait_exit later in if do_exit then true else rest

-- `sighandler`, with the device behind it, and `do_exit`.
unfoldable pub sighandler : Option Dev → Option Dev × Bool
sighandler dev = ((stop_tx dev).0, true)

-- `fl2k_close`, whether it returns.
abbrev pub close_returns : World → Option Dev → Bool
close_returns w none = not (is_none (close_device none w.seen))
close_returns w (some _) = not (is_none (close_device (some w.dev_lost) w.seen))

-- `fl2k_start_tx`, whose result is not looked at, and `fl2k_set_sample_rate`.
abbrev pub start_calls : World → Dev → ℕ → List Call
start_calls w dev buf_num = starts (start_tx w.env dev buf_num).result ∷ sets_rate ∷ []
