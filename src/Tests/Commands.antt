-- ===== src/Tests/Commands.antt =====
-- The programs src/fl2k_file.c, src/fl2k_tcp.c, src/fl2k_fm.c and src/fl2k_test.c on a few command lines.
use osmo_fl2k.Prelude.{
  ℕ, ◌/◌, ◌≤◌, List, [], ◌∷◌, some, true, false, ◌≡◌, refl, arith, pos, inl, Bool,
}
use osmo_fl2k.Device.{Dev, inactive, canceling, running, buf_len}
use osmo_fl2k.Start.{start_tx, spawn, alloc_submit_transfers, kernel_from, user_from}
use osmo_fl2k.Opening.{wait_inactive, close_device}
use osmo_fl2k.Programs.{
  Call, allocates, frees, opens_file, closes_file, opens, closes, sets_rate, starts, returns,
  crashes, World, wait_exit, sighandler,
}
use osmo_fl2k.Programs.File.{FileOption, stdin, named, repeat, file_main, file_streams}
use osmo_fl2k.Programs.Tcp.{connected, Attempt, TcpOption, tcp_connected, tcp_main}
use osmo_fl2k.Programs.Test.{TestOption, test_streams, test_main, rect_signal}
use osmo_fl2k.Programs.Fm.{
  FmOption, FmOptions, input_rate, fm_defaults, rds_modulator_rate, check_fm, carrier_per_signal,
  fm_main,
}
use osmo_fl2k.Programs.Options.{check_fm-fits}
use osmo_fl2k.Programs.Signal.{then_sees, signal_ends}
use osmo_fl2k.Worker.{at_test}
use osmo_fl2k.UsbWorker.{usb_worker}
use osmo_fl2k.Tests.Scenario.{device}
use osmo_fl2k.Tests.Events.{countdown, countdown-Settles}
use osmo_fl2k.Programs.Held.{Tidy, Leaves, one_socket}
use osmo_fl2k.Programs.Tidy.{programs-Tidy}
use osmo_fl2k.Tests.Starting.{idle, plenty, scarce}

-- A signal comes, and the stream ends.
abbrev calm : World
calm = record {
  memory = true;
  file = true;
  device = some idle;
  env = plenty;
  do_exit = false ∷ true ∷ [];
  dev_lost = false;
  seen = canceling ∷ inactive ∷ [];
}

plays :
    file_main calm (repeat (pos 0) ∷ []) named
    ≡ returns (pos 0) (
        opens_file
        ∷ allocates
        ∷ opens
        ∷ starts (pos 0)
        ∷ sets_rate
        ∷ closes
        ∷ frees
        ∷ closes_file
        ∷ [])
unfolding file_main wait_exit close_device wait_inactive start_tx spawn alloc_submit_transfers
    kernel_from user_from
plays = refl

-- Without a rate of its input a mono transmitter divides by zero.
no_rate : fm_main calm (input_rate 0 ∷ []) stdin 100000000 true ≡ crashes
unfolding fm_main
no_rate = refl

square_wave : rect_signal 2 ≡ 0 ∷ 255 ∷ 0 ∷ 255 ∷ []
unfolding rect_signal
square_wave = refl

programs-Tidy_example :
    ((options : List FileOption) → Tidy (file_main calm options named))
    × ((attempts : List Attempt) (options : List TcpOption)
        → Leaves one_socket (tcp_main calm attempts options))
    × ((options : List TestOption) → Tidy (test_main calm options))
    × ((options : List FmOption) (actual : ℕ) (modulated : Bool)
        → Tidy (fm_main calm options named actual modulated))
programs-Tidy_example = programs-Tidy calm named

-- There is no memory for the transfers, and the signal comes twice.
abbrev stuck : World
stuck = record calm { env = scarce; seen = running ∷ canceling ∷ canceling ∷ [] }

abbrev chosen : FmOptions
chosen = record fm_defaults { rds_flag = true }

check_fm-fits_example :
    (chosen.rds_flag ≡ true → rds_modulator_rate ≡ rds_modulator_rate)
    × (rds_modulator_rate / 2 ≤ rds_modulator_rate)
    × ((n : ℕ) × (carrier_per_signal 100000000 rds_modulator_rate ≡ some n) × (n ≤ buf_len))
unfolding check_fm
check_fm-fits_example =
    check_fm-fits chosen (record chosen { input_freq = rds_modulator_rate }) 100000000 refl
      (omega arith) (inl refl)

-- The device streams, and libusb settles within five rounds.
signal_ends_example :
    (stopped : Dev) × (s' : ℕ) × (dev' : Dev) × ((sighandler (some device)).0 ≡ some stopped)
    × (usb_worker countdown 6 at_test 5 stopped ≡ some (s', dev'))
    × ((made : List Call) × (file_streams
            (then_sees calm (false ∷ []) (sighandler (some device)).1 (canceling ∷ []) dev')
            named
            idle
          ≡ returns (pos 0) made))
    × ((made : List Call) × (test_streams
            (then_sees calm (false ∷ []) (sighandler (some device)).1 (canceling ∷ []) dev')
            idle
          ≡ returns (pos 0) made))
    × ((made : List Call) × (tcp_connected
            (then_sees calm (false ∷ []) (sighandler (some device)).1 (canceling ∷ []) dev')
            idle
            []
            connected
          ≡ returns (pos 0) made))
signal_ends_example =
    signal_ends countdown countdown-Settles 6 at_test 5 device idle calm named (false ∷ [])
      (canceling ∷ []) [] refl refl (λ e. cc) (omega arith)
