-- ===== src/Tests/Events.antt =====
-- The event loop of src/libosmo-fl2k.c, with a libusb that has transfers in flight for some rounds.
use osmo_fl2k.Prelude.{
  ℕ, ◌-◌, ◌<◌, true, ◌==◌, if◌then◌else◌, some, ◌≡◌, ◌⊎◌, refl, arith, pos, negsuc, length,
  is_negative,
}
use osmo_fl2k.Device.{inactive, canceling, Dev}
use osmo_fl2k.Worker.{at_test}
use osmo_fl2k.UsbWorker.{Usb, usb_worker}
use osmo_fl2k.UsbWorker.Ends.{Settles, usb_worker-ends}
use osmo_fl2k.Tests.Scenario.{device}

-- The state counts the rounds.
abbrev pub countdown : Usb ℕ
countdown = record {
  handle_events = λ s dev. (pos 0, s - 1, dev);
  cancel_transfer = λ s dev k. (if s == 0 then negsuc 4 else pos 0, s);
}

pub one_less : (s : ℕ) → (s - 1 < s) ⊎ (s - 1 ≡ 0)
one_less s = ground arith

pub at_zero : (s : ℕ) → s ≡ 0 → is_negative (if s == 0 then negsuc 4 else pos 0) ≡ true
at_zero s z = ground arith

abbrev pub countdown-Settles : Settles countdown
countdown-Settles = record {
  pending = λ s. s;
  succeeds = λ s dev e. refl;
  still = λ s dev e. e;
  nearer = λ s dev e. one_less s;
  not_farther = λ s dev k. omega arith;
  gives_up = λ s dev k z. at_zero s z;
}

abbrev ending : Dev
ending = record device { async_status = canceling }

usb_worker-ends_example :
    (s' : ℕ) × (dev' : Dev) × (usb_worker countdown 6 at_test 5 ending ≡ some (s', dev'))
    × (dev'.async_status ≡ inactive)
    × (length dev'.xfer ≡ 0)
usb_worker-ends_example =
    usb_worker-ends countdown countdown-Settles 6 at_test 5 ending
      (record { status = refl; there = refl }) (λ e. cc) (omega arith)
