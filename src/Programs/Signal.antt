-- ===== src/Programs/Signal.antt =====
-- From a signal to the end of a program: the handler, the thread that runs libusb's event loop, and the
-- `main` functions that wait for the two.
use osmo_fl2k.Prelude.{
  ℕ, ◌<◌, List, [], ◌∷◌, ◌++◌, some, Bool, true, false, ◌≡◌, ◌≢◌, refl, ap, ◌∙◌, arith, is_none,
  not, pos, inl, inr, Bool-cases,
}
use osmo_fl2k.Worker.{Place, waiting}
use osmo_fl2k.Device.{AsyncStatus, running, inactive, Dev, is_inactive}
use osmo_fl2k.Transfers.{stop_dev, stop_tx}
use osmo_fl2k.UsbWorker.{Usb, usb_worker}
use osmo_fl2k.UsbWorker.Ends.{IsEnding, Settles, usb_worker-ends}
use osmo_fl2k.Opening.{wait_inactive, close_device}
use osmo_fl2k.Programs.{
  Call, allocates, frees, opens, closes, closes_zero, start_calls, returns, World, wait_exit,
  sighandler, close_returns,
}
use osmo_fl2k.Programs.File.{FileName, opening_file, closing_file, file_streams}
use osmo_fl2k.Programs.Test.{test_streams}
use osmo_fl2k.Programs.Tcp.{connected, tcp_connected}

-- The wait of `fl2k_close` ends once the stream is inactive.
wait_inactive-append : (before : List AsyncStatus) → wait_inactive (before ++ inactive ∷ []) ≡ true
unfolding wait_inactive
wait_inactive-append [] = refl
wait_inactive-append (status ∷ before) = elim (Bool-cases (is_inactive status)) [
  | inl e ↦ rw e refl
  | inr e ↦ rw e (wait_inactive-append before)
]

close_device-inactive :
    (dev_lost : Bool) (before : List AsyncStatus)
    → not (is_none (close_device (some dev_lost) (before ++ inactive ∷ []))) ≡ true
unfolding close_device
close_device-inactive true before = refl
close_device-inactive false before = rw (close_device, wait_inactive-append before) refl

stop_dev-IsEnding :
    (dev : Dev) → dev.async_status ≡ running → dev.dev_lost ≡ false → IsEnding (stop_dev dev).0
unfolding stop_dev
stop_dev-IsEnding dev e l = record { status = ground arith; there = ground arith }

file_returns :
    (w : World) (name : FileName) (dev : Dev)
    → wait_exit w.do_exit ≡ true
    → close_returns w (some dev) ≡ true
    → (calls : List Call) × (file_streams w name dev ≡ returns (pos 0) calls)
unfolding file_streams
file_returns w name dev e c = (
  (opening_file name ++ allocates ∷ opens ∷ start_calls w dev 0)
      ++ closes ∷ frees ∷ closing_file name,
  rw (file_streams, e, c) refl,
)

test_returns :
    (w : World) (dev : Dev)
    → wait_exit w.do_exit ≡ true
    → close_returns w (some dev) ≡ true
    → (calls : List Call) × (test_streams w dev ≡ returns (pos 0) calls)
test_returns w dev e c =
    ((allocates ∷ opens ∷ start_calls w dev 0) ++ closes ∷ frees ∷ [], rw (e, c) refl)

tcp_returns :
    (w : World) (dev : Dev) (before : List Call)
    → wait_exit w.do_exit ≡ true
    → close_returns w (some dev) ≡ true
    → (calls : List Call) × (tcp_connected w dev before connected ≡ returns (pos 0) calls)
tcp_returns w dev before e c = (before ++ closes ∷ frees ∷ closes_zero ∷ [], rw (e, c) refl)

-- The world of a program that sees `do_exit` as it was, and then as the handler leaves it, and whose `fl2k_close` sees
-- states and then the one that a thread leaves.
abbrev pub then_sees : World → List Bool → Bool → List AsyncStatus → Dev → World
then_sees w polls do_exit before dev = record w {
  do_exit = polls ++ do_exit ∷ [];
  seen = before ++ dev.async_status ∷ [];
}

-- The wait for the end is over once `do_exit` is set.
wait_exit-append : (polls : List Bool) → wait_exit (polls ++ true ∷ []) ≡ true
unfolding wait_exit
wait_exit-append [] = refl
wait_exit-append (true ∷ polls) = refl
wait_exit-append (false ∷ polls) = wait_exit-append polls

module _ {S : Type 0} (usb : Usb S) (settles : Settles usb) where
  open settles use {pending}

  -- A signal ends a program whose device streams: where the handler, `fl2k_stop_tx` in it, finds a device that is there
  -- and streams, libusb settles, and the sample worker does not wait for an empty transfer when it is joined, the thread
  -- of the event loop ends, with more rounds of fuel than that takes; and the programs that wait for `do_exit`, which
  -- the handler sets, return 0, whatever they saw of it before, since `fl2k_close` ends with the state that the thread
  -- leaves, whatever states it sees before.
  pub signal_ends :
      (fuel : ℕ) (place : Place) (s : S) (dev opened : Dev) (w : World) (name : FileName)
      (polls : List Bool) (before : List AsyncStatus) (calls : List Call)
      → dev.async_status ≡ running
      → dev.dev_lost ≡ false
      → place ≢ waiting
      → pending s < fuel
      → (stopped : Dev) × (s' : S) × (dev' : Dev) × ((sighandler (some dev)).0 ≡ some stopped)
        × (usb_worker usb fuel place s stopped ≡ some (s', dev'))
        × ((made : List Call) × (file_streams
                (then_sees w polls (sighandler (some dev)).1 before dev')
                name
                opened
              ≡ returns (pos 0) made))
        × ((made : List Call) × (test_streams
                (then_sees w polls (sighandler (some dev)).1 before dev')
                opened
              ≡ returns (pos 0) made))
        × ((made : List Call) × (tcp_connected
                (then_sees w polls (sighandler (some dev)).1 before dev')
                opened
                calls
                connected
              ≡ returns (pos 0) made))
  unfolding sighandler stop_tx
  signal_ends fuel place s dev opened w name polls before calls streams there ne l =
      let stopped = (stop_dev dev).0 in
      let (s', dev', run, off, _) =
        usb_worker-ends usb settles fuel place s stopped (stop_dev-IsEnding dev streams there) ne
          l in
      let w' = then_sees w polls true before dev' in
      let e = wait_exit-append polls in
      let closed : close_returns w' (some opened) ≡ true =
        ap (λ st. not (is_none (close_device (some w.dev_lost) (before ++ st ∷ [])))) off
        ∙ close_device-inactive w.dev_lost before in
      (
        stopped,
        s',
        dev',
        refl,
        run,
        file_returns w' name opened e closed,
        test_returns w' opened e closed,
        tcp_returns w' opened calls e closed,
      )
