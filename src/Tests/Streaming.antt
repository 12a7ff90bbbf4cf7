-- ===== src/Tests/Streaming.antt =====
-- The streaming of src/libosmo-fl2k.c, from the scenario with three transfers.
use osmo_fl2k.Prelude.{
  ℕ, ◌+◌, ◌≤◌, List, [], ◌∷◌, some, true, false, ◌≡◌, refl, arith, pos, get_elem?, take,
}
use osmo_fl2k.Device.{inactive, canceling, empty, completed, Dev, is_running}
use osmo_fl2k.Transfers.{next_from, get_next_xfer, libusb_callback, stop_dev}
use osmo_fl2k.Worker.{at_test, holding}
use osmo_fl2k.Stream.{silent, sent, reported, sent_event, stops, Run, here, next}
use osmo_fl2k.Stream.Invariant.{Inv}
use osmo_fl2k.Stream.Preserve.{Advances, libusb_callback-Inv}
use osmo_fl2k.Stream.Working.{step-Inv}
use osmo_fl2k.Stream.Backlog.{backlog_bound}
use osmo_fl2k.Stream.Fates.{Fate, buffer-Fate}
use osmo_fl2k.Stream.Progress.{completion_sends, Round, worker-Round}
use osmo_fl2k.Stream.Stopping.{all_submissions, stopped_for_good}
use osmo_fl2k.Stream.Fifo.{all_sent, sent_in_order}
use osmo_fl2k.Tests.Scenario.{
  xfer_of, device, worker, reply, start, block, claimed, with_one, first_step, after_sending,
  filling, sending, in_flight, filling-Run, sending-Run, start-IsStarted, with_one-Inv, start-Inv,
}

sent_in_order_example : all_sent sending ≡ take 1 (block ∷ [])
sent_in_order_example =
    sent_in_order reply start after_sending sending sending-Run start-IsStarted (omega arith)

buffer-Fate_example : Fate filling with_one 0
buffer-Fate_example =
    buffer-Fate reply start with_one filling 0 filling-Run start-IsStarted (omega arith)
      (omega arith)

backlog_bound_example : 1 ≤ 0 + 3
backlog_bound_example =
    backlog_bound reply start with_one filling filling-Run start-IsStarted (omega arith)

libusb_callback-Inv_example :
    let c = libusb_callback (reported with_one.dev 0 completed) 0 completed (pos 4) in
    (m : ℕ) × Advances (block ∷ []) 0 (sent_event with_one.dev 0 (pos 4) c.submits) m
    × Inv c.dev.xfer at_test 1 (block ∷ []) m
libusb_callback-Inv_example =
    libusb_callback-Inv with_one.dev 0 completed (pos 4) at_test 1 0 (block ∷ [])
      (in_flight with_one.dev refl) with_one-Inv

step-Inv_example : Inv claimed.dev.xfer (holding 1) 0 [] 0
step-Inv_example = step-Inv reply device worker claimed [] 0 first_step (omega arith) start-Inv

completion_sends_example :
    let c = libusb_callback (reported with_one.dev 0 completed) 0 completed (pos 4) in
    (b : List ℕ) × (sent_event with_one.dev 0 (pos 4) c.submits ≡ sent (pos 4) b)
    × (get_elem? (block ∷ []) 0 ≡ some b)
completion_sends_example =
    completion_sends with_one.dev 0 (pos 4) at_test 1 0 (block ∷ []) (in_flight with_one.dev refl)
      with_one-Inv refl (omega arith)

worker-Round_example : Round reply device worker 1 (xfer_of empty 0) 1
unfolding next_from get_next_xfer
worker-Round_example =
    worker-Round reply device worker 1 (xfer_of empty 0) 1 refl refl refl refl refl refl
      (omega arith) (omega arith) (omega arith) tt tt

abbrev stopped : Dev
stopped = record device { async_status = canceling; async_cancel = true; dev_lost = true }

stopped-Run :
    Run reply
      (record start { dev = stopped })
      (silent ∷ [])
      (record { dev = record stopped { async_status = inactive }; worker = worker })
unfolding stop_dev
stopped-Run = next here stops

stopped_for_good_example : (is_running inactive ≡ false) × (all_submissions (silent ∷ []) ≡ 0)
stopped_for_good_example =
    stopped_for_good reply (record start { dev = stopped })
      (record { dev = record stopped { async_status = inactive }; worker = worker }) (silent ∷ [])
      stopped-Run refl
