-- ===== src/UsbWorker/Waiting.antt =====
-- When the event loop's thread waits for the sample worker without end.
use osmo_fl2k.Prelude.{ℕ, zero, suc, some, none, false, ◌≡◌, refl, inl, inr, Option-cases}
use osmo_fl2k.Worker.{waiting}
use osmo_fl2k.Device.{AsyncStatus, inactive, Dev, is_running}
use osmo_fl2k.UsbWorker.{Usb, run_loop, end_loop, join, usb_worker}

-- The thread does not end if the sample worker waits for an empty transfer when it is joined, and the device is there.
pub usb_worker_waits :
    {S : Type 0} (usb : Usb S) (fuel : ℕ) (s : S) (dev : Dev)
    → ((s' : S) (dev' : Dev) (next : AsyncStatus)
        → end_loop usb fuel s dev inactive ≡ some (s', dev', next)
        → dev'.dev_lost ≡ false)
    → is_running dev.async_status ≡ false
    → usb_worker usb fuel waiting s dev ≡ none
unfolding usb_worker run_loop join
usb_worker_waits usb zero s dev there stopped = refl
usb_worker_waits usb (suc fuel) s dev there stopped =
    elim (Option-cases (end_loop usb (suc fuel) s dev inactive)) [
      | inl e ↦ rw (usb_worker, run_loop, stopped, e) refl
      | inr ((s', dev', next), e) ↦
          rw (usb_worker, run_loop, stopped, e, join, there s' dev' next e) refl
    ]
