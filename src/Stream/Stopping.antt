-- ===== src/Stream/Stopping.antt =====
-- The end of streaming: `fl2k_stop_tx`, a lost device, and what the threads do after it.
use osmo_fl2k.Prelude.{
  ℕ, ◌+◌, List, [], ◌∷◌, ◌++◌, none, some, Bool, true, false, ◌&&◌, ◌||◌, ◌≡◌, refl, ◌⊎◌, inl, inr,
  arith, ℤ, ◌==ℤ◌, ap, ◌∙◌, if◌then◌else◌,
}
use osmo_fl2k.Device.{
  inactive, canceling, running, failed, completed, cancelled, TransferStatus, Dev, is_running,
  success, error_busy, libusb_no_device,
}
use osmo_fl2k.Transfers.{libusb_callback, stop_dev, stop_tx, resubmit}
use osmo_fl2k.Worker.{
  DataInfo, Place, at_test, waiting, finished, holding, Worker, Output, quiet, fills, notifies,
  Worked, step_at, step, leave,
}
use osmo_fl2k.Stream.{
  Stream, Event, repeated, sent, event_of, reported, Step, works, calls_back, stops, Run, here,
  next,
}

-- What `fl2k_stop_tx` leaves behind and returns: streaming is cancelled, a cancellation that is under
-- way is cut short, and without streaming it reports FL2K_ERROR_BUSY.
pub stop_tx_outcome :
    (dev : Dev)
    → let (after, r) = stop_tx (some dev) in
      ((dev.async_status ≡ running)
        × (r ≡ success)
        × (after ≡ some (record dev { async_status = canceling; async_cancel = true })))
      ⊎ ((dev.async_status ≡ canceling)
          × (r ≡ success)
          × (after ≡ some (record dev { async_status = inactive })))
      ⊎ ((dev.async_status ≡ inactive) × (r ≡ error_busy) × (after ≡ some dev))
unfolding stop_tx stop_dev
stop_tx_outcome dev = ground arith

-- How many transfers are submitted in an event, and in a run.
abbrev pub submissions : Event → ℕ
submissions (sent _ _) = 1
submissions (repeated _) = 1
submissions _ = 0

abbrev pub all_submissions : List Event → ℕ
all_submissions [] = 0
all_submissions (e ∷ es) = submissions e + all_submissions es

all_submissions-end :
    (es : List Event) (e : Event)
    → all_submissions (es ++ e ∷ []) ≡ all_submissions es + submissions e
all_submissions-end [] e = omega arith
all_submissions-end (d ∷ es) e = omega (arith, all_submissions-end es e)

module _ (reply : DataInfo → DataInfo) (dev : Dev) (w : Worker) (r : Worked) where
  async_at :
      (place : Place) → step_at place reply dev w ≡ some r → r.dev.async_status ≡ dev.async_status
  unfolding step_at
  async_at at_test h = ground arith
  async_at waiting h = ground arith
  async_at finished h = ground arith
  async_at (holding k) h = ground arith

  async-step : step reply dev w ≡ some r → r.dev.async_status ≡ dev.async_status
  unfolding step
  async-step h = async_at w.place h

callback_idle :
    (dev : Dev) (k : ℕ) (status : TransferStatus) (r : ℤ)
    → is_running dev.async_status ≡ false
    → let c = libusb_callback dev k status r in
      (is_running c.dev.async_status ≡ false) × (c.submits ≡ none)
unfolding libusb_callback stop_dev
callback_idle dev k status r h = ground arith

stop_idle : (dev : Dev) → is_running (stop_dev dev).0.async_status ≡ false
unfolding stop_dev
stop_idle dev = ground arith

submissions-event_of : (o : Output) → submissions (event_of o) ≡ 0
submissions-event_of quiet = refl
submissions-event_of (fills b) = refl
submissions-event_of (notifies i) = refl

Step-stopped :
    (reply : DataInfo → DataInfo) (s t : Stream) (e : Event)
    → Step reply s e t
    → is_running s.dev.async_status ≡ false
    → (is_running t.dev.async_status ≡ false) × (submissions e ≡ 0)
Step-stopped reply s t e (works r h) stopped =
    (ap is_running (async-step reply s.dev s.worker r h) ∙ stopped, submissions-event_of r.output)
Step-stopped reply s t e (calls_back k status r f) stopped =
    let (still, none') = callback_idle (reported s.dev k status) k status r stopped in
    (still, rw none' refl)
Step-stopped reply s t e stops stopped = (stop_idle s.dev, refl)

-- In every run from a state in which streaming does not run, it does not run again, and no transfer
-- is submitted.
pub stopped_for_good :
    (reply : DataInfo → DataInfo) (s t : Stream) (es : List Event)
    → Run reply s es t
    → is_running s.dev.async_status ≡ false
    → (is_running t.dev.async_status ≡ false) × (all_submissions es ≡ 0)
stopped_for_good reply s t es here stopped = (stopped, refl)
stopped_for_good reply s t es (next {es = ds} {e = e} {t = u} run st) stopped =
    let (still, none') = stopped_for_good reply s u ds run stopped in
    let (after, none'') = Step-stopped reply u t e st still in
    (after, omega (arith, all_submissions-end ds e))

-- Whether a callback finds the device gone: its transfer failed, or its submission found no device.
abbrev finds_loss : Dev → TransferStatus → ℤ → Bool
finds_loss dev failed r = true
finds_loss dev completed r = is_running dev.async_status && r ==ℤ libusb_no_device
finds_loss dev cancelled r = false

-- A transfer that fails, or a submission that finds no device, marks the device as lost and stops
-- streaming as `fl2k_stop_tx` does; no other callback changes either.
pub callback_loses :
    (dev : Dev) (k : ℕ) (status : TransferStatus) (r : ℤ)
    → let c = libusb_callback dev k status r in
      (c.dev.dev_lost ≡ (finds_loss dev status r || dev.dev_lost))
      × (c.dev.async_status
          ≡ (if finds_loss dev status r then (stop_dev dev).0.async_status else dev.async_status))
unfolding libusb_callback stop_dev resubmit
callback_loses dev k completed r = ground arith
callback_loses dev k cancelled r = ground arith
callback_loses dev k failed r = ground arith

-- Where streaming has stopped, the worker's next step from its test or from its wait is its last one,
-- and the application is told of an error exactly if the device is lost and a callback is set.
pub worker_leaves :
    (reply : DataInfo → DataInfo) (dev : Dev) (w : Worker)
    → is_running dev.async_status ≡ false
    → (w.place ≡ at_test) ⊎ (w.place ≡ waiting)
    → (r : Worked) × (step reply dev w ≡ some r)
      × (r.worker.place ≡ finished)
      × (r.dev ≡ dev)
      × (r.output ≡ (
          if dev.dev_lost && dev.has_cb
          then notifies (record w.data_info { device_error = true })
          else quiet))
unfolding step
worker_leaves reply dev w stopped (inl e) =
    (leave dev w, ground arith, ground arith, ground arith, ground arith)
worker_leaves reply dev w stopped (inr e) =
    (leave dev w, ground arith, ground arith, ground arith, ground arith)
