-- ===== src/UsbWorker.antt =====
-- src/libosmo-fl2k.c, `fl2k_usb_worker`: the thread that runs libusb's event loop, and cancels the
-- transfers at the end. libusb is a parameter: its handling of events calls `_libusb_callback`.
pub mod Ends
pub mod Waiting
use osmo_fl2k.Prelude.{
  ℕ, zero, suc, ◌+◌, List, [], Option, none, some, Bool, true, false, ◌||◌, if◌then◌else◌, ◌>>=◌,
  get_elem?, ℤ, negsuc, is_negative, ◌==ℤ◌,
}
use osmo_fl2k.Worker.{Place, at_test, waiting, holding, finished}
use osmo_fl2k.Device.{
  AsyncStatus, inactive, canceling, running, completed, cancelled, failed, TransferStatus, Dev,
  is_running, is_inactive,
}

-- `libusb_handle_events_timeout_completed` and `libusb_cancel_transfer`, for libusb in a state `S`.
pub record Usb (S : Type 0) : Type 0 where
  pub handle_events : S → Dev → ℤ × S × Dev
  pub cancel_transfer : S → Dev → ℕ → ℤ × S

abbrev pub is_cancelled : TransferStatus → Bool
is_cancelled completed = false
is_cancelled cancelled = true
is_cancelled failed = false

abbrev pub is_canceling : AsyncStatus → Bool
is_canceling inactive = false
is_canceling canceling = true
is_canceling running = false

-- LIBUSB_ERROR_INTERRUPTED
abbrev pub error_interrupted : ℤ
error_interrupted = negsuc 9

-- What a round of the second loop does: it goes on, or the loop ends.
pub data Round (S : Type 0) : Type 0 where
  again stops : S → Dev → AsyncStatus → Round S

-- `pthread_join` of the sample worker, whose stream is not running any more; `none` if it does not return. From its test,
-- or behind the transfer that it fills, the worker leaves by itself (Stream.Stopping); the buffers that it fills are
-- freed next. While it waits for an empty transfer nobody wakes it: callbacks signal `buf_cond` only while the
-- stream runs or when the device is lost. A wake-up without a signal is left out.
unfoldable pub join : Place → Dev → Option Dev
join at_test dev = some dev
join (holding k) dev = some dev
join finished dev = some dev
join waiting dev = if dev.dev_lost then some dev else none

module _ {S : Type 0} (usb : Usb S) where
  -- The first loop, with fuel for its rounds.
  unfoldable pub run_loop : ℕ → S → Dev → Option (S × Dev)
  run_loop zero s dev = none
  run_loop (suc fuel) s dev = elim (is_running dev.async_status) [
    | false ↦ some (s, dev)
    | true ↦ let (r, s', dev') = usb.handle_events s dev in run_loop fuel s' dev'
  ]

  -- The loop that cancels the transfers, for `left` of them from transfer `i` on, with `next_status`.
  unfoldable pub cancel_from : ℕ → ℕ → S → Dev → AsyncStatus → S × Dev × AsyncStatus
  cancel_from zero i s dev next = (s, dev, next)
  cancel_from (suc left) i s dev next = elim (get_elem? dev.xfer i) [
    | none ↦ cancel_from left (i + 1) s dev next
    | some x ↦ elim (is_cancelled x.status) [
      | true ↦ cancel_from left (i + 1) s dev next
      | false ↦
          let (r, s') = usb.cancel_transfer s dev i in
          let (r', s'', dev') = usb.handle_events s' dev in
          cancel_from left (i + 1) s'' dev' (if is_negative r then next else canceling)
    ]
  ]

  -- The part of a round for a stream that is to end; the array of transfers is there.
  unfoldable pub cancel_round : S → Dev → Round S
  cancel_round s dev =
      let (s', dev', next) = cancel_from dev.xfer_buf_num 0 s dev inactive in
      let (r, s'', dev'') = usb.handle_events s' dev' in
      if dev'.dev_lost || is_inactive next then stops s'' dev'' next else again s' dev' next

  unfoldable pub end_round : S → Dev → AsyncStatus → Round S
  end_round s dev next =
      let (r, s', dev') = usb.handle_events s dev in
      if is_negative r
      then (if r ==ℤ error_interrupted then again s' dev' next else stops s' dev' next)
      else if is_canceling dev'.async_status
      then cancel_round s' dev'
      else again s' dev' next

  -- The second loop, with fuel for its rounds.
  unfoldable pub end_loop : ℕ → S → Dev → AsyncStatus → Option (S × Dev × AsyncStatus)
  end_loop zero s dev next = none
  end_loop (suc fuel) s dev next = elim (is_inactive dev.async_status) [
    | true ↦ some (s, dev, next)
    | false ↦ elim (end_round s dev next) [
      | again s' dev' next' ↦ end_loop fuel s' dev' next'
      | stops s' dev' next' ↦ some (s', dev', next')
    ]
  ]

  -- `fl2k_usb_worker`, with the device behind it and where the sample worker stands when it is joined. The buffers are
  -- freed.
  unfoldable pub usb_worker : ℕ → Place → S → Dev → Option (S × Dev)
  usb_worker fuel place s dev = do
    (s', dev') ← run_loop fuel s dev
    (s'', dev'', next) ← end_loop fuel s' dev' inactive
    joined ← join place dev''
    some (s'', record joined { xfer = []; async_status = next })
