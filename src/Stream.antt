-- ===== src/Stream.antt =====
-- The streaming core of src/libosmo-fl2k.c as interleaved steps of three threads: the sample worker,
-- libusb's event loop with `_libusb_callback`, and whoever calls `fl2k_stop_tx`.
pub mod Invariant
pub mod Preserve
pub mod Working
pub mod Fifo
pub mod Backlog
pub mod Fates
pub mod Progress
pub mod Stopping
use osmo_fl2k.Prelude.{
  ℕ, List, [], ◌∷◌, ◌++◌, Option, none, some, ◌≡◌, ℤ, get_elem?, modify, ◌==◌, if◌then◌else◌,
}
use osmo_fl2k.Device.{submitted, TransferStatus, Xfer, Dev}
use osmo_fl2k.Transfers.{libusb_callback, stop_dev, Called}
use osmo_fl2k.Worker.{DataInfo, Worker, Output, quiet, fills, notifies, Worked, step}

pub record Stream : Type 0 where
  pub dev : Dev
  pub worker : Worker

-- What is seen of a step: a buffer filled by the worker, a filled buffer given to `libusb_submit_transfer`, or a transfer
-- given to it again for want of one, with what that returns, or neither.
pub data Event : Type 0 where
  silent : Event
  produced : List ℕ → Event
  repeated : ℤ → Event
  sent : ℤ → List ℕ → Event

abbrev pub event_of : Output → Event
event_of (fills bytes) = produced bytes
event_of _ = silent

-- libusb stores the status before it calls back.
abbrev pub with_status : TransferStatus → Xfer → Xfer
with_status status x = record x { status = status }

abbrev pub reported : Dev → ℕ → TransferStatus → Dev
reported dev k status = record dev { xfer = modify (with_status status) dev.xfer k }

-- The event of a callback for transfer `k` on device `dev`, with the result `r`.
abbrev pub sent_event : Dev → ℕ → ℤ → Option ℕ → Event
sent_event dev k r none = silent
sent_event dev k r (some n) = if n == k then repeated r else buffer_event (get_elem? dev.xfer n)
  where
    buffer_event : Option Xfer → Event
    buffer_event none = silent
    buffer_event (some x) = sent r x.buffer

-- The transfer is in the hands of libusb.
pub record InFlight (dev : Dev) (k : ℕ) : Type 0 where
  pub xfer : Xfer
  pub seq : ℕ
  pub at : get_elem? dev.xfer k ≡ some xfer
  pub is_submitted : xfer.user_data ≡ some (record { seq = seq; state = submitted })

module _ (reply : DataInfo → DataInfo) where
  -- libusb calls back for transfers that it holds only.
  pub data Step (s : Stream) : Event → Stream → Type 0 where
    works :
        (r : Worked)
        → step reply s.dev s.worker ≡ some r
        → Step s (event_of r.output) (record { dev = r.dev; worker = r.worker })
    calls_back :
        (k : ℕ) (status : TransferStatus) (r : ℤ)
        → InFlight s.dev k
        → Step s
            (sent_event s.dev k r (libusb_callback (reported s.dev k status) k status r).submits)
            (record s { dev = (libusb_callback (reported s.dev k status) k status r).dev })
    stops : Step s silent (record s { dev = (stop_dev s.dev).0 })

  pub data Run (s : Stream) : List Event → Stream → Type 0 where
    here : Run s [] s
    next :
        {es : List Event} {e : Event} {t u : Stream}
        → Run s es t
        → Step t e u
        → Run s (es ++ e ∷ []) u
