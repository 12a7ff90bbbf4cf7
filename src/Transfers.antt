-- ===== src/Transfers.antt =====
-- src/libosmo-fl2k.c, `fl2k_get_next_xfer`, `_libusb_callback` and `fl2k_stop_tx`: how the library
-- picks a transfer buffer and hands it to libusb.
pub mod Filled
pub mod Free
pub mod Window
pub mod Callback
use osmo_fl2k.Prelude.{
  ℕ, ◌+◌, ◌%◌, ◌^◌, List, [], ◌∷◌, Option, none, some, Bool, true, false, not, ◌&&◌, ◌||◌, ltb,
  if◌then◌else◌, is_none, ℤ, pos, ◌==ℤ◌, modify,
}
use osmo_fl2k.Device.{
  AsyncStatus, inactive, canceling, running, BufState, empty, submitted, filled, TransferStatus,
  completed, cancelled, failed, XferInfo, Xfer, Dev, is_running, is_inactive, same_state, success,
  error_invalid_param, error_busy, libusb_no_device,
}
use mathlib.Core.Option

-- The loop of `fl2k_get_next_xfer` from index `i` on. `next_buf` is `none` for -1.
unfoldable pub next_from : BufState → ℕ → Option ℕ → ℕ → List Xfer → Option ℕ
next_from state i next_buf next_seq [] = if same_state state filled then next_buf else none
next_from state i next_buf next_seq (x ∷ xs) = elim x.user_data [
  | none ↦ next_from state (i + 1) next_buf next_seq xs
  | some info ↦
      let hit = same_state info.state state in
      let newer = hit && (ltb info.seq next_seq || is_none next_buf) in
      let rest =
        next_from state (i + 1) (if newer then some i else next_buf)
          (if newer then info.seq else next_seq) xs in
      if hit && same_state state empty then some i else rest
]

-- `fl2k_get_next_xfer`: the index of the transfer that it returns.
unfoldable pub get_next_xfer : Dev → BufState → Option ℕ
get_next_xfer dev state = next_from state 0 none 0 dev.xfer

-- `xfer_info->state = state`
abbrev pub with_state : BufState → Xfer → Xfer
with_state state x = record x { user_data = Option.map with_it x.user_data }
  where
    with_it : XferInfo → XferInfo
    with_it i = record i { state = state }

-- `fl2k_stop_tx` on a device handle
unfoldable pub stop_dev : Dev → Dev × ℤ
stop_dev dev =
    if is_running dev.async_status
    then (record dev { async_status = canceling; async_cancel = true }, success)
    else if not (is_inactive dev.async_status)
    then (record dev { async_status = inactive }, success)
    else (dev, error_busy)

-- `fl2k_stop_tx`; `none` is NULL.
unfoldable pub stop_tx : Option Dev → Option Dev × ℤ
stop_tx none = (none, error_invalid_param)
stop_tx (some dev) = let (dev', r) = stop_dev dev in (some dev', r)

-- The part of `_libusb_callback` for a completed transfer `k` while streaming: the device after
-- it, and the transfer that it submits.
unfoldable pub resubmit : Dev → ℕ → Dev × ℕ
resubmit dev k = elim (get_next_xfer dev filled) [
  | some n ↦ (
    record dev { xfer = modify (with_state empty) (modify (with_state submitted) dev.xfer n) k },
    n,
  )
  | none ↦ (record dev { underflow_cnt = (dev.underflow_cnt + 1) % 2 ^ 32 }, k)
]

abbrev is_completed : TransferStatus → Bool
is_completed completed = true
is_completed _ = false

abbrev is_failed : TransferStatus → Bool
is_failed failed = true
is_failed _ = false

-- What one call of `_libusb_callback` leaves behind.
pub record Called : Type 0 where
  pub dev : Dev
  pub submits : Option ℕ

-- The loss of the device: `dev_lost = 1; fl2k_stop_tx(dev)`.
abbrev lose : Dev → Dev
lose dev = (stop_dev (record dev { dev_lost = true })).0

-- `_libusb_callback` for transfer `k`, which libusb reports with `status`; `r` is what
-- `libusb_submit_transfer` returns if it is called.
unfoldable pub libusb_callback : Dev → ℕ → TransferStatus → ℤ → Called
libusb_callback dev k status r =
    if is_completed status && is_running dev.async_status
    then streams (resubmit dev k)
    else record { dev = if is_failed status then lose dev else dev; submits = none }
  where
    streams : Dev × ℕ → Called
    streams (dev', n) = record {
      dev = if r ==ℤ libusb_no_device then lose dev' else dev';
      submits = some n;
    }
