-- ===== src/Transfers/Callback.antt =====
-- The branches of `_libusb_callback`, seen from the list of transfers.
use osmo_fl2k.Prelude.{
  ℕ, none, some, true, false, ◌≡◌, inl, inr, arith, modify, ℤ, ◌&&◌, Option-cases, Bool-cases,
}
use osmo_fl2k.Device.{empty, submitted, filled, TransferStatus, Dev, is_running}
use osmo_fl2k.Transfers.{
  get_next_xfer, with_state, stop_dev, resubmit, libusb_callback, Called, is_completed,
}

pub xfer-stop_dev : (dev : Dev) → (stop_dev dev).0.xfer ≡ dev.xfer
unfolding stop_dev
xfer-stop_dev dev = ground arith

-- What a callback may do to the transfers: nothing; submit its own again, where none is filled; or
-- submit a filled one and leave its own empty.
pub data Effect (dev : Dev) (k : ℕ) (c : Called) : Type 0 where
  ignores : c.dev.xfer ≡ dev.xfer → c.submits ≡ none → Effect dev k c
  repeats :
      get_next_xfer dev filled ≡ none → c.dev.xfer ≡ dev.xfer → c.submits ≡ some k → Effect dev k c
  forwards :
      (n : ℕ)
      → get_next_xfer dev filled ≡ some n
      → c.dev.xfer ≡ modify (with_state empty) (modify (with_state submitted) dev.xfer n) k
      → c.submits ≡ some n
      → Effect dev k c

module _ (dev : Dev) (k : ℕ) (status : TransferStatus) (r : ℤ) where
  idle-Effect :
      (is_completed status && is_running dev.async_status) ≡ false
      → Effect dev k (libusb_callback dev k status r)
  unfolding libusb_callback stop_dev
  idle-Effect h = ignores (ground arith) (ground arith)

  repeat-Effect :
      (is_completed status && is_running dev.async_status) ≡ true
      → get_next_xfer dev filled ≡ none
      → Effect dev k (libusb_callback dev k status r)
  unfolding libusb_callback resubmit stop_dev
  repeat-Effect h e = repeats e (ground arith) (ground arith)

  forward-Effect :
      (n : ℕ)
      → (is_completed status && is_running dev.async_status) ≡ true
      → get_next_xfer dev filled ≡ some n
      → Effect dev k (libusb_callback dev k status r)
  unfolding libusb_callback resubmit stop_dev
  forward-Effect n h e = forwards n e (ground arith) (ground arith)

  pub libusb_callback-Effect : Effect dev k (libusb_callback dev k status r)
  libusb_callback-Effect = elim (Bool-cases (is_completed status && is_running dev.async_status)) [
    | inr h ↦ idle-Effect h
    | inl h ↦ elim (Option-cases (get_next_xfer dev filled)) [
      | inl e ↦ repeat-Effect h e
      | inr (n, e) ↦ forward-Effect n h e
    ]
  ]
