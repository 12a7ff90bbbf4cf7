-- ===== src/Stream/Preserve.antt =====
-- Each step keeps the invariant of streaming.
use osmo_fl2k.Prelude.{
  ℕ, ◌⊎◌, inl, inr, ◌+◌, ◌<◌, List, none, some, ◌≡◌, refl, ◌≢◌, ◌∙◌, sym, ap, arith, get_elem?,
  length, modify, ℤ, get_elem?-modify_self, get_elem?-modify_ne,
}
use mathlib.Core.Path.{subst₂}
use osmo_fl2k.Device.{empty, submitted, filled, TransferStatus, Dev}
use osmo_fl2k.Transfers.{with_state, libusb_callback, Called, get_next_xfer}
use osmo_fl2k.Transfers.Filled.{NoneFilled, Found, get_next_xfer-filled}
use osmo_fl2k.Transfers.Window.{oldest_in-Window}
use osmo_fl2k.Transfers.Callback.{Effect, ignores, repeats, forwards, libusb_callback-Effect}
use osmo_fl2k.Worker.{Place}
use osmo_fl2k.Stream.{
  Event, silent, repeated, produced, sent, with_status, reported, sent_event, InFlight,
}
use osmo_fl2k.Stream.Invariant.{Inv, Inv-keep, Inv-take}

-- What an event of the callback does to the number of buffers sent: one more is sent exactly with
-- the event `sent`, and it is the next of `done`.
abbrev pub Advances : List (List ℕ) → ℕ → Event → ℕ → Type 0
Advances done n silent m = m ≡ n
Advances done n (repeated r) m = m ≡ n
Advances done n (produced b) m = m ≡ n
Advances done n (sent r b) m = (m ≡ n + 1) × (get_elem? done n ≡ some b)

module _ (dev : Dev) (k : ℕ) (status : TransferStatus) (place : Place) (cnt n : ℕ)
    (done : List (List ℕ)) (flight : InFlight dev k) (inv : Inv dev.xfer place cnt done n) where
  pub reported-Inv : Inv (reported dev k status).xfer place cnt done n
  reported-Inv =
      Inv-keep dev.xfer place cnt done n inv (with_status status) k flight.xfer flight.at refl refl
        (λ q e. e)

  -- The transfer that was reported is not a filled one.
  not_reported : (j s : ℕ) → Found (reported dev k status).xfer j s → j ≢ k
  not_reported j s f e =
      let at : get_elem? (reported dev k status).xfer k ≡ some f.xfer =
        ap (get_elem? (reported dev k status).xfer) (sym e) ∙ f.at in
      let was = get_elem?-modify_self (with_status status) dev.xfer k flight.xfer flight.at in
      ground (arith, at, was, f.seq_of, flight.is_submitted)

  -- So it stands in `dev` as it is, and its buffer is the next to be sent.
  pub forward-event :
      (r : ℤ) (j : ℕ)
      → (f : Found (reported dev k status).xfer j n)
      → sent_event dev k r (some j) ≡ sent r f.xfer.buffer
  forward-event r j f =
      let ne = not_reported j n f in
      let at : get_elem? dev.xfer j ≡ some f.xfer =
        sym (get_elem?-modify_ne (with_status status) dev.xfer k j (λ e. ne (sym e))) ∙ f.at in
      ground (arith, at, ne)

  -- The state of the transfers after a filled one is submitted.
  forward-Inv :
      (j : ℕ)
      → n < length done
      → Found (reported dev k status).xfer j n
      → Inv
          (modify
            (with_state empty)
            (modify (with_state submitted) (reported dev k status).xfer j)
            k)
          place
          cnt
          done
          (n + 1)
  forward-Inv j more f =
      let xs = (reported dev k status).xfer in
      let ne = not_reported j n f in
      let taken =
        Inv-take xs place cnt done n reported-Inv (with_state submitted) j f.xfer f.at f.seq_of more
          (ground (arith, f.seq_of)) (λ q e. absurd (ground (arith, f.seq_of))) in
      let at =
        get_elem?-modify_ne (with_state submitted) xs j k ne
        ∙ get_elem?-modify_self (with_status status) dev.xfer k flight.xfer flight.at in
      Inv-keep _ place cnt done (n + 1) taken (with_state empty) k _ at
        (ground (arith, flight.is_submitted)) refl (λ q e. ground (arith, flight.is_submitted))

  again-event : (r : ℤ) → sent_event dev k r (some k) ≡ repeated r
  again-event r = ground arith

  callback-Inv :
      (r : ℤ) (c : Called)
      → Effect (reported dev k status) k c
      → (m : ℕ) × Advances done n (sent_event dev k r c.submits) m × Inv c.dev.xfer place cnt done m
  callback-Inv r c (ignores same e) = (n, rw e refl, rw same reported-Inv)
  callback-Inv r c (repeats _ same e) = (n, rw (e, again-event r) refl, rw same reported-Inv)
  callback-Inv r c (forwards j e same e') = by_found (get_next_xfer-filled (reported dev k status))
    where
      sends :
          (f : Found (reported dev k status).xfer j n)
          → n < length done
          → (m : ℕ) × Advances done n (sent_event dev k r c.submits) m
            × Inv c.dev.xfer place cnt done m
      sends f more = (
        n + 1,
        rw (e', forward-event r j f) (refl, (reported-Inv).content j n f.xfer f.at f.seq_of),
        rw same (forward-Inv j more f),
      )

      by_found :
          ((get_next_xfer (reported dev k status) filled ≡ none)
              × NoneFilled (reported dev k status).xfer)
            ⊎ ((i q : ℕ) × (get_next_xfer (reported dev k status) filled ≡ some i)
                × Found (reported dev k status).xfer i q)
          → (m : ℕ) × Advances done n (sent_event dev k r c.submits) m
            × Inv c.dev.xfer place cnt done m
      by_found (inl (none', _)) = absurd (cc)
      by_found (inr (i, q, found, f)) =
          let at : i ≡ j = cc in
          let (first, more) = oldest_in-Window n (length done) i q _ (reported-Inv).window f in
          sends (subst₂ (Found (reported dev k status).xfer) at first f) more

-- A callback for a transfer in flight, from a state with the invariant, sends the oldest buffer not
-- yet sent, or none, and keeps the invariant.
pub libusb_callback-Inv :
    (dev : Dev) (k : ℕ) (status : TransferStatus) (r : ℤ) (place : Place) (cnt n : ℕ)
    (done : List (List ℕ))
    → InFlight dev k
    → Inv dev.xfer place cnt done n
    → let c = libusb_callback (reported dev k status) k status r in
      (m : ℕ) × Advances done n (sent_event dev k r c.submits) m × Inv c.dev.xfer place cnt done m
libusb_callback-Inv dev k status r place cnt n done flight inv =
    callback-Inv dev k status place cnt n done flight inv r _
      (libusb_callback-Effect (reported dev k status) k status r)
