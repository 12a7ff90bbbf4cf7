-- ===== src/Stream/Progress.antt =====
-- What the two threads achieve while streaming runs.
use osmo_fl2k.Prelude.{
  ℕ, ◌+◌, ◌*◌, ◌^◌, ◌%◌, ◌≤◌, ◌<◌, List, none, some, true, ◌≡◌, refl, ◌≢◌, ◌⊎◌, inl, inr, arith, ℤ,
  ltb, get_elem?, length, modify, get_elem?-modify_self, get_elem?-modify_ne, sym, if◌then◌else◌,
}
use mathlib.Core.Path.{subst₂}
use osmo_fl2k.Device.{empty, filled, completed, Dev, Xfer, is_running}
use osmo_fl2k.Transfers.{get_next_xfer, libusb_callback, Called}
use osmo_fl2k.Transfers.Filled.{NoneFilled, Found, get_next_xfer-filled}
use osmo_fl2k.Transfers.Window.{oldest_in-Window, Window-empty}
use osmo_fl2k.Transfers.Callback.{Effect, ignores, repeats, forwards, libusb_callback-Effect}
use osmo_fl2k.Convert.{rearrange}
use osmo_fl2k.Convert.Channels.{Holds, Rearranged, rearrange-Rearranged}
use osmo_fl2k.Worker.{
  DataInfo, Place, at_test, holding, Worker, fills, Worked, quiet, fill_xfer, new_info, step,
}
use osmo_fl2k.Stream.{sent, reported, sent_event, InFlight}
use osmo_fl2k.Stream.Invariant.{Inv}
use osmo_fl2k.Stream.Preserve.{reported-Inv, forward-event}
use osmo_fl2k.Stream.Working.{claimed-Free}

submits_something :
    (dev : Dev) (k : ℕ) (r : ℤ)
    → is_running dev.async_status ≡ true
    → (libusb_callback dev k completed r).submits ≢ none
unfolding libusb_callback
submits_something dev k r h = ground arith

module _ (dev : Dev) (k : ℕ) (r : ℤ) (place : Place) (cnt n : ℕ) (done : List (List ℕ))
    (flight : InFlight dev k) (inv : Inv dev.xfer place cnt done n)
    (runs : is_running dev.async_status ≡ true) (more : n < length done) where
  abbrev called : Called
  called = libusb_callback (reported dev k completed) k completed r

  Effect-sends :
      Effect (reported dev k completed) k called
      → (b : List ℕ) × (sent_event dev k r called.submits ≡ sent r b) × (get_elem? done n ≡ some b)
  Effect-sends (ignores _ e) = absurd (submits_something (reported dev k completed) k r runs e)
  Effect-sends (repeats e _ _) = absurd (by_found (get_next_xfer-filled (reported dev k completed)))
    where
      rep : Inv (reported dev k completed).xfer place cnt done n
      rep = reported-Inv dev k completed place cnt n done flight inv

      by_found :
          ((get_next_xfer (reported dev k completed) filled ≡ none)
              × NoneFilled (reported dev k completed).xfer)
            ⊎ ((i q : ℕ) × (get_next_xfer (reported dev k completed) filled ≡ some i)
                × Found (reported dev k completed).xfer i q)
          → ⊥
      by_found (inl (_, h)) = omega (arith, Window-empty n (length done) _ rep.window h)
      by_found (inr (i, q, e', _)) = cc
  Effect-sends (forwards j e _ e') = by_found (get_next_xfer-filled (reported dev k completed))
    where
      rep : Inv (reported dev k completed).xfer place cnt done n
      rep = reported-Inv dev k completed place cnt n done flight inv

      by_found :
          ((get_next_xfer (reported dev k completed) filled ≡ none)
              × NoneFilled (reported dev k completed).xfer)
            ⊎ ((i q : ℕ) × (get_next_xfer (reported dev k completed) filled ≡ some i)
                × Found (reported dev k completed).xfer i q)
          → (b : List ℕ) × (sent_event dev k r called.submits ≡ sent r b)
            × (get_elem? done n ≡ some b)
      by_found (inl (none', _)) = absurd (cc)
      by_found (inr (i, q, found, f)) =
          let at : i ≡ j = cc in
          let (first, _) = oldest_in-Window n (length done) i q _ rep.window f in
          let g = subst₂ (Found (reported dev k completed).xfer) at first f in
          (
            g.xfer.buffer,
            rw e' (forward-event dev k completed place cnt n done flight inv r j g),
            rep.content j n g.xfer g.at g.seq_of,
          )

-- While the invariant holds, streaming runs and a filled buffer waits, the completion of any
-- transfer in flight sends the oldest buffer that waits.
pub completion_sends :
    (dev : Dev) (k : ℕ) (r : ℤ) (place : Place) (cnt n : ℕ) (done : List (List ℕ))
    → InFlight dev k
    → Inv dev.xfer place cnt done n
    → is_running dev.async_status ≡ true
    → n < length done
    → let c = libusb_callback (reported dev k completed) k completed r in
      (b : List ℕ) × (sent_event dev k r c.submits ≡ sent r b) × (get_elem? done n ≡ some b)
completion_sends dev k r place cnt n done flight inv runs more =
    Effect-sends dev k r place cnt n done flight inv runs more
      (libusb_callback-Effect (reported dev k completed) k completed r)

-- Transfer `k` of a device is marked as filled with these bytes and this number, and the other transfers are as before.
pub record Stored (before after : Dev) (k number : ℕ) (bytes : List ℕ) : Type 0 where
  pub xfer : Xfer
  pub at : get_elem? after.xfer k ≡ some xfer
  pub holds : xfer.buffer ≡ bytes
  pub marked : xfer.user_data ≡ some (record { seq = number; state = filled })
  pub others : (j : ℕ) → j ≢ k → get_elem? after.xfer j ≡ get_elem? before.xfer j

-- Two steps of the worker that fill a transfer.
pub record Round (reply : DataInfo → DataInfo) (dev : Dev) (w : Worker) (k : ℕ) (x : Xfer) (m : ℕ)
    : Type 0 where
  pub claimed : Worked
  pub done : Worked
  pub bytes : List ℕ
  pub claims : step reply dev w ≡ some claimed
  pub goes_on : step reply claimed.dev claimed.worker ≡ some done
  pub shows : done.output ≡ fills bytes
  pub stored : Stored dev done.dev k w.buf_cnt bytes
  pub same_status : done.dev.async_status ≡ dev.async_status
  pub info : DataInfo
  pub asked : info ≡ reply (new_info dev)
  pub converts :
      Rearranged info.r_buf info.g_buf info.b_buf
        (if info.sampletype_signed then 128 else 0)
        x.buffer
        m
        (some bytes)

abbrev pub claimed_by : (DataInfo → DataInfo) → Dev → Worker → ℕ → Worked
claimed_by reply dev w k = record {
  dev = dev;
  worker = record w {
    place = holding k;
    data_info = reply (new_info dev);
    underflows = if ltb w.underflows dev.underflow_cnt then dev.underflow_cnt else w.underflows;
  };
  output = quiet;
}

pub claim_step :
    (reply : DataInfo → DataInfo) (dev : Dev) (w : Worker) (k : ℕ)
    → is_running dev.async_status ≡ true
    → dev.has_cb ≡ true
    → w.place ≡ at_test
    → get_next_xfer dev empty ≡ some k
    → step reply dev w ≡ some (claimed_by reply dev w k)
unfolding step
claim_step reply dev w k runs cb place free = ground arith

abbrev pub filled_by : Dev → Worker → ℕ → List ℕ → Worked
filled_by dev w k bytes = record {
  dev = record dev { xfer = modify (fill_xfer bytes w.buf_cnt) dev.xfer k };
  worker = record w { place = at_test; buf_cnt = (w.buf_cnt + 1) % 2 ^ 64 };
  output = fills bytes;
}

pub fill_step :
    (reply : DataInfo → DataInfo) (dev : Dev) (w : Worker) (k : ℕ) (x : Xfer) (bytes : List ℕ)
    → w.place ≡ holding k
    → get_elem? dev.xfer k ≡ some x
    → rearrange x.buffer w.data_info.r_buf w.data_info.g_buf w.data_info.b_buf dev.xfer_buf_len
        (if w.data_info.sampletype_signed then 128 else 0)
      ≡ some bytes
    → step reply dev w ≡ some (filled_by dev w k bytes)
unfolding step
fill_step reply dev w k x bytes place at conv = ground arith

-- The transfer that the worker took was empty, so it has its information.
pub filled_by-Stored :
    (dev : Dev) (w : Worker) (k : ℕ) (bytes : List ℕ)
    → get_next_xfer dev empty ≡ some k
    → Stored dev (filled_by dev w k bytes).dev k w.buf_cnt bytes
filled_by-Stored dev w k bytes free =
    let f = claimed-Free dev k free in
    record {
      xfer = fill_xfer bytes w.buf_cnt f.xfer;
      at = get_elem?-modify_self (fill_xfer bytes w.buf_cnt) dev.xfer k f.xfer f.at;
      holds = refl;
      marked = rw f.is_free refl;
      others =
          λ j ne. get_elem?-modify_ne (fill_xfer bytes w.buf_cnt) dev.xfer k j (λ e. ne (sym e));
    }

-- While streaming runs with a callback, a round of the worker that starts at its test and finds an
-- empty transfer asks the application, stores the samples that it is given in that transfer and in
-- no other one, and marks it as filled, with the number that its count of buffers has; if transfers are of whole blocks below 2 ^ 32 bytes and these buffers and the transfer's are long
-- enough.
pub worker-Round :
    (reply : DataInfo → DataInfo) (dev : Dev) (w : Worker) (k : ℕ) (x : Xfer) (m : ℕ)
    → is_running dev.async_status ≡ true
    → dev.has_cb ≡ true
    → w.place ≡ at_test
    → get_next_xfer dev empty ≡ some k
    → get_elem? dev.xfer k ≡ some x
    → dev.xfer_buf_len ≡ 24 * m
    → 24 * m < 2 ^ 32
    → 24 * m ≤ length x.buffer
    → Holds m (reply (new_info dev)).r_buf
    → Holds m (reply (new_info dev)).g_buf
    → Holds m (reply (new_info dev)).b_buf
    → Round reply dev w k x m
worker-Round reply dev w k x m runs cb place free at len small long r g b =
    let info = reply (new_info dev) in
    let off : ℕ = if info.sampletype_signed then 128 else 0 in
    let c = rearrange-Rearranged info.r_buf info.g_buf info.b_buf off x.buffer m small long r g b in
    let after = (claimed_by reply dev w k).worker in
    record {
      claimed = claimed_by reply dev w k;
      done = filled_by dev after k c.out';
      bytes = c.out';
      claims = claim_step reply dev w k runs cb place free;
      goes_on = fill_step reply dev after k x c.out' refl at (rw len c.returns);
      shows = refl;
      stored = filled_by-Stored dev w k c.out' free;
      same_status = refl;
      info = info;
      asked = refl;
      converts = rw c.returns at c;
    }
