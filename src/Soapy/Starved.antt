-- ===== src/Soapy/Starved.antt =====
-- src/SoapySDR/Streaming.cpp, `tx_callback`, as the callback of `fl2k_sample_worker` in
-- src/libosmo-fl2k.c.
use osmo_fl2k.Prelude.{ℕ, ◌<◌, List, none, some, true, ◌≡◌, refl, get_elem?, arith}
use osmo_fl2k.Device.{empty, Xfer, Dev, is_running}
use osmo_fl2k.Transfers.{get_next_xfer}
use osmo_fl2k.Convert.{convert_r, convert_g, convert_b, convert, rearrange}
use osmo_fl2k.Worker.{at_test, DataInfo, Worker, fills, Worked, new_info, step}
use osmo_fl2k.Stream.Progress.{
  Stored, filled_by-Stored, claimed_by, filled_by, claim_step, fill_step,
}
use osmo_fl2k.Soapy.{Soapy, tx_callback}

-- What `tx_callback` does to the `fl2k_data_info_t`.
abbrev pub soapy_reply : Soapy → DataInfo → DataInfo
soapy_reply s info = elim (tx_callback s info) [ none ↦ info | some r ↦ r.1 ]

rearrange_nothing :
    (out : List ℕ) (len offset : ℕ) → rearrange out none none none len offset ≡ some out
unfolding rearrange convert_r convert_g convert_b convert
rearrange_nothing out len offset = refl

no_reply : (s : Soapy) (info : DataInfo) → 0 < info.underflow_cnt → soapy_reply s info ≡ info
unfolding tx_callback
no_reply s info l = ground arith

-- Two steps of the worker mark a transfer as filled with the bytes that it had before.
pub record Resent (reply : DataInfo → DataInfo) (dev : Dev) (w : Worker) (k : ℕ) (x : Xfer)
    : Type 0 where
  pub claimed : Worked
  pub filled : Worked
  pub claims : step reply dev w ≡ some claimed
  pub goes_on : step reply claimed.dev claimed.worker ≡ some filled
  pub shows : filled.output ≡ fills x.buffer
  pub stored : Stored dev filled.dev k w.buf_cnt x.buffer
  pub still : filled.dev.underflow_cnt ≡ dev.underflow_cnt

-- Once the device has counted an underflow, a worker at the test of its loop that asks this callback and finds an
-- empty transfer marks that transfer, and no other one, as filled with the bytes that it had before, however many
-- buffers the ring holds;
-- and the count, which is not reset, is the same afterwards.
pub starved_for_good :
    (s : Soapy) (dev : Dev) (w : Worker) (k : ℕ) (x : Xfer)
    → is_running dev.async_status ≡ true
    → dev.has_cb ≡ true
    → w.place ≡ at_test
    → get_next_xfer dev empty ≡ some k
    → get_elem? dev.xfer k ≡ some x
    → 0 < dev.underflow_cnt
    → Resent (soapy_reply s) dev w k x
starved_for_good s dev w k x runs cb place free at more =
    let reply = soapy_reply s in
    let after = (claimed_by reply dev w k).worker in
    let nothing : after.data_info ≡ new_info dev = no_reply s (new_info dev) more in
    record {
      claimed = claimed_by reply dev w k;
      filled = filled_by dev after k x.buffer;
      claims = claim_step reply dev w k runs cb place free;
      goes_on =
          fill_step reply dev after k x x.buffer refl at
            (rw nothing (rearrange_nothing x.buffer dev.xfer_buf_len 0));
      shows = refl;
      stored = filled_by-Stored dev after k x.buffer free;
      still = refl;
    }
