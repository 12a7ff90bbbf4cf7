-- ===== src/Worker.antt =====
-- src/libosmo-fl2k.c, `fl2k_sample_worker`: the thread that asks the application for samples and
-- fills empty transfers with them. One step goes from one point where another thread may run to the
-- next one.
use mathlib.Core.Option
use osmo_fl2k.Prelude.{
  ℕ, ◌+◌, ◌%◌, ◌^◌, List, Option, none, some, Bool, true, false, ◌&&◌, ltb, if◌then◌else◌,
  get_elem?, modify,
}
use osmo_fl2k.Device.{empty, filled, XferInfo, Xfer, Dev, is_running, buf_len}
use osmo_fl2k.Transfers.{get_next_xfer}
use osmo_fl2k.Convert.{rearrange}

-- `fl2k_data_info_t`, without the user's context; `none` is a NULL buffer.
pub record DataInfo : Type 0 where
  pub underflow_cnt : ℕ
  pub len : ℕ
  pub device_error : Bool
  pub sampletype_signed : Bool
  pub r_buf : Option (List ℕ)
  pub g_buf : Option (List ℕ)
  pub b_buf : Option (List ℕ)

-- Where the thread stands: at the test of its loop, in `pthread_cond_wait`, with an empty transfer
-- in hand, or at its end.
pub data Place : Type 0 where
  at_test waiting finished : Place
  holding : ℕ → Place

-- The local variables of the thread.
pub record Worker : Type 0 where
  pub place : Place
  pub data_info : DataInfo
  pub underflows : ℕ
  pub buf_cnt : ℕ

-- What a step shows: nothing, a transfer filled with these bytes, or the application told that the
-- device is gone.
pub data Output : Type 0 where
  quiet : Output
  fills : List ℕ → Output
  notifies : DataInfo → Output

pub record Worked : Type 0 where
  pub dev : Dev
  pub worker : Worker
  pub output : Output

-- `memset`, and the fields that the library provides.
abbrev pub new_info : Dev → DataInfo
new_info dev = record {
  underflow_cnt = dev.underflow_cnt;
  len = buf_len;
  device_error = false;
  sampletype_signed = false;
  r_buf = none;
  g_buf = none;
  b_buf = none;
}

-- The code behind the loop.
unfoldable pub leave : Dev → Worker → Worked
leave dev w =
    let info = record w.data_info { device_error = true } in
    if dev.dev_lost && dev.has_cb
    then record {
      dev = dev;
      worker = record w { place = finished; data_info = info };
      output = notifies info;
    }
    else record { dev = dev; worker = record w { place = finished }; output = quiet }

-- `fl2k_get_next_xfer(dev, BUF_EMPTY)`, and where the thread goes without one.
claim : Dev → Worker → Place → Worked
claim dev w otherwise = record {
  dev = dev;
  worker = record w {
    place = elim (get_next_xfer dev empty) [ none ↦ otherwise | some k ↦ holding k ];
  };
  output = quiet;
}

-- A new entry of the loop: the callback is asked, then an empty transfer is looked for.
enter : (DataInfo → DataInfo) → Dev → Worker → Worked
unfolding claim
enter reply dev w =
    let info = if dev.has_cb then reply (new_info dev) else new_info dev in
    let seen = if ltb w.underflows dev.underflow_cnt then dev.underflow_cnt else w.underflows in
    claim dev (record w { data_info = info; underflows = seen }) waiting

-- `xfer_info->seq = buf_cnt; xfer_info->state = BUF_FILLED` on a transfer with the new bytes.
abbrev pub fill_xfer : List ℕ → ℕ → Xfer → Xfer
fill_xfer bytes seq x = record x { buffer = bytes; user_data = Option.map mark x.user_data }
  where
    mark : XferInfo → XferInfo
    mark i = record i { seq = seq; state = filled }

-- The transfer in hand is filled. `none` is an access outside a buffer.
fill : Dev → Worker → ℕ → Option Worked
fill dev w k = elim (get_elem? dev.xfer k) [
  | none ↦ none
  | some x ↦ Option.map filled_with (
      rearrange x.buffer info.r_buf info.g_buf info.b_buf dev.xfer_buf_len
        (if info.sampletype_signed then 128 else 0))
]
  where
    open w use {data_info as info}

    filled_with : List ℕ → Worked
    filled_with bytes = record {
      dev = record dev { xfer = modify (fill_xfer bytes w.buf_cnt) dev.xfer k };
      worker = record w { place = at_test; buf_cnt = (w.buf_cnt + 1) % 2 ^ 64 };
      output = fills bytes;
    }

-- One step from where the thread stands. `reply` is what the application's callback does to the
-- `fl2k_data_info_t` that it is given.
unfoldable pub step_at : Place → (DataInfo → DataInfo) → Dev → Worker → Option Worked
unfolding leave claim enter fill
step_at at_test reply dev w =
    some (if is_running dev.async_status then enter reply dev w else leave dev w)
step_at waiting reply dev w =
    some (if is_running dev.async_status then claim dev w at_test else leave dev w)
step_at (holding k) reply dev w = fill dev w k
step_at finished reply dev w = some (record { dev = dev; worker = w; output = quiet })

unfoldable pub step : (DataInfo → DataInfo) → Dev → Worker → Option Worked
unfolding step_at
step reply dev w = step_at w.place reply dev w
