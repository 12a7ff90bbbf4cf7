-- ===== src/Tests/Scenario.antt =====
-- A stream of src/libosmo-fl2k.c with three transfers of one block each: the worker fills one, and a
-- callback sends it.
use osmo_fl2k.Prelude.{
  ℕ, zero, suc, length, ap, List, [], ◌∷◌, some, true, false, ◌≡◌, refl, arith, pos, get_elem?,
  replicate,
}
use osmo_fl2k.Device.{running, BufState, empty, submitted, filled, completed, Xfer, Dev}
use osmo_fl2k.Transfers.{next_from, get_next_xfer, libusb_callback, resubmit}
use osmo_fl2k.Convert.{
  store, convert_block, convert_from, convert, convert_r, convert_g, convert_b, rearrange,
}
use osmo_fl2k.Worker.{
  DataInfo, at_test, holding, Worker, Worked, quiet, fills, new_info, step_at, step,
}
use osmo_fl2k.Stream.{
  Stream, Event, silent, produced, sent, InFlight, works, calls_back, Run, here, next,
}
use osmo_fl2k.Stream.Invariant.{Inv}
use osmo_fl2k.Stream.Fifo.{IsStarted, run-Inv}

abbrev pub xfer_of : BufState → ℕ → Xfer
xfer_of state seq = record {
  user_data = some (record { seq = seq; state = state });
  buffer = replicate 24 0;
  status = completed;
}

abbrev pub device : Dev
device = record {
  xfer = xfer_of submitted 0 ∷ xfer_of empty 0 ∷ xfer_of empty 0 ∷ [];
  xfer_num = 1;
  xfer_buf_num = 3;
  xfer_buf_len = 24;
  has_cb = true;
  async_status = running;
  async_cancel = false;
  use_zerocopy = false;
  dev_lost = false;
  underflow_cnt = 0;
}

abbrev pub worker : Worker
worker = record { place = at_test; data_info = new_info device; underflows = 0; buf_cnt = 0 }

-- An application that sends eight samples on the red channel.
abbrev pub reply : DataInfo → DataInfo
reply info = record info { r_buf = some (1 ∷ 2 ∷ 3 ∷ 4 ∷ 5 ∷ 6 ∷ 7 ∷ 8 ∷ []) }

abbrev pub start : Stream
start = record { dev = device; worker = worker }

-- The transfer buffer with those samples in their places.
abbrev pub block : List ℕ
block =
    0 ∷ 2 ∷ 0 ∷ 0 ∷ 0 ∷ 0 ∷ 1 ∷ 0 ∷ 0 ∷ 0 ∷ 5 ∷ 0 ∷ 3 ∷ 0 ∷ 0 ∷ 4 ∷ 7 ∷ 0 ∷ 0 ∷ 8 ∷ 0 ∷ 6 ∷ 0 ∷ 0
    ∷ []

abbrev pub claimed : Worked
claimed = record {
  dev = device;
  worker = record worker { place = holding 1; data_info = reply (new_info device) };
  output = quiet;
}

abbrev pub one_filled : Worked
one_filled = record {
  dev = record device {
    xfer =
        xfer_of submitted 0 ∷ record (xfer_of filled 0) { buffer = block } ∷ xfer_of empty 0 ∷ [];
  };
  worker = record claimed.worker { place = at_test; buf_cnt = 1 };
  output = fills block;
}

abbrev pub with_one : Stream
with_one = record { dev = one_filled.dev; worker = one_filled.worker }

pub first_step : step reply device worker ≡ some claimed
unfolding step step_at next_from get_next_xfer
first_step = refl

pub second_step : step reply claimed.dev claimed.worker ≡ some one_filled
unfolding step step_at rearrange convert_r convert_g convert_b convert convert_from convert_block
    store
second_step = refl

-- Transfer 0 completes, and libusb gets the block.
abbrev pub after_sending : Stream
after_sending = record with_one {
  dev = record one_filled.dev {
    xfer = xfer_of empty 0 ∷ record (xfer_of submitted 0) { buffer = block } ∷ xfer_of empty 0 ∷ [];
  };
}

abbrev pub filling : List Event
filling = silent ∷ produced block ∷ []

abbrev pub sending : List Event
sending = silent ∷ produced block ∷ sent (pos 4) block ∷ []

pub in_flight : (dev : Dev) → get_elem? dev.xfer 0 ≡ some (xfer_of submitted 0) → InFlight dev 0
in_flight dev at = record { xfer = xfer_of submitted 0; seq = 0; at = at; is_submitted = refl }

pub filling-Run : Run reply start filling with_one
filling-Run = next (next here (works claimed first_step)) (works one_filled second_step)

pub sending-Run : Run reply start sending after_sending
unfolding libusb_callback resubmit next_from get_next_xfer
sending-Run = next filling-Run (calls_back 0 completed (pos 4) (in_flight with_one.dev refl))

pub start-IsStarted : IsStarted start
start-IsStarted = record {
  at_start = refl;
  none_counted = refl;
  none_filled = (refl, (refl, (refl, tt)));
}

pub with_one-Inv : Inv with_one.dev.xfer at_test 1 (block ∷ []) 0
with_one-Inv = run-Inv reply start with_one filling filling-Run start-IsStarted (omega arith)

pub start-Inv : Inv start.dev.xfer at_test 0 [] 0
start-Inv = run-Inv reply start start [] here start-IsStarted (omega arith)

-- A list of a length, for buffers that are too long to be written out.
pub of_length : (n v : ℕ) → (xs : List ℕ) × (length xs ≡ n)
of_length zero v = ([], refl)
of_length (suc n) v = let (xs, e) = of_length n v in (v ∷ xs, ap suc e)
