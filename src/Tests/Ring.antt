-- ===== src/Tests/Ring.antt =====
-- The ring of buffers of src/SoapySDR/Streaming.cpp, with buffers of a few bytes.
use osmo_fl2k.Prelude.{
  ℕ, ◌∷◌, [], List, none, some, true, false, ◌≡◌, inl, refl, arith, pos, replicate,
}
use osmo_fl2k.Device.{empty, Dev, buf_len, xfer_len}
use osmo_fl2k.Worker.{DataInfo}
use osmo_fl2k.Transfers.{next_from, get_next_xfer}
use osmo_fl2k.Soapy.{float32, int8, Buffer, Soapy, elems, underflow, give_all}
use osmo_fl2k.Soapy.Model.{
  Act, asks, acquires, releases, writes, Reply, given, got, done, Model, model,
}
use osmo_fl2k.Soapy.Sim.{Sim}
use osmo_fl2k.Soapy.Refine.{perform_all, model_all}
use osmo_fl2k.Soapy.Lent.{Kept, ring_lends}
use osmo_fl2k.Soapy.Setup.{ready, absent, number, empty_ring, setup_stream}
use osmo_fl2k.Soapy.Ready.{fresh, empty_ring-Sim}
use osmo_fl2k.Soapy.Activated.{IsActivated, setup_stream-IsActivated}
use osmo_fl2k.Start.{Started}
use osmo_fl2k.Tests.Starting.{idle, plenty}
use osmo_fl2k.Soapy.Write.{Written, eighth, write_rest}
use osmo_fl2k.Soapy.Stored.{write_rest-ignores}
use osmo_fl2k.Soapy.Starved.{soapy_reply, Resent, starved_for_good}
use osmo_fl2k.Tests.Scenario.{xfer_of, device, worker}

abbrev pub bytes : ℕ → Buffer
bytes n = record { tick = 0; red = n ∷ n ∷ []; green = []; blue = [] }

abbrev pub tiny : Soapy
tiny = record {
  tx_format = int8;
  signed = true;
  channels = 0 ∷ [];
  buffer_length = xfer_len;
  async_buffs = 2;
  ticks = 0;
  buffs = bytes 0 ∷ bytes 1 ∷ [];
  buf_head = 0;
  buf_tail = 0;
  buf_count = 2;
  current_buffs = replicate 3 (record { handle = 0; offset = 0 });
  underflow_event = false;
  current_handle = 0;
  buffered_elems = 2;
  buf_ticks = 0;
  reset_buffer = false;
}

abbrev info : DataInfo
info = record {
  underflow_cnt = 0;
  len = buf_len;
  device_error = false;
  sampletype_signed = false;
  r_buf = none;
  g_buf = none;
  b_buf = none;
}

abbrev acts : List Act
acts = asks info ∷ acquires ∷ acquires ∷ writes (bytes 7) ∷ releases ∷ asks info ∷ []

abbrev replies : List Reply
replies =
    given info
    ∷ got underflow
    ∷ got (elems buf_len)
    ∷ done
    ∷ done
    ∷ given (record info { sampletype_signed = true; r_buf = some (7 ∷ 7 ∷ []) })
    ∷ []

abbrev pub ring : Soapy
ring = empty_ring tiny

abbrev after : Model
after = record (fresh ring) { queue = [] }

runs : model_all acts (fresh ring) ≡ some (after, replies)
unfolding model_all model give_all empty_ring
runs = refl

ring_lends_example :
    (s' : Soapy) × (perform_all acts ring ≡ some (s', replies))
    × Sim s' after
    × ((i : ℕ) → Kept acts ring s' i)
ring_lends_example =
    ring_lends acts ring (fresh ring) after replies
      (empty_ring-Sim tiny (omega arith) (omega arith)) runs

abbrev made : Soapy
made = empty_ring (record tiny { channels = 0 ∷ 2 ∷ []; tx_format = float32 })

set_up :
    setup_stream tiny true (some float32) (0 ∷ 2 ∷ []) absent (number (pos 0)) (number (pos 2))
    ≡ ready made
unfolding setup_stream
set_up = refl

setup_stream-IsActivated_example :
    (s1 : Soapy) × (started : Started) × IsActivated made plenty idle s1 started
setup_stream-IsActivated_example =
    setup_stream-IsActivated tiny made true (some float32) (0 ∷ 2 ∷ []) absent (number (pos 0))
      (number (pos 2)) plenty idle (omega arith) (omega arith) set_up

abbrev inputs : List (List ℕ)
inputs = (5 ∷ []) ∷ [] ∷ [] ∷ []

write_rest-ignores_example :
    (w : Written) × (write_rest eighth inputs 1 tiny ≡ some w)
    × (w.stream.buffs ≡ tiny.buffs)
    × (w.result ≡ elems 1)
write_rest-ignores_example = write_rest-ignores eighth inputs 1 tiny (inl refl) refl refl refl

abbrev late : Dev
late = record device { underflow_cnt = 1 }

starved_for_good_example : Resent (soapy_reply tiny) late worker 1 (xfer_of empty 0)
unfolding next_from get_next_xfer
starved_for_good_example =
    starved_for_good tiny late worker 1 (xfer_of empty 0) refl refl refl refl refl (omega arith)
