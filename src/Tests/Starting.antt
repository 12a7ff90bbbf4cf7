-- ===== src/Tests/Starting.antt =====
-- `fl2k_start_tx` of src/libosmo-fl2k.c with one transfer asked for, so that three are allocated.
use osmo_fl2k.Prelude.{[], ◌∷◌, true, false, ◌==◌, if◌then◌else◌, ◌≡◌, refl, arith, pos}
use osmo_fl2k.Device.{inactive, Dev, success, error_busy}
use osmo_fl2k.Start.{
  Env, zeroed, refused, kernel, skips, misuses, kernel_from, user_from, alloc_submit_transfers,
  spawn, start_tx,
}
use osmo_fl2k.Start.Outcome.{IsReady, start_tx-IsReady}

abbrev pub idle : Dev
idle = record {
  xfer = [];
  xfer_num = 0;
  xfer_buf_num = 0;
  xfer_buf_len = 0;
  has_cb = false;
  async_status = inactive;
  async_cancel = false;
  use_zerocopy = false;
  dev_lost = false;
  underflow_cnt = 0;
}

abbrev pub plenty : Env
plenty = record {
  dev_mem = λ i. zeroed;
  malloc = λ i. true;
  submit = λ i. pos 0;
  create_usb = pos 0;
  create_sample = pos 0;
}

-- The third zero-copy buffer is refused, and then there is no memory left.
abbrev pub scarce : Env
scarce = record plenty { dev_mem = λ i. if i == 2 then refused else zeroed; malloc = λ i. false }

zero_copy : (start_tx plenty idle 1).slots ≡ kernel ∷ kernel ∷ kernel ∷ []
unfolding start_tx spawn alloc_submit_transfers kernel_from user_from
zero_copy = refl

starts : (start_tx plenty idle 1).result ≡ success
unfolding start_tx spawn alloc_submit_transfers kernel_from user_from
starts = refl

pub fails : (start_tx scarce idle 1).result ≡ error_busy
unfolding start_tx spawn alloc_submit_transfers kernel_from user_from
fails = refl

-- The second buffer, freed by the fallback, is freed again.
freed_twice : (start_tx scarce idle 1).released ≡ skips ∷ misuses ∷ skips ∷ []
unfolding start_tx spawn alloc_submit_transfers kernel_from user_from
freed_twice = refl

start_tx-IsReady_example : IsReady (start_tx plenty idle 1) 1
start_tx-IsReady_example = start_tx-IsReady plenty idle 1 (omega arith) starts
