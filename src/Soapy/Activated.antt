-- ===== src/Soapy/Activated.antt =====
-- src/SoapySDR/Streaming.cpp: `activateStream` behind `setupStream`, with the transfers that the library starts.
use osmo_fl2k.Prelude.{ℕ, ◌%◌, ◌^◌, ◌<◌, List, Option, some, Bool, true, ◌≡◌, refl, arith}
use mathlib.Core.Path.{subst}
use osmo_fl2k.Device.{Dev, success}
use osmo_fl2k.Start.{Env, Started, start_tx}
use osmo_fl2k.Start.Outcome.{IsReady, first_ones, start_tx-IsReady}
use osmo_fl2k.Soapy.{TxFormat, Soapy}
use osmo_fl2k.Soapy.Setup.{Arg, ready, setup_stream, activate_stream}
use osmo_fl2k.Soapy.Sim.{Sim}
use osmo_fl2k.Soapy.Ready.{FitsInt, fresh, setup_stream-Sim}

-- Behind the two calls: an empty queue that is to be reset, and a device that streams, if it was started.
pub record IsActivated (s : Soapy) (env : Env) (dev : Dev) (s1 : Soapy) (started : Started)
    : Type 0 where
  pub returns : activate_stream s env dev 0 ≡ some (s1, started)
  pub some_buffs : 0 < s1.async_buffs
  pub queue : Sim s1 (fresh s1)
  pub to_reset : s1.reset_buffer ≡ true
  pub none_begun : s1.buffered_elems ≡ 0
  pub streams : (started.result ≡ success) → IsReady started s1.async_buffs

reset-Sim :
    (s : Soapy)
    → Sim s (fresh s)
    → let s1 : Soapy = record s { reset_buffer = true; buffered_elems = 0 } in Sim s1 (fresh s1)
reset-Sim s m = record {
  fits = m.fits;
  cells = m.cells;
  current = m.current;
  draft = m.draft;
  channels = m.channels;
  signed = m.signed;
  event = m.event;
  reset = refl;
}

start_tx-asked :
    (env : Env) (dev : Dev) (n : ℕ)
    → 0 < n
    → n < 2 ^ 31
    → (start_tx env dev (n % 2 ^ 32)).result ≡ success
    → IsReady (start_tx env dev (n % 2 ^ 32)) n
start_tx-asked env dev n more few h =
    let same : first_ones (n % 2 ^ 32) ≡ n = ground arith in
    subst (λ k. IsReady (start_tx env dev (n % 2 ^ 32)) k) same
      (start_tx-IsReady env dev (n % 2 ^ 32) (omega arith) h)

-- A stream that `setupStream` returns, for numbers of buffers that are given within an int, or not given, can be
-- activated: the ring has at least one buffer, holds the empty queue of that many, and is to be emptied at the next
-- write. If `fl2k_start_tx` succeeds, the device streams with as many transfers and two more, not with the four that
-- the library takes where none are asked for: none is filled, the last two are empty, and each has a buffer that is
-- freed the way it was allocated.
pub setup_stream-IsActivated :
    (s s' : Soapy) (is_tx : Bool) (format : Option TxFormat) (channels : List ℕ)
    (bufflen buffers async_buffs : Arg) (env : Env) (dev : Dev)
    → FitsInt buffers
    → FitsInt async_buffs
    → setup_stream s is_tx format channels bufflen buffers async_buffs ≡ ready s'
    → (s1 : Soapy) × (started : Started) × IsActivated s' env dev s1 started
setup_stream-IsActivated s s' is_tx format channels bufflen buffers async_buffs env dev f g e =
    let (more, few, m) =
      setup_stream-Sim s s' is_tx format channels bufflen buffers async_buffs f g e in
    (
      record s' { reset_buffer = true; buffered_elems = 0 },
      start_tx env dev (s'.async_buffs % 2 ^ 32),
      record {
        returns = refl;
        some_buffs = more;
        queue = reset-Sim s' m;
        to_reset = refl;
        none_begun = refl;
        streams = start_tx-asked env dev s'.async_buffs more few;
      },
    )
