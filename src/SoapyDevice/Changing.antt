-- ===== src/SoapyDevice/Changing.antt =====
-- A change of the sample rate, and the ring of the stream.
use mathlib.Core.Path.{subst}
use osmo_fl2k.Prelude.{ℕ, ◌<◌, [], Option, none, some, true, false, ◌≡◌, refl, sym, ◌∙◌, arith}
use osmo_fl2k.Device.{buf_len}
use osmo_fl2k.Registers.{Bus}
use osmo_fl2k.SampleRate.{Floats}
use osmo_fl2k.Soapy.{Soapy, elems}
use osmo_fl2k.Soapy.Model.{acquires, got, perform, Model, renewed, begin}
use osmo_fl2k.Soapy.Sim.{Sim, Follows}
use osmo_fl2k.Soapy.Acquiring.{acquires-Sim}
use osmo_fl2k.SoapyDevice.{SoapyOsmoFl2k}
use osmo_fl2k.SoapyDevice.Settings.{Clock, at_rate, get_sample_rate, set_sample_rate}

-- The ring of a device at another rate holds the same queue, which is to be dropped.
at_rate-Sim :
    (clock : Clock) (rate : ℕ) (d : SoapyOsmoFl2k) (a : Model)
    → Sim d.stream a
    → Sim (at_rate clock rate d).stream (record a { reset_buffer = true })
unfolding at_rate
at_rate-Sim clock rate d a sim = record {
  fits = sim.fits;
  cells = sim.cells;
  current = sim.current;
  draft = sim.draft;
  channels = sim.channels;
  signed = sim.signed;
  event = sim.event;
  reset = refl;
}

at_rate-rate :
    (clock : Clock) (rate : ℕ) (d : SoapyOsmoFl2k) → (at_rate clock rate d).sample_rate ≡ rate
unfolding at_rate
at_rate-rate clock rate d = refl

-- Behind a change of the rate the application gets a buffer at once, however full the ring was.
begin-renewed :
    (a : Model)
    → 0 < a.size
    → begin (renewed (record a { reset_buffer = true })) ≡ (
      record a {
        queue = [];
        underflow_event = false;
        reset_buffer = false;
        writing = true;
        draft = none;
      },
      got (elems buf_len),
    )
begin-renewed a some_buffs = ground arith

-- Between two buffers that the application writes, a change of the sample rate drops what it has written and the device has
-- not sent: the next call of `acquireWriteBuffer` gives a buffer at once, the ring then holds an empty queue, an
-- underflow seen before is forgotten, and the rate that the object keeps is the one that `getSampleRate` then gives.
pub set_sample_rate_drops :
    (fl : Floats) {S : Type 0} (clock : Clock) (bus : Bus S) (start rate : fl.Double)
    (d : SoapyOsmoFl2k) (dev : Option (S × fl.Double)) (a : Model)
    → Sim d.stream a
    → a.writing ≡ false
    → ((set_sample_rate fl clock bus start rate d dev).0.sample_rate
        ≡ get_sample_rate fl (set_sample_rate fl clock bus start rate d dev).1)
      × ((s' : Soapy) × (perform acquires (set_sample_rate fl clock bus start rate d dev).0.stream
            ≡ some (s', got (elems buf_len)))
          × Sim s' (record a {
            queue = [];
            underflow_event = false;
            reset_buffer = false;
            writing = true;
            draft = none;
          }))
unfolding set_sample_rate
set_sample_rate_drops fl clock bus start rate d dev a sim idle =
    let dev' = (set_sample_rate fl clock bus start rate d dev).1 in
    let changed = at_rate clock (get_sample_rate fl dev') d in
    let sim' = at_rate-Sim clock (get_sample_rate fl dev') d a sim in
    let (a', r, begun, follows) =
      acquires-Sim changed.stream (record a { reset_buffer = true }) sim' idle in
    (
      at_rate-rate clock (get_sample_rate fl dev') d,
      subst (λ x. Follows acquires changed.stream x.0 x.1)
          (sym begun ∙ begin-renewed a sim.fits.some_buffs) follows,
    )
