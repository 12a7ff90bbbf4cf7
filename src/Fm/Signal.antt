-- ===== src/Fm/Signal.antt =====
-- src/fl2k_fm.c: the signal that the tones in the ring make, and the next tone that `fm_worker` takes.
use osmo_fl2k.Prelude.{
  ℕ, ◌+◌, ◌%◌, ◌<◌, List, [], ◌∷◌, ◌++◌, Option, none, some, ◌≡◌, refl, arith, length, get_elem?,
  in_range, ◌>>=◌, bit_and_mask,
}
use osmo_fl2k.Fm.{Doubles, Dds, buffer_samples, dds_set_freq}
use osmo_fl2k.Fm.Wave.{after, wave}
use osmo_fl2k.Fm.Filling.{IsFilling}
use osmo_fl2k.Fm.Worker.{FmWorker, Tones, next_tone}

module _ (fl : Doubles) where
  abbrev tone_at : Tones fl → ℕ → Option (fl.Double × fl.Double)
  tone_at tones readpos = do
    freq ← get_elem? tones.freqbuf readpos
    slope ← get_elem? tones.slopebuf readpos
    some (freq, slope)

  -- The signal that the tones make, whatever buffers it goes through: `n` samples of each tone, in the order of
  -- the ring from a position on.
  unfoldable pub signal : List ℕ → List (Tones fl) → ℕ → ℕ → Dds fl → List ℕ
  signal table [] n readpos d = []
  signal table (tones ∷ rest) n readpos d = elim (tone_at tones readpos) [
    | none ↦ []
    | some (freq, slope) ↦
        let d' = dds_set_freq fl d freq slope in
        wave fl table n d' ++ signal table rest n ((readpos + 1) % buffer_samples) (after fl n d')
  ]

  pub record IsTones (tones : Tones fl) : Type 0 where
    pub freqs : length tones.freqbuf ≡ buffer_samples
    pub slopes : length tones.slopebuf ≡ buffer_samples

  abbrev pub AllTones : List (Tones fl) → Type 0
  AllTones [] = Unit
  AllTones (tones ∷ rest) = IsTones tones × AllTones rest

  pub set_freq-phase :
      (d : Dds fl) (freq slope : fl.Double) → (dds_set_freq fl d freq slope).phase ≡ d.phase
  unfolding dds_set_freq
  set_freq-phase d freq slope = refl

  pub tuned :
      (w : FmWorker fl) (d : Dds fl) (k : ℕ) (done rest : List ℕ)
      → IsFilling fl w done rest
      → d.phase ≡ w.carrier.phase
      → k < buffer_samples
      → IsFilling fl (record w { carrier = d; readpos = k }) done rest
  tuned w d k done rest f e h = record {
    is = f.is;
    as_many = f.as_many;
    whole = f.whole;
    other = f.other;
    phase = omega (arith, f);
    position = h;
  }

  -- The next tone is there, and changes neither the buffers nor the phase.
  pub record Ready (tones : Tones fl) (w : FmWorker fl) : Type 0 where
    pub freq : fl.Double
    pub slope : fl.Double
    pub there : tone_at tones w.readpos ≡ some (freq, slope)
    pub returns :
        next_tone fl tones w
        ≡ some (record w {
          carrier = dds_set_freq fl w.carrier freq slope;
          readpos = (w.readpos + 1) % buffer_samples;
        })

  pub next_tone-Ready :
      (tones : Tones fl) (w : FmWorker fl)
      → IsTones tones
      → w.readpos < buffer_samples
      → Ready tones w
  unfolding next_tone
  next_tone-Ready tones w t h =
      let (freq, a) = in_range tones.freqbuf w.readpos (omega (arith, t)) in
      let (slope, b) = in_range tones.slopebuf w.readpos (omega (arith, t)) in
      record {
        freq = freq;
        slope = slope;
        there = rw (a, b) refl;
        returns = rw (next_tone, a, b, bit_and_mask 16 (w.readpos + 1)) refl;
      }
