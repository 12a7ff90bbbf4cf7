-- ===== src/Fm/Modulator.antt =====
-- src/fl2k_fm.c, `writelen`, `modulate_sample`, `fm_modulator_mono` and `fm_modulator_stereo`: the thread
-- that reads sound and puts frequencies into the ring. The file and the samples of `get_rds_samples`
-- are parameters.
use osmo_fl2k.Prelude.{
  ℕ, ◌+◌, ◌-◌, ◌/◌, ◌%◌, List, [], ◌∷◌, Option, none, some, Bool, true, false, ◌&&◌, ltb, ◌==◌,
  if◌then◌else◌, ◌>>=◌, length, set, ℤ, pos, negsuc,
}
use osmo_fl2k.Fm.{Doubles, Dds, dds_real, dds_init, buffer_samples, audio_buf_size}

-- `buf[i] = v`
unfoldable pub put : {A : Type 0} → List A → ℕ → A → Option (List A)
put buf i v = elim (ltb i (length buf)) [ true ↦ some (set buf i v) | false ↦ none ]

-- `writelen`, at these positions
unfoldable pub writelen : ℕ → ℕ → ℕ → ℕ
writelen readpos writepos maxlen =
    let rp = if ltb readpos writepos then readpos + buffer_samples else readpos in
    let len = rp - writepos in if ltb maxlen len then maxlen else len

module _ (fl : Doubles) where
  open fl use {Double, of_int, add, sub, mul, div}

  abbrev int : ℕ → Double
  int n = of_int (pos n)

  -- The settings of the program.
  pub record Settings : Type 0 where
    pub carrier_freq : ℤ
    pub delta_freq : ℤ
    pub carrier_per_signal : ℤ

  -- The ring, and the local variables of the modulator.
  pub record Modulator : Type 0 where
    pub freqbuf : List Double
    pub slopebuf : List Double
    pub readpos : ℕ
    pub writepos : ℕ
    pub lastwritepos : ℕ
    pub lastfreq : Double
    pub do_exit : Bool

  abbrev pub freq_of : Settings → Double → Double
  freq_of s sample = add (mul sample (of_int s.delta_freq)) (of_int s.carrier_freq)

  abbrev pub slope_of : Settings → Double → Double → Double
  slope_of s freq lastfreq = div (sub freq lastfreq) (of_int s.carrier_per_signal)

  -- `lastfreq = modulate_sample(lastwritepos, lastfreq, sample)`
  unfoldable pub modulate_sample : Settings → Modulator → Double → Option Modulator
  modulate_sample s m sample = do
    slopebuf ← put m.slopebuf m.lastwritepos (slope_of s (freq_of s sample) m.lastfreq)
    freqbuf ← put m.freqbuf m.writepos (freq_of s sample)
    some (record m { slopebuf = slopebuf; freqbuf = freqbuf; lastfreq = freq_of s sample })

  -- `lastwritepos = writepos++; writepos %= BUFFER_SAMPLES`
  abbrev pub move_on : Modulator → Modulator
  move_on m = record m { lastwritepos = m.writepos; writepos = (m.writepos + 1) % buffer_samples }

  -- The loop over the samples.
  unfoldable pub modulate_all : Settings → List Double → Modulator → Option Modulator
  modulate_all s [] m = some m
  modulate_all s (sample ∷ rest) m =
      modulate_sample s m sample >>= λ m'. modulate_all s rest (move_on m')

  -- The samples of the mono modulator, with those of RDS if it is used.
  unfoldable pub mono_samples : List ℤ → Option (List Double) → List Double
  mono_samples [] rds = []
  mono_samples (a ∷ audio) none = div (of_int a) (int 32767) ∷ mono_samples audio none
  mono_samples (a ∷ audio) (some []) = []
  mono_samples (a ∷ audio) (some (r ∷ rds)) =
      div (add (mul (div (of_int a) (int 32767)) (int 4)) r) (int 5) ∷ mono_samples audio (some rds)

  -- The oscillators of the stereo modulator.
  pub record Carriers : Type 0 where
    pub pilot : Dds fl
    pub stereo : Dds fl

  -- PILOT_FREQ and STEREO_CARRIER
  abbrev pub stereo_carriers : ℕ → Carriers
  stereo_carriers input_freq = record {
    pilot = dds_init fl (int input_freq) (int 19000) (int 0);
    stereo = dds_init fl (int input_freq) (int 38000) (int 0);
  }

  -- An `int8_t` in a byte.
  abbrev pub of_byte : ℕ → Double
  of_byte b = of_int (if ltb b 128 then pos b else negsuc (255 - b))

  -- The numbers 4.05 and 0.9
  abbrev c405 : Double
  c405 = div (int 405) (int 100)

  abbrev c09 : Double
  c09 = div (int 9) (int 10)

  -- The composite sample of two samples of sound, with the bytes of the oscillators.
  abbrev pub composite : ℤ → ℤ → ℕ → ℕ → Double
  composite l r pilot stereo =
      let left = div (of_int l) (int 32767) in
      let right = div (of_int r) (int 32767) in
      add (add (mul c405 (div (add left right) (int 2))) (mul c09 (div (of_byte pilot) (int 127))))
        (mul (mul c405 (div (sub left right) (int 2))) (div (of_byte stereo) (int 127)))

  -- The samples of the stereo modulator: one of two samples of sound.
  unfoldable pub stereo_samples :
      List ℕ → List ℤ → Option (List Double) → Carriers → Option (List Double × Carriers)
  stereo_samples table (l ∷ r ∷ audio) none c = do
    (p, pilot) ← dds_real fl table c.pilot
    (s, stereo) ← dds_real fl table c.stereo
    (rest, c') ← stereo_samples table audio none (record { pilot = pilot; stereo = stereo })
    some (div (composite l r p s) (int 9) ∷ rest, c')
  stereo_samples table (l ∷ r ∷ audio) (some (x ∷ rds)) c = do
    (p, pilot) ← dds_real fl table c.pilot
    (s, stereo) ← dds_real fl table c.stereo
    (rest, c') ← stereo_samples table audio (some rds) (record { pilot = pilot; stereo = stereo })
    some (div (add (composite l r p s) x) (int 10) ∷ rest, c')
  stereo_samples table _ rds c = some ([], c)

  -- `if (len == 0) do_exit = 1`
  abbrev pub end_of_sound : List ℤ → Modulator → Modulator
  end_of_sound audio m = if length audio == 0 then record m { do_exit = true } else m

  -- `fread` of 16-bit samples, and `get_rds_samples`, if RDS is used, in a state `F`.
  pub record Sources (F : Type 0) : Type 0 where
    pub fread : F → ℕ → List ℤ × F
    pub rds : F → ℕ → Option (List Double) × F

  -- One round of `fm_modulator_mono`. With no room the thread waits.
  unfoldable pub mono_round :
      {F : Type 0} → Sources F → Settings → F → Modulator → Option (Modulator × F)
  mono_round src s f m =
      let len = writelen m.readpos m.writepos audio_buf_size in
      let (audio, f') = src.fread f len in
      let (rds, f'') = src.rds f' (length audio) in
      let written =
        modulate_all s (mono_samples audio rds) (end_of_sound audio m) >>= λ m'. some (m', f'') in
      if ltb 1 len then written else some (m, f)

  -- One round of `fm_modulator_stereo`, which takes an even number of samples.
  unfoldable pub stereo_round :
      {F : Type 0}
      → Sources F
      → List ℕ
      → Settings
      → F
      → Modulator
      → Carriers
      → Option (Modulator × Carriers × F)
  stereo_round src table s f m c =
      let len = writelen m.readpos m.writepos audio_buf_size in
      let (audio, f') = src.fread f len in
      let (rds, f'') = src.rds f' (length audio / 2) in
      let written = stereo_samples table audio rds c >>= λ (samples, c').
      modulate_all s samples (end_of_sound audio m) >>= λ m'. some (m', c', f'') in
      if ltb 1 len && (len % 2 == 0) then written else some (m, c, f)
