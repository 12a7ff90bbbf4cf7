-- ===== src/Fm/Worker.antt =====
-- src/fl2k_fm.c, `fm_worker` and `fl2k_callback`: the thread that makes the carrier, in two buffers of which the callback
-- sends one.
use osmo_fl2k.Prelude.{
  ℕ, ◌+◌, ◌-◌, ◌%◌, ◌^◌, List, [], ◌∷◌, ◌++◌, Option, some, Bool, true, ltb, if◌then◌else◌, ◌>>=◌,
  get_elem?, bit_and,
}
use osmo_fl2k.Device.{buf_len}
use osmo_fl2k.Worker.{DataInfo}
use osmo_fl2k.Fm.{Doubles, Dds, dds_set_freq, dds_real_buf}

module _ (fl : Doubles) where
  -- The global and the local variables of the thread.
  pub record FmWorker : Type 0 where
    pub readpos : ℕ
    pub len : ℕ
    pub buf_prefilled : Bool
    pub fmbuf : List ℕ
    pub txbuf : List ℕ
    pub carrier : Dds fl

  -- What is shared with the modulator: the ring of frequencies and slopes.
  pub record Tones : Type 0 where
    pub freqbuf : List fl.Double
    pub slopebuf : List fl.Double

  -- `dds_set_freq(&carrier, freqbuf[readpos], slopebuf[readpos])`
  unfoldable pub next_tone : Tones → FmWorker → Option FmWorker
  next_tone tones w = do
    freq ← get_elem? tones.freqbuf w.readpos
    slope ← get_elem? tones.slopebuf w.readpos
    some (record w {
      carrier = dds_set_freq fl w.carrier freq slope;
      readpos = bit_and (w.readpos + 1) 0xffff;
    })

  abbrev pub swapped : FmWorker → FmWorker
  swapped w = record w { fmbuf = w.txbuf; txbuf = w.fmbuf }

  -- The end of the buffer: it is filled, given to the callback, and the rest of the samples goes to the
  -- other one. The second component is the buffer that is given. Behind the swap the thread waits for the callback to
  -- take that buffer (`pthread_cond_wait`), which changes none of these variables.
  unfoldable pub turn_over : List ℕ → ℕ → FmWorker → Option (FmWorker × List ℕ)
  turn_over table carrier_per_signal w = do
    let readlen = buf_len - w.len
    let remaining = (carrier_per_signal + 2 ^ 32 - readlen) % 2 ^ 32
    (buf, carrier) ← dds_real_buf fl table readlen w.len w.fmbuf w.carrier
    let full = record w { fmbuf = buf; carrier = carrier }
    let w' = if w.buf_prefilled then swapped full else full
    (buf', carrier') ← dds_real_buf fl table remaining 0 w'.fmbuf w'.carrier
    some (
      record w' { fmbuf = buf'; carrier = carrier'; len = remaining; buf_prefilled = true },
      if w.buf_prefilled then buf else [],
    )

  -- Room for all samples of a tone.
  unfoldable pub fill_on : List ℕ → ℕ → FmWorker → Option (FmWorker × List ℕ)
  fill_on table carrier_per_signal w = do
    (buf, carrier) ← dds_real_buf fl table carrier_per_signal w.len w.fmbuf w.carrier
    some (
      record w { fmbuf = buf; carrier = carrier; len = (w.len + carrier_per_signal) % 2 ^ 32 },
      [],
    )

  -- One round of the loop, with the bytes that it gives to the callback.
  unfoldable pub fm_round : List ℕ → Tones → ℕ → FmWorker → Option (FmWorker × List ℕ)
  fm_round table tones carrier_per_signal w = next_tone tones w >>= λ w'.
      if ltb buf_len ((w'.len + carrier_per_signal) % 2 ^ 32)
      then turn_over table carrier_per_signal w'
      else fill_on table carrier_per_signal w'

  -- Rounds of the loop, with all bytes given, while the modulator has these tones ready for each.
  unfoldable pub fm_rounds : List ℕ → List Tones → ℕ → FmWorker → Option (FmWorker × List ℕ)
  fm_rounds table [] carrier_per_signal w = some (w, [])
  fm_rounds table (tones ∷ rest) carrier_per_signal w = do
    (w', sent) ← fm_round table tones carrier_per_signal w
    (w'', later) ← fm_rounds table rest carrier_per_signal w'
    some (w'', sent ++ later)

-- `fl2k_callback`: what it leaves in the `fl2k_data_info_t`, and `do_exit`. It goes on after an error of
-- the device.
abbrev pub fm_callback : List ℕ → DataInfo → Bool → DataInfo × Bool
fm_callback txbuf info do_exit = (
  record info { sampletype_signed = true; r_buf = some txbuf },
  if info.device_error then true else do_exit,
)
