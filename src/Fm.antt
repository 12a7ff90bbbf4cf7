-- ===== src/Fm.antt =====
-- src/fl2k_fm.c: the FM modulator. This file has the oscillator, a phase that is advanced by a step for
-- each sample, and the constants. C's `double` and its operations are a parameter. An `int8_t` is
-- kept as an unsigned byte, and `none` is an access outside an array.
pub mod Wave
pub mod Worker
pub mod Filling
pub mod Turns
pub mod Signal
pub mod Gapless
pub mod Modulator
pub mod Ring
pub mod Room
use osmo_fl2k.Prelude.{
  ℕ, zero, suc, ◌+◌, ◌*◌, ◌/◌, ◌%◌, ◌^◌, List, [], ◌∷◌, Option, none, some, get_elem?, ◌>>=◌, ℤ,
  pos, bit_and,
}
use osmo_fl2k.Convert.{store}

-- The operations on `double` that the code uses.
pub record Doubles : Type 1 where
  pub Double : Type 0
  pub of_int : ℤ → Double
  pub add : Double → Double → Double
  pub sub : Double → Double → Double
  pub mul : Double → Double → Double
  pub div : Double → Double → Double
  pub sin : Double → Double
  -- M_PI
  pub pi : Double
  -- `(unsigned long int) x` and `(int8_t) x`
  pub to_u64 : Double → ℕ
  pub to_int8 : Double → ℕ

-- BUFFER_SAMPLES and AUDIO_BUF_SIZE
abbrev pub buffer_samples : ℕ
buffer_samples = 2 ^ 16

abbrev pub audio_buf_size : ℕ
audio_buf_size = 1024

module _ (fl : Doubles) where
  open fl use {Double, of_int, mul, div, sin, pi, to_u64, to_int8}

  -- `dds_t`
  pub record Dds : Type 0 where
    pub sample_freq : Double
    pub freq : Double
    pub fslope : Double
    pub phase : ℕ
    pub phase_step : ℕ
    pub phase_slope : ℕ

  abbrev int : ℕ → Double
  int n = of_int (pos n)

  -- DDS_2PI and ANG_INCR
  abbrev dds_2pi : Double
  dds_2pi = mul pi (int 2)

  abbrev ang_incr : Double
  ang_incr = div (int 0xffffffff) dds_2pi

  -- `(f / sample_freq) * 2 * M_PI * ANG_INCR`, as an `unsigned long int`
  abbrev pub angle : Double → Double → ℕ
  angle f sample_freq = to_u64 (mul (mul (mul (div f sample_freq) (int 2)) pi) ang_incr)

  -- Nothing calls these two.
  unfoldable pub dds_setphase : Dds → Double → Dds
  dds_setphase dds phase = record dds { phase = to_u64 (mul phase ang_incr) }

  unfoldable pub dds_getphase : Dds → Double
  dds_getphase dds = div (int dds.phase) ang_incr

  unfoldable pub dds_set_freq : Dds → Double → Double → Dds
  dds_set_freq dds freq fslope = record dds {
    fslope = fslope;
    phase_step = angle freq dds.sample_freq;
    freq = freq;
    phase_slope = angle fslope dds.sample_freq;
  }

  -- `dds_init`, but for the sine table
  unfoldable pub dds_init : Double → Double → Double → Dds
  dds_init sample_freq freq phase =
      dds_set_freq
        (record {
          sample_freq = sample_freq;
          freq = freq;
          fslope = int 0;
          phase = to_u64 (mul phase ang_incr);
          phase_step = 0;
          phase_slope = 0;
        })
        freq (int 0)

  -- The loop of `dds_init` that fills the sine table, for `left` rounds from `i` on.
  unfoldable pub sines_from : ℕ → ℕ → List ℕ
  sines_from zero i = []
  sines_from (suc left) i =
      to_int8 (mul (sin (mul (mul (div (int 1) (int 256)) (int i)) dds_2pi)) (int 127))
      ∷ sines_from left (i + 1)

  unfoldable pub sine_table : List ℕ
  sine_table = sines_from 256 0

  -- What `dds_real` does to the oscillator.
  unfoldable pub advance : Dds → Dds
  advance dds = record dds {
    phase = bit_and ((dds.phase + dds.phase_step) % 2 ^ 64) 0xffffffff;
    phase_step = (dds.phase_step + dds.phase_slope) % 2 ^ 64;
  }

  -- `dds_real`, with `sine_table` as `table`
  unfoldable pub dds_real : List ℕ → Dds → Option (ℕ × Dds)
  dds_real table dds = do sample ← get_elem? table (dds.phase / 2 ^ 24); some (sample, advance dds)

  -- `dds_real_buf` at `&buf[i]`, for `left` rounds
  unfoldable pub dds_real_buf : List ℕ → ℕ → ℕ → List ℕ → Dds → Option (List ℕ × Dds)
  dds_real_buf table zero i buf dds = some (buf, dds)
  dds_real_buf table (suc left) i buf dds = do
    (sample, dds') ← dds_real table dds
    buf' ← store buf i sample
    dds_real_buf table left (i + 1) buf' dds'
