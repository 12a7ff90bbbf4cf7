-- ===== src/Rds/Samples.antt =====
-- src/rds_mod.c, `get_rds_samples`: the bits of the groups as a signal. C's `double` is a parameter, and so is the
-- generated table `waveform_biphase` of src/rds_waveforms.c.
use osmo_fl2k.Prelude.{
  ℕ, ◌+◌, ◌-◌, List, [], ◌∷◌, Option, none, some, Bool, true, false, ltb, leb, ◌==◌, if◌then◌else◌,
  ◌>>=◌, get_elem?, length, set, replicate, bit_xor,
}
use osmo_fl2k.Rds.{Params, Coder, Clock, start, get_rds_group}

-- The operations on `double` that the code uses.
pub record SampleOps : Type 1 where
  pub Sample : Type 0
  pub nought : Sample
  pub plus : Sample → Sample → Sample
  pub minus : Sample → Sample

-- BITS_PER_GROUP, SAMPLES_PER_BIT and SAMPLE_BUFFER_SIZE
abbrev pub bits_per_group : ℕ
bits_per_group = 104

abbrev pub samples_per_bit : ℕ
samples_per_bit = 192

abbrev pub sample_buffer_size : ℕ
sample_buffer_size = samples_per_bit + 576

-- `sample_buffer[i] = v`
unfoldable pub put_sample : {A : Type 0} → List A → ℕ → A → Option (List A)
put_sample buf i v = elim (ltb i (length buf)) [ true ↦ some (set buf i v) | false ↦ none ]

-- `i++; if (i >= n) i = 0;`
abbrev pub next_index : ℕ → ℕ → ℕ
next_index i n = if leb n (i + 1) then 0 else i + 1

module _ (ops : SampleOps) where
  open ops use {Sample, nought, plus, minus}

  -- The static variables that keep their values; `coder` has those of `get_rds_group`.
  pub record Sampler : Type 0 where
    pub bit_buffer : List ℕ
    pub bit_pos : ℕ
    pub sample_buffer : List Sample
    pub cur_output : ℕ
    pub sample_count : ℕ
    pub phase : ℕ
    pub in_sample_index : ℕ
    pub out_sample_index : ℕ
    pub coder : Coder

  -- Their values at first.
  abbrev pub first_sampler : Sampler
  first_sampler = record {
    bit_buffer = replicate bits_per_group 0;
    bit_pos = bits_per_group;
    sample_buffer = replicate sample_buffer_size nought;
    cur_output = 0;
    sample_count = samples_per_bit;
    phase = 0;
    in_sample_index = 0;
    out_sample_index = sample_buffer_size - 1;
    coder = start;
  }

  -- The loop over the waveform, which is added to the buffer from `idx` on.
  unfoldable pub add_wave : List Sample → Bool → ℕ → List Sample → Option (List Sample)
  add_wave [] inverting idx buf = some buf
  add_wave (val ∷ src) inverting idx buf = do
    old ← get_elem? buf idx
    buf' ← put_sample buf idx (plus old (if inverting then minus val else val))
    add_wave src inverting (next_index idx sample_buffer_size) buf'

  -- `get_rds_group(bit_buffer)` at the end of a group.
  unfoldable pub next_group : Params → Clock → Sampler → Option Sampler
  next_group p t s =
      if leb bits_per_group s.bit_pos
      then (get_rds_group p t s.coder >>= λ (bits, coder).
          some (record s { bit_buffer = bits; bit_pos = 0; coder = coder }))
      else some s

  -- The part of the loop for a new bit.
  unfoldable pub next_bit : List Sample → Params → Clock → Sampler → Option Sampler
  next_bit waveform p t s = do
    s' ← next_group p t s
    cur_bit ← get_elem? s'.bit_buffer s'.bit_pos
    let cur_output = bit_xor s'.cur_output cur_bit
    sample_buffer ← add_wave waveform (cur_output == 1) s'.in_sample_index s'.sample_buffer
    let in_index = s'.in_sample_index + samples_per_bit
    some (record s' {
      cur_output = cur_output;
      sample_buffer = sample_buffer;
      in_sample_index =
          if leb sample_buffer_size in_index then in_index - sample_buffer_size else in_index;
      bit_pos = s'.bit_pos + 1;
      sample_count = 0;
    })

  -- The `switch` over the phase.
  abbrev pub at_phase : ℕ → Sample → Sample
  at_phase phase sample =
      if phase == 0
      then nought
      else if phase == 2
      then nought
      else if phase == 3
      then minus sample
      else sample

  -- The part of the loop that takes a sample out of the buffer.
  unfoldable pub take_sample : Sampler → Option (Sample × Sampler)
  take_sample s = do
    sample ← get_elem? s.sample_buffer s.out_sample_index
    buf ← put_sample s.sample_buffer s.out_sample_index nought
    some (
      at_phase s.phase sample,
      record s {
        sample_buffer = buf;
        out_sample_index = next_index s.out_sample_index sample_buffer_size;
        phase = next_index s.phase 4;
        sample_count = s.sample_count + 1;
      },
    )

  -- A round of the loop.
  unfoldable pub sample_round : List Sample → Params → Clock → Sampler → Option (Sample × Sampler)
  sample_round waveform p t s =
      (if leb samples_per_bit s.sample_count then next_bit waveform p t s else some s)
      >>= take_sample

  -- `get_rds_samples`, for as many samples as there are times at which it asks for them.
  unfoldable pub get_rds_samples :
      List Sample → Params → List Clock → Sampler → Option (List Sample × Sampler)
  get_rds_samples waveform p [] s = some ([], s)
  get_rds_samples waveform p (t ∷ ts) s = do
    (sample, s') ← sample_round waveform p t s
    (rest, s'') ← get_rds_samples waveform p ts s'
    some (sample ∷ rest, s'')
