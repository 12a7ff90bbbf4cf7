-- ===== src/Rds/Subcarrier.antt =====
-- The signal of `get_rds_samples`.
use osmo_fl2k.Prelude.{
  ℕ, zero, suc, ◌+◌, ◌-◌, ◌%◌, ◌<◌, List, [], ◌∷◌, Option, some, Bool, leb, ◌==◌, if◌then◌else◌,
  ◌≡◌, refl, ap, ◌∙◌, arith, get_elem?, length, set, length-set, bit_xor, in_range, inl, inr,
  Bool-cases,
}
use osmo_fl2k.Rds.{Params, Clock}
use osmo_fl2k.Rds.Schedule.{IsCoder, IsParams, coder_behind, get_rds_group-total}
use osmo_fl2k.Rds.Samples.{
  SampleOps, bits_per_group, samples_per_bit, sample_buffer_size, put_sample, next_index, Sampler,
  add_wave, next_group, next_bit, at_phase, take_sample, sample_round, get_rds_samples,
}

put_sample-done :
    {A : Type 0} (buf : List A) (i : ℕ) (v : A)
    → i < length buf
    → put_sample buf i v ≡ some (set buf i v)
unfolding put_sample
put_sample-done buf i v l = ground arith

module _ (ops : SampleOps) where
  -- The arrays have their lengths, and the positions are inside.
  pub record IsSampler (s : Sampler ops) : Type 0 where
    pub bits : length s.bit_buffer ≡ bits_per_group
    pub samples : length s.sample_buffer ≡ sample_buffer_size
    pub input : s.in_sample_index < sample_buffer_size
    pub output : s.out_sample_index < sample_buffer_size
    pub phases : s.phase < 4
    pub coder : IsCoder s.coder

  add_wave-total :
      (src : List ops.Sample) (inverting : Bool) (idx : ℕ) (buf : List ops.Sample)
      → idx < sample_buffer_size
      → length buf ≡ sample_buffer_size
      → (buf' : List ops.Sample) × (add_wave ops src inverting idx buf ≡ some buf')
        × (length buf' ≡ sample_buffer_size)
  unfolding add_wave
  add_wave-total [] inverting idx buf h l = (buf, refl, l)
  add_wave-total (val ∷ src) inverting idx buf h l =
      let (old, at) = in_range buf idx (omega arith) in
      let v = ops.plus old (if inverting then ops.minus val else val) in
      let put = put_sample-done buf idx v (omega arith) in
      let (buf', all, l') =
        add_wave-total src inverting (next_index idx sample_buffer_size) (set buf idx v)
          (ground arith) (length-set buf idx v ∙ l) in
      (buf', rw (add_wave, at, put) all, l')

  -- Behind a step that keeps the phase.
  abbrev Kept : Sampler ops → Option (Sampler ops) → Type 0
  Kept s r = (s' : Sampler ops) × (r ≡ some s') × IsSampler s' × (s'.phase ≡ s.phase)

  next_group-total :
      (p : Params) (t : Clock) (s : Sampler ops)
      → IsParams p
      → IsSampler s
      → (s' : Sampler ops) × (next_group ops p t s ≡ some s')
        × IsSampler s'
        × (s'.phase ≡ s.phase)
        × (s'.bit_pos < bits_per_group)
  unfolding next_group
  next_group-total p t s h i = elim (Bool-cases (leb bits_per_group s.bit_pos)) [
    | inl e ↦
        let (bits, run, l, c) = get_rds_group-total p t s.coder h i.coder in
        (
          record s { bit_buffer = bits; bit_pos = 0; coder = coder_behind t s.coder },
          rw (next_group, e, run) refl,
          record {
            bits = l;
            samples = i.samples;
            input = i.input;
            output = i.output;
            phases = i.phases;
            coder = c;
          },
          refl,
          omega arith,
        )
    | inr e ↦ (s, rw (next_group, e) refl, i, refl, ground arith)
  ]

  next_bit-total :
      (waveform : List ops.Sample) (p : Params) (t : Clock) (s : Sampler ops)
      → IsParams p
      → IsSampler s
      → Kept s (next_bit ops waveform p t s)
  unfolding next_bit
  next_bit-total waveform p t s h i =
      let (s1, group, i1, same, room) = next_group-total p t s h i in
      let (bit, at) = in_range s1.bit_buffer s1.bit_pos (omega (arith, i1)) in
      let output = bit_xor s1.cur_output bit in
      let (buf, added, l) =
        add_wave-total waveform (output == 1) s1.in_sample_index s1.sample_buffer i1.input
          i1.samples in
      let in_index = s1.in_sample_index + samples_per_bit in
      (
        record s1 {
          cur_output = output;
          sample_buffer = buf;
          in_sample_index =
              if leb sample_buffer_size in_index then in_index - sample_buffer_size else in_index;
          bit_pos = s1.bit_pos + 1;
          sample_count = 0;
        },
        rw (next_bit, group, at, added) refl,
        record {
          bits = i1.bits;
          samples = l;
          input = ground (arith, i1);
          output = i1.output;
          phases = i1.phases;
          coder = i1.coder;
        },
        same,
      )

  at_phase-even :
      (phase : ℕ) (x : ops.Sample) → phase < 4 → phase % 2 ≡ 0 → at_phase ops phase x ≡ ops.nought
  at_phase-even phase x h e = ground arith

  -- One sample: it is nought at an even phase, and the next phase follows.
  record Sampled (s : Sampler ops) (r : Option (ops.Sample × Sampler ops)) : Type 0 where
    pub sample : ops.Sample
    pub s' : Sampler ops
    pub returns : r ≡ some (sample, s')
    pub is_sampler : IsSampler s'
    pub phase : s'.phase ≡ (s.phase + 1) % 4
    pub even : s.phase % 2 ≡ 0 → sample ≡ ops.nought

  take_sample-Sampled : (s : Sampler ops) → IsSampler s → Sampled s (take_sample ops s)
  unfolding take_sample
  take_sample-Sampled s i =
      let (x, at) = in_range s.sample_buffer s.out_sample_index (omega (arith, i)) in
      let put = put_sample-done s.sample_buffer s.out_sample_index ops.nought (omega (arith, i)) in
      record {
        sample = at_phase ops s.phase x;
        s' = record s {
          sample_buffer = set s.sample_buffer s.out_sample_index ops.nought;
          out_sample_index = next_index s.out_sample_index sample_buffer_size;
          phase = next_index s.phase 4;
          sample_count = s.sample_count + 1;
        };
        returns = rw (take_sample, at, put) refl;
        is_sampler = record {
          bits = i.bits;
          samples = length-set s.sample_buffer s.out_sample_index ops.nought ∙ i.samples;
          input = i.input;
          output = ground (arith, i);
          phases = ground (arith, i);
          coder = i.coder;
        };
        phase = ground (arith, i);
        even = at_phase-even s.phase x i.phases;
      }

  sample_round-Sampled :
      (waveform : List ops.Sample) (p : Params) (t : Clock) (s : Sampler ops)
      → IsParams p
      → IsSampler s
      → Sampled s (sample_round ops waveform p t s)
  unfolding sample_round
  sample_round-Sampled waveform p t s h i = elim (Bool-cases (leb samples_per_bit s.sample_count)) [
    | inr e ↦ rw (sample_round, e) (take_sample-Sampled s i)
    | inl e ↦
        let (s1, bit, i1, same) = next_bit-total waveform p t s h i in
        let r = take_sample-Sampled s1 i1 in
        rw (sample_round, e, bit)
          (record {
            sample = r.sample;
            s' = r.s';
            returns = r.returns;
            is_sampler = r.is_sampler;
            phase = r.phase ∙ ap (λ k. (k + 1) % 4) same;
            even = λ z. r.even (ap (λ k. k % 2) same ∙ z);
          })
  ]

  -- With texts of 8 and 64 chars, and static variables within their bounds, `get_rds_samples` returns as many samples
  -- as asked for, accesses nothing outside its arrays, keeps the bounds, and every second sample is nought: with the
  -- phase even at first, those at even places.
  pub get_rds_samples-total :
      (waveform : List ops.Sample) (p : Params) (ts : List Clock) (s : Sampler ops)
      → IsParams p
      → IsSampler s
      → (samples : List ops.Sample) × (s' : Sampler ops) × (get_rds_samples ops waveform p ts s
          ≡ some (samples, s'))
        × (length samples ≡ length ts)
        × IsSampler s'
        × ((i : ℕ) → i < length ts → (s.phase + i) % 2 ≡ 0 → get_elem? samples i ≡ some ops.nought)
  unfolding get_rds_samples
  get_rds_samples-total waveform p [] s h i = ([], s, refl, refl, i, λ k l e. absurd (omega arith))
  get_rds_samples-total waveform p (t ∷ ts) s h i =
      let r = sample_round-Sampled waveform p t s h i in
      let (rest, s'', run, l, i'', evens) =
        get_rds_samples-total waveform p ts r.s' h r.is_sampler in
      (
        r.sample ∷ rest,
        s'',
        rw (get_rds_samples, r.returns, run) refl,
        ap suc l,
        i'',
        all_even rest r evens,
      )
    where
      all_even :
          (rest : List ops.Sample) (r : Sampled s (sample_round ops waveform p t s))
          → ((i : ℕ)
              → i < length ts
              → (r.s'.phase + i) % 2 ≡ 0
              → get_elem? rest i ≡ some ops.nought)
          → (i : ℕ) → i < suc (length ts)
          → (s.phase + i) % 2 ≡ 0
          → get_elem? (r.sample ∷ rest) i ≡ some ops.nought
      all_even rest r evens zero l e = ap some (r.even (omega arith))
      all_even rest r evens (suc k) l e = evens k (omega arith) (omega (arith, r.phase))
