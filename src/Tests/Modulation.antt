-- ===== src/Tests/Modulation.antt =====
-- The modulator of src/fl2k_fm.c, with numbers in place of floating-point ones.
use osmo_fl2k.Prelude.{
  ℕ, zero, suc, ◌+◌, ◌-◌, ◌*◌, ◌/◌, ◌%◌, ◌^◌, ◌≤◌, ◌<◌, List, [], ◌∷◌, ◌++◌, none, some, false, ◌≡◌,
  refl, arith, ℤ, pos, negsuc, length, get_elem?, replicate, take,
}
use osmo_fl2k.Device.{buf_len}
use osmo_fl2k.Tests.Scenario.{of_length}
use osmo_fl2k.Fm.{Doubles, Dds, buffer_samples, dds_real_buf}
use osmo_fl2k.Fm.Wave.{triangle, dds_real_buf-chirp}
use osmo_fl2k.Fm.Worker.{FmWorker, Tones}
use osmo_fl2k.Fm.Filling.{IsFilling}
use osmo_fl2k.Fm.Gapless.{Gapless, fm_rounds-Gapless}
use osmo_fl2k.Fm.Signal.{IsTones}
use osmo_fl2k.Fm.Modulator.{Settings, Modulator, modulate_all, Sources, mono_round}
use osmo_fl2k.Fm.Ring.{IsRing, Written, modulate_all-Written}
use osmo_fl2k.Fm.Room.{IsSources, mono_round-spares}

abbrev nat_of : ℤ → ℕ
nat_of (pos n) = n
nat_of (negsuc n) = 0

abbrev whole : Doubles
whole = record {
  Double = ℕ;
  of_int = nat_of;
  add = λ a b. a + b;
  sub = λ a b. a - b;
  mul = λ a b. a * b;
  div = λ a b. a / b;
  sin = λ a. a;
  pi = 3;
  to_u64 = λ a. a % 2 ^ 64;
  to_int8 = λ a. a % 2 ^ 8;
}

abbrev table : List ℕ
table = replicate 256 7

abbrev carrier : Dds whole
carrier = record {
  sample_freq = 1;
  freq = 1;
  fslope = 0;
  phase = 2 ^ 24;
  phase_step = 2 ^ 24;
  phase_slope = 2 ^ 25;
}

dds_real_buf-chirp_example :
    (samples : List ℕ) × (d' : Dds whole) × (dds_real_buf whole table 2 0 (0 ∷ 0 ∷ 9 ∷ []) carrier
      ≡ some (samples ++ 9 ∷ [], d'))
    × (length samples ≡ 2)
    × ((j : ℕ)
        → j < 2
        → get_elem? samples j
          ≡ get_elem? table ((2 ^ 24 + j * 2 ^ 24 + triangle j * 2 ^ 25) % 2 ^ 32 / 2 ^ 24))
dds_real_buf-chirp_example =
    dds_real_buf-chirp whole table 2 carrier (0 ∷ 0 ∷ []) (9 ∷ []) refl (omega arith) (omega arith)
      refl

abbrev tones : Tones whole
tones = record {
  freqbuf = (of_length buffer_samples 5).0;
  slopebuf = (of_length buffer_samples 1).0;
}

tones-IsTones : IsTones whole tones
tones-IsTones = record {
  freqs = (of_length buffer_samples 5).1;
  slopes = (of_length buffer_samples 1).1;
}

abbrev fresh : FmWorker whole
fresh = record {
  readpos = 0;
  len = 0;
  buf_prefilled = false;
  fmbuf = (of_length buf_len 0).0;
  txbuf = (of_length buf_len 0).0;
  carrier = carrier;
}

fresh-IsFilling : IsFilling whole fresh [] ((of_length buf_len 0).0)
fresh-IsFilling = record {
  is = refl;
  as_many = refl;
  whole = omega (arith, (of_length buf_len 0).1);
  other = (of_length buf_len 0).1;
  phase = omega arith;
  position = omega arith;
}

fm_rounds-Gapless_example : Gapless whole table (tones ∷ tones ∷ []) (buf_len - 1) fresh []
fm_rounds-Gapless_example =
    fm_rounds-Gapless whole table (tones ∷ tones ∷ []) (buf_len - 1) fresh []
      ((of_length buf_len 0).0) refl (omega arith) (tones-IsTones, (tones-IsTones, tt))
      fresh-IsFilling

abbrev settings : Settings whole
settings = record { carrier_freq = pos 100; delta_freq = pos 2; carrier_per_signal = pos 10 }

abbrev modulator : Modulator whole
modulator = record {
  freqbuf = (of_length buffer_samples 5).0;
  slopebuf = (of_length buffer_samples 1).0;
  readpos = 0;
  writepos = 1;
  lastwritepos = 1;
  lastfreq = 100;
  do_exit = false;
}

modulator-IsRing : IsRing whole settings modulator
modulator-IsRing = record {
  freqs = (of_length buffer_samples 5).1;
  slopes = (of_length buffer_samples 1).1;
  reading = omega arith;
  writing = omega arith;
  written = omega arith;
}

modulate_all-Written_example :
    (m' : Modulator whole) × (modulate_all whole settings (3 ∷ 4 ∷ []) modulator ≡ some m')
    × Written whole settings (3 ∷ 4 ∷ []) modulator m'
modulate_all-Written_example =
    modulate_all-Written whole settings (3 ∷ 4 ∷ []) modulator modulator-IsRing (omega arith)

-- A sound of two samples that does not end.
abbrev sound : Sources whole ℕ
sound = record { fread = λ f n. (take n (pos 327670 ∷ pos 655340 ∷ []), f); rds = λ f n. (none, f) }

sound-IsSources : IsSources whole sound
sound-IsSources = record { bounded = λ f n. take_at_most n (pos 327670 ∷ pos 655340 ∷ []) }
  where
    take_at_most : (n : ℕ) (xs : List ℤ) → length (take n xs) ≤ n
    take_at_most zero xs = omega arith
    take_at_most (suc n) [] = omega arith
    take_at_most (suc n) (x ∷ xs) = omega (arith, take_at_most n xs)

mono_round-spares_example :
    (m' : Modulator whole) × (f' : ℕ) × (mono_round whole sound settings 0 modulator
      ≡ some (m', f'))
    × IsRing whole settings m'
    × (m'.readpos ≡ 0)
    × (get_elem? m'.freqbuf 0 ≡ get_elem? modulator.freqbuf 0)
mono_round-spares_example =
    mono_round-spares whole sound settings 0 modulator sound-IsSources modulator-IsRing
