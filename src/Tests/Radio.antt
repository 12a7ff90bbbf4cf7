-- ===== src/Tests/Radio.antt =====
-- The RDS coder of src/rds_mod.c with the texts that src/fl2k_fm.c sets, in ASCII.
use osmo_fl2k.Prelude.{
  ℕ, zero, suc, none, ◌+◌, ◌%◌, ◌^◌, ◌<◌, List, [], ◌∷◌, some, false, ◌≡◌, refl, arith, length,
  get_elem?, replicate, bit_xor,
}
use osmo_fl2k.Rds.{
  Params, start, Clock, mjd_of, crc_from, crc, emit_block, get_rds_group, strncpy, set_rds_ps,
}
use osmo_fl2k.Rds.Crc.{times_generator, value}
use osmo_fl2k.Rds.Check.{emit_block_divisible}
use osmo_fl2k.Rds.Schedule.{IsParams, IsCoder}
use osmo_fl2k.Rds.Parts.{IsAscii}
use osmo_fl2k.Rds.Groups.{coder_of, coder_after, latest_of, parts_of, Sends, groups_in_turn}
use osmo_fl2k.Rds.Samples.{SampleOps, Sampler, first_sampler, get_rds_samples}
use osmo_fl2k.Rds.Subcarrier.{IsSampler, get_rds_samples-total}
use osmo_fl2k.Rds.Text.{NoZero}

-- 2000-01-01, 12:34
abbrev noon : Clock
noon = record {
  tm_min = 34;
  tm_hour = 12;
  tm_mday = 1;
  tm_mon = 0;
  tm_year = 100;
  seconds = 946730040;
}

abbrev station : Params
station = record { pi = 0x0dac; ta = false; ps = replicate 8 65; rt = replicate 64 66 }

station-IsParams : IsParams station
station-IsParams = record { ps = refl; rt = refl }

start-IsCoder : IsCoder start
start-IsCoder = record { state = omega arith; ps_state = omega arith; rt_state = omega arith }

new_year : mjd_of noon ≡ 51544
unfolding mjd_of
new_year = refl

checkword : crc 0x0dac % 2 ^ 10 ≡ 0x202
unfolding crc crc_from
checkword = refl

emit_block_divisible_example :
    (qs : List ℕ) × (bit_xor (times_generator 0 qs) 0x0fc ≡ value 0 (emit_block 0x0dac 0x0fc))
emit_block_divisible_example = emit_block_divisible 0x0dac 0x0fc (omega arith) (omega arith)

replicate_only : (n a i x : ℕ) → get_elem? (replicate n a) i ≡ some x → x ≡ a
replicate_only zero a i x h = absurd (ground arith)
replicate_only (suc n) a zero x h = ground arith
replicate_only (suc n) a (suc i) x h = replicate_only n a i x h

station-IsAscii : IsAscii station
station-IsAscii = record {
  ps = λ i x h. omega (arith, replicate_only 8 65 i x h);
  rt = λ i x h. omega (arith, replicate_only 64 66 i x h);
}

-- The clock time, five parts, and the next minute.
abbrev calls : List Clock
calls = noon ∷ noon ∷ noon ∷ noon ∷ noon ∷ noon ∷ record noon { tm_min = 35 } ∷ []

groups_in_turn_example :
    (coder_after station calls start ≡ some (coder_of (latest_of none calls) (parts_of none calls)))
    × Sends station noon
        (latest_of none calls)
        (parts_of none calls)
        (get_rds_group station noon (coder_of (latest_of none calls) (parts_of none calls)))
groups_in_turn_example = groups_in_turn station calls noon station-IsParams station-IsAscii

-- "fl2k_fm"
abbrev name : List ℕ
name = 102 ∷ 108 ∷ 50 ∷ 107 ∷ 95 ∷ 102 ∷ 109 ∷ []

name_filled_up : (set_rds_ps station name).ps ≡ 102 ∷ 108 ∷ 50 ∷ 107 ∷ 95 ∷ 102 ∷ 109 ∷ 32 ∷ []
unfolding set_rds_ps strncpy
name_filled_up = refl

letter_a : NoZero (65 ∷ [])
letter_a = ((λ e. absurd (omega arith)), tt)

-- Numbers as samples.
abbrev whole : SampleOps
whole = record { Sample = ℕ; nought = 0; plus = λ a b. a + b; minus = λ a. a }

first-IsSampler : IsSampler whole (first_sampler whole)
first-IsSampler = record {
  bits = refl;
  samples = refl;
  input = omega arith;
  output = omega arith;
  phases = omega arith;
  coder = start-IsCoder;
}

get_rds_samples-total_example :
    (samples : List ℕ) × (s' : Sampler whole) × (get_rds_samples whole
        (replicate 576 3)
        station
        (noon ∷ noon ∷ noon ∷ [])
        (first_sampler whole)
      ≡ some (samples, s'))
    × (length samples ≡ 3)
    × IsSampler whole s'
    × ((i : ℕ) → i < 3 → (0 + i) % 2 ≡ 0 → get_elem? samples i ≡ some 0)
get_rds_samples-total_example =
    get_rds_samples-total whole (replicate 576 3) station (noon ∷ noon ∷ noon ∷ [])
      (first_sampler whole) station-IsParams first-IsSampler
