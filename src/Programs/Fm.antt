-- ===== src/Programs/Fm.antt =====
-- `main` of src/fl2k_fm.c.
use osmo_fl2k.Prelude.{
  ℕ, ◌/◌, ◌^◌, List, [], ◌∷◌, ◌++◌, Option, none, some, Bool, true, false, not, ◌&&◌, ltb, ◌==◌,
  if◌then◌else◌, ℤ, pos, negsuc, is_negative, ◌>>=◌, ◌*◌,
}
use osmo_fl2k.Device.{Dev}
use osmo_fl2k.Programs.{
  Call, allocates, frees, opens, closes, Ended, returns, exits, crashes, waits, World,
  close_returns, start_calls,
}
use osmo_fl2k.Programs.File.{FileName, missing, stdin, named, opening_file, closing_file}

pub data FmOption : Type 0 where
  device : ℤ → FmOption
  carrier deviation input_rate rate : ℕ → FmOption
  stereo rds other : FmOption

pub record FmOptions : Type 0 where
  pub dev_index : ℤ
  pub carrier_freq : ℕ
  pub delta_freq : ℕ
  pub input_freq : ℕ
  pub input_freq_specified : Bool
  pub samp_rate : ℕ
  pub stereo_flag : Bool
  pub rds_flag : Bool

abbrev pub fm_defaults : FmOptions
fm_defaults = record {
  dev_index = pos 0;
  carrier_freq = 97000000;
  delta_freq = 75000;
  input_freq = 44100;
  input_freq_specified = false;
  samp_rate = 100000000;
  stereo_flag = false;
  rds_flag = false;
}

-- The loop over the options; `none` is the exit of `usage`.
unfoldable pub parse_fm : List FmOption → FmOptions → Option FmOptions
parse_fm [] o = some o
parse_fm (device n ∷ rest) o = parse_fm rest (record o { dev_index = n })
parse_fm (carrier n ∷ rest) o = parse_fm rest (record o { carrier_freq = n })
parse_fm (deviation n ∷ rest) o = parse_fm rest (record o { delta_freq = n })
parse_fm (input_rate n ∷ rest) o =
    parse_fm rest (record o { input_freq = n; input_freq_specified = true })
parse_fm (rate n ∷ rest) o = parse_fm rest (record o { samp_rate = n })
parse_fm (stereo ∷ rest) o = parse_fm rest (record o { stereo_flag = true })
parse_fm (rds ∷ rest) o = parse_fm rest (record o { rds_flag = true })
parse_fm (other ∷ rest) o = none

-- RDS_MODULATOR_RATE
abbrev pub rds_modulator_rate : ℕ
rds_modulator_rate = 57000 * 4

-- `input_freq < RDS_MODULATOR_RATE / 2`, with a signed `input_freq`
abbrev pub is_below_stereo : ℕ → Bool
is_below_stereo n = if ltb n (2 ^ 31) then ltb n (rds_modulator_rate / 2) else true

-- The test of the rate for RDS; `none` is an exit.
abbrev pub check_rds : FmOptions → Option FmOptions
check_rds o =
    if o.rds_flag && o.input_freq_specified
    then (if not (o.input_freq == rds_modulator_rate) then none else some o)
    else if o.rds_flag && not o.input_freq_specified
    then some (record o { input_freq = rds_modulator_rate })
    else some o

abbrev pub check_stereo : FmOptions → Option FmOptions
check_stereo o = if o.stereo_flag && is_below_stereo o.input_freq then none else some o

-- The tests behind the options.
unfoldable pub check_fm : FmOptions → Option FmOptions
check_fm o = if is_negative o.dev_index then none else (check_rds o >>= check_stereo)

-- `samp_rate / input_freq`, which is a division of unsigned numbers; `none` is a division by zero.
unfoldable pub carrier_per_signal : ℕ → ℕ → Option ℕ
carrier_per_signal samp_rate input_freq =
    if input_freq == 0 then none else some (samp_rate / input_freq)

-- From the label `out` on; the memory is that of four buffers.
abbrev pub fm_out : World → Option Dev → FileName → List Call → List Call → Ended
fm_out w dev name before closing =
    if close_returns w dev
    then returns (pos 0)
        (before ++ closing ++ closing_file name ++ frees ∷ frees ∷ frees ∷ frees ∷ [])
    else waits before

-- Where there is a device. `actual` is the rate that `fl2k_get_sample_rate` gives, and `modulated` says whether the
-- modulator returns. `pthread_create` reports an error as a positive number, which is not tested for.
abbrev pub fm_streams : World → FmOptions → FileName → ℕ → Bool → List Call → Dev → Ended
fm_streams w o name actual modulated before dev =
    let calls = before ++ opens ∷ start_calls w dev 0 in
    elim (carrier_per_signal actual o.input_freq) [
      | none ↦ crashes
      | some n ↦ if modulated then fm_out w (some dev) name calls (closes ∷ []) else waits calls
    ]

-- From the opening of the file on, which has succeeded.
abbrev pub fm_opened : World → FmOptions → FileName → ℕ → Bool → Ended
fm_opened w o name actual modulated =
    let before = opening_file name ++ allocates ∷ allocates ∷ allocates ∷ allocates ∷ [] in
    let with_memory : Ended = elim w.device [
      | none ↦ fm_out w none name before []
      | some dev ↦ fm_streams w o name actual modulated before dev
    ] in
    if w.memory then with_memory else exits (pos 1)

-- From the tests on.
unfoldable pub fm_checked : World → FmOptions → FileName → ℕ → Bool → Ended
unfolding carrier_per_signal
fm_checked w o missing actual modulated = exits (pos 1)
fm_checked w o stdin actual modulated = fm_opened w o stdin actual modulated
fm_checked w o named actual modulated =
    if w.file then fm_opened w o named actual modulated else returns (negsuc 1) []

unfoldable pub fm_main : World → List FmOption → FileName → ℕ → Bool → Ended
unfolding parse_fm check_fm fm_checked
fm_main w options missing actual modulated = exits (pos 1)
fm_main w options stdin actual modulated = elim (parse_fm options fm_defaults >>= check_fm) [
  | none ↦ exits (pos 1)
  | some o ↦ fm_checked w o stdin actual modulated
]
fm_main w options named actual modulated = elim (parse_fm options fm_defaults >>= check_fm) [
  | none ↦ exits (pos 1)
  | some o ↦ fm_checked w o named actual modulated
]
