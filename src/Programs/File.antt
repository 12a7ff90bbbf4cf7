-- ===== src/Programs/File.antt =====
-- `main` of src/fl2k_file.c.
use osmo_fl2k.Prelude.{
  ℕ, List, [], ◌∷◌, ◌++◌, Option, none, some, Bool, true, if◌then◌else◌, ℤ, pos, negsuc,
  is_negative, ◌==ℤ◌, not,
}
use osmo_fl2k.Device.{Dev}
use osmo_fl2k.Programs.{
  Call, allocates, frees, opens_file, closes_file, opens, closes, Ended, returns, exits, waits,
  World, wait_exit, close_returns, start_calls,
}

-- An option of the command line; `other` is one that the program does not know.
pub data FileOption : Type 0 where
  device repeat : ℤ → FileOption
  rate : ℕ → FileOption
  other : FileOption

pub record FileOptions : Type 0 where
  pub dev_index : ℤ
  pub repeats : Bool
  pub samp_rate : ℕ

abbrev pub file_defaults : FileOptions
file_defaults = record { dev_index = pos 0; repeats = true; samp_rate = 100000000 }

-- The loop over the options; `none` is the exit of `usage`.
unfoldable pub parse_file : List FileOption → FileOptions → Option FileOptions
parse_file [] o = some o
parse_file (device n ∷ rest) o = parse_file rest (record o { dev_index = n })
parse_file (repeat n ∷ rest) o = parse_file rest (record o { repeats = not (n ==ℤ pos 0) })
parse_file (rate n ∷ rest) o = parse_file rest (record o { samp_rate = n })
parse_file (other ∷ rest) o = none

-- The name of the file.
pub data FileName : Type 0 where
  missing stdin named : FileName

abbrev pub closing_file : FileName → List Call
closing_file missing = []
closing_file stdin = []
closing_file named = closes_file ∷ []

abbrev pub opening_file : FileName → List Call
opening_file missing = []
opening_file stdin = []
opening_file named = opens_file ∷ []

-- From the device on.
unfoldable pub file_streams : World → FileName → Dev → Ended
file_streams w name dev =
    let before = opening_file name ++ allocates ∷ opens ∷ start_calls w dev 0 in
    let closed =
      if close_returns w (some dev)
      then returns (pos 0) (before ++ closes ∷ frees ∷ closing_file name)
      else waits before in
    if wait_exit w.do_exit then closed else waits before

-- From the opening of the file on, which has succeeded.
unfoldable pub file_opened : World → FileName → Ended
unfolding file_streams
file_opened w name =
    let with_memory : Ended = elim w.device [
      | none ↦ returns (pos 0) (opening_file name ++ allocates ∷ frees ∷ closing_file name)
      | some dev ↦ file_streams w name dev
    ] in
    if w.memory then with_memory else returns (pos 0) (opening_file name ++ closing_file name)

-- Where the name is known; -ENOENT if there is no such file.
abbrev pub open_named : World → FileName → Ended
open_named w missing = exits (pos 1)
open_named w stdin = file_opened w stdin
open_named w named = if w.file then file_opened w named else returns (negsuc 1) []

unfoldable pub file_main : World → List FileOption → FileName → Ended
unfolding parse_file file_opened
file_main w options name = elim (parse_file options file_defaults) [
  | none ↦ exits (pos 1)
  | some o ↦ elim name [
    | missing ↦ exits (pos 1)
    | stdin ↦ if is_negative o.dev_index then exits (pos 1) else open_named w stdin
    | named ↦ if is_negative o.dev_index then exits (pos 1) else open_named w named
  ]
]
