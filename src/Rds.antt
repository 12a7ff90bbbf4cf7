-- ===== src/Rds.antt =====
-- src/rds_mod.c: the coder of the Radio Data System. `char` is
-- signed, and kept as an unsigned byte.
pub mod Crc
pub mod Check
pub mod Schedule
pub mod Text
pub mod Parts
pub mod Groups
pub mod Samples
pub mod Subcarrier
use mathlib.Core.Option
use osmo_fl2k.Prelude.{
  ℕ, zero, suc, ◌+◌, ◌-◌, ◌*◌, ◌/◌, ◌%◌, ◌^◌, List, [], ◌∷◌, ◌++◌, map, Bool, true, false, Option,
  none, some, ltb, leb, ◌==◌, if◌then◌else◌, get_elem?, bit_and, bit_or, bit_xor, ◌>>=◌,
}

-- POLY, the generator without its leading term
abbrev pub poly : ℕ
poly = 0x1b9

-- `uint16_t << 1`
abbrev pub shl16 : ℕ → ℕ
shl16 n = n * 2 % 2 ^ 16

-- `(word & mask) != 0`, as 0 or 1
abbrev pub flag : ℕ → ℕ → ℕ
flag word mask = if bit_and word mask == 0 then 0 else 1

-- The loop of `crc` for `left` rounds.
unfoldable pub crc_from : ℕ → ℕ → ℕ → ℕ
crc_from zero block crc = crc
crc_from (suc left) block crc =
    let bit = flag block (2 ^ 15) in
    let msb = bit_and (crc / 2 ^ 9) 1 in
    crc_from left (shl16 block)
      (if bit_xor msb bit == 0 then shl16 crc else bit_xor (shl16 crc) poly)

-- `crc`
unfoldable pub crc : ℕ → ℕ
crc block = crc_from 16 block 0

-- `*buffer++ = ((word & mask) != 0); word <<= 1;` for `left` rounds.
unfoldable pub emit : ℕ → ℕ → ℕ → List ℕ
emit mask zero word = []
emit mask (suc left) word = flag word mask ∷ emit mask left (shl16 word)

-- One block of a group with its checkword: `offset` is its offset word.
unfoldable pub emit_block : ℕ → ℕ → List ℕ
emit_block block offset = emit (2 ^ 15) 16 block ++ emit (2 ^ 9) 10 (bit_xor (crc block) offset)

-- The four blocks of a group, before the checkwords.
pub record Blocks : Type 0 where
  pub a : ℕ
  pub b : ℕ
  pub c : ℕ
  pub d : ℕ

-- The last loop of `get_rds_group`, with `offset_words`.
unfoldable pub emit_group : Blocks → List ℕ
emit_group g =
    emit_block g.a 0x0fc ++ (emit_block g.b 0x198 ++ (emit_block g.c 0x168 ++ emit_block g.d 0x1b4))

-- `rds_params`; `ta` is whether the int is not 0.
pub record Params : Type 0 where
  pub pi : ℕ
  pub ta : Bool
  pub ps : List ℕ
  pub rt : List ℕ

-- The static variables of `get_rds_ct_group` and `get_rds_group`; `none` is -1.
pub record Coder : Type 0 where
  pub latest_minutes : Option ℕ
  pub state : ℕ
  pub ps_state : ℕ
  pub rt_state : ℕ

abbrev pub start : Coder
start = record { latest_minutes = none; state = 0; ps_state = 0; rt_state = 0 }

-- The UTC time that `gmtime` gives, and the seconds of the second call of `time`.
pub record Clock : Type 0 where
  pub tm_min : ℕ
  pub tm_hour : ℕ
  pub tm_mday : ℕ
  pub tm_mon : ℕ
  pub tm_year : ℕ
  pub seconds : ℕ

-- The date as a Modified Julian Day: the products with 365.25 and 30.6001, cut to integers.
unfoldable pub mjd_of : Clock → ℕ
mjd_of t =
    let l = if leb t.tm_mon 1 then 1 else 0 in
    14956 + t.tm_mday + (t.tm_year - l) * 1461 / 4 + (t.tm_mon + 2 + l * 12) * 306001 / 10000

-- The blocks that `get_rds_ct_group` sets when it makes a group, on Linux.
unfoldable pub ct_blocks : Params → Clock → Blocks
ct_blocks p t = record {
  a = p.pi;
  b = bit_or 0x4400 (mjd_of t / 2 ^ 15) % 2 ^ 16;
  c = bit_or (mjd_of t * 2) (t.tm_hour / 2 ^ 4) % 2 ^ 16;
  d =
      bit_or (bit_or (bit_and t.tm_hour 0xf * 2 ^ 12) (t.tm_min * 2 ^ 6) % 2 ^ 16)
        (t.seconds / (30 * 60))
      % 2 ^ 16;
}

-- A `char` as the int that it is promoted to, modulo 2 ^ 32.
abbrev pub promoted : ℕ → ℕ
promoted c = if ltb c 128 then c else c + (2 ^ 32 - 2 ^ 8)

-- `x << 8 | y` on chars, stored in 16 bits.
unfoldable pub pair : ℕ → ℕ → ℕ
pair x y = bit_or (promoted x * 2 ^ 8 % 2 ^ 32) (promoted y) % 2 ^ 16

-- The pair of chars at index `i`; `none` is an access outside the array.
unfoldable pub pair_at : List ℕ → ℕ → Option ℕ
pair_at text i = do x ← get_elem? text i; y ← get_elem? text (i + 1); some (pair x y)

-- A group of type 0A with a part of the station's name, and one of type 2A with a part of the text.
abbrev pub name_group : Params → ℕ → ℕ → Blocks
name_group p ps_state d = record {
  a = p.pi;
  b = if p.ta then bit_or (bit_or 0x0400 ps_state) 0x0010 else bit_or 0x0400 ps_state;
  c = 0xcdcd;
  d = d;
}

unfoldable pub name_blocks : Params → ℕ → Option Blocks
name_blocks p ps_state = do d ← pair_at p.ps (ps_state * 2); some (name_group p ps_state d)

abbrev pub text_group : Params → ℕ → ℕ → ℕ → Blocks
text_group p rt_state c d = record { a = p.pi; b = bit_or 0x2400 rt_state; c = c; d = d }

unfoldable pub text_blocks : Params → ℕ → Option Blocks
text_blocks p rt_state = do
  c ← pair_at p.rt (rt_state * 4)
  d ← pair_at p.rt (rt_state * 4 + 2)
  some (text_group p rt_state c d)

abbrev wrap : ℕ → ℕ → ℕ
wrap n limit = if leb limit n then 0 else n

unfoldable pub name_or_text : Params → Coder → Option (Blocks × Coder)
name_or_text p s =
    let state' = wrap (s.state + 1) 5 in
    if ltb s.state 4
    then Option.map (λ g. (g, record s { state = state'; ps_state = wrap (s.ps_state + 1) 4 }))
        (name_blocks p s.ps_state)
    else Option.map (λ g. (g, record s { state = state'; rt_state = wrap (s.rt_state + 1) 16 }))
        (text_blocks p s.rt_state)

abbrev same_minute : Option ℕ → ℕ → Bool
same_minute none m = false
same_minute (some n) m = n == m

-- `get_rds_group`: the bits that it stores, and the static variables behind it.
unfoldable pub get_rds_group : Params → Clock → Coder → Option (List ℕ × Coder)
get_rds_group p t s =
    if same_minute s.latest_minutes t.tm_min
    then Option.map (λ (g, s'). (emit_group g, s')) (name_or_text p s)
    else some (emit_group (ct_blocks p t), record s { latest_minutes = some t.tm_min })

-- `strncpy(dst, s, n)` of the C library, into `n` chars; `s` may end without a 0.
unfoldable pub strncpy : ℕ → List ℕ → List ℕ
strncpy zero s = []
strncpy (suc n) [] = 0 ∷ strncpy n []
strncpy (suc n) (c ∷ s) =
    let padding = strncpy n [] in let rest = strncpy n s in if c == 0 then 0 ∷ padding else c ∷ rest

abbrev pub blank : ℕ → ℕ
blank c = if c == 0 then 32 else c

unfoldable pub set_rds_rt : Params → List ℕ → Params
set_rds_rt p s = record p { rt = map blank (strncpy 64 s) }

unfoldable pub set_rds_ps : Params → List ℕ → Params
set_rds_ps p s = record p { ps = map blank (strncpy 8 s) }

abbrev pub set_rds_pi : Params → ℕ → Params
set_rds_pi p pi_code = record p { pi = pi_code }

abbrev pub set_rds_ta : Params → ℕ → Params
set_rds_ta p ta = record p { ta = if ta == 0 then false else true }
