-- ===== src/Decimal.antt =====
-- `std::to_string` of a number and `std::stoi`, as src/SoapySDR/Registration.cpp and
-- src/SoapySDR/Settings.cpp call them: a device's index as text, and back.
pub mod RoundTrip
use Prim.Native.Char.{Char, code}
use Prim.Native.String.{String}
use osmo_fl2k.Prelude.{
  ℕ, zero, suc, ◌+◌, ◌-◌, ◌*◌, ◌/◌, ◌%◌, ◌^◌, List, [], ◌∷◌, Bool, true, false, ◌&&◌, ◌||◌, ltb,
  leb, ◌==◌, if◌then◌else◌, pos, negsuc,
}
use osmo_fl2k.Soapy.Setup.{Arg, invalid, too_large, number}

abbrev pub codes : String → List ℕ
codes String.[] = []
codes (String.◌∷◌ c s) = code c ∷ codes s

unfoldable pub digit : ℕ → Char
digit d =
    if d == 0
    then "0"
    else if d == 1
    then "1"
    else if d == 2
    then "2"
    else if d == 3
    then "3"
    else if d == 4
    then "4"
    else if d == 5
    then "5"
    else if d == 6
    then "6"
    else if d == 7
    then "7"
    else if d == 8
    then "8"
    else "9"

-- The digits of `n` in front of `text`, with fuel for them.
unfoldable pub digits_before : ℕ → ℕ → String → String
digits_before zero n text = text
digits_before (suc fuel) n text =
    let rest = digits_before fuel (n / 10) (String.◌∷◌ (digit (n % 10)) text) in
    if ltb n 10 then String.◌∷◌ (digit n) text else rest

-- A number has no more digits than its value and one.
unfoldable pub to_string : ℕ → String
unfolding digits_before
to_string n = digits_before (suc n) n ""

abbrev pub is_digit : ℕ → Bool
is_digit c = leb b'0' c && leb c b'9'

-- `isspace`
abbrev pub is_space : ℕ → Bool
is_space c = c == 32 || (leb 9 c && leb c 13)

-- The value of the digits at the head of a text, behind those read so far.
unfoldable pub value_from : ℕ → List ℕ → ℕ
value_from n [] = n
value_from n (c ∷ cs) =
    let rest = value_from (n * 10 + (c - b'0')) cs in if is_digit c then rest else n

abbrev pub starts_digit : List ℕ → Bool
starts_digit [] = false
starts_digit (c ∷ _) = is_digit c

-- The range of `int`.
abbrev pub to_int : Bool → ℕ → Arg
to_int false n = if ltb n (2 ^ 31) then number (pos n) else too_large
to_int true n =
    if n == 0 then number (pos 0) else if leb n (2 ^ 31) then number (negsuc (n - 1)) else too_large

abbrev pub unsigned_int : Bool → List ℕ → Arg
unsigned_int minus cs = if starts_digit cs then to_int minus (value_from 0 cs) else invalid

abbrev pub signed_int : List ℕ → Arg
signed_int [] = invalid
signed_int (c ∷ cs) =
    if c == b'-'
    then unsigned_int true cs
    else if c == b'+'
    then unsigned_int false cs
    else unsigned_int false (c ∷ cs)

unfoldable pub int_of : List ℕ → Arg
int_of [] = invalid
int_of (c ∷ cs) = let rest = int_of cs in if is_space c then rest else signed_int (c ∷ cs)

-- `std::stoi`
unfoldable pub stoi : String → Arg
unfolding int_of value_from
stoi text = int_of (codes text)
