-- ===== src/SoapyDevice/Channels.antt =====
-- src/SoapySDR/Settings.cpp: the channels and antennas. `none` is an exception; `is_tx` is
-- `direction == SOAPY_SDR_TX`.
use Prim.Native.String.{String}
use text.Mathlib.Text.{◌==◌ as ◌==ˢ◌}
use text.Mathlib.TextEquality.{eq_iff}
use mathlib.Core.Logic.{◌↔◌}
use osmo_fl2k.Prelude.{
  ℕ, zero, suc, ◌<◌, List, [], ◌∷◌, Option, none, some, Bool, true, false, not, if◌then◌else◌, ◌≡◌,
  ◌≢◌, refl, arith, inl, inr, Bool-cases, ◌>>=◌,
}
use osmo_fl2k.SoapyDevice.{Kwargs}

unfoldable pub get_num_channels : Bool → ℕ
get_num_channels is_tx = if is_tx then 3 else 0

-- The `switch` of the functions below.
abbrev pub colour : ℕ → Option String
colour zero = some "red"
colour (suc zero) = some "green"
colour (suc (suc zero)) = some "blue"
colour (suc (suc (suc _))) = none

unfoldable pub get_channel_info : Bool → ℕ → Option Kwargs
get_channel_info is_tx channel =
    if not is_tx then none else (colour channel >>= λ name. some (("name", name) ∷ []))

unfoldable pub get_full_duplex : Bool → Option Bool
get_full_duplex is_tx = if not is_tx then none else some false

unfoldable pub list_antennas : Bool → ℕ → Option (List String)
list_antennas is_tx channel =
    if not is_tx then none else (colour channel >>= λ name. some (name ∷ []))

-- `valid` for a channel
abbrev pub is_valid : ℕ → String → Option Bool
is_valid channel name = colour channel >>= λ own. some (name ==ˢ own)

unfoldable pub set_antenna : Bool → ℕ → String → Option (Unit {0})
set_antenna is_tx channel name =
    if not is_tx
    then none
    else (is_valid channel name >>= λ valid. if not valid then none else some tt)

-- It does not look at the direction.
unfoldable pub get_antenna : Bool → ℕ → Option String
get_antenna is_tx channel = colour channel

-- A name is taken if it is the one that is listed.
same_name :
    (name own : String)
    → ((if not (name ==ˢ own) then none else some (tt {0})) ≡ some (tt {0}))
      ↔ (some (own ∷ []) ≡ some (name ∷ []))
same_name name own = elim (Bool-cases (name ==ˢ own)) [
  | inl e ↦ rw e (λ h. cc ((eq_iff name own).0 e), λ h. refl)
  | inr e ↦ rw e (λ h. cc, λ h. let same : name ≡ own = cc h in cc (e, (eq_iff name own).1 same))
]

-- The functions of a channel agree: `setAntenna` takes exactly the name that `listAntennas` lists, `listAntennas` returns
-- exactly for the channels that `getNumChannels` counts, and where it does it lists what `getAntenna` returns, alone.
pub antennas_agree :
    (is_tx : Bool) (channel : ℕ) (name : String)
    → ((set_antenna is_tx channel name ≡ some tt)
        ↔ (list_antennas is_tx channel ≡ some (name ∷ [])))
      × ((list_antennas is_tx channel ≢ none) ↔ (channel < get_num_channels is_tx))
      × (is_tx ≡ true
          → list_antennas is_tx channel ≡ (get_antenna is_tx channel >>= λ own. some (own ∷ [])))
unfolding set_antenna list_antennas get_antenna get_num_channels
antennas_agree false channel name =
    ((λ h. cc, λ h. cc), (λ h. absurd (h refl), λ h. absurd (omega arith)), λ h. cc)
antennas_agree true zero name = (same_name name "red", (λ h. omega arith, λ h e. cc), λ h. refl)
antennas_agree true (suc zero) name =
    (same_name name "green", (λ h. omega arith, λ h e. cc), λ h. refl)
antennas_agree true (suc (suc zero)) name =
    (same_name name "blue", (λ h. omega arith, λ h e. cc), λ h. refl)
antennas_agree true (suc (suc (suc k))) name =
    ((λ h. cc, λ h. cc), (λ h. absurd (h refl), λ h. absurd (omega arith)), λ h. refl)
