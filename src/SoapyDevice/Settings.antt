-- ===== src/SoapyDevice/Settings.antt =====
-- src/SoapySDR/Settings.cpp: the sample rate and the time of a device, and what it tells about itself.
-- The conversions of SoapySDR between ticks and nanoseconds are a parameter, and so are floating-point
-- numbers and libusb.
use Prim.Native.String.{String}
use text.Mathlib.Text.{◌==◌ as ◌==ˢ◌}
use osmo_fl2k.Prelude.{ℕ, List, [], ◌∷◌, Option, none, some, Bool, true, false, ◌||◌}
use osmo_fl2k.Registers.{Bus}
use osmo_fl2k.SampleRate.{Floats}
use osmo_fl2k.SampleRate
use osmo_fl2k.Decimal.{to_string}
use osmo_fl2k.Soapy.Queries.{ArgInfo, bool}
use osmo_fl2k.SoapyDevice.{Kwargs, SoapyOsmoFl2k}

abbrev pub get_driver_key : String
get_driver_key = "OSMOFL2K"

abbrev pub get_hardware_key : String
get_hardware_key = "UNKNOWN"

unfoldable pub get_hardware_info : SoapyOsmoFl2k → Kwargs
get_hardware_info d =
    ("fl2k", to_string d.device_id) ∷ ("origin", "https://github.com/watkipet/SoapyOsmoFL2K") ∷ []

abbrev pub list_time_sources : List String
list_time_sources = "sw_ticks" ∷ []

abbrev pub get_time_source : String
get_time_source = "sw_ticks"

unfoldable pub has_hardware_time : String → Bool
has_hardware_time what = what ==ˢ "" || what ==ˢ "sw_ticks"

abbrev pub has_dc_offset_mode : Bool
has_dc_offset_mode = false

abbrev pub has_frequency_correction : Bool
has_frequency_correction = false

-- No setting is kept, and none is known.
abbrev pub write_setting : String → String → SoapyOsmoFl2k → SoapyOsmoFl2k
write_setting key value d = d

abbrev pub read_setting : String → String
read_setting key = ""

abbrev pub get_setting_info : List ArgInfo
get_setting_info =
    record {
      key = "iq_swap";
      value = "false";
      name = "I/Q Swap";
      description = "OSMO-FL2K I/Q Swap Mode";
      units = "";
      kind = bool;
    }
    ∷ []

-- `SoapySDR::ticksToTimeNs` and `SoapySDR::timeNsToTicks` of a number of ticks or of nanoseconds, and of a rate.
pub record Clock : Type 0 where
  pub ticks_to_time_ns : ℕ → ℕ → ℕ
  pub time_ns_to_ticks : ℕ → ℕ → ℕ

module _ (clock : Clock) where
  open clock use {ticks_to_time_ns, time_ns_to_ticks}

  unfoldable pub get_hardware_time : SoapyOsmoFl2k → ℕ
  get_hardware_time d = ticks_to_time_ns d.stream.ticks d.sample_rate

  unfoldable pub set_hardware_time : ℕ → SoapyOsmoFl2k → SoapyOsmoFl2k
  set_hardware_time time_ns d = record d {
    stream = record d.stream { ticks = time_ns_to_ticks time_ns d.sample_rate };
  }

  -- `setSampleRate`, but for its calls of the library: with the rate that the device has behind them.
  unfoldable pub at_rate : ℕ → SoapyOsmoFl2k → SoapyOsmoFl2k
  at_rate rate d =
      let ns = ticks_to_time_ns d.stream.ticks d.sample_rate in
      record d {
        sample_rate = rate;
        stream = record d.stream { reset_buffer = true; ticks = time_ns_to_ticks ns rate };
      }

module _ (fl : Floats) where
  open fl use {Double, u32_of_double}

  -- The rate in the device, if there is one.
  abbrev pub rate_of : {S : Type 0} → Option (S × Double) → Option Double
  rate_of none = none
  rate_of (some (_, rate)) = some rate

  abbrev pub usb_of : {S : Type 0} → Option (S × Double) → Option S
  usb_of none = none
  usb_of (some (usb, _)) = some usb

  -- `getSampleRate`, before its result becomes a double.
  unfoldable pub get_sample_rate : {S : Type 0} → Option (S × Double) → ℕ
  get_sample_rate dev = SampleRate.get_sample_rate fl (rate_of dev)

  -- `setSampleRate`, with the device `dev`: NULL, or with what is behind libusb and its rate.
  unfoldable pub set_sample_rate :
      {S : Type 0}
      → Clock
      → Bus S
      → Double
      → Double
      → SoapyOsmoFl2k
      → Option (S × Double)
      → SoapyOsmoFl2k × Option (S × Double)
  unfolding at_rate get_sample_rate
  set_sample_rate clock bus start rate d dev =
      let dev' = (SampleRate.set_sample_rate fl bus start (usb_of dev) (u32_of_double rate)).1 in
      (at_rate clock (get_sample_rate dev') d, dev')
