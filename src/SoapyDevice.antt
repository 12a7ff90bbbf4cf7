-- ===== src/SoapyDevice.antt =====
-- src/SoapySDR/Registration.cpp, `findOsmoFL2K`, and the constructor and the destructor of
-- src/SoapySDR/Settings.cpp. What libusb answers is an argument; `none` is an access outside the
-- vector of devices, or `at` with a key that is not there.
pub mod Channels
pub mod Refreshing
pub mod Finding
pub mod Making
pub mod Settings
pub mod Changing
pub mod Probing
use Prim.Native.String.{String}
use Prim.Native.String
use text.Mathlib.Text.{◌==◌ as ◌==ˢ◌}
use osmo_fl2k.Prelude.{
  ℕ, zero, suc, ◌+◌, ◌-◌, ◌^◌, List, [], ◌∷◌, ◌++◌, Option, none, some, Bool, true, false, not, ltb,
  ◌==◌, if◌then◌else◌, length, get_elem?, ◌>>=◌, ℤ, pos, negsuc, is_negative, ◌==ℤ◌,
}
use osmo_fl2k.Device.{AsyncStatus, inactive, success, xfer_len}
use osmo_fl2k.Discovery.{Descriptor, get_device_count, get_device_name}
use osmo_fl2k.Opening.{Call, Answers, Opened, open_index, close_device}
use osmo_fl2k.Soapy.{float32, Soapy}
use osmo_fl2k.Soapy.Setup.{Arg, absent, invalid, too_large, number}
use osmo_fl2k.Decimal.{to_string, stoi}

-- `SoapySDR::Kwargs`, a `std::map`, as its entries.
abbrev pub Kwargs : Type 0
Kwargs = List (String × String)

unfoldable pub find_key : String → Kwargs → Option String
find_key key [] = none
find_key key ((k, v) ∷ rest) = if k ==ˢ key then some v else find_key key rest

-- What libusb answers while the devices are looked for: `libusb_init` and the devices listed, in
-- `fl2k_get_device_count`, in `fl2k_get_device_name` of an index, and in `fl2k_open` of an index.
pub record Usb : Type 0 where
  pub count_init : ℤ
  pub count_list : List Descriptor
  pub name_init : ℕ → ℤ
  pub name_list : ℕ → List Descriptor
  pub opening : ℕ → Answers

-- The static members `fl2k_count` and `fl2k_devices`.
pub record Registry : Type 0 where
  pub count : ℤ
  pub devices : List Kwargs

-- A `uint32_t` as an `int`.
abbrev pub int_of_u32 : ℕ → ℤ
int_of_u32 n = if ltb n (2 ^ 31) then pos n else negsuc (2 ^ 32 - 1 - n)

-- The rounds of `for (int i = 0; i < n; i++)`.
abbrev pub rounds : ℤ → ℕ
rounds (pos n) = n
rounds (negsuc _) = 0

-- The calls of `fl2k_close` for a device that does not stream.
abbrev pub close_calls : List Call
close_calls = elim (close_device (some false) (inactive ∷ [])) [
  | none ↦ []
  | some (_, calls) ↦ calls
]

-- `fl2k_open`, and `fl2k_close` if it succeeds: whether the device is available, with the calls.
unfoldable pub probe : Answers → ℕ → Bool × List Call
unfolding open_index close_device
probe a index =
    let o = open_index a index in
    if o.result ==ℤ success then (true, o.calls ++ close_calls) else (false, o.calls)

-- `devInfo`
unfoldable pub device_info : Usb → ℕ → Kwargs
unfolding probe
device_info usb i =
    ("available", if (probe (usb.opening i) i).0 then "Yes" else "No")
    ∷ ("fl2k", to_string i)
    ∷ ("label", String.◌++◌ (get_device_name (usb.name_init i) (usb.name_list i) i) " :: ")
    ∷ []

-- The loop that fills the list, from `i` on.
unfoldable pub fill_devices : Usb → ℕ → ℕ → List Kwargs
fill_devices usb i zero = []
fill_devices usb i (suc left) = device_info usb i ∷ fill_devices usb (i + 1) left

unfoldable pub refresh : Usb → Registry → Registry
unfolding fill_devices
refresh usb r =
    let this_count = int_of_u32 (get_device_count usb.count_init usb.count_list) in
    let filled : Registry = record {
      count = this_count;
      devices = fill_devices usb 0 (rounds this_count);
    } in
    if length r.devices == 0 then filled else if r.count ==ℤ this_count then r else filled

-- Whether the device is one that is asked for, with an index, a label, both or none.
abbrev pub is_asked_for : Option String → Option String → Kwargs → Option Bool
is_asked_for (some index) label dev_info = find_key "fl2k" dev_info >>= λ own. some (index ==ˢ own)
is_asked_for none (some label) dev_info = find_key "label" dev_info >>= λ own. some (own ==ˢ label)
is_asked_for none none dev_info = some true

abbrev pub is_wanted : Kwargs → Kwargs → Option Bool
is_wanted args dev_info = is_asked_for (find_key "fl2k" args) (find_key "label" args) dev_info

abbrev pub push : Kwargs → Bool → List Kwargs → List Kwargs
push d wanted rest = if wanted then d ∷ rest else rest

-- The loop that picks from the list, from `i` on.
unfoldable pub pick : Kwargs → List Kwargs → ℕ → ℕ → Option (List Kwargs)
pick args devices i zero = some []
pick args devices i (suc left) = do
  d ← get_elem? devices i
  wanted ← is_wanted args d
  rest ← pick args devices (i + 1) left
  some (push d wanted rest)

-- `findOsmoFL2K`
unfoldable pub find_osmo_fl2k : Usb → Registry → Kwargs → Registry × Option (List Kwargs)
unfolding refresh pick find_key
find_osmo_fl2k usb r args = let r' = refresh usb r in (r', pick args r'.devices 0 (rounds r'.count))

-- A device object: its index, the device that `fl2k_open` gave (NULL if it failed), the sample rate
-- and the fields of the stream.
pub record SoapyOsmoFl2k : Type 0 where
  pub device_id : ℕ
  pub opened : Opened
  pub sample_rate : ℕ
  pub stream : Soapy

-- The constructor returns, or throws `std::runtime_error`, or lets `std::out_of_range` of
-- `std::stoi` or of `at` through.
pub data Made : Type 0 where
  made : SoapyOsmoFl2k → Made
  not_found index_out_of_range not_matched leaks : Made

-- The fields that the constructor sets, in the memory that it finds.
unfoldable pub initial : Soapy → Soapy
initial raw = record raw {
  tx_format = float32;
  async_buffs = 4;
  buffer_length = xfer_len;
  ticks = 0;
  buffered_elems = 0;
  reset_buffer = false;
}

-- The end of the constructor, with a `deviceId` that is not -1.
unfoldable pub open_as : (ℕ → Answers) → Soapy → ℕ → Made
unfolding initial open_index
open_as opening raw i = made (record {
  device_id = i;
  opened = open_index (opening i) i;
  sample_rate = 2048000;
  stream = initial raw;
})

-- The loop over the labels, from `i` on: the first device that has it, if one does; `none` outside
-- is an exception.
unfoldable pub index_of_label : String → List Kwargs → ℕ → ℕ → Option (Option ℕ)
unfolding find_key
index_of_label label devices i zero = some none
index_of_label label devices i (suc left) =
    let rest = index_of_label label devices (i + 1) left in
    do
      d ← get_elem? devices i
      own ← find_key "label" d
      if own ==ˢ label then some (some i) else rest

-- `deviceId` from "fl2k": it is -1 where `stoi` finds no number.
unfoldable pub by_index : (ℕ → Answers) → Registry → Soapy → Arg → Made
unfolding open_as
by_index opening r raw absent = index_out_of_range
by_index opening r raw invalid = index_out_of_range
by_index opening r raw too_large = leaks
by_index opening r raw (number (negsuc _)) = index_out_of_range
by_index opening r raw (number (pos n)) =
    if ltb n (rounds r.count) then open_as opening raw n else index_out_of_range

abbrev pub by_label : (ℕ → Answers) → Soapy → Option (Option ℕ) → Made
by_label opening raw none = leaks
by_label opening raw (some none) = not_matched
by_label opening raw (some (some i)) = open_as opening raw i

-- `makeOsmoFL2K` and the constructor
unfoldable pub make_osmo_fl2k : (ℕ → Answers) → Registry → Soapy → Kwargs → Made
unfolding by_index open_as index_of_label find_key
make_osmo_fl2k opening r raw args =
    let labelled : Made = elim (find_key "label" args) [
      | none ↦ not_matched
      | some label ↦ by_label opening raw (index_of_label label r.devices 0 (rounds r.count))
    ] in
    let indexed : Made = elim (find_key "fl2k" args) [
      | none ↦ labelled
      | some index ↦ by_index opening r raw (stoi index)
    ] in
    if r.count ==ℤ pos 0 then not_found else indexed

-- `fl2k_close` of what `fl2k_open` gave: NULL if it failed.
abbrev pub close_opened : Opened → Bool → List AsyncStatus → Option (List Call)
close_opened o dev_lost seen =
    close_device (if o.result ==ℤ success then some dev_lost else none) seen >>= λ closed.
    some closed.1

-- The destructor, with the device's `dev_lost` and the states that the wait for the end of a stream sees;
-- `none` while it waits.
unfoldable pub destroy : SoapyOsmoFl2k → Bool → List AsyncStatus → Option (List Call)
unfolding close_device
destroy d dev_lost seen = close_opened d.opened dev_lost seen
