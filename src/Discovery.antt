-- ===== src/Discovery.antt =====
-- src/libosmo-fl2k.c, `find_known_device`, `fl2k_get_device_count`, `fl2k_get_device_name` and the
-- search of `fl2k_open`: which of the USB devices that libusb lists are adapters.
pub mod Search
pub mod Agree
use Prim.Native.String.{String}
use osmo_fl2k.Prelude.{
  ℕ, ◌+◌, ◌-◌, ◌%◌, ◌^◌, List, [], ◌∷◌, Option, none, some, Bool, true, false, not, ◌&&◌, ◌==◌,
  if◌then◌else◌, is_none, ℤ, is_negative,
}

-- A `libusb_device` with its `struct libusb_device_descriptor`, as far as that is read. `handle` stands for the pointer,
-- which tells devices of one kind apart.
pub record Descriptor : Type 0 where
  pub handle : ℕ
  pub vendor : ℕ
  pub product : ℕ

-- `fl2k_dongle_t`
pub record Dongle : Type 0 where
  pub vid : ℕ
  pub pid : ℕ
  pub name : String

abbrev pub known_devices : List Dongle
known_devices = record { vid = 0x1d5c; pid = 0x2000; name = "FL2000DX OEM" } ∷ []

find_in : ℕ → ℕ → List Dongle → Option Dongle
find_in vid pid [] = none
find_in vid pid (d ∷ ds) = if d.vid == vid && d.pid == pid then some d else find_in vid pid ds

unfoldable pub find_known_device : Descriptor → Option Dongle
unfolding find_in
find_known_device dd = find_in dd.vendor dd.product known_devices

abbrev pub is_known : Descriptor → Bool
is_known dd = not (is_none (find_known_device dd))

-- `uint32_t` additions and subtractions of 1
abbrev pub inc32 : ℕ → ℕ
inc32 n = (n + 1) % 2 ^ 32

abbrev pub dec32 : ℕ → ℕ
dec32 n = (n + 2 ^ 32 - 1) % 2 ^ 32

unfoldable pub count_from : ℕ → List Descriptor → ℕ
count_from device_count [] = device_count
count_from device_count (dd ∷ dds) =
    count_from (if is_known dd then inc32 device_count else device_count) dds

-- `fl2k_get_device_count`, where `libusb_init` returns `r` and the devices are `list`.
unfoldable pub get_device_count : ℤ → List Descriptor → ℕ
get_device_count r list = if is_negative r then 0 else count_from 0 list

-- The loop of `fl2k_get_device_name`: the value of `device` behind it.
unfoldable pub name_from : ℕ → Option Dongle → ℕ → List Descriptor → Option Dongle
name_from index device device_count [] = device
name_from index device device_count (dd ∷ dds) = elim (find_known_device dd) [
  | none ↦ name_from index none device_count dds
  | some d ↦
      let rest = name_from index (some d) (inc32 device_count) dds in
      if index == dec32 (inc32 device_count) then some d else rest
]

abbrev pub name_or_empty : Option Dongle → String
name_or_empty none = ""
name_or_empty (some d) = d.name

unfoldable pub get_device_name : ℤ → List Descriptor → ℕ → String
get_device_name r list index =
    if is_negative r then "" else name_or_empty (name_from index none 0 list)

-- The loop of `fl2k_open`: the value of `device` behind it.
unfoldable pub select_from : ℕ → ℕ → List Descriptor → Option Descriptor
select_from index device_count [] = none
select_from index device_count (dd ∷ dds) =
    let count = if is_known dd then inc32 device_count else device_count in
    let rest = select_from index count dds in if index == dec32 count then some dd else rest
