-- ===== src/SoapyDevice/Refreshing.antt =====
-- When `findOsmoFL2K` searches anew.
use osmo_fl2k.Prelude.{
  ◌<◌, true, false, ◌==◌, length, ℤ, pos, negsuc, ◌==ℤ◌, ◌≡◌, ◌≢◌, refl, ap, sym, ◌∙◌, arith, ◌⊎◌,
  inl, inr, Bool-cases,
}
use osmo_fl2k.Discovery.{get_device_count}
use osmo_fl2k.SoapyDevice.{
  Kwargs, Usb, Registry, int_of_u32, rounds, fill_devices, refresh, find_osmo_fl2k, pick,
}

-- The members behind a new search.
abbrev pub searched : Usb → ℤ → Registry
searched usb count = record { count = count; devices = fill_devices usb 0 (rounds count) }

==ℤ_refl : (a : ℤ) → (a ==ℤ a) ≡ true
==ℤ_refl (pos n) = ground arith
==ℤ_refl (negsuc n) = ground arith

==ℤ_eq : (a b : ℤ) → (a ==ℤ b) ≡ true → a ≡ b
==ℤ_eq (pos m) (pos n) h = ap pos (ground arith)
==ℤ_eq (pos m) (negsuc n) h = absurd (ground arith)
==ℤ_eq (negsuc m) (pos n) h = absurd (ground arith)
==ℤ_eq (negsuc m) (negsuc n) h = ap negsuc (ground arith)

-- How many devices the library counts in a call, as an int.
abbrev pub counted : Usb → ℤ
counted usb = int_of_u32 (get_device_count usb.count_init usb.count_list)

-- The members behind a call: those of a new search, or the ones before.
pub data Refreshed (usb : Usb) (r r' : Registry) : Type 0 where
  searches :
      (length r.devices ≡ 0) ⊎ (r.count ≢ counted usb)
      → r' ≡ searched usb (counted usb)
      → Refreshed usb r r'
  stays : 0 < length r.devices → r.count ≡ counted usb → r' ≡ r → Refreshed usb r r'

pub refresh-Refreshed : (usb : Usb) (r : Registry) → Refreshed usb r (refresh usb r)
unfolding refresh
refresh-Refreshed usb r = elim (Bool-cases (length r.devices == 0)) [
  | inl e ↦ searches (inl (ground (arith, e))) (rw (refresh, e) refl)
  | inr e ↦ elim (Bool-cases (r.count ==ℤ counted usb)) [
    | inl e' ↦
        stays (ground (arith, e)) (==ℤ_eq r.count (counted usb) e') (rw (refresh, e, e') refl)
    | inr e' ↦
        searches (inr (λ same. cc (e', ap (λ c. r.count ==ℤ c) (sym same), ==ℤ_refl r.count)))
          (rw (refresh, e, e') refl)
  ]
]

refresh_kept :
    (usb : Usb) (r : Registry)
    → 0 < length r.devices
    → int_of_u32 (get_device_count usb.count_init usb.count_list) ≡ r.count
    → refresh usb r ≡ r
unfolding refresh
refresh_kept usb r some_listed same =
    let full : (length r.devices == 0) ≡ false = ground arith in
    let equal : (r.count ==ℤ int_of_u32 (get_device_count usb.count_init usb.count_list)) ≡ true =
      ap (λ c. r.count ==ℤ c) same ∙ ==ℤ_refl r.count in
    rw (refresh, full, equal) refl

-- Once devices are listed, a call that counts as many as the last search did looks at none of them: it returns what any
-- other such call returns, whichever devices are plugged in and available, and leaves the members as they are.
pub find_stale :
    (usb usb' : Usb) (r : Registry) (args : Kwargs)
    → 0 < length r.devices
    → int_of_u32 (get_device_count usb.count_init usb.count_list) ≡ r.count
    → int_of_u32 (get_device_count usb'.count_init usb'.count_list) ≡ r.count
    → (find_osmo_fl2k usb r args ≡ find_osmo_fl2k usb' r args) × ((find_osmo_fl2k usb r args).0 ≡ r)
unfolding find_osmo_fl2k
find_stale usb usb' r args some_listed same same' =
    let kept = refresh_kept usb r some_listed same in
    let kept' = refresh_kept usb' r some_listed same' in
    (ap (λ c. (c, pick args c.devices 0 (rounds c.count))) (kept ∙ sym kept'), kept)
