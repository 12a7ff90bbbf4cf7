-- ===== src/Discovery/Search.antt =====
-- The searches against the list of the known devices.
use osmo_fl2k.Prelude.{
  ℕ, suc, ◌+◌, ◌-◌, ◌%◌, ◌^◌, ◌≤◌, ◌<◌, List, [], ◌∷◌, Option, none, some, false, if◌then◌else◌,
  ◌≡◌, refl, inl, inr, ◌∙◌, ap, arith, length, get_elem?, ℤ, pos, is_negative, Bool-cases,
  Option-cases, ℕ_discrete,
}
use osmo_fl2k.Discovery.{
  Descriptor, Dongle, find_known_device, is_known, count_from, get_device_count, name_from,
  get_device_name, name_or_empty, select_from,
}

-- The known devices among those listed, in their order.
unfoldable pub known_of : List Descriptor → List Descriptor
known_of [] = []
known_of (dd ∷ dds) = let rest = known_of dds in if is_known dd then dd ∷ rest else rest

length-known_of-le : (list : List Descriptor) → length (known_of list) ≤ length list
unfolding known_of
length-known_of-le [] = omega arith
length-known_of-le (dd ∷ dds) = ground (arith, length-known_of-le dds)

count_from-known_of :
    (c : ℕ) (list : List Descriptor)
    → c + length list < 2 ^ 32
    → count_from c list ≡ c + length (known_of list)
unfolding count_from known_of
count_from-known_of c [] h = omega arith
count_from-known_of c (dd ∷ dds) h = elim (Bool-cases (is_known dd)) [
  | inl e ↦ rw e (ground (arith, count_from-known_of ((c + 1) % 2 ^ 32) dds))
  | inr e ↦ rw e (count_from-known_of c dds (omega arith))
]

-- For fewer than 2 ^ 32 devices listed `fl2k_get_device_count` counts the known ones, and it is 0
-- if libusb does not start.
pub get_device_count_lem :
    (r : ℤ) (list : List Descriptor)
    → length list < 2 ^ 32
    → get_device_count r list ≡ (if is_negative r then 0 else length (known_of list))
unfolding get_device_count
get_device_count_lem r list h = ground (arith, count_from-known_of 0 list)

select_from-known_of :
    (index c : ℕ) (list : List Descriptor)
    → c ≤ index
    → index < 2 ^ 32 - 1
    → select_from index c list ≡ get_elem? (known_of list) (index - c)
unfolding select_from known_of
select_from-known_of index c [] h l = refl
select_from-known_of index c (dd ∷ dds) h l = elim (Bool-cases (is_known dd)) [
  | inl e ↦ elim (ℕ_discrete index c) [
    | yes p ↦ let here : index - c ≡ 0 = omega arith in rw (e, here) (ground arith)
    | no p ↦
        let beyond : index - c ≡ suc (index - (c + 1)) = omega arith in
        let inc : (c + 1) % 2 ^ 32 ≡ c + 1 = omega arith in
        let ih = select_from-known_of index (c + 1) dds (omega arith) l in
        rw (e, beyond, inc) (ground (arith, ih))
  ]
  | inr e ↦ rw e (ground (arith, select_from-known_of index c dds h l))
]

-- `fl2k_open` takes the adapter of the given index among the known devices, and none if there are not
-- so many, for every index but the largest of 32 bits.
pub open_selects :
    (index : ℕ) (list : List Descriptor)
    → index < 2 ^ 32 - 1
    → select_from index 0 list ≡ get_elem? (known_of list) index
open_selects index list l =
    let all : index - 0 ≡ index = omega arith in
    select_from-known_of index 0 list (omega arith) l ∙ ap (get_elem? (known_of list)) all

-- With the largest index, 0xffffffff, it takes the first device listed whenever that is not an
-- adapter: the count of devices found, 0, wraps to that index.
pub open_selects_unknown :
    (dd : Descriptor) (list : List Descriptor)
    → is_known dd ≡ false
    → select_from (2 ^ 32 - 1) 0 (dd ∷ list) ≡ some dd
unfolding select_from
open_selects_unknown dd list e = rw e refl

-- What `find_known_device` says of the last device listed, or `device` without any.
pub find_last : Option Dongle → List Descriptor → Option Dongle
find_last device [] = device
find_last device (dd ∷ dds) = find_last (find_known_device dd) dds

name_from-find_last :
    (index c : ℕ) (device : Option Dongle) (list : List Descriptor)
    → c + length list < 2 ^ 32
    → c + length (known_of list) ≤ index
    → name_from index device c list ≡ find_last device list
unfolding name_from known_of find_last
name_from-find_last index c device [] h l = refl
name_from-find_last index c device (dd ∷ dds) h l = elim (Option-cases (find_known_device dd)) [
  | inl e ↦ ground (arith, e, name_from-find_last index c none dds (omega arith))
  | inr (d, e) ↦
      let inc : (c + 1) % 2 ^ 32 ≡ c + 1 = omega arith in
      let below : c + 1 + length (known_of dds) ≤ index = ground arith in
      let ih = name_from-find_last index (c + 1) (some d) dds (omega arith) below in
      ground (arith, e, ap (λ t. name_from index (some d) t dds) inc ∙ ih)
]

-- For fewer than 2 ^ 32 devices listed and an index past the last adapter, `fl2k_get_device_name`
-- gives the name of the device listed last if that is an adapter, and the empty name otherwise.
pub name_past_end :
    (n : ℕ) (list : List Descriptor) (index : ℕ)
    → length list < 2 ^ 32
    → length (known_of list) ≤ index
    → get_device_name (pos n) list index ≡ name_or_empty (find_last none list)
unfolding get_device_name
name_past_end n list index h l =
    ap name_or_empty (name_from-find_last index 0 none list (omega arith) (omega arith))

known_here :
    (index c : ℕ) (d : Dongle) (dd : Descriptor) (dds : List Descriptor)
    → find_known_device dd ≡ some d
    → index ≡ c
    → get_elem? (known_of (dd ∷ dds)) (index - c) ≡ some dd
unfolding known_of
known_here index c d dd dds e p = let here : index - c ≡ 0 = omega arith in rw (e, here) refl

known_later :
    (index c : ℕ) (d : Dongle) (dd found : Descriptor) (dds : List Descriptor)
    → find_known_device dd ≡ some d
    → c < index
    → get_elem? (known_of dds) (index - (c + 1)) ≡ some found
    → get_elem? (known_of (dd ∷ dds)) (index - c) ≡ some found
unfolding known_of
known_later index c d dd found dds e p at =
    let beyond : index - c ≡ suc (index - (c + 1)) = omega arith in rw (e, beyond) at

name_from-known_of :
    (index c : ℕ) (device : Option Dongle) (list : List Descriptor)
    → c + length list < 2 ^ 32
    → c ≤ index
    → index < c + length (known_of list)
    → (dd : Descriptor) × (get_elem? (known_of list) (index - c) ≡ some dd)
      × (name_from index device c list ≡ find_known_device dd)
unfolding name_from known_of
name_from-known_of index c device [] h l m = absurd (omega arith)
name_from-known_of index c device (dd ∷ dds) h l m = elim (Option-cases (find_known_device dd)) [
  | inl e ↦
      let (found, at, same) = name_from-known_of index c none dds (omega arith) l (ground arith) in
      (found, ground arith, ground arith)
  | inr (d, e) ↦ elim (ℕ_discrete index c) [
    | yes p ↦ (dd, known_here index c d dd dds e p, ground arith)
    | no p ↦
        let inc : (c + 1) % 2 ^ 32 ≡ c + 1 = omega arith in
        let (found, at, same) =
          name_from-known_of index (c + 1) (some d) dds (omega arith) (omega arith)
            (ground arith) in
        (
          found,
          known_later index c d dd found dds e (omega arith) at,
          ground (arith, ap (λ t. name_from index (some d) t dds) inc ∙ same),
        )
  ]
]

-- For fewer than 2 ^ 32 devices listed and the index of an adapter, `fl2k_get_device_name` gives
-- the name of the device that `fl2k_open` takes for that index.
pub get_device_name-select_from :
    (n index : ℕ) (list : List Descriptor)
    → length list < 2 ^ 32
    → index < length (known_of list)
    → (dd : Descriptor) × (select_from index 0 list ≡ some dd)
      × (get_device_name (pos n) list index ≡ name_or_empty (find_known_device dd))
unfolding get_device_name
get_device_name-select_from n index list h l =
    let (dd, at, same) =
      name_from-known_of index 0 none list (omega arith) (omega arith) (omega arith) in
    let all : index - 0 ≡ index = omega arith in
    let small = length-known_of-le list in
    (
      dd,
      open_selects index list (omega arith) ∙ ap (get_elem? (known_of list)) (omega arith) ∙ at,
      ap name_or_empty same,
    )
