-- ===== src/Discovery/Agree.antt =====
-- src/libosmo-fl2k.c: the count, the name and the search of a device go through the same adapters.
use osmo_fl2k.Prelude.{
  ℕ, zero, suc, ◌-◌, ◌^◌, ◌≤◌, ◌<◌, List, [], ◌∷◌, none, some, true, ◌≡◌, ◌⊎◌, refl, sym, inl, inr,
  ◌∙◌, arith, length, get_elem?, pos, ltb, Bool-cases,
}
use osmo_fl2k.Discovery.{
  Descriptor, find_known_device, is_known, get_device_count, get_device_name, name_or_empty,
  select_from,
}
use osmo_fl2k.Discovery.Search.{
  known_of, get_device_count_lem, open_selects, get_device_name-select_from,
}

get_elem?-past_end : {A : Type 0} (xs : List A) (i : ℕ) → length xs ≤ i → get_elem? xs i ≡ none
get_elem?-past_end [] i h = refl
get_elem?-past_end (x ∷ xs) zero h = absurd (omega arith)
get_elem?-past_end (x ∷ xs) (suc i) h = get_elem?-past_end xs i (omega arith)

known_of-is_known :
    (list : List Descriptor) (i : ℕ) (dd : Descriptor)
    → get_elem? (known_of list) i ≡ some dd
    → is_known dd ≡ true
unfolding known_of
known_of-is_known [] i dd h = absurd (ground arith)
known_of-is_known (d ∷ ds) zero dd h = elim (Bool-cases (is_known d)) [
  | inl e ↦ ground (arith, e)
  | inr e ↦ known_of-is_known ds zero dd (ground (arith, e))
]
known_of-is_known (d ∷ ds) (suc i) dd h = elim (Bool-cases (is_known d)) [
  | inl e ↦ known_of-is_known ds i dd (ground (arith, e))
  | inr e ↦ known_of-is_known ds (suc i) dd (ground (arith, e))
]

-- The device that a number below the count stands for.
pub record Named (n index : ℕ) (list : List Descriptor) : Type 0 where
  pub dd : Descriptor
  pub known : is_known dd ≡ true
  pub at : get_elem? (known_of list) index ≡ some dd
  pub opened : select_from index 0 list ≡ some dd
  pub name : get_device_name (pos n) list index ≡ name_or_empty (find_known_device dd)

-- For fewer than 2 ^ 32 devices listed and any index but the largest of 32 bits, if libusb starts: either the index is
-- below what `fl2k_get_device_count` returns, and `fl2k_open` takes the device that stands at that place among the
-- adapters, in the order of the list, and `fl2k_get_device_name` gives the name of that one; or it is not, and
-- `fl2k_open` finds no device.
pub devices_agree :
    (n index : ℕ) (list : List Descriptor)
    → length list < 2 ^ 32
    → index < 2 ^ 32 - 1
    → ((index < get_device_count (pos n) list) × Named n index list)
      ⊎ ((get_device_count (pos n) list ≤ index) × (select_from index 0 list ≡ none))
devices_agree n index list h l =
    let count = get_device_count_lem (pos n) list h in
    elim (Bool-cases (ltb index (length (known_of list)))) [
      | inl e ↦
          let (dd, opened, name) = get_device_name-select_from n index list h (ground (arith, e)) in
          inl (
            ground (arith, count, e),
            record {
              dd = dd;
              known = known_of-is_known list index dd (sym (open_selects index list l) ∙ opened);
              at = sym (open_selects index list l) ∙ opened;
              opened = opened;
              name = name;
            },
          )
      | inr e ↦ inr (
        ground (arith, count, e),
        open_selects index list l ∙ get_elem?-past_end (known_of list) index (ground (arith, e)),
      )
    ]
