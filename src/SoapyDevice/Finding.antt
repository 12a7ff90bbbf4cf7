-- ===== src/SoapyDevice/Finding.antt =====
-- What `findOsmoFL2K` finds.
use Prim.Native.String.{String}
use mathlib.Core.Path.{subst}
use text.Mathlib.Text.{◌==◌ as ◌==ˢ◌}
use text.Mathlib.TextEquality.{eq_iff}
use osmo_fl2k.Prelude.{
  ℕ, zero, suc, ◌+◌, ◌^◌, ◌<◌, List, [], ◌∷◌, Option, none, some, Bool, true, false, ◌==◌, length,
  get_elem?, ℤ, pos, ◌==ℤ◌, ◌≡◌, refl, ap, sym, ◌∙◌, arith, ◌⊎◌, inl, inr, Bool-cases,
}
use osmo_fl2k.Decimal.{to_string}
use osmo_fl2k.Discovery.{get_device_count}
use osmo_fl2k.SoapyDevice.Refreshing.{searched, Refreshed, refresh-Refreshed}
use osmo_fl2k.SoapyDevice.{
  Kwargs, find_key, Usb, Registry, int_of_u32, rounds, device_info, fill_devices, refresh,
  is_asked_for, pick, find_osmo_fl2k,
}

-- The entry of the device with an index: it has the index and a label.
pub record IsEntry (i : ℕ) (d : Kwargs) : Type 0 where
  pub index : find_key "fl2k" d ≡ some (to_string i)
  pub label : (text : String) × (find_key "label" d ≡ some text)

-- The static members belong together, entry by entry.
pub record IsCache (r : Registry) : Type 0 where
  pub same_count : length r.devices ≡ rounds r.count
  pub in_int : rounds r.count < 2 ^ 31
  pub entries : (i : ℕ) (d : Kwargs) → get_elem? r.devices i ≡ some d → IsEntry i d

device_info-IsEntry : (usb : Usb) (i : ℕ) → IsEntry i (device_info usb i)
unfolding device_info find_key
device_info-IsEntry usb i = record { index = refl; label = (_, refl) }

length-fill_devices : (usb : Usb) (i left : ℕ) → length (fill_devices usb i left) ≡ left
unfolding fill_devices
length-fill_devices usb i zero = refl
length-fill_devices usb i (suc left) = ap suc (length-fill_devices usb (i + 1) left)

fill_devices-IsEntry :
    (usb : Usb) (i left k : ℕ) (d : Kwargs)
    → get_elem? (fill_devices usb i left) k ≡ some d
    → IsEntry (i + k) d
unfolding fill_devices
fill_devices-IsEntry usb i zero k d e = absurd (ground arith)
fill_devices-IsEntry usb i (suc left) zero d e =
    let first : device_info usb i ≡ d = cc e in
    let h : i + 0 ≡ i = omega arith in rw h (subst (IsEntry i) first (device_info-IsEntry usb i))
fill_devices-IsEntry usb i (suc left) (suc k) d e =
    let h : i + suc k ≡ i + 1 + k = omega arith in
    rw h (fill_devices-IsEntry usb (i + 1) left k d e)

rounds-int_of_u32-lt : (n : ℕ) → rounds (int_of_u32 n) < 2 ^ 31
rounds-int_of_u32-lt n = ground arith

searched-IsCache : (usb : Usb) (count : ℤ) → rounds count < 2 ^ 31 → IsCache (searched usb count)
searched-IsCache usb count h = record {
  same_count = length-fill_devices usb 0 (rounds count);
  in_int = h;
  entries = λ i d e.
      let h : 0 + i ≡ i = omega arith in
      subst (λ k. IsEntry k d) h (fill_devices-IsEntry usb 0 (rounds count) i d e);
}

-- The members before the first call.
pub empty-IsCache : IsCache (record { count = pos 0; devices = [] })
empty-IsCache = record {
  same_count = refl;
  in_int = omega arith;
  entries = λ i d e. absurd (ground arith);
}

pub refresh-IsCache : (usb : Usb) (r : Registry) → IsCache r → IsCache (refresh usb r)
unfolding refresh
refresh-IsCache usb r c =
    let n = get_device_count usb.count_init usb.count_list in
    let new = searched-IsCache usb (int_of_u32 n) (rounds-int_of_u32-lt n) in
    elim (Bool-cases (length r.devices == 0)) [
      | inl e ↦ rw (refresh, e) new
      | inr e ↦ elim (Bool-cases (r.count ==ℤ int_of_u32 n)) [
        | inl e' ↦ rw (refresh, e, e') c
        | inr e' ↦ rw (refresh, e, e') new
      ]
    ]

-- What a caller asks for: the index, if it is given, else the label, if it is given.
abbrev Asks : Option String → Option String → Kwargs → Type 0
Asks (some index) label d = find_key "fl2k" d ≡ some index
Asks none (some label) d = find_key "label" d ≡ some label
Asks none none d = Unit {0}

abbrev pub Wants : Kwargs → Kwargs → Type 0
Wants args d = Asks (find_key "fl2k" args) (find_key "label" args) d

-- The second list is what is wanted of the first one, in its order.
pub data Filtered (args : Kwargs) : List Kwargs → List Kwargs → Type 0 where
  none_left : Filtered args [] []
  keeps :
      (d : Kwargs) (ds rest : List Kwargs)
      → Wants args d
      → Filtered args ds rest
      → Filtered args (d ∷ ds) (d ∷ rest)
  skips :
      (d : Kwargs) (ds rest : List Kwargs)
      → ¬ Wants args d
      → Filtered args ds rest
      → Filtered args (d ∷ ds) rest

-- A test decides a statement.
abbrev Decides : Option Bool → Type 0 → Type 0
Decides t P = ((t ≡ some true) × P) ⊎ ((t ≡ some false) × (¬ P))

eq-Decides : (a b : String) → Decides (some (a ==ˢ b)) (a ≡ b)
eq-Decides a b = elim (Bool-cases (a ==ˢ b)) [
  | inl e ↦ inl (ap some e, (eq_iff a b).0 e)
  | inr e ↦ inr (ap some e, λ h. cc (e, (eq_iff a b).1 h))
]

is_asked_for-Decides :
    (index label : Option String) (d : Kwargs) (i : ℕ)
    → IsEntry i d
    → Decides (is_asked_for index label d) (Asks index label d)
is_asked_for-Decides (some index) label d i entry =
    rw entry.index (elim (eq-Decides index (to_string i)) [
      | inl (t, same) ↦ inl (t, ap some (sym same))
      | inr (t, other) ↦ inr (t, λ h. other (cc h))
    ])
is_asked_for-Decides none (some label) d i entry =
    let (text, e) = entry.label in
    rw e (elim (eq-Decides text label) [
      | inl (t, same) ↦ inl (t, ap some same)
      | inr (t, other) ↦ inr (t, λ h. other (cc h))
    ])
is_asked_for-Decides none none d i entry = inl (refl, tt)

pick-Filtered :
    (args : Kwargs) (devices ds : List Kwargs) (i : ℕ)
    → ((k : ℕ) → get_elem? devices (i + k) ≡ get_elem? ds k)
    → ((k : ℕ) (d : Kwargs) → get_elem? ds k ≡ some d → IsEntry (i + k) d)
    → (rest : List Kwargs) × (pick args devices i (length ds) ≡ some rest) × Filtered args ds rest
unfolding pick
pick-Filtered args devices [] i here entries = ([], refl, none_left)
pick-Filtered args devices (d ∷ ds) i here entries =
    let (rest, e, f) =
      pick-Filtered args devices ds (i + 1)
        (λ k. ap (get_elem? devices) (omega arith) ∙ here (suc k))
        (λ k d' h.
          let same : i + suc k ≡ i + 1 + k = omega arith in
          subst (λ j. IsEntry j d') same (entries (suc k) d' h)) in
    let same : i + 0 ≡ i = omega arith in
    let first : get_elem? devices i ≡ some d = ap (get_elem? devices) (sym same) ∙ here 0 in
    elim (is_asked_for-Decides (find_key "fl2k" args) (find_key "label" args) d (i + 0)
      (entries 0 d refl)) [
        | inl (t, wanted) ↦ (d ∷ rest, rw (first, t, e) refl, keeps d ds rest wanted f)
        | inr (t, other) ↦ (rest, rw (first, t, e) refl, skips d ds rest other f)
      ]

-- From members that belong together, as they do before the first call, `findOsmoFL2K` returns. The count is the number
-- that `fl2k_get_device_count` gives, as an int; if no device was listed or another number was counted before, the
-- entries are those of a new search, which looks at each device counted, and else the members stay as they are. They
-- belong together again, one entry for each device counted, and the result has, in their order, exactly those that have
-- the index asked for, or, if none is asked for, the label asked for, or all of them if neither is given.
pub find_osmo_fl2k-Filtered :
    (usb : Usb) (r : Registry) (args : Kwargs)
    → IsCache r
    → IsCache (find_osmo_fl2k usb r args).0
      × Refreshed usb r (find_osmo_fl2k usb r args).0
      × ((results : List Kwargs) × ((find_osmo_fl2k usb r args).1 ≡ some results)
          × Filtered args (find_osmo_fl2k usb r args).0.devices results)
unfolding find_osmo_fl2k
find_osmo_fl2k-Filtered usb r args c =
    let c' = refresh-IsCache usb r c in
    let r' = refresh usb r in
    let (results, e, f) =
      pick-Filtered args r'.devices r'.devices 0 (λ k. ap (get_elem? r'.devices) (omega arith))
        (λ k d h.
          let same : k ≡ 0 + k = omega arith in subst (λ j. IsEntry j d) same (c'.entries k d h)) in
    (c', refresh-Refreshed usb r, (results, rw (← c'.same_count) e, f))
