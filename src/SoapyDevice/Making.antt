-- ===== src/SoapyDevice/Making.antt =====
-- A device that `findOsmoFL2K` lists, made from its entry.
use mathlib.Core.Path.{subst}
use osmo_fl2k.Prelude.{
  ℕ, zero, suc, ◌<◌, List, some, true, false, ltb, get_elem?, lt-length_of_get_elem?, ℤ, pos,
  negsuc, ◌==ℤ◌, ◌≡◌, refl, arith,
}
use osmo_fl2k.Decimal.{to_string, stoi}
use osmo_fl2k.Decimal.RoundTrip.{stoi-to_string}
use osmo_fl2k.Opening.{Answers, open_index}
use osmo_fl2k.Soapy.{Soapy}
use osmo_fl2k.Soapy.Setup.{number}
use osmo_fl2k.SoapyDevice.{
  Kwargs, find_key, Usb, Registry, rounds, find_osmo_fl2k, initial, made, open_as, by_index,
  make_osmo_fl2k,
}
use osmo_fl2k.SoapyDevice.Finding.{
  IsCache, Filtered, none_left, keeps, skips, find_osmo_fl2k-Filtered,
}

-- What is picked stands in the list.
picked :
    (args : Kwargs) (ds rest : List Kwargs)
    → Filtered args ds rest
    → (k : ℕ) (d : Kwargs) → get_elem? rest k ≡ some d
    → (i : ℕ) × (get_elem? ds i ≡ some d)
picked args _ _ none_left k d e = absurd (ground arith)
picked args _ _ (keeps d' ds rest w f) zero d e = (0, e)
picked args _ _ (keeps d' ds rest w f) (suc k) d e =
    let (i, found) = picked args ds rest f k d e in (suc i, found)
picked args _ _ (skips d' ds rest w f) k d e =
    let (i, found) = picked args ds rest f k d e in (suc i, found)

-- Some rounds are made, so the count is not 0.
count-ne-zero : (count : ℤ) (i : ℕ) → i < rounds count → (count ==ℤ pos 0) ≡ false
count-ne-zero (pos n) i h = ground arith
count-ne-zero (negsuc n) i h = refl

make_entry :
    (opening : ℕ → Answers) (r : Registry) (raw : Soapy) (i : ℕ) (d : Kwargs)
    → IsCache r
    → get_elem? r.devices i ≡ some d
    → make_osmo_fl2k opening r raw d ≡ open_as opening raw i
unfolding make_osmo_fl2k by_index
make_entry opening r raw i d c e =
    let below : i < rounds r.count =
      omega (arith, lt-length_of_get_elem? r.devices i d e, c.same_count) in
    let entry = c.entries i d e in
    let read : stoi (to_string i) ≡ number (pos i) = stoi-to_string i (omega (arith, c.in_int)) in
    let test : ltb i (rounds r.count) ≡ true = ground arith in
    rw (make_osmo_fl2k, count-ne-zero r.count i below, entry.index, read, by_index, test) refl

-- Each device that `findOsmoFL2K` lists, whatever is asked for, can be made from its entry: `makeOsmoFL2K` opens the device
-- whose index the entry has, which stands at that place of the list.
pub find_make :
    (usb : Usb) (r : Registry) (args : Kwargs) (opening : ℕ → Answers) (raw : Soapy)
    → IsCache r
    → (results : List Kwargs) (k : ℕ) (d : Kwargs) → (find_osmo_fl2k usb r args).1 ≡ some results
    → get_elem? results k ≡ some d
    → (i : ℕ) × (get_elem? (find_osmo_fl2k usb r args).0.devices i ≡ some d)
      × (find_key "fl2k" d ≡ some (to_string i))
      × (make_osmo_fl2k opening (find_osmo_fl2k usb r args).0 raw d
          ≡ made (record {
            device_id = i;
            opened = open_index (opening i) i;
            sample_rate = 2048000;
            stream = initial raw;
          }))
unfolding open_as
find_make usb r args opening raw c results k d e at =
    let (c', _, (results', e', f)) = find_osmo_fl2k-Filtered usb r args c in
    let same : results' ≡ results = cc (e, e') in
    let r' = (find_osmo_fl2k usb r args).0 in
    let (i, found) =
      picked args r'.devices results (subst (Filtered args r'.devices) same f) k d at in
    (i, found, (c'.entries i d found).index, make_entry opening r' raw i d c' found)
