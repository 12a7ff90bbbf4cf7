-- ===== src/Tests/Driver.antt =====
-- The devices of src/SoapySDR/Registration.cpp and src/SoapySDR/Settings.cpp: two adapters and a hub, of
-- which the second adapter is in use.
use osmo_fl2k.Prelude.{
  ℕ, zero, suc, ◌+◌, ◌*◌, ◌/◌, ◌^◌, ◌⊎◌, List, [], ◌∷◌, ◌++◌, none, some, true, false, ◌==◌,
  if◌then◌else◌, ◌≡◌, refl, arith, pos, negsuc, inr, is_negative, get_elem?,
}
use osmo_fl2k.Device.{inactive, canceling, buf_len}
use osmo_fl2k.Decimal.{to_string, stoi, digit}
use osmo_fl2k.Discovery.{
  Descriptor, find_known_device, count_from, get_device_count, name_from, get_device_name,
  select_from,
}
use osmo_fl2k.Opening.{Answers, open_index, open_device, claim_interfaces, wait_inactive, Call}
use osmo_fl2k.Soapy.{Soapy, Status, elems, timeout, underflow}
use osmo_fl2k.Soapy.Setup.{invalid, too_large, number}
use osmo_fl2k.Soapy.Events.{Look, read_stream_status, NoEvents, read_stream_status-Answered}
use osmo_fl2k.SoapyDevice.{
  Kwargs, find_key, Usb, Registry, device_info, find_osmo_fl2k, probe, SoapyOsmoFl2k, made, leaks,
  initial, make_osmo_fl2k, destroy,
}
use osmo_fl2k.SoapyDevice.Finding.{IsCache, Filtered, empty-IsCache, find_osmo_fl2k-Filtered}
use osmo_fl2k.SoapyDevice.Refreshing.{Refreshed}
use osmo_fl2k.SoapyDevice.Making.{find_make}
use osmo_fl2k.SoapyDevice.Probing.{IsBalanced, IsClosed, destroy-Returned}
use osmo_fl2k.Tests.Search.{adapter, hub}
use osmo_fl2k.SoapyDevice.Settings.{Clock, get_sample_rate, set_sample_rate}
use osmo_fl2k.SoapyDevice.Changing.{set_sample_rate_drops}
use osmo_fl2k.Soapy.Model.{acquires, got, perform}
use osmo_fl2k.Soapy.Sim.{Sim}
use osmo_fl2k.Soapy.Ready.{fresh, empty_ring-Sim}
use osmo_fl2k.Tests.Ring.{tiny, ring}
use osmo_fl2k.Tests.Tuning.{whole}
use osmo_fl2k.Tests.Chip.{device as chip}

abbrev listed : List Descriptor
listed = adapter ∷ hub ∷ adapter ∷ []

abbrev free : Answers
free = record {
  malloc = true;
  init = pos 0;
  devices = listed;
  opened = pos 0;
  active = pos 0;
  detached = pos 0;
  claimed0 = pos 0;
  claimed1 = pos 0;
  init_device = pos 0;
}

abbrev in_use : Answers
in_use = record free { claimed0 = negsuc 5 }

abbrev usb : Usb
usb = record {
  count_init = pos 0;
  count_list = listed;
  name_init = λ i. pos 0;
  name_list = λ i. listed;
  opening = λ i. if i == 0 then free else in_use;
}

abbrev first_call : Registry
first_call = record { count = pos 0; devices = [] }

abbrev by_index : Kwargs
by_index = ("fl2k", "1") ∷ []

abbrev second : Kwargs
second = ("available", "No") ∷ ("fl2k", "1") ∷ ("label", "FL2000DX OEM :: ") ∷ []

finds_second : (find_osmo_fl2k usb first_call by_index).1 ≡ some (second ∷ [])
unfolding find_osmo_fl2k get_device_count count_from find_known_device device_info get_device_name
    name_from probe open_index open_device claim_interfaces select_from to_string digit
finds_second = refl

reads_numbers :
    (stoi " +17, or so" ≡ number (pos 17))
    × (stoi "-1" ≡ number (negsuc 0))
    × (stoi "first" ≡ invalid)
    × (stoi "2147483648" ≡ too_large)
unfolding stoi
reads_numbers = (refl, refl, refl, refl)

-- An index that is no `int` is not caught.
index_leaks :
    (make_osmo_fl2k
        (λ i. free)
        (record { count = pos 2; devices = [] })
        tiny
        (("fl2k", "4294967296") ∷ [])
      ≡ leaks)
unfolding make_osmo_fl2k stoi
index_leaks = refl

find_osmo_fl2k-Filtered_example :
    IsCache (find_osmo_fl2k usb first_call by_index).0
    × Refreshed usb first_call (find_osmo_fl2k usb first_call by_index).0
    × ((results : List Kwargs) × ((find_osmo_fl2k usb first_call by_index).1 ≡ some results)
        × Filtered by_index (find_osmo_fl2k usb first_call by_index).0.devices results)
find_osmo_fl2k-Filtered_example = find_osmo_fl2k-Filtered usb first_call by_index empty-IsCache

find_make_example :
    (i : ℕ) × (get_elem? (find_osmo_fl2k usb first_call by_index).0.devices i ≡ some second)
    × (find_key "fl2k" second ≡ some (to_string i))
    × (make_osmo_fl2k (λ i. in_use) (find_osmo_fl2k usb first_call by_index).0 tiny second
        ≡ made (record {
          device_id = i;
          opened = open_index in_use i;
          sample_rate = 2048000;
          stream = initial tiny;
        }))
find_make_example =
    find_make usb first_call by_index (λ i. in_use) tiny empty-IsCache (second ∷ []) 0 second
      finds_second refl

abbrev object : SoapyOsmoFl2k
object = record { device_id = 0; opened = open_index free 0; sample_rate = 2048000; stream = tiny }

destroy-Returned_example :
    (calls : List Call) × (destroy object false (canceling ∷ inactive ∷ []) ≡ some calls)
    × IsBalanced (object.opened.calls ++ calls)
    × (is_negative object.opened.result ≡ false → IsClosed (object.opened.calls ++ calls))
unfolding wait_inactive
destroy-Returned_example =
    destroy-Returned free 0 object false (canceling ∷ inactive ∷ []) refl refl refl (inr refl)

-- A call with a timeout of 100 units at time 1000.
abbrev looks : List Look
looks = record { event = false; now = 1060 } ∷ record { event = true; now = 1110 } ∷ []

read_stream_status_event : read_stream_status 1000 100 looks tiny ≡ some (tiny, underflow)
unfolding read_stream_status
read_stream_status_event = refl

abbrev steady : ℕ → ℕ → List Look
steady zero now = []
steady (suc n) now = record { event = false; now = now + 10 } ∷ steady n (now + 10)

read_stream_status-Answered_example :
    (r : Status) × (read_stream_status 1000 100 (steady 11 1000) tiny
      ≡ some (record tiny { underflow_event = false }, r))
    × ((r ≡ underflow) ⊎ (r ≡ timeout))
    × (tiny.underflow_event ≡ true → r ≡ underflow)
    × (tiny.underflow_event ≡ false → NoEvents (steady 11 1000) → r ≡ timeout)
read_stream_status-Answered_example =
    read_stream_status-Answered 1000 100 (steady 11 1000) tiny (omega arith) (omega arith)

abbrev clock : Clock
clock = record {
  ticks_to_time_ns = λ ticks rate. ticks * 1000000000 / rate;
  time_ns_to_ticks = λ ns rate. ns * rate / 1000000000;
}

abbrev streaming : SoapyOsmoFl2k
streaming = record object { stream = ring }

set_sample_rate_drops_example :
    ((set_sample_rate whole clock chip (10 ^ 20) 15000000 streaming (some (0, 9))).0.sample_rate
      ≡ get_sample_rate whole
          (set_sample_rate whole clock chip (10 ^ 20) 15000000 streaming (some (0, 9))).1)
    × ((s' : Soapy) × (perform acquires
            (set_sample_rate whole clock chip (10 ^ 20) 15000000 streaming (some (0, 9))).0.stream
          ≡ some (s', got (elems buf_len)))
        × Sim s' (record (fresh ring) {
          queue = [];
          underflow_event = false;
          reset_buffer = false;
          writing = true;
          draft = none;
        }))
set_sample_rate_drops_example =
    set_sample_rate_drops whole clock chip (10 ^ 20) 15000000 streaming (some (0, 9)) (fresh ring)
      (empty_ring-Sim tiny (omega arith) (omega arith)) refl
