-- ===== src/Tests/Search.antt =====
-- The searches of src/libosmo-fl2k.c in a list of four USB devices.
use osmo_fl2k.Prelude.{
  true, negsuc, List, [], ◌∷◌, some, none, ◌<◌, ◌≤◌, ◌⊎◌, ◌≡◌, refl, arith, pos,
}
use osmo_fl2k.Opening.{Answers, open_index}
use osmo_fl2k.Opening.Calls.{IsFair, open_index-IsFair}
use osmo_fl2k.Discovery.{Descriptor, find_known_device, select_from, get_device_count}
use osmo_fl2k.Discovery.Agree.{Named, devices_agree}

abbrev pub adapter : Descriptor
adapter = record { handle = 0; vendor = 0x1d5c; product = 0x2000 }

abbrev other_adapter : Descriptor
other_adapter = record adapter { handle = 2 }

abbrev pub hub : Descriptor
hub = record { handle = 1; vendor = 0x1d6b; product = 2 }

abbrev listed : List Descriptor
listed = hub ∷ adapter ∷ hub ∷ other_adapter ∷ []

second_adapter : select_from 1 0 listed ≡ some other_adapter
unfolding select_from find_known_device
second_adapter = refl

devices_agree_example :
    ((1 < get_device_count (pos 0) listed) × Named 0 1 listed)
    ⊎ ((get_device_count (pos 0) listed ≤ 1) × (select_from 1 0 listed ≡ none))
devices_agree_example = devices_agree 0 1 listed (omega arith) (omega arith)

-- An adapter is found, and its second interface is in use.
abbrev busy : Answers
busy = record {
  malloc = true;
  init = pos 0;
  devices = record { handle = 0; vendor = 0x1d5c; product = 0x2000 } ∷ [];
  opened = pos 0;
  active = pos 1;
  detached = pos 0;
  claimed0 = pos 0;
  claimed1 = negsuc 5;
  init_device = pos 0;
}

open_index-IsFair_example : IsFair (open_index busy 0)
open_index-IsFair_example = open_index-IsFair busy 0 refl refl
