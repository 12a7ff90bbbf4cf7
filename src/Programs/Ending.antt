-- ===== src/Programs/Ending.antt =====
-- How the programs end: what they give back, and a wait that does not end.
use osmo_fl2k.Prelude.{List, [], ◌∷◌, ◌≡◌, ◌⊎◌}
use osmo_fl2k.Device.{AsyncStatus, Dev}
use osmo_fl2k.Transfers.{stop_dev}

-- The stream's state is what a failed start leaves, or what one call of `fl2k_stop_tx` makes of it.
abbrev pub Sees : Dev → List AsyncStatus → Type 0
Sees dev [] = Unit {0}
Sees dev (status ∷ later) =
    ((status ≡ dev.async_status) ⊎ (status ≡ (stop_dev dev).0.async_status)) × Sees dev later
