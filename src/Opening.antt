-- ===== src/Opening.antt =====
-- src/libosmo-fl2k.c, `fl2k_open` and `fl2k_close`: what libusb and `malloc` return is an argument, and the result comes with
-- the calls that acquire or give back something, in order.
pub mod Calls
use osmo_fl2k.Prelude.{
  ℕ, List, [], ◌∷◌, ◌++◌, Option, none, some, Bool, true, false, if◌then◌else◌, ℤ, pos, negsuc,
  is_negative, ◌==ℤ◌,
}
use osmo_fl2k.Device.{AsyncStatus, success, error_invalid_param, is_inactive}
use osmo_fl2k.Discovery.{Descriptor, select_from}

-- Calls of `malloc` and `free` for the device, of `libusb_init` and `libusb_exit`, of
-- `libusb_get_device_list` and `libusb_free_device_list`, of `libusb_open` and `libusb_close`, and for the
-- two interfaces.
pub data Call : Type 0 where
  allocates frees inits exits lists frees_list opens closes detaches : Call
  claims releases : ℕ → Call

-- What the calls return. `active` is the result of `libusb_kernel_driver_active`, and `init_device` that of
-- `fl2k_init_device`.
pub record Answers : Type 0 where
  pub malloc : Bool
  pub init : ℤ
  pub devices : List Descriptor
  pub opened : ℤ
  pub active : ℤ
  pub detached : ℤ
  pub claimed0 : ℤ
  pub claimed1 : ℤ
  pub init_device : ℤ

-- The result and the calls of `fl2k_open`; it hands the device over if the result is 0.
pub record Opened : Type 0 where
  pub result : ℤ
  pub calls : List Call

-- Behind `err`, where `libusb_init` has given a context.
abbrev pub err : ℤ → List Call → Opened
err r calls = record { result = r; calls = calls ++ exits ∷ frees ∷ [] }

-- From the claims of the interfaces on.
unfoldable pub claim_interfaces : Answers → List Call → Opened
claim_interfaces a calls =
    let with0 = calls ++ claims 0 ∷ [] in
    let with1 = with0 ++ claims 1 ∷ [] in
    if is_negative a.claimed0
    then err a.claimed0 with0
    else if is_negative a.claimed1
    then err a.claimed1 with1
    else if is_negative a.init_device
    then err a.init_device with1
    else record { result = success; calls = with1 }

-- From `libusb_open` on.
unfoldable pub open_device : Answers → List Call → Opened
open_device a calls =
    let open_calls = calls ++ opens ∷ frees_list ∷ [] in
    let detach_calls = open_calls ++ detaches ∷ [] in
    let detached =
      if is_negative a.detached
      then err a.detached detach_calls
      else claim_interfaces a detach_calls in
    if is_negative a.opened
    then err a.opened open_calls
    else if a.active ==ℤ pos 1
    then detached
    else claim_interfaces a open_calls

-- `fl2k_open`
unfoldable pub open_index : Answers → ℕ → Opened
open_index a index =
    let found : Opened = elim (select_from index 0 a.devices) [
      | none ↦ err (negsuc 0) (allocates ∷ inits ∷ lists ∷ [])
      | some _ ↦ open_device a (allocates ∷ inits ∷ lists ∷ [])
    ] in
    if a.malloc
    then (if is_negative a.init
        then record { result = negsuc 0; calls = allocates ∷ inits ∷ frees ∷ [] }
        else found)
    else record { result = negsuc 11; calls = allocates ∷ [] }

-- The wait of `fl2k_close` for the end of the stream, with the states that it sees in turn: whether it ends.
unfoldable pub wait_inactive : List AsyncStatus → Bool
wait_inactive [] = false
wait_inactive (status ∷ later) =
    let rest = wait_inactive later in if is_inactive status then true else rest

-- `fl2k_close` of a device, with its `dev_lost`; `none` while it waits. `fl2k_deinit_device`, whose result is not used,
-- calls nothing.
unfoldable pub close_device : Option Bool → List AsyncStatus → Option (ℤ × List Call)
close_device none seen = some (error_invalid_param, [])
close_device (some dev_lost) seen =
    let calls = releases 0 ∷ closes ∷ exits ∷ frees ∷ [] in
    if dev_lost
    then some (success, calls)
    else if wait_inactive seen
    then some (success, calls)
    else none
