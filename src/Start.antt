-- ===== src/Start.antt =====
-- src/libosmo-fl2k.c, `fl2k_start_tx`, `fl2k_alloc_submit_transfers` and `_fl2k_free_async_buffers`, on
-- Linux with a libusb that has zero-copy buffers. libusb, `malloc` and pthread are parameters; the
-- arrays of pointers are taken to be allocated.
pub mod Buffers
pub mod Outcome
use osmo_fl2k.Prelude.{
  ℕ, zero, suc, ◌+◌, ◌%◌, ◌^◌, List, [], ◌∷◌, map, some, Bool, true, false, ltb, if◌then◌else◌, ℤ,
  pos, is_negative, replicate,
}
use osmo_fl2k.Device.{
  running, empty, submitted, completed, Xfer, Dev, xfer_len, success, error_busy, error_no_mem,
  error_invalid_param,
}
use osmo_fl2k.Transfers.{with_state}

-- What `libusb_dev_mem_alloc` gives: NULL, a buffer of zeros, or one with other bytes.
pub data Mapped : Type 0 where
  refused zeroed dirty : Mapped

-- An entry of `xfer_buf`: NULL, memory of libusb, memory of `malloc`, or memory of libusb that is freed.
pub data Slot : Type 0 where
  null kernel user stale : Slot

-- What the calls of other libraries return for each index, and for the two threads.
pub record Env : Type 0 where
  pub dev_mem : ℕ → Mapped
  pub malloc : ℕ → Bool
  pub submit : ℕ → ℤ
  pub create_usb : ℤ
  pub create_sample : ℤ

-- The loop that allocates zero-copy buffers, from index `i` on; false where it falls back.
unfoldable pub kernel_from : (ℕ → Mapped) → ℕ → ℕ → List Slot × Bool
kernel_from mem i zero = ([], true)
kernel_from mem i (suc left) =
    let (rest, ok) = kernel_from mem (i + 1) left in
    elim (mem i) [
      | zeroed ↦ (kernel ∷ rest, ok)
      | dirty ↦ (kernel ∷ replicate left null, false)
      | refused ↦ (null ∷ replicate left null, false)
    ]

-- `libusb_dev_mem_free` on every entry that is not NULL; the pointers stay.
abbrev pub unmapped : Slot → Slot
unmapped kernel = stale
unmapped s = s

-- The loop that allocates buffers in userspace; false where one is missing.
unfoldable pub user_from : (ℕ → Bool) → ℕ → List Slot → List Slot × Bool
user_from malloc i [] = ([], true)
user_from malloc i (s ∷ ss) =
    let (rest, ok) = user_from malloc (i + 1) ss in
    if malloc i then (user ∷ rest, ok) else (null ∷ ss, false)

-- A transfer after `libusb_fill_bulk_transfer`, its buffer cleared and its info empty.
abbrev pub new_xfer : ℕ → Xfer
new_xfer len = record {
  user_data = some (record { seq = 0; state = empty });
  buffer = replicate len 0;
  status = completed;
}

-- The loop that submits the first `left` transfers: it ends with the first that fails.
unfoldable pub submit_from : (ℕ → ℤ) → ℕ → ℕ → List Xfer → List Xfer
submit_from submit i zero xs = xs
submit_from submit i (suc left) [] = []
submit_from submit i (suc left) (x ∷ xs) =
    let rest = submit_from submit (i + 1) left xs in
    if is_negative (submit i) then with_state submitted x ∷ xs else with_state submitted x ∷ rest

-- The device, the entries of `xfer_buf`, and the result.
pub record Allocated : Type 0 where
  pub dev : Dev
  pub slots : List Slot
  pub result : ℤ

-- The transfers behind the allocation of their buffers.
abbrev pub filled_in : Env → Dev → Bool → List Slot → Allocated
filled_in env dev zerocopy slots = record {
  dev = record dev {
    use_zerocopy = zerocopy;
    xfer =
        submit_from env.submit 0 dev.xfer_num
          (replicate dev.xfer_buf_num (new_xfer dev.xfer_buf_len));
  };
  slots = slots;
  result = success;
}

-- `fl2k_alloc_submit_transfers` on a device handle
unfoldable pub alloc_submit_transfers : Env → Dev → Allocated
alloc_submit_transfers env dev =
    let (mapped, ok) = kernel_from env.dev_mem 0 dev.xfer_buf_num in
    let (slots, ok') = user_from env.malloc 0 (map unmapped mapped) in
    if ok
    then filled_in env dev true mapped
    else if ok'
    then filled_in env dev false slots
    else record { dev = record dev { use_zerocopy = false }; slots = slots; result = error_no_mem }

-- What `_fl2k_free_async_buffers` does to an entry: nothing, or it frees the buffer as it was
-- allocated, or it frees what is not allocated that way.
pub data Release : Type 0 where
  skips releases_kernel releases_user misuses : Release

abbrev pub release : Bool → Slot → Release
release zerocopy null = skips
release true kernel = releases_kernel
release false user = releases_user
release _ _ = misuses

pub record Started : Type 0 where
  pub dev : Dev
  pub slots : List Slot
  pub released : List Release
  pub result : ℤ

-- The code at `cleanup`; the transfers and the buffers are NULL behind it.
abbrev pub cleanup : Allocated → Started
cleanup a = record {
  dev = record a.dev { xfer = [] };
  slots = [];
  released = map (release a.dev.use_zerocopy) a.slots;
  result = error_busy;
}

-- The fields that `fl2k_start_tx` sets at its start.
abbrev pub prepared : Dev → ℕ → Dev
prepared dev buf_num =
    let num = if ltb 0 buf_num then buf_num else 4 in
    record dev {
      async_status = running;
      async_cancel = false;
      has_cb = true;
      xfer_num = num;
      xfer_buf_num = (num + 2) % 2 ^ 32;
      xfer_buf_len = xfer_len;
    }

-- The code of `fl2k_start_tx` behind the allocation.
unfoldable pub spawn : Env → Allocated → Started
spawn env a =
    if is_negative a.result
    then cleanup a
    else if is_negative env.create_usb
    then cleanup a
    else if is_negative env.create_sample
    then cleanup a
    else record { dev = a.dev; slots = a.slots; released = []; result = success }

-- `fl2k_start_tx` on a device handle and a callback
unfoldable pub start_tx : Env → Dev → ℕ → Started
start_tx env dev buf_num = spawn env (alloc_submit_transfers env (prepared dev buf_num))
