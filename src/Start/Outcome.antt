-- ===== src/Start/Outcome.antt =====
-- What `fl2k_start_tx` leaves behind.
use osmo_fl2k.Prelude.{
  ℕ, ◌+◌, ◌%◌, ◌^◌, ◌<◌, [], map, some, Bool, false, ltb, if◌then◌else◌, ◌≡◌, ◌≢◌, inl, inr, refl,
  ◌∙◌, arith, is_negative, replicate, length-replicate, length, get_elem?, Bool-cases,
}
use osmo_fl2k.Device.{running, Dev, xfer_len, success, error_busy}
use osmo_fl2k.Transfers.Filled.{NoneFilled}
use osmo_fl2k.Start.{
  Env, kernel_from, unmapped, user_from, new_xfer, Allocated, filled_in, alloc_submit_transfers,
  releases_kernel, releases_user, release, Started, prepared, spawn, start_tx,
}
use osmo_fl2k.Start.Buffers.{
  alloc-outcome, length-submit_from, spare-submit_from, submit_from-NoneFilled, in-replicate,
  release_all, slots_of,
}

-- The number of transfers that are submitted first.
abbrev pub first_ones : ℕ → ℕ
first_ones buf_num = if ltb 0 buf_num then buf_num else 4

-- What a start that succeeds leaves behind.
pub record IsReady (s : Started) (num : ℕ) : Type 0 where
  pub runs : s.dev.async_status ≡ running
  pub transfers : length s.dev.xfer ≡ num + 2
  pub none_filled : NoneFilled s.dev.xfer
  pub spare : (j : ℕ) → j < 2 → get_elem? s.dev.xfer (num + j) ≡ some (new_xfer xfer_len)
  pub buffers : s.slots ≡ slots_of s.dev.use_zerocopy (num + 2)
  pub freeable :
      map (release s.dev.use_zerocopy) s.slots
      ≡ replicate (num + 2) (if s.dev.use_zerocopy then releases_kernel else releases_user)

filled_in-IsReady :
    (env : Env) (dev : Dev) (zerocopy : Bool) (num : ℕ) (a : Allocated)
    → a ≡ filled_in env dev zerocopy (slots_of zerocopy dev.xfer_buf_num)
    → dev.xfer_num ≡ num
    → dev.xfer_buf_num ≡ num + 2
    → dev.xfer_buf_len ≡ xfer_len
    → dev.async_status ≡ running
    → IsReady (record { dev = a.dev; slots = a.slots; released = []; result = success }) num
filled_in-IsReady env dev zerocopy num a e en eb el er = rw e (record {
  runs = er;
  transfers = rw (length-submit_from, length-replicate) eb;
  none_filled = submit_from-NoneFilled env.submit 0 dev.xfer_num dev.xfer_buf_num dev.xfer_buf_len;
  spare = λ j l.
      rw (en, eb, el)
        (spare-submit_from env.submit 0 num j (replicate (num + 2) (new_xfer xfer_len))
          ∙ in-replicate (num + 2) (num + j) (new_xfer xfer_len) (omega arith));
  buffers = rw eb refl;
  freeable = rw eb (release_all zerocopy (num + 2));
})

spawn-success :
    (env : Env) (a : Allocated)
    → (spawn env a).result ≡ success
    → (is_negative a.result ≡ false)
      × (spawn env a ≡ record { dev = a.dev; slots = a.slots; released = []; result = success })
unfolding spawn
spawn-success env a h = (ground arith, ground arith)

spawn-failure :
    (env : Env) (a : Allocated)
    → (spawn env a).result ≢ success
    → ((spawn env a).result ≡ error_busy)
      × ((spawn env a).dev.xfer ≡ [])
      × ((spawn env a).dev.async_status ≡ a.dev.async_status)
unfolding spawn
spawn-failure env a h = ground arith

alloc-status :
    (env : Env) (dev : Dev) → (alloc_submit_transfers env dev).dev.async_status ≡ dev.async_status
unfolding alloc_submit_transfers
alloc-status env dev =
    let (mapped, ok) = kernel_from env.dev_mem 0 dev.xfer_buf_num in
    let (slots, ok') = user_from env.malloc 0 (map unmapped mapped) in
    elim (Bool-cases ok) [
      | inl e ↦ rw e refl
      | inr e ↦ elim (Bool-cases ok') [ inl e' ↦ rw (e, e') refl | inr e' ↦ rw (e, e') refl ]
    ]

total_of :
    (buf_num : ℕ)
    → buf_num + 2 < 2 ^ 32
    → (first_ones buf_num + 2) % 2 ^ 32 ≡ first_ones buf_num + 2
total_of buf_num small = ground arith

-- A start that succeeds, for fewer than 2 ^ 32 - 2 transfers, leaves the device streaming with two
-- transfers more than asked for, or than four if none are asked for: none is filled, the last two
-- are empty, and each has a buffer that is freed the way it was allocated.
pub start_tx-IsReady :
    (env : Env) (dev : Dev) (buf_num : ℕ)
    → buf_num + 2 < 2 ^ 32
    → (start_tx env dev buf_num).result ≡ success
    → IsReady (start_tx env dev buf_num) (first_ones buf_num)
unfolding start_tx
start_tx-IsReady env dev buf_num small h =
    let a = alloc_submit_transfers env (prepared dev buf_num) in
    let (ok, same) = spawn-success env a h in
    let (zerocopy, e) = alloc-outcome env (prepared dev buf_num) ok in
    rw same (
      filled_in-IsReady env (prepared dev buf_num) zerocopy (first_ones buf_num) a e refl
        (total_of buf_num small) refl refl)

-- A start that fails returns FL2K_ERROR_BUSY and leaves no transfers, but the device stays marked as
-- streaming.
pub start_tx-failure :
    (env : Env) (dev : Dev) (buf_num : ℕ)
    → (start_tx env dev buf_num).result ≢ success
    → ((start_tx env dev buf_num).result ≡ error_busy)
      × ((start_tx env dev buf_num).dev.xfer ≡ [])
      × ((start_tx env dev buf_num).dev.async_status ≡ running)
unfolding start_tx
start_tx-failure env dev buf_num h =
    let a = alloc_submit_transfers env (prepared dev buf_num) in
    let (busy, none', same) = spawn-failure env a h in
    (busy, none', same ∙ alloc-status env (prepared dev buf_num))
