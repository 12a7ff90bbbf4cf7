-- ===== src/SoapyDevice/Probing.antt =====
-- What `findOsmoFL2K` and a device object of the SoapySDR driver acquire of libusb and give back.
use mathlib.Core.Path.{subst}
use osmo_fl2k.Prelude.{
  ℕ, List, [], ◌∷◌, ◌++◌, some, Bool, true, false, ℤ, pos, negsuc, is_negative, ◌==ℤ◌, ◌≡◌, refl,
  sym, ◌∙◌, arith, ◌⊎◌, inl, inr, Bool-cases, Option-cases,
}
use osmo_fl2k.Device.{AsyncStatus, success}
use osmo_fl2k.Discovery.{select_from}
use osmo_fl2k.Opening.{
  Call, releases, closes, exits, frees, Answers, Opened, claim_interfaces, open_device, open_index,
  wait_inactive, close_device,
}
use osmo_fl2k.Opening.Calls.{
  count, count-append, is_frees, is_exits, is_opens, is_closes, IsFair, open_index-IsFair,
}
use osmo_fl2k.SoapyDevice.{close_calls, probe, SoapyOsmoFl2k, close_opened, destroy}

-- A result of `fl2k_open`: success, or a negative number.
abbrev Settled : ℤ → Type 0
Settled r =
    (((r ==ℤ success) ≡ true) × (is_negative r ≡ false))
    ⊎ (((r ==ℤ success) ≡ false) × (is_negative r ≡ true))

negative-Settled : (r : ℤ) → is_negative r ≡ true → Settled r
negative-Settled (pos n) h = cc
negative-Settled (negsuc n) h = inr (refl, refl)

claim_interfaces-Settled : (a : Answers) (cs : List Call) → Settled (claim_interfaces a cs).result
unfolding claim_interfaces
claim_interfaces-Settled a cs = elim (Bool-cases (is_negative a.claimed0)) [
  | inl e ↦ rw (claim_interfaces, e) (negative-Settled a.claimed0 e)
  | inr e ↦ elim (Bool-cases (is_negative a.claimed1)) [
    | inl e' ↦ rw (claim_interfaces, e, e') (negative-Settled a.claimed1 e')
    | inr e' ↦ elim (Bool-cases (is_negative a.init_device)) [
      | inl e'' ↦ rw (claim_interfaces, e, e', e'') (negative-Settled a.init_device e'')
      | inr e'' ↦ rw (claim_interfaces, e, e', e'') (inl (refl, refl))
    ]
  ]
]

open_device-Settled : (a : Answers) (cs : List Call) → Settled (open_device a cs).result
unfolding open_device
open_device-Settled a cs = elim (Bool-cases (is_negative a.opened)) [
  | inl e ↦ rw (open_device, e) (negative-Settled a.opened e)
  | inr e ↦ elim (Bool-cases (a.active ==ℤ pos 1)) [
    | inr d ↦ rw (open_device, e, d) (claim_interfaces-Settled a _)
    | inl d ↦ elim (Bool-cases (is_negative a.detached)) [
      | inl f ↦ rw (open_device, e, d, f) (negative-Settled a.detached f)
      | inr f ↦ rw (open_device, e, d, f) (claim_interfaces-Settled a _)
    ]
  ]
]

open_index-Settled : (a : Answers) (index : ℕ) → Settled (open_index a index).result
unfolding open_index
open_index-Settled a index = elim (Bool-cases a.malloc) [
  | inr m ↦ rw (open_index, m) (negative-Settled (negsuc 11) refl)
  | inl m ↦ elim (Bool-cases (is_negative a.init)) [
    | inl i ↦ rw (open_index, m, i) (negative-Settled (negsuc 0) refl)
    | inr i ↦ elim (Option-cases (select_from index 0 a.devices)) [
      | inl n ↦ rw (open_index, m, i, n) (negative-Settled (negsuc 0) refl)
      | inr (d, n) ↦ rw (open_index, m, i, n) (open_device-Settled a _)
    ]
  ]
]

-- The memory and the context are given back, once each.
pub record IsBalanced (calls : List Call) : Type 0 where
  pub frees_once : count is_frees calls ≡ 1
  pub exits_once : count is_exits calls ≡ 1

-- The handle is closed, once, that is opened once.
pub record IsClosed (calls : List Call) : Type 0 where
  pub opens_once : count is_opens calls ≡ 1
  pub closes_once : count is_closes calls ≡ 1

abbrev closing : List Call
closing = releases 0 ∷ closes ∷ exits ∷ frees ∷ []

close_calls-closing : close_calls ≡ closing
unfolding close_device wait_inactive
close_calls-closing = refl

module _ (a : Answers) (index : ℕ) (fair : IsFair (open_index a index)) where
  failure-IsBalanced :
      is_negative (open_index a index).result ≡ true → IsBalanced (open_index a index).calls
  failure-IsBalanced e = let (f, x) = fair.failure e in record { frees_once = f; exits_once = x }

  closing-IsBalanced :
      is_negative (open_index a index).result ≡ false
      → IsBalanced ((open_index a index).calls ++ closing)
        × IsClosed ((open_index a index).calls ++ closing)
  closing-IsBalanced e =
      let cs = (open_index a index).calls in
      let (f, x, o, c) = fair.success_keeps e in
      (
        record {
          frees_once = count-append is_frees cs closing ∙ omega (arith, f);
          exits_once = count-append is_exits cs closing ∙ omega (arith, x);
        },
        record {
          opens_once = count-append is_opens cs closing ∙ omega (arith, o);
          closes_once = count-append is_closes cs closing ∙ omega (arith, fair.no_close);
        },
      )

-- If `malloc` gives memory and `libusb_init` a context, the test of a device by `findOsmoFL2K` gives both back, once
-- each, whether the device is available or not, and closes the handle that it opened if it is available.
pub probe-IsBalanced :
    (a : Answers) (index : ℕ)
    → a.malloc ≡ true
    → is_negative a.init ≡ false
    → IsBalanced (probe a index).1 × ((probe a index).0 ≡ true → IsClosed (probe a index).1)
unfolding probe
probe-IsBalanced a index m i =
    let fair = open_index-IsFair a index m i in
    elim (open_index-Settled a index) [
      | inr (e, n) ↦ rw (probe, e) (failure-IsBalanced a index fair n, λ h. cc)
      | inl (e, n) ↦
          let (b, c) = closing-IsBalanced a index fair n in
          rw (probe, e, close_calls-closing) (b, λ h. c)
    ]

-- What a destructor gives back for a device opened so.
abbrev Returned : Opened → Bool → List AsyncStatus → Type 0
Returned o dev_lost seen =
    (calls : List Call) × (close_opened o dev_lost seen ≡ some calls)
    × IsBalanced (o.calls ++ calls)
    × (is_negative o.result ≡ false → IsClosed (o.calls ++ calls))

close_device-ends :
    (dev_lost : Bool) (seen : List AsyncStatus)
    → (dev_lost ≡ true) ⊎ (wait_inactive seen ≡ true)
    → close_device (some dev_lost) seen ≡ some (success, closing)
unfolding close_device
close_device-ends true seen h = refl
close_device-ends false seen (inl h) = cc
close_device-ends false seen (inr h) = rw (close_device, h) refl

open_index-Returned :
    (a : Answers) (index : ℕ) (dev_lost : Bool) (seen : List AsyncStatus)
    → IsFair (open_index a index)
    → (dev_lost ≡ true) ⊎ (wait_inactive seen ≡ true)
    → Returned (open_index a index) dev_lost seen
unfolding close_device
open_index-Returned a index dev_lost seen fair ends = elim (open_index-Settled a index) [
  | inr (e, n) ↦
      let (f, x) = fair.failure n in
      let cs = (open_index a index).calls in
      (
        [],
        rw (close_opened, e, close_device) refl,
        record {
          frees_once = count-append is_frees cs [] ∙ omega (arith, f);
          exits_once = count-append is_exits cs [] ∙ omega (arith, x);
        },
        λ h. cc,
      )
  | inl (e, n) ↦
      let (b, c) = closing-IsBalanced a index fair n in
      (closing, rw (close_opened, e, close_device-ends dev_lost seen ends) refl, b, λ h. c)
]

-- The calls of a constructor and a destructor together, if the device is lost or its stream ends: if `malloc` gives memory
-- and `libusb_init` a context, the destructor returns, the memory and the context are given back, once each, by
-- `fl2k_open` if it fails and by `fl2k_close` if not, and the handle of a device that was opened is closed.
pub destroy-Returned :
    (a : Answers) (index : ℕ) (d : SoapyOsmoFl2k) (dev_lost : Bool) (seen : List AsyncStatus)
    → a.malloc ≡ true
    → is_negative a.init ≡ false
    → d.opened ≡ open_index a index
    → (dev_lost ≡ true) ⊎ (wait_inactive seen ≡ true)
    → (calls : List Call) × (destroy d dev_lost seen ≡ some calls)
      × IsBalanced (d.opened.calls ++ calls)
      × (is_negative d.opened.result ≡ false → IsClosed (d.opened.calls ++ calls))
unfolding destroy
destroy-Returned a index d dev_lost seen m i same ends =
    subst (λ o. Returned o dev_lost seen) (sym same)
      (open_index-Returned a index dev_lost seen (open_index-IsFair a index m i) ends)
