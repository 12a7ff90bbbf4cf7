-- ===== src/Opening/Calls.antt =====
-- What `fl2k_open` and `fl2k_close` acquire and give back.
use osmo_fl2k.Prelude.{
  ℕ, ◌+◌, List, [], ◌∷◌, ◌++◌, Bool, true, false, if◌then◌else◌, ◌≡◌, refl, arith, ℤ, pos, negsuc,
  is_negative, ◌==ℤ◌, ◌∙◌, inl, inr, Bool-cases, Option-cases,
}
use osmo_fl2k.Discovery.{select_from}
use osmo_fl2k.Opening.{
  Call, allocates, frees, inits, exits, lists, frees_list, opens, closes, detaches, claims, Answers,
  Opened, err, claim_interfaces, open_device, open_index,
}

-- How often a call stands in a list.
abbrev pub count : (Call → Bool) → List Call → ℕ
count p [] = 0
count p (c ∷ cs) = let rest = count p cs in if p c then rest + 1 else rest

pub count-append :
    (p : Call → Bool) (xs ys : List Call) → count p (xs ++ ys) ≡ count p xs + count p ys
count-append p [] ys = omega arith
count-append p (x ∷ xs) ys = elim (Bool-cases (p x)) [
  | inl e ↦ rw e (omega (arith, count-append p xs ys))
  | inr e ↦ rw e (count-append p xs ys)
]

abbrev pub is_frees : Call → Bool
is_frees frees = true
is_frees _ = false

abbrev pub is_exits : Call → Bool
is_exits exits = true
is_exits _ = false

abbrev pub is_opens : Call → Bool
is_opens opens = true
is_opens _ = false

abbrev pub is_closes : Call → Bool
is_closes closes = true
is_closes _ = false

abbrev pub is_claims : Call → Bool
is_claims (claims _) = true
is_claims _ = false

-- A failure frees the memory and leaves libusb, once; a success does neither, and has a handle with two interfaces
-- claimed; and no handle is closed.
pub record IsFair (o : Opened) : Type 0 where
  pub failure :
      is_negative o.result ≡ true → (count is_frees o.calls ≡ 1) × (count is_exits o.calls ≡ 1)
  pub success_keeps :
      is_negative o.result ≡ false
      → (count is_frees o.calls ≡ 0)
        × (count is_exits o.calls ≡ 0)
        × (count is_opens o.calls ≡ 1)
        × (count is_claims o.calls ≡ 2)
  pub no_close : count is_closes o.calls ≡ 0

-- Calls so far: nothing is given back, with `opened` handles and `claimed` interfaces.
record SoFar (opened claimed : ℕ) (cs : List Call) : Type 0 where
  pub no_frees : count is_frees cs ≡ 0
  pub no_exits : count is_exits cs ≡ 0
  pub no_closes : count is_closes cs ≡ 0
  pub handles : count is_opens cs ≡ opened
  pub interfaces : count is_claims cs ≡ claimed

claims-SoFar :
    (opened claimed k : ℕ) (cs : List Call)
    → SoFar opened claimed cs
    → SoFar opened (claimed + 1) (cs ++ claims k ∷ [])
claims-SoFar opened claimed k cs s =
    let xs = claims k ∷ [] in
    record {
      no_frees = count-append is_frees cs xs ∙ omega (arith, s);
      no_exits = count-append is_exits cs xs ∙ omega (arith, s);
      no_closes = count-append is_closes cs xs ∙ omega (arith, s);
      handles = count-append is_opens cs xs ∙ omega (arith, s);
      interfaces = count-append is_claims cs xs ∙ omega (arith, s);
    }

err-IsFair :
    (r : ℤ) (opened claimed : ℕ) (cs : List Call)
    → is_negative r ≡ true
    → SoFar opened claimed cs
    → IsFair (err r cs)
err-IsFair r opened claimed cs e s =
    let xs = exits ∷ frees ∷ [] in
    record {
      failure = λ h. (
        count-append is_frees cs xs ∙ omega (arith, s),
        count-append is_exits cs xs ∙ omega (arith, s),
      );
      success_keeps = λ h. absurd (ground (arith, e, h));
      no_close = count-append is_closes cs xs ∙ omega (arith, s);
    }

claim_interfaces-IsFair :
    (a : Answers) (cs : List Call) → SoFar 1 0 cs → IsFair (claim_interfaces a cs)
unfolding claim_interfaces
claim_interfaces-IsFair a cs s =
    let s0 = claims-SoFar 1 0 0 cs s in
    let s1 = claims-SoFar 1 1 1 (cs ++ claims 0 ∷ []) s0 in
    let with0 = cs ++ claims 0 ∷ [] in
    let with1 = with0 ++ claims 1 ∷ [] in
    elim (Bool-cases (is_negative a.claimed0)) [
      | inl e ↦ rw (claim_interfaces, e) (err-IsFair a.claimed0 1 1 with0 e s0)
      | inr e ↦ elim (Bool-cases (is_negative a.claimed1)) [
        | inl e' ↦ rw (claim_interfaces, e, e') (err-IsFair a.claimed1 1 2 with1 e' s1)
        | inr e' ↦ elim (Bool-cases (is_negative a.init_device)) [
          | inl e'' ↦ rw (claim_interfaces, e, e', e'') (err-IsFair a.init_device 1 2 with1 e'' s1)
          | inr e'' ↦
              rw (claim_interfaces, e, e', e'')
                (record {
                  failure = λ h. absurd (ground arith);
                  success_keeps = λ h. (s1.no_frees, s1.no_exits, s1.handles, s1.interfaces);
                  no_close = s1.no_closes;
                })
        ]
      ]
    ]

abbrev listed : List Call
listed = allocates ∷ inits ∷ lists ∷ []

listed-SoFar : SoFar 0 0 listed
listed-SoFar = record {
  no_frees = refl;
  no_exits = refl;
  no_closes = refl;
  handles = refl;
  interfaces = refl;
}

opened-SoFar : SoFar 1 0 (listed ++ opens ∷ frees_list ∷ [])
opened-SoFar = record {
  no_frees = refl;
  no_exits = refl;
  no_closes = refl;
  handles = refl;
  interfaces = refl;
}

detached-SoFar : SoFar 1 0 ((listed ++ opens ∷ frees_list ∷ []) ++ detaches ∷ [])
detached-SoFar = record {
  no_frees = refl;
  no_exits = refl;
  no_closes = refl;
  handles = refl;
  interfaces = refl;
}

open_device-IsFair : (a : Answers) → IsFair (open_device a listed)
unfolding open_device
open_device-IsFair a =
    let open_calls = listed ++ opens ∷ frees_list ∷ [] in
    elim (Bool-cases (is_negative a.opened)) [
      | inl e ↦ rw (open_device, e) (err-IsFair a.opened 1 0 open_calls e opened-SoFar)
      | inr e ↦ elim (Bool-cases (a.active ==ℤ pos 1)) [
        | inr d ↦ rw (open_device, e, d) (claim_interfaces-IsFair a open_calls opened-SoFar)
        | inl d ↦ elim (Bool-cases (is_negative a.detached)) [
          | inl f ↦
              rw (open_device, e, d, f)
                (err-IsFair a.detached 1 0 (open_calls ++ detaches ∷ []) f detached-SoFar)
          | inr f ↦
              rw (open_device, e, d, f)
                (claim_interfaces-IsFair a (open_calls ++ detaches ∷ []) detached-SoFar)
        ]
      ]
    ]

-- If `malloc` gives memory and `libusb_init` a context, `fl2k_open` frees the memory and leaves libusb, once each, if
-- it fails, also behind the opening of the handle; if it succeeds it does neither, with one handle open and two
-- interfaces claimed; and on no path does it close the handle.
pub open_index-IsFair :
    (a : Answers) (index : ℕ)
    → a.malloc ≡ true
    → is_negative a.init ≡ false
    → IsFair (open_index a index)
unfolding open_index
open_index-IsFair a index m i = elim (Option-cases (select_from index 0 a.devices)) [
  | inl n ↦ rw (open_index, m, i, n) (err-IsFair (negsuc 0) 0 0 listed refl listed-SoFar)
  | inr (d, n) ↦ rw (open_index, m, i, n) (open_device-IsFair a)
]
