-- ===== src/Transfers/Free.antt =====
-- `fl2k_get_next_xfer` when asked for an empty transfer, as `fl2k_sample_worker` does.
use osmo_fl2k.Prelude.{
  ℕ, zero, suc, ◌+◌, ◌<◌, List, [], ◌∷◌, Option, none, some, Bool, true, false, Bool-cases, ◌≡◌,
  refl, ◌⊎◌, inl, inr, arith, get_elem?, ◌∙◌, ap,
}
use osmo_fl2k.Device.{empty, submitted, Xfer, Dev, same_state}
use osmo_fl2k.Transfers.{next_from, get_next_xfer}

abbrev pub is_empty : Xfer → Bool
is_empty x = elim x.user_data [ none ↦ false | some i ↦ same_state i.state empty ]

abbrev pub NoneEmpty : List Xfer → Type 0
NoneEmpty [] = Unit
NoneEmpty (x ∷ xs) = (is_empty x ≡ false) × NoneEmpty xs

round_not_empty :
    (i : ℕ) (x : Xfer) (xs : List Xfer)
    → is_empty x ≡ false
    → next_from empty i none 0 (x ∷ xs) ≡ next_from empty (i + 1) none 0 xs
unfolding next_from
round_not_empty i x xs h = ground arith

round_empty :
    (i : ℕ) (x : Xfer) (xs : List Xfer)
    → is_empty x ≡ true
    → next_from empty i none 0 (x ∷ xs) ≡ some i
unfolding next_from
round_empty i x xs h = ground arith

-- The transfer at index `j` is empty, and none before it is.
pub record FirstEmpty (xs : List Xfer) (j : ℕ) : Type 0 where
  pub xfer : Xfer
  pub at : get_elem? xs j ≡ some xfer
  pub is_free : is_empty xfer ≡ true
  pub none_before : (i : ℕ) (y : Xfer) → i < j → get_elem? xs i ≡ some y → is_empty y ≡ false

FirstEmpty-cons :
    {x : Xfer} {xs : List Xfer} {j : ℕ}
    → is_empty x ≡ false
    → FirstEmpty xs j
    → FirstEmpty (x ∷ xs) (suc j)
FirstEmpty-cons {x} {xs} {j} h f = record {
  xfer = f.xfer;
  at = f.at;
  is_free = f.is_free;
  none_before = before;
}
  where
    before : (i : ℕ) (y : Xfer) → i < suc j → get_elem? (x ∷ xs) i ≡ some y → is_empty y ≡ false
    before zero y l e = ground arith
    before (suc i) y l e = f.none_before i y (omega arith) e

scan_empty :
    (i : ℕ) (xs : List Xfer)
    → ((next_from empty i none 0 xs ≡ none) × NoneEmpty xs)
      ⊎ ((j : ℕ) × (next_from empty i none 0 xs ≡ some (i + j)) × FirstEmpty xs j)
scan_empty i [] = inl (unfold next_from in refl, tt)
scan_empty i (x ∷ xs) = by_head (Bool-cases (is_empty x)) (scan_empty (i + 1) xs)
  where
    Ends : List Xfer → ℕ → Option ℕ → Type 0
    Ends ys k r = ((r ≡ none) × NoneEmpty ys) ⊎ ((j : ℕ) × (r ≡ some (k + j)) × FirstEmpty ys j)

    by_head :
        (is_empty x ≡ true) ⊎ (is_empty x ≡ false)
        → Ends xs (i + 1) (next_from empty (i + 1) none 0 xs)
        → Ends (x ∷ xs) i (next_from empty i none 0 (x ∷ xs))
    by_head (inl h) _ = inr (
      0,
      round_empty i x xs h ∙ ap some (omega arith),
      record { xfer = x; at = refl; is_free = h; none_before = λ k y l e. absurd (omega arith) },
    )
    by_head (inr h) (inl (e, a)) = inl (round_not_empty i x xs h ∙ e, (h, a))
    by_head (inr h) (inr (j, e, f)) =
        inr (suc j, round_not_empty i x xs h ∙ e ∙ ap some (omega arith), FirstEmpty-cons h f)

-- Asked for an empty transfer, `fl2k_get_next_xfer` returns the first one, and NULL exactly if no
-- transfer is empty.
pub get_next_xfer-empty :
    (dev : Dev)
    → ((get_next_xfer dev empty ≡ none) × NoneEmpty dev.xfer)
      ⊎ ((j : ℕ) × (get_next_xfer dev empty ≡ some j) × FirstEmpty dev.xfer j)
unfolding get_next_xfer
get_next_xfer-empty dev = ends (scan_empty 0 dev.xfer)
  where
    ends :
        ((next_from empty 0 none 0 dev.xfer ≡ none) × NoneEmpty dev.xfer)
          ⊎ ((j : ℕ) × (next_from empty 0 none 0 dev.xfer ≡ some (0 + j)) × FirstEmpty dev.xfer j)
        → ((next_from empty 0 none 0 dev.xfer ≡ none) × NoneEmpty dev.xfer)
          ⊎ ((j : ℕ) × (next_from empty 0 none 0 dev.xfer ≡ some j) × FirstEmpty dev.xfer j)
    ends (inl a) = inl a
    ends (inr (j, e, f)) = inr (j, e ∙ ap some (omega arith), f)

scan_submitted :
    (i : ℕ) (nb : Option ℕ) (ns : ℕ) (xs : List Xfer) → next_from submitted i nb ns xs ≡ none
unfolding next_from
scan_submitted i nb ns [] = refl
scan_submitted i nb ns (x ∷ xs) =
    let rest : (nb' : Option ℕ) (ns' : ℕ) → next_from submitted (i + 1) nb' ns' xs ≡ none =
      λ nb' ns'. scan_submitted (i + 1) nb' ns' xs in
    grind arith

-- Asked for a submitted transfer, it returns NULL.
pub get_next_xfer-submitted : (dev : Dev) → get_next_xfer dev submitted ≡ none
unfolding get_next_xfer
get_next_xfer-submitted dev = scan_submitted 0 none 0 dev.xfer
