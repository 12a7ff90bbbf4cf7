-- ===== src/Transfers/Filled.antt =====
-- `fl2k_get_next_xfer` when asked for a filled transfer, as `_libusb_callback` does.
use osmo_fl2k.Prelude.{
  ℕ, suc, ◌+◌, ◌≤◌, ◌<◌, List, [], ◌∷◌, Option, none, some, ◌≡◌, refl, ◌⊎◌, inl, inr, arith,
  get_elem?, if◌then◌else◌, dec_lt, ◌∙◌, ap,
}
use osmo_fl2k.Device.{filled, Xfer, Dev, same_state}
use osmo_fl2k.Transfers.{next_from, get_next_xfer}

-- The sequence number of a filled transfer.
abbrev pub filled_seq : Xfer → Option ℕ
filled_seq x = elim x.user_data [
  | none ↦ none
  | some i ↦ if same_state i.state filled then some i.seq else none
]

-- Every filled transfer has a sequence number from `s` on.
abbrev pub AtLeast : ℕ → List Xfer → Type 0
AtLeast s [] = Unit
AtLeast s (x ∷ xs) = ((q : ℕ) → filled_seq x ≡ some q → s ≤ q) × AtLeast s xs

abbrev pub NoneFilled : List Xfer → Type 0
NoneFilled [] = Unit
NoneFilled (x ∷ xs) = (filled_seq x ≡ none) × NoneFilled xs

-- The scan found the transfer at index `j` of the list, with sequence number `s`, the smallest.
pub record Found (xs : List Xfer) (j s : ℕ) : Type 0 where
  pub xfer : Xfer
  pub at : get_elem? xs j ≡ some xfer
  pub seq_of : filled_seq xfer ≡ some s
  pub oldest : AtLeast s xs

Found-cons :
    {x : Xfer} {xs : List Xfer} {j s : ℕ}
    → ((q : ℕ) → filled_seq x ≡ some q → s ≤ q)
    → Found xs j s
    → Found (x ∷ xs) (suc j) s
Found-cons h f = record { xfer = f.xfer; at = f.at; seq_of = f.seq_of; oldest = (h, f.oldest) }

AtLeast-mono : (m n : ℕ) (xs : List Xfer) → m ≤ n → AtLeast n xs → AtLeast m xs
AtLeast-mono m n [] h a = tt
AtLeast-mono m n (x ∷ xs) h a = ((λ q e. omega (arith, a.0 q e)), AtLeast-mono m n xs h a.1)

-- One round of the loop at a transfer that is not filled, at one that is taken, at one that is not.
module _ (i : ℕ) (x : Xfer) (xs : List Xfer) where
  round_skip :
      (nb : Option ℕ) (ns : ℕ)
      → filled_seq x ≡ none
      → next_from filled i nb ns (x ∷ xs) ≡ next_from filled (i + 1) nb ns xs
  unfolding next_from
  round_skip nb ns h = ground arith

  round_first :
      (ns q : ℕ)
      → filled_seq x ≡ some q
      → next_from filled i none ns (x ∷ xs) ≡ next_from filled (i + 1) (some i) q xs
  unfolding next_from
  round_first ns q h = ground arith

  round_take :
      (b ns q : ℕ)
      → filled_seq x ≡ some q
      → q < ns
      → next_from filled i (some b) ns (x ∷ xs) ≡ next_from filled (i + 1) (some i) q xs
  unfolding next_from
  round_take b ns q h l = ground arith

  round_keep :
      (b ns q : ℕ)
      → filled_seq x ≡ some q
      → ns ≤ q
      → next_from filled i (some b) ns (x ∷ xs) ≡ next_from filled (i + 1) (some b) ns xs
  unfolding next_from
  round_keep b ns q h l = ground arith

-- What a scan that starts at index `i` with candidate `b` of number `ns` ends with.
abbrev Scanned : ℕ → ℕ → ℕ → List Xfer → Option ℕ → Type 0
Scanned i b ns xs r =
    ((r ≡ some b) × AtLeast ns xs) ⊎ ((j s : ℕ) × (r ≡ some (i + j)) × (s < ns) × Found xs j s)

same_seq : {o : Option ℕ} (s q p : ℕ) → o ≡ some q → o ≡ some p → s ≤ q → s ≤ p
same_seq s q p h e l = ground arith

-- The transfer at the head becomes the candidate.
head_taken :
    (i q : ℕ) (x : Xfer) (xs : List Xfer) (r : Option ℕ)
    → filled_seq x ≡ some q
    → Scanned (i + 1) i q xs r
    → (j s : ℕ) × (r ≡ some (i + j)) × (s ≤ q) × Found (x ∷ xs) j s
head_taken i q x xs r h (inl (e, a)) = (
  0,
  q,
  e ∙ ap some (omega arith),
  omega arith,
  record {
    xfer = x;
    at = refl;
    seq_of = h;
    oldest = ((λ p e'. same_seq q q p h e' (omega arith)), a);
  },
)
head_taken i q x xs r h (inr (j, s, e, l, f)) = (
  suc j,
  s,
  e ∙ ap some (omega arith),
  omega arith,
  Found-cons (λ p e'. same_seq s q p h e' (omega arith)) f,
)

scan_some_head :
    (i b ns : ℕ) (x : Xfer) (xs : List Xfer)
    → ((c m : ℕ) → Scanned (i + 1) c m xs (next_from filled (i + 1) (some c) m xs))
    → (o : Option ℕ) → filled_seq x ≡ o
    → Scanned i b ns (x ∷ xs) (next_from filled i (some b) ns (x ∷ xs))
scan_some_head i b ns x xs ih none h = rw (round_skip i x xs (some b) ns h) (kept (ih b ns))
  where
    kept :
        Scanned (i + 1) b ns xs (next_from filled (i + 1) (some b) ns xs)
        → Scanned i b ns (x ∷ xs) (next_from filled (i + 1) (some b) ns xs)
    kept (inl (e, a)) = inl (e, ((λ p e'. cc), a))
    kept (inr (j, s, e, l, f)) =
        inr (suc j, s, e ∙ ap some (omega arith), l, Found-cons (λ p e'. cc) f)
scan_some_head i b ns x xs ih (some q) h = elim (dec_lt q ns) [
  | yes l ↦ rw (round_take i x xs b ns q h l) (taken (head_taken i q x xs _ h (ih i q)) l)
  | no l ↦ rw (round_keep i x xs b ns q h (omega arith)) (kept (omega arith) (ih b ns))
]
  where
    taken :
        {r : Option ℕ}
        → ((j s : ℕ) × (r ≡ some (i + j)) × (s ≤ q) × Found (x ∷ xs) j s)
        → q < ns
        → Scanned i b ns (x ∷ xs) r
    taken (j, s, e, m, f) l = inr (j, s, e, omega arith, f)

    kept :
        ns ≤ q
        → Scanned (i + 1) b ns xs (next_from filled (i + 1) (some b) ns xs)
        → Scanned i b ns (x ∷ xs) (next_from filled (i + 1) (some b) ns xs)
    kept m (inl (e, a)) = inl (e, ((λ p e'. same_seq ns q p h e' m), a))
    kept m (inr (j, s, e, l, f)) = inr (
      suc j,
      s,
      e ∙ ap some (omega arith),
      l,
      Found-cons (λ p e'. same_seq s q p h e' (omega arith)) f,
    )

scan_some : (i b ns : ℕ) (xs : List Xfer) → Scanned i b ns xs (next_from filled i (some b) ns xs)
scan_some i b ns [] = inl (unfold next_from in refl, tt)
scan_some i b ns (x ∷ xs) =
    scan_some_head i b ns x xs (λ c m. scan_some (i + 1) c m xs) (filled_seq x) refl

-- From no candidate the scan ends with the oldest filled transfer, or with none if there is none.
scan_none :
    (i : ℕ) (xs : List Xfer)
    → ((next_from filled i none 0 xs ≡ none) × NoneFilled xs)
      ⊎ ((j s : ℕ) × (next_from filled i none 0 xs ≡ some (i + j)) × Found xs j s)
scan_none i [] = inl (unfold next_from in refl, tt)
scan_none i (x ∷ xs) = by_head (filled_seq x) refl (scan_none (i + 1) xs)
  where
    Ends : List Xfer → ℕ → Option ℕ → Type 0
    Ends ys k r = ((r ≡ none) × NoneFilled ys) ⊎ ((j s : ℕ) × (r ≡ some (k + j)) × Found ys j s)

    by_head :
        (o : Option ℕ)
        → filled_seq x ≡ o
        → Ends xs (i + 1) (next_from filled (i + 1) none 0 xs)
        → Ends (x ∷ xs) i (next_from filled i none 0 (x ∷ xs))
    by_head none h (inl (e, a)) = inl (round_skip i x xs none 0 h ∙ e, (h, a))
    by_head none h (inr (j, s, e, f)) = inr (
      suc j,
      s,
      round_skip i x xs none 0 h ∙ e ∙ ap some (omega arith),
      Found-cons (λ p e'. cc) f,
    )
    by_head (some q) h _ =
        let (j, s, e, _, f) = head_taken i q x xs _ h (scan_some (i + 1) i q xs) in
        inr (j, s, round_first i x xs 0 q h ∙ e, f)

-- Asked for a filled transfer, `fl2k_get_next_xfer` returns one with the smallest sequence number,
-- and NULL exactly if no transfer is filled.
pub get_next_xfer-filled :
    (dev : Dev)
    → ((get_next_xfer dev filled ≡ none) × NoneFilled dev.xfer)
      ⊎ ((j s : ℕ) × (get_next_xfer dev filled ≡ some j) × Found dev.xfer j s)
unfolding get_next_xfer
get_next_xfer-filled dev = ends (scan_none 0 dev.xfer)
  where
    ends :
        ((next_from filled 0 none 0 dev.xfer ≡ none) × NoneFilled dev.xfer)
          ⊎ ((j s : ℕ) × (next_from filled 0 none 0 dev.xfer ≡ some (0 + j)) × Found dev.xfer j s)
        → ((next_from filled 0 none 0 dev.xfer ≡ none) × NoneFilled dev.xfer)
          ⊎ ((j s : ℕ) × (next_from filled 0 none 0 dev.xfer ≡ some j) × Found dev.xfer j s)
    ends (inl a) = inl a
    ends (inr (j, s, e, f)) = inr (j, s, e ∙ ap some (omega arith), f)
