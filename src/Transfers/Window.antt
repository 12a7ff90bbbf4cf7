-- ===== src/Transfers/Window.antt =====
-- The filled transfers as a window of sequence numbers: those from `lo` to `hi - 1` wait, each in
-- exactly one transfer.
use osmo_fl2k.Prelude.{
  ℕ, zero, suc, ◌+◌, ◌≤◌, ◌<◌, List, [], ◌∷◌, Option, none, some, ◌≡◌, refl, ap, arith, get_elem?,
  modify, ltb, leb, ◌==◌, if◌then◌else◌, ◌&&◌,
}
use osmo_fl2k.Device.{Xfer}
use osmo_fl2k.Transfers.Filled.{filled_seq, AtLeast, NoneFilled, Found}

-- 1 for a transfer that is filled with number `v`, else 0.
abbrev pub weight : ℕ → Xfer → ℕ
weight v x = elim (filled_seq x) [ none ↦ 0 | some q ↦ if q == v then 1 else 0 ]

-- In how many transfers number `v` waits.
unfoldable pub count : ℕ → List Xfer → ℕ
count v [] = 0
count v (x ∷ xs) = weight v x + count v xs

abbrev pub within : ℕ → ℕ → ℕ → ℕ
within lo hi v = if leb lo v && ltb v hi then 1 else 0

abbrev pub Window : ℕ → ℕ → List Xfer → Type 0
Window lo hi xs = (v : ℕ) → count v xs ≡ within lo hi v

-- An update of one transfer changes the counts by what that transfer weighs.
pub count-modify :
    (f : Xfer → Xfer) (xs : List Xfer) (i v : ℕ) (x : Xfer)
    → get_elem? xs i ≡ some x
    → count v (modify f xs i) + weight v x ≡ count v xs + weight v (f x)
unfolding count
count-modify f [] i v x e = absurd (cc)
count-modify f (y ∷ xs) zero v x e = let same : y ≡ x = cc in rw same (omega arith)
count-modify f (y ∷ xs) (suc i) v x e = omega (arith, count-modify f xs i v x e)

weight_self : (v : ℕ) (x : Xfer) → filled_seq x ≡ some v → weight v x ≡ 1
weight_self v x e = ground arith

pub count_pos :
    (xs : List Xfer) (j v : ℕ) (x : Xfer)
    → get_elem? xs j ≡ some x
    → filled_seq x ≡ some v
    → 1 ≤ count v xs
unfolding count
count_pos [] j v x e f = absurd (cc)
count_pos (y ∷ xs) zero v x e f =
    let same : y ≡ x = cc in rw same (omega (arith, weight_self v x f))
count_pos (y ∷ xs) (suc j) v x e f = omega (arith, count_pos xs j v x e f)

weight_below :
    (s v : ℕ) (x : Xfer) → ((q : ℕ) → filled_seq x ≡ some q → s ≤ q) → v < s → weight v x ≡ 0
weight_below s v x h l = by_seq (filled_seq x) h
  where
    by_seq :
        (o : Option ℕ)
        → ((q : ℕ) → o ≡ some q → s ≤ q)
        → ◌≡◌ {A = ℕ} (elim o [ none ↦ 0 | some q ↦ if q == v then 1 else 0 ]) 0
    by_seq none h' = refl
    by_seq (some q) h' = ground (arith, h' q refl)

count_below : (s v : ℕ) (xs : List Xfer) → AtLeast s xs → v < s → count v xs ≡ 0
unfolding count
count_below s v [] a l = refl
count_below s v (x ∷ xs) a l = omega (arith, weight_below s v x a.0 l, count_below s v xs a.1 l)

pub count_none : (v : ℕ) (xs : List Xfer) → NoneFilled xs → count v xs ≡ 0
unfolding count
count_none v [] a = refl
count_none v (x ∷ xs) a = ground (arith, a.0, count_none v xs a.1)

-- The oldest filled transfer carries the first number of the window.
pub oldest_in-Window :
    (lo hi j s : ℕ) (xs : List Xfer) → Window lo hi xs → Found xs j s → (s ≡ lo) × (lo < hi)
oldest_in-Window lo hi j s xs w f =
    ground (arith, w s, w lo, count_pos xs j s f.xfer f.at f.seq_of, count_below s lo xs f.oldest)

-- With no filled transfer the window is empty.
pub Window-empty : (lo hi : ℕ) (xs : List Xfer) → Window lo hi xs → NoneFilled xs → hi ≤ lo
Window-empty lo hi xs w n = ground (arith, w lo, count_none lo xs n)

-- Taking the transfer that carries the first number moves the lower end.
pub Window-take :
    (f : Xfer → Xfer) (lo hi i : ℕ) (xs : List Xfer) (x : Xfer)
    → Window lo hi xs
    → lo < hi
    → get_elem? xs i ≡ some x
    → filled_seq x ≡ some lo
    → filled_seq (f x) ≡ none
    → Window (lo + 1) hi (modify f xs i)
Window-take f lo hi i xs x w l e h g v = ground (arith, count-modify f xs i v x e, w v)

-- Filling a transfer with the next number moves the upper end.
pub Window-fill :
    (f : Xfer → Xfer) (lo hi i : ℕ) (xs : List Xfer) (x : Xfer)
    → Window lo hi xs
    → lo ≤ hi
    → get_elem? xs i ≡ some x
    → filled_seq x ≡ none
    → filled_seq (f x) ≡ some hi
    → Window lo (hi + 1) (modify f xs i)
Window-fill f lo hi i xs x w l e h g v = ground (arith, count-modify f xs i v x e, w v)

-- An update that leaves a transfer's number alone leaves the window alone.
pub Window-keep :
    (f : Xfer → Xfer) (lo hi i : ℕ) (xs : List Xfer) (x : Xfer)
    → Window lo hi xs
    → get_elem? xs i ≡ some x
    → filled_seq (f x) ≡ filled_seq x
    → Window lo hi (modify f xs i)
Window-keep f lo hi i xs x w e h v =
    let same : weight v (f x) ≡ weight v x =
      ap (λ o. elim o [ none ↦ 0 | some q ↦ if q == v then 1 else 0 ]) h in
    omega (arith, count-modify f xs i v x e, w v, same)
