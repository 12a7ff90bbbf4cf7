-- ===== src/Stream/Backlog.antt =====
-- The buffers filled and not yet sent: where they wait, and how many they can be.
use osmo_fl2k.Prelude.{
  ℕ, zero, suc, ◌+◌, ◌^◌, ◌≤◌, ◌<◌, List, [], ◌∷◌, Option, none, some, ◌≡◌, refl, arith, get_elem?,
  length, ℕ_discrete,
}
use osmo_fl2k.Device.{Xfer}
use osmo_fl2k.Transfers.Filled.{filled_seq}
use osmo_fl2k.Transfers.Window.{Window, count, weight}
use osmo_fl2k.Worker.{DataInfo}
use osmo_fl2k.Stream.{Stream, Event, Run}
use osmo_fl2k.Stream.Fifo.{all_produced, all_sent, IsStarted, ran, sent_count}

-- A transfer that is filled with number `v`.
pub record Waits (xs : List Xfer) (v : ℕ) : Type 0 where
  pub index : ℕ
  pub xfer : Xfer
  pub at : get_elem? xs index ≡ some xfer
  pub number : filled_seq xfer ≡ some v

Waits-cons : {x : Xfer} {xs : List Xfer} {v : ℕ} → Waits xs v → Waits (x ∷ xs) v
Waits-cons w = record { index = suc w.index; xfer = w.xfer; at = w.at; number = w.number }

Waits-of_count : (xs : List Xfer) (v : ℕ) → 1 ≤ count v xs → Waits xs v
unfolding count
Waits-of_count [] v h = absurd (omega arith)
Waits-of_count (x ∷ xs) v h = by_head (filled_seq x) refl (Waits-of_count xs v)
  where
    by_head : (o : Option ℕ) → filled_seq x ≡ o → (1 ≤ count v xs → Waits xs v) → Waits (x ∷ xs) v
    by_head none e ih = Waits-cons (ih (ground arith))
    by_head (some q) e ih = elim (ℕ_discrete q v) [
      | yes p ↦ record { index = 0; xfer = x; at = refl; number = ground arith }
      | no p ↦ Waits-cons (ih (ground arith))
    ]

-- How many transfers carry a number below `n`.
total : ℕ → List Xfer → ℕ
unfolding count
total zero xs = 0
total (suc n) xs = count n xs + total n xs

weights : ℕ → Xfer → ℕ
weights zero x = 0
weights (suc n) x = weight n x + weights n x

weights_none : (n q : ℕ) (x : Xfer) → filled_seq x ≡ some q → n ≤ q → weights n x ≡ 0
unfolding weights
weights_none zero q x e h = refl
weights_none (suc n) q x e h = ground (arith, weights_none n q x e (omega arith))

weights-le_one : (n : ℕ) (x : Xfer) → weights n x ≤ 1
unfolding weights
weights-le_one zero x = omega arith
weights-le_one (suc n) x = by_seq (filled_seq x) refl (weights-le_one n x)
  where
    by_seq : (o : Option ℕ) → filled_seq x ≡ o → weights n x ≤ 1 → weight n x + weights n x ≤ 1
    by_seq none e h = ground arith
    by_seq (some q) e h = elim (ℕ_discrete q n) [
      | yes p ↦ ground (arith, weights_none n q x e (omega arith))
      | no p ↦ ground arith
    ]

total-cons : (n : ℕ) (x : Xfer) (xs : List Xfer) → total n (x ∷ xs) ≡ weights n x + total n xs
unfolding total weights count
total-cons zero x xs = refl
total-cons (suc n) x xs = omega (arith, total-cons n x xs)

total-nil : (n : ℕ) → total n [] ≡ 0
unfolding total count
total-nil zero = refl
total-nil (suc n) = omega (arith, total-nil n)

total-le-length : (n : ℕ) (xs : List Xfer) → total n xs ≤ length xs
total-le-length n [] = omega (arith, total-nil n)
total-le-length n (x ∷ xs) =
    omega (arith, total-cons n x xs, weights-le_one n x, total-le-length n xs)

total_of_Window : (lo hi n : ℕ) (xs : List Xfer) → Window lo hi xs → n ≤ hi → n ≤ lo + total n xs
unfolding total
total_of_Window lo hi zero xs w h = omega arith
total_of_Window lo hi (suc n) xs w h =
    ground (arith, total_of_Window lo hi n xs w (omega arith), w n)

module _ (reply : DataInfo → DataInfo) (s t : Stream) (es : List Event) (run : Run reply s es t)
    (start : IsStarted s) (small : length (all_produced es) < 2 ^ 64) where
  -- In every run from the start, with fewer than 2 ^ 64 buffers filled, no buffer is lost before it is submitted: each
  -- one filled that no callback has yet taken to submit it waits in a filled transfer, which has its number and holds
  -- it. (One taken that `libusb_submit_transfer` refuses is lost; it is not among those that wait.)
  pub unsent-Waits :
      (v : ℕ)
      → length (all_sent es) ≤ v
      → v < length (all_produced es)
      → (w : Waits t.dev.xfer v) × (get_elem? (all_produced es) v ≡ some w.xfer.buffer)
  unsent-Waits v lo hi =
      let r = ran reply s t es run start small in
      let c = sent_count reply s t es run start small in
      let w = Waits-of_count t.dev.xfer v (ground (arith, r.inv.window v)) in
      (w, r.inv.content w.index v w.xfer w.at w.number)

  -- In every run from the start, with fewer than 2 ^ 64 buffers filled, the worker is never further
  -- ahead of libusb than there are transfers.
  pub backlog_bound : length (all_produced es) ≤ length (all_sent es) + length t.dev.xfer
  backlog_bound =
      let r = ran reply s t es run start small in
      let c = sent_count reply s t es run start small in
      let hi = length (all_produced es) in
      omega (
        arith,
        c,
        total_of_Window r.n hi hi t.dev.xfer r.inv.window (omega arith),
        total-le-length hi t.dev.xfer,
      )
