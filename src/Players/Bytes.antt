-- ===== src/Players/Bytes.antt =====
-- Bytes that are stored one chunk behind the other.
use osmo_fl2k.Prelude.{
  ℕ, zero, suc, ◌+◌, ◌≤◌, List, [], ◌∷◌, ◌++◌, some, true, ltb, ◌≡◌, refl, sym, ap, arith, length,
  set, length-append,
}
use osmo_fl2k.Convert.{store}
use osmo_fl2k.Players.{put_bytes}
use mathlib.Core.List.{append_assoc, append-nil}

-- A list of at least `n` elements has `n` in front.
pub split_at :
    {A : Type 0} (n : ℕ) (xs : List A)
    → n ≤ length xs
    → (front : List A) × (rest : List A) × (xs ≡ front ++ rest) × (length front ≡ n)
split_at zero xs h = ([], xs, refl, refl)
split_at (suc n) [] h = absurd (omega arith)
split_at (suc n) (x ∷ xs) h =
    let (front, rest, same, l) = split_at n xs (omega arith) in
    (x ∷ front, rest, ap (◌∷◌ x) same, ap suc l)

set-append :
    (done rest : List ℕ) (old new : ℕ)
    → set (done ++ old ∷ rest) (length done) new ≡ done ++ new ∷ rest
set-append [] rest old new = refl
set-append (d ∷ done) rest old new = ap (◌∷◌ d) (set-append done rest old new)

pub store-append :
    (done rest : List ℕ) (old new : ℕ)
    → store (done ++ old ∷ rest) (length done) new ≡ some (done ++ new ∷ rest)
unfolding store
store-append done rest old new =
    let l = length-append done (old ∷ rest) in
    let e : ltb (length done) (length (done ++ old ∷ rest)) ≡ true = ground (arith, l) in
    rw (store, e, set-append done rest old new) refl

-- Behind the bytes that are there, a chunk replaces as many bytes as it has.
pub put_bytes-append :
    (done bytes front rest : List ℕ)
    → length front ≡ length bytes
    → put_bytes (done ++ (front ++ rest)) (length done) bytes ≡ some ((done ++ bytes) ++ rest)
unfolding put_bytes
put_bytes-append done [] [] rest l = ap (λ xs. some (xs ++ rest)) (sym (append-nil done))
put_bytes-append done [] (f ∷ front) rest l = absurd (omega arith)
put_bytes-append done (b ∷ bytes) [] rest l = absurd (omega arith)
put_bytes-append done (b ∷ bytes) (f ∷ front) rest l =
    let e = store-append done (front ++ rest) f b in
    let here : done ++ b ∷ (front ++ rest) ≡ (done ++ b ∷ []) ++ (front ++ rest) =
      sym (append_assoc done (b ∷ []) (front ++ rest)) in
    let n : length done + 1 ≡ length (done ++ b ∷ []) = sym (length-append done (b ∷ [])) in
    let later = put_bytes-append (done ++ b ∷ []) bytes front rest (omega arith) in
    let all : (done ++ b ∷ []) ++ bytes ≡ done ++ b ∷ bytes = append_assoc done (b ∷ []) bytes in
    rw (e, here, n, later, all) refl

-- A chunk that is not longer than the bytes behind those that are there.
pub put_chunk :
    (done bytes rest : List ℕ)
    → length bytes ≤ length rest
    → (front : List ℕ) × (rest' : List ℕ) × (rest ≡ front ++ rest')
      × (length front ≡ length bytes)
      × (put_bytes (done ++ rest) (length done) bytes ≡ some ((done ++ bytes) ++ rest'))
put_chunk done bytes rest l =
    let (front, rest', same, n) = split_at (length bytes) rest l in
    (front, rest', same, n, rw same (put_bytes-append done bytes front rest' n))

pub nothing_of_length : (xs : List ℕ) → length xs ≡ 0 → xs ≡ []
nothing_of_length [] e = refl
nothing_of_length (x ∷ xs) e = absurd (omega arith)
