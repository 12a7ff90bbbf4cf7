-- ===== src/Start/Buffers.antt =====
-- The loops of `fl2k_alloc_submit_transfers` and `_fl2k_free_async_buffers`.
use osmo_fl2k.Prelude.{
  ℕ, zero, suc, ◌+◌, ◌<◌, List, [], ◌∷◌, map, some, Bool, true, false, if◌then◌else◌, ◌≡◌, ◌⊎◌, inl,
  inr, refl, ◌∙◌, ap, arith, ℤ, is_negative, replicate, length-replicate, length, get_elem?,
  Bool-cases,
}
use osmo_fl2k.Device.{Xfer, Dev}
use osmo_fl2k.Transfers.Filled.{NoneFilled}
use osmo_fl2k.Start.{
  Mapped, refused, zeroed, dirty, Slot, null, kernel, user, Env, kernel_from, unmapped, user_from,
  new_xfer, submit_from, filled_in, alloc_submit_transfers, releases_kernel, releases_user, release,
}

Mapped-cases : (m : Mapped) → (m ≡ zeroed) ⊎ (m ≡ dirty) ⊎ (m ≡ refused)
Mapped-cases zeroed = inl refl
Mapped-cases dirty = inr (inl refl)
Mapped-cases refused = inr (inr refl)

kernel_from-mapped :
    (mem : ℕ → Mapped) (i n : ℕ)
    → (kernel_from mem i n).1 ≡ true
    → (kernel_from mem i n).0 ≡ replicate n kernel
unfolding kernel_from
kernel_from-mapped mem i zero h = refl
kernel_from-mapped mem i (suc n) h = elim (Mapped-cases (mem i)) [
  | inl e ↦ ground (arith, kernel_from-mapped mem (i + 1) n)
  | inr (inl e) ↦ absurd (ground arith)
  | inr (inr e) ↦ absurd (ground arith)
]

length-kernel_from : (mem : ℕ → Mapped) (i n : ℕ) → length (kernel_from mem i n).0 ≡ n
unfolding kernel_from
length-kernel_from mem i zero = refl
length-kernel_from mem i (suc n) = elim (Mapped-cases (mem i)) [
  | inl e ↦ ground (arith, length-kernel_from mem (i + 1) n)
  | inr (inl e) ↦ ground (arith, length-replicate n null)
  | inr (inr e) ↦ ground (arith, length-replicate n null)
]

length-unmapped : (ss : List Slot) → length (map unmapped ss) ≡ length ss
length-unmapped [] = refl
length-unmapped (s ∷ ss) = ap suc (length-unmapped ss)

user_from-all :
    (malloc : ℕ → Bool) (i : ℕ) (ss : List Slot)
    → (user_from malloc i ss).1 ≡ true
    → (user_from malloc i ss).0 ≡ replicate (length ss) user
unfolding user_from
user_from-all malloc i [] h = refl
user_from-all malloc i (s ∷ ss) h = elim (Bool-cases (malloc i)) [
  | inl e ↦ rw e (ap (◌∷◌ user) (user_from-all malloc (i + 1) ss (rw e at h)))
  | inr e ↦ absurd (ground arith)
]

-- The entries of a complete allocation.
abbrev pub slots_of : Bool → ℕ → List Slot
slots_of zerocopy n = replicate n (if zerocopy then kernel else user)

pub alloc-outcome :
    (env : Env) (dev : Dev)
    → is_negative (alloc_submit_transfers env dev).result ≡ false
    → (zerocopy : Bool) × (alloc_submit_transfers env dev
        ≡ filled_in env dev zerocopy (slots_of zerocopy dev.xfer_buf_num))
unfolding alloc_submit_transfers
alloc-outcome env dev h =
    let (mapped, ok) = kernel_from env.dev_mem 0 dev.xfer_buf_num in
    let (slots, ok') = user_from env.malloc 0 (map unmapped mapped) in
    elim (Bool-cases ok) [
      | inl e ↦ (
        true,
        rw e (ap (filled_in env dev true) (kernel_from-mapped env.dev_mem 0 dev.xfer_buf_num e)),
      )
      | inr e ↦ elim (Bool-cases ok') [
        | inl e' ↦
            let all = user_from-all env.malloc 0 (map unmapped mapped) e' in
            let len = length-unmapped mapped ∙ length-kernel_from env.dev_mem 0 dev.xfer_buf_num in
            (false, rw (e, e') (ap (filled_in env dev false) (all ∙ ap (slots_of false) len)))
        | inr e' ↦ absurd (ground arith)
      ]
    ]

pub length-submit_from :
    (submit : ℕ → ℤ) (i n : ℕ) (xs : List Xfer) → length (submit_from submit i n xs) ≡ length xs
unfolding submit_from
length-submit_from submit i zero xs = refl
length-submit_from submit i (suc n) [] = refl
length-submit_from submit i (suc n) (x ∷ xs) =
    ground (arith, length-submit_from submit (i + 1) n xs)

pub spare-submit_from :
    (submit : ℕ → ℤ) (i n j : ℕ) (xs : List Xfer)
    → get_elem? (submit_from submit i n xs) (n + j) ≡ get_elem? xs (n + j)
unfolding submit_from
spare-submit_from submit i zero j xs = refl
spare-submit_from submit i (suc n) j [] = refl
spare-submit_from submit i (suc n) j (x ∷ xs) =
    let shift : suc n + j ≡ suc (n + j) = omega arith in
    rw shift (ground (arith, spare-submit_from submit (i + 1) n j xs))

new-NoneFilled : (n len : ℕ) → NoneFilled (replicate n (new_xfer len))
new-NoneFilled zero len = tt
new-NoneFilled (suc n) len = (refl, new-NoneFilled n len)

pub submit_from-NoneFilled :
    (submit : ℕ → ℤ) (i n m len : ℕ)
    → NoneFilled (submit_from submit i n (replicate m (new_xfer len)))
unfolding submit_from
submit_from-NoneFilled submit i zero m len = new-NoneFilled m len
submit_from-NoneFilled submit i (suc n) zero len = tt
submit_from-NoneFilled submit i (suc n) (suc m) len = elim (Bool-cases (is_negative (submit i))) [
  | inl e ↦ rw e (refl, new-NoneFilled m len)
  | inr e ↦ rw e (refl, submit_from-NoneFilled submit (i + 1) n m len)
]

pub in-replicate {ℓ} : {A : Type ℓ} (n i : ℕ) (a : A) → i < n → get_elem? (replicate n a) i ≡ some a
in-replicate zero i a h = absurd (omega arith)
in-replicate (suc n) zero a h = refl
in-replicate (suc n) (suc i) a h = in-replicate n i a (omega arith)

pub release_all :
    (zerocopy : Bool) (n : ℕ)
    → map (release zerocopy) (slots_of zerocopy n)
      ≡ replicate n (if zerocopy then releases_kernel else releases_user)
release_all zerocopy zero = refl
release_all true (suc n) = ap (◌∷◌ releases_kernel) (release_all true n)
release_all false (suc n) = ap (◌∷◌ releases_user) (release_all false n)
