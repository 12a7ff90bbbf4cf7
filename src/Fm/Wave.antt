-- ===== src/Fm/Wave.antt =====
-- What the oscillator of src/fl2k_fm.c gives.
use mathlib.Core.List.{append_assoc}
use native.Mathlib.Nat.{suc-mul, add-mul}
use osmo_fl2k.Prelude.{
  ℕ, zero, suc, ◌+◌, ◌*◌, ◌/◌, ◌%◌, ◌^◌, ◌<◌, List, [], ◌∷◌, ◌++◌, some, ◌≡◌, refl, sym, ap, ◌∙◌,
  arith, length, get_elem?, get_or, length-append, bit_and_mask,
}
use osmo_fl2k.Players.Bytes.{store-append}
use osmo_fl2k.Fm.{Doubles, Dds, advance, dds_real, dds_real_buf}

-- 0 + 1 + … + (n - 1)
abbrev pub triangle : ℕ → ℕ
triangle zero = 0
triangle (suc n) = triangle n + n

get_elem?-get_or : (xs : List ℕ) (i v : ℕ) → i < length xs → get_elem? xs i ≡ some (get_or xs i v)
get_elem?-get_or [] i v h = absurd (omega arith)
get_elem?-get_or (x ∷ xs) zero v h = refl
get_elem?-get_or (x ∷ xs) (suc i) v h = get_elem?-get_or xs i v (omega arith)

module _ (fl : Doubles) where
  -- The oscillator behind `n` samples.
  unfoldable pub after : ℕ → Dds fl → Dds fl
  after zero d = d
  after (suc n) d = after n (advance fl d)

  -- The samples.
  unfoldable pub wave : List ℕ → ℕ → Dds fl → List ℕ
  wave table zero d = []
  wave table (suc n) d = get_or table (d.phase / 2 ^ 24) 0 ∷ wave table n (advance fl d)

  pub length-wave : (table : List ℕ) (n : ℕ) (d : Dds fl) → length (wave table n d) ≡ n
  unfolding wave
  length-wave table zero d = refl
  length-wave table (suc n) d = ap suc (length-wave table n (advance fl d))

  pub wave_add :
      (table : List ℕ) (m n : ℕ) (d : Dds fl)
      → wave table (m + n) d ≡ wave table m d ++ wave table n (after m d)
  unfolding wave after
  wave_add table zero n d = let e : 0 + n ≡ n = omega arith in ap (λ k. wave table k d) e
  wave_add table (suc m) n d =
      let e : suc m + n ≡ suc (m + n) = omega arith in
      ap (λ k. wave table k d) e
      ∙ ap (◌∷◌ (get_or table (d.phase / 2 ^ 24) 0)) (wave_add table m n (advance fl d))

  pub after_add : (m n : ℕ) (d : Dds fl) → after (m + n) d ≡ after n (after m d)
  unfolding after
  after_add zero n d = let e : 0 + n ≡ n = omega arith in ap (λ k. after k d) e
  after_add (suc m) n d =
      let e : suc m + n ≡ suc (m + n) = omega arith in
      ap (λ k. after k d) e ∙ after_add m n (advance fl d)

  pub advance-phase : (d : Dds fl) → (advance fl d).phase ≡ (d.phase + d.phase_step) % 2 ^ 32
  unfolding advance
  advance-phase d = omega (arith, bit_and_mask 32 ((d.phase + d.phase_step) % 2 ^ 64))

  advance-phase_step :
      (d : Dds fl) → (advance fl d).phase_step ≡ (d.phase_step + d.phase_slope) % 2 ^ 64
  unfolding advance
  advance-phase_step d = refl

  advance-phase_slope : (d : Dds fl) → (advance fl d).phase_slope ≡ d.phase_slope
  unfolding advance
  advance-phase_slope d = refl

  after-advance : (n : ℕ) (d : Dds fl) → after n (advance fl d) ≡ advance fl (after n d)
  unfolding after
  after-advance zero d = refl
  after-advance (suc n) d = after-advance n (advance fl d)

  -- The phase and its step behind `n` samples.
  after-phase :
      (n : ℕ) (d : Dds fl)
      → d.phase < 2 ^ 32
      → d.phase_step < 2 ^ 64
      → ((after n d).phase ≡ (d.phase + n * d.phase_step + triangle n * d.phase_slope) % 2 ^ 32)
        × ((after n d).phase_step ≡ (d.phase_step + n * d.phase_slope) % 2 ^ 64)
        × ((after n d).phase_slope ≡ d.phase_slope)
  unfolding after
  after-phase zero d p s = omega arith
  after-phase (suc n) d p s =
      let (a, b, c) = after-phase n d p s in
      let e = after-advance n d in
      let a' : (after n (advance fl d)).phase
          ≡ ((after n d).phase + (after n d).phase_step) % 2 ^ 32 =
        ap (λ t. t.phase) e ∙ advance-phase (after n d) in
      let b' : (after n (advance fl d)).phase_step
          ≡ ((after n d).phase_step + (after n d).phase_slope) % 2 ^ 64 =
        ap (λ t. t.phase_step) e ∙ advance-phase_step (after n d) in
      let c' : (after n (advance fl d)).phase_slope ≡ (after n d).phase_slope =
        ap (λ t. t.phase_slope) e ∙ advance-phase_slope (after n d) in
      let m = suc-mul n d.phase_step in
      let m' = suc-mul n d.phase_slope in
      let m'' = add-mul (triangle n) n d.phase_slope in
      omega (arith, a, b, c, a', b', c', m, m', m'')

  advance-phase-lt : (d : Dds fl) → (advance fl d).phase < 2 ^ 32
  advance-phase-lt d = omega (arith, advance-phase d)

  dds_real-sample :
      (table : List ℕ) (d : Dds fl)
      → length table ≡ 256
      → d.phase < 2 ^ 32
      → dds_real fl table d ≡ some (get_or table (d.phase / 2 ^ 24) 0, advance fl d)
  unfolding dds_real
  dds_real-sample table d l p = rw (get_elem?-get_or table (d.phase / 2 ^ 24) 0 (omega arith)) refl

  -- `dds_real_buf` stores the samples behind the bytes that are there.
  pub dds_real_buf-wave :
      (table : List ℕ) (n : ℕ) (d : Dds fl) (done front rest : List ℕ)
      → length table ≡ 256
      → d.phase < 2 ^ 32
      → length front ≡ n
      → dds_real_buf fl table n (length done) (done ++ (front ++ rest)) d
        ≡ some (done ++ (wave table n d ++ rest), after n d)
  unfolding dds_real_buf wave after
  dds_real_buf-wave table zero d done [] rest l p e = refl
  dds_real_buf-wave table zero d done (f ∷ front) rest l p e = absurd (omega arith)
  dds_real_buf-wave table (suc n) d done [] rest l p e = absurd (omega arith)
  dds_real_buf-wave table (suc n) d done (f ∷ front) rest l p e =
      let x = get_or table (d.phase / 2 ^ 24) 0 in
      let here : done ++ x ∷ (front ++ rest) ≡ (done ++ x ∷ []) ++ (front ++ rest) =
        sym (append_assoc done (x ∷ []) (front ++ rest)) in
      let k : length done + 1 ≡ length (done ++ x ∷ []) = sym (length-append done (x ∷ [])) in
      let later =
        dds_real_buf-wave table n (advance fl d) (done ++ x ∷ []) front rest l (advance-phase-lt d)
          (omega arith) in
      let all : (done ++ x ∷ []) ++ (wave table n (advance fl d) ++ rest)
          ≡ done ++ x ∷ (wave table n (advance fl d) ++ rest) =
        append_assoc done (x ∷ []) (wave table n (advance fl d) ++ rest) in
      rw (dds_real-sample table d l p, store-append done (front ++ rest) f x, here, k, later, all)
        refl

  wave-get :
      (table : List ℕ) (n j : ℕ) (d : Dds fl)
      → j < n
      → get_elem? (wave table n d) j ≡ some (get_or table ((after j d).phase / 2 ^ 24) 0)
  unfolding wave after
  wave-get table zero j d h = absurd (omega arith)
  wave-get table (suc n) zero d h = refl
  wave-get table (suc n) (suc j) d h = wave-get table n j (advance fl d) (omega arith)

  pub after-phase-lt : (n : ℕ) (d : Dds fl) → d.phase < 2 ^ 32 → (after n d).phase < 2 ^ 32
  unfolding after
  after-phase-lt zero d p = p
  after-phase-lt (suc n) d p = after-phase-lt n (advance fl d) (advance-phase-lt d)

  -- The samples that `dds_real_buf` stores at the front of a buffer that has room for them are those of the sine table at the
  -- phases of a linear chirp: sample `j` at the top 8 bits of the 32-bit phase
  -- `phase + j * step + (0 + … + (j - 1)) * slope`; for a table of 256 entries and an oscillator within its words.
  pub dds_real_buf-chirp :
      (table : List ℕ) (n : ℕ) (d : Dds fl) (front rest : List ℕ)
      → length table ≡ 256
      → d.phase < 2 ^ 32
      → d.phase_step < 2 ^ 64
      → length front ≡ n
      → (samples : List ℕ) × (d' : Dds fl) × (dds_real_buf fl table n 0 (front ++ rest) d
          ≡ some (samples ++ rest, d'))
        × (length samples ≡ n)
        × ((j : ℕ)
            → j < n
            → get_elem? samples j
              ≡ get_elem? table
                  ((d.phase + j * d.phase_step + triangle j * d.phase_slope) % 2 ^ 32 / 2 ^ 24))
  dds_real_buf-chirp table n d front rest l p s e = (
    wave table n d,
    after n d,
    dds_real_buf-wave table n d [] front rest l p e,
    length-wave table n d,
    by_sample,
  )
    where
      by_sample :
          (j : ℕ)
          → j < n
          → get_elem? (wave table n d) j
            ≡ get_elem? table
                ((d.phase + j * d.phase_step + triangle j * d.phase_slope) % 2 ^ 32 / 2 ^ 24)
      by_sample j h =
          let a = (after-phase j d p s).0 in
          let q = after-phase-lt j d p in
          let in_table = get_elem?-get_or table ((after j d).phase / 2 ^ 24) 0 (omega arith) in
          wave-get table n j d h ∙ (sym in_table ∙ ap (λ t. get_elem? table (t / 2 ^ 24)) a)
