-- ===== src/SampleRate/Closest.antt =====
-- Which setting `fl2k_set_sample_rate` finds.
use osmo_fl2k.Prelude.{
  ℕ, zero, suc, ◌+◌, ◌-◌, ◌≤◌, ◌<◌, true, false, ◌≡◌, ◌⊎◌, inl, inr, refl, ap, arith, Bool-cases,
  ℕ_discrete,
}
use osmo_fl2k.SampleRate.{
  Floats, reg_of, error_of, Best, consider, frac_loop, div_loop, mult_loop, search,
}

-- A setting that the loops try.
pub record Tried (mult div frac : ℕ) : Type 0 where
  pub mult_from : 3 ≤ mult
  pub mult_to : mult ≤ 6
  pub div_from : 1 < div
  pub div_to : div ≤ 63
  pub frac_from : 1 ≤ frac
  pub frac_to : frac ≤ 15

-- `<` on doubles, none of them NaN.
pub record Ordered (fl : Floats) : Type 0 where
  pub strict : (a b : fl.Double) → fl.double_lt a b ≡ true → fl.double_lt b a ≡ false
  pub below :
      (a b c : fl.Double)
      → fl.double_lt a b ≡ false
      → fl.double_lt b c ≡ false
      → fl.double_lt a c ≡ false

module _ (fl : Floats) (ordered : Ordered fl) (target : ℕ) where
  open fl use {double_lt}

  -- What each round keeps, the loops keep.
  module _ (P : Best fl → Type 0) where
    abbrev Kept : Type 0
    Kept =
        (mult div frac : ℕ) (b : Best fl)
        → Tried mult div frac
        → P b
        → P (consider fl target (reg_of mult div frac) b)

    frac_loop-keeps :
        (mult div left : ℕ) (b : Best fl)
        → Kept
        → 3 ≤ mult
        → mult ≤ 6
        → 1 < div
        → div ≤ 63
        → left ≤ 15
        → P b
        → P (frac_loop fl target mult div left b)
    unfolding frac_loop
    frac_loop-keeps mult div zero b keep l l' m m' n p = p
    frac_loop-keeps mult div (suc left) b keep l l' m m' n p =
        frac_loop-keeps mult div left (consider fl target (reg_of mult div (15 - left)) b) keep l l'
          m m' (omega arith) (keep mult div (15 - left) b (omega arith) p)

    div_loop-keeps :
        (mult left : ℕ) (b : Best fl)
        → Kept
        → 3 ≤ mult
        → mult ≤ 6
        → left ≤ 62
        → P b
        → P (div_loop fl target mult left b)
    unfolding div_loop
    div_loop-keeps mult zero b keep l l' m p = p
    div_loop-keeps mult (suc left) b keep l l' m p =
        div_loop-keeps mult left (frac_loop fl target mult (left + 2) 15 b) keep l l' (omega arith)
          (frac_loop-keeps mult (left + 2) 15 b keep l l' (omega arith) (omega arith) (omega arith)
            p)

    mult_loop-keeps :
        (left : ℕ) (b : Best fl) → Kept → left ≤ 4 → P b → P (mult_loop fl target left b)
    unfolding mult_loop
    mult_loop-keeps zero b keep l p = p
    mult_loop-keeps (suc left) b keep l p =
        mult_loop-keeps left (div_loop fl target (left + 3) 62 b) keep (omega arith)
          (div_loop-keeps (left + 3) 62 b keep (omega arith) (omega arith) (omega arith) p)

  -- The error `e` is not less than the one of the best setting.
  abbrev pub NotLess : fl.Double → Best fl → Type 0
  NotLess e b = double_lt e b.last_error ≡ false

  irreflexive : (a : fl.Double) → double_lt a a ≡ false
  irreflexive a = elim (Bool-cases (double_lt a a)) [ inl e ↦ ordered.strict a a e | inr e ↦ e ]

  consider-keeps :
      (e : fl.Double) (reg : ℕ) (b : Best fl) → NotLess e b → NotLess e (consider fl target reg b)
  unfolding consider
  consider-keeps e reg b h = elim (Bool-cases (double_lt (error_of fl target reg) b.last_error)) [
    | inl l ↦ rw l (
        ordered.below e b.last_error (error_of fl target reg) h
          (ordered.strict (error_of fl target reg) b.last_error l))
    | inr l ↦ rw l h
  ]

  consider-covers :
      (reg : ℕ) (b : Best fl) → NotLess (error_of fl target reg) (consider fl target reg b)
  unfolding consider
  consider-covers reg b = elim (Bool-cases (double_lt (error_of fl target reg) b.last_error)) [
    | inl l ↦ rw l (irreflexive (error_of fl target reg))
    | inr l ↦ rw l l
  ]

  abbrev err : ℕ → ℕ → ℕ → fl.Double
  err mult div frac = error_of fl target (reg_of mult div frac)

  frac_loop-covers :
      (mult div frac left : ℕ) (b : Best fl)
      → Tried mult div frac
      → left ≤ 15
      → 16 ≤ frac + left
      → NotLess (err mult div frac) (frac_loop fl target mult div left b)
  unfolding frac_loop
  frac_loop-covers mult div frac zero b t l h = absurd (omega (arith, t))
  frac_loop-covers mult div frac (suc left) b t l h = elim (ℕ_discrete (15 - left) frac) [
    | yes e ↦
        frac_loop-keeps (NotLess (err mult div frac)) mult div left
          (consider fl target (reg_of mult div (15 - left)) b)
          (λ m d f c u. consider-keeps (err mult div frac) (reg_of m d f) c) t.mult_from t.mult_to
          t.div_from t.div_to (omega arith) (rw e (consider-covers (reg_of mult div frac) b))
    | no ne ↦
        frac_loop-covers mult div frac left (consider fl target (reg_of mult div (15 - left)) b) t
          (omega arith) (omega arith)
  ]

  div_loop-covers :
      (mult div frac left : ℕ) (b : Best fl)
      → Tried mult div frac
      → left ≤ 62
      → div < left + 2
      → NotLess (err mult div frac) (div_loop fl target mult left b)
  unfolding div_loop
  div_loop-covers mult div frac zero b t l h = absurd (omega (arith, t))
  div_loop-covers mult div frac (suc left) b t l h = elim (ℕ_discrete (left + 2) div) [
    | yes e ↦
        div_loop-keeps (NotLess (err mult div frac)) mult left
          (frac_loop fl target mult (left + 2) 15 b)
          (λ m d f c u. consider-keeps (err mult div frac) (reg_of m d f) c) t.mult_from t.mult_to
          (omega arith)
          (rw e (frac_loop-covers mult div frac 15 b t (omega arith) (omega (arith, t))))
    | no ne ↦
        div_loop-covers mult div frac left (frac_loop fl target mult (left + 2) 15 b) t
          (omega arith) (omega arith)
  ]

  mult_loop-covers :
      (mult div frac left : ℕ) (b : Best fl)
      → Tried mult div frac
      → left ≤ 4
      → mult < left + 3
      → NotLess (err mult div frac) (mult_loop fl target left b)
  unfolding mult_loop
  mult_loop-covers mult div frac zero b t l h = absurd (omega (arith, t))
  mult_loop-covers mult div frac (suc left) b t l h = elim (ℕ_discrete (left + 3) mult) [
    | yes e ↦
        mult_loop-keeps (NotLess (err mult div frac)) left (div_loop fl target (left + 3) 62 b)
          (λ m d f c u. consider-keeps (err mult div frac) (reg_of m d f) c) (omega arith)
          (rw e (div_loop-covers mult div frac 62 b t (omega arith) (omega (arith, t))))
    | no ne ↦
        mult_loop-covers mult div frac left (div_loop fl target (left + 3) 62 b) t (omega arith)
          (omega arith)
  ]

  -- The setting is one that the loops try.
  abbrev pub Chosen : Best fl → Type 0
  Chosen b =
      (mult : ℕ) × (div : ℕ) × (frac : ℕ) × Tried mult div frac
      × (b.result_reg ≡ reg_of mult div frac)
      × (b.last_error ≡ err mult div frac)

  module _ (start : fl.Double) where
    abbrev first : Best fl
    first = record { result_reg = 0; last_error = start }

    consider-chooses :
        (mult div frac : ℕ) (b : Best fl)
        → Tried mult div frac
        → Chosen b ⊎ (b ≡ first)
        → let b' = consider fl target (reg_of mult div frac) b in Chosen b' ⊎ (b' ≡ first)
    unfolding consider
    consider-chooses mult div frac b t c =
        elim (Bool-cases (double_lt (err mult div frac) b.last_error)) [
          | inl l ↦ rw l (inl (mult, div, frac, t, refl, refl))
          | inr l ↦ rw l c
        ]

  -- The register that is written is the one of a setting that is tried, and no setting that is tried has a smaller
  -- error, if the comparison of doubles is an order and the first setting has an error below the start.
  pub search-Closest :
      (start : fl.Double)
      → double_lt (err 6 63 1) start ≡ true
      → Chosen (search fl start target)
        × ((mult div frac : ℕ)
            → Tried mult div frac
            → NotLess (err mult div frac) (search fl start target))
  unfolding search
  search-Closest start h =
      let all : (mult div frac : ℕ)
          → Tried mult div frac
          → NotLess (err mult div frac) (search fl start target) =
        λ mult div frac t.
          mult_loop-covers mult div frac 4 (first start) t (omega arith) (omega (arith, t)) in
      let t : Tried 6 63 1 = omega arith in
      elim (mult_loop-keeps (λ b. Chosen b ⊎ (b ≡ first start)) 4 (first start)
        (consider-chooses start) (omega arith) (inr refl)) [
          | inl c ↦ (c, all)
          | inr e ↦
              absurd
                (ground (arith, h, ap (λ b. double_lt (err 6 63 1) b.last_error) e, all 6 63 1 t))
        ]
