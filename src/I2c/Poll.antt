-- ===== src/I2c/Poll.antt =====
-- The polling for completion, against the replies that the register would give to reads in a row.
use osmo_fl2k.Prelude.{
  ℕ, zero, suc, ◌<◌, Bool, true, false, ◌||◌, ◌≡◌, refl, inl, inr, ◌∙◌, arith, if◌then◌else◌, ℤ,
  is_negative, Bool-cases,
}
use osmo_fl2k.Registers.{Bus, read_reg}
use osmo_fl2k.I2c.{Polled, failed, complete, timed_out, is_complete, poll}

-- A reply that ends the polling, and how it ends it.
abbrev pub is_final : ℤ → ℕ → Bool
is_final r reg = is_negative r || is_complete reg

abbrev pub verdict : ℤ → ℕ → Polled
verdict r reg = if is_negative r then failed r else complete reg

module _ {S : Type 0} (bus : Bus S) where
  -- The device after `n` reads of register 0x8020.
  unfoldable pub after : ℕ → S → S
  after zero s = s
  after (suc n) s = after n (read_reg bus s 0x8020).2

  -- The reply to read number `i`, the first having number 0, ends the polling.
  abbrev pub ends_at : S → ℕ → Bool
  ends_at s i = let (r, reg, _) = read_reg bus (after i s) 0x8020 in is_final r reg

  -- How the polling ends from `s` on: with the first final reply of the first `n`, or timed out.
  pub data Outcome (n : ℕ) (s : S) (out : Polled × S) : Type 0 where
    ends :
        (k : ℕ)
        → k < n
        → ((i : ℕ) → i < k → ends_at s i ≡ false)
        → ends_at s k ≡ true
        → out ≡ (let (r, reg, s') = read_reg bus (after k s) 0x8020 in (verdict r reg, s'))
        → Outcome n s out
    times_out :
        ((i : ℕ) → i < n → ends_at s i ≡ false) → out ≡ (timed_out, after n s) → Outcome n s out

  round_final :
      (n : ℕ) (s : S)
      → ends_at s 0 ≡ true
      → poll bus (suc n) s ≡ (let (r, reg, s') = read_reg bus s 0x8020 in (verdict r reg, s'))
  unfolding poll after
  round_final n s h = ground arith

  round_more :
      (n : ℕ) (s : S)
      → ends_at s 0 ≡ false
      → poll bus (suc n) s ≡ poll bus n (read_reg bus s 0x8020).2
  unfolding poll after
  round_more n s h = ground arith

  -- The polling ends with the first of `n` replies that is final, or reads `n` times and times out.
  pub poll-Outcome : (n : ℕ) (s : S) → Outcome n s (poll bus n s)
  poll-Outcome zero s = times_out (λ i h. absurd (omega arith)) (unfold poll after in refl)
  poll-Outcome (suc n) s = elim (Bool-cases (ends_at s 0)) [
    | inl h ↦
        ends 0 (omega arith) (λ i l. absurd (omega arith)) h (unfold after in round_final n s h)
    | inr h ↦ later h (poll-Outcome n (read_reg bus s 0x8020).2)
  ]
    where
      none_of :
          ends_at s 0 ≡ false
          → (m : ℕ) → ((i : ℕ) → i < m → ends_at (read_reg bus s 0x8020).2 i ≡ false)
          → (i : ℕ) → i < suc m
          → ends_at s i ≡ false
      none_of h m f zero l = h
      none_of h m f (suc i) l = unfold after in f i (omega arith)

      later :
          ends_at s 0 ≡ false
          → Outcome n (read_reg bus s 0x8020).2 (poll bus n (read_reg bus s 0x8020).2)
          → Outcome (suc n) s (poll bus (suc n) s)
      later h (ends k l f e out) =
          ends (suc k) (omega arith) (none_of h k f) (unfold after in e)
            (unfold after in round_more n s h ∙ out)
      later h (times_out f out) = times_out (none_of h n f) (unfold after in round_more n s h ∙ out)
