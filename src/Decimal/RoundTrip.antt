-- ===== src/Decimal/RoundTrip.antt =====
-- `std::stoi` reads back what `std::to_string` writes.
use Prim.Native.Char.{code}
use Prim.Native.String.{String}
use osmo_fl2k.Prelude.{
  ℕ, zero, suc, ◌+◌, ◌*◌, ◌/◌, ◌%◌, ◌^◌, ◌<◌, List, [], ◌∷◌, true, ltb, ◌≡◌, refl, arith, ap, leb,
  ◌∙◌, inl, inr, Bool-cases, pos,
}
use osmo_fl2k.Soapy.Setup.{number}
use osmo_fl2k.Decimal.{
  codes, digit, digits_before, to_string, is_digit, value_from, starts_digit, int_of, stoi,
}

code-digit : (d : ℕ) → d < 10 → code (digit d) ≡ 48 + d
unfolding digit
code-digit zero h = refl
code-digit (suc zero) h = refl
code-digit (suc (suc zero)) h = refl
code-digit (suc (suc (suc zero))) h = refl
code-digit (suc (suc (suc (suc zero)))) h = refl
code-digit (suc (suc (suc (suc (suc zero))))) h = refl
code-digit (suc (suc (suc (suc (suc (suc zero)))))) h = refl
code-digit (suc (suc (suc (suc (suc (suc (suc zero))))))) h = refl
code-digit (suc (suc (suc (suc (suc (suc (suc (suc zero)))))))) h = refl
code-digit (suc (suc (suc (suc (suc (suc (suc (suc (suc zero))))))))) h = refl
code-digit (suc (suc (suc (suc (suc (suc (suc (suc (suc (suc d)))))))))) h = absurd (omega arith)

is_digit-code : (d : ℕ) → d < 10 → is_digit (48 + d) ≡ true
is_digit-code d h =
    let low : leb 48 (48 + d) ≡ true = ground arith in
    let high : leb (48 + d) 57 ≡ true = ground arith in rw (low, high) refl

value_from-digit :
    (n d : ℕ) (cs : List ℕ)
    → d < 10
    → value_from n (code (digit d) ∷ cs) ≡ value_from (n * 10 + d) cs
unfolding value_from
value_from-digit n d cs h =
    rw (code-digit d h, is_digit-code d h) (ap (λ k. value_from (n * 10 + k) cs) (omega arith))

value_from-digits_before :
    (fuel n : ℕ) (text : String)
    → n < fuel
    → value_from 0 (codes (digits_before fuel n text)) ≡ value_from n (codes text)
unfolding digits_before
value_from-digits_before zero n text h = absurd (omega arith)
value_from-digits_before (suc fuel) n text h = elim (Bool-cases (ltb n 10)) [
  | inl e ↦ rw e (
      value_from-digit 0 n (codes text) (ground arith)
      ∙ ap (λ k. value_from k (codes text)) (omega arith))
  | inr e ↦ rw e (
      value_from-digits_before fuel (n / 10) (String.◌∷◌ (digit (n % 10)) text) (ground arith)
      ∙ value_from-digit (n / 10) (n % 10) (codes text) (omega arith)
      ∙ ap (λ k. value_from k (codes text)) (omega arith))
]

starts_digit-digits_before :
    (fuel n : ℕ) (text : String)
    → n < fuel
    → starts_digit (codes (digits_before fuel n text)) ≡ true
unfolding digits_before
starts_digit-digits_before zero n text h = absurd (omega arith)
starts_digit-digits_before (suc fuel) n text h = elim (Bool-cases (ltb n 10)) [
  | inl e ↦ rw (e, code-digit n (ground arith)) (is_digit-code n (ground arith))
  | inr e ↦
      rw e
        (starts_digit-digits_before fuel (n / 10) (String.◌∷◌ (digit (n % 10)) text) (ground arith))
]

int_of-digits :
    (cs : List ℕ)
    → starts_digit cs ≡ true
    → value_from 0 cs < 2 ^ 31
    → int_of cs ≡ number (pos (value_from 0 cs))
unfolding int_of
int_of-digits [] s h = cc
int_of-digits (c ∷ cs) s h = ground arith

-- The text of a number in the range of `int` is read as that number.
pub stoi-to_string : (n : ℕ) → n < 2 ^ 31 → stoi (to_string n) ≡ number (pos n)
unfolding stoi to_string value_from
stoi-to_string n h =
    let v = value_from-digits_before (suc n) n "" (omega arith) in
    int_of-digits (codes (to_string n)) (starts_digit-digits_before (suc n) n "" (omega arith))
      (rw v h)
    ∙ ap (λ k. number (pos k)) v
