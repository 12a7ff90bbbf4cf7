-- ===== src/Rds/Text.antt =====
-- The texts of a station: how they are stored, and how their chars get into a block.
use osmo_fl2k.Prelude.{
  ℕ, zero, suc, ◌+◌, ◌-◌, ◌*◌, ◌%◌, ◌^◌, ◌<◌, List, [], ◌∷◌, map, some, ltb, if◌then◌else◌, ◌≡◌,
  ◌≢◌, refl, ap, arith, length, get_elem?, get_or, bit_or, bit_or_fields, bit_or_sum, bit_or_ones,
  zero-bit_or, Bool-cases, inl, inr,
}
use osmo_fl2k.Rds.{Params, strncpy, blank, set_rds_rt, set_rds_ps, promoted, pair}

abbrev pub NoZero : List ℕ → Type 0
NoZero [] = Unit
NoZero (c ∷ s) = (c ≢ 0) × NoZero s

stored :
    (n : ℕ) (s : List ℕ) (i : ℕ)
    → NoZero s
    → i < n
    → get_elem? (map blank (strncpy n s)) i ≡ some (get_or s i 32)
unfolding strncpy
stored zero s i z l = absurd (omega arith)
stored (suc n) [] zero z l = refl
stored (suc n) [] (suc i) z l = stored n [] i tt (omega arith)
stored (suc n) (c ∷ s) zero z l = ground (arith, z.0)
stored (suc n) (c ∷ s) (suc i) z l = ground (arith, z.0, stored n s i z.1 (omega arith))

length-stored : (n : ℕ) (s : List ℕ) → length (map blank (strncpy n s)) ≡ n
unfolding strncpy
length-stored zero s = refl
length-stored (suc n) [] = ap suc (length-stored n [])
length-stored (suc n) (c ∷ s) = ground (arith, length-stored n [], length-stored n s)

-- A text and a name without a 0 in them are stored from the start on, cut to 64 and 8 chars, and
-- filled up with spaces to that length.
pub texts_stored :
    (p : Params) (s : List ℕ)
    → NoZero s
    → ((i : ℕ) → i < 64 → get_elem? (set_rds_rt p s).rt i ≡ some (get_or s i 32))
      × ((i : ℕ) → i < 8 → get_elem? (set_rds_ps p s).ps i ≡ some (get_or s i 32))
      × (length (set_rds_rt p s).rt ≡ 64)
      × (length (set_rds_ps p s).ps ≡ 8)
unfolding set_rds_rt set_rds_ps
texts_stored p s z =
    ((λ i l. stored 64 s i z l), (λ i l. stored 8 s i z l), length-stored 64 s, length-stored 8 s)

shifted :
    (x : ℕ)
    → x < 2 ^ 8
    → promoted x * 2 ^ 8 % 2 ^ 32 ≡ (if ltb x 128 then 0 else 2 ^ 16 - 1) * 2 ^ 16 + x * 2 ^ 8
shifted x h = ground arith

low_char : (x y : ℕ) → y < 2 ^ 8 → bit_or (x * 2 ^ 8) y ≡ x * 2 ^ 8 + y
low_char x y h = bit_or_sum 8 x y h

high_char :
    (x y : ℕ) → x < 2 ^ 8 → y < 2 ^ 8 → bit_or (x * 2 ^ 8) (255 * 2 ^ 8 + y) ≡ 255 * 2 ^ 8 + y
high_char x y h l =
    let zero' : x * 2 ^ 8 + 0 ≡ x * 2 ^ 8 = omega arith in
    omega (
      arith,
      ap (λ t. bit_or t (255 * 2 ^ 8 + y)) zero',
      bit_or_fields 8 x 0 255 y (omega arith) l,
      bit_or_ones 8 x h,
      zero-bit_or y,
    )

low_half :
    (h x g y : ℕ)
    → x < 2 ^ 16
    → y < 2 ^ 16
    → bit_or x y < 2 ^ 16
    → bit_or (h * 2 ^ 16 + x) (g * 2 ^ 16 + y) % 2 ^ 16 ≡ bit_or x y
low_half h x g y l m n = omega (arith, bit_or_fields 16 h x g y l m)

-- Two chars are stored as one 16-bit word, the first above the second, if the second is ASCII. If
-- it is not, its sign covers the first char: the upper byte is 255 whatever the first char is.
pub pair_value :
    (x y : ℕ)
    → x < 2 ^ 8
    → y < 2 ^ 8
    → pair x y ≡ (if ltb y 128 then x * 2 ^ 8 + y else 255 * 2 ^ 8 + y)
unfolding pair
pair_value x y h l = elim (Bool-cases (ltb y 128)) [
  | inl e ↦
      let zero' : 0 * 2 ^ 16 + y ≡ y = omega arith in
      let low = low_char x y l in
      let g : ℕ = if ltb x 128 then 0 else 2 ^ 16 - 1 in
      rw (e, shifted x h)
        (omega (
          arith,
          ap (bit_or (g * 2 ^ 16 + x * 2 ^ 8)) zero',
          low_half g (x * 2 ^ 8) 0 y (omega arith) (omega arith) (omega (arith, low)),
          low,
        ))
  | inr e ↦
      let split : (2 ^ 16 - 1) * 2 ^ 16 + (255 * 2 ^ 8 + y) ≡ y + (2 ^ 32 - 2 ^ 8) = omega arith in
      let high = high_char x y h l in
      let g : ℕ = if ltb x 128 then 0 else 2 ^ 16 - 1 in
      rw (e, shifted x h)
        (omega (
          arith,
          ap (bit_or (g * 2 ^ 16 + x * 2 ^ 8)) split,
          low_half g (x * 2 ^ 8) (2 ^ 16 - 1) (255 * 2 ^ 8 + y) (omega arith) (omega arith)
              (omega (arith, high)),
          high,
        ))
]
