-- ===== src/Tests/Conversion.antt =====
-- The conversions of src/libosmo-fl2k.c on one block of signed samples.
use osmo_fl2k.Prelude.{ℕ, List, [], ◌∷◌, none, some, ◌≡◌, refl, arith, replicate}
use osmo_fl2k.Convert.{
  store, convert_block, convert_from, convert, convert_r, convert_g, convert_b, rearrange,
}
use osmo_fl2k.Convert.Channels.{Rearranged, rearrange-Rearranged}

-- -128, -127, -1, 0, 1, 2, 126, 127
abbrev samples : List ℕ
samples = 128 ∷ 129 ∷ 255 ∷ 0 ∷ 1 ∷ 2 ∷ 126 ∷ 127 ∷ []

signed_green :
    rearrange (replicate 24 9) none (some samples) none 24 128
    ≡ some (
        1 ∷ 9 ∷ 9 ∷ 127 ∷ 9 ∷ 0 ∷ 9 ∷ 9 ∷ 9 ∷ 129 ∷ 9 ∷ 9 ∷ 9 ∷ 9 ∷ 128 ∷ 9 ∷ 9 ∷ 9 ∷ 255 ∷ 9 ∷ 130
        ∷ 9 ∷ 9 ∷ 254 ∷ [])
unfolding rearrange convert_r convert_g convert_b convert convert_from convert_block store
signed_green = refl

-- Seven samples are one too few.
short_input : convert_r (replicate 24 0) (some (1 ∷ 2 ∷ 3 ∷ 4 ∷ 5 ∷ 6 ∷ 7 ∷ [])) 24 0 ≡ none
unfolding convert_r convert convert_from convert_block store
short_input = refl

rearrange-Rearranged_example :
    Rearranged
      (some samples)
      (some samples)
      none
      128
      (replicate 24 9)
      1
      (rearrange (replicate 24 9) (some samples) (some samples) none 24 128)
rearrange-Rearranged_example =
    rearrange-Rearranged (some samples) (some samples) none 128 (replicate 24 9) 1 (omega arith)
      (omega arith) (omega arith) (omega arith) tt
