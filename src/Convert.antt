-- ===== src/Convert.antt =====
-- src/libosmo-fl2k.c, `fl2k_convert_r`, `fl2k_convert_g` and `fl2k_convert_b`: the samples of the
-- three channels are moved to the places where the DACs expect them, 8 of each to a block of 24.
-- An access outside a buffer makes the result `none`.
pub mod Block
pub mod Frame
pub mod Channels
use osmo_fl2k.Prelude.{
  ℕ, zero, suc, ◌+◌, ◌%◌, ◌^◌, List, [], ◌∷◌, Option, none, some, Bool, true, false, ltb, get_elem?,
  length, set, ◌>>=◌,
}

-- `buf[i] = v`
unfoldable pub store : List ℕ → ℕ → ℕ → Option (List ℕ)
store buf i v = elim (ltb i (length buf)) [ true ↦ some (set buf i v) | false ↦ none ]

-- The body of the loop: `out[i + slot] = in[j++] + offset` for each slot in turn. The bytes are kept
-- unsigned, so the `char` sum is taken modulo 256.
unfoldable pub convert_block : List ℕ → ℕ → List ℕ → List ℕ → ℕ → ℕ → Option (List ℕ)
convert_block input offset out [] i j = some out
convert_block input offset out (slot ∷ slots) i j = do
  sample ← get_elem? input j
  out' ← store out (i + slot) ((sample + offset) % 2 ^ 8)
  convert_block input offset out' slots i (j + 1)

-- The loop, with fuel for its rounds; `none` also if that runs out.
unfoldable pub convert_from : List ℕ → List ℕ → ℕ → ℕ → ℕ → List ℕ → ℕ → ℕ → Option (List ℕ)
convert_from slots input offset len zero out i j = none
convert_from slots input offset len (suc fuel) out i j = elim (ltb i len) [
  | true ↦ convert_block input offset out slots i j >>= λ out'.
      convert_from slots input offset len fuel out' ((i + 24) % 2 ^ 32) (j + 8)
  | false ↦ some out
]

-- One conversion: a `NULL` input leaves the buffer as it is.
unfoldable pub convert : List ℕ → List ℕ → Option (List ℕ) → ℕ → ℕ → Option (List ℕ)
convert slots out none len offset = some out
convert slots out (some input) len offset = convert_from slots input offset len (suc len) out 0 0

-- Where the eight samples of a block go.
abbrev pub r_slots : List ℕ
r_slots = 6 ∷ 1 ∷ 12 ∷ 15 ∷ 10 ∷ 21 ∷ 16 ∷ 19 ∷ []

abbrev pub g_slots : List ℕ
g_slots = 5 ∷ 0 ∷ 3 ∷ 14 ∷ 9 ∷ 20 ∷ 23 ∷ 18 ∷ []

abbrev pub b_slots : List ℕ
b_slots = 4 ∷ 7 ∷ 2 ∷ 13 ∷ 8 ∷ 11 ∷ 22 ∷ 17 ∷ []

unfoldable pub convert_r : List ℕ → Option (List ℕ) → ℕ → ℕ → Option (List ℕ)
convert_r = convert r_slots

unfoldable pub convert_g : List ℕ → Option (List ℕ) → ℕ → ℕ → Option (List ℕ)
convert_g = convert g_slots

unfoldable pub convert_b : List ℕ → Option (List ℕ) → ℕ → ℕ → Option (List ℕ)
convert_b = convert b_slots

-- What `fl2k_sample_worker` does with the three channels of a reply for one transfer buffer.
unfoldable pub rearrange :
    List ℕ → Option (List ℕ) → Option (List ℕ) → Option (List ℕ) → ℕ → ℕ → Option (List ℕ)
rearrange out r g b len offset = do
  with_r ← convert_r out r len offset
  with_g ← convert_g with_r g len offset
  convert_b with_g b len offset
