-- ===== src/Convert/Channels.antt =====
-- The three conversions together, as `fl2k_sample_worker` runs them on one transfer buffer.
use mathlib.Core.Option
use mathlib.Core.Path.{subst}
use osmo_fl2k.Prelude.{
  in_range, ℕ, zero, suc, ◌+◌, ◌*◌, ◌≤◌, ◌<◌, ◌%◌, ◌^◌, List, [], ◌∷◌, Option, none, some, ◌≡◌,
  refl, ◌≢◌, ◌∙◌, ap, sym, arith, get_elem?, length,
}
use osmo_fl2k.Convert.{convert, convert_r, convert_g, convert_b}
use osmo_fl2k.Convert.{r_slots, g_slots, b_slots, rearrange}
use osmo_fl2k.Convert.Block.{NotIn, Distinct, AllBelow, NotIn-ne}
use osmo_fl2k.Convert.Frame.{Converted, convert_from-Converted, below_of_get}

-- The byte that a channel's sample `j` becomes; without a buffer the byte stays.
abbrev pub byte_of : Option (List ℕ) → ℕ → ℕ → Option ℕ → Option ℕ
byte_of none offset j old = old
byte_of (some input) offset j old = Option.map (λ s. (s + offset) % 2 ^ 8) (get_elem? input j)

-- A buffer, if given, holds the samples of `m` blocks.
abbrev pub Holds : ℕ → Option (List ℕ) → Type 0
Holds m none = Unit
Holds m (some input) = 8 * m ≤ length input

-- One channel of `m` blocks is in its places, and the places of the others are unchanged.
record Done (slots : List ℕ) (input : Option (List ℕ)) (offset : ℕ) (out : List ℕ) (m : ℕ)
    (result : Option (List ℕ)) : Type 0 where
  out' : List ℕ
  returns : result ≡ some out'
  same_length : length out' ≡ length out
  inside :
      (b p slot : ℕ)
      → b < m
      → get_elem? slots p ≡ some slot
      → get_elem? out' (24 * b + slot)
        ≡ byte_of input offset (8 * b + p) (get_elem? out (24 * b + slot))
  outside :
      (b s : ℕ) → s < 24 → NotIn s slots → get_elem? out' (24 * b + s) ≡ get_elem? out (24 * b + s)

lt-length_of_get : (xs : List ℕ) (p x : ℕ) → get_elem? xs p ≡ some x → p < length xs
lt-length_of_get [] p x e = absurd (cc)
lt-length_of_get (y ∷ ys) zero x e = omega arith
lt-length_of_get (y ∷ ys) (suc p) x e = omega (arith, lt-length_of_get ys p x e)

same_place : (b b' s s' : ℕ) → s < 24 → s' < 24 → s ≢ s' → 24 * b + s ≢ 24 * b' + s'
same_place b b' s s' l l' n h = n (omega arith)

module _ (slots : List ℕ) (offset : ℕ) (distinct : Distinct slots) (small : AllBelow 24 slots)
    (eight : length slots ≡ 8) where
  Converted-Done :
      (input out : List ℕ) (m : ℕ) (r : Option (List ℕ))
      → 8 * m ≤ length input
      → Converted slots input offset out 0 m r
      → Done slots (some input) offset out m r
  Converted-Done input out m r l c = record {
    out' = c.out';
    returns = c.returns;
    same_length = c.same_length;
    inside = λ b p slot h e.
        let (sample, f) =
          in_range input (8 * b + p) (omega (arith, lt-length_of_get slots p slot e)) in
        c.inside b p slot sample (omega arith) (omega arith) e f
        ∙ ap (Option.map (λ s. (s + offset) % 2 ^ 8)) (sym f);
    outside = λ b s h n. c.outside (24 * b + s) λ b' p slot _ _ e.
        same_place b b' s slot h (below_of_get 24 slots p slot small e)
          (NotIn-ne s slots n p slot e);
  }

  convert-Done :
      (input : Option (List ℕ)) (out : List ℕ) (m : ℕ)
      → 24 * m < 2 ^ 32
      → 24 * m ≤ length out
      → Holds m input
      → Done slots input offset out m (convert slots out input (24 * m) offset)
  unfolding convert
  convert-Done none out m w l h = record {
    out' = out;
    returns = refl;
    same_length = refl;
    inside = λ b p slot k e. refl;
    outside = λ b s k n. refl;
  }
  convert-Done (some input) out m w l h =
      let m0 : 0 + m ≡ m = omega arith in
      Converted-Done input out m _ h (
        rw m0 at (
          convert_from-Converted slots input offset distinct small eight m (suc (24 * m)) out 0
            (omega arith) (omega arith) (omega arith) (omega arith)))

-- Every channel with a buffer has its samples in its places of every block.
pub record Rearranged (r g b : Option (List ℕ)) (offset : ℕ) (out : List ℕ) (m : ℕ)
    (result : Option (List ℕ)) : Type 0 where
  pub out' : List ℕ
  pub returns : result ≡ some out'
  pub same_length : length out' ≡ length out
  pub red :
      (k p slot : ℕ)
      → k < m
      → get_elem? r_slots p ≡ some slot
      → get_elem? out' (24 * k + slot)
        ≡ byte_of r offset (8 * k + p) (get_elem? out (24 * k + slot))
  pub green :
      (k p slot : ℕ)
      → k < m
      → get_elem? g_slots p ≡ some slot
      → get_elem? out' (24 * k + slot)
        ≡ byte_of g offset (8 * k + p) (get_elem? out (24 * k + slot))
  pub blue :
      (k p slot : ℕ)
      → k < m
      → get_elem? b_slots p ≡ some slot
      → get_elem? out' (24 * k + slot)
        ≡ byte_of b offset (8 * k + p) (get_elem? out (24 * k + slot))

-- No place of one list is in the other.
abbrev Apart : List ℕ → List ℕ → Type 0
Apart [] ys = Unit
Apart (x ∷ xs) ys = NotIn x ys × Apart xs ys

NotIn-of_get : (xs ys : List ℕ) (p x : ℕ) → Apart xs ys → get_elem? xs p ≡ some x → NotIn x ys
NotIn-of_get [] ys p x a e = absurd (cc)
NotIn-of_get (z ∷ xs) ys zero x a e = subst (λ t. NotIn t ys) (cc) a.0
NotIn-of_get (z ∷ xs) ys (suc p) x a e = NotIn-of_get xs ys p x a.1 e

-- The three conversions of `m` whole blocks, of fewer than 2 ^ 32 bytes, into a buffer with room
-- for them and from buffers that are NULL or hold enough samples, access nothing outside a buffer,
-- keep its length, put every sample with its offset in its place, and leave the bytes of a channel
-- that is NULL.
pub rearrange-Rearranged :
    (r g b : Option (List ℕ)) (offset : ℕ) (out : List ℕ) (m : ℕ)
    → 24 * m < 2 ^ 32
    → 24 * m ≤ length out
    → Holds m r
    → Holds m g
    → Holds m b
    → Rearranged r g b offset out m (rearrange out r g b (24 * m) offset)
unfolding rearrange convert_r convert_g convert_b
rearrange-Rearranged r g b offset out m w l hr hg hb =
    let red = convert-Done r_slots offset (omega arith) (omega arith) refl r out m w l hr in
    let green =
      convert-Done g_slots offset (omega arith) (omega arith) refl g red.out' m w
        (rw red.same_length l) hg in
    let blue =
      convert-Done b_slots offset (omega arith) (omega arith) refl b green.out' m w
        (rw (green.same_length, red.same_length) l) hb in
    record {
      out' = blue.out';
      returns = rw (red.returns, green.returns) blue.returns;
      same_length = blue.same_length ∙ green.same_length ∙ red.same_length;
      red = λ k p s h e.
          let small = below_of_get 24 r_slots p s (omega arith) e in
          blue.outside k s small (NotIn-of_get r_slots b_slots p s (omega arith) e)
          ∙ green.outside k s small (NotIn-of_get r_slots g_slots p s (omega arith) e)
          ∙ red.inside k p s h e;
      green = λ k p s h e.
          let small = below_of_get 24 g_slots p s (omega arith) e in
          blue.outside k s small (NotIn-of_get g_slots b_slots p s (omega arith) e)
          ∙ green.inside k p s h e
          ∙ ap (byte_of g offset (8 * k + p))
              (red.outside k s small (NotIn-of_get g_slots r_slots p s (omega arith) e));
      blue = λ k p s h e.
          let small = below_of_get 24 b_slots p s (omega arith) e in
          blue.inside k p s h e
          ∙ ap (byte_of b offset (8 * k + p)) (
              green.outside k s small (NotIn-of_get b_slots g_slots p s (omega arith) e)
              ∙ red.outside k s small (NotIn-of_get b_slots r_slots p s (omega arith) e));
    }
