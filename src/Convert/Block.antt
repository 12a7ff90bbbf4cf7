-- ===== src/Convert/Block.antt =====
-- One round of a conversion: the eight samples of a block.
use osmo_fl2k.Prelude.{
  in_range, ℕ, zero, suc, ◌+◌, ◌≤◌, ◌<◌, ◌%◌, ◌^◌, List, [], ◌∷◌, Option, some, ◌≡◌, refl, ◌≢◌, ◌∙◌,
  ap, sym, arith, get_elem?, length, set, length-set, get_elem?-set_self, get_elem?-set_ne,
}
use osmo_fl2k.Convert.{store, convert_block}

abbrev pub NotIn : ℕ → List ℕ → Type 0
NotIn s [] = Unit
NotIn s (x ∷ xs) = (s ≢ x) × NotIn s xs

abbrev pub Distinct : List ℕ → Type 0
Distinct [] = Unit
Distinct (x ∷ xs) = NotIn x xs × Distinct xs

abbrev pub AllBelow : ℕ → List ℕ → Type 0
AllBelow n [] = Unit
AllBelow n (x ∷ xs) = (x < n) × AllBelow n xs

-- What a block leaves behind: each slot has its sample, and nothing else has changed.
pub record Placed (input : List ℕ) (offset : ℕ) (out : List ℕ) (slots : List ℕ) (i j : ℕ)
    (result : Option (List ℕ)) : Type 0 where
  pub out' : List ℕ
  pub returns : result ≡ some out'
  pub same_length : length out' ≡ length out
  pub inside :
      (p slot sample : ℕ)
      → get_elem? slots p ≡ some slot
      → get_elem? input (j + p) ≡ some sample
      → get_elem? out' (i + slot) ≡ some ((sample + offset) % 2 ^ 8)
  pub outside :
      (k : ℕ)
      → ((p slot : ℕ) → get_elem? slots p ≡ some slot → k ≢ i + slot)
      → get_elem? out' k ≡ get_elem? out k

store-eq : (buf : List ℕ) (i v : ℕ) → i < length buf → store buf i v ≡ some (set buf i v)
unfolding store
store-eq buf i v h = ground arith

pub NotIn-ne :
    (s : ℕ) (slots : List ℕ)
    → NotIn s slots
    → (p slot : ℕ) → get_elem? slots p ≡ some slot
    → s ≢ slot
NotIn-ne s [] h p slot e = absurd (cc)
NotIn-ne s (x ∷ xs) h zero slot e = ground arith
NotIn-ne s (x ∷ xs) h (suc p) slot e = NotIn-ne s xs h.1 p slot e

convert_block-suc :
    (input : List ℕ) (offset : ℕ) (out : List ℕ) (slot : ℕ) (slots : List ℕ) (i j sample : ℕ)
    → get_elem? input j ≡ some sample
    → i + slot < length out
    → convert_block input offset out (slot ∷ slots) i j
      ≡ convert_block input offset (set out (i + slot) ((sample + offset) % 2 ^ 8)) slots i (j + 1)
unfolding convert_block
convert_block-suc input offset out slot slots i j sample e h =
    ground (arith, store-eq out (i + slot) ((sample + offset) % 2 ^ 8))

-- The first sample is placed, then the others: they do not touch its slot.
module _ (input : List ℕ) (offset : ℕ) (out : List ℕ) (slot : ℕ) (slots : List ℕ) (i j sample : ℕ)
    (read : get_elem? input j ≡ some sample) (fits : i + slot < length out)
    (fresh : NotIn slot slots) where
  abbrev written : List ℕ
  written = set out (i + slot) ((sample + offset) % 2 ^ 8)

  Placed-cons :
      (r : Option (List ℕ))
      → Placed input offset written slots i (j + 1) r
      → Placed input offset out (slot ∷ slots) i j r
  Placed-cons r rest = record {
    out' = rest.out';
    returns = rest.returns;
    same_length = rest.same_length ∙ length-set out (i + slot) _;
    inside = inside;
    outside = outside;
  }
    where
      inside :
          (p s a : ℕ)
          → get_elem? (slot ∷ slots) p ≡ some s
          → get_elem? input (j + p) ≡ some a
          → get_elem? rest.out' (i + s) ≡ some ((a + offset) % 2 ^ 8)
      inside zero s a e f =
          let same : slot ≡ s = ground arith in
          let at : get_elem? input (j + 0) ≡ get_elem? input j =
            ap (get_elem? input) (omega arith) in
          let value : sample ≡ a = ground (arith, at) in
          rw (← same, ← value)
            (rest.outside (i + slot)
                (λ p' s' e' h. NotIn-ne slot slots fresh p' s' e' (omega arith))
              ∙ get_elem?-set_self out (i + slot) _ fits)
      inside (suc p) s a e f = rest.inside p s a e (ap (get_elem? input) (omega arith) ∙ f)

      outside :
          (k : ℕ)
          → ((p s : ℕ) → get_elem? (slot ∷ slots) p ≡ some s → k ≢ i + s)
          → get_elem? rest.out' k ≡ get_elem? out k
      outside k h =
          rest.outside k (λ p s e. h (suc p) s e)
          ∙ get_elem?-set_ne out (i + slot) k _ (λ e. h 0 slot refl (sym e))

-- A block whose slots and samples lie inside the buffers is converted.
pub convert_block-Placed :
    (input : List ℕ) (offset : ℕ) (out slots : List ℕ) (i j n : ℕ)
    → Distinct slots
    → AllBelow n slots
    → i + n ≤ length out
    → j + length slots ≤ length input
    → Placed input offset out slots i j (convert_block input offset out slots i j)
convert_block-Placed input offset out [] i j n d b h l = record {
  out' = out;
  returns = unfold convert_block in refl;
  same_length = refl;
  inside = λ p slot sample e. absurd (cc);
  outside = λ k f. refl;
}
convert_block-Placed input offset out (slot ∷ slots) i j n d b h l =
    let (sample, e) = in_range input j (omega arith) in
    let out' = set out (i + slot) ((sample + offset) % 2 ^ 8) in
    let fits : i + slot < length out = omega arith in
    rw (convert_block-suc input offset out slot slots i j sample e fits) (
      Placed-cons input offset out slot slots i j sample e fits d.0 _ (
        convert_block-Placed input offset out' slots i (j + 1) n d.1 b.1 (rw length-set h)
          (omega arith)))
