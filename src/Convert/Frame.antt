-- ===== src/Convert/Frame.antt =====
-- One conversion of a whole buffer: the loop over the blocks.
use osmo_fl2k.Prelude.{
  ℕ, zero, suc, ◌+◌, ◌*◌, ◌≤◌, ◌<◌, ◌%◌, ◌^◌, List, [], ◌∷◌, Option, some, ◌≡◌, refl, ◌≢◌, ◌∙◌, ap,
  arith, get_elem?, length, ℕ_discrete,
}
use osmo_fl2k.Convert.{convert_block, convert_from}
use osmo_fl2k.Convert.Block.{Distinct, AllBelow, Placed, convert_block-Placed}

-- The blocks `q`, ..., `q + m - 1` are converted: each slot of each has its sample, and nothing else
-- has changed.
pub record Converted (slots input : List ℕ) (offset : ℕ) (out : List ℕ) (q m : ℕ)
    (result : Option (List ℕ)) : Type 0 where
  pub out' : List ℕ
  pub returns : result ≡ some out'
  pub same_length : length out' ≡ length out
  pub inside :
      (b p slot sample : ℕ)
      → q ≤ b
      → b < q + m
      → get_elem? slots p ≡ some slot
      → get_elem? input (8 * b + p) ≡ some sample
      → get_elem? out' (24 * b + slot) ≡ some ((sample + offset) % 2 ^ 8)
  pub outside :
      (k : ℕ)
      → ((b p slot : ℕ) → q ≤ b → b < q + m → get_elem? slots p ≡ some slot → k ≢ 24 * b + slot)
      → get_elem? out' k ≡ get_elem? out k

pub below_of_get : (n : ℕ) (xs : List ℕ) (p x : ℕ) → AllBelow n xs → get_elem? xs p ≡ some x → x < n
below_of_get n [] p x b e = absurd (cc)
below_of_get n (y ∷ ys) zero x b e = ground arith
below_of_get n (y ∷ ys) (suc p) x b e = below_of_get n ys p x b.1 e

-- Places in different blocks are different.
apart : (b b' s s' : ℕ) → s < 24 → s' < 24 → b < b' → 24 * b + s ≢ 24 * b' + s'
apart b b' s s' l l' h = omega arith

module _ (slots input : List ℕ) (offset : ℕ) (distinct : Distinct slots) (small : AllBelow 24 slots)
    (eight : length slots ≡ 8) where
  -- The first block, then the others.
  Converted-suc :
      (out : List ℕ) (q m : ℕ) (r r' : Option (List ℕ))
      → (p : Placed input offset out slots (24 * q) (8 * q) r)
      → Converted slots input offset p.out' (q + 1) m r'
      → Converted slots input offset out q (suc m) r'
  Converted-suc out q m r r' p rest = record {
    out' = rest.out';
    returns = rest.returns;
    same_length = rest.same_length ∙ p.same_length;
    inside = λ b k slot sample lo hi e f. elim (ℕ_discrete b q) [
      | yes h ↦
          ap (get_elem? rest.out') (omega arith)
          ∙ rest.outside (24 * q + slot) (λ b' p' s' l _ e' d.
            apart q b' slot s' (below_of_get 24 slots k slot small e)
              (below_of_get 24 slots p' s' small e') (omega arith) d)
          ∙ p.inside k slot sample e (ap (get_elem? input) (omega arith) ∙ f)
      | no h ↦ rest.inside b k slot sample (omega arith) (omega arith) e f
    ];
    outside = λ k h.
        rest.outside k (λ b p' s lo hi e. h b p' s (omega arith) (omega arith) e)
        ∙ p.outside k (λ p' s e. h q p' s (omega arith) (omega arith) e);
  }

  round :
      (out : List ℕ) (len fuel i j : ℕ) (out' : List ℕ)
      → i < len
      → convert_block input offset out slots i j ≡ some out'
      → convert_from slots input offset len (suc fuel) out i j
        ≡ convert_from slots input offset len fuel out' ((i + 24) % 2 ^ 32) (j + 8)
  unfolding convert_from
  round out len fuel i j out' h e = ground arith

  stop :
      (out : List ℕ) (len fuel i j : ℕ)
      → len ≤ i
      → convert_from slots input offset len (suc fuel) out i j ≡ some out
  unfolding convert_from
  stop out len fuel i j h = ground arith

  pub convert_from-Converted :
      (m fuel : ℕ) (out : List ℕ) (q : ℕ)
      → m < fuel
      → 24 * (q + m) < 2 ^ 32
      → 24 * (q + m) ≤ length out
      → 8 * (q + m) ≤ length input
      → Converted slots input offset out q m
          (convert_from slots input offset (24 * (q + m)) fuel out (24 * q) (8 * q))
  convert_from-Converted m zero out q f w lo li = absurd (omega arith)
  convert_from-Converted zero (suc fuel) out q f w lo li = record {
    out' = out;
    returns = stop out (24 * (q + zero)) fuel (24 * q) (8 * q) (omega arith);
    same_length = refl;
    inside = λ b p slot sample l h. absurd (omega arith);
    outside = λ k h. refl;
  }
  convert_from-Converted (suc m) (suc fuel) out q f w lo li =
      let p =
        convert_block-Placed input offset out slots (24 * q) (8 * q) 24 distinct small (omega arith)
          (omega arith) in
      let rest =
        convert_from-Converted m fuel p.out' (q + 1) (omega arith) (omega arith)
          (rw p.same_length (omega arith)) (omega arith) in
      let len : 24 * (q + 1 + m) ≡ 24 * (q + suc m) = omega arith in
      let i : 24 * (q + 1) ≡ (24 * q + 24) % 2 ^ 32 = omega arith in
      let j : 8 * (q + 1) ≡ 8 * q + 8 = omega arith in
      let same =
        round out (24 * (q + suc m)) fuel (24 * q) (8 * q) p.out' (omega arith) p.returns in
      rw same (Converted-suc out q m _ _ p (rw (← i, ← j, ← len) rest))
