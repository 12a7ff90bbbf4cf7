-- ===== src/Rds/Parts.antt =====
-- The groups of `get_rds_group` for the name and the text, field by field.
use osmo_fl2k.Prelude.{
  ℕ, zero, suc, ◌+◌, ◌*◌, ◌/◌, ◌%◌, ◌^◌, ◌<◌, List, some, Bool, true, false, if◌then◌else◌, ◌≡◌,
  refl, arith, in_range, get_elem?, bit_or, bit_or_sum, length,
}
use osmo_fl2k.Rds.{Blocks, Params, name_group, text_group, pair_at, pair, name_blocks, text_blocks}
use osmo_fl2k.Rds.Schedule.{IsParams}
use osmo_fl2k.Rds.Text.{pair_value}

-- The chars of both texts are ASCII.
pub record IsAscii (p : Params) : Type 0 where
  pub ps : (i x : ℕ) → get_elem? p.ps i ≡ some x → x < 128
  pub rt : (i x : ℕ) → get_elem? p.rt i ≡ some x → x < 128

-- Two chars of a text, from index `i` on, make a block, the first one above the second.
pub record IsPair (text : List ℕ) (i block : ℕ) : Type 0 where
  pub x : ℕ
  pub y : ℕ
  pub first : get_elem? text i ≡ some x
  pub second : get_elem? text (i + 1) ≡ some y
  pub value : block ≡ x * 2 ^ 8 + y

-- A group of type 0A of a station with traffic programmes: part `k` of the name, two chars, and no other frequency.
pub record IsName (p : Params) (k : ℕ) (g : Blocks) : Type 0 where
  pub station : g.a ≡ p.pi
  pub kind : g.b ≡ 0 * 2 ^ 12 + 2 ^ 10 + (if p.ta then 2 ^ 4 else 0) + k
  pub frequencies : g.c ≡ 0xcdcd
  pub chars : IsPair p.ps (2 * k) g.d

-- A group of type 2A of such a station: part `k` of the text, four chars.
pub record IsText (p : Params) (k : ℕ) (g : Blocks) : Type 0 where
  pub station : g.a ≡ p.pi
  pub kind : g.b ≡ 2 * 2 ^ 12 + 2 ^ 10 + k
  pub chars : IsPair p.rt (4 * k) g.c
  pub more_chars : IsPair p.rt (4 * k + 2) g.d

-- Group number `m`, in turns of five: four parts of the name, in order, then the next part of the text.
pub data IsGroup (p : Params) (m : ℕ) (g : Blocks) : Type 0 where
  of_name : m % 5 < 4 → IsName p (m % 5) g → IsGroup p m g
  of_text : m % 5 ≡ 4 → IsText p (m / 5 % 16) g → IsGroup p m g

pair_at-IsPair :
    (text : List ℕ) (i : ℕ)
    → ((j x : ℕ) → get_elem? text j ≡ some x → x < 128)
    → i + 1 < length text
    → (d : ℕ) × (pair_at text i ≡ some d) × IsPair text i d
unfolding pair_at
pair_at-IsPair text i ascii h =
    let (x, e) = in_range text i (omega arith) in
    let (y, e') = in_range text (i + 1) h in
    let lx = ascii i x e in
    let ly = ascii (i + 1) y e' in
    (
      pair x y,
      rw (e, e') refl,
      record {
        x = x;
        y = y;
        first = e;
        second = e';
        value = ground (arith, pair_value x y (omega arith) (omega arith));
      },
    )

name_kind :
    (ta : Bool) (k : ℕ)
    → k < 4
    → (if ta then bit_or (bit_or 0x0400 k) 0x0010 else bit_or 0x0400 k)
      ≡ 0 * 2 ^ 12 + 2 ^ 10 + (if ta then 2 ^ 4 else 0) + k
name_kind true zero h = refl
name_kind true (suc zero) h = refl
name_kind true (suc (suc zero)) h = refl
name_kind true (suc (suc (suc zero))) h = refl
name_kind true (suc (suc (suc (suc k)))) h = absurd (omega arith)
name_kind false k h = omega (arith, bit_or_sum 10 1 k (omega arith))

pub name_blocks-IsName :
    (p : Params) (k : ℕ)
    → IsParams p
    → IsAscii p
    → k < 4
    → (g : Blocks) × (name_blocks p k ≡ some g) × IsName p k g
unfolding name_blocks
name_blocks-IsName p k h ascii l =
    let (d, e, i) = pair_at-IsPair p.ps (2 * k) ascii.ps (omega (arith, h.ps)) in
    let same : k * 2 ≡ 2 * k = omega arith in
    (
      name_group p k d,
      rw (same, e) refl,
      record { station = refl; kind = name_kind p.ta k l; frequencies = refl; chars = i },
    )

pub text_blocks-IsText :
    (p : Params) (k : ℕ)
    → IsParams p
    → IsAscii p
    → k < 16
    → (g : Blocks) × (text_blocks p k ≡ some g) × IsText p k g
unfolding text_blocks
text_blocks-IsText p k h ascii l =
    let (c, e, i) = pair_at-IsPair p.rt (4 * k) ascii.rt (omega (arith, h.rt)) in
    let (d, e', i') = pair_at-IsPair p.rt (4 * k + 2) ascii.rt (omega (arith, h.rt)) in
    let same : k * 4 ≡ 4 * k = omega arith in
    (
      text_group p k c d,
      rw (same, e, e') refl,
      record {
        station = refl;
        kind = omega (arith, bit_or_sum 10 9 k (omega arith));
        chars = i;
        more_chars = i';
      },
    )
