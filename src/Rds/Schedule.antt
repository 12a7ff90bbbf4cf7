-- ===== src/Rds/Schedule.antt =====
-- `get_rds_group` as a sequence of groups: it never reads outside the texts, and sends every part of
-- them in turn.
use osmo_fl2k.Prelude.{
  ℕ, zero, suc, ◌+◌, ◌*◌, ◌^◌, ◌<◌, List, ◌++◌, some, if◌then◌else◌, ◌≡◌, refl, ap, arith, length,
  bit_xor, length-append, ltb, inl, inr, Bool-cases, in_range,
}
use osmo_fl2k.Rds.{
  Blocks, Params, Coder, Clock, crc, emit, emit_block, name_group, text_group, emit_group, pair_at,
  pair, name_blocks, text_blocks, name_or_text, get_rds_group, ct_blocks, same_minute, wrap,
}

length-emit : (mask n w : ℕ) → length (emit mask n w) ≡ n
unfolding emit
length-emit mask zero w = refl
length-emit mask (suc n) w = ap suc (length-emit mask n _)

length-emit_block : (block offset : ℕ) → length (emit_block block offset) ≡ 26
unfolding emit_block
length-emit_block block offset =
    let check = bit_xor (crc block) offset in
    omega (
      arith,
      length-append (emit (2 ^ 15) 16 block) (emit (2 ^ 9) 10 check),
      length-emit (2 ^ 15) 16 block,
      length-emit (2 ^ 9) 10 check,
    )

length-emit_group : (g : Blocks) → length (emit_group g) ≡ 104
unfolding emit_group
length-emit_group g = omega (
  arith,
  length-append (emit_block g.a 0x0fc)
      (emit_block g.b 0x198 ++ (emit_block g.c 0x168 ++ emit_block g.d 0x1b4)),
  length-append (emit_block g.b 0x198) (emit_block g.c 0x168 ++ emit_block g.d 0x1b4),
  length-append (emit_block g.c 0x168) (emit_block g.d 0x1b4),
  length-emit_block g.a 0x0fc,
  length-emit_block g.b 0x198,
  length-emit_block g.c 0x168,
  length-emit_block g.d 0x1b4,
)

-- The static variables are within their bounds.
pub record IsCoder (s : Coder) : Type 0 where
  pub state : s.state < 5
  pub ps_state : s.ps_state < 4
  pub rt_state : s.rt_state < 16

-- The texts are arrays of 8 and 64 chars.
pub record IsParams (p : Params) : Type 0 where
  pub ps : length p.ps ≡ 8
  pub rt : length p.rt ≡ 64

pair_at-total : (text : List ℕ) (i : ℕ) → i + 1 < length text → (d : ℕ) × (pair_at text i ≡ some d)
unfolding pair_at
pair_at-total text i h =
    let (x, e) = in_range text i (omega arith) in
    let (y, e') = in_range text (i + 1) h in (pair x y, rw (e, e') refl)

name_blocks-total :
    (p : Params) (k : ℕ) → IsParams p → k < 4 → (g : Blocks) × (name_blocks p k ≡ some g)
unfolding name_blocks
name_blocks-total p k h l =
    let (d, e) = pair_at-total p.ps (k * 2) (omega (arith, h.ps)) in (name_group p k d, rw e refl)

text_blocks-total :
    (p : Params) (k : ℕ) → IsParams p → k < 16 → (g : Blocks) × (text_blocks p k ≡ some g)
unfolding text_blocks
text_blocks-total p k h l =
    let (c, e) = pair_at-total p.rt (k * 4) (omega (arith, h.rt)) in
    let (d, e') = pair_at-total p.rt (k * 4 + 2) (omega (arith, h.rt)) in
    (text_group p k c d, rw (e, e') refl)

-- The static variables behind a group that is no clock time.
abbrev pub advanced : Coder → Coder
advanced s =
    if ltb s.state 4
    then record s { state = wrap (s.state + 1) 5; ps_state = wrap (s.ps_state + 1) 4 }
    else record s { state = wrap (s.state + 1) 5; rt_state = wrap (s.rt_state + 1) 16 }

name_or_text-total :
    (p : Params) (s : Coder)
    → IsParams p
    → IsCoder s
    → (g : Blocks) × (name_or_text p s ≡ some (g, advanced s))
unfolding name_or_text
name_or_text-total p s h c = elim (Bool-cases (ltb s.state 4)) [
  | inl e ↦ let (g, q) = name_blocks-total p s.ps_state h c.ps_state in (g, rw (e, q) refl)
  | inr e ↦ let (g, q) = text_blocks-total p s.rt_state h c.rt_state in (g, rw (e, q) refl)
]

-- The static variables behind a group.
abbrev pub coder_behind : Clock → Coder → Coder
coder_behind t s =
    if same_minute s.latest_minutes t.tm_min
    then advanced s
    else record s { latest_minutes = some t.tm_min }

-- With texts of 8 and 64 chars and static variables within their bounds, `get_rds_group` stores 104
-- bits, reads nothing outside the two texts, and moves its static variables on within their bounds.
pub get_rds_group-total :
    (p : Params) (t : Clock) (s : Coder)
    → IsParams p
    → IsCoder s
    → (bits : List ℕ) × (get_rds_group p t s ≡ some (bits, coder_behind t s))
      × (length bits ≡ 104)
      × IsCoder (coder_behind t s)
unfolding get_rds_group
get_rds_group-total p t s h c =
    let (g, q) = name_or_text-total p s h c in
    elim (Bool-cases (same_minute s.latest_minutes t.tm_min)) [
      | inl e ↦ (emit_group g, rw (e, q) refl, length-emit_group g, ground arith)
      | inr e ↦
          (emit_group (ct_blocks p t), rw e refl, length-emit_group (ct_blocks p t), ground arith)
    ]
