-- ===== src/Soapy/Slots.antt =====
-- Positions in a ring, and the buffers at them.
use mathlib.Core.Option
use native.Mathlib.Nat.{mod-eq_of_lt, mod-eq-sub-mod}
use osmo_fl2k.Prelude.{
  ℕ, zero, suc, ◌+◌, ◌-◌, ◌*◌, ◌%◌, ◌≤◌, ◌<◌, List, [], ◌∷◌, ltb, if◌then◌else◌, ◌≡◌, ◌≢◌, refl,
  ◌∙◌, arith, get_elem?, modify, inl, inr, Bool-cases,
}
use osmo_fl2k.Worker.{DataInfo}
use osmo_fl2k.Soapy.{Buffer, stamp, give, give_all}

-- The position `x`, which is less than twice the size.
abbrev pub slot : ℕ → ℕ → ℕ
slot n x = if ltb x n then x else x - n

pub mod_slot : (n x : ℕ) → x < 2 * n → x % n ≡ slot n x
mod_slot n x h = elim (Bool-cases (ltb x n)) [
  | inl e ↦ let l : x < n = ground arith in rw e (mod-eq_of_lt l)
  | inr e ↦
      let l : n ≤ x = ground arith in
      let m : x - n < n = omega arith in rw e (mod-eq-sub-mod l ∙ mod-eq_of_lt m)
]

pub slot-lt : (n x : ℕ) → x < 2 * n → slot n x < n
slot-lt n x h = ground arith

-- Different places of a stretch not longer than the ring are different positions.
pub slot-ne : (n t i j : ℕ) → t < n → i < j → j < n → slot n (t + i) ≢ slot n (t + j)
slot-ne n t i j h l m e = ground arith

-- A buffer but for its time.
abbrev pub bare : Buffer → Buffer
bare b = record b { tick = 0 }

pub give_all-bare :
    (b : Buffer) (cs : List ℕ) (info : DataInfo) → give_all b cs info ≡ give_all (bare b) cs info
unfolding give_all
give_all-bare b [] info = refl
give_all-bare b (c ∷ cs) info = give_all-bare b cs (give b c info)

pub bare-stamp :
    (t : ℕ) (xs : List Buffer) (k j : ℕ)
    → Option.map bare (get_elem? (modify (stamp t) xs k) j) ≡ Option.map bare (get_elem? xs j)
bare-stamp t [] k j = refl
bare-stamp t (x ∷ xs) zero zero = refl
bare-stamp t (x ∷ xs) zero (suc j) = refl
bare-stamp t (x ∷ xs) (suc k) zero = refl
bare-stamp t (x ∷ xs) (suc k) (suc j) = bare-stamp t xs k j
