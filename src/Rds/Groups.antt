-- ===== src/Rds/Groups.antt =====
-- `get_rds_group` as a sequence of groups: which part of the name or of the text each one has.
use osmo_fl2k.Prelude.{
  ℕ, suc, ◌+◌, ◌/◌, ◌%◌, ◌<◌, List, [], ◌∷◌, Option, none, some, true, false, if◌then◌else◌, ◌≡◌,
  refl, ap, ◌∙◌, arith, ltb, inl, inr, Bool-cases, ◌>>=◌,
}
use osmo_fl2k.Rds.{
  Blocks, Params, Coder, Clock, start, emit_group, name_or_text, get_rds_group, ct_blocks,
  same_minute,
}
use osmo_fl2k.Rds.Schedule.{IsParams}
use osmo_fl2k.Rds.Parts.{IsAscii, IsGroup, of_name, of_text, name_blocks-IsName, text_blocks-IsText}

-- The static variables behind `m` groups for the name and the text, with the minute of the last clock time.
abbrev pub coder_of : Option ℕ → ℕ → Coder
coder_of latest m = record {
  latest_minutes = latest;
  state = m % 5;
  ps_state = m % 5 % 4;
  rt_state = m / 5 % 16;
}

-- What a call does in such a state: a group for the clock time, in a new minute, or the next group.
pub data Sends (p : Params) (t : Clock) (latest : Option ℕ) (m : ℕ) (r : Option (List ℕ × Coder))
    : Type 0 where
  clock :
      same_minute latest t.tm_min ≡ false
      → r ≡ some (emit_group (ct_blocks p t), coder_of (some t.tm_min) m)
      → Sends p t latest m r
  part :
      (g : Blocks)
      → same_minute latest t.tm_min ≡ true
      → IsGroup p m g
      → r ≡ some (emit_group g, coder_of latest (m + 1))
      → Sends p t latest m r

next_part :
    (p : Params) (latest : Option ℕ) (m : ℕ)
    → IsParams p
    → IsAscii p
    → (g : Blocks) × IsGroup p m g
      × (name_or_text p (coder_of latest m) ≡ some (g, coder_of latest (m + 1)))
unfolding name_or_text
next_part p latest m h ascii = elim (Bool-cases (ltb (m % 5) 4)) [
  | inl e ↦
      let l : m % 5 < 4 = ground (arith, e) in
      let (g, q, i) = name_blocks-IsName p (m % 5) h ascii l in
      let same : m % 5 % 4 ≡ m % 5 = omega arith in
      (g, of_name l i, rw (e, same, q) (ground (arith, e)))
  | inr e ↦
      let l : m % 5 ≡ 4 = ground (arith, e) in
      let (g, q, i) = text_blocks-IsText p (m / 5 % 16) h ascii (omega arith) in
      (g, of_text l i, rw (e, q) (ground (arith, e)))
]

get_rds_group-Sends :
    (p : Params) (t : Clock) (latest : Option ℕ) (m : ℕ)
    → IsParams p
    → IsAscii p
    → Sends p t latest m (get_rds_group p t (coder_of latest m))
unfolding get_rds_group
get_rds_group-Sends p t latest m h ascii = elim (Bool-cases (same_minute latest t.tm_min)) [
  | inl e ↦ let (g, i, q) = next_part p latest m h ascii in part g e i (rw (e, q) refl)
  | inr e ↦ clock e (rw e refl)
]

-- The static variables behind calls at these times.
unfoldable pub coder_after : Params → List Clock → Coder → Option Coder
coder_after p [] s = some s
coder_after p (t ∷ ts) s = get_rds_group p t s >>= λ r. coder_after p ts r.1

-- The minute of the last of these calls, and how many of them come in a minute that has had its clock time.
abbrev pub latest_of : Option ℕ → List Clock → Option ℕ
latest_of latest [] = latest
latest_of latest (t ∷ ts) =
    if same_minute latest t.tm_min then latest_of latest ts else latest_of (some t.tm_min) ts

abbrev pub parts_of : Option ℕ → List Clock → ℕ
parts_of latest [] = 0
parts_of latest (t ∷ ts) =
    if same_minute latest t.tm_min then suc (parts_of latest ts) else parts_of (some t.tm_min) ts

coder_after-coder_of :
    (p : Params) (ts : List Clock) (latest : Option ℕ) (m : ℕ)
    → IsParams p
    → IsAscii p
    → coder_after p ts (coder_of latest m)
      ≡ some (coder_of (latest_of latest ts) (m + parts_of latest ts))
unfolding coder_after
coder_after-coder_of p [] latest m h ascii = ap (λ k. some (coder_of latest k)) (omega arith)
coder_after-coder_of p (t ∷ ts) latest m h ascii =
    by_call (get_rds_group-Sends p t latest m h ascii)
      (λ latest' m'. coder_after-coder_of p ts latest' m' h ascii)
  where
    by_call :
        Sends p t latest m (get_rds_group p t (coder_of latest m))
        → ((latest' : Option ℕ) (m' : ℕ)
            → coder_after p ts (coder_of latest' m')
              ≡ some (coder_of (latest_of latest' ts) (m' + parts_of latest' ts)))
        → coder_after p (t ∷ ts) (coder_of latest m)
          ≡ some (coder_of (latest_of latest (t ∷ ts)) (m + parts_of latest (t ∷ ts)))
    by_call (clock e r) later = rw (coder_after, r, e) (later (some t.tm_min) m)
    by_call (part g e i r) later =
        let more : m + 1 + parts_of latest ts ≡ m + suc (parts_of latest ts) = omega arith in
        rw (coder_after, r, e)
          (later latest (m + 1) ∙ ap (λ k. some (coder_of (latest_of latest ts) k)) more)

start-coder_of : start ≡ coder_of none 0
start-coder_of = ground arith

-- With texts of 8 and 64 ASCII chars, whatever the times of the calls from the first one on: a call in a new minute sends
-- a group for the clock time, and each other one the next group in turn, which is number `m` if `m` such groups came
-- before, in this and in earlier minutes. Group number `m` is of type 0A with part `m % 5` of the name, two chars, if
-- that is below 4, and else of type 2A with part `m / 5 % 16` of the text, four chars; it has the station's code and the
-- bit for its traffic programmes, and one of type 0A the bit for an announcement, if it is set.
pub groups_in_turn :
    (p : Params) (ts : List Clock) (t : Clock)
    → IsParams p
    → IsAscii p
    → (coder_after p ts start ≡ some (coder_of (latest_of none ts) (parts_of none ts)))
      × Sends p t
          (latest_of none ts)
          (parts_of none ts)
          (get_rds_group p t (coder_of (latest_of none ts) (parts_of none ts)))
groups_in_turn p ts t h ascii = (
  ap (coder_after p ts) start-coder_of
      ∙ coder_after-coder_of p ts none 0 h ascii
      ∙ ap (λ k. some (coder_of (latest_of none ts) k)) (omega arith),
  get_rds_group-Sends p t (latest_of none ts) (parts_of none ts) h ascii,
)
