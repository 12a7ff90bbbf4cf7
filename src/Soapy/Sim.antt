-- ===== src/Soapy/Sim.antt =====
-- When the ring of buffers holds the queue of the model.
use mathlib.Core.Option
use osmo_fl2k.Prelude.{
  ℕ, zero, suc, ◌+◌, ◌^◌, ◌≤◌, ◌<◌, List, [], ◌∷◌, Option, some, true, if◌then◌else◌, ◌≡◌, ◌⊎◌,
  refl, get_elem?, length,
}
use osmo_fl2k.Soapy.{Buffer, Soapy}
use osmo_fl2k.Soapy.Slots.{slot, bare}
use osmo_fl2k.Soapy.Model.{Act, Reply, perform, Model}

abbrev pub held : Model → ℕ
held a = if a.writing then 1 else 0

-- The buffer at a position, but for its time.
abbrev pub cell : Soapy → ℕ → Option Buffer
cell s i = Option.map bare (get_elem? s.buffs i)

-- The numbers of the ring fit the queue.
pub record Fits (size head tail count n q h : ℕ) : Type 0 where
  pub same_size : size ≡ n
  pub some_buffs : 0 < n
  pub few_buffs : n < 2 ^ 62
  pub head_below : head < n
  pub tail_below : tail < n
  pub free : count + q ≡ n
  pub holds : q + h ≤ n
  pub place : (tail + q + h ≡ head) ⊎ (tail + q + h ≡ head + n)

-- The ring holds the queue, from the tail on, and behind it the buffer being written.
pub record Sim (s : Soapy) (a : Model) : Type 0 where
  pub fits :
      Fits (length s.buffs) s.buf_head s.buf_tail s.buf_count a.size (length a.queue) (held a)
  pub cells :
      (i : ℕ) → i < length a.queue → cell s (slot a.size (s.buf_tail + i)) ≡ get_elem? a.queue i
  pub current : a.writing ≡ true → s.current_handle ≡ slot a.size (s.buf_tail + length a.queue)
  pub draft : (p : Buffer) → a.draft ≡ some p → cell s s.current_handle ≡ some p
  pub channels : s.channels ≡ a.channels
  pub signed : s.signed ≡ a.signed
  pub event : s.underflow_event ≡ a.underflow_event
  pub reset : s.reset_buffer ≡ a.reset_buffer

-- A step of the ring for a step of the model.
abbrev pub Follows : Act → Soapy → Model → Reply → Type 0
Follows act s a r = (s' : Soapy) × (perform act s ≡ some (s', r)) × Sim s' a

pub bare_of_cell :
    (xs : List Buffer) (k : ℕ) (p : Buffer)
    → Option.map bare (get_elem? xs k) ≡ some p
    → (b : Buffer) × (get_elem? xs k ≡ some b) × (bare b ≡ p)
bare_of_cell [] k p e = absurd (cc)
bare_of_cell (x ∷ xs) zero p e = (x, refl, cc)
bare_of_cell (x ∷ xs) (suc k) p e = bare_of_cell xs k p e
