-- ===== src/Soapy/Acquiring.antt =====
-- `acquireWriteBuffer` takes a buffer for the application, or says why it does not.
use mathlib.Core.Option
use osmo_fl2k.Prelude.{
  ◌+◌, ◌%◌, ◌^◌, Option, none, some, Bool, true, false, not, ◌==◌, if◌then◌else◌, ◌≡◌, ◌≢◌, refl,
  ◌∙◌, ap, arith, length, inl, inr, Bool-cases, in_range, ℕ_discrete,
}
use osmo_fl2k.Device.{buf_len}
use osmo_fl2k.Soapy.{
  Soapy, Status, elems, timeout, underflow, drain, reset_old, wait_for, after_wait, point_to,
  take_head, acquire_write_buffer,
}
use osmo_fl2k.Soapy.Slots.{slot, mod_slot, slot-lt}
use osmo_fl2k.Soapy.Model.{acquires, got, perform, Model, emptied, renewed, begin}
use osmo_fl2k.Soapy.Sim.{Sim, Follows}

-- The queue is emptied where no buffer is being written.
module _ (s : Soapy) (a : Model) (sim : Sim s a) (idle : a.writing ≡ false) where
  drained_head : (s.buf_head + s.buf_count) % 2 ^ 64 % length s.buffs ≡ s.buf_tail
  drained_head =
      let f = sim.fits in
      let short : (s.buf_head + s.buf_count) % 2 ^ 64 ≡ s.buf_head + s.buf_count =
        omega (arith, f) in
      let fold = mod_slot a.size (s.buf_head + s.buf_count) (omega (arith, f)) in
      rw (f.same_size, short, fold) (ground (arith, f, idle))

  drain-Sim :
      (e r r' : Bool)
      → r ≡ r'
      → Sim
          (record (drain s) { underflow_event = e; reset_buffer = r })
          (record (emptied a) { underflow_event = e; reset_buffer = r' })
  drain-Sim e r r' same =
      let f = sim.fits in
      record {
        fits =
            rw (drained_head, idle)
              (record {
                same_size = f.same_size;
                some_buffs = f.some_buffs;
                few_buffs = f.few_buffs;
                head_below = f.tail_below;
                tail_below = f.tail_below;
                free = omega (arith, f);
                holds = omega arith;
                place = inl (omega arith);
              });
        cells = λ i l. absurd (omega arith);
        current = λ w. absurd (cc);
        draft = sim.draft;
        channels = sim.channels;
        signed = sim.signed;
        event = refl;
        reset = same;
      }

-- The event and reset flags of the model may be taken from the ring.
reset_old-Sim :
    (s : Soapy) (a : Model) → Sim s a → a.writing ≡ false → Sim (reset_old s) (renewed a)
reset_old-Sim s a sim idle = elim (Bool-cases a.reset_buffer) [
  | inl e ↦
      let e' : s.reset_buffer ≡ true = sim.reset ∙ e in
      rw (e, e') (drain-Sim s a sim idle false false false refl)
  | inr e ↦ let e' : s.reset_buffer ≡ false = sim.reset ∙ e in simp (e, e') sim
]

-- `acquireWriteBuffer` behind its test of `resetBuffer`.
abbrev acquire_rest : Soapy → Option (Soapy × Status)
acquire_rest s =
    if s.underflow_event then some (drain s, underflow) else after_wait (s, not (s.buf_count == 0))

module _ (s : Soapy) (a : Model) (sim : Sim s a) (idle : a.writing ≡ false)
    (quiet : s.underflow_event ≡ false) (room : length a.queue ≢ a.size) where
  next_head : (s.buf_head + 1) % length s.buffs ≡ slot a.size (s.buf_head + 1)
  next_head =
      let f = sim.fits in rw (f.same_size) (mod_slot a.size (s.buf_head + 1) (omega (arith, f)))

  head_place : s.buf_head ≡ slot a.size (s.buf_tail + length a.queue)
  head_place = let f = sim.fits in ground (arith, f, idle)

  take_head-Sim :
      (s' : Soapy) × (take_head s ≡ some (s', elems buf_len))
      × Sim s' (record a { writing = true; draft = none })
  unfolding take_head
  take_head-Sim =
      let f = sim.fits in
      let (b, at) = in_range s.buffs s.buf_head (omega (arith, f)) in
      (
        record s {
          current_handle = s.buf_head;
          buf_head = (s.buf_head + 1) % length s.buffs;
          buf_ticks = b.tick;
          current_buffs = point_to s.buf_head s.channels s.current_buffs;
        },
        rw at refl,
        record {
          fits = rw next_head (record {
            same_size = f.same_size;
            some_buffs = f.some_buffs;
            few_buffs = f.few_buffs;
            head_below = slot-lt a.size (s.buf_head + 1) (omega (arith, f));
            tail_below = f.tail_below;
            free = f.free;
            holds = omega (arith, f, room);
            place = ground (arith, f, idle);
          });
          cells = sim.cells;
          current = λ w. head_place;
          draft = λ p e. absurd (cc);
          channels = sim.channels;
          signed = sim.signed;
          event = sim.event;
          reset = sim.reset;
        },
      )

begin_event : (a : Model) → a.underflow_event ≡ true → begin a ≡ (emptied a, got underflow)
begin_event a e = ground arith

begin_full :
    (a : Model) → a.underflow_event ≡ false → length a.queue ≡ a.size → begin a ≡ (a, got timeout)
begin_full a e full = ground arith

begin_room :
    (a : Model)
    → a.underflow_event ≡ false
    → length a.queue ≢ a.size
    → begin a ≡ (record a { writing = true; draft = none }, got (elems buf_len))
begin_room a e room = ground arith

rest_event : (s : Soapy) → s.underflow_event ≡ true → acquire_rest s ≡ some (drain s, underflow)
rest_event s e = ground arith

rest_full :
    (s : Soapy) → s.underflow_event ≡ false → s.buf_count ≡ 0 → acquire_rest s ≡ some (s, timeout)
rest_full s e full = ground arith

rest_room : (s : Soapy) → s.underflow_event ≡ false → s.buf_count ≢ 0 → acquire_rest s ≡ take_head s
rest_room s e room = ground arith

-- What a call returns, and the model behind it.
abbrev Acquired : Soapy → Model → Option (Soapy × Status) → Type 0
Acquired s a result =
    (s' : Soapy) × (a' : Model) × (r : Status) × (result ≡ some (s', r))
    × (begin a ≡ (a', got r))
    × Sim s' a'

acquire_rest-Sim :
    (s : Soapy) (a : Model) → Sim s a → a.writing ≡ false → Acquired s a (acquire_rest s)
acquire_rest-Sim s a sim idle = elim (Bool-cases a.underflow_event) [
  | inl e ↦ (
    drain s,
    emptied a,
    underflow,
    rest_event s (sim.event ∙ e),
    begin_event a e,
    drain-Sim s a sim idle false s.reset_buffer a.reset_buffer sim.reset,
  )
  | inr e ↦ elim (ℕ_discrete (length a.queue) a.size) [
    | yes full ↦ (
      s,
      a,
      timeout,
      rest_full s (sim.event ∙ e) (omega (arith, sim.fits)),
      begin_full a e full,
      sim,
    )
    | no room ↦
        let (s', q, sim') = take_head-Sim s a sim idle (sim.event ∙ e) room in
        let free : s.buf_count ≢ 0 = λ z. room (omega (arith, sim.fits)) in
        (
          s',
          record a { writing = true; draft = none },
          elems buf_len,
          rest_room s (sim.event ∙ e) free ∙ q,
          begin_room a e room,
          sim',
        )
  ]
]

renewed_writing : (a : Model) → (renewed a).writing ≡ a.writing
renewed_writing a = ground arith

length-reset_old : (s : Soapy) → length (reset_old s).buffs ≡ length s.buffs
length-reset_old s = ground arith

-- `acquireWriteBuffer` gives the next buffer, empties the queue, or reports that none is free.
pub acquires-Sim :
    (s : Soapy) (a : Model)
    → Sim s a
    → a.writing ≡ false
    → (a' : Model) × (r : Status) × (begin (renewed a) ≡ (a', got r))
      × Follows acquires s a' (got r)
unfolding perform acquire_write_buffer wait_for
acquires-Sim s a sim idle =
    let sim' = reset_old-Sim s a sim idle in
    let (s', a', r, q, begun, after) =
      acquire_rest-Sim (reset_old s) (renewed a) sim' (renewed_writing a ∙ idle) in
    let some_buffs : (length s.buffs == 0) ≡ false = ground (arith, sim.fits) in
    (a', r, begun, (s', rw some_buffs (ap (Option.map (λ (t, r'). (t, got r'))) q), after))
