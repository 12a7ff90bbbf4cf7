-- ===== src/Soapy/Writing.antt =====
-- The writing to a buffer, and `releaseWriteBuffer`.
use mathlib.Core.Option
use osmo_fl2k.Prelude.{
  ◌+◌, ◌<◌, [], ◌∷◌, ◌++◌, none, some, true, false, ◌≡◌, refl, sym, ◌∙◌, ap, arith, get_elem?,
  modify, length, length-append, length-modify, get_elem?-modify_self, get_elem?-modify_ne,
  in_range, get_elem?-append_left, get_elem?-append_end, ℕ_discrete,
}
use osmo_fl2k.Soapy.{Buffer, Soapy, release_write_buffer}
use osmo_fl2k.Soapy.Slots.{slot, slot-lt, slot-ne, bare}
use osmo_fl2k.Soapy.Model.{writes, releases, done, overwrite, perform, Model}
use osmo_fl2k.Soapy.Sim.{cell, Sim, Follows}

-- The samples go to the buffer that is being written, and to no buffer of the queue.
pub writes-Sim :
    (s : Soapy) (a : Model) (p : Buffer)
    → Sim s a
    → a.writing ≡ true
    → Follows (writes p) s (record a { draft = some (bare p) }) done
unfolding perform
writes-Sim s a p sim busy =
    let f = sim.fits in
    let below : s.current_handle < length s.buffs =
      let l = slot-lt a.size (s.buf_tail + length a.queue) (omega (arith, f)) in
      omega (arith, f, sim.current busy, l) in
    let (x, at) = in_range s.buffs s.current_handle below in
    (
      record s { buffs = modify (overwrite p) s.buffs s.current_handle },
      refl,
      record {
        fits = rw length-modify f;
        cells = λ i l.
            let full : length a.queue < a.size = ground (arith, f, busy) in
            let other = slot-ne a.size s.buf_tail i (length a.queue) f.tail_below l full in
            ap (Option.map bare) (
              get_elem?-modify_ne (overwrite p) s.buffs s.current_handle _
                (λ e. other (sym e ∙ sim.current busy)))
            ∙ sim.cells i l;
        current = sim.current;
        draft = λ p' e.
            ap (Option.map bare) (get_elem?-modify_self (overwrite p) s.buffs s.current_handle x at)
            ∙ e;
        channels = sim.channels;
        signed = sim.signed;
        event = sim.event;
        reset = sim.reset;
      },
    )

-- `releaseWriteBuffer` puts the buffer being written at the end of the queue.
pub releases-Sim :
    (s : Soapy) (a : Model) (p : Buffer)
    → Sim s a
    → a.writing ≡ true
    → a.draft ≡ some p
    → Follows releases s
        (record a { queue = a.queue ++ p ∷ []; writing = false; draft = none })
        done
unfolding perform release_write_buffer
releases-Sim s a p sim busy drafted =
    let f = sim.fits in
    let len = length-append a.queue (p ∷ []) in
    (
      release_write_buffer s,
      refl,
      record {
        fits = rw len (record {
          same_size = f.same_size;
          some_buffs = f.some_buffs;
          few_buffs = f.few_buffs;
          head_below = f.head_below;
          tail_below = f.tail_below;
          free = ground (arith, f, busy);
          holds = ground (arith, f, busy);
          place = ground (arith, f, busy);
        });
        cells = λ i l. elim (ℕ_discrete i (length a.queue)) [
          | yes e ↦
              ap (λ j. cell s (slot a.size (s.buf_tail + j))) e
              ∙ ap (cell s) (sym (sim.current busy))
              ∙ sim.draft p drafted
              ∙ sym (ap (get_elem? (a.queue ++ p ∷ [])) e ∙ get_elem?-append_end a.queue p)
          | no n ↦
              let l' : i < length a.queue = omega (arith, len) in
              let (b, at) = in_range a.queue i l' in
              sim.cells i l' ∙ at ∙ sym (get_elem?-append_left a.queue (p ∷ []) i b at)
        ];
        current = λ w. absurd (cc);
        draft = λ p' e. absurd (cc);
        channels = sim.channels;
        signed = sim.signed;
        event = sim.event;
        reset = sim.reset;
      },
    )
