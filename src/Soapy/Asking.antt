-- ===== src/Soapy/Asking.antt =====
-- `tx_callback` takes the oldest buffer from the queue.
use osmo_fl2k.Prelude.{
  ℕ, suc, ◌+◌, ◌%◌, ◌^◌, ◌<◌, List, ◌∷◌, some, true, false, ltb, leb, ◌≡◌, ◌⊎◌, refl, sym, ◌∙◌, ap,
  arith, get_elem?, modify, length, length-modify,
}
use osmo_fl2k.Worker.{DataInfo}
use osmo_fl2k.Soapy.{Buffer, Soapy, stamp, give_all, send_tail, tx_callback}
use osmo_fl2k.Soapy.Slots.{slot, mod_slot, slot-lt, give_all-bare, bare-stamp}
use osmo_fl2k.Soapy.Model.{asks, given, perform, Model}
use osmo_fl2k.Soapy.Sim.{held, cell, Fits, Sim, Follows, bare_of_cell}

-- `tx_callback` when it has nothing to give.
pub asks_nothing :
    (s : Soapy) (a : Model) (info : DataInfo)
    → (ltb 0 info.underflow_cnt ≡ true) ⊎ (length a.queue ≡ 0)
    → Sim s a
    → Follows (asks info) s (record a { underflow_event = true }) (given info)
unfolding perform tx_callback
asks_nothing s a info h sim = (
  record s { ticks = (s.ticks + info.len) % 2 ^ 64; underflow_event = true },
  ground (arith, sim.fits),
  record {
    fits = sim.fits;
    cells = sim.cells;
    current = sim.current;
    draft = sim.draft;
    channels = sim.channels;
    signed = sim.signed;
    event = refl;
    reset = sim.reset;
  },
)

-- `tx_callback` when a buffer waits.
module _ (s : Soapy) (a : Model) (info : DataInfo) (b : Buffer) (bs : List Buffer)
    (no_underflow : ltb 0 info.underflow_cnt ≡ false) (queue : a.queue ≡ b ∷ bs)
    (sim : Sim s a) where
  fits : Fits (length s.buffs) s.buf_head s.buf_tail s.buf_count a.size (suc (length bs)) (held a)
  fits = rw queue at sim.fits

  abbrev sent : Soapy
  sent = record s {
    ticks = (s.ticks + info.len) % 2 ^ 64;
    buffs = modify (stamp s.ticks) s.buffs s.buf_tail;
    buf_tail = (s.buf_tail + 1) % length s.buffs;
    buf_count = (s.buf_count + 1) % 2 ^ 64;
  }

  next_tail : (s.buf_tail + 1) % length s.buffs ≡ slot a.size (s.buf_tail + 1)
  next_tail = rw (fits.same_size) (mod_slot a.size (s.buf_tail + 1) (omega (arith, fits)))

  at_tail : cell s s.buf_tail ≡ some b
  at_tail =
      let e = sim.cells 0 (rw queue (omega arith)) in
      let here : slot a.size (s.buf_tail + 0) ≡ s.buf_tail = ground (arith, fits) in
      ap (cell s) (sym here) ∙ e ∙ ap (λ q. get_elem? q 0) queue

  sends :
      tx_callback s info
      ≡ some (sent, record (give_all b a.channels info) { sampletype_signed = a.signed })
  unfolding tx_callback send_tail
  sends =
      let (x, at, same) = bare_of_cell s.buffs s.buf_tail b at_tail in
      let given_alike : give_all x s.channels info ≡ give_all b a.channels info =
        give_all-bare x s.channels info
        ∙ ap (λ t. give_all t s.channels info) same
        ∙ ap (λ t. give_all b t info) sim.channels in
      let free : leb (length s.buffs) s.buf_count ≡ false = ground (arith, fits) in
      rw (no_underflow, free, at, given_alike, sim.signed) refl

  sent-Fits :
      Fits
        (length sent.buffs)
        sent.buf_head
        sent.buf_tail
        sent.buf_count
        a.size
        (length bs)
        (held a)
  sent-Fits =
      rw (length-modify, next_tail)
        (record {
          same_size = fits.same_size;
          some_buffs = fits.some_buffs;
          few_buffs = fits.few_buffs;
          head_below = fits.head_below;
          tail_below = slot-lt a.size (s.buf_tail + 1) (omega (arith, fits));
          free = omega (arith, fits);
          holds = omega (arith, fits);
          place = ground (arith, fits);
        })

  shifted :
      (i : ℕ)
      → i < a.size
      → slot a.size (slot a.size (s.buf_tail + 1) + i) ≡ slot a.size (s.buf_tail + suc i)
  shifted i h = ground (arith, fits)

  pub asks_buffer :
      Follows
        (asks info)
        s
        (record a { queue = bs })
        (given (record (give_all b a.channels info) { sampletype_signed = a.signed }))
  unfolding perform
  asks_buffer = (
    sent,
    rw sends refl,
    record {
      fits = sent-Fits;
      cells = λ i l.
          bare-stamp s.ticks s.buffs s.buf_tail _
          ∙ ap (λ t. cell s (slot a.size (t + i))) next_tail
          ∙ ap (cell s) (shifted i (omega (arith, fits)))
          ∙ sim.cells (suc i) (rw queue (omega arith))
          ∙ ap (λ q. get_elem? q (suc i)) queue;
      current = λ w.
          sim.current w
          ∙ ap (λ q. slot a.size (s.buf_tail + length q)) queue
          ∙ sym (
              ap (λ t. slot a.size (t + length bs)) next_tail
              ∙ shifted (length bs) (omega (arith, fits)));
      draft = λ p e. bare-stamp s.ticks s.buffs s.buf_tail s.current_handle ∙ sim.draft p e;
      channels = sim.channels;
      signed = sim.signed;
      event = sim.event;
      reset = sim.reset;
    },
  )
