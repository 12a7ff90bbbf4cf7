-- ===== src/Fm/Gapless.antt =====
-- src/fl2k_fm.c: the two buffers of `fm_worker` carry one signal without a gap.
use mathlib.Core.List.{append_assoc, append-nil}
use osmo_fl2k.Prelude.{
  ℕ, ◌+◌, ◌%◌, ◌^◌, ◌≤◌, List, [], ◌∷◌, ◌++◌, some, Bool, false, ltb, if◌then◌else◌, ◌≡◌, ◌⊎◌, inl,
  inr, refl, sym, ap, ◌∙◌, arith, length, Bool-cases,
}
use osmo_fl2k.Device.{buf_len}
use osmo_fl2k.Fm.{Doubles, buffer_samples, dds_set_freq}
use osmo_fl2k.Fm.Wave.{after, wave}
use osmo_fl2k.Fm.Filling.{IsFilling, Turn, fills, drops, hands, Went, fill_on-Went}
use osmo_fl2k.Fm.Turns.{turn_over-Went}
use osmo_fl2k.Fm.Signal.{signal, AllTones, Ready, next_tone-Ready, tuned, set_freq-phase}
use osmo_fl2k.Fm.Worker.{FmWorker, Tones, next_tone, turn_over, fill_on, fm_round, fm_rounds}

module _ (fl : Doubles) where
  round_branch :
      (table : List ℕ) (n : ℕ) (w : FmWorker fl) (done rest : List ℕ)
      → length table ≡ 256
      → n ≤ buf_len
      → IsFilling fl w done rest
      → Went fl w done (wave fl table n w.carrier) (after fl n w.carrier) (
          if ltb buf_len ((w.len + n) % 2 ^ 32)
          then turn_over fl table n w
          else fill_on fl table n w)
  round_branch table n w done rest l room f =
      elim (Bool-cases (ltb buf_len ((w.len + n) % 2 ^ 32))) [
        | inl e ↦ rw e (turn_over-Went fl table n w done rest l f (ground (arith, f)) room)
        | inr e ↦ rw e (fill_on-Went fl table n w done rest l f (ground (arith, f)))
      ]

  -- What the rounds lose: a first buffer, if there was none ready, or nothing.
  abbrev pub Lost : Bool → List ℕ → Type 0
  Lost ready lost = (lost ≡ []) ⊎ ((ready ≡ false) × (length lost ≡ buf_len))

  -- The rounds give the callback, and keep in the buffer, all samples but those lost.
  pub record Gapless (table : List ℕ) (tones : List (Tones fl)) (n : ℕ) (w : FmWorker fl)
      (done : List ℕ) : Type 0 where
    pub w' : FmWorker fl
    pub sent : List ℕ
    pub lost : List ℕ
    pub done' : List ℕ
    pub rest' : List ℕ
    pub returns : fm_rounds fl table tones n w ≡ some (w', sent)
    pub filling : IsFilling fl w' done' rest'
    pub same_signal : done ++ signal fl table tones n w.readpos w.carrier ≡ lost ++ (sent ++ done')
    pub loses : Lost w.buf_prefilled lost

  Turn-Lost :
      (b b' : Bool) (dropped sent lost more : List ℕ)
      → Turn fl b b' dropped sent
      → Lost b' lost
      → (all : List ℕ) × Lost b all × (dropped ++ (sent ++ (lost ++ more)) ≡ all ++ (sent ++ more))
  Turn-Lost b b' dropped sent lost more (fills e d s) (inl l) = ([], inl refl, rw (d, s, l) refl)
  Turn-Lost b b' dropped sent lost more (fills e d s) (inr (ready, l)) =
      (lost, inr (sym e ∙ ready, l), rw (d, s) refl)
  Turn-Lost b b' dropped sent lost more (drops e e' d s) (inl l) =
      (dropped, inr (e, d), rw (s, l) refl)
  Turn-Lost b b' dropped sent lost more (drops e e' d s) (inr (ready, l)) = absurd (ground arith)
  Turn-Lost b b' dropped sent lost more (hands e e' d s) (inl l) = ([], inl refl, rw (d, l) refl)
  Turn-Lost b b' dropped sent lost more (hands e e' d s) (inr (ready, l)) = absurd (ground arith)

  -- A round and those behind it: what they return, and the samples.
  fm_rounds-cons :
      (table : List ℕ) (tones : Tones fl) (rest : List (Tones fl)) (n : ℕ) (w v u x : FmWorker fl)
      (sent later : List ℕ)
      → next_tone fl tones w ≡ some v
      → (if ltb buf_len ((v.len + n) % 2 ^ 32)
          then turn_over fl table n v
          else fill_on fl table n v)
        ≡ some (u, sent)
      → fm_rounds fl table rest n u ≡ some (x, later)
      → fm_rounds fl table (tones ∷ rest) n w ≡ some (x, sent ++ later)
  unfolding fm_rounds fm_round
  fm_rounds-cons table tones rest n w v u x sent later a b c =
      rw (fm_rounds, fm_round, a, b, c) refl

  signal-cons :
      (table : List ℕ) (tones : Tones fl) (rest : List (Tones fl)) (n : ℕ) (w : FmWorker fl)
      (r : Ready fl tones w)
      → let d = dds_set_freq fl w.carrier r.freq r.slope in
        signal fl table (tones ∷ rest) n w.readpos w.carrier
        ≡ wave fl table n d
          ++ signal fl table rest n ((w.readpos + 1) % buffer_samples) (after fl n d)
  unfolding signal
  signal-cons table tones rest n w r = rw (signal, r.there) refl

  spliced :
      (done made later dropped sent done1 all lost sent2 done2 : List ℕ)
      → done ++ made ≡ dropped ++ (sent ++ done1)
      → done1 ++ later ≡ lost ++ (sent2 ++ done2)
      → dropped ++ (sent ++ (lost ++ (sent2 ++ done2))) ≡ all ++ (sent ++ (sent2 ++ done2))
      → done ++ (made ++ later) ≡ all ++ ((sent ++ sent2) ++ done2)
  spliced done made later dropped sent done1 all lost sent2 done2 a b c =
      sym (append_assoc done made later)
      ∙ (ap (λ t. t ++ later) a
          ∙ (append_assoc dropped (sent ++ done1) later
              ∙ (ap (λ t. dropped ++ t) (append_assoc sent done1 later ∙ ap (λ t. sent ++ t) b)
                  ∙ (c ∙ ap (λ t. all ++ t) (sym (append_assoc sent sent2 done2))))))

  -- Whatever tones are in the ring, the rounds of the worker return, and the bytes that they give to the callback are the
  -- samples of all tones, one behind the other, but for those still in the buffer and, if no buffer was ready at
  -- first, those of one whole buffer at the start; if a tone has no more samples than a buffer has bytes, the
  -- tables and both buffers have their lengths, and the positions and the phase are in range.
  pub fm_rounds-Gapless :
      (table : List ℕ) (tones : List (Tones fl)) (n : ℕ) (w : FmWorker fl) (done rest : List ℕ)
      → length table ≡ 256
      → n ≤ buf_len
      → AllTones fl tones
      → IsFilling fl w done rest
      → Gapless table tones n w done
  unfolding fm_rounds signal
  fm_rounds-Gapless table [] n w done rest l room t f = record {
    w' = w;
    sent = [];
    lost = [];
    done' = done;
    rest' = rest;
    returns = refl;
    filling = f;
    same_signal = append-nil done;
    loses = inl refl;
  }
  fm_rounds-Gapless table (tones ∷ more) n w done rest l room t f =
      let r = next_tone-Ready fl tones w t.0 f.position in
      let d = dds_set_freq fl w.carrier r.freq r.slope in
      let v : FmWorker fl = record w { carrier = d; readpos = (w.readpos + 1) % buffer_samples } in
      let went = round_branch table n v done rest l room (
        tuned fl w d ((w.readpos + 1) % buffer_samples) done rest f
          (set_freq-phase fl w.carrier r.freq r.slope) (omega arith)) in
      let later =
        fm_rounds-Gapless table more n went.w' went.done' went.rest' l room t.1 went.filling in
      let (all, loses, joined) =
        Turn-Lost w.buf_prefilled went.w'.buf_prefilled went.dropped went.sent later.lost
          (later.sent ++ later.done') went.turn later.loses in
      let same : signal fl table more n went.w'.readpos went.w'.carrier
          ≡ signal fl table more n ((w.readpos + 1) % buffer_samples) (after fl n d) =
        ap (λ k. signal fl table more n k went.w'.carrier) went.same_position
        ∙ ap (signal fl table more n ((w.readpos + 1) % buffer_samples)) went.same_carrier in
      record {
        w' = later.w';
        sent = went.sent ++ later.sent;
        lost = all;
        done' = later.done';
        rest' = later.rest';
        returns =
            fm_rounds-cons table tones more n w v went.w' later.w' went.sent later.sent r.returns
              went.returns later.returns;
        filling = later.filling;
        same_signal =
            ap (λ t. done ++ t) (signal-cons table tones more n w r)
            ∙ spliced done (wave fl table n d)
                (signal fl table more n ((w.readpos + 1) % buffer_samples) (after fl n d))
                went.dropped went.sent went.done' all later.lost later.sent later.done'
                went.same_signal (ap (λ t. went.done' ++ t) (sym same) ∙ later.same_signal) joined;
        loses = loses;
      }
