-- ===== src/Fm/Turns.antt =====
-- src/fl2k_fm.c: `fm_worker` goes from one buffer to the other.
use mathlib.Core.Path.{subst}
use osmo_fl2k.Prelude.{
  ℕ, ◌+◌, ◌-◌, ◌%◌, ◌^◌, ◌≤◌, ◌<◌, List, [], ◌++◌, some, true, false, ◌≡◌, inl, inr, refl, sym, ◌∙◌,
  arith, length, Bool-cases,
}
use osmo_fl2k.Device.{buf_len}
use osmo_fl2k.Fm.{Doubles, Dds, buffer_samples, dds_real_buf}
use osmo_fl2k.Fm.Wave.{after, wave, length-wave, after-phase-lt}
use osmo_fl2k.Fm.Worker.{FmWorker, turn_over}
use osmo_fl2k.Fm.Filling.{IsFilling, drops, hands, Went, stored_front, two_parts, full_buffer}

module _ (fl : Doubles) where
  -- The buffer that the second part goes to is the other one, or the same one.
  filling_front :
      (n : ℕ) (w : FmWorker fl) (made rest : List ℕ)
      → w.fmbuf ≡ made ++ rest
      → length made ≡ n
      → n + length rest ≡ buf_len
      → w.len ≡ n
      → length w.txbuf ≡ buf_len
      → w.carrier.phase < 2 ^ 32
      → w.readpos < buffer_samples
      → IsFilling fl w made rest
  filling_front n w made rest is k whole len other phase position = record {
    is = is;
    as_many = k ∙ sym len;
    whole = omega arith;
    other = other;
    phase = phase;
    position = position;
  }

  -- Behind the two parts, with and without another buffer that is ready.
  turned : FmWorker fl → List ℕ → Dds fl → List ℕ → ℕ → FmWorker fl
  turned w txbuf carrier fmbuf len = record w {
    fmbuf = fmbuf;
    txbuf = txbuf;
    carrier = carrier;
    len = len;
    buf_prefilled = true;
  }

  turn_handed :
      (table : List ℕ) (n k : ℕ) (w : FmWorker fl) (full buf : List ℕ) (c c' : Dds fl)
      → w.buf_prefilled ≡ true
      → dds_real_buf fl table (buf_len - w.len) w.len w.fmbuf w.carrier ≡ some (full, c)
      → (n + 2 ^ 32 - (buf_len - w.len)) % 2 ^ 32 ≡ k
      → dds_real_buf fl table k 0 w.txbuf c ≡ some (buf, c')
      → turn_over fl table n w ≡ some (turned w full c' buf k, full)
  unfolding turn_over turned
  turn_handed table n k w full buf c c' b first left =
      subst
        (λ k.
          dds_real_buf fl table k 0 w.txbuf c ≡ some (buf, c')
          → turn_over fl table n w ≡ some (turned w full c' buf k, full))
        left (λ second. rw (turn_over, first, b, second) refl)

  turn_dropped :
      (table : List ℕ) (n k : ℕ) (w : FmWorker fl) (full buf : List ℕ) (c c' : Dds fl)
      → w.buf_prefilled ≡ false
      → dds_real_buf fl table (buf_len - w.len) w.len w.fmbuf w.carrier ≡ some (full, c)
      → (n + 2 ^ 32 - (buf_len - w.len)) % 2 ^ 32 ≡ k
      → dds_real_buf fl table k 0 full c ≡ some (buf, c')
      → turn_over fl table n w ≡ some (turned w w.txbuf c' buf k, [])
  unfolding turn_over turned
  turn_dropped table n k w full buf c c' b first left =
      subst
        (λ k.
          dds_real_buf fl table k 0 full c ≡ some (buf, c')
          → turn_over fl table n w ≡ some (turned w w.txbuf c' buf k, []))
        left (λ second. rw (turn_over, first, b, second) refl)

  pub turn_over-Went :
      (table : List ℕ) (n : ℕ) (w : FmWorker fl) (done rest : List ℕ)
      → length table ≡ 256
      → IsFilling fl w done rest
      → buf_len < w.len + n
      → n ≤ buf_len
      → Went fl w done (wave fl table n w.carrier) (after fl n w.carrier) (turn_over fl table n w)
  unfolding turned
  turn_over-Went table n w done rest l f over room =
      let m = buf_len - w.len in
      let d' = after fl m w.carrier in
      let (full, stored, len_full, same_signal) = full_buffer fl table n w done rest l f over in
      let left : (n + 2 ^ 32 - m) % 2 ^ 32 ≡ n - m = omega (arith, f) in
      let carrier = (two_parts fl table n m w.carrier (omega (arith, f))).1 in
      let p' = after-phase-lt fl m w.carrier f.phase in
      let p'' = after-phase-lt fl (n - m) d' p' in
      let k = length-wave fl table (n - m) d' in
      elim (Bool-cases w.buf_prefilled) [
        | inl b ↦
            let (rest', stored', k') =
              stored_front fl table (n - m) w.txbuf d' l p' f.other (omega arith) in
            let w' =
              turned w full (after fl (n - m) d') (wave fl table (n - m) d' ++ rest') (n - m) in
            record {
              w' = w';
              sent = full;
              done' = wave fl table (n - m) d';
              rest' = rest';
              dropped = [];
              returns =
                  turn_handed table n (n - m) w full (wave fl table (n - m) d' ++ rest') d'
                    (after fl (n - m) d') b stored left stored';
              filling =
                  filling_front (n - m) w' (wave fl table (n - m) d') rest' refl k k' refl len_full
                    p'' f.position;
              same_signal = same_signal;
              turn = hands b refl refl len_full;
              same_position = refl;
              same_carrier = carrier;
            }
        | inr b ↦
            let (rest', stored', k') =
              stored_front fl table (n - m) full d' l p' len_full (omega arith) in
            let w' =
              turned w w.txbuf (after fl (n - m) d') (wave fl table (n - m) d' ++ rest') (n - m) in
            record {
              w' = w';
              sent = [];
              done' = wave fl table (n - m) d';
              rest' = rest';
              dropped = full;
              returns =
                  turn_dropped table n (n - m) w full (wave fl table (n - m) d' ++ rest') d'
                    (after fl (n - m) d') b stored left stored';
              filling =
                  filling_front (n - m) w' (wave fl table (n - m) d') rest' refl k k' refl f.other
                    p'' f.position;
              same_signal = same_signal;
              turn = drops b refl len_full refl;
              same_position = refl;
              same_carrier = carrier;
            }
      ]
