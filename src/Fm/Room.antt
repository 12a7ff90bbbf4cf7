-- ===== src/Fm/Room.antt =====
-- src/fl2k_fm.c: the room that the modulators find in the ring of frequencies.
use osmo_fl2k.Prelude.{
  ℕ, suc, ◌+◌, ◌%◌, ◌≤◌, ◌<◌, List, [], ◌∷◌, Option, none, some, false, ltb, ◌==◌, ◌≡◌, ◌≢◌, inl,
  inr, refl, sym, ap, ◌∙◌, arith, get_elem?, length, ℤ, Bool-cases,
}
use osmo_fl2k.Fm.{Doubles, buffer_samples, audio_buf_size}
use osmo_fl2k.Fm.Modulator.{
  writelen, Settings, Modulator, mono_samples, end_of_sound, Sources, mono_round,
}
use osmo_fl2k.Fm.Ring.{IsRing, modulate_all-Written}

-- The room that `writelen` finds: no more than asked for, and none of its places is the one being read.
record Room (readpos writepos maxlen len : ℕ) : Type 0 where
  pub at_most : len ≤ maxlen
  pub below : len < buffer_samples
  pub spares : (i : ℕ) → i < len → (writepos + i) % buffer_samples ≢ readpos

writelen-Room :
    (readpos writepos maxlen : ℕ)
    → readpos < buffer_samples
    → writepos < buffer_samples
    → Room readpos writepos maxlen (writelen readpos writepos maxlen)
unfolding writelen
writelen-Room readpos writepos maxlen h h' = record {
  at_most = ground arith;
  below = ground arith;
  spares = λ i l e. ground arith;
}

module _ (fl : Doubles) where
  -- `fread` gives no more than it is asked for.
  pub record IsSources {F : Type 0} (src : Sources fl F) : Type 0 where
    pub bounded : (f : F) (n : ℕ) → length (src.fread f n).0 ≤ n

  mono_samples-le :
      (audio : List ℤ) (rds : Option (List fl.Double))
      → length (mono_samples fl audio rds) ≤ length audio
  unfolding mono_samples
  mono_samples-le [] rds = omega arith
  mono_samples-le (a ∷ audio) none = omega (arith, mono_samples-le audio none)
  mono_samples-le (a ∷ audio) (some []) = omega arith
  mono_samples-le (a ∷ audio) (some (r ∷ rds)) = omega (arith, mono_samples-le audio (some rds))

  -- Only `do_exit` changes at the end of the sound.
  end_of_sound-IsRing :
      (s : Settings fl) (audio : List ℤ) (m : Modulator fl)
      → IsRing fl s m
      → IsRing fl s (end_of_sound fl audio m)
        × ((end_of_sound fl audio m).freqbuf ≡ m.freqbuf)
        × ((end_of_sound fl audio m).readpos ≡ m.readpos)
        × ((end_of_sound fl audio m).writepos ≡ m.writepos)
  end_of_sound-IsRing s [] m r = (
    record {
      freqs = r.freqs;
      slopes = r.slopes;
      reading = r.reading;
      writing = r.writing;
      written = r.written;
    },
    refl,
    refl,
    refl,
  )
  end_of_sound-IsRing s (a ∷ audio) m r =
      let e : suc (length audio) == 0 ≡ false = ground arith in rw e (r, refl, refl, refl)

  -- A round of the mono modulator returns, with a ring again, and does not touch the frequency that the worker reads
  -- next, however much sound there is, if `fread` gives no more than it is asked for.
  pub mono_round-spares :
      {F : Type 0} (src : Sources fl F) (s : Settings fl) (f : F) (m : Modulator fl)
      → IsSources src
      → IsRing fl s m
      → (m' : Modulator fl) × (f' : F) × (mono_round fl src s f m ≡ some (m', f'))
        × IsRing fl s m'
        × (m'.readpos ≡ m.readpos)
        × (get_elem? m'.freqbuf m.readpos ≡ get_elem? m.freqbuf m.readpos)
  unfolding mono_round
  mono_round-spares src s f m is r =
      let len = writelen m.readpos m.writepos audio_buf_size in
      let room = writelen-Room m.readpos m.writepos audio_buf_size r.reading r.writing in
      let (audio, f1) = src.fread f len in
      let (rds, f2) = src.rds f1 (length audio) in
      let few = mono_samples-le audio rds in
      let (r', freqs, rp, wp) = end_of_sound-IsRing s audio m r in
      let (m', run, w) =
        modulate_all-Written fl s (mono_samples fl audio rds) (end_of_sound fl audio m) r'
          (omega (arith, few, is.bounded f len, room)) in
      elim (Bool-cases (ltb 1 len)) [
        | inl e ↦ (
          m',
          f2,
          rw (mono_round, e, run) refl,
          w.ring,
          w.same_readpos ∙ rp,
          w.others m.readpos r.reading (λ i b e.
                room.spares i (omega (arith, few, is.bounded f len))
                  (ap (λ k. (k + i) % buffer_samples) (sym wp) ∙ e))
              ∙ ap (λ b. get_elem? b m.readpos) freqs,
        )
        | inr e ↦ (m, f, rw (mono_round, e) refl, r, refl, refl)
      ]
