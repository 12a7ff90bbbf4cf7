-- ===== src/Fm/Ring.antt =====
-- src/fl2k_fm.c: what the modulators write into the ring of frequencies.
use mathlib.Core.Path.{subst}
use osmo_fl2k.Prelude.{
  ℕ, zero, suc, ◌+◌, ◌%◌, ◌<◌, List, [], ◌∷◌, none, some, ◌≡◌, ◌≢◌, refl, ap, ◌∙◌, arith, get_elem?,
  length, set, length-set, get_elem?-set_self, get_elem?-set_ne,
}
use osmo_fl2k.Fm.{Doubles, buffer_samples}
use osmo_fl2k.Fm.Modulator.{
  put, Settings, Modulator, freq_of, slope_of, modulate_sample, modulate_all,
}

put-done :
    {A : Type 0} (buf : List A) (i : ℕ) (v : A) → i < length buf → put buf i v ≡ some (set buf i v)
unfolding put
put-done buf i v l = ground arith

some-injective : {A : Type 0} {x y : A} → some x ≡ some y → x ≡ y
some-injective {A} {x} e = ap (λ o. elim o [ none ↦ x | some a ↦ a ]) e

module _ (fl : Doubles) (s : Settings fl) where
  -- The arrays have their lengths, and the positions are inside.
  pub record IsRing (m : Modulator fl) : Type 0 where
    pub freqs : length m.freqbuf ≡ buffer_samples
    pub slopes : length m.slopebuf ≡ buffer_samples
    pub reading : m.readpos < buffer_samples
    pub writing : m.writepos < buffer_samples
    pub written : m.lastwritepos < buffer_samples

  -- Behind one sample.
  abbrev sampled : fl.Double → Modulator fl → Modulator fl
  sampled sample m = record m {
    slopebuf = set m.slopebuf m.lastwritepos (slope_of fl s (freq_of fl s sample) m.lastfreq);
    freqbuf = set m.freqbuf m.writepos (freq_of fl s sample);
    lastfreq = freq_of fl s sample;
    lastwritepos = m.writepos;
    writepos = (m.writepos + 1) % buffer_samples;
  }

  modulate_sample-sampled :
      (sample : fl.Double) (rest : List fl.Double) (m : Modulator fl)
      → IsRing m
      → modulate_all fl s (sample ∷ rest) m ≡ modulate_all fl s rest (sampled sample m)
  unfolding modulate_all modulate_sample
  modulate_sample-sampled sample rest m r =
      let a =
        put-done m.slopebuf m.lastwritepos (slope_of fl s (freq_of fl s sample) m.lastfreq)
          (omega (arith, r)) in
      let b = put-done m.freqbuf m.writepos (freq_of fl s sample) (omega (arith, r)) in
      rw (modulate_all, modulate_sample, a, b) refl

  sampled-IsRing : (sample : fl.Double) (m : Modulator fl) → IsRing m → IsRing (sampled sample m)
  sampled-IsRing sample m r = record {
    freqs = length-set m.freqbuf m.writepos (freq_of fl s sample) ∙ r.freqs;
    slopes =
        length-set m.slopebuf m.lastwritepos (slope_of fl s (freq_of fl s sample) m.lastfreq)
        ∙ r.slopes;
    reading = r.reading;
    writing = omega arith;
    written = r.writing;
  }

  -- The ring behind a row of samples: each has its frequency in its place, and other places keep theirs.
  pub record Written (samples : List fl.Double) (m m' : Modulator fl) : Type 0 where
    pub ring : IsRing m'
    pub same_readpos : m'.readpos ≡ m.readpos
    pub moved : m'.writepos ≡ (m.writepos + length samples) % buffer_samples
    pub freqs :
        (i : ℕ) (x : fl.Double)
        → get_elem? samples i ≡ some x
        → get_elem? m'.freqbuf ((m.writepos + i) % buffer_samples) ≡ some (freq_of fl s x)
    pub others :
        (k : ℕ)
        → k < buffer_samples
        → ((i : ℕ) → i < length samples → (m.writepos + i) % buffer_samples ≢ k)
        → get_elem? m'.freqbuf k ≡ get_elem? m.freqbuf k
    -- Each slope leads from one frequency to the next one.
    pub first_slope :
        (x : fl.Double)
        → get_elem? samples 0 ≡ some x
        → ((i : ℕ) → i + 1 < length samples → (m.writepos + i) % buffer_samples ≢ m.lastwritepos)
        → get_elem? m'.slopebuf m.lastwritepos ≡ some (slope_of fl s (freq_of fl s x) m.lastfreq)
    pub joins :
        (i : ℕ) (x y : fl.Double)
        → get_elem? samples i ≡ some x
        → get_elem? samples (i + 1) ≡ some y
        → get_elem? m'.slopebuf ((m.writepos + i) % buffer_samples)
          ≡ some (slope_of fl s (freq_of fl s y) (freq_of fl s x))
    pub other_slopes :
        (k : ℕ)
        → k < buffer_samples
        → (0 < length samples → m.lastwritepos ≢ k)
        → ((i : ℕ) → i + 1 < length samples → (m.writepos + i) % buffer_samples ≢ k)
        → get_elem? m'.slopebuf k ≡ get_elem? m.slopebuf k

  -- The samples behind the first one, put in front of them.
  module _ (sample : fl.Double) (rest : List fl.Double) (m m' : Modulator fl) (r : IsRing m)
      (l : length rest + 1 < buffer_samples) (w : Written rest (sampled sample m) m') where
    cons_others :
        (k : ℕ)
        → k < buffer_samples
        → ((i : ℕ) → i < length rest + 1 → (m.writepos + i) % buffer_samples ≢ k)
        → get_elem? m'.freqbuf k ≡ get_elem? m.freqbuf k
    cons_others k h ne =
        w.others k h (λ i b e. ne (i + 1) (omega arith) (omega arith))
        ∙ get_elem?-set_ne m.freqbuf m.writepos k (freq_of fl s sample)
            (λ e. ne 0 (omega arith) (omega (arith, r)))

    cons_freqs :
        (i : ℕ) (x : fl.Double)
        → get_elem? (sample ∷ rest) i ≡ some x
        → get_elem? m'.freqbuf ((m.writepos + i) % buffer_samples) ≡ some (freq_of fl s x)
    cons_freqs zero x e =
        let at : (m.writepos + 0) % buffer_samples ≡ m.writepos = omega (arith, r) in
        let kept = w.others m.writepos r.writing (λ i b e. omega (arith, r)) in
        let same : freq_of fl s sample ≡ freq_of fl s x = ap (freq_of fl s) (some-injective e) in
        ap (get_elem? m'.freqbuf) at
        ∙ (kept
            ∙ (get_elem?-set_self m.freqbuf m.writepos (freq_of fl s sample) (omega (arith, r))
                ∙ ap some same))
    cons_freqs (suc i) x e =
        let at : (m.writepos + suc i) % buffer_samples
            ≡ ((m.writepos + 1) % buffer_samples + i) % buffer_samples =
          omega arith in
        ap (get_elem? m'.freqbuf) at ∙ w.freqs i x e

    cons_other_slopes :
        (k : ℕ)
        → k < buffer_samples
        → m.lastwritepos ≢ k
        → ((i : ℕ) → i < length rest → (m.writepos + i) % buffer_samples ≢ k)
        → get_elem? m'.slopebuf k ≡ get_elem? m.slopebuf k
    cons_other_slopes k h ne nes =
        w.other_slopes k h (λ b e. nes 0 b (omega (arith, r)))
          (λ i b e. nes (i + 1) b (omega arith))
        ∙ get_elem?-set_ne m.slopebuf m.lastwritepos k
            (slope_of fl s (freq_of fl s sample) m.lastfreq) ne

    cons_first_slope :
        ((i : ℕ) → i < length rest → (m.writepos + i) % buffer_samples ≢ m.lastwritepos)
        → get_elem? m'.slopebuf m.lastwritepos
          ≡ some (slope_of fl s (freq_of fl s sample) m.lastfreq)
    cons_first_slope nes =
        w.other_slopes m.lastwritepos r.written (λ b e. nes 0 b (omega (arith, r)))
          (λ i b e. nes (i + 1) b (omega arith))
        ∙ get_elem?-set_self m.slopebuf m.lastwritepos
            (slope_of fl s (freq_of fl s sample) m.lastfreq) (omega (arith, r))

    cons_joins :
        (i : ℕ) (x y : fl.Double)
        → get_elem? (sample ∷ rest) i ≡ some x
        → get_elem? rest i ≡ some y
        → get_elem? m'.slopebuf ((m.writepos + i) % buffer_samples)
          ≡ some (slope_of fl s (freq_of fl s y) (freq_of fl s x))
    cons_joins zero x y e e' =
        let at : (m.writepos + 0) % buffer_samples ≡ m.writepos = omega (arith, r) in
        let same : slope_of fl s (freq_of fl s y) (freq_of fl s sample)
            ≡ slope_of fl s (freq_of fl s y) (freq_of fl s x) =
          ap (λ t. slope_of fl s (freq_of fl s y) (freq_of fl s t)) (some-injective e) in
        ap (get_elem? m'.slopebuf) at
        ∙ (w.first_slope y e' (λ i b e. omega (arith, r)) ∙ ap some same)
    cons_joins (suc i) x y e e' =
        let at : (m.writepos + suc i) % buffer_samples
            ≡ ((m.writepos + 1) % buffer_samples + i) % buffer_samples =
          omega arith in
        ap (get_elem? m'.slopebuf) at
        ∙ w.joins i x y e (subst (λ k. get_elem? rest k ≡ some y) (omega arith) e')

    cons-Written : Written (sample ∷ rest) m m'
    cons-Written = record {
      ring = w.ring;
      same_readpos = w.same_readpos;
      moved = omega (arith, w);
      freqs = cons_freqs;
      others = λ k h ne. cons_others k h (λ i b. ne i (omega arith));
      first_slope = λ x e ne.
          cons_first_slope (λ i b. ne i (omega arith))
          ∙ ap (λ t. some (slope_of fl s (freq_of fl s t) m.lastfreq)) (some-injective e);
      joins = λ i x y e e'.
          let k : i + 1 ≡ suc i = omega arith in
          cons_joins i x y e (subst (λ j. get_elem? (sample ∷ rest) j ≡ some y) k e');
      other_slopes =
          λ k h ne nes. cons_other_slopes k h (ne (omega arith)) (λ i b. nes i (omega arith));
    }

  -- Samples, fewer than the ring has places, are put into the places from the writing position on, each as its frequency, other
  -- places keep theirs, and the slope at each place leads to the next frequency; the ring stays a ring.
  pub modulate_all-Written :
      (samples : List fl.Double) (m : Modulator fl)
      → IsRing m
      → length samples < buffer_samples
      → (m' : Modulator fl) × (modulate_all fl s samples m ≡ some m') × Written samples m m'
  unfolding modulate_all
  modulate_all-Written [] m r l = (
    m,
    refl,
    record {
      ring = r;
      same_readpos = refl;
      moved = omega (arith, r);
      freqs = λ i x e. absurd (cc);
      others = λ k h ne. refl;
      first_slope = λ x e ne. absurd (cc);
      joins = λ i x y e e'. absurd (cc);
      other_slopes = λ k h ne nes. refl;
    },
  )
  modulate_all-Written (sample ∷ rest) m r l =
      let (m', run, w) =
        modulate_all-Written rest (sampled sample m) (sampled-IsRing sample m r) (omega arith) in
      (
        m',
        modulate_sample-sampled sample rest m r ∙ run,
        cons-Written sample rest m m' r (omega arith) w,
      )
