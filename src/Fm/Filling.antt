-- ===== src/Fm/Filling.antt =====
-- src/fl2k_fm.c: `fm_worker` fills a buffer.
use mathlib.Core.List.{append_assoc, append-nil}
use osmo_fl2k.Prelude.{
  ℕ, ◌+◌, ◌-◌, ◌%◌, ◌^◌, ◌≤◌, ◌<◌, List, [], ◌++◌, Option, some, Bool, true, false, ◌≡◌, refl, sym,
  ap, ◌∙◌, arith, length, length-append,
}
use osmo_fl2k.Device.{buf_len}
use osmo_fl2k.Players.Bytes.{split_at, nothing_of_length}
use osmo_fl2k.Fm.{Doubles, Dds, buffer_samples, dds_real_buf}
use osmo_fl2k.Fm.Wave.{
  after, wave, length-wave, wave_add, after_add, dds_real_buf-wave, after-phase-lt,
}
use osmo_fl2k.Fm.Worker.{FmWorker, fill_on}

module _ (fl : Doubles) where
  -- The buffer being filled has these bytes, and this rest.
  pub record IsFilling (w : FmWorker fl) (done rest : List ℕ) : Type 0 where
    pub is : w.fmbuf ≡ done ++ rest
    pub as_many : length done ≡ w.len
    pub whole : w.len + length rest ≡ buf_len
    pub other : length w.txbuf ≡ buf_len
    pub phase : w.carrier.phase < 2 ^ 32
    pub position : w.readpos < buffer_samples

  -- What a round does to a full buffer: there is none, or it is dropped, or it is given to the callback.
  pub data Turn (b b' : Bool) (dropped sent : List ℕ) : Type 0 where
    fills : b' ≡ b → dropped ≡ [] → sent ≡ [] → Turn b b' dropped sent
    drops : b ≡ false → b' ≡ true → length dropped ≡ buf_len → sent ≡ [] → Turn b b' dropped sent
    hands : b ≡ true → b' ≡ true → dropped ≡ [] → length sent ≡ buf_len → Turn b b' dropped sent

  -- Behind a step that makes the samples `made`.
  pub record Went (w : FmWorker fl) (done made : List ℕ) (c : Dds fl)
      (r : Option (FmWorker fl × List ℕ)) : Type 0 where
    pub w' : FmWorker fl
    pub sent : List ℕ
    pub done' : List ℕ
    pub rest' : List ℕ
    pub dropped : List ℕ
    pub returns : r ≡ some (w', sent)
    pub filling : IsFilling w' done' rest'
    pub same_signal : done ++ made ≡ dropped ++ (sent ++ done')
    pub turn : Turn w.buf_prefilled w'.buf_prefilled dropped sent
    pub same_position : w'.readpos ≡ w.readpos
    pub same_carrier : w'.carrier ≡ c

  -- Samples go behind the bytes that are there, or to the front of a buffer.
  pub stored_at :
      (table : List ℕ) (n : ℕ) (w : FmWorker fl) (done rest : List ℕ)
      → length table ≡ 256
      → IsFilling w done rest
      → n ≤ length rest
      → (rest' : List ℕ) × (dds_real_buf fl table n w.len w.fmbuf w.carrier
          ≡ some (done ++ (wave fl table n w.carrier ++ rest'), after fl n w.carrier))
        × (n + length rest' ≡ length rest)
  stored_at table n w done rest l f room =
      let (front, rest', same, k) = split_at n rest room in
      let stored = dds_real_buf-wave fl table n w.carrier done front rest' l f.phase k in
      let len_rest : length rest ≡ length front + length rest' =
        ap length same ∙ length-append front rest' in
      let is : w.fmbuf ≡ done ++ (front ++ rest') = f.is ∙ ap (◌++◌ done) same in
      (rest', rw (is, ← f.as_many) stored, omega arith)

  pub stored_front :
      (table : List ℕ) (n : ℕ) (buf : List ℕ) (d : Dds fl)
      → length table ≡ 256
      → d.phase < 2 ^ 32
      → length buf ≡ buf_len
      → n ≤ buf_len
      → (rest' : List ℕ) × (dds_real_buf fl table n 0 buf d
          ≡ some (wave fl table n d ++ rest', after fl n d))
        × (n + length rest' ≡ buf_len)
  stored_front table n buf d l p whole room =
      let (front, rest', same, k) = split_at n buf (omega arith) in
      let stored = dds_real_buf-wave fl table n d [] front rest' l p k in
      let len_buf : length buf ≡ length front + length rest' =
        ap length same ∙ length-append front rest' in
      (rest', rw same stored, omega arith)

  pub fill_on-Went :
      (table : List ℕ) (n : ℕ) (w : FmWorker fl) (done rest : List ℕ)
      → length table ≡ 256
      → IsFilling w done rest
      → w.len + n ≤ buf_len
      → Went w done (wave fl table n w.carrier) (after fl n w.carrier) (fill_on fl table n w)
  unfolding fill_on
  fill_on-Went table n w done rest l f room =
      let (rest', stored, k) = stored_at table n w done rest l f (omega (arith, f)) in
      let len_done = length-append done (wave fl table n w.carrier) in
      let len_wave = length-wave fl table n w.carrier in
      record {
        w' = record w {
          fmbuf = done ++ (wave fl table n w.carrier ++ rest');
          carrier = after fl n w.carrier;
          len = (w.len + n) % 2 ^ 32;
        };
        sent = [];
        done' = done ++ wave fl table n w.carrier;
        rest' = rest';
        dropped = [];
        returns = rw (fill_on, stored) refl;
        filling = record {
          is = sym (append_assoc done (wave fl table n w.carrier) rest');
          as_many = omega (arith, f);
          whole = omega (arith, f);
          other = f.other;
          phase = after-phase-lt fl n w.carrier f.phase;
          position = f.position;
        };
        same_signal = refl;
        turn = fills refl refl refl;
        same_position = refl;
        same_carrier = refl;
      }

  -- The samples of a tone that fills the buffer, in two parts.
  pub two_parts :
      (table : List ℕ) (n m : ℕ) (d : Dds fl)
      → m ≤ n
      → (wave fl table n d ≡ wave fl table m d ++ wave fl table (n - m) (after fl m d))
        × (after fl (n - m) (after fl m d) ≡ after fl n d)
  two_parts table n m d h =
      let e : m + (n - m) ≡ n = omega arith in
      (
        ap (λ k. wave fl table k d) (sym e) ∙ wave_add fl table m (n - m) d,
        sym (after_add fl m (n - m) d) ∙ ap (λ k. after fl k d) e,
      )

  -- The first part fills the buffer.
  pub full_buffer :
      (table : List ℕ) (n : ℕ) (w : FmWorker fl) (done rest : List ℕ)
      → length table ≡ 256
      → IsFilling w done rest
      → buf_len < w.len + n
      → let m = buf_len - w.len in
        (full : List ℕ) × (dds_real_buf fl table m w.len w.fmbuf w.carrier
          ≡ some (full, after fl m w.carrier))
        × (length full ≡ buf_len)
        × (done ++ wave fl table n w.carrier ≡ full ++ wave fl table (n - m) (after fl m w.carrier))
  full_buffer table n w done rest l f over =
      let m = buf_len - w.len in
      let d = w.carrier in
      let (none', stored, k) = stored_at table m w done rest l f (omega (arith, f)) in
      let first = wave fl table m d in
      let later = wave fl table (n - m) (after fl m d) in
      let len_wave = length-wave fl table m d in
      let len_full = length-append done first in
      let no_rest = nothing_of_length none' (omega (arith, f)) in
      let tidy : done ++ (first ++ none') ≡ done ++ first =
        ap (λ b. done ++ (first ++ b)) no_rest ∙ ap (◌++◌ done) (append-nil first) in
      (
        done ++ first,
        stored ∙ ap (λ b. some (b, after fl m d)) tidy,
        omega (arith, f),
        ap (◌++◌ done) (two_parts table n m d (omega (arith, f))).0
            ∙ sym (append_assoc done first later),
      )
