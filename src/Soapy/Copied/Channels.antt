-- ===== src/Soapy/Copied/Channels.antt =====
-- src/SoapySDR/Streaming.cpp: `writeStream`, from where a buffer is at hand, copies the samples of each channel to
-- its array.
use mathlib.Core.Path.{subst, subst₂}
use osmo_fl2k.Prelude.{
  ℕ, ◌+◌, ◌-◌, ◌≤◌, ◌<◌, List, [], ◌∷◌, some, true, false, ltb, ◌==◌, if◌then◌else◌, ◌≡◌, inl, inr,
  refl, sym, ◌∙◌, ap, arith, length, get_elem?, modify, ℕ_discrete, Bool-cases,
  get_elem?-modify_self, get_elem?-modify_ne,
}
use osmo_fl2k.Soapy.{Buffer, Soapy, elems}
use osmo_fl2k.Soapy.Write.{
  byte_of_sample, sets_signed, bytes_of, with_bytes, write_channels, bump, finish, write_rest,
}
use osmo_fl2k.Soapy.Stored.{Stored, store_samples-Stored, finish-buffs, finish-result}
use osmo_fl2k.Soapy.Copied.{
  mem, AreDistinct, CanCopy, Copied, bytes_of-with_bytes_self, bytes_of-with_bytes_ne,
  mem-cons_self, mem-cons, mem-cons_ne, ne_of_mem, ne_of_not_mem, write_stream_for_channel_lem,
}

module _ (to_int8 f : ℕ → ℕ) (inputs : List (List ℕ)) (n h o : ℕ) where
  -- The stream behind the first channel.
  abbrev after_first : ℕ → List ℕ → Soapy → Soapy
  after_first c bytes s = record s {
    signed = sets_signed s.tx_format;
    buffs = modify (with_bytes c bytes) s.buffs h;
    current_buffs = modify (bump n) s.current_buffs c;
  }

  module _ (c : ℕ) (cs : List ℕ) (s : Soapy) (b : Buffer) (input bytes : List ℕ)
      (can : CanCopy inputs n h o (c ∷ cs) s b) (once : mem c cs ≡ false)
      (at : get_elem? inputs c ≡ some input)
      (stored : Stored f input o n 0 (bytes_of c b) bytes) where
    c_below : c < 3
    c_below = can.below c (mem-cons_self c cs)

    after_first-CanCopy : CanCopy inputs n h o cs (after_first c bytes s) (with_bytes c bytes b)
    after_first-CanCopy = record {
      below = λ d m. can.below d (mem-cons c d cs m);
      samples = λ d m. can.samples d (mem-cons c d cs m);
      positions = λ d m.
          get_elem?-modify_ne (bump n) s.current_buffs c d (ne_of_mem c d cs once m)
          ∙ can.positions d (mem-cons c d cs m);
      at_hand = get_elem?-modify_self (with_bytes c bytes) s.buffs h b can.at_hand;
      room = λ d l. elim (ℕ_discrete c d) [
        | yes e ↦
            subst (λ k. o + n ≤ length (bytes_of k (with_bytes c bytes b))) e
              (subst (λ xs. o + n ≤ length xs) (sym (bytes_of-with_bytes_self c bytes b))
                (omega (arith, stored.same_length, can.room c c_below)))
        | no ne ↦
            subst (λ xs. o + n ≤ length xs) (sym (bytes_of-with_bytes_ne c d bytes b c_below l ne))
              (can.room d l)
      ];
    }

    Copied-cons :
        (s' : Soapy) (b' : Buffer)
        → Copied inputs n h o f cs (after_first c bytes s) s' (with_bytes c bytes b) b'
        → Copied inputs n h o f (c ∷ cs) s s' b b'
    Copied-cons s' b' k = record {
      there = k.there;
      other_buffers =
          λ j ne. k.other_buffers j ne ∙ get_elem?-modify_ne (with_bytes c bytes) s.buffs h j ne;
      written = λ d xs m at'. elim (ℕ_discrete c d) [
        | yes e ↦
            let same_input : input ≡ xs = cc (at, at', e) in
            let same_bytes : bytes ≡ bytes_of c b' =
              sym (k.unwritten c c_below once ∙ bytes_of-with_bytes_self c bytes b) in
            subst (λ j. Stored f xs o n 0 (bytes_of j b) (bytes_of j b')) e
              (subst₂ (λ i r. Stored f i o n 0 (bytes_of c b) r) same_input same_bytes stored)
        | no ne ↦
            let m' : mem d cs ≡ true = sym (mem-cons_ne c d cs ne) ∙ m in
            subst (λ xs'. Stored f xs o n 0 xs' (bytes_of d b'))
              (bytes_of-with_bytes_ne c d bytes b c_below (can.below d m) ne)
              (k.written d xs m' at')
      ];
      unwritten = λ d l m.
          let ne = ne_of_not_mem c d cs m in
          k.unwritten d l (sym (mem-cons_ne c d cs ne) ∙ m)
          ∙ bytes_of-with_bytes_ne c d bytes b c_below l ne;
      moved = λ d m. elim (ℕ_discrete c d) [
        | yes e ↦
            subst (λ j. get_elem? s'.current_buffs j ≡ some (record { handle = h; offset = o + n }))
              e
              (k.unmoved c once
                ∙ get_elem?-modify_self (bump n) s.current_buffs c _
                    (can.positions c (mem-cons_self c cs)))
        | no ne ↦ k.moved d (sym (mem-cons_ne c d cs ne) ∙ m)
      ];
      unmoved = λ d m.
          let ne = ne_of_not_mem c d cs m in
          k.unmoved d (sym (mem-cons_ne c d cs ne) ∙ m)
          ∙ get_elem?-modify_ne (bump n) s.current_buffs c d ne;
      rest =
          ap
            (λ (t : Soapy). record t {
              signed = s.signed;
              buffs = s.buffs;
              current_buffs = s.current_buffs;
            })
            k.rest;
    }

  write_channels-Copied :
      (cs : List ℕ) (s : Soapy) (b : Buffer)
      → byte_of_sample to_int8 s.tx_format ≡ some f
      → AreDistinct cs
      → CanCopy inputs n h o cs s b
      → (s' : Soapy) × (b' : Buffer) × (write_channels to_int8 inputs n cs s ≡ some s')
        × Copied inputs n h o f cs s s' b b'
  unfolding write_channels
  write_channels-Copied [] s b e distinct can = (
    s,
    b,
    refl,
    record {
      there = can.at_hand;
      other_buffers = λ k ne. refl;
      written = λ d input m at. cc;
      unwritten = λ d l m. refl;
      moved = λ d m. cc;
      unmoved = λ d m. refl;
      rest = refl;
    },
  )
  write_channels-Copied (c ∷ cs) s b e (once, distinct) can =
      let m = mem-cons_self c cs in
      let (input, at, enough) = can.samples c m in
      let (bytes, done, stored) =
        store_samples-Stored f input o n (bytes_of c b) enough (can.room c (can.below c m)) in
      let can' = after_first-CanCopy c cs s b input bytes can once at stored in
      let (s', b', all, k) =
        write_channels-Copied cs (after_first c bytes s) (with_bytes c bytes b) e distinct can' in
      let first =
        write_stream_for_channel_lem to_int8 f s c h o n input bytes b e can.at_hand done in
      (
        s',
        b',
        rw (at, can.positions c m, first) all,
        Copied-cons c cs s b input bytes can once at stored s' b' k,
      )

-- How many samples a call takes.
abbrev pub taken : ℕ → Soapy → ℕ
taken num s = if ltb s.buffered_elems num then s.buffered_elems else num

more-finish :
    (n num : ℕ) (s : Soapy)
    → n ≡ taken num s
    → (finish n s).more_fragments ≡ ltb num s.buffered_elems
more-finish n num s e = elim (Bool-cases (s.buffered_elems - n == 0)) [
  | inl z ↦ rw z (ground arith)
  | inr z ↦ rw z (ground arith)
]

-- `writeStream`, from where a buffer is at hand, with a format whose samples are stored: it takes as many samples as the
-- buffer has room for, or all of them if they are fewer, and returns their number. Behind it each channel of the
-- stream has their bytes in its array, from where the last call ended, with nothing else of the buffer changed, nor of
-- any other buffer, nor of the stream but `_signed`, the positions, and what the end of the call counts. There are
-- fragments left if the buffer is not full.
pub write_rest_copies :
    (to_int8 f : ℕ → ℕ) (inputs : List (List ℕ)) (num h o : ℕ) (s : Soapy) (b : Buffer)
    → byte_of_sample to_int8 s.tx_format ≡ some f
    → AreDistinct s.channels
    → CanCopy inputs (taken num s) h o s.channels s b
    → (s' : Soapy) × (b' : Buffer) × (write_rest to_int8 inputs num s
        ≡ some (finish (taken num s) s'))
      × Copied inputs (taken num s) h o f s.channels s s' b b'
      × ((finish (taken num s) s').stream.buffs ≡ s'.buffs)
      × ((finish (taken num s) s').result ≡ elems (taken num s))
      × ((finish (taken num s) s').more_fragments ≡ ltb num s.buffered_elems)
unfolding write_rest
write_rest_copies to_int8 f inputs num h o s b e distinct can =
    let n = taken num s in
    let (s', b', all, k) =
      write_channels-Copied to_int8 f inputs n h o s.channels s b e distinct can in
    let same : s'.buffered_elems ≡ s.buffered_elems = ap (λ (t : Soapy). t.buffered_elems) k.rest in
    (
      s',
      b',
      rw all refl,
      k,
      finish-buffs n s',
      finish-result n s',
      subst (λ m. (finish n s').more_fragments ≡ ltb num m) same
          (more-finish n num s' (rw same refl)),
    )
