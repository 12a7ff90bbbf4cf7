-- ===== src/Soapy/Copied/Call.antt =====
-- src/SoapySDR/Streaming.cpp: a call of `writeStream` that acquires a buffer and copies samples to its front.
use mathlib.Core.Path.{subst}
use osmo_fl2k.Prelude.{
  ℕ, ◌+◌, ◌≤◌, ◌<◌, ◌%◌, List, [], ◌∷◌, Option, some, true, false, ltb, ◌==◌, if◌then◌else◌, ◌≡◌,
  ◌≢◌, inl, inr, refl, sym, ◌∙◌, ap, arith, length, get_elem?, modify, Bool-cases, in_range,
  length-modify, get_elem?-modify_self, get_elem?-modify_ne, ◌>>=◌,
}
use osmo_fl2k.Device.{buf_len}
use osmo_fl2k.Soapy.{
  Buffer, Pointer, Soapy, elems, point_to, take_head, wait_for, acquire_write_buffer,
}
use osmo_fl2k.Soapy.Setup.{too_high}
use osmo_fl2k.Soapy.Write.{
  byte_of_sample, bytes_of, finish, Written, with_acquired, drop_old, write_rest, write_stream,
}
use osmo_fl2k.Soapy.Copied.{mem, AreDistinct, CanCopy, Copied, ne_of_not_mem}
use osmo_fl2k.Soapy.Copied.Channels.{write_rest_copies}

point_to-kept :
    (h : ℕ) (cs : List ℕ) (ps : List Pointer) (d : ℕ)
    → mem d cs ≡ false
    → get_elem? (point_to h cs ps) d ≡ get_elem? ps d
unfolding point_to
point_to-kept h [] ps d m = refl
point_to-kept h (c ∷ cs) ps d m =
    point_to-kept h cs (modify (λ _. record { handle = h; offset = 0 }) ps c) d (ground arith)
    ∙ get_elem?-modify_ne (λ _. record { handle = h; offset = 0 }) ps c d (ne_of_not_mem c d cs m)

point_to-front :
    (h : ℕ) (cs : List ℕ) (ps : List Pointer) (d : ℕ)
    → mem d cs ≡ true
    → d < length ps
    → get_elem? (point_to h cs ps) d ≡ some (record { handle = h; offset = 0 })
unfolding point_to
point_to-front h [] ps d m l = cc
point_to-front h (c ∷ cs) ps d m l =
    let front = λ (_ : Pointer). let p : Pointer = record { handle = h; offset = 0 } in p in
    elim (Bool-cases (mem d cs)) [
      | inl inside ↦
          point_to-front h cs (modify front ps c) d inside
            (subst (λ n. d < n) (sym (length-modify front ps c)) l)
      | inr outside ↦
          let same : c ≡ d = ground arith in
          let (p, at) = in_range ps d l in
          point_to-kept h cs (modify front ps c) d outside
          ∙ subst (λ k. get_elem? (modify front ps k) d ≡ some (front p)) (sym same)
              (get_elem?-modify_self front ps d p at)
    ]

below_of_mem : (d : ℕ) (cs : List ℕ) → too_high cs ≡ false → mem d cs ≡ true → d < 3
below_of_mem d [] low m = cc
below_of_mem d (c ∷ cs) low m = elim (Bool-cases (mem d cs)) [
  | inl inside ↦ below_of_mem d cs (ground arith) inside
  | inr outside ↦ ground arith
]

-- A buffer with room for its samples in each array.
abbrev pub IsWhole : Buffer → Type 0
IsWhole b = (d : ℕ) → d < 3 → length (bytes_of d b) ≡ buf_len

-- The stream behind `acquireWriteBuffer`, and with what `writeStream` sets then.
abbrev pub acquired : Soapy → Buffer → Soapy
acquired s b = record s {
  current_handle = s.buf_head;
  buf_head = (s.buf_head + 1) % length s.buffs;
  buf_ticks = b.tick;
  current_buffs = point_to s.buf_head s.channels s.current_buffs;
  buffered_elems = buf_len;
}

acquire_takes :
    (s : Soapy)
    → s.reset_buffer ≡ false
    → s.underflow_event ≡ false
    → s.buf_count ≢ 0
    → acquire_write_buffer [] s ≡ take_head s
unfolding acquire_write_buffer wait_for
acquire_takes s calm quiet free = ground arith

-- `writeStream` behind what it drops.
abbrev goes_on : (ℕ → ℕ) → List (List ℕ) → ℕ → Soapy → Option Written
goes_on to_int8 inputs num s =
    if s.buffered_elems == 0
    then acquire_write_buffer [] s >>= with_acquired (write_rest to_int8 inputs num)
    else write_rest to_int8 inputs num s

drop_nothing : (s : Soapy) → s.reset_buffer ≡ false → drop_old s ≡ s
drop_nothing s calm = ground arith

take_head_lem :
    (s : Soapy) (b : Buffer)
    → get_elem? s.buffs s.buf_head ≡ some b
    → take_head s
      ≡ some (record (acquired s b) { buffered_elems = s.buffered_elems }, elems buf_len)
unfolding take_head
take_head_lem s b at = rw (take_head, at) refl

-- How many of the samples a new buffer takes.
abbrev pub first_part : ℕ → ℕ
first_part num = if ltb buf_len num then buf_len else num

module _ (s : Soapy) (b : Buffer) (calm : s.reset_buffer ≡ false)
    (quiet : s.underflow_event ≡ false) (free : s.buf_count ≢ 0) (done : s.buffered_elems ≡ 0)
    (at : get_elem? s.buffs s.buf_head ≡ some b) where
  write_stream-rest :
      (to_int8 : ℕ → ℕ) (inputs : List (List ℕ)) (num : ℕ)
      → write_stream [] to_int8 s inputs num ≡ write_rest to_int8 inputs num (acquired s b)
  unfolding write_stream
  write_stream-rest to_int8 inputs num =
      let test : (s.buffered_elems == 0) ≡ true = ap (λ n. n == 0) done in
      let got = acquire_takes s calm quiet free ∙ take_head_lem s b at in
      ap (goes_on to_int8 inputs num) (drop_nothing s calm) ∙ rw (goes_on, test, got) refl

  -- Where the ring is neither to be emptied nor has seen an underflow, a buffer is free and none is begun, a call of
  -- `writeStream` with a format whose samples are stored begins the next buffer of the ring: it takes as many samples as
  -- the buffer has bytes, or all of them if they are fewer, and returns their number. Each channel of the stream has
  -- their bytes at the front of its array, and no other byte of the ring is changed. The channels are distinct and
  -- below 3, the caller has samples enough for each, and the arrays have their length.
  pub write_stream_copies :
      (to_int8 f : ℕ → ℕ) (inputs : List (List ℕ)) (num : ℕ)
      → byte_of_sample to_int8 s.tx_format ≡ some f
      → AreDistinct s.channels
      → too_high s.channels ≡ false
      → length s.current_buffs ≡ 3
      → IsWhole b
      → ((d : ℕ)
          → mem d s.channels ≡ true
          → (input : List ℕ) × (get_elem? inputs d ≡ some input) × (num ≤ length input))
      → (s' : Soapy) × (b' : Buffer) × (write_stream [] to_int8 s inputs num
          ≡ some (finish (first_part num) s'))
        × Copied inputs (first_part num) s.buf_head 0 f s.channels (acquired s b) s' b b'
        × ((finish (first_part num) s').stream.buffs ≡ s'.buffs)
        × ((finish (first_part num) s').result ≡ elems (first_part num))
  write_stream_copies to_int8 f inputs num e distinct low three whole given =
      let n = first_part num in
      let fits : n ≤ buf_len = ground arith in
      let fewer : n ≤ num = ground arith in
      let can : CanCopy inputs n s.buf_head 0 s.channels (acquired s b) b = record {
        below = λ d m. below_of_mem d s.channels low m;
        samples = λ d m.
            let (input, at', enough) = given d m in (input, at', omega (arith, fewer, enough));
        positions = λ d m.
            point_to-front s.buf_head s.channels s.current_buffs d m
              (omega (arith, three, below_of_mem d s.channels low m));
        at_hand = at;
        room = λ d l. omega (arith, whole d l, fits);
      } in
      let (s', b', all, k, buffs, result, _) =
        write_rest_copies to_int8 f inputs num s.buf_head 0 (acquired s b) b e distinct can in
      (s', b', write_stream-rest to_int8 inputs num ∙ all, k, buffs, result)
