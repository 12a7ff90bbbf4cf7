-- ===== src/Soapy/Stored.antt =====
-- src/SoapySDR/Streaming.cpp: what `writeStreamForChannel` stores, and what it does not.
use mathlib.Core.Option
use osmo_fl2k.Prelude.{
  ℕ, zero, suc, ◌+◌, ◌-◌, ◌^◌, ◌≤◌, ◌<◌, List, [], ◌∷◌, none, some, false, ltb, ◌==◌, if◌then◌else◌,
  ◌≡◌, ◌⊎◌, inl, inr, refl, sym, ◌∙◌, ap, arith, length, get_elem?, modify, set, Bool-cases,
  in_range, ℕ_discrete, length-modify, length-set, get_elem?-set_self, get_elem?-set_ne,
}
use osmo_fl2k.Convert.{store}
use osmo_fl2k.Soapy.{TxFormat, int8, uint8, Pointer, Soapy, elems, release_write_buffer}
use osmo_fl2k.Soapy.Setup.{too_high}
use osmo_fl2k.Soapy.Write.{
  eighth, byte_of_sample, sets_signed, store_samples, write_stream_for_channel, write_channels,
  bump, Written, finish, write_rest,
}

-- The bytes behind `n` samples from sample `i` on: `f` of the samples, and what was there elsewhere.
pub record Stored (f : ℕ → ℕ) (input : List ℕ) (offset n i : ℕ) (out r : List ℕ) : Type 0 where
  pub same_length : length r ≡ length out
  pub bytes :
      (j : ℕ) → i ≤ j → j < i + n → get_elem? r (offset + j) ≡ Option.map f (get_elem? input j)
  pub before : (k : ℕ) → k < offset + i → get_elem? r k ≡ get_elem? out k
  pub behind : (k : ℕ) → offset + i + n ≤ k → get_elem? r k ≡ get_elem? out k

store-done : (out : List ℕ) (i v : ℕ) → i < length out → store out i v ≡ some (set out i v)
unfolding store
store-done out i v l = ground arith

-- The first sample is stored, then the others.
set-Stored :
    (f : ℕ → ℕ) (input : List ℕ) (offset n i x : ℕ) (out r : List ℕ)
    → get_elem? input i ≡ some x
    → offset + i < length out
    → Stored f input offset n (i + 1) (set out (offset + i) (f x)) r
    → Stored f input offset (suc n) i out r
set-Stored f input offset n i x out r at inside stored = record {
  same_length = stored.same_length ∙ length-set out (offset + i) (f x);
  bytes = λ j b c. elim (ℕ_discrete i j) [
    | yes e ↦ rw (← e) (
        stored.before (offset + i) (omega arith)
        ∙ (get_elem?-set_self out (offset + i) (f x) inside ∙ ap (Option.map f) (sym at)))
    | no ne ↦ stored.bytes j (omega arith) (omega arith)
  ];
  before = λ k b.
      stored.before k (omega arith) ∙ get_elem?-set_ne out (offset + i) k (f x) (λ e. omega arith);
  behind = λ k b.
      stored.behind k (omega arith) ∙ get_elem?-set_ne out (offset + i) k (f x) (λ e. omega arith);
}

store_samples-from :
    (f : ℕ → ℕ) (input : List ℕ) (offset n i : ℕ) (out : List ℕ)
    → i + n ≤ length input
    → offset + i + n ≤ length out
    → (r : List ℕ) × (store_samples f input offset n i out ≡ some r)
      × Stored f input offset n i out r
unfolding store_samples
store_samples-from f input offset zero i out l m = (
  out,
  refl,
  record {
    same_length = refl;
    bytes = λ j b c. absurd (omega arith);
    before = λ k b. refl;
    behind = λ k b. refl;
  },
)
store_samples-from f input offset (suc n) i out l m =
    let (x, at) = in_range input i (omega arith) in
    let inside : offset + i < length out = omega arith in
    let kept = length-set out (offset + i) (f x) in
    let (r, all, stored) =
      store_samples-from f input offset n (i + 1) (set out (offset + i) (f x)) (omega arith)
        (omega (arith, kept)) in
    (
      r,
      rw (at, store-done out (offset + i) (f x) inside) all,
      set-Stored f input offset n i x out r at inside stored,
    )

-- `n` samples go to the `n` bytes behind the offset, each through `f`, and the other bytes stay, if there are that
-- many samples and the buffer has that many bytes there.
pub store_samples-Stored :
    (f : ℕ → ℕ) (input : List ℕ) (offset n : ℕ) (out : List ℕ)
    → n ≤ length input
    → offset + n ≤ length out
    → (r : List ℕ) × (store_samples f input offset n 0 out ≡ some r)
      × Stored f input offset n 0 out r
store_samples-Stored f input offset n out l m =
    store_samples-from f input offset n 0 out (omega arith) (omega arith)

-- Two samples of 16 bits that differ by 2048 are stored as the same byte, if they have the same sign.
pub eighth_collides :
    (w : ℕ) → w + 2048 < 2 ^ 16 → (w + 2048 < 2 ^ 15) ⊎ (2 ^ 15 ≤ w) → eighth (w + 2048) ≡ eighth w
unfolding eighth
eighth_collides w l (inl h) = ground arith
eighth_collides w l (inr h) = ground arith

-- The formats of which nothing is stored.
abbrev Unstored : TxFormat → Type 0
Unstored t = (t ≡ int8) ⊎ (t ≡ uint8)

byte_of_sample-Unstored :
    (to_int8 : ℕ → ℕ) (t : TxFormat) → Unstored t → byte_of_sample to_int8 t ≡ none
unfolding byte_of_sample
byte_of_sample-Unstored to_int8 t (inl e) = rw e refl
byte_of_sample-Unstored to_int8 t (inr e) = rw e refl

channel-Unstored :
    (to_int8 : ℕ → ℕ) (s : Soapy) (c : ℕ) (p : Pointer) (input : List ℕ) (n : ℕ)
    → Unstored s.tx_format
    → write_stream_for_channel to_int8 s c p input n
      ≡ some (record s { signed = sets_signed s.tx_format })
unfolding write_stream_for_channel
channel-Unstored to_int8 s c p input n u =
    rw (write_stream_for_channel, byte_of_sample-Unstored to_int8 s.tx_format u) refl

pub finish-buffs : (n : ℕ) (s : Soapy) → (finish n s).stream.buffs ≡ s.buffs
unfolding release_write_buffer
finish-buffs n s = elim (Bool-cases (s.buffered_elems - n == 0)) [
  | inl e ↦ rw e refl
  | inr e ↦ rw e refl
]

pub finish-result : (n : ℕ) (s : Soapy) → (finish n s).result ≡ elems n
finish-result n s = elim (Bool-cases (s.buffered_elems - n == 0)) [
  | inl e ↦ rw e refl
  | inr e ↦ rw e refl
]

write_channels-Unstored :
    (to_int8 : ℕ → ℕ) (inputs : List (List ℕ)) (n : ℕ) (cs : List ℕ) (s : Soapy)
    → Unstored s.tx_format
    → too_high cs ≡ false
    → length inputs ≡ 3
    → length s.current_buffs ≡ 3
    → (s' : Soapy) × (write_channels to_int8 inputs n cs s ≡ some s')
      × (s'.buffs ≡ s.buffs)
      × (s'.buffered_elems ≡ s.buffered_elems)
unfolding write_channels
write_channels-Unstored to_int8 inputs n [] s u low l m = (s, refl, refl, refl)
write_channels-Unstored to_int8 inputs n (c ∷ cs) s u low l m =
    let below : c < 3 = ground arith in
    let (input, at) = in_range inputs c (omega (arith, below, l)) in
    let (p, at') = in_range s.current_buffs c (omega (arith, below, m)) in
    let t = record s {
      signed = sets_signed s.tx_format;
      current_buffs = modify (bump n) s.current_buffs c;
    } in
    let (s', all, same, left) =
      write_channels-Unstored to_int8 inputs n cs t u (ground arith) l
        (length-modify (bump n) s.current_buffs c ∙ m) in
    (s', rw (at, at', channel-Unstored to_int8 s c p input n u) all, same, left)

-- With the formats of 8 bits, `writeStream`, from where a buffer is at hand, says that it took the samples and stores
-- none of them: the buffers of the ring stay as they are. The channels are those that `setupStream` lets pass, and
-- the caller's array and the positions in the buffer have an entry for each of the three.
pub write_rest-ignores :
    (to_int8 : ℕ → ℕ) (inputs : List (List ℕ)) (num : ℕ) (s : Soapy)
    → Unstored s.tx_format
    → too_high s.channels ≡ false
    → length inputs ≡ 3
    → length s.current_buffs ≡ 3
    → (w : Written) × (write_rest to_int8 inputs num s ≡ some w)
      × (w.stream.buffs ≡ s.buffs)
      × (w.result ≡ elems (if ltb s.buffered_elems num then s.buffered_elems else num))
unfolding write_rest
write_rest-ignores to_int8 inputs num s u low l m =
    let n = if ltb s.buffered_elems num then s.buffered_elems else num in
    let (s', done, same, _) = write_channels-Unstored to_int8 inputs n s.channels s u low l m in
    (finish n s', rw done refl, finish-buffs n s' ∙ same, finish-result n s')
