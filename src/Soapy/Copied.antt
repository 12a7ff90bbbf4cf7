-- ===== src/Soapy/Copied.antt =====
-- src/SoapySDR/Streaming.cpp: the copying of samples by `writeStream`, as it is before and behind it.
pub mod Channels
pub mod Call
use mathlib.Core.Path.{subst, subst₂}
use osmo_fl2k.Prelude.{
  ℕ, ◌+◌, ◌-◌, ◌≤◌, ◌<◌, List, [], ◌∷◌, some, Bool, true, false, ltb, ◌==◌, if◌then◌else◌, ◌≡◌, ◌≢◌,
  inl, inr, refl, sym, ◌∙◌, ap, arith, length, get_elem?, modify, ℕ_discrete, Bool-cases,
  get_elem?-modify_self, get_elem?-modify_ne,
}
use osmo_fl2k.Soapy.{Buffer, Soapy, elems}
use osmo_fl2k.Soapy.Write.{
  byte_of_sample, sets_signed, store_samples, bytes_of, with_bytes, write_stream_for_channel,
  write_channels, bump, finish, write_rest,
}
use osmo_fl2k.Soapy.Stored.{Stored, store_samples-Stored, finish-buffs, finish-result}

abbrev pub mem : ℕ → List ℕ → Bool
mem d [] = false
mem d (c ∷ cs) = let rest = mem d cs in if c == d then true else rest

-- No channel is there twice.
abbrev pub AreDistinct : List ℕ → Type 0
AreDistinct [] = Unit {0}
AreDistinct (c ∷ cs) = (mem c cs ≡ false) × AreDistinct cs

module _ (inputs : List (List ℕ)) (n h o : ℕ) where
  -- Before the copying: each channel has its samples, its position in the buffer `b`, and room there.
  pub record CanCopy (cs : List ℕ) (s : Soapy) (b : Buffer) : Type 0 where
    pub below : (d : ℕ) → mem d cs ≡ true → d < 3
    pub samples :
        (d : ℕ)
        → mem d cs ≡ true
        → (input : List ℕ) × (get_elem? inputs d ≡ some input) × (n ≤ length input)
    pub positions :
        (d : ℕ)
        → mem d cs ≡ true
        → get_elem? s.current_buffs d ≡ some (record { handle = h; offset = o })
    pub at_hand : get_elem? s.buffs h ≡ some b
    pub room : (d : ℕ) → d < 3 → o + n ≤ length (bytes_of d b)

  -- Behind it: the buffer is `b'`.
  pub record Copied (f : ℕ → ℕ) (cs : List ℕ) (s s' : Soapy) (b b' : Buffer) : Type 0 where
    pub there : get_elem? s'.buffs h ≡ some b'
    pub other_buffers : (k : ℕ) → h ≢ k → get_elem? s'.buffs k ≡ get_elem? s.buffs k
    pub written :
        (d : ℕ) (input : List ℕ)
        → mem d cs ≡ true
        → get_elem? inputs d ≡ some input
        → Stored f input o n 0 (bytes_of d b) (bytes_of d b')
    pub unwritten : (d : ℕ) → d < 3 → mem d cs ≡ false → bytes_of d b' ≡ bytes_of d b
    pub moved :
        (d : ℕ)
        → mem d cs ≡ true
        → get_elem? s'.current_buffs d ≡ some (record { handle = h; offset = o + n })
    pub unmoved :
        (d : ℕ) → mem d cs ≡ false → get_elem? s'.current_buffs d ≡ get_elem? s.current_buffs d
    pub rest : record s' { signed = s.signed; buffs = s.buffs; current_buffs = s.current_buffs } ≡ s

pub bytes_of-with_bytes_self :
    (c : ℕ) (bytes : List ℕ) (b : Buffer) → bytes_of c (with_bytes c bytes b) ≡ bytes
bytes_of-with_bytes_self c bytes b = ground arith

pub bytes_of-with_bytes_ne :
    (c d : ℕ) (bytes : List ℕ) (b : Buffer)
    → c < 3
    → d < 3
    → c ≢ d
    → bytes_of d (with_bytes c bytes b) ≡ bytes_of d b
bytes_of-with_bytes_ne c d bytes b l m ne = ground arith

pub mem-cons_self : (c : ℕ) (cs : List ℕ) → mem c (c ∷ cs) ≡ true
mem-cons_self c cs = ground arith

pub mem-cons : (c d : ℕ) (cs : List ℕ) → mem d cs ≡ true → mem d (c ∷ cs) ≡ true
mem-cons c d cs h = ground arith

pub mem-cons_ne : (c d : ℕ) (cs : List ℕ) → c ≢ d → mem d (c ∷ cs) ≡ mem d cs
mem-cons_ne c d cs ne = ground arith

pub ne_of_mem : (c d : ℕ) (cs : List ℕ) → mem c cs ≡ false → mem d cs ≡ true → c ≢ d
ne_of_mem c d cs out inside e = cc (ap (λ k. mem k cs) e, out, inside)

pub ne_of_not_mem : (c d : ℕ) (cs : List ℕ) → mem d (c ∷ cs) ≡ false → c ≢ d
ne_of_not_mem c d cs out e = ground arith

pub write_stream_for_channel_lem :
    (to_int8 f : ℕ → ℕ) (s : Soapy) (c h o n : ℕ) (input bytes : List ℕ) (b : Buffer)
    → byte_of_sample to_int8 s.tx_format ≡ some f
    → get_elem? s.buffs h ≡ some b
    → store_samples f input o n 0 (bytes_of c b) ≡ some bytes
    → write_stream_for_channel to_int8 s c (record { handle = h; offset = o }) input n
      ≡ some (record s {
        signed = sets_signed s.tx_format;
        buffs = modify (with_bytes c bytes) s.buffs h;
      })
unfolding write_stream_for_channel
write_stream_for_channel_lem to_int8 f s c h o n input bytes b e at stored =
    rw (write_stream_for_channel, e, at, stored) refl
