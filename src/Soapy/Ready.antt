-- ===== src/Soapy/Ready.antt =====
-- What `setupStream` leaves behind.
use mathlib.Core.Path.{subst}
use osmo_fl2k.Prelude.{
  ℕ, zero, suc, ◌^◌, ◌<◌, List, [], ◌∷◌, Option, none, some, Bool, false, ◌≡◌, refl, ap, arith, pos,
  negsuc, length, inl, inr, Bool-cases,
}
use osmo_fl2k.Device.{xfer_len}
use osmo_fl2k.Soapy.{TxFormat, Buffer, Soapy}
use osmo_fl2k.Soapy.Model.{Model}
use osmo_fl2k.Soapy.Sim.{Sim}
use osmo_fl2k.Soapy.Setup.{
  Arg, Setup, read_arg, is_signed, resize, empty_ring, with_buffers, with_bufflen, refuses,
  setup_stream, throws, ready, absent, invalid, too_large, number,
}

length-resize : (n : ℕ) (bs : List Buffer) → length (resize n bs) ≡ n
unfolding resize
length-resize zero bs = refl
length-resize (suc n) [] = ap suc (length-resize n [])
length-resize (suc n) (b ∷ bs) = ap suc (length-resize n bs)

-- The queue of a stream that is set up.
abbrev pub fresh : Soapy → Model
fresh s = record {
  size = s.async_buffs;
  channels = s.channels;
  signed = s.signed;
  queue = [];
  writing = false;
  draft = none;
  underflow_event = s.underflow_event;
  reset_buffer = s.reset_buffer;
}

pub empty_ring-Sim :
    (s : Soapy)
    → 0 < s.async_buffs
    → s.async_buffs < 2 ^ 62
    → Sim (empty_ring s) (fresh (empty_ring s))
unfolding empty_ring
empty_ring-Sim s more few = record {
  fits = rw length-resize (record {
    same_size = refl;
    some_buffs = more;
    few_buffs = few;
    head_below = more;
    tail_below = more;
    free = omega arith;
    holds = omega arith;
    place = inl (omega arith);
  });
  cells = λ i l. absurd (omega arith);
  current = λ w. absurd (cc);
  draft = λ p e. absurd (cc);
  channels = refl;
  signed = refl;
  event = refl;
  reset = refl;
}

-- An argument within the range of an int.
abbrev pub FitsInt : Arg → Type 0
FitsInt (number (pos n)) = n < 2 ^ 31
FitsInt _ = Unit

read_arg-bounds :
    (arg : Arg) (old n : ℕ)
    → FitsInt arg
    → 0 < old
    → old < 2 ^ 31
    → read_arg arg old ≡ some n
    → (0 < n) × (n < 2 ^ 31)
read_arg-bounds absent old n f l h e = ground arith
read_arg-bounds invalid old n f l h e = ground arith
read_arg-bounds too_large old n f l h e = absurd (ground arith)
read_arg-bounds (number (pos m)) old n f l h e = ground arith
read_arg-bounds (number (negsuc m)) old n f l h e = ground arith

-- A number of buffers within an int, and an empty ring.
abbrev pub IsSetUp : Soapy → Type 0
IsSetUp s = (0 < s.async_buffs) × (s.async_buffs < 2 ^ 31) × Sim s (fresh s)

abbrev Ready : Setup → Soapy → Type 0
Ready r s' = (r ≡ ready s') → IsSetUp s'

with_buffers-Sim :
    (s s' : Soapy) (buffers async_buffs : Arg)
    → FitsInt buffers
    → FitsInt async_buffs
    → Ready (with_buffers s buffers async_buffs) s'
with_buffers-Sim s s' buffers async_buffs f g e = by_first (read_arg buffers 4) refl
  where
    by_first : (o : Option ℕ) → read_arg buffers 4 ≡ o → IsSetUp s'
    by_first none h = absurd (ground arith)
    by_first (some n) h = by_second (read_arg async_buffs n) refl
      where
        by_second : (o : Option ℕ) → read_arg async_buffs n ≡ o → IsSetUp s'
        by_second none h' = absurd (ground arith)
        by_second (some m) h' =
            let b = read_arg-bounds buffers 4 n f (omega arith) (omega arith) h in
            let c = read_arg-bounds async_buffs n m g b.0 b.1 h' in
            let same : empty_ring (record s { async_buffs = m }) ≡ s' = ground (arith, e, h, h') in
            subst (λ t. IsSetUp t) same
              (
                unfold empty_ring in c.0,
                unfold empty_ring in omega (arith, c),
                empty_ring-Sim (record s { async_buffs = m }) c.0 (omega (arith, c)),
              )

-- A stream that `setupStream` returns for a number of buffers that is given within an int, or not given, has at least one
-- buffer and fewer than 2 ^ 31, and its ring holds the empty queue of that many.
pub setup_stream-Sim :
    (s s' : Soapy) (is_tx : Bool) (format : Option TxFormat) (channels : List ℕ)
    (bufflen buffers async_buffs : Arg)
    → FitsInt buffers
    → FitsInt async_buffs
    → setup_stream s is_tx format channels bufflen buffers async_buffs ≡ ready s'
    → IsSetUp s'
unfolding setup_stream
setup_stream-Sim s s' is_tx format channels bufflen buffers async_buffs f g e =
    elim (Bool-cases (refuses is_tx channels)) [
      | inl h ↦ absurd (ground arith)
      | inr h ↦ by_format format (rw h at e)
    ]
  where
    by_bufflen :
        (t : Soapy)
        → (o : Option ℕ) → read_arg bufflen xfer_len ≡ o
        → with_bufflen t bufflen buffers async_buffs ≡ ready s'
        → IsSetUp s'
    by_bufflen t none h q = absurd (ground arith)
    by_bufflen t (some n) h q =
        with_buffers-Sim (record t { buffer_length = n }) s' buffers async_buffs f g
          (ground (arith, q, h))

    by_format :
        (o : Option TxFormat)
        → (elim o [
          | none ↦ throws (record s { channels = channels; signed = false })
          | some x ↦
              with_bufflen
                (record s { channels = channels; signed = is_signed x; tx_format = x })
                bufflen
                buffers
                async_buffs
        ])
          ≡ ready s'
        → IsSetUp s'
    by_format none q = absurd (ground arith)
    by_format (some x) q =
        by_bufflen (record s { channels = channels; signed = is_signed x; tx_format = x })
          (read_arg bufflen xfer_len) refl q
