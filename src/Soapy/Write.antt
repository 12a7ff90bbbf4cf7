-- ===== src/Soapy/Write.antt =====
-- src/SoapySDR/Streaming.cpp: `writeStream` and `writeStreamForChannel`. Samples are bit patterns of
-- the stream's format; `to_int8` is the byte of a float that is multiplied by 128.0 and cut.
use mathlib.Core.Option
use osmo_fl2k.Prelude.{
  ℕ, zero, suc, ◌+◌, ◌-◌, ◌/◌, ◌%◌, ◌^◌, List, [], ◌∷◌, Option, none, some, Bool, true, false, not,
  ◌&&◌, ltb, ◌==◌, if◌then◌else◌, get_elem?, modify, ◌>>=◌,
}
use osmo_fl2k.Worker.{DataInfo}
use osmo_fl2k.Convert.{store}
use osmo_fl2k.Soapy.{
  TxFormat, float32, int16, int8, uint16, uint8, Buffer, Pointer, Soapy, Status, elems,
  acquire_write_buffer, release_write_buffer,
}

-- `isource[i] / 8` of an `int16_t`, stored in a byte.
unfoldable pub eighth : ℕ → ℕ
eighth w = if ltb w (2 ^ 15) then w / 8 % 2 ^ 8 else (2 ^ 8 - (2 ^ 16 - w) / 8 % 2 ^ 8) % 2 ^ 8

-- The byte of a sample; `none` for the formats of which the code stores nothing.
unfoldable pub byte_of_sample : (ℕ → ℕ) → TxFormat → Option (ℕ → ℕ)
byte_of_sample to_int8 float32 = some to_int8
byte_of_sample to_int8 int16 = some eighth
byte_of_sample to_int8 int8 = none
byte_of_sample to_int8 uint16 = some eighth
byte_of_sample to_int8 uint8 = none

abbrev pub sets_signed : TxFormat → Bool
sets_signed float32 = true
sets_signed int16 = true
sets_signed int8 = true
sets_signed uint16 = false
sets_signed uint8 = false

-- `for (i …) currentBuff[i] = …`, for `left` rounds from sample `i` on.
unfoldable pub store_samples : (ℕ → ℕ) → List ℕ → ℕ → ℕ → ℕ → List ℕ → Option (List ℕ)
store_samples f input offset zero i out = some out
store_samples f input offset (suc left) i out = do
  sample ← get_elem? input i
  out' ← store out (offset + i) (f sample)
  store_samples f input offset left (i + 1) out'

-- The array of a buffer that belongs to a channel.
abbrev pub bytes_of : ℕ → Buffer → List ℕ
bytes_of channel b = if channel == 0 then b.red else if channel == 1 then b.green else b.blue

abbrev pub with_bytes : ℕ → List ℕ → Buffer → Buffer
with_bytes channel bytes b =
    if channel == 0
    then record b { red = bytes }
    else if channel == 1
    then record b { green = bytes }
    else record b { blue = bytes }

-- `writeStreamForChannel`, for the position `p` in a buffer.
unfoldable pub write_stream_for_channel : (ℕ → ℕ) → Soapy → ℕ → Pointer → List ℕ → ℕ → Option Soapy
write_stream_for_channel to_int8 s channel p input n = elim (byte_of_sample to_int8 s.tx_format) [
  | none ↦ some (record s { signed = sets_signed s.tx_format })
  | some f ↦ do
    b ← get_elem? s.buffs p.handle
    bytes ← store_samples f input p.offset n 0 (bytes_of channel b)
    some (record s {
      signed = sets_signed s.tx_format;
      buffs = modify (with_bytes channel bytes) s.buffs p.handle;
    })
]

abbrev pub bump : ℕ → Pointer → Pointer
bump n p = record p { offset = p.offset + n }

-- The loop over the channels; `inputs` is `buffs`, which the code indexes by the channel.
unfoldable pub write_channels : (ℕ → ℕ) → List (List ℕ) → ℕ → List ℕ → Soapy → Option Soapy
write_channels to_int8 inputs n [] s = some s
write_channels to_int8 inputs n (channel ∷ rest) s = do
  input ← get_elem? inputs channel
  p ← get_elem? s.current_buffs channel
  s' ← write_stream_for_channel to_int8 s channel p input n
  write_channels to_int8 inputs n rest
      (record s' { current_buffs = modify (bump n) s'.current_buffs channel })

-- What a call leaves behind: the stream, the result, and SOAPY_SDR_MORE_FRAGMENTS.
pub record Written : Type 0 where
  pub stream : Soapy
  pub result : Status
  pub more_fragments : Bool

-- The end of `writeStream`.
abbrev pub finish : ℕ → Soapy → Written
finish n s =
    let s' = record s {
      buffered_elems = s.buffered_elems - n;
      buf_ticks = (s.buf_ticks + n) % 2 ^ 64;
    } in
    if s'.buffered_elems == 0
    then record { stream = release_write_buffer s'; result = elems n; more_fragments = false }
    else record { stream = s'; result = elems n; more_fragments = true }

-- `writeStream` from where there is a buffer; `num` is `numElems`.
unfoldable pub write_rest : (ℕ → ℕ) → List (List ℕ) → ℕ → Soapy → Option Written
write_rest to_int8 inputs num s =
    let n = if ltb s.buffered_elems num then s.buffered_elems else num in
    Option.map (finish n) (write_channels to_int8 inputs n s.channels s)

abbrev pub with_acquired : (Soapy → Option Written) → Soapy × Status → Option Written
with_acquired rest (s, elems n) = rest (record s { buffered_elems = n })
with_acquired rest (s, r) = some (record { stream = s; result = r; more_fragments = false })

abbrev pub drop_old : Soapy → Soapy
drop_old s =
    if s.reset_buffer && not (s.buffered_elems == 0)
    then release_write_buffer (record s { buffered_elems = 0 })
    else s

-- `writeStream`, with the calls of `tx_callback` that happen while it waits for a buffer.
unfoldable pub write_stream : List DataInfo → (ℕ → ℕ) → Soapy → List (List ℕ) → ℕ → Option Written
write_stream meanwhile to_int8 s inputs num =
    let s' = drop_old s in
    if s'.buffered_elems == 0
    then acquire_write_buffer meanwhile s' >>= with_acquired (write_rest to_int8 inputs num)
    else write_rest to_int8 inputs num s'
