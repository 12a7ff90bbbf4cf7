-- ===== src/Soapy/Setup.antt =====
-- src/SoapySDR/Streaming.cpp: `setupStream`, `activateStream`, `deactivateStream`, `closeStream`.
-- The format's name is taken as compared with those of SoapySDR.
use osmo_fl2k.Prelude.{
  ℕ, zero, suc, List, [], ◌∷◌, Option, none, some, Bool, true, false, not, ltb, ◌==◌, ◌%◌, ◌^◌,
  if◌then◌else◌, ℤ, pos, negsuc, length, replicate,
}
use osmo_fl2k.Device.{buf_len, xfer_len, Dev}
use osmo_fl2k.Transfers.{stop_tx}
use osmo_fl2k.Start.{Env, Started, start_tx}
use osmo_fl2k.Soapy.{
  TxFormat, float32, int16, int8, uint16, uint8, Buffer, Soapy, release_write_buffer,
}

-- An argument of the stream, as `std::stoi` reads it: it is not given, or `std::stoi` throws
-- `std::invalid_argument` or `std::out_of_range`, or it is a number.
pub data Arg : Type 0 where
  absent invalid too_large : Arg
  number : ℤ → Arg

-- `setupStream` returns, or it throws, with the fields set so far.
pub data Setup : Type 0 where
  ready throws : Soapy → Setup

-- The value of a field behind an argument; `none` if the exception is not caught.
abbrev pub read_arg : Arg → ℕ → Option ℕ
read_arg absent old = some old
read_arg invalid old = some old
read_arg too_large old = none
read_arg (number (pos n)) old = some (if ltb 0 n then n else old)
read_arg (number (negsuc n)) old = some old

-- `_signed` for a format
abbrev pub is_signed : TxFormat → Bool
is_signed float32 = true
is_signed int16 = true
is_signed int8 = true
is_signed uint16 = false
is_signed uint8 = false

abbrev pub too_high : List ℕ → Bool
too_high [] = false
too_high (c ∷ cs) = let rest = too_high cs in if ltb 2 c then true else rest

abbrev pub blank_buffer : Buffer
blank_buffer = record {
  tick = 0;
  red = replicate buf_len 0;
  green = replicate buf_len 0;
  blue = replicate buf_len 0;
}

-- `_buffs.resize(n)`
unfoldable pub resize : ℕ → List Buffer → List Buffer
resize zero bs = []
resize (suc n) [] = blank_buffer ∷ resize n []
resize (suc n) (b ∷ bs) = b ∷ resize n bs

-- The end of `setupStream`: an empty ring.
unfoldable pub empty_ring : Soapy → Soapy
empty_ring s = record s {
  buf_tail = 0;
  buf_count = s.async_buffs;
  buf_head = 0;
  buffs = resize s.async_buffs s.buffs;
}

-- The arguments "buffers" and "asyncBuffs", which set the same field.
abbrev pub with_buffers : Soapy → Arg → Arg → Setup
with_buffers s buffers async_buffs = elim (read_arg buffers 4) [
  | none ↦ throws (record s { async_buffs = 4 })
  | some n ↦ elim (read_arg async_buffs n) [
    | none ↦ throws (record s { async_buffs = n })
    | some m ↦ ready (empty_ring (record s { async_buffs = m }))
  ]
]

abbrev pub with_bufflen : Soapy → Arg → Arg → Arg → Setup
with_bufflen s bufflen buffers async_buffs = elim (read_arg bufflen xfer_len) [
  | none ↦ throws (record s { buffer_length = xfer_len })
  | some n ↦ with_buffers (record s { buffer_length = n }) buffers async_buffs
]

-- The tests of the direction and of the channels.
abbrev pub refuses : Bool → List ℕ → Bool
refuses is_tx channels =
    if not is_tx
    then true
    else if length channels == 0
    then true
    else if ltb 3 (length channels)
    then true
    else too_high channels

unfoldable pub setup_stream : Soapy → Bool → Option TxFormat → List ℕ → Arg → Arg → Arg → Setup
setup_stream s is_tx format channels bufflen buffers async_buffs =
    let with_format : Setup = elim format [
      | none ↦ throws (record s { channels = channels; signed = false })
      | some f ↦
          with_bufflen (record s { channels = channels; signed = is_signed f; tx_format = f })
            bufflen buffers async_buffs
    ] in
    if refuses is_tx channels then throws s else with_format

-- `activateStream` with the device that it starts; `none` if it is not supported. The number of buffers is passed as
-- a `uint32_t`.
abbrev pub activate_stream : Soapy → Env → Dev → ℕ → Option (Soapy × Started)
activate_stream s env dev flags =
    let started = start_tx env dev (s.async_buffs % 2 ^ 32) in
    if flags == 0
    then some (record s { reset_buffer = true; buffered_elems = 0 }, started)
    else none

-- `releaseWriteBuffer` for each buffer of the ring.
unfoldable pub release_all : ℕ → Soapy → Soapy
release_all zero s = s
release_all (suc n) s = release_all n (release_write_buffer s)

-- `deactivateStream` with the device that it stops; `none` if it is not supported.
unfoldable pub deactivate_stream : Soapy → Option Dev → ℕ → Option (Soapy × Option Dev × ℤ)
deactivate_stream s dev flags =
    let (dev', r) = stop_tx dev in
    if flags == 0 then some (release_all (length s.buffs) s, dev', r) else none

abbrev pub close_stream : Soapy → Option Dev → Soapy × Option Dev
close_stream s dev = elim (deactivate_stream s dev 0) [
  | none ↦ (record s { buffs = [] }, dev)
  | some (s', dev', r) ↦ (record s' { buffs = [] }, dev')
]
