-- ===== src/Soapy.antt =====
-- src/SoapySDR/Streaming.cpp: the stream of the SoapySDR driver, a ring of buffers between the
-- application, which writes samples, and `tx_callback`, which the library calls for a buffer. `none`
-- is an access outside an array. Messages are left out; how long a call may wait is in Soapy.Events only.
pub mod Slots
pub mod Model
pub mod Sim
pub mod Asking
pub mod Acquiring
pub mod Writing
pub mod Refine
pub mod Lent
pub mod Setup
pub mod Ready
pub mod Activated
pub mod Write
pub mod Stored
pub mod Copied
pub mod Events
pub mod Queries
pub mod Starved
use osmo_fl2k.Prelude.{
  ℕ, ◌+◌, ◌-◌, ◌/◌, ◌%◌, ◌^◌, List, [], ◌∷◌, Option, none, some, Bool, true, false, not, ◌&&◌, ◌||◌,
  ltb, leb, ◌==◌, if◌then◌else◌, length, get_elem?, modify, replicate, ◌>>=◌,
}
use osmo_fl2k.Device.{buf_len}
use osmo_fl2k.Worker.{DataInfo}

-- `fl2kTXFormat`
pub data TxFormat : Type 0 where
  float32 int16 int8 uint16 uint8 : TxFormat

-- `SoapyOsmoFL2K::Buffer`
pub record Buffer : Type 0 where
  pub tick : ℕ
  pub red : List ℕ
  pub green : List ℕ
  pub blue : List ℕ

-- `_currentBuffs[channel]`: a position in a buffer of the ring.
pub record Pointer : Type 0 where
  pub handle : ℕ
  pub offset : ℕ

-- `SoapyOsmoFL2K`, as far as streaming goes. `ticks` and `buf_count` are 64-bit words, of which the
-- code reads the second one as a signed number nowhere: it compares it with sizes and with 0.
pub record Soapy : Type 0 where
  pub tx_format : TxFormat
  pub signed : Bool
  pub channels : List ℕ
  pub buffer_length : ℕ
  pub async_buffs : ℕ
  pub ticks : ℕ
  pub buffs : List Buffer
  pub buf_head : ℕ
  pub buf_tail : ℕ
  pub buf_count : ℕ
  pub current_buffs : List Pointer
  pub underflow_event : Bool
  pub current_handle : ℕ
  pub buffered_elems : ℕ
  pub buf_ticks : ℕ
  pub reset_buffer : Bool

-- What the stream calls return: a number of elements, or a code of SoapySDR.
pub data Status : Type 0 where
  elems : ℕ → Status
  timeout underflow not_supported : Status

-- The body of the loop over the channels in `tx_callback`. The code gives a pointer into the buffer; here it is what
-- stands there at the time of the call (Soapy.Lent says how long that is so).
abbrev pub give : Buffer → ℕ → DataInfo → DataInfo
give b channel info =
    if channel == 0
    then record info { r_buf = some b.red }
    else if channel == 1
    then record info { g_buf = some b.green }
    else if channel == 2
    then record info { b_buf = some b.blue }
    else info

unfoldable pub give_all : Buffer → List ℕ → DataInfo → DataInfo
give_all b [] info = info
give_all b (channel ∷ rest) info = give_all b rest (give b channel info)

abbrev pub stamp : ℕ → Buffer → Buffer
stamp tick b = record b { tick = tick }

-- The part of `tx_callback` behind its two tests: the buffer at the tail goes to the library.
unfoldable pub send_tail : Soapy → DataInfo → Option (Soapy × DataInfo)
send_tail s info = do
  b ← get_elem? s.buffs s.buf_tail
  some (
    record s {
      ticks = (s.ticks + info.len) % 2 ^ 64;
      buffs = modify (stamp s.ticks) s.buffs s.buf_tail;
      buf_tail = (s.buf_tail + 1) % length s.buffs;
      buf_count = (s.buf_count + 1) % 2 ^ 64;
    },
    record (give_all b s.channels info) { sampletype_signed = s.signed },
  )

unfoldable pub tx_callback : Soapy → DataInfo → Option (Soapy × DataInfo)
tx_callback s info =
    if ltb 0 info.underflow_cnt
    then some (record s { ticks = (s.ticks + info.len) % 2 ^ 64; underflow_event = true }, info)
    else if leb (length s.buffs) s.buf_count
    then some (record s { ticks = (s.ticks + info.len) % 2 ^ 64; underflow_event = true }, info)
    else send_tail s info

-- `_buf_head = (_buf_head + _buf_count.exchange(_buffs.size())) % _buffs.size()`
abbrev pub drain : Soapy → Soapy
drain s = record s {
  buf_head = (s.buf_head + s.buf_count) % 2 ^ 64 % length s.buffs;
  buf_count = length s.buffs;
  underflow_event = false;
}

-- The wait for a free buffer, with the calls of `tx_callback` that happen meanwhile.
unfoldable pub wait_for : List DataInfo → Soapy → Option (Soapy × Bool)
wait_for [] s = some (s, not (s.buf_count == 0))
wait_for (info ∷ later) s = elim (s.buf_count == 0) [
  | false ↦ some (s, true)
  | true ↦ tx_callback s info >>= λ r. wait_for later r.0
]

-- `buffs[channel] = …` for each channel: to the start of the buffer.
unfoldable pub point_to : ℕ → List ℕ → List Pointer → List Pointer
point_to handle [] ps = ps
point_to handle (channel ∷ rest) ps =
    point_to handle rest (modify (λ _. record { handle = handle; offset = 0 }) ps channel)

-- The part of `acquireWriteBuffer` behind the wait.
unfoldable pub take_head : Soapy → Option (Soapy × Status)
take_head s = do
  b ← get_elem? s.buffs s.buf_head
  some (
    record s {
      current_handle = s.buf_head;
      buf_head = (s.buf_head + 1) % length s.buffs;
      buf_ticks = b.tick;
      current_buffs = point_to s.buf_head s.channels s.current_buffs;
    },
    elems buf_len,
  )

abbrev pub reset_old : Soapy → Soapy
reset_old s = if s.reset_buffer then record (drain s) { reset_buffer = false } else s

-- What `acquireWriteBuffer` does behind the wait, which says whether a buffer is free.
abbrev pub after_wait : Soapy × Bool → Option (Soapy × Status)
after_wait (s, true) = take_head s
after_wait (s, false) = some (s, timeout)

-- `acquireWriteBuffer` for the handle `_currentHandle`, with the calls of `tx_callback` that happen
-- while it waits.
unfoldable pub acquire_write_buffer : List DataInfo → Soapy → Option (Soapy × Status)
acquire_write_buffer meanwhile s =
    let s' = reset_old s in
    let waited = wait_for meanwhile s' >>= after_wait in
    if length s.buffs == 0 && (s.reset_buffer || s.underflow_event)
    then none
    else if s'.underflow_event
    then some (drain s', underflow)
    else waited

unfoldable pub release_write_buffer : Soapy → Soapy
release_write_buffer s = record s { buf_count = (s.buf_count + (2 ^ 64 - 1)) % 2 ^ 64 }
