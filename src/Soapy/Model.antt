-- ===== src/Soapy/Model.antt =====
-- What the ring of buffers promises: a bounded queue of buffers, with at most one being written.
use osmo_fl2k.Prelude.{
  ℕ, List, [], ◌∷◌, ◌++◌, Option, none, some, Bool, true, false, ltb, ◌==◌, if◌then◌else◌, length,
  modify,
}
use mathlib.Core.Option
use osmo_fl2k.Device.{buf_len}
use osmo_fl2k.Worker.{DataInfo}
use osmo_fl2k.Soapy.{
  Buffer, Soapy, Status, elems, timeout, underflow, give_all, tx_callback, acquire_write_buffer,
  release_write_buffer,
}
use osmo_fl2k.Soapy.Slots.{bare}

-- What the two threads do: the library asks for a buffer; the application gets one to write,
-- writes it, and hands it over.
pub data Act : Type 0 where
  asks : DataInfo → Act
  acquires releases : Act
  writes : Buffer → Act

pub data Reply : Type 0 where
  given : DataInfo → Reply
  got : Status → Reply
  done : Reply

-- The samples of a whole buffer are written through `_currentBuffs`.
abbrev pub overwrite : Buffer → Buffer → Buffer
overwrite p b = record p { tick = b.tick }

unfoldable pub perform : Act → Soapy → Option (Soapy × Reply)
perform (asks info) s = Option.map (λ (s', i). (s', given i)) (tx_callback s info)
perform acquires s = Option.map (λ (s', r). (s', got r)) (acquire_write_buffer [] s)
perform (writes p) s =
    some (record s { buffs = modify (overwrite p) s.buffs s.current_handle }, done)
perform releases s = some (release_write_buffer s, done)

-- The queue, and the buffer being written; `draft` is what is written to it.
pub record Model : Type 0 where
  pub size : ℕ
  pub channels : List ℕ
  pub signed : Bool
  pub queue : List Buffer
  pub writing : Bool
  pub draft : Option Buffer
  pub underflow_event : Bool
  pub reset_buffer : Bool

-- The queue is emptied and the events are forgotten.
abbrev pub emptied : Model → Model
emptied a = record a { queue = []; underflow_event = false }

abbrev pub renewed : Model → Model
renewed a = if a.reset_buffer then record (emptied a) { reset_buffer = false } else a

abbrev pub pop : DataInfo → Model → List Buffer → Model × Reply
pop info a [] = (record a { underflow_event = true }, given info)
pop info a (b ∷ bs) = (
  record a { queue = bs },
  given (record (give_all b a.channels info) { sampletype_signed = a.signed }),
)

abbrev pub begin : Model → Model × Reply
begin a =
    if a.underflow_event
    then (emptied a, got underflow)
    else if length a.queue == a.size
    then (a, got timeout)
    else (record a { writing = true; draft = none }, got (elems buf_len))

-- One act; `none` if the application writes or hands over what it has not acquired or written.
unfoldable pub model : Act → Model → Option (Model × Reply)
model (asks info) a = some (
    if ltb 0 info.underflow_cnt
    then (record a { underflow_event = true }, given info)
    else pop info a a.queue)
model acquires a = if a.writing then none else some (begin (renewed a))
model (writes p) a = if a.writing then some (record a { draft = some (bare p) }, done) else none
model releases a = if a.writing then Option.map hand_over a.draft else none
  where
    hand_over : Buffer → Model × Reply
    hand_over p = (record a { queue = a.queue ++ p ∷ []; writing = false; draft = none }, done)
