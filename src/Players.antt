-- ===== src/Players.antt =====
-- src/fl2k_file.c and src/fl2k_tcp.c: the callbacks of the programs that send a file, or what comes
-- over a network connection. The files and the sockets of the C library are parameters. The command
-- lines, the set-up and the exit at a signal are in Programs.
pub mod Bytes
pub mod Filling
pub mod Network
use osmo_fl2k.Prelude.{
  ℕ, zero, suc, ◌+◌, ◌-◌, ◌%◌, ◌^◌, List, [], ◌∷◌, Option, none, some, Bool, true, false, not, ◌&&◌,
  ltb, ◌==◌, if◌then◌else◌, length, ◌>>=◌,
}
use osmo_fl2k.Device.{Dev, buf_len}
use osmo_fl2k.Transfers.{stop_tx}
use osmo_fl2k.Convert.{store}
use osmo_fl2k.Worker.{DataInfo}

-- Bytes that a call stores in the buffer from an index on; `none` is an access outside it.
unfoldable pub put_bytes : List ℕ → ℕ → List ℕ → Option (List ℕ)
put_bytes out i [] = some out
put_bytes out i (b ∷ bs) = store out i b >>= λ out'. put_bytes out' (i + 1) bs

-- What a call of `fread` gives, with `feof` behind it.
pub record Fread : Type 0 where
  pub bytes : List ℕ
  pub eof : Bool

-- A file of the C library, in state `F`.
pub record FileOps (F : Type 0) : Type 0 where
  pub fread : F → ℕ → Fread × F
  pub rewind : F → F

-- The global variables of src/fl2k_file.c, with the `repeat_cnt` of its callback.
pub record FilePlayer (F : Type 0) : Type 0 where
  pub file : F
  pub txbuf : List ℕ
  pub do_exit : Bool
  pub repeat : Bool
  pub repeat_cnt : ℕ
  pub dev : Option Dev

module _ {F : Type 0} (ops : FileOps F) where
  -- The part under `if (feof(file))`, where `r` bytes were read.
  abbrev pub at_end : ℕ → FilePlayer F → FilePlayer F
  at_end r p =
      if p.repeat && ltb 0 r
      then record p { repeat_cnt = (p.repeat_cnt + 1) % 2 ^ 32; file = ops.rewind p.file }
      else record p { dev = (stop_tx p.dev).0; do_exit = true }

  -- What a round does behind `fread`.
  abbrev pub after_read : Fread → FilePlayer F → FilePlayer F
  after_read x p = if x.eof then at_end (length x.bytes) p else p

  -- The loop, with fuel for its rounds; `none` also if that runs out.
  unfoldable pub fill_loop : ℕ → ℕ → FilePlayer F → Option (FilePlayer F)
  fill_loop zero left p = none
  fill_loop (suc fuel) left p = elim (not p.do_exit && ltb 0 left) [
    | false ↦ some p
    | true ↦
        let (x, file') = ops.fread p.file left in
        put_bytes p.txbuf (buf_len - left) x.bytes >>= λ txbuf'.
        fill_loop fuel (left - length x.bytes)
          (after_read x (record p { file = file'; txbuf = txbuf' }))
  ]

  -- `fl2k_callback` of src/fl2k_file.c, with what it leaves in the `fl2k_data_info_t`.
  unfoldable pub file_callback : DataInfo → FilePlayer F → Option (FilePlayer F × DataInfo)
  file_callback info p =
      let filled = fill_loop (suc buf_len) buf_len p >>= λ p'.
      some (p', record info { sampletype_signed = true; r_buf = some p'.txbuf }) in
      if info.device_error then some (record p { do_exit = true }, info) else filled

-- What a wait for the network gives: `select` timed out, `recv` failed, or it gave bytes, which are
-- none if the connection is closed.
pub data Polled : Type 0 where
  timed_out recv_failed : Polled
  received : List ℕ → Polled

-- The global variables of src/fl2k_tcp.c
pub record TcpPlayer : Type 0 where
  pub txbuf : List ℕ
  pub do_exit : Bool
  pub connected : Bool
  pub dev : Option Dev

-- `txbuf + (FL2K_BUF_LEN - left)` as the place of the bytes; `none` is an access outside the buffer.
abbrev pub recv_into : List ℕ → ℕ → List ℕ → Option (List ℕ)
recv_into txbuf left [] = some txbuf
recv_into txbuf left bytes =
    if ltb buf_len left then none else put_bytes txbuf (buf_len - left) bytes

abbrev pub closed : TcpPlayer → TcpPlayer
closed p = record p { dev = (stop_tx p.dev).0; do_exit = true }

-- One round of the loop behind its test, with the new `left`. A failed `recv` returns -1.
unfoldable pub recv_round : Polled → ℕ → TcpPlayer → Option (TcpPlayer × ℕ)
recv_round timed_out left p = some (p, left)
recv_round recv_failed left p = some (p, left + 1)
recv_round (received bytes) left p = recv_into p.txbuf left bytes >>= λ txbuf'.
    let p' = record p { txbuf = txbuf' } in
    some (if length bytes == 0 then closed p' else p', left - length bytes)

-- How far the loop comes: it writes outside the buffer, or still runs, with this `left`, or ends.
pub data Receiving : Type 0 where
  overruns : Receiving
  waits : TcpPlayer → ℕ → Receiving
  ends : TcpPlayer → Receiving

-- The loop, for what the network gives in turn.
unfoldable pub recv_loop : List Polled → ℕ → TcpPlayer → Receiving
recv_loop [] left p = if not p.do_exit && ltb 0 left then waits p left else ends p
recv_loop (x ∷ xs) left p = elim (not p.do_exit && ltb 0 left) [
  | false ↦ ends p
  | true ↦ elim (recv_round x left p) [ none ↦ overruns | some (p', left') ↦ recv_loop xs left' p' ]
]

-- What comes of the callback, with the `fl2k_data_info_t` if it returns.
pub data Answer : Type 0 where
  spoils : Answer
  blocks : TcpPlayer → ℕ → Answer
  answers : TcpPlayer → DataInfo → Answer

abbrev pub answer : DataInfo → Receiving → Answer
answer info overruns = spoils
answer info (waits p left) = blocks p left
answer info (ends p) = answers p (record info { sampletype_signed = true; r_buf = some p.txbuf })

-- `fl2k_callback` of src/fl2k_tcp.c
unfoldable pub tcp_callback : List Polled → DataInfo → TcpPlayer → Answer
tcp_callback network info p =
    if info.device_error
    then answers (record p { do_exit = true }) info
    else if p.connected
    then answer info (recv_loop network buf_len p)
    else answers p info
