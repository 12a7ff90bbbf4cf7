-- ===== src/Programs/Tcp.antt =====
-- `main` of src/fl2k_tcp.c. The exit of the process gives back what it does not free before.
use osmo_fl2k.Prelude.{
  ℕ, List, [], ◌∷◌, ◌++◌, Option, none, some, Bool, if◌then◌else◌, ℤ, pos, is_negative,
}
use osmo_fl2k.Device.{Dev}
use osmo_fl2k.Programs.{
  Call, allocates, frees, opens, closes, opens_socket, closes_zero, Ended, returns, exits, waits,
  World, wait_exit, close_returns, start_calls,
}

pub data TcpOption : Type 0 where
  device port : ℤ → TcpOption
  rate buffers : ℕ → TcpOption
  address : TcpOption
  other : TcpOption

pub record TcpOptions : Type 0 where
  pub dev_index : ℤ
  pub port : ℤ
  pub samp_rate : ℕ
  pub buf_num : ℕ

abbrev pub tcp_defaults : TcpOptions
tcp_defaults = record { dev_index = pos 0; port = pos 1234; samp_rate = 100000000; buf_num = 0 }

-- The loop over the options; `none` is the exit of `usage`.
unfoldable pub parse_tcp : List TcpOption → TcpOptions → Option TcpOptions
parse_tcp [] o = some o
parse_tcp (device n ∷ rest) o = parse_tcp rest (record o { dev_index = n })
parse_tcp (port n ∷ rest) o = parse_tcp rest (record o { port = n })
parse_tcp (rate n ∷ rest) o = parse_tcp rest (record o { samp_rate = n })
parse_tcp (buffers n ∷ rest) o = parse_tcp rest (record o { buf_num = n })
parse_tcp (address ∷ rest) o = parse_tcp rest o
parse_tcp (other ∷ rest) o = none

-- A call of `connect`, and `do_exit` behind the sleep if it fails.
pub record Attempt : Type 0 where
  pub connects : Bool
  pub do_exit : Bool

-- The loop that connects: it is connected, or it is to exit, or it goes on.
pub data Connecting : Type 0 where
  connected gives_up trying : Connecting

unfoldable pub connect_loop : List Attempt → Connecting
connect_loop [] = trying
connect_loop (a ∷ later) =
    let rest = connect_loop later in
    if a.connects then connected else if a.do_exit then gives_up else rest

-- From the label `out` on. `closesocket(s)` closes descriptor 0, since nothing sets `s`.
abbrev pub tcp_out : World → Dev → List Call → Ended
tcp_out w dev before =
    if close_returns w (some dev)
    then returns (pos 0) (before ++ closes ∷ frees ∷ closes_zero ∷ [])
    else waits before

-- Behind the loop that connects.
abbrev pub tcp_connected : World → Dev → List Call → Connecting → Ended
tcp_connected w dev before connected =
    if wait_exit w.do_exit then tcp_out w dev before else waits before
tcp_connected w dev before gives_up = tcp_out w dev before
tcp_connected w dev before trying = waits before

unfoldable pub tcp_main : World → List Attempt → List TcpOption → Ended
unfolding parse_tcp connect_loop
tcp_main w attempts options = elim (parse_tcp options tcp_defaults) [
  | none ↦ exits (pos 1)
  | some o ↦
      let streams : Ended = elim w.device [
        | none ↦ exits (pos 1)
        | some dev ↦
            tcp_connected w dev
              (allocates ∷ opens ∷ start_calls w dev o.buf_num ++ opens_socket ∷ [])
              (connect_loop attempts)
      ] in
      if is_negative o.dev_index then exits (pos 1) else if w.memory then streams else exits (pos 1)
]
