-- ===== src/Tests/Playing.antt =====
-- The programs of src/fl2k_file.c and src/fl2k_tcp.c.
use mathlib.Core.List.{append-nil}
use osmo_fl2k.Prelude.{
  ℕ, ◌-◌, List, [], ◌∷◌, none, some, true, false, ◌==◌, if◌then◌else◌, ◌≡◌, refl, arith, length, ap,
  ◌++◌, ◌∙◌,
}
use osmo_fl2k.Device.{buf_len}
use osmo_fl2k.Worker.{DataInfo}
use osmo_fl2k.Players.{
  Fread, FileOps, FilePlayer, file_callback, timed_out, received, TcpPlayer, answers, tcp_callback,
}
use osmo_fl2k.Players.Filling.{IsFile, Refilled, file_callback-Refilled}
use osmo_fl2k.Tests.Scenario.{of_length}
use osmo_fl2k.Players.Network.{with_txbuf, tcp_callback_fills}

-- A file of zeros, of which the state is the number of bytes that are left; a read gives one byte.
abbrev one_of : ℕ → ℕ → Fread × ℕ
one_of left n =
    if left == 0
    then (record { bytes = []; eof = true }, 0)
    else if n == 0
    then (record { bytes = []; eof = false }, left)
    else (record { bytes = 0 ∷ []; eof = false }, left - 1)

abbrev zeros : FileOps ℕ
zeros = record { fread = one_of; rewind = λ f. 9 }

zeros-IsFile : IsFile zeros
zeros-IsFile = record { bounded = λ f n. ground arith; progress = λ f n l e. ground arith }

abbrev info : DataInfo
info = record {
  underflow_cnt = 0;
  len = buf_len;
  device_error = false;
  sampletype_signed = false;
  r_buf = none;
  g_buf = none;
  b_buf = none;
}

abbrev filled_with : List ℕ → DataInfo
filled_with bytes = record info { sampletype_signed = true; r_buf = some bytes }

abbrev file_player : FilePlayer ℕ
file_player = record {
  file = 9;
  txbuf = (of_length buf_len 0).0;
  do_exit = false;
  repeat = false;
  repeat_cnt = 0;
  dev = none;
}

file_callback-Refilled_example :
    (p' : FilePlayer ℕ) × (file_callback zeros info file_player ≡ some (p', filled_with p'.txbuf))
    × Refilled zeros 9 ((of_length buf_len 0).0) none p'
file_callback-Refilled_example =
    file_callback-Refilled zeros zeros-IsFile info file_player refl refl (of_length buf_len 0).1

abbrev tcp_player : TcpPlayer
tcp_player = record {
  txbuf = (of_length buf_len 0).0;
  do_exit = false;
  connected = true;
  dev = none;
}

abbrev ones : List ℕ
ones = (of_length (buf_len - 1) 1).0

all_ones : length (5 ∷ ones) ≡ buf_len
all_ones = omega (arith, (of_length (buf_len - 1) 1).1)

tcp_callback_fills_example :
    tcp_callback (timed_out ∷ received (5 ∷ []) ∷ received ones ∷ []) info tcp_player
    ≡ answers (with_txbuf tcp_player (5 ∷ (ones ++ []))) (filled_with (5 ∷ (ones ++ [])))
tcp_callback_fills_example =
    tcp_callback_fills (timed_out ∷ received (5 ∷ []) ∷ received ones ∷ []) info tcp_player refl
      refl refl (of_length buf_len 0).1
      (omega arith, (omega (arith, (of_length (buf_len - 1) 1).1), tt))
      (ap (λ xs. length (5 ∷ xs)) (append-nil ones) ∙ all_ones)
