-- ===== src/Players/Network.antt =====
-- src/fl2k_tcp.c: the callback on what comes over the network.
use mathlib.Core.List.{append_assoc}
use osmo_fl2k.Prelude.{
  ℕ, zero, suc, ◌+◌, ◌-◌, ◌≤◌, ◌<◌, List, [], ◌∷◌, ◌++◌, none, some, Bool, true, false, not, ◌&&◌,
  ltb, ◌==◌, ◌≡◌, refl, sym, ap, ◌∙◌, arith, length, length-append,
}
use osmo_fl2k.Device.{buf_len}
use osmo_fl2k.Worker.{DataInfo}
use osmo_fl2k.Players.{
  put_bytes, Polled, timed_out, recv_failed, received, TcpPlayer, recv_into, recv_round, overruns,
  ends, recv_loop, spoils, answers, answer, tcp_callback,
}
use osmo_fl2k.Players.Bytes.{put_chunk, nothing_of_length}

-- The connection holds: a wait times out or gives bytes.
abbrev pub Flows : List Polled → Type 0
Flows [] = Unit
Flows (timed_out ∷ xs) = Flows xs
Flows (recv_failed ∷ xs) = ⊥
Flows (received bytes ∷ xs) = (0 < length bytes) × Flows xs

abbrev pub all_received : List Polled → List ℕ
all_received [] = []
all_received (received bytes ∷ xs) = bytes ++ all_received xs
all_received (_ ∷ xs) = all_received xs

-- The buffer of a player with new contents.
abbrev pub with_txbuf : TcpPlayer → List ℕ → TcpPlayer
with_txbuf p t = record p { txbuf = t }

recv_into-chunk :
    (txbuf : List ℕ) (left : ℕ) (bytes t : List ℕ)
    → 0 < length bytes
    → left ≤ buf_len
    → put_bytes txbuf (buf_len - left) bytes ≡ some t
    → recv_into txbuf left bytes ≡ some t
recv_into-chunk txbuf left [] t l h put = absurd (omega arith)
recv_into-chunk txbuf left (b ∷ bytes) t l h put =
    let e : ltb buf_len left ≡ false = ground arith in rw e put

received_round :
    (p : TcpPlayer) (left : ℕ) (bytes t : List ℕ)
    → 0 < length bytes
    → left ≤ buf_len
    → put_bytes p.txbuf (buf_len - left) bytes ≡ some t
    → recv_round (received bytes) left p ≡ some (with_txbuf p t, left - length bytes)
unfolding recv_round
received_round p left bytes t l h put =
    let e : length bytes == 0 ≡ false = ground arith in
    rw (recv_round, recv_into-chunk p.txbuf left bytes t l h put, e) refl

recv_loop-next :
    (x : Polled) (xs : List Polled) (left left' : ℕ) (p p' : TcpPlayer)
    → not p.do_exit && ltb 0 left ≡ true
    → recv_round x left p ≡ some (p', left')
    → recv_loop (x ∷ xs) left p ≡ recv_loop xs left' p'
unfolding recv_loop
recv_loop-next x xs left left' p p' e round = rw (recv_loop, e, round) refl

guard-zero : (b : Bool) → not b && ltb 0 0 ≡ false
guard-zero true = refl
guard-zero false = refl

recv_loop-zero : (xs : List Polled) (p : TcpPlayer) → recv_loop xs 0 p ≡ ends p
unfolding recv_loop
recv_loop-zero [] p = rw (recv_loop, guard-zero p.do_exit) refl
recv_loop-zero (x ∷ xs) p = rw (recv_loop, guard-zero p.do_exit) refl

recv_loop-full :
    (xs : List Polled) (p : TcpPlayer) (done rest : List ℕ)
    → p.txbuf ≡ done ++ rest
    → length rest ≡ 0
    → length (all_received xs) ≡ 0
    → recv_loop xs 0 p ≡ ends (with_txbuf p (done ++ all_received xs))
recv_loop-full xs p done rest is l m =
    let e = nothing_of_length rest l in
    let e' = nothing_of_length (all_received xs) m in
    let same : p.txbuf ≡ done ++ all_received xs = is ∙ ap (◌++◌ done) (e ∙ sym e') in
    recv_loop-zero xs p ∙ ap (λ b. ends (with_txbuf p b)) same

recv_loop-fills :
    (xs : List Polled) (left : ℕ) (p : TcpPlayer) (done rest : List ℕ)
    → Flows xs
    → p.do_exit ≡ false
    → p.txbuf ≡ done ++ rest
    → length rest ≡ left
    → length (all_received xs) ≡ left
    → length done + left ≡ buf_len
    → recv_loop xs left p ≡ ends (with_txbuf p (done ++ all_received xs))
unfolding recv_round
recv_loop-fills xs zero p done rest flows runs is l m all = recv_loop-full xs p done rest is l m
recv_loop-fills [] (suc left) p done rest flows runs is l m all = absurd (omega arith)
recv_loop-fills (timed_out ∷ xs) (suc left) p done rest flows runs is l m all =
    recv_loop-next timed_out xs (suc left) (suc left) p p (ground arith) refl
    ∙ recv_loop-fills xs (suc left) p done rest flows runs is l m all
recv_loop-fills (recv_failed ∷ xs) (suc left) p done rest flows runs is l m all = absurd flows
recv_loop-fills (received bytes ∷ xs) (suc left) p done rest flows runs is l m all =
    let len = length-append bytes (all_received xs) in
    let (front, rest', same, n, put) = put_chunk done bytes rest (omega arith) in
    let t : List ℕ = (done ++ bytes) ++ rest' in
    let at : buf_len - suc left ≡ length done = omega arith in
    let len_rest : length rest ≡ length front + length rest' =
      rw same (length-append front rest') in
    let len_done = length-append done bytes in
    let round = received_round p (suc left) bytes t flows.0 (omega arith) (rw (is, at) put) in
    recv_loop-next (received bytes) xs (suc left) (suc left - length bytes) p (with_txbuf p t)
      (ground arith) round
    ∙ (recv_loop-fills xs (suc left - length bytes) (with_txbuf p t) (done ++ bytes) rest' flows.1
          runs refl (omega arith) (omega arith) (omega arith)
        ∙ ap (λ b. ends (with_txbuf p b)) (append_assoc done bytes (all_received xs)))

tcp_callback-connected :
    (xs : List Polled) (info : DataInfo) (p : TcpPlayer)
    → info.device_error ≡ false
    → p.connected ≡ true
    → tcp_callback xs info p ≡ answer info (recv_loop xs buf_len p)
unfolding tcp_callback
tcp_callback-connected xs info p found up = ground arith

-- The callback of a connected and running program, while the device is there, returns with the bytes received, in
-- order, in the buffer, if the connection holds and they are as many as the buffer has, whatever chunks they come in.
pub tcp_callback_fills :
    (xs : List Polled) (info : DataInfo) (p : TcpPlayer)
    → info.device_error ≡ false
    → p.connected ≡ true
    → p.do_exit ≡ false
    → length p.txbuf ≡ buf_len
    → Flows xs
    → length (all_received xs) ≡ buf_len
    → tcp_callback xs info p
      ≡ answers
          (with_txbuf p (all_received xs))
          (record info { sampletype_signed = true; r_buf = some (all_received xs) })
tcp_callback_fills xs info p found up runs l flows m =
    let run = recv_loop-fills xs buf_len p [] p.txbuf flows runs refl l m (omega arith) in
    tcp_callback-connected xs info p found up ∙ ap (answer info) run

recv_loop-overruns :
    (x : Polled) (xs : List Polled) (left : ℕ) (p : TcpPlayer)
    → not p.do_exit && ltb 0 left ≡ true
    → recv_round x left p ≡ none
    → recv_loop (x ∷ xs) left p ≡ overruns
unfolding recv_loop
recv_loop-overruns x xs left p e round = rw (recv_loop, e, round) refl

-- If `recv` fails before anything came, the next bytes are stored in front of the buffer: the callback of a
-- connected and running program, while the device is there, writes outside of it.
pub failed_recv_spoils :
    (xs : List Polled) (b : ℕ) (bytes : List ℕ) (info : DataInfo) (p : TcpPlayer)
    → info.device_error ≡ false
    → p.connected ≡ true
    → p.do_exit ≡ false
    → tcp_callback (recv_failed ∷ received (b ∷ bytes) ∷ xs) info p ≡ spoils
unfolding recv_round
failed_recv_spoils xs b bytes info p found up runs =
    let more : not p.do_exit && true ≡ true = rw runs refl in
    let network = received (b ∷ bytes) ∷ xs in
    tcp_callback-connected (recv_failed ∷ network) info p found up
    ∙ ap (answer info) (
        recv_loop-next recv_failed network buf_len (buf_len + 1) p p more refl
        ∙ recv_loop-overruns (received (b ∷ bytes)) xs (buf_len + 1) p more refl)
