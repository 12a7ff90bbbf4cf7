-- ===== src/I2c/Commanded.antt =====
-- How one command of the I2C bus ends, from the read of the register to the last reply.
use osmo_fl2k.Prelude.{ℕ, ◌<◌, true, false, ◌≡◌, arith, inl, inr, ℤ, is_negative, Bool-cases}
use osmo_fl2k.Device.{error_not_found, error_timeout}
use osmo_fl2k.Registers.{Bus, read_reg, write_reg}
use osmo_fl2k.I2c.{Polled, failed, complete, timed_out, is_complete, has_errors, poll, run_command}
use osmo_fl2k.I2c.Poll.{Outcome, ends, times_out, poll-Outcome, after, ends_at}

module _ {S : Type 0} (bus : Bus S) where
  -- The read of the register, the command made from its contents, and reply number `k` to the polling.
  abbrev pub looked : S → ℤ × ℕ × S
  looked s = read_reg bus s 0x8020

  abbrev asked : (ℕ → ℕ) → S → ℤ × S
  asked command s = write_reg bus (looked s).2 0x8020 (command (looked s).1)

  abbrev reply : (ℕ → ℕ) → S → ℕ → ℤ × ℕ × S
  reply command s k = read_reg bus (after bus k (asked command s).1) 0x8020

  -- No reply before number `k` fails or shows the operation complete.
  abbrev NoneBefore : (ℕ → ℕ) → S → ℕ → Type 0
  NoneBefore command s k = (i : ℕ) → i < k → ends_at bus (asked command s).1 i ≡ false

  -- The ways in which an operation ends: what it returns for an error code, and for the state of the device in which
  -- it succeeds.
  pub data Answer {O : Type 0} (command : ℕ → ℕ) (s : S) (fails : ℤ → O) (succeeds : S → O)
      (out : O) : Type 0 where
    unread :
        is_negative (looked s).0 ≡ true
        → out ≡ fails (looked s).0
        → Answer command s fails succeeds out
    unasked :
        is_negative (looked s).0 ≡ false
        → is_negative (asked command s).0 ≡ true
        → out ≡ fails (asked command s).0
        → Answer command s fails succeeds out
    lost :
        (k : ℕ)
        → k < 10
        → NoneBefore command s k
        → is_negative (reply command s k).0 ≡ true
        → out ≡ fails (reply command s k).0
        → Answer command s fails succeeds out
    refused :
        (k : ℕ)
        → k < 10
        → NoneBefore command s k
        → is_complete (reply command s k).1 ≡ true
        → has_errors (reply command s k).1 ≡ true
        → out ≡ fails error_not_found
        → Answer command s fails succeeds out
    done :
        (k : ℕ)
        → k < 10
        → NoneBefore command s k
        → is_complete (reply command s k).1 ≡ true
        → has_errors (reply command s k).1 ≡ false
        → out ≡ succeeds (reply command s k).2
        → Answer command s fails succeeds out
    silent :
        NoneBefore command s 10 → out ≡ fails error_timeout → Answer command s fails succeeds out

  run_command-asks :
      (command : ℕ → ℕ) (s : S)
      → is_negative (looked s).0 ≡ false
      → is_negative (asked command s).0 ≡ false
      → run_command bus command s ≡ poll bus 10 (asked command s).1
  unfolding run_command
  run_command-asks command s a b = ground arith

  -- What is made of the end of the polling.
  pub record IsFinish {O : Type 0} (fails : ℤ → O) (succeeds : S → O) (finish : Polled × S → O)
      : Type 0 where
    pub of_failed : (r : ℤ) (s : S) → finish (failed r, s) ≡ fails r
    pub of_timed_out : (s : S) → finish (timed_out, s) ≡ fails error_timeout
    pub of_errors :
        (reg : ℕ) (s : S) → has_errors reg ≡ true → finish (complete reg, s) ≡ fails error_not_found
    pub of_none : (reg : ℕ) (s : S) → has_errors reg ≡ false → finish (complete reg, s) ≡ succeeds s

  pub run_command-Answer :
      {O : Type 0} (command : ℕ → ℕ) (s : S) (fails : ℤ → O) (succeeds : S → O)
      (finish : Polled × S → O)
      → IsFinish fails succeeds finish
      → Answer command s fails succeeds (finish (run_command bus command s))
  run_command-Answer {O} command s fails succeeds finish f =
      elim (Bool-cases (is_negative (looked s).0)) [
        | inl a ↦ unread a (unfold run_command in rw a (f.of_failed _ _))
        | inr a ↦ elim (Bool-cases (is_negative (asked command s).0)) [
          | inl b ↦ unasked a b (unfold run_command in rw (a, b) (f.of_failed _ _))
          | inr b ↦
              by_poll (run_command-asks command s a b) (poll-Outcome bus 10 (asked command s).1)
        ]
      ]
    where
      by_poll :
          run_command bus command s ≡ poll bus 10 (asked command s).1
          → Outcome bus 10 (asked command s).1 (poll bus 10 (asked command s).1)
          → Answer command s fails succeeds (finish (run_command bus command s))
      by_poll run (times_out g out) = silent g (rw (run, out) (f.of_timed_out _))
      by_poll run (ends k l g e out) = elim (Bool-cases (is_negative (reply command s k).0)) [
        | inl n ↦ lost k l g n (rw (run, out, n) (f.of_failed _ _))
        | inr n ↦
            let c : is_complete (reply command s k).1 ≡ true = ground (arith, e, n) in
            elim (Bool-cases (has_errors (reply command s k).1)) [
              | inl h ↦ refused k l g c h (rw (run, out, n) (f.of_errors _ _ h))
              | inr h ↦ done k l g c h (rw (run, out, n) (f.of_none _ _ h))
            ]
      ]
