-- ===== src/Soapy/Events.antt =====
-- src/SoapySDR/Streaming.cpp: `readStreamStatus`, which waits for an underflow. Times are numbers of one unit.
use native.Mathlib.Nat.{suc-mul}
use osmo_fl2k.Prelude.{
  ℕ, ◌+◌, ◌*◌, ◌/◌, ◌≤◌, ◌<◌, List, [], ◌∷◌, Option, none, some, Bool, true, false, ◌||◌, ltb,
  if◌then◌else◌, length, ◌≡◌, ◌⊎◌, refl, ap, arith, inl, inr, Bool-cases,
}
use osmo_fl2k.Soapy.{Soapy, Status, timeout, underflow}

-- One round of the loop: whether `tx_callback` has seen an underflow before its test, and the time behind
-- its sleep.
pub record Look : Type 0 where
  pub event : Bool
  pub now : ℕ

-- The loop up to `exitTime`; `none` if it goes on behind the rounds given.
unfoldable pub poll_events : ℕ → List Look → Soapy → Option (Soapy × Status)
poll_events exit_time [] s = none
poll_events exit_time (look ∷ later) s =
    let rest = poll_events exit_time later s in
    if s.underflow_event || look.event
    then some (record s { underflow_event = false }, underflow)
    else if ltb exit_time look.now
    then some (s, timeout)
    else rest

-- `readStreamStatus`, called at a time.
unfoldable pub read_stream_status : ℕ → ℕ → List Look → Soapy → Option (Soapy × Status)
unfolding poll_events
read_stream_status called timeout_us looks s = poll_events (called + timeout_us) looks s

-- `sleepTimeUs`
abbrev pub sleep_time : ℕ → ℕ
sleep_time timeout_us = if ltb 1000 (timeout_us / 10) then 1000 else timeout_us / 10

-- Each sleep takes its time, at least.
abbrev pub Sleeps : ℕ → ℕ → List Look → Type 0
Sleeps sleep before [] = Unit {0}
Sleeps sleep before (look ∷ later) = (before + sleep ≤ look.now) × Sleeps sleep look.now later

abbrev pub NoEvents : List Look → Type 0
NoEvents [] = Unit {0}
NoEvents (look ∷ later) = (look.event ≡ false) × NoEvents later

-- What a call returns, and leaves behind.
abbrev Answered : List Look → Soapy → Option (Soapy × Status) → Type 0
Answered looks s answer =
    (r : Status) × (answer ≡ some (record s { underflow_event = false }, r))
    × ((r ≡ underflow) ⊎ (r ≡ timeout))
    × (s.underflow_event ≡ true → r ≡ underflow)
    × (s.underflow_event ≡ false → NoEvents looks → r ≡ timeout)

left_of_or : (a b : Bool) → (a || b) ≡ false → a ≡ false
left_of_or true b e = cc
left_of_or false b e = refl

or_of_no : (a b : Bool) → (a || b) ≡ true → a ≡ false → b ≡ false → ⊥
or_of_no true b e n m = cc
or_of_no false b e n m = cc

-- The last round given is behind the timeout.
more_left :
    (sleep before exit_time : ℕ) (look : Look) (later : List Look)
    → before + sleep ≤ look.now
    → exit_time < before + length (look ∷ later) * sleep
    → ltb exit_time look.now ≡ false
    → 0 < length later
more_left sleep before exit_time look [] step enough early =
    absurd (ground (arith, suc-mul 0 sleep))
more_left sleep before exit_time look (_ ∷ later) step enough early = omega arith

poll_events-Answered :
    (sleep before exit_time : ℕ) (looks : List Look) (s : Soapy)
    → Sleeps sleep before looks
    → 0 < length looks
    → exit_time < before + length looks * sleep
    → Answered looks s (poll_events exit_time looks s)
unfolding poll_events
poll_events-Answered sleep before exit_time [] s paced more enough = absurd (omega arith)
poll_events-Answered sleep before exit_time (look ∷ later) s (step, paced) more enough =
    elim (Bool-cases (s.underflow_event || look.event)) [
      | inl e ↦ (
        underflow,
        rw e refl,
        inl refl,
        λ h. refl,
        λ no (none_now, _). absurd (or_of_no s.underflow_event look.event e no none_now),
      )
      | inr e ↦
          let quiet = left_of_or s.underflow_event look.event e in
          elim (Bool-cases (ltb exit_time look.now)) [
            | inl late ↦ (
              timeout,
              rw (e, late) (ap (λ b. some (record s { underflow_event = b }, timeout)) quiet),
              inr refl,
              λ h. cc (quiet, h),
              λ no none_seen. refl,
            )
            | inr early ↦
                let left : exit_time < look.now + length later * sleep =
                  omega (arith, suc-mul (length later) sleep) in
                let (r, answer, either, loud, silent) =
                  poll_events-Answered sleep look.now exit_time later s paced
                    (more_left sleep before exit_time look later step enough early) left in
                (r, rw (e, early) answer, either, loud, λ no (_, none_later). silent no none_later)
          ]
    ]

some_look : (looks : List Look) (sleep n : ℕ) → n < length looks * sleep → 0 < length looks
some_look [] sleep n h = absurd (omega arith)
some_look (_ ∷ looks) sleep n h = omega arith

-- If each sleep takes its time, a call returns within as many rounds as times of sleep pass the
-- timeout: SOAPY_SDR_UNDERFLOW if there was an underflow before, SOAPY_SDR_TIMEOUT if there is none before and none
-- meanwhile, one of the two in any case; behind the call the event is cleared and nothing else is changed.
pub read_stream_status-Answered :
    (called timeout_us : ℕ) (looks : List Look) (s : Soapy)
    → Sleeps (sleep_time timeout_us) called looks
    → timeout_us < length looks * sleep_time timeout_us
    → (r : Status) × (read_stream_status called timeout_us looks s
        ≡ some (record s { underflow_event = false }, r))
      × ((r ≡ underflow) ⊎ (r ≡ timeout))
      × (s.underflow_event ≡ true → r ≡ underflow)
      × (s.underflow_event ≡ false → NoEvents looks → r ≡ timeout)
unfolding read_stream_status
read_stream_status-Answered called timeout_us looks s paced enough =
    let more : 0 < length looks = some_look looks (sleep_time timeout_us) timeout_us enough in
    poll_events-Answered (sleep_time timeout_us) called (called + timeout_us) looks s paced more
      (omega (arith, enough))
