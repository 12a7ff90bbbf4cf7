-- ===== src/UsbWorker/Ends.antt =====
-- When the event loop ends.
use mathlib.Core.Path.{subst}
use osmo_fl2k.Prelude.{
  ℕ, zero, suc, ◌+◌, ◌≤◌, ◌<◌, [], some, ◌≢◌, true, false, if◌then◌else◌, ◌≡◌, refl, ap, ◌∙◌, sym,
  arith, ◌⊎◌, inl, inr, get_elem?, length, is_negative, Option-cases, Bool-cases,
}
use osmo_fl2k.Worker.{Place, at_test, waiting, holding, finished}
use osmo_fl2k.Device.{AsyncStatus, inactive, canceling, running, Dev, is_running, is_inactive}
use osmo_fl2k.UsbWorker.{
  Usb, is_cancelled, is_canceling, run_loop, cancel_from, Round, again, stops, cancel_round,
  end_round, end_loop, join, usb_worker,
}

-- The device is there, and its stream is to end.
pub record IsEnding (dev : Dev) : Type 0 where
  pub status : dev.async_status ≡ canceling
  pub there : dev.dev_lost ≡ false

-- libusb settles: handling events succeeds and brings it nearer to the point where a transfer that is not
-- cancelled cannot be cancelled any more, since it is not in flight; and that neither loses the
-- device nor changes the state of the stream.
pub record Settles {S : Type 0} (usb : Usb S) : Type 0 where
  pub pending : S → ℕ
  pub succeeds :
      (s : S) (dev : Dev) → IsEnding dev → is_negative (usb.handle_events s dev).0 ≡ false
  pub still : (s : S) (dev : Dev) → IsEnding dev → IsEnding (usb.handle_events s dev).2
  pub nearer :
      (s : S) (dev : Dev)
      → IsEnding dev
      → (pending (usb.handle_events s dev).1 < pending s)
        ⊎ (pending (usb.handle_events s dev).1 ≡ 0)
  pub not_farther :
      (s : S) (dev : Dev) (k : ℕ) → pending (usb.cancel_transfer s dev k).1 ≤ pending s
  pub gives_up :
      (s : S) (dev : Dev) (k : ℕ)
      → pending s ≡ 0
      → is_negative (usb.cancel_transfer s dev k).0 ≡ true

module _ {S : Type 0} (usb : Usb S) (settles : Settles usb) where
  open settles use {pending}

  -- What cancelling keeps, and that it finds nothing to do once libusb has settled.
  record Cancelled (s : S) (next : AsyncStatus) (r : S × Dev × AsyncStatus) : Type 0 where
    pub ending : IsEnding r.1
    pub near : pending r.0 ≤ pending s
    pub settled : pending s ≡ 0 → r.2 ≡ next

  closer : (a b c : ℕ) → (a < b) ⊎ (a ≡ 0) → b ≤ c → a ≤ c
  closer a b c (inl h) l = omega arith
  closer a b c (inr h) l = omega arith

  cancel_from-Cancelled :
      (left i : ℕ) (s : S) (dev : Dev) (next : AsyncStatus)
      → IsEnding dev
      → Cancelled s next (cancel_from usb left i s dev next)
  unfolding cancel_from
  cancel_from-Cancelled zero i s dev next e = record {
    ending = e;
    near = omega arith;
    settled = λ z. refl;
  }
  cancel_from-Cancelled (suc left) i s dev next e =
      let rest = cancel_from-Cancelled left (i + 1) s dev next e in
      elim (Option-cases (get_elem? dev.xfer i)) [
        | inl h ↦ rw (cancel_from, h) rest
        | inr (x, h) ↦ elim (Bool-cases (is_cancelled x.status)) [
          | inl c ↦ rw (cancel_from, h, c) rest
          | inr c ↦
              let (r, s') = usb.cancel_transfer s dev i in
              let (r', s'', dev') = usb.handle_events s' dev in
              let near : pending s'' ≤ pending s =
                closer (pending s'') (pending s') (pending s) (settles.nearer s' dev e)
                  (settles.not_farther s dev i) in
              let later =
                cancel_from-Cancelled left (i + 1) s'' dev'
                  (if is_negative r then next else canceling) (settles.still s' dev e) in
              rw (cancel_from, h, c)
                (record {
                  ending = later.ending;
                  near = omega (arith, later.near, near);
                  settled = λ z.
                      later.settled (omega arith)
                      ∙ ap (λ b. if b then next else canceling) (settles.gives_up s dev i z);
                })
        ]
      ]

  -- A round of a stream that is to end: libusb comes nearer, or the loop ends with nothing left to do.
  data Progress (s : S) : Round S → Type 0 where
    nearer :
        (s' : S) (dev' : Dev) (next : AsyncStatus)
        → IsEnding dev'
        → pending s' < pending s
        → Progress s (again s' dev' next)
    ended : (s' : S) (dev' : Dev) → Progress s (stops s' dev' inactive)

  inactive_of : (next : AsyncStatus) → is_inactive next ≡ true → next ≡ inactive
  inactive_of inactive e = refl
  inactive_of canceling e = absurd (cc)
  inactive_of running e = absurd (cc)

  goes_on :
      (s1 s s' : S) (next : AsyncStatus)
      → (pending s < pending s1) ⊎ (pending s ≡ 0)
      → pending s' ≤ pending s
      → (pending s ≡ 0 → next ≡ inactive)
      → is_inactive next ≡ false
      → pending s' < pending s1
  goes_on s1 s s' next (inl h) l settled i = omega arith
  goes_on s1 s s' next (inr h) l settled i =
      let same : is_inactive next ≡ true = ap is_inactive (settled h) in
      absurd (ground (arith, same, i))

  cancel_round-Progress :
      (s1 s : S) (dev : Dev)
      → IsEnding dev
      → (pending s < pending s1) ⊎ (pending s ≡ 0)
      → Progress s1 (cancel_round usb s dev)
  unfolding cancel_round
  cancel_round-Progress s1 s dev e near =
      let (s', dev', next) = cancel_from usb dev.xfer_buf_num 0 s dev inactive in
      let c = cancel_from-Cancelled dev.xfer_buf_num 0 s dev inactive e in
      let (r, s'', dev'') = usb.handle_events s' dev' in
      elim (Bool-cases (is_inactive next)) [
        | inl i ↦
            rw (cancel_round, c.ending.there, i)
              (subst (λ n. Progress s1 (stops s'' dev'' n)) (sym (inactive_of next i))
                (ended s'' dev''))
        | inr i ↦
            rw (cancel_round, c.ending.there, i)
              (nearer s' dev' next c.ending (goes_on s1 s s' next near c.near c.settled i))
      ]

  end_round-Progress :
      (s : S) (dev : Dev) (next : AsyncStatus)
      → IsEnding dev
      → Progress s (end_round usb s dev next)
  unfolding end_round
  end_round-Progress s dev next e =
      let e' = settles.still s dev e in
      let (r, s', dev') = usb.handle_events s dev in
      let goes : is_canceling dev'.async_status ≡ true = ap is_canceling e'.status in
      rw (end_round, settles.succeeds s dev e, goes)
        (cancel_round-Progress s s' dev' e' (settles.nearer s dev e))

  end_loop-round :
      (fuel : ℕ) (s : S) (dev : Dev) (next : AsyncStatus)
      → IsEnding dev
      → end_loop usb (suc fuel) s dev next ≡ (elim (end_round usb s dev next) [
        | again s' dev' next' ↦ end_loop usb fuel s' dev' next'
        | stops s' dev' next' ↦ some (s', dev', next')
      ])
  unfolding end_loop
  end_loop-round fuel s dev next e =
      let goes : is_inactive dev.async_status ≡ false = ap is_inactive e.status in
      rw (end_loop, goes) refl

  end_loop-ends :
      (fuel : ℕ) (s : S) (dev : Dev) (next : AsyncStatus)
      → IsEnding dev
      → pending s < fuel
      → (s' : S) × (dev' : Dev) × (end_loop usb fuel s dev next ≡ some (s', dev', inactive))
  end_loop-ends zero s dev next e l = absurd (omega arith)
  end_loop-ends (suc fuel) s dev next e l =
      let (s', dev', run) =
        by_round (end_round usb s dev next) (end_round-Progress s dev next e)
          (λ s' dev' next' e' l'. end_loop-ends fuel s' dev' next' e' (omega arith)) in
      (s', dev', end_loop-round fuel s dev next e ∙ run)
    where
      by_round :
          (round : Round S)
          → Progress s round
          → ((s' : S) (dev' : Dev) (next' : AsyncStatus)
              → IsEnding dev'
              → pending s' < pending s
              → (s'' : S) × (dev'' : Dev) × (end_loop usb fuel s' dev' next'
                  ≡ some (s'', dev'', inactive)))
          → (s'' : S) × (dev'' : Dev) × ((elim round [
            | again s' dev' next' ↦ end_loop usb fuel s' dev' next'
            | stops s' dev' next' ↦ some (s', dev', next')
          ])
              ≡ some (s'', dev'', inactive))
      by_round _ (nearer s' dev' next' e' l') later = later s' dev' next' e' l'
      by_round _ (ended s' dev') later = (s', dev', refl)

  join-returns : (place : Place) (dev : Dev) → place ≢ waiting → join place dev ≡ some dev
  unfolding join
  join-returns at_test dev ne = refl
  join-returns (holding k) dev ne = refl
  join-returns finished dev ne = refl
  join-returns waiting dev ne = absurd (ne refl)

  -- For a device that is there and whose stream is to end, and a sample worker that does not wait for an empty transfer
  -- when it is joined, the thread ends, and leaves the stream inactive and without
  -- transfers, with more rounds of fuel than libusb is away from settling; if libusb settles: it handles events without
  -- an error, each time nearer to a point where no transfer can be cancelled, and the device stays.
  pub usb_worker-ends :
      (fuel : ℕ) (place : Place) (s : S) (dev : Dev)
      → IsEnding dev
      → place ≢ waiting
      → pending s < fuel
      → (s' : S) × (dev' : Dev) × (usb_worker usb fuel place s dev ≡ some (s', dev'))
        × (dev'.async_status ≡ inactive)
        × (length dev'.xfer ≡ 0)
  unfolding usb_worker run_loop
  usb_worker-ends zero place s dev e ne l = absurd (omega arith)
  usb_worker-ends (suc fuel) place s dev e ne l =
      let stopped : is_running dev.async_status ≡ false = ap is_running e.status in
      let (s', dev', run) = end_loop-ends (suc fuel) s dev inactive e l in
      (
        s',
        record dev' { xfer = []; async_status = inactive },
        rw (usb_worker, run_loop, stopped, run, join-returns place dev' ne) refl,
        refl,
        refl,
      )
