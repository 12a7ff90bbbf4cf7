-- ===== src/Stream/Fifo.antt =====
-- Streaming as a queue: whatever the threads' interleaving, callbacks take the filled buffers, to submit
-- them, in the order in which the sample worker filled them.
use mathlib.Core.List.{append-nil, append_assoc}
use osmo_fl2k.Prelude.{
  ℕ, zero, suc, ◌+◌, ◌^◌, ◌≤◌, ◌<◌, List, [], ◌∷◌, ◌++◌, Option, none, some, ◌≡◌, refl, ◌∙◌, sym,
  ap, arith, length, ℤ, take, length-append, take-suc_of_get_elem?, take-append_le,
}
use osmo_fl2k.Device.{Dev}
use osmo_fl2k.Transfers.Filled.{NoneFilled}
use osmo_fl2k.Transfers.Window.{count_none, count_pos}
use osmo_fl2k.Worker.{DataInfo, at_test, Output, quiet, fills, notifies}
use osmo_fl2k.Transfers.Callback.{xfer-stop_dev}
use osmo_fl2k.Stream.{
  Stream, Event, silent, repeated, produced, sent, event_of, sent_event, Step, works, calls_back,
  stops, Run, here, next,
}
use osmo_fl2k.Stream.Invariant.{Inv}
use osmo_fl2k.Stream.Preserve.{Advances, libusb_callback-Inv}
use osmo_fl2k.Stream.Working.{added, step-Inv}

abbrev pub produced_by : Event → List (List ℕ)
produced_by (produced b) = b ∷ []
produced_by _ = []

abbrev pub sent_by : Event → List (List ℕ)
sent_by (sent r b) = b ∷ []
sent_by _ = []

-- The buffers that the worker filled, and those taken from filled transfers to be submitted, in order.
abbrev pub all_produced : List Event → List (List ℕ)
all_produced [] = []
all_produced (e ∷ es) = produced_by e ++ all_produced es

abbrev pub all_sent : List Event → List (List ℕ)
all_sent [] = []
all_sent (e ∷ es) = sent_by e ++ all_sent es

-- The stream at its start: the worker before its first round, no transfer filled.
pub record IsStarted (s : Stream) : Type 0 where
  pub at_start : s.worker.place ≡ at_test
  pub none_counted : s.worker.buf_cnt ≡ 0
  pub none_filled : NoneFilled s.dev.xfer

all_produced-end :
    (es : List Event) (e : Event) → all_produced (es ++ e ∷ []) ≡ all_produced es ++ produced_by e
all_produced-end [] e = append-nil (produced_by e)
all_produced-end (d ∷ es) e =
    ap (◌++◌ (produced_by d)) (all_produced-end es e)
    ∙ sym (append_assoc (produced_by d) (all_produced es) (produced_by e))

all_sent-end : (es : List Event) (e : Event) → all_sent (es ++ e ∷ []) ≡ all_sent es ++ sent_by e
all_sent-end [] e = append-nil (sent_by e)
all_sent-end (d ∷ es) e =
    ap (◌++◌ (sent_by d)) (all_sent-end es e)
    ∙ sym (append_assoc (sent_by d) (all_sent es) (sent_by e))

-- What a run has done: the invariant, with the buffers sent, `out`, being the first ones filled.
pub record Ran (s : Stream) (done out : List (List ℕ)) : Type 0 where
  pub n : ℕ
  pub inv : Inv s.dev.xfer s.worker.place s.worker.buf_cnt done n
  pub prefix : out ≡ take n done

IsStarted-Ran : (s : Stream) → IsStarted s → Ran s [] []
IsStarted-Ran s h = record {
  n = 0;
  inv = record {
    window = λ v. ground (arith, count_none v s.dev.xfer h.none_filled);
    bound = omega arith;
    counted = h.none_counted;
    held = λ k e. absurd (ground (arith, h.at_start));
    content = λ j v x at e.
        absurd
          (omega (arith, count_none v s.dev.xfer h.none_filled, count_pos s.dev.xfer j v x at e));
  };
  prefix = refl;
}

advance-prefix :
    (done out : List (List ℕ)) (n m : ℕ) (e : Event)
    → Advances done n e m
    → out ≡ take n done
    → out ++ sent_by e ≡ take m done
advance-prefix done out n m silent a p = rw (a, append-nil) p
advance-prefix done out n m (repeated r) a p = rw (a, append-nil) p
advance-prefix done out n m (produced b) a p = rw (a, append-nil) p
advance-prefix done out n m (sent r b) a p =
    let one_more : n + 1 ≡ suc n = omega arith in
    rw (a.0, one_more, take-suc_of_get_elem? done n b a.1, p)

sent_by-event_of : (o : Output) → sent_by (event_of o) ≡ []
sent_by-event_of quiet = refl
sent_by-event_of (fills b) = refl
sent_by-event_of (notifies i) = refl

produced_by-event_of : (o : Output) → produced_by (event_of o) ≡ added o
produced_by-event_of quiet = refl
produced_by-event_of (fills b) = refl
produced_by-event_of (notifies i) = refl

produced_by-sent_event :
    (dev : Dev) (k : ℕ) (r : ℤ) (o : Option ℕ) → produced_by (sent_event dev k r o) ≡ []
produced_by-sent_event dev k r none = refl
produced_by-sent_event dev k r (some n) = ground arith

Step-Ran :
    (reply : DataInfo → DataInfo) (s t : Stream) (e : Event) (done out : List (List ℕ))
    → Step reply s e t
    → length (done ++ produced_by e) < 2 ^ 64
    → Ran s done out
    → Ran t (done ++ produced_by e) (out ++ sent_by e)
Step-Ran reply s t e done out (works r h) small ran = record {
  n = ran.n;
  inv =
      rw produced_by-event_of
        (step-Inv reply s.dev s.worker r done ran.n h (rw produced_by-event_of at small) ran.inv);
  prefix =
      rw
        (
          sent_by-event_of r.output,
          append-nil,
          take-append_le ran.n done (produced_by (event_of r.output)) ran.inv.bound,
        )
        ran.prefix;
}
Step-Ran reply s t e done out (calls_back k status r f) small ran =
    let (m, adv, inv) =
      libusb_callback-Inv s.dev k status r s.worker.place s.worker.buf_cnt ran.n done f ran.inv in
    record {
      n = m;
      inv = rw (produced_by-sent_event, append-nil) inv;
      prefix =
          rw (produced_by-sent_event, append-nil)
            (advance-prefix done out ran.n m _ adv ran.prefix);
    }
Step-Ran reply s t e done out stops small ran = record {
  n = ran.n;
  inv = rw (append-nil, xfer-stop_dev) ran.inv;
  prefix = simp append-nil ran.prefix;
}

Run-Ran :
    (reply : DataInfo → DataInfo) (s t : Stream) (es : List Event)
    → Run reply s es t
    → IsStarted s
    → length (all_produced es) < 2 ^ 64
    → Ran t (all_produced es) (all_sent es)
Run-Ran reply s t es here start small = IsStarted-Ran s start
Run-Ran reply s t es (next {es = ds} {e = e} {t = u} run st) start small =
    let ends = all_produced-end ds e in
    let fits : length (all_produced ds ++ produced_by e) < 2 ^ 64 = rw ends at small in
    let before =
      Run-Ran reply s u ds run start
        (omega (arith, fits, length-append (all_produced ds) (produced_by e))) in
    rw (ends, all_sent-end ds e)
      (Step-Ran reply u t e (all_produced ds) (all_sent ds) st fits before)

length-take_le {ℓ} : {A : Type ℓ} (n : ℕ) (xs : List A) → n ≤ length xs → length (take n xs) ≡ n
length-take_le zero xs h = refl
length-take_le (suc n) [] h = absurd (omega arith)
length-take_le (suc n) (x ∷ xs) h = ap suc (length-take_le n xs (omega arith))

module _ (reply : DataInfo → DataInfo) (s t : Stream) (es : List Event) (run : Run reply s es t)
    (start : IsStarted s) (small : length (all_produced es) < 2 ^ 64) where
  pub ran : Ran t (all_produced es) (all_sent es)
  ran = Run-Ran reply s t es run start small

  pub sent_count : ran.n ≡ length (all_sent es)
  sent_count = sym (ap length ran.prefix ∙ length-take_le ran.n (all_produced es) ran.inv.bound)

  -- In every run from the start, with fewer than 2 ^ 64 buffers filled, the buffers that callbacks take from filled
  -- transfers, to submit them, are the first ones that the worker filled, in the same order, each taken once. A buffer that is
  -- submitted again, for want of a filled transfer, is not counted again, and one that `libusb_submit_transfer` refuses
  -- is counted.
  pub sent_in_order : all_sent es ≡ take (length (all_sent es)) (all_produced es)
  sent_in_order = rw (← sent_count) ran.prefix

  -- In every such run the buffers filled and not yet sent wait in filled transfers, in order.
  pub run-Inv :
      Inv t.dev.xfer t.worker.place t.worker.buf_cnt (all_produced es) (length (all_sent es))
  run-Inv = rw (← sent_count) ran.inv
