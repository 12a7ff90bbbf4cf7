-- ===== src/Stream/Fates.antt =====
-- What becomes of each buffer that the sample worker fills.
use osmo_fl2k.Prelude.{
  ℕ, zero, suc, ◌^◌, ◌≤◌, ◌<◌, List, [], ◌∷◌, ◌++◌, some, true, false, ◌≡◌, refl, ◌∙◌, ap, arith,
  get_elem?, length, take, ℤ, is_negative, inl, inr, Bool-cases, ltb, in_range, length-append,
}
use osmo_fl2k.Worker.{DataInfo}
use osmo_fl2k.Stream.{Stream, Event, silent, produced, repeated, sent, Run}
use osmo_fl2k.Stream.Fifo.{all_produced, all_sent, sent_by, IsStarted, sent_in_order}
use osmo_fl2k.Stream.Backlog.{Waits, unsent-Waits}

-- What `libusb_submit_transfer` returned for the buffers in `all_sent`.
abbrev pub results_by : Event → List ℤ
results_by (sent r b) = r ∷ []
results_by _ = []

abbrev pub all_results : List Event → List ℤ
all_results [] = []
all_results (e ∷ es) = results_by e ++ all_results es

length-results_by : (e : Event) → length (results_by e) ≡ length (sent_by e)
length-results_by silent = refl
length-results_by (produced b) = refl
length-results_by (repeated r) = refl
length-results_by (sent r b) = refl

length-all_results : (es : List Event) → length (all_results es) ≡ length (all_sent es)
length-all_results [] = refl
length-all_results (e ∷ es) = omega (
  arith,
  length-append (results_by e) (all_results es),
  length-append (sent_by e) (all_sent es),
  length-results_by e,
  length-all_results es,
)

get_elem?-take {ℓ} :
    {A : Type ℓ} (n : ℕ) (xs : List A) (v : ℕ) → v < n → get_elem? (take n xs) v ≡ get_elem? xs v
get_elem?-take zero xs v h = absurd (omega arith)
get_elem?-take (suc n) [] v h = refl
get_elem?-take (suc n) (x ∷ xs) zero h = refl
get_elem?-take (suc n) (x ∷ xs) (suc v) h = get_elem?-take n xs v (omega arith)

-- Buffer number `v` behind a run: libusb has accepted it, or refused it, as the buffer given to it with that number, or
-- it waits in a transfer.
pub data Fate (es : List Event) (t : Stream) (v : ℕ) : Type 0 where
  accepted :
      (r : ℤ)
      → get_elem? (all_results es) v ≡ some r
      → is_negative r ≡ false
      → get_elem? (all_sent es) v ≡ get_elem? (all_produced es) v
      → Fate es t v
  refused :
      (r : ℤ)
      → get_elem? (all_results es) v ≡ some r
      → is_negative r ≡ true
      → get_elem? (all_sent es) v ≡ get_elem? (all_produced es) v
      → Fate es t v
  waits :
      (w : Waits t.dev.xfer v)
      → length (all_sent es) ≤ v
      → get_elem? (all_produced es) v ≡ some w.xfer.buffer
      → Fate es t v

-- In every run from the start, with fewer than 2 ^ 64 buffers filled, each buffer that the worker filled has one of three
-- fates: it was given to `libusb_submit_transfer`, in its turn, which accepted it; or it was given to it in its turn and
-- refused; or it was not given to it yet, and waits in a filled transfer, which has its number and holds it. So no
-- buffer is lost but one that libusb refuses.
pub buffer-Fate :
    (reply : DataInfo → DataInfo) (s t : Stream) (es : List Event) (v : ℕ)
    → Run reply s es t
    → IsStarted s
    → length (all_produced es) < 2 ^ 64
    → v < length (all_produced es)
    → Fate es t v
buffer-Fate reply s t es v run start small here = elim (Bool-cases (ltb v (length (all_sent es)))) [
  | inr e ↦
      let later : length (all_sent es) ≤ v = ground (arith, e) in
      let (w, at) = unsent-Waits reply s t es run start small v later here in waits w later at
  | inl e ↦
      let given : v < length (all_sent es) = ground (arith, e) in
      let (r, at) = in_range (all_results es) v (omega (arith, given, length-all_results es)) in
      let same =
        ap (λ xs. get_elem? xs v) (sent_in_order reply s t es run start small)
        ∙ get_elem?-take (length (all_sent es)) (all_produced es) v given in
      elim (Bool-cases (is_negative r)) [
        | inl bad ↦ refused r at bad same
        | inr good ↦ accepted r at good same
      ]
]
