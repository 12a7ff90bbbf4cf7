-- ===== src/Soapy/Refine.antt =====
-- The ring of buffers implements the bounded queue, whatever the two threads do.
use mathlib.Core.Path.{subst, subst₂}
use osmo_fl2k.Prelude.{
  List, [], ◌∷◌, Option, some, false, ltb, ◌≡◌, refl, sym, ◌∙◌, ap, arith, length, inl, inr,
  Bool-cases, Option-cases, ◌>>=◌,
}
use osmo_fl2k.Worker.{DataInfo}
use osmo_fl2k.Soapy.{Buffer, Soapy}
use osmo_fl2k.Soapy.Model.{Act, asks, acquires, writes, releases, Reply, perform, Model, pop, model}
use osmo_fl2k.Soapy.Sim.{Sim, Follows}
use osmo_fl2k.Soapy.Asking.{asks_nothing, asks_buffer}
use osmo_fl2k.Soapy.Acquiring.{acquires-Sim}
use osmo_fl2k.Soapy.Writing.{writes-Sim, releases-Sim}

asks_pop :
    (s : Soapy) (a : Model) (info : DataInfo) (q : List Buffer)
    → a.queue ≡ q
    → ltb 0 info.underflow_cnt ≡ false
    → Sim s a
    → Follows (asks info) s (pop info a q).0 (pop info a q).1
asks_pop s a info [] e h sim = asks_nothing s a info (inr (ap length e)) sim
asks_pop s a info (b ∷ bs) e h sim = asks_buffer s a info b bs h e sim

-- One act.
perform-Sim :
    (act : Act) (s : Soapy) (a a' : Model) (r : Reply)
    → Sim s a
    → model act a ≡ some (a', r)
    → Follows act s a' r
unfolding model
perform-Sim (asks info) s a a' r sim e = elim (Bool-cases (ltb 0 info.underflow_cnt)) [
  | inl h ↦
      let f = asks_nothing s a info (inl h) sim in
      subst₂ (Follows (asks info) s) (ground arith) (ground arith) f
  | inr h ↦
      let f = asks_pop s a info a.queue refl h sim in
      subst₂ (Follows (asks info) s) (ground arith) (ground arith) f
]
perform-Sim acquires s a a' r sim e = elim (Bool-cases a.writing) [
  | inl h ↦ absurd (ground arith)
  | inr h ↦
      let (a1, r1, begun, f) = acquires-Sim s a sim h in
      subst₂ (Follows acquires s) (ground arith) (ground arith) f
]
perform-Sim (writes p) s a a' r sim e = elim (Bool-cases a.writing) [
  | inl h ↦ subst₂ (Follows (writes p) s) (ground arith) (ground arith) (writes-Sim s a p sim h)
  | inr h ↦ absurd (ground arith)
]
perform-Sim releases s a a' r sim e = elim (Bool-cases a.writing) [
  | inl h ↦ elim (Option-cases a.draft) [
    | inl d ↦ absurd (ground arith)
    | inr (p, d) ↦
        subst₂ (Follows releases s) (ground arith) (ground arith) (releases-Sim s a p sim h d)
  ]
  | inr h ↦ absurd (ground arith)
]

-- Acts in a row, with what they return.
unfoldable pub perform_all : List Act → Soapy → Option (Soapy × List Reply)
perform_all [] s = some (s, [])
perform_all (act ∷ acts) s = do
  (s', r) ← perform act s
  (s'', rs) ← perform_all acts s'
  some (s'', r ∷ rs)

unfoldable pub model_all : List Act → Model → Option (Model × List Reply)
model_all [] a = some (a, [])
model_all (act ∷ acts) a = do
  (a', r) ← model act a
  (a'', rs) ← model_all acts a'
  some (a'', r ∷ rs)

perform_all-cons :
    (act : Act) (acts : List Act) (s s1 s' : Soapy) (r : Reply) (rs : List Reply)
    → perform act s ≡ some (s1, r)
    → perform_all acts s1 ≡ some (s', rs)
    → perform_all (act ∷ acts) s ≡ some (s', r ∷ rs)
unfolding perform_all
perform_all-cons act acts s s1 s' r rs e f = rw (e, f) refl

model_all-cons :
    (act : Act) (acts : List Act) (a a' : Model) (rs : List Reply)
    → model_all (act ∷ acts) a ≡ some (a', rs)
    → (a1 : Model) × (r1 : Reply) × (rs' : List Reply) × (model act a ≡ some (a1, r1))
      × (model_all acts a1 ≡ some (a', rs'))
      × (rs ≡ r1 ∷ rs')
unfolding model_all
model_all-cons act acts a a' rs e = elim (Option-cases (model act a)) [
  | inl h ↦ absurd (ground arith)
  | inr ((a1, r1), h) ↦ elim (Option-cases (model_all acts a1)) [
    | inl h' ↦ absurd (ground arith)
    | inr ((a2, rs'), h') ↦ (a1, r1, rs', h, ground arith, ground arith)
  ]
]

-- From a ring that holds a queue: whatever the library and the application do in turn that the queue allows, the ring
-- does it without an access outside an array, returns the same, and holds the queue as it is then. What the library is
-- given is what the buffer holds at the time of the call, so it is to read the buffer before the application writes
-- again.
pub ring_refines :
    (acts : List Act) (s : Soapy) (a a' : Model) (rs : List Reply)
    → Sim s a
    → model_all acts a ≡ some (a', rs)
    → (s' : Soapy) × (perform_all acts s ≡ some (s', rs)) × Sim s' a'
unfolding perform_all model_all
ring_refines [] s a a' rs sim e = (s, ground arith, subst (Sim s) (ground arith) sim)
ring_refines (act ∷ acts) s a a' rs sim e =
    let (a1, r1, rs', first, rest, same) = model_all-cons act acts a a' rs e in
    let (s1, done', sim1) = perform-Sim act s a a1 r1 sim first in
    let (s', all_done, sim') = ring_refines acts s1 a1 a' rs' sim1 rest in
    (
      s',
      perform_all-cons act acts s s1 s' r1 rs' done' all_done ∙ ap (λ t. some (s', t)) (sym same),
      sim',
    )
