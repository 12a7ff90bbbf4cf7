-- ===== src/Soapy/Lent.antt =====
-- src/SoapySDR/Streaming.cpp: how long a buffer that `tx_callback` has given to the library keeps its samples.
use mathlib.Core.Option
use osmo_fl2k.Prelude.{
  ℕ, List, [], ◌∷◌, some, none, Bool, true, false, ◌==◌, ltb, leb, ◌≡◌, ◌≢◌, ◌⊎◌, refl, sym, ◌∙◌,
  ap, arith, inl, inr, get_elem?, modify, get_elem?-modify_ne, Bool-cases, Option-cases, length,
}
use osmo_fl2k.Worker.{DataInfo}
use osmo_fl2k.Soapy.{
  Soapy, stamp, send_tail, tx_callback, take_head, wait_for, acquire_write_buffer,
  release_write_buffer, Status,
}
use osmo_fl2k.Soapy.Slots.{bare, bare-stamp}
use osmo_fl2k.Soapy.Model.{Act, asks, acquires, writes, releases, Reply, perform, overwrite, Model}
use osmo_fl2k.Soapy.Sim.{Sim, cell}
use osmo_fl2k.Soapy.Refine.{perform_all, model_all, ring_refines}

-- The application writes to buffer `i`.
abbrev pub writes_at : Act → Soapy → ℕ → Bool
writes_at (asks info) s i = false
writes_at acquires s i = false
writes_at (writes p) s i = s.current_handle == i
writes_at releases s i = false

-- It does so in one of these acts.
unfoldable pub writes_to : List Act → Soapy → ℕ → Bool
writes_to [] s i = false
writes_to (act ∷ acts) s i = elim (writes_at act s i) [
  | true ↦ true
  | false ↦ elim (perform act s) [ none ↦ false | some (s1, r) ↦ writes_to acts s1 i ]
]

asks-keeps :
    (s s1 : Soapy) (info given : DataInfo) (i : ℕ)
    → tx_callback s info ≡ some (s1, given)
    → cell s1 i ≡ cell s i
unfolding tx_callback send_tail
asks-keeps s s1 info given i e = elim (Bool-cases (ltb 0 info.underflow_cnt)) [
  | inl h ↦ ground (arith, e, h)
  | inr h ↦ elim (Bool-cases (leb (length s.buffs) s.buf_count)) [
    | inl h' ↦ ground (arith, e, h, h')
    | inr h' ↦ elim (Option-cases (get_elem? s.buffs s.buf_tail)) [
      | inl n ↦ absurd (ground (arith, e, h, h', n))
      | inr (b, at) ↦
          let same : modify (stamp s.ticks) s.buffs s.buf_tail ≡ s1.buffs =
            ground (arith, e, h, h', at) in
          ap (λ bs. Option.map bare (get_elem? bs i)) (sym same)
          ∙ bare-stamp s.ticks s.buffs s.buf_tail i
    ]
  ]
]

acquires-keeps :
    (s s1 : Soapy) (r : Status) → acquire_write_buffer [] s ≡ some (s1, r) → s1.buffs ≡ s.buffs
unfolding acquire_write_buffer wait_for take_head
acquires-keeps s s1 r e = ground (arith, e)

act-keeps :
    (act : Act) (s s1 : Soapy) (r : Reply) (i : ℕ)
    → perform act s ≡ some (s1, r)
    → writes_at act s i ≡ false
    → cell s1 i ≡ cell s i
unfolding perform release_write_buffer
act-keeps (asks info) s s1 r i e w = elim (Option-cases (tx_callback s info)) [
  | inl n ↦ absurd (ground (arith, e, n))
  | inr ((s2, given), q) ↦
      let same : s2 ≡ s1 = ground (arith, e, q) in
      ap (λ t. cell t i) (sym same) ∙ asks-keeps s s2 info given i q
]
act-keeps acquires s s1 r i e w = elim (Option-cases (acquire_write_buffer [] s)) [
  | inl n ↦ absurd (ground (arith, e, n))
  | inr ((s2, given), q) ↦
      let same : s2 ≡ s1 = ground (arith, e, q) in
      ap (λ t. cell t i) (sym same)
      ∙ ap (λ bs. Option.map bare (get_elem? bs i)) (acquires-keeps s s2 given q)
]
act-keeps (writes p) s s1 r i e w =
    let other : s.current_handle ≢ i = λ h. absurd (ground (arith, w, h)) in
    let same : modify (overwrite p) s.buffs s.current_handle ≡ s1.buffs = ground (arith, e) in
    ap (λ bs. Option.map bare (get_elem? bs i)) (sym same)
    ∙ ap (Option.map bare) (get_elem?-modify_ne (overwrite p) s.buffs s.current_handle i other)
act-keeps releases s s1 r i e w =
    let same : s.buffs ≡ s1.buffs = ground (arith, e) in
    ap (λ bs. Option.map bare (get_elem? bs i)) (sym same)

-- Later acts leave what the application does not write to.
abbrev pub Kept : List Act → Soapy → Soapy → ℕ → Type 0
Kept acts s s' i = (writes_to acts s i ≡ true) ⊎ (cell s' i ≡ cell s i)

perform_all-Kept :
    (acts : List Act) (s s' : Soapy) (rs : List Reply) (i : ℕ)
    → perform_all acts s ≡ some (s', rs)
    → Kept acts s s' i
unfolding perform_all writes_to
perform_all-Kept [] s s' rs i e =
    let same : s ≡ s' = ground (arith, e) in inr (ap (λ t. cell t i) (sym same))
perform_all-Kept (act ∷ acts) s s' rs i e = elim (Bool-cases (writes_at act s i)) [
  | inl w ↦ inl (rw (writes_to, w) refl)
  | inr w ↦ elim (Option-cases (perform act s)) [
    | inl n ↦ absurd (ground (arith, e, n))
    | inr ((s1, r), q) ↦ elim (Option-cases (perform_all acts s1)) [
      | inl n ↦ absurd (ground (arith, e, q, n))
      | inr ((s2, rs2), f) ↦
          let same : s2 ≡ s' = ground (arith, e, q, f) in
          elim (perform_all-Kept acts s1 s2 rs2 i f) [
            | inl later ↦ inl (rw (writes_to, w, q) later)
            | inr kept ↦ inr (ap (λ t. cell t i) (sym same) ∙ kept ∙ act-keeps act s s1 r i q w)
          ]
    ]
  ]
]

-- From a ring that holds a queue: whatever the library and the application do in turn that the queue allows, the ring
-- does it without an access outside an array, returns the same, and holds the queue as it is then. What the library is
-- given is what a buffer holds at the time of its call; a buffer, whether it was given or not, holds the same samples
-- behind the acts as before them, unless one of the acts writes to it. So the library, which has a pointer to the
-- buffer, gets the samples of the queue if it reads them before the application writes to that buffer again.
pub ring_lends :
    (acts : List Act) (s : Soapy) (a a' : Model) (rs : List Reply)
    → Sim s a
    → model_all acts a ≡ some (a', rs)
    → (s' : Soapy) × (perform_all acts s ≡ some (s', rs)) × Sim s' a' × ((i : ℕ) → Kept acts s s' i)
ring_lends acts s a a' rs sim e =
    let (s', all_done, sim') = ring_refines acts s a a' rs sim e in
    (s', all_done, sim', λ i. perform_all-Kept acts s s' rs i all_done)
