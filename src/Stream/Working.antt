-- ===== src/Stream/Working.antt =====
-- A step of the sample worker keeps the invariant of streaming.
use osmo_fl2k.Prelude.{
  ℕ, ◌+◌, ◌^◌, ◌<◌, ◌%◌, List, [], ◌∷◌, ◌++◌, Option, none, some, ◌≡◌, refl, arith, ◌⊎◌, inl, inr,
  get_elem?, length, length-append, Option-cases, modify, if◌then◌else◌,
}
use mathlib.Core.Path.{subst}
use mathlib.Core.List.{append-nil}
use osmo_fl2k.Device.{empty, Dev, Xfer, XferInfo}
use osmo_fl2k.Transfers.{get_next_xfer}
use osmo_fl2k.Transfers.Free.{FirstEmpty, get_next_xfer-empty, NoneEmpty}
use osmo_fl2k.Convert.{rearrange}
use osmo_fl2k.Worker.{
  DataInfo, Place, at_test, waiting, finished, holding, Worker, Output, fills, Worked, step,
  step_at, fill_xfer,
}
use osmo_fl2k.Stream.Invariant.{Inv, Inv-place, Inv-fill, Free}

-- The buffers that a step of the worker adds.
abbrev pub added : Output → List (List ℕ)
added (fills b) = b ∷ []
added _ = []

-- What a step of the worker does to the transfers and to its place.
data Work (dev : Dev) (w : Worker) (r : Worked) : Type 0 where
  moves :
      r.dev.xfer ≡ dev.xfer
      → r.worker.buf_cnt ≡ w.buf_cnt
      → added r.output ≡ []
      → ((k : ℕ) → r.worker.place ≡ holding k → get_next_xfer dev empty ≡ some k)
      → Work dev w r
  filling :
      (k : ℕ) (bytes : List ℕ)
      → w.place ≡ holding k
      → r.dev.xfer ≡ modify (fill_xfer bytes w.buf_cnt) dev.xfer k
      → r.worker.buf_cnt ≡ (w.buf_cnt + 1) % 2 ^ 64
      → added r.output ≡ bytes ∷ []
      → r.worker.place ≡ at_test
      → Work dev w r

module _ (reply : DataInfo → DataInfo) (dev : Dev) (w : Worker) (r : Worked) where
  test-Work : step_at at_test reply dev w ≡ some r → Work dev w r
  unfolding step_at
  test-Work h = moves (ground arith) (ground arith) (ground arith) (λ k e. ground arith)

  waiting-Work : step_at waiting reply dev w ≡ some r → Work dev w r
  unfolding step_at
  waiting-Work h = moves (ground arith) (ground arith) (ground arith) (λ k e. ground arith)

  finished-Work : step_at finished reply dev w ≡ some r → w.place ≡ finished → Work dev w r
  unfolding step_at
  finished-Work h e = moves (ground arith) (ground arith) (ground arith) (λ k e'. ground arith)

  holding-Work :
      (k : ℕ) → step_at (holding k) reply dev w ≡ some r → w.place ≡ holding k → Work dev w r
  unfolding step_at
  holding-Work k h e = by_xfer (get_elem? dev.xfer k) refl
    where
      open w use {data_info as info}

      filled_by : Xfer → Option (List ℕ)
      filled_by x =
          rearrange x.buffer info.r_buf info.g_buf info.b_buf dev.xfer_buf_len
            (if info.sampletype_signed then 128 else 0)

      by_xfer : (o : Option Xfer) → get_elem? dev.xfer k ≡ o → Work dev w r
      by_xfer none at = absurd (ground arith)
      by_xfer (some x) at = elim (Option-cases (filled_by x)) [
        | inl none' ↦ absurd (ground arith)
        | inr (bytes, done) ↦
            filling k bytes e (ground arith) (ground arith) (ground arith) (ground arith)
      ]

  work_at : (place : Place) → w.place ≡ place → step_at place reply dev w ≡ some r → Work dev w r
  work_at at_test e h = test-Work h
  work_at waiting e h = waiting-Work h
  work_at finished e h = finished-Work h e
  work_at (holding k) e h = holding-Work k h e

  step-Work : step reply dev w ≡ some r → Work dev w r
  unfolding step
  step-Work h = work_at w.place refl h

-- An empty transfer that the worker may take.
Free-of_FirstEmpty : (xs : List Xfer) (k : ℕ) → FirstEmpty xs k → Free xs k
Free-of_FirstEmpty xs k f = by_info f.xfer.user_data refl
  where
    by_info : (o : Option XferInfo) → f.xfer.user_data ≡ o → Free xs k
    by_info none e = absurd (ground (arith, f.is_free))
    by_info (some i) e = record {
      xfer = f.xfer;
      seq = i.seq;
      at = f.at;
      is_free = ground (arith, f.is_free);
    }

pub claimed-Free : (dev : Dev) (k : ℕ) → get_next_xfer dev empty ≡ some k → Free dev.xfer k
claimed-Free dev k e = by_case (get_next_xfer-empty dev)
  where
    by_case :
        ((get_next_xfer dev empty ≡ none) × NoneEmpty dev.xfer)
          ⊎ ((j : ℕ) × (get_next_xfer dev empty ≡ some j) × FirstEmpty dev.xfer j)
        → Free dev.xfer k
    by_case (inl (n, _)) = absurd (cc)
    by_case (inr (j, e', f)) =
        let same : j ≡ k = cc in subst (Free dev.xfer) same (Free-of_FirstEmpty dev.xfer j f)

-- A step of the worker from a state with the invariant adds what it shows to the buffers filled,
-- and keeps the invariant, while these are fewer than 2 ^ 64.
pub step-Inv :
    (reply : DataInfo → DataInfo) (dev : Dev) (w : Worker) (r : Worked) (done : List (List ℕ))
    (n : ℕ)
    → step reply dev w ≡ some r
    → length (done ++ added r.output) < 2 ^ 64
    → Inv dev.xfer w.place w.buf_cnt done n
    → Inv r.dev.xfer r.worker.place r.worker.buf_cnt (done ++ added r.output) n
step-Inv reply dev w r done n h small inv = by_work (step-Work reply dev w r h)
  where
    by_work :
        Work dev w r → Inv r.dev.xfer r.worker.place r.worker.buf_cnt (done ++ added r.output) n
    by_work (moves same cnt none' claims) =
        rw (same, cnt, none', append-nil)
          (Inv-place dev.xfer w.place w.buf_cnt done n inv r.worker.place
            (λ k e. claimed-Free dev k (claims k e)))
    by_work (filling k bytes at xs cnt out back) =
        let f = inv.held k at in
        let next : (w.buf_cnt + 1) % 2 ^ 64 ≡ w.buf_cnt + 1 =
          let longer : length (done ++ bytes ∷ []) < 2 ^ 64 = rw out at small in
          omega (arith, inv.counted, length-append done (bytes ∷ [])) in
        rw (xs, cnt, next, out)
          (Inv-fill dev.xfer w.place w.buf_cnt done n inv k f.xfer f.seq bytes r.worker.place f.at
            f.is_free (λ j e. ground arith))
