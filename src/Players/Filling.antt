-- ===== src/Players/Filling.antt =====
-- src/fl2k_file.c: the callback fills the buffer or ends the program.
use mathlib.Core.Path.{subst}
use mathlib.Core.List.{append_assoc}
use osmo_fl2k.Prelude.{
  ℕ, zero, suc, ◌+◌, ◌-◌, ◌≤◌, ◌<◌, List, [], ◌++◌, Option, some, Bool, true, false, not, ◌&&◌, ltb,
  ◌≡◌, ◌⊎◌, inl, inr, refl, sym, ◌∙◌, arith, length, length-append, Bool-cases,
}
use osmo_fl2k.Device.{Dev, buf_len}
use osmo_fl2k.Transfers.{stop_tx}
use osmo_fl2k.Worker.{DataInfo}
use osmo_fl2k.Players.{put_bytes, Fread, FileOps, FilePlayer, after_read, fill_loop, file_callback}
use osmo_fl2k.Players.Bytes.{put_chunk}

-- `fread` gives no more than it is asked for, and nothing only at the end of the file.
pub record IsFile {F : Type 0} (ops : FileOps F) : Type 0 where
  pub bounded : (f : F) (n : ℕ) → length (ops.fread f n).0.bytes ≤ n
  pub progress :
      (f : F) (n : ℕ) → 0 < n → length (ops.fread f n).0.bytes ≡ 0 → (ops.fread f n).0.eof ≡ true

-- The bytes that calls of `fread` in a row give, with calls of `rewind` between them.
pub data Reads {F : Type 0} (ops : FileOps F) (f : F) : List ℕ → F → Type 0 where
  nothing : Reads ops f [] f
  reads :
      {bs : List ℕ} {g : F}
      → Reads ops f bs g
      → (n : ℕ) → 0 < n
      → Reads ops f (bs ++ (ops.fread g n).0.bytes) (ops.fread g n).1
  rewinds : {bs : List ℕ} {g : F} → Reads ops f bs g → Reads ops f bs (ops.rewind g)

-- The program ends if and only if the device was told to stop.
abbrev pub Told : Option Dev → Bool → Option Dev → Type 0
Told dev do_exit dev' =
    ((do_exit ≡ false) × (dev' ≡ dev)) ⊎ ((do_exit ≡ true) × (dev' ≡ (stop_tx dev).0))

-- The buffer behind the callback: the bytes read, and, if the program ends, what is left of the old ones.
pub record Refilled {F : Type 0} (ops : FileOps F) (f : F) (old : List ℕ) (dev : Option Dev)
    (p : FilePlayer F) : Type 0 where
  pub bytes : List ℕ
  pub front : List ℕ
  pub rest : List ℕ
  pub was : old ≡ front ++ rest
  pub is : p.txbuf ≡ bytes ++ rest
  pub as_many : length front ≡ length bytes
  pub come : Reads ops f bytes p.file
  pub told : Told dev p.do_exit p.dev
  pub full : (length rest ≡ 0) ⊎ (p.do_exit ≡ true)

module _ {F : Type 0} (ops : FileOps F) (is_file : IsFile ops) where
  -- What is done behind `fread` to `q`, which becomes `p`.
  record After (x : Fread) (dev : Option Dev) (q p : FilePlayer F) : Type 0 where
    pub same_txbuf : p.txbuf ≡ q.txbuf
    pub same_file : (p.file ≡ q.file) ⊎ (p.file ≡ ops.rewind q.file)
    pub told : Told dev p.do_exit p.dev
    pub at_eof : length x.bytes ≡ 0 → x.eof ≡ true → p.do_exit ≡ true

  after_read-After :
      (x : Fread) (q : FilePlayer F) → q.do_exit ≡ false → After x q.dev q (after_read ops x q)
  after_read-After x q runs = elim (Bool-cases x.eof) [
    | inr e ↦ rw e (record {
      same_txbuf = refl;
      same_file = inl refl;
      told = inl (runs, refl);
      at_eof = λ l h. absurd (cc);
    })
    | inl e ↦ elim (Bool-cases (q.repeat && ltb 0 (length x.bytes))) [
      | inl r ↦
          rw (e, r)
            (record {
              same_txbuf = refl;
              same_file = inr refl;
              told = inl (runs, refl);
              at_eof = λ l h. absurd (ground arith);
            })
      | inr r ↦
          rw (e, r)
            (record {
              same_txbuf = refl;
              same_file = inl refl;
              told = inr (refl, refl);
              at_eof = λ l h. refl;
            })
    ]
  ]

  -- The rounds that are left, at least.
  abbrev rounds : Bool → ℕ → ℕ
  rounds true left = 0
  rounds false left = left

  fill_loop-round :
      (fuel left : ℕ) (p : FilePlayer F) (t : List ℕ)
      → not p.do_exit && ltb 0 left ≡ true
      → put_bytes p.txbuf (buf_len - left) (ops.fread p.file left).0.bytes ≡ some t
      → let (x, file') = ops.fread p.file left in
        fill_loop ops (suc fuel) left p
        ≡ fill_loop ops fuel
            (left - length x.bytes)
            (after_read ops x (record p { file = file'; txbuf = t }))
  unfolding fill_loop
  fill_loop-round fuel left p t e put = rw (fill_loop, e, put) refl

  fread-Reads :
      (f g h : F) (bs : List ℕ) (n : ℕ)
      → Reads ops f bs g
      → 0 < n
      → (h ≡ (ops.fread g n).1) ⊎ (h ≡ ops.rewind (ops.fread g n).1)
      → Reads ops f (bs ++ (ops.fread g n).0.bytes) h
  fread-Reads f g h bs n come l (inl e) = rw e (reads come n l)
  fread-Reads f g h bs n come l (inr e) = rw e (rewinds (reads come n l))

  same_device :
      (dev : Option Dev) (do_exit : Bool) (dev' : Option Dev)
      → Told dev do_exit dev'
      → do_exit ≡ false
      → dev' ≡ dev
  same_device dev do_exit dev' (inl (e, same)) h = same
  same_device dev do_exit dev' (inr (e, stopped)) h = absurd (ground arith)

  fewer_rounds :
      (do_exit : Bool) (m left fuel : ℕ)
      → 0 < left
      → left < suc fuel
      → (m ≡ 0 → do_exit ≡ true)
      → rounds do_exit (left - m) < fuel
  fewer_rounds true m left fuel l h stop = omega arith
  fewer_rounds false zero left fuel l h stop = absurd (ground (arith, stop refl))
  fewer_rounds false (suc m) left fuel l h stop = omega arith

  fill_loop-Refilled :
      (fuel left : ℕ) (p : FilePlayer F) (f : F) (dev : Option Dev) (done old front rest : List ℕ)
      → old ≡ front ++ rest
      → length front ≡ length done
      → p.txbuf ≡ done ++ rest
      → length rest ≡ left
      → length done + left ≡ buf_len
      → Reads ops f done p.file
      → Told dev p.do_exit p.dev
      → rounds p.do_exit left < fuel
      → (p' : FilePlayer F) × (fill_loop ops fuel left p ≡ some p') × Refilled ops f old dev p'
  unfolding fill_loop
  fill_loop-Refilled zero left p f dev done old front rest was n is l all come told more =
      absurd (omega arith)
  fill_loop-Refilled (suc fuel) left p f dev done old front rest was n is l all come told more =
      elim (Bool-cases (not p.do_exit && ltb 0 left)) [
        | inr e ↦ (
          p,
          rw (fill_loop, e) refl,
          record {
            bytes = done;
            front = front;
            rest = rest;
            was = was;
            is = is;
            as_many = n;
            come = come;
            told = told;
            full = elim (Bool-cases p.do_exit) [ inl h ↦ inr h | inr h ↦ inl (ground arith) ];
          },
        )
        | inl e ↦
            let (x, file') = ops.fread p.file left in
            let runs : p.do_exit ≡ false = ground arith in
            let some_left : 0 < left = ground arith in
            let (front1, rest1, same, n1, put) =
              put_chunk done x.bytes rest (omega (arith, is_file.bounded p.file left)) in
            let at : buf_len - left ≡ length done = omega arith in
            let t : List ℕ = (done ++ x.bytes) ++ rest1 in
            let q : FilePlayer F = record p { file = file'; txbuf = t } in
            let after = after_read-After x q runs in
            let len_rest : length rest ≡ length front1 + length rest1 =
              rw same (length-append front1 rest1) in
            let len_done = length-append done x.bytes in
            let len_front = length-append front front1 in
            let (p', run, r) =
              fill_loop-Refilled fuel (left - length x.bytes) (after_read ops x q) f dev
                (done ++ x.bytes) old (front ++ front1) rest1
                (was ∙ (rw same (sym (append_assoc front front1 rest1)))) (omega arith)
                after.same_txbuf (omega arith) (omega (arith, is_file.bounded p.file left))
                (fread-Reads f p.file (after_read ops x q).file done left come some_left
                  after.same_file)
                (subst (λ d. Told d (after_read ops x q).do_exit (after_read ops x q).dev)
                  (same_device dev p.do_exit p.dev told runs) after.told)
                (fewer_rounds (after_read ops x q).do_exit (length x.bytes) left fuel some_left
                  (subst (λ b. rounds b left < suc fuel) runs more)
                  (λ z. after.at_eof z (is_file.progress p.file left some_left z))) in
            (p', fill_loop-round fuel left p t e (rw (is, at) put) ∙ run, r)
      ]

  -- The callback returns: for a running program with a buffer of the right length it fills the buffer with what
  -- is read from the file, from its front on, or it stops the device and ends the program, and it hands the buffer over; if
  -- the device is not lost, and `fread` gives no more than it is asked for, and nothing only at the end of the file.
  pub file_callback-Refilled :
      (info : DataInfo) (p : FilePlayer F)
      → info.device_error ≡ false
      → p.do_exit ≡ false
      → length p.txbuf ≡ buf_len
      → (p' : FilePlayer F) × (file_callback ops info p
          ≡ some (p', record info { sampletype_signed = true; r_buf = some p'.txbuf }))
        × Refilled ops p.file p.txbuf p.dev p'
  unfolding file_callback
  file_callback-Refilled info p found runs len =
      let (p', run, r) =
        fill_loop-Refilled (suc buf_len) buf_len p p.file p.dev [] p.txbuf [] p.txbuf refl refl refl
          len (omega arith) nothing (inl (runs, refl)) (rw runs (omega arith)) in
      (p', rw (found, run) refl, r)
