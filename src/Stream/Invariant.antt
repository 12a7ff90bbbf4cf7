-- ===== src/Stream/Invariant.antt =====
-- What holds between two steps of streaming: the buffers filled and not yet sent wait in filled
-- transfers, each in one, under consecutive sequence numbers.
use osmo_fl2k.Prelude.{
  ℕ, ◌⊎◌, inl, inr, ◌+◌, ◌≤◌, ◌<◌, List, [], ◌∷◌, ◌++◌, none, some, ◌≡◌, ◌≢◌, ◌∙◌, sym, ap, arith,
  get_elem?, length, modify, ℕ_discrete, length-append, get_elem?-modify_self, get_elem?-modify_ne,
  get_elem?-append_left, get_elem?-append_end,
}
use osmo_fl2k.Device.{empty, XferInfo, Xfer}
use osmo_fl2k.Transfers.Filled.{filled_seq}
use osmo_fl2k.Transfers.Window.{Window, Window-take, Window-fill, Window-keep}
use osmo_fl2k.Worker.{Place, holding, fill_xfer}

abbrev pub free_info : ℕ → XferInfo
free_info q = record { seq = q; state = empty }

-- The transfer at index `k` is empty.
pub record Free (xs : List Xfer) (k : ℕ) : Type 0 where
  pub xfer : Xfer
  pub seq : ℕ
  pub at : get_elem? xs k ≡ some xfer
  pub is_free : xfer.user_data ≡ some (free_info seq)

-- A filled transfer holds the buffer that was filled under its number.
abbrev pub Content : List Xfer → List (List ℕ) → Type 0
Content xs done =
    (j v : ℕ) (x : Xfer)
    → get_elem? xs j ≡ some x
    → filled_seq x ≡ some v
    → get_elem? done v ≡ some x.buffer

-- `done` are the buffers filled so far, and `sent` the number of those sent.
pub record Inv (xs : List Xfer) (place : Place) (cnt : ℕ) (done : List (List ℕ)) (sent : ℕ)
    : Type 0 where
  pub window : Window sent (length done) xs
  pub bound : sent ≤ length done
  pub counted : cnt ≡ length done
  pub held : (k : ℕ) → place ≡ holding k → Free xs k
  pub content : Content xs done

-- An update at index `i`, seen at index `j`.
module _ (f : Xfer → Xfer) (xs : List Xfer) (i : ℕ) (x : Xfer) (at : get_elem? xs i ≡ some x) where
  same_at : (k : ℕ) (y : Xfer) → i ≡ k → get_elem? xs k ≡ some y → x ≡ y
  same_at k y e h = let h' : get_elem? xs i ≡ some y = ap (get_elem? xs) e ∙ h in cc

  pub seen :
      (j : ℕ) (y : Xfer)
      → get_elem? (modify f xs i) j ≡ some y
      → (y ≡ f x) ⊎ (get_elem? xs j ≡ some y)
  seen j y h = elim (ℕ_discrete i j) [
    | yes e ↦ inl (cc (get_elem?-modify_self f xs i x at, ap (get_elem? (modify f xs i)) e ∙ h))
    | no n ↦ inr (sym (get_elem?-modify_ne f xs i j n) ∙ h)
  ]

  Free-modify :
      (k : ℕ)
      → ((q : ℕ) → x.user_data ≡ some (free_info q) → (f x).user_data ≡ some (free_info q))
      → Free xs k
      → Free (modify f xs i) k
  Free-modify k keep h = elim (ℕ_discrete i k) [
    | yes e ↦ record {
      xfer = f x;
      seq = h.seq;
      at = ap (get_elem? (modify f xs i)) (sym e) ∙ get_elem?-modify_self f xs i x at;
      is_free = keep h.seq (ap (λ t. t.user_data) (same_at k h.xfer e h.at) ∙ h.is_free);
    }
    | no n ↦ record {
      xfer = h.xfer;
      seq = h.seq;
      at = get_elem?-modify_ne f xs i k n ∙ h.at;
      is_free = h.is_free;
    }
  ]

  Content-modify :
      (done : List (List ℕ))
      → ((v : ℕ) → filled_seq (f x) ≡ some v → get_elem? done v ≡ some (f x).buffer)
      → Content xs done
      → Content (modify f xs i) done
  Content-modify done new c j v y h e = by_place (seen j y h)
    where
      by_place : (y ≡ f x) ⊎ (get_elem? xs j ≡ some y) → get_elem? done v ≡ some y.buffer
      by_place (inl p) = rw p (new v (ap filled_seq (sym p) ∙ e))
      by_place (inr p) = c j v y p e

-- More buffers filled do not change the ones before.
Content-append :
    (xs : List Xfer) (done : List (List ℕ)) (b : List ℕ)
    → Content xs done
    → Content xs (done ++ b ∷ [])
Content-append xs done b c j v x h e = get_elem?-append_left done (b ∷ []) v x.buffer (c j v x h e)

module _ (xs : List Xfer) (place : Place) (cnt : ℕ) (done : List (List ℕ)) (sent : ℕ)
    (inv : Inv xs place cnt done sent) where
  -- An update that leaves number and bytes of a transfer alone, and an empty one empty.
  pub Inv-keep :
      (f : Xfer → Xfer) (i : ℕ) (x : Xfer)
      → get_elem? xs i ≡ some x
      → filled_seq (f x) ≡ filled_seq x
      → (f x).buffer ≡ x.buffer
      → ((q : ℕ) → x.user_data ≡ some (free_info q) → (f x).user_data ≡ some (free_info q))
      → Inv (modify f xs i) place cnt done sent
  Inv-keep f i x at seqs bytes keep = record {
    window = Window-keep f sent (length done) i xs x inv.window at seqs;
    bound = inv.bound;
    counted = inv.counted;
    held = λ k e. Free-modify f xs i x at k keep (inv.held k e);
    content =
        Content-modify f xs i x at done (λ v e. rw bytes (inv.content i v x at (sym seqs ∙ e)))
          inv.content;
  }

  -- The transfer with the oldest buffer is submitted.
  pub Inv-take :
      (f : Xfer → Xfer) (i : ℕ) (x : Xfer)
      → get_elem? xs i ≡ some x
      → filled_seq x ≡ some sent
      → sent < length done
      → filled_seq (f x) ≡ none
      → ((q : ℕ) → x.user_data ≡ some (free_info q) → (f x).user_data ≡ some (free_info q))
      → Inv (modify f xs i) place cnt done (sent + 1)
  Inv-take f i x at seq more gone keep = record {
    window = Window-take f sent (length done) i xs x inv.window more at seq gone;
    bound = omega arith;
    counted = inv.counted;
    held = λ k e. Free-modify f xs i x at k keep (inv.held k e);
    content = Content-modify f xs i x at done (λ v e. absurd (cc)) inv.content;
  }

  -- The worker moves on.
  pub Inv-place :
      (place' : Place) → ((k : ℕ) → place' ≡ holding k → Free xs k) → Inv xs place' cnt done sent
  Inv-place place' h = record {
    window = inv.window;
    bound = inv.bound;
    counted = inv.counted;
    held = h;
    content = inv.content;
  }

  -- The worker fills the transfer in hand with the next buffer.
  pub Inv-fill :
      (k : ℕ) (x : Xfer) (q : ℕ) (bytes : List ℕ) (place' : Place)
      → get_elem? xs k ≡ some x
      → x.user_data ≡ some (free_info q)
      → ((j : ℕ) → place' ≢ holding j)
      → Inv (modify (fill_xfer bytes cnt) xs k) place' (cnt + 1) (done ++ bytes ∷ []) sent
  Inv-fill k x q bytes place' at free gone =
      let longer : length (done ++ bytes ∷ []) ≡ length done + 1 =
        omega (arith, length-append done (bytes ∷ [])) in
      let seq : filled_seq (fill_xfer bytes cnt x) ≡ some cnt = ground arith in
      let old : filled_seq x ≡ none = ground arith in
      record {
        window = rw longer (
            Window-fill (fill_xfer bytes cnt) sent (length done) k xs x inv.window inv.bound at old
              (seq ∙ ap some inv.counted));
        bound = rw longer (omega (arith, inv.bound));
        counted = rw longer (omega (arith, inv.counted));
        held = λ j e. absurd (gone j e);
        content =
            Content-modify (fill_xfer bytes cnt) xs k x at (done ++ bytes ∷ [])
              (λ v e.
                let number : v ≡ length done = cc (seq, inv.counted) in
                rw number (get_elem?-append_end done bytes))
              (Content-append xs done bytes inv.content);
      }
