-- ===== src/Transfer/Stack/Effect.antt =====
-- The stack instructions of src/solver/transfer/stack.rs do what the instruction set says of the
-- words of the operand stack.
use ferro_jtype.Prelude.{
  ℕ, suc, ◌≡◌, refl, sym, ap, ◌∙◌, subst, Bool, true, false, ◌&&◌, List, ◌∷◌, inl, inr,
}
use ferro_jtype.Frame.{FrameValue, IsWellFormed}
use ferro_jtype.Frame.Stack.Entries.{entries, with_entries-entries}
use ferro_jtype.Transfer.{State, Site}
use ferro_jtype.Transfer.Stack.Words.{
  StackOperation, pop_one, pop_two, dup, dup_x1, dup_x2, dup_two, dup_two_x1, dup_two_x2, swap_two,
  run, words, effect, is_wide, fits, allowed, fits-One, fits-Two, at_entries, IsEffect, run-pop_one,
  run-pop_two, run-dup, run-dup_x1, run-dup_x2, run-dup_two, wide-dup_two_x1, pair-dup_two_x1,
  wide-dup_two_x2, pair-dup_two_x2, run-swap,
}

both_true : (a b : Bool) → (a && b) ≡ true → (a ≡ true) × (b ≡ true)
both_true true true e = (refl, refl)
both_true true false e = cc
both_true false b e = cc

fits_below :
    (v : FrameValue) (r : List FrameValue) (n : ℕ)
    → is_wide v ≡ false
    → fits (v ∷ r) (suc n) ≡ true
    → fits r n ≡ true
fits_below v r n e h = rw e at h

fits_below_wide :
    (v : FrameValue) (r : List FrameValue) (n : ℕ)
    → is_wide v ≡ true
    → fits (v ∷ r) (suc (suc n)) ≡ true
    → fits r n ≡ true
fits_below_wide v r n e h = rw e at h

-- What lies under a value of category one.
below_one :
    (vs : List FrameValue) (n : ℕ) (P : List FrameValue → Type 0)
    → fits vs 1 ≡ true
    → fits vs (suc n) ≡ true
    → ((v : FrameValue) (r : List FrameValue) → is_wide v ≡ false → fits r n ≡ true → P (v ∷ r))
    → P vs
below_one vs n P h k step =
    let (v, r, same, e) = fits-One vs h in
    let later : fits (v ∷ r) (suc n) ≡ true = rw same at k in
    subst P (sym same) (step v r e (fits_below v r n e later))

-- What lies under two words.
below_two :
    (vs : List FrameValue) (n : ℕ) (P : List FrameValue → Type 0)
    → fits vs 2 ≡ true
    → fits vs (suc (suc n)) ≡ true
    → ((v : FrameValue) (r : List FrameValue) → is_wide v ≡ true → fits r n ≡ true → P (v ∷ r))
    → ((v w : FrameValue) (r : List FrameValue)
        → is_wide v ≡ false
        → is_wide w ≡ false
        → fits r n ≡ true
        → P (v ∷ w ∷ r))
    → P vs
below_two vs n P h k wide pair = elim (fits-Two vs h) [
  | inl (v, r, same, e) ↦
      let later : fits (v ∷ r) (suc (suc n)) ≡ true = rw same at k in
      subst P (sym same) (wide v r e (fits_below_wide v r n e later))
  | inr (v, w, r, same, e, f) ↦
      let later : fits (v ∷ w ∷ r) (suc (suc n)) ≡ true = rw same at k in
      subst P (sym same)
        (pair v w r e f (fits_below w r n f (fits_below v (w ∷ r) (suc n) e later)))
]

module _ (site : Site) (s : State) where
  allowed-IsEffect :
      (op : StackOperation) (vs : List FrameValue) → allowed op vs ≡ true → IsEffect op site s vs
  allowed-IsEffect pop_one vs h = run-pop_one site s vs (fits-One vs h)
  allowed-IsEffect pop_two vs h = run-pop_two site s vs (fits-Two vs h)
  allowed-IsEffect dup vs h = run-dup site s vs (fits-One vs h)
  allowed-IsEffect dup_x1 vs h =
      let (a, b) = both_true _ _ h in
      below_one vs 1 (IsEffect dup_x1 site s) a b
        (λ v r e k. run-dup_x1 site s r v e (fits-One r k))
  allowed-IsEffect dup_x2 vs h =
      let (a, b) = both_true _ _ h in
      below_one vs 2 (IsEffect dup_x2 site s) a b
        (λ v r e k. run-dup_x2 site s r v e (fits-Two r k))
  allowed-IsEffect dup_two vs h = run-dup_two site s vs (fits-Two vs h)
  allowed-IsEffect dup_two_x1 vs h =
      let (a, b) = both_true _ _ h in
      below_two vs 1 (IsEffect dup_two_x1 site s) a b
        (λ v r e k. wide-dup_two_x1 site s r v e (fits-One r k))
        (λ v w r e f k. pair-dup_two_x1 site s r v w e f (fits-One r k))
  allowed-IsEffect dup_two_x2 vs h =
      let (a, b) = both_true _ _ h in
      below_two vs 2 (IsEffect dup_two_x2 site s) a b
        (λ v r e k. wide-dup_two_x2 site s r v e (fits-Two r k))
        (λ v w r e f k. pair-dup_two_x2 site s r v w e f (fits-Two r k))
  allowed-IsEffect swap_two vs h =
      let (a, b) = both_true _ _ h in
      below_one vs 1 (IsEffect swap_two site s) a b
        (λ v r e k. run-swap site s r v e (fits-One r k))

-- On a well-formed frame whose words an operation may split as it does, the operation reports
-- nothing, changes nothing but the entries of the operand stack, leaves vectors that run in
-- parallel, and makes of the words of the stack what the instruction set says: pop and pop2 drop
-- one and two words, the dup family copies one or two words under zero, one or two more, and swap
-- exchanges two.
pub run-words :
    (op : StackOperation) (site : Site) (s : State)
    → IsWellFormed s.frame
    → allowed op (entries s.frame) ≡ true
    → (vs : List FrameValue) × (run op site s ≡ (tt, at_entries s vs))
      × (words vs ≡ effect op (words (entries s.frame)))
run-words op site s w h =
    let (vs, ran, same) = allowed-IsEffect site s op (entries s.frame) h in
    let start : at_entries s (entries s.frame) ≡ s =
      ap (λ f. record s { frame = f }) (with_entries-entries s.frame w) in
    (vs, ap (run op site) (sym start) ∙ ran, same)
