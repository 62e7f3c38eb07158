-- ===== src/Frame/Merge/Mismatch.antt =====
-- `merge_from` of src/solver/frame.rs after two stacks of different heights have met.
use ferro_jtype.Prelude.{
  ℕ, zero, suc, ◌≤◌, max, ◌≡◌, ◌≢◌, refl, sym, ap, ◌∙◌, subst, Bool-cases, ==_iff, length-replicate,
  true, false, List, [], ◌∷◌, Option, length, replicate, inl, inr, ◌==◌, if◌then◌else◌, as_bool,
  arith,
}
use ferro_jtype.Hierarchy.{TypeHierarchy}
use ferro_jtype.Types.Inferred.{InferredType, bottom, conflict}
use ferro_jtype.Frame.{ValueOrigin, InstanceOfFact, Targets, Frame}
use ferro_jtype.Frame.Stack.{rest_of}
use ferro_jtype.Frame.Merge.{
  StackParts, merge_entries, all_conflict, types-discrete, merge_stacks, merge_from,
}
use ferro_jtype.Types.Inferred.Join.{join_with_hierarchy, join_other}

chosen_types :
    (m : List InferredType) (s t : StackParts) (d : Dec (s.types ≡ m))
    → t.types ≡ m
    → (if as_bool d then s else t).types ≡ m
chosen_types m s t (yes e) same = e
chosen_types m s t (no n) same = same

-- The stack after a mismatch.
merge_from-mismatch :
    (h : Option TypeHierarchy) (f g : Frame)
    → length f.stack ≢ length g.stack
    → ((merge_from h f g).1 ≡ true)
      × ((merge_from h f g).0.stack ≡ replicate (max (length f.stack) (length g.stack)) conflict)
unfolding merge_from merge_stacks
merge_from-mismatch h f g ne =
    let differ : (length f.stack == length g.stack) ≡ false = ground arith in
    let height = max (length f.stack) (length g.stack) in
    let kept : StackParts = record {
      types = f.stack;
      targets = f.stack_return_targets;
      origins = f.stack_local_origins;
      facts = f.stack_instanceof_facts;
    } in
    (
      rw differ refl,
      rw differ (
          chosen_types (replicate height conflict) kept (all_conflict height)
            (types-discrete f.stack (replicate height conflict)) refl),
    )

join-conflict :
    (h : Option TypeHierarchy) (t : InferredType) → join_with_hierarchy h conflict t ≡ conflict
unfolding join_with_hierarchy join_other
join-conflict h bottom = refl
join-conflict h _ = refl

module _ (h : Option TypeHierarchy) where
  merge_entries-conflict :
      (n : ℕ) (ns : List Targets) (os : List (Option ValueOrigin))
      (ks : List (Option InstanceOfFact)) (ts' : List InferredType) (ns' : List Targets)
      (os' : List (Option ValueOrigin)) (ks' : List (Option InstanceOfFact))
      → n ≡ length ts'
      → (merge_entries h (replicate n conflict) ns os ks ts' ns' os' ks').types
        ≡ replicate n conflict
  unfolding merge_entries
  merge_entries-conflict zero ns os ks [] ns' os' ks' e = refl
  merge_entries-conflict zero ns os ks (t ∷ ts') ns' os' ks' e = absurd (omega (arith, e))
  merge_entries-conflict (suc n) ns os ks [] ns' os' ks' e = absurd (omega (arith, e))
  merge_entries-conflict (suc n) ns os ks (t ∷ ts') ns' os' ks' e =
      rw
        (
          join-conflict h t,
          merge_entries-conflict n (rest_of ns) (rest_of os) (rest_of ks) ts' (rest_of ns')
              (rest_of os') (rest_of ks') (omega (arith, e)),
        )
        refl

  -- A stack of conflicts takes in every stack that is not higher.
  merge_from-conflict :
      (f g : Frame) (n : ℕ)
      → f.stack ≡ replicate n conflict
      → length g.stack ≤ n
      → (merge_from h f g).0.stack ≡ f.stack
  unfolding merge_from merge_stacks
  merge_from-conflict f g n e le =
      let sized : length f.stack ≡ n = ap length e ∙ length-replicate n conflict in
      elim (Bool-cases (length f.stack == length g.stack)) [
        | inl same ↦
            let height : n ≡ length g.stack = sym sized ∙ (==_iff _ _).0 same in
            rw same (
              subst
                (λ ts.
                  (merge_entries h ts f.stack_return_targets f.stack_local_origins
                    f.stack_instanceof_facts g.stack g.stack_return_targets g.stack_local_origins
                    g.stack_instanceof_facts).types
                  ≡ ts)
                (sym e)
                (merge_entries-conflict n f.stack_return_targets f.stack_local_origins
                  f.stack_instanceof_facts g.stack g.stack_return_targets g.stack_local_origins
                  g.stack_instanceof_facts height))
        | inr differ ↦
            let height = max (length f.stack) (length g.stack) in
            let is_n : height ≡ n = omega (arith, sized, le) in
            let kept : StackParts = record {
              types = f.stack;
              targets = f.stack_return_targets;
              origins = f.stack_local_origins;
              facts = f.stack_instanceof_facts;
            } in
            rw differ (
              chosen_types (replicate height conflict) kept (all_conflict height)
                (types-discrete f.stack (replicate height conflict)) refl
              ∙ ap (λ m. replicate m conflict) is_n
              ∙ sym e)
      ]

-- After the stacks of two frames of different heights have met, the stack no longer changes: whatever
-- frame comes next, unless its stack is higher than both, the merge leaves the stack as it is.
pub merge_from_settled :
    (h : Option TypeHierarchy) (f g next : Frame)
    → length f.stack ≢ length g.stack
    → length next.stack ≤ max (length f.stack) (length g.stack)
    → (merge_from h (merge_from h f g).0 next).0.stack ≡ (merge_from h f g).0.stack
merge_from_settled h f g next ne le =
    merge_from-conflict h (merge_from h f g).0 next (max (length f.stack) (length g.stack))
      (merge_from-mismatch h f g ne).1 le
