-- ===== src/Frame/Merge/Sound.antt =====
-- `merge_from` of src/solver/frame.rs loses no value of either frame.
use ferro_jtype.Prelude.{
  ℕ, zero, suc, ◌≤◌, max, ◌≡◌, refl, sym, ◌∙◌, subst, Bool, true, false, ◌&&◌, List, [], ◌∷◌,
  Option, none, length, get_elem?, resize, ◌⊎◌, inl, inr, ◌==◌, if◌then◌else◌, length-resize, arith,
}
use ferro_jtype.Hierarchy.{TypeHierarchy}
use ferro_jtype.Types.Inferred.{InferredType, bottom}
use ferro_jtype.Types.Inferred.Meaning.{Value, Describes}
use ferro_jtype.Types.Inferred.Meaning.Join.{join_with_hierarchy-Describes}
use ferro_jtype.Types.Inferred.Meaning.Locals.{join_local_types-DescribesIn}
use ferro_jtype.Types.Inferred.Meaning.Reference.{IsSoundIn, IsSoundIn-self, IsSoundIn-none}
use ferro_jtype.Frame.{ValueOrigin, InstanceOfFact, Targets, Frame, is_same_origin}
use ferro_jtype.Frame.Locals.{or_else}
use ferro_jtype.Frame.Locals.Writes.{element-resize}
use ferro_jtype.Frame.Stack.{rest_of, top_flat}
use ferro_jtype.Frame.Merge.{
  is_some, merge_each, merge_locals, merge_entries, merge_stacks, merge_from, merge_local,
}

-- The type of a local; one that the frame does not have is `bottom`.
abbrev pub local_at : List InferredType → ℕ → InferredType
local_at l i = or_else bottom (get_elem? l i)

-- One type describes what either of two others describes.
abbrev Covers : Option TypeHierarchy → InferredType → InferredType → InferredType → Type 0
Covers h merged left right =
    (v : Value) → Describes h v left ⊎ Describes h v right → Describes h v merged

module _ (h : Option TypeHierarchy) where
  if-IsSoundIn : (b : Bool) → IsSoundIn (if b then h else none) h
  if-IsSoundIn true = IsSoundIn-self h
  if-IsSoundIn false = IsSoundIn-none h

  only_left : (t : InferredType) → Covers h t t bottom
  only_left t v (inl ht) = ht
  only_left t v (inr hb) = absurd hb

  merge_each-Covers :
      (ts : List InferredType) (ns : List Targets) (os : List (Option ValueOrigin))
      (ts' : List InferredType) (ns' : List Targets) (os' : List (Option ValueOrigin))
      → length ns ≡ length ts
      → length os ≡ length ts
      → length ts' ≤ length ts
      → (i : ℕ)
      → Covers h
          (local_at (merge_each h ts ns os ts' ns' os').types i)
          (local_at ts i)
          (local_at ts' i)
  unfolding merge_local
  merge_each-Covers ts ns os [] ns' os' p q le i = only_left (local_at ts i)
  merge_each-Covers [] ns os (t' ∷ ts') ns' os' p q le i = absurd (omega arith)
  merge_each-Covers (t ∷ ts) [] os (t' ∷ ts') ns' os' p q le i = absurd (omega arith)
  merge_each-Covers (t ∷ ts) (n ∷ ns) [] (t' ∷ ts') ns' os' p q le i = absurd (omega arith)
  merge_each-Covers (t ∷ ts) (n ∷ ns) (o ∷ os) (t' ∷ ts') ns' os' p q le zero =
      let same = is_some o && is_same_origin o (top_flat os') in
      λ v hv.
        join_local_types-DescribesIn h v (if same then h else none) (if-IsSoundIn same) t t' hv
  merge_each-Covers (t ∷ ts) (n ∷ ns) (o ∷ os) (t' ∷ ts') ns' os' p q le (suc i) =
      merge_each-Covers ts ns os ts' (rest_of ns') (rest_of os') (omega arith) (omega arith)
        (omega arith) i

merge_from-Covers :
    (h : Option TypeHierarchy) (f g : Frame) (i : ℕ)
    → Covers h (local_at (merge_from h f g).0.locals i) (local_at f.locals i) (local_at g.locals i)
unfolding merge_from merge_locals
merge_from-Covers h f g i =
    let count = max (length f.locals) (length g.locals) in
    let same = sym (length-resize count bottom f.locals) in
    let enough : length g.locals ≤ length (resize count bottom f.locals) =
      subst (λ n. length g.locals ≤ n) same (omega arith) in
    subst (λ t. Covers h (local_at (merge_from h f g).0.locals i) t (local_at g.locals i))
      (element-resize bottom count f.locals i (omega arith))
      (merge_each-Covers h (resize count bottom f.locals) (resize count none f.local_return_targets)
        (resize count none f.local_value_origins) g.locals g.local_return_targets
        g.local_value_origins (length-resize count none f.local_return_targets ∙ same)
        (length-resize count none f.local_value_origins ∙ same) enough i)

-- Whatever the two frames are, each local of the merged frame describes every value that the same
-- local of either frame describes, also where the two bring different values and the merge does
-- without the hierarchy.
pub merge_from-Describes :
    (h : Option TypeHierarchy) (f g : Frame) (i : ℕ) (v : Value)
    → Describes h v (local_at f.locals i) ⊎ Describes h v (local_at g.locals i)
    → Describes h v (local_at (merge_from h f g).0.locals i)
merge_from-Describes h f g i v hv = merge_from-Covers h f g i v hv

-- The values of a stack, one for one.
abbrev pub DescribesStack : Option TypeHierarchy → List Value → List InferredType → Type 0
DescribesStack h [] [] = Unit
DescribesStack h [] (t ∷ ts) = ⊥
DescribesStack h (v ∷ vs) [] = ⊥
DescribesStack h (v ∷ vs) (t ∷ ts) = Describes h v t × DescribesStack h vs ts

module _ (h : Option TypeHierarchy) where
  merge_entries-DescribesStack :
      (vs : List Value) (ts : List InferredType) (ns : List Targets)
      (os : List (Option ValueOrigin)) (ks : List (Option InstanceOfFact)) (ts' : List InferredType)
      (ns' : List Targets) (os' : List (Option ValueOrigin)) (ks' : List (Option InstanceOfFact))
      → length ts ≡ length ts'
      → DescribesStack h vs ts ⊎ DescribesStack h vs ts'
      → DescribesStack h vs (merge_entries h ts ns os ks ts' ns' os' ks').types
  unfolding merge_entries
  merge_entries-DescribesStack [] [] ns os ks [] ns' os' ks' e hv = tt
  merge_entries-DescribesStack (v ∷ vs) [] ns os ks [] ns' os' ks' e (inl hv) = absurd hv
  merge_entries-DescribesStack (v ∷ vs) [] ns os ks [] ns' os' ks' e (inr hv) = absurd hv
  merge_entries-DescribesStack vs [] ns os ks (t' ∷ ts') ns' os' ks' e hv = absurd (omega arith)
  merge_entries-DescribesStack vs (t ∷ ts) ns os ks [] ns' os' ks' e hv = absurd (omega arith)
  merge_entries-DescribesStack [] (t ∷ ts) ns os ks (t' ∷ ts') ns' os' ks' e (inl hv) = absurd hv
  merge_entries-DescribesStack [] (t ∷ ts) ns os ks (t' ∷ ts') ns' os' ks' e (inr hv) = absurd hv
  merge_entries-DescribesStack (v ∷ vs) (t ∷ ts) ns os ks (t' ∷ ts') ns' os' ks' e (inl (a, b)) = (
    join_with_hierarchy-Describes h v t t' (inl a),
    merge_entries-DescribesStack vs ts (rest_of ns) (rest_of os) (rest_of ks) ts' (rest_of ns')
        (rest_of os') (rest_of ks') (omega arith) (inl b),
  )
  merge_entries-DescribesStack (v ∷ vs) (t ∷ ts) ns os ks (t' ∷ ts') ns' os' ks' e (inr (a, b)) = (
    join_with_hierarchy-Describes h v t t' (inr a),
    merge_entries-DescribesStack vs ts (rest_of ns) (rest_of os) (rest_of ks) ts' (rest_of ns')
        (rest_of os') (rest_of ks') (omega arith) (inr b),
  )

-- Of two frames with stacks of one height, the merge reports no mismatch, and its stack describes
-- every stack of values that one of the two stacks describes.
pub merge_from-DescribesStack :
    (h : Option TypeHierarchy) (f g : Frame) (vs : List Value)
    → length f.stack ≡ length g.stack
    → DescribesStack h vs f.stack ⊎ DescribesStack h vs g.stack
    → ((merge_from h f g).1 ≡ false) × DescribesStack h vs (merge_from h f g).0.stack
unfolding merge_from merge_stacks
merge_from-DescribesStack h f g vs e hv =
    let same : (length f.stack == length g.stack) ≡ true = ground arith in
    (rw same refl, rw same (merge_entries-DescribesStack h vs f.stack _ _ _ g.stack _ _ _ e hv))
