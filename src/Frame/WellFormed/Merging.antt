-- ===== src/Frame/WellFormed/Merging.antt =====
-- `merge_from` of src/solver/frame.rs keeps the parallel vectors of one length.
use ferro_jtype.Prelude.{
  ℕ, suc, ◌≡◌, sym, ap, ◌∙◌, Bool, true, false, List, [], ◌∷◌, Option, none, length, resize,
  replicate, max, ◌==◌, if◌then◌else◌, as_bool, length-resize, length-replicate, arith,
}
use ferro_jtype.Hierarchy.{TypeHierarchy}
use ferro_jtype.Types.Inferred.{InferredType, bottom, conflict}
use ferro_jtype.Frame.{ValueOrigin, InstanceOfFact, Targets, Frame, IsWellFormed}
use ferro_jtype.Frame.Stack.{rest_of}
use ferro_jtype.Frame.Merge.{
  Locals, merge_each, merge_locals, StackParts, merge_entries, all_conflict, types-discrete,
  merge_stacks, merge_from,
}

abbrev IsEven : Locals → Type 0
IsEven l = (length l.targets ≡ length l.types) × (length l.origins ≡ length l.types)

merge_each-IsEven :
    (h : Option TypeHierarchy) (ts : List InferredType) (ns : List Targets)
    (os : List (Option ValueOrigin)) (ts' : List InferredType) (ns' : List Targets)
    (os' : List (Option ValueOrigin))
    → length ns ≡ length ts
    → length os ≡ length ts
    → IsEven (merge_each h ts ns os ts' ns' os')
merge_each-IsEven h ts ns os [] ns' os' p q = (p, q)
merge_each-IsEven h [] ns os (t' ∷ ts') ns' os' p q = (p, q)
merge_each-IsEven h (t ∷ ts) [] os (t' ∷ ts') ns' os' p q = (p, q)
merge_each-IsEven h (t ∷ ts) (n ∷ ns) [] (t' ∷ ts') ns' os' p q = (p, q)
merge_each-IsEven h (t ∷ ts) (n ∷ ns) (o ∷ os) (t' ∷ ts') ns' os' p q =
    let (a, b) =
      merge_each-IsEven h ts ns os ts' (rest_of ns') (rest_of os') (omega arith) (omega arith) in
    (ap suc a, ap suc b)

merge_locals-IsEven : (h : Option TypeHierarchy) (f g : Frame) → IsEven (merge_locals h f g)
unfolding merge_locals
merge_locals-IsEven h f g =
    let count = max (length f.locals) (length g.locals) in
    let same = sym (length-resize count bottom f.locals) in
    merge_each-IsEven h (resize count bottom f.locals) (resize count none f.local_return_targets)
      (resize count none f.local_value_origins) g.locals g.local_return_targets
      g.local_value_origins (length-resize count none f.local_return_targets ∙ same)
      (length-resize count none f.local_value_origins ∙ same)

abbrev IsEvenStack : StackParts → Type 0
IsEvenStack s =
    (length s.targets ≡ length s.types)
    × (length s.origins ≡ length s.types)
    × (length s.facts ≡ length s.types)

pub length-rest {ℓ κ} :
    {A : Type ℓ} {B : Type κ} (ts : List A) (l : List B)
    → length l ≡ suc (length ts)
    → length (rest_of l) ≡ length ts
length-rest ts [] e = absurd (omega arith)
length-rest ts (x ∷ l) e = omega arith

merge_entries-IsEven :
    (h : Option TypeHierarchy) (ts : List InferredType) (ns : List Targets)
    (os : List (Option ValueOrigin)) (ks : List (Option InstanceOfFact)) (ts' : List InferredType)
    (ns' : List Targets) (os' : List (Option ValueOrigin)) (ks' : List (Option InstanceOfFact))
    → IsEvenStack (record { types = ts; targets = ns; origins = os; facts = ks })
    → IsEvenStack (merge_entries h ts ns os ks ts' ns' os' ks')
unfolding merge_entries
merge_entries-IsEven h [] ns os ks ts' ns' os' ks' e = e
merge_entries-IsEven h (t ∷ ts) ns os ks [] ns' os' ks' e = e
merge_entries-IsEven h (t ∷ ts) ns os ks (t' ∷ ts') ns' os' ks' (p, q, r) =
    let (a, b, c) =
      merge_entries-IsEven h ts (rest_of ns) (rest_of os) (rest_of ks) ts' (rest_of ns')
        (rest_of os') (rest_of ks')
        (length-rest ts ns p, length-rest ts os q, length-rest ts ks r) in
    (ap suc a, ap suc b, ap suc c)

all_conflict-IsEven : (n : ℕ) → IsEvenStack (all_conflict n)
all_conflict-IsEven n =
    let same = sym (length-replicate n conflict) in
    (length-replicate n none ∙ same, length-replicate n none ∙ same, length-replicate n none ∙ same)

if-IsEven :
    (b : Bool) (s t : StackParts) → IsEvenStack s → IsEvenStack t → IsEvenStack (if b then s else t)
if-IsEven true s t p q = p
if-IsEven false s t p q = q

fst-if-IsEven :
    (b : Bool) (s t : StackParts × Bool)
    → IsEvenStack s.0
    → IsEvenStack t.0
    → IsEvenStack (if b then s else t).0
fst-if-IsEven true s t p q = p
fst-if-IsEven false s t p q = q

merge_stacks-IsEven :
    (h : Option TypeHierarchy) (f g : Frame) → IsWellFormed f → IsEvenStack (merge_stacks h f g).0
unfolding merge_stacks
merge_stacks-IsEven h f g w =
    let height = max (length f.stack) (length g.stack) in
    let kept : StackParts = record {
      types = f.stack;
      targets = f.stack_return_targets;
      origins = f.stack_local_origins;
      facts = f.stack_instanceof_facts;
    } in
    let even : IsEvenStack kept = (w.targets_of_stack, w.origins_of_stack, w.facts_of_stack) in
    fst-if-IsEven (length f.stack == length g.stack) (_, false) (_, true)
      (merge_entries-IsEven h f.stack f.stack_return_targets f.stack_local_origins
        f.stack_instanceof_facts g.stack g.stack_return_targets g.stack_local_origins
        g.stack_instanceof_facts even)
      (if-IsEven (as_bool (types-discrete f.stack (replicate height conflict))) kept
        (all_conflict height) even (all_conflict-IsEven height))

pub merge_from-IsWellFormed :
    (h : Option TypeHierarchy) (f g : Frame) → IsWellFormed f → IsWellFormed (merge_from h f g).0
unfolding merge_from
merge_from-IsWellFormed h f g w =
    let (a, b) = merge_locals-IsEven h f g in
    let (c, d, e) = merge_stacks-IsEven h f g w in
    record {
      targets_of_locals = a;
      origins_of_locals = b;
      targets_of_stack = c;
      origins_of_stack = d;
      facts_of_stack = e;
    }
