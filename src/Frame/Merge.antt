-- ===== src/Frame/Merge.antt =====
-- `merge_from` of src/solver/frame.rs: the frames of two paths into one block.
pub mod Sound
pub mod Indexed
pub mod Mismatch
use ferro_jtype.Prelude.{
  ℕ, max, Bool, true, false, ◌&&◌, List, [], ◌∷◌, Option, none, some, length, resize, replicate,
  ◌==◌, if◌then◌else◌, as_bool, ℕ_discrete,
}
use ferro_jtype.Hierarchy.{TypeHierarchy}
use ferro_jtype.Types.Inferred.{InferredType, bottom, conflict}
use ferro_jtype.Types.Inferred.Join.{join_local_types, join_with_hierarchy}
use ferro_jtype.Frame.{ValueOrigin, InstanceOfFact, Targets, Frame, is_same_origin, is_same_fact}
use ferro_jtype.Frame.Stack.{top_flat, rest_of}
use ferro_jtype.Frame.Targets.{merged_return_targets}

abbrev pub is_some {ℓ} : {A : Type ℓ} → Option A → Bool
is_some none = false
is_some (some _) = true

-- One local: its type, its return targets and its origin.
pub record Local : Type 0 where
  pub type : InferredType
  pub targets : Targets
  pub origin : Option ValueOrigin

-- A hierarchy is used only where both paths bring the same value.
unfoldable pub merge_local : Option TypeHierarchy → Local → Local → Local
unfolding join_local_types merged_return_targets
merge_local h existing incoming =
    let same_value = is_some existing.origin && is_same_origin existing.origin incoming.origin in
    let merged = join_local_types (if same_value then h else none) existing.type incoming.type in
    record {
      type = merged;
      targets =
          merged_return_targets existing.type existing.targets incoming.type incoming.targets
            merged;
      origin = if is_same_origin existing.origin incoming.origin then existing.origin else none;
    }

pub record Locals : Type 0 where
  pub types : List InferredType
  pub targets : List Targets
  pub origins : List (Option ValueOrigin)

abbrev add_local : Local → Locals → Locals
add_local l ls = record {
  types = l.type ∷ ls.types;
  targets = l.targets ∷ ls.targets;
  origins = l.origin ∷ ls.origins;
}

-- The loop over the incoming locals. The vectors on the left have been resized to as many at least,
-- so the last clause is not met; on the right a missing target or origin counts as `None`.
abbrev pub merge_each :
    Option TypeHierarchy
    → List InferredType
    → List Targets
    → List (Option ValueOrigin)
    → List InferredType
    → List Targets
    → List (Option ValueOrigin)
    → Locals
merge_each h ts ns os [] ns' os' = record { types = ts; targets = ns; origins = os }
merge_each h (t ∷ ts) (n ∷ ns) (o ∷ os) (t' ∷ ts') ns' os' =
    add_local
      (merge_local h (record { type = t; targets = n; origin = o })
        (record { type = t'; targets = top_flat ns'; origin = top_flat os' }))
      (merge_each h ts ns os ts' (rest_of ns') (rest_of os'))
merge_each h ts ns os (t' ∷ ts') ns' os' = record { types = ts; targets = ns; origins = os }

unfoldable pub merge_locals : Option TypeHierarchy → Frame → Frame → Locals
unfolding merge_local
merge_locals h f g =
    let count = max (length f.locals) (length g.locals) in
    merge_each h (resize count bottom f.locals) (resize count none f.local_return_targets)
      (resize count none f.local_value_origins) g.locals g.local_return_targets
      g.local_value_origins

pub record StackParts : Type 0 where
  pub types : List InferredType
  pub targets : List Targets
  pub origins : List (Option ValueOrigin)
  pub facts : List (Option InstanceOfFact)

-- One entry of two stacks of one height, on top of the merged entries below it.
abbrev pub merge_entry :
    Option TypeHierarchy
    → InferredType
    → Targets
    → Option ValueOrigin
    → Option InstanceOfFact
    → InferredType
    → Targets
    → Option ValueOrigin
    → Option InstanceOfFact
    → StackParts
    → StackParts
merge_entry h t n o k t' n' o' k' below =
    let merged = join_with_hierarchy h t t' in
    record {
      types = merged ∷ below.types;
      targets = merged_return_targets t n t' n' merged ∷ below.targets;
      origins = (if is_same_origin o o' then o else none) ∷ below.origins;
      facts = (if is_same_fact k k' then k else none) ∷ below.facts;
    }

-- The loop over two stacks of one height, so the last clause is not met. A missing entry of a vector
-- beside the stack, at which the source panics, counts as `None` here; `Frame.Merge.Indexed` has the
-- loop with the panic.
unfoldable pub merge_entries :
    Option TypeHierarchy
    → List InferredType
    → List Targets
    → List (Option ValueOrigin)
    → List (Option InstanceOfFact)
    → List InferredType
    → List Targets
    → List (Option ValueOrigin)
    → List (Option InstanceOfFact)
    → StackParts
unfolding join_with_hierarchy merged_return_targets
merge_entries h (t ∷ ts) ns os ks (t' ∷ ts') ns' os' ks' =
    merge_entry h t (top_flat ns) (top_flat os) (top_flat ks) t' (top_flat ns') (top_flat os')
      (top_flat ks')
      (merge_entries h ts (rest_of ns) (rest_of os) (rest_of ks) ts' (rest_of ns') (rest_of os')
        (rest_of ks'))
merge_entries h ts ns os ks _ ns' os' ks' = record {
  types = ts;
  targets = ns;
  origins = os;
  facts = ks;
}

-- `Vec<InferredType>` under `==`
unfoldable pub types-discrete : Discrete (List InferredType)
types-discrete = hlevel ℕ_discrete

abbrev pub all_conflict : ℕ → StackParts
all_conflict n = record {
  types = replicate n conflict;
  targets = replicate n none;
  origins = replicate n none;
  facts = replicate n none;
}

-- The stacks of two frames, and whether their heights differ.
unfoldable pub merge_stacks : Option TypeHierarchy → Frame → Frame → StackParts × Bool
unfolding merge_entries
merge_stacks h f g =
    let height = max (length f.stack) (length g.stack) in
    let kept : StackParts = record {
      types = f.stack;
      targets = f.stack_return_targets;
      origins = f.stack_local_origins;
      facts = f.stack_instanceof_facts;
    } in
    if length f.stack == length g.stack
    then (
      merge_entries h f.stack f.stack_return_targets f.stack_local_origins f.stack_instanceof_facts
          g.stack g.stack_return_targets g.stack_local_origins g.stack_instanceof_facts,
      false,
    )
    else (
      if as_bool (types-discrete f.stack (replicate height conflict))
          then kept
          else all_conflict height,
      true,
    )

-- The frame of the merged locals and of the merged stack.
abbrev pub merged_frame : Frame → Locals → StackParts → Frame
merged_frame f l s = record {
  locals = l.types;
  stack = s.types;
  local_return_targets = l.targets;
  local_value_origins = l.origins;
  stack_return_targets = s.targets;
  stack_local_origins = s.origins;
  stack_instanceof_facts = s.facts;
  local_variable_hints = f.local_variable_hints;
}

-- The merged frame and `stack_height_mismatch`.
unfoldable pub merge_from : Option TypeHierarchy → Frame → Frame → Frame × Bool
unfolding merge_locals merge_stacks
merge_from h f g =
    let (s, mismatch) = merge_stacks h f g in (merged_frame f (merge_locals h f g) s, mismatch)
