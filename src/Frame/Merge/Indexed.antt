-- ===== src/Frame/Merge/Indexed.antt =====
-- `merge_from` of src/solver/frame.rs with its panics: the loop over the stack indexes the vectors that
-- run beside the two stacks, and an index out of bounds is `none`.
use ferro_jtype.Prelude.{
  Bool, false, List, ◌∷◌, Option, some, length, get_elem?, ◌==◌, if◌then◌else◌,
}
use ferro_jtype.Prelude.Chain.{◌>>=◌}
use ferro_jtype.Hierarchy.{TypeHierarchy}
use ferro_jtype.Types.Inferred.{InferredType}
use ferro_jtype.Types.Inferred.Join.{join_with_hierarchy}
use ferro_jtype.Frame.{ValueOrigin, InstanceOfFact, Targets, Frame}
use ferro_jtype.Frame.Stack.{top_flat, rest_of}
use ferro_jtype.Frame.Targets.{merged_return_targets}
use ferro_jtype.Frame.Merge.{StackParts, merge_entry, merge_locals, merge_stacks, merged_frame}

-- The loop over two stacks of one height, so the last clause is not met. Of the incoming frame the
-- source indexes the origins and the facts; its targets it asks for by `get`.
unfoldable pub indexed_entries :
    Option TypeHierarchy
    → List InferredType
    → List Targets
    → List (Option ValueOrigin)
    → List (Option InstanceOfFact)
    → List InferredType
    → List Targets
    → List (Option ValueOrigin)
    → List (Option InstanceOfFact)
    → Option StackParts
unfolding join_with_hierarchy merged_return_targets
indexed_entries h (t ∷ ts) ns os ks (t' ∷ ts') ns' os' ks' = do
  n ← get_elem? ns 0
  o ← get_elem? os 0
  o' ← get_elem? os' 0
  k ← get_elem? ks 0
  k' ← get_elem? ks' 0
  below ←
      indexed_entries h ts (rest_of ns) (rest_of os) (rest_of ks) ts' (rest_of ns') (rest_of os')
        (rest_of ks')
  some (merge_entry h t n o k t' (top_flat ns') o' k' below)
indexed_entries h ts ns os ks _ ns' os' ks' =
    some (record { types = ts; targets = ns; origins = os; facts = ks })

unfoldable pub indexed_stacks : Option TypeHierarchy → Frame → Frame → Option (StackParts × Bool)
unfolding indexed_entries merge_stacks
indexed_stacks h f g =
    if length f.stack == length g.stack
    then (do
      s ←
          indexed_entries h f.stack f.stack_return_targets f.stack_local_origins
            f.stack_instanceof_facts g.stack g.stack_return_targets g.stack_local_origins
            g.stack_instanceof_facts
      some (s, false))
    else some (merge_stacks h f g)

-- `merge_from`; the locals are indexed after they have been resized.
unfoldable pub indexed_merge_from : Option TypeHierarchy → Frame → Frame → Option (Frame × Bool)
unfolding merge_locals indexed_stacks
indexed_merge_from h f g = do
  r ← indexed_stacks h f g
  some (merged_frame f (merge_locals h f g) r.0, r.1)
