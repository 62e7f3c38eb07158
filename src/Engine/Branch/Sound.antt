-- ===== src/Engine/Branch/Sound.antt =====
-- The edges that src/solver/engine leaves out at a test for null are not taken by any value that the
-- frame describes.
use ferro_jtype.Prelude.{
  ℕ, ◌≡◌, refl, sym, subst, ◌⊎◌, inl, inr, Bool, true, false, not, Option, some, ◌==◌,
  if◌then◌else◌, Option-cases,
}
use ferro_jtype.Hierarchy.{TypeHierarchy}
use ferro_jtype.Types.Inferred.{null, InferredType, reference, uninitialized, uninitialized_this}
use ferro_jtype.Types.Inferred.{exact, array, unknown}
use ferro_jtype.Types.Inferred.Meaning.{null_ref, object, array_object, Value, ref_value, Describes}
use ferro_jtype.Frame.{Frame, FrameValue}
use ferro_jtype.Frame.Stack.{top_value}
use ferro_jtype.Opcodes.{Opcodes, jvm, IsJvm}
use ferro_jtype.Cfg.{EdgeKind, fall_through, branch}
use ferro_jtype.Engine.Branch.{
  known_nullness, branch_fact, is_branch, is_same_bool, branch_edge_is_feasible,
}

abbrev pub is_null_value : Value → Bool
is_null_value (ref_value null_ref) = true
is_null_value _ = false

-- The edge that the machine takes at `ifnull` and `ifnonnull`, by the value that is tested.
abbrev pub edge_taken : Opcodes → ℕ → Value → EdgeKind
edge_taken op opcode v =
    let jumps = if opcode == op.ifnull then is_null_value v else not (is_null_value v) in
    if jumps then branch else fall_through

known_nullness_sound :
    (h : Option TypeHierarchy) (v : Value) (t : InferredType) (b : Bool)
    → known_nullness t ≡ some b
    → Describes h v t
    → is_null_value v ≡ b
known_nullness_sound h v (reference null) b e (null_ref, is_v, d) = rw is_v (cc)
known_nullness_sound h v (reference null) b e (object c, is_v, d) = absurd d
known_nullness_sound h v (reference null) b e (array_object c, is_v, d) = absurd d
known_nullness_sound h v (reference (exact c)) b e d = cc
known_nullness_sound h v (reference (array c)) b e d = cc
known_nullness_sound h v (reference unknown) b e d = cc
known_nullness_sound h v (uninitialized c n) b e d = rw d (cc)
known_nullness_sound h v (uninitialized_this c) b e d = rw d (cc)
known_nullness_sound h v t b e d = cc

same_at_ifnull :
    (n b : Bool) → n ≡ b → is_same_bool (is_branch (if n then branch else fall_through)) b ≡ true
same_at_ifnull true true e = refl
same_at_ifnull false false e = refl
same_at_ifnull true false e = cc
same_at_ifnull false true e = cc

differs_at_ifnonnull :
    (n b : Bool)
    → n ≡ b
    → not (is_same_bool (is_branch (if not n then branch else fall_through)) b) ≡ true
differs_at_ifnonnull true true e = refl
differs_at_ifnonnull false false e = refl
differs_at_ifnonnull true false e = cc
differs_at_ifnonnull false true e = cc

module _ (h : Option TypeHierarchy) (f : Frame) (w : FrameValue) (v : Value)
    (top : top_value f ≡ some w) (described : Describes h v w.value) where
  at_ifnull : branch_edge_is_feasible jvm 198 (edge_taken jvm 198 v) (branch_fact jvm 198 f) ≡ true
  unfolding branch_edge_is_feasible branch_fact
  at_ifnull = elim (Option-cases (known_nullness w.value)) [
    | inl nothing ↦ rw (top, nothing) refl
    | inr (b, known) ↦
        rw (top, known)
          (same_at_ifnull (is_null_value v) b (known_nullness_sound h v w.value b known described))
  ]

  at_ifnonnull :
      branch_edge_is_feasible jvm 199 (edge_taken jvm 199 v) (branch_fact jvm 199 f) ≡ true
  unfolding branch_edge_is_feasible branch_fact
  at_ifnonnull = elim (Option-cases (known_nullness w.value)) [
    | inl nothing ↦ rw (top, nothing) refl
    | inr (b, known) ↦
        rw (top, known)
          (differs_at_ifnonnull (is_null_value v) b
            (known_nullness_sound h v w.value b known described))
  ]

  -- With the opcodes of the Java Virtual Machine Specification, the edge that `ifnull` or `ifnonnull`
  -- takes for a value that the top of the stack describes is one that the engine follows.
  pub branch_edge_is_feasible-edge_taken :
      (op : Opcodes) (opcode : ℕ)
      → IsJvm op
      → (opcode ≡ op.ifnull) ⊎ (opcode ≡ op.ifnonnull)
      → branch_edge_is_feasible op opcode (edge_taken op opcode v) (branch_fact op opcode f) ≡ true
  branch_edge_is_feasible-edge_taken op opcode at is_test =
      subst Feasible (sym at) feasible_at_jvm opcode is_test
    where
      Feasible : Opcodes → Type 0
      Feasible o =
          (opcode : ℕ)
          → (opcode ≡ o.ifnull) ⊎ (opcode ≡ o.ifnonnull)
          → branch_edge_is_feasible o opcode (edge_taken o opcode v) (branch_fact o opcode f) ≡ true

      feasible_at_jvm : Feasible jvm
      feasible_at_jvm opcode (inl e) = rw e at_ifnull
      feasible_at_jvm opcode (inr e) = rw e at_ifnonnull
