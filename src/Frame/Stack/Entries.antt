-- ===== src/Frame/Stack/Entries.antt =====
-- The operand stack of src/solver/frame.rs as one list of entries instead of four vectors.
use ferro_jtype.Prelude.{suc, ◌≡◌, refl, ap, List, [], ◌∷◌, map, Option, length, arith}
use ferro_jtype.Types.Inferred.{InferredType}
use ferro_jtype.Frame.{ValueOrigin, InstanceOfFact, Targets, Frame, FrameValue, IsWellFormed}
use ferro_jtype.Frame.Stack.{top_flat, rest_of}

abbrev pub zip_entries :
    List InferredType
    → List Targets
    → List (Option ValueOrigin)
    → List (Option InstanceOfFact)
    → List FrameValue
zip_entries [] ns os ks = []
zip_entries (t ∷ ts) ns os ks =
    record {
      value = t;
      return_targets = top_flat ns;
      local_origin = top_flat os;
      instanceof_fact = top_flat ks;
    }
    ∷ zip_entries ts (rest_of ns) (rest_of os) (rest_of ks)

unfoldable pub entries : Frame → List FrameValue
entries f =
    zip_entries f.stack f.stack_return_targets f.stack_local_origins f.stack_instanceof_facts

-- The frame with other entries, whose vectors run in parallel.
abbrev pub with_entries : List FrameValue → Frame → Frame
with_entries vs f = record f {
  stack = map (λ v. v.value) vs;
  stack_return_targets = map (λ v. v.return_targets) vs;
  stack_local_origins = map (λ v. v.local_origin) vs;
  stack_instanceof_facts = map (λ v. v.instanceof_fact) vs;
}

pub entries-with_entries : (vs : List FrameValue) (f : Frame) → entries (with_entries vs f) ≡ vs
unfolding entries
entries-with_entries [] f = refl
entries-with_entries (v ∷ vs) f = ap (◌∷◌ v) (entries-with_entries vs f)

zip-targets :
    (ts : List InferredType) (ns : List Targets) (os : List (Option ValueOrigin))
    (ks : List (Option InstanceOfFact))
    → length ns ≡ length ts
    → map (λ (v : FrameValue). v.return_targets) (zip_entries ts ns os ks) ≡ ns
zip-targets [] [] os ks e = refl
zip-targets [] (n ∷ ns) os ks e = absurd (omega arith)
zip-targets (t ∷ ts) [] os ks e = absurd (omega arith)
zip-targets (t ∷ ts) (n ∷ ns) os ks e =
    ap (◌∷◌ n) (zip-targets ts ns (rest_of os) (rest_of ks) (omega arith))

zip-origins :
    (ts : List InferredType) (ns : List Targets) (os : List (Option ValueOrigin))
    (ks : List (Option InstanceOfFact))
    → length os ≡ length ts
    → map (λ (v : FrameValue). v.local_origin) (zip_entries ts ns os ks) ≡ os
zip-origins [] ns [] ks e = refl
zip-origins [] ns (o ∷ os) ks e = absurd (omega arith)
zip-origins (t ∷ ts) ns [] ks e = absurd (omega arith)
zip-origins (t ∷ ts) ns (o ∷ os) ks e =
    ap (◌∷◌ o) (zip-origins ts (rest_of ns) os (rest_of ks) (omega arith))

zip-facts :
    (ts : List InferredType) (ns : List Targets) (os : List (Option ValueOrigin))
    (ks : List (Option InstanceOfFact))
    → length ks ≡ length ts
    → map (λ (v : FrameValue). v.instanceof_fact) (zip_entries ts ns os ks) ≡ ks
zip-facts [] ns os [] e = refl
zip-facts [] ns os (k ∷ ks) e = absurd (omega arith)
zip-facts (t ∷ ts) ns os [] e = absurd (omega arith)
zip-facts (t ∷ ts) ns os (k ∷ ks) e =
    ap (◌∷◌ k) (zip-facts ts (rest_of ns) (rest_of os) ks (omega arith))

zip-values :
    (ts : List InferredType) (ns : List Targets) (os : List (Option ValueOrigin))
    (ks : List (Option InstanceOfFact))
    → map (λ (v : FrameValue). v.value) (zip_entries ts ns os ks) ≡ ts
zip-values [] ns os ks = refl
zip-values (t ∷ ts) ns os ks = ap (◌∷◌ t) (zip-values ts (rest_of ns) (rest_of os) (rest_of ks))

pub length-zip_entries :
    (ts : List InferredType) (ns : List Targets) (os : List (Option ValueOrigin))
    (ks : List (Option InstanceOfFact))
    → length (zip_entries ts ns os ks) ≡ length ts
length-zip_entries [] ns os ks = refl
length-zip_entries (t ∷ ts) ns os ks =
    ap suc (length-zip_entries ts (rest_of ns) (rest_of os) (rest_of ks))

-- A well-formed frame is that of its entries.
pub with_entries-entries : (f : Frame) → IsWellFormed f → with_entries (entries f) f ≡ f
unfolding entries
with_entries-entries f w =
    rw
      (
        zip-values f.stack f.stack_return_targets f.stack_local_origins f.stack_instanceof_facts,
        zip-targets f.stack f.stack_return_targets f.stack_local_origins f.stack_instanceof_facts
            w.targets_of_stack,
        zip-origins f.stack f.stack_return_targets f.stack_local_origins f.stack_instanceof_facts
            w.origins_of_stack,
        zip-facts f.stack f.stack_return_targets f.stack_local_origins f.stack_instanceof_facts
            w.facts_of_stack,
      )
      refl
