-- ===== src/Frame/Targets.antt =====
-- Return targets of src/solver/frame.rs: sets of bytecode offsets, and their merge.
pub mod Union
use ferro_jtype.Prelude.{ℕ, Bool, true, false, List, [], ◌∷◌, none, some, ltb, ◌==◌, if◌then◌else◌}
use ferro_jtype.Types.Inferred.{InferredType, return_address}
use ferro_jtype.Frame.{Targets}

-- `BTreeSet::insert`
abbrev pub set_insert : ℕ → List ℕ → List ℕ
set_insert n [] = n ∷ []
set_insert n (m ∷ ms) =
    let later = set_insert n ms in
    if ltb n m then n ∷ m ∷ ms else if n == m then m ∷ ms else m ∷ later

-- `extend`
abbrev pub set_extend : List ℕ → List ℕ → List ℕ
set_extend ms [] = ms
set_extend ms (n ∷ ns) = set_extend (set_insert n ms) ns

abbrev pub is_return_address : InferredType → Bool
is_return_address return_address = true
is_return_address _ = false

-- One round of the loop: a return address adds its targets, or makes them unknown.
abbrev pub add_targets : Bool → Targets → Targets → Targets
add_targets false candidate known = known
add_targets true none known = none
add_targets true (some ns) none = none
add_targets true (some ns) (some ms) = some (set_extend ms ns)

unfoldable pub merged_return_targets :
    InferredType → Targets → InferredType → Targets → InferredType → Targets
merged_return_targets existing existing_targets incoming incoming_targets merged =
    if is_return_address merged
    then add_targets (is_return_address incoming) incoming_targets
        (add_targets (is_return_address existing) existing_targets (some []))
    else none
