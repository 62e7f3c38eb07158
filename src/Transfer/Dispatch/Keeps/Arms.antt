-- ===== src/Transfer/Dispatch/Keeps/Arms.antt =====
-- Lists of arms, each of which makes frames only by the methods of src/solver/frame.rs.
use ferro_jtype.Prelude.{List, [], ◌∷◌, All}
use ferro_jtype.Types.Integral.{all_set}
use ferro_jtype.Types.Inferred.{InferredType, integral}
use ferro_jtype.Frame.Stack.{push}
use ferro_jtype.Frame.WellFormed.Reachable.{after, pushing}
use ferro_jtype.Ir.{InstructionOperandIr, immediate}
use ferro_jtype.Transfer.{M, modify, pure}
use ferro_jtype.Transfer.Operations.{push_integer}
use ferro_jtype.Transfer.Operations.Keeps.{Keeps, if-Keeps}
use ferro_jtype.Transfer.Dispatch.{push_immediate, Arm, first_of, in_order}

abbrev pub KeepsAll : List Arm → Type 0
KeepsAll = All (λ (a : Arm). Keeps a.1)

-- Proofs for the arms of a list, in their order; the last one is `tt`.
infixr 20 ◌&◌
abbrev pub ◌&◌ : {A B : Type 0} → A → B → A × B
a & b = (a, b)

pub first_of-Keeps :
    (arms : List Arm) (otherwise : M (Unit {0}))
    → KeepsAll arms
    → Keeps otherwise
    → Keeps (first_of arms otherwise)
first_of-Keeps [] otherwise h k = k
first_of-Keeps ((matched, m) ∷ arms) otherwise (h, hs) k =
    if-Keeps matched m (first_of arms otherwise) h (first_of-Keeps arms otherwise hs k)

pub in_order-Keeps :
    (groups : List (List Arm)) (otherwise : M (Unit {0}))
    → All KeepsAll groups
    → Keeps otherwise
    → Keeps (in_order groups otherwise)
in_order-Keeps [] otherwise h k = k
in_order-Keeps (arms ∷ groups) otherwise (h, hs) k =
    first_of-Keeps arms (in_order groups otherwise) h (in_order-Keeps groups otherwise hs k)

pub nothing-Keeps : Keeps {A = Unit {0}} (pure tt)
nothing-Keeps s r = r

pub push-Keeps : (t : InferredType) → Keeps (modify (push t))
push-Keeps t s r = after (pushing t) s.frame r

pub push_immediate-Keeps : (operand : InstructionOperandIr) → Keeps (push_immediate operand)
unfolding push_integer
push_immediate-Keeps (immediate value) s r = after (pushing _) s.frame r
push_immediate-Keeps _ s r = after (pushing (integral all_set)) s.frame r
