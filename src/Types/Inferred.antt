-- ===== src/Types/Inferred.antt =====
-- The types of src/types/inference.rs. A `Vec<InferredType>` in the type is `InferredTypes`.
pub mod Order
pub mod Join
pub mod Meaning
use ferro_jtype.Prelude.{ℕ, List, [], ◌∷◌, ℕ_discrete}
use ferro_jtype.Types.ClassName.{ClassName}
use ferro_jtype.Types.Descriptor.{TypeDescriptor}
use ferro_jtype.Types.Integral.{IntegralTypeSet}

pub data ReferenceType : Type 0 where
  exact : ClassName → ReferenceType
  array : TypeDescriptor → ReferenceType
  null : ReferenceType
  unknown : ReferenceType

mutual
  pub data InferredType : Type 0 where
    bottom : InferredType
    int : InferredType
    integral : IntegralTypeSet → InferredType
    float : InferredType
    long : InferredType
    double : InferredType
    reference : ReferenceType → InferredType
    uninitialized : ClassName → ℕ → InferredType
    uninitialized_this : ClassName → InferredType
    return_address : InferredType
    alternatives : InferredTypes → InferredType
    conflict : InferredType

  pub data InferredTypes : Type 0 where
    nil : InferredTypes
    cons : InferredType → InferredTypes → InferredTypes

unfoldable pub ReferenceType-discrete : Discrete ReferenceType
ReferenceType-discrete = hlevel ℕ_discrete

unfoldable pub InferredType-discrete : Discrete InferredType
InferredType-discrete = hlevel ℕ_discrete

abbrev pub to_list : InferredTypes → List InferredType
to_list nil = []
to_list (cons t ts) = t ∷ to_list ts

abbrev pub of_list : List InferredType → InferredTypes
of_list [] = nil
of_list (t ∷ ts) = cons t (of_list ts)
