-- ===== src/Types/Inferred/Join.antt =====
-- The join of src/types/inference.rs. A hierarchy enters by the answer of `common_supertype`.
pub mod Laws
use ferro_jtype.Prelude.{
  ◌+◌, Bool, true, false, ◌||◌, ◌&&◌, List, [], ◌∷◌, ◌++◌, Option, none, some, length, any, ltb,
  ◌==◌, if◌then◌else◌, as_bool, map, codes,
}
use ferro_jtype.Prelude.Order.{sort_by}
use ferro_jtype.Hierarchy.{TypeHierarchy, common_supertype}
use ferro_jtype.Types.ClassName.{ClassName, class_name, ClassName-discrete}
use ferro_jtype.Types.Descriptor.{TypeDescriptor, TypeDescriptor-discrete}
use ferro_jtype.Types.Integral.{IntegralTypeSet, int_set, union, IntegralTypeSet-discrete}
use ferro_jtype.Types.Inferred.{
  ReferenceType, exact, array, null, unknown, InferredType, bottom, int, integral, float, long,
  double, reference, uninitialized, uninitialized_this, return_address, alternatives, conflict,
  InferredTypes, nil, cons, of_list, ReferenceType-discrete, InferredType-discrete,
}
use ferro_jtype.Types.Inferred.Order.{compare_references, compare_inferred_types}

abbrev pub is_same_class : ClassName → ClassName → Bool
is_same_class a b = as_bool (ClassName-discrete a b)

abbrev pub is_same_descriptor : TypeDescriptor → TypeDescriptor → Bool
is_same_descriptor a b = as_bool (TypeDescriptor-discrete a b)

abbrev pub is_same_reference : ReferenceType → ReferenceType → Bool
is_same_reference a b = as_bool (ReferenceType-discrete a b)

abbrev pub is_same_type : InferredType → InferredType → Bool
is_same_type a b = as_bool (InferredType-discrete a b)

abbrev pub option_map : {A B : Type 0} → (A → B) → Option A → Option B
option_map f none = none
option_map f (some a) = some (f a)

-- The supertypes of every array.
abbrev pub is_array_supertype : ClassName → Bool
is_array_supertype c =
    is_same_class c (class_name (codes "java/lang/Object"))
    || is_same_class c (class_name (codes "java/lang/Cloneable"))
    || is_same_class c (class_name (codes "java/io/Serializable"))

-- `ReferenceType::join`
unfoldable pub join_reference :
    Option TypeHierarchy → ReferenceType → ReferenceType → Option ReferenceType
join_reference h null s = some s
join_reference h r null = some r
join_reference h unknown s = some unknown
join_reference h r unknown = some unknown
join_reference h (exact c) (exact d) =
    if is_same_class c d then some (exact c) else option_map exact (common_supertype h c d)
join_reference h (array d) (array e) = if is_same_descriptor d e then some (array d) else none
join_reference h (array d) (exact c) = if is_array_supertype c then some (exact c) else none
join_reference h (exact c) (array d) = if is_array_supertype c then some (exact c) else none

abbrev pub integral_types : InferredType → Option IntegralTypeSet
integral_types int = some int_set
integral_types (integral s) = some s
integral_types _ = none

abbrev pub from_integral_types : IntegralTypeSet → InferredType
from_integral_types s = if as_bool (IntegralTypeSet-discrete s int_set) then int else integral s

-- `collect` into an `Option`: all alternatives must be references.
abbrev pub prepend : {A : Type 0} → A → Option (List A) → Option (List A)
prepend a none = none
prepend a (some l) = some (a ∷ l)

abbrev pub collect_references : InferredTypes → Option (List ReferenceType)
collect_references nil = some []
collect_references (cons (reference r) ts) = prepend r (collect_references ts)
collect_references (cons _ ts) = none

abbrev pub reference_alternatives : InferredType → Option (List ReferenceType)
reference_alternatives (reference r) = some (r ∷ [])
reference_alternatives (alternatives ts) = collect_references ts
reference_alternatives _ = none

-- `retain`, with the test for `null`
abbrev pub without_null : List ReferenceType → List ReferenceType
without_null [] = []
without_null (null ∷ rs) = without_null rs
without_null (r ∷ rs) = r ∷ without_null rs

abbrev pub drop_null : List ReferenceType → List ReferenceType
drop_null rs = if ltb 1 (length rs) then without_null rs else rs

abbrev pub dedup_from : ReferenceType → List ReferenceType → List ReferenceType
dedup_from r [] = r ∷ []
dedup_from r (s ∷ rs) =
    let rest = dedup_from s rs in
    let skipped = dedup_from r rs in if is_same_reference r s then skipped else r ∷ rest

abbrev pub dedup : List ReferenceType → List ReferenceType
dedup [] = []
dedup (r ∷ rs) = dedup_from r rs

-- `try_fold`
abbrev pub join_all :
    Option TypeHierarchy → Option ReferenceType → List ReferenceType → Option ReferenceType
join_all h common [] = common
join_all h none (r ∷ rs) = none
join_all h (some common) (r ∷ rs) = join_all h (join_reference h common r) rs

-- What the sorted candidates without repetition become.
abbrev pub join_candidates : Option TypeHierarchy → List ReferenceType → InferredType
join_candidates h [] = reference null
join_candidates h (r ∷ []) = reference r
join_candidates h (r ∷ s ∷ rs) = elim (join_all h (some r) (s ∷ rs)) [
  | some common ↦ reference common
  | none ↦ alternatives (of_list (map reference (r ∷ s ∷ rs)))
]

unfoldable pub join_reference_alternatives :
    Option TypeHierarchy → List ReferenceType → List ReferenceType → InferredType
join_reference_alternatives h left right =
    let references = left ++ right in
    if any (is_same_reference unknown) references
    then reference unknown
    else join_candidates h (dedup (sort_by compare_references (drop_null references)))

-- The last `match` of `join_with_hierarchy`.
unfoldable pub join_other : InferredType → InferredType → InferredType
join_other bottom u = u
join_other t bottom = t
join_other int int = int
join_other float float = float
join_other long long = long
join_other double double = double
join_other return_address return_address = return_address
join_other conflict conflict = conflict
join_other (uninitialized c m) (uninitialized d n) =
    if is_same_class c d && m == n then uninitialized c m else conflict
join_other (uninitialized_this c) (uninitialized_this d) =
    if is_same_class c d then uninitialized_this c else conflict
join_other _ _ = conflict

abbrev pub join_integral :
    Option IntegralTypeSet → Option IntegralTypeSet → InferredType → InferredType
join_integral (some s) (some t) otherwise = from_integral_types (union s t)
join_integral _ _ otherwise = otherwise

abbrev pub join_choice :
    Option TypeHierarchy
    → Option (List ReferenceType)
    → Option (List ReferenceType)
    → InferredType
    → InferredType
join_choice h (some left) (some right) otherwise = join_reference_alternatives h left right
join_choice h _ _ otherwise = otherwise

unfoldable pub join_with_hierarchy :
    Option TypeHierarchy → InferredType → InferredType → InferredType
join_with_hierarchy h t u =
    join_choice h (reference_alternatives t) (reference_alternatives u)
      (join_integral (integral_types t) (integral_types u) (join_other t u))

-- `InferredType::join`
unfoldable pub join : InferredType → InferredType → InferredType
unfolding join_with_hierarchy
join t u = join_with_hierarchy none t u

abbrev pub is_conflict : InferredType → Bool
is_conflict conflict = true
is_conflict _ = false

-- A value is added if it is not there yet; alternatives are taken apart.
unfoldable mutual
  pub append_alternatives : List InferredType → InferredType → List InferredType
  append_alternatives destination (alternatives ts) = append_each destination ts
  append_alternatives destination t =
      if any (is_same_type t) destination then destination else destination ++ t ∷ []

  pub append_each : List InferredType → InferredTypes → List InferredType
  append_each destination nil = destination
  append_each destination (cons t ts) = append_each (append_alternatives destination t) ts

unfoldable pub join_local_types : Option TypeHierarchy → InferredType → InferredType → InferredType
unfolding join_with_hierarchy append_alternatives
join_local_types h left right =
    let joined = join_with_hierarchy h left right in
    let all_types = append_alternatives (append_alternatives [] left) right in
    if is_conflict joined
    then alternatives (of_list (sort_by compare_inferred_types all_types))
    else joined
