-- ===== src/Hierarchy/InMemory.antt =====
-- `ClassHierarchy` of src/hierarchy.rs, the hierarchy that is built from class files.
use ferro_jtype.Prelude.{inl, inr, List, [], ◌∷◌, ◌++◌, Option, Bool-cases}
use ferro_jtype.Types.ClassName.{ClassName}
use ferro_jtype.Hierarchy.{IsIn, is_same, get, or_empty, TypeHierarchy}

-- The map from a class to the direct supertypes of the class.
pub record ClassHierarchy : Type 0 where
  pub parents : List (ClassName × List ClassName)

abbrev pub direct_supertypes : ClassHierarchy → ClassName → Option (List ClassName)
direct_supertypes h c = get h.parents c

-- Every name that stands as a supertype.
abbrev all_names : List (ClassName × List ClassName) → List ClassName
all_names [] = []
all_names ((_, parents) ∷ entries) = parents ++ all_names entries

IsIn-left : (c : ClassName) (xs ys : List ClassName) → IsIn c xs → IsIn c (xs ++ ys)
IsIn-left c [] ys m = absurd m
IsIn-left c (x ∷ xs) ys (inl same) = inl same
IsIn-left c (x ∷ xs) ys (inr m) = inr (IsIn-left c xs ys m)

IsIn-right : (c : ClassName) (xs ys : List ClassName) → IsIn c ys → IsIn c (xs ++ ys)
IsIn-right c [] ys m = m
IsIn-right c (x ∷ xs) ys m = inr (IsIn-right c xs ys m)

pub get-names :
    (entries : List (ClassName × List ClassName)) (c p : ClassName)
    → IsIn p (or_empty (get entries c))
    → IsIn p (all_names entries)
get-names [] c p m = absurd m
get-names ((d, parents) ∷ entries) c p m = elim (Bool-cases (is_same d c)) [
  | inl e ↦ let here : IsIn p parents = rw e at m in IsIn-left p parents (all_names entries) here
  | inr e ↦
      let later : IsIn p (or_empty (get entries c)) = rw e at m in
      IsIn-right p parents (all_names entries) (get-names entries c p later)
]

-- The implementation of the trait.
abbrev pub type_hierarchy : ClassHierarchy → TypeHierarchy
type_hierarchy h = record {
  direct_supertypes = direct_supertypes h;
  names = all_names h.parents;
  named = get-names h.parents;
}
