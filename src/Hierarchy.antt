-- ===== src/Hierarchy.antt =====
-- src/hierarchy.rs: direct supertypes and the nearest common supertype.
pub mod InMemory
pub mod Sound
pub mod Fuel
pub mod Visits
pub mod Complete
use ferro_jtype.Prelude.{
  ℕ, zero, suc, ◌+◌, max, ◌≡◌, ◌⊎◌, Bool, true, false, ◌||◌, ◌&&◌, List, [], ◌∷◌, ◌++◌, Option,
  none, some, length, ltb, ◌==◌, if◌then◌else◌, as_bool,
}
use ferro_jtype.Prelude.Order.{compare_bytes, is_gt}
use ferro_jtype.Types.ClassName.{ClassName, as_str, java_lang_object, ClassName-discrete}

abbrev pub is_same : ClassName → ClassName → Bool
is_same a b = as_bool (ClassName-discrete a b)

module _ {ℓ} {V : Type ℓ} where
  -- `BTreeMap::get`
  abbrev pub get : List (ClassName × V) → ClassName → Option V
  get [] c = none
  get ((d, v) ∷ entries) c = if is_same d c then some v else get entries c

-- `unwrap_or_default`
abbrev pub or_empty : Option (List ClassName) → List ClassName
or_empty none = []
or_empty (some parents) = parents

-- `c` is one of the classes of a list.
abbrev pub IsIn : ClassName → List ClassName → Type 0
IsIn c [] = ⊥
IsIn c (d ∷ ds) = (d ≡ c) ⊎ IsIn c ds

-- The trait that a caller implements: one operation, whose answers do not change and name finitely
-- many classes between them. The search for ancestors ends only by that.
pub record TypeHierarchy : Type 0 where
  pub direct_supertypes : ClassName → Option (List ClassName)
  pub names : List ClassName
  pub named : (c p : ClassName) → IsIn p (or_empty (direct_supertypes c)) → IsIn p names

abbrev pub Distances : Type 0
Distances = List (ClassName × ℕ)

abbrev pub has_distance : Option ℕ → Bool
has_distance none = false
has_distance (some _) = true

abbrev distance_of : Option ℕ → ℕ
distance_of none = 0
distance_of (some n) = n

-- A parent whose entry is vacant gets the distance and is queued.
abbrev pub enter : Bool → ClassName → ℕ → Distances → List ClassName → Distances × List ClassName
enter true p distance distances queue = (distances, queue)
enter false p distance distances queue = (distances ++ (p, distance) ∷ [], queue ++ p ∷ [])

-- The loop over the parents of one class.
unfoldable pub visit : ℕ → List ClassName → Distances → List ClassName → Distances × List ClassName
visit distance [] distances queue = (distances, queue)
visit distance (p ∷ parents) distances queue =
    let (distances', queue') = enter (has_distance (get distances p)) p distance distances queue in
    visit distance parents distances' queue'

-- The parents that the search follows: an `Object` has none.
abbrev pub parents_of : TypeHierarchy → ClassName → List ClassName
parents_of h c = if is_same c java_lang_object then [] else or_empty (h.direct_supertypes c)

-- The search by breadth. The model returns the queue as well, to say that it is empty at the end.
unfoldable pub search_up :
    ℕ → TypeHierarchy → Distances → List ClassName → Distances × List ClassName
unfolding visit
search_up zero h distances queue = (distances, queue)
search_up (suc fuel) h distances [] = (distances, [])
search_up (suc fuel) h distances (current ∷ queue) =
    let (distances', queue') =
      visit (distance_of (get distances current) + 1) (parents_of h current) distances queue in
    search_up fuel h distances' queue'

unfoldable pub ancestor_distances : TypeHierarchy → ClassName → Distances
unfolding search_up
ancestor_distances h root = (search_up (length h.names + 2) h ((root, 0) ∷ []) (root ∷ [])).0

pub record Candidate : Type 0 where
  pub name : ClassName
  pub furthest : ℕ
  pub total : ℕ

-- `(furthest, total, name)` of the one is less than that of the other.
abbrev is_less : Candidate → Candidate → Bool
is_less a b =
    ltb a.furthest b.furthest
    || a.furthest == b.furthest
      && (ltb a.total b.total
          || a.total == b.total && is_gt (compare_bytes (as_str b.name) (as_str a.name)))

-- `filter_map`: the candidates among the ancestors on the left that the right has too.
unfoldable pub candidates : Distances → Distances → List Candidate
candidates [] right = []
candidates ((c, m) ∷ left) right = elim (get right c) [
  | none ↦ candidates left right
  | some n ↦ record { name = c; furthest = max m n; total = m + n } ∷ candidates left right
]

-- `min_by_key`: the first of the least.
abbrev min_from : Candidate → List Candidate → Candidate
min_from best [] = best
min_from best (c ∷ rest) = min_from (if is_less c best then c else best) rest

unfoldable pub min_by_key : List Candidate → Option ClassName
min_by_key [] = none
min_by_key (c ∷ rest) = some (min_from c rest).name

-- The rest of `common_supertype`, from `let hierarchy = hierarchy?` on.
unfoldable pub nearest_supertype : Option TypeHierarchy → ClassName → ClassName → Option ClassName
unfolding ancestor_distances candidates min_by_key
nearest_supertype none left right = none
nearest_supertype (some h) left right =
    min_by_key (candidates (ancestor_distances h left) (ancestor_distances h right))

unfoldable pub common_supertype : Option TypeHierarchy → ClassName → ClassName → Option ClassName
unfolding nearest_supertype ClassName-discrete
common_supertype hierarchy left right =
    if is_same left right
    then some left
    else if is_same left java_lang_object || is_same right java_lang_object
    then some java_lang_object
    else nearest_supertype hierarchy left right
