-- ===== src/Hierarchy/Complete.antt =====
-- The search for ancestors in src/hierarchy.rs finds every ancestor.
use ferro_jtype.Prelude.{
  ℕ, zero, suc, ◌+◌, ◌≡◌, ◌≢◌, length, refl, sym, ap, subst, true, false, ◌||◌, List, [], ◌∷◌, none,
  some, ◌⊎◌, inl, inr, Bool-cases, as_bool-eq-true, as_bool_yes, Option-cases,
}
use ferro_jtype.Types.ClassName.{ClassName, java_lang_object, ClassName-discrete}
use ferro_jtype.Hierarchy.{
  TypeHierarchy, is_same, get, Distances, has_distance, distance_of, visit, parents_of, search_up,
  ancestor_distances, Candidate, candidates, min_by_key, nearest_supertype, common_supertype,
}
use ferro_jtype.Hierarchy.{IsIn}
use ferro_jtype.Hierarchy.Fuel.{is_visited, search_up-ends}
use ferro_jtype.Hierarchy.Visits.{Visited, Visits, visit-Visits}

-- The class itself and what the chains of direct supertypes above it lead to.
pub data Ancestor (h : TypeHierarchy) (c : ClassName) : ClassName → Type 0 where
  itself : Ancestor h c c
  further : {d p : ClassName} → Ancestor h c d → IsIn p (parents_of h d) → Ancestor h c p

module _ (h : TypeHierarchy) where
  abbrev IsClosedAt : Distances → ClassName → Type 0
  IsClosedAt ds d = (p : ClassName) → IsIn p (parents_of h d) → Visited ds p

  -- A visited class waits in the queue, or its parents are visited.
  abbrev IsClosedBut : List ClassName → Distances → Type 0
  IsClosedBut q ds = (d : ClassName) → Visited ds d → IsIn d q ⊎ IsClosedAt ds d

  step-IsClosedBut :
      (n : ℕ) (c : ClassName) (ds : Distances) (q : List ClassName)
      → IsClosedBut (c ∷ q) ds
      → IsClosedBut (visit n (parents_of h c) ds q).1 (visit n (parents_of h c) ds q).0
  step-IsClosedBut n c ds q inv d v =
      let step = visit-Visits n (parents_of h c) ds q in by_age step (step.fresh d v)
    where
      by_age :
          Visits (parents_of h c) ds q (visit n (parents_of h c) ds q)
          → Visited ds d ⊎ IsIn d (visit n (parents_of h c) ds q).1
          → IsIn d (visit n (parents_of h c) ds q).1
            ⊎ IsClosedAt (visit n (parents_of h c) ds q).0 d
      by_age step (inr m) = inl m
      by_age step (inl old) = elim (inv d old) [
        | inl (inl same) ↦
            inr (λ p m. step.seen p (subst (λ x. IsIn p (parents_of h x)) (sym same) m))
        | inl (inr m) ↦ inl (step.queued d m)
        | inr closed ↦ inr (λ p m. step.kept p (closed p m))
      ]

  search_up-IsClosedBut :
      (f : ℕ) (ds : Distances) (q : List ClassName)
      → IsClosedBut q ds
      → IsClosedBut (search_up f h ds q).1 (search_up f h ds q).0
  unfolding search_up
  search_up-IsClosedBut zero ds q inv = inv
  search_up-IsClosedBut (suc f) ds [] inv = inv
  search_up-IsClosedBut (suc f) ds (c ∷ q) inv =
      let n = distance_of (get ds c) + 1 in
      search_up-IsClosedBut f (visit n (parents_of h c) ds q).0 (visit n (parents_of h c) ds q).1
        (step-IsClosedBut n c ds q inv)

  search_up-kept :
      (f : ℕ) (ds : Distances) (q : List ClassName) (c : ClassName)
      → Visited ds c
      → Visited (search_up f h ds q).0 c
  unfolding search_up
  search_up-kept zero ds q c v = v
  search_up-kept (suc f) ds [] c v = v
  search_up-kept (suc f) ds (d ∷ q) c v =
      let n = distance_of (get ds d) + 1 in
      search_up-kept f (visit n (parents_of h d) ds q).0 (visit n (parents_of h d) ds q).1 c
        ((visit-Visits n (parents_of h d) ds q).kept c v)

  start-IsClosedBut : (root : ClassName) → IsClosedBut (root ∷ []) ((root, 0) ∷ [])
  start-IsClosedBut root d v = elim (Bool-cases (is_same root d)) [
    | inl e ↦ inl (inl (as_bool-eq-true (ClassName-discrete root d) e))
    | inr e ↦ let none_found : false ≡ true = rw e at v in cc
  ]

  ancestors-IsClosedAt :
      (root d : ClassName)
      → Visited (ancestor_distances h root) d
      → IsClosedAt (ancestor_distances h root) d
  unfolding ancestor_distances
  ancestors-IsClosedAt root d v =
      let closed =
        search_up-IsClosedBut (length h.names + 2) ((root, 0) ∷ []) (root ∷ [])
          (start-IsClosedBut root) d v in
      elim closed [
        | inl m ↦ absurd (subst (IsIn d) (search_up-ends h root) m)
        | inr at_parents ↦ at_parents
      ]

  -- The search finds a distance for the class itself and for every class that a chain of direct
  -- supertypes leads to, in any hierarchy.
  pub Ancestor-is_visited :
      (root c : ClassName) → Ancestor h root c → is_visited (ancestor_distances h root) c ≡ true
  unfolding ancestor_distances
  Ancestor-is_visited root _ itself =
      search_up-kept (length h.names + 2) ((root, 0) ∷ []) (root ∷ []) root (at_root)
    where
      at_root : Visited ((root, 0) ∷ []) root
      at_root = rw (as_bool_yes (ClassName-discrete root root) refl) refl
  Ancestor-is_visited root _ (further {d} {p} a m) =
      ancestors-IsClosedAt root d (Ancestor-is_visited root d a) p m

candidates-found :
    (left right : Distances) (c : ClassName)
    → is_visited left c ≡ true
    → is_visited right c ≡ true
    → candidates left right ≢ []
unfolding candidates
candidates-found [] right c l r = cc
candidates-found ((d, m) ∷ left) right c l r = elim (Option-cases (get right d)) [
  | inr (n, e) ↦ rw (e, candidates) (λ same. cc)
  | inl e ↦
      let absent : is_visited right d ≡ false = ap has_distance e in
      elim (Bool-cases (is_same d c)) [
        | inl same ↦
            let at_c : is_visited right c ≡ false =
              subst (λ x. is_visited right x ≡ false)
                (as_bool-eq-true (ClassName-discrete d c) same) absent in
            cc
        | inr differ ↦
            let later : is_visited left c ≡ true = rw differ at l in
            rw (e, candidates) (candidates-found left right c later r)
      ]
]

min_by_key-found : (cs : List Candidate) → cs ≢ [] → min_by_key cs ≢ none
unfolding min_by_key
min_by_key-found [] ne = absurd (ne refl)
min_by_key-found (c ∷ cs) ne = λ e. cc

-- Where one class is an ancestor of two others by chains of direct supertypes of the hierarchy, the
-- search for a common supertype of the two gives a class.
pub common_supertype-found :
    (h : TypeHierarchy) (left right c : ClassName)
    → Ancestor h left c
    → Ancestor h right c
    → common_supertype (some h) left right ≢ none
unfolding common_supertype nearest_supertype
common_supertype-found h left right c l r = elim (Bool-cases (is_same left right)) [
  | inl same ↦ rw same (λ e. cc)
  | inr differ ↦
      elim (Bool-cases (is_same left java_lang_object || is_same right java_lang_object)) [
        | inl object ↦ rw (differ, object) (λ e. cc)
        | inr other ↦
            rw (differ, other)
              (min_by_key-found
                (candidates (ancestor_distances h left) (ancestor_distances h right))
                (candidates-found (ancestor_distances h left) (ancestor_distances h right) c
                  (Ancestor-is_visited h left c l) (Ancestor-is_visited h right c r)))
      ]
]
