-- ===== src/Hierarchy/Sound.antt =====
-- The ancestors that the search finds are supertypes, and so is the class that it chooses.
use ferro_jtype.Prelude.{
  ℕ, zero, suc, ◌+◌, ◌≡◌, refl, sym, inl, inr, Bool, true, false, ◌||◌, List, [], ◌∷◌, ◌++◌, Option,
  none, some, All, subst, if◌then◌else◌, as_bool, as_bool-eq-true, Bool-cases, Option-cases,
}
use ferro_jtype.Types.ClassName.{ClassName, java_lang_object, ClassName-discrete}
use ferro_jtype.Hierarchy.{
  IsIn, TypeHierarchy, is_same, get, Distances, enter, visit, parents_of, search_up,
  ancestor_distances, Candidate, candidates, min_from, min_by_key, nearest_supertype,
  common_supertype, distance_of, has_distance, is_less,
}

abbrev pub known_parents : Option TypeHierarchy → ClassName → List ClassName
known_parents none c = []
known_parents (some h) c = parents_of h c

-- The subclass relation that a hierarchy proves: reflexive, below `Object`, and up by the parents.
pub data Subtype (h : Option TypeHierarchy) (c : ClassName) : ClassName → Type 0 where
  self : Subtype h c c
  to_object : Subtype h c java_lang_object
  up : {d p : ClassName} → Subtype h c d → IsIn p (known_parents h d) → Subtype h c p

pub Subtype-trans :
    {h : Option TypeHierarchy} {c d e : ClassName} → Subtype h c d → Subtype h d e → Subtype h c e
Subtype-trans s self = s
Subtype-trans s to_object = to_object
Subtype-trans s (up t m) = up (Subtype-trans s t) m

module _ (h : TypeHierarchy) (root : ClassName) where
  abbrev Above : ClassName → Type 0
  Above c = Subtype (some h) root c

  abbrev AllAbove : Distances → Type 0
  AllAbove = All (λ e. Above e.0)

  AllAbove-snoc :
      (ds : Distances) (c : ClassName) (n : ℕ)
      → AllAbove ds
      → Above c
      → AllAbove (ds ++ (c, n) ∷ [])
  AllAbove-snoc [] c n hs hc = (hc, tt)
  AllAbove-snoc (d ∷ ds) c n (hd, hs) hc = (hd, AllAbove-snoc ds c n hs hc)

  Above-snoc :
      (q : List ClassName) (c : ClassName) → All Above q → Above c → All Above (q ++ c ∷ [])
  Above-snoc [] c hs hc = (hc, tt)
  Above-snoc (d ∷ q) c (hd, hs) hc = (hd, Above-snoc q c hs hc)

  enter-Above :
      (b : Bool) (p : ClassName) (n : ℕ) (ds : Distances) (q : List ClassName)
      → Above p
      → AllAbove ds
      → All Above q
      → AllAbove (enter b p n ds q).0 × All Above (enter b p n ds q).1
  enter-Above true p n ds q hp hd hq = (hd, hq)
  enter-Above false p n ds q hp hd hq = (AllAbove-snoc ds p n hd hp, Above-snoc q p hq hp)

  visit-Above :
      (n : ℕ) (parents : List ClassName) (ds : Distances) (q : List ClassName)
      → All Above parents
      → AllAbove ds
      → All Above q
      → AllAbove (visit n parents ds q).0 × All Above (visit n parents ds q).1
  unfolding visit
  visit-Above n [] ds q hp hd hq = (hd, hq)
  visit-Above n (p ∷ parents) ds q (hp, hps) hd hq =
      let e = enter-Above (has_distance (get ds p)) p n ds q hp hd hq in
      visit-Above n parents _ _ hps e.0 e.1

  All-parents :
      (c : ClassName) (ps : List ClassName)
      → Above c
      → ((p : ClassName) → IsIn p ps → IsIn p (parents_of h c))
      → All Above ps
  All-parents c [] hc inside = tt
  All-parents c (p ∷ ps) hc inside =
      (up hc (inside p (inl refl)), All-parents c ps hc (λ q m. inside q (inr m)))

  search_up-Above :
      (f : ℕ) (ds : Distances) (q : List ClassName)
      → AllAbove ds
      → All Above q
      → AllAbove (search_up f h ds q).0
  unfolding search_up
  search_up-Above zero ds q hd hq = hd
  search_up-Above (suc f) ds [] hd hq = hd
  search_up-Above (suc f) ds (c ∷ q) hd (hc, hq) =
      let v =
        visit-Above (distance_of (get ds c) + 1) (parents_of h c) ds q
          (All-parents c (parents_of h c) hc (λ p m. m)) hd hq in
      search_up-Above f _ _ v.0 v.1

  pub ancestor_distances-Above : All (λ e. Subtype (some h) root e.0) (ancestor_distances h root)
  unfolding ancestor_distances
  ancestor_distances-Above = search_up-Above _ ((root, 0) ∷ []) (root ∷ []) (self, tt) (self, tt)

get-All :
    {V : Type 0} (P : ClassName → Type 0) (entries : List (ClassName × V)) (c : ClassName) (v : V)
    → All (λ e. P e.0) entries
    → get entries c ≡ some v
    → P c
get-All P [] c v h e = cc
get-All P ((d, w) ∷ entries) c v (hd, h) e =
    by_name (ClassName-discrete d c) (get-All P entries c v h) e
  where
    by_name :
        (x : Dec (d ≡ c))
        → (get entries c ≡ some v → P c)
        → (if as_bool x then some w else get entries c) ≡ some v
        → P c
    by_name (yes same) later e = subst P same hd
    by_name (no differ) later e = later e

module _ (P Q : ClassName → Type 0) where
  abbrev IsCommon : Candidate → Type 0
  IsCommon c = P c.name × Q c.name

  candidates-IsCommon :
      (left right : Distances)
      → All (λ e. P e.0) left
      → All (λ e. Q e.0) right
      → All IsCommon (candidates left right)
  unfolding candidates
  candidates-IsCommon [] right hl hr = tt
  candidates-IsCommon ((c, m) ∷ left) right (hc, hl) hr =
      let rest = candidates-IsCommon left right hl hr in
      elim (Option-cases (get right c)) [
        | inl e ↦ rw (e, candidates) rest
        | inr (n, e) ↦ rw (e, candidates) ((hc, get-All Q right c n hr e), rest)
      ]

  min_from-IsCommon :
      (best : Candidate) (cs : List Candidate)
      → IsCommon best
      → All IsCommon cs
      → IsCommon (min_from best cs)
  min_from-IsCommon best [] hb h = hb
  min_from-IsCommon best (c ∷ cs) hb (hc, h) =
      min_from-IsCommon (if is_less c best then c else best) cs (pick (is_less c best)) h
    where
      pick : (b : Bool) → IsCommon (if b then c else best)
      pick true = hc
      pick false = hb

  min_by_key-IsCommon :
      (cs : List Candidate) (c : ClassName) → All IsCommon cs → min_by_key cs ≡ some c → P c × Q c
  unfolding min_by_key
  min_by_key-IsCommon [] c h e = cc
  min_by_key-IsCommon (d ∷ cs) c (hd, h) e =
      let m = min_from-IsCommon d cs hd h in
      let same : (min_from d cs).name ≡ c = cc in subst (λ x. P x × Q x) same m

nearest_supertype-Subtype :
    (h : Option TypeHierarchy) (left right c : ClassName)
    → nearest_supertype h left right ≡ some c
    → Subtype h left c × Subtype h right c
unfolding nearest_supertype
nearest_supertype-Subtype none left right c e = cc
nearest_supertype-Subtype (some h) left right c e =
    min_by_key-IsCommon (Subtype (some h) left) (Subtype (some h) right) _ c
      (candidates-IsCommon (Subtype (some h) left) (Subtype (some h) right) _ _
        (ancestor_distances-Above h left) (ancestor_distances-Above h right))
      e

-- A common supertype that the search reports is a supertype of both classes, in the relation that
-- the hierarchy proves; with no hierarchy that is the class itself or `Object`.
pub common_supertype-Subtype :
    (h : Option TypeHierarchy) (left right c : ClassName)
    → common_supertype h left right ≡ some c
    → Subtype h left c × Subtype h right c
unfolding common_supertype
common_supertype-Subtype h left right c e = elim (Bool-cases (is_same left right)) [
  | inl same ↦
      let found : some left ≡ some c = rw same at e in
      let at_left : left ≡ c = cc in
      let equal : left ≡ right = as_bool-eq-true (ClassName-discrete left right) same in
      (
        subst (Subtype h left) at_left self,
        subst (Subtype h right) at_left (subst (Subtype h right) (sym equal) self),
      )
  | inr differ ↦
      elim (Bool-cases (is_same left java_lang_object || is_same right java_lang_object)) [
        | inl object ↦
            let found : some java_lang_object ≡ some c = rw (differ, object) at e in
            let at_object : java_lang_object ≡ c = cc in
            (
              subst (Subtype h left) at_object to_object,
              subst (Subtype h right) at_object to_object,
            )
        | inr none_object ↦ nearest_supertype-Subtype h left right c (rw (differ, none_object) at e)
      ]
]
