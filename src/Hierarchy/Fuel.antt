-- ===== src/Hierarchy/Fuel.antt =====
-- The search for ancestors in src/hierarchy.rs ends: its fuel empties the queue.
use ferro_jtype.Prelude.{
  ℕ, zero, suc, ◌+◌, ◌≤◌, ◌≡◌, refl, sym, subst, Bool, true, false, ◌||◌, List, [], ◌∷◌, ◌++◌, inl,
  inr, All, length, length-append, Bool-cases, as_bool_yes, arith,
}
use ferro_jtype.Types.ClassName.{ClassName, java_lang_object, ClassName-discrete}
use ferro_jtype.Hierarchy.{
  TypeHierarchy, is_same, get, Distances, has_distance, distance_of, enter, visit, or_empty,
  parents_of, search_up,
}
use ferro_jtype.Hierarchy.{IsIn}

abbrev pub is_visited : Distances → ClassName → Bool
is_visited ds c = has_distance (get ds c)

is_same_self : (c : ClassName) → is_same c c ≡ true
is_same_self c = as_bool_yes (ClassName-discrete c c) refl

pub is_visited-append :
    (ds : Distances) (p : ClassName) (n : ℕ) (c : ClassName)
    → is_visited (ds ++ (p, n) ∷ []) c ≡ (is_visited ds c || is_same p c)
is_visited-append [] p n c = elim (Bool-cases (is_same p c)) [
  | inl e ↦ rw e refl
  | inr e ↦ rw e refl
]
is_visited-append ((d, m) ∷ ds) p n c = elim (Bool-cases (is_same d c)) [
  | inl e ↦ rw e refl
  | inr e ↦ rw e (is_visited-append ds p n c)
]

-- The names in a list that have not been visited.
abbrev one_missing : Bool → ℕ
one_missing true = 0
one_missing false = 1

abbrev missing : Distances → List ClassName → ℕ
missing ds [] = 0
missing ds (c ∷ cs) = one_missing (is_visited ds c) + missing ds cs

at_most_one : (b : Bool) → one_missing b ≤ 1
at_most_one true = omega arith
at_most_one false = omega arith

missing-length : (ds : Distances) (cs : List ClassName) → missing ds cs ≤ length cs
missing-length ds [] = omega arith
missing-length ds (c ∷ cs) = omega (arith, at_most_one (is_visited ds c), missing-length ds cs)

missing-append :
    (ds : Distances) (p : ClassName) (n : ℕ) (cs : List ClassName)
    → missing (ds ++ (p, n) ∷ []) cs ≤ missing ds cs
missing-append ds p n [] = omega arith
missing-append ds p n (c ∷ cs) =
    let later = missing-append ds p n cs in
    rw (is_visited-append ds p n c) (fewer (is_visited ds c) (is_same p c) later)
  where
    fewer :
        (b s : Bool)
        → missing (ds ++ (p, n) ∷ []) cs ≤ missing ds cs
        → one_missing (b || s) + missing (ds ++ (p, n) ∷ []) cs ≤ one_missing b + missing ds cs
    fewer true s le = omega arith
    fewer false true le = omega arith
    fewer false false le = omega arith

-- A visit of a missing name leaves one fewer.
missing-visit :
    (ds : Distances) (p : ClassName) (n : ℕ) (cs : List ClassName)
    → is_visited ds p ≡ false
    → IsIn p cs
    → missing (ds ++ (p, n) ∷ []) cs + 1 ≤ missing ds cs
missing-visit ds p n [] e m = absurd m
missing-visit ds p n (c ∷ cs) e (inl same) =
    let later = missing-append ds p n cs in
    let before : is_visited ds c ≡ false = subst (λ x. is_visited ds x ≡ false) (sym same) e in
    let found : is_same p c ≡ true = subst (λ x. is_same p x ≡ true) (sym same) (is_same_self p) in
    rw (is_visited-append ds p n c, before, found) (omega arith)
missing-visit ds p n (c ∷ cs) e (inr m) =
    let later = missing-visit ds p n cs e m in
    rw (is_visited-append ds p n c) (fewer (is_visited ds c) (is_same p c) later)
  where
    fewer :
        (b s : Bool)
        → missing (ds ++ (p, n) ∷ []) cs + 1 ≤ missing ds cs
        → one_missing (b || s) + missing (ds ++ (p, n) ∷ []) cs + 1 ≤ one_missing b + missing ds cs
    fewer true s le = omega arith
    fewer false true le = omega arith
    fewer false false le = omega arith

enter-missing :
    (names : List ClassName) (b : Bool) (p : ClassName) (n : ℕ) (ds : Distances)
    (q : List ClassName)
    → is_visited ds p ≡ b
    → IsIn p names
    → missing (enter b p n ds q).0 names + length (enter b p n ds q).1 ≤ missing ds names + length q
enter-missing names true p n ds q e m = omega arith
enter-missing names false p n ds q e m =
    omega (arith, missing-visit ds p n names e m, length-append q (p ∷ []))

visit-missing :
    (names : List ClassName) (n : ℕ) (ps : List ClassName) (ds : Distances) (q : List ClassName)
    → All (λ p. IsIn p names) ps
    → missing (visit n ps ds q).0 names + length (visit n ps ds q).1 ≤ missing ds names + length q
unfolding visit
visit-missing names n [] ds q h = omega arith
visit-missing names n (p ∷ ps) ds q (hp, hps) =
    let step = enter-missing names (is_visited ds p) p n ds q refl hp in
    let entered = enter (is_visited ds p) p n ds q in
    omega (arith, step, visit-missing names n ps entered.0 entered.1 hps)

pub IsIn-left : (c : ClassName) (xs ys : List ClassName) → IsIn c xs → IsIn c (xs ++ ys)
IsIn-left c [] ys m = absurd m
IsIn-left c (x ∷ xs) ys (inl same) = inl same
IsIn-left c (x ∷ xs) ys (inr m) = inr (IsIn-left c xs ys m)

parents_of-names :
    (h : TypeHierarchy) (c p : ClassName) → IsIn p (parents_of h c) → IsIn p (h.names)
parents_of-names h c p m = elim (Bool-cases (is_same c java_lang_object)) [
  | inl e ↦ let nowhere : IsIn p [] = rw e at m in absurd nowhere
  | inr e ↦ let there : IsIn p (or_empty (h.direct_supertypes c)) = rw e at m in h.named c p there
]

All-IsIn :
    (P : ClassName → Type 0) (ps : List ClassName) → ((p : ClassName) → IsIn p ps → P p) → All P ps
All-IsIn P [] h = tt
All-IsIn P (p ∷ ps) h = (h p (inl refl), All-IsIn P ps (λ q m. h q (inr m)))

search_up-empties :
    (f : ℕ) (h : TypeHierarchy) (ds : Distances) (q : List ClassName)
    → missing ds (h.names) + length q ≤ f
    → (search_up f h ds q).1 ≡ []
unfolding search_up
search_up-empties zero h ds [] le = refl
search_up-empties zero h ds (c ∷ q) le = absurd (omega arith)
search_up-empties (suc f) h ds [] le = refl
search_up-empties (suc f) h ds (c ∷ q) le =
    let names = h.names in
    let n = distance_of (get ds c) + 1 in
    let step =
      visit-missing names n (parents_of h c) ds q
        (All-IsIn (λ p. IsIn p names) (parents_of h c) (parents_of-names h c)) in
    search_up-empties f h (visit n (parents_of h c) ds q).0 (visit n (parents_of h c) ds q).1
      (omega (arith, step))

-- The search for the ancestors of any class ends with an empty queue in every hierarchy whose answers
-- name finitely many classes, also in one with cycles: the fuel that `ancestor_distances` gives it is
-- enough.
pub search_up-ends :
    (h : TypeHierarchy) (root : ClassName)
    → (search_up (length h.names + 2) h ((root, 0) ∷ []) (root ∷ [])).1 ≡ []
search_up-ends h root =
    search_up-empties (length h.names + 2) h ((root, 0) ∷ []) (root ∷ [])
      (omega (arith, missing-length ((root, 0) ∷ []) h.names))
