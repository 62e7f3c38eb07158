-- ===== src/Hierarchy/Visits.antt =====
-- What one step of the search for ancestors in src/hierarchy.rs does to the visited classes and to
-- the queue.
use ferro_jtype.Prelude.{
  ℕ, ◌≡◌, refl, sym, ◌∙◌, subst, Bool, true, false, ◌||◌, List, [], ◌∷◌, ◌++◌, ◌⊎◌, inl, inr,
  as_bool-eq-true, as_bool_yes,
}
use ferro_jtype.Types.ClassName.{ClassName, ClassName-discrete}
use ferro_jtype.Hierarchy.{is_same, Distances, enter, visit}
use ferro_jtype.Hierarchy.{IsIn}
use ferro_jtype.Hierarchy.Fuel.{IsIn-left, is_visited, is_visited-append}

or_left : (a b : Bool) → a ≡ true → (a || b) ≡ true
or_left true b e = refl
or_left false b e = cc

or_right : (a b : Bool) → b ≡ true → (a || b) ≡ true
or_right true b e = refl
or_right false b e = e

either_true : (a b : Bool) → (a || b) ≡ true → (a ≡ true) ⊎ (b ≡ true)
either_true true b e = inl refl
either_true false b e = inr e

abbrev pub Visited : Distances → ClassName → Type 0
Visited ds c = is_visited ds c ≡ true

IsIn-last : (c : ClassName) (xs : List ClassName) → IsIn c (xs ++ c ∷ [])
IsIn-last c [] = inl refl
IsIn-last c (x ∷ xs) = inr (IsIn-last c xs)

-- What the visit of some parents does to the visited classes and to the queue.
pub record Visits (ps : List ClassName) (ds : Distances) (q : List ClassName)
    (r : Distances × List ClassName) : Type 0 where
  pub kept : (c : ClassName) → Visited ds c → Visited r.0 c
  pub seen : (c : ClassName) → IsIn c ps → Visited r.0 c
  pub queued : (c : ClassName) → IsIn c q → IsIn c r.1
  pub fresh : (c : ClassName) → Visited r.0 c → Visited ds c ⊎ IsIn c r.1

enter-Visits :
    (b : Bool) (p : ClassName) (n : ℕ) (ds : Distances) (q : List ClassName)
    → is_visited ds p ≡ b
    → Visits (p ∷ []) ds q (enter b p n ds q)
enter-Visits true p n ds q e = record {
  kept = λ c v. v;
  seen = λ c m. only_here c m;
  queued = λ c m. m;
  fresh = λ c v. inl v;
}
  where
    only_here : (c : ClassName) → IsIn c (p ∷ []) → Visited ds c
    only_here c (inl same) = subst (Visited ds) same e
    only_here c (inr m) = absurd m
enter-Visits false p n ds q e = record {
  kept = λ c v. is_visited-append ds p n c ∙ or_left (is_visited ds c) (is_same p c) v;
  seen = λ c m. now_here c m;
  queued = λ c m. IsIn-left c q (p ∷ []) m;
  fresh = λ c v.
      split c (either_true (is_visited ds c) (is_same p c) (sym (is_visited-append ds p n c) ∙ v));
}
  where
    now_here : (c : ClassName) → IsIn c (p ∷ []) → Visited (ds ++ (p, n) ∷ []) c
    now_here c (inl same) =
        is_visited-append ds p n c
        ∙ or_right (is_visited ds c) (is_same p c) (as_bool_yes (ClassName-discrete p c) same)
    now_here c (inr m) = absurd m

    split :
        (c : ClassName) → Visited ds c ⊎ (is_same p c ≡ true) → Visited ds c ⊎ IsIn c (q ++ p ∷ [])
    split c (inl v) = inl v
    split c (inr same) = inr (
        subst (λ x. IsIn x (q ++ p ∷ [])) (as_bool-eq-true (ClassName-discrete p c) same)
          (IsIn-last p q))

pub visit-Visits :
    (n : ℕ) (ps : List ClassName) (ds : Distances) (q : List ClassName)
    → Visits ps ds q (visit n ps ds q)
unfolding visit
visit-Visits n [] ds q = record {
  kept = λ c v. v;
  seen = λ c m. absurd m;
  queued = λ c m. m;
  fresh = λ c v. inl v;
}
visit-Visits n (p ∷ ps) ds q =
    let first = enter-Visits (is_visited ds p) p n ds q refl in
    let r = enter (is_visited ds p) p n ds q in
    let rest = visit-Visits n ps r.0 r.1 in
    record {
      kept = λ c v. rest.kept c (first.kept c v);
      seen = λ c m. seen_in r (visit n ps r.0 r.1) c (first.seen p (inl refl)) rest m;
      queued = λ c m. rest.queued c (first.queued c m);
      fresh =
          λ c v. earlier r (visit n ps r.0 r.1) c (first.fresh c) (rest.queued c) (rest.fresh c v);
    }
  where
    seen_in :
        (r t : Distances × List ClassName) (c : ClassName)
        → Visited r.0 p
        → Visits ps r.0 r.1 t
        → IsIn c (p ∷ ps)
        → Visited t.0 c
    seen_in r t c v rest (inl same) = rest.kept c (subst (Visited r.0) same v)
    seen_in r t c v rest (inr m) = rest.seen c m

    earlier :
        (r t : Distances × List ClassName) (c : ClassName)
        → (Visited r.0 c → Visited ds c ⊎ IsIn c r.1)
        → (IsIn c r.1 → IsIn c t.1)
        → Visited r.0 c ⊎ IsIn c t.1
        → Visited ds c ⊎ IsIn c t.1
    earlier r t c before later (inr m) = inr m
    earlier r t c before later (inl v) = elim (before v) [
      | inl old ↦ inl old
      | inr m ↦ inr (later m)
    ]
