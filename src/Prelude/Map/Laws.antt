-- ===== src/Prelude/Map/Laws.antt =====
-- Lookup after insertion, and predicates on the values of a map.
use ferro_jtype.Prelude.{
  ℕ, ◌≡◌, ◌≢◌, subst, inl, inr, List, [], ◌∷◌, some, All, ◌==◌, Bool-cases, arith,
}
use ferro_jtype.Prelude.Map.{map_get, map_insert}

module _ {V : Type 0} where
  pub map_get-map_insert :
      (k : ℕ) (v : V) (m : List (ℕ × V)) → map_get (map_insert k v m) k ≡ some v
  map_get-map_insert k v [] = ground arith
  map_get-map_insert k v ((j, w) ∷ m) = ground (arith, map_get-map_insert k v m)

  pub map_get-other :
      (k : ℕ) (v : V) (m : List (ℕ × V)) (j : ℕ)
      → j ≢ k
      → map_get (map_insert k v m) j ≡ map_get m j
  map_get-other k v [] j h = ground arith
  map_get-other k v ((i, w) ∷ m) j h = ground (arith, map_get-other k v m j h)

  pub All-map_insert :
      (P : V → Type 0) (k : ℕ) (v : V) (m : List (ℕ × V))
      → P v
      → All (λ (e : ℕ × V). P e.1) m
      → All (λ (e : ℕ × V). P e.1) (map_insert k v m)
  All-map_insert P k v [] p h = (p, tt)
  All-map_insert P k v ((j, w) ∷ m) p (q, h) = ground (arith, All-map_insert P k v m p h)

  pub All-map_get :
      (P : V → Type 0) (m : List (ℕ × V)) (k : ℕ) (v : V)
      → All (λ (e : ℕ × V). P e.1) m
      → map_get m k ≡ some v
      → P v
  All-map_get P [] k v h e = cc
  All-map_get P ((j, w) ∷ m) k v (q, h) e = elim (Bool-cases (j == k)) [
    | inl same ↦
        let found : some w ≡ some v = rw same at e in let held : w ≡ v = cc in subst P held q
    | inr differs ↦
        let later : map_get m k ≡ some v = rw differs at e in All-map_get P m k v h later
  ]
