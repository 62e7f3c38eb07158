-- ===== src/Prelude/Map.antt =====
-- `BTreeMap` with numbers as keys: a list of entries, ascending by key.
pub mod Laws
use Prim.Native.Nat.{ℕ}
use mathlib.Core.List.{List, [], ◌∷◌}
use mathlib.Core.Option.{Option, none, some}
use ferro_jtype.Prelude.Tests.{ltb, ◌==◌, if◌then◌else◌}

module _ {ℓ} {V : Type ℓ} where
  abbrev pub map_get : List (ℕ × V) → ℕ → Option V
  map_get [] k = none
  map_get ((j, v) ∷ entries) k = let later = map_get entries k in if j == k then some v else later

  abbrev pub map_insert : ℕ → V → List (ℕ × V) → List (ℕ × V)
  map_insert k v [] = (k, v) ∷ []
  map_insert k v ((j, w) ∷ entries) =
      let later = map_insert k v entries in
      if ltb k j
      then (k, v) ∷ (j, w) ∷ entries
      else if k == j
      then (k, v) ∷ entries
      else (j, w) ∷ later
