-- ===== src/Frame/Targets/Union.antt =====
-- The merge of return targets in src/solver/frame.rs is the union of the known ones.
use ferro_jtype.Prelude.{
  ℕ, ◌≡◌, refl, ap, ◌∙◌, Bool, true, false, ◌||◌, List, [], ◌∷◌, none, some, any, ◌==◌,
  if◌then◌else◌, arith,
}
use ferro_jtype.Types.Inferred.{InferredType}
use ferro_jtype.Frame.{Targets}
use ferro_jtype.Frame.Targets.{
  set_insert, set_extend, is_return_address, add_targets, merged_return_targets,
}

abbrev pub is_member : ℕ → List ℕ → Bool
is_member n ms = any (◌==◌ n) ms

member-insert : (n k : ℕ) (ms : List ℕ) → is_member n (set_insert k ms) ≡ (n == k || is_member n ms)
member-insert n k [] = refl
member-insert n k (m ∷ ms) = ground (arith, member-insert n k ms)

or_swap : (a b c : Bool) → ((a || b) || c) ≡ (b || (a || c))
or_swap true true c = refl
or_swap true false c = refl
or_swap false b c = refl

or_false : (b : Bool) → b ≡ (b || false)
or_false true = refl
or_false false = refl

member-extend :
    (n : ℕ) (ms ns : List ℕ) → is_member n (set_extend ms ns) ≡ (is_member n ms || is_member n ns)
member-extend n ms [] = or_false (is_member n ms)
member-extend n ms (k ∷ ns) =
    member-extend n (set_insert k ms) ns
    ∙ ap (λ b. b || is_member n ns) (member-insert n k ms)
    ∙ or_swap (n == k) (is_member n ms) (is_member n ns)

-- What a value brings to the union: nothing where it is no return address.
abbrev pub brought : InferredType → Targets → Targets
brought t targets = if is_return_address t then targets else some []

-- The union of two sets is known where both are.
abbrev pub IsUnion : Targets → Targets → Targets → Type 0
IsUnion (some ms) (some ns) r =
    (l : List ℕ) × (r ≡ some l) × ((n : ℕ) → is_member n l ≡ (is_member n ms || is_member n ns))
IsUnion _ _ r = r ≡ none

add_targets-IsUnion :
    (a b : Bool) (m n : Targets)
    → IsUnion
        (if a then m else some [])
        (if b then n else some [])
        (add_targets b n (add_targets a m (some [])))
add_targets-IsUnion true true (some ms) (some ns) = (
  set_extend (set_extend [] ms) ns,
  refl,
  λ n.
      member-extend n (set_extend [] ms) ns ∙ ap (λ b. b || is_member n ns) (member-extend n [] ms),
)
add_targets-IsUnion true true (some ms) none = refl
add_targets-IsUnion true true none (some ns) = refl
add_targets-IsUnion true true none none = refl
add_targets-IsUnion true false (some ms) n =
    (set_extend [] ms, refl, λ k. member-extend k [] ms ∙ or_false (is_member k ms))
add_targets-IsUnion true false none n = refl
add_targets-IsUnion false true m (some ns) = (set_extend [] ns, refl, λ k. member-extend k [] ns)
add_targets-IsUnion false true m none = refl
add_targets-IsUnion false false m n = ([], refl, λ k. refl)

-- Where the merged type is a return address, its targets are unknown if one of the two values is a
-- return address with unknown targets, and otherwise they are a set that holds an offset exactly
-- when the targets of one of the two values that are return addresses hold it.
pub merged_return_targets-IsUnion :
    (existing incoming : InferredType) (m n : Targets) (merged : InferredType)
    → is_return_address merged ≡ true
    → IsUnion
        (brought existing m)
        (brought incoming n)
        (merged_return_targets existing m incoming n merged)
unfolding merged_return_targets
merged_return_targets-IsUnion existing incoming m n merged e =
    rw e (add_targets-IsUnion (is_return_address existing) (is_return_address incoming) m n)
