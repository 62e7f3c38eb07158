-- ===== src/Transfer/Stack/Words.antt =====
-- The stack instructions of src/solver/transfer/stack.rs on the words of the operand stack, as the
-- instruction set describes them: a value of category two is two words, any other is one.
use ferro_jtype.Prelude.{
  ℕ, zero, suc, ◌+◌, ◌≡◌, refl, ap, Bool, true, false, ◌&&◌, List, [], ◌∷◌, ◌++◌, take, drop,
  if◌then◌else◌, ◌⊎◌, inl, inr, Bool-cases,
}
use ferro_jtype.Frame.{FrameValue}
use ferro_jtype.Frame.Stack
use ferro_jtype.Frame.Stack.Entries.{with_entries}
use ferro_jtype.Transfer.{State, M, Site}
use ferro_jtype.Transfer.Stack.{
  is_category_two, discard, discard_two_slots, duplicate_top, duplicate_x1, duplicate_x2,
  duplicate_two, duplicate_two_x1, duplicate_two_x2, swap,
}

pub data StackOperation : Type 0 where
  pop_one pop_two dup dup_x1 dup_x2 dup_two dup_two_x1 dup_two_x2 swap_two : StackOperation

abbrev pub run : StackOperation → Site → M (Unit {0})
run pop_one = discard
run pop_two = discard_two_slots
run dup = duplicate_top
run dup_x1 = duplicate_x1
run dup_x2 = duplicate_x2
run dup_two = duplicate_two
run dup_two_x1 = duplicate_two_x1
run dup_two_x2 = duplicate_two_x2
run swap_two = swap

pub data Word : Type 0 where
  whole : FrameValue → Word
  upper : FrameValue → Word
  lower : FrameValue → Word

abbrev pub is_wide : FrameValue → Bool
is_wide v = is_category_two v.value

-- The words of a stack, from the top on.
abbrev pub words : List FrameValue → List Word
words [] = []
words (v ∷ vs) =
    let rest = words vs in if is_wide v then upper v ∷ lower v ∷ rest else whole v ∷ rest

abbrev pub copy_under : ℕ → ℕ → List Word → List Word
copy_under n m ws = take (n + m) ws ++ take n ws ++ drop (n + m) ws

abbrev pub swap_words : List Word → List Word
swap_words (a ∷ b ∷ ws) = b ∷ a ∷ ws
swap_words ws = ws

-- What an operation does to the words: `dup_x` of `n` words copies them under `m` more.
abbrev pub effect : StackOperation → List Word → List Word
effect pop_one ws = drop 1 ws
effect pop_two ws = drop 2 ws
effect dup ws = copy_under 1 0 ws
effect dup_x1 ws = copy_under 1 1 ws
effect dup_x2 ws = copy_under 1 2 ws
effect dup_two ws = copy_under 2 0 ws
effect dup_two_x1 ws = copy_under 2 1 ws
effect dup_two_x2 ws = copy_under 2 2 ws
effect swap_two ws = swap_words ws

abbrev both : (ℕ → Bool) → ℕ → Bool
both f zero = false
both f (suc n) = f n

-- The top `n` words are there and are those of whole values.
abbrev pub fits : List FrameValue → ℕ → Bool
fits vs zero = true
fits [] (suc n) = false
fits (v ∷ vs) (suc n) =
    let one = fits vs n in let two = both (fits vs) n in if is_wide v then two else one

-- Where the instruction set lets an operation split the words.
abbrev pub allowed : StackOperation → List FrameValue → Bool
allowed pop_one vs = fits vs 1
allowed pop_two vs = fits vs 2
allowed dup vs = fits vs 1
allowed dup_x1 vs = fits vs 1 && fits vs 2
allowed dup_x2 vs = fits vs 1 && fits vs 3
allowed dup_two vs = fits vs 2
allowed dup_two_x1 vs = fits vs 2 && fits vs 3
allowed dup_two_x2 vs = fits vs 2 && fits vs 4
allowed swap_two vs = fits vs 1 && fits vs 2

-- One value of category one on top, and two words on top.
abbrev pub One : List FrameValue → Type 0
One vs = (v : FrameValue) × (r : List FrameValue) × (vs ≡ v ∷ r) × (is_wide v ≡ false)

abbrev pub Two : List FrameValue → Type 0
Two vs =
    ((v : FrameValue) × (r : List FrameValue) × (vs ≡ v ∷ r) × (is_wide v ≡ true))
    ⊎ (v : FrameValue) × (w : FrameValue) × (r : List FrameValue) × (vs ≡ v ∷ w ∷ r)
      × (is_wide v ≡ false)
      × (is_wide w ≡ false)

pub fits-One : (vs : List FrameValue) → fits vs 1 ≡ true → One vs
fits-One [] e = cc
fits-One (v ∷ vs) e = elim (Bool-cases (is_wide v)) [
  | inl wide ↦ let none_left : false ≡ true = rw wide at e in cc
  | inr narrow ↦ (v, vs, refl, narrow)
]

pub fits-Two : (vs : List FrameValue) → fits vs 2 ≡ true → Two vs
fits-Two [] e = cc
fits-Two (v ∷ vs) e = elim (Bool-cases (is_wide v)) [
  | inl wide ↦ inl (v, vs, refl, wide)
  | inr narrow ↦
      let later : fits vs 1 ≡ true = rw narrow at e in
      let (w, r, same, narrow_too) = fits-One vs later in
      inr (v, w, r, ap (◌∷◌ v) same, narrow, narrow_too)
]

abbrev pub at_entries : State → List FrameValue → State
at_entries s vs = record s { frame = with_entries vs s.frame }

-- The operation gives a frame with other entries, whose words are what the effect says.
abbrev pub IsEffect : StackOperation → Site → State → List FrameValue → Type 0
IsEffect op site s vs =
    (vs' : List FrameValue) × (run op site (at_entries s vs) ≡ (tt, at_entries s vs'))
    × (words vs' ≡ effect op (words vs))

module _ (site : Site) (s : State) where
  pub run-pop_one : (vs : List FrameValue) → One vs → IsEffect pop_one site s vs
  unfolding discard
  run-pop_one vs (v, r, same, e) = rw same (r, refl, rw e refl)

  pub run-pop_two : (vs : List FrameValue) → Two vs → IsEffect pop_two site s vs
  unfolding discard_two_slots
  run-pop_two vs (inl (v, r, same, e)) = rw same (r, rw e refl, rw e refl)
  run-pop_two vs (inr (v, w, r, same, e, f)) = rw same (r, rw e refl, rw (e, f) refl)

  pub run-dup : (vs : List FrameValue) → One vs → IsEffect dup site s vs
  unfolding duplicate_top Stack.push_value
  run-dup vs (v, r, same, e) = rw same (v ∷ v ∷ r, refl, rw e refl)

  pub run-dup_x1 :
      (vs : List FrameValue) (v : FrameValue)
      → is_wide v ≡ false
      → One vs
      → IsEffect dup_x1 site s (v ∷ vs)
  unfolding duplicate_x1 Stack.push_value
  run-dup_x1 vs v d (w, r, same, e) = rw same (v ∷ w ∷ v ∷ r, refl, rw (d, e) refl)

  pub run-dup_x2 :
      (vs : List FrameValue) (v : FrameValue)
      → is_wide v ≡ false
      → Two vs
      → IsEffect dup_x2 site s (v ∷ vs)
  unfolding duplicate_x2 Stack.push_value
  run-dup_x2 vs v d (inl (w, r, same, e)) = rw same (v ∷ w ∷ v ∷ r, rw e refl, rw (d, e) refl)
  run-dup_x2 vs v d (inr (w, x, r, same, e, f)) =
      rw same (v ∷ w ∷ x ∷ v ∷ r, rw e refl, rw (d, e, f) refl)

  pub run-dup_two : (vs : List FrameValue) → Two vs → IsEffect dup_two site s vs
  unfolding duplicate_two Stack.push_value
  run-dup_two vs (inl (v, r, same, e)) = rw same (v ∷ v ∷ r, rw e refl, rw e refl)
  run-dup_two vs (inr (v, w, r, same, e, f)) =
      rw same (v ∷ w ∷ v ∷ w ∷ r, rw e refl, rw (e, f) refl)

  pub wide-dup_two_x1 :
      (vs : List FrameValue) (v : FrameValue)
      → is_wide v ≡ true
      → One vs
      → IsEffect dup_two_x1 site s (v ∷ vs)
  unfolding duplicate_two_x1 Stack.push_value
  wide-dup_two_x1 vs v d (w, r, same, e) = rw same (v ∷ w ∷ v ∷ r, rw d refl, rw (d, e) refl)

  pub pair-dup_two_x1 :
      (vs : List FrameValue) (v w : FrameValue)
      → is_wide v ≡ false
      → is_wide w ≡ false
      → One vs
      → IsEffect dup_two_x1 site s (v ∷ w ∷ vs)
  unfolding duplicate_two_x1 Stack.push_value
  pair-dup_two_x1 vs v w d e (x, r, same, f) =
      rw same (v ∷ w ∷ x ∷ v ∷ w ∷ r, rw d refl, rw (d, e, f) refl)

  pub wide-dup_two_x2 :
      (vs : List FrameValue) (v : FrameValue)
      → is_wide v ≡ true
      → Two vs
      → IsEffect dup_two_x2 site s (v ∷ vs)
  unfolding duplicate_two_x2 Stack.push_value
  wide-dup_two_x2 vs v d (inl (w, r, same, e)) =
      rw same (v ∷ w ∷ v ∷ r, rw (d, e) refl, rw (d, e) refl)
  wide-dup_two_x2 vs v d (inr (w, x, r, same, e, f)) =
      rw same (v ∷ w ∷ x ∷ v ∷ r, rw (d, e) refl, rw (d, e, f) refl)

  pub pair-dup_two_x2 :
      (vs : List FrameValue) (v w : FrameValue)
      → is_wide v ≡ false
      → is_wide w ≡ false
      → Two vs
      → IsEffect dup_two_x2 site s (v ∷ w ∷ vs)
  unfolding duplicate_two_x2 Stack.push_value
  pair-dup_two_x2 vs v w d e (inl (x, r, same, f)) =
      rw same (v ∷ w ∷ x ∷ v ∷ w ∷ r, rw (d, f) refl, rw (d, e, f) refl)
  pair-dup_two_x2 vs v w d e (inr (x, y, r, same, f, g)) =
      rw same (v ∷ w ∷ x ∷ y ∷ v ∷ w ∷ r, rw (d, f) refl, rw (d, e, f, g) refl)

  pub run-swap :
      (vs : List FrameValue) (v : FrameValue)
      → is_wide v ≡ false
      → One vs
      → IsEffect swap_two site s (v ∷ vs)
  unfolding swap Stack.push_value
  run-swap vs v d (w, r, same, e) = rw same (w ∷ v ∷ r, refl, rw (d, e) refl)
