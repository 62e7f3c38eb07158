-- ===== src/Cfg/Build/Partition.antt =====
-- The blocks that src/cfg/build.rs makes of ascending starts lie one after another.
use ferro_jtype.Prelude.{
  ℕ, zero, suc, ◌+◌, ◌-◌, ◌<◌, ◌≤◌, ◌≡◌, refl, ap, ◌⊎◌, inl, inr, subst, List, [], ◌∷◌, ◌++◌,
  Option, some, All, length, get_elem?, take, drop, map, arith,
}
use ferro_jtype.Prelude.Chain.{◌>>=◌}
use ferro_jtype.Prelude.Members.{IsIn, IsAscending, IsIn-All}
use ferro_jtype.Cfg.{BasicBlock}
use ferro_jtype.Cfg.Offsets.{numbered, numbered-index, IsIn-get_elem?, get_elem?-lt}
use ferro_jtype.Cfg.Build.{blocks_between, new_block, slice}

-- The instructions of the blocks, one block after another; `none` where a range is out of bounds.
abbrev pub bodies {ℓ} : {A : Type ℓ} → List A → List BasicBlock → Option (List A)
bodies is [] = some []
bodies is (b ∷ bs) = do
  body ← slice is b.instruction_range
  rest ← bodies is bs
  some (body ++ rest)

module _ {ℓ} {A : Type ℓ} where
  take_nil : (n : ℕ) → take {A = A} n [] ≡ []
  take_nil zero = refl
  take_nil (suc n) = refl

  take-append_drop :
      (a n m : ℕ) (xs : List A) → m ≡ a + n → take n (drop a xs) ++ drop m xs ≡ drop a xs
  take-append_drop zero zero zero xs e = refl
  take-append_drop zero (suc n) (suc m) [] e = refl
  take-append_drop zero (suc n) (suc m) (x ∷ xs) e =
      ap (λ l. x ∷ l) (take-append_drop zero n m xs (omega arith))
  take-append_drop (suc a) n (suc m) [] e = rw (take_nil n) refl
  take-append_drop (suc a) n (suc m) (x ∷ xs) e = take-append_drop a n m xs (omega arith)
  take-append_drop zero zero (suc m) xs e = absurd (omega arith)
  take-append_drop zero (suc n) zero xs e = absurd (omega arith)
  take-append_drop (suc a) n zero xs e = absurd (omega arith)

  drop-length : (xs : List A) → drop (length xs) xs ≡ []
  drop-length [] = refl
  drop-length (x ∷ xs) = drop-length xs

  pub get_elem?-lt-length : (xs : List A) (i : ℕ) (x : A) → get_elem? xs i ≡ some x → i < length xs
  get_elem?-lt-length [] i x e = cc
  get_elem?-lt-length (y ∷ ys) zero x e = omega arith
  get_elem?-lt-length (y ∷ ys) (suc i) x e = omega (arith, get_elem?-lt-length ys i x e)

-- A block of a method with the given offsets: its range lies within them and begins at its start.
-- No start lies inside of it, and what comes after it is a start.
pub record IsBlock (offsets starts : List ℕ) (b : BasicBlock) : Type 0 where
  pub begins : get_elem? offsets b.instruction_range.start ≡ some b.start_offset
  pub has_instruction : b.instruction_range.start < b.instruction_range.stop
  pub ends : b.instruction_range.stop ≤ length offsets
  pub followed : (t : ℕ) → get_elem? offsets b.instruction_range.stop ≡ some t → IsIn t starts
  pub undivided :
      (t j : ℕ)
      → IsIn t starts
      → get_elem? offsets j ≡ some t
      → (j ≤ b.instruction_range.start) ⊎ (b.instruction_range.stop ≤ j)

abbrev pub HasNoEdge : BasicBlock → Type 0
HasNoEdge b = (b.successors ≡ []) × (b.exception_successors ≡ [])

-- The blocks that cover a list from an index on.
pub record Cover {A : Type 0} (is : List A) (offsets all starts : List ℕ) (i : ℕ)
    (blocks : List BasicBlock) : Type 0 where
  pub covered : bodies is blocks ≡ some (drop i is)
  pub each_block : All (IsBlock offsets all) blocks
  pub unconnected : All HasNoEdge blocks
  pub begin_at : map (λ (b : BasicBlock). b.start_offset) blocks ≡ starts

pub slice_within :
    {A : Type 0} (xs : List A) (i j : ℕ)
    → i ≤ j
    → j ≤ length xs
    → slice xs (record { start = i; stop = j }) ≡ some (take (j - i) (drop i xs))
slice_within xs i j h k = ground arith

module _ {A : Type 0} (is : List A) (offsets : List ℕ) (same : length is ≡ length offsets) where
  add_body :
      (i j : ℕ) (blocks : List BasicBlock) (s : ℕ)
      → i ≤ j
      → j ≤ length is
      → bodies is blocks ≡ some (drop j is)
      → bodies is (new_block s i j ∷ blocks) ≡ some (drop i is)
  add_body i j blocks s h k rest =
      rw (slice_within is i j h k, rest) (ap some (take-append_drop i (j - i) j is (omega arith)))

  no_element_at_length : (t : ℕ) → get_elem? offsets (length is) ≡ some t → ⊥
  no_element_at_length t e = absurd (omega (arith, get_elem?-lt-length offsets (length is) t e))

  module _ (all : List ℕ) (asc : IsAscending offsets) where
    not_later :
        (s i t j : ℕ) → get_elem? offsets i ≡ some s → get_elem? offsets j ≡ some t → t ≤ s → j ≤ i
    not_later s i t j hi hj h = ground (arith, get_elem?-lt offsets i j s t asc hi hj)

    -- A start is not before the first of the ascending starts that it is one of.
    not_earlier :
        (s t : ℕ) (starts : List ℕ) → IsAscending (s ∷ starts) → IsIn t (s ∷ starts) → s ≤ t
    not_earlier s t starts h (inl e) = omega arith
    not_earlier s t starts (below, h) (inr m) =
        let lt = IsIn-All (λ k. s < k) t starts below m in omega arith

    last_undivided :
        (s i : ℕ)
        → get_elem? offsets i ≡ some s
        → ((t : ℕ) → IsIn t all → (t ≤ s) ⊎ IsIn t [])
        → (t j : ℕ) → IsIn t all
        → get_elem? offsets j ≡ some t
        → (j ≤ i) ⊎ (length is ≤ j)
    last_undivided s i at split t j m e = elim (split t m) [
      | inl le ↦ inl (not_later s i t j at e le)
      | inr m' ↦ absurd m'
    ]

    next_undivided :
        (s i s' i' : ℕ) (starts : List ℕ)
        → get_elem? offsets i ≡ some s
        → get_elem? offsets i' ≡ some s'
        → IsAscending (s' ∷ starts)
        → ((t : ℕ) → IsIn t all → (t ≤ s) ⊎ IsIn t (s' ∷ starts))
        → (t j : ℕ) → IsIn t all
        → get_elem? offsets j ≡ some t
        → (j ≤ i) ⊎ (i' ≤ j)
    next_undivided s i s' i' starts at at' h split t j m e = elim (split t m) [
      | inl le ↦ inl (not_later s i t j at e le)
      | inr m' ↦ inr (not_later t j s' i' e at' (not_earlier s' t starts h m'))
    ]

    split_next :
        (s s' : ℕ) (starts : List ℕ)
        → s < s'
        → ((t : ℕ) → IsIn t all → (t ≤ s) ⊎ IsIn t (s' ∷ starts))
        → (t : ℕ) → IsIn t all
        → (t ≤ s') ⊎ IsIn t starts
    split_next s s' starts lt split t m = elim (split t m) [
      | inl le ↦ inl (omega arith)
      | inr (inl e) ↦ inl (omega arith)
      | inr (inr m') ↦ inr m'
    ]

    pub blocks_between-Cover :
        (s : ℕ) (starts : List ℕ) (i : ℕ)
        → IsAscending (s ∷ starts)
        → All (λ t. IsIn t offsets) starts
        → All (λ t. IsIn t all) starts
        → ((t : ℕ) → IsIn t all → (t ≤ s) ⊎ IsIn t starts)
        → get_elem? offsets i ≡ some s
        → (blocks : List BasicBlock) × (blocks_between (numbered 0 offsets) (length is) (s ∷ starts)
            ≡ some blocks)
          × Cover is offsets all (s ∷ starts) i blocks
    blocks_between-Cover s [] i h m ms split at =
        let found = numbered-index offsets i s asc at in
        let below = get_elem?-lt-length offsets i s at in
        let nothing : some [] ≡ some (drop (length is) is) = rw (drop-length is) refl in
        (
          new_block s i (length is) ∷ [],
          rw (found, blocks_between) refl,
          record {
            covered = add_body i (length is) [] s (omega arith) (omega arith) nothing;
            each_block = (
              record {
                begins = at;
                has_instruction = omega arith;
                ends = omega arith;
                followed = λ t e. absurd (no_element_at_length t e);
                undivided = last_undivided s i at split;
              },
              tt,
            );
            unconnected = ((refl, refl), tt);
            begin_at = refl;
          },
        )
    blocks_between-Cover s (t ∷ starts) i ((lt, _), h) (m, ms) (n, ns) split at =
        let (j, next) = IsIn-get_elem? t offsets m in
        let later = get_elem?-lt offsets i j s t asc at next in
        let (blocks, made, c) =
          blocks_between-Cover t starts j h ms ns (split_next s t starts lt split) next in
        let found = numbered-index offsets i s asc at in
        let found_next = numbered-index offsets j t asc next in
        let below = get_elem?-lt-length offsets j t next in
        let i_j : i < j = later.0 lt in
        (
          new_block s i j ∷ blocks,
          rw (found, made, found_next, blocks_between) refl,
          record {
            covered = add_body i j blocks s (omega arith) (omega arith) c.covered;
            each_block = (
              record {
                begins = at;
                has_instruction = i_j;
                ends = omega arith;
                followed = λ k e. let same : t ≡ k = cc in subst (λ x. IsIn x all) same n;
                undivided = next_undivided s i t j starts at next h split;
              },
              c.each_block,
            );
            unconnected = ((refl, refl), c.unconnected);
            begin_at = ap (λ l. s ∷ l) c.begin_at;
          },
        )
