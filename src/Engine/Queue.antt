-- ===== src/Engine/Queue.antt =====
-- `Worklist` of src/solver/engine/propagate.rs: a queue that holds each block once.
use ferro_jtype.Prelude.{
  ℕ, ◌≡◌, sym, ◌∙◌, ◌↔◌, ◌⊎◌, inl, inr, ap, subst, Bool, true, false, List, [], ◌∷◌, ◌++◌, Option,
  none, some, any, ◌==◌, if◌then◌else◌, Bool-cases, arith,
}
use ferro_jtype.Prelude.Members.{IsIn, IsDistinct, IsIn-append, append-IsDistinct}
use ferro_jtype.Frame.Targets.{set_insert}
use ferro_jtype.Cfg.{BlockId}
use ferro_jtype.Cfg.Edges.Members.{some-injective}
use ferro_jtype.Cfg.Offsets.{IsIn-set_insert}
use ferro_jtype.Engine.{Worklist}

abbrev pub new : BlockId → Worklist
new entry = record { queue = entry ∷ []; queued = entry ∷ [] }

-- `HashSet::remove`
abbrev pub set_remove : ℕ → List ℕ → List ℕ
set_remove n [] = []
set_remove n (m ∷ ms) = let later = set_remove n ms in if n == m then later else m ∷ later

abbrev pub pop_from : List BlockId → List BlockId → Option (BlockId × Worklist)
pop_from [] queued = none
pop_from (block ∷ queue) queued =
    some (block, record { queue = queue; queued = set_remove block queued })

unfoldable pub pop : Worklist → Option (BlockId × Worklist)
pop w = pop_from w.queue w.queued

abbrev pub contains : ℕ → List ℕ → Bool
contains n ms = any (◌==◌ n) ms

unfoldable pub enqueue : BlockId → Worklist → Worklist
enqueue block w =
    if contains block w.queued
    then w
    else record { queue = w.queue ++ block ∷ []; queued = set_insert block w.queued }

-- The set has the blocks of the queue, and the queue has each once.
pub record IsQueue (w : Worklist) : Type 0 where
  pub once : IsDistinct w.queue
  pub same : (n : ℕ) → IsIn n w.queue ↔ IsIn n w.queued

contains-IsIn : (n : ℕ) (ms : List ℕ) → (contains n ms ≡ true) ↔ IsIn n ms
contains-IsIn n [] = ground arith
contains-IsIn n (m ∷ ms) = ground (arith, contains-IsIn n ms)

IsIn-set_remove : (x n : ℕ) (ms : List ℕ) → IsIn x (set_remove n ms) ↔ (¬ (x ≡ n) × IsIn x ms)
IsIn-set_remove x n [] = ground arith
IsIn-set_remove x n (m ∷ ms) = ground (arith, IsIn-set_remove x n ms)

pub new-IsQueue : (entry : BlockId) → IsQueue (new entry)
new-IsQueue entry = record { once = (λ m. m, tt); same = λ n. (λ m. m, λ m. m) }

pub IsIn-enqueue :
    (block n : BlockId) (w : Worklist)
    → IsQueue w
    → IsIn n (enqueue block w).queue ↔ (IsIn n w.queue ⊎ (n ≡ block))
unfolding enqueue
IsIn-enqueue block n w q = elim (Bool-cases (contains block w.queued)) [
  | inl there ↦ rw there (
    inl,
    λ either. elim either [
      | inl m ↦ m
      | inr e ↦
          subst (λ x. IsIn x w.queue) (sym e)
            ((q.same block).1 ((contains-IsIn block w.queued).0 there))
    ],
  )
  | inr missing ↦ rw missing (ground (arith, IsIn-append n w.queue (block ∷ [])))
]

pub enqueue-IsQueue : (block : BlockId) (w : Worklist) → IsQueue w → IsQueue (enqueue block w)
unfolding enqueue
enqueue-IsQueue block w q = elim (Bool-cases (contains block w.queued)) [
  | inl there ↦ rw there q
  | inr missing ↦
      let absent : ¬ (IsIn block w.queue) = λ m.
        true-ne-false (sym ((contains-IsIn block w.queued).1 ((q.same block).0 m)) ∙ missing) in
      rw missing (record {
        once = append-IsDistinct block w.queue absent q.once;
        same = λ n.
            ground (
              arith,
              IsIn-append n w.queue (block ∷ []),
              IsIn-set_insert n block w.queued,
              q.same n,
            );
      })
]
  where
    true-ne-false : ¬ (true ≡ false)
    true-ne-false e = cc

pub rest-IsQueue :
    (block : BlockId) (queue queued : List BlockId)
    → IsQueue (record { queue = block ∷ queue; queued = queued })
    → IsQueue (record { queue = queue; queued = set_remove block queued })
rest-IsQueue block queue queued q = record {
  once = q.once.1;
  same = λ n. (
    λ m.
        (IsIn-set_remove n block queued).1
          ((λ e. q.once.0 (subst (λ x. IsIn x queue) e m)), (q.same n).0 (inr m)),
    λ m.
        let (differs, there) = (IsIn-set_remove n block queued).0 m in
        elim ((q.same n).1 there) [ inl e ↦ absurd (differs e) | inr m' ↦ m' ],
  );
}

pub pop-IsQueue :
    (w w' : Worklist) (block : BlockId) → pop w ≡ some (block, w') → IsQueue w → IsQueue w'
unfolding pop
pop-IsQueue w w' block e q = popped w.queue w.queued q e
  where
    popped :
        (queue queued : List BlockId)
        → IsQueue (record { queue = queue; queued = queued })
        → pop_from queue queued ≡ some (block, w')
        → IsQueue w'
    popped [] queued q e = cc
    popped (b ∷ queue) queued q e =
        let rest : Worklist = record { queue = queue; queued = set_remove b queued } in
        let same : rest ≡ w' = ap (λ (p : BlockId × Worklist). p.1) (some-injective e) in
        subst IsQueue same (rest-IsQueue b queue queued q)
