-- ===== src/Cfg/Build/Successors.antt =====
-- The successors of an instruction in src/cfg/build.rs, and the blocks that they resolve to.
use ferro_jtype.Prelude.{
  ℕ, zero, suc, ◌<◌, ◌≡◌, refl, ap, ◌↔◌, ◌⊎◌, inl, inr, Bool, true, false, List, [], ◌∷◌, Option,
  none, some, get_elem?, Bool-cases, lt→ltb, ltb, if◌then◌else◌, ◌||◌, arith,
}
use ferro_jtype.Prelude.Int.{ℤ, pos, negsuc}
use ferro_jtype.Prelude.Map.{map_get}
use ferro_jtype.Prelude.Members.{IsIn, IsAscending}
use ferro_jtype.Ir.{InstructionOperandIr, branch, table_switch, lookup_switch}
use ferro_jtype.Opcodes.{Opcodes}
use ferro_jtype.Cfg.{Edge, EdgeKind, OffsetMap}
use ferro_jtype.Cfg.Opcode.{terminates_execution, is_ret}
use ferro_jtype.Cfg.Offsets.{numbered, numbered-index, index-numbered, get_elem?-above}
use ferro_jtype.Cfg.Edges.{Successors, resolve_block, next_key, falling, switching, successors_of}
use ferro_jtype.Cfg.Edges.Members.{Leads}
use ferro_jtype.Cfg.Starts.{targets_of, second_of_each}

pub Leads-iff :
    (blocks : OffsetMap) (e : Edge) (l : Successors)
    → Leads blocks e l ↔ ((t : ℤ) × IsIn (t, e.kind) l × (resolve_block blocks t ≡ some e.target))
Leads-iff blocks e [] = (λ m. absurd m, λ (t, m, _). absurd m)
Leads-iff blocks e ((target, kind) ∷ l) = (
  λ m. elim m [
    | inl (to, same) ↦ (target, inl (λ j. (target, same j)), to)
    | inr m' ↦ let (t, there, to) = (Leads-iff blocks e l).0 m' in (t, inr there, to)
  ],
  λ (t, m, to). elim m [
    | inl same ↦
        let is_t : t ≡ target = ap (λ (p : ℤ × EdgeKind). p.0) same in
        let to' : resolve_block blocks target ≡ some e.target = rw is_t at to in
        inl (to', ap (λ (p : ℤ × EdgeKind). p.1) same)
    | inr there ↦ inr ((Leads-iff blocks e l).1 (t, there, to))
  ],
)

pub resolve_block-numbered :
    (starts : List ℕ) (t : ℤ) (id : ℕ)
    → resolve_block (numbered 0 starts) t ≡ some id
    → (n : ℕ) × (t ≡ pos n) × (get_elem? starts id ≡ some n)
unfolding resolve_block
resolve_block-numbered starts (negsuc n) id e = cc
resolve_block-numbered starts (pos n) id e = elim (Bool-cases (ltb n 65536)) [
  | inl small ↦
      let found : map_get (numbered 0 starts) n ≡ some id = rw small at e in
      (n, refl, index-numbered starts id n found)
  | inr large ↦ let nothing : none ≡ some id = rw large at e in cc
]

pub numbered-resolve_block :
    (starts : List ℕ) (n id : ℕ)
    → IsAscending starts
    → n < 65536
    → get_elem? starts id ≡ some n
    → resolve_block (numbered 0 starts) (pos n) ≡ some id
unfolding resolve_block
numbered-resolve_block starts n id asc small at =
    rw (lt→ltb n 65536 small) (numbered-index starts id n asc at)

falling-target :
    (next : Option ℕ) (t : ℤ) (kind : EdgeKind)
    → IsIn (t, kind) (falling next)
    → (n : ℕ) × (next ≡ some n) × (t ≡ pos n)
falling-target none t kind m = absurd m
falling-target (some n) t kind (inl e) = (n, refl, ap (λ (p : ℤ × EdgeKind). p.0) e)
falling-target (some n) t kind (inr m) = absurd m

switching-target :
    (targets : List ℤ) (t : ℤ) (kind : EdgeKind)
    → IsIn (t, kind) (switching targets)
    → IsIn t targets
switching-target [] t kind m = absurd m
switching-target (u ∷ targets) t kind (inl e) = inl (ap (λ (p : ℤ × EdgeKind). p.0) e)
switching-target (u ∷ targets) t kind (inr m) = inr (switching-target targets t kind m)

-- A successor is a target of the operand or the next instruction.
abbrev Arrives : List ℤ → Option ℕ → ℤ → Type 0
Arrives targets next t = IsIn t targets ⊎ (n : ℕ) × (next ≡ some n) × (t ≡ pos n)

plain-Arrives :
    (b : Bool) (targets : List ℤ) (next : Option ℕ) (t : ℤ) (kind : EdgeKind)
    → IsIn (t, kind) (if b then [] else falling next)
    → Arrives targets next t
plain-Arrives true targets next t kind m = absurd m
plain-Arrives false targets next t kind m = inr (falling-target next t kind m)

module _ (op : Opcodes) where
  branch-Arrives :
      (b c : Bool) (target : ℤ) (next : Option ℕ) (t : ℤ) (kind : EdgeKind)
      → IsIn
          (t, kind)
          (if b
            then (target, EdgeKind.branch) ∷ []
            else if c
            then (target, EdgeKind.branch) ∷ []
            else (target, EdgeKind.branch) ∷ falling next)
      → Arrives (target ∷ []) next t
  branch-Arrives true c target next t kind (inl e) = inl (inl (ap (λ (p : ℤ × EdgeKind). p.0) e))
  branch-Arrives true c target next t kind (inr m) = absurd m
  branch-Arrives false true target next t kind (inl e) =
      inl (inl (ap (λ (p : ℤ × EdgeKind). p.0) e))
  branch-Arrives false true target next t kind (inr m) = absurd m
  branch-Arrives false false target next t kind (inl e) =
      inl (inl (ap (λ (p : ℤ × EdgeKind). p.0) e))
  branch-Arrives false false target next t kind (inr m) = inr (falling-target next t kind m)

  switch-Arrives :
      (target : ℤ) (targets : List ℤ) (next : Option ℕ) (t : ℤ) (kind : EdgeKind)
      → IsIn (t, kind) ((target, EdgeKind.switch) ∷ switching targets)
      → Arrives (target ∷ targets) next t
  switch-Arrives target targets next t kind (inl e) = inl (inl (ap (λ (p : ℤ × EdgeKind). p.0) e))
  switch-Arrives target targets next t kind (inr m) = inl (inr (switching-target targets t kind m))

  pub successors_of-Arrives :
      (opcode : ℕ) (operand : InstructionOperandIr) (next : Option ℕ) (t : ℤ) (kind : EdgeKind)
      → IsIn (t, kind) (successors_of op opcode operand next)
      → Arrives (targets_of operand) next t
  successors_of-Arrives opcode (branch target) next t kind m =
      branch-Arrives _ _ target next t kind m
  successors_of-Arrives opcode (table_switch target targets) next t kind m =
      switch-Arrives target targets next t kind m
  successors_of-Arrives opcode (lookup_switch target targets) next t kind m =
      switch-Arrives target (second_of_each targets) next t kind m
  successors_of-Arrives opcode operand next t kind m =
      plain-Arrives (terminates_execution op opcode || is_ret op opcode) (targets_of operand) next t
        kind m

-- The key after an offset is the offset of the next instruction.
pub next_key-numbered :
    (i : ℕ) (offsets : List ℕ) (d o n : ℕ)
    → IsAscending offsets
    → get_elem? offsets d ≡ some o
    → next_key (numbered i offsets) o ≡ some n
    → get_elem? offsets (suc d) ≡ some n
next_key-numbered i [] d o n asc at e = cc
next_key-numbered i (p ∷ []) zero o n asc at e = ground arith
next_key-numbered i (p ∷ q ∷ os) zero o n ((lt, _), asc) at e = ground arith
next_key-numbered i (p ∷ os) (suc d) o n (above, asc) at e =
    ground (arith, next_key-numbered (suc i) os d o n asc at, get_elem?-above p os d o above at)
