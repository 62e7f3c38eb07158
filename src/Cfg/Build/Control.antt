-- ===== src/Cfg/Build/Control.antt =====
-- The blocks of src/cfg/build.rs against the flow of control between instructions that the Java
-- Virtual Machine Specification describes.
use ferro_jtype.Prelude.{
  ℕ, zero, suc, ◌<◌, ◌≤◌, ◌≡◌, refl, sym, subst, ◌⊎◌, inl, inr, Bool, true, false, not, ◌||◌, List,
  [], ◌∷◌, Option, some, All, get_elem?, ◌==◌, if◌then◌else◌, arith,
}
use ferro_jtype.Prelude.Int.{ℤ, pos}
use ferro_jtype.Prelude.Members.{IsIn, IsAscending, IsIn-All, get_elem?-IsIn}
use ferro_jtype.Ir.{
  MethodIr, InstructionIr, InstructionOperandIr, branch, table_switch, lookup_switch,
}
use ferro_jtype.Opcodes.{Opcodes, jvm, IsJvm, is_within}
use ferro_jtype.Cfg.{EdgeKind, fall_through, switch, Edge, BasicBlock}
use ferro_jtype.Cfg.Opcode.{
  ends_block, terminates_execution, is_unconditional_branch, is_subroutine_branch, is_ret,
}
use ferro_jtype.Cfg.Offsets.{numbered, get_elem?-above}
use ferro_jtype.Cfg.Starts.{offsets_of, second_of_each}
use ferro_jtype.Cfg.Edges.{next_key, successors_of, falling, switching, ordinary_successors}
use ferro_jtype.Cfg.Build.{CfgBuildResult, positions_of, element_before, build_cfg}
use ferro_jtype.Cfg.Build.Starting.{IsSequence, positions-numbered}
use ferro_jtype.Cfg.Build.Correct.{StartsAt, ends_block-last, offset_at}
use ferro_jtype.Cfg.Build.Flow.{ordinary_successors-edge}

-- The instructions after which the next one can run: all but `goto`, `jsr`, `ret`, the switches, the
-- returns, `athrow`, `goto_w` and `jsr_w`.
abbrev pub falls_through : ℕ → Bool
falls_through opcode =
    not (is_within 167 177 opcode || opcode == 191 || opcode == 200 || opcode == 201)

-- The offsets to which an instruction can pass control, but by an exception or by `ret`. `next` is the
-- offset of the instruction after it.
pub data Flow (opcode : ℕ) (arg : InstructionOperandIr) (next : Option ℕ)
    : ℕ → EdgeKind → Type 0 where
  jumps : {n : ℕ} → arg ≡ branch (pos n) → Flow opcode arg next n EdgeKind.branch
  by_table :
      {n : ℕ} {d : ℤ} {ts : List ℤ}
      → arg ≡ table_switch d ts
      → IsIn (pos n) (d ∷ ts)
      → Flow opcode arg next n switch
  by_lookup :
      {n : ℕ} {d : ℤ} {ts : List (ℤ × ℤ)}
      → arg ≡ lookup_switch d ts
      → IsIn (pos n) (d ∷ second_of_each ts)
      → Flow opcode arg next n switch
  falls :
      {n : ℕ} → falls_through opcode ≡ true → next ≡ some n → Flow opcode arg next n fall_through

-- The operands that jump stand at the opcodes that have them: `ifeq` to `jsr` and `ifnull` to `jsr_w`
-- have a branch, 170 and 171 are the switches.
abbrev pub IsDecoded : ℕ → InstructionOperandIr → Type 0
IsDecoded opcode (branch t) = (is_within 153 168 opcode || is_within 198 201 opcode) ≡ true
IsDecoded opcode (table_switch d ts) = opcode ≡ 170
IsDecoded opcode (lookup_switch d ts) = opcode ≡ 171
IsDecoded opcode _ = Unit

jump_ends :
    (opcode : ℕ)
    → (is_within 153 168 opcode || is_within 198 201 opcode) ≡ true
    → ends_block jvm opcode ≡ true
unfolding ends_block
jump_ends opcode e = ground arith

switch_ends : (opcode : ℕ) → (opcode ≡ 170) ⊎ (opcode ≡ 171) → ends_block jvm opcode ≡ true
unfolding ends_block
switch_ends opcode (inl e) = rw e refl
switch_ends opcode (inr e) = rw e refl

not_unconditional :
    (opcode : ℕ)
    → falls_through opcode ≡ true
    → (is_unconditional_branch jvm opcode ≡ false) × (is_subroutine_branch jvm opcode ≡ false)
unfolding is_unconditional_branch is_subroutine_branch
not_unconditional opcode e = (ground arith, ground arith)

not_terminating :
    (opcode : ℕ)
    → falls_through opcode ≡ true
    → (terminates_execution jvm opcode || is_ret jvm opcode) ≡ false
unfolding terminates_execution is_ret
not_terminating opcode e = ground arith

IsIn-switching : (t : ℤ) (ts : List ℤ) → IsIn t ts → IsIn (t, switch) (switching ts)
IsIn-switching t [] m = absurd m
IsIn-switching t (u ∷ ts) (inl e) = inl (rw e refl)
IsIn-switching t (u ∷ ts) (inr m) = inr (IsIn-switching t ts m)

jump-successor :
    (b c : Bool) (t : ℤ) (next : Option ℕ)
    → IsIn
        (t, EdgeKind.branch)
        (if b
          then (t, EdgeKind.branch) ∷ []
          else if c
          then (t, EdgeKind.branch) ∷ []
          else (t, EdgeKind.branch) ∷ falling next)
jump-successor true c t next = inl refl
jump-successor false true t next = inl refl
jump-successor false false t next = inl refl

falls-successor :
    (opcode : ℕ) (arg : InstructionOperandIr) (n : ℕ)
    → IsDecoded opcode arg
    → falls_through opcode ≡ true
    → IsIn (pos n, fall_through) (successors_of jvm opcode arg (some n))
falls-successor opcode (branch t) n d e =
    let (goto, jsr) = not_unconditional opcode e in rw (goto, jsr) (inr (inl refl))
falls-successor opcode (table_switch t ts) n d e =
    let at : falls_through 170 ≡ true = subst (λ o. falls_through o ≡ true) d e in cc
falls-successor opcode (lookup_switch t ts) n d e =
    let at : falls_through 171 ≡ true = subst (λ o. falls_through o ≡ true) d e in cc
falls-successor opcode _ n d e = rw (not_terminating opcode e) (inl refl)

-- What an instruction can pass control to is one of its successors.
Flow-successors_of :
    (opcode : ℕ) (arg : InstructionOperandIr) (next : Option ℕ) (n : ℕ) (kind : EdgeKind)
    → IsDecoded opcode arg
    → Flow opcode arg next n kind
    → IsIn (pos n, kind) (successors_of jvm opcode arg next)
Flow-successors_of opcode arg next n _ d (jumps e) =
    subst (λ o. IsIn (pos n, EdgeKind.branch) (successors_of jvm opcode o next)) (sym e)
      (jump-successor (is_unconditional_branch jvm opcode) (is_subroutine_branch jvm opcode) (pos n)
        next)
Flow-successors_of opcode arg next n _ d (by_table {d = t} {ts = ts} e m) =
    subst (λ o. IsIn (pos n, switch) (successors_of jvm opcode o next)) (sym e)
      (IsIn-switching (pos n) (t ∷ ts) m)
Flow-successors_of opcode arg next n _ d (by_lookup {d = t} {ts = ts} e m) =
    subst (λ o. IsIn (pos n, switch) (successors_of jvm opcode o next)) (sym e)
      (IsIn-switching (pos n) (t ∷ second_of_each ts) m)
Flow-successors_of opcode arg next n _ d (falls e at) =
    subst (λ o. IsIn (pos n, fall_through) (successors_of jvm opcode arg o)) (sym at)
      (falls-successor opcode arg n d e)

-- An instruction that does not end a block passes control to the next one only.
Flow-next :
    (opcode : ℕ) (arg : InstructionOperandIr) (next : Option ℕ) (n : ℕ) (kind : EdgeKind)
    → IsDecoded opcode arg
    → ends_block jvm opcode ≡ false
    → Flow opcode arg next n kind
    → (kind ≡ fall_through) × (next ≡ some n)
Flow-next opcode arg next n _ d goes_on (falls e at) = (refl, at)
Flow-next opcode arg next n _ d goes_on (jumps e) =
    let ends = jump_ends opcode (subst (IsDecoded opcode) e d) in cc
Flow-next opcode arg next n _ d goes_on (by_table e m) =
    let ends = switch_ends opcode (inl (subst (IsDecoded opcode) e d)) in cc
Flow-next opcode arg next n _ d goes_on (by_lookup e m) =
    let ends = switch_ends opcode (inr (subst (IsDecoded opcode) e d)) in cc

-- Only the offset of the next instruction, where there is one, counts.
Flow-with :
    (opcode : ℕ) (arg : InstructionOperandIr) (next known : Option ℕ) (n : ℕ) (kind : EdgeKind)
    → ((m : ℕ) → next ≡ some m → known ≡ some m)
    → Flow opcode arg next n kind
    → Flow opcode arg known n kind
Flow-with opcode arg next known n _ same (jumps e) = jumps e
Flow-with opcode arg next known n _ same (by_table e m) = by_table e m
Flow-with opcode arg next known n _ same (by_lookup e m) = by_lookup e m
Flow-with opcode arg next known n _ same (falls {n = t} e at) = falls e (same t at)

next_key-next :
    (i : ℕ) (offsets : List ℕ) (d o n : ℕ)
    → IsAscending offsets
    → get_elem? offsets d ≡ some o
    → get_elem? offsets (suc d) ≡ some n
    → next_key (numbered i offsets) o ≡ some n
next_key-next i [] d o n asc at e = cc
next_key-next i (p ∷ []) zero o n asc at e = cc
next_key-next i (p ∷ q ∷ os) zero o n ((lt, _), asc) at e = ground arith
next_key-next i (p ∷ os) (suc d) o n (above, asc) at e =
    ground (arith, next_key-next (suc i) os d o n asc at e, get_elem?-above p os d o above at)

module _ (op : Opcodes) (at_jvm : IsJvm op) (method : MethodIr)
    (seq : IsSequence method.instructions)
    (decoded : All (λ (i : InstructionIr). IsDecoded i.opcode i.operand) method.instructions)
    (r : CfgBuildResult) (made : build_cfg op method ≡ some r) where
  next_offset :
      (k n : ℕ) (i : InstructionIr)
      → get_elem? method.instructions k ≡ some i
      → get_elem? (offsets_of method.instructions) (suc k) ≡ some n
      → next_key (positions_of method.instructions) i.offset ≡ some n
  next_offset k n i at next = rw (positions-numbered method.instructions seq) (
      next_key-next 0 (offsets_of method.instructions) k i.offset n seq.ascending
        (offset_at op method seq r made k i at) next)

  IsDecoded-at :
      (k : ℕ) (i : InstructionIr)
      → get_elem? method.instructions k ≡ some i
      → IsDecoded i.opcode i.operand
  IsDecoded-at k i at =
      IsIn-All (λ (i : InstructionIr). IsDecoded i.opcode i.operand) i method.instructions decoded
        (get_elem?-IsIn method.instructions k i at)

  successor :
      (k n : ℕ) (i : InstructionIr) (kind : EdgeKind)
      → get_elem? method.instructions k ≡ some i
      → Flow i.opcode i.operand (get_elem? (offsets_of method.instructions) (suc k)) n kind
      → IsIn (pos n, kind) (ordinary_successors op i (positions_of method.instructions))
  unfolding ordinary_successors
  successor k n i kind at flow =
      let positions = positions_of method.instructions in
      subst
        (λ (o : Opcodes).
          IsIn (pos n, kind) (successors_of o i.opcode i.operand (next_key positions i.offset)))
        (sym at_jvm)
        (Flow-successors_of i.opcode i.operand (next_key positions i.offset) n kind
          (IsDecoded-at k i at)
          (Flow-with i.opcode i.operand _ _ n kind (λ m. next_offset k m i at) flow))

  -- In the graph of a method whose instructions stand at ascending `u16` offsets, with the opcodes of
  -- the Java Virtual Machine Specification and the operands that they have, no flow of control is
  -- lost: where an instruction of a block can pass control to an instruction of the method, other than
  -- by an exception or by `ret`, that one follows it in the block, or the first is the last of the
  -- block and an edge of the kind leads to the block that starts at the other.
  pub build_cfg-Flow :
      (b : BasicBlock) (k : ℕ) (i : InstructionIr) (n : ℕ) (kind : EdgeKind)
      → IsIn b r.graph.blocks
      → b.instruction_range.start ≤ k
      → k < b.instruction_range.stop
      → get_elem? method.instructions k ≡ some i
      → Flow i.opcode i.operand (get_elem? (offsets_of method.instructions) (suc k)) n kind
      → IsIn n (offsets_of method.instructions)
      → (kind ≡ fall_through)
          × (suc k < b.instruction_range.stop)
          × (get_elem? (offsets_of method.instructions) (suc k) ≡ some n)
        ⊎ (suc k ≡ b.instruction_range.stop)
          × ((e : Edge) × IsIn e b.successors × (e.kind ≡ kind) × StartsAt r.graph e.target n)
  build_cfg-Flow b k i n kind m from below at flow there =
      elim (inside_or_last (suc k) b.instruction_range.stop below) [
        | inl inside ↦
            let goes_on = ends_block-last op method seq r made b k i m from inside at in
            let goes_on' : ends_block jvm i.opcode ≡ false =
              subst (λ (o : Opcodes). ends_block o i.opcode ≡ false) at_jvm goes_on in
            let (falls_on, next) =
              Flow-next i.opcode i.operand _ n kind (IsDecoded-at k i at) goes_on' flow in
            inl (falls_on, inside, next)
        | inr last ↦
            let last_at : element_before method.instructions b.instruction_range.stop ≡ some i =
              subst (λ s. element_before method.instructions s ≡ some i) last at in
            inr (
              last,
              ordinary_successors-edge op method seq r made b i n kind m last_at
                  (successor k n i kind at flow) there,
            )
      ]
    where
      inside_or_last : (a c : ℕ) → a ≤ c → (a < c) ⊎ (a ≡ c)
      inside_or_last a c h = ground arith
