-- ===== src/Cfg/Build/Correct.antt =====
-- The control-flow graph of src/cfg/build.rs against the instructions of its method.
use ferro_jtype.Prelude.{
  ℕ, zero, suc, ◌<◌, ◌≤◌, ◌≡◌, refl, sym, ◌∙◌, ap, subst, ◌↔◌, ◌⊎◌, inl, inr, false, List, [], ◌∷◌,
  none, some, map, length, get_elem?, Bool-cases, length-map, arith,
}
use ferro_jtype.Prelude.Int.{pos}
use ferro_jtype.Prelude.Map.{map_get}
use ferro_jtype.Prelude.Members.{IsIn, IsIn-All, get_elem?-IsIn}
use ferro_jtype.Ir.{MethodIr, InstructionIr}
use ferro_jtype.Opcodes.{Opcodes}
use ferro_jtype.Cfg.{BlockId, BasicBlock, ControlFlowGraph, block_at_offset}
use ferro_jtype.Cfg.Opcode.{ends_block}
use ferro_jtype.Cfg.Offsets.{numbered, numbered-index, index-numbered}
use ferro_jtype.Cfg.Starts.{offsets_of, instruction_targets}
use ferro_jtype.Cfg.Edges.Members.{some-injective}
use ferro_jtype.Cfg.Build.{CfgBuildResult, positions_of, build_cfg}
use ferro_jtype.Cfg.Build.Partition.{IsBlock, bodies}
use ferro_jtype.Cfg.Build.Connected.{IsConnected, get_elem?-below}
use ferro_jtype.Cfg.Build.Starting.{IsSequence}
use ferro_jtype.Cfg.Build.Graph.{IsGraph, build_cfg-IsGraph}

-- The graph of any method whose instructions stand at ascending `u16` offsets is built without a
-- panic, and its blocks, one after another, are the instructions of the method.
pub build_cfg-bodies :
    (op : Opcodes) (method : MethodIr)
    → IsSequence method.instructions
    → (r : CfgBuildResult) × (build_cfg op method ≡ some r)
      × (bodies method.instructions r.graph.blocks ≡ some method.instructions)
build_cfg-bodies op method seq =
    let (r, made, either) = build_cfg-IsGraph op method seq in
    (
      r,
      made,
      elim either [ inl (empty, no_block, _, _) ↦ rw (no_block, empty) refl | inr g ↦ g.covered ],
    )

-- The block at an index starts at the offset.
abbrev pub StartsAt : ControlFlowGraph → BlockId → ℕ → Type 0
StartsAt g id offset =
    (b : BasicBlock) × (get_elem? g.blocks id ≡ some b) × (b.start_offset ≡ offset)

module _ {A B : Type 0} (f : A → B) where
  get_elem?-map :
      (xs : List A) (i : ℕ) (x : A) → get_elem? xs i ≡ some x → get_elem? (map f xs) i ≡ some (f x)
  get_elem?-map [] i x e = cc
  get_elem?-map (y ∷ ys) zero x e = cc
  get_elem?-map (y ∷ ys) (suc i) x e = get_elem?-map ys i x e

  map-get_elem? :
      (xs : List A) (i : ℕ) (b : B)
      → get_elem? (map f xs) i ≡ some b
      → (x : A) × (get_elem? xs i ≡ some x) × (f x ≡ b)
  map-get_elem? [] i b e = cc
  map-get_elem? (y ∷ ys) zero b e = (y, refl, cc)
  map-get_elem? (y ∷ ys) (suc i) b e = map-get_elem? ys i b e

module _ (op : Opcodes) (method : MethodIr) (seq : IsSequence method.instructions)
    (r : CfgBuildResult) (made : build_cfg op method ≡ some r) where
  abbrev pub NoBlock : Type 0
  NoBlock =
      (method.instructions ≡ [])
      × (r.graph.blocks ≡ [])
      × (r.graph.blocks_by_offset ≡ [])
      × (r.graph.entry ≡ none)

  pub built : NoBlock ⊎ IsGraph op method r
  built =
      let (s, made', either) = build_cfg-IsGraph op method seq in
      let same : s ≡ r = some-injective (sym made' ∙ made) in
      subst
        (λ (t : CfgBuildResult).
          (method.instructions ≡ [])
            × (t.graph.blocks ≡ [])
            × (t.graph.blocks_by_offset ≡ [])
            × (t.graph.entry ≡ none)
          ⊎ IsGraph op method t)
        same either

  pub IsGraph-with : (b : BasicBlock) → IsIn b r.graph.blocks → IsGraph op method r
  IsGraph-with b m = elim built [
    | inl (_, no_block, _, _) ↦ let nowhere : IsIn b [] = rw no_block at m in absurd nowhere
    | inr g ↦ g
  ]

  pub StartsAt-iff :
      (g : IsGraph op method r) (id offset : ℕ)
      → (get_elem? g.starts id ≡ some offset) ↔ StartsAt r.graph id offset
  StartsAt-iff g id offset = (
    λ e.
        let there : get_elem? (map (λ (b : BasicBlock). b.start_offset) r.graph.blocks) id
            ≡ some offset =
          rw g.begin_at e in
        map-get_elem? (λ (b : BasicBlock). b.start_offset) r.graph.blocks id offset there,
    λ (b, at, starts).
        let there = get_elem?-map (λ (b : BasicBlock). b.start_offset) r.graph.blocks id b at in
        let there' : get_elem? g.starts id ≡ some b.start_offset = rw g.begin_at at there in
        there' ∙ ap some starts,
  )

  -- In the graph of a method whose instructions stand at ascending `u16` offsets, a look-up by
  -- offset finds exactly the block that starts there.
  pub block_at_offset_iff :
      (offset : ℕ) (id : BlockId)
      → (block_at_offset r.graph offset ≡ some id) ↔ StartsAt r.graph id offset
  unfolding block_at_offset
  block_at_offset_iff offset id = elim built [
    | inl (_, no_block, no_entry, _) ↦ (
      λ e. let nothing : none ≡ some id = rw no_entry at e in cc,
      λ (b, at, _). let nothing : none ≡ some b = rw no_block at at in cc,
    )
    | inr g ↦ (
      λ e.
          let there : map_get (numbered 0 g.starts) offset ≡ some id = rw g.by_offset at e in
          (StartsAt-iff g id offset).0 (index-numbered g.starts id offset there),
      λ s.
          let there =
            numbered-index g.starts id offset g.ascending ((StartsAt-iff g id offset).1 s) in
          rw g.by_offset there,
    )
  ]

  pub offset_at :
      (k : ℕ) (i : InstructionIr)
      → get_elem? method.instructions k ≡ some i
      → get_elem? (offsets_of method.instructions) k ≡ some i.offset
  offset_at = get_elem?-map (λ (i : InstructionIr). i.offset) method.instructions

  pub IsBlock-with :
      (g : IsGraph op method r) (b : BasicBlock)
      → IsIn b r.graph.blocks
      → IsBlock (offsets_of method.instructions) g.starts b
  IsBlock-with g b m =
      (IsIn-All
        (λ b.
          IsBlock (offsets_of method.instructions) g.starts b
          × IsConnected op (positions_of method.instructions) (numbered 0 g.starts) method g.starts
              b)
        b r.graph.blocks g.each_block m).0

  pub no_start_inside :
      (g : IsGraph op method r) (b : BasicBlock) (k n : ℕ)
      → IsIn b r.graph.blocks
      → get_elem? (offsets_of method.instructions) k ≡ some n
      → IsIn n g.starts
      → b.instruction_range.start < k
      → k < b.instruction_range.stop
      → ⊥
  no_start_inside g b k n m at start lt below = elim ((IsBlock-with g b m).undivided n k start at) [
    | inl le ↦ absurd (omega arith)
    | inr le ↦ absurd (omega arith)
  ]

  sized : length (offsets_of method.instructions) ≡ length method.instructions
  sized = length-map (λ (i : InstructionIr). i.offset) method.instructions

  -- In a block of that graph only the last instruction is one that ends a block.
  pub ends_block-last :
      (b : BasicBlock) (k : ℕ) (i : InstructionIr)
      → IsIn b r.graph.blocks
      → b.instruction_range.start ≤ k
      → suc k < b.instruction_range.stop
      → get_elem? method.instructions k ≡ some i
      → ends_block op i.opcode ≡ false
  ends_block-last b k i m from below at = elim (Bool-cases (ends_block op i.opcode)) [
    | inr goes_on ↦ goes_on
    | inl ends ↦
        let g = IsGraph-with b m in
        let w = IsBlock-with g b m in
        let (j, next) =
          get_elem?-below method.instructions (suc k) (omega (arith, w.ends, sized)) in
        absurd (
          no_start_inside g b (suc k) j.offset m (offset_at (suc k) j next)
            (g.complete.after_end k i j at next ends) (omega arith) below)
  ]

  -- No jump of the method leads into a block of that graph but to its first instruction.
  pub instruction_targets-start :
      (b : BasicBlock) (i j : InstructionIr) (k : ℕ)
      → IsIn b r.graph.blocks
      → IsIn i method.instructions
      → get_elem? method.instructions k ≡ some j
      → IsIn (pos j.offset) (instruction_targets i)
      → b.instruction_range.start ≤ k
      → k < b.instruction_range.stop
      → k ≡ b.instruction_range.start
  instruction_targets-start b i j k m in_method at jumps from below =
      let g = IsGraph-with b m in
      let there = get_elem?-IsIn (offsets_of method.instructions) k j.offset (offset_at k j at) in
      let start = g.complete.targets i j.offset in_method jumps there in
      elim (same_or_after b.instruction_range.start k from) [
        | inl same ↦ same
        | inr lt ↦ absurd (no_start_inside g b k j.offset m (offset_at k j at) start lt below)
      ]
    where
      same_or_after : (a c : ℕ) → a ≤ c → (c ≡ a) ⊎ (a < c)
      same_or_after a c h = ground arith
