-- ===== src/Cfg/Build/Flow.antt =====
-- The edges of the control-flow graph of src/cfg/build.rs are the flow of control of its method.
use ferro_jtype.Prelude.{ℕ, zero, suc, ◌<◌, ◌≡◌, refl, sym, ◌∙◌, subst, ◌↔◌, inl, inr, some}
use ferro_jtype.Prelude.Int.{pos}
use ferro_jtype.Prelude.Members.{IsIn, IsIn-All, get_elem?-IsIn}
use ferro_jtype.Ir.{MethodIr, InstructionIr}
use ferro_jtype.Opcodes.{Opcodes}
use ferro_jtype.Cfg.{Edge, EdgeKind, BasicBlock}
use ferro_jtype.Cfg.Offsets.{numbered, IsIn-get_elem?}
use ferro_jtype.Cfg.Starts.{offsets_of}
use ferro_jtype.Cfg.Edges.{Successors, next_key, ordinary_successors}
use ferro_jtype.Cfg.Edges.Members.{Leads, some-injective}
use ferro_jtype.Cfg.Build.{CfgBuildResult, positions_of, element_before, build_cfg}
use ferro_jtype.Cfg.Build.Partition.{IsBlock}
use ferro_jtype.Cfg.Build.Connected.{IsConnected}
use ferro_jtype.Cfg.Build.Starting.{IsSequence, positions-numbered}
use ferro_jtype.Cfg.Build.Graph.{IsGraph}
use ferro_jtype.Cfg.Build.Correct.{StartsAt, IsGraph-with, StartsAt-iff, offset_at, IsBlock-with}
use ferro_jtype.Cfg.Build.Successors.{
  Leads-iff, resolve_block-numbered, numbered-resolve_block, next_key-numbered,
  successors_of-Arrives,
}

module _ (op : Opcodes) (method : MethodIr) (seq : IsSequence method.instructions)
    (r : CfgBuildResult) (made : build_cfg op method ≡ some r) where
  abbrev Connected : IsGraph op method r → BasicBlock → Type 0
  Connected g =
      IsConnected op (positions_of method.instructions) (numbered 0 g.starts) method g.starts

  pub Connected-with :
      (g : IsGraph op method r) (b : BasicBlock) → IsIn b r.graph.blocks → Connected g b
  Connected-with g b m =
      (IsIn-All (λ b. IsBlock (offsets_of method.instructions) g.starts b × Connected g b) b
        r.graph.blocks g.each_block m).1

  start_in_u16 : (g : IsGraph op method r) (n : ℕ) → IsIn n g.starts → n < 65536
  start_in_u16 g n m =
      IsIn-All (λ n. n < 65536) n (offsets_of method.instructions) seq.in_u16 (g.within n m)

  abbrev successors : InstructionIr → Successors
  successors last = ordinary_successors op last (positions_of method.instructions)

  -- In the graph of a method whose instructions stand at ascending `u16` offsets, an edge leaves a
  -- block exactly where a successor of the block's last instruction, of the same kind, is the offset
  -- at which the block that the edge leads to starts.
  pub successors_iff :
      (b : BasicBlock) (last : InstructionIr) (e : Edge)
      → IsIn b r.graph.blocks
      → element_before method.instructions b.instruction_range.stop ≡ some last
      → IsIn e b.successors ↔ (
          (n : ℕ) × IsIn
            (pos n, e.kind)
            (ordinary_successors op last (positions_of method.instructions))
          × StartsAt r.graph e.target n)
  successors_iff b last e m at =
      let g = IsGraph-with op method seq r made b m in
      let c = Connected-with g b m in
      let same : c.last ≡ last = some-injective (sym c.is_last ∙ at) in
      let leads : IsIn e b.successors ↔ Leads (numbered 0 g.starts) e (successors last) =
        subst (λ i. IsIn e b.successors ↔ Leads (numbered 0 g.starts) e (successors i)) same
          (c.leads e) in
      (
        λ there.
            let (t, goes, to) =
              (Leads-iff (numbered 0 g.starts) e (successors last)).0 (leads.0 there) in
            let (n, is_n, starts) = resolve_block-numbered g.starts t e.target to in
            (
              n,
              subst (λ x. IsIn (x, e.kind) (successors last)) is_n goes,
              (StartsAt-iff op method seq r made g e.target n).0 starts,
            ),
        λ (n, goes, starts).
            let at_n = (StartsAt-iff op method seq r made g e.target n).1 starts in
            let small = start_in_u16 g n (get_elem?-IsIn g.starts e.target n at_n) in
            leads.1 (
              (Leads-iff (numbered 0 g.starts) e (successors last)).1
                (pos n, goes, numbered-resolve_block g.starts n e.target g.ascending small at_n)),
      )

  next_is_start :
      (g : IsGraph op method r) (b : BasicBlock) (last : InstructionIr) (n : ℕ)
      → IsIn b r.graph.blocks
      → element_before method.instructions b.instruction_range.stop ≡ some last
      → next_key (positions_of method.instructions) last.offset ≡ some n
      → IsIn n g.starts
  next_is_start g b last n m at next = from b.instruction_range.stop refl at
    where
      from :
          (stop : ℕ)
          → b.instruction_range.stop ≡ stop
          → element_before method.instructions stop ≡ some last
          → IsIn n g.starts
      from zero e at' = cc
      from (suc k) e at' =
          let there : next_key (numbered 0 (offsets_of method.instructions)) last.offset ≡ some n =
            rw (positions-numbered method.instructions seq) at next in
          let after =
            next_key-numbered 0 (offsets_of method.instructions) k last.offset n seq.ascending
              (offset_at op method seq r made k last at') there in
          (IsBlock-with op method seq r made g b m).followed n (rw e after)

  -- In that graph no flow of control is lost: each successor of a block's last instruction that is an
  -- instruction of the method has an edge of its kind, to the block that starts there.
  pub ordinary_successors-edge :
      (b : BasicBlock) (last : InstructionIr) (n : ℕ) (kind : EdgeKind)
      → IsIn b r.graph.blocks
      → element_before method.instructions b.instruction_range.stop ≡ some last
      → IsIn (pos n, kind) (ordinary_successors op last (positions_of method.instructions))
      → IsIn n (offsets_of method.instructions)
      → (e : Edge) × IsIn e b.successors × (e.kind ≡ kind) × StartsAt r.graph e.target n
  unfolding ordinary_successors
  ordinary_successors-edge b last n kind m at goes there =
      let g = IsGraph-with op method seq r made b m in
      let next = next_key (positions_of method.instructions) last.offset in
      let start : IsIn n g.starts =
        elim (successors_of-Arrives op last.opcode last.operand next (pos n) kind goes) [
          | inl target ↦ g.complete.targets last n (last_in b last at) target there
          | inr (n', is_next, same) ↦
              subst (λ x. IsIn x g.starts) (sym (pos-injective same))
                (next_is_start g b last n' m at is_next)
        ] in
      let (id, starts) = IsIn-get_elem? n g.starts start in
      let e : Edge = record { target = id; kind = kind } in
      let to = (StartsAt-iff op method seq r made g id n).0 starts in
      (e, (successors_iff b last e m at).1 (n, goes, to), refl, to)
    where
      pos-injective : {a b : ℕ} → pos a ≡ pos b → a ≡ b
      pos-injective e = cc

      last_in :
          (b : BasicBlock) (last : InstructionIr)
          → element_before method.instructions b.instruction_range.stop ≡ some last
          → IsIn last method.instructions
      last_in b last at = from b.instruction_range.stop at
        where
          from :
              (stop : ℕ)
              → element_before method.instructions stop ≡ some last
              → IsIn last method.instructions
          from zero e = cc
          from (suc k) e = get_elem?-IsIn method.instructions k last e
