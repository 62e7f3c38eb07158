-- ===== src/Cfg/Build/Exceptions.antt =====
-- The exception edges of the control-flow graph of src/cfg/build.rs are those of its method.
use ferro_jtype.Prelude.{
  ℕ, ◌<◌, ◌≤◌, ◌≡◌, refl, sym, ◌∙◌, subst, ◌↔◌, inl, inr, true, List, [], ◌∷◌, some,
}
use ferro_jtype.Prelude.Map.{map_get}
use ferro_jtype.Prelude.Members.{IsIn}
use ferro_jtype.Ir.{MethodIr, InstructionIr, ExceptionHandlerIr}
use ferro_jtype.Opcodes.{Opcodes}
use ferro_jtype.Cfg.{ExceptionEdge, BasicBlock, OffsetMap}
use ferro_jtype.Cfg.Opcode.{may_throw}
use ferro_jtype.Cfg.Offsets.{numbered, numbered-index, index-numbered}
use ferro_jtype.Cfg.Edges.Members.{Catches, Throws, some-injective}
use ferro_jtype.Cfg.Build.{CfgBuildResult, slice, build_cfg}
use ferro_jtype.Cfg.Build.Starting.{IsSequence}
use ferro_jtype.Cfg.Build.Correct.{StartsAt, IsGraph-with, StartsAt-iff}
use ferro_jtype.Cfg.Build.Flow.{Connected-with}

-- A handler that covers the offset and leads to the block.
abbrev Covers : OffsetMap → ℕ → ExceptionEdge → ExceptionHandlerIr → Type 0
Covers blocks offset e h =
    (h.start_offset ≤ offset)
    × (offset < h.end_offset)
    × (map_get blocks h.handler_offset ≡ some e.target)
    × (e.instruction_offset ≡ offset)
    × (e.catch_type ≡ h.catch_type)

Catches-iff :
    (blocks : OffsetMap) (offset : ℕ) (e : ExceptionEdge) (hs : List ExceptionHandlerIr)
    → Catches blocks offset e hs ↔ ((h : ExceptionHandlerIr) × IsIn h hs × Covers blocks offset e h)
Catches-iff blocks offset e [] = (λ m. absurd m, λ (h, m, _). absurd m)
Catches-iff blocks offset e (h ∷ hs) = (
  λ m. elim m [
    | inl c ↦ (h, inl refl, c)
    | inr m' ↦ let (g, there, c) = (Catches-iff blocks offset e hs).0 m' in (g, inr there, c)
  ],
  λ (g, m, c). elim m [
    | inl same ↦ inl (subst (Covers blocks offset e) same c)
    | inr there ↦ inr ((Catches-iff blocks offset e hs).1 (g, there, c))
  ],
)

module _ (op : Opcodes) (blocks : OffsetMap) (handlers : List ExceptionHandlerIr)
    (e : ExceptionEdge) where
  abbrev ThrowsTo : InstructionIr → Type 0
  ThrowsTo i = (may_throw op i.opcode ≡ true) × Catches blocks i.offset e handlers

  Throws-iff :
      (is : List InstructionIr)
      → Throws op blocks handlers e is ↔ ((i : InstructionIr) × IsIn i is × ThrowsTo i)
  Throws-iff [] = (λ m. absurd m, λ (h, m, _). absurd m)
  Throws-iff (i ∷ is) = (
    λ m. elim m [
      | inl c ↦ (i, inl refl, c)
      | inr m' ↦ let (j, there, c) = (Throws-iff is).0 m' in (j, inr there, c)
    ],
    λ (j, m, c). elim m [
      | inl same ↦ inl (subst ThrowsTo same c)
      | inr there ↦ inr ((Throws-iff is).1 (j, there, c))
    ],
  )

module _ (op : Opcodes) (method : MethodIr) (seq : IsSequence method.instructions)
    (r : CfgBuildResult) (made : build_cfg op method ≡ some r) where
  -- In the graph of a method whose instructions stand at ascending `u16` offsets, the exception edges of a block are those of its instructions that may throw, each
  -- to the block of a handler that covers the instruction and with the handler's catch type.
  pub exception_successors_iff :
      (b : BasicBlock) (body : List InstructionIr) (e : ExceptionEdge)
      → IsIn b r.graph.blocks
      → slice method.instructions b.instruction_range ≡ some body
      → IsIn e b.exception_successors ↔ (
          (i : InstructionIr) × (h : ExceptionHandlerIr) × IsIn i body
          × IsIn h method.exception_handlers
          × (may_throw op i.opcode ≡ true)
          × (h.start_offset ≤ i.offset)
          × (i.offset < h.end_offset)
          × StartsAt r.graph e.target h.handler_offset
          × (e.instruction_offset ≡ i.offset)
          × (e.catch_type ≡ h.catch_type))
  exception_successors_iff b body e m at =
      let g = IsGraph-with op method seq r made b m in
      let c = Connected-with op method seq r made g b m in
      let blocks = numbered 0 g.starts in
      let same : c.body ≡ body = some-injective (sym c.is_body ∙ at) in
      let throws : IsIn e b.exception_successors
          ↔ Throws op blocks method.exception_handlers e body =
        subst
          (λ is. IsIn e b.exception_successors ↔ Throws op blocks method.exception_handlers e is)
          same (c.throws e) in
      (
        λ there.
            let (i, in_body, (may, catches)) =
              (Throws-iff op blocks method.exception_handlers e body).0 (throws.0 there) in
            let (h, in_handlers, (from, until, to, at_i, of_type)) =
              (Catches-iff blocks i.offset e method.exception_handlers).0 catches in
            let starts = index-numbered g.starts e.target h.handler_offset to in
            (
              i,
              h,
              in_body,
              in_handlers,
              may,
              from,
              until,
              (StartsAt-iff op method seq r made g e.target h.handler_offset).0 starts,
              at_i,
              of_type,
            ),
        λ (i, h, in_body, in_handlers, may, from, until, starts, at_i, of_type).
            let at_h = (StartsAt-iff op method seq r made g e.target h.handler_offset).1 starts in
            let to = numbered-index g.starts e.target h.handler_offset g.ascending at_h in
            throws.1 (
              (Throws-iff op blocks method.exception_handlers e body).1 (
                i,
                in_body,
                (
                  may,
                  (Catches-iff blocks i.offset e method.exception_handlers).1
                      (h, in_handlers, (from, until, to, at_i, of_type)),
                ),
              )),
      )
