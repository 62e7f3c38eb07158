-- ===== src/Cfg/Build/Graph.antt =====
-- What src/cfg/build.rs makes of the instructions of a method.
use ferro_jtype.Prelude.{
  ℕ, ◌≡◌, refl, sym, ◌∙◌, subst, ◌⊎◌, inl, inr, List, [], ◌∷◌, none, some, All, map, length,
  get_elem?, length-map, arith,
}
use ferro_jtype.Prelude.Members.{IsIn, IsAscending, All-IsIn}
use ferro_jtype.Ir.{MethodIr, InstructionIr}
use ferro_jtype.Opcodes.{Opcodes}
use ferro_jtype.Diagnostic.{Diagnostic}
use ferro_jtype.Cfg.{BasicBlock}
use ferro_jtype.Cfg.Offsets.{numbered, index_from-numbered, numbered-index}
use ferro_jtype.Cfg.Starts.{offsets_of}
use ferro_jtype.Cfg.Build.{
  CfgBuildResult, positions_of, block_starts, blocks_between, graph_from, cfg_of, build_cfg,
}
use ferro_jtype.Cfg.Build.Starting.{
  IsSequence, positions-numbered, HasStarts, block_starts-IsStarts, block_starts-HasStarts,
  block_starts_first,
}
use ferro_jtype.Cfg.Build.Partition.{IsBlock, bodies, blocks_between-Cover}
use ferro_jtype.Cfg.Build.Connected.{
  IsConnected, connect_all-Connects, IsConnected-blocks, connected_starts, connected_bodies,
}

module _ (op : Opcodes) (method : MethodIr) where
  -- The graph of a method with instructions.
  pub record IsGraph (r : CfgBuildResult) : Type 0 where
    pub starts : List ℕ
    pub ascending : IsAscending starts
    pub within : (n : ℕ) → IsIn n starts → IsIn n (offsets_of method.instructions)
    pub complete : HasStarts op method starts
    pub begin_at : map (λ (b : BasicBlock). b.start_offset) r.graph.blocks ≡ starts
    pub by_offset : r.graph.blocks_by_offset ≡ numbered 0 starts
    pub covered : bodies method.instructions r.graph.blocks ≡ some method.instructions
    pub each_block :
        All
          (λ b.
            IsBlock (offsets_of method.instructions) starts b
            × IsConnected op (positions_of method.instructions) (numbered 0 starts) method starts b)
          r.graph.blocks
    pub entered : r.graph.entry ≡ some 0
    pub entry_start :
        (first : ℕ) × (get_elem? starts 0 ≡ some first)
        × (get_elem? (offsets_of method.instructions) 0 ≡ some first)

  -- The loop gives a graph, whatever the starts, where they begin at the first instruction.
  graph_from-IsGraph :
      (seq : IsSequence method.instructions) (first : ℕ) (rest : List ℕ) (ds : List Diagnostic)
      → get_elem? (offsets_of method.instructions) 0 ≡ some first
      → IsAscending (first ∷ rest)
      → ((n : ℕ) → IsIn n (first ∷ rest) → IsIn n (offsets_of method.instructions))
      → HasStarts op method (first ∷ rest)
      → (r : CfgBuildResult) × (graph_from op method first (first ∷ rest, ds) ≡ some r) × IsGraph r
  graph_from-IsGraph seq first rest ds at asc within complete =
      let is = method.instructions in
      let offsets = offsets_of is in
      let starts = first ∷ rest in
      let sized = length-map (λ (i : InstructionIr). i.offset) is in
      let (blocks, made, c) =
        blocks_between-Cover is offsets (sym sized) starts seq.ascending first rest 0 asc
          (All-IsIn (λ t. IsIn t offsets) rest (λ t m. within t (inr m)))
          (All-IsIn (λ t. IsIn t starts) rest (λ t m. inr m))
          (λ t m. elim m [ inl e ↦ inl (omega arith) | inr m' ↦ inr m' ]) at in
      let (blocks', ds', done, cs) =
        connect_all-Connects op (positions_of is) (numbered 0 starts) method starts blocks ds
          c.each_block c.unconnected in
      let numbers = index_from-numbered starts asc in
      let made' : blocks_between (positions_of is) (length is) starts ≡ some blocks =
        subst (λ p. blocks_between p (length is) starts ≡ some blocks)
          (sym (positions-numbered is seq)) made in
      let entered = numbered-index starts 0 first asc refl in
      (
        record {
          graph = record { blocks = blocks'; entry = some 0; blocks_by_offset = numbered 0 starts };
          diagnostics = ds';
        },
        rw (numbers, made', done, entered, graph_from) refl,
        record {
          starts = starts;
          ascending = asc;
          within = within;
          complete = complete;
          begin_at =
              connected_starts op (positions_of is) (numbered 0 starts) method starts blocks blocks'
                cs
              ∙ c.begin_at;
          by_offset = refl;
          covered =
              connected_bodies op (positions_of is) (numbered 0 starts) method starts is blocks
                blocks' cs
              ∙ c.covered;
          each_block =
              IsConnected-blocks op (positions_of is) (numbered 0 starts) method starts blocks
                blocks' cs c.each_block;
          entered = refl;
          entry_start = (first, refl, at);
        },
      )

  -- The graph of a method without instructions has no block.
  pub build_cfg-IsGraph :
      IsSequence method.instructions
      → (r : CfgBuildResult) × (build_cfg op method ≡ some r)
        × ((method.instructions ≡ [])
              × (r.graph.blocks ≡ [])
              × (r.graph.blocks_by_offset ≡ [])
              × (r.graph.entry ≡ none)
            ⊎ IsGraph r)
  unfolding build_cfg
  build_cfg-IsGraph seq = from method.instructions refl
    where
      from :
          (is : List InstructionIr)
          → method.instructions ≡ is
          → (r : CfgBuildResult) × (cfg_of op method is ≡ some r)
            × ((method.instructions ≡ [])
                  × (r.graph.blocks ≡ [])
                  × (r.graph.blocks_by_offset ≡ [])
                  × (r.graph.entry ≡ none)
                ⊎ IsGraph r)
      from [] e = (
        record {
          graph = record { blocks = []; entry = none; blocks_by_offset = [] };
          diagnostics = [];
        },
        refl,
        inl (e, refl, refl, refl),
      )
      from (i ∷ is) e =
          let at : get_elem? (offsets_of method.instructions) 0 ≡ some i.offset = rw e refl in
          let starts = block_starts-IsStarts op method seq i.offset at in
          let complete = block_starts-HasStarts op method seq i.offset at in
          let (rest, begins) = block_starts_first op method seq i.offset at in
          let within : (n : ℕ)
              → IsIn n (i.offset ∷ rest)
              → IsIn n (offsets_of method.instructions) =
            λ n m. starts.within n (rw begins m) in
          let (r, made, g) =
            graph_from-IsGraph seq i.offset rest (block_starts op method i.offset).1 at
              (rw begins at starts.ascending) within
              (subst (HasStarts op method) begins complete) in
          (r, rw begins made, inr g)
