-- ===== src/Cfg/Build/Starting.antt =====
-- The starts that src/cfg/build.rs finds in a method whose instructions stand at ascending offsets.
use ferro_jtype.Prelude.{
  ℕ, suc, ◌<◌, ◌≤◌, ◌≡◌, refl, sym, ap, subst, inl, inr, List, [], ◌∷◌, some, All, get_elem?, true,
  false, Option-cases, arith,
}
use ferro_jtype.Prelude.Int.{pos}
use ferro_jtype.Prelude.Map.{map_get}
use ferro_jtype.Prelude.Members.{IsIn, IsAscending, All-IsIn, IsIn-All, get_elem?-IsIn}
use ferro_jtype.Ir.{MethodIr, InstructionIr, ExceptionHandlerIr}
use ferro_jtype.Opcodes.{Opcodes}
use ferro_jtype.Cfg.Opcode.{ends_block}
use ferro_jtype.Cfg.Offsets.{
  numbered, index_from-numbered, numbered-index, index-numbered, IsIn-get_elem?,
}
use ferro_jtype.Cfg.Starts.{Starts, offsets_of, instruction_targets, instruction_starts}
use ferro_jtype.Cfg.Starts.Grows.{IsStarts, Grows}
use ferro_jtype.Cfg.Starts.Complete.{
  Positions, instruction_starts-Grows, handler_starts-Grows, instruction_starts-target,
  instruction_starts-next, handler_starts-handler,
}
use ferro_jtype.Cfg.Build.{positions_of, block_starts}

-- The instructions follow one another at offsets that `u16` holds.
pub record IsSequence (is : List InstructionIr) : Type 0 where
  pub ascending : IsAscending (offsets_of is)
  pub in_u16 : All (λ n. n < 65536) (offsets_of is)

-- The first of ascending numbers is the least.
first_start :
    (first : ℕ) (starts : List ℕ)
    → IsAscending starts
    → IsIn first starts
    → ((n : ℕ) → IsIn n starts → first ≤ n)
    → (rest : List ℕ) × (starts ≡ first ∷ rest)
first_start first [] asc m least = absurd m
first_start first (s ∷ starts) (below, asc) (inl e) least = (starts, ap (λ n. n ∷ starts) (sym e))
first_start first (s ∷ starts) (below, asc) (inr m) least =
    let lt = IsIn-All (λ k. s < k) first starts below m in
    absurd (omega (arith, least s (inl refl)))

least_offset :
    (first : ℕ) (offsets : List ℕ) (n : ℕ)
    → IsAscending offsets
    → get_elem? offsets 0 ≡ some first
    → IsIn n offsets
    → first ≤ n
least_offset first [] n asc e m = cc
least_offset first (o ∷ os) n asc e (inl same) = ground arith
least_offset first (o ∷ os) n (above, asc) e (inr m) =
    let lt = IsIn-All (λ k. o < k) n os above m in ground arith

pub offset-IsIn :
    (is : List InstructionIr) (i : InstructionIr) → IsIn i is → IsIn i.offset (offsets_of is)
offset-IsIn [] i m = absurd m
offset-IsIn (j ∷ is) i (inl e) = inl (ap (λ (x : InstructionIr). x.offset) e)
offset-IsIn (j ∷ is) i (inr m) = inr (offset-IsIn is i m)

module _ (is : List InstructionIr) (seq : IsSequence is) where
  pub positions-numbered : positions_of is ≡ numbered 0 (offsets_of is)
  positions-numbered = index_from-numbered (offsets_of is) seq.ascending

  pub positions_of-Positions : Positions (offsets_of is) (positions_of is)
  positions_of-Positions n = (
    λ found. elim (Option-cases (map_get (positions_of is) n)) [
      | inl nothing ↦ let no : false ≡ true = rw nothing at found in cc
      | inr (i, at) ↦
          let there : map_get (numbered 0 (offsets_of is)) n ≡ some i =
            rw positions-numbered at at in
          get_elem?-IsIn (offsets_of is) i n (index-numbered (offsets_of is) i n there)
    ],
    λ m.
        let (i, at) = IsIn-get_elem? n (offsets_of is) m in
        let found = numbered-index (offsets_of is) i n seq.ascending at in
        rw (positions-numbered, found) refl,
  )

module _ (op : Opcodes) (method : MethodIr) where
  abbrev pub all_offsets : List ℕ
  all_offsets = offsets_of method.instructions

  -- Every instruction that control can reach other than from the one before is a start.
  pub record HasStarts (starts : List ℕ) : Type 0 where
    pub targets :
        (i : InstructionIr) (n : ℕ)
        → IsIn i method.instructions
        → IsIn (pos n) (instruction_targets i)
        → IsIn n all_offsets
        → IsIn n starts
    pub after_end :
        (k : ℕ) (i j : InstructionIr)
        → get_elem? method.instructions k ≡ some i
        → get_elem? method.instructions (suc k) ≡ some j
        → ends_block op i.opcode ≡ true
        → IsIn j.offset starts
    pub handlers :
        (h : ExceptionHandlerIr)
        → IsIn h method.exception_handlers
        → IsIn h.handler_offset all_offsets
        → IsIn h.handler_offset starts

  module _ (seq : IsSequence method.instructions) (first : ℕ)
      (at : get_elem? all_offsets 0 ≡ some first) where
    abbrev instructions_done : Starts
    instructions_done =
        instruction_starts op (positions_of method.instructions) method method.instructions
          (first ∷ [], [])

    first_IsStarts : IsStarts all_offsets (first ∷ [], [])
    first_IsStarts = record {
      ascending = (tt, tt);
      within = λ n m. elim m [
        | inl e ↦ subst (λ x. IsIn x all_offsets) (sym e) (get_elem?-IsIn all_offsets 0 first at)
        | inr nowhere ↦ absurd nowhere
      ];
    }

    each_offset : All (λ (i : InstructionIr). IsIn i.offset all_offsets) method.instructions
    each_offset =
        All-IsIn (λ (i : InstructionIr). IsIn i.offset all_offsets) method.instructions
          (offset-IsIn method.instructions)

    Positions-at : Positions all_offsets (positions_of method.instructions)
    Positions-at = positions_of-Positions method.instructions seq

    first_growth : Grows all_offsets (first ∷ [], []) instructions_done
    first_growth =
        instruction_starts-Grows all_offsets (positions_of method.instructions) Positions-at method
          op method.instructions (first ∷ [], []) each_offset

    second_growth : Grows all_offsets instructions_done (block_starts op method first)
    second_growth =
        handler_starts-Grows all_offsets (positions_of method.instructions) Positions-at method
          method.exception_handlers instructions_done

    pub block_starts-IsStarts : IsStarts all_offsets (block_starts op method first)
    block_starts-IsStarts = second_growth.sound (first_growth.sound first_IsStarts)

    pub block_starts-HasStarts : HasStarts (block_starts op method first).0
    block_starts-HasStarts = record {
      targets = λ i n m t there. second_growth.kept n (
          instruction_starts-target all_offsets (positions_of method.instructions) Positions-at
            method op method.instructions i n (first ∷ [], []) each_offset
            (IsIn-All (λ n. n < 65536) n all_offsets seq.in_u16 there) there m t);
      after_end = λ k i j hi hj ends. second_growth.kept j.offset (
          instruction_starts-next all_offsets (positions_of method.instructions) Positions-at method
            op method.instructions k i j (first ∷ [], []) each_offset hi hj ends);
      handlers = λ h m there.
          handler_starts-handler all_offsets (positions_of method.instructions) Positions-at method
            method.exception_handlers h instructions_done
            (IsIn-All (λ n. n < 65536) h.handler_offset all_offsets seq.in_u16 there) there m;
    }

    pub block_starts_first : (rest : List ℕ) × ((block_starts op method first).0 ≡ first ∷ rest)
    block_starts_first =
        let starts = block_starts-IsStarts in
        first_start first (block_starts op method first).0 starts.ascending
          (second_growth.kept first (first_growth.kept first (inl refl)))
          (λ n m. least_offset first all_offsets n seq.ascending at (starts.within n m))
