-- ===== src/Cfg/Starts/Complete.antt =====
-- Where the blocks of src/cfg/build.rs start: at instructions only, and wherever control can arrive
-- other than from the instruction before.
use ferro_jtype.Prelude.{
  ℕ, zero, suc, ◌<◌, ◌≡◌, refl, ◌↔◌, subst, inl, inr, Bool, true, false, List, [], ◌∷◌, Option,
  none, some, All, get_elem?, lt→ltb,
}
use ferro_jtype.Prelude.Int.{ℤ, pos}
use ferro_jtype.Prelude.Map.{map_get}
use ferro_jtype.Prelude.Members.{IsIn}
use ferro_jtype.Ir.{MethodIr, InstructionIr, ExceptionHandlerIr}
use ferro_jtype.Opcodes.{Opcodes}
use ferro_jtype.Cfg.{OffsetMap}
use ferro_jtype.Cfg.Opcode.{ends_block}
use ferro_jtype.Cfg.Offsets.{IsIn-set_insert}
use ferro_jtype.Cfg.Starts.{
  Starts, is_some, to_u16, start_if, start_at, add_start_if_instruction, add_starts, add_next,
  add_end, instruction_targets, instruction_starts, handler_starts,
}
use ferro_jtype.Cfg.Starts.Grows.{Grows, Grows-refl, Grows-trans, Grows-same, Grows-insert}

module _ (offsets : List ℕ) where
  -- The positions that a method has at its offsets.
  abbrev pub Positions : OffsetMap → Type 0
  Positions positions = (n : ℕ) → (is_some (map_get positions n) ≡ true) ↔ IsIn n offsets

  module _ (positions : OffsetMap) (at : Positions positions) (method : MethodIr) where
    start_if-Grows :
        (b : Bool) (source n : ℕ) (s : Starts)
        → (b ≡ true → IsIn n offsets)
        → Grows offsets s (start_if b method source n s)
    start_if-Grows true source n s m = Grows-insert offsets n s _ (m refl) refl
    start_if-Grows false source n s m = Grows-same offsets s _ refl

    start_at-Grows :
        (o : Option ℕ) (source : ℕ) (target : ℤ) (s : Starts)
        → Grows offsets s (start_at o positions method source target s)
    start_at-Grows none source target s = Grows-same offsets s _ refl
    start_at-Grows (some n) source target s =
        start_if-Grows (is_some (map_get positions n)) source n s (at n).0

    add_starts-Grows :
        (source : ℕ) (targets : List ℤ) (s : Starts)
        → Grows offsets s (add_starts positions method source targets s)
    unfolding add_start_if_instruction
    add_starts-Grows source [] s = Grows-refl offsets s
    add_starts-Grows source (t ∷ ts) s =
        let first = add_start_if_instruction positions method source t s in
        Grows-trans offsets s first _ (start_at-Grows (to_u16 t) source t s)
          (add_starts-Grows source ts first)

    add_next-Grows :
        (b : Bool) (rest : List InstructionIr) (s : Starts)
        → All (λ (i : InstructionIr). IsIn i.offset offsets) rest
        → Grows offsets s (add_next b rest s)
    add_next-Grows true (next ∷ rest) s (m, ms) = Grows-insert offsets next.offset s _ m refl
    add_next-Grows true [] s ms = Grows-refl offsets s
    add_next-Grows false rest s ms = Grows-refl offsets s

    add_end-Grows :
        (b : Bool) (n : ℕ) (s : Starts)
        → (b ≡ true → IsIn n offsets)
        → Grows offsets s (add_end b n s)
    add_end-Grows true n s m = Grows-insert offsets n s _ (m refl) refl
    add_end-Grows false n s m = Grows-refl offsets s

    start_at-starts :
        (source n : ℕ) (s : Starts)
        → n < 65536
        → IsIn n offsets
        → IsIn n (start_at (to_u16 (pos n)) positions method source (pos n) s).0
    start_at-starts source n s h m =
        rw (lt→ltb n 65536 h, (at n).1 m) ((IsIn-set_insert n n s.0).1 (inl refl))

    add_starts-starts :
        (source : ℕ) (targets : List ℤ) (n : ℕ) (s : Starts)
        → n < 65536
        → IsIn n offsets
        → IsIn (pos n) targets
        → IsIn n (add_starts positions method source targets s).0
    unfolding add_start_if_instruction
    add_starts-starts source [] n s h m t = absurd t
    add_starts-starts source (t ∷ ts) n s h m (inl same) =
        let first = add_start_if_instruction positions method source t s in
        let here : IsIn n first.0 =
          subst (λ x. IsIn n (start_at (to_u16 x) positions method source x s).0) same
            (start_at-starts source n s h m) in
        (add_starts-Grows source ts first).kept n here
    add_starts-starts source (t ∷ ts) n s h m (inr later) =
        add_starts-starts source ts n (add_start_if_instruction positions method source t s) h m
          later

    module _ (op : Opcodes) where
      pub instruction_starts-Grows :
          (is : List InstructionIr) (s : Starts)
          → All (λ (i : InstructionIr). IsIn i.offset offsets) is
          → Grows offsets s (instruction_starts op positions method is s)
      instruction_starts-Grows [] s ms = Grows-refl offsets s
      instruction_starts-Grows (i ∷ rest) s (m, ms) =
          let targeted = add_starts positions method i.offset (instruction_targets i) s in
          let next = add_next (ends_block op i.opcode) rest targeted in
          Grows-trans offsets s targeted _ (add_starts-Grows i.offset (instruction_targets i) s) (
            Grows-trans offsets targeted next _
              (add_next-Grows (ends_block op i.opcode) rest targeted ms)
              (instruction_starts-Grows rest next ms))

      -- A target of an instruction that is an instruction is a start.
      pub instruction_starts-target :
          (is : List InstructionIr) (i : InstructionIr) (n : ℕ) (s : Starts)
          → All (λ (i : InstructionIr). IsIn i.offset offsets) is
          → n < 65536
          → IsIn n offsets
          → IsIn i is
          → IsIn (pos n) (instruction_targets i)
          → IsIn n (instruction_starts op positions method is s).0
      instruction_starts-target [] i n s ms h m l t = absurd l
      instruction_starts-target (j ∷ rest) i n s (mj, ms) h m (inl same) t =
          let there = subst (λ (x : InstructionIr). IsIn (pos n) (instruction_targets x)) same t in
          let targeted = add_starts positions method j.offset (instruction_targets j) s in
          let next = add_next (ends_block op j.opcode) rest targeted in
          (instruction_starts-Grows rest next ms).kept n (
            (add_next-Grows (ends_block op j.opcode) rest targeted ms).kept n
              (add_starts-starts j.offset (instruction_targets j) n s h m there))
      instruction_starts-target (j ∷ rest) i n s (mj, ms) h m (inr later) t =
          instruction_starts-target rest i n _ ms h m later t

      -- The instruction after one that ends a block is a start.
      pub instruction_starts-next :
          (is : List InstructionIr) (k : ℕ) (i j : InstructionIr) (s : Starts)
          → All (λ (i : InstructionIr). IsIn i.offset offsets) is
          → get_elem? is k ≡ some i
          → get_elem? is (suc k) ≡ some j
          → ends_block op i.opcode ≡ true
          → IsIn j.offset (instruction_starts op positions method is s).0
      instruction_starts-next [] k i j s ms hi hj e = cc
      instruction_starts-next (x ∷ []) zero i j s ms hi hj e = cc
      instruction_starts-next (x ∷ y ∷ rest) zero i j s (mx, ms) hi hj e =
          let targeted = add_starts positions method x.offset (instruction_targets x) s in
          let is_x : x ≡ i = cc in
          let is_y : y ≡ j = cc in
          let ends : ends_block op x.opcode ≡ true = rw is_x e in
          let here : IsIn j.offset (add_next (ends_block op x.opcode) (y ∷ rest) targeted).0 =
            rw (ends, is_y) ((IsIn-set_insert j.offset j.offset targeted.0).1 (inl refl)) in
          (instruction_starts-Grows (y ∷ rest) _ ms).kept j.offset here
      instruction_starts-next (x ∷ rest) (suc k) i j s (mx, ms) hi hj e =
          instruction_starts-next rest k i j _ ms hi hj e

    pub handler_starts-Grows :
        (hs : List ExceptionHandlerIr) (s : Starts)
        → Grows offsets s (handler_starts positions method hs s)
    unfolding add_start_if_instruction
    handler_starts-Grows [] s = Grows-refl offsets s
    handler_starts-Grows (h ∷ rest) s =
        let first =
          add_start_if_instruction positions method h.start_offset (pos h.start_offset) s in
        let second =
          add_start_if_instruction positions method h.handler_offset (pos h.handler_offset) first in
        let third = add_end (is_some (map_get positions h.end_offset)) h.end_offset second in
        Grows-trans offsets s first _
          (start_at-Grows (to_u16 (pos h.start_offset)) h.start_offset (pos h.start_offset) s)
          (Grows-trans offsets first second _
            (start_at-Grows (to_u16 (pos h.handler_offset)) h.handler_offset (pos h.handler_offset)
              first)
            (Grows-trans offsets second third _
              (add_end-Grows (is_some (map_get positions h.end_offset)) h.end_offset second
                (at h.end_offset).0)
              (handler_starts-Grows rest third)))

    -- A handler that is an instruction is a start.
    pub handler_starts-handler :
        (hs : List ExceptionHandlerIr) (h : ExceptionHandlerIr) (s : Starts)
        → h.handler_offset < 65536
        → IsIn h.handler_offset offsets
        → IsIn h hs
        → IsIn h.handler_offset (handler_starts positions method hs s).0
    unfolding add_start_if_instruction
    handler_starts-handler [] h s below m l = absurd l
    handler_starts-handler (g ∷ rest) h s below m (inl same) =
        let first =
          add_start_if_instruction positions method g.start_offset (pos g.start_offset) s in
        let second =
          add_start_if_instruction positions method g.handler_offset (pos g.handler_offset) first in
        let third = add_end (is_some (map_get positions g.end_offset)) g.end_offset second in
        let below' : g.handler_offset < 65536 = rw same at below in
        let there : IsIn g.handler_offset offsets = rw same at m in
        let started = start_at-starts g.handler_offset g.handler_offset first below' there in
        rw same (
          (handler_starts-Grows rest third).kept g.handler_offset (
            (add_end-Grows (is_some (map_get positions g.end_offset)) g.end_offset second
                (at g.end_offset).0).kept
              g.handler_offset started))
    handler_starts-handler (g ∷ rest) h s below m (inr later) =
        handler_starts-handler rest h _ below m later
