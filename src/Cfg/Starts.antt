-- ===== src/Cfg/Starts.antt =====
-- The starts of the basic blocks in src/cfg/build.rs.
pub mod Grows
pub mod Complete
use ferro_jtype.Prelude.{
  ℕ, suc, Bool, true, false, List, [], ◌∷◌, ◌++◌, map, Option, none, some, ltb, if◌then◌else◌,
}
use ferro_jtype.Prelude.Int.{ℤ, pos}
use ferro_jtype.Prelude.Map.{map_get, map_insert}
use ferro_jtype.Ir.{
  MethodIr, InstructionIr, InstructionOperandIr, ExceptionHandlerIr, branch, table_switch,
  lookup_switch,
}
use ferro_jtype.Diagnostic.{
  Diagnostic, warning, invalid_control_flow, method_location, at_offset, target_without_instruction,
}
use ferro_jtype.Opcodes.{Opcodes}
use ferro_jtype.Cfg.{OffsetMap}
use ferro_jtype.Cfg.Opcode.{ends_block}
use ferro_jtype.Frame.Targets.{set_insert}

abbrev pub invalid_target_diagnostic : MethodIr → ℕ → ℤ → Diagnostic
invalid_target_diagnostic method source_offset target = record {
  severity = warning;
  kind = invalid_control_flow;
  location = at_offset source_offset (method_location method.name method.descriptor_text);
  message = target_without_instruction target;
}

-- `u16::try_from` of an `i32`
abbrev pub to_u16 : ℤ → Option ℕ
to_u16 (pos n) = if ltb n 65536 then some n else none
to_u16 _ = none

-- Each element of the list as a key of its index, from the given index on.
abbrev pub index_from : ℕ → List ℕ → OffsetMap → OffsetMap
index_from i [] known = known
index_from i (offset ∷ offsets) known = index_from (suc i) offsets (map_insert offset i known)

abbrev pub offsets_of : List InstructionIr → List ℕ
offsets_of is = map (λ (i : InstructionIr). i.offset) is

abbrev pub is_some {ℓ} : {A : Type ℓ} → Option A → Bool
is_some none = false
is_some (some _) = true

-- The starts of blocks, and the diagnostics so far.
abbrev pub Starts : Type 0
Starts = List ℕ × List Diagnostic

abbrev start_if : Bool → MethodIr → ℕ → ℕ → Starts → Starts
start_if true method source_offset target (starts, ds) = (set_insert target starts, ds)
start_if false method source_offset target (starts, ds) =
    (starts, ds ++ invalid_target_diagnostic method source_offset (pos target) ∷ [])

abbrev start_at : Option ℕ → OffsetMap → MethodIr → ℕ → ℤ → Starts → Starts
start_at none positions method source_offset target (starts, ds) =
    (starts, ds ++ invalid_target_diagnostic method source_offset target ∷ [])
start_at (some n) positions method source_offset target s =
    start_if (is_some (map_get positions n)) method source_offset n s

unfoldable pub add_start_if_instruction : OffsetMap → MethodIr → ℕ → ℤ → Starts → Starts
add_start_if_instruction positions method source_offset target s =
    start_at (to_u16 target) positions method source_offset target s

-- The targets of a lookup switch, of which each has a key before it.
abbrev pub second_of_each : List (ℤ × ℤ) → List ℤ
second_of_each [] = []
second_of_each ((_, target) ∷ rest) = target ∷ second_of_each rest

abbrev pub targets_of : InstructionOperandIr → List ℤ
targets_of (branch target) = target ∷ []
targets_of (table_switch default_target targets) = default_target ∷ targets
targets_of (lookup_switch default_target targets) = default_target ∷ second_of_each targets
targets_of _ = []

abbrev pub instruction_targets : InstructionIr → List ℤ
instruction_targets instruction = targets_of instruction.operand

abbrev pub add_starts : OffsetMap → MethodIr → ℕ → List ℤ → Starts → Starts
add_starts positions method source_offset [] s = s
add_starts positions method source_offset (target ∷ targets) s =
    add_starts positions method source_offset targets
      (add_start_if_instruction positions method source_offset target s)

-- The offset of the next instruction starts a block where the one before ends one.
abbrev pub add_next : Bool → List InstructionIr → Starts → Starts
add_next true (next ∷ rest) (starts, ds) = (set_insert next.offset starts, ds)
add_next _ _ s = s

-- The loop over the instructions.
abbrev pub instruction_starts :
    Opcodes → OffsetMap → MethodIr → List InstructionIr → Starts → Starts
instruction_starts op positions method [] s = s
instruction_starts op positions method (i ∷ rest) s = instruction_starts op positions method rest (
    add_next (ends_block op i.opcode) rest
      (add_starts positions method i.offset (instruction_targets i) s))

abbrev pub add_end : Bool → ℕ → Starts → Starts
add_end true offset (starts, ds) = (set_insert offset starts, ds)
add_end false offset s = s

-- The loop over the exception handlers.
abbrev pub handler_starts : OffsetMap → MethodIr → List ExceptionHandlerIr → Starts → Starts
handler_starts positions method [] s = s
handler_starts positions method (h ∷ rest) s = handler_starts positions method rest (
    add_end (is_some (map_get positions h.end_offset)) h.end_offset (
      add_start_if_instruction positions method h.handler_offset (pos h.handler_offset)
        (add_start_if_instruction positions method h.start_offset (pos h.start_offset) s)))
