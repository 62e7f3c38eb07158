-- ===== src/Witnesses/Frames.antt =====
-- Inputs for the properties of frames and of instructions.
use ferro_jtype.Prelude.{
  ◌+◌, ◌-◌, ◌≡◌, ◌≢◌, inl, inr, refl, arith, true, false, ◌&&◌, List, [], ◌∷◌, ◌++◌, none, some,
  length, drop, replicate, max, ◌==◌, if◌then◌else◌, codes,
}
use ferro_jtype.Types.Primitive
use ferro_jtype.Frame.Targets.{merged_return_targets}
use ferro_jtype.Frame.Targets.Union.{IsUnion, brought, merged_return_targets-IsUnion}
use ferro_jtype.Types.Inferred.{return_address}
use ferro_jtype.Types.Inferred.Meaning.{Describes, long_value, int_value, ref_value, object}
use ferro_jtype.Hierarchy.Sound.{Subtype, self, up}
use ferro_jtype.Types.Inferred.{bottom, int, long, reference, exact}
use ferro_jtype.Frame
use ferro_jtype.Frame.{Frame, FrameValue, plain}
use ferro_jtype.Frame.Entry.{entry_frame}
use ferro_jtype.Frame.Entry.Length.{argument_slots, length-entry_frame}
use ferro_jtype.Frame.Locals.{is_wide, set_local_value}
use ferro_jtype.Frame.Locals.Writes.{local_cell, value_at, value_at-set_local_value}
use ferro_jtype.Frame.Stack.Entries.{entries, with_entries}
use ferro_jtype.Frame.{store}
use ferro_jtype.Frame.Locals.{or_origin, store_local_value, refine_integral_local}
use ferro_jtype.Frame.Locals.StoreLoad.{push_local-store_local_value}
use ferro_jtype.Frame.Stack.{top_value, push_local}
use ferro_jtype.Opcodes.{jvm}
use ferro_jtype.Transfer.Dispatch.Keeps.{transfer_all, transfer_all-IsWellFormed}
use ferro_jtype.Frame.Merge.{merge_from}
use ferro_jtype.Frame.Merge.Sound.{
  local_at, merge_from-Describes, DescribesStack, merge_from-DescribesStack,
}
use ferro_jtype.Frame.Merge.Mismatch.{merge_from_settled}
use ferro_jtype.Frame.WellFormed.Reachable.{
  at_entry, after, merged, apply, pushing, popping, IsReachable-IsWellFormed,
}
use ferro_jtype.Ir.{MethodIr, multi_array}
use ferro_jtype.Transfer.{State, Site}
use ferro_jtype.Transfer.Stack.{underflow}
use ferro_jtype.Transfer.Stack.Words.{dup_two_x1, run, at_entries, words, effect}
use ferro_jtype.Transfer.Stack.Effect.{run-words}
use ferro_jtype.Transfer.Array.{multi_array_reference, type_name, allocate_multi_array}
use ferro_jtype.Transfer.Array.Discard.{allocate_multi_array-drop}
use ferro_jtype.Witnesses.{one_array, base_class, left_class, left_type, two_classes}

-- A frame with two locals and the given entries.
abbrev two_locals : List FrameValue → Frame
two_locals vs = with_entries vs (record {
  locals = int ∷ left_type ∷ [];
  stack = [];
  local_return_targets = none ∷ none ∷ [];
  local_value_origins = none ∷ none ∷ [];
  stack_return_targets = [];
  stack_local_origins = [];
  stack_instanceof_facts = [];
  local_variable_hints = [];
})

abbrev three_words : List FrameValue
three_words = plain long ∷ plain int ∷ []

three_words-IsWellFormed : Frame.IsWellFormed (two_locals three_words)
three_words-IsWellFormed = record {
  targets_of_locals = refl;
  origins_of_locals = refl;
  targets_of_stack = refl;
  origins_of_stack = refl;
  facts_of_stack = refl;
}

value_at-set_local_value_example :
    value_at 2 (set_local_value 1 (plain long) (two_locals three_words)) ≡ (
      if is_wide long && 2 == 1 + 1
      then plain bottom
      else if 2 == 1
      then local_cell long none none
      else value_at 2 (two_locals three_words))
value_at-set_local_value_example =
    value_at-set_local_value 1 (plain long) (two_locals three_words) 2 three_words-IsWellFormed

length-entry_frame_example :
    length (entry_frame base_class false one_array 0 10 []).locals
    ≡ (if argument_slots one_array 0 == 0 then 10 else argument_slots one_array 0)
length-entry_frame_example = length-entry_frame base_class false one_array 0 10 []

abbrev reached : Frame
reached = apply (pushing long) (entry_frame base_class true one_array 0 2 [])

IsReachable-IsWellFormed_example :
    Frame.IsWellFormed (merge_from none reached (apply popping reached)).0
IsReachable-IsWellFormed_example =
    IsReachable-IsWellFormed (merge_from none reached (apply popping reached)).0 (
      merged none reached (apply popping reached)
        (after (pushing long) (entry_frame base_class true one_array 0 2 [])
          (at_entry base_class true one_array 0 2 []))
        (after popping reached (
          after (pushing long) (entry_frame base_class true one_array 0 2 [])
            (at_entry base_class true one_array 0 2 []))))

abbrev with_base : Frame
with_base = record (two_locals []) { locals = int ∷ reference (exact base_class) ∷ [] }

left-Subtype : Subtype (some two_classes) left_class base_class
unfolding ferro_jtype.Prelude.ℕ_discrete ferro_jtype.Types.ClassName.ClassName-discrete
left-Subtype = up self (inl refl)

merge_from-Describes_example :
    Describes
      (some two_classes)
      (ref_value (object left_class))
      (local_at (merge_from (some two_classes) (two_locals []) with_base).0.locals 1)
merge_from-Describes_example =
    merge_from-Describes (some two_classes) (two_locals []) with_base 1
      (ref_value (object left_class)) (inr (object left_class, refl, left-Subtype))

abbrev three_others : List FrameValue
three_others = plain long ∷ plain left_type ∷ []

merge_from-DescribesStack_example :
    ((merge_from none (two_locals three_words) (two_locals three_others)).1 ≡ false)
    × DescribesStack none
        (long_value ∷ int_value Primitive.int ∷ [])
        (merge_from none (two_locals three_words) (two_locals three_others)).0.stack
merge_from-DescribesStack_example =
    merge_from-DescribesStack none (two_locals three_words) (two_locals three_others)
      (long_value ∷ int_value Primitive.int ∷ []) refl (inl (refl, (refl, tt)))

no_height-ne : length (two_locals three_words).stack ≢ length (two_locals []).stack
no_height-ne = omega arith

merge_from_settled_example :
    (merge_from none
      (merge_from none (two_locals three_words) (two_locals [])).0
      (two_locals three_others)).0.stack
    ≡ (merge_from none (two_locals three_words) (two_locals [])).0.stack
merge_from_settled_example =
    merge_from_settled none (two_locals three_words) (two_locals []) (two_locals three_others)
      no_height-ne (omega arith)

abbrev test_method : MethodIr
test_method = record {
  name = codes "run";
  descriptor_text = codes "([I)V";
  descriptor = one_array;
  generic_signature = none;
  access_flags = 0;
  max_stack = 8;
  max_locals = 2;
  local_variable_hints = [];
  instructions = [];
  exception_handlers = [];
}

-- `multianewarray` of three dimensions
abbrev test_site : Site
test_site = record {
  method = test_method;
  instruction = record {
    offset = 4;
    opcode = 197;
    operand = multi_array (some (codes "[[[I")) 3 7;
  };
}

abbrev test_state : State
test_state = record { frame = two_locals three_words; diagnostics = [] }

run-words_example :
    (vs : List FrameValue) × (run dup_two_x1 test_site test_state ≡ (tt, at_entries test_state vs))
    × (words vs ≡ effect dup_two_x1 (words (entries test_state.frame)))
unfolding entries
run-words_example = run-words dup_two_x1 test_site test_state three_words-IsWellFormed refl

allocate_multi_array-drop_example : allocate_multi_array test_site test_state ≡ (
  tt,
  record {
    frame =
        with_entries
          (plain (reference (multi_array_reference (type_name test_site.instruction)))
            ∷ drop 3 (entries test_state.frame))
          test_state.frame;
    diagnostics =
        test_state.diagnostics
        ++ replicate (3 - length (entries test_state.frame)) (underflow test_site);
  },
)
allocate_multi_array-drop_example =
    allocate_multi_array-drop test_site test_state three_words-IsWellFormed

merged_return_targets-IsUnion_example :
    IsUnion (brought return_address (some (4 ∷ []))) (brought return_address (some (2 ∷ []))) (
      merged_return_targets return_address
        (some (4 ∷ []))
        return_address
        (some (2 ∷ []))
        return_address)
merged_return_targets-IsUnion_example =
    merged_return_targets-IsUnion return_address return_address (some (4 ∷ [])) (some (2 ∷ []))
      return_address refl

push_local-store_local_value_example :
    top_value (push_local 1 9 (store_local_value 1 (plain int) 4 (two_locals three_words)))
    ≡ some (
        local_cell
          (refine_integral_local (two_locals three_words) 1 9 int)
          none
          (or_origin none (store 1 4)))
push_local-store_local_value_example =
    push_local-store_local_value 1 4 9 (plain int) (two_locals three_words) three_words-IsWellFormed

abbrev dup2_x2_site : Site
dup2_x2_site = record test_site { instruction = record test_site.instruction { opcode = 94 } }

abbrev some_sites : List Site
some_sites = test_site ∷ dup2_x2_site ∷ []

abbrev reached_state : State
reached_state = record { frame = reached; diagnostics = [] }

transfer_all-IsWellFormed_example :
    Frame.IsWellFormed (transfer_all jvm none none some_sites reached_state).frame
transfer_all-IsWellFormed_example =
    transfer_all-IsWellFormed jvm none none some_sites reached_state (
      after (pushing long) (entry_frame base_class true one_array 0 2 [])
        (at_entry base_class true one_array 0 2 []))
