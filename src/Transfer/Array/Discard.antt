-- ===== src/Transfer/Array/Discard.antt =====
-- Popping the dimensions of an array in src/solver/transfer/array.rs, on stacks of any height.
use ferro_jtype.Prelude.{
  ℕ, zero, suc, ◌-◌, ◌≡◌, refl, sym, ap, ◌∙◌, List, [], ◌∷◌, ◌++◌, length, drop, replicate,
  append_assoc, append-nil, arith,
}
use ferro_jtype.Diagnostic.{Diagnostic}
use ferro_jtype.Types.Inferred.{reference}
use ferro_jtype.Frame.{FrameValue, IsWellFormed, plain}
use ferro_jtype.Frame.Stack
use ferro_jtype.Frame.Stack.Entries.{entries, with_entries, with_entries-entries}
use ferro_jtype.Transfer.{State, Site}
use ferro_jtype.Transfer.Stack.{discard, underflow}
use ferro_jtype.Transfer.Array.{
  discard_times, dimensions_of, multi_array_reference, type_name, allocate_multi_array,
}

-- The state after some pops: its entries, and the diagnostics added.
abbrev pub at_pops : State → List FrameValue → List Diagnostic → State
at_pops s vs added = record {
  frame = with_entries vs s.frame;
  diagnostics = s.diagnostics ++ added;
}

discard_times-empty :
    (n : ℕ) (site : Site) (s : State) (added : List Diagnostic)
    → discard_times n site (at_pops s [] added)
      ≡ (tt, at_pops s [] (added ++ replicate n (underflow site)))
unfolding discard_times discard Stack.pop_value
discard_times-empty zero site s added = ap (λ l. (tt, at_pops s [] l)) (sym (append-nil added))
discard_times-empty (suc n) site s added =
    let more = added ++ underflow site ∷ [] in
    let first : discard site (at_pops s [] added) ≡ (tt, at_pops s [] more) =
      ap (λ l. (tt, record { frame = with_entries [] s.frame; diagnostics = l }))
        (append_assoc s.diagnostics added (underflow site ∷ [])) in
    ap (λ p. discard_times n site p.1) first
    ∙ discard_times-empty n site s more
    ∙ ap (λ l. (tt, at_pops s [] l))
        (append_assoc added (underflow site ∷ []) (replicate n (underflow site)))

discard_times-drop :
    (n : ℕ) (site : Site) (s : State) (vs : List FrameValue)
    → discard_times n site (at_pops s vs [])
      ≡ (tt, at_pops s (drop n vs) (replicate (n - length vs) (underflow site)))
unfolding discard_times discard Stack.pop_value
discard_times-drop zero site s vs =
    let none_left : 0 - length vs ≡ 0 = omega arith in rw none_left refl
discard_times-drop (suc n) site s [] =
    let all_left : suc n - 0 ≡ suc n = omega arith in
    rw all_left (discard_times-empty (suc n) site s [])
discard_times-drop (suc n) site s (v ∷ vs) =
    let left : suc n - suc (length vs) ≡ n - length vs = omega arith in
    rw left (discard_times-drop n site s vs)

-- On a well-formed frame, `multianewarray` pops as many entries as the instruction has dimensions,
-- or all that are there, adds one warning of an underflow for each one that is missing, and pushes
-- the array type that the operand names, or the unknown reference; nothing else changes.
pub allocate_multi_array-drop :
    (site : Site) (s : State)
    → IsWellFormed s.frame
    → let n = dimensions_of site.instruction.operand in
      allocate_multi_array site s ≡ (
        tt,
        record {
          frame =
              with_entries
                (plain (reference (multi_array_reference (type_name site.instruction)))
                  ∷ drop n (entries s.frame))
                s.frame;
          diagnostics = s.diagnostics ++ replicate (n - length (entries s.frame)) (underflow site);
        },
      )
unfolding allocate_multi_array Stack.push
allocate_multi_array-drop site s w =
    let n = dimensions_of site.instruction.operand in
    let t = reference (multi_array_reference (type_name site.instruction)) in
    let start : at_pops s (entries s.frame) [] ≡ s =
      rw (with_entries-entries s.frame w, append-nil s.diagnostics) refl in
    ap (λ r. allocate_multi_array site r) (sym start)
    ∙ ap (λ p. (tt, record p.1 { frame = Stack.push t p.1.frame }))
        (discard_times-drop n site s (entries s.frame))
