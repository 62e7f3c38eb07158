-- ===== src/Cfg/Edges/Members.antt =====
-- Which edges the loops of src/cfg/build.rs over successors and handlers add.
use ferro_jtype.Prelude.{
  ℕ, ◌<◌, ◌≤◌, ◌≡◌, refl, sym, ap, subst, ◌↔◌, ◌⊎◌, inl, inr, true, List, [], ◌∷◌, ◌++◌, Option,
  none, some, any, Bool-cases, as_bool, as_bool-eq-true, as_bool_yes, if◌then◌else◌, arith,
}
use ferro_jtype.Prelude.Int.{ℤ}
use ferro_jtype.Prelude.Map.{map_get}
use ferro_jtype.Prelude.Members.{IsIn, IsDistinct, IsIn-append, append-IsDistinct}
use ferro_jtype.Types.ClassName.{ClassName}
use ferro_jtype.Ir.{MethodIr, InstructionIr, ExceptionHandlerIr}
use ferro_jtype.Opcodes.{Opcodes}
use ferro_jtype.Cfg.{BlockId, EdgeKind, Edge, ExceptionEdge, OffsetMap}
use ferro_jtype.Cfg.Opcode.{may_throw}
use ferro_jtype.Cfg.Edges.{
  Successors, Edges, resolve_block, push_edge, push_exception_edge, Edge-discrete,
  ExceptionEdge-discrete, add_edge, add_successors, add_handler, add_handlers, add_exception_edges,
}

module _ {A : Type 0} (same : (x y : A) → Dec (x ≡ y)) where
  found-IsIn : (e : A) (es : List A) → any (λ x. as_bool (same x e)) es ≡ true → IsIn e es
  found-IsIn e [] h = cc
  found-IsIn e (x ∷ es) h = elim (Bool-cases (as_bool (same x e))) [
    | inl is_x ↦ inl (sym (as_bool-eq-true (same x e) is_x))
    | inr not_x ↦
        let rest : any (λ x. as_bool (same x e)) es ≡ true = rw not_x at h in
        inr (found-IsIn e es rest)
  ]

  -- An element is pushed where it is not there yet.
  pushed_iff :
      (x e : A) (es : List A)
      → IsIn x (if any (λ y. as_bool (same y e)) es then es else es ++ e ∷ [])
        ↔ (IsIn x es ⊎ (x ≡ e))
  pushed_iff x e es = elim (Bool-cases (any (λ y. as_bool (same y e)) es)) [
    | inl found ↦ rw found (
      inl,
      λ either. elim either [
        | inl m ↦ m
        | inr is_e ↦ subst (λ y. IsIn y es) (sym is_e) (found-IsIn e es found)
      ],
    )
    | inr missing ↦ rw missing (ground (arith, IsIn-append x es (e ∷ [])))
  ]

  found : (e : A) (es : List A) → IsIn e es → any (λ x. as_bool (same x e)) es ≡ true
  found e [] m = absurd m
  found e (x ∷ es) (inl is_x) = rw (as_bool_yes (same x e) (sym is_x)) refl
  found e (x ∷ es) (inr m) = elim (Bool-cases (as_bool (same x e))) [
    | inl is_x ↦ rw is_x refl
    | inr not_x ↦ rw not_x (found e es m)
  ]

  pushed-IsDistinct :
      (e : A) (es : List A)
      → IsDistinct es
      → IsDistinct (if any (λ y. as_bool (same y e)) es then es else es ++ e ∷ [])
  pushed-IsDistinct e es d = elim (Bool-cases (any (λ y. as_bool (same y e)) es)) [
    | inl there ↦ rw there d
    | inr missing ↦
        rw missing (append-IsDistinct e es (λ m. let there = found e es m in absurd (cc)) d)
  ]

-- One of the successors resolves to the target of the edge.
abbrev pub Leads : OffsetMap → Edge → Successors → Type 0
Leads blocks e [] = ⊥
Leads blocks e ((target, kind) ∷ rest) =
    (resolve_block blocks target ≡ some e.target) × (e.kind ≡ kind) ⊎ Leads blocks e rest

pub some-injective : {A : Type 0} {x y : A} → some x ≡ some y → x ≡ y
some-injective e = cc

edge-eq : (e f : Edge) → e.target ≡ f.target → e.kind ≡ f.kind → e ≡ f
edge-eq e f p q j = record { target = p j; kind = q j }

add_edge_iff :
    (o : Option BlockId) (method : MethodIr) (offset : ℕ) (target : ℤ) (kind : EdgeKind) (s : Edges)
    (e : Edge)
    → IsIn e (add_edge o method offset target kind s).0
      ↔ (IsIn e s.0 ⊎ (o ≡ some e.target) × (e.kind ≡ kind))
unfolding push_edge
add_edge_iff (some block) method offset target kind s e =
    let new : Edge = record { target = block; kind = kind } in
    let pushed = pushed_iff Edge-discrete e new s.0 in
    (
      λ m. elim (pushed.0 m) [
        | inl there ↦ inl there
        | inr is_new ↦
            inr (ap (λ (x : Edge). some x.target) (sym is_new), ap (λ (x : Edge). x.kind) is_new)
      ],
      λ either. elim either [
        | inl there ↦ pushed.1 (inl there)
        | inr (to, of_kind) ↦ pushed.1 (inr (edge-eq e new (sym (some-injective to)) of_kind))
      ],
    )
add_edge_iff none method offset target kind s e =
    (inl, λ either. elim either [ inl m ↦ m | inr (no_block, _) ↦ cc ])

pub add_successors_iff :
    (blocks : OffsetMap) (method : MethodIr) (offset : ℕ) (l : Successors) (s : Edges) (e : Edge)
    → IsIn e (add_successors blocks method offset l s).0 ↔ (IsIn e s.0 ⊎ Leads blocks e l)
add_successors_iff blocks method offset [] s e = ground arith
add_successors_iff blocks method offset ((target, kind) ∷ rest) s e =
    let added = add_edge (resolve_block blocks target) method offset target kind s in
    ground (
      arith,
      add_edge_iff (resolve_block blocks target) method offset target kind s e,
      add_successors_iff blocks method offset rest added e,
    )

add_edge-IsDistinct :
    (o : Option BlockId) (method : MethodIr) (offset : ℕ) (target : ℤ) (kind : EdgeKind) (s : Edges)
    → IsDistinct s.0
    → IsDistinct (add_edge o method offset target kind s).0
unfolding push_edge
add_edge-IsDistinct (some block) method offset target kind s d =
    pushed-IsDistinct Edge-discrete (record { target = block; kind = kind }) s.0 d
add_edge-IsDistinct none method offset target kind s d = d

pub add_successors-IsDistinct :
    (blocks : OffsetMap) (method : MethodIr) (offset : ℕ) (l : Successors) (s : Edges)
    → IsDistinct s.0
    → IsDistinct (add_successors blocks method offset l s).0
add_successors-IsDistinct blocks method offset [] s d = d
add_successors-IsDistinct blocks method offset ((target, kind) ∷ rest) s d =
    add_successors-IsDistinct blocks method offset rest _
      (add_edge-IsDistinct (resolve_block blocks target) method offset target kind s d)

-- One of the handlers covers the offset and is the target of the edge.
abbrev pub Catches : OffsetMap → ℕ → ExceptionEdge → List ExceptionHandlerIr → Type 0
Catches blocks offset e [] = ⊥
Catches blocks offset e (h ∷ hs) =
    (h.start_offset ≤ offset)
      × (offset < h.end_offset)
      × (map_get blocks h.handler_offset ≡ some e.target)
      × (e.instruction_offset ≡ offset)
      × (e.catch_type ≡ h.catch_type)
    ⊎ Catches blocks offset e hs

exception_edge-eq :
    (e f : ExceptionEdge)
    → e.instruction_offset ≡ f.instruction_offset
    → e.target ≡ f.target
    → e.catch_type ≡ f.catch_type
    → e ≡ f
exception_edge-eq e f p q r j = record { instruction_offset = p j; target = q j; catch_type = r j }

add_handler_iff :
    (o : Option BlockId) (offset : ℕ) (catch_type : Option ClassName) (es : List ExceptionEdge)
    (e : ExceptionEdge)
    → IsIn e (add_handler o offset catch_type es) ↔ (
        IsIn e es
        ⊎ (o ≡ some e.target) × (e.instruction_offset ≡ offset) × (e.catch_type ≡ catch_type))
unfolding push_exception_edge
add_handler_iff none offset catch_type es e = ground arith
add_handler_iff (some block) offset catch_type es e =
    let new : ExceptionEdge = record {
      instruction_offset = offset;
      target = block;
      catch_type = catch_type;
    } in
    let pushed = pushed_iff ExceptionEdge-discrete e new es in
    (
      λ m. elim (pushed.0 m) [
        | inl there ↦ inl there
        | inr is_new ↦ inr (
          ap (λ (x : ExceptionEdge). some x.target) (sym is_new),
          ap (λ (x : ExceptionEdge). x.instruction_offset) is_new,
          ap (λ (x : ExceptionEdge). x.catch_type) is_new,
        )
      ],
      λ either. elim either [
        | inl there ↦ pushed.1 (inl there)
        | inr (to, at, of_type) ↦
            pushed.1 (inr (exception_edge-eq e new at (sym (some-injective to)) of_type))
      ],
    )

add_handlers_iff :
    (blocks : OffsetMap) (offset : ℕ) (hs : List ExceptionHandlerIr) (es : List ExceptionEdge)
    (e : ExceptionEdge)
    → IsIn e (add_handlers blocks offset hs es) ↔ (IsIn e es ⊎ Catches blocks offset e hs)
add_handlers_iff blocks offset [] es e = ground arith
add_handlers_iff blocks offset (h ∷ hs) es e =
    let added = add_handler (map_get blocks h.handler_offset) offset h.catch_type es in
    ground (
      arith,
      add_handler_iff (map_get blocks h.handler_offset) offset h.catch_type es e,
      add_handlers_iff blocks offset hs added e,
      add_handlers_iff blocks offset hs es e,
    )

module _ (op : Opcodes) (blocks : OffsetMap) (handlers : List ExceptionHandlerIr) where
  -- One of the instructions may throw where a handler covers it.
  abbrev pub Throws : ExceptionEdge → List InstructionIr → Type 0
  Throws e [] = ⊥
  Throws e (i ∷ is) =
      (may_throw op i.opcode ≡ true) × Catches blocks i.offset e handlers ⊎ Throws e is

  pub add_exception_edges_iff :
      (is : List InstructionIr) (es : List ExceptionEdge) (e : ExceptionEdge)
      → IsIn e (add_exception_edges op blocks handlers is es) ↔ (IsIn e es ⊎ Throws e is)
  add_exception_edges_iff [] es e = ground arith
  add_exception_edges_iff (i ∷ is) es e =
      let added = add_handlers blocks i.offset handlers es in
      ground (
        arith,
        add_handlers_iff blocks i.offset handlers es e,
        add_exception_edges_iff is added e,
        add_exception_edges_iff is es e,
      )
