-- ===== src/Cfg/Build/Connected.antt =====
-- The loop of src/cfg/build.rs that connects the blocks adds their edges and changes nothing else.
use ferro_jtype.Prelude.{
  ℕ, zero, suc, ◌<◌, ◌≤◌, ◌-◌, ◌≡◌, refl, sym, subst, ◌↔◌, ◌⊎◌, inl, inr, List, [], ◌∷◌, some, All,
  map, length, get_elem?, take, drop, length-map, arith,
}
use ferro_jtype.Prelude.Members.{IsIn, IsDistinct}
use ferro_jtype.Ir.{MethodIr, InstructionIr}
use ferro_jtype.Diagnostic.{Diagnostic}
use ferro_jtype.Opcodes.{Opcodes}
use ferro_jtype.Cfg.{BasicBlock, Edge, ExceptionEdge, OffsetMap}
use ferro_jtype.Cfg.Starts.{offsets_of}
use ferro_jtype.Cfg.Edges.{ordinary_successors, add_successors, add_exception_edges}
use ferro_jtype.Cfg.Edges.Members.{
  Leads, Throws, add_successors_iff, add_successors-IsDistinct, add_exception_edges_iff,
}
use ferro_jtype.Cfg.Build.{element_before, slice, connect, connect_all}
use ferro_jtype.Cfg.Build.Partition.{IsBlock, HasNoEdge, bodies, slice_within}

pub get_elem?-below :
    {A : Type 0} (xs : List A) (i : ℕ) → i < length xs → (x : A) × (get_elem? xs i ≡ some x)
get_elem?-below [] i h = absurd (omega arith)
get_elem?-below (x ∷ xs) zero h = (x, refl)
get_elem?-below (x ∷ xs) (suc i) h = get_elem?-below xs i (omega arith)

pub element_before-below :
    {A : Type 0} (xs : List A) (i j : ℕ)
    → i < j
    → j ≤ length xs
    → (x : A) × (element_before xs j ≡ some x)
element_before-below xs i zero h k = absurd (omega arith)
element_before-below xs i (suc j) h k = get_elem?-below xs j (omega arith)

none_before :
    {A : Type 0} {P : Type 0} (x : A) (xs ys : List A)
    → xs ≡ []
    → IsIn x ys ↔ (IsIn x xs ⊎ P)
    → IsIn x ys ↔ P
none_before x xs ys e h = (
  λ m. elim (h.0 m) [
    | inl before ↦ let nowhere : IsIn x [] = rw e at before in absurd nowhere
    | inr p ↦ p
  ],
  λ p. h.1 (inr p),
)

module _ (op : Opcodes) (positions blocks : OffsetMap) (method : MethodIr) (starts : List ℕ) where
  -- The edges of a block, from its last instruction, its instructions and the handlers.
  pub record IsConnected (b : BasicBlock) : Type 0 where
    pub last : InstructionIr
    pub body : List InstructionIr
    pub is_last : element_before method.instructions b.instruction_range.stop ≡ some last
    pub is_body : slice method.instructions b.instruction_range ≡ some body
    pub leads :
        (e : Edge) → IsIn e b.successors ↔ Leads blocks e (ordinary_successors op last positions)
    pub distinct : IsDistinct b.successors
    pub throws :
        (e : ExceptionEdge)
        → IsIn e b.exception_successors ↔ Throws op blocks method.exception_handlers e body

  abbrev Block : BasicBlock → Type 0
  Block = IsBlock (offsets_of method.instructions) starts

  -- The block after the round: at the same place, with its edges.
  pub record Connects (b b' : BasicBlock) : Type 0 where
    pub same_range : b'.instruction_range ≡ b.instruction_range
    pub same_start : b'.start_offset ≡ b.start_offset
    pub connected : IsConnected b'

  abbrev pub ConnectsAll : List BasicBlock → List BasicBlock → Type 0
  ConnectsAll (b ∷ bs) (b' ∷ bs') = Connects b b' × ConnectsAll bs bs'
  ConnectsAll [] [] = Unit
  ConnectsAll _ _ = ⊥

  connect-Connects :
      (b : BasicBlock) (ds : List Diagnostic)
      → Block b
      → HasNoEdge b
      → (b' : BasicBlock) × (ds' : List Diagnostic) × (connect op positions blocks method b ds
          ≡ some (b', ds'))
        × Connects b b'
  unfolding connect
  connect-Connects b ds w (no_edge, no_exception) =
      let is = method.instructions in
      let range = b.instruction_range in
      let sized : range.stop ≤ length is =
        omega (arith, w.ends, length-map (λ (i : InstructionIr). i.offset) is) in
      let (last, is_last) =
        element_before-below is range.start range.stop w.has_instruction sized in
      let in_order : range.start ≤ range.stop = omega (arith, w.has_instruction) in
      let is_body = slice_within is range.start range.stop in_order sized in
      let body = take (range.stop - range.start) (drop range.start is) in
      let successors = ordinary_successors op last positions in
      let added = add_successors blocks method last.offset successors (b.successors, ds) in
      let thrown =
        add_exception_edges op blocks method.exception_handlers body b.exception_successors in
      (
        record b { successors = added.0; exception_successors = thrown },
        added.1,
        rw (is_last, is_body) refl,
        record {
          same_range = refl;
          same_start = refl;
          connected = record {
            last = last;
            body = body;
            is_last = is_last;
            is_body = is_body;
            leads = λ e.
                none_before e b.successors added.0 no_edge
                  (add_successors_iff blocks method last.offset successors (b.successors, ds) e);
            distinct =
                add_successors-IsDistinct blocks method last.offset successors (b.successors, ds)
                  (subst IsDistinct (sym no_edge) tt);
            throws = λ e. none_before e b.exception_successors thrown no_exception (
                add_exception_edges_iff op blocks method.exception_handlers body
                  b.exception_successors e);
          };
        },
      )

  pub connect_all-Connects :
      (bs : List BasicBlock) (ds : List Diagnostic)
      → All Block bs
      → All HasNoEdge bs
      → (bs' : List BasicBlock) × (ds' : List Diagnostic) × (connect_all op positions blocks method
            bs ds
          ≡ some (bs', ds'))
        × ConnectsAll bs bs'
  connect_all-Connects [] ds w u = ([], ds, refl, tt)
  connect_all-Connects (b ∷ bs) ds (w, ws) (u, us) =
      let (b', ds', done, c) = connect-Connects b ds w u in
      let (bs', ds'', rest, cs) = connect_all-Connects bs ds' ws us in
      (b' ∷ bs', ds'', rw (done, rest, connect_all) refl, (c, cs))

  IsBlock-connected : (b b' : BasicBlock) → Connects b b' → Block b → Block b'
  IsBlock-connected b b' c w = record {
    begins = rw (c.same_range, c.same_start) w.begins;
    has_instruction = rw c.same_range w.has_instruction;
    ends = rw c.same_range w.ends;
    followed = rw c.same_range w.followed;
    undivided = rw c.same_range w.undivided;
  }

  -- The connected blocks are at their places, each with its edges.
  pub IsConnected-blocks :
      (bs bs' : List BasicBlock)
      → ConnectsAll bs bs'
      → All Block bs
      → All (λ b. Block b × IsConnected b) bs'
  IsConnected-blocks [] [] c w = tt
  IsConnected-blocks [] (b' ∷ bs') c w = absurd c
  IsConnected-blocks (b ∷ bs) [] c w = absurd c
  IsConnected-blocks (b ∷ bs) (b' ∷ bs') (c, cs) (w, ws) =
      ((IsBlock-connected b b' c w, c.connected), IsConnected-blocks bs bs' cs ws)

  pub connected_starts :
      (bs bs' : List BasicBlock)
      → ConnectsAll bs bs'
      → map (λ (b : BasicBlock). b.start_offset) bs' ≡ map (λ (b : BasicBlock). b.start_offset) bs
  connected_starts [] [] c = refl
  connected_starts [] (b' ∷ bs') c = absurd c
  connected_starts (b ∷ bs) [] c = absurd c
  connected_starts (b ∷ bs) (b' ∷ bs') (c, cs) = rw (c.same_start, connected_starts bs bs' cs) refl

  pub connected_bodies :
      {A : Type 0} (is : List A) (bs bs' : List BasicBlock)
      → ConnectsAll bs bs'
      → bodies is bs' ≡ bodies is bs
  connected_bodies is [] [] c = refl
  connected_bodies is [] (b' ∷ bs') c = absurd c
  connected_bodies is (b ∷ bs) [] c = absurd c
  connected_bodies is (b ∷ bs) (b' ∷ bs') (c, cs) =
      rw (c.same_range, connected_bodies is bs bs' cs) refl
