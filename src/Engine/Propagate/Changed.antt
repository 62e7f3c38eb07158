-- ===== src/Engine/Propagate/Changed.antt =====
-- What `merge_frame` of src/solver/engine/propagate.rs answers.
use ferro_jtype.Prelude.{
  ℕ, ◌≡◌, ◌≢◌, refl, sym, ◌∙◌, ap, ◌↔◌, Bool, true, false, not, Option, none, some, as_bool,
  as_bool-eq-true, as_bool_yes,
}
use ferro_jtype.Prelude.Map.{map_get, map_insert}
use ferro_jtype.Hierarchy.{TypeHierarchy}
use ferro_jtype.Frame.{Frame}
use ferro_jtype.Frame.Merge.{merge_from}
use ferro_jtype.Ir.{MethodIr}
use ferro_jtype.Engine.{EngineState}
use ferro_jtype.Cfg.Edges.Members.{some-injective}
use ferro_jtype.Engine.Propagate.{Frame-discrete, report_mismatch, merge_into, merge_frame}
use ferro_jtype.Prelude.Map.Laws.{map_get-map_insert}

report-incoming :
    (b : Bool) (method : MethodIr) (offset : ℕ) (s : EngineState)
    → (report_mismatch b method offset s).incoming ≡ s.incoming
report-incoming true method offset s = refl
report-incoming false method offset s = refl

not-true : (d : Bool) → (not d ≡ true) → d ≡ true → ⊥
not-true true e f = cc
not-true false e f = cc

not-found : (d : Bool) → (d ≡ true → ⊥) → not d ≡ true
not-found true h = absurd (h refl)
not-found false h = refl

module _ (h : Option TypeHierarchy) (method : MethodIr) (target : ℕ) (outgoing : Frame) (offset : ℕ)
    (s : EngineState) where
  abbrev Changed : Option Frame → Type 0
  Changed o =
      ((merge_into h method target outgoing offset o s).0 ≡ true)
      ↔ (map_get (merge_into h method target outgoing offset o s).1.incoming target ≢ o)

  changed : (o : Option Frame) → Changed o
  changed none = (
    λ _ e. let nothing = sym (map_get-map_insert target outgoing s.incoming) ∙ e in cc,
    λ _. refl,
  )
  changed (some existing) =
      let g = merge_from h existing outgoing in
      let inserted = map_get-map_insert target g.0 s.incoming in
      let there : map_get (merge_into h method target outgoing offset (some existing) s).1.incoming
            target
          ≡ some g.0 =
        ap (λ m. map_get m target)
          (report-incoming g.1 method offset
            (record s { incoming = map_insert target g.0 s.incoming }))
        ∙ inserted in
      let same = Frame-discrete g.0 existing in
      (
        λ differs e.
            not-true (as_bool same) differs (as_bool_yes same (some-injective (sym there ∙ e))),
        λ differs.
            not-found (as_bool same)
              (λ is_same. differs (there ∙ ap some (as_bool-eq-true same is_same))),
      )

  -- `merge_frame` answers that the frame has changed exactly where the frame that has come in at the
  -- target is another one than before, or the first one.
  pub merge_frame-changed : ((merge_frame h method target outgoing offset s).0 ≡ true) ↔ (
      map_get (merge_frame h method target outgoing offset s).1.incoming target
      ≢ map_get s.incoming target)
  unfolding merge_frame
  merge_frame-changed = changed (map_get s.incoming target)
