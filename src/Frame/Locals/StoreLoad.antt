-- ===== src/Frame/Locals/StoreLoad.antt =====
-- Loading a local of src/solver/frame.rs that has just been stored.
use ferro_jtype.Prelude.{ℕ, ◌+◌, ◌≡◌, ap, ◌∙◌, true, false, some, ◌==◌, ◌&&◌, Bool, refl, arith}
use ferro_jtype.Frame.{Frame, FrameValue, IsWellFormed, store}
use ferro_jtype.Frame.Locals.{
  or_origin, set_local_value, store_local_value, refine_integral_local, get_local_value, is_wide,
}
use ferro_jtype.Frame.Locals.Writes.{local_cell, value_at, value_at-set_local_value}
use ferro_jtype.Frame.Stack.{push_local, push_value, top_value}

and_false : (b : Bool) → (b && false) ≡ false
and_false true = refl
and_false false = refl

-- A value that is stored in a local of a well-formed frame and loaded from it at a later offset is
-- on top of the stack again, with its return targets: its type as the local variable table refines
-- it there, its origin the one it had, or the store where it had none, and its `instanceof` fact
-- forgotten.
pub push_local-store_local_value :
    (local stored loaded : ℕ) (v : FrameValue) (f : Frame)
    → IsWellFormed f
    → top_value (push_local local loaded (store_local_value local v stored f))
      ≡ some (
          local_cell
            (refine_integral_local f local loaded v.value)
            v.return_targets
            (or_origin v.local_origin (store local stored)))
unfolding push_local push_value top_value store_local_value refine_integral_local set_local_value
    get_local_value
push_local-store_local_value local stored loaded v f w =
    let o = or_origin v.local_origin (store local stored) in
    let kept = record v { local_origin = o } in
    let self : (local == local) ≡ true = ground arith in
    let above : (local == local + 1) ≡ false = ground arith in
    let cell : value_at local (set_local_value local kept f)
        ≡ local_cell v.value v.return_targets o =
      value_at-set_local_value local kept f local w
      ∙ rw (above, and_false (is_wide v.value), self) refl in
    ap
      (λ c.
        some (
          local_cell (refine_integral_local f local loaded c.value) c.return_targets
            c.local_origin))
      cell
