-- ===== src/Frame/Replace.antt =====
-- What a constructor call makes of uninitialized values, in src/solver/frame.rs.
use ferro_jtype.Prelude.{ℕ, map, ◌==◌, if◌then◌else◌}
use ferro_jtype.Types.ClassName.{ClassName}
use ferro_jtype.Types.Inferred.{exact, InferredType, reference, uninitialized, uninitialized_this}
use ferro_jtype.Frame.{Frame}

abbrev pub initialize : ℕ → ClassName → InferredType → InferredType
initialize offset c (uninitialized d candidate) =
    if candidate == offset then reference (exact c) else uninitialized d candidate
initialize offset c t = t

unfoldable pub replace_uninitialized : ℕ → ClassName → Frame → Frame
replace_uninitialized offset c f = record f {
  locals = map (initialize offset c) f.locals;
  stack = map (initialize offset c) f.stack;
}

abbrev pub initialize_this : ClassName → InferredType → InferredType
initialize_this c (uninitialized_this d) = reference (exact c)
initialize_this c t = t

unfoldable pub replace_uninitialized_this : ClassName → Frame → Frame
replace_uninitialized_this c f = record f {
  locals = map (initialize_this c) f.locals;
  stack = map (initialize_this c) f.stack;
}
