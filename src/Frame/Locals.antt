-- ===== src/Frame/Locals.antt =====
-- The locals of src/solver/frame.rs: reading, writing and refining them.
pub mod Writes
pub mod StoreLoad
use ferro_jtype.Prelude.{
  ℕ, suc, ◌+◌, max, Bool, true, false, ◌&&◌, List, [], ◌∷◌, Option, none, some, length, get_elem?,
  set, resize, ltb, leb, ◌==◌, if◌then◌else◌, as_bool,
}
use ferro_jtype.Types.Integral.{IntegralTypeSet, IntegralTypeSet-discrete}
use ferro_jtype.Types.Inferred.{ReferenceType, InferredType, bottom, long, double, reference}
use ferro_jtype.Types.Inferred.Join.{integral_types, from_integral_types}
use ferro_jtype.Frame.{
  ValueOrigin, store, Targets, LocalVariableIntegralHint, Frame, FrameValue, plain, is_same_origin,
}

abbrev pub or_else {ℓ} : {A : Type ℓ} → A → Option A → A
or_else d none = d
or_else d (some a) = a

-- `flatten`, and a missing element
abbrev pub get_flat {ℓ} : {A : Type ℓ} → List (Option A) → ℕ → Option A
get_flat l i = or_else none (get_elem? l i)

unfoldable pub get_local_value : ℕ → Frame → FrameValue
get_local_value local f = record {
  value = or_else bottom (get_elem? f.locals local);
  return_targets = get_flat f.local_return_targets local;
  local_origin = none;
  instanceof_fact = none;
}

abbrev pub is_wide : InferredType → Bool
is_wide long = true
is_wide double = true
is_wide _ = false

-- The writes of `set_local_value`, to one vector that has been resized.
abbrev pub write {ℓ} : {A : Type ℓ} → A → Bool → ℕ → ℕ → A → List A → List A
write filler wide size local a l =
    let written = set (resize size filler l) local a in
    if wide then set written (local + 1) filler else written

unfoldable pub set_local_value : ℕ → FrameValue → Frame → Frame
set_local_value local v f =
    let wide = is_wide v.value in
    let size = max (length f.locals) (local + (if wide then 2 else 1)) in
    record f {
      locals = write bottom wide size local v.value f.locals;
      local_return_targets = write none wide size local v.return_targets f.local_return_targets;
      local_value_origins = write none wide size local v.local_origin f.local_value_origins;
    }

unfoldable pub set_local : ℕ → InferredType → Frame → Frame
unfolding set_local_value
set_local local t f =
    set_local_value local (record (plain t) { local_origin = some (store local 0) }) f

abbrev pub or_origin : Option ValueOrigin → ValueOrigin → Option ValueOrigin
or_origin none o = some o
or_origin (some p) o = some p

unfoldable pub store_local_value : ℕ → FrameValue → ℕ → Frame → Frame
unfolding set_local_value
store_local_value local v offset f =
    set_local_value local
      (record v { local_origin = or_origin v.local_origin (store local offset) }) f

unfoldable pub local_return_targets : ℕ → Frame → Targets
local_return_targets local f = get_flat f.local_return_targets local

-- The hints that hold for a local at an offset.
abbrev pub applies : ℕ → ℕ → LocalVariableIntegralHint → Bool
applies local offset hint =
    hint.local == local && leb hint.start_offset offset && ltb offset hint.end_offset

abbrev pub hints_for : ℕ → ℕ → List LocalVariableIntegralHint → List LocalVariableIntegralHint
hints_for local offset [] = []
hints_for local offset (hint ∷ hints) =
    let rest = hints_for local offset hints in
    if applies local offset hint then hint ∷ rest else rest

abbrev pub agree_on : IntegralTypeSet → List LocalVariableIntegralHint → Bool
agree_on s [] = true
agree_on s (hint ∷ hints) = as_bool (IntegralTypeSet-discrete hint.types s) && agree_on s hints

-- The hints refine an integral value where they agree.
abbrev pub refine_by : List LocalVariableIntegralHint → InferredType → InferredType
refine_by [] t = t
refine_by (first ∷ hints) t =
    if agree_on first.types hints then from_integral_types first.types else t

abbrev pub refine_integral :
    Option IntegralTypeSet → List LocalVariableIntegralHint → InferredType → InferredType
refine_integral none hints t = t
refine_integral (some s) hints t = refine_by hints t

unfoldable pub refine_integral_local : Frame → ℕ → ℕ → InferredType → InferredType
refine_integral_local f local offset t =
    refine_integral (integral_types t) (hints_for local offset f.local_variable_hints) t

-- `u16::try_from(n).unwrap_or(u16::MAX)`
abbrev pub clamp_u16 : ℕ → ℕ
clamp_u16 n = if ltb n 65536 then n else 65535

abbrev types_from : Frame → ℕ → ℕ → List InferredType → List InferredType
types_from f offset index [] = []
types_from f offset index (t ∷ ts) =
    refine_integral_local f (clamp_u16 index) offset t ∷ types_from f offset (suc index) ts

unfoldable pub local_types_at : ℕ → Frame → List InferredType
unfolding refine_integral_local
local_types_at offset f = types_from f offset 0 f.locals

abbrev is_reference : InferredType → Bool
is_reference (reference _) = true
is_reference _ = false

-- The loop of `refine_origin`. A local without an entry in the vector of origins is left alone.
abbrev pub refine_locals :
    ValueOrigin → ReferenceType → List InferredType → List (Option ValueOrigin) → List InferredType
refine_locals origin r [] os = []
refine_locals origin r (t ∷ ts) [] = t ∷ ts
refine_locals origin r (t ∷ ts) (o ∷ os) =
    (if is_same_origin o (some origin) && is_reference t then reference r else t)
    ∷ refine_locals origin r ts os

abbrev pub refine_targets :
    ValueOrigin → List InferredType → List (Option ValueOrigin) → List Targets → List Targets
refine_targets origin [] os ns = ns
refine_targets origin (t ∷ ts) [] ns = ns
refine_targets origin (t ∷ ts) (o ∷ os) [] = []
refine_targets origin (t ∷ ts) (o ∷ os) (n ∷ ns) =
    (if is_same_origin o (some origin) && is_reference t then none else n)
    ∷ refine_targets origin ts os ns

unfoldable pub refine_origin : ValueOrigin → ReferenceType → Frame → Frame
refine_origin origin r f = record f {
  locals = refine_locals origin r f.locals f.local_value_origins;
  local_return_targets =
      refine_targets origin f.locals f.local_value_origins f.local_return_targets;
}
