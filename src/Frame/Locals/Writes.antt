-- ===== src/Frame/Locals/Writes.antt =====
-- Reading a local of src/solver/frame.rs after `set_local_value`.
use ferro_jtype.Prelude.{
  ℕ, zero, suc, ◌+◌, ◌≤◌, ◌<◌, max, ◌≡◌, refl, sym, ap, ◌∙◌, subst, Bool, true, false, ◌&&◌, List,
  [], ◌∷◌, Option, none, length, get_elem?, set, resize, ◌==◌, if◌then◌else◌, length-set,
  length-resize, arith,
}
use ferro_jtype.Types.Inferred.{InferredType, bottom}
use ferro_jtype.Frame.{Frame, FrameValue, plain, IsWellFormed, ValueOrigin, Targets}
use ferro_jtype.Frame.Locals.{or_else, get_flat, get_local_value, is_wide, write, set_local_value}

module _ {ℓ} {A : Type ℓ} (d : A) where
  abbrev pub element : List A → ℕ → A
  element l i = or_else d (get_elem? l i)

  pub element-resize :
      (n : ℕ) (l : List A) (i : ℕ) → length l ≤ n → element (resize n d l) i ≡ element l i
  element-resize zero [] i le = refl
  element-resize zero (x ∷ l) i le = absurd (omega arith)
  element-resize (suc n) [] zero le = refl
  element-resize (suc n) [] (suc i) le = element-resize n [] i (omega arith)
  element-resize (suc n) (x ∷ l) zero le = refl
  element-resize (suc n) (x ∷ l) (suc i) le = element-resize n l i (omega arith)

  element-set :
      (l : List A) (k : ℕ) (a : A) (i : ℕ)
      → k < length l
      → element (set l k a) i ≡ (if i == k then a else element l i)
  element-set [] k a i lt = absurd (omega arith)
  element-set (x ∷ l) zero a zero lt = refl
  element-set (x ∷ l) zero a (suc i) lt =
      let differ : (suc i == 0) ≡ false = ground arith in rw differ refl
  element-set (x ∷ l) (suc k) a zero lt =
      let differ : (0 == suc k) ≡ false = ground arith in rw differ refl
  element-set (x ∷ l) (suc k) a (suc i) lt =
      let same : (suc i == suc k) ≡ (i == k) = ground arith in
      rw same (element-set l k a i (omega arith))

  -- What a write leaves at each index
  abbrev written : Bool → ℕ → A → ℕ → A → A
  written wide local a i old = if wide && i == local + 1 then d else if i == local then a else old

  element-write :
      (wide : Bool) (size local : ℕ) (a : A) (l : List A) (i : ℕ)
      → length l ≤ size
      → local + (if wide then 2 else 1) ≤ size
      → element (write d wide size local a l) i ≡ written wide local a i (element l i)
  element-write true size local a l i le lt =
      let r = resize size d l in
      let there : local < length r =
        subst (λ n. local < n) (sym (length-resize size d l)) (omega arith) in
      let next : local + 1 < length (set r local a) =
        subst (λ n. local + 1 < n) (sym (length-set r local a ∙ length-resize size d l))
          (omega arith) in
      element-set (set r local a) (local + 1) d i next
      ∙ ap (λ x. if i == local + 1 then d else x)
          (element-set r local a i there
            ∙ ap (λ x. if i == local then a else x) (element-resize size l i le))
  element-write false size local a l i le lt =
      let r = resize size d l in
      let there : local < length r =
        subst (λ n. local < n) (sym (length-resize size d l)) (omega arith) in
      element-set r local a i there
      ∙ ap (λ x. if i == local then a else x) (element-resize size l i le)

abbrev pub local_cell : InferredType → Targets → Option ValueOrigin → FrameValue
local_cell t m o = record {
  value = t;
  return_targets = m;
  local_origin = o;
  instanceof_fact = none;
}

-- What a frame keeps of a local.
abbrev pub value_at : ℕ → Frame → FrameValue
value_at i f = record (get_local_value i f) { local_origin = get_flat f.local_value_origins i }

choose :
    (b c : Bool) (t u : InferredType) (m n : Targets) (o p : Option ValueOrigin)
    → local_cell
        (if b then bottom else if c then t else u)
        (if b then none else if c then m else n)
        (if b then none else if c then o else p)
      ≡ (if b then plain bottom else if c then local_cell t m o else local_cell u n p)
choose true c t u m n o p = refl
choose false true t u m n o p = refl
choose false false t u m n o p = refl

-- After a write to a local of a well-formed frame, that local holds the type, the return targets and
-- the origin of the value written, the local above it holds nothing where the value is of category
-- two, and every other local, in the frame or beyond it, is as it was.
pub value_at-set_local_value :
    (local : ℕ) (v : FrameValue) (f : Frame) (i : ℕ)
    → IsWellFormed f
    → value_at i (set_local_value local v f) ≡ (
        if is_wide v.value && i == local + 1
        then plain bottom
        else if i == local
        then local_cell v.value v.return_targets v.local_origin
        else value_at i f)
unfolding set_local_value get_local_value
value_at-set_local_value local v f i w =
    let wide = is_wide v.value in
    let size = max (length f.locals) (local + (if wide then 2 else 1)) in
    let targets_fit : length f.local_return_targets ≤ size =
      subst (λ n. n ≤ size) (sym w.targets_of_locals) (omega arith) in
    let origins_fit : length f.local_value_origins ≤ size =
      subst (λ n. n ≤ size) (sym w.origins_of_locals) (omega arith) in
    let types =
      element-write bottom wide size local v.value f.locals i (omega arith) (omega arith) in
    let targets =
      element-write none wide size local v.return_targets f.local_return_targets i targets_fit
        (omega arith) in
    let origins =
      element-write none wide size local v.local_origin f.local_value_origins i origins_fit
        (omega arith) in
    (λ j. local_cell (types j) (targets j) (origins j))
    ∙ choose (wide && i == local + 1) (i == local) v.value (or_else bottom (get_elem? f.locals i))
        v.return_targets (get_flat f.local_return_targets i) v.local_origin
        (get_flat f.local_value_origins i)
