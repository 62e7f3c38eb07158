-- ===== src/Types/Descriptor/RoundTrip.antt =====
-- The parser reads every printed descriptor back, whatever follows it.
use ferro_jtype.Prelude.{
  ℕ, zero, suc, ◌+◌, ◌-◌, ◌≤◌, ◌<◌, ◌≡◌, refl, ◌∙◌, ◌⊎◌, inl, inr, false, List, [], ◌∷◌, ◌++◌,
  append_assoc, append-nil, length, replicate, any, All, lt→ltb, arith,
}
use ferro_jtype.Prelude.Result.{ok}
use ferro_jtype.Types.ClassName
use ferro_jtype.Types.ClassName.{class_name, is_forbidden}
use ferro_jtype.Types.Primitive.{PrimitiveType, boolean}
use ferro_jtype.Types.Descriptor.{
  TypeDescriptor, primitive, reference, array, ReturnType, void, type, MethodDescriptor, at,
  skip_name, parse_reference_type, count_dimensions, parse_array_type, parse_field_type, parse,
  Parse, parse_parameters, parse_return_type, parse_method, expect, consume,
}
use ferro_jtype.Types.Descriptor.Print.{
  tag_of, IsName, IsElement, IsWellFormed, IsWellFormedReturn, IsWellFormedMethod, print, print_all,
  print_return, print_method, lengths, length-print_pos, length-replicate_bytes,
}

skip_name-append :
    (name rest : List ℕ) (n : ℕ)
    → any is_forbidden name ≡ false
    → skip_name (name ++ b';' ∷ rest) n ≡ (name, at (b';' ∷ rest) (n + length name))
skip_name-append [] rest n h = ground arith
skip_name-append (b ∷ name) rest n h = ground (arith, skip_name-append name rest (n + 1))

parse-name :
    (name : List ℕ)
    → 0 < length name
    → any is_forbidden name ≡ false
    → ClassName.parse name ≡ ok (class_name name)
unfolding ClassName.parse
parse-name [] pos h = elim pos [ ]
parse-name (b ∷ name) pos h = rw h

parse_reference_type-append :
    (name rest : List ℕ) (n : ℕ)
    → IsName name
    → parse_reference_type (at (name ++ b';' ∷ rest) n)
      ≡ ok (reference (class_name name), at rest (n + length name + 1))
unfolding parse_reference_type
parse_reference_type-append name rest n h =
    rw (skip_name-append name rest n h.allowed, h.text, parse-name name h.nonempty h.allowed)

count_dimensions-replicate :
    (k d : ℕ) (rest : List ℕ) (n : ℕ)
    → d + k ≤ 255
    → count_dimensions d (replicate k b'[' ++ rest) n ≡ count_dimensions (d + k) rest (n + k)
count_dimensions-replicate zero d rest n h =
    let ed : d ≡ d + 0 = omega arith in
    let en : n ≡ n + 0 = omega arith in λ i. count_dimensions (ed i) rest (en i)
count_dimensions-replicate (suc k) d rest n h =
    let ed : d + 1 + k ≡ d + suc k = omega arith in
    let en : n + 1 + k ≡ n + suc k = omega arith in
    rw (lt→ltb d 255 (omega arith)) (
      count_dimensions-replicate k (d + 1) rest (n + 1) (omega arith)
      ∙ (λ i. count_dimensions (ed i) rest (en i)))

-- An element is not an array, so the count of dimensions stops in front of it.
count_dimensions-print :
    (d : ℕ) (e : TypeDescriptor) (rest : List ℕ) (n : ℕ)
    → IsElement e
    → count_dimensions d (print e ++ rest) n ≡ ok (d, at (print e ++ rest) n)
unfolding print
count_dimensions-print d (primitive boolean) rest n h = refl
count_dimensions-print d (primitive p) rest n h = refl
count_dimensions-print d (reference c) rest n h = refl
count_dimensions-print d (array k e) rest n h = absurd h

parse_tag-primitive :
    (p : PrimitiveType) (f : ℕ) (rest : List ℕ) (n : ℕ)
    → parse_field_type (suc f) (at (tag_of p ∷ rest) n) ≡ ok (primitive p, at rest (n + 1))
unfolding parse_field_type
parse_tag-primitive boolean f rest n = refl
parse_tag-primitive p f rest n = refl

parse_tag-reference :
    (name rest : List ℕ) (f n : ℕ)
    → IsName name
    → parse_field_type (suc f) (at (b'L' ∷ name ++ b';' ∷ rest) n)
      ≡ ok (reference (class_name name), at rest (n + 1 + length name + 1))
unfolding parse_field_type
parse_tag-reference name rest f n h = parse_reference_type-append name rest (n + 1) h

move_to :
    {A : Type 0} (a : A) (rest : List ℕ) (m n : ℕ)
    → m ≡ n
    → ◌≡◌ {A = Parse A} (ok (a, at rest m)) (ok (a, at rest n))
move_to a rest m n e = λ i. ok (a, at rest (e i))

abbrev Reads : TypeDescriptor → ℕ → Type 0
Reads d f =
    (rest : List ℕ) (n : ℕ)
    → parse_field_type f (at (print d ++ rest) n) ≡ ok (d, at rest (n + length (print d)))

parse_element-print : (e : TypeDescriptor) (f : ℕ) → IsElement e → IsWellFormed e → Reads e (suc f)
unfolding print
parse_element-print (primitive p) f he h rest n = parse_tag-primitive p f rest n
parse_element-print (reference (class_name name)) f he h rest n =
    rw append_assoc (parse_tag-reference name rest f n h ∙ move_to _ rest _ _ (omega lengths))
parse_element-print (array d e) f he h rest n = absurd he

replicate-suc-append :
    (d : ℕ) (b : ℕ) (xs : List ℕ) → 1 ≤ d → replicate d b ++ xs ≡ b ∷ (replicate (d - 1) b ++ xs)
replicate-suc-append zero b xs h = elim h [ ]
replicate-suc-append (suc d) b xs h =
    let e : d ≡ suc d - 1 = omega arith in λ i. b ∷ (replicate (e i) b ++ xs)

parse_array_tag :
    (f : ℕ) (bytes : List ℕ) (n : ℕ)
    → parse_field_type (suc f) (at (b'[' ∷ bytes) n)
      ≡ parse_array_type (parse_field_type f) (at bytes (n + 1))
unfolding parse_field_type
parse_array_tag f bytes n = refl

parse_array-print :
    (d : ℕ) (e : TypeDescriptor) (f : ℕ) (rest : List ℕ) (n : ℕ)
    → IsWellFormed (array d e)
    → parse_array_type
        (parse_field_type (suc f))
        (at (replicate (d - 1) b'[' ++ (print e ++ rest)) n)
      ≡ ok (array d e, at rest (n + (d - 1) + length (print e)))
unfolding parse_array_type
parse_array-print d e f rest n (low, high, he, h) =
    rw (count_dimensions-replicate (d - 1) 1 (print e ++ rest) n (omega arith)) (
      rw (count_dimensions-print (1 + (d - 1)) e rest (n + (d - 1)) he) (
        rw (parse_element-print e f he h rest (n + (d - 1))) (
          let same : 1 + (d - 1) ≡ d = omega arith in
          λ i. ok (array (same i) e, at rest (n + (d - 1) + length (print e))))))

-- A printed descriptor is read with fuel for two nested calls, and what follows it is left.
pub parse_field_type-print : (d : TypeDescriptor) (f : ℕ) → IsWellFormed d → Reads d (suc (suc f))
unfolding print
parse_field_type-print (primitive p) f h rest n = parse_tag-primitive p (suc f) rest n
parse_field_type-print (reference c) f h rest n =
    parse_element-print (reference c) (suc f) tt h rest n
parse_field_type-print (array d e) f h rest n =
    rw (append_assoc, replicate-suc-append d b'[' (print e ++ rest) h.0, parse_array_tag)
      (parse_array-print d e f rest (n + 1) h
        ∙ move_to _ rest _ _ (omega (lengths, length-replicate_bytes, h.0)))

pub parse-print_rest : (d : TypeDescriptor) → IsWellFormed d → parse (print d) ≡ ok d
unfolding parse
parse-print_rest d h = rw (rw append-nil at (parse_field_type-print d 0 h [] 0))

-- No printed descriptor begins with `)` or `V`.
consume-print :
    (w : ℕ) (d : TypeDescriptor) (rest : List ℕ) (n : ℕ)
    → (w ≡ b')') ⊎ (w ≡ b'V')
    → IsWellFormed d
    → consume w (at (print d ++ rest) n) ≡ (false, at (print d ++ rest) n)
unfolding print
consume-print w (primitive boolean) rest n (inl e) h = rw e
consume-print w (primitive p) rest n (inl e) h = rw e
consume-print w (primitive boolean) rest n (inr e) h = rw e
consume-print w (primitive p) rest n (inr e) h = rw e
consume-print w (reference c) rest n (inl e) h = rw e
consume-print w (reference c) rest n (inr e) h = rw e
consume-print w (array d e) rest n (inl s) h =
    rw (append_assoc, replicate-suc-append d b'[' (print e ++ rest) h.0, s)
consume-print w (array d e) rest n (inr s) h =
    rw (append_assoc, replicate-suc-append d b'[' (print e ++ rest) h.0, s)

parse_parameters-print :
    (ds : List TypeDescriptor) (f : ℕ) (rest : List ℕ) (n : ℕ)
    → All IsWellFormed ds
    → length ds < f
    → parse_parameters f (at (print_all ds ++ b')' ∷ rest) n)
      ≡ ok (ds, at rest (n + length (print_all ds) + 1))
unfolding parse_parameters print_all
parse_parameters-print ds zero rest n h lt = absurd (omega arith)
parse_parameters-print [] (suc f) rest n h lt = move_to [] rest _ _ (omega arith)
parse_parameters-print (d ∷ ds) (suc f) rest n (h, hs) lt =
    rw (append_assoc, consume-print b')' d (print_all ds ++ b')' ∷ rest) n (inl refl) h)
      (rw (parse_field_type-print d 0 h (print_all ds ++ b')' ∷ rest) n) (
        rw (parse_parameters-print ds f rest (n + length (print d)) hs (omega arith))
          (move_to (d ∷ ds) rest _ _ (omega lengths))))

parse_return_type-print :
    (r : ReturnType) (n : ℕ)
    → IsWellFormedReturn r
    → parse_return_type (at (print_return r) n) ≡ ok (r, at [] (n + length (print_return r)))
unfolding parse_return_type print_return
parse_return_type-print void n h = refl
parse_return_type-print (type d) n h = rw (← append-nil (print d)) (
    rw (consume-print b'V' d [] n (inr refl) h)
      (rw (parse_field_type-print d 0 h [] n) (move_to (type d) [] _ _ (rw append-nil))))

length-print_all : (ds : List TypeDescriptor) → length ds ≤ length (print_all ds)
unfolding print_all
length-print_all [] = omega arith
length-print_all (d ∷ ds) = omega (lengths, length-print_all ds, length-print_pos d)

-- Parsing a printed method descriptor gives it back.
pub parse_method-print_lem :
    (m : MethodDescriptor) → IsWellFormedMethod m → parse_method (print_method m) ≡ ok m
unfolding parse_method print_method expect
parse_method-print_lem m h =
    rw
      (parse_parameters-print m.parameters (length (print_method m)) (print_return m.return_type) 1
        h.parameters (omega (lengths, length-print_all m.parameters)))
      (rw (parse_return_type-print m.return_type _ h.return_type) refl)
