-- ===== src/Types/Descriptor/Sound.antt =====
-- What the parser accepts is the print of the descriptor that it returns, the fuel suffices, and
-- the offsets of errors lie in the input.
pub mod Outcome
pub mod Reference
pub mod Array
use ferro_jtype.Prelude.{
  ℕ, suc, ◌+◌, ◌≡◌, refl, ◌∙◌, ap, ◌≢◌, inl, inr, List, [], ◌∷◌, append-nil, length, ◌==◌, some,
  Option-cases, ==_iff, arith,
}
use ferro_jtype.Prelude.Result.{Ends, returns, raises, Ends-bind, Ends-map, Ends-if}
use ferro_jtype.Types.ClassName
use ferro_jtype.Types.Primitive.{PrimitiveType}
use ferro_jtype.Types.Descriptor.{
  TypeDescriptor, at, new, parse_array_type, parse_tag, parse_field_type, parse, Parse, finish,
  DescriptorParser, primitive_of_tag,
}
use ferro_jtype.Types.Descriptor.Print.{tag_of, IsWellFormed, print, lengths}
use ferro_jtype.Types.Descriptor.Sound.Outcome.{stop, IsWithin, IsRead}
use ferro_jtype.Types.Descriptor.Sound.Reference.{parse_reference_type-IsRead}
use ferro_jtype.Types.Descriptor.Sound.Array.{parse_array_type-IsRead}

primitive_of_tag-print :
    (tag : ℕ) (p : PrimitiveType) → primitive_of_tag tag ≡ some p → tag ≡ tag_of p
primitive_of_tag-print tag p h = ground arith

parse_tag-IsRead :
    (f : DescriptorParser → Parse TypeDescriptor) (p : DescriptorParser) (z : ℕ) (bytes : List ℕ)
    → z ≡ stop p
    → p.remaining ≡ bytes
    → ((rest : List ℕ)
        → p.remaining ≡ b'[' ∷ rest
        → IsRead p z (parse_array_type f (at rest (p.cursor + 1))))
    → IsRead p z (parse_tag f bytes p.cursor)
unfolding parse_tag print
parse_tag-IsRead f p z [] hz hp on_array = raises (omega (arith, ap length hp))
parse_tag-IsRead f p z (tag ∷ bytes) hz hp on_array = elim (Option-cases (primitive_of_tag tag)) [
  | inr (t, e) ↦
      rw (e, parse_tag)
        (returns (record {
          consumed = record {
            split = rw (hp, primitive_of_tag-print tag t e);
            moved = omega arith;
          };
          shape = tt;
        }))
  | inl e ↦
      rw (e, parse_tag)
        (Ends-if (tag == b'L')
          (λ l.
            parse_reference_type-IsRead p z bytes hz
              (hp ∙ ap (λ b. b ∷ bytes) ((==_iff tag b'L').0 l)))
          (λ _.
            Ends-if (tag == b'[')
              (λ l. on_array bytes (hp ∙ ap (λ b. b ∷ bytes) ((==_iff tag b'[').0 l)))
              (λ _. raises (omega (arith, ap length hp)))))
]

parse_element-IsRead :
    (f : ℕ) (q : DescriptorParser) (z : ℕ)
    → z ≡ stop q
    → ((r : List ℕ) → q.remaining ≢ b'[' ∷ r)
    → IsRead q z (parse_field_type (suc f) q)
unfolding parse_field_type
parse_element-IsRead f q z hz none_left =
    parse_tag-IsRead (parse_field_type f) q z q.remaining hz refl
      (λ rest e. absurd (none_left rest e))

pub parse_field_type-IsRead :
    (f : ℕ) (p : DescriptorParser) (z : ℕ)
    → z ≡ stop p
    → IsRead p z (parse_field_type (suc (suc f)) p)
unfolding parse_field_type
parse_field_type-IsRead f p z hz =
    parse_tag-IsRead (parse_field_type (suc f)) p z p.remaining hz refl (λ rest e.
      parse_array_type-IsRead (parse_field_type (suc f)) p z rest hz e
        (λ q hq none_left. parse_element-IsRead f q z hq none_left))

pub finish-Ends :
    {A : Type 0} (a : A) (p : DescriptorParser) (z : ℕ)
    → z ≡ stop p
    → Ends (λ b. (b ≡ a) × (p.remaining ≡ [])) (IsWithin z) (finish a p)
finish-Ends a p z hz = finish_at p.remaining refl
  where
    finish_at :
        (bytes : List ℕ)
        → p.remaining ≡ bytes
        → Ends (λ b. (b ≡ a) × (p.remaining ≡ [])) (IsWithin z) (finish a p)
    finish_at [] e = rw e (returns (refl, refl))
    finish_at (b ∷ bytes) e = rw e (raises (omega (arith, ap length e)))

-- A parse stays within its fuel; a descriptor that it returns is well formed and prints to the
-- input, and an error that it returns points into the input.
pub parse-Ends :
    (input : List ℕ)
    → Ends (λ d. (input ≡ print d) × IsWellFormed d) (IsWithin (length input)) (parse input)
unfolding parse
parse-Ends input =
    Ends-bind (parse_field_type-IsRead 0 (new input) (length input) (omega arith)) λ (d, p) h.
      Ends-map
        (finish-Ends d p (length input)
          (omega (lengths, ap length h.consumed.split, h.consumed.moved)))
        (λ b (same, over). rw same (h.consumed.split ∙ rw (over, append-nil), h.shape))
