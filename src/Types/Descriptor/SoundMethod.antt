-- ===== src/Types/Descriptor/SoundMethod.antt =====
-- What the parser of method descriptors accepts, and where its errors point.
use ferro_jtype.Prelude.{
  ℕ, zero, suc, ◌<◌, ◌≡◌, refl, ◌∙◌, ap, true, false, List, [], ◌∷◌, ◌++◌, append_assoc, append-nil,
  length, All, arith,
}
use ferro_jtype.Prelude.Result.{Ends, returns, raises, Ends-bind, Ends-map, Ends-if}
use ferro_jtype.Types.Descriptor.{
  TypeDescriptor, ReturnType, at, new, parse_parameters, parse_return_type, parse_method, expect,
  consume, consume_byte, DescriptorParser,
}
use ferro_jtype.Types.Descriptor.Print.{
  IsWellFormed, IsWellFormedReturn, IsWellFormedMethod, print_all, print_return, print_method,
  lengths, length-print_pos,
}
use ferro_jtype.Types.Descriptor.Sound.Outcome.{stop, IsWithin, Consumes}
use ferro_jtype.Types.Descriptor.Sound.{parse_field_type-IsRead, finish-Ends}

record ReadsAll (p : DescriptorParser) (r : List TypeDescriptor × DescriptorParser) : Type 0 where
  consumed : Consumes p r.1 (print_all r.0 ++ b')' ∷ [])
  shape : All IsWellFormed r.0

record ReadsReturn (p : DescriptorParser) (r : ReturnType × DescriptorParser) : Type 0 where
  consumed : Consumes p r.1 (print_return r.0)
  shape : IsWellFormedReturn r.0

consume_byte-Consumes :
    (w : ℕ) (bytes : List ℕ) (n : ℕ)
    → (consume_byte w bytes n).0 ≡ true
    → Consumes (at bytes n) (consume_byte w bytes n).1 (w ∷ [])
consume_byte-Consumes w [] n h = cc
consume_byte-Consumes w (b ∷ bytes) n h = ground arith

consume_byte_no :
    (w : ℕ) (bytes : List ℕ) (n : ℕ)
    → (consume_byte w bytes n).0 ≡ false
    → (consume_byte w bytes n).1 ≡ at bytes n
consume_byte_no w [] n h = refl
consume_byte_no w (b ∷ bytes) n h = ground arith

consume-Consumes :
    (w : ℕ) (p : DescriptorParser) → (consume w p).0 ≡ true → Consumes p (consume w p).1 (w ∷ [])
consume-Consumes w p h = consume_byte-Consumes w p.remaining p.cursor h

consume_no : (w : ℕ) (p : DescriptorParser) → (consume w p).0 ≡ false → (consume w p).1 ≡ p
consume_no w p h = consume_byte_no w p.remaining p.cursor h

expect-Ends :
    (w : ℕ) (p : DescriptorParser) (z : ℕ)
    → z ≡ stop p
    → Ends (λ q. Consumes p q (w ∷ [])) (IsWithin z) (expect w p)
unfolding expect
expect-Ends w p z hz =
    Ends-if (consume w p).0 (λ h. returns (consume-Consumes w p h))
      (λ h. rw (consume_no w p h) (raises (omega arith)))

-- Each parameter takes a byte at least, so the loop ends within the bytes that are left.
parse_parameters-Ends :
    (f : ℕ) (p : DescriptorParser) (z : ℕ)
    → z ≡ stop p
    → length p.remaining < f
    → Ends (ReadsAll p) (IsWithin z) (parse_parameters f p)
unfolding parse_parameters print_all
parse_parameters-Ends zero p z hz lt = absurd (omega arith)
parse_parameters-Ends (suc f) p z hz lt =
    Ends-if (consume b')' p).0
      (λ h. returns (record { consumed = consume-Consumes b')' p h; shape = tt }))
      (λ h. rw (consume_no b')' p h) (
        Ends-bind (parse_field_type-IsRead 0 p z hz) λ (d, q) hd.
          Ends-bind
            (parse_parameters-Ends f q z
              (omega (lengths, ap length hd.consumed.split, hd.consumed.moved))
              (omega (lengths, ap length hd.consumed.split, length-print_pos d)))
            λ (ds, r) hs. returns (record {
              consumed = record {
                split = hd.consumed.split ∙ rw hs.consumed.split (simp append_assoc);
                moved = omega (lengths, hd.consumed.moved, hs.consumed.moved);
              };
              shape = (hd.shape, hs.shape);
            })))

parse_return_type-Ends :
    (p : DescriptorParser) (z : ℕ)
    → z ≡ stop p
    → Ends (ReadsReturn p) (IsWithin z) (parse_return_type p)
unfolding parse_return_type print_return
parse_return_type-Ends p z hz =
    Ends-if (consume b'V' p).0
      (λ h. returns (record { consumed = consume-Consumes b'V' p h; shape = tt }))
      (λ h. rw (consume_no b'V' p h) (
        Ends-bind (parse_field_type-IsRead 0 p z hz)
          λ (d, q) hd. returns (record { consumed = hd.consumed; shape = hd.shape })))

-- The same for method descriptors.
pub parse_method-Ends :
    (input : List ℕ)
    → Ends
        (λ m. (input ≡ print_method m) × IsWellFormedMethod m)
        (IsWithin (length input))
        (parse_method input)
unfolding parse_method print_method
parse_method-Ends input =
    Ends-bind (expect-Ends b'(' (new input) (length input) (omega arith)) λ p hp.
      Ends-bind
        (parse_parameters-Ends (length input) p (length input)
          (omega (lengths, ap length hp.split, hp.moved)) (omega (lengths, ap length hp.split)))
        λ (ps, q) hq.
          Ends-bind
            (parse_return_type-Ends q (length input) (
              omega (
                lengths,
                ap length hp.split,
                hp.moved,
                ap length hq.consumed.split,
                hq.consumed.moved,
              )))
            λ (t, r) hr.
              Ends-map
                (finish-Ends (record { parameters = ps; return_type = t }) r (length input)
                  (omega (
                    lengths,
                    ap length hp.split,
                    hp.moved,
                    ap length hq.consumed.split,
                    hq.consumed.moved,
                    ap length hr.consumed.split,
                    hr.consumed.moved,
                  )))
                (λ m (same, over). (
                  rw same (
                      hp.split
                      ∙ rw (hq.consumed.split, hr.consumed.split, over)
                          (simp (append_assoc, append-nil))),
                  rw same (record { parameters = hq.shape; return_type = hr.shape }),
                ))
