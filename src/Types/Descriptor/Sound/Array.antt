-- ===== src/Types/Descriptor/Sound/Array.antt =====
-- `parse_array_type` of src/types/descriptor.rs reads up to 255 brackets and the element.
use ferro_jtype.Prelude.{
  ℕ, zero, suc, ◌+◌, ◌≤◌, ◌≡◌, refl, ◌∙◌, ap, ◌≢◌, false, List, [], ◌∷◌, ◌++◌, append_assoc, length,
  replicate, ◌==◌, ltb, ltb→lt, ==_iff, arith,
}
use ferro_jtype.Prelude.Result.{Ends, returns, raises, Ends-bind, Ends-map, Ends-if}
use ferro_jtype.Types.Descriptor.{
  TypeDescriptor, array, at, count_dimensions, parse_array_type, Parse, DescriptorParser,
}
use ferro_jtype.Types.Descriptor.Print.{
  IsElement, IsWellFormed, print, lengths, length-replicate_bytes,
}
use ferro_jtype.Types.Descriptor.Sound.Outcome.{stop, IsWithin, Reads, IsRead}

not_bracket :
    (b : ℕ) (bytes : List ℕ)
    → (b == b'[') ≡ false
    → (rest : List ℕ) → ◌≢◌ {A = List ℕ} (b ∷ bytes) (b'[' ∷ rest)
not_bracket b bytes e rest h = ground arith

-- The loop reads `k` more brackets.
record Counts (d : ℕ) (bytes : List ℕ) (n : ℕ) (r : ℕ × DescriptorParser) : Type 0 where
  more : ℕ
  total : r.0 ≡ d + more
  bound : r.0 ≤ 255
  split : bytes ≡ replicate more b'[' ++ (r.1).remaining
  moved : (r.1).cursor ≡ n + more
  unbracketed : (rest : List ℕ) → (r.1).remaining ≢ b'[' ∷ rest

Counts-suc :
    (d : ℕ) (b : ℕ) (bytes : List ℕ) (n : ℕ) (r : ℕ × DescriptorParser)
    → b ≡ b'['
    → Counts (d + 1) bytes (n + 1) r
    → Counts d (b ∷ bytes) n r
Counts-suc d b bytes n r e c = record {
  more = suc c.more;
  total = omega (arith, c.total);
  bound = c.bound;
  split = rw (e, c.split);
  moved = omega (arith, c.moved);
  unbracketed = c.unbracketed;
}

count_dimensions-Counts :
    (d : ℕ) (bytes : List ℕ) (n z : ℕ)
    → d ≤ 255
    → z ≡ n + length bytes
    → Ends (Counts d bytes n) (IsWithin z) (count_dimensions d bytes n)
count_dimensions-Counts d [] n z h hz = returns (record {
  more = 0;
  total = omega arith;
  bound = h;
  split = refl;
  moved = omega arith;
  unbracketed = λ rest e. cc;
})
count_dimensions-Counts d (b ∷ bytes) n z h hz =
    Ends-if (b == b'[')
      (λ e.
        Ends-if (ltb d 255)
          (λ lt.
            Ends-map
              (count_dimensions-Counts (d + 1) bytes (n + 1) z (omega (arith, ltb→lt d 255 lt))
                (omega arith))
              (λ r. Counts-suc d b bytes n r ((==_iff b b'[').0 e)))
          (λ _. raises tt))
      (λ e. returns (record {
        more = 0;
        total = omega arith;
        bound = h;
        split = refl;
        moved = omega arith;
        unbracketed = λ rest. not_bracket b bytes e rest;
      }))

IsElement-unbracketed :
    (e : TypeDescriptor) (bytes rest : List ℕ)
    → IsWellFormed e
    → bytes ≡ print e ++ rest
    → ((r : List ℕ) → bytes ≢ b'[' ∷ r)
    → IsElement e
unfolding print
IsElement-unbracketed (array zero e) bytes rest (low, high, he, h) p none_left = elim low [ ]
IsElement-unbracketed (array (suc k) e) bytes rest h p none_left =
    absurd (none_left (replicate k b'[' ++ (print e ++ rest)) (p ∙ rw append_assoc))
IsElement-unbracketed e bytes rest h p none_left = tt

array-Reads :
    (p : DescriptorParser) (bytes : List ℕ) (d : ℕ) (q : DescriptorParser) (e : TypeDescriptor)
    (r : DescriptorParser)
    → p.remaining ≡ b'[' ∷ bytes
    → Counts 1 bytes (p.cursor + 1) (d, q)
    → Reads q (e, r)
    → Reads p (array d e, r)
unfolding print
array-Reads p bytes d q e r hp c h =
    let total : d ≡ suc c.more = omega (arith, c.total) in
    record {
      consumed = record {
        split = rw (hp, c.split, h.consumed.split, total, append_assoc);
        moved = omega (lengths, c.moved, h.consumed.moved, length-replicate_bytes, total);
      };
      shape = (
        omega (arith, total),
        c.bound,
        IsElement-unbracketed e q.remaining r.remaining h.shape h.consumed.split c.unbracketed,
        h.shape,
      );
    }

pub parse_array_type-IsRead :
    (f : DescriptorParser → Parse TypeDescriptor) (p : DescriptorParser) (z : ℕ) (bytes : List ℕ)
    → z ≡ stop p
    → p.remaining ≡ b'[' ∷ bytes
    → ((q : DescriptorParser)
        → z ≡ stop q
        → ((r : List ℕ) → q.remaining ≢ b'[' ∷ r)
        → IsRead q z (f q))
    → IsRead p z (parse_array_type f (at bytes (p.cursor + 1)))
unfolding parse_array_type
parse_array_type-IsRead f p z bytes hz hp hf =
    Ends-bind
      (count_dimensions-Counts 1 bytes (p.cursor + 1) z (omega arith) (omega (arith, ap length hp)))
      λ (d, q) c.
        Ends-bind
          (hf q (omega (lengths, ap length hp, ap length c.split, c.moved, length-replicate_bytes))
            c.unbracketed)
          λ (e, r) h. returns (array-Reads p bytes d q e r hp c h)
