-- ===== src/Types/Descriptor/Sound/Reference.antt =====
-- `parse_reference_type` of src/types/descriptor.rs reads a class name up to its semicolon.
use ferro_jtype.Prelude.{
  ℕ, ◌+◌, ◌<◌, ◌≡◌, refl, ap, ◌⊎◌, inl, inr, false, List, [], ◌∷◌, ◌++◌, append_assoc, length, any,
  ◌==◌, Bool-cases, arith,
}
use ferro_jtype.Prelude.Result.{Ends, returns, raises, Ends-bind, Ends-if}
use ferro_jtype.Types.ClassName
use ferro_jtype.Types.ClassName.{class_name, is_forbidden}
use ferro_jtype.Types.Utf8.{is_utf8}
use ferro_jtype.Types.Descriptor.{
  at, skip_name, parse_reference_type, close_reference, from_name_error, DescriptorParser,
}
use ferro_jtype.Types.Descriptor.Print.{print, lengths}
use ferro_jtype.Types.Descriptor.Sound.Outcome.{stop, IsWithin, IsRead}

record Skips (bytes : List ℕ) (n : ℕ) (name : List ℕ) (q : DescriptorParser) : Type 0 where
  split : bytes ≡ name ++ q.remaining
  moved : q.cursor ≡ n + length name
  at_end : (q.remaining ≡ []) ⊎ ((rest : List ℕ) × (q.remaining ≡ b';' ∷ rest))

skip_name-Skips :
    (bytes : List ℕ) (n : ℕ) → Skips bytes n (skip_name bytes n).0 (skip_name bytes n).1
skip_name-Skips [] n = record { split = refl; moved = omega arith; at_end = inl refl }
skip_name-Skips (b ∷ bytes) n = elim (Bool-cases (b == b';')) [
  | inl e ↦
      rw e (record { split = refl; moved = omega arith; at_end = inr (bytes, (ground arith)) })
  | inr e ↦ rw e (
      let s = skip_name-Skips bytes (n + 1) in
      record { split = ap (λ r. b ∷ r) s.split; moved = omega (arith, s.moved); at_end = s.at_end })
]

from_name-Ends :
    (name : List ℕ) (n start : ℕ)
    → Ends
        (λ c. (c ≡ class_name name) × (0 < length name) × (any is_forbidden name ≡ false))
        (IsWithin n)
        (from_name_error (ClassName.parse name))
unfolding ClassName.parse
from_name-Ends [] n start = raises tt
from_name-Ends (b ∷ name) n start = elim (Bool-cases (any is_forbidden (b ∷ name))) [
  | inl e ↦ rw e (raises tt)
  | inr e ↦ rw e (returns (refl, omega arith, refl))
]

closes :
    (b : ℕ) (rest : List ℕ)
    → (◌≡◌ {A = List ℕ} (b ∷ rest) []) ⊎ ((r : List ℕ) × (◌≡◌ {A = List ℕ} (b ∷ rest) (b';' ∷ r)))
    → b ≡ b';'
closes b rest (inl h) = cc
closes b rest (inr (r, h)) = cc

close_reference-IsRead :
    (p : DescriptorParser) (z : ℕ) (bytes : List ℕ) (n : ℕ) (name : List ℕ) (rest : List ℕ) (m : ℕ)
    → z ≡ stop p
    → p.remaining ≡ b'L' ∷ bytes
    → n ≡ p.cursor + 1
    → Skips bytes n name (at rest m)
    → IsRead p z (close_reference n name rest m)
unfolding print
close_reference-IsRead p z bytes n name [] m hz hp hn s =
    raises (omega (lengths, ap length hp, ap length s.split, s.moved, hn))
close_reference-IsRead p z bytes n name (b ∷ rest) m hz hp hn s =
    Ends-if (is_utf8 name)
      (λ text. Ends-bind (from_name-Ends name z n) λ c (same, pos, ok_name). rw same (
        returns (record {
          consumed = record {
            split = rw (hp, s.split, closes b rest s.at_end, append_assoc);
            moved = omega (lengths, s.moved, hn);
          };
          shape = record { text = text; nonempty = pos; allowed = ok_name };
        })))
      (λ _. raises (omega (lengths, ap length hp, ap length s.split, hn)))

pub parse_reference_type-IsRead :
    (p : DescriptorParser) (z : ℕ) (bytes : List ℕ)
    → z ≡ stop p
    → p.remaining ≡ b'L' ∷ bytes
    → IsRead p z (parse_reference_type (at bytes (p.cursor + 1)))
unfolding parse_reference_type
parse_reference_type-IsRead p z bytes hz hp =
    close_reference-IsRead p z bytes (p.cursor + 1) _ _ _ hz hp refl
      (skip_name-Skips bytes (p.cursor + 1))
