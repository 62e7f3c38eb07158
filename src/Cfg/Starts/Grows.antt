-- ===== src/Cfg/Starts/Grows.antt =====
-- Steps that only add starts of blocks, and only offsets of instructions.
use ferro_jtype.Prelude.{ℕ, ◌≡◌, sym, ◌⊎◌, subst, inl, inr, List}
use ferro_jtype.Prelude.Members.{IsIn, IsAscending}
use ferro_jtype.Frame.Targets.{set_insert}
use ferro_jtype.Cfg.Offsets.{IsIn-set_insert, set_insert-IsAscending}
use ferro_jtype.Cfg.Starts.{Starts}

module _ (offsets : List ℕ) where
  -- The starts are ascending offsets of instructions.
  pub record IsStarts (s : Starts) : Type 0 where
    pub ascending : IsAscending s.0
    pub within : (n : ℕ) → IsIn n s.0 → IsIn n offsets

  -- What was a start stays one, and the starts stay offsets of instructions.
  pub record Grows (s t : Starts) : Type 0 where
    pub kept : (n : ℕ) → IsIn n s.0 → IsIn n t.0
    pub sound : IsStarts s → IsStarts t

  pub Grows-refl : (s : Starts) → Grows s s
  Grows-refl s = record { kept = λ n m. m; sound = λ h. h }

  pub Grows-trans : (s t u : Starts) → Grows s t → Grows t u → Grows s u
  Grows-trans s t u g h = record {
    kept = λ n m. h.kept n (g.kept n m);
    sound = λ i. h.sound (g.sound i);
  }

  pub Grows-same : (s t : Starts) → t.0 ≡ s.0 → Grows s t
  Grows-same s t e = record {
    kept = λ n m. rw e m;
    sound = λ h. record { ascending = rw e h.ascending; within = λ n m. h.within n (rw e at m) };
  }

  inserted :
      (k n : ℕ) (s : Starts) → IsIn n offsets → IsStarts s → (k ≡ n) ⊎ IsIn k s.0 → IsIn k offsets
  inserted k n s m h (inl e) = subst (λ x. IsIn x offsets) (sym e) m
  inserted k n s m h (inr i) = h.within k i

  pub Grows-insert : (n : ℕ) (s t : Starts) → IsIn n offsets → t.0 ≡ set_insert n s.0 → Grows s t
  Grows-insert n s t m e = record {
    kept = λ k i. rw e ((IsIn-set_insert k n s.0).1 (inr i));
    sound = λ h. record {
      ascending = rw e (set_insert-IsAscending n s.0 h.ascending);
      within = λ k i.
          let there : IsIn k (set_insert n s.0) = rw e at i in
          inserted k n s m h ((IsIn-set_insert k n s.0).0 there);
    };
  }
