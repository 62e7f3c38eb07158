-- ===== src/Transfer.antt =====
-- The state that the functions of src/solver/transfer share: the frame and the diagnostics, which
-- the source passes as two mutable references, and the instruction at hand.
pub mod Stack
pub mod Array
pub mod Operations
pub mod Member
pub mod Call
pub mod Dispatch
use ferro_jtype.Prelude.{List}
use ferro_jtype.Diagnostic.{Diagnostic}
use ferro_jtype.Frame.{Frame}
use ferro_jtype.Ir.{MethodIr, InstructionIr}

pub record State : Type 0 where
  pub frame : Frame
  pub diagnostics : List Diagnostic

abbrev pub M {ℓ} : Type ℓ → Type ℓ
M A = State → A × State

module _ {ℓ κ} {A : Type ℓ} {B : Type κ} where
  infixl 5 ◌>>=◌ ◌>>◌
  abbrev pub ◌>>=◌ : M A → (A → M B) → M B
  (m >>= f) s = let (a, s') = m s in f a s'

  abbrev pub ◌>>◌ : M A → M B → M B
  (m >> k) s = let (a, s') = m s in k s'

abbrev pub pure {ℓ} : {A : Type ℓ} → A → M A
pure a s = (a, s)

-- A call of a method of the frame.
abbrev pub modify : (Frame → Frame) → M (Unit {0})
modify f s = (tt, record s { frame = f s.frame })

-- The method and the instruction that every function is given.
pub record Site : Type 0 where
  pub method : MethodIr
  pub instruction : InstructionIr
