-- ===== src/TestExecutor/Errors.antt =====
-- TestException of test_executor.py, and what a call of the script may end in.
use krafters.Prelude.{zero, suc, ◌≡◌, refl, ◌⊎◌, inl, inr, Bool, true, false}
use krafters.Prelude.Int.{ℤ, pos, negsuc}
use krafters.Text.{Text}

-- The strings SYNTAX_ERROR, ID_ERROR, LOCAL_EXECUTION_ERROR and NETEM_ERROR.
pub data ErrorType : Type 0 where
  syntax_error id_error local_execution_error netem_error : ErrorType

pub record TestException : Type 0 where
  pub type : ErrorType
  pub message : Text
  pub line : ℤ

-- TestException(type, message): the line is -1 until it is set.
abbrev pub test_exception : ErrorType → Text → TestException
test_exception t m = record { type = t; message = m; line = negsuc 0 }

unfoldable pub set_line : TestException → ℤ → TestException
set_line e l = record e { line = l }

-- self.line > 0
positive : ℤ → Bool
positive (pos zero) = false
positive (pos (suc n)) = true
positive (negsuc n) = false

unfoldable pub is_line_defined : TestException → Bool
unfolding positive
is_line_defined e = positive e.line

-- `other` is any exception that is not a TestException: an AttributeError, a TypeError, a fault of
-- a remote call.
pub data Raised : Type 0 where
  test : TestException → Raised
  other : Raised

pub data Outcome {ℓ} (A : Type ℓ) : Type ℓ where
  ok : A → Outcome A
  raise : Raised → Outcome A

infixl 5 ◌>>=◌ ◌>>◌
abbrev pub ◌>>=◌ {ℓ κ} : {A : Type ℓ} {B : Type κ} → Outcome A → (A → Outcome B) → Outcome B
ok a >>= f = f a
raise e >>= f = raise e

abbrev pub ◌>>◌ {ℓ} : {B : Type ℓ} → Outcome (Unit {0}) → Outcome B → Outcome B
m >> k = m >>= λ _. k

pub Outcome-cases {ℓ} :
    {A : Type ℓ} (r : Outcome A) → ((a : A) × (r ≡ ok a)) ⊎ ((e : Raised) × (r ≡ raise e))
Outcome-cases (ok a) = inl (a, refl)
Outcome-cases (raise e) = inr (e, refl)
