-- ===== src/Prelude/Result.antt =====
-- Python code that may raise: a value or the exception.
use Prim.Native.Nat.{ℕ}
use mathlib.Core.Path.{◌≡◌, refl}
use mathlib.Core.Logic.{◌⊎◌, inl, inr}
use mathlib.Core.Bool.{Bool, true, false}
use mathlib.Core.Option.{Option, none, some}

-- The classes of exceptions that the modelled code raises; `psi_exception` carries its error code,
-- and `panic` is a Rust panic that crosses into Python.
pub data Raised : Type 0 where
  runtime_error assertion_error index_error value_error key_error type_error : Raised
  rpc_error name_error overflow_error attribute_error syntax_error stop_iteration already_exists
        not_found plain_exception panic :
      Raised
  psi_exception : ℕ → Raised

pub data Result {ℓ} (A : Type ℓ) : Type ℓ where
  ok : A → Result A
  err : (raised : Raised) → Result A

-- `assert test`, and `if not test: raise e`.
abbrev pub require : (test : Bool) (raised : Raised) → Result (Unit {0})
require false raised = err raised
require true raised = ok tt

-- What follows runs on the value, and an exception passes through.
infixl 5 ◌>>=◌ ◌>>◌
abbrev pub ◌>>=◌ {ℓ κ} : {A : Type ℓ} {B : Type κ} → Result A → (A → Result B) → Result B
err raised >>= next = err raised
ok a >>= next = next a

-- A read that raises where there is nothing.
abbrev pub or_raise {ℓ} : {A : Type ℓ} → Option A → Raised → Result A
or_raise none e = err e
or_raise (some a) e = ok a

abbrev pub ◌>>◌ {ℓ} : {A : Type ℓ} → Result (Unit {0}) → Result A → Result A
check >> next = check >>= λ _. next

pub Result-cases {ℓ} :
    {A : Type ℓ} (r : Result A) → ((a : A) × (r ≡ ok a)) ⊎ ((e : Raised) × (r ≡ err e))
Result-cases (ok a) = inl (a, refl)
Result-cases (err e) = inr (e, refl)

-- A value comes only of a value.
pub bind-ok {ℓ κ} :
    {A : Type ℓ} {B : Type κ} (r : Result A) (next : A → Result B) {b : B}
    → (r >>= next) ≡ ok b
    → (a : A) × (r ≡ ok a) × (next a ≡ ok b)
bind-ok (ok a) next h = (a, refl, h)
bind-ok (err e) next h = absurd (cc)

pub ok_inj {ℓ} : {A : Type ℓ} {a b : A} → ok a ≡ ok b → a ≡ b
ok_inj h = cc
