-- ===== src/Prelude/Method.antt =====
-- Methods that write to an object and may raise: what was written before a raise stays written, so
-- the object comes back beside the exception too.
use n_mpc.Prelude.Result.{Raised, Result, ok, err}
use mathlib.Core.Path.{◌≡◌, ap}

abbrev pub Method : Type 0 → Type 0 → Type 0
Method S A = S → Result A × S

module _ {S A : Type 0} where
  abbrev pub pure : A → Method S A
  pure a s = (ok a, s)

  abbrev pub raise : Raised → Method S A
  raise e s = (err e, s)

  abbrev pub lift : Result A → Method S A
  lift r s = (r, s)

  abbrev pub gets : (S → A) → Method S A
  gets f s = (ok (f s), s)

abbrev pub modify : {S : Type 0} → (S → S) → Method S (Unit {0})
modify f s = (ok tt, f s)

infixl 5 ◌>>=◌ ◌>>◌
abbrev pub ◌>>=◌ : {S A B : Type 0} → Method S A → (A → Method S B) → Method S B
◌>>=◌ m f s = let (r, s') = m s in elim r [ ok a ↦ f a s' | err e ↦ (err e, s') ]

abbrev pub ◌>>◌ : {S B : Type 0} → Method S (Unit {0}) → Method S B → Method S B
m >> k = m >>= λ _. k

-- A first step that is known, raising or not.
module _ {S A B : Type 0} (m : Method S A) (f : A → Method S B) {s s' : S} where
  pub bind-raised : {e : Raised} → m s ≡ (err e, s') → (m >>= f) s ≡ (err e, s')
  bind-raised {e} h =
      ap (λ x. elim x.0 as (λ _. Result B × S) [ ok a ↦ f a x.1 | err e ↦ (err e, x.1) ]) h

  pub bind-returned : {a : A} → m s ≡ (ok a, s') → (m >>= f) s ≡ f a s'
  bind-returned {a} h =
      ap (λ x. elim x.0 as (λ _. Result B × S) [ ok a ↦ f a x.1 | err e ↦ (err e, x.1) ]) h
