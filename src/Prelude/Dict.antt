-- ===== src/Prelude/Dict.antt =====
-- A Python dict with number keys, in insertion order.
use n_mpc.Prelude.Tests.{◌==◌, if◌then◌else◌}
use Prim.Native.Nat.{ℕ}
use mathlib.Core.Path.{◌≡◌, refl}
use mathlib.Core.Bool.{Bool, true, false}
use mathlib.Core.Option.{Option, none, some}
use mathlib.Core.List.{List, [], ◌∷◌, ◌++◌}
use native.Mathlib.Omega.{arith}

abbrev pub Dict {ℓ} : Type ℓ → Type ℓ
Dict V = List (ℕ × V)

module _ {ℓ} {V : Type ℓ} where
  -- `d[key] = value`: a new key comes last.
  abbrev pub insert : (key : ℕ) (value : V) → Dict V → Dict V
  insert key value [] = (key, value) ∷ []
  insert key value ((j, v) ∷ rest) =
      if j == key then (j, value) ∷ rest else (j, v) ∷ insert key value rest

  -- `d.get(key)`
  abbrev pub lookup : (key : ℕ) → Dict V → Option V
  lookup key [] = none
  lookup key ((j, v) ∷ rest) = if j == key then some v else lookup key rest

  -- `key in d`
  abbrev pub has_key : (key : ℕ) → Dict V → Bool
  has_key key d = elim (lookup key d) [ some _ ↦ true | none ↦ false ]

  pub lookup-insert :
      (k j : ℕ) (v : V) (d : Dict V)
      → lookup j (insert k v d) ≡ (if k == j then some v else lookup j d)
  lookup-insert k j v [] = ground arith
  lookup-insert k j v ((i, w) ∷ d) = ground (arith, lookup-insert k j v d)

  -- A key that is not there is appended.
  pub insert-new :
      (k : ℕ) (v : V) (d : Dict V) → lookup k d ≡ none → insert k v d ≡ d ++ (k, v) ∷ []
  insert-new k v [] h = refl
  insert-new k v ((j, w) ∷ d) h = ground (arith, insert-new k v d)
