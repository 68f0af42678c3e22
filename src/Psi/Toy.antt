-- ===== src/Psi/Toy.antt =====
-- Secrets small enough to compute with, for the tests.
use n_mpc.Prelude.{
  ◌≡◌, refl, ap, [], ◌∷◌, ◌++◌, ℕ, ◌+◌, length, arith, take, drop, replicate, length-take,
  length-append, length-replicate, suc,
}
use n_mpc.Psi.Session.{Bytes}
use n_mpc.Psi.Curve.{Primitives, IsCurve}
use n_mpc.Psi.Accepted.{Walks}

abbrev pub head_or_zero : Bytes → ℕ
head_or_zero [] = 0
head_or_zero (x ∷ xs) = x

-- Thirty-one bytes behind the head.
pub padded : Bytes → Bytes
padded p = take 31 (drop 1 p ++ replicate 31 0)

abbrev pub toy : Primitives
toy = record {
  shake256 = λ x. head_or_zero x ∷ padded x;
  scalar_mul = λ k p. (head_or_zero p + head_or_zero k) ∷ padded p;
}

length-padded : (p : Bytes) → length (padded p) ≡ 31
unfolding padded
length-padded p = omega (
  arith,
  length-take 31 (drop 1 p ++ replicate 31 0),
  length-append (drop 1 p) (replicate 31 0),
  length-replicate {A = ℕ} 31 0,
)

padded-cons : (x y : ℕ) (p : Bytes) → padded (x ∷ p) ≡ padded (y ∷ p)
unfolding padded
padded-cons x y p = refl

pub toy-IsCurve : IsCurve toy
toy-IsCurve = record {
  length-shake256 = λ x. ap suc (length-padded x);
  length-scalar_mul = λ k p. ap suc (length-padded p);
  scalar_mul_comm = λ a b p. ground (
    arith,
    padded-cons (head_or_zero p + head_or_zero b) (head_or_zero p + head_or_zero a) (padded p),
  );
}

pub walk-id-Walks : Walks (λ xs. xs)
walk-id-Walks = record { length-walk = λ xs. refl; elem-walk = λ x xs. refl }
