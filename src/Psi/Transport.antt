-- ===== src/Psi/Transport.antt =====
-- Arrays of points survive the wire, and the calls of the crypto library with supported parameters.
use n_mpc.Prelude.{
  ℕ, suc, ◌+◌, ◌*◌, ◌/◌, ◌<◌, ◌≡◌, refl, sym, ap, ◌∙◌, List, [], ◌∷◌, ◌++◌, map, arith, length,
  take, drop, All, concat, length-append, drop-drop, drop-append, take-append,
}
use n_mpc.Prelude.Result.{ok}
use n_mpc.Psi.Session.{Bytes, Session, IsSupported}
use n_mpc.Psi.Curve.{
  Primitives, IsCurve, diffie_hellman, hash_and_encrypt, slices, marshal, unmarshal,
}

abbrev pub IsPoint : Bytes → Type 0
IsPoint p = length p ≡ 32

length-concat : (xs : List Bytes) → All IsPoint xs → length (concat xs) ≡ 32 * length xs
length-concat [] h = refl
length-concat (x ∷ xs) h = omega (arith, length-append x (concat xs), length-concat xs h.1, h.0)

take_of_length : (w : ℕ) (x y : Bytes) → length x ≡ w → take w (x ++ y) ≡ x
take_of_length w x y e = rw (← e) (take-append x y)

drop_of_length : (w : ℕ) (x y : Bytes) → length x ≡ w → drop w (x ++ y) ≡ y
drop_of_length w x y e = rw (← e) (drop-append x y)

module _ (bytes : Bytes) where
  slices-concat :
      (i : ℕ) (xs : List Bytes)
      → All IsPoint xs
      → drop (i * 32) bytes ≡ concat xs
      → slices (length xs) i 32 bytes ≡ xs
  unfolding slices
  slices-concat i [] h e = refl
  slices-concat i (x ∷ xs) h e =
      let head : take 32 (drop (i * 32) bytes) ≡ x = rw e (take_of_length 32 x (concat xs) h.0) in
      let next : (i + 1) * 32 ≡ i * 32 + 32 = omega arith in
      let rest : drop ((i + 1) * 32) bytes ≡ concat xs = rw next (
        sym (drop-drop 32 (i * 32) bytes) ∙ ap (drop 32) e ∙ drop_of_length 32 x (concat xs) h.0) in
      cc (head, slices-concat (i + 1) xs h.1 rest)

div_of_mul : (n : ℕ) → 0 < n → (32 * n) / n ≡ 32
div_of_mul n h = grind arith

-- With supported parameters, what `b''.join` puts together of points of 32 bytes,
-- `point_octet_unmarshal` takes apart.
pub unmarshal-concat :
    (s : Session) (xs : List Bytes)
    → IsSupported s
    → All IsPoint xs
    → unmarshal s (concat xs) (length xs) ≡ ok xs
unfolding unmarshal
unmarshal-concat s [] v h = rw v.format
unmarshal-concat s (x ∷ xs) v h =
    let width : length (concat (x ∷ xs)) / length (x ∷ xs) ≡ 32 =
      rw (length-concat (x ∷ xs) h) (div_of_mul (suc (length xs)) (omega arith)) in
    let all : slices (length (x ∷ xs)) 0 (length (concat (x ∷ xs)) / length (x ∷ xs))
          (concat (x ∷ xs))
        ≡ x ∷ xs =
      rw width (slices-concat (concat (x ∷ xs)) 0 (x ∷ xs) h refl) in
    ground (arith, v.format, all)

pub marshal-ok : (s : Session) (xs : List Bytes) → IsSupported s → marshal s xs ≡ ok xs
unfolding marshal
marshal-ok s xs v = rw v.format

module _ (c : Primitives) (laws : IsCurve c) where
  pub diffie_hellman-ok :
      (key : Bytes) (xs : List Bytes)
      → All IsPoint xs
      → diffie_hellman c key xs ≡ ok (map (c.scalar_mul key) xs)
  unfolding diffie_hellman
  diffie_hellman-ok key [] h = refl
  diffie_hellman-ok key (x ∷ xs) h = ground (arith, diffie_hellman-ok key xs h.1, h.0)

  pub All-IsPoint-scalar_mul :
      (key : Bytes) (xs : List Bytes) → All IsPoint (map (c.scalar_mul key) xs)
  All-IsPoint-scalar_mul key [] = tt
  All-IsPoint-scalar_mul key (x ∷ xs) =
      (laws.length-scalar_mul key x, All-IsPoint-scalar_mul key xs)

  pub All-IsPoint-shake256 : (xs : List Bytes) → All IsPoint (map c.shake256 xs)
  All-IsPoint-shake256 [] = tt
  All-IsPoint-shake256 (x ∷ xs) = (laws.length-shake256 x, All-IsPoint-shake256 xs)

  pub hash_and_encrypt-ok :
      (s : Session) (xs : List Bytes)
      → IsSupported s
      → hash_and_encrypt c s xs ≡ ok (map (c.scalar_mul s.key) (map c.shake256 xs))
  unfolding hash_and_encrypt
  hash_and_encrypt-ok s xs v =
      rw (v.hash, v.strategy)
        (diffie_hellman-ok s.key (map c.shake256 xs) (All-IsPoint-shake256 xs))
