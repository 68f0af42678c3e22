-- ===== src/Psi/Curve.antt =====
-- The crypto extension (src/PSI/crypto/src): point multiplication on arrays, and points on the
-- wire. The arithmetic of curve25519-dalek and SHAKE-256 are parameters.
use n_mpc.Prelude.{
  ℕ, zero, suc, ◌+◌, ◌*◌, ◌/◌, ◌≡◌, List, [], ◌∷◌, map, length, take, drop, ◌==◌, if◌then◌else◌,
}
use n_mpc.Prelude.Result.{Result, ok, err, panic, require, ◌>>=◌, ◌>>◌}
use n_mpc.Psi.Session.{
  Bytes, Session, shake_256, direct_hash_as_point_x, uncompressed, hash_types,
  hash_to_curve_strategies, point_octet_formats, crypto_func,
}

-- The library functions that the crate calls.
pub record Primitives : Type 0 where
  pub shake256 : Bytes → Bytes
  pub scalar_mul : Bytes → Bytes → Bytes

-- What the crate relies on: 32-byte outputs, and that multiplications commute.
pub record IsCurve (c : Primitives) : Type 0 where
  pub length-shake256 : (x : Bytes) → length (c.shake256 x) ≡ 32
  pub length-scalar_mul : (k p : Bytes) → length (c.scalar_mul k p) ≡ 32
  pub scalar_mul_comm :
      (a b p : Bytes) → c.scalar_mul a (c.scalar_mul b p) ≡ c.scalar_mul b (c.scalar_mul a p)

module _ (c : Primitives) where
  -- `Secret::run_impl`, which `encrypt` and `diffie_hellman` both are: an element that is not 32
  -- bytes long panics.
  unfoldable pub diffie_hellman : Bytes → List Bytes → Result (List Bytes)
  diffie_hellman key [] = ok []
  diffie_hellman key (x ∷ xs) = do
    require (length x == 32) panic
    rest ← diffie_hellman key xs
    ok (c.scalar_mul key x ∷ rest)

  -- `crypto.hash`
  unfoldable pub hash : List Bytes → ℕ → Result (List Bytes)
  hash array typ = if typ == shake_256 then ok (map c.shake256 array) else err panic

  -- `crypto.hash_to_curve`
  unfoldable pub hash_to_curve : List Bytes → ℕ → Result (List Bytes)
  hash_to_curve array typ = if typ == direct_hash_as_point_x then ok array else err panic

  -- the closure `hash_and_encrypt` of `Context.reset_from_response`
  unfoldable pub hash_and_encrypt : Session → List Bytes → Result (List Bytes)
  unfolding crypto_func hash hash_to_curve
  hash_and_encrypt s array = do
    hashed ← crypto_func s.ecc_param.ec_suit.hash hash_types (hash array)
    points ←
        crypto_func s.ecc_param.ec_suit.hash2curve_strategy hash_to_curve_strategies
          (hash_to_curve hashed)
    diffie_hellman s.key points

-- `crypto.point_octet_marshal`
unfoldable pub point_octet_marshal : List Bytes → ℕ → Result (List Bytes)
point_octet_marshal array typ = if typ == uncompressed then ok array else err panic

-- The loop of `point_octet_unmarshal`: `n` slices of `block_size` bytes, from slice `i` on.
unfoldable pub slices : ℕ → ℕ → ℕ → Bytes → List Bytes
slices zero i block_size bytes = []
slices (suc n) i block_size bytes =
    take block_size (drop (i * block_size) bytes) ∷ slices n (i + 1) block_size bytes

-- `crypto.point_octet_unmarshal`
unfoldable pub point_octet_unmarshal : Bytes → ℕ → ℕ → Result (List Bytes)
unfolding slices
point_octet_unmarshal bytes count typ =
    if typ == uncompressed
    then if count == 0 then ok [] else ok (slices count 0 (length bytes / count) bytes)
    else err panic

-- `ctx.point_octet_marshal` and `ctx.point_octet_unmarshal`
unfoldable pub marshal : Session → List Bytes → Result (List Bytes)
unfolding crypto_func point_octet_marshal
marshal s array =
    crypto_func s.ecc_param.point_octet_format point_octet_formats (point_octet_marshal array)

unfoldable pub unmarshal : Session → Bytes → ℕ → Result (List Bytes)
unfolding crypto_func point_octet_unmarshal
unmarshal s bytes count =
    crypto_func s.ecc_param.point_octet_format point_octet_formats
      (point_octet_unmarshal bytes count)
