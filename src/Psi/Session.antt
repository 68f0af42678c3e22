-- ===== src/Psi/Session.antt =====
-- What a handshake leaves in a `Context` of interconnection_psi/config.py for the exchange of
-- ciphers: the negotiated elliptic curve parameters, the secret key and the two directions.
-- The numbers of the protocol's enumerations are those of the .proto files beside it.
use n_mpc.Prelude.{ℕ, ℤ, ◌≡◌, Bool, List, [], ◌∷◌, anyb, ◌==◌, if◌then◌else◌}
use n_mpc.Prelude.Result.{Result, ok, err, key_error, ◌>>=◌}

abbrev pub Bytes : Type 0
Bytes = List ℕ

pub record EcSuit : Type 0 where
  pub curve : ℕ
  pub hash : ℕ
  pub hash2curve_strategy : ℕ

pub record EccProtocolResult : Type 0 where
  pub version : ℕ
  pub ec_suit : EcSuit
  pub point_octet_format : ℕ
  pub bit_length_after_truncated : ℕ
  pub result_to_rank : ℤ

pub record Session : Type 0 where
  pub ecc_param : EccProtocolResult
  pub key : Bytes
  pub need_recv_cipher : Bool
  pub need_send_cipher : Bool

-- CURVE_TYPE_CURVE25519, HASH_TYPE_SHAKE_256, HASH_TO_CURVE_STRATEGY_DIRECT_HASH_AS_POINT_X and
-- POINT_OCTET_FORMAT_UNCOMPRESSED
abbrev pub curve25519 : ℕ
curve25519 = 1

abbrev pub shake_256 : ℕ
shake_256 = 30

abbrev pub direct_hash_as_point_x : ℕ
direct_hash_as_point_x = 3

abbrev pub uncompressed : ℕ
uncompressed = 1

abbrev pub curve_types : List ℕ
curve_types = 0 ∷ 1 ∷ 2 ∷ []

abbrev pub hash_types : List ℕ
hash_types = 0 ∷ 1 ∷ 10 ∷ 11 ∷ 12 ∷ 13 ∷ 20 ∷ 21 ∷ 22 ∷ 23 ∷ 30 ∷ []

abbrev pub hash_to_curve_strategies : List ℕ
hash_to_curve_strategies = 0 ∷ 1 ∷ 2 ∷ 3 ∷ 10 ∷ 11 ∷ 12 ∷ 13 ∷ []

abbrev pub point_octet_formats : List ℕ
point_octet_formats = 0 ∷ 1 ∷ 2 ∷ 3 ∷ 4 ∷ []

-- `int_to_proto_enum_name` of base.py: a number that the enumeration does not have is a KeyError.
-- The name stands for its number here.
unfoldable pub int_to_proto_enum_name : ℕ → List ℕ → Result ℕ
int_to_proto_enum_name value typ = if anyb (λ v. v == value) typ then ok value else err key_error

-- `crypto_func.__call__` of base.py: the name of the stored number, then the function.
unfoldable pub crypto_func {ℓ} : {A : Type ℓ} → ℕ → List ℕ → (ℕ → Result A) → Result A
unfolding int_to_proto_enum_name
crypto_func value typ func = do name ← int_to_proto_enum_name value typ; func name

-- The parameters that the crypto library supports: with these no call of it panics over a name.
pub record IsSupported (s : Session) : Type 0 where
  pub curve : s.ecc_param.ec_suit.curve ≡ curve25519
  pub hash : s.ecc_param.ec_suit.hash ≡ shake_256
  pub strategy : s.ecc_param.ec_suit.hash2curve_strategy ≡ direct_hash_as_point_x
  pub format : s.ecc_param.point_octet_format ≡ uncompressed
