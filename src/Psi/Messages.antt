-- ===== src/Psi/Messages.antt =====
-- The messages of the handshake (interconnection/handshake/*.proto) and the party's proposals,
-- `Context.__init__` and `make_handshake_request` of src/PSI/psi/interconnection_psi/config.py.
-- A protobuf message is a record, and an `Any` is the message that it packs.
use n_mpc.Prelude.{ℕ, Bool, false, List, [], ◌∷◌, map, ℤ, String}
use n_mpc.Psi.Session.{
  EcSuit, EccProtocolResult, curve25519, shake_256, direct_hash_as_point_x, uncompressed,
}

-- SENDER_RANK and RECEIVER_RANK
abbrev pub sender_rank : ℕ
sender_rank = 0

abbrev pub receiver_rank : ℕ
receiver_rank = 1

-- ALGO_TYPE_ECDH_PSI and PROTOCOL_FAMILY_ECC
abbrev pub ecdh_psi : ℕ
ecdh_psi = 1

abbrev pub ecc_family : ℕ
ecc_family = 1

-- The codes of ErrorCode
abbrev pub unsupported_version : ℕ
unsupported_version = 31100201

abbrev pub unsupported_algo : ℕ
unsupported_algo = 31100202

abbrev pub unsupported_params : ℕ
unsupported_params = 31100203

pub record EccProtocolProposal : Type 0 where
  pub supported_versions : List ℕ
  pub ec_suits : List EcSuit
  pub point_octet_formats : List ℕ
  pub support_point_truncation : Bool

pub record PsiDataInfoProposal : Type 0 where
  pub supported_versions : List ℕ
  pub item_num : ℕ
  pub result_to_rank : ℤ

pub record PsiDataInfoResult : Type 0 where
  pub version : ℕ
  pub result_to_rank : ℤ

-- A `google.protobuf.any_pb2.Any` by what it packs; `foreign` is a message of another type.
pub data Packed : Type 0 where
  ecc_proposal : EccProtocolProposal → Packed
  ecc_result : EccProtocolResult → Packed
  io_proposal : PsiDataInfoProposal → Packed
  io_result : PsiDataInfoResult → Packed
  foreign : Packed

pub record HandshakeRequest : Type 0 where
  pub version : ℕ
  pub requester_rank : ℕ
  pub supported_algos : List ℕ
  pub protocol_families : List ℕ
  pub protocol_family_params : List Packed
  pub io_param : Packed

pub record HandshakeResponse : Type 0 where
  pub algo : ℕ
  pub protocol_families : List ℕ
  pub protocol_family_params : List Packed
  pub io_param : Packed

-- `Context` as `__init__` leaves it.
pub record Context : Type 0 where
  pub version : ℕ
  pub protocol_families : List ℕ
  pub protocol_family_params : List EccProtocolProposal
  pub supported_algos : List ℕ
  pub supported_versions : List ℕ
  pub rank : ℕ
  pub item_num : ℕ
  pub result_to_rank : ℤ
  pub domain_list : List String

abbrev pub default_suit : EcSuit
default_suit = record {
  curve = curve25519;
  hash = shake_256;
  hash2curve_strategy = direct_hash_as_point_x;
}

abbrev pub default_proposal : EccProtocolProposal
default_proposal = record {
  supported_versions = 1 ∷ [];
  ec_suits = default_suit ∷ [];
  point_octet_formats = uncompressed ∷ [];
  support_point_truncation = false;
}

-- `Context.__init__`
unfoldable pub new_context : ℕ → ℕ → ℤ → List String → Context
new_context rank item_num result_to_rank domain_list = record {
  version = 1;
  protocol_families = ecc_family ∷ [];
  protocol_family_params = default_proposal ∷ [];
  supported_algos = ecdh_psi ∷ [];
  supported_versions = 1 ∷ [];
  rank = rank;
  item_num = item_num;
  result_to_rank = result_to_rank;
  domain_list = domain_list;
}

unfoldable pub make_handshake_request : Context → HandshakeRequest
make_handshake_request ctx = record {
  version = ctx.version;
  requester_rank = ctx.rank;
  supported_algos = ctx.supported_algos;
  protocol_families = ctx.protocol_families;
  protocol_family_params = map ecc_proposal ctx.protocol_family_params;
  io_param = io_proposal (record {
    supported_versions = ctx.supported_versions;
    item_num = ctx.item_num;
    result_to_rank = ctx.result_to_rank;
  });
}
