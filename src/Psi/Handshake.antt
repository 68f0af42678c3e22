-- ===== src/Psi/Handshake.antt =====
-- The handshake: `negotiate_handshake` and `reset_from_response` of class Context in
-- src/PSI/psi/interconnection_psi/config.py, and `shakehand_flow` of flow.py.
use n_mpc.Prelude.{
  ℕ, Bool, true, false, not, List, [], ◌∷◌, ◌++◌, map, pos, negsuc, ◌==ℤ◌, ◌==◌, if◌then◌else◌,
  length,
}
use n_mpc.Prelude.Result.{Result, ok, err, index_error, panic, ◌>>=◌, ◌>>◌}
use n_mpc.Psi.Session.{Bytes, EcSuit, Session, curve_types, curve25519, int_to_proto_enum_name}
use n_mpc.Psi.Messages.{
  sender_rank, ecdh_psi, ecc_family, unsupported_version, unsupported_algo, unsupported_params,
  EccProtocolProposal, PsiDataInfoProposal, ecc_result, io_result, HandshakeRequest,
  HandshakeResponse, Context, make_handshake_request,
}
use n_mpc.Psi.Base.{
  raise_exception, intersection_int, intersection_bool, intersection_suits, intersection_numbers,
  elem, unpack_proposals, unpack_results, unpack_io, first,
}

-- `Context.reset_from_response`: the session of a party with this rank and key. The library refuses
-- a curve that it does not have when the `Curve` is made.
unfoldable pub new_curve : ℕ → Result (Unit {0})
unfolding int_to_proto_enum_name
new_curve typ = do
  name ← int_to_proto_enum_name typ curve_types
  if name == curve25519 then ok tt else err panic

unfoldable pub need_send : Context → Bool
need_send ctx = if ctx.result_to_rank ==ℤ negsuc 0 then true else ctx.rank == sender_rank

unfoldable pub need_recv : Context → Bool
need_recv ctx = if ctx.result_to_rank ==ℤ negsuc 0 then true else not (ctx.rank == sender_rank)

unfoldable pub reset_from_response : Context → Bytes → HandshakeResponse → Result Session
unfolding new_curve need_send need_recv first unpack_results
reset_from_response ctx key rsp = do
  ecc_param ← first (unpack_results rsp.protocol_family_params)
  new_curve ecc_param.ec_suit.curve
  ok (record {
    ecc_param = ecc_param;
    key = key;
    need_recv_cipher = need_recv ctx;
    need_send_cipher = need_send ctx;
  })

-- `if test: raise_exception(code, …, reqs, …)`, with the inputs that are named in the message.
abbrev pub refuse_if : Bool → ℕ → ℕ → Result (Unit {0})
refuse_if true error_code inputs = raise_exception error_code inputs
refuse_if false error_code inputs = ok tt

-- The choices made from the proposals of both sides.
pub record Agreed : Type 0 where
  pub algo_version : ℕ
  pub ecc_version : ℕ
  pub ec_suit : EcSuit
  pub point_octet_format : ℕ

-- The part of `negotiate_handshake` on `io_param`, both sides' proposals unpacked.
unfoldable pub agree_io : (List ℕ → List ℕ) → List PsiDataInfoProposal → Result ℕ
unfolding raise_exception first
agree_io walk [] = err index_error
agree_io walk (own ∷ others) = do
  supported_versions ←
      intersection_numbers walk own.supported_versions (map (λ p. p.supported_versions) others)
  refuse_if (length supported_versions == 0) unsupported_version (length (own ∷ others))
  algo_version ← first supported_versions
  refuse_if (not (intersection_int own.result_to_rank (map (λ p. p.result_to_rank) others)))
      unsupported_params (length (own ∷ others))
  ok algo_version

-- The part on `protocol_family_params`.
unfoldable pub agree_ecc : (List ℕ → List ℕ) → List EccProtocolProposal → Result (ℕ × EcSuit × ℕ)
unfolding intersection_bool raise_exception first
agree_ecc walk [] = raise_exception unsupported_params 2
agree_ecc walk (own ∷ others) = do
  supported_versions ←
      intersection_numbers walk own.supported_versions (map (λ p. p.supported_versions) others)
  refuse_if (length supported_versions == 0) unsupported_version (length (own ∷ others))
  ecc_versions ← first supported_versions
  ec_suits ← intersection_suits own.ec_suits (map (λ p. p.ec_suits) others)
  refuse_if (length ec_suits == 0) unsupported_params (length (own ∷ others))
  formats ←
      intersection_numbers walk own.point_octet_formats (map (λ p. p.point_octet_formats) others)
  refuse_if (length formats == 0) unsupported_params (length (own ∷ others))
  refuse_if (intersection_bool (map (λ p. p.support_point_truncation) (own ∷ others)))
      unsupported_params 0
  suit ← first ec_suits
  format ← first formats
  ok (ecc_versions, suit, format)

-- What `negotiate_handshake` decides, before the response is built.
unfoldable pub agree : (List ℕ → List ℕ) → Context → HandshakeRequest → Result Agreed
unfolding make_handshake_request raise_exception
agree walk ctx req = do
  let own = make_handshake_request ctx
  refuse_if (not (intersection_int (pos own.version) (pos req.version ∷ []))) unsupported_version 2
  supported_algos ← intersection_numbers walk own.supported_algos (req.supported_algos ∷ [])
  refuse_if (not (elem ecdh_psi supported_algos)) unsupported_algo 2
  algo_version ← agree_io walk (unpack_io (own.io_param ∷ req.io_param ∷ []))
  protocol_families ← intersection_numbers walk own.protocol_families (req.protocol_families ∷ [])
  refuse_if (not (elem ecc_family protocol_families)) unsupported_params 2
  ecc ← agree_ecc walk (unpack_proposals (own.protocol_family_params ++ req.protocol_family_params))
  ok (record {
    algo_version = algo_version;
    ecc_version = ecc.0;
    ec_suit = ecc.1;
    point_octet_format = ecc.2;
  })

unfoldable pub make_response : Context → Agreed → HandshakeResponse
make_response ctx agreed = record {
  algo = ecdh_psi;
  protocol_families = ecc_family ∷ [];
  protocol_family_params =
      ecc_result (record {
        version = agreed.ecc_version;
        ec_suit = agreed.ec_suit;
        point_octet_format = agreed.point_octet_format;
        bit_length_after_truncated = 0;
        result_to_rank = ctx.result_to_rank;
      })
      ∷ [];
  io_param =
      io_result (record { version = agreed.algo_version; result_to_rank = ctx.result_to_rank });
}

-- `Context.negotiate_handshake`: the response, and the session that the receiver is left with.
unfoldable pub negotiate_handshake :
    (List ℕ → List ℕ) → Context → Bytes → HandshakeRequest → Result (HandshakeResponse × Session)
unfolding make_response reset_from_response
negotiate_handshake walk ctx key req = do
  agreed ← agree walk ctx req
  let rsp = make_response ctx agreed
  session ← reset_from_response ctx key rsp
  ok (rsp, session)

-- `shakehand_flow` of both ranks over one link: the two sessions, the sender's first.
unfoldable pub shakehand_flow :
    (List ℕ → List ℕ) → Context → Context → Bytes → Bytes → Result (Session × Session)
unfolding reset_from_response
shakehand_flow walk sender receiver sender_key receiver_key = do
  answer ← negotiate_handshake walk receiver receiver_key (make_handshake_request sender)
  session ← reset_from_response sender sender_key answer.0
  ok (session, answer.1)
