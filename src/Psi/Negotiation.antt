-- ===== src/Psi/Negotiation.antt =====
-- When a party of this program accepts a request, and what both sides are left with.
use n_mpc.Prelude.{
  ℕ, ◌≡◌, refl, true, not, List, [], ◌∷◌, ℤ, pos, negsuc, ◌==ℤ◌, ◌==◌, if◌then◌else◌, String, arith,
}
use n_mpc.Prelude.Result.{ok, err, syntax_error}
use n_mpc.Psi.Session.{Bytes, Session, uncompressed, IsSupported}
use n_mpc.Psi.Messages.{
  sender_rank, HandshakeRequest, new_context, default_suit, make_handshake_request,
}
use n_mpc.Psi.Base.{same_suit, unpack_proposals}
use n_mpc.Psi.Handshake.{
  agree, make_response, reset_from_response, negotiate_handshake, shakehand_flow,
}
use n_mpc.Psi.Accepted.{
  Walks, accepts, default_agreed, intersection_int-pair, intersection_numbers-singleton,
  agree_io-eq, agree_ecc-eq,
}

module _ (walk : List ℕ → List ℕ) (walks : Walks walk) where
  -- A party of this program agrees to the default parameters where the request's version, its
  -- algorithms, its families, its proposals and its direction admit them; else it raises a
  -- SyntaxError.
  agree-eq :
      (rank n : ℕ) (r : ℤ) (domains : List String) (req : HandshakeRequest)
      → agree walk (new_context rank n r domains) req
        ≡ (if accepts r req then ok default_agreed else err syntax_error)
  unfolding agree new_context unpack_proposals
  agree-eq rank n r domains req = ground (
    arith,
    intersection_int-pair (pos 1) (pos req.version),
    intersection_numbers-singleton walk walks 1 (req.supported_algos ∷ []),
    intersection_numbers-singleton walk walks 1 (req.protocol_families ∷ []),
    agree_io-eq walk walks n r req.io_param,
    agree_ecc-eq walk walks (unpack_proposals req.protocol_family_params),
  )

-- The session that `reset_from_response` makes of the default parameters.
abbrev pub default_session : ℕ → ℤ → ℤ → Bytes → Session
default_session rank r answered key = record {
  ecc_param = record {
    version = 1;
    ec_suit = default_suit;
    point_octet_format = uncompressed;
    bit_length_after_truncated = 0;
    result_to_rank = answered;
  };
  key = key;
  need_recv_cipher = if r ==ℤ negsuc 0 then true else not (rank == sender_rank);
  need_send_cipher = if r ==ℤ negsuc 0 then true else rank == sender_rank;
}

pub default_session-IsSupported :
    (rank : ℕ) (r answered : ℤ) (key : Bytes) → IsSupported (default_session rank r answered key)
default_session-IsSupported rank r answered key = record {
  curve = refl;
  hash = refl;
  strategy = refl;
  format = refl;
}

reset_from_response-eq :
    (rank n : ℕ) (r : ℤ) (domains : List String) (rank' n' : ℕ) (r' : ℤ) (domains' : List String)
    (key : Bytes)
    → reset_from_response
        (new_context rank n r domains)
        key
        (make_response (new_context rank' n' r' domains') default_agreed)
      ≡ ok (default_session rank r r' key)
unfolding reset_from_response make_response new_context
reset_from_response-eq rank n r domains rank' n' r' domains' key = refl

own_request-accepts :
    (rank n : ℕ) (r r' : ℤ) (domains : List String)
    → accepts r' (make_handshake_request (new_context rank n r domains)) ≡ (r ==ℤ r')
unfolding make_handshake_request new_context unpack_proposals same_suit
own_request-accepts rank n r r' domains = ground arith

module _ (walk : List ℕ → List ℕ) (walks : Walks walk) where
  -- The answer to any request, with the session of the party that answers: the default parameters
  -- where the request admits them, else a SyntaxError, whatever the reason for the refusal.
  pub negotiate_handshake-eq :
      (rank n : ℕ) (r : ℤ) (domains : List String) (key : Bytes) (req : HandshakeRequest)
      → negotiate_handshake walk (new_context rank n r domains) key req ≡ (
          if accepts r req
          then ok (
            make_response (new_context rank n r domains) default_agreed,
            default_session rank r r key,
          )
          else err syntax_error)
  unfolding negotiate_handshake
  negotiate_handshake-eq rank n r domains key req = ground (
    arith,
    agree-eq walk walks rank n r domains req,
    reset_from_response-eq rank n r domains rank n r domains key,
  )

  -- Two parties of this program agree exactly if both want the result at the same ranks, and then
  -- each is left with the default parameters and its own key.
  pub shakehand_flow-eq :
      (n n' : ℕ) (r r' : ℤ) (domains domains' : List String) (key key' : Bytes)
      → shakehand_flow walk (new_context 0 n r domains) (new_context 1 n' r' domains') key key' ≡ (
          if r ==ℤ r'
          then ok (default_session 0 r r' key, default_session 1 r' r' key')
          else err syntax_error)
  unfolding shakehand_flow
  shakehand_flow-eq n n' r r' domains domains' key key' = ground (
    arith,
    negotiate_handshake-eq 1 n' r' domains' key'
        (make_handshake_request (new_context 0 n r domains)),
    own_request-accepts 0 n r r' domains,
    reset_from_response-eq 0 n r domains 1 n' r' domains' key,
  )
