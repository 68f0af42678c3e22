-- ===== src/Psi/Tests.antt =====
-- Concrete runs of the intersection, with stand-ins for the curve and the hash that keep their
-- laws.
use n_mpc.Prelude.{
  ◌≡◌, refl, Bool, true, false, none, some, [], ◌∷◌, ℕ, arith, List, All, map, concat, pos, negsuc,
}
use n_mpc.Prelude.Result.{ok, err, syntax_error}
use n_mpc.Psi.Transport.{IsPoint, unmarshal-concat, All-IsPoint-shake256}
use n_mpc.Psi.Streams.{Stream, last, batch, calcucipher_and_send-Stream}
use n_mpc.Psi.Received.{Received, recv_and_calcu-Received, send_dualenc-Stream, last_array}
use n_mpc.Psi.Flow.{
  diffie_hellman_flow, calcucipher_and_send, recv_and_calcu, add_peer_cipher, enc_sent, dual_sent,
}
use n_mpc.Psi.Messages.{make_handshake_request, new_context}
use n_mpc.Psi.Base.{unpack_proposals, same_suit}
use n_mpc.Psi.Handshake.{negotiate_handshake, shakehand_flow}
use n_mpc.Psi.Session.{Bytes, Session, IsSupported}
use n_mpc.Psi.Curve.{unmarshal}
use n_mpc.Psi.Cipher.{returned, contains, send_dualenc, empty_store}
use n_mpc.Psi.Negotiation.{
  default_session-IsSupported, default_session, shakehand_flow-eq, negotiate_handshake-eq,
}
use n_mpc.Psi.Api.{Call, run_psi}
use n_mpc.Psi.Checked.{Separates}
use n_mpc.Psi.Exchange.{twice_encrypted, exchange}
use n_mpc.Psi.Joint.{run_psi-common, run_psi-receiver}
use n_mpc.Psi.Toy.{toy, toy-IsCurve, walk-id-Walks}

abbrev leader : Bool → Call ℕ
leader back = record {
  psi_in = ((1 ∷ []), 10) ∷ ((2 ∷ []), 20) ∷ ((3 ∷ []), 30) ∷ [];
  self_domain = "a";
  target_domain = "b";
  send_back = back;
  key = 7 ∷ [];
}

abbrev follower : Bool → Call ℕ
follower back = record {
  psi_in = ((3 ∷ []), 300) ∷ ((4 ∷ []), 400) ∷ ((1 ∷ []), 100) ∷ [];
  self_domain = "b";
  target_domain = "a";
  send_back = back;
  key = 5 ∷ [];
}

-- The heads of the double ciphers differ where the identifiers do.
apart :
    Separates
      (twice_encrypted toy (7 ∷ []) (5 ∷ []))
      ((1 ∷ []) ∷ (2 ∷ []) ∷ (3 ∷ []) ∷ [])
      ((3 ∷ []) ∷ (4 ∷ []) ∷ (1 ∷ []) ∷ [])
apart = ground arith

-- The identifiers 1 and 3 are on both sides.
run_psi-common_example :
    run_psi toy (λ xs. xs) (leader true) (follower true)
    ≡ ok (
      returned (some ((1 ∷ [], 10) ∷ (3 ∷ [], 30) ∷ [])),
      returned (some ((3 ∷ [], 300) ∷ (1 ∷ [], 100) ∷ [])),
    )
unfolding contains
run_psi-common_example =
    run_psi-common toy toy-IsCurve (λ xs. xs) walk-id-Walks (leader true) (follower true) refl refl
      apart

run_psi-receiver_example :
    run_psi toy (λ xs. xs) (leader false) (follower false)
    ≡ ok (returned none, returned (some ((3 ∷ [], 300) ∷ (1 ∷ [], 100) ∷ [])))
unfolding contains
run_psi-receiver_example =
    run_psi-receiver toy toy-IsCurve (λ xs. xs) walk-id-Walks (leader false) (follower false) refl
      refl apart

-- A session of the leader that keeps to the default parameters, and the points of its identifiers.
abbrev session : Session
session = default_session 0 (negsuc 0) (negsuc 0) (7 ∷ [])

session-IsSupported : IsSupported session
session-IsSupported = default_session-IsSupported 0 (negsuc 0) (negsuc 0) (7 ∷ [])

abbrev peer : Session
peer = default_session 1 (negsuc 0) (negsuc 0) (5 ∷ [])

peer-IsSupported : IsSupported peer
peer-IsSupported = default_session-IsSupported 1 (negsuc 0) (negsuc 0) (5 ∷ [])

abbrev identifiers : List Bytes
identifiers = (3 ∷ []) ∷ (4 ∷ []) ∷ (1 ∷ []) ∷ []

abbrev points : List Bytes
points = map toy.shake256 identifiers

points-IsPoint : All IsPoint points
points-IsPoint = All-IsPoint-shake256 toy toy-IsCurve identifiers

unmarshal-concat_example : unmarshal session (concat points) 3 ≡ ok points
unmarshal-concat_example = unmarshal-concat session points session-IsSupported points-IsPoint

-- Three identifiers in batches of two.
calcucipher_and_send-Stream_example :
    Stream false 0
      (map (toy.scalar_mul (7 ∷ [])) points)
      (calcucipher_and_send toy session identifiers 2).0
    × ((calcucipher_and_send toy session identifiers 2).1 ≡ returned tt)
calcucipher_and_send-Stream_example =
    calcucipher_and_send-Stream toy toy-IsCurve session session-IsSupported identifiers 2
      (omega arith)

recv_and_calcu-Received_example :
    Received session (map (toy.scalar_mul (7 ∷ [])) points) empty_store (
      recv_and_calcu session
        (add_peer_cipher toy session)
        (batch false 0 true points ∷ [])
        empty_store)
recv_and_calcu-Received_example =
    recv_and_calcu-Received toy toy-IsCurve session session-IsSupported empty_store
      (last 0 points points-IsPoint)

send_dualenc-Stream_example :
    Stream true 0 points (send_dualenc session 0 (none ∷ some points ∷ [])).0
    × ((send_dualenc session 0 (none ∷ some points ∷ [])).1 ≡ returned tt)
send_dualenc-Stream_example =
    send_dualenc-Stream session session-IsSupported 0 (last_array points points-IsPoint)

exchange_example :
    diffie_hellman_flow toy
      (leader true).psi_in
      session
      (enc_sent toy peer (follower true).psi_in).0
      (dual_sent toy peer (enc_sent toy session (leader true).psi_in).0).0
    ≡ returned (some ((1 ∷ [], 10) ∷ (3 ∷ [], 30) ∷ []))
unfolding contains
exchange_example =
    exchange toy toy-IsCurve session peer (leader true).psi_in (follower true).psi_in
      session-IsSupported peer-IsSupported refl refl apart

-- A request that asks for the result at another rank.
negotiate_handshake-eq_example :
    negotiate_handshake
      (λ xs. xs)
      (new_context 1 3 (pos 1) [])
      (5 ∷ [])
      (make_handshake_request (new_context 0 3 (negsuc 0) []))
    ≡ err syntax_error
unfolding make_handshake_request new_context unpack_proposals same_suit
negotiate_handshake-eq_example =
    negotiate_handshake-eq (λ xs. xs) walk-id-Walks 1 3 (pos 1) [] (5 ∷ [])
      (make_handshake_request (new_context 0 3 (negsuc 0) []))

shakehand_flow-eq_example :
    shakehand_flow
      (λ xs. xs)
      (new_context 0 3 (negsuc 0) [])
      (new_context 1 3 (negsuc 0) [])
      (7 ∷ [])
      (5 ∷ [])
    ≡ ok (session, peer)
shakehand_flow-eq_example =
    shakehand_flow-eq (λ xs. xs) walk-id-Walks 3 3 (negsuc 0) (negsuc 0) [] [] (7 ∷ []) (5 ∷ [])
