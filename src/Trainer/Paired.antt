-- ===== src/Trainer/Paired.antt =====
-- The loops of a worker that looks for its peer come to an end.
use n_mpc.Prelude.{ℕ, String, false, Option, some, List, [], ◌∷◌, ◌++◌, ◌≡◌, refl, arith, All}
use n_mpc.Prelude.Result.{Result, ok}
use n_mpc.Trainer.Pairing.{
  Answer, answered, Pair, PairInfo, Stub, is_registered, uuid_pairs, wait_register, wait_pairs,
  prepare_with_stub, prepare_rpc_channel,
}

module _ (fill_request : List String → Option String → Result (Unit {0}))
    (insecure_channel : Option String → Result Stub) (appli_id : List String)
    (ip_port : Option String) (filled : fill_request appli_id ip_port ≡ ok tt) where
  wait_register-ends :
      (before after : List (Answer ℕ))
      → All (λ a. is_registered a ≡ false) before
      → wait_register fill_request insecure_channel appli_id ip_port (before ++ answered 0 ∷ after)
        ≡ some (ok tt)
  unfolding wait_register
  wait_register-ends [] after _ = ground (arith, filled)
  wait_register-ends (a ∷ before) after (h, hs) =
      ground (arith, filled, h, wait_register-ends before after hs)

  wait_pairs-ends :
      (before after : List (Answer PairInfo)) (pair : Pair) (more : List Pair)
      → All (λ a. (uuid_pairs a).0 ≡ false) before
      → wait_pairs fill_request insecure_channel appli_id ip_port
          (before ++ answered (record { status = 0; service_map = pair ∷ more }) ∷ after)
        ≡ some (ok (pair ∷ []))
  unfolding wait_pairs
  wait_pairs-ends [] after pair more _ = ground (arith, filled)
  wait_pairs-ends (a ∷ before) after pair more (h, hs) =
      ground (arith, filled, h, wait_pairs-ends before after pair more hs)

-- Where the request can be filled and the channel opens: if the coordinator answers some call of
-- each of the two methods with status 0, to GetPairInfo with at least one pair, and refuses the
-- calls before it, or fails on them, then prepare_rpc_channel ends, with the remote uuid of the
-- first such pair alone.
pub prepare_rpc_channel-ends :
    (fill_request : List String → Option String → Result (Unit {0}))
    (insecure_channel : Option String → Result Stub) (coordinator_addr : Option String)
    (appli_id : List String) (ipport : Option String) (refused after : List (Answer ℕ))
    (unpaired later : List (Answer PairInfo)) (pair : Pair) (more : List Pair)
    → fill_request appli_id ipport ≡ ok tt
    → insecure_channel coordinator_addr
      ≡ ok (record {
        registered = refused ++ answered 0 ∷ after;
        pair_infos =
            unpaired ++ answered (record { status = 0; service_map = pair ∷ more }) ∷ later;
      })
    → All (λ a. is_registered a ≡ false) refused
    → All (λ a. (uuid_pairs a).0 ≡ false) unpaired
    → prepare_rpc_channel fill_request insecure_channel coordinator_addr appli_id ipport
      ≡ some (ok (pair.1 ∷ []))
unfolding prepare_rpc_channel
prepare_rpc_channel-ends fill_request insecure_channel coordinator_addr appli_id ipport refused
      after unpaired later pair more filled opened h₁ h₂ =
    rw
      (
        prepare_rpc_channel,
        opened,
        prepare_with_stub,
        wait_register-ends fill_request insecure_channel appli_id ipport filled refused after h₁,
        wait_pairs-ends fill_request insecure_channel appli_id ipport filled unpaired later pair
            more h₂,
      )
      refl
