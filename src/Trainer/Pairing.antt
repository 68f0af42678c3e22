-- ===== src/Trainer/Pairing.antt =====
-- src/Trainer/fl_comm_libs/fl_rpc_utils.py: a worker registers with the coordinator and asks for
-- its peer. The answers of the coordinator to the calls of each method are given in their order; a
-- loop that has used them up is still waiting. The sleep of ten seconds between two calls is left
-- out.
use n_mpc.Prelude.{
  ◌==◌, if◌then◌else◌, ℕ, String, Bool, true, false, Option, none, some, List, [], ◌∷◌, map,
}
use n_mpc.Prelude.Result.{Result, ok, err, ◌>>=◌, ◌>>◌}

-- What a call gives: a message, or an RpcError.
pub data Answer (A : Type 0) : Type 0 where
  answered : A → Answer A
  rpc_error : Answer A

-- An entry of the service map: the local and the remote uuid.
abbrev pub Pair : Type 0
Pair = String × String

pub record PairInfo : Type 0 where
  pub status : ℕ
  pub service_map : List Pair

-- The coordinator: the status of each call of RegisterUUID, the answer of each call of GetPairInfo.
pub record Stub : Type 0 where
  pub registered : List (Answer ℕ)
  pub pair_infos : List (Answer PairInfo)

unfoldable pub is_registered : Answer ℕ → Bool
is_registered (answered status) = status == 0
is_registered rpc_error = false

-- The pairs for a text where there are none; the loop over the service map ends after its first.
unfoldable pub uuid_pairs : Answer PairInfo → Bool × List Pair
uuid_pairs rpc_error = (false, [])
uuid_pairs (answered info) =
    if info.status == 0
    then (elim info.service_map [ [] ↦ (false, []) | pair ∷ _ ↦ (true, pair ∷ []) ])
    else (false, [])

-- `pxy_pb.Request()`, filled with the uuids and the address, and `grpc.insecure_channel`.
module _ (fill_request : List String → Option String → Result (Unit {0}))
    (insecure_channel : Option String → Result Stub) where
  unfoldable pub rpc_channel_uuid_register :
      (appli_uuid : List String) (ip_port : Option String) → Answer ℕ → Result Bool
  unfolding is_registered
  rpc_channel_uuid_register appli_uuid ip_port answer =
      fill_request appli_uuid ip_port >> ok (is_registered answer)

  unfoldable pub rpc_channel_uuid_getpairs :
      (appli_uuid : List String) (ip_port : Option String)
      → Answer PairInfo
      → Result (Bool × List Pair)
  unfolding uuid_pairs
  rpc_channel_uuid_getpairs appli_uuid ip_port answer =
      fill_request appli_uuid ip_port >> ok (uuid_pairs answer)

  -- The two loops; `none` while they wait.
  unfoldable pub wait_register :
      (appli_id : List String) (ip_port : Option String)
      → List (Answer ℕ)
      → Option (Result (Unit {0}))
  unfolding rpc_channel_uuid_register
  wait_register appli_id ip_port [] = none
  wait_register appli_id ip_port (answer ∷ later) =
      let rest = wait_register appli_id ip_port later in
      elim (rpc_channel_uuid_register appli_id ip_port answer) [
        | err e ↦ some (err e)
        | ok ret ↦ if ret then some (ok tt) else rest
      ]

  unfoldable pub wait_pairs :
      (appli_id : List String) (ip_port : Option String)
      → List (Answer PairInfo)
      → Option (Result (List Pair))
  unfolding rpc_channel_uuid_getpairs
  wait_pairs appli_id ip_port [] = none
  wait_pairs appli_id ip_port (answer ∷ later) =
      let rest = wait_pairs appli_id ip_port later in
      elim (rpc_channel_uuid_getpairs appli_id ip_port answer) [
        | err e ↦ some (err e)
        | ok ret ↦ if ret.0 then some (ok ret.1) else rest
      ]

  -- `[ruuid for luuid, ruuid in pairs]`
  abbrev pub remote_uuids : List Pair → List String
  remote_uuids = map (λ pair. pair.1)

  unfoldable pub prepare_with_stub :
      (appli_id : List String) (ip_port : Option String) → Stub → Option (Result (List String))
  unfolding wait_register wait_pairs
  prepare_with_stub appli_id ip_port stub = elim (wait_register appli_id ip_port stub.registered) [
    | none ↦ none
    | some r ↦ elim r [
      | err e ↦ some (err e)
      | ok _ ↦ elim (wait_pairs appli_id ip_port stub.pair_infos) [
        | none ↦ none
        | some found ↦ some (found >>= λ pairs. ok (remote_uuids pairs))
      ]
    ]
  ]

  unfoldable pub prepare_rpc_channel :
      (coordinator_addr : Option String) (appli_id : List String) (ipport : Option String)
      → Option (Result (List String))
  unfolding prepare_with_stub
  prepare_rpc_channel coordinator_addr appli_id ipport = elim (insecure_channel coordinator_addr) [
    | err e ↦ some (err e)
    | ok stub ↦ prepare_with_stub appli_id ipport stub
  ]
