-- ===== src/Trainer/Connect.antt =====
-- train_or_eval of src/Trainer/fl_comm_libs/fl_estimator.py: the two parties connect, and then
-- train step by step. What the peer answers may change from call to call: a session counts its
-- calls, and each operation gives its status for the number of the call. Building the graph is left
-- out, and the sleep of five seconds between two attempts.
use n_mpc.Prelude.{
  ◌==◌, if◌then◌else◌, ℕ, zero, suc, ◌+◌, String, Bool, true, false, not, Option, none, some, List,
  [], ◌∷◌, str_eq,
}

-- target_connect_op, wait_peer_op and train_follow_op: the status at each call.
pub record Peer : Type 0 where
  pub connect : ℕ → ℕ
  pub wait_peer : ℕ → ℕ
  pub follow : ℕ → ℕ

-- `sess.run_step_fn` of an operation, and whether its status is 0.
abbrev pub run_op : (status : ℕ → ℕ) (calls : ℕ) → Bool × ℕ
run_op status calls = (status calls == 0, calls + 1)

-- `for _ in range(n)`, which ends with the first status 0.
unfoldable pub retry : (n : ℕ) (status : ℕ → ℕ) (calls : ℕ) → Bool × ℕ
retry zero status calls = (false, calls)
retry (suc n) status calls =
    let (more, calls') = retry n status (calls + 1) in
    if status calls == 0 then (true, calls + 1) else (more, calls')

module _ (peer : Peer) where
  abbrev pub try_connect : (calls : ℕ) → Bool × ℕ
  try_connect = run_op peer.connect

  abbrev pub wait_connect : (calls : ℕ) → Bool × ℕ
  wait_connect = retry 3 peer.wait_peer

  abbrev pub wait_train_ready : (calls : ℕ) → Bool × ℕ
  wait_train_ready = retry 3 peer.follow

  abbrev pub follow_ready : (role : String) (calls : ℕ) → Bool × ℕ
  follow_ready role calls = if str_eq role "follower" then wait_train_ready calls else (true, calls)

  -- One round of `while True`: whether it breaks, and the calls so far.
  unfoldable pub connect_round : (role : String) (calls : ℕ) → Bool × ℕ
  unfolding retry
  connect_round role calls =
      let (connected, calls₁) = try_connect calls in
      let (peer_connected, calls₂) = wait_connect calls₁ in
      if not connected
      then (false, calls₁)
      else if not peer_connected
      then (false, calls₂)
      else follow_ready role calls₂

  -- The rounds on fuel: the calls when the loop breaks.
  unfoldable pub connect_loop : (fuel : ℕ) (role : String) (calls : ℕ) → Option ℕ
  unfolding connect_round
  connect_loop zero role calls = none
  connect_loop (suc fuel) role calls =
      let (ready, calls') = connect_round role calls in
      let rest = connect_loop fuel role calls' in if ready then some calls' else rest

-- What a session runs.
pub data Mode : Type 0 where
  train eval : Mode

pub data Op : Type 0 where
  bridge_init channel_init train_start train_step eval_step train_commit : Op
  connect_at : (calls : ℕ) → Op

abbrev pub step_op : Mode → Op
step_op train = train_step
step_op eval = eval_step

-- `should_stop` of the session after so many steps of training; the answer is `run_steps` with the
-- operations that were run, or `none` where the fuel has not been enough.
module _ (should_stop : (steps : ℕ) → Bool) where
  unfoldable pub train_loop : (fuel : ℕ) → Mode → (run_steps steps : ℕ) → Option (ℕ × List Op)
  train_loop zero mode run_steps steps = none
  train_loop (suc fuel) mode run_steps steps =
      let rest = train_loop fuel mode (run_steps + 1) (steps + 1) in
      if should_stop steps then some (run_steps, []) else elim rest [
        | none ↦ none
        | some (n, ops) ↦ some (n, train_start ∷ step_op mode ∷ train_commit ∷ ops)
      ]

  -- `connect`: the initialisation and the connection, unless the session has stopped at once.
  unfoldable pub run_session : Peer → (fuel : ℕ) (role : String) → Mode → Option (ℕ × List Op)
  unfolding connect_loop train_loop
  run_session peer fuel role mode =
      let trained = train_loop fuel mode 1 0 in
      if should_stop 0 then trained else elim (connect_loop peer fuel role 0) [
        | none ↦ none
        | some calls ↦ elim trained [
          | none ↦ none
          | some (n, ops) ↦ some (n, bridge_init ∷ channel_init ∷ connect_at calls ∷ ops)
        ]
      ]
