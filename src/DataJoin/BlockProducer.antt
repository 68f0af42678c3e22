-- ===== src/DataJoin/BlockProducer.antt =====
-- src/DataJoin/data_join/data_block_producer.py: the party that joins sends the meta data of its
-- blocks to the other, through the calls of data_join_manager.py. What is raised at the peer comes
-- to the caller as an RpcError. Serialisation and compression are left out.
use n_mpc.Prelude.{
  ℕ, zero, suc, ℤ, pos, ◌+ℤ◌, ◌==ℤ◌, ltb_ℤ, Bool, true, false, not, ◌||◌, Option, none, some,
  if◌then◌else◌,
}
use n_mpc.Prelude.Result.{Result, ok, err, runtime_error, assertion_error, rpc_error, require}
use n_mpc.Prelude.Method.{Method, pure, lift, gets, modify, ◌>>=◌, ◌>>◌}
use n_mpc.DataJoin.Records.{DataBlockMeta}
use n_mpc.DataJoin.Files.{Names}
use n_mpc.DataJoin.BlockManager.{Manager, acquire_data_block_meta_by_index}
use n_mpc.DataJoin.Manager.{
  data_block_meta, ConsumerProcess, Identity, start_partition, finish_partition, sync_partition,
}

-- `DataJoinerWrapper`, of whose joiner the manager and the flag are read, with the state `S` of the
-- peer's consumer.
pub record Sender (S : Type 0) : Type 0 where
  pub manager : Manager
  pub is_data_joiner_finished : Bool
  pub next_data_block_index : ℤ
  pub data_block_producer_finished : Bool
  pub peer : S

abbrev pub as_rpc : {A : Type 0} → Result A → Result A
as_rpc (ok a) = ok a
as_rpc (err _) = err rpc_error

module _ {S : Type 0} where
  abbrev pub call_peer : {A : Type 0} → Method S A → Method (Sender S) A
  call_peer m s = let (r, peer) = m s.peer in (as_rpc r, record s { peer = peer })

  abbrev pub at_manager : {A : Type 0} → Method Manager A → Method (Sender S) A
  at_manager m s = let (r, manager) = m s.manager in (r, record s { manager = manager })

-- The peer with its consumer, who it is, and who calls.
module _ (names : Names) {S : Type 0} (consumer : ConsumerProcess S) (peer own : Identity) where
  unfoldable pub get_next_data_block_meta : Method (Sender S) (Bool × Option DataBlockMeta)
  get_next_data_block_meta = do
    next ← gets (λ s. s.next_data_block_index)
    lift (require (not (ltb_ℤ next (pos 0))) assertion_error)
    finished ← gets (λ s. s.is_data_joiner_finished)
    meta ← at_manager (acquire_data_block_meta_by_index names next)
    pure (finished, meta)

  unfoldable pub send_data_block_meta_to_consumer : DataBlockMeta → Method (Sender S) (Unit {0})
  unfolding sync_partition
  send_data_block_meta_to_consumer meta = do
    code ← call_peer (sync_partition consumer peer own (data_block_meta meta))
    lift (require (code ==ℤ pos 0) runtime_error)

  unfoldable pub sync_data_block_meta_sender_status : Method (Sender S) (ℤ × Bool)
  unfolding start_partition
  sync_data_block_meta_sender_status = do
    response ← call_peer (start_partition consumer peer own)
    lift (require (response.code ==ℤ pos 0) runtime_error)
    pure (response.next_index, response.finished)

  -- The loop of `send_executor`, on fuel for its rounds: whether it came to its end.
  unfoldable pub send_loop : (fuel : ℕ) → Method (Sender S) Bool
  unfolding get_next_data_block_meta send_data_block_meta_to_consumer
  send_loop zero = pure false
  send_loop (suc fuel) = do
    finished ← gets (λ s. s.data_block_producer_finished)
    if finished then pure true else do
      next ← get_next_data_block_meta
      elim next.1 [
        | none ↦ pure true
        | some meta ↦ do
          send_data_block_meta_to_consumer meta
          modify (λ s. record s { next_data_block_index = s.next_data_block_index +ℤ pos 1 })
          send_loop fuel
      ]

  -- `send_executor`; `join_state` stays False.
  unfoldable pub send_executor : (fuel : ℕ) → Method (Sender S) (Option Bool)
  unfolding sync_data_block_meta_sender_status send_loop
  send_executor fuel = do
    status ← sync_data_block_meta_sender_status
    modify (λ s. record s {
      next_data_block_index = status.0;
      data_block_producer_finished = status.1;
    })
    ended ← send_loop fuel
    pure (if ended then some false else none)

  unfoldable pub notify_consumer_finish_send_meta : Method (Sender S) Bool
  unfolding finish_partition
  notify_consumer_finish_send_meta = do
    joined ← gets (λ s. s.is_data_joiner_finished)
    lift (require joined assertion_error)
    finished ← gets (λ s. s.data_block_producer_finished)
    if finished then pure tt else do
      answer ← call_peer (finish_partition consumer peer own)
      modify (λ s. record s { data_block_producer_finished = answer })
    gets (λ s. s.data_block_producer_finished)

  -- `_send_data_block_meta_processor`: whether the fuel was enough.
  unfoldable pub send_data_block_meta_processor : (fuel : ℕ) → Method (Sender S) Bool
  unfolding send_executor notify_consumer_finish_send_meta
  send_data_block_meta_processor fuel = do
    before ← gets (λ s. s.data_block_producer_finished)
    joined ← if before then pure (some false) else send_executor fuel
    after ← gets (λ s. s.data_block_producer_finished)
    elim joined [
      | none ↦ pure false
      | some joined_finished ↦
          if joined_finished || after
          then (do told ← notify_consumer_finish_send_meta; pure true)
          else pure true
    ]
