-- ===== src/DataJoin/Manager.antt =====
-- src/DataJoin/data_join/data_join_manager.py: the service that a party offers to the other. It
-- checks who calls, and hands the call to the consumer of its role. A message is its content:
-- serialisation and compression stand for themselves.
use n_mpc.Prelude.{
  ℕ, ℤ, pos, negsuc, pos_part, ◌==ℤ◌, Bool, false, not, Option, none, some, if◌then◌else◌, ltb_ℤ,
}
use n_mpc.Prelude.Result.{Result, ok, err, assertion_error, require, ◌>>=◌ as then_ok}
use n_mpc.Prelude.Method.{Method, pure, lift, ◌>>=◌, ◌>>◌}
use n_mpc.Prelude.Dict.{Dict}
use n_mpc.DataJoin.Records.{Item, DataBlockMeta, LiteExampleIds}
use n_mpc.DataJoin.Saver.{new_saver}
use n_mpc.DataJoin.ExampleIds.{
  Consumer, new_consumer, fetch_partition_id, partition_syncer_to_consumer,
  append_data_items_from_producer, finish_partition_transmit, reset_consumer_wrap,
}
use n_mpc.DataJoin.BlockConsumer.{
  BlockConsumer, fetch_wrap, sync_wrap, append_to_wrap, finish_wrap, reset_wrap,
}
use n_mpc.DataJoin.Files.{Names}
use n_mpc.DataJoin.BlockMaker.{Site}

-- `SyncContent`, of which one field is set at most.
pub data SyncContent : Type 0 where
  lite_example_ids : LiteExampleIds → SyncContent
  data_block_meta : DataBlockMeta → SyncContent
  no_content : SyncContent

abbrev pub ids_of : SyncContent → Option LiteExampleIds
ids_of (lite_example_ids ids) = some ids
ids_of (data_block_meta meta) = none
ids_of no_content = none

abbrev pub meta_of : SyncContent → Option DataBlockMeta
meta_of (lite_example_ids ids) = none
meta_of (data_block_meta meta) = some meta
meta_of no_content = none

-- What the service asks of its consumer, whose state is `S`.
pub record ConsumerProcess (S : Type 0) : Type 0 where
  pub fetch : Method S ℕ
  pub sync : ℕ → Method S (ℤ × Bool)
  pub append : SyncContent → Method S (Bool × ℤ)
  pub finish : ℕ → Method S Bool
  pub reset : ℕ → Method S (Unit {0})

-- The consumer of the follower, and that of the leader.
abbrev pub id_consumer : ConsumerProcess Consumer
id_consumer = record {
  fetch = fetch_partition_id;
  sync = partition_syncer_to_consumer;
  append = λ content. append_data_items_from_producer (ids_of content);
  finish = finish_partition_transmit;
  reset = reset_consumer_wrap;
}

abbrev pub block_consumer : ConsumerProcess BlockConsumer
block_consumer = record {
  fetch = fetch_wrap;
  sync = λ partition_id. do
    state ← sync_wrap partition_id
    pure (pos state.0, state.1);
  append = λ content. do
    answer ← append_to_wrap (meta_of content)
    pure (answer.0, pos answer.1);
  finish = finish_wrap;
  reset = reset_wrap;
}

-- A caller, and the service: its rank and its partition.
pub record Identity : Type 0 where
  pub rank_id : ℤ
  pub partition_id : ℤ

pub record StartResponse : Type 0 where
  pub code : ℤ
  pub next_index : ℤ
  pub finished : Bool

module _ {S : Type 0} (consumer : ConsumerProcess S) (own : Identity) where
  -- `rank_id_wrap` about `partition_id_wrap`.
  unfoldable pub check_identity : Identity → Method S (Unit {0})
  check_identity caller = do
    lift (require (own.rank_id ==ℤ caller.rank_id) assertion_error)
    lift (require (not (ltb_ℤ caller.partition_id (pos 0))) assertion_error)
    lift (require (own.partition_id ==ℤ caller.partition_id) assertion_error)

  unfoldable pub start_partition : Identity → Method S StartResponse
  unfolding check_identity
  start_partition caller = do
    check_identity caller
    partition_id ← consumer.fetch
    if caller.partition_id ==ℤ pos partition_id
        then (do
          state ← consumer.sync (pos_part caller.partition_id)
          pure (record { code = pos 0; next_index = state.0; finished = state.1 }))
        else pure (record { code = negsuc 1; next_index = pos 0; finished = false })

  unfoldable pub finish_partition : Identity → Method S Bool
  unfolding check_identity
  finish_partition caller = do
    check_identity caller
    partition_id ← consumer.fetch
    lift (require (pos partition_id ==ℤ caller.partition_id) assertion_error)
    finished ← consumer.finish (pos_part caller.partition_id)
    if finished then consumer.reset (pos_part caller.partition_id) else pure tt
    pure finished

  -- The answer is the code.
  unfoldable pub sync_partition : Identity → SyncContent → Method S ℤ
  unfolding check_identity
  sync_partition caller content = do
    check_identity caller
    answer ← consumer.append content
    pure (if answer.0 then pos 0 else negsuc 0)

-- The roles, and `_init_data_join_processor` as far as the consumer goes.
pub data Role : Type 0 where
  leader follower : Role
  another_role : ℕ → Role

pub data Processor : Type 0 where
  saves_blocks : BlockConsumer → Processor
  takes_ids : Consumer → Processor

unfoldable pub init_consumer :
    (names : Names) (item_dict : Dict Item) → Role → (partition_id : ℕ) → Site → Result Processor
unfolding new_saver
init_consumer names item_dict leader partition_id site =
    then_ok (new_saver names item_dict partition_id site) (λ saver. ok (saves_blocks (some saver)))
init_consumer names item_dict follower partition_id site =
    ok (takes_ids (new_consumer partition_id))
init_consumer names item_dict (another_role n) partition_id site = err assertion_error
