-- ===== src/DataJoin/BlockConsumer.antt =====
-- DataBlockConsumer of src/DataJoin/data_join/data_block_consumer.py: the saver of the one
-- partition, or `None` once that partition was reset. What reads an attribute of it then raises an
-- AttributeError.
use n_mpc.Prelude.{ℕ, Bool, not, ◌||◌, Option, none, some, if◌then◌else◌}
use n_mpc.Prelude.Result.{err, runtime_error, assertion_error, attribute_error}
use n_mpc.Prelude.Method.{Method, pure, raise, gets, modify, ◌>>=◌, ◌>>◌}
use n_mpc.DataJoin.Records.{DataBlockMeta}
use n_mpc.DataJoin.Saver.{
  Saver, is_need_save, is_synced_partition, partition_syncer_to_consumer,
  append_data_items_from_producer, finish_partition_transmit,
}

-- `data_block_consumer_wrap`
abbrev pub BlockConsumer : Type 0
BlockConsumer = Option Saver

unfoldable pub at_wrap : {A : Type 0} → Method Saver A → Method BlockConsumer A
at_wrap m none = (err attribute_error, none)
at_wrap m (some s) = let (r, s') = m s in (r, some s')

abbrev pub fetch_wrap : Method BlockConsumer ℕ
fetch_wrap = at_wrap (gets (λ s. s.partition_id))

abbrev pub sync_wrap : ℕ → Method BlockConsumer (ℕ × Bool)
sync_wrap partition_id = at_wrap (partition_syncer_to_consumer partition_id)

-- The content is looked at before the saver.
unfoldable pub append_to_wrap : Option DataBlockMeta → Method BlockConsumer (Bool × ℕ)
unfolding at_wrap
append_to_wrap none = raise assertion_error
append_to_wrap (some meta) = at_wrap (append_data_items_from_producer (some meta))

abbrev pub finish_wrap : ℕ → Method BlockConsumer Bool
finish_wrap partition_id = at_wrap (finish_partition_transmit partition_id)

-- `reset_consumer_wrap`
unfoldable pub reset_wrap : ℕ → Method BlockConsumer (Unit {0})
unfolding at_wrap
reset_wrap partition_id = do
  at_wrap (is_synced_partition partition_id)
  finished ← at_wrap (gets (λ s. s.send_data_block_meta_finish))
  waiting ← at_wrap (gets is_need_save)
  if not finished || waiting then raise runtime_error else pure tt
  modify (λ wrap. none)
