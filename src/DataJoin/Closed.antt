-- ===== src/DataJoin/Closed.antt =====
-- The leader's consumer after its partition was finished.
use n_mpc.Prelude.{ℕ, ℤ, true, none, some, List, [], ◌∷◌, map, ◌≡◌, refl, arith, ap}
use n_mpc.Prelude.Result.{Result, ok, err, assertion_error, attribute_error}
use n_mpc.Prelude.Method.{Method}
use n_mpc.DataJoin.Saver.{Saver, is_synced_partition, finish_partition_transmit}
use n_mpc.DataJoin.BlockConsumer.{BlockConsumer, at_wrap, append_to_wrap, reset_wrap}
use n_mpc.DataJoin.Manager.{
  SyncContent, lite_example_ids, data_block_meta, no_content, Identity, block_consumer,
  start_partition, finish_partition, sync_partition,
}
use n_mpc.DataJoin.Produced.{identity}

-- The calls of the service.
pub data Call : Type 0 where
  start finish : Call
  sync : SyncContent → Call

-- An answer without its value.
abbrev pub outcome : {A : Type 0} → Result A → Result (Unit {0})
outcome (ok a) = ok tt
outcome (err e) = err e

-- What a consumer whose partition was reset answers.
abbrev pub refusal : Call → Result (Unit {0})
refusal start = err attribute_error
refusal finish = err attribute_error
refusal (sync (data_block_meta meta)) = err attribute_error
refusal (sync (lite_example_ids ids)) = err assertion_error
refusal (sync no_content) = err assertion_error

module _ (rank_id : ℤ) (p : ℕ) where
  abbrev caller : Identity
  caller = identity rank_id p

  -- One call of the caller.
  abbrev pub handle : Call → Method BlockConsumer (Unit {0})
  handle start wrap =
      let (r, after) = start_partition block_consumer caller caller wrap in (outcome r, after)
  handle finish wrap =
      let (r, after) = finish_partition block_consumer caller caller wrap in (outcome r, after)
  handle (sync content) wrap =
      let (r, after) = sync_partition block_consumer caller caller content wrap in
      (outcome r, after)

  -- The answers to calls one after the other.
  abbrev pub answers : List Call → BlockConsumer → List (Result (Unit {0}))
  answers [] wrap = []
  answers (call ∷ calls) wrap = let (r, after) = handle call wrap in r ∷ answers calls after

  handle-refusal : (call : Call) → handle call none ≡ (refusal call, none)
  unfolding start_partition finish_partition sync_partition at_wrap append_to_wrap
  handle-refusal start = ground arith
  handle-refusal finish = ground arith
  handle-refusal (sync (data_block_meta meta)) = ground arith
  handle-refusal (sync (lite_example_ids ids)) = ground arith
  handle-refusal (sync no_content) = ground arith

  finish-closes :
      (s : Saver)
      → s.partition_id ≡ p
      → s.data_block_meta_buffer ≡ []
      → finish_partition block_consumer caller caller (some s) ≡ (ok true, none)
  unfolding finish_partition at_wrap reset_wrap finish_partition_transmit is_synced_partition
  finish-closes s own empty = ground (arith, own, empty)

  answers-refusal : (calls : List Call) → answers calls none ≡ map refusal calls
  answers-refusal [] = refl
  answers-refusal (call ∷ calls) =
      rw (handle-refusal call) (ap (λ l. refusal call ∷ l) (answers-refusal calls))

  -- FinishPartition for a saver with nothing left to save answers that it has finished. Whatever
  -- calls the same caller makes after it, one after the other, not one is answered with a value:
  -- each call raises an AttributeError, but for a SyncPartition without the meta data of a block,
  -- which raises an AssertionError.
  pub finish_partition-closed :
      (s : Saver) (calls : List Call)
      → s.partition_id ≡ p
      → s.data_block_meta_buffer ≡ []
      → (finish_partition block_consumer caller caller (some s) ≡ (ok true, none))
        × (answers (finish ∷ calls) (some s) ≡ ok tt ∷ map refusal calls)
  finish_partition-closed s calls own empty =
      let closes = finish-closes s own empty in
      (closes, rw closes (ap (λ l. ok tt ∷ l) (answers-refusal calls)))
