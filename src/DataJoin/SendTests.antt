-- ===== src/DataJoin/SendTests.antt =====
-- A party with one block, a saver that has none yet, and the service between them.
use n_mpc.Prelude.{
  ℕ, zero, suc, ◌<◌, inr, pos, ◌≡◌, refl, true, false, none, some, [], ◌∷◌, arith, inr,
}
use n_mpc.Prelude.Result.{ok, err, assertion_error, attribute_error}
use n_mpc.DataJoin.Saver.{Saver}
use n_mpc.DataJoin.Manager.{no_content, block_consumer, finish_partition}
use n_mpc.DataJoin.BlockProducer.{send_data_block_meta_processor}
use n_mpc.DataJoin.Produced.{identity, Sends, send_data_block_meta_processor-sent}
use n_mpc.DataJoin.Acquired.{IsKnown}
use n_mpc.DataJoin.Closed.{start, finish, sync, answers, finish_partition-closed}
use n_mpc.DataJoin.Tests.{unary, names, block, resting, resting-IsAtRest, site}

abbrev saver : Saver
saver = record {
  site = site;
  partition_id = 7;
  send_data_block_meta_finish = false;
  next_data_block_index = 0;
  data_block_meta_buffer = [];
  state_switch = false;
}

-- The manager has its block in a file only, as after a restart.
block_in_file : (i : ℕ) → i < 1 → IsKnown names 1 block resting 1 i
unfolding unary
block_in_file zero h = inr (refl, refl, omega arith)
block_in_file (suc i) h = absurd (omega arith)

send_data_block_meta_processor-sent_example :
    Sends names 1 block true saver resting true (block 0 ∷ []) (
      send_data_block_meta_processor names block_consumer
        (identity (pos 2) 7)
        (identity (pos 2) 7)
        2
        (record {
          manager = resting;
          is_data_joiner_finished = true;
          next_data_block_index = pos 5;
          data_block_producer_finished = false;
          peer = some saver;
        }))
send_data_block_meta_processor-sent_example =
    send_data_block_meta_processor-sent names 1 block true saver (pos 2) (λ k h. refl) (λ k h. refl)
      refl 1 resting [] 0 2 (pos 5)
      (record { rest = resting-IsAtRest; all = refl; known = λ i le h. block_in_file i h })
      (omega arith)

finish_partition-closed_example :
    (finish_partition block_consumer (identity (pos 2) 7) (identity (pos 2) 7) (some saver)
      ≡ (ok true, none))
    × (answers (pos 2) 7 (finish ∷ start ∷ sync no_content ∷ []) (some saver)
        ≡ ok tt ∷ err attribute_error ∷ err assertion_error ∷ [])
finish_partition-closed_example =
    finish_partition-closed (pos 2) 7 saver (start ∷ sync no_content ∷ []) refl refl
