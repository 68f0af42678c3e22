-- ===== src/DataJoin/JoinTests.antt =====
-- A joiner, a sender and a saver in the small directory of DataJoin/Tests.
use n_mpc.Prelude.{◌+ℤ◌, false, List, length, true, ◌≡◌, refl, pos, none, some, [], ◌∷◌, arith}
use n_mpc.Prelude.Dict.{Dict, lookup}
use n_mpc.Prelude.Result.{type_error, ok, err}
use n_mpc.DataJoin.Joiner.{data_joiner_algo, Joiner, join_message}
use n_mpc.DataJoin.Joining.{Outcome}
use n_mpc.DataJoin.Opened.{Joining}
use n_mpc.DataJoin.Messages.{join_message-Outcome}
use n_mpc.DataJoin.ExampleIds.{new_batch, new_consumer, send_example_id_processor}
use n_mpc.DataJoin.Delivery.{Batches, last_batch, send_example_id_processor-sent}
use n_mpc.DataJoin.Joins.{Joins, rounds_of, data_joiner_algo-Joins}
use n_mpc.DataJoin.Saver.{Saver, append_data_items_from_producer, save_data_block_with_meta}
use n_mpc.DataJoin.SavedBlocks.{save_data_block_with_meta-missing}
use n_mpc.DataJoin.Buffered.{IsConsecutive, append_data_items_from_producer-IsConsecutive}
use n_mpc.DataJoin.Records.{ExampleId, LiteExampleIds, Item, DataBlockMeta}
use n_mpc.DataJoin.RawData.{load_raw_data_to_mem}
use n_mpc.DataJoin.Loaded.{last_with, load_raw_data_to_mem-lookup}
use n_mpc.DataJoin.Tests.{names, names-AreApart, block, resting-IsAtRest, item, site}

-- Raw data with three examples, of which the message names two.
abbrev raw : Dict Item
raw = (4, item 4 (pos 30)) ∷ (5, item 5 (pos 10)) ∷ (6, item 6 (pos 20)) ∷ []

abbrev joiner : Joiner
joiner = record {
  site = site;
  maker = none;
  data_joiner_finished = false;
  last_finished = none;
  yielded = [];
}

joiner-Joining : Joining names 7 2 joiner 1 []
joiner-Joining = record { rest = resting-IsAtRest; opened = refl }

abbrev message : LiteExampleIds
message = record {
  partition_id = 7;
  begin_index = 0;
  finished = true;
  example_id = 5 ∷ 9 ∷ 4 ∷ [];
  event_time = pos 10 ∷ pos 0 ∷ pos 30 ∷ [];
}

join_message-Outcome_example :
    Outcome names 7 2 true joiner 1
      ((item 5 (pos 10) ∷ item 4 (pos 30) ∷ []) ∷ [])
      []
      (join_message names 7 2 raw message joiner)
join_message-Outcome_example =
    join_message-Outcome names names-AreApart 7 2 raw message joiner 1 [] joiner-Joining

-- The other party's examples, of which 9 is not in the raw data.
abbrev others : List Item
others = item 5 (pos 10) ∷ item 9 (pos 0) ∷ item 4 (pos 30) ∷ item 6 (pos 20) ∷ []

others-Batches : Batches 7 others (new_batch 7 true others ∷ [])
others-Batches = last_batch others

data_joiner_algo-Joins_example :
    Joins names names-AreApart 7 2 raw joiner 1
      (item 5 (pos 10) ∷ item 4 (pos 30) ∷ item 6 (pos 20) ∷ [])
      (data_joiner_algo names 7 2 raw (rounds_of (new_batch 7 true others ∷ [])) joiner)
data_joiner_algo-Joins_example =
    data_joiner_algo-Joins names names-AreApart 7 2 raw joiner 1 [] others-Batches joiner-Joining
      refl

send_example_id_processor-sent_example :
    let r = send_example_id_processor 7 others (new_consumer 7) in
    (r.0 ≡ ok false)
    × Batches 7 others r.1.appender.queue
    × (r.1.appender.send_example_finished ≡ true)
    × (r.1.appender.next_example_index +ℤ pos (length r.1.appender.queue) ≡ pos 4)
send_example_id_processor-sent_example = send_example_id_processor-sent 7 others

-- The meta data of block 1 as it comes from the other party, and a saver that has it.
abbrev named : DataBlockMeta
named = record (block 1) { example_ids = 6 ∷ 4 ∷ [] }

abbrev saver : Saver
saver = record {
  site = site;
  partition_id = 7;
  send_data_block_meta_finish = false;
  next_data_block_index = 2;
  data_block_meta_buffer = named ∷ [];
  state_switch = false;
}

abbrev unknown : DataBlockMeta
unknown = record (block 1) { example_ids = 6 ∷ 9 ∷ [] }

save_data_block_with_meta-missing_example :
    ((save_data_block_with_meta names raw unknown saver).0 ≡ err type_error)
    × ((save_data_block_with_meta names raw unknown saver).1.data_block_meta_buffer ≡ named ∷ [])
save_data_block_with_meta-missing_example =
    save_data_block_with_meta-missing names raw saver unknown refl (λ e. omega (arith, e))

saver-IsConsecutive : IsConsecutive saver 1
saver-IsConsecutive = record { numbered = (refl, tt); next = refl }

append_data_items_from_producer-IsConsecutive_example :
    IsConsecutive (append_data_items_from_producer (some (block 2)) saver).1 1
append_data_items_from_producer-IsConsecutive_example =
    append_data_items_from_producer-IsConsecutive saver 1 (some (block 2)) saver-IsConsecutive

-- Two files; the id 4 is in both.
abbrev first_file : List Item
first_file = item 5 (pos 10) ∷ item 0 (pos 0) ∷ []

abbrev second_file : List Item
second_file = item 4 (pos 7) ∷ []

load_raw_data_to_mem-lookup_example :
    (loaded : Dict Item) × (load_raw_data_to_mem ((item 4 (pos 30) ∷ first_file) ∷ second_file ∷ [])
      ≡ ok loaded)
    × ((id : ExampleId)
        → lookup id loaded
          ≡ last_with id
              (item 4 (pos 30) ∷ item 5 (pos 10) ∷ item 0 (pos 0) ∷ item 4 (pos 7) ∷ [])
              none)
load_raw_data_to_mem-lookup_example =
    load_raw_data_to_mem-lookup (item 4 (pos 30)) first_file (second_file ∷ []) (refl, (refl, tt))
