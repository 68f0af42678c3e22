-- ===== src/DataJoin/PipelineTests.antt =====
-- Two parties without blocks, with names as in DataJoin/Tests.
use n_mpc.Prelude.{◌+ℤ◌, length, ◌≡◌, refl, pos, negsuc, none, some, [], ◌∷◌, List, false, arith}
use n_mpc.Prelude.Dict.{Dict}
use n_mpc.DataJoin.Records.{Item, DataBlockMeta}
use n_mpc.DataJoin.BlockManager.{
  Manager, acquire_produced_data_block_number, rename_file, update_data_block_meta,
}
use n_mpc.DataJoin.BlockMaker.{Site, save, data_block_finalizer, is_data_block_exceed_threshold}
use n_mpc.DataJoin.Saved.{IsAtRest}
use n_mpc.DataJoin.ExampleIds.{new_consumer, send_example_id_processor}
use n_mpc.DataJoin.Joiner.{data_joiner_algo, Joiner}
use n_mpc.DataJoin.Saver.{Saver, data_block_consumer_processor}
use n_mpc.DataJoin.Stored.{AllStored, Saves, data_block_consumer_processor-stored}
use n_mpc.DataJoin.Joins.{rounds_of}
use n_mpc.DataJoin.Pipeline.{Aligned, IsNew, data_join-Aligned}
use n_mpc.DataJoin.Tests.{unary, names, names-AreApart, block, item}

abbrev empty_manager : Manager
empty_manager = record { files = []; buffer = []; saved = some (negsuc 0); saving = none }

empty-IsAtRest : IsAtRest names empty_manager 0
empty-IsAtRest = record { saved = refl; saving = refl; files = λ i. ground arith }

abbrev empty_site : Site
empty_site = record { manager = empty_manager; next_tmp = 0 }

abbrev joiner : Joiner
joiner = record {
  site = empty_site;
  maker = none;
  data_joiner_finished = false;
  last_finished = none;
  yielded = [];
}

abbrev saver : Saver
saver = record {
  site = empty_site;
  partition_id = 7;
  send_data_block_meta_finish = false;
  next_data_block_index = 0;
  data_block_meta_buffer = [];
  state_switch = false;
}

-- The joiner has the examples 4, 5 and 6, the saver sends 5, 9, 4 and 6, in this order.
abbrev joiner_dict : Dict Item
joiner_dict = (4, item 4 (pos 30)) ∷ (5, item 5 (pos 10)) ∷ (6, item 6 (pos 20)) ∷ []

abbrev items : List Item
items = item 5 (pos 1) ∷ item 9 (pos 2) ∷ item 4 (pos 3) ∷ item 6 (pos 4) ∷ []

abbrev saver_dict : Dict Item
saver_dict =
    (5, item 5 (pos 1)) ∷ (9, item 9 (pos 2)) ∷ (4, item 4 (pos 3)) ∷ (6, item 6 (pos 4)) ∷ []

new : IsNew names names 2 joiner_dict saver_dict items joiner saver (pos 2) (pos 0)
new = record {
  joining = record { rest = empty-IsAtRest; opened = refl };
  going = refl;
  none_yielded = refl;
  no_buffer = refl;
  saves = record { rest = empty-IsAtRest; waits = refl; numbered = tt; can = tt };
  next = refl;
  unfinished = refl;
}

two_blocks :
    length
      (data_joiner_algo names 7 2 joiner_dict
        (rounds_of (send_example_id_processor 7 items (new_consumer 7)).1.appender.queue)
        joiner).1.yielded
    ≡ 2
unfolding data_joiner_algo send_example_id_processor unary acquire_produced_data_block_number
    is_data_block_exceed_threshold save data_block_finalizer rename_file ◌+ℤ◌ update_data_block_meta
two_blocks = refl

data_join-Aligned_example :
    Aligned names names 2 joiner_dict saver_dict items joiner saver (pos 2) (pos 0) 3
data_join-Aligned_example =
    data_join-Aligned names names 2 joiner_dict saver_dict items joiner saver (pos 2) (pos 0) 3
      names-AreApart names-AreApart new
      (
        λ e. ground (arith, e),
        (λ e. ground (arith, e), (λ e. ground (arith, e), (λ e. ground (arith, e), tt))),
      )
      (omega (arith, two_blocks)) (omega (arith, two_blocks))

-- Two blocks that wait for the saver.
abbrev first : DataBlockMeta
first = record (block 0) { example_ids = 9 ∷ 4 ∷ [] }

abbrev second : DataBlockMeta
second = record (block 1) { example_ids = 6 ∷ [] }

abbrev told : Saver
told = record saver { data_block_meta_buffer = first ∷ second ∷ []; next_data_block_index = 2 }

told-Saves : Saves names saver_dict told 0 (first ∷ second ∷ [])
told-Saves = record {
  rest = empty-IsAtRest;
  waits = refl;
  numbered = (refl, (refl, tt));
  can = ((refl, omega arith, refl), ((refl, omega arith, refl), tt));
}

data_block_consumer_processor-stored_example :
    AllStored names saver_dict told 0
      (first ∷ second ∷ [])
      (data_block_consumer_processor names saver_dict 2 told)
data_block_consumer_processor-stored_example =
    data_block_consumer_processor-stored names saver_dict names-AreApart (first ∷ second ∷ []) 2
      told 0 told-Saves (omega arith)
