-- ===== src/DataJoin/RawData.antt =====
-- src/DataJoin/data_join/raw_data_loader.py: the raw data of a party, in memory. A file is the list
-- of its items, as the iterator gives them.
use n_mpc.Prelude.{Bool, true, false, not, List, [], ◌∷◌, ◌==◌, if◌then◌else◌}
use n_mpc.Prelude.Result.{Result, ok, err, stop_iteration, assertion_error, require, ◌>>=◌, ◌>>◌}
use n_mpc.Prelude.Dict.{Dict, insert}
use n_mpc.DataJoin.Records.{Item, invalid_example_id}

-- `for item in raw_data_iter`, with the test of the loop, which is on the first item.
unfoldable pub load_items : Bool → List Item → Dict Item → Dict Item
load_items first_is_valid [] item_dict = item_dict
load_items first_is_valid (item ∷ rest) item_dict =
    load_items first_is_valid rest
      (if first_is_valid then insert item.example_id item item_dict else item_dict)

-- One file; `next` on an empty one raises StopIteration.
unfoldable pub load_file : List Item → Dict Item → Result (Dict Item)
unfolding load_items
load_file [] item_dict = err stop_iteration
load_file (first_item ∷ rest) item_dict =
    let valid = not (first_item.example_id == invalid_example_id) in
    ok (
      load_items valid rest
        (if valid then insert first_item.example_id first_item item_dict else item_dict))

unfoldable pub load_files : List (List Item) → Dict Item → Result (Dict Item)
unfolding load_file
load_files [] item_dict = ok item_dict
load_files (file ∷ files) item_dict = do loaded ← load_file file item_dict; load_files files loaded

-- `_load_raw_data_to_mem`
unfoldable pub load_raw_data_to_mem : List (List Item) → Result (Dict Item)
unfolding load_files
load_raw_data_to_mem all_files = do
  require (elim all_files [ [] ↦ false | _ ∷ _ ↦ true ]) assertion_error
  item_dict ← load_files all_files []
  require (elim item_dict [ [] ↦ false | _ ∷ _ ↦ true ]) assertion_error
  ok item_dict
