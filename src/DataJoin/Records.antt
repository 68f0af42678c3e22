-- ===== src/DataJoin/Records.antt =====
-- The messages and items of the data join. Example ids are only compared, so a number stands for
-- one; 0 stands for `Invalid_ExampleId`. A record is opaque bytes.
use n_mpc.Prelude.{ℕ, ℤ, String, List, Bool, ◌^◌}

abbrev pub ExampleId : Type 0
ExampleId = ℕ

-- The constants of src/DataJoin/config.py.
abbrev pub invalid_example_id : ExampleId
invalid_example_id = 0

abbrev pub sync_example_id_nums : ℕ
sync_example_id_nums = 2048

abbrev pub removed_items_nums_from_buffer : ℕ
removed_items_nums_from_buffer = 1024

abbrev pub data_block_index_threshold : ℕ
data_block_index_threshold = 2 ^ 53

pub record DataBlockMeta : Type 0 where
  pub block_id : String
  pub partition_id : ℕ
  pub data_block_index : ℕ
  pub example_ids : List ExampleId
  pub start_time : ℤ
  pub end_time : ℤ
  pub follower_restart_index : ℕ

-- One example of the raw data.
pub record Item : Type 0 where
  pub example_id : ExampleId
  pub event_time : ℤ
  pub data_record : List ℕ

-- The message LiteExampleIds.
pub record LiteExampleIds : Type 0 where
  pub partition_id : ℕ
  pub begin_index : ℕ
  pub finished : Bool
  pub example_id : List ExampleId
  pub event_time : List ℤ
