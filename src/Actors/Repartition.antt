-- ===== src/Actors/Repartition.antt =====
-- How src/PSI/psi_actors.py cuts a single file into blocks: a column with the remainder of each
-- hash, and Ray's sort by that column, with boundaries between the blocks.
use n_mpc.Prelude.{ℕ, zero, suc, ◌-◌, String, some, List, [], ◌∷◌}
use n_mpc.Prelude.Result.{Result, ok, err, value_error, ◌>>=◌}
use n_mpc.Actors.Paths.{Protocol, http, hdfs, nfs}
use n_mpc.Actors.Columns.{Table, ColumnKey, Hashing, get_actual_column_name, add_hash_column}
use n_mpc.Actors.Reading.{hashed_id, hashed_mod_id}

-- `list(range(start, start + count))`
abbrev pub range_from : (start count : ℕ) → List ℕ
range_from start zero = []
range_from start (suc count) = start ∷ range_from (suc start) count

-- What pyarrow reads of a path, and `repartition_by_key_value` with what follows it.
module _ (read : Protocol → String → Result Table) (h : Hashing)
    (repartition_by_key_value : (key : String) (boundaries : List ℕ) → Table → List Table) where
  unfoldable pub repartition_by_hash :
      Table → (example_id_name : String) (partition_num : ℕ) → Result (List Table)
  unfolding add_hash_column
  repartition_by_hash df example_id_name partition_num =
      add_hash_column h df hashed_id example_id_name (some hashed_mod_id) (some partition_num)
      >>= λ hashed.
          ok (repartition_by_key_value hashed_mod_id (range_from 1 (partition_num - 1)) hashed)

  unfoldable pub repartition_for_existed_data :
      Protocol → (file_path : String) → ColumnKey → (data_block_count : ℕ) → Result (List Table)
  unfolding repartition_by_hash get_actual_column_name
  repartition_for_existed_data http file_path example_id_name data_block_count = err value_error
  repartition_for_existed_data hdfs file_path example_id_name data_block_count =
      read hdfs file_path >>= λ df. get_actual_column_name df example_id_name 0 >>= λ name.
      repartition_by_hash df name data_block_count
  repartition_for_existed_data nfs file_path example_id_name data_block_count =
      read nfs file_path >>= λ df. get_actual_column_name df example_id_name 0 >>= λ name.
      repartition_by_hash df name data_block_count
