-- ===== src/Actors/Reading.antt =====
-- How an actor of src/PSI/psi_actors.py reads a block: its table, the hashes in front, and the
-- counts.
use n_mpc.Prelude.{
  is_nil, ℕ, ◌+◌, if◌then◌else◌, String, Bool, true, false, ◌&&◌, ◌||◌, none, List, [], ◌∷◌, ◌++◌,
  str_eq, anyb, length,
}
use n_mpc.Prelude.Result.{Result, ok, err, value_error, name_error, ◌>>=◌}
use n_mpc.Actors.Dispatch.{Counts}
use n_mpc.Actors.Columns.{
  Cell, null, Table, Hashing, has_column_by_name, column, drop_column, add_hash_column,
}

-- `STATIC_HASHED_VALUE_COLUMN_NAMES` and `STATIC_HASHED_MOD_VALUE_COLUMN_NAMES`
abbrev pub hashed_id : String
hashed_id = "___hashed_id"

abbrev pub hashed_mod_id : String
hashed_mod_id = "___hashed_mod_id"

-- What an actor is given of a block: a path, the paths of a directory, or the table itself.
pub data BlockData : Type 0 where
  at_path : String → BlockData
  at_paths : List String → BlockData
  in_memory : Table → BlockData

abbrev pub same_names : (xs ys : List String) → Bool
same_names [] [] = true
same_names [] (y ∷ ys) = false
same_names (x ∷ xs) [] = false
same_names (x ∷ xs) (y ∷ ys) = str_eq x y && same_names xs ys

-- `pa.concat_tables`, which raises a subclass of ValueError where the columns differ.
unfoldable pub concat_tables : (first second : Table) → Result Table
concat_tables first second =
    if same_names first.column_names second.column_names
    then ok (record first { rows = first.rows ++ second.rows })
    else err value_error

-- What pyarrow reads of a path.
module _ (read : String → Result Table) where
  unfoldable pub read_more : Table → (paths : List String) → Result Table
  unfolding concat_tables
  read_more df [] = ok df
  read_more df (path ∷ paths) =
      read path >>= λ sub. concat_tables df sub >>= λ joined. read_more joined paths

  -- The table of a block. Without any path its variable has no value.
  unfoldable pub read_table : BlockData → Result Table
  unfolding read_more
  read_table (at_path path) = read path
  read_table (at_paths []) = err name_error
  read_table (at_paths (path ∷ paths)) = read path >>= λ df. read_more df paths
  read_table (in_memory df) = ok df

-- The columns that stand before those of the file.
abbrev pub added_columns : BlockData → ℕ
added_columns (at_path path) = 0
added_columns (at_paths paths) = 0
added_columns (in_memory df) = 2

-- The hash column put in front of a table with rows, and the remainders taken off.
unfoldable pub prepare_columns : Hashing → (real_example_name : String) → Table → Result Table
unfolding has_column_by_name add_hash_column drop_column
prepare_columns h name df =
    if is_nil df.rows || is_nil df.column_names
    then ok df
    else ((if has_column_by_name df hashed_id
          then ok df
          else add_hash_column h df hashed_id name none none)
        >>= λ hashed.
            (if has_column_by_name hashed hashed_mod_id
              then drop_column hashed_mod_id hashed
              else ok hashed))

-- `null_count`
abbrev pub nulls : List Cell → ℕ
nulls [] = 0
nulls (null ∷ cells) = nulls cells + 1
nulls (_ ∷ cells) = nulls cells

-- The values of the columns that are not left out.
unfoldable pub count_columns : Table → (excludes names : List String) → Counts → Result Counts
unfolding column
count_columns df excludes [] c = ok c
count_columns df excludes (name ∷ names) c =
    if anyb (λ e. str_eq name e) excludes
    then count_columns df excludes names c
    else (column df name >>= λ cells. count_columns df excludes names (record c {
      feature_values = c.feature_values + length df.rows;
      null_values = c.null_values + nulls cells;
    }))

unfoldable pub count_values : Table → (excludes : List String) → Result Counts
unfolding count_columns
count_values df excludes =
    count_columns df excludes df.column_names
      (record { rows = length df.rows; feature_values = 0; null_values = 0 })
