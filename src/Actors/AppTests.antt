-- ===== src/Actors/AppTests.antt =====
-- A single file that is cut into three blocks, of which the first is empty.
use n_mpc.Prelude.{
  map, length-map, subst, ◌∙◌, ◌≡◌, refl, true, none, some, [], ◌∷◌, ℕ, arith, Bool, String, List,
  str_eq, pos, length, ◌%◌, suc, ap, ◌-◌,
}
use n_mpc.Prelude.Result.{Result, ok, err, value_error}
use n_mpc.Actors.Dispatch.{Counts, Work, Dispatcher, one_file}
use n_mpc.Actors.Paths.{Protocol, FileInfo, csv}
use n_mpc.Actors.Inputs.{Input, init_data, fresh_block}
use n_mpc.Actors.Schedule.{Done}
use n_mpc.Actors.Output.{Lines, path_format, output_single_output_file}
use n_mpc.Actors.App.{generate_result, prepare_dispatcher, run_app}
use n_mpc.Actors.Columns.{Cell, number, binary, Table, Hashing, by_name, big_endian}
use n_mpc.Actors.Reading.{hashed_id, hashed_mod_id}
use n_mpc.Psi.Cipher.{same_bytes}
use n_mpc.Actors.Columns.{field_index, add_hash_column}
use n_mpc.Actors.Repartition.{range_from, repartition_by_hash}
use n_mpc.Actors.Buckets.{SameRows, shared}
use n_mpc.Actors.Split.{
  AreSameBlocks, IsPartition, split_rows, row_bucket, same_hash, length-split_rows,
}
use n_mpc.Actors.Repartitioned.{repartition_by_hash-shared}
use n_mpc.Actors.Whole.{length-range_from, run_app-expected}

abbrev same : String → String
same s = s

abbrev is_csv : Protocol → String → Bool
is_csv protocol path = str_eq path "in.csv"

abbrev no_files : Protocol → Bool → String → List FileInfo
no_files protocol recursive path = []

-- A file with the identifiers 4, 5 and 7.
abbrev read_file : Protocol → String → Result Table
read_file protocol path = ok (record {
  column_names = "id" ∷ [];
  rows = (number (pos 4) ∷ []) ∷ (number (pos 5) ∷ []) ∷ (number (pos 7) ∷ []) ∷ [];
})

abbrev hashing : Hashing
hashing = record { utf8 = λ s. []; blake2b = λ b. b; pack_float = λ x. err value_error }

-- A sort by a column that is there; for any other key the first column is taken.
abbrev key_index : String → Table → ℕ
key_index key df = elim (field_index key df.column_names) [ ok k ↦ k | err _ ↦ 0 ]

abbrev split : String → List ℕ → Table → List Table
split key boundaries df =
    map (λ rows. record df { rows = rows }) (split_rows (key_index key df) boundaries df.rows)

split-length :
    (count : ℕ) (df : Table) → length (split hashed_mod_id (range_from 1 count) df) ≡ suc count
split-length count df =
    let boundaries = range_from 1 count in
    length-map (λ rows. record df { rows = rows })
      (split_rows (key_index hashed_mod_id df) boundaries df.rows)
    ∙ length-split_rows (key_index hashed_mod_id df) boundaries df.rows
    ∙ ap suc (length-range_from 1 count)

same_blocks :
    (df : Table) (blocks : List (List (List Cell)))
    → AreSameBlocks
        (map (λ (block : Table). block.rows) (map (λ rows. record df { rows = rows }) blocks))
        blocks
same_blocks df [] = tt
same_blocks df (block ∷ blocks) = (λ p. refl, same_blocks df blocks)

split-IsPartition : IsPartition split
split-IsPartition count df k positive e numbered =
    let key = hashed_mod_id in
    let boundaries = range_from 1 (count - 1) in
    let index : key_index key df ≡ k = ground (arith, e) in
    subst
      (λ i.
        AreSameBlocks (map (λ (block : Table). block.rows) (split key boundaries df))
          (split_rows i boundaries df.rows))
      index (same_blocks df (split_rows (key_index key df) boundaries df.rows))

abbrev row_of : ℕ → List Cell
row_of n = binary (big_endian 8 n) ∷ number (pos (n % 3)) ∷ number (pos n) ∷ []

abbrev block_of : List (List Cell) → Table
block_of rows = record { column_names = hashed_id ∷ hashed_mod_id ∷ "id" ∷ []; rows = rows }

abbrev rows : ℕ → Counts
rows n = record { rows = n; feature_values = n; null_values = 0 }

-- Block `i` has the line `i`.
abbrev do_action : ℕ → Work Table → Done Lines
do_action block_id work = record {
  block_data = some (block_id ∷ []);
  original = rows 5;
  joined = rows 1;
}

abbrev input : Input
input = record {
  is_single_file = true;
  data_paths = one_file "in.csv" ∷ [];
  data_format = csv;
  data_status = fresh_block ∷ fresh_block ∷ fresh_block ∷ [];
}

abbrev dispatcher : Dispatcher Table
dispatcher = record {
  data_status = fresh_block ∷ fresh_block ∷ fresh_block ∷ [];
  is_single_file = true;
  data_blocks =
      some (block_of [])
      ∷ some (block_of (row_of 4 ∷ row_of 7 ∷ []))
      ∷ some (block_of (row_of 5 ∷ []))
      ∷ [];
  data_paths = one_file "in.csv" ∷ [];
}

reads : init_data same same same is_csv no_files 3 none "in.csv" ≡ ok input
unfolding init_data
reads = refl

prepares :
    prepare_dispatcher do_action
      (7 ∷ [])
      true
      "out.csv"
      same
      same
      same
      is_csv
      no_files
      read_file
      hashing
      split
      (by_name "id")
      3
      "in.csv"
      input
    ≡ ok dispatcher
unfolding prepare_dispatcher field_index
prepares = refl

run_app-expected_example :
    run_app do_action
      (7 ∷ [])
      true
      "out.csv"
      same
      same
      same
      is_csv
      no_files
      read_file
      hashing
      split
      (by_name "id")
      3
      2
      (1 ∷ 1 ∷ 0 ∷ [])
      none
      "in.csv"
    ≡ ok (
        some (
          some (7 ∷ 0 ∷ 1 ∷ 2 ∷ []),
          record {
            local = 15;
            join = 3;
            percent = record { over = 3; under = 15 };
            output = "out.csv";
          },
        ))
unfolding output_single_output_file generate_result path_format
run_app-expected_example =
    run_app-expected do_action (7 ∷ []) true "out.csv" same same same is_csv no_files read_file
      hashing split (by_name "id") 3 2 (1 ∷ 1 ∷ 0 ∷ []) none "in.csv" input dispatcher reads
      prepares split-length (omega arith) (omega arith) (omega arith) (λ e i lt. (i ∷ [], refl))

-- The file, and another party's with the identifiers 7 and 8.
abbrev own_file : Table
own_file = record {
  column_names = "id" ∷ [];
  rows = (number (pos 4) ∷ []) ∷ (number (pos 5) ∷ []) ∷ (number (pos 7) ∷ []) ∷ [];
}

abbrev other_file : Table
other_file = record {
  column_names = "no" ∷ [];
  rows = (number (pos 7) ∷ []) ∷ (number (pos 8) ∷ []) ∷ [];
}

abbrev other_block : List (List Cell) → Table
other_block rows = record { column_names = hashed_id ∷ hashed_mod_id ∷ "no" ∷ []; rows = rows }

cut_own :
    repartition_by_hash read_file hashing split own_file "id" 3
    ≡ ok (block_of [] ∷ block_of (row_of 4 ∷ row_of 7 ∷ []) ∷ block_of (row_of 5 ∷ []) ∷ [])
unfolding repartition_by_hash field_index
cut_own = refl

cut_other :
    repartition_by_hash read_file hashing split other_file "no" 3
    ≡ ok (other_block [] ∷ other_block (row_of 7 ∷ []) ∷ other_block (row_of 8 ∷ []) ∷ [])
unfolding repartition_by_hash field_index
cut_other = refl

repartition_by_hash-shared_example :
    (a : Table) × (b : Table) × (add_hash_column hashing own_file hashed_id "id"
        (some hashed_mod_id)
        (some 3)
      ≡ ok a)
    × (add_hash_column hashing other_file hashed_id "no" (some hashed_mod_id) (some 3) ≡ ok b)
    × SameRows (row_of 7 ∷ []) (shared row_bucket same_hash a.rows b.rows)
unfolding field_index same_bytes
repartition_by_hash-shared_example =
    repartition_by_hash-shared split split-IsPartition read_file hashing 3 (omega arith) own_file
      other_file "id" "no"
      (block_of [] ∷ block_of (row_of 4 ∷ row_of 7 ∷ []) ∷ block_of (row_of 5 ∷ []) ∷ [])
      (other_block [] ∷ other_block (row_of 7 ∷ []) ∷ other_block (row_of 8 ∷ []) ∷ []) refl refl
      cut_own cut_other
