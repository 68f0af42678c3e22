-- ===== src/Actors/Dispatch.antt =====
-- `BlockDispatchActor` of src/PSI/psi_actors.py: which block is worked on next, and the counts of
-- the blocks. `Data` are the references to the blocks of a single file.
use n_mpc.Prelude.{
  ℕ, zero, suc, ◌+◌, ℤ, pos, negsuc, String, Bool, true, false, Option, none, some, List, [], ◌∷◌,
  length, get_elem?, set, ltb, if◌then◌else◌,
}
use n_mpc.Prelude.Result.{ok, err, index_error, value_error}
use n_mpc.Prelude.Method.{Method, pure, modify, ◌>>=◌, ◌>>◌}

pub data BlockStatus : Type 0 where
  init prepared procssing processed failed : BlockStatus

abbrev pub is_init : BlockStatus → Bool
is_init init = true
is_init prepared = false
is_init procssing = false
is_init processed = false
is_init failed = false

-- Rows, feature values and null values.
pub record Counts : Type 0 where
  pub rows : ℕ
  pub feature_values : ℕ
  pub null_values : ℕ

pub record Block : Type 0 where
  pub status : BlockStatus
  pub original : Option Counts
  pub joined : Option Counts

-- A block: a file, or all the files of a directory.
pub data DataPath : Type 0 where
  one_file : String → DataPath
  file_list : List String → DataPath

pub record Dispatcher (Data : Type 0) : Type 0 where
  pub data_status : List Block
  pub is_single_file : Bool
  pub data_blocks : List (Option Data)
  pub data_paths : List DataPath

-- What is to be worked on: the data of a block, or its paths.
pub data Work (Data : Type 0) : Type 0 where
  block_data : Option Data → Work Data
  block_path : DataPath → Work Data

-- The loop that looks for the first block that nobody has.
unfoldable pub find_init : List Block → Option ℕ
find_init [] = none
find_init (block ∷ rest) =
    let later = find_init rest in
    if is_init block.status then some 0 else (elim later [ none ↦ none | some i ↦ some (suc i) ])

-- `self.data_status[i] = (PREPARED, …)`
unfoldable pub prepare : ℕ → List Block → List Block
prepare i [] = []
prepare zero (block ∷ rest) = record block { status = prepared } ∷ rest
prepare (suc i) (block ∷ rest) = block ∷ prepare i rest

abbrev pub add_counts : Option Counts → Counts → Counts
add_counts none total = total
add_counts (some c) total = record {
  rows = total.rows + c.rows;
  feature_values = total.feature_values + c.feature_values;
  null_values = total.null_values + c.null_values;
}

unfoldable pub sum_results : List Block → Counts → Counts → Counts × Counts
sum_results [] original joined = (original, joined)
sum_results (block ∷ rest) original joined =
    sum_results rest (add_counts block.original original) (add_counts block.joined joined)

abbrev pub no_counts : Counts
no_counts = record { rows = 0; feature_values = 0; null_values = 0 }

module _ {Data : Type 0} where
  -- `get_results`
  unfoldable pub get_results : Dispatcher Data → Counts × Counts
  unfolding sum_results
  get_results d = sum_results d.data_status no_counts no_counts

  unfoldable pub update_blocks : List (Option Data) → Dispatcher Data → Dispatcher Data
  update_blocks data_blocks d = record d { data_blocks = data_blocks }

  unfoldable pub get_data_block_count : Dispatcher Data → ℕ
  get_data_block_count d = length d.data_status

  -- The work on block `i`; the reference to its data is given away.
  unfoldable pub hand_out : ℕ → Method (Dispatcher Data) (Work Data)
  hand_out i d =
      if d.is_single_file
      then (elim (get_elem? d.data_blocks i) [
        | none ↦ (err index_error, d)
        | some content ↦
            (ok (block_data content), record d { data_blocks = set d.data_blocks i none })
      ])
      else (elim (get_elem? d.data_paths i) [
        | none ↦ (err index_error, d)
        | some path ↦ (ok (block_path path), d)
      ])

  unfoldable pub get_next_unprocessed_data_and_use :
      Method (Dispatcher Data) (Option (ℕ × Work Data))
  unfolding hand_out
  get_next_unprocessed_data_and_use d = elim (find_init d.data_status) [
    | none ↦ (ok none, d)
    | some i ↦
        ((do
          modify (λ d. record d { data_status = prepare i d.data_status })
          work ← hand_out i
          pure (some (i, work)))
          d)
  ]

  unfoldable pub change_data_status :
      ℤ → BlockStatus → Option Counts → Option Counts → Method (Dispatcher Data) (Unit {0})
  change_data_status (negsuc k) status original joined d = (err value_error, d)
  change_data_status (pos block_id) status original joined d =
      if ltb block_id (length d.data_status)
      then (
        ok tt,
        record d {
          data_status =
              set d.data_status block_id
                (record { status = status; original = original; joined = joined });
        },
      )
      else (err value_error, d)
