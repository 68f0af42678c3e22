-- ===== src/Actors/App.antt =====
-- `run_app` of src/PSI/psi_actors.py for PSI, from the input to the report, and what it uses beside
-- the jobs.
use n_mpc.Prelude.{
  ℕ, ◌==◌, ltb, if◌then◌else◌, String, Bool, true, false, ◌&&◌, Option, none, some, List, [], ◌∷◌,
  map, replicate, set, length,
}
use n_mpc.Prelude.Result.{Result, ok, err, plain_exception, name_error, ◌>>=◌}
use n_mpc.Actors.Dispatch.{
  Counts, Dispatcher, Work, get_results, update_blocks, get_data_block_count,
}
use n_mpc.Actors.Paths.{Protocol, Format, FileInfo, infer_protocol}
use n_mpc.Actors.Columns.{Table, ColumnKey, Hashing}
use n_mpc.Actors.Repartition.{repartition_for_existed_data}
use n_mpc.Actors.Inputs.{Input, init_data}
use n_mpc.Actors.Action.{JoinType, psi, pir}
use n_mpc.Actors.Schedule.{Done, Schedule, new_schedule, run_jobs}
use n_mpc.Actors.Output.{Lines, OutputFile, path_format, output_single_output_file}

-- A quotient of two numbers, as it stands.
pub record Quotient : Type 0 where
  pub over : ℕ
  pub under : ℕ

-- The entries of the result.
pub record AppResult : Type 0 where
  pub local : ℕ
  pub join : ℕ
  pub percent : Quotient
  pub output : String

abbrev pub percent_of : (joined local : ℕ) → Quotient
percent_of joined local =
    if local == 0 then record { over = 0; under = 1 } else record { over = joined; under = local }

-- For another join than PSI the role is read from a name that is not defined.
unfoldable pub generate_result :
    JoinType → (aggre_results : Counts × Counts) (output_dir : String) → Result AppResult
generate_result psi (local, joined) output_dir = ok (record {
  local = local.rows;
  join = joined.rows;
  percent = percent_of joined.rows local.rows;
  output = output_dir;
})
generate_result pir aggre_results output_dir = err name_error

-- The number of rows of a block, and its first zero rows.
module _ {Data : Type 0} (num_rows : Data → ℕ) (empty_slice : Data → Data) where
  -- The schema of the last block that has rows.
  unfoldable pub new_empty_block : (found : Option Data) → List Data → Option Data
  new_empty_block found [] = found
  new_empty_block found (block ∷ blocks) =
      new_empty_block (if ltb 0 (num_rows block) then some (empty_slice block) else found) blocks

  unfoldable pub add_schema_to_all_empty_blocks : List Data → Result (List Data)
  unfolding new_empty_block
  add_schema_to_all_empty_blocks blocks = elim (new_empty_block none blocks) [
    | none ↦ err plain_exception
    | some empty ↦ ok (map (λ block. if ltb 0 (num_rows block) then block else empty) blocks)
  ]

-- `data_output_refs[completed_block_id] = completed_block_data` for each result that has data.
unfoldable pub place_outputs :
    {Out : Type 0} → List (ℕ × Option Out) → List (Option Out) → List (Option Out)
place_outputs [] data_output_refs = data_output_refs
place_outputs ((block_id, none) ∷ completed) data_output_refs =
    place_outputs completed data_output_refs
place_outputs ((block_id, some out) ∷ completed) data_output_refs =
    place_outputs completed (set data_output_refs block_id (some out))

-- `completed_block_data` after the loop, whether there is any.
unfoldable pub last_has_data : {Out : Type 0} → (found : Bool) → List (ℕ × Option Out) → Bool
last_has_data found [] = found
last_has_data found ((block_id, none) ∷ completed) = last_has_data false completed
last_has_data found ((block_id, some out) ∷ completed) = last_has_data true completed

-- A run for PSI, whose jobs end without an exception; a job of PIR always raises one.
module _ {Data : Type 0} (do_action : (block_id : ℕ) → Work Data → Done Lines) (header : Lines)
    (with_head : Bool) (output_dir : String) (format : Format) where
  -- After the loop: the single output file, whose path shows `format`, and the report.
  unfoldable pub report_results :
      (is_single_file : Bool) (data_block_num : ℕ)
      → (data_format : Format) → OutputFile
      → Schedule Data Lines
      → Result (OutputFile × AppResult)
  unfolding place_outputs last_has_data output_single_output_file get_results generate_result
  report_results is_single_file data_block_num data_format file s =
      let refs = place_outputs s.completed (replicate data_block_num none) in
      (if is_single_file && last_has_data false s.completed
        then output_single_output_file header data_format format with_head refs file
        else ok file)
      >>= λ written. generate_result psi (get_results s.dispatcher) output_dir >>= λ result.
          ok (written, result)

  -- From the dispatcher with its data on; none while the loop has not come to its end.
  unfoldable pub run_dispatched :
      (max_actors : ℕ) (turns : List ℕ)
      → (data_format : Format) → OutputFile
      → Dispatcher Data
      → Result (Option (OutputFile × AppResult))
  unfolding run_jobs report_results get_data_block_count
  run_dispatched max_actors turns data_format file d =
      let (r, s) = run_jobs do_action max_actors turns (new_schedule do_action d) in
      r >>= λ ended.
      if ended
      then (report_results d.is_single_file (get_data_block_count d) data_format file s
          >>= λ results. ok (some results))
      else ok none

abbrev pub num_rows : Table → ℕ
num_rows df = length df.rows

abbrev pub empty_slice : Table → Table
empty_slice df = record df { rows = [] }

-- The input is cut as in Actors/Repartition.
module _ (do_action : (block_id : ℕ) → Work Table → Done Lines) (header : Lines) (with_head : Bool)
    (output_dir : String) (lower : String → String) (url_net url_path : String → String)
    (is_file_path : Protocol → String → Bool)
    (list_files : Protocol → (recursive : Bool) → String → List FileInfo)
    (read : Protocol → String → Result Table) (h : Hashing)
    (repartition_by_key_value : (key : String) (boundaries : List ℕ) → Table → List Table)
    (example_id_name : ColumnKey) (bucket_num : ℕ) where
  -- The dispatcher of an input, the blocks of a single file put in.
  unfoldable pub prepare_dispatcher : (data_path : String) → Input → Result (Dispatcher Table)
  unfolding add_schema_to_all_empty_blocks update_blocks repartition_for_existed_data infer_protocol
  prepare_dispatcher data_path input =
      let d : Dispatcher Table = record {
        data_status = input.data_status;
        is_single_file = input.is_single_file;
        data_blocks = [];
        data_paths = input.data_paths;
      } in
      if input.is_single_file
      then (repartition_for_existed_data read h repartition_by_key_value (infer_protocol data_path)
            data_path example_id_name bucket_num
          >>= λ cut. add_schema_to_all_empty_blocks num_rows empty_slice cut >>= λ data_blocks.
              ok (update_blocks (map some data_blocks) d))
      else ok d

  unfoldable pub run_app :
      (max_actors : ℕ) (turns : List ℕ)
      → OutputFile
      → (data_path : String) → Result (Option (OutputFile × AppResult))
  unfolding init_data prepare_dispatcher run_dispatched
  run_app max_actors turns file data_path =
      init_data lower url_net url_path is_file_path list_files bucket_num none data_path
      >>= λ input. prepare_dispatcher data_path input >>= λ d.
          run_dispatched do_action header with_head output_dir
            (path_format lower url_path output_dir) max_actors turns input.data_format file d
