-- ===== src/Actors/Tests.antt =====
-- A dispatcher of a single file with three blocks, of which the second is done.
use n_mpc.Prelude.{
  ltb, if◌then◌else◌, ◌≡◌, refl, true, none, some, [], ◌∷◌, ℕ, arith, Bool, String, false, List,
}
use n_mpc.Prelude.Result.{ok}
use n_mpc.Actors.Schedule.{Done, new_schedule, run_jobs}
use n_mpc.Actors.Paths.{Protocol, FileInfo, csv, filter_data_paths}
use n_mpc.Actors.Inputs.{init_data, fresh_block}
use n_mpc.Actors.Output.{output_single_output_file}
use n_mpc.Actors.Written.{result_lines, output_single_output_file-lines}
use n_mpc.Actors.Counting.{count}
use n_mpc.Actors.Scheduled.{done_ids}
use n_mpc.Actors.Started.{run_jobs-completed}
use n_mpc.Actors.Dispatch.{
  file_list, get_next_unprocessed_data_and_use, get_data_block_count, change_data_status, find_init,
  prepare, Counts, Work, Dispatcher, Block, init, processed, get_results,
}

abbrev new_block : Block
new_block = record { status = init; original = none; joined = none }

abbrev done_block : Block
done_block = record {
  status = processed;
  original = some (record { rows = 4; feature_values = 8; null_values = 1 });
  joined = some (record { rows = 3; feature_values = 6; null_values = 0 });
}

abbrev dispatcher : Dispatcher ℕ
dispatcher = record {
  data_status = new_block ∷ done_block ∷ new_block ∷ [];
  is_single_file = true;
  data_blocks = some 10 ∷ none ∷ some 30 ∷ [];
  data_paths = [];
}

get_results_sum : get_results dispatcher ≡ (
  record { rows = 4; feature_values = 8; null_values = 1 },
  record { rows = 3; feature_values = 6; null_values = 0 },
)
unfolding get_results
get_results_sum = refl

-- Three new blocks and two actors; the second job is done first each time.
abbrev fresh : Dispatcher ℕ
fresh = record {
  data_status = new_block ∷ new_block ∷ new_block ∷ [];
  is_single_file = true;
  data_blocks = some 10 ∷ some 20 ∷ some 30 ∷ [];
  data_paths = [];
}

abbrev no_counts : Counts
no_counts = record { rows = 0; feature_values = 0; null_values = 0 }

abbrev do_action : ℕ → Work ℕ → Done ℕ
do_action block_id work = record {
  block_data = some block_id;
  original = no_counts;
  joined = no_counts;
}

run_jobs-completed_example :
    ((run_jobs do_action 2 (1 ∷ 1 ∷ 0 ∷ []) (new_schedule do_action fresh)).0 ≡ ok true)
    × ((x : ℕ)
        → count x (
            done_ids
              (run_jobs do_action 2 (1 ∷ 1 ∷ 0 ∷ []) (new_schedule do_action fresh)).1.completed)
          ≡ (if ltb x 3 then 1 else 0))
run_jobs-completed_example =
    run_jobs-completed do_action 2 (1 ∷ 1 ∷ 0 ∷ []) fresh refl (refl, (refl, (refl, tt)))
      (omega arith) (omega arith) (omega arith)

order_of_jobs :
    done_ids (run_jobs do_action 2 (1 ∷ 1 ∷ 0 ∷ []) (new_schedule do_action fresh)).1.completed
    ≡ 1 ∷ 2 ∷ 0 ∷ []
unfolding run_jobs find_init prepare get_next_unprocessed_data_and_use get_data_block_count
    change_data_status
order_of_jobs = refl

-- Three blocks of which the second has no data, and an old file.
output_single_output_file-lines_example :
    (result_lines (1 ∷ []) (
        output_single_output_file
          (1 ∷ [])
          csv
          csv
          true
          (some (2 ∷ 3 ∷ []) ∷ none ∷ some (4 ∷ []) ∷ [])
          (some (9 ∷ [])))
      ≡ 1 ∷ 2 ∷ 3 ∷ 4 ∷ [])
    × (result_lines (1 ∷ []) (
          output_single_output_file
            (1 ∷ [])
            csv
            csv
            true
            (none ∷ none ∷ some (4 ∷ []) ∷ [])
            (some (9 ∷ [])))
        ≡ 9 ∷ 4 ∷ [])
output_single_output_file-lines_example =
    output_single_output_file-lines (1 ∷ []) csv csv true (2 ∷ 3 ∷ []) (none ∷ some (4 ∷ []) ∷ [])
      (some (9 ∷ [])) refl

-- A directory with a parquet file, a text that is not read, and a directory of two files.
abbrev info : String → Bool → String → FileInfo
info path is_file extension = record { path = path; is_file = is_file; extension = extension }

abbrev list_files : Protocol → Bool → String → List FileInfo
list_files protocol recursive path =
    if recursive
    then info "in/d/z.csv" true "csv" ∷ info "in/d/y.csv" true "csv" ∷ []
    else info "in/d" false "" ∷ info "in/b.log" true "log" ∷ []

input_of_directory :
    init_data (λ s. s) (λ s. s) (λ s. s) (λ protocol path. false) list_files 3 none "in"
    ≡ ok (record {
      is_single_file = false;
      data_paths = file_list ("/in/d/y.csv" ∷ "/in/d/z.csv" ∷ []) ∷ [];
      data_format = csv;
      data_status = fresh_block ∷ [];
    })
unfolding init_data filter_data_paths
input_of_directory = refl
