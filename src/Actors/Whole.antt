-- ===== src/Actors/Whole.antt =====
-- `run_app` as a whole: from the path of the input to the output file and the report.
use n_mpc.Prelude.{
  refl, zero, suc, ◌-◌, ℕ, ◌<◌, ◌≤◌, ◌≡◌, ap, sym, ◌∙◌, subst, Bool, true, false, Option, none,
  some, List, [], map, length, length-map, ltb, if◌then◌else◌, arith, All, inl, inr, Bool-cases,
  Option-cases, String,
}
use n_mpc.Prelude.Result.{ok, ◌>>=◌, bind-ok, ok_inj, Result}
use n_mpc.Actors.Dispatch.{Dispatcher, Work, is_init, update_blocks}
use n_mpc.Actors.Dispatched.{supply}
use n_mpc.Actors.Paths.{Protocol, http, hdfs, nfs, FileInfo, infer_protocol}
use n_mpc.Actors.Columns.{Table, ColumnKey, Hashing, get_actual_column_name, add_hash_column}
use n_mpc.Actors.Reading.{hashed_id, hashed_mod_id}
use n_mpc.Actors.Repartition.{range_from, repartition_by_hash, repartition_for_existed_data}
use n_mpc.Actors.Inputs.{Input, init_data}
use n_mpc.Actors.Schedule.{Done}
use n_mpc.Actors.Output.{Lines, OutputFile, path_format}
use n_mpc.Actors.App.{
  num_rows, empty_slice, new_empty_block, add_schema_to_all_empty_blocks, prepare_dispatcher,
  run_app,
}
use n_mpc.Actors.Result.{output_of, expected, run_dispatched-expected}
use n_mpc.Actors.Ran.{IsReady, init_data-IsReady}

length-add_schema :
    (num_rows : Table → ℕ) (empty_slice : Table → Table) (blocks filled : List Table)
    → add_schema_to_all_empty_blocks num_rows empty_slice blocks ≡ ok filled
    → length filled ≡ length blocks
unfolding add_schema_to_all_empty_blocks
length-add_schema num_rows empty_slice blocks filled h =
    elim (Option-cases (new_empty_block num_rows empty_slice none blocks)) [
      | inl e ↦ absurd (ground (arith, h, e))
      | inr e ↦
          let same : map (λ block. if ltb 0 (num_rows block) then block else e.0) blocks ≡ filled =
            ground (arith, h, e.1) in
          sym (ap (λ l. length l) same)
          ∙ length-map (λ block. if ltb 0 (num_rows block) then block else e.0) blocks
    ]

pub length-range_from : (start count : ℕ) → length (range_from start count) ≡ count
length-range_from start zero = refl
length-range_from start (suc count) = ap suc (length-range_from (suc start) count)

repartition-read :
    (hashing : Hashing) (split : (key : String) (boundaries : List ℕ) → Table → List Table)
    (input : Result Table) (key : ColumnKey) (count : ℕ) (cut : List Table)
    → (input >>= λ df. get_actual_column_name df key 0 >>= λ name.
        add_hash_column hashing df hashed_id name (some hashed_mod_id) (some count) >>= λ hashed.
        ok (split hashed_mod_id (range_from 1 (count - 1)) hashed))
      ≡ ok cut
    → (df : Table) × (split hashed_mod_id (range_from 1 (count - 1)) df ≡ cut)
repartition-read hashing split input key count cut e =
    let boundaries = range_from 1 (count - 1) in
    let last = λ (hashed : Table). ok (split hashed_mod_id boundaries hashed) in
    let hash = λ (df : Table) (name : String).
      add_hash_column hashing df hashed_id name (some hashed_mod_id) (some count) in
    let (df, _, named) =
      bind-ok input (λ df. get_actual_column_name df key 0 >>= λ name. hash df name >>= last) e in
    let (name, _, hashes) =
      bind-ok (get_actual_column_name df key 0) (λ name. hash df name >>= last) named in
    let (hashed, _, final) = bind-ok (hash df name) last hashes in (hashed, ok_inj final)

-- The blocks that come of a file are Ray's of some table.
repartition-split :
    (read : Protocol → String → Result Table) (hashing : Hashing)
    (repartition_by_key_value : (key : String) (boundaries : List ℕ) → Table → List Table)
    (protocol : Protocol) (path : String) (example_id_name : ColumnKey) (count : ℕ)
    (cut : List Table)
    → repartition_for_existed_data read hashing repartition_by_key_value protocol path
        example_id_name count
      ≡ ok cut
    → (df : Table) × (repartition_by_key_value hashed_mod_id (range_from 1 (count - 1)) df ≡ cut)
unfolding repartition_for_existed_data repartition_by_hash
repartition-split read hashing split http path key count cut e = absurd (cc)
repartition-split read hashing split hdfs path key count cut e =
    repartition-read hashing split (read hdfs path) key count cut e
repartition-split read hashing split nfs path key count cut e =
    repartition-read hashing split (read nfs path) key count cut e

module _ (do_action : (block_id : ℕ) → Work Table → Done Lines) (header : Lines) (with_head : Bool)
    (output_dir : String) (lower : String → String) (url_net url_path : String → String)
    (is_file_path : Protocol → String → Bool)
    (list_files : Protocol → (recursive : Bool) → String → List FileInfo)
    (read : Protocol → String → Result Table) (hashing : Hashing)
    (repartition_by_key_value : (key : String) (boundaries : List ℕ) → Table → List Table)
    (example_id_name : ColumnKey) (bucket_num : ℕ) where
  -- What is known of a dispatcher with its data on.
  record IsFresh (d : Dispatcher Table) : Type 0 where
    ready : supply d ≡ length d.data_status
    blocks : All (λ block. is_init block.status ≡ true) d.data_status
    some_blocks : 0 < length d.data_status

  abbrev dispatcher_of : Input → Dispatcher Table
  dispatcher_of input = record {
    data_status = input.data_status;
    is_single_file = input.is_single_file;
    data_blocks = [];
    data_paths = input.data_paths;
  }

  single-IsFresh :
      (input : Input) (blocks : List Table)
      → IsReady bucket_num input
      → 0 < bucket_num
      → input.is_single_file ≡ true
      → length blocks ≡ bucket_num
      → IsFresh (update_blocks (map some blocks) (dispatcher_of input))
  unfolding update_blocks
  single-IsFresh input blocks h positive single size = record {
    ready = ground (arith, single, h.blocks, size, length-map {B = Option Table} some blocks);
    blocks = h.fresh;
    some_blocks = ground (arith, single, h.blocks, positive);
  }

  several-IsFresh :
      (input : Input)
      → IsReady bucket_num input
      → input.is_single_file ≡ false
      → IsFresh (dispatcher_of input)
  several-IsFresh input h several = record {
    ready = ground (arith, several, h.blocks);
    blocks = h.fresh;
    some_blocks = ground (arith, several, h.blocks, h.paths);
  }

  -- Of the boundaries 1, …, count Ray makes a block more than there are boundaries.
  abbrev pub IsSplit : Type 0
  IsSplit =
      (count : ℕ) (df : Table)
      → length (repartition_by_key_value hashed_mod_id (range_from 1 count) df) ≡ suc count

  length-cut :
      (protocol : Protocol) (path : String) (cut : List Table)
      → IsSplit
      → 0 < bucket_num
      → repartition_for_existed_data read hashing repartition_by_key_value protocol path
          example_id_name bucket_num
        ≡ ok cut
      → length cut ≡ bucket_num
  length-cut protocol path cut split positive e =
      let (df, after) =
        repartition-split read hashing repartition_by_key_value protocol path example_id_name
          bucket_num cut e in
      ap (λ l. length l) (sym after) ∙ split (bucket_num - 1) df ∙ omega (arith, positive)

  prepare_dispatcher-IsFresh :
      (path : String) (input : Input) (d : Dispatcher Table)
      → IsReady bucket_num input
      → 0 < bucket_num
      → IsSplit
      → prepare_dispatcher do_action header with_head output_dir lower url_net url_path is_file_path
          list_files read hashing repartition_by_key_value example_id_name bucket_num path input
        ≡ ok d
      → IsFresh d
  unfolding prepare_dispatcher
  prepare_dispatcher-IsFresh path input d h positive split e =
      elim (Bool-cases input.is_single_file) [
        | inl single ↦
            let cut_file =
              repartition_for_existed_data read hashing repartition_by_key_value
                (infer_protocol path) path example_id_name bucket_num in
            let put =
              λ (all : List Table). ok (update_blocks (map some all) (dispatcher_of input)) in
            let fill = λ (cut : List Table).
              add_schema_to_all_empty_blocks num_rows empty_slice cut >>= put in
            let filled : (cut_file >>= fill) ≡ ok d = ground (arith, e, single) in
            let (cut, cuts, rest) = bind-ok cut_file fill filled in
            let (all, adds, final) =
              bind-ok (add_schema_to_all_empty_blocks num_rows empty_slice cut) put rest in
            subst IsFresh (ok_inj final) (
              single-IsFresh input all h positive single (
                length-add_schema num_rows empty_slice cut all adds
                ∙ length-cut (infer_protocol path) path cut split positive cuts))
        | inr several ↦
            let same : ok (dispatcher_of input) ≡ ok d = ground (arith, e, several) in
            subst IsFresh (ok_inj same) (several-IsFresh input h several)
      ]

  -- For PSI, with jobs that end without an exception: where the input can be read, at least one
  -- block is asked for of a single file, the sort makes one block more than there are boundaries,
  -- and every block of a single file has data in the end, at least one actor and as many ends of
  -- jobs as there are blocks, in any order, give the file and the report that the blocks give in
  -- their own order, whatever the number of actors and the order of the ends.
  pub run_app-expected :
      (max_actors : ℕ) (turns : List ℕ) (file : OutputFile) (data_path : String) (input : Input)
      (d : Dispatcher Table)
      → init_data lower url_net url_path is_file_path list_files bucket_num none data_path
        ≡ ok input
      → prepare_dispatcher do_action header with_head output_dir lower url_net url_path is_file_path
          list_files read hashing repartition_by_key_value example_id_name bucket_num data_path
          input
        ≡ ok d
      → IsSplit
      → 0 < bucket_num
      → 0 < max_actors
      → length d.data_status ≤ length turns
      → (d.is_single_file ≡ true
          → (i : ℕ) → i < length d.data_status
          → (out : Lines) × (output_of do_action d i ≡ some out))
      → run_app do_action header with_head output_dir lower url_net url_path is_file_path list_files
          read hashing repartition_by_key_value example_id_name bucket_num max_actors turns file
          data_path
        ≡ (expected do_action header with_head output_dir
              (path_format lower url_path output_dir)
              input.data_format
              file
              d
            >>= λ results. ok (some results))
  unfolding run_app
  run_app-expected max_actors turns file data_path input d reads prepares split positive some_actors
        enough has_data =
      let h =
        init_data-IsReady lower url_net url_path is_file_path list_files bucket_num none data_path
          input reads in
      let fresh = prepare_dispatcher-IsFresh data_path input d h positive split prepares in
      rw (reads, prepares)
        (run_dispatched-expected do_action header with_head output_dir
          (path_format lower url_path output_dir) max_actors turns input.data_format file d
          fresh.ready fresh.blocks fresh.some_blocks some_actors enough has_data)
