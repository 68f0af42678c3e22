-- ===== src/Actors/Ran.antt =====
-- `run_app` from the path of the input on.
use n_mpc.Prelude.{
  ℕ, zero, suc, ◌<◌, ◌≡◌, refl, ap, ◌∙◌, subst, Bool, true, Option, List, [], ◌∷◌, length,
  replicate, length-replicate, if◌then◌else◌, arith, All, String,
}
use n_mpc.Prelude.Result.{Result, ok, ◌>>=◌, bind-ok, ok_inj}
use n_mpc.Actors.Dispatch.{DataPath, one_file, file_list, is_init}
use n_mpc.Actors.Paths.{Protocol, http, hdfs, nfs, Format, FileInfo, insert_sorted, sort}
use n_mpc.Actors.Inputs.{
  Input, fresh_block, sort_paths, sort_if_files, first_format, input_of, path_lt, init_with_hdfs,
  init_with_locals, init_data_path_and_format, init_data, prepare_protocol, directory_paths,
}

module _ {A : Type 0} (before : A → A → Bool) where
  length-insert_sorted :
      (x : A) (xs : List A) → length (insert_sorted before x xs) ≡ suc (length xs)
  length-insert_sorted x [] = refl
  length-insert_sorted x (y ∷ ys) = ground (arith, length-insert_sorted x ys)

  length-sort : (xs : List A) → length (sort before xs) ≡ length xs
  length-sort [] = refl
  length-sort (x ∷ xs) = length-insert_sorted x (sort before xs) ∙ ap suc (length-sort xs)

length-sort_paths :
    (paths sorted : List DataPath) → sort_paths paths ≡ ok sorted → length sorted ≡ length paths
unfolding sort_paths
length-sort_paths paths sorted h = ground (arith, h, length-sort path_lt paths)

length-sort_if_files :
    (paths sorted : List DataPath) → sort_if_files paths ≡ ok sorted → length sorted ≡ length paths
unfolding sort_if_files
length-sort_if_files [] sorted h = ground (arith, h)
length-sort_if_files (one_file path ∷ paths) sorted h =
    length-sort_paths (one_file path ∷ paths) sorted h
length-sort_if_files (file_list files ∷ paths) sorted h = ground (arith, h)

All-replicate : (n : ℕ) → All (λ block. is_init block.status ≡ true) (replicate n fresh_block)
All-replicate zero = tt
All-replicate (suc n) = (refl, All-replicate n)

-- An input that can be worked on: no block is begun, and there is a path for each, but of a single
-- file as many blocks as were asked for.
pub record IsReady (data_block_count : ℕ) (input : Input) : Type 0 where
  pub fresh : All (λ block. is_init block.status ≡ true) input.data_status
  pub blocks :
      length input.data_status
      ≡ (if input.is_single_file then data_block_count else length input.data_paths)
  pub paths : 0 < length input.data_paths

module _ (lower : String → String) (url_net url_path : String → String)
    (is_file_path : Protocol → String → Bool)
    (list_files : Protocol → (recursive : Bool) → String → List FileInfo)
    (data_block_count : ℕ) where
  first_format-some :
      (paths : List DataPath) (format : Format)
      → first_format lower url_net url_path is_file_path list_files data_block_count paths
        ≡ ok format
      → 0 < length paths
  unfolding first_format
  first_format-some [] format h = absurd (cc)
  first_format-some (path ∷ paths) format h = omega arith

  input_of-IsReady :
      (single : Bool) (paths : List DataPath) (format : Format)
      → 0 < length paths
      → IsReady data_block_count (
          input_of lower url_net url_path is_file_path list_files data_block_count single paths
            format)
  input_of-IsReady single paths format some_paths = record {
    fresh = All-replicate (if single then data_block_count else length paths);
    blocks = length-replicate (if single then data_block_count else length paths) fresh_block;
    paths = some_paths;
  }

  -- The format, then the order, then the blocks.
  chain-IsReady :
      (single : Bool) (paths : List DataPath) (sorting : List DataPath → Result (List DataPath))
      → ((ps sorted : List DataPath) → sorting ps ≡ ok sorted → length sorted ≡ length ps)
      → (input : Input)
      → (first_format lower url_net url_path is_file_path list_files data_block_count paths
          >>= λ format. sorting paths >>= λ sorted. ok (
              input_of lower url_net url_path is_file_path list_files data_block_count single sorted
                format))
        ≡ ok input
      → IsReady data_block_count input
  chain-IsReady single paths sorting keeps input h =
      let next = λ (format : Format) (sorted : List DataPath).
        input_of lower url_net url_path is_file_path list_files data_block_count single sorted
          format in
      let (format, first, rest) =
        bind-ok (first_format lower url_net url_path is_file_path list_files data_block_count paths)
          (λ format. sorting paths >>= λ sorted. ok (next format sorted)) h in
      let (sorted, sorts, final) =
        bind-ok (sorting paths) (λ sorted. ok (next format sorted)) rest in
      subst (IsReady data_block_count) (ok_inj final) (
        input_of-IsReady single sorted format
          (omega (arith, first_format-some paths format first, keeps paths sorted sorts)))

  init_with_hdfs-IsReady :
      (path : String) (input : Input)
      → init_with_hdfs lower url_net url_path is_file_path list_files data_block_count path
        ≡ ok input
      → IsReady data_block_count input
  unfolding init_with_hdfs
  init_with_hdfs-IsReady path input h =
      let single = is_file_path hdfs (url_path path) in
      let paths =
        if single
        then one_file (url_path path) ∷ []
        else directory_paths lower url_net url_path is_file_path list_files data_block_count hdfs
            (url_net path) (url_path path) in
      chain-IsReady single paths sort_if_files length-sort_if_files input h

  init_with_locals-IsReady :
      (protocol : Protocol) (path : String) (input : Input)
      → init_with_locals lower url_net url_path is_file_path list_files data_block_count protocol
          path
        ≡ ok input
      → IsReady data_block_count input
  unfolding init_with_locals
  init_with_locals-IsReady protocol path input h =
      let single = is_file_path protocol path in
      let paths =
        if single
        then one_file path ∷ []
        else directory_paths lower url_net url_path is_file_path list_files data_block_count
            protocol "" path in
      chain-IsReady single paths sort_paths length-sort_paths input h

  init_data_path_and_format-IsReady :
      (protocol : Protocol) (path : String) (input : Input)
      → init_data_path_and_format lower url_net url_path is_file_path list_files data_block_count
          protocol path
        ≡ ok input
      → IsReady data_block_count input
  unfolding init_data_path_and_format
  init_data_path_and_format-IsReady hdfs path input h = init_with_hdfs-IsReady path input h
  init_data_path_and_format-IsReady http path input h = absurd (cc)
  init_data_path_and_format-IsReady nfs path input h = init_with_locals-IsReady nfs path input h

  pub init_data-IsReady :
      (data_protocol : Option String) (path : String) (input : Input)
      → init_data lower url_net url_path is_file_path list_files data_block_count data_protocol path
        ≡ ok input
      → IsReady data_block_count input
  unfolding init_data
  init_data-IsReady data_protocol path input h =
      let (protocol, _, rest) =
        bind-ok
          (prepare_protocol lower url_net url_path is_file_path list_files data_block_count
            data_protocol path)
          (λ protocol.
            init_data_path_and_format lower url_net url_path is_file_path list_files
              data_block_count protocol path)
          h in
      init_data_path_and_format-IsReady protocol path input rest
