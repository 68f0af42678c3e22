-- ===== src/Actors/Inputs.antt =====
-- The input of src/PSI/psi_actors.py: the blocks that a path stands for, in their order.
use n_mpc.Prelude.{
  if◌then◌else◌, ℕ, String, Bool, true, false, not, ◌&&◌, Option, none, some, List, [], ◌∷◌, map,
  str_eq, anyb, length, replicate,
}
use n_mpc.Prelude.Text.{append}
use n_mpc.Prelude.Result.{Result, ok, err, value_error, index_error, type_error, ◌>>=◌}
use n_mpc.Actors.Dispatch.{Block, init, DataPath, one_file, file_list}
use n_mpc.Actors.Paths.{
  Protocol, http, hdfs, nfs, Format, FileInfo, Entry, sort, text_lt, infer_protocol, infer_format,
  filter_data_paths,
}

abbrev pub list_lt : (s t : List String) → Bool
list_lt [] [] = false
list_lt [] (y ∷ ys) = true
list_lt (x ∷ xs) [] = false
list_lt (x ∷ xs) (y ∷ ys) =
    let rest = list_lt xs ys in if text_lt x y then true else if text_lt y x then false else rest

abbrev pub path_lt : DataPath → DataPath → Bool
path_lt (one_file s) (one_file t) = text_lt s t
path_lt (file_list s) (file_list t) = list_lt s t
path_lt (one_file s) (file_list t) = false
path_lt (file_list s) (one_file t) = false

abbrev pub is_one_file : DataPath → Bool
is_one_file (one_file s) = true
is_one_file (file_list s) = false

abbrev pub all_alike : List DataPath → Bool
all_alike [] = true
all_alike (p ∷ []) = true
all_alike (p ∷ q ∷ ps) =
    (if is_one_file p then is_one_file q else not (is_one_file q)) && all_alike (q ∷ ps)

-- `self.data_paths.sort()`: a path and a list do not compare.
unfoldable pub sort_paths : List DataPath → Result (List DataPath)
sort_paths paths = if all_alike paths then ok (sort path_lt paths) else err type_error

unfoldable pub sort_if_files : List DataPath → Result (List DataPath)
unfolding sort_paths
sort_if_files [] = ok []
sort_if_files (one_file path ∷ paths) = sort_paths (one_file path ∷ paths)
sort_if_files (file_list files ∷ paths) = ok (file_list files ∷ paths)

pub record Input : Type 0 where
  pub is_single_file : Bool
  pub data_paths : List DataPath
  pub data_format : Format
  pub data_status : List Block

-- `(BlockStatus.INIT, None, None)`
abbrev pub fresh_block : Block
fresh_block = record { status = init; original = none; joined = none }

-- `str.lower`, the parts of a URL by urlparse, and what pyarrow lists of a path: with or without
-- what is below its directories. `data_block_count` is that of a single file.
module _ (lower : String → String) (url_net url_path : String → String)
    (is_file_path : Protocol → String → Bool)
    (list_files : Protocol → (recursive : Bool) → String → List FileInfo)
    (data_block_count : ℕ) where
  -- `get_actual_data_files_from_hdfs` and `get_actual_data_files_from_file`
  unfoldable pub get_actual_data_files : Protocol → (abs_file_path : String) → List String
  unfolding filter_data_paths
  get_actual_data_files hdfs path =
      map (λ e. e.0)
        (filter_data_paths (append (url_net path) "/") (list_files hdfs true (url_path path)) false)
  get_actual_data_files http path =
      map (λ e. e.0) (filter_data_paths "/" (list_files http true path) false)
  get_actual_data_files nfs path =
      map (λ e. e.0) (filter_data_paths "/" (list_files nfs true path) false)

  unfoldable pub refetch_if_has_directory : Protocol → List Entry → List DataPath
  unfolding get_actual_data_files
  refetch_if_has_directory protocol [] = []
  refetch_if_has_directory protocol ((path, is_file) ∷ entries) =
      let rest = refetch_if_has_directory protocol entries in
      if is_file
      then one_file path ∷ rest
      else file_list (sort text_lt (get_actual_data_files protocol path)) ∷ rest

  -- The format of the first path.
  unfoldable pub first_format : List DataPath → Result Format
  unfolding infer_format
  first_format [] = err value_error
  first_format (one_file path ∷ _) = ok (infer_format lower path)
  first_format (file_list [] ∷ _) = err index_error
  first_format (file_list (path ∷ _) ∷ _) = ok (infer_format lower path)

  abbrev pub input_of : Bool → List DataPath → Format → Input
  input_of single paths format = record {
    is_single_file = single;
    data_paths = paths;
    data_format = format;
    data_status = replicate (if single then data_block_count else length paths) fresh_block;
  }

  abbrev pub directory_paths : Protocol → (prefix path : String) → List DataPath
  directory_paths protocol prefix path =
      refetch_if_has_directory protocol
        (filter_data_paths prefix (list_files protocol false path) true)

  -- `_init_data_path_and_format_with_hdfs` sorts only where the first is a single path, and before
  -- that has no other effect.
  unfoldable pub init_with_hdfs : (base_path : String) → Result Input
  unfolding refetch_if_has_directory first_format sort_if_files
  init_with_hdfs base_path =
      let path = url_path base_path in
      let single = is_file_path hdfs path in
      let paths =
        if single then one_file path ∷ [] else directory_paths hdfs (url_net base_path) path in
      first_format paths >>= λ format.
      sort_if_files paths >>= λ sorted. ok (input_of single sorted format)

  unfoldable pub init_with_locals : (protocol : Protocol) (base_path : String) → Result Input
  unfolding refetch_if_has_directory first_format sort_paths
  init_with_locals protocol base_path =
      let single = is_file_path protocol base_path in
      let paths =
        if single then one_file base_path ∷ [] else directory_paths protocol "" base_path in
      first_format paths >>= λ format.
      sort_paths paths >>= λ sorted. ok (input_of single sorted format)

  unfoldable pub init_data_path_and_format : Protocol → (base_path : String) → Result Input
  unfolding init_with_hdfs init_with_locals
  init_data_path_and_format hdfs base_path = init_with_hdfs base_path
  init_data_path_and_format http base_path = err value_error
  init_data_path_and_format nfs base_path = init_with_locals nfs base_path

  -- The names of the protocols.
  abbrev pub protocol_name : Protocol → String
  protocol_name http = "http"
  protocol_name hdfs = "hdfs"
  protocol_name nfs = "nfs"

  -- `_prepare_data_protocol_and_format`; an empty text counts as no protocol.
  unfoldable pub prepare_protocol :
      (data_protocol : Option String) (base_path : String) → Result Protocol
  unfolding infer_protocol
  prepare_protocol none base_path = ok (infer_protocol base_path)
  prepare_protocol (some name) base_path =
      let given = lower name in
      let found = infer_protocol base_path in
      if str_eq name ""
      then ok found
      else if not (anyb (λ p. str_eq p given) ("hdfs" ∷ "nfs" ∷ "http" ∷ []))
      then err value_error
      else if str_eq given (protocol_name found)
      then ok found
      else err value_error

  unfoldable pub init_data : (data_protocol : Option String) (base_path : String) → Result Input
  unfolding prepare_protocol init_data_path_and_format
  init_data data_protocol base_path = prepare_protocol data_protocol base_path >>= λ protocol.
      init_data_path_and_format protocol base_path
