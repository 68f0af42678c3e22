-- ===== src/Actors/Paths.antt =====
-- The files of the input in src/PSI/psi_actors.py: the protocol and the format that a path shows,
-- the files of a directory, and the blocks they make.
use n_mpc.Prelude.{
  if◌then◌else◌, String, Bool, true, false, ◌||◌, ◌&&◌, List, [], ◌∷◌, map, str_eq, anyb, concat,
  leb, ◌-◌,
}
use n_mpc.Prelude.Text.{append}
use Prim.Native.String.{len, slice, compare}
use text.Mathlib.Text.{starts_with, is_lt}

pub data Protocol : Type 0 where
  http hdfs nfs : Protocol

unfoldable pub infer_protocol : (file_path : String) → Protocol
infer_protocol file_path =
    if starts_with file_path "https://" || starts_with file_path "http://"
    then http
    else if starts_with file_path "hdfs://"
    then hdfs
    else nfs

pub data Format : Type 0 where
  csv csv_gz gz_parquet parquet : Format

-- `str.endswith`
abbrev pub ends_with : (s suffix : String) → Bool
ends_with s suffix =
    leb (len suffix) (len s) && str_eq (slice s (len s - len suffix) (len s)) suffix

-- `lower` is str.lower.
unfoldable pub infer_format : (lower : String → String) → (file_path : String) → Format
infer_format lower file_path =
    let lower_base_path = lower file_path in
    if ends_with lower_base_path ".csv"
    then csv
    else if ends_with lower_base_path ".txt"
    then csv
    else if ends_with lower_base_path ".csv.gz"
    then csv_gz
    else if ends_with lower_base_path ".gz.parquet"
    then gz_parquet
    else if ends_with lower_base_path ".parquet"
    then parquet
    else csv

-- What pyarrow tells of a path.
pub record FileInfo : Type 0 where
  pub path : String
  pub is_file : Bool
  pub extension : String

-- An entry with whether it is a file.
abbrev pub Entry : Type 0
Entry = String × Bool

-- `list.sort` by a key, which is stable.
module _ {A : Type 0} (before : A → A → Bool) where
  abbrev pub insert_sorted : A → List A → List A
  insert_sorted x [] = x ∷ []
  insert_sorted x (y ∷ ys) = if before y x then y ∷ insert_sorted x ys else x ∷ y ∷ ys

  abbrev pub sort : List A → List A
  sort [] = []
  sort (x ∷ xs) = insert_sorted x (sort xs)

abbrev pub extensions : List String
extensions = "csv" ∷ "txt" ∷ "csv.gz" ∷ "parquet" ∷ "gz.parquet" ∷ []

abbrev pub text_lt : (s t : String) → Bool
text_lt s t = is_lt (compare s t)

-- What is kept of one entry.
unfoldable pub keep_entry : (prefix : String) (with_directory : Bool) → FileInfo → List Entry
keep_entry prefix with_directory info =
    if info.is_file
    then (if anyb (λ e. str_eq e info.extension) extensions
        then (append prefix info.path, true) ∷ []
        else [])
    else if with_directory
    then (append prefix info.path, false) ∷ []
    else []

-- `filter_data_paths`, the type with each path; callers that want no types drop them.
unfoldable pub filter_data_paths :
    (prefix : String) (file_infos : List FileInfo) (with_directory : Bool) → List Entry
unfolding keep_entry
filter_data_paths prefix file_infos with_directory =
    sort (λ d e. text_lt d.0 e.0) (concat (map (keep_entry prefix with_directory) file_infos))
