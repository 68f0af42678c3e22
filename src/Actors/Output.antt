-- ===== src/Actors/Output.antt =====
-- `output_single_output_file` of src/PSI/psi_actors.py: the results of the blocks, one after the
-- other, in one file, and `write_data_to_filesystem`. A file is its lines; a table is its lines
-- without the header. For parquet input the tables are joined and written at once.
use n_mpc.Prelude.{
  if◌then◌else◌, ◌==◌, ℕ, suc, Bool, true, false, ◌&&◌, not, Option, none, some, List, [], ◌∷◌,
  ◌++◌, concat, String,
}
use n_mpc.Prelude.Result.{Result, ok, err, type_error}
use n_mpc.Actors.Paths.{
  http, hdfs, nfs, Format, csv, csv_gz, gz_parquet, parquet, infer_protocol, infer_format,
}

abbrev pub Lines : Type 0
Lines = List ℕ

-- The file, if it is there.
abbrev pub OutputFile : Type 0
OutputFile = Option Lines

abbrev pub lines_of : OutputFile → Lines
lines_of none = []
lines_of (some lines) = lines

abbrev pub is_parquet : Format → Bool
is_parquet csv = false
is_parquet csv_gz = false
is_parquet gz_parquet = true
is_parquet parquet = true

-- The format that `write_data_to_filesystem` infers of the output path; of an hdfs path only the
-- part behind the host is looked at. `url_path` is the path of `urlparse`.
unfoldable pub path_format : (lower url_path : String → String) (output_dir : String) → Format
unfolding infer_protocol infer_format
path_format lower url_path output_dir = elim (infer_protocol output_dir) [
  | hdfs ↦ infer_format lower (url_path output_dir)
  | nfs ↦ infer_format lower output_dir
  | http ↦ infer_format lower output_dir
]

-- The lines of the header of all the tables.
module _ (header : Lines) where
  -- `csv.write_csv` to a stream that appends, or to a new one.
  abbrev pub write_csv : (append with_head : Bool) (table : Lines) → OutputFile → OutputFile
  write_csv append with_head table file =
      let written = if with_head then header ++ table else table in
      some (if append then lines_of file ++ written else written)

  -- `write_data_to_filesystem` to a path of a format: parquet replaces the file, holds its header
  -- in any case and is never appended to.
  unfoldable pub write_data_to_filesystem :
      (format : Format) (append with_head : Bool) (table : Lines) → OutputFile → OutputFile
  write_data_to_filesystem format append with_head table file =
      if is_parquet format then some (header ++ table) else write_csv append with_head table file

  -- The loop over the references, from the number `i` on; `none` is a block without data.
  unfoldable pub write_blocks :
      (format : Format) (with_head : Bool) (i : ℕ) (data_output_refs : List (Option Lines))
      → OutputFile
      → OutputFile
  unfolding write_data_to_filesystem
  write_blocks format with_head i [] file = file
  write_blocks format with_head i (none ∷ refs) file =
      write_blocks format with_head (suc i) refs file
  write_blocks format with_head i (some table ∷ refs) file =
      write_blocks format with_head (suc i) refs
        (write_data_to_filesystem format (not (i == 0)) ((i == 0) && with_head) table file)

  -- All tables, for pyarrow, which takes no `None` for one.
  unfoldable pub all_tables : List (Option Lines) → Result (List Lines)
  all_tables [] = ok []
  all_tables (none ∷ refs) = err type_error
  all_tables (some table ∷ refs) = elim (all_tables refs) [
    | err e ↦ err e
    | ok tables ↦ ok (table ∷ tables)
  ]

  -- The format of the input decides between one table and the loop, and that of the output path how
  -- each table is written.
  unfoldable pub output_single_output_file :
      (data_format format : Format) (with_head : Bool) (data_output_refs : List (Option Lines))
      → OutputFile
      → Result OutputFile
  unfolding write_blocks all_tables write_data_to_filesystem
  output_single_output_file data_format format with_head [] file = ok file
  output_single_output_file data_format format with_head (ref ∷ refs) file =
      if is_parquet data_format
      then (elim (all_tables (ref ∷ refs)) [
        | err e ↦ err e
        | ok tables ↦ ok (write_data_to_filesystem format false with_head (concat tables) file)
      ])
      else ok (write_blocks format with_head 0 (ref ∷ refs) file)
