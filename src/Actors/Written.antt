-- ===== src/Actors/Written.antt =====
-- What the output file holds.
use n_mpc.Prelude.{
  if◌then◌else◌, ◌==◌, ℕ, suc, Bool, true, false, ◌&&◌, not, Option, none, some, List, [], ◌∷◌,
  ◌++◌, ◌≡◌, sym, ap, ◌∙◌, arith, append_assoc, append-nil, refl, inl, inr, Bool-cases,
  Option-cases,
}
use n_mpc.Prelude.Result.{Result, ok, err}
use n_mpc.Actors.Paths.{Format}
use n_mpc.Actors.Output.{
  Lines, OutputFile, lines_of, write_data_to_filesystem, write_blocks, is_parquet,
  output_single_output_file,
}

-- The lines of the blocks that have data.
abbrev pub data_lines : List (Option Lines) → Lines
data_lines [] = []
data_lines (none ∷ refs) = data_lines refs
data_lines (some table ∷ refs) = table ++ data_lines refs

-- The last of them.
abbrev pub last_data : List (Option Lines) → Option Lines
last_data [] = none
last_data (none ∷ refs) = last_data refs
last_data (some table ∷ refs) = elim (last_data refs) [
  | none ↦ some table
  | some later ↦ some later
]

module _ (header : Lines) where
  -- What a file of parquet holds in the end.
  abbrev pub replaced : List (Option Lines) → Lines → Lines
  replaced refs before = elim (last_data refs) [ none ↦ before | some table ↦ header ++ table ]

  write_blocks-replaced :
      (format : Format) (with_head : Bool) (i : ℕ) (refs : List (Option Lines)) (file : OutputFile)
      → is_parquet format ≡ true
      → lines_of (write_blocks header format with_head i refs file) ≡ replaced refs (lines_of file)
  unfolding write_blocks write_data_to_filesystem
  write_blocks-replaced format with_head i [] file h = refl
  write_blocks-replaced format with_head i (none ∷ refs) file h =
      write_blocks-replaced format with_head (suc i) refs file h
  write_blocks-replaced format with_head i (some table ∷ refs) file h =
      let written : write_data_to_filesystem header format (not (i == 0)) ((i == 0) && with_head)
            table file
          ≡ some (header ++ table) =
        ground (arith, h) in
      ap (λ f. lines_of (write_blocks header format with_head (suc i) refs f)) written
      ∙ write_blocks-replaced format with_head (suc i) refs (some (header ++ table)) h
      ∙ elim (Option-cases (last_data refs)) [
        | inl e ↦ ground (arith, e)
        | inr e ↦ ground (arith, e.1)
      ]

  -- Without data in block 0 nothing starts a new file.
  write_blocks-kept :
      (format : Format) (with_head : Bool) (i : ℕ) (refs : List (Option Lines)) (file : OutputFile)
      → is_parquet format ≡ false
      → lines_of (write_blocks header format with_head (suc i) refs file)
        ≡ lines_of file ++ data_lines refs
  unfolding write_blocks write_data_to_filesystem
  write_blocks-kept format with_head i [] file h = sym (append-nil (lines_of file))
  write_blocks-kept format with_head i (none ∷ refs) file h =
      write_blocks-kept format with_head (suc i) refs file h
  write_blocks-kept format with_head i (some table ∷ refs) file h =
      let written : write_data_to_filesystem header format (not (suc i == 0))
            ((suc i == 0) && with_head) table file
          ≡ some (lines_of file ++ table) =
        ground (arith, h) in
      ap (λ f. lines_of (write_blocks header format with_head (suc (suc i)) refs f)) written
      ∙ write_blocks-kept format with_head (suc i) refs (some (lines_of file ++ table)) h
      ∙ append_assoc (lines_of file) table (data_lines refs)

  -- The first block with the number 0.
  write_blocks-first :
      (format : Format) (with_head : Bool) (table : Lines) (refs : List (Option Lines))
      (file : OutputFile)
      → is_parquet format ≡ false
      → lines_of (write_blocks header format with_head 0 (some table ∷ refs) file)
        ≡ (if with_head then header else []) ++ table ++ data_lines refs
  unfolding write_blocks write_data_to_filesystem
  write_blocks-first format true table refs file h =
      rw h (write_blocks-kept format true 0 refs (some (header ++ table)) h)
  write_blocks-first format false table refs file h =
      rw h (write_blocks-kept format false 0 refs (some table) h)

  write_blocks-none :
      (format : Format) (with_head : Bool) (refs : List (Option Lines)) (file : OutputFile)
      → is_parquet format ≡ false
      → lines_of (write_blocks header format with_head 0 (none ∷ refs) file)
        ≡ lines_of file ++ data_lines refs
  unfolding write_blocks
  write_blocks-none format with_head refs file h = write_blocks-kept format with_head 0 refs file h

  -- The lines of the file that a result stands for.
  abbrev pub result_lines : Result OutputFile → Lines
  result_lines (ok file) = lines_of file
  result_lines (err e) = []

  result_lines-other :
      (data_format format : Format) (with_head : Bool) (ref : Option Lines)
      (refs : List (Option Lines)) (file : OutputFile)
      → is_parquet data_format ≡ false
      → result_lines
          (output_single_output_file header data_format format with_head (ref ∷ refs) file)
        ≡ lines_of (write_blocks header format with_head 0 (ref ∷ refs) file)
  unfolding output_single_output_file
  result_lines-other data_format format with_head ref refs file other = rw other refl

  -- For an input of another format than parquet. To a path of parquet each block replaces the one
  -- before, so that the file holds the last block that has data, with its header; if none has any,
  -- the file stays. To another path: where block 0 has data, the file holds the header, if it is to
  -- have one, and then the lines of all blocks in order, whatever was in it before; where block 0
  -- has none, the lines of the others come behind what was in the file before, without a header.
  pub output_single_output_file-lines :
      (data_format format : Format) (with_head : Bool) (table : Lines) (refs : List (Option Lines))
      (file : OutputFile)
      → is_parquet data_format ≡ false
      → (result_lines
            (output_single_output_file header data_format format with_head (some table ∷ refs) file)
          ≡ (if is_parquet format
              then replaced (some table ∷ refs) (lines_of file)
              else (if with_head then header else []) ++ table ++ data_lines refs))
        × (result_lines
              (output_single_output_file header data_format format with_head (none ∷ refs) file)
            ≡ (if is_parquet format
                then replaced refs (lines_of file)
                else lines_of file ++ data_lines refs))
  output_single_output_file-lines data_format format with_head table refs file other =
      let old = lines_of file in
      let fresh = (if with_head then header else []) ++ table ++ data_lines refs in
      let either = λ (l k : Lines) (b : Bool). if b then l else k in
      elim (Bool-cases (is_parquet format)) [
        | inl h ↦
            let all = replaced (some table ∷ refs) old in
            let later = replaced refs old in
            (
              result_lines-other data_format format with_head (some table) refs file other
                  ∙ write_blocks-replaced format with_head 0 (some table ∷ refs) file h
                  ∙ ap (either all fresh) (sym h),
              result_lines-other data_format format with_head none refs file other
                  ∙ write_blocks-replaced format with_head 0 (none ∷ refs) file h
                  ∙ ap (either later (old ++ data_lines refs)) (sym h),
            )
        | inr h ↦
            let all = replaced (some table ∷ refs) old in
            let later = replaced refs old in
            (
              result_lines-other data_format format with_head (some table) refs file other
                  ∙ write_blocks-first format with_head table refs file h
                  ∙ ap (either all fresh) (sym h),
              result_lines-other data_format format with_head none refs file other
                  ∙ write_blocks-none format with_head refs file h
                  ∙ ap (either later (old ++ data_lines refs)) (sym h),
            )
      ]
