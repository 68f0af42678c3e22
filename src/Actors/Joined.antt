-- ===== src/Actors/Joined.antt =====
-- What an actor of src/PSI/psi_actors.py makes of a block whose intersection answers.
use n_mpc.Prelude.{
  suc, remove_at, ℕ, ◌+◌, String, true, some, List, [], ◌∷◌, map, length, anyb, str_eq, ◌≡◌, refl,
  ap, All, arith, inl, inr, Bool-cases, eq_iff, Option, ◌∙◌, ◌++◌, none, Bool, if◌then◌else◌, ◌⊎◌,
}
use n_mpc.Prelude.Result.{Result, ok}
use n_mpc.Prelude.Method.{bind-returned, pure, ◌>>◌ as ◌and_then◌}
use n_mpc.Psi.Flow.{Rows}
use n_mpc.Psi.Session.{Bytes}
use n_mpc.Actors.Dispatch.{Counts, procssing, processed}
use n_mpc.Actors.Columns.{Cell, Table, Hashing, field_index, column, cell_at, drop_column}
use n_mpc.Actors.Reading.{hashed_id, BlockData, nulls, count_columns, count_values}
use n_mpc.Actors.Paths.{Protocol, http, hdfs, nfs, infer_protocol}
use n_mpc.Actors.Action.{
  part_path, write_block_data, Effects, Actor, psi, Intersection, psi_in, psi_rows, do_psi,
  sync_block_status, read_block_data, batch_in, hand_over, do_action,
}

-- Each name stands for one column.
abbrev pub Unique : List String → Type 0
Unique names = All (λ n. (i : ℕ) × (field_index n names ≡ ok i)) names

-- Where every column can be read there are counts.
count_columns-ok :
    (df : Table) (excludes names : List String) (c : Counts)
    → All (λ n. (i : ℕ) × (field_index n df.column_names ≡ ok i)) names
    → (c' : Counts) × (count_columns df excludes names c ≡ ok c') × (c'.rows ≡ c.rows)
unfolding count_columns column
count_columns-ok df excludes [] c h = (c, refl, refl)
count_columns-ok df excludes (name ∷ names) c h =
    let more = record c {
      feature_values = c.feature_values + length df.rows;
      null_values = c.null_values + nulls (map (cell_at h.0.0) df.rows);
    } in
    let excluded = count_columns-ok df excludes names c h.1 in
    let counted = count_columns-ok df excludes names more h.1 in
    elim (Bool-cases (anyb (λ e. str_eq name e) excludes)) [
      | inl out ↦ (excluded.0, simp out excluded.1, excluded.2)
      | inr kept ↦ (counted.0, simp (kept, h.0.1) counted.1, counted.2)
    ]

pub count_values-ok :
    (df : Table) (excludes : List String)
    → Unique df.column_names
    → (c : Counts) × (count_values df excludes ≡ ok c) × (c.rows ≡ length df.rows)
unfolding count_values
count_values-ok df excludes unique = count_columns-ok df excludes df.column_names _ unique

same_name : (name : String) → str_eq name name ≡ true
same_name name = (eq_iff name name).1 refl

without-first : (kept : Rows (List Cell)) → map (remove_at 0) (psi_rows kept) ≡ map (λ r. r.1) kept
without-first [] = refl
without-first ((b, row) ∷ kept) = ap (λ rows. row ∷ rows) (without-first kept)

first_index :
    (name : String) (names : List String) (i : ℕ)
    → field_index name (name ∷ names) ≡ ok i
    → field_index name (name ∷ names) ≡ ok 0
unfolding field_index
first_index name names i h = ground (arith, same_name name)

-- The column in front is dropped where no other has its name.
drop_first :
    (name : String) (names : List String) (i : ℕ) (kept : Rows (List Cell))
    → field_index name (name ∷ names) ≡ ok i
    → drop_column name (record { column_names = name ∷ names; rows = psi_rows kept })
      ≡ ok (record { column_names = names; rows = map (λ r. r.1) kept })
unfolding drop_column
drop_first name names i kept h = simp (first_index name names i h, without-first kept)

-- What is kept of a table whose first column holds the hashes.
abbrev pub joined_table : List String → Rows (List Cell) → Table
joined_table names kept = record { column_names = names; rows = map (λ r. r.1) kept }

abbrev pub hashed_table : List String → Rows (List Cell) → Table
hashed_table names rows = record { column_names = hashed_id ∷ names; rows = psi_rows rows }

psi_in-psi_rows : (rows : Rows (List Cell)) → psi_in (psi_rows rows) ≡ ok rows
unfolding psi_in
psi_in-psi_rows [] = refl
psi_in-psi_rows ((b, row) ∷ rows) = simp (psi_in-psi_rows rows)

do_psi-answers :
    (intersect : Intersection) (names : List String) (rows kept : Rows (List Cell))
    → intersect rows ≡ ok (some kept)
    → do_psi intersect (hashed_table names rows) ≡ ok (some (hashed_table names kept))
unfolding do_psi
do_psi-answers intersect names rows kept h = simp (psi_in-psi_rows rows, h)

length-psi_rows : (rows : Rows (List Cell)) → length (psi_rows rows) ≡ length rows
length-psi_rows [] = refl
length-psi_rows (r ∷ rows) = ap suc (length-psi_rows rows)

length-without_hashes :
    (rows : Rows (List Cell)) → length rows ≡ length (map (λ (r : Bytes × List Cell). r.1) rows)
length-without_hashes [] = refl
length-without_hashes (r ∷ rows) = ap suc (length-without_hashes rows)

-- Where an actor leaves the table of a block: with the caller, or in a file of the directory.
abbrev pub kept_of : (is_directory : Bool) → Table → Option Table
kept_of is_directory out = if is_directory then none else some out

abbrev pub files_of :
    (is_directory : Bool) (path : String) → Table → List (String × Table) → List (String × Table)
files_of is_directory path out files = if is_directory then files ++ ((path, out) ∷ []) else files

-- The run of a block of `n` rows that comes to the table `out`, with two reports: one at the begin,
-- and one at the end, with the numbers of rows.
abbrev pub IsDone :
    (is_directory : Bool) (id n : ℕ) (path : String) (out : Table) (e : Effects)
    → Result (Option Table) × Effects
    → Type 0
IsDone is_directory id n path out e run =
    (original : Counts) × (joined : Counts) × (original.rows ≡ n)
    × (joined.rows ≡ length out.rows)
    × (run ≡ (
      ok (kept_of is_directory out),
      record e {
        reports =
            (e.reports
              ++ (record { block_id = id; status = procssing; original = none; joined = none }
                  ∷ []))
            ++ (record {
              block_id = id;
              status = processed;
              original = some original;
              joined = some joined;
            }
                ∷ []);
        files = files_of is_directory path out e.files;
      },
    ))

Protocol-cases : (p : Protocol) → (p ≡ http) ⊎ (p ≡ hdfs) ⊎ (p ≡ nfs)
Protocol-cases http = inl refl
Protocol-cases hdfs = inr (inl refl)
Protocol-cases nfs = inr (inr refl)

module _ (read : String → Result Table) (h : Hashing) (actor : Actor) where
  -- Where an actor of a directory writes to is no web address.
  abbrev pub Writes : (path : String) → Type 0
  Writes path = actor.is_directory ≡ true → ¬ (infer_protocol path ≡ http)

  hand_over-done :
      (id : ℕ) (data_format base : String) (e : Effects) (names : List String)
      (kept : Rows (List Cell))
      → Unique (hashed_id ∷ names)
      → Writes (part_path base id data_format)
      → hand_over read h actor id data_format (hashed_table names kept) base e ≡ (
        ok (kept_of actor.is_directory (joined_table names kept)),
        record e {
          files =
              files_of actor.is_directory
                (part_path base id data_format)
                (joined_table names kept)
                e.files;
        },
      )
  unfolding hand_over write_block_data
  hand_over-done id data_format base e names kept unique writes =
      let dropped = drop_first hashed_id names unique.0.0 kept unique.0.1 in
      elim (Bool-cases actor.is_directory) [
        | inr single ↦ rw single (rw dropped refl)
        | inl many ↦ elim (Protocol-cases (infer_protocol (part_path base id data_format))) [
          | inl web ↦ absurd (writes many web)
          | inr (inl remote) ↦ rw many (rw dropped (rw remote refl))
          | inr (inr local) ↦ rw many (rw dropped (rw local refl))
        ]
      ]

module _ (read : String → Result Table) (h : Hashing) (actor : Actor)
    (intersect : Intersection) where
  batch_in_self :
      (names : List String) (rows : Rows (List Cell))
      → batch_in read h actor (hashed_table names rows) (hashed_table names rows)
        ≡ hashed_table names rows
  batch_in_self names [] = refl
  batch_in_self names (r ∷ rows) = refl

  -- An actor whose block has the hashes in front under a name of their own: where the intersection
  -- answers with the rows `kept`, these come without their hashes to the caller or into the file of
  -- the directory, and the dispatcher is told of the begin, and of the end with the numbers of
  -- rows.
  pub do_action-joined :
      (id : ℕ) (data_format : String) (block : BlockData) (output_path : String) (e : Effects)
      (name : String) (names : List String) (rows kept : Rows (List Cell))
      → actor.join_type ≡ psi
      → Writes read h actor (part_path output_path id data_format)
      → read_block_data read h actor block ≡ ok (hashed_table names rows, name)
      → Unique (hashed_id ∷ names)
      → intersect rows ≡ ok (some kept)
      → IsDone actor.is_directory id
          (length rows)
          (part_path output_path id data_format)
          (joined_table names kept)
          e
          (do_action read h actor intersect id data_format block output_path e)
  unfolding do_action sync_block_status
  do_action-joined id data_format block output_path e name names rows kept is_psi writes is_read
        unique answers =
      let excludes = hashed_id ∷ name ∷ [] in
      let original = count_values-ok (hashed_table names rows) excludes unique in
      let joined = count_values-ok (hashed_table names kept) excludes unique in
      let batch = batch_in_self names rows in
      let result = do_psi-answers intersect names rows kept answers in
      (
        original.0,
        joined.0,
        original.2 ∙ length-psi_rows rows,
        joined.2 ∙ length-psi_rows kept ∙ length-without_hashes kept,
        rw is_read (
            rw is_psi (
              rw original.1 (
                rw batch (
                  rw result (
                    rw joined.1 (
                      bind-returned
                        (hand_over read h (record actor { join_type = psi }) id data_format
                          (hashed_table names kept) output_path)
                        (λ ref.
                          sync_block_status id processed (some original.0) (some joined.0)
                          and_then pure ref)
                        (hand_over-done read h (record actor { join_type = psi }) id data_format
                          output_path (sync_block_status id procssing none none e).1 names kept
                          unique writes))))))),
      )
