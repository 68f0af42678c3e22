-- ===== src/Actors/Action.antt =====
-- `PsiPirActor` of src/PSI/psi_actors.py: what an actor does with one block.
use n_mpc.Prelude.{
  is_nil, ℕ, zero, suc, ◌-◌, if◌then◌else◌, String, Bool, Option, none, some, List, [], ◌∷◌, ◌++◌,
}
use n_mpc.Prelude.Text.{append, number_text}
use n_mpc.Prelude.Result.{Result, ok, err, value_error, plain_exception, ◌>>=◌}
use n_mpc.Prelude.Method.{Method, pure, raise, lift, modify, ◌>>=◌ as ◌then_do◌, ◌>>◌ as ◌and_then◌}
use Prim.Native.String.{len}
use n_mpc.Psi.Flow.{Rows}
use n_mpc.Actors.Paths.{http, hdfs, nfs, infer_protocol}
use n_mpc.Actors.Dispatch.{Counts, BlockStatus, procssing, processed}
use n_mpc.Actors.Columns.{
  Cell, binary, Table, ColumnKey, Hashing, get_actual_column_name, drop_column,
}
use n_mpc.Actors.Reading.{
  hashed_id, BlockData, read_table, added_columns, prepare_columns, count_values,
}

-- A report to the dispatcher, and a file that was written.
pub record Report : Type 0 where
  pub block_id : ℕ
  pub status : BlockStatus
  pub original : Option Counts
  pub joined : Option Counts

pub record Effects : Type 0 where
  pub reports : List Report
  pub files : List (String × Table)

pub data JoinType : Type 0 where
  psi pir : JoinType

pub data RoleType : Type 0 where
  sender receiver : RoleType

pub record Actor : Type 0 where
  pub example_id_name : ColumnKey
  pub join_type : JoinType
  pub role : RoleType
  pub is_directory : Bool

unfoldable pub sync_block_status :
    ℕ
    → BlockStatus
    → (original_data_status joined_data_status : Option Counts) → Method Effects (Unit {0})
sync_block_status id status original joined = modify (λ (e : Effects). record e {
  reports =
      e.reports
      ++ (record { block_id = id; status = status; original = original; joined = joined } ∷ []);
})

-- `str(block_id).zfill(6)`
abbrev pub zeros : ℕ → String → String
zeros zero s = s
zeros (suc n) s = zeros n (append "0" s)

abbrev pub part_path : (base : String) (id : ℕ) (data_format : String) → String
part_path base id data_format =
    let digits = number_text id in
    append base (append "/part_" (append (zeros (6 - len digits) digits) (append "." data_format)))

-- The table without its hashes, in a file of a directory.
unfoldable pub write_block_data :
    (block_id : ℕ) (data_format : String) (block_data : Table) (output_base_path : String)
    → Method Effects (Unit {0})
unfolding drop_column infer_protocol
write_block_data id data_format block_data base =
    lift (drop_column hashed_id block_data) then_do λ df.
    let path = part_path base id data_format in
    elim (infer_protocol path) [
      | http ↦ raise value_error
      | hdfs ↦ modify (λ (e : Effects). record e { files = e.files ++ ((path, df) ∷ []) })
      | nfs ↦ modify (λ (e : Effects). record e { files = e.files ++ ((path, df) ∷ []) })
    ]

-- The batch that the intersection takes: column 0 has the identifiers, and where they are no bytes,
-- the crate raises a ValueError.
unfoldable pub psi_in : List (List Cell) → Result (Rows (List Cell))
psi_in [] = ok []
psi_in ((binary b ∷ row) ∷ rows) = psi_in rows >>= λ rest. ok ((b, row) ∷ rest)
psi_in (_ ∷ rows) = err value_error

abbrev pub psi_rows : Rows (List Cell) → List (List Cell)
psi_rows [] = []
psi_rows ((b, row) ∷ rows) = (binary b ∷ row) ∷ psi_rows rows

-- `psi_sender` or `psi_receiver` with the other side's answers.
abbrev pub Intersection : Type 0
Intersection = Rows (List Cell) → Result (Option (Rows (List Cell)))

abbrev pub with_rows : Table → List (List Cell) → Table
with_rows df rows = record df { rows = rows }

unfoldable pub do_psi : Intersection → Table → Result (Option Table)
unfolding psi_in
do_psi intersect block_data = psi_in block_data.rows >>= λ rows. intersect rows >>= λ out.
    (elim out [ none ↦ ok none | some kept ↦ ok (some (with_rows block_data (psi_rows kept))) ])

unfoldable pub do_pir : Table → Result (Option Table)
do_pir block_data = err plain_exception

abbrev pub or_empty : Table → Option Table → Table
or_empty df none = with_rows df []
or_empty df (some out) = out

module _ (read : String → Result Table) (h : Hashing) (actor : Actor) where
  -- `_read_block_data`
  unfoldable pub read_block_data : BlockData → Result (Table × String)
  unfolding read_table get_actual_column_name prepare_columns
  read_block_data block_data = read_table read block_data >>= λ df.
      get_actual_column_name df actor.example_id_name (added_columns block_data) >>= λ name.
      prepare_columns h name df >>= λ prepared. ok (prepared, name)

  -- The sender of a PIR does not send the identifiers.
  abbrev pub sent_columns : (name : String) → Table → Result Table
  sent_columns name df = elim actor.join_type [
    | psi ↦ ok df
    | pir ↦ elim actor.role [ sender ↦ drop_column name df | receiver ↦ ok df ]
  ]

  -- The batch: all rows, or where there are none the empty one, which has all columns.
  abbrev pub batch_in : (all sent : Table) → Table
  batch_in all sent = if is_nil sent.rows then with_rows all [] else sent

  abbrev pub join : Intersection → Table → Result (Option Table)
  join intersect df = elim actor.join_type [ psi ↦ do_psi intersect df | pir ↦ do_pir df ]

  -- The result on its way: written to a file of the directory, or kept for the single file.
  unfoldable pub hand_over :
      (block_id : ℕ) (data_format : String) (out : Table) (output_path : String)
      → Method Effects (Option Table)
  unfolding write_block_data drop_column
  hand_over id data_format out output_path =
      if actor.is_directory
      then (write_block_data id data_format out output_path and_then pure none)
      else (lift (drop_column hashed_id out) then_do λ kept. pure (some kept))

  unfoldable pub do_action :
      Intersection
      → (block_id : ℕ) (data_format : String) (block_data : BlockData) (output_path : String)
      → Method Effects (Option Table)
  do_action intersect id data_format block_data output_path =
      sync_block_status id procssing none none
      and_then (lift (read_block_data block_data) then_do λ input.
          lift (sent_columns input.1 input.0) then_do λ sent.
          lift (count_values sent (hashed_id ∷ input.1 ∷ [])) then_do λ original.
          lift (join intersect (batch_in input.0 sent)) then_do λ result.
          let out = or_empty input.0 result in
          lift (count_values out (hashed_id ∷ input.1 ∷ [])) then_do λ joined.
          hand_over id data_format out output_path then_do λ ref.
          sync_block_status id processed (some original) (some joined) and_then pure ref)
