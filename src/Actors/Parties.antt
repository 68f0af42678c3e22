-- ===== src/Actors/Parties.antt =====
-- Two actors of src/PSI/psi_actors.py, one at each party, with the same block: from their files to
-- their results.
use n_mpc.Prelude.{
  length, is_nil, ℕ, ◌≡◌, refl, ap, true, false, none, List, [], ◌∷◌, String, map, filterb,
}
use n_mpc.Prelude.Result.{Result, ok, err, runtime_error, ◌>>=◌, bind-ok}
use n_mpc.Psi.Session.{Bytes}
use n_mpc.Psi.Curve.{Primitives, IsCurve}
use n_mpc.Psi.Cipher.{Thread, returned, blocked, failed, contains}
use n_mpc.Psi.Flow.{Rows, column_zero}
use n_mpc.Psi.Accepted.{Walks}
use n_mpc.Psi.Api.{Call, run_psi}
use n_mpc.Psi.Joint.{NoCollision, run_psi-common}
use n_mpc.Actors.Columns.{
  Cell, binary, Table, Hashing, column, hash_type, get_hash, has_column_by_name,
  get_actual_column_name, prepend_cells, add_hash_column, add_mod_column,
}
use n_mpc.Actors.Reading.{hashed_id, hashed_mod_id, at_path, read_table, prepare_columns}
use n_mpc.Actors.Action.{
  part_path, Actor, psi, Effects, Intersection, psi_rows, read_block_data, do_action,
}
use n_mpc.Actors.Joined.{Writes, IsDone, Unique, hashed_table, do_action-joined}

-- What a call comes to. One that never returns counts as an error.
abbrev pub thread_value : {A : Type 0} → Thread A → Result A
thread_value (returned a) = ok a
thread_value blocked = err runtime_error
thread_value failed = err runtime_error

-- The names and the key that a party brings.
pub record Party : Type 0 where
  pub local_domain : String
  pub remote_domain : String
  pub key : Bytes

-- The arguments of `_do_psi`, with `send_back=True`.
abbrev pub call_of : Party → Rows (List Cell) → Call (List Cell)
call_of party rows = record {
  psi_in = rows;
  self_domain = party.local_domain;
  target_domain = party.remote_domain;
  send_back = true;
  key = party.key;
}

module _ (c : Primitives) (walk : List ℕ → List ℕ) (sender receiver : Party) where
  -- `psi_sender` against a receiver with these rows, and `psi_receiver` against such a sender.
  unfoldable pub psi_sender : (receiver_rows : Rows (List Cell)) → Intersection
  psi_sender receiver_rows rows =
      run_psi c walk (call_of sender rows) (call_of receiver receiver_rows) >>= λ r.
      thread_value r.0

  unfoldable pub psi_receiver : (sender_rows : Rows (List Cell)) → Intersection
  psi_receiver sender_rows rows =
      run_psi c walk (call_of sender sender_rows) (call_of receiver rows) >>= λ r. thread_value r.1

-- The rows of a file with their hashes.
abbrev pub hash_rows : List Bytes → List (List Cell) → Rows (List Cell)
hash_rows [] rows = []
hash_rows (b ∷ hashes) [] = []
hash_rows (b ∷ hashes) (row ∷ rows) = (b, row) ∷ hash_rows hashes rows

prepend_cells-hash_rows :
    (hashes : List Bytes) (rows : List (List Cell))
    → prepend_cells (map binary hashes) rows ≡ psi_rows (hash_rows hashes rows)
prepend_cells-hash_rows [] rows = refl
prepend_cells-hash_rows (b ∷ hashes) [] = refl
prepend_cells-hash_rows (b ∷ hashes) (row ∷ rows) =
    ap (λ rest. (binary b ∷ row) ∷ rest) (prepend_cells-hash_rows hashes rows)

-- A file with rows whose identifiers are in the column `name` and have these hashes.
pub record IsHashed (read : String → Result Table) (h : Hashing) (actor : Actor) (path : String)
    (df : Table) (name : String) (hashes : List Bytes) : Type 0 where
  pub is_read : read path ≡ ok df
  pub has_rows : is_nil df.rows ≡ false
  pub has_columns : is_nil df.column_names ≡ false
  pub no_hashed_id : has_column_by_name df hashed_id ≡ false
  pub no_hashed_mod_id : has_column_by_name df hashed_mod_id ≡ false
  pub is_named : get_actual_column_name df actor.example_id_name 0 ≡ ok name
  pub are_hashes :
      (column df name >>= λ ids. hash_type h ids >>= λ kind. get_hash h ids kind) ≡ ok hashes

module _ (read : String → Result Table) (h : Hashing) (actor : Actor) (path : String) (df : Table)
    (name : String) (hashes : List Bytes) (file : IsHashed read h actor path df name hashes) where
  add_hash_column-hashed :
      add_hash_column h df hashed_id name none none
      ≡ ok (hashed_table df.column_names (hash_rows hashes df.rows))
  unfolding add_hash_column add_mod_column
  add_hash_column-hashed =
      let ids =
        bind-ok (column df name) (λ ids. hash_type h ids >>= λ kind. get_hash h ids kind)
          file.are_hashes in
      let kind = bind-ok (hash_type h ids.0) (λ kind. get_hash h ids.0 kind) ids.2 in
      rw (ids.1) (
        rw (kind.1) (
          rw (kind.2) (
            ap (λ rows. ok (record { column_names = hashed_id ∷ df.column_names; rows = rows }))
              (prepend_cells-hash_rows hashes df.rows))))

  read_block_data-hashed :
      read_block_data read h actor (at_path path)
      ≡ ok (hashed_table df.column_names (hash_rows hashes df.rows), name)
  unfolding read_block_data read_table prepare_columns has_column_by_name
  read_block_data-hashed = rw file.is_read (
      rw file.is_named (
        rw (file.has_rows, file.has_columns)
          (rw file.no_hashed_id (rw add_hash_column-hashed (rw file.no_hashed_mod_id refl)))))

-- The rows of a file whose identifier has a hash in the other file.
abbrev pub shared_rows : (own other : Rows (List Cell)) → List (List Cell)
shared_rows own other = map (λ r. r.1) (filterb (λ r. contains (column_zero other) r.0) own)

module _ (c : Primitives) (laws : IsCurve c) (walk : List ℕ → List ℕ) (walks : Walks walk)
    (h : Hashing) (sender receiver : Party) where
  -- Two actors of a PSI, one at each party, that read a file each and write to no web address: if
  -- the two columns of identifiers can be hashed, each column name is unique, and the secrets cause
  -- no collision, each ends with the rows of its own file whose identifier has its hash in the
  -- other file, in their order and with the columns of the file. They are in a file of the
  -- directory, or go to the caller for a single output file. Each reports the begin, and the end
  -- with the number of rows of both.
  pub do_action-common :
      (read_a read_b : String → Result Table) (a b : Actor) (path_a path_b : String)
      (df_a df_b : Table) (name_a name_b : String) (hashes_a hashes_b : List Bytes) (id : ℕ)
      (data_format output_a output_b : String) (e_a e_b : Effects)
      → IsHashed read_a h a path_a df_a name_a hashes_a
      → IsHashed read_b h b path_b df_b name_b hashes_b
      → Unique (hashed_id ∷ df_a.column_names)
      → Unique (hashed_id ∷ df_b.column_names)
      → a.join_type ≡ psi
      → b.join_type ≡ psi
      → Writes read_a h a (part_path output_a id data_format)
      → Writes read_b h b (part_path output_b id data_format)
      → NoCollision c laws walk walks
          (call_of sender (hash_rows hashes_a df_a.rows))
          (call_of receiver (hash_rows hashes_b df_b.rows))
      → let own = hash_rows hashes_a df_a.rows in
        let other = hash_rows hashes_b df_b.rows in
        IsDone a.is_directory id
          (length own)
          (part_path output_a id data_format)
          (record { column_names = df_a.column_names; rows = shared_rows own other })
          e_a
          (do_action read_a h a
            (psi_sender c walk sender receiver other)
            id
            data_format
            (at_path path_a)
            output_a
            e_a)
        × IsDone b.is_directory id
            (length other)
            (part_path output_b id data_format)
            (record { column_names = df_b.column_names; rows = shared_rows other own })
            e_b
            (do_action read_b h b
              (psi_receiver c walk sender receiver own)
              id
              data_format
              (at_path path_b)
              output_b
              e_b)
  unfolding psi_sender psi_receiver
  do_action-common read_a read_b a b path_a path_b df_a df_b name_a name_b hashes_a hashes_b id fmt
        out_a out_b e_a e_b file_a file_b unique_a unique_b psi_a psi_b writes_a writes_b apart =
      let own = hash_rows hashes_a df_a.rows in
      let other = hash_rows hashes_b df_b.rows in
      let result =
        run_psi-common c laws walk walks (call_of sender own) (call_of receiver other) refl refl
          apart in
      (
        do_action-joined read_a h a (psi_sender c walk sender receiver other) id fmt
            (at_path path_a) out_a e_a name_a df_a.column_names own
            (filterb (λ r. contains (column_zero other) r.0) own) psi_a writes_a
            (read_block_data-hashed read_a h a path_a df_a name_a hashes_a file_a) unique_a
            (ap (λ r. r >>= λ t. thread_value t.0) result),
        do_action-joined read_b h b (psi_receiver c walk sender receiver own) id fmt
            (at_path path_b) out_b e_b name_b df_b.column_names other
            (filterb (λ r. contains (column_zero own) r.0) other) psi_b writes_b
            (read_block_data-hashed read_b h b path_b df_b name_b hashes_b file_b) unique_b
            (ap (λ r. r >>= λ t. thread_value t.1) result),
      )
