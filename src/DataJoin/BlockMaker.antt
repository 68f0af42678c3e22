-- ===== src/DataJoin/BlockMaker.antt =====
-- src/DataJoin/data_join/data_block_maker.py: one block under construction. The file that the
-- writer fills shows at its temporary path when it is closed; `uuid1` gives a new name at each
-- call. The report of a finished block over HTTP in mode "distribute" is left out.
use n_mpc.Prelude.{
  ℕ, zero, suc, ◌+◌, ℤ, pos, ltb_ℤ, String, Bool, true, false, Option, none, some, List, [], ◌∷◌,
  ◌++◌, length, leb, ltb, if◌then◌else◌, ◌==◌,
}
use n_mpc.Prelude.Result.{ok, assertion_error}
use n_mpc.Prelude.Method.{Method, pure, raise, gets, modify, ◌>>=◌, ◌>>◌}
use n_mpc.DataJoin.Records.{DataBlockMeta, ExampleId}
use n_mpc.DataJoin.Files.{Files, meta_content, records_content, Names, write_file, delete_file}
use n_mpc.DataJoin.BlockManager.{Manager, rename_file, update_data_block_meta}

pub record Maker : Type 0 where
  pub meta : DataBlockMeta
  pub managed : Bool
  pub saved_example_num : ℕ
  pub example_num_threshold : Option ℕ
  pub tmp_file : ℕ
  pub written : List (List ℕ)

-- Where a block is made: the manager with its directory, and the next temporary name.
pub record Site : Type 0 where
  pub manager : Manager
  pub next_tmp : ℕ

-- The meta data of a new block; the fields that `__init__` leaves alone have protobuf's defaults.
abbrev pub new_meta : ℕ → ℕ → DataBlockMeta
new_meta partition_id data_block_index = record {
  block_id = "";
  partition_id = partition_id;
  data_block_index = data_block_index;
  example_ids = [];
  start_time = pos 0;
  end_time = pos 0;
  follower_restart_index = 0;
}

-- `DataBlockMaker.__init__`
unfoldable pub new_maker : ℕ → ℕ → Option ℕ → Method Site Maker
new_maker partition_id data_block_index threshold s = (
  ok (record {
    meta = new_meta partition_id data_block_index;
    managed = false;
    saved_example_num = 0;
    example_num_threshold = threshold;
    tmp_file = s.next_tmp;
    written = [];
  }),
  record s { next_tmp = s.next_tmp + 1 },
)

unfoldable pub build_data_block_manager : Maker → Maker
build_data_block_manager maker = record maker { managed = true }

-- The times of a block after an example: the first sets both, each other one may widen the span.
unfoldable pub widen : ℕ → ℤ → DataBlockMeta → DataBlockMeta
widen zero event_time meta = record meta { start_time = event_time; end_time = event_time }
widen (suc n) event_time meta = record meta {
  start_time = if ltb_ℤ event_time meta.start_time then event_time else meta.start_time;
  end_time = if ltb_ℤ meta.end_time event_time then event_time else meta.end_time;
}

-- `DataBlockMaker.save`
unfoldable pub save : List ℕ → ExampleId → ℤ → Maker → Maker
unfolding widen
save data_record example_id event_time maker = record maker {
  written = maker.written ++ data_record ∷ [];
  meta =
      widen maker.saved_example_num event_time
        (record maker.meta { example_ids = maker.meta.example_ids ++ example_id ∷ [] });
  saved_example_num = maker.saved_example_num + 1;
}

unfoldable pub init_maker_by_input_meta : DataBlockMeta → Maker → Maker
init_maker_by_input_meta data_block_meta maker = record maker {
  example_num_threshold = none;
  meta = data_block_meta;
}

unfoldable pub set_restart_data_join_index : ℕ → Maker → Maker
set_restart_data_join_index restart_data_join_index maker = record maker {
  meta = record maker.meta { follower_restart_index = restart_data_join_index };
}

unfoldable pub is_data_block_exceed_threshold : Maker → Bool
is_data_block_exceed_threshold maker = elim maker.example_num_threshold [
  | none ↦ false
  | some threshold ↦ leb threshold (length maker.meta.example_ids)
]

unfoldable pub save_data_record : List ℕ → Maker → Maker
save_data_record data_record maker = record maker {
  written = maker.written ++ data_record ∷ [];
  saved_example_num = maker.saved_example_num + 1;
}

-- A method of the manager, called at the site.
abbrev pub at_manager : {A : Type 0} → Method Manager A → Method Site A
at_manager m s = let (r, manager) = m s.manager in (r, record s { manager = manager })

abbrev pub change_files : (Files → Files) → Method Site (Unit {0})
change_files f = modify (λ s. record s { manager = record s.manager { files = f s.manager.files } })

module _ (names : Names) where
  -- `_make_data_block_meta`
  unfoldable pub make_data_block_meta : Bool → DataBlockMeta → Method Site String
  make_data_block_meta managed meta = do
    t ← gets (λ s. s.next_tmp)
    modify (λ s. record s { next_tmp = s.next_tmp + 1 })
    change_files (write_file (names.tmp_path t) (meta_content meta))
    if managed then at_manager (update_data_block_meta names (names.tmp_path t) meta) else do
      at_manager
          (rename_file names (names.tmp_path t) (names.meta_path meta.data_block_index) false)
      pure (names.meta_path meta.data_block_index)

  -- `data_block_finalizer`: the meta data of the finished block, none of an empty one.
  unfoldable pub data_block_finalizer : Maker → Method Site (Option DataBlockMeta)
  unfolding make_data_block_meta
  data_block_finalizer maker = do
    if maker.saved_example_num == length maker.meta.example_ids
        then pure tt
        else raise assertion_error
    change_files (write_file (names.tmp_path maker.tmp_file) (records_content maker.written))
    if ltb 0 (length maker.meta.example_ids)
        then (let meta = record maker.meta { block_id = names.block_id maker.meta } in
            do
              at_manager
                  (rename_file names (names.tmp_path maker.tmp_file) (names.data_path meta) true)
              meta_path ← make_data_block_meta maker.managed meta
              pure (some meta))
        else do change_files (delete_file (names.tmp_path maker.tmp_file)); pure none
