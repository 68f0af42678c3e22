-- ===== src/DataJoin/BlockManager.antt =====
-- src/DataJoin/data_join/data_block_manager.py: the saved blocks of one partition, by index. The
-- state is the object together with the directory that it reads and renames in.
use n_mpc.Prelude.{
  ℕ, zero, suc, ◌+◌, ◌/◌, ℤ, pos, negsuc, sub_ℕ, ◌+ℤ◌, ◌==ℤ◌, ltb_ℤ, String, Bool, true, false,
  Option, none, some, [], ◌∷◌, length, leb, ltb, if◌then◌else◌, ◌||◌,
}
use n_mpc.Prelude.Dict.{Dict, lookup, insert, has_key}
use n_mpc.Prelude.Result.{
  Result, ok, err, runtime_error, index_error, assertion_error, key_error, not_found, value_error,
  type_error,
}
use n_mpc.Prelude.Method.{Method, pure, raise, gets, modify, ◌>>=◌, ◌>>◌}
use n_mpc.DataJoin.Records.{
  DataBlockMeta, data_block_index_threshold, removed_items_nums_from_buffer,
}
use n_mpc.DataJoin.Files.{
  Files, meta_content, records_content, Names, read_file, exists_file, rename,
}

pub record Manager : Type 0 where
  pub files : Files
  pub buffer : Dict DataBlockMeta
  pub saved : Option ℤ
  pub saving : Option ℕ

-- `while low_index <= high_index` of `_sync_saved_data_block_index`, for a test of the indices that
-- have a file. `high_index` may come down to -1.
unfoldable pub search_saved : (ℕ → Bool) → ℕ → ℕ → ℤ → ℤ
search_saved has_file zero low high = high
search_saved has_file (suc fuel) low (negsuc h) = negsuc h
search_saved has_file (suc fuel) low (pos h) =
    let middle = (low + h) / 2 in
    let above = search_saved has_file fuel (middle + 1) (pos h) in
    let below = search_saved has_file fuel low (sub_ℕ middle 1) in
    if leb low h then if has_file middle then above else below else pos h

-- The rounds that a search of the whole range needs at most.
abbrev pub search_fuel : ℕ
search_fuel = 64

-- `dict.popitem`: the item that was inserted last goes.
abbrev pub pop_item : {V : Type 0} → Dict V → Dict V
pop_item [] = []
pop_item (e ∷ []) = []
pop_item (e ∷ f ∷ d) = e ∷ pop_item (f ∷ d)

-- The loop of `_remove_item_from_data_block_memory_buffer`, on fuel for its rounds.
unfoldable pub pop_to : ℕ → ℕ → Dict DataBlockMeta → Dict DataBlockMeta
pop_to limit zero d = d
pop_to limit (suc fuel) d =
    let rest = pop_to limit fuel (pop_item d) in if ltb limit (length d) then rest else d

unfoldable pub remove_item_from_data_block_memory_buffer : Method Manager (Unit {0})
unfolding pop_to
remove_item_from_data_block_memory_buffer =
    modify
      (λ m. record m { buffer = pop_to removed_items_nums_from_buffer (length m.buffer) m.buffer })

module _ (names : Names) where
  abbrev has_meta : Files → ℕ → Bool
  has_meta files i = exists_file (names.meta_path i) files

  -- The branch of `_sync_saved_data_block_index` where an index is being saved: a rename that went
  -- through counts.
  unfoldable pub settle_saving : ℤ → ℕ → Method Manager (Unit {0})
  settle_saving saved index m =
      if pos index ==ℤ (saved +ℤ pos 1)
      then (if has_meta m.files index
          then (ok tt, record m { saved = some (pos index); saving = none })
          else (ok tt, record m { saving = none }))
      else (err assertion_error, m)

  unfoldable pub sync_saved_data_block_index : Method Manager (Unit {0})
  unfolding settle_saving
  sync_saved_data_block_index m = elim m.saved [
    | none ↦ elim m.saving [
      | none ↦ (
        ok tt,
        record m {
          saved =
              some (search_saved (has_meta m.files) search_fuel 0 (pos data_block_index_threshold));
        },
      )
      | some _ ↦ (err assertion_error, m)
    ]
    | some saved ↦ elim m.saving [ none ↦ (ok tt, m) | some index ↦ settle_saving saved index m ]
  ]

  -- `self._saved_data_block_index`, where the code takes it for a number.
  unfoldable pub saved_index : Method Manager ℤ
  saved_index m = elim m.saved [ some n ↦ (ok n, m) | none ↦ (err type_error, m) ]

  unfoldable pub acquire_produced_data_block_number : Method Manager ℤ
  unfolding sync_saved_data_block_index saved_index
  acquire_produced_data_block_number = do
    sync_saved_data_block_index
    saved ← saved_index
    pure (saved +ℤ pos 1)

  -- Reads and parses the file of an index that the buffer does not have.
  unfoldable pub load_data_block_meta : ℕ → Method Manager (Unit {0})
  load_data_block_meta index m = elim (read_file (names.meta_path index) m.files) [
    | none ↦ (err not_found, m)
    | some c ↦ elim c [
      | meta_content meta ↦ (ok tt, record m { buffer = insert index meta m.buffer })
      | records_content _ ↦ (err value_error, m)
    ]
  ]

  -- `self._data_block_meta_memory_buffer[data_block_index]`
  unfoldable pub buffered : ℕ → Method Manager (Option DataBlockMeta)
  buffered index m = elim (lookup index m.buffer) [
    | some meta ↦ (ok (some meta), m)
    | none ↦ (err key_error, m)
  ]

  unfoldable pub sync_data_block_meta : ℕ → Method Manager (Option DataBlockMeta)
  unfolding saved_index load_data_block_meta buffered remove_item_from_data_block_memory_buffer
  sync_data_block_meta index = do
    saved ← saved_index
    if ltb_ℤ saved (pos 0) || ltb_ℤ saved (pos index) then pure none else do
      known ← gets (λ m. has_key index m.buffer)
      if known
          then pure tt
          else do load_data_block_meta index; remove_item_from_data_block_memory_buffer
      buffered index

  unfoldable pub acquire_data_block_meta_by_index : ℤ → Method Manager (Option DataBlockMeta)
  unfolding sync_saved_data_block_index sync_data_block_meta
  acquire_data_block_meta_by_index (negsuc n) = raise index_error
  acquire_data_block_meta_by_index (pos index) = do
    sync_saved_data_block_index
    sync_data_block_meta index

  -- `gfile.Rename` within the directory.
  unfoldable pub rename_file : String → String → Bool → Method Manager (Unit {0})
  unfolding rename
  rename_file src dst overwrite m = elim (rename src dst overwrite m.files) [
    | ok files ↦ (ok tt, record m { files = files })
    | err e ↦ (err e, m)
  ]

  unfoldable pub update_data_block_meta : String → DataBlockMeta → Method Manager String
  unfolding rename_file saved_index remove_item_from_data_block_memory_buffer
  update_data_block_meta meta_file_path_tmp meta = do
    there ← gets (λ m. exists_file meta_file_path_tmp m.files)
    if there then pure tt else raise runtime_error
    idle ← gets (λ m. elim m.saving [ none ↦ true | some _ ↦ false ])
    if idle then pure tt else raise runtime_error
    saved ← saved_index
    if pos meta.data_block_index ==ℤ (saved +ℤ pos 1) then pure tt else raise index_error
    modify (λ m. record m { saving = some meta.data_block_index })
    rename_file meta_file_path_tmp (names.meta_path meta.data_block_index) false
    modify (λ m. record m { saving = none; saved = some (pos meta.data_block_index) })
    remove_item_from_data_block_memory_buffer
    modify (λ m. record m { buffer = insert meta.data_block_index meta m.buffer })
    pure (names.meta_path meta.data_block_index)

-- The object before its first synchronisation.
abbrev pub new_manager : Files → Manager
new_manager files = record { files = files; buffer = []; saved = none; saving = none }

-- `DataBlockManager.__init__`, the directory being there.
unfoldable pub init_manager : Names → Files → Result (Unit {0}) × Manager
unfolding sync_saved_data_block_index
init_manager names files = sync_saved_data_block_index names (new_manager files)
