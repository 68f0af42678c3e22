-- ===== src/DataJoin/Restarted.antt =====
-- A manager that is started again over the files that another one left behind.
use n_mpc.Prelude.{refl, ℕ, ◌+◌, ◌<◌, ◌≤◌, ◌≡◌, pos, ◌+ℤ◌, some, arith, eq_iff}
use n_mpc.Prelude.Result.{ok}
use n_mpc.DataJoin.Records.{DataBlockMeta, data_block_index_threshold}
use n_mpc.DataJoin.Files.{
  Files, meta_content, Names, AreApart, read_file, exists_file, read_file-write_file, delete_file,
}
use n_mpc.DataJoin.BlockManager.{
  Manager, search_fuel, acquire_produced_data_block_number, acquire_data_block_meta_by_index,
  update_data_block_meta, new_manager,
}
use n_mpc.DataJoin.Search.{search_saved-eq}
use n_mpc.DataJoin.Saved.{AreSaved, IsAtRest, produced-new_manager}
use n_mpc.DataJoin.Update.{update-eq, renamed, IsAtRest-updated}

module _ (names : Names) where
  -- A block with a file is found by a new manager.
  acquire-new_manager :
      (files : Files) (n i : ℕ) (meta : DataBlockMeta)
      → AreSaved names files n
      → n ≤ data_block_index_threshold + 1
      → i < n
      → read_file (names.meta_path i) files ≡ some (meta_content meta)
      → (acquire_data_block_meta_by_index names (pos i) (new_manager files)).0 ≡ ok (some meta)
  unfolding acquire_data_block_meta_by_index ◌+ℤ◌
  acquire-new_manager files n i meta saved h lt content =
      let found =
        search_saved-eq (λ k. exists_file (names.meta_path k) files) n saved search_fuel 0
          data_block_index_threshold (omega arith) h (omega arith) in
      ground (arith, found, lt, content)

  -- A block that a manager at rest, with at most as many blocks as the threshold, took over from
  -- its temporary file is not lost with the manager: a new one over the same files counts it, so
  -- that the next block gets the index after it, and finds its meta data under its index.
  pub update-restarted :
      (m : Manager) (n t : ℕ) (meta : DataBlockMeta)
      → AreApart names
      → IsAtRest names m n
      → read_file (names.tmp_path t) m.files ≡ some (meta_content meta)
      → meta.data_block_index ≡ n
      → n ≤ data_block_index_threshold
      → ((acquire_produced_data_block_number names
            (new_manager (update_data_block_meta names (names.tmp_path t) meta m).1.files)).0
          ≡ ok (pos (n + 1)))
        × ((acquire_data_block_meta_by_index names
              (pos n)
              (new_manager (update_data_block_meta names (names.tmp_path t) meta m).1.files)).0
            ≡ ok (some meta))
  update-restarted m n t meta apart rest there next h =
      let saved =
        (IsAtRest-updated names apart m n t (meta_content meta) meta rest there next).files in
      let files = renamed names apart m n t (meta_content meta) meta rest there next in
      let content : read_file (names.meta_path n) files ≡ some (meta_content meta) = ground (
        arith,
        read_file-write_file (names.meta_path n) (names.meta_path n) (meta_content meta)
            (delete_file (names.tmp_path t) m.files),
        (eq_iff (names.meta_path n) (names.meta_path n)).1 refl,
      ) in
      rw (update-eq names apart m n t (meta_content meta) meta rest there next) (
        produced-new_manager names files (n + 1) saved (omega arith),
        acquire-new_manager files (n + 1) n meta saved (omega arith) (omega arith) content,
      )
