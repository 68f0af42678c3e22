-- ===== src/DataJoin/Update.antt =====
-- `update_data_block_meta` at the next index.
use n_mpc.Prelude.{ℕ, ◌+◌, ◌≡◌, refl, pos, ◌+ℤ◌, none, some, length, arith, eq_iff}
use n_mpc.Prelude.Dict.{insert, lookup-insert}
use n_mpc.Prelude.Result.{ok}
use n_mpc.DataJoin.Records.{DataBlockMeta, removed_items_nums_from_buffer}
use n_mpc.DataJoin.Files.{
  Files, Content, Names, AreApart, read_file, write_file, delete_file, read_file-write_file,
  read_file-delete_file,
}
use n_mpc.DataJoin.BlockManager.{
  Manager, pop_to, acquire_data_block_meta_by_index, update_data_block_meta,
}
use n_mpc.DataJoin.Saved.{AreSaved, IsAtRest}

module _ (names : Names) (apart : AreApart names) (m : Manager) (n t : ℕ) (c : Content)
    (meta : DataBlockMeta) (rest : IsAtRest names m n)
    (there : read_file (names.tmp_path t) m.files ≡ some c) (next : meta.data_block_index ≡ n) where
  abbrev pub renamed : Files
  renamed = write_file (names.meta_path n) c (delete_file (names.tmp_path t) m.files)

  AreSaved-renamed : AreSaved names renamed (n + 1)
  AreSaved-renamed i = ground (
    arith,
    read_file-write_file (names.meta_path n) (names.meta_path i) c
        (delete_file (names.tmp_path t) m.files),
    read_file-delete_file (names.tmp_path t) (names.meta_path i) m.files,
    eq_iff (names.meta_path n) (names.meta_path i),
    eq_iff (names.tmp_path t) (names.meta_path i),
    apart.tmp-ne-meta t i,
    apart.meta_path-injective n i,
    rest.files i,
  )

  abbrev pub updated : Manager
  updated = record {
    files = renamed;
    buffer = insert n meta (pop_to removed_items_nums_from_buffer (length m.buffer) m.buffer);
    saved = some (pos n);
    saving = none;
  }

  pub update-eq :
      update_data_block_meta names (names.tmp_path t) meta m ≡ (ok (names.meta_path n), updated)
  unfolding update_data_block_meta ◌+ℤ◌
  update-eq = ground (arith, rest.files n)

  pub IsAtRest-updated : IsAtRest names updated (n + 1)
  IsAtRest-updated = record { saved = ground arith; saving = refl; files = AreSaved-renamed }

  pub acquire-updated : (acquire_data_block_meta_by_index names (pos n) updated).0 ≡ ok (some meta)
  unfolding acquire_data_block_meta_by_index
  acquire-updated = ground (
    arith,
    lookup-insert n n meta (pop_to removed_items_nums_from_buffer (length m.buffer) m.buffer),
  )

  -- At the next index, from a temporary file that is there, the update goes through: it answers the
  -- path of the new file, the manager is at rest over one block more, and the block is found again
  -- under its index.
  pub update-acquire :
      ((update_data_block_meta names (names.tmp_path t) meta m).0 ≡ ok (names.meta_path n))
      × IsAtRest names (update_data_block_meta names (names.tmp_path t) meta m).1 (n + 1)
      × ((acquire_data_block_meta_by_index names
            (pos n)
            (update_data_block_meta names (names.tmp_path t) meta m).1).0
          ≡ ok (some meta))
  update-acquire = rw update-eq (refl, IsAtRest-updated, acquire-updated)
