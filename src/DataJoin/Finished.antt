-- ===== src/DataJoin/Finished.antt =====
-- `data_block_finalizer` of a block with some examples, at a manager at rest.
use n_mpc.Prelude.{◌≢◌, String, pos, ℕ, ◌+◌, ◌<◌, ◌≡◌, refl, true, some, length, arith, eq_iff}
use n_mpc.Prelude.Result.{ok}
use n_mpc.Prelude.Dict.{insert}
use n_mpc.DataJoin.Records.{DataBlockMeta, removed_items_nums_from_buffer}
use n_mpc.DataJoin.Files.{
  Files, Names, AreApart, Content, read_file, write_file, delete_file, rename, read_file-write_file,
  read_file-delete_file, meta_content, records_content,
}
use n_mpc.DataJoin.BlockManager.{
  pop_to, Manager, rename_file, update_data_block_meta, acquire_data_block_meta_by_index,
}
use n_mpc.DataJoin.Saved.{AreSaved, IsAtRest}
use n_mpc.DataJoin.Update.{updated, update-eq, IsAtRest-updated, acquire-updated}
use n_mpc.DataJoin.BlockMaker.{Maker, Site, data_block_finalizer}

module _ (names : Names) where
  read_file-write_self :
      (path : _) (c : Content) (files : Files) → read_file path (write_file path c files) ≡ some c
  read_file-write_self path c files = ground (arith, eq_iff path path)

module _ (names : Names) (apart : AreApart names) (s : Site) (maker : Maker) (n : ℕ)
    (rest : IsAtRest names s.manager n) where
  -- The meta data that the block gets, and the files before they are renamed.
  abbrev finished : DataBlockMeta
  finished = record maker.meta { block_id = names.block_id maker.meta }

  abbrev with_records : Files
  with_records = write_file (names.data_path finished) (records_content maker.written) (
      delete_file (names.tmp_path maker.tmp_file) (
        write_file (names.tmp_path maker.tmp_file) (records_content maker.written) s.manager.files))

  abbrev with_meta : Files
  with_meta = write_file (names.tmp_path s.next_tmp) (meta_content finished) with_records

  AreSaved-with_records : AreSaved names with_records n
  AreSaved-with_records i = ground (
    arith,
    read_file-write_file (names.data_path finished) (names.meta_path i)
        (records_content maker.written)
        (delete_file (names.tmp_path maker.tmp_file) (
          write_file (names.tmp_path maker.tmp_file) (records_content maker.written)
            s.manager.files)),
    read_file-delete_file (names.tmp_path maker.tmp_file) (names.meta_path i) (
        write_file (names.tmp_path maker.tmp_file) (records_content maker.written) s.manager.files),
    read_file-write_file (names.tmp_path maker.tmp_file) (names.meta_path i)
        (records_content maker.written) s.manager.files,
    eq_iff (names.data_path finished) (names.meta_path i),
    eq_iff (names.tmp_path maker.tmp_file) (names.meta_path i),
    apart.tmp-ne-meta maker.tmp_file i,
    apart.data-ne-meta finished i,
    rest.files i,
  )

  AreSaved-with_meta : AreSaved names with_meta n
  AreSaved-with_meta i = ground (
    arith,
    read_file-write_file (names.tmp_path s.next_tmp) (names.meta_path i) (meta_content finished)
        with_records,
    eq_iff (names.tmp_path s.next_tmp) (names.meta_path i),
    apart.tmp-ne-meta s.next_tmp i,
    AreSaved-with_records i,
  )

  abbrev filled : Manager
  filled = record s.manager { files = with_meta }

  filled-IsAtRest : IsAtRest names filled n
  filled-IsAtRest = record { saved = rest.saved; saving = rest.saving; files = AreSaved-with_meta }

  rename_records :
      rename_file names
        (names.tmp_path maker.tmp_file)
        (names.data_path finished)
        true
        (record s.manager {
          files =
              write_file
                (names.tmp_path maker.tmp_file)
                (records_content maker.written)
                s.manager.files;
        })
      ≡ (ok tt, record s.manager { files = with_records })
  unfolding rename_file rename
  rename_records =
      ground (arith, eq_iff (names.tmp_path maker.tmp_file) (names.tmp_path maker.tmp_file))

  module _ (managed : maker.managed ≡ true) (next : maker.meta.data_block_index ≡ n) where
    abbrev closed : Manager
    closed =
        updated names apart filled n s.next_tmp (meta_content finished) finished filled-IsAtRest
          (read_file-write_self names (names.tmp_path s.next_tmp) (meta_content finished)
            with_records)
          next

    update-filled :
        update_data_block_meta names (names.tmp_path s.next_tmp) finished filled
        ≡ (ok (names.meta_path n), closed)
    update-filled =
        update-eq names apart filled n s.next_tmp (meta_content finished) finished filled-IsAtRest
          (read_file-write_self names (names.tmp_path s.next_tmp) (meta_content finished)
            with_records)
          next

    finalizer-eq :
        maker.saved_example_num ≡ length maker.meta.example_ids
        → 0 < length maker.meta.example_ids
        → data_block_finalizer names maker s
          ≡ (ok (some finished), record { manager = closed; next_tmp = s.next_tmp + 1 })
    unfolding data_block_finalizer
    finalizer-eq count some_ids = ground (arith, rename_records, update-filled, managed)

    read_records :
        read_file (names.data_path finished) closed.files ≡ some (records_content maker.written)
    read_records = ground (
      arith,
      read_file-write_file (names.meta_path n) (names.data_path finished) (meta_content finished)
          (delete_file (names.tmp_path s.next_tmp) with_meta),
      read_file-delete_file (names.tmp_path s.next_tmp) (names.data_path finished) with_meta,
      read_file-write_file (names.tmp_path s.next_tmp) (names.data_path finished)
          (meta_content finished) with_records,
      read_file-write_self names (names.data_path finished) (records_content maker.written) (
          delete_file (names.tmp_path maker.tmp_file) (
            write_file (names.tmp_path maker.tmp_file) (records_content maker.written)
              s.manager.files)),
      eq_iff (names.meta_path n) (names.data_path finished),
      eq_iff (names.tmp_path s.next_tmp) (names.data_path finished),
      apart.data-ne-meta finished n,
      apart.data-ne-tmp finished s.next_tmp,
    )

    -- The file of the meta data holds it.
    read_meta : read_file (names.meta_path n) closed.files ≡ some (meta_content finished)
    read_meta =
        read_file-write_self names (names.meta_path n) (meta_content finished)
          (delete_file (names.tmp_path s.next_tmp) with_meta)

    -- What is neither a temporary file nor of this block stays as it was.
    read_other :
        (path : String)
        → names.tmp_path maker.tmp_file ≢ path
        → names.tmp_path s.next_tmp ≢ path
        → names.data_path finished ≢ path
        → names.meta_path n ≢ path
        → read_file path closed.files ≡ read_file path s.manager.files
    read_other path a b c d = ground (
      arith,
      read_file-write_file (names.meta_path n) path (meta_content finished)
          (delete_file (names.tmp_path s.next_tmp) with_meta),
      read_file-delete_file (names.tmp_path s.next_tmp) path with_meta,
      read_file-write_file (names.tmp_path s.next_tmp) path (meta_content finished) with_records,
      read_file-write_file (names.data_path finished) path (records_content maker.written) (
          delete_file (names.tmp_path maker.tmp_file) (
            write_file (names.tmp_path maker.tmp_file) (records_content maker.written)
              s.manager.files)),
      read_file-delete_file (names.tmp_path maker.tmp_file) path (
          write_file (names.tmp_path maker.tmp_file) (records_content maker.written)
            s.manager.files),
      read_file-write_file (names.tmp_path maker.tmp_file) path (records_content maker.written)
          s.manager.files,
      eq_iff (names.meta_path n) path,
      eq_iff (names.tmp_path s.next_tmp) path,
      eq_iff (names.data_path finished) path,
      eq_iff (names.tmp_path maker.tmp_file) path,
    )

    -- The files after a finished block: its meta data is there, and all other blocks' files stay.
    pub finalizer-files :
        maker.saved_example_num ≡ length maker.meta.example_ids
        → 0 < length maker.meta.example_ids
        → (read_file (names.meta_path n) (data_block_finalizer names maker s).1.manager.files
            ≡ some (meta_content finished))
          × ((path : String)
              → ((t : ℕ) → names.tmp_path t ≢ path)
              → names.data_path finished ≢ path
              → names.meta_path n ≢ path
              → read_file path (data_block_finalizer names maker s).1.manager.files
                ≡ read_file path s.manager.files)
    finalizer-files count some_ids =
        rw (finalizer-eq count some_ids)
          (read_meta, λ path tmps a b. read_other path (tmps maker.tmp_file) (tmps s.next_tmp) a b)

    -- The buffer of the manager gets the meta data, when it has room.
    pub finalizer-buffer :
        maker.saved_example_num ≡ length maker.meta.example_ids
        → 0 < length maker.meta.example_ids
        → (data_block_finalizer names maker s).1.manager.buffer
          ≡ insert n finished
              (pop_to removed_items_nums_from_buffer (length s.manager.buffer) s.manager.buffer)
    finalizer-buffer count some_ids = rw (finalizer-eq count some_ids) refl

    -- A finished block with some examples, at the next index: its meta data is answered and found
    -- again under the index, the manager is at rest over one block more, and the file of the block
    -- holds the records.
    pub finalizer-finished :
        maker.saved_example_num ≡ length maker.meta.example_ids
        → 0 < length maker.meta.example_ids
        → ((data_block_finalizer names maker s).0 ≡ ok (some finished))
          × IsAtRest names (data_block_finalizer names maker s).1.manager (n + 1)
          × (read_file
                (names.data_path finished)
                (data_block_finalizer names maker s).1.manager.files
              ≡ some (records_content maker.written))
          × ((acquire_data_block_meta_by_index names
                (pos n)
                (data_block_finalizer names maker s).1.manager).0
              ≡ ok (some finished))
    finalizer-finished count some_ids = rw (finalizer-eq count some_ids) (
      refl,
      IsAtRest-updated names apart filled n s.next_tmp (meta_content finished) finished
          filled-IsAtRest
          (read_file-write_self names (names.tmp_path s.next_tmp) (meta_content finished)
            with_records)
          next,
      read_records,
      acquire-updated names apart filled n s.next_tmp (meta_content finished) finished
          filled-IsAtRest
          (read_file-write_self names (names.tmp_path s.next_tmp) (meta_content finished)
            with_records)
          next,
    )
