-- ===== src/DataJoin/SavedBlocks.antt =====
-- The saver makes the block that the meta data names, or gives up.
use n_mpc.Prelude.{
  ℕ, ◌+◌, ◌<◌, ◌≡◌, ◌≢◌, refl, pos, true, none, some, List, [], ◌∷◌, ◌++◌, map, length, arith,
  append_assoc, append-nil, inl, inr, Option-cases,
}
use n_mpc.Prelude.Result.{ok, err, assertion_error, type_error}
use n_mpc.Prelude.Dict.{Dict, lookup}
use n_mpc.DataJoin.Records.{DataBlockMeta, Item, ExampleId}
use n_mpc.DataJoin.Files.{Names, AreApart, read_file, records_content}
use n_mpc.DataJoin.BlockManager.{acquire_data_block_meta_by_index}
use n_mpc.DataJoin.BlockMaker.{Maker, Site, save_data_record, data_block_finalizer}
use n_mpc.DataJoin.Saved.{IsAtRest}
use n_mpc.DataJoin.Finished.{finalizer-finished}
use n_mpc.DataJoin.Blocks.{matched}
use n_mpc.DataJoin.Saver.{Saver, save_records, make_block, save_data_block_with_meta}

module _ (item_dict : Dict Item) where
  abbrev pub records_of : List ExampleId → List (List ℕ)
  records_of ids = map (λ item. item.data_record) (matched item_dict ids)

  save_records-eq :
      (ids : List ExampleId) (maker : Maker)
      → save_records item_dict ids maker ≡ record maker {
        written = maker.written ++ records_of ids;
        saved_example_num = maker.saved_example_num + length (matched item_dict ids);
      }
  unfolding save_records save_data_record
  save_records-eq [] maker = ground (arith, append-nil maker.written)
  save_records-eq (example_id ∷ rest) maker = elim (Option-cases (lookup example_id item_dict)) [
    | inl e ↦ ground (arith, e, save_records-eq rest maker)
    | inr e ↦ ground (
      arith,
      e.1,
      save_records-eq rest (save_data_record e.0.data_record maker),
      append_assoc maker.written (e.0.data_record ∷ []) (records_of rest),
    )
  ]

module _ (names : Names) (item_dict : Dict Item) (s : Saver) (meta : DataBlockMeta) where
  -- The maker of the block before and after its records are written.
  abbrev pub fresh : Maker
  fresh = record {
    meta = meta;
    managed = true;
    saved_example_num = 0;
    example_num_threshold = none;
    tmp_file = s.site.next_tmp;
    written = [];
  }

  abbrev pub written_maker : Maker
  written_maker = record fresh {
    written = records_of item_dict meta.example_ids;
    saved_example_num = 0 + length (matched item_dict meta.example_ids);
  }

  abbrev pub site_of_maker : Site
  site_of_maker = record s.site { next_tmp = s.site.next_tmp + 1 }

  pub make_block-some :
      (made : DataBlockMeta)
      → (data_block_finalizer names written_maker site_of_maker).0 ≡ ok (some made)
      → make_block names item_dict meta s ≡ (
        ok tt,
        record s {
          site = (data_block_finalizer names written_maker site_of_maker).1;
          data_block_meta_buffer = elim s.data_block_meta_buffer [ [] ↦ [] | _ ∷ rest ↦ rest ];
        },
      )
  unfolding make_block
  make_block-some made e = ground (arith, e, save_records-eq item_dict meta.example_ids fresh)

  make_block-err :
      (data_block_finalizer names written_maker site_of_maker).0 ≡ err assertion_error
      → make_block names item_dict meta s ≡ (
        err assertion_error,
        record s { site = (data_block_finalizer names written_maker site_of_maker).1 },
      )
  unfolding make_block
  make_block-err e = ground (arith, e, save_records-eq item_dict meta.example_ids fresh)

  finalizer-miscounted :
      length (matched item_dict meta.example_ids) ≢ length meta.example_ids
      → (data_block_finalizer names written_maker site_of_maker).0 ≡ err assertion_error
  unfolding data_block_finalizer
  finalizer-miscounted ne = ground (arith, ne)

  -- A block that names an example which is not in the raw data is not made: the saver raises a
  -- TypeError, and the meta data stays in the buffer.
  pub save_data_block_with_meta-missing :
      s.partition_id ≡ meta.partition_id
      → length (matched item_dict meta.example_ids) ≢ length meta.example_ids
      → ((save_data_block_with_meta names item_dict meta s).0 ≡ err type_error)
        × ((save_data_block_with_meta names item_dict meta s).1.data_block_meta_buffer
            ≡ s.data_block_meta_buffer)
  unfolding save_data_block_with_meta
  save_data_block_with_meta-missing own ne =
      let e = make_block-err (finalizer-miscounted ne) in
      (ground (arith, own, e), ground (arith, own, e))

  pub save_eq :
      s.partition_id ≡ meta.partition_id
      → {s' : Saver} → make_block names item_dict meta s ≡ (ok tt, s')
      → save_data_block_with_meta names item_dict meta s ≡ (ok tt, s')
  unfolding save_data_block_with_meta
  save_eq own e = ground (arith, own, e)

  -- A block at the next index, with some examples, all of them in the raw data, is made: its meta
  -- data leaves the buffer and is found again with its block id, the file of the block holds the
  -- records of the examples in their order, and the manager is at rest over one block more.
  save_data_block_with_meta-made :
      (apart : AreApart names) (n : ℕ)
      → IsAtRest names s.site.manager n
      → meta.data_block_index ≡ n
      → s.partition_id ≡ meta.partition_id
      → 0 < length meta.example_ids
      → length (matched item_dict meta.example_ids) ≡ length meta.example_ids
      → let made : DataBlockMeta = record meta { block_id = names.block_id meta } in
        let r = save_data_block_with_meta names item_dict meta s in
        (r.0 ≡ ok tt)
        × (r.1.data_block_meta_buffer
            ≡ (elim s.data_block_meta_buffer [ [] ↦ [] | _ ∷ rest ↦ rest ]))
        × IsAtRest names r.1.site.manager (n + 1)
        × (read_file (names.data_path made) r.1.site.manager.files
            ≡ some (records_content (records_of item_dict meta.example_ids)))
        × ((acquire_data_block_meta_by_index names (pos n) r.1.site.manager).0 ≡ ok (some made))
  save_data_block_with_meta-made apart n rest next own positive all_there =
      let made : DataBlockMeta = record meta { block_id = names.block_id meta } in
      let closed =
        finalizer-finished names apart site_of_maker written_maker n rest refl next
          (omega (arith, all_there)) positive in
      rw (save_eq own (make_block-some made closed.0)) (refl, refl, closed.1, closed.2, closed.3)
