-- ===== src/DataJoin/Stored.antt =====
-- The saver makes all the blocks whose meta data waits in its buffer.
use n_mpc.Prelude.{
  ℕ, zero, suc, ◌+◌, ◌<◌, ◌≤◌, ◌≡◌, refl, ap, subst, ◌∙◌, String, true, false, some, List, [], ◌∷◌,
  length, arith, All,
}
use n_mpc.Prelude.Result.{Result, ok}
use n_mpc.Prelude.Dict.{Dict}
use n_mpc.DataJoin.Records.{DataBlockMeta, Item}
use n_mpc.DataJoin.Files.{Files, Names, AreApart, read_file, meta_content, records_content}
use n_mpc.DataJoin.BlockMaker.{data_block_finalizer}
use n_mpc.DataJoin.Saved.{IsAtRest, produced-IsAtRest}
use n_mpc.DataJoin.Finished.{finalizer-finished, finalizer-files}
use n_mpc.DataJoin.Older.{IsOlder, IsOlder-suc, IsOlder-meta, IsOlder-data}
use n_mpc.DataJoin.Blocks.{matched, AreNumbered}
use n_mpc.DataJoin.SavedBlocks.{records_of, written_maker, site_of_maker, make_block-some, save_eq}
use n_mpc.DataJoin.Saver.{
  Saver, drop_saved, save_data_block_with_meta, save_data_blocks,
  remove_saved_data_block_meta_from_buffer, data_block_consumer_processor,
}

module _ (names : Names) (item_dict : Dict Item) where
  -- The meta data with the block id that it gets.
  abbrev pub named_block : DataBlockMeta → DataBlockMeta
  named_block meta = record meta { block_id = names.block_id meta }

  -- Both files of a block are there, with the records of its examples in their order.
  abbrev pub IsStored : Files → DataBlockMeta → Type 0
  IsStored files meta =
      (read_file (names.meta_path meta.data_block_index) files
        ≡ some (meta_content (named_block meta)))
      × (read_file (names.data_path (named_block meta)) files
          ≡ some (records_content (records_of item_dict meta.example_ids)))

  -- A block of the partition with some examples, all of them in the raw data.
  abbrev pub CanBeMade : ℕ → DataBlockMeta → Type 0
  CanBeMade partition_id meta =
      (partition_id ≡ meta.partition_id)
      × (0 < length meta.example_ids)
      × (length (matched item_dict meta.example_ids) ≡ length meta.example_ids)

  -- A saver with a buffer, over `n` saved blocks.
  pub record Saves (s : Saver) (n : ℕ) (buffer : List DataBlockMeta) : Type 0 where
    pub rest : IsAtRest names s.site.manager n
    pub waits : s.data_block_meta_buffer ≡ buffer
    pub numbered : AreNumbered n buffer
    pub can : All (CanBeMade s.partition_id) buffer

  -- What a run makes of such a saver.
  pub record AllStored (s : Saver) (n : ℕ) (buffer : List DataBlockMeta)
      (r : Result (Unit {0}) × Saver) : Type 0 where
    pub answer : r.0 ≡ ok tt
    pub empty : r.1.data_block_meta_buffer ≡ []
    pub rest : IsAtRest names r.1.site.manager (n + length buffer)
    pub stored : All (IsStored r.1.site.manager.files) buffer
    pub kept :
        (path : String)
        → IsOlder names n path
        → read_file path r.1.site.manager.files ≡ read_file path s.site.manager.files

  module _ (apart : AreApart names) where
    -- One block of the buffer.
    save_first :
        (s : Saver) (n : ℕ) (meta : DataBlockMeta) (buffer : List DataBlockMeta)
        → Saves s n (meta ∷ buffer)
        → (s' : Saver) × (save_data_block_with_meta names item_dict meta s ≡ (ok tt, s'))
          × Saves s' (suc n) buffer
          × IsStored s'.site.manager.files meta
          × ((path : String)
              → IsOlder names n path
              → read_file path s'.site.manager.files ≡ read_file path s.site.manager.files)
    save_first s n meta buffer h =
        let maker = written_maker names item_dict s meta in
        let site = site_of_maker names item_dict s meta in
        let next = h.numbered.0 in
        let (own, positive, there) = h.can.0 in
        let count : maker.saved_example_num ≡ length meta.example_ids = omega (arith, there) in
        let closed = finalizer-finished names apart site maker n h.rest refl next count positive in
        let files = finalizer-files names apart site maker n h.rest refl next count positive in
        let made = make_block-some names item_dict s meta (named_block meta) closed.0 in
        (
          record s {
            site = (data_block_finalizer names maker site).1;
            data_block_meta_buffer = buffer;
          },
          save_eq names item_dict s meta own made
              ∙ ap
                  (λ waiting. (
                    ok tt,
                    record s {
                      site = (data_block_finalizer names maker site).1;
                      data_block_meta_buffer = elim waiting [ [] ↦ [] | _ ∷ rest ↦ rest ];
                    },
                  ))
                  h.waits,
          record {
            rest =
                subst (λ k. IsAtRest names (data_block_finalizer names maker site).1.manager k)
                  (omega arith) closed.1;
            waits = refl;
            numbered = h.numbered.1;
            can = h.can.1;
          },
          (
            ap
                  (λ k.
                    read_file (names.meta_path k)
                      (data_block_finalizer names maker site).1.manager.files)
                  next
                ∙ files.0,
            closed.2,
          ),
          λ path older.
              files.1 path older.no_tmp (older.no_data (named_block meta) (omega (arith, next)))
                (older.no_meta n (omega arith)),
        )

    blocks_nil :
        (fuel : ℕ) (s : Saver)
        → s.data_block_meta_buffer ≡ []
        → save_data_blocks names item_dict fuel s ≡ (ok tt, s)
    unfolding save_data_blocks
    blocks_nil zero s e = refl
    blocks_nil (suc fuel) s e = ground (arith, e)

    blocks_cons :
        (fuel : ℕ) (s s' : Saver) (meta : DataBlockMeta) (buffer : List DataBlockMeta)
        → s.data_block_meta_buffer ≡ meta ∷ buffer
        → save_data_block_with_meta names item_dict meta s ≡ (ok tt, s')
        → save_data_blocks names item_dict (suc fuel) s ≡ save_data_blocks names item_dict fuel s'
    unfolding save_data_blocks
    blocks_cons fuel s s' meta buffer e first = ground (arith, e, first)

    -- All of the buffer, with fuel for a round for each block.
    save_data_blocks-stored :
        (buffer : List DataBlockMeta) (fuel : ℕ) (s : Saver) (n : ℕ)
        → Saves s n buffer
        → length buffer ≤ fuel
        → AllStored s n buffer (save_data_blocks names item_dict fuel s)
    save_data_blocks-stored [] fuel s n h enough = rw (blocks_nil fuel s h.waits) (record {
      answer = refl;
      empty = h.waits;
      rest = subst (λ k. IsAtRest names s.site.manager k) (omega arith) h.rest;
      stored = tt;
      kept = λ path older. refl;
    })
    save_data_blocks-stored (meta ∷ buffer) zero s n h enough = absurd (omega arith)
    save_data_blocks-stored (meta ∷ buffer) (suc fuel) s n h enough =
        let (s', first, saves, stored, kept) = save_first s n meta buffer h in
        let rest = save_data_blocks-stored buffer fuel s' (suc n) saves (omega arith) in
        let final = (save_data_blocks names item_dict fuel s').1.site.manager in
        rw (blocks_cons fuel s s' meta buffer h.waits first) (record {
          answer = rest.answer;
          empty = rest.empty;
          rest = subst (λ k. IsAtRest names final k) (omega arith) rest.rest;
          stored = (
            (
              rest.kept (names.meta_path meta.data_block_index) (
                    subst (λ k. IsOlder names k (names.meta_path meta.data_block_index))
                      (omega (arith, h.numbered.0))
                      (IsOlder-meta names apart meta.data_block_index))
                  ∙ stored.0,
              rest.kept (names.data_path (named_block meta)) (
                    subst (λ k. IsOlder names k (names.data_path (named_block meta)))
                      (omega (arith, h.numbered.0)) (IsOlder-data names apart (named_block meta)))
                  ∙ stored.1,
            ),
            rest.stored,
          );
          kept = λ path older. rest.kept path (IsOlder-suc names n path older) ∙ kept path older;
        })

    drop_saved-numbered :
        (n : ℕ) (buffer : List DataBlockMeta) → AreNumbered n buffer → drop_saved n buffer ≡ buffer
    unfolding drop_saved
    drop_saved-numbered n [] h = refl
    drop_saved-numbered n (meta ∷ buffer) h = ground arith

    remove-nothing :
        (s : Saver) (n : ℕ) (buffer : List DataBlockMeta)
        → Saves s n buffer
        → remove_saved_data_block_meta_from_buffer names item_dict s ≡ (ok tt, s)
    unfolding remove_saved_data_block_meta_from_buffer
    remove-nothing s n buffer h = ground (
      arith,
      produced-IsAtRest names s.site.manager n h.rest,
      h.waits,
      drop_saved-numbered n buffer h.numbered,
    )

    processor-eq :
        (fuel : ℕ) (s : Saver) (n : ℕ) (buffer : List DataBlockMeta) {s' : Saver}
        → Saves s n buffer
        → save_data_blocks names item_dict fuel (record s { state_switch = true }) ≡ (ok tt, s')
        → data_block_consumer_processor names item_dict fuel s
          ≡ (ok tt, record s' { state_switch = false })
    unfolding data_block_consumer_processor
    processor-eq fuel s n buffer h e = ground (arith, e, remove-nothing s n buffer h)

    -- The blocks that wait have the numbers from that of the manager on, are of the saver's
    -- partition, and have some examples each, all of them in the raw data. Then one run of the
    -- saver, with fuel for a round for each block, makes them all: the buffer is empty, the manager
    -- is at rest over them, the files of each hold its meta data and the records of its examples in
    -- their order, and the files of the blocks before are as they were.
    pub data_block_consumer_processor-stored :
        (buffer : List DataBlockMeta) (fuel : ℕ) (s : Saver) (n : ℕ)
        → Saves s n buffer
        → length buffer ≤ fuel
        → AllStored s n buffer (data_block_consumer_processor names item_dict fuel s)
    data_block_consumer_processor-stored buffer fuel s n h enough =
        let on : Saver = record s { state_switch = true } in
        let saves : Saves on n buffer = record {
          rest = h.rest;
          waits = h.waits;
          numbered = h.numbered;
          can = h.can;
        } in
        let all = save_data_blocks-stored buffer fuel on n saves enough in
        let final = (save_data_blocks names item_dict fuel on).1 in
        rw (processor-eq fuel s n buffer {s' = final} h (ap (λ a. (a, final)) all.answer)) (record {
          answer = refl;
          empty = all.empty;
          rest = all.rest;
          stored = all.stored;
          kept = all.kept;
        })
