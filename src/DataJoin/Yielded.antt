-- ===== src/DataJoin/Yielded.antt =====
-- The blocks that the joiner yields, their files and the buffer of the manager.
use n_mpc.Prelude.{
  ℕ, suc, ◌+◌, ◌<◌, ◌≡◌, refl, ap, ◌∙◌, String, some, List, [], ◌∷◌, ◌++◌, map, length, arith,
}
use n_mpc.Prelude.Dict.{Dict, insert}
use n_mpc.DataJoin.Records.{DataBlockMeta, Item, removed_items_nums_from_buffer}
use n_mpc.DataJoin.Files.{Files, Names, AreApart, read_file, meta_content, records_content}
use n_mpc.DataJoin.BlockManager.{pop_to}
use n_mpc.DataJoin.Older.{IsOlder, IsOlder-le, IsOlder-meta, IsOlder-data}
use n_mpc.DataJoin.Blocks.{AreNumbered, ids_of}

abbrev pub data_records : List Item → List (List ℕ)
data_records items = map (λ item. item.data_record) items

-- The buffer of a manager after blocks have been finished.
abbrev pub remember : List DataBlockMeta → Dict DataBlockMeta → Dict DataBlockMeta
remember [] buffer = buffer
remember (meta ∷ metas) buffer = remember metas (
    insert meta.data_block_index meta
      (pop_to removed_items_nums_from_buffer (length buffer) buffer))

pub remember-append :
    (metas more : List DataBlockMeta) (buffer : Dict DataBlockMeta)
    → remember (metas ++ more) buffer ≡ remember more (remember metas buffer)
remember-append [] more buffer = refl
remember-append (meta ∷ metas) more buffer = remember-append metas more (
    insert meta.data_block_index meta
      (pop_to removed_items_nums_from_buffer (length buffer) buffer))

module _ (names : Names) (partition_id : ℕ) where
  -- The meta data and the two files of a block of these examples.
  pub record IsMade (files : Files) (meta : DataBlockMeta) (block : List Item) : Type 0 where
    pub own : meta.partition_id ≡ partition_id
    pub filled : 0 < length block
    pub ids : meta.example_ids ≡ ids_of block
    pub saved : read_file (names.meta_path meta.data_block_index) files ≡ some (meta_content meta)
    pub written :
        read_file (names.data_path meta) files ≡ some (records_content (data_records block))

  abbrev pub AreMade : Files → List DataBlockMeta → List (List Item) → Type 0
  AreMade files [] [] = Unit {0}
  AreMade files [] (block ∷ blocks) = ⊥
  AreMade files (meta ∷ metas) [] = ⊥
  AreMade files (meta ∷ metas) (block ∷ blocks) =
      IsMade files meta block × AreMade files metas blocks

  pub AreMade-append :
      (files : Files) (metas more : List DataBlockMeta) (blocks others : List (List Item))
      → AreMade files metas blocks
      → AreMade files more others
      → AreMade files (metas ++ more) (blocks ++ others)
  AreMade-append files [] more [] others a b = b
  AreMade-append files [] more (block ∷ blocks) others a b = absurd a
  AreMade-append files (meta ∷ metas) more [] others a b = absurd a
  AreMade-append files (meta ∷ metas) more (block ∷ blocks) others a b =
      (a.0, AreMade-append files metas more blocks others a.1 b)

  pub AreMade-ids :
      (files : Files) (metas : List DataBlockMeta) (blocks : List (List Item))
      → AreMade files metas blocks
      → map (λ meta. meta.example_ids) metas ≡ map ids_of blocks
  AreMade-ids files [] [] h = refl
  AreMade-ids files [] (block ∷ blocks) h = absurd h
  AreMade-ids files (meta ∷ metas) [] h = absurd h
  AreMade-ids files (meta ∷ metas) (block ∷ blocks) h =
      ap (λ ids. ids ∷ map (λ (meta : DataBlockMeta). meta.example_ids) metas) h.0.ids
      ∙ ap (λ l. ids_of block ∷ l) (AreMade-ids files metas blocks h.1)

  pub AreMade-length :
      (files : Files) (metas : List DataBlockMeta) (blocks : List (List Item))
      → AreMade files metas blocks
      → length metas ≡ length blocks
  AreMade-length files [] [] h = refl
  AreMade-length files [] (block ∷ blocks) h = absurd h
  AreMade-length files (meta ∷ metas) [] h = absurd h
  AreMade-length files (meta ∷ metas) (block ∷ blocks) h =
      ap suc (AreMade-length files metas blocks h.1)

  module _ (apart : AreApart names) where
    IsMade-kept :
        (files files' : Files) (n : ℕ) (meta : DataBlockMeta) (block : List Item)
        → meta.data_block_index < n
        → ((path : String) → IsOlder names n path → read_file path files' ≡ read_file path files)
        → IsMade files meta block
        → IsMade files' meta block
    IsMade-kept files files' n meta block lt kept h = record {
      own = h.own;
      filled = h.filled;
      ids = h.ids;
      saved =
          kept (names.meta_path meta.data_block_index) (
            IsOlder-le names (suc meta.data_block_index) n (names.meta_path meta.data_block_index)
              lt (IsOlder-meta names apart meta.data_block_index))
          ∙ h.saved;
      written =
          kept (names.data_path meta) (
            IsOlder-le names (suc meta.data_block_index) n (names.data_path meta) lt
              (IsOlder-data names apart meta))
          ∙ h.written;
    }

    -- Blocks stay made when later blocks are.
    pub AreMade-kept :
        (files files' : Files) (n : ℕ) (metas : List DataBlockMeta) (blocks : List (List Item))
        → AreNumbered n metas
        → ((path : String)
            → IsOlder names (n + length metas) path
            → read_file path files' ≡ read_file path files)
        → AreMade files metas blocks
        → AreMade files' metas blocks
    AreMade-kept files files' n [] [] numbered kept h = tt
    AreMade-kept files files' n [] (block ∷ blocks) numbered kept h = absurd h
    AreMade-kept files files' n (meta ∷ metas) [] numbered kept h = absurd h
    AreMade-kept files files' n (meta ∷ metas) (block ∷ blocks) numbered kept h = (
      IsMade-kept files files' (n + length (meta ∷ metas)) meta block (omega (arith, numbered.0))
          kept h.0,
      AreMade-kept files files' (suc n) metas blocks numbered.1
          (λ path older. kept path (
            IsOlder-le names (suc n + length metas) (n + length (meta ∷ metas)) path (omega arith)
              older))
          h.1,
    )
