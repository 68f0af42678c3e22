-- ===== src/DataJoin/Tests.antt =====
-- A small directory of blocks, with names told apart by their length.
use Prim.Native.String.{count, [] as empty_text, ◌∷◌ as ◌∷text◌}
use Prim.Native.String.count.{cons}
use n_mpc.Prelude.{
  true, ℤ, ℕ, zero, suc, ◌+◌, ◌*◌, ◌≡◌, refl, ap, pos, String, none, some, [], ◌∷◌, arith, sym, ◌∙◌,
  eq_iff,
}
use n_mpc.Prelude.Dict.{Dict}
use n_mpc.Prelude.Result.{ok, err, key_error}
use n_mpc.DataJoin.BlockMaker.{Maker, Site, save, data_block_finalizer}
use n_mpc.DataJoin.Made.{Holds, Spans, save_all, save_all-made}
use n_mpc.DataJoin.Finished.{finalizer-finished}
use n_mpc.DataJoin.Records.{Item, DataBlockMeta, removed_items_nums_from_buffer}
use n_mpc.DataJoin.Files.{read_file, records_content, Files, Names, AreApart, meta_content}
use n_mpc.DataJoin.BlockManager.{
  Manager, new_manager, acquire_produced_data_block_number, update_data_block_meta,
  acquire_data_block_meta_by_index,
}
use n_mpc.DataJoin.Saved.{AreSaved, IsAtRest, produced-new_manager, acquire-full_buffer}
use n_mpc.DataJoin.Update.{update-acquire}
use n_mpc.DataJoin.Restarted.{update-restarted}
use n_mpc.DataJoin.BlockMaker.{new_meta}

unfoldable pub unary : ℕ → String
unary zero = empty_text
unary (suc n) = "a" ∷text (unary n)

count-unary : (n : ℕ) → count (unary n) ≡ n
unfolding unary
count-unary zero = refl
count-unary (suc n) = cons "a" (unary n) ∙ ap suc (count-unary n)

abbrev pub names : Names
names = record {
  meta_path = λ i. unary (i * 3);
  data_path = λ m. unary (m.data_block_index * 3 + 1);
  tmp_path = λ i. unary (i * 3 + 2);
  block_id = λ m. "block";
}

unary-injective : (a b : ℕ) → unary a ≡ unary b → a ≡ b
unary-injective a b e = sym (count-unary a) ∙ ap count e ∙ count-unary b

pub names-AreApart : AreApart names
names-AreApart = record {
  meta_path-injective = λ i j e. omega (arith, unary-injective (i * 3) (j * 3) e);
  tmp_path-injective = λ i j e. omega (arith, unary-injective (i * 3 + 2) (j * 3 + 2) e);
  tmp-ne-meta = λ i j e. omega (arith, unary-injective (i * 3 + 2) (j * 3) e);
  data-ne-meta = λ m j e. omega (arith, unary-injective (m.data_block_index * 3 + 1) (j * 3) e);
  data-ne-tmp = λ m j e. omega (arith, unary-injective (m.data_block_index * 3 + 1) (j * 3 + 2) e);
  data_path-index = λ m m' e.
      omega (arith, unary-injective (m.data_block_index * 3 + 1) (m'.data_block_index * 3 + 1) e);
}

abbrev pub block : ℕ → DataBlockMeta
block i = new_meta 7 i

-- Block 0 is saved; a temporary file with the meta data of block 1 waits.
abbrev directory : Files
directory = (unary 0, meta_content (block 0)) ∷ (unary 5, meta_content (block 1)) ∷ []

directory-AreSaved : AreSaved names directory 1
directory-AreSaved i = ground (
  arith,
  eq_iff (unary 0) (unary (i * 3)),
  eq_iff (unary 5) (unary (i * 3)),
  unary-injective 0 (i * 3),
  unary-injective 5 (i * 3),
)

produced-new_manager_example :
    (acquire_produced_data_block_number names (new_manager directory)).0 ≡ ok (pos 1)
produced-new_manager_example =
    produced-new_manager names directory 1 directory-AreSaved (omega arith)

abbrev pub resting : Manager
resting = record { files = directory; buffer = []; saved = some (pos 0); saving = none }

pub resting-IsAtRest : IsAtRest names resting 1
resting-IsAtRest = record { saved = refl; saving = refl; files = directory-AreSaved }

-- Later blocks, under distinct indices.
abbrev later : ℕ → Dict DataBlockMeta
later zero = []
later (suc n) = (n + 2, block (n + 2)) ∷ later n

-- A buffer that holds as many of them as it may.
abbrev full : Manager
full = record resting { buffer = later removed_items_nums_from_buffer }

full-IsAtRest : IsAtRest names full 1
full-IsAtRest = record { saved = refl; saving = refl; files = directory-AreSaved }

acquire-full_buffer_example :
    (acquire_data_block_meta_by_index names (pos 0) full).0 ≡ err key_error
unfolding unary
acquire-full_buffer_example =
    acquire-full_buffer names full 1 0 (block 0) full-IsAtRest (omega arith) refl refl (omega arith)

update-acquire_example :
    ((update_data_block_meta names (unary 5) (block 1) resting).0 ≡ ok (unary 3))
    × IsAtRest names (update_data_block_meta names (unary 5) (block 1) resting).1 2
    × ((acquire_data_block_meta_by_index names
          (pos 1)
          (update_data_block_meta names (unary 5) (block 1) resting).1).0
        ≡ ok (some (block 1)))
unfolding unary
update-acquire_example =
    update-acquire names names-AreApart resting 1 1 (meta_content (block 1)) (block 1)
      resting-IsAtRest refl refl

update-restarted_example :
    ((acquire_produced_data_block_number names
        (new_manager (update_data_block_meta names (unary 5) (block 1) resting).1.files)).0
      ≡ ok (pos 2))
    × ((acquire_data_block_meta_by_index names
          (pos 1)
          (new_manager (update_data_block_meta names (unary 5) (block 1) resting).1.files)).0
        ≡ ok (some (block 1)))
unfolding unary
update-restarted_example =
    update-restarted names resting 1 1 (block 1) names-AreApart resting-IsAtRest refl refl
      (omega arith)

abbrev pub item : ℕ → ℤ → Item
item id time = record { example_id = id; event_time = time; data_record = id ∷ [] }

-- A maker for block 1, with the files beside it.
abbrev maker : Maker
maker = record {
  meta = block 1;
  managed = true;
  saved_example_num = 0;
  example_num_threshold = none;
  tmp_file = 2;
  written = [];
}

maker-Holds : Holds maker []
maker-Holds = record { count = refl; ids = refl; records = refl }

save_all-made_example :
    Holds
      (save_all (item 4 (pos 30) ∷ item 5 (pos 10) ∷ []) maker)
      (item 4 (pos 30) ∷ item 5 (pos 10) ∷ [])
    × Spans (pos 10) (pos 30) (item 4 (pos 30) ∷ item 5 (pos 10) ∷ [])
unfolding save
save_all-made_example = save_all-made (item 4 (pos 30)) (item 5 (pos 10) ∷ []) maker maker-Holds

abbrev made : Maker
made = record maker {
  meta = record (block 1) { example_ids = 4 ∷ 5 ∷ []; start_time = pos 10; end_time = pos 30 };
  saved_example_num = 2;
  written = (4 ∷ []) ∷ (5 ∷ []) ∷ [];
}

abbrev pub site : Site
site = record { manager = resting; next_tmp = 3 }

abbrev closed_meta : DataBlockMeta
closed_meta = record made.meta { block_id = "block" }

finalizer-finished_example :
    ((data_block_finalizer names made site).0 ≡ ok (some closed_meta))
    × IsAtRest names (data_block_finalizer names made site).1.manager 2
    × (read_file (unary 4) (data_block_finalizer names made site).1.manager.files
        ≡ some (records_content ((4 ∷ []) ∷ (5 ∷ []) ∷ [])))
    × ((acquire_data_block_meta_by_index names
          (pos 1)
          (data_block_finalizer names made site).1.manager).0
        ≡ ok (some closed_meta))
finalizer-finished_example =
    finalizer-finished names names-AreApart site made 1 resting-IsAtRest refl refl refl
      (omega arith)
