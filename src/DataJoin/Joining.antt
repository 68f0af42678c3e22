-- ===== src/DataJoin/Joining.antt =====
-- The joiner against its specification: what has come of a run, and the block it yields.
use n_mpc.Prelude.{
  String, ℕ, ◌+◌, ◌<◌, ◌≡◌, refl, sym, ap, ◌∙◌, subst, Bool, true, ◌&&◌, Option, none, some, List,
  [], ◌∷◌, ◌++◌, map, length, ltb, if◌then◌else◌, arith, length-append, length-map, append_assoc,
  append-nil, map-append,
}
use n_mpc.Prelude.Result.{Result, ok}
use n_mpc.DataJoin.Opened.{Fits, Joining}
use n_mpc.DataJoin.Yielded.{
  AreMade, AreMade-length, AreMade-append, AreMade-kept, remember, remember-append,
}
use n_mpc.DataJoin.Older.{IsOlder, IsOlder-le}
use n_mpc.DataJoin.BlockManager.{pop_to}
use n_mpc.Prelude.Dict.{insert}
use n_mpc.DataJoin.Records.{removed_items_nums_from_buffer, DataBlockMeta, Item}
use n_mpc.DataJoin.Files.{Names, AreApart, read_file, records_content}
use n_mpc.DataJoin.BlockMaker.{Maker, data_block_finalizer}
use n_mpc.DataJoin.Saved.{IsAtRest}
use n_mpc.DataJoin.Finished.{finalizer-finished, finalizer-files, finalizer-buffer}
use n_mpc.DataJoin.Joiner.{Joiner, yield_block}
use n_mpc.DataJoin.Blocks.{AreNumbered-append, AreNumbered}

module _ (names : Names) (partition_id threshold : ℕ) where
  -- What a run from `j` has come to: it has not raised, it has yielded these blocks, numbered
  -- consecutively, with their files beside those there were, and it has finished if it was told so
  -- and yielded a block.
  pub record Outcome (finished : Bool) (j : Joiner) (n : ℕ) (blocks : List (List Item))
      (pending : List Item) (r : Result (Unit {0}) × Joiner) : Type 0 where
    pub answer : r.0 ≡ ok tt
    pub joining : Joining names partition_id threshold r.1 (n + length blocks) pending
    pub metas : List DataBlockMeta
    pub yielded : r.1.yielded ≡ j.yielded ++ map some metas
    pub made : AreMade names partition_id r.1.site.manager.files metas blocks
    pub numbered : AreNumbered n metas
    pub kept :
        (path : String)
        → IsOlder names n path
        → read_file path r.1.site.manager.files ≡ read_file path j.site.manager.files
    pub buffer : r.1.site.manager.buffer ≡ remember metas j.site.manager.buffer
    pub done :
        r.1.data_joiner_finished
        ≡ (if finished && ltb 0 (length blocks) then true else j.data_joiner_finished)

  yield_block-eq :
      (finished : Bool) (j : Joiner) (maker : Maker) (block : Option DataBlockMeta)
      → j.maker ≡ some maker
      → (data_block_finalizer names maker j.site).0 ≡ ok block
      → yield_block names partition_id threshold finished j ≡ (
        ok tt,
        record {
          site = (data_block_finalizer names maker j.site).1;
          maker = none;
          data_joiner_finished = if finished then true else j.data_joiner_finished;
          last_finished = j.last_finished;
          yielded = j.yielded ++ block ∷ [];
        },
      )
  unfolding yield_block
  yield_block-eq finished j maker block e answer = ground (arith, e, answer)

  module _ (apart : AreApart names) where
    -- The block that is open is yielded.
    pub yield_block-Outcome :
        (finished : Bool) (j : Joiner) (n : ℕ) (pending : List Item) (maker : Maker)
        → IsAtRest names j.site.manager n
        → j.maker ≡ some maker
        → Fits partition_id threshold n pending maker
        → 0 < length pending
        → Outcome finished j n
            (pending ∷ [])
            []
            (yield_block names partition_id threshold finished j)
    yield_block-Outcome finished j n pending maker rest e fits some_ids =
        let count : maker.saved_example_num ≡ length maker.meta.example_ids =
          rw (fits.held.ids, length-map (λ (item : Item). item.example_id) pending)
            fits.held.count in
        let positive : 0 < length maker.meta.example_ids = omega (arith, count, fits.held.count) in
        let closed =
          finalizer-finished names apart j.site maker n rest fits.managed fits.index count
            positive in
        let files =
          finalizer-files names apart j.site maker n rest fits.managed fits.index count positive in
        let meta = record maker.meta { block_id = names.block_id maker.meta } in
        let final = (data_block_finalizer names maker j.site).1.manager in
        rw (yield_block-eq finished j maker (some meta) e closed.0) (record {
          answer = refl;
          joining = record { rest = closed.1; opened = refl };
          metas = meta ∷ [];
          yielded = refl;
          made = (
            record {
              own = fits.own;
              filled = some_ids;
              ids = fits.held.ids;
              saved = ap (λ k. read_file (names.meta_path k) final.files) fits.index ∙ files.0;
              written = closed.2 ∙ ap (λ l. some (records_content l)) fits.held.records;
            },
            tt,
          );
          numbered = (fits.index, tt);
          kept = λ path older.
              files.1 path older.no_tmp (older.no_data meta (omega (arith, fits.index)))
                (older.no_meta n (omega arith));
          buffer =
              finalizer-buffer names apart j.site maker n rest fits.managed fits.index count
                positive
              ∙ ap
                  (λ k. insert k meta (
                    pop_to removed_items_nums_from_buffer (length j.site.manager.buffer)
                      j.site.manager.buffer))
                  (sym fits.index);
          done = ground arith;
        })

    -- No block yet, nothing changed.
    pub pure-Outcome :
        (finished : Bool) (j : Joiner) (n : ℕ) (pending : List Item)
        → Joining names partition_id threshold j n pending
        → Outcome finished j n [] pending (ok tt, j)
    pure-Outcome finished j n pending h = record {
      answer = refl;
      joining =
          let same : n ≡ n + length {A = List Item} [] = omega arith in
          subst (λ k. Joining names partition_id threshold j k pending) same h;
      metas = [];
      yielded = sym (append-nil j.yielded);
      made = tt;
      numbered = tt;
      kept = λ path older. refl;
      buffer = refl;
      done = ground arith;
    }

    -- One run after another.
    pub Outcome-append :
        (finished : Bool) (j : Joiner) (n : ℕ) (blocks more : List (List Item))
        (pending left : List Item) (r r' : Result (Unit {0}) × Joiner)
        → Outcome finished j n blocks pending r
        → Outcome finished r.1 (n + length blocks) more left r'
        → Outcome finished j n (blocks ++ more) left r'
    Outcome-append finished j n blocks more pending left r r' a b =
        let files = r.1.site.manager.files in
        let files' = r'.1.site.manager.files in
        let count : length a.metas ≡ length blocks =
          AreMade-length names partition_id files a.metas blocks a.made in
        record {
          answer = b.answer;
          joining =
              let same : n + length blocks + length more ≡ n + length (blocks ++ more) =
                omega (arith, length-append blocks more) in
              subst (λ k. Joining names partition_id threshold r'.1 k left) same b.joining;
          metas = a.metas ++ b.metas;
          yielded =
              b.yielded
              ∙ ap (λ l. l ++ map some b.metas) a.yielded
              ∙ append_assoc j.yielded (map some a.metas) (map some b.metas)
              ∙ ap (λ l. j.yielded ++ l) (sym (map-append some a.metas b.metas));
          made =
              AreMade-append names partition_id files' a.metas b.metas blocks more
                (AreMade-kept names partition_id apart files files' n a.metas blocks a.numbered
                  (λ path older. b.kept path (subst (λ k. IsOlder names (n + k) path) count older))
                  a.made)
                b.made;
          numbered =
              AreNumbered-append n a.metas b.metas a.numbered
                (subst (λ k. AreNumbered (n + k) b.metas) (sym count) b.numbered);
          kept = λ path older.
              b.kept path (IsOlder-le names n (n + length blocks) path (omega arith) older)
              ∙ a.kept path older;
          buffer =
              b.buffer
              ∙ ap (λ d. remember b.metas d) a.buffer
              ∙ sym (remember-append a.metas b.metas j.site.manager.buffer);
          done = ground (arith, a.done, b.done, length-append blocks more);
        }
