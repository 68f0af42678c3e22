-- ===== src/DataJoin/Pipeline.antt =====
-- The data join from the example ids of one party to the blocks of both, one step after the other:
-- the ids are sent (`send_example_id_processor`), joined (`data_joiner_algo`), the meta data of the
-- blocks goes back (`send_data_block_meta_processor`), and the first party makes the same blocks
-- (`data_block_consumer_processor`).
use n_mpc.Prelude.{
  ℕ, ◌+◌, ◌<◌, ◌≤◌, ℤ, ◌≡◌, refl, ap, sym, ◌∙◌, subst, false, true, none, some, List, [], ◌++◌, map,
  length, concat, arith, All, length-map, Bool, inl,
}
use n_mpc.Prelude.Result.{Result, ok, err, attribute_error}
use n_mpc.Prelude.Dict.{Dict, lookup}
use n_mpc.DataJoin.Records.{DataBlockMeta, Item, removed_items_nums_from_buffer}
use n_mpc.DataJoin.Files.{Names, AreApart}
use n_mpc.DataJoin.Saved.{IsAtRest}
use n_mpc.DataJoin.Blocks.{matched, ids_of, AreNumbered}
use n_mpc.DataJoin.Opened.{Joining}
use n_mpc.DataJoin.Yielded.{AreMade, remember}
use n_mpc.DataJoin.Joiner.{Joiner, data_joiner_algo}
use n_mpc.DataJoin.ExampleIds.{send_example_id_processor, new_consumer}
use n_mpc.DataJoin.Delivery.{send_example_id_processor-sent}
use n_mpc.DataJoin.Joins.{Joins, rounds_of, data_joiner_algo-Joins}
use n_mpc.DataJoin.Saver.{Saver, data_block_consumer_processor}
use n_mpc.DataJoin.BlockConsumer.{BlockConsumer}
use n_mpc.DataJoin.Manager.{block_consumer}
use n_mpc.DataJoin.BlockProducer.{Sender, send_data_block_meta_processor}
use n_mpc.DataJoin.Produced.{identity, waiting_for, send_data_block_meta_processor-sent}
use n_mpc.DataJoin.Indexed.{at_place, blocks_from-all, at_place-index, lookup-remember}
use n_mpc.DataJoin.Stored.{IsStored, Saves, data_block_consumer_processor-stored}
use n_mpc.DataJoin.Copies.{IsIn, All-concat, All-matched, CanBeMade-all, AreMade-partition}

module _ (joiner_names saver_names : Names) (threshold : ℕ) (joiner_dict saver_dict : Dict Item)
    (items : List Item) (j : Joiner) (s : Saver) (rank_id index : ℤ) where
  -- The joiner works off the batches that the other party has sent of its `items`.
  abbrev joined : Result (Unit {0}) × Joiner
  joined =
      data_joiner_algo joiner_names s.partition_id threshold joiner_dict
        (rounds_of
          (send_example_id_processor s.partition_id items
            (new_consumer s.partition_id)).1.appender.queue)
        j

  -- Then it sends the meta data of its blocks to the saver.
  abbrev sent : ℕ → Result Bool × Sender BlockConsumer
  sent fuel =
      let id = identity rank_id s.partition_id in
      send_data_block_meta_processor joiner_names block_consumer id id fuel (record {
        manager = joined.1.site.manager;
        is_data_joiner_finished = joined.1.data_joiner_finished;
        next_data_block_index = index;
        data_block_producer_finished = false;
        peer = some s;
      })

  -- Then the saver makes the blocks.
  abbrev stored : ℕ → Result (Unit {0}) × Saver
  stored fuel = elim (sent fuel).1.peer [
    | none ↦ (err attribute_error, s)
    | some s' ↦ data_block_consumer_processor saver_names saver_dict fuel s'
  ]

  -- Both parties have the same blocks of the examples that they share.
  pub record Aligned (fuel : ℕ) : Type 0 where
    pub joins : joined.0 ≡ ok tt
    pub sends : (sent fuel).0 ≡ ok true
    pub stores : (stored fuel).0 ≡ ok tt
    pub metas : List DataBlockMeta
    pub blocks : List (List Item)
    pub examples : concat blocks ≡ matched joiner_dict (ids_of items)
    pub yielded : joined.1.yielded ≡ map some metas
    pub numbered : AreNumbered 0 metas
    pub made : AreMade joiner_names s.partition_id joined.1.site.manager.files metas blocks
    pub copied : All (IsStored saver_names saver_dict (stored fuel).1.site.manager.files) metas
    pub none_waits : (stored fuel).1.data_block_meta_buffer ≡ []

  -- A party without blocks, on either side.
  pub record IsNew : Type 0 where
    pub joining : Joining joiner_names s.partition_id threshold j 0 []
    pub going : j.data_joiner_finished ≡ false
    pub none_yielded : j.yielded ≡ []
    pub no_buffer : j.site.manager.buffer ≡ []
    pub saves : Saves saver_names saver_dict s 0 []
    pub next : s.next_data_block_index ≡ 0
    pub unfinished : s.send_data_block_meta_finish ≡ false

  module _ (joiner_apart : AreApart joiner_names) (saver_apart : AreApart saver_names) (new : IsNew)
      (fuel : ℕ)
      (o : Joins joiner_names joiner_apart s.partition_id threshold joiner_dict j 0
        (matched joiner_dict (ids_of items))
        joined)
      (room : length o.metas ≤ removed_items_nums_from_buffer)
      (enough : length o.metas < fuel) where
    -- The saver when all the meta data has come.
    abbrev informed : Saver
    informed = waiting_for s o.metas (length o.metas)

    waiting-new : waiting_for s [] 0 ≡ s
    waiting-new =
        ap (λ b. waiting_for s b 0) (sym new.saves.waits)
        ∙ ap (λ k. waiting_for s s.data_block_meta_buffer k) (sym new.next)

    known :
        (k : ℕ)
        → k < length o.metas
        → lookup k joined.1.site.manager.buffer ≡ some (at_place o.metas k)
    known k lt =
        ap (λ d. lookup k d) (o.buffer ∙ ap (λ d. remember o.metas d) new.no_buffer)
        ∙ lookup-remember o.metas k o.numbered room lt

    sent-informed : ((sent fuel).0 ≡ ok true) × ((sent fuel).1.peer ≡ some informed)
    sent-informed =
        let m = joined.1.site.manager in
        let n = length o.metas in
        let same : 0 + n ≡ n = omega arith in
        let rest = subst (λ k. IsAtRest joiner_names m k) same o.joining.rest in
        let all =
          send_data_block_meta_processor-sent joiner_names n (at_place o.metas)
            joined.1.data_joiner_finished s rank_id
            (λ k lt. at_place-index o.metas 0 k o.numbered lt ∙ omega arith)
            (λ k lt.
              AreMade-partition joiner_names s.partition_id m.files o.metas o.blocks k o.made lt)
            new.unfinished n m [] 0 fuel index
            (record { rest = rest; all = same; known = λ k le lt. inl (known k lt) }) enough in
        let start =
          ap
            (λ s'.
              send_data_block_meta_processor joiner_names block_consumer
                (identity rank_id s.partition_id) (identity rank_id s.partition_id) fuel
                (record {
                  manager = m;
                  is_data_joiner_finished = joined.1.data_joiner_finished;
                  next_data_block_index = index;
                  data_block_producer_finished = false;
                  peer = some s';
                }))
            (sym waiting-new) in
        (
          ap (λ r. r.0) (start ∙ all.result),
          ap (λ r. r.1.peer) (start ∙ all.result)
              ∙ ap (λ l. some (waiting_for s l n)) (blocks_from-all o.metas),
        )

    informed-Saves :
        All (IsIn saver_dict) (ids_of items) → Saves saver_names saver_dict informed 0 o.metas
    informed-Saves there = record {
      rest = new.saves.rest;
      waits = refl;
      numbered = o.numbered;
      can =
          CanBeMade-all joiner_names s.partition_id saver_dict saver_names
            joined.1.site.manager.files o.metas o.blocks o.made
            (All-concat (λ (item : Item). IsIn saver_dict item.example_id) o.blocks
              (subst (λ l. All (λ (item : Item). IsIn saver_dict item.example_id) l) (sym o.joined)
                (All-matched (IsIn saver_dict) joiner_dict (ids_of items) there)));
    }

    stored-informed :
        stored fuel ≡ data_block_consumer_processor saver_names saver_dict fuel informed
    stored-informed =
        ap
          (λ peer. elim peer as (λ _. Result (Unit {0}) × Saver) [
            | none ↦ (err attribute_error, s)
            | some s' ↦ data_block_consumer_processor saver_names saver_dict fuel s'
          ])
          sent-informed.1

    Aligned-joined : All (IsIn saver_dict) (ids_of items) → Aligned fuel
    Aligned-joined there =
        let final =
          data_block_consumer_processor-stored saver_names saver_dict saver_apart o.metas fuel
            informed 0 (informed-Saves there) (omega arith) in
        record {
          joins = o.answer;
          sends = sent-informed.0;
          stores = ap (λ r. r.0) stored-informed ∙ final.answer;
          metas = o.metas;
          blocks = o.blocks;
          examples = o.joined;
          yielded = o.yielded ∙ ap (λ l. l ++ map some o.metas) new.none_yielded;
          numbered = o.numbered;
          made = o.made;
          copied =
              subst (λ r. All (IsStored saver_names saver_dict r.1.site.manager.files) o.metas)
                (sym stored-informed) final.stored;
          none_waits = ap (λ r. r.1.data_block_meta_buffer) stored-informed ∙ final.empty;
        }

  -- Two parties without blocks, of which the first has all of `items` in its raw data and sends
  -- their ids. The second joins them with its raw data and sends the meta data of its blocks, at
  -- most 1024, and the first makes them, one step after the other and with fuel for more rounds
  -- than there are blocks. Then no step raises, the blocks together are the examples of the second
  -- party that have the ids sent, in the order of the first, and each block has its two files at
  -- both parties: the same meta data but for the block id, and the records that the party has of
  -- the ids of the block, in the same order.
  pub data_join-Aligned :
      (fuel : ℕ)
      → AreApart joiner_names
      → AreApart saver_names
      → IsNew
      → All (IsIn saver_dict) (ids_of items)
      → length joined.1.yielded ≤ removed_items_nums_from_buffer
      → length joined.1.yielded < fuel
      → Aligned fuel
  data_join-Aligned fuel joiner_apart saver_apart new there room enough =
      let delivered = send_example_id_processor-sent s.partition_id items in
      let o =
        data_joiner_algo-Joins joiner_names joiner_apart s.partition_id threshold joiner_dict j 0 []
          delivered.1 new.joining new.going in
      let count : length joined.1.yielded ≡ length o.metas =
        ap (λ l. length l) (o.yielded ∙ ap (λ l. l ++ map some o.metas) new.none_yielded)
        ∙ length-map some o.metas in
      Aligned-joined joiner_apart saver_apart new fuel o (omega (arith, count, room))
        (omega (arith, count, enough)) there
