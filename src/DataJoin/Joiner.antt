-- ===== src/DataJoin/Joiner.antt =====
-- src/DataJoin/data_join/data_joiner_builder: `DataJoiner` and `MemoryDataJoiner`. The generator's
-- loop is a sequence of rounds, each with the message it finds in the queue, if any, and whether
-- the time span for a block is over by then. `last_finished` is the mark of the last message of
-- the run, which is a local name of the generator. What it yields is collected in order.
use n_mpc.Prelude.{
  ℕ, pos_part, Bool, true, false, ◌&&◌, Option, none, some, List, [], ◌∷◌, ◌++◌, length, ltb,
  if◌then◌else◌,
}
use n_mpc.Prelude.Result.{ok, name_error}
use n_mpc.Prelude.Dict.{Dict, lookup}
use n_mpc.Prelude.Method.{Method, pure, raise, gets, modify, ◌>>=◌, ◌>>◌}
use n_mpc.DataJoin.Records.{DataBlockMeta, Item, ExampleId, LiteExampleIds}
use n_mpc.DataJoin.Files.{Names}
use n_mpc.DataJoin.BlockManager.{acquire_produced_data_block_number}
use n_mpc.DataJoin.BlockMaker.{
  Maker, Site, new_maker, build_data_block_manager, set_restart_data_join_index, save,
  is_data_block_exceed_threshold, at_manager, data_block_finalizer,
}

pub record Joiner : Type 0 where
  pub site : Site
  pub maker : Option Maker
  pub data_joiner_finished : Bool
  pub last_finished : Option Bool
  pub yielded : List (Option DataBlockMeta)

-- A call at the joiner's site.
abbrev pub at_site : {A : Type 0} → Method Site A → Method Joiner A
at_site m j = let (r, site) = m j.site in (r, record j { site = site })

abbrev pub has_maker : Joiner → Bool
has_maker j = elim j.maker [ none ↦ false | some _ ↦ true ]

-- A joiner of one partition; `threshold` is `dump_data_block_threshold`.
module _ (names : Names) (partition_id threshold : ℕ) where
  -- The first half of `_acquire_data_block_maker(True)`, when there is no maker.
  unfoldable pub create_data_block_maker : Method Joiner Maker
  unfolding new_maker build_data_block_manager set_restart_data_join_index
  create_data_block_maker = do
    index ← at_site (at_manager (acquire_produced_data_block_number names))
    fresh ← at_site (new_maker partition_id (pos_part index) (some threshold))
    let maker = set_restart_data_join_index 0 (build_data_block_manager fresh)
    modify (λ j. record j { maker = some maker })
    pure maker

  unfoldable pub acquire_data_block_maker : Method Joiner Maker
  unfolding create_data_block_maker
  acquire_data_block_maker j = elim j.maker [
    | some maker ↦ (ok maker, j)
    | none ↦ create_data_block_maker j
  ]

  unfoldable pub data_join_finalizer : Bool → Method Joiner (Option DataBlockMeta)
  data_join_finalizer is_data_joiner_finished j = elim j.maker [
    | none ↦ (ok none, j)
    | some maker ↦
        ((do
          block ← at_site (data_block_finalizer names maker)
          modify (λ j. record j {
            data_joiner_finished = if is_data_joiner_finished then true else j.data_joiner_finished;
            maker = none;
          })
          pure block)
          j)
  ]

  -- `yield self._data_join_finalizer(finished)`
  unfoldable pub yield_block : Bool → Method Joiner (Unit {0})
  unfolding data_join_finalizer
  yield_block finished = do
    block ← data_join_finalizer finished
    modify (λ j. record j { yielded = j.yielded ++ block ∷ [] })

  module _ (item_dict : Dict Item) where
    -- One id of a message, whose `finished` is given.
    unfoldable pub join_example : Bool → ExampleId → Method Joiner (Unit {0})
    unfolding acquire_data_block_maker
    join_example finished example_id j = elim (lookup example_id item_dict) [
      | none ↦ (ok tt, j)
      | some item ↦
          ((do
            maker ← acquire_data_block_maker
            let saved = save item.data_record example_id item.event_time maker
            modify (λ j. record j { maker = some saved })
            if is_data_block_exceed_threshold saved then yield_block finished else pure tt)
            j)
    ]

    unfoldable pub join_examples : Bool → List ExampleId → Method Joiner (Unit {0})
    unfolding join_example
    join_examples finished [] = pure tt
    join_examples finished (example_id ∷ rest) = do
      join_example finished example_id
      join_examples finished rest

    -- A finished message closes the block that is open.
    unfoldable pub close_if_finished : Bool → Method Joiner (Unit {0})
    unfolding yield_block
    close_if_finished finished = do
      is_open ← gets has_maker
      if finished && is_open then yield_block finished else pure tt

    unfoldable pub join_message : LiteExampleIds → Method Joiner (Unit {0})
    unfolding join_examples close_if_finished
    join_message lite_example_ids = do
      modify (λ j. record j { last_finished = some lite_example_ids.finished })
      if ltb 0 (length lite_example_ids.example_id)
          then join_examples lite_example_ids.finished lite_example_ids.example_id
          else pure tt
      close_if_finished lite_example_ids.finished

    -- What closes a block when the time is over is the mark of the last message of this run, which
    -- is unbound before its first message: an UnboundLocalError, which is a NameError.
    unfoldable pub close_overdue : Option Bool → Method Joiner (Unit {0})
    unfolding yield_block
    close_overdue none = raise name_error
    close_overdue (some finished) = yield_block finished

    -- One round of the loop of `_data_joiner_algo`.
    unfoldable pub join_round : Option LiteExampleIds → Bool → Method Joiner (Unit {0})
    unfolding join_message close_overdue
    join_round message time_is_over = do
      elim message [ none ↦ pure tt | some lite_example_ids ↦ join_message lite_example_ids ]
      is_open ← gets has_maker
      last_finished ← gets (λ j. j.last_finished)
      if is_open && time_is_over then close_overdue last_finished else pure tt

    -- The rounds until the joiner has finished.
    unfoldable pub join_rounds : List (Option LiteExampleIds × Bool) → Method Joiner (Unit {0})
    unfolding join_round
    join_rounds [] = pure tt
    join_rounds ((message, time_is_over) ∷ rounds) = do
      done ← gets (λ j. j.data_joiner_finished)
      if done then pure tt else do join_round message time_is_over; join_rounds rounds

    -- A run of the generator, in which no message was seen yet.
    unfoldable pub data_joiner_algo : List (Option LiteExampleIds × Bool) → Method Joiner (Unit {0})
    unfolding join_rounds
    data_joiner_algo rounds = do modify (λ j. record j { last_finished = none }); join_rounds rounds
