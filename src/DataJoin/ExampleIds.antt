-- ===== src/DataJoin/ExampleIds.antt =====
-- The way of the example ids from one party to the other:
-- src/DataJoin/data_join/example_id_producer.py sends them in batches, example_id_consumer.py and
-- example_id_appender.py put these into the queue of the joiner. The calls over gRPC are calls of
-- the consumer's methods.
use n_mpc.Prelude.{
  ℕ, ℤ, pos, ◌+ℤ◌, ◌-ℤ◌, Bool, true, false, not, Option, none, some, List, [], ◌∷◌, ◌++◌, map,
  length, ltb, ◌==◌, if◌then◌else◌,
}
use n_mpc.Prelude.Result.{assertion_error, runtime_error}
use n_mpc.Prelude.Method.{Method, pure, raise, gets, modify, ◌>>=◌, ◌>>◌}
use n_mpc.DataJoin.Records.{Item, LiteExampleIds, sync_example_id_nums}

-- `AppendExamplesManager`
pub record Appender : Type 0 where
  pub queue : List LiteExampleIds
  pub partition_id : ℕ
  pub send_example_finished : Bool
  pub next_example_index : ℤ

abbrev pub new_appender : ℕ → Appender
new_appender partition_id = record {
  queue = [];
  partition_id = partition_id;
  send_example_finished = false;
  next_example_index = pos 0;
}

unfoldable pub append_batch_examples_into_queue : LiteExampleIds → Method Appender (Unit {0})
append_batch_examples_into_queue batch = do
  expected ← gets (λ a. a.partition_id)
  if batch.partition_id == expected then pure tt else raise assertion_error
  modify (λ a. record a {
    next_example_index = a.next_example_index +ℤ (pos (length batch.example_id) -ℤ pos 1);
    queue = a.queue ++ batch ∷ [];
  })

abbrev pub need_append_into_queue : Appender → Bool
need_append_into_queue a = elim a.queue [ [] ↦ false | _ ∷ _ ↦ true ]

-- `ExampleIdConsumer`
pub record Consumer : Type 0 where
  pub partition_id : Option ℕ
  pub appender : Appender

abbrev pub new_consumer : ℕ → Consumer
new_consumer partition_id = record {
  partition_id = some partition_id;
  appender = new_appender partition_id;
}

abbrev pub at_appender : {A : Type 0} → Method Appender A → Method Consumer A
at_appender m c = let (r, appender) = m c.appender in (r, record c { appender = appender })

-- `_is_synced_partition`
unfoldable pub is_synced_partition : ℕ → Method Consumer (Unit {0})
is_synced_partition partition_id = do
  own ← gets (λ c. c.partition_id)
  elim own [
    | none ↦ raise runtime_error
    | some p ↦ if p == partition_id then pure tt else raise runtime_error
  ]

unfoldable pub partition_syncer_to_consumer : ℕ → Method Consumer (ℤ × Bool)
unfolding is_synced_partition
partition_syncer_to_consumer partition_id = do
  is_synced_partition partition_id
  gets (λ c. (c.appender.next_example_index, c.appender.send_example_finished))

unfoldable pub reset_consumer_wrap : ℕ → Method Consumer (Unit {0})
unfolding is_synced_partition
reset_consumer_wrap partition_id = do
  is_synced_partition partition_id
  finished ← gets (λ c. c.appender.send_example_finished)
  waiting ← gets (λ c. need_append_into_queue c.appender)
  if not finished then raise runtime_error else if waiting then raise runtime_error else pure tt
  modify (λ c. record c { partition_id = none })

unfoldable pub fetch_partition_id : Method Consumer ℕ
fetch_partition_id = do
  own ← gets (λ c. c.partition_id)
  elim own [ none ↦ raise assertion_error | some p ↦ pure p ]

-- `none` stands for a request without example ids.
unfoldable pub append_data_items_from_producer : Option LiteExampleIds → Method Consumer (Bool × ℤ)
unfolding is_synced_partition append_batch_examples_into_queue
append_data_items_from_producer none = raise assertion_error
append_data_items_from_producer (some batch) = do
  is_synced_partition batch.partition_id
  at_appender (append_batch_examples_into_queue batch)
  gets (λ c. (true, c.appender.next_example_index))

unfoldable pub finish_partition_transmit : ℕ → Method Consumer Bool
unfolding is_synced_partition
finish_partition_transmit partition_id = do
  is_synced_partition partition_id
  modify (λ c. record c { appender = record c.appender { send_example_finished = true } })
  gets (λ c. not (need_append_into_queue c.appender))

-- The message of `_send_example_ids_to_consumer`.
abbrev pub new_batch : ℕ → Bool → List Item → LiteExampleIds
new_batch partition_id finished examples = record {
  partition_id = partition_id;
  begin_index = 0;
  finished = finished;
  example_id = map (λ example. example.example_id) examples;
  event_time = map (λ example. example.event_time) examples;
}

-- The messages that `sender` makes of the raw data, from a list with some examples on.
unfoldable pub sent_batches : ℕ → List Item → List Item → List LiteExampleIds
sent_batches partition_id examples_list [] = new_batch partition_id true examples_list ∷ []
sent_batches partition_id examples_list (example ∷ rest) =
    let longer = examples_list ++ example ∷ [] in
    let emptied = sent_batches partition_id [] rest in
    let kept = sent_batches partition_id longer rest in
    if ltb sync_example_id_nums (length longer)
    then new_batch partition_id false longer ∷ emptied
    else kept

unfoldable pub deliver : List LiteExampleIds → Method Consumer (Unit {0})
unfolding append_data_items_from_producer
deliver [] = pure tt
deliver (batch ∷ batches) = do
  accepted ← append_data_items_from_producer (some batch)
  deliver batches

-- `_send_example_id_processor` in its first round: whether the consumer has taken everything.
unfoldable pub send_example_id_processor : ℕ → List Item → Method Consumer Bool
unfolding sent_batches deliver partition_syncer_to_consumer finish_partition_transmit
send_example_id_processor partition_id items = do
  state ← partition_syncer_to_consumer partition_id
  if state.1
      then pure true
      else do deliver (sent_batches partition_id [] items); finish_partition_transmit partition_id
