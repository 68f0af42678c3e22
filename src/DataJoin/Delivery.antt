-- ===== src/DataJoin/Delivery.antt =====
-- What comes of the example ids that are sent: the queue of the consumer, and the blocks of the
-- joiner.
use n_mpc.Prelude.{
  eq_of_parts, +ℤ_parts, -ℤ_parts, pos_part, neg_part, ◌≤◌, ◌<◌, ℕ, suc, ◌+◌, ◌≡◌, refl, sym, ap,
  ◌∙◌, subst, ℤ, pos, ◌+ℤ◌, ◌-ℤ◌, true, false, not, some, List, [], ◌∷◌, ◌++◌, length, ltb, arith,
  append_assoc, append-nil, length-append, length-map, inl, inr, Bool-cases, All,
}
use n_mpc.Prelude.Result.{Result, ok}
use n_mpc.DataJoin.Records.{Item, LiteExampleIds, sync_example_id_nums}
use n_mpc.DataJoin.ExampleIds.{
  Consumer, Appender, new_consumer, new_batch, sent_batches, deliver, send_example_id_processor,
  need_append_into_queue,
}

-- A stream of batches of one partition: all ids in order, and the last batch alone is marked. Every
-- other batch has as many ids as are sent at once, and one more.
pub data Batches (partition_id : ℕ) : List Item → List LiteExampleIds → Type 0 where
  last_batch :
      (items : List Item) → Batches partition_id items (new_batch partition_id true items ∷ [])
  full_batch :
      (items : List Item) {rest : List Item} {batches : List LiteExampleIds}
      → length items ≡ suc sync_example_id_nums
      → Batches partition_id rest batches
      → Batches partition_id (items ++ rest) (new_batch partition_id false items ∷ batches)

pub sent_batches-Batches :
    (partition_id : ℕ) (examples_list items : List Item)
    → length examples_list ≤ sync_example_id_nums
    → Batches partition_id (examples_list ++ items) (sent_batches partition_id examples_list items)
unfolding sent_batches
sent_batches-Batches partition_id examples_list [] h =
    subst (λ l. Batches partition_id l (new_batch partition_id true examples_list ∷ []))
      (sym (append-nil examples_list)) (last_batch examples_list)
sent_batches-Batches partition_id examples_list (example ∷ rest) h =
    let longer = examples_list ++ example ∷ [] in
    let size = length-append examples_list (example ∷ []) in
    elim (Bool-cases (ltb sync_example_id_nums (length longer))) [
      | inl over ↦ rw over (
          subst
            (λ l.
              Batches partition_id l
                (new_batch partition_id false longer ∷ sent_batches partition_id [] rest))
            (append_assoc examples_list (example ∷ []) rest)
            (full_batch longer (ground (arith, size, over))
              (sent_batches-Batches partition_id [] rest (ground arith))))
      | inr under ↦ rw under (
          subst (λ l. Batches partition_id l (sent_batches partition_id longer rest))
            (append_assoc examples_list (example ∷ []) rest)
            (sent_batches-Batches partition_id longer rest (ground (arith, size, under))))
    ]

ids_in : List LiteExampleIds → ℕ
ids_in [] = 0
ids_in (batch ∷ batches) = length batch.example_id + ids_in batches

Batches-partition :
    (partition_id : ℕ) {items : List Item} {batches : List LiteExampleIds}
    → Batches partition_id items batches
    → All (λ batch. batch.partition_id ≡ partition_id) batches
      × (ids_in batches ≡ length items)
      × (0 < length batches)
unfolding ids_in
Batches-partition partition_id (last_batch items) =
    ((refl, tt), omega (arith, length-map (λ (item : Item). item.example_id) items), omega arith)
Batches-partition partition_id (full_batch items {rest = rest} full tail) =
    let ih = Batches-partition partition_id tail in
    (
      (refl, ih.0),
      omega (
        arith,
        ih.1,
        length-append items rest,
        length-map (λ (item : Item). item.example_id) items,
      ),
      omega arith,
    )

zero_add : (k : ℕ) → pos 0 +ℤ pos k ≡ pos k
unfolding ◌+ℤ◌
zero_add k = ground arith

index-step :
    (x y : ℤ) (k a b : ℕ)
    → x +ℤ pos k ≡ y +ℤ (pos a -ℤ pos 1) +ℤ pos b
    → x +ℤ pos (suc k) ≡ y +ℤ pos (a + b)
index-step x y k a b h = eq_of_parts (x +ℤ pos (suc k)) (y +ℤ pos (a + b)) (
    omega (
      arith,
      ap pos_part h,
      ap neg_part h,
      +ℤ_parts x (pos k),
      +ℤ_parts x (pos (suc k)),
      +ℤ_parts y (pos (a + b)),
      +ℤ_parts (y +ℤ (pos a -ℤ pos 1)) (pos b),
      +ℤ_parts y (pos a -ℤ pos 1),
      -ℤ_parts (pos a) (pos 1),
    ))

-- What a consumer has taken.
record Taken (c : Consumer) (batches : List LiteExampleIds) (r : Result (Unit {0}) × Consumer)
    : Type 0 where
  answer : r.0 ≡ ok tt
  partition : r.1.partition_id ≡ c.partition_id
  queue : r.1.appender.queue ≡ c.appender.queue ++ batches
  index :
      r.1.appender.next_example_index +ℤ pos (length batches)
      ≡ c.appender.next_example_index +ℤ pos (ids_in batches)
  finished : r.1.appender.send_example_finished ≡ c.appender.send_example_finished

abbrev with_batch : Consumer → LiteExampleIds → Consumer
with_batch c batch = record c {
  appender = record c.appender {
    next_example_index = c.appender.next_example_index +ℤ (pos (length batch.example_id) -ℤ pos 1);
    queue = c.appender.queue ++ batch ∷ [];
  };
}

deliver-cons :
    (partition_id : ℕ) (c : Consumer) (batch : LiteExampleIds) (batches : List LiteExampleIds)
    → c.partition_id ≡ some partition_id
    → c.appender.partition_id ≡ partition_id
    → batch.partition_id ≡ partition_id
    → deliver (batch ∷ batches) c ≡ deliver batches (with_batch c batch)
unfolding deliver
deliver-cons partition_id c batch batches own appending same = ground (arith, own, appending, same)

deliver-Taken :
    (partition_id : ℕ) (batches : List LiteExampleIds) (c : Consumer)
    → c.partition_id ≡ some partition_id
    → c.appender.partition_id ≡ partition_id
    → All (λ batch. batch.partition_id ≡ partition_id) batches
    → Taken c batches (deliver batches c)
unfolding deliver ids_in
deliver-Taken partition_id [] c own appending same = record {
  answer = refl;
  partition = refl;
  queue = sym (append-nil c.appender.queue);
  index = refl;
  finished = refl;
}
deliver-Taken partition_id (batch ∷ batches) c own appending same =
    let ih = deliver-Taken partition_id batches (with_batch c batch) own appending same.1 in
    rw (deliver-cons partition_id c batch batches own appending same.0) (record {
      answer = ih.answer;
      partition = ih.partition;
      queue = ih.queue ∙ append_assoc c.appender.queue (batch ∷ []) batches;
      index =
          index-step (deliver batches (with_batch c batch)).1.appender.next_example_index
            c.appender.next_example_index (length batches) (length batch.example_id)
            (ids_in batches) ih.index;
      finished = ih.finished;
    })

queue-nonempty :
    (a : Appender) (batches : List LiteExampleIds)
    → a.queue ≡ batches
    → 0 < length batches
    → need_append_into_queue a ≡ true
queue-nonempty a [] e h = absurd (omega arith)
queue-nonempty a (batch ∷ batches) e h = ground (arith, e)

send_example_id_processor-eq :
    (partition_id : ℕ) (items : List Item) (r : Result (Unit {0}) × Consumer)
    → deliver (sent_batches partition_id [] items) (new_consumer partition_id) ≡ r
    → r.0 ≡ ok tt
    → r.1.partition_id ≡ some partition_id
    → send_example_id_processor partition_id items (new_consumer partition_id) ≡ (
        let appender = record r.1.appender { send_example_finished = true } in
        (ok (not (need_append_into_queue r.1.appender)), record r.1 { appender = appender }))
unfolding send_example_id_processor
send_example_id_processor-eq partition_id items r e answer own = ground (arith, e, answer, own)

-- A new consumer takes all the batches of the raw data in order, has then been told that they have
-- ended, and says that it still has to work on them. Its index is short of the number of ids by the
-- number of the batches.
pub send_example_id_processor-sent :
    (partition_id : ℕ) (items : List Item)
    → let r = send_example_id_processor partition_id items (new_consumer partition_id) in
      (r.0 ≡ ok false)
      × Batches partition_id items r.1.appender.queue
      × (r.1.appender.send_example_finished ≡ true)
      × (r.1.appender.next_example_index +ℤ pos (length r.1.appender.queue) ≡ pos (length items))
send_example_id_processor-sent partition_id items =
    let batches = sent_batches partition_id [] items in
    let sent = sent_batches-Batches partition_id [] items (ground arith) in
    let facts = Batches-partition partition_id sent in
    let r = deliver batches (new_consumer partition_id) in
    let taken = deliver-Taken partition_id batches (new_consumer partition_id) refl refl facts.0 in
    let waits = queue-nonempty r.1.appender batches taken.queue facts.2 in
    rw (send_example_id_processor-eq partition_id items r refl taken.answer taken.partition) (
      rw waits refl,
      subst (Batches partition_id items) (sym taken.queue) sent,
      refl,
      rw taken.queue (taken.index ∙ ap (λ k. pos 0 +ℤ pos k) facts.1 ∙ zero_add (length items)),
    )
