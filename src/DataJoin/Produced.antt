-- ===== src/DataJoin/Produced.antt =====
-- The blocks that the joining party sends, all the way into the buffer of the other's saver.
use n_mpc.Prelude.{
  refl, ℕ, zero, suc, ◌+◌, ◌<◌, ℤ, pos, ◌+ℤ◌, Bool, true, false, none, some, List, [], ◌∷◌, ◌++◌,
  ◌≡◌, ◌∙◌, ap, arith, append-nil, append_assoc,
}
use n_mpc.Prelude.Result.{ok, Result}
use n_mpc.DataJoin.Records.{DataBlockMeta}
use n_mpc.DataJoin.Files.{Names}
use n_mpc.DataJoin.BlockManager.{Manager, acquire_data_block_meta_by_index}
use n_mpc.DataJoin.Saved.{IsAtRest}
use n_mpc.DataJoin.Acquired.{Holds, acquire-Acquired, acquire-none}
use n_mpc.DataJoin.Saver.{Saver, append_data_items_from_producer, partition_syncer_to_consumer}
use n_mpc.DataJoin.BlockConsumer.{BlockConsumer, at_wrap, append_to_wrap}
use n_mpc.DataJoin.Manager.{
  Identity, data_block_meta, block_consumer, start_partition, sync_partition,
}
use n_mpc.DataJoin.BlockProducer.{
  Sender, get_next_data_block_meta, send_data_block_meta_to_consumer,
  sync_data_block_meta_sender_status, send_loop, send_executor, send_data_block_meta_processor,
}

-- `count` blocks from the index `k` on.
abbrev pub blocks_from : (ℕ → DataBlockMeta) → (k count : ℕ) → List DataBlockMeta
blocks_from blocks k zero = []
blocks_from blocks k (suc count) = blocks k ∷ blocks_from blocks (k + 1) count

-- A saver that waits for the block `k` with a given buffer.
abbrev pub waiting_for : Saver → List DataBlockMeta → ℕ → Saver
waiting_for s buffer k = record s { data_block_meta_buffer = buffer; next_data_block_index = k }

abbrev pub identity : (rank_id : ℤ) (partition_id : ℕ) → Identity
identity rank_id partition_id = record { rank_id = rank_id; partition_id = pos partition_id }

-- A sender whose manager has `n` blocks, and the saver of its peer.
module _ (names : Names) (n : ℕ) (blocks : ℕ → DataBlockMeta) (joined : Bool) (s : Saver) where
  abbrev pub sending : Manager → (buffer : List DataBlockMeta) (k : ℕ) → Sender BlockConsumer
  sending m buffer k = record {
    manager = m;
    is_data_joiner_finished = joined;
    next_data_block_index = pos k;
    data_block_producer_finished = false;
    peer = some (waiting_for s buffer k);
  }

  -- What sending comes to: the manager is at rest and has its files.
  pub record Sends {A : Type 0} (m : Manager) (answer : A) (received : List DataBlockMeta)
      (r : Result A × Sender BlockConsumer) : Type 0 where
    pub manager : Manager
    pub result : r ≡ (ok answer, sending manager received n)
    pub rest : IsAtRest names manager n
    pub files : manager.files ≡ m.files

  -- The saver is for the partition of the blocks and was not told of an end.
  module _ (rank_id : ℤ) (indexed : (k : ℕ) → k < n → (blocks k).data_block_index ≡ k)
      (of_partition : (k : ℕ) → k < n → (blocks k).partition_id ≡ s.partition_id)
      (going : s.send_data_block_meta_finish ≡ false) where
    abbrev pub id : Identity
    id = identity rank_id s.partition_id

    sync-known :
        (buffer : List DataBlockMeta) (k : ℕ)
        → k < n
        → sync_partition block_consumer id id
            (data_block_meta (blocks k))
            (some (waiting_for s buffer k))
          ≡ (ok (pos 0), some (waiting_for s (buffer ++ blocks k ∷ []) (k + 1)))
    unfolding sync_partition at_wrap append_to_wrap append_data_items_from_producer
    sync-known buffer k h = ground (arith, indexed k h, of_partition k h, going)

    get_next-known :
        (m m' : Manager) (buffer : List DataBlockMeta) (k : ℕ)
        → acquire_data_block_meta_by_index names (pos k) m ≡ (ok (some (blocks k)), m')
        → get_next_data_block_meta names block_consumer id id (sending m buffer k)
          ≡ (ok (joined, some (blocks k)), sending m' buffer k)
    unfolding get_next_data_block_meta
    get_next-known m m' buffer k acquired = ground (arith, acquired)

    get_next-none :
        (m : Manager) (buffer : List DataBlockMeta)
        → IsAtRest names m n
        → get_next_data_block_meta names block_consumer id id (sending m buffer n)
          ≡ (ok (joined, none), sending m buffer n)
    unfolding get_next_data_block_meta
    get_next-none m buffer rest = ground (arith, acquire-none names n blocks m rest)

    send-known :
        (m : Manager) (buffer : List DataBlockMeta) (k : ℕ)
        → k < n
        → send_data_block_meta_to_consumer names block_consumer id id
            (blocks k)
            (sending m buffer k)
          ≡ (
            ok tt,
            record (sending m buffer k) {
              peer = some (waiting_for s (buffer ++ blocks k ∷ []) (k + 1));
            },
          )
    unfolding send_data_block_meta_to_consumer
    send-known m buffer k h = ground (arith, sync-known buffer k h)

    send_loop-step :
        (m m' : Manager) (buffer : List DataBlockMeta) (k fuel : ℕ)
        → k < n
        → acquire_data_block_meta_by_index names (pos k) m ≡ (ok (some (blocks k)), m')
        → send_loop names block_consumer id id (suc fuel) (sending m buffer k)
          ≡ send_loop names block_consumer id id fuel (sending m' (buffer ++ blocks k ∷ []) (k + 1))
    unfolding send_loop ◌+ℤ◌
    send_loop-step m m' buffer k fuel h acquired =
        ground (arith, get_next-known m m' buffer k acquired, send-known m' buffer k h)

    send_loop-end :
        (m : Manager) (buffer : List DataBlockMeta) (fuel : ℕ)
        → IsAtRest names m n
        → send_loop names block_consumer id id (suc fuel) (sending m buffer n)
          ≡ (ok true, sending m buffer n)
    unfolding send_loop
    send_loop-end m buffer fuel rest = ground (arith, get_next-none m buffer rest)

    send_loop-sent :
        (count : ℕ) (m : Manager) (buffer : List DataBlockMeta) (k fuel : ℕ)
        → Holds names n blocks m k count
        → count < fuel
        → Sends m true
            (buffer ++ blocks_from blocks k count)
            (send_loop names block_consumer id id fuel (sending m buffer k))
    send_loop-sent count m buffer k zero holds h = absurd (omega arith)
    send_loop-sent zero m buffer k (suc fuel) holds h =
        let here : k ≡ n = omega (arith, holds.all) in
        record {
          manager = m;
          result = rw (here, append-nil buffer) (send_loop-end m buffer fuel holds.rest);
          rest = holds.rest;
          files = refl;
        }
    send_loop-sent (suc count) m buffer k (suc fuel) holds h =
        let a = acquire-Acquired names n blocks m k count holds in
        let later =
          send_loop-sent count a.manager (buffer ++ blocks k ∷ []) (k + 1) fuel a.holds
            (omega arith) in
        record {
          manager = later.manager;
          result =
              send_loop-step m a.manager buffer k fuel (omega (arith, holds.all)) a.acquired
              ∙ later.result
              ∙ ap (λ b. (ok true, sending later.manager b n))
                  (append_assoc buffer (blocks k ∷ []) (blocks_from blocks (k + 1) count));
          rest = later.rest;
          files = later.files ∙ a.files;
        }

    start-known :
        (buffer : List DataBlockMeta) (k : ℕ)
        → start_partition block_consumer id id (some (waiting_for s buffer k)) ≡ (
          ok (record { code = pos 0; next_index = pos k; finished = false }),
          some (waiting_for s buffer k),
        )
    unfolding start_partition at_wrap partition_syncer_to_consumer
    start-known buffer k = ground (arith, going)

    send_executor-eq :
        (m m' : Manager) (buffer received : List DataBlockMeta) (k fuel : ℕ) (i : ℤ)
        → send_loop names block_consumer id id fuel (sending m buffer k)
          ≡ (ok true, sending m' received n)
        → send_executor names block_consumer id id fuel
            (record (sending m buffer k) { next_data_block_index = i })
          ≡ (ok (some false), sending m' received n)
    unfolding send_executor sync_data_block_meta_sender_status
    send_executor-eq m m' buffer received k fuel i sent = ground (arith, start-known buffer k, sent)

    processor-eq :
        (m m' : Manager) (buffer received : List DataBlockMeta) (k fuel : ℕ) (i : ℤ)
        → send_loop names block_consumer id id fuel (sending m buffer k)
          ≡ (ok true, sending m' received n)
        → send_data_block_meta_processor names block_consumer id id fuel
            (record (sending m buffer k) { next_data_block_index = i })
          ≡ (ok true, sending m' received n)
    unfolding send_data_block_meta_processor
    processor-eq m m' buffer received k fuel i sent =
        ground (arith, send_executor-eq m m' buffer received k fuel i sent)

    -- The manager is at rest over `n` blocks, and the peer waits for block `k`. If each block from
    -- `k` on is in the manager's memory, or only in its file while the memory, of 1024 entries, has
    -- room for all that are to be sent, then one round of the sender, with fuel for one round of its
    -- loop more than there are blocks to send, brings the blocks from `k` on into the peer's buffer,
    -- in order, whatever index the sender had before. The manager is at rest after it, with its files
    -- as they were. Neither side is marked as finished, whether or not the joiner is.
    pub send_data_block_meta_processor-sent :
        (count : ℕ) (m : Manager) (buffer : List DataBlockMeta) (k fuel : ℕ) (i : ℤ)
        → Holds names n blocks m k count
        → count < fuel
        → Sends m true (buffer ++ blocks_from blocks k count) (
            send_data_block_meta_processor names block_consumer id id fuel
              (record (sending m buffer k) { next_data_block_index = i }))
    send_data_block_meta_processor-sent count m buffer k fuel i holds h =
        let sent = send_loop-sent count m buffer k fuel holds h in
        record {
          manager = sent.manager;
          result =
              processor-eq m sent.manager buffer (buffer ++ blocks_from blocks k count) k fuel i
                sent.result;
          rest = sent.rest;
          files = sent.files;
        }
