-- ===== src/DataJoin/Saver.antt =====
-- src/DataJoin/data_join/data_block_saver.py and data_block_consumer.py: the party that saves the
-- blocks whose meta data the other has sent. The maker works on the very message that waits in the
-- buffer, so that the block id it sets shows there too. `traceback.print_exc` is given a text for
-- its limit: whatever is raised while a block is made comes out as a TypeError.
use n_mpc.Prelude.{
  pos_part, leb, ℕ, zero, suc, ◌+◌, Bool, true, false, not, Option, none, some, List, [], ◌∷◌, ◌++◌,
  ◌==◌, if◌then◌else◌,
}
use n_mpc.Prelude.Result.{Result, ok, err, assertion_error, runtime_error, type_error}
use n_mpc.Prelude.Dict.{Dict, lookup}
use n_mpc.Prelude.Method.{Method, pure, raise, gets, modify, ◌>>=◌, ◌>>◌}
use n_mpc.DataJoin.Records.{DataBlockMeta, Item, ExampleId}
use n_mpc.DataJoin.Files.{Names}
use n_mpc.DataJoin.BlockManager.{acquire_produced_data_block_number}
use n_mpc.DataJoin.BlockMaker.{
  at_manager, Maker, Site, new_maker, init_maker_by_input_meta, build_data_block_manager,
  save_data_record, data_block_finalizer,
}

pub record Saver : Type 0 where
  pub site : Site
  pub partition_id : ℕ
  pub send_data_block_meta_finish : Bool
  pub next_data_block_index : ℕ
  pub data_block_meta_buffer : List DataBlockMeta
  pub state_switch : Bool

unfoldable pub append_sent_data_block_meta_to_buffer : DataBlockMeta → Method Saver (Bool × ℕ)
append_sent_data_block_meta_to_buffer meta = do
  finished ← gets (λ s. s.send_data_block_meta_finish)
  if finished then raise runtime_error else pure tt
  next ← gets (λ s. s.next_data_block_index)
  if next == meta.data_block_index
      then (do
        modify (λ s. record s {
          data_block_meta_buffer = s.data_block_meta_buffer ++ meta ∷ [];
          next_data_block_index = s.next_data_block_index + 1;
        })
        pure (true, next + 1))
      else pure (false, next)

unfoldable pub finish_sent_data_block_meta : Method Saver (Unit {0})
finish_sent_data_block_meta = modify (λ s. record s { send_data_block_meta_finish = true })

abbrev pub is_need_save : Saver → Bool
is_need_save s = elim s.data_block_meta_buffer [ [] ↦ false | _ ∷ _ ↦ true ]

-- The consumer's guard on the partition.
unfoldable pub is_synced_partition : ℕ → Method Saver (Unit {0})
is_synced_partition partition_id = do
  own ← gets (λ s. s.partition_id)
  if partition_id == own then pure tt else raise runtime_error

-- `none` stands for a request without meta data.
unfoldable pub append_data_items_from_producer : Option DataBlockMeta → Method Saver (Bool × ℕ)
unfolding is_synced_partition append_sent_data_block_meta_to_buffer
append_data_items_from_producer none = raise assertion_error
append_data_items_from_producer (some meta) = do
  is_synced_partition meta.partition_id
  append_sent_data_block_meta_to_buffer meta

unfoldable pub finish_partition_transmit : ℕ → Method Saver Bool
unfolding is_synced_partition finish_sent_data_block_meta
finish_partition_transmit partition_id = do
  is_synced_partition partition_id
  finish_sent_data_block_meta
  gets (λ s. not (is_need_save s))

unfoldable pub partition_syncer_to_consumer : ℕ → Method Saver (ℕ × Bool)
unfolding is_synced_partition
partition_syncer_to_consumer partition_id = do
  is_synced_partition partition_id
  gets (λ s. (s.next_data_block_index, s.send_data_block_meta_finish))

-- The loop over the ids of a block.
unfoldable pub save_records : Dict Item → List ExampleId → Maker → Maker
save_records item_dict [] maker = maker
save_records item_dict (example_id ∷ rest) maker = elim (lookup example_id item_dict) [
  | none ↦ save_records item_dict rest maker
  | some item ↦ save_records item_dict rest (save_data_record item.data_record maker)
]

abbrev pub at_site : {A : Type 0} → Method Site A → Method Saver A
at_site m s = let (r, site) = m s.site in (r, record s { site = site })

-- The maker of a block, with its manager and the message.
abbrev pub input_maker : DataBlockMeta → Maker → Maker
input_maker meta fresh = build_data_block_manager (init_maker_by_input_meta meta fresh)

unfoldable pub drop_saved : ℕ → List DataBlockMeta → List DataBlockMeta
drop_saved next [] = []
drop_saved next (meta ∷ rest) =
    let fewer = drop_saved next rest in
    if leb next meta.data_block_index then meta ∷ rest else fewer

module _ (names : Names) (item_dict : Dict Item) where
  -- The body of `with self._build_data_block_maker(meta)`.
  unfoldable pub make_block : DataBlockMeta → Method Saver (Unit {0})
  unfolding save_records new_maker init_maker_by_input_meta build_data_block_manager
  make_block meta = do
    fresh ← at_site (new_maker meta.partition_id meta.data_block_index none)
    block ← at_site (
        data_block_finalizer names
          (save_records item_dict meta.example_ids (input_maker meta fresh)))
    elim block [
      | none ↦ raise assertion_error
      | some made ↦ modify (λ s. record s {
        data_block_meta_buffer = elim s.data_block_meta_buffer [ [] ↦ [] | _ ∷ rest ↦ rest ];
      })
    ]

  -- `_save_data_block_with_meta`
  unfoldable pub save_data_block_with_meta : DataBlockMeta → Method Saver (Unit {0})
  unfolding make_block
  save_data_block_with_meta meta s =
      let (r, s') = make_block meta s in
      if s.partition_id == meta.partition_id
      then (elim r [ ok _ ↦ (ok tt, s') | err _ ↦ (err type_error, s') ])
      else (err assertion_error, s)

  -- `_save_data_blocks`, on fuel for its rounds.
  unfoldable pub save_data_blocks : ℕ → Method Saver (Unit {0})
  unfolding save_data_block_with_meta
  save_data_blocks zero s = (ok tt, s)
  save_data_blocks (suc fuel) s = elim s.data_block_meta_buffer [
    | [] ↦ (ok tt, s)
    | meta ∷ _ ↦ (save_data_block_with_meta meta >> save_data_blocks fuel) s
  ]

  -- `_remove_saved_data_block_meta_from_buffer`: the blocks below the next index are there already.
  unfoldable pub remove_saved_data_block_meta_from_buffer : Method Saver (Unit {0})
  unfolding drop_saved
  remove_saved_data_block_meta_from_buffer = do
    next ← at_site (at_manager (acquire_produced_data_block_number names))
    modify (λ s. record s {
      data_block_meta_buffer = drop_saved (pos_part next) s.data_block_meta_buffer;
    })

  -- `with build_data_block_saver() as saver: saver()`. The switch stays on after an exception.
  unfoldable pub data_block_consumer_processor : ℕ → Method Saver (Unit {0})
  unfolding remove_saved_data_block_meta_from_buffer save_data_blocks
  data_block_consumer_processor fuel = do
    switched ← gets (λ s. s.state_switch)
    if switched then remove_saved_data_block_meta_from_buffer else pure tt
    modify (λ s. record s { state_switch = true })
    save_data_blocks fuel
    modify (λ s. record s { state_switch = false })

  -- `DataBlockSaver.__init__`
  unfoldable pub new_saver : ℕ → Site → Result Saver
  new_saver partition_id site =
      elim (at_manager (acquire_produced_data_block_number names) site).0 [
        | err e ↦ err e
        | ok next ↦ ok (record {
          site = (at_manager (acquire_produced_data_block_number names) site).1;
          partition_id = partition_id;
          send_data_block_meta_finish = false;
          next_data_block_index = pos_part next;
          data_block_meta_buffer = [];
          state_switch = false;
        })
      ]
