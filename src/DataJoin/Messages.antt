-- ===== src/DataJoin/Messages.antt =====
-- The joiner against its specification: a whole message.
use n_mpc.Prelude.{
  ℕ, ◌+◌, ◌≡◌, refl, sym, ap, ◌∙◌, subst, Bool, true, ◌&&◌, some, List, [], ◌∷◌, ◌++◌, map, length,
  ltb, if◌then◌else◌, arith, inl, inr, Bool-cases, Option-cases, concat,
}
use n_mpc.Prelude.Result.{ok}
use n_mpc.Prelude.Dict.{Dict}
use n_mpc.DataJoin.Records.{DataBlockMeta, Item, LiteExampleIds}
use n_mpc.DataJoin.Files.{Names, AreApart}
use n_mpc.DataJoin.Yielded.{AreMade-length, AreMade-ids}
use n_mpc.DataJoin.Opened.{Joining, IsOpen}
use n_mpc.DataJoin.Joining.{Outcome, yield_block-Outcome, Outcome-append}
use n_mpc.DataJoin.Joined.{Outcome-from, join_examples-Outcome, join_examples_nil, has_maker-eq}
use n_mpc.DataJoin.Joiner.{
  Joiner, has_maker, yield_block, join_examples, close_if_finished, join_message,
}
use n_mpc.DataJoin.Blocks.{
  concat-ids_of, ids_of-append, concat-message_blocks, message_blocks, matched, ids_of, cut,
}

module _ (names : Names) (apart : AreApart names) (partition_id threshold : ℕ)
    (item_dict : Dict Item) where
  close_if_finished-eq :
      (finished : Bool) (j : Joiner)
      → close_if_finished names partition_id threshold item_dict finished j ≡ (
          if finished && has_maker j
          then yield_block names partition_id threshold finished j
          else (ok tt, j))
  unfolding close_if_finished
  close_if_finished-eq finished j = ground arith

  close-Outcome :
      (finished : Bool) (j : Joiner) (n : ℕ) (pending : List Item)
      → Joining names partition_id threshold j n pending
      → ltb 0 (length pending) ≡ true
      → Outcome names partition_id threshold finished j n
          (pending ∷ [])
          []
          (yield_block names partition_id threshold finished j)
  close-Outcome finished j n pending h positive = elim (Option-cases j.maker) [
    | inl e ↦
        let none_pending = subst (IsOpen partition_id threshold n pending) e h.opened in
        absurd (ground (arith, none_pending, positive))
    | inr e ↦
        let opened = subst (IsOpen partition_id threshold n pending) e.1 h.opened in
        yield_block-Outcome names partition_id threshold apart finished j n pending e.0 h.rest e.1
          opened.0 opened.1
  ]

  join_message-eq :
      (message : LiteExampleIds) (j : Joiner)
      → (join_examples names partition_id threshold item_dict message.finished message.example_id
          (record j { last_finished = some message.finished })).0
        ≡ ok tt
      → join_message names partition_id threshold item_dict message j
        ≡ close_if_finished names partition_id threshold item_dict message.finished
            (join_examples names partition_id threshold item_dict message.finished
              message.example_id
              (record j { last_finished = some message.finished })).1
  unfolding join_message
  join_message-eq message j e =
      elim message.example_id
          as (λ ids.
            (join_examples names partition_id threshold item_dict message.finished ids
                (record j { last_finished = some message.finished })).0
              ≡ ok tt
            → join_message names partition_id threshold item_dict
                (record message { example_id = ids }) j
              ≡ close_if_finished names partition_id threshold item_dict message.finished
                  (join_examples names partition_id threshold item_dict message.finished ids
                    (record j { last_finished = some message.finished })).1) [
                      | [] ↦ λ a. ground (
                        arith,
                        a,
                        join_examples_nil names apart partition_id threshold item_dict
                            message.finished (record j { last_finished = some message.finished }),
                      )
                      | _ ∷ _ ↦ λ a. ground (arith, a)
                    ]
        e

  -- Every message is worked off without an exception, and cut into blocks as specified: the blocks
  -- are yielded with consecutive indices, and the joiner has finished after a finished message
  -- exactly if that message yielded a block, or if it had finished before.
  pub join_message-Outcome :
      (message : LiteExampleIds) (j : Joiner) (n : ℕ) (pending : List Item)
      → Joining names partition_id threshold j n pending
      → Outcome names partition_id threshold message.finished j n
          (message_blocks threshold pending message.finished
            (matched item_dict message.example_id)).0
          (message_blocks threshold pending message.finished
            (matched item_dict message.example_id)).1
          (join_message names partition_id threshold item_dict message j)
  join_message-Outcome message j n pending h =
      let finished = message.finished in
      let j' = record j { last_finished = some finished } in
      let items = matched item_dict message.example_id in
      let parts = cut threshold pending items in
      let r = join_examples names partition_id threshold item_dict finished message.example_id j' in
      let examples =
        join_examples-Outcome names apart partition_id threshold item_dict finished
          message.example_id j' n pending (record { rest = h.rest; opened = h.opened }) in
      let has =
        has_maker-eq names apart partition_id threshold item_dict finished r.1 (n + length parts.0)
          parts.1 examples.joining in
      elim (Bool-cases (finished && ltb 0 (length parts.1))) [
        | inl closes ↦
            let positive : ltb 0 (length parts.1) ≡ true = ground (arith, closes) in
            let yields =
              close-Outcome finished r.1 (n + length parts.0) parts.1 examples.joining positive in
            rw
              (
                join_message-eq message j examples.answer,
                close_if_finished-eq finished r.1,
                has,
                closes,
              )
              (Outcome-from names apart partition_id threshold finished j j' n _ _ _ refl refl refl
                (Outcome-append names partition_id threshold apart finished j' n parts.0
                  (parts.1 ∷ []) parts.1 [] r
                  (yield_block names partition_id threshold finished r.1) examples yields))
        | inr stays ↦
            rw
              (
                join_message-eq message j examples.answer,
                close_if_finished-eq finished r.1,
                has,
                stays,
              )
              (Outcome-from names apart partition_id threshold finished j j' n parts.0 parts.1
                (ok tt, r.1) refl refl refl
                (record {
                  answer = refl;
                  joining = examples.joining;
                  metas = examples.metas;
                  yielded = examples.yielded;
                  made = examples.made;
                  numbered = examples.numbered;
                  kept = examples.kept;
                  buffer = examples.buffer;
                  done = examples.done;
                }))
      ]

  -- No matching example is lost, doubled or moved: the ids of the blocks that a message yields,
  -- with those left pending after it, are those pending before it, with those of the message that
  -- are in the raw data.
  pub join_message-ids :
      (message : LiteExampleIds) (j : Joiner) (n : ℕ) (pending : List Item)
      → Joining names partition_id threshold j n pending
      → (metas : List DataBlockMeta) × (left : List Item) × ((join_message names partition_id
            threshold item_dict message j).1.yielded
          ≡ j.yielded ++ map some metas)
        × Joining names partition_id threshold
            (join_message names partition_id threshold item_dict message j).1
            (n + length metas)
            left
        × (concat (map (λ meta. meta.example_ids) metas) ++ ids_of left
            ≡ ids_of pending ++ ids_of (matched item_dict message.example_id))
  join_message-ids message j n pending h =
      let items = matched item_dict message.example_id in
      let whole = message_blocks threshold pending message.finished items in
      let o = join_message-Outcome message j n pending h in
      let r = join_message names partition_id threshold item_dict message j in
      let files = r.1.site.manager.files in
      let count : length whole.0 ≡ length o.metas =
        sym (AreMade-length names partition_id files o.metas whole.0 o.made) in
      (
        o.metas,
        whole.1,
        o.yielded,
        subst (λ k. Joining names partition_id threshold r.1 (n + k) whole.1) count o.joining,
        ap (λ l. concat l ++ ids_of whole.1)
              (AreMade-ids names partition_id files o.metas whole.0 o.made)
            ∙ ap (λ l. l ++ ids_of whole.1) (concat-ids_of whole.0)
            ∙ sym (ids_of-append (concat whole.0) whole.1)
            ∙ ap ids_of (concat-message_blocks threshold pending message.finished items)
            ∙ ids_of-append pending items,
      )
