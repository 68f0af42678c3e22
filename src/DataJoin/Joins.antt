-- ===== src/DataJoin/Joins.antt =====
-- The joiner on all the batches of the other party.
use n_mpc.Prelude.{
  String, subst₂, ℕ, ◌+◌, ◌≡◌, refl, sym, ap, ◌∙◌, subst, Bool, true, false, Option, none, some,
  List, [], ◌∷◌, ◌++◌, map, length, ltb, if◌then◌else◌, arith, append_assoc, append-nil, map-append,
  concat, length-append,
}
use n_mpc.Prelude.Result.{Result, ok}
use n_mpc.Prelude.Dict.{Dict, lookup}
use n_mpc.DataJoin.Yielded.{
  AreMade, AreMade-length, AreMade-append, AreMade-kept, remember, remember-append,
}
use n_mpc.DataJoin.Older.{IsOlder, IsOlder-le}
use n_mpc.DataJoin.Records.{DataBlockMeta, Item, ExampleId, LiteExampleIds}
use n_mpc.DataJoin.Files.{Names, AreApart, read_file}
use n_mpc.DataJoin.ExampleIds.{new_batch}
use n_mpc.DataJoin.Delivery.{Batches, last_batch, full_batch}
use n_mpc.DataJoin.Joiner.{Joiner, join_round, join_rounds, join_message, data_joiner_algo}
use n_mpc.DataJoin.Joining.{Outcome}
use n_mpc.DataJoin.Opened.{Joining}
use n_mpc.DataJoin.Messages.{join_message-Outcome}
use n_mpc.DataJoin.Blocks.{
  ids_of-append, matched, ids_of, cut, message_blocks, concat-message_blocks, AreNumbered,
  AreNumbered-append,
}

-- Rounds that find a message each, within the time span of a block.
abbrev pub rounds_of : List LiteExampleIds → List (Option LiteExampleIds × Bool)
rounds_of messages = map (λ message. (some message, false)) messages

matched-append :
    (item_dict : Dict Item) (xs ys : List ExampleId)
    → matched item_dict (xs ++ ys) ≡ matched item_dict xs ++ matched item_dict ys
matched-append item_dict [] ys = refl
matched-append item_dict (x ∷ xs) ys =
    elim (lookup x item_dict)
      as (λ found.
        (elim found [
          | none ↦ matched item_dict (xs ++ ys)
          | some item ↦ record item { example_id = x } ∷ matched item_dict (xs ++ ys)
        ])
        ≡ (elim found [
          | none ↦ matched item_dict xs
          | some item ↦ record item { example_id = x } ∷ matched item_dict xs
        ])
          ++ matched item_dict ys) [
            | none ↦ matched-append item_dict xs ys
            | some item ↦
                ap (λ l. record item { example_id = x } ∷ l) (matched-append item_dict xs ys)
          ]

concat-append : (xs ys : List (List Item)) → concat (xs ++ ys) ≡ concat xs ++ concat ys
concat-append [] ys = refl
concat-append (x ∷ xs) ys =
    ap (λ l. x ++ l) (concat-append xs ys) ∙ sym (append_assoc x (concat xs) (concat ys))

closed_left :
    (blocks : List (List Item)) (left : List Item)
    → let r : List (List Item) × List Item =
        if ltb 0 (length left) then (blocks ++ left ∷ [], []) else (blocks, left) in
      r.1 ≡ []
closed_left blocks [] = refl
closed_left blocks (x ∷ xs) = ground arith

-- A finished message leaves nothing pending.
message_blocks-finished :
    (threshold : ℕ) (pending items : List Item)
    → (message_blocks threshold pending true items).1 ≡ []
message_blocks-finished threshold pending items =
    closed_left (cut threshold pending items).0 (cut threshold pending items).1

module _ (names : Names) (apart : AreApart names) (partition_id threshold : ℕ)
    (item_dict : Dict Item) where
  -- The blocks of a run of the joiner that leaves nothing pending: they hold these examples.
  pub record Joins (j : Joiner) (n : ℕ) (items : List Item) (r : Result (Unit {0}) × Joiner)
      : Type 0 where
    pub answer : r.0 ≡ ok tt
    pub metas : List DataBlockMeta
    pub blocks : List (List Item)
    pub yielded : r.1.yielded ≡ j.yielded ++ map some metas
    pub joining : Joining names partition_id threshold r.1 (n + length metas) []
    pub numbered : AreNumbered n metas
    pub made : AreMade names partition_id r.1.site.manager.files metas blocks
    pub joined : concat blocks ≡ items
    pub kept :
        (path : String)
        → IsOlder names n path
        → read_file path r.1.site.manager.files ≡ read_file path j.site.manager.files
    pub buffer : r.1.site.manager.buffer ≡ remember metas j.site.manager.buffer

  join_rounds_nil :
      (j : Joiner) → join_rounds names partition_id threshold item_dict [] j ≡ (ok tt, j)
  unfolding join_rounds
  join_rounds_nil j = refl

  join_rounds-cons :
      (message : LiteExampleIds) (rounds : List (Option LiteExampleIds × Bool)) (j : Joiner)
      → j.data_joiner_finished ≡ false
      → (join_message names partition_id threshold item_dict message j).0 ≡ ok tt
      → join_rounds names partition_id threshold item_dict ((some message, false) ∷ rounds) j
        ≡ join_rounds names partition_id threshold item_dict rounds
            (join_message names partition_id threshold item_dict message j).1
  unfolding join_rounds join_round
  join_rounds-cons message rounds j going answer = ground (arith, going, answer)

  -- One message and then the others.
  Joins-append :
      (j : Joiner) (n : ℕ) (blocks : List (List Item)) (left items found : List Item)
      (finished : Bool) (r r' : Result (Unit {0}) × Joiner)
      → Outcome names partition_id threshold finished j n blocks left r
      → Joins r.1 (n + length blocks) items r'
      → concat blocks ++ items ≡ found
      → Joins j n found r'
  Joins-append j n blocks left items found finished r r' o ih e =
      let files = r.1.site.manager.files in
      let files' = r'.1.site.manager.files in
      let count : length o.metas ≡ length blocks =
        AreMade-length names partition_id files o.metas blocks o.made in
      let place : n + length blocks + length ih.metas ≡ n + length (o.metas ++ ih.metas) =
        omega (arith, count, length-append o.metas ih.metas) in
      record {
        answer = ih.answer;
        metas = o.metas ++ ih.metas;
        blocks = blocks ++ ih.blocks;
        yielded =
            ih.yielded
            ∙ ap (λ l. l ++ map some ih.metas) o.yielded
            ∙ append_assoc j.yielded (map some o.metas) (map some ih.metas)
            ∙ ap (λ l. j.yielded ++ l) (sym (map-append some o.metas ih.metas));
        joining = subst (λ k. Joining names partition_id threshold r'.1 k []) place ih.joining;
        numbered =
            AreNumbered-append n o.metas ih.metas o.numbered
              (subst (λ k. AreNumbered (n + k) ih.metas) (sym count) ih.numbered);
        made =
            AreMade-append names partition_id files' o.metas ih.metas blocks ih.blocks
              (AreMade-kept names partition_id apart files files' n o.metas blocks o.numbered
                (λ path older. ih.kept path (subst (λ k. IsOlder names (n + k) path) count older))
                o.made)
              ih.made;
        joined = concat-append blocks ih.blocks ∙ ap (λ l. concat blocks ++ l) ih.joined ∙ e;
        kept = λ path older.
            ih.kept path (IsOlder-le names n (n + length blocks) path (omega arith) older)
            ∙ o.kept path older;
        buffer =
            ih.buffer
            ∙ ap (λ d. remember ih.metas d) o.buffer
            ∙ sym (remember-append o.metas ih.metas j.site.manager.buffer);
      }

  -- The batches from any one on.
  join_rounds-Joins :
      {items : List Item} {batches : List LiteExampleIds} (j : Joiner) (n : ℕ) (pending : List Item)
      → Batches partition_id items batches
      → Joining names partition_id threshold j n pending
      → j.data_joiner_finished ≡ false
      → Joins j n
          (pending ++ matched item_dict (ids_of items))
          (join_rounds names partition_id threshold item_dict (rounds_of batches) j)
  join_rounds-Joins j n pending (last_batch items) h going =
      let message = new_batch partition_id true items in
      let found = matched item_dict (ids_of items) in
      let parts = message_blocks threshold pending true found in
      let o =
        join_message-Outcome names apart partition_id threshold item_dict message j n pending h in
      let j' = (join_message names partition_id threshold item_dict message j).1 in
      let none_left = message_blocks-finished threshold pending found in
      let count =
        sym (AreMade-length names partition_id j'.site.manager.files o.metas parts.0 o.made) in
      rw (join_rounds-cons message [] j going o.answer, join_rounds_nil j')
        (record {
          answer = refl;
          metas = o.metas;
          blocks = parts.0;
          yielded = o.yielded;
          joining =
              subst₂ (λ k left. Joining names partition_id threshold j' (n + k) left) count
                none_left o.joining;
          numbered = o.numbered;
          made = o.made;
          joined =
              sym (append-nil (concat parts.0))
              ∙ ap (λ l. concat parts.0 ++ l) (sym none_left)
              ∙ concat-message_blocks threshold pending true found;
          kept = o.kept;
          buffer = o.buffer;
        })
  join_rounds-Joins j n pending (full_batch items {rest = rest} {batches = batches} full tail) h
        going =
      let message = new_batch partition_id false items in
      let found = matched item_dict (ids_of items) in
      let others = matched item_dict (ids_of rest) in
      let parts = message_blocks threshold pending false found in
      let o =
        join_message-Outcome names apart partition_id threshold item_dict message j n pending h in
      let r = join_message names partition_id threshold item_dict message j in
      let ih = join_rounds-Joins r.1 (n + length parts.0) parts.1 tail o.joining (o.done ∙ going) in
      let whole : concat parts.0 ++ (parts.1 ++ others)
          ≡ pending ++ matched item_dict (ids_of (items ++ rest)) =
        sym (append_assoc (concat parts.0) parts.1 others)
        ∙ ap (λ l. l ++ others) (concat-message_blocks threshold pending false found)
        ∙ append_assoc pending found others
        ∙ ap (λ l. pending ++ l) (sym (matched-append item_dict (ids_of items) (ids_of rest)))
        ∙ ap (λ l. pending ++ matched item_dict l) (sym (ids_of-append items rest)) in
      rw (join_rounds-cons message (rounds_of batches) j going o.answer) (
        Joins-append j n parts.0 parts.1 (parts.1 ++ others)
          (pending ++ matched item_dict (ids_of (items ++ rest))) false r
          (join_rounds names partition_id threshold item_dict (rounds_of batches) r.1) o ih whole)

  -- All the batches of a stream are joined: the joiner raises nothing and leaves nothing pending.
  -- Its blocks, which are numbered consecutively and whose files hold their meta data and their
  -- records, are together the examples that were pending and then those of the ids sent that are in
  -- the raw data, in the order of the sender. The files of older blocks are as they were.
  pub data_joiner_algo-Joins :
      {items : List Item} {batches : List LiteExampleIds} (j : Joiner) (n : ℕ) (pending : List Item)
      → Batches partition_id items batches
      → Joining names partition_id threshold j n pending
      → j.data_joiner_finished ≡ false
      → Joins j n
          (pending ++ matched item_dict (ids_of items))
          (data_joiner_algo names partition_id threshold item_dict (rounds_of batches) j)
  unfolding data_joiner_algo
  data_joiner_algo-Joins j n pending batches h going =
      let r =
        join_rounds-Joins (record j { last_finished = none }) n pending batches
          (record { rest = h.rest; opened = h.opened }) going in
      record {
        answer = r.answer;
        metas = r.metas;
        blocks = r.blocks;
        yielded = r.yielded;
        joining = r.joining;
        numbered = r.numbered;
        made = r.made;
        joined = r.joined;
        kept = r.kept;
        buffer = r.buffer;
      }
