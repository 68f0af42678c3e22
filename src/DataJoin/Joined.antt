-- ===== src/DataJoin/Joined.antt =====
-- The joiner against its specification: what it does with a message.
use n_mpc.Prelude.{
  subst₂, ℕ, ◌+◌, ◌<◌, ◌≡◌, refl, sym, ap, ◌∙◌, subst, Bool, true, ◌&&◌, none, some, List, [], ◌∷◌,
  ◌++◌, map, length, ltb, leb, if◌then◌else◌, arith, length-append, inl, inr, Bool-cases,
  Option-cases,
}
use n_mpc.Prelude.Result.{Result, ok}
use n_mpc.Prelude.Dict.{Dict, lookup}
use n_mpc.DataJoin.Records.{Item, ExampleId}
use n_mpc.DataJoin.Files.{Names, AreApart, read_file}
use n_mpc.DataJoin.BlockMaker.{Maker, save, is_data_block_exceed_threshold}
use n_mpc.DataJoin.Saved.{IsAtRest}
use n_mpc.DataJoin.Yielded.{remember}
use n_mpc.DataJoin.Opened.{Joining, Fits, IsOpen, acquire-Acquired, save-Fits, exceed-eq}
use n_mpc.DataJoin.Joining.{Outcome, yield_block-Outcome, pure-Outcome, Outcome-append}
use n_mpc.DataJoin.Joiner.{
  Joiner, has_maker, acquire_data_block_maker, yield_block, join_example, join_examples,
}
use n_mpc.DataJoin.Blocks.{matched-none, matched-some, matched, cut}

cut-cons :
    (threshold : ℕ) (pending : List Item) (item : Item) (items : List Item)
    → ((cut threshold pending (item ∷ [])).0
          ++ (cut threshold (cut threshold pending (item ∷ [])).1 items).0
        ≡ (cut threshold pending (item ∷ items)).0)
      × ((cut threshold (cut threshold pending (item ∷ [])).1 items).1
          ≡ (cut threshold pending (item ∷ items)).1)
cut-cons threshold pending item items =
    elim (Bool-cases (leb threshold (length (pending ++ item ∷ [])))) [
      | inl over ↦ rw over (refl, refl)
      | inr under ↦ rw under (refl, refl)
    ]

module _ (names : Names) (apart : AreApart names) (partition_id threshold : ℕ) where
  pub Outcome-from :
      (finished : Bool) (j j' : Joiner) (n : ℕ) (blocks : List (List Item)) (pending : List Item)
      (r : Result (Unit {0}) × Joiner)
      → j'.site.manager ≡ j.site.manager
      → j'.yielded ≡ j.yielded
      → j'.data_joiner_finished ≡ j.data_joiner_finished
      → Outcome names partition_id threshold finished j' n blocks pending r
      → Outcome names partition_id threshold finished j n blocks pending r
  Outcome-from finished j j' n blocks pending r same y d h = record {
    answer = h.answer;
    joining = h.joining;
    metas = h.metas;
    yielded = h.yielded ∙ ap (λ l. l ++ map some h.metas) y;
    made = h.made;
    numbered = h.numbered;
    kept = λ path older. h.kept path older ∙ ap (λ m. read_file path m.files) same;
    buffer = h.buffer ∙ ap (λ m. remember h.metas m.buffer) same;
    done = h.done ∙ ap (λ b. if finished && ltb 0 (length blocks) then true else b) d;
  }

  -- The open block has got one more example.
  extended :
      (finished : Bool) (j : Joiner) (n : ℕ) (pending : List Item) (item : Item) (saved : Maker)
      → IsAtRest names j.site.manager n
      → j.maker ≡ some saved
      → Fits partition_id threshold n (pending ++ item ∷ []) saved
      → Outcome names partition_id threshold finished j n
          (cut threshold pending (item ∷ [])).0
          (cut threshold pending (item ∷ [])).1
          (if is_data_block_exceed_threshold saved
            then yield_block names partition_id threshold finished j
            else (ok tt, j))
  extended finished j n pending item saved rest e fits =
      let positive : 0 < length (pending ++ item ∷ []) =
        omega (arith, length-append pending (item ∷ [])) in
      rw (exceed-eq partition_id threshold n (pending ++ item ∷ []) saved fits)
        (elim (Bool-cases (leb threshold (length (pending ++ item ∷ [])))) [
          | inl over ↦ rw over (
              yield_block-Outcome names partition_id threshold apart finished j n
                (pending ++ item ∷ []) saved rest e fits positive)
          | inr under ↦ rw under (
              pure-Outcome names partition_id threshold apart finished j n (pending ++ item ∷ [])
                (record {
                  rest = rest;
                  opened =
                      subst (IsOpen partition_id threshold n (pending ++ item ∷ [])) (sym e)
                        (fits, positive);
                }))
        ])

  module _ (item_dict : Dict Item) (finished : Bool) where
    join_example-none :
        (j : Joiner) (example_id : ExampleId)
        → lookup example_id item_dict ≡ none
        → join_example names partition_id threshold item_dict finished example_id j ≡ (ok tt, j)
    unfolding join_example
    join_example-none j example_id e = ground (arith, e)

    join_example-some :
        (j : Joiner) (example_id : ExampleId) (item : Item) (maker : Maker)
        → lookup example_id item_dict ≡ some item
        → (acquire_data_block_maker names partition_id threshold j).0 ≡ ok maker
        → join_example names partition_id threshold item_dict finished example_id j ≡ (
            let saved = save item.data_record example_id item.event_time maker in
            let j' = record (acquire_data_block_maker names partition_id threshold j).1 {
              maker = some saved;
            } in
            if is_data_block_exceed_threshold saved
            then yield_block names partition_id threshold finished j'
            else (ok tt, j'))
    unfolding join_example
    join_example-some j example_id item maker e answer = ground (arith, e, answer)

    join_example-Outcome :
        (j : Joiner) (n : ℕ) (pending : List Item) (example_id : ExampleId) (item : Item)
        → lookup example_id item_dict ≡ some item
        → Joining names partition_id threshold j n pending
        → Outcome names partition_id threshold finished j n
            (cut threshold pending (record item { example_id = example_id } ∷ [])).0
            (cut threshold pending (record item { example_id = example_id } ∷ [])).1
            (join_example names partition_id threshold item_dict finished example_id j)
    join_example-Outcome j n pending example_id item e h =
        let a = acquire-Acquired names partition_id threshold j n pending h in
        let item' : Item = record item { example_id = example_id } in
        let saved = save item.data_record example_id item.event_time a.maker in
        let j' = record (acquire_data_block_maker names partition_id threshold j).1 {
          maker = some saved;
        } in
        rw (join_example-some j example_id item a.maker e a.answer) (
          Outcome-from finished j j' n _ _ _ a.manager a.yielded a.done (
            extended finished j' n pending item' saved a.rest refl
              (save-Fits partition_id threshold n pending item' a.maker a.fits)))

    pub join_examples_nil :
        (j : Joiner)
        → join_examples names partition_id threshold item_dict finished [] j ≡ (ok tt, j)
    unfolding join_examples
    join_examples_nil j = refl

    join_examples-cons :
        (j : Joiner) (example_id : ExampleId) (rest : List ExampleId)
        → (join_example names partition_id threshold item_dict finished example_id j).0 ≡ ok tt
        → join_examples names partition_id threshold item_dict finished (example_id ∷ rest) j
          ≡ join_examples names partition_id threshold item_dict finished rest
              (join_example names partition_id threshold item_dict finished example_id j).1
    unfolding join_examples
    join_examples-cons j example_id rest e = ground (arith, e)

    pub join_examples-Outcome :
        (ids : List ExampleId) (j : Joiner) (n : ℕ) (pending : List Item)
        → Joining names partition_id threshold j n pending
        → Outcome names partition_id threshold finished j n
            (cut threshold pending (matched item_dict ids)).0
            (cut threshold pending (matched item_dict ids)).1
            (join_examples names partition_id threshold item_dict finished ids j)
    join_examples-Outcome [] j n pending h =
        rw (join_examples_nil j)
          (pure-Outcome names partition_id threshold apart finished j n pending h)
    join_examples-Outcome (example_id ∷ ids) j n pending h =
        elim (Option-cases (lookup example_id item_dict)) [
          | inl e ↦
              rw
                (
                  matched-none item_dict example_id ids e,
                  join_examples-cons j example_id ids
                      (ap (λ r. r.0) (join_example-none j example_id e)),
                  join_example-none j example_id e,
                )
                (join_examples-Outcome ids j n pending h)
          | inr e ↦
              let item : Item = record e.0 { example_id = example_id } in
              let one = join_example-Outcome j n pending example_id e.0 e.1 h in
              let r = join_example names partition_id threshold item_dict finished example_id j in
              let first = cut threshold pending (item ∷ []) in
              let after = join_examples-Outcome ids r.1 (n + length first.0) first.1 one.joining in
              let both =
                Outcome-append names partition_id threshold apart finished j n first.0
                  (cut threshold first.1 (matched item_dict ids)).0 first.1
                  (cut threshold first.1 (matched item_dict ids)).1 r
                  (join_examples names partition_id threshold item_dict finished ids r.1) one
                  after in
              let whole = cut-cons threshold pending item (matched item_dict ids) in
              rw
                (
                  matched-some item_dict example_id e.0 ids e.1,
                  join_examples-cons j example_id ids one.answer,
                )
                (subst₂
                  (λ b p.
                    Outcome names partition_id threshold finished j n b p
                      (join_examples names partition_id threshold item_dict finished ids r.1))
                  whole.0 whole.1 both)
        ]

    pub has_maker-eq :
        (j : Joiner) (n : ℕ) (pending : List Item)
        → Joining names partition_id threshold j n pending
        → has_maker j ≡ ltb 0 (length pending)
    has_maker-eq j n pending h = elim (Option-cases j.maker) [
      | inl e ↦
          let none_pending = subst (IsOpen partition_id threshold n pending) e h.opened in
          ground (arith, e, none_pending)
      | inr e ↦
          let opened = subst (IsOpen partition_id threshold n pending) e.1 h.opened in
          ground (arith, e.1, opened.1)
    ]
