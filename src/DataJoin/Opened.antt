-- ===== src/DataJoin/Opened.antt =====
-- The block that a joiner has open, and `_acquire_data_block_maker`.
use n_mpc.Prelude.{
  ℕ, ◌+◌, ◌<◌, ◌≡◌, refl, ◌∙◌, subst, pos, true, Option, none, some, List, [], ◌∷◌, ◌++◌, length,
  leb, arith, length-map, inl, inr, Option-cases,
}
use n_mpc.Prelude.Result.{Result, ok}
use n_mpc.DataJoin.Records.{Item}
use n_mpc.DataJoin.Files.{Names}
use n_mpc.DataJoin.BlockMaker.{Maker, save, is_data_block_exceed_threshold}
use n_mpc.DataJoin.Saved.{IsAtRest, produced-IsAtRest}
use n_mpc.DataJoin.Made.{Holds, save-Holds, widen-data_block_index, widen-partition_id}
use n_mpc.DataJoin.Joiner.{Joiner, acquire_data_block_maker, create_data_block_maker}

-- A maker for block `n` that holds the pending examples.
pub record Fits (partition_id threshold n : ℕ) (pending : List Item) (maker : Maker) : Type 0 where
  pub held : Holds maker pending
  pub managed : maker.managed ≡ true
  pub own : maker.meta.partition_id ≡ partition_id
  pub index : maker.meta.data_block_index ≡ n
  pub threshold_set : maker.example_num_threshold ≡ some threshold

abbrev pub IsOpen : ℕ → ℕ → ℕ → List Item → Option Maker → Type 0
IsOpen partition_id threshold n pending none = pending ≡ []
IsOpen partition_id threshold n pending (some maker) =
    Fits partition_id threshold n pending maker × (0 < length pending)

pub save-Fits :
    (partition_id threshold n : ℕ) (pending : List Item) (item : Item) (maker : Maker)
    → Fits partition_id threshold n pending maker
    → Fits partition_id threshold n
        (pending ++ item ∷ [])
        (save item.data_record item.example_id item.event_time maker)
unfolding save
save-Fits partition_id threshold n pending item maker h = record {
  held = save-Holds maker pending item h.held;
  managed = h.managed;
  own =
      widen-partition_id maker.saved_example_num item.event_time
        (record maker.meta { example_ids = maker.meta.example_ids ++ item.example_id ∷ [] })
      ∙ h.own;
  index =
      widen-data_block_index maker.saved_example_num item.event_time
        (record maker.meta { example_ids = maker.meta.example_ids ++ item.example_id ∷ [] })
      ∙ h.index;
  threshold_set = h.threshold_set;
}

pub exceed-eq :
    (partition_id threshold n : ℕ) (pending : List Item) (maker : Maker)
    → Fits partition_id threshold n pending maker
    → is_data_block_exceed_threshold maker ≡ leb threshold (length pending)
unfolding is_data_block_exceed_threshold
exceed-eq partition_id threshold n pending maker h =
    rw (h.threshold_set, h.held.ids, length-map (λ (item : Item). item.example_id) pending) refl

module _ (names : Names) (partition_id threshold : ℕ) where
  -- A joiner whose manager has the blocks below `n`, with the examples of the block that is open.
  pub record Joining (j : Joiner) (n : ℕ) (pending : List Item) : Type 0 where
    pub rest : IsAtRest names j.site.manager n
    pub opened : IsOpen partition_id threshold n pending j.maker

  -- What comes of `_acquire_data_block_maker(True)`.
  pub record Acquired (j : Joiner) (n : ℕ) (pending : List Item) (r : Result Maker × Joiner)
      : Type 0 where
    pub maker : Maker
    pub answer : r.0 ≡ ok maker
    pub fits : Fits partition_id threshold n pending maker
    pub rest : IsAtRest names r.1.site.manager n
    pub manager : r.1.site.manager ≡ j.site.manager
    pub yielded : r.1.yielded ≡ j.yielded
    pub done : r.1.data_joiner_finished ≡ j.data_joiner_finished

  abbrev fresh : Joiner → ℕ → Maker
  fresh j n = record {
    meta = record {
      block_id = "";
      partition_id = partition_id;
      data_block_index = n;
      example_ids = [];
      start_time = pos 0;
      end_time = pos 0;
      follower_restart_index = 0;
    };
    managed = true;
    saved_example_num = 0;
    example_num_threshold = some threshold;
    tmp_file = j.site.next_tmp;
    written = [];
  }

  create-eq :
      (j : Joiner) (n : ℕ)
      → IsAtRest names j.site.manager n
      → create_data_block_maker names partition_id threshold j ≡ (
        ok (fresh j n),
        record j {
          site = record j.site { next_tmp = j.site.next_tmp + 1 };
          maker = some (fresh j n);
        },
      )
  unfolding create_data_block_maker
  create-eq j n rest = ground (arith, produced-IsAtRest names j.site.manager n rest)

  Acquired-create :
      (j : Joiner) (n : ℕ)
      → IsAtRest names j.site.manager n
      → Acquired j n [] (create_data_block_maker names partition_id threshold j)
  Acquired-create j n rest = rw (create-eq j n rest) (record {
    maker = fresh j n;
    answer = refl;
    fits = record {
      held = record { count = refl; ids = refl; records = refl };
      managed = refl;
      own = refl;
      index = refl;
      threshold_set = refl;
    };
    rest = rest;
    manager = refl;
    yielded = refl;
    done = refl;
  })

  acquire_none :
      (j : Joiner)
      → j.maker ≡ none
      → acquire_data_block_maker names partition_id threshold j
        ≡ create_data_block_maker names partition_id threshold j
  unfolding acquire_data_block_maker
  acquire_none j e = ground (arith, e)

  acquire_some :
      (j : Joiner) (maker : Maker)
      → j.maker ≡ some maker
      → acquire_data_block_maker names partition_id threshold j ≡ (ok maker, j)
  unfolding acquire_data_block_maker
  acquire_some j maker e = ground (arith, e)

  pub acquire-Acquired :
      (j : Joiner) (n : ℕ) (pending : List Item)
      → Joining j n pending
      → Acquired j n pending (acquire_data_block_maker names partition_id threshold j)
  acquire-Acquired j n pending h = elim (Option-cases j.maker) [
    | inl e ↦
        let none_pending = subst (IsOpen partition_id threshold n pending) e h.opened in
        rw (acquire_none j e, none_pending) (Acquired-create j n h.rest)
    | inr e ↦
        let opened = subst (IsOpen partition_id threshold n pending) e.1 h.opened in
        rw (acquire_some j e.0 e.1) (record {
          maker = e.0;
          answer = refl;
          fits = opened.0;
          rest = h.rest;
          manager = refl;
          yielded = refl;
          done = refl;
        })
  ]
