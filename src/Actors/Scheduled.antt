-- ===== src/Actors/Scheduled.antt =====
-- One round of the scheduling: what one job gives up, another takes.
use n_mpc.Prelude.{
  ◌≢◌, remove_at, ℕ, ◌+◌, ◌<◌, ◌≤◌, ◌≡◌, refl, sym, ◌∙◌, ap, ◌⊎◌, Option, none, some, List, [], ◌∷◌,
  ◌++◌, map, length, length-set, set, arith, All,
}
use n_mpc.Prelude.Result.{ok}
use n_mpc.Actors.Dispatch.{
  Dispatcher, Work, procssing, processed, find_init, prepare, get_next_unprocessed_data_and_use,
  change_data_status,
}
use n_mpc.Actors.Dispatched.{
  work_at, unprocessed, unprocessed-prepare, find_init-lt, length-prepare, supply,
  hand_out-HandedOut, get_next_none, get_next_some,
}
use n_mpc.Actors.Schedule.{Job, Done, Schedule, finish_job, queue_next}
use n_mpc.Actors.Counting.{count, unprocessed-set, AreKeyed}

module _ {Out : Type 0} where
  abbrev pub done_ids : List (ℕ × Option Out) → List ℕ
  done_ids done = map (λ entry. entry.0) done

module _ {Data : Type 0} where
  abbrev pub waiting : Dispatcher Data → List ℕ
  waiting d = unprocessed 0 d.data_status

  abbrev pub ids : List (Job Data) → List ℕ
  ids refs = map (λ job. job.block_id) refs

  -- While blocks wait, the job of an actor stands at its place; no block is in two hands.
  pub record IsScheduled (d : Dispatcher Data) (refs : List (Job Data)) : Type 0 where
    pub places : (waiting d ≡ []) ⊎ AreKeyed (λ job. job.actor_index) 0 refs
    pub once : (x : ℕ) → count x (ids refs) + count x (waiting d) ≤ 1
    pub below : All (λ job. job.block_id < length d.data_status) refs
    pub ready : supply d ≡ length d.data_status

-- What a call of `get_next_unprocessed_data_and_use` gives while some block waits.
pub record Given {Data : Type 0} (d : Dispatcher Data) (i : ℕ) : Type 0 where
  pub work : Work Data
  pub after : Dispatcher Data
  pub got : get_next_unprocessed_data_and_use d ≡ (ok (some (i, work)), after)
  pub split : waiting d ≡ i ∷ waiting after
  pub blocks : length after.data_status ≡ length d.data_status
  pub supplied : supply after ≡ supply d
  pub below : i < length d.data_status
  pub statuses : after.data_status ≡ prepare i d.data_status
  pub own : work_at d i ≡ some work
  pub others : (j : ℕ) → i ≢ j → work_at after j ≡ work_at d j

pub give :
    {Data : Type 0} (d : Dispatcher Data) (i : ℕ)
    → supply d ≡ length d.data_status
    → find_init d.data_status ≡ some i
    → Given d i
give d i ready found =
    let given = record d { data_status = prepare i d.data_status } in
    let below = find_init-lt d.data_status i found in
    let handed = hand_out-HandedOut i given (omega (arith, below, ready)) in
    let start : 0 + i ≡ i = omega arith in
    record {
      work = handed.work;
      after = handed.after;
      got = get_next_some d i found handed;
      split =
          unprocessed-prepare 0 d.data_status i found
          ∙ ap (λ k. k ∷ waiting given) start
          ∙ ap (λ l. i ∷ unprocessed 0 l) (sym handed.statuses);
      blocks = ap (λ l. length l) handed.statuses ∙ length-prepare i d.data_status;
      supplied = handed.supplied;
      below = below;
      statuses = handed.statuses;
      own = handed.own;
      others = handed.others;
    }

module _ {Data Out : Type 0} where
  abbrev pub at : Dispatcher Data → List (Job Data) → List (ℕ × Option Out) → Schedule Data Out
  at d refs done = record { dispatcher = d; result_refs = refs; completed = done }

  -- The dispatcher after the reports of a job.
  abbrev pub reported : ℕ → Done Out → Dispatcher Data → Dispatcher Data
  reported i done d = record d {
    data_status =
        set (set d.data_status i (record { status = procssing; original = none; joined = none })) i
          (record { status = processed; original = some done.original; joined = some done.joined });
  }

  module _ (do_action : (block_id : ℕ) → Work Data → Done Out) (d : Dispatcher Data)
      (refs : List (Job Data)) where
    abbrev pub output : Job Data → Done Out
    output job = do_action job.block_id job.work

    pub finish_job-eq :
        (done : List (ℕ × Option Out)) (job : Job Data)
        → job.block_id < length d.data_status
        → finish_job do_action job (at d refs done) ≡ (
          ok tt,
          at
              (reported job.block_id (output job) d)
              refs
              (done ++ (job.block_id, (output job).block_data) ∷ []),
        )
    unfolding finish_job change_data_status
    finish_job-eq done job h = ground (
      arith,
      h,
      length-set d.data_status job.block_id
          (record { status = procssing; original = none; joined = none }),
    )

    pub waiting-reported :
        (i : ℕ) (out : Done Out) → count i (waiting d) ≡ 0 → waiting (reported i out d) ≡ waiting d
    waiting-reported i out h =
        let start : 0 + i ≡ i = omega arith in
        let first =
          unprocessed-set 0 d.data_status i
            (record { status = procssing; original = none; joined = none }) refl (rw start h) in
        unprocessed-set 0 (set d.data_status i _) i _ refl (rw (start, first) h) ∙ first

    pub length-reported :
        (i : ℕ) (out : Done Out) → length (reported i out d).data_status ≡ length d.data_status
    length-reported i out = length-set (set d.data_status i _) i _ ∙ length-set d.data_status i _

    pub queue_next-none :
        (done : List (ℕ × Option Out)) (position : ℕ) (job : Job Data)
        → find_init d.data_status ≡ none
        → queue_next do_action position job (at d refs done)
          ≡ (ok tt, at d (remove_at position refs) done)
    unfolding queue_next
    queue_next-none done position job h = ground (arith, get_next_none d h)

    abbrev pub next_job : Job Data → ℕ → Work Data → Job Data
    next_job job i work = record { actor_index = job.actor_index; block_id = i; work = work }

    pub queue_next-some :
        (done : List (ℕ × Option Out)) (position : ℕ) (job : Job Data) (i : ℕ) (work : Work Data)
        (d' : Dispatcher Data)
        → get_next_unprocessed_data_and_use d ≡ (ok (some (i, work)), d')
        → queue_next do_action position job (at d refs done)
          ≡ (ok tt, at d' (set refs job.actor_index (next_job job i work)) done)
    unfolding queue_next
    queue_next-some done position job i work d' h = ground (arith, h)
