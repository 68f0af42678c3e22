-- ===== src/Actors/Schedule.antt =====
-- The scheduling in `run_app` of src/PSI/psi_actors.py: every actor is given a block, and one whose
-- job is done gets the next. Which job is done first is not for the program to say: a list of
-- numbers tells it, and each takes its turn modulo the number of jobs. A wait that times out
-- changes nothing and is left out. A job reports its two changes of status when it is done.
use n_mpc.Prelude.{
  remove_at, is_nil, ℕ, zero, suc, ◌%◌, min, pos, Bool, true, false, Option, none, some, List, [],
  ◌∷◌, ◌++◌, length, get_elem?, set, if◌then◌else◌,
}
use n_mpc.Prelude.Result.{ok, err, type_error, value_error}
use n_mpc.Prelude.Method.{Method, pure, raise, gets, modify, ◌>>=◌, ◌>>◌}
use n_mpc.Actors.Dispatch.{
  Dispatcher, Work, Counts, procssing, processed, get_next_unprocessed_data_and_use,
  get_data_block_count, change_data_status,
}

-- A call of `do_action` that is not done.
pub record Job (Data : Type 0) : Type 0 where
  pub actor_index : ℕ
  pub block_id : ℕ
  pub work : Work Data

-- What `do_action` comes to: the reference to its output, if any, and the counts it reports.
pub record Done (Out : Type 0) : Type 0 where
  pub block_data : Option Out
  pub original : Counts
  pub joined : Counts

-- `completed` are the results in the order in which they came.
pub record Schedule (Data Out : Type 0) : Type 0 where
  pub dispatcher : Dispatcher Data
  pub result_refs : List (Job Data)
  pub completed : List (ℕ × Option Out)

-- `do_action` of the actors.
module _ {Data Out : Type 0} (do_action : (block_id : ℕ) → Work Data → Done Out) where
  abbrev pub at_dispatcher :
      {A : Type 0} → Method (Dispatcher Data) A → Method (Schedule Data Out) A
  at_dispatcher m s =
      let (r, dispatcher) = m s.dispatcher in (r, record s { dispatcher = dispatcher })

  -- `for i in range(max_actors)`, from an actor on.
  unfoldable pub start_jobs : (actor count : ℕ) → Method (Schedule Data Out) (Unit {0})
  start_jobs actor zero = pure tt
  start_jobs actor (suc count) = do
    to_process_data ← at_dispatcher get_next_unprocessed_data_and_use
    elim to_process_data [
      | none ↦ raise type_error
      | some (block_id, work) ↦ do
        modify (λ s. record s {
          result_refs =
              s.result_refs
              ++ record { actor_index = actor; block_id = block_id; work = work } ∷ [];
        })
        start_jobs (suc actor) count
    ]

  -- The reports of a job, and its result.
  unfoldable pub finish_job : Job Data → Method (Schedule Data Out) (Unit {0})
  finish_job job = do
    at_dispatcher (change_data_status (pos job.block_id) procssing none none)
    at_dispatcher (
        change_data_status (pos job.block_id) processed
          (some (do_action job.block_id job.work).original)
          (some (do_action job.block_id job.work).joined))
    modify (λ s. record s {
      completed = s.completed ++ (job.block_id, (do_action job.block_id job.work).block_data) ∷ [];
    })

  -- The next job for the actor that is free.
  unfoldable pub queue_next : (position : ℕ) → Job Data → Method (Schedule Data Out) (Unit {0})
  queue_next position job = do
    to_process_data ← at_dispatcher get_next_unprocessed_data_and_use
    elim to_process_data [
      | none ↦ modify (λ s. record s { result_refs = remove_at position s.result_refs })
      | some (block_id, work) ↦ modify (λ s. record s {
        result_refs =
            set s.result_refs job.actor_index
              (record { actor_index = job.actor_index; block_id = block_id; work = work });
      })
    ]

  -- One round of `while True`: whether it breaks. Waiting for no job at all raises a ValueError.
  unfoldable pub wait_one : (turn : ℕ) → Method (Schedule Data Out) Bool
  unfolding finish_job queue_next
  wait_one turn s =
      let position = turn % length s.result_refs in
      elim (get_elem? s.result_refs position) [
        | none ↦ (err value_error, s)
        | some job ↦
            ((do finish_job job; queue_next position job; gets (λ s. is_nil s.result_refs)) s)
      ]

  -- The rounds: whether the loop has come to its end.
  unfoldable pub wait_all : (turns : List ℕ) → Method (Schedule Data Out) Bool
  unfolding wait_one
  wait_all [] = pure false
  wait_all (turn ∷ turns) = do
    no_more ← wait_one turn
    if no_more then pure true else wait_all turns

  abbrev pub new_schedule : Dispatcher Data → Schedule Data Out
  new_schedule d = record { dispatcher = d; result_refs = []; completed = [] }

  unfoldable pub run_jobs : (max_actors : ℕ) (turns : List ℕ) → Method (Schedule Data Out) Bool
  unfolding start_jobs wait_all
  run_jobs max_actors turns = do
    data_block_num ← at_dispatcher (λ d. (ok (get_data_block_count d), d))
    start_jobs 0 (min data_block_num max_actors)
    wait_all turns
