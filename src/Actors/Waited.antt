-- ===== src/Actors/Waited.antt =====
-- All rounds of the scheduling, in whatever order the jobs are done.
use native.Mathlib.Nat.{mod-lt}
use n_mpc.Prelude.{
  is_nil, ℕ, ◌+◌, ◌%◌, ◌<◌, ◌≤◌, ◌≡◌, refl, inl, inr, true, false, Option, List, [], ◌∷◌, ◌++◌,
  length-map, length, arith,
}
use n_mpc.Prelude.Result.{ok}
use n_mpc.Actors.Dispatch.{Dispatcher, Work}
use n_mpc.Actors.Dispatched.{get_elem-lt}
use n_mpc.Actors.Schedule.{Job, Done, Schedule, wait_one, wait_all}
use n_mpc.Actors.Counting.{one_if, count, All-get}
use n_mpc.Actors.Tracked.{Tracks}
use n_mpc.Actors.Scheduled.{at, waiting, ids, done_ids, IsScheduled, finish_job-eq}
use n_mpc.Actors.Rounds.{Round, round, work_left, left}

is_nil-false : {A : Type 0} (xs : List A) → 0 < length xs → is_nil xs ≡ false
is_nil-false [] h = absurd (omega arith)
is_nil-false (x ∷ xs) h = refl

count-le : (x : ℕ) (xs : List ℕ) → count x xs ≤ length xs
count-le x [] = omega arith
count-le x (y ∷ ys) = ground (arith, count-le x ys)

left-le :
    {Data : Type 0} (x : ℕ) (d : Dispatcher Data) (refs : List (Job Data))
    → left x d refs ≤ work_left d refs
left-le x d refs =
    omega
      (arith, count-le x (ids refs), count-le x (waiting d), length-map (λ job. job.block_id) refs)

module _ {Data Out : Type 0} (do_action : (block_id : ℕ) → Work Data → Done Out) where
  wait_one-round :
      (turn : ℕ) (d : Dispatcher Data) (refs : List (Job Data)) (done : List (ℕ × Option Out))
      → IsScheduled d refs
      → 0 < length refs
      → (job : Job Data) × (r : Round do_action d refs job) × (wait_one do_action turn
            (at d refs done)
          ≡ (
            ok (is_nil r.jobs),
            at r.after r.jobs
                (done ++ (job.block_id, (do_action job.block_id job.work).block_data) ∷ []),
          ))
  unfolding wait_one
  wait_one-round turn d refs done h busy =
      let p = turn % length refs in
      let (job, found) = get_elem-lt refs p (mod-lt turn busy) in
      let (r, queued) = round do_action d refs h p job found in
      let finished =
        finish_job-eq do_action d refs done job
          (All-get (λ j. j.block_id < length d.data_status) refs p job found h.below) in
      (
        job,
        r,
        ground (
          arith,
          found,
          finished,
          queued (done ++ (job.block_id, (do_action job.block_id job.work).block_data) ∷ []),
        ),
      )

  count-done :
      (x : ℕ) (done : List (ℕ × Option Out)) (i : ℕ) (out : Option Out)
      → count x (done_ids (done ++ (i, out) ∷ [])) ≡ count x (done_ids done) + one_if x i
  count-done x [] i out = omega arith
  count-done x (entry ∷ done) i out = omega (arith, count-done x done i out)

  -- What the loop comes to from a state with some jobs.
  pub record Ended (turns : List ℕ) (d : Dispatcher Data) (refs : List (Job Data))
      (done : List (ℕ × Option Out)) : Type 0 where
    pub final : Schedule Data Out
    pub result : wait_all do_action turns (at d refs done) ≡ (ok true, final)
    pub counts :
        (x : ℕ) → count x (done_ids final.completed) ≡ count x (done_ids done) + left x d refs
    pub tracked :
        (work_of : ℕ → Work Data) (n : ℕ)
        → Tracks do_action work_of n d refs done
        → Tracks do_action work_of n final.dispatcher final.result_refs final.completed

  pub wait_all-ends :
      (turns : List ℕ) (d : Dispatcher Data) (refs : List (Job Data)) (done : List (ℕ × Option Out))
      → IsScheduled d refs
      → 0 < length refs
      → work_left d refs ≤ length turns
      → Ended turns d refs done
  unfolding wait_all
  wait_all-ends [] d refs done h busy enough = absurd (omega arith)
  wait_all-ends (turn ∷ turns) d refs done h busy enough =
      let (job, r, once) = wait_one-round turn d refs done h busy in
      let out = (do_action job.block_id job.work).block_data in
      let later = done ++ (job.block_id, out) ∷ [] in
      elim r.busy [
        | inr over ↦ record {
          final = at r.after r.jobs later;
          result = ground (arith, once, over.0);
          counts = λ x. omega (
            arith,
            count-done x done job.block_id out,
            r.balance x,
            left-le x r.after r.jobs,
            over.1,
          );
          tracked = λ work_of n t. r.tracked work_of n done t;
        }
        | inl more ↦
            let rest =
              wait_all-ends turns r.after r.jobs later r.scheduled more (omega (arith, r.fewer)) in
            record {
              final = rest.final;
              result = ground (arith, once, is_nil-false r.jobs more, rest.result);
              counts = λ x.
                  omega (arith, count-done x done job.block_id out, r.balance x, rest.counts x);
              tracked = λ work_of n t. rest.tracked work_of n (r.tracked work_of n done t);
            }
      ]
