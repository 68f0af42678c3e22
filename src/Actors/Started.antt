-- ===== src/Actors/Started.antt =====
-- The first jobs, and the whole run from fresh blocks on.
use n_mpc.Prelude.{
  ltb, ℕ, zero, suc, ◌+◌, ◌<◌, ◌≤◌, min, ◌≡◌, refl, sym, ◌∙◌, ap, inl, inr, true, Option, List, [],
  ◌∷◌, ◌++◌, map, length, length-append, if◌then◌else◌, arith, All, subst, Option-cases,
}
use n_mpc.Prelude.Result.{ok}
use n_mpc.Actors.Dispatch.{is_init, Block, Dispatcher, Work, find_init, get_data_block_count}
use n_mpc.Actors.Dispatched.{unprocessed, unprocessed-none, supply}
use n_mpc.Actors.Schedule.{Schedule, Job, Done, start_jobs, new_schedule, run_jobs}
use n_mpc.Actors.Counting.{one_if, count, AreKeyed, AreKeyed-append, All-append}
use n_mpc.Actors.Tracked.{Tracks, Tracks-given, Tracks-jobs}
use n_mpc.Actors.Scheduled.{at, give, waiting, ids, done_ids, IsScheduled}
use n_mpc.Actors.Waited.{wait_all-ends}
use n_mpc.Actors.Rounds.{work_left, left}

count-map-append :
    {A : Type 0} (key : A → ℕ) (x : ℕ) (xs : List A) (a : A)
    → count x (map key (xs ++ a ∷ [])) ≡ count x (map key xs) + one_if x (key a)
count-map-append key x [] a = omega arith
count-map-append key x (y ∷ ys) a = omega (arith, count-map-append key x ys a)

-- Of blocks that nobody has, all are waiting, each once.
length-fresh :
    (k : ℕ) (blocks : List Block)
    → All (λ block. is_init block.status ≡ true) blocks
    → length (unprocessed k blocks) ≡ length blocks
length-fresh k [] fresh = refl
length-fresh k (block ∷ rest) (new, fresh) = ground (arith, new, length-fresh (suc k) rest fresh)

count-fresh :
    (x k : ℕ) (blocks : List Block)
    → All (λ block. is_init block.status ≡ true) blocks
    → count x (unprocessed k blocks) + (if ltb x k then 1 else 0)
      ≡ (if ltb x (k + length blocks) then 1 else 0)
count-fresh x k [] fresh = ground arith
count-fresh x k (block ∷ rest) (new, fresh) = ground (arith, new, count-fresh x (suc k) rest fresh)

module _ {Data Out : Type 0} (do_action : (block_id : ℕ) → Work Data → Done Out) where
  -- The first jobs, one for each actor.
  record Started (actor number : ℕ) (d : Dispatcher Data) (refs : List (Job Data))
      (done : List (ℕ × Option Out)) : Type 0 where
    after : Dispatcher Data
    jobs : List (Job Data)
    result : start_jobs do_action actor number (at d refs done) ≡ (ok tt, at after jobs done)
    scheduled : IsScheduled after jobs
    busy : length jobs ≡ length refs + number
    balance : (x : ℕ) → left x after jobs ≡ left x d refs
    same : work_left after jobs ≡ work_left d refs
    tracked :
        (work_of : ℕ → Work Data) (n : ℕ)
        → Tracks do_action work_of n d refs done
        → Tracks do_action work_of n after jobs done

  start_jobs-Started :
      (number : ℕ) (d : Dispatcher Data) (refs : List (Job Data)) (done : List (ℕ × Option Out))
      → IsScheduled d refs
      → AreKeyed (λ job. job.actor_index) 0 refs
      → number ≤ length (waiting d)
      → Started (length refs) number d refs done
  unfolding start_jobs
  start_jobs-Started zero d refs done h keyed enough = record {
    after = d;
    jobs = refs;
    result = refl;
    scheduled = h;
    busy = omega arith;
    balance = λ x. refl;
    same = refl;
    tracked = λ work_of n t. t;
  }
  start_jobs-Started (suc number) d refs done h keyed enough =
      elim (Option-cases (find_init d.data_status)) [
        | inl e ↦ absurd (omega (arith, ap (λ l. length l) (unprocessed-none 0 d.data_status e)))
        | inr e ↦
            let i = e.0 in
            let given = give d i h.ready e.1 in
            let new : Job Data = record {
              actor_index = length refs;
              block_id = i;
              work = given.work;
            } in
            let more = refs ++ new ∷ [] in
            let grown : length more ≡ suc (length refs) =
              omega (arith, length-append refs (new ∷ [])) in
            let joined : (x : ℕ) → count x (ids more) ≡ count x (ids refs) + one_if x i =
              λ x. count-map-append (λ job. job.block_id) x refs new in
            let taken : (x : ℕ) → count x (waiting d) ≡ one_if x i + count x (waiting given.after) =
              λ x. ap (λ l. count x l) given.split in
            let keyed' = AreKeyed-append (λ job. job.actor_index) 0 refs new (omega arith) keyed in
            let below =
              subst (λ n. All (λ job. job.block_id < n) more) (sym given.blocks)
                (All-append (λ job. job.block_id < length d.data_status) refs new given.below
                  h.below) in
            let h' : IsScheduled given.after more = record {
              places = inr keyed';
              once = λ x. omega (arith, joined x, taken x, h.once x);
              below = below;
              ready = given.supplied ∙ h.ready ∙ sym given.blocks;
            } in
            let rest =
              start_jobs-Started number given.after more done h' keyed'
                (omega (arith, ap (λ l. length l) given.split)) in
            let go =
              subst
                (λ a.
                  start_jobs do_action a number (at given.after more done)
                  ≡ (ok tt, at rest.after rest.jobs done))
                grown rest.result in
            record {
              after = rest.after;
              jobs = rest.jobs;
              result = ground (arith, given.got, go);
              scheduled = rest.scheduled;
              busy = omega (arith, rest.busy, grown);
              balance = λ x. omega (arith, rest.balance x, joined x, taken x);
              same = omega (arith, rest.same, grown, ap (λ l. length l) given.split);
              tracked = λ work_of n t.
                  let next = Tracks-given do_action work_of n d refs done i given e.1 t in
                  rest.tracked work_of n (
                    Tracks-jobs do_action work_of n given.after refs more done
                      (All-append (λ j. j.work ≡ work_of j.block_id) refs new next.0 t.jobs)
                      next.1);
            }
      ]

  -- The end of a run, and what is known of it.
  pub record Completed (max_actors : ℕ) (turns : List ℕ) (d : Dispatcher Data) : Type 0 where
    pub final : Schedule Data Out
    pub result : run_jobs do_action max_actors turns (new_schedule do_action d) ≡ (ok true, final)
    pub counts :
        (x : ℕ)
        → count x (done_ids final.completed) ≡ (if ltb x (length d.data_status) then 1 else 0)
    pub tracked :
        (work_of : ℕ → Work Data) (n : ℕ)
        → Tracks do_action work_of n d [] []
        → Tracks do_action work_of n final.dispatcher final.result_refs final.completed

  pub run_jobs-Completed :
      (max_actors : ℕ) (turns : List ℕ) (d : Dispatcher Data)
      → supply d ≡ length d.data_status
      → All (λ block. is_init block.status ≡ true) d.data_status
      → 0 < length d.data_status
      → 0 < max_actors
      → length d.data_status ≤ length turns
      → Completed max_actors turns d
  unfolding run_jobs get_data_block_count
  run_jobs-Completed max_actors turns d ready fresh some_blocks some_actors enough =
      let n = length d.data_status in
      let all = length-fresh 0 d.data_status fresh in
      let each : (x : ℕ) → count x (waiting d) ≡ (if ltb x n then 1 else 0) =
        λ x. ground (arith, count-fresh x 0 d.data_status fresh) in
      let h : IsScheduled d [] = record {
        places = inr tt;
        once = λ x. ground (arith, each x);
        below = tt;
        ready = ready;
      } in
      let started = start_jobs-Started (min n max_actors) d [] [] h tt (omega (arith, all)) in
      let ended =
        wait_all-ends do_action turns started.after started.jobs [] started.scheduled
          (omega (arith, started.busy)) (omega (arith, started.same, all)) in
      record {
        final = ended.final;
        result = ground (arith, started.result, ended.result);
        counts = λ x. ground (arith, ended.counts x, started.balance x, each x);
        tracked = λ work_of k t. ended.tracked work_of k (started.tracked work_of k t);
      }

  -- Where there are blocks, none of them given out yet, something to work on for each, and at least
  -- one actor: after as many rounds as there are blocks the loop has ended, in whatever order the
  -- jobs were done, and every block has been done exactly once.
  pub run_jobs-completed :
      (max_actors : ℕ) (turns : List ℕ) (d : Dispatcher Data)
      → supply d ≡ length d.data_status
      → All (λ block. is_init block.status ≡ true) d.data_status
      → 0 < length d.data_status
      → 0 < max_actors
      → length d.data_status ≤ length turns
      → ((run_jobs do_action max_actors turns (new_schedule do_action d)).0 ≡ ok true)
        × ((x : ℕ)
            → count x (
                done_ids
                  (run_jobs do_action max_actors turns (new_schedule do_action d)).1.completed)
              ≡ (if ltb x (length d.data_status) then 1 else 0))
  run_jobs-completed max_actors turns d ready fresh some_blocks some_actors enough =
      let c = run_jobs-Completed max_actors turns d ready fresh some_blocks some_actors enough in
      (
        ap (λ r. r.0) c.result,
        λ x. ap (λ r. count x (done_ids r.1.completed)) c.result ∙ c.counts x,
      )
