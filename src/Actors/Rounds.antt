-- ===== src/Actors/Rounds.antt =====
-- A round of the scheduling keeps every block in one hand, and leaves one less to do.
use n_mpc.Prelude.{
  remove_at, ℕ, zero, suc, ◌+◌, ◌<◌, ◌≡◌, refl, sym, subst, ◌∙◌, ap, ◌⊎◌, inl, inr, Option, none,
  some, List, [], ◌∷◌, ◌++◌, length, length-set, get_elem?, set, arith, All, Option-cases,
}
use n_mpc.Prelude.Result.{ok}
use n_mpc.Actors.Dispatch.{Dispatcher, Work, find_init}
use n_mpc.Actors.Dispatched.{unprocessed-none, supply}
use n_mpc.Actors.Schedule.{Job, Done, queue_next}
use n_mpc.Actors.Counting.{
  one_if, count, count-set, count-remove_at, length-remove_at, All-get, All-set, All-remove_at,
  AreKeyed, AreKeyed-get, AreKeyed-set,
}
use n_mpc.Actors.Tracked.{Tracks, Tracks-given, Tracks-reported, Tracks-jobs}
use n_mpc.Actors.Scheduled.{
  at, waiting, Given, give, ids, IsScheduled, reported, waiting-reported, length-reported,
  queue_next-none, queue_next-some, next_job,
}

get_elem-length :
    {A : Type 0} (xs : List A) (i : ℕ) (a : A) → get_elem? xs i ≡ some a → i < length xs
get_elem-length [] i a h = absurd (cc)
get_elem-length (x ∷ xs) zero a h = omega arith
get_elem-length (x ∷ xs) (suc i) a h = omega (arith, get_elem-length xs i a h)

nil-cases : {A : Type 0} (xs : List A) → (0 < length xs) ⊎ (xs ≡ [])
nil-cases [] = inr refl
nil-cases (x ∷ xs) = inl (omega arith)

-- How much is still to be done.
abbrev pub work_left : {Data : Type 0} → Dispatcher Data → List (Job Data) → ℕ
work_left d refs = length refs + length (waiting d)

-- How often a block is in the hands of a job, or in nobody's.
abbrev pub left : {Data : Type 0} → ℕ → Dispatcher Data → List (Job Data) → ℕ
left x d refs = count x (ids refs) + count x (waiting d)

pub record Round {Data Out : Type 0} (do_action : (block_id : ℕ) → Work Data → Done Out)
    (d : Dispatcher Data) (refs : List (Job Data)) (job : Job Data) : Type 0 where
  pub after : Dispatcher Data
  pub jobs : List (Job Data)
  pub scheduled : IsScheduled after jobs
  pub balance : (x : ℕ) → one_if x job.block_id + left x after jobs ≡ left x d refs
  pub fewer : suc (work_left after jobs) ≡ work_left d refs
  pub busy : (0 < length jobs) ⊎ ((jobs ≡ []) × (work_left after jobs ≡ 0))
  pub tracked :
      (work_of : ℕ → Work Data) (n : ℕ) (done : List (ℕ × Option Out))
      → Tracks do_action work_of n d refs done
      → Tracks do_action work_of n after jobs
          (done ++ (job.block_id, (do_action job.block_id job.work).block_data) ∷ [])

module _ {Data Out : Type 0} (do_action : (block_id : ℕ) → Work Data → Done Out)
    (d : Dispatcher Data) (refs : List (Job Data)) (h : IsScheduled d refs) (p : ℕ) (job : Job Data)
    (at_p : get_elem? refs p ≡ some job) where
  key : Job Data → ℕ
  key j = j.block_id

  told : Dispatcher Data
  told = reported job.block_id (do_action job.block_id job.work) d

  -- The results with that of the job.
  abbrev after_job : List (ℕ × Option Out) → List (ℕ × Option Out)
  after_job done = done ++ (job.block_id, (do_action job.block_id job.work).block_data) ∷ []

  in_place : p < length refs
  in_place = get_elem-length refs p job at_p

  in_range : job.block_id < length d.data_status
  in_range = All-get (λ j. j.block_id < length d.data_status) refs p job at_p h.below

  not_waiting : count job.block_id (waiting d) ≡ 0
  not_waiting =
      ground
        (arith, h.once job.block_id, count-remove_at (λ j. j.block_id) job.block_id refs p job at_p)

  waiting-told : waiting told ≡ waiting d
  unfolding told
  waiting-told =
      waiting-reported do_action d refs job.block_id (do_action job.block_id job.work) not_waiting

  length-told : length told.data_status ≡ length d.data_status
  unfolding told
  length-told = length-reported do_action d refs job.block_id (do_action job.block_id job.work)

  supply-told : supply told ≡ supply d
  unfolding told
  supply-told = refl

  tracked-told :
      (work_of : ℕ → Work Data) (n : ℕ) (done : List (ℕ × Option Out))
      → Tracks do_action work_of n d refs done
      → Tracks do_action work_of n told refs
          (done ++ (job.block_id, (do_action job.block_id job.work).block_data) ∷ [])
  unfolding told
  tracked-told work_of n done t =
      Tracks-reported do_action work_of n d refs done job
        (All-get (λ j. j.work ≡ work_of j.block_id) refs p job at_p t.jobs)
        (omega (arith, in_range, t.size)) t

  round-none : find_init told.data_status ≡ none → Round do_action d refs job
  round-none e =
      let empty : waiting told ≡ [] = unprocessed-none 0 told.data_status e in
      let before : waiting d ≡ [] = sym waiting-told ∙ empty in
      let shorter = length-remove_at refs p in_place in
      let gone : (x : ℕ)
          → count x (ids (remove_at p refs)) + one_if x job.block_id ≡ count x (ids refs) =
        λ x. count-remove_at (λ j. j.block_id) x refs p job at_p in
      record {
        after = told;
        jobs = remove_at p refs;
        scheduled = record {
          places = inl empty;
          once = λ x. omega (arith, gone x, h.once x, ap (λ l. count x l) empty);
          below =
              subst (λ n. All (λ j. j.block_id < n) (remove_at p refs)) (sym length-told)
                (All-remove_at (λ j. j.block_id < length d.data_status) refs p h.below);
          ready = supply-told ∙ h.ready ∙ sym length-told;
        };
        balance = λ x. omega (arith, gone x, ap (λ l. count x l) empty, ap (λ l. count x l) before);
        fewer = omega (arith, shorter, ap (λ l. length l) empty, ap (λ l. length l) before);
        tracked = λ work_of n done t.
            Tracks-jobs do_action work_of n told refs (remove_at p refs) (after_job done)
              (All-remove_at (λ j. j.work ≡ work_of j.block_id) refs p t.jobs)
              (tracked-told work_of n done t);
        busy = elim (nil-cases (remove_at p refs)) [
          | inl some_left ↦ inl some_left
          | inr none_left ↦
              inr (none_left, omega (arith, ap (λ l. length l) none_left, ap (λ l. length l) empty))
        ];
      }

  -- The next block goes to the actor that is free.
  module _ (i : ℕ) (found : find_init told.data_status ≡ some i) where
    given : Given told i
    given = give told i (supply-told ∙ h.ready ∙ sym length-told) found

    split : waiting d ≡ i ∷ waiting given.after
    split = sym waiting-told ∙ given.split

    in_order : AreKeyed (λ j. j.actor_index) 0 refs
    in_order = elim h.places [
      | inl empty ↦ absurd (omega (arith, ap (λ l. length l) (sym empty ∙ split)))
      | inr keyed ↦ keyed
    ]

    own_place : job.actor_index ≡ p
    own_place = omega (arith, AreKeyed-get (λ j. j.actor_index) 0 refs p job at_p in_order)

    new_job : Job Data
    new_job = next_job do_action d refs job i given.work

    round-some : Round do_action d refs job
    unfolding new_job
    round-some =
        let swapped : (x : ℕ)
            → count x (ids (set refs p new_job)) + one_if x job.block_id
              ≡ count x (ids refs) + one_if x i =
          λ x. count-set (λ j. j.block_id) x refs p job new_job at_p in
        let taken : (x : ℕ) → count x (waiting d) ≡ one_if x i + count x (waiting given.after) =
          λ x. ap (λ l. count x l) split in
        let same_length = length-set refs p new_job in
        let i_in_range : i < length d.data_status = omega (arith, given.below, length-told) in
        record {
          after = given.after;
          jobs = set refs p new_job;
          scheduled = record {
            places = inr (
                AreKeyed-set (λ j. j.actor_index) 0 refs p new_job (omega (arith, own_place))
                  in_order);
            once = λ x. omega (arith, swapped x, taken x, h.once x);
            below =
                subst (λ n. All (λ j. j.block_id < n) (set refs p new_job))
                  (sym (given.blocks ∙ length-told))
                  (All-set (λ j. j.block_id < length d.data_status) refs p new_job i_in_range
                    h.below);
            ready = given.supplied ∙ supply-told ∙ h.ready ∙ sym (given.blocks ∙ length-told);
          };
          balance = λ x. omega (arith, swapped x, taken x);
          fewer = omega (arith, same_length, ap (λ l. length l) split);
          busy = inl (omega (arith, same_length, in_place));
          tracked = λ work_of n done t.
              let now = tracked-told work_of n done t in
              let next =
                Tracks-given do_action work_of n told refs (after_job done) i given found now in
              Tracks-jobs do_action work_of n given.after refs (set refs p new_job) (after_job done)
                (All-set (λ j. j.work ≡ work_of j.block_id) refs p new_job next.0 t.jobs) next.1;
        }

    queued-some :
        (done : List (ℕ × Option Out))
        → queue_next do_action p job (at told refs done)
          ≡ (ok tt, at given.after (set refs p new_job) done)
    unfolding new_job
    queued-some done =
        queue_next-some do_action told refs done p job i given.work given.after given.got
        ∙ ap (λ q. (ok tt, at given.after (set refs q new_job) done)) own_place

  -- Whatever is left to give out, there is such a round.
  pub round :
      (r : Round do_action d refs job) × ((done : List (ℕ × Option Out))
        → queue_next do_action p job
            (at (reported job.block_id (do_action job.block_id job.work) d) refs done)
          ≡ (ok tt, at r.after r.jobs done))
  unfolding told round-none round-some
  round = elim (Option-cases (find_init told.data_status)) [
    | inl e ↦ (round-none e, λ done. queue_next-none do_action told refs done p job e)
    | inr e ↦ (round-some e.0 e.1, λ done. queued-some e.0 e.1 done)
  ]
