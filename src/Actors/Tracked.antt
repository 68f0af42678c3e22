-- ===== src/Actors/Tracked.antt =====
-- What the blocks come to while the jobs are scheduled: each is worked on with its own data, and a
-- block that is done has the counts and the output of that work.
use n_mpc.Prelude.{
  ℕ, zero, suc, ◌<◌, ◌≡◌, ◌≢◌, refl, ap, sym, ◌∙◌, subst, true, false, Option, none, some, List, [],
  ◌∷◌, ◌++◌, length, length-set, get_elem?, set, get_elem?-set_self, get_elem?-set_ne, ◌⊎◌, ◌==◌,
  arith, All, inl, inr, Bool-cases,
}
use n_mpc.Actors.Dispatch.{
  Block, Dispatcher, Work, processed, procssing, is_init, find_init, prepare,
}
use n_mpc.Actors.Dispatched.{get_elem-lt, work_at, length-prepare}
use n_mpc.Actors.Schedule.{Job, Done}
use n_mpc.Actors.Counting.{All-append}
use n_mpc.Actors.Scheduled.{Given, reported}

find_init-found :
    (blocks : List Block) (i : ℕ) (block : Block)
    → find_init blocks ≡ some i
    → get_elem? blocks i ≡ some block
    → is_init block.status ≡ true
unfolding find_init
find_init-found [] i block h e = absurd (cc)
find_init-found (b ∷ rest) zero block h e = ground (arith, h, e)
find_init-found (b ∷ rest) (suc i) block h e = ground (arith, h, find_init-found rest i block, e)

get_elem?-prepare_ne :
    (i j : ℕ) (blocks : List Block) → i ≢ j → get_elem? (prepare i blocks) j ≡ get_elem? blocks j
unfolding prepare
get_elem?-prepare_ne i j [] ne = refl
get_elem?-prepare_ne zero zero (b ∷ rest) ne = absurd (ne refl)
get_elem?-prepare_ne zero (suc j) (b ∷ rest) ne = refl
get_elem?-prepare_ne (suc i) zero (b ∷ rest) ne = refl
get_elem?-prepare_ne (suc i) (suc j) (b ∷ rest) ne =
    get_elem?-prepare_ne i j rest (λ e. ne (ap suc e))

get_elem?-prepare_self :
    (i : ℕ) (blocks : List Block) (block : Block)
    → get_elem? (prepare i blocks) i ≡ some block
    → is_init block.status ≡ false
unfolding prepare
get_elem?-prepare_self i [] block h = absurd (cc)
get_elem?-prepare_self zero (b ∷ rest) block h = ground (arith, h)
get_elem?-prepare_self (suc i) (b ∷ rest) block h = get_elem?-prepare_self i rest block h

All-map :
    {A : Type 0} (P Q : A → Type 0) (xs : List A) → ((a : A) → P a → Q a) → All P xs → All Q xs
All-map P Q [] f h = tt
All-map P Q (x ∷ xs) f h = (f x h.0, All-map P Q xs f h.1)

pub some-injective : {A : Type 0} (a b : A) → some a ≡ some b → a ≡ b
some-injective a b e = cc

false-ne_true : false ≢ true
false-ne_true e = absurd (cc)

pub same-cases : (i j : ℕ) → (i ≡ j) ⊎ (i ≢ j)
same-cases i j = elim (Bool-cases (i == j)) [
  | inl e ↦ inl (ground (arith, e))
  | inr e ↦ inr (λ same. ground (arith, e, same))
]

module _ {Data Out : Type 0} (do_action : (block_id : ℕ) → Work Data → Done Out)
    (work_of : ℕ → Work Data) where
  -- What the action comes to for a block.
  abbrev pub done_of : ℕ → Done Out
  done_of i = do_action i (work_of i)

  abbrev pub done_block : ℕ → Block
  done_block i = record {
    status = processed;
    original = some (done_of i).original;
    joined = some (done_of i).joined;
  }

  pub record Tracks (n : ℕ) (d : Dispatcher Data) (refs : List (Job Data))
      (done : List (ℕ × Option Out)) : Type 0 where
    pub size : length d.data_status ≡ n
    pub waits :
        (j : ℕ) (block : Block)
        → get_elem? d.data_status j ≡ some block
        → is_init block.status ≡ true
        → work_at d j ≡ some (work_of j)
    pub jobs : All (λ job. job.work ≡ work_of job.block_id) refs
    pub outputs : All (λ entry. entry.1 ≡ (done_of entry.0).block_data) done
    pub statuses : All (λ entry. get_elem? d.data_status entry.0 ≡ some (done_block entry.0)) done

  -- A block that is given out.
  pub Tracks-given :
      (n : ℕ) (d : Dispatcher Data) (refs : List (Job Data)) (done : List (ℕ × Option Out)) (i : ℕ)
      (given : Given d i)
      → find_init d.data_status ≡ some i
      → Tracks n d refs done
      → (given.work ≡ work_of i) × Tracks n given.after refs done
  Tracks-given n d refs done i given found h =
      let statuses : (j : ℕ)
          → get_elem? given.after.data_status j ≡ get_elem? (prepare i d.data_status) j =
        λ j. ap (λ l. get_elem? l j) given.statuses in
      let (block, at_i) = get_elem-lt d.data_status i given.below in
      let init_i = find_init-found d.data_status i block found at_i in
      let known = h.waits i block at_i init_i in
      (
        some-injective given.work (work_of i) (sym given.own ∙ known),
        record {
          size = ap (λ l. length l) given.statuses ∙ length-prepare i d.data_status ∙ h.size;
          waits = λ j b e fresh. elim (same-cases i j) [
            | inl same ↦
                let at_same : get_elem? (prepare i d.data_status) i ≡ some b =
                  subst (λ k. get_elem? (prepare i d.data_status) k ≡ some b) (sym same)
                    (sym (statuses j) ∙ e) in
                absurd
                  (false-ne_true (sym (get_elem?-prepare_self i d.data_status b at_same) ∙ fresh))
            | inr ne ↦
                given.others j ne
                ∙ h.waits j b
                    (sym (get_elem?-prepare_ne i j d.data_status ne) ∙ sym (statuses j) ∙ e) fresh
          ];
          jobs = h.jobs;
          outputs = h.outputs;
          statuses =
              All-map (λ entry. get_elem? d.data_status entry.0 ≡ some (done_block entry.0))
                (λ entry. get_elem? given.after.data_status entry.0 ≡ some (done_block entry.0))
                done
                (λ entry e. elim (same-cases i entry.0) [
                  | inl same ↦
                      let at_same : get_elem? d.data_status i ≡ some (done_block entry.0) =
                        subst (λ k. get_elem? d.data_status k ≡ some (done_block entry.0))
                          (sym same) e in
                      absurd (
                        false-ne_true
                          (find_init-found d.data_status i (done_block entry.0) found at_same))
                  | inr ne ↦ statuses entry.0 ∙ get_elem?-prepare_ne i entry.0 d.data_status ne ∙ e
                ])
                h.statuses;
        },
      )

  -- A job that reports its end.
  pub Tracks-reported :
      (n : ℕ) (d : Dispatcher Data) (refs : List (Job Data)) (done : List (ℕ × Option Out))
      (job : Job Data)
      → job.work ≡ work_of job.block_id
      → job.block_id < n
      → Tracks n d refs done
      → let out = do_action job.block_id job.work in
        Tracks n (reported job.block_id out d) refs (done ++ (job.block_id, out.block_data) ∷ [])
  Tracks-reported n d refs done job own lt h =
      let i = job.block_id in
      let out = do_action i job.work in
      let out_eq : out ≡ done_of i = ap (λ w. do_action i w) own in
      let going : Block = record { status = procssing; original = none; joined = none } in
      let block : Block = record {
        status = processed;
        original = some out.original;
        joined = some out.joined;
      } in
      let block_eq : block ≡ done_block i =
        ap
          (λ (o : Done Out). record {
            status = processed;
            original = some o.original;
            joined = some o.joined;
          })
          out_eq in
      let once = set d.data_status i going in
      let size : length (set once i block) ≡ length d.data_status =
        length-set once i block ∙ length-set d.data_status i going in
      let self : get_elem? (set once i block) i ≡ some (done_block i) =
        get_elem?-set_self once i block (omega (arith, length-set d.data_status i going, h.size))
        ∙ ap some block_eq in
      let other : (j : ℕ) → i ≢ j → get_elem? (set once i block) j ≡ get_elem? d.data_status j =
        λ j ne. get_elem?-set_ne once i j block ne ∙ get_elem?-set_ne d.data_status i j going ne in
      record {
        size = size ∙ h.size;
        waits = λ j b e fresh. elim (same-cases i j) [
          | inl same ↦
              let at_same : get_elem? (set once i block) i ≡ some b =
                subst (λ k. get_elem? (set once i block) k ≡ some b) (sym same) e in
              let is_done = some-injective (done_block i) b (sym self ∙ at_same) in
              absurd (false-ne_true (ap (λ (c : Block). is_init c.status) is_done ∙ fresh))
          | inr ne ↦ h.waits j b (sym (other j ne) ∙ e) fresh
        ];
        jobs = h.jobs;
        outputs =
            All-append (λ entry. entry.1 ≡ (done_of entry.0).block_data) done (i, out.block_data)
              (ap (λ (o : Done Out). o.block_data) out_eq) h.outputs;
        statuses =
            All-append (λ entry. get_elem? (set once i block) entry.0 ≡ some (done_block entry.0))
              done (i, out.block_data) self
              (All-map (λ entry. get_elem? d.data_status entry.0 ≡ some (done_block entry.0))
                (λ entry. get_elem? (set once i block) entry.0 ≡ some (done_block entry.0)) done
                (λ entry e. elim (same-cases i entry.0) [
                  | inl same ↦
                      subst (λ k. get_elem? (set once i block) k ≡ some (done_block k)) same self
                  | inr ne ↦ other entry.0 ne ∙ e
                ])
                h.statuses);
      }

  pub Tracks-jobs :
      (n : ℕ) (d : Dispatcher Data) (refs jobs : List (Job Data)) (done : List (ℕ × Option Out))
      → All (λ job. job.work ≡ work_of job.block_id) jobs
      → Tracks n d refs done
      → Tracks n d jobs done
  Tracks-jobs n d refs jobs done works h = record {
    size = h.size;
    waits = h.waits;
    jobs = works;
    outputs = h.outputs;
    statuses = h.statuses;
  }
