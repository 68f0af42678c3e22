-- ===== src/Actors/Dispatched.antt =====
-- Every block is given out once, in order.
use mathlib.Core.Option
use n_mpc.Prelude.{
  Option, ◌≢◌, get_elem?-set_ne, length-set, ℕ, zero, suc, ◌+◌, ◌<◌, ◌≤◌, ◌≡◌, refl, sym, ap, ◌∙◌,
  none, some, List, [], ◌∷◌, length, get_elem?, set, if◌then◌else◌, arith, inl, inr, Option-cases,
  Bool-cases,
}
use n_mpc.Prelude.Result.{ok, err}
use n_mpc.Prelude.Method.{Method}
use n_mpc.Actors.Dispatch.{
  Dispatcher, Block, Work, block_data, block_path, is_init, find_init, prepare, hand_out,
  get_next_unprocessed_data_and_use,
}

-- The indices of the blocks that nobody has, counted from `i` on.
abbrev pub unprocessed : ℕ → List Block → List ℕ
unprocessed i [] = []
unprocessed i (block ∷ rest) =
    let later = unprocessed (suc i) rest in if is_init block.status then i ∷ later else later

pub unprocessed-none :
    (k : ℕ) (blocks : List Block) → find_init blocks ≡ none → unprocessed k blocks ≡ []
unfolding find_init
unprocessed-none k [] h = refl
unprocessed-none k (block ∷ rest) h = ground (arith, unprocessed-none (suc k) rest)

pub unprocessed-prepare :
    (k : ℕ) (blocks : List Block) (i : ℕ)
    → find_init blocks ≡ some i
    → unprocessed k blocks ≡ (k + i) ∷ unprocessed k (prepare i blocks)
unfolding find_init prepare
unprocessed-prepare k [] i h = ground (arith, h)
unprocessed-prepare k (block ∷ rest) zero h = ground (arith, h)
unprocessed-prepare k (block ∷ rest) (suc i) h =
    let same : suc k + i ≡ k + suc i = omega arith in
    ground (arith, h, unprocessed-prepare (suc k) rest i, same)

pub find_init-lt : (blocks : List Block) (i : ℕ) → find_init blocks ≡ some i → i < length blocks
unfolding find_init
find_init-lt [] i h = ground (arith, h)
find_init-lt (block ∷ rest) zero h = omega arith
find_init-lt (block ∷ rest) (suc i) h = ground (arith, h, find_init-lt rest i)

pub length-prepare : (i : ℕ) (blocks : List Block) → length (prepare i blocks) ≡ length blocks
unfolding prepare
length-prepare i [] = refl
length-prepare zero (block ∷ rest) = refl
length-prepare (suc i) (block ∷ rest) = omega (arith, length-prepare i rest)

pub get_elem-lt :
    {A : Type 0} (xs : List A) (i : ℕ) → i < length xs → (a : A) × (get_elem? xs i ≡ some a)
get_elem-lt [] i h = absurd (omega arith)
get_elem-lt (x ∷ xs) zero h = (x, refl)
get_elem-lt (x ∷ xs) (suc i) h = get_elem-lt xs i (omega arith)

nil_of_length : {A : Type 0} (xs : List A) → length xs ≤ 0 → xs ≡ []
nil_of_length [] h = refl
nil_of_length (x ∷ xs) h = absurd (omega arith)

module _ {Data : Type 0} where
  -- How many blocks there is something to work on for.
  abbrev pub supply : Dispatcher Data → ℕ
  supply d = if d.is_single_file then length d.data_blocks else length d.data_paths

  -- What there is to work on for a block.
  abbrev pub work_at : Dispatcher Data → ℕ → Option (Work Data)
  work_at d i =
      if d.is_single_file
      then Option.map block_data (get_elem? d.data_blocks i)
      else Option.map block_path (get_elem? d.data_paths i)

  -- The indices that so many calls of `get_next_unprocessed_data_and_use` give out.
  abbrev pub take_calls : ℕ → Method (Dispatcher Data) (List ℕ)
  take_calls zero d = (ok [], d)
  take_calls (suc calls) d =
      let (next, d') = get_next_unprocessed_data_and_use d in
      let (others, after) = take_calls calls d' in
      elim next [
        | err e ↦ (err e, d')
        | ok none ↦ (ok [], d')
        | ok (some (i, work)) ↦ (elim others [
          | ok rest ↦ (ok (i ∷ rest), after)
          | err e ↦ (err e, after)
        ])
      ]

  pub record HandedOut (i : ℕ) (d : Dispatcher Data) : Type 0 where
    pub work : Work Data
    pub after : Dispatcher Data
    pub result : hand_out i d ≡ (ok work, after)
    pub statuses : after.data_status ≡ d.data_status
    pub supplied : supply after ≡ supply d
    pub own : work_at d i ≡ some work
    pub others : (j : ℕ) → i ≢ j → work_at after j ≡ work_at d j

  pub hand_out-HandedOut : (i : ℕ) (d : Dispatcher Data) → i < supply d → HandedOut i d
  unfolding hand_out
  hand_out-HandedOut i d h = elim (Bool-cases d.is_single_file) [
    | inl single ↦
        let found = get_elem-lt d.data_blocks i (ground (arith, h, single)) in
        record {
          work = block_data found.0;
          after = record d { data_blocks = set d.data_blocks i none };
          result = ground (arith, single, found.1);
          statuses = refl;
          supplied = ground (arith, single, length-set d.data_blocks i none);
          own = ground (arith, single, found.1);
          others = λ j ne. ground (arith, single, get_elem?-set_ne d.data_blocks i j none ne);
        }
    | inr several ↦
        let found = get_elem-lt d.data_paths i (ground (arith, h, several)) in
        record {
          work = block_path found.0;
          after = d;
          result = ground (arith, several, found.1);
          statuses = refl;
          supplied = refl;
          own = ground (arith, several, found.1);
          others = λ j ne. refl;
        }
  ]

  pub get_next_none :
      (d : Dispatcher Data)
      → find_init d.data_status ≡ none
      → get_next_unprocessed_data_and_use d ≡ (ok none, d)
  unfolding get_next_unprocessed_data_and_use
  get_next_none d e = ground (arith, e)

  pub get_next_some :
      (d : Dispatcher Data) (i : ℕ)
      → find_init d.data_status ≡ some i
      → (o : HandedOut i (record d { data_status = prepare i d.data_status }))
      → get_next_unprocessed_data_and_use d ≡ (ok (some (i, o.work)), o.after)
  unfolding get_next_unprocessed_data_and_use
  get_next_some d i e o = ground (arith, e, o.result)

  take_calls-none :
      (calls : ℕ) (d : Dispatcher Data)
      → get_next_unprocessed_data_and_use d ≡ (ok none, d)
      → take_calls (suc calls) d ≡ (ok [], d)
  take_calls-none calls d e = ground (arith, e)

  take_calls-some :
      (calls : ℕ) (d d' : Dispatcher Data) (i : ℕ) (work : Work Data) (rest : List ℕ)
      → get_next_unprocessed_data_and_use d ≡ (ok (some (i, work)), d')
      → (take_calls calls d').0 ≡ ok rest
      → take_calls (suc calls) d ≡ (ok (i ∷ rest), (take_calls calls d').1)
  take_calls-some calls d d' i work rest e e' = ground (arith, e, e')

  -- With something to work on for every block, at least as many calls as there are blocks that
  -- nobody has give out exactly these, each once and in order, and leave none.
  pub take_calls-unprocessed :
      (calls : ℕ) (d : Dispatcher Data)
      → supply d ≡ length d.data_status
      → length (unprocessed 0 d.data_status) ≤ calls
      → ((take_calls calls d).0 ≡ ok (unprocessed 0 d.data_status))
        × (unprocessed 0 (take_calls calls d).1.data_status ≡ [])
  take_calls-unprocessed zero d ready h =
      let empty = nil_of_length (unprocessed 0 d.data_status) h in
      (ap (λ l. ok l) (sym empty), empty)
  take_calls-unprocessed (suc calls) d ready h = elim (Option-cases (find_init d.data_status)) [
    | inl e ↦
        let empty = unprocessed-none 0 d.data_status e in
        rw (take_calls-none calls d (get_next_none d e)) (ap (λ l. ok l) (sym empty), empty)
    | inr e ↦
        let i = e.0 in
        let start : 0 + i ≡ i = omega arith in
        let split =
          unprocessed-prepare 0 d.data_status i e.1
          ∙ ap (λ k. k ∷ unprocessed 0 (prepare i d.data_status)) start in
        let lt = find_init-lt d.data_status i e.1 in
        let o =
          hand_out-HandedOut i (record d { data_status = prepare i d.data_status })
            (omega (arith, lt, ready)) in
        let ih =
          take_calls-unprocessed calls o.after
            (o.supplied
              ∙ ready
              ∙ sym (length-prepare i d.data_status)
              ∙ ap (λ l. length l) (sym o.statuses))
            (rw o.statuses (omega (arith, h, ap (λ l. length l) split))) in
        let tail = unprocessed 0 (prepare i d.data_status) in
        let rest : (take_calls calls o.after).0 ≡ ok tail =
          ih.0 ∙ ap (λ l. ok (unprocessed 0 l)) o.statuses in
        rw (take_calls-some calls d o.after i o.work tail (get_next_some d i e.1 o) rest)
          (ap (λ l. ok l) (sym split), ih.1)
  ]
