-- ===== src/Actors/Collected.antt =====
-- What `run_app` makes of the results of the jobs, in whatever order they came.
use n_mpc.Prelude.{
  ℕ, zero, suc, ◌+◌, ◌<◌, ◌≡◌, ◌≢◌, refl, ap, sym, ◌∙◌, subst, Bool, true, Option, none, some, List,
  [], ◌∷◌, length, length-set, get_elem?, set, get_elem?-set_self, get_elem?-set_ne, replicate,
  length-replicate, arith, All, ◌⊎◌, inl, inr,
}
use n_mpc.Actors.Dispatch.{Block, Counts, add_counts, no_counts, sum_results}
use n_mpc.Actors.Counting.{count}
use n_mpc.Actors.Tracked.{some-injective, same-cases}
use n_mpc.Actors.Scheduled.{done_ids}
use n_mpc.Actors.App.{place_outputs, last_has_data}

-- The values of a function from `k` on.
abbrev pub tabulate : {A : Type 0} → (f : ℕ → A) → (k n : ℕ) → List A
tabulate f k zero = []
tabulate f k (suc n) = f k ∷ tabulate f (suc k) n

abbrev pub total : (f : ℕ → Counts) → (k n : ℕ) → Counts
total f k zero = no_counts
total f k (suc n) = add_counts (some (f k)) (total f (suc k) n)

module _ {A : Type 0} where
  -- A list is known by its places.
  pub tabulate-eq :
      (f : ℕ → A) (k : ℕ) (xs : List A)
      → ((i : ℕ) → i < length xs → get_elem? xs i ≡ some (f (k + i)))
      → xs ≡ tabulate f k (length xs)
  tabulate-eq f k [] h = refl
  tabulate-eq f k (x ∷ xs) h =
      let here : k + 0 ≡ k = omega arith in
      let first : x ≡ f k =
        some-injective x (f k) (h 0 (omega arith) ∙ ap (λ j. some (f j)) here) in
      ap (λ y. y ∷ xs) first
      ∙ ap (λ l. f k ∷ l)
          (tabulate-eq f (suc k) xs (λ i lt.
            let next : k + suc i ≡ suc k + i = omega arith in
            h (suc i) (omega arith) ∙ ap (λ j. some (f j)) next))

count-other : (i j : ℕ) (rest : List ℕ) → i ≢ j → 0 < count i (j ∷ rest) → 0 < count i rest
count-other i j rest ne h = ground (arith, ne, h)

none-ne_some : {A : Type 0} (a : A) → none ≢ some a
none-ne_some a e = absurd (cc)

module _ {Out : Type 0} (out : ℕ → Option Out) where
  -- Every entry is the output of its block.
  abbrev pub AreOutputs : List (ℕ × Option Out) → Type 0
  AreOutputs done = All (λ entry. entry.1 ≡ out entry.0) done

  length-place_outputs :
      (done : List (ℕ × Option Out)) (refs : List (Option Out))
      → length (place_outputs done refs) ≡ length refs
  unfolding place_outputs
  length-place_outputs [] refs = refl
  length-place_outputs ((i, none) ∷ done) refs = length-place_outputs done refs
  length-place_outputs ((i, some o) ∷ done) refs =
      length-place_outputs done (set refs i (some o)) ∙ length-set refs i (some o)

  -- A place keeps its output once it is there, and gets it at the latest with the result.
  place_outputs-get :
      (done : List (ℕ × Option Out)) (refs : List (Option Out)) (i : ℕ)
      → AreOutputs done
      → i < length refs
      → (get_elem? refs i ≡ some (out i))
        ⊎ ((get_elem? refs i ≡ some none) × (0 < count i (done_ids done)))
      → get_elem? (place_outputs done refs) i ≡ some (out i)
  unfolding place_outputs
  place_outputs-get [] refs i h lt at_i = elim at_i [
    | inl e ↦ e
    | inr e ↦ absurd (omega (arith, e.1))
  ]
  place_outputs-get ((j, none) ∷ done) refs i h lt at_i = elim (same-cases i j) [
    | inl same ↦
        let nothing : none ≡ out i = h.0 ∙ ap out (sym same) in
        place_outputs-get done refs i h.1 lt
          (inl (elim at_i [ inl e ↦ e | inr e ↦ e.0 ∙ ap some nothing ]))
    | inr ne ↦
        place_outputs-get done refs i h.1 lt
          (elim at_i [ inl e ↦ inl e | inr e ↦ inr (e.0, count-other i j (done_ids done) ne e.1) ])
  ]
  place_outputs-get ((j, some o) ∷ done) refs i h lt at_i =
      let refs' = set refs j (some o) in
      let size : length refs' ≡ length refs = length-set refs j (some o) in
      place_outputs-get done refs' i h.1 (omega (arith, lt, size)) (elim (same-cases i j) [
        | inl same ↦ inl (
            subst (λ k. get_elem? refs' k ≡ some (out k)) (sym same)
              (get_elem?-set_self refs j (some o) (subst (λ k. k < length refs) same lt)
                ∙ ap some h.0))
        | inr ne ↦
            let kept = get_elem?-set_ne refs j i (some o) (λ e. ne (sym e)) in
            elim at_i [
              | inl e ↦ inl (kept ∙ e)
              | inr e ↦ inr (kept ∙ e.0, count-other i j (done_ids done) ne e.1)
            ]
      ])

  get_elem?-replicate :
      {A : Type 0} (n : ℕ) (a : A) (i : ℕ) → i < n → get_elem? (replicate n a) i ≡ some a
  get_elem?-replicate zero a i lt = absurd (omega arith)
  get_elem?-replicate (suc n) a zero lt = refl
  get_elem?-replicate (suc n) a (suc i) lt = get_elem?-replicate n a i (omega arith)

  -- When the results of all the blocks below `n` have come, their outputs are at their places.
  pub place_outputs-all :
      (n : ℕ) (done : List (ℕ × Option Out))
      → AreOutputs done
      → ((i : ℕ) → i < n → 0 < count i (done_ids done))
      → place_outputs done (replicate n none) ≡ tabulate out 0 n
  place_outputs-all n done h all =
      let none_yet : List (Option Out) = replicate n none in
      let placed = place_outputs done none_yet in
      let size : length placed ≡ n = length-place_outputs done none_yet ∙ length-replicate n none in
      tabulate-eq out 0 placed (λ i lt.
        let below : i < n = omega (arith, lt, size) in
        let start : 0 + i ≡ i = omega arith in
        place_outputs-get done none_yet i h
          (omega (arith, below, length-replicate n (let e : Option Out = none in e)))
          (inr (get_elem?-replicate n none i below, all i below))
        ∙ ap (λ k. some (out k)) (sym start))
      ∙ ap (λ k. tabulate out 0 k) size

  -- Every result has data, and there is one.
  pub last_has_data-true :
      (done : List (ℕ × Option Out)) (found : Bool)
      → All (λ entry. (o : Out) × (entry.1 ≡ some o)) done
      → (found ≡ true) ⊎ (0 < length done)
      → last_has_data found done ≡ true
  unfolding last_has_data
  last_has_data-true [] found h there = elim there [
    | inl e ↦ e
    | inr lt ↦ absurd (omega (arith, lt))
  ]
  last_has_data-true ((j, none) ∷ done) found h there = absurd (none-ne_some h.0.0 h.0.1)
  last_has_data-true ((j, some o) ∷ done) found h there =
      last_has_data-true done true h.1 (inl refl)

  -- Entries are of blocks that are counted.
  pub entries-below :
      (n : ℕ) (done : List (ℕ × Option Out))
      → ((i : ℕ) → 0 < count i (done_ids done) → i < n)
      → All (λ entry. entry.0 < n) done
  entries-below n [] h = tt
  entries-below n (entry ∷ done) h =
      (h entry.0 (ground arith), entries-below n done (λ i lt. h i (omega (arith, lt))))

  -- What holds of the entries holds of every block that is counted.
  pub All-counted :
      (P : ℕ → Type 0) (done : List (ℕ × Option Out)) (i : ℕ)
      → All (λ entry. P entry.0) done
      → 0 < count i (done_ids done)
      → P i
  All-counted P [] i h lt = absurd (omega (arith, lt))
  All-counted P (entry ∷ done) i h lt = elim (same-cases i entry.0) [
    | inl same ↦ subst P (sym same) h.0
    | inr ne ↦ All-counted P done i h.1 (count-other i entry.0 (done_ids done) ne lt)
  ]

  -- Results of blocks that have data have it.
  pub entries-data :
      (n : ℕ) (done : List (ℕ × Option Out))
      → AreOutputs done
      → All (λ entry. entry.0 < n) done
      → ((i : ℕ) → i < n → (o : Out) × (out i ≡ some o))
      → All (λ entry. (o : Out) × (entry.1 ≡ some o)) done
  entries-data n [] h below has_data = tt
  entries-data n (entry ∷ done) h below has_data =
      let own = has_data entry.0 below.0 in
      ((own.0, h.0 ∙ own.1), entries-data n done h.1 below.1 has_data)

  pub some_entry :
      (done : List (ℕ × Option Out)) (i : ℕ) → 0 < count i (done_ids done) → 0 < length done
  some_entry [] i lt = absurd (omega (arith, lt))
  some_entry (entry ∷ done) i lt = omega arith

-- The counts of blocks that are all done.
pub sum_results-total :
    (original joined : ℕ → Counts) (k n : ℕ) (a b : Counts) (block : ℕ → Block)
    → ((i : ℕ) → (block i).original ≡ some (original i))
    → ((i : ℕ) → (block i).joined ≡ some (joined i))
    → sum_results (tabulate block k n) a b
      ≡ (add_counts (some (total original k n)) a, add_counts (some (total joined k n)) b)
unfolding sum_results
sum_results-total original joined k zero a b block e e' = ground arith
sum_results-total original joined k (suc n) a b block e e' =
    rw (e k, e' k)
      (sum_results-total original joined (suc k) n (add_counts (some (original k)) a)
          (add_counts (some (joined k)) b) block e e'
        ∙ ground arith)
