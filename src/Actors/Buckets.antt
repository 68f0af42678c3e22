-- ===== src/Actors/Buckets.antt =====
-- Rows in buckets: what two lists share bucket by bucket is what they share as a whole. Lists are
-- the same rows if every Boolean test holds of equally many of them.
use n_mpc.Prelude.{
  ℕ, suc, ◌+◌, ◌<◌, ◌≡◌, refl, sym, ap, ◌∙◌, Bool, true, false, ◌&&◌, List, [], ◌∷◌, ◌++◌, length,
  ltb, leb, ◌==◌, if◌then◌else◌, arith, All, filterb, anyb, inl, inr, Bool-cases,
}

module _ {A : Type 0} where
  abbrev pub countb : (A → Bool) → List A → ℕ
  countb p [] = 0
  countb p (x ∷ xs) = (if p x then 1 else 0) + countb p xs

  abbrev pub SameRows : List A → List A → Type 0
  SameRows xs ys = (p : A → Bool) → countb p xs ≡ countb p ys

  countb-append : (p : A → Bool) (xs ys : List A) → countb p (xs ++ ys) ≡ countb p xs + countb p ys
  countb-append p [] ys = omega arith
  countb-append p (x ∷ xs) ys = omega (arith, countb-append p xs ys)

  pub countb-filterb :
      (p q : A → Bool) (xs : List A) → countb p (filterb q xs) ≡ countb (λ x. q x && p x) xs
  countb-filterb p q [] = refl
  countb-filterb p q (x ∷ xs) = ground (arith, countb-filterb p q xs)

  pub countb-alike :
      (p q : A → Bool) (xs : List A) → All (λ x. p x ≡ q x) xs → countb p xs ≡ countb q xs
  countb-alike p q [] h = refl
  countb-alike p q (x ∷ xs) h = ground (arith, h.0, countb-alike p q xs h.1)

  anyb-countb : (p : A → Bool) (xs : List A) → anyb p xs ≡ ltb 0 (countb p xs)
  anyb-countb p [] = ground arith
  anyb-countb p (x ∷ xs) = ground (arith, anyb-countb p xs)

  pub All-of : (P Q : A → Type 0) (xs : List A) → ((x : A) → P x → Q x) → All P xs → All Q xs
  All-of P Q [] f h = tt
  All-of P Q (x ∷ xs) f h = (f x h.0, All-of P Q xs f h.1)

  -- What the rows that are kept have.
  pub All-kept :
      (P Q : A → Type 0) (q : A → Bool) (xs : List A)
      → ((x : A) → P x → q x ≡ true → Q x)
      → All P xs
      → All Q (filterb q xs)
  All-kept P Q q [] f h = tt
  All-kept P Q q (x ∷ xs) f h =
      let rest = All-kept P Q q xs f h.1 in
      (elim (q x)
          as (λ b. q x ≡ b → All Q (elim b [ true ↦ x ∷ filterb q xs | false ↦ filterb q xs ])) [
            | true ↦ λ e. (f x h.0 e, rest)
            | false ↦ λ e. rest
          ])
        refl

module _ {A : Type 0} (bucket : A → ℕ) (same : A → A → Bool) where
  -- The rows of one list that are in the other.
  abbrev pub shared : (own other : List A) → List A
  shared own other = filterb (λ x. anyb (λ y. same y x) other) own

  abbrev pub in_bucket : ℕ → List A → List A
  in_bucket i rows = filterb (λ x. bucket x == i) rows

  -- Lists that are the buckets from `i` on.
  abbrev pub AreBuckets : ℕ → List A → List (List A) → Type 0
  AreBuckets i rows [] = Unit {0}
  AreBuckets i rows (block ∷ blocks) =
      SameRows block (in_bucket i rows) × AreBuckets (suc i) rows blocks

  -- What two parties share, bucket by bucket.
  abbrev pub shared_in_buckets : (blocks others : List (List A)) → List A
  shared_in_buckets [] others = []
  shared_in_buckets (block ∷ blocks) [] = []
  shared_in_buckets (block ∷ blocks) (other ∷ others) =
      shared block other ++ shared_in_buckets blocks others

  -- Rows that are the same are in the same bucket.
  abbrev pub AreConsistent : (own other : List A) → Type 0
  AreConsistent own other = All (λ x. All (λ y. same y x ≡ true → bucket y ≡ bucket x) other) own

  module _ (own other : List A) (consistent : AreConsistent own other) where
    -- In its own bucket a row is found as well as in all of the list.
    found_in_bucket :
        (i : ℕ) (others : List A) (x : A)
        → SameRows others (in_bucket i other)
        → All (λ y. same y x ≡ true → bucket y ≡ bucket x) other
        → (bucket x == i) ≡ true
        → anyb (λ y. same y x) others ≡ anyb (λ y. same y x) other
    found_in_bucket i others x h law at_i =
        anyb-countb (λ y. same y x) others
        ∙ ap (λ k. ltb 0 k)
            (h (λ y. same y x)
              ∙ countb-filterb (λ y. same y x) (λ y. bucket y == i) other
              ∙ countb-alike (λ y. (bucket y == i) && same y x) (λ y. same y x) other
                  (All-of (λ y. same y x ≡ true → bucket y ≡ bucket x)
                    (λ y. ((bucket y == i) && same y x) ≡ same y x) other
                    (λ y l. elim (Bool-cases (same y x)) [
                      | inl e ↦ ground (arith, e, l e, at_i)
                      | inr e ↦ ground (arith, e)
                    ])
                    law))
        ∙ sym (anyb-countb (λ y. same y x) other)

    -- One bucket of both.
    shared-bucket :
        (i : ℕ) (block others : List A) (p : A → Bool)
        → SameRows block (in_bucket i own)
        → SameRows others (in_bucket i other)
        → countb p (shared block others) ≡ countb (λ x. (bucket x == i) && p x) (shared own other)
    shared-bucket i block others p h h' =
        let found = λ (x : A). anyb (λ y. same y x) others in
        let all = λ (x : A). anyb (λ y. same y x) other in
        countb-filterb p found block
        ∙ h (λ x. found x && p x)
        ∙ countb-filterb (λ x. found x && p x) (λ x. bucket x == i) own
        ∙ countb-alike (λ x. (bucket x == i) && (found x && p x))
            (λ x. all x && ((bucket x == i) && p x)) own
            (All-of (λ x. All (λ y. same y x ≡ true → bucket y ≡ bucket x) other)
              (λ x. ((bucket x == i) && (found x && p x)) ≡ (all x && ((bucket x == i) && p x))) own
              (λ x law. elim (Bool-cases (bucket x == i)) [
                | inl e ↦ ground (arith, e, found_in_bucket i others x h' law e)
                | inr e ↦ ground (arith, e)
              ])
              consistent)
        ∙ sym (countb-filterb (λ x. (bucket x == i) && p x) all own)

    -- Rows of the buckets from `i` to below `i + m`.
    abbrev between : ℕ → ℕ → (A → Bool) → A → Bool
    between i m p x = leb i (bucket x) && (ltb (bucket x) (i + m) && p x)

    between-suc :
        (i m : ℕ) (p : A → Bool) (rows : List A)
        → countb (λ x. (bucket x == i) && p x) rows + countb (between (suc i) m p) rows
          ≡ countb (between i (suc m) p) rows
    between-suc i m p [] = omega arith
    between-suc i m p (x ∷ rows) = ground (arith, between-suc i m p rows)

    between-none : (i : ℕ) (p : A → Bool) (rows : List A) → countb (between i 0 p) rows ≡ 0
    between-none i p [] = refl
    between-none i p (x ∷ rows) = ground (arith, between-none i p rows)

    shared-from :
        (i : ℕ) (blocks others : List (List A)) (p : A → Bool)
        → AreBuckets i own blocks
        → AreBuckets i other others
        → length blocks ≡ length others
        → countb p (shared_in_buckets blocks others)
          ≡ countb (between i (length blocks) p) (shared own other)
    shared-from i [] others p h h' e = sym (between-none i p (shared own other))
    shared-from i (block ∷ blocks) [] p h h' e = absurd (omega arith)
    shared-from i (block ∷ blocks) (o ∷ others) p h h' e = omega (
      arith,
      countb-append p (shared block o) (shared_in_buckets blocks others),
      shared-bucket i block o p h.0 h'.0,
      shared-from (suc i) blocks others p h.1 h'.1 (omega arith),
      between-suc i (length blocks) p (shared own other),
    )

    between-all :
        (n : ℕ) (p : A → Bool) (rows : List A)
        → All (λ x. bucket x < n) rows
        → countb (between 0 n p) rows ≡ countb p rows
    between-all n p [] h = refl
    between-all n p (x ∷ rows) h = ground (arith, h.0, between-all n p rows h.1)

    All-filterb : (P : A → Type 0) (q : A → Bool) (xs : List A) → All P xs → All P (filterb q xs)
    All-filterb P q [] h = tt
    All-filterb P q (x ∷ xs) h =
        elim (q x) as (λ b. All P (elim b [ true ↦ x ∷ filterb q xs | false ↦ filterb q xs ])) [
          | true ↦ (h.0, All-filterb P q xs h.1)
          | false ↦ All-filterb P q xs h.1
        ]

    pub shared_in_buckets-shared :
        (n : ℕ) (blocks others : List (List A))
        → AreBuckets 0 own blocks
        → AreBuckets 0 other others
        → length blocks ≡ n
        → length others ≡ n
        → All (λ x. bucket x < n) own
        → SameRows (shared_in_buckets blocks others) (shared own other)
    shared_in_buckets-shared n blocks others h h' e e' below p =
        shared-from 0 blocks others p h h' (e ∙ sym e')
        ∙ ap (λ m. countb (between 0 m p) (shared own other)) e
        ∙ between-all n p (shared own other)
            (All-filterb (λ x. bucket x < n) (λ x. anyb (λ y. same y x) other) own below)
