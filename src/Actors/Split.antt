-- ===== src/Actors/Split.antt =====
-- What Ray makes of a sort with boundaries: the rows with each remainder.
use n_mpc.Prelude.{
  refl, ℕ, zero, suc, ◌+◌, ◌-◌, ◌<◌, ◌≤◌, ◌≡◌, sym, ◌∙◌, Bool, false, ◌&&◌, not, pos, List, [], ◌∷◌,
  map, ltb, ◌==◌, arith, All, filterb, String, length, ap,
}
use n_mpc.Prelude.Result.{ok}
use n_mpc.Psi.Cipher.{same_bytes}
use n_mpc.Actors.Columns.{Cell, number, binary, Table, cell_at, field_index}
use n_mpc.Actors.Repartition.{range_from}
use n_mpc.Actors.Reading.{hashed_mod_id}
use n_mpc.Actors.Buckets.{
  All-kept, SameRows, countb-filterb, countb-alike, All-of, in_bucket, AreBuckets,
}

abbrev pub number_in : Cell → ℕ
number_in c = elim c [ number (pos k) ↦ k | _ ↦ 0 ]

-- The remainder of a row, and whether two rows have the same hash.
abbrev pub row_bucket : List Cell → ℕ
row_bucket row = number_in (cell_at 1 row)

abbrev pub same_cell : Cell → Cell → Bool
same_cell (binary x) (binary y) = same_bytes x y
same_cell _ _ = false

abbrev pub same_hash : List Cell → List Cell → Bool
same_hash x y = same_cell (cell_at 0 x) (cell_at 0 y)

-- The rows between the boundaries of the column `k`.
abbrev pub is_below : (k b : ℕ) → List Cell → Bool
is_below k b row = ltb (number_in (cell_at k row)) b

abbrev pub split_rows : (k : ℕ) → List ℕ → List (List Cell) → List (List (List Cell))
split_rows k [] rows = rows ∷ []
split_rows k (b ∷ boundaries) rows =
    filterb (λ row. is_below k b row) rows
    ∷ split_rows k boundaries (filterb (λ row. not (is_below k b row)) rows)

abbrev pub AreSameBlocks : (xs ys : List (List (List Cell))) → Type 0
AreSameBlocks [] [] = Unit {0}
AreSameBlocks [] (y ∷ ys) = ⊥
AreSameBlocks (x ∷ xs) [] = ⊥
AreSameBlocks (x ∷ xs) (y ∷ ys) = SameRows x y × AreSameBlocks xs ys

-- A row with a number below `count` in the column `k`.
abbrev pub IsNumbered : (k count : ℕ) → List Cell → Type 0
IsNumbered k count row = (n : ℕ) × (cell_at k row ≡ number (pos n)) × (n < count)

-- What is relied on of a sort by the column of the remainders, all of which are numbers below
-- `count`, with the boundaries 1, …, count - 1: the rows between two boundaries are together.
abbrev pub IsPartition : (split : String → List ℕ → Table → List Table) → Type 0
IsPartition split =
    (count : ℕ) (df : Table) (k : ℕ)
    → 0 < count
    → field_index hashed_mod_id df.column_names ≡ ok k
    → All (IsNumbered k count) df.rows
    → AreSameBlocks (map (λ block. block.rows) (split hashed_mod_id (range_from 1 (count - 1)) df))
        (split_rows k (range_from 1 (count - 1)) df.rows)

pub AreBuckets-blocks :
    (i : ℕ) (rows : List (List Cell)) (xs ys : List (List (List Cell)))
    → AreSameBlocks xs ys
    → AreBuckets row_bucket same_hash i rows ys
    → AreBuckets row_bucket same_hash i rows xs
AreBuckets-blocks i rows [] [] h b = tt
AreBuckets-blocks i rows [] (y ∷ ys) h b = absurd h
AreBuckets-blocks i rows (x ∷ xs) [] h b = absurd h
AreBuckets-blocks i rows (x ∷ xs) (y ∷ ys) h b =
    (λ p. h.0 p ∙ b.0 p, AreBuckets-blocks (suc i) rows xs ys h.1 b.1)

AreBuckets-rows :
    (i : ℕ) (rows more : List (List Cell)) (blocks : List (List (List Cell)))
    → ((j : ℕ)
        → i ≤ j
        → SameRows (in_bucket row_bucket same_hash j rows) (in_bucket row_bucket same_hash j more))
    → AreBuckets row_bucket same_hash i rows blocks
    → AreBuckets row_bucket same_hash i more blocks
AreBuckets-rows i rows more [] h b = tt
AreBuckets-rows i rows more (block ∷ blocks) h b = (
  λ p. b.0 p ∙ h i (omega arith) p,
  AreBuckets-rows (suc i) rows more blocks (λ j le. h j (omega arith)) b.1,
)

-- Splitting between `i + 1`, …, `i + m` makes the buckets from `i` on.
pub split_rows-AreBuckets :
    (m i : ℕ) (rows : List (List Cell))
    → All (λ row. (i ≤ row_bucket row) × (row_bucket row < i + suc m)) rows
    → AreBuckets row_bucket same_hash i rows (split_rows 1 (range_from (suc i) m) rows)
split_rows-AreBuckets zero i rows h = (
  λ p. sym (
      countb-filterb p (λ row. row_bucket row == i) rows
      ∙ countb-alike (λ row. (row_bucket row == i) && p row) p rows
          (All-of (λ row. (i ≤ row_bucket row) × (row_bucket row < i + suc zero))
            (λ row. ((row_bucket row == i) && p row) ≡ p row) rows (λ row b. ground (arith, b)) h)),
  tt,
)
split_rows-AreBuckets (suc m) i rows h =
    let later = filterb (λ row. not (is_below 1 (suc i) row)) rows in
    (
      λ p.
          countb-filterb p (λ row. is_below 1 (suc i) row) rows
          ∙ countb-alike (λ row. is_below 1 (suc i) row && p row)
              (λ row. (row_bucket row == i) && p row) rows
              (All-of (λ row. (i ≤ row_bucket row) × (row_bucket row < i + suc (suc m)))
                (λ row. (is_below 1 (suc i) row && p row) ≡ ((row_bucket row == i) && p row)) rows
                (λ row b. ground (arith, b)) h)
          ∙ sym (countb-filterb p (λ row. row_bucket row == i) rows),
      AreBuckets-rows (suc i) later rows (split_rows 1 (range_from (suc (suc i)) m) later)
          (λ j le p.
            countb-filterb p (λ row. row_bucket row == j) later
            ∙ countb-filterb (λ row. (row_bucket row == j) && p row)
                (λ row. not (is_below 1 (suc i) row)) rows
            ∙ countb-alike (λ row. not (is_below 1 (suc i) row) && ((row_bucket row == j) && p row))
                (λ row. (row_bucket row == j) && p row) rows
                (All-of (λ row. (i ≤ row_bucket row) × (row_bucket row < i + suc (suc m)))
                  (λ row.
                    (not (is_below 1 (suc i) row) && ((row_bucket row == j) && p row))
                    ≡ ((row_bucket row == j) && p row))
                  rows (λ row b. ground (arith, le)) h)
            ∙ sym (countb-filterb p (λ row. row_bucket row == j) rows))
          (split_rows-AreBuckets m (suc i) later (
            All-kept (λ row. (i ≤ row_bucket row) × (row_bucket row < i + suc (suc m)))
              (λ row. (suc i ≤ row_bucket row) × (row_bucket row < suc i + suc m))
              (λ row. not (is_below 1 (suc i) row)) rows
              (λ row b e. (ground (arith, b, e), omega (arith, b))) h)),
    )

pub length-same_blocks :
    (xs ys : List (List (List Cell))) → AreSameBlocks xs ys → length xs ≡ length ys
length-same_blocks [] [] h = refl
length-same_blocks [] (y ∷ ys) h = absurd h
length-same_blocks (x ∷ xs) [] h = absurd h
length-same_blocks (x ∷ xs) (y ∷ ys) h = ap suc (length-same_blocks xs ys h.1)

pub length-split_rows :
    (k : ℕ) (boundaries : List ℕ) (rows : List (List Cell))
    → length (split_rows k boundaries rows) ≡ suc (length boundaries)
length-split_rows k [] rows = refl
length-split_rows k (b ∷ boundaries) rows =
    ap suc (length-split_rows k boundaries (filterb (λ row. not (is_below k b row)) rows))
