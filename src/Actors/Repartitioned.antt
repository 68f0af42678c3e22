-- ===== src/Actors/Repartitioned.antt =====
-- The blocks that two parties cut their files into: a row and its match in the other file have the
-- same hash, so that they are in blocks of the same number.
use native.Mathlib.Nat.{mod-lt}
use n_mpc.Prelude.{
  ℕ, suc, ◌+◌, ◌-◌, ◌%◌, ◌<◌, ◌≤◌, ◌≡◌, sym, ap, ◌∙◌, subst, true, some, List, ◌∷◌, map, length,
  arith, All, String,
}
use n_mpc.Prelude.Result.{Result, ok, bind-ok, ok_inj}
use n_mpc.Psi.Cipher.{same_bytes}
use n_mpc.Psi.Checked.{same_bytes_iff}
use n_mpc.Actors.Columns.{
  Cell, binary, Table, Hashing, cell_at, field_index, from_big_endian, add_hash_column,
}
use n_mpc.Actors.Reading.{hashed_id, hashed_mod_id}
use n_mpc.Actors.Paths.{Protocol}
use n_mpc.Actors.Repartition.{range_from, repartition_by_hash}
use n_mpc.Actors.Buckets.{
  SameRows, All-of, shared, AreBuckets, shared_in_buckets, AreConsistent, shared_in_buckets-shared,
}
use n_mpc.Actors.Split.{
  row_bucket, same_hash, same_cell, number_in, IsNumbered, IsPartition, AreSameBlocks, split_rows,
  AreBuckets-blocks, split_rows-AreBuckets,
}
use n_mpc.Actors.Whole.{length-range_from}
use n_mpc.Actors.Split.{length-same_blocks, length-split_rows}
use n_mpc.Actors.Tagged.{IsTagged, add_hash_column-IsTagged}

same_hash-tags :
    (n : ℕ) (x y : List Cell)
    → IsTagged n x
    → IsTagged n y
    → same_hash y x ≡ true
    → row_bucket y ≡ row_bucket x
same_hash-tags n x y (b, hash_x, mod_x) (c, hash_y, mod_y) same =
    let equal : same_bytes c b ≡ true =
      sym (ap (λ k. same_cell k (cell_at 0 x)) hash_y ∙ ap (λ k. same_cell (binary c) k) hash_x)
      ∙ same in
    let e : c ≡ b = (same_bytes_iff c b).0 equal in
    ap number_in mod_y ∙ ap (λ d. from_big_endian 0 d % n) e ∙ sym (ap number_in mod_x)

tags-AreConsistent :
    (n : ℕ) (own other : List (List Cell))
    → All (IsTagged n) own
    → All (IsTagged n) other
    → AreConsistent row_bucket same_hash own other
tags-AreConsistent n own other h h' =
    All-of (IsTagged n) (λ x. All (λ y. same_hash y x ≡ true → row_bucket y ≡ row_bucket x) other)
      own
      (λ x tag_x.
        All-of (IsTagged n) (λ y. same_hash y x ≡ true → row_bucket y ≡ row_bucket x) other
          (λ y tag_y. same_hash-tags n x y tag_x tag_y) h')
      h

tag-bucket : (n : ℕ) (x : List Cell) → 0 < n → IsTagged n x → row_bucket x < n
tag-bucket n x positive (b, hash, remainder) =
    subst (λ k. k < n) (sym (ap number_in remainder)) (mod-lt (from_big_endian 0 b) positive)

tag-IsNumbered : (n : ℕ) (x : List Cell) → 0 < n → IsTagged n x → IsNumbered 1 n x
tag-IsNumbered n x positive (b, hash, remainder) =
    (from_big_endian 0 b % n, remainder, mod-lt (from_big_endian 0 b) positive)

module _ (split : String → List ℕ → Table → List Table) (partition : IsPartition split)
    (read : Protocol → String → Result Table) (hashing : Hashing) (n : ℕ) (positive : 0 < n) where
  abbrev pub rows_of : List Table → List (List (List Cell))
  rows_of blocks = map (λ block. block.rows) blocks

  -- The blocks of one party.
  record IsCut (df : Table) (name : String) (blocks : List Table) : Type 0 where
    hashed : Table
    hashes : add_hash_column hashing df hashed_id name (some hashed_mod_id) (some n) ≡ ok hashed
    tags : All (IsTagged n) hashed.rows
    buckets : AreBuckets row_bucket same_hash 0 hashed.rows (rows_of blocks)
    size : length (rows_of blocks) ≡ n

  repartition_by_hash-IsCut :
      (df : Table) (name : String) (blocks : List Table)
      → field_index hashed_mod_id (hashed_id ∷ hashed_mod_id ∷ df.column_names) ≡ ok 1
      → repartition_by_hash read hashing split df name n ≡ ok blocks
      → IsCut df name blocks
  unfolding repartition_by_hash
  repartition_by_hash-IsCut df name blocks place e =
      let boundaries = range_from 1 (n - 1) in
      let put = λ (hashed : Table). ok (split hashed_mod_id boundaries hashed) in
      let (hashed, hashes, final) =
        bind-ok (add_hash_column hashing df hashed_id name (some hashed_mod_id) (some n)) put e in
      let tagged = add_hash_column-IsTagged hashing n df name hashed positive hashes in
      let index = ap (λ l. field_index hashed_mod_id l) tagged.0 ∙ place in
      let whole = split_rows 1 boundaries hashed.rows in
      let same : AreSameBlocks (rows_of blocks) whole =
        subst (λ bs. AreSameBlocks (rows_of bs) whole) (ok_inj final)
          (partition n hashed 1 positive index (
            All-of (IsTagged n) (IsNumbered 1 n) hashed.rows
              (λ row t. tag-IsNumbered n row positive t) tagged.1)) in
      record {
        hashed = hashed;
        hashes = hashes;
        tags = tagged.1;
        buckets = AreBuckets-blocks 0 hashed.rows (rows_of blocks) whole same (
            split_rows-AreBuckets (n - 1) 0 hashed.rows (
              All-of (IsTagged n) (λ row. (0 ≤ row_bucket row) × (row_bucket row < 0 + suc (n - 1)))
                hashed.rows
                (λ row t. (omega arith, omega (arith, tag-bucket n row positive t, positive)))
                tagged.1));
        size =
            length-same_blocks (rows_of blocks) whole same
            ∙ length-split_rows 1 boundaries hashed.rows
            ∙ omega (arith, length-range_from 1 (n - 1), positive);
      }

  -- Two parties cut a table each into the same number of blocks, by a sort that puts the rows whose
  -- remainder is between two boundaries together, and no column has the name of the remainders.
  -- Then what the tables share by their hashes is what their blocks share, each block with the one
  -- of the same number: the same rows, as often.
  pub repartition_by_hash-shared :
      (own other : Table) (name_a name_b : String) (blocks others : List Table)
      → field_index hashed_mod_id (hashed_id ∷ hashed_mod_id ∷ own.column_names) ≡ ok 1
      → field_index hashed_mod_id (hashed_id ∷ hashed_mod_id ∷ other.column_names) ≡ ok 1
      → repartition_by_hash read hashing split own name_a n ≡ ok blocks
      → repartition_by_hash read hashing split other name_b n ≡ ok others
      → (a : Table) × (b : Table) × (add_hash_column hashing own hashed_id name_a
            (some hashed_mod_id)
            (some n)
          ≡ ok a)
        × (add_hash_column hashing other hashed_id name_b (some hashed_mod_id) (some n) ≡ ok b)
        × SameRows
            (shared_in_buckets row_bucket same_hash (rows_of blocks) (rows_of others))
            (shared row_bucket same_hash a.rows b.rows)
  repartition_by_hash-shared own other name_a name_b blocks others place_a place_b e e' =
      let a = repartition_by_hash-IsCut own name_a blocks place_a e in
      let b = repartition_by_hash-IsCut other name_b others place_b e' in
      (
        a.hashed,
        b.hashed,
        a.hashes,
        b.hashes,
        shared_in_buckets-shared row_bucket same_hash a.hashed.rows b.hashed.rows
            (tags-AreConsistent n a.hashed.rows b.hashed.rows a.tags b.tags) n (rows_of blocks)
            (rows_of others) a.buckets b.buckets a.size b.size
            (All-of (IsTagged n) (λ x. row_bucket x < n) a.hashed.rows
              (λ x t. tag-bucket n x positive t) a.tags),
      )
