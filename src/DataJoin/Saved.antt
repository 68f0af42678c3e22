-- ===== src/DataJoin/Saved.antt =====
-- The blocks that a `DataBlockManager` counts and finds again, and a full buffer.
use n_mpc.Prelude.{
  ℕ, zero, suc, ◌+◌, ◌<◌, ◌≤◌, ◌≡◌, ◌≢◌, refl, ap, pos, sub_ℕ, ◌+ℤ◌, String, true, none, some, [],
  ◌∷◌, ◌++◌, length, arith, ltb, length-append,
}
use n_mpc.Prelude.Dict.{Dict, lookup, insert-new}
use n_mpc.Prelude.Result.{ok, err, index_error, key_error}
use n_mpc.DataJoin.Records.{
  DataBlockMeta, data_block_index_threshold, removed_items_nums_from_buffer,
}
use n_mpc.DataJoin.Files.{Files, meta_content, Names, read_file, exists_file}
use n_mpc.DataJoin.BlockManager.{
  Manager, search_fuel, pop_item, pop_to, acquire_produced_data_block_number,
  acquire_data_block_meta_by_index, update_data_block_meta, new_manager,
}
use n_mpc.DataJoin.Search.{search_saved-eq}

module _ {V : Type 0} where
  pop_item-append : (d : Dict V) (e : ℕ × V) → pop_item (d ++ e ∷ []) ≡ d
  pop_item-append [] e = refl
  pop_item-append (x ∷ []) e = refl
  pop_item-append (x ∷ y ∷ d) e = ap (λ r. x ∷ r) (pop_item-append (y ∷ d) e)

  lookup-pop_item : (k : ℕ) (d : Dict V) → lookup k d ≡ none → lookup k (pop_item d) ≡ none
  lookup-pop_item k [] h = refl
  lookup-pop_item k (x ∷ []) h = refl
  lookup-pop_item k (x ∷ y ∷ d) h = ground (arith, lookup-pop_item k (y ∷ d))

lookup-pop_to :
    (limit fuel k : ℕ) (d : Dict DataBlockMeta)
    → lookup k d ≡ none
    → lookup k (pop_to limit fuel d) ≡ none
unfolding pop_to
lookup-pop_to limit zero k d h = h
lookup-pop_to limit (suc fuel) k d h =
    ground (arith, lookup-pop_to limit fuel k (pop_item d) (lookup-pop_item k d h))

-- The item that was put into a full buffer last is the first to go.
lookup-pop_to-append :
    (limit k : ℕ) (d : Dict DataBlockMeta) (meta : DataBlockMeta)
    → lookup k d ≡ none
    → limit ≤ length d
    → lookup k (pop_to limit (length (d ++ (k, meta) ∷ [])) (d ++ (k, meta) ∷ [])) ≡ none
unfolding pop_to
lookup-pop_to-append limit k d meta h full =
    let e : length (d ++ (k, meta) ∷ []) ≡ suc (length d) =
      omega (arith, length-append d ((k, meta) ∷ [])) in
    rw e (ground (arith, e, pop_item-append d (k, meta), lookup-pop_to limit (length d) k d h))

module _ (names : Names) where
  -- Exactly the indices below `n` have a file.
  abbrev pub AreSaved : Files → ℕ → Type 0
  AreSaved files n = (i : ℕ) → exists_file (names.meta_path i) files ≡ ltb i n

  -- Where exactly the indices below `n` have a file, and `n` is at most one more than the
  -- threshold, a new manager gives the next block the index `n`.
  pub produced-new_manager :
      (files : Files) (n : ℕ)
      → AreSaved files n
      → n ≤ data_block_index_threshold + 1
      → (acquire_produced_data_block_number names (new_manager files)).0 ≡ ok (pos n)
  unfolding acquire_produced_data_block_number ◌+ℤ◌
  produced-new_manager files n saved h = ground (
    arith,
    search_saved-eq (λ i. exists_file (names.meta_path i) files) n saved search_fuel 0
        data_block_index_threshold (omega arith) h (omega arith),
  )

  -- A manager at rest over the blocks below `n`.
  pub record IsAtRest (m : Manager) (n : ℕ) : Type 0 where
    pub saved : m.saved ≡ some (sub_ℕ n 1)
    pub saving : m.saving ≡ none
    pub files : AreSaved m.files n

  pub produced-IsAtRest :
      (m : Manager) (n : ℕ)
      → IsAtRest m n
      → acquire_produced_data_block_number names m ≡ (ok (pos n), m)
  unfolding acquire_produced_data_block_number ◌+ℤ◌
  produced-IsAtRest m n h = ground arith

  -- A manager at rest refuses every index but the next, from a temporary file that is there, with
  -- an IndexError, and the refusal changes nothing.
  update-wrong_index :
      (m : Manager) (n : ℕ) (tmp : String) (meta : DataBlockMeta)
      → IsAtRest m n
      → exists_file tmp m.files ≡ true
      → meta.data_block_index ≢ n
      → update_data_block_meta names tmp meta m ≡ (err index_error, m)
  unfolding update_data_block_meta ◌+ℤ◌
  update-wrong_index m n tmp meta h there ne = ground arith

  -- A block whose file is not known to the buffer, asked for while the buffer is full, is read, put
  -- into the buffer and at once taken out of it again: the answer is a KeyError.
  pub acquire-full_buffer :
      (m : Manager) (n i : ℕ) (meta : DataBlockMeta)
      → IsAtRest m n
      → i < n
      → read_file (names.meta_path i) m.files ≡ some (meta_content meta)
      → lookup i m.buffer ≡ none
      → removed_items_nums_from_buffer ≤ length m.buffer
      → (acquire_data_block_meta_by_index names (pos i) m).0 ≡ err key_error
  unfolding acquire_data_block_meta_by_index
  acquire-full_buffer m n i meta h lt content new full = ground (
    arith,
    h.saved,
    h.saving,
    insert-new i meta m.buffer new,
    lookup-pop_to-append removed_items_nums_from_buffer i m.buffer meta new full,
  )
