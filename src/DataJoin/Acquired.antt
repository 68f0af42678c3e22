-- ===== src/DataJoin/Acquired.antt =====
-- The blocks that a manager finds in its memory or loads from their files, one after the other.
use n_mpc.Prelude.{
  refl, ℕ, zero, suc, ◌+◌, ◌<◌, pos, ◌+ℤ◌, none, some, [], ◌∷◌, ◌≡◌, ◌∙◌, ap, arith, length, inl,
  ◌⊎◌, ◌≤◌, inr, length-append,
}
use n_mpc.Prelude.Dict.{lookup, insert, insert-new, Dict, lookup-insert}
use n_mpc.Prelude.Result.{ok}
use n_mpc.DataJoin.Records.{DataBlockMeta, removed_items_nums_from_buffer}
use n_mpc.DataJoin.Files.{Names, read_file, meta_content}
use n_mpc.DataJoin.BlockManager.{Manager, acquire_data_block_meta_by_index, pop_to}
use n_mpc.DataJoin.Saved.{IsAtRest}

-- What has room in the buffer stays in it.
pop_to-room : (limit fuel : ℕ) (d : Dict DataBlockMeta) → length d ≤ limit → pop_to limit fuel d ≡ d
unfolding pop_to
pop_to-room limit zero d h = refl
pop_to-room limit (suc fuel) d h = ground (arith, h)

module _ (names : Names) (n : ℕ) (blocks : ℕ → DataBlockMeta) where
  -- The meta data of block `i` is in the manager's memory, or in its file alone while the memory
  -- has room for `count` blocks.
  abbrev pub IsKnown : Manager → (count i : ℕ) → Type 0
  IsKnown m count i =
      (lookup i m.buffer ≡ some (blocks i))
      ⊎ ((lookup i m.buffer ≡ none)
          × (read_file (names.meta_path i) m.files ≡ some (meta_content (blocks i)))
          × (length m.buffer + count ≤ removed_items_nums_from_buffer))

  -- At rest, with `count` blocks from `k` on to send.
  pub record Holds (m : Manager) (k count : ℕ) : Type 0 where
    pub rest : IsAtRest names m n
    pub all : k + count ≡ n
    pub known : (i : ℕ) → k ≤ i → i < n → IsKnown m count i

  -- The manager after block `k` was looked up.
  pub record Acquired (m : Manager) (k count : ℕ) : Type 0 where
    pub manager : Manager
    pub acquired :
        acquire_data_block_meta_by_index names (pos k) m ≡ (ok (some (blocks k)), manager)
    pub holds : Holds manager (k + 1) count
    pub files : manager.files ≡ m.files

  acquire-known :
      (m : Manager) (k : ℕ)
      → IsAtRest names m n
      → k < n
      → lookup k m.buffer ≡ some (blocks k)
      → acquire_data_block_meta_by_index names (pos k) m ≡ (ok (some (blocks k)), m)
  unfolding acquire_data_block_meta_by_index ◌+ℤ◌
  acquire-known m k rest h known = ground (arith, rest.saved, rest.saving, known)

  abbrev loaded : Manager → ℕ → Manager
  loaded m k = record m { buffer = insert k (blocks k) m.buffer }

  acquire-loaded :
      (m : Manager) (k : ℕ)
      → IsAtRest names m n
      → k < n
      → lookup k m.buffer ≡ none
      → read_file (names.meta_path k) m.files ≡ some (meta_content (blocks k))
      → length (insert k (blocks k) m.buffer) ≤ removed_items_nums_from_buffer
      → acquire_data_block_meta_by_index names (pos k) m ≡ (ok (some (blocks k)), loaded m k)
  unfolding acquire_data_block_meta_by_index ◌+ℤ◌
  acquire-loaded m k rest h new content room =
      let d = insert k (blocks k) m.buffer in
      ground (
        arith,
        rest.saved,
        rest.saving,
        new,
        content,
        pop_to-room removed_items_nums_from_buffer (length d) d room,
        lookup-insert k k (blocks k) m.buffer,
      )

  length-loaded :
      (m : Manager) (k : ℕ)
      → lookup k m.buffer ≡ none
      → length (loaded m k).buffer ≡ suc (length m.buffer)
  length-loaded m k new =
      ap (λ d. length d) (insert-new k (blocks k) m.buffer new)
      ∙ omega (arith, length-append m.buffer ((k, blocks k) ∷ []))

  IsKnown-loaded :
      (m : Manager) (k count i : ℕ)
      → lookup k m.buffer ≡ none
      → k < i
      → IsKnown m (suc count) i
      → IsKnown (loaded m k) count i
  IsKnown-loaded m k count i new lt (inl e) =
      inl (lookup-insert k i (blocks k) m.buffer ∙ ground (arith, e, lt))
  IsKnown-loaded m k count i new lt (inr (e, content, room)) = inr (
    lookup-insert k i (blocks k) m.buffer ∙ ground (arith, e, lt),
    content,
    omega (arith, room, length-loaded m k new),
  )

  IsKnown-less : (m : Manager) (count i : ℕ) → IsKnown m (suc count) i → IsKnown m count i
  IsKnown-less m count i (inl e) = inl e
  IsKnown-less m count i (inr (e, content, room)) = inr (e, content, omega (arith, room))

  pub acquire-Acquired : (m : Manager) (k count : ℕ) → Holds m k (suc count) → Acquired m k count
  acquire-Acquired m k count h =
      let lt : k < n = omega (arith, h.all) in
      elim (h.known k (omega arith) lt) [
        | inl e ↦ record {
          manager = m;
          acquired = acquire-known m k h.rest lt e;
          holds = record {
            rest = h.rest;
            all = omega (arith, h.all);
            known = λ i le below. IsKnown-less m count i (h.known i (omega (arith, le)) below);
          };
          files = refl;
        }
        | inr (e, content, room) ↦ record {
          manager = loaded m k;
          acquired =
              acquire-loaded m k h.rest lt e content (omega (arith, room, length-loaded m k e));
          holds = record {
            rest = record { saved = h.rest.saved; saving = h.rest.saving; files = h.rest.files };
            all = omega (arith, h.all);
            known = λ i le below.
                IsKnown-loaded m k count i e (omega (arith, le))
                  (h.known i (omega (arith, le)) below);
          };
          files = refl;
        }
      ]

  pub acquire-none :
      (m : Manager)
      → IsAtRest names m n
      → acquire_data_block_meta_by_index names (pos n) m ≡ (ok none, m)
  unfolding acquire_data_block_meta_by_index ◌+ℤ◌
  acquire-none m rest = ground (arith, rest.saved, rest.saving)
