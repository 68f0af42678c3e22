-- ===== src/DataJoin/Indexed.antt =====
-- The blocks of a short run stay in the buffer of the manager, each under its index.
use n_mpc.Prelude.{
  ℕ, zero, suc, ◌+◌, ◌≤◌, ◌<◌, ◌≡◌, refl, ap, sym, ◌∙◌, subst, none, some, List, [], ◌∷◌, ◌++◌, map,
  length, arith, append_assoc, append-nil, length-append,
}
use n_mpc.Prelude.Dict.{Dict, lookup, insert-new}
use n_mpc.DataJoin.Records.{DataBlockMeta, removed_items_nums_from_buffer}
use n_mpc.DataJoin.BlockMaker.{new_meta}
use n_mpc.DataJoin.BlockManager.{pop_to}
use n_mpc.DataJoin.Yielded.{remember}
use n_mpc.DataJoin.Blocks.{AreNumbered}
use n_mpc.DataJoin.Produced.{blocks_from}

-- The block at a place of a list; behind its end there is an empty one.
abbrev pub at_place : List DataBlockMeta → ℕ → DataBlockMeta
at_place [] k = new_meta 0 0
at_place (meta ∷ metas) zero = meta
at_place (meta ∷ metas) (suc k) = at_place metas k

abbrev pub entries : List DataBlockMeta → Dict DataBlockMeta
entries metas = map (λ meta. (meta.data_block_index, meta)) metas

at_place-append :
    (before : List DataBlockMeta) (meta : DataBlockMeta) (metas : List DataBlockMeta)
    → at_place (before ++ meta ∷ metas) (length before) ≡ meta
at_place-append [] meta metas = refl
at_place-append (b ∷ before) meta metas = at_place-append before meta metas

blocks_from-at_place :
    (metas before : List DataBlockMeta) (k : ℕ)
    → k ≡ length before
    → blocks_from (at_place (before ++ metas)) k (length metas) ≡ metas
blocks_from-at_place [] before k e = refl
blocks_from-at_place (meta ∷ metas) before k e =
    let whole = sym (append_assoc before (meta ∷ []) metas) in
    let place : k + 1 ≡ length (before ++ meta ∷ []) =
      omega (arith, e, length-append before (meta ∷ [])) in
    rw (e, at_place-append before meta metas)
      (ap (λ l. meta ∷ l)
        (ap (λ l. blocks_from (at_place l) (length before + 1) (length metas)) whole
          ∙ ap (λ i. blocks_from (at_place ((before ++ meta ∷ []) ++ metas)) i (length metas))
              (ap (λ i. i + 1) (sym e))
          ∙ blocks_from-at_place metas (before ++ meta ∷ []) (k + 1) place))

pub blocks_from-all :
    (metas : List DataBlockMeta) → blocks_from (at_place metas) 0 (length metas) ≡ metas
blocks_from-all metas = blocks_from-at_place metas [] 0 refl

-- Numbers from `n` on are not below `n`.
lookup-entries-none :
    (metas : List DataBlockMeta) (n k : ℕ)
    → AreNumbered n metas
    → n + length metas ≤ k
    → lookup k (entries metas) ≡ none
lookup-entries-none [] n k h le = refl
lookup-entries-none (meta ∷ metas) n k h le =
    ground (arith, h.0, lookup-entries-none metas (suc n) k h.1)

pub at_place-index :
    (metas : List DataBlockMeta) (n k : ℕ)
    → AreNumbered n metas
    → k < length metas
    → (at_place metas k).data_block_index ≡ n + k
at_place-index [] n k h lt = absurd (omega arith)
at_place-index (meta ∷ metas) n zero h lt = omega (arith, h.0)
at_place-index (meta ∷ metas) n (suc k) h lt =
    omega (arith, at_place-index metas (suc n) k h.1 (omega arith))

lookup-entries :
    (metas : List DataBlockMeta) (n k : ℕ)
    → AreNumbered n metas
    → k < length metas
    → lookup (n + k) (entries metas) ≡ some (at_place metas k)
lookup-entries [] n k h lt = absurd (omega arith)
lookup-entries (meta ∷ metas) n zero h lt = ground (arith, h.0)
lookup-entries (meta ∷ metas) n (suc k) h lt =
    let next : suc n + k ≡ n + suc k = omega arith in
    let later : lookup (n + suc k) (entries metas) ≡ some (at_place metas k) =
      subst (λ i. lookup i (entries metas) ≡ some (at_place metas k)) next
        (lookup-entries metas (suc n) k h.1 (omega arith)) in
    ground (arith, h.0, later)

-- Nothing is dropped from a buffer that is not over its size.
pop_to-small :
    (limit fuel : ℕ) (d : Dict DataBlockMeta) → length d ≤ limit → pop_to limit fuel d ≡ d
unfolding pop_to
pop_to-small limit zero d h = refl
pop_to-small limit (suc fuel) d h = ground arith

AreNumbered-last :
    (before : List DataBlockMeta) (n : ℕ) (meta : DataBlockMeta)
    → AreNumbered n before
    → meta.data_block_index ≡ n + length before
    → AreNumbered n (before ++ meta ∷ [])
AreNumbered-last [] n meta h e = (omega (arith, e), tt)
AreNumbered-last (b ∷ before) n meta h e =
    (h.0, AreNumbered-last before (suc n) meta h.1 (omega (arith, e)))

entries-append :
    (before : List DataBlockMeta) (meta : DataBlockMeta)
    → entries before ++ (meta.data_block_index, meta) ∷ [] ≡ entries (before ++ meta ∷ [])
entries-append [] meta = refl
entries-append (b ∷ before) meta =
    ap (λ l. (b.data_block_index, b) ∷ l) (entries-append before meta)

length-entries : (metas : List DataBlockMeta) → length (entries metas) ≡ length metas
length-entries [] = refl
length-entries (meta ∷ metas) = ap suc (length-entries metas)

remember-entries :
    (metas before : List DataBlockMeta) (n : ℕ)
    → n ≡ length before
    → AreNumbered 0 before
    → AreNumbered n metas
    → n + length metas ≤ removed_items_nums_from_buffer
    → remember metas (entries before) ≡ entries (before ++ metas)
remember-entries [] before n e h h' le = ap entries (sym (append-nil before))
remember-entries (meta ∷ metas) before n e h h' le =
    let small =
      pop_to-small removed_items_nums_from_buffer (length (entries before)) (entries before)
        (omega (arith, length-entries before)) in
    let new =
      insert-new meta.data_block_index meta (entries before)
        (lookup-entries-none before 0 meta.data_block_index h (omega (arith, h'.0))) in
    let last = AreNumbered-last before 0 meta h (omega (arith, h'.0)) in
    let place : suc n ≡ length (before ++ meta ∷ []) =
      omega (arith, length-append before (meta ∷ [])) in
    rw (small, new, entries-append before meta)
      (remember-entries metas (before ++ meta ∷ []) (suc n) place last h'.1 (omega arith)
        ∙ ap entries (append_assoc before (meta ∷ []) metas))

-- Blocks numbered from 0 on, as many as the buffer may hold, are found again in the buffer.
pub lookup-remember :
    (metas : List DataBlockMeta) (k : ℕ)
    → AreNumbered 0 metas
    → length metas ≤ removed_items_nums_from_buffer
    → k < length metas
    → lookup k (remember metas []) ≡ some (at_place metas k)
lookup-remember metas k h le lt =
    let same : 0 + k ≡ k = omega arith in
    ap (λ d. lookup k d) (remember-entries metas [] 0 refl tt h (omega arith))
    ∙ subst (λ i. lookup i (entries metas) ≡ some (at_place metas k)) same
        (lookup-entries metas 0 k h lt)
