-- ===== src/DataJoin/Copies.antt =====
-- A block that one party has made can be made by another whose raw data has its ids.
use n_mpc.DataJoin.Indexed.{at_place}
use n_mpc.Prelude.{
  zero, ℕ, suc, ◌≡◌, ◌≢◌, refl, ap, sym, ◌∙◌, none, some, List, [], ◌∷◌, length, concat, arith, All,
  length-map, inl, inr, Option-cases, ◌<◌,
}
use n_mpc.Prelude.Dict.{Dict, lookup}
use n_mpc.DataJoin.Records.{DataBlockMeta, Item, ExampleId}
use n_mpc.DataJoin.Files.{Names, Files}
use n_mpc.DataJoin.Blocks.{matched, ids_of, matched-some}
use n_mpc.DataJoin.Yielded.{AreMade}
use n_mpc.DataJoin.Stored.{CanBeMade}

-- An id that is in the raw data.
abbrev pub IsIn : Dict Item → ExampleId → Type 0
IsIn item_dict example_id = lookup example_id item_dict ≢ none

pub All-concat :
    {A : Type 0} (P : A → Type 0) (blocks : List (List A))
    → All P (concat blocks)
    → All (All P) blocks
All-concat P [] h = tt
All-concat P ([] ∷ blocks) h = (tt, All-concat P blocks h)
All-concat P ((x ∷ block) ∷ blocks) h =
    let rest = All-concat P (block ∷ blocks) h.1 in ((h.0, rest.0), rest.1)

-- The examples that match have ids that were sent.
pub All-matched :
    (P : ExampleId → Type 0) (item_dict : Dict Item) (ids : List ExampleId)
    → All P ids
    → All (λ item. P item.example_id) (matched item_dict ids)
All-matched P item_dict [] h = tt
All-matched P item_dict (id ∷ ids) h =
    elim (lookup id item_dict)
      as (λ found.
        All (λ (item : Item). P item.example_id)
          (elim found [
            | none ↦ matched item_dict ids
            | some item ↦ record item { example_id = id } ∷ matched item_dict ids
          ])) [
            | none ↦ All-matched P item_dict ids h.1
            | some item ↦ (h.0, All-matched P item_dict ids h.1)
          ]

-- No example of a block is missing in raw data that has all its ids.
length-matched :
    (item_dict : Dict Item) (block : List Item)
    → All (λ item. IsIn item_dict item.example_id) block
    → length (matched item_dict (ids_of block)) ≡ length (ids_of block)
length-matched item_dict [] h = refl
length-matched item_dict (item ∷ block) h = elim (Option-cases (lookup item.example_id item_dict)) [
  | inl e ↦ absurd (h.0 e)
  | inr e ↦
      rw (matched-some item_dict item.example_id e.0 (ids_of block) e.1)
        (ap suc (length-matched item_dict block h.1))
]

-- The blocks that one party has made can be made by another that has all their ids.
pub CanBeMade-all :
    (names : Names) (partition_id : ℕ) (item_dict : Dict Item) (own : Names) (files : Files)
    (metas : List DataBlockMeta) (blocks : List (List Item))
    → AreMade names partition_id files metas blocks
    → All (All (λ item. IsIn item_dict item.example_id)) blocks
    → All (CanBeMade own item_dict partition_id) metas
CanBeMade-all names partition_id item_dict own files [] [] made h = tt
CanBeMade-all names partition_id item_dict own files [] (block ∷ blocks) made h = absurd made
CanBeMade-all names partition_id item_dict own files (meta ∷ metas) [] made h = absurd made
CanBeMade-all names partition_id item_dict own files (meta ∷ metas) (block ∷ blocks) made h =
    let size = ap (λ l. length l) made.0.ids in
    let count = length-map (λ (item : Item). item.example_id) block in
    (
      (
        sym made.0.own,
        omega (arith, size, count, made.0.filled),
        ap (λ l. length (matched item_dict l)) made.0.ids
            ∙ length-matched item_dict block h.0
            ∙ sym size,
      ),
      CanBeMade-all names partition_id item_dict own files metas blocks made.1 h.1,
    )

pub AreMade-partition :
    (names : Names) (partition_id : ℕ) (files : Files) (metas : List DataBlockMeta)
    (blocks : List (List Item)) (k : ℕ)
    → AreMade names partition_id files metas blocks
    → k < length metas
    → (at_place metas k).partition_id ≡ partition_id
AreMade-partition names partition_id files [] blocks k h lt = absurd (omega arith)
AreMade-partition names partition_id files (meta ∷ metas) [] k h lt = absurd h
AreMade-partition names partition_id files (meta ∷ metas) (block ∷ blocks) zero h lt = h.0.own
AreMade-partition names partition_id files (meta ∷ metas) (block ∷ blocks) (suc k) h lt =
    AreMade-partition names partition_id files metas blocks k h.1 (omega arith)
