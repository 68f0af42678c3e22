-- ===== src/DataJoin/Blocks.antt =====
-- What the joiner is to make of its messages, apart from makers and files: the examples that match,
-- and how they are cut into blocks.
use n_mpc.Prelude.{
  Bool, ◌&&◌, ltb, subst, ℕ, suc, ◌+◌, ◌≡◌, refl, sym, ap, ◌∙◌, none, some, List, [], ◌∷◌, ◌++◌,
  map, length, concat, arith, leb, if◌then◌else◌, append_assoc, append-nil, map-append, inl, inr,
  Bool-cases,
}
use n_mpc.Prelude.Dict.{Dict, lookup}
use n_mpc.DataJoin.Records.{DataBlockMeta, Item, ExampleId}

-- The items of the ids that are in the raw data, in the order of the ids.
abbrev pub matched : Dict Item → List ExampleId → List Item
matched item_dict [] = []
matched item_dict (example_id ∷ rest) = elim (lookup example_id item_dict) [
  | none ↦ matched item_dict rest
  | some item ↦ record item { example_id = example_id } ∷ matched item_dict rest
]

abbrev pub ids_of : List Item → List ExampleId
ids_of items = map (λ item. item.example_id) items

-- The blocks that `items` complete after the examples `pending`, and the examples then pending.
abbrev pub cut : ℕ → List Item → List Item → List (List Item) × List Item
cut threshold pending [] = ([], pending)
cut threshold pending (item ∷ items) =
    let open_items = pending ++ item ∷ [] in
    let closed = cut threshold [] items in
    let going = cut threshold open_items items in
    if leb threshold (length open_items) then (open_items ∷ closed.0, closed.1) else going

-- Blocks numbered from `n` on.
abbrev pub AreNumbered : ℕ → List DataBlockMeta → Type 0
AreNumbered n [] = Unit {0}
AreNumbered n (meta ∷ metas) = (meta.data_block_index ≡ n) × AreNumbered (suc n) metas

-- Cutting loses nothing and keeps the order.
pub concat-cut :
    (threshold : ℕ) (pending items : List Item)
    → concat (cut threshold pending items).0 ++ (cut threshold pending items).1 ≡ pending ++ items
concat-cut threshold pending [] = sym (append-nil pending)
concat-cut threshold pending (item ∷ items) =
    let open_items = pending ++ item ∷ [] in
    let assoc = append_assoc pending (item ∷ []) items in
    elim (Bool-cases (leb threshold (length open_items))) [
      | inl over ↦ rw over (
          append_assoc open_items (concat (cut threshold [] items).0) (cut threshold [] items).1
          ∙ ap (λ l. open_items ++ l) (concat-cut threshold [] items)
          ∙ assoc)
      | inr under ↦ rw under (concat-cut threshold open_items items ∙ assoc)
    ]

pub AreNumbered-append :
    (n : ℕ) (metas more : List DataBlockMeta)
    → AreNumbered n metas
    → AreNumbered (n + length metas) more
    → AreNumbered n (metas ++ more)
AreNumbered-append n [] more a b =
    let same : n + length {A = DataBlockMeta} [] ≡ n = omega arith in
    subst (λ k. AreNumbered k more) same b
AreNumbered-append n (meta ∷ metas) more a b =
    let same : n + length (meta ∷ metas) ≡ suc n + length metas = omega arith in
    (a.0, AreNumbered-append (suc n) metas more a.1 (subst (λ k. AreNumbered k more) same b))

-- The blocks of a whole message: a finished one closes what is pending.
abbrev pub message_blocks : ℕ → List Item → Bool → List Item → List (List Item) × List Item
message_blocks threshold pending finished items =
    let (blocks, left) = cut threshold pending items in
    if finished && ltb 0 (length left) then (blocks ++ left ∷ [], []) else (blocks, left)

module _ (item_dict : Dict Item) (example_id : ExampleId) where
  pub matched-none :
      (rest : List ExampleId)
      → lookup example_id item_dict ≡ none
      → matched item_dict (example_id ∷ rest) ≡ matched item_dict rest
  matched-none rest e = ground (arith, e)

  pub matched-some :
      (item : Item) (rest : List ExampleId)
      → lookup example_id item_dict ≡ some item
      → matched item_dict (example_id ∷ rest)
        ≡ record item { example_id = example_id } ∷ matched item_dict rest
  matched-some item rest e = ground (arith, e)

concat_one :
    (blocks : List (List Item)) (block : List Item)
    → concat (blocks ++ block ∷ []) ≡ concat blocks ++ block
concat_one [] block = append-nil block
concat_one (b ∷ blocks) block =
    ap (λ l. b ++ l) (concat_one blocks block) ∙ sym (append_assoc b (concat blocks) block)

pub concat-message_blocks :
    (threshold : ℕ) (pending : List Item) (finished : Bool) (items : List Item)
    → concat (message_blocks threshold pending finished items).0
        ++ (message_blocks threshold pending finished items).1
      ≡ pending ++ items
concat-message_blocks threshold pending finished items =
    let parts = cut threshold pending items in
    elim (Bool-cases (finished && ltb 0 (length parts.1))) [
      | inl closes ↦ rw closes (
          append-nil (concat (parts.0 ++ parts.1 ∷ []))
          ∙ concat_one parts.0 parts.1
          ∙ concat-cut threshold pending items)
      | inr stays ↦ rw stays (concat-cut threshold pending items)
    ]

-- The ids of all blocks, one after the other.
pub ids_of-append : (xs ys : List Item) → ids_of (xs ++ ys) ≡ ids_of xs ++ ids_of ys
ids_of-append xs ys = map-append (λ (item : Item). item.example_id) xs ys

pub concat-ids_of :
    (blocks : List (List Item)) → concat (map ids_of blocks) ≡ ids_of (concat blocks)
concat-ids_of [] = refl
concat-ids_of (block ∷ blocks) =
    ap (λ l. ids_of block ++ l) (concat-ids_of blocks) ∙ sym (ids_of-append block (concat blocks))
