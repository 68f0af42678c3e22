-- ===== src/DataJoin/Made.antt =====
-- What a block holds when it is finished.
use n_mpc.Prelude.{
  append_assoc, append-nil, subst, subst₂, ℕ, zero, suc, ◌≡◌, refl, ap, sym, ◌∙◌, ℤ, ◌≤ℤ◌, ltb_ℤ,
  ◌==ℤ◌, Bool, true, List, [], ◌∷◌, ◌++◌, map, length, arith, if◌then◌else◌, All, anyb,
  length-append, ◌||◌,
}
use n_mpc.DataJoin.Records.{DataBlockMeta, Item}
use n_mpc.DataJoin.BlockMaker.{Maker, save, widen}

-- `save` of each item in turn.
abbrev pub save_all : List Item → Maker → Maker
save_all [] maker = maker
save_all (item ∷ items) maker =
    save_all items (save item.data_record item.example_id item.event_time maker)

-- The span covers the times and both its ends are among them.
abbrev pub Spans : ℤ → ℤ → List Item → Type 0
Spans start end items =
    All (λ item. (start ≤ℤ item.event_time) × (item.event_time ≤ℤ end)) items
    × (anyb (λ item. item.event_time ==ℤ start) items ≡ true)
    × (anyb (λ item. item.event_time ==ℤ end) items ≡ true)

-- A maker holds these items.
pub record Holds (maker : Maker) (items : List Item) : Type 0 where
  pub count : maker.saved_example_num ≡ length items
  pub ids : maker.meta.example_ids ≡ map (λ item. item.example_id) items
  pub records : maker.written ≡ map (λ item. item.data_record) items

All-append :
    (P : Item → Type 0) (items : List Item) (item : Item)
    → All P items
    → P item
    → All P (items ++ item ∷ [])
All-append P [] item h p = (p, tt)
All-append P (x ∷ items) item h p = (h.0, All-append P items item h.1 p)

anyb-append :
    (p : Item → Bool) (items : List Item) (item : Item)
    → anyb p (items ++ item ∷ []) ≡ (anyb p items || p item)
anyb-append p [] item = ground arith
anyb-append p (x ∷ items) item = ground (arith, anyb-append p items item)

map-append_one :
    {A : Type 0} (f : Item → A) (items : List Item) (item : Item)
    → map f (items ++ item ∷ []) ≡ map f items ++ f item ∷ []
map-append_one f [] item = refl
map-append_one f (x ∷ items) item = ap (λ r. f x ∷ r) (map-append_one f items item)

widen-example_ids :
    (n : ℕ) (t : ℤ) (meta : DataBlockMeta) → (widen n t meta).example_ids ≡ meta.example_ids
unfolding widen
widen-example_ids zero t meta = refl
widen-example_ids (suc n) t meta = refl

pub widen-data_block_index :
    (n : ℕ) (t : ℤ) (meta : DataBlockMeta)
    → (widen n t meta).data_block_index ≡ meta.data_block_index
unfolding widen
widen-data_block_index zero t meta = refl
widen-data_block_index (suc n) t meta = refl

pub widen-partition_id :
    (n : ℕ) (t : ℤ) (meta : DataBlockMeta) → (widen n t meta).partition_id ≡ meta.partition_id
unfolding widen
widen-partition_id zero t meta = refl
widen-partition_id (suc n) t meta = refl

pub save-Holds :
    (maker : Maker) (items : List Item) (item : Item)
    → Holds maker items
    → Holds (save item.data_record item.example_id item.event_time maker) (items ++ item ∷ [])
unfolding save
save-Holds maker items item h =
    let meta = record maker.meta { example_ids = maker.meta.example_ids ++ item.example_id ∷ [] } in
    record {
      count = ground (arith, h.count, length-append items (item ∷ []));
      ids =
          widen-example_ids maker.saved_example_num item.event_time meta
          ∙ ap (λ l. l ++ item.example_id ∷ []) h.ids
          ∙ sym (map-append_one (λ item. item.example_id) items item);
      records =
          ap (λ l. l ++ item.data_record ∷ []) h.records
          ∙ sym (map-append_one (λ item. item.data_record) items item);
    }

widen-times :
    (n k : ℕ) (t : ℤ) (meta : DataBlockMeta)
    → n ≡ suc k
    → ((widen n t meta).start_time ≡ (if ltb_ℤ t meta.start_time then t else meta.start_time))
      × ((widen n t meta).end_time ≡ (if ltb_ℤ meta.end_time t then t else meta.end_time))
unfolding widen
widen-times zero k t meta h = absurd (omega arith)
widen-times (suc n) k t meta h = (refl, refl)

weaken_bounds :
    (s e s' e' : ℤ) (items : List Item)
    → s' ≤ℤ s
    → e ≤ℤ e'
    → All (λ item. (s ≤ℤ item.event_time) × (item.event_time ≤ℤ e)) items
    → All (λ item. (s' ≤ℤ item.event_time) × (item.event_time ≤ℤ e')) items
weaken_bounds s e s' e' [] a b h = tt
weaken_bounds s e s' e' (x ∷ items) a b h =
    ((omega (arith, h.0.0), omega (arith, h.0.1)), weaken_bounds s e s' e' items a b h.1)

Spans-append :
    (s e : ℤ) (items : List Item) (item : Item)
    → Spans s e items
    → Spans
        (if ltb_ℤ item.event_time s then item.event_time else s)
        (if ltb_ℤ e item.event_time then item.event_time else e)
        (items ++ item ∷ [])
Spans-append s e items item h =
    let t = item.event_time in
    let s' : ℤ = if ltb_ℤ t s then t else s in
    let e' : ℤ = if ltb_ℤ e t then t else e in
    (
      All-append (λ x. (s' ≤ℤ x.event_time) × (x.event_time ≤ℤ e')) items item
          (weaken_bounds s e s' e' items (ground arith) (ground arith) h.0)
          (ground arith, ground arith),
      ground (
        arith,
        h.1,
        anyb-append (λ x. x.event_time ==ℤ s') items item,
        anyb-append (λ x. x.event_time ==ℤ s) items item,
      ),
      ground (
        arith,
        h.2,
        anyb-append (λ x. x.event_time ==ℤ e') items item,
        anyb-append (λ x. x.event_time ==ℤ e) items item,
      ),
    )

-- The span of a block that holds some items, after one more.
save-Spans :
    (maker : Maker) (first : Item) (items : List Item) (item : Item)
    → maker.saved_example_num ≡ length (first ∷ items)
    → Spans maker.meta.start_time maker.meta.end_time (first ∷ items)
    → Spans
        (save item.data_record item.example_id item.event_time maker).meta.start_time
        (save item.data_record item.example_id item.event_time maker).meta.end_time
        (first ∷ items ++ item ∷ [])
unfolding save
save-Spans maker first items item count h =
    let meta = record maker.meta { example_ids = maker.meta.example_ids ++ item.example_id ∷ [] } in
    let times = widen-times maker.saved_example_num (length items) item.event_time meta count in
    subst₂ (λ s e. Spans s e (first ∷ items ++ item ∷ [])) (sym times.0) (sym times.1)
      (Spans-append maker.meta.start_time maker.meta.end_time (first ∷ items) item h)

-- Saving leaves alone what was set before.
pub data_block_index-save_all :
    (items : List Item) (maker : Maker)
    → (save_all items maker).meta.data_block_index ≡ maker.meta.data_block_index
unfolding save
data_block_index-save_all [] maker = refl
data_block_index-save_all (item ∷ items) maker =
    data_block_index-save_all items (save item.data_record item.example_id item.event_time maker)
    ∙ widen-data_block_index maker.saved_example_num item.event_time
        (record maker.meta { example_ids = maker.meta.example_ids ++ item.example_id ∷ [] })

pub managed-save_all :
    (items : List Item) (maker : Maker) → (save_all items maker).managed ≡ maker.managed
unfolding save
managed-save_all [] maker = refl
managed-save_all (item ∷ items) maker =
    managed-save_all items (save item.data_record item.example_id item.event_time maker)

save_all-Holds :
    (items pre : List Item) (maker : Maker)
    → Holds maker pre
    → Holds (save_all items maker) (pre ++ items)
save_all-Holds [] pre maker h = subst (Holds maker) (sym (append-nil pre)) h
save_all-Holds (item ∷ items) pre maker h =
    subst (Holds (save_all (item ∷ items) maker)) (append_assoc pre (item ∷ []) items) (
      save_all-Holds items (pre ++ item ∷ [])
        (save item.data_record item.example_id item.event_time maker) (save-Holds maker pre item h))

save_all-Spans :
    (items : List Item) (first : Item) (pre : List Item) (maker : Maker)
    → Holds maker (first ∷ pre)
    → Spans maker.meta.start_time maker.meta.end_time (first ∷ pre)
    → Spans
        (save_all items maker).meta.start_time
        (save_all items maker).meta.end_time
        (first ∷ pre ++ items)
save_all-Spans [] first pre maker held h =
    subst (λ l. Spans maker.meta.start_time maker.meta.end_time (first ∷ l)) (sym (append-nil pre))
      h
save_all-Spans (item ∷ items) first pre maker held h =
    let maker' = save item.data_record item.example_id item.event_time maker in
    subst
      (λ l.
        Spans (save_all items maker').meta.start_time (save_all items maker').meta.end_time
          (first ∷ l))
      (append_assoc pre (item ∷ []) items)
      (save_all-Spans items first (pre ++ item ∷ []) maker'
        (save-Holds maker (first ∷ pre) item held) (save-Spans maker first pre item held.count h))

Spans-widen :
    (n : ℕ) (item : Item) (meta : DataBlockMeta)
    → n ≡ 0
    → Spans
        (widen n item.event_time meta).start_time
        (widen n item.event_time meta).end_time
        (item ∷ [])
unfolding widen
Spans-widen zero item meta h = ground arith
Spans-widen (suc n) item meta h = absurd (omega arith)

-- From a maker that holds nothing, saving some items leaves exactly these, in order, and the times
-- of the block are the earliest and the latest of theirs.
pub save_all-made :
    (first : Item) (items : List Item) (maker : Maker)
    → Holds maker []
    → Holds (save_all (first ∷ items) maker) (first ∷ items)
      × Spans
          (save_all (first ∷ items) maker).meta.start_time
          (save_all (first ∷ items) maker).meta.end_time
          (first ∷ items)
unfolding save
save_all-made first items maker h = (
  save_all-Holds (first ∷ items) [] maker h,
  save_all-Spans items first [] (save first.data_record first.example_id first.event_time maker)
      (save-Holds maker [] first h)
      (Spans-widen maker.saved_example_num first
        (record maker.meta { example_ids = maker.meta.example_ids ++ first.example_id ∷ [] })
        h.count),
)
