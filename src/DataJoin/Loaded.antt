-- ===== src/DataJoin/Loaded.antt =====
-- What is in memory after the raw data is loaded.
use n_mpc.Prelude.{
  ==-refl, Bool, true, false, Option, none, some, List, [], ◌∷◌, ◌++◌, ◌==◌, if◌then◌else◌, ◌≡◌,
  ◌≢◌, refl, arith, ◌∙◌, ap, sym, All, concat,
}
use n_mpc.Prelude.Result.{ok}
use n_mpc.Prelude.Dict.{Dict, lookup, insert, lookup-insert}
use n_mpc.DataJoin.Records.{Item, ExampleId, invalid_example_id}
use n_mpc.DataJoin.RawData.{load_items, load_file, load_files, load_raw_data_to_mem}

-- The last item with an id, if any, else what was known of it before.
abbrev pub last_with : ExampleId → List Item → Option Item → Option Item
last_with id [] known = known
last_with id (item ∷ rest) known =
    last_with id rest (if item.example_id == id then some item else known)

-- Of a file with a valid first item.
abbrev pub StartsValid : List Item → Type 0
StartsValid [] = true ≡ false
StartsValid (first ∷ rest) = (first.example_id == invalid_example_id) ≡ false

load_items-lookup :
    (items : List Item) (id : ExampleId) (item_dict : Dict Item)
    → lookup id (load_items true items item_dict) ≡ last_with id items (lookup id item_dict)
unfolding load_items
load_items-lookup [] id item_dict = refl
load_items-lookup (item ∷ rest) id item_dict =
    load_items-lookup rest id (insert item.example_id item item_dict)
    ∙ ap (last_with id rest) (lookup-insert item.example_id id item item_dict)

last_with-append :
    (id : ExampleId) (xs ys : List Item) (known : Option Item)
    → last_with id (xs ++ ys) known ≡ last_with id ys (last_with id xs known)
last_with-append id [] ys known = refl
last_with-append id (x ∷ xs) ys known =
    last_with-append id xs ys (if x.example_id == id then some x else known)

some_either :
    (test : Bool) (x y : Item) → (if test then some x else some y) ≡ some (if test then x else y)
some_either true x y = refl
some_either false x y = refl

-- What is known of an id is not forgotten.
last_with-some :
    (id : ExampleId) (items : List Item) (item : Item) → last_with id items (some item) ≢ none
last_with-some id [] item h = ground (arith, h)
last_with-some id (x ∷ xs) item h =
    last_with-some id xs (if x.example_id == id then x else item)
      (ap (last_with id xs) (sym (some_either (x.example_id == id) x item)) ∙ h)

first_known :
    (item : Item) → some item ≡ (if item.example_id == item.example_id then some item else none)
first_known item = ground (arith, ==-refl item.example_id)

load_file-eq :
    (first : Item) (rest : List Item) (item_dict : Dict Item)
    → (first.example_id == invalid_example_id) ≡ false
    → load_file (first ∷ rest) item_dict
      ≡ ok (load_items true rest (insert first.example_id first item_dict))
unfolding load_file
load_file-eq first rest item_dict valid = ground (arith, valid)

load_files-cons :
    (file : List Item) (files : List (List Item)) (item_dict loaded : Dict Item)
    → load_file file item_dict ≡ ok loaded
    → load_files (file ∷ files) item_dict ≡ load_files files loaded
unfolding load_files
load_files-cons file files item_dict loaded e = ground (arith, e)

load_files_nil : (item_dict : Dict Item) → load_files [] item_dict ≡ ok item_dict
unfolding load_files
load_files_nil item_dict = refl

load_files-lookup :
    (files : List (List Item)) (item_dict : Dict Item)
    → All StartsValid files
    → (loaded : Dict Item) × (load_files files item_dict ≡ ok loaded)
      × ((id : ExampleId) → lookup id loaded ≡ last_with id (concat files) (lookup id item_dict))
load_files-lookup [] item_dict h = (item_dict, load_files_nil item_dict, λ id. refl)
load_files-lookup ([] ∷ files) item_dict h = absurd (ground (arith, h.0))
load_files-lookup ((first ∷ rest) ∷ files) item_dict h =
    let inserted = insert first.example_id first item_dict in
    let ih = load_files-lookup files (load_items true rest inserted) h.1 in
    (
      ih.0,
      load_files-cons (first ∷ rest) files item_dict (load_items true rest inserted)
            (load_file-eq first rest item_dict h.0)
          ∙ ih.1,
      λ id.
          ih.2 id
          ∙ ap (last_with id (concat files)) (load_items-lookup rest id inserted)
          ∙ ap (λ k. last_with id (concat files) (last_with id rest k))
              (lookup-insert first.example_id id first item_dict)
          ∙ sym (last_with-append id (first ∷ rest) (concat files) (lookup id item_dict)),
    )

load_raw_data_to_mem-eq :
    (file : List Item) (files : List (List Item)) (loaded : Dict Item)
    → load_files (file ∷ files) [] ≡ ok loaded
    → loaded ≢ []
    → load_raw_data_to_mem (file ∷ files) ≡ ok loaded
unfolding load_raw_data_to_mem
load_raw_data_to_mem-eq file files [] e ne = absurd (ne refl)
load_raw_data_to_mem-eq file files (entry ∷ loaded) e ne = ground (arith, e)

-- Of one or more files, each with a valid id in front, all items are loaded: an id is found
-- exactly if some item has it, and then it is the last such item, in the order of the files.
pub load_raw_data_to_mem-lookup :
    (first : Item) (rest : List Item) (files : List (List Item))
    → All StartsValid ((first ∷ rest) ∷ files)
    → (loaded : Dict Item) × (load_raw_data_to_mem ((first ∷ rest) ∷ files) ≡ ok loaded)
      × ((id : ExampleId) → lookup id loaded ≡ last_with id (concat ((first ∷ rest) ∷ files)) none)
load_raw_data_to_mem-lookup first rest files h =
    let r = load_files-lookup ((first ∷ rest) ∷ files) [] h in
    let id = first.example_id in
    let more = rest ++ concat files in
    (
      r.0,
      load_raw_data_to_mem-eq (first ∷ rest) files r.0 r.1 (λ empty.
          last_with-some id more first
            (ap (last_with id more) (first_known first) ∙ sym (r.2 id) ∙ ap (lookup id) empty)),
      r.2,
    )
