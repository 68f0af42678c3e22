-- ===== src/DataJoin/Files.antt =====
-- The files of one partition's directory, as `gfile` shows them, and the names that the helpers of
-- src/DataJoin/utils give them. Those helpers are not in the repository: the names are parameters.
use n_mpc.Prelude.{
  ℕ, String, ◌≡◌, ◌≢◌, Bool, true, false, ◌&&◌, not, Option, none, some, List, [], ◌∷◌, arith,
  str_eq, eq_iff, if◌then◌else◌,
}
use n_mpc.Prelude.Result.{Result, ok, err, not_found, already_exists}
use n_mpc.DataJoin.Records.{DataBlockMeta}

-- A file holds the text of a block's meta data, or the records of a block.
pub data Content : Type 0 where
  meta_content : DataBlockMeta → Content
  records_content : List (List ℕ) → Content

abbrev pub Files : Type 0
Files = List (String × Content)

abbrev pub read_file : String → Files → Option Content
read_file path [] = none
read_file path ((p, c) ∷ files) = if str_eq p path then some c else read_file path files

-- `gfile.Exists`
abbrev pub exists_file : String → Files → Bool
exists_file path files = elim (read_file path files) [ none ↦ false | some _ ↦ true ]

-- `gfile.Remove`
abbrev pub delete_file : String → Files → Files
delete_file path [] = []
delete_file path ((p, c) ∷ files) =
    let rest = delete_file path files in if str_eq p path then rest else (p, c) ∷ rest

abbrev pub write_file : String → Content → Files → Files
write_file path c files = (path, c) ∷ delete_file path files

-- `gfile.Rename(src, dst, overwrite)`
unfoldable pub rename : String → String → Bool → Files → Result Files
rename src dst overwrite files = elim (read_file src files) [
  | none ↦ err not_found
  | some c ↦
      if exists_file dst files && not overwrite
      then err already_exists
      else ok (write_file dst c (delete_file src files))
]

-- The names of the files of a partition: `_acquire_data_block_meta_path`, the name of a block's
-- records, and the names of temporary files.
pub record Names : Type 0 where
  pub meta_path : ℕ → String
  pub data_path : DataBlockMeta → String
  pub tmp_path : ℕ → String
  pub block_id : DataBlockMeta → String

-- Names do not clash.
pub record AreApart (names : Names) : Type 0 where
  pub meta_path-injective : (i j : ℕ) → names.meta_path i ≡ names.meta_path j → i ≡ j
  pub tmp_path-injective : (i j : ℕ) → names.tmp_path i ≡ names.tmp_path j → i ≡ j
  pub tmp-ne-meta : (i j : ℕ) → names.tmp_path i ≢ names.meta_path j
  pub data-ne-meta : (m : DataBlockMeta) (j : ℕ) → names.data_path m ≢ names.meta_path j
  pub data-ne-tmp : (m : DataBlockMeta) (j : ℕ) → names.data_path m ≢ names.tmp_path j
  pub data_path-index :
      (m m' : DataBlockMeta)
      → names.data_path m ≡ names.data_path m'
      → m.data_block_index ≡ m'.data_block_index

pub read_file-delete_file :
    (path p : String) (files : Files)
    → read_file p (delete_file path files) ≡ (if str_eq path p then none else read_file p files)
read_file-delete_file path p [] = ground arith
read_file-delete_file path p ((q, c) ∷ files) =
    ground (arith, read_file-delete_file path p files, eq_iff q path, eq_iff q p, eq_iff path p)

pub read_file-write_file :
    (path p : String) (c : Content) (files : Files)
    → read_file p (write_file path c files) ≡ (if str_eq path p then some c else read_file p files)
read_file-write_file path p c files = ground (arith, read_file-delete_file path p files)
