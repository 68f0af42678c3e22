-- ===== src/Actors/Columns.antt =====
-- The columns of a block in src/PSI/psi_actors.py: their names, and the column of hashes put in
-- front.
use n_mpc.Prelude.{
  remove_at, ℕ, zero, suc, ◌+◌, ◌*◌, ◌/◌, ◌%◌, ◌==◌, ltb, ◌^◌, if◌then◌else◌, String, Bool, ◌||◌,
  Option, none, some, List, [], ◌∷◌, ◌++◌, map, str_eq, anyb, get_elem?, ℤ, pos, negsuc, ◌+ℤ◌,
  reverse,
}
use n_mpc.Prelude.Result.{
  Result, ok, err, or_raise, require, value_error, index_error, type_error, key_error,
  attribute_error, overflow_error, plain_exception, ◌>>=◌, ◌>>◌,
}
use n_mpc.Psi.Session.{Bytes}

-- A value; a float and any other value by their bits.
pub data Cell : Type 0 where
  null : Cell
  text : String → Cell
  number : ℤ → Cell
  binary : Bytes → Cell
  float other : ℕ → Cell

-- A table: each row has a cell for each column.
pub record Table : Type 0 where
  pub column_names : List String
  pub rows : List (List Cell)

unfoldable pub has_column_by_name : Table → (column_name : String) → Bool
has_column_by_name df column_name = anyb (λ n. str_eq n column_name) df.column_names

-- `names[i]` of Python, from the end where `i` is negative.
abbrev pub name_at : List String → ℤ → Result String
name_at names (pos n) = or_raise (get_elem? names n) index_error
name_at names (negsuc n) = or_raise (get_elem? (reverse names) n) index_error

-- A column by its name, or by its index.
pub data ColumnKey : Type 0 where
  by_name : String → ColumnKey
  by_index : ℤ → ColumnKey

unfoldable pub get_actual_column_name : Table → ColumnKey → (added_columns : ℕ) → Result String
get_actual_column_name df (by_name name) added = ok name
get_actual_column_name df (by_index i) added = name_at df.column_names (i +ℤ pos added)

abbrev pub index_from : ℕ → String → List String → Option ℕ
index_from i name [] = none
index_from i name (n ∷ names) =
    let later = index_from (suc i) name names in if str_eq n name then some i else later

abbrev pub occurrences : String → List String → ℕ
occurrences name [] = 0
occurrences name (n ∷ names) =
    if str_eq n name then suc (occurrences name names) else occurrences name names

-- The one column of this name: pyarrow takes a name that is missing or not unique for a KeyError.
unfoldable pub field_index : (name : String) → List String → Result ℕ
field_index name names =
    if occurrences name names == 1
    then or_raise (index_from 0 name names) key_error
    else err key_error

abbrev pub cell_at : ℕ → List Cell → Cell
cell_at i [] = null
cell_at zero (c ∷ cells) = c
cell_at (suc i) (c ∷ cells) = cell_at i cells

unfoldable pub column : Table → (name : String) → Result (List Cell)
unfolding field_index
column df name = field_index name df.column_names >>= λ i. ok (map (cell_at i) df.rows)

-- `data.drop([name])`
unfoldable pub drop_column : (name : String) → Table → Result Table
unfolding field_index
drop_column name df = field_index name df.column_names >>= λ i.
    ok (record { column_names = remove_at i df.column_names; rows = map (remove_at i) df.rows })

abbrev pub prepend_cells : List Cell → List (List Cell) → List (List Cell)
prepend_cells [] rows = []
prepend_cells (c ∷ cells) [] = []
prepend_cells (c ∷ cells) (row ∷ rows) = (c ∷ row) ∷ prepend_cells cells rows

-- `df.add_column(0, name, values)`
abbrev pub add_first : (name : String) (values : List Cell) → Table → Table
add_first name values df = record {
  column_names = name ∷ df.column_names;
  rows = prepend_cells values df.rows;
}

-- `n.to_bytes(size, byteorder='big')`, of the lowest bytes of `n`.
abbrev pub big_endian : (size n : ℕ) → Bytes
big_endian zero n = []
big_endian (suc size) n = big_endian size (n / 256) ++ (n % 256 ∷ [])

-- `int(bytes.hex(x), 16)`
abbrev pub from_big_endian : ℕ → Bytes → ℕ
from_big_endian n [] = n
from_big_endian n (b ∷ rest) = from_big_endian (n * 256 + b) rest

-- The kinds of identifiers that `get_hash` knows.
pub data HashType : Type 0 where
  str int bytes float_type : HashType

-- The UTF-8 encoding, blake2b with 16 bytes, and `struct.pack('f', x)`, which may raise.
pub record Hashing : Type 0 where
  pub utf8 : String → Bytes
  pub blake2b : Bytes → Bytes
  pub pack_float : Cell → Result Bytes

module _ (h : Hashing) where
  unfoldable pub hash16 : Bytes → Bytes
  hash16 b = h.blake2b b

  -- The bytes of one identifier.
  unfoldable pub to_hash : HashType → Cell → Result Bytes
  to_hash str (text s) = ok (h.utf8 s)
  to_hash str _ = err type_error
  to_hash int (number (pos n)) = if ltb n (2 ^ 64) then ok (big_endian 8 n) else err overflow_error
  to_hash int (number (negsuc n)) = err overflow_error
  to_hash int _ = err attribute_error
  to_hash bytes (binary b) = ok b
  to_hash bytes _ = err type_error
  to_hash float_type x = h.pack_float x

  unfoldable pub get_hash : (array : List Cell) → HashType → Result (List Bytes)
  unfolding to_hash hash16
  get_hash [] kind = ok []
  get_hash (x ∷ array) kind =
      to_hash kind x >>= λ b. get_hash array kind >>= λ rest. ok (hash16 b ∷ rest)

  -- The kind of the first identifier.
  unfoldable pub hash_type : List Cell → Result HashType
  hash_type [] = err index_error
  hash_type (text _ ∷ _) = ok str
  hash_type (number _ ∷ _) = ok int
  hash_type (binary _ ∷ _) = ok bytes
  hash_type (float _ ∷ _) = ok float_type
  hash_type (null ∷ _) = err plain_exception
  hash_type (other _ ∷ _) = err plain_exception

  -- `pa.array(values, type=pa.int16())`, which raises a subclass of ValueError on overflow.
  abbrev pub int16_array : List ℕ → Result (List Cell)
  int16_array [] = ok []
  int16_array (n ∷ ns) =
      require (ltb n (2 ^ 15)) value_error
      >> (int16_array ns >>= λ rest. ok (number (pos n) ∷ rest))

  -- The column of remainders, where a name and a divisor are given that count as true.
  unfoldable pub add_mod_column : List Bytes → Option String → Option ℕ → Table → Result Table
  add_mod_column hashed none n df = ok df
  add_mod_column hashed (some name) none df = ok df
  add_mod_column hashed (some name) (some n) df =
      if str_eq name "" || n == 0
      then ok df
      else (int16_array (map (λ x. from_big_endian 0 x % n) hashed)
          >>= (λ mods. ok (add_first name mods df)))

  unfoldable pub add_hash_column :
      Table
      → (hashed_column_name to_hash_column_name : String)
      → (hashed_mod_column_name : Option String) (hashed_mod_n : Option ℕ) → Result Table
  unfolding column hash_type get_hash add_mod_column
  add_hash_column df hashed_name name mod_name mod_n = column df name >>= λ id_list.
      hash_type id_list >>= λ kind. get_hash id_list kind >>= λ hashed.
      add_mod_column hashed mod_name mod_n df >>= λ with_mod.
      ok (add_first hashed_name (map binary hashed) with_mod)
