-- ===== src/Actors/Tagged.antt =====
-- The hashes and their remainders that `add_hash_column` puts in front of the rows.
use n_mpc.Prelude.{
  ℕ, ◌%◌, ◌^◌, ◌<◌, ◌≡◌, refl, sym, ap, ◌∙◌, subst, pos, some, List, [], ◌∷◌, map, ltb, arith, All,
  inl, inr, Bool-cases, String,
}
use n_mpc.Prelude.Result.{ok, ◌>>=◌, bind-ok, ok_inj}
use n_mpc.Psi.Session.{Bytes}
use n_mpc.Actors.Columns.{
  add_first, Cell, number, binary, Table, Hashing, cell_at, prepend_cells, from_big_endian,
  int16_array, add_hash_column, add_mod_column, column, hash_type, get_hash,
}
use n_mpc.Actors.Reading.{hashed_id, hashed_mod_id}

-- A row with its hash and the remainder of the hash in front.
abbrev pub IsTagged : ℕ → List Cell → Type 0
IsTagged n row =
    (b : Bytes) × (cell_at 0 row ≡ binary b)
    × (cell_at 1 row ≡ number (pos (from_big_endian 0 b % n)))

int16_array-eq :
    (hashing : Hashing) (ns : List ℕ) (mods : List Cell)
    → int16_array hashing ns ≡ ok mods
    → mods ≡ map (λ k. number (pos k)) ns
int16_array-eq hashing [] mods h = sym (ok_inj h)
int16_array-eq hashing (k ∷ ns) mods h = elim (Bool-cases (ltb k (2 ^ 15))) [
  | inl e ↦
      let next = λ (rest : List Cell). ok (number (pos k) ∷ rest) in
      let small : (int16_array hashing ns >>= next) ≡ ok mods = ground (arith, e, h) in
      let (rest, others, final) = bind-ok (int16_array hashing ns) next small in
      sym (ok_inj final) ∙ ap (λ l. number (pos k) ∷ l) (int16_array-eq hashing ns rest others)
  | inr e ↦ absurd (ground (arith, e, h))
]

prepend_cells-IsTagged :
    (n : ℕ) (hashed : List Bytes) (rows : List (List Cell))
    → All (IsTagged n) (
        prepend_cells (map binary hashed) (
          prepend_cells
            (map (λ k. number (pos k)) (map (λ b. from_big_endian 0 b % n) hashed))
            rows))
prepend_cells-IsTagged n [] rows = tt
prepend_cells-IsTagged n (b ∷ hashed) [] = tt
prepend_cells-IsTagged n (b ∷ hashed) (row ∷ rows) =
    ((b, refl, refl), prepend_cells-IsTagged n hashed rows)

add_mod_column-eq :
    (hashing : Hashing) (n : ℕ) (hashed : List Bytes) (df with_mod : Table)
    → 0 < n
    → add_mod_column hashing hashed (some hashed_mod_id) (some n) df ≡ ok with_mod
    → (with_mod.column_names ≡ hashed_mod_id ∷ df.column_names)
      × (with_mod.rows
          ≡ prepend_cells
              (map (λ k. number (pos k)) (map (λ b. from_big_endian 0 b % n) hashed))
              df.rows)
unfolding add_mod_column
add_mod_column-eq hashing n hashed df with_mod positive h =
    let values = map (λ b. from_big_endian 0 b % n) hashed in
    let next = λ (mods : List Cell). ok (add_first hashed_mod_id mods df) in
    let put : (int16_array hashing values >>= next) ≡ ok with_mod = ground (arith, h, positive) in
    let (mods, are, final) = bind-ok (int16_array hashing values) next put in
    let same = ok_inj final in
    (
      ap (λ (t : Table). t.column_names) (sym same),
      ap (λ (t : Table). t.rows) (sym same)
          ∙ ap (λ l. prepend_cells l df.rows) (int16_array-eq hashing values mods are),
    )

-- The columns and the rows of a table with its hashes and their remainders.
pub add_hash_column-IsTagged :
    (hashing : Hashing) (n : ℕ) (df : Table) (name : String) (hashed : Table)
    → 0 < n
    → add_hash_column hashing df hashed_id name (some hashed_mod_id) (some n) ≡ ok hashed
    → (hashed.column_names ≡ hashed_id ∷ hashed_mod_id ∷ df.column_names)
      × All (IsTagged n) hashed.rows
unfolding add_hash_column
add_hash_column-IsTagged hashing n df name hashed positive h =
    let remainders =
      λ (bs : List Bytes). add_mod_column hashing bs (some hashed_mod_id) (some n) df in
    let put = λ (bs : List Bytes) (t : Table). ok (add_first hashed_id (map binary bs) t) in
    let (ids, _, typed) =
      bind-ok (column df name)
        (λ ids. hash_type hashing ids >>= λ kind.
          get_hash hashing ids kind >>= λ bs. remainders bs >>= put bs)
        h in
    let (kind, _, got) =
      bind-ok (hash_type hashing ids)
        (λ kind. get_hash hashing ids kind >>= λ bs. remainders bs >>= put bs) typed in
    let (bs, _, added) = bind-ok (get_hash hashing ids kind) (λ bs. remainders bs >>= put bs) got in
    let (with_mod, mods, final) = bind-ok (remainders bs) (put bs) added in
    let parts = add_mod_column-eq hashing n bs df with_mod positive mods in
    let same = ok_inj final in
    (
      ap (λ (t : Table). t.column_names) (sym same) ∙ ap (λ l. hashed_id ∷ l) parts.0,
      subst (λ (t : Table). All (IsTagged n) t.rows) same
          (subst (λ l. All (IsTagged n) (prepend_cells (map binary bs) l)) (sym parts.1)
            (prepend_cells-IsTagged n bs df.rows)),
    )
