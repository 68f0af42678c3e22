-- ===== src/Actors/JoinTests.antt =====
-- Two parties with a file of three rows each, of which two have an identifier that the other has.
use n_mpc.Prelude.{◌+ℤ◌, refl, false, [], ◌∷◌, String, pos, arith, ℕ, true}
use n_mpc.Prelude.Result.{Result, ok, err, not_found}
use n_mpc.Psi.Toy.{toy, toy-IsCurve, walk-id-Walks}
use n_mpc.Psi.Cipher.{contains}
use n_mpc.Psi.Joint.{NoCollision}
use n_mpc.Actors.Columns.{
  field_index, Cell, binary, number, null, Table, by_name, by_index, Hashing, column, hash_type,
  get_hash, has_column_by_name, get_actual_column_name,
}
use n_mpc.Actors.Reading.{at_path}
use n_mpc.Actors.Action.{part_path, Actor, Effects, psi, sender, receiver, do_action}
use n_mpc.Actors.Joined.{IsDone, Writes}
use n_mpc.Prelude.Text.{number_text}
use n_mpc.Actors.Paths.{infer_protocol}
use n_mpc.Actors.Parties.{
  Party, psi_sender, psi_receiver, IsHashed, hash_rows, call_of, do_action-common,
}

abbrev hashing : Hashing
hashing = record { utf8 = λ s. []; blake2b = λ b. b; pack_float = λ x. err not_found }

abbrev id_cell : ℕ → Cell
id_cell n = binary (n ∷ [])

abbrev value : ℕ → Cell
value n = number (pos n)

abbrev leader_file : Table
leader_file = record {
  column_names = "example_id" ∷ "v" ∷ [];
  rows = (id_cell 1 ∷ value 10 ∷ []) ∷ (id_cell 2 ∷ value 20 ∷ []) ∷ (id_cell 3 ∷ null ∷ []) ∷ [];
}

abbrev follower_file : Table
follower_file = record {
  column_names = "w" ∷ "example_id" ∷ [];
  rows =
      (value 300 ∷ id_cell 3 ∷ [])
      ∷ (value 400 ∷ id_cell 4 ∷ [])
      ∷ (value 100 ∷ id_cell 1 ∷ [])
      ∷ [];
}

abbrev read_leader : String → Result Table
read_leader path = ok leader_file

abbrev read_follower : String → Result Table
read_follower path = ok follower_file

abbrev leader : Actor
leader = record {
  example_id_name = by_name "example_id";
  join_type = psi;
  role = sender;
  is_directory = false;
}

abbrev follower : Actor
follower = record {
  example_id_name = by_index (pos 1);
  join_type = psi;
  role = receiver;
  is_directory = true;
}

abbrev party_a : Party
party_a = record { local_domain = "a"; remote_domain = "b"; key = 7 ∷ [] }

abbrev party_b : Party
party_b = record { local_domain = "b"; remote_domain = "a"; key = 5 ∷ [] }

abbrev no_effects : Effects
no_effects = record { reports = []; files = [] }

leader_file-IsHashed :
    IsHashed read_leader hashing leader "a.csv" leader_file "example_id"
      ((1 ∷ []) ∷ (2 ∷ []) ∷ (3 ∷ []) ∷ [])
unfolding has_column_by_name get_actual_column_name column hash_type get_hash
leader_file-IsHashed = record {
  is_read = refl;
  has_rows = refl;
  has_columns = refl;
  no_hashed_id = refl;
  no_hashed_mod_id = refl;
  is_named = refl;
  are_hashes = refl;
}

follower_file-IsHashed :
    IsHashed read_follower hashing follower "b.csv" follower_file "example_id"
      ((3 ∷ []) ∷ (4 ∷ []) ∷ (1 ∷ []) ∷ [])
unfolding has_column_by_name get_actual_column_name column hash_type get_hash ◌+ℤ◌
follower_file-IsHashed = record {
  is_read = refl;
  has_rows = refl;
  has_columns = refl;
  no_hashed_id = refl;
  no_hashed_mod_id = refl;
  is_named = refl;
  are_hashes = refl;
}

apart :
    NoCollision toy toy-IsCurve
      (λ xs. xs)
      walk-id-Walks
      (call_of party_a (hash_rows ((1 ∷ []) ∷ (2 ∷ []) ∷ (3 ∷ []) ∷ []) leader_file.rows))
      (call_of party_b (hash_rows ((3 ∷ []) ∷ (4 ∷ []) ∷ (1 ∷ []) ∷ []) follower_file.rows))
apart = ground arith

leader-Writes : Writes read_leader hashing leader (part_path "out" 0 "csv")
leader-Writes many web = absurd (cc)

follower-Writes : Writes read_follower hashing follower (part_path "out" 0 "csv")
unfolding infer_protocol number_text
follower-Writes many web = cc

do_action-common_example :
    IsDone false 0 3
      (part_path "out" 0 "csv")
      (record leader_file { rows = (id_cell 1 ∷ value 10 ∷ []) ∷ (id_cell 3 ∷ null ∷ []) ∷ [] })
      no_effects
      (do_action read_leader hashing leader
        (psi_sender toy
          (λ xs. xs)
          party_a
          party_b
          (hash_rows ((3 ∷ []) ∷ (4 ∷ []) ∷ (1 ∷ []) ∷ []) follower_file.rows))
        0
        "csv"
        (at_path "a.csv")
        "out"
        no_effects)
    × IsDone true 0 3
        (part_path "out" 0 "csv")
        (record follower_file {
          rows = (value 300 ∷ id_cell 3 ∷ []) ∷ (value 100 ∷ id_cell 1 ∷ []) ∷ [];
        })
        no_effects
        (do_action read_follower hashing follower
          (psi_receiver toy
            (λ xs. xs)
            party_a
            party_b
            (hash_rows ((1 ∷ []) ∷ (2 ∷ []) ∷ (3 ∷ []) ∷ []) leader_file.rows))
          0
          "csv"
          (at_path "b.csv")
          "out"
          no_effects)
unfolding contains field_index
do_action-common_example =
    do_action-common toy toy-IsCurve (λ xs. xs) walk-id-Walks hashing party_a party_b read_leader
      read_follower leader follower "a.csv" "b.csv" leader_file follower_file "example_id"
      "example_id" ((1 ∷ []) ∷ (2 ∷ []) ∷ (3 ∷ []) ∷ []) ((3 ∷ []) ∷ (4 ∷ []) ∷ (1 ∷ []) ∷ []) 0
      "csv" "out" "out" no_effects no_effects leader_file-IsHashed follower_file-IsHashed
      ((0, refl), ((1, refl), ((2, refl), tt))) ((0, refl), ((1, refl), ((2, refl), tt))) refl refl
      leader-Writes follower-Writes apart
