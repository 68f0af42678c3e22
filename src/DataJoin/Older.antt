-- ===== src/DataJoin/Older.antt =====
-- The files that the next blocks leave alone.
use n_mpc.Prelude.{ℕ, suc, ◌≤◌, ◌≢◌, sym, String, arith}
use n_mpc.DataJoin.Records.{DataBlockMeta}
use n_mpc.DataJoin.Files.{Names, AreApart}

module _ (names : Names) where
  -- A path that no block from `n` on uses, nor any temporary file.
  pub record IsOlder (n : ℕ) (path : String) : Type 0 where
    pub no_tmp : (t : ℕ) → names.tmp_path t ≢ path
    pub no_meta : (i : ℕ) → n ≤ i → names.meta_path i ≢ path
    pub no_data : (meta : DataBlockMeta) → n ≤ meta.data_block_index → names.data_path meta ≢ path

  pub IsOlder-suc : (n : ℕ) (path : String) → IsOlder n path → IsOlder (suc n) path
  IsOlder-suc n path h = record {
    no_tmp = h.no_tmp;
    no_meta = λ i le. h.no_meta i (omega arith);
    no_data = λ meta le. h.no_data meta (omega arith);
  }

  pub IsOlder-le : (n m : ℕ) (path : String) → n ≤ m → IsOlder n path → IsOlder m path
  IsOlder-le n m path le h = record {
    no_tmp = h.no_tmp;
    no_meta = λ i lt. h.no_meta i (omega arith);
    no_data = λ meta lt. h.no_data meta (omega arith);
  }

  module _ (apart : AreApart names) where
    pub IsOlder-meta : (n : ℕ) → IsOlder (suc n) (names.meta_path n)
    IsOlder-meta n = record {
      no_tmp = λ t. apart.tmp-ne-meta t n;
      no_meta = λ i le e. absurd (omega (arith, apart.meta_path-injective i n e));
      no_data = λ meta le. apart.data-ne-meta meta n;
    }

    pub IsOlder-data :
        (meta : DataBlockMeta) → IsOlder (suc meta.data_block_index) (names.data_path meta)
    IsOlder-data meta = record {
      no_tmp = λ t e. apart.data-ne-tmp meta t (sym e);
      no_meta = λ i le e. apart.data-ne-meta meta i (sym e);
      no_data = λ other le e. absurd (omega (arith, apart.data_path-index other meta e));
    }
