-- ===== src/DataJoin/Search.antt =====
-- The search for the last saved block.
use native.Mathlib.Nat.{pow-suc}
use n_mpc.Prelude.{
  refl, inl, inr, ℕ, zero, suc, ◌+◌, ◌-◌, ◌/◌, ◌^◌, ◌<◌, ◌≤◌, ◌≡◌, pos, sub_ℕ, Bool, arith, ltb,
  ◌*◌, negsuc, Bool-cases, leb, leb→le, ltb→lt, ltb_false→le, leb_false→lt,
}
use n_mpc.DataJoin.BlockManager.{search_saved}

search_saved-negsuc :
    (has_file : ℕ → Bool) (fuel low k : ℕ) → search_saved has_file fuel low (negsuc k) ≡ negsuc k
unfolding search_saved
search_saved-negsuc has_file zero low k = refl
search_saved-negsuc has_file (suc fuel) low k = refl

module _ (has_file : ℕ → Bool) (n : ℕ) (files : (i : ℕ) → has_file i ≡ ltb i n) where
  -- The rounds of a search from `low` whose upper end is below `middle`.
  search_below :
      (fuel low : ℕ)
      → ((h : ℕ)
          → n ≤ h + 1
          → h + 1 - low < 2 ^ fuel
          → search_saved has_file fuel low (pos h) ≡ sub_ℕ n 1)
      → (middle : ℕ) → n ≤ middle
      → middle - low < 2 ^ fuel
      → search_saved has_file fuel low (sub_ℕ middle 1) ≡ sub_ℕ n 1
  search_below fuel low ih zero a f =
      let none_saved : n ≡ 0 = omega arith in
      rw none_saved (search_saved-negsuc has_file fuel low 0)
  search_below fuel low ih (suc k) a f =
      let e : sub_ℕ (suc k) 1 ≡ pos k = ground arith in rw e (ih k (omega arith) (omega arith))

  -- Where exactly the indices below `n` have a file, the search comes to the last of them.
  pub search_saved-eq :
      (fuel low h : ℕ)
      → low ≤ n
      → n ≤ h + 1
      → h + 1 - low < 2 ^ fuel
      → search_saved has_file fuel low (pos h) ≡ sub_ℕ n 1
  unfolding search_saved
  search_saved-eq zero low h a b f =
      let one : 2 ^ zero ≡ 1 = refl in let e : n ≡ suc h = omega arith in rw e (ground arith)
  search_saved-eq (suc fuel) low h a b f =
      let power : 2 ^ suc fuel ≡ 2 ^ fuel * 2 = pow-suc 2 fuel in
      let m = (low + h) / 2 in
      elim (Bool-cases (leb low h)) [
        | inl going ↦
            let le : low ≤ h = leb→le low h going in
            elim (Bool-cases (ltb m n)) [
              | inl saved ↦
                  rw (going, files m, saved)
                    (search_saved-eq fuel (m + 1) h (omega (arith, ltb→lt m n saved)) b
                      (omega arith))
              | inr missing ↦
                  rw (going, files m, missing)
                    (search_below fuel low (λ h' b' f'. search_saved-eq fuel low h' a b' f') m
                      (ltb_false→le m n missing) (omega arith))
            ]
        | inr over ↦
            let lt : h < low = leb_false→lt low h over in
            let e : n ≡ suc h = omega arith in rw (over, e) (ground arith)
      ]
