-- ===== src/Actors/Counting.antt =====
-- How often a number is in a list, and what the changes of one place do to it.
use n_mpc.Prelude.{
  remove_at, ℕ, zero, suc, ◌+◌, ◌<◌, ◌≡◌, refl, subst, some, List, [], ◌∷◌, ◌++◌, map, length,
  get_elem?, set, ◌==◌, if◌then◌else◌, arith, All, false,
}
use n_mpc.Actors.Dispatch.{Block, is_init}
use n_mpc.Actors.Dispatched.{unprocessed}

abbrev pub one_if : (x y : ℕ) → ℕ
one_if x y = if x == y then 1 else 0

abbrev pub count : ℕ → List ℕ → ℕ
count x [] = 0
count x (y ∷ ys) = one_if x y + count x ys

pub count-append : (x : ℕ) (ys zs : List ℕ) → count x (ys ++ zs) ≡ count x ys + count x zs
count-append x [] zs = omega arith
count-append x (y ∷ ys) zs = omega (arith, count-append x ys zs)

module _ {A : Type 0} (key : A → ℕ) where
  pub count-set :
      (x : ℕ) (xs : List A) (i : ℕ) (old new : A)
      → get_elem? xs i ≡ some old
      → count x (map key (set xs i new)) + one_if x (key old)
        ≡ count x (map key xs) + one_if x (key new)
  count-set x [] i old new h = absurd (cc)
  count-set x (y ∷ ys) zero old new h = ground (arith, h)
  count-set x (y ∷ ys) (suc i) old new h = omega (arith, count-set x ys i old new h)

  pub count-remove_at :
      (x : ℕ) (xs : List A) (i : ℕ) (old : A)
      → get_elem? xs i ≡ some old
      → count x (map key (remove_at i xs)) + one_if x (key old) ≡ count x (map key xs)
  count-remove_at x [] i old h = absurd (cc)
  count-remove_at x (y ∷ ys) zero old h = ground (arith, h)
  count-remove_at x (y ∷ ys) (suc i) old h = omega (arith, count-remove_at x ys i old h)

module _ {A : Type 0} where
  pub length-remove_at :
      (xs : List A) (i : ℕ) → i < length xs → suc (length (remove_at i xs)) ≡ length xs
  length-remove_at [] i h = absurd (omega arith)
  length-remove_at (x ∷ xs) zero h = refl
  length-remove_at (x ∷ xs) (suc i) h = omega (arith, length-remove_at xs i (omega arith))

  module _ (P : A → Type 0) where
    pub All-get : (xs : List A) (i : ℕ) (a : A) → get_elem? xs i ≡ some a → All P xs → P a
    All-get [] i a h ps = absurd (cc)
    All-get (x ∷ xs) zero a h (p, ps) = let e : x ≡ a = cc in subst P e p
    All-get (x ∷ xs) (suc i) a h (p, ps) = All-get xs i a h ps

    pub All-set : (xs : List A) (i : ℕ) (a : A) → P a → All P xs → All P (set xs i a)
    All-set [] i a q ps = tt
    All-set (x ∷ xs) zero a q (p, ps) = (q, ps)
    All-set (x ∷ xs) (suc i) a q (p, ps) = (p, All-set xs i a q ps)

    pub All-remove_at : (xs : List A) (i : ℕ) → All P xs → All P (remove_at i xs)
    All-remove_at [] i ps = tt
    All-remove_at (x ∷ xs) zero (p, ps) = ps
    All-remove_at (x ∷ xs) (suc i) (p, ps) = (p, All-remove_at xs i ps)

-- A block that was given out is no longer among those that nobody has, whatever its new status.
pub unprocessed-set :
    (k : ℕ) (blocks : List Block) (i : ℕ) (new : Block)
    → is_init new.status ≡ false
    → count (k + i) (unprocessed k blocks) ≡ 0
    → unprocessed k (set blocks i new) ≡ unprocessed k blocks
unprocessed-set k [] i new h c = refl
unprocessed-set k (block ∷ rest) zero new h c = ground (arith, h, c)
unprocessed-set k (block ∷ rest) (suc i) new h c =
    let same : suc k + i ≡ k + suc i = omega arith in
    ground (arith, c, same, unprocessed-set (suc k) rest i new h)

-- The numbers of a list's entries are those from `k` on.
module _ {A : Type 0} (key : A → ℕ) where
  abbrev pub AreKeyed : (k : ℕ) → List A → Type 0
  AreKeyed k [] = Unit
  AreKeyed k (x ∷ xs) = (key x ≡ k) × AreKeyed (suc k) xs

  pub AreKeyed-get :
      (k : ℕ) (xs : List A) (i : ℕ) (a : A)
      → get_elem? xs i ≡ some a
      → AreKeyed k xs
      → key a ≡ k + i
  AreKeyed-get k [] i a h ks = absurd (cc)
  AreKeyed-get k (x ∷ xs) zero a h (e, ks) =
      let same : x ≡ a = cc in subst (λ y. key y ≡ k + 0) same (omega (arith, e))
  AreKeyed-get k (x ∷ xs) (suc i) a h (e, ks) = omega (arith, AreKeyed-get (suc k) xs i a h ks)

  pub AreKeyed-set :
      (k : ℕ) (xs : List A) (i : ℕ) (a : A)
      → key a ≡ k + i
      → AreKeyed k xs
      → AreKeyed k (set xs i a)
  AreKeyed-set k [] i a h ks = tt
  AreKeyed-set k (x ∷ xs) zero a h (e, ks) = (omega (arith, h), ks)
  AreKeyed-set k (x ∷ xs) (suc i) a h (e, ks) =
      (e, AreKeyed-set (suc k) xs i a (omega (arith, h)) ks)

  pub AreKeyed-append :
      (k : ℕ) (xs : List A) (a : A)
      → key a ≡ k + length xs
      → AreKeyed k xs
      → AreKeyed k (xs ++ a ∷ [])
  AreKeyed-append k [] a h ks = (omega (arith, h), tt)
  AreKeyed-append k (x ∷ xs) a h (e, ks) = (e, AreKeyed-append (suc k) xs a (omega (arith, h)) ks)

pub All-append :
    {A : Type 0} (P : A → Type 0) (xs : List A) (a : A) → P a → All P xs → All P (xs ++ a ∷ [])
All-append P [] a q ps = (q, tt)
All-append P (x ∷ xs) a q (p, ps) = (p, All-append P xs a q ps)
