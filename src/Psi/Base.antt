-- ===== src/Psi/Base.antt =====
-- The helpers of the negotiation: src/PSI/psi/interconnection_psi/base.py.
use n_mpc.Prelude.{
  ℕ, zero, suc, Bool, true, ◌&&◌, List, [], ◌∷◌, ℤ, pos, ◌+ℤ◌, ◌==ℤ◌, ◌==◌, if◌then◌else◌, anyb,
  filterb, length,
}
use n_mpc.Prelude.Result.{Result, ok, err, index_error, syntax_error, psi_exception}
use n_mpc.Psi.Session.{EcSuit, EccProtocolResult}
use n_mpc.Psi.Messages.{
  EccProtocolProposal, PsiDataInfoProposal, Packed, ecc_proposal, ecc_result, io_proposal,
}

-- `raise_exception` of base.py. `negotiate_handshake` passes `filedpos` as a list of one name, so
-- that for each input the text that is evaluated is `lst.['name']`: a SyntaxError. Only with no
-- input is the PsiException raised.
unfoldable pub raise_exception {ℓ} : {A : Type ℓ} → ℕ → ℕ → Result A
raise_exception error_code zero = err (psi_exception error_code)
raise_exception error_code (suc inputs) = err syntax_error

-- `intersection` at `int`: whether the sum is that many times the first.
unfoldable pub sum : List ℤ → ℤ
sum [] = pos 0
sum (x ∷ xs) = x +ℤ sum xs

unfoldable pub times : ℕ → ℤ → ℤ
times zero x = pos 0
times (suc n) x = x +ℤ times n x

unfoldable pub intersection_int : ℤ → List ℤ → Bool
unfolding sum times
intersection_int filed rest = sum (filed ∷ rest) ==ℤ times (length (filed ∷ rest)) filed

-- `intersection` at `bool`
unfoldable pub intersection_bool : List Bool → Bool
intersection_bool [] = true
intersection_bool (b ∷ bs) = b && intersection_bool bs

unfoldable pub same_suit : EcSuit → EcSuit → Bool
same_suit a b =
    (a.curve == b.curve) && (a.hash == b.hash) && (a.hash2curve_strategy == b.hash2curve_strategy)

-- `element in list`
abbrev pub elem : ℕ → List ℕ → Bool
elem x xs = anyb (λ y. y == x) xs

-- `is_common`: in every other list
abbrev pub in_all {ℓ} : {A : Type ℓ} → (A → A → Bool) → A → List (List A) → Bool
in_all same x [] = true
in_all same x (ys ∷ rest) = anyb (λ y. same y x) ys && in_all same x rest

-- `intersection` at `list`, of messages, whose `__hash__` is None in the C implementations of
-- protobuf: in the order of the first list. `filed[0]` fails on an empty first list.
unfoldable pub intersection_suits : List EcSuit → List (List EcSuit) → Result (List EcSuit)
unfolding same_suit
intersection_suits [] rest = err index_error
intersection_suits (x ∷ xs) rest = ok (filterb (λ y. in_all same_suit y rest) (x ∷ xs))

-- `set(filed)`: each number once
unfoldable pub distinct : List ℕ → List ℕ
distinct [] = []
distinct (x ∷ xs) = let rest = distinct xs in if elem x xs then rest else x ∷ rest

-- `intersection` at `list`, of numbers: through sets. `list` of a set is in the order in which the
-- interpreter walks it, a parameter.
unfoldable pub intersection_numbers : (List ℕ → List ℕ) → List ℕ → List (List ℕ) → Result (List ℕ)
unfolding distinct
intersection_numbers walk [] rest = err index_error
intersection_numbers walk (x ∷ xs) rest =
    ok (walk (filterb (λ y. in_all ◌==◌ y rest) (distinct (x ∷ xs))))

-- `unpack_params` of lists of `Any`: those of the wanted type.
unfoldable pub unpack_proposals : List Packed → List EccProtocolProposal
unpack_proposals [] = []
unpack_proposals (ecc_proposal p ∷ rest) = p ∷ unpack_proposals rest
unpack_proposals (_ ∷ rest) = unpack_proposals rest

unfoldable pub unpack_results : List Packed → List EccProtocolResult
unpack_results [] = []
unpack_results (ecc_result p ∷ rest) = p ∷ unpack_results rest
unpack_results (_ ∷ rest) = unpack_results rest

unfoldable pub unpack_io : List Packed → List PsiDataInfoProposal
unpack_io [] = []
unpack_io (io_proposal p ∷ rest) = p ∷ unpack_io rest
unpack_io (_ ∷ rest) = unpack_io rest

-- `ret[0]`
unfoldable pub first {ℓ} : {A : Type ℓ} → List A → Result A
first [] = err index_error
first (x ∷ xs) = ok x
