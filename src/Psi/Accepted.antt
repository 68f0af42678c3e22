-- ===== src/Psi/Accepted.antt =====
-- Which proposals the intersections of a handshake accept (src/PSI/psi/interconnection_psi).
use n_mpc.Prelude.{
  ℕ, ◌≡◌, refl, Bool, true, ◌&&◌, List, [], ◌∷◌, map, ℤ, ◌+ℤ◌, ◌==ℤ◌, ◌==◌, if◌then◌else◌, anyb,
  length, arith,
}
use n_mpc.Prelude.Result.{ok, err, syntax_error}
use n_mpc.Psi.Session.{EcSuit, uncompressed}
use n_mpc.Psi.Messages.{
  EccProtocolProposal, PsiDataInfoProposal, Packed, io_proposal, HandshakeRequest, default_suit,
  default_proposal,
}
use n_mpc.Psi.Base.{
  intersection_int, intersection_suits, intersection_numbers, same_suit, in_all, elem,
  unpack_proposals, unpack_io,
}
use n_mpc.Psi.Handshake.{Agreed, agree_io, agree_ecc}

-- `list` of a set has the elements of the set, each once.
pub record Walks (walk : List ℕ → List ℕ) : Type 0 where
  pub length-walk : (xs : List ℕ) → length (walk xs) ≡ length xs
  pub elem-walk : (x : ℕ) (xs : List ℕ) → elem x (walk xs) ≡ elem x xs

-- What this program asks of the other side's proposals.
abbrev pub io_accepts : ℤ → PsiDataInfoProposal → Bool
io_accepts r p = elem 1 p.supported_versions && (p.result_to_rank ==ℤ r)

abbrev pub io_param_accepts : ℤ → Packed → Bool
io_param_accepts r (io_proposal p) = io_accepts r p
io_param_accepts r _ = true

abbrev pub ecc_accepts : EccProtocolProposal → Bool
ecc_accepts p =
    elem 1 p.supported_versions
    && anyb (λ s. same_suit s default_suit) p.ec_suits
    && elem uncompressed p.point_octet_formats

abbrev pub all_accept : List EccProtocolProposal → Bool
all_accept [] = true
all_accept (p ∷ ps) = ecc_accepts p && all_accept ps

abbrev pub accepts : ℤ → HandshakeRequest → Bool
accepts r req =
    (req.version == 1)
    && elem 1 req.supported_algos
    && io_param_accepts r req.io_param
    && elem 1 req.protocol_families
    && all_accept (unpack_proposals req.protocol_family_params)

abbrev pub default_agreed : Agreed
default_agreed = record {
  algo_version = 1;
  ecc_version = 1;
  ec_suit = default_suit;
  point_octet_format = uncompressed;
}

pub intersection_int-pair : (a b : ℤ) → intersection_int a (b ∷ []) ≡ (b ==ℤ a)
unfolding intersection_int ◌+ℤ◌
intersection_int-pair a b = ground arith

intersection_int_self : (a : ℤ) → intersection_int a [] ≡ true
unfolding intersection_int ◌+ℤ◌
intersection_int_self a = ground arith

module _ (walk : List ℕ → List ℕ) (walks : Walks walk) where
  walk-nil : walk [] ≡ []
  walk-nil = go (walk []) (walks.length-walk [])
    where
      go : (xs : List ℕ) → length xs ≡ 0 → xs ≡ []
      go [] h = refl
      go (x ∷ xs) h = absurd (omega arith)

  walk-singleton : (x : ℕ) → walk (x ∷ []) ≡ x ∷ []
  walk-singleton x = go (walk (x ∷ [])) (walks.length-walk (x ∷ [])) (walks.elem-walk x (x ∷ []))
    where
      go : (ys : List ℕ) → length ys ≡ 1 → elem x ys ≡ elem x (x ∷ []) → ys ≡ x ∷ []
      go [] h e = absurd (omega arith)
      go (y ∷ []) h e = ground arith
      go (y ∷ z ∷ ys) h e = absurd (omega arith)

  pub intersection_numbers-singleton :
      (x : ℕ) (rest : List (List ℕ))
      → intersection_numbers walk (x ∷ []) rest ≡ ok (if in_all ◌==◌ x rest then x ∷ [] else [])
  unfolding intersection_numbers
  intersection_numbers-singleton x rest = ground (arith, walk-singleton x, walk-nil)

intersection_suits-singleton :
    (x : EcSuit) (rest : List (List EcSuit))
    → intersection_suits (x ∷ []) rest ≡ ok (if in_all same_suit x rest then x ∷ [] else [])
unfolding intersection_suits
intersection_suits-singleton x rest = ground arith

all_accept-eq :
    (ps : List EccProtocolProposal)
    → (in_all ◌==◌ 1 (map (λ p. p.supported_versions) ps)
        && (in_all same_suit default_suit (map (λ p. p.ec_suits) ps)
            && in_all ◌==◌ uncompressed (map (λ p. p.point_octet_formats) ps)))
      ≡ all_accept ps
all_accept-eq [] = refl
all_accept-eq (p ∷ ps) = ground (arith, all_accept-eq ps)

module _ (walk : List ℕ → List ℕ) (walks : Walks walk) where
  pub agree_io-eq :
      (n : ℕ) (r : ℤ) (p : Packed)
      → agree_io walk (
          unpack_io (
            io_proposal (record { supported_versions = 1 ∷ []; item_num = n; result_to_rank = r })
            ∷ p
            ∷ []))
        ≡ (if io_param_accepts r p then ok 1 else err syntax_error)
  unfolding agree_io unpack_io
  agree_io-eq n r (io_proposal p) = ground (
    arith,
    intersection_numbers-singleton walk walks 1 (p.supported_versions ∷ []),
    intersection_int-pair r p.result_to_rank,
  )
  agree_io-eq n r p =
      ground (arith, intersection_numbers-singleton walk walks 1 [], intersection_int_self r)

  pub agree_ecc-eq :
      (ps : List EccProtocolProposal)
      → agree_ecc walk (default_proposal ∷ ps)
        ≡ (if all_accept ps then ok (1, default_suit, uncompressed) else err syntax_error)
  unfolding agree_ecc
  agree_ecc-eq ps = ground (
    arith,
    intersection_numbers-singleton walk walks 1 (map (λ p. p.supported_versions) ps),
    intersection_suits-singleton default_suit (map (λ p. p.ec_suits) ps),
    intersection_numbers-singleton walk walks uncompressed (map (λ p. p.point_octet_formats) ps),
    all_accept-eq ps,
  )
