-- ===== src/Psi/Joint.antt =====
-- The two calls of api.py together: from the handshake to both results.
use n_mpc.Prelude.{
  ◌≡◌, refl, Bool, true, false, none, some, List, [], ◌∷◌, ℕ, filterb, length, arith, ◌∙◌, sym, All,
}
use n_mpc.Prelude.Result.{ok}
use n_mpc.Psi.Session.{Bytes, Session}
use n_mpc.Psi.Curve.{Primitives, IsCurve}
use n_mpc.Psi.Cipher.{returned, contains}
use n_mpc.Psi.Flow.{column_zero}
use n_mpc.Psi.Accepted.{Walks}
use n_mpc.Psi.Negotiation.{default_session, default_session-IsSupported, shakehand_flow-eq}
use n_mpc.Psi.Checked.{Separates}
use n_mpc.Psi.Exchange.{twice_encrypted, exchange, exchange_silent}
use n_mpc.Psi.Api.{Call, result_to_rank, exchanged, run_psi}

module _ (f g : Bytes → Bytes) (same : (x : Bytes) → g x ≡ f x) where
  swap_row :
      (x : Bytes) (ys : List Bytes) (xs : List Bytes)
      → All (λ y. f y ≡ f x → y ≡ x) ys
      → Separates g ys xs
      → Separates g ys (x ∷ xs)
  swap_row x [] xs h rest = tt
  swap_row x (y ∷ ys) xs h rest =
      ((λ e. sym (h.0 (sym (same y) ∙ sym e ∙ same x)), rest.0), swap_row x ys xs h.1 rest.1)

  Separates-nil : (ys : List Bytes) → Separates g ys []
  Separates-nil [] = tt
  Separates-nil (y ∷ ys) = (tt, Separates-nil ys)

  Separates-swap : (xs ys : List Bytes) → Separates f xs ys → Separates g ys xs
  Separates-swap [] ys h = Separates-nil ys
  Separates-swap (x ∷ xs) ys h = swap_row x ys xs h.0 (Separates-swap xs ys h.1)

module _ (c : Primitives) (laws : IsCurve c) (walk : List ℕ → List ℕ) (walks : Walks walk)
    {R S : Type 0} (sender : Call R) (receiver : Call S) where
  abbrev session_of_sender : Bool → Session
  session_of_sender b = default_session 0 (result_to_rank b) (result_to_rank b) sender.key

  abbrev session_of_receiver : Bool → Session
  session_of_receiver b = default_session 1 (result_to_rank b) (result_to_rank b) receiver.key

  run_psi-sessions :
      (b : Bool)
      → sender.send_back ≡ b
      → receiver.send_back ≡ b
      → run_psi c walk sender receiver
        ≡ ok (
          exchanged c (session_of_sender b) (session_of_receiver b) sender.psi_in receiver.psi_in,
          exchanged c (session_of_receiver b) (session_of_sender b) receiver.psi_in sender.psi_in,
        )
  unfolding run_psi
  run_psi-sessions b p q = ground (
    arith,
    shakehand_flow-eq walk walks (length sender.psi_in) (length receiver.psi_in)
        (result_to_rank sender.send_back) (result_to_rank receiver.send_back)
        (sender.self_domain ∷ sender.target_domain ∷ [])
        (receiver.target_domain ∷ receiver.self_domain ∷ []) sender.key receiver.key,
  )

  -- The secrets tell the identifiers of the two inputs apart.
  abbrev pub NoCollision : Type 0
  NoCollision =
      Separates (twice_encrypted c sender.key receiver.key) (column_zero sender.psi_in)
        (column_zero receiver.psi_in)

  -- With `send_back` on both sides, and if the secrets cause no collision, both calls return, each
  -- with the rows of its input whose identifier is in the other's, in their order.
  pub run_psi-common :
      sender.send_back ≡ true
      → receiver.send_back ≡ true
      → NoCollision
      → run_psi c walk sender receiver
        ≡ ok (
          returned (some (filterb (λ r. contains (column_zero receiver.psi_in) r.0) sender.psi_in)),
          returned (some (filterb (λ r. contains (column_zero sender.psi_in) r.0) receiver.psi_in)),
        )
  unfolding exchanged result_to_rank
  run_psi-common p q apart =
      let a = session_of_sender true in
      let b = session_of_receiver true in
      let sa =
        default_session-IsSupported 0 (result_to_rank true) (result_to_rank true) sender.key in
      let sb =
        default_session-IsSupported 1 (result_to_rank true) (result_to_rank true) receiver.key in
      let apart' =
        Separates-swap (twice_encrypted c sender.key receiver.key)
          (twice_encrypted c receiver.key sender.key)
          (λ x. laws.scalar_mul_comm sender.key receiver.key (c.shake256 x))
          (column_zero sender.psi_in) (column_zero receiver.psi_in) apart in
      run_psi-sessions true p q ∙ (λ i. ok (
        exchange c laws a b sender.psi_in receiver.psi_in sa sb refl refl apart i,
        exchange c laws b a receiver.psi_in sender.psi_in sb sa refl refl apart' i,
      ))

  -- With `send_back` on neither side, and if the secrets cause no collision, both calls return, and
  -- the receiver alone has a result: the rows of its input whose identifier is in the sender's.
  pub run_psi-receiver :
      sender.send_back ≡ false
      → receiver.send_back ≡ false
      → NoCollision
      → run_psi c walk sender receiver
        ≡ ok (
          returned none,
          returned (some (filterb (λ r. contains (column_zero sender.psi_in) r.0) receiver.psi_in)),
        )
  unfolding exchanged result_to_rank
  run_psi-receiver p q apart =
      let a = session_of_sender false in
      let b = session_of_receiver false in
      let sa =
        default_session-IsSupported 0 (result_to_rank false) (result_to_rank false) sender.key in
      let sb =
        default_session-IsSupported 1 (result_to_rank false) (result_to_rank false) receiver.key in
      let apart' =
        Separates-swap (twice_encrypted c sender.key receiver.key)
          (twice_encrypted c receiver.key sender.key)
          (λ x. laws.scalar_mul_comm sender.key receiver.key (c.shake256 x))
          (column_zero sender.psi_in) (column_zero receiver.psi_in) apart in
      run_psi-sessions false p q ∙ (λ i. ok (
        exchange_silent c laws a b sender.psi_in receiver.psi_in sa sb refl i,
        exchange c laws b a receiver.psi_in sender.psi_in sb sa refl refl apart' i,
      ))
