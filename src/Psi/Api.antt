-- ===== src/Psi/Api.antt =====
-- src/PSI/psi/interconnection_psi/api.py: the two calls, run against each other. The link that both
-- connect to delivers what the one sends to the other.
use n_mpc.Prelude.{Bool, Option, List, [], ◌∷◌, ℕ, ℤ, pos, negsuc, String, length, if◌then◌else◌}
use n_mpc.Prelude.Result.{Result, ok, ◌>>=◌}
use n_mpc.Psi.Session.{Bytes, Session}
use n_mpc.Psi.Curve.{Primitives}
use n_mpc.Psi.Cipher.{Thread}
use n_mpc.Psi.Flow.{Rows, enc_sent, dual_sent, diffie_hellman_flow}
use n_mpc.Psi.Messages.{Context, new_context, sender_rank, receiver_rank}
use n_mpc.Psi.Handshake.{shakehand_flow}

-- `result_to_rank=-1 if send_back else RECEIVER_RANK`
unfoldable pub result_to_rank : Bool → ℤ
result_to_rank send_back = if send_back then negsuc 0 else pos receiver_rank

-- The context that `psi_sender` makes.
unfoldable pub sender_context : ℕ → Bool → String → String → Context
unfolding result_to_rank
sender_context num_rows send_back self_domain target_domain =
    new_context sender_rank num_rows (result_to_rank send_back) (self_domain ∷ target_domain ∷ [])

-- The context that `psi_receiver` makes.
unfoldable pub receiver_context : ℕ → Bool → String → String → Context
unfolding result_to_rank
receiver_context num_rows send_back self_domain target_domain =
    new_context receiver_rank num_rows (result_to_rank send_back) (target_domain ∷ self_domain ∷ [])

-- The arguments of one call that matter here, and the key that its handshake draws.
pub record Call (R : Type 0) : Type 0 where
  pub psi_in : Rows R
  pub self_domain : String
  pub target_domain : String
  pub send_back : Bool
  pub key : Bytes

module _ (c : Primitives) {R S : Type 0} where
  -- What a party's exchange with the other returns.
  unfoldable pub exchanged : Session → Session → Rows R → Rows S → Thread (Option (Rows R))
  exchanged own other rows other_rows =
      diffie_hellman_flow c rows own (enc_sent c other other_rows).0
        (dual_sent c other (enc_sent c own rows).0).0

unfoldable pub run_psi :
    {R S : Type 0}
    → Primitives
    → (List ℕ → List ℕ)
    → Call R
    → Call S
    → Result (Thread (Option (Rows R)) × Thread (Option (Rows S)))
unfolding sender_context receiver_context
run_psi c walk sender receiver = do
  sessions ←
      shakehand_flow walk
        (sender_context (length sender.psi_in) sender.send_back sender.self_domain
          sender.target_domain)
        (receiver_context (length receiver.psi_in) receiver.send_back receiver.self_domain
          receiver.target_domain)
        sender.key receiver.key
  ok (
    exchanged c sessions.0 sessions.1 sender.psi_in receiver.psi_in,
    exchanged c sessions.1 sessions.0 receiver.psi_in sender.psi_in,
  )
