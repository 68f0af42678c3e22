-- ===== src/Psi/Flow.antt =====
-- src/PSI/psi/interconnection_psi/flow.py: the threads of one party, each a function of the
-- messages that reach it. A channel delivers in order; a thread whose next message is not there is
-- blocked.
use n_mpc.Prelude.{
  ℕ, zero, suc, ◌+◌, ◌*◌, Bool, true, false, Option, none, some, List, [], ◌∷◌, map, length, take,
  drop, concat, get_elem?, ltb, leb, if◌then◌else◌, ◌==◌,
}
use n_mpc.Prelude.Result.{ok, err}
use n_mpc.Psi.Session.{Bytes, Session}
use n_mpc.Psi.Curve.{Primitives, hash_and_encrypt, unmarshal}
use n_mpc.Psi.Cipher.{
  CipherBatch, CipherStore, empty_store, Thread, returned, blocked, failed, calcu_add_peer_cipher,
  recv_duaenc_local_cipher, send_dualenc,
}

-- `BATCH`
abbrev pub batch_size : ℕ
batch_size = 10 * 10000

-- The message of `calcucipher_and_send` for one array.
unfoldable pub enc_batch : ℕ → Bool → List Bytes → CipherBatch
enc_batch batch_index is_last_batch arr = record {
  dual = false;
  batch_index = batch_index;
  is_last_batch = is_last_batch;
  count = length arr;
  ciphertext = concat arr;
}

-- The loop `for i in range(0, len(array), batch)`, on fuel for its rounds.
unfoldable pub send_from :
    Primitives → Session → List Bytes → ℕ → ℕ → ℕ → ℕ → List CipherBatch × Thread (Unit {0})
unfolding enc_batch
send_from c ctx array batch zero i batch_index = ([], blocked)
send_from c ctx array batch (suc fuel) i batch_index =
    let rest = send_from c ctx array batch fuel (i + batch) (batch_index + 1) in
    let is_last_batch = leb (length array) (i + batch) in
    if ltb i (length array)
    then (elim (hash_and_encrypt c ctx (take batch (drop i array))) [
      | ok arr ↦ (enc_batch batch_index is_last_batch arr ∷ rest.0, rest.1)
      | err e ↦ ([], failed)
    ])
    else ([], returned tt)

-- The messages sent, and what came of the thread.
unfoldable pub calcucipher_and_send :
    Primitives → Session → List Bytes → ℕ → List CipherBatch × Thread (Unit {0})
unfolding send_from
calcucipher_and_send c ctx array batch =
    if length array == 0
    then (enc_batch 0 true [] ∷ [], returned tt)
    else send_from c ctx array batch (suc (length array)) 0 0

abbrev pub Process : Type 0
Process = List Bytes → Bool → CipherStore → Thread (Unit {0}) × CipherStore

-- `store.calcu_add_peer_cipher` as the body of a thread.
unfoldable pub add_peer_cipher : Primitives → Session → Process
unfolding calcu_add_peer_cipher
add_peer_cipher c ctx array done s =
    let (r, s') = calcu_add_peer_cipher c ctx array done s in
    elim r [ ok _ ↦ (returned tt, s') | err e ↦ (failed, s') ]

-- `recv_and_calcu` over the messages that come in.
unfoldable pub recv_and_calcu :
    Session → Process → List CipherBatch → CipherStore → Thread (Unit {0}) × CipherStore
recv_and_calcu ctx process [] s = (blocked, s)
recv_and_calcu ctx process (message ∷ inbox) s =
    elim (unmarshal ctx message.ciphertext message.count) [
      | ok arr ↦
          let (r, s') = process arr message.is_last_batch s in
          elim r [
            | returned _ ↦
                let rest = recv_and_calcu ctx process inbox s' in
                if message.is_last_batch then (returned tt, s') else rest
            | blocked ↦ (blocked, s')
            | failed ↦ (failed, s')
          ]
      | err e ↦ (failed, s)
    ]

-- The rows of an input: column 0 is the identifier, the rest is carried along.
abbrev pub Rows : Type 0 → Type 0
Rows R = List (Bytes × R)

-- `psi_in.column(0)`
abbrev pub column_zero : {R : Type 0} → Rows R → List Bytes
column_zero rows = map (λ r. r.0) rows

-- `psi_in.take(indices)`
unfoldable pub take_rows : {R : Type 0} → List ℕ → Rows R → Rows R
take_rows [] rows = []
take_rows (i ∷ indices) rows = elim (get_elem? rows i) [
  | some r ↦ r ∷ take_rows indices rows
  | none ↦ take_rows indices rows
]

module _ (c : Primitives) {R : Type 0} (ctx : Session) (psi_in : Rows R) where
  -- The thread `calcu_send_task`.
  unfoldable pub enc_sent : List CipherBatch × Thread (Unit {0})
  unfolding calcucipher_and_send
  enc_sent = calcucipher_and_send c ctx (column_zero psi_in) batch_size

-- The thread `recv_calcu_task` on what the peer sent.
unfoldable pub enc_received :
    Primitives → Session → List CipherBatch → Thread (Unit {0}) × CipherStore
unfolding recv_and_calcu add_peer_cipher
enc_received c ctx inbox = recv_and_calcu ctx (add_peer_cipher c ctx) inbox empty_store

-- The thread `send_dualenc_task`, which a party has where it sends ciphers back.
unfoldable pub dual_sent :
    Primitives → Session → List CipherBatch → List CipherBatch × Thread (Unit {0})
unfolding send_dualenc enc_received
dual_sent c ctx inbox =
    if ctx.need_send_cipher
    then send_dualenc ctx 0 (enc_received c ctx inbox).1.peer_cipher
    else ([], returned tt)

-- The thread `recv_dualenc_task`, on the store that `recv_calcu_task` leaves: what it reads of the
-- store it reads only after that thread has completed the set.
unfoldable pub dual_received :
    Primitives → Session → List CipherBatch → List CipherBatch → Thread (Unit {0}) × CipherStore
unfolding recv_and_calcu recv_duaenc_local_cipher enc_received
dual_received c ctx inbox dual_inbox =
    recv_and_calcu ctx (recv_duaenc_local_cipher ctx) dual_inbox (enc_received c ctx inbox).1

-- The result of `diffie_hellman_flow`, once all its threads are joined: `blocked` while one of them
-- waits. A thread that failed is joined too.
unfoldable pub taken :
    {R : Type 0} → Rows R → Thread (Unit {0}) × CipherStore → Thread (Option (Rows R))
unfolding take_rows
taken psi_in (returned _, s) = returned (some (take_rows s.local_take_index psi_in))
taken psi_in (failed, s) = returned (some (take_rows s.local_take_index psi_in))
taken psi_in (blocked, s) = blocked

unfoldable pub joined : {A : Type 0} → Thread (Unit {0}) → Thread A → Thread A
joined blocked r = blocked
joined (returned _) r = r
joined failed r = r

unfoldable pub diffie_hellman_flow :
    {R : Type 0}
    → Primitives
    → Rows R
    → Session
    → List CipherBatch
    → List CipherBatch
    → Thread (Option (Rows R))
unfolding taken joined
diffie_hellman_flow c psi_in ctx inbox dual_inbox = joined (enc_sent c ctx psi_in).1 (
    joined (enc_received c ctx inbox).0 (
      joined (dual_sent c ctx inbox).1 (
        if ctx.need_recv_cipher
        then taken psi_in (dual_received c ctx inbox dual_inbox)
        else returned none)))
