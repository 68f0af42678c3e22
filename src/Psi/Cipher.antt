-- ===== src/Psi/Cipher.antt =====
-- src/PSI/psi/interconnection_psi/cipher_store.py: what one party keeps of the ciphers it receives.
-- A `queue.Queue` is the list of what is in it, an `Event` the flag that it is set.
use n_mpc.Prelude.{
  ℕ, ◌+◌, Bool, true, false, Option, none, some, List, [], ◌∷◌, ◌++◌, anyb, length, concat,
  if◌then◌else◌, ◌==◌, ◌&&◌,
}
use n_mpc.Prelude.Result.{ok, err}
use n_mpc.Prelude.Method.{Method, lift, modify, pure, ◌>>=◌, ◌>>◌}
use n_mpc.Psi.Session.{Bytes, Session}
use n_mpc.Psi.Curve.{Primitives, diffie_hellman, marshal}

-- The message EcdhPsiCipherBatch; `dual` is its type "dual.enc", else it is "enc".
pub record CipherBatch : Type 0 where
  pub dual : Bool
  pub batch_index : ℕ
  pub is_last_batch : Bool
  pub count : ℕ
  pub ciphertext : Bytes

pub record CipherStore : Type 0 where
  pub peer_cipher : List (Option (List Bytes))
  pub peer_cipher_set : List Bytes
  pub peer_cipher_set_done : Bool
  pub local_index_record : ℕ
  pub local_take_index : List ℕ

-- `CipherStore.__init__`
abbrev pub empty_store : CipherStore
empty_store = record {
  peer_cipher = [];
  peer_cipher_set = [];
  peer_cipher_set_done = false;
  local_index_record = 0;
  local_take_index = [];
}

unfoldable pub same_bytes : Bytes → Bytes → Bool
same_bytes [] [] = true
same_bytes (x ∷ xs) (y ∷ ys) = (x == y) && same_bytes xs ys
same_bytes _ _ = false

-- `BytesHashSet.contains`
unfoldable pub contains : List Bytes → Bytes → Bool
unfolding same_bytes
contains set cipher = anyb (λ c. same_bytes c cipher) set

-- `for cipher in array: self.peer_cipher_set.insert(cipher)`
unfoldable pub insert_all : List Bytes → CipherStore → CipherStore
insert_all [] s = s
insert_all (cipher ∷ array) s =
    insert_all array (record s { peer_cipher_set = cipher ∷ s.peer_cipher_set })

unfoldable pub put_peer_cipher : Option (List Bytes) → CipherStore → CipherStore
put_peer_cipher item s = record s { peer_cipher = s.peer_cipher ++ item ∷ [] }

-- The last batch is announced on the queue by a None before it.
unfoldable pub queue_batch : Bool → List Bytes → CipherStore → CipherStore
unfolding put_peer_cipher
queue_batch true array s = put_peer_cipher (some array) (put_peer_cipher none s)
queue_batch false array s = put_peer_cipher (some array) s

unfoldable pub record_batch : Bool → List Bytes → CipherStore → CipherStore
unfolding insert_all
record_batch true array s = record (insert_all array s) { peer_cipher_set_done = true }
record_batch false array s = insert_all array s

unfoldable pub calcu_add_peer_cipher :
    Primitives → Session → List Bytes → Bool → Method CipherStore (Unit {0})
unfolding queue_batch record_batch
calcu_add_peer_cipher c ctx array done = do
  ciphers ← lift (diffie_hellman c ctx.key array)
  modify (queue_batch done ciphers)
  if ctx.need_recv_cipher then modify (record_batch done ciphers) else pure tt

-- One cipher of `recv_duaenc_local_cipher`.
unfoldable pub check_cipher : Bytes → CipherStore → CipherStore
unfolding contains
check_cipher cipher s = record s {
  local_take_index =
      if contains s.peer_cipher_set cipher
      then s.local_take_index ++ s.local_index_record ∷ []
      else s.local_take_index;
  local_index_record = s.local_index_record + 1;
}

unfoldable pub check_ciphers : List Bytes → CipherStore → CipherStore
unfolding check_cipher
check_ciphers [] s = s
check_ciphers (cipher ∷ array) s = check_ciphers array (check_cipher cipher s)

-- What has come of a thread: it has returned, it is blocked on an input that has not come, or it
-- has raised.
pub data Thread (A : Type 0) : Type 0 where
  returned : A → Thread A
  blocked : Thread A
  failed : Thread A

-- `recv_duaenc_local_cipher`: the thread waits until the set is complete.
unfoldable pub recv_duaenc_local_cipher :
    Session → List Bytes → Bool → CipherStore → Thread (Unit {0}) × CipherStore
unfolding check_ciphers
recv_duaenc_local_cipher ctx array done s =
    if s.peer_cipher_set_done then (returned tt, check_ciphers array s) else (blocked, s)

-- The message of `send_dualenc` for one array.
unfoldable pub dual_batch : ℕ → Bool → List Bytes → CipherBatch
dual_batch batch_index is_last_batch arr = record {
  dual = true;
  batch_index = batch_index;
  is_last_batch = is_last_batch;
  count = length arr;
  ciphertext = concat arr;
}

-- `send_dualenc` over what the queue holds: the messages sent, and what came of the thread. A None
-- behind a None would be marshalled, which fails.
unfoldable pub send_dualenc :
    Session → ℕ → List (Option (List Bytes)) → List CipherBatch × Thread (Unit {0})
unfolding dual_batch
send_dualenc ctx batch_index [] = ([], blocked)
send_dualenc ctx batch_index (none ∷ []) = ([], blocked)
send_dualenc ctx batch_index (none ∷ none ∷ queue) = ([], failed)
send_dualenc ctx batch_index (none ∷ some arr ∷ queue) = elim (marshal ctx arr) [
  | ok points ↦ (dual_batch batch_index true points ∷ [], returned tt)
  | err e ↦ ([], failed)
]
send_dualenc ctx batch_index (some arr ∷ queue) =
    let (sent, end) = send_dualenc ctx (batch_index + 1) queue in
    elim (marshal ctx arr) [
      | ok points ↦ (dual_batch batch_index false points ∷ sent, end)
      | err e ↦ ([], failed)
    ]
