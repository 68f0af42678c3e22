-- ===== src/Psi/Received.antt =====
-- What a party's store holds once a stream of its peer has come in, and what it sends back.
use mathlib.Core.List.{map-append}
use n_mpc.Prelude.{
  ℕ, ◌+◌, ◌≡◌, refl, sym, ap, subst, ◌∙◌, Bool, true, false, Option, none, some, List, [], ◌∷◌,
  ◌++◌, map, arith, append_assoc, if◌then◌else◌, All,
}
use n_mpc.Psi.Session.{Bytes, Session, IsSupported}
use n_mpc.Psi.Curve.{Primitives, IsCurve}
use n_mpc.Psi.Cipher.{
  CipherBatch, CipherStore, Thread, returned, insert_all, queue_batch, record_batch, send_dualenc,
}
use n_mpc.Psi.Flow.{Process, add_peer_cipher, recv_and_calcu}
use n_mpc.Psi.Transport.{
  IsPoint, unmarshal-concat, marshal-ok, diffie_hellman-ok, All-IsPoint-scalar_mul,
}
use n_mpc.Psi.Streams.{Stream, last, more, batch}

-- A set after the insertion of a list of ciphers.
abbrev pub inserted : List Bytes → List Bytes → List Bytes
inserted [] set = set
inserted (c ∷ cs) set = inserted cs (c ∷ set)

inserted-append : (xs ys set : List Bytes) → inserted (xs ++ ys) set ≡ inserted ys (inserted xs set)
inserted-append [] ys set = refl
inserted-append (x ∷ xs) ys set = inserted-append xs ys (x ∷ set)

insert_all-eq :
    (cs : List Bytes) (s : CipherStore)
    → insert_all cs s ≡ record s { peer_cipher_set = inserted cs s.peer_cipher_set }
unfolding insert_all
insert_all-eq [] s = refl
insert_all-eq (c ∷ cs) s = insert_all-eq cs (record s { peer_cipher_set = c ∷ s.peer_cipher_set })

-- What `put` leaves on the queue for one batch.
abbrev items : Bool → List Bytes → List (Option (List Bytes))
items true cs = none ∷ some cs ∷ []
items false cs = some cs ∷ []

-- The queue of a whole stream: the last array alone is announced.
pub data Queued : List Bytes → List (Option (List Bytes)) → Type 0 where
  last_array : (arr : List Bytes) → All IsPoint arr → Queued arr (none ∷ some arr ∷ [])
  more_arrays :
      (arr : List Bytes) {rest : List Bytes} {queue : List (Option (List Bytes))}
      → All IsPoint arr
      → Queued rest queue
      → Queued (arr ++ rest) (some arr ∷ queue)

-- The store after one batch.
added : Session → Bool → List Bytes → CipherStore → CipherStore
added ctx done cs s =
    if ctx.need_recv_cipher
    then record_batch done cs (queue_batch done cs s)
    else queue_batch done cs s

module _ (ctx : Session) where
  peer_cipher-added :
      (done : Bool) (cs : List Bytes) (s : CipherStore)
      → (added ctx done cs s).peer_cipher ≡ s.peer_cipher ++ items done cs
  unfolding added record_batch queue_batch
  peer_cipher-added true cs s = ground (
    arith,
    insert_all-eq cs (queue_batch true cs s),
    append_assoc s.peer_cipher (none ∷ []) (some cs ∷ []),
  )
  peer_cipher-added false cs s = ground (arith, insert_all-eq cs (queue_batch false cs s))

  peer_cipher_set-added :
      (done : Bool) (cs : List Bytes) (s : CipherStore)
      → ctx.need_recv_cipher ≡ true
      → (added ctx done cs s).peer_cipher_set ≡ inserted cs s.peer_cipher_set
  unfolding added record_batch queue_batch
  peer_cipher_set-added true cs s h = ground (arith, insert_all-eq cs (queue_batch true cs s))
  peer_cipher_set-added false cs s h = ground (arith, insert_all-eq cs (queue_batch false cs s))

  peer_cipher_set_done-added :
      (cs : List Bytes) (s : CipherStore)
      → ctx.need_recv_cipher ≡ true
      → (added ctx true cs s).peer_cipher_set_done ≡ true
  unfolding added record_batch
  peer_cipher_set_done-added cs s h = ground arith

  take_index-added :
      (done : Bool) (cs : List Bytes) (s : CipherStore)
      → ((added ctx done cs s).local_index_record ≡ s.local_index_record)
        × ((added ctx done cs s).local_take_index ≡ s.local_take_index)
  unfolding added record_batch queue_batch
  take_index-added true cs s = ground (arith, insert_all-eq cs (queue_batch true cs s))
  take_index-added false cs s = ground (arith, insert_all-eq cs (queue_batch false cs s))

-- What has come of `recv_calcu_task` for a stream of `ciphers`, started on the store `s`.
pub record Received (ctx : Session) (ciphers : List Bytes) (s : CipherStore)
    (r : Thread (Unit {0}) × CipherStore) : Type 0 where
  pub ends : r.0 ≡ returned tt
  pub queue : List (Option (List Bytes))
  pub queued : Queued ciphers queue
  pub peer_cipher : r.1.peer_cipher ≡ s.peer_cipher ++ queue
  pub complete :
      ctx.need_recv_cipher ≡ true
      → (r.1.peer_cipher_set ≡ inserted ciphers s.peer_cipher_set)
        × (r.1.peer_cipher_set_done ≡ true)
  pub index : r.1.local_index_record ≡ s.local_index_record
  pub take : r.1.local_take_index ≡ s.local_take_index

module _ (ctx : Session) (supported : IsSupported ctx) (process : Process) (dual : Bool)
    (i : ℕ) where
  -- One round of `recv_and_calcu` on a batch whose processing returns.
  pub recv_and_calcu-last :
      (arr : List Bytes) (inbox : List CipherBatch) (s s' : CipherStore)
      → All IsPoint arr
      → process arr true s ≡ (returned tt, s')
      → recv_and_calcu ctx process (batch dual i true arr ∷ inbox) s ≡ (returned tt, s')
  unfolding recv_and_calcu
  recv_and_calcu-last arr inbox s s' h e = ground (arith, unmarshal-concat ctx arr supported h, e)

  pub recv_and_calcu-more :
      (arr : List Bytes) (inbox : List CipherBatch) (s s' : CipherStore)
      → All IsPoint arr
      → process arr false s ≡ (returned tt, s')
      → recv_and_calcu ctx process (batch dual i false arr ∷ inbox) s
        ≡ recv_and_calcu ctx process inbox s'
  unfolding recv_and_calcu
  recv_and_calcu-more arr inbox s s' h e = ground (arith, unmarshal-concat ctx arr supported h, e)

module _ (c : Primitives) (laws : IsCurve c) (ctx : Session) (supported : IsSupported ctx) where
  abbrev dual : List Bytes → List Bytes
  dual cs = map (c.scalar_mul ctx.key) cs

  add_peer_cipher-eq :
      (arr : List Bytes) (done : Bool) (s : CipherStore)
      → All IsPoint arr
      → add_peer_cipher c ctx arr done s ≡ (returned tt, added ctx done (dual arr) s)
  unfolding add_peer_cipher added
  add_peer_cipher-eq arr done s h =
      elim done as (λ d. add_peer_cipher c ctx arr d s ≡ (returned tt, added ctx d (dual arr) s)) [
        | true ↦ ground (arith, diffie_hellman-ok c laws ctx.key arr h)
        | false ↦ ground (arith, diffie_hellman-ok c laws ctx.key arr h)
      ]

  Received-last :
      (arr : List Bytes) (s : CipherStore)
      → Received ctx (dual arr) s (returned tt, added ctx true (dual arr) s)
  Received-last arr s = record {
    ends = refl;
    queue = items true (dual arr);
    queued = last_array (dual arr) (All-IsPoint-scalar_mul c laws ctx.key arr);
    peer_cipher = peer_cipher-added ctx true (dual arr) s;
    complete = λ h. (
      peer_cipher_set-added ctx true (dual arr) s h,
      peer_cipher_set_done-added ctx (dual arr) s h,
    );
    index = (take_index-added ctx true (dual arr) s).0;
    take = (take_index-added ctx true (dual arr) s).1;
  }

  Received-more :
      (arr rest : List Bytes) (s : CipherStore) (r : Thread (Unit {0}) × CipherStore)
      → Received ctx (dual rest) (added ctx false (dual arr) s) r
      → Received ctx (dual (arr ++ rest)) s r
  Received-more arr rest s r ih = record {
    ends = ih.ends;
    queue = some (dual arr) ∷ ih.queue;
    queued =
        subst (λ p. Queued p (some (dual arr) ∷ ih.queue))
          (sym (map-append (c.scalar_mul ctx.key) arr rest))
          (more_arrays (dual arr) (All-IsPoint-scalar_mul c laws ctx.key arr) ih.queued);
    peer_cipher =
        ih.peer_cipher
        ∙ ap (λ q. q ++ ih.queue) (peer_cipher-added ctx false (dual arr) s)
        ∙ append_assoc s.peer_cipher (some (dual arr) ∷ []) ih.queue;
    complete = λ h. (
      (ih.complete h).0
          ∙ ap (inserted (dual rest)) (peer_cipher_set-added ctx false (dual arr) s h)
          ∙ sym (inserted-append (dual arr) (dual rest) s.peer_cipher_set)
          ∙ ap (λ p. inserted p s.peer_cipher_set)
              (sym (map-append (c.scalar_mul ctx.key) arr rest)),
      (ih.complete h).1,
    );
    index = ih.index ∙ (take_index-added ctx false (dual arr) s).0;
    take = ih.take ∙ (take_index-added ctx false (dual arr) s).1;
  }

  -- With supported parameters a whole stream is processed: its points are multiplied by the key,
  -- queued for the answer and, where the party receives ciphers, inserted into the set, which is
  -- then complete.
  pub recv_and_calcu-Received :
      {k : ℕ} {xs : List Bytes} {messages : List CipherBatch} (s : CipherStore)
      → Stream false k xs messages
      → Received ctx (dual xs) s (recv_and_calcu ctx (add_peer_cipher c ctx) messages s)
  recv_and_calcu-Received s (last i arr h) =
      rw
        (recv_and_calcu-last ctx supported (add_peer_cipher c ctx) false i arr [] s
          (added ctx true (dual arr) s) h (add_peer_cipher-eq arr true s h))
        (Received-last arr s)
  recv_and_calcu-Received s (more i arr {rest = rest} {messages = messages} h tail) =
      let s' = added ctx false (dual arr) s in
      rw
        (recv_and_calcu-more ctx supported (add_peer_cipher c ctx) false i arr messages s s' h
          (add_peer_cipher-eq arr false s h))
        (Received-more arr rest s (recv_and_calcu ctx (add_peer_cipher c ctx) messages s')
          (recv_and_calcu-Received s' tail))

-- With supported parameters, what a complete queue holds goes back as one stream, and the thread
-- returns.
pub send_dualenc-Stream :
    (ctx : Session) (supported : IsSupported ctx) (k : ℕ) {cs : List Bytes}
    {queue : List (Option (List Bytes))}
    → Queued cs queue
    → Stream true k cs (send_dualenc ctx k queue).0 × ((send_dualenc ctx k queue).1 ≡ returned tt)
unfolding send_dualenc
send_dualenc-Stream ctx supported k (last_array arr h) =
    rw (marshal-ok ctx arr supported, send_dualenc) (last k arr h, refl)
send_dualenc-Stream ctx supported k (more_arrays arr h rest) =
    let ih = send_dualenc-Stream ctx supported (k + 1) rest in
    rw (marshal-ok ctx arr supported, send_dualenc) (more k arr h ih.0, ih.1)
