-- ===== src/Psi/Exchange.antt =====
-- Two parties that run `diffie_hellman_flow` against each other take exactly their common rows.
use n_mpc.Prelude.{
  ℕ, ◌≡◌, refl, ap, ◌∙◌, true, false, Option, some, inl, inr, List, [], ◌∷◌, map, arith, All,
  filterb, Bool-cases, none,
}
use n_mpc.Psi.Session.{Bytes, Session, IsSupported}
use n_mpc.Psi.Curve.{Primitives, IsCurve}
use n_mpc.Psi.Cipher.{
  CipherBatch, CipherStore, Thread, returned, empty_store, contains, check_ciphers,
}
use n_mpc.Psi.Flow.{
  Rows, column_zero, take_rows, batch_size, enc_sent, enc_received, dual_sent, dual_received, taken,
  diffie_hellman_flow,
}
use n_mpc.Psi.Streams.{Stream, calcucipher_and_send-Stream}
use n_mpc.Psi.Received.{inserted, recv_and_calcu-Received, send_dualenc-Stream}
use n_mpc.Psi.Checked.{
  check_ciphers-eq, recv_and_calcu-check_ciphers, ||-false, contains-inserted, Separates,
  contains-map, take_rows-hits, filterb-ext,
}

-- The stream that a party sends back for the stream that it received.
dual_sent-Stream :
    (c : Primitives) (laws : IsCurve c) (ctx : Session) (supported : IsSupported ctx) {k : ℕ}
    {xs : List Bytes} (inbox : List CipherBatch)
    → Stream false k xs inbox
    → ctx.need_send_cipher ≡ true
    → Stream true 0 (map (c.scalar_mul ctx.key) xs) (dual_sent c ctx inbox).0
      × ((dual_sent c ctx inbox).1 ≡ returned tt)
unfolding dual_sent enc_received
dual_sent-Stream c laws ctx supported inbox stream sends =
    let received = recv_and_calcu-Received c laws ctx supported empty_store stream in
    simp (sends, received.peer_cipher) (send_dualenc-Stream ctx supported 0 received.queued)

dual_sent-returned :
    (c : Primitives) (laws : IsCurve c) (ctx : Session) (supported : IsSupported ctx) {k : ℕ}
    {xs : List Bytes} (inbox : List CipherBatch)
    → Stream false k xs inbox
    → (dual_sent c ctx inbox).1 ≡ returned tt
dual_sent-returned c laws ctx supported inbox stream = elim (Bool-cases ctx.need_send_cipher) [
  | inl sends ↦ (dual_sent-Stream c laws ctx supported inbox stream sends).1
  | inr silent ↦ unfold dual_sent in simp silent
]

-- What the two keys make of an identifier, `a`'s first.
abbrev pub twice_encrypted : Primitives → Bytes → Bytes → Bytes → Bytes
twice_encrypted c a b x = c.scalar_mul b (c.scalar_mul a (c.shake256 x))

module _ (c : Primitives) (laws : IsCurve c) {R S : Type 0} (a b : Session) (rows_a : Rows R)
    (rows_b : Rows S) where
  abbrev both : Bytes → Bytes
  both = twice_encrypted c a.key b.key

  -- The rows whose identifier the other party has.
  abbrev pub common : Rows R
  common = filterb (λ r. contains (column_zero rows_b) r.0) rows_a

  abbrev flow : Thread (Option (Rows R))
  flow =
      diffie_hellman_flow c rows_a a (enc_sent c b rows_b).0
        (dual_sent c b (enc_sent c a rows_a).0).0

  map-own :
      (xs : List Bytes)
      → map (c.scalar_mul b.key) (map (c.scalar_mul a.key) (map c.shake256 xs)) ≡ map both xs
  map-own [] = refl
  map-own (x ∷ xs) = ap (λ r. both x ∷ r) (map-own xs)

  map-other :
      (xs : List Bytes)
      → map (c.scalar_mul a.key) (map (c.scalar_mul b.key) (map c.shake256 xs)) ≡ map both xs
  map-other [] = refl
  map-other (x ∷ xs) = cc (laws.scalar_mul_comm a.key b.key (c.shake256 x), map-other xs)

  -- Of the rows, the set of the other party's ciphers contains those whose identifier it has.
  contains-twice_encrypted :
      (rows : Rows R)
      → Separates both (column_zero rows) (column_zero rows_b)
      → All
          (λ r.
            contains (inserted (map both (column_zero rows_b)) []) (both r.0)
            ≡ contains (column_zero rows_b) r.0)
          rows
  unfolding contains
  contains-twice_encrypted [] h = tt
  contains-twice_encrypted (r ∷ rows) h = (
    contains-inserted (map both (column_zero rows_b)) [] (both r.0)
        ∙ ||-false _
        ∙ contains-map both r.0 (column_zero rows_b) h.0,
    contains-twice_encrypted rows h.1,
  )

  -- The threads of a party that all return leave it with what the last of them recorded.
  flow_of_threads :
      (s : CipherStore)
      → (enc_sent c a rows_a).1 ≡ returned tt
      → (enc_received c a (enc_sent c b rows_b).0).0 ≡ returned tt
      → (dual_sent c a (enc_sent c b rows_b).0).1 ≡ returned tt
      → a.need_recv_cipher ≡ true
      → dual_received c a (enc_sent c b rows_b).0 (dual_sent c b (enc_sent c a rows_a).0).0
        ≡ (returned tt, s)
      → flow ≡ returned (some (take_rows s.local_take_index rows_a))
  unfolding diffie_hellman_flow
  flow_of_threads s e r d receives checked = rw (e, r, d) (simp (receives, checked))

  taken_index :
      (s : CipherStore)
      → s.peer_cipher_set ≡ inserted (map both (column_zero rows_b)) []
      → s.local_index_record ≡ 0
      → s.local_take_index ≡ []
      → Separates both (column_zero rows_a) (column_zero rows_b)
      → take_rows (check_ciphers (map both (column_zero rows_a)) s).local_take_index rows_a ≡ common
  taken_index s set n taken separates =
      rw (check_ciphers-eq (map both (column_zero rows_a)) s, n, taken, set)
        (take_rows-hits (inserted (map both (column_zero rows_b)) []) both [] rows_a
          ∙ filterb-ext _ _ rows_a (contains-twice_encrypted rows_a separates))

  -- Two parties with supported parameters, of which `a` receives ciphers and `b` sends them back:
  -- if double encryption tells their identifiers apart, the flow of `a` ends, and its result is
  -- the rows of `a` whose identifier is in column 0 of `b`, in their order.
  pub exchange :
      IsSupported a
      → IsSupported b
      → a.need_recv_cipher ≡ true
      → b.need_send_cipher ≡ true
      → Separates (twice_encrypted c a.key b.key) (column_zero rows_a) (column_zero rows_b)
      → diffie_hellman_flow c rows_a a
          (enc_sent c b rows_b).0
          (dual_sent c b (enc_sent c a rows_a).0).0
        ≡ returned (some (filterb (λ r. contains (column_zero rows_b) r.0) rows_a))
  unfolding enc_sent enc_received dual_received
  exchange sa sb receives sends separates =
      let ea =
        calcucipher_and_send-Stream c laws a sa (column_zero rows_a) batch_size (omega arith) in
      let eb =
        calcucipher_and_send-Stream c laws b sb (column_zero rows_b) batch_size (omega arith) in
      let back = dual_sent-Stream c laws b sb (enc_sent c a rows_a).0 ea.0 sends in
      let received = recv_and_calcu-Received c laws a sa empty_store eb.0 in
      let s = (enc_received c a (enc_sent c b rows_b).0).1 in
      let checked = recv_and_calcu-check_ciphers a sa s (received.complete receives).1 back.0 in
      flow_of_threads _ ea.1 received.ends
        (dual_sent-returned c laws a sa (enc_sent c b rows_b).0 eb.0) receives checked
      ∙ ap (λ xs. returned (some (take_rows (check_ciphers xs s).local_take_index rows_a)))
          (map-own (column_zero rows_a))
      ∙ ap (λ rows. returned (some rows))
          (taken_index s
            ((received.complete receives).0
              ∙ ap (λ xs. inserted xs []) (map-other (column_zero rows_b)))
            received.index received.take separates)

  -- With supported parameters on both sides, a party that does not receive ciphers ends as well,
  -- with no result.
  pub exchange_silent :
      IsSupported a
      → IsSupported b
      → a.need_recv_cipher ≡ false
      → diffie_hellman_flow c rows_a a
          (enc_sent c b rows_b).0
          (dual_sent c b (enc_sent c a rows_a).0).0
        ≡ returned none
  unfolding enc_sent enc_received diffie_hellman_flow
  exchange_silent sa sb silent =
      let ea =
        calcucipher_and_send-Stream c laws a sa (column_zero rows_a) batch_size (omega arith) in
      let eb =
        calcucipher_and_send-Stream c laws b sb (column_zero rows_b) batch_size (omega arith) in
      let received = recv_and_calcu-Received c laws a sa empty_store eb.0 in
      rw (ea.1, received.ends, dual_sent-returned c laws a sa (enc_sent c b rows_b).0 eb.0)
        (simp silent)
