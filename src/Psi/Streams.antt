-- ===== src/Psi/Streams.antt =====
-- A stream of batches that carries a list of points, and that `calcucipher_and_send` sends one.
use mathlib.Core.List.{map-append}
use n_mpc.Prelude.{
  ℕ, zero, suc, ◌+◌, ◌≡◌, ◌<◌, ◌≤◌, refl, sym, ap, ◌∙◌, subst, Bool, true, false, inl, inr, List,
  [], ◌∷◌, ◌++◌, map, arith, length, take, drop, All, concat, leb, take-append-drop, drop-drop,
  length-drop, lt→ltb, leb→le, leb_false→lt, Bool-cases, suc-==-zero,
}
use n_mpc.Psi.Session.{Bytes, Session, IsSupported}
use n_mpc.Psi.Curve.{Primitives, IsCurve}
use n_mpc.Psi.Cipher.{CipherBatch, returned}
use n_mpc.Psi.Flow.{enc_batch, send_from, calcucipher_and_send}
use n_mpc.Psi.Transport.{IsPoint, hash_and_encrypt-ok, All-IsPoint-scalar_mul}

abbrev pub batch : Bool → ℕ → Bool → List Bytes → CipherBatch
batch dual i is_last arr = record {
  dual = dual;
  batch_index = i;
  is_last_batch = is_last;
  count = length arr;
  ciphertext = concat arr;
}

-- Batches numbered from `i` on, of which the last alone is marked.
pub data Stream (dual : Bool) : ℕ → List Bytes → List CipherBatch → Type 0 where
  last :
      (i : ℕ) (arr : List Bytes) → All IsPoint arr → Stream dual i arr (batch dual i true arr ∷ [])
  more :
      (i : ℕ) (arr : List Bytes) {rest : List Bytes} {messages : List CipherBatch}
      → All IsPoint arr
      → Stream dual (i + 1) rest messages
      → Stream dual i (arr ++ rest) (batch dual i false arr ∷ messages)

take_all : {A : Type 0} (n : ℕ) (xs : List A) → length xs ≤ n → take n xs ≡ xs
take_all zero [] h = refl
take_all zero (x ∷ xs) h = absurd (omega arith)
take_all (suc n) [] h = refl
take_all (suc n) (x ∷ xs) h = ap (λ r. x ∷ r) (take_all n xs (omega arith))

module _ (c : Primitives) (laws : IsCurve c) (ctx : Session) (supported : IsSupported ctx) where
  -- The ciphers of a list of identifiers.
  abbrev pub encrypted : List Bytes → List Bytes
  encrypted xs = map (c.scalar_mul ctx.key) (map c.shake256 xs)

  encrypted-IsPoint : (xs : List Bytes) → All IsPoint (encrypted xs)
  encrypted-IsPoint xs = All-IsPoint-scalar_mul c laws ctx.key (map c.shake256 xs)

  encrypted-append : (xs ys : List Bytes) → encrypted (xs ++ ys) ≡ encrypted xs ++ encrypted ys
  encrypted-append xs ys = simp map-append

  module _ (array : List Bytes) (size : ℕ) (positive : 0 < size) where
    send_from_end :
        (fuel i k : ℕ)
        → length array ≤ i
        → 0 < fuel
        → send_from c ctx array size fuel i k ≡ ([], returned tt)
    unfolding send_from
    send_from_end zero i k h p = elim p [ ]
    send_from_end (suc fuel) i k h p = ground arith

    parts :
        (i : ℕ)
        → encrypted (take size (drop i array)) ++ encrypted (drop (i + size) array)
          ≡ encrypted (drop i array)
    parts i =
        sym (encrypted-append (take size (drop i array)) (drop (i + size) array))
        ∙ ap encrypted (
            ap (λ r. take size (drop i array) ++ r) (sym (drop-drop size i array))
            ∙ take-append-drop size (drop i array))

    send_from-Stream :
        (fuel i k : ℕ)
        → i < length array
        → length array < i + fuel
        → Stream false k (encrypted (drop i array)) (send_from c ctx array size fuel i k).0
          × ((send_from c ctx array size fuel i k).1 ≡ returned tt)
    unfolding send_from
    send_from-Stream zero i k h f = absurd (omega arith)
    send_from-Stream (suc fuel) i k h f = elim (Bool-cases (leb (length array) (i + size))) [
      | inl is_last ↦
          rw
            (
              lt→ltb i (length array) h,
              hash_and_encrypt-ok c laws ctx (take size (drop i array)) supported,
              is_last,
              send_from_end fuel (i + size) (k + 1) (leb→le _ _ is_last) (omega arith),
              take_all size (drop i array) (omega (arith, length-drop i array, leb→le _ _ is_last)),
            )
            (last k (encrypted (drop i array)) (encrypted-IsPoint (drop i array)), refl)
      | inr is_more ↦
          let rest =
            send_from-Stream fuel (i + size) (k + 1) (leb_false→lt _ _ is_more) (omega arith) in
          rw
            (
              lt→ltb i (length array) h,
              hash_and_encrypt-ok c laws ctx (take size (drop i array)) supported,
              is_more,
            )
            (
              subst
                  (λ p. Stream false k p (
                    batch false k false (encrypted (take size (drop i array)))
                    ∷ (send_from c ctx array size fuel (i + size) (k + 1)).0))
                  (parts i)
                  (more k (encrypted (take size (drop i array)))
                    (encrypted-IsPoint (take size (drop i array))) rest.0),
              rest.1,
            )
    ]

  -- With supported parameters and a positive batch size the thread returns, and what it has sent is
  -- one stream of all the ciphers in order.
  pub calcucipher_and_send-Stream :
      (array : List Bytes) (size : ℕ)
      → 0 < size
      → Stream false 0 (encrypted array) (calcucipher_and_send c ctx array size).0
        × ((calcucipher_and_send c ctx array size).1 ≡ returned tt)
  unfolding calcucipher_and_send enc_batch
  calcucipher_and_send-Stream [] size positive = (last 0 [] tt, refl)
  calcucipher_and_send-Stream (x ∷ xs) size positive = rw (suc-==-zero (length xs)) (
      send_from-Stream (x ∷ xs) size positive (suc (length (x ∷ xs))) 0 0 (omega arith)
        (omega arith))
