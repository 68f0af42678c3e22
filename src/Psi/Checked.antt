-- ===== src/Psi/Checked.antt =====
-- What checking the returned ciphers records, and which rows that takes
-- (src/PSI/psi/interconnection_psi).
use n_mpc.Prelude.{
  ℕ, ◌+◌, ◌≡◌, refl, sym, ap, ◌∙◌, subst₂, length-append, Bool, true, false, some, List, [], ◌∷◌,
  ◌++◌, map, arith, append_assoc, append-nil, if◌then◌else◌, All, filterb, length, get_elem?, ◌||◌,
  ◌↔◌,
}
use n_mpc.Psi.Session.{Bytes, Session, IsSupported}
use n_mpc.Psi.Cipher.{
  CipherBatch, CipherStore, returned, contains, same_bytes, check_cipher, check_ciphers,
  recv_duaenc_local_cipher,
}
use n_mpc.Psi.Flow.{Rows, column_zero, take_rows, recv_and_calcu}
use n_mpc.Psi.Streams.{Stream, last, more}
use n_mpc.Psi.Received.{inserted, recv_and_calcu-last, recv_and_calcu-more}

pub same_bytes_iff : (x y : Bytes) → (same_bytes x y ≡ true) ↔ (x ≡ y)
unfolding same_bytes
same_bytes_iff [] [] = (λ _. refl, λ _. refl)
same_bytes_iff [] (y ∷ ys) = ground arith
same_bytes_iff (x ∷ xs) [] = ground arith
same_bytes_iff (x ∷ xs) (y ∷ ys) = ground (arith, same_bytes_iff xs ys)

-- The positions, from `n` on, of the ciphers that a set contains.
abbrev hits : List Bytes → ℕ → List Bytes → List ℕ
hits set n [] = []
hits set n (x ∷ xs) = if contains set x then n ∷ hits set (n + 1) xs else hits set (n + 1) xs

pub check_ciphers-eq :
    (xs : List Bytes) (s : CipherStore)
    → check_ciphers xs s ≡ record s {
      local_take_index = s.local_take_index ++ hits s.peer_cipher_set s.local_index_record xs;
      local_index_record = s.local_index_record + length xs;
    }
unfolding check_ciphers
check_ciphers-eq [] s = ground (arith, append-nil s.local_take_index)
check_ciphers-eq (x ∷ xs) s = ground (
  arith,
  check_ciphers-eq xs (check_cipher x s),
  append_assoc s.local_take_index (s.local_index_record ∷ [])
      (hits s.peer_cipher_set (s.local_index_record + 1) xs),
)

check_ciphers-append :
    (xs ys : List Bytes) (s : CipherStore)
    → check_ciphers (xs ++ ys) s ≡ check_ciphers ys (check_ciphers xs s)
unfolding check_ciphers
check_ciphers-append [] ys s = refl
check_ciphers-append (x ∷ xs) ys s = check_ciphers-append xs ys (check_cipher x s)

module _ (ctx : Session) (supported : IsSupported ctx) where
  recv_duaenc-eq :
      (xs : List Bytes) (done : Bool) (s : CipherStore)
      → s.peer_cipher_set_done ≡ true
      → recv_duaenc_local_cipher ctx xs done s ≡ (returned tt, check_ciphers xs s)
  unfolding recv_duaenc_local_cipher
  recv_duaenc-eq xs done s h = rw h

  -- A stream of ciphers that comes back is checked cipher by cipher against the complete set.
  pub recv_and_calcu-check_ciphers :
      {k : ℕ} {xs : List Bytes} {messages : List CipherBatch} (s : CipherStore)
      → s.peer_cipher_set_done ≡ true
      → Stream true k xs messages
      → recv_and_calcu ctx (recv_duaenc_local_cipher ctx) messages s
        ≡ (returned tt, check_ciphers xs s)
  recv_and_calcu-check_ciphers s set_done (last i arr h) =
      recv_and_calcu-last ctx supported (recv_duaenc_local_cipher ctx) true i arr [] s
        (check_ciphers arr s) h (recv_duaenc-eq arr true s set_done)
  recv_and_calcu-check_ciphers s set_done (more i arr {rest = rest} {messages = messages} h tail) =
      let s' = check_ciphers arr s in
      let kept : s'.peer_cipher_set_done ≡ true =
        ap (λ (t : CipherStore). t.peer_cipher_set_done) (check_ciphers-eq arr s) ∙ set_done in
      recv_and_calcu-more ctx supported (recv_duaenc_local_cipher ctx) true i arr messages s s' h
        (recv_duaenc-eq arr false s set_done)
      ∙ recv_and_calcu-check_ciphers s' kept tail
      ∙ ap (λ t. (returned tt, t)) (sym (check_ciphers-append arr rest s))

pub ||-false : (x : Bool) → (x || false) ≡ x
||-false true = refl
||-false false = refl

pub contains-inserted :
    (ys set : List Bytes) (x : Bytes)
    → contains (inserted ys set) x ≡ (contains ys x || contains set x)
unfolding contains
contains-inserted [] set x = refl
contains-inserted (y ∷ ys) set x = ground (arith, contains-inserted ys (y ∷ set) x)

module _ (f : Bytes → Bytes) where
  -- `f` tells apart what stands in the one list from what stands in the other.
  abbrev pub Separates : List Bytes → List Bytes → Type 0
  Separates xs ys = All (λ x. All (λ y. f y ≡ f x → y ≡ x) ys) xs

  pub contains-map :
      (x : Bytes) (ys : List Bytes)
      → All (λ y. f y ≡ f x → y ≡ x) ys
      → contains (map f ys) (f x) ≡ contains ys x
  unfolding contains
  contains-map x [] h = refl
  contains-map x (y ∷ ys) h =
      ground
        (arith, contains-map x ys h.1, same_bytes_iff (f y) (f x), same_bytes_iff y x, h.0, ap f)

module _ {R : Type 0} where
  get_elem?-append :
      (pre : Rows R) (r : Bytes × R) (rest : Rows R)
      → get_elem? (pre ++ r ∷ rest) (length pre) ≡ some r
  get_elem?-append [] r rest = refl
  get_elem?-append (p ∷ pre) r rest = get_elem?-append pre r rest

  -- To take the positions of the hits is to filter.
  pub take_rows-hits :
      (set : List Bytes) (f : Bytes → Bytes) (pre rest : Rows R)
      → take_rows (hits set (length pre) (map f (column_zero rest))) (pre ++ rest)
        ≡ filterb (λ r. contains set (f r.0)) rest
  unfolding take_rows
  take_rows-hits set f pre [] = refl
  take_rows-hits set f pre (r ∷ rest) =
      let ih : take_rows (hits set (length pre + 1) (map f (column_zero rest))) (pre ++ r ∷ rest)
          ≡ filterb (λ r. contains set (f r.0)) rest =
        subst₂
          (λ n rows.
            take_rows (hits set n (map f (column_zero rest))) rows
            ≡ filterb (λ r. contains set (f r.0)) rest)
          (length-append pre (r ∷ [])) (append_assoc pre (r ∷ []) rest)
          (take_rows-hits set f (pre ++ r ∷ []) rest) in
      ground (arith, ih, get_elem?-append pre r rest)

  pub filterb-ext :
      (p q : Bytes × R → Bool) (rows : Rows R)
      → All (λ r. p r ≡ q r) rows
      → filterb p rows ≡ filterb q rows
  filterb-ext p q [] h = refl
  filterb-ext p q (r ∷ rows) h = ground (arith, filterb-ext p q rows h.1, h.0)
