-- ===== src/DataJoin/Buffered.antt =====
-- The meta data that waits at the saver is consecutive.
use n_mpc.Prelude.{
  ◌⊎◌, ℕ, ◌+◌, ◌≡◌, sym, ◌∙◌, subst, Option, none, some, [], ◌∷◌, ◌++◌, length, ◌==◌, arith,
  length-append, inl, inr, Bool-cases,
}
use n_mpc.DataJoin.Records.{DataBlockMeta}
use n_mpc.DataJoin.Blocks.{AreNumbered, AreNumbered-append}
use n_mpc.DataJoin.Saver.{Saver, append_data_items_from_producer}

-- The blocks from `k` on wait, and the next index is the one after them.
pub record IsConsecutive (s : Saver) (k : ℕ) : Type 0 where
  pub numbered : AreNumbered k s.data_block_meta_buffer
  pub next : s.next_data_block_index ≡ k + length s.data_block_meta_buffer

abbrev appended : Saver → DataBlockMeta → Saver
appended s meta = record s {
  data_block_meta_buffer = s.data_block_meta_buffer ++ meta ∷ [];
  next_data_block_index = s.next_data_block_index + 1;
}

IsConsecutive-appended :
    (s : Saver) (k : ℕ) (meta : DataBlockMeta)
    → IsConsecutive s k
    → s.next_data_block_index ≡ meta.data_block_index
    → IsConsecutive (appended s meta) k
IsConsecutive-appended s k meta h e = record {
  numbered =
      AreNumbered-append k s.data_block_meta_buffer (meta ∷ []) h.numbered (sym e ∙ h.next, tt);
  next = omega (arith, h.next, length-append s.data_block_meta_buffer (meta ∷ []));
}

append-cases :
    (s : Saver) (meta : DataBlockMeta)
    → ((append_data_items_from_producer (some meta) s).1 ≡ s)
      ⊎ ((s.next_data_block_index ≡ meta.data_block_index)
          × ((append_data_items_from_producer (some meta) s).1 ≡ appended s meta))
unfolding append_data_items_from_producer
append-cases s meta = elim (Bool-cases (meta.partition_id == s.partition_id)) [
  | inr other ↦ inl (ground (arith, other))
  | inl same ↦ elim (Bool-cases s.send_data_block_meta_finish) [
    | inl ended ↦ inl (ground (arith, same, ended))
    | inr going ↦ elim (Bool-cases (s.next_data_block_index == meta.data_block_index)) [
      | inl next ↦ inr (ground (arith, next), ground (arith, same, going, next))
      | inr later ↦ inl (ground (arith, same, going, later))
    ]
  ]
]

-- Whatever the producer sends, accepted or not, what waits stays consecutive.
pub append_data_items_from_producer-IsConsecutive :
    (s : Saver) (k : ℕ) (content : Option DataBlockMeta)
    → IsConsecutive s k
    → IsConsecutive (append_data_items_from_producer content s).1 k
unfolding append_data_items_from_producer
append_data_items_from_producer-IsConsecutive s k none h = h
append_data_items_from_producer-IsConsecutive s k (some meta) h = elim (append-cases s meta) [
  | inl e ↦ subst (λ s'. IsConsecutive s' k) (sym e) h
  | inr e ↦ subst (λ s'. IsConsecutive s' k) (sym e.1) (IsConsecutive-appended s k meta h e.0)
]
