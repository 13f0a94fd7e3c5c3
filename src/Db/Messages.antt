-- ===== src/Db/Messages.antt =====
-- Storing a message and finding it again, in rust/abacus-core/src/db/abacus_db.rs.
use ethmexico.Base.{
  ℕ, ◌≡◌, ◌≢◌, refl, sym, ap, ◌∙◌, ◌++◌, [], get_or, Bool-cases, inl, inr, Option, some, IsU32,
  arith,
}
use ethmexico.Base.Bytes.{Bytes, H256}
use ethmexico.Codec.{encode_u32, encode_h256, decode_h256}
use ethmexico.Codec.Laws.{IsH256, h256-Reads}
use ethmexico.Types.{
  RawCommittedMessage, encode_raw_message, decode_raw_message, decode_message, raw_leaf,
}
use ethmexico.Types.RoundTrip.{decode_raw_message-encode_raw_message}
use ethmexico.Db.Backend.{Rocks, Outcome, ok, lift, read-eq-ok, >>=-eq-ok}
use ethmexico.Db.{
  leaf_prefix, message_prefix, latest_leaf_index, latest_leaf_index_for_destination,
  update_latest_leaf_index, update_latest_leaf_index_for_destination, store_keyed, retrieve_keyed,
  store_leaf, leaf_by_leaf_index, message_by_leaf, message_by_leaf_index,
  store_raw_committed_message, is_stale, retrieve_latest_leaf_index,
  retrieve_latest_leaf_index_for_destination,
}
use ethmexico.Db.Frame.{retrieve-store, retrieve-store_whole, retrieve-store_other}

leaf-ne-latest : (k : Bytes) → [] ++ latest_leaf_index ≢ leaf_prefix ++ k
leaf-ne-latest k e = absurd (omega (arith, ap (λ (l : Bytes). get_or 0 l 1) e))

leaf-ne-destination : (j k : Bytes) → latest_leaf_index_for_destination ++ j ≢ leaf_prefix ++ k
leaf-ne-destination j k e = absurd (omega (arith, ap (λ (l : Bytes). get_or 0 l 1) e))

leaf-ne-message : (j k : Bytes) → message_prefix ++ j ≢ leaf_prefix ++ k
leaf-ne-message j k e = absurd (omega (arith, ap (λ (l : Bytes). get_or 0 l 0) e))

module _ (rocks : Rocks) (keccak : Bytes → Bytes) (entity : Bytes) where
  open rocks use {Store}

  abbrev pub leaf_of : ℕ → Store → Outcome (Option H256)
  leaf_of i s = leaf_by_leaf_index rocks keccak entity i s

  pub leaf_of-update :
      (i n : ℕ) (s : Store)
      → leaf_of i (update_latest_leaf_index rocks keccak entity n s).1 ≡ leaf_of i s
  unfolding leaf_by_leaf_index update_latest_leaf_index retrieve_keyed
  leaf_of-update i n s =
      elim (Bool-cases
        (is_stale rocks keccak entity (retrieve_latest_leaf_index rocks keccak entity s) n)) [
          | inl stale ↦ rw stale refl
          | inr newer ↦ rw newer (
              retrieve-store_other rocks keccak entity encode_u32 decode_h256 [] latest_leaf_index
                leaf_prefix (encode_u32.bytes i) n s (leaf-ne-latest (encode_u32.bytes i)))
        ]

  pub leaf_of-update_destination :
      (i d n : ℕ) (s : Store)
      → leaf_of i (update_latest_leaf_index_for_destination rocks keccak entity d n s).1
        ≡ leaf_of i s
  unfolding leaf_by_leaf_index update_latest_leaf_index_for_destination retrieve_keyed store_keyed
  leaf_of-update_destination i d n s =
      elim (Bool-cases (
        is_stale rocks keccak entity
          (retrieve_latest_leaf_index_for_destination rocks keccak entity d s) n)) [
            | inl stale ↦ rw stale refl
            | inr newer ↦ rw newer (
                retrieve-store_other rocks keccak entity encode_u32 decode_h256
                  latest_leaf_index_for_destination (encode_u32.bytes d) leaf_prefix
                  (encode_u32.bytes i) n s
                  (leaf-ne-destination (encode_u32.bytes d) (encode_u32.bytes i)))
          ]

  -- The state after an operation that succeeded.
  abbrev state : {A : Type 0} → Outcome A × Store → Store
  state r = r.1

  leaf_of-store_leaf :
      (i d : ℕ) (leaf : H256) (s s' : Store)
      → IsH256 leaf
      → store_leaf rocks keccak entity i d leaf s ≡ (ok tt, s')
      → leaf_of i s' ≡ ok (some leaf)
  unfolding store_leaf leaf_by_leaf_index retrieve_keyed store_keyed
  leaf_of-store_leaf i d leaf s s' h e =
      let (_, t, stored, rest) =
        >>=-eq-ok (store_keyed rocks keccak entity encode_u32 encode_h256 leaf_prefix i leaf) _ s
          e in
      let (_, u, updated, last) =
        >>=-eq-ok (update_latest_leaf_index rocks keccak entity i) _ t rest in
      ap (leaf_of i) (sym (ap state last))
      ∙ leaf_of-update_destination i d i u
      ∙ ap (leaf_of i) (sym (ap state updated))
      ∙ leaf_of-update i i t
      ∙ retrieve-store rocks keccak entity encode_h256 decode_h256 leaf_prefix (encode_u32.bytes i)
          leaf s t (h256-Reads leaf h) stored

  pub leaf_of-store_message :
      (i : ℕ) (leaf : H256) (m : RawCommittedMessage) (s : Store)
      → leaf_of i
          (store_keyed rocks keccak entity encode_h256 encode_raw_message message_prefix leaf m s).1
        ≡ leaf_of i s
  unfolding leaf_by_leaf_index retrieve_keyed store_keyed
  leaf_of-store_message i leaf m s =
      retrieve-store_other rocks keccak entity encode_raw_message decode_h256 message_prefix
        (encode_h256.bytes leaf) leaf_prefix (encode_u32.bytes i) m s
        (leaf-ne-message (encode_h256.bytes leaf) (encode_u32.bytes i))

  -- A raw message with an index of a u32 that was stored with success is found by its index, and so
  -- is its leaf. The hash is taken to give 32 bytes, as Keccak256 does.
  pub message_by_leaf_index-store :
      (m : RawCommittedMessage) (s s' : Store)
      → IsU32 m.leaf_index
      → ((bytes : Bytes) → IsH256 (keccak bytes))
      → store_raw_committed_message rocks keccak entity m s ≡ (ok tt, s')
      → (leaf_by_leaf_index rocks keccak entity m.leaf_index s' ≡ ok (some (raw_leaf keccak m)))
        × (message_by_leaf_index rocks keccak entity m.leaf_index s' ≡ ok (some m))
  unfolding store_raw_committed_message message_by_leaf_index message_by_leaf retrieve_keyed
      raw_leaf
  message_by_leaf_index-store m s s' u size e =
      let (parsed, _, step) = read-eq-ok (λ t. lift (decode_message m.message)) _ s e in
      let (_, t, stored, last) =
        >>=-eq-ok
          (store_leaf rocks keccak entity m.leaf_index parsed.0.destination (raw_leaf keccak m)) _ s
          step in
      let leaf : leaf_of m.leaf_index s' ≡ ok (some (raw_leaf keccak m)) =
        ap (leaf_of m.leaf_index) (sym (ap state last))
        ∙ leaf_of-store_message m.leaf_index (raw_leaf keccak m) m t
        ∙ leaf_of-store_leaf m.leaf_index parsed.0.destination (raw_leaf keccak m) s t (size _)
            stored in
      (
        leaf,
        rw leaf (
            retrieve-store_whole rocks keccak entity encode_raw_message decode_raw_message
              message_prefix (encode_h256.bytes (raw_leaf keccak m)) m t s' []
              (decode_raw_message-encode_raw_message m u) (unfold store_keyed in last)),
      )
