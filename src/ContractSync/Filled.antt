-- ===== src/ContractSync/Filled.antt =====
-- The leaves of the database, as rust/abacus-base/src/contract_sync/outbox.rs stores the messages that
-- it accepts.
use ethmexico.Base.{
  ℕ, suc, ◌+◌, ◌<◌, ◌≤◌, ◌≡◌, ◌≢◌, sym, ap, subst, ◌∙◌, ◌++◌, get_or, u32_max, IsU32, none, some,
  List, [], ◌∷◌, All, inl, inr, ◌⊎◌, arith, length,
}
use ethmexico.Base.Bytes.{Bytes, H256}
use ethmexico.Codec.{encode_u32, decode_u32, decode_h256}
use ethmexico.Codec.Laws.{IsH256}
use ethmexico.Types.{RawCommittedMessage, raw_leaf, committed_of_raw}
use ethmexico.Db.Backend.{Rocks, Outcome, ok, lift, read-eq-ok, >>=-eq-ok}
use ethmexico.Db.{
  leaf_prefix, latest_leaf_index, retrieve_latest_leaf_index, leaf_by_leaf_index, retrieve_keyed,
  store_raw_committed_message, store_latest_message, store_messages_loop, store_encodable,
}
use ethmexico.Db.Frame.{retrieve-store_other}
use ethmexico.Db.Messages.{message_by_leaf_index-store}
use ethmexico.Db.Order.{store_raw_committed_message-keeps}
use ethmexico.ContractSync.{
  latest_valid_message_range_start_block, store_latest_valid_message_range_start_block,
}
use ethmexico.ContractSync.Continuation.{Consecutive, IsIndexed}

start_block-ne-leaf : (k : Bytes) → [] ++ latest_valid_message_range_start_block ≢ leaf_prefix ++ k
start_block-ne-leaf k e = absurd (omega (arith, ap (λ (l : Bytes). get_or 0 l 1) e))

start_block-ne-latest : [] ++ latest_valid_message_range_start_block ≢ [] ++ latest_leaf_index
start_block-ne-latest e = absurd (omega (arith, ap (λ (l : Bytes). get_or 0 l 7) e))

module _ (rocks : Rocks) (keccak : Bytes → Bytes) (entity : Bytes) where
  open rocks use {Store}

  -- The latest leaf index is `last`, and every index from `start` to it has a leaf.
  pub record Filled (start last : ℕ) (s : Store) : Type 0 where
    pub latest : retrieve_latest_leaf_index rocks keccak entity s ≡ ok (some last)
    pub fits : last < u32_max
    pub leaves :
        (i : ℕ)
        → start ≤ i
        → i ≤ last
        → (leaf : H256) × (leaf_by_leaf_index rocks keccak entity i s ≡ ok (some leaf))

  store-Filled :
      (start last : ℕ) (m : RawCommittedMessage) (s s' : Store)
      → ((bytes : Bytes) → IsH256 (keccak bytes))
      → IsIndexed m
      → m.leaf_index ≡ suc last
      → Filled start last s
      → store_raw_committed_message rocks keccak entity m s ≡ (ok tt, s')
      → Filled start (suc last) s'
  store-Filled start last m s s' size u next v e =
      let u32 : IsU32 m.leaf_index = omega (arith, u) in
      let (top, kept) =
        store_raw_committed_message-keeps rocks keccak entity m (some last) s s' u32 v.latest e in
      let (mine, _) = message_by_leaf_index-store rocks keccak entity m s s' u32 size e in
      record {
        latest = top ∙ ap (λ (n : ℕ). ok (some n)) (omega (arith, next));
        fits = omega (arith, u, next);
        leaves = λ i low high. elim (last_or i high) [
          | inl le ↦
              let (leaf, found) = v.leaves i low le in
              (leaf, kept i (omega (arith, le, v.fits)) (omega (arith, le, next)) ∙ found)
          | inr same ↦ (
            raw_leaf keccak m,
            ap (λ n. leaf_by_leaf_index rocks keccak entity n s') (same ∙ sym next) ∙ mine,
          )
        ];
      }
    where
      last_or : (i : ℕ) → i ≤ suc last → (i ≤ last) ⊎ (i ≡ suc last)
      last_or i h = grind arith

  -- The first messages of an empty database.
  store-first-Filled :
      (m : RawCommittedMessage) (s s' : Store)
      → ((bytes : Bytes) → IsH256 (keccak bytes))
      → IsIndexed m
      → retrieve_latest_leaf_index rocks keccak entity s ≡ ok none
      → store_raw_committed_message rocks keccak entity m s ≡ (ok tt, s')
      → Filled m.leaf_index m.leaf_index s'
  store-first-Filled m s s' size u none_yet e =
      let u32 : IsU32 m.leaf_index = omega (arith, u) in
      let (top, _) =
        store_raw_committed_message-keeps rocks keccak entity m none s s' u32 none_yet e in
      let (mine, _) = message_by_leaf_index-store rocks keccak entity m s s' u32 size e in
      record {
        latest = top;
        fits = u;
        leaves = λ i low high. (
          raw_leaf keccak m,
          ap (λ n. leaf_by_leaf_index rocks keccak entity n s') (only i low high) ∙ mine,
        );
      }
    where
      only : (i : ℕ) → m.leaf_index ≤ i → i ≤ m.leaf_index → i ≡ m.leaf_index
      only i low high = omega arith

  store_latest_cases :
      (m : RawCommittedMessage) (s s' : Store)
      → store_latest_message rocks keccak entity m s ≡ (ok tt, s')
      → store_raw_committed_message rocks keccak entity m s ≡ (ok tt, s')
  unfolding store_latest_message
  store_latest_cases m s s' e =
      let (_, _, rest) = read-eq-ok (retrieve_latest_leaf_index rocks keccak entity) _ s e in rest

  loop_cases :
      (acc n : ℕ) (m : RawCommittedMessage) (ms : List RawCommittedMessage) (s s' : Store)
      → store_messages_loop rocks keccak entity acc (m ∷ ms) s ≡ (ok n, s')
      → (t : Store) × (acc' : ℕ) × (store_raw_committed_message rocks keccak entity m s
          ≡ (ok tt, t))
        × (store_messages_loop rocks keccak entity acc' ms t ≡ (ok n, s'))
  unfolding store_messages_loop
  loop_cases acc n m ms s s' e =
      let (_, t, stored, rest) = >>=-eq-ok (store_latest_message rocks keccak entity m) _ s e in
      let (c, _, last) = read-eq-ok (λ (u : Store). lift (committed_of_raw m)) _ t rest in
      (t, c.leaf_index, store_latest_cases m s t stored, last)

  -- Messages that continue the leaves without a gap, stored with success, move the latest index to the
  -- last of them, and every index up to it has a leaf.
  pub store_messages_loop-Filled :
      (start last acc n : ℕ) (ms : List RawCommittedMessage) (s s' : Store)
      → ((bytes : Bytes) → IsH256 (keccak bytes))
      → All IsIndexed ms
      → Consecutive (suc last) ms
      → Filled start last s
      → store_messages_loop rocks keccak entity acc ms s ≡ (ok n, s')
      → Filled start (last + length ms) s'
  unfolding store_messages_loop Consecutive
  store_messages_loop-Filled start last acc n [] s s' size all c v e =
      let same : s ≡ s' = ap (λ (r : Outcome ℕ × Store). r.1) e in
      subst (λ t. Filled start (last + 0) t) same (subst (λ k. Filled start k s) (omega arith) v)
  store_messages_loop-Filled start last acc n (m ∷ ms) s s' size (a, all) (next, c) v e =
      let (t, acc', stored, rest) = loop_cases acc n m ms s s' e in
      subst (λ k. Filled start k s') (omega arith)
        (store_messages_loop-Filled start (suc last) acc' n ms t s' size all c
          (store-Filled start last m s t size a next v stored) rest)

  -- The block at which the range starts is kept under a key of its own.
  pub store_start_block-Filled :
      (start last chunk_size b : ℕ) (s s' : Store)
      → Filled start last s
      → store_latest_valid_message_range_start_block rocks keccak entity chunk_size b s
        ≡ (ok tt, s')
      → Filled start last s'
  unfolding store_latest_valid_message_range_start_block retrieve_latest_leaf_index
      leaf_by_leaf_index retrieve_keyed
  store_start_block-Filled start last chunk_size b s s' v e =
      let stored : (store_encodable rocks keccak entity encode_u32 []
            latest_valid_message_range_start_block b s).1
          ≡ s' =
        ap (λ (r : Outcome (Unit {0}) × Store). r.1) e in
      subst (λ t. Filled start last t) stored
        (record {
          latest =
              retrieve-store_other rocks keccak entity encode_u32 decode_u32 []
                latest_valid_message_range_start_block [] latest_leaf_index b s
                start_block-ne-latest
              ∙ v.latest;
          fits = v.fits;
          leaves = λ i low high.
              (let (leaf, found) = v.leaves i low high in
                (
                  leaf,
                  retrieve-store_other rocks keccak entity encode_u32 decode_h256 []
                        latest_valid_message_range_start_block leaf_prefix (encode_u32.bytes i) b s
                        (start_block-ne-leaf (encode_u32.bytes i))
                      ∙ found,
                ));
        })
