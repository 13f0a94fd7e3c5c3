-- ===== src/Db.antt =====
-- rust/abacus-core/src/db: the key-value store of an agent (mod.rs, typed_db.rs, abacus_db.rs).
-- Logging is left out.
pub mod Backend
pub mod Frame
pub mod Latest
pub mod Order
pub mod Messages
pub mod Payments
pub mod Status
use ethmexico.Base.{
  ℕ, zero, suc, ◌+◌, ◌-◌, ◌%◌, ◌^◌, ◌==◌, ltb, leb, Bool, true, false, if◌then◌else◌, Option, none,
  some, List, [], ◌∷◌, ◌++◌,
}
use ethmexico.Base.Bytes.{Bytes, H256, codes}
use ethmexico.Accumulator.Merkle.{Proof}
use ethmexico.Codec
use ethmexico.Codec.{
  Encode, Decode, encode_h256, decode_h256, encode_u256, decode_u256, encode_u32, decode_u32,
  encode_bool, decode_bool,
}
use ethmexico.Types.{
  RawCommittedMessage, AbacusMessage, InterchainGasPayment, InterchainGasPaymentMeta,
  InterchainGasPaymentWithMeta, encode_raw_message, decode_raw_message, decode_message,
  committed_of_raw, raw_leaf, encode_gas_payment_meta, encode_proof, decode_proof, CommittedMessage,
}
use Backend.{
  Rocks, DbError, rock_error, abacus_error, Outcome, ok, err, panic, M, ◌>>=◌, ◌>>◌, pure, read,
  lift,
}

abbrev pub leaf_prefix : Bytes
leaf_prefix = codes "leaf_"

abbrev pub proof_prefix : Bytes
proof_prefix = codes "proof_"

abbrev pub message_prefix : Bytes
message_prefix = codes "message_"

abbrev pub latest_leaf_index : Bytes
latest_leaf_index = codes "latest_known_leaf_index_"

abbrev pub latest_leaf_index_for_destination : Bytes
latest_leaf_index_for_destination = codes "latest_known_leaf_index_for_destination_"

abbrev pub leaf_process_status : Bytes
leaf_process_status = codes "leaf_process_status_"

abbrev pub gas_payment_for_leaf : Bytes
gas_payment_for_leaf = codes "gas_payment_for_leaf_"

abbrev pub gas_payment_meta_processed : Bytes
gas_payment_meta_processed = codes "gas_payment_meta_processed_"

-- `TypedDB::full_prefix`, followed by the key.
unfoldable pub full_key : Bytes → Bytes → Bytes → Bytes
full_key entity prefix key = entity ++ (codes "_" ++ (prefix ++ key))

-- The handle's `entity` and the store below it.
module _ (rocks : Rocks) (keccak : Bytes → Bytes) (entity : Bytes) where
  open rocks use {Store, put, get}

  unfoldable pub prefix_store : Bytes → Bytes → Bytes → M Store (Unit {0})
  prefix_store prefix key value s = elim (put s (full_key entity prefix key) value) [
    | none ↦ (err rock_error, s)
    | some s' ↦ (ok tt, s')
  ]

  unfoldable pub prefix_retrieve : Bytes → Bytes → Store → Outcome (Option Bytes)
  prefix_retrieve prefix key s = elim (get s (full_key entity prefix key)) [
    | none ↦ err rock_error
    | some v ↦ ok v
  ]

  unfoldable pub store_encodable : {A : Type 0} → Encode A → Bytes → Bytes → A → M Store (Unit {0})
  store_encodable e prefix key value = prefix_store prefix key (e.bytes value)

  -- `read_from` on a value that is there, then `transpose`.
  abbrev pub decode_value : {A : Type 0} → Decode A → Outcome (Option Bytes) → Outcome (Option A)
  decode_value d (ok none) = ok none
  decode_value d (ok (some bytes)) = elim (d bytes) [
    | Codec.ok (value, rest) ↦ ok (some value)
    | Codec.err e ↦ err (abacus_error e)
  ]
  decode_value d (err e) = err e
  decode_value d panic = panic

  unfoldable pub retrieve_decodable :
      {A : Type 0} → Decode A → Bytes → Bytes → Store → Outcome (Option A)
  retrieve_decodable d prefix key s = decode_value d (prefix_retrieve prefix key s)

  -- `store_keyed_encodable` and `retrieve_keyed_decodable`.
  unfoldable pub store_keyed :
      {K A : Type 0} → Encode K → Encode A → Bytes → K → A → M Store (Unit {0})
  store_keyed k e prefix key value = store_encodable e prefix (k.bytes key) value

  unfoldable pub retrieve_keyed :
      {K A : Type 0} → Encode K → Decode A → Bytes → K → Store → Outcome (Option A)
  retrieve_keyed k d prefix key s = retrieve_decodable d prefix (k.bytes key) s

  unfoldable pub retrieve_latest_leaf_index : Store → Outcome (Option ℕ)
  retrieve_latest_leaf_index = retrieve_decodable decode_u32 [] latest_leaf_index

  -- `if let Ok(Some(idx))`, and whether the new index is not above it.
  abbrev pub is_stale : Outcome (Option ℕ) → ℕ → Bool
  is_stale (ok (some idx)) leaf_index = leb leaf_index idx
  is_stale (ok none) leaf_index = false
  is_stale (err e) leaf_index = false
  is_stale panic leaf_index = false

  unfoldable pub update_latest_leaf_index : ℕ → M Store (Unit {0})
  update_latest_leaf_index leaf_index s =
      if is_stale (retrieve_latest_leaf_index s) leaf_index
      then (ok tt, s)
      else store_encodable encode_u32 [] latest_leaf_index leaf_index s

  unfoldable pub retrieve_latest_leaf_index_for_destination : ℕ → Store → Outcome (Option ℕ)
  retrieve_latest_leaf_index_for_destination destination =
      retrieve_keyed encode_u32 decode_u32 latest_leaf_index_for_destination destination

  unfoldable pub update_latest_leaf_index_for_destination : ℕ → ℕ → M Store (Unit {0})
  update_latest_leaf_index_for_destination destination leaf_index s =
      if is_stale (retrieve_latest_leaf_index_for_destination destination s) leaf_index
      then (ok tt, s)
      else store_keyed encode_u32 encode_u32 latest_leaf_index_for_destination destination
          leaf_index s

  unfoldable pub store_leaf : ℕ → ℕ → H256 → M Store (Unit {0})
  store_leaf leaf_index destination leaf = do
    store_keyed encode_u32 encode_h256 leaf_prefix leaf_index leaf
    update_latest_leaf_index leaf_index
    update_latest_leaf_index_for_destination destination leaf_index

  unfoldable pub message_by_leaf : H256 → Store → Outcome (Option RawCommittedMessage)
  message_by_leaf leaf = retrieve_keyed encode_h256 decode_raw_message message_prefix leaf

  unfoldable pub leaf_by_leaf_index : ℕ → Store → Outcome (Option H256)
  leaf_by_leaf_index leaf_index = retrieve_keyed encode_u32 decode_h256 leaf_prefix leaf_index

  -- The two cases of the match on the leaf.
  abbrev pub message_of_leaf : Outcome (Option H256) → Store → Outcome (Option RawCommittedMessage)
  message_of_leaf (ok none) s = ok none
  message_of_leaf (ok (some leaf)) s = message_by_leaf leaf s
  message_of_leaf (err e) s = err e
  message_of_leaf panic s = panic

  unfoldable pub message_by_leaf_index : ℕ → Store → Outcome (Option RawCommittedMessage)
  message_by_leaf_index index s = message_of_leaf (leaf_by_leaf_index index s) s

  unfoldable pub store_raw_committed_message : RawCommittedMessage → M Store (Unit {0})
  store_raw_committed_message message = do
    (parsed, rest) ← read (λ s. lift (decode_message message.message))
    store_leaf message.leaf_index parsed.destination (raw_leaf keccak message)
    store_keyed encode_h256 encode_raw_message message_prefix (raw_leaf keccak message) message

  -- An index that does not follow the latest one is only logged.
  unfoldable pub store_latest_message : RawCommittedMessage → M Store (Unit {0})
  store_latest_message message = do
    latest ← read retrieve_latest_leaf_index
    store_raw_committed_message message

  unfoldable pub store_messages_loop : ℕ → List RawCommittedMessage → M Store ℕ
  store_messages_loop latest [] = pure latest
  store_messages_loop latest (message ∷ messages) =
      store_latest_message message
      >> (read (λ s. lift (committed_of_raw message)) >>= λ committed.
          store_messages_loop committed.leaf_index messages)

  unfoldable pub store_messages : List RawCommittedMessage → M Store ℕ
  unfolding store_messages_loop
  store_messages = store_messages_loop 0

  unfoldable pub retrieve_leaf_processing_status : ℕ → Store → Outcome (Option Bool)
  retrieve_leaf_processing_status leaf_index s =
      elim (retrieve_keyed encode_u32 decode_u32 leaf_process_status leaf_index s) [
        | ok none ↦ ok none
        | ok (some x) ↦ ok (some (x == 1))
        | err e ↦ err e
        | panic ↦ panic
      ]

  unfoldable pub mark_leaf_as_processed : ℕ → M Store (Unit {0})
  mark_leaf_as_processed leaf_index =
      store_keyed encode_u32 encode_u32 leaf_process_status leaf_index 1

  unfoldable pub store_proof : ℕ → Proof → M Store (Unit {0})
  store_proof leaf_index proof = store_keyed encode_u32 encode_proof proof_prefix leaf_index proof

  unfoldable pub proof_by_leaf_index : ℕ → Store → Outcome (Option Proof)
  proof_by_leaf_index leaf_index = retrieve_keyed encode_u32 decode_proof proof_prefix leaf_index

  abbrev pub unwrap_or : {A : Type 0} → A → Outcome (Option A) → Outcome A
  unwrap_or d (ok none) = ok d
  unwrap_or d (ok (some a)) = ok a
  unwrap_or d (err e) = err e
  unwrap_or d panic = panic

  unfoldable pub retrieve_gas_payment_meta_processed :
      InterchainGasPaymentMeta → Store → Outcome Bool
  retrieve_gas_payment_meta_processed meta s =
      unwrap_or false
        (retrieve_keyed encode_gas_payment_meta decode_bool gas_payment_meta_processed meta s)

  unfoldable pub store_gas_payment_meta_processed : InterchainGasPaymentMeta → M Store (Unit {0})
  store_gas_payment_meta_processed meta =
      store_keyed encode_gas_payment_meta encode_bool gas_payment_meta_processed meta true

  unfoldable pub retrieve_gas_payment_for_leaf : ℕ → Store → Outcome ℕ
  retrieve_gas_payment_for_leaf leaf_index s =
      unwrap_or 0 (retrieve_keyed encode_u32 decode_u256 gas_payment_for_leaf leaf_index s)

  -- `U256` addition panics where it overflows.
  abbrev pub add_u256 : ℕ → ℕ → Outcome ℕ
  add_u256 a b = if ltb (a + b) (2 ^ 256) then ok (a + b) else panic

  unfoldable pub update_gas_payment_for_leaf : InterchainGasPayment → M Store (Unit {0})
  update_gas_payment_for_leaf payment = do
    existing_payment ← read (retrieve_gas_payment_for_leaf payment.leaf_index)
    total ← read (λ s. add_u256 existing_payment payment.amount)
    store_keyed encode_u32 encode_u256 gas_payment_for_leaf payment.leaf_index total

  unfoldable pub process_gas_payment : InterchainGasPaymentWithMeta → M Store (Unit {0})
  process_gas_payment p = do
    processed ← read (retrieve_gas_payment_meta_processed p.meta)
    if processed
        then pure tt
        else (store_gas_payment_meta_processed p.meta >> update_gas_payment_for_leaf p.payment)
