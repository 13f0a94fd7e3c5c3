-- ===== src/Ethereum/Indexer.antt =====
-- The indexers of rust/chains/abacus-ethereum/src/outbox.rs and interchain_gas.rs: the events of a range
-- of blocks, as the data that the agents keep.
pub mod Sorted
use ethmexico.Base.{
  ℕ, ltb, leb, ◌==◌, Bool, true, false, if◌then◌else◌, Option, none, some, List, [], ◌∷◌, map,
}
use ethmexico.Base.Bytes.{Bytes, H256}
use ethmexico.Types.{
  Checkpoint, CheckpointMeta, RawCommittedMessage, InterchainGasPayment, InterchainGasPaymentMeta,
  InterchainGasPaymentWithMeta,
}
use ethmexico.Ethereum.{Reply, ok, failed, panicked, ◌>>=◌, answered, as_word, saturating_sub}

-- The fields of the contracts' events that are read. Numbers are those of a u256.
pub record DispatchEvent : Type 0 where
  pub leaf_index : ℕ
  pub message : Bytes

pub record CheckpointCachedEvent : Type 0 where
  pub root : H256
  pub index : ℕ

pub record GasPaymentEvent : Type 0 where
  pub leaf_index : ℕ
  pub amount : ℕ

pub record LogMeta : Type 0 where
  pub block_number : ℕ
  pub transaction_index : ℕ
  pub transaction_hash : H256
  pub log_index : ℕ

pub record CheckpointWithMeta : Type 0 where
  pub checkpoint : Checkpoint
  pub metadata : CheckpointMeta

unfoldable pub get_finalized_block_number : ℕ → Option ℕ → Reply ℕ
get_finalized_block_number finality_blocks block_number = do
  number ← answered block_number
  block ← as_word 32 number
  ok (saturating_sub block finality_blocks)

-- `collect` of conversions that may panic.
abbrev pub convert_all : {A B : Type 0} → (A → Reply B) → List A → Reply (List B)
convert_all f [] = ok []
convert_all f (a ∷ as') = f a >>= λ b. convert_all f as' >>= λ bs. ok (b ∷ bs)

-- `sort_by`, which is stable: equal elements keep their order.
unfoldable pub insert_by : {A : Type 0} → (A → A → Bool) → A → List A → List A
insert_by le a [] = a ∷ []
insert_by le a (b ∷ bs) = let rest = insert_by le a bs in if le a b then a ∷ (b ∷ bs) else b ∷ rest

unfoldable pub sort_by : {A : Type 0} → (A → A → Bool) → List A → List A
unfolding insert_by
sort_by le [] = []
sort_by le (a ∷ as') = insert_by le a (sort_by le as')

abbrev pub by_leaf_index : DispatchEvent → DispatchEvent → Bool
by_leaf_index a b = leb a.leaf_index b.leaf_index

unfoldable pub message_of : DispatchEvent → Reply RawCommittedMessage
message_of f = do
  leaf_index ← as_word 32 f.leaf_index
  ok (record { leaf_index = leaf_index; message = f.message })

-- The answer to the query for the events of the blocks.
unfoldable pub fetch_sorted_messages :
    Option (List DispatchEvent) → Reply (List RawCommittedMessage)
unfolding message_of
fetch_sorted_messages query = do
  events ← answered query
  convert_all message_of (sort_by by_leaf_index events)

abbrev pub by_block : CheckpointCachedEvent × LogMeta → CheckpointCachedEvent × LogMeta → Bool
by_block (_, a) (_, b) =
    if a.block_number == b.block_number
    then leb a.transaction_index b.transaction_index
    else ltb a.block_number b.block_number

unfoldable pub checkpoint_of : ℕ → CheckpointCachedEvent × LogMeta → Reply CheckpointWithMeta
checkpoint_of outbox_domain (event, meta) = do
  index ← as_word 32 event.index
  block_number ← as_word 64 meta.block_number
  ok (record {
    checkpoint = record { outbox_domain = outbox_domain; root = event.root; index = index };
    metadata = record { block_number = block_number };
  })

unfoldable pub fetch_sorted_cached_checkpoints :
    Option (List (CheckpointCachedEvent × LogMeta)) → Option ℕ → Reply (List CheckpointWithMeta)
unfolding checkpoint_of
fetch_sorted_cached_checkpoints query local_domain = do
  events ← answered query
  outbox_domain ← answered local_domain
  convert_all (checkpoint_of outbox_domain) (sort_by by_block events)

unfoldable pub payment_of : GasPaymentEvent × LogMeta → Reply InterchainGasPaymentWithMeta
payment_of (log, log_meta) = do
  leaf_index ← as_word 32 log.leaf_index
  ok (record {
    payment = record { leaf_index = leaf_index; amount = log.amount };
    meta = record { transaction_hash = log_meta.transaction_hash; log_index = log_meta.log_index };
  })

unfoldable pub fetch_gas_payments :
    Option (List (GasPaymentEvent × LogMeta)) → Reply (List InterchainGasPaymentWithMeta)
unfolding payment_of
fetch_gas_payments query = do events ← answered query; convert_all payment_of events
