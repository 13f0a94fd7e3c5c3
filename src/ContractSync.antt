-- ===== src/ContractSync.antt =====
-- rust/abacus-base/src/contract_sync: the indexing of an outbox's messages (outbox.rs, last_message.rs)
-- and of the gas payments (interchain_gas.rs), with what they keep in the database (schema.rs).
-- Indexers are environments, and machine integers wrap around as in release mode.
pub mod Continuation
pub mod Filled
pub mod Progress
pub mod Asked
pub mod Covered
pub mod Payments
use ethmexico.Base.{
  ℕ, ◌+◌, ◌-◌, ◌%◌, ◌^◌, ◌==◌, ltb, leb, min, u32_max, Bool, true, false, ◌&&◌, if◌then◌else◌,
  Option, none, some, List, [], ◌∷◌, any,
}
use ethmexico.Base.Bytes.{Bytes, codes}
use ethmexico.Codec.{encode_u32, decode_u32}
use ethmexico.Types.{RawCommittedMessage, InterchainGasPaymentWithMeta}
use ethmexico.Db.Backend
use ethmexico.Db.Backend.{Rocks, Outcome, M}
use ethmexico.Db.{
  store_encodable, retrieve_decodable, retrieve_latest_leaf_index, store_messages,
  process_gas_payment,
}

pub data ListValidity : Type 0 where
  empty invalid_continuation contains_gaps valid : ListValidity

-- `i - 1`.
unfoldable pub before : ℕ → ℕ
before i = (i + u32_max) % 2 ^ 32

-- No pair of `windows(2)` leaves a gap.
unfoldable pub no_gaps : List RawCommittedMessage → Bool
no_gaps [] = true
no_gaps (m ∷ []) = true
no_gaps (m ∷ (n ∷ ms)) = (m.leaf_index == before n.leaf_index) && no_gaps (n ∷ ms)

abbrev pub has_desired_message : Option ℕ → List RawCommittedMessage → Bool
has_desired_message none ms = true
has_desired_message (some last_seen) ms =
    any (λ (m : RawCommittedMessage). last_seen == before m.leaf_index) ms

-- `OptLatestLeafIndex::valid_continuation`.
unfoldable pub valid_continuation : Option ℕ → List RawCommittedMessage → ListValidity
unfolding before no_gaps
valid_continuation latest [] = empty
valid_continuation latest (m ∷ ms) =
    if has_desired_message latest (m ∷ ms)
    then if no_gaps (m ∷ ms) then valid else contains_gaps
    else invalid_continuation

-- The messages that are not stored yet.
unfoldable pub above : ℕ → List RawCommittedMessage → List RawCommittedMessage
above min_index [] = []
above min_index (m ∷ ms) =
    let rest = above min_index ms in if ltb min_index m.leaf_index then m ∷ rest else rest

abbrev pub filter_indexed : Option ℕ → List RawCommittedMessage → List RawCommittedMessage
filter_indexed none ms = ms
filter_indexed (some min_index) ms = above min_index ms

-- What an indexer answers in one turn; `none` is an error.
pub record Chain (A : Type 0) : Type 0 where
  pub finalized_block_number : Option ℕ
  pub fetch : ℕ → ℕ → Option (List A)

pub data Ended : Type 0 where
  fine failing panicked : Ended

pub record OutboxSync : Type 0 where
  pub from : ℕ
  pub last_valid_range_start_block : ℕ

abbrev pub latest_valid_message_range_start_block : Bytes
latest_valid_message_range_start_block = codes "latest_valid_message_range_start_block"

abbrev pub latest_indexed_gas_payment_block : Bytes
latest_indexed_gas_payment_block = codes "latest_indexed_gas_payment_block"

module _ (rocks : Rocks) (keccak : Bytes → Bytes) (entity : Bytes) (chunk_size : ℕ) where
  open rocks use {Store}

  unfoldable pub store_latest_valid_message_range_start_block : ℕ → M Store (Unit {0})
  store_latest_valid_message_range_start_block block_num =
      store_encodable rocks keccak entity encode_u32 [] latest_valid_message_range_start_block
        block_num

  unfoldable pub store_latest_indexed_gas_payment_block : ℕ → M Store (Unit {0})
  store_latest_indexed_gas_payment_block latest_block =
      store_encodable rocks keccak entity encode_u32 [] latest_indexed_gas_payment_block
        latest_block

  -- Where the indexer resumes; an error of the database is a panic.
  unfoldable pub resume : ℕ → Store → Outcome OutboxSync
  resume config_from s =
      elim (retrieve_decodable rocks keccak entity decode_u32 []
        latest_valid_message_range_start_block s) [
          | Outcome.ok (some b) ↦ Outcome.ok (record { from = b; last_valid_range_start_block = b })
          | Outcome.ok none ↦
              Outcome.ok (record { from = config_from; last_valid_range_start_block = config_from })
          | Outcome.err e ↦ Outcome.panic
          | Outcome.panic ↦ Outcome.panic
        ]

  abbrev pub State : Type 0
  State = (OutboxSync × Store) × Ended

  abbrev pub after_start_block : ℕ → ℕ → OutboxSync → Outcome (Unit {0}) × Store → State
  after_start_block to full_chunk_from o (Outcome.ok _, s) = (
    (record { from = (to + 1) % 2 ^ 32; last_valid_range_start_block = full_chunk_from }, s),
    fine,
  )
  after_start_block to full_chunk_from o (Outcome.err e, s) = ((o, s), failing)
  after_start_block to full_chunk_from o (Outcome.panic, s) = ((o, s), panicked)

  abbrev pub after_store : ℕ → ℕ → OutboxSync → Outcome ℕ × Store → State
  after_store to full_chunk_from o (Outcome.ok _, s) =
      after_start_block to full_chunk_from o
        (store_latest_valid_message_range_start_block full_chunk_from s)
  after_store to full_chunk_from o (Outcome.err e, s) = ((o, s), failing)
  after_store to full_chunk_from o (Outcome.panic, s) = ((o, s), panicked)

  -- The match on the validity.
  abbrev pub with_validity :
      ℕ → ℕ → OutboxSync → Store → List RawCommittedMessage → ListValidity → State
  with_validity to full_chunk_from o s ms valid =
      after_store to full_chunk_from o (store_messages rocks keccak entity ms s)
  with_validity to full_chunk_from o s ms invalid_continuation =
      ((record o { from = o.last_valid_range_start_block }, s), fine)
  with_validity to full_chunk_from o s ms contains_gaps = ((o, s), fine)
  with_validity to full_chunk_from o s ms empty = ((o, s), panicked)

  abbrev pub with_messages :
      ℕ → ℕ → OutboxSync → Store → Option ℕ → List RawCommittedMessage → State
  with_messages to full_chunk_from o s latest [] =
      ((record o { from = (to + 1) % 2 ^ 32 }, s), fine)
  with_messages to full_chunk_from o s latest (m ∷ ms) =
      with_validity to full_chunk_from o s (m ∷ ms) (valid_continuation latest (m ∷ ms))

  abbrev pub with_latest :
      ℕ → ℕ → OutboxSync → Store → List RawCommittedMessage → Outcome (Option ℕ) → State
  with_latest to full_chunk_from o s sorted_messages (Outcome.ok latest) =
      with_messages to full_chunk_from o s latest (filter_indexed latest sorted_messages)
  with_latest to full_chunk_from o s sorted_messages (Outcome.err e) = ((o, s), failing)
  with_latest to full_chunk_from o s sorted_messages Outcome.panic = ((o, s), panicked)

  abbrev pub with_fetched : ℕ → ℕ → OutboxSync → Store → Option (List RawCommittedMessage) → State
  with_fetched to full_chunk_from o s none = ((o, s), failing)
  with_fetched to full_chunk_from o s (some sorted_messages) =
      with_latest to full_chunk_from o s sorted_messages
        (retrieve_latest_leaf_index rocks keccak entity s)

  -- The last block of the range, and the first one of a full chunk before it.
  unfoldable pub range_end : ℕ → ℕ → ℕ
  range_end tip from = min tip ((from + chunk_size) % 2 ^ 32)

  abbrev pub with_tip : Chain RawCommittedMessage → OutboxSync → Store → Option ℕ → State
  with_tip chain o s none = ((o, s), fine)
  with_tip chain o s (some tip) =
      let to = range_end tip o.from in
      if leb tip o.from
      then ((o, s), fine)
      else with_fetched to (to - chunk_size) o s (chain.fetch (to - chunk_size) to)

  -- One turn of the loop of `sync_outbox_messages`.
  unfoldable pub outbox_turn : Chain RawCommittedMessage → OutboxSync × Store → State
  outbox_turn chain (o, s) = with_tip chain o s chain.finalized_block_number

  -- The loop, over the turns that it meets until it ends.
  abbrev pub go_on : State → (OutboxSync × Store → OutboxSync × Store) → OutboxSync × Store
  go_on (x, fine) next = next x
  go_on (x, failing) next = x
  go_on (x, panicked) next = x

  unfoldable pub sync_outbox_messages :
      List (Chain RawCommittedMessage) → OutboxSync × Store → OutboxSync × Store
  sync_outbox_messages [] x = x
  sync_outbox_messages (chain ∷ chains) x =
      go_on (outbox_turn chain x) (sync_outbox_messages chains)
