-- ===== src/Ethereum/Contracts.antt =====
-- The contracts behind rust/chains/abacus-ethereum/src: the outbox and the inbox (outbox.rs, inbox.rs),
-- the inbox's validator manager (validator_manager.rs), and the sending of transactions (tx.rs), with the
-- outcomes of rust/abacus-core/src/traits.
use ethmexico.Base.{
  ℕ, zero, suc, ◌+◌, ◌-◌, ◌^◌, ltb, min, ◌==◌, ◌%◌, Bool, if◌then◌else◌, Option, none, some, List,
  [], ◌∷◌, map,
}
use ethmexico.Base.Bytes.{Bytes, H256}
use ethmexico.Accumulator.Merkle.{Proof}
use ethmexico.Types.{Checkpoint, AbacusMessage, MultisigSignedCheckpoint, encode_message}
use ethmexico.Ethereum.{Reply, ◌>>=◌, answered, as_word}
use ethmexico.Ethereum

pub data OutboxState : Type 0 where
  un_initialized active failed : OutboxState

unfoldable pub outbox_state_of : ℕ → Option OutboxState
outbox_state_of value =
    if value == 0
    then some un_initialized
    else if value == 1
    then some active
    else if value == 2
    then some failed
    else none

pub data MessageStatus : Type 0 where
  unknown processed : MessageStatus

unfoldable pub message_status_of : ℕ → Option MessageStatus
message_status_of value =
    if value == 0 then some unknown else if value == 1 then some processed else none

-- `expect`.
abbrev pub expected : {A : Type 0} → Option A → Reply A
expected none = Ethereum.panicked
expected (some a) = Ethereum.ok a

pub record TxOutcome : Type 0 where
  pub txid : H256
  pub executed : Bool

-- The fields of the ethers crate's receipt that are read.
pub record TransactionReceipt : Type 0 where
  pub transaction_hash : H256
  pub status : Option ℕ

-- `From<TransactionReceipt>`: a receipt without a status is a panic.
unfoldable pub tx_outcome_of : TransactionReceipt → Reply TxOutcome
tx_outcome_of t = do
  status ← expected t.status
  Ethereum.ok (record { txid = t.transaction_hash; executed = status % 2 ^ 32 == 1 })

unfoldable pub state : Option ℕ → Reply OutboxState
unfolding outbox_state_of
state call = do state ← answered call; expected (outbox_state_of state)

unfoldable pub message_status : Option ℕ → Reply MessageStatus
unfolding message_status_of
message_status call = do status ← answered call; expected (message_status_of status)

unfoldable pub count : Option ℕ → Reply ℕ
count call = answered call >>= as_word 32

unfoldable pub latest_cached_checkpoint : ℕ → Option (H256 × ℕ) → Reply Checkpoint
latest_cached_checkpoint domain call = do
  (root, index) ← answered call
  index_u32 ← as_word 32 index
  Ethereum.ok (record { outbox_domain = domain; root = root; index = index_u32 })

-- The block of the call: `none` is the latest one.
unfoldable pub block_with_lag : Option ℕ → Option ℕ → Reply (Option ℕ)
block_with_lag none block_number = Ethereum.ok none
block_with_lag (some lag) block_number = do
  number ← answered block_number
  tip ← as_word 64 number
  Ethereum.ok (some (if ltb tip lag then 0 else tip - lag))

-- `call` answers the contract's call at a block.
unfoldable pub latest_checkpoint :
    ℕ → Option ℕ → Option ℕ → (Option ℕ → Option (H256 × ℕ)) → Reply Checkpoint
unfolding block_with_lag
latest_checkpoint domain maybe_lag block_number call = do
  block ← block_with_lag maybe_lag block_number
  (root, index) ← answered (call block)
  index_u32 ← as_word 32 index
  Ethereum.ok (record { outbox_domain = domain; root = root; index = index_u32 })

-- `status`: the receipt that the node has of a transaction.
unfoldable pub tx_status : Option (Option TransactionReceipt) → Reply (Option TxOutcome)
unfolding tx_outcome_of
tx_status call = do
  receipt_opt ← answered call
  elim receipt_opt [
    | none ↦ Ethereum.ok none
    | some receipt ↦ tx_outcome_of receipt >>= λ outcome. Ethereum.ok (some outcome)
  ]

pub data ChainCommunicationError : Type 0 where
  abacus_error contract_error provider_error : ChainCommunicationError
  dropped_error : H256 → ChainCommunicationError
  db_error custom_error transaction_timeout : ChainCommunicationError

-- What becomes of a transaction: it is not sent; or it is, and the wait for its receipt of at most 300
-- seconds ends with a receipt, without one, with an error, or by the time.
pub data Dispatched : Type 0 where
  not_sent : Dispatched
  confirmed : H256 → TransactionReceipt → Dispatched
  dropped erroneous timed_out : H256 → Dispatched

pub data Sent (A : Type 0) : Type 0 where
  done : A → Sent A
  error : ChainCommunicationError → Sent A
  panic : Sent A

unfoldable pub report_tx : Dispatched → Sent TransactionReceipt
report_tx not_sent = error contract_error
report_tx (confirmed tx_hash receipt) = done receipt
report_tx (dropped tx_hash) = error (dropped_error tx_hash)
report_tx (erroneous tx_hash) = error provider_error
report_tx (timed_out tx_hash) = error transaction_timeout

abbrev pub sent_outcome : Reply TxOutcome → Sent TxOutcome
sent_outcome (Ethereum.ok outcome) = done outcome
sent_outcome Ethereum.failed = error contract_error
sent_outcome Ethereum.panicked = panic

-- `report_tx(tx).await?.into()`, which `dispatch` and `cache_checkpoint` return.
unfoldable pub outcome_of : Sent TransactionReceipt → Sent TxOutcome
unfolding tx_outcome_of
outcome_of (done receipt) = sent_outcome (tx_outcome_of receipt)
outcome_of (error e) = error e
outcome_of panic = panic

-- The arguments of the contract's `process`.
pub record ProcessCall (S : Type 0) : Type 0 where
  pub root : H256
  pub index : ℕ
  pub signatures : List Bytes
  pub message : Bytes
  pub sol_proof : List H256
  pub proof_index : ℕ

-- The first `n` hashes of a path; `none` is a panic of the indexing.
unfoldable pub sol_proof_of : ℕ → List H256 → Option (List H256)
sol_proof_of zero path = some []
sol_proof_of (suc n) [] = none
sol_proof_of (suc n) (h ∷ path) = elim (sol_proof_of n path) [
  | none ↦ none
  | some hs ↦ some (h ∷ hs)
]

abbrev pub saturating_add : ℕ → ℕ → ℕ
saturating_add a b = min (a + b) (2 ^ 256 - 1)

module _ (S : Type 0) (signature_bytes : S → Bytes) where
  unfoldable pub process_call :
      MultisigSignedCheckpoint S → AbacusMessage → Proof → Option (ProcessCall S)
  unfolding sol_proof_of encode_message
  process_call c message proof = elim (sol_proof_of 32 proof.path) [
    | none ↦ none
    | some sol_proof ↦ some (record {
      root = c.checkpoint.root;
      index = c.checkpoint.index;
      signatures = map signature_bytes c.signatures;
      message = encode_message.bytes message;
      sol_proof = sol_proof;
      proof_index = proof.index;
    })
  ]

  -- With the estimate of the gas for a call, and what becomes of a call with some gas.
  unfoldable pub process :
      (ProcessCall S → Option ℕ)
      → (ProcessCall S → ℕ → Dispatched)
      → MultisigSignedCheckpoint S
      → AbacusMessage
      → Proof
      → Sent TxOutcome
  unfolding process_call report_tx outcome_of
  process estimate_gas send c message proof = elim (process_call c message proof) [
    | none ↦ panic
    | some tx ↦ elim (estimate_gas tx) [
      | none ↦ error contract_error
      | some estimate ↦ outcome_of (report_tx (send tx (saturating_add estimate 100000)))
    ]
  ]
