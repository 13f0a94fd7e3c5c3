-- ===== src/Relayer/Submitter.antt =====
-- rust/agents/relayer/src/msg/serial_submitter.rs and the messages of msg/mod.rs: the queues from
-- which messages are delivered one at a time.
pub mod Tick
pub mod Delivery
pub mod Progress
use ethmexico.Base.{
  ℕ, ◌+◌, ◌%◌, ◌^◌, ◌≡◌, Bool, true, false, if◌then◌else◌, Option, none, some, List, [], ◌∷◌, ◌++◌,
  length, reverse, max,
}
use ethmexico.Base.Bytes.{Bytes, H256}
use ethmexico.Accumulator.Merkle.{Proof}
use ethmexico.Types.{AbacusMessage, CommittedMessage, MultisigSignedCheckpoint, to_leaf}
use ethmexico.Db.Backend
use ethmexico.Db.Backend.{Rocks, Outcome}
use ethmexico.Db.{mark_leaf_as_processed}
use mathlib.Core.List.{foldl}

pub record SubmitMessageArgs (S : Type 0) : Type 0 where
  pub leaf_index : ℕ
  pub committed_message : CommittedMessage
  pub checkpoint : MultisigSignedCheckpoint S
  pub proof : Proof
  pub enqueue_time : ℕ
  pub num_retries : ℕ

unfoldable pub new_args :
    {S : Type 0}
    → ℕ
    → CommittedMessage
    → MultisigSignedCheckpoint S
    → Proof
    → ℕ
    → SubmitMessageArgs S
new_args leaf_index committed_message checkpoint proof enqueue_time = record {
  leaf_index = leaf_index;
  committed_message = committed_message;
  checkpoint = checkpoint;
  proof = proof;
  enqueue_time = enqueue_time;
  num_retries = 0;
}

pub data MessageStatus : Type 0 where
  unprocessed processed : MessageStatus

-- A call of the destination chain, which may fail.
pub data Answer {ℓ} (A : Type ℓ) : Type ℓ where
  answer : A → Answer A
  failure : Answer A

-- What the chain answers during one tick: the inbox's `message_status` and the validator manager's
-- `process`.
pub record Chain (S : Type 0) : Type 0 where
  pub message_status : H256 → Answer MessageStatus
  pub process : MultisigSignedCheckpoint S → AbacusMessage → Proof → Answer (Unit {0})

-- The gauges and counters; the histogram of times is left out.
pub record SerialSubmitterMetrics : Type 0 where
  pub run_queue_length_gauge : ℕ
  pub wait_queue_length_gauge : ℕ
  pub processed_gauge : ℕ
  pub messages_processed_count : ℕ
  pub max_submitted_leaf_index : ℕ

-- `rx` is what the channel holds, and `connected` whether its sender is alive. `db` is the store.
pub record SerialSubmitter (S Store : Type 0) : Type 0 where
  pub rx : List (SubmitMessageArgs S)
  pub connected : Bool
  pub wait_queue : List (SubmitMessageArgs S)
  pub run_queue : List (SubmitMessageArgs S)
  pub db : Store
  pub metrics : SerialSubmitterMetrics

-- How a tick ends.
pub data Ended : Type 0 where
  fine failing : Ended

module _ (S : Type 0) (rocks : Rocks) (keccak : Bytes → Bytes) (entity : Bytes) where
  open rocks use {Store}

  abbrev pub Submitter : Type 0
  Submitter = SerialSubmitter S Store

  -- The loop over `try_recv`.
  unfoldable pub receive :
      List (SubmitMessageArgs S) → List (SubmitMessageArgs S) → List (SubmitMessageArgs S)
  receive wait_queue [] = wait_queue
  receive wait_queue (msg ∷ rx) = receive (wait_queue ++ (msg ∷ [])) rx

  -- `for msg in self.wait_queue.drain(..).rev()`, each pushed to the front.
  unfoldable pub promote :
      List (SubmitMessageArgs S) → List (SubmitMessageArgs S) → List (SubmitMessageArgs S)
  promote wait_queue run_queue = foldl (λ queue msg. msg ∷ queue) run_queue (reverse wait_queue)

  unfoldable pub recorded : SubmitMessageArgs S → SerialSubmitterMetrics → SerialSubmitterMetrics
  recorded msg m =
      let top = max m.max_submitted_leaf_index msg.leaf_index in
      record m {
        processed_gauge = top;
        messages_processed_count = m.messages_processed_count + 1;
        max_submitted_leaf_index = top;
      }

  abbrev pub after_mark :
      SubmitMessageArgs S → Submitter → Outcome (Unit {0}) × Store → Submitter × Ended
  after_mark msg s (Outcome.ok _, db) =
      (record s { db = db; metrics = recorded msg s.metrics }, fine)
  after_mark msg s (Outcome.err e, db) = (record s { db = db }, failing)
  after_mark msg s (Outcome.panic, db) = (record s { db = db }, failing)

  unfoldable pub record_message_process_success :
      SubmitMessageArgs S → Submitter → Submitter × Ended
  record_message_process_success msg s =
      after_mark msg s (mark_leaf_as_processed rocks keccak entity msg.leaf_index s.db)

  unfoldable pub process_message : Chain S → SubmitMessageArgs S → Submitter → Submitter × Ended
  process_message chain msg s =
      elim (chain.process msg.checkpoint msg.committed_message.message msg.proof) [
        | answer _ ↦ record_message_process_success msg s
        | failure ↦ (s, failing)
      ]

  -- `msg.num_retries += 1`, in release mode.
  abbrev pub retried : SubmitMessageArgs S → SubmitMessageArgs S
  retried msg = record msg { num_retries = (msg.num_retries + 1) % 2 ^ 32 }

  -- A message whose processing failed goes to the back.
  abbrev pub or_requeue : SubmitMessageArgs S → Submitter × Ended → Submitter × Ended
  or_requeue msg (s, fine) = (s, fine)
  or_requeue msg (s, failing) = (record s { run_queue = s.run_queue ++ (retried msg ∷ []) }, fine)

  -- The rest of the tick, with the message taken from the run queue.
  unfoldable pub dispatch : Chain S → SubmitMessageArgs S → Submitter → Submitter × Ended
  dispatch chain msg s = elim (chain.message_status (to_leaf keccak msg.committed_message)) [
    | answer processed ↦ record_message_process_success msg s
    | answer unprocessed ↦ or_requeue msg (process_message chain msg s)
    | failure ↦ (s, failing)
  ]

  -- `pop_front`.
  unfoldable pub pick : Chain S → List (SubmitMessageArgs S) → Submitter → Submitter × Ended
  pick chain [] s = (s, fine)
  pick chain (msg ∷ rest) s = dispatch chain msg (record s { run_queue = rest })

  -- Both queues after the promotion, and the gauges of their lengths.
  unfoldable pub promoted : Submitter → Submitter
  promoted s =
      let run_queue = promote s.wait_queue s.run_queue in
      record s {
        wait_queue = [];
        run_queue = run_queue;
        metrics = record (s.metrics) {
          run_queue_length_gauge = length run_queue;
          wait_queue_length_gauge = 0;
        };
      }

  unfoldable pub received : Submitter → Submitter
  received s = record s { rx = []; wait_queue = receive s.wait_queue s.rx }

  unfoldable pub tick : Chain S → Submitter → Submitter × Ended
  tick chain s =
      let ready = promoted (received s) in
      if s.connected then pick chain ready.run_queue ready else (received s, failing)
