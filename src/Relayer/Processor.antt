-- ===== src/Relayer/Processor.antt =====
-- rust/agents/relayer/src/msg/processor.rs: the scan of the messages of an outbox, which sends those
-- that are meant for one inbox to its submitter.
pub mod Steps
pub mod Sends
pub mod Delivers
pub mod Moves
pub mod Scan
use ethmexico.Base.{
  ℕ, ◌+◌, ◌%◌, ◌^◌, ◌==◌, leb, Bool, true, false, not, if◌then◌else◌, Option, none, some, List, [],
  ◌∷◌, ◌++◌,
}
use ethmexico.Base.Bytes.{Bytes, H256}
use ethmexico.Accumulator.Merkle.{Proof}
use ethmexico.Codec
use ethmexico.Types.{
  CommittedMessage, RawCommittedMessage, MultisigSignedCheckpoint, committed_of_raw,
}
use ethmexico.Db.Backend
use ethmexico.Db.Backend.{Rocks, Outcome}
use ethmexico.Db.{retrieve_leaf_processing_status, message_by_leaf_index, leaf_by_leaf_index}
use ethmexico.Relayer.Builder
use ethmexico.Relayer.Builder.{MerkleTreeBuilder, update_to_checkpoint, get_proof, count}
use ethmexico.Relayer.MatchingList.{MatchingList, msg_matches}
use ethmexico.Relayer.Submitter.{SubmitMessageArgs, new_args}

-- `local_domain` is the inbox's, and `tx_msg` what was sent so far. The gauges are left out.
pub record MessageProcessor (S : Type 0) : Type 0 where
  pub local_domain : ℕ
  pub whitelist : MatchingList
  pub blacklist : MatchingList
  pub tx_msg : List (SubmitMessageArgs S)
  pub prover_sync : MerkleTreeBuilder
  pub message_leaf_index : ℕ

-- What a tick meets: the database before and after the wait for a checkpoint, the values that the
-- wait sees in `ckpt_rx` until its sender is gone, whether the submitter still receives, the time.
pub record Moment (S Store : Type 0) : Type 0 where
  pub before : Store
  pub after : Store
  pub seen : List (Option (MultisigSignedCheckpoint S))
  pub receiving : Bool
  pub now : ℕ

-- How a tick ends. `stuck` is one that still polls for a leaf.
pub data Ended : Type 0 where
  fine failing panicked stuck : Ended

module _ (S : Type 0) (rocks : Rocks) (keccak : Bytes → Bytes) (entity : Bytes) where
  open rocks use {Store}

  abbrev pub Processor : Type 0
  Processor = MessageProcessor S

  -- `self.message_leaf_index += 1`, in release mode.
  unfoldable pub advanced : Processor → Processor
  advanced p = record p { message_leaf_index = (p.message_leaf_index + 1) % 2 ^ 32 }

  -- The loop that waits for a checkpoint which covers the index.
  unfoldable pub wait_for_checkpoint :
      ℕ → List (Option (MultisigSignedCheckpoint S)) → Option (MultisigSignedCheckpoint S)
  wait_for_checkpoint i [] = none
  wait_for_checkpoint i (none ∷ seen) = wait_for_checkpoint i seen
  wait_for_checkpoint i (some c ∷ seen) =
      let later = wait_for_checkpoint i seen in if leb i c.checkpoint.index then some c else later

  unfoldable pub send :
      Moment S Store
      → CommittedMessage
      → MultisigSignedCheckpoint S
      → Proof
      → Processor
      → Processor × Ended
  send e message checkpoint proof p =
      let args = new_args p.message_leaf_index message checkpoint proof e.now in
      if e.receiving
      then (advanced (record p { tx_msg = p.tx_msg ++ (args ∷ []) }), fine)
      else (p, failing)

  -- A leaf that is missing is only reported.
  abbrev pub with_leaf :
      Moment S Store
      → CommittedMessage
      → MultisigSignedCheckpoint S
      → Proof
      → Processor
      → Outcome (Option H256)
      → Processor × Ended
  with_leaf e message checkpoint proof p (Outcome.ok (some leaf)) =
      send e message checkpoint proof p
  with_leaf e message checkpoint proof p (Outcome.ok none) = (p, fine)
  with_leaf e message checkpoint proof p (Outcome.err x) = (p, failing)
  with_leaf e message checkpoint proof p Outcome.panic = (p, panicked)

  abbrev pub with_proof :
      Moment S Store
      → CommittedMessage
      → MultisigSignedCheckpoint S
      → Processor
      → Builder.Result Proof
      → Processor × Ended
  with_proof e message checkpoint p (Builder.ok proof) =
      with_leaf e message checkpoint proof p
        (leaf_by_leaf_index rocks keccak entity p.message_leaf_index e.after)
  with_proof e message checkpoint p (Builder.err x) = (p, failing)
  with_proof e message checkpoint p Builder.panic = (p, panicked)
  with_proof e message checkpoint p Builder.waiting = (p, stuck)

  abbrev pub leaves_after : Moment S Store → ℕ → Outcome (Option H256)
  leaves_after e i = leaf_by_leaf_index rocks keccak entity i e.after

  -- The assertion on the count, the proof and what follows it.
  unfoldable pub prove_and_send :
      Moment S Store → CommittedMessage → MultisigSignedCheckpoint S → Processor → Processor × Ended
  prove_and_send e message checkpoint p =
      if (checkpoint.checkpoint.index + 1) % 2 ^ 32 == count keccak (leaves_after e) p.prover_sync
      then with_proof e message checkpoint p
          (get_proof keccak (leaves_after e) p.prover_sync p.message_leaf_index)
      else (p, panicked)

  abbrev pub after_update :
      Moment S Store
      → CommittedMessage
      → MultisigSignedCheckpoint S
      → Processor
      → MerkleTreeBuilder × Builder.Result (Unit {0})
      → Processor × Ended
  after_update e message checkpoint p (b, Builder.ok _) =
      prove_and_send e message checkpoint (record p { prover_sync = b })
  after_update e message checkpoint p (b, Builder.err x) = (record p { prover_sync = b }, failing)
  after_update e message checkpoint p (b, Builder.panic) = (record p { prover_sync = b }, panicked)
  after_update e message checkpoint p (b, Builder.waiting) = (record p { prover_sync = b }, stuck)

  -- The builder is updated only where it does not reach the checkpoint yet.
  unfoldable pub update :
      Moment S Store
      → MultisigSignedCheckpoint S
      → MerkleTreeBuilder
      → MerkleTreeBuilder × Builder.Result (Unit {0})
  update e checkpoint b =
      if leb (count keccak (leaves_after e) b) checkpoint.checkpoint.index
      then update_to_checkpoint keccak (leaves_after e) checkpoint.checkpoint b
      else (b, Builder.ok tt)

  -- `none` is the loss of the sender during the wait.
  abbrev pub forward :
      Moment S Store
      → CommittedMessage
      → Processor
      → Option (MultisigSignedCheckpoint S)
      → Processor × Ended
  forward e message p none = (p, failing)
  forward e message p (some checkpoint) =
      after_update e message checkpoint p (update e checkpoint p.prover_sync)

  -- The three filters.
  unfoldable pub consider : Moment S Store → CommittedMessage → Processor → Processor × Ended
  consider e message p =
      if not (message.message.destination == p.local_domain)
      then (advanced p, fine)
      else if not (msg_matches p.whitelist message.message true)
      then (advanced p, fine)
      else if msg_matches p.blacklist message.message false
      then (advanced p, fine)
      else forward e message p (wait_for_checkpoint p.message_leaf_index e.seen)

  abbrev pub with_message :
      Moment S Store → Processor → Codec.Result CommittedMessage → Processor × Ended
  with_message e p (Codec.ok message) = consider e message p
  with_message e p (Codec.err x) = (p, failing)

  -- A message that is missing is waited for.
  abbrev pub with_raw :
      Moment S Store → Processor → Outcome (Option RawCommittedMessage) → Processor × Ended
  with_raw e p (Outcome.ok (some raw)) = with_message e p (committed_of_raw raw)
  with_raw e p (Outcome.ok none) = (p, fine)
  with_raw e p (Outcome.err x) = (p, failing)
  with_raw e p Outcome.panic = (p, panicked)

  abbrev pub with_status : Moment S Store → Processor → Outcome (Option Bool) → Processor × Ended
  with_status e p (Outcome.ok (some status)) = (advanced p, fine)
  with_status e p (Outcome.ok none) =
      with_raw e p (message_by_leaf_index rocks keccak entity p.message_leaf_index e.before)
  with_status e p (Outcome.err x) = (p, failing)
  with_status e p Outcome.panic = (p, panicked)

  unfoldable pub tick : Moment S Store → Processor → Processor × Ended
  tick e p =
      with_status e p
        (retrieve_leaf_processing_status rocks keccak entity p.message_leaf_index e.before)

  -- `MessageProcessor::new`.
  unfoldable pub starting : ℕ → MatchingList → MatchingList → MerkleTreeBuilder → Processor
  starting local_domain whitelist blacklist prover_sync = record {
    local_domain = local_domain;
    whitelist = whitelist;
    blacklist = blacklist;
    tx_msg = [];
    prover_sync = prover_sync;
    message_leaf_index = 0;
  }

  abbrev pub go_on : (Processor → Processor × Ended) → Processor × Ended → Processor × Ended
  go_on next (p, fine) = next p
  go_on next (p, failing) = (p, failing)
  go_on next (p, panicked) = (p, panicked)
  go_on next (p, stuck) = (p, stuck)

  -- The scan of `main_loop`, over the moments of its ticks.
  unfoldable pub scan : List (Moment S Store) → Processor → Processor × Ended
  scan [] p = (p, fine)
  scan (e ∷ es) p = go_on (scan es) (tick e p)

  -- The wait for a first checkpoint, over the values that `ckpt_rx` changes to until its sender is
  -- gone, and then the scan.
  unfoldable pub main_loop :
      List (Option (MultisigSignedCheckpoint S))
      → List (Moment S Store)
      → Processor
      → Processor × Ended
  main_loop [] es p = (p, failing)
  main_loop (none ∷ seen) es p = main_loop seen es p
  main_loop (some checkpoint ∷ seen) es p = scan es p
