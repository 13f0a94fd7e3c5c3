-- ===== src/Relayer/Builder.antt =====
-- rust/agents/relayer/src/merkle_tree_builder.rs: the prover and the incremental tree, kept level
-- with each other and with the checkpoints. What the database answers for a leaf index is a
-- parameter, `leaf_by_leaf_index` of Db at the store of the moment.
pub mod Laws
use ethmexico.Base.{
  ℕ, zero, suc, ◌+◌, ◌-◌, ◌%◌, ◌^◌, ◌==◌, leb, Bool, true, false, ◌&&◌, not, if◌then◌else◌, Option,
  none, some,
}
use ethmexico.Base.Bytes.{Bytes, H256, bytes_eq}
use ethmexico.Accumulator.Merkle.{Proof}
use ethmexico.Accumulator.Incremental
use ethmexico.Accumulator.Incremental.{IncrementalMerkle, default_tree}
use ethmexico.Types.{Checkpoint}
use ethmexico.Db.Backend
use ethmexico.Db.Backend.{Outcome, DbError}
use ethmexico.Relayer.Prover
use ethmexico.Relayer.Prover.{Prover, ProverError, default_prover}

pub record MerkleTreeBuilder : Type 0 where
  pub prover : Prover
  pub incremental : IncrementalMerkle

pub data MerkleTreeBuilderError : Type 0 where
  mismatched_roots : H256 → H256 → H256 → MerkleTreeBuilderError
  unavailable_leaf : ℕ → MerkleTreeBuilderError
  prover_error : ProverError → MerkleTreeBuilderError
  db_error : DbError → MerkleTreeBuilderError

-- `waiting` is a leaf that the database does not have, so that `wait_for_leaf` goes on polling.
pub data Result {ℓ} (A : Type ℓ) : Type ℓ where
  ok : A → Result A
  err : MerkleTreeBuilderError → Result A
  panic : Result A
  waiting : Result A

module _ (keccak : Bytes → Bytes) (leaf_by_leaf_index : ℕ → Outcome (Option H256)) where
  unfoldable pub new : MerkleTreeBuilder
  new = record { prover = default_prover keccak; incremental = default_tree keccak }

  unfoldable pub get_proof : MerkleTreeBuilder → ℕ → Result Proof
  get_proof b leaf_index = elim (Prover.prove keccak b.prover leaf_index) [
    | Prover.ok proof ↦ ok proof
    | Prover.err e ↦ err (prover_error e)
    | Prover.panic ↦ panic
  ]

  -- The assertion that both trees have one root.
  abbrev pub same_roots : MerkleTreeBuilder → Bool
  same_roots b = bytes_eq (Prover.root keccak b.prover) (Incremental.root keccak b.incremental)

  abbrev pub with_incremental :
      Prover
      → Option IncrementalMerkle
      → MerkleTreeBuilder × Result (Unit {0})
      → MerkleTreeBuilder × Result (Unit {0})
  with_incremental prover none old = (old.0, panic)
  with_incremental prover (some incremental) old =
      let b : MerkleTreeBuilder = record { prover = prover; incremental = incremental } in
      if same_roots b then (b, ok tt) else (b, panic)

  abbrev pub with_prover :
      MerkleTreeBuilder → H256 → Prover × Prover.Result H256 → MerkleTreeBuilder × Result (Unit {0})
  with_prover b leaf (prover, Prover.ok h) =
      with_incremental prover (Incremental.ingest keccak b.incremental leaf) (b, panic)
  with_prover b leaf (prover, Prover.err e) = (record b { prover = prover }, panic)
  with_prover b leaf (prover, Prover.panic) = (record b { prover = prover }, panic)

  unfoldable pub ingest_leaf_index : ℕ → MerkleTreeBuilder → MerkleTreeBuilder × Result (Unit {0})
  ingest_leaf_index leaf_index b = elim (leaf_by_leaf_index leaf_index) [
    | Outcome.ok (some leaf) ↦ with_prover b leaf (Prover.ingest keccak b.prover leaf)
    | Outcome.ok none ↦ (b, err (unavailable_leaf leaf_index))
    | Outcome.err e ↦ (b, err (db_error e))
    | Outcome.panic ↦ (b, panic)
  ]

  unfoldable pub wait_for_leaf : ℕ → Result H256
  wait_for_leaf leaf_index = elim (leaf_by_leaf_index leaf_index) [
    | Outcome.ok (some leaf) ↦ ok leaf
    | Outcome.ok none ↦ waiting
    | Outcome.err e ↦ err (db_error e)
    | Outcome.panic ↦ panic
  ]

  -- `as u32`.
  unfoldable pub count : MerkleTreeBuilder → ℕ
  count b = b.prover.count % 2 ^ 32

  abbrev pub proceed :
      (MerkleTreeBuilder → MerkleTreeBuilder × Result (Unit {0}))
      → MerkleTreeBuilder × Result (Unit {0})
      → MerkleTreeBuilder × Result (Unit {0})
  proceed next (b, ok _) = next b
  proceed next (b, err e) = (b, err e)
  proceed next (b, panic) = (b, panic)
  proceed next (b, waiting) = (b, waiting)

  -- One turn of the loop.
  abbrev pub turn : ℕ → MerkleTreeBuilder → MerkleTreeBuilder × Result (Unit {0})
  turn i b = elim (wait_for_leaf i) [
    | ok leaf ↦ ingest_leaf_index i b
    | err e ↦ (b, err e)
    | panic ↦ (b, panic)
    | waiting ↦ (b, waiting)
  ]

  -- `for i in starting_index..=checkpoint.index`, with the number of turns that are left.
  unfoldable pub update_loop : ℕ → ℕ → MerkleTreeBuilder → MerkleTreeBuilder × Result (Unit {0})
  update_loop zero i b = (b, ok tt)
  update_loop (suc n) i b = proceed (update_loop n (suc i)) (turn i b)

  -- The comparison at the end.
  unfoldable pub check_roots : H256 → MerkleTreeBuilder → MerkleTreeBuilder × Result (Unit {0})
  check_roots checkpoint_root b =
      let prover_root = Prover.root keccak b.prover in
      let incremental_root = Incremental.root keccak b.incremental in
      if bytes_eq prover_root incremental_root && bytes_eq prover_root checkpoint_root
      then (b, ok tt)
      else (b, err (mismatched_roots prover_root incremental_root checkpoint_root))

  unfoldable pub update_to_checkpoint :
      Checkpoint → MerkleTreeBuilder → MerkleTreeBuilder × Result (Unit {0})
  update_to_checkpoint checkpoint b =
      if checkpoint.index == 0
      then (b, ok tt)
      else proceed (check_roots checkpoint.root)
          (update_loop (checkpoint.index + 1 - count b) (count b) b)
