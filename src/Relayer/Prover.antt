-- ===== src/Relayer/Prover.antt =====
-- rust/agents/relayer/src/prover.rs: the tree that makes proofs for arbitrary leaves.
pub mod Laws
use ethmexico.Base.{
  ℕ, ◌+◌, ltb, leb, Bool, true, false, if◌then◌else◌, Option, none, some, List, [], ◌∷◌, length,
  take, u32_max,
}
use ethmexico.Base.Bytes.{Bytes, H256, bytes_eq}
use ethmexico.Accumulator.{tree_depth}
use ethmexico.Accumulator.Merkle.{
  MerkleTree, MerkleTreeError, PushResult, pushed, failed, Proof, hash, create, push_leaf,
  generate_proof, merkle_root_from_branch,
}

pub record Prover : Type 0 where
  pub count : ℕ
  pub tree : MerkleTree

pub data ProverError : Type 0 where
  index_too_high : ℕ → ProverError
  zero_proof : ℕ → ℕ → ProverError
  merkle_tree_error : MerkleTreeError → ProverError
  verification_failed : H256 → H256 → ProverError

-- `panic` is an `unwrap` or `expect` on nothing, or a slice out of bounds.
pub data Result {ℓ} (A : Type ℓ) : Type ℓ where
  ok : A → Result A
  err : ProverError → Result A
  panic : Result A

module _ (keccak : Bytes → Bytes) where
  unfoldable pub default_prover : Prover
  default_prover = record { count = 0; tree = create keccak [] tree_depth }

  -- `?` after the push: the count has been raised by then.
  abbrev pub ingested : ℕ → MerkleTree × PushResult → Prover × Result H256
  ingested count (tree, pushed) = (record { count = count; tree = tree }, ok (hash keccak tree))
  ingested count (tree, failed e) =
      (record { count = count; tree = tree }, err (merkle_tree_error e))

  unfoldable pub ingest : Prover → H256 → Prover × Result H256
  ingest p element = ingested (p.count + 1) (push_leaf keccak element tree_depth p.tree)

  unfoldable pub root : Prover → H256
  root p = hash keccak p.tree

  -- `path.copy_from_slice(&hashes[..32])` into an array of 32 hashes.
  abbrev pub proof_of : ℕ → Option (H256 × List H256) → Result Proof
  proof_of index none = panic
  proof_of index (some (l, hashes)) =
      if ltb (length hashes) 32
      then panic
      else ok (record { leaf = l; index = index; path = take 32 hashes })

  unfoldable pub prove : Prover → ℕ → Result Proof
  prove p index =
      if ltb u32_max index
      then err (index_too_high index)
      else if leb p.count index
      then err (zero_proof index p.count)
      else proof_of index (generate_proof keccak p.tree index tree_depth)

  abbrev pub verified : H256 → Option H256 → Result (Unit {0})
  verified expected none = panic
  verified expected (some actual) =
      if bytes_eq expected actual then ok tt else err (verification_failed expected actual)

  unfoldable pub verify : Prover → Proof → Result (Unit {0})
  verify p proof =
      verified (root p)
        (merkle_root_from_branch keccak proof.leaf proof.path tree_depth proof.index)

  -- `From<AsRef<[H256]>>`.
  unfoldable pub from_slice : List H256 → Prover
  from_slice slice = record { count = length slice; tree = create keccak slice tree_depth }

  abbrev pub extended : (Prover → Option Prover) → Prover × Result H256 → Option Prover
  extended next (p, ok h) = next p
  extended next (p, err e) = none
  extended next (p, panic) = none

  -- `extend`, which panics where the tree is full.
  unfoldable pub extend : List H256 → Prover → Option Prover
  extend [] p = some p
  extend (x ∷ xs) p = extended (extend xs) (ingest p x)

  -- `FromIterator`.
  unfoldable pub from_iter : List H256 → Option Prover
  from_iter leaves = extend leaves default_prover
