-- ===== src/Accumulator.antt =====
-- rust/abacus-core/src/accumulator: the Merkle trees of an outbox's messages. `keccak` is the sha3
-- crate's Keccak256, taken as a parameter everywhere below: the trees work over any hash.
pub mod Merkle
pub mod Incremental
pub mod Level
pub mod Represents
pub mod Push
pub mod Inclusion
pub mod Ingest
use ethmexico.Base.{ℕ, zero, suc, ◌++◌}
use ethmexico.Base.Bytes.{Bytes, H256, zero_h256}

abbrev pub tree_depth : ℕ
tree_depth = 32

module _ (keccak : Bytes → Bytes) where
  unfoldable pub hash_concat : H256 → H256 → H256
  hash_concat left right = keccak (left ++ right)

  -- Entry `i` of the table `ZERO_HASHES`, each computed from the one before it. The source's table
  -- ends at entry 32 and a read beyond it panics; no tree of the program is deeper than that.
  unfoldable pub zero_hash : ℕ → H256
  zero_hash zero = zero_h256
  zero_hash (suc i) = hash_concat (zero_hash i) (zero_hash i)
