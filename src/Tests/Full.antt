-- ===== src/Tests/Full.antt =====
-- The full prover.
use ethmexico.Base.{ℕ, ◌≡◌, ◌+◌, ◌^◌, refl, List, length, replicate, zero, suc, ap}
use ethmexico.Base.Bytes.{H256}
use ethmexico.Accumulator.{tree_depth}
use ethmexico.Accumulator.Merkle.{create, merkle_tree_full}
use ethmexico.Relayer.Prover
use ethmexico.Relayer.Prover.{Prover}
use ethmexico.Relayer.Prover.Laws.{Tracks, ingest_full}
use ethmexico.Tests.Setting.{toy_hash}

length-replicate : (n : ℕ) (x : H256) → length (replicate n x) ≡ n
length-replicate zero x = refl
length-replicate (suc n) x = ap suc (length-replicate n x)

leaves : List H256
leaves = replicate (2 ^ 32) (replicate 32 1)

full_prover : Prover
full_prover = record { count = length leaves; tree = create toy_hash leaves tree_depth }

full_prover-Tracks : Tracks toy_hash full_prover leaves
unfolding full_prover
full_prover-Tracks = record { counted = refl; built = refl }

length-leaves : length leaves ≡ 2 ^ 32
unfolding leaves
length-leaves = length-replicate (2 ^ 32) (replicate 32 1)

ingest_full_example : Prover.ingest toy_hash full_prover (replicate 32 2) ≡ (
  record { count = full_prover.count + 1; tree = full_prover.tree },
  Prover.err (Prover.merkle_tree_error merkle_tree_full),
)
ingest_full_example =
    ingest_full toy_hash full_prover leaves (replicate 32 2) full_prover-Tracks length-leaves
