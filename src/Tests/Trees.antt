-- ===== src/Tests/Trees.antt =====
-- Trees, the prover and the builder.
use ethmexico.Base.{
  ℕ, ◌≡◌, ◌+◌, refl, Option, some, List, [], ◌∷◌, ◌++◌, true, length, replicate, arith,
}
use ethmexico.Base.Bytes.{H256, bytes_eq_refl}
use ethmexico.Accumulator.{tree_depth}
use ethmexico.Accumulator.Merkle.{
  pushed, failed, merkle_tree_full, Proof, create, push_leaf, generate_proof, verify_merkle_proof,
  proof_root,
}
use ethmexico.Accumulator.Incremental
use ethmexico.Accumulator.Incremental.{IncrementalMerkle, default_tree, ingest_all}
use ethmexico.Accumulator.Level.{leaf_at, complete_root}
use ethmexico.Accumulator.Push.{push_leaf-create, push_leaf-create_full}
use ethmexico.Accumulator.Inclusion.{verify-generate_proof}
use ethmexico.Accumulator.Ingest.{root-ingest_all}
use ethmexico.Types.{Checkpoint}
use ethmexico.Db.Backend.{Outcome}
use ethmexico.Relayer.Prover
use ethmexico.Relayer.Prover.{Prover, from_slice, from_iter}
use ethmexico.Relayer.Prover.Laws.{Tracks, prove-verify, from_iter-from_slice}
use ethmexico.Relayer.Builder
use ethmexico.Relayer.Builder.{
  MerkleTreeBuilder, new, count, get_proof, ingest_leaf_index, update_to_checkpoint,
}
use ethmexico.Relayer.Builder.Laws.{
  first, Synced, new-Synced, outcome, update_to_checkpoint-Synced, get_proof-update_to_checkpoint,
}
use ethmexico.Tests.Setting.{toy_hash}

abbrev leaf : ℕ → H256
leaf n = replicate 32 n

abbrev three : List H256
three = leaf 1 ∷ (leaf 2 ∷ (leaf 3 ∷ []))

push_leaf-create_example :
    push_leaf toy_hash (leaf 4) 2 (create toy_hash three 2)
    ≡ (create toy_hash (three ++ (leaf 4 ∷ [])) 2, pushed)
push_leaf-create_example = push_leaf-create toy_hash 1 three (leaf 4) (omega arith)

push_leaf-create_full_example :
    push_leaf toy_hash (leaf 4) 1 (create toy_hash (leaf 1 ∷ (leaf 2 ∷ [])) 1)
    ≡ (create toy_hash (leaf 1 ∷ (leaf 2 ∷ [])) 1, failed merkle_tree_full)
push_leaf-create_full_example =
    push_leaf-create_full toy_hash 0 (leaf 1 ∷ (leaf 2 ∷ [])) (leaf 4) refl

verify-generate_proof_example :
    (path : List H256) × (generate_proof toy_hash (create toy_hash three 2) 2 2
      ≡ some (leaf_at three 2, path))
    × (length path ≡ 2)
    × (verify_merkle_proof toy_hash (leaf_at three 2) path 2 2 (complete_root toy_hash 2 three)
        ≡ some true)
verify-generate_proof_example = verify-generate_proof toy_hash 2 three 2 (omega arith) (omega arith)

root-ingest_all_example :
    (t : IncrementalMerkle) × (ingest_all toy_hash (default_tree toy_hash) three ≡ some t)
    × (t.count ≡ length three)
    × (Incremental.root toy_hash t ≡ complete_root toy_hash tree_depth three)
root-ingest_all_example = root-ingest_all toy_hash three (omega arith)

abbrev prover_three : Prover
prover_three = record { count = 3; tree = create toy_hash three tree_depth }

prover_three-Tracks : Tracks toy_hash prover_three three
prover_three-Tracks = record { counted = refl; built = refl }

prove-verify_example :
    (proof : Proof) × (Prover.prove toy_hash prover_three 1 ≡ Prover.ok proof)
    × (proof.leaf ≡ leaf_at three 1)
    × (proof.index ≡ 1)
    × (proof_root toy_hash proof ≡ some (complete_root toy_hash tree_depth three))
    × (Prover.verify toy_hash prover_three proof ≡ Prover.ok tt)
prove-verify_example =
    prove-verify toy_hash prover_three three 1 prover_three-Tracks (omega arith) (omega arith)

from_iter-from_slice_example : from_iter toy_hash three ≡ some (from_slice toy_hash three)
from_iter-from_slice_example = from_iter-from_slice toy_hash three (omega arith)

-- A database that has every leaf.
abbrev all_leaves : ℕ → Outcome (Option H256)
all_leaves k = Outcome.ok (some (leaf k))

abbrev checkpoint : Checkpoint
checkpoint = record {
  outbox_domain = 1000;
  root = complete_root toy_hash tree_depth (first leaf 3);
  index = 2;
}

new-Synced-first : Synced toy_hash all_leaves (new toy_hash all_leaves) (first leaf 0)
unfolding first
new-Synced-first = new-Synced toy_hash all_leaves

update_to_checkpoint-Synced_example :
    (b' : MerkleTreeBuilder) × (update_to_checkpoint toy_hash all_leaves checkpoint
        (new toy_hash all_leaves)
      ≡ (
        b',
        outcome toy_hash all_leaves
            (complete_root toy_hash tree_depth (first leaf (2 + 1)))
            (checkpoint.root),
      ))
    × Synced toy_hash all_leaves b' (first leaf (2 + 1))
    × (count toy_hash all_leaves b' ≡ 2 + 1)
update_to_checkpoint-Synced_example =
    update_to_checkpoint-Synced toy_hash all_leaves leaf 0 checkpoint (new toy_hash all_leaves)
      (λ k h. refl) new-Synced-first (omega arith) (omega arith) (omega arith)

abbrev updated : MerkleTreeBuilder
updated = (update_to_checkpoint toy_hash all_leaves checkpoint (new toy_hash all_leaves)).0

updated_ok :
    update_to_checkpoint toy_hash all_leaves checkpoint (new toy_hash all_leaves)
    ≡ (updated, Builder.ok tt)
updated_ok =
    let (b', run, _, _) =
      update_to_checkpoint-Synced toy_hash all_leaves leaf 0 checkpoint (new toy_hash all_leaves)
        (λ k h. refl) new-Synced-first (omega arith) (omega arith) (omega arith) in
    ends_well _ b' _ run
      (rw (bytes_eq_refl (complete_root toy_hash tree_depth (first leaf 3))) refl)
  where
    ends_well :
        (x : MerkleTreeBuilder × Builder.Result (Unit {0})) (b : MerkleTreeBuilder)
        (r : Builder.Result (Unit {0}))
        → x ≡ (b, r)
        → r ≡ Builder.ok tt
        → x ≡ (x.0, Builder.ok tt)
    ends_well x b r e h = rw (e, h) refl

get_proof-update_to_checkpoint_example :
    (proof : Proof) × (get_proof toy_hash all_leaves updated 1 ≡ Builder.ok proof)
    × (proof.leaf ≡ leaf 1)
    × (proof.index ≡ 1)
    × (proof_root toy_hash proof ≡ some (checkpoint.root))
get_proof-update_to_checkpoint_example =
    get_proof-update_to_checkpoint toy_hash all_leaves leaf 0 checkpoint (new toy_hash all_leaves)
      updated 1 (λ k h. refl) new-Synced-first (omega arith) (omega arith) (omega arith) updated_ok
      (omega arith)
