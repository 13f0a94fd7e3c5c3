-- ===== src/Accumulator/Incremental.antt =====
-- rust/abacus-core/src/accumulator/incremental.rs: the tree that keeps one hash for each level.
use ethmexico.Base.{
  ℕ, zero, suc, ◌+◌, ◌/◌, ◌%◌, ◌==◌, ltb, u32_max, Bool, if◌then◌else◌, Option, none, some, ◌>>=◌,
  List, [], ◌∷◌,
}
use ethmexico.Base.Bytes.{Bytes, H256, zero_h256, bytes_eq}
use ethmexico.Accumulator.{hash_concat, zero_hash, tree_depth}
use ethmexico.Accumulator.Merkle.{Proof, merkle_root_from_branch}

pub record IncrementalMerkle : Type 0 where
  pub branch : List H256
  pub count : ℕ

module _ (keccak : Bytes → Bytes) where
  -- Entries `i` up to `i + n - 1` of `ZERO_HASHES`.
  unfoldable pub zero_branch : ℕ → ℕ → List H256
  zero_branch i zero = []
  zero_branch i (suc n) = zero_hash keccak i ∷ zero_branch (suc i) n

  unfoldable pub default_tree : IncrementalMerkle
  default_tree = record { branch = zero_branch 0 tree_depth; count = 0 }

  -- The loop of `ingest` over the levels that `branch` has left.
  unfoldable pub ingest_loop : H256 → ℕ → List H256 → List H256
  ingest_loop n size [] = []
  ingest_loop n size (b ∷ bs) =
      let rest = ingest_loop (hash_concat keccak b n) (size / 2) bs in
      if size % 2 == 1 then n ∷ bs else b ∷ rest

  -- `none` is the failed assertion on the count.
  unfoldable pub ingest : IncrementalMerkle → H256 → Option IncrementalMerkle
  ingest t element =
      if ltb t.count u32_max
      then some
          (record { branch = ingest_loop element (t.count + 1) t.branch; count = t.count + 1 })
      else none

  unfoldable pub root_loop : ℕ → H256 → ℕ → List H256 → H256
  root_loop i n size [] = n
  root_loop i n size (elem ∷ bs) =
      root_loop (suc i)
        (if size % 2 == 1
          then hash_concat keccak elem n
          else hash_concat keccak n (zero_hash keccak i))
        (size / 2) bs

  unfoldable pub root : IncrementalMerkle → H256
  root t = root_loop 0 zero_h256 t.count t.branch

  unfoldable pub branch_root : H256 → List H256 → ℕ → Option H256
  branch_root item branch index = merkle_root_from_branch keccak item branch 32 index

  unfoldable pub verify : IncrementalMerkle → Proof → Option Bool
  verify t proof = do
    computed ← branch_root proof.leaf proof.path proof.index
    some (bytes_eq computed (root t))

  -- `ingest` for each leaf in turn.
  unfoldable pub ingest_all : IncrementalMerkle → List H256 → Option IncrementalMerkle
  ingest_all t [] = some t
  ingest_all t (x ∷ xs) = do t' ← ingest t x; ingest_all t' xs
