-- ===== src/Accumulator/Merkle.antt =====
-- rust/abacus-core/src/accumulator/merkle.rs: the full tree and its proofs.
use ethmexico.Base.{
  ℕ, zero, suc, ◌/◌, ◌%◌, ◌^◌, ◌==◌, Bool, true, false, if◌then◌else◌, leb, Option, none, some,
  ◌>>=◌, List, [], ◌∷◌, ◌++◌, reverse, length, take, drop,
}
use ethmexico.Base.Bytes.{Bytes, H256, bytes_eq}
use ethmexico.Accumulator.{hash_concat, zero_hash, tree_depth}

pub data MerkleTree : Type 0 where
  leaf : H256 → MerkleTree
  node : H256 → MerkleTree → MerkleTree → MerkleTree
  zero_tree : ℕ → MerkleTree

pub data MerkleTreeError : Type 0 where
  leaf_reached merkle_tree_full invalid depth_too_small : MerkleTreeError

-- What a call of `push_leaf` returns.
pub data PushResult : Type 0 where
  pushed : PushResult
  failed : MerkleTreeError → PushResult

pub record Proof : Type 0 where
  pub leaf : H256
  pub index : ℕ
  pub path : List H256

-- `(index >> i) & 0x01`.
abbrev pub bit : ℕ → ℕ → ℕ
bit index i = index / 2 ^ i % 2

module _ (keccak : Bytes → Bytes) where
  unfoldable pub hash : MerkleTree → H256
  hash (MerkleTree.leaf h) = h
  hash (node h l r) = h
  hash (zero_tree depth) = zero_hash keccak depth

  -- The leaves of the left and of the right subtree.
  abbrev pub split_leaves : List H256 → ℕ → List H256 × List H256
  split_leaves leaves subtree_capacity =
      if leb (length leaves) subtree_capacity
      then (leaves, [])
      else (take subtree_capacity leaves, drop subtree_capacity leaves)

  abbrev pub join : MerkleTree → MerkleTree → MerkleTree
  join left right = node (hash_concat keccak (hash left) (hash right)) left right

  unfoldable pub create : List H256 → ℕ → MerkleTree
  create [] depth = zero_tree depth
  create (x ∷ xs) zero = MerkleTree.leaf x
  create (x ∷ xs) (suc depth) =
      let (left_leaves, right_leaves) = split_leaves (x ∷ xs) (2 ^ depth) in
      join (create left_leaves depth) (create right_leaves depth)

  -- The last statements of the match on a node: the new hash. A failed push changes nothing.
  abbrev pub rehash_right : H256 → MerkleTree → MerkleTree × PushResult → MerkleTree × PushResult
  rehash_right h left (right, pushed) = (join left right, pushed)
  rehash_right h left (right, failed e) = (node h left right, failed e)

  -- The arm for a node beside an empty subtree: a full left side sends the leaf to the right.
  abbrev pub rehash_left :
      H256 → H256 → ℕ → MerkleTree → MerkleTree × PushResult → MerkleTree × PushResult
  rehash_left h elem depth right (left, pushed) = (join left right, pushed)
  rehash_left h elem depth right (left, failed merkle_tree_full) =
      (join left (create (elem ∷ []) depth), pushed)
  rehash_left h elem depth right (left, failed e) = (node h left right, failed e)

  -- The match on the two subtrees, where `depth` is one less than the depth of the node.
  -- `push` is the recursive call at that depth.
  unfoldable pub push_node :
      (MerkleTree → MerkleTree × PushResult)
      → H256
      → ℕ
      → H256
      → MerkleTree
      → MerkleTree
      → MerkleTree × PushResult
  push_node push elem depth h (MerkleTree.leaf a) (MerkleTree.leaf b) =
      (node h (MerkleTree.leaf a) (MerkleTree.leaf b), failed merkle_tree_full)
  push_node push elem depth h (node a l r) (node b l' r') =
      rehash_right h (node a l r) (push (node b l' r'))
  push_node push elem depth h (zero_tree m) (zero_tree n) =
      (join (create (elem ∷ []) depth) (zero_tree n), pushed)
  push_node push elem depth h (MerkleTree.leaf a) (zero_tree n) =
      (join (MerkleTree.leaf a) (create (elem ∷ []) depth), pushed)
  push_node push elem depth h (node a l r) (zero_tree n) =
      rehash_left h elem depth (zero_tree n) (push (node a l r))
  push_node push elem depth h left right = (node h left right, failed invalid)

  unfoldable pub push_leaf : H256 → ℕ → MerkleTree → MerkleTree × PushResult
  push_leaf elem zero t = (t, failed depth_too_small)
  push_leaf elem (suc depth) (MerkleTree.leaf h) = (MerkleTree.leaf h, failed leaf_reached)
  push_leaf elem (suc depth) (zero_tree n) = (create (elem ∷ []) (suc depth), pushed)
  push_leaf elem (suc depth) (node h left right) =
      push_node (push_leaf elem depth) elem depth h left right

  unfoldable pub left_and_right_branches : MerkleTree → Option (MerkleTree × MerkleTree)
  left_and_right_branches (MerkleTree.leaf h) = none
  left_and_right_branches (node h l r) = some (l, r)
  left_and_right_branches (zero_tree zero) = none
  left_and_right_branches (zero_tree (suc depth)) = some (zero_tree depth, zero_tree depth)

  -- The `while` loop, from `current_depth` down to 0.
  unfoldable pub proof_loop : ℕ → ℕ → MerkleTree → List H256 → Option (MerkleTree × List H256)
  proof_loop index zero current_node proof = some (current_node, proof)
  proof_loop index (suc depth) current_node proof = do
    (left, right) ← left_and_right_branches current_node
    elim (bit index depth == 1) [
      | true ↦ proof_loop index depth right (proof ++ (hash left ∷ []))
      | false ↦ proof_loop index depth left (proof ++ (hash right ∷ []))
    ]

  unfoldable pub generate_proof : MerkleTree → ℕ → ℕ → Option (H256 × List H256)
  generate_proof tree index depth = do
    (current_node, proof) ← proof_loop index depth tree []
    some (hash current_node, reverse proof)

  unfoldable pub branch_loop : ℕ → ℕ → H256 → List H256 → H256
  branch_loop index i current [] = current
  branch_loop index i current (next ∷ rest) =
      branch_loop index (suc i)
        (if bit index i == 1
          then hash_concat keccak next current
          else hash_concat keccak current next)
        rest

  -- `none` is the failed assertion on the length.
  unfoldable pub merkle_root_from_branch : H256 → List H256 → ℕ → ℕ → Option H256
  merkle_root_from_branch l branch depth index =
      if length branch == depth then some (branch_loop index 0 l (take depth branch)) else none

  unfoldable pub verify_merkle_proof : H256 → List H256 → ℕ → ℕ → H256 → Option Bool
  verify_merkle_proof l branch depth index root = elim (length branch == depth) [
    | true ↦ do r ← merkle_root_from_branch l branch depth index; some (bytes_eq r root)
    | false ↦ some false
  ]

  unfoldable pub proof_root : Proof → Option H256
  proof_root p = merkle_root_from_branch p.leaf p.path tree_depth p.index
