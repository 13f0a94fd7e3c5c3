-- ===== src/Accumulator/Inclusion.antt =====
-- Proofs of inclusion in rust/abacus-core/src/accumulator/merkle.rs: `generate_proof` and the functions
-- that check what it returns.
use ethmexico.Base.{
  ℕ, zero, suc, ◌+◌, ◌*◌, ◌/◌, ◌%◌, ◌^◌, ◌≤◌, ◌<◌, ◌≡◌, refl, sym, ap, ◌∙◌, List, [], ◌∷◌, ◌++◌,
  reverse, length, length-reverse, reverse-cons, append-nil, append_assoc, take-length, ==-refl,
  ◌==◌, true, false, if◌then◌else◌, Bool-cases, inl, inr, some, ==→eq, arith,
}
use ethmexico.Base.Bytes.{Bytes, H256, bytes_eq_refl}
use ethmexico.Accumulator.{hash_concat, zero_hash}
use ethmexico.Accumulator.Merkle.{
  MerkleTree, node, zero_tree, hash, create, bit, branch_loop, merkle_root_from_branch, proof_loop,
  generate_proof, left_and_right_branches, verify_merkle_proof,
}
use ethmexico.Accumulator.Level.{leaf_at, complete_root}
use ethmexico.Accumulator.Represents.{
  Represents, create-Represents, hash-Represents, zero_tree-Represents, pow-double, pow-pos,
}
use native.Mathlib.Nat.{div-add-mod, mod-lt, add-mul-mod_self_left, mod-eq_of_lt}

halves : (q : ℕ) → q ≡ q % 2 + 2 * (q / 2)
halves q = omega arith

bit_zero : (index i : ℕ) → (bit index i == 1) ≡ false → bit index i ≡ 0
bit_zero index i h = ground arith

mod_double : (n m : ℕ) → 0 < m → n % (m + m) ≡ n % m + n / m % 2 * m
mod_double n m h =
    rw (← whole) at (add-mul-mod_self_left low (m + m) (n / m / 2) ∙ mod-eq_of_lt small)
  where
    low : ℕ
    low = n % m + n / m % 2 * m

    bit_lt : n / m % 2 < 2
    bit_lt = omega arith

    small : low < m + m
    small = grind (arith, mod-lt n h)

    whole : n ≡ low + (m + m) * (n / m / 2)
    whole = omega (arith, div-add-mod n m, ap (λ (t : ℕ). t * m) (halves (n / m)))

-- The lowest `d + 1` bits of an index are its lowest `d` bits and bit `d`.
mod-pow_suc : (index d : ℕ) → index % 2 ^ suc d ≡ index % 2 ^ d + bit index d * 2 ^ d
mod-pow_suc index d = rw (pow-double d) (mod_double index (2 ^ d) (pow-pos d))

module _ (keccak : Bytes → Bytes) (index : ℕ) where
  -- One round of `branch_loop` at level `i`.
  abbrev climb : ℕ → H256 → H256 → H256
  climb i current next =
      if bit index i == 1 then hash_concat keccak next current else hash_concat keccak current next

  branch_loop-append :
      (i : ℕ) (c : H256) (xs : List H256) (x : H256)
      → branch_loop keccak index i c (xs ++ (x ∷ []))
        ≡ climb (i + length xs) (branch_loop keccak index i c xs) x
  unfolding branch_loop
  branch_loop-append i c [] x = ap (λ (k : ℕ). climb k c x) (omega arith)
  branch_loop-append i c (y ∷ xs) x =
      branch_loop-append (suc i) (climb i c y) xs x
      ∙ ap (λ (k : ℕ). climb k (branch_loop keccak index (suc i) (climb i c y) xs) x) (omega arith)

  -- What the proof loop does from `t` down: the node that it reaches, the hashes that it adds, the
  -- leaf that stands there and the way back up.
  abbrev Opens : ℕ → (ℕ → H256) → MerkleTree → List H256 → Type 0
  Opens d f t acc =
      (u : MerkleTree) × (p : List H256) × (proof_loop keccak index d t acc ≡ some (u, acc ++ p))
      × (length p ≡ d)
      × (hash keccak u ≡ f (index % 2 ^ d))
      × (branch_loop keccak index 0 (hash keccak u) (reverse p) ≡ hash keccak t)

  top :
      (d : ℕ) (c x : H256) (p : List H256)
      → length p ≡ d
      → branch_loop keccak index 0 c (reverse (x ∷ p))
        ≡ climb d (branch_loop keccak index 0 c (reverse p)) x
  top d c x p n =
      ap (branch_loop keccak index 0 c) (reverse-cons x p)
      ∙ branch_loop-append 0 c (reverse p) x
      ∙ ap (λ (k : ℕ). climb k (branch_loop keccak index 0 c (reverse p)) x)
          (omega (arith, length-reverse p))

  climb_right :
      (d : ℕ) (c x : H256) → (bit index d == 1) ≡ true → climb d c x ≡ hash_concat keccak x c
  climb_right d c x h = rw h

  climb_left :
      (d : ℕ) (c x : H256) → (bit index d == 1) ≡ false → climb d c x ≡ hash_concat keccak c x
  climb_left d c x h = rw h

  -- One turn of the loop, to the right or to the left.
  Opens-suc :
      (d : ℕ) (f : ℕ → H256) (t l r : MerkleTree) (acc : List H256)
      → left_and_right_branches keccak t ≡ some (l, r)
      → hash keccak t ≡ hash_concat keccak (hash keccak l) (hash keccak r)
      → Opens d f l (acc ++ (hash keccak r ∷ []))
      → Opens d (λ k. f (2 ^ d + k)) r (acc ++ (hash keccak l ∷ []))
      → Opens (suc d) f t acc
  unfolding proof_loop
  Opens-suc d f t l r acc e h left right = elim (Bool-cases (bit index d == 1)) [
    | inl one ↦ (
      right.0,
      hash keccak l ∷ right.1,
      rw (e, one) (right.2 ∙ ap (λ (q : List H256). some (right.0, q)) (append_assoc acc _ _)),
      omega (arith, right.3),
      right.4
          ∙ ap f (
              omega (
                arith,
                mod-pow_suc index d,
                ap (λ (b : ℕ). b * 2 ^ d) (==→eq (bit index d) 1 one),
              )),
      top d (hash keccak right.0) (hash keccak l) right.1 right.3
          ∙ climb_right d _ _ one
          ∙ ap (hash_concat keccak (hash keccak l)) right.5
          ∙ sym h,
    )
    | inr other ↦ (
      left.0,
      hash keccak r ∷ left.1,
      rw (e, other) (left.2 ∙ ap (λ (q : List H256). some (left.0, q)) (append_assoc acc _ _)),
      omega (arith, left.3),
      left.4
          ∙ ap f (
              omega
                (arith, mod-pow_suc index d, ap (λ (b : ℕ). b * 2 ^ d) (bit_zero index d other))),
      top d (hash keccak left.0) (hash keccak r) left.1 left.3
          ∙ climb_left d _ _ other
          ∙ ap (λ (c : H256). hash_concat keccak c (hash keccak r)) left.5
          ∙ sym h,
    )
  ]

  proof_loop-Represents :
      (d : ℕ) (f : ℕ → H256) (t : MerkleTree) (acc : List H256)
      → Represents keccak d f t
      → Opens d f t acc
  unfolding proof_loop hash branch_loop left_and_right_branches zero_hash
  proof_loop-Represents zero f (MerkleTree.leaf h) acc r = (
    MerkleTree.leaf h,
    [],
    ap (λ (q : List H256). some (MerkleTree.leaf h, q)) (sym (append-nil acc)),
    refl,
    r ∙ ap f (omega arith),
    refl,
  )
  proof_loop-Represents zero f (node h a b) acc r = absurd r
  proof_loop-Represents zero f (zero_tree n) acc r = (
    zero_tree n,
    [],
    ap (λ (q : List H256). some (zero_tree n, q)) (sym (append-nil acc)),
    refl,
    ap (zero_hash keccak) r.0 ∙ sym (r.1 (index % 2 ^ 0) (omega arith)),
    refl,
  )
  proof_loop-Represents (suc d) f (MerkleTree.leaf h) acc r = absurd r
  proof_loop-Represents (suc d) f (node h a b) acc r =
      Opens-suc d f (node h a b) a b acc refl r.0
        (proof_loop-Represents d f a (acc ++ (hash keccak b ∷ [])) r.1)
        (proof_loop-Represents d (λ k. f (2 ^ d + k)) b (acc ++ (hash keccak a ∷ [])) r.2)
  proof_loop-Represents (suc d) f (zero_tree n) acc r =
      Opens-suc d f (zero_tree n) (zero_tree d) (zero_tree d) acc
        (ap (left_and_right_branches keccak) (ap zero_tree r.0)) (ap (zero_hash keccak) r.0)
        (proof_loop-Represents d f (zero_tree d) (acc ++ (zero_hash keccak d ∷ []))
          (zero_tree-Represents keccak d f (λ k lt. r.1 k (omega (arith, pow-double d)))))
        (proof_loop-Represents d (λ k. f (2 ^ d + k)) (zero_tree d)
          (acc ++ (zero_hash keccak d ∷ []))
          (zero_tree-Represents keccak d (λ k. f (2 ^ d + k))
            (λ k lt. r.1 (2 ^ d + k) (omega (arith, pow-double d)))))

module _ (keccak : Bytes → Bytes) where
  pub root_of_length :
      (l : H256) (branch : List H256) (depth index : ℕ)
      → length branch ≡ depth
      → merkle_root_from_branch keccak l branch depth index
        ≡ some (branch_loop keccak index 0 l branch)
  unfolding merkle_root_from_branch
  root_of_length l branch depth index h =
      rw (← h) (rw (==-refl (length branch), take-length branch) refl)

  -- For a tree that stands for `f`, `generate_proof` returns the leaf at the index, with as many
  -- hashes as the tree is deep, and these lead back to the tree's hash.
  pub generate_proof-Represents :
      (d : ℕ) (f : ℕ → H256) (t : MerkleTree) (index : ℕ)
      → Represents keccak d f t
      → index < 2 ^ d
      → (path : List H256) × (generate_proof keccak t index d ≡ some (f index, path))
        × (length path ≡ d)
        × (merkle_root_from_branch keccak (f index) path d index ≡ some (hash keccak t))
  unfolding generate_proof merkle_root_from_branch
  generate_proof-Represents d f t index r lt =
      let (u, p, run, n, at_leaf, up) = proof_loop-Represents keccak index d f t [] r in
      let value : hash keccak u ≡ f index = at_leaf ∙ ap f (mod-eq_of_lt lt) in
      let size : length (reverse p) ≡ d = length-reverse p ∙ n in
      (
        reverse p,
        rw run (ap (λ (h : H256). some (h, reverse p)) value),
        size,
        root_of_length (f index) (reverse p) d index size
            ∙ ap some
                (ap (λ (h : H256). branch_loop keccak index 0 h (reverse p)) (sym value) ∙ up),
      )

  pub verify_of_root :
      (l : H256) (branch : List H256) (depth index : ℕ) (root : H256)
      → length branch ≡ depth
      → merkle_root_from_branch keccak l branch depth index ≡ some root
      → verify_merkle_proof keccak l branch depth index root ≡ some true
  unfolding verify_merkle_proof
  verify_of_root l branch depth index root n h =
      let size : (length branch == depth) ≡ true = rw n (==-refl depth) in
      rw (size, verify_merkle_proof) (rw h (ap some (bytes_eq_refl root)))

  -- In the tree created from at most `2 ^ d` leaves, `generate_proof`, without its debug assertions,
  -- does not panic at any index below `2 ^ d`. It returns the leaf at that index (zero beyond the last leaf) and `d` hashes, and
  -- `verify_merkle_proof` accepts these against the root of the complete tree over the leaves.
  pub verify-generate_proof :
      (d : ℕ) (leaves : List H256) (index : ℕ)
      → length leaves ≤ 2 ^ d
      → index < 2 ^ d
      → (path : List H256) × (generate_proof keccak (create keccak leaves d) index d
          ≡ some (leaf_at leaves index, path))
        × (length path ≡ d)
        × (verify_merkle_proof keccak
              (leaf_at leaves index)
              path
              d
              index
              (complete_root keccak d leaves)
            ≡ some true)
  unfolding complete_root
  verify-generate_proof d leaves index fits lt =
      let rep = create-Represents keccak d leaves fits in
      let (path, made, size, up) =
        generate_proof-Represents d (leaf_at leaves) (create keccak leaves d) index rep lt in
      (
        path,
        made,
        size,
        verify_of_root _ path d index _ size
            (up ∙ ap some (hash-Represents keccak d (leaf_at leaves) (create keccak leaves d) rep)),
      )
