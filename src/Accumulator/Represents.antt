-- ===== src/Accumulator/Represents.antt =====
-- When a `MerkleTree` of rust/abacus-core/src/accumulator/merkle.rs stands for a function from index
-- to leaf, and the hash that it then has.
use ethmexico.Base.{
  ℕ, zero, suc, ◌+◌, ◌^◌, ◌≤◌, ◌<◌, ◌≡◌, refl, sym, ap, ◌∙◌, List, [], ◌∷◌, length, take, drop, leb,
  leb→le, Bool-cases, inl, inr, get_or-take, get_or-drop, get_or-beyond, false, length-take,
  length-drop, arith,
}
use ethmexico.Base.Bytes.{Bytes, H256, zero_h256}
use ethmexico.Accumulator.{hash_concat, zero_hash}
use ethmexico.Accumulator.Merkle.{MerkleTree, node, zero_tree, hash, create}
use ethmexico.Accumulator.Level.{leaf_at, level, level-split, level-agree, level-zeros}
use native.Mathlib.Nat.{pow-suc}

pub pow-double : (d : ℕ) → 2 ^ suc d ≡ 2 ^ d + 2 ^ d
pow-double d = rw pow-suc (omega arith)

pub pow-pos : (d : ℕ) → 0 < 2 ^ d
pow-pos zero = omega arith
pow-pos (suc d) = omega (arith, pow-double d, pow-pos d)

gt→le : (a b : ℕ) → leb a b ≡ false → b ≤ a
gt→le a b h = ground arith

module _ (keccak : Bytes → Bytes) where
  abbrev pub Represents : ℕ → (ℕ → H256) → MerkleTree → Type 0
  Represents zero f (MerkleTree.leaf h) = h ≡ f 0
  Represents zero f (node h l r) = ⊥
  Represents zero f (zero_tree n) = (n ≡ 0) × ((k : ℕ) → k < 1 → f k ≡ zero_h256)
  Represents (suc d) f (MerkleTree.leaf h) = ⊥
  Represents (suc d) f (node h l r) =
      (h ≡ hash_concat keccak (hash keccak l) (hash keccak r))
      × Represents d f l
      × Represents d (λ k. f (2 ^ d + k)) r
  Represents (suc d) f (zero_tree n) = (n ≡ suc d) × ((k : ℕ) → k < 2 ^ suc d → f k ≡ zero_h256)

  zeros_hash :
      (d : ℕ) (f : ℕ → H256)
      → ((k : ℕ) → k < 2 ^ d → f k ≡ zero_h256)
      → zero_hash keccak d ≡ level keccak d f 0
  unfolding zero_hash
  zeros_hash d f h =
      ap (zero_hash keccak) (omega arith)
      ∙ sym (level-zeros keccak d (λ k. zero_h256) 0 (λ k. refl) 0)
      ∙ sym (level-agree keccak d f (λ k. zero_h256) 1 (λ k lt. h k (omega arith)) 0 (omega arith))

  pub hash-Represents :
      (d : ℕ) (f : ℕ → H256) (t : MerkleTree)
      → Represents d f t
      → hash keccak t ≡ level keccak d f 0
  unfolding hash level
  hash-Represents zero f (MerkleTree.leaf h) r = r
  hash-Represents zero f (node h a b) r = absurd r
  hash-Represents zero f (zero_tree n) r = ap (zero_hash keccak) r.0 ∙ zeros_hash zero f r.1
  hash-Represents (suc d) f (MerkleTree.leaf h) r = absurd r
  hash-Represents (suc d) f (node h a b) r =
      r.0
      ∙ (λ i.
          hash_concat keccak (hash-Represents d f a r.1 i)
            (hash-Represents d (λ k. f (2 ^ d + k)) b r.2 i))
      ∙ sym (level-split keccak d f)
  hash-Represents (suc d) f (zero_tree n) r = ap (zero_hash keccak) r.0 ∙ zeros_hash (suc d) f r.1

  pub Represents-agree :
      (d : ℕ) (f g : ℕ → H256) (t : MerkleTree)
      → ((k : ℕ) → k < 2 ^ d → f k ≡ g k)
      → Represents d f t
      → Represents d g t
  Represents-agree zero f g (MerkleTree.leaf h) e r = r ∙ e 0 (omega arith)
  Represents-agree zero f g (node h a b) e r = absurd r
  Represents-agree zero f g (zero_tree n) e r = (r.0, λ k lt. sym (e k lt) ∙ r.1 k lt)
  Represents-agree (suc d) f g (MerkleTree.leaf h) e r = absurd r
  Represents-agree (suc d) f g (node h a b) e r = (
    r.0,
    Represents-agree d f g a (λ k lt. e k (omega (arith, pow-double d))) r.1,
    Represents-agree d (λ k. f (2 ^ d + k)) (λ k. g (2 ^ d + k)) b
        (λ k lt. e (2 ^ d + k) (omega (arith, pow-double d))) r.2,
  )
  Represents-agree (suc d) f g (zero_tree n) e r = (r.0, λ k lt. sym (e k lt) ∙ r.1 k lt)

  -- An empty list of leaves gives the zero tree.
  pub zero_tree-Represents :
      (d : ℕ) (f : ℕ → H256)
      → ((k : ℕ) → k < 2 ^ d → f k ≡ zero_h256)
      → Represents d f (zero_tree d)
  zero_tree-Represents zero f h = (refl, λ k lt. h k lt)
  zero_tree-Represents (suc d) f h = (refl, h)

  pub create-Represents :
      (d : ℕ) (leaves : List H256)
      → length leaves ≤ 2 ^ d
      → Represents d (leaf_at leaves) (create keccak leaves d)
  unfolding create
  create-Represents d [] h = zero_tree-Represents d (leaf_at []) (λ k lt. refl)
  create-Represents zero (x ∷ xs) h = refl
  create-Represents (suc d) (x ∷ xs) h = elim (Bool-cases (leb (length (x ∷ xs)) (2 ^ d))) [
    | inl fits ↦ rw fits (
      refl,
      create-Represents d (x ∷ xs) (leb→le _ _ fits),
      zero_tree-Represents d (λ k. leaf_at (x ∷ xs) (2 ^ d + k))
          (λ k lt. get_or-beyond zero_h256 (x ∷ xs) (2 ^ d + k) (omega (arith, leb→le _ _ fits))),
    )
    | inr over ↦ rw over (
      refl,
      Represents-agree d (leaf_at (take (2 ^ d) (x ∷ xs))) (leaf_at (x ∷ xs))
          (create keccak (take (2 ^ d) (x ∷ xs)) d)
          (λ k lt. get_or-take zero_h256 (2 ^ d) (x ∷ xs) k lt)
          (create-Represents d (take (2 ^ d) (x ∷ xs))
            (omega (arith, length-take (2 ^ d) (x ∷ xs) (gt→le _ _ over)))),
      Represents-agree d (leaf_at (drop (2 ^ d) (x ∷ xs))) (λ k. leaf_at (x ∷ xs) (2 ^ d + k))
          (create keccak (drop (2 ^ d) (x ∷ xs)) d)
          (λ k lt. get_or-drop zero_h256 (2 ^ d) (x ∷ xs) k)
          (create-Represents d (drop (2 ^ d) (x ∷ xs))
            (omega (arith, length-drop (2 ^ d) (x ∷ xs), pow-double d))),
    )
  ]
