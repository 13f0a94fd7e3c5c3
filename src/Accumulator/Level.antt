-- ===== src/Accumulator/Level.antt =====
-- The specification of the trees of rust/abacus-core/src/accumulator: the root of the complete
-- binary tree over a function from index to leaf, level by level from the leaves up.
use ethmexico.Base.{ℕ, zero, suc, ◌+◌, ◌*◌, ◌^◌, ◌<◌, ◌≡◌, refl, sym, ap, ◌∙◌, List, get_or, arith}
use ethmexico.Base.Bytes.{Bytes, H256, zero_h256}
use ethmexico.Accumulator.{hash_concat, zero_hash}
use native.Mathlib.Nat.{pow-suc}

-- The leaves of the list, then zeros.
abbrev pub leaf_at : List H256 → ℕ → H256
leaf_at leaves i = get_or zero_h256 leaves i

module _ (keccak : Bytes → Bytes) where
  -- One level up: node `j` hashes the nodes `2 * j` and `2 * j + 1`.
  abbrev pub pair : (ℕ → H256) → ℕ → H256
  pair f j = hash_concat keccak (f (2 * j)) (f (2 * j + 1))

  -- Node `j` of level `i`, where the leaves are level 0.
  unfoldable pub level : ℕ → (ℕ → H256) → ℕ → H256
  level zero f = f
  level (suc i) f = level i (pair f)

  -- The root of the complete tree of the given depth over a list of leaves.
  unfoldable pub complete_root : ℕ → List H256 → H256
  complete_root depth leaves = level depth (leaf_at leaves) 0

  pub level-suc : (i : ℕ) (f : ℕ → H256) (j : ℕ) → level (suc i) f j ≡ pair (level i f) j
  unfolding level
  level-suc zero f j = refl
  level-suc (suc i) f j = level-suc i (pair f) j

  level-shift :
      (i : ℕ) (f g : ℕ → H256) (m j : ℕ)
      → ((k : ℕ) → g k ≡ f (m * 2 ^ i + k))
      → level i g j ≡ level i f (m + j)
  unfolding level
  level-shift zero f g m j h = h j ∙ ap f (omega arith)
  level-shift (suc i) f g m j h = level-shift i (pair f) (pair g) m j λ k. paired k
    where
      double : (k : ℕ) → m * 2 ^ suc i + 2 * k ≡ 2 * (m * 2 ^ i + k)
      double k = rw pow-suc (grind arith)

      double_one : (k : ℕ) → m * 2 ^ suc i + (2 * k + 1) ≡ 2 * (m * 2 ^ i + k) + 1
      double_one k = rw pow-suc (grind arith)

      paired : (k : ℕ) → pair g k ≡ pair f (m * 2 ^ i + k)
      paired k = rw (h (2 * k), h (2 * k + 1), double k, double_one k) refl

  -- A tree splits into its halves.
  pub level-split :
      (d : ℕ) (f : ℕ → H256)
      → level (suc d) f 0 ≡ hash_concat keccak (level d f 0) (level d (λ k. f (2 ^ d + k)) 0)
  level-split d f =
      level-suc d f 0
      ∙ ap (hash_concat keccak (level d f 0))
          (sym (level-shift d f (λ k. f (2 ^ d + k)) 1 0 (λ k. ap f (omega arith))))

  -- A node above nothing but zeros is the zero hash of its level.
  pub level-zero_hash :
      (i n : ℕ) (f : ℕ → H256) (e : ℕ)
      → ((k : ℕ) → n < k → f k ≡ zero_hash keccak e)
      → (j : ℕ) → n < 2 * j
      → pair f j ≡ zero_hash keccak (suc e)
  unfolding zero_hash
  level-zero_hash i n f e h j lt = rw (h (2 * j) (omega arith), h (2 * j + 1) (omega arith)) refl

  pub level-agree :
      (i : ℕ) (f g : ℕ → H256) (n : ℕ)
      → ((k : ℕ) → k < n * 2 ^ i → f k ≡ g k)
      → (j : ℕ) → j < n
      → level i f j ≡ level i g j
  unfolding level
  level-agree zero f g n h j lt = h j (omega arith)
  level-agree (suc i) f g n h j lt = level-agree i (pair f) (pair g) n (λ k hk. paired k hk) j lt
    where
      paired : (k : ℕ) → k < n * 2 ^ i → pair f k ≡ pair g k
      paired k hk =
          rw (h (2 * k) (rw pow-suc (grind arith)), h (2 * k + 1) (rw pow-suc (grind arith))) refl

  -- The tree of zero leaves only.
  pub level-zeros :
      (i : ℕ) (f : ℕ → H256) (e : ℕ)
      → ((k : ℕ) → f k ≡ zero_hash keccak e)
      → (j : ℕ) → level i f j ≡ zero_hash keccak (i + e)
  unfolding level zero_hash
  level-zeros zero f e h j = h j ∙ ap (zero_hash keccak) (omega arith)
  level-zeros (suc i) f e h j =
      level-zeros i (pair f) (suc e) (λ k. rw (h (2 * k), h (2 * k + 1)) refl) j
      ∙ ap (zero_hash keccak) (omega arith)
