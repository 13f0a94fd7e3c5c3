-- ===== src/Accumulator/Push.antt =====
-- `push_leaf` of rust/abacus-core/src/accumulator/merkle.rs against `create`.
use ethmexico.Base.{
  ℕ, zero, suc, ◌^◌, ◌≤◌, ◌<◌, ◌≡◌, refl, sym, ap, ◌∙◌, List, [], ◌∷◌, ◌++◌, length, take, drop,
  length-append, length-take, length-drop, take-append_le, drop-append_le, take-append, drop-append,
  le→leb, lt→leb, inl, inr, ◌⊎◌, arith,
}
use ethmexico.Base.Bytes.{Bytes, H256}
use ethmexico.Accumulator.{hash_concat}
use ethmexico.Accumulator.Merkle.{
  MerkleTree, zero_tree, PushResult, pushed, failed, merkle_tree_full, hash, create, join,
  push_leaf, push_node, rehash_right, rehash_left,
}
use ethmexico.Accumulator.Represents.{pow-double, pow-pos}

compare_cases : (a b : ℕ) → (a < b) ⊎ ((a ≡ b) ⊎ (b < a))
compare_cases a b = grind arith

module _ (keccak : Bytes → Bytes) where
  create_fits :
      (d : ℕ) (l : List H256)
      → 0 < length l
      → length l ≤ 2 ^ d
      → create keccak l (suc d) ≡ join keccak (create keccak l d) (zero_tree d)
  unfolding create
  create_fits d [] h fits = absurd (omega arith)
  create_fits d (x ∷ xs) h fits = rw (le→leb (length (x ∷ xs)) (2 ^ d) fits) refl

  create_over :
      (d : ℕ) (l : List H256)
      → 2 ^ d < length l
      → create keccak l (suc d)
        ≡ join keccak (create keccak (take (2 ^ d) l) d) (create keccak (drop (2 ^ d) l) d)
  unfolding create
  create_over d [] over = absurd (omega arith)
  create_over d (x ∷ xs) over = rw (lt→leb (length (x ∷ xs)) (2 ^ d) over) refl

  -- The arm of the match on a node that each shape of the subtrees takes.
  module _ (push : MerkleTree → MerkleTree × PushResult) (e h : H256) (d : ℕ) where
    push_node-right :
        (l r : List H256)
        → 0 < length l
        → 0 < length r
        → push_node keccak push e (suc d) h (create keccak l (suc d)) (create keccak r (suc d))
          ≡ rehash_right keccak h (create keccak l (suc d)) (push (create keccak r (suc d)))
    unfolding push_node create
    push_node-right [] r hl hr = absurd (omega arith)
    push_node-right (x ∷ xs) [] hl hr = absurd (omega arith)
    push_node-right (x ∷ xs) (y ∷ ys) hl hr = refl

    push_node-left :
        (l : List H256)
        → 0 < length l
        → push_node keccak push e (suc d) h (create keccak l (suc d)) (zero_tree (suc d))
          ≡ rehash_left keccak h e (suc d) (zero_tree (suc d)) (push (create keccak l (suc d)))
    unfolding push_node create
    push_node-left [] hl = absurd (omega arith)
    push_node-left (x ∷ xs) hl = refl

  drop_pos : (d : ℕ) (l : List H256) → 2 ^ d < length l → 0 < length (drop (2 ^ d) l)
  drop_pos d l over = omega (arith, length-drop (2 ^ d) l)

  take_pos : (d : ℕ) (l : List H256) → 2 ^ d < length l → 0 < length (take (2 ^ d) l)
  take_pos d l over = omega (arith, length-take (2 ^ d) l (omega arith), pow-pos d)

  -- A push into a node is decided by the push into the subtree that has the last leaf.
  push_over :
      (d : ℕ) (l : List H256) (e : H256)
      → 2 ^ suc d < length l
      → push_leaf keccak e (suc (suc d)) (create keccak l (suc (suc d)))
        ≡ rehash_right keccak
            (hash_concat keccak
              (hash keccak (create keccak (take (2 ^ suc d) l) (suc d)))
              (hash keccak (create keccak (drop (2 ^ suc d) l) (suc d))))
            (create keccak (take (2 ^ suc d) l) (suc d))
            (push_leaf keccak e (suc d) (create keccak (drop (2 ^ suc d) l) (suc d)))
  push_over d l e over = rw (create_over (suc d) l over) (
      unfold push_leaf in
      push_node-right (push_leaf keccak e (suc d)) e _ d (take (2 ^ suc d) l) (drop (2 ^ suc d) l)
        (take_pos (suc d) l over) (drop_pos (suc d) l over))

  push_fits :
      (d : ℕ) (l : List H256) (e : H256)
      → 0 < length l
      → length l ≤ 2 ^ suc d
      → push_leaf keccak e (suc (suc d)) (create keccak l (suc (suc d)))
        ≡ rehash_left keccak
            (hash_concat keccak
              (hash keccak (create keccak l (suc d)))
              (hash keccak (zero_tree (suc d))))
            e
            (suc d)
            (zero_tree (suc d))
            (push_leaf keccak e (suc d) (create keccak l (suc d)))
  push_fits d l e pos fits =
      rw (create_fits (suc d) l pos fits)
        (unfold push_leaf in push_node-left (push_leaf keccak e (suc d)) e _ d l pos)

  -- The tree that was created from `2 ^ depth` leaves, for a depth from 1 on, refuses another one with
  -- `MerkleTreeFull`, and stays as it is.
  pub push_leaf-create_full :
      (d : ℕ) (leaves : List H256) (elem : H256)
      → length leaves ≡ 2 ^ suc d
      → push_leaf keccak elem (suc d) (create keccak leaves (suc d))
        ≡ (create keccak leaves (suc d), failed merkle_tree_full)
  push_leaf-create_full zero [] elem n = absurd (omega arith)
  push_leaf-create_full zero (x ∷ []) elem n = absurd (omega arith)
  push_leaf-create_full zero (x ∷ y ∷ []) elem n = unfold push_leaf push_node create in refl
  push_leaf-create_full zero (x ∷ y ∷ z ∷ zs) elem n = absurd (omega arith)
  push_leaf-create_full (suc d) leaves elem n =
      let over : 2 ^ suc d < length leaves = omega (arith, pow-double (suc d), pow-pos (suc d)) in
      push_over d leaves elem over
      ∙ ap (rehash_right keccak _ (create keccak (take (2 ^ suc d) leaves) (suc d))) (
          push_leaf-create_full d (drop (2 ^ suc d) leaves) elem
            (omega (arith, length-drop (2 ^ suc d) leaves, pow-double (suc d))))
      ∙ rw (create_over (suc d) leaves over) refl

  -- The tree after the push, by the place of the new leaf: left of the middle, right at it, or right
  -- of it.
  create_below :
      (d : ℕ) (l : List H256) (e : H256)
      → length l < 2 ^ d
      → join keccak (create keccak (l ++ (e ∷ [])) d) (zero_tree d)
        ≡ create keccak (l ++ (e ∷ [])) (suc d)
  create_below d l e lt = sym (
      create_fits d (l ++ (e ∷ [])) (omega (arith, length-append l (e ∷ [])))
        (omega (arith, length-append l (e ∷ []))))

  create_middle :
      (d : ℕ) (l : List H256) (e : H256)
      → length l ≡ 2 ^ d
      → join keccak (create keccak l d) (create keccak (e ∷ []) d)
        ≡ create keccak (l ++ (e ∷ [])) (suc d)
  create_middle d l e n = sym (
      create_over d (l ++ (e ∷ [])) (omega (arith, length-append l (e ∷ [])))
      ∙ rw (← n) (rw (take-append l (e ∷ []), drop-append l (e ∷ [])) refl))

  create_above :
      (d : ℕ) (l : List H256) (e : H256)
      → 2 ^ d < length l
      → join keccak
          (create keccak (take (2 ^ d) l) d)
          (create keccak (drop (2 ^ d) l ++ (e ∷ [])) d)
        ≡ create keccak (l ++ (e ∷ [])) (suc d)
  create_above d l e over = sym (
      create_over d (l ++ (e ∷ [])) (omega (arith, length-append l (e ∷ [])))
      ∙ rw
          (
            take-append_le (2 ^ d) l (e ∷ []) (omega arith),
            drop-append_le (2 ^ d) l (e ∷ []) (omega arith),
          )
          refl)

  -- Pushing a leaf into the tree that was created from fewer than `2 ^ depth` leaves succeeds, for a
  -- depth from 1 on, and gives the tree that is created from the leaves and the new one.
  pub push_leaf-create :
      (d : ℕ) (leaves : List H256) (elem : H256)
      → length leaves < 2 ^ suc d
      → push_leaf keccak elem (suc d) (create keccak leaves (suc d))
        ≡ (create keccak (leaves ++ (elem ∷ [])) (suc d), pushed)
  push_leaf-create d [] elem lt = unfold push_leaf create in refl
  push_leaf-create zero (x ∷ []) elem lt = unfold push_leaf push_node create hash in refl
  push_leaf-create zero (x ∷ y ∷ ys) elem lt = absurd (omega arith)
  push_leaf-create (suc d) (x ∷ xs) elem lt =
      let l = x ∷ xs in
      elim (compare_cases (length l) (2 ^ suc d)) [
        | inl below ↦
            push_fits d l elem (omega arith) (omega arith)
            ∙ ap (rehash_left keccak _ elem (suc d) (zero_tree (suc d)))
                (push_leaf-create d l elem below)
            ∙ ap (λ (t : MerkleTree). (t, pushed)) (create_below (suc d) l elem below)
        | inr (inl middle) ↦
            push_fits d l elem (omega arith) (omega arith)
            ∙ ap (rehash_left keccak _ elem (suc d) (zero_tree (suc d)))
                (push_leaf-create_full d l elem middle)
            ∙ ap (λ (t : MerkleTree). (t, pushed)) (create_middle (suc d) l elem middle)
        | inr (inr above) ↦
            push_over d l elem above
            ∙ ap (rehash_right keccak _ (create keccak (take (2 ^ suc d) l) (suc d))) (
                push_leaf-create d (drop (2 ^ suc d) l) elem
                  (omega (arith, length-drop (2 ^ suc d) l, pow-double (suc d))))
            ∙ ap (λ (t : MerkleTree). (t, pushed)) (create_above (suc d) l elem above)
      ]
