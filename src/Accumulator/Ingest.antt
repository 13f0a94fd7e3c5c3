-- ===== src/Accumulator/Ingest.antt =====
-- The incremental tree of rust/abacus-core/src/accumulator/incremental.rs against the complete tree.
use ethmexico.Base.{
  ℕ, zero, suc, ◌+◌, ◌-◌, ◌*◌, ◌/◌, ◌%◌, ◌^◌, ◌≤◌, ◌<◌, ◌≡◌, refl, sym, ap, subst, ◌∙◌, List, [],
  ◌∷◌, ◌++◌, length, length-append, get_or-append_left, get_or-append_self, get_or-beyond, lt→ltb,
  u32_max, ◌==◌, Bool-cases, false, inl, inr, some, append_assoc, append-nil, arith, ==→eq,
}
use ethmexico.Base.Bytes.{Bytes, H256, zero_h256}
use ethmexico.Accumulator.{hash_concat, zero_hash, tree_depth}
use ethmexico.Accumulator.Incremental.{
  IncrementalMerkle, zero_branch, default_tree, ingest_loop, ingest, root_loop, root, ingest_all,
}
use ethmexico.Accumulator.Level.{leaf_at, pair, level, complete_root, level-zero_hash}
use ethmexico.Accumulator.Represents.{pow-double}

parity : (s : ℕ) → (s % 2 == 1) ≡ false → 2 * (s / 2) ≡ s
parity s h = ground arith

module _ (keccak : Bytes → Bytes) where
  -- `g` is a level of the tree and `s` the number of its complete nodes. Where that is odd, the
  -- branch has the last of them, which waits for its right sibling.
  abbrev pub Holds : List H256 → (ℕ → H256) → ℕ → Type 0
  Holds [] g s = Unit {0}
  Holds (b ∷ bs) g s = (s % 2 ≡ 1 → b ≡ g (s - 1)) × Holds bs (pair keccak g) (s / 2)

  Holds-agree :
      (bs : List H256) (f g : ℕ → H256) (s : ℕ)
      → ((k : ℕ) → k < s → f k ≡ g k)
      → Holds bs f s
      → Holds bs g s
  Holds-agree [] f g s e h = tt
  Holds-agree (b ∷ bs) f g s e h = (
    λ odd. h.0 odd ∙ e (s - 1) (omega arith),
    Holds-agree bs (pair keccak f) (pair keccak g) (s / 2)
        (λ k lt. rw (e (2 * k) (omega arith), e (2 * k + 1) (omega arith)) refl) h.1,
  )

  Holds-zero : (i n : ℕ) (g : ℕ → H256) → Holds (zero_branch keccak i n) g 0
  unfolding zero_branch
  Holds-zero i zero g = tt
  Holds-zero i (suc n) g = (λ odd. absurd (omega arith), Holds-zero (suc i) n (pair keccak g))

  length-zero_branch : (i n : ℕ) → length (zero_branch keccak i n) ≡ n
  unfolding zero_branch
  length-zero_branch i zero = refl
  length-zero_branch i (suc n) = omega (arith, length-zero_branch (suc i) n)

  length-ingest_loop :
      (n : H256) (size : ℕ) (bs : List H256) → length (ingest_loop keccak n size bs) ≡ length bs
  unfolding ingest_loop
  length-ingest_loop n size [] = refl
  length-ingest_loop n size (b ∷ bs) =
      ground (arith, length-ingest_loop (hash_concat keccak b n) (size / 2) bs)

  -- The two halves of the node that a carry completes.
  carry :
      (g : ℕ → H256) (s : ℕ) (b n : H256)
      → s % 2 ≡ 1
      → b ≡ g (s - 1)
      → n ≡ g s
      → hash_concat keccak b n ≡ pair keccak g (s / 2)
  carry g s b n odd hb hn =
      let low : s - 1 ≡ 2 * (s / 2) = omega arith in
      let high : s ≡ 2 * (s / 2) + 1 = omega arith in
      λ i. hash_concat keccak ((hb ∙ ap g low) i) ((hn ∙ ap g high) i)

  ingest_loop-Holds :
      (bs : List H256) (g : ℕ → H256) (s : ℕ) (n : H256)
      → Holds bs g s
      → n ≡ g s
      → Holds (ingest_loop keccak n (s + 1) bs) g (s + 1)
  unfolding ingest_loop
  ingest_loop-Holds [] g s n h e = tt
  ingest_loop-Holds (b ∷ bs) g s n h e = elim (Bool-cases ((s + 1) % 2 == 1)) [
    | inl stays ↦ rw stays (
      λ odd. e ∙ ap g (omega arith),
      subst (Holds bs (pair keccak g)) (half_even (==→eq _ _ stays)) h.1,
    )
    | inr carries ↦ rw carries (
      λ odd. absurd (omega (arith, parity (s + 1) carries)),
      subst (λ (m : ℕ). Holds (ingest_loop keccak (hash_concat keccak b n) m bs) (pair keccak g) m)
          (half_odd (parity (s + 1) carries))
          (ingest_loop-Holds bs (pair keccak g) (s / 2) (hash_concat keccak b n) h.1 (
            carry g s b n (odd_size (parity (s + 1) carries))
              (h.0 (odd_size (parity (s + 1) carries))) e)),
    )
  ]
    where
      half_even : (s + 1) % 2 ≡ 1 → s / 2 ≡ (s + 1) / 2
      half_even o = omega arith

      odd_size : 2 * ((s + 1) / 2) ≡ s + 1 → s % 2 ≡ 1
      odd_size o = omega arith

      half_odd : 2 * ((s + 1) / 2) ≡ s + 1 → s / 2 + 1 ≡ (s + 1) / 2
      half_odd o = omega arith

  -- `n` is the node of this level that has the first empty leaf below it.
  root_loop-Holds :
      (bs : List H256) (i : ℕ) (g : ℕ → H256) (s : ℕ) (n : H256)
      → Holds bs g s
      → n ≡ g s
      → ((k : ℕ) → s < k → g k ≡ zero_hash keccak i)
      → s < 2 ^ length bs
      → root_loop keccak i n s bs ≡ level keccak (length bs) g 0
  unfolding root_loop level
  root_loop-Holds [] i g s n h e z lt = e ∙ ap g (omega arith)
  root_loop-Holds (b ∷ bs) i g s n h e z lt = elim (Bool-cases (s % 2 == 1)) [
    | inl odd ↦ rw odd (
        root_loop-Holds bs (suc i) (pair keccak g) (s / 2) (hash_concat keccak b n) h.1
          (carry g s b n (==→eq _ _ odd) (h.0 (==→eq _ _ odd)) e) zeros small)
    | inr even ↦ rw even (
        root_loop-Holds bs (suc i) (pair keccak g) (s / 2)
          (hash_concat keccak n (zero_hash keccak i)) h.1 (padded (parity s even)) zeros small)
  ]
    where
      padded : 2 * (s / 2) ≡ s → hash_concat keccak n (zero_hash keccak i) ≡ pair keccak g (s / 2)
      padded q =
          λ j. hash_concat keccak ((e ∙ ap g (sym q)) j) (sym (z (2 * (s / 2) + 1) (omega arith)) j)

      zeros : (k : ℕ) → s / 2 < k → pair keccak g k ≡ zero_hash keccak (suc i)
      zeros k lt' = level-zero_hash keccak i s g i z k (omega arith)

      small : s / 2 < 2 ^ length bs
      small = omega (arith, pow-double (length bs))

  -- The tree `t` has taken in just the leaves of the list.
  pub record Tracks (t : IncrementalMerkle) (leaves : List H256) : Type 0 where
    pub counted : t.count ≡ length leaves
    pub levels : length t.branch ≡ tree_depth
    pub holds : Holds t.branch (leaf_at leaves) (length leaves)

  pub default_tree-Tracks : Tracks (default_tree keccak) []
  unfolding default_tree
  default_tree-Tracks = record {
    counted = refl;
    levels = length-zero_branch 0 tree_depth;
    holds = Holds-zero 0 tree_depth (leaf_at []);
  }

  -- Below the bound of its assertion, `ingest` adds the leaf.
  pub ingest-Tracks :
      (t : IncrementalMerkle) (leaves : List H256) (element : H256)
      → Tracks t leaves
      → length leaves < u32_max
      → (t' : IncrementalMerkle) × (ingest keccak t element ≡ some t')
        × Tracks t' (leaves ++ (element ∷ []))
  unfolding ingest
  ingest-Tracks t leaves element v lt = (
    record { branch = ingest_loop keccak element (t.count + 1) t.branch; count = t.count + 1 },
    rw (lt→ltb t.count u32_max (omega (arith, v.counted))) refl,
    record {
      counted = omega (arith, v.counted, length-append leaves (element ∷ []));
      levels = length-ingest_loop element (t.count + 1) t.branch ∙ v.levels;
      holds =
          subst
            (λ (m : ℕ).
              Holds (ingest_loop keccak element (t.count + 1) t.branch)
                (leaf_at (leaves ++ (element ∷ []))) m)
            (omega (arith, v.counted, length-append leaves (element ∷ [])))
            (ingest_loop-Holds t.branch (leaf_at (leaves ++ (element ∷ []))) t.count element older
              (sym (ap (leaf_at _) v.counted ∙ get_or-append_self zero_h256 leaves element)));
    },
  )
    where
      older : Holds t.branch (leaf_at (leaves ++ (element ∷ []))) t.count
      older =
          subst (λ (m : ℕ). Holds t.branch (leaf_at (leaves ++ (element ∷ []))) m) (sym v.counted)
            (Holds-agree t.branch (leaf_at leaves) (leaf_at (leaves ++ (element ∷ [])))
              (length leaves)
              (λ k lt'. sym (get_or-append_left zero_h256 leaves (element ∷ []) k lt')) v.holds)

  -- The root is the root of the complete tree over the leaves taken in.
  pub root-Tracks :
      (t : IncrementalMerkle) (leaves : List H256)
      → Tracks t leaves
      → length leaves < 2 ^ 32
      → root keccak t ≡ complete_root keccak tree_depth leaves
  unfolding root complete_root zero_hash
  root-Tracks t leaves v lt =
      ap (λ (m : ℕ). root_loop keccak 0 zero_h256 m t.branch) v.counted
      ∙ root_loop-Holds t.branch 0 (leaf_at leaves) (length leaves) zero_h256 v.holds
          (sym (get_or-beyond zero_h256 leaves (length leaves) (omega arith)))
          (λ k lt'. get_or-beyond zero_h256 leaves k (omega arith)) (rw v.levels lt)
      ∙ ap (λ (m : ℕ). level keccak m (leaf_at leaves) 0) v.levels

  pub ingest_all-Tracks :
      (leaves old : List H256) (t : IncrementalMerkle)
      → Tracks t old
      → length old + length leaves ≤ u32_max
      → (t' : IncrementalMerkle) × (ingest_all keccak t leaves ≡ some t')
        × Tracks t' (old ++ leaves)
  unfolding ingest_all
  ingest_all-Tracks [] old t v le = (t, refl, subst (Tracks t) (sym (append-nil old)) v)
  ingest_all-Tracks (x ∷ xs) old t v le =
      let (t', made, v') = ingest-Tracks t old x v (omega arith) in
      let (u, rest, w) =
        ingest_all-Tracks xs (old ++ (x ∷ [])) t' v' (omega (arith, length-append old (x ∷ []))) in
      (u, rw made rest, subst (Tracks u) (append_assoc old (x ∷ []) xs) w)

  -- Up to `u32::MAX` leaves, taken in one by one by the default tree, trip no assertion. The tree
  -- then counts them, and its root is the root of the complete tree of depth 32 over them.
  pub root-ingest_all :
      (leaves : List H256)
      → length leaves ≤ u32_max
      → (t : IncrementalMerkle) × (ingest_all keccak (default_tree keccak) leaves ≡ some t)
        × (t.count ≡ length leaves)
        × (root keccak t ≡ complete_root keccak tree_depth leaves)
  root-ingest_all leaves le =
      let (t, made, v) =
        ingest_all-Tracks leaves [] (default_tree keccak) default_tree-Tracks (omega arith) in
      (t, made, v.counted, root-Tracks t leaves v (omega arith))
