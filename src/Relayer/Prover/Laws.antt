-- ===== src/Relayer/Prover/Laws.antt =====
-- The prover of rust/agents/relayer/src/prover.rs against the list of leaves that it has taken in.
use ethmexico.Base.{
  ℕ, ◌+◌, ◌^◌, ◌≤◌, ◌<◌, ◌≡◌, refl, sym, ap, subst, ◌∙◌, List, [], ◌∷◌, ◌++◌, length, length-append,
  take, take-length, append-nil, append_assoc, lt→leb, le→ltb, u32_max, some, le→leb, arith,
}
use ethmexico.Base.Bytes.{Bytes, H256, bytes_eq_refl}
use ethmexico.Accumulator.{tree_depth}
use ethmexico.Accumulator.Merkle.{Proof, merkle_tree_full, hash, create, proof_root}
use ethmexico.Accumulator.Level.{leaf_at, complete_root}
use ethmexico.Accumulator.Represents.{hash-Represents, create-Represents}
use ethmexico.Accumulator.Push.{push_leaf-create, push_leaf-create_full}
use ethmexico.Accumulator.Inclusion.{generate_proof-Represents}
use ethmexico.Relayer.Prover.{
  Prover, ok, err, zero_proof, merkle_tree_error, default_prover, ingest, root, prove, verify,
  extend, from_slice, from_iter,
}

module _ (keccak : Bytes → Bytes) where
  -- The prover's tree is the tree of the leaves.
  pub record Tracks (p : Prover) (leaves : List H256) : Type 0 where
    pub counted : p.count ≡ length leaves
    pub built : p.tree ≡ create keccak leaves tree_depth

  pub hash-create :
      (leaves : List H256)
      → length leaves ≤ 2 ^ 32
      → hash keccak (create keccak leaves tree_depth) ≡ complete_root keccak tree_depth leaves
  unfolding complete_root
  hash-create leaves fits =
      hash-Represents keccak tree_depth (leaf_at leaves) _
        (create-Represents keccak tree_depth leaves fits)

  pub default_prover-Tracks : Tracks (default_prover keccak) []
  unfolding default_prover
  default_prover-Tracks = record { counted = refl; built = refl }

  pub root-Tracks :
      (p : Prover) (leaves : List H256)
      → Tracks p leaves
      → length leaves ≤ 2 ^ 32
      → root keccak p ≡ complete_root keccak tree_depth leaves
  unfolding root
  root-Tracks p leaves v fits = ap (hash keccak) v.built ∙ hash-create leaves fits

  pub ingest-Tracks :
      (p : Prover) (leaves : List H256) (element : H256)
      → Tracks p leaves
      → length leaves < 2 ^ 32
      → (p' : Prover) × (ingest keccak p element
          ≡ (p', ok (complete_root keccak tree_depth (leaves ++ (element ∷ [])))))
        × Tracks p' (leaves ++ (element ∷ []))
  unfolding ingest
  ingest-Tracks p leaves element v room =
      let size : length (leaves ++ (element ∷ [])) ≡ length leaves + 1 =
        length-append leaves (element ∷ []) in
      (
        record { count = p.count + 1; tree = create keccak (leaves ++ (element ∷ [])) tree_depth },
        rw v.built (
            rw (push_leaf-create keccak 31 leaves element room)
              (rw (hash-create (leaves ++ (element ∷ [])) (omega (arith, size))) refl)),
        record { counted = omega (arith, size, v.counted); built = refl },
      )

  -- A prover that has taken in 2 ^ 32 leaves refuses another one with `MerkleTreeFull` and keeps its
  -- tree, but raises its count.
  pub ingest_full :
      (p : Prover) (leaves : List H256) (element : H256)
      → Tracks p leaves
      → length leaves ≡ 2 ^ 32
      → ingest keccak p element
        ≡ (record { count = p.count + 1; tree = p.tree }, err (merkle_tree_error merkle_tree_full))
  unfolding ingest
  ingest_full p leaves element v full =
      rw v.built (rw (push_leaf-create_full keccak 31 leaves element full) refl)

  -- A prover that has taken in the leaves one by one is the prover made from all of them at once.
  extend-Tracks :
      (new old : List H256) (p : Prover)
      → Tracks p old
      → length old + length new ≤ 2 ^ 32
      → (p' : Prover) × (extend keccak new p ≡ some p') × Tracks p' (old ++ new)
  unfolding extend
  extend-Tracks [] old p v fits = (p, refl, subst (Tracks p) (sym (append-nil old)) v)
  extend-Tracks (x ∷ xs) old p v fits =
      let (q, made, w) = ingest-Tracks p old x v (omega arith) in
      let (r, rest, u) =
        extend-Tracks xs (old ++ (x ∷ [])) q w (omega (arith, length-append old (x ∷ []))) in
      (r, rw made rest, subst (Tracks r) (append_assoc old (x ∷ []) xs) u)

  -- Taking in at most 2 ^ 32 leaves one by one does not panic, and gives the prover that is made from
  -- the whole list at once.
  pub from_iter-from_slice :
      (leaves : List H256)
      → length leaves ≤ 2 ^ 32
      → from_iter keccak leaves ≡ some (from_slice keccak leaves)
  unfolding from_iter from_slice
  from_iter-from_slice leaves fits =
      let (p, made, v) =
        extend-Tracks leaves [] (default_prover keccak) default_prover-Tracks (omega arith) in
      made ∙ λ i. some (record { count = v.counted i; tree = v.built i })

  -- For every leaf that the prover has taken in, of at most 2 ^ 32, it gives a proof that names the
  -- leaf and the index, leads to the root of the complete tree, and passes the prover's own check.
  pub prove-verify :
      (p : Prover) (leaves : List H256) (index : ℕ)
      → Tracks p leaves
      → length leaves ≤ 2 ^ 32
      → index < length leaves
      → (proof : Proof) × (prove keccak p index ≡ ok proof)
        × (proof.leaf ≡ leaf_at leaves index)
        × (proof.index ≡ index)
        × (proof_root keccak proof ≡ some (complete_root keccak tree_depth leaves))
        × (verify keccak p proof ≡ ok tt)
  unfolding prove verify root proof_root
  prove-verify p leaves index v fits lt =
      let (path, made, size, up) =
        generate_proof-Represents keccak tree_depth (leaf_at leaves)
          (create keccak leaves tree_depth) index (create-Represents keccak tree_depth leaves fits)
          (omega arith) in
      (
        record { leaf = leaf_at leaves index; index = index; path = path },
        rw
            (
              le→ltb u32_max index (omega arith),
              lt→leb p.count index (omega (arith, v.counted)),
              v.built,
              made,
              le→ltb (length path) 32 (omega (arith, size)),
            )
            (rw (ap (λ (n : ℕ). take n path) (sym size) ∙ take-length path) refl),
        refl,
        refl,
        up ∙ ap some (hash-create leaves fits),
        rw (v.built, up, bytes_eq_refl (hash keccak (create keccak leaves tree_depth))) refl,
      )

  -- At an index of a u32 that the prover has no leaf for, `prove` answers `ZeroProof`.
  prove_beyond :
      (p : Prover) (index : ℕ)
      → p.count ≤ index
      → index ≤ u32_max
      → prove keccak p index ≡ err (zero_proof index p.count)
  unfolding prove
  prove_beyond p index h k = rw (le→ltb u32_max index k, le→leb p.count index h) refl
