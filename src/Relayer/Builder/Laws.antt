-- ===== src/Relayer/Builder/Laws.antt =====
-- The builder of rust/agents/relayer/src/merkle_tree_builder.rs: its updates to a checkpoint, and the
-- proofs against one.
use ethmexico.Base.{
  ℕ, zero, suc, ◌+◌, ◌-◌, ◌%◌, ◌^◌, ◌≤◌, ◌<◌, ◌≡◌, ◌≢◌, refl, sym, ap, subst, ◌∙◌, List, [], ◌∷◌,
  ◌++◌, length, length-append, Option, get_or-append_left, get_or-append_self, u32_max, some,
  if◌then◌else◌, ne→==, if-pair, Bool-cases, inl, inr, arith, ◌⊎◌,
}
use ethmexico.Base.Bytes.{Bytes, H256, zero_h256, bytes_eq, bytes_eq_refl, bytes_eq→eq}
use ethmexico.Accumulator.{tree_depth}
use ethmexico.Accumulator.Merkle.{Proof, proof_root}
use ethmexico.Accumulator.Incremental
use ethmexico.Accumulator.Incremental.{IncrementalMerkle}
use ethmexico.Accumulator.Level.{leaf_at, complete_root}
use ethmexico.Accumulator.Ingest
use ethmexico.Types.{Checkpoint}
use ethmexico.Db.Backend.{Outcome}
use ethmexico.Relayer.Prover
use ethmexico.Relayer.Prover.{Prover}
use ethmexico.Relayer.Prover.Laws
use ethmexico.Relayer.Builder.{
  MerkleTreeBuilder, Result, ok, err, mismatched_roots, new, get_proof, ingest_leaf_index,
  wait_for_leaf, count, update_loop, check_roots, update_to_checkpoint, turn,
}

-- The first `n` leaves.
unfoldable pub first : (ℕ → H256) → ℕ → List H256
first f zero = []
first f (suc n) = first f n ++ (f n ∷ [])

pub length-first : (f : ℕ → H256) (n : ℕ) → length (first f n) ≡ n
unfolding first
length-first f zero = refl
length-first f (suc n) = omega (arith, length-append (first f n) (f n ∷ []), length-first f n)

pub leaf_at-first : (f : ℕ → H256) (n i : ℕ) → i < n → leaf_at (first f n) i ≡ f i
unfolding first
leaf_at-first f zero i h = absurd (omega arith)
leaf_at-first f (suc n) i h = elim (lt_cases i n h) [
  | inl lt ↦
      get_or-append_left zero_h256 (first f n) (f n ∷ []) i (omega (arith, length-first f n))
      ∙ leaf_at-first f n i lt
  | inr e ↦
      ap (leaf_at (first f n ++ (f n ∷ []))) (e ∙ sym (length-first f n))
      ∙ get_or-append_self zero_h256 (first f n) (f n)
      ∙ ap f (sym e)
]
  where
    lt_cases : (a b : ℕ) → a < suc b → (a < b) ⊎ (a ≡ b)
    lt_cases a b h' = grind arith

module _ (keccak : Bytes → Bytes) (leaf_by_leaf_index : ℕ → Outcome (Option H256)) where
  -- Both trees have taken in the leaves.
  pub record Synced (b : MerkleTreeBuilder) (leaves : List H256) : Type 0 where
    pub prover_tracks : Laws.Tracks keccak b.prover leaves
    pub incremental_tracks : Ingest.Tracks keccak b.incremental leaves

  pub new-Synced : Synced (new keccak leaf_by_leaf_index) []
  unfolding new
  new-Synced = record {
    prover_tracks = Laws.default_prover-Tracks keccak;
    incremental_tracks = Ingest.default_tree-Tracks keccak;
  }

  -- Two trees that have taken in the same leaves have the same root.
  pub roots-Synced :
      (b : MerkleTreeBuilder) (leaves : List H256)
      → Synced b leaves
      → length leaves ≤ u32_max
      → (Prover.root keccak b.prover ≡ complete_root keccak tree_depth leaves)
        × (Incremental.root keccak b.incremental ≡ complete_root keccak tree_depth leaves)
  roots-Synced b leaves v fits = (
    Laws.root-Tracks keccak b.prover leaves v.prover_tracks (omega arith),
    Ingest.root-Tracks keccak b.incremental leaves v.incremental_tracks (omega arith),
  )

  -- Taking in a leaf that the database has, on top of fewer than `u32::MAX` leaves that both trees
  -- have, does not panic: neither tree refuses it, the assertion that their roots are equal holds,
  -- and both have it.
  pub ingest_leaf_index-Synced :
      (i : ℕ) (b : MerkleTreeBuilder) (leaves : List H256) (leaf : H256)
      → leaf_by_leaf_index i ≡ Outcome.ok (some leaf)
      → Synced b leaves
      → length leaves < u32_max
      → (b' : MerkleTreeBuilder) × (ingest_leaf_index keccak leaf_by_leaf_index i b ≡ (b', ok tt))
        × Synced b' (leaves ++ (leaf ∷ []))
  unfolding ingest_leaf_index
  ingest_leaf_index-Synced i b leaves leaf e v room =
      let (p, pushed, pv) =
        Laws.ingest-Tracks keccak b.prover leaves leaf v.prover_tracks (omega arith) in
      let (t, taken, tv) =
        Ingest.ingest-Tracks keccak b.incremental leaves leaf v.incremental_tracks room in
      let next : MerkleTreeBuilder = record { prover = p; incremental = t } in
      let synced : Synced next (leaves ++ (leaf ∷ [])) = record {
        prover_tracks = pv;
        incremental_tracks = tv;
      } in
      let (rp, ri) =
        roots-Synced next (leaves ++ (leaf ∷ [])) synced
          (omega (arith, length-append leaves (leaf ∷ []))) in
      (
        next,
        rw (e, ingest_leaf_index, pushed, taken)
            (rw (rp, ri, bytes_eq_refl (complete_root keccak tree_depth (leaves ++ (leaf ∷ []))))
              refl),
        synced,
      )

  turn-ingest :
      (i : ℕ) (b : MerkleTreeBuilder) (leaf : H256)
      → leaf_by_leaf_index i ≡ Outcome.ok (some leaf)
      → turn keccak leaf_by_leaf_index i b ≡ ingest_leaf_index keccak leaf_by_leaf_index i b
  unfolding wait_for_leaf
  turn-ingest i b leaf e = rw (e, turn, wait_for_leaf) refl

  update_loop-Synced :
      (f : ℕ → H256) (n i : ℕ) (b : MerkleTreeBuilder)
      → ((k : ℕ) → k < i + n → leaf_by_leaf_index k ≡ Outcome.ok (some (f k)))
      → Synced b (first f i)
      → i + n ≤ u32_max
      → (b' : MerkleTreeBuilder) × (update_loop keccak leaf_by_leaf_index n i b ≡ (b', ok tt))
        × Synced b' (first f (i + n))
  unfolding update_loop
  update_loop-Synced f zero i b has v fits =
      (b, refl, subst (λ (m : ℕ). Synced b (first f m)) (omega arith) v)
  update_loop-Synced f (suc n) i b has v fits =
      let (c, step, w) =
        ingest_leaf_index-Synced i b (first f i) (f i) (has i (omega arith)) v
          (omega (arith, length-first f i)) in
      let (d, rest, u) =
        update_loop-Synced f n (suc i) c (λ k lt. has k (omega arith)) (unfold first in w)
          (omega arith) in
      (
        d,
        rw (turn-ingest i b (f i) (has i (omega arith)), step) rest,
        subst (λ (m : ℕ). Synced d (first f m)) (omega arith) u,
      )

  abbrev pub outcome : H256 → H256 → Result (Unit {0})
  outcome r checkpoint_root =
      if bytes_eq r checkpoint_root then ok tt else err (mismatched_roots r r checkpoint_root)

  outcome_ok : (r checkpoint_root : H256) → outcome r checkpoint_root ≡ ok tt → r ≡ checkpoint_root
  outcome_ok r checkpoint_root h = elim (Bool-cases (bytes_eq r checkpoint_root)) [
    | inl same ↦ bytes_eq→eq r checkpoint_root same
    | inr other ↦ cc (rw other at h)
  ]

  check_roots-Synced :
      (checkpoint_root : H256) (b : MerkleTreeBuilder) (leaves : List H256)
      → Synced b leaves
      → length leaves ≤ u32_max
      → check_roots keccak leaf_by_leaf_index checkpoint_root b
        ≡ (b, outcome (complete_root keccak tree_depth leaves) checkpoint_root)
  unfolding check_roots
  check_roots-Synced r b leaves v fits =
      let (rp, ri) = roots-Synced b leaves v fits in
      rw (rp, ri, bytes_eq_refl (complete_root keccak tree_depth leaves)) (if-pair _ b (ok tt) _)

  update_to_checkpoint_run :
      (n : ℕ) (c : Checkpoint) (b d : MerkleTreeBuilder)
      → c.index ≢ 0
      → count keccak leaf_by_leaf_index b ≡ n
      → update_loop keccak leaf_by_leaf_index (c.index + 1 - n) n b ≡ (d, ok tt)
      → update_to_checkpoint keccak leaf_by_leaf_index c b
        ≡ check_roots keccak leaf_by_leaf_index c.root d
  unfolding update_to_checkpoint
  update_to_checkpoint_run n c b d pos now run = rw (ne→== c.index 0 pos, now, run) refl

  -- A builder that is level with the first `n` leaves, and a checkpoint at an index from 1 on,
  -- below `u32::MAX` and not before those leaves, whose leaves the database has: the update takes
  -- in the missing leaves with no panic, so that the builder is level with the leaves up to the
  -- index. It succeeds exactly where the checkpoint has the root of the complete tree over these,
  -- and answers `MismatchedRoots` otherwise.
  pub update_to_checkpoint-Synced :
      (f : ℕ → H256) (n : ℕ) (c : Checkpoint) (b : MerkleTreeBuilder)
      → ((k : ℕ) → k ≤ c.index → leaf_by_leaf_index k ≡ Outcome.ok (some (f k)))
      → Synced b (first f n)
      → c.index ≢ 0
      → n ≤ c.index + 1
      → c.index < u32_max
      → (b' : MerkleTreeBuilder) × (update_to_checkpoint keccak leaf_by_leaf_index c b
          ≡ (b', outcome (complete_root keccak tree_depth (first f (c.index + 1))) c.root))
        × Synced b' (first f (c.index + 1))
        × (count keccak leaf_by_leaf_index b' ≡ c.index + 1)
  unfolding count
  update_to_checkpoint-Synced f n c b has v pos behind fits =
      let counted : b.prover.count ≡ n = v.prover_tracks.counted ∙ length-first f n in
      let now : b.prover.count % 2 ^ 32 ≡ n = omega (arith, counted) in
      let (d, run, w) =
        update_loop-Synced f (c.index + 1 - n) n b (λ k lt. has k (omega arith)) v (omega arith) in
      let all : n + (c.index + 1 - n) ≡ c.index + 1 = omega arith in
      let u : Synced d (first f (c.index + 1)) = subst (λ (m : ℕ). Synced d (first f m)) all w in
      (
        d,
        update_to_checkpoint_run n c b d pos now run
            ∙ (check_roots-Synced c.root d (first f (c.index + 1)) u
                (omega (arith, length-first f (c.index + 1)))),
        u,
        omega (arith, u.prover_tracks.counted, length-first f (c.index + 1)),
      )

  proves :
      (b : MerkleTreeBuilder) (leaf_index : ℕ) (proof : Proof)
      → Prover.prove keccak b.prover leaf_index ≡ Prover.ok proof
      → get_proof keccak leaf_by_leaf_index b leaf_index ≡ ok proof
  unfolding get_proof
  proves b leaf_index proof h = rw (h, get_proof) refl

  -- A builder gives a proof of every leaf that it has, up to the root of all.
  pub get_proof-Synced :
      (f : ℕ → H256) (n : ℕ) (b : MerkleTreeBuilder) (leaf_index : ℕ)
      → Synced b (first f n)
      → leaf_index < n
      → n ≤ u32_max
      → (proof : Proof) × (get_proof keccak leaf_by_leaf_index b leaf_index ≡ ok proof)
        × (proof.leaf ≡ f leaf_index)
        × (proof.index ≡ leaf_index)
        × (proof_root keccak proof ≡ some (complete_root keccak tree_depth (first f n)))
  get_proof-Synced f n b leaf_index v lt fits =
      let size : length (first f n) ≡ n = length-first f n in
      let (proof, proved, at_leaf, at_index, up, _) =
        Laws.prove-verify keccak b.prover (first f n) leaf_index v.prover_tracks
          (omega (arith, size)) (omega (arith, size)) in
      (
        proof,
        proves b leaf_index proof proved,
        at_leaf ∙ leaf_at-first f n leaf_index lt,
        at_index,
        up,
      )

  -- A builder that is level with the first `n` leaves, and a checkpoint at an index from 1 on,
  -- below `u32::MAX` and not before those leaves, whose leaves the database has: after an update to
  -- it that succeeded, the builder gives for every leaf up to the checkpoint's index a proof of
  -- that leaf at that index, and the root that it leads to is the checkpoint's.
  pub get_proof-update_to_checkpoint :
      (f : ℕ → H256) (n : ℕ) (c : Checkpoint) (b b' : MerkleTreeBuilder) (leaf_index : ℕ)
      → ((k : ℕ) → k ≤ c.index → leaf_by_leaf_index k ≡ Outcome.ok (some (f k)))
      → Synced b (first f n)
      → c.index ≢ 0
      → n ≤ c.index + 1
      → c.index < u32_max
      → update_to_checkpoint keccak leaf_by_leaf_index c b ≡ (b', ok tt)
      → leaf_index ≤ c.index
      → (proof : Proof) × (get_proof keccak leaf_by_leaf_index b' leaf_index ≡ ok proof)
        × (proof.leaf ≡ f leaf_index)
        × (proof.index ≡ leaf_index)
        × (proof_root keccak proof ≡ some c.root)
  get_proof-update_to_checkpoint f n c b b' leaf_index has v pos behind fits run covered =
      let (d, made, u, _) = update_to_checkpoint-Synced f n c b has v pos behind fits in
      let same : d ≡ b' =
        ap (λ (r : MerkleTreeBuilder × Result (Unit {0})). r.0) (sym made ∙ run) in
      let good : outcome (complete_root keccak tree_depth (first f (c.index + 1))) c.root ≡ ok tt =
        ap (λ (r : MerkleTreeBuilder × Result (Unit {0})). r.1) (sym made ∙ run) in
      let (proof, proved, at_leaf, at_index, up) =
        get_proof-Synced f (c.index + 1) d leaf_index u (omega arith) (omega arith) in
      (
        proof,
        ap (λ (x : MerkleTreeBuilder). get_proof keccak leaf_by_leaf_index x leaf_index) (sym same)
            ∙ proved,
        at_leaf,
        at_index,
        up
            ∙ ap some
                (outcome_ok (complete_root keccak tree_depth (first f (c.index + 1))) c.root good),
      )
