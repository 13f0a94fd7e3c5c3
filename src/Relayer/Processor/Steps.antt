-- ===== src/Relayer/Processor/Steps.antt =====
-- The last part of a tick of rust/agents/relayer/src/msg/processor.rs, from the wait for a checkpoint on.
use ethmexico.Base.{
  ℕ, ◌+◌, ◌%◌, ◌^◌, ◌≡◌, ◌≤◌, ◌⊎◌, inl, inr, refl, leb→le, Bool-cases, leb, subst, Option, none,
  some, List, [], ◌∷◌, ◌++◌, Bool, if◌then◌else◌, ap, sym, arith,
}
use ethmexico.Base.Bytes.{Bytes, H256}
use ethmexico.Accumulator.Merkle.{Proof}
use ethmexico.Types.{CommittedMessage, MultisigSignedCheckpoint}
use ethmexico.Db.Backend.{Rocks, Outcome}
use ethmexico.Relayer.Builder
use ethmexico.Relayer.Builder.{MerkleTreeBuilder, update_to_checkpoint, get_proof, count}
use ethmexico.Relayer.Submitter.{new_args}
use ethmexico.Relayer.Processor.{
  Moment, Ended, fine, panicked, Processor, advanced, wait_for_checkpoint, send, with_proof,
  prove_and_send, after_update, forward, with_leaf,
}

module _ (S : Type 0) (rocks : Rocks) (keccak : Bytes → Bytes) (entity : Bytes) where
  open rocks use {Store}

  -- A checkpoint that the wait ends with covers the index.
  pub wait_for_checkpoint-covers :
      (i : ℕ) (seen : List (Option (MultisigSignedCheckpoint S))) (c : MultisigSignedCheckpoint S)
      → wait_for_checkpoint S rocks keccak entity i seen ≡ some c
      → i ≤ c.checkpoint.index
  unfolding wait_for_checkpoint
  wait_for_checkpoint-covers i [] c h = cc
  wait_for_checkpoint-covers i (none ∷ seen) c h = wait_for_checkpoint-covers i seen c h
  wait_for_checkpoint-covers i (some d ∷ seen) c h = elim (Bool-cases (leb i d.checkpoint.index)) [
    | inl y ↦
        let same : some d ≡ some c = rw y at h in
        let is_it : d ≡ c = cc in
        subst (λ (x : MultisigSignedCheckpoint S). i ≤ x.checkpoint.index) is_it
          (leb→le i d.checkpoint.index y)
    | inr n ↦ wait_for_checkpoint-covers i seen c (rw n at h)
  ]

  -- Either nothing was sent, or this message with a proof of its index.
  abbrev pub Step :
      Moment S Store
      → CommittedMessage
      → MultisigSignedCheckpoint S
      → Processor S rocks keccak entity
      → Processor S rocks keccak entity
      → Type 0
  Step e m c p p' =
      (p'.tx_msg ≡ p.tx_msg)
      ⊎ ((proof : Proof) × (p'.tx_msg
            ≡ p.tx_msg ++ (new_args p.message_leaf_index m c proof e.now ∷ []))
          × (p'.message_leaf_index ≡ (p.message_leaf_index + 1) % 2 ^ 32))

  send_one :
      (e : Moment S Store) (m : CommittedMessage) (c : MultisigSignedCheckpoint S) (proof : Proof)
      (p p' : Processor S rocks keccak entity)
      → send S rocks keccak entity e m c proof p ≡ (p', fine)
      → (p'.tx_msg ≡ p.tx_msg ++ (new_args p.message_leaf_index m c proof e.now ∷ []))
        × (p'.message_leaf_index ≡ (p.message_leaf_index + 1) % 2 ^ 32)
  unfolding send advanced
  send_one e m c proof p p' h = ground arith

  leaf_cases :
      (e : Moment S Store) (m : CommittedMessage) (c : MultisigSignedCheckpoint S) (proof : Proof)
      (p p' : Processor S rocks keccak entity) (o : Outcome (Option H256))
      → with_leaf S rocks keccak entity e m c proof p o ≡ (p', fine)
      → Step e m c p p'
  leaf_cases e m c proof p p' (Outcome.ok (some leaf)) h =
      let (appended, next) = send_one e m c proof p p' h in inr (proof, appended, next)
  leaf_cases e m c proof p p' (Outcome.ok none) h =
      inl (ap (λ (r : Processor S rocks keccak entity × Ended). r.0.tx_msg) (sym h))
  leaf_cases e m c proof p p' (Outcome.err x) h = cc
  leaf_cases e m c proof p p' Outcome.panic h = cc

  proof_cases :
      (e : Moment S Store) (m : CommittedMessage) (c : MultisigSignedCheckpoint S)
      (p p' : Processor S rocks keccak entity) (r : Builder.Result Proof)
      → with_proof S rocks keccak entity e m c p r ≡ (p', fine)
      → Step e m c p p'
  proof_cases e m c p p' (Builder.ok proof) h = leaf_cases e m c proof p p' _ h
  proof_cases e m c p p' (Builder.err x) h = cc
  proof_cases e m c p p' Builder.panic h = cc
  proof_cases e m c p p' Builder.waiting h = cc

  send_cases :
      (e : Moment S Store) (m : CommittedMessage) (c : MultisigSignedCheckpoint S)
      (p p' : Processor S rocks keccak entity)
      → prove_and_send S rocks keccak entity e m c p ≡ (p', fine)
      → Step e m c p p'
  unfolding prove_and_send
  send_cases e m c p p' h = proof_cases e m c p p' _ (if_then _ p' p _ h)
    where
      if_then :
          (b : Bool) (x y : Processor S rocks keccak entity)
          (r : Processor S rocks keccak entity × Ended)
          → (if b then r else (y, panicked)) ≡ (x, fine)
          → r ≡ (x, fine)
      if_then b x y r h' = ground arith

  update_cases :
      (e : Moment S Store) (m : CommittedMessage) (c : MultisigSignedCheckpoint S)
      (p p' : Processor S rocks keccak entity) (r : MerkleTreeBuilder × Builder.Result (Unit {0}))
      → after_update S rocks keccak entity e m c p r ≡ (p', fine)
      → Step e m c p p'
  update_cases e m c p p' (b, Builder.ok _) h = send_cases e m c (record p { prover_sync = b }) p' h
  update_cases e m c p p' (b, Builder.err x) h = cc
  update_cases e m c p p' (b, Builder.panic) h = cc
  update_cases e m c p p' (b, Builder.waiting) h = cc

  pub forward_cases :
      (e : Moment S Store) (m : CommittedMessage) (p p' : Processor S rocks keccak entity)
      (o : Option (MultisigSignedCheckpoint S))
      → forward S rocks keccak entity e m p o ≡ (p', fine)
      → (c : MultisigSignedCheckpoint S) × (o ≡ some c) × Step e m c p p'
  forward_cases e m p p' none h = cc
  forward_cases e m p p' (some c) h = (c, refl, update_cases e m c p p' _ h)
