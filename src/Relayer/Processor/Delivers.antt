-- ===== src/Relayer/Processor/Delivers.antt =====
-- A tick of rust/agents/relayer/src/msg/processor.rs that finds a message and a checkpoint for it.
use ethmexico.Base.{
  ℕ, ◌+◌, ◌%◌, ◌^◌, ◌≡◌, ◌≢◌, ◌≤◌, ◌<◌, ◌==◌, inl, inr, refl, Bool-cases, leb, leb→gt, subst,
  u32_max, none, some, [], ◌∷◌, ◌++◌, true, false, ap, ◌∙◌, sym, ==-refl, arith,
}
use ethmexico.Base.Bytes.{Bytes, H256, bytes_eq_refl}
use ethmexico.Accumulator.{tree_depth}
use ethmexico.Accumulator.Merkle.{Proof, proof_root}
use ethmexico.Accumulator.Level.{complete_root}
use ethmexico.Codec
use ethmexico.Types.{
  CommittedMessage, RawCommittedMessage, MultisigSignedCheckpoint, committed_of_raw,
}
use ethmexico.Db.Backend.{Rocks, Outcome}
use ethmexico.Db.{retrieve_leaf_processing_status, message_by_leaf_index}
use ethmexico.Relayer.Builder
use ethmexico.Relayer.Builder.{MerkleTreeBuilder, update_to_checkpoint, get_proof, count}
use ethmexico.Relayer.Builder.Laws.{
  first, length-first, Synced, update_to_checkpoint-Synced, outcome, get_proof-Synced,
}
use ethmexico.Relayer.MatchingList.{msg_matches}
use ethmexico.Relayer.Submitter.{new_args}
use ethmexico.Relayer.Processor.Steps.{wait_for_checkpoint-covers}
use ethmexico.Relayer.Processor.{
  Moment, fine, Processor, advanced, wait_for_checkpoint, send, prove_and_send, after_update,
  update, forward, consider, tick, leaves_after,
}

module _ (S : Type 0) (rocks : Rocks) (keccak : Bytes → Bytes) (entity : Bytes) where
  open rocks use {Store}

  -- A message that the scan finds and that passes the filters.
  pub record Candidate (e : Moment S Store) (p : Processor S rocks keccak entity)
      (m : CommittedMessage) : Type 0 where
    pub raw : RawCommittedMessage
    pub unprocessed :
        retrieve_leaf_processing_status rocks keccak entity p.message_leaf_index e.before
        ≡ Outcome.ok none
    pub stored :
        message_by_leaf_index rocks keccak entity p.message_leaf_index e.before
        ≡ Outcome.ok (some raw)
    pub decoded : committed_of_raw raw ≡ Codec.ok m
    pub destined : m.message.destination ≡ p.local_domain
    pub listed : msg_matches p.whitelist m.message true ≡ true
    pub unlisted : msg_matches p.blacklist m.message false ≡ false

  tick-Candidate :
      (e : Moment S Store) (p : Processor S rocks keccak entity) (m : CommittedMessage)
      → Candidate e p m
      → tick S rocks keccak entity e p
        ≡ forward S rocks keccak entity e m p
            (wait_for_checkpoint S rocks keccak entity p.message_leaf_index e.seen)
  unfolding tick consider
  tick-Candidate e p m c =
      let here : (m.message.destination == p.local_domain) ≡ true =
        rw c.destined (==-refl p.local_domain) in
      rw (c.unprocessed, c.stored, c.decoded, here, c.listed, c.unlisted) refl

  -- The checkpoint's root is that of the leaves up to its index, which are in the database.
  pub record Honest (e : Moment S Store) (f : ℕ → H256) (c : MultisigSignedCheckpoint S)
      : Type 0 where
    pub has :
        (k : ℕ)
        → k ≤ c.checkpoint.index
        → leaves_after S rocks keccak entity e k ≡ Outcome.ok (some (f k))
    pub positive : c.checkpoint.index ≢ 0
    pub fits : c.checkpoint.index < u32_max
    pub signed :
        c.checkpoint.root ≡ complete_root keccak tree_depth (first f (c.checkpoint.index + 1))

  update-Honest :
      (e : Moment S Store) (f : ℕ → H256) (n : ℕ) (c : MultisigSignedCheckpoint S)
      (b : MerkleTreeBuilder)
      → Honest e f c
      → Synced keccak (leaves_after S rocks keccak entity e) b (first f n)
      → n ≤ c.checkpoint.index + 1
      → (b' : MerkleTreeBuilder) × (update S rocks keccak entity e c b ≡ (b', Builder.ok tt))
        × Synced keccak (leaves_after S rocks keccak entity e) b' (first f (c.checkpoint.index + 1))
  unfolding update count
  update-Honest e f n c b h v behind =
      elim (Bool-cases
        (leb (count keccak (leaves_after S rocks keccak entity e) b) c.checkpoint.index)) [
          | inl short ↦
              let (b', made, w, _) =
                update_to_checkpoint-Synced keccak (leaves_after S rocks keccak entity e) f n
                  c.checkpoint b h.has v h.positive behind h.fits in
              (
                b',
                rw short made
                    ∙ ap (λ (r : Builder.Result (Unit {0})). (b', r)) (outcome-same _ _ h.signed),
                w,
              )
          | inr level ↦ (
            b,
            rw level refl,
            subst (λ (k : ℕ). Synced keccak (leaves_after S rocks keccak entity e) b (first f k))
                (reached n level) v,
          )
        ]
    where
      outcome-same :
          (r root : H256)
          → root ≡ r
          → outcome keccak (leaves_after S rocks keccak entity e) r root ≡ Builder.ok tt
      outcome-same r root s = rw (s, bytes_eq_refl r) refl

      counted : b.prover.count ≡ n
      counted = v.prover_tracks.counted ∙ length-first f n

      reached :
          (k : ℕ)
          → leb (b.prover.count % 2 ^ 32) c.checkpoint.index ≡ false
          → n ≡ c.checkpoint.index + 1
      reached k l =
          let over : c.checkpoint.index < b.prover.count % 2 ^ 32 = leb→gt _ _ l in
          let fits = h.fits in omega (arith, over, counted, behind, fits)

  prove_and_send-proof :
      (e : Moment S Store) (m : CommittedMessage) (c : MultisigSignedCheckpoint S)
      (p : Processor S rocks keccak entity) (proof : Proof) (leaf : H256)
      → (c.checkpoint.index + 1) % 2 ^ 32
        ≡ count keccak (leaves_after S rocks keccak entity e) p.prover_sync
      → get_proof keccak (leaves_after S rocks keccak entity e) p.prover_sync p.message_leaf_index
        ≡ Builder.ok proof
      → leaves_after S rocks keccak entity e p.message_leaf_index ≡ Outcome.ok (some leaf)
      → e.receiving ≡ true
      → prove_and_send S rocks keccak entity e m c p ≡ (
        record p {
          tx_msg = p.tx_msg ++ (new_args p.message_leaf_index m c proof e.now ∷ []);
          message_leaf_index = (p.message_leaf_index + 1) % 2 ^ 32;
        },
        fine,
      )
  unfolding prove_and_send send advanced
  prove_and_send-proof e m c p proof leaf counted proved has receiving =
      let here : ((c.checkpoint.index + 1) % 2 ^ 32
            == count keccak (leaves_after S rocks keccak entity e) p.prover_sync)
          ≡ true =
        rw counted (==-refl (count keccak (leaves_after S rocks keccak entity e) p.prover_sync)) in
      rw (here, proved, has, receiving) refl

  forwarded :
      (e : Moment S Store) (p : Processor S rocks keccak entity) (m : CommittedMessage)
      (c : MultisigSignedCheckpoint S) (b : MerkleTreeBuilder)
      → wait_for_checkpoint S rocks keccak entity p.message_leaf_index e.seen ≡ some c
      → update S rocks keccak entity e c p.prover_sync ≡ (b, Builder.ok tt)
      → forward S rocks keccak entity e m p
          (wait_for_checkpoint S rocks keccak entity p.message_leaf_index e.seen)
        ≡ prove_and_send S rocks keccak entity e m c (record p { prover_sync = b })
  forwarded e p m c b wait updated =
      ap (forward S rocks keccak entity e m p) wait
      ∙ ap (after_update S rocks keccak entity e m c p) updated

  -- A message that the database has at the index of the scan, not marked as processed, for the
  -- inbox's domain and passing both lists; a wait that ends with a checkpoint whose index is from 1
  -- on, below `u32::MAX` and not before the leaves that the builder has, whose leaves the database
  -- has and whose root is that of the complete tree over them; and a submitter that receives: then
  -- the tick sends the message, and its assertion on the count holds. The proof sent is of the leaf
  -- at the message's index and leads to the checkpoint's root. The builder then has the leaves up
  -- to the checkpoint, and the scan goes on by one.
  pub tick_delivers :
      (e : Moment S Store) (f : ℕ → H256) (n : ℕ) (p : Processor S rocks keccak entity)
      (m : CommittedMessage) (c : MultisigSignedCheckpoint S)
      → Candidate e p m
      → wait_for_checkpoint S rocks keccak entity p.message_leaf_index e.seen ≡ some c
      → Honest e f c
      → Synced keccak (leaves_after S rocks keccak entity e) p.prover_sync (first f n)
      → n ≤ c.checkpoint.index + 1
      → e.receiving ≡ true
      → (b : MerkleTreeBuilder) × (proof : Proof) × (tick S rocks keccak entity e p ≡ (
        record p {
          prover_sync = b;
          tx_msg = p.tx_msg ++ (new_args p.message_leaf_index m c proof e.now ∷ []);
          message_leaf_index = (p.message_leaf_index + 1) % 2 ^ 32;
        },
        fine,
      ))
        × Synced keccak (leaves_after S rocks keccak entity e) b (first f (c.checkpoint.index + 1))
        × (proof.leaf ≡ f p.message_leaf_index)
        × (proof.index ≡ p.message_leaf_index)
        × (proof_root keccak proof ≡ some c.checkpoint.root)
  unfolding count
  tick_delivers e f n p m c found wait h v behind receiving =
      let covered =
        wait_for_checkpoint-covers S rocks keccak entity p.message_leaf_index e.seen c wait in
      let fits = h.fits in
      let (b, updated, w) = update-Honest e f n c p.prover_sync h v behind in
      let (proof, proved, at_leaf, at_index, up) =
        get_proof-Synced keccak (leaves_after S rocks keccak entity e) f (c.checkpoint.index + 1) b
          p.message_leaf_index w (omega (arith, covered)) (omega (arith, fits)) in
      let counted : b.prover.count ≡ c.checkpoint.index + 1 =
        w.prover_tracks.counted ∙ length-first f (c.checkpoint.index + 1) in
      let sent =
        prove_and_send-proof e m c (record p { prover_sync = b }) proof (f p.message_leaf_index)
          (omega (arith, counted, fits)) proved (h.has p.message_leaf_index covered) receiving in
      (
        b,
        proof,
        tick-Candidate e p m found ∙ forwarded e p m c b wait updated ∙ sent,
        w,
        at_leaf,
        at_index,
        up ∙ ap some (sym h.signed),
      )
