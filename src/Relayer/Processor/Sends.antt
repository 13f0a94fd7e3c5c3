-- ===== src/Relayer/Processor/Sends.antt =====
-- Which messages a tick of rust/agents/relayer/src/msg/processor.rs sends.
use ethmexico.Base.{
  ◌+◌, ◌%◌, ◌^◌, ◌≡◌, ◌≤◌, ◌==◌, ◌⊎◌, inl, inr, refl, Option, none, some, [], ◌∷◌, ◌++◌, Bool,
  if◌then◌else◌, true, false, not, ap, sym, ==→eq,
}
use ethmexico.Base.Bytes.{Bytes}
use ethmexico.Accumulator.Merkle.{Proof}
use ethmexico.Codec
use ethmexico.Types.{
  CommittedMessage, RawCommittedMessage, MultisigSignedCheckpoint, committed_of_raw,
}
use ethmexico.Db.Backend.{Rocks, Outcome}
use ethmexico.Db.{retrieve_leaf_processing_status, message_by_leaf_index}
use ethmexico.Relayer.MatchingList.{msg_matches}
use ethmexico.Relayer.Submitter.{new_args}
use ethmexico.Relayer.Processor.{
  Moment, Ended, fine, Processor, advanced, wait_for_checkpoint, forward, consider, with_message,
  with_raw, with_status, tick,
}
use ethmexico.Relayer.Processor.Steps.{wait_for_checkpoint-covers, forward_cases}

module _ (S : Type 0) (rocks : Rocks) (keccak : Bytes → Bytes) (entity : Bytes) where
  open rocks use {Store}

  -- What is known of a message that was sent.
  pub record Sent (e : Moment S Store) (p p' : Processor S rocks keccak entity) : Type 0 where
    pub raw : RawCommittedMessage
    pub message : CommittedMessage
    pub checkpoint : MultisigSignedCheckpoint S
    pub proof : Proof
    pub appended :
        p'.tx_msg ≡ p.tx_msg ++ (new_args p.message_leaf_index message checkpoint proof e.now ∷ [])
    pub next : p'.message_leaf_index ≡ (p.message_leaf_index + 1) % 2 ^ 32
    pub unprocessed :
        retrieve_leaf_processing_status rocks keccak entity p.message_leaf_index e.before
        ≡ Outcome.ok none
    pub stored :
        message_by_leaf_index rocks keccak entity p.message_leaf_index e.before
        ≡ Outcome.ok (some raw)
    pub decoded : committed_of_raw raw ≡ Codec.ok message
    pub destined : message.message.destination ≡ p.local_domain
    pub listed : msg_matches p.whitelist message.message true ≡ true
    pub unlisted : msg_matches p.blacklist message.message false ≡ false
    pub seen :
        wait_for_checkpoint S rocks keccak entity p.message_leaf_index e.seen ≡ some checkpoint
    pub covered : p.message_leaf_index ≤ checkpoint.checkpoint.index

  consider_cases :
      (e : Moment S Store) (m : CommittedMessage) (p p' : Processor S rocks keccak entity)
      → consider S rocks keccak entity e m p ≡ (p', fine)
      → (p'.tx_msg ≡ p.tx_msg)
        ⊎ (((m.message.destination == p.local_domain) ≡ true)
            × (msg_matches p.whitelist m.message true ≡ true)
            × (msg_matches p.blacklist m.message false ≡ false)
            × (forward S rocks keccak entity e m p
                  (wait_for_checkpoint S rocks keccak entity p.message_leaf_index e.seen)
                ≡ (p', fine)))
  unfolding consider advanced
  consider_cases e m p p' h =
      filters (m.message.destination == p.local_domain) (msg_matches p.whitelist m.message true)
        (msg_matches p.blacklist m.message false) _ h
    where
      filters :
          (a b c : Bool) (r : Processor S rocks keccak entity × Ended)
          → (if not a
              then (record p { message_leaf_index = (p.message_leaf_index + 1) % 2 ^ 32 }, fine)
              else if not b
              then (record p { message_leaf_index = (p.message_leaf_index + 1) % 2 ^ 32 }, fine)
              else if c
              then (record p { message_leaf_index = (p.message_leaf_index + 1) % 2 ^ 32 }, fine)
              else r)
            ≡ (p', fine)
          → (p'.tx_msg ≡ p.tx_msg) ⊎ ((a ≡ true) × (b ≡ true) × (c ≡ false) × (r ≡ (p', fine)))
      filters true true false r h' = inr (refl, refl, refl, h')
      filters true true true r h' =
          inl (ap (λ (q : Processor S rocks keccak entity × Ended). q.0.tx_msg) (sym h'))
      filters true false c r h' =
          inl (ap (λ (q : Processor S rocks keccak entity × Ended). q.0.tx_msg) (sym h'))
      filters false b c r h' =
          inl (ap (λ (q : Processor S rocks keccak entity × Ended). q.0.tx_msg) (sym h'))

  decode_cases :
      (e : Moment S Store) (p p' : Processor S rocks keccak entity)
      (r : Codec.Result CommittedMessage)
      → with_message S rocks keccak entity e p r ≡ (p', fine)
      → (m : CommittedMessage) × (r ≡ Codec.ok m)
        × (consider S rocks keccak entity e m p ≡ (p', fine))
  decode_cases e p p' (Codec.ok m) h = (m, refl, h)
  decode_cases e p p' (Codec.err x) h = cc

  raw_cases :
      (e : Moment S Store) (p p' : Processor S rocks keccak entity)
      (o : Outcome (Option RawCommittedMessage))
      → with_raw S rocks keccak entity e p o ≡ (p', fine)
      → (p'.tx_msg ≡ p.tx_msg)
        ⊎ ((raw : RawCommittedMessage) × (o ≡ Outcome.ok (some raw))
            × (with_message S rocks keccak entity e p (committed_of_raw raw) ≡ (p', fine)))
  raw_cases e p p' (Outcome.ok (some raw)) h = inr (raw, refl, h)
  raw_cases e p p' (Outcome.ok none) h =
      inl (ap (λ (q : Processor S rocks keccak entity × Ended). q.0.tx_msg) (sym h))
  raw_cases e p p' (Outcome.err x) h = cc
  raw_cases e p p' Outcome.panic h = cc

  status_cases :
      (e : Moment S Store) (p p' : Processor S rocks keccak entity) (o : Outcome (Option Bool))
      → with_status S rocks keccak entity e p o ≡ (p', fine)
      → (p'.tx_msg ≡ p.tx_msg)
        ⊎ ((o ≡ Outcome.ok none)
            × (with_raw S rocks keccak entity e p
                  (message_by_leaf_index rocks keccak entity p.message_leaf_index e.before)
                ≡ (p', fine)))
  unfolding advanced
  status_cases e p p' (Outcome.ok (some st)) h =
      inl (ap (λ (q : Processor S rocks keccak entity × Ended). q.0.tx_msg) (sym h))
  status_cases e p p' (Outcome.ok none) h = inr (refl, h)
  status_cases e p p' (Outcome.err x) h = cc
  status_cases e p p' Outcome.panic h = cc

  -- A tick that ends well sends nothing, or one message. That message is the one that the database
  -- has at the index of the scan, not marked as processed, for the inbox's domain, on the whitelist and
  -- not on the blacklist; the checkpoint sent with it covers its index, and the scan goes on by one.
  pub tick_sends :
      (e : Moment S Store) (p p' : Processor S rocks keccak entity)
      → tick S rocks keccak entity e p ≡ (p', fine)
      → (p'.tx_msg ≡ p.tx_msg) ⊎ Sent e p p'
  unfolding tick
  tick_sends e p p' h = elim (status_cases e p p' _ h) [
    | inl kept ↦ inl kept
    | inr (unprocessed, h1) ↦ elim (raw_cases e p p' _ h1) [
      | inl kept ↦ inl kept
      | inr (raw, stored, h2) ↦
          (let (m, decoded, h3) = decode_cases e p p' _ h2 in
            elim (consider_cases e m p p' h3) [
              | inl kept ↦ inl kept
              | inr (destined, listed, unlisted, h4) ↦
                  (let (c, seen, step) = forward_cases S rocks keccak entity e m p p' _ h4 in
                    elim step [
                      | inl kept ↦ inl kept
                      | inr (proof, appended, next) ↦ inr (record {
                        raw = raw;
                        message = m;
                        checkpoint = c;
                        proof = proof;
                        appended = appended;
                        next = next;
                        unprocessed = unprocessed;
                        stored = stored;
                        decoded = decoded;
                        destined = ==→eq m.message.destination p.local_domain destined;
                        listed = listed;
                        unlisted = unlisted;
                        seen = seen;
                        covered =
                            wait_for_checkpoint-covers S rocks keccak entity p.message_leaf_index
                              e.seen c seen;
                      })
                    ])
            ])
    ]
  ]
