-- ===== src/Relayer/Processor/Moves.antt =====
-- What one tick of rust/agents/relayer/src/msg/processor.rs does to its scan.
use ethmexico.Base.{
  ℕ, ◌+◌, ◌%◌, ◌^◌, ◌≡◌, ◌≢◌, refl, sym, ap, subst, ◌∙◌, ◌⊎◌, inl, inr, ◌==◌, ==-refl, Bool, true,
  false, not, if◌then◌else◌, Bool-cases, Option, none, some, [], ◌∷◌, ◌++◌,
}
use ethmexico.Base.Bytes.{Bytes, H256}
use ethmexico.Accumulator.Merkle.{Proof}
use ethmexico.Codec
use ethmexico.Types.{
  CommittedMessage, RawCommittedMessage, MultisigSignedCheckpoint, committed_of_raw,
}
use ethmexico.Db.Backend.{Rocks, Outcome}
use ethmexico.Db.{retrieve_leaf_processing_status, message_by_leaf_index}
use ethmexico.Relayer.Builder
use ethmexico.Relayer.Builder.{MerkleTreeBuilder, update_to_checkpoint, get_proof, count}
use ethmexico.Relayer.MatchingList.{MatchingList, msg_matches}
use ethmexico.Relayer.Submitter.{SubmitMessageArgs, new_args}
use ethmexico.Relayer.Processor.{
  Moment, Ended, fine, failing, Processor, advanced, send, with_leaf, with_proof, leaves_after,
  prove_and_send, after_update, forward, consider, with_message, with_raw, with_status, tick,
}

module _ (S : Type 0) (rocks : Rocks) (keccak : Bytes → Bytes) (entity : Bytes) (local_domain : ℕ)
    (whitelist blacklist : MatchingList) where
  open rocks use {Store}

  abbrev P : Type 0
  P = Processor S rocks keccak entity

  -- The database says at some moment that the message at an index needs no sending: it is marked, for
  -- another domain, not on the whitelist, or on the blacklist.
  pub data IsSkipped (e : Moment S Store) (i : ℕ) : Type 0 where
    marked :
        (status : Bool)
        → retrieve_leaf_processing_status rocks keccak entity i e.before ≡ Outcome.ok (some status)
        → IsSkipped e i
    filtered :
        (raw : RawCommittedMessage) (m : CommittedMessage)
        → message_by_leaf_index rocks keccak entity i e.before ≡ Outcome.ok (some raw)
        → committed_of_raw raw ≡ Codec.ok m
        → (m.message.destination ≢ local_domain)
          ⊎ ((msg_matches whitelist m.message true ≡ false)
              ⊎ (msg_matches blacklist m.message false ≡ true))
        → IsSkipped e i

  -- The processor's inbox and lists.
  pub record IsFor (p : P) : Type 0 where
    pub domain_is : p.local_domain ≡ local_domain
    pub whitelist_is : p.whitelist ≡ whitelist
    pub blacklist_is : p.blacklist ≡ blacklist

  -- A tick leaves the scan where it is, goes on from a message that it skips, or sends one.
  pub data Moved (e : Moment S Store) (p q : P) : Type 0 where
    stays : q.tx_msg ≡ p.tx_msg → q.message_leaf_index ≡ p.message_leaf_index → Moved e p q
    skips :
        q.tx_msg ≡ p.tx_msg
        → q.message_leaf_index ≡ (p.message_leaf_index + 1) % 2 ^ 32
        → IsSkipped e p.message_leaf_index
        → Moved e p q
    sends :
        (args : SubmitMessageArgs S)
        → args.leaf_index ≡ p.message_leaf_index
        → q.tx_msg ≡ p.tx_msg ++ (args ∷ [])
        → q.message_leaf_index ≡ (p.message_leaf_index + 1) % 2 ^ 32
        → Moved e p q

  -- What a tick makes of a processor that is for the inbox.
  pub record Step (e : Moment S Store) (p q : P) : Type 0 where
    pub for_inbox : IsFor q
    pub moved : Moved e p q

  stay : (e : Moment S Store) (p : P) → IsFor p → Step e p p
  stay e p f = record { for_inbox = f; moved = stays refl refl }

  send-Step :
      (e : Moment S Store) (m : CommittedMessage) (c : MultisigSignedCheckpoint S) (proof : Proof)
      (p : P)
      → IsFor p
      → Step e p (send S rocks keccak entity e m c proof p).0
  unfolding send advanced new_args
  send-Step e m c proof p f = by_channel e.receiving
    where
      args : SubmitMessageArgs S
      args = new_args p.message_leaf_index m c proof e.now

      by_channel :
          (b : Bool)
          → Step e p
              (if◌then◌else◌ {A = P × Ended} b
                (
                  advanced S rocks keccak entity (record p { tx_msg = p.tx_msg ++ (args ∷ []) }),
                  fine,
                )
                (p, failing)).0
      by_channel true = record {
        for_inbox = record {
          domain_is = f.domain_is;
          whitelist_is = f.whitelist_is;
          blacklist_is = f.blacklist_is;
        };
        moved = sends args refl refl refl;
      }
      by_channel false = stay e p f

  leaf-Step :
      (e : Moment S Store) (m : CommittedMessage) (c : MultisigSignedCheckpoint S) (proof : Proof)
      (p : P) (o : Outcome (Option H256))
      → IsFor p
      → Step e p (with_leaf S rocks keccak entity e m c proof p o).0
  leaf-Step e m c proof p (Outcome.ok (some leaf)) f = send-Step e m c proof p f
  leaf-Step e m c proof p (Outcome.ok none) f = stay e p f
  leaf-Step e m c proof p (Outcome.err x) f = stay e p f
  leaf-Step e m c proof p Outcome.panic f = stay e p f

  proof-Step :
      (e : Moment S Store) (m : CommittedMessage) (c : MultisigSignedCheckpoint S) (p : P)
      (r : Builder.Result Proof)
      → IsFor p
      → Step e p (with_proof S rocks keccak entity e m c p r).0
  proof-Step e m c p (Builder.ok proof) f = leaf-Step e m c proof p _ f
  proof-Step e m c p (Builder.err x) f = stay e p f
  proof-Step e m c p Builder.panic f = stay e p f
  proof-Step e m c p Builder.waiting f = stay e p f

  prove-Step :
      (e : Moment S Store) (m : CommittedMessage) (c : MultisigSignedCheckpoint S) (p : P)
      → IsFor p
      → Step e p (prove_and_send S rocks keccak entity e m c p).0
  unfolding prove_and_send
  prove-Step e m c p f =
      elim (Bool-cases (
        (c.checkpoint.index + 1) % 2 ^ 32
        == count keccak (leaves_after S rocks keccak entity e) p.prover_sync)) [
          | inl y ↦ rw y (proof-Step e m c p _ f)
          | inr n ↦ rw n (stay e p f)
        ]

  -- The builder is no part of what a tick does to the scan.
  with_builder :
      (e : Moment S Store) (p q : P) (b : MerkleTreeBuilder)
      → Step e (record p { prover_sync = b }) q
      → Step e p q
  with_builder e p q b s = record { for_inbox = s.for_inbox; moved = same s.moved }
    where
      same : Moved e (record p { prover_sync = b }) q → Moved e p q
      same (stays t i) = stays t i
      same (skips t i k) = skips t i k
      same (sends args at t i) = sends args at t i

  IsFor-builder : (p : P) (b : MerkleTreeBuilder) → IsFor p → IsFor (record p { prover_sync = b })
  IsFor-builder p b f = record {
    domain_is = f.domain_is;
    whitelist_is = f.whitelist_is;
    blacklist_is = f.blacklist_is;
  }

  update-Step :
      (e : Moment S Store) (m : CommittedMessage) (c : MultisigSignedCheckpoint S) (p : P)
      (r : MerkleTreeBuilder × Builder.Result (Unit {0}))
      → IsFor p
      → Step e p (after_update S rocks keccak entity e m c p r).0
  update-Step e m c p (b, Builder.ok _) f =
      with_builder e p _ b (prove-Step e m c (record p { prover_sync = b }) (IsFor-builder p b f))
  update-Step e m c p (b, Builder.err x) f = with_builder e p _ b (stay e _ (IsFor-builder p b f))
  update-Step e m c p (b, Builder.panic) f = with_builder e p _ b (stay e _ (IsFor-builder p b f))
  update-Step e m c p (b, Builder.waiting) f = with_builder e p _ b (stay e _ (IsFor-builder p b f))

  forward-Step :
      (e : Moment S Store) (m : CommittedMessage) (p : P) (o : Option (MultisigSignedCheckpoint S))
      → IsFor p
      → Step e p (forward S rocks keccak entity e m p o).0
  forward-Step e m p none f = stay e p f
  forward-Step e m p (some c) f = update-Step e m c p _ f

  skip-Step :
      (e : Moment S Store) (p : P)
      → IsFor p
      → IsSkipped e p.message_leaf_index
      → Step e p (advanced S rocks keccak entity p)
  unfolding advanced
  skip-Step e p f k = record {
    for_inbox = record {
      domain_is = f.domain_is;
      whitelist_is = f.whitelist_is;
      blacklist_is = f.blacklist_is;
    };
    moved = skips refl refl k;
  }

  not-true : (b : Bool) → not b ≡ true → b ≡ false
  not-true true h = cc
  not-true false h = refl

  elsewhere_ne :
      (m : CommittedMessage) (p : P)
      → IsFor p
      → not (m.message.destination == p.local_domain) ≡ true
      → m.message.destination ≢ local_domain
  elsewhere_ne m p f h same =
      let hit : (m.message.destination == p.local_domain) ≡ true =
        ap (λ d. d == p.local_domain) (same ∙ sym f.domain_is) ∙ ==-refl p.local_domain in
      let miss : (m.message.destination == p.local_domain) ≡ false = not-true _ h in cc

  consider-Step :
      (e : Moment S Store) (raw : RawCommittedMessage) (m : CommittedMessage) (p : P)
      → IsFor p
      → message_by_leaf_index rocks keccak entity p.message_leaf_index e.before
        ≡ Outcome.ok (some raw)
      → committed_of_raw raw ≡ Codec.ok m
      → Step e p (consider S rocks keccak entity e m p).0
  unfolding consider
  consider-Step e raw m p f stored decoded =
      elim (Bool-cases (not (m.message.destination == p.local_domain))) [
        | inl elsewhere ↦
            rw elsewhere
              (skip-Step e p f (filtered raw m stored decoded (inl (elsewhere_ne m p f elsewhere))))
        | inr here ↦ rw here (elim (Bool-cases (not (msg_matches p.whitelist m.message true))) [
          | inl unlisted ↦ rw unlisted (
              skip-Step e p f (
                filtered raw m stored decoded (
                  inr (
                    inl (
                      subst (λ w. msg_matches w m.message true ≡ false) f.whitelist_is
                        (not-true _ unlisted))))))
          | inr listed ↦ rw listed (elim (Bool-cases (msg_matches p.blacklist m.message false)) [
            | inl banned ↦ rw banned (
                skip-Step e p f (
                  filtered raw m stored decoded (
                    inr (
                      inr (
                        subst (λ w. msg_matches w m.message false ≡ true) f.blacklist_is banned)))))
            | inr free ↦ rw free (forward-Step e m p _ f)
          ])
        ])
      ]

  message-Step :
      (e : Moment S Store) (raw : RawCommittedMessage) (p : P) (r : Codec.Result CommittedMessage)
      → IsFor p
      → message_by_leaf_index rocks keccak entity p.message_leaf_index e.before
        ≡ Outcome.ok (some raw)
      → committed_of_raw raw ≡ r
      → Step e p (with_message S rocks keccak entity e p r).0
  message-Step e raw p (Codec.ok m) f stored decoded = consider-Step e raw m p f stored decoded
  message-Step e raw p (Codec.err x) f stored decoded = stay e p f

  raw-Step :
      (e : Moment S Store) (p : P) (o : Outcome (Option RawCommittedMessage))
      → IsFor p
      → message_by_leaf_index rocks keccak entity p.message_leaf_index e.before ≡ o
      → Step e p (with_raw S rocks keccak entity e p o).0
  raw-Step e p (Outcome.ok (some raw)) f stored = message-Step e raw p _ f stored refl
  raw-Step e p (Outcome.ok none) f stored = stay e p f
  raw-Step e p (Outcome.err x) f stored = stay e p f
  raw-Step e p Outcome.panic f stored = stay e p f

  status-Step :
      (e : Moment S Store) (p : P) (o : Outcome (Option Bool))
      → IsFor p
      → retrieve_leaf_processing_status rocks keccak entity p.message_leaf_index e.before ≡ o
      → Step e p (with_status S rocks keccak entity e p o).0
  status-Step e p (Outcome.ok (some status)) f known = skip-Step e p f (marked status known)
  status-Step e p (Outcome.ok none) f known = raw-Step e p _ f refl
  status-Step e p (Outcome.err x) f known = stay e p f
  status-Step e p Outcome.panic f known = stay e p f

  pub tick-Step :
      (e : Moment S Store) (p : P) → IsFor p → Step e p (tick S rocks keccak entity e p).0
  unfolding tick
  tick-Step e p f = status-Step e p _ f refl
