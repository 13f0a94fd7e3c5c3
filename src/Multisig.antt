-- ===== src/Multisig.antt =====
-- rust/abacus-base/src/types/multisig.rs, and the checkpoints with several signatures of
-- rust/abacus-core/src/types/checkpoint.rs. An address is the number of its bytes.
pub mod Sort
pub mod Votes
pub mod Quorum
pub mod Fetch
pub mod Latest
pub mod Support
pub mod Tally
pub mod Finds
use ethmexico.Base.{
  ℕ, suc, ◌+◌, ◌==◌, leb, Bool, true, false, if◌then◌else◌, ◌&&◌, Option, none, some, List, [], ◌∷◌,
  ◌++◌, map, length,
}
use ethmexico.Base.Bytes.{Bytes, H256, bytes_eq}
use ethmexico.Types.{
  Checkpoint, SignedCheckpoint, SignedCheckpointWithSigner, MultisigSignedCheckpoint, signing_hash,
}

-- `unrecoverable` is an error of the signature's recovery.
pub data Error : Type 0 where
  inconsistent_checkpoints empty_signatures unrecoverable : Error

pub data Result {ℓ} (A : Type ℓ) : Type ℓ where
  ok : A → Result A
  err : Error → Result A

-- A validator's checkpoint syncer, as it answers during one call; `none` is an error.
pub record CheckpointSyncer (S : Type 0) : Type 0 where
  pub latest_index : Option (Option ℕ)
  pub fetch_checkpoint : ℕ → Option (Option (SignedCheckpoint S))

unfoldable pub checkpoint_eq : Checkpoint → Checkpoint → Bool
checkpoint_eq a b =
    (a.outbox_domain == b.outbox_domain) && (bytes_eq a.root b.root && (a.index == b.index))

-- `sort` of the latest indices in descending order.
unfoldable pub insert_desc : ℕ → List ℕ → List ℕ
insert_desc a [] = a ∷ []
insert_desc a (b ∷ bs) = let rest = insert_desc a bs in if leb b a then a ∷ (b ∷ bs) else b ∷ rest

unfoldable pub sort_desc : List ℕ → List ℕ
unfolding insert_desc
sort_desc [] = []
sort_desc (a ∷ as') = insert_desc a (sort_desc as')

-- The run of equal indices that first reaches the threshold.
unfoldable pub quorum_loop : ℕ → ℕ → ℕ → List ℕ → Option ℕ
quorum_loop threshold last_processed_index index_count [] = none
quorum_loop threshold last_processed_index index_count (latest_index ∷ rest) =
    let count' = if latest_index == last_processed_index then index_count + 1 else 1 in
    let later = quorum_loop threshold latest_index count' rest in
    if leb threshold count' then some latest_index else later

-- `Signature` and the recovery of a signer's address come from the ethers crate, as does the hash of a
-- message to be signed. The map of the validators' syncers is a list, in the order of its iteration.
module _ (S : Type 0) (keccak hash_message : Bytes → Bytes)
    (recover_signer : S → H256 → Option ℕ) where
  abbrev pub Signed : Type 0
  Signed = SignedCheckpointWithSigner S ℕ

  -- `sort_by_key(|c| c.signer)`.
  unfoldable pub insert_by_signer : Signed → List Signed → List Signed
  insert_by_signer c [] = c ∷ []
  insert_by_signer c (d ∷ ds) =
      let rest = insert_by_signer c ds in if leb c.signer d.signer then c ∷ (d ∷ ds) else d ∷ rest

  unfoldable pub sort_by_signer : List Signed → List Signed
  sort_by_signer [] = []
  sort_by_signer (c ∷ cs) = insert_by_signer c (sort_by_signer cs)

  unfoldable pub all_for : Checkpoint → List Signed → Bool
  unfolding checkpoint_eq
  all_for checkpoint [] = true
  all_for checkpoint (c ∷ cs) =
      checkpoint_eq checkpoint c.signed_checkpoint.checkpoint && all_for checkpoint cs

  abbrev pub signature_of : Signed → S
  signature_of c = c.signed_checkpoint.signature

  -- `MultisigSignedCheckpoint::try_from`.
  unfoldable pub multisig_of : List Signed → Result (MultisigSignedCheckpoint S)
  multisig_of [] = err empty_signatures
  multisig_of (c ∷ cs) =
      let checkpoint = c.signed_checkpoint.checkpoint in
      if all_for checkpoint (c ∷ cs)
      then ok (record {
        checkpoint = checkpoint;
        signatures = map signature_of (sort_by_signer (c ∷ cs));
      })
      else err inconsistent_checkpoints

  unfoldable pub prepended_hash : Checkpoint → H256
  unfolding signing_hash
  prepended_hash checkpoint = hash_message (signing_hash keccak checkpoint)

  unfoldable pub recover : SignedCheckpoint S → Option ℕ
  recover c = recover_signer c.signature (prepended_hash c.checkpoint)

  -- The signed checkpoints by their root.
  abbrev pub PerRoot : Type 0
  PerRoot = List (H256 × List Signed)

  unfoldable pub lookup_root : H256 → PerRoot → Option (List Signed)
  lookup_root root [] = none
  lookup_root root ((r, cs) ∷ m) = if bytes_eq r root then some cs else lookup_root root m

  -- The match on the entry of the root.
  unfoldable pub push_root : H256 → Signed → PerRoot → PerRoot
  push_root root c [] = (root, c ∷ []) ∷ []
  push_root root c ((r, cs) ∷ m) =
      if bytes_eq r root then (r, cs ++ (c ∷ [])) ∷ m else (r, cs) ∷ push_root root c m

  abbrev pub some_result :
      Result (MultisigSignedCheckpoint S) → Result (Option (MultisigSignedCheckpoint S))
  some_result (ok m) = ok (some m)
  some_result (err e) = err e

  -- The test for a quorum after an insertion.
  abbrev pub at_quorum :
      ℕ
      → Option (List Signed)
      → Result (Option (MultisigSignedCheckpoint S))
      → Result (Option (MultisigSignedCheckpoint S))
  at_quorum threshold none later = later
  at_quorum threshold (some cs) later =
      if leb threshold (length cs) then some_result (multisig_of cs) else later

  -- What a syncer's answer adds for its validator: nothing, a signed checkpoint, or an error.
  pub data Vote : Type 0 where
    ignored failed : Vote
    counted : Signed → Vote

  abbrev pub vote_by : ℕ → SignedCheckpoint S → Option ℕ → Vote
  vote_by validator c none = failed
  vote_by validator c (some signer) =
      if signer == validator
      then counted (record { signer = signer; signed_checkpoint = c })
      else ignored

  unfoldable pub vote : ℕ → ℕ → Option (Option (SignedCheckpoint S)) → Vote
  vote index validator none = ignored
  vote index validator (some none) = ignored
  vote index validator (some (some c)) =
      if c.checkpoint.index == index then vote_by validator c (recover c) else ignored

  unfoldable pub fetch_loop :
      ℕ → ℕ → PerRoot → List (ℕ × CheckpointSyncer S) → Result (Option (MultisigSignedCheckpoint S))
  fetch_loop threshold index per_root [] = ok none
  fetch_loop threshold index per_root ((validator, syncer) ∷ rest) =
      elim (vote index validator (syncer.fetch_checkpoint index)) [
        | ignored ↦ fetch_loop threshold index per_root rest
        | failed ↦ err unrecoverable
        | counted c ↦
            (let root = c.signed_checkpoint.checkpoint.root in
              let per_root' = push_root root c per_root in
              let later = fetch_loop threshold index per_root' rest in
              at_quorum threshold (lookup_root root per_root') later)
      ]

  unfoldable pub fetch_checkpoint :
      ℕ → List (ℕ × CheckpointSyncer S) → ℕ → Result (Option (MultisigSignedCheckpoint S))
  fetch_checkpoint threshold syncers index = fetch_loop threshold index [] syncers

  unfoldable pub latest_indices : List (ℕ × CheckpointSyncer S) → List ℕ
  latest_indices [] = []
  latest_indices ((validator, syncer) ∷ rest) = elim syncer.latest_index [
    | some (some index) ↦ index ∷ latest_indices rest
    | some none ↦ latest_indices rest
    | none ↦ latest_indices rest
  ]

  abbrev pub is_quorum : Result (Option (MultisigSignedCheckpoint S)) → Bool
  is_quorum (ok (some m)) = true
  is_quorum (ok none) = false
  is_quorum (err e) = false

  -- The search by fetching, past the highest index.
  unfoldable pub search_loop : ℕ → List (ℕ × CheckpointSyncer S) → ℕ → List ℕ → Option ℕ
  search_loop threshold syncers last [] = none
  search_loop threshold syncers last (latest_index ∷ rest) =
      let later = search_loop threshold syncers latest_index rest in
      if latest_index == last
      then later
      else if is_quorum (fetch_checkpoint threshold syncers latest_index)
      then some latest_index
      else later

  abbrev pub or_search : ℕ → List (ℕ × CheckpointSyncer S) → List ℕ → Option ℕ → Option ℕ
  or_search threshold syncers indices (some index) = some index
  or_search threshold syncers [] none = none
  or_search threshold syncers (first ∷ rest) none = search_loop threshold syncers first rest

  unfoldable pub latest_index : ℕ → List (ℕ × CheckpointSyncer S) → Option ℕ
  latest_index threshold syncers =
      let indices = sort_desc (latest_indices syncers) in
      or_search threshold syncers indices (quorum_loop threshold 0 0 indices)
