-- ===== src/Multisig/Fetch.antt =====
-- What `fetch_checkpoint` of rust/abacus-base/src/types/multisig.rs finds.
use ethmexico.Base.{
  ℕ, ◌≡◌, ◌≢◌, refl, leb, leb→le, Bool-cases, inl, inr, Option, none, some, List, [], ◌∷◌, All,
  length,
}
use ethmexico.Base.Bytes.{Bytes, H256}
use ethmexico.Types.{MultisigSignedCheckpoint}
use ethmexico.Multisig.{
  Result, ok, err, unrecoverable, CheckpointSyncer, Signed, multisig_of, PerRoot, lookup_root,
  push_root, some_result, at_quorum, Vote, ignored, failed, counted, vote, fetch_loop,
  fetch_checkpoint,
}
use ethmexico.Multisig.Sort.{All-map}
use ethmexico.Multisig.Votes.{
  validators, IsMap, IsVote, vote_cases, Entry, Entries, lookup-Entry, Entries-later, push-Entries,
}
use ethmexico.Multisig.Quorum.{IsQuorum, IsQuorum-Entry}
use mathlib.Core.List.{Mem, mem-cons_self, mem-cons_of_mem}

module _ (S : Type 0) (keccak hash_message : Bytes → Bytes)
    (recover_signer : S → H256 → Option ℕ) where
  abbrev Quorum : ℕ → ℕ → (ℕ → Type 0) → MultisigSignedCheckpoint S → Type 0
  Quorum threshold index V m = IsQuorum S keccak hash_message recover_signer threshold index V m

  some_result-ok :
      (r : Result (MultisigSignedCheckpoint S)) (m : MultisigSignedCheckpoint S)
      → some_result S keccak hash_message recover_signer r ≡ ok (some m)
      → r ≡ ok m
  some_result-ok (ok n) m h = cc
  some_result-ok (err e) m h = cc

  at_quorum_cases :
      (threshold index : ℕ) (V : ℕ → Type 0) (rest : List ℕ) (m : MultisigSignedCheckpoint S)
      (o : Option (List (Signed S keccak hash_message recover_signer)))
      (later : Result (Option (MultisigSignedCheckpoint S)))
      → ((cs : List (Signed S keccak hash_message recover_signer))
          → o ≡ some cs
          → Entry S keccak hash_message recover_signer index V rest cs)
      → (later ≡ ok (some m) → Quorum threshold index V m)
      → at_quorum S keccak hash_message recover_signer threshold o later ≡ ok (some m)
      → Quorum threshold index V m
  at_quorum_cases threshold index V rest m none later entry next h = next h
  at_quorum_cases threshold index V rest m (some cs) later entry next h =
      elim (Bool-cases (leb threshold (length cs))) [
        | inl y ↦
            IsQuorum-Entry S keccak hash_message recover_signer threshold index V rest cs m
              (entry cs refl) (leb→le threshold (length cs) y)
              (some_result-ok (multisig_of S keccak hash_message recover_signer cs) m (rw y at h))
        | inr n ↦ next (rw n at h)
      ]

  -- One turn of the loop, by what the vote is.
  turn_cases :
      (threshold index v : ℕ) (V : ℕ → Type 0) (rest : List ℕ)
      (per_root : PerRoot S keccak hash_message recover_signer) (m : MultisigSignedCheckpoint S)
      (w : Vote S keccak hash_message recover_signer)
      (next : PerRoot S keccak hash_message recover_signer
        → Result (Option (MultisigSignedCheckpoint S)))
      → ((c : Signed S keccak hash_message recover_signer)
          → w ≡ counted c
          → IsVote S keccak hash_message recover_signer index V c × (c.signer ≡ v))
      → All (λ u. v ≢ u) rest
      → Entries S keccak hash_message recover_signer index V (v ∷ rest) per_root
      → ((p : PerRoot S keccak hash_message recover_signer)
          → Entries S keccak hash_message recover_signer index V rest p
          → next p ≡ ok (some m)
          → Quorum threshold index V m)
      → elim w [
        | ignored ↦ next per_root
        | failed ↦ err unrecoverable
        | counted c ↦
            at_quorum S keccak hash_message recover_signer threshold
              (lookup_root S keccak hash_message recover_signer c.signed_checkpoint.checkpoint.root
                (push_root S keccak hash_message recover_signer c.signed_checkpoint.checkpoint.root
                  c per_root))
              (next (
                push_root S keccak hash_message recover_signer c.signed_checkpoint.checkpoint.root c
                  per_root))
      ]
        ≡ ok (some m)
      → Quorum threshold index V m
  turn_cases threshold index v V rest per_root m ignored next voted new entries later h =
      later per_root
        (Entries-later S keccak hash_message recover_signer index v V rest per_root entries) h
  turn_cases threshold index v V rest per_root m failed next voted new entries later h = cc
  turn_cases threshold index v V rest per_root m (counted c) next voted new entries later h =
      let root = c.signed_checkpoint.checkpoint.root in
      let (vote_c, by_v) = voted c refl in
      let pushed =
        push-Entries S keccak hash_message recover_signer index v V rest root c per_root vote_c by_v
          new entries in
      at_quorum_cases threshold index V rest m _ _
        (λ cs e.
          lookup-Entry S keccak hash_message recover_signer index V rest root
            (push_root S keccak hash_message recover_signer root c per_root) cs pushed e)
        (later (push_root S keccak hash_message recover_signer root c per_root) pushed) h

  fetch_loop-IsQuorum :
      (threshold index : ℕ) (V : ℕ → Type 0) (m : MultisigSignedCheckpoint S)
      (syncers : List (ℕ × CheckpointSyncer S))
      (per_root : PerRoot S keccak hash_message recover_signer)
      → All V (validators syncers)
      → IsMap (validators syncers)
      → Entries S keccak hash_message recover_signer index V (validators syncers) per_root
      → fetch_loop S keccak hash_message recover_signer threshold index per_root syncers
        ≡ ok (some m)
      → Quorum threshold index V m
  unfolding fetch_loop IsMap
  fetch_loop-IsQuorum threshold index V m [] per_root all once entries h = cc
  fetch_loop-IsQuorum threshold index V m ((v, syncer) ∷ rest) per_root (here, all) (new, once)
        entries h =
      turn_cases threshold index v V (validators rest) per_root m
        (vote S keccak hash_message recover_signer index v (syncer.fetch_checkpoint index))
        (λ p. fetch_loop S keccak hash_message recover_signer threshold index p rest)
        (λ c e.
          vote_cases S keccak hash_message recover_signer index v V (syncer.fetch_checkpoint index)
            c here e)
        new entries (λ p. fetch_loop-IsQuorum threshold index V m rest p all once) h

  members : (vs : List ℕ) → All (λ v. Mem v vs) vs
  members [] = tt
  members (v ∷ vs) = (mem-cons_self, All-map (λ w. mem-cons_of_mem v) vs (members vs))

  -- Where each validator has one syncer, a multisig checkpoint that is found for an index is one at
  -- that index. Its signatures are by at least as many validators as the threshold, all different,
  -- in ascending order of their addresses, and each signature is one of the checkpoint itself by a
  -- validator of the set.
  pub fetch_checkpoint-IsQuorum :
      (threshold index : ℕ) (syncers : List (ℕ × CheckpointSyncer S))
      (m : MultisigSignedCheckpoint S)
      → IsMap (validators syncers)
      → fetch_checkpoint S keccak hash_message recover_signer threshold syncers index ≡ ok (some m)
      → IsQuorum S keccak hash_message recover_signer threshold index
          (λ v. Mem v (validators syncers))
          m
  unfolding fetch_checkpoint
  fetch_checkpoint-IsQuorum threshold index syncers m once h =
      fetch_loop-IsQuorum threshold index (λ v. Mem v (validators syncers)) m syncers []
        (members (validators syncers)) once tt h
