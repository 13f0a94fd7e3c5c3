-- ===== src/Multisig/Quorum.antt =====
-- What a quorum of rust/abacus-base/src/types/multisig.rs consists of.
use ethmexico.Base.{
  ℕ, ◌≤◌, ◌≡◌, refl, ap, sym, subst, ◌∙◌, ◌==◌, ==→eq, Bool, true, false, ◌&&◌, Bool-cases, inl,
  inr, Option, List, [], ◌∷◌, map, All, length,
}
use ethmexico.Base.Bytes.{Bytes, H256, bytes_eq, bytes_eq→eq}
use ethmexico.Types.{Checkpoint, MultisigSignedCheckpoint}
use ethmexico.Multisig.{
  ok, checkpoint_eq, Signed, all_for, signature_of, multisig_of, sort_by_signer,
}
use ethmexico.Multisig.Sort.{
  IsAscending, sort_by_signer-All, length-sort_by_signer, sort_by_signer-IsAscending,
}
use ethmexico.Multisig.Votes.{IsVote, Entry}

module _ (S : Type 0) (keccak hash_message : Bytes → Bytes)
    (recover_signer : S → H256 → Option ℕ) where
  checkpoint_eq→eq : (a b : Checkpoint) → checkpoint_eq a b ≡ true → a ≡ b
  unfolding checkpoint_eq
  checkpoint_eq→eq a b h =
      let (d, rest) = both (a.outbox_domain == b.outbox_domain) _ h in
      let (r, x) = both (bytes_eq a.root b.root) _ rest in
      same (==→eq _ _ d) (bytes_eq→eq _ _ r) (==→eq _ _ x)
    where
      both : (x y : Bool) → (x && y) ≡ true → (x ≡ true) × (y ≡ true)
      both true y h' = (refl, h')
      both false y h' = cc

      same : a.outbox_domain ≡ b.outbox_domain → a.root ≡ b.root → a.index ≡ b.index → a ≡ b
      same d r x i = record { outbox_domain = d i; root = r i; index = x i }

  all_for-All :
      (k : Checkpoint) (cs : List (Signed S keccak hash_message recover_signer))
      → all_for S keccak hash_message recover_signer k cs ≡ true
      → All (λ c. k ≡ c.signed_checkpoint.checkpoint) cs
  unfolding all_for
  all_for-All k [] h = tt
  all_for-All k (c ∷ cs) h = elim (Bool-cases (checkpoint_eq k c.signed_checkpoint.checkpoint)) [
    | inl y ↦ (checkpoint_eq→eq k c.signed_checkpoint.checkpoint y, all_for-All k cs (rw y at h))
    | inr n ↦ cc (rw n at h)
  ]

  -- The signatures of a quorum on a checkpoint.
  pub record IsQuorum (threshold index : ℕ) (V : ℕ → Type 0) (m : MultisigSignedCheckpoint S)
      : Type 0 where
    pub votes : List (Signed S keccak hash_message recover_signer)
    pub signed : m.signatures ≡ map (signature_of S keccak hash_message recover_signer) votes
    pub enough : threshold ≤ length votes
    pub ascending : IsAscending S keccak hash_message recover_signer votes
    pub valid : All (IsVote S keccak hash_message recover_signer index V) votes
    pub indexed : m.checkpoint.index ≡ index
    pub agreed : All (λ c. m.checkpoint ≡ c.signed_checkpoint.checkpoint) votes

  multisig_cases :
      (cs : List (Signed S keccak hash_message recover_signer)) (m : MultisigSignedCheckpoint S)
      → multisig_of S keccak hash_message recover_signer cs ≡ ok m
      → (m.signatures
          ≡ map
              (signature_of S keccak hash_message recover_signer)
              (sort_by_signer S keccak hash_message recover_signer cs))
        × All (λ c. m.checkpoint ≡ c.signed_checkpoint.checkpoint) cs
  unfolding multisig_of
  multisig_cases [] m h = cc
  multisig_cases (c ∷ cs) m h =
      elim (Bool-cases
        (all_for S keccak hash_message recover_signer c.signed_checkpoint.checkpoint (c ∷ cs))) [
          | inl y ↦
              let made : ok (record {
                checkpoint = c.signed_checkpoint.checkpoint;
                signatures =
                    map (signature_of S keccak hash_message recover_signer)
                      (sort_by_signer S keccak hash_message recover_signer (c ∷ cs));
              })
                  ≡ ok m =
                rw y at h in
              let is_it = ok-injective _ m made in
              subst
                (λ (x : MultisigSignedCheckpoint S).
                  (x.signatures
                    ≡ map (signature_of S keccak hash_message recover_signer)
                        (sort_by_signer S keccak hash_message recover_signer (c ∷ cs)))
                  × All (λ d. x.checkpoint ≡ d.signed_checkpoint.checkpoint) (c ∷ cs))
                is_it (refl, all_for-All c.signed_checkpoint.checkpoint (c ∷ cs) y)
          | inr n ↦ cc (rw n at h)
        ]
    where
      ok-injective : (x y : MultisigSignedCheckpoint S) → ok x ≡ ok y → x ≡ y
      ok-injective x y q = cc

  multisig-index :
      (index : ℕ) (V : ℕ → Type 0) (cs : List (Signed S keccak hash_message recover_signer))
      (m : MultisigSignedCheckpoint S)
      → All (IsVote S keccak hash_message recover_signer index V) cs
      → multisig_of S keccak hash_message recover_signer cs ≡ ok m
      → m.checkpoint.index ≡ index
  unfolding multisig_of
  multisig-index index V [] m votes h = cc
  multisig-index index V (c ∷ cs) m (v, votes) h =
      let (_, (same, _)) = multisig_cases (c ∷ cs) m h in
      ap (λ (k : Checkpoint). k.index) same ∙ v.at_index

  pub IsQuorum-Entry :
      (threshold index : ℕ) (V : ℕ → Type 0) (rest : List ℕ)
      (cs : List (Signed S keccak hash_message recover_signer)) (m : MultisigSignedCheckpoint S)
      → Entry S keccak hash_message recover_signer index V rest cs
      → threshold ≤ length cs
      → multisig_of S keccak hash_message recover_signer cs ≡ ok m
      → IsQuorum threshold index V m
  IsQuorum-Entry threshold index V rest cs m (votes, d, _) enough h =
      let (signed, agreed) = multisig_cases cs m h in
      record {
        votes = sort_by_signer S keccak hash_message recover_signer cs;
        signed = signed;
        enough =
            subst (λ k. threshold ≤ k)
              (sym (length-sort_by_signer S keccak hash_message recover_signer cs)) enough;
        ascending = sort_by_signer-IsAscending S keccak hash_message recover_signer cs d;
        valid =
            sort_by_signer-All S keccak hash_message recover_signer
              (IsVote S keccak hash_message recover_signer index V) cs votes;
        indexed = multisig-index index V cs m votes h;
        agreed =
            sort_by_signer-All S keccak hash_message recover_signer
              (λ c. m.checkpoint ≡ c.signed_checkpoint.checkpoint) cs agreed;
      }
