-- ===== src/Multisig/Support.antt =====
-- Which answers of the syncers stand behind a root in rust/abacus-base/src/types/multisig.rs.
use ethmexico.Base.{
  ℕ, ◌+◌, ◌≡◌, refl, ◌⊎◌, inl, inr, ◌==◌, ==→eq, Bool, true, false, if◌then◌else◌, ◌&&◌, Bool-cases,
  Option, none, some, List, [], ◌∷◌, All,
}
use ethmexico.Base.Bytes.{Bytes, H256, bytes_eq}
use ethmexico.Types.{SignedCheckpoint}
use ethmexico.Multisig.{CheckpointSyncer, Signed, recover, PerRoot, Vote, ignored, counted, vote}

and_true : (b : Bool) → (b && true) ≡ b
and_true true = refl
and_true false = refl

and_false : (b : Bool) → (b && false) ≡ false
and_false true = refl
and_false false = refl

module _ (S : Type 0) (keccak hash_message : Bytes → Bytes) (recover_signer : S → H256 → Option ℕ)
    (domain index : ℕ) where
  abbrev pub Votes : Type 0
  Votes = List (Signed S keccak hash_message recover_signer)

  abbrev pub Roots : Type 0
  Roots = PerRoot S keccak hash_message recover_signer

  abbrev Ballot : Type 0
  Ballot = Vote S keccak hash_message recover_signer

  abbrev is_by : ℕ → Option ℕ → Bool
  is_by validator none = false
  is_by validator (some signer) = signer == validator

  -- A syncer's answer has a checkpoint at the index with the root, signed by the validator.
  unfoldable pub backs : H256 → ℕ → Option (Option (SignedCheckpoint S)) → Bool
  backs root validator none = false
  backs root validator (some none) = false
  backs root validator (some (some c)) =
      (c.checkpoint.index == index)
      && (bytes_eq c.checkpoint.root root
          && is_by validator (recover S keccak hash_message recover_signer c))

  -- How many validators' syncers have it.
  unfoldable pub support : H256 → List (ℕ × CheckpointSyncer S) → ℕ
  unfolding backs
  support root [] = 0
  support root ((validator, syncer) ∷ rest) =
      (if backs root validator (syncer.fetch_checkpoint index) then 1 else 0) + support root rest

  -- A checkpoint at the index is one of the domain, and its signature is someone's.
  abbrev pub IsSound : Option (Option (SignedCheckpoint S)) → Type 0
  IsSound none = Unit
  IsSound (some none) = Unit
  IsSound (some (some c)) =
      (signer : ℕ) × (c.checkpoint.outbox_domain ≡ domain)
      × (recover S keccak hash_message recover_signer c ≡ some signer)

  abbrev pub AllSound : List (ℕ × CheckpointSyncer S) → Type 0
  AllSound syncers =
      All (λ (x : ℕ × CheckpointSyncer S). IsSound (x.1.fetch_checkpoint index)) syncers

  abbrev pub Agrees : H256 → Signed S keccak hash_message recover_signer → Type 0
  Agrees root c =
      c.signed_checkpoint.checkpoint ≡ record { outbox_domain = domain; root = root; index = index }

  -- What a sound answer adds.
  pub vote_step :
      (v : ℕ) (a : Option (Option (SignedCheckpoint S)))
      → IsSound a
      → ((vote S keccak hash_message recover_signer index v a ≡ ignored)
          × ((root : H256) → backs root v a ≡ false))
        ⊎ ((c : Signed S keccak hash_message recover_signer) × (vote S keccak hash_message
                recover_signer index v a
              ≡ counted c)
            × Agrees c.signed_checkpoint.checkpoint.root c
            × ((root : H256) → backs root v a ≡ bytes_eq c.signed_checkpoint.checkpoint.root root))
  unfolding vote backs
  vote_step v none s = inl (refl, λ root. refl)
  vote_step v (some none) s = inl (refl, λ root. refl)
  vote_step v (some (some c)) (signer, dom, e) = elim (Bool-cases (c.checkpoint.index == index)) [
    | inr n ↦ rw n (inl (refl, λ root. refl))
    | inl at ↦ rw at (rw e (by_signer (signer == v) (==→eq c.checkpoint.index index at)))
  ]
    where
      signed : Signed S keccak hash_message recover_signer
      signed = record { signer = signer; signed_checkpoint = c }

      agrees : c.checkpoint.index ≡ index → Agrees c.checkpoint.root signed
      agrees at = cc

      by_signer :
          (b : Bool)
          → c.checkpoint.index ≡ index
          → ((◌≡◌ {A = Ballot} (if◌then◌else◌ {A = Ballot} b (counted signed) ignored) ignored)
              × ((root : H256) → (true && (bytes_eq c.checkpoint.root root && b)) ≡ false))
            ⊎ ((d : Signed S keccak hash_message recover_signer) × (◌≡◌ {A = Ballot}
                  (if◌then◌else◌ {A = Ballot} b (counted signed) ignored)
                  (counted d))
                × Agrees d.signed_checkpoint.checkpoint.root d
                × ((root : H256)
                    → (true && (bytes_eq c.checkpoint.root root && b))
                      ≡ bytes_eq d.signed_checkpoint.checkpoint.root root))
      by_signer true at =
          inr (signed, refl, agrees at, λ root. and_true (bytes_eq c.checkpoint.root root))
      by_signer false at = inl (refl, λ root. and_false (bytes_eq c.checkpoint.root root))
      -- How many votes a root has so far.
