-- ===== src/Multisig/Tally.antt =====
-- The votes by root that rust/abacus-base/src/types/multisig.rs collects.
use ethmexico.Base.{
  All-snoc, ℕ, ◌+◌, ◌<◌, ◌≡◌, refl, sym, subst, ◌∙◌, inl, inr, ==-refl, Bool, true, false,
  if◌then◌else◌, Bool-cases, Option, none, some, List, [], ◌∷◌, ◌++◌, length, length-append, map,
  All, arith,
}
use ethmexico.Base.Bytes.{Bytes, H256, bytes_eq, bytes_eq_refl, bytes_eq→eq}
use ethmexico.Types.{Checkpoint, MultisigSignedCheckpoint}
use ethmexico.Multisig.Support
use ethmexico.Multisig.{
  ok, checkpoint_eq, Signed, all_for, multisig_of, PerRoot, lookup_root, push_root, signature_of,
  sort_by_signer,
}

checkpoint_eq_refl : (c : Checkpoint) → checkpoint_eq c c ≡ true
unfolding checkpoint_eq
checkpoint_eq_refl c =
    rw (==-refl c.outbox_domain) (rw (bytes_eq_refl c.root) (rw (==-refl c.index) refl))

apart : (x r root : H256) → bytes_eq x r ≡ false → bytes_eq x root ≡ true → bytes_eq r root ≡ false
apart x r root n at = elim (Bool-cases (bytes_eq r root)) [
  | inl y ↦
      let same : x ≡ r = bytes_eq→eq x root at ∙ sym (bytes_eq→eq r root y) in
      let hit : bytes_eq x r ≡ true = subst (λ z. bytes_eq x z ≡ true) same (bytes_eq_refl x) in cc
  | inr off ↦ off
]

module _ (S : Type 0) (keccak hash_message : Bytes → Bytes) (recover_signer : S → H256 → Option ℕ)
    (domain index : ℕ) where
  abbrev Votes : Type 0
  Votes = List (Signed S keccak hash_message recover_signer)

  abbrev Roots : Type 0
  Roots = PerRoot S keccak hash_message recover_signer

  abbrev Agrees : H256 → Signed S keccak hash_message recover_signer → Type 0
  Agrees = Support.Agrees S keccak hash_message recover_signer domain index

  abbrev pub votes_in : Option Votes → ℕ
  votes_in none = 0
  votes_in (some cs) = length cs

  unfoldable pub tally : H256 → Roots → ℕ
  tally root m = votes_in (lookup_root S keccak hash_message recover_signer root m)

  abbrev pub AllAgree : Roots → Type 0
  AllAgree m = All (λ (e : H256 × Votes). All (Agrees e.0) e.1) m

  tally_step :
      (root x : H256) (cs : Votes) (m : Roots)
      → tally root ((x, cs) ∷ m) ≡ (if bytes_eq x root then length cs else tally root m)
  unfolding tally lookup_root
  tally_step root x cs m =
      branch (bytes_eq x root) (lookup_root S keccak hash_message recover_signer root m)
    where
      branch :
          (b : Bool) (o : Option Votes)
          → votes_in (if b then some cs else o) ≡ (if b then length cs else votes_in o)
      branch true o = refl
      branch false o = refl

  pub tally-nil : (root : H256) → tally root [] ≡ 0
  unfolding tally lookup_root
  tally-nil root = refl

  push_nil :
      (r : H256) (c : Signed S keccak hash_message recover_signer)
      → push_root S keccak hash_message recover_signer r c [] ≡ (r, c ∷ []) ∷ []
  unfolding push_root
  push_nil r c = refl

  push_step :
      (x r : H256) (c : Signed S keccak hash_message recover_signer) (cs : Votes) (m : Roots)
      → push_root S keccak hash_message recover_signer r c ((x, cs) ∷ m) ≡ (
          if bytes_eq x r
          then (x, cs ++ (c ∷ [])) ∷ m
          else (x, cs) ∷ push_root S keccak hash_message recover_signer r c m)
  unfolding push_root
  push_step x r c cs m = refl

  pub tally-push :
      (root r : H256) (c : Signed S keccak hash_message recover_signer) (m : Roots)
      → tally root (push_root S keccak hash_message recover_signer r c m)
        ≡ (if bytes_eq r root then 1 else 0) + tally root m
  tally-push root r c [] =
      rw (push_nil r c)
        (rw (tally_step root r (c ∷ []) []) (rw (tally-nil root) (one (bytes_eq r root))))
    where
      one : (b : Bool) → (if b then 1 else 0) ≡ (if b then 1 else 0) + 0
      one b = omega arith
  tally-push root r c ((x, cs) ∷ m) = elim (Bool-cases (bytes_eq x r)) [
    | inl y ↦ rw (push_step x r c cs m) (
        rw y (
          rw (tally_step root x (cs ++ (c ∷ [])) m) (
            rw (tally_step root x cs m)
              (rw (← bytes_eq→eq x r y) (ground (arith, length-append cs (c ∷ [])))))))
    | inr n ↦ rw (push_step x r c cs m) (
        rw n (
          rw (tally_step root x cs (push_root S keccak hash_message recover_signer r c m)) (
            rw (tally_step root x cs m) (elim (Bool-cases (bytes_eq x root)) [
              | inl at ↦ rw at (rw (apart x r root n at) (omega arith))
              | inr off ↦ rw off (tally-push root r c m)
            ]))))
  ]

  pub AllAgree-push :
      (c : Signed S keccak hash_message recover_signer) (r : H256) (m : Roots)
      → Agrees r c
      → AllAgree m
      → AllAgree (push_root S keccak hash_message recover_signer r c m)
  unfolding push_root
  AllAgree-push c r [] a all = ((a, tt), tt)
  AllAgree-push c r ((x, cs) ∷ m) a (here, all) = elim (Bool-cases (bytes_eq x r)) [
    | inl y ↦
        rw y
          (All-snoc (Agrees x) cs c here (subst (λ z. Agrees z c) (sym (bytes_eq→eq x r y)) a), all)
    | inr n ↦ rw n (here, AllAgree-push c r m a all)
  ]

  pub lookup-Agrees :
      (root : H256) (m : Roots) (cs : Votes)
      → AllAgree m
      → lookup_root S keccak hash_message recover_signer root m ≡ some cs
      → All (Agrees root) cs
  unfolding lookup_root
  lookup-Agrees root [] cs all h = cc
  lookup-Agrees root ((x, ds) ∷ m) cs (here, all) h = elim (Bool-cases (bytes_eq x root)) [
    | inl y ↦
        let found : some ds ≡ some cs = rw y at h in
        let is_it : ds ≡ cs = cc in
        subst (λ z. All (Agrees z) cs) (bytes_eq→eq x root y) (subst (All (Agrees x)) is_it here)
    | inr n ↦ lookup-Agrees root m cs all (rw n at h)
  ]

  all_for-Agrees :
      (root : H256) (checkpoint : Checkpoint) (cs : Votes)
      → checkpoint ≡ record { outbox_domain = domain; root = root; index = index }
      → All (Agrees root) cs
      → all_for S keccak hash_message recover_signer checkpoint cs ≡ true
  unfolding all_for
  all_for-Agrees root checkpoint [] e all = refl
  all_for-Agrees root checkpoint (c ∷ cs) e (a, all) = rw (e ∙ sym a) (
      rw (checkpoint_eq_refl c.signed_checkpoint.checkpoint)
        (all_for-Agrees root checkpoint cs e all))

  -- Votes that agree make a multisig checkpoint.
  pub multisig_of-Agrees :
      (root : H256) (cs : Votes)
      → All (Agrees root) cs
      → 0 < length cs
      → (m : MultisigSignedCheckpoint S) × (multisig_of S keccak hash_message recover_signer cs
          ≡ ok m)
  unfolding multisig_of
  multisig_of-Agrees root [] all pos = absurd (omega arith)
  multisig_of-Agrees root (c ∷ cs) (a, all) pos = (
    record {
      checkpoint = c.signed_checkpoint.checkpoint;
      signatures =
          map (signature_of S keccak hash_message recover_signer)
            (sort_by_signer S keccak hash_message recover_signer (c ∷ cs));
    },
    rw (all_for-Agrees root c.signed_checkpoint.checkpoint (c ∷ cs) a (a, all)) refl,
  )

  pub tally-lookup :
      (root : H256) (m : Roots)
      → 0 < tally root m
      → (cs : Votes) × (lookup_root S keccak hash_message recover_signer root m ≡ some cs)
        × (length cs ≡ tally root m)
  unfolding tally
  tally-lookup root m pos = from (lookup_root S keccak hash_message recover_signer root m) pos
    where
      from :
          (o : Option Votes)
          → 0 < votes_in o
          → (cs : Votes) × (o ≡ some cs) × (length cs ≡ votes_in o)
      from none lt = absurd (omega arith)
      from (some cs) lt = (cs, refl, refl)
