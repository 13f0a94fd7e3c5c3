-- ===== src/Multisig/Sort.antt =====
-- The order of the signatures in rust/abacus-core/src/types/checkpoint.rs: by the signer.
use ethmexico.Base.{
  ℕ, suc, Option, ◌<◌, ◌≤◌, ◌≡◌, ◌≢◌, refl, ap, ◌∙◌, leb, leb→le, leb→gt, Bool-cases, inl, inr,
  List, [], ◌∷◌, All, length, arith,
}
use ethmexico.Base.Bytes.{Bytes, H256}
use ethmexico.Multisig.{Signed, insert_by_signer, sort_by_signer}

pub All-map :
    {A : Type 0} {P Q : A → Type 0} → ((x : A) → P x → Q x) → (xs : List A) → All P xs → All Q xs
All-map f [] all = tt
All-map f (x ∷ xs) (p, all) = (f x p, All-map f xs all)

module _ (S : Type 0) (keccak hash_message : Bytes → Bytes)
    (recover_signer : S → H256 → Option ℕ) where
  -- No two of one signer.
  unfoldable pub IsDistinct : List (Signed S keccak hash_message recover_signer) → Type 0
  IsDistinct [] = Unit
  IsDistinct (c ∷ cs) = All (λ d. c.signer ≢ d.signer) cs × IsDistinct cs

  -- Each signer is before all that follow.
  unfoldable pub IsAscending : List (Signed S keccak hash_message recover_signer) → Type 0
  IsAscending [] = Unit
  IsAscending (c ∷ cs) = All (λ d. c.signer < d.signer) cs × IsAscending cs

  abbrev insert :
      Signed S keccak hash_message recover_signer
      → List (Signed S keccak hash_message recover_signer)
      → List (Signed S keccak hash_message recover_signer)
  insert c cs = insert_by_signer S keccak hash_message recover_signer c cs

  insert-All :
      (P : Signed S keccak hash_message recover_signer → Type 0)
      (c : Signed S keccak hash_message recover_signer)
      (cs : List (Signed S keccak hash_message recover_signer))
      → P c
      → All P cs
      → All P (insert c cs)
  unfolding insert_by_signer
  insert-All P c [] p all = (p, tt)
  insert-All P c (d ∷ ds) p (q, all) = elim (Bool-cases (leb c.signer d.signer)) [
    | inl le ↦ rw le (p, (q, all))
    | inr gt ↦ rw gt (q, insert-All P c ds p all)
  ]

  length-insert :
      (c : Signed S keccak hash_message recover_signer)
      (cs : List (Signed S keccak hash_message recover_signer))
      → length (insert c cs) ≡ suc (length cs)
  unfolding insert_by_signer
  length-insert c [] = refl
  length-insert c (d ∷ ds) = elim (Bool-cases (leb c.signer d.signer)) [
    | inl le ↦ rw le refl
    | inr gt ↦ rw gt (ap suc (length-insert c ds))
  ]

  insert-IsAscending :
      (c : Signed S keccak hash_message recover_signer)
      (cs : List (Signed S keccak hash_message recover_signer))
      → All (λ d. c.signer ≢ d.signer) cs
      → IsAscending cs
      → IsAscending (insert c cs)
  unfolding insert_by_signer IsAscending
  insert-IsAscending c [] new asc = (tt, tt)
  insert-IsAscending c (d ∷ ds) (n, new) (before, asc) = elim (Bool-cases (leb c.signer d.signer)) [
    | inl le ↦
        let here : c.signer < d.signer = strict c.signer d.signer (leb→le c.signer d.signer le) n in
        rw le ((here, All-map (λ x lt. omega (arith, here, lt)) ds before), (before, asc))
    | inr gt ↦ rw gt (
      insert-All (λ x. d.signer < x.signer) c ds (leb→gt c.signer d.signer gt) before,
      insert-IsAscending c ds new asc,
    )
  ]
    where
      strict : (a b : ℕ) → a ≤ b → a ≢ b → a < b
      strict a b le ne = omega arith

  abbrev sorted :
      List (Signed S keccak hash_message recover_signer)
      → List (Signed S keccak hash_message recover_signer)
  sorted cs = sort_by_signer S keccak hash_message recover_signer cs

  -- What holds of all before the sort holds of all after it.
  pub sort_by_signer-All :
      (P : Signed S keccak hash_message recover_signer → Type 0)
      (cs : List (Signed S keccak hash_message recover_signer))
      → All P cs
      → All P (sorted cs)
  unfolding sort_by_signer
  sort_by_signer-All P [] all = tt
  sort_by_signer-All P (c ∷ cs) (p, all) =
      insert-All P c (sorted cs) p (sort_by_signer-All P cs all)

  -- None is lost.
  pub length-sort_by_signer :
      (cs : List (Signed S keccak hash_message recover_signer)) → length (sorted cs) ≡ length cs
  unfolding sort_by_signer
  length-sort_by_signer [] = refl
  length-sort_by_signer (c ∷ cs) = length-insert c (sorted cs) ∙ ap suc (length-sort_by_signer cs)

  -- With distinct signers, the sorted ones are strictly ascending.
  pub sort_by_signer-IsAscending :
      (cs : List (Signed S keccak hash_message recover_signer))
      → IsDistinct cs
      → IsAscending (sorted cs)
  unfolding sort_by_signer IsDistinct IsAscending
  sort_by_signer-IsAscending [] d = tt
  sort_by_signer-IsAscending (c ∷ cs) (new, d) =
      insert-IsAscending c (sorted cs) (sort_by_signer-All (λ x. c.signer ≢ x.signer) cs new)
        (sort_by_signer-IsAscending cs d)
