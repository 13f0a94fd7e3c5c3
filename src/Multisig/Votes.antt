-- ===== src/Multisig/Votes.antt =====
-- The votes that rust/abacus-base/src/types/multisig.rs collects, by their roots.
use ethmexico.Base.{
  All-snoc, ℕ, ◌≡◌, ◌≢◌, refl, sym, subst, ◌==◌, ==→eq, Bool-cases, inl, inr, Option, none, some,
  List, [], ◌∷◌, ◌++◌, map, All,
}
use ethmexico.Base.Bytes.{Bytes, H256, bytes_eq}
use ethmexico.Types.{SignedCheckpoint}
use ethmexico.Multisig.{
  CheckpointSyncer, Signed, prepended_hash, recover, PerRoot, lookup_root, push_root, Vote, counted,
  vote_by, vote,
}
use ethmexico.Multisig.Sort.{All-map, IsDistinct}

-- The validators of the map of syncers.
abbrev pub validators : {S : Type 0} → List (ℕ × CheckpointSyncer S) → List ℕ
validators {S} syncers = map (λ (e : ℕ × CheckpointSyncer S). e.0) syncers

-- A map has each validator once.
unfoldable pub IsMap : List ℕ → Type 0
IsMap [] = Unit
IsMap (v ∷ vs) = All (λ w. v ≢ w) vs × IsMap vs

module _ (S : Type 0) (keccak hash_message : Bytes → Bytes)
    (recover_signer : S → H256 → Option ℕ) where
  -- A signed checkpoint at the index whose signature is a validator's.
  pub record IsVote (index : ℕ) (V : ℕ → Type 0) (c : Signed S keccak hash_message recover_signer)
      : Type 0 where
    pub by :
        recover_signer c.signed_checkpoint.signature
          (prepended_hash S keccak hash_message recover_signer c.signed_checkpoint.checkpoint)
        ≡ some c.signer
    pub validator : V c.signer
    pub at_index : c.signed_checkpoint.checkpoint.index ≡ index

  vote_by_cases :
      (index v : ℕ) (V : ℕ → Type 0) (d : SignedCheckpoint S)
      (c : Signed S keccak hash_message recover_signer) (o : Option ℕ)
      → V v
      → d.checkpoint.index ≡ index
      → recover S keccak hash_message recover_signer d ≡ o
      → vote_by S keccak hash_message recover_signer v d o ≡ counted c
      → IsVote index V c × (c.signer ≡ v)
  unfolding recover
  vote_by_cases index v V d c none in_v at e h = cc
  vote_by_cases index v V d c (some signer) in_v at e h = elim (Bool-cases (signer == v)) [
    | inl y ↦
        let voted : counted (record { signer = signer; signed_checkpoint = d }) ≡ counted c =
          rw y at h in
        let is_it : (record { signer = signer; signed_checkpoint = d }) ≡ c =
          counted-injective _ c voted in
        let same : signer ≡ v = ==→eq signer v y in
        subst (λ x. IsVote index V x × (x.signer ≡ v)) is_it
          (record { by = e; validator = subst V (sym same) in_v; at_index = at }, same)
    | inr n ↦ cc (rw n at h)
  ]
    where
      counted-injective :
          (x y : Signed S keccak hash_message recover_signer)
          → ◌≡◌ {A = Vote S keccak hash_message recover_signer} (counted x) (counted y)
          → x ≡ y
      counted-injective x y q = cc

  pub vote_cases :
      (index v : ℕ) (V : ℕ → Type 0) (a : Option (Option (SignedCheckpoint S)))
      (c : Signed S keccak hash_message recover_signer)
      → V v
      → vote S keccak hash_message recover_signer index v a ≡ counted c
      → IsVote index V c × (c.signer ≡ v)
  unfolding vote
  vote_cases index v V none c in_v h = cc
  vote_cases index v V (some none) c in_v h = cc
  vote_cases index v V (some (some d)) c in_v h = elim (Bool-cases (d.checkpoint.index == index)) [
    | inl y ↦
        vote_by_cases index v V d c (recover S keccak hash_message recover_signer d) in_v
          (==→eq d.checkpoint.index index y) refl (rw y at h)
    | inr n ↦ cc (rw n at h)
  ]

  -- The votes under one root, with the validators that are still to come.
  abbrev pub Entry :
      ℕ → (ℕ → Type 0) → List ℕ → List (Signed S keccak hash_message recover_signer) → Type 0
  Entry index V rest cs =
      All (IsVote index V) cs
      × IsDistinct S keccak hash_message recover_signer cs
      × All (λ c. All (λ w. c.signer ≢ w) rest) cs

  abbrev pub Entries :
      ℕ → (ℕ → Type 0) → List ℕ → PerRoot S keccak hash_message recover_signer → Type 0
  Entries index V rest m =
      All
        (λ (e : H256 × List (Signed S keccak hash_message recover_signer)). Entry index V rest e.1)
        m

  pub lookup-Entry :
      (index : ℕ) (V : ℕ → Type 0) (rest : List ℕ) (root : H256)
      (m : PerRoot S keccak hash_message recover_signer)
      (cs : List (Signed S keccak hash_message recover_signer))
      → Entries index V rest m
      → lookup_root S keccak hash_message recover_signer root m ≡ some cs
      → Entry index V rest cs
  unfolding lookup_root
  lookup-Entry index V rest root [] cs all h = cc
  lookup-Entry index V rest root ((r, ds) ∷ m) cs (e, all) h = elim (Bool-cases (bytes_eq r root)) [
    | inl y ↦
        let same : some ds ≡ some cs = rw y at h in
        let is_it : ds ≡ cs = cc in subst (λ xs. Entry index V rest xs) is_it e
    | inr n ↦ lookup-Entry index V rest root m cs all (rw n at h)
  ]

  IsDistinct-snoc :
      (cs : List (Signed S keccak hash_message recover_signer))
      (c : Signed S keccak hash_message recover_signer)
      → IsDistinct S keccak hash_message recover_signer cs
      → All (λ d. d.signer ≢ c.signer) cs
      → IsDistinct S keccak hash_message recover_signer (cs ++ (c ∷ []))
  unfolding IsDistinct
  IsDistinct-snoc [] c d all = (tt, tt)
  IsDistinct-snoc (e ∷ cs) c (new, d) (n, all) =
      (All-snoc (λ x. e.signer ≢ x.signer) cs c new n, IsDistinct-snoc cs c d all)

  Entry-later :
      (index v : ℕ) (V : ℕ → Type 0) (rest : List ℕ)
      (cs : List (Signed S keccak hash_message recover_signer))
      → Entry index V (v ∷ rest) cs
      → Entry index V rest cs
  Entry-later index v V rest cs (votes, d, new) = (
    votes,
    d,
    All-map
        (λ (x : Signed S keccak hash_message recover_signer)
            (all : All (λ w. x.signer ≢ w) (v ∷ rest)).
          all.1)
        cs new,
  )

  pub Entries-later :
      (index v : ℕ) (V : ℕ → Type 0) (rest : List ℕ)
      (m : PerRoot S keccak hash_message recover_signer)
      → Entries index V (v ∷ rest) m
      → Entries index V rest m
  Entries-later index v V rest m all =
      All-map
        (λ (e : H256 × List (Signed S keccak hash_message recover_signer)) x.
          Entry-later index v V rest e.1 x)
        m all

  pub push-Entries :
      (index v : ℕ) (V : ℕ → Type 0) (rest : List ℕ) (root : H256)
      (c : Signed S keccak hash_message recover_signer)
      (m : PerRoot S keccak hash_message recover_signer)
      → IsVote index V c
      → c.signer ≡ v
      → All (λ w. v ≢ w) rest
      → Entries index V (v ∷ rest) m
      → Entries index V rest (push_root S keccak hash_message recover_signer root c m)
  unfolding push_root IsDistinct
  push-Entries index v V rest root c [] vote_c by_v new all =
      (((vote_c, tt), (tt, tt), (subst (λ s. All (λ w. s ≢ w) rest) (sym by_v) new, tt)), tt)
  push-Entries index v V rest root c ((r, cs) ∷ m) vote_c by_v new ((votes, d, later), all) =
      elim (Bool-cases (bytes_eq r root)) [
        | inl y ↦
            let ahead : All (λ w. c.signer ≢ w) rest =
              subst (λ s. All (λ w. s ≢ w) rest) (sym by_v) new in
            let apart : All (λ d'. d'.signer ≢ c.signer) cs =
              All-map
                (λ (x : Signed S keccak hash_message recover_signer)
                    (n : All (λ w. x.signer ≢ w) (v ∷ rest)).
                  subst (λ s. x.signer ≢ s) (sym by_v) n.0)
                cs later in
            let (_, _, later') = Entry-later index v V rest cs (votes, d, later) in
            rw y (
              (
                All-snoc (IsVote index V) cs c votes vote_c,
                IsDistinct-snoc cs c d apart,
                All-snoc (λ x. All (λ w. x.signer ≢ w) rest) cs c later' ahead,
              ),
              Entries-later index v V rest m all,
            )
        | inr n ↦ rw n (
          Entry-later index v V rest cs (votes, d, later),
          push-Entries index v V rest root c m vote_c by_v new all,
        )
      ]
