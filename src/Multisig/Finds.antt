-- ===== src/Multisig/Finds.antt =====
-- When rust/abacus-base/src/types/multisig.rs finds a quorum for an index.
use ethmexico.Base.{
  ℕ, ◌+◌, ◌<◌, ◌≤◌, ◌≡◌, refl, ap, subst, ◌∙◌, ◌⊎◌, inl, inr, leb, leb→le, leb→gt, if◌then◌else◌,
  Bool-cases, Option, none, some, List, [], ◌∷◌, length, arith,
}
use ethmexico.Base.Bytes.{Bytes, H256, bytes_eq, bytes_eq_refl, bytes_eq→eq}
use ethmexico.Types.{MultisigSignedCheckpoint}
use ethmexico.Multisig.Support
use ethmexico.Multisig.Support.{vote_step}
use ethmexico.Multisig.Tally
use ethmexico.Multisig.Tally.{
  tally-push, tally-nil, tally-lookup, AllAgree-push, lookup-Agrees, multisig_of-Agrees,
}
use ethmexico.Multisig.{
  Result, ok, CheckpointSyncer, Signed, PerRoot, lookup_root, push_root, at_quorum, ignored,
  counted, vote, fetch_loop, fetch_checkpoint,
}

module _ (S : Type 0) (keccak hash_message : Bytes → Bytes) (recover_signer : S → H256 → Option ℕ)
    (domain index : ℕ) where
  abbrev Roots : Type 0
  Roots = PerRoot S keccak hash_message recover_signer

  abbrev tally : H256 → Roots → ℕ
  tally = Tally.tally S keccak hash_message recover_signer domain index

  abbrev AllAgree : Roots → Type 0
  AllAgree = Tally.AllAgree S keccak hash_message recover_signer domain index

  abbrev Agrees : H256 → Signed S keccak hash_message recover_signer → Type 0
  Agrees = Support.Agrees S keccak hash_message recover_signer domain index

  abbrev AllSound : List (ℕ × CheckpointSyncer S) → Type 0
  AllSound = Support.AllSound S keccak hash_message recover_signer domain index

  abbrev support : H256 → List (ℕ × CheckpointSyncer S) → ℕ
  support = Support.support S keccak hash_message recover_signer domain index

  module _ (threshold : ℕ) where
    abbrev Loop :
        Roots → List (ℕ × CheckpointSyncer S) → Result (Option (MultisigSignedCheckpoint S))
    Loop m syncers = fetch_loop S keccak hash_message recover_signer threshold index m syncers

    abbrev IsFound : Result (Option (MultisigSignedCheckpoint S)) → Type 0
    IsFound r = (m : MultisigSignedCheckpoint S) × (r ≡ ok (some m))

    -- The state before a vote: no root has enough votes.
    record IsOpen (m : Roots) : Type 0 where
      agreed : AllAgree m
      short : (root : H256) → tally root m < threshold

    loop_nil : (m : Roots) → Loop m [] ≡ ok none
    unfolding fetch_loop
    loop_nil m = refl

    loop_ignored :
        (v : ℕ) (syncer : CheckpointSyncer S) (rest : List (ℕ × CheckpointSyncer S)) (m : Roots)
        → vote S keccak hash_message recover_signer index v (syncer.fetch_checkpoint index)
          ≡ ignored
        → Loop m ((v, syncer) ∷ rest) ≡ Loop m rest
    unfolding fetch_loop
    loop_ignored v syncer rest m e = rw (e, fetch_loop) refl

    loop_counted :
        (v : ℕ) (syncer : CheckpointSyncer S) (rest : List (ℕ × CheckpointSyncer S)) (m : Roots)
        (c : Signed S keccak hash_message recover_signer)
        → vote S keccak hash_message recover_signer index v (syncer.fetch_checkpoint index)
          ≡ counted c
        → Loop m ((v, syncer) ∷ rest)
          ≡ at_quorum S keccak hash_message recover_signer threshold
              (lookup_root S keccak hash_message recover_signer c.signed_checkpoint.checkpoint.root
                (push_root S keccak hash_message recover_signer c.signed_checkpoint.checkpoint.root
                  c m))
              (Loop
                (push_root S keccak hash_message recover_signer c.signed_checkpoint.checkpoint.root
                  c m)
                rest)
    unfolding fetch_loop
    loop_counted v syncer rest m c e = rw (e, fetch_loop) refl

    -- After a vote its root has enough votes, and they make a multisig checkpoint; or no root has.
    counted_cases :
        (c : Signed S keccak hash_message recover_signer) (m : Roots)
        (later : Result (Option (MultisigSignedCheckpoint S)))
        → IsOpen m
        → Agrees c.signed_checkpoint.checkpoint.root c
        → (let root = c.signed_checkpoint.checkpoint.root in
            let m' = push_root S keccak hash_message recover_signer root c m in
            let r =
              at_quorum S keccak hash_message recover_signer threshold
                (lookup_root S keccak hash_message recover_signer root m')
                later in
            (IsFound r × (threshold ≤ 1 + tally root m)) ⊎ ((r ≡ later) × IsOpen m'))
    counted_cases c m later open_m agrees =
        let root = c.signed_checkpoint.checkpoint.root in
        let m' = push_root S keccak hash_message recover_signer root c m in
        let agreed' : AllAgree m' =
          AllAgree-push S keccak hash_message recover_signer domain index c root m agrees
            open_m.agreed in
        let pushed = tally-push S keccak hash_message recover_signer domain index root root c m in
        let one_more : tally root m' ≡ 1 + tally root m =
          pushed ∙ ap (λ b. (if b then 1 else 0) + tally root m) (bytes_eq_refl root) in
        let (cs, found, count) =
          tally-lookup S keccak hash_message recover_signer domain index root m'
            (omega (arith, one_more)) in
        elim (Bool-cases (leb threshold (length cs))) [
          | inl enough ↦
              let (made, is_made) =
                multisig_of-Agrees S keccak hash_message recover_signer domain index root cs
                  (lookup-Agrees S keccak hash_message recover_signer domain index root m' cs
                    agreed' found)
                  (omega (arith, count, one_more)) in
              inl (
                (made, rw found (rw enough (rw is_made refl))),
                omega (arith, count, one_more, leb→le threshold (length cs) enough),
              )
          | inr few ↦ inr (
            rw found (rw few refl),
            record {
              agreed = agreed';
              short = λ other. elim (Bool-cases (bytes_eq root other)) [
                | inl y ↦
                    subst (λ z. tally z m' < threshold) (bytes_eq→eq root other y)
                      (omega (arith, count, leb→gt threshold (length cs) few))
                | inr n ↦
                    let kept : tally other m' ≡ 0 + tally other m = rw n at (
                      tally-push S keccak hash_message recover_signer domain index other root c
                        m) in
                    omega (arith, kept, open_m.short other)
              ];
            },
          )
        ]

    -- Some root has enough votes and a multisig checkpoint is found, or no root has and none is.
    abbrev pub Decided : (H256 → ℕ) → Result (Option (MultisigSignedCheckpoint S)) → Type 0
    Decided votes r =
        (IsFound r × ((root : H256) × (threshold ≤ votes root)))
        ⊎ ((r ≡ ok none) × ((root : H256) → votes root < threshold))

    Decided-eq :
        (f g : H256 → ℕ) (r r' : Result (Option (MultisigSignedCheckpoint S)))
        → ((root : H256) → f root ≡ g root)
        → r ≡ r'
        → Decided g r'
        → Decided f r
    Decided-eq f g r r' same e (inl ((m, found), (root, le))) =
        inl ((m, e ∙ found), (root, omega (arith, same root, le)))
    Decided-eq f g r r' same e (inr (nothing, all)) =
        inr (e ∙ nothing, λ root. omega (arith, same root, all root))

    loop-Decided :
        (syncers : List (ℕ × CheckpointSyncer S)) (m : Roots)
        → AllSound syncers
        → IsOpen m
        → Decided (λ root. tally root m + support root syncers) (Loop m syncers)
    unfolding Support.support
    loop-Decided [] m sound open_m = inr (loop_nil m, λ root. omega (arith, open_m.short root))
    loop-Decided ((v, syncer) ∷ rest) m (here, sound) open_m =
        elim (vote_step S keccak hash_message recover_signer domain index v
          (syncer.fetch_checkpoint index) here) [
            | inl (is_ignored, off) ↦
                Decided-eq _ (λ root. tally root m + support root rest) _ (Loop m rest)
                  (λ root. rw (off root) (omega arith)) (loop_ignored v syncer rest m is_ignored)
                  (loop-Decided rest m sound open_m)
            | inr (c, is_counted, agrees, on) ↦
                let root = c.signed_checkpoint.checkpoint.root in
                let m' = push_root S keccak hash_message recover_signer root c m in
                let turn = loop_counted v syncer rest m c is_counted in
                elim (counted_cases c m (Loop m' rest) open_m agrees) [
                  | inl ((made, found), le) ↦ inl (
                    (made, turn ∙ found),
                    (root, rw (on root) (rw (bytes_eq_refl root) (omega (arith, le)))),
                  )
                  | inr (same, open') ↦
                      Decided-eq _ (λ other. tally other m' + support other rest) _ (Loop m' rest)
                        (λ other. rw (on other) (
                          omega (
                            arith,
                            tally-push S keccak hash_message recover_signer domain index other root
                                c m,
                          )))
                        (turn ∙ same) (loop-Decided rest m' sound open')
                ]
          ]

    -- Where each answer with a checkpoint has one of the domain with a signature that can be recovered,
    -- and the threshold is from 1 on, `fetch_checkpoint` ends without an error. It finds a multisig
    -- checkpoint for the index if there is a root that the syncers of so many validators have a
    -- checkpoint with, at the index and signed by the validator; and nothing if there is no such root.
    pub fetch_checkpoint-Decided :
        (syncers : List (ℕ × CheckpointSyncer S))
        → 1 ≤ threshold
        → AllSound syncers
        → Decided
            (λ root. support root syncers)
            (fetch_checkpoint S keccak hash_message recover_signer threshold syncers index)
    unfolding fetch_checkpoint
    fetch_checkpoint-Decided syncers pos sound =
        Decided-eq _ (λ root. tally root [] + support root syncers) _ (Loop [] syncers)
          (λ root. omega (arith, tally-nil S keccak hash_message recover_signer domain index root))
          refl
          (loop-Decided syncers [] sound (record {
            agreed = tt;
            short = λ root.
                omega
                  (arith, tally-nil S keccak hash_message recover_signer domain index root, pos);
          }))
