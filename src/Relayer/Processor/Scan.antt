-- ===== src/Relayer/Processor/Scan.antt =====
-- What becomes of the messages that rust/agents/relayer/src/msg/processor.rs scans.
use ethmexico.Base.{
  ℕ, suc, ◌+◌, ◌^◌, ◌<◌, ◌≤◌, ◌≡◌, refl, sym, subst, ◌∙◌, ◌⊎◌, inl, inr, ◌==◌, ==→eq, false,
  Bool-cases, Option, none, some, List, [], ◌∷◌, ◌++◌, append_assoc, length, All, All-snoc, AnyOf,
  AnyOf-append, AnyOf-snoc, arith,
}
use ethmexico.Base.Bytes.{Bytes}
use ethmexico.Db.Backend.{Rocks}
use ethmexico.Types.{MultisigSignedCheckpoint}
use ethmexico.Relayer.Builder.{MerkleTreeBuilder}
use ethmexico.Relayer.MatchingList.{MatchingList}
use ethmexico.Relayer.Submitter.{SubmitMessageArgs}
use ethmexico.Relayer.Processor.Moves
use ethmexico.Relayer.Processor.Moves.{stays, skips, sends, tick-Step}
use ethmexico.Relayer.Processor.{
  Moment, Ended, fine, failing, panicked, stuck, Processor, tick, starting, go_on, scan, main_loop,
}

module _ (S : Type 0) (rocks : Rocks) (keccak : Bytes → Bytes) (entity : Bytes) (local_domain : ℕ)
    (whitelist blacklist : MatchingList) where
  open rocks use {Store}

  abbrev P : Type 0
  P = Processor S rocks keccak entity

  abbrev IsSkipped : Moment S Store → ℕ → Type 0
  IsSkipped = Moves.IsSkipped S rocks keccak entity local_domain whitelist blacklist

  abbrev IsFor : P → Type 0
  IsFor = Moves.IsFor S rocks keccak entity local_domain whitelist blacklist

  abbrev Moved : Moment S Store → P → P → Type 0
  Moved = Moves.Moved S rocks keccak entity local_domain whitelist blacklist

  -- What was sent is in the order of the leaves.
  abbrev pub IsAscending : List (SubmitMessageArgs S) → Type 0
  IsAscending [] = Unit
  IsAscending (a ∷ as') =
      All (λ (b : SubmitMessageArgs S). a.leaf_index < b.leaf_index) as' × IsAscending as'

  IsAscending-snoc :
      (as' : List (SubmitMessageArgs S)) (x : SubmitMessageArgs S)
      → IsAscending as'
      → All (λ (a : SubmitMessageArgs S). a.leaf_index < x.leaf_index) as'
      → IsAscending (as' ++ (x ∷ []))
  IsAscending-snoc [] x h below = (tt, tt)
  IsAscending-snoc (a ∷ as') x (first, h) (lt, below) =
      (All-snoc _ as' x first lt, IsAscending-snoc as' x h below)

  below-later :
      (i j : ℕ) (as' : List (SubmitMessageArgs S))
      → i ≤ j
      → All (λ (a : SubmitMessageArgs S). a.leaf_index < i) as'
      → All (λ (a : SubmitMessageArgs S). a.leaf_index < j) as'
  below-later i j [] le h = tt
  below-later i j (a ∷ as') le (lt, h) = (omega arith, below-later i j as' le h)

  -- A leaf was sent, or the database said at one of the moments that it needs no sending.
  abbrev pub Accounted : List (Moment S Store) → List (SubmitMessageArgs S) → ℕ → Type 0
  Accounted past sent i =
      AnyOf (λ (a : SubmitMessageArgs S). a.leaf_index ≡ i) sent ⊎ AnyOf (λ e. IsSkipped e i) past

  pub record IsScanned (past : List (Moment S Store)) (p : P) : Type 0 where
    pub ascending : IsAscending p.tx_msg
    pub below : All (λ (a : SubmitMessageArgs S). a.leaf_index < p.message_leaf_index) p.tx_msg
    pub accounted : (i : ℕ) → i < p.message_leaf_index → Accounted past p.tx_msg i

  Accounted-later :
      (past es : List (Moment S Store)) (sent : List (SubmitMessageArgs S)) (i : ℕ)
      → Accounted past sent i
      → Accounted (past ++ es) sent i
  Accounted-later past es sent i (inl h) = inl h
  Accounted-later past es sent i (inr h) = inr (AnyOf-append _ past es h)

  Accounted-sent :
      (past : List (Moment S Store)) (sent : List (SubmitMessageArgs S)) (x : SubmitMessageArgs S)
      (i : ℕ)
      → Accounted past sent i
      → Accounted past (sent ++ (x ∷ [])) i
  Accounted-sent past sent x i (inl h) = inl (AnyOf-append _ sent (x ∷ []) h)
  Accounted-sent past sent x i (inr h) = inr h

  IsScanned-later :
      (past es : List (Moment S Store)) (p : P) → IsScanned past p → IsScanned (past ++ es) p
  IsScanned-later past es p h = record {
    ascending = h.ascending;
    below = h.below;
    accounted = λ i lt. Accounted-later past es p.tx_msg i (h.accounted i lt);
  }

  earlier :
      (j : ℕ) (p q : P)
      → q.message_leaf_index ≡ suc p.message_leaf_index
      → j < q.message_leaf_index
      → (j == p.message_leaf_index) ≡ false
      → j < p.message_leaf_index
  earlier j p q next lt other = ground arith

  Moved-IsScanned :
      (past : List (Moment S Store)) (e : Moment S Store) (p q : P)
      → p.message_leaf_index + 1 < 2 ^ 32
      → IsScanned past p
      → Moved e p q
      → IsScanned (past ++ (e ∷ [])) q
  Moved-IsScanned past e p q small h (stays t i) = record {
    ascending = rw t h.ascending;
    below = rw (t, i) h.below;
    accounted =
        λ j lt. rw t (Accounted-later past (e ∷ []) p.tx_msg j (h.accounted j (rw i at lt)));
  }
  Moved-IsScanned past e p q small h (skips t i k) =
      let next : q.message_leaf_index ≡ suc p.message_leaf_index = omega (arith, i) in
      record {
        ascending = rw t h.ascending;
        below = rw (t, next) (below-later _ _ p.tx_msg (omega arith) h.below);
        accounted = λ j lt. rw t (elim (Bool-cases (j == p.message_leaf_index)) [
          | inl here ↦ inr (
              AnyOf-snoc _ past e (subst (IsSkipped e) (sym (==→eq j p.message_leaf_index here)) k))
          | inr other ↦
              Accounted-later past (e ∷ []) p.tx_msg j (h.accounted j (earlier j p q next lt other))
        ]);
      }
  Moved-IsScanned past e p q small h (sends args at t i) =
      let next : q.message_leaf_index ≡ suc p.message_leaf_index = omega (arith, i) in
      record {
        ascending = rw t (IsAscending-snoc p.tx_msg args h.ascending (rw at h.below));
        below =
            rw (t, next)
              (All-snoc _ p.tx_msg args (below-later _ _ p.tx_msg (omega arith) h.below)
                (omega (arith, at)));
        accounted = λ j lt. rw t (elim (Bool-cases (j == p.message_leaf_index)) [
          | inl here ↦
              inl (AnyOf-snoc _ p.tx_msg args (at ∙ sym (==→eq j p.message_leaf_index here)))
          | inr other ↦ Accounted-sent (past ++ (e ∷ [])) p.tx_msg args j (
              Accounted-later past (e ∷ []) p.tx_msg j
                (h.accounted j (earlier j p q next lt other)))
        ]);
      }

  IsScanned-eq :
      (past past' : List (Moment S Store)) (p : P)
      → past ≡ past'
      → IsScanned past p
      → IsScanned past' p
  IsScanned-eq past past' p e h = subst (λ x. IsScanned x p) e h

  Moved-index :
      (e : Moment S Store) (p q : P)
      → p.message_leaf_index + 1 < 2 ^ 32
      → Moved e p q
      → q.message_leaf_index ≤ p.message_leaf_index + 1
  Moved-index e p q small (stays t i) = omega (arith, i)
  Moved-index e p q small (skips t i k) = omega (arith, i)
  Moved-index e p q small (sends args at t i) = omega (arith, i)

  go_on_either :
      (next : P → P × Ended) (Q : P → Type 0) (r : P × Ended)
      → Q r.0
      → Q (next r.0).0
      → Q (go_on S rocks keccak entity next r).0
  go_on_either next Q (q, fine) here later = later
  go_on_either next Q (q, failing) here later = here
  go_on_either next Q (q, panicked) here later = here
  go_on_either next Q (q, stuck) here later = here

  -- The scan over more ticks, whether it goes on after the first one or not.
  loop-IsScanned :
      (past es : List (Moment S Store)) (p : P)
      → IsFor p
      → p.message_leaf_index + length es < 2 ^ 32
      → IsScanned past p
      → IsScanned (past ++ es) (scan S rocks keccak entity es p).0
  unfolding scan
  loop-IsScanned past [] p f small h = IsScanned-later past [] p h
  loop-IsScanned past (e ∷ es) p f small h =
      let q = (tick S rocks keccak entity e p).0 in
      let s = tick-Step S rocks keccak entity local_domain whitelist blacklist e p f in
      let joined : (past ++ (e ∷ [])) ++ es ≡ past ++ (e ∷ es) = append_assoc past (e ∷ []) es in
      let scanned : IsScanned (past ++ (e ∷ [])) q =
        Moved-IsScanned past e p q (omega arith) h s.moved in
      go_on_either (scan S rocks keccak entity es) (IsScanned (past ++ (e ∷ es)))
        (tick S rocks keccak entity e p)
        (IsScanned-eq _ _ q joined (IsScanned-later (past ++ (e ∷ [])) es q scanned))
        (IsScanned-eq _ _ _ joined (
          loop-IsScanned (past ++ (e ∷ [])) es q s.for_inbox
            (omega (arith, Moved-index e p q (omega arith) s.moved)) scanned))

  -- Whatever checkpoints a new processor sees first, and over any fewer than 2 ^ 32 ticks after that,
  -- however the last one ends: what was sent is in
  -- strictly ascending order of the leaf indices, each below the index of the scan. Each index below it
  -- was sent, or the database said at one of the ticks that the message there is marked with a status,
  -- or is for another domain, not on the whitelist, or on the blacklist.
  pub main_loop-IsScanned :
      (seen : List (Option (MultisigSignedCheckpoint S))) (es : List (Moment S Store))
      (prover_sync : MerkleTreeBuilder)
      → length es < 2 ^ 32
      → IsScanned es
          (main_loop S rocks keccak entity seen es
            (starting S rocks keccak entity local_domain whitelist blacklist prover_sync)).0
  unfolding main_loop starting
  main_loop-IsScanned [] es prover_sync small = record {
    ascending = tt;
    below = tt;
    accounted = λ i lt. absurd (omega arith);
  }
  main_loop-IsScanned (none ∷ seen) es prover_sync small =
      main_loop-IsScanned seen es prover_sync small
  main_loop-IsScanned (some checkpoint ∷ seen) es prover_sync small =
      let p = starting S rocks keccak entity local_domain whitelist blacklist prover_sync in
      loop-IsScanned [] es p (record { domain_is = refl; whitelist_is = refl; blacklist_is = refl })
        (omega (arith, small))
        (record { ascending = tt; below = tt; accounted = λ i lt. absurd (omega arith) })
