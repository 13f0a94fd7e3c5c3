-- ===== src/Relayer/Fetcher/Order.antt =====
-- Which checkpoints rust/agents/relayer/src/checkpoint_fetcher.rs hands on, and in which order.
use ethmexico.Base.{
  ℕ, ◌<◌, ◌≤◌, ◌≡◌, refl, sym, subst, leb, leb→gt, Bool-cases, inl, inr, Option, none, some, List,
  [], ◌∷◌, ◌++◌, All, arith,
}
use ethmexico.Base.Bytes.{Bytes, H256}
use ethmexico.Types.{MultisigSignedCheckpoint}
use ethmexico.Multisig
use ethmexico.Multisig.{CheckpointSyncer, latest_index, fetch_checkpoint}
use ethmexico.Multisig.Votes.{validators, IsMap}
use ethmexico.Multisig.Fetch.{fetch_checkpoint-IsQuorum}
use ethmexico.Relayer.Fetcher.{
  CheckpointFetcher, Round, Ended, fine, failing, starting, send_fetched,
  fetch_and_send_signed_checkpoint, with_index, turn, go_on, main_loop,
}

module _ (S : Type 0) (keccak hash_message : Bytes → Bytes)
    (recover_signer : S → H256 → Option ℕ) where
  -- Checkpoints with indices from above a bound on, strictly ascending, up to another.
  unfoldable pub IsAscending : ℕ → ℕ → List (MultisigSignedCheckpoint S) → Type 0
  IsAscending low high [] = low ≤ high
  IsAscending low high (m ∷ ms) =
      (low < m.checkpoint.index) × IsAscending m.checkpoint.index high ms

  IsAscending-snoc :
      (low high : ℕ) (ms : List (MultisigSignedCheckpoint S)) (m : MultisigSignedCheckpoint S)
      → IsAscending low high ms
      → high < m.checkpoint.index
      → IsAscending low m.checkpoint.index (ms ++ (m ∷ []))
  unfolding IsAscending
  IsAscending-snoc low high [] m asc lt = (omega arith, omega arith)
  IsAscending-snoc low high (k ∷ ms) m (first, asc) lt =
      (first, IsAscending-snoc k.checkpoint.index high ms m asc lt)

  abbrev pub Ordered : CheckpointFetcher S → Type 0
  Ordered f = IsAscending 0 f.latest_signed_checkpoint_index f.sent

  send_fetched-Ordered :
      (round : Round S) (f : CheckpointFetcher S) (index : ℕ)
      (r : Multisig.Result (Option (MultisigSignedCheckpoint S)))
      → ((m : MultisigSignedCheckpoint S) → r ≡ Multisig.ok (some m) → m.checkpoint.index ≡ index)
      → f.latest_signed_checkpoint_index < index
      → Ordered f
      → Ordered (send_fetched S keccak hash_message recover_signer round f r).0
  send_fetched-Ordered round f index (Multisig.ok (some m)) at above ordered =
      elim (Bool-cases round.listening) [
        | inl y ↦ rw y (
            IsAscending-snoc 0 f.latest_signed_checkpoint_index f.sent m ordered
              (subst (λ k. f.latest_signed_checkpoint_index < k) (sym (at m refl)) above))
        | inr n ↦ rw n ordered
      ]
  send_fetched-Ordered round f index (Multisig.ok none) at above ordered = ordered
  send_fetched-Ordered round f index (Multisig.err e) at above ordered = ordered

  with_index-Ordered :
      (round : Round S) (f : CheckpointFetcher S) (o : Option ℕ)
      → IsMap (validators round.syncers)
      → Ordered f
      → Ordered (with_index S keccak hash_message recover_signer round f o).0
  unfolding fetch_and_send_signed_checkpoint
  with_index-Ordered round f none once ordered = ordered
  with_index-Ordered round f (some index) once ordered =
      elim (Bool-cases (leb index f.latest_signed_checkpoint_index)) [
        | inl y ↦ rw y ordered
        | inr n ↦ rw n (
            send_fetched-Ordered round f index
              (fetch_checkpoint S keccak hash_message recover_signer f.threshold round.syncers
                index)
              (λ m e.
                (fetch_checkpoint-IsQuorum S keccak hash_message recover_signer f.threshold index
                  round.syncers m once e).indexed)
              (leb→gt index f.latest_signed_checkpoint_index n) ordered)
      ]

  go_on-Ordered :
      (r : CheckpointFetcher S × Ended) (next : CheckpointFetcher S → CheckpointFetcher S)
      → ((f : CheckpointFetcher S) → Ordered f → Ordered (next f))
      → Ordered r.0
      → Ordered (go_on S keccak hash_message recover_signer r next)
  go_on-Ordered (f, fine) next keeps ordered = keeps f ordered
  go_on-Ordered (f, failing) next keeps ordered = ordered

  main_loop-keeps :
      (rounds : List (Round S)) (f : CheckpointFetcher S)
      → All (λ (r : Round S). IsMap (validators r.syncers)) rounds
      → Ordered f
      → Ordered (main_loop S keccak hash_message recover_signer rounds f)
  unfolding main_loop turn
  main_loop-keeps [] f all ordered = ordered
  main_loop-keeps (round ∷ rounds) f (once, all) ordered =
      go_on-Ordered (turn S keccak hash_message recover_signer round f)
        (main_loop S keccak hash_message recover_signer rounds)
        (λ g o. main_loop-keeps rounds g all o) (with_index-Ordered round f _ once ordered)

  -- Whatever the fetcher meets, where each validator has one syncer, the checkpoints that it hands
  -- on have strictly ascending indices, from 1 on, and none is above the latest index that it
  -- knows.
  pub main_loop-Ordered :
      (threshold : ℕ) (rounds : List (Round S))
      → All (λ (r : Round S). IsMap (validators r.syncers)) rounds
      → Ordered (
          main_loop S keccak hash_message recover_signer rounds
            (starting S keccak hash_message recover_signer threshold))
  unfolding starting IsAscending
  main_loop-Ordered threshold rounds all = main_loop-keeps rounds _ all (omega arith)
