-- ===== src/Relayer/Fetcher.antt =====
-- rust/agents/relayer/src/checkpoint_fetcher.rs: the polling for signed checkpoints, which are handed
-- to the processors through a watch channel.
pub mod Order
use ethmexico.Base.{
  ℕ, leb, Bool, true, false, if◌then◌else◌, Option, none, some, List, [], ◌∷◌, ◌++◌,
}
use ethmexico.Base.Bytes.{Bytes, H256}
use ethmexico.Types.{MultisigSignedCheckpoint}
use ethmexico.Multisig
use ethmexico.Multisig.{CheckpointSyncer, latest_index, fetch_checkpoint}

-- `sent` are the values that the channel has had, after `None`.
pub record CheckpointFetcher (S : Type 0) : Type 0 where
  pub threshold : ℕ
  pub latest_signed_checkpoint_index : ℕ
  pub sent : List (MultisigSignedCheckpoint S)

-- What the fetcher meets in one turn: the syncers, and whether a processor still listens.
pub record Round (S : Type 0) : Type 0 where
  pub syncers : List (ℕ × CheckpointSyncer S)
  pub listening : Bool

pub data Ended : Type 0 where
  fine failing : Ended

module _ (S : Type 0) (keccak hash_message : Bytes → Bytes)
    (recover_signer : S → H256 → Option ℕ) where
  -- The state before the loop.
  unfoldable pub starting : ℕ → CheckpointFetcher S
  starting threshold = record {
    threshold = threshold;
    latest_signed_checkpoint_index = 0;
    sent = [];
  }

  abbrev pub send_fetched :
      Round S
      → CheckpointFetcher S
      → Multisig.Result (Option (MultisigSignedCheckpoint S))
      → CheckpointFetcher S × Ended
  send_fetched round f (Multisig.ok (some m)) =
      if round.listening
      then (
        record f { latest_signed_checkpoint_index = m.checkpoint.index; sent = f.sent ++ (m ∷ []) },
        fine,
      )
      else (f, failing)
  send_fetched round f (Multisig.ok none) = (f, fine)
  send_fetched round f (Multisig.err e) = (f, failing)

  unfoldable pub fetch_and_send_signed_checkpoint :
      Round S → ℕ → CheckpointFetcher S → CheckpointFetcher S × Ended
  fetch_and_send_signed_checkpoint round signed_checkpoint_index f = send_fetched round f (
      fetch_checkpoint S keccak hash_message recover_signer f.threshold round.syncers
        signed_checkpoint_index)

  -- One turn of the loop. An index that is not above the latest is passed over.
  abbrev pub with_index : Round S → CheckpointFetcher S → Option ℕ → CheckpointFetcher S × Ended
  with_index round f none = (f, fine)
  with_index round f (some signed_checkpoint_index) =
      if leb signed_checkpoint_index f.latest_signed_checkpoint_index
      then (f, fine)
      else fetch_and_send_signed_checkpoint round signed_checkpoint_index f

  unfoldable pub turn : Round S → CheckpointFetcher S → CheckpointFetcher S × Ended
  turn round f =
      with_index round f
        (latest_index S keccak hash_message recover_signer f.threshold round.syncers)

  abbrev pub go_on :
      CheckpointFetcher S × Ended
      → (CheckpointFetcher S → CheckpointFetcher S)
      → CheckpointFetcher S
  go_on (f, fine) next = next f
  go_on (f, failing) next = f

  -- The loop, over the rounds that it meets until it ends.
  unfoldable pub main_loop : List (Round S) → CheckpointFetcher S → CheckpointFetcher S
  main_loop [] f = f
  main_loop (round ∷ rounds) f = go_on (turn round f) (main_loop rounds)
