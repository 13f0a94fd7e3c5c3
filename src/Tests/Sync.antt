-- ===== src/Tests/Sync.antt =====
-- The indexer, the syncers of the validators, and the fetcher.
use ethmexico.Base.{
  ℕ, zero, suc, ◌≡◌, ◌≢◌, ◌≤◌, ◌<◌, ◌+◌, ◌⊎◌, inl, inr, refl, sym, ap, subst, Option, none, some,
  List, [], ◌∷◌, ◌++◌, true, false, if◌then◌else◌, ◌==◌, length, replicate, arith, All, u32_max,
}
use ethmexico.Base.Bytes.{Bytes, H256, bytes_eq}
use ethmexico.Types.{
  Checkpoint, MultisigSignedCheckpoint, RawCommittedMessage, encode_message, raw_leaf,
  decode_message, committed_of_raw, encode_raw_message,
}
use ethmexico.Codec.{read_exact, decode_u32, encode_h256, encode_u32}
use ethmexico.Codec.Words.{be_bytes, from_be_loop}
use ethmexico.Db.Backend.{Outcome}
use ethmexico.Db.{
  retrieve_decodable, prefix_retrieve, store_leaf, store_keyed, store_encodable, prefix_store,
  update_latest_leaf_index, full_key, update_latest_leaf_index_for_destination,
  retrieve_latest_leaf_index_for_destination, retrieve_keyed, store_latest_message, store_messages,
  store_messages_loop, store_raw_committed_message, leaf_by_leaf_index, retrieve_latest_leaf_index,
}
use ethmexico.ContractSync.{
  Chain, OutboxSync, fine, outbox_turn, above, before, no_gaps, range_end,
  store_latest_valid_message_range_start_block, valid_continuation,
}
use ethmexico.ContractSync.Filled.{Filled}
use ethmexico.ContractSync.Progress.{IsOutbox, start, later, Reaches-Filled}
use ethmexico.ContractSync.Asked.{Has, IsComplete, Covered}
use ethmexico.ContractSync
use ethmexico.ContractSync.Covered.{Follows-Covered}
use ethmexico.Multisig
use ethmexico.Multisig.{CheckpointSyncer, fetch_checkpoint}
use ethmexico.Multisig.Votes.{validators, IsMap}
use ethmexico.Multisig.Quorum.{IsQuorum}
use ethmexico.Multisig.Fetch.{fetch_checkpoint-IsQuorum}
use ethmexico.Relayer.Fetcher.{Round, starting, main_loop}
use ethmexico.Relayer.Fetcher.Order.{Ordered, main_loop-Ordered}
use ethmexico.Tests.Setting.{
  toy_hash, toy_hash-IsH256, map_rocks, entity, raw_hello, raw_goodbye, store_one, FunctionStore,
}
use ethmexico.Tests.Store.{latest_one, leaf_hello}
use mathlib.Core.List.{Mem}

abbrev outbox : Chain RawCommittedMessage
outbox = record {
  finalized_block_number = some 200;
  fetch = λ from to. some (raw_hello ∷ (raw_goodbye ∷ []));
}

abbrev sync : OutboxSync
sync = record { from = 100; last_valid_range_start_block = 100 }

outbox-IsOutbox : IsOutbox outbox
unfolding IsOutbox
outbox-IsOutbox from to ms h =
    let is_it : raw_hello ∷ (raw_goodbye ∷ []) ≡ ms = cc in
    subst (All (λ (m : RawCommittedMessage). m.leaf_index < u32_max)) is_it
      (omega arith, (omega arith, tt))

store_one-Filled : Filled map_rocks toy_hash entity 0 0 store_one
store_one-Filled = record {
  latest = latest_one;
  fits = omega arith;
  leaves = λ i low high. (
    raw_leaf toy_hash raw_hello,
    subst
        (λ k.
          leaf_by_leaf_index map_rocks toy_hash entity k store_one
          ≡ Outcome.ok (some (raw_leaf toy_hash raw_hello)))
        (zero_only i high) leaf_hello,
  );
}
  where
    zero_only : (i : ℕ) → i ≤ 0 → 0 ≡ i
    zero_only i h = omega arith

abbrev synced : OutboxSync × FunctionStore
synced = (outbox_turn map_rocks toy_hash entity 50 outbox (sync, store_one)).0

synced_fine : outbox_turn map_rocks toy_hash entity 50 outbox (sync, store_one) ≡ (synced, fine)
unfolding store_raw_committed_message outbox_turn retrieve_latest_leaf_index retrieve_decodable
    prefix_retrieve decode_message read_exact encode_message be_bytes store_leaf store_keyed
    store_encodable prefix_store update_latest_leaf_index bytes_eq full_key
    update_latest_leaf_index_for_destination retrieve_latest_leaf_index_for_destination
    retrieve_keyed from_be_loop decode_u32 encode_h256 encode_u32 above before no_gaps range_end
    store_latest_valid_message_range_start_block valid_continuation store_latest_message
    store_messages store_messages_loop committed_of_raw encode_raw_message raw_leaf toy_hash
synced_fine = refl

Reaches-Filled_example :
    (last' : ℕ) × (0 ≤ last') × Filled map_rocks toy_hash entity 0 last' (synced.1)
Reaches-Filled_example =
    Reaches-Filled map_rocks toy_hash entity 50 0 0 (sync, store_one) synced toy_hash-IsH256
      store_one-Filled (later outbox start outbox-IsOutbox synced_fine)

-- The first message was logged in block 50, the second one in block 150.
abbrev Logged : ℕ → ℕ → Type 0
Logged block i = ((block ≡ 50) × (i ≡ 0)) ⊎ ((block ≡ 150) × (i ≡ 1))

outbox-IsComplete : IsComplete map_rocks toy_hash entity 50 Logged 0 outbox
outbox-IsComplete = record {
  found = λ tip from to block i ms known top answered here low high.
      let is_it : raw_hello ∷ (raw_goodbye ∷ []) ≡ ms = cc in
      subst (Has i) is_it (elim here [ inl (_, e) ↦ inl (sym e) | inr (_, e) ↦ inr (inl (sym e)) ]);
  room = λ tip known. omega (arith, ap (get_or 0) known);
}
  where
    get_or : ℕ → Option ℕ → ℕ
    get_or d none = d
    get_or d (some n) = n

store_one-Covered : Covered map_rocks toy_hash entity 50 Logged 0 0 (sync, store_one)
store_one-Covered = record { filled = store_one-Filled; below_from = below; below_start = below }
  where
    below : (block i : ℕ) → Logged block i → block < 100 → i ≤ 0
    below block i (inl (at, e)) lt = omega arith
    below block i (inr (at, e)) lt = absurd (omega arith)

synced_from : synced.0.from ≡ 151
unfolding store_raw_committed_message outbox_turn retrieve_latest_leaf_index retrieve_decodable
    prefix_retrieve decode_message read_exact encode_message be_bytes store_leaf store_keyed
    store_encodable prefix_store update_latest_leaf_index bytes_eq full_key
    update_latest_leaf_index_for_destination retrieve_latest_leaf_index_for_destination
    retrieve_keyed from_be_loop decode_u32 encode_h256 encode_u32 above before no_gaps range_end
    store_latest_valid_message_range_start_block valid_continuation store_latest_message
    store_messages store_messages_loop committed_of_raw encode_raw_message raw_leaf toy_hash
synced_from = refl

Follows-Covered_example :
    (leaf : H256) × (leaf_by_leaf_index map_rocks toy_hash entity 1 synced.1
      ≡ Outcome.ok (some leaf))
Follows-Covered_example =
    Follows-Covered map_rocks toy_hash entity 50 Logged 0 0 (sync, store_one) synced toy_hash-IsH256
      store_one-Covered
      (ContractSync.Covered.later outbox ContractSync.Covered.start outbox-IsOutbox
        outbox-IsComplete synced_fine)
      150 1 (inr (refl, refl)) (omega (arith, synced_from)) (omega arith)

-- Signatures are the signers' numbers.
abbrev pub signer_of : ℕ → H256 → Option ℕ
signer_of signature hash = some signature

abbrev checkpoint : Checkpoint
checkpoint = record { outbox_domain = 1000; root = replicate 32 5; index = 3 }

abbrev syncer : ℕ → CheckpointSyncer ℕ
syncer v = record {
  latest_index = some (some 3);
  fetch_checkpoint = λ index.
      if index == 3 then some (some (record { checkpoint = checkpoint; signature = v })) else none;
}

abbrev pub syncers : List (ℕ × CheckpointSyncer ℕ)
syncers = (22, syncer 22) ∷ ((11, syncer 11) ∷ [])

abbrev quorum : MultisigSignedCheckpoint ℕ
quorum = record { checkpoint = checkpoint; signatures = 11 ∷ (22 ∷ []) }

syncers-IsMap : IsMap (validators syncers)
unfolding IsMap
syncers-IsMap = ((omega arith, tt), (tt, tt))

quorum_found :
    fetch_checkpoint ℕ toy_hash toy_hash signer_of 2 syncers 3 ≡ Multisig.ok (some quorum)
unfolding fetch_checkpoint Multisig.fetch_loop Multisig.vote Multisig.recover Multisig.lookup_root
    Multisig.push_root ethmexico.Base.Bytes.bytes_eq Multisig.multisig_of Multisig.all_for
    Multisig.sort_by_signer Multisig.insert_by_signer
quorum_found = refl

fetch_checkpoint-IsQuorum_example :
    IsQuorum ℕ toy_hash toy_hash signer_of 2 3 (λ v. Mem v (validators syncers)) quorum
fetch_checkpoint-IsQuorum_example =
    fetch_checkpoint-IsQuorum ℕ toy_hash toy_hash signer_of 2 3 syncers quorum syncers-IsMap
      quorum_found

abbrev rounds : List (Round ℕ)
rounds =
    record { syncers = syncers; listening = true }
    ∷ (record { syncers = syncers; listening = true } ∷ [])

main_loop-Ordered_example :
    Ordered ℕ toy_hash toy_hash signer_of
      (main_loop ℕ toy_hash toy_hash signer_of rounds (starting ℕ toy_hash toy_hash signer_of 2))
main_loop-Ordered_example =
    main_loop-Ordered ℕ toy_hash toy_hash signer_of 2 rounds (syncers-IsMap, (syncers-IsMap, tt))
