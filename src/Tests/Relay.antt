-- ===== src/Tests/Relay.antt =====
-- The processor and the submitter.
use ethmexico.Base.{
  ℕ, zero, suc, ◌≡◌, ◌≤◌, ◌+◌, ◌%◌, ◌^◌, ◌⊎◌, refl, none, some, List, [], ◌∷◌, ◌++◌, true, get_or,
  arith,
}
use ethmexico.Base.Bytes.{H256, bytes_eq, zero_h256}
use ethmexico.Accumulator.{tree_depth}
use ethmexico.Accumulator.Merkle.{Proof, proof_root}
use ethmexico.Accumulator.Level.{complete_root}
use ethmexico.Codec
use ethmexico.Codec.{read_exact, decode_u32, encode_h256, encode_u32}
use ethmexico.Codec.Words.{be_bytes, from_be_loop}
use ethmexico.Types.{
  Checkpoint, MultisigSignedCheckpoint, RawCommittedMessage, CommittedMessage, encode_message,
  raw_leaf, decode_message, committed_of_raw, encode_raw_message,
}
use ethmexico.Db.Backend.{Outcome}
use ethmexico.Db.{
  retrieve_decodable, prefix_retrieve, store_leaf, store_keyed, store_encodable, prefix_store,
  update_latest_leaf_index, full_key, update_latest_leaf_index_for_destination,
  retrieve_latest_leaf_index_for_destination, retrieve_keyed, store_raw_committed_message,
  leaf_by_leaf_index, message_by_leaf_index, message_by_leaf, retrieve_latest_leaf_index,
  retrieve_leaf_processing_status, mark_leaf_as_processed,
}
use ethmexico.Relayer.Builder.{MerkleTreeBuilder, new}
use ethmexico.Relayer.Builder.Laws.{first, Synced, new-Synced}
use ethmexico.Relayer.MatchingList.{msg_matches}
use ethmexico.Relayer.Processor
use ethmexico.Relayer.Processor.{MessageProcessor, Moment, Ended, leaves_after, wait_for_checkpoint}
use ethmexico.Relayer.Processor.Sends.{Sent, tick_sends}
use ethmexico.Relayer.Processor.Delivers.{Candidate, Honest, tick_delivers}
use ethmexico.Relayer.Submitter
use ethmexico.Relayer.Submitter.{
  SubmitMessageArgs, SerialSubmitter, SerialSubmitterMetrics, Chain, new_args, answer, failure,
  unprocessed, retried,
}
use ethmexico.Relayer.Submitter.Tick.{queue}
use ethmexico.Relayer.Submitter.Delivery.{tick_delivers_or_keeps}
use ethmexico.Relayer.Submitter.Progress.{Answers, Turn, arrived, Taken, work_loop-reaches}
use ethmexico.Tests.Setting.{
  toy_hash, map_rocks, entity, hello, raw_hello, raw_goodbye, store_two, empty_store, FunctionStore,
}

abbrev leaves : ℕ → H256
leaves = get_or zero_h256 (raw_leaf toy_hash raw_hello ∷ (raw_leaf toy_hash raw_goodbye ∷ []))

abbrev signed : MultisigSignedCheckpoint ℕ
signed = record {
  checkpoint = record {
    outbox_domain = 1000;
    root = complete_root toy_hash tree_depth (first leaves 2);
    index = 1;
  };
  signatures = 11 ∷ (22 ∷ []);
}

abbrev pub moment : Moment ℕ FunctionStore
moment = record {
  before = store_two;
  after = store_two;
  seen = none ∷ (some signed ∷ []);
  receiving = true;
  now = 17;
}

abbrev pub fresh : MerkleTreeBuilder
fresh = new toy_hash (leaves_after ℕ map_rocks toy_hash entity moment)

abbrev processor : MessageProcessor ℕ
processor = record {
  local_domain = 43113;
  whitelist = none;
  blacklist = none;
  tx_msg = [];
  prover_sync = fresh;
  message_leaf_index = 0;
}

abbrev committed : CommittedMessage
committed = record { leaf_index = 0; message = hello }

no_status : retrieve_leaf_processing_status map_rocks toy_hash entity 0 store_two ≡ Outcome.ok none
unfolding retrieve_leaf_processing_status store_raw_committed_message retrieve_latest_leaf_index
    retrieve_decodable prefix_retrieve decode_message read_exact encode_message be_bytes store_leaf
    store_keyed store_encodable prefix_store update_latest_leaf_index bytes_eq full_key
    update_latest_leaf_index_for_destination retrieve_latest_leaf_index_for_destination
    retrieve_keyed from_be_loop decode_u32 encode_h256 encode_u32 raw_leaf toy_hash
no_status = refl

has_raw : message_by_leaf_index map_rocks toy_hash entity 0 store_two ≡ Outcome.ok (some raw_hello)
unfolding message_by_leaf_index message_by_leaf leaf_by_leaf_index encode_raw_message
    store_raw_committed_message retrieve_latest_leaf_index retrieve_decodable prefix_retrieve
    decode_message read_exact encode_message be_bytes store_leaf store_keyed store_encodable
    prefix_store update_latest_leaf_index bytes_eq full_key update_latest_leaf_index_for_destination
    retrieve_latest_leaf_index_for_destination retrieve_keyed from_be_loop decode_u32 encode_h256
    encode_u32 raw_leaf toy_hash Codec.decode_h256 ethmexico.Types.decode_raw_message
has_raw = refl

has_first : leaf_by_leaf_index map_rocks toy_hash entity 0 store_two ≡ Outcome.ok (some (leaves 0))
unfolding leaf_by_leaf_index store_raw_committed_message retrieve_latest_leaf_index
    retrieve_decodable prefix_retrieve decode_message read_exact encode_message be_bytes store_leaf
    store_keyed store_encodable prefix_store update_latest_leaf_index bytes_eq full_key
    update_latest_leaf_index_for_destination retrieve_latest_leaf_index_for_destination
    retrieve_keyed from_be_loop decode_u32 encode_h256 encode_u32 raw_leaf toy_hash
    Codec.decode_h256
has_first = refl

has_second : leaf_by_leaf_index map_rocks toy_hash entity 1 store_two ≡ Outcome.ok (some (leaves 1))
unfolding leaf_by_leaf_index store_raw_committed_message retrieve_latest_leaf_index
    retrieve_decodable prefix_retrieve decode_message read_exact encode_message be_bytes store_leaf
    store_keyed store_encodable prefix_store update_latest_leaf_index bytes_eq full_key
    update_latest_leaf_index_for_destination retrieve_latest_leaf_index_for_destination
    retrieve_keyed from_be_loop decode_u32 encode_h256 encode_u32 raw_leaf toy_hash
    Codec.decode_h256
has_second = refl

decoded : committed_of_raw raw_hello ≡ Codec.ok committed
unfolding committed_of_raw decode_message encode_message be_bytes from_be_loop decode_u32 read_exact
decoded = refl

hello-Candidate : Candidate ℕ map_rocks toy_hash entity moment processor committed
unfolding msg_matches ethmexico.Relayer.MatchingList.list_matches
hello-Candidate = record {
  raw = raw_hello;
  unprocessed = no_status;
  stored = has_raw;
  decoded = decoded;
  destined = refl;
  listed = refl;
  unlisted = refl;
}

signed-Honest : Honest ℕ map_rocks toy_hash entity moment leaves signed
signed-Honest = record { has = has; positive = omega arith; fits = omega arith; signed = refl }
  where
    has :
        (k : ℕ)
        → k ≤ 1
        → leaf_by_leaf_index map_rocks toy_hash entity k store_two ≡ Outcome.ok (some (leaves k))
    has zero h = has_first
    has (suc zero) h = has_second
    has (suc (suc k)) h = absurd (omega arith)

fresh-Synced :
    Synced toy_hash (leaves_after ℕ map_rocks toy_hash entity moment) fresh (first leaves 0)
unfolding first
fresh-Synced = new-Synced toy_hash (leaves_after ℕ map_rocks toy_hash entity moment)

waited : wait_for_checkpoint ℕ map_rocks toy_hash entity 0 (none ∷ (some signed ∷ [])) ≡ some signed
unfolding wait_for_checkpoint
waited = refl

tick_delivers_example :
    (b : MerkleTreeBuilder) × (proof : Proof) × (Processor.tick ℕ map_rocks toy_hash entity moment
        processor
      ≡ (
        record processor {
          prover_sync = b;
          tx_msg = [] ++ (new_args 0 committed signed proof 17 ∷ []);
          message_leaf_index = (0 + 1) % 2 ^ 32;
        },
        Processor.fine,
      ))
    × Synced toy_hash (leaves_after ℕ map_rocks toy_hash entity moment) b (first leaves (1 + 1))
    × (proof.leaf ≡ leaves 0)
    × (proof.index ≡ 0)
    × (proof_root toy_hash proof ≡ some (signed.checkpoint.root))
tick_delivers_example =
    tick_delivers ℕ map_rocks toy_hash entity moment leaves 0 processor committed signed
      hello-Candidate waited signed-Honest fresh-Synced (omega arith) refl

abbrev after_tick : MessageProcessor ℕ
after_tick = (Processor.tick ℕ map_rocks toy_hash entity moment processor).0

ticked : Processor.tick ℕ map_rocks toy_hash entity moment processor ≡ (after_tick, Processor.fine)
ticked =
    let (b, proof, run, _, _, _, _) =
      tick_delivers ℕ map_rocks toy_hash entity moment leaves 0 processor committed signed
        hello-Candidate waited signed-Honest fresh-Synced (omega arith) refl in
    ends_well _ _ run
  where
    ends_well :
        (x : MessageProcessor ℕ × Processor.Ended) (p : MessageProcessor ℕ)
        → x ≡ (p, Processor.fine)
        → x ≡ (x.0, Processor.fine)
    ends_well x p e = rw e refl

tick_sends_example :
    (after_tick.tx_msg ≡ []) ⊎ Sent ℕ map_rocks toy_hash entity moment processor after_tick
tick_sends_example = tick_sends ℕ map_rocks toy_hash entity moment processor after_tick ticked

abbrev args : SubmitMessageArgs ℕ
args = new_args 0 committed signed (record { leaf = zero_h256; index = 0; path = [] }) 17

abbrev submitter : SerialSubmitter ℕ FunctionStore
submitter = record {
  rx = args ∷ [];
  connected = true;
  wait_queue = [];
  run_queue = record args { leaf_index = 5 } ∷ [];
  db = empty_store;
  metrics = record {
    run_queue_length_gauge = 0;
    wait_queue_length_gauge = 0;
    processed_gauge = 0;
    messages_processed_count = 0;
    max_submitted_leaf_index = 0;
  };
}

-- The inbox has not seen the message, and takes it.
abbrev accepting : Chain ℕ
accepting = record {
  message_status = λ leaf. answer unprocessed;
  process = λ checkpoint message proof. answer tt;
}

abbrev submitted : SerialSubmitter ℕ FunctionStore
submitted = (Submitter.tick ℕ map_rocks toy_hash entity accepting submitter).0

submitted_fine :
    Submitter.tick ℕ map_rocks toy_hash entity accepting submitter ≡ (submitted, Submitter.fine)
unfolding Submitter.tick Submitter.pick Submitter.dispatch Submitter.process_message
    Submitter.record_message_process_success Submitter.promoted Submitter.received Submitter.promote
    Submitter.receive mark_leaf_as_processed store_keyed store_encodable prefix_store
submitted_fine = refl

tick_delivers_or_keeps_example :
    ((queue ℕ map_rocks toy_hash entity submitted ≡ record args { leaf_index = 5 } ∷ [])
      × (retrieve_leaf_processing_status map_rocks toy_hash entity 0 submitted.db
          ≡ Outcome.ok (some true)))
    ⊎ (queue ℕ map_rocks toy_hash entity submitted
        ≡ (record args { leaf_index = 5 } ∷ []) ++ (retried ℕ map_rocks toy_hash entity args ∷ []))
unfolding new_args
tick_delivers_or_keeps_example =
    tick_delivers_or_keeps ℕ map_rocks toy_hash entity accepting submitter submitted args
      (record args { leaf_index = 5 } ∷ []) refl submitted_fine

accepting-Answers : Answers ℕ map_rocks toy_hash entity accepting
unfolding mark_leaf_as_processed store_keyed store_encodable prefix_store
accepting-Answers = record {
  status_known = λ leaf h. cc;
  writable =
      λ leaf_index db. ((mark_leaf_as_processed map_rocks toy_hash entity leaf_index db).1, refl);
}

abbrev between : SerialSubmitter ℕ FunctionStore
between = record submitter { rx = []; run_queue = args ∷ (record args { leaf_index = 5 } ∷ []) }

-- One message arrives, with two before it.
abbrev turns : List (Turn ℕ map_rocks toy_hash entity)
turns =
    record { arrivals = record args { leaf_index = 7 } ∷ []; chain = accepting }
    ∷ (record { arrivals = []; chain = accepting }
        ∷ (record { arrivals = []; chain = accepting } ∷ []))

work_loop-reaches_example :
    Taken ℕ map_rocks toy_hash entity turns between (record args { leaf_index = 5 })
unfolding arrived
work_loop-reaches_example =
    work_loop-reaches ℕ map_rocks toy_hash entity turns between (record args { leaf_index = 5 })
      (args ∷ []) [] (omega arith) refl
      (accepting-Answers, (accepting-Answers, (accepting-Answers, tt))) refl refl
