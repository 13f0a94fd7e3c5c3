-- ===== src/Lib.antt =====
-- The Abacus agents of this repository (rust/), as far as they carry messages from an outbox to the
-- inboxes: what an agent keeps in its database, the Merkle trees over an outbox's messages, and the
-- relayer.
--
-- The parts and how they interact:
--   * rust/abacus-core/src/accumulator (Accumulator): the incremental tree (incremental.rs) and the
--     sparse tree that makes proofs (merkle.rs). Level describes the complete tree of a list of
--     leaves, by which both are specified.
--   * rust/abacus-core/src/traits/encode.rs (Codec) and the data types of src/types,
--     src/traits/message.rs and src/utils.rs (Types): encodings, leaves and signing hashes. A reader
--     is the list of its remaining bytes, and a decoder gives back the rest.
--   * rust/abacus-core/src/db (Db): the key-value store. Its backend is the record Rocks of Db.Backend:
--     a value that was put is found under its key, and no other key changes. An operation passes the
--     store on and ends with a value, an error or a panic.
--   * rust/abacus-base/src/contract_sync (ContractSync): fills the database with the messages and the
--     gas payments that an indexer finds, in ranges of blocks.
--   * rust/abacus-core/src/chain.rs (Chain): the names of the domains.
--   * rust/abacus-base/src/types/multisig.rs (Multisig): a quorum of the validators' checkpoints.
--   * rust/abacus-base/src/types/local_storage.rs and s3_storage.rs (Storage.Local, Storage.S3): where a
--     validator's checkpoints lie. Storage.Shelf describes what both hold, and checkpoint_syncer.rs
--     (Storage.Syncers) chooses between them.
--   * rust/chains/abacus-ethereum/src (Ethereum): retrying.rs (Retrying) repeats a request to a node;
--     outbox.rs and interchain_gas.rs (Indexer) give ContractSync the events of a range of blocks in
--     order; the other calls of the contracts are in Contracts.
--   * rust/abacus-base/src/settings (Settings): the settings of an agent, from which its signers and its
--     clients of the contracts are made (Ethereum.Making for trait_builder.rs).
--   * rust/ethers-prometheus (Prometheus): the middleware that counts the requests of these clients.
--   * rust/abacus-base/src/oneline_eyre/handler.rs (Reports) and rust/utils/backtrace-oneline
--     (Reports.Backtrace): the text of an error report.
--   * rust/agents/relayer/src (Relayer): checkpoint_fetcher.rs (Fetcher) polls for checkpoints and hands
--     them to msg/processor.rs (Processor), which scans the database for messages, filters them
--     (settings/matching_list.rs, MatchingList), proves them with merkle_tree_builder.rs (Builder, over
--     prover.rs, Prover), and sends them to msg/serial_submitter.rs (Submitter), which delivers them.
--     relayer.rs (Startup) makes the relayer from its settings and starts these tasks.
--
-- Functions keep the names of the source. A task is the function of one turn of its loop, over a record
-- of what it meets (the answers of the chain, of the database at that time, of a channel), and the loop
-- runs over a list of these. A panic, a failed assertion and an error are values.
--
-- Numbers are natural numbers; a u32 that can overflow is taken modulo 2 ^ 32, as in release mode, where
-- debug assertions are left out too. Recursion is on the depth of a tree, on a list, or on the number of
-- turns that are left of a loop over a range of indices, which is computed from the range. Two bounds are
-- chosen: the loop of a request that is retried has as many rounds as the provider allows requests, each
-- of which makes one; a decimal number has ten digits, enough for a u32, and a pointer
-- sixteen hexadecimal ones, enough for 64 bits.
--
-- Parameters stand for what other crates do: Keccak256 and the hash of a signed message, the recovery of
-- a signer, wallets and the AWS KMS, rocksdb, the file system, the client of S3, the JSON format of a
-- checkpoint, what a node answers, floating-point numbers, the parsers of addresses. A hash map is the
-- list of its entries in the order of its iteration. Base.Decimal is the decimal notation of a u32 that
-- the standard library prints and reads. Where a theorem needs a hash of 32 bytes it says so.
--
-- Not modelled: the reading of the settings from files and the environment, the agents' own metrics and
-- tracing, the enums that pass calls on to a chain's bindings, the waking of tasks and the end of all
-- tasks when one of them ends, and time beyond the order of events and the sleeps of retries.
pub mod Base
pub mod Accumulator
pub mod Codec
pub mod Types
pub mod Db
pub mod ContractSync
pub mod Chain
pub mod Multisig
pub mod Storage
pub mod Ethereum
pub mod Prometheus
pub mod Settings
pub mod Reports
pub mod Relayer
pub mod Tests
