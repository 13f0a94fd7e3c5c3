-- ===== src/Relayer.antt =====
-- rust/agents/relayer/src: the agent that proves messages against checkpoints and delivers them.
pub mod Prover
pub mod Builder
pub mod Submitter
pub mod MatchingList
pub mod Fetcher
pub mod Processor
pub mod Startup
