-- ===== src/Settings/Core.antt =====
-- rust/abacus-base/src/settings/mod.rs: the contracts and the indexers of the outbox, and the core of an
-- agent. The metrics are left out.
use ethmexico.Base.{ℕ, ltb, Bool, if◌then◌else◌, Option, none, some, List, []}
use ethmexico.Base.Bytes.{Bytes}
use ethmexico.Base.Decimal.{parse_u32}
use ethmexico.Storage.Syncers.{Build, built, failed, panicked}
use ethmexico.Ethereum.Making.{Nodes, Contract, make_with_connection}
use ethmexico.Settings.{Keys, Setup, ◌>>=◌, steady, or_fail, or_panic, Signers}
use ethmexico.Settings.Chains.{
  finality_blocks_of, FnMaps, locator_of, connection_of, outbox_metrics_conf, try_into_outbox,
  try_into_interchain_gas_paymaster,
}
use ethmexico.Settings.Agent.{
  Settings, from_height, chunk_size, InboxContracts, get_signer, try_inbox_contracts,
}

-- The parse of a port, a u16.
abbrev pub parse_u16 : Bytes → Option ℕ
parse_u16 text = elim (parse_u32 text) [
  | none ↦ none
  | some n ↦ if ltb n 65536 then some n else none
]

module _ (keys : Keys) (nodes : Nodes) (parse_address : Bytes → Option ℕ) (fns : FnMaps) where
  open keys use {Region}

  abbrev pub Steps : Type 0 → Type 0
  Steps A = Setup Region A

  abbrev pub Contracts : Type 0
  Contracts = InboxContracts keys nodes parse_address fns

  abbrev pub Link : Type 0
  Link = Contract (Signers keys)

  pub record OutboxIndexer : Type 0 where
    pub contract : Link
    pub from_height : ℕ
    pub chunk_size : ℕ
    pub finality_blocks : ℕ

  pub record PaymasterIndexer : Type 0 where
    pub contract : Link
    pub outbox_address : ℕ
    pub from_height : ℕ
    pub chunk_size : ℕ
    pub finality_blocks : ℕ

  pub record CachingOutbox : Type 0 where
    pub outbox : Link
    pub db : Bytes
    pub indexer : OutboxIndexer

  pub record CachingPaymaster : Type 0 where
    pub paymaster : Link
    pub db : Bytes
    pub indexer : PaymasterIndexer

  unfoldable pub try_outbox_indexer : Settings → Steps OutboxIndexer
  try_outbox_indexer s = do
    let c = s.outbox
    signer ← get_signer keys nodes parse_address fns s c.name
    finality_blocks ← steady (finality_blocks_of c)
    locator ← steady (locator_of keys nodes parse_address fns c c.addresses.outbox)
    contract ← steady (
        make_with_connection (Signers keys) nodes (connection_of c) locator signer
          (some (outbox_metrics_conf keys nodes parse_address fns c)))
    steady (
        built (record {
          contract = contract;
          from_height = from_height s.index;
          chunk_size = chunk_size s.index;
          finality_blocks = finality_blocks;
        }))

  unfoldable pub try_interchain_gas_paymaster_indexer : Settings → Steps PaymasterIndexer
  try_interchain_gas_paymaster_indexer s = do
    let c = s.outbox
    signer ← get_signer keys nodes parse_address fns s c.name
    outbox_address ← steady (or_fail (parse_address c.addresses.outbox))
    finality_blocks ← steady (finality_blocks_of c)
    domain ← steady (or_panic (parse_u32 c.domain))
    paymaster_address ← steady (or_panic c.addresses.interchain_gas_paymaster)
    addr ← steady (or_fail (parse_address paymaster_address))
    contract ← steady (
        make_with_connection (Signers keys) nodes (connection_of c)
          (record { chain_name = c.name; domain = domain; address = addr }) signer
          (some (outbox_metrics_conf keys nodes parse_address fns c)))
    steady (
        built (record {
          contract = contract;
          outbox_address = outbox_address;
          from_height = from_height s.index;
          chunk_size = chunk_size s.index;
          finality_blocks = finality_blocks;
        }))

  unfoldable pub try_caching_outbox : Settings → Steps CachingOutbox
  try_caching_outbox s = do
    signer ← get_signer keys nodes parse_address fns s s.outbox.name
    outbox ← steady (try_into_outbox keys nodes parse_address fns s.outbox signer)
    indexer ← try_outbox_indexer s
    steady (built (record { outbox = outbox; db = outbox.locator.chain_name; indexer = indexer }))

  abbrev pub with_paymaster : Settings → Option Link → Steps (Option CachingPaymaster)
  with_paymaster s none = steady (built none)
  with_paymaster s (some paymaster) = do
    indexer ← try_interchain_gas_paymaster_indexer s
    steady (
        built (
          some (record {
            paymaster = paymaster;
            db = paymaster.locator.chain_name;
            indexer = indexer;
          })))

  unfoldable pub try_caching_interchain_gas_paymaster : Settings → Steps (Option CachingPaymaster)
  try_caching_interchain_gas_paymaster s = do
    signer ← get_signer keys nodes parse_address fns s s.outbox.name
    paymaster ←
        steady (try_into_interchain_gas_paymaster keys nodes parse_address fns s.outbox signer)
    with_paymaster s paymaster

  pub record AbacusAgentCore : Type 0 where
    pub outbox : CachingOutbox
    pub interchain_gas_paymaster : Option CachingPaymaster
    pub inboxes : List (Bytes × Contracts)
    pub metrics_port : Option ℕ
    pub settings : Settings

  abbrev pub port_of : Option Bytes → Build (Option ℕ)
  port_of none = built none
  port_of (some text) = elim (parse_u16 text) [ none ↦ panicked | some port ↦ built (some port) ]

  abbrev pub if_parsed : Bool → Settings → Bytes → Steps (List (Bytes × Contracts))
  if_parsed parse_inboxes s name =
      if parse_inboxes
      then try_inbox_contracts keys nodes parse_address fns s name
      else steady (built [])

  -- `opens`: whether the database at a path can be opened.
  unfoldable pub try_into_abacus_core :
      (Bytes → Bool) → Settings → Bytes → Bool → Steps AbacusAgentCore
  try_into_abacus_core opens s name parse_inboxes = do
    metrics_port ← steady (port_of s.metrics)
    db ← steady (if opens s.db then built tt else failed)
    outbox ← try_caching_outbox s
    interchain_gas_paymaster ← try_caching_interchain_gas_paymaster s
    inboxes ← if_parsed parse_inboxes s name
    steady (
        built (record {
          outbox = outbox;
          interchain_gas_paymaster = interchain_gas_paymaster;
          inboxes = inboxes;
          metrics_port = metrics_port;
          settings = s;
        }))
