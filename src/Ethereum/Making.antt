-- ===== src/Ethereum/Making.antt =====
-- rust/chains/abacus-ethereum/src/trait_builder.rs: the client of a contract, made from a connection
-- and an optional signer.
use ethmexico.Base.{ℕ, ◌^◌, ltb, Bool, if◌then◌else◌, Option, none, some}
use ethmexico.Base.Bytes.{Bytes}
use ethmexico.Prometheus.{PrometheusMiddlewareConf}
use ethmexico.Storage.Syncers.{Build, built, failed, panicked, ◌>>=◌}

pub data Connection : Type 0 where
  http ws : Bytes → Connection

-- An address is the number of its bytes.
pub record ContractLocator : Type 0 where
  pub chain_name : Bytes
  pub domain : ℕ
  pub address : ℕ

-- What the ethers crate answers: whether an address is one that a client can be made for, which for a
-- websocket opens the connection, and the number of the chain that the node is on.
pub record Nodes : Type 0 where
  pub connects : Connection → Bool
  pub chain_id : Connection → Option ℕ

-- A client of a contract, with the signer of its transactions and the number of the chain that it
-- signs for.
pub record Contract (Signer : Type 0) : Type 0 where
  pub connection : Connection
  pub locator : ContractLocator
  pub signer : Option (Signer × ℕ)
  pub metrics : Option PrometheusMiddlewareConf

module _ (Signer : Type 0) (nodes : Nodes) where
  open nodes use {connects, chain_id}

  unfoldable pub make_signing_provider : Connection → Signer → Build (Signer × ℕ)
  make_signing_provider conn signer = elim (chain_id conn) [
    | none ↦ failed
    | some provider_chain_id ↦
        if ltb provider_chain_id (2 ^ 64) then built (signer, provider_chain_id) else panicked
  ]

  abbrev pub wrap_with_signer : Connection → Option Signer → Build (Option (Signer × ℕ))
  wrap_with_signer conn none = built none
  wrap_with_signer conn (some signer) = do
    signing_provider ← make_signing_provider conn signer
    built (some signing_provider)

  abbrev pub connect : Connection → Build Connection
  connect conn = if connects conn then built conn else failed

  unfoldable pub make_with_connection :
      Connection
      → ContractLocator
      → Option Signer
      → Option PrometheusMiddlewareConf
      → Build (Contract Signer)
  make_with_connection conn locator signer metrics = do
    client ← connect conn
    signing_provider ← wrap_with_signer client signer
    built (record {
      connection = client;
      locator = locator;
      signer = signing_provider;
      metrics = metrics;
    })
