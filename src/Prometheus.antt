-- ===== src/Prometheus.antt =====
-- rust/ethers-prometheus/src/lib.rs: what the middleware that collects metrics is configured with.
pub mod Middleware
pub mod Updates
pub mod Counts
use ethmexico.Base.{ℕ, Option, List}
use ethmexico.Base.Bytes.{Bytes}

pub record TokenInfo : Type 0 where
  pub name : Bytes
  pub symbol : Bytes
  pub decimals : ℕ

pub record WalletInfo : Type 0 where
  pub name : Option Bytes

-- A selector is its four bytes.
pub record ContractInfo : Type 0 where
  pub name : Option Bytes
  pub functions : List (Bytes × Bytes)

pub record ChainInfo : Type 0 where
  pub name : Option Bytes

-- An address is the number of its bytes.
pub record PrometheusMiddlewareConf : Type 0 where
  pub tokens : List (ℕ × TokenInfo)
  pub wallets : List (ℕ × WalletInfo)
  pub contracts : List (ℕ × ContractInfo)
  pub chain : Option ChainInfo
