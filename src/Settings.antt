-- ===== src/Settings.antt =====
-- rust/abacus-base/src/settings: what an agent is configured with, and the making of its contracts. The
-- signers are in this file.
pub mod Chains
pub mod Agent
pub mod Core
pub mod Metrics
pub mod Steps
pub mod Inboxes
pub mod Regions
use ethmexico.Base.{ℕ, Option, none, some}
use ethmexico.Base.Bytes.{Bytes}
use ethmexico.Storage.Syncers.{Build, built, failed, panicked}

-- The wallets of the ethers crate, and its signers of the AWS KMS, which a client of the rusoto crate
-- for a region makes from the identifier of a key.
pub record Keys : Type 1 where
  pub Wallet : Type 0
  pub AwsSigner : Type 0
  pub Region : Type 0
  pub parse_wallet : Bytes → Option Wallet
  pub wallet_address : Wallet → ℕ
  pub parse_region : Bytes → Option Region
  pub new_aws : Region → Bytes → Option AwsSigner
  pub aws_address : AwsSigner → ℕ

-- A key in hexadecimal, a key on AWS with its region, or none.
pub data SignerConf : Type 0 where
  hex_key : Bytes → SignerConf
  aws_key : Bytes → Bytes → SignerConf
  node : SignerConf

-- Steps that share the static `KMS_CLIENT`: the region of the client, once there is one.
abbrev pub Setup : Type 0 → Type 0 → Type 0
Setup Region A = Option Region → Build A × Option Region

abbrev pub next :
    {Region A B : Type 0} → Build A × Option Region → (A → Setup Region B) → Build B × Option Region
next (built a, k) f = f a k
next (failed, k) f = (failed, k)
next (panicked, k) f = (panicked, k)

infixl 5 ◌>>=◌
unfoldable pub ◌>>=◌ :
    {Region A B : Type 0} → Setup Region A → (A → Setup Region B) → Setup Region B
(m >>= f) k = next (m k) f

-- A step that does not use the client.
abbrev pub steady : {Region A : Type 0} → Build A → Setup Region A
steady b k = (b, k)

-- `ok_or`, `?` and `expect` on what is not there.
abbrev pub or_fail : {A : Type 0} → Option A → Build A
or_fail none = failed
or_fail (some a) = built a

abbrev pub or_panic : {A : Type 0} → Option A → Build A
or_panic none = panicked
or_panic (some a) = built a

module _ (keys : Keys) where
  open keys use {
    Wallet, AwsSigner, Region, parse_wallet, wallet_address, parse_region, new_aws, aws_address,
  }

  pub data Signers : Type 0 where
    local : Wallet → Signers
    aws : AwsSigner → Signers

  unfoldable pub address : Signers → ℕ
  address (local signer) = wallet_address signer
  address (aws signer) = aws_address signer

  -- `KMS_CLIENT.get_or_init`: the client that there is, whatever region it was made for, or a new one.
  abbrev pub kms_client : Bytes → Setup Region Region
  kms_client region (some client) = (built client, some client)
  kms_client region none = elim (parse_region region) [
    | none ↦ (panicked, none)
    | some client ↦ (built client, some client)
  ]

  unfoldable pub try_into_signer : SignerConf → Setup Region Signers
  try_into_signer (hex_key key) = do
    signer ← steady (or_fail (parse_wallet key))
    steady (built (local signer))
  try_into_signer (aws_key id region) = do
    client ← kms_client region
    signer ← steady (or_fail (new_aws client id))
    steady (built (aws signer))
  try_into_signer node = steady failed
