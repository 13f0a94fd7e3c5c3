-- ===== src/Settings/Agent.antt =====
-- rust/abacus-base/src/settings/mod.rs: the settings that the agents share, and the contracts of
-- the inboxes that are made from them. The metrics of the agent and the reading of the settings from
-- files and the environment are left out.
use ethmexico.Base.{ℕ, if◌then◌else◌, Option, none, some, List, [], ◌∷◌}
use ethmexico.Base.Bytes.{Bytes, bytes_eq}
use ethmexico.Base.Decimal.{parse_u32}
use ethmexico.Base.Maps.{lookup, insert}
use ethmexico.Storage.Syncers.{Build, built, failed, panicked}
use ethmexico.Ethereum.Making.{Nodes, Contract}
use ethmexico.Settings.{Keys, SignerConf, Setup, ◌>>=◌, steady, Signers, try_into_signer}
use ethmexico.Settings.Chains.{
  OutboxAddresses, InboxAddresses, ChainSetup, FnMaps, try_into_inbox, ValidatorManager,
  try_into_inbox_validator_manager,
}

pub record IndexSettings : Type 0 where
  pub from : Option Bytes
  pub chunk : Option Bytes

-- A number that is not given or cannot be parsed is the default.
abbrev pub parsed_or : ℕ → Option Bytes → ℕ
parsed_or default none = default
parsed_or default (some text) = elim (parse_u32 text) [ none ↦ default | some n ↦ n ]

unfoldable pub from_height : IndexSettings → ℕ
from_height s = parsed_or 0 s.from

unfoldable pub chunk_size : IndexSettings → ℕ
chunk_size s = parsed_or 1999 s.chunk

-- The maps are in the order of their iteration.
pub record Settings : Type 0 where
  pub db : Bytes
  pub metrics : Option Bytes
  pub index : IndexSettings
  pub outbox : ChainSetup OutboxAddresses
  pub inboxes : List (Bytes × ChainSetup InboxAddresses)
  pub signers : List (Bytes × SignerConf)

-- `Result::ok`; a panic goes on.
abbrev pub ok_of : {A : Type 0} → Build A → Build (Option A)
ok_of (built a) = built (some a)
ok_of failed = built none
ok_of panicked = panicked

-- An inbox is passed over where the key `disabled` is set.
abbrev pub unless_disabled : {A : Type 0} → Option Bytes → A → A → A
unless_disabled (some text) passed made = passed
unless_disabled none passed made = made

module _ (keys : Keys) (nodes : Nodes) (parse_address : Bytes → Option ℕ) (fns : FnMaps) where
  open keys use {Region}

  abbrev pub Make : Type 0 → Type 0
  Make A = Setup Region A

  abbrev pub Client : Type 0
  Client = Contract (Signers keys)

  abbrev pub Manager : Type 0
  Manager = ValidatorManager keys nodes parse_address fns

  -- The entity that the keys of the database begin with.
  pub record CachingInbox : Type 0 where
    pub inbox : Client
    pub db : Bytes

  pub record InboxContracts : Type 0 where
    pub inbox : CachingInbox
    pub validator_manager : Manager

  -- What `.ok()` makes of the signer.
  abbrev pub tried : SignerConf → Make (Option (Signers keys))
  tried conf k = let (r, k') = try_into_signer keys conf k in (ok_of r, k')

  abbrev pub signer_of : Option SignerConf → Make (Option (Signers keys))
  signer_of none = steady (built none)
  signer_of (some conf) = tried conf

  unfoldable pub get_signer : Settings → Bytes → Make (Option (Signers keys))
  get_signer s name = signer_of (lookup bytes_eq name s.signers)

  unfoldable pub try_caching_inbox :
      Settings → Bytes → ChainSetup InboxAddresses → Make CachingInbox
  try_caching_inbox s agent_name chain_setup = do
    signer ← get_signer s chain_setup.name
    inbox ← steady (try_into_inbox keys nodes parse_address fns chain_setup agent_name signer)
    steady (built (record { inbox = inbox; db = inbox.locator.chain_name }))

  unfoldable pub try_inbox_validator_manager :
      Settings → Bytes → ChainSetup InboxAddresses → Make Manager
  try_inbox_validator_manager s agent_name chain_setup = do
    signer ← get_signer s chain_setup.name
    steady (
        try_into_inbox_validator_manager keys nodes parse_address fns chain_setup agent_name signer)

  -- The contracts of one inbox.
  unfoldable pub inbox_contracts :
      Settings → Bytes → ChainSetup InboxAddresses → Make InboxContracts
  inbox_contracts s agent_name v = do
    caching_inbox ← try_caching_inbox s agent_name v
    validator_manager ← try_inbox_validator_manager s agent_name v
    steady (built (record { inbox = caching_inbox; validator_manager = validator_manager }))

  -- `bail!` where the key is not the name.
  abbrev pub named : Bytes → Bytes → Build (Unit {0})
  named k name = if bytes_eq k name then built tt else failed

  unfoldable pub inboxes_loop :
      Settings
      → Bytes
      → List (Bytes × InboxContracts)
      → List (Bytes × ChainSetup InboxAddresses)
      → Make (List (Bytes × InboxContracts))
  inboxes_loop s agent_name result [] = steady (built result)
  inboxes_loop s agent_name result ((k, v) ∷ entries) =
      unless_disabled v.disabled (inboxes_loop s agent_name result entries) (do
        checked ← steady (named k v.name)
        contracts ← inbox_contracts s agent_name v
        inboxes_loop s agent_name (insert bytes_eq v.name contracts result) entries)

  unfoldable pub try_inbox_contracts : Settings → Bytes → Make (List (Bytes × InboxContracts))
  unfolding inboxes_loop
  try_inbox_contracts s agent_name = inboxes_loop s agent_name [] s.inboxes
