-- ===== src/Settings/Chains.antt =====
-- rust/abacus-base/src/settings/chains.rs: the configuration of a chain, and the contracts on it.
use ethmexico.Base.{ℕ, ◌==◌, Bool, Option, none, some, List}
use ethmexico.Base.Bytes.{Bytes, codes}
use ethmexico.Base.Decimal.{parse_u32}
use ethmexico.Base.Maps.{or_insert, or_else}
use ethmexico.Prometheus.{WalletInfo, ContractInfo, ChainInfo, PrometheusMiddlewareConf}
use ethmexico.Storage.Syncers.{Build, built, ◌>>=◌}
use ethmexico.Ethereum.Making.{Connection, ContractLocator, Nodes, Contract, make_with_connection}
use ethmexico.Settings.{Keys, Signers, address, or_fail, or_panic}

pub data ChainConf : Type 0 where
  ethereum : Connection → ChainConf

pub record GelatoConf : Type 0 where
  pub enabled_for_message_submission : Bool

pub record OutboxAddresses : Type 0 where
  pub outbox : Bytes
  pub interchain_gas_paymaster : Option Bytes

pub record InboxAddresses : Type 0 where
  pub inbox : Bytes
  pub validator_manager : Bytes

pub record ChainSetup (T : Type 0) : Type 0 where
  pub name : Bytes
  pub domain : Bytes
  pub finality_blocks : Bytes
  pub addresses : T
  pub chain : ChainConf
  pub gelato_conf : Option GelatoConf
  pub disabled : Option Bytes
  pub metrics_conf : PrometheusMiddlewareConf

unfoldable pub finality_blocks_of : {T : Type 0} → ChainSetup T → Build ℕ
finality_blocks_of c = or_panic (parse_u32 c.finality_blocks)

-- The tables of the functions of the contracts, by their selectors, which are generated.
pub record FnMaps : Type 0 where
  pub outbox_fns : List (Bytes × Bytes)
  pub paymaster_fns : List (Bytes × Bytes)
  pub inbox_fns : List (Bytes × Bytes)

abbrev pub contract_info : Bytes → List (Bytes × Bytes) → ContractInfo
contract_info name functions = record { name = some name; functions = functions }

-- The entry of an address that can be parsed.
abbrev pub with_contract :
    Option ℕ → ContractInfo → List (ℕ × ContractInfo) → List (ℕ × ContractInfo)
with_contract none info m = m
with_contract (some addr) info m = or_insert ◌==◌ addr info m

abbrev pub with_wallet : Option ℕ → WalletInfo → List (ℕ × WalletInfo) → List (ℕ × WalletInfo)
with_wallet none info m = m
with_wallet (some addr) info m = or_insert ◌==◌ addr info m

-- The chain's information, its name where none is given.
abbrev pub named_chain : {T : Type 0} → ChainSetup T → Option ChainInfo
named_chain c = or_else c.metrics_conf.chain (some (record { name = some c.name }))

abbrev pub connection_of : {T : Type 0} → ChainSetup T → Connection
connection_of c = elim c.chain [ ethereum conf ↦ conf ]

module _ (keys : Keys) (nodes : Nodes) (parse_address : Bytes → Option ℕ) (fns : FnMaps) where
  open fns use {outbox_fns, paymaster_fns, inbox_fns}

  abbrev pub Agents : Type 0
  Agents = Signers keys

  -- The address of an optional signer.
  abbrev pub address_of : Option Agents → Option ℕ
  address_of none = none
  address_of (some signer) = some (address keys signer)

  -- An address of a configuration, none where there is no text.
  abbrev pub parse_some : Option Bytes → Option ℕ
  parse_some none = none
  parse_some (some text) = parse_address text

  abbrev pub locator_of : {T : Type 0} → ChainSetup T → Bytes → Build ContractLocator
  locator_of c text = do
    domain ← or_panic (parse_u32 c.domain)
    addr ← or_fail (parse_address text)
    built (record { chain_name = c.name; domain = domain; address = addr })

  unfoldable pub outbox_metrics_conf : ChainSetup OutboxAddresses → PrometheusMiddlewareConf
  outbox_metrics_conf c = record {
    tokens = c.metrics_conf.tokens;
    wallets = c.metrics_conf.wallets;
    contracts =
        with_contract (parse_some c.addresses.interchain_gas_paymaster)
          (contract_info (codes "igp") paymaster_fns)
          (with_contract (parse_address c.addresses.outbox)
            (contract_info (codes "outbox") outbox_fns) c.metrics_conf.contracts);
    chain = named_chain c;
  }

  unfoldable pub inbox_metrics_conf :
      ChainSetup InboxAddresses → Bytes → Option Agents → PrometheusMiddlewareConf
  inbox_metrics_conf c agent_name signer = record {
    tokens = c.metrics_conf.tokens;
    wallets =
        with_wallet (address_of signer) (record { name = some agent_name }) c.metrics_conf.wallets;
    contracts =
        with_contract (parse_address c.addresses.validator_manager)
          (contract_info (codes "ivm") outbox_fns)
          (with_contract (parse_address c.addresses.inbox) (contract_info (codes "inbox") inbox_fns)
            c.metrics_conf.contracts);
    chain = named_chain c;
  }

  unfoldable pub try_into_outbox :
      ChainSetup OutboxAddresses → Option Agents → Build (Contract Agents)
  try_into_outbox c signer = do
    locator ← locator_of c c.addresses.outbox
    make_with_connection Agents nodes (connection_of c) locator signer
        (some (outbox_metrics_conf c))

  abbrev pub paymaster_at :
      ChainSetup OutboxAddresses → Option Agents → Bytes → Build (Option (Contract Agents))
  paymaster_at c signer paymaster_address = do
    locator ← locator_of c paymaster_address
    paymaster ←
        make_with_connection Agents nodes (connection_of c) locator signer
          (some (outbox_metrics_conf c))
    built (some paymaster)

  unfoldable pub try_into_interchain_gas_paymaster :
      ChainSetup OutboxAddresses → Option Agents → Build (Option (Contract Agents))
  try_into_interchain_gas_paymaster c signer = elim c.addresses.interchain_gas_paymaster [
    | none ↦ built none
    | some paymaster_address ↦ paymaster_at c signer paymaster_address
  ]

  unfoldable pub try_into_inbox :
      ChainSetup InboxAddresses → Bytes → Option Agents → Build (Contract Agents)
  try_into_inbox c agent_name signer = do
    locator ← locator_of c c.addresses.inbox
    make_with_connection Agents nodes (connection_of c) locator signer
        (some (inbox_metrics_conf c agent_name signer))

  pub record ValidatorManager : Type 0 where
    pub contract : Contract Agents
    pub inbox_address : ℕ

  unfoldable pub try_into_inbox_validator_manager :
      ChainSetup InboxAddresses → Bytes → Option Agents → Build ValidatorManager
  try_into_inbox_validator_manager c agent_name signer = do
    inbox_address ← or_fail (parse_address c.addresses.inbox)
    locator ← locator_of c c.addresses.validator_manager
    contract ←
        make_with_connection Agents nodes (connection_of c) locator signer
          (some (inbox_metrics_conf c agent_name signer))
    built (record { contract = contract; inbox_address = inbox_address })
