-- ===== src/Tests/Configured.antt =====
-- Witnesses for the settings.
use ethmexico.Base.{◌≡◌, refl, true, Option, none, some, List, [], ◌∷◌}
use ethmexico.Base.Bytes.{Bytes, bytes_eq, codes}
use ethmexico.Base.Decimal.{parse_u32}
use ethmexico.Base.Maps.{lookup, IsMap}
use ethmexico.Prometheus.{PrometheusMiddlewareConf}
use ethmexico.Storage.Syncers.{Build, built, failed, panicked}
use ethmexico.Ethereum.Making.{Nodes, http}
use ethmexico.Settings.{Keys, SignerConf, hex_key, aws_key}
use ethmexico.Settings.Chains.{
  ethereum, OutboxAddresses, InboxAddresses, ChainSetup, FnMaps, inbox_metrics_conf,
}
use ethmexico.Settings.Agent.{Settings, InboxContracts, try_inbox_contracts}
use ethmexico.Settings.Inboxes.{Expected, try_inbox_contracts-Expected}
use ethmexico.Settings.Regions.{relocated, try_inbox_contracts-Same}

abbrev pub toy_keys : Keys
toy_keys = record {
  Wallet = Bytes;
  AwsSigner = Bytes × Bytes;
  Region = Bytes;
  parse_wallet = some;
  wallet_address = λ w. 21;
  parse_region = some;
  new_aws = λ region id. some (region, id);
  aws_address = λ a. 22;
}

abbrev pub toy_nodes : Nodes
toy_nodes = record { connects = λ conn. true; chain_id = λ conn. some 1 }

abbrev pub toy_fns : FnMaps
toy_fns = record { outbox_fns = []; paymaster_fns = []; inbox_fns = [] }

abbrev no_conf : PrometheusMiddlewareConf
no_conf = record {
  tokens = [];
  wallets = [];
  contracts = (7, record { name = some (codes "mine"); functions = [] }) ∷ [];
  chain = none;
}

abbrev chain : {T : Type 0} → Bytes → T → Option Bytes → ChainSetup T
chain name addresses disabled = record {
  name = name;
  domain = codes "5";
  finality_blocks = codes "1";
  addresses = addresses;
  chain = ethereum (http (codes "x"));
  gelato_conf = none;
  disabled = disabled;
  metrics_conf = no_conf;
}

abbrev pub inbox_chain : Bytes → Option Bytes → ChainSetup InboxAddresses
inbox_chain name disabled =
    chain name (record { inbox = codes "7"; validator_manager = codes "8" }) disabled

abbrev pub settings : Settings
settings = record {
  db = codes "db";
  metrics = none;
  index = record { from = none; chunk = none };
  outbox = chain (codes "o") (record { outbox = codes "9"; interchain_gas_paymaster = none }) none;
  inboxes =
      (codes "a", inbox_chain (codes "a") none)
      ∷ ((codes "b", inbox_chain (codes "c") (some (codes "1"))) ∷ []);
  signers = (codes "a", aws_key (codes "k") (codes "r")) ∷ [];
}

abbrev pub Contracts : Type 0
Contracts = InboxContracts toy_keys toy_nodes parse_u32 toy_fns

abbrev contracts_of : Build (List (Bytes × Contracts)) → List (Bytes × Contracts)
contracts_of (built m) = m
contracts_of failed = []
contracts_of panicked = []

abbrev made : Build (List (Bytes × Contracts)) × Option Bytes
made = try_inbox_contracts toy_keys toy_nodes parse_u32 toy_fns settings (codes "relayer") none

made-eq :
    try_inbox_contracts toy_keys toy_nodes parse_u32 toy_fns settings (codes "relayer") none
    ≡ (built (contracts_of made.0), some (codes "r"))
unfolding try_inbox_contracts ethmexico.Settings.◌>>=◌ bytes_eq
    ethmexico.Settings.Agent.inbox_contracts ethmexico.Settings.Agent.try_caching_inbox
    ethmexico.Settings.Agent.get_signer lookup ethmexico.Settings.try_into_signer
    ethmexico.Settings.Chains.try_into_inbox parse_u32
    ethmexico.Ethereum.Making.make_with_connection ethmexico.Ethereum.Making.make_signing_provider
    ethmexico.Settings.Agent.try_inbox_validator_manager
    ethmexico.Settings.Chains.try_into_inbox_validator_manager
made-eq = refl

pub inboxes-IsMap : IsMap bytes_eq settings.inboxes
unfolding IsMap lookup bytes_eq
inboxes-IsMap = (refl, (refl, tt))

try_inbox_contracts-Expected_example :
    Expected toy_keys toy_nodes parse_u32 toy_fns settings
      (codes "relayer")
      (codes "a")
      (lookup bytes_eq (codes "a") settings.inboxes)
      none
      (lookup bytes_eq (codes "a") (contracts_of made.0))
try_inbox_contracts-Expected_example =
    try_inbox_contracts-Expected toy_keys toy_nodes parse_u32 toy_fns settings (codes "relayer")
      (contracts_of made.0) none (some (codes "r")) inboxes-IsMap made-eq (codes "a")

try_inbox_contracts-Same_example :
    (try_inbox_contracts toy_keys toy_nodes parse_u32 toy_fns settings
        (codes "relayer")
        (some (codes "q"))
      ≡ try_inbox_contracts toy_keys toy_nodes parse_u32 toy_fns
          (relocated (codes "t") settings)
          (codes "relayer")
          (some (codes "q")))
    × ((try_inbox_contracts toy_keys toy_nodes parse_u32 toy_fns settings
          (codes "relayer")
          (some (codes "q"))).1
        ≡ some (codes "q"))
try_inbox_contracts-Same_example =
    try_inbox_contracts-Same toy_keys toy_nodes parse_u32 toy_fns (codes "q") (codes "t") settings
      (codes "relayer")
