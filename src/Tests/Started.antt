-- ===== src/Tests/Started.antt =====
-- A witness for the start of the relayer.
use ethmexico.Base.{ℕ, ◌≡◌, refl, Bool, true, Option, none, some, List, [], ◌∷◌, ◌++◌, All, AnyOf}
use ethmexico.Base.Bytes.{Bytes, codes}
use ethmexico.Base.Decimal.{parse_u32}
use ethmexico.Storage.Syncers.{built}
use ethmexico.Ethereum.Making.{Contract, ContractLocator, http}
use ethmexico.Settings.{Signers, aws}
use ethmexico.Settings.Chains.{InboxAddresses, ChainSetup, inbox_metrics_conf, outbox_metrics_conf}
use ethmexico.Relayer.MatchingList.{MatchingList}
use ethmexico.Relayer.Startup.{
  RelayerSettings, Task, inbox, checkpoint_fetcher, outbox_sync, submitter_of, Relayer,
  from_settings, run,
}
use ethmexico.Relayer.Startup.Entries.{IsEnabled, IsInboxTask}
use ethmexico.Relayer.Startup.Tasks.{run-starts}
use ethmexico.Tests.Shelves.{function_client}
use ethmexico.Tests.Configured.{
  toy_keys, toy_nodes, toy_fns, settings, inbox_chain, inboxes-IsMap, Contracts,
}

abbrev relayer_settings : RelayerSettings
relayer_settings = record {
  base = settings;
  signedcheckpointpollinginterval = codes "7";
  multisigcheckpointsyncer = record { threshold = 1; checkpointsyncers = [] };
  whitelist = none;
  blacklist = none;
}

abbrev no_list : Bytes → Option MatchingList
no_list text = none

abbrev any_path : Bytes → Bool
any_path path = true

abbrev signer : Signers toy_keys
signer = aws (codes "r", codes "k")

abbrev outbox_client : Contract (Signers toy_keys)
outbox_client = record {
  connection = http (codes "x");
  locator = record { chain_name = codes "o"; domain = 5; address = 9 };
  signer = none;
  metrics = some (outbox_metrics_conf toy_keys toy_nodes parse_u32 toy_fns settings.outbox);
}

abbrev inbox_client : ℕ → Contract (Signers toy_keys)
inbox_client address = record {
  connection = http (codes "x");
  locator = record { chain_name = codes "a"; domain = 5; address = address };
  signer = some (signer, 1);
  metrics = some (
      inbox_metrics_conf toy_keys toy_nodes parse_u32 toy_fns (inbox_chain (codes "a") none)
        (codes "relayer") (some signer));
}

abbrev contracts : Contracts
contracts = record {
  inbox = record { inbox = inbox_client 7; db = codes "a" };
  validator_manager = record { contract = inbox_client 8; inbox_address = 7 };
}

abbrev relayer : Relayer toy_keys toy_nodes parse_u32 toy_fns function_client no_list any_path
relayer = record {
  signed_checkpoint_polling_interval = 7;
  multisig_checkpoint_syncer = record { threshold = 1; checkpoint_syncers = [] };
  core = record {
    outbox = record {
      outbox = outbox_client;
      db = codes "o";
      indexer = record {
        contract = outbox_client;
        from_height = 0;
        chunk_size = 1999;
        finality_blocks = 1;
      };
    };
    interchain_gas_paymaster = none;
    inboxes = (codes "a", contracts) ∷ [];
    metrics_port = none;
    settings = settings;
  };
  whitelist = none;
  blacklist = none;
}

relayer-eq :
    from_settings toy_keys toy_nodes parse_u32 toy_fns function_client no_list any_path
      relayer_settings none
    ≡ (built relayer, some (codes "r"))
unfolding from_settings ethmexico.Settings.◌>>=◌
    ethmexico.Storage.Syncers.try_into_multisig_checkpoint_syncer
    ethmexico.Storage.Syncers.collect_syncers ethmexico.Settings.Core.try_into_abacus_core
    ethmexico.Settings.Core.try_caching_outbox ethmexico.Settings.Agent.get_signer
    ethmexico.Base.Maps.lookup ethmexico.Base.Bytes.bytes_eq
    ethmexico.Settings.Chains.try_into_outbox parse_u32
    ethmexico.Ethereum.Making.make_with_connection ethmexico.Settings.Core.try_outbox_indexer
    ethmexico.Settings.Chains.finality_blocks_of
    ethmexico.Settings.Core.try_caching_interchain_gas_paymaster
    ethmexico.Settings.Chains.try_into_interchain_gas_paymaster
    ethmexico.Settings.Agent.try_inbox_contracts ethmexico.Settings.Agent.inbox_contracts
    ethmexico.Ethereum.Making.make_signing_provider ethmexico.Settings.Agent.chunk_size
    ethmexico.Settings.Agent.from_height ethmexico.Settings.Agent.try_caching_inbox
    ethmexico.Settings.Agent.try_inbox_validator_manager ethmexico.Settings.Chains.try_into_inbox
    ethmexico.Settings.Chains.try_into_inbox_validator_manager ethmexico.Settings.try_into_signer
    ethmexico.Base.Maps.insert
relayer-eq = refl

run-starts_example :
    (l : List Task) × (run toy_keys toy_nodes parse_u32 toy_fns function_client no_list any_path
        relayer
      ≡ some (l ++ (checkpoint_fetcher ∷ (outbox_sync ∷ []))))
    × (All (IsInboxTask settings) l
        × ((name : Bytes) (v : ChainSetup InboxAddresses)
            → IsEnabled settings name v
            → AnyOf (λ t. inbox name (submitter_of v.gelato_conf) ≡ t) l))
run-starts_example =
    run-starts toy_keys toy_nodes parse_u32 toy_fns function_client no_list any_path
      relayer_settings relayer none (some (codes "r")) inboxes-IsMap relayer-eq
