-- ===== src/Relayer/Startup.antt =====
-- rust/agents/relayer/src/relayer.rs: the making of a relayer from its settings, and the tasks that it
-- runs. Metrics and traces are left out.
pub mod Entries
pub mod Tasks
use ethmexico.Base.{
  ℕ, ◌+◌, ◌*◌, ◌-◌, ◌^◌, ltb, leb, ◌==◌, Bool, true, false, ◌&&◌, if◌then◌else◌, Option, none, some,
  List, [], ◌∷◌, ◌++◌,
}
use ethmexico.Base.Bytes.{Bytes, bytes_eq, codes}
use ethmexico.Base.Decimal.{is_digit}
use ethmexico.Base.Maps.{lookup}
use ethmexico.Storage.{Client}
use ethmexico.Storage.Syncers.{
  Build, built, failed, panicked, MultisigCheckpointSyncerConf, MultisigCheckpointSyncer,
  try_into_multisig_checkpoint_syncer,
}
use ethmexico.Ethereum.Making.{Nodes}
use ethmexico.Settings.{Keys, ◌>>=◌, steady}
use ethmexico.Settings.Chains.{GelatoConf, InboxAddresses, ChainSetup, FnMaps}
use ethmexico.Settings.Agent.{Settings, Make, InboxContracts}
use ethmexico.Settings.Core.{AbacusAgentCore, CachingPaymaster, try_into_abacus_core}
use ethmexico.Relayer.MatchingList.{MatchingList}

pub record RelayerSettings : Type 0 where
  pub base : Settings
  pub signedcheckpointpollinginterval : Bytes
  pub multisigcheckpointsyncer : MultisigCheckpointSyncerConf
  pub whitelist : Option Bytes
  pub blacklist : Option Bytes

-- `str::parse::<u64>`; one plus sign may stand before the digits.
abbrev pub parse_digits : ℕ → Bytes → Option ℕ
parse_digits acc [] = some acc
parse_digits acc (c ∷ cs) =
    let next = acc * 10 + (c - b'0') in
    let rest = parse_digits next cs in if is_digit c && ltb next (2 ^ 64) then rest else none

abbrev pub parse_u64 : Bytes → Option ℕ
parse_u64 [] = none
parse_u64 (c ∷ []) = parse_digits 0 (c ∷ [])
parse_u64 (c ∷ (d ∷ cs)) =
    if c == b'+' then parse_digits 0 (d ∷ cs) else parse_digits 0 (c ∷ (d ∷ cs))

abbrev pub polling_interval : Bytes → ℕ
polling_interval text = elim (parse_u64 text) [ none ↦ 5 | some n ↦ n ]

pub data Submitter : Type 0 where
  gelato_submitter serial_submitter : Submitter

-- The tasks: a processor with its submitter for an inbox, and the tasks of the outbox's chain.
pub data Task : Type 0 where
  inbox : Bytes → Submitter → Task
  checkpoint_fetcher outbox_sync paymaster_sync : Task

-- Which submitter `run_inbox` starts.
abbrev pub submitter_if : Bool → Submitter
submitter_if enabled = if enabled then gelato_submitter else serial_submitter

unfoldable pub submitter_of : Option GelatoConf → Submitter
submitter_of none = serial_submitter
submitter_of (some cfg) = submitter_if cfg.enabled_for_message_submission

-- `self.core.settings.inboxes[inbox_name]`, a panic where there is no such key.
abbrev pub inbox_task : Bytes → Option (ChainSetup InboxAddresses) → Option Task
inbox_task name none = none
inbox_task name (some setup) = some (inbox name (submitter_of setup.gelato_conf))

abbrev pub and_then : Option Task → Option (List Task) → Option (List Task)
and_then none tasks = none
and_then (some task) none = none
and_then (some task) (some tasks) = some (task ∷ tasks)

-- The tasks of the inboxes, in the order of the map's iteration, before `others`.
unfoldable pub inbox_tasks :
    {A : Type 0} → Settings → List Task → List (Bytes × A) → Option (List Task)
inbox_tasks s others [] = some others
inbox_tasks s others ((name, contracts) ∷ inboxes) =
    and_then (inbox_task name (lookup bytes_eq name s.inboxes)) (inbox_tasks s others inboxes)

abbrev pub paymaster_tasks : {A : Type 0} → Option A → List Task
paymaster_tasks none = []
paymaster_tasks (some paymaster) = paymaster_sync ∷ []

-- `from_str` is the serde_json crate's parser of a matching list.
abbrev pub parse_matching_list : (Bytes → Option MatchingList) → Option Bytes → Build MatchingList
parse_matching_list from_str none = built none
parse_matching_list from_str (some text) = elim (from_str text) [
  | none ↦ panicked
  | some list ↦ built list
]

module _ (keys : Keys) (nodes : Nodes) (parse_address : Bytes → Option ℕ) (fns : FnMaps)
    (client : Client) (from_str : Bytes → Option MatchingList) (opens : Bytes → Bool) where
  pub record Relayer : Type 0 where
    pub signed_checkpoint_polling_interval : ℕ
    pub multisig_checkpoint_syncer : MultisigCheckpointSyncer (Client.Region client)
    pub core : AbacusAgentCore keys nodes parse_address fns
    pub whitelist : MatchingList
    pub blacklist : MatchingList

  unfoldable pub from_settings : RelayerSettings → Make keys nodes parse_address fns Relayer
  from_settings settings = do
    syncer ←
        steady (
          try_into_multisig_checkpoint_syncer client parse_address
            settings.multisigcheckpointsyncer)
    whitelist ← steady (parse_matching_list from_str settings.whitelist)
    blacklist ← steady (parse_matching_list from_str settings.blacklist)
    core ←
        try_into_abacus_core keys nodes parse_address fns opens settings.base (codes "relayer") true
    steady (
        built (record {
          signed_checkpoint_polling_interval =
              polling_interval settings.signedcheckpointpollinginterval;
          multisig_checkpoint_syncer = syncer;
          core = core;
          whitelist = whitelist;
          blacklist = blacklist;
        }))

  -- The tasks that are started; `none` is a panic.
  unfoldable pub run : Relayer → Option (List Task)
  run r =
      inbox_tasks r.core.settings
        (checkpoint_fetcher ∷ (outbox_sync ∷ paymaster_tasks r.core.interchain_gas_paymaster))
        r.core.inboxes
