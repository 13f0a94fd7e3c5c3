-- ===== src/Relayer/Startup/Tasks.antt =====
-- Which tasks rust/agents/relayer/src/relayer.rs starts.
use ethmexico.Base.{
  ℕ, ◌≡◌, ◌≢◌, refl, sym, ap, subst, ◌∙◌, Bool, true, Option, none, some, List, ◌∷◌, ◌++◌, All,
  AnyOf,
}
use ethmexico.Base.Bytes.{Bytes, bytes_eq, codes}
use ethmexico.Base.Maps.{lookup, IsMap}
use ethmexico.Storage.{Client}
use ethmexico.Storage.Syncers.{built}
use ethmexico.Ethereum.Making.{Nodes}
use ethmexico.Settings.{Keys}
use ethmexico.Settings.Chains.{InboxAddresses, ChainSetup, FnMaps}
use ethmexico.Settings.Agent.{Settings, InboxContracts, try_inbox_contracts}
use ethmexico.Settings.Core.{AbacusAgentCore, try_into_abacus_core}
use ethmexico.Settings.Steps.{built-injective, >>=-eq-built}
use ethmexico.Settings.Inboxes.{Enabled, Expected, try_inbox_contracts-Expected}
use ethmexico.Relayer.MatchingList.{MatchingList}
use ethmexico.Relayer.Startup.{
  RelayerSettings, Task, inbox, checkpoint_fetcher, outbox_sync, submitter_of, inbox_tasks,
  paymaster_tasks, Relayer, from_settings, run,
}
use ethmexico.Relayer.Startup.Entries.{
  IsEnabled, IsInboxTask, All-entries, lookup-present, lookup-entry, start,
}

module _ (keys : Keys) (nodes : Nodes) (parse_address : Bytes → Option ℕ) (fns : FnMaps) where
  abbrev Contracts : Type 0
  Contracts = InboxContracts keys nodes parse_address fns

  Enabled-found :
      (s : Settings) (agent_name name : Bytes) (v : ChainSetup InboxAddresses) (d : Option Bytes)
      (entry : Option Contracts)
      → Enabled keys nodes parse_address fns s agent_name d name v none entry
      → entry ≢ none
      → d ≡ none
  Enabled-found s agent_name name v (some text) entry h found = absurd (found h)
  Enabled-found s agent_name name v none entry h found = refl

  Expected-found :
      (s : Settings) (agent_name name : Bytes) (o : Option (ChainSetup InboxAddresses))
      (entry : Option Contracts)
      → Expected keys nodes parse_address fns s agent_name name o none entry
      → entry ≢ none
      → (v : ChainSetup InboxAddresses) × ((o ≡ some v) × (v.disabled ≡ none))
  Expected-found s agent_name name none entry h found = absurd (found h)
  Expected-found s agent_name name (some v) entry h found =
      (v, (refl, Enabled-found s agent_name name v v.disabled entry h found))

  Enabled-entry :
      (s : Settings) (agent_name name : Bytes) (v : ChainSetup InboxAddresses) (d : Option Bytes)
      (entry : Option Contracts)
      → Enabled keys nodes parse_address fns s agent_name d name v none entry
      → d ≡ none
      → (c : Contracts) × (entry ≡ some c)
  Enabled-entry s agent_name name v (some text) entry h on = cc
  Enabled-entry s agent_name name v none entry (e, (c, found, made)) on = (c, found)

  module _ (client : Client) (from_str : Bytes → Option MatchingList) (opens : Bytes → Bool) where
    abbrev Agent : Type 0
    Agent = Relayer keys nodes parse_address fns client from_str opens

    abbrev Core : Type 0
    Core = AbacusAgentCore keys nodes parse_address fns

    core_inboxes :
        (s : Settings) (name : Bytes) (core : Core) (k k' : Option (Keys.Region keys))
        → try_into_abacus_core keys nodes parse_address fns opens s name true k ≡ (built core, k')
        → (core.settings ≡ s)
          × ((k1 : Option (Keys.Region keys)) × (k2 : Option (Keys.Region keys))
              × (try_inbox_contracts keys nodes parse_address fns s name k1
                  ≡ (built core.inboxes, k2)))
    unfolding try_into_abacus_core
    core_inboxes s name core k k' h =
        let (port, k1, _, h1) = >>=-eq-built _ _ core k k' h in
        let (db, k2, _, h2) = >>=-eq-built _ _ core k1 k' h1 in
        let (outbox, k3, _, h3) = >>=-eq-built _ _ core k2 k' h2 in
        let (paymaster, k4, _, h4) = >>=-eq-built _ _ core k3 k' h3 in
        let (inboxes, k5, made, h5) = >>=-eq-built _ _ core k4 k' h4 in
        let e = built-injective _ core (ap (λ x. x.0) h5) in
        (
          ap (λ (c : Core). c.settings) (sym e),
          (k4, k5, made ∙ ap (λ (c : Core). (built c.inboxes, k5)) e),
        )

    relayer_inboxes :
        (settings : RelayerSettings) (r : Agent) (k k' : Option (Keys.Region keys))
        → from_settings keys nodes parse_address fns client from_str opens settings k
          ≡ (built r, k')
        → (r.core.settings ≡ settings.base)
          × ((k1 : Option (Keys.Region keys)) × (k2 : Option (Keys.Region keys))
              × (try_inbox_contracts keys nodes parse_address fns settings.base (codes "relayer") k1
                  ≡ (built r.core.inboxes, k2)))
    unfolding from_settings
    relayer_inboxes settings r k k' h =
        let (syncer, k1, _, h1) = >>=-eq-built _ _ r k k' h in
        let (whitelist, k2, _, h2) = >>=-eq-built _ _ r k1 k' h1 in
        let (blacklist, k3, _, h3) = >>=-eq-built _ _ r k2 k' h2 in
        let (core, k4, made, h4) = >>=-eq-built _ _ r k3 k' h3 in
        let e = built-injective _ r (ap (λ x. x.0) h4) in
        let (same, (k5, k6, inboxes)) =
          core_inboxes settings.base (codes "relayer") core k3 k4 made in
        (
          ap (λ (x : Agent). x.core.settings) (sym e) ∙ same,
          (k5, k6, inboxes ∙ ap (λ (x : Agent). (built x.core.inboxes, k6)) e),
        )

    -- A relayer that is made with success from settings whose inboxes are a map runs without a panic.
    -- It starts, in this order: for each of its inboxes a task; the fetcher of checkpoints; the task of
    -- the outbox; and that of the paymaster, if there is one. Every task for an inbox is for one that
    -- is configured and not disabled, with the submitter that its configuration names, and every such
    -- inbox has its task.
    pub run-starts :
        (settings : RelayerSettings) (r : Agent) (k k' : Option (Keys.Region keys))
        → IsMap bytes_eq settings.base.inboxes
        → from_settings keys nodes parse_address fns client from_str opens settings k
          ≡ (built r, k')
        → (l : List Task) × (run keys nodes parse_address fns client from_str opens r
            ≡ some (
                l
                ++ (checkpoint_fetcher
                    ∷ (outbox_sync ∷ paymaster_tasks r.core.interchain_gas_paymaster))))
          × (All (IsInboxTask settings.base) l
              × ((name : Bytes) (v : ChainSetup InboxAddresses)
                  → IsEnabled settings.base name v
                  → AnyOf (λ t. inbox name (submitter_of v.gelato_conf) ≡ t) l))
    unfolding run
    run-starts settings r k k' map h =
        let s = settings.base in
        let (same, (k1, k2, made)) = relayer_inboxes settings r k k' h in
        let m = r.core.inboxes in
        let others =
          checkpoint_fetcher ∷ (outbox_sync ∷ paymaster_tasks r.core.interchain_gas_paymaster) in
        let expected =
          try_inbox_contracts-Expected keys nodes parse_address fns s (codes "relayer") m k1 k2 map
            made in
        let (l, started) = start s others m (
          All-entries _ m (λ e at.
            Expected-found s (codes "relayer") e.0 (lookup bytes_eq e.0 s.inboxes)
              (lookup bytes_eq e.0 m) (expected e.0) (lookup-present e m at))) in
        (
          l,
          ap (λ x. inbox_tasks x others m) same ∙ started.tasks_are,
          (
            started.for_inboxes,
            λ name v enabled.
                let (c, found) =
                  Enabled-entry s (codes "relayer") name v v.disabled (lookup bytes_eq name m)
                    (subst
                      (λ o.
                        Expected keys nodes parse_address fns s (codes "relayer") name o none
                          (lookup bytes_eq name m))
                      enabled.0 (expected name))
                    enabled.1 in
                started.each name v (lookup-entry name m c found) enabled.0,
          ),
        )
