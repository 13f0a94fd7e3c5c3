-- ===== src/Settings/Metrics.antt =====
-- What rust/abacus-base/src/settings/chains.rs adds to the configuration of the metrics.
use ethmexico.Base.{
  ℕ, ◌==◌, ==-refl, ==→eq, ◌≡◌, refl, ap, ◌∙◌, if◌then◌else◌, Option, none, some, List,
}
use ethmexico.Base.Bytes.{Bytes, codes}
use ethmexico.Base.Maps.{lookup, or_else, lookup-or_insert}
use ethmexico.Prometheus.{WalletInfo, ContractInfo}
use ethmexico.Ethereum.Making.{Nodes}
use ethmexico.Settings.{Keys, Signers}
use ethmexico.Settings.Chains.{
  InboxAddresses, ChainSetup, FnMaps, contract_info, with_contract, with_wallet, address_of,
  inbox_metrics_conf,
}

-- What an address that may be there adds for `a`.
abbrev pub added : {A : Type 0} → Option ℕ → A → ℕ → Option A
added none info a = none
added (some addr) info a = if addr == a then some info else none

or_else-none : {A : Type 0} (o : Option A) → o ≡ or_else o none
or_else-none none = refl
or_else-none (some x) = refl

or_else_assoc : {A : Type 0} (o p q : Option A) → or_else (or_else o p) q ≡ or_else o (or_else p q)
or_else_assoc none p q = refl
or_else_assoc (some x) p q = refl

lookup-with_contract :
    (addr : Option ℕ) (info : ContractInfo) (m : List (ℕ × ContractInfo)) (a : ℕ)
    → lookup ◌==◌ a (with_contract addr info m) ≡ or_else (lookup ◌==◌ a m) (added addr info a)
lookup-with_contract none info m a = or_else-none (lookup ◌==◌ a m)
lookup-with_contract (some addr) info m a = lookup-or_insert ◌==◌ ==-refl ==→eq addr a info m

lookup-with_wallet :
    (addr : Option ℕ) (info : WalletInfo) (m : List (ℕ × WalletInfo)) (a : ℕ)
    → lookup ◌==◌ a (with_wallet addr info m) ≡ or_else (lookup ◌==◌ a m) (added addr info a)
lookup-with_wallet none info m a = or_else-none (lookup ◌==◌ a m)
lookup-with_wallet (some addr) info m a = lookup-or_insert ◌==◌ ==-refl ==→eq addr a info m

module _ (keys : Keys) (nodes : Nodes) (parse_address : Bytes → Option ℕ) (fns : FnMaps) where
  open fns use {outbox_fns, inbox_fns}

  -- In the metrics' configuration of an inbox, a contract that was configured keeps its information;
  -- another one has that of the inbox, or else of the validator manager with the functions of the
  -- outbox, if it is at that address, and none otherwise. A wallet that was configured keeps its
  -- information; another one has the agent's name if it is the signer's, and none otherwise.
  inbox_metrics_conf-keeps :
      (c : ChainSetup InboxAddresses) (agent_name : Bytes) (signer : Option (Signers keys)) (a : ℕ)
      → (lookup ◌==◌ a
            (inbox_metrics_conf keys nodes parse_address fns c agent_name signer).contracts
          ≡ or_else (lookup ◌==◌ a c.metrics_conf.contracts) (
              or_else
                (added
                  (parse_address c.addresses.inbox)
                  (contract_info (codes "inbox") inbox_fns)
                  a)
                (added
                  (parse_address c.addresses.validator_manager)
                  (contract_info (codes "ivm") outbox_fns)
                  a)))
        × (lookup ◌==◌ a
              (inbox_metrics_conf keys nodes parse_address fns c agent_name signer).wallets
            ≡ or_else (lookup ◌==◌ a c.metrics_conf.wallets) (
                added
                  (address_of keys nodes parse_address fns signer)
                  (record { name = some agent_name })
                  a))
  unfolding inbox_metrics_conf
  inbox_metrics_conf-keeps c agent_name signer a =
      let inbox = parse_address c.addresses.inbox in
      let info = contract_info (codes "inbox") inbox_fns in
      (
        lookup-with_contract (parse_address c.addresses.validator_manager)
              (contract_info (codes "ivm") outbox_fns)
              (with_contract inbox info c.metrics_conf.contracts) a
            ∙ ap
                (λ o. or_else o (
                  added (parse_address c.addresses.validator_manager)
                    (contract_info (codes "ivm") outbox_fns) a))
                (lookup-with_contract inbox info c.metrics_conf.contracts a)
            ∙ or_else_assoc (lookup ◌==◌ a c.metrics_conf.contracts) _ _,
        lookup-with_wallet (address_of keys nodes parse_address fns signer)
            (record { name = some agent_name }) c.metrics_conf.wallets a,
      )
