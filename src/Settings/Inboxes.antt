-- ===== src/Settings/Inboxes.antt =====
-- Which contracts rust/abacus-base/src/settings/mod.rs makes for the inboxes.
use ethmexico.Base.{
  ℕ, ◌≡◌, ◌≢◌, refl, sym, ap, subst, ◌∙◌, inl, inr, Bool-cases, Option, none, some, List, [], ◌∷◌,
}
use ethmexico.Base.Bytes.{Bytes, bytes_eq, bytes_eq_refl, bytes_eq→eq}
use ethmexico.Base.Maps.{lookup, insert, IsMap, lookup-insert_same, lookup-insert_other}
use ethmexico.Storage.Syncers.{Build, built}
use ethmexico.Ethereum.Making.{Nodes}
use ethmexico.Settings.{Keys, Setup, steady}
use ethmexico.Settings.Chains.{InboxAddresses, ChainSetup, FnMaps}
use ethmexico.Settings.Agent.{
  Settings, named, unless_disabled, InboxContracts, inbox_contracts, inboxes_loop,
  try_inbox_contracts,
}
use ethmexico.Settings.Steps.{>>=-eq-built}

module _ (keys : Keys) (nodes : Nodes) (parse_address : Bytes → Option ℕ) (fns : FnMaps)
    (s : Settings) (agent_name : Bytes) where
  open keys use {Region}

  abbrev Contracts : Type 0
  Contracts = InboxContracts keys nodes parse_address fns

  abbrev Setups : Type 0
  Setups = List (Bytes × ChainSetup InboxAddresses)

  -- The contracts are made for the inbox, in some state of the KMS client.
  abbrev pub IsMadeFor : ChainSetup InboxAddresses → Contracts → Type 0
  IsMadeFor v c =
      (k : Option Region) × ((inbox_contracts keys nodes parse_address fns s agent_name v k).0
        ≡ built c)

  -- The entry of a name, `before` where no inbox with that name is enabled.
  abbrev pub Enabled :
      Option Bytes
      → Bytes
      → ChainSetup InboxAddresses
      → Option Contracts
      → Option Contracts
      → Type 0
  Enabled (some text) name v before entry = entry ≡ before
  Enabled none name v before entry =
      (v.name ≡ name) × ((c : Contracts) × (entry ≡ some c) × IsMadeFor v c)

  abbrev pub Expected :
      Bytes → Option (ChainSetup InboxAddresses) → Option Contracts → Option Contracts → Type 0
  Expected name none before entry = entry ≡ before
  Expected name (some v) before entry = Enabled v.disabled name v before entry

  Enabled-before :
      (d : Option Bytes) (name : Bytes) (v : ChainSetup InboxAddresses)
      (before before' entry : Option Contracts)
      → before ≡ before'
      → Enabled d name v before entry
      → Enabled d name v before' entry
  Enabled-before (some text) name v before before' entry e h = h ∙ e
  Enabled-before none name v before before' entry e h = h

  Enabled-eq :
      (d d' : Option Bytes) (name : Bytes) (v : ChainSetup InboxAddresses)
      (before entry : Option Contracts)
      → d ≡ d'
      → Enabled d name v before entry
      → Enabled d' name v before entry
  Enabled-eq d d' name v before entry e h = subst (λ x. Enabled x name v before entry) e h

  Expected-before :
      (name : Bytes) (o : Option (ChainSetup InboxAddresses))
      (before before' entry : Option Contracts)
      → before ≡ before'
      → Expected name o before entry
      → Expected name o before' entry
  Expected-before name none before before' entry e h = h ∙ e
  Expected-before name (some v) before before' entry e h =
      Enabled-before v.disabled name v before before' entry e h

  -- `loop` for the entries after one that is enabled, whose contracts have been inserted.
  Expected-cons :
      (key name : Bytes) (v : ChainSetup InboxAddresses) (entries : Setups)
      (result : List (Bytes × Contracts)) (c : Contracts) (entry : Option Contracts)
      → lookup bytes_eq key entries ≡ none
      → v.disabled ≡ none
      → key ≡ v.name
      → IsMadeFor v c
      → Expected name
          (lookup bytes_eq name entries)
          (lookup bytes_eq name (insert bytes_eq v.name c result))
          entry
      → Expected name
          (lookup bytes_eq name ((key, v) ∷ entries))
          (lookup bytes_eq name result)
          entry
  unfolding lookup
  Expected-cons key name v entries result c entry fresh enabled e made h =
      elim (Bool-cases (bytes_eq key name)) [
        | inl y ↦
            let same : key ≡ name = bytes_eq→eq key name y in
            let gone : lookup bytes_eq name entries ≡ none =
              ap (λ x. lookup bytes_eq x entries) (sym same) ∙ fresh in
            let here : lookup bytes_eq name (insert bytes_eq v.name c result) ≡ some c =
              ap (λ x. lookup bytes_eq name (insert bytes_eq x c result)) (sym e ∙ same)
              ∙ lookup-insert_same bytes_eq bytes_eq_refl bytes_eq→eq name c result in
            let found : entry ≡ some c = (rw gone at h) ∙ here in
            rw y (
              Enabled-eq none v.disabled name v _ entry (sym enabled)
                ((sym e ∙ same), (c, found, made)))
        | inr n ↦
            let ne : v.name ≢ name = λ x. cc (n, bytes_eq_refl name, e ∙ x) in
            rw n (
              Expected-before name (lookup bytes_eq name entries) _ _ entry
                (lookup-insert_other bytes_eq bytes_eq_refl bytes_eq→eq v.name name c result ne) h)
      ]

  Expected-skip :
      (key name : Bytes) (v : ChainSetup InboxAddresses) (entries : Setups) (text : Bytes)
      (before entry : Option Contracts)
      → lookup bytes_eq key entries ≡ none
      → v.disabled ≡ some text
      → Expected name (lookup bytes_eq name entries) before entry
      → Expected name (lookup bytes_eq name ((key, v) ∷ entries)) before entry
  unfolding lookup
  Expected-skip key name v entries text before entry fresh off h =
      elim (Bool-cases (bytes_eq key name)) [
        | inl y ↦
            let gone : lookup bytes_eq name entries ≡ none =
              ap (λ x. lookup bytes_eq x entries) (sym (bytes_eq→eq key name y)) ∙ fresh in
            rw y (Enabled-eq (some text) v.disabled name v before entry (sym off) (rw gone at h))
        | inr n ↦ rw n h
      ]

  named-eq-built :
      (k name : Bytes) (u : Unit {0})
      → named keys nodes parse_address fns k name ≡ built u
      → k ≡ name
  named-eq-built k name u h = elim (Bool-cases (bytes_eq k name)) [
    | inl y ↦ bytes_eq→eq k name y
    | inr n ↦ cc (rw n at h)
  ]

  abbrev loop : List (Bytes × Contracts) → Setups → Setup Region (List (Bytes × Contracts))
  loop = inboxes_loop keys nodes parse_address fns s agent_name

  abbrev Fills : Setups → Type 0
  Fills entries =
      (result m : List (Bytes × Contracts)) (k k' : Option Region)
      → loop result entries k ≡ (built m, k')
      → (name : Bytes)
      → Expected name (lookup bytes_eq name entries) (lookup bytes_eq name result)
          (lookup bytes_eq name m)

  unless-made :
      {A : Type 0} (d d' : Option Bytes) (passed made : Setup Region A) (k : Option Region)
      (x : Build A × Option Region)
      → d ≡ d'
      → unless_disabled d passed made k ≡ x
      → unless_disabled d' passed made k ≡ x
  unless-made d d' passed made k x e h = subst (λ y. unless_disabled y passed made k ≡ x) e h

  Fills-cons :
      (key : Bytes) (v : ChainSetup InboxAddresses) (entries : Setups) (d : Option Bytes)
      → v.disabled ≡ d
      → lookup bytes_eq key entries ≡ none
      → Fills entries
      → Fills ((key, v) ∷ entries)
  unfolding inboxes_loop
  Fills-cons key v entries (some text) off fresh rest result m k k' h name =
      Expected-skip key name v entries text _ _ fresh off
        (rest result m k k' (unless-made v.disabled (some text) _ _ k _ off h) name)
  Fills-cons key v entries none on fresh rest result m k k' h name =
      let (u, k1, h1, later) =
        >>=-eq-built (steady (named keys nodes parse_address fns key v.name)) _ m k k'
          (unless-made v.disabled none _ _ k _ on h) in
      let (c, k2, h2, last) =
        >>=-eq-built (inbox_contracts keys nodes parse_address fns s agent_name v) _ m k1 k'
          later in
      Expected-cons key name v entries result c (lookup bytes_eq name m) fresh on
        (named-eq-built key v.name u (ap (λ x. x.0) h1)) (k1, ap (λ x. x.0) h2)
        (rest (insert bytes_eq v.name c result) m k2 k' last name)

  built-eq : (m n : List (Bytes × Contracts)) → built m ≡ built n → m ≡ n
  built-eq m n h = cc

  loop-Fills : (entries : Setups) → IsMap bytes_eq entries → Fills entries
  unfolding inboxes_loop lookup IsMap
  loop-Fills [] map =
      λ result m k k' h name. ap (lookup bytes_eq name) (built-eq m result (sym (ap (λ x. x.0) h)))
  loop-Fills ((key, v) ∷ entries) (fresh, map) =
      Fills-cons key v entries v.disabled refl fresh (loop-Fills entries map)

  -- Where the contracts of the inboxes are made with success, from a map of inboxes: a name has an
  -- entry only if an inbox with that key is configured and not disabled. Such an inbox has its key as
  -- its name, and the entry is the contracts that are made for it.
  pub try_inbox_contracts-Expected :
      (m : List (Bytes × Contracts)) (k k' : Option Region)
      → IsMap bytes_eq s.inboxes
      → try_inbox_contracts keys nodes parse_address fns s agent_name k ≡ (built m, k')
      → (name : Bytes)
      → Expected name (lookup bytes_eq name s.inboxes) none (lookup bytes_eq name m)
  unfolding try_inbox_contracts lookup
  try_inbox_contracts-Expected m k k' map h name = loop-Fills s.inboxes map [] m k k' h name
