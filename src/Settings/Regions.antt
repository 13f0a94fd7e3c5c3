-- ===== src/Settings/Regions.antt =====
-- The static KMS client of rust/abacus-base/src/settings/mod.rs.
use ethmexico.Base.{
  ℕ, ◌≡◌, refl, sym, ap, ◌∙◌, Bool-cases, inl, inr, Option, none, some, List, [], ◌∷◌,
}
use ethmexico.Base.Bytes.{Bytes, bytes_eq}
use ethmexico.Base.Maps.{lookup, insert}
use ethmexico.Ethereum.Making.{Nodes}
use ethmexico.Storage.Syncers.{Build, built, failed, panicked}
use ethmexico.Settings.{
  Keys, Setup, ◌>>=◌, local, aws, SignerConf, hex_key, aws_key, node, steady, or_fail, Signers,
  try_into_signer,
}
use ethmexico.Settings.Chains.{InboxAddresses, ChainSetup, FnMaps}
use ethmexico.Settings.Agent.{
  Settings, tried, ok_of, signer_of, get_signer, try_caching_inbox, try_inbox_validator_manager,
  named, InboxContracts, inbox_contracts, unless_disabled, inboxes_loop, try_inbox_contracts,
}
use ethmexico.Settings.Steps.{Same, steady-Same, >>=-Same}

-- The configurations with another region for every key on AWS.
abbrev pub relocate : Bytes → SignerConf → SignerConf
relocate region (hex_key key) = hex_key key
relocate region (aws_key id old) = aws_key id region
relocate region node = node

abbrev pub relocate_all : Bytes → List (Bytes × SignerConf) → List (Bytes × SignerConf)
relocate_all region [] = []
relocate_all region ((name, conf) ∷ m) = (name, relocate region conf) ∷ relocate_all region m

abbrev pub relocated : Bytes → Settings → Settings
relocated region s = record s { signers = relocate_all region s.signers }

abbrev relocate_some : Bytes → Option SignerConf → Option SignerConf
relocate_some region none = none
relocate_some region (some conf) = some (relocate region conf)

lookup-relocate_all :
    (region name : Bytes) (m : List (Bytes × SignerConf))
    → lookup bytes_eq name (relocate_all region m) ≡ relocate_some region (lookup bytes_eq name m)
unfolding lookup
lookup-relocate_all region name [] = refl
lookup-relocate_all region name ((j, conf) ∷ m) = elim (Bool-cases (bytes_eq j name)) [
  | inl y ↦ rw y refl
  | inr n ↦ rw n (lookup-relocate_all region name m)
]

module _ (keys : Keys) (nodes : Nodes) (parse_address : Bytes → Option ℕ) (fns : FnMaps)
    (client : Keys.Region keys) (region : Bytes) where
  open keys use {Region, parse_wallet, new_aws}

  abbrev Alike : {A : Type 0} → Setup Region A → Setup Region A → Type 0
  Alike = Same Region client

  alike : {A : Type 0} (b : Build A) → Alike (steady b) (steady b)
  alike b = steady-Same Region client b

  two_steady :
      {A B : Type 0} (b : Build A) (f : A → Build B)
      → Alike (steady b >>= λ a. steady (f a)) (steady b >>= λ a. steady (f a))
  unfolding ◌>>=◌
  two_steady (built a) f = record { same = refl; kept = refl }
  two_steady failed f = record { same = refl; kept = refl }
  two_steady panicked f = record { same = refl; kept = refl }

  try_into_signer-Same :
      (conf : SignerConf)
      → Alike (try_into_signer keys conf) (try_into_signer keys (relocate region conf))
  unfolding try_into_signer ◌>>=◌
  try_into_signer-Same (hex_key key) =
      two_steady (or_fail (parse_wallet key)) (λ signer. built (local signer))
  try_into_signer-Same (aws_key id old) =
      let x = two_steady (or_fail (new_aws client id)) (λ signer. built (aws signer)) in
      record { same = x.same; kept = x.kept }
  try_into_signer-Same node = alike failed

  tried-Same :
      (conf : SignerConf)
      → Alike
          (tried keys nodes parse_address fns conf)
          (tried keys nodes parse_address fns (relocate region conf))
  tried-Same conf =
      let x = try_into_signer-Same conf in
      record {
        same = ap (λ (y : Build (Signers keys) × Option Region). (ok_of y.0, y.1)) x.same;
        kept = x.kept;
      }

  signer_of-Same :
      (o : Option SignerConf)
      → Alike
          (signer_of keys nodes parse_address fns o)
          (signer_of keys nodes parse_address fns (relocate_some region o))
  signer_of-Same none = alike _
  signer_of-Same (some conf) = tried-Same conf

  get_signer-Same :
      (s : Settings) (name : Bytes)
      → Alike
          (get_signer keys nodes parse_address fns s name)
          (get_signer keys nodes parse_address fns (relocated region s) name)
  unfolding get_signer
  get_signer-Same s name =
      let x = signer_of-Same (lookup bytes_eq name s.signers) in
      record {
        same =
            x.same
            ∙ ap (λ o. signer_of keys nodes parse_address fns o (some client))
                (sym (lookup-relocate_all region name s.signers));
        kept = x.kept;
      }

  inbox_contracts-Same :
      (s : Settings) (agent_name : Bytes) (v : ChainSetup InboxAddresses)
      → Alike
          (inbox_contracts keys nodes parse_address fns s agent_name v)
          (inbox_contracts keys nodes parse_address fns (relocated region s) agent_name v)
  unfolding inbox_contracts try_caching_inbox try_inbox_validator_manager
  inbox_contracts-Same s agent_name v =
      >>=-Same Region client
        (>>=-Same Region client (get_signer-Same s v.name)
          (λ signer. >>=-Same Region client (alike _) (λ inbox. alike _)))
        (λ caching_inbox.
          >>=-Same Region client
            (>>=-Same Region client (get_signer-Same s v.name) (λ signer. alike _))
            (λ manager. alike _))

  abbrev Contracts : Type 0
  Contracts = InboxContracts keys nodes parse_address fns

  unless-Same :
      {A : Type 0} (d : Option Bytes) (m m' n n' : Setup Region A)
      → Alike m m'
      → Alike n n'
      → Alike (unless_disabled d m n) (unless_disabled d m' n')
  unless-Same (some text) m m' n n' passed made = passed
  unless-Same none m m' n n' passed made = made

  loop-Same :
      (s : Settings) (agent_name : Bytes) (entries : List (Bytes × ChainSetup InboxAddresses))
      (result : List (Bytes × Contracts))
      → Alike
          (inboxes_loop keys nodes parse_address fns s agent_name result entries)
          (inboxes_loop keys nodes parse_address fns (relocated region s) agent_name result entries)
  unfolding inboxes_loop
  loop-Same s agent_name [] result = alike _
  loop-Same s agent_name ((key, v) ∷ entries) result =
      unless-Same v.disabled _ _ _ _ (loop-Same s agent_name entries result) (
        >>=-Same Region client (alike (named keys nodes parse_address fns key v.name)) (λ checked.
          >>=-Same Region client (inbox_contracts-Same s agent_name v) (λ contracts.
            loop-Same s agent_name entries (insert bytes_eq v.name contracts result))))

  -- Once there is a KMS client, for whatever region, the contracts of the inboxes are the same, errors
  -- and panics included, with any other text in place of all regions of the settings' keys on AWS, and
  -- the client stays the same.
  pub try_inbox_contracts-Same :
      (s : Settings) (agent_name : Bytes)
      → (try_inbox_contracts keys nodes parse_address fns s agent_name (some client)
          ≡ try_inbox_contracts keys nodes parse_address fns
              (relocated region s)
              agent_name
              (some client))
        × ((try_inbox_contracts keys nodes parse_address fns s agent_name (some client)).1
            ≡ some client)
  unfolding try_inbox_contracts
  try_inbox_contracts-Same s agent_name =
      let x = loop-Same s agent_name s.inboxes [] in (x.same, x.kept)
