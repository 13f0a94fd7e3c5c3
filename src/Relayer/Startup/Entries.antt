-- ===== src/Relayer/Startup/Entries.antt =====
-- The tasks of rust/agents/relayer/src/relayer.rs for the entries of a map of inboxes.
use ethmexico.Base.{
  ◌≡◌, ◌≢◌, refl, sym, ap, ◌∙◌, inl, inr, Bool-cases, none, some, List, [], ◌∷◌, ◌++◌, All, AnyOf,
}
use ethmexico.Base.Bytes.{Bytes, bytes_eq, bytes_eq_refl, bytes_eq→eq}
use ethmexico.Base.Maps.{lookup}
use ethmexico.Settings.Chains.{InboxAddresses, ChainSetup}
use ethmexico.Settings.Agent.{Settings}
use ethmexico.Relayer.Startup.{Task, inbox, submitter_of, inbox_tasks}

-- The inbox with that key is configured and not disabled.
abbrev pub IsEnabled : Settings → Bytes → ChainSetup InboxAddresses → Type 0
IsEnabled s name v = (lookup bytes_eq name s.inboxes ≡ some v) × (v.disabled ≡ none)

-- A task for an enabled inbox, with the submitter of its configuration.
abbrev pub IsInboxTask : Settings → Task → Type 0
IsInboxTask s task =
    (name : Bytes) × (v : ChainSetup InboxAddresses) × IsEnabled s name v
    × (task ≡ inbox name (submitter_of v.gelato_conf))

module _ {A : Type 0} where
  pub All-entries :
      (P : Bytes × A → Type 0) (m : List (Bytes × A))
      → ((e : Bytes × A) → AnyOf (λ x. x ≡ e) m → P e)
      → All P m
  All-entries P [] f = tt
  All-entries P (x ∷ m) f = (f x (inl refl), All-entries P m (λ e h. f e (inr h)))

  pub lookup-present :
      (e : Bytes × A) (m : List (Bytes × A)) → AnyOf (λ x. x ≡ e) m → lookup bytes_eq e.0 m ≢ none
  unfolding lookup
  lookup-present e [] h = elim h [ ]
  lookup-present e ((j, a) ∷ m) h = elim (Bool-cases (bytes_eq j e.0)) [
    | inl y ↦ rw y (λ x. cc)
    | inr n ↦ rw n (elim h [
      | inl same ↦ absurd (cc (n, bytes_eq_refl e.0, ap (λ (x : Bytes × A). x.0) same))
      | inr rest ↦ lookup-present e m rest
    ])
  ]

  pub lookup-entry :
      (name : Bytes) (m : List (Bytes × A)) (a : A)
      → lookup bytes_eq name m ≡ some a
      → AnyOf (λ (x : Bytes × A). x.0 ≡ name) m
  unfolding lookup
  lookup-entry name [] a h = cc
  lookup-entry name ((j, b) ∷ m) a h = elim (Bool-cases (bytes_eq j name)) [
    | inl y ↦ inl (bytes_eq→eq j name y)
    | inr n ↦ inr (lookup-entry name m a (rw n at h))
  ]

-- What the tasks `l` of the entries `m` are, before `others`.
pub record Started {A : Type 0} (s : Settings) (others : List Task) (m : List (Bytes × A))
    (l : List Task) : Type 0 where
  pub tasks_are : inbox_tasks s others m ≡ some (l ++ others)
  pub for_inboxes : All (IsInboxTask s) l
  pub each :
      (name : Bytes) (v : ChainSetup InboxAddresses)
      → AnyOf (λ (x : Bytes × A). x.0 ≡ name) m
      → lookup bytes_eq name s.inboxes ≡ some v
      → AnyOf (λ t. inbox name (submitter_of v.gelato_conf) ≡ t) l

same_task :
    (s : Settings) (name other : Bytes) (v w : ChainSetup InboxAddresses)
    → name ≡ other
    → lookup bytes_eq name s.inboxes ≡ some v
    → lookup bytes_eq other s.inboxes ≡ some w
    → inbox other (submitter_of w.gelato_conf) ≡ inbox name (submitter_of v.gelato_conf)
same_task s name other v w same hv hw =
    let e : some v ≡ some w = sym hv ∙ ap (λ x. lookup bytes_eq x s.inboxes) same ∙ hw in
    let found : v ≡ w = cc in λ i. inbox (sym same i) (submitter_of (sym found i).gelato_conf)

pub start :
    {A : Type 0} (s : Settings) (others : List Task) (m : List (Bytes × A))
    → All (λ (e : Bytes × A). (v : ChainSetup InboxAddresses) × IsEnabled s e.0 v) m
    → (l : List Task) × Started s others m l
unfolding inbox_tasks
start s others [] h =
    ([], record { tasks_are = refl; for_inboxes = tt; each = λ name v p e. elim p [ ] })
start s others ((name, a) ∷ m) ((v, enabled), hs) =
    let (l, started) = start s others m hs in
    (
      inbox name (submitter_of v.gelato_conf) ∷ l,
      record {
        tasks_are = rw (enabled.0, started.tasks_are) refl;
        for_inboxes = ((name, v, enabled, refl), started.for_inboxes);
        each = λ other w p e. elim p [
          | inl same ↦ inl (same_task s name other v w same enabled.0 e)
          | inr rest ↦ inr (started.each other w rest e)
        ];
      },
    )
