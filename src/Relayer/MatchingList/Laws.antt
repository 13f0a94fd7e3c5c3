-- ===== src/Relayer/MatchingList/Laws.antt =====
-- What the rules of rust/agents/relayer/src/settings/matching_list.rs accept.
use ethmexico.Base.{
  ℕ, ◌≡◌, refl, ◌↔◌, ◌⊎◌, inl, inr, ==→eq, ==-refl, Bool, true, false, ◌&&◌, Bool-cases, none, some,
  List, [], ◌∷◌, any, subst, sym, ◌∙◌, ap,
}
use ethmexico.Base.Bytes.{H256, bytes_eq, bytes_eq_refl, bytes_eq→eq}
use ethmexico.Types.{AbacusMessage}
use ethmexico.Relayer.MatchingList.{
  Filter, wildcard, enumerated, matches, ListElement, match_info, ℕ_eq, matches_rule,
  matches_any_rule, list_matches, msg_matches, MatchingList,
}

abbrev pub Any : {A : Type 0} → (A → Type 0) → List A → Type 0
Any P [] = ⊥
Any P (x ∷ xs) = P x ⊎ Any P xs

-- A wildcard accepts every value, an enumeration those that it lists.
abbrev pub Accepts : {T : Type 0} → Filter T → T → Type 0
Accepts wildcard v = Unit {0}
Accepts (enumerated list) v = Any (λ i. i ≡ v) list

-- A rule accepts a message if each of its four filters does.
abbrev pub AcceptsMessage : AbacusMessage → ListElement → Type 0
AcceptsMessage m rule =
    Accepts rule.src_domain m.origin
    × Accepts rule.src_address m.sender
    × Accepts rule.dst_domain m.destination
    × Accepts rule.dst_address m.recipient

any-cons :
    {A : Type 0} (p : A → Bool) (P : A → Type 0) (x : A) (xs : List A)
    → (p x ≡ true) ↔ P x
    → (any p xs ≡ true) ↔ Any P xs
    → (any p (x ∷ xs) ≡ true) ↔ (P x ⊎ Any P xs)
any-cons p P x xs h ih = elim (Bool-cases (p x)) [
  | inl hit ↦ ((λ e. inl (h.0 hit)), (λ a. ap pick_true hit))
  | inr miss ↦ (
    (λ e. inr (ih.0 (sym (ap pick_true miss) ∙ e))),
    (λ a. elim a [ inl y ↦ cc (h.1 y, miss) | inr ys ↦ ap pick_true miss ∙ ih.1 ys ]),
  )
]
  where
    pick_true : Bool → Bool
    pick_true b = elim b [ true ↦ true | false ↦ any p xs ]

any-Any :
    {A : Type 0} (p : A → Bool) (P : A → Type 0) (xs : List A)
    → ((x : A) → (p x ≡ true) ↔ P x)
    → (any p xs ≡ true) ↔ Any P xs
any-Any p P [] h = ((λ e. cc), (λ a. absurd a))
any-Any p P (x ∷ xs) h = any-cons p P x xs (h x) (any-Any p P xs h)

matches-Accepts :
    {T : Type 0} (eq : T → T → Bool) (f : Filter T) (v : T)
    → ((a b : T) → (eq a b ≡ true) ↔ (a ≡ b))
    → (matches eq f v ≡ true) ↔ Accepts f v
unfolding matches
matches-Accepts eq wildcard v h = ((λ _. tt), (λ _. refl))
matches-Accepts eq (enumerated list) v h = any-Any (λ i. eq i v) (λ i. i ≡ v) list (λ i. h i v)

ℕ_eq_iff : (a b : ℕ) → (ℕ_eq a b ≡ true) ↔ (a ≡ b)
ℕ_eq_iff a b = (==→eq a b, λ e. rw e (==-refl b))

bytes_eq_iff : (a b : H256) → (bytes_eq a b ≡ true) ↔ (a ≡ b)
bytes_eq_iff a b = (bytes_eq→eq a b, λ e. rw e (bytes_eq_refl b))

&&-iff : (a b : Bool) {P Q : Type 0} → (a ≡ true) ↔ P → (b ≡ true) ↔ Q → ((a && b) ≡ true) ↔ (P × Q)
&&-iff true b p q = ((λ e. (p.0 refl, q.0 e)), (λ h. q.1 h.1))
&&-iff false b p q = ((λ e. cc), (λ h. p.1 h.0))

flat : {P Q R S : Type 0} → (P × (Q × (R × S))) ↔ (P × Q × R × S)
flat = ((λ h. (h.0, h.1.0, h.1.1.0, h.1.1.1)), (λ h. (h.0, (h.1, (h.2, h.3)))))

iff_trans : {P Q R : Type 0} → P ↔ Q → Q ↔ R → P ↔ R
iff_trans f g = ((λ p. g.0 (f.0 p)), (λ r. f.1 (g.1 r)))

matches_rule-Accepts :
    (m : AbacusMessage) (rule : ListElement)
    → (matches_rule rule (match_info m) ≡ true) ↔ AcceptsMessage m rule
unfolding matches_rule match_info
matches_rule-Accepts m rule =
    iff_trans
      (&&-iff _ _ (matches-Accepts ℕ_eq rule.src_domain m.origin ℕ_eq_iff) (
        &&-iff _ _ (matches-Accepts bytes_eq rule.src_address m.sender bytes_eq_iff) (
          &&-iff _ _ (matches-Accepts ℕ_eq rule.dst_domain m.destination ℕ_eq_iff)
            (matches-Accepts bytes_eq rule.dst_address m.recipient bytes_eq_iff))))
      flat

-- A list that is given matches a message exactly if one of its rules accepts the message, whatever
-- the default; where none is given, the default decides.
pub msg_matches_iff :
    (list : MatchingList) (m : AbacusMessage) (default : Bool)
    → ((rules : List ListElement)
        → list ≡ some rules
        → (msg_matches list m default ≡ true) ↔ Any (AcceptsMessage m) rules)
      × (list ≡ none → msg_matches list m default ≡ default)
unfolding msg_matches list_matches matches_any_rule
msg_matches_iff list m default = (
  (λ rules e.
      subst (λ (l : MatchingList). (msg_matches l m default ≡ true) ↔ Any (AcceptsMessage m) rules)
        (sym e)
        (any-Any (λ rule. matches_rule rule (match_info m)) (AcceptsMessage m) rules
          (matches_rule-Accepts m))),
  (λ e. rw e refl),
)
