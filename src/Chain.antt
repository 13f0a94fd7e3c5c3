-- ===== src/Chain.antt =====
-- rust/abacus-core/src/chain.rs: the known domains and the names of their chains.
use ethmexico.Base.{
  ℕ, ◌≡◌, ◌↔◌, refl, sym, ap, subst, ◌==◌, ==→eq, ==-refl, Bool, true, false, not, ◌&&◌,
  if◌then◌else◌, Bool-cases, Option, none, some, List, [], ◌∷◌, inl, inr,
}
use ethmexico.Base.Bytes.{Bytes, bytes_eq, bytes_eq→eq, bytes_eq_refl, codes}

-- The arguments of the macro `domain_and_chain!`.
abbrev pub domain_and_chain : List (ℕ × Bytes)
domain_and_chain =
    (0x63656c6f, codes "celo")
    ∷ ((0x657468, codes "ethereum")
        ∷ ((0x61766178, codes "avalanche")
            ∷ ((0x706f6c79, codes "polygon")
                ∷ ((1000, codes "alfajores")
                    ∷ ((43113, codes "fuji")
                        ∷ ((5, codes "goerli")
                            ∷ ((3000, codes "kovan")
                                ∷ ((80001, codes "mumbai")
                                    ∷ ((6386274, codes "arbitrum")
                                        ∷ ((6452067, codes "bsc")
                                            ∷ ((28528, codes "optimism")
                                                ∷ ((13371, codes "test1")
                                                    ∷ ((13372, codes "test2")
                                                        ∷ ((13373, codes "test3")
                                                            ∷ ((0x62732d74, codes "bsctestnet")
                                                            ∷ ((0x61722d72, codes "arbitrumrinkeby")
                                                            ∷ ((0x6f702d6b, codes "optimismkovan")
                                                            ∷ ((0x61752d74, codes "auroratestnet")
                                                            ∷ []))))))))))))))))))

-- The arms of the two matches, in order.
unfoldable pub chain_of : List (ℕ × Bytes) → ℕ → Option Bytes
chain_of [] domain = none
chain_of ((d, c) ∷ table) domain =
    let rest = chain_of table domain in if domain == d then some c else rest

unfoldable pub domain_of : List (ℕ × Bytes) → Bytes → Option ℕ
domain_of [] chain = none
domain_of ((d, c) ∷ table) chain =
    let rest = domain_of table chain in if bytes_eq chain c then some d else rest

unfoldable pub chain_from_domain : ℕ → Option Bytes
chain_from_domain domain = chain_of domain_and_chain domain

unfoldable pub domain_from_chain : Bytes → Option ℕ
domain_from_chain chain = domain_of domain_and_chain chain

-- No name and no domain stands twice in a table.
abbrev is_new : ℕ → Bytes → List (ℕ × Bytes) → Bool
is_new d c [] = true
is_new d c ((e, x) ∷ table) =
    let rest = is_new d c table in (not (e == d) && not (bytes_eq x c)) && rest

abbrev is_injective : List (ℕ × Bytes) → Bool
is_injective [] = true
is_injective ((d, c) ∷ table) = let rest = is_injective table in is_new d c table && rest

and-true : (a b : Bool) → (a && b) ≡ true → (a ≡ true) × (b ≡ true)
and-true true b h = (refl, h)
and-true false b h = cc

not-true : (a : Bool) → not a ≡ true → a ≡ false
not-true true h = cc
not-true false h = refl

-- What a table finds is not what is new to it.
chain_of-new :
    (table : List (ℕ × Bytes)) (d e : ℕ) (c x : Bytes)
    → is_new d c table ≡ true
    → chain_of table e ≡ some x
    → bytes_eq x c ≡ false
unfolding chain_of
chain_of-new [] d e c x new h = cc
chain_of-new ((f, y) ∷ table) d e c x new h =
    let (here, later) = and-true (not (f == d) && not (bytes_eq y c)) (is_new d c table) new in
    let (_, name) = and-true (not (f == d)) (not (bytes_eq y c)) here in
    elim (Bool-cases (e == f)) [
      | inl hit ↦
          let found : some y ≡ some x = rw hit at h in
          let is_it : y ≡ x = cc in subst (λ z. bytes_eq z c ≡ false) is_it (not-true _ name)
      | inr miss ↦ chain_of-new table d e c x later (rw miss at h)
    ]

domain_of-new :
    (table : List (ℕ × Bytes)) (d e : ℕ) (c x : Bytes)
    → is_new d c table ≡ true
    → domain_of table x ≡ some e
    → (e == d) ≡ false
unfolding domain_of
domain_of-new [] d e c x new h = cc
domain_of-new ((f, y) ∷ table) d e c x new h =
    let (here, later) = and-true (not (f == d) && not (bytes_eq y c)) (is_new d c table) new in
    let (number, _) = and-true (not (f == d)) (not (bytes_eq y c)) here in
    elim (Bool-cases (bytes_eq x y)) [
      | inl hit ↦
          let found : some f ≡ some e = rw hit at h in
          let is_it : f ≡ e = cc in subst (λ z. (z == d) ≡ false) is_it (not-true _ number)
      | inr miss ↦ domain_of-new table d e c x later (rw miss at h)
    ]

domain_of-chain_of :
    (table : List (ℕ × Bytes)) (e : ℕ) (x : Bytes)
    → is_injective table ≡ true
    → chain_of table e ≡ some x
    → domain_of table x ≡ some e
unfolding chain_of domain_of
domain_of-chain_of [] e x inj h = cc
domain_of-chain_of ((d, c) ∷ table) e x inj h =
    let (new, rest) = and-true (is_new d c table) (is_injective table) inj in
    elim (Bool-cases (e == d)) [
      | inl hit ↦
          let found : some c ≡ some x = rw hit at h in
          let is_it : c ≡ x = cc in
          rw (← is_it) (rw (bytes_eq_refl c) (ap some (sym (==→eq e d hit))))
      | inr miss ↦
          let found : chain_of table e ≡ some x = rw miss at h in
          rw (chain_of-new table d e c x new found) (domain_of-chain_of table e x rest found)
    ]

chain_of-domain_of :
    (table : List (ℕ × Bytes)) (e : ℕ) (x : Bytes)
    → is_injective table ≡ true
    → domain_of table x ≡ some e
    → chain_of table e ≡ some x
unfolding chain_of domain_of
chain_of-domain_of [] e x inj h = cc
chain_of-domain_of ((d, c) ∷ table) e x inj h =
    let (new, rest) = and-true (is_new d c table) (is_injective table) inj in
    elim (Bool-cases (bytes_eq x c)) [
      | inl hit ↦
          let found : some d ≡ some e = rw hit at h in
          let is_it : d ≡ e = cc in
          rw (← is_it) (rw (==-refl d) (ap some (sym (bytes_eq→eq x c hit))))
      | inr miss ↦
          let found : domain_of table x ≡ some e = rw miss at h in
          rw (domain_of-new table d e c x new found) (chain_of-domain_of table e x rest found)
    ]

table-is_injective : is_injective domain_and_chain ≡ true
unfolding bytes_eq
table-is_injective = refl

-- A domain has a chain exactly if that chain has the domain: the two functions are inverse to each
-- other on what is known.
pub chain_from_domain_iff :
    (domain : ℕ) (chain : Bytes)
    → (chain_from_domain domain ≡ some chain) ↔ (domain_from_chain chain ≡ some domain)
unfolding chain_from_domain domain_from_chain
chain_from_domain_iff domain chain = (
  domain_of-chain_of domain_and_chain domain chain table-is_injective,
  chain_of-domain_of domain_and_chain domain chain table-is_injective,
)
