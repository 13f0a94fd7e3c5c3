-- ===== src/Relayer/MatchingList.antt =====
-- rust/agents/relayer/src/settings/matching_list.rs: which messages are relayed.
pub mod Laws
use ethmexico.Base.{
  ℕ, ◌+◌, ◌-◌, ◌*◌, ◌==◌, leb, ltb, u32_max, Bool, true, false, if◌then◌else◌, ◌&&◌, Option, none,
  some, ◌>>=◌, List, [], ◌∷◌, any, length,
}
use ethmexico.Base.Bytes.{Bytes, H256, bytes_eq, codes}
use ethmexico.Types.{AbacusMessage}

pub data Filter (T : Type 0) : Type 0 where
  wildcard : Filter T
  enumerated : List T → Filter T

-- `eq` is the type's `PartialEq`.
unfoldable pub matches : {T : Type 0} → (T → T → Bool) → Filter T → T → Bool
matches eq wildcard v = true
matches eq (enumerated list) v = any (λ i. eq i v) list

pub record ListElement : Type 0 where
  pub src_domain : Filter ℕ
  pub src_address : Filter H256
  pub dst_domain : Filter ℕ
  pub dst_address : Filter H256

abbrev pub MatchingList : Type 0
MatchingList = Option (List ListElement)

pub record MatchInfo : Type 0 where
  pub src_domain : ℕ
  pub src_addr : H256
  pub dst_domain : ℕ
  pub dst_addr : H256

unfoldable pub match_info : AbacusMessage → MatchInfo
match_info msg = record {
  src_domain = msg.origin;
  src_addr = msg.sender;
  dst_domain = msg.destination;
  dst_addr = msg.recipient;
}

abbrev pub ℕ_eq : ℕ → ℕ → Bool
ℕ_eq a b = a == b

unfoldable pub matches_rule : ListElement → MatchInfo → Bool
unfolding matches
matches_rule rule info =
    matches ℕ_eq rule.src_domain info.src_domain
    && (matches bytes_eq rule.src_address info.src_addr
        && (matches ℕ_eq rule.dst_domain info.dst_domain
            && matches bytes_eq rule.dst_address info.dst_addr))

unfoldable pub matches_any_rule : List ListElement → MatchInfo → Bool
matches_any_rule rules info = any (λ rule. matches_rule rule info) rules

-- `default` is the answer where no list is given.
unfoldable pub list_matches : MatchingList → MatchInfo → Bool → Bool
list_matches none info default = default
list_matches (some rules) info default = matches_any_rule rules info

unfoldable pub msg_matches : MatchingList → AbacusMessage → Bool → Bool
unfolding match_info
msg_matches list msg default = list_matches list (match_info msg) default

-- The digits of `str::parse::<u32>`, which refuses what does not fit.
parse_digits : ℕ → Bytes → Option ℕ
parse_digits acc [] = some acc
parse_digits acc (c ∷ cs) =
    let rest = parse_digits (acc * 10 + (c - b'0')) cs in
    if leb b'0' c && (leb c b'9' && leb (acc * 10 + (c - b'0')) u32_max) then rest else none

-- `str::parse::<u32>`: at least one digit, after an optional sign.
parse_u32 : Bytes → Option ℕ
unfolding parse_digits
parse_u32 [] = none
parse_u32 (c ∷ cs) =
    if c == b'+'
    then elim cs [ [] ↦ none | d ∷ ds ↦ parse_digits 0 (d ∷ ds) ]
    else parse_digits 0 (c ∷ cs)

-- A value in a configuration: a text or a number.
pub data StrOrInt : Type 0 where
  str : Bytes → StrOrInt
  int : ℕ → StrOrInt

unfoldable pub u32_of : StrOrInt → Option ℕ
unfolding parse_u32
u32_of (str s) = parse_u32 s
u32_of (int i) = some i

unfoldable pub visit_u32 : ℕ → Option (Filter ℕ)
visit_u32 v = some (enumerated (v ∷ []))

unfoldable pub visit_u64 : ℕ → Option (Filter ℕ)
visit_u64 v = if leb v u32_max then some (enumerated (v ∷ [])) else none

unfoldable pub visit_str : Bytes → Option (Filter ℕ)
unfolding parse_u32
visit_str v =
    if bytes_eq v (codes "*") then some wildcard else do d ← parse_u32 v; some (enumerated (d ∷ []))

-- All values of a sequence, or none if one is refused.
unfoldable pub visit_all : {A B : Type 0} → (A → Option B) → List A → Option (List B)
visit_all f [] = some []
visit_all f (x ∷ xs) = do y ← f x; ys ← visit_all f xs; some (y ∷ ys)

unfoldable pub visit_seq : List StrOrInt → Option (Filter ℕ)
visit_seq seq = do values ← visit_all u32_of seq; some (enumerated values)

-- The parsers of the ethers crate for 20 and 32 bytes in hexadecimal digits, and its embedding of the
-- former.
module _ (parse_h160 : Bytes → Option Bytes) (parse_h256 : Bytes → Option H256)
    (h256_of : Bytes → H256) where
  unfoldable pub parse_addr : Bytes → Option H256
  parse_addr addr_str =
      if leb (length addr_str) 42
      then (do a ← parse_h160 addr_str; some (h256_of a))
      else parse_h256 addr_str

  unfoldable pub visit_addr_str : Bytes → Option (Filter H256)
  visit_addr_str v =
      if bytes_eq v (codes "*")
      then some wildcard
      else do a ← parse_addr v; some (enumerated (a ∷ []))

  unfoldable pub visit_addr_seq : List Bytes → Option (Filter H256)
  visit_addr_seq seq = do values ← visit_all parse_addr seq; some (enumerated values)
