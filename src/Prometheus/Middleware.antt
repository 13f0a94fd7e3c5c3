-- ===== src/Prometheus/Middleware.antt =====
-- rust/ethers-prometheus/src/lib.rs: the middleware that passes requests on to another one and counts
-- them. What is reported is the list of the changes of metrics, in order.
-- Times are given.
use ethmexico.Base.{
  ℕ, zero, suc, ◌+◌, ◌-◌, ◌/◌, ◌%◌, ltb, ◌==◌, Bool, if◌then◌else◌, Option, none, some, List, [],
  ◌∷◌, ◌++◌,
}
use ethmexico.Base.Bytes.{Bytes, bytes_eq, codes}
use ethmexico.Base.Maps.{lookup}
use ethmexico.Prometheus.{ContractInfo, ChainInfo, PrometheusMiddlewareConf}

-- Which of the metrics there are.
pub record ProviderMetrics : Type 0 where
  pub block_height : Bool
  pub gas_price_gwei : Bool
  pub contract_call_duration_seconds : Bool
  pub contract_call_count : Bool
  pub transaction_send_duration_seconds : Bool
  pub transaction_send_total : Bool
  pub wallet_balance : Bool

pub data NameOrAddress : Type 0 where
  name : Bytes → NameOrAddress
  address : ℕ → NameOrAddress

pub record Transaction : Type 0 where
  pub from : Option ℕ
  pub to : Option NameOrAddress
  pub data_bytes : Option Bytes

pub data Status : Type 0 where
  dispatched completed failed : Status

pub record CallLabels : Type 0 where
  pub chain : Bytes
  pub contract_name : Bytes
  pub contract_address : Bytes
  pub function_name : Bytes
  pub function_selector : Bytes

pub record WalletLabels : Type 0 where
  pub chain : Bytes
  pub wallet_address : Bytes
  pub wallet_name : Bytes
  pub token_address : Bytes
  pub token_symbol : Bytes
  pub token_name : Bytes

-- The labels `chain`, `address_from` and `address_to`.
pub record SendLabels : Type 0 where
  pub chain : Bytes
  pub address_from : Bytes
  pub address_to : Bytes

-- A change of a metric, with `F` the numbers of a gauge or a duration.
pub data Report (F : Type 0) : Type 0 where
  send_total : SendLabels → Status → Report F
  send_duration : SendLabels → F → Report F
  call_count : CallLabels → Report F
  call_duration : CallLabels → F → Report F
  height : Bytes → ℕ → Report F
  gas_price : Bytes → F → Report F
  balance : WalletLabels → F → Report F

abbrev hex_digit : ℕ → ℕ
hex_digit d = if ltb d 10 then b'0' + d else b'a' + (d - 10)

-- The last `n` hexadecimal digits.
unfoldable hex_digits : ℕ → ℕ → Bytes → Bytes
hex_digits zero value out = out
hex_digits (suc n) value out = hex_digits n (value / 16) (hex_digit (value % 16) ∷ out)

-- `encode_hex` of an address.
unfoldable pub encode_hex : ℕ → Bytes
unfolding hex_digits
encode_hex addr = hex_digits 40 addr []

unfoldable pub selector_text : Bytes → Bytes
unfolding hex_digits
selector_text [] = []
selector_text (b ∷ bs) = hex_digits 2 b [] ++ selector_text bs

abbrev pub text_or : Bytes → Option Bytes → Bytes
text_or default none = default
text_or default (some text) = text

unfoldable pub chain_name : Option ChainInfo → Bytes
chain_name none = codes "unknown"
chain_name (some c) = text_or (codes "unknown") c.name

abbrev pub from_text : Option ℕ → Bytes
from_text none = codes "none"
from_text (some addr) = encode_hex addr

abbrev pub to_text : Option NameOrAddress → Bytes
to_text none = codes "none"
to_text (some (name n)) = n
to_text (some (address a)) = encode_hex a

abbrev pub when : {A : Type 0} → Bool → List A → List A
when b reports = if b then reports else []

-- What the inner middleware answers: a result or an error.
pub data Answer (A E : Type 0) : Type 0 where
  ok : A → Answer A E
  err : E → Answer A E

-- The wrapper around the errors of the inner middleware.
pub data PrometheusMiddlewareError (E : Type 0) : Type 0 where
  prometheus_middleware_error : E → PrometheusMiddlewareError E

-- `Ok(result?)`, which converts the error.
abbrev pub converted : {A E : Type 0} → Answer A E → Answer A (PrometheusMiddlewareError E)
converted (ok a) = ok a
converted (err e) = err (prometheus_middleware_error e)

abbrev pub status_of : {A E : Type 0} → Answer A E → Status
status_of (ok a) = completed
status_of (err e) = failed

abbrev pub send_labels : PrometheusMiddlewareConf → Transaction → SendLabels
send_labels conf tx = record {
  chain = chain_name conf.chain;
  address_from = from_text tx.from;
  address_to = to_text tx.to;
}

-- A transaction that the inner middleware answers with `result` after `duration` seconds.
unfoldable pub send_transaction :
    {A E F : Type 0}
    → ProviderMetrics
    → PrometheusMiddlewareConf
    → Transaction
    → Answer A E
    → F
    → List (Report F) × Answer A (PrometheusMiddlewareError E)
send_transaction m conf tx result duration = (
  when m.transaction_send_total (send_total (send_labels conf tx) dispatched ∷ [])
      ++ when m.transaction_send_duration_seconds
          (send_duration (send_labels conf tx) duration ∷ [])
      ++ when m.transaction_send_total (send_total (send_labels conf tx) (status_of result) ∷ []),
  converted result,
)

-- A contract that is called: its address, its name and its functions.
abbrev pub known_contract : ℕ → Option ContractInfo → Bytes × Bytes × List (Bytes × Bytes)
known_contract a none = ([], codes "unknown", [])
known_contract a (some c) = (encode_hex a, text_or (codes "unknown") c.name, c.functions)

unfoldable pub contract_of :
    PrometheusMiddlewareConf → Option NameOrAddress → Bytes × Bytes × List (Bytes × Bytes)
contract_of conf none = ([], codes "unknown", [])
contract_of conf (some (name n)) = (n, n, [])
contract_of conf (some (address a)) = known_contract a (lookup ◌==◌ a conf.contracts)

-- The first four bytes, where there are so many.
unfoldable pub selector_of : Option Bytes → Option Bytes
selector_of none = none
selector_of (some []) = none
selector_of (some (a ∷ [])) = none
selector_of (some (a ∷ (b ∷ []))) = none
selector_of (some (a ∷ (b ∷ (c ∷ [])))) = none
selector_of (some (a ∷ (b ∷ (c ∷ (d ∷ rest))))) = some (a ∷ (b ∷ (c ∷ (d ∷ []))))

abbrev pub function_of : List (Bytes × Bytes) → Option Bytes → Bytes
function_of functions none = codes "unknown"
function_of functions (some s) = text_or (codes "unknown") (lookup bytes_eq s functions)

abbrev pub selector_or_unknown : Option Bytes → Bytes
selector_or_unknown none = codes "unknown"
selector_or_unknown (some s) = selector_text s

unfoldable pub call_labels : PrometheusMiddlewareConf → Transaction → CallLabels
call_labels conf tx =
    let (contract_addr, contract_name, contract_fns) = contract_of conf tx.to in
    let fn_selector = selector_of tx.data_bytes in
    record {
      chain = chain_name conf.chain;
      contract_name = contract_name;
      contract_address = contract_addr;
      function_name = function_of contract_fns fn_selector;
      function_selector = selector_or_unknown fn_selector;
    }

unfoldable pub call :
    {A E F : Type 0}
    → ProviderMetrics
    → PrometheusMiddlewareConf
    → Transaction
    → Answer A E
    → F
    → List (Report F) × Answer A (PrometheusMiddlewareError E)
call m conf tx result duration = (
  when m.contract_call_count (call_count (call_labels conf tx) ∷ [])
      ++ when m.contract_call_duration_seconds (call_duration (call_labels conf tx) duration ∷ []),
  converted result,
)
