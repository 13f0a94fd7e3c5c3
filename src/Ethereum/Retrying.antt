-- ===== src/Ethereum/Retrying.antt =====
-- rust/chains/abacus-ethereum/src/retrying.rs: requests that are made again, with an exponential
-- backoff. Time is the list of the sleeps.
pub mod Attempts
use ethmexico.Base.{
  ℕ, zero, suc, ◌+◌, ◌-◌, ◌*◌, ◌%◌, ◌^◌, ◌>>=◌, leb, u32_max, Bool, true, false, if◌then◌else◌,
  Option, none, some, List, [], ◌∷◌, ◌++◌, any,
}
use ethmexico.Base.Bytes.{Bytes, bytes_eq, codes}

pub record RetryingProvider : Type 0 where
  pub max_requests : ℕ
  pub base_retry_ms : ℕ

-- The setters' assertions; `none` is a panic.
unfoldable pub set_max_requests : ℕ → RetryingProvider → Option RetryingProvider
set_max_requests max_requests p =
    if leb 1 max_requests then some (record p { max_requests = max_requests }) else none

unfoldable pub set_base_retry_ms : ℕ → RetryingProvider → Option RetryingProvider
set_base_retry_ms base_retry_ms p =
    if leb 1 base_retry_ms then some (record p { base_retry_ms = base_retry_ms }) else none

unfoldable pub new_provider : ℕ → ℕ → Option RetryingProvider
unfolding set_max_requests set_base_retry_ms
new_provider max_requests base_retry_ms = do
  zelf ← set_max_requests max_requests (record { max_requests = 0; base_retry_ms = 0 })
  set_base_retry_ms base_retry_ms zelf

-- `from_str`, for an address that the inner provider accepts.
unfoldable pub provider_from_str : Option RetryingProvider
unfolding new_provider
provider_from_str = new_provider 6 50

abbrev pub methods_to_not_retry : List Bytes
methods_to_not_retry =
    codes "eth_estimateGas" ∷ (codes "eth_sendTransaction" ∷ (codes "eth_sendRawTransaction" ∷ []))

-- `E` holds what the ethers crate says of an error.
pub data HttpClientError (E : Type 0) : Type 0 where
  reqwest_error json_rpc_error serde_json : E → HttpClientError E

pub data RetryingProviderError (E : Type 0) : Type 0 where
  json_rpc_client_error max_requests_hit : HttpClientError E → RetryingProviderError E

pub data Answer (R X : Type 0) : Type 0 where
  ok : R → Answer R X
  err : X → Answer R X

-- What a request does: it sends the method with its parameters (`none` is `()`), and sleeps.
pub data Action (V : Type 0) : Type 0 where
  sent : Bytes → Option V → Action V
  slept : ℕ → Action V

-- `self.base_retry_ms * 2u64.pow(i - 1)`.
unfoldable pub backoff : ℕ → ℕ → ℕ
backoff base_retry_ms i = (base_retry_ms * (2 ^ ((i + u32_max) % 2 ^ 32) % 2 ^ 64)) % 2 ^ 64

module _ (E R V : Type 0) where
  -- A JSON-RPC error on a method that is not retried.
  unfoldable pub is_refused : Bytes → HttpClientError E → Bool
  is_refused method (reqwest_error e) = false
  is_refused method (json_rpc_error e) = any (λ m. bytes_eq m method) methods_to_not_retry
  is_refused method (serde_json e) = false

  abbrev pub Outcome : Type 0
  Outcome = List (Action V) × Answer R (RetryingProviderError E)

  abbrev pub after : List (Action V) → Option Outcome → Option Outcome
  after actions none = none
  after actions (some (log, answer)) = some (actions ++ log, answer)

  -- The loop from the attempt `i` on, with `inner` the answers to the attempts. `none` is a loop that
  -- has not ended after that many rounds.
  unfoldable pub attempts :
      ℕ
      → RetryingProvider
      → Bytes
      → Option V
      → (ℕ → Answer R (HttpClientError E))
      → ℕ
      → Option Outcome
  attempts zero p method params inner i = none
  attempts (suc rounds) p method params inner i =
      let next = (i + 1) % 2 ^ 32 in
      let later = attempts rounds p method params inner next in
      let send = sent method params in
      elim (inner i) [
        | ok res ↦ some (send ∷ [], ok res)
        | err e ↦
            if is_refused method e
            then some (send ∷ [], err (json_rpc_client_error e))
            else if leb next p.max_requests
            then after (send ∷ (slept (backoff p.base_retry_ms i) ∷ [])) later
            else some (send ∷ [], err (max_requests_hit e))
      ]

  unfoldable pub request :
      RetryingProvider → Bytes → Option V → (ℕ → Answer R (HttpClientError E)) → Option Outcome
  request p method params inner = attempts p.max_requests p method params inner 1
