-- ===== src/Tests/Chains.antt =====
-- Requests that are made again, and the events of an outbox.
use mathlib.Core.List.Perm
use ethmexico.Base.{ℕ, ◌≡◌, refl, some, List, [], ◌∷◌, ltb, if◌then◌else◌, arith, map, drop}
use ethmexico.Base.Bytes.{codes}
use ethmexico.Types.{RawCommittedMessage}
use ethmexico.ContractSync.{valid, valid_continuation, filter_indexed}
use ethmexico.Ethereum.{Reply}
use ethmexico.Ethereum
use ethmexico.Ethereum.Retrying.{
  RetryingProvider, HttpClientError, reqwest_error, Answer, ok, err, request,
}
use ethmexico.Ethereum.Retrying.Attempts.{Run, request-Run}
use ethmexico.Ethereum.Indexer.{DispatchEvent, fetch_sorted_messages}
use ethmexico.Ethereum.Indexer.Sorted.{raw, fetch_sorted_messages-valid}

abbrev provider : RetryingProvider
provider = record { max_requests = 6; base_retry_ms = 50 }

-- Two failures, then a result.
abbrev flaky : ℕ → Answer ℕ (HttpClientError ℕ)
flaky i = if ltb i 3 then err (reqwest_error i) else ok 7

request-Run_example :
    Run provider
      (codes "eth_call")
      (some 1)
      flaky
      0
      (request ℕ ℕ ℕ provider (codes "eth_call") (some 1) flaky)
request-Run_example =
    request-Run provider (codes "eth_call") (some 1) flaky (omega arith) (omega arith) (omega arith)
      (omega arith)

abbrev event : ℕ → DispatchEvent
event i = record { leaf_index = i; message = codes "message" }

abbrev in_order : List DispatchEvent
in_order = event 4 ∷ (event 5 ∷ (event 6 ∷ []))

abbrev shuffled : List DispatchEvent
shuffled = event 5 ∷ (event 4 ∷ (event 6 ∷ []))

fetch_sorted_messages-valid_example :
    (ms : List RawCommittedMessage) × (fetch_sorted_messages (some shuffled) ≡ Ethereum.ok ms)
    × (filter_indexed (some 4) ms ≡ map raw (drop 1 in_order))
    × (valid_continuation (some 4) (filter_indexed (some 4) ms) ≡ valid)
fetch_sorted_messages-valid_example =
    fetch_sorted_messages-valid 4 4 in_order shuffled (refl, (refl, (refl, tt)))
      (Perm.swap (event 4) (event 5) (event 6 ∷ [])) (omega arith) (omega arith) (omega arith)
