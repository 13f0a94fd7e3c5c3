-- ===== src/Tests/Metered.antt =====
-- A witness for the counters of the middleware.
use ethmexico.Base.{ℕ, ◌≡◌, refl, Bool, true, none, some, List, [], ◌∷◌}
use ethmexico.Prometheus.{PrometheusMiddlewareConf}
use ethmexico.Prometheus.Middleware.{
  ProviderMetrics, Transaction, address, dispatched, completed, failed, SendLabels, Answer, ok, err,
  prometheus_middleware_error,
}
use ethmexico.Prometheus.Counts.{counter, Sent, send_all, number, counter-send_all}

abbrev all_metrics : ProviderMetrics
all_metrics = record {
  block_height = true;
  gas_price_gwei = true;
  contract_call_duration_seconds = true;
  contract_call_count = true;
  transaction_send_duration_seconds = true;
  transaction_send_total = true;
  wallet_balance = true;
}

abbrev no_conf : PrometheusMiddlewareConf
no_conf = record { tokens = []; wallets = []; contracts = []; chain = none }

abbrev tx : Transaction
tx = record { from = some 17; to = some (address 18); data_bytes = none }

abbrev sent_with : Answer ℕ ℕ → Sent ℕ ℕ ℕ
sent_with answer = record { conf = no_conf; tx = tx; answer = answer; duration = 3 }

abbrev sents : List (Sent ℕ ℕ ℕ)
sents = sent_with (ok 1) ∷ (sent_with (err 2) ∷ (sent_with (err 5) ∷ []))

abbrev any_labels : SendLabels → Bool
any_labels labels = true

three_dispatched : counter any_labels dispatched (send_all ℕ ℕ ℕ all_metrics sents).0 ≡ 3
unfolding counter send_all ethmexico.Prometheus.Middleware.send_transaction
three_dispatched = refl

counter-send_all_example :
    (counter any_labels dispatched (send_all ℕ ℕ ℕ all_metrics sents).0 ≡ 3)
    × (counter any_labels completed (send_all ℕ ℕ ℕ all_metrics sents).0 ≡ 1)
    × (counter any_labels failed (send_all ℕ ℕ ℕ all_metrics sents).0 ≡ 2)
    × ((send_all ℕ ℕ ℕ all_metrics sents).1
        ≡ ok 1 ∷ (err (prometheus_middleware_error 2) ∷ (err (prometheus_middleware_error 5) ∷ [])))
unfolding number
counter-send_all_example = counter-send_all ℕ ℕ ℕ all_metrics sents any_labels
