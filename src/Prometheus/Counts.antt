-- ===== src/Prometheus/Counts.antt =====
-- What the counters of rust/ethers-prometheus/src/lib.rs say of the transactions that were sent.
use ethmexico.Base.{
  ℕ, ◌+◌, ◌≡◌, refl, ap, ◌∙◌, Bool, true, false, not, if◌then◌else◌, List, [], ◌∷◌, ◌++◌, map,
  arith,
}
use ethmexico.Prometheus.{PrometheusMiddlewareConf}
use ethmexico.Prometheus.Middleware.{
  ProviderMetrics, Transaction, Status, dispatched, completed, failed, SendLabels, Report,
  send_total, send_duration, call_count, call_duration, height, gas_price, balance, when, Answer,
  ok, err, PrometheusMiddlewareError, converted, status_of, send_labels, send_transaction,
}

abbrev pub same_status : Status → Status → Bool
same_status dispatched dispatched = true
same_status completed completed = true
same_status failed failed = true
same_status dispatched completed = false
same_status dispatched failed = false
same_status completed dispatched = false
same_status completed failed = false
same_status failed dispatched = false
same_status failed completed = false

-- What a report adds to the counter of the transactions with a status, over the labels that `p`
-- accepts.
abbrev pub counted : {F : Type 0} → (SendLabels → Bool) → Status → Report F → ℕ
counted p s (send_total labels status) =
    if same_status s status then if p labels then 1 else 0 else 0
counted p s (send_duration labels duration) = 0
counted p s (call_count labels) = 0
counted p s (call_duration labels duration) = 0
counted p s (height chain number) = 0
counted p s (gas_price chain gas) = 0
counted p s (balance labels value) = 0

unfoldable pub counter : {F : Type 0} → (SendLabels → Bool) → Status → List (Report F) → ℕ
counter p s [] = 0
counter p s (r ∷ reports) = counted p s r + counter p s reports

counter-append :
    {F : Type 0} (p : SendLabels → Bool) (s : Status) (a b : List (Report F))
    → counter p s (a ++ b) ≡ counter p s a + counter p s b
unfolding counter
counter-append p s [] b = omega arith
counter-append p s (r ∷ a) b = omega (arith, counter-append p s a b)

module _ (A E F : Type 0) where
  -- A transaction that is sent, with the configuration at that time, the answer of the inner
  -- middleware and the time that it takes.
  pub record Sent : Type 0 where
    pub conf : PrometheusMiddlewareConf
    pub tx : Transaction
    pub answer : Answer A E
    pub duration : F

  abbrev pub after_one :
      List (Report F) × Answer A (PrometheusMiddlewareError E)
      → List (Report F) × List (Answer A (PrometheusMiddlewareError E))
      → List (Report F) × List (Answer A (PrometheusMiddlewareError E))
  after_one (reports, answer) (more, answers) = (reports ++ more, answer ∷ answers)

  -- Transactions that are sent one after the other.
  unfoldable pub send_all :
      ProviderMetrics → List Sent → List (Report F) × List (Answer A (PrometheusMiddlewareError E))
  send_all m [] = ([], [])
  send_all m (s ∷ sents) =
      after_one (send_transaction m s.conf s.tx s.answer s.duration) (send_all m sents)

  abbrev pub is_ok : Answer A E → Bool
  is_ok (ok a) = true
  is_ok (err e) = false

  -- The transactions with labels that `p` accepts and an answer that `q` accepts.
  unfoldable pub number : (SendLabels → Bool) → (Answer A E → Bool) → List Sent → ℕ
  number p q [] = 0
  number p q (s ∷ sents) =
      (if p (send_labels s.conf s.tx) then if q s.answer then 1 else 0 else 0) + number p q sents

  -- The answers that a transaction with a status has.
  abbrev pub answered : Status → Answer A E → Bool
  answered dispatched answer = true
  answered completed answer = is_ok answer
  answered failed answer = not (is_ok answer)

  one-counter :
      (m : ProviderMetrics) (s : Sent) (p : SendLabels → Bool) (status : Status)
      → counter p status (send_transaction m s.conf s.tx s.answer s.duration).0
        ≡ (if m.transaction_send_total then number p (answered status) (s ∷ []) else 0)
  unfolding counter number send_transaction
  one-counter m s p status =
      go m.transaction_send_total m.transaction_send_duration_seconds (send_labels s.conf s.tx)
        s.answer status
    where
      go :
          (total durations : Bool) (labels : SendLabels) (answer : Answer A E) (status : Status)
          → counter p status (
              when total (send_total labels dispatched ∷ [])
              ++ when durations (send_duration labels s.duration ∷ [])
              ++ when total (send_total labels (status_of answer) ∷ []))
            ≡ (if total
                then (if p labels then if answered status answer then 1 else 0 else 0) + 0
                else 0)
      go true true labels (ok a) dispatched = omega arith
      go true true labels (ok a) completed = omega arith
      go true true labels (ok a) failed = ground arith
      go true true labels (err e) dispatched = omega arith
      go true true labels (err e) completed = ground arith
      go true true labels (err e) failed = omega arith
      go true false labels (ok a) dispatched = omega arith
      go true false labels (ok a) completed = omega arith
      go true false labels (ok a) failed = ground arith
      go true false labels (err e) dispatched = omega arith
      go true false labels (err e) completed = ground arith
      go true false labels (err e) failed = omega arith
      go false true labels answer status = refl
      go false false labels answer status = refl

  number-cons :
      (p : SendLabels → Bool) (q : Answer A E → Bool) (s : Sent) (sents : List Sent)
      → number p q (s ∷ sents) ≡ number p q (s ∷ []) + number p q sents
  unfolding number
  number-cons p q s sents = omega arith

  none_sent :
      (b : Bool) (p : SendLabels → Bool) (status : Status)
      → counter {F = F} p status [] ≡ (if b then number p (answered status) [] else 0)
  unfolding counter number
  none_sent true p status = refl
  none_sent false p status = refl

  both_parts :
      (b : Bool) (x y : ℕ) → (if b then x else 0) + (if b then y else 0) ≡ (if b then x + y else 0)
  both_parts true x y = refl
  both_parts false x y = refl

  counted_by_status :
      (m : ProviderMetrics) (sents : List Sent) (p : SendLabels → Bool) (status : Status)
      → counter p status (send_all m sents).0
        ≡ (if m.transaction_send_total then number p (answered status) sents else 0)
  unfolding send_all
  counted_by_status m [] p status = none_sent m.transaction_send_total p status
  counted_by_status m (s ∷ sents) p status =
      let here = one-counter m s p status in
      let rest = counted_by_status m sents p status in
      let split = number-cons p (answered status) s sents in
      counter-append p status (send_transaction m s.conf s.tx s.answer s.duration).0
        (send_all m sents).0
      ∙ rw (here, rest, split) (both_parts m.transaction_send_total _ _)

  answers-send_all :
      (m : ProviderMetrics) (sents : List Sent)
      → (send_all m sents).1 ≡ map (λ (s : Sent). converted s.answer) sents
  unfolding send_all send_transaction
  answers-send_all m [] = refl
  answers-send_all m (s ∷ sents) = ap (converted s.answer ∷◌) (answers-send_all m sents)

  -- Over any transactions that are sent one after the other, where there is the counter of sent
  -- transactions, for labels of any kind: it counts each transaction with such labels as dispatched,
  -- exactly those that the inner middleware answers with a result as completed, and exactly those that
  -- it answers with an error as failed. Without that counter nothing is counted. Each transaction is
  -- answered as the inner middleware answers it, with its errors wrapped.
  pub counter-send_all :
      (m : ProviderMetrics) (sents : List Sent) (p : SendLabels → Bool)
      → (counter p dispatched (send_all m sents).0
          ≡ (if m.transaction_send_total then number p (λ answer. true) sents else 0))
        × (counter p completed (send_all m sents).0
            ≡ (if m.transaction_send_total then number p is_ok sents else 0))
        × (counter p failed (send_all m sents).0 ≡ (
            if m.transaction_send_total then number p (λ answer. not (is_ok answer)) sents else 0))
        × ((send_all m sents).1 ≡ map (λ (s : Sent). converted s.answer) sents)
  counter-send_all m sents p = (
    counted_by_status m sents p dispatched,
    counted_by_status m sents p completed,
    counted_by_status m sents p failed,
    answers-send_all m sents,
  )
