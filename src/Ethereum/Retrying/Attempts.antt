-- ===== src/Ethereum/Retrying/Attempts.antt =====
-- How often rust/chains/abacus-ethereum/src/retrying.rs sends a request, and what it answers.
use native.Mathlib.Nat.{pow-suc, mul-le-mul_left, pow-le-pow_right, mod-eq_of_lt}
use ethmexico.Base.{
  ℕ, zero, suc, ◌+◌, ◌-◌, ◌*◌, ◌%◌, ◌^◌, ◌≤◌, ◌<◌, ◌≡◌, refl, sym, subst, ◌⊎◌, inl, inr, leb,
  leb→le, le→leb, leb→gt, lt→leb, u32_max, true, false, if◌then◌else◌, Bool-cases, Option, some,
  List, [], ◌∷◌, arith,
}
use ethmexico.Base.Bytes.{Bytes}
use ethmexico.Ethereum.Retrying.{
  RetryingProvider, HttpClientError, RetryingProviderError, json_rpc_client_error, max_requests_hit,
  Answer, ok, err, Action, sent, slept, backoff, is_refused, Outcome, after, attempts, request,
}

-- `k` times the same request, with a sleep between two of them that is twice as long each time.
unfoldable pub schedule : {V : Type 0} → Action V → ℕ → ℕ → List (Action V)
schedule send wait zero = []
schedule send wait (suc zero) = send ∷ []
schedule send wait (suc (suc k)) = send ∷ (slept wait ∷ schedule send (2 * wait) (suc k))

backoff-eq :
    (base s : ℕ)
    → 1 ≤ base
    → s < u32_max
    → base * 2 ^ s < 2 ^ 64
    → backoff base (suc s) ≡ base * 2 ^ s
unfolding backoff
backoff-eq base s pos small fits =
    let e : (suc s + u32_max) % 2 ^ 32 ≡ s = omega arith in
    let below : 2 ^ s < 2 ^ 64 = grind arith in rw e (rw (mod-eq_of_lt below) (mod-eq_of_lt fits))

fits_at :
    (s base max_requests : ℕ)
    → s + 2 ≤ max_requests
    → base * 2 ^ (max_requests - 2) < 2 ^ 64
    → base * 2 ^ s < 2 ^ 64
fits_at s base max_requests le fits =
    let smaller : 2 ^ s ≤ 2 ^ (max_requests - 2) = pow-le-pow_right (omega arith) (omega arith) in
    let product : base * 2 ^ s ≤ base * 2 ^ (max_requests - 2) = mul-le-mul_left base smaller in
    omega arith

doubled : (base s : ℕ) → 2 * (base * 2 ^ s) ≡ base * 2 ^ suc s
doubled base s = rw (pow-suc 2 s) (grind arith)

module _ {E R V : Type 0} (p : RetryingProvider) (method : Bytes) (params : Option V)
    (inner : ℕ → Answer R (HttpClientError E)) where
  -- An answer after which the request is made again, if it may be.
  abbrev pub IsRetried : Answer R (HttpClientError E) → Type 0
  IsRetried (ok res) = ⊥
  IsRetried (err e) = is_refused E R V method e ≡ false

  -- What is returned after the answer to the last request, the `k`-th one.
  abbrev pub Returned :
      ℕ → Answer R (HttpClientError E) → Answer R (RetryingProviderError E) → Type 0
  Returned k (ok res) result = result ≡ ok res
  Returned k (err e) result =
      ((is_refused E R V method e ≡ true) × (result ≡ err (json_rpc_client_error e)))
      ⊎ ((is_refused E R V method e ≡ false)
          × (k ≡ p.max_requests)
          × (result ≡ err (max_requests_hit e)))

  -- The run from the attempt `suc s` on makes `suc more` requests.
  pub record Run (s : ℕ) (outcome : Option (Outcome E R V)) : Type 0 where
    pub more : ℕ
    pub result : Answer R (RetryingProviderError E)
    pub in_range : suc s + more ≤ p.max_requests
    pub retried : (j : ℕ) → suc s ≤ j → j < suc s + more → IsRetried (inner j)
    pub returned : Returned (suc s + more) (inner (suc s + more)) result
    pub logged :
        outcome ≡ some (schedule (sent method params) (p.base_retry_ms * 2 ^ s) (suc more), result)

  -- A run that ends with this request.
  last_Run :
      (s : ℕ) (result : Answer R (RetryingProviderError E))
      → suc s ≤ p.max_requests
      → Returned (suc s) (inner (suc s)) result
      → Run s (some (sent method params ∷ [], result))
  unfolding schedule
  last_Run s result le ret = record {
    more = 0;
    result = result;
    in_range = omega arith;
    retried = λ j ge lt. absurd (omega arith);
    returned = subst (λ k. Returned k (inner k) result) (omega arith) ret;
    logged = refl;
  }

  refused_Run :
      (s : ℕ) (x : HttpClientError E)
      → suc s ≤ p.max_requests
      → inner (suc s) ≡ err x
      → is_refused E R V method x ≡ true
      → Run s (some (sent method params ∷ [], err (json_rpc_client_error x)))
  refused_Run s x le e refused =
      last_Run s (err (json_rpc_client_error x)) le (rw e (inl (refused, refl)))

  -- A run that goes on after this request.
  next_Run :
      (s : ℕ) (later : Option (Outcome E R V))
      → IsRetried (inner (suc s))
      → Run (suc s) later
      → Run s (after E R V (sent method params ∷ (slept (p.base_retry_ms * 2 ^ s) ∷ [])) later)
  unfolding schedule
  next_Run s later again run = record {
    more = suc run.more;
    result = run.result;
    in_range = omega (arith, run.in_range);
    retried = λ j ge lt. elim (Bool-cases (leb j (suc s))) [
      | inl y ↦ subst (λ k. IsRetried (inner k)) (omega (arith, leb→le j (suc s) y)) again
      | inr n ↦ run.retried j (leb→gt j (suc s) n) (omega arith)
    ];
    returned = subst (λ k. Returned k (inner k) run.result) (omega arith) run.returned;
    logged = rw run.logged (rw (doubled p.base_retry_ms s) refl);
  }

  -- What one round of the loop comes to.
  round_ok :
      (rounds i : ℕ) (res : R)
      → inner i ≡ ok res
      → attempts E R V (suc rounds) p method params inner i ≡ some (sent method params ∷ [], ok res)
  unfolding attempts
  round_ok rounds i res e = rw (e, attempts) refl

  round_err :
      (rounds i : ℕ) (x : HttpClientError E)
      → inner i ≡ err x
      → attempts E R V (suc rounds) p method params inner i ≡ (
          if is_refused E R V method x
          then some (sent method params ∷ [], err (json_rpc_client_error x))
          else if leb ((i + 1) % 2 ^ 32) p.max_requests
          then after E R V
              (sent method params ∷ (slept (backoff p.base_retry_ms i) ∷ []))
              (attempts E R V rounds p method params inner ((i + 1) % 2 ^ 32))
          else some (sent method params ∷ [], err (max_requests_hit x)))
  unfolding attempts
  round_err rounds i x e = rw (e, attempts) refl

  attempts-Run :
      (rounds s : ℕ) (a : Answer R (HttpClientError E))
      → suc s + rounds ≡ p.max_requests
      → p.max_requests < u32_max
      → 1 ≤ p.base_retry_ms
      → p.base_retry_ms * 2 ^ (p.max_requests - 2) < 2 ^ 64
      → inner (suc s) ≡ a
      → Run s (attempts E R V (suc rounds) p method params inner (suc s))
  attempts-Run rounds s (ok res) at small pos fits e =
      rw (round_ok rounds (suc s) res e) (last_Run s (ok res) (omega arith) (rw e refl))
  attempts-Run zero s (err x) at small pos fits e = elim (Bool-cases (is_refused E R V method x)) [
    | inl refused ↦
        rw (round_err zero (suc s) x e) (rw refused (refused_Run s x (omega arith) e refused))
    | inr retried ↦ rw (round_err zero (suc s) x e) (
        rw retried (
          rw (lt→leb ((suc s + 1) % 2 ^ 32) p.max_requests (omega arith)) (
            last_Run s (err (max_requests_hit x)) (omega arith)
              (rw e (inr (retried, omega arith, refl))))))
  ]
  attempts-Run (suc rounds) s (err x) at small pos fits e =
      elim (Bool-cases (is_refused E R V method x)) [
        | inl refused ↦
            rw (round_err (suc rounds) (suc s) x e)
              (rw refused (refused_Run s x (omega arith) e refused))
        | inr retried ↦
            let next : (suc s + 1) % 2 ^ 32 ≡ suc (suc s) = omega arith in
            rw (round_err (suc rounds) (suc s) x e) (
              rw retried (
                rw next (
                  rw (le→leb (suc (suc s)) p.max_requests (omega arith)) (
                    rw
                      (backoff-eq p.base_retry_ms s pos (omega arith)
                        (fits_at s p.base_retry_ms p.max_requests (omega arith) fits))
                      (next_Run s _ (rw e retried) (
                        attempts-Run rounds (suc s) (inner (suc (suc s))) (omega arith) small pos
                          fits refl))))))
      ]

  -- A request of a provider that makes from 1 to `u32::MAX - 1` requests, and whose last sleep, the
  -- base doubled two times fewer than there are requests, does not overflow a u64, ends. It is sent `suc more` times, at most as often as the provider allows, with
  -- sleeps between that begin with the base and double. All answers but the last are errors that are
  -- not refused. The last one is the answer given back: a result; a JSON-RPC error on a method that is
  -- not retried, with that error; or another error where no request is left, with that error.
  pub request-Run :
      1 ≤ p.max_requests
      → p.max_requests < u32_max
      → 1 ≤ p.base_retry_ms
      → p.base_retry_ms * 2 ^ (p.max_requests - 2) < 2 ^ 64
      → Run 0 (request E R V p method params inner)
  unfolding request
  request-Run some_request small pos fits =
      let e : p.max_requests ≡ suc (p.max_requests - 1) = omega arith in
      subst (λ n. Run 0 (attempts E R V n p method params inner 1)) (sym e)
        (attempts-Run (p.max_requests - 1) 0 (inner 1) (omega arith) small pos fits refl)
