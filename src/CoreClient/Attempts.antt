-- ===== src/CoreClient/Attempts.antt =====
-- The retries of coreDoWithRetry of internal/control/core_client.go: which answer a call returns, and
-- how the calls of a core that does not answer open its breaker.
use midori_vpn_core.Prelude.{
  ℕ, zero, suc, ◌+◌, ◌<◌, ◌≡◌, refl, subst, true, false, Option, none, some, Outcome, ok, err, leb,
  arith, Bool-cases, inl, inr,
}
use midori_vpn_core.CoreClient.{
  CircuitBreaker, allow, run, Response, Attempt, CoreError, circuit_open, unreachable, Done,
  is_failure, returned, attempted, retry, core_do_with_retry,
}

-- The first answers all fail.
pub Fail : (ℕ → Attempt) → ℕ → Type 0
Fail world n = (i : ℕ) → i < n → is_failure (world i).answer ≡ true

-- How a call ends, by the requests that it sent and its result: with the first answer that is none
-- of 500 and more, with a breaker that refuses, or after three failures.
pub data Tried (world : ℕ → Attempt) : ℕ → Outcome CoreError Response → Type 0 where
  answered :
      (n : ℕ) (r : Response)
      → n < 3
      → Fail world n
      → (world n).answer ≡ some r
      → r.status < 500
      → Tried world (suc n) (ok r)
  refused : (n : ℕ) → n < 3 → Fail world n → Tried world n (err circuit_open)
  exhausted : Fail world 3 → Tried world 3 (err unreachable)

pub IsTried : (ℕ → Attempt) → Done → Type 0
IsTried world d = Tried world d.requests d.result

one_more :
    (world : ℕ → Attempt) (n : ℕ)
    → Fail world n
    → is_failure (world n).answer ≡ true
    → Fail world (suc n)
unfolding Fail
one_more world n f e i h = elim (Bool-cases (leb n i)) [
  | inl b ↦ subst (λ j. is_failure (world j).answer ≡ true) {x = n} {y = i} (ground arith) e
  | inr b ↦ f i (ground arith)
]

returned-IsTried :
    (world : ℕ → Attempt) (n : ℕ) (cb : CircuitBreaker)
    → n < 3
    → Fail world n
    → is_failure (world n).answer ≡ false
    → IsTried world (returned (suc n) cb (world n).answer)
unfolding IsTried returned is_failure
returned-IsTried world n cb h f e = go (world n).answer refl e
  where
    go :
        (o : Option Response)
        → (world n).answer ≡ o
        → is_failure o ≡ false
        → IsTried world (returned (suc n) cb o)
    go none a b = absurd cc
    go (some r) a b = answered n r h f a (ground arith)

attempted-IsTried :
    (world : ℕ → Attempt) (n : ℕ) (cb : CircuitBreaker) (again : CircuitBreaker → Done)
    → n < 3
    → Fail world n
    → ((c : CircuitBreaker) → Fail world (suc n) → IsTried world (again c))
    → IsTried world (attempted (world n) n cb again)
unfolding attempted
attempted-IsTried world n cb again h f rest =
    let asks = allow (world n).asked_at (run (world n).before cb) in
    elim (Bool-cases asks.1) [
      | inr b ↦ rw b (unfold IsTried in refused n h f)
      | inl b ↦ elim (Bool-cases (is_failure (world n).answer)) [
        | inl e ↦ rw (b, e) (rest _ (one_more world n f e))
        | inr e ↦ rw (b, e) (returned-IsTried world n _ h f e)
      ]
    ]

retry-IsTried :
    (world : ℕ → Attempt) (left n : ℕ) (cb : CircuitBreaker)
    → left + n ≡ 3
    → Fail world n
    → IsTried world (retry world left n cb)
unfolding retry IsTried
retry-IsTried world zero n cb h f =
    subst (λ k. Fail world k → Tried world k (err unreachable)) {x = 3} (omega arith) exhausted f
retry-IsTried world (suc left) n cb h f =
    attempted-IsTried world n cb (λ c. retry world left (suc n) c) (omega arith) f
      (λ c g. retry-IsTried world left (suc n) c (omega arith) g)

-- Whatever the core answers, what the other calls of its host do and what the clock reads, a call
-- sends at most three requests: it returns the first answer with a status below 500, or ends with an
-- error after three failures, or when the breaker refuses, each answer before having failed.
pub core_do_with_retry-IsTried :
    (world : ℕ → Attempt) (cb : CircuitBreaker) → IsTried world (core_do_with_retry world cb)
unfolding core_do_with_retry Fail
core_do_with_retry-IsTried world cb = retry-IsTried world 3 0 cb refl (λ i h. absurd (omega arith))
