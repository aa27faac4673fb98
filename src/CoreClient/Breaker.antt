-- ===== src/CoreClient/Breaker.antt =====
-- The circuit breaker of internal/control/core_client.go against the history of its host.
use midori_vpn_core.Prelude.{
  ℕ, suc, ◌+◌, ◌≡◌, refl, ap, ◌∙◌, Bool, false, ◌||◌, List, [], ◌∷◌, ltb, if◌then◌else◌, arith,
}
use midori_vpn_core.CoreClient.{
  CircuitState, cb_closed, cb_open, cb_half_open, CircuitBreaker, new_breaker, cb_reset_timeout,
  allow_in, allow, record_success, record_failure, Event, asked, succeeded, failed, step, run,
}

-- The failures since the last success.
unfoldable pub failures_in_row : List Event → ℕ
failures_in_row [] = 0
failures_in_row (asked t ∷ es) = failures_in_row es
failures_in_row (succeeded ∷ es) = 0
failures_in_row (failed t ∷ es) = suc (failures_in_row es)

unfoldable pub last_failure : List Event → ℕ
last_failure [] = 0
last_failure (asked t ∷ es) = last_failure es
last_failure (succeeded ∷ es) = last_failure es
last_failure (failed t ∷ es) = t

-- A call asked more than 30 seconds after the last failure, and nothing was answered since.
unfoldable pub is_probed : List Event → Bool
is_probed [] = false
is_probed (asked t ∷ es) = is_probed es || ltb (last_failure es + cb_reset_timeout) t
is_probed (succeeded ∷ es) = false
is_probed (failed t ∷ es) = false

-- Whether a call that asks at a time may go to the host.
unfoldable pub may_call : ℕ → List Event → Bool
may_call now es =
    ltb (failures_in_row es) 5 || (is_probed es || ltb (last_failure es + cb_reset_timeout) now)

state_of : List Event → CircuitState
state_of es =
    if ltb (failures_in_row es) 5 then cb_closed else if is_probed es then cb_half_open else cb_open

breaker_of : List Event → CircuitBreaker
breaker_of es = record {
  state = state_of es;
  failures = failures_in_row es;
  last_failed_at = last_failure es;
}

asked_of : (t : ℕ) (es : List Event) → (allow t (breaker_of es)).0 ≡ breaker_of (asked t ∷ es)
unfolding breaker_of state_of allow allow_in failures_in_row last_failure is_probed
asked_of t es = ground arith

failed_of :
    (t : ℕ) (es : List Event) → record_failure t (breaker_of es) ≡ breaker_of (failed t ∷ es)
unfolding breaker_of state_of record_failure failures_in_row last_failure is_probed
failed_of t es = ground arith

succeeded_of : (es : List Event) → record_success (breaker_of es) ≡ breaker_of (succeeded ∷ es)
unfolding breaker_of state_of record_success failures_in_row last_failure is_probed
succeeded_of es = refl

step-breaker_of : (e : Event) (es : List Event) → step e (breaker_of es) ≡ breaker_of (e ∷ es)
unfolding step
step-breaker_of (asked t) es = asked_of t es
step-breaker_of succeeded es = succeeded_of es
step-breaker_of (failed t) es = failed_of t es

run-breaker_of : (es : List Event) → run es new_breaker ≡ breaker_of es
unfolding run
run-breaker_of [] = unfold breaker_of state_of failures_in_row last_failure is_probed in refl
run-breaker_of (e ∷ es) = ap (step e) (run-breaker_of es) ∙ step-breaker_of e es

allow_of : (now : ℕ) (es : List Event) → (allow now (breaker_of es)).1 ≡ may_call now es
unfolding breaker_of state_of allow allow_in may_call
allow_of now es = ground arith

-- After any history of the calls of a host, the breaker lets a call through exactly when fewer than
-- five failures came since the last success, or the last failure is more than 30 seconds old, or a
-- call was let through for that reason since the last failure.
pub allow-may_call :
    (es : List Event) (now : ℕ) → (allow now (run es new_breaker)).1 ≡ may_call now es
allow-may_call es now = ap (λ cb. (allow now cb).1) (run-breaker_of es) ∙ allow_of now es
