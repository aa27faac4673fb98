-- ===== src/CoreClient.antt =====
-- The client of the core nodes, internal/control/core_client.go: the circuit breaker of each host,
-- the retries of a request, the URL of a call and the calls. Times are nanoseconds.
pub mod Breaker
pub mod Attempts
pub mod Calls
pub mod Urls
pub mod Samples
use midori_vpn_core.Prelude.{
  ℕ, zero, suc, ◌+◌, ◌*◌, ◌^◌, Bool, true, false, ◌&&◌, ◌||◌, not, List, [], ◌∷◌, ◌++◌, Option,
  none, some, Outcome, ok, err, and_then, ltb, leb, ◌==◌, if◌then◌else◌,
}
use midori_vpn_core.Prelude.Equality.{text_eq}
use midori_vpn_core.Prelude.Dict
use midori_vpn_core.Prelude.Dict.{Dict}
use midori_vpn_core.Net.{Text}

pub data CircuitState : Type 0 where
  cb_closed cb_open cb_half_open : CircuitState

pub record CircuitBreaker : Type 0 where
  pub state : CircuitState
  pub failures : ℕ
  pub last_failed_at : ℕ

-- The entry that getCB makes for a new host; the zero time is 0.
abbrev pub new_breaker : CircuitBreaker
new_breaker = record { state = cb_closed; failures = 0; last_failed_at = 0 }

abbrev pub cb_failure_threshold : ℕ
cb_failure_threshold = 5

abbrev pub second : ℕ
second = 10 ^ 9

abbrev pub cb_reset_timeout : ℕ
cb_reset_timeout = 30 * second

abbrev pub core_max_retries : ℕ
core_max_retries = 3

-- The cases of allow.
pub allow_in : ℕ → CircuitBreaker → CircuitState → CircuitBreaker × Bool
allow_in now cb cb_closed = (cb, true)
allow_in now cb cb_open =
    if ltb (cb.last_failed_at + cb_reset_timeout) now
    then (record cb { state = cb_half_open }, true)
    else (cb, false)
allow_in now cb cb_half_open = (cb, true)

unfoldable pub allow : ℕ → CircuitBreaker → CircuitBreaker × Bool
unfolding allow_in
allow now cb = allow_in now cb cb.state

unfoldable pub record_success : CircuitBreaker → CircuitBreaker
record_success cb = record cb { failures = 0; state = cb_closed }

unfoldable pub record_failure : ℕ → CircuitBreaker → CircuitBreaker
record_failure now cb =
    if leb cb_failure_threshold (cb.failures + 1)
    then record { state = cb_open; failures = cb.failures + 1; last_failed_at = now }
    else record cb { failures = cb.failures + 1; last_failed_at = now }

-- The locked sections of a breaker, in the order in which the calls reach them.
pub data Event : Type 0 where
  asked : ℕ → Event
  succeeded : Event
  failed : ℕ → Event

unfoldable pub step : Event → CircuitBreaker → CircuitBreaker
step (asked now) cb = (allow now cb).0
step succeeded cb = record_success cb
step (failed now) cb = record_failure now cb

-- A history has its latest event first.
unfoldable pub run : List Event → CircuitBreaker → CircuitBreaker
run [] cb = cb
run (e ∷ es) cb = step e (run es cb)

pub record Response : Type 0 where
  pub status : ℕ
  pub body : Text

-- What one turn of the loop meets: what other calls of the host do to the breaker before it asks and
-- while it waits, the clock, and the answer.
pub record Attempt : Type 0 where
  pub before : List Event
  pub asked_at : ℕ
  pub during : List Event
  pub failed_at : ℕ
  pub answer : Option Response

pub data CoreError : Type 0 where
  empty_core_host invalid_core_host missing_host invalid_port bad_port not_allowed : CoreError
  bad_request circuit_open unreachable core_status invalid_response core_error : CoreError

pub record Done : Type 0 where
  pub breaker : CircuitBreaker
  pub requests : ℕ
  pub result : Outcome CoreError Response

-- An answer that counts as none of the core: no answer, or a status of 500 and more.
unfoldable pub is_failure : Option Response → Bool
is_failure none = true
is_failure (some r) = leb 500 r.status

pub returned : ℕ → CircuitBreaker → Option Response → Done
returned n cb none = record { breaker = cb; requests = n; result = err unreachable }
returned n cb (some r) = record { breaker = record_success cb; requests = n; result = ok r }

-- One turn, where `again` is the rest of the loop.
pub attempted : Attempt → ℕ → CircuitBreaker → (CircuitBreaker → Done) → Done
attempted a n cb again =
    let asks = allow a.asked_at (run a.before cb) in
    let waited = run a.during asks.0 in
    if not asks.1
    then record { breaker = asks.0; requests = n; result = err circuit_open }
    else if is_failure a.answer
    then again (record_failure a.failed_at waited)
    else returned (suc n) waited a.answer

-- The loop, with the turns that are left and the requests that were sent.
pub retry : (ℕ → Attempt) → ℕ → ℕ → CircuitBreaker → Done
retry world zero n cb = record { breaker = cb; requests = n; result = err unreachable }
retry world (suc left) n cb = attempted (world n) n cb (λ c. retry world left (suc n) c)

-- coreDoWithRetry on the breaker of its host
unfoldable pub core_do_with_retry : (ℕ → Attempt) → CircuitBreaker → Done
unfolding retry attempted returned is_failure
core_do_with_retry world cb = retry world core_max_retries 0 cb

-- cbMap
abbrev pub Breakers : Type 0
Breakers = Dict Text CircuitBreaker

pub or_new : Option CircuitBreaker → CircuitBreaker
or_new none = new_breaker
or_new (some cb) = cb

unfoldable pub get_cb : Breakers → Text → CircuitBreaker
unfolding or_new
get_cb cbs host = or_new (Dict.get cbs host)
