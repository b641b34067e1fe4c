-- ===== src/Resilience/Breaker.antt =====
-- `CircuitBreaker` of src/llm_router/resilience.py. `clock()` is the argument `now`.
use production_local_llm_inf.Prelude.{
  ℕ, ◌+◌, Bool, true, false, Option, none, some, leb, ◌||◌, if◌then◌else◌,
}
use production_local_llm_inf.Prelude.Float.{Float, fmax}

pub data CircuitState : Type 0 where
  closed opened half_open : CircuitState

pub record CircuitBreaker (F : Type 0) : Type 0 where
  pub failure_threshold : ℕ
  pub cooldown_seconds : F
  pub failures : ℕ
  pub opened_at : Option F
  pub trial_in_flight : Bool
  pub half_open : Bool

module _ {F : Type 0} where
  unfoldable pub new_breaker : ℕ → F → CircuitBreaker F
  new_breaker threshold cooldown = record {
    failure_threshold = threshold;
    cooldown_seconds = cooldown;
    failures = 0;
    opened_at = none;
    trial_in_flight = false;
    half_open = false;
  }

  unfoldable pub record_success : CircuitBreaker F → CircuitBreaker F
  record_success b = record b {
    failures = 0;
    opened_at = none;
    half_open = false;
    trial_in_flight = false;
  }

  -- A failed trial, or enough failures, restart the cooldown at `now`.
  unfoldable pub record_failure : F → CircuitBreaker F → CircuitBreaker F
  record_failure now b =
      let counted : CircuitBreaker F = record b {
        failures = b.failures + 1;
        trial_in_flight = false;
      } in
      if b.trial_in_flight || leb b.failure_threshold (b.failures + 1)
      then record counted { opened_at = some now; half_open = false }
      else counted

  unfoldable pub abandon_trial : CircuitBreaker F → CircuitBreaker F
  abandon_trial b = record b { trial_in_flight = false }

  unfoldable pub probed_at : Option F → CircuitBreaker F → CircuitBreaker F
  probed_at none b = b
  probed_at (some t) b = record b { half_open = true }

  unfoldable pub probe_succeeded : CircuitBreaker F → CircuitBreaker F
  unfolding probed_at
  probe_succeeded b = probed_at b.opened_at b

module _ {F : Type 0} ⦃f : Float F⦄ where
  unfoldable pub state_of : Option F → F → CircuitBreaker F → CircuitState
  state_of none now b = CircuitState.closed
  state_of (some since) now b =
      if b.half_open || f.le b.cooldown_seconds (f.sub now since)
      then CircuitState.half_open
      else CircuitState.opened

  unfoldable pub state : F → CircuitBreaker F → CircuitState
  unfolding state_of
  state now b = state_of b.opened_at now b

  unfoldable pub wait_of : Option F → F → F → F
  wait_of none cooldown now = f.of_nat 0
  wait_of (some since) cooldown now = fmax (f.of_nat 0) (f.sub cooldown (f.sub now since))

  unfoldable pub retry_after_seconds : F → CircuitBreaker F → F
  unfolding wait_of
  retry_after_seconds now b = wait_of b.opened_at b.cooldown_seconds now

  unfoldable pub allow_in : CircuitState → CircuitBreaker F → CircuitBreaker F × Bool
  allow_in CircuitState.closed b = (b, true)
  allow_in CircuitState.opened b = (b, false)
  allow_in CircuitState.half_open b =
      if b.trial_in_flight then (b, false) else (record b { trial_in_flight = true }, true)

  -- The state after the request, and whether it is admitted.
  unfoldable pub allow : F → CircuitBreaker F → CircuitBreaker F × Bool
  unfolding state allow_in
  allow now b = allow_in (state now b) b
