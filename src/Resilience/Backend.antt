-- ===== src/Resilience/Backend.antt =====
-- `ResilientBackend` of src/llm_router/resilience.py. The engine behind it is known by how a call
-- ends, at the time `after`.
use production_local_llm_inf.Prelude.{Bool, true, false, List, [], String, if◌then◌else◌}
use production_local_llm_inf.Prelude.Float.{Float}
use production_local_llm_inf.Resilience.Breaker.{
  CircuitBreaker, CircuitState, record_success, record_failure, abandon_trial, probe_succeeded,
  state, retry_after_seconds, allow,
}

abbrev pub is_open : CircuitState → Bool
is_open CircuitState.opened = true
is_open _ = false

-- How the wrapped engine ends a call: with a result, unavailable, or by any other exception.
pub data Outcome (A : Type 0) : Type 0 where
  returned : A → Outcome A
  unavailable : Outcome A
  interrupted : Outcome A

-- What the caller sees: the engine's outcome, or the circuit's refusal with its waiting time.
pub data Answer (F : Type 0) (A : Type 0) : Type 0 where
  from_engine : Outcome A → Answer F A
  circuit_open : F → Answer F A

module _ {F : Type 0} where
  unfoldable pub report : {A : Type 0} → F → Outcome A → CircuitBreaker F → CircuitBreaker F
  unfolding record_success record_failure abandon_trial
  report after (returned a) b = record_success b
  report after unavailable b = record_failure after b
  report after interrupted b = abandon_trial b

module _ {F : Type 0} ⦃f : Float F⦄ where
  unfoldable pub when_admitted :
      {A : Type 0} → F → F → Outcome A → CircuitBreaker F × Bool → CircuitBreaker F × Answer F A
  unfolding report retry_after_seconds
  when_admitted now after outcome (b, true) = (report after outcome b, from_engine outcome)
  when_admitted now after outcome (b, false) = (b, circuit_open (retry_after_seconds now b))

  unfoldable pub generate :
      {A : Type 0} → F → F → Outcome A → CircuitBreaker F → CircuitBreaker F × Answer F A
  unfolding when_admitted allow
  generate now after outcome b = when_admitted now after outcome (allow now b)

  -- The deltas reach the client before the end of the stream is reported.
  unfoldable pub yielded : {A : Type 0} → List String → Answer F A → List String
  yielded deltas (from_engine outcome) = deltas
  yielded deltas (circuit_open wait) = []

  unfoldable pub stream :
      F
      → F
      → List String
      → Outcome Unit
      → CircuitBreaker F
      → CircuitBreaker F × List String × Answer F Unit
  unfolding generate yielded
  stream now after deltas ending b =
      let (after_it, answer) = generate now after ending b in
      (after_it, yielded deltas answer, answer)

  unfoldable pub healthy : F → Bool → CircuitBreaker F → CircuitBreaker F × Bool
  unfolding probe_succeeded state
  healthy now false b = (b, false)
  healthy now true b =
      let probed = probe_succeeded b in (probed, if is_open (state now probed) then false else true)
