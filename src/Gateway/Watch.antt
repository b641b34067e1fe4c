-- ===== src/Gateway/Watch.antt =====
-- What src/llm_router/app.py does to the shared state besides completions: `readiness`,
-- `prometheus_metrics` and the end of `lifespan`.
use production_local_llm_inf.Prelude.{Bool, true, false, Option, none, some, if◌then◌else◌}
use production_local_llm_inf.Prelude.Float.{Float}
use production_local_llm_inf.Engine.Load.{EngineStats, observe_engine}
use production_local_llm_inf.Engine.ColdStart.{observe}
use production_local_llm_inf.Resilience.Breaker.{CircuitBreaker}
use production_local_llm_inf.Resilience.Backend.{healthy}
use production_local_llm_inf.Gateway.State.{Gateway}

-- The answers of `/readyz`; the first two are a 503.
pub data Readiness : Type 0 where
  not_ready unhealthy ready : Readiness

abbrev readiness_of : Bool → Readiness
readiness_of true = Readiness.ready
readiness_of false = Readiness.unhealthy

module _ {F : Type 0} where
  -- `lifespan` after its `yield`.
  unfoldable pub shut_down : Gateway F → Gateway F
  shut_down g = record g { ready = false }

module _ {F : Type 0} ⦃f : Float F⦄ where
  unfoldable pub probed : F → Gateway F → CircuitBreaker F × Bool → Gateway F × Readiness
  unfolding observe
  probed now g (b, is_healthy) = (
    record g { local_circuit = b; cold_start = (observe g.cold_start is_healthy now).0 },
    readiness_of is_healthy,
  )

  -- Readiness follows the local engine, which answers its own probe with `engine_healthy`.
  unfoldable pub readiness : F → Bool → Gateway F → Gateway F × Readiness
  unfolding probed
  readiness now engine_healthy g =
      if g.ready
      then probed now g (healthy now engine_healthy g.local_circuit)
      else (g, Readiness.not_ready)

  -- The samples are `none` where the engine could not be read.
  unfoldable pub prometheus_metrics : F → Option (EngineStats F) → Gateway F → Gateway F
  prometheus_metrics now none g = g
  prometheus_metrics now (some stats) g = record g { load = observe_engine g.load stats now }
