-- ===== src/Gateway/Calls.antt =====
-- The rest of `_complete` of src/llm_router/app.py for a response that does not stream: the slot, the
-- call of the engine, the fallback after a local failure, and the end.
use production_local_llm_inf.Prelude.{Bool, true, false, not, Option, none, some, if◌then◌else◌}
use production_local_llm_inf.Prelude.Float.{Float}
use production_local_llm_inf.Prelude.Result.{Result, ok, raise}
use production_local_llm_inf.Models.{RouteDecision}
use production_local_llm_inf.Engine.Load.{observe_queue}
use production_local_llm_inf.Routing.Router.{NoEligibleModel}
use production_local_llm_inf.Routing.Select.{select}
use production_local_llm_inf.Resilience.Breaker.{CircuitBreaker, allow, retry_after_seconds}
use production_local_llm_inf.Resilience.Backend.{report}
use production_local_llm_inf.Admission.Slots.{
  AdmissionController, AdmissionRejected, acquire, release,
}
use production_local_llm_inf.Dispatch.{Engine, DispatchError, dispatch_refused, no_provider, target}
use production_local_llm_inf.Gateway.State.{
  Platform, Gateway, Ticket, BackendResult, Stage, finished, calling, completed, failed, overloaded,
  call_failed, CallError, engine_failed, engine_circuit_open, no_external, external_refused,
  call_interrupted, is_unavailable, Ending, answered, fails, breaks, outcome_of, circuit_of,
  with_circuit, router_of, outside_at, terms_of,
}
use production_local_llm_inf.Gateway.Caches.{store_cache, record_canary}

module _ {F : Type 0} where
  unfoldable pub release_slot : Gateway F → Gateway F
  release_slot g = record g { admission = release g.admission }

  -- The `finally` on an exception that leaves the handler.
  unfoldable pub give_up : CallError F → Gateway F → Gateway F × Stage F
  unfolding release_slot
  give_up error g = (release_slot g, finished (failed (call_failed error)))

  abbrev pub error_of : DispatchError → CallError F
  error_of (dispatch_refused class) = external_refused class
  error_of no_provider = no_external

-- What handles the exceptions of a call.
abbrev pub Handler : Type 0 → Type 0
Handler F = CallError F → Gateway F → Gateway F × Stage F

module _ {F : Type 0} ⦃f : Float F⦄ where
  -- `_admit` of the engine's circuit: the call goes out, or is refused at once.
  unfoldable pub admitted :
      F
      → Ticket F
      → RouteDecision F
      → Bool
      → Handler F
      → Engine
      → Gateway F
      → CircuitBreaker F × Bool
      → Gateway F × Stage F
  admitted now ticket decision is_fallback handler engine g (b, true) =
      (with_circuit engine b g, calling ticket decision engine is_fallback)
  admitted now ticket decision is_fallback handler engine g (b, false) =
      handler (engine_circuit_open (retry_after_seconds now b)) (with_circuit engine b g)

  unfoldable pub dispatched :
      F
      → Ticket F
      → RouteDecision F
      → Bool
      → Handler F
      → Gateway F
      → Result DispatchError Engine
      → Gateway F × Stage F
  unfolding admitted
  dispatched now ticket decision is_fallback handler g (raise error) = handler (error_of error) g
  dispatched now ticket decision is_fallback handler g (ok engine) =
      admitted now ticket decision is_fallback handler engine g (allow now (circuit_of engine g))

  -- `await inference_backend.generate(payload, decision)`, up to its wait. `create_app` always
  -- configures a provider.
  unfoldable pub send :
      F → Ticket F → RouteDecision F → Bool → Handler F → Gateway F → Gateway F × Stage F
  unfolding dispatched
  send now ticket decision is_fallback handler g =
      dispatched now ticket decision is_fallback handler g (target true ticket.payload decision)

  abbrev pub chosen : Result NoEligibleModel (RouteDecision F) → Option (RouteDecision F)
  chosen (ok decision) = some decision
  chosen (raise _) = none

  unfoldable pub fallback_route :
      Platform F → F → Ticket F → RouteDecision F → Gateway F → Option (RouteDecision F)
  fallback_route p now ticket failed_one g =
      if not failed_one.profile.local
      then none
      else chosen (
          select (outside_at p now) (router_of p g) ticket.payload
            (terms_of p ticket (some failed_one.task) "" (some failed_one.profile.id)))

  unfoldable pub fall_back :
      F → Ticket F → CallError F → Gateway F → Option (RouteDecision F) → Gateway F × Stage F
  unfolding send give_up
  fall_back now ticket error g none = give_up error g
  fall_back now ticket error g (some fallback) = send now ticket fallback true give_up g

  -- The `except` clauses around the first attempt.
  unfoldable pub first_failed : Platform F → F → Ticket F → RouteDecision F → Handler F
  unfolding fall_back record_canary
  first_failed p now ticket decision error g =
      if is_unavailable error
      then (let counted = record_canary now ticket decision false none g in
          fall_back now ticket error counted (fallback_route p now ticket decision counted))
      else give_up error g

  abbrev pub handler_of : Platform F → F → Ticket F → RouteDecision F → Bool → Handler F
  handler_of p now ticket decision true = give_up
  handler_of p now ticket decision false = first_failed p now ticket decision

  -- `await admission.acquire()` has ended, with a slot or without.
  unfoldable pub after_wait :
      Platform F
      → F
      → Ticket F
      → RouteDecision F
      → Gateway F
      → Result AdmissionRejected AdmissionController
      → Gateway F × Stage F
  unfolding send first_failed
  after_wait p now ticket decision g (raise _) = (g, finished (failed overloaded))
  after_wait p now ticket decision g (ok admission) =
      send now ticket decision false (first_failed p now ticket decision) (record g {
        admission = admission;
        load =
            observe_queue g.load decision.profile.id
              (f.mul (f.sub now ticket.started) (f.of_nat 1000));
      })

  unfoldable pub enter :
      Platform F → F → Ticket F → RouteDecision F → Gateway F → Gateway F × Stage F
  unfolding after_wait
  enter p now ticket decision g = after_wait p now ticket decision g (acquire g.admission)

  -- `validity`, where the request asked for structured output.
  unfoldable pub validity : Platform F → Ticket F → BackendResult → Option F
  validity p ticket result =
      if ticket.payload.routing.structured
      then some (if p.structured_output_valid result.text_ then f.of_nat 1 else f.of_nat 0)
      else none

  unfoldable pub complete :
      Platform F → F → Ticket F → RouteDecision F → BackendResult → Gateway F → Gateway F × Stage F
  unfolding release_slot validity
  complete p now ticket decision result g = (
    store_cache p now ticket decision result
        (record_canary now ticket decision true (validity p ticket result) (release_slot g)),
    finished (completed decision result),
  )

  unfoldable pub ended :
      Platform F → F → Ticket F → RouteDecision F → Bool → Ending → Gateway F → Gateway F × Stage F
  unfolding complete give_up first_failed
  ended p now ticket decision is_fallback (answered result) g =
      complete p now ticket decision result g
  ended p now ticket decision is_fallback (fails failure) g =
      handler_of p now ticket decision is_fallback (engine_failed failure) g
  ended p now ticket decision is_fallback breaks g =
      handler_of p now ticket decision is_fallback call_interrupted g

  -- The engine has ended the call: its circuit hears of it first.
  unfoldable pub engine_ends :
      Platform F
      → F
      → Ticket F
      → RouteDecision F
      → Engine
      → Bool
      → Ending
      → Gateway F
      → Gateway F × Stage F
  unfolding ended
  engine_ends p now ticket decision engine is_fallback ending g =
      ended p now ticket decision is_fallback ending
        (with_circuit engine (report now (outcome_of ending) (circuit_of engine g)) g)
