-- ===== src/Gateway/Attempts.antt =====
-- The calls of src/llm_router/app.py, and the trials of their engines' circuits.
use production_local_llm_inf.Prelude.{
  ℕ, ◌+◌, ◌≡◌, refl, ap, sym, ◌∙◌, Bool, true, false, Option, none, some, arith, inl, inr,
  Bool-cases,
}
use production_local_llm_inf.Prelude.Float.{Float}
use production_local_llm_inf.Prelude.Result.{Result, ok, raise}
use production_local_llm_inf.Models.{RouteDecision}
use production_local_llm_inf.Resilience.Breaker.{CircuitBreaker, allow}
use production_local_llm_inf.Admission.Slots.{AdmissionController, AdmissionRejected}
use production_local_llm_inf.Dispatch.{Engine, DispatchError}
use production_local_llm_inf.Gateway.State.{
  Platform, Gateway, Ticket, BackendResult, Stage, CallError, Ending, answered, fails, breaks,
  is_unavailable, circuit_of, with_circuit, outcome_of,
}
use production_local_llm_inf.Gateway.Caches.{store_cache, record_canary}
use production_local_llm_inf.Gateway.Calls.{
  Handler, release_slot, give_up, admitted, dispatched, send, fall_back, first_failed, handler_of,
  after_wait, enter, complete, ended, engine_ends,
}
use production_local_llm_inf.Gateway.Trials.{
  one_if_same, Before, After, circuit_of-same, with_circuit-Before, with_circuit-After,
  report-Before, allow_refused,
}

module _ {F : Type 0} where
  module _ (subject : Engine) (k : ℕ) where
    abbrev pub KeepsTrial : Handler F → Type 0
    KeepsTrial handler =
        (error : CallError F) (g : Gateway F)
        → Before subject k g
        → After subject k (handler error g)

    -- A stretch that asks neither circuit.
    pub same-After :
        (h : Gateway F) (r : Gateway F × Stage F)
        → (r.0.local_circuit ≡ h.local_circuit) × (r.0.external_circuit ≡ h.external_circuit)
        → Before subject k h
        → After subject k r
    same-After h r same before trial =
        omega
          (arith, before (ap (λ c. c.trial_in_flight) (circuit_of-same subject h r.0 same) ∙ trial))

    pub give_up-After : KeepsTrial give_up
    unfolding give_up release_slot
    give_up-After error g before = same-After g (give_up error g) (refl, refl) before

    module _ ⦃f : Float F⦄ where
      admitted-After :
          (now : F) (t : Ticket F) (d : RouteDecision F) (is_fallback : Bool) (handler : Handler F)
          (engine : Engine) (g : Gateway F) (answer : CircuitBreaker F × Bool)
          → allow now (circuit_of engine g) ≡ answer
          → KeepsTrial handler
          → Before subject k g
          → After subject k (admitted now t d is_fallback handler engine g answer)
      unfolding admitted
      admitted-After now t d is_fallback handler engine g (b, true) e keeps before =
          with_circuit-After subject engine k b g t d is_fallback before
      admitted-After now t d is_fallback handler engine g (b, false) e keeps before =
          keeps _ (with_circuit engine b g) (
            with_circuit-Before subject engine k b g
              (λ trial.
                sym (ap (λ c. c.trial_in_flight) (allow_refused now (circuit_of engine g) b e))
                ∙ trial)
              before)

      dispatched-After :
          (now : F) (t : Ticket F) (d : RouteDecision F) (is_fallback : Bool) (handler : Handler F)
          (g : Gateway F) (destination : Result DispatchError Engine)
          → KeepsTrial handler
          → Before subject k g
          → After subject k (dispatched now t d is_fallback handler g destination)
      unfolding dispatched
      dispatched-After now t d is_fallback handler g (raise error) keeps before = keeps _ g before
      dispatched-After now t d is_fallback handler g (ok engine) keeps before =
          admitted-After now t d is_fallback handler engine g _ refl keeps before

      send-After :
          (now : F) (t : Ticket F) (d : RouteDecision F) (is_fallback : Bool) (handler : Handler F)
          (g : Gateway F)
          → KeepsTrial handler
          → Before subject k g
          → After subject k (send now t d is_fallback handler g)
      unfolding send
      send-After now t d is_fallback handler g keeps before =
          dispatched-After now t d is_fallback handler g _ keeps before

      fall_back-After :
          (now : F) (t : Ticket F) (error : CallError F) (g : Gateway F)
          (fallback : Option (RouteDecision F))
          → Before subject k g
          → After subject k (fall_back now t error g fallback)
      unfolding fall_back
      fall_back-After now t error g none before = give_up-After error g before
      fall_back-After now t error g (some fallback) before =
          send-After now t fallback true give_up g give_up-After before

      pub same-Before :
          (h g : Gateway F)
          → (g.local_circuit ≡ h.local_circuit) × (g.external_circuit ≡ h.external_circuit)
          → Before subject k h
          → Before subject k g
      same-Before h g same before trial =
          before (ap (λ c. c.trial_in_flight) (circuit_of-same subject h g same) ∙ trial)

      first_failed-After :
          (p : Platform F) (now : F) (t : Ticket F) (d : RouteDecision F)
          → KeepsTrial (first_failed p now t d)
      unfolding first_failed record_canary
      first_failed-After p now t d error g before = elim (Bool-cases (is_unavailable error)) [
        | inl e ↦ rw (e) (
            fall_back-After now t error (record_canary now t d false none g) _
              (same-Before g (record_canary now t d false none g) (refl, refl) before))
        | inr e ↦ rw (e) (give_up-After error g before)
      ]

      handler_of-KeepsTrial :
          (p : Platform F) (now : F) (t : Ticket F) (d : RouteDecision F) (is_fallback : Bool)
          → KeepsTrial (handler_of p now t d is_fallback)
      handler_of-KeepsTrial p now t d true error g before = give_up-After error g before
      handler_of-KeepsTrial p now t d false error g before =
          first_failed-After p now t d error g before

      pub circuits-store_cache :
          (p : Platform F) (now : F) (t : Ticket F) (d : RouteDecision F) (result : BackendResult)
          (g : Gateway F)
          → ((store_cache p now t d result g).local_circuit ≡ g.local_circuit)
            × ((store_cache p now t d result g).external_circuit ≡ g.external_circuit)
      unfolding store_cache
      circuits-store_cache p now t d result g = (ground arith, ground arith)

      complete-After :
          (p : Platform F) (now : F) (t : Ticket F) (d : RouteDecision F) (result : BackendResult)
          (g : Gateway F)
          → Before subject k g
          → After subject k (complete p now t d result g)
      unfolding complete release_slot record_canary
      complete-After p now t d result g before =
          same-After g (complete p now t d result g) (circuits-store_cache p now t d result _)
            before

      ended-After :
          (p : Platform F) (now : F) (t : Ticket F) (d : RouteDecision F) (is_fallback : Bool)
          (ending : Ending) (g : Gateway F)
          → Before subject k g
          → After subject k (ended p now t d is_fallback ending g)
      unfolding ended
      ended-After p now t d is_fallback (answered result) g before =
          complete-After p now t d result g before
      ended-After p now t d is_fallback (fails failure) g before =
          handler_of-KeepsTrial p now t d is_fallback _ g before
      ended-After p now t d is_fallback breaks g before =
          handler_of-KeepsTrial p now t d is_fallback _ g before

      pub engine_ends-After :
          (p : Platform F) (now : F) (t : Ticket F) (d : RouteDecision F) (engine : Engine)
          (is_fallback : Bool) (ending : Ending) (g : Gateway F)
          → Before subject (k + one_if_same subject engine) g
          → After subject k (engine_ends p now t d engine is_fallback ending g)
      unfolding engine_ends
      engine_ends-After p now t d engine is_fallback ending g before =
          ended-After p now t d is_fallback ending _
            (report-Before subject engine k now (outcome_of ending) g before)

      after_wait-After :
          (p : Platform F) (now : F) (t : Ticket F) (d : RouteDecision F) (g : Gateway F)
          (answer : Result AdmissionRejected AdmissionController)
          → Before subject k g
          → After subject k (after_wait p now t d g answer)
      unfolding after_wait
      after_wait-After p now t d g (raise error) before =
          same-After g (after_wait p now t d g (raise error)) (refl, refl) before
      after_wait-After p now t d g (ok admission) before =
          send-After now t d false (first_failed p now t d) _ (first_failed-After p now t d)
            (same-Before g _ (refl, refl) before)

      pub enter-After :
          (p : Platform F) (now : F) (t : Ticket F) (d : RouteDecision F) (g : Gateway F)
          → Before subject k g
          → After subject k (enter p now t d g)
      unfolding enter
      enter-After p now t d g before = after_wait-After p now t d g _ before
