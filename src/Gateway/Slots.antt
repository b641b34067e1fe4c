-- ===== src/Gateway/Slots.antt =====
-- The admission slots in the stretches of the handler of src/llm_router/app.py.
use production_local_llm_inf.Prelude.{
  ℕ, ◌+◌, ◌≡◌, ◌↔◌, refl, Bool, true, false, Option, none, some, List, [], ◌∷◌, ◌++◌, arith,
  Bool-cases, inl, inr,
}
use production_local_llm_inf.Prelude.Float.{Float}
use production_local_llm_inf.Prelude.Result.{Result, ok, raise}
use production_local_llm_inf.Models.{RouteDecision}
use production_local_llm_inf.Resilience.Breaker.{CircuitBreaker}
use production_local_llm_inf.Admission.Slots.{
  AdmissionController, AdmissionRejected, acquire, release,
}
use production_local_llm_inf.Dispatch.{Engine, DispatchError, local_engine, external_provider}
use production_local_llm_inf.Gateway.State.{
  Platform, Gateway, Ticket, BackendResult, Stage, finished, waiting, calling, streaming, finishing,
  CallError, Ending, answered, fails, breaks, is_unavailable, with_circuit,
}
use production_local_llm_inf.Gateway.Caches.{store_cache, record_canary}
use production_local_llm_inf.Gateway.Calls.{
  Handler, release_slot, give_up, admitted, dispatched, send, fall_back, first_failed, handler_of,
  after_wait, enter, complete, ended, engine_ends,
}

-- The permits and the requests in flight make up `n`, and the idle event follows them.
abbrev pub IsSound : ℕ → AdmissionController → Type 0
IsSound n c = (c.permits + c.in_flight ≡ n) × ((c.idle ≡ true) ↔ (c.in_flight ≡ 0))

module _ {F : Type 0} where
  -- A slot is held while an engine works for a request.
  abbrev pub holds : Stage F → ℕ
  holds (calling t d engine is_fallback) = 1
  holds (streaming t d engine collected) = 1
  holds (finishing t d collected) = 1
  holds (waiting t d) = 0
  holds (finished reply) = 0

  abbrev pub holding : List (Stage F) → ℕ
  holding [] = 0
  holding (s ∷ ss) = holds s + holding ss

  pub holding-append : (xs ys : List (Stage F)) → holding (xs ++ ys) ≡ holding xs + holding ys
  holding-append [] ys = omega arith
  holding-append (x ∷ xs) ys = omega (arith, holding-append xs ys)

  -- With `k` slots held by others: before a stretch that holds one, and after it.
  abbrev pub Before : ℕ → ℕ → Gateway F → Type 0
  Before n k g = IsSound n g.admission × (g.admission.in_flight ≡ k + 1)

  abbrev pub After : ℕ → ℕ → Gateway F × Stage F → Type 0
  After n k r = IsSound n r.0.admission × (r.0.admission.in_flight ≡ k + holds r.1)

  module _ (n k : ℕ) where
    pub give_up-After :
        (error : CallError F) (g : Gateway F) → Before n k g → After n k (give_up error g)
    unfolding give_up release
    give_up-After error g h = ground arith

    abbrev KeepsSlots : Handler F → Type 0
    KeepsSlots handler =
        (error : CallError F) (g : Gateway F) → Before n k g → After n k (handler error g)

    pub with_circuit-Before :
        (engine : Engine) (b : CircuitBreaker F) (g : Gateway F)
        → Before n k g
        → Before n k (with_circuit engine b g)
    with_circuit-Before local_engine b g h = h
    with_circuit-Before external_provider b g h = h

    with_circuit-After :
        (engine : Engine) (b : CircuitBreaker F) (g : Gateway F) (t : Ticket F)
        (d : RouteDecision F) (is_fallback : Bool)
        → Before n k g
        → After n k (with_circuit engine b g, calling t d engine is_fallback)
    with_circuit-After local_engine b g t d is_fallback h = h
    with_circuit-After external_provider b g t d is_fallback h = h

    module _ ⦃f : Float F⦄ where
      admitted-After :
          (now : F) (t : Ticket F) (d : RouteDecision F) (is_fallback : Bool) (handler : Handler F)
          (engine : Engine) (g : Gateway F) (answer : CircuitBreaker F × Bool)
          → KeepsSlots handler
          → Before n k g
          → After n k (admitted now t d is_fallback handler engine g answer)
      unfolding admitted
      admitted-After now t d is_fallback handler engine g (b, true) keeps h =
          with_circuit-After engine b g t d is_fallback h
      admitted-After now t d is_fallback handler engine g (b, false) keeps h =
          keeps _ (with_circuit engine b g) (with_circuit-Before engine b g h)

      dispatched-After :
          (now : F) (t : Ticket F) (d : RouteDecision F) (is_fallback : Bool) (handler : Handler F)
          (g : Gateway F) (destination : Result DispatchError Engine)
          → KeepsSlots handler
          → Before n k g
          → After n k (dispatched now t d is_fallback handler g destination)
      unfolding dispatched
      dispatched-After now t d is_fallback handler g (raise error) keeps h = keeps _ g h
      dispatched-After now t d is_fallback handler g (ok engine) keeps h =
          admitted-After now t d is_fallback handler engine g _ keeps h

      send-After :
          (now : F) (t : Ticket F) (d : RouteDecision F) (is_fallback : Bool) (handler : Handler F)
          (g : Gateway F)
          → KeepsSlots handler
          → Before n k g
          → After n k (send now t d is_fallback handler g)
      unfolding send
      send-After now t d is_fallback handler g keeps h =
          dispatched-After now t d is_fallback handler g _ keeps h

      fall_back-After :
          (now : F) (t : Ticket F) (error : CallError F) (g : Gateway F)
          (fallback : Option (RouteDecision F))
          → Before n k g
          → After n k (fall_back now t error g fallback)
      unfolding fall_back
      fall_back-After now t error g none h = give_up-After error g h
      fall_back-After now t error g (some fallback) h =
          send-After now t fallback true give_up g give_up-After h

      first_failed-After :
          (p : Platform F) (now : F) (t : Ticket F) (d : RouteDecision F)
          → KeepsSlots (first_failed p now t d)
      unfolding first_failed record_canary
      first_failed-After p now t d error g h = elim (Bool-cases (is_unavailable error)) [
        | inl e ↦ rw (e) (fall_back-After now t error _ _ h)
        | inr e ↦ rw (e) (give_up-After error g h)
      ]

      handler_of-KeepsSlots :
          (p : Platform F) (now : F) (t : Ticket F) (d : RouteDecision F) (is_fallback : Bool)
          → KeepsSlots (handler_of p now t d is_fallback)
      handler_of-KeepsSlots p now t d true error g h = give_up-After error g h
      handler_of-KeepsSlots p now t d false error g h = first_failed-After p now t d error g h

      pub store_cache-admission :
          (p : Platform F) (now : F) (t : Ticket F) (d : RouteDecision F) (result : BackendResult)
          (g : Gateway F)
          → (store_cache p now t d result g).admission ≡ g.admission
      unfolding store_cache
      store_cache-admission p now t d result g = ground arith

      complete-After :
          (p : Platform F) (now : F) (t : Ticket F) (d : RouteDecision F) (result : BackendResult)
          (g : Gateway F)
          → Before n k g
          → After n k (complete p now t d result g)
      unfolding complete release_slot release record_canary
      complete-After p now t d result g h = rw (store_cache-admission) (ground arith)

      ended-After :
          (p : Platform F) (now : F) (t : Ticket F) (d : RouteDecision F) (is_fallback : Bool)
          (ending : Ending) (g : Gateway F)
          → Before n k g
          → After n k (ended p now t d is_fallback ending g)
      unfolding ended
      ended-After p now t d is_fallback (answered result) g h = complete-After p now t d result g h
      ended-After p now t d is_fallback (fails failure) g h =
          handler_of-KeepsSlots p now t d is_fallback _ g h
      ended-After p now t d is_fallback breaks g h =
          handler_of-KeepsSlots p now t d is_fallback _ g h

      pub engine_ends-After :
          (p : Platform F) (now : F) (t : Ticket F) (d : RouteDecision F) (engine : Engine)
          (is_fallback : Bool) (ending : Ending) (g : Gateway F)
          → Before n k g
          → After n k (engine_ends p now t d engine is_fallback ending g)
      unfolding engine_ends
      engine_ends-After p now t d engine is_fallback ending g h =
          ended-After p now t d is_fallback ending _ (with_circuit-Before engine _ g h)

      after_wait-After :
          (p : Platform F) (now : F) (t : Ticket F) (d : RouteDecision F) (g : Gateway F)
          (answer : Result AdmissionRejected AdmissionController)
          → acquire g.admission ≡ answer
          → IsSound n g.admission
          → g.admission.in_flight ≡ k
          → After n k (after_wait p now t d g answer)
      unfolding after_wait acquire
      after_wait-After p now t d g (raise error) e sound held = (sound, omega (arith, held))
      after_wait-After p now t d g (ok admission) e sound held =
          send-After now t d false (first_failed p now t d) _ (first_failed-After p now t d)
            (ground arith)

      pub enter-After :
          (p : Platform F) (now : F) (t : Ticket F) (d : RouteDecision F) (g : Gateway F)
          → IsSound n g.admission
          → g.admission.in_flight ≡ k
          → After n k (enter p now t d g)
      unfolding enter
      enter-After p now t d g sound held = after_wait-After p now t d g _ refl sound held
