-- ===== src/Gateway/Privacy.antt =====
-- Where the prompts of src/llm_router/app.py go as requests interleave.
use production_local_llm_inf.Prelude.{
  String, not, if◌then◌else◌, ◌≡◌, sym, refl, ◌⊎◌, inl, inr, Bool, true, false, Option, none, some,
  arith, Bool-cases,
}
use mathlib.Core.Bool.{true≢false}
use production_local_llm_inf.Prelude.Float.{Float, IsOrdered}
use production_local_llm_inf.Prelude.Result.{Result, ok, raise}
use production_local_llm_inf.Models.{RouteDecision}
use production_local_llm_inf.Models.Enums.{PrivacyClass, TaskClass}
use production_local_llm_inf.Resilience.Breaker.{CircuitBreaker}
use production_local_llm_inf.Admission.Slots.{AdmissionController, AdmissionRejected}
use production_local_llm_inf.Routing.Router.{NoEligibleModel}
use production_local_llm_inf.Routing.Select.{select}
use production_local_llm_inf.Routing.Selection.{select_private_stays_local}
use production_local_llm_inf.Dispatch.{
  Engine, DispatchError, local_engine, external_provider, target,
}
use production_local_llm_inf.Gateway.State.{
  Platform, Gateway, Ticket, Stage, finished, waiting, calling, streaming, finishing, CallError,
  Ending, answered, fails, breaks, is_unavailable, allows_external, terms_of, outside_at, router_of,
}
use production_local_llm_inf.Gateway.Receive.{Arrival, ticket_of}
use production_local_llm_inf.Gateway.Calls.{
  Handler, chosen, give_up, admitted, dispatched, send, fallback_route, fall_back, first_failed,
  handler_of, after_wait, enter, complete, ended, engine_ends,
}

module _ {F : Type 0} ⦃f : Float F⦄ (p : Platform F) (t : Ticket F) where
  -- The request is public, and the operator, the tenant and the caller agree to a model outside.
  abbrev pub IsAgreed : Type 0
  IsAgreed =
      (t.payload.routing.privacy ≡ PrivacyClass.public)
      × (p.external_fallback_enabled ≡ true)
      × (allows_external t.tenant ≡ true)
      × (t.payload.routing.allow_external_fallback ≡ true)

  abbrev pub IsCleared : RouteDecision F → Type 0
  IsCleared d = (d.profile.local ≡ true) ⊎ IsAgreed

  abbrev pub IsSent : Engine → Type 0
  IsSent local_engine = (a : Arrival F) × (t ≡ ticket_of p a)
  IsSent external_provider = ((a : Arrival F) × (t ≡ ticket_of p a)) × IsAgreed

module _ {F : Type 0} ⦃f : Float F⦄ (p : Platform F) where
  -- What holds of a request that has not been answered.
  abbrev pub IsSafe : Stage F → Type 0
  IsSafe (finished reply) = Unit {0}
  IsSafe (waiting t d) = ((a : Arrival F) × (t ≡ ticket_of p a)) × IsCleared p t d
  IsSafe (calling t d engine is_fallback) =
      IsSent p t engine × (is_fallback ≡ true → engine ≡ external_provider)
  IsSafe (streaming t d engine collected) = IsSent p t engine
  IsSafe (finishing t d collected) = Unit {0}

module _ {F : Type 0} ⦃f : Float F⦄ (laws : IsOrdered F) (p : Platform F) (now : F) (t : Ticket F)
    (a : Arrival F) (is_ticket : t ≡ ticket_of p a) where
  abbrev KeepsSafe : Handler F → Type 0
  KeepsSafe handler = (error : CallError F) (g : Gateway F) → IsSafe p (handler error g).1

  give_up-KeepsSafe : KeepsSafe give_up
  unfolding give_up
  give_up-KeepsSafe error g = tt

  target-IsSent :
      (d : RouteDecision F) (engine : Engine)
      → target true t.payload d ≡ ok engine
      → IsCleared p t d
      → IsSent p t engine
  unfolding target
  target-IsSent d local_engine e cleared = (a, is_ticket)
  target-IsSent d external_provider e cleared = ((a, is_ticket), ground arith)

  target-external :
      (d : RouteDecision F) (engine : Engine)
      → target true t.payload d ≡ ok engine
      → d.profile.local ≡ false
      → engine ≡ external_provider
  unfolding target
  target-external d engine e outside_model = ground arith

  admitted-IsSafe :
      (d : RouteDecision F) (is_fallback : Bool) (handler : Handler F) (engine : Engine)
      (g : Gateway F) (answer : CircuitBreaker F × Bool)
      → KeepsSafe handler
      → IsSent p t engine × (is_fallback ≡ true → engine ≡ external_provider)
      → IsSafe p (admitted now t d is_fallback handler engine g answer).1
  unfolding admitted
  admitted-IsSafe d is_fallback handler engine g (b, true) keeps sent = sent
  admitted-IsSafe d is_fallback handler engine g (b, false) keeps sent = keeps _ _

  dispatched-IsSafe :
      (d : RouteDecision F) (is_fallback : Bool) (handler : Handler F) (g : Gateway F)
      (destination : Result DispatchError Engine)
      → target true t.payload d ≡ destination
      → KeepsSafe handler
      → IsCleared p t d
      → (is_fallback ≡ true → d.profile.local ≡ false)
      → IsSafe p (dispatched now t d is_fallback handler g destination).1
  unfolding dispatched
  dispatched-IsSafe d is_fallback handler g (raise error) e keeps cleared out = keeps _ g
  dispatched-IsSafe d is_fallback handler g (ok engine) e keeps cleared out =
      admitted-IsSafe d is_fallback handler engine g _ keeps
        (target-IsSent d engine e cleared, λ b. target-external d engine e (out b))

  send-IsSafe :
      (d : RouteDecision F) (is_fallback : Bool) (handler : Handler F) (g : Gateway F)
      → KeepsSafe handler
      → IsCleared p t d
      → (is_fallback ≡ true → d.profile.local ≡ false)
      → IsSafe p (send now t d is_fallback handler g).1
  unfolding send
  send-IsSafe d is_fallback handler g keeps cleared out =
      dispatched-IsSafe d is_fallback handler g _ refl keeps cleared out

  -- What `router.select` chose for the handler's terms.
  pub select-IsCleared :
      (g : Gateway F) (task : Option TaskClass) (canary_key : String) (from : Option String)
      (d : RouteDecision F)
      → select (outside_at p now) (router_of p g) t.payload (terms_of p t task canary_key from)
        ≡ ok d
      → IsCleared p t d
  unfolding router_of terms_of
  select-IsCleared g task canary_key from d e = (select_private_stays_local _ _ _ _ laws e).0

  select-leaves :
      (g : Gateway F) (task : Option TaskClass) (canary_key failed_id : String)
      (d : RouteDecision F)
      → select
          (outside_at p now)
          (router_of p g)
          t.payload
          (terms_of p t task canary_key (some failed_id))
        ≡ ok d
      → d.profile.local ≡ false
  unfolding router_of terms_of
  select-leaves g task canary_key failed_id d e =
      elim (select_private_stays_local _ _ _ _ laws e).1 [ inl h ↦ ground (arith, h) | inr h ↦ h ]

  chosen-ok :
      (r : Result NoEligibleModel (RouteDecision F)) (d : RouteDecision F)
      → chosen r ≡ some d
      → r ≡ ok d
  chosen-ok (ok decision) d e = ground arith
  chosen-ok (raise error) d e = ground arith

  guarded_some :
      (guard : Bool) (o : Option (RouteDecision F)) (d : RouteDecision F)
      → (if not guard then none else o) ≡ some d
      → o ≡ some d
  guarded_some guard o d e = ground arith

  fallback_route-IsCleared :
      (failed_one : RouteDecision F) (g : Gateway F) (d : RouteDecision F)
      → fallback_route p now t failed_one g ≡ some d
      → IsCleared p t d × (d.profile.local ≡ false)
  unfolding fallback_route
  fallback_route-IsCleared failed_one g d e =
      let found = chosen-ok _ d (guarded_some failed_one.profile.local _ d e) in
      (select-IsCleared g _ _ _ d found, select-leaves g _ _ failed_one.profile.id d found)

  fall_back-IsSafe :
      (error : CallError F) (g : Gateway F) (fallback : Option (RouteDecision F))
      → ((d : RouteDecision F) → fallback ≡ some d → IsCleared p t d × (d.profile.local ≡ false))
      → IsSafe p (fall_back now t error g fallback).1
  unfolding fall_back give_up
  fall_back-IsSafe error g none cleared = tt
  fall_back-IsSafe error g (some fallback) cleared =
      send-IsSafe fallback true give_up g give_up-KeepsSafe (cleared fallback refl).0
        (λ b. (cleared fallback refl).1)

  first_failed-KeepsSafe : (d : RouteDecision F) → KeepsSafe (first_failed p now t d)
  unfolding first_failed give_up
  first_failed-KeepsSafe d error g = elim (Bool-cases (is_unavailable error)) [
    | inl e ↦ rw (e) (fall_back-IsSafe error _ _ (fallback_route-IsCleared d _))
    | inr e ↦ rw (e) tt
  ]

  handler_of-KeepsSafe :
      (d : RouteDecision F) (is_fallback : Bool) → KeepsSafe (handler_of p now t d is_fallback)
  handler_of-KeepsSafe d true error g = give_up-KeepsSafe error g
  handler_of-KeepsSafe d false error g = first_failed-KeepsSafe d error g

  after_wait-IsSafe :
      (d : RouteDecision F) (g : Gateway F) (answer : Result AdmissionRejected AdmissionController)
      → IsCleared p t d
      → IsSafe p (after_wait p now t d g answer).1
  unfolding after_wait
  after_wait-IsSafe d g (raise error) cleared = tt
  after_wait-IsSafe d g (ok admission) cleared =
      send-IsSafe d false (first_failed p now t d) _ (first_failed-KeepsSafe d) cleared
        (λ b. absurd (true≢false (sym b)))

  pub enter-IsSafe :
      (d : RouteDecision F) (g : Gateway F) → IsCleared p t d → IsSafe p (enter p now t d g).1
  unfolding enter
  enter-IsSafe d g cleared = after_wait-IsSafe d g _ cleared

  ended-IsSafe :
      (d : RouteDecision F) (is_fallback : Bool) (ending : Ending) (g : Gateway F)
      → IsSafe p (ended p now t d is_fallback ending g).1
  unfolding ended complete
  ended-IsSafe d is_fallback (answered result) g = tt
  ended-IsSafe d is_fallback (fails failure) g = handler_of-KeepsSafe d is_fallback _ g
  ended-IsSafe d is_fallback breaks g = handler_of-KeepsSafe d is_fallback _ g

  pub engine_ends-IsSafe :
      (d : RouteDecision F) (engine : Engine) (is_fallback : Bool) (ending : Ending) (g : Gateway F)
      → IsSafe p (engine_ends p now t d engine is_fallback ending g).1
  unfolding engine_ends
  engine_ends-IsSafe d engine is_fallback ending g = ended-IsSafe d is_fallback ending _
