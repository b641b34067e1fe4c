-- ===== src/Gateway/Steady.antt =====
-- The slots and the circuits in the first stretch of `_complete` of src/llm_router/app.py.
use production_local_llm_inf.Prelude.{
  ◌≡◌, refl, ◌∙◌, Bool, true, false, Option, none, some, arith, Option-cases, inl, inr,
}
use production_local_llm_inf.Prelude.Float.{Float}
use production_local_llm_inf.Prelude.Result.{Result, ok, raise}
use production_local_llm_inf.Models.{RouteDecision}
use production_local_llm_inf.Models.Enums.{TaskClass}
use production_local_llm_inf.Resilience.Breaker.{CircuitBreaker}
use production_local_llm_inf.Admission.Slots.{AdmissionController}
use production_local_llm_inf.Routing.Router.{NoEligibleModel}
use production_local_llm_inf.Caching.Store.{CacheStore, CachedCompletion, fetch}
use production_local_llm_inf.Gateway.State.{Platform, Gateway, Ticket, Stage, CacheHit}
use production_local_llm_inf.Gateway.Caches.{lookup_cache, after_exact}
use production_local_llm_inf.Gateway.Receive.{
  Arrival, consume_quota, recall_task, routed, note_route, route_task, after_lookup, after_quota,
  ticket_of, receive,
}
use production_local_llm_inf.Gateway.Slots.{holds}

module _ {F : Type 0} ⦃f : Float F⦄ where
  -- What a request's first stretch leaves as it is: the slots and the circuits.
  abbrev pub guards : Gateway F → AdmissionController × CircuitBreaker F × CircuitBreaker F
  guards g = (g.admission, g.local_circuit, g.external_circuit)

  -- The stretch leaves those as they are, and its request holds no slot.
  abbrev IsSteady : Gateway F → Gateway F × Stage F → Type 0
  IsSteady g r = (guards r.0 ≡ guards g) × (holds r.1 ≡ 0)

  guards-after_exact :
      (p : Platform F) (t : Ticket F) (g : Gateway F) (r : CacheStore F × Option CachedCompletion)
      → guards (after_exact p g t r).0 ≡ guards g
  unfolding after_exact
  guards-after_exact p t g (exact, none) = refl
  guards-after_exact p t g (exact, some entry) = refl

  guards-lookup_cache :
      (p : Platform F) (now : F) (t : Ticket F) (g : Gateway F)
      → guards (lookup_cache p now t g).0 ≡ guards g
  unfolding lookup_cache
  guards-lookup_cache p now t g =
      ground (arith, guards-after_exact p t g (fetch now t.cache_key g.exact))

  guards-recall_task :
      (p : Platform F) (t : Ticket F) (g : Gateway F) → guards (recall_task p t g).0 ≡ guards g
  unfolding recall_task
  guards-recall_task p t g = ground arith

  guards-consume_quota :
      (p : Platform F) (a : Arrival F) (t : Ticket F) (g : Gateway F)
      → guards (consume_quota p a t g).0 ≡ guards g
  unfolding consume_quota
  guards-consume_quota p a t g = elim (Option-cases g.shared_counters) [
    | inl e ↦ rw (e) refl
    | inr (counters, e) ↦ rw (e) refl
  ]

  routed-IsSteady :
      (p : Platform F) (t : Ticket F) (g : Gateway F) (r : Result NoEligibleModel (RouteDecision F))
      → IsSteady g (routed p t g r)
  unfolding routed note_route
  routed-IsSteady p t g (raise _) = (refl, refl)
  routed-IsSteady p t g (ok decision) = (refl, refl)

  route_task-IsSteady :
      (p : Platform F) (now : F) (t : Ticket F) (g : Gateway F) (task : Option TaskClass)
      → IsSteady g (route_task p now t (g, task))
  unfolding route_task
  route_task-IsSteady p now t g task = routed-IsSteady p t g _

  after_lookup-IsSteady :
      (p : Platform F) (now : F) (t : Ticket F) (g : Gateway F)
      (hit : Option (CacheHit × CachedCompletion))
      → IsSteady g (after_lookup p now t (g, hit))
  unfolding after_lookup
  after_lookup-IsSteady p now t g (some (hit, entry)) = (refl, refl)
  after_lookup-IsSteady p now t g none =
      let (h, task) = recall_task p t g in
      let s = route_task-IsSteady p now t h task in (s.0 ∙ guards-recall_task p t g, s.1)

  after_quota-IsSteady :
      (p : Platform F) (now : F) (t : Ticket F) (g : Gateway F) (within : Bool)
      → IsSteady g (after_quota p now t (g, within))
  unfolding after_quota
  after_quota-IsSteady p now t g false = (refl, refl)
  after_quota-IsSteady p now t g true =
      let (h, hit) = lookup_cache p now t g in
      let s = after_lookup-IsSteady p now t h hit in (s.0 ∙ guards-lookup_cache p now t g, s.1)

  pub receive-IsSteady :
      (p : Platform F) (a : Arrival F) (g : Gateway F) → IsSteady g (receive p a g)
  unfolding receive
  receive-IsSteady p a g =
      let ticket = ticket_of p a in
      let (h, within) = consume_quota p a ticket g in
      let s = after_quota-IsSteady p a.at ticket h within in
      (s.0 ∙ guards-consume_quota p a ticket g, s.1)
