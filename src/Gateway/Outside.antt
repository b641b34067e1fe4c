-- ===== src/Gateway/Outside.antt =====
-- What leaves the gateway of src/llm_router/app.py as requests interleave.
use production_local_llm_inf.Prelude.{
  ◌≡◌, refl, inl, inr, Bool, true, false, Option, none, some, String, List, [], ◌∷◌, ◌++◌, ◌∈◌,
}
use production_local_llm_inf.Prelude.Float.{Float, IsOrdered}
use production_local_llm_inf.Prelude.Result.{Result, ok, raise}
use production_local_llm_inf.Models.{RouteDecision}
use production_local_llm_inf.Models.Enums.{TaskClass}
use production_local_llm_inf.Routing.Router.{NoEligibleModel}
use production_local_llm_inf.Routing.Select.{select}
use production_local_llm_inf.Caching.Store.{CachedCompletion}
use production_local_llm_inf.Dispatch.{Engine, local_engine, external_provider}
use production_local_llm_inf.Gateway.State.{
  Platform, Gateway, Ticket, Stage, CacheHit, terms_of, outside_at, router_of,
}
use production_local_llm_inf.Gateway.Receive.{
  Arrival, ticket_of, routed, route_task, after_lookup, after_quota, receive,
}
use production_local_llm_inf.Gateway.Calls.{give_up}
use production_local_llm_inf.Gateway.Streams.{
  StreamEnd, ran_out, broke, client_left, stopped, stream_begins, stream_flows, stream_stops,
  stream_delivered,
}
use production_local_llm_inf.Gateway.Traffic.{
  World, Step, arrives, enters, leaves, ends, begins, yields_nothing, flows, dries, delivers, drops,
  probes, scrapes, stops, Reach, here, next,
}
use production_local_llm_inf.Gateway.Privacy.{
  IsSafe, IsSent, select-IsCleared, enter-IsSafe, engine_ends-IsSafe,
}

module _ {F : Type 0} ⦃f : Float F⦄ (laws : IsOrdered F) (p : Platform F) where
  routed-IsSafe :
      (a : Arrival F) (g h : Gateway F) (r : Result NoEligibleModel (RouteDecision F))
      (task : Option TaskClass) (canary_key : String)
      → select
          (outside_at p a.at)
          (router_of p g)
          (ticket_of p a).payload
          (terms_of p (ticket_of p a) task canary_key none)
        ≡ r
      → IsSafe p (routed p (ticket_of p a) h r).1
  unfolding routed
  routed-IsSafe a g h (raise error) task canary_key e = tt
  routed-IsSafe a g h (ok d) task canary_key e =
      ((a, refl), select-IsCleared laws p a.at (ticket_of p a) a refl g task canary_key none d e)

  route_task-IsSafe :
      (a : Arrival F) (g : Gateway F) (task : Option TaskClass)
      → IsSafe p (route_task p a.at (ticket_of p a) (g, task)).1
  unfolding route_task
  route_task-IsSafe a g task = routed-IsSafe a g g _ task _ refl

  after_lookup-IsSafe :
      (a : Arrival F) (g : Gateway F) (hit : Option (CacheHit × CachedCompletion))
      → IsSafe p (after_lookup p a.at (ticket_of p a) (g, hit)).1
  unfolding after_lookup
  after_lookup-IsSafe a g none = route_task-IsSafe a _ _
  after_lookup-IsSafe a g (some (hit, entry)) = tt

  after_quota-IsSafe :
      (a : Arrival F) (g : Gateway F) (within : Bool)
      → IsSafe p (after_quota p a.at (ticket_of p a) (g, within)).1
  unfolding after_quota
  after_quota-IsSafe a g true = after_lookup-IsSafe a _ _
  after_quota-IsSafe a g false = tt

  receive-IsSafe : (a : Arrival F) (g : Gateway F) → IsSafe p (receive p a g).1
  unfolding receive
  receive-IsSafe a g = after_quota-IsSafe a _ _

  abbrev pub AllSafe : List (Stage F) → Type 0
  AllSafe requests = (s : Stage F) → s ∈ requests → IsSafe p s

  AllSafe-split :
      (before after : List (Stage F)) (s : Stage F)
      → AllSafe (before ++ s ∷ after)
      → AllSafe before × IsSafe p s × AllSafe after
  AllSafe-split [] after s h = ((λ x m. absurd m), h s (inl refl), λ x m. h x (inr m))
  AllSafe-split (b ∷ before) after s h =
      let (left, middle, right) = AllSafe-split before after s (λ x m. h x (inr m)) in
      ((λ x m. elim m [ inl e ↦ h x (inl e) | inr n ↦ left x n ]), middle, right)

  AllSafe-join :
      (before after : List (Stage F)) (s : Stage F)
      → AllSafe before
      → IsSafe p s
      → AllSafe after
      → AllSafe (before ++ s ∷ after)
  AllSafe-join [] after s left middle right x (inl e) = rw (e) middle
  AllSafe-join [] after s left middle right x (inr m) = right x m
  AllSafe-join (b ∷ before) after s left middle right x (inl e) = left x (inl e)
  AllSafe-join (b ∷ before) after s left middle right x (inr m) =
      AllSafe-join before after s (λ y n. left y (inr n)) middle right x m

  -- One stretch of one of the requests.
  stretch-AllSafe :
      (requests before after : List (Stage F)) (old new : Stage F)
      → requests ≡ before ++ old ∷ after
      → AllSafe requests
      → (IsSafe p old → IsSafe p new)
      → AllSafe (before ++ new ∷ after)
  stretch-AllSafe requests before after old new e safe keeps =
      let (left, middle, right) = AllSafe-split before after old (λ x m. safe x (rw (e) m)) in
      AllSafe-join before after new left (keeps middle) right

  sent_ticket :
      (t : Ticket F) (engine : Engine) → IsSent p t engine → (a : Arrival F) × (t ≡ ticket_of p a)
  sent_ticket t local_engine h = h
  sent_ticket t external_provider h = h.0

  stream_stops-IsSafe :
      (now : F) (t : Ticket F) (d : RouteDecision F) (engine : Engine) (collected : List String)
      (end : StreamEnd) (g : Gateway F)
      → IsSafe p (stream_stops now t d engine collected end g).1
  unfolding stream_stops stopped
  stream_stops-IsSafe now t d engine collected ran_out g = tt
  stream_stops-IsSafe now t d engine collected (broke failure) g = tt
  stream_stops-IsSafe now t d engine collected client_left g = tt

  Step-AllSafe : (v w : World F) → Step p v w → AllSafe v.requests → AllSafe w.requests
  unfolding stream_begins stream_flows stream_delivered give_up
  Step-AllSafe v _ (arrives _ a) safe =
      AllSafe-join [] v.requests _ (λ x m. absurd m) (receive-IsSafe a v.gateway) safe
  Step-AllSafe v _ (enters _ before after now t d e) safe =
      stretch-AllSafe v.requests before after _ _ e safe
        (λ h. enter-IsSafe laws p now t h.0.0 h.0.1 d v.gateway h.1)
  Step-AllSafe v _ (leaves _ before after t d e) safe =
      stretch-AllSafe v.requests before after _ _ e safe (λ h. tt)
  Step-AllSafe v _ (ends _ before after now t d engine is_fallback ending fit e) safe =
      stretch-AllSafe v.requests before after _ _ e safe (λ h.
        let (a, is_ticket) = sent_ticket t engine h.0 in
        engine_ends-IsSafe laws p now t a is_ticket d engine is_fallback ending v.gateway)
  Step-AllSafe v _ (begins _ before after t d engine is_fallback first streams e) safe =
      stretch-AllSafe v.requests before after _ _ e safe (λ h. h.0)
  Step-AllSafe v _ (yields_nothing _ before after now t d engine is_fallback streams e) safe =
      stretch-AllSafe v.requests before after _ _ e safe
        (λ h. stream_stops-IsSafe now t d engine [] ran_out v.gateway)
  Step-AllSafe v _ (flows _ before after t d engine collected delta e) safe =
      stretch-AllSafe v.requests before after _ _ e safe (λ h. h)
  Step-AllSafe v _ (dries _ before after now t d engine collected end e) safe =
      stretch-AllSafe v.requests before after _ _ e safe
        (λ h. stream_stops-IsSafe now t d engine collected end v.gateway)
  Step-AllSafe v _ (delivers _ before after now t d collected e) safe =
      stretch-AllSafe v.requests before after _ _ e safe (λ h. tt)
  Step-AllSafe v _ (drops _ before after t d collected e) safe =
      stretch-AllSafe v.requests before after _ _ e safe (λ h. tt)
  Step-AllSafe v _ (probes _ now engine_healthy) safe = safe
  Step-AllSafe v _ (scrapes _ now stats) safe = safe
  Step-AllSafe v _ (stops _) safe = safe

  pub Reach-AllSafe :
      (g : Gateway F) (w : World F)
      → Reach p (record { gateway = g; requests = [] }) w
      → AllSafe w.requests
  Reach-AllSafe g _ here = λ s m. absurd m
  Reach-AllSafe g w (next {v = v} reach step) = Step-AllSafe v w step (Reach-AllSafe g v reach)
