-- ===== src/Gateway/Receive.antt =====
-- The first stretch of `_complete` of src/llm_router/app.py: from the request's arrival up to the
-- wait for a slot.
use production_local_llm_inf.Prelude.{
  ℕ, Bool, true, false, Option, none, some, String, concat, ◌==◌, if◌then◌else◌,
}
use production_local_llm_inf.Prelude.Float.{Float}
use production_local_llm_inf.Prelude.Result.{Result, ok, raise}
use production_local_llm_inf.Models.{ChatCompletionRequest, RouteDecision, prompt}
use production_local_llm_inf.Models.Enums.{PrivacyClass, TaskClass, privacy_eq}
use production_local_llm_inf.Registry.Records.{TenantRecord}
use production_local_llm_inf.Registry.Catalog.{tenant, strictest_privacy}
use production_local_llm_inf.Routing.Router.{NoEligibleModel}
use production_local_llm_inf.Routing.Select.{select}
use production_local_llm_inf.Admission.Quota.{consume, consume_window}
use production_local_llm_inf.Caching.Keys.{build_cache_key}
use production_local_llm_inf.Caching.Store.{CachedCompletion}
use production_local_llm_inf.Caching.Decisions.{recall, remember, observe}
use production_local_llm_inf.Gateway.State.{
  Platform, Gateway, Ticket, Stage, finished, waiting, from_cache, failed, quota_exceeded,
  no_eligible, CacheHit, router_of, outside_at, terms_of,
}
use production_local_llm_inf.Gateway.Caches.{lookup_cache}

-- A request as it arrives: its tenant is the authenticated principal's.
pub record Arrival (F : Type 0) : Type 0 where
  pub declared : ChatCompletionRequest F
  pub tenant_id : String
  pub at : F
  -- `int(time.time() // 60)`.
  pub window : ℕ

module _ {F : Type 0} where
  unfoldable pub entitlement : Platform F → String → Option (TenantRecord F)
  entitlement p tenant_id = elim p.catalog [ none ↦ none | some catalog ↦ tenant catalog tenant_id ]

  abbrev with_privacy : PrivacyClass → ChatCompletionRequest F → ChatCompletionRequest F
  with_privacy class payload = record payload {
    routing = record payload.routing { privacy = class };
  }

  -- The payload under the tenant's floor.
  unfoldable pub effective_payload :
      Option (TenantRecord F) → ChatCompletionRequest F → ChatCompletionRequest F
  effective_payload none payload = payload
  effective_payload (some record_) payload =
      let effective = strictest_privacy payload.routing.privacy record_.minimum_privacy in
      if effective == payload.routing.privacy then payload else with_privacy effective payload

  unfoldable pub raised_from :
      ChatCompletionRequest F → ChatCompletionRequest F → Option PrivacyClass
  raised_from declared effective =
      if effective.routing.privacy == declared.routing.privacy
      then none
      else some declared.routing.privacy

  unfoldable pub ticket_of : Platform F → Arrival F → Ticket F
  unfolding entitlement effective_payload raised_from
  ticket_of p a =
      let tenant_record = entitlement p a.tenant_id in
      let payload = effective_payload tenant_record a.declared in
      record {
        payload = payload;
        subject = a.tenant_id;
        tenant = tenant_record;
        privacy_raised_from = raised_from a.declared payload;
        cache_key =
            build_cache_key p.printing payload a.tenant_id p.catalog_version
              (some (prompt payload));
        started = a.at;
      }

  abbrev own_limit : Option (TenantRecord F) → Option ℕ
  own_limit none = none
  own_limit (some record_) = record_.quota_requests_per_minute

module _ {F : Type 0} ⦃f : Float F⦄ where
  -- `_consume_quota`: the counters that replicas share, where there are any.
  unfoldable pub consume_quota : Platform F → Arrival F → Ticket F → Gateway F → Gateway F × Bool
  consume_quota p a ticket g = elim g.shared_counters [
    | none ↦
        (let (quota, within) =
            consume
              (record { subject = ticket.subject; now = a.at; own_limit = own_limit ticket.tenant })
              g.quota in
          (record g { quota = quota }, within))
    | some counters ↦
        (let (after, within) =
            consume_window p.printing.show_nat "llmr:q:" g.quota.limit ticket.subject a.window
              (own_limit ticket.tenant) counters in
          (record g { shared_counters = some after }, within))
  ]

  -- `decision_cache.get(prompt) if cache_enabled else None`.
  unfoldable pub recall_task : Platform F → Ticket F → Gateway F → Gateway F × Option TaskClass
  recall_task p ticket g =
      if p.cache_enabled
      then (let (decisions, task) = recall p.printing.digest (prompt ticket.payload) g.decisions in
          (record g { decisions = decisions }, task))
      else (g, none)

  -- What follows a decision, before the wait: the decision cache and the prefix tracker.
  unfoldable pub note_route : Platform F → Ticket F → RouteDecision F → Gateway F → Gateway F
  note_route p ticket decision g = record g {
    decisions =
        if p.cache_enabled
        then remember p.printing.digest (prompt ticket.payload) decision.task g.decisions
        else g.decisions;
    prefixes = (observe p.printing (prompt ticket.payload) decision.profile.revision g.prefixes).0;
  }

  unfoldable pub routed :
      Platform F
      → Ticket F
      → Gateway F
      → Result NoEligibleModel (RouteDecision F)
      → Gateway F × Stage F
  unfolding note_route
  routed p ticket g (raise _) = (g, finished (failed no_eligible))
  routed p ticket g (ok decision) = (note_route p ticket decision g, waiting ticket decision)

  unfoldable pub route_task :
      Platform F → F → Ticket F → Gateway F × Option TaskClass → Gateway F × Stage F
  unfolding routed
  route_task p now ticket (g, task) = routed p ticket g (
      select (outside_at p now) (router_of p g) ticket.payload
        (terms_of p ticket task (concat ticket.subject (concat "|" (prompt ticket.payload))) none))

  unfoldable pub after_lookup :
      Platform F
      → F
      → Ticket F
      → Gateway F × Option (CacheHit × CachedCompletion)
      → Gateway F × Stage F
  unfolding route_task recall_task
  after_lookup p now ticket (g, some (hit, entry)) = (g, finished (from_cache hit entry))
  after_lookup p now ticket (g, none) = route_task p now ticket (recall_task p ticket g)

  unfoldable pub after_quota : Platform F → F → Ticket F → Gateway F × Bool → Gateway F × Stage F
  unfolding after_lookup
  after_quota p now ticket (g, false) = (g, finished (failed quota_exceeded))
  after_quota p now ticket (g, true) = after_lookup p now ticket (lookup_cache p now ticket g)

  unfoldable pub receive : Platform F → Arrival F → Gateway F → Gateway F × Stage F
  unfolding after_quota ticket_of consume_quota
  receive p a g =
      let ticket = ticket_of p a in after_quota p a.at ticket (consume_quota p a ticket g)
