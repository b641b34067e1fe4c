-- ===== src/Gateway/Caches.antt =====
-- `_lookup_cache`, `_store_cache` and `_record_canary` of src/llm_router/app.py.
use production_local_llm_inf.Prelude.{
  Bool, true, false, not, Option, none, some, String, ◌&&◌, ◌||◌, if◌then◌else◌,
}
use production_local_llm_inf.Prelude.Float.{Float}
use production_local_llm_inf.Models.{ChatCompletionRequest, RouteDecision, CanaryArm, prompt}
use production_local_llm_inf.Models.Enums.{TaskClass}
use production_local_llm_inf.Canary.Monitor.{CanaryMonitor, record_outcome}
use production_local_llm_inf.Caching.Keys.{exact_cache_eligible, semantic_cache_eligible, scope}
use production_local_llm_inf.Caching.Store.{CacheStore, CachedCompletion, fetch, save}
use production_local_llm_inf.Caching.Semantic.{lookup, store}
use production_local_llm_inf.Gateway.State.{
  Platform, Gateway, Ticket, BackendResult, CacheHit, exact_hit, semantic_hit,
}

abbrev pub is_canary : Option CanaryArm → Bool
is_canary (some CanaryArm.canary) = true
is_canary _ = false

abbrev pub hit_of : CacheHit → Option CachedCompletion → Option (CacheHit × CachedCompletion)
hit_of hit none = none
hit_of hit (some entry) = some (hit, entry)

module _ {F : Type 0} ⦃f : Float F⦄ where
  abbrev pub scope_of : Platform F → Ticket F → String
  scope_of p ticket = scope p.printing ticket.payload ticket.subject p.catalog_version

  -- `task is not None and semantic_cache_eligible(payload, task)`.
  unfoldable pub declared_eligible : ChatCompletionRequest F → Option TaskClass → Bool
  declared_eligible payload none = false
  declared_eligible payload (some task) = semantic_cache_eligible payload task

  -- The second half of `_lookup_cache`.
  unfoldable pub lookup_semantic :
      Platform F → Gateway F → Ticket F → Option (CacheHit × CachedCompletion)
  unfolding declared_eligible
  lookup_semantic p g ticket =
      if p.semantic_cache_enabled && declared_eligible ticket.payload ticket.payload.routing.task
      then hit_of semantic_hit
          (lookup p.words (scope_of p ticket) (prompt ticket.payload) g.semantic)
      else none

  unfoldable pub after_exact :
      Platform F
      → Gateway F
      → Ticket F
      → CacheStore F × Option CachedCompletion
      → Gateway F × Option (CacheHit × CachedCompletion)
  unfolding lookup_semantic
  after_exact p g ticket (exact, some entry) = (record g { exact = exact }, some (exact_hit, entry))
  after_exact p g ticket (exact, none) = (record g { exact = exact }, lookup_semantic p g ticket)

  unfoldable pub lookup_cache :
      Platform F → F → Ticket F → Gateway F → Gateway F × Option (CacheHit × CachedCompletion)
  unfolding after_exact
  lookup_cache p now ticket g =
      if not p.cache_enabled
      then (g, none)
      else if exact_cache_eligible ticket.payload
      then after_exact p g ticket (fetch now ticket.cache_key g.exact)
      else (g, lookup_semantic p g ticket)

  unfoldable pub entry_of : RouteDecision F → BackendResult → CachedCompletion
  entry_of decision result = record {
    text_ = result.text_;
    model_id = decision.profile.id;
    model_revision = decision.profile.revision;
    prompt_tokens = result.prompt_tokens;
    completion_tokens = result.completion_tokens;
  }

  unfoldable pub store_cache :
      Platform F → F → Ticket F → RouteDecision F → BackendResult → Gateway F → Gateway F
  unfolding entry_of
  store_cache p now ticket decision result g =
      if not p.cache_enabled || is_canary decision.canary_arm
      then g
      else (let entry = entry_of decision result in
          record g {
            exact =
                if exact_cache_eligible ticket.payload
                then save now ticket.cache_key entry g.exact
                else g.exact;
            semantic =
                if p.semantic_cache_enabled && semantic_cache_eligible ticket.payload decision.task
                then store (scope_of p ticket) (prompt ticket.payload) entry g.semantic
                else g.semantic;
          })

  -- `_record_canary` past its guard; the latency is that since the request arrived.
  recorded :
      Option String → Option CanaryArm → Bool → F → Option F → CanaryMonitor F → CanaryMonitor F
  recorded (some subject) (some arm) succeeded latency_ms quality m =
      (record_outcome m subject (is_canary (some arm)) succeeded latency_ms quality).0
  recorded _ _ succeeded latency_ms quality m = m

  unfoldable pub record_canary :
      F → Ticket F → RouteDecision F → Bool → Option F → Gateway F → Gateway F
  unfolding recorded
  record_canary now ticket decision succeeded quality g =
      let latency_ms = f.mul (f.sub now ticket.started) (f.of_nat 1000) in
      record g {
        monitor =
            recorded decision.canary_subject decision.canary_arm succeeded latency_ms quality
              g.monitor;
      }
