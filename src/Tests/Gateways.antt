-- ===== src/Tests/Gateways.antt =====
-- The handler at concrete inputs: a public request that a model outside serves while its circuit is half-open.
use production_local_llm_inf.Prelude.{
  List, ◌≡◌, ◌≢◌, ◌<◌, ap, ◌∙◌, refl, true, false, none, some, [], ◌∷◌, ◌∈◌, inl, inr, String,
  arith, elem, all, concat, find?,
}
use mathlib.Core.Path.{subst}
use production_local_llm_inf.Prelude.Int.{ℤ, pos}
use production_local_llm_inf.Prelude.Float.{milli_float, Milli-IsOrdered, argmax_from, fmax}
use production_local_llm_inf.Prelude.Dict.{get, put, remove, move_to_end}
use production_local_llm_inf.Prelude.Bounded.{trim}
use production_local_llm_inf.Prelude.Result.{ok}
use production_local_llm_inf.Models.{RouteDecision, Remark, TaskSource, quality_for, prompt}
use production_local_llm_inf.Models.Enums.{PrivacyClass, TaskClass, LatencyTier}
use production_local_llm_inf.Canary.Monitor.{new_monitor}
use production_local_llm_inf.Routing.Router.{estimated_tokens}
use production_local_llm_inf.Routing.Select.{select}
use production_local_llm_inf.Resilience.Breaker.{CircuitBreaker, allow}
use production_local_llm_inf.Admission.Slots.{new_controller, acquire, release}
use production_local_llm_inf.Admission.Quota.{consume}
use production_local_llm_inf.Caching.Store.{new_store, fetch, store_after}
use production_local_llm_inf.Dispatch.{external_provider, target}
use production_local_llm_inf.Engine.Load.{observe_queue, engine_saturation, queue_ms}
use production_local_llm_inf.Resilience.Backend.{report}
use production_local_llm_inf.Caching.Decisions.{recall, remember, observe}
use production_local_llm_inf.Gateway.State.{
  BackendResult, exact_hit, outside_at, router_of, terms_of, Platform, Gateway, Stage, Ticket,
  finished, waiting, calling, breaks, failed, call_failed, call_interrupted,
}
use production_local_llm_inf.Gateway.Receive.{
  entitlement, Arrival, ticket_of, consume_quota, recall_task, note_route, routed, route_task,
  after_lookup, after_quota, receive,
}
use production_local_llm_inf.Gateway.Caches.{
  store_cache, entry_of, lookup_cache, after_exact, lookup_semantic, declared_eligible,
}
use production_local_llm_inf.Caching.Keys.{exact_cache_eligible, semantic_cache_eligible}
use production_local_llm_inf.Gateway.Calls.{enter, engine_ends}
use production_local_llm_inf.Gateway.Traffic.{
  World, Step, arrives, enters, ends, Reach, here, next, put_back,
}
use production_local_llm_inf.Gateway.Bound.{IsAccounted, Reach-IsAccounted}
use production_local_llm_inf.Gateway.Consent.{IsConsenting, Reach-IsConsenting}
use production_local_llm_inf.Gateway.Freed.{Reach-trial}
use production_local_llm_inf.Gateway.Trials.{works_on}
use production_local_llm_inf.Gateway.Reuse.{ticket_of-cached}
use production_local_llm_inf.Caching.Store.{Call, gets, sets}
use production_local_llm_inf.Caching.Kept.{acted}
use production_local_llm_inf.Caching.Keys.{build_cache_key, material}
use production_local_llm_inf.Models.{prompt}
use production_local_llm_inf.Prelude.Text.{join}
use production_local_llm_inf.Prelude.{◌==◌, string_eq}
use production_local_llm_inf.Gateway.Hits.{for_model, lookup_cache-store_cache}
use production_local_llm_inf.Registry.Records.{TenantRecord}
use production_local_llm_inf.Tests.Data.{request_of, outside_model, registry, tenant}

abbrev same_text : String → String
same_text t = t

abbrev pub platform : Platform ℤ
platform = record {
  cache_enabled = true;
  semantic_cache_enabled = true;
  external_fallback_enabled = true;
  catalog = none;
  profiles = outside_model ∷ [];
  classifier = none;
  catalog_version = "v1";
  printing = record {
    digest = same_text;
    show_float = λ x. "0.0";
    show_nat = λ n. "256";
    first_chars = λ n t. t;
  };
  lower = same_text;
  canary_digest = λ t. 7;
  words = λ t. t ∷ [];
  structured_output_valid = λ t. true;
}

abbrev pub half_open_circuit : CircuitBreaker ℤ
half_open_circuit = record {
  failure_threshold = 5;
  cooldown_seconds = pos 30000;
  failures = 5;
  opened_at = some (pos 0);
  trial_in_flight = false;
  half_open = true;
}

abbrev pub idle : Gateway ℤ
idle = record {
  ready = true;
  cold_start = none;
  load = record {
    smoothing = pos 200;
    engine_ttl_seconds = pos 30000;
    queue = [];
    saturation = none;
    saturation_at = pos 0;
  };
  monitor = new_monitor [];
  admission = new_controller 4;
  quota = record { limit = 60; events = [] };
  shared_counters = none;
  local_circuit = half_open_circuit;
  external_circuit = half_open_circuit;
  exact = new_store 8 (pos 300000);
  semantic = record { threshold = pos 900; max_entries = 4; entries = [] };
  decisions = record { policy_version = "v1"; max_entries = 2; entries = [] };
  prefixes = record { max_entries = 2; prefix_chars = 512; seen = [] };
}

abbrev pub arrival : Arrival ℤ
arrival = record {
  declared = request_of PrivacyClass.public;
  tenant_id = "acme";
  at = pos 1000;
  window = 0;
}

abbrev ticket : Ticket ℤ
ticket = ticket_of platform arrival

abbrev pub decision : RouteDecision ℤ
decision = record {
  profile = outside_model;
  task = TaskClass.general;
  reason = Remark.selected 1 TaskClass.general PrivacyClass.public LatencyTier.standard ∷ [];
  score = pos 103000;
  candidate_count = 1;
  adapter_id = none;
  adapter_revision = none;
  task_source = TaskSource.declared;
  task_confidence = none;
  complexity = none;
  canary_arm = none;
  canary_subject = none;
}

abbrev pub charged_gateway : Gateway ℤ
charged_gateway = record idle {
  quota = record { limit = 60; events = ("acme", pos 1000 ∷ []) ∷ [] };
}

abbrev pub waiting_gateway : Gateway ℤ
waiting_gateway = record charged_gateway {
  decisions = record {
    policy_version = "v1";
    max_entries = 2;
    entries = ("v1|hello", TaskClass.general) ∷ [];
  };
  prefixes = record { max_entries = 2; prefix_chars = 512; seen = ("r1|hello", tt) ∷ [] };
}

abbrev busy_gateway : Gateway ℤ
busy_gateway = record waiting_gateway {
  load = record idle.load { queue = ("large", pos 100000) ∷ [] };
  admission = record { permits = 3; in_flight = 1; idle = false };
  external_circuit = record half_open_circuit { trial_in_flight = true };
}

abbrev freed_gateway : Gateway ℤ
freed_gateway = record busy_gateway {
  admission = record { permits = 4; in_flight = 0; idle = true };
  external_circuit = half_open_circuit;
}

abbrev pub nobody : World ℤ
nobody = record { gateway = idle; requests = [] }

abbrev received : World ℤ
received = put_back [] [] (waiting_gateway, waiting ticket decision)

abbrev entered : World ℤ
entered = put_back [] [] (busy_gateway, calling ticket decision external_provider false)

abbrev broken : World ℤ
broken = put_back [] [] (freed_gateway, finished (failed (call_failed call_interrupted)))

charges : consume_quota platform arrival ticket idle ≡ (charged_gateway, true)
unfolding consume_quota consume get put ticket_of
charges = refl

misses : lookup_cache platform (pos 1000) ticket charged_gateway ≡ (charged_gateway, none)
unfolding lookup_cache after_exact lookup_semantic declared_eligible fetch get new_store elem
    ticket_of exact_cache_eligible semantic_cache_eligible
misses = refl

recalls : recall_task platform ticket charged_gateway ≡ (charged_gateway, none)
unfolding recall_task recall get
recalls = refl

selects :
    select (outside_at platform (pos 1000)) (router_of platform charged_gateway) ticket.payload (
      terms_of platform ticket none
        (concat ticket.subject (concat "|" (prompt ticket.payload)))
        none)
    ≡ ok decision
unfolding select elem all estimated_tokens prompt quality_for argmax_from fmax get router_of
    terms_of ticket_of engine_saturation queue_ms
selects = refl

notes : note_route platform ticket decision charged_gateway ≡ waiting_gateway
unfolding note_route remember observe put get trim prompt ticket_of move_to_end remove
notes = refl

receives : receive platform arrival idle ≡ (waiting_gateway, waiting ticket decision)
unfolding receive after_quota after_lookup route_task routed
receives =
    ap (after_quota platform (pos 1000) ticket) charges
    ∙ ap (after_lookup platform (pos 1000) ticket) misses
    ∙ ap (route_task platform (pos 1000) ticket) recalls
    ∙ ap (routed platform ticket charged_gateway) selects
    ∙ ap (λ g. (g, waiting ticket decision)) notes

admits :
    enter platform (pos 1100) ticket decision waiting_gateway
    ≡ (busy_gateway, calling ticket decision external_provider false)
unfolding enter acquire get allow target new_controller ticket_of observe_queue put
admits = refl

interrupts :
    engine_ends platform (pos 1200) ticket decision external_provider false breaks busy_gateway
    ≡ (freed_gateway, finished (failed (call_failed call_interrupted)))
unfolding engine_ends release report
interrupts = refl

received-Reach : Reach platform nobody received
received-Reach =
    next here
      (subst (λ r. Step platform nobody (put_back [] [] r)) receives (arrives nobody arrival))

entered-Reach : Reach platform nobody entered
entered-Reach = next received-Reach (
    subst (λ r. Step platform received (put_back [] [] r)) admits
      (enters received [] [] (pos 1100) ticket decision refl))

broken-Reach : Reach platform nobody broken
broken-Reach = next entered-Reach (
    subst (λ r. Step platform entered (put_back [] [] r)) interrupts
      (ends entered [] [] (pos 1200) ticket decision external_provider false breaks refl refl))

Reach-IsAccounted_example : IsAccounted 4 broken
Reach-IsAccounted_example = Reach-IsAccounted platform 4 idle broken refl broken-Reach

Reach-IsConsenting_example :
    (a : Arrival ℤ) × (ticket ≡ ticket_of platform a)
    × (true ≡ true)
    × IsConsenting Milli-IsOrdered platform a
Reach-IsConsenting_example =
    Reach-IsConsenting Milli-IsOrdered platform idle entered ticket
      (calling ticket decision external_provider false) entered-Reach (inl refl) refl

Reach-trial_example : (s : Stage ℤ) × (s ∈ entered.requests) × (0 < works_on external_provider s)
Reach-trial_example = Reach-trial platform external_provider idle entered refl entered-Reach refl

abbrev guarded_tenant : TenantRecord ℤ
guarded_tenant = record tenant { minimum_privacy = PrivacyClass.restricted }

abbrev guarded : Platform ℤ
guarded = record platform { catalog = some (record registry { tenants = guarded_tenant ∷ [] }) }

abbrev result : BackendResult
result = record { text_ = "hi"; prompt_tokens = 1; completion_tokens = 1; finish_reason = "stop" }

is_entitled : entitlement guarded "acme" ≡ some guarded_tenant
unfolding entitlement find? production_local_llm_inf.Registry.Catalog.tenant
is_entitled = refl

ticket_of-cached_example :
    (lookup_cache guarded (pos 2000) (ticket_of guarded arrival) waiting_gateway
      ≡ (waiting_gateway, none))
    × (store_cache guarded (pos 2000) (ticket_of guarded arrival) decision result waiting_gateway
        ≡ waiting_gateway)
ticket_of-cached_example =
    ticket_of-cached guarded arrival (inr (guarded_tenant, is_entitled, refl)) (pos 2000) decision
      result waiting_gateway

is_eligible : exact_cache_eligible ticket.payload ≡ true
unfolding exact_cache_eligible ticket_of
is_eligible = refl

abbrev looked_up : List (Call ℤ)
looked_up = gets (pos 2600) "other" ∷ sets (pos 2500) "other" (entry_of decision result) ∷ []

abbrev after_lookups : Gateway ℤ
after_lookups = record idle {
  exact = acted looked_up (store_cache platform (pos 2000) ticket decision result idle).exact;
}

other_key : "other" ≢ ticket.cache_key
unfolding ticket_of build_cache_key material prompt join
    production_local_llm_inf.Gateway.Receive.effective_payload
other_key e = let h : true ≡ (ticket.cache_key == "other") = ap (λ s. s == "other") e in cc

lookup_cache-store_cache_example :
    (lookup_cache platform
      (pos 3000)
      (ticket_of platform (for_model "small" arrival))
      after_lookups).1
    ≡ some (exact_hit, entry_of decision result)
unfolding store_after
lookup_cache-store_cache_example =
    lookup_cache-store_cache platform arrival "small" decision result idle after_lookups 8
      (pos 300000) [] looked_up (pos 2000) (pos 3000) refl is_eligible refl refl refl
      (refl, ((λ e. other_key e), tt)) (omega arith) refl
