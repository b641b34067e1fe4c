-- ===== src/Gateway/State.antt =====
-- What `create_app` of src/llm_router/app.py builds: what stays as it is, and the state that
-- requests share. The exact cache is the one in memory.
use production_local_llm_inf.Prelude.{
  ℕ, Bool, true, false, not, Option, none, some, List, String, string_eq,
}
use production_local_llm_inf.Prelude.Dict.{Dict}
use production_local_llm_inf.Prelude.Float.{Float}
use production_local_llm_inf.Models.{ChatCompletionRequest, ModelProfile, RouteDecision}
use production_local_llm_inf.Models.Enums.{PrivacyClass, TaskClass}
use production_local_llm_inf.Registry.Records.{TenantRecord, Registry}
use production_local_llm_inf.Registry.Entitlement.{permitted_models_for}
use production_local_llm_inf.Engine.Load.{LoadTracker}
use production_local_llm_inf.Canary.Monitor.{CanaryMonitor}
use production_local_llm_inf.Routing.Task.{RoutingPrediction}
use production_local_llm_inf.Routing.Router.{Outside, Router, Terms}
use production_local_llm_inf.Resilience.Breaker.{CircuitBreaker}
use production_local_llm_inf.Resilience.Backend.{Outcome, returned, unavailable, interrupted}
use production_local_llm_inf.Admission.Slots.{AdmissionController}
use production_local_llm_inf.Admission.Quota.{SlidingWindowQuota}
use production_local_llm_inf.Caching.Keys.{Printing}
use production_local_llm_inf.Caching.Store.{CacheStore, CachedCompletion}
use production_local_llm_inf.Caching.Semantic.{SemanticCache}
use production_local_llm_inf.Caching.Decisions.{RouterDecisionCache, PrefixTracker}
use production_local_llm_inf.Dispatch.{Engine, EngineFailure, local_engine, external_provider}

-- The settings and the objects that no request changes. The last five are Python's library: texts of
-- numbers and digests, lower-casing, the canary's digest, splitting into words, and whether a text
-- is a JSON object.
pub record Platform (F : Type 0) : Type 0 where
  pub cache_enabled : Bool
  pub semantic_cache_enabled : Bool
  pub external_fallback_enabled : Bool
  pub catalog : Option (Registry F)
  pub profiles : List (ModelProfile F)
  pub classifier : Option (String → RoutingPrediction F)
  pub catalog_version : String
  pub printing : Printing F
  pub lower : String → String
  pub canary_digest : String → ℕ
  pub words : String → List String
  pub structured_output_valid : String → Bool

-- `shared_counters` are those of the Redis quota, where one is configured.
pub record Gateway (F : Type 0) : Type 0 where
  pub ready : Bool
  pub cold_start : Option F
  pub load : LoadTracker F
  pub monitor : CanaryMonitor F
  pub admission : AdmissionController
  pub quota : SlidingWindowQuota F
  pub shared_counters : Option (Dict String ℕ)
  pub local_circuit : CircuitBreaker F
  pub external_circuit : CircuitBreaker F
  pub exact : CacheStore F
  pub semantic : SemanticCache F
  pub decisions : RouterDecisionCache
  pub prefixes : PrefixTracker

-- `BackendResult` of src/llm_router/backends.py.
pub record BackendResult : Type 0 where
  pub text_ : String
  pub prompt_tokens : ℕ
  pub completion_tokens : ℕ
  pub finish_reason : String

-- The variables of the handler that outlive its waits.
pub record Ticket (F : Type 0) : Type 0 where
  pub payload : ChatCompletionRequest F
  pub subject : String
  pub tenant : Option (TenantRecord F)
  pub privacy_raised_from : Option PrivacyClass
  pub cache_key : String
  pub started : F

-- The exceptions that a call of the backend ends with.
pub data CallError (F : Type 0) : Type 0 where
  engine_failed : EngineFailure → CallError F
  engine_circuit_open : F → CallError F
  no_external : CallError F
  external_refused : PrivacyClass → CallError F
  call_interrupted : CallError F

-- `except BackendUnavailableError`, of which the first three are.
abbrev pub is_unavailable : {F : Type 0} → CallError F → Bool
is_unavailable (engine_failed failure) = true
is_unavailable (engine_circuit_open wait) = true
is_unavailable no_external = true
is_unavailable (external_refused _) = false
is_unavailable call_interrupted = false

pub data Failure (F : Type 0) : Type 0 where
  quota_exceeded : Failure F
  no_eligible : Failure F
  overloaded : Failure F
  call_failed : CallError F → Failure F

pub data CacheHit : Type 0 where
  exact_hit semantic_hit : CacheHit

pub data Reply (F : Type 0) : Type 0 where
  from_cache : CacheHit → CachedCompletion → Reply F
  completed : RouteDecision F → BackendResult → Reply F
  failed : Failure F → Reply F

-- Where a request stands: answered; waiting for a slot; or holding one, while an engine works on the
-- first attempt or on the fallback, while its deltas are passed on, or while the last chunks of a
-- stream are sent.
pub data Stage (F : Type 0) : Type 0 where
  finished : Reply F → Stage F
  waiting : Ticket F → RouteDecision F → Stage F
  calling : Ticket F → RouteDecision F → Engine → (is_fallback : Bool) → Stage F
  streaming : Ticket F → RouteDecision F → Engine → List String → Stage F
  finishing : Ticket F → RouteDecision F → List String → Stage F

-- How the engine ends a call.
pub data Ending : Type 0 where
  answered : BackendResult → Ending
  fails : EngineFailure → Ending
  breaks : Ending

abbrev pub outcome_of : Ending → Outcome BackendResult
outcome_of (answered result) = returned result
outcome_of (fails failure) = unavailable
outcome_of breaks = interrupted

-- The status code that the exception handlers answer with; an exception with no handler is a 500.
unfoldable pub status_of : {F : Type 0} → Failure F → ℕ
status_of quota_exceeded = 429
status_of no_eligible = 422
status_of overloaded = 503
status_of (call_failed (engine_failed EngineFailure.out_of_memory)) = 503
status_of (call_failed (engine_failed EngineFailure.backend_unavailable)) = 502
status_of (call_failed (engine_circuit_open wait)) = 503
status_of (call_failed no_external) = 502
status_of (call_failed (external_refused _)) = 500
status_of (call_failed call_interrupted) = 500

module _ {F : Type 0} where
  abbrev pub circuit_of : Engine → Gateway F → CircuitBreaker F
  circuit_of local_engine g = g.local_circuit
  circuit_of external_provider g = g.external_circuit

  abbrev pub with_circuit : Engine → CircuitBreaker F → Gateway F → Gateway F
  with_circuit local_engine b g = record g { local_circuit = b }
  with_circuit external_provider b g = record g { external_circuit = b }

  -- The router shares the load tracker and the monitor with the handler.
  unfoldable pub router_of : Platform F → Gateway F → Router F
  router_of p g = record {
    profiles = p.profiles;
    external_fallback_enabled = p.external_fallback_enabled;
    registry = p.catalog;
    classifier = p.classifier;
    load = some g.load;
    canary = some g.monitor;
  }

  unfoldable pub outside_at : Platform F → F → Outside F
  outside_at p now = record { now = now; lower = p.lower; digest = p.canary_digest }

abbrev pub denies : Option Bool → Bool
denies none = false
denies (some allowed) = not allowed

module _ {F : Type 0} ⦃f : Float F⦄ where
  abbrev floor_of : Option (TenantRecord F) → F
  floor_of none = f.of_nat 0
  floor_of (some tenant) = tenant.quality_floor

  -- `allow_external_fallback is not False`.
  abbrev pub allows_external : Option (TenantRecord F) → Bool
  allows_external none = true
  allows_external (some tenant) = not (denies tenant.allow_external_fallback)

  abbrev permitted_by : Option (Registry F) → Option (TenantRecord F) → Option (List String)
  permitted_by none tenant = none
  permitted_by (some catalog) tenant = permitted_models_for catalog tenant

  -- The keyword arguments of both calls of `router.select`.
  unfoldable pub terms_of :
      Platform F → Ticket F → Option TaskClass → String → Option String → Terms F
  terms_of p ticket task canary_key fallback_from = record {
    task = task;
    permitted_models = permitted_by p.catalog ticket.tenant;
    quality_floor = floor_of ticket.tenant;
    tenant_allows_external = allows_external ticket.tenant;
    privacy_raised_from = ticket.privacy_raised_from;
    canary_key = canary_key;
    fallback_from = fallback_from;
  }
