-- ===== src/Tests/Fallbacks.antt =====
-- A request that the local engine fails, at concrete inputs.
use production_local_llm_inf.Prelude.{
  ◌≡◌, ap, ◌∙◌, refl, true, false, none, some, [], ◌∷◌, inl, elem, all, concat,
}
use mathlib.Core.Path.{subst}
use production_local_llm_inf.Prelude.Int.{ℤ, pos}
use production_local_llm_inf.Prelude.Float.{milli_float, Milli-IsOrdered, argmax_from, fmax}
use production_local_llm_inf.Prelude.Dict.{get, put, remove, move_to_end}
use production_local_llm_inf.Prelude.Bounded.{trim}
use production_local_llm_inf.Prelude.Result.{ok}
use production_local_llm_inf.Models.{RouteDecision, Remark, quality_for, prompt}
use production_local_llm_inf.Models.Enums.{PrivacyClass, TaskClass, LatencyTier}
use production_local_llm_inf.Routing.Router.{estimated_tokens}
use production_local_llm_inf.Routing.Select.{select}
use production_local_llm_inf.Resilience.Breaker.{allow}
use production_local_llm_inf.Admission.Slots.{new_controller, acquire}
use production_local_llm_inf.Admission.Quota.{consume}
use production_local_llm_inf.Caching.Store.{new_store, fetch}
use production_local_llm_inf.Dispatch.{EngineFailure, local_engine, external_provider, target}
use production_local_llm_inf.Engine.Load.{observe_queue, engine_saturation, queue_ms}
use production_local_llm_inf.Resilience.Backend.{report}
use production_local_llm_inf.Caching.Decisions.{recall, remember, observe}
use production_local_llm_inf.Gateway.State.{
  Ending, fails, Reply, engine_failed, outside_at, router_of, terms_of, Platform, Gateway, Ticket,
  finished, waiting, calling,
}
use production_local_llm_inf.Gateway.Receive.{
  ticket_of, consume_quota, recall_task, note_route, routed, route_task, after_lookup, after_quota,
  receive,
}
use production_local_llm_inf.Gateway.Caches.{
  lookup_cache, after_exact, lookup_semantic, declared_eligible, record_canary,
}
use production_local_llm_inf.Caching.Keys.{exact_cache_eligible, semantic_cache_eligible}
use production_local_llm_inf.Gateway.Calls.{
  enter, ended, engine_ends, fallback_route, first_failed, fall_back, send,
}
use production_local_llm_inf.Gateway.Traffic.{
  World, Step, arrives, enters, ends, Reach, here, next, put_back,
}
use production_local_llm_inf.Tests.Data.{outside_model}
use production_local_llm_inf.Gateway.Once.{Reach-fallback}
use production_local_llm_inf.Tests.Data.{local_model}
use production_local_llm_inf.Tests.Gateways.{
  platform, idle, arrival, charged_gateway, nobody, decision, waiting_gateway, half_open_circuit,
}

abbrev two_engines : Platform ℤ
two_engines = record platform {
  profiles =
      record local_model { quality = pos 990 } ∷ record outside_model { quality = pos 800 } ∷ [];
}

abbrev ticket : Ticket ℤ
ticket = ticket_of two_engines arrival

abbrev first : RouteDecision ℤ
first = record decision {
  profile = record local_model { quality = pos 990 };
  reason = Remark.selected 2 TaskClass.general PrivacyClass.public LatencyTier.standard ∷ [];
  score = pos 107000;
  candidate_count = 2;
}

abbrev second : RouteDecision ℤ
second = record decision {
  profile = record outside_model { quality = pos 800 };
  reason =
      Remark.selected 1 TaskClass.general PrivacyClass.public LatencyTier.standard
      ∷ Remark.fell_back_from "small"
      ∷ [];
  score = pos 88000;
}

abbrev serving_gateway : Gateway ℤ
serving_gateway = record waiting_gateway {
  load = record idle.load { queue = ("small", pos 100000) ∷ [] };
  admission = record { permits = 3; in_flight = 1; idle = false };
  local_circuit = record half_open_circuit { trial_in_flight = true };
}

abbrev failing_gateway : Gateway ℤ
failing_gateway = record serving_gateway {
  local_circuit = record half_open_circuit {
    failures = 6;
    opened_at = some (pos 1200);
    half_open = false;
  };
}

abbrev fallback_gateway : Gateway ℤ
fallback_gateway = record failing_gateway {
  external_circuit = record half_open_circuit { trial_in_flight = true };
}

abbrev received : World ℤ
received = put_back [] [] (waiting_gateway, waiting ticket first)

abbrev entered : World ℤ
entered = put_back [] [] (serving_gateway, calling ticket first local_engine false)

abbrev fallen_back : World ℤ
fallen_back = put_back [] [] (fallback_gateway, calling ticket second external_provider true)

charges : consume_quota two_engines arrival ticket idle ≡ (charged_gateway, true)
unfolding consume_quota consume get put ticket_of
charges = refl

misses : lookup_cache two_engines (pos 1000) ticket charged_gateway ≡ (charged_gateway, none)
unfolding lookup_cache after_exact lookup_semantic declared_eligible fetch get new_store elem
    ticket_of exact_cache_eligible semantic_cache_eligible
misses = refl

recalls : recall_task two_engines ticket charged_gateway ≡ (charged_gateway, none)
unfolding recall_task recall get
recalls = refl

selects :
    select
      (outside_at two_engines (pos 1000))
      (router_of two_engines charged_gateway)
      ticket.payload
      (terms_of two_engines ticket none
        (concat ticket.subject (concat "|" (prompt ticket.payload)))
        none)
    ≡ ok first
unfolding select elem all estimated_tokens prompt quality_for argmax_from fmax get router_of
    terms_of ticket_of engine_saturation queue_ms
selects = refl

notes : note_route two_engines ticket first charged_gateway ≡ waiting_gateway
unfolding note_route remember observe put get trim prompt ticket_of move_to_end remove
notes = refl

receives : receive two_engines arrival idle ≡ (waiting_gateway, waiting ticket first)
unfolding receive after_quota after_lookup route_task routed
receives =
    ap (after_quota two_engines (pos 1000) ticket) charges
    ∙ ap (after_lookup two_engines (pos 1000) ticket) misses
    ∙ ap (route_task two_engines (pos 1000) ticket) recalls
    ∙ ap (routed two_engines ticket charged_gateway) selects
    ∙ ap (λ g. (g, waiting ticket first)) notes

admits :
    enter two_engines (pos 1100) ticket first waiting_gateway
    ≡ (serving_gateway, calling ticket first local_engine false)
unfolding enter acquire get allow target new_controller ticket_of observe_queue put
admits = refl

selects_again : fallback_route two_engines (pos 1200) ticket first failing_gateway ≡ some second
unfolding fallback_route select elem all estimated_tokens prompt quality_for argmax_from fmax get
    router_of terms_of ticket_of engine_saturation queue_ms
selects_again = refl

falls_back :
    engine_ends two_engines
      (pos 1200)
      ticket
      first
      local_engine
      false
      (fails EngineFailure.backend_unavailable)
      serving_gateway
    ≡ (fallback_gateway, calling ticket second external_provider true)
unfolding engine_ends ended first_failed record_canary report fall_back send target ticket_of allow
falls_back =
    ap
      (fall_back (pos 1200) ticket (engine_failed EngineFailure.backend_unavailable)
        failing_gateway)
      selects_again

received-Reach : Reach two_engines nobody received
received-Reach =
    next here
      (subst (λ r. Step two_engines nobody (put_back [] [] r)) receives (arrives nobody arrival))

entered-Reach : Reach two_engines nobody entered
entered-Reach = next received-Reach (
    subst (λ r. Step two_engines received (put_back [] [] r)) admits
      (enters received [] [] (pos 1100) ticket first refl))

fallen_back-Reach : Reach two_engines nobody fallen_back
fallen_back-Reach = next entered-Reach (
    subst (λ r. Step two_engines entered (put_back [] [] r)) falls_back
      (ends entered [] [] (pos 1200) ticket first local_engine false
        (fails EngineFailure.backend_unavailable) refl refl))

Reach-fallback_example :
    (external_provider ≡ external_provider)
    × ((now : ℤ) (ending : Ending)
        → (reply : Reply ℤ) × ((engine_ends two_engines now ticket second external_provider true
              ending fallen_back.gateway).1
            ≡ finished reply))
Reach-fallback_example =
    Reach-fallback Milli-IsOrdered two_engines idle fallen_back ticket second external_provider
      fallen_back-Reach (inl refl)
