-- ===== src/Gateway/Leases.antt =====
-- The slot and the trial of a stream in src/llm_router/app.py, from stretch to stretch.
use production_local_llm_inf.Prelude.{ℕ, ◌+◌, refl, String, List, arith}
use production_local_llm_inf.Prelude.Float.{Float}
use production_local_llm_inf.Models.{RouteDecision}
use production_local_llm_inf.Admission.Slots.{release}
use production_local_llm_inf.Dispatch.{Engine}
use production_local_llm_inf.Gateway.State.{Platform, Gateway, Ticket}
use production_local_llm_inf.Gateway.Caches.{record_canary}
use production_local_llm_inf.Gateway.Streams.{
  StreamEnd, ran_out, broke, client_left, stream_outcome, stopped, stream_stops, stream_delivered,
}
use production_local_llm_inf.Gateway.Slots
use production_local_llm_inf.Gateway.Trials
use production_local_llm_inf.Gateway.Attempts.{same-After, circuits-store_cache}

module _ {F : Type 0} ⦃f : Float F⦄ (n k : ℕ) where
  stopped-Held :
      (now : F) (t : Ticket F) (d : RouteDecision F) (collected : List String) (end : StreamEnd)
      (g : Gateway F)
      → Slots.Before n k g
      → Slots.After n k (stopped now t d collected end g)
  unfolding stopped release record_canary
  stopped-Held now t d collected ran_out g h = h
  stopped-Held now t d collected (broke failure) g h = ground arith
  stopped-Held now t d collected client_left g h = ground arith

  pub stream_stops-Held :
      (now : F) (t : Ticket F) (d : RouteDecision F) (engine : Engine) (collected : List String)
      (end : StreamEnd) (g : Gateway F)
      → Slots.Before n k g
      → Slots.After n k (stream_stops now t d engine collected end g)
  unfolding stream_stops
  stream_stops-Held now t d engine collected end g h =
      stopped-Held now t d collected end _ (Slots.with_circuit-Before n k engine _ g h)

  pub stream_delivered-Held :
      (p : Platform F) (now : F) (t : Ticket F) (d : RouteDecision F) (collected : List String)
      (g : Gateway F)
      → Slots.Before n k g
      → Slots.After n k (stream_delivered p now t d collected g)
  unfolding stream_delivered release record_canary
  stream_delivered-Held p now t d collected g h =
      rw (Slots.store_cache-admission n k) (ground arith)

module _ {F : Type 0} ⦃f : Float F⦄ (subject : Engine) (k : ℕ) where
  stopped-Tried :
      (now : F) (t : Ticket F) (d : RouteDecision F) (collected : List String) (end : StreamEnd)
      (g : Gateway F)
      → Trials.Before subject k g
      → Trials.After subject k (stopped now t d collected end g)
  unfolding stopped record_canary
  stopped-Tried now t d collected ran_out g h =
      same-After subject k g (stopped now t d collected ran_out g) (refl, refl) h
  stopped-Tried now t d collected (broke failure) g h =
      same-After subject k g (stopped now t d collected (broke failure) g) (refl, refl) h
  stopped-Tried now t d collected client_left g h =
      same-After subject k g (stopped now t d collected client_left g) (refl, refl) h

  pub stream_stops-Tried :
      (now : F) (t : Ticket F) (d : RouteDecision F) (engine : Engine) (collected : List String)
      (end : StreamEnd) (g : Gateway F)
      → Trials.Before subject (k + Trials.one_if_same subject engine) g
      → Trials.After subject k (stream_stops now t d engine collected end g)
  unfolding stream_stops
  stream_stops-Tried now t d engine collected end g h =
      stopped-Tried now t d collected end _
        (Trials.report-Before subject engine k now (stream_outcome end) g h)

  pub stream_delivered-Tried :
      (p : Platform F) (now : F) (t : Ticket F) (d : RouteDecision F) (collected : List String)
      (g : Gateway F)
      → Trials.Before subject k g
      → Trials.After subject k (stream_delivered p now t d collected g)
  unfolding stream_delivered record_canary
  stream_delivered-Tried p now t d collected g h =
      same-After subject k g (stream_delivered p now t d collected g)
        (circuits-store_cache subject k p now t d _ _) h
