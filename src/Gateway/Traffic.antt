-- ===== src/Gateway/Traffic.antt =====
-- Requests interleave at the waits of `_complete` of src/llm_router/app.py: a step is one stretch of
-- one request, over the state that they share.
use production_local_llm_inf.Prelude.{◌≡◌, Bool, true, Option, String, List, [], ◌∷◌, ◌++◌}
use production_local_llm_inf.Prelude.Float.{Float}
use production_local_llm_inf.Models.{RouteDecision}
use production_local_llm_inf.Engine.Load.{EngineStats}
use production_local_llm_inf.Dispatch.{Engine}
use production_local_llm_inf.Gateway.State.{
  Platform, Gateway, Ticket, Stage, finished, waiting, calling, streaming, finishing, Ending,
  failed, call_failed, call_interrupted,
}
use production_local_llm_inf.Gateway.Receive.{Arrival, receive}
use production_local_llm_inf.Gateway.Watch.{shut_down, readiness, prometheus_metrics}
use production_local_llm_inf.Gateway.Streams.{
  StreamEnd, ran_out, fits, stream_begins, stream_flows, stream_stops, stream_delivered,
}
use production_local_llm_inf.Gateway.Calls.{give_up, enter, engine_ends}

pub record World (F : Type 0) : Type 0 where
  pub gateway : Gateway F
  pub requests : List (Stage F)

module _ {F : Type 0} ⦃f : Float F⦄ where
  -- The world after one request's stretch.
  abbrev pub put_back : List (Stage F) → List (Stage F) → Gateway F × Stage F → World F
  put_back before after (g, stage) = record { gateway = g; requests = before ++ stage ∷ after }

  abbrev pub with_gateway : Gateway F → World F → World F
  with_gateway g w = record w { gateway = g }

  -- A request arrives; a wait for a slot ends, with the slot or the time-out; a request is cancelled
  -- while it waits; an engine ends a call; a stream begins, or ends without a delta, passes a delta on,
  -- comes to an end, is delivered to the last chunk, or loses its client before that; the gateway is
  -- probed, scraped or told to stop.
  pub data Step (p : Platform F) : World F → World F → Type 0 where
    arrives :
        (w : World F) (a : Arrival F) → Step p w (put_back [] w.requests (receive p a w.gateway))
    enters :
        (w : World F) (before after : List (Stage F)) (now : F) (t : Ticket F) (d : RouteDecision F)
        → w.requests ≡ before ++ waiting t d ∷ after
        → Step p w (put_back before after (enter p now t d w.gateway))
    leaves :
        (w : World F) (before after : List (Stage F)) (t : Ticket F) (d : RouteDecision F)
        → w.requests ≡ before ++ waiting t d ∷ after
        → Step p w
            (put_back before after (w.gateway, finished (failed (call_failed call_interrupted))))
    ends :
        (w : World F) (before after : List (Stage F)) (now : F) (t : Ticket F) (d : RouteDecision F)
        (engine : Engine) (is_fallback : Bool) (ending : Ending)
        → fits t ending ≡ true
        → w.requests ≡ before ++ calling t d engine is_fallback ∷ after
        → Step p w
            (put_back before after (engine_ends p now t d engine is_fallback ending w.gateway))
    begins :
        (w : World F) (before after : List (Stage F)) (t : Ticket F) (d : RouteDecision F)
        (engine : Engine) (is_fallback : Bool) (first : String)
        → t.payload.stream ≡ true
        → w.requests ≡ before ++ calling t d engine is_fallback ∷ after
        → Step p w (put_back before after (stream_begins t d engine first w.gateway))
    yields_nothing :
        (w : World F) (before after : List (Stage F)) (now : F) (t : Ticket F) (d : RouteDecision F)
        (engine : Engine) (is_fallback : Bool)
        → t.payload.stream ≡ true
        → w.requests ≡ before ++ calling t d engine is_fallback ∷ after
        → Step p w (put_back before after (stream_stops now t d engine [] ran_out w.gateway))
    flows :
        (w : World F) (before after : List (Stage F)) (t : Ticket F) (d : RouteDecision F)
        (engine : Engine) (collected : List String) (delta : String)
        → w.requests ≡ before ++ streaming t d engine collected ∷ after
        → Step p w (put_back before after (stream_flows t d engine collected delta w.gateway))
    dries :
        (w : World F) (before after : List (Stage F)) (now : F) (t : Ticket F) (d : RouteDecision F)
        (engine : Engine) (collected : List String) (end : StreamEnd)
        → w.requests ≡ before ++ streaming t d engine collected ∷ after
        → Step p w (put_back before after (stream_stops now t d engine collected end w.gateway))
    delivers :
        (w : World F) (before after : List (Stage F)) (now : F) (t : Ticket F) (d : RouteDecision F)
        (collected : List String)
        → w.requests ≡ before ++ finishing t d collected ∷ after
        → Step p w (put_back before after (stream_delivered p now t d collected w.gateway))
    drops :
        (w : World F) (before after : List (Stage F)) (t : Ticket F) (d : RouteDecision F)
        (collected : List String)
        → w.requests ≡ before ++ finishing t d collected ∷ after
        → Step p w (put_back before after (give_up call_interrupted w.gateway))
    probes :
        (w : World F) (now : F) (engine_healthy : Bool)
        → Step p w (with_gateway (readiness now engine_healthy w.gateway).0 w)
    scrapes :
        (w : World F) (now : F) (stats : Option (EngineStats F))
        → Step p w (with_gateway (prometheus_metrics now stats w.gateway) w)
    stops : (w : World F) → Step p w (with_gateway (shut_down w.gateway) w)

  pub data Reach (p : Platform F) (start : World F) : World F → Type 0 where
    here : Reach p start start
    next : {v w : World F} → Reach p start v → Step p v w → Reach p start w
