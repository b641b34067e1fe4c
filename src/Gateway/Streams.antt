-- ===== src/Gateway/Streams.antt =====
-- A response that streams, in src/llm_router/app.py: `_stream_completion` and its lease, between the
-- first delta and the end of the response.
use Prim.Native.String.{count}
use production_local_llm_inf.Prelude.{
  ◌/◌, max, Bool, true, false, not, none, String, List, [], ◌∷◌, ◌++◌,
}
use production_local_llm_inf.Prelude.Float.{Float}
use production_local_llm_inf.Models.{RouteDecision, join, prompt}
use production_local_llm_inf.Resilience.Backend.{
  Outcome, returned, unavailable, interrupted, report,
}
use production_local_llm_inf.Dispatch.{Engine, EngineFailure}
use production_local_llm_inf.Gateway.State.{
  Platform, Gateway, Ticket, Stage, finished, streaming, finishing, completed, failed, call_failed,
  engine_failed, call_interrupted, BackendResult, Ending, answered, circuit_of, with_circuit,
}
use production_local_llm_inf.Gateway.Caches.{store_cache, record_canary}
use production_local_llm_inf.Gateway.Calls.{release_slot, validity}

-- How the deltas end: the engine has no more, it fails, or the client leaves; any other exception
-- ends them as the last does.
pub data StreamEnd : Type 0 where
  ran_out : StreamEnd
  broke : EngineFailure → StreamEnd
  client_left : StreamEnd

abbrev pub stream_outcome : StreamEnd → Outcome Unit
stream_outcome ran_out = returned tt
stream_outcome (broke failure) = unavailable
stream_outcome client_left = interrupted

module _ {F : Type 0} where
  -- Only a request that does not stream is answered with a whole result.
  abbrev pub fits : Ticket F → Ending → Bool
  fits ticket (answered result) = not ticket.payload.stream
  fits ticket _ = true

  -- The first delta is drawn before the response begins.
  unfoldable pub stream_begins :
      Ticket F → RouteDecision F → Engine → String → Gateway F → Gateway F × Stage F
  stream_begins ticket decision engine first g = (g, streaming ticket decision engine (first ∷ []))

  unfoldable pub stream_flows :
      Ticket F → RouteDecision F → Engine → List String → String → Gateway F → Gateway F × Stage F
  stream_flows ticket decision engine collected delta g =
      (g, streaming ticket decision engine (collected ++ delta ∷ []))

  -- Tokens are counted as a quarter of the characters.
  unfoldable pub streamed_result : Ticket F → List String → BackendResult
  streamed_result ticket collected =
      let text_ = join "" collected in
      record {
        text_ = text_;
        prompt_tokens = max 1 (count (prompt ticket.payload) / 4);
        completion_tokens = max 1 (count text_ / 4);
        finish_reason = "stop";
      }

module _ {F : Type 0} ⦃f : Float F⦄ where
  -- A failure after the first delta has no fallback: tokens have been sent.
  unfoldable pub stopped :
      F → Ticket F → RouteDecision F → List String → StreamEnd → Gateway F → Gateway F × Stage F
  unfolding release_slot
  stopped now ticket decision collected ran_out g = (g, finishing ticket decision collected)
  stopped now ticket decision collected (broke failure) g = (
    release_slot (record_canary now ticket decision false none g),
    finished (failed (call_failed (engine_failed failure))),
  )
  stopped now ticket decision collected client_left g =
      (release_slot g, finished (failed (call_failed call_interrupted)))

  -- The engine's circuit hears of the end first. A stream without a first delta ends here too.
  unfoldable pub stream_stops :
      F
      → Ticket F
      → RouteDecision F
      → Engine
      → List String
      → StreamEnd
      → Gateway F
      → Gateway F × Stage F
  unfolding stopped
  stream_stops now ticket decision engine collected end g =
      stopped now ticket decision collected end
        (with_circuit engine (report now (stream_outcome end) (circuit_of engine g)) g)

  -- The client has taken the last chunk.
  unfoldable pub stream_delivered :
      Platform F → F → Ticket F → RouteDecision F → List String → Gateway F → Gateway F × Stage F
  unfolding release_slot
  stream_delivered p now ticket decision collected g =
      let result = streamed_result ticket collected in
      (
        release_slot (
            store_cache p now ticket decision result
              (record_canary now ticket decision true (validity p ticket result) g)),
        finished (completed decision result),
      )
