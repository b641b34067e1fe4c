-- ===== src/Dispatch.antt =====
-- `DispatchingBackend` of src/llm_router/backends.py, and what it does with a routed decision.
use text.Mathlib.Text.{find?}
use production_local_llm_inf.Prelude.{
  ◌≡◌, ◌≢◌, ◌⊎◌, Bool, true, not, [], ◌∷◌, String, any, is_some, ◌==◌, string_eq, if◌then◌else◌,
  arith,
}
use production_local_llm_inf.Prelude.Float.{Float, IsOrdered}
use production_local_llm_inf.Prelude.Result.{Result, ok, raise}
use production_local_llm_inf.Models.{ChatCompletionRequest, RouteDecision, or_else}
use production_local_llm_inf.Models.Enums.{PrivacyClass, privacy_eq, privacy_beq_iff}
use production_local_llm_inf.Routing.Router.{Outside, Router, Terms}
use production_local_llm_inf.Routing.Select.{select}
use production_local_llm_inf.Routing.Selection.{select_private_stays_local}

pub data EngineFailure : Type 0 where
  out_of_memory : EngineFailure
  backend_unavailable : EngineFailure

-- `engine_failure`: the class of an error response, by its body in lower case.
unfoldable pub engine_failure : (String → String) → String → EngineFailure
engine_failure lower body =
    if any (λ marker. is_some (find? (lower body) marker))
      ("out of memory" ∷ "outofmemoryerror" ∷ "cuda oom" ∷ [])
    then EngineFailure.out_of_memory
    else EngineFailure.backend_unavailable

-- The truth of a string is that it is not empty.
unfoldable pub served_model_name : {F : Type 0} → RouteDecision F → String
served_model_name decision =
    let id = or_else decision.adapter_id "" in if id == "" then decision.profile.id else id

pub data DispatchError : Type 0 where
  dispatch_refused : PrivacyClass → DispatchError
  no_provider : DispatchError

-- The engine a prompt is sent to.
pub data Engine : Type 0 where
  local_engine : Engine
  external_provider : Engine

module _ {F : Type 0} where
  unfoldable pub target :
      Bool → ChatCompletionRequest F → RouteDecision F → Result DispatchError Engine
  target has_external request decision =
      if decision.profile.local
      then ok local_engine
      else if not (request.routing.privacy == PrivacyClass.public)
      then raise (dispatch_refused request.routing.privacy)
      else if not has_external
      then raise no_provider
      else ok external_provider

  -- Whatever model a decision names, a prompt that is not public is sent to the local engine or
  -- refused.
  pub target-private :
      (has_external : Bool) (request : ChatCompletionRequest F) (decision : RouteDecision F)
      → request.routing.privacy ≢ PrivacyClass.public
      → (target has_external request decision ≡ ok local_engine)
        ⊎ (target has_external request decision ≡ raise (dispatch_refused request.routing.privacy))
  unfolding target
  target-private has_external request decision h =
      ground (arith, privacy_beq_iff request.routing.privacy PrivacyClass.public)

  -- A decision that the router made is never refused for its privacy class: it reaches the local
  -- engine, or a provider outside, or there is no provider configured.
  pub target-select :
      ⦃f : Float F⦄ (laws : IsOrdered F) (has_external : Bool) (outside : Outside F)
      (router : Router F) (request : ChatCompletionRequest F) (terms : Terms F)
      {d : RouteDecision F}
      → select outside router request terms ≡ ok d
      → ((target has_external request d ≡ ok local_engine) × (d.profile.local ≡ true))
        ⊎ ((target has_external request d
              ≡ (if has_external then ok external_provider else raise no_provider))
            × (request.routing.privacy ≡ PrivacyClass.public)
            × (terms.tenant_allows_external ≡ true)
            × (request.routing.allow_external_fallback ≡ true))
  unfolding target
  target-select laws has_external outside router request terms h = ground (
    arith,
    select_private_stays_local outside router request terms laws h,
    privacy_beq_iff request.routing.privacy PrivacyClass.public,
  )
