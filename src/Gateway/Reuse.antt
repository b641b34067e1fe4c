-- ===== src/Gateway/Reuse.antt =====
-- What the caches of src/llm_router/app.py keep of a request, and whom they answer.
use production_local_llm_inf.Prelude.{
  ◌≡◌, refl, ◌∙◌, ◌⊎◌, inl, inr, false, Option, none, some, arith,
}
use production_local_llm_inf.Prelude.Float.{Float}
use production_local_llm_inf.Models.{ChatCompletionRequest, RouteDecision}
use production_local_llm_inf.Models.Enums.{PrivacyClass, TaskClass, privacy_beq_iff}
use production_local_llm_inf.Registry.Records.{TenantRecord}
use production_local_llm_inf.Caching.Keys.{exact_cache_eligible, semantic_cache_eligible}
use production_local_llm_inf.Gateway.State.{Platform, Gateway, Ticket, BackendResult}
use production_local_llm_inf.Gateway.Caches.{
  lookup_semantic, declared_eligible, lookup_cache, store_cache,
}
use production_local_llm_inf.Gateway.Receive.{Arrival, ticket_of, entitlement, effective_payload}
use production_local_llm_inf.Gateway.Floor.{
  strictest_privacy-restricted, privacy-effective_payload, effective_payload-restricted,
}

module _ {F : Type 0} ⦃f : Float F⦄ where
  exact_cache_eligible-restricted :
      (payload : ChatCompletionRequest F)
      → payload.routing.privacy ≡ PrivacyClass.restricted
      → exact_cache_eligible payload ≡ false
  unfolding exact_cache_eligible
  exact_cache_eligible-restricted payload h =
      ground (arith, privacy_beq_iff payload.routing.privacy PrivacyClass.restricted)

  semantic_cache_eligible-restricted :
      (payload : ChatCompletionRequest F) (task : TaskClass)
      → payload.routing.privacy ≡ PrivacyClass.restricted
      → semantic_cache_eligible payload task ≡ false
  unfolding semantic_cache_eligible
  semantic_cache_eligible-restricted payload task h =
      ground (arith, privacy_beq_iff payload.routing.privacy PrivacyClass.public)

  declared_eligible-restricted :
      (payload : ChatCompletionRequest F) (task : Option TaskClass)
      → payload.routing.privacy ≡ PrivacyClass.restricted
      → declared_eligible payload task ≡ false
  unfolding declared_eligible
  declared_eligible-restricted payload none h = refl
  declared_eligible-restricted payload (some task) h =
      semantic_cache_eligible-restricted payload task h

  lookup_cache-restricted :
      (p : Platform F) (now : F) (t : Ticket F) (g : Gateway F)
      → t.payload.routing.privacy ≡ PrivacyClass.restricted
      → lookup_cache p now t g ≡ (g, none)
  unfolding lookup_cache lookup_semantic
  lookup_cache-restricted p now t g h =
      rw
        (
          exact_cache_eligible-restricted t.payload h,
          declared_eligible-restricted t.payload t.payload.routing.task h,
        )
        (ground arith)

  store_cache-restricted :
      (p : Platform F) (now : F) (t : Ticket F) (d : RouteDecision F) (result : BackendResult)
      (g : Gateway F)
      → t.payload.routing.privacy ≡ PrivacyClass.restricted
      → store_cache p now t d result g ≡ g
  unfolding store_cache
  store_cache-restricted p now t d result g h =
      rw
        (
          exact_cache_eligible-restricted t.payload h,
          semantic_cache_eligible-restricted t.payload d.task h,
        )
        (ground arith)

  ticket_of-restricted :
      (p : Platform F) (a : Arrival F)
      → (a.declared.routing.privacy ≡ PrivacyClass.restricted)
        ⊎ ((tenant : TenantRecord F) × (entitlement p a.tenant_id ≡ some tenant)
            × (tenant.minimum_privacy ≡ PrivacyClass.restricted))
      → (ticket_of p a).payload.routing.privacy ≡ PrivacyClass.restricted
  unfolding ticket_of effective_payload
  ticket_of-restricted p a (inr (tenant, e, floor)) =
      rw (e)
        (privacy-effective_payload tenant a.declared ∙ strictest_privacy-restricted _ _ (inr floor))
  ticket_of-restricted p a (inl declared) =
      effective_payload-restricted (entitlement p a.tenant_id) a.declared declared

  -- A request that is declared restricted, or whose tenant's floor is restricted whatever it declares, is
  -- answered from neither cache, and its answer is put in neither.
  pub ticket_of-cached :
      (p : Platform F) (a : Arrival F)
      → (a.declared.routing.privacy ≡ PrivacyClass.restricted)
        ⊎ ((tenant : TenantRecord F) × (entitlement p a.tenant_id ≡ some tenant)
            × (tenant.minimum_privacy ≡ PrivacyClass.restricted))
      → (now : F) (d : RouteDecision F) (result : BackendResult) (g : Gateway F)
      → (lookup_cache p now (ticket_of p a) g ≡ (g, none))
        × (store_cache p now (ticket_of p a) d result g ≡ g)
  ticket_of-cached p a h now d result g =
      let restricted_one = ticket_of-restricted p a h in
      (
        lookup_cache-restricted p now (ticket_of p a) g restricted_one,
        store_cache-restricted p now (ticket_of p a) d result g restricted_one,
      )
