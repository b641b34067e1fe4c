-- ===== src/Gateway/Floor.antt =====
-- The privacy floor of a tenant, in `_complete` of src/llm_router/app.py.
use production_local_llm_inf.Prelude.{◌≡◌, refl, ◌∙◌, ◌⊎◌, inl, Option, none, some, String, arith}
use production_local_llm_inf.Models.{ChatCompletionRequest}
use production_local_llm_inf.Models.Enums.{PrivacyClass, privacy_beq_iff}
use production_local_llm_inf.Registry.Records.{TenantRecord}
use production_local_llm_inf.Registry.Catalog.{strictest_privacy}
use production_local_llm_inf.Gateway.Receive.{effective_payload}

pub strictest_privacy-public :
    (l r : PrivacyClass)
    → strictest_privacy l r ≡ PrivacyClass.public
    → (l ≡ PrivacyClass.public) × (r ≡ PrivacyClass.public)
unfolding strictest_privacy
strictest_privacy-public l r h = ground arith

pub strictest_privacy-restricted :
    (l r : PrivacyClass)
    → (l ≡ PrivacyClass.restricted) ⊎ (r ≡ PrivacyClass.restricted)
    → strictest_privacy l r ≡ PrivacyClass.restricted
unfolding strictest_privacy
strictest_privacy-restricted l r h = ground arith

module _ {F : Type 0} where
  pub privacy-effective_payload :
      (tenant : TenantRecord F) (payload : ChatCompletionRequest F)
      → (effective_payload (some tenant) payload).routing.privacy
        ≡ strictest_privacy payload.routing.privacy tenant.minimum_privacy
  unfolding effective_payload
  privacy-effective_payload tenant payload = ground (
    arith,
    privacy_beq_iff (strictest_privacy payload.routing.privacy tenant.minimum_privacy)
        payload.routing.privacy,
  )

  pub allow-effective_payload :
      (owner : Option (TenantRecord F)) (payload : ChatCompletionRequest F)
      → (effective_payload owner payload).routing.allow_external_fallback
        ≡ payload.routing.allow_external_fallback
  unfolding effective_payload
  allow-effective_payload none payload = refl
  allow-effective_payload (some tenant) payload = ground arith

  pub effective_payload-restricted :
      (owner : Option (TenantRecord F)) (payload : ChatCompletionRequest F)
      → payload.routing.privacy ≡ PrivacyClass.restricted
      → (effective_payload owner payload).routing.privacy ≡ PrivacyClass.restricted
  unfolding effective_payload
  effective_payload-restricted none payload h = h
  effective_payload-restricted (some tenant) payload h =
      privacy-effective_payload tenant payload ∙ strictest_privacy-restricted _ _ (inl h)

  pub effective_payload-model :
      (owner : Option (TenantRecord F)) (payload : ChatCompletionRequest F) (model : String)
      → effective_payload owner (record payload { model = model })
        ≡ record (effective_payload owner payload) { model = model }
  unfolding effective_payload
  effective_payload-model none payload model = refl
  effective_payload-model (some tenant) payload model = ground arith
