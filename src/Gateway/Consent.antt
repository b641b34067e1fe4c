-- ===== src/Gateway/Consent.antt =====
-- Whose prompts leave the gateway of src/llm_router/app.py.
use production_local_llm_inf.Prelude.{
  ◌≡◌, refl, sym, ◌∙◌, true, false, Option, none, some, [], ◌∈◌, arith,
}
use mathlib.Core.Path.{subst}
use production_local_llm_inf.Prelude.Float.{Float, IsOrdered}
use production_local_llm_inf.Models.Enums.{PrivacyClass}
use production_local_llm_inf.Registry.Records.{TenantRecord}
use production_local_llm_inf.Dispatch.{local_engine, external_provider}
use production_local_llm_inf.Gateway.State.{
  Platform, Gateway, Ticket, Stage, finished, waiting, calling, streaming, finishing,
  allows_external, denies,
}
use production_local_llm_inf.Gateway.Receive.{Arrival, ticket_of, entitlement, effective_payload}
use production_local_llm_inf.Gateway.Traffic.{World, Reach}
use production_local_llm_inf.Gateway.Privacy.{IsAgreed, IsSafe, IsSent}
use production_local_llm_inf.Gateway.Floor.{
  strictest_privacy-public, privacy-effective_payload, allow-effective_payload,
}
use production_local_llm_inf.Gateway.Outside.{Reach-AllSafe}

module _ {F : Type 0} ⦃f : Float F⦄ (laws : IsOrdered F) (p : Platform F) where
  -- What a ticket that is cleared to leave says of its arrival.
  abbrev pub IsConsenting : Arrival F → Type 0
  IsConsenting a =
      (a.declared.routing.privacy ≡ PrivacyClass.public)
      × (a.declared.routing.allow_external_fallback ≡ true)
      × ((tenant : TenantRecord F)
          → entitlement p a.tenant_id ≡ some tenant
          → (tenant.minimum_privacy ≡ PrivacyClass.public)
            × (denies tenant.allow_external_fallback ≡ false))

  effective_payload-IsConsenting :
      (a : Arrival F) (owner : Option (TenantRecord F))
      → entitlement p a.tenant_id ≡ owner
      → (effective_payload owner a.declared).routing.privacy ≡ PrivacyClass.public
      → (effective_payload owner a.declared).routing.allow_external_fallback ≡ true
      → allows_external owner ≡ true
      → IsConsenting a
  unfolding effective_payload
  effective_payload-IsConsenting a none e public_ allowed tenant_allows =
      (public_, allowed, λ tenant e'. ground arith)
  effective_payload-IsConsenting a (some owner) e public_ allowed tenant_allows =
      let (declared_public, floor_public) =
        strictest_privacy-public _ _ (sym (privacy-effective_payload owner a.declared) ∙ public_) in
      (
        declared_public,
        sym (allow-effective_payload (some owner) a.declared) ∙ allowed,
        λ tenant e'. ground arith,
      )

  ticket_of-IsConsenting :
      (t : Ticket F) (a : Arrival F)
      → t ≡ ticket_of p a
      → IsAgreed p t
      → (p.external_fallback_enabled ≡ true) × IsConsenting a
  unfolding ticket_of
  ticket_of-IsConsenting t a e agreed =
      let (public_, operator, tenant_allows, allowed) : IsAgreed p (ticket_of p a) =
        subst (λ x. IsAgreed p x) e agreed in
      (
        operator,
        effective_payload-IsConsenting a (entitlement p a.tenant_id) refl public_ allowed
            tenant_allows,
      )

  -- The provider outside works on the ticket's prompt.
  abbrev pub IsOutside : Ticket F → Stage F → Type 0
  IsOutside t (calling u d external_provider is_fallback) = t ≡ u
  IsOutside t (calling u d local_engine is_fallback) = ⊥
  IsOutside t (streaming u d external_provider collected) = t ≡ u
  IsOutside t (streaming u d local_engine collected) = ⊥
  IsOutside t (finishing u d collected) = ⊥
  IsOutside t (waiting u d) = ⊥
  IsOutside t (finished reply) = ⊥

  IsOutside-IsSent :
      (t : Ticket F) (s : Stage F) → IsOutside t s → IsSafe p s → IsSent p t external_provider
  IsOutside-IsSent t (calling u d external_provider is_fallback) e safe =
      subst (λ x. IsSent p x external_provider) (sym e) safe.0
  IsOutside-IsSent t (calling u d local_engine is_fallback) e safe = absurd e
  IsOutside-IsSent t (streaming u d external_provider collected) e safe =
      subst (λ x. IsSent p x external_provider) (sym e) safe
  IsOutside-IsSent t (streaming u d local_engine collected) e safe = absurd e
  IsOutside-IsSent t (finishing u d collected) e safe = absurd e
  IsOutside-IsSent t (waiting u d) e safe = absurd e
  IsOutside-IsSent t (finished reply) e safe = absurd e

  -- However requests, streaming or not, interleave, a prompt that is with the provider outside, on the
  -- first attempt or on the fallback, came with an arrival declared public whose caller allows a
  -- model outside, at a gateway whose operator allows it; and the tenant, where the catalog knows it,
  -- keeps its own floor at public and does not forbid it.
  pub Reach-IsConsenting :
      (g : Gateway F) (w : World F) (t : Ticket F) (s : Stage F)
      → Reach p (record { gateway = g; requests = [] }) w
      → s ∈ w.requests
      → IsOutside t s
      → (a : Arrival F) × (t ≡ ticket_of p a)
        × (p.external_fallback_enabled ≡ true)
        × IsConsenting a
  Reach-IsConsenting g w t s reach m is_outside =
      let ((a, is_ticket), agreed) =
        IsOutside-IsSent t s is_outside (Reach-AllSafe laws p g w reach s m) in
      let (operator, consent) = ticket_of-IsConsenting t a is_ticket agreed in
      (a, is_ticket, operator, consent)
