-- ===== src/Registry/Consistency.antt =====
-- A catalog that loads is consistent: `Registry.validate_references` and the records' validators.
use production_local_llm_inf.Prelude.{
  ◌≤◌, ◌≡◌, refl, Bool, true, false, not, Option, none, some, List, [], ◌∷◌, String, ap, ◌∙◌,
  if◌then◌else◌, arith, elem, elem_iff, filter, filter-mem, length, Bool-cases, inl, inr, ◌∈◌,
  mem-ne-nil, string_eq, pair_eq,
}
use production_local_llm_inf.Prelude.Float.{Float}
use production_local_llm_inf.Prelude.Result.{
  ok, raise_if, raise_if-ok, for_each, for_each-ok, >>=-eq-ok, >>-eq-ok,
}
use production_local_llm_inf.Models.Enums.{stage_eq}
use production_local_llm_inf.Registry.Records.{
  AdapterProfile, EngineVariant, VariantVerdict, TenantRecord, Registry, accepted,
}
use production_local_llm_inf.Registry.Catalog.{RegistryError, is_servable_stage}
use production_local_llm_inf.Registry.Verdict.{variant_verdict}
use production_local_llm_inf.Registry.Validate.{
  distinct, has_duplicates, bases, model_ids, check_adapter, check_draft, check_evidence,
  check_verdict, check_promotion, check_variant, check_tenant, validate_references,
}

-- No element stands twice.
abbrev pub IsNodup : List String → Type 0
IsNodup [] = Unit
IsNodup (x ∷ xs) = (elem x xs ≡ false) × IsNodup xs

length-distinct-le : (xs : List String) → length (distinct xs) ≤ length xs
unfolding distinct
length-distinct-le [] = omega arith
length-distinct-le (x ∷ xs) = ground (arith, length-distinct-le xs)

distinct-IsNodup : (xs : List String) → length (distinct xs) ≡ length xs → IsNodup xs
unfolding distinct
distinct-IsNodup [] h = tt
distinct-IsNodup (x ∷ xs) h = ground (arith, length-distinct-le xs, distinct-IsNodup xs)

has_duplicates-IsNodup : (xs : List String) → has_duplicates xs ≡ false → IsNodup xs
has_duplicates-IsNodup xs h = distinct-IsNodup xs (ground arith)

raise_if-not : (b : Bool) (error : RegistryError) → raise_if (not b) error ≡ ok tt → b ≡ true
raise_if-not b error h = ground (arith, raise_if-ok (not b) error h)

module _ {F : Type 0} ⦃f : Float F⦄ where
  pub record IsConsistent (registry : Registry F) : Type 0 where
    pub models_distinct : IsNodup (model_ids registry)
    pub adapter_bases :
        (a : AdapterProfile F)
        → a ∈ registry.adapters
        → (a.base_model_id, a.base_revision) ∈ bases registry
    pub variant_bases :
        (v : EngineVariant F)
        → v ∈ registry.variants
        → (v.base_model_id, v.base_revision) ∈ bases registry
    pub promoted_accepted :
        (v : EngineVariant F)
        → v ∈ registry.variants
        → is_servable_stage v.stage ≡ true
        → (verdict : VariantVerdict F) × (variant_verdict registry v ≡ ok (some verdict))
          × (accepted verdict ≡ true)
    pub tenants_known :
        (t : TenantRecord F)
        → t ∈ registry.tenants
        → (id : String) → id ∈ t.permitted_models
        → id ∈ model_ids registry

  module _ (registry : Registry F) where
    check_adapter-ok :
        (a : AdapterProfile F)
        → check_adapter registry a ≡ ok tt
        → (a.base_model_id, a.base_revision) ∈ bases registry
    unfolding check_adapter
    check_adapter-ok a h =
        let base : String × String = (a.base_model_id, a.base_revision) in
        ground (arith, raise_if-ok _ _ h, elem_iff base (bases registry))

    check_verdict-ok :
        (v : EngineVariant F) (o : Option (VariantVerdict F))
        → check_verdict v o ≡ ok tt
        → (verdict : VariantVerdict F) × (o ≡ some verdict) × (accepted verdict ≡ true)
    unfolding check_verdict
    check_verdict-ok v none h = cc
    check_verdict-ok v (some verdict) h = (verdict, refl, ground (arith, raise_if-ok _ _ h))

    check_promotion-ok :
        (v : EngineVariant F)
        → check_promotion registry v ≡ ok tt
        → is_servable_stage v.stage ≡ true
        → (verdict : VariantVerdict F) × (variant_verdict registry v ≡ ok (some verdict))
          × (accepted verdict ≡ true)
    unfolding check_promotion
    check_promotion-ok v h s =
        let (o, found, checked) =
          >>=-eq-ok (variant_verdict registry v) (check_verdict v) (rw (s, if◌then◌else◌) at h) in
        let (verdict, same, good) = check_verdict-ok v o checked in
        (verdict, found ∙ ap ok same, good)

    check_variant-ok :
        (v : EngineVariant F)
        → check_variant registry v ≡ ok tt
        → ((v.base_model_id, v.base_revision) ∈ bases registry)
          × (check_promotion registry v ≡ ok tt)
    unfolding check_variant
    check_variant-ok v h =
        let base : String × String = (v.base_model_id, v.base_revision) in
        let (known, h₁) = >>-eq-ok _ _ h in
        let (_, h₂) = >>-eq-ok (check_draft registry v v.draft_model_id) _ h₁ in
        let (_, h₃) = >>-eq-ok (check_evidence registry v) _ h₂ in
        ((elem_iff base (bases registry)).0 (raise_if-not (elem base (bases registry)) _ known), h₃)

    check_tenant-ok :
        (t : TenantRecord F)
        → check_tenant registry t ≡ ok tt
        → (id : String) → id ∈ t.permitted_models
        → id ∈ model_ids registry
    unfolding check_tenant
    check_tenant-ok t h id m =
        let unknown : String → Bool = λ x. not (elem x (model_ids registry)) in
        elim (Bool-cases (elem id (model_ids registry))) [
          | inl e ↦ (elem_iff id (model_ids registry)).0 e
          | inr e ↦ absurd (
              ground (
                arith,
                raise_if-ok _ _ h,
                mem-ne-nil (filter unknown t.permitted_models) id
                    (filter-mem unknown t.permitted_models id m (rw e)),
              ))
        ]

    -- A catalog whose references validate is consistent: no two models share an id, every adapter
    -- and every variant is bound to a model and revision of the catalog, every variant in staging
    -- or production has a verdict that accepts it, and tenants permit only models of the catalog.
    pub validate_references-IsConsistent :
        validate_references registry ≡ ok tt → IsConsistent registry
    unfolding validate_references
    validate_references-IsConsistent h =
        let (models, h₁) = >>-eq-ok _ _ h in
        let (adapters, h₂) = >>-eq-ok (for_each (check_adapter registry) registry.adapters) _ h₁ in
        let (_, h₃) = >>-eq-ok _ _ h₂ in
        let (variants, h₄) = >>-eq-ok (for_each (check_variant registry) registry.variants) _ h₃ in
        let (_, tenants) = >>-eq-ok _ _ h₄ in
        let variant_ok : (v : EngineVariant F)
            → v ∈ registry.variants
            → check_variant registry v ≡ ok tt =
          for_each-ok (check_variant registry) registry.variants variants in
        record {
          models_distinct = has_duplicates-IsNodup (model_ids registry) (raise_if-ok _ _ models);
          adapter_bases = λ a m.
              check_adapter-ok a
                (for_each-ok (check_adapter registry) registry.adapters adapters a m);
          variant_bases = λ v m. (check_variant-ok v (variant_ok v m)).0;
          promoted_accepted =
              λ v m s. check_promotion-ok v (check_variant-ok v (variant_ok v m)).1 s;
          tenants_known = λ t m.
              check_tenant-ok t (for_each-ok (check_tenant registry) registry.tenants tenants t m);
        }
