-- ===== src/Registry/Verdict.antt =====
-- `Registry.variant_verdict`: an engine variant against its baseline, every regression named.
use production_local_llm_inf.Prelude.{
  ◌≡◌, refl, true, false, not, Option, none, some, List, [], ◌∷◌, ◌++◌, String, ◌&&◌, if◌then◌else◌,
  arith, ◌↔◌, ◌⊎◌, Bool-cases, inl, inr,
}
use production_local_llm_inf.Prelude.Float.{Float, abs}
use production_local_llm_inf.Prelude.Result.{Result, ok, ◌>>=◌, >>=-eq-ok}
use production_local_llm_inf.Models.{or_else}
use production_local_llm_inf.Models.Enums.{VariantKind, variant_kind_eq}
use production_local_llm_inf.Registry.Records.{
  BenchmarkRun, EngineVariant, Regression, VariantVerdict, Registry, has_evidence, accepted,
}
use production_local_llm_inf.Registry.Catalog.{RegistryError, benchmark}

module _ {F : Type 0} ⦃f : Float F⦄ where
  -- `measured - baseline` where both runs measured memory.
  unfoldable pub memory_delta : Option F → Option F → Option F
  memory_delta (some measured) (some baseline) = some (f.sub measured baseline)
  memory_delta _ _ = none

  unfoldable pub quality_regression : EngineVariant F → F → List (Regression F)
  quality_regression variant quality_delta =
      if f.lt quality_delta (f.neg variant.quality_tolerance)
      then Regression.quality_fell (abs quality_delta) variant.quality_tolerance ∷ []
      else []

  unfoldable pub memory_regression : Option F → List (Regression F)
  memory_regression none = Regression.memory_not_measured ∷ []
  memory_regression (some delta) =
      if f.le (f.of_nat 0) delta then Regression.memory_not_reduced delta ∷ [] else []

  -- The `if`/`elif` chain on the variant's kind.
  unfoldable pub kind_regression : VariantKind → F → F → Option F → List (Regression F)
  kind_regression VariantKind.speculative_decoding latency_delta throughput_delta memory =
      if f.le (f.of_nat 0) latency_delta && f.le throughput_delta (f.of_nat 0)
      then Regression.added_overhead ∷ []
      else []
  kind_regression VariantKind.quantization latency_delta throughput_delta memory =
      memory_regression memory

  unfoldable pub compare_runs : EngineVariant F → BenchmarkRun F → BenchmarkRun F → VariantVerdict F
  compare_runs variant baseline measured =
      let quality_delta = f.sub measured.quality_score baseline.quality_score in
      let latency_delta = f.sub measured.latency_p95_ms baseline.latency_p95_ms in
      let throughput_delta = f.sub measured.throughput_rps baseline.throughput_rps in
      let memory = memory_delta measured.gpu_memory_gb baseline.gpu_memory_gb in
      record {
        variant_id = variant.id;
        quality_delta = quality_delta;
        latency_p95_delta_ms = latency_delta;
        throughput_delta_rps = throughput_delta;
        gpu_seconds_delta = f.sub measured.gpu_seconds_per_request baseline.gpu_seconds_per_request;
        gpu_memory_delta_gb = memory;
        regressions =
            quality_regression variant quality_delta
            ++ kind_regression variant.kind latency_delta throughput_delta memory;
      }

  unfoldable pub variant_verdict :
      Registry F → EngineVariant F → Result RegistryError (Option (VariantVerdict F))
  unfolding compare_runs
  variant_verdict registry variant = if not (has_evidence variant) then ok none else do
    baseline ← benchmark registry (or_else variant.baseline_benchmark "")
    measured ← benchmark registry (or_else variant.variant_benchmark "")
    ok (some (compare_runs variant baseline measured))

  -- The gain that an optimisation of the kind is for.
  abbrev Gain : VariantKind → F → F → Option F → Type 0
  Gain VariantKind.speculative_decoding latency throughput memory =
      (f.le (f.of_nat 0) latency ≡ false) ⊎ (f.le throughput (f.of_nat 0) ≡ false)
  Gain VariantKind.quantization latency throughput memory =
      (delta : F) × (memory ≡ some delta) × (f.le (f.of_nat 0) delta ≡ false)

  -- Quality within the tolerance, and the gain.
  abbrev pub IsImprovement : EngineVariant F → VariantVerdict F → Type 0
  IsImprovement variant v =
      (f.lt v.quality_delta (f.neg variant.quality_tolerance) ≡ false)
      × Gain variant.kind v.latency_p95_delta_ms v.throughput_delta_rps v.gpu_memory_delta_gb

  kind_regression-Gain :
      (kind : VariantKind) (latency throughput : F) (memory : Option F)
      → kind_regression kind latency throughput memory ≡ []
      → Gain kind latency throughput memory
  unfolding kind_regression memory_regression
  kind_regression-Gain VariantKind.speculative_decoding l t m h = ground arith
  kind_regression-Gain VariantKind.quantization l t none h = cc
  kind_regression-Gain VariantKind.quantization l t (some d) h = (d, refl, ground arith)

  Gain-kind_regression :
      (kind : VariantKind) (latency throughput : F) (memory : Option F)
      → Gain kind latency throughput memory
      → kind_regression kind latency throughput memory ≡ []
  unfolding kind_regression memory_regression
  Gain-kind_regression VariantKind.speculative_decoding l t m h = ground arith
  Gain-kind_regression VariantKind.quantization l t m (d, e, h) = rw e (rw h)

  accepted-compare_runs :
      (v : EngineVariant F) (base new : BenchmarkRun F)
      → (accepted (compare_runs v base new) ≡ true) ↔ IsImprovement v (compare_runs v base new)
  unfolding accepted compare_runs quality_regression
  accepted-compare_runs v base new = (forward, backward)
    where
      latency : F
      latency = f.sub new.latency_p95_ms base.latency_p95_ms

      throughput : F
      throughput = f.sub new.throughput_rps base.throughput_rps

      memory : Option F
      memory = memory_delta new.gpu_memory_gb base.gpu_memory_gb

      forward :
          accepted (compare_runs v base new) ≡ true → IsImprovement v (compare_runs v base new)
      forward h =
          (ground arith, kind_regression-Gain v.kind latency throughput memory (ground arith))

      backward :
          IsImprovement v (compare_runs v base new) → accepted (compare_runs v base new) ≡ true
      backward h = ground (arith, Gain-kind_regression v.kind latency throughput memory h.1)

  -- A variant with a verdict names both benchmarks, and its verdict accepts it
  -- exactly when quality fell by no more than the tolerance and the variant's kind brought its gain:
  -- latency down or throughput up for speculative decoding, memory measured on both runs and down
  -- for a quantization.
  pub variant_verdict-accepted :
      (registry : Registry F) (variant : EngineVariant F) {verdict : VariantVerdict F}
      → variant_verdict registry variant ≡ ok (some verdict)
      → (has_evidence variant ≡ true) × ((accepted verdict ≡ true) ↔ IsImprovement variant verdict)
  unfolding variant_verdict
  variant_verdict-accepted registry variant {verdict} h = elim (Bool-cases (has_evidence variant)) [
    | inl e ↦ (e, decided (rw (e, if◌then◌else◌) at h))
    | inr e ↦ absurd (ground arith)
  ]
    where
      baseline_id : String
      baseline_id = or_else variant.baseline_benchmark ""

      variant_id : String
      variant_id = or_else variant.variant_benchmark ""

      compared : BenchmarkRun F → BenchmarkRun F → Result RegistryError (Option (VariantVerdict F))
      compared base new = ok (some (compare_runs variant base new))

      decided :
          (benchmark registry baseline_id >>= λ base.
          benchmark registry variant_id >>= compared base)
            ≡ ok (some verdict)
          → (accepted verdict ≡ true) ↔ IsImprovement variant verdict
      decided q =
          let (base, _, q') = >>=-eq-ok (benchmark registry baseline_id) _ q in
          let (new, _, q'') = >>=-eq-ok (benchmark registry variant_id) (compared base) q' in
          let same : compare_runs variant base new ≡ verdict = cc in
          rw (← same) (accepted-compare_runs variant base new)
