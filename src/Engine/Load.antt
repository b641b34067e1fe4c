-- ===== src/Engine/Load.antt =====
-- `LoadTracker` of src/llm_router/load.py, with `EngineStats` of engine_stats.py. The clock is an
-- argument.
use production_local_llm_inf.Prelude.{
  ◌≡◌, refl, true, Option, none, some, List, [], ◌∷◌, ◌++◌, arith, String, if◌then◌else◌, string_eq,
}
use production_local_llm_inf.Prelude.Dict.{Dict, get, put}
use production_local_llm_inf.Prelude.Float.{Float, IsOrdered, fmin, argmax_from}
use production_local_llm_inf.Models.{or_else}

pub record EngineStats (F : Type 0) : Type 0 where
  pub running_requests : Option F
  pub waiting_requests : Option F
  pub kv_cache_usage_ratio : Option F
  pub preemptions_total : Option F
  pub gpu_utilization_ratio : Dict String F
  pub gpu_memory_used_bytes : Dict String F
  pub gpu_memory_total_bytes : Dict String F

pub record LoadTracker (F : Type 0) : Type 0 where
  pub smoothing : F
  pub engine_ttl_seconds : F
  pub queue : Dict String F
  pub saturation : Option F
  pub saturation_at : F

module _ {F : Type 0} ⦃f : Float F⦄ where
  -- The new estimate from the previous one, if there is one.
  unfoldable pub smoothed : F → F → Option F → F
  smoothed smoothing value none = value
  smoothed smoothing value (some previous) = f.add previous (f.mul smoothing (f.sub value previous))

  unfoldable pub observe_queue : LoadTracker F → String → F → LoadTracker F
  unfolding smoothed
  observe_queue t model value = record t {
    queue = put model (smoothed t.smoothing value (get model t.queue)) t.queue;
  }

  unfoldable pub queue_ms : LoadTracker F → String → F → F
  queue_ms t model default = or_else (get model t.queue) default

  unfoldable pub kv_signal : Option F → List F
  kv_signal none = []
  kv_signal (some ratio) = ratio ∷ []

  unfoldable pub waiting_signal : Option F → Option F → List F
  waiting_signal (some running) (some waiting) =
      let total = f.add running waiting in
      if f.lt (f.of_nat 0) total then f.div waiting total ∷ [] else []
  waiting_signal _ _ = []

  unfoldable pub record_signals : LoadTracker F → List F → F → LoadTracker F
  record_signals t [] now = t
  record_signals t (s ∷ signals) now = record t {
    saturation = some (fmin (f.of_nat 1) (argmax_from (λ x. x) s signals));
    saturation_at = now;
  }

  unfoldable pub observe_engine : LoadTracker F → EngineStats F → F → LoadTracker F
  unfolding kv_signal waiting_signal record_signals
  observe_engine t stats now =
      record_signals t
        (kv_signal stats.kv_cache_usage_ratio
          ++ waiting_signal stats.running_requests stats.waiting_requests)
        now

  unfoldable pub fresh_saturation : LoadTracker F → Option F → F → F
  fresh_saturation t none now = f.of_nat 0
  fresh_saturation t (some saturation) now =
      if f.lt t.engine_ttl_seconds (f.sub now t.saturation_at) then f.of_nat 0 else saturation

  unfoldable pub engine_saturation : LoadTracker F → F → F
  unfolding fresh_saturation
  engine_saturation t now = fresh_saturation t t.saturation now

  -- A reading, or the starting value, is at most 1.
  abbrev pub IsRatio : LoadTracker F → Type 0
  IsRatio t = (s : F) → t.saturation ≡ some s → f.le s (f.of_nat 1) ≡ true

  fmin-le_left : (laws : IsOrdered F) (a b : F) → f.le (fmin a b) a ≡ true
  unfolding fmin
  fmin-le_left laws a b = ground (arith, laws.le_refl a, laws.le_of_lt b a)

  record_signals-IsRatio :
      (laws : IsOrdered F) (t : LoadTracker F) (signals : List F) (now : F)
      → IsRatio t
      → IsRatio (record_signals t signals now)
  unfolding record_signals
  record_signals-IsRatio laws t [] now h = h
  record_signals-IsRatio laws t (x ∷ signals) now h =
      λ s e. ground (arith, fmin-le_left laws (f.of_nat 1) (argmax_from (λ y. y) x signals))

  -- Whatever an engine publishes, the saturation that routing reads stays at most 1, at any later
  -- time, if it was so before the observation.
  pub engine_saturation-le_one :
      (laws : IsOrdered F) (t : LoadTracker F) (stats : EngineStats F) (now later : F)
      → f.le (f.of_nat 0) (f.of_nat 1) ≡ true
      → IsRatio t
      → IsRatio (observe_engine t stats now)
        × (f.le (engine_saturation (observe_engine t stats now) later) (f.of_nat 1) ≡ true)
  unfolding observe_engine engine_saturation fresh_saturation
  engine_saturation-le_one laws t stats now later unit h = (kept, fresh (after.saturation) refl)
    where
      after : LoadTracker F
      after = observe_engine t stats now

      kept : IsRatio after
      kept =
          record_signals-IsRatio laws t
            (kv_signal stats.kv_cache_usage_ratio
              ++ waiting_signal stats.running_requests stats.waiting_requests)
            now h

      fresh :
          (o : Option F)
          → after.saturation ≡ o
          → f.le (fresh_saturation after o later) (f.of_nat 1) ≡ true
      fresh none e = unit
      fresh (some s) e = ground (arith, kept s e, unit)
