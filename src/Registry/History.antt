-- ===== src/Registry/History.antt =====
-- `Registry.quality_history` and `Registry.profiles`: measured quality per task and model.
use production_local_llm_inf.Prelude.{
  ◌≡◌, refl, Bool, true, false, Option, none, some, List, [], ◌∷◌, ◌++◌, String, is_none, ◌&&◌,
  ◌==◌, if◌then◌else◌, arith, map, length, filter, ap, ◌∙◌, append_assoc, option_eq, string_eq,
}
use production_local_llm_inf.Prelude.Dict.{Dict, get, put, get-put}
use production_local_llm_inf.Prelude.Float.{Float, sum}
use production_local_llm_inf.Models.{ModelProfile, or_else}
use production_local_llm_inf.Models.Enums.{TaskClass, task_eq, task_beq_iff}
use production_local_llm_inf.Registry.Records.{BenchmarkRun, Registry}
use production_local_llm_inf.Registry.Catalog.{to_profile, servable_models}

module _ {F : Type 0} where
  -- The loop's test, without its last condition, `run.task is not None`.
  abbrev measures_base : String → BenchmarkRun F → Bool
  measures_base revision run = run.model_revision == revision && is_none run.adapter_revision

  -- `scores.setdefault(task, []).append(score)`.
  unfoldable pub add_score : TaskClass → F → Dict TaskClass (List F) → Dict TaskClass (List F)
  add_score task score scores = put task (or_else (get task scores) [] ++ score ∷ []) scores

  -- `run.task is not None` inside the loop.
  unfoldable pub add_run : Option TaskClass → F → Dict TaskClass (List F) → Dict TaskClass (List F)
  unfolding add_score
  add_run none score scores = scores
  add_run (some task) score scores = add_score task score scores

  unfoldable pub collect :
      String → List (BenchmarkRun F) → Dict TaskClass (List F) → Dict TaskClass (List F)
  collect revision [] scores = scores
  collect revision (run ∷ runs) scores =
      collect revision runs
        (if measures_base revision run then add_run run.task run.quality_score scores else scores)

module _ {F : Type 0} ⦃f : Float F⦄ where
  abbrev pub mean : List F → F
  mean values = f.div (sum values) (f.of_nat (length values))

  abbrev means : Dict TaskClass (List F) → Dict TaskClass F
  means = map (λ e. (e.0, mean e.1))

  unfoldable pub quality_history : Registry F → String → Dict TaskClass F
  unfolding collect
  quality_history registry revision = means (collect revision registry.benchmarks [])

  unfoldable pub profiles : Registry F → List (ModelProfile F)
  unfolding servable_models
  profiles registry =
      map (λ card. to_profile (quality_history registry card.revision) card)
        (servable_models registry)

  -- The scores of the base model's own runs on a task, in the catalog's order.
  unfoldable pub base_scores : String → TaskClass → List (BenchmarkRun F) → List F
  base_scores revision task runs =
      map (λ run. run.quality_score)
        (filter (λ run. measures_base revision run && run.task == some task) runs)

  abbrev pub mean_of : List F → Option F
  mean_of [] = none
  mean_of (x ∷ xs) = some (mean (x ∷ xs))

  extend : Option (List F) → List F → Option (List F)
  extend o [] = o
  extend none (x ∷ xs) = some (x ∷ xs)
  extend (some ys) (x ∷ xs) = some (ys ++ (x ∷ xs))

  extend_twice :
      (o : Option (List F)) (x : F) (xs : List F)
      → extend (some (or_else o [] ++ x ∷ [])) xs ≡ extend o (x ∷ xs)
  unfolding extend
  extend_twice none x [] = refl
  extend_twice none x (y ∷ ys) = refl
  extend_twice (some zs) x [] = refl
  extend_twice (some zs) x (y ∷ ys) = ap some (append_assoc zs (x ∷ []) (y ∷ ys))

  get-means :
      (task : TaskClass) (d : Dict TaskClass (List F)) (xs : List F)
      → get task d ≡ extend none xs
      → get task (means d) ≡ mean_of xs
  unfolding get extend
  get-means task [] [] h = refl
  get-means task [] (x ∷ xs) h = cc
  get-means task ((t, v) ∷ d) [] h = ground (arith, get-means task d [])
  get-means task ((t, v) ∷ d) (x ∷ xs) h = ground (arith, get-means task d (x ∷ xs))

  get-add_run :
      (task : TaskClass) (o : Option TaskClass) (score : F) (d : Dict TaskClass (List F))
      → get task (add_run o score d)
        ≡ (if o == some task then some (or_else (get task d) [] ++ score ∷ []) else get task d)
  unfolding add_run
  get-add_run task none score d = refl
  get-add_run task (some t) score d =
      ground (arith, task_beq_iff t task, get-put t task (or_else (get t d) [] ++ score ∷ []) d)

  get-collect :
      (revision : String) (task : TaskClass) (runs : List (BenchmarkRun F))
      (d : Dict TaskClass (List F))
      → get task (collect revision runs d) ≡ extend (get task d) (base_scores revision task runs)
  unfolding collect base_scores filter extend
  get-collect revision task [] d = refl
  get-collect revision task (run ∷ runs) d =
      let scores : List F = base_scores revision task runs in
      let next : Dict TaskClass (List F) =
        if measures_base revision run then add_run run.task run.quality_score d else d in
      get-collect revision task runs next
      ∙ step (measures_base revision run) (run.task == some task) refl
    where
      scores : List F
      scores = base_scores revision task runs

      step :
          (m t : Bool)
          → (run.task == some task) ≡ t
          → extend (get task (if m then add_run run.task run.quality_score d else d)) scores
            ≡ extend (get task d) (
                map
                  (λ (r : BenchmarkRun F). r.quality_score)
                  (if m && t
                    then run ∷ filter (λ r. measures_base revision r && r.task == some task) runs
                    else filter (λ r. measures_base revision r && r.task == some task) runs))
      step false t e = refl
      step true true e =
          rw (get-add_run task run.task run.quality_score d, e, if◌then◌else◌)
            (extend_twice (get task d) run.quality_score scores)
      step true false e = rw (get-add_run task run.task run.quality_score d, e, if◌then◌else◌)

  pub get-quality_history :
      (registry : Registry F) (revision : String) (task : TaskClass)
      → get task (quality_history registry revision)
        ≡ mean_of (base_scores revision task registry.benchmarks)
  unfolding quality_history get
  get-quality_history registry revision task =
      get-means task (collect revision registry.benchmarks [])
        (base_scores revision task registry.benchmarks)
        (get-collect revision task registry.benchmarks [])
