-- ===== src/Engine/ColdStart.antt =====
-- `ColdStartTracker` of src/llm_router/engine_stats.py.
use production_local_llm_inf.Prelude.{Bool, true, false, Option, none, some}
use production_local_llm_inf.Prelude.Float.{Float}

-- The tracker is its one field, `_unready_since`.
module _ {F : Type 0} ⦃f : Float F⦄ where
  unfoldable pub observe : Option F → Bool → F → Option F × Option F
  observe none false now = (some now, none)
  observe (some since) false now = (some since, none)
  observe none true now = (none, none)
  observe (some since) true now = (none, some (f.sub now since))
