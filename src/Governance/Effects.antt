-- ===== src/Governance/Effects.antt =====
-- What one action of src/llm_router/governance.py's `apply` does to each version of the in-memory
-- store, and the sequence of the actions of a plan.
use production_local_llm_inf.Prelude.{
  ℕ, ◌≡◌, refl, ap, ◌∙◌, Bool, false, ◌&&◌, ◌||◌, Option, none, some, elem, String, arith,
  string_eq, pair_eq, ◌==◌, if◌then◌else◌,
}
use production_local_llm_inf.Prelude.Dict.{Dict, get}
use production_local_llm_inf.Prelude.Result.{ok}
use production_local_llm_inf.Models.{or_else}
use production_local_llm_inf.Models.Enums.{LifecycleStage}
use production_local_llm_inf.Registry.Records.{BenchmarkRun, Registry}
use production_local_llm_inf.Governance.Records.{
  GovernedVersion, RecordedVersion, Promotion, Action, ActionKind,
}
use production_local_llm_inf.Governance.Plan.{promote, promotion_of}
use production_local_llm_inf.Governance.Memory.{
  InMemoryStore, memory, hold, first_record, annotated, staged, stored,
}
use production_local_llm_inf.Governance.Filed.{find, IsFiled, find-hold, hold-IsFiled, amend-ok}

abbrev amended :
    (RecordedVersion → RecordedVersion) → Option RecordedVersion → Option RecordedVersion
amended change none = none
amended change (some item) = some (change item)

abbrev retagged : Option GovernedVersion → Option RecordedVersion → Option RecordedVersion
retagged none o = o
retagged (some subject) o = amended (annotated subject) o

abbrev entered :
    LifecycleStage → Option GovernedVersion → Option RecordedVersion → Option RecordedVersion
entered stage none o = o
entered stage (some subject) o = some (staged stage (first_record subject))

abbrev pub target_of : Action → LifecycleStage
target_of action = or_else action.to_stage LifecycleStage.development

-- What an action makes of the version under its own name and revision, whose subject is given.
abbrev pub change :
    Option GovernedVersion → Action → Option RecordedVersion → Option RecordedVersion
change subject action o = elim action.kind [
  | ActionKind.register ↦ entered (target_of action) subject o
  | ActionKind.transition ↦ amended (staged (target_of action)) o
  | ActionKind.annotate ↦ retagged subject o
  | ActionKind.benchmark ↦ o
]

-- What it makes of the version under any name and revision.
unfoldable pub effect :
    Dict (String × String) GovernedVersion
    → Action
    → String
    → String
    → Option RecordedVersion
    → Option RecordedVersion
effect subjects action n r o =
    if action.name == n && action.revision == r then change (get (n, r) subjects) action o else o

unfoldable pub logs : Action → String → Bool
logs action id = elim action.kind [ ActionKind.benchmark ↦ id == action.name | _ ↦ false ]

module _ {F : Type 0} where
  pub record IsStep (subjects : Dict (String × String) GovernedVersion) (s : InMemoryStore F)
      (action : Action) (t : InMemoryStore F) : Type 0 where
    pub filed : IsFiled t
    pub found : (n r : String) → find t n r ≡ effect subjects action n r (find s n r)
    pub logged :
        (id : String)
        → elem id (memory.benchmark_ids t) ≡ (elem id (memory.benchmark_ids s) || logs action id)

  pub log-IsFiled :
      (promotion : Promotion) (s : InMemoryStore F)
      → IsFiled s
      → IsFiled (memory.log_promotion promotion s)
  unfolding find stored
  log-IsFiled promotion s filed = record {
    names_match = filed.names_match;
    revisions_match = filed.revisions_match;
    distinct = filed.distinct;
  }

  pub run-IsFiled :
      (run : BenchmarkRun F) (s : InMemoryStore F)
      → IsFiled s
      → IsFiled (memory.log_benchmark run s)
  unfolding find stored
  run-IsFiled run s filed = record {
    names_match = filed.names_match;
    revisions_match = filed.revisions_match;
    distinct = filed.distinct;
  }

  find-log :
      (promotion : Promotion) (s : InMemoryStore F) (n r : String)
      → find (memory.log_promotion promotion s) n r ≡ find s n r
  unfolding find stored
  find-log promotion s n r = refl

  pub find-run :
      (run : BenchmarkRun F) (s : InMemoryStore F) (n r : String)
      → find (memory.log_benchmark run s) n r ≡ find s n r
  unfolding find stored
  find-run run s n r = refl

  module _ (registry : Registry F) (subjects : Dict (String × String) GovernedVersion)
      (commit : String) (now : ℕ) (action : Action) where
    pub promote-ok :
        (s : InMemoryStore F) {v : RecordedVersion}
        → find s action.name action.revision ≡ some v
        → promote memory registry subjects commit now action s
          ≡ ok (
              memory.log_promotion
                (promotion_of registry commit now action (target_of action))
                (hold action.name action.revision (staged (target_of action) v) s))
    unfolding promote
    promote-ok s h = rw (amend-ok action.name action.revision (staged (target_of action)) s h)

    -- The version that an action puts in place of the one that was held, after changes to it alone.
    pub replaced-IsStep :
        (s u : InMemoryStore F) (item : RecordedVersion)
        → IsFiled u
        → ((n r : String)
            → (action.name == n && action.revision == r) ≡ false
            → find u n r ≡ find s n r)
        → memory.benchmark_ids u ≡ memory.benchmark_ids s
        → item.name ≡ action.name
        → item.revision ≡ action.revision
        → change
            (get (action.name, action.revision) subjects)
            action
            (find s action.name action.revision)
          ≡ some item
        → ((id : String) → logs action id ≡ false)
        → IsStep subjects s action (hold action.name action.revision item u)
    unfolding effect hold
    replaced-IsStep s u item filed apart same named revised placed unlogged = record {
      filed = hold-IsFiled action.name action.revision item u named revised filed;
      found = λ n r.
          let here = find-hold action.name action.revision n r item u in
          ground (
            arith,
            string_eq.beq_iff action.name n,
            string_eq.beq_iff action.revision r,
            apart n r,
          );
      logged = λ id. ground (arith, unlogged id, ap (elem id) same);
    }

    pub logged-IsStep :
        (s t : InMemoryStore F) (promotion : Promotion)
        → IsStep subjects s action t
        → IsStep subjects s action (memory.log_promotion promotion t)
    logged-IsStep s t promotion step = record {
      filed = log-IsFiled promotion t step.filed;
      found = λ n r. find-log promotion t n r ∙ step.found n r;
      logged = step.logged;
    }
