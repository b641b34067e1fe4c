-- ===== src/Governance/Settled.antt =====
-- A sequence of actions of src/llm_router/governance.py's `apply`, seen at one version.
use production_local_llm_inf.Prelude.{
  ℕ, suc, ◌≡◌, refl, ap, sym, ◌∙◌, ◌⊎◌, inl, inr, Bool, true, Option, List, [], ◌∷◌, ◌∈◌, elem,
  String, arith, string_eq, pair_eq, option_eq, is_some,
}
use production_local_llm_inf.Prelude.Dict.{Dict}
use production_local_llm_inf.Prelude.Result.{ok}
use production_local_llm_inf.Models.Enums.{stage_eq}
use production_local_llm_inf.Registry.Records.{BenchmarkRun, Registry}
use production_local_llm_inf.Governance.Records.{GovernedVersion, RecordedVersion, Action}
use production_local_llm_inf.Governance.Plan.{carry_out_all, subjects_of}
use production_local_llm_inf.Governance.Memory.{InMemoryStore, memory}
use production_local_llm_inf.Governance.Filed.{find, IsFiled}
use production_local_llm_inf.Governance.Wanted.{HasUniqueNames}
use production_local_llm_inf.Governance.Planned.{Planned, is_ready}
use production_local_llm_inf.Governance.Effects.{IsStep, effect, logs}
use production_local_llm_inf.Governance.Steps.{Planned-CanStep}

module _ {F : Type 0} (wanted : List GovernedVersion) (runs : List (BenchmarkRun F)) where
  pub data Trace : InMemoryStore F → List Action → InMemoryStore F → Type 0 where
    done : {s : InMemoryStore F} → Trace s [] s
    next :
        {s t u : InMemoryStore F} {action : Action} {actions : List Action}
        → Planned wanted runs action
        → IsStep (subjects_of wanted) s action t
        → Trace t actions u
        → Trace s (action ∷ actions) u

  -- A test that every planned action keeps at a name and a revision.
  abbrev pub Keeps : (Option RecordedVersion → Bool) → String → String → Type 0
  Keeps p n r =
      (action : Action) (o : Option RecordedVersion)
      → Planned wanted runs action
      → p o ≡ true
      → p (effect (subjects_of wanted) action n r o) ≡ true

  module _ (p : Option RecordedVersion → Bool) (n r : String) (keeps : Keeps p n r) where
    Trace-keeps :
        {s t : InMemoryStore F} {actions : List Action}
        → Trace s actions t
        → p (find s n r) ≡ true
        → p (find t n r) ≡ true
    Trace-keeps done h = h
    Trace-keeps (next {s} {action = action} planned step rest) h =
        Trace-keeps rest (ap p (step.found n r) ∙ keeps action (find s n r) planned h)

    -- A test that one action of the sequence sets holds in the end.
    Trace-sets :
        {s t : InMemoryStore F} {actions : List Action}
        → Trace s actions t
        → (action : Action) → action ∈ actions
        → ((o : Option RecordedVersion) → p (effect (subjects_of wanted) action n r o) ≡ true)
        → p (find t n r) ≡ true
    Trace-sets done action m sets = absurd m
    Trace-sets (next {s} {action = first} planned step rest) action (inl e) sets =
        Trace-keeps rest (
          ap p (step.found n r)
          ∙ ap (λ a. p (effect (subjects_of wanted) a n r (find s n r))) (sym e)
          ∙ sets (find s n r))
    Trace-sets (next planned step rest) action (inr m) sets = Trace-sets rest action m sets

    -- A test holds in the end when it holds at first or an action sets it.
    pub Trace-settles :
        {s t : InMemoryStore F} {actions : List Action}
        → Trace s actions t
        → (p (find s n r) ≡ true)
          ⊎ (action : Action) × (action ∈ actions)
            × ((o : Option RecordedVersion) → p (effect (subjects_of wanted) action n r o) ≡ true)
        → p (find t n r) ≡ true
    Trace-settles trace (inl h) = Trace-keeps trace h
    Trace-settles trace (inr (action, m, sets)) = Trace-sets trace action m sets

  pub Trace-IsFiled :
      {s t : InMemoryStore F} {actions : List Action} → Trace s actions t → IsFiled s → IsFiled t
  Trace-IsFiled done filed = filed
  Trace-IsFiled (next planned step rest) filed = Trace-IsFiled rest step.filed

  -- A run that is recorded stays, and one that an action logs is there in the end.
  pub Trace-logs :
      {s t : InMemoryStore F} {actions : List Action}
      → Trace s actions t
      → (id : String)
      → (elem id (memory.benchmark_ids s) ≡ true)
        ⊎ (action : Action) × (action ∈ actions) × (logs action id ≡ true)
      → elem id (memory.benchmark_ids t) ≡ true
  Trace-logs done id (inl h) = h
  Trace-logs done id (inr (action, m, h)) = absurd m
  Trace-logs (next planned step rest) id (inl h) = Trace-logs rest id (inl (step.logged id ∙ rw h))
  Trace-logs (next planned step rest) id (inr (action, inl e, h)) =
      Trace-logs rest id (inl (ground (arith, step.logged id, ap (λ a. logs a id) e)))
  Trace-logs (next planned step rest) id (inr (action, inr m, h)) =
      Trace-logs rest id (inr (action, m, h))

-- An action removes no version.
pub effect-some :
    (subjects : Dict (String × String) GovernedVersion) (action : Action) (n r : String)
    (o : Option RecordedVersion)
    → is_some o ≡ true
    → is_some (effect subjects action n r o) ≡ true
unfolding effect
effect-some subjects action n r o h = ground arith

module _ {F : Type 0} (registry : Registry F) (wanted : List GovernedVersion)
    (unique : HasUniqueNames wanted) (commit : String) (clock : ℕ → ℕ) where
  ready_after :
      (s t : InMemoryStore F) (action later : Action)
      → IsStep (subjects_of wanted) s action t
      → is_ready s later ≡ true
      → is_ready t later ≡ true
  ready_after s t action later step h =
      let kept =
        effect-some (subjects_of wanted) action later.name later.revision
          (find s later.name later.revision) in
      ground (arith, step.found later.name later.revision, kept)

  -- The actions of a plan can be carried out one after another.
  pub carry_out_all-Trace :
      (i : ℕ) (actions : List Action) (s : InMemoryStore F)
      → IsFiled s
      → ((action : Action)
          → action ∈ actions
          → Planned wanted registry.benchmarks action × (is_ready s action ≡ true))
      → (t : InMemoryStore F) × (carry_out_all memory registry
            (subjects_of wanted)
            commit
            clock
            i
            actions
            s
          ≡ ok t)
        × Trace wanted registry.benchmarks s actions t
  unfolding carry_out_all
  carry_out_all-Trace i [] s filed planned = (s, refl, done)
  carry_out_all-Trace i (action ∷ actions) s filed planned =
      let (kind, ready) = planned action (inl refl) in
      let (t, h, step) =
        Planned-CanStep registry wanted unique commit (clock i) s kind filed ready in
      let (u, k, rest) = carry_out_all-Trace (suc i) actions t step.filed (λ later m.
        let (kind₁, ready₁) = planned later (inr m) in
        (kind₁, ready_after s t action later step ready₁)) in
      (u, rw (h, k), next kind step rest)
