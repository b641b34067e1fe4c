-- ===== src/Governance/Refines.antt =====
-- `InMemoryStore` of src/llm_router/governance.py against a ledger that says of each name and
-- revision its stage, its checksum and what each tag is, over any sequence of calls.
use production_local_llm_inf.Prelude.{
  ℕ, ◌≡◌, refl, ap, sym, ◌∙◌, ◌⊎◌, inl, inr, Bool, true, false, not, ◌&&◌, ◌||◌, Option, none, some,
  List, [], ◌∷◌, ◌++◌, elem, String, arith, string_eq, ◌==◌, is_some, if◌then◌else◌, Option-cases,
  Bool-cases,
}
use production_local_llm_inf.Prelude.Dict.{get}
use production_local_llm_inf.Governance.Ledger.{Entry, entry, entry_of, tag_of, entry_of_tags}
use mathlib.Core.Option.{map as map_option}
use production_local_llm_inf.Prelude.Result.{Result, ok, raise, ◌>>=◌}
use production_local_llm_inf.Models.Enums.{LifecycleStage}
use production_local_llm_inf.Registry.Records.{BenchmarkRun}
use production_local_llm_inf.Governance.Records.{
  GovernedVersion, RecordedVersion, Promotion, GovernanceError, missing_key,
}
use production_local_llm_inf.Governance.Memory.{
  InMemoryStore, memory, register, amend, hold, first_record, annotated, staged, empty_store,
}
use production_local_llm_inf.Governance.Filed.{
  find, IsFiled, find-hold, hold-IsFiled, amend-ok, amend-missing, elem-keys-put, empty-IsFiled,
}
use production_local_llm_inf.Governance.Effects.{log-IsFiled, run-IsFiled}

-- The calls that change a store.
pub data Call (F : Type 0) : Type 0 where
  registered : GovernedVersion → Call F
  retagged : GovernedVersion → Call F
  restaged : String → String → LifecycleStage → Call F
  logged_run : BenchmarkRun F → Call F
  logged_promotion : Promotion → Call F

-- What a store holds, as functions and the history of the promotions.
pub record Ledger : Type 0 where
  pub version : String → String → Option Entry
  pub has_run : String → Bool
  pub promoted : List Promotion

-- An entry written at one place.
abbrev pub write : String → String → Entry → Ledger → Ledger
write n r item ledger = record ledger {
  version = λ m q. if n == m && r == q then some item else ledger.version m q;
}

abbrev pub rewrite_at :
    String → String → (Entry → Entry) → Ledger → Option Entry → Result GovernanceError Ledger
rewrite_at n r change ledger none = raise missing_key
rewrite_at n r change ledger (some item) = ok (write n r (change item) ledger)

module _ {F : Type 0} where
  -- One call on the store.
  unfoldable pub call : Call F → InMemoryStore F → Result GovernanceError (InMemoryStore F)
  call (registered subject) s = memory.register subject s
  call (retagged subject) s = memory.annotate subject s
  call (restaged name revision stage) s = memory.set_stage name revision stage s
  call (logged_run run) s = ok (memory.log_benchmark run s)
  call (logged_promotion promotion) s = ok (memory.log_promotion promotion s)

  unfoldable pub call_all :
      List (Call F) → InMemoryStore F → Result GovernanceError (InMemoryStore F)
  unfolding call
  call_all [] s = ok s
  call_all (c ∷ calls) s = call c s >>= call_all calls

  -- The same call on the functions.
  unfoldable pub post : Call F → Ledger → Result GovernanceError Ledger
  post (registered subject) ledger =
      ok (write subject.name subject.revision (entry none subject.checksum (tag_of subject)) ledger)
  post (retagged subject) ledger =
      rewrite_at subject.name subject.revision
        (λ item. entry item.stage subject.checksum (tag_of subject)) ledger
        (ledger.version subject.name subject.revision)
  post (restaged name revision stage) ledger =
      rewrite_at name revision (λ item. entry (some stage) item.checksum item.tag) ledger
        (ledger.version name revision)
  post (logged_run run) ledger =
      ok (record ledger { has_run = λ id. ledger.has_run id || id == run.id })
  post (logged_promotion promotion) ledger =
      ok (record ledger { promoted = ledger.promoted ++ promotion ∷ [] })

  unfoldable pub post_all : List (Call F) → Ledger → Result GovernanceError Ledger
  unfolding post
  post_all [] ledger = ok ledger
  post_all (c ∷ calls) ledger = post c ledger >>= post_all calls

  -- The store, with its versions filed under their own names, holds what the ledger says.
  pub record Shows (s : InMemoryStore F) (ledger : Ledger) : Type 0 where
    pub filed : IsFiled s
    pub versions : (n r : String) → map_option entry_of (find s n r) ≡ ledger.version n r
    pub runs : (id : String) → elem id (memory.benchmark_ids s) ≡ ledger.has_run id
    pub history : s.history ≡ ledger.promoted

  -- The two end alike: both raise the same error, or the store shows the ledger.
  abbrev pub Alike :
      Result GovernanceError (InMemoryStore F) → Result GovernanceError Ledger → Type 0
  Alike (ok s) (ok ledger) = Shows s ledger
  Alike (raise e) (raise d) = e ≡ d
  Alike _ _ = ⊥

  hold-Shows :
      (n r : String) (item : RecordedVersion) (e : Entry) (s : InMemoryStore F) (ledger : Ledger)
      → item.name ≡ n
      → item.revision ≡ r
      → entry_of item ≡ e
      → Shows s ledger
      → Shows (hold n r item s) (write n r e ledger)
  unfolding hold
  hold-Shows n r item e s ledger named revised same shows = record {
    filed = hold-IsFiled n r item s named revised shows.filed;
    versions = λ m q. ap (map_option entry_of) (find-hold n r m q item s) ∙ shown m q;
    runs = shows.runs;
    history = shows.history;
  }
    where
      shown :
          (m q : String)
          → map_option entry_of (if n == m && r == q then some item else find s m q)
            ≡ (if n == m && r == q then some e else ledger.version m q)
      shown m q = elim (Bool-cases (n == m && r == q)) [
        | inl here ↦ rw here (ap some same)
        | inr elsewhere ↦ rw elsewhere (shows.versions m q)
      ]

  amend-Alike :
      (n r : String) (change : RecordedVersion → RecordedVersion) (redo : Entry → Entry)
      → ((v : RecordedVersion) → (change v).name ≡ v.name)
      → ((v : RecordedVersion) → (change v).revision ≡ v.revision)
      → ((v : RecordedVersion) → entry_of (change v) ≡ redo (entry_of v))
      → (s : InMemoryStore F) (ledger : Ledger) → Shows s ledger
      → Alike (amend n r change s) (rewrite_at n r redo ledger (ledger.version n r))
  amend-Alike n r change redo named revised same s ledger shows = elim (Option-cases (find s n r)) [
    | inl absent ↦
        let blank = sym (shows.versions n r) ∙ ap (map_option entry_of) absent in
        rw (amend-missing n r change s absent, blank) refl
    | inr (v, held) ↦
        let known = sym (shows.versions n r) ∙ ap (map_option entry_of) held in
        rw (amend-ok n r change s held, known)
          (hold-Shows n r (change v) (redo (entry_of v)) s ledger
            (named v ∙ shows.filed.names_match n r v held)
            (revised v ∙ shows.filed.revisions_match n r v held) (same v) shows)
  ]

  call-Alike :
      (c : Call F) (s : InMemoryStore F) (ledger : Ledger)
      → Shows s ledger
      → Alike (call c s) (post c ledger)
  unfolding call post register find production_local_llm_inf.Governance.Memory.stored
  call-Alike (registered subject) s ledger shows =
      hold-Shows subject.name subject.revision (first_record subject)
        (entry none subject.checksum (tag_of subject)) s ledger refl refl
        (entry_of_tags subject none) shows
  call-Alike (retagged subject) s ledger shows =
      amend-Alike subject.name subject.revision (annotated subject)
        (λ item. entry item.stage subject.checksum (tag_of subject)) (λ v. refl) (λ v. refl)
        (λ v. entry_of_tags subject v.stage) s ledger shows
  call-Alike (restaged name revision stage) s ledger shows =
      amend-Alike name revision (staged stage) (λ item. entry (some stage) item.checksum item.tag)
        (λ v. refl) (λ v. refl) (λ v. refl) s ledger shows
  call-Alike (logged_run run) s ledger shows = record {
    filed = run-IsFiled run s shows.filed;
    versions = shows.versions;
    runs = λ id. elem-keys-put id run.id run s.runs ∙ ap (λ b. b || id == run.id) (shows.runs id);
    history = shows.history;
  }
  call-Alike (logged_promotion promotion) s ledger shows = record {
    filed = log-IsFiled promotion s shows.filed;
    versions = shows.versions;
    runs = shows.runs;
    history = ap (λ h. h ++ promotion ∷ []) shows.history;
  }

  chain :
      (calls : List (Call F))
      → ((t : InMemoryStore F) (after : Ledger)
          → Shows t after
          → Alike (call_all calls t) (post_all calls after))
      → (m : Result GovernanceError (InMemoryStore F)) (k : Result GovernanceError Ledger)
      → Alike m k
      → Alike (m >>= call_all calls) (k >>= post_all calls)
  chain calls rest (ok t) (ok after) h = rest t after h
  chain calls rest (ok t) (raise d) h = absurd h
  chain calls rest (raise e) (ok after) h = absurd h
  chain calls rest (raise e) (raise d) h = h

  -- Any sequence of calls ends alike on a store and on the ledger that it shows: both raise the
  -- same error, or the store's versions are filed under their own names and revisions and have the
  -- stage, the checksum and each tag that the ledger has, with the same recorded runs and the same
  -- promotions in the same order. In the ledger a registered version has no stage, a version that
  -- is registered or annotated has the subject's checksum and tags, and a change of stage changes
  -- the stage alone.
  pub call_all-Alike :
      (calls : List (Call F)) (s : InMemoryStore F) (ledger : Ledger)
      → Shows s ledger
      → Alike (call_all calls s) (post_all calls ledger)
  unfolding call_all post_all
  call_all-Alike [] s ledger shows = shows
  call_all-Alike (c ∷ calls) s ledger shows =
      chain calls (λ t after h. call_all-Alike calls t after h) (call c s) (post c ledger)
        (call-Alike c s ledger shows)

  -- A new store shows the ledger that knows nothing.
  pub empty-Shows :
      Shows empty_store (record { version = λ n r. none; has_run = λ id. false; promoted = [] })
  unfolding find production_local_llm_inf.Governance.Memory.stored
      production_local_llm_inf.Prelude.Dict.get elem
  empty-Shows = record {
    filed = empty-IsFiled;
    versions = λ n r. refl;
    runs = λ id. refl;
    history = refl;
  }
