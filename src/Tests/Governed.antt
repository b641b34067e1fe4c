-- ===== src/Tests/Governed.antt =====
-- The governance of a catalog of one model and one adapter, over a store that holds an older
-- revision of the model.
use production_local_llm_inf.Prelude.{◌≡◌, refl, ◌⊎◌, ◌↔◌, false, none, some, List, [], ◌∷◌, String}
use production_local_llm_inf.Prelude.{filter, elem}
use production_local_llm_inf.Prelude.Text.{sorted_by, distinct}
use production_local_llm_inf.Prelude.Dict.{get, put}
use production_local_llm_inf.Prelude.Loops.{gather, flat_map}
use production_local_llm_inf.Prelude.Keyed.{keyed}
use production_local_llm_inf.Prelude.Int.{ℤ}
use production_local_llm_inf.Prelude.Result.{ok}
use production_local_llm_inf.Models.Enums.{LifecycleStage}
use production_local_llm_inf.Governance.Records.{GovernedVersion, RecordedVersion}
use production_local_llm_inf.Governance.Catalog.{governed_versions, model_version, adapter_version}
use production_local_llm_inf.Governance.Plan.{plan, registration, retirement, evidence}
use production_local_llm_inf.Governance.Memory.{InMemoryStore, memory, hold, empty_store}
use production_local_llm_inf.Governance.Filed.{IsFiled, empty-IsFiled, hold-IsFiled}
use production_local_llm_inf.Governance.Sync.{IsInStep}
use production_local_llm_inf.Governance.Outcome.{Refused, Synced, plan-nil_iff, sync-cases}
use production_local_llm_inf.Governance.Refines.{
  Call, registered, restaged, retagged, Ledger, Alike, call_all, post_all, empty-Shows,
  call_all-Alike,
}
use production_local_llm_inf.Tests.Data.{card, adapter, registry}

abbrev plain_format : ℤ → String
plain_format x = "0.02"

abbrev small_version : GovernedVersion
small_version = model_version plain_format card "s3://store" none

abbrev legal_version : GovernedVersion
legal_version = adapter_version plain_format adapter "s3://store" none

abbrev old_version : RecordedVersion
old_version = record {
  name = "small";
  revision = "r0";
  stage = some LifecycleStage.production;
  checksum = some "c0";
  tags = [];
}

abbrev old_store : InMemoryStore ℤ
old_store = hold "small" "r0" old_version empty_store

old_store-IsFiled : IsFiled old_store
old_store-IsFiled = hold-IsFiled "small" "r0" old_version empty_store refl refl empty-IsFiled

both_versions :
    governed_versions plain_format registry "s3://store/" ≡ ok (small_version ∷ legal_version ∷ [])
unfolding governed_versions sorted_by distinct filter model_version adapter_version get
both_versions = refl

-- The first plan registers what the catalog has, retires the old revision and asks for the evidence.
first_plan :
    plan memory plain_format registry "s3://store/" old_store
    ≡ ok (
        registration small_version
        ∷ retirement "superseded in the catalog" old_version
        ∷ registration legal_version
        ∷ evidence "plain"
        ∷ evidence "awq"
        ∷ [])
unfolding plan hold governed_versions sorted_by distinct filter model_version adapter_version gather
    get keyed put flat_map elem
first_plan = refl

plan-nil_iff_example :
    (plan memory plain_format registry "s3://store/" old_store ≡ ok [])
    ↔ IsInStep registry (small_version ∷ legal_version ∷ []) old_store
plan-nil_iff_example =
    plan-nil_iff plain_format registry "s3://store/" old_store (small_version ∷ legal_version ∷ [])
      old_store-IsFiled both_versions

sync-cases_example :
    Refused plain_format registry "s3://store/" old_store
      (small_version ∷ legal_version ∷ [])
      "abc"
      (λ i. i)
    ⊎ Synced plain_format registry "s3://store/" old_store
        (small_version ∷ legal_version ∷ [])
        "abc"
        (λ i. i)
sync-cases_example =
    sync-cases plain_format registry "s3://store/" old_store (small_version ∷ legal_version ∷ [])
      "abc" (λ i. i) old_store-IsFiled both_versions

abbrev calls : List (Call ℤ)
calls =
    registered small_version
    ∷ restaged "small" "r1" LifecycleStage.staging
    ∷ retagged legal_version
    ∷ []

abbrev blank : Ledger
blank = record { version = λ n r. none; has_run = λ id. false; promoted = [] }

call_all-Alike_example : Alike (call_all calls empty_store) (post_all calls blank)
call_all-Alike_example = call_all-Alike calls empty_store blank empty-Shows
