-- ===== src/Governance/Ledger.antt =====
-- What is recorded of a version, field by field and tag by tag, independent of the dictionaries of
-- src/llm_router/governance.py.
use production_local_llm_inf.Prelude.{
  ◌≡◌, refl, inl, inr, Bool-cases, Option, none, some, String, arith, string_eq, ◌==◌,
  if◌then◌else◌,
}
use production_local_llm_inf.Prelude.Dict.{Dict, get, put, get-put}
use production_local_llm_inf.Models.Enums.{LifecycleStage}
use production_local_llm_inf.Governance.Records.{GovernedVersion, RecordedVersion, is_given}
use production_local_llm_inf.Governance.Catalog.{recorded_tags}

-- What is recorded of a version: its tags as a function from their names.
pub record Entry : Type 0 where
  pub stage : Option LifecycleStage
  pub checksum : Option String
  pub tag : String → Option String

abbrev pub entry : Option LifecycleStage → Option String → (String → Option String) → Entry
entry stage checksum tag = record { stage = stage; checksum = checksum; tag = tag }

-- A checksum that is given and not empty.
abbrev checksum_tag : Option String → Option String → Option String
checksum_tag none other = other
checksum_tag (some sum) other = if sum == "" then other else some sum

-- The tags of a version: its revision, its checksum where it has one, a mark, and its own.
abbrev pub tag_of : GovernedVersion → String → Option String
tag_of subject key =
    let own =
      if key == "catalog.revision"
      then some subject.revision
      else if key == "catalog.managed"
      then some "true"
      else get key subject.tags in
    if key == "catalog.checksum" then checksum_tag subject.checksum own else own

abbrev pub entry_of : RecordedVersion → Entry
entry_of item = record {
  stage = item.stage;
  checksum = item.checksum;
  tag = λ key. get key item.tags;
}

get-recorded_tags :
    (subject : GovernedVersion) (key : String)
    → get key (recorded_tags subject) ≡ tag_of subject key
unfolding recorded_tags is_given
get-recorded_tags subject key = by_checksum subject.checksum refl
  where
    managed : Dict String String
    managed = put "catalog.managed" "true" subject.tags

    marked : Dict String String
    marked = put "catalog.revision" subject.revision managed

    own : get key marked ≡ (
        if key == "catalog.revision"
        then some subject.revision
        else if key == "catalog.managed"
        then some "true"
        else get key subject.tags)
    own = ground (
      arith,
      get-put "catalog.revision" key subject.revision managed,
      get-put "catalog.managed" key "true" subject.tags,
      string_eq.beq_iff "catalog.revision" key,
      string_eq.beq_iff key "catalog.revision",
      string_eq.beq_iff "catalog.managed" key,
      string_eq.beq_iff key "catalog.managed",
    )

    by_checksum :
        (o : Option String)
        → subject.checksum ≡ o
        → get key (recorded_tags subject) ≡ tag_of subject key
    by_checksum none e = rw e (ground (arith, own))
    by_checksum (some sum) e = elim (Bool-cases (sum == "")) [
      | inl empty ↦ rw e (ground (arith, own, empty))
      | inr filled ↦ rw e (
          ground (
            arith,
            own,
            filled,
            get-put "catalog.checksum" key sum marked,
            string_eq.beq_iff "catalog.checksum" key,
            string_eq.beq_iff key "catalog.checksum",
          ))
    ]

pub entry_of_tags :
    (subject : GovernedVersion) (stage : Option LifecycleStage)
    → entry stage subject.checksum (λ key. get key (recorded_tags subject))
      ≡ entry stage subject.checksum (tag_of subject)
entry_of_tags subject stage = λ i. record {
  stage = stage;
  checksum = subject.checksum;
  tag = λ key. get-recorded_tags subject key i;
}
