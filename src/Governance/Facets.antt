-- ===== src/Governance/Facets.antt =====
-- Tests on one version that the actions of src/llm_router/governance.py's plan keep.
use production_local_llm_inf.Prelude.{
  ◌≡◌, refl, ap, sym, inl, inr, Bool, true, false, not, ◌&&◌, Option, none, some, List, ◌∈◌, String,
  arith, string_eq, pair_eq, option_eq, ◌==◌, Bool-cases, all-of,
}
use production_local_llm_inf.Prelude.Dict.{Dict, get}
use production_local_llm_inf.Models.Enums.{stage_eq}
use production_local_llm_inf.Registry.Records.{Registry}
use production_local_llm_inf.Governance.Records.{GovernedVersion, RecordedVersion, is_given}
use production_local_llm_inf.Governance.Catalog.{same_tags, card_tags, recorded_tags}
use production_local_llm_inf.Governance.Plan.{is_live, has_stage, has_tags, clashes, is_changed}
use production_local_llm_inf.Governance.Wanted.{HasUniqueNames}
use production_local_llm_inf.Governance.Planned.{
  registers, moves, annotates, retires, records, IsUnwanted,
}
use production_local_llm_inf.Governance.Effects.{effect}
use production_local_llm_inf.Governance.Steps.{get-subjects_of}
use production_local_llm_inf.Governance.Settled.{Keeps}

abbrev pub stage_at : GovernedVersion → Option RecordedVersion → Bool
stage_at subject none = true
stage_at subject (some v) = has_stage subject v

abbrev pub tags_at : GovernedVersion → Option RecordedVersion → Bool
tags_at subject none = true
tags_at subject (some v) = has_tags subject v && not (clashes subject v)

abbrev pub dead_at : Option RecordedVersion → Bool
dead_at none = true
dead_at (some v) = not (is_live v)

pub same_tags_refl : (d : Dict String String) → same_tags d d ≡ true
unfolding same_tags
same_tags_refl d =
    all-of _ _ (λ entry m. (option_eq.beq_iff (get entry.0 d) (get entry.0 d)).1 refl)

pub is_changed_refl : (checksum : Option String) → is_changed checksum checksum ≡ false
unfolding is_changed is_given
is_changed_refl none = refl
is_changed_refl (some text) = ground (arith, string_eq.beq_iff text text)

elsewhere : (a n b r : String) → (a ≡ n → b ≡ r → ⊥) → (a == n && b == r) ≡ false
elsewhere a n b r apart = elim (Bool-cases (a == n)) [
  | inr off ↦ rw off
  | inl here ↦ elim (Bool-cases (b == r)) [
    | inr off ↦ rw (here, off)
    | inl same ↦ absurd (apart ((string_eq.beq_iff a n).0 here) ((string_eq.beq_iff b r).0 same))
  ]
]

module _ {F : Type 0} (registry : Registry F) (wanted : List GovernedVersion)
    (unique : HasUniqueNames wanted) where
  module _ (subject : GovernedVersion) (w : subject ∈ wanted) where
    stage_of_name :
        (rival : GovernedVersion)
        → rival ∈ wanted
        → (rival.name == subject.name) ≡ true
        → rival.stage ≡ subject.stage
    stage_of_name rival k same =
        ap (λ v. v.stage)
          (unique rival subject k w ((string_eq.beq_iff rival.name subject.name).0 same))

    pub stage-Keeps :
        Keeps wanted registry.benchmarks (stage_at subject) subject.name subject.revision
    unfolding effect
    stage-Keeps action o (registers rival k) h = ground (
      arith,
      get-subjects_of wanted subject unique w,
      stage_of_name rival k,
      stage_eq.beq_iff subject.stage rival.stage,
    )
    stage-Keeps action o (moves rival from_stage k) h =
        ground (arith, stage_of_name rival k, stage_eq.beq_iff subject.stage rival.stage)
    stage-Keeps action o (annotates rival k) h =
        ground (arith, get-subjects_of wanted subject unique w)
    stage-Keeps action o (retires item reason unwanted) h =
        rw
          (elsewhere item.name subject.name item.revision subject.revision
            (λ e q. unwanted subject w (sym e) (sym q)))
          h
    stage-Keeps action o (records run k) h = ground arith

    pub tags-Keeps :
        Keeps wanted registry.benchmarks (tags_at subject) subject.name subject.revision
    unfolding effect
    tags-Keeps action o (registers rival k) h = ground (
      arith,
      get-subjects_of wanted subject unique w,
      same_tags_refl (card_tags (recorded_tags subject)),
      is_changed_refl subject.checksum,
    )
    tags-Keeps action o (annotates rival k) h = ground (
      arith,
      get-subjects_of wanted subject unique w,
      same_tags_refl (card_tags (recorded_tags subject)),
      is_changed_refl subject.checksum,
    )
    tags-Keeps action o (moves rival from_stage k) h = ground arith
    tags-Keeps action o (retires item reason unwanted) h = ground arith
    tags-Keeps action o (records run k) h = ground arith

  pub dead-Keeps :
      (n r : String) → IsUnwanted wanted n r → Keeps wanted registry.benchmarks dead_at n r
  unfolding effect
  dead-Keeps n r unwanted action o (registers rival k) h =
      rw (elsewhere rival.name n rival.revision r (unwanted rival k)) h
  dead-Keeps n r unwanted action o (moves rival from_stage k) h =
      rw (elsewhere rival.name n rival.revision r (unwanted rival k)) h
  dead-Keeps n r unwanted action o (annotates rival k) h =
      rw (elsewhere rival.name n rival.revision r (unwanted rival k)) h
  dead-Keeps n r unwanted action o (retires item reason u) h = ground arith
  dead-Keeps n r unwanted action o (records run k) h = ground arith
