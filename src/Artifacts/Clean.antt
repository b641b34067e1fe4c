-- ===== src/Artifacts/Clean.antt =====
-- When src/llm_router/artifact_scan.py's `scan` passes an artifact.
use production_local_llm_inf.Prelude.{
  ◌<◌, ◌≡◌, refl, ap, ◌↔◌, inl, inr, true, false, not, ◌&&◌, Option, none, some, List, ◌++◌, ◌∈◌,
  String, arith, leb, string_eq, ◌==◌, elem, is_empty, count_if, Bool-cases,
}
use production_local_llm_inf.Prelude.Loops.{
  is_empty-append, is_empty-flat_map, flat_map-is_empty, flat_map, only_if,
}
use production_local_llm_inf.Artifacts.Tensors.{safetensors_problem}
use production_local_llm_inf.Artifacts.Files.{
  ConfigFile, bad_json, other_json, config_of, File, Artifact, Readers, artifact_digest,
}
use production_local_llm_inf.Artifacts.Payloads.{HoldsNoPickle, pickle_payloads-nil_iff}
use production_local_llm_inf.Artifacts.Scan.{
  ArtifactKind, Rule, finding, no_safetensors, config_missing, pickle_suffixes, code_suffixes,
  config_files, is_servable_rank, is_adapter, is_weights, inspect, scan, passed, config_findings,
  checksum_findings,
}

-- Four lists in a row.
split_empty :
    {A : Type 0} (xs ys zs ws : List A)
    → is_empty (xs ++ (ys ++ (zs ++ ws))) ≡ true
    → (is_empty xs ≡ true) × (is_empty ys ≡ true) × (is_empty zs ≡ true) × (is_empty ws ≡ true)
split_empty xs ys zs ws h = ground (
  arith,
  is_empty-append xs (ys ++ (zs ++ ws)),
  is_empty-append ys (zs ++ ws),
  is_empty-append zs ws,
)

module _ (readers : Readers) (kind : ArtifactKind) where
  -- A configuration that asks for no shipped code and, for an adapter, names a LoRA of a rank that is
  -- served.
  abbrev pub IsCleanConfig : String → ConfigFile → Type 0
  IsCleanConfig name bad_json = ⊥
  IsCleanConfig name other_json = ⊥
  IsCleanConfig name (config_of config) =
      (config.has_auto_map ≡ false)
      × (config.trusts ≡ false)
      × ((name == "adapter_config.json") ≡ true
          → is_adapter kind ≡ true
          → ((readers.upper config.peft_type == "LORA") ≡ true)
            × (is_servable_rank config.rank ≡ true))

  -- A link that stays inside; or a file that is no code, no pickle, and sound weights or a clean
  -- configuration where it is either.
  pub record IsCleanFile (file : File) : Type 0 where
    pub linked : file.is_symlink ≡ true → file.stays_inside ≡ true
    pub no_code : file.is_symlink ≡ false → elem file.suffix code_suffixes ≡ false
    pub no_pickle :
        file.is_symlink ≡ false
        → HoldsNoPickle readers file.content × (elem file.suffix pickle_suffixes ≡ false)
    pub sound :
        file.is_symlink ≡ false
        → (file.suffix == ".safetensors") ≡ true
        → safetensors_problem file.tensors ≡ none
    pub configured :
        file.is_symlink ≡ false
        → (file.suffix == ".safetensors") ≡ false
        → elem file.name config_files ≡ true
        → IsCleanConfig file.name file.config

  config-clean :
      (name relative : String) (config : ConfigFile)
      → is_empty (config_findings readers kind name relative config) ≡ true
      → IsCleanConfig name config
  config-clean name relative bad_json h = absurd (ground arith)
  config-clean name relative other_json h = absurd (ground arith)
  config-clean name relative (config_of config) h = ground arith

  clean-config :
      (name relative : String) (config : ConfigFile)
      → IsCleanConfig name config
      → is_empty (config_findings readers kind name relative config) ≡ true
  clean-config name relative bad_json h = absurd h
  clean-config name relative other_json h = absurd h
  clean-config name relative (config_of config) h = ground arith

  inspect-IsCleanFile :
      (file : File) → is_empty (inspect readers kind file) ≡ true → IsCleanFile file
  unfolding inspect
  inspect-IsCleanFile file h = record {
    linked = λ link. ground arith;
    no_code = λ plain. ground arith;
    no_pickle =
        λ plain. ((pickle_payloads-nil_iff readers file.content).0 (ground arith), ground arith);
    sound = λ plain weights. ground arith;
    configured =
        λ plain other config. config-clean file.name file.relative file.config (ground arith);
  }

  IsCleanFile-inspect :
      (file : File) → IsCleanFile file → is_empty (inspect readers kind file) ≡ true
  unfolding inspect
  IsCleanFile-inspect file clean = elim (Bool-cases file.is_symlink) [
    | inl link ↦ let inside = clean.linked link in rw (link, inside)
    | inr plain ↦
        let code = clean.no_code plain in
        let (holds, suffix) = clean.no_pickle plain in
        let payloads = (pickle_payloads-nil_iff readers file.content).1 holds in
        elim (Bool-cases (file.suffix == ".safetensors")) [
          | inl weights ↦ let none = clean.sound plain weights in ground arith
          | inr other ↦ elim (Bool-cases (elem file.name config_files)) [
            | inl config ↦
                let empty =
                  clean-config file.name file.relative file.config
                    (clean.configured plain other config) in
                ground arith
            | inr rest ↦ ground arith
          ]
        ]
  ]

  -- Every file is clean, there are weights, an adapter has its configuration, and the digest is the
  -- one that is expected, where one is.
  pub record IsClean (artifact : Artifact) (expected_digest : Option String) : Type 0 where
    pub clean_files : (file : File) → file ∈ artifact.files → IsCleanFile file
    pub has_weights : 0 < count_if (is_weights readers) artifact.files
    pub has_config : is_adapter kind ≡ true → artifact.has_adapter_config ≡ true
    pub has_digest :
        (expected : String)
        → expected_digest ≡ some expected
        → (expected == "") ≡ false
        → artifact_digest readers artifact ≡ expected

  digest-matches :
      (expected_digest : Option String) (digest : String)
      → is_empty (checksum_findings expected_digest digest) ≡ true
      → (expected : String) → expected_digest ≡ some expected
      → (expected == "") ≡ false
      → digest ≡ expected
  digest-matches none digest h expected e given = absurd (ground arith)
  digest-matches (some wanted) digest h expected e given =
      let same : wanted ≡ expected = ground arith in
      ground (arith, string_eq.beq_iff digest wanted, ap (λ text. text == "") same)

  matches-digest :
      (expected_digest : Option String) (digest : String)
      → ((expected : String)
          → expected_digest ≡ some expected
          → (expected == "") ≡ false
          → digest ≡ expected)
      → is_empty (checksum_findings expected_digest digest) ≡ true
  matches-digest none digest h = refl
  matches-digest (some wanted) digest h = elim (Bool-cases (wanted == "")) [
    | inl blank ↦ rw blank
    | inr given ↦ let same = h wanted refl given in ground (arith, string_eq.beq_iff digest wanted)
  ]

  pub scan-passed_iff :
      (artifact : Artifact) (expected_digest : Option String)
      → (passed (scan readers kind artifact expected_digest) ≡ true)
        ↔ IsClean artifact expected_digest
  unfolding scan passed
  scan-passed_iff artifact expected_digest = (
    (λ h.
        let (files, weights, config, digest) =
          split_empty (flat_map (inspect readers kind) artifact.files)
            (only_if (leb (count_if (is_weights readers) artifact.files) 0)
              (finding Rule.no_weights "." no_safetensors))
            (only_if (is_adapter kind && not artifact.has_adapter_config)
              (finding Rule.adapter_config "." config_missing))
            (checksum_findings expected_digest (artifact_digest readers artifact)) h in
        record {
          clean_files = λ file m.
              inspect-IsCleanFile file
                (is_empty-flat_map (inspect readers kind) artifact.files files file m);
          has_weights = ground arith;
          has_config = λ a. ground arith;
          has_digest = digest-matches expected_digest (artifact_digest readers artifact) digest;
        }),
    λ clean.
        let all_clean =
          flat_map-is_empty (inspect readers kind) artifact.files
            (λ file m. IsCleanFile-inspect file (clean.clean_files file m)) in
        let digest =
          matches-digest expected_digest (artifact_digest readers artifact) clean.has_digest in
        let weights = clean.has_weights in let config = clean.has_config in ground arith,
  )
