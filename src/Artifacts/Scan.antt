-- ===== src/Artifacts/Scan.antt =====
-- The rest of src/llm_router/artifact_scan.py: pickle imports, configuration files and `scan`, over
-- what the directory, its files and their JSON say. A finding's detail is a constructor with the values
-- it prints. A file's suffix is given in lower case.
use Prim.Native.String.{[] as empty, ◌∷◌ as cons}
use production_local_llm_inf.Prelude.{
  ℕ, zero, suc, Bool, true, false, not, ◌&&◌, ◌||◌, Option, none, some, List, [], ◌∷◌, ◌++◌, String,
  concat, leb, string_eq, ◌==◌, elem, is_empty, is_some, length, count_if, if◌then◌else◌,
}
use production_local_llm_inf.Prelude.Int.{ℤ, pos, negsuc}
use production_local_llm_inf.Prelude.Loops.{flat_map, only_if}
use production_local_llm_inf.Prelude.Text.{is_char, distinct, sorted_texts}
use production_local_llm_inf.Artifacts.Files.{
  Opcode, ConfigFile, bad_json, other_json, config_of, File, Artifact, Readers, pickle_payloads,
  artifact_digest,
}
use production_local_llm_inf.Artifacts.Tensors.{Problem, safetensors_problem}

pub data ArtifactKind : Type 0 where
  model adapter : ArtifactKind

pub data Rule : Type 0 where
  pickle code remote_code safetensors no_weights symlink adapter_config checksum : Rule

pub data Detail : Type 0 where
  links_outside ships_code imports_shipped_code no_safetensors config_missing : Detail
  runs_code : List String → Detail
  malformed : Problem → Detail
  config_not_json config_not_object : Detail
  not_lora : String → Detail
  rank_outside : Option ℤ → Detail
  digest_differs : String → String → Detail

pub record Finding : Type 0 where
  pub rule : Rule
  pub path : String
  pub detail : Detail

pub record ScanReport : Type 0 where
  pub root : String
  pub kind : ArtifactKind
  pub digest : String
  pub files : ℕ
  pub findings : List Finding

unfoldable pub passed : ScanReport → Bool
passed report = is_empty report.findings

-- `argument.replace(" ", ".")`.
unfoldable dotted : String → String
dotted empty = empty
dotted (cons c text) =
    let rest = dotted text in if is_char 32 c then concat "." rest else cons c rest

-- The texts that were read so far stand with the last one first.
abbrev stack_import : List String → List String
stack_import (name ∷ from ∷ strings) = concat from (concat "." name) ∷ []
stack_import _ = []

abbrev kept_text : Option String → List String → List String
kept_text none strings = strings
kept_text (some text) strings = text ∷ strings

abbrev imported : Opcode → List String → List String
imported opcode strings =
    if opcode.name == "GLOBAL" && is_some opcode.argument
    then elim opcode.argument [ none ↦ [] | some argument ↦ dotted argument ∷ [] ]
    else if opcode.name == "STACK_GLOBAL" && leb 2 (length strings)
    then stack_import strings
    else []

abbrev read_texts : Opcode → List String → List String
read_texts opcode strings =
    if opcode.name == "GLOBAL" && is_some opcode.argument
    then strings
    else if opcode.name == "STACK_GLOBAL" && leb 2 (length strings)
    then strings
    else kept_text opcode.argument strings

unfoldable imports_from : List String → List Opcode → List String
imports_from strings [] = []
imports_from strings (opcode ∷ opcodes) =
    imported opcode strings ++ imports_from (read_texts opcode strings) opcodes

-- The callables of the opcodes that could be read.
unfoldable pub pickle_imports : List Opcode → List String
unfolding imports_from dotted
pickle_imports opcodes = distinct (imports_from [] opcodes)

abbrev pub pickle_suffixes : List String
pickle_suffixes =
    ".bin" ∷ ".pt" ∷ ".pth" ∷ ".pkl" ∷ ".pickle" ∷ ".ckpt" ∷ ".joblib" ∷ ".npy" ∷ ".npz" ∷ []

abbrev pub code_suffixes : List String
code_suffixes = ".py" ∷ ".pyc" ∷ ".sh" ∷ ".so" ∷ ".dll" ∷ ".dylib" ∷ ".exe" ∷ []

abbrev pub config_files : List String
config_files = "config.json" ∷ "adapter_config.json" ∷ "tokenizer_config.json" ∷ []

-- `1 <= rank <= MAX_LORA_RANK`, where the rank is an integer.
abbrev pub is_servable_rank : Option ℤ → Bool
is_servable_rank none = false
is_servable_rank (some (pos rank)) = leb 1 rank && leb rank 32
is_servable_rank (some (negsuc rank)) = false

abbrev pub is_adapter : ArtifactKind → Bool
is_adapter ArtifactKind.model = false
is_adapter ArtifactKind.adapter = true

abbrev pub finding : Rule → String → Detail → Finding
finding rule path detail = record { rule = rule; path = path; detail = detail }

-- `xs[:n]`.
abbrev first_of : ℕ → List String → List String
first_of zero xs = []
first_of (suc n) [] = []
first_of (suc n) (x ∷ xs) = x ∷ first_of n xs

abbrev pub is_pickle : Readers → File → Bool
is_pickle readers file =
    not (is_empty (pickle_payloads readers file.content)) || elem file.suffix pickle_suffixes

abbrev pub is_code : File → Bool
is_code file = elem file.suffix code_suffixes

abbrev pub problem_findings : String → Option Problem → List Finding
problem_findings relative none = []
problem_findings relative (some problem) =
    finding Rule.safetensors relative (malformed problem) ∷ []

-- A file that counts as weights.
abbrev pub is_weights : Readers → File → Bool
is_weights readers file =
    not file.is_symlink
    && not (is_code file)
    && not (is_pickle readers file)
    && file.suffix == ".safetensors"

abbrev pub checksum_findings : Option String → String → List Finding
checksum_findings none digest = []
checksum_findings (some expected) digest =
    only_if (not (expected == "") && not (digest == expected))
      (finding Rule.checksum "." (digest_differs digest expected))

module _ (readers : Readers) (kind : ArtifactKind) where
  abbrev pub config_findings : String → String → ConfigFile → List Finding
  config_findings name relative bad_json = finding Rule.remote_code relative config_not_json ∷ []
  config_findings name relative other_json =
      finding Rule.remote_code relative config_not_object ∷ []
  config_findings name relative (config_of config) =
      only_if (config.has_auto_map || config.trusts)
        (finding Rule.remote_code relative imports_shipped_code)
      ++ (only_if
            (name == "adapter_config.json"
              && is_adapter kind
              && not (readers.upper config.peft_type == "LORA"))
            (finding Rule.adapter_config relative (not_lora config.peft_type))
          ++ only_if
              (name == "adapter_config.json"
                && is_adapter kind
                && not (is_servable_rank config.rank))
              (finding Rule.adapter_config relative (rank_outside config.rank)))

  unfoldable pub inspect : File → List Finding
  inspect file =
      if file.is_symlink
      then only_if (not file.stays_inside) (finding Rule.symlink file.relative links_outside)
      else if is_code file
      then finding Rule.code file.relative ships_code ∷ []
      else if is_pickle readers file
      then finding Rule.pickle file.relative (
          runs_code (
            first_of 8 (
              sorted_texts (
                distinct (
                  flat_map (λ payload. pickle_imports (readers.genops payload))
                    (pickle_payloads readers file.content))))))
        ∷ []
      else if file.suffix == ".safetensors"
      then problem_findings file.relative (safetensors_problem file.tensors)
      else if elem file.name config_files
      then config_findings file.name file.relative file.config
      else []

  unfoldable pub scan : Artifact → Option String → ScanReport
  unfolding inspect pickle_imports artifact_digest pickle_payloads
  scan artifact expected_digest = record {
    root = artifact.root;
    kind = kind;
    digest = artifact_digest readers artifact;
    files = length artifact.files;
    findings =
        flat_map inspect artifact.files
        ++ (only_if (leb (count_if (is_weights readers) artifact.files) 0)
              (finding Rule.no_weights "." no_safetensors)
            ++ (only_if (is_adapter kind && not artifact.has_adapter_config)
                  (finding Rule.adapter_config "." config_missing)
                ++ checksum_findings expected_digest (artifact_digest readers artifact)));
  }
