-- ===== src/Tests/Scans.antt =====
-- An adapter of one safetensors file and its configuration.
use production_local_llm_inf.Prelude.{
  ◌≡◌, refl, ℕ, ◌≤◌, ◌<◌, ◌-◌, ◌↔◌, true, false, none, some, List, [], ◌∷◌, String, count_if, elem,
}
use production_local_llm_inf.Prelude.Int.{pos}
use production_local_llm_inf.Artifacts.Tensors.{
  Tensor, TensorFile, entries, safetensors_problem, max_header_bytes,
}
use production_local_llm_inf.Artifacts.Tiles.{holds, safetensors_problem-none}
use production_local_llm_inf.Artifacts.Files.{Readers, File, Artifact, config_of, other_json}
use production_local_llm_inf.Artifacts.Scan.{ArtifactKind, passed, scan}
use production_local_llm_inf.Artifacts.Clean.{IsClean, scan-passed_iff}

abbrev weights : TensorFile
weights = record {
  size = 40;
  header_length = some 12;
  header = entries (
      ("b", record { dtype = some "F32"; data_offsets = some (pos 8, pos 20) })
      ∷ ("__metadata__", record { dtype = none; data_offsets = none })
      ∷ ("a", record { dtype = some "BF16"; data_offsets = some (pos 0, pos 8) })
      ∷ []);
}

sound_weights : safetensors_problem weights ≡ none
unfolding safetensors_problem elem
sound_weights = refl

safetensors_problem-none_example :
    (length : ℕ) × (tensors : List (String × Tensor)) × (weights.header_length ≡ some length)
    × (weights.header ≡ entries tensors)
    × (length ≤ max_header_bytes)
    × (length ≤ weights.size - 8)
    × ((p : ℕ) → p < weights.size - 8 - length → count_if (holds p) tensors ≡ 1)
safetensors_problem-none_example = safetensors_problem-none weights sound_weights

abbrev pub readers : Readers
readers = record {
  upper = λ text. text;
  encode = λ text. [];
  sha256 = λ bytes. "1";
  genops = λ bytes. [];
  unzip = λ bytes. none;
}

abbrev weights_file : File
weights_file = record {
  relative = "adapter_model.safetensors";
  name = "adapter_model.safetensors";
  suffix = ".safetensors";
  is_symlink = false;
  stays_inside = true;
  content = 123 ∷ 125 ∷ [];
  tensors = weights;
  config = other_json;
}

abbrev config_file : File
config_file = record weights_file {
  relative = "adapter_config.json";
  name = "adapter_config.json";
  suffix = ".json";
  config =
      config_of
        (record { has_auto_map = false; trusts = false; peft_type = "LORA"; rank = some (pos 16) });
}

abbrev pub legal_adapter : Artifact
legal_adapter = record {
  root = "adapters/legal";
  files = config_file ∷ weights_file ∷ [];
  has_adapter_config = true;
}

scan-passed_iff_example :
    (passed (scan readers ArtifactKind.adapter legal_adapter (some "sha256:1")) ≡ true)
    ↔ IsClean readers ArtifactKind.adapter legal_adapter (some "sha256:1")
scan-passed_iff_example =
    scan-passed_iff readers ArtifactKind.adapter legal_adapter (some "sha256:1")
