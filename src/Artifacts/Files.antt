-- ===== src/Artifacts/Files.antt =====
-- What src/llm_router/artifact_scan.py reads of an artifact: its files, the pickle streams in one,
-- and the digest of all. What other libraries say of the bytes of a file is a parameter.
use Prim.Native.Char.{nul}
use Prim.Native.String.{◌∷◌ as cons}
use production_local_llm_inf.Prelude.{
  ℕ, Bool, false, not, ◌&&◌, Option, none, some, List, [], ◌∷◌, map, filter, String, concat, leb,
  nat_beq, if◌then◌else◌,
}
use production_local_llm_inf.Prelude.Int.{ℤ}
use production_local_llm_inf.Prelude.Text.{join, ends_with}
use production_local_llm_inf.Artifacts.Tensors.{TensorFile}

-- One opcode of a pickle stream, with its argument where that is a text.
pub record Opcode : Type 0 where
  pub name : String
  pub argument : Option String

-- What a configuration file's JSON says: `trusts` is whether `trust_remote_code` is truthy, and the
-- rank is there where it is an integer.
pub record Config : Type 0 where
  pub has_auto_map : Bool
  pub trusts : Bool
  pub peft_type : String
  pub rank : Option ℤ

pub data ConfigFile : Type 0 where
  bad_json other_json : ConfigFile
  config_of : Config → ConfigFile

pub record File : Type 0 where
  pub relative : String
  pub name : String
  pub suffix : String
  pub is_symlink : Bool
  pub stays_inside : Bool
  pub content : List ℕ
  pub tensors : TensorFile
  pub config : ConfigFile

-- A directory: its files in order, and whether `adapter_config.json` is a file of it.
pub record Artifact : Type 0 where
  pub root : String
  pub files : List File
  pub has_adapter_config : Bool

-- Upper case and UTF-8 of a text, SHA-256 of bytes, the opcodes of a pickle stream that can be read,
-- and the members of a ZIP archive with their bytes, none where it is no archive.
pub record Readers : Type 0 where
  pub upper : String → String
  pub encode : String → List ℕ
  pub sha256 : List ℕ → String
  pub genops : List ℕ → List Opcode
  pub unzip : List ℕ → Option (List (String × List ℕ))

-- `head[:2] == b"PK"`, and a pickle's protocol opcode with a version from 2 to 5.
abbrev pub starts_archive : List ℕ → Bool
starts_archive (a ∷ b ∷ rest) = nat_beq a 80 && nat_beq b 75
starts_archive _ = false

abbrev pub starts_pickle : List ℕ → Bool
starts_pickle (a ∷ b ∷ rest) = nat_beq a 128 && (leb 2 b && leb b 5)
starts_pickle _ = false

abbrev pub is_pickle_member : String × List ℕ → Bool
is_pickle_member member = ends_with member.0 ".pkl"

abbrev pub pickle_members : Option (List (String × List ℕ)) → List (List ℕ)
pickle_members none = []
pickle_members (some members) = map (λ member. member.1) (filter is_pickle_member members)

module _ (readers : Readers) where
  -- `_pickle_payloads`, from the bytes of the file.
  unfoldable pub pickle_payloads : List ℕ → List (List ℕ)
  pickle_payloads content =
      if starts_archive content
      then pickle_members (readers.unzip content)
      else if starts_pickle content
      then content ∷ []
      else []

  -- The line of a file: its path, a null character and the digest of its bytes.
  abbrev digest_line : File → String
  digest_line file = concat file.relative (cons nul (concat (readers.sha256 file.content) "\n"))

  -- `artifact_digest`.
  unfoldable pub artifact_digest : Artifact → String
  artifact_digest artifact = concat "sha256:" (
      readers.sha256 (
        readers.encode
          (join "" (map digest_line (filter (λ file. not file.is_symlink) artifact.files)))))
