-- ===== src/Artifacts/Tensors.antt =====
-- `_safetensors_problem` of src/llm_router/artifact_scan.py, over what the file's bytes and the JSON of
-- its header say.
use production_local_llm_inf.Prelude.{
  ℕ, ◌-◌, Bool, not, ◌&&◌, ◌||◌, Option, none, some, List, [], ◌∷◌, String, ltb, leb, nat_beq,
  string_eq, ◌==◌, elem, if◌then◌else◌,
}
use production_local_llm_inf.Prelude.Result.{Result, ok, raise, ◌>>=◌}
use production_local_llm_inf.Models.{or_else}
use production_local_llm_inf.Prelude.Int.{ℤ, pos, negsuc}

-- An entry of the header: its dtype, and its offsets where they are a list of two integers. An entry
-- that is no object has neither.
pub record Tensor : Type 0 where
  pub dtype : Option String
  pub data_offsets : Option (ℤ × ℤ)

pub data Header : Type 0 where
  not_json not_object : Header
  entries : List (String × Tensor) → Header

-- The number in the first eight bytes, where there are eight, and what follows parses to.
pub record TensorFile : Type 0 where
  pub size : ℕ
  pub header_length : Option ℕ
  pub header : Header

pub data Problem : Type 0 where
  too_short : Problem
  header_does_not_fit : ℕ → Problem
  header_not_json header_not_object : Problem
  unknown_dtype outside_the_file : String → Problem
  gap_or_overlap bytes_unaccounted_for : Problem

abbrev pub max_header_bytes : ℕ
max_header_bytes = 104857600

abbrev safetensors_dtypes : List String
safetensors_dtypes =
    "BOOL" ∷ "U8" ∷ "I8" ∷ "I16" ∷ "U16" ∷ "F16" ∷ "BF16" ∷ "I32" ∷ "U32" ∷ "F32" ∷ "F64" ∷ "I64"
    ∷ "U64" ∷ []

abbrev pub has_known_dtype : Tensor → Bool
has_known_dtype tensor = elem (or_else tensor.dtype "") safetensors_dtypes

-- The offsets, where `0 <= begin <= end <= data_size`.
abbrev pub span_of : ℕ → Option (ℤ × ℤ) → Option (ℕ × ℕ)
span_of data_size none = none
span_of data_size (some (pos begin, pos end)) =
    if leb begin end && leb end data_size then some (begin, end) else none
span_of data_size (some (pos begin, negsuc end)) = none
span_of data_size (some (negsuc begin, end)) = none

-- The spans of the tensors, or the first entry that is not one.
unfoldable pub collect_spans : ℕ → List (String × Tensor) → Result Problem (List (ℕ × ℕ))
collect_spans data_size [] = ok []
collect_spans data_size ((name, tensor) ∷ tensors) =
    let rest = collect_spans data_size tensors in
    if name == "__metadata__"
    then rest
    else if not (has_known_dtype tensor)
    then raise (unknown_dtype name)
    else elim (span_of data_size tensor.data_offsets) [
      | none ↦ raise (outside_the_file name)
      | some span ↦ rest >>= λ spans. ok (span ∷ spans)
    ]

-- The order of pairs.
abbrev pub span_before : ℕ × ℕ → ℕ × ℕ → Bool
span_before s t = ltb s.0 t.0 || (nat_beq s.0 t.0 && ltb s.1 t.1)

unfoldable pub insert_span : ℕ × ℕ → List (ℕ × ℕ) → List (ℕ × ℕ)
insert_span s [] = s ∷ []
insert_span s (t ∷ spans) = if span_before t s then t ∷ insert_span s spans else s ∷ t ∷ spans

-- `sorted(spans)`.
unfoldable pub sorted_spans : List (ℕ × ℕ) → List (ℕ × ℕ)
unfolding insert_span
sorted_spans [] = []
sorted_spans (s ∷ spans) = insert_span s (sorted_spans spans)

-- The walk over the sorted spans, from a position.
unfoldable pub walk : ℕ → ℕ → List (ℕ × ℕ) → Option Problem
walk data_size position [] = if nat_beq position data_size then none else some bytes_unaccounted_for
walk data_size position ((begin, end) ∷ spans) =
    let rest = walk data_size end spans in
    if nat_beq begin position then rest else some gap_or_overlap

abbrev pub spans_problem : ℕ → Result Problem (List (ℕ × ℕ)) → Option Problem
spans_problem data_size (raise problem) = some problem
spans_problem data_size (ok spans) = walk data_size 0 (sorted_spans spans)

abbrev pub header_problem : ℕ → Header → Option Problem
header_problem data_size Header.not_json = some header_not_json
header_problem data_size Header.not_object = some header_not_object
header_problem data_size (entries tensors) =
    spans_problem data_size (collect_spans data_size tensors)

unfoldable pub safetensors_problem : TensorFile → Option Problem
unfolding collect_spans sorted_spans walk
safetensors_problem file = elim file.header_length [
  | none ↦ some too_short
  | some length ↦
      if ltb max_header_bytes length || ltb (file.size - 8) length
      then some (header_does_not_fit length)
      else header_problem (file.size - 8 - length) file.header
]
