-- ===== src/Artifacts/Tiles.antt =====
-- The bytes that the tensors of a sound file account for, in src/llm_router/artifact_scan.py.
use production_local_llm_inf.Prelude.{
  ℕ, ◌-◌, ◌≤◌, ◌<◌, ◌≡◌, refl, inl, inr, Bool, false, not, ◌&&◌, ◌||◌, Option, none, some, List, [],
  ◌∷◌, String, arith, ltb, leb, string_eq, ◌==◌, count_if, if◌then◌else◌, Option-cases, Bool-cases,
}
use production_local_llm_inf.Prelude.Result.{Result, ok, raise, >>=-eq-ok}
use production_local_llm_inf.Prelude.Int.{ℤ, pos, negsuc}
use production_local_llm_inf.Artifacts.Tensors.{
  Tensor, TensorFile, Header, not_json, not_object, entries, Problem, unknown_dtype,
  outside_the_file, spans_problem, has_known_dtype, span_of, collect_spans, insert_span,
  sorted_spans, walk, header_problem, safetensors_problem, max_header_bytes,
}

abbrev covers : ℕ → ℕ × ℕ → Bool
covers p span = leb span.0 p && ltb p span.1

-- The tensor's offsets hold the position.
abbrev holds_at : ℕ → Option (ℤ × ℤ) → Bool
holds_at p none = false
holds_at p (some (pos begin, pos end)) = leb begin p && ltb p end
holds_at p (some (pos begin, negsuc end)) = false
holds_at p (some (negsuc begin, end)) = false

-- The entry is a tensor that holds the byte.
unfoldable pub holds : ℕ → String × Tensor → Bool
holds p (name, tensor) = not (name == "__metadata__") && holds_at p tensor.data_offsets

count_if-insert_span :
    (q : ℕ × ℕ → Bool) (s : ℕ × ℕ) (spans : List (ℕ × ℕ))
    → count_if q (insert_span s spans) ≡ count_if q (s ∷ spans)
unfolding insert_span
count_if-insert_span q s [] = refl
count_if-insert_span q s (t ∷ spans) = ground (arith, count_if-insert_span q s spans)

count_if-sorted_spans :
    (q : ℕ × ℕ → Bool) (spans : List (ℕ × ℕ)) → count_if q (sorted_spans spans) ≡ count_if q spans
unfolding sorted_spans
count_if-sorted_spans q [] = refl
count_if-sorted_spans q (s ∷ spans) =
    ground (arith, count_if-insert_span q s (sorted_spans spans), count_if-sorted_spans q spans)

abbrev IsForward : List (ℕ × ℕ) → Type 0
IsForward [] = Unit
IsForward (span ∷ spans) = (span.0 ≤ span.1) × IsForward spans

insert_span-IsForward :
    (s : ℕ × ℕ) (spans : List (ℕ × ℕ))
    → s.0 ≤ s.1
    → IsForward spans
    → IsForward (insert_span s spans)
unfolding insert_span
insert_span-IsForward s [] h k = (h, tt)
insert_span-IsForward s (t ∷ spans) h k = ground (arith, insert_span-IsForward s spans h k.1)

sorted_spans-IsForward : (spans : List (ℕ × ℕ)) → IsForward spans → IsForward (sorted_spans spans)
unfolding sorted_spans
sorted_spans-IsForward [] k = tt
sorted_spans-IsForward (s ∷ spans) k =
    insert_span-IsForward s (sorted_spans spans) k.0 (sorted_spans-IsForward spans k.1)

-- A walk without a problem covers every position from its start to the end once, and none before.
walk-covers :
    (size start : ℕ) (spans : List (ℕ × ℕ))
    → IsForward spans
    → walk size start spans ≡ none
    → (start ≤ size)
      × ((p : ℕ) → p < size → count_if (covers p) spans ≡ (if leb start p then 1 else 0))
unfolding walk
walk-covers size start [] k h = (ground arith, λ p l. ground arith)
walk-covers size start (span ∷ spans) k h =
    let rest : walk size span.1 spans ≡ none = ground arith in
    let from : span.0 ≡ start = ground arith in
    let (bound, covered) = walk-covers size span.1 spans k.1 rest in
    (ground arith, λ p l. ground (arith, covered p l))

-- Spans that run forward and cover the bytes that the tensors hold.
abbrev Spans : ℕ → List (String × Tensor) → List (ℕ × ℕ) → Type 0
Spans size tensors spans =
    IsForward spans × ((p : ℕ) → p < size → count_if (covers p) spans ≡ count_if (holds p) tensors)

span_of-some :
    (size : ℕ) (offsets : Option (ℤ × ℤ)) {span : ℕ × ℕ}
    → span_of size offsets ≡ some span
    → (span.0 ≤ span.1) × (span.1 ≤ size) × ((p : ℕ) → covers p span ≡ holds_at p offsets)
span_of-some size none {span} h = absurd (ground arith)
span_of-some size (some (pos begin, pos end)) {span} h =
    (ground arith, ground arith, λ p. ground arith)
span_of-some size (some (pos begin, negsuc end)) {span} h = absurd (ground arith)
span_of-some size (some (negsuc begin, end)) {span} h = absurd (ground arith)

collect_spans-Spans :
    (size : ℕ) (tensors : List (String × Tensor)) {spans : List (ℕ × ℕ)}
    → collect_spans size tensors ≡ ok spans
    → Spans size tensors spans
unfolding collect_spans holds
collect_spans-Spans size [] {spans = spans} h =
    let same : [] ≡ spans = ground arith in rw (← same) (tt, λ p l. refl)
collect_spans-Spans size ((name, tensor) ∷ tensors) {spans = spans} h =
    elim (Bool-cases (name == "__metadata__")) [
      | inl meta ↦
          let (forward, covered) = collect_spans-Spans size tensors (rw meta at h) in
          (forward, λ p l. ground (arith, covered p l))
      | inr real ↦ elim (Bool-cases (has_known_dtype tensor)) [
        | inr unknown ↦ absurd (never (unknown_dtype name) (rw (real, unknown) at h))
        | inl known ↦ elim (Option-cases (span_of size tensor.data_offsets)) [
          | inl outside ↦ absurd (never (outside_the_file name) (rw (real, known, outside) at h))
          | inr (span, inside) ↦
              let (rest, first, last) =
                >>=-eq-ok (collect_spans size tensors) (λ spans. ok (span ∷ spans))
                  (rw (real, known, inside) at h) in
              let same : (span ∷ rest) ≡ spans = ground arith in
              let (runs, within, held) = span_of-some size tensor.data_offsets inside in
              let (forward, covered) = collect_spans-Spans size tensors first in
              rw (← same) ((runs, forward), λ p l. ground (arith, held p, covered p l))
        ]
      ]
    ]
  where
    never :
        (problem : Problem) → ◌≡◌ {A = Result Problem (List (ℕ × ℕ))} (raise problem) (ok spans) → ⊥
    never problem q = ground arith

by_spans :
    (size : ℕ) (tensors : List (String × Tensor)) (m : Result Problem (List (ℕ × ℕ)))
    → collect_spans size tensors ≡ m
    → spans_problem size m ≡ none
    → (p : ℕ) → p < size
    → count_if (holds p) tensors ≡ 1
by_spans size tensors (raise problem) e q p l = absurd (ground arith)
by_spans size tensors (ok spans) e q p l =
    let (forward, covered) = collect_spans-Spans size tensors e in
    let (bound, once) =
      walk-covers size 0 (sorted_spans spans) (sorted_spans-IsForward spans forward) q in
    ground (arith, covered p l, once p l, count_if-sorted_spans (covers p) spans)

-- When the check of a safetensors file finds no problem, the header is a JSON object that fits the
-- file and the limit, and each byte behind it is held by exactly one of the tensors that the header
-- lists: none is shared, and none is left over.
pub safetensors_problem-none :
    (file : TensorFile)
    → safetensors_problem file ≡ none
    → (length : ℕ) × (tensors : List (String × Tensor)) × (file.header_length ≡ some length)
      × (file.header ≡ entries tensors)
      × (length ≤ max_header_bytes)
      × (length ≤ file.size - 8)
      × ((p : ℕ) → p < file.size - 8 - length → count_if (holds p) tensors ≡ 1)
unfolding safetensors_problem
safetensors_problem-none file h = elim (Option-cases file.header_length) [
  | inl short ↦ absurd (ground arith)
  | inr (length, held) ↦
      let fits : (ltb max_header_bytes length || ltb (file.size - 8) length) ≡ false =
        ground arith in
      let sound : header_problem (file.size - 8 - length) file.header ≡ none = ground arith in
      let (tensors, same, once) = by_header (file.size - 8 - length) file.header sound in
      (length, tensors, held, same, ground arith, ground arith, once)
]
  where
    by_header :
        (size : ℕ) (header : Header)
        → header_problem size header ≡ none
        → (tensors : List (String × Tensor)) × (header ≡ entries tensors)
          × ((p : ℕ) → p < size → count_if (holds p) tensors ≡ 1)
    by_header size not_json q = absurd (ground arith)
    by_header size not_object q = absurd (ground arith)
    by_header size (entries tensors) q =
        (tensors, refl, by_spans size tensors (collect_spans size tensors) refl q)
