-- ===== src/Governance/Wanted.antt =====
-- The versions that src/llm_router/governance.py's `governed_versions` returns.
use production_local_llm_inf.Prelude.{
  ◌+◌, ◌≤◌, ◌≡◌, refl, ap, sym, Bool, true, List, [], ◌∷◌, ◌∈◌, map, String, arith, ltb, string_eq,
  ◌==◌, count_if, filter-mem, mem-ne-nil, map-mem, is_empty, if◌then◌else◌,
}
use production_local_llm_inf.Prelude.Text.{sorted_by-mem, distinct-mem}
use production_local_llm_inf.Prelude.Result.{ok}
use production_local_llm_inf.Registry.Records.{Registry}
use production_local_llm_inf.Governance.Records.{GovernedVersion}
use production_local_llm_inf.Governance.Catalog.{governed_versions, all_versions, duplicates}

module _ {A : Type 0} where
  count_if-pos : (p : A → Bool) (xs : List A) (a : A) → a ∈ xs → p a ≡ true → 1 ≤ count_if p xs
  count_if-pos p [] a m h = absurd m
  count_if-pos p (x ∷ xs) a m h = ground (arith, count_if-pos p xs a)

  -- Two members that pass a test that at most one passes are the same.
  same_of_count :
      (p : A → Bool) (xs : List A) (a b : A)
      → count_if p xs ≤ 1
      → a ∈ xs
      → b ∈ xs
      → p a ≡ true
      → p b ≡ true
      → a ≡ b
  same_of_count p [] a b h m k q r = absurd m
  same_of_count p (x ∷ xs) a b h m k q r =
      ground (arith, same_of_count p xs a b, count_if-pos p xs a, count_if-pos p xs b)

  count_if-map :
      {B : Type 0} (p : B → Bool) (f : A → B) (xs : List A)
      → count_if p (map f xs) ≡ count_if (λ x. p (f x)) xs
  count_if-map p f [] = refl
  count_if-map p f (x ∷ xs) = ap (λ n. (if p (f x) then 1 else 0) + n) (count_if-map p f xs)

count_of_no_duplicates :
    (names : List String) (name : String)
    → is_empty (duplicates names) ≡ true
    → name ∈ names
    → count_if (λ n. n == name) names ≤ 1
unfolding duplicates
count_of_no_duplicates names name h m =
    let p = λ (name : String). ltb 1 (count_if (λ n. n == name) names) in
    let placed = λ (q : p name ≡ true).
      mem-ne-nil _ name
        (sorted_by-mem (λ text. text) name _ (distinct-mem name _ (filter-mem p names name m q))) in
    ground (arith, placed)

-- No two versions share a name.
abbrev pub HasUniqueNames : List GovernedVersion → Type 0
HasUniqueNames wanted = (a b : GovernedVersion) → a ∈ wanted → b ∈ wanted → a.name ≡ b.name → a ≡ b

pub governed_versions-HasUniqueNames :
    {F : Type 0} (general_format : F → String) (registry : Registry F) (root : String)
    {wanted : List GovernedVersion}
    → governed_versions general_format registry root ≡ ok wanted
    → HasUniqueNames wanted
unfolding governed_versions
governed_versions-HasUniqueNames general_format registry root {wanted = wanted} h a b m k same =
    let versions = all_versions general_format registry root in
    let names = map (λ version. version.name) versions in
    let empty : is_empty (duplicates names) ≡ true = ground arith in
    let here : versions ≡ wanted = ground arith in
    let held = map-mem (λ version. version.name) wanted a.name a refl m in
    let few = count_of_no_duplicates names a.name empty (rw here held) in
    let count = count_if-map (λ n. n == a.name) (λ version. version.name) versions in
    same_of_count (λ version. version.name == a.name) versions a b (ground arith) (rw here m)
      (rw here k) ((string_eq.beq_iff a.name a.name).1 refl)
      ((string_eq.beq_iff b.name a.name).1 (sym same))
