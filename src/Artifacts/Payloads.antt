-- ===== src/Artifacts/Payloads.antt =====
-- When a file of src/llm_router/artifact_scan.py holds no pickle stream.
use production_local_llm_inf.Prelude.{
  ℕ, ◌≤◌, ◌≡◌, ◌↔◌, refl, inl, inr, true, false, some, List, [], ◌∷◌, ◌∈◌, String, map, filter,
  arith, is_empty, Bool-cases, Option-cases,
}
use production_local_llm_inf.Prelude.Text.{ends_with}
use production_local_llm_inf.Artifacts.Files.{
  Readers, starts_archive, starts_pickle, is_pickle_member, pickle_payloads,
}

-- A file that starts as a ZIP archive has no member named as a pickle, and no other one starts as a
-- pickle of protocol 2 to 5.
pub record HoldsNoPickle (readers : Readers) (content : List ℕ) : Type 0 where
  pub no_member :
      (rest : List ℕ) (members : List (String × List ℕ)) (member : String × List ℕ)
      → content ≡ 80 ∷ 75 ∷ rest
      → readers.unzip content ≡ some members
      → member ∈ members
      → ends_with member.0 ".pkl" ≡ false
  pub no_stream :
      (version : ℕ) (rest : List ℕ) → content ≡ 128 ∷ version ∷ rest → 2 ≤ version → version ≤ 5 → ⊥

starts_archive-true :
    (content : List ℕ)
    → starts_archive content ≡ true
    → (rest : List ℕ) × (content ≡ 80 ∷ 75 ∷ rest)
starts_archive-true [] h = absurd (ground arith)
starts_archive-true (a ∷ []) h = absurd (ground arith)
starts_archive-true (a ∷ b ∷ rest) h = (rest, ground arith)

starts_pickle-false :
    (content : List ℕ)
    → ((version : ℕ) (rest : List ℕ)
        → content ≡ 128 ∷ version ∷ rest
        → 2 ≤ version
        → version ≤ 5
        → ⊥)
    → starts_pickle content ≡ false
starts_pickle-false [] h = refl
starts_pickle-false (a ∷ []) h = refl
starts_pickle-false (a ∷ b ∷ rest) h = ground (arith, h b rest)

no_member_kept :
    (members : List (String × List ℕ))
    → is_empty (map (λ (m : String × List ℕ). m.1) (filter is_pickle_member members)) ≡ true
    → (member : String × List ℕ) → member ∈ members
    → is_pickle_member member ≡ false
unfolding filter
no_member_kept [] h member m = absurd m
no_member_kept (x ∷ xs) h member m = elim (Bool-cases (is_pickle_member x)) [
  | inl kept ↦ absurd (ground (arith, rw kept at h))
  | inr skipped ↦ elim m [
    | inl e ↦ rw e skipped
    | inr k ↦ no_member_kept xs (rw skipped at h) member k
  ]
]

none_kept :
    (members : List (String × List ℕ))
    → ((member : String × List ℕ) → member ∈ members → is_pickle_member member ≡ false)
    → is_empty (map (λ (m : String × List ℕ). m.1) (filter is_pickle_member members)) ≡ true
unfolding filter
none_kept [] h = refl
none_kept (x ∷ xs) h =
    let skipped = h x (inl refl) in rw skipped (none_kept xs (λ member m. h member (inr m)))

module _ (readers : Readers) where
  payloads-HoldsNoPickle :
      (content : List ℕ)
      → is_empty (pickle_payloads readers content) ≡ true
      → HoldsNoPickle readers content
  unfolding pickle_payloads
  payloads-HoldsNoPickle content h = record {
    no_member = λ rest members member e z m.
        let archive : starts_archive content ≡ true = rw e refl in
        no_member_kept members (rw (archive, z) at h) member m;
    no_stream = λ version rest e low high.
        let other : starts_archive content ≡ false = rw e refl in
        let stream : starts_pickle content ≡ true = rw e (ground arith) in
        absurd (ground (arith, rw (other, stream) at h));
  }

  HoldsNoPickle-payloads :
      (content : List ℕ)
      → HoldsNoPickle readers content
      → is_empty (pickle_payloads readers content) ≡ true
  unfolding pickle_payloads
  HoldsNoPickle-payloads content clean = elim (Bool-cases (starts_archive content)) [
    | inl archive ↦
        let (rest, e) = starts_archive-true content archive in
        elim (Option-cases (readers.unzip content)) [
          | inl broken ↦ rw (archive, broken) refl
          | inr (members, z) ↦
              rw (archive, z)
                (none_kept members (λ member m. clean.no_member rest members member e z m))
        ]
    | inr other ↦ rw (other, starts_pickle-false content clean.no_stream) refl
  ]

  pub pickle_payloads-nil_iff :
      (content : List ℕ)
      → (is_empty (pickle_payloads readers content) ≡ true) ↔ HoldsNoPickle readers content
  pickle_payloads-nil_iff content = (payloads-HoldsNoPickle content, HoldsNoPickle-payloads content)
