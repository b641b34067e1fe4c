-- ===== src/Governance/Filed.antt =====
-- The lookup of a version in src/llm_router/governance.py's `InMemoryStore`, after each operation.
use production_local_llm_inf.Prelude.{
  ◌≡◌, refl, ap, sym, ◌∙◌, inl, inr, ◌&&◌, ◌||◌, Option, none, some, [], ◌∷◌, ◌∈◌, map, String,
  arith, string_eq, ◌==◌, elem, mem-map, map-mem, Option-cases, if◌then◌else◌, Eq,
}
use production_local_llm_inf.Prelude.Dict.{Dict, get, put, IsDistinct, get-put, put-IsDistinct}
use production_local_llm_inf.Prelude.Keyed.{mem-keyed, get-keyed, get-mem, mem-get}
use production_local_llm_inf.Prelude.Result.{ok, raise}
use production_local_llm_inf.Models.{or_else}
use production_local_llm_inf.Governance.Records.{RecordedVersion, missing_key}
use production_local_llm_inf.Governance.Plan.{recorded_of}
use production_local_llm_inf.Governance.Memory.{
  InMemoryStore, stored, hold, amend, memory, empty_store,
}

module _ {F : Type 0} where
  -- The version that the store holds at a name and a revision.
  unfoldable pub find : InMemoryStore F → String → String → Option RecordedVersion
  unfolding stored
  find s name revision = get revision (stored s name)

  -- Every version stands under its own name and revision, and no revision stands twice.
  pub record IsFiled (s : InMemoryStore F) : Type 0 where
    pub names_match : (n r : String) (v : RecordedVersion) → find s n r ≡ some v → v.name ≡ n
    pub revisions_match :
        (n r : String) (v : RecordedVersion) → find s n r ≡ some v → v.revision ≡ r
    pub distinct : (n : String) → IsDistinct (stored s n)

  pub find-hold :
      (n r m q : String) (v : RecordedVersion) (s : InMemoryStore F)
      → find (hold n r v s) m q ≡ (if n == m && r == q then some v else find s m q)
  unfolding find hold stored get
  find-hold n r m q v s = ground (
    arith,
    get-put n m (put r v (or_else (get n s.recorded) [])) s.recorded,
    get-put r q v (or_else (get n s.recorded) []),
    string_eq.beq_iff n m,
  )

  stored-hold :
      (n r m : String) (v : RecordedVersion) (s : InMemoryStore F)
      → stored (hold n r v s) m ≡ (if n == m then put r v (stored s n) else stored s m)
  unfolding hold stored
  stored-hold n r m v s =
      ground (arith, get-put n m (put r v (or_else (get n s.recorded) [])) s.recorded)

  pub hold-IsFiled :
      (n r : String) (v : RecordedVersion) (s : InMemoryStore F)
      → v.name ≡ n
      → v.revision ≡ r
      → IsFiled s
      → IsFiled (hold n r v s)
  hold-IsFiled n r v s named revised filed = record {
    names_match = λ m q w h.
        ground (arith, find-hold n r m q v s, filed.names_match m q w, string_eq.beq_iff n m);
    revisions_match = λ m q w h.
        ground (arith, find-hold n r m q v s, filed.revisions_match m q w, string_eq.beq_iff r q);
    distinct = λ m.
        let e = stored-hold n r m v s in
        ground (arith, put-IsDistinct r v (stored s n) (filed.distinct n), filed.distinct m);
  }

  pub empty-IsFiled : IsFiled empty_store
  unfolding find stored get
  empty-IsFiled = record {
    names_match = λ n r v h. absurd (ground arith);
    revisions_match = λ n r v h. absurd (ground arith);
    distinct = λ n. tt;
  }

  pub amend-ok :
      (n r : String) (change : RecordedVersion → RecordedVersion) (s : InMemoryStore F)
      {v : RecordedVersion}
      → find s n r ≡ some v
      → amend n r change s ≡ ok (hold n r (change v) s)
  unfolding find amend stored
  amend-ok n r change s h = rw (amend, h)

  pub amend-missing :
      (n r : String) (change : RecordedVersion → RecordedVersion) (s : InMemoryStore F)
      → find s n r ≡ none
      → amend n r change s ≡ raise missing_key
  unfolding find amend stored
  amend-missing n r change s h = rw (amend, h)

  -- The versions of a name are those that can be looked up.
  pub mem-versions :
      (s : InMemoryStore F) (n : String) (v : RecordedVersion)
      → IsFiled s
      → v ∈ memory.versions s n
      → find s n v.revision ≡ some v
  unfolding find
  mem-versions s n v filed m =
      let (entry, held, same) = mem-map (λ entry. entry.1) (stored s n) v m in
      let found : get entry.0 (stored s n) ≡ some v =
        mem-get entry.0 entry.1 (stored s n) (filed.distinct n) held ∙ ap some (sym same) in
      let revision = filed.revisions_match n entry.0 v found in ground arith

  pub versions-mem :
      (s : InMemoryStore F) (n r : String) (v : RecordedVersion)
      → find s n r ≡ some v
      → v ∈ memory.versions s n
  unfolding find
  versions-mem s n r v h =
      map-mem (λ entry. entry.1) (stored s n) v (r, v) refl (get-mem r (stored s n) h)

  pub names-mem :
      (s : InMemoryStore F) (n r : String) (v : RecordedVersion)
      → find s n r ≡ some v
      → n ∈ memory.names s
  unfolding find stored get
  names-mem s n r v h = elim (Option-cases (get n s.recorded)) [
    | inl missing ↦ absurd (ground arith)
    | inr (d, held) ↦
        map-mem (λ entry. entry.0) s.recorded n (n, d) refl (get-mem n s.recorded held)
  ]

  -- The plan's dictionary of a name's revisions looks up as the store does.
  pub get-recorded_of :
      (s : InMemoryStore F) (n r : String) → IsFiled s → get r (recorded_of memory s n) ≡ find s n r
  unfolding recorded_of
  get-recorded_of s n r filed = elim (Option-cases (find s n r)) [
    | inl missing ↦ absent missing
    | inr (v, held) ↦ present v held
  ]
    where
      absent : find s n r ≡ none → get r (recorded_of memory s n) ≡ find s n r
      absent missing = elim (Option-cases (get r (recorded_of memory s n))) [
        | inl e ↦ e ∙ sym missing
        | inr (v, e) ↦
            let (m, same) = mem-keyed (λ item. item.revision) (memory.versions s n) r e in
            let held = mem-versions s n v filed m in absurd (ground arith)
      ]

      present :
          (v : RecordedVersion) → find s n r ≡ some v → get r (recorded_of memory s n) ≡ find s n r
      present v held =
          let revision = filed.revisions_match n r v held in
          let one : (w : RecordedVersion)
              → w ∈ memory.versions s n
              → w.revision ≡ v.revision
              → w ≡ v =
            λ w m same. let other = mem-versions s n w filed m in ground arith in
          let found =
            get-keyed (λ item. item.revision) (memory.versions s n) v (versions-mem s n r v held)
              one in
          ground arith

module _ {K V : Type 0} ⦃e : Eq K⦄ where
  -- The keys of a dictionary after an assignment.
  pub elem-keys-put :
      (j k : K) (v : V) (d : Dict K V)
      → elem j (map (λ entry. entry.0) (put k v d)) ≡ (elem j (map (λ entry. entry.0) d) || j == k)
  unfolding elem put
  elem-keys-put j k v [] = ground arith
  elem-keys-put j k v ((i, w) ∷ d) =
      ground (arith, elem-keys-put j k v d, e.beq_iff i k, e.beq_iff j i, e.beq_iff j k)
