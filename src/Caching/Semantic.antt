-- ===== src/Caching/Semantic.antt =====
-- `SemanticCache` of src/llm_router/caching.py. `text.lower().split()` is the argument `words`.
use production_local_llm_inf.Prelude.{
  ℕ, ◌+◌, ◌≤◌, ◌≡◌, ap, sym, ◌⊎◌, inl, inr, refl, Bool, true, false, not, Option, none, some, List,
  [], ◌∷◌, ◌++◌, String, length, is_empty, filter, elem, ◌∈◌, ◌&&◌, ◌||◌, string_eq, if◌then◌else◌,
  arith, Bool-cases,
}
use production_local_llm_inf.Prelude.Float.{Float, IsOrdered}
use production_local_llm_inf.Prelude.Dict.{Dict, get}
use production_local_llm_inf.Prelude.Bounded.{push, length-push-le}
use production_local_llm_inf.Models.{or_else}
use production_local_llm_inf.Caching.Store.{CachedCompletion}

-- `frozenset(words)`, each word once.
unfoldable pub frozenset : List String → List String
frozenset [] = []
frozenset (w ∷ ws) = let rest = frozenset ws in if elem w rest then rest else w ∷ rest

pub record SemanticCache (F : Type 0) : Type 0 where
  pub threshold : F
  pub max_entries : ℕ
  pub entries : Dict String (List (String × CachedCompletion))

-- The best score so far, and its value.
abbrev pub Best : Type 0 → Type 0
Best F = Option (F × CachedCompletion)

abbrev pub value_of : {F : Type 0} → Best F → Option CachedCompletion
value_of none = none
value_of (some (s, v)) = some v

abbrev pub bucket : {F : Type 0} → String → SemanticCache F → List (String × CachedCompletion)
bucket scope c = or_else (get scope c.entries) []

module _ {F : Type 0} ⦃f : Float F⦄ where
  unfoldable pub jaccard : List String → List String → F
  unfolding filter
  jaccard left right =
      let both = length (filter (λ w. elem w right) left) in
      let others = length (filter (λ w. not (elem w left)) right) in
      if is_empty left || is_empty right
      then f.of_nat 0
      else f.div (f.of_nat both) (f.of_nat (length left + others))

  unfoldable pub similarity : (String → List String) → String → String → F
  unfolding frozenset jaccard
  similarity words left right = jaccard (frozenset (words left)) (frozenset (words right))

  abbrev improves : F → F → Best F → Bool
  improves threshold s none = f.le threshold s
  improves threshold s (some (b, v)) = f.le threshold s && f.lt b s

  -- The loop of `lookup`.
  unfoldable pub best_of : (String → F) → F → Best F → List (String × CachedCompletion) → Best F
  best_of score threshold best [] = best
  best_of score threshold best ((stored_prompt, value) ∷ es) =
      best_of score threshold
        (if improves threshold (score stored_prompt) best
          then some (score stored_prompt, value)
          else best)
        es

  unfoldable pub lookup :
      (String → List String) → String → String → SemanticCache F → Option CachedCompletion
  unfolding best_of similarity
  lookup words scope text_ c =
      value_of (best_of (λ stored. similarity words stored text_) c.threshold none (bucket scope c))

  unfoldable pub store : String → String → CachedCompletion → SemanticCache F → SemanticCache F
  unfolding push
  store scope text_ value c = record c {
    entries = push c.max_entries scope (bucket scope c ++ (text_, value) ∷ []) c.entries;
  }

  -- What the loop returns: `best`, or an entry of the list over the threshold; nothing it passed
  -- over is better.
  record Chosen (score : String → F) (threshold : F) (best : Best F)
      (es : List (String × CachedCompletion)) (s : F) (v : CachedCompletion) : Type 0 where
    origin :
        (best ≡ some (s, v))
        ⊎ ((q : String) × ((q, v) ∈ es) × (score q ≡ s) × (f.le threshold s ≡ true))
    beats :
        (q : String) (w : CachedCompletion)
        → (q, w) ∈ es
        → f.le threshold (score q) ≡ true
        → f.le (score q) s ≡ true
    keeps : (b : F) (w : CachedCompletion) → best ≡ some (b, w) → f.le b s ≡ true

  over_threshold :
      (threshold x : F) (best : Best F) → improves threshold x best ≡ true → f.le threshold x ≡ true
  over_threshold threshold x none h = h
  over_threshold threshold x (some (b, w)) h = ground arith

  over_best :
      (laws : IsOrdered F) (threshold x : F) (best : Best F) (b : F) (w : CachedCompletion)
      → improves threshold x best ≡ true
      → best ≡ some (b, w)
      → f.le b x ≡ true
  over_best laws threshold x none b w h e = cc
  over_best laws threshold x (some (c, u)) b w h e = ground (arith, laws.le_of_lt c x)

  under_best :
      (laws : IsOrdered F) (threshold x : F) (best : Best F)
      → improves threshold x best ≡ false
      → f.le threshold x ≡ true
      → (b : F) × (w : CachedCompletion) × (best ≡ some (b, w)) × (f.le x b ≡ true)
  under_best laws threshold x none h t = absurd (ground arith)
  under_best laws threshold x (some (c, u)) h t =
      (c, u, refl, ground (arith, laws.lt-eq-not-le c x))

  best_of-Chosen :
      (laws : IsOrdered F) (score : String → F) (threshold : F) (best : Best F)
      (es : List (String × CachedCompletion)) {s : F} {v : CachedCompletion}
      → best_of score threshold best es ≡ some (s, v)
      → Chosen score threshold best es s v
  unfolding best_of
  best_of-Chosen laws score threshold best [] {s} {v} h = record {
    origin = inl h;
    beats = λ q w m. absurd m;
    keeps = λ b w e. ground (arith, laws.le_refl s);
  }
  best_of-Chosen laws score threshold best ((p, u) ∷ es) {s} {v} h =
      elim (Bool-cases (improves threshold (score p) best)) [
        | inl better ↦
            let rest =
              best_of-Chosen laws score threshold (some (score p, u)) es
                (rw (better, if◌then◌else◌) at h) in
            let kept : f.le (score p) s ≡ true = rest.keeps (score p) u refl in
            record {
              origin = elim rest.origin [
                | inl e ↦ inr (
                  p,
                  inl (ground (arith, e)),
                  ground (arith, e),
                  ground (arith, e, over_threshold threshold (score p) best better),
                )
                | inr (q, m, e, t) ↦ inr (q, inr m, e, t)
              ];
              beats = λ q w m t. elim m [
                | inl e ↦ ground (arith, e, kept)
                | inr i ↦ rest.beats q w i t
              ];
              keeps = λ b w e.
                  laws.le_trans b (score p) s (over_best laws threshold (score p) best b w better e)
                    kept;
            }
        | inr worse ↦
            let rest =
              best_of-Chosen laws score threshold best es (rw (worse, if◌then◌else◌) at h) in
            record {
              origin = elim rest.origin [ inl e ↦ inl e | inr (q, m, e, t) ↦ inr (q, inr m, e, t) ];
              beats = λ q w m t. elim m [
                | inl e ↦ first q w e t worse rest
                | inr i ↦ rest.beats q w i t
              ];
              keeps = rest.keeps;
            }
      ]
    where
      first :
          (q : String) (w : CachedCompletion)
          → ◌≡◌ {A = String × CachedCompletion} (q, w) (p, u)
          → f.le threshold (score q) ≡ true
          → improves threshold (score p) best ≡ false
          → Chosen score threshold best es s v
          → f.le (score q) s ≡ true
      first q w e t worse rest =
          let same : q ≡ p = ap (λ r. r.0) e in
          let t' : f.le threshold (score p) ≡ true = rw (sym same) t in
          let (b, x, held, below) = under_best laws threshold (score p) best worse t' in
          rw same (laws.le_trans (score p) b s below (rest.keeps b x held))

  value_of-some :
      (o : Best F) {v : CachedCompletion} → value_of o ≡ some v → (s : F) × (o ≡ some (s, v))
  value_of-some none h = cc
  value_of-some (some (s, w)) h = (s, ground arith)

  -- What a lookup returns was stored under the scope with a prompt at least as similar as the
  -- threshold, and no entry of the scope that reaches the threshold is more similar.
  pub lookup-best :
      (laws : IsOrdered F) (words : String → List String) (scope text_ : String)
      (c : SemanticCache F) {v : CachedCompletion}
      → lookup words scope text_ c ≡ some v
      → (p : String) × ((p, v) ∈ bucket scope c)
        × (f.le c.threshold (similarity words p text_) ≡ true)
        × ((q : String) (w : CachedCompletion)
            → (q, w) ∈ bucket scope c
            → f.le c.threshold (similarity words q text_) ≡ true
            → f.le (similarity words q text_) (similarity words p text_) ≡ true)
  unfolding lookup
  lookup-best laws words scope text_ c {v} h =
      let score : String → F = λ stored. similarity words stored text_ in
      let (s, found) = value_of-some (best_of score c.threshold none (bucket scope c)) h in
      let chosen = best_of-Chosen laws score c.threshold none (bucket scope c) found in
      elim chosen.origin [
        | inl e ↦ absurd (ground (arith, e))
        | inr (p, m, e, t) ↦ (p, m, rw e t, λ q w i r. rw e (chosen.beats q w i r))
      ]

  -- Storing never leaves more scopes than the cache's size.
  pub length-store-le :
      (scope text_ : String) (value : CachedCompletion) (c : SemanticCache F)
      → length (store scope text_ value c).entries ≤ c.max_entries
  unfolding store
  length-store-le scope text_ value c = length-push-le c.max_entries scope _ c.entries
