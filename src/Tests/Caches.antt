-- ===== src/Tests/Caches.antt =====
-- The caches at concrete inputs.
use production_local_llm_inf.Prelude.{
  eq_iff, ◌≢◌, ◌≡◌, refl, true, false, some, List, [], ◌∷◌, String, arith, ◌∈◌, elem,
}
use production_local_llm_inf.Prelude.Int.{ℤ, pos}
use production_local_llm_inf.Prelude.Float.{milli_float, Milli-IsOrdered}
use production_local_llm_inf.Prelude.Dict.{get, put, remove, move_to_end}
use production_local_llm_inf.Prelude.Bounded.{trim}
use production_local_llm_inf.Models.Enums.{TaskClass}
use production_local_llm_inf.Caching.Keys.{Printing}
use production_local_llm_inf.Caching.Store.{
  CachedCompletion, Call, sets, gets, written, store_after, fetch, fetch-store_after,
}
use production_local_llm_inf.Caching.Semantic.{
  SemanticCache, bucket, lookup, similarity, lookup-best,
}
use production_local_llm_inf.Caching.Decisions.{RouterDecisionCache}

abbrev answer : CachedCompletion
answer = record {
  text_ = "hi";
  model_id = "small";
  model_revision = "r1";
  prompt_tokens = 1;
  completion_tokens = 1;
}

abbrev calls : List (Call ℤ)
calls = gets (pos 2000) "b" ∷ sets (pos 1000) "a" answer ∷ []

fetched : (fetch (pos 3000) "a" (store_after 2 (pos 300000) calls)).1 ≡ some answer
unfolding fetch get store_after trim move_to_end put remove
fetched = refl

fetch-store_after_example :
    (expires_at : ℤ) × (written (pos 300000) "a" calls ≡ some (expires_at, answer))
    × (milli_float.le expires_at (pos 3000) ≡ false)
fetch-store_after_example =
    fetch-store_after 2 (pos 300000) calls (pos 3000) "a" {value = answer} fetched

abbrev semantic : SemanticCache ℤ
semantic = record {
  threshold = pos 900;
  max_entries = 4;
  entries = ("scope", ("classify this", answer) ∷ []) ∷ [];
}

abbrev one_word : String → List String
one_word t = t ∷ []

found : lookup one_word "scope" "classify this" semantic ≡ some answer
unfolding lookup get elem
found = refl

lookup-best_example :
    (p : String) × ((p, answer) ∈ bucket "scope" semantic)
    × (milli_float.le semantic.threshold (similarity one_word p "classify this") ≡ true)
    × ((q : String) (w : CachedCompletion)
        → (q, w) ∈ bucket "scope" semantic
        → milli_float.le semantic.threshold (similarity one_word q "classify this") ≡ true
        → milli_float.le
            (similarity one_word q "classify this")
            (similarity one_word p "classify this")
          ≡ true)
lookup-best_example =
    lookup-best Milli-IsOrdered one_word "scope" "classify this" semantic {v = answer} found

abbrev decisions : RouterDecisionCache
decisions = record { policy_version = "v1"; max_entries = 2; entries = ("k", TaskClass.rag) ∷ [] }

abbrev same_text : String → String
same_text t = t

changed_version : "v2" ≢ decisions.policy_version
changed_version e = ground (arith, eq_iff "v2" "v1")

abbrev printing : Printing ℤ
printing = record {
  digest = same_text;
  show_float = λ x. "0.0";
  show_nat = λ n. "256";
  first_chars = λ n t. t;
}
