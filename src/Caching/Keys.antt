-- ===== src/Caching/Keys.antt =====
-- The keys and the eligibility tests of src/llm_router/caching.py. The digest, and what Python
-- prints for a number, are arguments.
use production_local_llm_inf.Prelude.{
  ℕ, ◌≡◌, Bool, true, not, Option, some, List, [], ◌∷◌, String, concat, ◌&&◌, elem, elem_iff, ◌==◌,
  ◌∈◌, arith,
}
use production_local_llm_inf.Prelude.Float.{Float}
use production_local_llm_inf.Models.{ChatCompletionRequest, join, prompt, or_else}
use production_local_llm_inf.Models.Enums.{
  PrivacyClass, TaskClass, privacy_eq, privacy_beq_iff, task_eq,
}

-- What Python's library gives: `hashlib.sha256(...).hexdigest()` and the texts of numbers.
pub record Printing (F : Type 0) : Type 0 where
  pub digest : String → String
  pub show_float : F → String
  pub show_nat : ℕ → String
  pub first_chars : ℕ → String → String

-- `SEMANTIC_CACHE_ELIGIBLE_TASKS`.
abbrev pub semantic_tasks : List TaskClass
semantic_tasks = TaskClass.classification ∷ TaskClass.extraction ∷ TaskClass.summarization ∷ []

abbrev pub privacy_value : PrivacyClass → String
privacy_value PrivacyClass.public = "public"
privacy_value PrivacyClass.private = "private"
privacy_value PrivacyClass.restricted = "restricted"

module _ {F : Type 0} where
  unfoldable pub material :
      Printing F → ChatCompletionRequest F → String → String → Option String → String
  unfolding join
  material p request tenant model_revision text_ = join "|" (
      tenant
      ∷ model_revision
      ∷ concat "max_tokens=" (p.show_nat request.max_tokens)
      ∷ concat "temperature=" (p.show_float request.temperature)
      ∷ concat "privacy=" (privacy_value request.routing.privacy)
      ∷ or_else text_ (prompt request)
      ∷ [])

  unfoldable pub build_cache_key :
      Printing F → ChatCompletionRequest F → String → String → Option String → String
  unfolding material
  build_cache_key p request tenant model_revision text_ =
      p.digest (material p request tenant model_revision text_)

  unfoldable pub prefix_key : Printing F → String → String → ℕ → String
  prefix_key p text_ model_revision prefix_chars =
      p.digest (concat model_revision (concat "|" (p.first_chars prefix_chars text_)))

  unfoldable pub scope : Printing F → ChatCompletionRequest F → String → String → String
  unfolding build_cache_key
  scope p request tenant model_revision = build_cache_key p request tenant model_revision (some "")

module _ {F : Type 0} ⦃f : Float F⦄ where
  -- `a == b` on floats.
  abbrev pub float_beq : F → F → Bool
  float_beq a b = f.le a b && f.le b a

  unfoldable pub exact_cache_eligible : ChatCompletionRequest F → Bool
  exact_cache_eligible request =
      float_beq request.temperature (f.of_nat 0)
      && not (request.routing.privacy == PrivacyClass.restricted)

  unfoldable pub semantic_cache_eligible : ChatCompletionRequest F → TaskClass → Bool
  semantic_cache_eligible request task =
      float_beq request.temperature (f.of_nat 0)
      && (request.routing.privacy == PrivacyClass.public && elem task semantic_tasks)

  -- Every request whose answer may be reused by similarity may be reused exactly; no restricted
  -- request is eligible for either cache, and similarity serves only public requests of the three
  -- listed tasks.
  pub semantic_cache_eligible-exact :
      (request : ChatCompletionRequest F) (task : TaskClass)
      → semantic_cache_eligible request task ≡ true
      → (exact_cache_eligible request ≡ true)
        × (request.routing.privacy ≡ PrivacyClass.public)
        × (task ∈ semantic_tasks)
  unfolding semantic_cache_eligible exact_cache_eligible
  semantic_cache_eligible-exact request task h =
      let public_one : request.routing.privacy ≡ PrivacyClass.public =
        ground (arith, privacy_beq_iff request.routing.privacy PrivacyClass.public) in
      let listed : elem task semantic_tasks ≡ true = ground arith in
      (
        ground (arith, public_one, privacy_beq_iff request.routing.privacy PrivacyClass.restricted),
        public_one,
        (elem_iff task semantic_tasks).0 listed,
      )
