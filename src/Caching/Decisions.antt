-- ===== src/Caching/Decisions.antt =====
-- `RouterDecisionCache` and `PrefixTracker` of src/llm_router/caching.py.
use production_local_llm_inf.Prelude.{
  ℕ, ◌≤◌, ◌<◌, ◌≡◌, ◌≢◌, ◌∙◌, refl, Bool, false, Option, none, some, [], String, concat, length,
  is_some, ◌==◌, string_eq, if◌then◌else◌, arith,
}
use production_local_llm_inf.Prelude.Dict.{Dict, get, move_to_end, IsDistinct}
use production_local_llm_inf.Prelude.Bounded.{push, length-push-le, get-push_self}
use production_local_llm_inf.Models.Enums.{TaskClass}
use production_local_llm_inf.Caching.Keys.{Printing, prefix_key}

pub record RouterDecisionCache : Type 0 where
  pub policy_version : String
  pub max_entries : ℕ
  pub entries : Dict String TaskClass

unfoldable pub decision_key : (String → String) → String → String → String
decision_key digest policy_version text_ = digest (concat policy_version (concat "|" text_))

unfoldable pub recalled :
    String → RouterDecisionCache → Option TaskClass → RouterDecisionCache × Option TaskClass
recalled key c none = (c, none)
recalled key c (some task) = (record c { entries = move_to_end key c.entries }, some task)

-- `get`.
unfoldable pub recall :
    (String → String) → String → RouterDecisionCache → RouterDecisionCache × Option TaskClass
unfolding recalled decision_key
recall digest text_ c =
    let key = decision_key digest c.policy_version text_ in recalled key c (get key c.entries)

-- `set`.
unfoldable pub remember :
    (String → String) → String → TaskClass → RouterDecisionCache → RouterDecisionCache
unfolding push decision_key
remember digest text_ task c = record c {
  entries = push c.max_entries (decision_key digest c.policy_version text_) task c.entries;
}

unfoldable pub invalidate : String → RouterDecisionCache → RouterDecisionCache
invalidate policy_version c =
    if policy_version == c.policy_version
    then c
    else record c { policy_version = policy_version; entries = [] }

pub record PrefixTracker : Type 0 where
  pub max_entries : ℕ
  pub prefix_chars : ℕ
  pub seen : Dict String Unit

-- `observe`: the tracker after the prompt, and whether its prefix was seen.
unfoldable pub observe :
    {F : Type 0} → Printing F → String → String → PrefixTracker → PrefixTracker × Bool
unfolding push prefix_key
observe p text_ model_revision t =
    let key = prefix_key p text_ model_revision t.prefix_chars in
    (record t { seen = push t.max_entries key tt t.seen }, is_some (get key t.seen))

recalled-some :
    (key : String) (c : RouterDecisionCache) (o : Option TaskClass) → (recalled key c o).1 ≡ o
unfolding recalled
recalled-some key c none = refl
recalled-some key c (some task) = refl

-- A task that was remembered for a prompt is recalled for it, by a cache of a positive size, until
-- the policy changes: then nothing is recalled for any prompt. The size is never exceeded.
pub recall-remember :
    (digest : String → String) (text_ other version : String) (task : TaskClass)
    (c : RouterDecisionCache)
    → 0 < c.max_entries
    → IsDistinct c.entries
    → version ≢ c.policy_version
    → ((recall digest text_ (remember digest text_ task c)).1 ≡ some task)
      × ((recall digest other (invalidate version (remember digest text_ task c))).1 ≡ none)
      × (length (remember digest text_ task c).entries ≤ c.max_entries)
unfolding recall remember invalidate decision_key get
recall-remember digest text_ other version task c positive distinct changed =
    let key = decision_key digest c.policy_version text_ in
    let written = remember digest text_ task c in
    (
      recalled-some key written (get key written.entries)
          ∙ get-push_self c.max_entries key task c.entries positive distinct,
      rw (differs, if◌then◌else◌) refl,
      length-push-le c.max_entries key task c.entries,
    )
  where
    differs : (version == c.policy_version) ≡ false
    differs = ground (arith, string_eq.beq_iff version c.policy_version)
