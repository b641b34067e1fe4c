-- ===== src/Credentials/Named.antt =====
-- The tenant that `authenticate` of src/llm_router/app.py attributes a request to.
use production_local_llm_inf.Prelude.{
  ◌≡◌, refl, ap, sym, ◌∙◌, concat, ◌⊎◌, inl, inr, Bool, true, false, Option, none, some, String, [],
  ◌∷◌, ◌∈◌, ◌==◌, string_eq, if◌then◌else◌, arith, Bool-cases,
}
use production_local_llm_inf.Prelude.Dict.{Dict}
use production_local_llm_inf.Prelude.Result.{Result, ok, raise, >>=-eq-ok}
use production_local_llm_inf.Prelude.Text.{starts_with, removeprefix, concat-removeprefix}
use production_local_llm_inf.Credentials.Verifier.{
  Jwt, TokenVerifier, VerifiedToken, CredentialError, verify, IsVouched,
}
use production_local_llm_inf.Credentials.Caller.{
  Principal, looks_like_a_token, compare_digest, match_key, by_token, by_match, by_key, with_token,
  authenticate,
}
use production_local_llm_inf.Credentials.Accepted.{verify-IsVouched}

compare_digest-ok :
    (token candidate : String) (same : Bool)
    → compare_digest token candidate ≡ ok same
    → same ≡ (token == candidate)
unfolding compare_digest
compare_digest-ok token candidate same h = ground arith

match_key-mem :
    (token tenant_id : String) (matched : Option String) (keys : Dict String String)
    → match_key token matched keys ≡ ok (some tenant_id)
    → (matched ≡ some tenant_id) ⊎ ((token, tenant_id) ∈ keys)
unfolding match_key
match_key-mem token tenant_id matched [] h = inl (ground (arith, h))
match_key-mem token tenant_id matched ((candidate, t) ∷ rest) h =
    let (same, compared, left) =
      >>=-eq-ok (compare_digest token candidate)
        (λ same. match_key token (if same then some t else matched) rest) h in
    let equal = compare_digest-ok token candidate same compared in
    elim (match_key-mem token tenant_id (if same then some t else matched) rest left) [
      | inl e ↦ elim (Bool-cases same) [
        | inl matches ↦
            inr (inl (ground (arith, e, matches, equal, string_eq.beq_iff token candidate)))
        | inr other ↦ inl (ground (arith, e, other))
      ]
      | inr m ↦ inr (inr m)
    ]

module _ {Key : Type 0} (jwt : Jwt Key) (sha256 : String → String) where
  -- The tenant is that of a token that the verifier vouches for.
  abbrev pub IsByToken : Option (TokenVerifier Key) → String → Principal → Type 0
  IsByToken verifier token principal =
      (v : TokenVerifier Key) × (r : VerifiedToken) × (verifier ≡ some v)
      × IsVouched jwt v token r
      × (principal.tenant_id ≡ r.tenant_id)

  -- The tenant is that of a static key.
  abbrev pub IsByKey : Bool → Dict String String → String → Principal → Type 0
  IsByKey require_short_lived keys token principal =
      (require_short_lived ≡ false) × ((token, principal.tenant_id) ∈ keys)

  by_token-ok :
      (v : TokenVerifier Key) (token : String) (answer : Result CredentialError VerifiedToken)
      (principal : Principal)
      → verify jwt v token ≡ answer
      → by_token jwt sha256 v answer ≡ ok principal
      → IsByToken (some v) token principal
  unfolding by_token
  by_token-ok v token (raise error) principal e h = ground arith
  by_token-ok v token (ok r) principal e h =
      (v, r, refl, verify-IsVouched jwt v token r e, ground arith)

  by_match-ok :
      (token : String) (o : Option String) (principal : Principal)
      → by_match jwt sha256 token o ≡ ok principal
      → o ≡ some principal.tenant_id
  unfolding by_match
  by_match-ok token none principal h = ground arith
  by_match-ok token (some tenant_id) principal h = ground arith

  by_key-ok :
      (require_short_lived : Bool) (keys : Dict String String) (token : String)
      (principal : Principal)
      → by_key jwt sha256 require_short_lived keys token ≡ ok principal
      → IsByKey require_short_lived keys token principal
  unfolding by_key
  by_key-ok true keys token principal h = ground arith
  by_key-ok false keys token principal h = (
    refl,
    let (o, found, named) = >>=-eq-ok (match_key token none keys) (by_match jwt sha256 token) h in
        elim (match_key-mem token principal.tenant_id none keys
          (found ∙ ap ok (by_match-ok token o principal named))) [
            | inl e ↦ ground (arith, e)
            | inr m ↦ m
          ],
  )

  with_token-ok :
      (verifier : Option (TokenVerifier Key)) (require_short_lived : Bool)
      (keys : Dict String String) (token : String) (principal : Principal)
      → with_token jwt sha256 verifier require_short_lived keys token ≡ ok principal
      → IsByToken verifier token principal ⊎ IsByKey require_short_lived keys token principal
  unfolding with_token
  with_token-ok none require_short_lived keys token principal h =
      inr (by_key-ok require_short_lived keys token principal h)
  with_token-ok (some v) require_short_lived keys token principal h =
      elim (Bool-cases (looks_like_a_token token)) [
        | inl e ↦
            inl (by_token-ok v token (verify jwt v token) principal refl (ground (arith, h, e)))
        | inr e ↦ inr (by_key-ok require_short_lived keys token principal (ground (arith, h, e)))
      ]

  -- A caller that is let in sent an authorization header with a bearer token, "Bearer " before it,
  -- and is attributed to the tenant that a vouched-for token names, or, only where static keys are
  -- accepted, to the tenant of a static key that is the token.
  pub authenticate-ok :
      (verifier : Option (TokenVerifier Key)) (require_short_lived : Bool)
      (keys : Dict String String) (authorization : Option String) (principal : Principal)
      → authenticate jwt sha256 verifier require_short_lived keys authorization ≡ ok principal
      → (token : String) × (authorization ≡ some (concat "Bearer " token))
        × (IsByToken verifier token principal ⊎ IsByKey require_short_lived keys token principal)
  unfolding authenticate
  authenticate-ok verifier require_short_lived keys none principal h = ground arith
  authenticate-ok verifier require_short_lived keys (some header) principal h =
      elim (Bool-cases (starts_with header "Bearer ")) [
        | inl e ↦ (
          removeprefix "Bearer " header,
          ap some (sym (concat-removeprefix "Bearer " header e)),
          with_token-ok verifier require_short_lived keys (removeprefix "Bearer " header) principal
              (rw e at h),
        )
        | inr e ↦ absurd (ground (arith, rw e at h))
      ]
