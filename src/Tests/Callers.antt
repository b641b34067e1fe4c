-- ===== src/Tests/Callers.antt =====
-- A caller with a signed token, at concrete inputs.
use production_local_llm_inf.Prelude.{
  ◌≡◌, ◌⊎◌, refl, concat, ℕ, true, none, some, String, [], ◌==◌, string_eq, elem, if◌then◌else◌,
}
use production_local_llm_inf.Prelude.Result.{ok, raise}
use production_local_llm_inf.Prelude.Text.{removeprefix, count_char}
use production_local_llm_inf.Credentials.Verifier.{
  Jwt, TokenVerifier, Claims, text_claim, other_failure, verify,
}
use production_local_llm_inf.Credentials.Caller.{Principal, authenticate, looks_like_a_token}
use production_local_llm_inf.Credentials.Named.{IsByToken, IsByKey, authenticate-ok}

abbrev claims : Claims
claims = record {
  subject = "worker";
  issued_at = 1000;
  expires_at = 1600;
  named = λ name. if name == "tenant" then some (text_claim "acme") else none;
}

abbrev jwt : Jwt ℕ
jwt = record {
  unverified_header = λ token. some (record { algorithm = some "RS256"; key_id = some "k1" });
  decode = λ token key algorithm audience issuer.
      if token == "a.b.c" then ok claims else raise other_failure;
}

abbrev verifier : TokenVerifier ℕ
verifier = record {
  issuer = "idp";
  audience = "gateway";
  key = λ id. some 7;
  max_lifetime_seconds = 900;
  tenant_claim = "tenant";
}

abbrev sha256 : String → String
sha256 t = t

abbrev caller : Principal
caller = record { tenant_id = "acme"; credential_fingerprint = "idp|worker" }

is_let_in : authenticate jwt sha256 (some verifier) true [] (some "Bearer a.b.c") ≡ ok caller
unfolding authenticate verify looks_like_a_token elem removeprefix count_char
is_let_in = refl

authenticate-ok_example :
    (token : String) × (some "Bearer a.b.c" ≡ some (concat "Bearer " token))
    × (IsByToken jwt sha256 (some verifier) token caller ⊎ IsByKey jwt sha256 true [] token caller)
authenticate-ok_example =
    authenticate-ok jwt sha256 (some verifier) true [] (some "Bearer a.b.c") caller is_let_in
