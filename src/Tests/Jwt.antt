-- ===== src/Tests/Jwt.antt =====
-- A token for a key set with one key, which the client has on hand.
use fastapi_better_auth.Jwt.Local.{verify-local}
use fastapi_better_auth.Jwt.Token.Laws.{IsHeader}
use fastapi_better_auth.Cookies.{member}
use fastapi_better_auth.Jwks.Parse.{
  fetched, parsed, collect, collect_all, loader_of, lookup, not_for_verifying,
}
use fastapi_better_auth.Jwt.Laws.{IsProof, verify-IsProof}
use fastapi_better_auth.Jwks.{
  fresh_hit, is_fresh, answer, on_hand, keys_of, locked, may_fetch, refresh, key_for, new_client,
}
use fastapi_better_auth.Base.{
  ℕ, ◌≡◌, refl, ℤ, Option, ◌∷◌, none, Bool, pos, some, false, [], negsuc,
}
use fastapi_better_auth.Text.{Str, lit, str_eq, is_blank, is_space, lower, split_on, strip}
use fastapi_better_auth.Errors.{Raised, Result, ok, raise}
use fastapi_better_auth.CookieVerifier.{Session, parse_user}
use fastapi_better_auth.Jwt.Claims.{
  text, number, Mapping, has, get, as_number, identified, is_null, assign,
}
use fastapi_better_auth.Jwt.{Config, Pyjwt, verify, verify_token, find_key, demands, matching}
use fastapi_better_auth.Jwt.Token.{
  Credential, token, done, Attempt, checked_shape, dots, read_header, no_critical_extensions,
  usable_kid, allowed_algorithm, settled, check_subject, check_lifetime, session_of, expiry,
}
use fastapi_better_auth.Jwt.Options.{Algorithms, finite, Arguments}
use fastapi_better_auth.Tests.KeySets.{library, config, at, response}

abbrev jwt_config : Config
jwt_config = record {
  origin = lit "https://a.example";
  leeway = 0;
  max_token_lifetime = 900;
  keys = config;
}

abbrev header : Mapping
header = (lit "alg", text (lit "RS256")) ∷ (lit "kid", text (lit "k")) ∷ []

abbrev claims : Mapping
claims =
    (lit "sub", text (lit "u"))
    ∷ (lit "iat", number (pos 100))
    ∷ (lit "exp", number (pos 1000))
    ∷ []

abbrev pyjwt : Pyjwt ℕ
pyjwt = record { get_unverified_header = λ s. done header; decode = λ d s k. done claims }

abbrev moment : ℤ → Result ℕ
moment (pos n) = ok n
moment (negsuc n) = raise (Raised.other 1)

abbrev validate : ℕ → Mapping → Result (Option ℕ)
validate model m = ok (some model)

abbrev session_of_claims : Session ℕ Mapping
session_of_claims = record {
  user = 7;
  expires_at = 1000;
  token = none;
  impersonated_by = none;
  raw = claims;
}

abbrev never : Raised → Bool
never e = false

abbrev credential : Credential
credential = token (lit "a.b.c")

runs :
    (verify library never jwt_config pyjwt moment validate
      (at 1)
      (ok response)
      credential
      7
      new_client).0
    ≡ ok session_of_claims
unfolding verify checked_shape dots verify_token read_header no_critical_extensions has str_eq
    usable_kid get is_blank is_space allowed_algorithm member find_key key_for fresh_hit is_fresh
    fetched parsed collect collect_all loader_of lookup not_for_verifying answer on_hand keys_of
    locked may_fetch refresh demands matching settled check_subject check_lifetime session_of expiry
    as_number identified is_null assign parse_user lower split_on strip
runs = refl

verify-IsProof_example :
    IsProof library never jwt_config pyjwt moment validate
      (at 1)
      (ok response)
      credential
      7
      new_client
      session_of_claims
verify-IsProof_example =
    (verify-IsProof library never jwt_config pyjwt moment validate (at 1) (ok response) credential 7
        new_client session_of_claims).0
      runs

-- a header that names no algorithm
abbrev bare : Pyjwt ℕ
bare = record { get_unverified_header = λ s. done []; decode = λ d s k. done claims }

verify-local_example :
    ((e : Raised) × ((verify library never jwt_config bare moment validate
          (at 1)
          (ok response)
          credential
          7
          new_client).0
        ≡ raise e))
    × ((verify library never jwt_config bare moment validate
          (at 1)
          (ok response)
          credential
          7
          new_client).1
        ≡ new_client)
unfolding get
verify-local_example =
    verify-local library never jwt_config bare moment validate (at 1) (ok response) credential 7
      new_client
      (λ raw header kid algorithm shape read i. absurd (no_kid header kid algorithm read i))
  where
    no_kid :
        (h : Mapping) (kid algorithm : Str)
        → ◌≡◌ {A = Attempt Mapping} (done []) (done h)
        → IsHeader config.algorithms h kid algorithm
        → ⊥
    no_kid [] kid algorithm e i = absurd (cc i.has_kid)
    no_kid (p ∷ h) kid algorithm e i = absurd (cc)

abbrev arguments : Arguments 1
arguments = record {
  algorithms = Algorithms.sequence (some (lit "EdDSA") ∷ some (lit "EdDSA") ∷ []);
  leeway = finite (pos 5);
  max_token_lifetime = none;
}
