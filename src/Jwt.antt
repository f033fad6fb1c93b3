-- ===== src/Jwt.antt =====
-- jwt_verifier.py: `extract` and `verify`, over the client of a key set. PyJWT is a parameter.
pub mod Claims
pub mod Token
pub mod Options
pub mod Found
pub mod Laws
pub mod Bearer
pub mod Local
pub mod Keys
use fastapi_better_auth.Base.{
  ℕ, Bool, true, false, not, Option, none, some, List, [], ◌∷◌, if◌then◌else◌, ℤ,
}
use fastapi_better_auth.Text.{Str, lit, str_eq, lower, strip, partition, Parts}
use fastapi_better_auth.Errors.{
  Raised, session, Result, ok, raise, invalid_credential, several_authorization, no_published_key,
  other_algorithm,
}
use fastapi_better_auth.Exec.{Exec, pure, throw, lift, ◌>>=◌, ◌>>◌}
use fastapi_better_auth.Csrf.{Connection, get_list}
use fastapi_better_auth.Jwks.{Config as ClientConfig, Client, Times, key_for}
use fastapi_better_auth.Jwks.Parse.{Response, Jwk, Library}
use fastapi_better_auth.CookieVerifier.{Session}
use fastapi_better_auth.Jwt.Claims.{Mapping}
use fastapi_better_auth.Jwt.Token.{
  Credential, token, ambiguous, Attempt, checked_shape, read_header, no_critical_extensions,
  usable_kid, allowed_algorithm, settled, check_subject, check_lifetime, session_of, invalid,
}

-- The configuration: the canonical origin, and the clock skew and the ceiling in the unit of the claims.
-- `keys` is that of the client, which has the same algorithms.
pub record Config : Type 0 where
  pub origin : Str
  pub leeway : ℕ
  pub max_token_lifetime : ℕ
  pub keys : ClientConfig

-- What is handed to jwt.decode, besides the token and the key.
pub record Demands : Type 0 where
  pub algorithms : List Str
  pub require : List Str
  pub issuer : Str
  pub audience : Str
  pub leeway : ℕ

abbrev pub required_claims : List Str
required_claims = lit "exp" ∷ lit "iat" ∷ lit "iss" ∷ lit "aud" ∷ lit "sub" ∷ []

-- PyJWT, at the time that its decode reads
pub record Pyjwt (Key : Type 0) : Type 0 where
  pub get_unverified_header : Str → Attempt Mapping
  pub decode : Demands → Str → Key → Attempt Mapping

stripped : Str → Option Credential
stripped [] = none
stripped (c ∷ s) = some (token (c ∷ s))

-- the `Bearer` scheme, and what follows it
bearer : Parts → Option Credential
unfolding stripped
bearer p =
    if not p.found
    then none
    else if str_eq (lower p.before) (lit "bearer")
    then stripped (strip p.after)
    else none

only : List Str → Option Credential
unfolding bearer
only [] = none
only ([] ∷ []) = none
only ((c ∷ s) ∷ []) = bearer (partition b' ' (c ∷ s))
only (h ∷ k ∷ hs) = some ambiguous

-- JwtVerifier.extract
unfoldable pub extract : Connection → Option Credential
unfolding only
extract connection = only (get_list (lit "authorization") connection.headers)

unfoldable pub demands : Config → Demands
demands config = record {
  algorithms = config.keys.algorithms;
  require = required_claims;
  issuer = config.origin;
  audience = config.origin;
  leeway = config.leeway;
}

-- what _key_for makes of the client's answer
unfoldable pub matching : {Key : Type 0} → Str → Option (Jwk Key) → Result (Jwk Key)
matching algorithm none = raise (invalid no_published_key)
matching algorithm (some found) =
    if str_eq found.algorithm algorithm then ok found else raise (invalid other_algorithm)

module _ {Key : Type 0} (library : Library Key) (cancelled : Raised → Bool) (config : Config) where
  -- _key_for, for what the transport does if it is asked
  unfoldable pub find_key : Times → Str → Str → Result Response → Exec (Client Key) (Jwk Key)
  find_key t kid algorithm response =
      key_for config.keys library cancelled t kid response >>= λ found.
      lift (matching algorithm found)

  module _ {Model User : Type 0} (pyjwt : Pyjwt Key) (fromtimestamp : ℤ → Result ℕ)
      (model_validate : Model → Mapping → Result (Option User)) where
    -- JwtVerifier.verify of a token
    unfoldable pub verify_token :
        Times → Result Response → Str → Model → Exec (Client Key) (Session User Mapping)
    verify_token t response text model = do
      header ← lift (read_header (pyjwt.get_unverified_header text))
      lift (no_critical_extensions header)
      kid ← lift (usable_kid header)
      algorithm ← lift (allowed_algorithm header config.keys.algorithms)
      jwk ← find_key t kid algorithm response
      claims ← lift (settled (pyjwt.decode (demands config) text jwk.key))
      lift (check_subject claims)
      lift (check_lifetime claims config.max_token_lifetime)
      lift (session_of fromtimestamp model_validate claims model)

    -- JwtVerifier.verify
    unfoldable pub verify :
        Times → Result Response → Credential → Model → Exec (Client Key) (Session User Mapping)
    verify t response ambiguous model = throw (invalid several_authorization)
    verify t response credential model = do
      text ← lift (checked_shape credential)
      verify_token t response text model
