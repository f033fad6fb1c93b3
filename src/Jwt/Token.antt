-- ===== src/Jwt/Token.antt =====
-- jwt_verifier.py: the tests on a token, on its header and on its claims, and the session of claims.
pub mod Laws
use fastapi_better_auth.Base.{
  ℤ, leb_ℤ, lies_past, ℕ, suc, Bool, false, not, Option, none, some, List, [], ◌∷◌, ltb, ◌==◌,
  if◌then◌else◌, length,
}
use fastapi_better_auth.Text.{Str, lit, is_blank}
use fastapi_better_auth.Errors.{Raised, Reason, session, Result, ok, raise, refuse_if, ◌>>=◌, ◌>>◌}
use fastapi_better_auth.Errors.{
  invalid_credential, session_expired, not_a_token, value_too_long, not_three_segments,
  unreadable_header, critical_header, no_key_id, algorithm_not_allowed, token_expired,
  token_rejected, subject_nobody, times_not_numbers, lifetime_not_positive, lifetime_too_long,
}
use fastapi_better_auth.Cookies.{member}
use fastapi_better_auth.CookieVerifier.{Session, parse_user}
use fastapi_better_auth.Jwt.Claims.{Value, text, Mapping, get, has, as_number, identified}

-- what `extract` returns and `verify` is given: the marker of several headers, a text, or anything else
pub data Credential : Type 0 where
  ambiguous foreign : Credential
  token : Str → Credential

-- A call of PyJWT: it returns, raises ExpiredSignatureError, raises another exception that the caller
-- catches (PyJWTError, ValueError, TypeError, RecursionError), or raises anything else.
pub data Attempt (A : Type 0) : Type 0 where
  done : A → Attempt A
  expired unusable : Attempt A
  escaped : Raised → Attempt A

abbrev pub max_token_bytes : ℕ
max_token_bytes = 8192

abbrev pub invalid : Reason → Raised
invalid = session invalid_credential

-- credential.count(".")
unfoldable pub dots : Str → ℕ
dots [] = 0
dots (c ∷ s) = let rest = dots s in if c == b'.' then suc rest else rest

-- _checked_shape, which returns a marker where the model returns the token
unfoldable pub checked_shape : Credential → Result Str
checked_shape (token (c ∷ s)) = do
  refuse_if (ltb max_token_bytes (length (c ∷ s))) (invalid value_too_long)
  refuse_if (not (dots (c ∷ s) == 2)) (invalid not_three_segments)
  ok (c ∷ s)
checked_shape credential = raise (invalid not_a_token)

-- _unverified_header
unfoldable pub read_header : Attempt Mapping → Result Mapping
read_header (done header) = ok header
read_header (escaped e) = raise e
read_header attempt = raise (invalid unreadable_header)

-- _no_critical_extensions
unfoldable pub no_critical_extensions : Mapping → Result (Unit {0})
no_critical_extensions header = refuse_if (has (lit "crit") header) (invalid critical_header)

filled_kid : Value → Result Str
filled_kid (text kid) = if is_blank kid then raise (invalid no_key_id) else ok kid
filled_kid v = raise (invalid no_key_id)

-- _usable_kid
unfoldable pub usable_kid : Mapping → Result Str
unfolding filled_kid
usable_kid header = filled_kid (get (lit "kid") header)

allowed : List Str → Value → Result Str
allowed algorithms (text alg) =
    if member alg algorithms then ok alg else raise (invalid algorithm_not_allowed)
allowed algorithms v = raise (invalid algorithm_not_allowed)

-- _allowed_algorithm
unfoldable pub allowed_algorithm : Mapping → List Str → Result Str
unfolding allowed
allowed_algorithm header algorithms = allowed algorithms (get (lit "alg") header)

-- the handlers of _decoded
unfoldable pub settled : Attempt Mapping → Result Mapping
settled (done claims) = ok claims
settled expired = raise (session session_expired token_expired)
settled unusable = raise (invalid token_rejected)
settled (escaped e) = raise e

identifies : Value → Bool
identifies (text s) = not (is_blank s)
identifies v = false

-- _check_subject
unfoldable pub check_subject : Mapping → Result (Unit {0})
unfolding identifies
check_subject claims =
    refuse_if (not (identifies (get (lit "sub") claims))) (invalid subject_nobody)

lifetime_within : Option ℤ → Option ℤ → ℕ → Result (Unit {0})
lifetime_within (some issued) (some expires) ceiling =
    refuse_if (leb_ℤ expires issued) (invalid lifetime_not_positive)
    >> refuse_if (lies_past issued ceiling expires) (invalid lifetime_too_long)
lifetime_within issued expires ceiling = raise (invalid times_not_numbers)

-- _check_lifetime
unfoldable pub check_lifetime : Mapping → ℕ → Result (Unit {0})
unfolding lifetime_within
check_lifetime claims ceiling =
    lifetime_within (as_number (get (lit "iat") claims)) (as_number (get (lit "exp") claims))
      ceiling

module _ (fromtimestamp : ℤ → Result ℕ) where
  -- the assertion is an AssertionError, and datetime.fromtimestamp may raise
  moment_of : Option ℤ → Result ℕ
  moment_of none = raise (Raised.other 0)
  moment_of (some n) = fromtimestamp n

  -- _expiry
  unfoldable pub expiry : Mapping → Result ℕ
  unfolding moment_of
  expiry claims = moment_of (as_number (get (lit "exp") claims))

  -- _session
  unfoldable pub session_of :
      {M U : Type 0} → (M → Mapping → Result (Option U)) → Mapping → M → Result (Session U Mapping)
  session_of model_validate claims model = do
    user ← parse_user model_validate model (identified claims)
    expires_at ← expiry claims
    ok (record {
      user = user;
      expires_at = expires_at;
      token = none;
      impersonated_by = none;
      raw = claims;
    })
