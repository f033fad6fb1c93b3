-- ===== src/Remote/Rungs.antt =====
-- remote_verifier.py: the tests on a cookie before a call, the handlers around the call, and the tests
-- on the record that it brought.
pub mod Laws
use fastapi_better_auth.Base.{
  ℕ, Bool, true, false, not, ◌||◌, Option, none, some, List, [], ◌∷◌, ltb, if◌then◌else◌, length,
}
use fastapi_better_auth.Text.{Str, Bytes, Parts, str_eq, rpartition}
use fastapi_better_auth.Codec.{unquote}
use fastapi_better_auth.Errors.{
  Raised, Reason, session, Result, ok, raise, ◌>>=◌, ◌>>◌, is_better_auth, is_session_error,
  is_exception, refuse_if,
}
use fastapi_better_auth.Errors.{
  invalid_credential, auth_service_unavailable, value_too_long, not_percent_utf8, no_separator,
  empty_token, signature_length, upstream_unreached, other_token,
}
use fastapi_better_auth.Cookies.{max_cookie_bytes}
use fastapi_better_auth.Cookies.Signed.{parse_signed_value, required, is_empty}
use fastapi_better_auth.Signing.{verify_signature}
use fastapi_better_auth.CookieVerifier.{
  StoredUser, StoredSession, Session, check_expiry, check_ban, session_of, parse_user,
}

abbrev pub max_token_bytes : ℕ
max_token_bytes = 4096

abbrev pub invalid : Reason → Raised
invalid = session invalid_credential

abbrev pub unavailable : Reason → Raised
unavailable = session auth_service_unavailable

unfoldable pub token_of : Parts → Result Str
token_of p = do
  refuse_if (not p.found) (invalid no_separator)
  refuse_if (is_empty p.before) (invalid empty_token)
  refuse_if (is_empty p.after) (invalid signature_length)
  refuse_if (ltb max_token_bytes (length p.before)) (invalid value_too_long)
  ok p.before

-- _rung_one
unfoldable pub rung_one : Str → Result Str
unfolding token_of
rung_one material = do
  refuse_if (ltb max_cookie_bytes (length material)) (invalid value_too_long)
  decoded ← required (unquote material) (invalid not_percent_utf8)
  token_of (rpartition b'.' decoded)

module _ (hmac_sha256 : Bytes → Bytes → Bytes) where
  keyring_check : List Str → Str → Result Bool
  keyring_check secrets material = do
    parsed ← parse_signed_value material
    verify_signature hmac_sha256 secrets parsed.token parsed.signature
    ok true

  -- _rung_two, for the configured secrets
  unfoldable pub rung_two : List Str → Str → Result Bool
  unfolding keyring_check
  rung_two [] material = ok false
  rung_two (k ∷ ks) material = keyring_check (k ∷ ks) material

-- the handlers around the transport's get
unfoldable pub translated : {A : Type 0} → Result A → Result A
translated (ok a) = ok a
translated (raise e) =
    if is_better_auth e || is_session_error e
    then raise e
    else if is_exception e
    then raise (unavailable upstream_unreached)
    else raise e

-- the attributes of the embedded user, which a parsed document has; None has none
unfoldable pub embedded : {P : Type 0} → Option (StoredUser P) → Result (StoredUser P)
embedded none = raise (Raised.other 0)
embedded (some u) = ok u

-- _session; the clock is read once for the expiry and once for the ban
unfoldable pub proved :
    {M P U : Type 0}
    → (M → P → Result (Option U))
    → StoredSession P
    → Str
    → M
    → ℕ
    → ℕ
    → Result (Session U P)
proved model_validate r token model expiry_now ban_now = do
  refuse_if (not (str_eq r.token token)) (invalid other_token)
  check_expiry r.expires_at expiry_now
  stored ← embedded r.user
  check_ban stored ban_now
  user ← parse_user model_validate model stored.payload
  ok (session_of r token user)
