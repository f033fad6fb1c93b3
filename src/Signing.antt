-- ===== src/Signing.antt =====
-- signing.py: the comparison of a cookie's signature with a keyring. HMAC-SHA256 is a parameter.
pub mod Laws
use fastapi_better_auth.Base.{
  ℕ, ◌≡◌, Bool, true, false, not, ◌&&◌, ◌||◌, List, [], ◌∷◌, leb, if◌then◌else◌,
}
use fastapi_better_auth.Text.{Str, Bytes, str_eq, utf8, is_ascii, is_encodable}
use fastapi_better_auth.Codec.{b64encode}
use fastapi_better_auth.Errors.{
  Raised, session, Result, ok, raise, ◌>>=◌, ◌>>◌, refuse_if, value_error,
}
use fastapi_better_auth.Errors.{invalid_credential}
use fastapi_better_auth.Errors.{no_matching_secret, not_encodable}

module _ (hmac_sha256 : Bytes → Bytes → Bytes) where
  -- base64.b64encode(hmac.new(secret, message, sha256).digest())
  unfoldable pub expected : Str → Bytes → Str
  expected secret message = b64encode (hmac_sha256 (utf8 secret) message)

  -- the loop: `matched |= compare_digest(presented, expected)`, with no early return
  unfoldable pub matched_from : Bool → List Str → Bytes → Str → Bool
  matched_from matched [] message presented = matched
  matched_from matched (secret ∷ secrets) message presented =
      matched_from (matched || str_eq presented (expected secret message)) secrets message presented

  unfoldable pub verify_signature : List Str → Str → Str → Result (Unit {0})
  unfolding matched_from
  verify_signature secrets token signature = do
    refuse_if (not (is_encodable token)) (value_error not_encodable)
    refuse_if (not (is_ascii signature)) (value_error not_encodable)
    refuse_if (not (matched_from false secrets (utf8 token) signature))
        (session invalid_credential no_matching_secret)
