-- ===== src/Signing/Laws.antt =====
-- signing.py: `verify_signature` and the keyring.
use fastapi_better_auth.Base.{
  ◌≡◌, ap, ◌∙◌, ◌↔◌, ◌<◌, Bool, true, false, ◌||◌, List, [], ◌∷◌, some, arith, Any, Any-map, ◌⊎◌,
  inl, inr, All,
}
use fastapi_better_auth.Text.{Str, Bytes, is_encodable, str_eq, utf8, is_ascii}
use fastapi_better_auth.Text.Laws.{str_eq_iff}
use fastapi_better_auth.Codec.{b64decode}
use fastapi_better_auth.Codec.Base64.{b64decode-b64encode}
use fastapi_better_auth.Errors.{ok}
use fastapi_better_auth.Signing.{expected, matched_from, verify_signature}

module _ (hmac_sha256 : Bytes → Bytes → Bytes) where
  matched_from_iff :
      (b : Bool) (secrets : List Str) (message : Bytes) (presented : Str)
      → (matched_from hmac_sha256 b secrets message presented ≡ true)
        ↔ ((b ≡ true) ⊎ Any (λ k. presented ≡ expected hmac_sha256 k message) secrets)
  unfolding matched_from
  matched_from_iff b [] message presented =
      (λ h. inl h, λ h. elim h [ inl e ↦ e | inr e ↦ absurd e ])
  matched_from_iff b (k ∷ ks) message presented = ground (
    arith,
    matched_from_iff (b || str_eq presented (expected hmac_sha256 k message)) ks message presented,
    str_eq_iff presented (expected hmac_sha256 k message),
  )

  -- For a token and a signature that can be encoded, the signature is accepted exactly when it is
  -- the base64 of the HMAC of the token under one of the secrets, wherever that secret stands.
  pub verify_signature_iff :
      (secrets : List Str) (token signature : Str)
      → is_encodable token ≡ true
      → is_ascii signature ≡ true
      → (verify_signature hmac_sha256 secrets token signature ≡ ok tt)
        ↔ Any (λ k. signature ≡ expected hmac_sha256 k (utf8 token)) secrets
  unfolding verify_signature
  verify_signature_iff secrets token signature h k =
      ground (arith, matched_from_iff false secrets (utf8 token) signature)

  pub verify_signature_sound :
      (secrets : List Str) (token signature : Str)
      → verify_signature hmac_sha256 secrets token signature ≡ ok tt
      → (is_encodable token ≡ true) × (is_ascii signature ≡ true)
  unfolding verify_signature
  verify_signature_sound secrets token signature h = ground arith

  b64decode-expected :
      (k m : Bytes)
      → All (λ b. b < 256) (hmac_sha256 (utf8 k) m)
      → b64decode (expected hmac_sha256 k m) ≡ some (hmac_sha256 (utf8 k) m)
  unfolding expected
  b64decode-expected k m h = b64decode-b64encode (hmac_sha256 (utf8 k) m) h

  -- An accepted signature decodes to the HMAC of the token under one of the secrets.
  pub verify_signature-digest :
      ((k m : Bytes) → All (λ b. b < 256) (hmac_sha256 k m))
      → (secrets : List Str) (token signature : Str)
      → verify_signature hmac_sha256 secrets token signature ≡ ok tt
      → Any (λ k. b64decode signature ≡ some (hmac_sha256 (utf8 k) (utf8 token))) secrets
  verify_signature-digest bytes secrets token signature h =
      let (encodable, ascii) = verify_signature_sound secrets token signature h in
      Any-map _ _ secrets
        (λ k e. ap b64decode e ∙ b64decode-expected k (utf8 token) (bytes (utf8 k) (utf8 token)))
        ((verify_signature_iff secrets token signature encodable ascii).0 h)
