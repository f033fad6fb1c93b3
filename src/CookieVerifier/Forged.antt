-- ===== src/CookieVerifier/Forged.antt =====
-- cookie_verifier.py: `verify` of a request that is not genuinely signed.
use fastapi_better_auth.Base.{ℕ, ◌≡◌, inl, inr, Option, Any}
use fastapi_better_auth.Text.{Str, Bytes, utf8}
use fastapi_better_auth.Errors.{Raised, Result, ok, raise, Result-cases}
use fastapi_better_auth.Cookies.Chunks.{resolve_cookie_value}
use fastapi_better_auth.Cookies.Signed.{ParsedCookie, parse_signed_value}
use fastapi_better_auth.Cookies.Signed.Laws.{IsSigned, parse_signed_value_iff}
use fastapi_better_auth.Csrf.{enforce_policy}
use fastapi_better_auth.Signing.{expected, verify_signature}
use fastapi_better_auth.Signing.Laws.{verify_signature_iff, verify_signature_sound}
use fastapi_better_auth.CookieVerifier.{
  CookieCredential, snapshot, Config, State, SessionStore, Failures, verify,
}

-- The request carries a well-formed cookie that some secret of the keyring signed.
pub record IsGenuine (hmac_sha256 : Bytes → Bytes → Bytes) (config : Config) (c : CookieCredential)
    : Type 0 where
  pub material : Str
  pub cookie : ParsedCookie
  pub resolves : resolve_cookie_value c.pairs config.base ≡ ok material
  pub signed : IsSigned material cookie
  pub matches :
      Any (λ k. cookie.signature ≡ expected hmac_sha256 k (utf8 cookie.token)) config.secrets

module _ {S Kind Payload : Type 0} (failures : Failures Kind) (sessions : SessionStore S Payload)
    {Model User : Type 0} (hmac_sha256 : Bytes → Bytes → Bytes)
    (model_validate : Model → Payload → Result (Option User)) where
  -- A request whose cookie is malformed, or signed under no secret of the keyring, is refused with
  -- nothing changed: neither the store nor any latch is touched, whatever the policy says of it.
  pub verify_forged :
      (config : Config) (c : CookieCredential) (model : Model) (expiry_now ban_now : ℕ)
      (st : State S Kind)
      → ¬ IsGenuine hmac_sha256 config c
      → (e : Raised) × (verify failures sessions hmac_sha256 model_validate config
            (snapshot c)
            model
            expiry_now
            ban_now
            st
          ≡ (raise e, st))
  unfolding verify
  verify_forged config c model expiry_now ban_now st forged =
      elim (Result-cases (resolve_cookie_value c.pairs config.base)) [
        | inr (e, bad) ↦ (e, rw bad)
        | inl (material, resolves) ↦ elim (Result-cases (parse_signed_value material)) [
          | inr (e, bad) ↦ (e, rw (resolves, bad))
          | inl (cookie, parses) ↦
              elim (Result-cases (enforce_policy config.policy c.facts cookie.token)) [
                | inr (e, bad) ↦ (e, rw (resolves, parses, bad))
                | inl (_, allowed) ↦
                    elim (Result-cases
                      (verify_signature hmac_sha256 config.secrets cookie.token cookie.signature)) [
                        | inr (e, bad) ↦ (e, rw (resolves, parses, allowed, bad))
                        | inl (_, matches) ↦
                            let (encodable, ascii) =
                              verify_signature_sound hmac_sha256 config.secrets cookie.token
                                cookie.signature matches in
                            absurd (
                              forged (record {
                                material = material;
                                cookie = cookie;
                                resolves = resolves;
                                signed = (parse_signed_value_iff material cookie).0 parses;
                                matches =
                                    (verify_signature_iff hmac_sha256 config.secrets cookie.token
                                        cookie.signature encodable ascii).0
                                      matches;
                              }))
                      ]
              ]
        ]
      ]
