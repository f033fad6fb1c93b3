-- ===== src/Jwt/Keys.antt =====
-- jwt_verifier.py with jwks.py: the keys under which a session is proved.
use fastapi_better_auth.Base.{ℤ, ℕ, ◌≡◌, ap, ◌∙◌, Bool, Option, some, sym}
use fastapi_better_auth.Text.{Str}
use fastapi_better_auth.Errors.{Raised, Result, ok}
use fastapi_better_auth.CookieVerifier.{Session}
use fastapi_better_auth.Jwks.{Client, Times}
use fastapi_better_auth.Jwks.Reach.{IsSound, key_for-IsSound}
use fastapi_better_auth.Jwks.Parse.{Response, Jwk, Library}
use fastapi_better_auth.Jwks.Parse.Usable.{IsVerifying}
use fastapi_better_auth.Jwt.Claims.{Mapping}
use fastapi_better_auth.Jwt.Token.{Credential, done}
use fastapi_better_auth.Jwt.{Config, Pyjwt, demands, verify}
use fastapi_better_auth.Jwt.Laws.{verify-IsProof}

module _ {Key Model User : Type 0} (library : Library Key) (cancelled : Raised → Bool)
    (config : Config) (pyjwt : Pyjwt Key) (fromtimestamp : ℤ → Result ℕ)
    (model_validate : Model → Mapping → Result (Option User)) where
  -- The key that a token was decoded under.
  pub record IsKeyed (session : Session User Mapping) : Type 0 where
    pub raw : Str
    pub kid : Str
    pub jwk : Jwk Key
    pub published : IsVerifying library config.keys.algorithms (kid, jwk)
    pub decodes : pyjwt.decode (demands config) raw jwk.key ≡ done session.raw

  -- From a well-formed client, a session is returned only for claims that PyJWT decoded under a key that
  -- was loaded from a published key for verifying, of a supported and configured algorithm, and strong
  -- enough where it is an RSA key.
  pub verify-IsKeyed :
      (t : Times) (response : Result Response) (credential : Credential) (model : Model)
      (c : Client Key) (session : Session User Mapping)
      → IsSound config.keys library cancelled c
      → (verify library cancelled config pyjwt fromtimestamp model_validate t response credential
          model c).0
        ≡ ok session
      → IsKeyed session
  verify-IsKeyed t response credential model c session s h =
      let p =
        (verify-IsProof library cancelled config pyjwt fromtimestamp model_validate t response
            credential model c session).0
          h in
      let (_, right) = key_for-IsSound config.keys library cancelled t p.kid response c s in
      record {
        raw = p.raw;
        kid = p.kid;
        jwk = p.jwk;
        published = right (some p.jwk) p.answered;
        decodes =
            p.decodes
            ∙ ap (λ m. done m)
                (ap (λ (x : Session User Mapping). x.raw) (sym p.session_is.session_is));
      }
