-- ===== src/Jwt/Local.antt =====
-- jwt_verifier.py: the tokens that are refused before the key set is asked.
use fastapi_better_auth.Jwt.Found.{read_header_iff}
use fastapi_better_auth.Base.{ℤ, ℕ, ◌≡◌, refl, inl, inr, Bool, Option}
use fastapi_better_auth.Text.{Str}
use fastapi_better_auth.Errors.{Raised, Result, ok, raise, Result-cases}
use fastapi_better_auth.CookieVerifier.{Session}
use fastapi_better_auth.Jwks.{Client, Times}
use fastapi_better_auth.Jwks.Parse.{Response, Library}
use fastapi_better_auth.Jwt.Claims.{Mapping}
use fastapi_better_auth.Jwt.Token.{
  Credential, token, ambiguous, done, checked_shape, read_header, no_critical_extensions,
  usable_kid, allowed_algorithm,
}
use fastapi_better_auth.Jwt.Token.Laws.{IsHeader, IsHeader-iff}
use fastapi_better_auth.Jwt.{Config, Pyjwt, verify_token, verify}

module _ {Key Model User : Type 0} (library : Library Key) (cancelled : Raised → Bool)
    (config : Config) (pyjwt : Pyjwt Key) (fromtimestamp : ℤ → Result ℕ)
    (model_validate : Model → Mapping → Result (Option User)) where
  -- refused, with the client as it was
  abbrev IsRefused : Client Key → Result (Session User Mapping) × Client Key → Type 0
  IsRefused c p = ((e : Raised) × (p.0 ≡ raise e)) × (p.1 ≡ c)

  header-IsRefused :
      (t : Times) (response : Result Response) (raw : Str) (model : Model) (c : Client Key)
      → ((header : Mapping) (kid algorithm : Str)
          → pyjwt.get_unverified_header raw ≡ done header
          → ¬ IsHeader config.keys.algorithms header kid algorithm)
      → IsRefused c (
          verify_token library cancelled config pyjwt fromtimestamp model_validate t response raw
            model c)
  unfolding verify_token
  header-IsRefused t response raw model c bad =
      elim (Result-cases (read_header (pyjwt.get_unverified_header raw))) [
        | inr (e, h) ↦ rw h ((e, refl), refl)
        | inl (header, h) ↦ rw h (elim (Result-cases (no_critical_extensions header)) [
          | inr (e, k) ↦ rw k ((e, refl), refl)
          | inl (_, plain) ↦ rw plain (elim (Result-cases (usable_kid header)) [
            | inr (e, k) ↦ rw k ((e, refl), refl)
            | inl (kid, named) ↦
                rw named (elim (Result-cases (allowed_algorithm header config.keys.algorithms)) [
                  | inr (e, k) ↦ rw k ((e, refl), refl)
                  | inl (algorithm, allowed) ↦ absurd (
                      bad header kid algorithm ((read_header_iff _ header).0 h) (
                        (IsHeader-iff config.keys.algorithms header kid algorithm).0
                          (plain, named, allowed)))
                ])
          ])
        ])
      ]

  -- A credential that is no token of the right shape, or whose header is unreadable, declares a critical
  -- extension, has no kid or an algorithm that is not configured, is refused without the key set: the
  -- client is left as it was, whatever the transport would answer.
  pub verify-local :
      (t : Times) (response : Result Response) (credential : Credential) (model : Model)
      (c : Client Key)
      → ((raw : Str) (header : Mapping) (kid algorithm : Str)
          → checked_shape credential ≡ ok raw
          → pyjwt.get_unverified_header raw ≡ done header
          → ¬ IsHeader config.keys.algorithms header kid algorithm)
      → ((e : Raised) × ((verify library cancelled config pyjwt fromtimestamp model_validate t
              response credential model c).0
            ≡ raise e))
        × ((verify library cancelled config pyjwt fromtimestamp model_validate t response credential
              model c).1
            ≡ c)
  unfolding verify
  verify-local t response ambiguous model c bad = ((_, refl), refl)
  verify-local t response (token s) model c bad = elim (Result-cases (checked_shape (token s))) [
    | inr (e, h) ↦ rw h ((e, refl), refl)
    | inl (raw, h) ↦ rw h (
        header-IsRefused t response raw model c
          (λ header kid algorithm. bad raw header kid algorithm h))
  ]
  verify-local t response Credential.foreign model c bad =
      elim (Result-cases (checked_shape Credential.foreign)) [
        | inr (e, h) ↦ rw h ((e, refl), refl)
        | inl (raw, h) ↦ rw h (
            header-IsRefused t response raw model c
              (λ header kid algorithm. bad raw header kid algorithm h))
      ]
