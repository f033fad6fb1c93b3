-- ===== src/Remote/Verifier/Gated.antt =====
-- remote_verifier.py: when no call of the server is made.
use fastapi_better_auth.Base.{ℤ, ℕ, ◌≡◌, refl, ◌⊎◌, inl, inr, Bool, Bool-cases, true, Option}
use fastapi_better_auth.Text.{Str, Bytes}
use fastapi_better_auth.Errors.{Raised, Result, ok, raise, upstream_backing_off, Result-cases}
use fastapi_better_auth.Cookies.{Pair}
use fastapi_better_auth.Cookies.Chunks.{resolve_named_cookie}
use fastapi_better_auth.Csrf.{enforce_policy}
use fastapi_better_auth.Latches.{latched}
use fastapi_better_auth.NegativeCache.{holds}
use fastapi_better_auth.CookieVerifier.{CookieCredential, snapshot}
use fastapi_better_auth.Remote.Response.{null_outcome}
use fastapi_better_auth.Remote.Rungs.{unavailable, rung_one, rung_two}
use fastapi_better_auth.Remote.Verifier.{
  Config, Network, State, Times, remembered_dead, backing_off, verify,
}

module _ {T Payload Model User : Type 0} (network : Network T Payload)
    (model_validate : Model → Payload → Result (Option User)) (hmac_sha256 : Bytes → Bytes → Bytes)
    (sha256 : Bytes → Bytes) (fromisoformat : Str → Option ℕ) (read_int : Str → Option ℤ)
    (is_cancelled : ℕ → Bool) where
  -- A credential whose cookie is remembered as dead, or that comes while a rate limit is waited out, is
  -- refused without any call of the server, whatever else holds of it.
  pub verify-unasked :
      (config : Config) (c : CookieCredential) (model : Model) (times : Times) (st : State T)
      (cookie : Pair)
      → resolve_named_cookie c.pairs config.base ≡ ok cookie
      → ((holds sha256 times.held cookie.1 st.cache).1 ≡ true)
        ⊎ ((latched times.blocked st.backoff).1 ≡ true)
      → ((e : Raised) × ((verify network model_validate hmac_sha256 sha256 fromisoformat read_int
              is_cancelled config
              (snapshot c)
              model
              times
              st).0
            ≡ raise e))
        × ((verify network model_validate hmac_sha256 sha256 fromisoformat read_int is_cancelled
              config
              (snapshot c)
              model
              times
              st).1.network
            ≡ st.network)
  unfolding verify remembered_dead backing_off
  verify-unasked config c model times st cookie chosen stopped =
      rw chosen (elim (Result-cases (rung_one cookie.1)) [
        | inr (e, bad) ↦ rw bad ((e, refl), refl)
        | inl (token, good) ↦
            rw good (elim (Result-cases (enforce_policy config.policy c.facts token)) [
              | inr (e, bad) ↦ rw bad ((e, refl), refl)
              | inl (_, allowed) ↦
                  rw allowed (elim (Result-cases (rung_two hmac_sha256 config.secrets cookie.1)) [
                    | inr (e, bad) ↦ rw bad ((e, refl), refl)
                    | inl (verified, signed) ↦
                        rw signed (elim (Bool-cases (holds sha256 times.held cookie.1 st.cache).1) [
                          | inl dead ↦ rw dead ((null_outcome verified, refl), refl)
                          | inr alive ↦ elim stopped [
                            | inl dead ↦ absurd (cc)
                            | inr blocked ↦
                                rw (alive, blocked) ((unavailable upstream_backing_off, refl), refl)
                          ]
                        ])
                  ])
            ])
      ])
