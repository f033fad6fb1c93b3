-- ===== src/CookieVerifier/Complete.antt =====
-- cookie_verifier.py: `verify` and the description of an authentic request.
use fastapi_better_auth.Base.{
  ℕ, ◌<◌, ◌≡◌, sym, ap, ◌∙◌, ◌⊎◌, inl, inr, Option, none, some, arith, Bool-cases, Option-cases,
  ◌↔◌,
}
use fastapi_better_auth.Text.{Str, Bytes}
use fastapi_better_auth.Codec.Base64.{b64decode-is_ascii}
use fastapi_better_auth.Errors.{Result, ok}
use fastapi_better_auth.Exec.{Exec, after, ◌>>=◌}
use fastapi_better_auth.Cookies.Signed.Laws.{parse_signed_value_iff}
use fastapi_better_auth.Csrf.Token.{enforce_policy_iff}
use fastapi_better_auth.Signing.Laws.{verify_signature_iff}
use fastapi_better_auth.CookieVerifier.{
  StoredUser, StoredSession, Session, CookieCredential, snapshot, Config, State, SessionStore,
  Failures, check_expiry, check_ban, has_lapsed, required, validated, parse_user, looked_up,
  user_of, resolved, verify,
}
use fastapi_better_auth.CookieVerifier.Store.{
  looked_up_found, looked_up_user_found, store-looked_up,
}
use fastapi_better_auth.CookieVerifier.Sound.{MaySignIn, IsLive, IsAuthentic, verify_sound}

check_expiry_alive : (e now : ℕ) → now < e → check_expiry e now ≡ ok tt
unfolding check_expiry
check_expiry_alive e now h = ground arith

check_ban_clear :
    {P : Type 0} (u : StoredUser P) (now : ℕ) → MaySignIn u now → check_ban u now ≡ ok tt
unfolding check_ban has_lapsed
check_ban_clear u now (inl h) = elim (Option-cases u.banned) [
  | inl unknown ↦ rw unknown
  | inr (b, known) ↦ elim (Bool-cases b) [
    | inr clear ↦ ground (arith, known, clear)
    | inl banned ↦ absurd (h (known ∙ ap some banned))
  ]
]
check_ban_clear u now (inr (until, ends, past)) = ground (arith, ends, past)

-- a step whose result is known
step :
    {S A B : Type 0} (m : Exec S A) (f : A → Exec S B) (s : S) (a : A)
    → (m s).0 ≡ ok a
    → (m >>= f) s ≡ f a (m s).1
step m f s a h = ap (λ r. after r f (m s).1) h

module _ {S Kind Payload : Type 0} (failures : Failures Kind) (sessions : SessionStore S Payload)
    {Model User : Type 0} (hmac_sha256 : Bytes → Bytes → Bytes)
    (model_validate : Model → Payload → Result (Option User)) where
  user_of_found :
      (r : StoredSession Payload) (st : State S Kind) (user : StoredUser Payload)
      → (r.user ≡ some user)
        ⊎ ((r.user ≡ none) × ((sessions.fetch_user_by_id r.user_id st.store).0 ≡ ok (some user)))
      → (user_of failures sessions r r.user st).0 ≡ ok user
  unfolding user_of required
  user_of_found r st user (inl e) = rw (e, user_of)
  user_of_found r st user (inr (e, h)) =
      rw (e, user_of) (rw (looked_up_user_found failures sessions st r.user_id (some user) h))

  resolved_complete :
      (token : Str) (model : Model) (expiry_now ban_now : ℕ) (st : State S Kind)
      (answer : Session User Payload)
      → IsLive sessions hmac_sha256 model_validate token model expiry_now ban_now st.store answer
      → (resolved failures sessions hmac_sha256 model_validate token model expiry_now ban_now st).0
        ≡ ok answer
  unfolding resolved required parse_user validated
  resolved_complete token model expiry_now ban_now st answer l =
      let u : State S Kind = (looked_up failures sessions token st).1 in
      let user : (user_of failures sessions l.stored l.stored.user u).0 ≡ ok l.user =
        user_of_found l.stored u l.user
          (rw (store-looked_up failures sessions st token) l.user_found) in
      rw (looked_up_found failures sessions st token (some l.stored) l.found) (
        rw (check_expiry_alive l.stored.expires_at expiry_now l.alive) (
          rw user
            (rw (check_ban_clear l.user ban_now l.may_sign_in, l.valid) (ap ok (sym l.same)))))

  -- An authentic request is answered with its session: the cookie verifier accepts exactly the
  -- requests described by IsAuthentic, and answers each with the session described there.
  pub verify_iff :
      (config : Config) (c : CookieCredential) (model : Model) (expiry_now ban_now : ℕ)
      (st : State S Kind) (answer : Session User Payload)
      → ((verify failures sessions hmac_sha256 model_validate config
            (snapshot c)
            model
            expiry_now
            ban_now
            st).0
          ≡ ok answer)
        ↔ IsAuthentic sessions hmac_sha256 model_validate config c model expiry_now ban_now st.store
            answer
  unfolding verify
  verify_iff config c model expiry_now ban_now st answer = (
    verify_sound failures sessions hmac_sha256 model_validate config c model expiry_now ban_now st
        answer,
    λ a.
        let ascii = b64decode-is_ascii a.cookie.signature a.signed.digest a.signed.digest_of in
        rw (a.resolves, (parse_signed_value_iff a.material a.cookie).1 a.signed)
          (rw ((enforce_policy_iff config.policy c.facts a.cookie.token).1 a.allowed) (
            rw
              ((verify_signature_iff hmac_sha256 config.secrets a.cookie.token a.cookie.signature
                  a.encodable ascii).1
                a.matches)
              (resolved_complete a.cookie.token model expiry_now ban_now st answer a.live))),
  )
