-- ===== src/CookieVerifier/Sound.antt =====
-- cookie_verifier.py: what an authentic request is, and lemmas on the steps of `verify`.
use fastapi_better_auth.Base.{
  ℕ, ◌≤◌, ◌<◌, ◌≡◌, refl, sym, ap, ◌∙◌, ◌≢◌, ◌⊎◌, inl, inr, true, false, Option, none, some, arith,
  Any, Bool-cases, Option-cases,
}
use fastapi_better_auth.Text.{Str, Bytes, utf8, is_encodable}
use fastapi_better_auth.Errors.{Raised, session, Result, ok, bind-eq-ok as result-eq-ok}
use fastapi_better_auth.Exec.{bind-eq-ok, lift-eq-ok}
use fastapi_better_auth.Cookies.Chunks.{resolve_cookie_value}
use fastapi_better_auth.Cookies.Signed.{ParsedCookie, parse_signed_value}
use fastapi_better_auth.Cookies.Signed.Laws.{IsSigned, parse_signed_value_iff}
use fastapi_better_auth.Csrf.{enforce_policy}
use fastapi_better_auth.Csrf.Token.{enforce_policy_iff}
use fastapi_better_auth.Signing.{expected, verify_signature}
use fastapi_better_auth.Signing.Laws.{verify_signature_iff, verify_signature_sound}
use fastapi_better_auth.CookieVerifier.{
  StoredUser, StoredSession, Session, CookieCredential, snapshot, Config, State, SessionStore,
  Failures, check_expiry, check_ban, has_lapsed, required, session_of, validated, parse_user,
  looked_up, looked_up_user, user_of, resolved, verify, session_revoked, user_absent,
}
use fastapi_better_auth.CookieVerifier.Store.{looked_up-ok, store-looked_up, looked_up_user-ok}

-- A user that may sign in at `now`: not banned, or with a ban that has lapsed.
abbrev pub MaySignIn : {P : Type 0} → StoredUser P → ℕ → Type 0
MaySignIn user now =
    (user.banned ≢ some true) ⊎ ((until : ℕ) × (user.ban_expires ≡ some until) × (until ≤ now))

module _ {S Payload Model User : Type 0} (sessions : SessionStore S Payload)
    (hmac_sha256 : Bytes → Bytes → Bytes)
    (model_validate : Model → Payload → Result (Option User)) where
  -- The store's answers behind a session: the record of the token, alive, and its user.
  pub record IsLive (token : Str) (model : Model) (expiry_now ban_now : ℕ) (s : S)
      (answer : Session User Payload) : Type 0 where
    pub stored : StoredSession Payload
    pub found : (sessions.fetch_session_by_token token s).0 ≡ ok (some stored)
    pub alive : expiry_now < stored.expires_at
    pub user : StoredUser Payload
    pub user_found :
        (stored.user ≡ some user)
        ⊎ ((stored.user ≡ none)
            × ((sessions.fetch_user_by_id stored.user_id
                  (sessions.fetch_session_by_token token s).1).0
                ≡ ok (some user)))
    pub may_sign_in : MaySignIn user ban_now
    pub parsed : User
    pub valid : model_validate model user.payload ≡ ok (some parsed)
    pub same : answer ≡ session_of stored token parsed

  -- The whole of it: one well-formed cookie, allowed by the policy, signed under some secret of
  -- the keyring, with a live session in the store.
  pub record IsAuthentic (config : Config) (c : CookieCredential) (model : Model)
      (expiry_now ban_now : ℕ) (s : S) (answer : Session User Payload) : Type 0 where
    pub material : Str
    pub cookie : ParsedCookie
    pub resolves : resolve_cookie_value c.pairs config.base ≡ ok material
    pub signed : IsSigned material cookie
    pub allowed : config.policy.check c.facts cookie.token ≡ ok false
    pub encodable : is_encodable cookie.token ≡ true
    pub matches :
        Any (λ k. cookie.signature ≡ expected hmac_sha256 k (utf8 cookie.token)) config.secrets
    pub live : IsLive cookie.token model expiry_now ban_now s answer

pub check_expiry-ok : (e now : ℕ) → check_expiry e now ≡ ok tt → now < e
unfolding check_expiry
check_expiry-ok e now h = ground arith

pub check_ban-ok :
    {P : Type 0} (u : StoredUser P) (now : ℕ) → check_ban u now ≡ ok tt → MaySignIn u now
unfolding check_ban has_lapsed
check_ban-ok u now h = elim (Option-cases u.banned) [
  | inl unknown ↦ inl (λ e. cc)
  | inr (b, known) ↦ elim (Bool-cases b) [
    | inr clear ↦ inl (λ e. cc)
    | inl banned ↦ elim (Option-cases u.ban_expires) [
      | inl forever ↦ absurd (ground (arith, known, banned, forever))
      | inr (until, ends) ↦ inr (until, ends, ground (arith, known, banned, ends))
    ]
  ]
]

validated-ok : {U : Type 0} (o : Option U) (u : U) → validated o ≡ ok u → o ≡ some u
unfolding validated
validated-ok none u h = cc
validated-ok (some w) u h = ground arith

pub parse_user-ok :
    {M P U : Type 0} (v : M → P → Result (Option U)) (m : M) (p : P) (u : U)
    → parse_user v m p ≡ ok u
    → v m p ≡ ok (some u)
unfolding parse_user
parse_user-ok v m p u h =
    let (o, e, k) = result-eq-ok (v m p) validated h in e ∙ ap ok (validated-ok o u k)

pub parse_user_complete :
    {M P U : Type 0} (v : M → P → Result (Option U)) (m : M) (p : P) (u : U)
    → v m p ≡ ok (some u)
    → parse_user v m p ≡ ok u
unfolding parse_user validated
parse_user_complete v m p u h = rw h refl

required-ok :
    {S A : Type 0} (o : Option A) (e : Raised) (s u : S) (a : A)
    → required o e s ≡ (ok a, u)
    → (o ≡ some a) × (s ≡ u)
unfolding required
required-ok none e s u a h = absurd (cc)
required-ok (some b) e s u a h = ground arith

required-found :
    {S A : Type 0} (o : Option A) (e : Raised) (s : S) (a : A)
    → (required o e s).0 ≡ ok a
    → o ≡ some a
unfolding required
required-found none e s a h = cc
required-found (some b) e s a h = ground arith

ok-injective : {A : Type 0} {a b : A} → ok a ≡ ok b → a ≡ b
ok-injective h = cc

fst-eq : {A B : Type 0} {p : A × B} {a : A} {b : B} → p ≡ (a, b) → p.0 ≡ a
fst-eq e = ap (λ p. p.0) e

snd-eq : {A B : Type 0} {p : A × B} {a : A} {b : B} → p ≡ (a, b) → p.1 ≡ b
snd-eq e = ap (λ p. p.1) e

module _ {S Kind Payload : Type 0} (failures : Failures Kind)
    (sessions : SessionStore S Payload) where
  user_of-ok :
      (r : StoredSession Payload) (o : Option (StoredUser Payload)) (st : State S Kind)
      (user : StoredUser Payload)
      → (user_of failures sessions r o st).0 ≡ ok user
      → (o ≡ some user)
        ⊎ ((o ≡ none) × ((sessions.fetch_user_by_id r.user_id st.store).0 ≡ ok (some user)))
  unfolding user_of
  user_of-ok r (some w) st user h = inl (ground arith)
  user_of-ok r none st user h =
      let (found, st', e, k) =
        bind-eq-ok (looked_up_user failures sessions r.user_id)
          (λ found. required found (session session_revoked user_absent)) st h in
      let there = required-found found (session session_revoked user_absent) st' user k in
      inr (
        refl,
        looked_up_user-ok failures sessions st r.user_id (some user) (fst-eq e ∙ ap ok there),
      )

  module _ {Model User : Type 0} (hmac_sha256 : Bytes → Bytes → Bytes)
      (model_validate : Model → Payload → Result (Option User)) where
    resolved_sound :
        (token : Str) (model : Model) (expiry_now ban_now : ℕ) (st : State S Kind)
        (answer : Session User Payload)
        → (resolved failures sessions hmac_sha256 model_validate token model expiry_now ban_now
            st).0
          ≡ ok answer
        → IsLive sessions hmac_sha256 model_validate token model expiry_now ban_now st.store answer
    unfolding resolved
    resolved_sound token model expiry_now ban_now st answer h =
        let (found, u1, e1, k1) = bind-eq-ok (looked_up failures sessions token) _ st h in
        let (stored, u2, e2, k2) = bind-eq-ok (required found _) _ u1 k1 in
        let (is_stored, same_state) = required-ok found _ u1 u2 stored e2 in
        let (_, alive, k3) = lift-eq-ok (check_expiry stored.expires_at expiry_now) _ u2 k2 in
        let (user, u3, e3, k4) =
          bind-eq-ok (user_of failures sessions stored stored.user) _ u2 k3 in
        let (_, ban, k5) = lift-eq-ok (check_ban user ban_now) _ u3 k4 in
        let (parsed, valid, k6) =
          lift-eq-ok (parse_user model_validate model user.payload) _ u3 k5 in
        let store : u2.store ≡ (sessions.fetch_session_by_token token st.store).1 =
          ap (λ (x : State S Kind). x.store) (sym same_state ∙ sym (snd-eq e1))
          ∙ store-looked_up failures sessions st token in
        record {
          stored = stored;
          found =
              looked_up-ok failures sessions st token (some stored) (fst-eq e1 ∙ ap ok is_stored);
          alive = check_expiry-ok stored.expires_at expiry_now alive;
          user = user;
          user_found = rw (← store) (user_of-ok stored stored.user u2 user (fst-eq e3));
          may_sign_in = check_ban-ok user ban_now ban;
          parsed = parsed;
          valid = parse_user-ok model_validate model user.payload parsed valid;
          same = sym (ok-injective k6);
        }

    -- A session is returned only if the request carries one well-formed cookie of the configured
    -- name, the policy allows the request, the cookie is signed under a secret of the keyring, and
    -- the store has a record of its token that has not expired, whose user exists, is not banned
    -- (or has a ban that has lapsed) and is accepted by the user model. The session is that record's.
    pub verify_sound :
        (config : Config) (c : CookieCredential) (model : Model) (expiry_now ban_now : ℕ)
        (st : State S Kind) (answer : Session User Payload)
        → (verify failures sessions hmac_sha256 model_validate config
            (snapshot c)
            model
            expiry_now
            ban_now
            st).0
          ≡ ok answer
        → IsAuthentic sessions hmac_sha256 model_validate config c model expiry_now ban_now st.store
            answer
    unfolding verify
    verify_sound config c model expiry_now ban_now st answer h =
        let (material, resolves, k1) =
          lift-eq-ok (resolve_cookie_value c.pairs config.base) _ st h in
        let (cookie, parses, k2) = lift-eq-ok (parse_signed_value material) _ st k1 in
        let (_, allowed, k3) =
          lift-eq-ok (enforce_policy config.policy c.facts cookie.token) _ st k2 in
        let (_, matches, k4) =
          lift-eq-ok (verify_signature hmac_sha256 config.secrets cookie.token cookie.signature) _
            st k3 in
        let (encodable, ascii) =
          verify_signature_sound hmac_sha256 config.secrets cookie.token cookie.signature matches in
        record {
          material = material;
          cookie = cookie;
          resolves = resolves;
          signed = (parse_signed_value_iff material cookie).0 parses;
          allowed = (enforce_policy_iff config.policy c.facts cookie.token).0 allowed;
          encodable = encodable;
          matches =
              (verify_signature_iff hmac_sha256 config.secrets cookie.token cookie.signature
                  encodable ascii).0
                matches;
          live = resolved_sound cookie.token model expiry_now ban_now st answer k4;
        }
