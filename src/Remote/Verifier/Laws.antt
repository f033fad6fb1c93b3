-- ===== src/Remote/Verifier/Laws.antt =====
-- remote_verifier.py: what a session that `verify` returns proves.
use fastapi_better_auth.Base.{
  ℤ, ℕ, ◌≡◌, ◌<◌, refl, sym, ap, Bool, true, false, not, ◌∙◌, Option, none, some, arith,
}
use fastapi_better_auth.Text.{Str, Bytes, str_eq}
use fastapi_better_auth.Text.Laws.{str_eq_iff}
use fastapi_better_auth.Errors.{
  Result, ok, ok_of, other_token, upstream_backing_off, upstream_saturated, refuse_if, refuse_if-ok,
}
use fastapi_better_auth.Errors.{bind-eq-ok as result-eq-ok}
use fastapi_better_auth.Exec.{bind-eq-ok, lift-eq-ok}
use fastapi_better_auth.Cookies.{Pair}
use fastapi_better_auth.Cookies.Chunks.{resolve_named_cookie}
use fastapi_better_auth.Csrf.{enforce_policy}
use fastapi_better_auth.Latches.{latched}
use fastapi_better_auth.NegativeCache.{holds}
use fastapi_better_auth.CookieVerifier.{
  CookieCredential, snapshot, StoredUser, StoredSession, Session, check_expiry, check_ban,
  session_of, parse_user,
}
use fastapi_better_auth.CookieVerifier.Sound.{
  MaySignIn, check_expiry-ok, check_ban-ok, parse_user-ok,
}
use fastapi_better_auth.Remote.Document.{Document, parse_session_document}
use fastapi_better_auth.Remote.Response.{Response, is_cacheable_null, null_outcome}
use fastapi_better_auth.Remote.Response.Laws.{IsDocument, session_document_from_iff}
use fastapi_better_auth.Remote.Rungs.Laws.{
  IsToken, IsGenuine, rung_one-IsToken, rung_two-IsGenuine, translated_answer,
}
use fastapi_better_auth.Csrf.Token.{enforce_policy_iff}
use fastapi_better_auth.Remote.Rungs.{unavailable, rung_one, rung_two, proved, embedded, invalid}
use fastapi_better_auth.Remote.Verifier.{
  Config, Network, State, Times, ready, fetched, observed, remembered_dead, backing_off, document,
  remembered_if, asked, verify, got, on_network,
}

module _ {Payload Model User : Type 0}
    (model_validate : Model → Payload → Result (Option User)) where
  -- A record proves a session of this token.
  pub record IsProved (r : StoredSession Payload) (token : Str) (model : Model) (times : Times)
      (session : Session User Payload) : Type 0 where
    pub same_token : r.token ≡ token
    pub alive : times.expiry < r.expires_at
    pub user : StoredUser Payload
    pub has_user : r.user ≡ some user
    pub may_sign_in : MaySignIn user times.ban
    pub parsed : User
    pub valid : model_validate model user.payload ≡ ok (some parsed)
    pub session_is : session ≡ session_of r token parsed

  embedded-ok :
      (o : Option (StoredUser Payload)) (u : StoredUser Payload) → embedded o ≡ ok u → o ≡ some u
  unfolding embedded
  embedded-ok none u h = absurd (cc)
  embedded-ok (some v) u h = cc

  proved_sound :
      (r : StoredSession Payload) (token : Str) (model : Model) (times : Times)
      (session : Session User Payload)
      → proved model_validate r token model times.expiry times.ban ≡ ok session
      → IsProved r token model times session
  unfolding proved
  proved_sound r token model times session h =
      let (_, same, k1) =
        result-eq-ok (refuse_if (not (str_eq r.token token)) (invalid other_token)) _ h in
      let (_, alive, k2) = result-eq-ok (check_expiry r.expires_at times.expiry) _ k1 in
      let (user, has_user, k3) = result-eq-ok (embedded r.user) _ k2 in
      let (_, ban, k4) = result-eq-ok (check_ban user times.ban) _ k3 in
      let (parsed, valid, k5) = result-eq-ok (parse_user model_validate model user.payload) _ k4 in
      record {
        same_token = (str_eq_iff r.token token).0 (ground (arith, refuse_if-ok _ _ same));
        alive = check_expiry-ok r.expires_at times.expiry alive;
        user = user;
        has_user = embedded-ok r.user user has_user;
        may_sign_in = check_ban-ok user times.ban ban;
        parsed = parsed;
        valid = parse_user-ok model_validate model user.payload parsed valid;
        session_is = sym (ok_of k5);
      }

module _ {T Payload Model User : Type 0} (network : Network T Payload)
    (model_validate : Model → Payload → Result (Option User)) (hmac_sha256 : Bytes → Bytes → Bytes)
    (sha256 : Bytes → Bytes) (fromisoformat : Str → Option ℕ) (read_int : Str → Option ℤ)
    (is_cancelled : ℕ → Bool) where
  -- A call of the server brought the record that proves the session.
  pub record IsAnswered (token : Str) (model : Model) (times : Times)
      (session : Session User Payload) : Type 0 where
    pub asked_in : T
    pub cookie : Pair
    pub response : Response Payload
    pub acquired : (network.acquire asked_in).0 ≡ ok true
    pub came : (network.get cookie (network.acquire asked_in).1).0 ≡ ok response
    pub body : Document Payload
    pub is_document : IsDocument response body
    pub stored : StoredSession Payload
    pub parsed : parse_session_document fromisoformat body ≡ some stored
    pub proved : IsProved model_validate stored token model times session

  fetched_sound :
      (cookie : Pair) (st next : State T) (response : Response Payload)
      → fetched network cookie st ≡ (ok response, next)
      → ((network.acquire st.network).0 ≡ ok true)
        × ((network.get cookie (network.acquire st.network).1).0 ≡ ok response)
  unfolding fetched got
  fetched_sound cookie st next response h =
      let (acquired, s1, e1, k1) =
        bind-eq-ok (on_network network network.acquire) _ st (ap (λ p. p.0) h) in
      let (_, held, k2) =
        lift-eq-ok (refuse_if (not acquired) (unavailable upstream_saturated)) _ s1 k1 in
      let slot : acquired ≡ true = ground (arith, refuse_if-ok _ _ held) in
      let moved : (network.acquire st.network).1 ≡ s1.network = ap (λ p. p.1.network) e1 in
      (
        ap (λ p. p.0) e1 ∙ ap ok slot,
        rw moved (translated_answer (network.get cookie s1.network).0 response k2),
      )

  asked_sound :
      (cookie : Pair) (token : Str) (verified : Bool) (model : Model) (times : Times) (st : State T)
      (session : Session User Payload)
      → (asked network model_validate hmac_sha256 sha256 fromisoformat read_int is_cancelled cookie
          token verified model times st).0
        ≡ ok session
      → (a : IsAnswered token model times session) × (a.cookie ≡ cookie)
  unfolding asked document
  asked_sound cookie token verified model times st session h =
      let (_, s1, e1, k1) = bind-eq-ok (ready network is_cancelled times) _ st h in
      let (response, s2, e2, k2) = bind-eq-ok (fetched network cookie) _ s1 k1 in
      let (_, s3, e3, k3) =
        bind-eq-ok (observed network read_int times.observed response) _ s2 k2 in
      let (r, s4, e4, k4) =
        bind-eq-ok
          (document network sha256 fromisoformat times.remembered cookie.1 verified response) _ s3
          k3 in
      let (_, s5, e5, k5) =
        bind-eq-ok
          (remembered_if network sha256 fromisoformat (is_cacheable_null response) times.remembered
            cookie.1)
          _ s3 (ap (λ p. p.0) e4) in
      let (acquired, came) = fetched_sound cookie s1 s2 response e2 in
      let (d, is_d, parsed) = (session_document_from_iff fromisoformat verified response r).0 k5 in
      (
        record {
          asked_in = s1.network;
          cookie = cookie;
          response = response;
          acquired = acquired;
          came = came;
          body = d;
          is_document = is_d;
          stored = r;
          parsed = parsed;
          proved = proved_sound model_validate r token model times session k4;
        },
        refl,
      )

  -- The gates that a credential passed before the call, and the call's answer.
  pub record IsRemoteSession (config : Config) (c : CookieCredential) (model : Model)
      (times : Times) (st : State T) (session : Session User Payload) : Type 0 where
    pub cookie : Pair
    pub token : Str
    pub verified : Bool
    pub chosen : resolve_named_cookie c.pairs config.base ≡ ok cookie
    pub structured : IsToken cookie.1 token
    pub allowed : config.policy.check c.facts token ≡ ok false
    pub signed : IsGenuine hmac_sha256 config.secrets cookie.1 token verified
    pub not_dead : (holds sha256 times.held cookie.1 st.cache).1 ≡ false
    pub not_blocked : (latched times.blocked st.backoff).1 ≡ false
    pub answered : IsAnswered token model times session
    pub own_cookie : answered.cookie ≡ cookie

  -- A session is returned only if the request's one cookie of the configured name is a token, a dot and a
  -- signature, percent-encoded within the sizes, the policy allows the request, the signature is that of the
  -- token under one of the secrets where any are configured, the cookie is not remembered as dead and no rate
  -- limit is waited out, and a call with that very cookie, in a slot that was free, brought a JSON document
  -- whose record names the cookie's token, has not expired and has a user who may sign in. The session is that
  -- record's.
  pub verify-IsRemoteSession :
      (config : Config) (c : CookieCredential) (model : Model) (times : Times) (st : State T)
      (session : Session User Payload)
      → (verify network model_validate hmac_sha256 sha256 fromisoformat read_int is_cancelled config
          (snapshot c)
          model
          times
          st).0
        ≡ ok session
      → IsRemoteSession config c model times st session
  unfolding verify remembered_dead backing_off
  verify-IsRemoteSession config c model times st session h =
      let (cookie, chosen, k1) = lift-eq-ok (resolve_named_cookie c.pairs config.base) _ st h in
      let (token, structured, k2) = lift-eq-ok (rung_one cookie.1) _ st k1 in
      let (_, allowed, k3) = lift-eq-ok (enforce_policy config.policy c.facts token) _ st k2 in
      let (verified, signed, k4) =
        lift-eq-ok (rung_two hmac_sha256 config.secrets cookie.1) _ st k3 in
      let (cache, dead) = holds sha256 times.held cookie.1 st.cache in
      let s1 : State T = record st { cache = cache } in
      let (_, alive, k5) = lift-eq-ok (refuse_if dead (null_outcome verified)) _ s1 k4 in
      let (backoff, blocked) = latched times.blocked st.backoff in
      let s2 : State T = record s1 { backoff = backoff } in
      let (_, free, k6) =
        lift-eq-ok (refuse_if blocked (unavailable upstream_backing_off)) _ s2 k5 in
      let is_token = rung_one-IsToken cookie.1 token structured in
      let (answered, own_cookie) = asked_sound cookie token verified model times s2 session k6 in
      record {
        cookie = cookie;
        token = token;
        verified = verified;
        chosen = chosen;
        structured = is_token;
        allowed = (enforce_policy_iff config.policy c.facts token).0 allowed;
        signed =
            rung_two-IsGenuine hmac_sha256 config.secrets cookie.1 token verified is_token signed;
        not_dead = refuse_if-ok _ _ alive;
        not_blocked = refuse_if-ok _ _ free;
        answered = answered;
        own_cookie = own_cookie;
      }
