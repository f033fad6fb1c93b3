-- ===== src/Sql/Store/Verified.antt =====
-- cookie_verifier.py with stores/sqlalchemy_store.py: the row behind a verified cookie.
use mathlib.Core.Path.{subst}
use fastapi_better_auth.Base.{ℕ, ◌<◌, ◌≡◌, sym, ◌∙◌, inl, inr, List, Bool, Option, some, Any}
use fastapi_better_auth.Text.{Str, Bytes, utf8}
use fastapi_better_auth.Cookies.Chunks.{resolve_cookie_value}
use fastapi_better_auth.Cookies.Signed.{ParsedCookie}
use fastapi_better_auth.Cookies.Signed.Laws.{IsSigned}
use fastapi_better_auth.Signing.{expected}
use fastapi_better_auth.Errors.{Raised, Result, ok}
use fastapi_better_auth.CookieVerifier.{
  CookieCredential, snapshot, StoredUser, StoredSession, Session, Failures, Config as CookieConfig,
  State as CookieState, verify, session_of,
}
use fastapi_better_auth.CookieVerifier.Sound.{MaySignIn}
use fastapi_better_auth.CookieVerifier.Complete.{verify_iff}
use fastapi_better_auth.Sql.Plan.{Plan, Config}
use fastapi_better_auth.Sql.Rows.{Row}
use fastapi_better_auth.Sql.Rows.Laws.{IsRecord, session_from-IsRecord}
use fastapi_better_auth.Sql.Store.{Engine, State, session_store}
use fastapi_better_auth.Sql.Store.Laws.{fetch_session_by_token-IsAnswered}

-- The cookie of a request, and the row of the database that a session stands on: that of the cookie's token.
pub record IsBacked {E User : Type 0} (engine : Engine E) (fromisoformat : Str → Option ℕ)
    (hmac_sha256 : Bytes → Bytes → Bytes) (cookies : CookieConfig) (c : CookieCredential)
    (expiry_now ban_now : ℕ) (session : Session User Row) : Type 0 where
  pub material : Str
  pub cookie : ParsedCookie
  pub resolves : resolve_cookie_value c.pairs cookies.base ≡ ok material
  pub signed : IsSigned material cookie
  pub matches :
      Any (λ k. cookie.signature ≡ expected hmac_sha256 k (utf8 cookie.token)) cookies.secrets
  pub plan : Plan
  pub rows : List Row
  pub before : E
  pub ran : (engine.execute plan.session_select cookie.token before).0 ≡ ok rows
  pub stored : StoredSession Row
  pub is_record : IsRecord fromisoformat cookie.token plan rows stored
  pub alive : expiry_now < stored.expires_at
  pub may_sign_in : MaySignIn is_record.user ban_now
  pub user : User
  pub session_is : session ≡ session_of stored cookie.token user

-- two readings of one embedded user
same_user : (a b : StoredUser Row) (o : Option (StoredUser Row)) → o ≡ some a → o ≡ some b → a ≡ b
same_user a b o h k = cc

module _ {E Kind Model User : Type 0} (engine : Engine E) (failures : Failures Kind)
    (is_sql_error : Raised → Bool) (fromisoformat : Str → Option ℕ) (config : Config)
    (hmac_sha256 : Bytes → Bytes → Bytes)
    (model_validate : Model → Row → Result (Option User)) where
  -- A session that the cookie verifier returns over a SQL store stands on the request's one session cookie,
  -- signed under a secret of the keyring, and on one row that the database answered for that cookie's
  -- token: the row has exactly that token, it has not expired, and the user of that row may sign in.
  pub verify-IsBacked :
      (cookies : CookieConfig) (c : CookieCredential) (model : Model) (expiry_now ban_now : ℕ)
      (st : CookieState (State E Kind) Kind) (session : Session User Row)
      → (verify failures
          (session_store engine failures is_sql_error fromisoformat config)
          hmac_sha256
          model_validate
          cookies
          (snapshot c)
          model
          expiry_now
          ban_now
          st).0
        ≡ ok session
      → IsBacked engine fromisoformat hmac_sha256 cookies c expiry_now ban_now session
  verify-IsBacked cookies c model expiry_now ban_now st session h =
      let a =
        (verify_iff failures (session_store engine failures is_sql_error fromisoformat config)
            hmac_sha256 model_validate cookies c model expiry_now ban_now st session).0
          h in
      elim (fetch_session_by_token-IsAnswered engine failures is_sql_error fromisoformat config
        a.cookie.token st.store (some a.live.stored) a.live.found) [
          | inl (blank, missed) ↦ absurd (cc)
          | inr found ↦
              let record_of =
                session_from-IsRecord fromisoformat a.cookie.token found.plan found.rows
                  a.live.stored found.read in
              let user_is : a.live.user ≡ record_of.user = elim a.live.user_found [
                | inl e ↦
                    same_user a.live.user record_of.user a.live.stored.user e record_of.embedded
                | inr (e, k) ↦ absurd (cc (sym e ∙ record_of.embedded))
              ] in
              record {
                material = a.material;
                cookie = a.cookie;
                resolves = a.resolves;
                signed = a.signed;
                matches = a.matches;
                plan = found.plan;
                rows = found.rows;
                before = found.before;
                ran = found.ran;
                stored = a.live.stored;
                is_record = record_of;
                alive = a.live.alive;
                may_sign_in = subst (λ u. MaySignIn u ban_now) user_is a.live.may_sign_in;
                user = a.live.parsed;
                session_is = a.live.same;
              }
        ]
