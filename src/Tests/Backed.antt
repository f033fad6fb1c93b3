-- ===== src/Tests/Backed.antt =====
-- A request to the cookie verifier that a database answers.
use fastapi_better_auth.CookieVerifier.Sound.{IsAuthentic}
use fastapi_better_auth.Codec.{b64encode}
use fastapi_better_auth.Signing.{expected}
use fastapi_better_auth.Latches.Outage.{new_outage}
use fastapi_better_auth.Sql.Rows.{Row}
use fastapi_better_auth.Latches.{new_once}
use fastapi_better_auth.Sql.Store.Verified.{IsBacked, verify-IsBacked}
use fastapi_better_auth.Base.{ℕ, Option, some, inl, arith, refl}
use fastapi_better_auth.Cookies.Chunks.{
  resolve_cookie_value, resolve_named_cookie, value_for_base, whole_values, chunks_of, is_chunk,
  chosen,
}
use fastapi_better_auth.Tests.Cookie.{credential_of}
use fastapi_better_auth.Tests.Cookie.{config as cookie_config}
use fastapi_better_auth.Tests.Parsing.{toy_hmac, material, cookie, cookie-IsSigned}
use fastapi_better_auth.Tests.Sql.{
  config, engine, failures, is_sql_error, fromisoformat, stored, user, found,
}
use fastapi_better_auth.Text.{lit, str_eq, starts_with, is_encodable}
use fastapi_better_auth.Errors.{ok, Result}
use fastapi_better_auth.CookieVerifier.{State, session_of}
use fastapi_better_auth.CookieVerifier.Complete.{verify_iff}
use fastapi_better_auth.Sql.Store.{session_store, new_store}
use fastapi_better_auth.Sql.Store.{State as StoreState}

abbrev validate : ℕ → Row → Result (Option ℕ)
validate model payload = ok (some model)

abbrev state : State (StoreState ℕ ℕ) ℕ
state = record {
  store = new_store 0;
  session_data_once = new_once;
  session_outage = new_outage;
  user_outage = new_outage;
}

authentic :
    IsAuthentic
      (session_store engine failures is_sql_error fromisoformat config)
      toy_hmac
      validate
      cookie_config
      (credential_of material)
      1
      10
      10
      (new_store 0)
      (session_of stored (lit "tok.en") 1)
unfolding resolve_cookie_value resolve_named_cookie value_for_base whole_values chunks_of is_chunk
    chosen str_eq starts_with expected b64encode is_encodable
authentic = record {
  material = material;
  cookie = cookie;
  resolves = refl;
  signed = cookie-IsSigned;
  allowed = refl;
  encodable = refl;
  matches = inl refl;
  live = record {
    stored = stored;
    found = found;
    alive = omega arith;
    user = user;
    user_found = inl refl;
    may_sign_in = inl (λ e. cc);
    parsed = 1;
    valid = refl;
    same = refl;
  };
}

verify-IsBacked_example :
    IsBacked {User = ℕ} engine fromisoformat toy_hmac cookie_config
      (credential_of material)
      10
      10
      (session_of stored (lit "tok.en") 1)
verify-IsBacked_example =
    verify-IsBacked engine failures is_sql_error fromisoformat config toy_hmac validate
      cookie_config (credential_of material) 1 10 10 state (session_of stored (lit "tok.en") 1)
      ((verify_iff failures (session_store engine failures is_sql_error fromisoformat config)
          toy_hmac validate cookie_config (credential_of material) 1 10 10 state
          (session_of stored (lit "tok.en") 1)).1
        authentic)
