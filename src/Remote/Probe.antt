-- ===== src/Remote/Probe.antt =====
-- remote_probe.py: the requests that a deployment is checked with before it serves. The transport, json.loads,
-- secrets.choice and the classes of a transport's exceptions are parameters; the headers' scrubbing and the
-- texts of the messages are not modelled.
pub mod Contract
pub mod Answers
pub mod Laws
use fastapi_better_auth.Base.{
  ℕ, Bool, true, false, not, ◌&&◌, ◌||◌, Option, none, some, List, [], ◌∷◌, ◌++◌, ◌==◌,
  if◌then◌else◌,
}
use fastapi_better_auth.Text.{Str, lit}
use fastapi_better_auth.Errors.{
  Raised, Reason, session, configuration, Result, ok, raise, refuse_if, auth_service_unavailable,
  is_better_auth, is_session_error, is_exception, probe_timed_out, probe_too_large, probe_encoded,
  probe_unreached, probe_routing, probe_status, probe_media, probe_not_json, probe_dead_jar,
  probe_not_null, unsigned_bearer,
}
use fastapi_better_auth.Exec.{Exec, lift, ◌>>=◌, ◌>>◌}
use fastapi_better_auth.CookieVerifier.{StoredSession}
use fastapi_better_auth.Latches.{Once, fire}
use fastapi_better_auth.Remote.Document.{Document, parse_session_document}
use fastapi_better_auth.Remote.Probe.Contract.{assert_null_contract}
use fastapi_better_auth.Remote.Response.{Body, Response, header, is_json}

-- The transport's `get` of the session URI, with or without an Authorization header, and the tests for a
-- TimeoutError, a ResponseTooLarge and a ContentEncodingRejected.
pub record Transport (T Payload : Type 0) : Type 0 where
  pub get : Option Str → Exec T (Response Payload)
  pub is_timeout : Raised → Bool
  pub is_too_large : Raised → Bool
  pub is_encoding : Raised → Bool

-- the transport's state, and `_advised`, which a process has once
pub record State (T : Type 0) : Type 0 where
  pub network : T
  pub advised : Once

module _ {T Payload : Type 0} (transport : Transport T Payload) where
  failure_of : Raised → Reason
  failure_of e =
      if transport.is_timeout e
      then probe_timed_out
      else if transport.is_too_large e
      then probe_too_large
      else if transport.is_encoding e
      then probe_encoded
      else probe_unreached

  -- the handlers of _probe_get
  unfoldable pub translated : Result (Response Payload) → Result (Response Payload)
  unfolding failure_of
  translated (ok r) = ok r
  translated (raise e) =
      if is_better_auth e || is_session_error e
      then raise e
      else if is_exception e
      then raise (session auth_service_unavailable (failure_of e))
      else raise e

  -- _probe_get
  unfoldable pub probe_get : Option Str → Exec (State T) (Response Payload)
  probe_get authorization st =
      let (r, t) = transport.get authorization st.network in
      (translated r, record st { network = t })

  -- the test for a set-cookie, and what it means
  posture : Bool → Option Str → Exec (State T) (Unit {0})
  posture refuse none st = (ok tt, st)
  posture true (some cookie) st = (raise (configuration unsigned_bearer), st)
  posture false (some cookie) st = (ok tt, record st { advised = (fire st.advised).0 })

  -- the handler of _advise, and what follows it
  pub answered : Bool → Result (Response Payload) → Exec (State T) (Unit {0})
  unfolding posture
  answered refuse (ok r) st = posture refuse (header (lit "set-cookie") r.headers) st
  answered refuse (raise e) st =
      if (is_better_auth e || is_session_error e) && not refuse then (ok tt, st) else (raise e, st)

  -- _advise, with the token that secrets.choice draws
  unfoldable pub advise : Str → Bool → Exec (State T) (Unit {0})
  unfolding answered
  advise token refuse st =
      let (r, next) = probe_get (some (lit "Bearer " ++ token)) st in answered refuse r next

  -- run_probe
  unfoldable pub run_probe : (Str → Option ℕ) → Str → Bool → Exec (State T) (Unit {0})
  run_probe fromisoformat token refuse = do
    response ← probe_get none
    lift (assert_null_contract fromisoformat response)
    advise token refuse
