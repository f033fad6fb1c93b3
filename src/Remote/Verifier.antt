-- ===== src/Remote/Verifier.antt =====
-- remote_verifier.py: `extract`, the gates of the state, and `verify`. The transport, its limiter and the boot probe are
-- parameters that run on a state of their own. Clock readings are in seconds.
pub mod Laws
pub mod Calls
pub mod Gated
pub mod Openable
pub mod Recovery
use fastapi_better_auth.Base.{
  ℤ, ℕ, ◌+◌, Bool, true, false, not, Option, none, some, List, [], ◌∷◌, leb, ltb, if◌then◌else◌,
  length, ◌||◌,
}
use fastapi_better_auth.Text.{Str, Bytes, Parts, lit, str_eq, rpartition}
use fastapi_better_auth.Codec.{unquote}
use fastapi_better_auth.Errors.{
  Raised, Reason, session, configuration, exit, Result, ok, raise, is_better_auth, is_session_error,
  is_exception, refuse_if,
}
use fastapi_better_auth.Errors.{
  invalid_credential, auth_service_unavailable, foreign_credential, value_too_long,
  not_percent_utf8, no_separator, empty_token, unreachable_at_boot, signature_length,
  upstream_backing_off, upstream_unready, upstream_saturated, upstream_unreached, other_token,
}
use fastapi_better_auth.Remote.Rungs.{invalid, unavailable, rung_one, rung_two, translated, proved}
use fastapi_better_auth.Exec.{Exec, pure, throw, lift, ◌>>=◌, ◌>>◌}
use fastapi_better_auth.Cookies.{
  Pair, cookie_pairs, max_cookie_bytes, max_cookie_header_bytes, max_cookie_pairs,
}
use fastapi_better_auth.Cookies.Chunks.{resolve_named_cookie}
use fastapi_better_auth.Cookies.Signed.{parse_signed_value, required, is_empty}
use fastapi_better_auth.Csrf.{Connection, CsrfPolicy, from_connection, enforce_policy}
use fastapi_better_auth.Signing.{verify_signature}
use fastapi_better_auth.Latches.{Backoff, latched, observe}
use fastapi_better_auth.NegativeCache.{NegativeCache, holds, remember}
use fastapi_better_auth.CookieVerifier.{
  CookieCredential, Credential, snapshot, other, StoredUser, StoredSession, Session, matched,
  joined_cookie_header, check_expiry, check_ban, session_of, parse_user,
}
use fastapi_better_auth.Remote.Response.{
  Response, retry_after_seconds, is_cacheable_null, null_outcome, session_document_from,
}

abbrev pub probe_retry_interval : ℕ
probe_retry_interval = 10

pub record Config : Type 0 where
  pub secrets : List Str
  pub base : Str
  pub acceptable : List Str
  pub policy : CsrfPolicy

-- The transport's `get` of the session URI with a Cookie header's one pair, run_probe, and the limiter's acquire,
-- false on its timeout, and release.
pub record Network (T Payload : Type 0) : Type 0 where
  pub get : Pair → Exec T (Response Payload)
  pub run_probe : Exec T (Unit {0})
  pub acquire : Exec T Bool
  pub release : T → T

pub record State (T : Type 0) : Type 0 where
  pub network : T
  pub cache : NegativeCache
  pub backoff : Backoff
  pub probed_ok : Bool
  pub contract_failure : Option Reason
  pub probe_attempted_at : Option ℕ

-- the clock's readings in one call of `verify`
pub record Times : Type 0 where
  pub held : ℕ
  pub blocked : ℕ
  pub probing : ℕ
  pub attempted : ℕ
  pub observed : ℕ
  pub remembered : ℕ
  pub expiry : ℕ
  pub ban : ℕ

-- a credential has the fields of a CookieCredential
credential_of : Config → Connection → List Pair → Option CookieCredential
credential_of config connection [] = none
credential_of config connection (p ∷ ps) =
    some (record { pairs = p ∷ ps; facts = from_connection connection config.policy })

-- RemoteVerifier.extract
unfoldable pub extract : Config → Connection → Option CookieCredential
unfolding credential_of
extract config connection =
    let header = joined_cookie_header connection in
    let pairs = cookie_pairs header in
    if ltb max_cookie_header_bytes (length header)
    then none
    else if ltb max_cookie_pairs (length pairs)
    then none
    else credential_of config connection (matched config.acceptable pairs)

module _ {T Payload : Type 0} (network : Network T Payload) where
  -- a call of the network, on the verifier's state
  abbrev on_network : {A : Type 0} → Exec T A → Exec (State T) A
  on_network call st = let (r, t) = call st.network in (r, record st { network = t })

  -- _may_probe
  unfoldable pub may_probe : ℕ → Option ℕ → Bool
  may_probe now none = true
  may_probe now (some at) = leb (at + probe_retry_interval) now

  -- after _attempt_probe's call: a contract failure is remembered, a cancellation takes the stamp back
  noted : (ℕ → Bool) → Option ℕ → Raised → State T → State T
  noted is_cancelled previous (configuration r) st = record st { contract_failure = some r }
  noted is_cancelled previous (exit n) st =
      if is_cancelled n then record st { probe_attempted_at = previous } else st
  noted is_cancelled previous e st = st

  probe_settled : (ℕ → Bool) → Option ℕ → Result (Unit {0}) → Exec (State T) (Unit {0})
  unfolding noted
  probe_settled is_cancelled previous (ok u) st = (ok u, record st { probed_ok = true })
  probe_settled is_cancelled previous (raise e) st = (raise e, noted is_cancelled previous e st)

  -- _attempt_probe
  unfoldable pub attempt_probe : (ℕ → Bool) → ℕ → Exec (State T) (Unit {0})
  unfolding probe_settled
  attempt_probe is_cancelled now st =
      let (r, st') = on_network network.run_probe (record st { probe_attempted_at = some now }) in
      probe_settled is_cancelled st.probe_attempted_at r st'

  -- the gate before a probe: `true` where it was passed once, and the refusal of a remembered failure
  gate : State T → Result Bool
  gate st =
      if st.probed_ok
      then ok true
      else elim st.contract_failure [ none ↦ ok false | some r ↦ raise (configuration r) ]

  probe_if_due : (ℕ → Bool) → Times → Exec (State T) (Unit {0})
  unfolding may_probe
  probe_if_due is_cancelled times st = elim (may_probe times.probing st.probe_attempted_at) [
    | false ↦ (raise (unavailable upstream_unready), st)
    | true ↦ attempt_probe is_cancelled times.attempted st
  ]

  unready : (ℕ → Bool) → Times → Result Bool → Exec (State T) (Unit {0})
  unfolding probe_if_due
  unready is_cancelled times (raise e) st = (raise e, st)
  unready is_cancelled times (ok true) st = (ok tt, st)
  unready is_cancelled times (ok false) st = probe_if_due is_cancelled times st

  -- _ready, whose second test, under the lock, is on the state that the first one read
  unfoldable pub ready : (ℕ → Bool) → Times → Exec (State T) (Unit {0})
  unfolding gate unready
  ready is_cancelled times st = unready is_cancelled times (gate st) st

  -- prepare: a server that cannot be reached is a configuration error at startup, which is not remembered
  prepared : Result (Unit {0}) → Result (Unit {0})
  prepared (raise (session auth_service_unavailable r)) = raise (configuration unreachable_at_boot)
  prepared r = r

  unfoldable pub prepare : (ℕ → Bool) → Times → Exec (State T) (Unit {0})
  unfolding prepared
  prepare is_cancelled times st = let (r, next) = ready is_cancelled times st in (prepared r, next)

  -- probe
  abbrev pub probe : Exec (State T) (Unit {0})
  probe = on_network network.run_probe

  -- _get, with the release of the slot
  got : Pair → Exec (State T) (Response Payload)
  got cookie st =
      let (r, t) = network.get cookie st.network in
      (translated r, record st { network = network.release t })

  -- _fetched
  unfoldable pub fetched : Pair → Exec (State T) (Response Payload)
  unfolding got
  fetched cookie = do
    acquired ← on_network network.acquire
    lift (refuse_if (not acquired) (unavailable upstream_saturated))
    got cookie

  -- the three gates of the state
  unfoldable pub remembered_dead : (Bytes → Bytes) → ℕ → Str → Exec (State T) Bool
  remembered_dead sha256 now material st =
      let (cache, b) = holds sha256 now material st.cache in (ok b, record st { cache = cache })

  unfoldable pub backing_off : ℕ → Exec (State T) Bool
  backing_off now st =
      let (backoff, b) = latched now st.backoff in (ok b, record st { backoff = backoff })

  unfoldable pub observed : (Str → Option ℤ) → ℕ → Response Payload → Exec (State T) (Unit {0})
  observed read_int now response st = (
    ok tt,
    record st {
      backoff =
          (observe now response.status_code (retry_after_seconds read_int response.headers)
            st.backoff).0;
    },
  )

  -- `remember` of a full cache of size 0 would raise a StopIteration
  kept : Option NegativeCache → Exec (State T) (Unit {0})
  kept none st = (raise (Raised.other 0), st)
  kept (some cache) st = (ok tt, record st { cache = cache })

  module _ (sha256 : Bytes → Bytes) (fromisoformat : Str → Option ℕ) where
    remembered_if : Bool → ℕ → Str → Exec (State T) (Unit {0})
    unfolding kept
    remembered_if true now material st = kept (remember sha256 now material st.cache) st
    remembered_if false now material st = (ok tt, st)

    -- _document
    unfoldable pub document :
        ℕ → Str → Bool → Response Payload → Exec (State T) (StoredSession Payload)
    unfolding remembered_if
    document now material verified response = do
      remembered_if (is_cacheable_null response) now material
      lift (session_document_from fromisoformat verified response)

  module _ {Model User : Type 0} (model_validate : Model → Payload → Result (Option User)) where
    module _ (hmac_sha256 : Bytes → Bytes → Bytes) (sha256 : Bytes → Bytes)
        (fromisoformat : Str → Option ℕ) (read_int : Str → Option ℤ) (is_cancelled : ℕ → Bool) where
      -- the part of `verify` that may call the server
      asked : Pair → Str → Bool → Model → Times → Exec (State T) (Session User Payload)
      asked cookie token verified model times = do
        ready is_cancelled times
        response ← fetched cookie
        observed read_int times.observed response
        r ← document sha256 fromisoformat times.remembered cookie.1 verified response
        lift (proved model_validate r token model times.expiry times.ban)

      -- RemoteVerifier.verify
      unfoldable pub verify :
          Config → Credential → Model → Times → Exec (State T) (Session User Payload)
      unfolding asked
      verify config other model times = throw (invalid foreign_credential)
      verify config (snapshot c) model times = do
        cookie ← lift (resolve_named_cookie c.pairs config.base)
        token ← lift (rung_one cookie.1)
        lift (enforce_policy config.policy c.facts token)
        verified ← lift (rung_two hmac_sha256 config.secrets cookie.1)
        dead ← remembered_dead sha256 times.held cookie.1
        lift (refuse_if dead (null_outcome verified))
        blocked ← backing_off times.blocked
        lift (refuse_if blocked (unavailable upstream_backing_off))
        asked cookie token verified model times
