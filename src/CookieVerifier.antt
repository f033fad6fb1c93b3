-- ===== src/CookieVerifier.antt =====
-- cookie_verifier.py with stores/records.py and parsing.py: `extract` and `verify`. The store, the
-- user model and HMAC-SHA256 are parameters, moments are numbers on one UTC scale.
pub mod Store
pub mod Sound
pub mod Complete
pub mod Forged
pub mod Extract
use fastapi_better_auth.Base.{
  ℕ, ◌≡◌, Bool, true, false, not, ◌&&◌, ◌||◌, Option, none, some, List, [], ◌∷◌, leb, ltb,
  if◌then◌else◌, length,
}
use fastapi_better_auth.Text.{Str, Bytes, lit, join, is_blank}
use fastapi_better_auth.Errors.{
  Raised, session, Result, ok, raise, is_better_auth, is_session_error, is_exception, Reason,
  refuse_if,
}
use fastapi_better_auth.Errors.{
  invalid_credential, session_expired, session_revoked, auth_service_unavailable,
}
use fastapi_better_auth.Errors.{
  foreign_credential, no_stored_session, stored_session_expired, user_absent, user_banned,
  store_unavailable, payload_rejected,
}
use fastapi_better_auth.Errors.{◌>>=◌ as bind}
use fastapi_better_auth.Exec.{Exec, pure, throw, lift, ◌>>=◌, ◌>>◌}
use fastapi_better_auth.Cookies.{
  Pair, cookie_pairs, member, max_cookie_header_bytes, max_cookie_pairs,
}
use fastapi_better_auth.Cookies.Chunks.{resolve_cookie_value}
use fastapi_better_auth.Cookies.Signed.{ParsedCookie, parse_signed_value}
use fastapi_better_auth.Csrf.{
  Connection, CsrfFacts, CsrfPolicy, get_list, from_connection, enforce_policy,
}
use fastapi_better_auth.Signing.{verify_signature}
use fastapi_better_auth.Latches.{Once, fire}
use fastapi_better_auth.Latches.Outage.{OutageLatch, admit, rearm}

-- What a store returns. `Payload` is the record's document.
pub record StoredUser (Payload : Type 0) : Type 0 where
  pub id : Str
  pub payload : Payload
  pub banned : Option Bool
  pub ban_expires : Option ℕ

pub record StoredSession (Payload : Type 0) : Type 0 where
  pub token : Str
  pub user_id : Str
  pub expires_at : ℕ
  pub payload : Payload
  pub user : Option (StoredUser Payload)
  pub impersonated_by : Option Str

-- The Session that a verifier returns.
pub record Session (User Payload : Type 0) : Type 0 where
  pub user : User
  pub expires_at : ℕ
  pub token : Option Str
  pub impersonated_by : Option Str
  pub raw : Payload

pub record CookieCredential : Type 0 where
  pub pairs : List Pair
  pub facts : CsrfFacts

-- what the dispatcher may hand to `verify`: this verifier's snapshot, or anything else
pub data Credential : Type 0 where
  snapshot : CookieCredential → Credential
  other : Credential

-- The configuration of a CookieVerifier: its keyring, the one accepted base with its chunk names,
-- the name of the session_data cookie, and the policy.
pub record Config : Type 0 where
  pub secrets : List Str
  pub base : Str
  pub acceptable : List Str
  pub data_name : Str
  pub policy : CsrfPolicy

-- The state: the store's, and the verifier's three latches.
pub record State (S Kind : Type 0) : Type 0 where
  pub store : S
  pub session_data_once : Once
  pub session_outage : OutageLatch Kind
  pub user_outage : OutageLatch Kind

unfoldable pub observed_data : Str → List Pair → Bool
observed_data name [] = false
observed_data name (p ∷ ps) = member p.0 (name ∷ []) || observed_data name ps

unfoldable pub matched : List Str → List Pair → List Pair
matched acceptable [] = []
matched acceptable (p ∷ ps) =
    let rest = matched acceptable ps in
    if member p.0 acceptable && not (is_blank p.1) then p ∷ rest else rest

-- _joined_cookie_header
unfoldable pub joined_cookie_header : Connection → Str
joined_cookie_header connection = join (lit "; ") (get_list (lit "cookie") connection.headers)

credential_of : Config → Connection → List Pair → Option CookieCredential
credential_of config connection [] = none
credential_of config connection (p ∷ ps) =
    some (record { pairs = p ∷ ps; facts = from_connection connection config.policy })

-- _observe_session_data, whose warning is not modelled
observe_data : Config → List Pair → Once → Once
observe_data config pairs once =
    if observed_data config.data_name pairs then (fire once).0 else once

-- CookieVerifier.extract: the credential, and the latch of the session_data warning
unfoldable pub extract : Config → Connection → Once → Option CookieCredential × Once
unfolding credential_of observe_data
extract config connection once =
    let header = joined_cookie_header connection in
    let pairs = cookie_pairs header in
    if ltb max_cookie_header_bytes (length header)
    then (none, once)
    else if ltb max_cookie_pairs (length pairs)
    then (none, once)
    else (
      credential_of config connection (matched config.acceptable pairs),
      observe_data config pairs once,
    )

-- _check_expiry
unfoldable pub check_expiry : ℕ → ℕ → Result (Unit {0})
check_expiry expires_at now =
    refuse_if (leb expires_at now) (session session_expired stored_session_expired)

has_lapsed : Option ℕ → ℕ → Bool
has_lapsed none now = false
has_lapsed (some until) now = leb until now

-- _check_ban
unfoldable pub check_ban : {P : Type 0} → StoredUser P → ℕ → Result (Unit {0})
unfolding has_lapsed
check_ban user now = elim user.banned [
  | none ↦ ok tt
  | some false ↦ ok tt
  | some true ↦
      refuse_if (not (has_lapsed user.ban_expires now)) (session session_revoked user_banned)
]

-- The SessionStore protocol.
pub record SessionStore (S Payload : Type 0) : Type 0 where
  pub fetch_session_by_token : Str → Exec S (Option (StoredSession Payload))
  pub fetch_user_by_id : Str → Exec S (Option (StoredUser Payload))

-- failure_kind, and the equality of the kinds
pub record Failures (Kind : Type 0) : Type 0 where
  pub kind_of : Raised → Kind
  pub same : Kind → Kind → Bool

-- `if x is None: raise`
required : {S A : Type 0} → Option A → Raised → Exec S A
required none e = throw e
required (some a) e = pure a

unfoldable pub session_of : {U P : Type 0} → StoredSession P → Str → U → Session U P
session_of r token user = record {
  user = user;
  expires_at = r.expires_at;
  token = some token;
  impersonated_by = r.impersonated_by;
  raw = r.payload;
}

validated : {U : Type 0} → Option U → Result U
validated none = raise (session invalid_credential payload_rejected)
validated (some u) = ok u

-- parse_user, over the validation of a payload by the user model: `none` is its ValidationError
unfoldable pub parse_user : {M P U : Type 0} → (M → P → Result (Option U)) → M → P → Result U
unfolding validated
parse_user model_validate model payload = bind (model_validate model payload) validated

module _ {Kind : Type 0} (failures : Failures Kind) where
  -- the handlers around a lookup: a library error passes, any other Exception is reported to the
  -- latch and becomes the uniform refusal, and a success re-arms the latch
  unfoldable pub contain : {A : Type 0} → Result A → OutageLatch Kind → Result A × OutageLatch Kind
  contain (ok found) latch = (ok found, rearm latch)
  contain (raise e) latch =
      if is_better_auth e || is_session_error e
      then (raise e, latch)
      else if is_exception e
      then (
        raise (session auth_service_unavailable store_unavailable),
        (admit failures.same (failures.kind_of e) latch).0,
      )
      else (raise e, latch)

  module _ {S Payload : Type 0} (sessions : SessionStore S Payload) where
    -- _looked_up
    unfoldable pub looked_up : Str → Exec (State S Kind) (Option (StoredSession Payload))
    looked_up token st =
        let (answer, s) = sessions.fetch_session_by_token token st.store in
        let (r, latch) = contain answer st.session_outage in
        (r, record st { store = s; session_outage = latch })

    -- _looked_up_user
    unfoldable pub looked_up_user : Str → Exec (State S Kind) (Option (StoredUser Payload))
    looked_up_user user_id st =
        let (answer, s) = sessions.fetch_user_by_id user_id st.store in
        let (r, latch) = contain answer st.user_outage in
        (r, record st { store = s; user_outage = latch })

    -- the user of the record, or the one that a second lookup finds
    user_of :
        StoredSession Payload
        → Option (StoredUser Payload)
        → Exec (State S Kind) (StoredUser Payload)
    unfolding required
    user_of r (some u) = pure u
    user_of r none = do
      found ← looked_up_user r.user_id
      required found (session session_revoked user_absent)

    module _ {Model User : Type 0} (hmac_sha256 : Bytes → Bytes → Bytes)
        (model_validate : Model → Payload → Result (Option User)) where
      -- _resolved; the clock is read once for the expiry and once for the ban
      unfoldable pub resolved : Str → Model → ℕ → ℕ → Exec (State S Kind) (Session User Payload)
      unfolding user_of required
      resolved token model expiry_now ban_now = do
        found ← looked_up token
        stored ← required found (session session_revoked no_stored_session)
        lift (check_expiry stored.expires_at expiry_now)
        user ← user_of stored stored.user
        lift (check_ban user ban_now)
        parsed ← lift (parse_user model_validate model user.payload)
        pure (session_of stored token parsed)

      -- CookieVerifier.verify
      unfoldable pub verify :
          Config → Credential → Model → ℕ → ℕ → Exec (State S Kind) (Session User Payload)
      verify config other model expiry_now ban_now =
          throw (session invalid_credential foreign_credential)
      verify config (snapshot c) model expiry_now ban_now = do
        material ← lift (resolve_cookie_value c.pairs config.base)
        cookie ← lift (parse_signed_value material)
        lift (enforce_policy config.policy c.facts cookie.token)
        lift (verify_signature hmac_sha256 config.secrets cookie.token cookie.signature)
        resolved cookie.token model expiry_now ban_now
