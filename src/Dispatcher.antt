-- ===== src/Dispatcher.antt =====
-- core.py: the dispatcher. A verifier is anything that answers the Verifier protocol: its methods
-- run on a state `W` that the verifiers share, and may raise or answer anything.
pub mod Contained
pub mod Dispatch
pub mod Order
pub mod Configure
use fastapi_better_auth.Base.{
  ℕ, Bool, true, false, ◌||◌, Option, none, some, List, [], ◌∷◌, if◌then◌else◌,
}
use fastapi_better_auth.Text.{Str}
use fastapi_better_auth.Errors.{
  Raised, session, configuration, Result, ok, raise, is_better_auth, is_session_error, is_exception,
  unwrapped,
}
use fastapi_better_auth.Errors.{
  invalid_credential, missing_credential, ambiguous_credentials, nothing_presented,
  several_presented, escaped_verifier, extract_awaitable, verify_not_awaitable, verify_no_session,
  verify_wrong_model,
}
use fastapi_better_auth.Exec.{Exec, pure, throw, lift, ◌>>=◌}
use fastapi_better_auth.Csrf.{Connection}

-- what `extract` returns: None, a credential, or an awaitable
pub data Found (Credential : Type 0) : Type 0 where
  absent : Found Credential
  credential : Credential → Found Credential
  awaitable : Found Credential

-- what awaiting `verify` gives: a Session, or anything else
pub data Returned (Answer : Type 0) : Type 0 where
  answered : Answer → Returned Answer
  foreign : Returned Answer

-- what `verify` returns: an awaitable, or anything else
pub data Call (W Answer : Type 0) : Type 0 where
  awaitable : Exec W (Returned Answer) → Call W Answer
  foreign : Call W Answer

-- The Verifier protocol. `identity` tells one object from another.
pub record Verifier (W Credential Model Answer : Type 0) : Type 0 where
  pub identity : ℕ
  pub credential_source : Str
  pub extract : Connection → Exec W (Found Credential)
  pub verify : Credential → Model → Exec W (Call W Answer)

-- startup, where a verifier is its `prepare`, or none where it is no PreparedVerifier
unfoldable pub startup : {W : Type 0} → List (Option (Exec W (Unit {0}))) → Exec W (Unit {0})
startup [] = pure tt
startup (none ∷ verifiers) = startup verifiers
startup (some prepare ∷ verifiers) = prepare >>= λ _. startup verifiers

-- _resolved and _contained, whose log lines are not modelled
unfoldable pub resolved : (Raised → Bool) → Raised → Raised
resolved honoured e =
    if honoured (unwrapped e) then unwrapped e else session invalid_credential escaped_verifier

-- the handlers around a call: what is honoured passes, another Exception is resolved, and what is
-- no Exception passes
unfoldable pub handled : {A : Type 0} → (Raised → Bool) → Result A → Result A
unfolding resolved
handled honoured (ok a) = ok a
handled honoured (raise e) =
    if honoured e then raise e else if is_exception e then raise (resolved honoured e) else raise e

-- `(BetterAuthError, SessionError)`
abbrev pub is_ours : Raised → Bool
is_ours e = is_better_auth e || is_session_error e

-- _presence; closing the coroutine is not modelled
unfoldable pub presence : {C : Type 0} → Found C → Result (Option C)
presence absent = ok none
presence (credential c) = ok (some c)
presence Found.awaitable = raise (configuration extract_awaitable)

-- `await answer`, once it is known to be an awaitable
unfoldable pub awaited : {W A : Type 0} → Call W A → Exec W (Returned A)
awaited (Call.awaitable run) = run
awaited Call.foreign = throw (configuration verify_not_awaitable)

-- _checked, where `is_user` is isinstance(session.user, user_model)
unfoldable pub checked :
    {Model Answer : Type 0} → (Model → Answer → Bool) → Returned Answer → Model → Result Answer
checked is_user Returned.foreign model = raise (configuration verify_no_session)
checked is_user (answered s) model =
    if is_user model s then ok s else raise (configuration verify_wrong_model)

-- `if credential is not None: presented.append(...)`
unfoldable pub kept : {V C : Type 0} → V → Option C → List (V × C) → List (V × C)
kept v none rest = rest
kept v (some c) rest = (v, c) ∷ rest

-- `if session is None: raise`
unfoldable pub required : {A : Type 0} → Option A → Result A
required none = raise (session missing_credential nothing_presented)
required (some s) = ok s

module _ {W Credential Model Answer : Type 0} where
  -- _extracted: `presence` stands in the try's else clause
  unfoldable pub extracted :
      Verifier W Credential Model Answer → Connection → Exec W (Option Credential)
  extracted verifier connection w =
      let (r, u) = verifier.extract connection w in
      (lift (handled is_better_auth r) >>= λ found. lift (presence found)) u

  -- _verified
  unfoldable pub verified :
      Verifier W Credential Model Answer → Credential → Model → Exec W (Returned Answer)
  verified verifier c model w =
      let (r, u) = (verifier.verify c model >>= awaited) w in (handled is_ours r, u)

  -- the loop of _authenticate: every verifier is asked, in order
  unfoldable pub presented :
      List (Verifier W Credential Model Answer)
      → Connection
      → Exec W (List (Verifier W Credential Model Answer × Credential))
  presented [] connection = pure []
  presented (v ∷ vs) connection = extracted v connection >>= λ found.
      presented vs connection >>= λ rest. pure (kept v found rest)

  module _ (is_user : Model → Answer → Bool) where
    unfoldable pub dispatched :
        List (Verifier W Credential Model Answer × Credential) → Model → Exec W (Option Answer)
    dispatched [] model = pure none
    dispatched ((v, c) ∷ []) model =
        verified v c model >>= λ answer. lift (checked is_user answer model) >>= λ s. pure (some s)
    dispatched (p ∷ q ∷ ps) model = throw (session ambiguous_credentials several_presented)

    -- _authenticate, which is also the dependency of optional_session
    unfoldable pub authenticate :
        List (Verifier W Credential Model Answer) → Connection → Model → Exec W (Option Answer)
    authenticate verifiers connection model =
        presented verifiers connection >>= λ found. dispatched found model

    -- the dependency of current_session, `require`
    unfoldable pub current_session :
        List (Verifier W Credential Model Answer) → Connection → Model → Exec W Answer
    current_session verifiers connection model =
        authenticate verifiers connection model >>= λ found. lift (required found)
