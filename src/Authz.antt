-- ===== src/Authz.antt =====
-- authz.py: the authorization gates, `require` and `require_membership`. A rule is the application's:
-- it runs on the application's state `W`, and may raise or answer anything.
pub mod Laws
pub mod Contained
use fastapi_better_auth.Base.{Bool, true, false, ◌||◌, Option, none, some, if◌then◌else◌}
use fastapi_better_auth.Text.{Str}
use fastapi_better_auth.Errors.{
  Raised, session, configuration, refused, Refused, Result, ok, raise, is_exception, is_better_auth,
  is_session_error, unwrapped,
}
use fastapi_better_auth.Errors.{
  not_authorized, async_predicate, sync_lookup, refused_by_rule, unusable_id, no_membership,
  escaped_rule, refusal_not_honoured,
}
use fastapi_better_auth.Errors.Refusal.{judge_refusal, dict_of}
use fastapi_better_auth.Exec.{Exec, pure, throw, lift, ◌>>=◌}
use fastapi_better_auth.Models.{is_user_id}

-- what a predicate answers: the object True, an awaitable, or anything else
pub data Answer : Type 0 where
  is_true awaitable other : Answer

-- what awaiting a membership lookup gives: None, False, or any other grant
pub data Found (Grant : Type 0) : Type 0 where
  nothing is_false : Found Grant
  grant : Grant → Found Grant

-- what a membership lookup returns: an awaitable, or anything else
pub data Lookup (W Grant : Type 0) : Type 0 where
  awaitable : Exec W (Found Grant) → Lookup W Grant
  foreign : Lookup W Grant

pub record Membership (Session Grant : Type 0) : Type 0 where
  pub session : Session
  pub resource_id : Str
  pub grant : Grant

-- _answered, whose log line is not modelled
unfoldable pub answered : Refused → Raised
answered r =
    let verdict = judge_refusal r.status_code r.headers in
    elim verdict.breach [
      | none ↦ refused (record r { headers = dict_of verdict.headers })
      | some breach ↦ session not_authorized refusal_not_honoured
    ]

-- HONOURED
abbrev pub is_honoured : Raised → Bool
is_honoured e = is_better_auth e || is_session_error e

-- _resolved of a leaf, with _contained
unfoldable pub judged : Raised → Raised
judged (refused r) = answered r
judged leaf = if is_honoured leaf then leaf else session not_authorized escaped_rule

-- the handlers around a rule
unfoldable pub handled : {A : Type 0} → Result A → Result A
handled (ok a) = ok a
handled (raise e) =
    if is_honoured e
    then raise e
    else if is_exception e
    then raise (judged (unwrapped e))
    else raise e

-- _exactly_true
unfoldable pub exactly_true : Answer → Result Bool
exactly_true Answer.is_true = ok true
exactly_true Answer.awaitable = raise (configuration async_predicate)
exactly_true Answer.other = ok false

-- `await answer`, once it is known to be an awaitable
unfoldable pub awaited : {W G : Type 0} → Lookup W G → Exec W (Found G)
awaited (Lookup.awaitable run) = run
awaited Lookup.foreign = throw (configuration sync_lookup)

-- `if permitted(...): return session`, and the refusal
unfoldable pub allowed : {S : Type 0} → S → Bool → Result S
allowed s true = ok s
allowed s false = raise (session not_authorized refused_by_rule)

-- `if grant is None or grant is False: raise`, and the Membership
unfoldable pub member_of : {S G : Type 0} → S → Str → Found G → Result (Membership S G)
member_of s resource_id Found.nothing = raise (session not_authorized no_membership)
member_of s resource_id Found.is_false = raise (session not_authorized no_membership)
member_of s resource_id (Found.grant g) =
    ok (record { session = s; resource_id = resource_id; grant = g })

module _ {W Session : Type 0} where
  -- permitted: `_exactly_true` stands in the try's else clause
  unfoldable pub permitted : (Session → Exec W Answer) → Session → Exec W Bool
  permitted predicate s w =
      let (r, u) = predicate s w in (lift (handled r) >>= λ answer. lift (exactly_true answer)) u

  -- require_dependency, behind the dependency `current`
  unfoldable pub require : Exec W Session → (Session → Exec W Answer) → Exec W Session
  require current predicate =
      current >>= λ s. permitted predicate s >>= λ verdict. lift (allowed s verdict)

  module _ {Grant : Type 0} where
    -- granted
    unfoldable pub granted :
        (Str → Session → Exec W (Lookup W Grant)) → Str → Session → Exec W (Found Grant)
    granted member resource_id s w =
        let (r, u) = (member resource_id s >>= awaited) w in (handled r, u)

    -- the body of membership_dependency's `authorized`
    unfoldable pub authorized :
        (Str → Session → Exec W (Lookup W Grant))
        → Str
        → Session
        → Exec W (Membership Session Grant)
    authorized member resource_id s =
        if is_user_id resource_id
        then (granted member resource_id s >>= λ grant. lift (member_of s resource_id grant))
        else throw (session not_authorized unusable_id)

    -- ... behind the dependency `current`
    unfoldable pub require_membership :
        Exec W Session
        → (Str → Session → Exec W (Lookup W Grant))
        → Str
        → Exec W (Membership Session Grant)
    require_membership current member resource_id = current >>= λ s. authorized member resource_id s
