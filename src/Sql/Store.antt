-- ===== src/Sql/Store.antt =====
-- stores/sqlalchemy_store.py: the lookups of both stores. What an engine does is a parameter that runs on
-- a state of its own; the lock makes the discovery of the schema one step.
pub mod Laws
pub mod Pool
pub mod Verified
use fastapi_better_auth.Base.{
  ℕ, Bool, true, false, Option, none, some, List, [], ◌∷◌, if◌then◌else◌,
}
use fastapi_better_auth.Text.{Str, is_blank}
use fastapi_better_auth.Errors.{
  Raised, session, Result, ok, raise, auth_service_unavailable, lookup_incomplete,
}
use fastapi_better_auth.Exec.{Exec, pure, throw, lift, ◌>>=◌, ◌>>◌}
use fastapi_better_auth.CookieVerifier.{StoredUser, StoredSession, SessionStore, Failures}
use fastapi_better_auth.Latches.Outage.{OutageLatch, new_outage, admit, rearm}
use fastapi_better_auth.Sql.Plan.{Columns, Select, Plan, Config, plan_for}
use fastapi_better_auth.Sql.Rows.{Row, session_from, user_from}

-- An engine: the columns of the two tables, and the rows of a SELECT, at most two of them, for the value
-- of its one parameter.
pub record Engine (E : Type 0) : Type 0 where
  pub columns : Exec E Columns
  pub execute : Select → Str → Exec E (List Row)

-- The state of a store, with the engine's.
pub record State (E Kind : Type 0) : Type 0 where
  pub engine : E
  pub plan : Option Plan
  pub outage : OutageLatch Kind

-- _CoreStore.__init__
abbrev pub new_store : {E Kind : Type 0} → E → State E Kind
new_store engine = record { engine = engine; plan = none; outage = new_outage }

module _ {E Kind : Type 0} (engine : Engine E) where
  -- a call of the engine, on the store's state
  abbrev on_engine : {A : Type 0} → Exec E A → Exec (State E Kind) A
  on_engine call st = let (r, e) = call st.engine in (r, record st { engine = e })

  keep_plan : Plan → Exec (State E Kind) Plan
  keep_plan plan st = (ok plan, record st { plan = some plan })

  discover : Config → Exec (State E Kind) Plan
  unfolding keep_plan
  discover config = do
    present ← on_engine engine.columns
    plan ← lift (plan_for config present)
    keep_plan plan

  -- _ready, and `connect`
  unfoldable pub ready : Config → Exec (State E Kind) Plan
  unfolding discover
  ready config st = elim st.plan [ some plan ↦ (ok plan, st) | none ↦ discover config st ]

  -- `self._outage.rearm()`
  unfoldable pub rearmed : Exec (State E Kind) (Unit {0})
  rearmed st = (ok tt, record st { outage = rearm st.outage })

  module _ (failures : Failures Kind) (is_sql_error : Raised → Bool) where
    -- the handler of SQLAlchemyError: report_once, and the refusal
    reported : Result (List Row) → Exec (State E Kind) (List Row)
    reported (ok rows) st = (ok rows, st)
    reported (raise e) st =
        if is_sql_error e
        then (
          raise (session auth_service_unavailable lookup_incomplete),
          record st { outage = (admit failures.same (failures.kind_of e) st.outage).0 },
        )
        else (raise e, st)

    -- _select
    unfoldable pub select : Select → Str → Exec (State E Kind) (List Row)
    unfolding reported
    select statement value st =
        let (r, next) = on_engine (engine.execute statement value) st in reported r next

    module _ (fromisoformat : Str → Option ℕ) (config : Config) where
      found_session : Str → Exec (State E Kind) (Option (StoredSession Row))
      found_session token = do
        plan ← ready config
        rows ← select plan.session_select token
        rearmed
        lift (session_from fromisoformat token plan rows)

      -- fetch_session_by_token
      unfoldable pub fetch_session_by_token : Str → Exec (State E Kind) (Option (StoredSession Row))
      unfolding found_session
      fetch_session_by_token token = if is_blank token then pure none else found_session token

      found_user : Str → Exec (State E Kind) (Option (StoredUser Row))
      found_user user_id = do
        plan ← ready config
        rows ← select plan.user_select user_id
        rearmed
        lift (user_from fromisoformat (some user_id) plan rows)

      -- fetch_user_by_id
      unfoldable pub fetch_user_by_id : Str → Exec (State E Kind) (Option (StoredUser Row))
      unfolding found_user
      fetch_user_by_id user_id = if is_blank user_id then pure none else found_user user_id

      -- the store as the cookie verifier takes it
      abbrev pub session_store : SessionStore (State E Kind) Row
      session_store = record {
        fetch_session_by_token = fetch_session_by_token;
        fetch_user_by_id = fetch_user_by_id;
      }
