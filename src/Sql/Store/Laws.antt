-- ===== src/Sql/Store/Laws.antt =====
-- stores/sqlalchemy_store.py: what a lookup answers, and that the schema is read once.
use fastapi_better_auth.Base.{
  ℕ, ◌≡◌, refl, sym, ap, ◌∙◌, ◌⊎◌, inl, inr, Bool, true, Option, none, some, List, [], ◌∷◌,
  Bool-cases,
}
use fastapi_better_auth.Text.{Str, is_blank}
use fastapi_better_auth.Errors.{Raised, ok, Result-cases, ok_of, Result, raise}
use fastapi_better_auth.Exec.{◌>>=◌, lift, bind-eq-ok, after}
use fastapi_better_auth.CookieVerifier.{StoredSession, Failures}
use fastapi_better_auth.Sql.Plan.{Select, Plan, Config}
use fastapi_better_auth.Sql.Rows.{Row, session_from, user_from}
use fastapi_better_auth.Sql.Store.{
  Engine, State, ready, rearmed, reported, select, found_session, fetch_session_by_token,
  fetch_user_by_id, found_user,
}

module _ {E Kind : Type 0} (engine : Engine E) (failures : Failures Kind)
    (is_sql_error : Raised → Bool) (fromisoformat : Str → Option ℕ) (config : Config) where
  -- A database answered: it was asked with the statement of a plan that was made for its schema, or that the
  -- store had, and this is what its rows say.
  pub record IsAnswered (token : Str) (st : State E Kind) (found : Option (StoredSession Row))
      : Type 0 where
    pub plan : Plan
    pub planned : (ready engine config st).0 ≡ ok plan
    pub rows : List Row
    pub before : E
    pub ran : (engine.execute plan.session_select token before).0 ≡ ok rows
    pub read : session_from fromisoformat token plan rows ≡ ok found

  select_ran :
      (statement : Select) (value : Str) (st : State E Kind) (rows : List Row)
      → (select engine failures is_sql_error statement value st).0 ≡ ok rows
      → (engine.execute statement value st.engine).0 ≡ ok rows
  unfolding select reported
  select_ran statement value st rows h =
      elim (Result-cases (engine.execute statement value st.engine).0) [
        | inl (r, e) ↦ e ∙ (rw e at h)
        | inr (x, e) ↦ elim (Bool-cases (is_sql_error x)) [
          | inl sql ↦ absurd (cc (rw (e, sql) at h))
          | inr else_ ↦ absurd (cc (rw (e, else_) at h))
        ]
      ]

  -- A lookup that answers, with a session or with a miss, was asked with a blank token, which is a miss, or
  -- had an answer of the database: no failure of the database is ever a miss.
  pub fetch_session_by_token-IsAnswered :
      (token : Str) (st : State E Kind) (found : Option (StoredSession Row))
      → (fetch_session_by_token engine failures is_sql_error fromisoformat config token st).0
        ≡ ok found
      → ((is_blank token ≡ true) × (found ≡ none)) ⊎ IsAnswered token st found
  unfolding fetch_session_by_token found_session rearmed
  fetch_session_by_token-IsAnswered token st found h = elim (Bool-cases (is_blank token)) [
    | inl blank ↦ inl (blank, sym (ok_of (rw blank at h)))
    | inr filled ↦
        let (plan, s1, e1, k1) = bind-eq-ok (ready engine config) _ st (rw filled at h) in
        let (rows, s2, e2, k2) =
          bind-eq-ok (select engine failures is_sql_error plan.session_select token) _ s1 k1 in
        inr (record {
          plan = plan;
          planned = ap (λ p. p.0) e1;
          rows = rows;
          before = s1.engine;
          ran = select_ran plan.session_select token s1 rows (ap (λ p. p.0) e2);
          read = k2;
        })
  ]

-- The calls of a store.
pub data Op : Type 0 where
  connects : Op
  fetches_session fetches_user : Str → Op

module _ {E Kind : Type 0} (failures : Failures Kind) (is_sql_error : Raised → Bool)
    (fromisoformat : Str → Option ℕ) (config : Config) where
  -- the state after a call
  abbrev pub called : Engine E → Op → State E Kind → State E Kind
  called engine connects st = (ready engine config st).1
  called engine (fetches_session token) st =
      (fetch_session_by_token engine failures is_sql_error fromisoformat config token st).1
  called engine (fetches_user user_id) st =
      (fetch_user_by_id engine failures is_sql_error fromisoformat config user_id st).1

  abbrev pub run : Engine E → List Op → State E Kind → State E Kind
  run engine [] st = st
  run engine (op ∷ ops) st = run engine ops (called engine op st)

  -- two engines that execute alike, and read columns as they will
  abbrev ExecuteAlike : Engine E → Engine E → Type 0
  ExecuteAlike a b =
      (statement : Select) (value : Str) (e : E)
      → a.execute statement value e ≡ b.execute statement value e

  ready_kept :
      (engine : Engine E) (st : State E Kind) (plan : Plan)
      → st.plan ≡ some plan
      → ready engine config st ≡ (ok plan, st)
  unfolding ready
  ready_kept engine st plan h = simp (ready, h)

  select_alike :
      (a b : Engine E) (statement : Select) (value : Str) (st : State E Kind)
      → ExecuteAlike a b
      → select a failures is_sql_error statement value st
        ≡ select b failures is_sql_error statement value st
  unfolding select
  select_alike a b statement value st alike = rw (alike statement value st.engine) refl

  reported_plan :
      (engine : Engine E) (r : Result (List Row)) (st : State E Kind)
      → (reported engine failures is_sql_error r st).1.plan ≡ st.plan
  unfolding reported
  reported_plan engine (ok rows) st = refl
  reported_plan engine (raise e) st = elim (Bool-cases (is_sql_error e)) [
    | inl sql ↦ rw sql refl
    | inr else_ ↦ rw else_ refl
  ]

  select_plan :
      (engine : Engine E) (statement : Select) (value : Str) (st : State E Kind)
      → (select engine failures is_sql_error statement value st).1.plan ≡ st.plan
  unfolding select
  select_plan engine statement value st =
      reported_plan engine (engine.execute statement value st.engine).0
        (record st { engine = (engine.execute statement value st.engine).1 })

  -- what follows a SELECT keeps the plan
  ended_plan :
      {A : Type 0} (engine : Engine E) (p : Result (List Row) × State E Kind)
      (read : List Row → Result A)
      → (after p.0 (λ rows. (rearmed engine >>= λ _. lift (read rows))) p.1).1.plan ≡ p.1.plan
  unfolding rearmed
  ended_plan engine (ok rows, st) read = refl
  ended_plan engine (raise e, st) read = refl

  called_alike :
      (a b : Engine E) (op : Op) (plan : Plan) (st : State E Kind)
      → ExecuteAlike a b
      → st.plan ≡ some plan
      → (called a op st ≡ called b op st) × ((called a op st).plan ≡ some plan)
  unfolding fetch_session_by_token found_session fetch_user_by_id found_user rearmed
  called_alike a b connects plan st alike h = (
    ap (λ p. p.1) (ready_kept a st plan h ∙ sym (ready_kept b st plan h)),
    ap (λ p. p.1.plan) (ready_kept a st plan h) ∙ h,
  )
  called_alike a b (fetches_session token) plan st alike h = elim (Bool-cases (is_blank token)) [
    | inl blank ↦ rw (called, blank) (refl, h)
    | inr filled ↦
        rw
          (
            called,
            filled,
            ready_kept a st plan h,
            ready_kept b st plan h,
            select_alike a b plan.session_select token st alike,
          )
          (
            refl,
            ended_plan b (select b failures is_sql_error plan.session_select token st)
                  (session_from fromisoformat token plan)
                ∙ (select_plan b plan.session_select token st ∙ h),
          )
  ]
  called_alike a b (fetches_user user_id) plan st alike h = elim (Bool-cases (is_blank user_id)) [
    | inl blank ↦ rw (called, blank) (refl, h)
    | inr filled ↦
        rw
          (
            called,
            filled,
            ready_kept a st plan h,
            ready_kept b st plan h,
            select_alike a b plan.user_select user_id st alike,
          )
          (
            refl,
            ended_plan b (select b failures is_sql_error plan.user_select user_id st)
                  (user_from fromisoformat (some user_id) plan)
                ∙ (select_plan b plan.user_select user_id st ∙ h),
          )
  ]

  -- Once a store has a plan, the schema is never read again: whatever the engine would now say of the
  -- columns, every sequence of calls leaves the same state, and the plan is the one it had.
  pub run-discovered :
      (a b : Engine E) (ops : List Op) (plan : Plan) (st : State E Kind)
      → ExecuteAlike a b
      → st.plan ≡ some plan
      → (run a ops st ≡ run b ops st) × ((run a ops st).plan ≡ some plan)
  run-discovered a b [] plan st alike h = (refl, h)
  run-discovered a b (op ∷ ops) plan st alike h =
      let (same, kept) = called_alike a b op plan st alike h in
      let (rest, last) = run-discovered a b ops plan (called a op st) alike kept in
      (rest ∙ ap (run b ops) same, last)
