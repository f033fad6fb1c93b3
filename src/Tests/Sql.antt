-- ===== src/Tests/Sql.antt =====
-- A database with one session, and the requests that are answered from it.
use fastapi_better_auth.Remote.Document.{as_text, same_text}
use fastapi_better_auth.Latches.Outage.{new_outage}
use fastapi_better_auth.CookieVerifier.{StoredUser, StoredSession, Failures}
use fastapi_better_auth.Base.{
  List, ◌≡◌, Bool, Option, ◌∷◌, ℕ, some, true, [], suc, none, ◌⊎◌, false, ◌++◌, refl,
}
use fastapi_better_auth.Sql.Store.Laws.{
  run, Op, run-discovered, connects, fetches_session, fetches_user, IsAnswered,
  fetch_session_by_token-IsAnswered,
}
use fastapi_better_auth.Sql.Rows.{
  Row, session_from, only, Cell, payload_of, find, get, user_from, text_of, as_db_flag, moment_of,
  aware, is_null, assign,
}
use fastapi_better_auth.Sql.Store.{
  Engine, fetch_session_by_token, ready, select, rearmed, new_store,
}
use fastapi_better_auth.Sql.Plan.Laws.{IsComplete, plan_for-IsComplete}
use fastapi_better_auth.Sql.Plan.{
  plan_for, Columns, Plan, session_required, accepted, session_optional, columns_of,
  session_statement, select_if, table_of, user_statement, is_filled, session_admin, unknown_names,
  user_required, extras, user_optional, user_admin, may_travel,
}
use fastapi_better_auth.Sql.Plan.{Config}
use fastapi_better_auth.Sql.Store.{State}
use fastapi_better_auth.Cookies.{member}
use fastapi_better_auth.Text.{is_encodable, str_eq, is_ascii}
use fastapi_better_auth.Text.{lit, is_blank, Str, is_space, is_encodable}
use fastapi_better_auth.Errors.{ok, Raised}

abbrev pub config : Config
config = record {
  session_table = lit "session";
  user_table = lit "user";
  schema = none;
  session_allowed = none;
  user_allowed = some [];
}

abbrev present : Columns
present =
    (lit "session", some session_required)
    ∷ (lit "user", some (lit "id" ∷ lit "hint" ∷ lit "banned" ∷ []))
    ∷ []

abbrev user_columns : List Str
user_columns = lit "id" ∷ lit "banned" ∷ []

abbrev pub plan : Plan
plan = record {
  session_columns = session_required;
  user_columns = user_columns;
  session_select =
      session_statement (table_of none (lit "session") session_required)
        (table_of none (lit "user") user_columns) session_required user_columns;
  user_select = user_statement (table_of none (lit "user") user_columns) user_columns;
}

pub planned : plan_for config present ≡ ok plan
unfolding plan_for accepted columns_of select_if is_filled unknown_names extras may_travel member
    str_eq
planned = refl

plan_for-IsComplete_example :
    IsComplete present
      (lit "session")
      session_required
      (session_optional ++ session_admin)
      none
      session_required
    × IsComplete present
        (lit "user")
        user_required
        (user_optional ++ user_admin)
        (some [])
        user_columns
plan_for-IsComplete_example = plan_for-IsComplete config present plan planned

abbrev pub row : Row
row =
    (lit "s_id", Cell.characters (lit "i"))
    ∷ (lit "s_token", Cell.characters (lit "tok.en"))
    ∷ (lit "s_expiresAt", Cell.date_time 20)
    ∷ (lit "s_userId", Cell.characters (lit "u"))
    ∷ (lit "u_id", Cell.characters (lit "u"))
    ∷ (lit "u_banned", Cell.integer 0)
    ∷ []

abbrev pub fromisoformat : Str → Option ℕ
fromisoformat s = none

abbrev pub user : StoredUser Row
user = record {
  id = lit "u";
  payload = (lit "id", Cell.characters (lit "u")) ∷ (lit "banned", Cell.boolean false) ∷ [];
  banned = some false;
  ban_expires = none;
}

abbrev pub stored : StoredSession Row
stored = record {
  token = lit "tok.en";
  user_id = lit "u";
  expires_at = 20;
  payload =
      (lit "id", Cell.characters (lit "i"))
      ∷ (lit "token", Cell.characters (lit "tok.en"))
      ∷ (lit "expiresAt", Cell.date_time 20)
      ∷ (lit "userId", Cell.characters (lit "u"))
      ∷ [];
  user = some user;
  impersonated_by = none;
}

pub reads : session_from fromisoformat (lit "tok.en") plan (row ∷ []) ≡ ok (some stored)
unfolding session_from only payload_of find get user_from text_of as_db_flag moment_of aware is_null
    assign as_text is_blank is_space is_encodable is_ascii same_text member str_eq
reads = refl

-- an engine that counts its calls
abbrev pub engine : Engine ℕ
engine = record {
  columns = λ calls. (ok present, suc calls);
  execute = λ statement value calls. (ok (row ∷ []), suc calls);
}

-- one whose tables are gone
abbrev emptied : Engine ℕ
emptied = record {
  columns = λ calls. (ok [], suc calls);
  execute = λ statement value calls. (ok (row ∷ []), suc calls);
}

abbrev pub failures : Failures ℕ
failures = record { kind_of = λ e. 0; same = λ a b. true }

abbrev pub is_sql_error : Raised → Bool
is_sql_error e = true

pub found :
    (fetch_session_by_token engine failures is_sql_error fromisoformat config
      (lit "tok.en")
      (new_store 0)).0
    ≡ ok (some stored)
unfolding fetch_session_by_token ready select rearmed is_blank is_space
found = rw (planned, reads) refl

fetch_session_by_token-IsAnswered_example :
    ((is_blank (lit "tok.en") ≡ true) × (some stored ≡ none))
    ⊎ IsAnswered engine failures is_sql_error fromisoformat config
        (lit "tok.en")
        (new_store 0)
        (some stored)
fetch_session_by_token-IsAnswered_example =
    fetch_session_by_token-IsAnswered engine failures is_sql_error fromisoformat config
      (lit "tok.en") (new_store 0) (some stored) found

abbrev pub started : State ℕ ℕ
started = record { engine = 1; plan = some plan; outage = new_outage }

abbrev calls : List Op
calls = connects ∷ fetches_session (lit "tok.en") ∷ fetches_user (lit "u") ∷ []

run-discovered_example :
    (run failures is_sql_error fromisoformat config engine calls started
      ≡ run failures is_sql_error fromisoformat config emptied calls started)
    × ((run failures is_sql_error fromisoformat config engine calls started).plan ≡ some plan)
run-discovered_example =
    run-discovered failures is_sql_error fromisoformat config engine emptied calls plan started
      (λ s v e. refl) refl
