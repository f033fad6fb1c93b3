-- ===== src/Sql/Rows.antt =====
-- stores/sqlalchemy_core.py with stores/upstream.py: the records of rows. What a driver hands back is told
-- apart as far as the store reads it, and the parsing of an ISO date is a parameter.
pub mod Payload
pub mod Laws
use fastapi_better_auth.Base.{
  ℕ, Bool, true, false, not, ◌&&◌, ◌||◌, Option, none, some, List, [], ◌∷◌, ◌++◌, ◌==◌,
  if◌then◌else◌,
}
use fastapi_better_auth.Text.{Str, lit, str_eq}
use fastapi_better_auth.Errors.{Raised, Result, ok, raise, ◌>>=◌, ◌>>◌}
use fastapi_better_auth.Cookies.{member}
use fastapi_better_auth.CookieVerifier.{StoredUser, StoredSession}
use fastapi_better_auth.Remote.Document.{Member, as_text, as_moment, same_text}
use fastapi_better_auth.Sql.Plan.{Plan, moments, session_prefix, user_prefix}

-- A value of a column. A datetime is a moment of the UTC scale: a naive one is read as UTC.
pub data Cell : Type 0 where
  null : Cell
  date_time naive_date_time : ℕ → Cell
  characters : Str → Cell
  boolean : Bool → Cell
  integer : ℕ → Cell
  other : ℕ → Cell

-- a row, or a payload: a mapping in the order of insertion
abbrev pub Row : Type 0
Row = List (Str × Cell)

unfoldable pub find : Str → Row → Option Cell
find name [] = none
find name ((k, v) ∷ row) = if str_eq k name then some v else find name row

value_or_null : Option Cell → Cell
value_or_null none = null
value_or_null (some v) = v

-- `payload.get(name)`, where an absent member reads as null
unfoldable pub get : Str → Row → Cell
unfolding value_or_null
get name row = value_or_null (find name row)

-- `payload[name] = value`
unfoldable pub assign : Str → Cell → Row → Row
assign name v [] = (name, v) ∷ []
assign name v ((k, w) ∷ row) = if str_eq k name then (k, v) ∷ row else (k, w) ∷ assign name v row

unfoldable pub is_null : Cell → Bool
is_null null = true
is_null v = false

unfoldable pub text_of : Cell → Option Str
text_of (characters s) = as_text (Member.text s)
text_of v = none

-- as_db_flag
unfoldable pub as_db_flag : Cell → Option Bool
as_db_flag (boolean b) = some b
as_db_flag (integer n) = if n == 0 then some false else if n == 1 then some true else none
as_db_flag v = none

flag_cell : Option Bool → Cell
flag_cell none = null
flag_cell (some b) = boolean b

moment_cell : Option ℕ → Cell
moment_cell none = null
moment_cell (some at) = date_time at

-- _only
unfoldable pub only : List Row → Option Row
only [] = none
only (row ∷ []) = some row
only (row ∷ next ∷ rows) = none

module _ (fromisoformat : Str → Option ℕ) where
  -- as_moment
  unfoldable pub moment_of : Cell → Option ℕ
  moment_of (date_time at) = some at
  moment_of (naive_date_time at) = some at
  moment_of (characters s) = as_moment fromisoformat (Member.text s)
  moment_of v = none

  -- `as_moment(value) if name in MOMENTS and value is not None else value`
  unfoldable pub aware : Str → Cell → Cell
  unfolding moment_cell
  aware name v = if member name moments && not (is_null v) then moment_cell (moment_of v) else v

  -- one step of _payload; a label that the row does not have is a KeyError
  built : Str → Option Cell → Result Row → Result Row
  built name none rest = raise (Raised.other 0)
  built name (some v) rest = rest >>= λ payload. ok ((name, aware name v) ∷ payload)

  -- _payload, whose columns are distinct
  unfoldable pub payload_of : Str → Row → List Str → Result Row
  unfolding built
  payload_of prefix row [] = ok []
  payload_of prefix row (name ∷ names) =
      built name (find (prefix ++ name) row) (payload_of prefix row names)

  user_record : Str → Row → Option Bool → StoredUser Row
  unfolding flag_cell
  user_record id payload banned = record {
    id = id;
    payload = elim (find (lit "banned") payload) [
      | none ↦ payload
      | some v ↦ assign (lit "banned") (flag_cell banned) payload
    ];
    banned = banned;
    ban_expires = moment_of (get (lit "banExpires") payload);
  }

  -- the test of `banned`, of what as_db_flag reads
  banned_user : Str → Row → Option Bool → Option (StoredUser Row)
  unfolding user_record
  banned_user id payload (some b) = some (user_record id payload (some b))
  banned_user id payload none =
      if is_null (get (lit "banned") payload) then some (user_record id payload none) else none

  -- the tests of user_from; `checked` is the subject where `check_identity` is set
  identified : Option Str → Row → Option Str → Result (Option (StoredUser Row))
  unfolding banned_user
  identified checked payload none = ok none
  identified none payload (some id) =
      ok (banned_user id payload (as_db_flag (get (lit "banned") payload)))
  identified (some subject) payload (some id) = do
    same ← same_text id subject
    ok (if same then banned_user id payload (as_db_flag (get (lit "banned") payload)) else none)

  user_of_row : Option Str → Plan → Option Row → Result (Option (StoredUser Row))
  unfolding identified
  user_of_row checked plan none = ok none
  user_of_row checked plan (some row) = do
    payload ← payload_of user_prefix row plan.user_columns
    identified checked payload (text_of (get (lit "id") payload))

  -- user_from
  unfoldable pub user_from : Option Str → Plan → List Row → Result (Option (StoredUser Row))
  unfolding user_of_row
  user_from checked plan rows = user_of_row checked plan (only rows)

  -- the test that a value is missing, that of the token, and the record
  joined :
      Str
      → Row
      → Option ℕ
      → Option Str
      → Option Str
      → Option (StoredUser Row)
      → Result (Option (StoredSession Row))
  joined presented payload (some expires_at) (some user_id) (some token) (some user) = do
    same ← same_text token presented
    ok (
        if same
        then some (record {
          token = token;
          user_id = user_id;
          expires_at = expires_at;
          payload = payload;
          user = some user;
          impersonated_by = text_of (get (lit "impersonatedBy") payload);
        })
        else none)
  joined presented payload _ _ _ _ = ok none

  session_of_row : Str → Plan → List Row → Option Row → Result (Option (StoredSession Row))
  unfolding joined
  session_of_row presented plan rows none = ok none
  session_of_row presented plan rows (some row) = do
    payload ← payload_of session_prefix row plan.session_columns
    user ← user_from none plan rows
    joined presented payload (moment_of (get (lit "expiresAt") payload))
        (text_of (get (lit "userId") payload)) (text_of (get (lit "token") payload)) user

  -- session_from
  unfoldable pub session_from : Str → Plan → List Row → Result (Option (StoredSession Row))
  unfolding session_of_row
  session_from presented plan rows = session_of_row presented plan rows (only rows)
