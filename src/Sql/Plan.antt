-- ===== src/Sql/Plan.antt =====
-- stores/sqlalchemy_core.py: the configured names, and which columns of a live schema are selected.
pub mod Laws
use fastapi_better_auth.Base.{
  ℕ, Bool, true, false, not, ◌&&◌, ◌||◌, Option, none, some, List, [], ◌∷◌, ◌++◌, map,
  if◌then◌else◌,
}
use fastapi_better_auth.Text.{Str, lit, str_eq, is_blank}
use fastapi_better_auth.Errors.{
  Raised, configuration, Result, ok, raise, refuse_if, ◌>>=◌, ◌>>◌, blank_table, same_table,
  bad_columns, blank_column, repeated_column, missing_table, missing_required, unknown_column,
}
use fastapi_better_auth.Cookies.{member}

abbrev pub session_required : List Str
session_required = lit "id" ∷ lit "token" ∷ lit "expiresAt" ∷ lit "userId" ∷ []

abbrev pub session_optional : List Str
session_optional = lit "createdAt" ∷ lit "updatedAt" ∷ lit "ipAddress" ∷ lit "userAgent" ∷ []

abbrev pub session_admin : List Str
session_admin = lit "impersonatedBy" ∷ []

abbrev pub user_required : List Str
user_required = lit "id" ∷ []

abbrev pub user_optional : List Str
user_optional =
    lit "name"
    ∷ lit "email"
    ∷ lit "emailVerified"
    ∷ lit "image"
    ∷ lit "createdAt"
    ∷ lit "updatedAt"
    ∷ []

abbrev pub user_admin : List Str
user_admin = lit "role" ∷ lit "banned" ∷ lit "banReason" ∷ lit "banExpires" ∷ []

abbrev known_names : List Str
known_names =
    session_required
    ++ (session_optional ++ (session_admin ++ (user_required ++ (user_optional ++ user_admin))))

abbrev pub moments : List Str
moments = lit "expiresAt" ∷ lit "createdAt" ∷ lit "updatedAt" ∷ lit "banExpires" ∷ []

-- validated_name, where none is a value that is no str
unfoldable pub validated_name : Option Str → Result Str
validated_name none = raise (configuration blank_table)
validated_name (some name) = if is_blank name then raise (configuration blank_table) else ok name

-- validated_names
unfoldable pub validated_names : Option Str → Option Str → Result (Str × Str)
validated_names session_table user_table = do
  session ← validated_name session_table
  user ← validated_name user_table
  refuse_if (str_eq session user) (configuration same_table)
  ok (session, user)

-- an allow-list: None, a sequence, whose entries are none where they are no str, or anything else
pub data AllowList : Type 0 where
  absent foreign : AllowList
  sequence : List (Option Str) → AllowList

-- the loop of validated_columns
unfoldable pub named_from : List Str → List (Option Str) → Result (List Str)
named_from names [] = ok names
named_from names (none ∷ rest) = raise (configuration blank_column)
named_from names (some name ∷ rest) =
    refuse_if (is_blank name) (configuration blank_column)
    >> (refuse_if (member name names) (configuration repeated_column)
        >> named_from (names ++ (name ∷ [])) rest)

-- validated_columns
unfoldable pub validated_columns : AllowList → Result (Option (List Str))
validated_columns AllowList.absent = ok none
validated_columns AllowList.foreign = raise (configuration bad_columns)
validated_columns (sequence names) = do checked ← named_from [] names; ok (some checked)

-- Each table's columns, in the database's own order: none is a table that is not there.
abbrev pub Columns : Type 0
Columns = List (Str × Option (List Str))

-- present.get(table)
unfoldable pub columns_of : Str → Columns → Option (List Str)
columns_of table [] = none
columns_of table ((t, columns) ∷ present) =
    if str_eq t table then columns else columns_of table present

-- `tuple(name for name in names if test(name))`
unfoldable pub select_if : (Str → Bool) → List Str → List Str
select_if test [] = []
select_if test (name ∷ names) =
    let rest = select_if test names in if test name then name ∷ rest else rest

-- names that are not among `columns`
abbrev pub absent_from : List Str → List Str → List Str
absent_from columns names = select_if (λ name. not (member name columns)) names

unfoldable pub is_filled : List Str → Bool
is_filled [] = false
is_filled (name ∷ names) = true

-- `allowed is None or name in allowed`
unfoldable pub may_travel : Option (List Str) → Str → Bool
may_travel none name = true
may_travel (some allowed) name = member name allowed

-- _extras
unfoldable pub extras : List Str → List Str → Option (List Str) → List Str
extras columns known allowed =
    select_if (λ name. not (member name known) && may_travel allowed name) columns

-- the names of an allow-list that the table does not have
unfoldable pub unknown_names : List Str → Option (List Str) → List Str
unknown_names columns none = []
unknown_names columns (some allowed) = absent_from columns allowed

-- the end of _accepted, for a table that is there; the warning of drifted columns is not modelled
accepted_of : List Str → List Str → List Str → List Str → Option (List Str) → Result (List Str)
accepted_of columns required optional admin allowed = do
  refuse_if (is_filled (absent_from columns required)) (configuration missing_required)
  refuse_if (is_filled (unknown_names columns allowed)) (configuration unknown_column)
  let known = required ++ select_if (λ name. member name columns) (optional ++ admin)
  ok (known ++ extras columns known allowed)

-- _accepted
unfoldable pub accepted :
    Str → Columns → List Str → List Str → List Str → Option (List Str) → Result (List Str)
unfolding accepted_of
accepted table present required optional admin allowed = elim (columns_of table present) [
  | none ↦ raise (configuration missing_table)
  | some columns ↦ accepted_of columns required optional admin allowed
]

-- the type that _column gives a column
pub data Kind : Type 0 where
  date_time boolean characters untyped : Kind

-- _column
unfoldable pub kind_of : Str → Kind
kind_of name =
    if member name moments
    then date_time
    else if str_eq name (lit "emailVerified")
    then boolean
    else if member name known_names && not (str_eq name (lit "banned"))
    then characters
    else untyped

-- A Table of SQLAlchemy: its name, its schema and its columns.
pub record Table : Type 0 where
  pub name : Str
  pub schema : Option Str
  pub columns : List (Str × Kind)

unfoldable pub table_of : Option Str → Str → List Str → Table
table_of schema name columns = record {
  name = name;
  schema = schema;
  columns = map (λ c. (c, kind_of c)) columns;
}

abbrev pub row_limit : ℕ
row_limit = 2

-- A SELECT: the tables, the second joined where there is one by the first's `userId` and its own `id`; the
-- selected columns with their labels, those of the first table first; the column of the first table that is
-- compared with the one parameter; and the limit.
pub record Select : Type 0 where
  pub source : Table
  pub joined : Option Table
  pub labelled : List (Str × Str)
  pub compared : Str
  pub limit : ℕ

unfoldable pub labels : Str → List Str → List (Str × Str)
labels prefix columns = map (λ name. (name, prefix ++ name)) columns

abbrev pub session_prefix : Str
session_prefix = lit "s_"

abbrev pub user_prefix : Str
user_prefix = lit "u_"

-- _session_statement
unfoldable pub session_statement : Table → Table → List Str → List Str → Select
session_statement session user session_columns user_columns = record {
  source = session;
  joined = some user;
  labelled = labels session_prefix session_columns ++ labels user_prefix user_columns;
  compared = lit "token";
  limit = row_limit;
}

-- _user_statement
unfoldable pub user_statement : Table → List Str → Select
user_statement user user_columns = record {
  source = user;
  joined = none;
  labelled = labels user_prefix user_columns;
  compared = lit "id";
  limit = row_limit;
}

pub record Plan : Type 0 where
  pub session_columns : List Str
  pub user_columns : List Str
  pub session_select : Select
  pub user_select : Select

-- What the store was constructed with.
pub record Config : Type 0 where
  pub session_table : Str
  pub user_table : Str
  pub schema : Option Str
  pub session_allowed : Option (List Str)
  pub user_allowed : Option (List Str)

-- plan_for
unfoldable pub plan_for : Config → Columns → Result Plan
plan_for config present = do
  session_columns ←
      accepted config.session_table present session_required session_optional session_admin
        config.session_allowed
  user_columns ←
      accepted config.user_table present user_required user_optional user_admin config.user_allowed
  let session = table_of config.schema config.session_table session_columns
  let user = table_of config.schema config.user_table user_columns
  ok (record {
    session_columns = session_columns;
    user_columns = user_columns;
    session_select = session_statement session user session_columns user_columns;
    user_select = user_statement user user_columns;
  })
