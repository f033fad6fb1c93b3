-- ===== src/Remote/Document.antt =====
-- stores/session_document.py and stores/upstream.py: the record of a session document. The parsing of
-- an ISO date is a parameter, `fromisoformat`, which puts a moment on the UTC scale.
pub mod Laws
use fastapi_better_auth.Errors.{Result, ok, raise, Raised}
use fastapi_better_auth.Base.{
  ℕ, Bool, true, false, not, ◌&&◌, ◌||◌, Option, none, some, List, [], ◌∷◌, ◌++◌, ◌==◌,
  if◌then◌else◌,
}
use fastapi_better_auth.Text.{Str, lit, is_blank, is_encodable, str_eq}
use fastapi_better_auth.CookieVerifier.{StoredUser, StoredSession}

-- A member of a JSON object, as far as it is told apart; null reads as a member that is absent.
pub data Member : Type 0 where
  absent other : Member
  text : Str → Member
  flag : Bool → Member

pub record SessionObject (Payload : Type 0) : Type 0 where
  pub expires_at : Member
  pub user_id : Member
  pub token : Member
  pub impersonated_by : Member
  pub payload : Payload

pub record UserObject (Payload : Type 0) : Type 0 where
  pub id : Member
  pub banned : Member
  pub ban_expires : Member
  pub payload : Payload

-- A document, whose members are none where they are no objects.
pub record Document (Payload : Type 0) : Type 0 where
  pub session : Option (SessionObject Payload)
  pub user : Option (UserObject Payload)

-- value[:-1] of a text that ends with "Z" or "z", with the offset; any other text as it is
unfoldable pub with_offset : Str → Str
with_offset [] = []
with_offset (c ∷ []) = if c == b'Z' || c == b'z' then lit "+00:00" else c ∷ []
with_offset (c ∷ d ∷ s) = c ∷ with_offset (d ∷ s)

-- as_text
unfoldable pub as_text : Member → Option Str
as_text (text s) = if is_blank s then none else if is_encodable s then some s else none
as_text m = none

-- `hmac.compare_digest(known.encode("utf-8"), presented.encode("utf-8"))`, of a text that as_text let through: a
-- presented one that cannot be encoded raises
unfoldable pub same_text : Str → Str → Result Bool
same_text known presented =
    if is_encodable presented then ok (str_eq known presented) else raise (Raised.other 0)

-- as_flag
unfoldable pub as_flag : Member → Option Bool
as_flag (flag b) = some b
as_flag m = none

unfoldable pub is_absent : Member → Bool
is_absent Member.absent = true
is_absent m = false

module _ (fromisoformat : Str → Option ℕ) where
  -- as_moment of a JSON value
  unfoldable pub as_moment : Member → Option ℕ
  as_moment (text []) = none
  as_moment (text (c ∷ s)) = fromisoformat (with_offset (c ∷ s))
  as_moment m = none

  -- the check of `banExpires`, after that of `banned`
  unfoldable pub expiry_of : Option Bool → Member → Option (Option Bool × Option ℕ)
  expiry_of banned m = elim (as_moment m) [
    | none ↦ if is_absent m then some (banned, none) else none
    | some at ↦ some (banned, some at)
  ]

  -- the checks of `banned`, then of `banExpires`: none where one is unusable
  unfoldable pub ban_of : Member → Member → Option (Option Bool × Option ℕ)
  unfolding expiry_of
  ban_of banned recorded = elim (as_flag banned) [
    | none ↦ if is_absent banned then expiry_of none recorded else none
    | some b ↦ expiry_of (some b) recorded
  ]

  module _ {Payload : Type 0} where
    unfoldable pub user_with :
        UserObject Payload → Str → Option (Option Bool × Option ℕ) → Option (StoredUser Payload)
    user_with u id none = none
    user_with u id (some (banned, ban_expires)) =
        some (record { id = id; payload = u.payload; banned = banned; ban_expires = ban_expires })

    -- parse_stored_user
    unfoldable pub parse_stored_user : UserObject Payload → Option (StoredUser Payload)
    unfolding ban_of user_with
    parse_stored_user u = elim (as_text u.id) [
      | none ↦ none
      | some id ↦ user_with u id (ban_of u.banned u.ban_expires)
    ]

    -- the test that a value is missing, and the record
    unfoldable pub session_with :
        SessionObject Payload
        → Option ℕ
        → Option Str
        → Option Str
        → Option (StoredUser Payload)
        → Option (StoredSession Payload)
    session_with s (some expires_at) (some user_id) (some token) (some user) = some (record {
      token = token;
      user_id = user_id;
      expires_at = expires_at;
      payload = s.payload;
      user = some user;
      impersonated_by = as_text s.impersonated_by;
    })
    session_with s _ _ _ _ = none

    unfoldable pub parsed_pair :
        Option (SessionObject Payload)
        → Option (UserObject Payload)
        → Option (StoredSession Payload)
    unfolding session_with
    parsed_pair (some s) (some u) =
        session_with s (as_moment s.expires_at) (as_text s.user_id) (as_text s.token)
          (parse_stored_user u)
    parsed_pair _ _ = none

    -- parse_session_document
    unfoldable pub parse_session_document : Document Payload → Option (StoredSession Payload)
    unfolding parsed_pair
    parse_session_document d = parsed_pair d.session d.user
