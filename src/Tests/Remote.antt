-- ===== src/Tests/Remote.antt =====
-- A response of get-session with a document, and its record.
use fastapi_better_auth.Base.{ℤ, ℕ, ◌≡◌, refl, true, Option, none, some, [], ◌∷◌, if◌then◌else◌}
use fastapi_better_auth.Text.{Str, lit, str_eq, is_blank, is_space, is_encodable}
use fastapi_better_auth.CookieVerifier.{StoredSession}
use fastapi_better_auth.Remote.Document.{
  Member, text, flag, SessionObject, UserObject, Document, as_text, as_flag, is_absent, with_offset,
  as_moment, expiry_of, ban_of, user_with, parse_stored_user, session_with, parsed_pair,
  parse_session_document,
}
use fastapi_better_auth.Remote.Document.Laws.{IsRecord, parse_session_document-IsRecord}
use fastapi_better_auth.Remote.Response.{Body, Response}

abbrev session_object : SessionObject ℕ
session_object = record {
  expires_at = text (lit "2030-01-01T00:00:00.000Z");
  user_id = text (lit "u1");
  token = text (lit "t1");
  impersonated_by = Member.absent;
  payload = 1;
}

abbrev user_object : UserObject ℕ
user_object = record {
  id = text (lit "u1");
  banned = flag true;
  ban_expires = text (lit "2029-01-01T00:00:00.000z");
  payload = 2;
}

abbrev pub document : Document ℕ
document = record { session = some session_object; user = some user_object }

-- the year, for the texts that a date of JSON becomes
abbrev pub fromisoformat : Str → Option ℕ
fromisoformat s =
    if str_eq s (lit "2030-01-01T00:00:00.000+00:00")
    then some 2030
    else if str_eq s (lit "2029-01-01T00:00:00.000+00:00")
    then some 2029
    else none

abbrev pub stored : StoredSession ℕ
stored = record {
  token = lit "t1";
  user_id = lit "u1";
  expires_at = 2030;
  payload = 1;
  user = some (record { id = lit "u1"; payload = 2; banned = some true; ban_expires = some 2029 });
  impersonated_by = none;
}

pub reads : parse_session_document fromisoformat document ≡ some stored
unfolding parse_session_document parsed_pair session_with parse_stored_user user_with ban_of
    expiry_of as_text as_flag as_moment is_absent with_offset is_blank is_space str_eq is_encodable
reads = refl

parse_session_document-IsRecord_example : IsRecord fromisoformat document stored
parse_session_document-IsRecord_example =
    parse_session_document-IsRecord fromisoformat document stored reads

abbrev pub response : Response ℕ
response = record {
  status_code = 200;
  headers =
      (lit "date", lit "today") ∷ (lit "content-type", lit "Application/JSON; charset=utf-8") ∷ [];
  content = Body.object document;
}

abbrev gone : Response ℕ
gone = record { status_code = 200; headers = response.headers; content = Body.null }

abbrev pub read_int : Str → Option ℤ
read_int s = if str_eq s (lit "3600") then some (ℤ.pos 3600) else none
