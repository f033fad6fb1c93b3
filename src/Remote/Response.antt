-- ===== src/Remote/Response.antt =====
-- remote_response.py: what a response of get-session means. json.loads is a parameter, as a body is what
-- it makes of it; so is int() of a text.
pub mod Laws
use fastapi_better_auth.Base.{
  ℤ, ℕ, Bool, true, false, not, ◌&&◌, Option, none, some, List, [], ◌∷◌, ltb, ◌==◌, if◌then◌else◌,
  pos, negsuc,
}
use fastapi_better_auth.Text.{Str, lit, str_eq, strip, lower, split_on}
use fastapi_better_auth.Errors.{Raised, session, Result, ok, raise, refuse_if, ◌>>◌}
use fastapi_better_auth.Errors.{
  auth_service_unavailable, session_revoked, invalid_credential, upstream_status, upstream_media,
  upstream_not_json, upstream_not_object, upstream_unreadable, upstream_session_gone,
  upstream_no_session,
}
use fastapi_better_auth.CookieVerifier.{StoredSession}
use fastapi_better_auth.Remote.Document.{Document, parse_session_document}

-- what json.loads makes of a body; null is None
pub data Body (Payload : Type 0) : Type 0 where
  not_json null not_object : Body Payload
  object : Document Payload → Body Payload

-- TransportResponse, its header names in lower case
pub record Response (Payload : Type 0) : Type 0 where
  pub status_code : ℕ
  pub headers : List (Str × Str)
  pub content : Body Payload

abbrev pub default_backoff : ℕ
default_backoff = 5

-- headers.get
unfoldable pub header : Str → List (Str × Str) → Option Str
header name [] = none
header name ((k, v) ∷ hs) = if str_eq k name then some v else header name hs

-- max(MIN_BACKOFF, min(MAX_BACKOFF, value))
unfoldable pub clamped : ℤ → ℕ
clamped (pos n) = if ltb n 1 then 1 else if ltb 60 n then 60 else n
clamped (negsuc n) = 1

module _ (read_int : Str → Option ℤ) where
  wait_of : Option Str → Option ℕ
  wait_of none = none
  wait_of (some raw) = elim (read_int (strip raw)) [ none ↦ none | some n ↦ some (clamped n) ]

  first_wait : List Str → List (Str × Str) → ℕ
  unfolding wait_of
  first_wait [] headers = default_backoff
  first_wait (name ∷ names) headers =
      let rest = first_wait names headers in
      elim (wait_of (header name headers)) [ none ↦ rest | some n ↦ n ]

  -- retry_after_seconds
  unfoldable pub retry_after_seconds : List (Str × Str) → ℕ
  unfolding first_wait
  retry_after_seconds headers = first_wait (lit "retry-after" ∷ lit "x-retry-after" ∷ []) headers

head_or_empty : List Str → Str
head_or_empty [] = []
head_or_empty (w ∷ ws) = w

-- headers.get("content-type", "")
declared : Option Str → Str
declared none = []
declared (some v) = v

-- null_outcome
unfoldable pub null_outcome : Bool → Raised
null_outcome true = session session_revoked upstream_session_gone
null_outcome false = session invalid_credential upstream_no_session

module _ {Payload : Type 0} where
  -- _media_type
  unfoldable pub media_type : Response Payload → Str
  unfolding head_or_empty declared
  media_type r =
      lower
        (strip (head_or_empty (split_on b';' (declared (header (lit "content-type") r.headers)))))

  -- `media in JSON_MEDIA_TYPES`
  unfoldable pub is_json : Response Payload → Bool
  is_json r = str_eq (media_type r) (lit "application/json")

  is_null : Body Payload → Bool
  is_null Body.null = true
  is_null b = false

  -- is_cacheable_null
  unfoldable pub is_cacheable_null : Response Payload → Bool
  unfolding is_null
  is_cacheable_null r =
      if not (r.status_code == 200)
      then false
      else if not (is_json r)
      then false
      else is_null r.content

  record_or : Option (StoredSession Payload) → Result (StoredSession Payload)
  record_or none = raise (session auth_service_unavailable upstream_unreadable)
  record_or (some r) = ok r

  module _ (fromisoformat : Str → Option ℕ) where
    record_of : Bool → Body Payload → Result (StoredSession Payload)
    unfolding record_or
    record_of verified Body.not_json = raise (session auth_service_unavailable upstream_not_json)
    record_of verified Body.null = raise (null_outcome verified)
    record_of verified Body.not_object =
        raise (session auth_service_unavailable upstream_not_object)
    record_of verified (Body.object d) = record_or (parse_session_document fromisoformat d)

    -- session_document_from
    unfoldable pub session_document_from : Bool → Response Payload → Result (StoredSession Payload)
    unfolding record_of
    session_document_from verified r =
        refuse_if (not (r.status_code == 200)) (session auth_service_unavailable upstream_status)
        >> (refuse_if (not (is_json r)) (session auth_service_unavailable upstream_media)
            >> record_of verified r.content)
