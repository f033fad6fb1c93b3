-- ===== src/Transport.antt =====
-- transport.py, httpx_transports.py: the fetch of both transports. The client library is a parameter, and so is
-- the deadline, which cuts a stream off by raising.
pub mod Body
pub mod Laws
use fastapi_better_auth.Base.{
  ℤ, pos, negsuc, ℕ, ◌+◌, ◌-◌, Bool, true, false, ◌||◌, Option, none, some, List, [], ◌∷◌, ◌++◌,
  ◌==◌, length, take, ltb, if◌then◌else◌,
}
use fastapi_better_auth.Text.{Str, Bytes, lit, str_eq, lower}
use fastapi_better_auth.Errors.{
  Raised, value_error, Result, ok, raise, refuse_if, ◌>>=◌, ◌>>◌, is_exception, bad_byte_cap,
}
use fastapi_better_auth.Exec.{Exec}

-- the exceptions of this boundary, each known by a number: ResponseTooLarge, ContentEncodingRejected,
-- TransportFailure and the builtin TimeoutError
abbrev pub response_too_large : Raised
response_too_large = Raised.other 1001

abbrev pub content_encoding_rejected : Raised
content_encoding_rejected = Raised.other 1002

abbrev pub transport_failure : Raised
transport_failure = Raised.other 1003

abbrev pub timeout_error : Raised
timeout_error = Raised.other 1004

-- `except UntrustedResponse`
unfoldable pub is_untrusted : Raised → Bool
is_untrusted (Raised.other n) = n == 1001 || n == 1002
is_untrusted e = false

-- a mapping of header names
abbrev pub Headers : Type 0
Headers = List (Str × Str)

-- What `aiter_raw` yields: chunks of the wire, then its end or an exception.
pub data Stream : Type 0 where
  ended : Stream
  failed : Raised → Stream
  chunk : Bytes → Stream → Stream

pub record StreamedResponse : Type 0 where
  pub status_code : ℕ
  pub headers : Headers
  pub raw : Stream

pub record TransportResponse : Type 0 where
  pub status_code : ℕ
  pub headers : Headers
  pub content : Bytes

-- `mapping[name] = value`
unfoldable pub put : Str → Str → Headers → Headers
put name v [] = (name, v) ∷ []
put name v ((k, w) ∷ m) = if str_eq k name then (k, v) ∷ m else (k, w) ∷ put name v m

-- `mapping.update({key.lower(): value for key, value in headers.items()})`
unfoldable pub updated : Headers → Headers → Headers
updated m [] = m
updated m ((k, v) ∷ headers) = updated (put (lower k) v m) headers

-- TransportResponse.__post_init__
unfoldable pub lowered : Headers → Headers
lowered headers = updated [] headers

-- `mapping.get(name)`
unfoldable pub find : Str → Headers → Option Str
find name [] = none
find name ((k, v) ∷ m) = if str_eq k name then some v else find name m

-- _validate_cap, where none is no int
unfoldable pub validate_cap : Option ℤ → Result ℕ
validate_cap none = raise (value_error bad_byte_cap)
validate_cap (some (negsuc n)) = raise (value_error bad_byte_cap)
validate_cap (some (pos n)) = refuse_if (ltb n 1) (value_error bad_byte_cap) >> ok n

-- _request_headers, where none is None
unfoldable pub request_headers : Option Headers → Headers
request_headers none = (lit "accept-encoding", lit "identity") ∷ []
request_headers (some headers) = updated ((lit "accept-encoding", lit "identity") ∷ []) headers

encoding_refused : Option Str → Result (Unit {0})
encoding_refused none = ok tt
encoding_refused (some encoding) = raise content_encoding_rejected

-- _reject_content_encoding; the response's own headers are found by any case of a name
unfoldable pub reject_content_encoding : StreamedResponse → Result (Unit {0})
unfolding encoding_refused
reject_content_encoding r = encoding_refused (find (lit "content-encoding") (lowered r.headers))

-- The loop of _capped: the buffer, and whether the read was cancelled. A cancelled read ends there.
unfoldable pub read_from : ℕ → Bytes → Stream → Result (Bytes × Bool)
read_from cap body ended = ok (body, false)
read_from cap body (failed e) = raise e
read_from cap body (chunk c rest) =
    let next = body ++ take (cap - length body + 1) c in
    let later = read_from cap next rest in if ltb cap (length next) then ok (next, true) else later

whole : Bytes × Bool → Result Bytes
whole (body, true) = raise response_too_large
whole (body, false) = ok body

-- _capped
unfoldable pub capped : StreamedResponse → ℕ → Result Bytes
unfolding whole
capped r cap = do reject_content_encoding r; read ← read_from cap [] r.raw; whole read

-- A request, as it is handed to the client's `stream`.
pub record Request : Type 0 where
  pub method : Str
  pub url : Str
  pub headers : Headers
  pub content : Bytes
  pub follow_redirects : Bool

-- The client: a request's response, whose stream is what the client and the deadline make of it; and its
-- closing.
pub record Client (C : Type 0) : Type 0 where
  pub stream : Request → Exec C StreamedResponse
  pub aclose : Exec C (Unit {0})

response_of : ℕ → StreamedResponse → Result TransportResponse
response_of cap r = do
  content ← capped r cap
  ok (record { status_code = r.status_code; headers = lowered r.headers; content = content })

-- the handlers of _fetch, where `is_timeout` tests for the types that _timeout_types lists
unfoldable pub handled : {A : Type 0} → (Raised → Bool) → Result A → Result A
handled is_timeout (ok a) = ok a
handled is_timeout (raise e) =
    if is_untrusted e
    then raise e
    else if is_timeout e
    then raise timeout_error
    else if is_exception e
    then raise transport_failure
    else raise e

module _ {C : Type 0} (client : Client C) (is_timeout : Raised → Bool) where
  sent : ℕ → Request → Exec C TransportResponse
  unfolding response_of
  sent cap request c =
      let (r, next) = client.stream request c in (handled is_timeout (r >>= response_of cap), next)

  fetch_checked : Result ℕ → Request → Exec C TransportResponse
  unfolding sent
  fetch_checked (raise e) request c = (raise e, c)
  fetch_checked (ok cap) request c = sent cap request c

  -- _fetch
  unfoldable pub fetch : Str → Str → Option Headers → Bytes → Option ℤ → Exec C TransportResponse
  unfolding fetch_checked
  fetch method url headers content max_bytes = fetch_checked (validate_cap max_bytes) (record {
    method = method;
    url = url;
    headers = request_headers headers;
    content = content;
    follow_redirects = false;
  })

  -- get
  abbrev pub get : Str → Option Headers → Option ℤ → Exec C TransportResponse
  get url headers max_bytes = fetch (lit "GET") url headers [] max_bytes

  -- post
  abbrev pub post : Str → Option Headers → Bytes → Option ℤ → Exec C TransportResponse
  post url headers content max_bytes = fetch (lit "POST") url headers content max_bytes

  -- aclose
  unfoldable pub aclose : Bool → Exec C (Unit {0})
  aclose owned c = if owned then client.aclose c else (ok tt, c)
