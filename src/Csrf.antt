-- ===== src/Csrf.antt =====
-- csrf.py: the facts of a request that a policy decides on, the policies, and `enforce_policy`.
-- HMAC-SHA256 is a parameter. A policy is built from an allowlist and a header name that its
-- constructor accepted: Csrf/Options.
pub mod Origin
pub mod Token
pub mod Options
use fastapi_better_auth.Base.{
  ℕ, ◌+◌, ◌-◌, ◌/◌, ◌%◌, ◌≡◌, Bool, true, false, not, ◌&&◌, ◌||◌, Option, none, some, List, [], ◌∷◌,
  ◌++◌, map, leb, ltb, ◌==◌, if◌then◌else◌, length,
}
use fastapi_better_auth.Text.{
  Str, Bytes, lit, str_eq, strip, is_blank, lower, upper, casefold, utf8, is_encodable,
}
use fastapi_better_auth.Errors.{
  Raised, session, configuration, type_error, Result, ok, raise, ◌>>=◌, ◌>>◌, refuse_if, Reason,
  value_error, not_encodable,
}
use fastapi_better_auth.Errors.{csrf_failure}
use fastapi_better_auth.Errors.{
  cross_site, no_origin, several_origins, origin_not_allowed, captured_for_another_header,
  header_absent, token_not_bound, policy_answered,
}

-- What the library reads of a connection: its scope's method, if it is a str, whether the scope is
-- a WebSocket's, and the header lines with their names in lower case.
pub record Connection : Type 0 where
  pub method : Option Str
  pub websocket : Bool
  pub headers : List (Str × Str)

-- headers.getlist and headers.get
unfoldable pub get_list : Str → List (Str × Str) → List Str
get_list name [] = []
get_list name ((n, v) ∷ hs) =
    let rest = get_list name hs in if str_eq n name then v ∷ rest else rest

unfoldable pub get_header : Str → List (Str × Str) → Option Str
get_header name [] = none
get_header name ((n, v) ∷ hs) = if str_eq n name then some v else get_header name hs

pub record CsrfFacts : Type 0 where
  pub method : Option Str
  pub origin : Option Str
  pub origin_count : ℕ
  pub sec_fetch_site : Option Str
  pub header_name : Option Str
  pub header_value : Option Str
  pub websocket : Bool

-- A policy: the header that it asks for, and its check, which allows by returning no answer. The
-- Boolean tells whether it returned something else than None.
pub record CsrfPolicy : Type 0 where
  pub required_header : Option Str
  pub check : CsrfFacts → Str → Result Bool

wanted_name : Option Str → Option Str
wanted_name none = none
wanted_name (some wanted) = if is_blank wanted then none else some (lower (strip wanted))

value_of : Option Str → List (Str × Str) → Option Str
value_of none headers = none
value_of (some name) headers = get_header name headers

-- CsrfFacts.from_connection
unfoldable pub from_connection : Connection → CsrfPolicy → CsrfFacts
unfolding wanted_name value_of
from_connection connection policy =
    let name = wanted_name policy.required_header in
    record {
      method = connection.method;
      origin = get_header (lit "origin") connection.headers;
      origin_count = length (get_list (lit "origin") connection.headers);
      sec_fetch_site = get_header (lit "sec-fetch-site") connection.headers;
      header_name = name;
      header_value = value_of name connection.headers;
      websocket = connection.websocket;
    }

unfoldable pub is_safe_method : Option Str → Bool
is_safe_method none = false
is_safe_method (some m) =
    str_eq (upper m) (lit "GET")
    || (str_eq (upper m) (lit "HEAD") || str_eq (upper m) (lit "OPTIONS"))

-- CsrfFacts.requires_check
unfoldable pub requires_check : CsrfFacts → Bool
unfolding is_safe_method
requires_check facts = facts.websocket || not (is_safe_method facts.method)

abbrev csrf : Reason → Raised
csrf = session csrf_failure

is_cross_site : Option Str → Bool
is_cross_site none = false
is_cross_site (some site) = str_eq (casefold (strip site)) (lit "cross-site")

-- the loop: `matched |= compare_digest(presented, candidate)`
matched_from : Bool → Bytes → List Bytes → Bool
matched_from matched presented [] = matched
matched_from matched presented (c ∷ cs) = matched_from (matched || str_eq presented c) presented cs

checked_origin : CsrfFacts → List Bytes → Option Str → Result (Unit {0})
unfolding matched_from
checked_origin facts allowed none = raise (csrf no_origin)
checked_origin facts allowed (some origin) = do
  refuse_if (is_blank origin) (csrf no_origin)
  refuse_if (ltb 1 facts.origin_count) (csrf several_origins)
  refuse_if (not (matched_from false (utf8 origin) allowed)) (csrf origin_not_allowed)

-- _reject_bad_origin
unfoldable pub reject_bad_origin : CsrfFacts → List Bytes → Result (Unit {0})
unfolding is_cross_site checked_origin
reject_bad_origin facts allowed = do
  refuse_if (is_cross_site facts.sec_fetch_site) (csrf cross_site)
  checked_origin facts allowed facts.origin

-- `facts.header_name != name`
names : Option Str → Str → Bool
names none name = false
names (some n) name = str_eq n name

present_value : Option Str → Result Str
present_value none = raise (csrf header_absent)
present_value (some v) = if is_blank v then raise (csrf header_absent) else ok v

-- _presented_header
unfoldable pub presented_header : CsrfFacts → Str → Result Str
unfolding names present_value
presented_header facts name = do
  refuse_if (not (names facts.header_name name)) (csrf captured_for_another_header)
  present_value facts.header_value

header_rung : CsrfFacts → Option Str → Result Bool
header_rung facts none = ok false
header_rung facts (some name) = do presented_header facts name; ok false

-- OriginCheck.check, over its allowlist and its optional header
unfoldable pub origin_check : List Str → Option Str → CsrfFacts → Str → Result Bool
unfolding header_rung
origin_check allowed header facts token =
    if not (requires_check facts)
    then ok false
    else (do reject_bad_origin facts (map utf8 allowed); header_rung facts header)

unfoldable pub hex_digit : ℕ → ℕ
hex_digit v = if ltb v 10 then v + 48 else v + 87

-- bytes.hex()
unfoldable pub hex : Bytes → Str
unfolding hex_digit
hex [] = []
hex (b ∷ bs) = hex_digit (b / 16) ∷ hex_digit (b % 16) ∷ hex bs

module _ (hmac_sha256 : Bytes → Bytes → Bytes) where
  -- _digest of a session token that is a str
  unfoldable pub token_for : Str → Str → Str
  token_for secret session_token =
      hex (hmac_sha256 (utf8 secret) (lit "fba-csrf-v1:" ++ utf8 session_token))

  reject_forged_token : Str → Str → Str → Result (Unit {0})
  reject_forged_token secret session_token presented = do
    refuse_if (not (is_encodable session_token)) (value_error not_encodable)
    refuse_if (not (str_eq (token_for secret session_token) (utf8 presented)))
        (csrf token_not_bound)

  -- SignedDoubleSubmit.check
  unfoldable pub signed_check : Str → List Str → Str → CsrfFacts → Str → Result Bool
  unfolding reject_forged_token
  signed_check secret allowed header facts token =
      if not (requires_check facts) then ok false else (do
        reject_bad_origin facts (map utf8 allowed)
        presented ← presented_header facts header
        reject_forged_token secret token presented
        ok false)

  abbrev pub signed_double_submit : Str → List Str → Str → CsrfPolicy
  signed_double_submit secret allowed header = record {
    required_header = some header;
    check = signed_check secret allowed header;
  }

abbrev pub origin_policy : List Str → Option Str → CsrfPolicy
origin_policy allowed header = record {
  required_header = header;
  check = origin_check allowed header;
}

-- CsrfDisabled
abbrev pub csrf_disabled : CsrfPolicy
csrf_disabled = record { required_header = none; check = λ facts token. ok false }

-- enforce_policy
unfoldable pub enforce_policy : CsrfPolicy → CsrfFacts → Str → Result (Unit {0})
enforce_policy policy facts token = do
  answered ← policy.check facts token
  refuse_if answered (configuration policy_answered)
