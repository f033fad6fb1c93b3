-- ===== src/Csrf/Options.antt =====
-- csrf.py: what the constructors of the policies accept. The canonical form of an origin is urls.py's.
pub mod Laws
use fastapi_better_auth.Base.{
  ℕ, Bool, true, false, not, ◌&&◌, ◌||◌, Option, none, some, List, [], ◌∷◌, ◌++◌, leb, ltb,
  if◌then◌else◌, length,
}
use fastapi_better_auth.Text.{Str, Bytes, lit, strip, lower}
use fastapi_better_auth.Errors.{
  Raised, configuration, Result, ok, raise, refuse_if, ◌>>=◌, ◌>>◌, csrf_origins, csrf_no_origins,
  csrf_repeated_origin, csrf_header, csrf_browser_header, csrf_secret, csrf_reason, csrf_missing,
  csrf_no_policy, csrf_not_callable,
}
use fastapi_better_auth.Errors.Refusal.{is_field_name}
use fastapi_better_auth.Cookies.{member}
use fastapi_better_auth.Csrf.{CsrfPolicy, origin_policy, signed_double_submit, csrf_disabled}
use fastapi_better_auth.Urls.{Address, normalize_base_url}

abbrev pub browser_headers : List Str
browser_headers =
    lit "accept"
    ∷ lit "accept-encoding"
    ∷ lit "accept-language"
    ∷ lit "connection"
    ∷ lit "content-language"
    ∷ lit "content-length"
    ∷ lit "content-type"
    ∷ lit "cookie"
    ∷ lit "host"
    ∷ lit "origin"
    ∷ lit "range"
    ∷ lit "referer"
    ∷ lit "sec-fetch-dest"
    ∷ lit "sec-fetch-mode"
    ∷ lit "sec-fetch-site"
    ∷ lit "sec-fetch-user"
    ∷ lit "upgrade"
    ∷ lit "user-agent"
    ∷ []

abbrev pub min_disabled_reason : ℕ
min_disabled_reason = 16

-- HEADER_NAME.fullmatch, whose characters are those of FIELD_NAME
unfoldable pub is_header_name : Str → Bool
is_header_name name = is_field_name name && leb (length name) 64

-- _validated_header, where none is no str
unfoldable pub validated_header : Option Str → Result Str
validated_header none = raise (configuration csrf_header)
validated_header (some value) = do
  refuse_if (not (is_header_name (strip value))) (configuration csrf_header)
  refuse_if (member (lower (strip value)) browser_headers) (configuration csrf_browser_header)
  ok (lower (strip value))

-- _optional_header, where none is None
unfoldable pub optional_header : Option (Option Str) → Result (Option Str)
optional_header none = ok none
optional_header (some value) = do name ← validated_header value; ok (some name)

-- _validated_secret, where none is no SharedSecret
unfoldable pub validated_secret : Option Str → Result Str
validated_secret none = raise (configuration csrf_secret)
validated_secret (some secret) = ok secret

-- _validated_disabled_reason
unfoldable pub validated_disabled_reason : Option Str → Result Str
validated_disabled_reason none = raise (configuration csrf_reason)
validated_disabled_reason (some reason) =
    refuse_if (ltb (length (strip reason)) min_disabled_reason) (configuration csrf_reason)
    >> ok reason

-- CsrfDisabled.__init__
unfoldable pub new_csrf_disabled : Option Str → Result CsrfPolicy
new_csrf_disabled reason = do validated_disabled_reason reason; ok csrf_disabled

-- what is passed as a policy: None, what is no CsrfPolicy, one whose check is not callable, or one
pub data Policy : Type 0 where
  absent foreign uncallable : Policy
  given : CsrfPolicy → Policy

-- validated_policy
unfoldable pub validated_policy : Policy → Result CsrfPolicy
validated_policy absent = raise (configuration csrf_missing)
validated_policy foreign = raise (configuration csrf_no_policy)
validated_policy uncallable = raise (configuration csrf_not_callable)
validated_policy (given policy) = do
  elim policy.required_header [ none ↦ ok none | some name ↦ optional_header (some (some name)) ]
  ok policy

-- what is passed as `allowed_origins`: a sequence, whose entries are none where they are no str, or a bare
-- str, bytes or anything else
pub data Origins : Type 0 where
  sequence : List (Option Str) → Origins
  foreign : Origins

module _ (accepts_netloc : Str → Bool) (ip_address : Str → Option Address) where
  listed : List Str → Str → Result (List Str)
  listed normalized origin =
      if member origin normalized
      then raise (configuration csrf_repeated_origin)
      else ok (normalized ++ (origin ∷ []))

  -- the loop of _validated_origins
  origins_from : List Str → List (Option Str) → Result (List Str)
  unfolding listed
  origins_from normalized [] = ok normalized
  origins_from normalized (entry ∷ entries) = do
    origin ← normalize_base_url accepts_netloc ip_address entry
    next ← listed normalized origin
    origins_from next entries

  -- _validated_origins
  unfoldable pub validated_origins : Origins → Result (List Str)
  unfolding origins_from
  validated_origins Origins.foreign = raise (configuration csrf_origins)
  validated_origins (sequence []) = raise (configuration csrf_no_origins)
  validated_origins (sequence (e ∷ es)) = origins_from [] (e ∷ es)

  -- OriginCheck.__init__
  unfoldable pub new_origin_check : Origins → Option (Option Str) → Result CsrfPolicy
  new_origin_check origins require_header = do
    allowed ← validated_origins origins
    header ← optional_header require_header
    ok (origin_policy allowed header)

  -- SignedDoubleSubmit.__init__
  unfoldable pub new_signed_double_submit :
      (Bytes → Bytes → Bytes) → Option Str → Origins → Option Str → Result CsrfPolicy
  new_signed_double_submit hmac_sha256 secret origins header = do
    kept ← validated_secret secret
    allowed ← validated_origins origins
    name ← validated_header header
    ok (signed_double_submit hmac_sha256 kept allowed name)
