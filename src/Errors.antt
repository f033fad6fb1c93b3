-- ===== src/Errors.antt =====
-- errors.py, containment.py and reasons.py: what the library raises, what a client is answered for
-- it, and the exception groups that are unwrapped before an exception is judged.
pub mod Declare
pub mod Refusal
use fastapi_better_auth.Base.{
  ℕ, ◌≡◌, refl, ◌⊎◌, inl, inr, String, Bool, true, false, not, ◌&&◌, Option, none, some, List, [],
  ◌∷◌,
}
use fastapi_better_auth.Text.{Str, lit}

-- The subclasses of SessionError.
pub data SessionKind : Type 0 where
  invalid_credential session_expired session_revoked auth_service_unavailable : SessionKind
  missing_credential csrf_failure not_authorized ambiguous_credentials : SessionKind

-- The reasons of the refusals, one for each message of the source. What a message quotes (a
-- fingerprint, a length, a label) is not kept: no code reads it.
pub data Reason : Type 0 where
  no_material whole_and_chunked duplicated_name chunks_not_contiguous : Reason
  reassembled_too_long value_too_long not_percent_utf8 no_separator : Reason
  empty_token signature_length signature_not_base64 signature_bytes : Reason
  no_matching_secret not_encodable : Reason
  cross_site no_origin several_origins origin_not_allowed : Reason
  captured_for_another_header header_absent session_token_not_str token_not_bound : Reason
  policy_answered : Reason
  foreign_credential no_stored_session stored_session_expired user_absent user_banned : Reason
  store_unavailable payload_rejected : Reason
  nothing_presented several_presented escaped_verifier : Reason
  extract_awaitable verify_not_awaitable verify_no_session verify_wrong_model : Reason
  async_predicate sync_lookup refused_by_rule unusable_id no_membership : Reason
  escaped_rule refusal_not_honoured : Reason
  jwks_fetch_failed jwks_status jwks_media jwks_not_json jwks_not_object : Reason
  jwks_keys_not_list jwks_too_many jwks_entry_not_object jwks_no_kid jwks_no_alg : Reason
  jwks_key_did_not_load jwks_kid_unconfirmed : Reason
  not_a_sequence no_verifiers not_a_verifier not_callable async_extract : Reason
  blank_source listed_twice one_credential : Reason
  shadowed_attribute unsanctioned_status unsanctioned_detail unsanctioned_headers : Reason
  misbuilt_refusal bad_secret : Reason
  upstream_status upstream_media upstream_not_json upstream_not_object upstream_unreadable : Reason
  upstream_session_gone upstream_no_session : Reason
  upstream_backing_off upstream_unready upstream_saturated upstream_unreached other_token
        unreachable_at_boot :
      Reason
  several_authorization not_a_token not_three_segments unreadable_header critical_header : Reason
  no_key_id algorithm_not_allowed no_published_key other_algorithm token_expired : Reason
  token_rejected subject_nobody times_not_numbers lifetime_not_positive lifetime_too_long : Reason
  bad_algorithms no_algorithms unsupported_algorithm bad_leeway bad_lifetime : Reason
  blank_table same_table bad_columns blank_column repeated_column missing_table : Reason
  missing_required unknown_column lookup_incomplete bad_concurrency redis_client bad_prefix
        bad_cap :
      Reason
  probe_timed_out probe_too_large probe_encoded probe_unreached probe_routing probe_status : Reason
  probe_media probe_not_json probe_dead_jar probe_not_null unsigned_bearer bad_byte_cap : Reason
  url_not_text url_whitespace url_unusable url_no_scheme url_scheme url_credentials url_no_host :
      Reason
  url_not_ascii url_host url_ipv6 url_mapped url_cleartext url_port_zero url_path url_query
        url_fragment :
      Reason
  csrf_origins csrf_no_origins csrf_repeated_origin csrf_header csrf_browser_header csrf_secret
        csrf_reason :
      Reason
  csrf_missing csrf_no_policy csrf_not_callable : Reason

-- What a caller may pass as a refusal's headers: None, a plain dict, another mapping, or anything
-- else. A name or a value is a plain str, of a subclass of str, or anything else.
pub data Field : Type 0 where
  text text_subclass : Str → Field
  foreign : Field

pub data Headers : Type 0 where
  absent : Headers
  dict mapping : List (Field × Field) → Headers
  foreign : Headers

-- ... and as its status: a plain int, of a subclass of int that is not bool, or anything else.
pub data Status : Type 0 where
  int int_subclass : ℕ → Status
  foreign : Status

-- An AuthorizationRefused. Its detail is a caller's and is not read.
pub record Refused : Type 0 where
  pub status_code : Status
  pub headers : Headers

-- What may be raised. `better_auth` is a BetterAuthError of another class than ConfigurationError,
-- `other` any other Exception, `exit` a BaseException that is no Exception (a cancellation), each
-- known by a number; `group` is an exception group.
mutual
  pub data Raised : Type 0 where
    session : SessionKind → Reason → Raised
    configuration : Reason → Raised
    better_auth : ℕ → Raised
    type_error : Reason → Raised
    value_error : Reason → Raised
    refused : Refused → Raised
    other : ℕ → Raised
    exit : ℕ → Raised
    group : RaisedList → Raised

  pub data RaisedList : Type 0 where
    nil : RaisedList
    cons : Raised → RaisedList → RaisedList

pub data Result {ℓ} (A : Type ℓ) : Type ℓ where
  ok : A → Result A
  raise : Raised → Result A

infixl 5 ◌>>=◌ ◌>>◌
abbrev pub ◌>>=◌ {μ ν} : {X : Type μ} {Y : Type ν} → Result X → (X → Result Y) → Result Y
raise e >>= k = raise e
ok x >>= k = k x

abbrev pub ◌>>◌ {μ ν} : {X : Type μ} {Y : Type ν} → Result X → Result Y → Result Y
step >> next = step >>= λ _. next

-- Inversion of a step that did not raise.
pub bind-eq-ok {μ ν} :
    {X : Type μ} {Y : Type ν} (step : Result X) (next : X → Result Y) {y : Y}
    → (step >>= next) ≡ ok y
    → (x : X) × (step ≡ ok x) × (next x ≡ ok y)
bind-eq-ok (raise e) next returned = cc
bind-eq-ok (ok x) next returned = (x, refl, returned)

pub Result-cases {ℓ} :
    {A : Type ℓ} (r : Result A) → ((a : A) × (r ≡ ok a)) ⊎ ((e : Raised) × (r ≡ raise e))
Result-cases (ok a) = inl (a, refl)
Result-cases (raise e) = inr (e, refl)

-- `if test: raise e`
abbrev pub refuse_if : Bool → Raised → Result (Unit {0})
refuse_if true e = raise e
refuse_if false e = ok tt

pub refuse_if-ok :
    (test : Bool) (e : Raised) {u : Unit {0}} → refuse_if test e ≡ ok u → test ≡ false
refuse_if-ok true e h = absurd (cc)
refuse_if-ok false e h = refl

pub ok_of : {A : Type 0} {a b : A} → ok a ≡ ok b → a ≡ b
ok_of h = cc

-- An exception group holding only Exceptions is itself an ExceptionGroup, hence an Exception.
unfoldable mutual
  pub is_exception : Raised → Bool
  is_exception (exit n) = false
  is_exception (group es) = are_exceptions es
  is_exception (session k r) = true
  is_exception (configuration r) = true
  is_exception (better_auth n) = true
  is_exception (type_error r) = true
  is_exception (value_error r) = true
  is_exception (refused r) = true
  is_exception (other n) = true

  pub are_exceptions : RaisedList → Bool
  are_exceptions nil = true
  are_exceptions (cons e es) = is_exception e && are_exceptions es

-- `isinstance(e, BetterAuthError)` and `isinstance(e, SessionError)`
unfoldable pub is_better_auth : Raised → Bool
is_better_auth (configuration r) = true
is_better_auth (better_auth n) = true
is_better_auth e = false

unfoldable pub is_session_error : Raised → Bool
is_session_error (session k r) = true
is_session_error e = false

-- containment.unwrapped: the leaf of a chain of groups of one
unfoldable mutual
  pub unwrapped : Raised → Raised
  unwrapped (group es) = unwrapped_list es
  unwrapped (session k r) = session k r
  unwrapped (configuration r) = configuration r
  unwrapped (better_auth n) = better_auth n
  unwrapped (type_error r) = type_error r
  unwrapped (value_error r) = value_error r
  unwrapped (refused r) = refused r
  unwrapped (other n) = other n
  unwrapped (exit n) = exit n

  pub unwrapped_list : RaisedList → Raised
  unwrapped_list nil = group nil
  unwrapped_list (cons e nil) = unwrapped e
  unwrapped_list (cons e (cons d es)) = group (cons e (cons d es))

abbrev pub challenge : Option (List (Str × Str))
challenge = some ((lit "WWW-Authenticate", lit "Bearer") ∷ [])

-- What a SessionError sends: the class attributes that its __init__ hands to HTTPException.
pub record Response : Type 0 where
  pub status : ℕ
  pub detail : Str
  pub headers : Option (List (Str × Str))

abbrev unauthenticated : Response
unauthenticated = record { status = 401; detail = lit "Not authenticated"; headers = challenge }

abbrev forbidden : Response
forbidden = record { status = 403; detail = lit "Forbidden"; headers = none }

abbrev ambiguous : Response
ambiguous = record { status = 400; detail = lit "Ambiguous request"; headers = none }

unfoldable pub response : SessionKind → Response
response invalid_credential = unauthenticated
response session_expired = unauthenticated
response session_revoked = unauthenticated
response auth_service_unavailable = unauthenticated
response missing_credential = unauthenticated
response csrf_failure = forbidden
response not_authorized = forbidden
response ambiguous_credentials = ambiguous
