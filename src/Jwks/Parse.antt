-- ===== src/Jwks/Parse.antt =====
-- jwks.py: the key set that a response publishes. json.loads and the loaders of PyJWT are parameters:
-- a body is what json.loads makes of it.
pub mod Usable
use fastapi_better_auth.Base.{
  ℕ, Bool, true, false, not, ◌&&◌, ◌||◌, Option, none, some, List, [], ◌∷◌, ◌++◌, ltb, ◌==◌,
  if◌then◌else◌, length,
}
use fastapi_better_auth.Text.{Str, lit, str_eq, split_on, strip, lower, is_blank}
use fastapi_better_auth.Errors.{
  Raised, session, Result, ok, raise, refuse_if, ◌>>=◌, ◌>>◌, is_better_auth, is_session_error,
  is_exception,
}
use fastapi_better_auth.Errors.{
  auth_service_unavailable, jwks_fetch_failed, jwks_status, jwks_media, jwks_not_json,
  jwks_not_object, jwks_keys_not_list, jwks_too_many, jwks_entry_not_object, jwks_no_kid,
  jwks_no_alg, jwks_key_did_not_load, Reason,
}
use fastapi_better_auth.Cookies.{member}

-- an optional member of a key: absent, as verification wants it, or anything else
pub data Declared : Type 0 where
  absent fitting unfit : Declared

-- A published key, as far as it is read: `kid` and `alg` are none where they are no str. `use` is
-- fitting where it is "sig", `key_ops` where it is a list that holds "verify". `number` tells one
-- mapping from another, for what the loaders read of it.
pub record Published : Type 0 where
  pub kid : Option Str
  pub alg : Option Str
  pub used_for : Declared
  pub key_ops : Declared
  pub number : ℕ

pub data Entry : Type 0 where
  object : Published → Entry
  other : Entry

-- what the document's "keys" member is
pub data Keys : Type 0 where
  list : List Entry → Keys
  other : Keys

-- what json.loads makes of a body
pub data Document : Type 0 where
  object : Keys → Document
  not_object not_json : Document

pub record Response : Type 0 where
  pub status_code : ℕ
  pub content_type : Str
  pub content : Document

-- the classes that LOADERS names
pub data Loader : Type 0 where
  okp ec rsa : Loader

pub record Jwk (Key : Type 0) : Type 0 where
  pub kid : Str
  pub algorithm : Str
  pub key : Key

-- from_jwk of a loader, which may fail, and `key_size` of a key, 0 where it has none
pub record Library (Key : Type 0) : Type 0 where
  pub from_jwk : Loader → Published → Option Key
  pub rsa_bits : Key → ℕ

abbrev pub min_rsa_key_bits : ℕ
min_rsa_key_bits = 2048

-- LOADERS.get
unfoldable pub loader_of : Str → Option Loader
loader_of algorithm =
    if str_eq algorithm (lit "EdDSA")
    then some okp
    else if str_eq algorithm (lit "ES256") || str_eq algorithm (lit "ES512")
    then some ec
    else if str_eq algorithm (lit "PS256") || str_eq algorithm (lit "RS256")
    then some rsa
    else none

abbrev pub unavailable : Reason → Raised
unavailable = session auth_service_unavailable

is_unfit : Declared → Bool
is_unfit Declared.absent = false
is_unfit Declared.fitting = false
is_unfit Declared.unfit = true

-- `_not_for_verifying(published) is not None`
unfoldable pub not_for_verifying : Published → Bool
unfolding is_unfit
not_for_verifying p = is_unfit p.used_for || is_unfit p.key_ops

unfoldable pub lookup : {Key : Type 0} → Str → List (Str × Jwk Key) → Option (Jwk Key)
lookup kid [] = none
lookup kid ((k, j) ∷ keys) = if str_eq k kid then some j else lookup kid keys

usable_kid : Option Str → Result Str
usable_kid none = raise (unavailable jwks_no_kid)
usable_kid (some kid) = if is_blank kid then raise (unavailable jwks_no_kid) else ok kid

declared_alg : Option Str → Result Str
declared_alg none = raise (unavailable jwks_no_alg)
declared_alg (some []) = raise (unavailable jwks_no_alg)
declared_alg (some (c ∷ s)) = ok (c ∷ s)

is_rsa : Loader → Bool
is_rsa rsa = true
is_rsa okp = false
is_rsa ec = false

module _ {Key : Type 0} (library : Library Key) (algorithms : List Str) where
  -- _loaded
  loaded : Loader → Published → Result Key
  loaded loader p = elim (library.from_jwk loader p) [
    | none ↦ raise (unavailable jwks_key_did_not_load)
    | some key ↦ ok key
  ]

  -- the end of _collect
  kept : Loader → Str → Str → List (Str × Jwk Key) → Key → List (Str × Jwk Key)
  unfolding is_rsa
  kept loader kid algorithm keys key =
      if is_rsa loader && ltb (library.rsa_bits key) min_rsa_key_bits
      then keys
      else keys ++ ((kid, record { kid = kid; algorithm = algorithm; key = key }) ∷ [])

  considered : Loader → Published → Str → Str → List (Str × Jwk Key) → Result (List (Str × Jwk Key))
  unfolding loaded kept
  considered loader p kid algorithm keys = elim (lookup kid keys) [
    | some jwk ↦ ok keys
    | none ↦
        if not_for_verifying p
        then ok keys
        else loaded loader p >>= λ key. ok (kept loader kid algorithm keys key)
  ]

  selected :
      Option Loader → Published → Str → Str → List (Str × Jwk Key) → Result (List (Str × Jwk Key))
  unfolding considered
  selected none p kid algorithm keys = ok keys
  selected (some loader) p kid algorithm keys =
      if member algorithm algorithms then considered loader p kid algorithm keys else ok keys

  -- _collect
  unfoldable pub collect : Entry → List (Str × Jwk Key) → Result (List (Str × Jwk Key))
  unfolding usable_kid declared_alg selected
  collect Entry.other keys = raise (unavailable jwks_entry_not_object)
  collect (Entry.object p) keys = usable_kid p.kid >>= λ kid.
      declared_alg p.alg >>= λ algorithm. selected (loader_of algorithm) p kid algorithm keys

  -- the loop of _parsed
  unfoldable pub collect_all : List Entry → List (Str × Jwk Key) → Result (List (Str × Jwk Key))
  collect_all [] keys = ok keys
  collect_all (e ∷ es) keys = collect e keys >>= λ more. collect_all es more

  -- _document
  document : Document → Result Keys
  document Document.not_json = raise (unavailable jwks_not_json)
  document Document.not_object = raise (unavailable jwks_not_object)
  document (Document.object keys) = ok keys

  published : ℕ → Keys → Result (List (Str × Jwk Key))
  published max_keys Keys.other = raise (unavailable jwks_keys_not_list)
  published max_keys (Keys.list entries) =
      refuse_if (ltb max_keys (length entries)) (unavailable jwks_too_many)
      >> collect_all entries []

  media_of : List Str → Str
  media_of [] = []
  media_of (m ∷ ms) = lower (strip m)

  -- _check_answer
  check_answer : Response → Result (Unit {0})
  unfolding media_of
  check_answer r =
      refuse_if (not (r.status_code == 200)) (unavailable jwks_status)
      >> refuse_if
          (not (
            member (media_of (split_on b';' r.content_type))
              (lit "application/json" ∷ lit "application/jwk-set+json" ∷ [])))
          (unavailable jwks_media)

  -- _parsed
  unfoldable pub parsed : ℕ → Response → Result (List (Str × Jwk Key))
  unfolding check_answer document published
  parsed max_keys r = check_answer r >> (document r.content >>= λ keys. published max_keys keys)

  -- _fetched, of what the transport did
  unfoldable pub fetched : ℕ → Result Response → Result (List (Str × Jwk Key))
  fetched max_keys (ok r) = parsed max_keys r
  fetched max_keys (raise e) =
      if is_better_auth e || is_session_error e
      then raise e
      else if is_exception e
      then raise (unavailable jwks_fetch_failed)
      else raise e
