-- ===== src/Redis.antt =====
-- stores/redis_store.py: the store that reads Better Auth's secondary storage. The client and json.loads are
-- parameters: a value is what json.loads makes of it.
pub mod Laws
use fastapi_better_auth.Base.{
  ℤ, pos, negsuc, ℕ, Bool, true, false, not, Option, none, some, List, [], ◌∷◌, ◌++◌, ltb,
  if◌then◌else◌,
}
use fastapi_better_auth.Text.{Str, is_blank, str_eq}
use fastapi_better_auth.Errors.{
  Raised, configuration, Result, ok, raise, refuse_if, redis_client, bad_prefix, bad_cap,
}
use fastapi_better_auth.Errors.{◌>>=◌ as bind}
use fastapi_better_auth.Exec.{Exec, pure, throw, lift, ◌>>=◌, ◌>>◌}
use fastapi_better_auth.CookieVerifier.{StoredUser, StoredSession, SessionStore}
use fastapi_better_auth.Remote.Document.{Document, parse_session_document, same_text}
use fastapi_better_auth.Remote.Response.{Body}

-- What GET answers: None, a bytes or str value, or anything else. `size` counts its bytes, and is none for a
-- str that cannot be encoded.
pub data Value (Payload : Type 0) : Type 0 where
  absent foreign : Value Payload
  stored : Option ℕ → Body Payload → Value Payload

-- The client: its one command, and its closing.
pub record Client (C Payload : Type 0) : Type 0 where
  pub get : Str → Exec C (Value Payload)
  pub aclose : Exec C (Unit {0})

-- RedisSessionStore: `is_built` tells whether it built its client itself.
pub record Store : Type 0 where
  pub prefix : Str
  pub max_bytes : ℕ
  pub is_built : Bool

-- What the constructor is given: a url, none where it is None and some none where it is no str or blank;
-- whether there is a client; the prefix, none where it is no str; and the cap, none where it is no int.
pub record Arguments : Type 0 where
  pub url : Option (Option Str)
  pub has_client : Bool
  pub key_prefix : Option Str
  pub max_bytes : Option ℤ

-- _validated_prefix
unfoldable pub validated_prefix : Option Str → Result Str
validated_prefix none = raise (configuration bad_prefix)
validated_prefix (some prefix) = ok prefix

-- _validated_cap
unfoldable pub validated_cap : Option ℤ → Result ℕ
validated_cap none = raise (configuration bad_cap)
validated_cap (some (negsuc n)) = raise (configuration bad_cap)
validated_cap (some (pos n)) = if ltb n 1 then raise (configuration bad_cap) else ok n

given : Option (Option Str) → Bool
given none = false
given (some url) = true

-- both or neither of url and client
exactly_one : Bool → Bool → Result (Unit {0})
exactly_one true true = raise (configuration redis_client)
exactly_one false false = raise (configuration redis_client)
exactly_one true false = ok tt
exactly_one false true = ok tt

-- _built_client, whose failures are all refusals of the configuration; `builds` tells whether redis-py
-- is installed and takes the url
built_client : (Str → Bool) → Option (Option Str) → Result (Unit {0})
built_client builds none = ok tt
built_client builds (some none) = raise (configuration redis_client)
built_client builds (some (some url)) =
    if builds url then ok tt else raise (configuration redis_client)

-- RedisSessionStore.__init__
unfoldable pub new_store : (Str → Bool) → Arguments → Result Store
unfolding given exactly_one built_client
new_store builds a = bind (exactly_one (given a.url) a.has_client) (λ _.
    bind (validated_prefix a.key_prefix) (λ prefix. bind (validated_cap a.max_bytes) (λ cap.
      bind (built_client builds a.url)
        (λ _. ok (record { prefix = prefix; max_bytes = cap; is_built = given a.url })))))

module _ {Payload : Type 0} where
  object_of : Body Payload → Option (Document Payload)
  object_of (Body.object d) = some d
  object_of body = none

  sized : ℕ → Option ℕ → Body Payload → Result (Option (Document Payload))
  unfolding object_of
  sized cap none body = raise (Raised.other 0)
  sized cap (some size) body = if ltb cap size then ok none else ok (object_of body)

  -- `_document`, and the test for None before it; the warnings are not modelled
  unfoldable pub document : ℕ → Value Payload → Result (Option (Document Payload))
  unfolding sized
  document cap absent = ok none
  document cap Value.foreign = ok none
  document cap (stored size body) = sized cap size body

  own : Str → Option (StoredSession Payload) → Result (Option (StoredSession Payload))
  own token none = ok none
  own token (some r) = bind (same_text r.token token) (λ same. ok (if same then some r else none))

  -- _record, and the test for None before it
  unfoldable pub record_of :
      (Str → Option ℕ) → Str → Option (Document Payload) → Result (Option (StoredSession Payload))
  unfolding own
  record_of fromisoformat token none = ok none
  record_of fromisoformat token (some d) = own token (parse_session_document fromisoformat d)

  module _ {C : Type 0} (client : Client C Payload) (fromisoformat : Str → Option ℕ)
      (store : Store) where
    asked : Str → Exec C (Option (StoredSession Payload))
    asked token = do
      value ← client.get (store.prefix ++ token)
      d ← lift (document store.max_bytes value)
      lift (record_of fromisoformat token d)

    -- fetch_session_by_token
    unfoldable pub fetch_session_by_token : Str → Exec C (Option (StoredSession Payload))
    unfolding asked
    fetch_session_by_token token = if is_blank token then pure none else asked token

    -- fetch_user_by_id
    unfoldable pub fetch_user_by_id : Str → Exec C (Option (StoredUser Payload))
    fetch_user_by_id user_id = pure none

    -- aclose
    unfoldable pub aclose : Exec C (Unit {0})
    aclose = if store.is_built then client.aclose else pure tt

    -- the store as the cookie verifier takes it
    abbrev pub session_store : SessionStore C Payload
    session_store = record {
      fetch_session_by_token = fetch_session_by_token;
      fetch_user_by_id = fetch_user_by_id;
    }
