-- ===== src/Jwks.antt =====
-- jwks.py: the client that keeps a key set. A clock reading is a number in the smallest unit. The lock
-- makes what `key_for` does under it one step.
pub mod Parse
pub mod Window
pub mod Misses
pub mod Reach
use fastapi_better_auth.Base.{
  ℕ, ◌+◌, Bool, true, false, ◌&&◌, Option, none, some, List, [], ◌∷◌, leb, ltb, if◌then◌else◌,
  length,
}
use fastapi_better_auth.Text.{Str, str_eq}
use fastapi_better_auth.Errors.{Raised, session, Result, ok, raise, SessionKind}
use fastapi_better_auth.Errors.{jwks_kid_unconfirmed}
use fastapi_better_auth.Exec.{Exec, pure, throw, ◌>>=◌}
use fastapi_better_auth.Jwks.Parse.{Response, Jwk, Library, lookup, fetched, unavailable}

pub record Config : Type 0 where
  pub algorithms : List Str
  pub cache_ttl : ℕ
  pub negative_ttl : ℕ
  pub refetch_interval : ℕ
  pub max_keys : ℕ

-- The client's state: `keys` with the reading at which they came, the last attempt, and the misses.
pub record Client (Key : Type 0) : Type 0 where
  pub keys : Option (List (Str × Jwk Key))
  pub fetched_at : Option ℕ
  pub attempted_at : Option ℕ
  pub missing : List (Str × ℕ)

abbrev pub new_client : {Key : Type 0} → Client Key
new_client = record { keys = none; fetched_at = none; attempted_at = none; missing = [] }

-- The clock's readings of one call, in the order in which the code takes them.
pub record Times : Type 0 where
  pub outside : ℕ
  pub inside : ℕ
  pub window : ℕ
  pub started : ℕ
  pub fetched : ℕ
  pub recalled : ℕ
  pub answered : ℕ
  pub noted : ℕ

abbrev pub max_remembered_misses : ℕ
max_remembered_misses = 256

unfoldable pub get : Str → List (Str × ℕ) → Option ℕ
get kid [] = none
get kid ((k, at) ∷ missing) = if str_eq k kid then some at else get kid missing

unfoldable pub delete : Str → List (Str × ℕ) → List (Str × ℕ)
delete kid [] = []
delete kid ((k, at) ∷ missing) =
    let rest = delete kid missing in if str_eq k kid then rest else (k, at) ∷ rest

unfoldable pub assign : Str → ℕ → List (Str × ℕ) → List (Str × ℕ)
assign kid now [] = (kid, now) ∷ []
assign kid now ((k, at) ∷ missing) =
    let rest = assign kid now missing in if str_eq k kid then (k, now) ∷ missing else (k, at) ∷ rest

-- the loop of _remember
unfoldable pub evict : List (Str × ℕ) → List (Str × ℕ)
evict [] = []
evict (e ∷ missing) =
    let rest = evict missing in
    if leb max_remembered_misses (length (e ∷ missing)) then rest else e ∷ missing

-- `isinstance(e, AuthServiceUnavailable)`
unfoldable pub is_unavailable : Raised → Bool
is_unavailable (session SessionKind.auth_service_unavailable r) = true
is_unavailable e = false

module _ (config : Config) where
  -- `self._clock() - at < ttl`, where `at` is not None
  abbrev pub within : ℕ → Option ℕ → ℕ → Bool
  within now none ttl = false
  within now (some at) ttl = ltb now (at + ttl)

  module _ {Key : Type 0} where
    -- _is_fresh
    unfoldable pub is_fresh : ℕ → Client Key → Bool
    is_fresh now c = within now c.fetched_at config.cache_ttl

    unfoldable pub keys_of : Option (List (Str × Jwk Key)) → List (Str × Jwk Key)
    keys_of none = []
    keys_of (some keys) = keys

    -- `None if keys is None else keys.get(kid)`
    unfoldable pub on_hand : Str → Client Key → Option (Jwk Key)
    unfolding keys_of
    on_hand kid c = lookup kid (keys_of c.keys)

    -- _fresh_hit
    unfoldable pub fresh_hit : ℕ → Str → Client Key → Option (Jwk Key)
    fresh_hit now kid c = if is_fresh now c then on_hand kid c else none

    -- _may_fetch
    unfoldable pub may_fetch : ℕ → Client Key → Bool
    may_fetch now c = elim c.attempted_at [
      | none ↦ true
      | some at ↦ leb (at + config.refetch_interval) now
    ]

    -- _remember
    unfoldable pub remember : ℕ → Str → Client Key → Client Key
    remember now kid c = record c { missing = assign kid now (evict c.missing) }

    -- _is_remembered
    unfoldable pub is_remembered : ℕ → Str → Client Key → Client Key × Bool
    is_remembered now kid c = elim (get kid c.missing) [
      | none ↦ (c, false)
      | some at ↦
          if leb (at + config.negative_ttl) now
          then (record c { missing = delete kid c.missing }, false)
          else (c, true)
    ]

    is_some : Option (List (Str × Jwk Key)) → Bool
    is_some none = false
    is_some (some keys) = true

    -- _answer
    unfoldable pub answer : Times → Str → Exec (Client Key) (Option (Jwk Key))
    unfolding is_some
    answer t kid c = elim (on_hand kid c) [
      | some jwk ↦ (ok (some jwk), c)
      | none ↦
          if is_some c.keys && is_fresh t.answered c
          then (ok none, remember t.noted kid c)
          else (raise (unavailable jwks_kid_unconfirmed), c)
    ]

    module _ (library : Library Key) (cancelled : Raised → Bool) where
      -- the handlers of _refresh, of a fetch that raised; `previous` is the state before the attempt
      failed : Raised → Client Key → Client Key → Result (Unit {0}) × Client Key
      unfolding is_some
      failed e previous c =
          if is_unavailable e
          then (if is_some c.keys then (ok tt, c) else (raise e, c))
          else if cancelled e
          then (raise e, record c { attempted_at = previous.attempted_at })
          else (raise e, c)

      -- _refresh, of what the transport did
      unfoldable pub refresh : Times → Result Response → Exec (Client Key) (Unit {0})
      unfolding failed
      refresh t response c =
          let attempted = record c { attempted_at = some t.started } in
          elim (fetched library config.algorithms config.max_keys response) [
            | ok keys ↦ (
              ok tt,
              record attempted { keys = some keys; fetched_at = some t.fetched; missing = [] },
            )
            | raise e ↦ failed e c attempted
          ]

      recalled : Times → Str → Client Key × Bool → Result (Option (Jwk Key)) × Client Key
      recalled t kid (c, true) = (ok none, c)
      recalled t kid (c, false) = answer t kid c

      -- what key_for does under the lock
      unfoldable pub locked : Times → Str → Result Response → Exec (Client Key) (Option (Jwk Key))
      unfolding recalled
      locked t kid response c = elim (fresh_hit t.inside kid c) [
        | some jwk ↦ (ok (some jwk), c)
        | none ↦
            if may_fetch t.window c
            then (refresh t response >>= λ _. answer t kid) c
            else recalled t kid (is_remembered t.recalled kid c)
      ]

      -- JwksClient.key_for
      unfoldable pub key_for : Times → Str → Result Response → Exec (Client Key) (Option (Jwk Key))
      key_for t kid response c = elim (fresh_hit t.outside kid c) [
        | some jwk ↦ (ok (some jwk), c)
        | none ↦ locked t kid response c
      ]
