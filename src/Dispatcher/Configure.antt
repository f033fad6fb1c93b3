-- ===== src/Dispatcher/Configure.antt =====
-- core.py: what BetterAuth's constructor checks of its verifiers (`_validated`).
pub mod Laws
use fastapi_better_auth.Base.{
  ℕ, ◌==◌, Bool, true, false, not, ◌&&◌, Option, none, some, List, [], ◌∷◌, ◌++◌, any,
  if◌then◌else◌,
}
use fastapi_better_auth.Text.{Str, str_eq, is_blank}
use fastapi_better_auth.Errors.{Result, ok, raise, configuration, refuse_if, ◌>>=◌, ◌>>◌}
use fastapi_better_auth.Errors.{
  not_a_sequence, no_verifiers, not_a_verifier, not_callable, async_extract, blank_source,
  listed_twice, one_credential,
}
use fastapi_better_auth.Labels.{collision_key}

-- An object that has the attributes of the Verifier protocol. A source that is no str is `none`.
pub record Candidate : Type 0 where
  pub identity : ℕ
  pub extract_callable : Bool
  pub verify_callable : Bool
  pub credential_source : Option Str
  pub async : Bool

pub data Entry : Type 0 where
  candidate : Candidate → Entry
  foreign : Entry

pub data Supplied : Type 0 where
  sequence : List Entry → Supplied
  other : Supplied

-- a verifier that passed, with the source that it declares
pub record Named : Type 0 where
  pub identity : ℕ
  pub credential_source : Str

-- _validate_source
validate_source : Option Str → Result Str
validate_source none = raise (configuration blank_source)
validate_source (some s) = if is_blank s then raise (configuration blank_source) else ok s

-- _validate_verifier
unfoldable pub validate_verifier : Entry → Result Named
unfolding validate_source
validate_verifier foreign = raise (configuration not_a_verifier)
validate_verifier (candidate c) = do
  refuse_if (not c.extract_callable) (configuration not_callable)
  refuse_if (not c.verify_callable) (configuration not_callable)
  source ← validate_source c.credential_source
  refuse_if c.async (configuration async_extract)
  ok (record { identity = c.identity; credential_source = source })

-- `checked is earlier`
abbrev pub same : Named → Named → Bool
same v s = v.identity == s.identity

-- the test of _reject_collision
abbrev pub collides : Named → Named → Bool
collides v s = str_eq (collision_key s.credential_source) (collision_key v.credential_source)

-- the loop of _validated
validated_from : List Named → List Entry → Result (List Named)
validated_from seen [] = ok []
validated_from seen (e ∷ es) = do
  v ← validate_verifier e
  refuse_if (any (same v) seen) (configuration listed_twice)
  refuse_if (any (collides v) seen) (configuration one_credential)
  vs ← validated_from (seen ++ (v ∷ [])) es
  ok (v ∷ vs)

-- _validated
unfoldable pub validated : Supplied → Result (List Named)
unfolding validated_from
validated other = raise (configuration not_a_sequence)
validated (sequence []) = raise (configuration no_verifiers)
validated (sequence (e ∷ es)) = validated_from [] (e ∷ es)
