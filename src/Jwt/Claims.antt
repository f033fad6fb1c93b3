-- ===== src/Jwt/Claims.antt =====
-- jwt_verifier.py: the mappings that PyJWT returns, a token's header and its claims.
use fastapi_better_auth.Base.{
  ℤ, ℕ, Bool, true, false, ◌||◌, Option, none, some, List, [], ◌∷◌, if◌then◌else◌,
}
use fastapi_better_auth.Text.{Str, lit, str_eq}

-- A value of JSON, as far as it is told apart. A number is finite and in the smallest unit of time that
-- the claims tell apart; `other` tells one list or object from another by a number.
pub data Value : Type 0 where
  null : Value
  text : Str → Value
  number : ℤ → Value
  flag : Bool → Value
  other : ℕ → Value

-- a dict, in the order of insertion
abbrev pub Mapping : Type 0
Mapping = List (Str × Value)

-- `mapping.get(name)`: an absent member reads as null
unfoldable pub get : Str → Mapping → Value
get name [] = null
get name ((k, v) ∷ m) = if str_eq k name then v else get name m

-- `name in mapping`
unfoldable pub has : Str → Mapping → Bool
has name [] = false
has name ((k, v) ∷ m) = str_eq k name || has name m

-- `{**mapping, name: value}`
unfoldable pub assign : Str → Value → Mapping → Mapping
assign name v [] = (name, v) ∷ []
assign name v ((k, w) ∷ m) = if str_eq k name then (k, v) ∷ m else (k, w) ∷ assign name v m

-- _as_number
unfoldable pub as_number : Value → Option ℤ
as_number (number n) = some n
as_number v = none

unfoldable pub is_null : Value → Bool
is_null null = true
is_null v = false

-- _identified
unfoldable pub identified : Mapping → Mapping
identified claims =
    if is_null (get (lit "id") claims)
    then assign (lit "id") (get (lit "sub") claims) claims
    else claims
