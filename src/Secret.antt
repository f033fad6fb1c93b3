-- ===== src/Secret.antt =====
-- shared_secret.py: which values a SharedSecret accepts. str.casefold is a parameter here, as a secret
-- may hold any character.
pub mod Laws
use fastapi_better_auth.Base.{
  ℕ, suc, ◌+◌, Bool, true, false, not, Option, none, some, List, [], ◌∷◌, ◌++◌, ltb, leb,
  if◌then◌else◌, length, drop, zero,
}
use fastapi_better_auth.Text.{Str, lit, str_eq, strip, is_blank, is_encodable, starts_with}
use fastapi_better_auth.Errors.{Result, ok, raise, configuration, bad_secret}
use fastapi_better_auth.Cookies.{member}

abbrev pub min_secret_length : ℕ
min_secret_length = 32

abbrev pub placeholder_secrets : List Str
placeholder_secrets =
    lit "better-auth-secret-12345678901234567890"
    ∷ lit "change-me"
    ∷ lit "changeme"
    ∷ lit "credential"
    ∷ lit "default"
    ∷ lit "example"
    ∷ lit "password"
    ∷ lit "placeholder"
    ∷ lit "secret"
    ∷ lit "supersecret"
    ∷ lit "test"
    ∷ lit "todo"
    ∷ lit "your-secret"
    ∷ lit "your-secret-here"
    ∷ []

-- what the constructor is given: a str, or anything else
pub data Value : Type 0 where
  text : Str → Value
  other : Value

-- value[:n]
unfoldable pub take : ℕ → Str → Str
take zero s = []
take (suc n) [] = []
take (suc n) (c ∷ s) = c ∷ take n s

-- value[:-1]
all_but_last : Str → Str
all_but_last [] = []
all_but_last (c ∷ []) = []
all_but_last (c ∷ d ∷ s) = c ∷ all_but_last (d ∷ s)

-- haystack.find(needle): none is the result -1
unfoldable pub find : Str → Str → Option ℕ
find needle [] = if starts_with needle [] then some 0 else none
find needle (c ∷ s) =
    let rest = find needle s in
    if starts_with needle (c ∷ s) then some 0 else elim rest [ none ↦ none | some i ↦ some (suc i) ]

-- haystack.find(needle, 1)
unfoldable pub find_after_first : Str → Str → Option ℕ
find_after_first needle [] = none
find_after_first needle (c ∷ s) = elim (find needle s) [ none ↦ none | some i ↦ some (suc i) ]

-- _repeating_unit
unfoldable pub repeating_unit : Str → Str
unfolding all_but_last
repeating_unit value = elim (find_after_first value (value ++ value)) [
  | none ↦ all_but_last value
  | some period ↦ if leb (length value) period then value else take period value
]

module _ (casefold : Str → Str) where
  -- `_refusal(value) is not None`, its tests in the order of the source
  unfoldable pub is_refused : Str → Bool
  is_refused value =
      if is_blank value
      then true
      else if not (str_eq value (strip value))
      then true
      else if not (is_encodable value)
      then true
      else if member (casefold value) placeholder_secrets
      then true
      else if ltb (length value) min_secret_length
      then true
      else ltb (length (repeating_unit value)) min_secret_length

  -- _accepted
  unfoldable pub accepted : Value → Result Str
  accepted other = raise (configuration bad_secret)
  accepted (text value) = if is_refused value then raise (configuration bad_secret) else ok value
