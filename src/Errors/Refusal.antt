-- ===== src/Errors/Refusal.antt =====
-- errors.py: `judge_refusal` and what it calls, and the constructor of AuthorizationRefused.
pub mod Laws
use fastapi_better_auth.Base.{
  ℕ, Bool, false, ◌&&◌, ◌||◌, Option, none, some, List, [], ◌∷◌, map, leb, ◌==◌, if◌then◌else◌, all,
  any,
}
use fastapi_better_auth.Text.{Str, lit, str_eq, strip, lower, contains}
use fastapi_better_auth.Errors.{Field, Headers, Status, Refused, Result, ok, raise, value_error}
use fastapi_better_auth.Errors.{misbuilt_refusal}

pub data Breach : Type 0 where
  status_breach headers_breach challenge_breach field_breach : Breach

pub record Judgement : Type 0 where
  pub breach : Option Breach
  pub headers : Option (List (Str × Str))

-- FIELD_NAME.fullmatch
unfoldable pub is_token_char : ℕ → Bool
is_token_char c =
    (leb 48 c && leb c 57)
    || (leb 65 c && leb c 90)
    || (leb 97 c && leb c 122)
    || contains c (lit "!#$%&'*+-.^_`|~")

unfoldable pub is_field_name : Str → Bool
unfolding is_token_char
is_field_name [] = false
is_field_name (c ∷ s) = all is_token_char (c ∷ s)

-- FIELD_VALUE.fullmatch
unfoldable pub is_field_value : Str → Bool
is_field_value s = all (λ c. c == 9 || (leb 32 c && leb c 126)) s

add_pair : Str → Str → Option (List (Str × Str)) → Option (List (Str × Str))
add_pair n v none = none
add_pair n v (some ps) = some ((n, v) ∷ ps)

plain_pairs : List (Field × Field) → Option (List (Str × Str))
plain_pairs [] = some []
plain_pairs ((Field.text n, Field.text v) ∷ fs) = add_pair n v (plain_pairs fs)
plain_pairs ((n, v) ∷ fs) = none

-- _text_pairs
unfoldable pub text_pairs : Headers → Option (List (Str × Str))
unfolding plain_pairs add_pair
text_pairs (Headers.dict fs) = plain_pairs fs
text_pairs h = none

-- `name.strip().lower() == CHALLENGE_HEADER`
unfoldable pub is_challenge : Str × Str → Bool
is_challenge (name, value) = str_eq (lower (strip name)) (lit "www-authenticate")

unfoldable pub is_field : Str × Str → Bool
unfolding is_field_name is_field_value
is_field (name, value) = is_field_name name && is_field_value value

unfoldable pub field_breach_of : List (Str × Str) → Option Breach
unfolding is_challenge is_field
field_breach_of pairs =
    if any is_challenge pairs
    then some challenge_breach
    else if all is_field pairs
    then none
    else some field_breach

judge_headers : Headers → Judgement
unfolding field_breach_of
judge_headers Headers.absent = record { breach = none; headers = none }
judge_headers h = elim (text_pairs h) [
  | none ↦ record { breach = some headers_breach; headers = none }
  | some pairs ↦ record { breach = field_breach_of pairs; headers = some pairs }
]

-- `type(status_code) is int and status_code in REFUSAL_STATUSES`
unfoldable pub is_refusal_status : Status → Bool
is_refusal_status (Status.int n) = n == 403 || n == 404
is_refusal_status s = false

unfoldable pub judge_refusal : Status → Headers → Judgement
unfolding judge_headers is_refusal_status
judge_refusal status headers =
    if is_refusal_status status
    then judge_headers headers
    else record { breach = some status_breach; headers = none }

add_copy : Str → Str → Option (List (Field × Field)) → Option (List (Field × Field))
add_copy n v none = none
add_copy n v (some ps) = some ((Field.text n, Field.text v) ∷ ps)

unfoldable pub plain_status : Status → Status
plain_status (Status.int_subclass n) = Status.int n
plain_status s = s

-- the loop of _plain_headers: `none` where an entry is no str
copied : List (Field × Field) → Option (List (Field × Field))
copied [] = some []
copied ((Field.foreign, v) ∷ fs) = none
copied ((Field.text n, Field.foreign) ∷ fs) = none
copied ((Field.text n, Field.text v) ∷ fs) = add_copy n v (copied fs)
copied ((Field.text n, Field.text_subclass v) ∷ fs) = add_copy n v (copied fs)
copied ((Field.text_subclass n, Field.foreign) ∷ fs) = none
copied ((Field.text_subclass n, Field.text v) ∷ fs) = add_copy n v (copied fs)
copied ((Field.text_subclass n, Field.text_subclass v) ∷ fs) = add_copy n v (copied fs)

unfoldable pub plain_headers : Headers → Headers
unfolding copied add_copy
plain_headers (Headers.dict fs) = elim (copied fs) [
  | none ↦ Headers.dict fs
  | some ps ↦ Headers.dict ps
]
plain_headers (Headers.mapping fs) = elim (copied fs) [
  | none ↦ Headers.mapping fs
  | some ps ↦ Headers.dict ps
]
plain_headers h = h

unfoldable pub dict_of : Option (List (Str × Str)) → Headers
dict_of none = Headers.absent
dict_of (some pairs) = Headers.dict (map (λ p. (Field.text p.0, Field.text p.1)) pairs)

built : Status → Judgement → Result Refused
unfolding dict_of
built status verdict = elim verdict.breach [
  | none ↦ ok (record { status_code = status; headers = dict_of verdict.headers })
  | some b ↦ raise (value_error misbuilt_refusal)
]

-- AuthorizationRefused.__init__
unfoldable pub authorization_refused : Status → Headers → Result Refused
unfolding built plain_status plain_headers judge_refusal
authorization_refused status_code headers =
    let status = plain_status status_code in
    built status (judge_refusal status (plain_headers headers))
