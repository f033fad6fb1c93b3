-- ===== src/Errors/Refusal/Laws.antt =====
-- errors.py: honoured refusals and their headers.
use fastapi_better_auth.Base.{
  ℕ, ◌≡◌, refl, ◌≢◌, ◌⊎◌, inl, inr, Bool, true, false, ◌||◌, Option, none, some, List, [], ◌∷◌, ap,
  map, arith, ◌==◌, all, any, All, Bool-cases, Option-cases, sym,
}
use fastapi_better_auth.Text.{Str, lit, strip, lower, contains}
use fastapi_better_auth.Text.Laws.{str_eq_iff}
use fastapi_better_auth.Errors.{Field, Headers, Status, Refused, ok}
use fastapi_better_auth.Errors.Refusal.{
  Judgement, is_token_char, is_field_name, is_field_value, is_challenge, is_field, field_breach_of,
  text_pairs, plain_pairs, add_pair, judge_headers, is_refusal_status, judge_refusal, plain_status,
  plain_headers, dict_of, built, authorization_refused,
}

-- No character that could end a header line or the response.
abbrev pub IsInert : Str → Type 0
IsInert s = All (λ c. (c ≢ 10) × (c ≢ 13) × (c ≢ 0)) s

all-IsInert :
    (p : ℕ → Bool) (s : Str)
    → ((c : ℕ) → p c ≡ true → (c ≢ 10) × (c ≢ 13) × (c ≢ 0))
    → all p s ≡ true
    → IsInert s
all-IsInert p [] h e = tt
all-IsInert p (c ∷ s) h e = (h c (ground arith), all-IsInert p s h (ground arith))

token_char_inert : (c : ℕ) → is_token_char c ≡ true → (c ≢ 10) × (c ≢ 13) × (c ≢ 0)
unfolding is_token_char contains
token_char_inert c h = ground arith

-- A header that is written with an honoured refusal.
pub record IsSafeHeader (header : Str × Str) : Type 0 where
  pub name : IsInert header.0
  pub value : IsInert header.1
  pub no_challenge : lower (strip header.0) ≢ lit "www-authenticate"

is_field_name-IsInert : (s : Str) → is_field_name s ≡ true → IsInert s
unfolding is_field_name
is_field_name-IsInert [] h = tt
is_field_name-IsInert (c ∷ s) h = all-IsInert is_token_char (c ∷ s) token_char_inert h

is_field_value-IsInert : (s : Str) → is_field_value s ≡ true → IsInert s
unfolding is_field_value
is_field_value-IsInert s h = all-IsInert _ s (λ c e. ground arith) h

no_challenge : (p : Str × Str) → is_challenge p ≡ false → lower (strip p.0) ≢ lit "www-authenticate"
unfolding is_challenge
no_challenge (n, v) h = λ e. ground (arith, str_eq_iff (lower (strip n)) (lit "www-authenticate"))

fields_safe :
    (ps : List (Str × Str))
    → any is_challenge ps ≡ false
    → all is_field ps ≡ true
    → All IsSafeHeader ps
unfolding is_field
fields_safe [] h k = tt
fields_safe ((n, v) ∷ ps) h k = (
  record {
    name = is_field_name-IsInert n (ground arith);
    value = is_field_value-IsInert v (ground arith);
    no_challenge = no_challenge (n, v) (ground arith);
  },
  fields_safe ps (ground arith) (ground arith),
)

add_pair_text :
    (n v : Str) (o : Option (List (Str × Str))) (ps : List (Str × Str))
    → add_pair n v o ≡ some ps
    → (qs : List (Str × Str)) × (o ≡ some qs) × (ps ≡ (n, v) ∷ qs)
unfolding add_pair
add_pair_text n v none ps h = cc
add_pair_text n v (some qs) ps h = (qs, refl, ground arith)

abbrev fields_of : List (Str × Str) → List (Field × Field)
fields_of = map (λ p. (Field.text p.0, Field.text p.1))

plain_pairs_text :
    (fs : List (Field × Field)) (ps : List (Str × Str))
    → plain_pairs fs ≡ some ps
    → fs ≡ fields_of ps
unfolding plain_pairs
plain_pairs_text [] [] h = refl
plain_pairs_text [] (p ∷ ps) h = cc
plain_pairs_text ((Field.text n, Field.text v) ∷ fs) ps h =
    let (qs, e, d) = add_pair_text n v (plain_pairs fs) ps h in
    rw d (ap (◌∷◌ (Field.text n, Field.text v)) (plain_pairs_text fs qs e))
plain_pairs_text ((n, v) ∷ fs) ps h = cc

abbrev pub IsSafe : Option (List (Str × Str)) → Type 0
IsSafe none = Unit
IsSafe (some ps) = All IsSafeHeader ps

judge_headers-IsSafe :
    (h : Headers)
    → (judge_headers h).breach ≡ none
    → IsSafe (judge_headers h).headers × (dict_of (judge_headers h).headers ≡ h)
unfolding judge_headers dict_of field_breach_of text_pairs
judge_headers-IsSafe Headers.absent e = (tt, refl)
judge_headers-IsSafe (Headers.dict fs) e = elim (Option-cases (plain_pairs fs)) [
  | inl bad ↦ absurd (ground arith)
  | inr (ps, good) ↦
      rw (good, judge_headers, text_pairs)
        (
          fields_safe ps (ground arith) (ground arith),
          ap Headers.dict (sym (plain_pairs_text fs ps good)),
        )
]
judge_headers-IsSafe _ e = cc

-- A refusal that the judge lets through is a plain 403 or 404, the headers that it will be written
-- with are the caller's own, and none of them can split the response or carry the challenge.
pub judge_refusal-IsSafe :
    (s : Status) (h : Headers)
    → (judge_refusal s h).breach ≡ none
    → ((s ≡ Status.int 403) ⊎ (s ≡ Status.int 404))
      × IsSafe (judge_refusal s h).headers
      × (dict_of (judge_refusal s h).headers ≡ h)
unfolding judge_refusal is_refusal_status
judge_refusal-IsSafe (Status.int n) h e = elim (Bool-cases (n == 403 || n == 404)) [
  | inl good ↦
      let (safe, same) = judge_headers-IsSafe h (ground arith) in
      (ground arith, rw (good, judge_refusal) safe, rw (good, judge_refusal) same)
  | inr bad ↦ absurd (ground arith)
]
judge_refusal-IsSafe s h e = cc

built-eq-ok :
    (s : Status) (v : Judgement) (r : Refused)
    → built s v ≡ ok r
    → (v.breach ≡ none) × (r.status_code ≡ s) × (r.headers ≡ dict_of v.headers)
unfolding built
built-eq-ok s v r e = ground arith

-- A refusal that was constructed is honoured when it leaves the rule: the judge, asked again about
-- what the constructor kept, finds no breach.
pub authorization_refused-honoured :
    (s : Status) (h : Headers) (r : Refused)
    → authorization_refused s h ≡ ok r
    → (judge_refusal r.status_code r.headers).breach ≡ none
unfolding authorization_refused
authorization_refused-honoured s h r e =
    let (fine, status, headers) = built-eq-ok (plain_status s) _ r e in
    let (_, _, same) = judge_refusal-IsSafe (plain_status s) (plain_headers h) fine in
    rw (status, headers, same) fine
