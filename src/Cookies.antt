-- ===== src/Cookies.antt =====
-- cookie_parsing.py: a raw Cookie header down to a token and its signature. This file has the
-- splitting of the header and the names; the children have the chunks and the signed value.
pub mod Chunks
pub mod Signed
pub mod RoundTrip
use fastapi_better_auth.Base.{
  ℕ, zero, suc, ◌+◌, ◌-◌, String, Bool, true, false, Option, none, some, List, [], ◌∷◌, ◌++◌, ltb,
  if◌then◌else◌, length,
}
use fastapi_better_auth.Text.{Str, lit, str_eq, strip, split_on, partition, Parts, decimal}

abbrev pub max_cookie_bytes : ℕ
max_cookie_bytes = 8192

abbrev pub max_chunks : ℕ
max_chunks = 100

abbrev pub signature_characters : ℕ
signature_characters = 44

abbrev pub hmac_bytes : ℕ
hmac_bytes = 32

abbrev pub max_cookie_header_bytes : ℕ
max_cookie_header_bytes = 16384

abbrev pub max_cookie_pairs : ℕ
max_cookie_pairs = 512

-- a cookie's name and its value
abbrev pub Pair : Type 0
Pair = Str × Str

add_pair : Parts → List Pair → List Pair
add_pair p rest = if p.found then (strip p.before, strip p.after) ∷ rest else rest

pairs_of : List Str → List Pair
unfolding add_pair
pairs_of [] = []
pairs_of (fragment ∷ rest) = add_pair (partition b'=' (strip fragment)) (pairs_of rest)

-- cookie_pairs
unfoldable pub cookie_pairs : Str → List Pair
unfolding pairs_of
cookie_pairs header = pairs_of (split_on b';' header)

-- f"{base}.{index}"
unfoldable pub chunk_name : Str → ℕ → Str
chunk_name base index = base ++ (b'.' ∷ decimal index)

chunk_names_from : Str → ℕ → ℕ → List Str
chunk_names_from base i zero = []
chunk_names_from base i (suc n) = chunk_name base i ∷ chunk_names_from base (i + 1) n

-- acceptable_names: the base and each of its chunk names
unfoldable pub acceptable_names : Str → List Str
unfolding chunk_names_from
acceptable_names base = base ∷ chunk_names_from base 0 max_chunks

unfoldable pub member : Str → List Str → Bool
member s [] = false
member s (t ∷ ts) = if str_eq s t then true else member s ts

abbrev session_token_suffix : Str
session_token_suffix = lit ".session_token"

-- str.endswith with the part before it
remove_suffix : Str → Str → Option Str
remove_suffix suffix [] = if str_eq suffix [] then some [] else none
remove_suffix suffix (c ∷ s) =
    if str_eq suffix (c ∷ s)
    then some []
    else elim (remove_suffix suffix s) [ none ↦ none | some t ↦ some (c ∷ t) ]

data_name : Option Str → Str
data_name none = lit "better-auth.session_data"
data_name (some stem) = stem ++ lit ".session_data"

-- session_data_names, the one name of its set
unfoldable pub session_data_name : Str → Str → Bool → Str
unfolding remove_suffix data_name
session_data_name cookie_name secure_prefix secure_cookies =
    let name = data_name (remove_suffix session_token_suffix cookie_name) in
    if secure_cookies then secure_prefix ++ name else name
