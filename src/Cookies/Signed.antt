-- ===== src/Cookies/Signed.antt =====
-- cookie_parsing.py: `parse_signed_value`.
pub mod Laws
use fastapi_better_auth.Base.{
  ℕ, Bool, true, false, not, Option, none, some, List, [], ◌∷◌, ltb, ◌==◌, if◌then◌else◌, length,
}
use fastapi_better_auth.Text.{Str, Bytes, Parts, rpartition}
use fastapi_better_auth.Codec.{unquote, b64decode}
use fastapi_better_auth.Errors.{Result, ok, raise, Raised, ◌>>=◌, ◌>>◌, refuse_if, session, Reason}
use fastapi_better_auth.Errors.{invalid_credential}
use fastapi_better_auth.Errors.{
  value_too_long, not_percent_utf8, no_separator, empty_token, signature_length,
  signature_not_base64, signature_bytes,
}
use fastapi_better_auth.Cookies.{max_cookie_bytes, signature_characters, hmac_bytes}

pub record ParsedCookie : Type 0 where
  pub token : Str
  pub signature : Str

-- `if x is None: raise`
abbrev pub required {ℓ} : {A : Type ℓ} → Option A → Raised → Result A
required none e = raise e
required (some a) e = ok a

abbrev pub is_empty : Str → Bool
is_empty [] = true
is_empty (c ∷ s) = false

abbrev invalid : Reason → Raised
invalid = session invalid_credential

checked_parts : Parts → Result ParsedCookie
checked_parts p = do
  refuse_if (not p.found) (invalid no_separator)
  refuse_if (is_empty p.before) (invalid empty_token)
  refuse_if (not (length p.after == signature_characters)) (invalid signature_length)
  digest ← required (b64decode p.after) (invalid signature_not_base64)
  refuse_if (not (length digest == hmac_bytes)) (invalid signature_bytes)
  ok (record { token = p.before; signature = p.after })

unfoldable pub parse_signed_value : Str → Result ParsedCookie
unfolding checked_parts
parse_signed_value material = do
  refuse_if (ltb max_cookie_bytes (length material)) (invalid value_too_long)
  decoded ← required (unquote material) (invalid not_percent_utf8)
  checked_parts (rpartition b'.' decoded)
