-- ===== src/Tests/Policy.antt =====
-- Inputs of the CSRF policies, and a secret.
use fastapi_better_auth.Base.{◌≡◌, refl, inl, inr, false, some, List, [], ◌∷◌, arith, All}
use fastapi_better_auth.Text.{
  Str, lit, contains, is_ascii, is_blank, is_encodable, utf8, is_space, casefold, strip, str_eq,
  starts_with,
}
use fastapi_better_auth.Errors.{ok}
use fastapi_better_auth.Csrf.{CsrfFacts, signed_check, token_for, hex, hex_digit}
use fastapi_better_auth.Csrf.Origin.{IsPlain, IsSameSite}
use fastapi_better_auth.Csrf.Token.{CarriesToken, signed_check_iff}
use fastapi_better_auth.Cookies.{member}
use fastapi_better_auth.Secret.{text, accepted, is_refused, repeating_unit, find, find_after_first}
use fastapi_better_auth.Secret.Laws.{IsStrong, accepted-IsStrong}
use fastapi_better_auth.Tests.Parsing.{toy_hmac, toy_bytes}

abbrev origins : List Str
origins = lit "https://app.example.com" ∷ []

origins-IsPlain : All IsPlain origins
unfolding is_ascii contains
origins-IsPlain = ((refl, refl), tt)

abbrev posted : Str → CsrfFacts
posted value = record {
  method = some (lit "POST");
  origin = some (lit "https://app.example.com");
  origin_count = 1;
  sec_fetch_site = some (lit "same-origin");
  header_name = some (lit "x-csrf");
  header_value = some value;
  websocket = false;
}

same_site : (value : Str) → IsSameSite origins (posted value)
unfolding is_blank is_space casefold strip
same_site value = record {
  not_cross = λ site e k. let same : lit "same-origin" ≡ site = cc in cc (rw (← same) at k);
  origin = lit "https://app.example.com";
  carried = refl;
  not_blank = refl;
  once = omega arith;
  listed = inl refl;
}

abbrev token : Str
token = token_for toy_hmac (lit "secret") (lit "tok")

carries : CarriesToken toy_hmac toy_bytes (lit "secret") (posted token) (lit "x-csrf") (lit "tok")
unfolding token_for hex hex_digit utf8 is_blank is_space is_encodable
carries = record {
  value = token;
  sent = record { captured = refl; carried = refl; not_blank = refl };
  encodable = refl;
  bound = refl;
}

signed_check_iff_example :
    signed_check toy_hmac
      (lit "secret")
      origins
      (lit "x-csrf")
      (posted (token_for toy_hmac (lit "secret") (lit "tok")))
      (lit "tok")
    ≡ ok false
signed_check_iff_example =
    (signed_check_iff toy_hmac toy_bytes (lit "secret") origins (lit "x-csrf")
        (posted (token_for toy_hmac (lit "secret") (lit "tok"))) (lit "tok") origins-IsPlain).1
      (inr (same_site _, carries))

abbrev secret : Str
secret = lit "q7Xw2Lr9Zp4Vn8Kd1Tb6Yh3Mc5Gf0JsAe"

accepts : accepted (λ s. s) (text secret) ≡ ok secret
unfolding accepted is_refused is_blank is_space strip is_encodable member str_eq repeating_unit
    find_after_first find starts_with
accepts = refl

accepted-IsStrong_example : (secret ≡ secret) × IsStrong (λ s. s) secret
accepted-IsStrong_example = accepted-IsStrong (λ s. s) secret secret accepts
