-- ===== src/Tests/Parsing.antt =====
-- Inputs of the cookie parser, the base64 codec, the signature check and the labels.
use mathlib.Core.List.{Perm}
use mathlib.Core.List.Perm
use fastapi_better_auth.Base.{
  ◌≡◌, refl, inl, inr, true, List, [], ◌∷◌, ◌++◌, arith, All, all, ltb, ◌<◌,
}
use fastapi_better_auth.Text.{
  Str, Bytes, lit, str_eq, contains, is_ascii, is_encodable, starts_with,
}
use fastapi_better_auth.Codec.{b64encode, b64decode, unquote}
use fastapi_better_auth.Errors.{ok}
use fastapi_better_auth.Cookies.{Pair, chunk_name}
use fastapi_better_auth.Cookies.Chunks.{resolve_named_cookie, whole_values, chunks_of, is_chunk}
use fastapi_better_auth.Cookies.Chunks.Laws.{Carries, resolve_named_cookie_iff}
use fastapi_better_auth.Cookies.Chunks.RoundTrip.{resolve_named_cookie-chunk_cookies}
use fastapi_better_auth.Cookies.Signed.{ParsedCookie, parse_signed_value}
use fastapi_better_auth.Cookies.Signed.Laws.{IsSigned, parse_signed_value_iff}
use fastapi_better_auth.Signing.{expected, verify_signature}
use fastapi_better_auth.Signing.Laws.{verify_signature_iff}
use fastapi_better_auth.Labels.{first_prefix, base_of}
use fastapi_better_auth.Labels.Laws.{IsBare, base_of_loop}

abbrev in_order : List Pair
in_order = (chunk_name (lit "s") 0, lit "x") ∷ (chunk_name (lit "s") 1, lit "yz") ∷ []

abbrev swapped : List Pair
swapped = (chunk_name (lit "s") 1, lit "yz") ∷ (chunk_name (lit "s") 0, lit "x") ∷ []

are_swapped : Perm swapped in_order
are_swapped = Perm.swap (chunk_name (lit "s") 0, lit "x") (chunk_name (lit "s") 1, lit "yz") []

resolve_named_cookie-chunk_cookies_example :
    resolve_named_cookie swapped (lit "s") ≡ ok (lit "s", lit "xyz")
resolve_named_cookie-chunk_cookies_example =
    resolve_named_cookie-chunk_cookies swapped (lit "s") (lit "x") (lit "yz" ∷ []) (omega arith)
      (omega arith) are_swapped

resolve_named_cookie_iff_example :
    resolve_named_cookie ((lit "s", lit "v") ∷ []) (lit "s") ≡ ok (lit "s", lit "v")
unfolding whole_values chunks_of is_chunk str_eq starts_with
resolve_named_cookie_iff_example =
    (resolve_named_cookie_iff ((lit "s", lit "v") ∷ []) (lit "s") (lit "s") (lit "v")).1
      (refl, Carries.whole refl refl)

bytes_of : (s : Bytes) → all (λ b. ltb b 256) s ≡ true → All (λ b. b < 256) s
bytes_of [] h = tt
bytes_of (b ∷ s) h = (ground arith, bytes_of s (ground arith))

abbrev pub toy_hmac : Bytes → Bytes → Bytes
toy_hmac k m =
    1 ∷ 2 ∷ 3 ∷ 4 ∷ 5 ∷ 6 ∷ 7 ∷ 8 ∷ 9 ∷ 10 ∷ 11 ∷ 12 ∷ 13 ∷ 14 ∷ 15 ∷ 16 ∷ 17 ∷ 18 ∷ 19 ∷ 20 ∷ 21
    ∷ 22 ∷ 23 ∷ 24 ∷ 25 ∷ 26 ∷ 27 ∷ 28 ∷ 29 ∷ 30 ∷ 31 ∷ 32 ∷ []

abbrev pub toy_signature : Str
toy_signature = lit "AQIDBAUGBwgJCgsMDQ4PEBESExQVFhcYGRobHB0eHyA="

abbrev pub material : Str
material = lit "tok%2Een." ++ toy_signature

abbrev pub cookie : ParsedCookie
cookie = record { token = lit "tok.en"; signature = toy_signature }

pub cookie-IsSigned : IsSigned material cookie
unfolding unquote b64decode contains
cookie-IsSigned = record {
  short = omega arith;
  decoded = refl;
  has_token = λ e. cc;
  signature_size = omega arith;
  digest = toy_hmac [] [];
  digest_of = refl;
  digest_size = omega arith;
}

parse_signed_value_iff_example : parse_signed_value material ≡ ok cookie
parse_signed_value_iff_example = (parse_signed_value_iff material cookie).1 cookie-IsSigned

verify_signature_iff_example :
    verify_signature toy_hmac (lit "old" ∷ lit "new" ∷ []) (lit "tok.en") toy_signature ≡ ok tt
unfolding is_encodable is_ascii expected b64encode
verify_signature_iff_example =
    (verify_signature_iff toy_hmac (lit "old" ∷ lit "new" ∷ []) (lit "tok.en") toy_signature refl
        refl).1
      (inr (inl refl))

pub toy_bytes : (k m : Bytes) → All (λ b. b < 256) (toy_hmac k m)
toy_bytes k m = bytes_of (toy_hmac k m) refl

base_of_loop_example :
    (base_of (lit "__secure-__host-x") ≡ base_of (lit "__host-x"))
    × IsBare (base_of (lit "__secure-__host-x"))
unfolding first_prefix starts_with
base_of_loop_example = base_of_loop (lit "__secure-__host-x")
