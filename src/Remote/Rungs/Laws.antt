-- ===== src/Remote/Rungs/Laws.antt =====
-- remote_verifier.py: what the tests on a cookie let through.
use fastapi_better_auth.Base.{
  ◌≡◌, ◌≢◌, ◌≤◌, refl, sym, ap, ◌∙◌, true, false, Option, some, List, [], ◌∷◌, ◌++◌, length, arith,
  Any, Option-cases, inl, inr, Bool,
}
use fastapi_better_auth.Text.{Str, Bytes, Parts, contains, rpartition, utf8}
use fastapi_better_auth.Text.Laws.{rpartition-append, rpartition_found}
use fastapi_better_auth.Codec.{unquote}
use fastapi_better_auth.Codec.Base64.{b64decode-no_dot}
use fastapi_better_auth.Errors.{Result, ok, raise, ok_of, bind-eq-ok}
use fastapi_better_auth.Cookies.Signed.{ParsedCookie, parse_signed_value}
use fastapi_better_auth.Cookies.Signed.Laws.{IsSigned, parse_signed_value_iff}
use fastapi_better_auth.Signing.{expected, verify_signature}
use fastapi_better_auth.Signing.Laws.{verify_signature_iff, verify_signature_sound}
use fastapi_better_auth.Remote.Rungs.{rung_one, rung_two, token_of, keyring_check, translated}

-- The token of a cookie's value: what stands before the last dot of the decoded value.
pub record IsToken (material token : Str) : Type 0 where
  pub short : length material ≤ 8192
  pub signature : Str
  pub decoded : unquote material ≡ some (token ++ (b'.' ∷ signature))
  pub undotted : contains b'.' signature ≡ false
  pub has_token : token ≢ []
  pub has_signature : signature ≢ []
  pub token_short : length token ≤ 4096

token_of_sound :
    (p : Parts) (t : Str)
    → token_of p ≡ ok t
    → (p.found ≡ true)
      × (p.before ≡ t)
      × (p.before ≢ [])
      × (p.after ≢ [])
      × (length p.before ≤ 4096)
unfolding token_of
token_of_sound p t h = (ground arith, ground arith, ground arith, ground arith, ground arith)

pub rung_one-IsToken :
    (material token : Str) → rung_one material ≡ ok token → IsToken material token
unfolding rung_one
rung_one-IsToken material token h = elim (Option-cases (unquote material)) [
  | inl bad ↦ absurd (ground arith)
  | inr (decoded, good) ↦
      let (found, before, has_token, has_signature, short) =
        token_of_sound (rpartition b'.' decoded) token (ground arith) in
      let (whole, undotted) = rpartition_found b'.' decoded found in
      record {
        short = ground arith;
        signature = (rpartition b'.' decoded).after;
        decoded =
            good ∙ ap some (whole ∙ ap (λ l. l ++ (b'.' ∷ (rpartition b'.' decoded).after)) before);
        undotted = undotted;
        has_token = λ e. has_token (before ∙ e);
        has_signature = has_signature;
        token_short = rw (← before) short;
      }
]

-- both readings of a value find the same token
same_token :
    (material token : Str) (c : ParsedCookie)
    → IsToken material token
    → IsSigned material c
    → c.token ≡ token
same_token material token c t s =
    let k : ◌≡◌ {A = Option Str} (some (c.token ++ (b'.' ∷ c.signature)))
        (some (token ++ (b'.' ∷ t.signature))) =
      sym s.decoded ∙ t.decoded in
    let e : c.token ++ (b'.' ∷ c.signature) ≡ token ++ (b'.' ∷ t.signature) = cc in
    let undotted = b64decode-no_dot c.signature s.digest s.digest_of in
    ap (λ (p : Parts). p.before)
      (sym (rpartition-append b'.' c.token c.signature undotted)
        ∙ (ap (rpartition b'.') e ∙ rpartition-append b'.' token t.signature t.undotted))

-- What a keyring says of a cookie: nothing where it is empty, and else that the value is signed under one of
-- its secrets.
pub data IsGenuine (hmac_sha256 : Bytes → Bytes → Bytes) (secrets : List Str) (material token : Str)
    : Bool → Type 0 where
  unchecked : secrets ≡ [] → IsGenuine hmac_sha256 secrets material token false
  checked :
      (cookie : ParsedCookie)
      → IsSigned material cookie
      → cookie.token ≡ token
      → Any (λ k. cookie.signature ≡ expected hmac_sha256 k (utf8 token)) secrets
      → IsGenuine hmac_sha256 secrets material token true

module _ (hmac_sha256 : Bytes → Bytes → Bytes) where
  keyring_check-IsGenuine :
      (secrets : List Str) (material token : Str) (verified : Bool)
      → IsToken material token
      → keyring_check hmac_sha256 secrets material ≡ ok verified
      → IsGenuine hmac_sha256 secrets material token verified
  unfolding keyring_check
  keyring_check-IsGenuine secrets material token verified t h =
      let (cookie, parses, h₁) = bind-eq-ok (parse_signed_value material) _ h in
      let (_, matches, h₂) =
        bind-eq-ok (verify_signature hmac_sha256 secrets cookie.token cookie.signature) _ h₁ in
      let signed = (parse_signed_value_iff material cookie).0 parses in
      let same = same_token material token cookie t signed in
      let (encodable, ascii) =
        verify_signature_sound hmac_sha256 secrets cookie.token cookie.signature matches in
      rw (← ok_of h₂) (
        IsGenuine.checked cookie signed same (
          rw (← same) (
            (verify_signature_iff hmac_sha256 secrets cookie.token cookie.signature encodable
                ascii).0
              matches)))

  pub rung_two-IsGenuine :
      (secrets : List Str) (material token : Str) (verified : Bool)
      → IsToken material token
      → rung_two hmac_sha256 secrets material ≡ ok verified
      → IsGenuine hmac_sha256 secrets material token verified
  unfolding rung_two
  rung_two-IsGenuine [] material token verified t h = rw (← ok_of h) (IsGenuine.unchecked refl)
  rung_two-IsGenuine (k ∷ ks) material token verified t h =
      keyring_check-IsGenuine (k ∷ ks) material token verified t h

-- nothing that was raised becomes an answer
pub translated_answer : {A : Type 0} (r : Result A) (a : A) → translated r ≡ ok a → r ≡ ok a
unfolding translated
translated_answer (ok b) a h = h
translated_answer (raise e) a h = absurd (ground arith)
