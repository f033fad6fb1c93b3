-- ===== src/Cookies/Signed/Laws.antt =====
-- cookie_parsing.py: `parse_signed_value` and what a signed value is.
use fastapi_better_auth.Base.{
  ℕ, ◌≡◌, ◌≢◌, ◌↔◌, ◌≤◌, inl, inr, true, false, some, [], ◌∷◌, ◌++◌, arith, ltb, length,
  Option-cases, ◌∙◌, ap,
}
use fastapi_better_auth.Text.{Str, Bytes, Parts, rpartition}
use fastapi_better_auth.Text.Laws.{rpartition-append, rpartition_found}
use fastapi_better_auth.Codec.{unquote, b64decode}
use fastapi_better_auth.Codec.Base64.{b64decode-no_dot}
use fastapi_better_auth.Errors.{ok}
use fastapi_better_auth.Cookies.Signed.{ParsedCookie, checked_parts, parse_signed_value}

-- What a Better Auth server signs: a token, a dot and 44 base64 characters over 32 bytes,
-- percent-encoded within the size cap.
pub record IsSigned (material : Str) (c : ParsedCookie) : Type 0 where
  pub short : length material ≤ 8192
  pub decoded : unquote material ≡ some (c.token ++ (b'.' ∷ c.signature))
  pub has_token : c.token ≢ []
  pub signature_size : length c.signature ≡ 44
  pub digest : Bytes
  pub digest_of : b64decode c.signature ≡ some digest
  pub digest_size : length digest ≡ 32

le_ltb : (n : ℕ) → n ≤ 8192 → ltb 8192 n ≡ false
le_ltb n h = ground arith

checked_parts_sound :
    (p : Parts) (c : ParsedCookie)
    → checked_parts p ≡ ok c
    → (p.found ≡ true)
      × (p.before ≡ c.token)
      × (p.after ≡ c.signature)
      × (p.before ≢ [])
      × (length p.after ≡ 44)
      × ((d : Bytes) × (b64decode p.after ≡ some d) × (length d ≡ 32))
unfolding checked_parts
checked_parts_sound p c h = elim (Option-cases (b64decode p.after)) [
  | inl bad ↦ absurd (ground arith)
  | inr (d, good) ↦ (
    ground arith,
    ground arith,
    ground arith,
    ground arith,
    ground arith,
    (d, good, ground arith),
  )
]

checked_parts_complete :
    (t s : Str) (d : Bytes)
    → t ≢ []
    → length s ≡ 44
    → b64decode s ≡ some d
    → length d ≡ 32
    → checked_parts (record { before = t; found = true; after = s })
      ≡ ok (record { token = t; signature = s })
unfolding checked_parts
checked_parts_complete t s d ht hs hd k = rw hd (ground arith)

parse_sound : (m : Str) (c : ParsedCookie) → parse_signed_value m ≡ ok c → IsSigned m c
unfolding parse_signed_value
parse_sound m c h = elim (Option-cases (unquote m)) [
  | inl bad ↦ absurd (ground arith)
  | inr (decoded, good) ↦
      let (found, before, after, nonempty, size, (d, digest, digest_size)) =
        checked_parts_sound (rpartition b'.' decoded) c (ground arith) in
      let (whole, _) = rpartition_found b'.' decoded found in
      record {
        short = ground arith;
        decoded = good ∙ ap some (whole ∙ cc);
        has_token = λ e. nonempty (before ∙ e);
        signature_size = rw (← after) size;
        digest = d;
        digest_of = rw (← after) digest;
        digest_size = digest_size;
      }
]

parse_complete : (m : Str) (c : ParsedCookie) → IsSigned m c → parse_signed_value m ≡ ok c
unfolding parse_signed_value
parse_complete m c g =
    rw
      (
        le_ltb (length m) g.short,
        g.decoded,
        rpartition-append b'.' c.token c.signature
            (b64decode-no_dot c.signature g.digest g.digest_of),
      )
      (checked_parts_complete c.token c.signature g.digest g.has_token g.signature_size g.digest_of
        g.digest_size)

-- A cookie value is accepted with a token and a signature exactly when it is the percent-encoding,
-- of at most 8192 characters, of the token, a dot and 44 characters of standard base64 over 32
-- bytes, and the token is not empty. The token may itself hold dots.
pub parse_signed_value_iff :
    (m : Str) (c : ParsedCookie) → (parse_signed_value m ≡ ok c) ↔ IsSigned m c
parse_signed_value_iff m c = (parse_sound m c, parse_complete m c)
