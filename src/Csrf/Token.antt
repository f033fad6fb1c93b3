-- ===== src/Csrf/Token.antt =====
-- csrf.py: SignedDoubleSubmit and `enforce_policy`.
use fastapi_better_auth.Base.{
  ℕ, ◌/◌, ◌%◌, ◌<◌, ◌≡◌, refl, sym, ◌↔◌, ◌⊎◌, inl, inr, true, false, List, [], ◌∷◌, map, arith,
  ◌==◌, All, Bool-cases,
}
use fastapi_better_auth.Text.{Str, Bytes, utf8, is_ascii, is_encodable, contains}
use fastapi_better_auth.Text.Laws.{str_eq_iff}
use fastapi_better_auth.Text.Utf8.{utf8_ascii, eq_of_utf8}
use fastapi_better_auth.Errors.{bind-eq-ok, ok}
use fastapi_better_auth.Csrf.{
  CsrfFacts, CsrfPolicy, requires_check, reject_bad_origin, presented_header, hex, hex_digit,
  token_for, reject_forged_token, signed_check, enforce_policy,
}
use fastapi_better_auth.Csrf.Origin.{
  IsPlain, IsExempt, IsSameSite, HasHeader, requires_check_iff, reject_bad_origin_iff,
  presented_header_iff,
}

hex_digit-plain : (v : ℕ) → v < 16 → (hex_digit v < 128) × ((hex_digit v == 63) ≡ false)
unfolding hex_digit
hex_digit-plain v h = ground arith

hex-IsPlain : (bs : Bytes) → All (λ b. b < 256) bs → IsPlain (hex bs)
unfolding hex is_ascii contains
hex-IsPlain [] h = (refl, refl)
hex-IsPlain (b ∷ bs) (k, h) =
    let (p, q) = hex_digit-plain (b / 16) (omega arith) in
    let (r, s) = hex_digit-plain (b % 16) (omega arith) in
    let (t, u) = hex-IsPlain bs h in (ground (arith, t), ground (arith, u))

module _ (hmac_sha256 : Bytes → Bytes → Bytes)
    (hmac_bytes : (k m : Bytes) → All (λ b. b < 256) (hmac_sha256 k m)) (secret : Str) where
  token_for-IsPlain : (token : Str) → IsPlain (token_for hmac_sha256 secret token)
  unfolding token_for
  token_for-IsPlain token = hex-IsPlain _ (hmac_bytes _ _)

  forged_iff :
      (token presented : Str)
      → (reject_forged_token hmac_sha256 secret token presented ≡ ok tt)
        ↔ ((is_encodable token ≡ true) × (presented ≡ token_for hmac_sha256 secret token))
  unfolding reject_forged_token
  forged_iff token presented =
      let digest : Str = token_for hmac_sha256 secret token in
      let (ascii, plain) = token_for-IsPlain token in
      (
        λ h. (
          ground arith,
          eq_of_utf8 presented digest ascii plain
              (sym ((str_eq_iff digest (utf8 presented)).0 (ground arith))),
        ),
        λ (e, b). rw b (
            ground (arith, e, (str_eq_iff digest (utf8 digest)).1 (sym (utf8_ascii digest ascii)))),
      )

  -- What a request must carry to pass: the token of exactly this session, in the configured header
  -- that its snapshot was taken for.
  pub record CarriesToken (facts : CsrfFacts) (header session_token : Str) : Type 0 where
    pub value : Str
    pub sent : HasHeader facts header value
    pub encodable : is_encodable session_token ≡ true
    pub bound : value ≡ token_for hmac_sha256 secret session_token

  -- Over an allowlist of plain origins, SignedDoubleSubmit allows a request exactly when it needs
  -- no check, or its browser presents it as coming from a listed origin and its header carries the
  -- HMAC, under the server's secret, of the session token that authenticates it.
  pub signed_check_iff :
      (allowed : List Str) (header : Str) (facts : CsrfFacts) (token : Str)
      → All IsPlain allowed
      → (signed_check hmac_sha256 secret allowed header facts token ≡ ok false)
        ↔ (IsExempt facts ⊎ (IsSameSite allowed facts × CarriesToken facts header token))
  unfolding signed_check
  signed_check_iff allowed header facts token plain =
      (sound (Bool-cases (requires_check facts)), complete)
    where
      sound :
          (requires_check facts ≡ true) ⊎ (requires_check facts ≡ false)
          → signed_check hmac_sha256 secret allowed header facts token ≡ ok false
          → IsExempt facts ⊎ (IsSameSite allowed facts × CarriesToken facts header token)
      sound (inr safe) h = inl ((requires_check_iff facts).0 safe)
      sound (inl unsafe) h =
          let (_, same, h1) =
            bind-eq-ok (reject_bad_origin facts (map utf8 allowed)) _
              (rw (unsafe, signed_check) at h) in
          let (v, sent, h2) = bind-eq-ok (presented_header facts header) _ h1 in
          let (_, real, h3) = bind-eq-ok (reject_forged_token hmac_sha256 secret token v) _ h2 in
          let (encodable, bound) = (forged_iff token v).0 real in
          inr (
            (reject_bad_origin_iff allowed plain facts).0 same,
            record {
              value = v;
              sent = (presented_header_iff facts header v).0 sent;
              encodable = encodable;
              bound = bound;
            },
          )

      complete :
          IsExempt facts ⊎ (IsSameSite allowed facts × CarriesToken facts header token)
          → signed_check hmac_sha256 secret allowed header facts token ≡ ok false
      complete (inl safe) = rw ((requires_check_iff facts).1 safe, signed_check)
      complete (inr (same, c)) = ground (
        arith,
        (reject_bad_origin_iff allowed plain facts).1 same,
        (presented_header_iff facts header c.value).1 c.sent,
        (forged_iff token c.value).1 (c.encodable, c.bound),
      )

-- A request passes `enforce_policy` exactly when its policy raised nothing and answered nothing: a
-- policy that answers, be it False, never lets a request pass.
pub enforce_policy_iff :
    (policy : CsrfPolicy) (facts : CsrfFacts) (token : Str)
    → (enforce_policy policy facts token ≡ ok tt) ↔ (policy.check facts token ≡ ok false)
unfolding enforce_policy
enforce_policy_iff policy facts token = (λ h. ground arith, λ h. rw h)
