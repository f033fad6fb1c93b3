-- ===== src/Jwt/Found.antt =====
-- jwt_verifier.py: the header that is read, the key that is found and the claims that are settled.
use fastapi_better_auth.Base.{
  ◌≡◌, refl, ap, ◌∙◌, ◌↔◌, Bool-cases, inl, inr, Option, Bool, some, none,
}
use fastapi_better_auth.Text.{Str, str_eq}
use fastapi_better_auth.Text.Laws.{str_eq_iff}
use fastapi_better_auth.Errors.{Raised, Result, ok, ok_of}
use fastapi_better_auth.Exec.{bind-eq-ok}
use fastapi_better_auth.Jwks.{Client, Times, key_for}
use fastapi_better_auth.Jwks.Parse.{Response, Jwk, Library}
use fastapi_better_auth.Jwt.Claims.{Mapping}
use fastapi_better_auth.Jwt.Token.{Attempt, done, read_header, settled}
use fastapi_better_auth.Jwt.{Config, matching, find_key}

pub read_header_iff : (a : Attempt Mapping) (m : Mapping) → (read_header a ≡ ok m) ↔ (a ≡ done m)
unfolding read_header
read_header_iff (done n) m = (λ h. cc, λ h. cc)
read_header_iff Attempt.expired m = (λ h. absurd (cc), λ h. absurd (cc))
read_header_iff Attempt.unusable m = (λ h. absurd (cc), λ h. absurd (cc))
read_header_iff (Attempt.escaped e) m = (λ h. absurd (cc), λ h. absurd (cc))

pub settled_iff : (a : Attempt Mapping) (m : Mapping) → (settled a ≡ ok m) ↔ (a ≡ done m)
unfolding settled
settled_iff (done n) m = (λ h. cc, λ h. cc)
settled_iff Attempt.expired m = (λ h. absurd (cc), λ h. absurd (cc))
settled_iff Attempt.unusable m = (λ h. absurd (cc), λ h. absurd (cc))
settled_iff (Attempt.escaped e) m = (λ h. absurd (cc), λ h. absurd (cc))

module _ {Key : Type 0} where
  matching_iff :
      (algorithm : Str) (found : Option (Jwk Key)) (jwk : Jwk Key)
      → (matching algorithm found ≡ ok jwk) ↔ ((found ≡ some jwk) × (jwk.algorithm ≡ algorithm))
  unfolding matching
  matching_iff algorithm none jwk = (λ h. absurd (cc), λ (e, f). absurd (cc))
  matching_iff algorithm (some k) jwk = elim (Bool-cases (str_eq k.algorithm algorithm)) [
    | inl same ↦ rw same (
      λ h. let e : k ≡ jwk = ok_of h in (ap some e, rw (← e) ((str_eq_iff _ _).0 same)),
      λ (e, f). cc,
    )
    | inr other ↦ rw other (
      λ h. absurd (cc),
      λ (e, f).
          let x : k ≡ jwk = cc in
          absurd
            (cc ((str_eq_iff k.algorithm algorithm).1 (ap (λ (j : Jwk Key). j.algorithm) x ∙ f))),
    )
  ]

  module _ (library : Library Key) (cancelled : Raised → Bool) (config : Config) where
    pub find_key_sound :
        (t : Times) (kid algorithm : Str) (response : Result Response) (c : Client Key)
        (jwk : Jwk Key)
        → (find_key library cancelled config t kid algorithm response c).0 ≡ ok jwk
        → ((key_for config.keys library cancelled t kid response c).0 ≡ ok (some jwk))
          × (jwk.algorithm ≡ algorithm)
    unfolding find_key
    find_key_sound t kid algorithm response c jwk h =
        let (found, u, e, k) =
          bind-eq-ok (key_for config.keys library cancelled t kid response) _ c h in
        let (there, agrees) = (matching_iff algorithm found jwk).0 k in
        (ap (λ p. p.0) e ∙ ap ok there, agrees)

    pub find_key_complete :
        (t : Times) (kid algorithm : Str) (response : Result Response) (c : Client Key)
        (jwk : Jwk Key)
        → (key_for config.keys library cancelled t kid response c).0 ≡ ok (some jwk)
        → jwk.algorithm ≡ algorithm
        → (u : Client Key) × (find_key library cancelled config t kid algorithm response c
            ≡ (ok jwk, u))
    unfolding find_key
    find_key_complete t kid algorithm response c jwk h agrees = (
      (key_for config.keys library cancelled t kid response c).1,
      rw (h, (matching_iff algorithm (some jwk) jwk).1 (refl, agrees)) refl,
    )
