-- ===== src/Jwt/Laws.antt =====
-- jwt_verifier.py: the tokens that prove a session.
use fastapi_better_auth.Base.{ℤ, ℕ, ◌≡◌, refl, sym, ap, ◌∙◌, ◌↔◌, Option, Bool, some, none}
use fastapi_better_auth.Text.{Str, lit}
use fastapi_better_auth.Errors.{Raised, Result, ok, ok_of}
use fastapi_better_auth.Errors.{bind-eq-ok as result-eq-ok}
use fastapi_better_auth.Exec.{lift-eq-ok, bind-eq-ok}
use fastapi_better_auth.CookieVerifier.{Session, parse_user}
use fastapi_better_auth.CookieVerifier.Sound.{parse_user-ok, parse_user_complete}
use fastapi_better_auth.Jwks.{Client, Times, key_for}
use fastapi_better_auth.Jwks.Parse.{Response, Jwk, Library}
use fastapi_better_auth.Jwt.Claims.{Mapping, get, number, identified}
use fastapi_better_auth.Jwt.Token.{
  Credential, token, ambiguous, done, checked_shape, read_header, no_critical_extensions,
  usable_kid, allowed_algorithm, settled, check_subject, check_lifetime, session_of, expiry,
}
use fastapi_better_auth.Jwt.Token.Laws.{
  IsShaped, checked_shape_iff, IsHeader, IsHeader-iff, IsMinted, IsMinted-iff, expiry-number,
}
use fastapi_better_auth.Jwt.{Config, Pyjwt, demands, find_key, verify_token, verify}
use fastapi_better_auth.Jwt.Found.{read_header_iff, settled_iff, find_key_sound, find_key_complete}

module _ {Key : Type 0} (library : Library Key) (cancelled : Raised → Bool) (config : Config) where
  module _ {Model User : Type 0} (pyjwt : Pyjwt Key) (fromtimestamp : ℤ → Result ℕ)
      (model_validate : Model → Mapping → Result (Option User)) where
    -- A session of claims.
    pub record IsSessionOf (claims : Mapping) (expires : ℤ) (model : Model)
        (session : Session User Mapping) : Type 0 where
      pub user : User
      pub valid : model_validate model (identified claims) ≡ ok (some user)
      pub expires_at : ℕ
      pub moment : fromtimestamp expires ≡ ok expires_at
      pub session_is : session ≡ record {
        user = user;
        expires_at = expires_at;
        token = none;
        impersonated_by = none;
        raw = claims;
      }

    session_of_iff :
        (claims : Mapping) (expires : ℤ) (model : Model) (session : Session User Mapping)
        → get (lit "exp") claims ≡ number expires
        → (session_of fromtimestamp model_validate claims model ≡ ok session)
          ↔ IsSessionOf claims expires model session
    unfolding session_of
    session_of_iff claims expires model session e = (
      λ h.
          let (user, valid, h₁) =
            result-eq-ok (parse_user model_validate model (identified claims)) _ h in
          let (at, moment, h₂) = result-eq-ok (expiry fromtimestamp claims) _ h₁ in
          record {
            user = user;
            valid = parse_user-ok model_validate model (identified claims) user valid;
            expires_at = at;
            moment = timed at moment;
            session_is = sym (ok_of h₂);
          },
      λ i.
          rw
            (
              parse_user_complete model_validate model (identified claims) i.user i.valid,
              expiry-number fromtimestamp claims expires e,
              i.moment,
              i.session_is,
            )
            refl,
    )
      where
        timed : (at : ℕ) → expiry fromtimestamp claims ≡ ok at → fromtimestamp expires ≡ ok at
        timed at h = sym (expiry-number fromtimestamp claims expires e) ∙ h

    -- A token that proves a session: the credential is a text of three segments and at most 8192
    -- characters; its header declares no critical extension, has a kid and an allowed algorithm; the
    -- client has a key of that kid and that algorithm; PyJWT accepts the token under that key, for the
    -- configured algorithms, issuer, audience and required claims; the claims name a subject and a
    -- lifetime that is positive and within the ceiling; and the session is that of the claims.
    pub record IsProof (t : Times) (response : Result Response) (credential : Credential)
        (model : Model) (c : Client Key) (session : Session User Mapping) : Type 0 where
      pub raw : Str
      pub shape : IsShaped credential raw
      pub header : Mapping
      pub reads : pyjwt.get_unverified_header raw ≡ done header
      pub kid : Str
      pub algorithm : Str
      pub says : IsHeader config.keys.algorithms header kid algorithm
      pub jwk : Jwk Key
      pub answered : (key_for config.keys library cancelled t kid response c).0 ≡ ok (some jwk)
      pub agrees : jwk.algorithm ≡ algorithm
      pub claims : Mapping
      pub decodes : pyjwt.decode (demands config) raw jwk.key ≡ done claims
      pub minted : IsMinted config.max_token_lifetime claims
      pub session_is : IsSessionOf claims minted.expires model session

    verify_token_sound :
        (t : Times) (response : Result Response) (credential : Credential) (raw : Str)
        (model : Model) (c : Client Key) (session : Session User Mapping)
        → IsShaped credential raw
        → (verify_token library cancelled config pyjwt fromtimestamp model_validate t response raw
            model c).0
          ≡ ok session
        → IsProof t response credential model c session
    unfolding verify_token
    verify_token_sound t response credential raw model c session shape h =
        let (header, reads, k1) =
          lift-eq-ok (read_header (pyjwt.get_unverified_header raw)) _ c h in
        let (_, plain, k2) = lift-eq-ok (no_critical_extensions header) _ c k1 in
        let (kid, named, k3) = lift-eq-ok (usable_kid header) _ c k2 in
        let (algorithm, allowed, k4) =
          lift-eq-ok (allowed_algorithm header config.keys.algorithms) _ c k3 in
        let (jwk, u, e, k5) =
          bind-eq-ok (find_key library cancelled config t kid algorithm response) _ c k4 in
        let (claims, decodes, k6) =
          lift-eq-ok (settled (pyjwt.decode (demands config) raw jwk.key)) _ u k5 in
        let (_, subject, k7) = lift-eq-ok (check_subject claims) _ u k6 in
        let (_, lifetime, k8) =
          lift-eq-ok (check_lifetime claims config.max_token_lifetime) _ u k7 in
        let (answered, agrees) =
          find_key_sound library cancelled config t kid algorithm response c jwk
            (ap (λ p. p.0) e) in
        let minted = (IsMinted-iff claims config.max_token_lifetime).0 (subject, lifetime) in
        record {
          raw = raw;
          shape = shape;
          header = header;
          reads = (read_header_iff _ header).0 reads;
          kid = kid;
          algorithm = algorithm;
          says =
              (IsHeader-iff config.keys.algorithms header kid algorithm).0 (plain, named, allowed);
          jwk = jwk;
          answered = answered;
          agrees = agrees;
          claims = claims;
          decodes = (settled_iff _ claims).0 decodes;
          minted = minted;
          session_is = (session_of_iff claims minted.expires model session minted.has_expires).0 k8;
        }

    verify_token_complete :
        (t : Times) (response : Result Response) (credential : Credential) (model : Model)
        (c : Client Key) (session : Session User Mapping)
        (p : IsProof t response credential model c session)
        → (verify_token library cancelled config pyjwt fromtimestamp model_validate t response p.raw
            model c).0
          ≡ ok session
    unfolding verify_token
    verify_token_complete t response credential model c session p =
        let (plain, named, allowed) =
          (IsHeader-iff config.keys.algorithms p.header p.kid p.algorithm).1 p.says in
        let (u, found) =
          find_key_complete library cancelled config t p.kid p.algorithm response c p.jwk p.answered
            p.agrees in
        let (subject, lifetime) = (IsMinted-iff p.claims config.max_token_lifetime).1 p.minted in
        let made =
          (session_of_iff p.claims p.minted.expires model session p.minted.has_expires).1
            p.session_is in
        rw
          (
            (read_header_iff _ p.header).1 p.reads,
            plain,
            named,
            allowed,
            found,
            (settled_iff _ p.claims).1 p.decodes,
            subject,
            lifetime,
            made,
          )
          refl

    verify_as_token :
        (t : Times) (response : Result Response) (credential : Credential) (raw : Str)
        (model : Model) (c : Client Key)
        → IsShaped credential raw
        → verify library cancelled config pyjwt fromtimestamp model_validate t response credential
            model c
          ≡ verify_token library cancelled config pyjwt fromtimestamp model_validate t response raw
              model c
    unfolding verify
    verify_as_token t response (token s) raw model c i =
        rw ((checked_shape_iff (token s) raw).1 i) refl
    verify_as_token t response ambiguous raw model c i = absurd (cc i.is_token)
    verify_as_token t response Credential.foreign raw model c i = absurd (cc i.is_token)

    -- A credential is answered with a session exactly if it is a token that proves it.
    pub verify-IsProof :
        (t : Times) (response : Result Response) (credential : Credential) (model : Model)
        (c : Client Key) (session : Session User Mapping)
        → ((verify library cancelled config pyjwt fromtimestamp model_validate t response credential
              model c).0
            ≡ ok session)
          ↔ IsProof t response credential model c session
    unfolding verify
    verify-IsProof t response credential model c session = (
      sound credential,
      λ p.
          ap (λ x. x.0) (verify_as_token t response credential p.raw model c p.shape)
          ∙ verify_token_complete t response credential model c session p,
    )
      where
        sound :
            (given : Credential)
            → (verify library cancelled config pyjwt fromtimestamp model_validate t response given
                model c).0
              ≡ ok session
            → IsProof t response given model c session
        sound ambiguous h = absurd (cc)
        sound (token s) h =
            let (raw, shape, k) = lift-eq-ok (checked_shape (token s)) _ c h in
            verify_token_sound t response (token s) raw model c session
              ((checked_shape_iff (token s) raw).0 shape) k
        sound Credential.foreign h =
            let (raw, shape, k) = lift-eq-ok (checked_shape Credential.foreign) _ c h in
            verify_token_sound t response Credential.foreign raw model c session
              ((checked_shape_iff Credential.foreign raw).0 shape) k
