-- ===== src/Jwt/Bearer.antt =====
-- jwt_verifier.py: the token of an Authorization header.
use fastapi_better_auth.Base.{◌≡◌, ◌≢◌, refl, true, false, some, [], ◌∷◌, ◌++◌}
use fastapi_better_auth.Text.{Str, lit, contains, lower, partition}
use fastapi_better_auth.Text.Laws.{
  str_eq_refl, partition-append, strip_solid, starts_solid, ends_solid,
}
use fastapi_better_auth.Csrf.{Connection, get_list}
use fastapi_better_auth.Jwt.Token.{token}
use fastapi_better_auth.Jwt.{stripped, bearer, only, extract}

stripped_of : (s : Str) → s ≢ [] → stripped s ≡ some (token s)
unfolding stripped
stripped_of [] h = absurd (h refl)
stripped_of (c ∷ s) h = refl

only_of : (h : Str) → h ≢ [] → only (h ∷ []) ≡ bearer (partition b' ' h)
unfolding only
only_of [] h = absurd (h refl)
only_of (c ∷ s) h = refl

nonempty : (scheme s : Str) → scheme ++ (b' ' ∷ s) ≢ []
nonempty [] s e = cc
nonempty (c ∷ scheme) s e = cc

-- A request with one Authorization header, of a scheme that is "bearer" in any case and a token that
-- neither starts nor ends with white space, has exactly that token for its credential.
pub extract-bearer :
    (connection : Connection) (scheme s : Str)
    → get_list (lit "authorization") connection.headers ≡ (scheme ++ (b' ' ∷ s)) ∷ []
    → contains b' ' scheme ≡ false
    → lower scheme ≡ lit "bearer"
    → s ≢ []
    → starts_solid s ≡ true
    → ends_solid s ≡ true
    → extract connection ≡ some (token s)
unfolding extract bearer
extract-bearer connection scheme s one free named filled starts ends =
    rw
      (
        one,
        only_of _ (nonempty scheme s),
        partition-append b' ' scheme s free,
        named,
        str_eq_refl (lit "bearer"),
        strip_solid s starts ends,
      )
      (stripped_of s filled)
