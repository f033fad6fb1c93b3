-- ===== src/Csrf/Options/Laws.antt =====
-- csrf.py with urls.py: what a policy that was constructed decides.
use fastapi_better_auth.Base.{
  ◌≡◌, ◌↔◌, ◌⊎◌, Bool, false, Option, some, List, [], ◌∷◌, All, none, true,
}
use fastapi_better_auth.Text.{Str, strip, lower}
use fastapi_better_auth.Errors.{ok, refuse_if, configuration, csrf_header, csrf_browser_header}
use fastapi_better_auth.Cookies.{member}
use fastapi_better_auth.Csrf.{CsrfPolicy, CsrfFacts, refuse_if, strip, configuration, lower}
use fastapi_better_auth.Csrf.Origin.{IsPlain, IsExempt, IsSameSite, HeaderAsked}
use fastapi_better_auth.Csrf.Options.{
  is_header_name, csrf_header, browser_headers, csrf_browser_header,
}
use fastapi_better_auth.Urls.{Address, normalize_base_url}
use fastapi_better_auth.Urls.Laws.{IsOrigin}

module _ (accepts_netloc : Str → Bool) (ip_address : Str → Option Address) where
  -- The canonical origins of the entries, in order.
  pub Normalized : List (Option Str) → List Str → Type 0
  Normalized [] [] = Unit
  Normalized [] (o ∷ os) = ⊥
  Normalized (e ∷ es) [] = ⊥
  Normalized (e ∷ es) (o ∷ os) =
      (normalize_base_url accepts_netloc ip_address e ≡ ok o) × Normalized es os

  -- The header that is asked for: none, or a name in lower case that no browser sends by itself.
  pub data IsAsked : Option (Option Str) → Option Str → Type 0 where
    unasked : IsAsked none none
    named :
        (name : Str)
        → is_header_name (strip name) ≡ true
        → member (lower (strip name)) browser_headers ≡ false
        → IsAsked (some (some name)) (some (lower (strip name)))

  module _
      (addresses : (text : Str) (a : Address)
        → ip_address text ≡ some a
        → IsPlain a.compressed) where
    -- What an OriginCheck decides.
    pub record IsConfigured (entries : List (Option Str)) (require_header : Option (Option Str))
        (policy : CsrfPolicy) : Type 0 where
      pub allowed : List Str
      pub header : Option Str
      pub asked : IsAsked require_header header
      pub normalized : Normalized entries allowed
      pub origins : All (IsOrigin ip_address) allowed
      pub decides :
          (facts : CsrfFacts) (token : Str)
          → (policy.check facts token ≡ ok false)
            ↔ (IsExempt facts ⊎ (IsSameSite allowed facts × HeaderAsked facts header))
