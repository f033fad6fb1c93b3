-- ===== src/Csrf/Origin.antt =====
-- csrf.py: OriginCheck and the steps that the policies share.
use fastapi_better_auth.Base.{
  ◌≤◌, ◌≡◌, refl, ap, ◌∙◌, ◌≢◌, ◌↔◌, ◌⊎◌, inl, inr, Bool, true, false, ◌||◌, Option, none, some,
  List, [], ◌∷◌, map, arith, Any, All, Bool-cases, Option-cases,
}
use fastapi_better_auth.Text.{
  Str, lit, str_eq, strip, is_blank, upper, casefold, utf8, is_ascii, contains,
}
use fastapi_better_auth.Text.Laws.{str_eq_iff, str_eq_refl}
use fastapi_better_auth.Text.Utf8.{utf8_ascii, eq_of_utf8}
use fastapi_better_auth.Errors.{bind-eq-ok, ok}
use fastapi_better_auth.Csrf.{
  CsrfFacts, requires_check, is_safe_method, is_cross_site, matched_from, checked_origin,
  reject_bad_origin, names, present_value, presented_header, header_rung, origin_check,
}

-- A canonical origin is ASCII and holds no "?".
abbrev pub IsPlain : Str → Type 0
IsPlain t = (is_ascii t ≡ true) × (contains 63 t ≡ false)

-- A request that needs no check: no WebSocket handshake, and one of the safe methods.
pub record IsExempt (facts : CsrfFacts) : Type 0 where
  pub no_socket : facts.websocket ≡ false
  pub method : Str
  pub has_method : facts.method ≡ some method
  pub safe :
      (upper method ≡ lit "GET") ⊎ (upper method ≡ lit "HEAD") ⊎ (upper method ≡ lit "OPTIONS")

abbrev IsSafe : Str → Type 0
IsSafe m = (upper m ≡ lit "GET") ⊎ (upper m ≡ lit "HEAD") ⊎ (upper m ≡ lit "OPTIONS")

is_safe_method_iff : (m : Str) → (is_safe_method (some m) ≡ true) ↔ IsSafe m
unfolding is_safe_method
is_safe_method_iff m = ground (
  arith,
  str_eq_iff (upper m) (lit "GET"),
  str_eq_iff (upper m) (lit "HEAD"),
  str_eq_iff (upper m) (lit "OPTIONS"),
)

pub requires_check_iff : (facts : CsrfFacts) → (requires_check facts ≡ false) ↔ IsExempt facts
unfolding requires_check
requires_check_iff facts = (exempt (Option-cases facts.method), needs_none)
  where
    exempt :
        (facts.method ≡ none) ⊎ ((m : Str) × (facts.method ≡ some m))
        → requires_check facts ≡ false
        → IsExempt facts
    exempt (inl absent) h = absurd (unfold is_safe_method in ground (arith, absent))
    exempt (inr (m, e)) h = record {
      no_socket = ground arith;
      method = m;
      has_method = e;
      safe = (is_safe_method_iff m).0 (ground arith);
    }

    needs_none : IsExempt facts → requires_check facts ≡ false
    needs_none x = ground (arith, x.no_socket, x.has_method, (is_safe_method_iff x.method).1 x.safe)

-- A request that its browser presents as coming from a listed origin: not reported as cross-site,
-- with one Origin header, which is one of the listed origins.
pub record IsSameSite (allowed : List Str) (facts : CsrfFacts) : Type 0 where
  pub not_cross :
      (site : Str) → facts.sec_fetch_site ≡ some site → casefold (strip site) ≢ lit "cross-site"
  pub origin : Str
  pub carried : facts.origin ≡ some origin
  pub not_blank : is_blank origin ≡ false
  pub once : facts.origin_count ≤ 1
  pub listed : Any (λ a. origin ≡ a) allowed

same_origin_iff : (o a : Str) → IsPlain a → (str_eq (utf8 o) (utf8 a) ≡ true) ↔ (o ≡ a)
same_origin_iff o a (ascii, plain) = (
  λ h. eq_of_utf8 o a ascii plain ((str_eq_iff (utf8 o) (utf8 a)).0 h ∙ utf8_ascii a ascii),
  λ e. (str_eq_iff (utf8 o) (utf8 a)).1 (ap utf8 e),
)

matched_from_iff :
    (b : Bool) (o : Str) (allowed : List Str)
    → All IsPlain allowed
    → (matched_from b (utf8 o) (map utf8 allowed) ≡ true) ↔ ((b ≡ true) ⊎ Any (λ a. o ≡ a) allowed)
unfolding matched_from
matched_from_iff b o [] h = ground arith
matched_from_iff b o (a ∷ more) (plain, h) =
    ground
      (arith, same_origin_iff o a plain, matched_from_iff (b || str_eq (utf8 o) (utf8 a)) o more h)

is_cross_site_iff :
    (site : Option Str)
    → (is_cross_site site ≡ false)
      ↔ ((s : Str) → site ≡ some s → casefold (strip s) ≢ lit "cross-site")
unfolding is_cross_site
is_cross_site_iff none = (λ h s e. absurd (cc), λ f. refl)
is_cross_site_iff (some t) = (
  λ h s e k. ground (arith, str_eq_iff (casefold (strip t)) (lit "cross-site")),
  λ f. ground (arith, f t refl, str_eq_iff (casefold (strip t)) (lit "cross-site")),
)

module _ (allowed : List Str) (plain : All IsPlain allowed) (facts : CsrfFacts) where
  reject_sound : reject_bad_origin facts (map utf8 allowed) ≡ ok tt → IsSameSite allowed facts
  unfolding reject_bad_origin checked_origin
  reject_sound h = elim (Option-cases facts.origin) [
    | inl absent ↦ absurd (ground arith)
    | inr (o, carried) ↦ record {
      not_cross = (is_cross_site_iff facts.sec_fetch_site).0 (ground arith);
      origin = o;
      carried = carried;
      not_blank = ground arith;
      once = ground arith;
      listed = ground (arith, matched_from_iff false o allowed plain);
    }
  ]

  reject_complete : IsSameSite allowed facts → reject_bad_origin facts (map utf8 allowed) ≡ ok tt
  unfolding reject_bad_origin checked_origin
  reject_complete s =
      rw ((is_cross_site_iff facts.sec_fetch_site).1 s.not_cross, s.carried, checked_origin)
        (ground (
          arith,
          (matched_from_iff false s.origin allowed plain).1 (inr s.listed),
          s.not_blank,
          s.once,
        ))

  pub reject_bad_origin_iff :
      (reject_bad_origin facts (map utf8 allowed) ≡ ok tt) ↔ IsSameSite allowed facts
  reject_bad_origin_iff = (reject_sound, reject_complete)

-- What the optional header asks: that the snapshot was taken for it and its value is not blank.
pub record HasHeader (facts : CsrfFacts) (name : Str) (value : Str) : Type 0 where
  pub captured : facts.header_name ≡ some name
  pub carried : facts.header_value ≡ some value
  pub not_blank : is_blank value ≡ false

names-eq : (o : Option Str) (name : Str) → names o name ≡ true → o ≡ some name
unfolding names
names-eq none name h = cc
names-eq (some n) name h = ap some ((str_eq_iff n name).0 h)

present_value-eq :
    (o : Option Str) (v : Str) → present_value o ≡ ok v → (o ≡ some v) × (is_blank v ≡ false)
unfolding present_value
present_value-eq none v h = cc
present_value-eq (some w) v h = ground arith

presented_sound :
    (facts : CsrfFacts) (name v : Str) → presented_header facts name ≡ ok v → HasHeader facts name v
unfolding presented_header
presented_sound facts name v h =
    let (carried, filled) = present_value-eq facts.header_value v (ground arith) in
    record {
      captured = names-eq facts.header_name name (ground arith);
      carried = carried;
      not_blank = filled;
    }

presented_complete :
    (facts : CsrfFacts) (name v : Str) → HasHeader facts name v → presented_header facts name ≡ ok v
unfolding presented_header names present_value
presented_complete facts name v h =
    rw (h.captured, h.carried, names, present_value) (ground (arith, str_eq_refl name, h.not_blank))

pub presented_header_iff :
    (facts : CsrfFacts) (name v : Str)
    → (presented_header facts name ≡ ok v) ↔ HasHeader facts name v
presented_header_iff facts name v = (presented_sound facts name v, presented_complete facts name v)

abbrev pub HeaderAsked : CsrfFacts → Option Str → Type 0
HeaderAsked facts none = Unit
HeaderAsked facts (some name) = (v : Str) × HasHeader facts name v

header_rung_iff :
    (facts : CsrfFacts) (header : Option Str)
    → (header_rung facts header ≡ ok false) ↔ HeaderAsked facts header
unfolding header_rung
header_rung_iff facts none = (λ h. tt, λ h. refl)
header_rung_iff facts (some name) = (
  λ h.
      let (v, e, done) = bind-eq-ok (presented_header facts name) _ h in
      (v, presented_sound facts name v e),
  λ (v, h). rw (presented_complete facts name v h),
)

-- Over an allowlist of plain origins, OriginCheck allows a request exactly when it needs no check,
-- or its browser presents it as coming from a listed origin and it carries the header asked for.
pub origin_check_iff :
    (allowed : List Str) (header : Option Str) (facts : CsrfFacts) (token : Str)
    → All IsPlain allowed
    → (origin_check allowed header facts token ≡ ok false)
      ↔ (IsExempt facts ⊎ (IsSameSite allowed facts × HeaderAsked facts header))
unfolding origin_check
origin_check_iff allowed header facts token plain =
    (sound (Bool-cases (requires_check facts)), complete)
  where
    sound :
        (requires_check facts ≡ true) ⊎ (requires_check facts ≡ false)
        → origin_check allowed header facts token ≡ ok false
        → IsExempt facts ⊎ (IsSameSite allowed facts × HeaderAsked facts header)
    sound (inr safe) h = inl ((requires_check_iff facts).0 safe)
    sound (inl unsafe) h =
        let (_, same, rest) =
          bind-eq-ok (reject_bad_origin facts (map utf8 allowed)) _
            (rw (unsafe, origin_check) at h) in
        inr (reject_sound allowed plain facts same, (header_rung_iff facts header).0 rest)

    complete :
        IsExempt facts ⊎ (IsSameSite allowed facts × HeaderAsked facts header)
        → origin_check allowed header facts token ≡ ok false
    complete (inl safe) = rw ((requires_check_iff facts).1 safe, origin_check)
    complete (inr (same, asked)) =
        ground
          (arith, reject_complete allowed plain facts same, (header_rung_iff facts header).1 asked)
