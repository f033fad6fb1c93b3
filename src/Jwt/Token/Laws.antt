-- ===== src/Jwt/Token/Laws.antt =====
-- jwt_verifier.py: the headers and claims that pass the tests.
use fastapi_better_auth.Text.{Str, is_blank, lit}
use mathlib.Core.Path.{subst}
use fastapi_better_auth.Base.{
  ◌≡◌, refl, ap, ℤ, ◌<ℤ◌, pos_part, neg_part, arith, some, true, ℕ, List, ◌↔◌, Option, false, ◌+◌,
  Bool-cases, inr, ◌≤◌, inl, none, ◌∷◌, ltb, length, not, ◌==◌, ◌≢◌, [],
}
use fastapi_better_auth.Errors.{
  ◌>>=◌, ok, ok_of, refuse_if-ok, bind-eq-ok, refuse_if, value_too_long, not_three_segments, Result,
}
use fastapi_better_auth.Jwt.Claims.{Value, text, number, flag, Mapping, get, has, as_number}
use fastapi_better_auth.Jwt.Token.{
  moment_of, usable_kid, Credential, token, ambiguous, invalid, filled_kid, allowed, identifies,
  lifetime_within, check_subject, check_lifetime, Str, lit, is_blank, member,
  no_critical_extensions, checked_shape, allowed_algorithm, dots, expiry,
}

-- What an acceptable header says.
pub record IsHeader (algorithms : List Str) (header : Mapping) (kid algorithm : Str) : Type 0 where
  pub no_extensions : has (lit "crit") header ≡ false
  pub has_kid : get (lit "kid") header ≡ text kid
  pub filled : is_blank kid ≡ false
  pub has_algorithm : get (lit "alg") header ≡ text algorithm
  pub configured : member algorithm algorithms ≡ true

-- Claims that a token upstream would mint makes.
pub record IsMinted (ceiling : ℕ) (claims : Mapping) : Type 0 where
  pub subject : Str
  pub has_subject : get (lit "sub") claims ≡ text subject
  pub somebody : is_blank subject ≡ false
  pub issued : ℤ
  pub has_issued : get (lit "iat") claims ≡ number issued
  pub expires : ℤ
  pub has_expires : get (lit "exp") claims ≡ number expires
  pub positive : issued <ℤ expires
  pub bounded : pos_part expires + neg_part issued ≤ pos_part issued + ceiling + neg_part expires

filled_kid_iff :
    (v : Value) (kid : Str) → (filled_kid v ≡ ok kid) ↔ ((v ≡ text kid) × (is_blank kid ≡ false))
unfolding filled_kid
filled_kid_iff (text s) kid = elim (Bool-cases (is_blank s)) [
  | inl blank ↦ rw blank (λ h. absurd (cc), λ (e, f). absurd (cc))
  | inr filled ↦
      rw filled (λ h. let e : s ≡ kid = ok_of h in (ap text e, rw (← e) filled), λ (e, f). cc)
]
filled_kid_iff Value.null kid = (λ h. absurd (cc), λ (e, f). absurd (cc))
filled_kid_iff (number n) kid = (λ h. absurd (cc), λ (e, f). absurd (cc))
filled_kid_iff (flag b) kid = (λ h. absurd (cc), λ (e, f). absurd (cc))
filled_kid_iff (Value.other n) kid = (λ h. absurd (cc), λ (e, f). absurd (cc))

allowed_iff :
    (algorithms : List Str) (v : Value) (alg : Str)
    → (allowed algorithms v ≡ ok alg) ↔ ((v ≡ text alg) × (member alg algorithms ≡ true))
unfolding allowed
allowed_iff algorithms (text s) alg = elim (Bool-cases (member s algorithms)) [
  | inr out ↦ rw out (λ h. absurd (cc), λ (e, f). absurd (cc))
  | inl listed ↦
      rw listed (λ h. let e : s ≡ alg = ok_of h in (ap text e, rw (← e) listed), λ (e, f). cc)
]
allowed_iff algorithms Value.null alg = (λ h. absurd (cc), λ (e, f). absurd (cc))
allowed_iff algorithms (number n) alg = (λ h. absurd (cc), λ (e, f). absurd (cc))
allowed_iff algorithms (flag b) alg = (λ h. absurd (cc), λ (e, f). absurd (cc))
allowed_iff algorithms (Value.other n) alg = (λ h. absurd (cc), λ (e, f). absurd (cc))

identifies_sound :
    (v : Value) → identifies v ≡ true → (s : Str) × (v ≡ text s) × (is_blank s ≡ false)
unfolding identifies
identifies_sound (text s) h = (s, refl, ground arith)
identifies_sound Value.null h = absurd (cc)
identifies_sound (number n) h = absurd (cc)
identifies_sound (flag b) h = absurd (cc)
identifies_sound (Value.other n) h = absurd (cc)

as_number_sound : (v : Value) (n : ℤ) → as_number v ≡ some n → v ≡ number n
unfolding as_number
as_number_sound (number m) n h = cc
as_number_sound (text s) n h = absurd (cc)
as_number_sound Value.null n h = absurd (cc)
as_number_sound (flag b) n h = absurd (cc)
as_number_sound (Value.other m) n h = absurd (cc)

lifetime_iff :
    (i x : ℤ) (ceiling : ℕ)
    → (lifetime_within (some i) (some x) ceiling ≡ ok tt)
      ↔ ((i <ℤ x) × (pos_part x + neg_part i ≤ pos_part i + ceiling + neg_part x))
unfolding lifetime_within
lifetime_iff i x ceiling = (λ h. (ground arith, ground arith), λ (a, b). ground arith)

numbers :
    (i x : Option ℤ) (ceiling : ℕ)
    → lifetime_within i x ceiling ≡ ok tt
    → (a : ℤ) × (b : ℤ) × (i ≡ some a) × (x ≡ some b)
unfolding lifetime_within
numbers none x ceiling h = absurd (cc)
numbers (some a) none ceiling h = absurd (cc)
numbers (some a) (some b) ceiling h = (a, b, refl, refl)

-- The two tests on claims accept exactly the claims of a token that upstream would mint.
pub IsMinted-iff :
    (claims : Mapping) (ceiling : ℕ)
    → ((check_subject claims ≡ ok tt) × (check_lifetime claims ceiling ≡ ok tt))
      ↔ IsMinted ceiling claims
unfolding check_subject check_lifetime
IsMinted-iff claims ceiling = (
  λ (h, k).
      let (s, e, f) =
        identifies_sound (get (lit "sub") claims) (ground (arith, refuse_if-ok _ _ h)) in
      let (a, b, issued, expires) = numbers _ _ ceiling k in
      let (positive, bounded) = (lifetime_iff a b ceiling).0 (rw (issued, expires) at k) in
      record {
        subject = s;
        has_subject = e;
        somebody = f;
        issued = a;
        has_issued = as_number_sound _ a issued;
        expires = b;
        has_expires = as_number_sound _ b expires;
        positive = positive;
        bounded = bounded;
      },
  λ m. (
    rw m.has_subject (unfold identifies in rw m.somebody refl),
    rw (m.has_issued, m.has_expires)
        (unfold as_number in (lifetime_iff m.issued m.expires ceiling).1 (m.positive, m.bounded)),
  ),
)

-- The tests on a header accept exactly the headers that IsHeader describes.
pub IsHeader-iff :
    (algorithms : List Str) (header : Mapping) (kid algorithm : Str)
    → ((no_critical_extensions header ≡ ok tt)
        × (usable_kid header ≡ ok kid)
        × (allowed_algorithm header algorithms ≡ ok algorithm))
      ↔ IsHeader algorithms header kid algorithm
unfolding no_critical_extensions usable_kid allowed_algorithm
IsHeader-iff algorithms header kid algorithm = (
  λ (a, b, c).
      let (has_kid, filled) = (filled_kid_iff (get (lit "kid") header) kid).0 b in
      let (has_algorithm, configured) =
        (allowed_iff algorithms (get (lit "alg") header) algorithm).0 c in
      record {
        no_extensions = refuse_if-ok _ _ a;
        has_kid = has_kid;
        filled = filled;
        has_algorithm = has_algorithm;
        configured = configured;
      },
  λ i. (
    rw i.no_extensions refl,
    (filled_kid_iff (get (lit "kid") header) kid).1 (i.has_kid, i.filled),
    (allowed_iff algorithms (get (lit "alg") header) algorithm).1 (i.has_algorithm, i.configured),
  ),
)

-- The texts that the first test passes.
pub record IsShaped (credential : Credential) (s : Str) : Type 0 where
  pub is_token : credential ≡ token s
  pub filled : s ≢ []
  pub short : length s ≤ 8192
  pub segments : dots s ≡ 2

-- the two tests on a text that is not empty
shaped :
    (s : Str)
    → length s ≤ 8192
    → dots s ≡ 2
    → (refuse_if (ltb 8192 (length s)) (invalid value_too_long) >>= λ _.
        (refuse_if (not (dots s == 2)) (invalid not_three_segments) >>= λ _. ok s))
      ≡ ok s
shaped s short three = ground arith

pub checked_shape_iff :
    (credential : Credential) (s : Str) → (checked_shape credential ≡ ok s) ↔ IsShaped credential s
unfolding checked_shape
checked_shape_iff (token (c ∷ t)) s = (
  λ h.
      let (_, short, h₁) =
        bind-eq-ok (refuse_if (ltb 8192 (length (c ∷ t))) (invalid value_too_long)) _ h in
      let (_, three, h₂) =
        bind-eq-ok (refuse_if (not (dots (c ∷ t) == 2)) (invalid not_three_segments)) _ h₁ in
      rw (← ok_of h₂) (record {
        is_token = refl;
        filled = λ e. cc;
        short = ground (arith, refuse_if-ok _ _ short);
        segments = ground (arith, refuse_if-ok _ _ three);
      }),
  λ i. complete i,
)
  where
    complete : IsShaped (token (c ∷ t)) s → checked_shape (token (c ∷ t)) ≡ ok s
    complete i =
        let same : s ≡ c ∷ t = cc i.is_token in
        let short : length (c ∷ t) ≤ 8192 = subst (λ x. length x ≤ 8192) same i.short in
        let three : dots (c ∷ t) ≡ 2 = subst (λ x. dots x ≡ 2) same i.segments in
        rw same (shaped (c ∷ t) short three)
checked_shape_iff (token []) s = (λ h. absurd (cc), λ i. absurd (i.filled (cc i.is_token)))
checked_shape_iff ambiguous s = (λ h. absurd (cc), λ i. absurd (cc i.is_token))
checked_shape_iff Credential.foreign s = (λ h. absurd (cc), λ i. absurd (cc i.is_token))

-- the date of expiry, once `exp` is known to be a number
pub expiry-number :
    (fromtimestamp : ℤ → Result ℕ) (claims : Mapping) (n : ℤ)
    → get (lit "exp") claims ≡ number n
    → expiry fromtimestamp claims ≡ fromtimestamp n
unfolding expiry moment_of as_number
expiry-number fromtimestamp claims n e = rw e refl
