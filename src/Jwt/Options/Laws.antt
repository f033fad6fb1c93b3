-- ===== src/Jwt/Options/Laws.antt =====
-- jwt_verifier.py: what a verifier that was constructed accepts.
use fastapi_better_auth.Errors.{
  ok, ok_of, bind-eq-ok, refuse_if, configuration, unsupported_algorithm, refuse_if-ok,
}
use fastapi_better_auth.Text.Laws.{str_eq_iff}
use fastapi_better_auth.Jwt.Options.{
  checked_from, Arguments, is_supported, listed_once, Kept, Algorithms, validated_algorithms,
  validated, validated_leeway, validated_lifetime, chosen_lifetime, Amount, finite,
}
use fastapi_better_auth.Base.{
  ◌≡◌, false, Option, some, List, [], ◌∷◌, All, Any, ◌++◌, true, ℕ, ◌↔◌, Bool-cases, inl, ◌⊎◌, inr,
  sym, Option-cases, ◌≢◌, not, ◌≤◌, refl, arith, ◌*◌, All-append, ap, none, ◌+◌, negsuc, pos,
}
use fastapi_better_auth.Text.{Str, str_eq}
use fastapi_better_auth.Cookies.{member}
use fastapi_better_auth.Jwks.Parse.{Loader, loader_of}

abbrev IsListed : Str → List (Option Str) → Type 0
IsListed a = Any (λ e. e ≡ some a)

-- every algorithm is asymmetric and supported, and listed once
abbrev AreSupported : List Str → Type 0
AreSupported = All (λ a. (loader : Loader) × (loader_of a ≡ some loader))

abbrev pub AreDistinct : List Str → Type 0
AreDistinct [] = Unit
AreDistinct (a ∷ l) = (member a l ≡ false) × AreDistinct l

str_eq_sym : (s t : Str) → str_eq s t ≡ false → str_eq t s ≡ false
str_eq_sym s t h = elim (Bool-cases (str_eq t s)) [
  | inl same ↦ absurd (cc ((str_eq_iff s t).1 (sym ((str_eq_iff t s).0 same))))
  | inr other ↦ other
]

member_snoc :
    (a b : Str) (l : List Str) → (member a (l ++ (b ∷ [])) ≡ true) ↔ ((member a l ≡ true) ⊎ (b ≡ a))
unfolding member
member_snoc a b [] = elim (Bool-cases (str_eq a b)) [
  | inl same ↦ rw same (λ h. inr (sym ((str_eq_iff a b).0 same)), λ h. refl)
  | inr other ↦ rw other (
    λ h. absurd (cc),
    λ h. elim h [ inl e ↦ e | inr e ↦ absurd (cc ((str_eq_iff a b).1 (sym e))) ],
  )
]
member_snoc a b (c ∷ l) = elim (Bool-cases (str_eq a c)) [
  | inl same ↦ rw same (λ h. inl refl, λ h. refl)
  | inr other ↦ rw other (member_snoc a b l)
]

distinct_snoc :
    (b : Str) (l : List Str) → AreDistinct l → member b l ≡ false → AreDistinct (l ++ (b ∷ []))
unfolding member
distinct_snoc b [] d h = (refl, tt)
distinct_snoc b (c ∷ l) (new, d) h = elim (Bool-cases (str_eq b c)) [
  | inl same ↦ absurd (cc (rw same at h))
  | inr other ↦ (
    elim (Bool-cases (member c (l ++ (b ∷ [])))) [
      | inr absent ↦ absent
      | inl there ↦ elim ((member_snoc c b l).0 there) [
        | inl old ↦ absurd (cc)
        | inr e ↦ absurd (cc ((str_eq_iff b c).1 e))
      ]
    ],
    distinct_snoc b l d (rw other at h),
  )
]

-- What the loop keeps of `checked`, once it has read some entries.
record IsKept (checked : List Str) (entries : List (Option Str)) (out : List Str) : Type 0 where
  supported : AreSupported out
  distinct : AreDistinct out
  listed : (a : Str) → (member a out ≡ true) ↔ ((member a checked ≡ true) ⊎ IsListed a entries)

supported_of : (a : Str) → is_supported a ≡ true → (loader : Loader) × (loader_of a ≡ some loader)
unfolding is_supported
supported_of a h = elim (Option-cases (loader_of a)) [
  | inl e ↦ absurd (cc (rw (is_supported, e) at h))
  | inr found ↦ found
]

checked_from_sound :
    (checked : List Str) (entries : List (Option Str)) (out : List Str)
    → AreSupported checked
    → AreDistinct checked
    → checked_from checked entries ≡ ok out
    → IsKept checked entries out
unfolding checked_from listed_once
checked_from_sound checked [] out s d h = rw (← ok_of h) (record {
  supported = s;
  distinct = d;
  listed = λ a. (λ m. inl m, λ m. elim m [ inl x ↦ x | inr x ↦ absurd x ]);
})
checked_from_sound checked (none ∷ entries) out s d h = absurd (cc)
checked_from_sound checked (some e ∷ entries) out s d h =
    let (_, fine, k) =
      bind-eq-ok (refuse_if (not (is_supported e)) (configuration unsupported_algorithm)) _ h in
    let good : is_supported e ≡ true = ground (arith, refuse_if-ok _ _ fine) in
    elim (Bool-cases (member e checked)) [
      | inl old ↦
          let r = checked_from_sound checked entries out s d (rw old at k) in
          record {
            supported = r.supported;
            distinct = r.distinct;
            listed = λ a. (
              λ m. elim ((r.listed a).0 m) [ inl x ↦ inl x | inr x ↦ inr (inr x) ],
              λ m. (r.listed a).1 (elim m [
                | inl x ↦ inl x
                | inr (inl x) ↦ inl (let same : e ≡ a = cc in rw (← same) old)
                | inr (inr x) ↦ inr x
              ]),
            );
          }
      | inr new ↦
          let r =
            checked_from_sound (checked ++ (e ∷ [])) entries out
              (All-append _ checked _ s (supported_of e good, tt)) (distinct_snoc e checked d new)
              (rw new at k) in
          record {
            supported = r.supported;
            distinct = r.distinct;
            listed = λ a. (
              λ m. elim ((r.listed a).0 m) [
                | inl x ↦ elim ((member_snoc a e checked).0 x) [
                  | inl y ↦ inl y
                  | inr y ↦ inr (inl (ap some y))
                ]
                | inr x ↦ inr (inr x)
              ],
              λ m. (r.listed a).1 (elim m [
                | inl x ↦ inl ((member_snoc a e checked).1 (inl x))
                | inr (inl x) ↦ inl ((member_snoc a e checked).1 (inr (cc)))
                | inr (inr x) ↦ inr x
              ]),
            );
          }
    ]

module _ (second : ℕ) where
  -- What a verifier may be configured to.
  pub record IsSafe (a : Arguments second) (k : Kept second) : Type 0 where
    pub entries : List (Option Str)
    pub given : a.algorithms ≡ Algorithms.sequence entries
    pub supported : All (λ alg. (loader : Loader) × (loader_of alg ≡ some loader)) k.algorithms
    pub distinct : AreDistinct k.algorithms
    pub listed : (alg : Str) → (member alg k.algorithms ≡ true) ↔ Any (λ e. e ≡ some alg) entries
    pub filled : k.algorithms ≢ []
    pub skew : k.leeway ≤ 60 * second
    pub lifetime : k.max_token_lifetime ≤ 86400 * second

  algorithms_sound :
      (g : Algorithms) (out : List Str)
      → validated_algorithms g ≡ ok out
      → (entries : List (Option Str)) × (g ≡ Algorithms.sequence entries)
        × IsKept [] entries out
        × (out ≢ [])
  unfolding validated_algorithms member checked_from
  algorithms_sound Algorithms.foreign out h = absurd (cc)
  algorithms_sound (Algorithms.sequence []) out h = absurd (cc)
  algorithms_sound (Algorithms.sequence (none ∷ es)) out h = absurd (cc h)
  algorithms_sound (Algorithms.sequence (some e ∷ es)) out h =
      let kept = checked_from_sound [] (some e ∷ es) out tt tt h in
      (
        some e ∷ es,
        refl,
        kept,
        λ empty. absurd (cc (rw empty at ((kept.listed e).1 (inr (inl refl))))),
      )

  leeway_bound : (a : Amount) (n : ℕ) → validated_leeway second a ≡ ok n → n ≤ 60 * second
  unfolding validated_leeway
  leeway_bound Amount.foreign n h = absurd (cc)
  leeway_bound Amount.endless n h = absurd (cc)
  leeway_bound (finite (negsuc m)) n h = absurd (cc)
  leeway_bound (finite (pos m)) n h = ground arith

  lifetime_bound :
      (a : Option Amount) (leeway n : ℕ)
      → leeway ≤ 60 * second
      → validated_lifetime second a leeway ≡ ok n
      → n ≤ 86400 * second
  unfolding validated_lifetime chosen_lifetime
  lifetime_bound none leeway n l h = let e : 900 * second + leeway ≡ n = ok_of h in omega arith
  lifetime_bound (some Amount.foreign) leeway n l h = absurd (cc)
  lifetime_bound (some Amount.endless) leeway n l h = absurd (cc)
  lifetime_bound (some (finite (negsuc m))) leeway n l h = absurd (cc)
  lifetime_bound (some (finite (pos m))) leeway n l h = ground arith

  -- A verifier that was constructed accepts exactly the algorithms that it was given, each once and at
  -- least one, and each has a loader of public keys: no HMAC algorithm and no "none" among them. It allows
  -- at most 60 seconds of clock skew, and a token's lifetime of at most a day.
  pub validated-IsSafe :
      (a : Arguments second) (k : Kept second) → validated second a ≡ ok k → IsSafe a k
  unfolding validated member
  validated-IsSafe a k h =
      let (algorithms, fine, h₁) = bind-eq-ok (validated_algorithms a.algorithms) _ h in
      let (leeway, skew, h₂) = bind-eq-ok (validated_leeway second a.leeway) _ h₁ in
      let (lifetime, bounded, h₃) =
        bind-eq-ok (validated_lifetime second a.max_token_lifetime leeway) _ h₂ in
      let (entries, given, kept, filled) = algorithms_sound a.algorithms algorithms fine in
      let small = leeway_bound a.leeway leeway skew in
      rw (← ok_of h₃) (record {
        entries = entries;
        given = given;
        supported = kept.supported;
        distinct = kept.distinct;
        listed = λ alg. (
          λ m. elim ((kept.listed alg).0 m) [ inl x ↦ absurd (cc) | inr x ↦ x ],
          λ m. (kept.listed alg).1 (inr m),
        );
        filled = filled;
        skew = small;
        lifetime = lifetime_bound a.max_token_lifetime leeway lifetime small bounded;
      })
