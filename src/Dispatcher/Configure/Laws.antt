-- ===== src/Dispatcher/Configure/Laws.antt =====
-- core.py: the configurations of BetterAuth's constructor.
use fastapi_better_auth.Base.{
  ℕ, ◌≡◌, ◌≢◌, refl, ap, ◌↔◌, Bool, true, false, Option, none, some, List, [], ◌∷◌, ◌++◌, any, All,
  arith, Bool-cases, ==_iff, inl, inr, All-append,
}
use fastapi_better_auth.Text.{Str, is_blank}
use fastapi_better_auth.Text.Laws.{str_eq_iff}
use fastapi_better_auth.Errors.{
  ok, raise, configuration, refuse_if, bind-eq-ok, ok_of, refuse_if-ok,
}
use fastapi_better_auth.Labels.{collision_key}
use fastapi_better_auth.Dispatcher.Configure.{
  Candidate, Entry, candidate, foreign, sequence, Named, validate_source, validate_verifier, same,
  collides, validated_from, validated, listed_twice, one_credential,
}

-- The entry is a usable verifier, and the name is its name.
abbrev pub IsUsable : Entry → Named → Type 0
IsUsable e v =
    (e
      ≡ candidate (record {
        identity = v.identity;
        extract_callable = true;
        verify_callable = true;
        credential_source = some v.credential_source;
        async = false;
      }))
    × (is_blank v.credential_source ≡ false)

-- two verifiers, neither the same object nor on one credential
abbrev pub AreSeparate : Named → Named → Type 0
AreSeparate s v =
    (s.identity ≢ v.identity)
    × (collision_key s.credential_source ≢ collision_key v.credential_source)

abbrev pub AreUsable : List Entry → List Named → Type 0
AreUsable [] [] = Unit
AreUsable [] (v ∷ vs) = ⊥
AreUsable (e ∷ es) [] = ⊥
AreUsable (e ∷ es) (v ∷ vs) = IsUsable e v × AreUsable es vs

-- every verifier is separate from each that follows it
abbrev pub AllSeparate : List Named → Type 0
AllSeparate [] = Unit
AllSeparate (v ∷ vs) = All (AreSeparate v) vs × AllSeparate vs

abbrev candidate_of : ℕ → Bool → Bool → Option Str → Bool → Candidate
candidate_of i x y s a = record {
  identity = i;
  extract_callable = x;
  verify_callable = y;
  credential_source = s;
  async = a;
}

named_of :
    {i : ℕ} {t : Str} (v : Named)
    → ok (record { identity = i; credential_source = t }) ≡ ok v
    → (i ≡ v.identity) × (t ≡ v.credential_source)
named_of v h = (
  ap (λ r. elim r [ ok n ↦ n.identity | raise e ↦ 0 ]) h,
  ap (λ r. elim r [ ok n ↦ n.credential_source | raise e ↦ [] ]) h,
)

candidate_of-IsUsable :
    (i : ℕ) (x y : Bool) (s : Option Str) (a : Bool) (v : Named)
    → validate_verifier (candidate (candidate_of i x y s a)) ≡ ok v
    → IsUsable (candidate (candidate_of i x y s a)) v
unfolding validate_verifier validate_source
candidate_of-IsUsable i false y s a v h = absurd (cc)
candidate_of-IsUsable i true false s a v h = absurd (cc)
candidate_of-IsUsable i true true none a v h = absurd (cc)
candidate_of-IsUsable i true true (some t) a v h = elim (Bool-cases (is_blank t)) [
  | inl blank ↦ absurd (cc (rw blank at h))
  | inr filled ↦ elim (Bool-cases a) [
    | inl async ↦ absurd (cc (rw (filled, async) at h))
    | inr plain ↦
        let (e, f) = named_of v (rw (filled, plain) at h) in
        (rw (e, f, plain) refl, rw (← f) filled)
  ]
]

validate_verifier_sound : (e : Entry) (v : Named) → validate_verifier e ≡ ok v → IsUsable e v
unfolding validate_verifier
validate_verifier_sound foreign v h = absurd (cc)
validate_verifier_sound (candidate c) v h =
    candidate_of-IsUsable c.identity c.extract_callable c.verify_callable c.credential_source
      c.async v h

validate_verifier_complete : (e : Entry) (v : Named) → IsUsable e v → validate_verifier e ≡ ok v
unfolding validate_verifier validate_source
validate_verifier_complete e v (u, b) = rw (u, b) refl

module _ (v : Named) where
  separate_sound :
      (seen : List Named)
      → any (same v) seen ≡ false
      → any (collides v) seen ≡ false
      → All (λ s. AreSeparate s v) seen
  separate_sound [] h k = tt
  separate_sound (s ∷ seen) h k = (
    (
      ground (arith, ==_iff v.identity s.identity),
      ground (
        arith,
        str_eq_iff (collision_key s.credential_source) (collision_key v.credential_source),
      ),
    ),
    separate_sound seen (ground arith) (ground arith),
  )

  separate_complete :
      (seen : List Named)
      → All (λ s. AreSeparate s v) seen
      → (any (same v) seen ≡ false) × (any (collides v) seen ≡ false)
  separate_complete [] h = (refl, refl)
  separate_complete (s ∷ seen) ((i, k), h) =
      let (a, b) = separate_complete seen h in
      (
        ground (arith, ==_iff v.identity s.identity),
        ground (
          arith,
          str_eq_iff (collision_key s.credential_source) (collision_key v.credential_source),
        ),
      )

Apart : List Named → List Named → Type 0
Apart seen vs = All (λ v. All (λ s. AreSeparate s v) seen) vs

Apart-append :
    (seen : List Named) (v : Named) (vs : List Named)
    → Apart (seen ++ (v ∷ [])) vs ↔ (Apart seen vs × All (AreSeparate v) vs)
unfolding Apart
Apart-append seen v vs = (split vs, λ (a, b). join vs a b)
  where
    last :
        (xs : List Named) (u : Named)
        → All (λ s. AreSeparate s u) (xs ++ (v ∷ []))
        → All (λ s. AreSeparate s u) xs × AreSeparate v u
    last [] u (h, k) = (tt, h)
    last (x ∷ xs) u (h, k) = let (a, b) = last xs u k in ((h, a), b)

    split : (us : List Named) → Apart (seen ++ (v ∷ [])) us → Apart seen us × All (AreSeparate v) us
    split [] h = (tt, tt)
    split (u ∷ us) (h, k) =
        let (a, b) = last seen u h in let (c, d) = split us k in ((a, c), (b, d))

    join : (us : List Named) → Apart seen us → All (AreSeparate v) us → Apart (seen ++ (v ∷ [])) us
    join [] h k = tt
    join (u ∷ us) (h, hs) (k, ks) =
        (All-append (λ s. AreSeparate s u) seen (v ∷ []) h (k, tt), join us hs ks)

validated_from_sound :
    (seen : List Named) (es : List Entry) (vs : List Named)
    → validated_from seen es ≡ ok vs
    → AreUsable es vs × AllSeparate vs × Apart seen vs
unfolding validated_from Apart
validated_from_sound seen [] vs h = let e : [] ≡ vs = cc in rw (← e) (tt, tt, tt)
validated_from_sound seen (e ∷ es) vs h =
    let (v, usable, h₁) = bind-eq-ok (validate_verifier e) _ h in
    let (_, no_copy, h₂) =
      bind-eq-ok (refuse_if (any (same v) seen) (configuration listed_twice)) _ h₁ in
    let (_, no_clash, h₃) =
      bind-eq-ok (refuse_if (any (collides v) seen) (configuration one_credential)) _ h₂ in
    let (rest, accepted, h₄) = bind-eq-ok (validated_from (seen ++ (v ∷ [])) es) _ h₃ in
    let (us, a, p) = validated_from_sound (seen ++ (v ∷ [])) es rest accepted in
    let (ps, b) = (Apart-append seen v rest).0 p in
    let whole : v ∷ rest ≡ vs = ok_of h₄ in
    rw (← whole) (
      (validate_verifier_sound e v usable, us),
      (b, a),
      (separate_sound v seen (refuse_if-ok _ _ no_copy) (refuse_if-ok _ _ no_clash), ps),
    )

validated_from_complete :
    (seen : List Named) (es : List Entry) (vs : List Named)
    → AreUsable es vs
    → AllSeparate vs
    → Apart seen vs
    → validated_from seen es ≡ ok vs
unfolding validated_from Apart
validated_from_complete seen [] [] u a p = refl
validated_from_complete seen [] (v ∷ vs) u a p = elim u [ ]
validated_from_complete seen (e ∷ es) [] u a p = elim u [ ]
validated_from_complete seen (e ∷ es) (v ∷ vs) (u, us) (a, s) (p, ps) =
    let (no_copy, no_clash) = separate_complete v seen p in
    let rest =
      validated_from_complete (seen ++ (v ∷ [])) es vs us s ((Apart-append seen v vs).1 (ps, a)) in
    rw (validate_verifier_complete e v u, no_copy, no_clash, rest) refl

-- The constructor accepts exactly a non-empty sequence of usable verifiers (callable methods, a
-- synchronous extract, a source that is not blank), no two of which are the same object or are on
-- one credential, and keeps them in the order given.
pub validated_iff :
    (es : List Entry) (vs : List Named)
    → (validated (sequence es) ≡ ok vs) ↔ ((es ≢ []) × AreUsable es vs × AllSeparate vs)
unfolding validated Apart
validated_iff [] vs = (λ h. absurd (cc), λ (filled, u, a). absurd (filled refl))
validated_iff (e ∷ es) vs = (
  λ h. let (u, a, p) = validated_from_sound [] (e ∷ es) vs h in (λ k. cc, u, a),
  λ (filled, u, a). validated_from_complete [] (e ∷ es) vs u a (alone vs),
)
  where
    alone : (us : List Named) → Apart [] us
    alone [] = tt
    alone (u ∷ us) = (tt, alone us)
