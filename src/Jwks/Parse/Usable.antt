-- ===== src/Jwks/Parse/Usable.antt =====
-- jwks.py: the keys of a set that was parsed.
use fastapi_better_auth.Base.{
  ℕ, suc, ◌+◌, ◌≤◌, ◌≡◌, refl, sym, ap, ◌∙◌, true, false, ◌&&◌, Option, none, some, List, [], ◌∷◌,
  ◌++◌, ltb, arith, All, All-append, length, length-append, Bool-cases, Option-cases, inl, inr, ◌⊎◌,
}
use fastapi_better_auth.Text.{Str, is_blank}
use fastapi_better_auth.Errors.{ok, refuse_if, bind-eq-ok, refuse_if-ok, ok_of, jwks_too_many}
use fastapi_better_auth.Cookies.{member}
use fastapi_better_auth.Jwks.Parse.{
  Published, Entry, Keys, Response, Loader, rsa, Jwk, Library, loader_of, not_for_verifying, lookup,
  usable_kid, declared_alg, is_rsa, loaded, kept, considered, selected, collect, collect_all,
  document, published, unavailable, check_answer, parsed,
}

usable_kid_sound :
    (k : Option Str) (kid : Str) → usable_kid k ≡ ok kid → (k ≡ some kid) × (is_blank kid ≡ false)
unfolding usable_kid
usable_kid_sound none kid h = absurd (cc)
usable_kid_sound (some s) kid h = elim (Bool-cases (is_blank s)) [
  | inl blank ↦ absurd (cc (rw blank at h))
  | inr filled ↦ let e : s ≡ kid = cc (rw filled at h) in (ap some e, rw (← e) filled)
]

declared_alg_sound :
    (a : Option Str) (algorithm : Str) → declared_alg a ≡ ok algorithm → a ≡ some algorithm
unfolding declared_alg
declared_alg_sound none algorithm h = absurd (cc)
declared_alg_sound (some []) algorithm h = absurd (cc)
declared_alg_sound (some (c ∷ s)) algorithm h = cc

module _ {Key : Type 0} (library : Library Key) (algorithms : List Str) where
  -- An entry of a key set that may verify a signature: it was loaded, under its own kid, from a
  -- published key whose algorithm is supported and configured and whose declared use, if any, is to
  -- verify; an RSA key has at least 2048 bits.
  pub record IsVerifying (entry : Str × Jwk Key) : Type 0 where
    pub kid : entry.1.kid ≡ entry.0
    pub filled : is_blank entry.0 ≡ false
    pub source : Published
    pub source_kid : source.kid ≡ some entry.0
    pub source_alg : source.alg ≡ some entry.1.algorithm
    pub loader : Loader
    pub supported : loader_of entry.1.algorithm ≡ some loader
    pub configured : member entry.1.algorithm algorithms ≡ true
    pub verifies : not_for_verifying source ≡ false
    pub key : library.from_jwk loader source ≡ some entry.1.key
    pub strong : loader ≡ rsa → 2048 ≤ library.rsa_bits entry.1.key

  kept_cases :
      (loader : Loader) (kid algorithm : Str) (keys : List (Str × Jwk Key)) (key : Key)
      → (kept library algorithms loader kid algorithm keys key ≡ keys)
        ⊎ ((kept library algorithms loader kid algorithm keys key
              ≡ keys ++ ((kid, record { kid = kid; algorithm = algorithm; key = key }) ∷ []))
            × (loader ≡ rsa → 2048 ≤ library.rsa_bits key))
  unfolding kept is_rsa
  kept_cases loader kid algorithm keys key =
      elim (Bool-cases (is_rsa loader && ltb (library.rsa_bits key) 2048)) [
        | inl weak ↦ inl (rw weak refl)
        | inr strong ↦ inr (rw strong refl, λ e. long (rw e at strong))
      ]
    where
      long : (is_rsa rsa && ltb (library.rsa_bits key) 2048) ≡ false → 2048 ≤ library.rsa_bits key
      long h = ground arith

  loaded_sound :
      (loader : Loader) (p : Published) (key : Key)
      → loaded library algorithms loader p ≡ ok key
      → library.from_jwk loader p ≡ some key
  unfolding loaded
  loaded_sound loader p key h = elim (Option-cases (library.from_jwk loader p)) [
    | inl fails ↦ absurd (cc (rw (loaded, fails) at h))
    | inr (k, loads) ↦ loads ∙ ap some (cc (rw (loaded, loads) at h))
  ]

  -- one entry more leaves the keys as they are, or adds one that may verify
  considered_sound :
      (loader : Loader) (p : Published) (kid algorithm : Str) (keys more : List (Str × Jwk Key))
      → p.kid ≡ some kid
      → is_blank kid ≡ false
      → p.alg ≡ some algorithm
      → loader_of algorithm ≡ some loader
      → member algorithm algorithms ≡ true
      → All IsVerifying keys
      → considered library algorithms loader p kid algorithm keys ≡ ok more
      → All IsVerifying more × (length more ≤ suc (length keys))
  unfolding considered
  considered_sound loader p kid algorithm keys more k b a l m good h =
      elim (Option-cases (lookup kid keys)) [
        | inr (jwk, seen) ↦ same (cc (rw (considered, seen) at h))
        | inl new ↦ elim (Bool-cases (not_for_verifying p)) [
          | inl unfit ↦ same (cc (rw (considered, new, unfit) at h))
          | inr fit ↦
              let (key, loads, last) =
                bind-eq-ok (loaded library algorithms loader p) _
                  (rw (considered, new, fit) at h) in
              step key fit (loaded_sound loader p key loads)
                (kept_cases loader kid algorithm keys key) (whole key last)
        ]
      ]
    where
      same : keys ≡ more → All IsVerifying more × (length more ≤ suc (length keys))
      same e = rw (← e) (good, omega arith)

      whole :
          (key : Key)
          → ok (kept library algorithms loader kid algorithm keys key) ≡ ok more
          → kept library algorithms loader kid algorithm keys key ≡ more
      whole key e = cc

      step :
          (key : Key)
          → not_for_verifying p ≡ false
          → library.from_jwk loader p ≡ some key
          → (kept library algorithms loader kid algorithm keys key ≡ keys)
            ⊎ ((kept library algorithms loader kid algorithm keys key
                  ≡ keys ++ ((kid, record { kid = kid; algorithm = algorithm; key = key }) ∷ []))
                × (loader ≡ rsa → 2048 ≤ library.rsa_bits key))
          → kept library algorithms loader kid algorithm keys key ≡ more
          → All IsVerifying more × (length more ≤ suc (length keys))
      step key fit loads (inl weak) e = same (sym weak ∙ e)
      step key fit loads (inr (added, strong)) e = rw (← (sym added ∙ e)) (
        All-append IsVerifying keys _ good (
          record {
            kid = refl;
            filled = b;
            source = p;
            source_kid = k;
            source_alg = a;
            loader = loader;
            supported = l;
            configured = m;
            verifies = fit;
            key = loads;
            strong = strong;
          },
          tt,
        ),
        omega (
          arith,
          length-append keys ((kid, record { kid = kid; algorithm = algorithm; key = key }) ∷ []),
        ),
      )

  collect_sound :
      (e : Entry) (keys more : List (Str × Jwk Key))
      → All IsVerifying keys
      → collect library algorithms e keys ≡ ok more
      → All IsVerifying more × (length more ≤ suc (length keys))
  unfolding collect selected
  collect_sound Entry.other keys more good h = absurd (cc)
  collect_sound (Entry.object p) keys more good h =
      let (kid, named, h₁) = bind-eq-ok (usable_kid p.kid) _ h in
      let (algorithm, declared, h₂) = bind-eq-ok (declared_alg p.alg) _ h₁ in
      let (k, b) = usable_kid_sound p.kid kid named in
      chosen kid algorithm k b (declared_alg_sound p.alg algorithm declared) (loader_of algorithm)
        refl h₂
    where
      same : keys ≡ more → All IsVerifying more × (length more ≤ suc (length keys))
      same e = rw (← e) (good, omega arith)

      chosen :
          (kid algorithm : Str)
          → p.kid ≡ some kid
          → is_blank kid ≡ false
          → p.alg ≡ some algorithm
          → (l : Option Loader) → loader_of algorithm ≡ l
          → selected library algorithms l p kid algorithm keys ≡ ok more
          → All IsVerifying more × (length more ≤ suc (length keys))
      chosen kid algorithm k b a none l h = same (ok_of h)
      chosen kid algorithm k b a (some loader) l h =
          elim (Bool-cases (member algorithm algorithms)) [
            | inr left_out ↦ same (ok_of (rw left_out at h))
            | inl configured ↦
                considered_sound loader p kid algorithm keys more k b a l configured good
                  (rw configured at h)
          ]

  collect_all_sound :
      (es : List Entry) (keys more : List (Str × Jwk Key))
      → All IsVerifying keys
      → collect_all library algorithms es keys ≡ ok more
      → All IsVerifying more × (length more ≤ length keys + length es)
  unfolding collect_all
  collect_all_sound [] keys more good h = let e : keys ≡ more = cc in rw (← e) (good, omega arith)
  collect_all_sound (e ∷ es) keys more good h =
      let (next, collected, rest) = bind-eq-ok (collect library algorithms e keys) _ h in
      let (good', short) = collect_sound e keys next good collected in
      let (all, few) = collect_all_sound es next more good' rest in (all, omega arith)

  -- A response that is accepted as a key set holds at most the configured number of keys, each of
  -- which may verify a signature: it was loaded, under its own kid, from a published key whose
  -- algorithm is supported and configured and whose declared use, if any, is to verify; an RSA key
  -- has at least 2048 bits.
  pub parsed-IsVerifying :
      (max_keys : ℕ) (r : Response) (keys : List (Str × Jwk Key))
      → parsed library algorithms max_keys r ≡ ok keys
      → All IsVerifying keys × (length keys ≤ max_keys)
  unfolding parsed published
  parsed-IsVerifying max_keys r keys h =
      let (_, answered, h₁) = bind-eq-ok (check_answer library algorithms r) _ h in
      let (ks, read, h₂) = bind-eq-ok (document library algorithms r.content) _ h₁ in
      from_keys ks h₂
    where
      from_keys :
          (ks : Keys)
          → published library algorithms max_keys ks ≡ ok keys
          → All IsVerifying keys × (length keys ≤ max_keys)
      from_keys Keys.other h = absurd (cc)
      from_keys (Keys.list es) h =
          let (_, few, rest) =
            bind-eq-ok (refuse_if (ltb max_keys (length es)) (unavailable jwks_too_many)) _ h in
          let (good, short) = collect_all_sound es [] keys tt rest in
          (good, ground (arith, short, refuse_if-ok _ _ few))
