-- ===== src/Dispatcher/Order.antt =====
-- core.py: `_authenticate` over verifiers whose `extract` only looks at the request.
use mathlib.Core.List.{Permᴰ}
use mathlib.Core.List.Permᴰ
use mathlib.Core.Path.{subst}
use fastapi_better_auth.Base.{
  ◌≡◌, ◌++◌, refl, ap, ◌∙◌, Bool, Option, none, some, List, [], ◌∷◌, All,
}
use fastapi_better_auth.Errors.{session, ok, raise, ambiguous_credentials, several_presented}
use fastapi_better_auth.Csrf.{Connection}
use fastapi_better_auth.Dispatcher.{
  Found, Verifier, handled, presence, extracted, presented, dispatched, kept, authenticate,
}

-- a credential, or None
abbrev found_of : {C : Type 0} → Option C → Found C
found_of none = Found.absent
found_of (some c) = Found.credential c

module _ {W Credential Model Answer : Type 0} (connection : Connection)
    (peek : Verifier W Credential Model Answer → Option Credential) where
  -- `extract` of the verifier finds what `peek` says, and changes nothing
  abbrev pub IsLook : Verifier W Credential Model Answer → Type 0
  IsLook v = (w : W) → v.extract connection w ≡ (ok (found_of (peek v)), w)

  claims :
      List (Verifier W Credential Model Answer)
      → List (Verifier W Credential Model Answer × Credential)
  claims [] = []
  claims (v ∷ vs) = kept v (peek v) (claims vs)

  presence_found : (o : Option Credential) → presence (found_of o) ≡ ok o
  unfolding presence
  presence_found none = refl
  presence_found (some c) = refl

  kept_lead :
      (v : Verifier W Credential Model Answer) (o : Option Credential)
      (p : Verifier W Credential Model Answer × Credential)
      (ps : List (Verifier W Credential Model Answer × Credential))
      → (q : _) × (qs : _) × (kept v o (p ∷ ps) ≡ q ∷ qs)
  unfolding kept
  kept_lead v none p ps = (p, ps, refl)
  kept_lead v (some c) p ps = ((v, c), p ∷ ps, refl)

  kept_leads :
      (v : Verifier W Credential Model Answer) (o : Option Credential)
      (p q : Verifier W Credential Model Answer × Credential)
      (ps : List (Verifier W Credential Model Answer × Credential))
      → (a : _) × (b : _) × (cs : _) × (kept v o (p ∷ q ∷ ps) ≡ a ∷ b ∷ cs)
  unfolding kept
  kept_leads v none p q ps = (p, q, ps, refl)
  kept_leads v (some c) p q ps = ((v, c), p, q ∷ ps, refl)

  claims_lead :
      (xs us : List (Verifier W Credential Model Answer)) (u : Verifier W Credential Model Answer)
      (d : Credential)
      → peek u ≡ some d
      → (p : _) × (ps : _) × (claims (xs ++ (u ∷ us)) ≡ p ∷ ps)
  unfolding claims kept
  claims_lead [] us u d e = ((u, d), claims us, rw e refl)
  claims_lead (x ∷ xs) us u d e =
      let (p, ps, h) = claims_lead xs us u d e in
      let (q, qs, k) = kept_lead x (peek x) p ps in (q, qs, rw h k)

  claims_leads :
      (xs ys zs : List (Verifier W Credential Model Answer))
      (v u : Verifier W Credential Model Answer) (c d : Credential)
      → peek v ≡ some c
      → peek u ≡ some d
      → (a : _) × (b : _) × (cs : _) × (claims (xs ++ (v ∷ (ys ++ (u ∷ zs)))) ≡ a ∷ b ∷ cs)
  unfolding claims kept
  claims_leads [] ys zs v u c d e f =
      let (p, ps, h) = claims_lead ys zs u d f in ((v, c), p, ps, rw (e, h) refl)
  claims_leads (x ∷ xs) ys zs v u c d e f =
      let (p, q, ps, h) = claims_leads xs ys zs v u c d e f in
      let (a, b, cs, k) = kept_leads x (peek x) p q ps in (a, b, cs, rw h k)

  extracted_look :
      (v : Verifier W Credential Model Answer) (w : W)
      → IsLook v
      → extracted v connection w ≡ (ok (peek v), w)
  unfolding extracted handled
  extracted_look v w h = rw (h w) (ap (λ r. (r, w)) (presence_found (peek v)))

  presented_looks :
      (vs : List (Verifier W Credential Model Answer)) (w : W)
      → All IsLook vs
      → presented vs connection w ≡ (ok (claims vs), w)
  unfolding presented claims
  presented_looks [] w h = refl
  presented_looks (v ∷ vs) w (h, hs) = rw (extracted_look v w h, presented_looks vs w hs) refl

  kept-Permᴰ :
      (v : Verifier W Credential Model Answer) (o : Option Credential)
      {xs ys : List (Verifier W Credential Model Answer × Credential)}
      → Permᴰ xs ys
      → Permᴰ (kept v o xs) (kept v o ys)
  unfolding kept
  kept-Permᴰ v none p = p
  kept-Permᴰ v (some c) p = Permᴰ.cons refl p

  kept_swap :
      (v u : Verifier W Credential Model Answer) (o n : Option Credential)
      (xs : List (Verifier W Credential Model Answer × Credential))
      → Permᴰ (kept v o (kept u n xs)) (kept u n (kept v o xs))
  unfolding kept
  kept_swap v u none n xs = Permᴰ.refl (kept u n xs)
  kept_swap v u (some c) none xs = Permᴰ.refl ((v, c) ∷ xs)
  kept_swap v u (some c) (some d) xs = Permᴰ.swap refl refl

  claims-Permᴰ :
      {vs us : List (Verifier W Credential Model Answer)}
      → Permᴰ vs us
      → Permᴰ (claims vs) (claims us)
  unfolding claims
  claims-Permᴰ Permᴰ.nil = Permᴰ.nil
  claims-Permᴰ (Permᴰ.cons {a = v} {l₁ = vs} {l₂ = us} e p) =
      rw (← e) (kept-Permᴰ v (peek v) (claims-Permᴰ p))
  claims-Permᴰ (Permᴰ.swap {a = v} {b = u} {l = vs} e f) =
      rw (← e, ← f) (kept_swap v u (peek v) (peek u) (claims vs))
  claims-Permᴰ (Permᴰ.trans p q) = Permᴰ.trans (claims-Permᴰ p) (claims-Permᴰ q)

  looks-Permᴰ :
      {vs us : List (Verifier W Credential Model Answer)}
      → Permᴰ vs us
      → All IsLook vs
      → All IsLook us
  looks-Permᴰ Permᴰ.nil h = tt
  looks-Permᴰ (Permᴰ.cons e p) (h, hs) = (subst IsLook e h, looks-Permᴰ p hs)
  looks-Permᴰ (Permᴰ.swap e f) (h, (k, hs)) = (subst IsLook f k, (subst IsLook e h, hs))
  looks-Permᴰ (Permᴰ.trans p q) h = looks-Permᴰ q (looks-Permᴰ p h)

module _ {W Credential Model Answer : Type 0} (is_user : Model → Answer → Bool) where
  dispatched_heads :
      (x y : Verifier W Credential Model Answer × Credential)
      (xs ys : List (Verifier W Credential Model Answer × Credential)) (model : Model)
      → x ≡ y
      → Permᴰ xs ys
      → dispatched is_user (x ∷ xs) model ≡ dispatched is_user (y ∷ ys) model
  unfolding dispatched
  dispatched_heads x y [] [] model e p = rw e refl
  dispatched_heads x y [] (b ∷ ys) model e p = absurd (cc (Permᴰ.length-eq p))
  dispatched_heads x y (a ∷ xs) [] model e p = absurd (cc (Permᴰ.length-eq p))
  dispatched_heads x y (a ∷ xs) (b ∷ ys) model e p = refl

  dispatched-Permᴰ :
      {xs ys : List (Verifier W Credential Model Answer × Credential)} (model : Model)
      → Permᴰ xs ys
      → dispatched is_user xs model ≡ dispatched is_user ys model
  unfolding dispatched
  dispatched-Permᴰ model Permᴰ.nil = refl
  dispatched-Permᴰ model (Permᴰ.cons {a = x} {b = y} {l₁ = xs} {l₂ = ys} e p) =
      dispatched_heads x y xs ys model e p
  dispatched-Permᴰ model (Permᴰ.swap e f) = refl
  dispatched-Permᴰ model (Permᴰ.trans p q) = dispatched-Permᴰ model p ∙ dispatched-Permᴰ model q

  module _ (connection : Connection) (peek : Verifier W Credential Model Answer → Option Credential)
      (model : Model) (w : W) where
    -- When every extract only looks at the request, the order in which the verifiers are listed does
    -- not change what a request is answered, nor the state that answering leaves.
    pub authenticate-perm :
        (vs us : List (Verifier W Credential Model Answer))
        → All (IsLook connection peek) vs
        → Permᴰ vs us
        → authenticate is_user vs connection model w ≡ authenticate is_user us connection model w
    unfolding authenticate
    authenticate-perm vs us h p =
        rw
          (
            presented_looks connection peek vs w h,
            presented_looks connection peek us w (looks-Permᴰ connection peek p h),
          )
          (ap (λ m. m w) (dispatched-Permᴰ model (claims-Permᴰ connection peek p)))

    -- When every extract only looks at the request and two verifiers find a credential, the request
    -- is refused as ambiguous: the state is what it was, so no verify has run.
    pub authenticate_several :
        (xs ys zs : List (Verifier W Credential Model Answer))
        (v u : Verifier W Credential Model Answer) (c d : Credential)
        → All (IsLook connection peek) (xs ++ (v ∷ (ys ++ (u ∷ zs))))
        → peek v ≡ some c
        → peek u ≡ some d
        → authenticate is_user (xs ++ (v ∷ (ys ++ (u ∷ zs)))) connection model w
          ≡ (raise (session ambiguous_credentials several_presented), w)
    unfolding authenticate dispatched
    authenticate_several xs ys zs v u c d h e f =
        let (p, q, ps, k) = claims_leads connection peek xs ys zs v u c d e f in
        rw (presented_looks connection peek (xs ++ (v ∷ (ys ++ (u ∷ zs)))) w h, k) refl
