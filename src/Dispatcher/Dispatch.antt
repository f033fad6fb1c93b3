-- ===== src/Dispatcher/Dispatch.antt =====
-- core.py: the dependency of current_session, and the credential that it has verified.
use fastapi_better_auth.Base.{
  ◌≡◌, refl, ap, ◌↔◌, Bool, true, Option, none, some, List, [], ◌∷◌, Bool-cases, inl, inr,
}
use fastapi_better_auth.Errors.{Raised, Result, ok, raise}
use fastapi_better_auth.Exec.{◌>>=◌, bind-eq-pair}
use fastapi_better_auth.Csrf.{Connection}
use fastapi_better_auth.Dispatcher.{
  Returned, Verifier, is_ours, handled, awaited, verified, presented, checked, dispatched,
  authenticate, current_session, required, is_exception, lift, pure,
}

handled-ok :
    {A : Type 0} (honoured : Raised → Bool) (r : Result A) (a : A)
    → handled honoured r ≡ ok a
    → r ≡ ok a
unfolding handled
handled-ok honoured (ok b) a h = h
handled-ok honoured (raise e) a h = elim (Bool-cases (honoured e)) [
  | inl holds ↦ absurd (cc (rw holds at h))
  | inr fails ↦ elim (Bool-cases (is_exception e)) [
    | inl accident ↦ absurd (cc (rw (fails, accident) at h))
    | inr exit ↦ absurd (cc (rw (fails, exit) at h))
  ]
]

checked_iff :
    {Model Answer : Type 0} (is_user : Model → Answer → Bool) (answer : Returned Answer)
    (model : Model) (s : Answer)
    → checked is_user answer model ≡ ok s
    → (answer ≡ Returned.answered s) × (is_user model s ≡ true)
unfolding checked
checked_iff is_user Returned.foreign model s h = absurd (cc)
checked_iff is_user (Returned.answered t) model s h = elim (Bool-cases (is_user model t)) [
  | inl holds ↦ let e : t ≡ s = cc (rw holds at h) in (ap Returned.answered e, rw (← e) holds)
  | inr fails ↦ absurd (cc (rw fails at h))
]

pair_of : {A B : Type 0} (p : A × B) {a : A} {b : B} → p.0 ≡ a → p.1 ≡ b → p ≡ (a, b)
pair_of (x, y) e f = rw (e, f) refl

verified-ok :
    {W Credential Model Answer : Type 0} (v : Verifier W Credential Model Answer) (c : Credential)
    (model : Model) (w w' : W) (answer : Returned Answer)
    → verified v c model w ≡ (ok answer, w')
    → (v.verify c model >>= awaited) w ≡ (ok answer, w')
unfolding verified
verified-ok v c model w w' answer h =
    pair_of _ (handled-ok is_ours _ answer (ap (λ p. p.0) h)) (ap (λ p. p.1) h)

module _ {W Credential Model Answer : Type 0} (is_user : Model → Answer → Bool)
    (verifiers : List (Verifier W Credential Model Answer)) (connection : Connection)
    (model : Model) where
  -- One verifier alone was presented with a credential, and accepted it with a session of the
  -- asked model.
  pub record IsAnswered (w : W) (s : Answer) (w' : W) : Type 0 where
    pub verifier : Verifier W Credential Model Answer
    pub credential : Credential
    pub between : W
    pub alone : presented verifiers connection w ≡ (ok ((verifier, credential) ∷ []), between)
    pub accepted :
        (verifier.verify credential model >>= awaited) between ≡ (ok (Returned.answered s), w')
    pub of_model : is_user model s ≡ true

  checked_session :
      (answer : Returned Answer) (t w' : W) (s : Answer)
      → (lift (checked is_user answer model) >>= λ x. pure (some x)) t ≡ (ok (some s), w')
      → (answer ≡ Returned.answered s) × (is_user model s ≡ true) × (t ≡ w')
  unfolding checked
  checked_session Returned.foreign t w' s h = absurd (cc)
  checked_session (Returned.answered x) t w' s h = elim (Bool-cases (is_user model x)) [
    | inl holds ↦
        let e : x ≡ s = cc (rw holds at h) in
        let f : t ≡ w' = cc (rw holds at h) in (ap Returned.answered e, rw (← e) holds, f)
    | inr fails ↦ absurd (cc (rw fails at h))
  ]

  dispatched_sound :
      (found : List (Verifier W Credential Model Answer × Credential)) (w u w' : W) (s : Answer)
      → presented verifiers connection w ≡ (ok found, u)
      → dispatched is_user found model u ≡ (ok (some s), w')
      → IsAnswered w s w'
  unfolding dispatched
  dispatched_sound [] w u w' s e h = absurd (cc)
  dispatched_sound ((v, c) ∷ []) w u w' s e h =
      let (answer, t, ran, rest) = bind-eq-pair (verified v c model) _ u h in
      let (returned, of_model, same) = checked_session answer t w' s rest in
      record {
        verifier = v;
        credential = c;
        between = u;
        alone = e;
        accepted = rw (verified-ok v c model u t answer ran) (rw (returned, same) refl);
        of_model = of_model;
      }
  dispatched_sound (p ∷ q ∷ ps) w u w' s e h = absurd (cc)

  authenticate_sound :
      (w w' : W) (s : Answer)
      → authenticate is_user verifiers connection model w ≡ (ok (some s), w')
      → IsAnswered w s w'
  unfolding authenticate
  authenticate_sound w w' s h =
      let (found, u, asked, rest) = bind-eq-pair (presented verifiers connection) _ w h in
      dispatched_sound found w u w' s asked rest

  authenticate_complete :
      (w w' : W) (s : Answer)
      → IsAnswered w s w'
      → authenticate is_user verifiers connection model w ≡ (ok (some s), w')
  unfolding authenticate dispatched verified handled checked
  authenticate_complete w w' s a = rw (a.alone, a.accepted, a.of_model) refl

  -- The dependency of current_session answers a request with a session exactly if, of all the
  -- verifiers, one alone found a credential, its verify returned an awaitable that returned this
  -- session, and the session's user is of the model asked for.
  pub current_session_iff :
      (w w' : W) (s : Answer)
      → (current_session is_user verifiers connection model w ≡ (ok s, w')) ↔ IsAnswered w s w'
  unfolding current_session required
  current_session_iff w w' s = (sound, λ a. rw (authenticate_complete w w' s a) refl)
    where
      of_found :
          (found : Option Answer) (u : W)
          → lift (required found) u ≡ (ok s, w')
          → (found ≡ some s) × (u ≡ w')
      of_found none u h = absurd (cc)
      of_found (some x) u h = (cc, cc)

      sound : current_session is_user verifiers connection model w ≡ (ok s, w') → IsAnswered w s w'
      sound h =
          let (found, u, ran, rest) =
            bind-eq-pair (authenticate is_user verifiers connection model) _ w h in
          let (one, same) = of_found found u rest in
          authenticate_sound w w' s (rw (ran, one, same) refl)
