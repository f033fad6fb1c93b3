-- ===== src/Dispatcher/Contained.antt =====
-- core.py: the exceptions that leave the dispatcher.
use fastapi_better_auth.Base.{
  ◌≡◌, refl, ◌⊎◌, inl, inr, Bool, true, false, Option, none, some, List, [], ◌∷◌, arith, Bool-cases,
}
use fastapi_better_auth.Errors.{
  Raised, session, Result, ok, raise, is_better_auth, is_session_error, is_exception, unwrapped,
}
use fastapi_better_auth.Exec.Raises.{Raises, raise_of, pure-Raises, throw-Raises, bind-Raises}
use fastapi_better_auth.Csrf.{Connection}
use fastapi_better_auth.Dispatcher.{
  Found, Returned, Verifier, is_ours, resolved, handled, presence, extracted, verified, presented,
  checked, dispatched, authenticate, current_session, ambiguous_credentials, kept, required,
  several_presented, missing_credential, nothing_presented,
}

-- A SessionError, a BetterAuthError, or no Exception at all (a cancellation).
abbrev pub IsContained : Raised → Type 0
IsContained e = (is_ours e ≡ true) ⊎ (is_exception e ≡ false)

handled-IsContained :
    {A : Type 0} (honoured : Raised → Bool) (r : Result A) (e : Raised)
    → ((d : Raised) → honoured d ≡ true → is_ours d ≡ true)
    → handled honoured r ≡ raise e
    → IsContained e
unfolding handled resolved is_better_auth is_session_error
handled-IsContained honoured (ok a) e sub h = cc
handled-IsContained {A} honoured (raise d) e sub h = elim (Bool-cases (honoured d)) [
  | inl holds ↦ inl (sub e (rw (← raise_of A (rw holds at h)) holds))
  | inr fails ↦ elim (Bool-cases (is_exception d)) [
    | inr exit ↦ inr (rw (← raise_of A (rw (fails, exit) at h)) exit)
    | inl accident ↦ elim (Bool-cases (honoured (unwrapped d))) [
      | inl leaf ↦ inl (sub e (rw (← raise_of A (rw (fails, accident, leaf) at h)) leaf))
      | inr other ↦ inl (rw (← raise_of A (rw (fails, accident, other) at h)) refl)
    ]
  ]
]

presence-Contained :
    {W C : Type 0} (found : Found C) → Raises {W = W} IsContained (λ w. (presence found, w))
unfolding presence is_better_auth
presence-Contained Found.absent = pure-Raises IsContained none
presence-Contained (Found.credential c) = pure-Raises IsContained (some c)
presence-Contained Found.awaitable = throw-Raises IsContained _ (inl refl)

checked-Contained :
    {W Model Answer : Type 0} (is_user : Model → Answer → Bool) (answer : Returned Answer)
    (model : Model)
    → Raises {W = W} IsContained (λ w. (checked is_user answer model, w))
unfolding checked is_better_auth
checked-Contained is_user Returned.foreign model = throw-Raises IsContained _ (inl refl)
checked-Contained is_user (Returned.answered s) model = elim (Bool-cases (is_user model s)) [
  | inl holds ↦ rw holds (pure-Raises IsContained s)
  | inr fails ↦ rw fails (throw-Raises IsContained _ (inl refl))
]

required-Contained :
    {W A : Type 0} (found : Option A) → Raises {W = W} IsContained (λ w. (required found, w))
unfolding required is_session_error is_better_auth
required-Contained none =
    throw-Raises IsContained (session missing_credential nothing_presented) (inl refl)
required-Contained (some s) = pure-Raises IsContained s

module _ {W Credential Model Answer : Type 0} where
  extracted-Contained :
      (v : Verifier W Credential Model Answer) (connection : Connection)
      → Raises IsContained (extracted v connection)
  unfolding extracted
  extracted-Contained v connection =
      bind-Raises IsContained
        (λ w. (handled is_better_auth (v.extract connection w).0, (v.extract connection w).1)) _
        (λ w e h. handled-IsContained is_better_auth _ e (λ d k. ground arith) h)
        (λ found. presence-Contained found)

  verified-Contained :
      (v : Verifier W Credential Model Answer) (c : Credential) (model : Model)
      → Raises IsContained (verified v c model)
  unfolding verified
  verified-Contained v c model w e h = handled-IsContained is_ours _ e (λ d k. k) h

  presented-Contained :
      (vs : List (Verifier W Credential Model Answer)) (connection : Connection)
      → Raises IsContained (presented vs connection)
  unfolding presented
  presented-Contained [] connection = pure-Raises IsContained []
  presented-Contained (v ∷ vs) connection =
      bind-Raises IsContained (extracted v connection) _ (extracted-Contained v connection)
        (λ found.
          bind-Raises IsContained (presented vs connection) _ (presented-Contained vs connection)
            (λ rest. pure-Raises IsContained (kept v found rest)))

  module _ (is_user : Model → Answer → Bool) where
    dispatched-Contained :
        (found : List (Verifier W Credential Model Answer × Credential)) (model : Model)
        → Raises IsContained (dispatched is_user found model)
    unfolding dispatched is_session_error is_better_auth
    dispatched-Contained [] model = pure-Raises IsContained none
    dispatched-Contained ((v, c) ∷ []) model =
        bind-Raises IsContained (verified v c model) _ (verified-Contained v c model) (λ answer.
          bind-Raises IsContained (λ w. (checked is_user answer model, w)) _
            (checked-Contained is_user answer model) (λ s. pure-Raises IsContained (some s)))
    dispatched-Contained (p ∷ q ∷ ps) model =
        throw-Raises IsContained (session ambiguous_credentials several_presented) (inl refl)

    pub authenticate-Contained :
        (vs : List (Verifier W Credential Model Answer)) (connection : Connection) (model : Model)
        → Raises IsContained (authenticate is_user vs connection model)
    unfolding authenticate
    authenticate-Contained vs connection model =
        bind-Raises IsContained (presented vs connection) _ (presented-Contained vs connection)
          (λ found. dispatched-Contained found model)

    -- Whatever the verifiers do, what leaves the dependency of current_session is a SessionError, a
    -- BetterAuthError or no Exception at all (a cancellation): no accident of theirs gets through.
    pub current_session-IsContained :
        (vs : List (Verifier W Credential Model Answer)) (connection : Connection) (model : Model)
        (w : W) (e : Raised)
        → (current_session is_user vs connection model w).0 ≡ raise e
        → (is_session_error e ≡ true) ⊎ (is_better_auth e ≡ true) ⊎ (is_exception e ≡ false)
    unfolding current_session is_session_error
    current_session-IsContained vs connection model w e h = ours e (
        bind-Raises IsContained (authenticate is_user vs connection model) _
          (authenticate-Contained vs connection model) required-Contained w e h)
      where
        ours :
            (d : Raised)
            → IsContained d
            → (is_session_error d ≡ true) ⊎ (is_better_auth d ≡ true) ⊎ (is_exception d ≡ false)
        ours d h = ground arith
