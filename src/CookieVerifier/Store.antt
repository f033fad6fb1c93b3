-- ===== src/CookieVerifier/Store.antt =====
-- cookie_verifier.py: what a lookup lets through of a store.
use fastapi_better_auth.Base.{
  ◌≡◌, refl, ◌⊎◌, inl, inr, true, false, ◌||◌, Option, arith, Bool-cases,
}
use fastapi_better_auth.Text.{Str}
use fastapi_better_auth.Errors.{
  Raised, session, Result, ok, raise, is_better_auth, is_session_error, is_exception,
}
use fastapi_better_auth.Latches.Outage.{OutageLatch}
use fastapi_better_auth.CookieVerifier.{
  StoredSession, StoredUser, State, contain, looked_up, looked_up_user, Failures, SessionStore,
  auth_service_unavailable, store_unavailable,
}

-- An exception that the library owns, or that no handler of Exception catches.
abbrev pub IsOwn : Raised → Type 0
IsOwn e = ((is_better_auth e || is_session_error e) ≡ true) ⊎ (is_exception e ≡ false)

module _ {Kind : Type 0} (failures : Failures Kind) where
  contain-IsOwn :
      {A : Type 0} (r : Result A) (l : OutageLatch Kind) (e : Raised)
      → (contain failures r l).0 ≡ raise e
      → IsOwn e
  unfolding contain is_session_error is_better_auth
  contain-IsOwn (ok a) l e h = cc
  contain-IsOwn (raise x) l e h = elim (Bool-cases (is_better_auth x || is_session_error x)) [
    | inl own ↦ let same : x ≡ e = ground arith in inl (rw (← same) own)
    | inr foreign ↦ elim (Bool-cases (is_exception x)) [
      | inl caught ↦
          let same : session auth_service_unavailable store_unavailable ≡ e = ground arith in
          inl (rw (← same) refl)
      | inr exit ↦ let same : x ≡ e = ground arith in inr (rw (← same) exit)
    ]
  ]

  contain-ok :
      {A : Type 0} (r : Result A) (l : OutageLatch Kind) (a : A)
      → (contain failures r l).0 ≡ ok a
      → r ≡ ok a
  unfolding contain
  contain-ok (ok b) l a h = h
  contain-ok (raise x) l a h = absurd (ground arith)

  module _ {S Payload : Type 0} (sessions : SessionStore S Payload) (st : State S Kind) where
    -- Whatever a store raises, a lookup raises only an exception of the library's own or one that
    -- no handler of Exception catches: the store's own exceptions become the uniform refusal.
    pub lookups-IsOwn :
        (token user_id : Str) (e : Raised)
        → ((looked_up failures sessions token st).0 ≡ raise e)
          ⊎ ((looked_up_user failures sessions user_id st).0 ≡ raise e)
        → IsOwn e
    unfolding looked_up looked_up_user
    lookups-IsOwn token user_id e (inl h) = contain-IsOwn _ st.session_outage e h
    lookups-IsOwn token user_id e (inr h) = contain-IsOwn _ st.user_outage e h

    pub looked_up-ok :
        (token : Str) (a : Option (StoredSession Payload))
        → (looked_up failures sessions token st).0 ≡ ok a
        → (sessions.fetch_session_by_token token st.store).0 ≡ ok a
    unfolding looked_up
    looked_up-ok token a h = contain-ok _ st.session_outage a h

    pub store-looked_up :
        (token : Str)
        → (looked_up failures sessions token st).1.store
          ≡ (sessions.fetch_session_by_token token st.store).1
    unfolding looked_up
    store-looked_up token = refl

    pub looked_up_user-ok :
        (user_id : Str) (a : Option (StoredUser Payload))
        → (looked_up_user failures sessions user_id st).0 ≡ ok a
        → (sessions.fetch_user_by_id user_id st.store).0 ≡ ok a
    unfolding looked_up_user
    looked_up_user-ok user_id a h = contain-ok _ st.user_outage a h

    pub looked_up_found :
        (token : Str) (a : Option (StoredSession Payload))
        → (sessions.fetch_session_by_token token st.store).0 ≡ ok a
        → (looked_up failures sessions token st).0 ≡ ok a
    unfolding looked_up contain
    looked_up_found token a h = rw h

    pub looked_up_user_found :
        (user_id : Str) (a : Option (StoredUser Payload))
        → (sessions.fetch_user_by_id user_id st.store).0 ≡ ok a
        → (looked_up_user failures sessions user_id st).0 ≡ ok a
    unfolding looked_up_user contain
    looked_up_user_found user_id a h = rw h
