-- ===== src/Tests/Dispatch.antt =====
-- Two verifiers and the requests that carry credentials for one of them, for both, or for none.
use mathlib.Core.List.{Permᴰ}
use fastapi_better_auth.Base.{
  ℕ, ◌≡◌, refl, Bool, true, false, Option, none, some, List, [], ◌∷◌, ◌⊎◌, ◌==◌, if◌then◌else◌, suc,
}
use fastapi_better_auth.Text.{lit}
use fastapi_better_auth.Errors.{
  session, ok, raise, other, is_better_auth, is_session_error, is_exception, ambiguous_credentials,
  several_presented, invalid_credential, escaped_verifier, unwrapped,
}
use fastapi_better_auth.Csrf.{Connection}
use fastapi_better_auth.Dispatcher.{
  Found, Returned, Call, Verifier, awaited, authenticate, current_session, presented, extracted,
  handled, presence, kept, resolved, verified, dispatched,
}
use fastapi_better_auth.Dispatcher.Dispatch.{IsAnswered, current_session_iff}
use fastapi_better_auth.Dispatcher.Order.{authenticate-perm, authenticate_several}
use fastapi_better_auth.Dispatcher.Contained.{current_session-IsContained}

-- A verifier whose credential is `found` whatever the request; it counts its verifications.
abbrev verifier : ℕ → Option ℕ → Verifier ℕ ℕ ℕ ℕ
verifier n found = record {
  identity = n;
  credential_source = lit "header:a";
  extract = λ c w. (ok (elim found [ none ↦ Found.absent | some k ↦ Found.credential k ]), w);
  verify = λ k m w. (ok (Call.awaitable (λ u. (ok (Returned.answered k), suc u))), w);
}

-- ... and one whose verify raises an accident
abbrev failing : Verifier ℕ ℕ ℕ ℕ
failing = record {
  identity = 9;
  credential_source = lit "header:b";
  extract = λ c w. (ok (Found.credential 9), w);
  verify = λ k m w. (raise (other 5), w);
}

abbrev request : Connection
request = record { method = some (lit "GET"); websocket = false; headers = [] }

abbrev any_user : ℕ → ℕ → Bool
any_user model answer = true

abbrev verifiers : List (Verifier ℕ ℕ ℕ ℕ)
verifiers = verifier 0 none ∷ verifier 1 (some 4) ∷ []

answers : IsAnswered any_user verifiers request 0 0 4 1
unfolding presented extracted handled presence kept awaited
answers = record {
  verifier = verifier 1 (some 4);
  credential = 4;
  between = 0;
  alone = refl;
  accepted = refl;
  of_model = refl;
}

current_session_iff_example : current_session any_user verifiers request 0 0 ≡ (ok 4, 1)
current_session_iff_example = (current_session_iff any_user verifiers request 0 0 1 4).1 answers

-- what the test's verifiers find, read off their identities
abbrev peek : Verifier ℕ ℕ ℕ ℕ → Option ℕ
peek v = if v.identity == 0 then none else some v.identity

abbrev looking : ℕ → Verifier ℕ ℕ ℕ ℕ
looking n = verifier n (if n == 0 then none else some n)

authenticate_several_example :
    authenticate any_user (looking 1 ∷ looking 0 ∷ looking 2 ∷ []) request 0 0
    ≡ (raise (session ambiguous_credentials several_presented), 0)
authenticate_several_example =
    authenticate_several any_user request peek 0 0 [] (looking 0 ∷ []) [] (looking 1) (looking 2) 1
      2 ((λ w. refl), ((λ w. refl), ((λ w. refl), tt))) refl refl

authenticate-perm_example :
    authenticate any_user (looking 0 ∷ looking 2 ∷ []) request 0 0
    ≡ authenticate any_user (looking 2 ∷ looking 0 ∷ []) request 0 0
authenticate-perm_example =
    authenticate-perm any_user request peek 0 0 (looking 0 ∷ looking 2 ∷ [])
      (looking 2 ∷ looking 0 ∷ []) ((λ w. refl), ((λ w. refl), tt)) (Permᴰ.swap refl refl)

refuses :
    (current_session any_user (failing ∷ []) request 0 0).0
    ≡ raise (session invalid_credential escaped_verifier)
unfolding current_session authenticate presented extracted handled presence kept dispatched verified
    resolved is_better_auth is_session_error is_exception unwrapped awaited
refuses = refl

current_session-IsContained_example :
    (is_session_error (session invalid_credential escaped_verifier) ≡ true)
    ⊎ (is_better_auth (session invalid_credential escaped_verifier) ≡ true)
    ⊎ (is_exception (session invalid_credential escaped_verifier) ≡ false)
current_session-IsContained_example =
    current_session-IsContained any_user (failing ∷ []) request 0 0
      (session invalid_credential escaped_verifier) refuses
