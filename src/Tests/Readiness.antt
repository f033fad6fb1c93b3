-- ===== src/Tests/Readiness.antt =====
-- A server that the first probe does not reach, and one that broke the contract.
use fastapi_better_auth.Latches.{latched}
use fastapi_better_auth.NegativeCache.{holds, get}
use fastapi_better_auth.Csrf.{enforce_policy}
use fastapi_better_auth.Codec.{unquote}
use fastapi_better_auth.Remote.Rungs.{rung_one, token_of, rung_two}
use fastapi_better_auth.Text.{str_eq, starts_with, contains, rpartition}
use fastapi_better_auth.Remote.Verifier.Recovery.{ready_recovers, Calls, ready_refused}
use fastapi_better_auth.Cookies.Chunks.{
  resolve_named_cookie, value_for_base, whole_values, chunks_of, is_chunk, chosen,
}
use fastapi_better_auth.Errors.{
  Raised, session, Reason, raise, auth_service_unavailable, ok, configuration, probe_not_null,
  probe_unreached,
}
use fastapi_better_auth.Tests.Verifier.{
  config, credential, times, validate, same_bytes, state_until,
}
use fastapi_better_auth.Tests.Verifier.{network as steady}
use fastapi_better_auth.Tests.Remote.{fromisoformat, read_int}
use fastapi_better_auth.Tests.Parsing.{toy_hmac}
use fastapi_better_auth.Remote.Verifier.{
  Network, State, Times, verify, ready, remembered_dead, backing_off, may_probe, attempt_probe,
}
use fastapi_better_auth.CookieVerifier.{snapshot}
use fastapi_better_auth.Base.{
  Bool-cases, true, ℕ, if◌then◌else◌, ◌≡◌, none, ◌≢◌, ltb, suc, inl, arith, inr, refl,
}

abbrev unreached : Raised
unreached = session auth_service_unavailable probe_unreached

-- the state of the network counts its calls
abbrev network : Network ℕ ℕ
network = record steady { run_probe = λ n. (if ltb n 1 then raise unreached else ok tt, suc n) }

never : (t : ℕ) (q : Reason) → (network.run_probe t).0 ≢ raise (configuration q)
never t q h = elim (Bool-cases (ltb t 1)) [
  | inl early ↦ absurd (cc (rw early at h))
  | inr late ↦ absurd (cc (rw late at h))
]

-- the state after a request at second 3
abbrev after_outage : State ℕ
after_outage =
    (verify network validate toy_hmac same_bytes fromisoformat read_int (λ n. true) config
      (snapshot credential) 1 times (state_until none)).1

reached : after_outage.network ≡ 1
unfolding verify resolve_named_cookie value_for_base whole_values chunks_of is_chunk chosen str_eq
    starts_with rung_one token_of unquote contains rpartition enforce_policy rung_two
    remembered_dead holds get backing_off latched ready may_probe attempt_probe
reached = refl

abbrev later : Times
later = record times { probing = 13; attempted = 13 }

ready_recovers_example :
    ((ready network (λ n. true) later after_outage).0 ≡ ok tt)
    × (ready network (λ n. true) later (ready network (λ n. true) later after_outage).1
        ≡ (ok tt, (ready network (λ n. true) later after_outage).1))
ready_recovers_example =
    ready_recovers network (λ n. true) validate toy_hmac same_bytes fromisoformat read_int
      (state_until none) after_outage 13 later refl refl never
      (Calls.then_verify config (snapshot credential) 1 times (omega arith) Calls.none_yet)
      (omega arith) (rw reached refl) 30 (ready network (λ n. true) later after_outage).1 later
      Calls.none_yet

-- a server whose probe finds the contract broken
abbrev broken : Network ℕ ℕ
broken = record steady { run_probe = λ n. (raise (configuration probe_not_null), suc n) }

abbrev first_request : State ℕ
first_request = (ready broken (λ n. true) times (state_until none)).1

-- a further request, at second 13
abbrev second_request : State ℕ
second_request =
    (verify broken validate toy_hmac same_bytes fromisoformat read_int (λ n. true) config
      (snapshot credential) 1 later first_request).1

abbrev much_later : Times
much_later = record times { probing = 40; attempted = 40 }

ready_refused_example :
    ((ready broken (λ n. true) times (state_until none)).0 ≡ raise (configuration probe_not_null))
    × (ready broken (λ n. true) much_later second_request
        ≡ (raise (configuration probe_not_null), second_request))
unfolding may_probe
ready_refused_example =
    ready_refused broken (λ n. true) validate toy_hmac same_bytes fromisoformat read_int
      (state_until none) second_request 23 times much_later probe_not_null refl refl refl refl
      (Calls.then_verify config (snapshot credential) 1 later (omega arith) Calls.none_yet)
