-- ===== src/Remote/Verifier/Recovery.antt =====
-- remote_verifier.py: the readiness gate over a run of requests.
use fastapi_better_auth.Base.{ℤ, ℕ, ◌+◌, ◌≤◌, ◌≡◌, refl, Bool, false, Option, none, ◌≢◌, true}
use fastapi_better_auth.Text.{Str, Bytes}
use fastapi_better_auth.Errors.{Reason, Result, ok, raise, configuration}
use fastapi_better_auth.CookieVerifier.{Credential}
use fastapi_better_auth.Remote.Verifier.{
  Config, Network, State, Times, ready, prepare, verify, probe_retry_interval, may_probe,
}
use fastapi_better_auth.Remote.Verifier.Calls.{Steps, joined, verify-Steps}
use fastapi_better_auth.Remote.Verifier.Openable.{
  IsOpenable, passed_kept, refused_kept, ready_broken, steps_passed, steps_refused,
  steps-IsOpenable, ready_opens,
}

module _ {T Payload : Type 0} (network : Network T Payload) (is_cancelled : ℕ → Bool) where
  module _ {Model User : Type 0} (model_validate : Model → Payload → Result (Option User))
      (hmac_sha256 : Bytes → Bytes → Bytes) (sha256 : Bytes → Bytes)
      (fromisoformat : Str → Option ℕ) (read_int : Str → Option ℤ) where
    -- Calls of `verify` and `prepare`, each at least the retry interval before `deadline`.
    pub data Calls (deadline : ℕ) : State T → State T → Type 0 where
      none_yet : {st : State T} → Calls deadline st st
      then_verify :
          {st last : State T} (config : Config) (c : Credential) (model : Model) (times : Times)
          → times.attempted + probe_retry_interval ≤ deadline
          → Calls deadline
              (verify network model_validate hmac_sha256 sha256 fromisoformat read_int is_cancelled
                config c model times st).1
              last
          → Calls deadline st last
      then_prepare :
          {st last : State T} (times : Times)
          → times.attempted + probe_retry_interval ≤ deadline
          → Calls deadline (prepare network is_cancelled times st).1 last
          → Calls deadline st last

    calls_steps :
        {deadline : ℕ} {st last : State T}
        → Calls deadline st last
        → Steps network is_cancelled deadline st last
    unfolding prepare
    calls_steps Calls.none_yet = Steps.rest
    calls_steps {deadline} {st} (Calls.then_verify config c model times old rest_) =
        joined network is_cancelled deadline
          (verify-Steps network is_cancelled deadline model_validate hmac_sha256 sha256
            fromisoformat read_int config c model times st old)
          (calls_steps rest_)
    calls_steps {deadline} {st} (Calls.then_prepare times old rest_) =
        Steps.asks times old (calls_steps rest_)

    -- An outage ends: from a state that no probe was sent in, whatever requests and calls of `prepare` came
    -- while the server could not be reached, as long as none of the probes found the contract broken, the
    -- first request at least ten seconds after the last of them whose probe succeeds passes the gate, and
    -- after any further calls every later one passes it without a probe.
    pub ready_recovers :
        (st last : State T) (deadline : ℕ) (times : Times)
        → st.contract_failure ≡ none
        → st.probe_attempted_at ≡ none
        → ((t : T) (q : Reason) → (network.run_probe t).0 ≢ raise (configuration q))
        → Calls deadline st last
        → deadline ≤ times.probing
        → (network.run_probe last.network).0 ≡ ok tt
        → (horizon : ℕ) (final : State T) (after_ : Times)
        → Calls horizon (ready network is_cancelled times last).1 final
        → ((ready network is_cancelled times last).0 ≡ ok tt)
          × (ready network is_cancelled after_ final ≡ (ok tt, final))
    ready_recovers st last deadline times unfailed fresh never calls late up horizon final after_
          more =
        let hopeful =
          steps-IsOpenable network is_cancelled never (calls_steps calls)
            (IsOpenable.due unfailed (rw fresh (unfold may_probe in refl))) in
        let (passes, stays) =
          ready_opens network is_cancelled never deadline times last hopeful late up in
        (
          passes,
          passed_kept network is_cancelled after_ final
              (steps_passed network is_cancelled (calls_steps more) stays),
        )

    -- A broken contract is for good: where a probe is due and finds it, the gate refuses that request with the
    -- configuration error of the probe, and it refuses every later one that comes to it with the same error,
    -- without a probe, whatever requests and calls of `prepare` came between.
    pub ready_refused :
        (st last : State T) (deadline : ℕ) (first times : Times) (q : Reason)
        → st.probed_ok ≡ false
        → st.contract_failure ≡ none
        → may_probe network first.probing st.probe_attempted_at ≡ true
        → (network.run_probe st.network).0 ≡ raise (configuration q)
        → Calls deadline (ready network is_cancelled first st).1 last
        → ((ready network is_cancelled first st).0 ≡ raise (configuration q))
          × (ready network is_cancelled times last ≡ (raise (configuration q), last))
    ready_refused st last deadline first times q fresh unfailed due found calls =
        let (refused, kept, noted_) =
          ready_broken network is_cancelled first st q fresh unfailed due found in
        let (h, f) = steps_refused network is_cancelled q (calls_steps calls) kept noted_ in
        (refused, refused_kept network is_cancelled times last q h f)
