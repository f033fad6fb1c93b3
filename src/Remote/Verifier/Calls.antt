-- ===== src/Remote/Verifier/Calls.antt =====
-- remote_verifier.py: what the calls of `verify` do to the readiness gate.
use fastapi_better_auth.Base.{ℤ, ℕ, ◌+◌, ◌≤◌, ◌≡◌, refl, Bool, true, false, not, Option, none, some}
use fastapi_better_auth.Text.{Str, Bytes}
use fastapi_better_auth.Errors.{
  Result, ok, raise, refuse_if, upstream_saturated, upstream_backing_off,
}
use fastapi_better_auth.Exec.{Exec, ◌>>=◌, lift, after}
use fastapi_better_auth.Cookies.{Pair}
use fastapi_better_auth.Cookies.Chunks.{resolve_named_cookie}
use fastapi_better_auth.Csrf.{enforce_policy}
use fastapi_better_auth.Latches.{Backoff, latched}
use fastapi_better_auth.NegativeCache.{NegativeCache, holds, remember}
use fastapi_better_auth.CookieVerifier.{Credential, snapshot, other}
use fastapi_better_auth.Remote.Response.{Response, null_outcome, is_cacheable_null}
use fastapi_better_auth.Remote.Rungs.{unavailable, rung_one, rung_two, proved}
use fastapi_better_auth.Remote.Verifier.{
  Config, Network, State, Times, ready, verify, probe_retry_interval, kept, got, fetched,
  on_network, remembered_if, document, asked, observed, remembered_dead, backing_off,
}

-- Two states with the same gate.
pub record IsSameGate {T : Type 0} (st next : State T) : Type 0 where
  pub probed_ok : next.probed_ok ≡ st.probed_ok
  pub contract_failure : next.contract_failure ≡ st.contract_failure
  pub probe_attempted_at : next.probe_attempted_at ≡ st.probe_attempted_at

module _ {T Payload : Type 0} (network : Network T Payload) (is_cancelled : ℕ → Bool)
    (deadline : ℕ) where
  -- Steps of the gate, each of whose probes is old enough at `deadline`, and of everything beside it.
  pub data Steps : State T → State T → Type 0 where
    rest : {st : State T} → Steps st st
    asks :
        {st last : State T} (times : Times)
        → times.attempted + probe_retry_interval ≤ deadline
        → Steps (ready network is_cancelled times st).1 last
        → Steps st last
    elsewhere : {st next last : State T} → IsSameGate st next → Steps next last → Steps st last

  pub joined : {a b c : State T} → Steps a b → Steps b c → Steps a c
  joined Steps.rest l = l
  joined (Steps.asks times old k) l = Steps.asks times old (joined k l)
  joined (Steps.elsewhere same k) l = Steps.elsewhere same (joined k l)

  -- A method all of whose runs are such steps.
  record IsGated {A : Type 0} (m : Exec (State T) A) : Type 0 where
    steps : (st : State T) → Steps st (m st).1

  bound :
      {A B : Type 0} (m : Exec (State T) A) (f : A → Exec (State T) B)
      → IsGated m
      → ((a : A) → IsGated (f a))
      → IsGated (m >>= f)
  bound {A} {B} m f first next = record { steps = λ st. go (m st) (first.steps st) }
    where
      go : {st : State T} (p : Result A × State T) → Steps st p.1 → Steps st (after p.0 f p.1).1
      go (ok a, u) k = joined k ((next a).steps u)
      go (raise e, u) k = k

  lifted : {A : Type 0} (r : Result A) → IsGated (lift r)
  lifted r = record { steps = λ st. Steps.rest }

  -- whatever is done to the network, the cache and the backoff
  beside :
      (network : T) (cache : NegativeCache) (backoff : Backoff) (st : State T)
      → Steps st (record st { network = network; cache = cache; backoff = backoff })
  beside n cache backoff st =
      Steps.elsewhere
        (record { probed_ok = refl; contract_failure = refl; probe_attempted_at = refl }) Steps.rest

  fetched-IsGated : (cookie : Pair) → IsGated (fetched network cookie)
  unfolding fetched got
  fetched-IsGated cookie =
      bound (on_network network network.acquire) _
        (record { steps = λ st. beside (network.acquire st.network).1 st.cache st.backoff st })
        (λ acquired.
          bound (lift (refuse_if (not acquired) (unavailable upstream_saturated))) _ (lifted _)
            (λ _. record {
              steps = λ st.
                  beside (network.release (network.get cookie st.network).1) st.cache st.backoff st;
            }))

  kept-Steps : (cache : Option NegativeCache) (st : State T) → Steps st (kept network cache st).1
  unfolding kept
  kept-Steps none st = Steps.rest
  kept-Steps (some cache) st = beside st.network cache st.backoff st

  module _ (sha256 : Bytes → Bytes) (fromisoformat : Str → Option ℕ) where
    remembered_if-Steps :
        (b : Bool) (now : ℕ) (material : Str) (st : State T)
        → Steps st (remembered_if network sha256 fromisoformat b now material st).1
    unfolding remembered_if
    remembered_if-Steps true now material st = kept-Steps (remember sha256 now material st.cache) st
    remembered_if-Steps false now material st = Steps.rest

    document-IsGated :
        (now : ℕ) (material : Str) (verified : Bool) (r : Response Payload)
        → IsGated (document network sha256 fromisoformat now material verified r)
    unfolding document
    document-IsGated now material verified r =
        bound (remembered_if network sha256 fromisoformat (is_cacheable_null r) now material) _
          (record { steps = remembered_if-Steps (is_cacheable_null r) now material })
          (λ _. lifted _)

  module _ {Model User : Type 0} (model_validate : Model → Payload → Result (Option User))
      (hmac_sha256 : Bytes → Bytes → Bytes) (sha256 : Bytes → Bytes)
      (fromisoformat : Str → Option ℕ) (read_int : Str → Option ℤ) where
    asked-IsGated :
        (cookie : Pair) (token : Str) (verified : Bool) (model : Model) (times : Times)
        → times.attempted + probe_retry_interval ≤ deadline
        → IsGated (
            asked network model_validate hmac_sha256 sha256 fromisoformat read_int is_cancelled
              cookie token verified model times)
    unfolding asked observed
    asked-IsGated cookie token verified model times old =
        bound (ready network is_cancelled times) _
          (record { steps = λ st. Steps.asks times old Steps.rest })
          (λ _. bound (fetched network cookie) _ (fetched-IsGated cookie) (λ response.
            bound (observed network read_int times.observed response) _
              (record { steps = λ st. beside st.network st.cache _ st })
              (λ _.
                bound
                  (document network sha256 fromisoformat times.remembered cookie.1 verified
                    response)
                  _
                  (document-IsGated sha256 fromisoformat times.remembered cookie.1 verified
                    response)
                  (λ r. lifted (proved model_validate r token model times.expiry times.ban)))))

    verify-IsGated :
        (config : Config) (c : Credential) (model : Model) (times : Times)
        → times.attempted + probe_retry_interval ≤ deadline
        → IsGated (
            verify network model_validate hmac_sha256 sha256 fromisoformat read_int is_cancelled
              config c model times)
    unfolding verify remembered_dead backing_off
    verify-IsGated config other model times old = lifted _
    verify-IsGated config (snapshot c) model times old =
        bound (lift (resolve_named_cookie c.pairs config.base)) _ (lifted _) (λ cookie.
          bound (lift (rung_one cookie.1)) _ (lifted _) (λ token.
            bound (lift (enforce_policy config.policy c.facts token)) _ (lifted _) (λ _.
              bound (lift (rung_two hmac_sha256 config.secrets cookie.1)) _ (lifted _) (λ verified.
                bound (remembered_dead network sha256 times.held cookie.1) _
                  (record {
                    steps = λ st.
                        beside st.network (holds sha256 times.held cookie.1 st.cache).0 st.backoff
                          st;
                  })
                  (λ dead. bound (lift (refuse_if dead (null_outcome verified))) _ (lifted _) (λ _.
                    bound (backing_off network times.blocked) _
                      (record {
                        steps = λ st.
                            beside st.network st.cache (latched times.blocked st.backoff).0 st;
                      })
                      (λ blocked.
                        bound (lift (refuse_if blocked (unavailable upstream_backing_off))) _
                          (lifted _)
                          (λ _. asked-IsGated cookie token verified model times old))))))))

    -- A call of `verify` goes through the gate once at most, and touches it nowhere else.
    pub verify-Steps :
        (config : Config) (c : Credential) (model : Model) (times : Times) (st : State T)
        → times.attempted + probe_retry_interval ≤ deadline
        → Steps st
            (verify network model_validate hmac_sha256 sha256 fromisoformat read_int is_cancelled
              config c model times st).1
    verify-Steps config c model times st old = (verify-IsGated config c model times old).steps st
