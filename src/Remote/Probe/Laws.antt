-- ===== src/Remote/Probe/Laws.antt =====
-- remote_probe.py: which deployments pass, and which faults are the deployment's.
use fastapi_better_auth.Text.{lit, Str}
use fastapi_better_auth.Base.{ℕ, ◌≡◌, ◌↔◌, sym, ap, ◌∙◌, Bool, none, some, inl, inr, Option, ◌++◌}
use fastapi_better_auth.Errors.{Result, ok, raise, Result-cases, configuration, Reason}
use fastapi_better_auth.Exec.{bind-eq-ok, lift-eq-ok}
use fastapi_better_auth.Remote.Response.{Response}
use fastapi_better_auth.Remote.Probe.{
  State, Transport, translated, Str, run_probe, probe_get, advise, assert_null_contract,
}
use fastapi_better_auth.Remote.Probe.Contract.{
  IsNullContract, assert_null_contract, assert_null_contract-IsNullContract,
}
use fastapi_better_auth.Remote.Probe.Answers.{
  IsAccepted, IsFault, answer_kept, translated-ok, translated-configuration, answered_iff,
  answered-IsFault, raised_of,
}

module _ {T Payload : Type 0} (transport : Transport T Payload) where
  module _ (fromisoformat : Str → Option ℕ) (token : Str) (refuse : Bool) (st : State T) where
    -- the two requests of a run
    abbrev pub first : Result (Response Payload) × T
    first = transport.get none st.network

    abbrev pub second : Result (Response Payload) × T
    second = transport.get (some (lit "Bearer " ++ token)) first.1

    -- The probe passes exactly if the request without a credential is answered 200, as JSON, with null, and
    -- the one with a manufactured bearer token with no cookie to set; where a permissive upstream is only
    -- warned of, whatever that second request brings passes, short of a cancellation.
    pub run_probe_iff : ((run_probe transport fromisoformat token refuse st).0 ≡ ok tt) ↔ (
        (r : Response Payload) × (first.0 ≡ ok r) × IsNullContract r × IsAccepted refuse second.0)
    unfolding run_probe probe_get advise
    run_probe_iff = (
      λ h.
          let (r, u, e, k) = bind-eq-ok (probe_get transport none) _ st h in
          let (_, honoured, k₁) = lift-eq-ok (assert_null_contract fromisoformat r) _ u k in
          let next : u ≡ record st { network = first.1 } = sym (ap (λ p. p.1) e) in
          (
            r,
            translated-ok transport first.0 r (ap (λ p. p.0) e),
            (assert_null_contract-IsNullContract fromisoformat r).0 honoured,
            (answered_iff transport refuse second.0 _).0 (rw next at k₁),
          ),
      λ (r, e, c, a).
          rw (e, answer_kept transport r, (assert_null_contract-IsNullContract fromisoformat r).1 c)
            ((answered_iff transport refuse second.0 _).1 a),
    )

    -- A ConfigurationError of the probe, which the verifier remembers for good, is a fault of the deployment
    -- that an answer showed: an anonymous request that did not keep the contract, or a cookie set for the
    -- manufactured token where that is refused. Else the transport raised it. No failure to reach the server
    -- becomes one.
    pub run_probe-IsFault :
        (q : Reason)
        → (run_probe transport fromisoformat token refuse st).0 ≡ raise (configuration q)
        → IsFault refuse first.0 second.0 q
    unfolding run_probe probe_get advise
    run_probe-IsFault q h = elim (Result-cases first.0) [
      | inr (e, failed) ↦ elim (Result-cases (translated transport first.0)) [
        | inl (r, k) ↦ absurd (cc (sym failed ∙ translated-ok transport first.0 r k))
        | inr (d, k) ↦ IsFault.of_transport (
            inl
              (translated-configuration transport first.0 q (k ∙ ap raise (raised_of (rw k at h)))))
      ]
      | inl (r, answered_) ↦ elim (Result-cases (assert_null_contract fromisoformat r)) [
        | inr (e, broken) ↦ IsFault.broken_contract r answered_ (λ c.
            absurd (cc (sym broken ∙ (assert_null_contract-IsNullContract fromisoformat r).1 c)))
        | inl (u, honoured) ↦
            answered-IsFault transport refuse first.0 second.0 _ q
              (rw (answered_, answer_kept transport r, honoured) at h)
      ]
    ]
