-- ===== src/Remote/Verifier/Openable.antt =====
-- remote_verifier.py: what the readiness gate comes to over steps of it.
use fastapi_better_auth.Base.{
  ℕ, ◌+◌, ◌≤◌, ◌≡◌, refl, ap, ◌∙◌, inl, inr, Bool, true, false, Option, none, some, Bool-cases, ◌≢◌,
  arith,
}
use fastapi_better_auth.Errors.{Raised, Reason, ok, raise, configuration, exit, Result-cases}
use fastapi_better_auth.Remote.Verifier.{
  Network, State, Times, ready, probe_retry_interval, may_probe, attempt_probe, gate, unready,
  probe_if_due, probe_settled, noted,
}
use fastapi_better_auth.Remote.Verifier.Calls.{Steps}

module _ {T Payload : Type 0} (network : Network T Payload) (is_cancelled : ℕ → Bool) where
  -- A gate that was passed, or that a probe at `deadline` may pass.
  pub data IsOpenable (deadline : ℕ) (st : State T) : Type 0 where
    passed : st.probed_ok ≡ true → IsOpenable deadline st
    due :
        st.contract_failure ≡ none
        → may_probe network deadline st.probe_attempted_at ≡ true
        → IsOpenable deadline st

  due_later :
      (early late : ℕ) (at : Option ℕ)
      → early ≤ late
      → may_probe network early at ≡ true
      → may_probe network late at ≡ true
  unfolding may_probe
  due_later early late none h k = refl
  due_later early late (some at) h k = ground arith

  pub passed_kept :
      (times : Times) (st : State T)
      → st.probed_ok ≡ true
      → ready network is_cancelled times st ≡ (ok tt, st)
  unfolding ready gate unready
  passed_kept times st h = rw h refl

  untried :
      (times : Times) (st : State T)
      → st.probed_ok ≡ false
      → st.contract_failure ≡ none
      → ready network is_cancelled times st ≡ probe_if_due network is_cancelled times st
  unfolding ready unready
  untried times st h k = ap (λ g. unready network is_cancelled times g st) closed
    where
      closed : gate network st ≡ ok false
      closed = unfold gate in rw (h, k) refl

  pub refused_kept :
      (times : Times) (st : State T) (q : Reason)
      → st.probed_ok ≡ false
      → st.contract_failure ≡ some q
      → ready network is_cancelled times st ≡ (raise (configuration q), st)
  unfolding ready gate unready
  refused_kept times st q h k = rw (h, k) refl

  -- a probe that finds the contract broken
  pub ready_broken :
      (times : Times) (st : State T) (q : Reason)
      → st.probed_ok ≡ false
      → st.contract_failure ≡ none
      → may_probe network times.probing st.probe_attempted_at ≡ true
      → (network.run_probe st.network).0 ≡ raise (configuration q)
      → ((ready network is_cancelled times st).0 ≡ raise (configuration q))
        × ((ready network is_cancelled times st).1.probed_ok ≡ false)
        × ((ready network is_cancelled times st).1.contract_failure ≡ some q)
  unfolding probe_if_due attempt_probe probe_settled noted
  ready_broken times st q fresh unfailed due_ found =
      rw (untried times st fresh unfailed, probe_if_due, due_, found) (refl, fresh, refl)

  -- what a probe that raised leaves
  noted-IsOpenable :
      (deadline : ℕ) (previous : Option ℕ) (e : Raised) (st : State T)
      → ((q : Reason) → e ≢ configuration q)
      → may_probe network deadline previous ≡ true
      → IsOpenable deadline st
      → IsOpenable deadline (noted network is_cancelled previous e st)
  unfolding noted
  noted-IsOpenable deadline previous (configuration q) st fine old hopeful = absurd (fine q refl)
  noted-IsOpenable deadline previous (exit n) st fine old hopeful =
      elim (Bool-cases (is_cancelled n)) [
        | inr other ↦ rw other hopeful
        | inl cancelled ↦ rw cancelled (elim hopeful [
          | IsOpenable.passed h ↦ IsOpenable.passed h
          | IsOpenable.due h k ↦ IsOpenable.due h old
        ])
      ]
  noted-IsOpenable deadline previous (Raised.session k r) st fine old hopeful = hopeful
  noted-IsOpenable deadline previous (Raised.better_auth n) st fine old hopeful = hopeful
  noted-IsOpenable deadline previous (Raised.type_error r) st fine old hopeful = hopeful
  noted-IsOpenable deadline previous (Raised.value_error r) st fine old hopeful = hopeful
  noted-IsOpenable deadline previous (Raised.refused r) st fine old hopeful = hopeful
  noted-IsOpenable deadline previous (Raised.other n) st fine old hopeful = hopeful
  noted-IsOpenable deadline previous (Raised.group es) st fine old hopeful = hopeful

  module _
      (never_refuses : (t : T) (q : Reason)
        → (network.run_probe t).0 ≢ raise (configuration q)) where
    attempt-IsOpenable :
        (deadline now : ℕ) (st : State T)
        → now + probe_retry_interval ≤ deadline
        → st.contract_failure ≡ none
        → may_probe network deadline st.probe_attempted_at ≡ true
        → IsOpenable deadline (attempt_probe network is_cancelled now st).1
    unfolding attempt_probe probe_settled
    attempt-IsOpenable deadline now st old unfailed due_ =
        elim (Result-cases (network.run_probe st.network).0) [
          | inl (u, done) ↦ rw done (IsOpenable.passed refl)
          | inr (e, failed) ↦ rw failed (
              noted-IsOpenable deadline st.probe_attempted_at e _
                (λ q k. never_refuses st.network q (failed ∙ ap raise k)) due_
                (IsOpenable.due unfailed (unfold may_probe in ground arith)))
        ]

    ready-IsOpenable :
        (deadline : ℕ) (times : Times) (st : State T)
        → times.attempted + probe_retry_interval ≤ deadline
        → IsOpenable deadline st
        → IsOpenable deadline (ready network is_cancelled times st).1
    unfolding probe_if_due
    ready-IsOpenable deadline times st old hopeful = elim (Bool-cases st.probed_ok) [
      | inl done ↦ rw (passed_kept times st done) (IsOpenable.passed done)
      | inr fresh ↦ elim hopeful [
        | IsOpenable.passed h ↦ absurd (cc)
        | IsOpenable.due h k ↦
            elim (Bool-cases (may_probe network times.probing st.probe_attempted_at)) [
              | inl may ↦
                  rw (untried times st fresh h, probe_if_due, may)
                    (attempt-IsOpenable deadline times.attempted st old h k)
              | inr waits ↦ rw (untried times st fresh h, probe_if_due, waits) (IsOpenable.due h k)
            ]
      ]
    ]

    pub steps-IsOpenable :
        {deadline : ℕ} {st last : State T}
        → Steps network is_cancelled deadline st last
        → IsOpenable deadline st
        → IsOpenable deadline last
    steps-IsOpenable Steps.rest hopeful = hopeful
    steps-IsOpenable {deadline} (Steps.asks times old k) hopeful =
        steps-IsOpenable k (ready-IsOpenable deadline times _ old hopeful)
    steps-IsOpenable (Steps.elsewhere same k) hopeful = steps-IsOpenable k (elim hopeful [
      | IsOpenable.passed h ↦ IsOpenable.passed (same.probed_ok ∙ h)
      | IsOpenable.due h m ↦
          IsOpenable.due (same.contract_failure ∙ h)
            (ap (may_probe network _) same.probe_attempted_at ∙ m)
    ])

    -- the first probe that succeeds opens it
    pub ready_opens :
        (deadline : ℕ) (times : Times) (st : State T)
        → IsOpenable deadline st
        → deadline ≤ times.probing
        → (network.run_probe st.network).0 ≡ ok tt
        → ((ready network is_cancelled times st).0 ≡ ok tt)
          × ((ready network is_cancelled times st).1.probed_ok ≡ true)
    unfolding probe_if_due attempt_probe probe_settled
    ready_opens deadline times st hopeful late up = elim (Bool-cases st.probed_ok) [
      | inl done ↦ rw (passed_kept times st done) (refl, done)
      | inr fresh ↦ elim hopeful [
        | IsOpenable.passed h ↦ absurd (cc)
        | IsOpenable.due h k ↦
            rw
              (
                untried times st fresh h,
                probe_if_due,
                due_later deadline times.probing st.probe_attempted_at late k,
                up,
              )
              (refl, refl)
      ]
    ]

  pub steps_passed :
      {deadline : ℕ} {st last : State T}
      → Steps network is_cancelled deadline st last
      → st.probed_ok ≡ true
      → last.probed_ok ≡ true
  steps_passed Steps.rest h = h
  steps_passed {st = st} (Steps.asks times old k) h =
      steps_passed k (ap (λ p. p.1.probed_ok) (passed_kept times st h) ∙ h)
  steps_passed (Steps.elsewhere same k) h = steps_passed k (same.probed_ok ∙ h)

  pub steps_refused :
      {deadline : ℕ} {st last : State T} (q : Reason)
      → Steps network is_cancelled deadline st last
      → st.probed_ok ≡ false
      → st.contract_failure ≡ some q
      → (last.probed_ok ≡ false) × (last.contract_failure ≡ some q)
  steps_refused q Steps.rest h f = (h, f)
  steps_refused {st = st} q (Steps.asks times old k) h f =
      let same = refused_kept times st q h f in
      steps_refused q k (ap (λ p. p.1.probed_ok) same ∙ h) (ap (λ p. p.1.contract_failure) same ∙ f)
  steps_refused q (Steps.elsewhere same k) h f =
      steps_refused q k (same.probed_ok ∙ h) (same.contract_failure ∙ f)
